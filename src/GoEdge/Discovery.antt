-- ===== src/GoEdge/Discovery.antt =====
-- DiscoverServer against an EdgeAPI that answers as documented: its count is that of the servers that
-- match, and a page holds those from the offset on.
use goedge_ip_cert.Prelude.{
  ℕ, zero, suc, ◌+◌, ◌*◌, ◌≤◌, ◌≡◌, refl, sym, ap, ◌∙◌, String, true, false, Option, none, some,
  List, [], ◌∷◌, ◌++◌, length, take, drop, take-drop, drop-drop, length-drop, drop_past, Bool-cases,
  inl, inr, arith, ltb, ◌<◌, ◌||◌, ◌==◌, ◌=s=◌,
}
use mathlib.Core.List.{append-nil, append_assoc}
use goedge_ip_cert.Prelude.Int.{pos, leb_ℤ, ltb_ℤ, not_positive, ◌+ℤ◌}
use goedge_ip_cert.Error.{Error, known, server_not_found}
use goedge_ip_cert.Action.{Result, ok, err, Action, on, pass, fail, ◌>>=◌}
use goedge_ip_cert.Action.Success.{bind-ok, refuse-passes, refuse-stops, Result-cases}
use goedge_ip_cert.GoEdge.Model.{Credentials, ServerTarget}
use goedge_ip_cert.GoEdge.Api.{
  ApiRequest, get_token, count_servers, list_servers, number_code, read, TokenResult,
  ServerResponse, Api,
}
use goedge_ip_cert.GoEdge.Client.{
  Session, api_code, to_unix, time_now, decode_envelope, read_body, post, lacks_credentials,
  store_token, accept_token, new_token, cached_token, access_token, decode_data, call_attempt, call,
  exchange, outside_step, get_session, set_token,
}
use goedge_ip_cert.GoEdge.Servers.{
  exact_target, exact_targets, append_found, the_target, lift, pages_of, page_size,
  max_server_candidates, discover_pages, discover_server,
}

-- The API takes the credentials, its tokens have not expired when they arrive, and each request gets
-- its answer by HTTP status 200 and code 200, whatever the token and the state of the outside.
pub record Serves {X D : Type 0} (api : Api X D) (answer : ApiRequest → D) : Type 0 where
  pub credentials : Credentials
  pub given : (x : X) → (api.credentials x).0 ≡ ok credentials
  pub complete : lacks_credentials api credentials ≡ false
  pub token : TokenResult
  pub issued : api.decode.token (answer (get_token credentials)) ≡ some token
  pub nonempty : (token.token =s= "") ≡ false
  pub ahead : (x : X) → leb_ℤ token.expires_at (to_unix (api.now x).0) ≡ false
  pub built : (q : ApiRequest) → api.new_request q ≡ none
  pub sent :
      (q : ApiRequest) (t : String) (x : X)
      → (api.send q t x).0
        ≡ ok (record {
          status = 200;
          body = read 1 (
              some
                (record { code = number_code (pos 200); message = []; payload = some (answer q) }));
        })

module _ {X D : Type 0} (api : Api X D) (answer : ApiRequest → D) (h : Serves api answer) where
  post-Serves :
      (q : ApiRequest) (t : String) (s : Session X)
      → (post api q t s).0
        ≡ ok (
          pos 200,
          record { code = number_code (pos 200); message = []; payload = some (answer q) },
        )
  unfolding post exchange read_body decode_envelope api_code ◌>>=◌
  post-Serves q t s = rw (h.built q, h.sent q t s.outside) refl

  accept-Serves :
      (s : Session X)
      → (accept_token api (some (answer (get_token h.credentials))) s).0 ≡ ok h.token.token
  unfolding accept_token store_token time_now outside_step set_token ◌>>=◌
  accept-Serves s = rw (h.issued, h.nonempty, h.ahead s.outside) refl

  token-Serves : (s : Session X) → (new_token api s).0 ≡ ok h.token.token
  unfolding new_token outside_step
  token-Serves s =
      let s1 = (outside_step api.credentials s).1 in
      let s2 = (post api (get_token h.credentials) "" s1).1 in
      ap (λ r. r.0)
        (bind-ok (outside_step api.credentials) _ s h.credentials (h.given s.outside)
          ∙ refuse-passes _ _ _ s1 h.complete
          ∙ bind-ok (post api (get_token h.credentials) "") _ s1 _ (post-Serves _ "" s1)
          ∙ refuse-passes _ _ _ s2 refl)
      ∙ accept-Serves s2

  access-Serves : (s : Session X) → (t : String) × ((access_token api s).0 ≡ ok t)
  unfolding access_token cached_token get_session time_now outside_step ◌>>=◌
  access-Serves s = elim (Bool-cases (s.token =s= "")) [
    | inl e ↦ (h.token.token, rw (e, access_token) (token-Serves s))
    | inr e ↦ elim (Bool-cases (ltb_ℤ ((api.now s.outside).0 +ℤ pos 60_000_000_000) s.expires_at)) [
      | inl l ↦ (s.token, rw (e, l, access_token) refl)
      | inr l ↦ (h.token.token, rw (e, l, access_token) (token-Serves _))
    ]
  ]

  call-Serves :
      {A : Type 0} (q : ApiRequest) (f : D → Option A) (a : A) (s : Session X)
      → f (answer q) ≡ some a
      → (call api q f s).0 ≡ ok a
  unfolding call call_attempt decode_data pass
  call-Serves q f a s e =
      let t = access-Serves s in
      let s1 = (access_token api s).1 in
      ap (λ r. r.0)
        (bind-ok (access_token api) _ s (t.0) (t.1)
          ∙ bind-ok (post api q (t.0)) _ s1 _ (post-Serves q (t.0) s1))
      ∙ rw (e, decode_data) refl

append-append :
    (xs ys : List ServerTarget) (r : Result (List ServerTarget))
    → append_found xs (append_found ys r) ≡ append_found (xs ++ ys) r
append-append xs ys (ok zs) = ap (λ l. ok l) (sym (append_assoc xs ys zs))
append-append xs ys (err e) = refl

append-on :
    (xs : List ServerTarget) (r z : Result (List ServerTarget))
    → append_found xs (on r (λ found. append_found found z) (λ e. err e))
      ≡ on (append_found xs r) (λ found. append_found found z) (λ e. err e)
append-on xs (ok ys) z = append-append xs ys z
append-on xs (err e) z = refl

append-nothing : (r : Result (List ServerTarget)) → r ≡ append_found [] r
append-nothing (ok ys) = refl
append-nothing (err e) = refl

-- The targets of two pages are those of the pages together.
exact_targets-append :
    (ip : String) (xs ys : List ServerResponse)
    → exact_targets ip (xs ++ ys)
      ≡ on (exact_targets ip xs) (λ found. append_found found (exact_targets ip ys)) (λ e. err e)
unfolding exact_targets
exact_targets-append ip [] ys = append-nothing (exact_targets ip ys)
exact_targets-append ip (x ∷ xs) ys = elim (Result-cases (exact_target ip x)) [
  | inr (e, p) ↦ rw (p, exact_targets) refl
  | inl (found, p) ↦
      rw (p, exact_targets)
        (ap (λ r. append_found found r) (exact_targets-append ip xs ys)
          ∙ append-on found (exact_targets ip xs) (exact_targets ip ys))
]

-- No more servers, no more targets.
none_left :
    (ip : String) (rest : List ServerResponse) (exact : List ServerTarget)
    → rest ≡ []
    → ok exact ≡ append_found exact (exact_targets ip rest)
unfolding exact_targets
none_left ip [] exact h = ap (λ l. ok l) (sym (append-nil exact))
none_left ip (x ∷ rest) exact h = absurd cc

-- The targets of a page and of what comes after it.
page-targets :
    (ip : String) (rest : List ServerResponse)
    → exact_targets ip rest
      ≡ on
          (exact_targets ip (take page_size rest))
          (λ found. append_found found (exact_targets ip (drop page_size rest)))
          (λ e. err e)
page-targets ip rest =
    ap (λ servers. exact_targets ip servers) (sym (take-drop page_size rest))
    ∙ exact_targets-append ip (take page_size rest) (drop page_size rest)

after_page :
    (ip : String) (rest : List ServerResponse) (exact found : List ServerTarget)
    → exact_targets ip (take page_size rest) ≡ ok found
    → append_found (exact ++ found) (exact_targets ip (drop page_size rest))
      ≡ append_found exact (exact_targets ip rest)
after_page ip rest exact found p =
    rw (page-targets ip rest, p)
      (sym (append-append exact found (exact_targets ip (drop page_size rest))))

failed_page :
    (ip : String) (rest : List ServerResponse) (exact : List ServerTarget) (e : Error)
    → exact_targets ip (take page_size rest) ≡ err e
    → err e ≡ append_found exact (exact_targets ip rest)
failed_page ip rest exact e p = rw (page-targets ip rest, p) refl

page_short : (n : ℕ) → (n == 0 || ltb n page_size) ≡ true → n < page_size
page_short n h = ground arith

empty_rest : (rest : List ServerResponse) → length rest ≤ page_size * 0 → rest ≡ []
empty_rest [] h = refl
empty_rest (x ∷ rest) h = absurd (omega arith)

module _ {X D : Type 0} (api : Api X D) (answer : ApiRequest → D) (h : Serves api answer)
    (ip : String) (all : List ServerResponse)
    (pages : (offset : ℕ)
      → api.decode.servers (answer (list_servers (some ip) offset))
        ≡ some (take page_size (drop offset all))) where
  -- The loop goes through what is left of the servers.
  pages-rest :
      (rounds offset : ℕ) (exact : List ServerTarget) (s : Session X)
      → length (drop offset all) ≤ page_size * rounds
      → (discover_pages api rounds offset ip exact s).0
        ≡ append_found exact (exact_targets ip (drop offset all))
  unfolding discover_pages pass fail ◌>>=◌
  pages-rest zero offset exact s le =
      none_left ip (drop offset all) exact (empty_rest (drop offset all) le)
  pages-rest (suc rounds) offset exact s le =
      let rest = drop offset all in
      let page = take page_size rest in
      let request = call api (list_servers (some ip) offset) api.decode.servers in
      let s1 = (request s).1 in
      let called =
        ap (λ r. r.0)
          (bind-ok request _ s page (call-Serves api answer h _ _ page s (pages offset))) in
      elim (Result-cases (exact_targets ip page)) [
        | inr (e, p) ↦ called ∙ rw p (failed_page ip rest exact e p)
        | inl (found, p) ↦ elim (Bool-cases (length page == 0 || ltb (length page) page_size)) [
          | inl short ↦
              called
              ∙ rw (p, short)
                  (none_left ip (drop page_size rest) (exact ++ found)
                    (drop_past page_size rest (page_short (length page) short)))
              ∙ after_page ip rest exact found p
          | inr full ↦
              let next = drop-drop offset page_size all in
              called
              ∙ rw (p, full)
                  (pages-rest rounds (offset + page_size) (exact ++ found) s1
                    (rw (← next, length-drop page_size rest) (omega arith)))
              ∙ ap (λ l. append_found (exact ++ found) (exact_targets ip l)) (sym next)
              ∙ after_page ip rest exact found p
        ]
      ]

-- What DiscoverServer means: the one target among all servers that match.
abbrev pub choose : String → List ServerResponse → Result ServerTarget
choose ip all = on (exact_targets ip all) (λ targets. the_target targets) (λ e. err e)

pages_enough : (n : ℕ) → n ≤ page_size * pages_of (pos n)
pages_enough n = omega arith

is_some_count : (n : ℕ) → not_positive (pos (suc n)) ≡ false
is_some_count n = ground arith

few_count : (n : ℕ) → n ≤ 10_000 → ltb_ℤ max_server_candidates (pos n) ≡ false
few_count n h = ground arith

none_at_all : (ip : String) → choose ip [] ≡ err (known server_not_found)
unfolding exact_targets the_target
none_at_all ip = refl

-- A last step that changes nothing.
bind-lift :
    {X A B : Type 0} (m : Action (Session X) A) (f : A → Result B) (s : Session X) (r : Result A)
    → (m s).0 ≡ r
    → ((m >>= λ a. lift (f a)) s).0 ≡ on r (λ a. f a) (λ e. err e)
unfolding ◌>>=◌
bind-lift m f s (err e) h = rw h refl
bind-lift m f s (ok a) h = elim (Result-cases (f a)) [
  | inl (b, e) ↦ rw (h, e) refl
  | inr (x, e) ↦ rw (h, e) refl
]

-- On an EdgeAPI that answers every request and pages the servers that match as documented, at most
-- 10,000 of them, DiscoverServer finds in its pages what a search through all the servers at once
-- finds: the same target, or the same error.
pub discover_server-choose :
    {X D : Type 0} (api : Api X D) (answer : ApiRequest → D) (ip : String)
    (all : List ServerResponse) (s : Session X)
    → Serves api answer
    → api.decode.count (answer (count_servers (some ip))) ≡ some (pos (length all))
    → ((offset : ℕ)
        → api.decode.servers (answer (list_servers (some ip) offset))
          ≡ some (take page_size (drop offset all)))
    → length all ≤ 10_000
    → (discover_server api ip s).0 ≡ choose ip all
unfolding discover_server
discover_server-choose api answer ip [] s h count pages few =
    let request = call api (count_servers (some ip)) api.decode.count in
    ap (λ r. r.0)
      (bind-ok request _ s _ (call-Serves api answer h _ _ (pos 0) s count)
        ∙ refuse-stops _ _ _ (request s).1 refl)
    ∙ sym (none_at_all ip)
discover_server-choose api answer ip (x ∷ all) s h count pages few =
    let request = call api (count_servers (some ip)) api.decode.count in
    let n = length (x ∷ all) in
    let s1 = (request s).1 in
    ap (λ r. r.0)
      (bind-ok request _ s _ (call-Serves api answer h _ _ (pos n) s count)
        ∙ refuse-passes _ _ _ s1 (is_some_count (length all))
        ∙ refuse-passes _ _ _ s1 (few_count n few))
    ∙ bind-lift (discover_pages api (pages_of (pos n)) 0 ip []) the_target s1 _ (
        pages-rest api answer h ip (x ∷ all) pages (pages_of (pos n)) 0 [] s1 (pages_enough n)
        ∙ sym (append-nothing (exact_targets ip (x ∷ all))))
