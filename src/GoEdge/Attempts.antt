-- ===== src/GoEdge/Attempts.antt =====
-- How many requests the client posts.
use mathlib.Core.Path.{subst}
use mathlib.Core.Option.{some-injective}
use goedge_ip_cert.Prelude.{
  [], ℕ, zero, suc, ◌+◌, ◌*◌, ◌≤◌, ◌≡◌, refl, String, Bool, true, false, Option, none, some, List,
  length, if◌then◌else◌, arith,
}
use goedge_ip_cert.Prelude.Int.{ℤ, pos, pos_part, neg_part, ltb_ℤ, eq_ℤ}
use goedge_ip_cert.Error.{Error}
use goedge_ip_cert.Action.{Result, ok, err, Action, after, pass, fail, refuse_if, wrap_error, ◌>>=◌}
use goedge_ip_cert.Action.Keeps.{Keeps, keeps_rules}
use goedge_ip_cert.GoEdge.Model.{ServerTarget}
use goedge_ip_cert.GoEdge.Api.{
  ServerResponse, ApiRequest, Envelope, Body, broken, read, TokenResult, Api,
}
use goedge_ip_cert.GoEdge.Client.{
  Session, get_session, set_token, invalidate_token, outside_step, exchange, time_now,
  decode_envelope, read_body, post, store_token, accept_token, new_token, cached_token,
  access_token, decode_data, refused, call_attempt, call,
}
use goedge_ip_cert.GoEdge.Servers.{
  max_server_candidates, discover_pages, discover_server, pages_of, lift, exact_targets,
}

-- An action that posts at most `n` requests.
record Posts {X A : Type 0} (n : ℕ) (m : Action (Session X) A) : Type 0 where
  at : (s : Session X) → length (m s).1.posts ≤ n + length s.posts

abbrev Posted : {X : Type 0} → List ApiRequest → Session X → Type 0
Posted ps s = s.posts ≡ ps

module _ {X : Type 0} where
  Posts-quiet :
      {A : Type 0} (n : ℕ) (m : Action (Session X) A)
      → ((ps : List ApiRequest) → Keeps (Posted ps) m)
      → Posts n m
  Posts-quiet n m q = record { at = λ s. (let e = (q s.posts).at s refl in rw e (omega arith)) }

  Posts-after :
      {A B : Type 0} (n : ℕ) (r : Result A) (f : A → Action (Session X) B)
      → ((a : A) → Posts n (f a))
      → Posts n (after r f)
  Posts-after n (ok a) f pf = record { at = λ s. (pf a).at s }
  Posts-after n (err e) f pf = record { at = λ s. omega arith }

  -- The posts of both steps fit in `n`.
  Posts-bind :
      {A B : Type 0} (k l n : ℕ) (m : Action (Session X) A) (f : A → Action (Session X) B)
      → k + l ≤ n
      → Posts k m
      → ((a : A) → Posts l (f a))
      → Posts n (m >>= f)
  unfolding ◌>>=◌
  Posts-bind k l n m f le pm pf = record {
    at = λ s. let h = pm.at s in let e = (Posts-after l (m s).0 f pf).at (m s).1 in omega arith;
  }

  Posts-weaken : {A : Type 0} (k n : ℕ) (m : Action (Session X) A) → k ≤ n → Posts k m → Posts n m
  Posts-weaken k n m le pm = record { at = λ s. (let h = pm.at s in omega arith) }

  Posts-if :
      {A : Type 0} (n : ℕ) (b : Bool) (m m' : Action (Session X) A)
      → Posts n m
      → Posts n m'
      → Posts n (if b then m else m')
  Posts-if n true m m' h h' = h
  Posts-if n false m m' h h' = h'

  pass-Posts : {A : Type 0} (n : ℕ) (a : A) → Posts {X = X} n (pass a)
  pass-Posts n a = Posts-quiet n _ λ ps. search keeps_rules

  fail-Posts : {A : Type 0} (n : ℕ) (e : Error) → Posts {X = X} {A = A} n (fail e)
  fail-Posts n e = Posts-quiet n _ λ ps. search keeps_rules

  -- What comes after a refusal may count on what was not refused.
  Posts-refuse :
      {A : Type 0} (n : ℕ) (b : Bool) (e : Error) (f : Unit {0} → Action (Session X) A)
      → (b ≡ false → Posts n (f tt))
      → Posts n (refuse_if b e >>= f)
  unfolding ◌>>=◌
  Posts-refuse n true e f h = record { at = λ s. omega arith }
  Posts-refuse n false e f h = record { at = λ s. (h refl).at s }

  exchange-Posts : {A : Type 0} (q : ApiRequest) (m : Action X A) → Posts 1 (exchange q m)
  unfolding exchange
  exchange-Posts q m = record { at = λ s. omega arith }

  wrap-Posts :
      {A : Type 0} (n : ℕ) (g : Error → Error) (m : Action (Session X) A)
      → Posts n m
      → Posts n (wrap_error g m)
  unfolding wrap_error
  wrap-Posts n g m pm = record { at = λ s. pm.at s }

  outside-Posted :
      (ps : List ApiRequest) {A : Type 0} (m : Action X A) → Keeps (Posted ps) (outside_step m)
  unfolding outside_step
  outside-Posted ps m = record { at = λ s h. h }

  set_token-Posted :
      (ps : List ApiRequest) (t : String) (at : ℤ) → Keeps (Posted {X = X} ps) (set_token t at)
  unfolding set_token
  set_token-Posted ps t at = record { at = λ s h. h }

  get_session-Posted : (ps : List ApiRequest) → Keeps (Posted {X = X} ps) get_session
  unfolding get_session
  get_session-Posted ps = record { at = λ s h. h }

  decode_envelope-Posted :
      {D : Type 0} (ps : List ApiRequest) (e : Option (Envelope D))
      → Keeps (Posted {X = X} ps) (decode_envelope e)
  unfolding decode_envelope
  decode_envelope-Posted ps none = search keeps_rules
  decode_envelope-Posted ps (some e) = search keeps_rules

  read_body-Posted :
      {D : Type 0} (ps : List ApiRequest) (b : Body D) → Keeps (Posted {X = X} ps) (read_body b)
  unfolding read_body
  read_body-Posted ps (broken e) = search keeps_rules
  read_body-Posted ps (read size e) = search (keeps_rules, decode_envelope-Posted ps)

  decode_data-Posted :
      {A D : Type 0} (ps : List ApiRequest) (f : D → Option A) (o : Option D)
      → Keeps (Posted {X = X} ps) (decode_data f o)
  unfolding decode_data
  decode_data-Posted ps f none = search keeps_rules
  decode_data-Posted ps f (some raw) = search keeps_rules

pages_few : (count : ℤ) → ltb_ℤ max_server_candidates count ≡ false → 4 * pages_of count ≤ 400
pages_few count h =
    let few : pos_part count ≤ 10_000 + neg_part count = ground arith in ground arith

module _ {X D : Type 0} (api : Api X D) where
  store_token-Posted :
      (ps : List ApiRequest) (t : TokenResult) → Keeps (Posted ps) (store_token api t)
  unfolding store_token time_now
  store_token-Posted ps t = search (keeps_rules, outside-Posted ps, set_token-Posted ps)

  accept_token-Posted :
      (ps : List ApiRequest) (o : Option D) → Keeps (Posted ps) (accept_token api o)
  unfolding accept_token
  accept_token-Posted ps none = search keeps_rules
  accept_token-Posted ps (some raw) = search (keeps_rules, store_token-Posted ps)

  post-Posts : (q : ApiRequest) (t : String) → Posts 1 (post api q t)
  unfolding post
  post-Posts q t =
      Posts-bind 0 1 1 _ _ (omega arith) (Posts-quiet 0 _ λ ps. search keeps_rules) λ _.
        Posts-bind 1 0 1 _ _ (omega arith) (wrap-Posts 1 _ _ (exchange-Posts q _))
          λ r. Posts-quiet 0 _ λ ps. search (keeps_rules, read_body-Posted ps)

  new_token-Posts : Posts 1 (new_token api)
  unfolding new_token
  new_token-Posts =
      Posts-bind 0 1 1 _ _ (omega arith) (Posts-quiet 0 _ λ ps. outside-Posted ps _) λ c.
        Posts-bind 0 1 1 _ _ (omega arith) (Posts-quiet 0 _ λ ps. search keeps_rules) λ _.
          Posts-bind 1 0 1 _ _ (omega arith) (post-Posts _ _)
            λ a. Posts-quiet 0 _ λ ps. search (keeps_rules, accept_token-Posted ps)

  access_token-Posts : Posts 1 (access_token api)
  unfolding access_token cached_token time_now
  access_token-Posts = Posts-bind 0 1 1 _ _ (omega arith) (Posts-quiet 0 _ get_session-Posted) λ s.
      Posts-if 1 _ _ _ new_token-Posts (
        Posts-bind 0 1 1 _ _ (omega arith) (Posts-quiet 0 _ λ ps. outside-Posted ps _)
          λ now. Posts-if 1 _ _ _ (pass-Posts 1 _) new_token-Posts)

  refused-Posts :
      {A : Type 0} (text : List ℕ) (o : Option (Action (Session X) A)) (n : ℕ)
      → ((again : Action (Session X) A) → o ≡ some again → Posts n again)
      → Posts n (refused text o)
  unfolding refused invalidate_token
  refused-Posts text none n h = Posts-if n _ _ _ (fail-Posts n _) (fail-Posts n _)
  refused-Posts text (some again) n h =
      Posts-if n _ _ _
        (Posts-bind 0 n n _ _ (omega arith) (Posts-quiet 0 _ λ ps. set_token-Posted ps _ _)
          λ _. h again refl)
        (Posts-if n _ _ _ (fail-Posts n _) (fail-Posts n _))

  attempt-Posts :
      {A : Type 0} (q : ApiRequest) (f : D → Option A) (o : Option (Action (Session X) A)) (n : ℕ)
      → ((again : Action (Session X) A) → o ≡ some again → Posts n again)
      → Posts (2 + n) (call_attempt api q f o)
  unfolding call_attempt
  attempt-Posts q f o n h = Posts-bind 1 (1 + n) (2 + n) _ _ (omega arith) access_token-Posts λ t.
      Posts-bind 1 n (1 + n) _ _ (omega arith) (post-Posts q t) λ a.
        Posts-if n (eq_ℤ (a.0) (pos 200)) _ _
          (Posts-quiet n (decode_data f (a.1).payload) λ ps. decode_data-Posted ps f (a.1).payload)
          (refused-Posts (a.1).message o n h)

  call-Posts : {A : Type 0} (q : ApiRequest) (f : D → Option A) → Posts 4 (call api q f)
  unfolding call
  call-Posts q f = attempt-Posts q f _ 2 λ again e.
      subst (λ m. Posts 2 m) (some-injective _ _ e) (attempt-Posts q f none 0 (λ _ n. absurd cc))

  -- One call posts at most four requests: a token, the request, and both once more after the API
  -- complained about the token.
  pub posts-call :
      {A : Type 0} (q : ApiRequest) (f : D → Option A) (s : Session X)
      → length (call api q f s).1.posts ≤ 4 + length s.posts
  posts-call q f s = (call-Posts q f).at s

  exact-Posts :
      (ip : String) (servers : List ServerResponse)
      → Posts {X = X} 0 (lift (exact_targets ip servers))
  exact-Posts ip servers = Posts-quiet 0 _ λ ps. search keeps_rules

  pages-Posts :
      (rounds offset : ℕ) (ip : String) (exact : List ServerTarget)
      → Posts (4 * rounds) (discover_pages api rounds offset ip exact)
  unfolding discover_pages
  pages-Posts zero offset ip exact = pass-Posts _ _
  pages-Posts (suc rounds) offset ip exact =
      Posts-bind 4 (4 * rounds) _ _ _ (omega arith) (call-Posts _ _) λ servers.
        Posts-bind 0 (4 * rounds) _ _ _ (omega arith) (exact-Posts ip servers)
          λ found. Posts-if _ _ _ _ (pass-Posts _ _) (pages-Posts rounds _ ip _)

  -- Finding the server of an address ends after at most 404 requests, whatever the API answers: one
  -- call for the count, and one for each of the 100 pages at most.
  pub posts-discover_server :
      (ip : String) (s : Session X)
      → length (discover_server api ip s).1.posts ≤ 404 + length s.posts
  unfolding discover_server
  posts-discover_server ip s =
      (Posts-bind 4 400 404 _ _ (omega arith) (call-Posts _ _) λ count. Posts-refuse 400 _ _ _ λ _.
          Posts-refuse 400 _ _ _ λ few.
            Posts-bind 400 0 400 _ _ (omega arith)
              (Posts-weaken _ 400 _ (pages_few count few) (pages-Posts _ 0 ip []))
              λ exact. Posts-quiet 0 _ λ ps. search keeps_rules).at
        s
