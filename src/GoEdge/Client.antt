-- ===== src/GoEdge/Client.antt =====
-- internal/goedge/client.go: the client of the EdgeAPI, with its cached token. The mutex is not
-- modelled: one run calls the client from one goroutine. A nil response is not modelled: no method
-- passes one.
use goedge_ip_cert.Prelude.{
  ℕ, ◌/◌, String, Bool, not, ◌&&◌, ◌||◌, Option, none, some, List, ◌∷◌, ltb, leb, ◌=s=◌,
  if◌then◌else◌,
}
use goedge_ip_cert.Prelude.Int.{ℤ, pos, negsuc, ltb_ℤ, leb_ℤ, eq_ℤ, ◌+ℤ◌, ◌*ℤ◌}
use goedge_ip_cert.Error.{Error, known, message, wrapped, authentication, unexpected_response}
use goedge_ip_cert.Action.{
  ok, Action, pass, fail, on_option, refuse_if, wrap_error, lift_option, ◌>>=◌, ◌>>◌,
}
use goedge_ip_cert.Ipv4.{codes}
use goedge_ip_cert.Text.{mentions}
use goedge_ip_cert.GoEdge.Model.{Credentials}
use goedge_ip_cert.GoEdge.Api.{
  ApiRequest, get_token, path, CodeJson, number_code, text_code, other_code, absent, Envelope, Body,
  broken, read, TokenResult, Api,
}

-- The fields of Client that change, the history of the requests posted (newest first, which only the
-- statements read), and the outside.
pub record Session (X : Type 0) : Type 0 where
  pub token : String
  -- nanoseconds since 1970
  pub expires_at : ℤ
  pub posts : List ApiRequest
  pub outside : X

abbrev pub max_response_size : ℕ
max_response_size = 33_554_432

-- time.Time{}, the start of the year 1
abbrev pub zero_time : ℤ
zero_time = negsuc 62_135_596_799_999_999_999

-- time.Unix(seconds, 0)
unfoldable pub of_unix : ℤ → ℤ
unfolding ◌*ℤ◌
of_unix seconds = seconds *ℤ pos 1_000_000_000

-- Unix() of a time
unfoldable pub to_unix : ℤ → ℤ
to_unix (pos n) = pos (n / 1_000_000_000)
to_unix (negsuc n) = negsuc (n / 1_000_000_000)

-- (*apiCode).UnmarshalJSON; an envelope without a code has code 0.
unfoldable pub api_code : CodeJson → Option ℤ
api_code (number_code n) = some n
api_code (text_code value) = value
api_code other_code = none
api_code absent = some (pos 0)

abbrev pub unexpected : String → Error
unexpected what = wrapped what (known unexpected_response)

module _ {X : Type 0} where
  unfoldable pub get_session : Action (Session X) (Session X)
  get_session s = (ok s, s)

  unfoldable pub set_token : String → ℤ → Action (Session X) (Unit {0})
  set_token token at s = (ok tt, record s { token = token; expires_at = at })

  unfoldable pub invalidate_token : Action (Session X) (Unit {0})
  unfolding set_token
  invalidate_token = set_token "" zero_time

  unfoldable pub outside_step : {A : Type 0} → Action X A → Action (Session X) A
  outside_step m s = let (r, x) = m s.outside in (r, record s { outside = x })

  -- One HTTP exchange, with its entry in the history.
  unfoldable pub exchange : {A : Type 0} → ApiRequest → Action X A → Action (Session X) A
  exchange q m s = let (r, x) = m s.outside in (r, record s { posts = q ∷ s.posts; outside = x })

module _ {X D : Type 0} where
  unfoldable pub decode_envelope : Option (Envelope D) → Action (Session X) (ℤ × Envelope D)
  unfolding api_code
  decode_envelope none = fail (unexpected "invalid envelope")
  decode_envelope (some e) =
      on_option (api_code e.code) (fail (unexpected "invalid envelope")) (λ code. pass (code, e))

  unfoldable pub read_body : Body D → Action (Session X) (ℤ × Envelope D)
  unfolding decode_envelope
  read_body (broken e) = fail e
  read_body (read size envelope) = do
    refuse_if (ltb max_response_size size) (unexpected "response above 32 MiB")
    decode_envelope envelope

  unfoldable pub decode_data : {A : Type 0} → (D → Option A) → Option D → Action (Session X) A
  decode_data decode none = fail (unexpected "data is empty")
  decode_data decode (some raw) = on_option (decode raw) (fail (unexpected "data")) λ a. pass a

module _ {X : Type 0} where
  -- callAttempt, for a code other than 200
  unfoldable pub refused :
      {A : Type 0} → List ℕ → Option (Action (Session X) A) → Action (Session X) A
  unfolding mentions invalidate_token
  refused text refresh =
      let denied =
        if mentions (codes "access token") text || mentions (codes "permission") text
        then fail (known authentication)
        else fail (message "GoEdge API") in
      on_option refresh denied
        λ again. if mentions (codes "token") text then (do invalidate_token; again) else denied

module _ {X D : Type 0} (api : Api X D) where
  unfoldable pub time_now : Action (Session X) ℤ
  unfolding outside_step
  time_now = outside_step (λ x. (let (t, x') = api.now x in (ok t, x')))

  -- The code and the rest of the envelope.
  unfoldable pub post : ApiRequest → String → Action (Session X) (ℤ × Envelope D)
  unfolding read_body exchange path
  post q token = do
    lift_option (api.new_request q)
    response ← wrap_error (wrapped (path q)) (exchange q (api.send q token))
    refuse_if (ltb response.status 200 || leb 300 response.status) (message "GoEdge HTTP status")
    read_body response.body

  unfoldable pub lacks_credentials : Credentials → Bool
  lacks_credentials c =
      c.access_key_id =s= ""
      || c.access_key =s= ""
      || not (c.identity_type =s= "admin") && not (c.identity_type =s= "user")

  -- ExpiresAt has to lie ahead.
  unfoldable pub store_token : TokenResult → Action (Session X) String
  unfolding to_unix time_now set_token
  store_token result = do
    now ← time_now
    refuse_if (leb_ℤ result.expires_at (to_unix now)) (unexpected "invalid token answer")
    set_token result.token (of_unix result.expires_at)
    pass result.token

  unfoldable pub accept_token : Option D → Action (Session X) String
  unfolding store_token
  accept_token none = fail (unexpected "invalid token answer")
  accept_token (some raw) =
      on_option (api.decode.token raw) (fail (unexpected "invalid token answer")) λ result.
        if result.token =s= "" then fail (unexpected "invalid token answer") else store_token result

  unfoldable pub new_token : Action (Session X) String
  unfolding accept_token lacks_credentials
  new_token = do
    credentials ← outside_step api.credentials
    refuse_if (lacks_credentials credentials) (message "GoEdge credentials are incomplete")
    answer ← post (get_token credentials) ""
    refuse_if (not (eq_ℤ (answer.0) (pos 200))) (known authentication)
    accept_token (answer.1).payload

  -- A cached token serves until a minute before its end.
  unfoldable pub cached_token : Session X → Action (Session X) String
  unfolding new_token
  cached_token session = do
    now ← time_now
    if ltb_ℤ (now +ℤ pos 60_000_000_000) session.expires_at then pass session.token else new_token

  unfoldable pub access_token : Action (Session X) String
  unfolding cached_token get_session
  access_token = do
    session ← get_session
    if session.token =s= "" then new_token else cached_token session

  -- callAttempt; `refresh` is what follows when the API complains about the token, if anything may.
  unfoldable pub call_attempt :
      {A : Type 0}
      → ApiRequest
      → (D → Option A)
      → Option (Action (Session X) A)
      → Action (Session X) A
  unfolding access_token decode_data refused
  call_attempt q decode refresh = do
    token ← access_token
    answer ← post q token
    if eq_ℤ (answer.0) (pos 200)
        then decode_data decode (answer.1).payload
        else refused (answer.1).message refresh

  unfoldable pub call : {A : Type 0} → ApiRequest → (D → Option A) → Action (Session X) A
  unfolding call_attempt
  call q decode = call_attempt q decode (some (call_attempt q decode none))
