-- ===== src/Config/Accepted.antt =====
-- What Load promises of the configuration that it returns.
use mathlib.Core.Path.{subst}
use goedge_ip_cert.Prelude.{
  ◌≡◌, refl, String, Bool, true, false, not, ◌&&◌, ◌||◌, Option, none, some, ap, ◌=s=◌, eq_iff,
  arith, ◌⊎◌, inl, inr, Option-cases, Bool-cases, allowed,
}
use goedge_ip_cert.Prelude.Int.{ℤ, pos, eq_ℤ, eq_of_parts, ◌*ℤ◌}
use goedge_ip_cert.Action.{ok, Action, on, on_option, pass, fail}
use goedge_ip_cert.Action.Success.{
  step-succeeds, refuse-succeeds, ok-inj, err≢ok, wrap-succeeds, Result-cases,
}
use goedge_ip_cert.Ipv4.{Addr, codes, parse_public}
use goedge_ip_cert.Ipv4.Canonical.{Canonical, parse_public-Canonical}
use goedge_ip_cert.Scheduler
use goedge_ip_cert.Scheduler.{hours}
use goedge_ip_cert.Config.{
  Config, AcmeConfig, default, Schedule, Net, Url, set_defaults, accepts_schedule, accepts_endpoint,
  accepts_url, is_local_host, accepts_acme, validate, load, policy_of, lets_encrypt_production,
  lets_encrypt_staging,
}

schedule-policy :
    (s : Schedule) → accepts_schedule s ≡ true → Scheduler.validate (policy_of s) ≡ none
unfolding accepts_schedule Scheduler.validate
schedule-policy s h = ground arith

-- The name localhost, or the text of a loopback address.
pub IsLocalHost : Net → String → Type 0
IsLocalHost net host = (host ≡ "localhost") ⊎ (net.is_loopback host ≡ some true)

loopback_only : (o : Option Bool) → on_option o false (λ b. b) ≡ true → o ≡ some true
loopback_only none h = absurd cc
loopback_only (some b) h = ap (λ x. some x) h

pub IsLocalHost-cases :
    (net : Net) (host : String) → is_local_host net host ≡ true → IsLocalHost net host
unfolding is_local_host IsLocalHost
IsLocalHost-cases net host h = elim (Bool-cases (host =s= "localhost")) [
  | inl e ↦ inl ((eq_iff host "localhost").0 e)
  | inr e ↦ inr (loopback_only _ (rw (e, is_local_host) at h))
]

-- The value that the file gives, and the value of the program where the file gives 0.
pub data Defaulted (value : ℤ) : ℤ → ℤ → Type 0 where
  chosen : {z : ℤ} → (z ≡ pos 0 → ⊥) → Defaulted value z z
  absent : Defaulted value (pos 0) value

-- The five durations that have a default: 15 seconds, 72 hours, 15 minutes, 6 hours, 10 minutes.
pub record WithDefaults (decoded c : Config) : Type 0 where
  pub timeout :
      Defaulted (pos 15_000_000_000) decoded.goedge.request_timeout c.goedge.request_timeout
  pub renew : Defaulted (hours 72) decoded.schedule.renew_before c.schedule.renew_before
  pub retry_min : Defaulted (pos 900_000_000_000) decoded.schedule.retry_min c.schedule.retry_min
  pub retry_max : Defaulted (hours 6) decoded.schedule.retry_max c.schedule.retry_max
  pub jitter : Defaulted (pos 600_000_000_000) decoded.schedule.jitter_max c.schedule.jitter_max

-- The address, the endpoint, the directory and the schedule.
pub record Accepted (net : Net) (c : Config) : Type 0 where
  pub address : Addr
  pub target : Canonical (codes c.ipv4) address
  pub url : Url
  pub endpoint : net.parse_url c.goedge.endpoint ≡ some url
  pub is_local : IsLocalHost net url.hostname
  pub directory :
      (c.acme.directory_url ≡ lets_encrypt_production)
      ⊎ (c.acme.directory_url ≡ lets_encrypt_staging)
  pub policy : Scheduler.validate (policy_of c.schedule) ≡ none

zero_of : (z : ℤ) → eq_ℤ z (pos 0) ≡ true → z ≡ pos 0
zero_of z h = eq_of_parts z (pos 0) (ground arith)

not_zero : (z : ℤ) → eq_ℤ z (pos 0) ≡ false → z ≡ pos 0 → ⊥
not_zero z h p = absurd (let g = rw p at h in cc)

default-Defaulted : (value z : ℤ) → Defaulted value z (default value z)
default-Defaulted value z = elim (Bool-cases (eq_ℤ z (pos 0))) [
  | inl e ↦ let same = zero_of z e in rw same absent
  | inr e ↦ rw e (chosen (λ p. not_zero z e p))
]

set_defaults-WithDefaults : (c : Config) → WithDefaults c (set_defaults c)
unfolding set_defaults ◌*ℤ◌
set_defaults-WithDefaults c = record {
  timeout = default-Defaulted _ c.goedge.request_timeout;
  renew = default-Defaulted _ c.schedule.renew_before;
  retry_min = default-Defaulted _ c.schedule.retry_min;
  retry_max = default-Defaulted _ c.schedule.retry_max;
  jitter = default-Defaulted _ c.schedule.jitter_max;
}

local_url :
    (net : Net) (url : Url) → accepts_url net url ≡ true → is_local_host net url.hostname ≡ true
unfolding accepts_url
local_url net url h = elim (Bool-cases (is_local_host net url.hostname)) [
  | inl e ↦ e
  | inr e ↦ ground arith
]

local_endpoint :
    (net : Net) (endpoint : String)
    → accepts_endpoint net endpoint ≡ true
    → (url : Url) × (net.parse_url endpoint ≡ some url) × (is_local_host net url.hostname ≡ true)
unfolding accepts_endpoint
local_endpoint net endpoint h = elim (Option-cases (net.parse_url endpoint)) [
  | inl e ↦ absurd (let g = rw e at h in cc)
  | inr (url, e) ↦ (url, e, local_url net url (rw e at h))
]

either : (a b c d e : Bool) → ((a || b) && c && d && e) ≡ true → (a ≡ true) ⊎ (b ≡ true)
either true b c d e h = inl refl
either false true c d e h = inr refl
either false false c d e h = absurd cc

the_directory :
    (a : AcmeConfig)
    → accepts_acme a ≡ true
    → (a.directory_url ≡ lets_encrypt_production) ⊎ (a.directory_url ≡ lets_encrypt_staging)
unfolding accepts_acme
the_directory a h = elim (either _ _ _ _ _ h) [
  | inl e ↦ inl ((eq_iff a.directory_url lets_encrypt_production).0 e)
  | inr e ↦ inr ((eq_iff a.directory_url lets_encrypt_staging).0 e)
]

acme_part : (a b c : Bool) → (not a || b || c) ≡ false → a ≡ true
acme_part true b c h = refl
acme_part false b c h = absurd cc

the_address :
    {X : Type 0} (value : String) (x : X)
    → (on {B = Action X (Unit {0})} (parse_public (codes value)) (λ ip. pass tt) (λ e. fail e) x).0
      ≡ ok tt
    → (ip : Addr) × (parse_public (codes value) ≡ ok ip)
unfolding fail
the_address value x h = elim (Result-cases (parse_public (codes value))) [
  | inl r ↦ r
  | inr (e, p) ↦ absurd (err≢ok (rw p at h))
]

-- A configuration that Load returns names a target by the one spelling of a public address, an EdgeAPI
-- at localhost or a loopback address, a directory of Let's Encrypt, and a schedule that the scheduler
-- accepts; it has the durations of the file, but where one is 0 the default of 15 seconds for the
-- request, of 72 hours ahead for the renewal, of 15 minutes to 6 hours for the retry and of 10 minutes
-- for the jitter.
pub load-Accepted :
    {X : Type 0} (net : Net) (read : Action X Config) (x : X) (c : Config)
    → (load net read x).0 ≡ ok c
    → Accepted net c × ((decoded : Config) × ((read x).0 ≡ ok decoded) × WithDefaults decoded c)
unfolding load validate pass
load-Accepted net read x c h =
    let a = step-succeeds _ _ x c h in
    let b = step-succeeds _ _ _ c a.2 in
    let same : set_defaults a.0 ≡ c = ok-inj b.2 in
    let d = step-succeeds _ _ _ tt b.1 in
    let e = step-succeeds _ _ _ tt d.2 in
    let f = step-succeeds _ _ _ tt e.2 in
    let g = step-succeeds _ _ _ tt f.2 in
    let i = step-succeeds _ _ _ tt g.2 in
    let j = step-succeeds _ _ _ tt i.2 in
    let address = the_address _ _ e.1 in
    let endpoint = refuse-succeeds _ _ _ _ f.1 in
    let acme = refuse-succeeds _ _ _ _ j.1 in
    let schedule = refuse-succeeds _ _ _ _ j.2 in
    let local = local_endpoint net _ (allowed _ endpoint.0) in
    (
      subst (λ z. Accepted net z) same
          (record {
            address = address.0;
            target = parse_public-Canonical _ address.0 address.1;
            url = local.0;
            endpoint = local.1;
            is_local = IsLocalHost-cases net _ local.2;
            directory = the_directory _ (acme_part _ _ _ acme.0);
            policy = schedule-policy _ (allowed _ schedule.0);
          }),
      (
        a.0,
        wrap-succeeds _ read x a.0 a.1,
        subst (λ z. WithDefaults a.0 z) same (set_defaults-WithDefaults a.0),
      ),
    )
