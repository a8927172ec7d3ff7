-- ===== src/Scheduler/Retry.antt =====
-- The back-off of Policy.RetryDelay.
use goedge_ip_cert.Prelude.{
  ℕ, zero, suc, ◌-◌, ◌*◌, ◌/◌, ◌^◌, ◌≤◌, ◌<◌, ◌≡◌, refl, none, Bool-cases, inl, inr, leb, arith,
  if◌then◌else◌,
}
use goedge_ip_cert.Prelude.Int.{pos_part, neg_part, ℤ, pos, negsuc, ◌*ℤ◌, ◌≤ℤ◌}
use goedge_ip_cert.Scheduler.{Policy, validate, to_int64, delay_loop, retry_delay}
use native.Mathlib.Nat.{pow-suc, pow-le-pow_right, mul_comm}

-- What the delay is after `rounds` doublings of `delay`, capped at `most`.
unfoldable pub backoff : ℕ → ℕ → ℕ → ℕ
backoff zero most delay = delay
backoff (suc rounds) most delay =
    if leb (most / 2) (delay * 2 ^ rounds) then most else delay * 2 ^ suc rounds

double : (d : ℕ) → d < 2 ^ 62 → to_int64 (pos d *ℤ pos 2) ≡ pos (d * 2)
unfolding to_int64 ◌*ℤ◌
double d h = ground arith

shift : (d k : ℕ) → d * 2 * 2 ^ k ≡ d * 2 ^ suc k
shift d k = rw pow-suc (omega arith)

pow_pos : (k : ℕ) → 0 < 2 ^ k
pow_pos zero = omega arith
pow_pos (suc k) = rw pow-suc (omega (arith, pow_pos k))

backoff-suc : (k most d : ℕ) → d < most / 2 → backoff k most (d * 2) ≡ backoff (suc k) most d
unfolding backoff
backoff-suc zero most d h = ground arith
backoff-suc (suc k) most d h = rw (shift d k, shift d (suc k)) refl

le-mul : (d n m : ℕ) → m ≤ d → 0 < n → m ≤ d * n
le-mul d n m h p = grind arith

backoff_reached : (k most d : ℕ) → most / 2 ≤ d → backoff (suc k) most d ≡ most
unfolding backoff
backoff_reached k most d h = ground (arith, le-mul d (2 ^ k) (most / 2) h (pow_pos k))

delay_loop-backoff :
    (k most d : ℕ)
    → d ≤ most
    → most < 2 ^ 63
    → delay_loop k (pos most) (pos d) ≡ pos (backoff k most d)
unfolding delay_loop backoff
delay_loop-backoff zero most d h b = ground arith
delay_loop-backoff (suc k) most d h b = elim (Bool-cases (leb (most / 2) d)) [
  | inl far ↦ ground (arith, backoff_reached k most d)
  | inr near ↦ ground (
    arith,
    double d (ground arith),
    backoff-suc k most d (ground arith),
    delay_loop-backoff k most (d * 2) (ground arith) b,
  )
]

record Sound (p : Policy) : Type 0 where
  positive : 0 < pos_part p.retry_min
  min_pos : p.retry_min ≡ pos (pos_part p.retry_min)
  max_pos : p.retry_max ≡ pos (pos_part p.retry_max)
  no_neg : neg_part p.retry_max ≡ 0
  ordered : pos_part p.retry_min ≤ pos_part p.retry_max

validate-Sound : (p : Policy) → validate p ≡ none → Sound p
unfolding validate
validate-Sound p h = ground arith

-- On a policy that Validate accepts and whose RetryMax fits in an int64, the delay is RetryMin doubled
-- once for each attempt until the doubling would pass RetryMax, where the delay is RetryMax; a
-- negative attempt counts as none.
pub retry_delay-backoff :
    (p : Policy) (attempt : ℤ)
    → validate p ≡ none
    → p.retry_max ≤ℤ pos (2 ^ 63 - 1)
    → retry_delay p attempt
      ≡ pos (backoff (pos_part attempt) (pos_part p.retry_max) (pos_part p.retry_min))
unfolding retry_delay
retry_delay-backoff p (pos n) h m =
    let s = validate-Sound p h in
    ground (
      arith,
      s.min_pos,
      s.max_pos,
      delay_loop-backoff n (pos_part p.retry_max) (pos_part p.retry_min) s.ordered (omega arith),
    )
retry_delay-backoff p (negsuc n) h m =
    let s = validate-Sound p h in
    ground (
      arith,
      s.min_pos,
      s.max_pos,
      delay_loop-backoff 0 (pos_part p.retry_max) (pos_part p.retry_min) s.ordered (omega arith),
    )

backoff_bounds : (k most d : ℕ) → d ≤ most → (d ≤ backoff k most d) × (backoff k most d ≤ most)
unfolding backoff
backoff_bounds zero most d h = (omega arith, h)
backoff_bounds (suc k) most d h =
    ground (arith, shift d k, le-mul d (2 ^ suc k) d (omega arith) (pow_pos (suc k)))

twice : (d k : ℕ) → d * 2 ^ suc k ≡ 2 * (d * 2 ^ k)
twice d k = rw pow-suc (omega arith)

backoff_mono : (k most d : ℕ) → d ≤ most → backoff k most d ≤ backoff (suc k) most d
unfolding backoff
backoff_mono zero most d h = ground arith
backoff_mono (suc k) most d h = ground (arith, twice d k, twice d (suc k))

backoff_capped : (k most d : ℕ) → 0 < d → most < 2 ^ 63 → 62 ≤ k → backoff (suc k) most d ≡ most
unfolding backoff
backoff_capped k most d p m h =
    ground
      (arith, le-mul (2 ^ k) d (2 ^ 62) (pow-le-pow_right (omega arith) h) p, mul_comm (2 ^ k) d)

-- On a policy that Validate accepts and whose RetryMax fits in an int64, every delay lies between
-- RetryMin and RetryMax.
pub retry_delay_bounds :
    (p : Policy) (attempt : ℤ)
    → validate p ≡ none
    → p.retry_max ≤ℤ pos (2 ^ 63 - 1)
    → (p.retry_min ≤ℤ retry_delay p attempt) × (retry_delay p attempt ≤ℤ p.retry_max)
retry_delay_bounds p attempt h m =
    let s = validate-Sound p h in
    ground (
      arith,
      s.min_pos,
      s.max_pos,
      retry_delay-backoff p attempt h m,
      backoff_bounds (pos_part attempt) (pos_part p.retry_max) (pos_part p.retry_min) s.ordered,
    )

-- On a policy that Validate accepts and whose RetryMax fits in an int64, one more failed attempt never
-- shortens the delay.
pub retry_delay_grows :
    (p : Policy) (n : ℕ)
    → validate p ≡ none
    → p.retry_max ≤ℤ pos (2 ^ 63 - 1)
    → retry_delay p (pos n) ≤ℤ retry_delay p (pos (suc n))
retry_delay_grows p n h m =
    let s = validate-Sound p h in
    ground (
      arith,
      retry_delay-backoff p (pos n) h m,
      retry_delay-backoff p (pos (suc n)) h m,
      backoff_mono n (pos_part p.retry_max) (pos_part p.retry_min) s.ordered,
    )

-- On a policy that Validate accepts and whose RetryMax fits in an int64, the delay is RetryMax from
-- the 63rd attempt on.
pub retry_delay_capped :
    (p : Policy) (n : ℕ)
    → validate p ≡ none
    → p.retry_max ≤ℤ pos (2 ^ 63 - 1)
    → 62 ≤ n
    → retry_delay p (pos (suc n)) ≡ p.retry_max
retry_delay_capped p n h m far =
    let s = validate-Sound p h in
    ground (
      arith,
      s.max_pos,
      retry_delay-backoff p (pos (suc n)) h m,
      backoff_capped n (pos_part p.retry_max) (pos_part p.retry_min) s.positive (omega arith) far,
    )
