-- ===== src/Scheduler.antt =====
-- internal/scheduler/policy.go: when a certificate is renewed and how long a failure backs off.
-- Durations and times are nanoseconds. The SHA-256 digest of the jitter is a parameter: the first
-- eight bytes, big-endian, of the digest of the IPv4 text followed by the expiry in RFC 3339.
pub mod Retry
pub mod Renewal
use goedge_ip_cert.Prelude.{
  ℕ, zero, suc, ◌+◌, ◌-◌, ◌%◌, ◌^◌, String, Bool, not, ◌||◌, Option, none, some, ltb, if◌then◌else◌,
}
use goedge_ip_cert.Prelude.Int.{
  ℤ, pos, negsuc, pos_part, ◌+ℤ◌, ◌-ℤ◌, ◌*ℤ◌, ltb_ℤ, leb_ℤ, not_positive, quot_ℤ,
}
use goedge_ip_cert.Error.{Error, message}

pub record Policy : Type 0 where
  pub renew_before : ℤ
  pub retry_min : ℤ
  pub retry_max : ℤ
  pub jitter_max : ℤ

pub data ErrorCategory : Type 0 where
  transient config auth schema security : ErrorCategory

abbrev pub hours : ℕ → ℤ
hours n = pos n *ℤ pos 3_600_000_000_000

-- `none` is a nil error.
unfoldable pub validate : Policy → Option Error
unfolding ◌*ℤ◌
validate p =
    if ltb_ℤ p.renew_before (hours 48) || ltb_ℤ (hours 96) p.renew_before
    then some (message "renew before must be 48h to 96h")
    else if not_positive p.retry_min || ltb_ℤ p.retry_max p.retry_min || ltb_ℤ p.jitter_max (pos 0)
    then some (message "retry/jitter configuration is invalid")
    else none

-- The value of an int64 that holds the low 64 bits of a result.
unfoldable pub to_int64 : ℤ → ℤ
to_int64 (pos n) = let u = n % 2 ^ 64 in if ltb u (2 ^ 63) then pos u else negsuc (2 ^ 64 - 1 - u)
to_int64 (negsuc n) =
    let u = n % 2 ^ 64 in if ltb u (2 ^ 63) then negsuc u else pos (2 ^ 64 - 1 - u)

-- The rounds left of the loop of RetryDelay, and the two tests after it.
unfoldable pub delay_loop : ℕ → ℤ → ℤ → ℤ
unfolding to_int64 quot_ℤ
delay_loop zero retry_max delay = if ltb_ℤ retry_max delay then retry_max else delay
delay_loop (suc rounds) retry_max delay =
    let rest = delay_loop rounds retry_max (to_int64 (delay *ℤ pos 2)) in
    if leb_ℤ (quot_ℤ retry_max 2) delay then retry_max else rest

unfoldable pub retry_delay : Policy → ℤ → ℤ
unfolding delay_loop
retry_delay p (pos attempt) = delay_loop attempt p.retry_max p.retry_min
retry_delay p (negsuc _) = delay_loop 0 p.retry_max p.retry_min

-- `!now.Before(nextRenewal)`
unfoldable pub due : ℤ → ℤ → Bool
due now next_renewal = not (ltb_ℤ now next_renewal)

module _ (digest : String → ℤ → ℕ) where
  unfoldable pub jitter : Policy → String → ℤ → ℤ
  jitter p ip expires_at =
      if not_positive p.jitter_max
      then pos 0
      else pos (digest ip expires_at % pos_part p.jitter_max)

  unfoldable pub next_renewal : Policy → String → ℤ → ℤ
  unfolding jitter
  next_renewal p ip expires_at = expires_at -ℤ p.renew_before +ℤ jitter p ip expires_at
