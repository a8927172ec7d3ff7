-- ===== src/Scheduler/Renewal.antt =====
-- The renewal time of Policy.NextRenewal.
use goedge_ip_cert.Prelude.{ℕ, String, ◌≡◌, ◌<◌, ◌+◌, none, true, false, arith}
use goedge_ip_cert.Prelude.Int.{ℤ, pos, pos_part, neg_part, ◌+ℤ◌, ◌-ℤ◌, ◌≤ℤ◌, int_laws}
use goedge_ip_cert.Scheduler.{Policy, validate, jitter, next_renewal, due, hours}

infix 50 ◌<ℤ◌
abbrev pub ◌<ℤ◌ : ℤ → ℤ → Type 0
a <ℤ b = pos_part a + neg_part b < pos_part b + neg_part a

validate_window :
    (p : Policy)
    → validate p ≡ none
    → (hours 48 ≤ℤ p.renew_before) × (p.renew_before ≤ℤ hours 96) × (pos 0 ≤ℤ p.jitter_max)
unfolding validate
validate_window p h = ground arith

due_from : (next now : ℤ) → next ≤ℤ now → due now next ≡ true
unfolding due
due_from next now h = ground arith

not_due_from : (next now : ℤ) → now <ℤ next → due now next ≡ false
unfolding due
not_due_from next now h = ground arith

module _ (digest : String → ℤ → ℕ) where
  jitter_bounds :
      (p : Policy) (ip : String) (t : ℤ)
      → pos 0 ≤ℤ p.jitter_max
      → (pos 0 ≤ℤ jitter digest p ip t) × (jitter digest p ip t ≤ℤ p.jitter_max)
  unfolding jitter
  jitter_bounds p ip t h = ground arith

  jitter_lt :
      (p : Policy) (ip : String) (t : ℤ)
      → pos 0 <ℤ p.jitter_max
      → (jitter digest p ip t <ℤ p.jitter_max)
  unfolding jitter
  jitter_lt p ip t h = ground arith

  -- On a policy that Validate accepts, the renewal falls in the JitterMax after the point that lies
  -- RenewBefore before the expiry, and that point lies from 96 to 48 hours before it.
  pub next_renewal_window :
      (p : Policy) (ip : String) (t : ℤ)
      → validate p ≡ none
      → (t -ℤ p.renew_before ≤ℤ next_renewal digest p ip t)
        × (next_renewal digest p ip t ≤ℤ t -ℤ p.renew_before +ℤ p.jitter_max)
        × (t -ℤ hours 96 ≤ℤ t -ℤ p.renew_before)
        × (t -ℤ p.renew_before ≤ℤ t -ℤ hours 48)
  unfolding next_renewal
  next_renewal_window p ip t h =
      let w = validate_window p h in
      let j = jitter_bounds p ip t w.2 in
      (omega int_laws, omega int_laws, omega int_laws, omega int_laws)

  -- On a policy that Validate accepts, a certificate is not due for renewal at any time that lies more
  -- than RenewBefore before its expiry, and it is due at every time from JitterMax after that point on.
  pub due-next_renewal :
      (p : Policy) (ip : String) (expires_at early late : ℤ)
      → validate p ≡ none
      → early <ℤ expires_at -ℤ p.renew_before
      → expires_at -ℤ p.renew_before +ℤ p.jitter_max ≤ℤ late
      → (due early (next_renewal digest p ip expires_at) ≡ false)
        × (due late (next_renewal digest p ip expires_at) ≡ true)
  due-next_renewal p ip t early late h e l =
      let r = next_renewal_window p ip t h in
      (not_due_from _ early (omega (arith, r.0)), due_from _ late (omega (arith, r.1)))
