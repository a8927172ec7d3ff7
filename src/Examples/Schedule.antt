-- ===== src/Examples/Schedule.antt =====
-- The statements about internal/scheduler at the policy of the examples.
use goedge_ip_cert.Prelude.{ℕ, ◌≡◌, refl, ◌-◌, ◌^◌, ◌≤◌, none, true, false, arith, String}
use goedge_ip_cert.Prelude.Int.{ℤ, pos, pos_part, ◌≤ℤ◌, ◌*ℤ◌, ◌+ℤ◌, ◌-ℤ◌}
use goedge_ip_cert.Scheduler.{validate, retry_delay, next_renewal, due, hours}
use goedge_ip_cert.Scheduler.Retry.{
  backoff, retry_delay-backoff, retry_delay_bounds, retry_delay_grows, retry_delay_capped,
}
use goedge_ip_cert.Scheduler.Renewal.{◌<ℤ◌, next_renewal_window, due-next_renewal}
use goedge_ip_cert.Examples.{schedule}

accepted : validate schedule ≡ none
unfolding validate
accepted = refl

fits : schedule.retry_max ≤ℤ pos (2 ^ 63 - 1)
fits = omega arith

-- 15 minutes, doubled three times
third_retry : retry_delay schedule (pos 3) ≡ pos 7_200_000_000_000
unfolding retry_delay ◌*ℤ◌
third_retry = refl

retry_delay-backoff_example :
    retry_delay schedule (pos 3)
    ≡ pos (backoff (pos_part (pos 3)) (pos_part schedule.retry_max) (pos_part schedule.retry_min))
retry_delay-backoff_example = retry_delay-backoff schedule (pos 3) accepted fits

retry_delay_bounds_example :
    (schedule.retry_min ≤ℤ retry_delay schedule (pos 3))
    × (retry_delay schedule (pos 3) ≤ℤ schedule.retry_max)
retry_delay_bounds_example = retry_delay_bounds schedule (pos 3) accepted fits

retry_delay_grows_example : retry_delay schedule (pos 3) ≤ℤ retry_delay schedule (pos 4)
retry_delay_grows_example = retry_delay_grows schedule 3 accepted fits

many : 62 ≤ 80
many = omega arith

retry_delay_capped_example : retry_delay schedule (pos 81) ≡ schedule.retry_max
retry_delay_capped_example = retry_delay_capped schedule 80 accepted fits many

abbrev digest : String → ℤ → ℕ
digest ip at = 5

abbrev expiry : ℤ
expiry = pos 1_000_000_000_000_000

next_renewal_window_example :
    (expiry -ℤ schedule.renew_before ≤ℤ next_renewal digest schedule "8.8.8.8" expiry)
    × (next_renewal digest schedule "8.8.8.8" expiry
        ≤ℤ expiry -ℤ schedule.renew_before +ℤ schedule.jitter_max)
    × (expiry -ℤ hours 96 ≤ℤ expiry -ℤ schedule.renew_before)
    × (expiry -ℤ schedule.renew_before ≤ℤ expiry -ℤ hours 48)
next_renewal_window_example = next_renewal_window digest schedule "8.8.8.8" expiry accepted

is_early : pos 0 <ℤ expiry -ℤ schedule.renew_before
unfolding ◌+ℤ◌ ◌-ℤ◌ ◌*ℤ◌
is_early = omega arith

is_late : expiry -ℤ schedule.renew_before +ℤ schedule.jitter_max ≤ℤ expiry
unfolding ◌+ℤ◌ ◌-ℤ◌ ◌*ℤ◌
is_late = omega arith

due-next_renewal_example :
    (due (pos 0) (next_renewal digest schedule "8.8.8.8" expiry) ≡ false)
    × (due expiry (next_renewal digest schedule "8.8.8.8" expiry) ≡ true)
due-next_renewal_example =
    due-next_renewal digest schedule "8.8.8.8" expiry (pos 0) expiry accepted is_early is_late
