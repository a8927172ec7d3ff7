-- ===== src/Examples/Runs.antt =====
-- The statements about whole runs, at the runs of a timer for 8.8.8.8, whose first issue has failed.
use goedge_ip_cert.Prelude.{◌≡◌, refl, ◌⊎◌, inr, ◌≤◌, ◌+◌, some, none, [], ◌∷◌, arith}
use goedge_ip_cert.Prelude.Int.{pos}
use goedge_ip_cert.World.{external, external_fault, get_dir, query, sql}
use goedge_ip_cert.Action.{◌>>=◌}
use goedge_ip_cert.Scheduler
use goedge_ip_cert.Rollback
use goedge_ip_cert.Challenge.Provider
use goedge_ip_cert.State.Challenges.{list_pending_challenges}
use goedge_ip_cert.State.Store.{list_incomplete_operations, operations_by_id}
use goedge_ip_cert.Lifecycle.Recovery.{
  recover_rollbacks, recover_snapshots, recover_operations, recover_each,
}
use goedge_ip_cert.Certificate.{Verified, fingerprint}
use goedge_ip_cert.State.Model.{Operation, active, error, renew, cert_issued}
use goedge_ip_cert.State.Tables.{select, count, any, order_by, select_all, has_id, for_ipv4}
use goedge_ip_cert.State.Valid.{IsValid}
use goedge_ip_cert.State.Progress.{Continued}
use goedge_ip_cert.Rollback.{has_stem, snapshot_file, new_snapshot}
use goedge_ip_cert.Lifecycle.Model.{certificate_input_from_config, validate}
use goedge_ip_cert.Lifecycle.Ensure.{update_current}
use goedge_ip_cert.Lifecycle.Run.{prepare, run_once}
use goedge_ip_cert.Lifecycle.Tables.{run_once-IsValid, run_once-Continued, run_once_finished}
use goedge_ip_cert.Lifecycle.Sent.{orders}
use goedge_ip_cert.Lifecycle.Placing.{orders-run_once, orders-prepare}
use goedge_ip_cert.Lifecycle.Waiting.{run_once_timer}
use goedge_ip_cert.Lifecycle.Replacing.{update_current_safe}
use goedge_ip_cert.Examples.{config, calm, unserved, failed, tables, world, runner}

tables-IsValid : IsValid tables
unfolding count
tables-IsValid = record {
  one_id = λ id. ground arith;
  one_marker = λ m. ground arith;
  one_in_flight = λ ip. ground arith;
  one_managed = λ ip. omega arith;
}

run_once-IsValid_example : IsValid (run_once calm runner "8.8.8.8" world).1.tables
run_once-IsValid_example = run_once-IsValid calm runner "8.8.8.8" world tables-IsValid

orders-run_once_example :
    orders (run_once calm runner "8.8.8.8" world).1.sent ≤ 1 + orders world.sent
orders-run_once_example = orders-run_once calm runner "8.8.8.8" world

orders-prepare_example : orders (prepare calm runner world).1.sent ≡ orders world.sent
orders-prepare_example = orders-prepare calm runner world

found : select (has_id "a") tables.operations ≡ some failed
unfolding select
found = refl

run_once-Continued_example : Continued "a" failed (run_once calm runner "8.8.8.8" world).1.tables
run_once-Continued_example = run_once-Continued calm runner "8.8.8.8" world "a" failed found

abbrev after_run : Continued "a" failed (run_once calm runner "8.8.8.8" world).1.tables
after_run = run_once-Continued calm runner "8.8.8.8" world "a" failed found

run_once_finished_example : (after_run.row.stage ≡ active) ⊎ (after_run.row.stage ≡ error)
run_once_finished_example =
    run_once_finished calm runner "8.8.8.8" world "a" failed after_run.row found (inr refl)
      after_run.found

abbrev renewal : Operation
renewal = record failed {
  id = "0123456789abcdef0123456789abcdef";
  kind = renew;
  stage = cert_issued;
  cert_id = pos 7;
}

abbrev verified : Verified
verified = record {
  cert_pem = 3 ∷ [];
  key_pem = 4 ∷ [];
  not_before = pos 10;
  not_after = pos 1000;
  dns_names = "8.8.8.8" ∷ [];
  common_names = [];
  fingerprint = "new";
}

update_current_safe_example :
    ((update_current unserved runner renewal config (some verified) world).1.sent ≡ world.sent)
    ⊎ (select
          (has_stem renewal.id)
          (update_current unserved runner renewal config (some verified) world).1.rollback_dir
        ≡ some (
            snapshot_file (
              new_snapshot renewal.id renewal.ipv4 renewal.cert_fingerprint
                (fingerprint unserved.crypto config.cert_data)
                (certificate_input_from_config config))))
update_current_safe_example =
    update_current_safe unserved runner renewal config verified world (λ x. refl) (λ x. refl)

none_managed : select (for_ipv4 "8.8.8.8") (prepare calm runner world).1.tables.managed_certs ≡ none
unfolding prepare validate Scheduler.validate external ◌>>=◌ Provider.recover Provider.recover_all
    list_pending_challenges query sql order_by recover_rollbacks recover_snapshots Rollback.list
    Rollback.load_all external_fault get_dir any recover_operations recover_each
    list_incomplete_operations operations_by_id select_all select
none_managed = refl

run_once_timer_example : orders (run_once calm runner "8.8.8.8" world).1.sent ≡ orders world.sent
run_once_timer_example = run_once_timer calm runner "8.8.8.8" world refl none_managed
