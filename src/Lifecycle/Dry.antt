-- ===== src/Lifecycle/Dry.antt =====
-- A dry run looks and changes nothing.
use goedge_ip_cert.Prelude.{◌≡◌, refl, String, Option-cases, inl, inr}
use goedge_ip_cert.Action.{Result, Action}
use goedge_ip_cert.Action.Keeps.{Keeps, keeps_rules}
use goedge_ip_cert.GoEdge.Model.{ServerTarget}
use goedge_ip_cert.World.{World, Outside, external, query, sql, time_now}
use goedge_ip_cert.State.Tables.{Tables}
use goedge_ip_cert.State.Model.{ManagedCert}
use goedge_ip_cert.State.Store
use goedge_ip_cert.Lifecycle.Model.{Runner}
use goedge_ip_cert.Lifecycle.Ensure.{edge_certificate}
use goedge_ip_cert.Lifecycle.Run.{discover, check_managed, dry_run_managed, dry_run}

-- The tables, the rollback directory and the history are those of `w`.
pub record Same {X : Type 0} (w w' : World X) : Type 0 where
  pub tables : w'.tables ≡ w.tables
  pub rollback_dir : w'.rollback_dir ≡ w.rollback_dir
  pub sent : w'.sent ≡ w.sent

module _ {X : Type 0} (w : World X) where
  pub Same-refl : Same w w
  Same-refl = record { tables = refl; rollback_dir = refl; sent = refl }

  pub external-Same : {A : Type 0} (m : Action X A) → Keeps (Same w) (external m)
  unfolding external
  external-Same m = record {
    at = λ w' s. record { tables = s.tables; rollback_dir = s.rollback_dir; sent = s.sent };
  }

module _ {X : Type 0} (o : Outside X) (r : Runner) (w : World X) where
  now-Same : Keeps (Same w) (time_now o)
  unfolding time_now
  now-Same = record {
    at = λ w' s. record { tables = s.tables; rollback_dir = s.rollback_dir; sent = s.sent };
  }

  pub query-Same : {A : Type 0} (f : Tables → Result A) → Keeps (Same w) (query o f)
  unfolding query sql
  query-Same f = record {
    at = λ w' s. elim (Option-cases (o.sql_fault w'.outside).0) [
      | inl e ↦
          rw (e, query, sql)
            (record { tables = s.tables; rollback_dir = s.rollback_dir; sent = s.sent })
      | inr (x, e) ↦
          rw (e, query, sql)
            (record { tables = s.tables; rollback_dir = s.rollback_dir; sent = s.sent })
    ];
  }

  check_managed-Same : (ip : String) (m : ManagedCert) → Keeps (Same w) (check_managed o r ip m)
  unfolding check_managed edge_certificate
  check_managed-Same ip m = search (keeps_rules, external-Same w)

  dry_run_managed-Same :
      (ip : String) (t : ServerTarget) (m : ManagedCert)
      → Keeps (Same w) (dry_run_managed o r ip t m)
  unfolding dry_run_managed
  dry_run_managed-Same ip t m = search (keeps_rules, now-Same, check_managed-Same)

  pub dry_run-Keeps : (ip : String) → Keeps (Same w) (dry_run o r ip)
  unfolding dry_run discover Store.managed
  dry_run-Keeps ip =
      search (keeps_rules, external-Same w, query-Same, dry_run_managed-Same) depth 12
