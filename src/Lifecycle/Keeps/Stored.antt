-- ===== src/Lifecycle/Keeps/Stored.antt =====
-- A predicate on the tables that the statements keep is kept by the whole run.
use goedge_ip_cert.Prelude.{String, List, [], ◌∷◌}
use goedge_ip_cert.Action.{Action}
use goedge_ip_cert.Action.Keeps.{Keeps, Keeps-bind, Keeps-pass, keeps_rules}
use goedge_ip_cert.World.{
  Outside, Snapshot, File, Request, external, request, order, get_dir, set_dir,
}
use goedge_ip_cert.State.Tables.{Tables}
use goedge_ip_cert.State.Moves.{order_issue, order_renew}
use goedge_ip_cert.State.Statements.{Kept, On, query-Keeps, now-Keeps, fault-Keeps}
use goedge_ip_cert.State.Statements.Methods
use goedge_ip_cert.Rollback
use goedge_ip_cert.Rollback.{check_file, check_json}
use mathlib.Core.Option.{Option, none, some}
use goedge_ip_cert.Lifecycle.Model.{Runner}
use goedge_ip_cert.Lifecycle.Keeps.{Primitives, OrderPrimitives}
use goedge_ip_cert.Lifecycle.Keeps.Orders.{run_once-Keeps}
use goedge_ip_cert.Lifecycle.Run.{run_once}

module _ {X : Type 0} (Q : Tables → Type 0) where
  external-Keeps : {A : Type 0} (m : Action X A) → Keeps (On Q) (external m)
  unfolding external
  external-Keeps m = record { at = λ w q. q }

  request-Keeps : {A : Type 0} (r : Request) (m : Action X A) → Keeps (On Q) (request r m)
  unfolding request
  request-Keeps r m = record { at = λ w q. q }

  get_dir-Keeps : Keeps (On {X = X} Q) get_dir
  unfolding get_dir
  get_dir-Keeps = record { at = λ w q. q }

  set_dir-Keeps : (files : List File) → Keeps (On {X = X} Q) (set_dir files)
  unfolding set_dir
  set_dir-Keeps files = record { at = λ w q. q }

module _ {X : Type 0} (o : Outside X) (Q : Tables → Type 0) where
  save-Keeps : (s : Snapshot) → Keeps (On Q) (Rollback.save o s)
  unfolding Rollback.save
  save-Keeps s = search (keeps_rules, fault-Keeps o Q, get_dir-Keeps Q, set_dir-Keeps Q) depth 8

  remove-Keeps : (id : String) → Keeps (On Q) (Rollback.remove o id)
  unfolding Rollback.remove
  remove-Keeps id = search (keeps_rules, fault-Keeps o Q, get_dir-Keeps Q, set_dir-Keeps Q) depth 8

  check_file-Keeps : (f : Option File) → Keeps (On Q) (check_file o f)
  unfolding check_file
  check_file-Keeps none = search keeps_rules
  check_file-Keeps (some f) = search keeps_rules

  check_json-Keeps : (s : Option Snapshot) → Keeps (On Q) (check_json o s)
  unfolding check_json
  check_json-Keeps none = search keeps_rules
  check_json-Keeps (some s) = search keeps_rules

  load-Keeps : (id : String) → Keeps (On Q) (Rollback.load o id)
  unfolding Rollback.load
  load-Keeps id =
      search (keeps_rules, fault-Keeps o Q, get_dir-Keeps Q, check_file-Keeps, check_json-Keeps)
        depth 12

  load_all-Keeps : (ids : List String) → Keeps (On Q) (Rollback.load_all o ids)
  unfolding Rollback.load_all
  load_all-Keeps [] = search keeps_rules
  load_all-Keeps (id ∷ ids) =
      Keeps-bind _ _ (load-Keeps id) λ s. Keeps-bind _ _ (load_all-Keeps ids) λ rest. Keeps-pass _

  list-Keeps : Keeps (On Q) (Rollback.list o)
  unfolding Rollback.list
  list-Keeps = search (keeps_rules, fault-Keeps o Q, get_dir-Keeps Q, load_all-Keeps) depth 8

module _ {X : Type 0} (o : Outside X) {Q : Tables → Type 0} (k : Kept Q) where
  primitives : Primitives o (On Q)
  primitives = record {
    external_kept = external-Keeps Q;
    fault_kept = fault-Keeps o Q;
    now_kept = now-Keeps o Q;
    query_kept = query-Keeps o Q;
    update_kept = λ input. request-Keeps Q _ _;
    create_kept = λ input. request-Keeps Q _ _;
    save_kept = save-Keeps o Q;
    remove_kept = remove-Keeps o Q;
    list_kept = list-Keeps o Q;
    save_issued_kept = Methods.save_issued-Keeps o k;
    set_cert_created_kept = Methods.set_cert_created-Keeps o k;
    set_policy_bound_kept = Methods.set_policy_bound-Keeps o k;
    set_active_kept = Methods.set_active-Keeps o k;
    set_error_kept = Methods.set_error-Keeps o k;
    set_error_with_retry_kept = Methods.set_error_with_retry-Keeps o k;
    record_failure_kept = Methods.record_failure-Keeps o k;
    normalize_kept = Methods.normalize-Keeps o k;
    record_managed_kept = Methods.record_managed-Keeps o k;
    complete_kept = Methods.complete-Keeps o k;
  }

  order-Keeps : (id ip : String) → Keeps (On Q) (order o id ip)
  unfolding order
  order-Keeps id ip = record { at = λ w q. k.pending_kept w.tables _ q }

  order_primitives : OrderPrimitives o (On Q)
  order_primitives = record {
    order_kept = order-Keeps;
    create_operation_kept = Methods.create_operation-Keeps o k;
    fresh_kept = λ id m. Methods.transition-Keeps o k id _ _ m order_issue;
    renewing_kept = λ id m. Methods.transition-Keeps o k id _ _ m order_renew;
  }

  pub run-Keeps : (r : Runner) (ip : String) → Keeps (On Q) (run_once o r ip)
  run-Keeps r ip = run_once-Keeps o r primitives order_primitives ip
