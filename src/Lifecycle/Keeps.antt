-- ===== src/Lifecycle/Keeps.antt =====
-- What every method of the Runner keeps, given that its primitive steps keep it. `Primitives` is the
-- interface: a predicate on the world fills it once, and has the lemma for the whole run.
pub mod Methods
pub mod Orders
pub mod Stored
use goedge_ip_cert.Prelude.{ℕ, String, List, [], ◌∷◌, Option, none, some, true, false}
use goedge_ip_cert.Prelude.Int.{ℤ}
use goedge_ip_cert.Error.{Error}
use goedge_ip_cert.Action.{Result, ok, err, Action}
use goedge_ip_cert.Action.Keeps.{Keeps, keeps_rules}
use goedge_ip_cert.Certificate.{Verified}
use goedge_ip_cert.GoEdge.Model.{CertificateInput, CertificateConfig}
use goedge_ip_cert.World.{
  World, Outside, Snapshot, updates, creates, external, external_fault, request, time_now, query,
  order,
}
use goedge_ip_cert.State.Tables.{Tables}
use goedge_ip_cert.State.Model.{
  Operation, OperationKind, issue, renew, unknown_kind, blank, ManagedCert, LifecycleState,
  challenge_present, cert_issued, cert_created, policy_bound, fresh, renewing,
}
use goedge_ip_cert.State.Store
use goedge_ip_cert.State.Challenges
use goedge_ip_cert.Rollback
use goedge_ip_cert.Challenge.Model.{Pending}
use goedge_ip_cert.Lifecycle.Model.{Runner}
use goedge_ip_cert.Lifecycle.Ensure.{
  next_retry, crash, edge_certificate, tls_verify, update_certificate, record_restored,
  not_restored, restore_old_certificate, rollback_after_failure, adopt_existing, create_new,
  ensure_created, confirm_update, replace, update_current, ensure_updated,
}

pub record Primitives {X : Type 0} (o : Outside X) (P : World X → Type 0) : Type 1 where
  pub external_kept : {A : Type 0} (m : Action X A) → Keeps P (external m)
  pub fault_kept : (f : X → Option Error × X) → Keeps P (external_fault f)
  pub now_kept : Keeps P (time_now o)
  pub query_kept : {A : Type 0} (f : Tables → Result A) → Keeps P (query o f)
  pub update_kept :
      (input : CertificateInput) → Keeps P (request (updates input) (o.update_certificate input))
  pub create_kept :
      (input : CertificateInput) → Keeps P (request (creates input) (o.create_certificate input))
  pub save_kept : (s : Snapshot) → Keeps P (Rollback.save o s)
  pub remove_kept : (id : String) → Keeps P (Rollback.remove o id)
  pub list_kept : Keeps P (Rollback.list o)
  pub save_issued_kept :
      (id print : String) (at : ℤ) → Keeps P (Store.save_issued o id challenge_present print at)
  pub set_cert_created_kept :
      (id : String) (cert : ℤ) → Keeps P (Store.set_cert_created o id cert_issued cert)
  pub set_policy_bound_kept : (id : String) → Keeps P (Store.set_policy_bound o id cert_created)
  pub set_active_kept :
      (id account : String) (at : ℤ) → Keeps P (Store.set_active o id policy_bound account at)
  pub set_error_kept :
      (id : String) (s : LifecycleState) (c m k : String) → Keeps P (Store.set_error o id s c m k)
  pub set_error_with_retry_kept :
      (id : String) (s : LifecycleState) (c m k : String) (n at : ℤ)
      → Keeps P (Store.set_error_with_retry o id s c m k n at)
  pub record_failure_kept :
      (id : String) (s : LifecycleState) (c m k : String)
      → Keeps P (Store.record_operation_failure o id s c m k)
  pub normalize_kept : (id : String) → Keeps P (Store.normalize_first_issue_failure o id)
  pub record_managed_kept : (ip c m k : String) → Keeps P (Store.record_managed_error o ip c m k)
  pub complete_kept : (p : Pending) → Keeps P (Challenges.complete_challenge o p)

-- The steps of a run that places an order.
pub record OrderPrimitives {X : Type 0} (o : Outside X) (P : World X → Type 0) : Type 1 where
  pub order_kept : (id ip : String) → Keeps P (order o id ip)
  pub create_operation_kept : (op : Operation) → Keeps P (Store.create_operation o op)
  pub fresh_kept : (id m : String) → Keeps P (Store.transition o id fresh challenge_present m)
  pub renewing_kept : (id m : String) → Keeps P (Store.transition o id renewing challenge_present m)
