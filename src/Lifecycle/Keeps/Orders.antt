-- ===== src/Lifecycle/Keeps/Orders.antt =====
-- The whole run keeps what `OrderPrimitives` keeps.
use goedge_ip_cert.Prelude.{String}
use goedge_ip_cert.Prelude.Int.{ℤ}
use goedge_ip_cert.Error.{Error}
use goedge_ip_cert.Action.{Result, ok, err}
use goedge_ip_cert.Action.Keeps.{
  Keeps, Keeps-bind, Keeps-attempt, Keeps-on, Keeps-if, Keeps-pass, Keeps-fail, Keeps-refuse_if,
  keeps_rules,
}
use goedge_ip_cert.Certificate.{Verified}
use goedge_ip_cert.GoEdge.Model.{ServerTarget}
use goedge_ip_cert.World.{World, Outside}
use goedge_ip_cert.State.Model.{Operation, ManagedCert, RetryInfo, challenge_present}
use goedge_ip_cert.State.Store
use goedge_ip_cert.Lifecycle.Model.{Runner}
use goedge_ip_cert.Lifecycle.Ensure.{crash}
use goedge_ip_cert.Lifecycle.Operations.{
  record_order_failure, record_issued, obtain_and_continue, start_issue, start_renew,
}
use goedge_ip_cert.Lifecycle.Run.{
  discover, discover_and_issue, after_operation, without_operation, run_first_issue, renew_if_due,
  run_managed, run_once,
}
use goedge_ip_cert.Lifecycle.Keeps.{Primitives, OrderPrimitives}
use goedge_ip_cert.Lifecycle.Keeps.Methods.{
  next_retry-Keeps, operation-Keeps, continue_recorded-Keeps, check_managed-Keeps, prepare-Keeps,
}

module _ {X : Type 0} (o : Outside X) (r : Runner) {P : World X → Type 0} (k : Primitives o P) where
  pub order_failure-Keeps :
      (op : Operation) (n : ℤ) (e : Error) → Keeps P (record_order_failure o r op n e)
  unfolding record_order_failure
  order_failure-Keeps op n e =
      search
        (keeps_rules, next_retry-Keeps o r k, k.set_error_with_retry_kept, k.record_managed_kept)
        depth 8

  pub record_issued-Keeps :
      (op : Operation) (v : Result Verified) → Keeps P (record_issued o r op v)
  unfolding record_issued crash
  record_issued-Keeps op (err e) = search (keeps_rules, k.set_error_kept)
  record_issued-Keeps op (ok v) =
      search
        (
          keeps_rules,
          k.save_issued_kept,
          k.fault_kept,
          operation-Keeps o r k,
          continue_recorded-Keeps o r k,
        )
        depth 7

module _ {X : Type 0} (o : Outside X) (r : Runner) {P : World X → Type 0} (k : Primitives o P)
    (q : OrderPrimitives o P) where
  obtain-Keeps :
      (op : Operation) (n : ℤ)
      → Keeps P (Store.transition o op.id op.stage challenge_present "awaiting-acme")
      → Keeps P (obtain_and_continue o r op n)
  unfolding obtain_and_continue
  obtain-Keeps op n t = Keeps-bind _ _ t λ _.
      Keeps-bind _ _ (Keeps-attempt _ (q.order_kept op.id op.ipv4)) λ issued.
        Keeps-on issued _ _
          (λ cert. Keeps-bind _ _ k.now_kept λ now. record_issued-Keeps o r k op _)
          (λ e. order_failure-Keeps o r k op n e)

  start_issue-Keeps : (ip : String) (t : ServerTarget) (n : ℤ) → Keeps P (start_issue o r ip t n)
  unfolding start_issue
  start_issue-Keeps ip t n =
      search (keeps_rules, k.external_kept, q.create_operation_kept, q.fresh_kept, obtain-Keeps)
        depth 7

  start_renew-Keeps : (m : ManagedCert) (n : ℤ) → Keeps P (start_renew o r m n)
  unfolding start_renew Store.begin_renewal
  start_renew-Keeps m n =
      search (keeps_rules, k.external_kept, q.create_operation_kept, q.renewing_kept, obtain-Keeps)
        depth 7

  issue-Keeps : (ip : String) (n : ℤ) → Keeps P (discover_and_issue o r ip n)
  unfolding discover_and_issue discover
  issue-Keeps ip n = search (keeps_rules, k.external_kept, start_issue-Keeps)

  after_operation-Keeps : (ip : String) (op : Operation) → Keeps P (after_operation o r ip op)
  unfolding after_operation
  after_operation-Keeps ip op = search (keeps_rules, k.normalize_kept, issue-Keeps) depth 7

  without_operation-Keeps : (ip : String) → Keeps P (without_operation o r ip)
  unfolding without_operation
  without_operation-Keeps ip = search (keeps_rules, issue-Keeps)

  first_issue-Keeps : (ip : String) → Keeps P (run_first_issue o r ip)
  unfolding run_first_issue Store.latest_operation
  first_issue-Keeps ip =
      search
        (
          keeps_rules,
          k.query_kept,
          operation-Keeps o r k,
          after_operation-Keeps,
          without_operation-Keeps,
        )
        depth 7

  renew_if_due-Keeps :
      (ip : String) (m : ManagedCert) (i : RetryInfo) → Keeps P (renew_if_due o r ip m i)
  unfolding renew_if_due discover
  renew_if_due-Keeps ip m i = Keeps-bind _ _ (k.external_kept _) λ target.
      Keeps-bind _ _ (Keeps-refuse_if _ _) λ _. Keeps-bind _ _ (check_managed-Keeps o r k ip m) λ _.
        Keeps-bind _ _ k.now_kept
          λ now. Keeps-if _ _ _ (Keeps-pass tt) (start_renew-Keeps m i.attempt)

  run_managed-Keeps : (ip : String) (m : ManagedCert) → Keeps P (run_managed o r ip m)
  unfolding run_managed Store.latest_retry
  run_managed-Keeps ip m = Keeps-bind _ _ (k.query_kept _) λ retry.
      Keeps-bind _ _ k.now_kept
        λ now. Keeps-if _ _ _ (Keeps-pass tt) (renew_if_due-Keeps ip m retry)

  pub run_once-Keeps : (ip : String) → Keeps P (run_once o r ip)
  unfolding run_once Store.managed
  run_once-Keeps ip = Keeps-bind _ _ (prepare-Keeps o r k) λ _.
      Keeps-bind _ _ (Keeps-attempt _ (k.query_kept _)) λ found.
        Keeps-on found _ _ (λ m. run_managed-Keeps ip m)
          (λ e. Keeps-if _ _ _ (first_issue-Keeps ip) (Keeps-fail e))
