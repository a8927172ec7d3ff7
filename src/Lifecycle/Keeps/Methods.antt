-- ===== src/Lifecycle/Keeps/Methods.antt =====
-- The methods that place no order keep what `Primitives` keeps.
use goedge_ip_cert.Prelude.{String, List, [], ◌∷◌, Option, none, some}
use goedge_ip_cert.Prelude.Int.{ℤ}
use goedge_ip_cert.Error.{Error}
use goedge_ip_cert.Action.Keeps.{Keeps, Keeps-bind, Keeps-pass, keeps_rules}
use goedge_ip_cert.Certificate.{Verified}
use goedge_ip_cert.GoEdge.Model.{CertificateConfig}
use goedge_ip_cert.World.{World, Outside, Snapshot}
use goedge_ip_cert.State.Model.{
  Operation, ManagedCert, LifecycleState, fresh, renewing, challenge_present, cert_issued,
  cert_created, policy_bound,
}
use goedge_ip_cert.State.Store
use goedge_ip_cert.State.Challenges.{journal, list_pending_challenges}
use goedge_ip_cert.Challenge.Model.{Challenge, Pending}
use goedge_ip_cert.Challenge.Provider
use goedge_ip_cert.Lifecycle.Model.{Runner}
use goedge_ip_cert.Lifecycle.Ensure.{
  next_retry, crash, edge_certificate, tls_verify, update_certificate, record_restored,
  not_restored, restore_old_certificate, rollback_after_failure, adopt_existing, create_new,
  ensure_created, confirm_update, replace_saved, replace, update_current, ensure_updated,
}
use goedge_ip_cert.Lifecycle.Operations.{
  issued_step, created_step, bound_step, continue_operation, record_failure, continue_recorded,
}
use goedge_ip_cert.Lifecycle.Recovery.{
  give_up_issued, interrupt, resume, recover_stage, recover_each, recover_operations, keep_new,
  recover_rollback, recover_snapshots, recover_rollbacks,
}
use goedge_ip_cert.Lifecycle.Run.{challenge_store, check_managed, prepare}
use goedge_ip_cert.Lifecycle.Keeps.{Primitives}

module _ {X : Type 0} (o : Outside X) (r : Runner) {P : World X → Type 0} (k : Primitives o P) where
  pub next_retry-Keeps : (n : ℤ) → Keeps P (next_retry o r n)
  unfolding next_retry
  next_retry-Keeps n = search (keeps_rules, k.now_kept)

  pub operation-Keeps : (id : String) → Keeps P (Store.operation o id)
  unfolding Store.operation
  operation-Keeps id = search (k.query_kept)

  record_restored-Keeps : (op : Operation) (s : Snapshot) → Keeps P (record_restored o r op s)
  unfolding record_restored
  record_restored-Keeps op s = search (
    keeps_rules, next_retry-Keeps, k.set_error_with_retry_kept, k.record_managed_kept,
    k.remove_kept,
  )

  pub restore-Keeps : (op : Operation) (s : Snapshot) → Keeps P (restore_old_certificate o r op s)
  unfolding restore_old_certificate update_certificate tls_verify not_restored
  restore-Keeps op s = search (keeps_rules, k.update_kept, k.external_kept, record_restored-Keeps)

  rollback-Keeps :
      (op : Operation) (s : Snapshot) (e : Error) → Keeps P (rollback_after_failure o r op s e)
  unfolding rollback_after_failure
  rollback-Keeps op s e = search (keeps_rules, restore-Keeps)

  adopt-Keeps : (op : Operation) (c : CertificateConfig) → Keeps P (adopt_existing o r op c)
  unfolding adopt_existing edge_certificate
  adopt-Keeps op c = search (keeps_rules, k.external_kept, k.set_cert_created_kept)

  create_new-Keeps : (op : Operation) (v : Option Verified) → Keeps P (create_new o r op v)
  unfolding create_new crash
  create_new-Keeps op none = search keeps_rules
  create_new-Keeps op (some v) =
      search (keeps_rules, k.create_kept, k.fault_kept, k.set_cert_created_kept)

  ensure_created-Keeps : (op : Operation) (v : Option Verified) → Keeps P (ensure_created o r op v)
  unfolding ensure_created
  ensure_created-Keeps op v = search (keeps_rules, k.external_kept, adopt-Keeps, create_new-Keeps)

  confirm-Keeps : (op : Operation) (s : Snapshot) → Keeps P (confirm_update o r op s)
  unfolding confirm_update edge_certificate tls_verify crash
  confirm-Keeps op s =
      search
        (
          keeps_rules, k.external_kept, k.fault_kept, k.set_cert_created_kept, k.remove_kept,
          rollback-Keeps,
        )
        depth 9

  replace_saved-Keeps :
      (op : Operation) (c : CertificateConfig) (v : Verified) (s : Snapshot)
      → Keeps P (replace_saved o r op c v s)
  unfolding replace_saved crash update_certificate
  replace_saved-Keeps op c v s =
      search (keeps_rules, k.fault_kept, k.update_kept, confirm-Keeps, rollback-Keeps) depth 7

  replace-Keeps :
      (op : Operation) (c : CertificateConfig) (v : Verified) (s : Snapshot)
      → Keeps P (replace o r op c v s)
  unfolding replace
  replace-Keeps op c v s = search (keeps_rules, k.save_kept, replace_saved-Keeps)

  update_current-Keeps :
      (op : Operation) (c : CertificateConfig) (v : Option Verified)
      → Keeps P (update_current o r op c v)
  unfolding update_current
  update_current-Keeps op c none = search keeps_rules
  update_current-Keeps op c (some v) = search (keeps_rules, replace-Keeps)

  ensure_updated-Keeps : (op : Operation) (v : Option Verified) → Keeps P (ensure_updated o r op v)
  unfolding ensure_updated edge_certificate tls_verify
  ensure_updated-Keeps op v =
      search (keeps_rules, k.external_kept, k.set_cert_created_kept, update_current-Keeps) depth 7

  issued_step-Keeps : (op : Operation) (v : Option Verified) → Keeps P (issued_step o r op v)
  unfolding issued_step
  issued_step-Keeps op v =
      search (keeps_rules, ensure_created-Keeps, ensure_updated-Keeps, operation-Keeps)

  created_step-Keeps : (op : Operation) → Keeps P (created_step o r op)
  unfolding created_step tls_verify crash
  created_step-Keeps op =
      search (keeps_rules, k.external_kept, k.fault_kept, k.set_policy_bound_kept) depth 8

  bound_step-Keeps : (op : Operation) → Keeps P (bound_step o r op)
  unfolding bound_step
  bound_step-Keeps op = search (keeps_rules, k.set_active_kept)

  continue_operation-Keeps :
      (op : Operation) (v : Option Verified) → Keeps P (continue_operation o r op v)
  unfolding continue_operation
  continue_operation-Keeps op v =
      search (keeps_rules, issued_step-Keeps, created_step-Keeps, bound_step-Keeps)

  record_failure-Keeps : (op : Operation) (e : Error) → Keeps P (record_failure o r op e)
  unfolding record_failure
  record_failure-Keeps op e = search (keeps_rules, operation-Keeps, k.record_failure_kept)

  pub continue_recorded-Keeps :
      (op : Operation) (v : Option Verified) → Keeps P (continue_recorded o r op v)
  unfolding continue_recorded
  continue_recorded-Keeps op v =
      search (keeps_rules, continue_operation-Keeps, record_failure-Keeps)

  give_up-Keeps : (op : Operation) → Keeps P (give_up_issued o r op)
  unfolding give_up_issued
  give_up-Keeps op = search (keeps_rules, next_retry-Keeps, k.set_error_with_retry_kept)

  interrupt-Keeps : (op : Operation) → Keeps P (interrupt o r op)
  unfolding interrupt
  interrupt-Keeps op = search (k.set_error_kept)

  resume-Keeps : (op : Operation) → Keeps P (resume o r op)
  unfolding resume
  resume-Keeps op = search (keeps_rules, continue_recorded-Keeps, give_up-Keeps)

  recover_stage-Keeps : (s : LifecycleState) (op : Operation) → Keeps P (recover_stage o r s op)
  unfolding recover_stage
  recover_stage-Keeps fresh op = interrupt-Keeps op
  recover_stage-Keeps renewing op = interrupt-Keeps op
  recover_stage-Keeps challenge_present op = interrupt-Keeps op
  recover_stage-Keeps cert_issued op = resume-Keeps op
  recover_stage-Keeps cert_created op = resume-Keeps op
  recover_stage-Keeps policy_bound op = resume-Keeps op
  recover_stage-Keeps _ op = search keeps_rules

  recover_each-Keeps : (ops : List Operation) → Keeps P (recover_each o r ops)
  unfolding recover_each
  recover_each-Keeps [] = search keeps_rules
  recover_each-Keeps (op ∷ ops) =
      Keeps-bind _ _ (recover_stage-Keeps op.stage op) (λ _. recover_each-Keeps ops)

  by_id-Keeps : (ids : List String) → Keeps P (Store.operations_by_id o ids)
  unfolding Store.operations_by_id
  by_id-Keeps [] = search keeps_rules
  by_id-Keeps (id ∷ ids) =
      Keeps-bind _ _ (operation-Keeps id)
        (λ op. Keeps-bind _ _ (by_id-Keeps ids) (λ ops. Keeps-pass _))

  recover_operations-Keeps : Keeps P (recover_operations o r)
  unfolding recover_operations Store.list_incomplete_operations
  recover_operations-Keeps = search (keeps_rules, k.query_kept, by_id-Keeps, recover_each-Keeps)

  keep_new-Keeps : (op : Operation) (s : Snapshot) → Keeps P (keep_new o r op s)
  unfolding keep_new edge_certificate
  keep_new-Keeps op s =
      search (keeps_rules, k.external_kept, k.set_cert_created_kept, k.remove_kept) depth 7

  recover_rollback-Keeps : (s : Snapshot) → Keeps P (recover_rollback o r s)
  unfolding recover_rollback tls_verify
  recover_rollback-Keeps s =
      search (keeps_rules, operation-Keeps, k.external_kept, keep_new-Keeps, restore-Keeps) depth 7

  recover_snapshots-Keeps : (ss : List Snapshot) → Keeps P (recover_snapshots o r ss)
  unfolding recover_snapshots
  recover_snapshots-Keeps [] = search keeps_rules
  recover_snapshots-Keeps (s ∷ ss) =
      Keeps-bind _ _ (recover_rollback-Keeps s) (λ _. recover_snapshots-Keeps ss)

  recover_rollbacks-Keeps : Keeps P (recover_rollbacks o r)
  unfolding recover_rollbacks
  recover_rollbacks-Keeps = search (keeps_rules, k.list_kept, recover_snapshots-Keeps)

  one_row-Keeps : (rows : List Challenge) → Keeps P (Provider.one_row rows)
  one_row-Keeps [] = search keeps_rules
  one_row-Keeps (row ∷ []) = search keeps_rules
  one_row-Keeps (row ∷ _ ∷ _) = search keeps_rules

  resolve-Keeps : (p : Pending) → Keeps P (Provider.resolve_owned (challenge_store o) p)
  unfolding Provider.resolve_owned
  resolve-Keeps p = search (keeps_rules, k.external_kept, one_row-Keeps)

  recover_one-Keeps :
      (p : Pending) → Keeps P (Provider.recover_one (challenge_store o) (journal o) p)
  unfolding Provider.recover_one
  recover_one-Keeps p =
      search (keeps_rules, resolve-Keeps, k.external_kept, k.complete_kept) depth 8

  recover_all-Keeps :
      (ps : List Pending) → Keeps P (Provider.recover_all (challenge_store o) (journal o) ps)
  unfolding Provider.recover_all
  recover_all-Keeps [] = search keeps_rules
  recover_all-Keeps (p ∷ ps) = Keeps-bind _ _ (recover_one-Keeps p) (λ _. recover_all-Keeps ps)

  pub prepare-Keeps : Keeps P (prepare o r)
  unfolding prepare Provider.recover list_pending_challenges
  prepare-Keeps =
      search
        (
          keeps_rules, k.external_kept, k.query_kept, recover_all-Keeps, recover_rollbacks-Keeps,
          recover_operations-Keeps,
        )
        depth 12

  pub check_managed-Keeps : (ip : String) (m : ManagedCert) → Keeps P (check_managed o r ip m)
  unfolding check_managed edge_certificate
  check_managed-Keeps ip m = search (keeps_rules, k.external_kept)
