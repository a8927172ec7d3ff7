-- ===== src/Lifecycle/Recovery.antt =====
-- recoverOperations and recoverRollbacks of internal/lifecycle/runner.go: what a run does first about
-- the operations and snapshots that an earlier run left behind.
use goedge_ip_cert.Prelude.{Bool, false, not, ◌||◌, none, List, [], ◌∷◌, ◌=s=◌, if◌then◌else◌}
use goedge_ip_cert.Prelude.Int.{pos, ◌+ℤ◌, eq_ℤ}
use goedge_ip_cert.Error.{message, wrapped, is, reissue_required}
use goedge_ip_cert.Action.{
  Result, ok, err, Action, pass, fail, attempt, on, refuse_if, wrap_error, ◌>>=◌, ◌>>◌,
}
use goedge_ip_cert.Certificate.{fingerprint}
use goedge_ip_cert.GoEdge.Model.{CertificateConfig}
use goedge_ip_cert.World.{World, Outside, Snapshot}
use goedge_ip_cert.Scheduler.{transient}
use goedge_ip_cert.State.Model.{
  Operation, LifecycleState, fresh, renewing, challenge_present, cert_issued, cert_created,
  policy_bound, renew, kind_eq, stage_eq,
}
use goedge_ip_cert.State.Store.{
  operation, list_incomplete_operations, set_error, set_error_with_retry, set_cert_created,
}
use goedge_ip_cert.Rollback
use goedge_ip_cert.Lifecycle.Model.{Runner, category_text}
use goedge_ip_cert.Lifecycle.Ensure.{
  next_retry, edge_certificate, tls_verify, restore_old_certificate,
}
use goedge_ip_cert.Lifecycle.Operations.{continue_recorded}

module _ {X : Type 0} (o : Outside X) (r : Runner) where
  -- The certificate was issued and its key is gone with the process.
  unfoldable pub give_up_issued : Operation → Action (World X) (Unit {0})
  give_up_issued op = do
    at ← next_retry o r op.retry_count
    set_error_with_retry o op.id op.stage (category_text transient)
        "certificate private key unavailable after restart" "retry-new-order"
        (op.retry_count +ℤ pos 1) at

  unfoldable pub interrupt : Operation → Action (World X) (Unit {0})
  interrupt op =
      set_error o op.id op.stage (category_text transient)
        "operation interrupted before certificate persisted" "retry-new-order"

  unfoldable pub resume : Operation → Action (World X) (Unit {0})
  resume op = do
    result ← attempt (continue_recorded o r op none)
    on result (λ _. pass tt)
        (λ e.
          if is e reissue_required then give_up_issued op else fail (wrapped "recover operation" e))

  -- The switch on op.Stage.
  unfoldable pub recover_stage : LifecycleState → Operation → Action (World X) (Unit {0})
  recover_stage fresh op = interrupt op
  recover_stage renewing op = interrupt op
  recover_stage challenge_present op = interrupt op
  recover_stage cert_issued op = resume op
  recover_stage cert_created op = resume op
  recover_stage policy_bound op = resume op
  recover_stage _ op = fail (message "unknown lifecycle stage")

  unfoldable pub recover_each : List Operation → Action (World X) (Unit {0})
  recover_each [] = pass tt
  recover_each (op ∷ rest) = do recover_stage op.stage op; recover_each rest

  unfoldable pub recover_operations : Action (World X) (Unit {0})
  recover_operations = do operations ← list_incomplete_operations o; recover_each operations

  -- `readErr != nil || fingerprint(current.CertData) != snapshot.NewFingerprint`
  abbrev pub reads_new : Snapshot → Result CertificateConfig → Bool
  reads_new snapshot (err e) = false
  reads_new snapshot (ok current) =
      fingerprint o.crypto current.cert_data =s= snapshot.new_fingerprint

  -- TLS returns the new certificate: the update had succeeded.
  unfoldable pub keep_new : Operation → Snapshot → Action (World X) (Unit {0})
  keep_new op snapshot = do
    current ← attempt (edge_certificate o r snapshot.cert_id)
    refuse_if (not (reads_new snapshot current))
        (message "TLS returns the new certificate and the EdgeAPI another one")
    if stage_eq op.stage cert_issued
        then set_cert_created o op.id cert_issued op.cert_id
        else pass tt
    Rollback.remove o snapshot.operation_id

  unfoldable pub recover_rollback : Snapshot → Action (World X) (Unit {0})
  recover_rollback snapshot = do
    op ←
        wrap_error (wrapped "the operation of a rollback is missing")
          (operation o snapshot.operation_id)
    refuse_if
        (not (kind_eq op.kind renew)
          || not (op.ipv4 =s= snapshot.ipv4)
          || not (eq_ℤ op.cert_id snapshot.cert_id))
        (message "rollback snapshot and operation differ")
    served ← attempt (tls_verify o r snapshot.ipv4 snapshot.new_fingerprint)
    on served (λ _. keep_new op snapshot) (λ e. restore_old_certificate o r op snapshot)

  unfoldable pub recover_snapshots : List Snapshot → Action (World X) (Unit {0})
  recover_snapshots [] = pass tt
  recover_snapshots (snapshot ∷ rest) = do recover_rollback snapshot; recover_snapshots rest

  unfoldable pub recover_rollbacks : Action (World X) (Unit {0})
  recover_rollbacks = do snapshots ← Rollback.list o; recover_snapshots snapshots
