-- ===== src/Lifecycle/Ensure.antt =====
-- ensureCreated, ensureUpdated and restoreOldCertificate of internal/lifecycle/runner.go: the
-- certificate of an operation is brought into the EdgeAPI, and taken back if it does not serve. The
-- operation that the source passes by pointer is read again from the tables by the caller.
use goedge_ip_cert.Prelude.{
  String, Bool, true, false, not, ◌&&◌, ◌||◌, Option, none, some, List, [], ◌∷◌, ◌=s=◌,
  if◌then◌else◌,
}
use goedge_ip_cert.Prelude.Int.{ℤ, pos, ◌+ℤ◌, eq_ℤ}
use goedge_ip_cert.Error.{
  Error, known, message, wrapped, joined, is, certificate_not_found, reissue_required,
}
use goedge_ip_cert.Action.{
  Result, Action, pass, fail, attempt, on, refuse_if, wrap_error, lift_option, ◌>>=◌, ◌>>◌,
}
use goedge_ip_cert.Certificate.{Verified, fingerprint}
use goedge_ip_cert.GoEdge.Model.{CertificateInput, CertificateConfig}
use goedge_ip_cert.World.{
  World, Outside, Snapshot, creates, updates, external, external_fault, request, time_now, unix,
}
use goedge_ip_cert.Scheduler.{transient, retry_delay}
use goedge_ip_cert.State.Model.{Operation, cert_issued, error, stage_eq}
use goedge_ip_cert.State.Store.{set_cert_created, set_error_with_retry, record_managed_error}
use goedge_ip_cert.Rollback
use goedge_ip_cert.Rollback.{new_snapshot}
use goedge_ip_cert.Lifecycle.Model.{
  Runner, category_text, input_for_operation, certificate_input_from_config,
  validate_managed_certificate, blank_config,
}

abbrev pub is_empty {ℓ} : {A : Type ℓ} → List A → Bool
is_empty [] = true
is_empty (_ ∷ _) = false

abbrev restored_text : String
restored_text = "new certificate failed TLS verification and old certificate was restored"

module _ {X : Type 0} (o : Outside X) (r : Runner) where
  -- r.Now().Add(r.Schedule.RetryDelay(attempt)).Unix()
  unfoldable pub next_retry : ℤ → Action (World X) ℤ
  next_retry attempts = do now ← time_now o; pass (unix (now +ℤ retry_delay r.schedule attempts))

  unfoldable pub crash : String → Action (World X) (Unit {0})
  crash point = external_fault (o.hook point)

  unfoldable pub edge_certificate : ℤ → Action (World X) CertificateConfig
  edge_certificate id = external (o.certificate id)

  unfoldable pub tls_verify : String → String → Action (World X) (Unit {0})
  tls_verify ip print = external (o.tls_verify ip print)

  unfoldable pub update_certificate : CertificateInput → Action (World X) (Unit {0})
  update_certificate input = request (updates input) (o.update_certificate input)

  -- The end of restoreOldCertificate, once TLS has returned the old certificate.
  unfoldable pub record_restored : Operation → Snapshot → Action (World X) (Unit {0})
  record_restored op snapshot = do
    at ← next_retry op.retry_count
    if stage_eq op.stage error
        then pass tt
        else set_error_with_retry o op.id op.stage (category_text transient) restored_text
            "retry-new-order" (op.retry_count +ℤ pos 1) at
    record_managed_error o op.ipv4 (category_text transient) restored_text "retry-new-order"
    Rollback.remove o snapshot.operation_id

  -- TLS did not confirm the old certificate.
  unfoldable pub not_restored : Result (Unit {0}) → Error → Action (World X) (Unit {0})
  not_restored update e =
      on update (λ _. fail (wrapped "old certificate submitted but TLS does not confirm it" e))
        (λ u. fail (
          joined (wrapped "restore old certificate" u)
            (wrapped "TLS does not confirm the old certificate" e)))

  unfoldable pub restore_old_certificate : Operation → Snapshot → Action (World X) (Unit {0})
  restore_old_certificate op snapshot = do
    update ← attempt (update_certificate snapshot.old)
    verified ← attempt (tls_verify snapshot.ipv4 snapshot.old_fingerprint)
    on verified (λ _. record_restored op snapshot) (λ e. not_restored update e)

  unfoldable pub rollback_after_failure : Operation → Snapshot → Error → Action (World X) (Unit {0})
  rollback_after_failure op snapshot cause = do
    restored ← attempt (restore_old_certificate op snapshot)
    on restored (λ _. fail cause) (λ e. fail (joined cause e))

  abbrev pub is_pending : Operation → CertificateConfig → Bool
  is_pending op cert =
      fingerprint o.crypto cert.cert_data =s= op.cert_fingerprint
      && eq_ℤ cert.time_end_at op.expires_at

  -- The marker names a certificate: it is the one that was issued, or the run stops.
  unfoldable pub adopt_existing : Operation → CertificateConfig → Action (World X) (Unit {0})
  adopt_existing op existing = do
    full ← edge_certificate existing.id
    lift_option (validate_managed_certificate full op.ipv4)
    refuse_if (not (is_pending op full))
        (message "the certificate of the marker is not the pending one")
    set_cert_created o op.id cert_issued existing.id

  unfoldable pub create_new : Operation → Option Verified → Action (World X) (Unit {0})
  create_new op none = fail (known reissue_required)
  create_new op (some verified) = do
    let input = input_for_operation op (blank_config op.marker) verified
    cert_id ← request (creates input) (o.create_certificate input)
    crash "after-cert-create"
    set_cert_created o op.id cert_issued cert_id

  unfoldable pub ensure_created : Operation → Option Verified → Action (World X) (Unit {0})
  ensure_created op verified = do
    found ← attempt (external (o.find_certificate_by_marker op.marker op.user_id))
    on found (λ existing. adopt_existing op existing)
        (λ e. if is e certificate_not_found then create_new op verified else fail e)

  -- After the update: read back, verify by TLS, record, and forget the snapshot.
  unfoldable pub confirm_update : Operation → Snapshot → Action (World X) (Unit {0})
  confirm_update op snapshot = do
    read_back ← attempt (edge_certificate op.cert_id)
    on read_back
        (λ cert.
          if not (is_pending op cert)
          then rollback_after_failure op snapshot (message "read-back after the update differs")
          else do
            served ← attempt (tls_verify op.ipv4 op.cert_fingerprint)
            on served
                (λ _. do
                  crash "after-tls-verification"
                  set_cert_created o op.id cert_issued op.cert_id
                  wrap_error (wrapped "delete rollback snapshot") (Rollback.remove o op.id))
                (λ e.
                  rollback_after_failure op snapshot (wrapped "TLS verification of the new one" e)))
        (λ e. rollback_after_failure op snapshot (wrapped "read the new certificate" e))

  -- The part of ensureUpdated after the snapshot.
  unfoldable pub replace_saved :
      Operation → CertificateConfig → Verified → Snapshot → Action (World X) (Unit {0})
  replace_saved op current verified snapshot = do
    crash "after-rollback-snapshot"
    updated ← attempt (update_certificate (input_for_operation op current verified))
    on updated (λ _. do crash "after-cert-update"; confirm_update op snapshot)
        (λ e. rollback_after_failure op snapshot (wrapped "update the new certificate" e))

  unfoldable pub replace :
      Operation → CertificateConfig → Verified → Snapshot → Action (World X) (Unit {0})
  replace op current verified snapshot = do
    wrap_error (wrapped "save rollback snapshot") (Rollback.save o snapshot)
    replace_saved op current verified snapshot

  unfoldable pub update_current :
      Operation → CertificateConfig → Option Verified → Action (World X) (Unit {0})
  update_current op current none = fail (known reissue_required)
  update_current op current (some verified) = do
    let old = certificate_input_from_config current
    refuse_if (is_empty old.cert_data || is_empty old.key_data)
        (message "the old certificate or key is empty")
    let old_fingerprint = fingerprint o.crypto old.cert_data
    refuse_if (old_fingerprint =s= "") (message "the old fingerprint cannot be computed")
    replace op current verified (new_snapshot op.id op.ipv4 op.cert_fingerprint old_fingerprint old)

  unfoldable pub ensure_updated : Operation → Option Verified → Action (World X) (Unit {0})
  ensure_updated op verified = do
    current ← edge_certificate op.cert_id
    lift_option (validate_managed_certificate current op.ipv4)
    if is_pending op current
        then (do
          wrap_error (wrapped "TLS verification of the current one")
              (tls_verify op.ipv4 op.cert_fingerprint)
          set_cert_created o op.id cert_issued op.cert_id)
        else update_current op current verified
