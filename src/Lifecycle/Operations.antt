-- ===== src/Lifecycle/Operations.antt =====
-- continueOperation, continueRecorded, obtainAndContinue, startIssue and startRenew of
-- internal/lifecycle/runner.go: an operation from its order to the active certificate.
use goedge_ip_cert.Prelude.{String, Option, some, ◌<>◌, if◌then◌else◌}
use goedge_ip_cert.Prelude.Int.{ℤ, pos, ◌+ℤ◌}
use goedge_ip_cert.Error.{Error, wrapped}
use goedge_ip_cert.Action.{
  Result, ok, err, Action, pass, fail, attempt, on, wrap_error, ◌>>=◌, ◌>>◌,
}
use goedge_ip_cert.Certificate.{Verified, verify}
use goedge_ip_cert.GoEdge.Model.{ServerTarget}
use goedge_ip_cert.World.{World, Outside, external, order, time_now, unix}
use goedge_ip_cert.Scheduler.{transient, security, next_renewal}
use goedge_ip_cert.State.Model.{
  Operation, ManagedCert, OperationKind, issue, renew, unknown_kind, kind_eq, fresh,
  challenge_present, cert_issued, cert_created, policy_bound, renewing, blank, stage_eq,
  recovery_needs_attention,
}
use goedge_ip_cert.State.Store.{
  operation, transition, save_issued, set_error, set_error_with_retry, set_policy_bound, set_active,
  record_managed_error, record_operation_failure, create_operation, begin_renewal,
}
use goedge_ip_cert.Lifecycle.Model.{Runner, category_text, classify_error, from_unix}
use goedge_ip_cert.Lifecycle.Ensure.{next_retry, crash, tls_verify, ensure_created, ensure_updated}

-- The operation that is written down at first: the columns that are not given are Go's zero values.
abbrev pub new_operation : String → String → OperationKind → String → ℤ → ℤ → ℤ → ℤ → Operation
new_operation id ip kind marker server_id policy_id cert_id user_id = record {
  id = id;
  ipv4 = ip;
  kind = kind;
  stage = elim kind [ issue ↦ fresh | renew ↦ renewing | unknown_kind ↦ blank ];
  marker = marker;
  server_id = server_id;
  policy_id = policy_id;
  cert_id = cert_id;
  user_id = user_id;
  cert_fingerprint = "";
  expires_at = pos 0;
  error_category = "";
  error_message = "";
  recovery_marker = "";
  retry_count = pos 0;
  next_retry_at = pos 0;
  created_at = pos 0;
  updated_at = pos 0;
}

module _ {X : Type 0} (o : Outside X) (r : Runner) where
  -- `if op.Stage == state.StateCertIssued { … }`; the operation is read again after the step.
  unfoldable pub issued_step : Operation → Option Verified → Action (World X) Operation
  issued_step op verified =
      if stage_eq op.stage cert_issued
      then (do
        if kind_eq op.kind issue
            then ensure_created o r op verified
            else ensure_updated o r op verified
        operation o op.id)
      else pass op

  -- `if op.Stage == state.StateCertCreated { … }`
  unfoldable pub created_step : Operation → Action (World X) Operation
  created_step op =
      if stage_eq op.stage cert_created
      then (do
        external (o.verify_certificate_bound op.policy_id op.cert_id)
        if kind_eq op.kind issue
            then wrap_error (wrapped "the new certificate is not served yet")
                (tls_verify o r op.ipv4 op.cert_fingerprint)
            else pass tt
        crash o r "after-policy-verification"
        set_policy_bound o op.id cert_created
        pass (record op { stage = policy_bound }))
      else pass op

  -- `if op.Stage == state.StatePolicyBound { … }`
  unfoldable pub bound_step : Operation → Action (World X) (Unit {0})
  bound_step op =
      if stage_eq op.stage policy_bound
      then set_active o op.id policy_bound r.account_reference
          (unix (next_renewal o.digest r.schedule op.ipv4 (from_unix op.expires_at)))
      else pass tt

  unfoldable pub continue_operation : Operation → Option Verified → Action (World X) (Unit {0})
  continue_operation op verified = do
    issued ← issued_step op verified
    created ← created_step issued
    bound_step created

  unfoldable pub record_failure : Operation → Error → Action (World X) (Unit {0})
  record_failure op e = do
    current ← wrap_error (wrapped "integration step failed, state unreadable") (operation o op.id)
    wrap_error (wrapped "integration step failed, state not saved") (
        record_operation_failure o op.id current.stage (category_text (classify_error e).0)
          "integration step failed" (classify_error e).1)
    fail e

  unfoldable pub continue_recorded : Operation → Option Verified → Action (World X) (Unit {0})
  continue_recorded op verified = do
    result ← attempt (continue_operation op verified)
    on result (λ _. pass tt) (λ e. record_failure op e)

  -- The ACME order failed.
  unfoldable pub record_order_failure : Operation → ℤ → Error → Action (World X) (Unit {0})
  record_order_failure op retry_attempt e = do
    at ← next_retry o r retry_attempt
    wrap_error (wrapped "ACME failed, back-off not saved") (
        set_error_with_retry o op.id challenge_present (category_text transient)
          "ACME issuance failed"
          (if kind_eq op.kind issue then recovery_needs_attention else "retry-new-order")
          (retry_attempt +ℤ pos 1) at)
    if kind_eq op.kind renew
        then wrap_error (wrapped "ACME failed, certificate error not saved") (
            record_managed_error o op.ipv4 (category_text transient) "ACME issuance failed"
              "retry-new-order")
        else pass tt
    fail e

  -- The issued certificate passed Verify, or did not.
  unfoldable pub record_issued : Operation → Result Verified → Action (World X) (Unit {0})
  record_issued op (err e) = do
    wrap_error (wrapped "certificate check failed, state not saved") (
        set_error o op.id challenge_present (category_text security)
          "issued certificate validation failed" "manual-review")
    fail e
  record_issued op (ok verified) = do
    save_issued o op.id challenge_present verified.fingerprint (unix verified.not_after)
    crash o r "after-cert-issuance"
    current ← operation o op.id
    continue_recorded current (some verified)

  unfoldable pub obtain_and_continue : Operation → ℤ → Action (World X) (Unit {0})
  obtain_and_continue op retry_attempt = do
    transition o op.id op.stage challenge_present "awaiting-acme"
    issued ← attempt (order o op.id op.ipv4)
    on issued
        (λ cert. do
          now ← time_now o
          record_issued op (verify o.crypto cert.certificate cert.private_key op.ipv4 now))
        (λ e. record_order_failure op retry_attempt e)

  unfoldable pub start_issue : String → ServerTarget → ℤ → Action (World X) (Unit {0})
  start_issue ip target retry_attempt = do
    id ← external o.new_operation_id
    let op =
        new_operation id ip issue ("goedge-ip-cert/" <> ip <> "/" <> id) target.id target.policy_id
          (pos 0) target.user_id
    create_operation o op
    obtain_and_continue op retry_attempt

  unfoldable pub start_renew : ManagedCert → ℤ → Action (World X) (Unit {0})
  start_renew managed retry_attempt = do
    id ← external o.new_operation_id
    let op =
        new_operation id managed.ipv4 renew ("goedge-ip-cert-renew/" <> managed.ipv4 <> "/" <> id)
          managed.server_id managed.policy_id managed.cert_id (pos 0)
    begin_renewal o op
    obtain_and_continue op retry_attempt
