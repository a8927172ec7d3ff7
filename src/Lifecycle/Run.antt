-- ===== src/Lifecycle/Run.antt =====
-- RunOnce, runFirstIssue and DryRun of internal/lifecycle/runner.go.
use goedge_ip_cert.Prelude.{String, Bool, true, false, not, ◌&&◌, ◌||◌, ◌=s=◌, if◌then◌else◌}
use goedge_ip_cert.Prelude.Int.{ℤ, pos, ltb_ℤ, eq_ℤ}
use goedge_ip_cert.Error.{message, wrapped, is, state_not_found}
use goedge_ip_cert.Action.{
  Action, pass, fail, attempt, on, refuse_if, wrap_error, lift_option, ◌>>=◌, ◌>>◌,
}
use goedge_ip_cert.GoEdge.Model.{ServerTarget}
use goedge_ip_cert.World.{World, Outside, external, time_now, unix}
use goedge_ip_cert.Challenge.Model.{Store as ChallengeStore}
use goedge_ip_cert.Challenge.Provider
use goedge_ip_cert.Scheduler.{due}
use goedge_ip_cert.State.Model.{
  Operation, ManagedCert, RetryInfo, is_first_issue_failure, recovery_needs_attention,
}
use goedge_ip_cert.State.Store
use goedge_ip_cert.State.Store.{latest_retry, latest_operation, normalize_first_issue_failure}
use goedge_ip_cert.State.Challenges.{journal}
use goedge_ip_cert.Lifecycle.Model.{
  Runner, is_timer, is_manual_retry, validate, validate_managed_certificate, from_unix,
}
use goedge_ip_cert.Lifecycle.Ensure.{edge_certificate}
use goedge_ip_cert.Lifecycle.Operations.{start_issue, start_renew}
use goedge_ip_cert.Lifecycle.Recovery.{recover_operations, recover_rollbacks}

pub record DryRunResult : Type 0 where
  pub ipv4 : String
  pub server_id : ℤ
  pub policy_id : ℤ
  pub cert_id : ℤ
  pub managed : Bool
  pub expires_at : ℤ
  pub due : Bool

module _ {X : Type 0} (o : Outside X) where
  -- The challenge store, over the world.
  abbrev pub challenge_store : ChallengeStore (World X)
  challenge_store = record {
    check_schema = external o.challenges.check_schema;
    create = λ c. external (o.challenges.create c);
    remove = λ c. external (o.challenges.remove c);
    find_owned = λ domain token at. external (o.challenges.find_owned domain token at);
  }

module _ {X : Type 0} (o : Outside X) (r : Runner) where
  unfoldable pub discover : String → Action (World X) ServerTarget
  discover ip = external (o.discover_server ip)

  -- A first issue that may start: the server is found and the order is placed.
  unfoldable pub discover_and_issue : String → ℤ → Action (World X) (Unit {0})
  discover_and_issue ip retry_attempt = do
    target ← discover ip
    start_issue o r ip target retry_attempt

  -- There is an operation for the address, and no certificate.
  unfoldable pub after_operation : String → Operation → Action (World X) (Unit {0})
  after_operation ip op =
      if is_first_issue_failure op
      then (do
        if not (op.recovery_marker =s= recovery_needs_attention)
            then normalize_first_issue_failure o op.id
            else pass tt
        if not (is_manual_retry r.mode) then pass tt else discover_and_issue ip op.retry_count)
      else fail (message "an operation without managed certificate, no new order")

  -- There is no operation for the address either.
  unfoldable pub without_operation : String → Action (World X) (Unit {0})
  without_operation ip =
      if is_timer r.mode
      then pass tt
      else if is_manual_retry r.mode
      then fail (message "no failed first issue to retry")
      else discover_and_issue ip (pos 0)

  unfoldable pub run_first_issue : String → Action (World X) (Unit {0})
  run_first_issue ip = do
    found ← attempt (latest_operation o ip)
    on found (λ op. after_operation ip op)
        (λ e. if is e state_not_found then without_operation ip else fail e)

  abbrev pub same_target : ManagedCert → ServerTarget → Bool
  same_target managed target =
      eq_ℤ managed.server_id target.id && eq_ℤ managed.policy_id target.policy_id

  -- The certificate is the managed one and is bound to its policy.
  unfoldable pub check_managed : String → ManagedCert → Action (World X) (Unit {0})
  check_managed ip managed = do
    current ← edge_certificate o r managed.cert_id
    lift_option (validate_managed_certificate current ip)
    external (o.verify_certificate_bound managed.policy_id managed.cert_id)

  unfoldable pub renew_if_due : String → ManagedCert → RetryInfo → Action (World X) (Unit {0})
  renew_if_due ip managed retry = do
    target ← discover ip
    refuse_if (not (same_target managed target)) (message "Server/Policy changed, no rebinding")
    check_managed ip managed
    now ← time_now o
    if not (due now (from_unix managed.next_renewal_at))
        then pass tt
        else start_renew o r managed retry.attempt

  unfoldable pub run_managed : String → ManagedCert → Action (World X) (Unit {0})
  run_managed ip managed = do
    retry ← latest_retry o ip
    now ← time_now o
    if ltb_ℤ (unix now) retry.next_at then pass tt else renew_if_due ip managed retry

  -- The checks and recoveries that come first.
  unfoldable pub prepare : Action (World X) (Unit {0})
  prepare = do
    lift_option (validate r)
    refuse_if (not r.has_issuer || r.account_reference =s= "")
        (message "apply needs an ACME issuer and account reference")
    refuse_if (not r.has_rollbacks || not r.has_tls)
        (message "apply needs a rollback store and TLS verifier")
    (challenge_store o).check_schema
    wrap_error (wrapped "recover challenges") (Provider.recover (challenge_store o) (journal o))
    wrap_error (wrapped "recover rollbacks") (recover_rollbacks o r)
    recover_operations o r

  unfoldable pub run_once : String → Action (World X) (Unit {0})
  run_once ip = do
    prepare
    found ← attempt (Store.managed o ip)
    on found (λ managed. run_managed ip managed)
        (λ e. if is e state_not_found then run_first_issue ip else fail e)

  unfoldable pub dry_run_managed :
      String → ServerTarget → ManagedCert → Action (World X) DryRunResult
  dry_run_managed ip target managed = do
    now ← time_now o
    refuse_if (not (same_target managed target)) (message "state differs from Server/Policy")
    check_managed ip managed
    pass (record {
      ipv4 = ip;
      server_id = target.id;
      policy_id = target.policy_id;
      cert_id = managed.cert_id;
      managed = true;
      expires_at = managed.expires_at;
      due = due now (from_unix managed.next_renewal_at);
    })

  unfoldable pub dry_run : String → Action (World X) DryRunResult
  dry_run ip = do
    lift_option (validate r)
    (challenge_store o).check_schema
    target ← discover ip
    external (o.policy target.policy_id)
    found ← attempt (Store.managed o ip)
    on found (λ managed. dry_run_managed ip target managed)
        (λ e.
          if is e state_not_found
          then pass (record {
            ipv4 = ip;
            server_id = target.id;
            policy_id = target.policy_id;
            cert_id = pos 0;
            managed = false;
            expires_at = pos 0;
            due = false;
          })
          else fail e)
