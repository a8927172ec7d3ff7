-- ===== src/State/Store.antt =====
-- The methods of internal/state/store.go. Each statement may fail; time.Now is read anew by each
-- method that stamps a row. `sql.ErrNoRows` is a `none` of the query.
use goedge_ip_cert.Prelude.{
  String, not, ◌&&◌, ◌||◌, Option, none, some, List, [], ◌∷◌, ◌==◌, ◌=s=◌, if◌then◌else◌,
}
use goedge_ip_cert.Prelude.Int.{ℤ, pos, eq_ℤ, leb_ℤ, not_positive}
use goedge_ip_cert.Error.{known, message, wrapped, state_not_found, state_conflict}
use goedge_ip_cert.Action.{Result, ok, err, Action, pass, refuse_if, wrap_error, ◌>>=◌, ◌>>◌}
use goedge_ip_cert.Text.{text_before}
use goedge_ip_cert.World.{World, Outside, time_now, sql, query, transaction, unix}
use goedge_ip_cert.State.Model.{
  LifecycleState, blank, fresh, cert_issued, cert_created, policy_bound, active, renewing, error,
  stage_eq, issue, renew, kind_eq, recovery_needs_attention, ManagedCert, Operation, RetryInfo,
}
use goedge_ip_cert.State.Tables.{
  select, select_all, latest, order_by, in_flight, has_id, at_stage, for_ipv4, insert_operation,
  update_operations, upsert_managed, update_managed,
}

-- `if operation.Stage == "" { operation.Stage = StateNew }`
abbrev initial_stage : LifecycleState → LifecycleState
initial_stage blank = fresh
initial_stage stage = stage

-- The row that CreateOperation inserts: the other columns have their defaults.
abbrev pub new_row : Operation → ℤ → Operation
new_row op now = record {
  id = op.id;
  ipv4 = op.ipv4;
  kind = op.kind;
  stage = initial_stage op.stage;
  marker = op.marker;
  server_id = op.server_id;
  policy_id = op.policy_id;
  cert_id = op.cert_id;
  user_id = op.user_id;
  cert_fingerprint = "";
  expires_at = pos 0;
  error_category = "";
  error_message = "";
  recovery_marker = "";
  retry_count = pos 0;
  next_retry_at = pos 0;
  created_at = now;
  updated_at = now;
}

abbrev pub row_or_not_found : {A : Type 0} → Option A → Result A
row_or_not_found none = err (known state_not_found)
row_or_not_found (some a) = ok a

-- `if LifecycleState(stage) != StateError { return RetryInfo{}, nil }`
abbrev pub retry_of : Option Operation → RetryInfo
retry_of none = record { attempt = pos 0; next_at = pos 0 }
retry_of (some op) =
    if not (stage_eq op.stage error)
    then record { attempt = pos 0; next_at = pos 0 }
    else record { attempt = op.retry_count; next_at = op.next_retry_at }

-- SELECT id … WHERE stage NOT IN ('ACTIVE', 'ERROR') ORDER BY created_at
abbrev pub incomplete : List Operation → List Operation
incomplete ops =
    order_by (λ a b. leb_ℤ a.created_at b.created_at) (select_all (λ op. in_flight op.stage) ops)

abbrev pub ids : List Operation → List String
ids [] = []
ids (op ∷ ops) = op.id ∷ ids ops

-- SET stage='ACTIVE', error_category='', … of SetActive
abbrev pub activated_row : ℤ → Operation → Operation
activated_row stamp row = record row {
  stage = active;
  error_category = "";
  error_message = "";
  recovery_marker = "";
  updated_at = stamp;
}

unfoldable pub addresses : List ManagedCert → List String
addresses [] = []
addresses (m ∷ certs) = m.ipv4 ∷ addresses certs

module _ {X : Type 0} (o : Outside X) where
  unfoldable pub create_operation : Operation → Action (World X) (Unit {0})
  create_operation op = do
    refuse_if (op.id =s= "" || op.ipv4 =s= "" || op.marker =s= "")
        (message "operation id/ipv4/marker is empty")
    refuse_if (not (kind_eq op.kind issue) && not (kind_eq op.kind renew))
        (message "operation kind is invalid")
    now ← time_now o
    wrap_error (wrapped "create lifecycle operation") (sql o (insert_operation (new_row op now)))

  unfoldable pub operation : String → Action (World X) Operation
  operation id = query o (λ t. row_or_not_found (select (has_id id) t.operations))

  unfoldable pub operations_by_id : List String → Action (World X) (List Operation)
  operations_by_id [] = pass []
  operations_by_id (id ∷ rest) = do op ← operation id; ops ← operations_by_id rest; pass (op ∷ ops)

  unfoldable pub list_incomplete_operations : Action (World X) (List Operation)
  list_incomplete_operations = do
    found ← query o (λ t. ok (ids (incomplete t.operations)))
    operations_by_id found

  -- UPDATE operations SET stage=?, fields, updated_at=? WHERE id=? AND stage=?
  unfoldable pub update_expected :
      String
      → LifecycleState
      → LifecycleState
      → (Operation → Operation)
      → Action (World X) (Unit {0})
  update_expected id expected next fields = do
    now ← time_now o
    n ← sql o (
        update_operations (at_stage id expected)
          (λ op. record (fields op) { stage = next; updated_at = now }))
    refuse_if (not (n == 1)) (known state_conflict)

  unfoldable pub transition :
      String → LifecycleState → LifecycleState → String → Action (World X) (Unit {0})
  transition id expected next recovery_marker =
      update_expected id expected next (λ op. record op { recovery_marker = recovery_marker })

  unfoldable pub save_issued : String → LifecycleState → String → ℤ → Action (World X) (Unit {0})
  save_issued id expected fingerprint expires_at = do
    refuse_if (fingerprint =s= "" || not_positive expires_at)
        (message "issued certificate state is incomplete")
    update_expected id expected cert_issued (λ op. record op {
      cert_fingerprint = fingerprint;
      expires_at = expires_at;
      recovery_marker = "";
    })

  unfoldable pub set_cert_created : String → LifecycleState → ℤ → Action (World X) (Unit {0})
  set_cert_created id expected cert_id = do
    refuse_if (not_positive cert_id) (message "certID must be positive")
    update_expected id expected cert_created
        (λ op. record op { cert_id = cert_id; recovery_marker = "" })

  unfoldable pub set_policy_bound : String → LifecycleState → Action (World X) (Unit {0})
  set_policy_bound id expected =
      update_expected id expected policy_bound (λ op. record op { recovery_marker = "" })

  unfoldable pub set_error :
      String → LifecycleState → String → String → String → Action (World X) (Unit {0})
  set_error id expected category text marker = update_expected id expected error (λ op. record op {
    error_category = category;
    error_message = text;
    recovery_marker = marker;
  })

  unfoldable pub set_error_with_retry :
      String → LifecycleState → String → String → String → ℤ → ℤ → Action (World X) (Unit {0})
  set_error_with_retry id expected category text marker retry_count next_retry_at =
      update_expected id expected error (λ op. record op {
        error_category = category;
        error_message = text;
        recovery_marker = marker;
        retry_count = retry_count;
        next_retry_at = next_retry_at;
      })

  unfoldable pub record_operation_failure :
      String → LifecycleState → String → String → String → Action (World X) (Unit {0})
  record_operation_failure id expected category text marker =
      update_expected id expected expected (λ op. record op {
        error_category = category;
        error_message = text;
        recovery_marker = marker;
      })

  unfoldable pub latest_retry : String → Action (World X) RetryInfo
  latest_retry ip =
      query o
        (λ t. ok (retry_of (latest (λ op. op.updated_at) (λ op. op.ipv4 =s= ip) t.operations)))

  -- The body of the transaction of SetActive.
  unfoldable pub activate : String → LifecycleState → String → ℤ → Action (World X) (Unit {0})
  activate id expected account_reference next_renewal_at = do
    op ← query o (λ t. row_or_not_found (select (has_id id) t.operations))
    refuse_if (not (stage_eq op.stage expected)) (known state_conflict)
    now ← time_now o
    sql o (
        upsert_managed (record {
          ipv4 = op.ipv4;
          server_id = op.server_id;
          policy_id = op.policy_id;
          cert_id = op.cert_id;
          account_reference = account_reference;
          state = active;
          last_success_at = unix now;
          expires_at = op.expires_at;
          next_renewal_at = next_renewal_at;
          last_error_category = "";
          last_error = "";
          recovery_marker = "";
        }))
    stamp ← time_now o
    n ← sql o (update_operations (at_stage id expected) (activated_row stamp))
    refuse_if (not (n == 1)) (known state_conflict)

  unfoldable pub set_active : String → LifecycleState → String → ℤ → Action (World X) (Unit {0})
  set_active id expected account_reference next_renewal_at =
      transaction o (activate id expected account_reference next_renewal_at)

  unfoldable pub managed : String → Action (World X) ManagedCert
  managed ip = query o (λ t. row_or_not_found (select (for_ipv4 ip) t.managed_certs))

  unfoldable pub managed_each : List String → Action (World X) (List ManagedCert)
  unfolding managed
  managed_each [] = pass []
  managed_each (ip ∷ ips) = do item ← managed ip; items ← managed_each ips; pass (item ∷ items)

  unfoldable pub list_managed : Action (World X) (List ManagedCert)
  unfolding managed_each addresses
  list_managed = do
    ips ←
        query o (λ t. ok (addresses (order_by (λ a b. text_before a.ipv4 b.ipv4) t.managed_certs)))
    managed_each ips

  unfoldable pub latest_operation : String → Action (World X) Operation
  latest_operation ip = do
    op ←
        query o
          (λ t. row_or_not_found (latest (λ op. op.updated_at) (λ op. op.ipv4 =s= ip) t.operations))
    operation op.id

  unfoldable pub normalize_first_issue_failure : String → Action (World X) (Unit {0})
  normalize_first_issue_failure id = do
    n ← sql o (
        update_operations
          (λ op.
            op.id =s= id
            && kind_eq op.kind issue
            && stage_eq op.stage error
            && eq_ℤ op.cert_id (pos 0))
          (λ op. record op { recovery_marker = recovery_needs_attention }))
    refuse_if (not (n == 1)) (known state_conflict)

  unfoldable pub record_managed_error :
      String → String → String → String → Action (World X) (Unit {0})
  record_managed_error ip category text marker = do
    n ← sql o (
        update_managed ip (λ item. record item {
          state = error;
          last_error_category = category;
          last_error = text;
          recovery_marker = marker;
        }))
    refuse_if (not (n == 1)) (known state_not_found)

  unfoldable pub begin_renewal : Operation → Action (World X) (Unit {0})
  begin_renewal op = create_operation (record op { kind = renew; stage = renewing })
