-- ===== src/State/Model.antt =====
-- internal/state/model.go. A stage or kind is a text in Go; the constants are constructors here, and
-- `blank` is the empty text, the zero value. The texts are never read back in another spelling.
use goedge_ip_cert.Prelude.{ℕ, String, Bool, ◌&&◌, ◌==◌}
use goedge_ip_cert.Prelude.Int.{ℤ, pos, eq_ℤ}

pub data LifecycleState : Type 0 where
  blank fresh challenge_present cert_issued cert_created policy_bound : LifecycleState
  active renewing error needs_attention : LifecycleState

abbrev pub stage_code : LifecycleState → ℕ
stage_code blank = 0
stage_code fresh = 1
stage_code challenge_present = 2
stage_code cert_issued = 3
stage_code cert_created = 4
stage_code policy_bound = 5
stage_code active = 6
stage_code renewing = 7
stage_code error = 8
stage_code needs_attention = 9

abbrev pub stage_eq : LifecycleState → LifecycleState → Bool
stage_eq a b = stage_code a == stage_code b

pub data OperationKind : Type 0 where
  issue renew : OperationKind
  unknown_kind : OperationKind

abbrev pub kind_code : OperationKind → ℕ
kind_code issue = 0
kind_code renew = 1
kind_code unknown_kind = 2

abbrev pub kind_eq : OperationKind → OperationKind → Bool
kind_eq a b = kind_code a == kind_code b

abbrev pub recovery_needs_attention : String
recovery_needs_attention = "needs-attention"

pub record ManagedCert : Type 0 where
  pub ipv4 : String
  pub server_id : ℤ
  pub policy_id : ℤ
  pub cert_id : ℤ
  pub account_reference : String
  pub state : LifecycleState
  pub last_success_at : ℤ
  pub expires_at : ℤ
  pub next_renewal_at : ℤ
  pub last_error_category : String
  pub last_error : String
  pub recovery_marker : String

pub record Operation : Type 0 where
  pub id : String
  pub ipv4 : String
  pub kind : OperationKind
  pub stage : LifecycleState
  pub marker : String
  pub server_id : ℤ
  pub policy_id : ℤ
  pub cert_id : ℤ
  pub user_id : ℤ
  pub cert_fingerprint : String
  pub expires_at : ℤ
  pub error_category : String
  pub error_message : String
  pub recovery_marker : String
  pub retry_count : ℤ
  pub next_retry_at : ℤ
  pub created_at : ℤ
  pub updated_at : ℤ

pub record RetryInfo : Type 0 where
  pub attempt : ℤ
  pub next_at : ℤ

unfoldable pub is_first_issue_failure : Operation → Bool
is_first_issue_failure operation =
    kind_eq operation.kind issue && stage_eq operation.stage error && eq_ℤ operation.cert_id (pos 0)
