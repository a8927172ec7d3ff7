-- ===== src/Challenge/Model.antt =====
-- internal/challenge/model.go
use goedge_ip_cert.Prelude.{String, List}
use goedge_ip_cert.Prelude.Int.{ℤ}
use goedge_ip_cert.Action.{Action}

pub record Challenge : Type 0 where
  pub id : ℤ
  pub task_id : ℤ
  pub domain : String
  pub token : String
  pub key : String
  pub created_at : ℤ

pub record Pending : Type 0 where
  pub operation_id : String
  pub domain : String
  pub token : String
  pub row_id : ℤ
  pub created_at : ℤ

-- The interfaces Store and Journal, over the state that their methods change.
pub record Store (S : Type 0) : Type 0 where
  pub check_schema : Action S (Unit {0})
  pub create : Challenge → Action S Challenge
  pub remove : Challenge → Action S (Unit {0})
  pub find_owned : String → String → ℤ → Action S (List Challenge)

pub record Journal (S : Type 0) : Type 0 where
  pub begin_challenge : Pending → Action S (Unit {0})
  pub set_challenge_row_id : Pending → ℤ → Action S (Unit {0})
  pub pending_challenge : String → String → String → Action S Pending
  pub list_pending_challenges : Action S (List Pending)
  pub complete_challenge : Pending → Action S (Unit {0})
