-- ===== src/State/Moves.antt =====
-- How the stage of an operation may change.
use goedge_ip_cert.Prelude.{◌≡◌, refl, ◌⊎◌, inr, true, arith}
use goedge_ip_cert.State.Model.{
  LifecycleState, fresh, challenge_present, cert_issued, cert_created, policy_bound, active,
  renewing, error, stage_eq, Operation,
}

pub data Step : LifecycleState → LifecycleState → Type 0 where
  stays : {s : LifecycleState} → Step s s
  order_issue : Step fresh challenge_present
  order_renew : Step renewing challenge_present
  certify : Step challenge_present cert_issued
  create : Step cert_issued cert_created
  bind : Step cert_created policy_bound
  activate : Step policy_bound active
  give_up : {s : LifecycleState} → Step s error

pub data Reach (s : LifecycleState) : LifecycleState → Type 0 where
  here : Reach s s
  next : {t u : LifecycleState} → Reach s t → Step t u → Reach s u

-- One change of a row: it stays the same operation.
pub record Moves (op op' : Operation) : Type 0 where
  pub id : op'.id ≡ op.id
  pub ipv4 : op'.ipv4 ≡ op.ipv4
  pub kind : op'.kind ≡ op.kind
  pub marker : op'.marker ≡ op.marker
  pub step : Step op.stage op'.stage

pub stage_eq→eq : (a b : LifecycleState) → stage_eq a b ≡ true → a ≡ b
stage_eq→eq a b h = ground arith

Step-from_error : {s t : LifecycleState} → Step s t → s ≡ error → t ≡ error
Step-from_error stays e = e
Step-from_error order_issue e = cc
Step-from_error order_renew e = cc
Step-from_error certify e = cc
Step-from_error create e = cc
Step-from_error bind e = cc
Step-from_error activate e = cc
Step-from_error give_up e = refl

pub Reach-from_error : {s t : LifecycleState} → Reach s t → s ≡ error → t ≡ error
Reach-from_error here e = e
Reach-from_error (next r st) e = Step-from_error st (Reach-from_error r e)

Step-from_active :
    {s t : LifecycleState} → Step s t → (s ≡ active) ⊎ (s ≡ error) → (t ≡ active) ⊎ (t ≡ error)
Step-from_active stays e = e
Step-from_active give_up e = inr refl
Step-from_active order_issue e = ground arith
Step-from_active order_renew e = ground arith
Step-from_active certify e = ground arith
Step-from_active create e = ground arith
Step-from_active bind e = ground arith
Step-from_active activate e = ground arith

pub Reach-from_active :
    {s t : LifecycleState} → Reach s t → (s ≡ active) ⊎ (s ≡ error) → (t ≡ active) ⊎ (t ≡ error)
Reach-from_active here e = e
Reach-from_active (next r st) e = Step-from_active st (Reach-from_active r e)
