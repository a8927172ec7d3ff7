-- ===== src/State/Tables.antt =====
-- The three tables of internal/state/store.go as lists of rows in the order of insertion, and each
-- SQL statement of store.go and challenge.go as a function on them. A statement that breaks a
-- primary key, a UNIQUE column, the index operations_one_inflight or the foreign key of
-- pending_challenges fails and changes nothing.
pub mod Rows
pub mod Deleting
use goedge_ip_cert.Prelude.{
  ℕ, suc, String, Bool, false, not, ◌&&◌, ◌||◌, Option, none, some, List, [], ◌∷◌, ◌++◌, ltb, ◌==◌,
  ◌=s=◌, if◌then◌else◌,
}
use goedge_ip_cert.Prelude.Int.{ℤ, ltb_ℤ}
use goedge_ip_cert.Error.{Error, message}
use goedge_ip_cert.Action.{Result, ok, err}
use goedge_ip_cert.State.Model.{LifecycleState, active, error, stage_eq, ManagedCert, Operation}
use goedge_ip_cert.Challenge.Model.{Pending}

pub record Tables : Type 0 where
  pub operations : List Operation
  pub managed_certs : List ManagedCert
  pub pending_challenges : List Pending

module _ {ℓ} {A : Type ℓ} where
  -- COUNT(*) … WHERE p, and the number of rows that an UPDATE … WHERE p affects
  unfoldable pub count : (A → Bool) → List A → ℕ
  count p [] = 0
  count p (x ∷ xs) = let n = count p xs in if p x then suc n else n

  -- UPDATE … SET f WHERE p
  unfoldable pub update : (A → Bool) → (A → A) → List A → List A
  update p f [] = []
  update p f (x ∷ xs) = (if p x then f x else x) ∷ update p f xs

  -- DELETE … WHERE p
  unfoldable pub delete : (A → Bool) → List A → List A
  delete p [] = []
  delete p (x ∷ xs) = let rest = delete p xs in if p x then rest else x ∷ rest

  -- SELECT … WHERE p, the first row
  unfoldable pub select : (A → Bool) → List A → Option A
  select p [] = none
  select p (x ∷ xs) = if p x then some x else select p xs

  unfoldable pub any : (A → Bool) → List A → Bool
  any p [] = false
  any p (x ∷ xs) = p x || any p xs

  -- … ORDER BY key DESC LIMIT 1; of equal keys the row that was inserted first
  unfoldable pub latest : (A → ℤ) → (A → Bool) → List A → Option A
  latest key p [] = none
  latest key p (x ∷ xs) =
      let rest = latest key p xs in
      if p x
      then (elim rest [ none ↦ some x | some y ↦ if ltb_ℤ (key x) (key y) then some y else some x ])
      else rest

  -- SELECT … WHERE p
  unfoldable pub select_all : (A → Bool) → List A → List A
  select_all p [] = []
  select_all p (x ∷ xs) = let rest = select_all p xs in if p x then x ∷ rest else rest

  -- … ORDER BY, by a test of what may stand before what
  unfoldable pub insert_by : (A → A → Bool) → A → List A → List A
  insert_by before x [] = x ∷ []
  insert_by before x (y ∷ ys) =
      let rest = y ∷ insert_by before x ys in if before x y then x ∷ y ∷ ys else rest

  unfoldable pub order_by : (A → A → Bool) → List A → List A
  unfolding insert_by
  order_by before [] = []
  order_by before (x ∷ xs) = insert_by before x (order_by before xs)

-- WHERE stage NOT IN ('ACTIVE', 'ERROR')
abbrev pub in_flight : LifecycleState → Bool
in_flight stage = not (stage_eq stage active || stage_eq stage error)

abbrev pub has_id : String → Operation → Bool
has_id id op = op.id =s= id

abbrev pub has_marker : String → Operation → Bool
has_marker marker op = op.marker =s= marker

abbrev pub in_flight_for : String → Operation → Bool
in_flight_for ip op = op.ipv4 =s= ip && in_flight op.stage

-- the index operations_one_inflight, among all rows
unfoldable pub crowded : List Operation → List Operation → Bool
crowded rows ops = any (λ op. ltb 1 (count (in_flight_for op.ipv4) ops)) rows

abbrev pub unique_failed : Error
unique_failed = message "UNIQUE constraint failed"

-- the primary key, the UNIQUE marker and operations_one_inflight, for a new row
unfoldable pub breaks_unique : Operation → List Operation → Bool
breaks_unique op ops =
    ltb 0 (count (has_id op.id) ops)
    || ltb 0 (count (has_marker op.marker) ops)
    || in_flight op.stage && ltb 0 (count (in_flight_for op.ipv4) ops)

-- INSERT INTO operations
unfoldable pub insert_operation : Operation → Tables → Result (Unit {0}) × Tables
insert_operation op t =
    if breaks_unique op t.operations
    then (err unique_failed, t)
    else (ok tt, record t { operations = t.operations ++ op ∷ [] })

abbrev pub at_stage : String → LifecycleState → Operation → Bool
at_stage id expected op = op.id =s= id && stage_eq op.stage expected

-- UPDATE operations SET … WHERE id=? AND …; the result is RowsAffected
unfoldable pub update_operations :
    (Operation → Bool) → (Operation → Operation) → Tables → Result ℕ × Tables
update_operations p f t =
    let ops = update p f t.operations in
    if crowded ops ops
    then (err unique_failed, t)
    else (ok (count p t.operations), record t { operations = ops })

abbrev pub for_ipv4 : String → ManagedCert → Bool
for_ipv4 ip item = item.ipv4 =s= ip

-- INSERT INTO managed_certs … ON CONFLICT(ipv4) DO UPDATE SET …
unfoldable pub upsert_managed : ManagedCert → Tables → Result (Unit {0}) × Tables
upsert_managed item t =
    if ltb 0 (count (for_ipv4 item.ipv4) t.managed_certs)
    then (
      ok tt,
      record t { managed_certs = update (for_ipv4 item.ipv4) (λ _. item) t.managed_certs },
    )
    else (ok tt, record t { managed_certs = t.managed_certs ++ item ∷ [] })

-- UPDATE managed_certs SET … WHERE ipv4=?; the result is RowsAffected
unfoldable pub update_managed : String → (ManagedCert → ManagedCert) → Tables → Result ℕ × Tables
update_managed ip f t = (
  ok (count (for_ipv4 ip) t.managed_certs),
  record t { managed_certs = update (for_ipv4 ip) f t.managed_certs },
)

-- PRIMARY KEY(operation_id, domain, token)
abbrev pub same_challenge : Pending → Pending → Bool
same_challenge p q =
    q.operation_id =s= p.operation_id && q.domain =s= p.domain && q.token =s= p.token

-- INSERT INTO pending_challenges
unfoldable pub insert_pending : Pending → Tables → Result (Unit {0}) × Tables
insert_pending p t =
    if ltb 0 (count (same_challenge p) t.pending_challenges)
    then (err unique_failed, t)
    else if count (has_id p.operation_id) t.operations == 0
    then (err (message "FOREIGN KEY constraint failed"), t)
    else (ok tt, record t { pending_challenges = t.pending_challenges ++ p ∷ [] })
