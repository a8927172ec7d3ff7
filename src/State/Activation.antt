-- ===== src/State/Activation.antt =====
-- SetActive is all or nothing.
use goedge_ip_cert.Prelude.{
  ℕ, ◌≡◌, refl, ap, ◌∙◌, String, Bool, true, not, ◌⊎◌, inl, inr, Option, some, none, List, [], ◌∷◌,
  ◌++◌, Bool-cases, arith, ◌<◌, ltb, ◌=s=◌, eq_refl, ◌==◌,
}
use mathlib.Core.Path.{subst}
use goedge_ip_cert.Prelude.Int.{ℤ}
use goedge_ip_cert.Error.{Error, known, state_conflict}
use goedge_ip_cert.Action.{ok, err, Action, refuse_if, ◌>>=◌, ◌>>◌}
use goedge_ip_cert.Action.Success.{err≢ok, ok-inj, Result-cases, bind-succeeds, refuse-succeeds}
use goedge_ip_cert.World.{World, Outside, sql, query, time_now, external_fault, unix}
use goedge_ip_cert.State.Model.{LifecycleState, active, Operation, ManagedCert, stage_eq}
use goedge_ip_cert.State.Tables.{
  Tables, count, update, select, has_id, at_stage, for_ipv4, crowded, upsert_managed,
  update_operations,
}
use goedge_ip_cert.State.Tables.Rows.{select-update, select_fits}
use goedge_ip_cert.State.Outcomes.{
  sql-succeeds, query-succeeds, fault-tables, transaction-ok, transaction-err,
}
use goedge_ip_cert.State.Moves.{stage_eq→eq}
use goedge_ip_cert.State.Store.{activate, set_active, activated_row, row_or_not_found}

-- What SetActive leaves when it returns no error.
pub record Activated (id account : String) (expected : LifecycleState) (at : ℤ)
    (before after : Tables) : Type 0 where
  pub op : Operation
  pub was_there : select (has_id id) before.operations ≡ some op
  pub was_expected : op.stage ≡ expected
  pub row : Operation
  pub is_there : select (has_id id) after.operations ≡ some row
  pub is_active : row.stage ≡ active
  pub managed : ManagedCert
  pub is_managed : select (for_ipv4 op.ipv4) after.managed_certs ≡ some managed
  pub same_server : managed.server_id ≡ op.server_id
  pub same_policy : managed.policy_id ≡ op.policy_id
  pub same_cert : managed.cert_id ≡ op.cert_id
  pub same_expiry : managed.expires_at ≡ op.expires_at
  pub same_account : managed.account_reference ≡ account
  pub same_renewal : managed.next_renewal_at ≡ at

select-updated :
    (ip : String) (item : ManagedCert) (rows : List ManagedCert)
    → item.ipv4 ≡ ip
    → 0 < count (for_ipv4 ip) rows
    → select (for_ipv4 ip) (update (for_ipv4 ip) (λ _. item) rows) ≡ some item
unfolding select update count
select-updated ip item [] e h = absurd (omega arith)
select-updated ip item (x ∷ rows) e h = elim (Bool-cases (x.ipv4 =s= ip)) [
  | inl p ↦ rw (p, update, e, eq_refl ip) refl
  | inr p ↦ rw (p, update, p) (select-updated ip item rows e (ground arith))
]

select-appended :
    (ip : String) (item : ManagedCert) (rows : List ManagedCert)
    → item.ipv4 ≡ ip
    → count (for_ipv4 ip) rows ≡ 0
    → select (for_ipv4 ip) (rows ++ item ∷ []) ≡ some item
unfolding select count
select-appended ip item [] e h = rw (e, eq_refl ip) refl
select-appended ip item (x ∷ rows) e h = elim (Bool-cases (x.ipv4 =s= ip)) [
  | inl p ↦ absurd (ground arith)
  | inr p ↦ rw p (select-appended ip item rows e (ground arith))
]

upsert-select :
    (item : ManagedCert) (t : Tables)
    → select (for_ipv4 item.ipv4) (upsert_managed item t).1.managed_certs ≡ some item
unfolding upsert_managed
upsert-select item t = elim (Bool-cases (ltb 0 (count (for_ipv4 item.ipv4) t.managed_certs))) [
  | inl e ↦
      rw (e, upsert_managed) (select-updated item.ipv4 item t.managed_certs refl (ground arith))
  | inr e ↦
      rw (e, upsert_managed) (select-appended item.ipv4 item t.managed_certs refl (ground arith))
]

upsert-operations :
    (item : ManagedCert) (t : Tables) → (upsert_managed item t).1.operations ≡ t.operations
unfolding upsert_managed
upsert-operations item t = ground arith

update_operations-ok :
    (p : Operation → Bool) (f : Operation → Operation) (t : Tables) (n : ℕ)
    → (update_operations p f t).0 ≡ ok n
    → (update_operations p f t).1 ≡ record t { operations = update p f t.operations }
unfolding update_operations
update_operations-ok p f t n h =
    elim (Bool-cases (crowded (update p f t.operations) (update p f t.operations))) [
      | inl e ↦ absurd (err≢ok (rw (e, update_operations) at h))
      | inr e ↦ rw (e, update_operations) refl
    ]

row-ok : (x : Option Operation) (op : Operation) → row_or_not_found x ≡ ok op → x ≡ some op
row-ok none op h = absurd (err≢ok h)
row-ok (some y) op h = ap (λ z. some z) (ok-inj h)

updated_row :
    (id : String) (expected : LifecycleState) (ops : List Operation) (op : Operation) (stamp : ℤ)
    → select (has_id id) ops ≡ some op
    → stage_eq op.stage expected ≡ true
    → select (has_id id) (update (at_stage id expected) (activated_row stamp) ops)
      ≡ some (activated_row stamp op)
updated_row id expected ops op stamp found s =
    let fits = select_fits (has_id id) ops op found in
    let hit : at_stage id expected op ≡ true = ground arith in
    rw hit at (
      select-update (has_id id) (at_stage id expected) (activated_row stamp) ops op (λ y h. refl)
        found)

-- The two statements of SetActive on the tables, with the row that was read.
statements-Activated :
    (id account : String) (expected : LifecycleState) (at : ℤ) (t : Tables) (op : Operation)
    (item : ManagedCert) (stamp : ℤ) (n : ℕ)
    → select (has_id id) t.operations ≡ some op
    → stage_eq op.stage expected ≡ true
    → item.ipv4 ≡ op.ipv4
    → item.server_id ≡ op.server_id
    → item.policy_id ≡ op.policy_id
    → item.cert_id ≡ op.cert_id
    → item.expires_at ≡ op.expires_at
    → item.account_reference ≡ account
    → item.next_renewal_at ≡ at
    → (update_operations (at_stage id expected) (activated_row stamp) (upsert_managed item t).1).0
      ≡ ok n
    → Activated id account expected at t
        (update_operations (at_stage id expected) (activated_row stamp) (upsert_managed item t).1).1
statements-Activated id account expected at t op item stamp n found s e1 e2 e3 e4 e5 e6 e7 h =
    let t1 = (upsert_managed item t).1 in
    let same = update_operations-ok (at_stage id expected) (activated_row stamp) t1 n h in
    record {
      op = op;
      was_there = found;
      was_expected = stage_eq→eq op.stage expected s;
      row = activated_row stamp op;
      is_there =
          rw (same, upsert-operations item t)
            (updated_row id expected t.operations op stamp found s);
      is_active = refl;
      managed = item;
      is_managed = rw same (
          subst (λ ip. select (for_ipv4 ip) t1.managed_certs ≡ some item) e1
            (upsert-select item t));
      same_server = e2;
      same_policy = e3;
      same_cert = e4;
      same_expiry = e5;
      same_account = e6;
      same_renewal = e7;
    }

-- The row of managed_certs that SetActive writes.
abbrev managed_row : Operation → String → ℤ → ℤ → ManagedCert
managed_row op account at now = record {
  ipv4 = op.ipv4;
  server_id = op.server_id;
  policy_id = op.policy_id;
  cert_id = op.cert_id;
  account_reference = account;
  state = active;
  last_success_at = unix now;
  expires_at = op.expires_at;
  next_renewal_at = at;
  last_error_category = "";
  last_error = "";
  recovery_marker = "";
}

module _ {X : Type 0} (o : Outside X) (id account : String) (expected : LifecycleState)
    (at : ℤ) where
  -- the last statement of the body and its check
  abbrev write_stage : ℤ → Action (World X) (Unit {0})
  write_stage stamp =
      sql o (update_operations (at_stage id expected) (activated_row stamp)) >>= λ n.
      refuse_if (not (n == 1)) (known state_conflict)

  abbrev write : Operation → Action (World X) (Unit {0})
  write op = time_now o >>= λ now.
      sql o (upsert_managed (managed_row op account at now)) >> (time_now o >>= write_stage)

  write_stage-tables :
      (stamp : ℤ) (w : World X) (u : Unit {0})
      → (write_stage stamp w).0 ≡ ok u
      → (n : ℕ) × ((update_operations (at_stage id expected) (activated_row stamp) w.tables).0
          ≡ ok n)
        × ((write_stage stamp w).1.tables
            ≡ (update_operations (at_stage id expected) (activated_row stamp) w.tables).1)
  write_stage-tables stamp w u h =
      let n = bind-succeeds _ _ w u h in
      let q =
        sql-succeeds o (update_operations (at_stage id expected) (activated_row stamp)) w n.0 n.1 in
      let r = refuse-succeeds _ _ _ u (rw n.2 at h) in
      (n.0, q.0, rw n.2 (ap (λ x. x.tables) r.1 ∙ q.1))

  write-Activated :
      (op : Operation) (w : World X) (u : Unit {0})
      → select (has_id id) w.tables.operations ≡ some op
      → stage_eq op.stage expected ≡ true
      → (write op w).0 ≡ ok u
      → Activated id account expected at w.tables (write op w).1.tables
  unfolding time_now
  write-Activated op w u found s h =
      let now = bind-succeeds _ _ w u h in
      let w1 = (time_now o w).1 in
      let item = managed_row op account at now.0 in
      let up = bind-succeeds _ _ w1 u (rw now.2 at h) in
      let upsert = sql-succeeds o (upsert_managed item) w1 up.0 up.1 in
      let w2 = (sql o (upsert_managed item) w1).1 in
      let stamp = bind-succeeds _ _ w2 u (rw up.2 at (rw now.2 at h)) in
      let last =
        write_stage-tables stamp.0 (time_now o w2).1 u
          (rw stamp.2 at (rw up.2 at (rw now.2 at h))) in
      rw (now.2, up.2, stamp.2, last.2, upsert.1)
        (statements-Activated id account expected at w.tables op item stamp.0 last.0 found s refl
          refl refl refl refl refl refl (rw upsert.1 at last.1))

  activate-Activated :
      (w : World X) (u : Unit {0})
      → (activate o id expected account at w).0 ≡ ok u
      → Activated id account expected at w.tables (activate o id expected account at w).1.tables
  unfolding activate
  activate-Activated w u h =
      let a = bind-succeeds _ _ w u h in
      let lookup = query o (λ t. row_or_not_found (select (has_id id) t.operations)) in
      let w1 = (lookup w).1 in
      let read =
        query-succeeds o (λ t. row_or_not_found (select (has_id id) t.operations)) w a.0 a.1 in
      let found = row-ok _ a.0 read.0 in
      let b = bind-succeeds _ _ w1 u (rw a.2 at h) in
      let r = refuse-succeeds _ _ w1 _ b.1 in
      let e = a.2 ∙ b.2 ∙ ap (write a.0) r.1 in
      let done = write-Activated a.0 w1 u (rw read.1 found) (ground (arith, r.0)) (rw e at h) in
      rw e (subst (λ t. Activated id account expected at t (write a.0 w1).1.tables) read.1 done)

module _ {X : Type 0} (o : Outside X) where
  -- SetActive is all or nothing: with an error, whichever statement fails, the tables are as before;
  -- without one, the operation that was at the expected stage is active and its address has the
  -- managed certificate with the operation's server, policy, certificate and expiry.
  pub set_active_lem :
      (id account : String) (expected : LifecycleState) (at : ℤ) (w : World X)
      → ((e : Error) × ((set_active o id expected account at w).0 ≡ err e)
          × ((set_active o id expected account at w).1.tables ≡ w.tables))
        ⊎ (((set_active o id expected account at w).0 ≡ ok tt)
            × Activated id account expected at w.tables
                (set_active o id expected account at w).1.tables)
  unfolding set_active
  set_active_lem id account expected at w =
      elim (Result-cases (set_active o id expected account at w).0) [
        | inr (e, h) ↦ inl (e, h, transaction-err o (activate o id expected account at) w e h)
        | inl (u, h) ↦
            let t = transaction-ok o (activate o id expected account at) w u h in
            let a = activate-Activated o id account expected at _ u t.0 in
            let last =
              (activate o id expected account at (external_fault o.sql_fault w).1).1.tables in
            inr (
              h,
              rw t.1 (
                  subst (λ b. Activated id account expected at b last)
                    (fault-tables o o.sql_fault w) a),
            )
      ]
