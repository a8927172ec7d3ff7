-- ===== src/State/Statements.antt =====
-- A predicate on the tables that the statements of the store keep. A predicate fills `Kept` once and
-- has the lemma for each method of the store.
pub mod Methods
use goedge_ip_cert.Prelude.{
  ℕ, String, ◌≡◌, refl, Bool, true, false, List, ◌=s=◌, ◌&&◌, Option, none, some, Option-cases, inl,
  inr, arith,
}
use goedge_ip_cert.Prelude.Int.{ℤ, pos, eq_ℤ}
use goedge_ip_cert.Error.{Error}
use goedge_ip_cert.Action.{Result, ok, err, Action, lift_option, ◌>>=◌}
use goedge_ip_cert.Action.Keeps.{Keeps, Keeps-bind, Keeps-pass, Keeps-refuse_if, keeps_rules}
use goedge_ip_cert.World.{World, Outside, sql, query, time_now, external_fault, finish, transaction}
use goedge_ip_cert.Challenge.Model.{Pending}
use goedge_ip_cert.State.Model.{
  LifecycleState, fresh, renewing, challenge_present, cert_issued, cert_created, policy_bound,
  active, error, Operation, OperationKind, issue, kind_eq, stage_eq, ManagedCert,
}
use goedge_ip_cert.State.Tables.{
  Tables, at_stage, insert_operation, update_operations, upsert_managed, update_managed,
}
use goedge_ip_cert.State.Moves.{
  Step, stays, order_issue, order_renew, certify, create, bind, activate, give_up, Moves,
  stage_eq→eq,
}
use goedge_ip_cert.State.Store
use goedge_ip_cert.State.Store.{new_row, update_expected}

pub record Kept (Q : Tables → Type 0) : Type 0 where
  pub pending_kept :
      (t : Tables) (ps : List Pending) → Q t → Q (record t { pending_challenges = ps })
  pub insert_kept : (t : Tables) (row : Operation) → Q t → Q (insert_operation row t).1
  pub update_kept :
      (t : Tables) (p : Operation → Bool) (f : Operation → Operation)
      → ((op : Operation) → p op ≡ true → Moves op (f op))
      → Q t
      → Q (update_operations p f t).1
  pub upsert_kept : (t : Tables) (item : ManagedCert) → Q t → Q (upsert_managed item t).1
  pub managed_kept :
      (t : Tables) (ip : String) (f : ManagedCert → ManagedCert)
      → ((item : ManagedCert) → (f item).ipv4 ≡ item.ipv4)
      → Q t
      → Q (update_managed ip f t).1

-- What the assignments of updateExpected leave alone.
pub record SameRow (f : Operation → Operation) : Type 0 where
  pub id : (op : Operation) → (f op).id ≡ op.id
  pub ipv4 : (op : Operation) → (f op).ipv4 ≡ op.ipv4
  pub kind : (op : Operation) → (f op).kind ≡ op.kind
  pub marker : (op : Operation) → (f op).marker ≡ op.marker

pub at_stage-Moves :
    (id : String) (s t : LifecycleState) (now : ℤ) (f : Operation → Operation)
    → Step s t
    → SameRow f
    → (op : Operation) → at_stage id s op ≡ true
    → Moves op (record (f op) { stage = t; updated_at = now })
at_stage-Moves id s t now f st same op h = record {
  id = same.id op;
  ipv4 = same.ipv4 op;
  kind = same.kind op;
  marker = same.marker op;
  step = rw (stage_eq→eq op.stage s (ground arith)) st;
}

abbrev pub On : {X : Type 0} → (Tables → Type 0) → World X → Type 0
On Q w = Q w.tables

module _ {X : Type 0} (Q : Tables → Type 0) where
  finish-On :
      {A : Type 0} (before : Tables) (s : Result A × World X)
      → Q before
      → On Q s.1
      → On Q (finish before s).1
  unfolding finish
  finish-On before (ok a, w) b h = h
  finish-On before (err e, w) b h = b

module _ {X : Type 0} (o : Outside X) (Q : Tables → Type 0) where
  pub sql-Keeps :
      {A : Type 0} (f : Tables → Result A × Tables)
      → ((t : Tables) → Q t → Q (f t).1)
      → Keeps (On Q) (sql o f)
  unfolding sql
  sql-Keeps f h = record {
    at = λ w q. elim (Option-cases (o.sql_fault w.outside).0) [
      | inl e ↦ rw (e, sql) (h w.tables q)
      | inr (x, e) ↦ rw (e, sql) q
    ];
  }

  pub query-Keeps : {A : Type 0} (f : Tables → Result A) → Keeps (On Q) (query o f)
  unfolding query
  query-Keeps f = sql-Keeps _ (λ t q. q)

  pub now-Keeps : Keeps (On Q) (time_now o)
  unfolding time_now
  now-Keeps = record { at = λ w q. q }

  pub fault-Keeps : (f : X → Option Error × X) → Keeps (On {X = X} Q) (external_fault f)
  unfolding external_fault lift_option
  fault-Keeps f = record {
    at = λ w q. elim (Option-cases (f w.outside).0) [
      | inl e ↦ rw (e, external_fault) q
      | inr (x, e) ↦ rw (e, external_fault) q
    ];
  }

  pub transaction-Keeps :
      {A : Type 0} (m : Action (World X) A) → Keeps (On Q) m → Keeps (On Q) (transaction o m)
  unfolding transaction
  transaction-Keeps m km = record {
    at = λ w q. finish-On Q w.tables _ q (
        (Keeps-bind _ _ (fault-Keeps o.sql_fault) (λ _.
            Keeps-bind _ _ km
              (λ a. Keeps-bind _ _ (fault-Keeps o.sql_fault) (λ _. Keeps-pass a)))).at
          w q);
  }

module _ {X : Type 0} (o : Outside X) {Q : Tables → Type 0} (k : Kept Q) where
  pub update_expected-Keeps :
      (id : String) (s t : LifecycleState) (f : Operation → Operation)
      → Step s t
      → SameRow f
      → Keeps (On Q) (update_expected o id s t f)
  unfolding update_expected
  update_expected-Keeps id s t f st same = Keeps-bind _ _ (now-Keeps o Q) λ now.
      Keeps-bind _ _
        (sql-Keeps o Q _
          (λ tables q. k.update_kept tables _ _ (at_stage-Moves id s t now f st same) q))
        λ n. Keeps-refuse_if _ _
