-- ===== src/State/Outcomes.antt =====
-- What the outcome of a statement or a transaction says of the tables.
use goedge_ip_cert.Prelude.{◌≡◌, refl, sym, ap, ◌∙◌, inl, inr, Option, Option-cases}
use goedge_ip_cert.Error.{Error}
use goedge_ip_cert.Action.{Result, ok, err, Action, pass, lift_option}
use goedge_ip_cert.Action.Success.{err≢ok, bind-succeeds}
use goedge_ip_cert.World.{World, Outside, sql, query, time_now, external_fault, finish, transaction}
use goedge_ip_cert.State.Tables.{Tables}

module _ {X : Type 0} (o : Outside X) where
  pub sql-succeeds :
      {A : Type 0} (f : Tables → Result A × Tables) (w : World X) (a : A)
      → (sql o f w).0 ≡ ok a
      → ((f w.tables).0 ≡ ok a) × ((sql o f w).1.tables ≡ (f w.tables).1)
  unfolding sql
  sql-succeeds f w a h = elim (Option-cases (o.sql_fault w.outside).0) [
    | inl e ↦ (rw (e, sql) at h, rw (e, sql) refl)
    | inr (x, e) ↦ absurd (err≢ok (rw (e, sql) at h))
  ]

  pub query-succeeds :
      {A : Type 0} (f : Tables → Result A) (w : World X) (a : A)
      → (query o f w).0 ≡ ok a
      → (f w.tables ≡ ok a) × ((query o f w).1.tables ≡ w.tables)
  unfolding query
  query-succeeds f w a h = sql-succeeds (λ t. (f t, t)) w a h

  pub fault-tables :
      (f : X → Option Error × X) (w : World X) → (external_fault f w).1.tables ≡ w.tables
  unfolding external_fault lift_option
  fault-tables f w = elim (Option-cases (f w.outside).0) [
    | inl e ↦ rw (e, external_fault) refl
    | inr (x, e) ↦ rw (e, external_fault) refl
  ]

  pub now-tables : (w : World X) → (time_now o w).1.tables ≡ w.tables
  unfolding time_now
  now-tables w = refl

finish-ok :
    {X A : Type 0} (before : Tables) (s : Result A × World X) (a : A)
    → (finish before s).0 ≡ ok a
    → (s.0 ≡ ok a) × ((finish before s).1 ≡ s.1)
unfolding finish
finish-ok before (ok b, w) a h = (h, refl)
finish-ok before (err e, w) a h = absurd (err≢ok h)

finish-err :
    {X A : Type 0} (before : Tables) (s : Result A × World X) (e : Error)
    → (finish before s).0 ≡ err e
    → (finish before s).1.tables ≡ before
unfolding finish
finish-err before (ok b, w) e h = absurd (err≢ok (sym h))
finish-err before (err x, w) e h = refl

module _ {X : Type 0} (o : Outside X) where
  -- A transaction that returns no error did what its body does, and its body returned none.
  pub transaction-ok :
      {A : Type 0} (m : Action (World X) A) (w : World X) (a : A)
      → (transaction o m w).0 ≡ ok a
      → ((m (external_fault o.sql_fault w).1).0 ≡ ok a)
        × ((transaction o m w).1.tables ≡ (m (external_fault o.sql_fault w).1).1.tables)
  unfolding transaction pass
  transaction-ok m w a h =
      let f = finish-ok w.tables _ a h in
      let w1 = (external_fault o.sql_fault w).1 in
      let begin = bind-succeeds _ _ w a f.0 in
      let body = bind-succeeds m _ w1 a (rw begin.2 at f.0) in
      let commit = bind-succeeds _ _ (m w1).1 a (rw body.2 at (rw begin.2 at f.0)) in
      let e = begin.2 ∙ body.2 ∙ commit.2 in
      (
        body.1 ∙ (rw e at f.0),
        ap (λ x. x.tables) (f.1 ∙ ap (λ s. s.1) e) ∙ fault-tables o o.sql_fault (m w1).1,
      )

  pub transaction-err :
      {A : Type 0} (m : Action (World X) A) (w : World X) (e : Error)
      → (transaction o m w).0 ≡ err e
      → (transaction o m w).1.tables ≡ w.tables
  unfolding transaction
  transaction-err m w e h = finish-err w.tables _ e h
