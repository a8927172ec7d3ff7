-- ===== src/Lifecycle/Waiting.antt =====
-- When a run places no ACME order: in timer mode without a certificate, and while it backs off.
use goedge_ip_cert.Prelude.{
  ℕ, ◌≡◌, refl, ap, String, Bool, true, false, not, if◌then◌else◌, none, Option-cases, inl, inr,
  arith, ◌∙◌,
}
use goedge_ip_cert.Error.{Error}
use goedge_ip_cert.Action.Success.{Result-cases}
use goedge_ip_cert.Action.{Result, ok, err, Action, attempt, ◌>>=◌}
use goedge_ip_cert.Action.Keeps.{
  Keeps, Keeps-bind, Keeps-on, Keeps-attempt, Keeps-if, Keeps-pass, Keeps-fail,
}
use goedge_ip_cert.World.{World, Outside, query, sql}
use goedge_ip_cert.State.Model.{Operation}
use goedge_ip_cert.State.Tables.{Tables, select, for_ipv4}
use goedge_ip_cert.State.Store
use goedge_ip_cert.Lifecycle.Model.{Runner, RunMode, is_timer, is_manual_retry}
use goedge_ip_cert.Lifecycle.Run.{
  after_operation, without_operation, run_first_issue, prepare, run_once,
}
use goedge_ip_cert.Lifecycle.Sent.{orders, Placed, quiet}
use goedge_ip_cert.Lifecycle.Placing.{orders-prepare, latest_operation-Placed}

timer-not_manual : (mode : RunMode) → is_timer mode ≡ true → is_manual_retry mode ≡ false
timer-not_manual mode h = ground arith

module _ {X : Type 0} {P : World X → Type 0} {A : Type 0} (m n : Action (World X) A) where
  Keeps-then : (b : Bool) → b ≡ true → Keeps P m → Keeps P (if b then m else n)
  Keeps-then b e km = rw e km

module _ {X : Type 0} (o : Outside X) (r : Runner) (h : is_timer r.mode ≡ true) where
  after_operation-timer :
      (k : ℕ) (ip : String) (op : Operation) → Keeps (Placed k) (after_operation o r ip op)
  unfolding after_operation
  after_operation-timer k ip op =
      Keeps-if _ _ _
        (Keeps-bind _ _ (Keeps-if _ _ _ ((quiet o k).normalize_kept _) (Keeps-pass tt))
          λ _. Keeps-then _ _ _ (ap not (timer-not_manual r.mode h)) (Keeps-pass tt))
        (Keeps-fail _)

  without_operation-timer : (k : ℕ) (ip : String) → Keeps (Placed k) (without_operation o r ip)
  unfolding without_operation
  without_operation-timer k ip = Keeps-then _ _ _ h (Keeps-pass tt)

  first_issue-timer : (k : ℕ) (ip : String) → Keeps (Placed k) (run_first_issue o r ip)
  unfolding run_first_issue
  first_issue-timer k ip =
      Keeps-bind _ _ (Keeps-attempt _ (latest_operation-Placed o r k ip)) λ found.
        Keeps-on found _ _ (λ op. after_operation-timer k ip op)
          (λ e. Keeps-if _ _ _ (without_operation-timer k ip) (Keeps-fail e))

  -- In timer mode, the part of a run that is for an address without a certificate places no order.
  pub run_first_issue_timer :
      (ip : String) (w : World X) → orders (run_first_issue o r ip w).1.sent ≡ orders w.sent
  run_first_issue_timer ip w = (first_issue-timer (orders w.sent) ip).at w refl

module _ {X : Type 0} (o : Outside X) where
  managed_none :
      (ip : String) (w : World X)
      → select (for_ipv4 ip) w.tables.managed_certs ≡ none
      → (e : Error) × ((Store.managed o ip w).0 ≡ err e)
  unfolding Store.managed query sql
  managed_none ip w h = elim (Option-cases (o.sql_fault w.outside).0) [
    | inl e ↦ rw (e, h, query, sql) (_, refl)
    | inr (x, e) ↦ rw (e, query, sql) (x, refl)
  ]

module _ {S A B : Type 0} (m : Action S A) (w : S) where
  bind-ok : (f : A → Action S B) (a : A) → (m w).0 ≡ ok a → (m >>= f) w ≡ f a (m w).1
  unfolding ◌>>=◌
  bind-ok f a e = rw e refl

  bind-err : (f : A → Action S B) (x : Error) → (m w).0 ≡ err x → (m >>= f) w ≡ (err x, (m w).1)
  unfolding ◌>>=◌
  bind-err f x e = rw e refl

  bind-attempt :
      (f : Result A → Action S B) (x : Error)
      → (m w).0 ≡ err x
      → (attempt m >>= f) w ≡ f (err x) (m w).1
  unfolding ◌>>=◌ attempt
  bind-attempt f x e = ap (λ y. f y (m w).1) e

module _ {X : Type 0} (o : Outside X) where
  -- A query changes neither the tables nor the history.
  query_same :
      {A : Type 0} (f : Tables → Result A) (w : World X)
      → ((query o f w).1.sent ≡ w.sent) × ((query o f w).1.tables ≡ w.tables)
  unfolding query sql
  query_same f w = elim (Option-cases (o.sql_fault w.outside).0) [
    | inl e ↦ rw (e, query, sql) (refl, refl)
    | inr (x, e) ↦ rw (e, query, sql) (refl, refl)
  ]

  managed_sent : (ip : String) (w : World X) → (Store.managed o ip w).1.sent ≡ w.sent
  unfolding Store.managed
  managed_sent ip w = (query_same _ w).0

module _ {X : Type 0} (o : Outside X) (r : Runner) where
  -- In timer mode, when after the recoveries the tables have no certificate for the address, the
  -- whole run places no ACME order.
  pub run_once_timer :
      (ip : String) (w : World X)
      → is_timer r.mode ≡ true
      → select (for_ipv4 ip) (prepare o r w).1.tables.managed_certs ≡ none
      → orders (run_once o r ip w).1.sent ≡ orders w.sent
  unfolding run_once
  run_once_timer ip w h none_managed = elim (Result-cases (prepare o r w).0) [
    | inr (e, p) ↦ rw (bind-err (prepare o r) w _ e p) (orders-prepare o r w)
    | inl (a, p) ↦
        let w1 = (prepare o r w).1 in
        let found = managed_none o ip w1 none_managed in
        rw (bind-ok (prepare o r) w _ a p, bind-attempt (Store.managed o ip) w1 _ found.0 found.1)
          ((Keeps-if _ _ _ (first_issue-timer o r h (orders w.sent) ip) (Keeps-fail found.0)).at
            (Store.managed o ip w1).1 (ap orders (managed_sent o ip w1) ∙ orders-prepare o r w))
  ]
