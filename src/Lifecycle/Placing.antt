-- ===== src/Lifecycle/Placing.antt =====
-- When a run places an ACME order, and how many.
use goedge_ip_cert.Prelude.{ℕ, ◌+◌, ◌≤◌, ◌≡◌, refl, String, Bool, true, false, if◌then◌else◌, arith}
use goedge_ip_cert.Prelude.Int.{ℤ}
use goedge_ip_cert.Error.{Error}
use goedge_ip_cert.Action.{Result, ok, err, Action, after, pass, fail, on, attempt, ◌>>=◌}
use goedge_ip_cert.Action.Keeps.{
  Keeps, Keeps-bind, Keeps-on, Keeps-attempt, Keeps-if, Keeps-pass, Keeps-fail, Keeps-refuse_if,
}
use goedge_ip_cert.GoEdge.Model.{ServerTarget}
use goedge_ip_cert.World.{World, Outside, order}
use goedge_ip_cert.State.Model.{Operation, ManagedCert, RetryInfo}
use goedge_ip_cert.State.Store
use goedge_ip_cert.Lifecycle.Model.{Runner}
use goedge_ip_cert.Lifecycle.Operations.{obtain_and_continue, start_issue, start_renew}
use goedge_ip_cert.Lifecycle.Run.{
  discover, discover_and_issue, after_operation, without_operation, run_first_issue, renew_if_due,
  run_managed, prepare, run_once,
}
use goedge_ip_cert.Lifecycle.Keeps.Methods.{prepare-Keeps, check_managed-Keeps, operation-Keeps}
use goedge_ip_cert.Lifecycle.Keeps.Orders.{order_failure-Keeps, record_issued-Keeps}
use goedge_ip_cert.Lifecycle.Sent.{
  orders, Placed, quiet, create_operation-Placed, transition-Placed,
}

-- An action that places at most `n` orders.
pub record Places {X A : Type 0} (n : ℕ) (m : Action (World X) A) : Type 0 where
  pub at : (w : World X) → orders (m w).1.sent ≤ n + orders w.sent

module _ {X : Type 0} where
  pub Places-quiet :
      {A : Type 0} (n : ℕ) (m : Action (World X) A) → ((k : ℕ) → Keeps (Placed k) m) → Places n m
  Places-quiet n m q = record { at = λ w. (let e = (q (orders w.sent)).at w refl in omega arith) }

  Places-after :
      {A B : Type 0} (n : ℕ) (r : Result A) (f : A → Action (World X) B)
      → ((a : A) → Places n (f a))
      → Places n (after r f)
  Places-after n (ok a) f pf = record { at = λ w. (pf a).at w }
  Places-after n (err e) f pf = record { at = λ w. omega arith }

  -- What comes first places none.
  pub Places-then :
      {A B : Type 0} (n : ℕ) (m : Action (World X) A) (f : A → Action (World X) B)
      → ((k : ℕ) → Keeps (Placed k) m)
      → ((a : A) → Places n (f a))
      → Places n (m >>= f)
  unfolding ◌>>=◌
  Places-then n m f q pf = record {
    at = λ w.
        let e = (q (orders w.sent)).at w refl in
        let h = (Places-after n (m w).0 f pf).at (m w).1 in omega arith;
  }

  -- What comes after places none.
  pub Places-first :
      {A B : Type 0} (n : ℕ) (m : Action (World X) A) (f : A → Action (World X) B)
      → Places n m
      → ((k : ℕ) (a : A) → Keeps (Placed k) (f a))
      → Places n (m >>= f)
  unfolding ◌>>=◌
  Places-first n m f pm q = record {
    at = λ w.
        let h = pm.at w in
        let e = (Places-after 0 (m w).0 f (λ a. Places-quiet 0 (f a) (λ k. q k a))).at (m w).1 in
        omega arith;
  }

  pub Places-if :
      {A : Type 0} (n : ℕ) (b : Bool) (m m' : Action (World X) A)
      → Places n m
      → Places n m'
      → Places n (if b then m else m')
  Places-if n true m m' h h' = h
  Places-if n false m m' h h' = h'

module _ {X : Type 0} (o : Outside X) (r : Runner) where
  order-Places : (id ip : String) → Places 1 (attempt (order o id ip))
  unfolding order orders attempt
  order-Places id ip = record { at = λ w. omega arith }

  obtain-Places : (op : Operation) (n : ℤ) → Places 1 (obtain_and_continue o r op n)
  unfolding obtain_and_continue
  obtain-Places op n =
      Places-then 1 _ _ (λ k. transition-Placed o k _ _ _ _)
        λ _. Places-first 1 _ _ (order-Places op.id op.ipv4) λ k issued.
          Keeps-on issued _ _
            (λ cert.
              Keeps-bind _ _ (quiet o k).now_kept λ now. record_issued-Keeps o r (quiet o k) op _)
            (λ e. order_failure-Keeps o r (quiet o k) op n e)

  start_issue-Places : (ip : String) (t : ServerTarget) (n : ℤ) → Places 1 (start_issue o r ip t n)
  unfolding start_issue
  start_issue-Places ip t n =
      Places-then 1 _ _ (λ k. (quiet o k).external_kept _)
        λ id. Places-then 1 _ _ (λ k. create_operation-Placed o k _) λ _. obtain-Places _ n

  start_renew-Places : (m : ManagedCert) (n : ℤ) → Places 1 (start_renew o r m n)
  unfolding start_renew Store.begin_renewal
  start_renew-Places m n =
      Places-then 1 _ _ (λ k. (quiet o k).external_kept _)
        λ id. Places-then 1 _ _ (λ k. create_operation-Placed o k _) λ _. obtain-Places _ n

  issue-Places : (ip : String) (n : ℤ) → Places 1 (discover_and_issue o r ip n)
  unfolding discover_and_issue discover
  issue-Places ip n =
      Places-then 1 _ _ (λ k. (quiet o k).external_kept _) λ t. start_issue-Places ip t n

  nothing-Places : (n : ℕ) → Places {X = X} n (pass tt)
  nothing-Places n = Places-quiet n _ (λ k. Keeps-pass tt)

  refusal-Places : {A : Type 0} (n : ℕ) (e : Error) → Places {X = X} {A = A} n (fail e)
  refusal-Places n e = Places-quiet n _ (λ k. Keeps-fail e)

  after_operation-Places : (ip : String) (op : Operation) → Places 1 (after_operation o r ip op)
  unfolding after_operation
  after_operation-Places ip op =
      Places-if 1 _ _ _
        (Places-then 1 _ _ (λ k. Keeps-if _ _ _ ((quiet o k).normalize_kept _) (Keeps-pass tt))
          λ _. Places-if 1 _ _ _ (nothing-Places 1) (issue-Places ip _))
        (refusal-Places 1 _)

  without_operation-Places : (ip : String) → Places 1 (without_operation o r ip)
  unfolding without_operation
  without_operation-Places ip =
      Places-if 1 _ _ _ (nothing-Places 1)
        (Places-if 1 _ _ _ (refusal-Places 1 _) (issue-Places ip _))

  pub latest_operation-Placed :
      (k : ℕ) (ip : String) → Keeps (Placed k) (Store.latest_operation o ip)
  unfolding Store.latest_operation
  latest_operation-Placed k ip =
      Keeps-bind _ _ ((quiet o k).query_kept _) λ op. operation-Keeps o r (quiet o k) _

  Places-on :
      {A B : Type 0} (n : ℕ) (x : Result A) (f : A → Action (World X) B)
      (g : Error → Action (World X) B)
      → ((a : A) → Places n (f a))
      → ((e : Error) → Places n (g e))
      → Places n (on x f g)
  Places-on n (ok a) f g pf pg = pf a
  Places-on n (err e) f g pf pg = pg e

  first_issue-Places : (ip : String) → Places 1 (run_first_issue o r ip)
  unfolding run_first_issue
  first_issue-Places ip =
      Places-then 1 _ _ (λ k. Keeps-attempt _ (latest_operation-Placed k ip))
        λ found.
          Places-on 1 found _ _ (λ op. after_operation-Places ip op)
            (λ e. Places-if 1 _ _ _ (without_operation-Places ip) (refusal-Places 1 e))

  renew_if_due-Places :
      (ip : String) (m : ManagedCert) (i : RetryInfo) → Places 1 (renew_if_due o r ip m i)
  unfolding renew_if_due discover
  renew_if_due-Places ip m i =
      Places-then 1 _ _ (λ k. (quiet o k).external_kept _)
        λ t.
          Places-then 1 _ _ (λ k. Keeps-refuse_if _ _)
            λ _.
              Places-then 1 _ _ (λ k. check_managed-Keeps o r (quiet o k) ip m)
                λ _.
                  Places-then 1 _ _ (λ k. (quiet o k).now_kept)
                    λ now. Places-if 1 _ _ _ (nothing-Places 1) (start_renew-Places m i.attempt)

  run_managed-Places : (ip : String) (m : ManagedCert) → Places 1 (run_managed o r ip m)
  unfolding run_managed Store.latest_retry
  run_managed-Places ip m =
      Places-then 1 _ _ (λ k. (quiet o k).query_kept _)
        λ retry.
          Places-then 1 _ _ (λ k. (quiet o k).now_kept)
            λ now. Places-if 1 _ _ _ (nothing-Places 1) (renew_if_due-Places ip m retry)

  pub run_once-Places : (ip : String) → Places 1 (run_once o r ip)
  unfolding run_once Store.managed
  run_once-Places ip =
      Places-then 1 _ _ (λ k. prepare-Keeps o r (quiet o k))
        λ _.
          Places-then 1 _ _ (λ k. Keeps-attempt _ ((quiet o k).query_kept _))
            λ found.
              Places-on 1 found _ _ (λ m. run_managed-Places ip m)
                (λ e. Places-if 1 _ _ _ (first_issue-Places ip) (refusal-Places 1 e))

  -- A run places at most one ACME order, whatever the outside answers and whichever step fails.
  pub orders-run_once :
      (ip : String) (w : World X) → orders (run_once o r ip w).1.sent ≤ 1 + orders w.sent
  orders-run_once ip w = (run_once-Places ip).at w

  -- The recoveries at the start of a run place no ACME order.
  pub orders-prepare : (w : World X) → orders (prepare o r w).1.sent ≡ orders w.sent
  orders-prepare w = (prepare-Keeps o r (quiet o (orders w.sent))).at w refl
