-- ===== src/State/Statements/Methods.antt =====
-- The methods of the store keep what its statements keep.
use goedge_ip_cert.Prelude.{String, ◌≡◌, refl, true}
use goedge_ip_cert.Prelude.Int.{ℤ}
use goedge_ip_cert.Action.Keeps.{Keeps, Keeps-bind, Keeps-refuse_if, Keeps-wrap_error}
use goedge_ip_cert.World.{Outside}
use goedge_ip_cert.Challenge.Model.{Pending}
use goedge_ip_cert.State.Model.{
  LifecycleState, challenge_present, cert_issued, cert_created, policy_bound, active, Operation,
}
use goedge_ip_cert.State.Moves.{Step, stays, certify, create, bind, activate, give_up, Moves}
use goedge_ip_cert.State.Store
use goedge_ip_cert.State.Store.{update_expected}
use goedge_ip_cert.State.Challenges
use goedge_ip_cert.State.Tables.{Tables, at_stage}
use goedge_ip_cert.State.Statements.{
  Kept, On, at_stage-Moves, sql-Keeps, query-Keeps, now-Keeps, transaction-Keeps,
  update_expected-Keeps,
}

module _ {X : Type 0} (o : Outside X) {Q : Tables → Type 0} (k : Kept Q) where
  pub create_operation-Keeps : (op : Operation) → Keeps (On Q) (Store.create_operation o op)
  unfolding Store.create_operation
  create_operation-Keeps op = Keeps-bind _ _ (Keeps-refuse_if _ _) λ _.
      Keeps-bind _ _ (Keeps-refuse_if _ _) λ _.
        Keeps-bind _ _ (now-Keeps o Q)
          λ now. Keeps-wrap_error _ _ (sql-Keeps o Q _ (λ t q. k.insert_kept t _ q))

  pub transition-Keeps :
      (id : String) (s t : LifecycleState) (m : String)
      → Step s t
      → Keeps (On Q) (Store.transition o id s t m)
  unfolding Store.transition
  transition-Keeps id s t m st = update_expected-Keeps o k id s t _ st (search)

  pub save_issued-Keeps :
      (id print : String) (at : ℤ)
      → Keeps (On Q) (Store.save_issued o id challenge_present print at)
  unfolding Store.save_issued
  save_issued-Keeps id print at =
      Keeps-bind _ _ (Keeps-refuse_if _ _) λ _. update_expected-Keeps o k id _ _ _ certify (search)

  pub set_cert_created-Keeps :
      (id : String) (cert : ℤ) → Keeps (On Q) (Store.set_cert_created o id cert_issued cert)
  unfolding Store.set_cert_created
  set_cert_created-Keeps id cert =
      Keeps-bind _ _ (Keeps-refuse_if _ _) λ _. update_expected-Keeps o k id _ _ _ create (search)

  pub set_policy_bound-Keeps :
      (id : String) → Keeps (On Q) (Store.set_policy_bound o id cert_created)
  unfolding Store.set_policy_bound
  set_policy_bound-Keeps id = update_expected-Keeps o k id _ _ _ bind (search)

  pub set_error-Keeps :
      (id : String) (s : LifecycleState) (c m r : String)
      → Keeps (On Q) (Store.set_error o id s c m r)
  unfolding Store.set_error
  set_error-Keeps id s c m r = update_expected-Keeps o k id _ _ _ give_up (search)

  pub set_error_with_retry-Keeps :
      (id : String) (s : LifecycleState) (c m r : String) (n at : ℤ)
      → Keeps (On Q) (Store.set_error_with_retry o id s c m r n at)
  unfolding Store.set_error_with_retry
  set_error_with_retry-Keeps id s c m r n at = update_expected-Keeps o k id _ _ _ give_up (search)

  pub record_failure-Keeps :
      (id : String) (s : LifecycleState) (c m r : String)
      → Keeps (On Q) (Store.record_operation_failure o id s c m r)
  unfolding Store.record_operation_failure
  record_failure-Keeps id s c m r = update_expected-Keeps o k id _ _ _ stays (search)

  pub normalize-Keeps : (id : String) → Keeps (On Q) (Store.normalize_first_issue_failure o id)
  unfolding Store.normalize_first_issue_failure
  normalize-Keeps id =
      Keeps-bind _ _
        (sql-Keeps o Q _ λ t q.
          k.update_kept t _ _
            (λ op h. record { id = refl; ipv4 = refl; kind = refl; marker = refl; step = stays }) q)
        λ n. Keeps-refuse_if _ _

  pub record_managed-Keeps :
      (ip c m r : String) → Keeps (On Q) (Store.record_managed_error o ip c m r)
  unfolding Store.record_managed_error
  record_managed-Keeps ip c m r =
      Keeps-bind _ _ (sql-Keeps o Q _ λ t q. k.managed_kept t ip _ (λ item. refl) q)
        λ n. Keeps-refuse_if _ _

  activate-Moves :
      (id : String) (now : ℤ) (op : Operation)
      → at_stage id policy_bound op ≡ true
      → Moves op (record op {
        stage = active;
        error_category = "";
        error_message = "";
        recovery_marker = "";
        updated_at = now;
      })
  activate-Moves id now op h =
      at_stage-Moves id policy_bound active now
        (λ row. record row { error_category = ""; error_message = ""; recovery_marker = "" })
        activate (search) op h

  pub set_active-Keeps :
      (id account : String) (at : ℤ) → Keeps (On Q) (Store.set_active o id policy_bound account at)
  unfolding Store.set_active Store.activate
  set_active-Keeps id account at = transaction-Keeps o Q _ (
      Keeps-bind _ _ (query-Keeps o Q _) λ op. Keeps-bind _ _ (Keeps-refuse_if _ _) λ _.
        Keeps-bind _ _ (now-Keeps o Q) λ now.
          Keeps-bind _ _ (sql-Keeps o Q _ λ t q. k.upsert_kept t _ q) λ _.
            Keeps-bind _ _ (now-Keeps o Q) λ stamp.
              Keeps-bind _ _
                (sql-Keeps o Q _ λ t q. k.update_kept t _ _ (activate-Moves id stamp) q)
                λ n. Keeps-refuse_if _ _)

  pub complete-Keeps : (p : Pending) → Keeps (On Q) (Challenges.complete_challenge o p)
  unfolding Challenges.complete_challenge
  complete-Keeps p = sql-Keeps o Q _ λ t q. k.pending_kept t _ q
