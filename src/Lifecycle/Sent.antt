-- ===== src/Lifecycle/Sent.antt =====
-- The requests of a run that are ACME orders, and the steps that send none.
use goedge_ip_cert.Prelude.{
  ℕ, suc, ◌≡◌, String, Option, none, some, List, [], ◌∷◌, Option-cases, inl, inr,
}
use goedge_ip_cert.Prelude.Int.{ℤ}
use goedge_ip_cert.Error.{Error}
use goedge_ip_cert.Action.{Result, ok, err, Action, lift_option}
use goedge_ip_cert.Action.Keeps.{Keeps, Keeps-bind, Keeps-pass, keeps_rules}
use goedge_ip_cert.GoEdge.Model.{CertificateInput}
use goedge_ip_cert.State.Tables.{Tables}
use goedge_ip_cert.State.Model.{
  LifecycleState, challenge_present, cert_issued, policy_bound, Operation,
}
use goedge_ip_cert.State.Store
use goedge_ip_cert.State.Store.{update_expected}
use goedge_ip_cert.State.Challenges
use goedge_ip_cert.World.{
  World, Outside, Snapshot, File, Request, obtains, creates, updates, external, external_fault,
  request, get_dir, set_dir, finish, time_now, sql, query, transaction,
}
use goedge_ip_cert.Rollback
use goedge_ip_cert.Rollback.{check_file, check_json}
use goedge_ip_cert.Lifecycle.Keeps.{Primitives}

-- The number of ACME orders in a history.
unfoldable pub orders : List Request → ℕ
orders [] = 0
orders (obtains id ip ∷ rest) = suc (orders rest)
orders (creates input ∷ rest) = orders rest
orders (updates input ∷ rest) = orders rest

-- `n` orders have been placed.
abbrev pub Placed : {X : Type 0} → ℕ → World X → Type 0
Placed n w = orders w.sent ≡ n

module _ {X : Type 0} (n : ℕ) where
  external-Placed : {A : Type 0} (m : Action X A) → Keeps (Placed n) (external m)
  unfolding external
  external-Placed m = record { at = λ w q. q }

  fault-Placed : (f : X → Option Error × X) → Keeps (Placed {X = X} n) (external_fault f)
  unfolding external_fault lift_option
  fault-Placed f = record {
    at = λ w q. elim (Option-cases (f w.outside).0) [
      | inl e ↦ rw (e, external_fault) q
      | inr (x, e) ↦ rw (e, external_fault) q
    ];
  }

  get_dir-Placed : Keeps (Placed {X = X} n) get_dir
  unfolding get_dir
  get_dir-Placed = record { at = λ w q. q }

  set_dir-Placed : (files : List File) → Keeps (Placed {X = X} n) (set_dir files)
  unfolding set_dir
  set_dir-Placed files = record { at = λ w q. q }

  updates-Placed :
      (input : CertificateInput) (m : Action X (Unit {0}))
      → Keeps (Placed n) (request (updates input) m)
  unfolding request orders
  updates-Placed input m = record { at = λ w q. q }

  creates-Placed :
      (input : CertificateInput) (m : Action X ℤ) → Keeps (Placed n) (request (creates input) m)
  unfolding request orders
  creates-Placed input m = record { at = λ w q. q }

  finish-Placed :
      {A : Type 0} (before : Tables) (s : Result A × World X)
      → Placed n s.1
      → Placed n (finish before s).1
  unfolding finish
  finish-Placed before (ok a, w) h = h
  finish-Placed before (err e, w) h = h

module _ {X : Type 0} (o : Outside X) (n : ℕ) where
  now-Placed : Keeps (Placed n) (time_now o)
  unfolding time_now
  now-Placed = record { at = λ w q. q }

  sql-Placed : {A : Type 0} (f : Tables → Result A × Tables) → Keeps (Placed n) (sql o f)
  unfolding sql
  sql-Placed f = record {
    at = λ w q. elim (Option-cases (o.sql_fault w.outside).0) [
      | inl e ↦ rw (e, sql) q
      | inr (x, e) ↦ rw (e, sql) q
    ];
  }

  query-Placed : {A : Type 0} (f : Tables → Result A) → Keeps (Placed n) (query o f)
  unfolding query
  query-Placed f = sql-Placed _

  transaction-Placed :
      {A : Type 0} (m : Action (World X) A)
      → Keeps (Placed n) m
      → Keeps (Placed n) (transaction o m)
  unfolding transaction
  transaction-Placed m km = record {
    at = λ w q. finish-Placed n w.tables _ (
        (Keeps-bind _ _ (fault-Placed n o.sql_fault) (λ _.
            Keeps-bind _ _ km
              (λ a. Keeps-bind _ _ (fault-Placed n o.sql_fault) (λ _. Keeps-pass a)))).at
          w q);
  }

  update_expected-Placed :
      (id : String) (s t : LifecycleState) (f : Operation → Operation)
      → Keeps (Placed n) (update_expected o id s t f)
  unfolding update_expected
  update_expected-Placed id s t f = search (keeps_rules, now-Placed, sql-Placed)

  pub create_operation-Placed : (op : Operation) → Keeps (Placed n) (Store.create_operation o op)
  unfolding Store.create_operation
  create_operation-Placed op = search (keeps_rules, now-Placed, sql-Placed) depth 8

  pub transition-Placed :
      (id : String) (s t : LifecycleState) (m : String)
      → Keeps (Placed n) (Store.transition o id s t m)
  unfolding Store.transition
  transition-Placed id s t m = update_expected-Placed id s t _

  save_issued-Placed :
      (id print : String) (at : ℤ)
      → Keeps (Placed n) (Store.save_issued o id challenge_present print at)
  unfolding Store.save_issued
  save_issued-Placed id print at = search (keeps_rules, update_expected-Placed)

  set_cert_created-Placed :
      (id : String) (cert : ℤ) → Keeps (Placed n) (Store.set_cert_created o id cert_issued cert)
  unfolding Store.set_cert_created
  set_cert_created-Placed id cert = search (keeps_rules, update_expected-Placed)

  activate-Placed :
      (id account : String) (at : ℤ)
      → Keeps (Placed n) (Store.activate o id policy_bound account at)
  unfolding Store.activate
  activate-Placed id account at =
      search (keeps_rules, query-Placed, now-Placed, sql-Placed) depth 14

  set_active-Placed :
      (id account : String) (at : ℤ)
      → Keeps (Placed n) (Store.set_active o id policy_bound account at)
  unfolding Store.set_active
  set_active-Placed id account at = transaction-Placed _ (activate-Placed id account at)

  normalize-Placed : (id : String) → Keeps (Placed n) (Store.normalize_first_issue_failure o id)
  unfolding Store.normalize_first_issue_failure
  normalize-Placed id = search (keeps_rules, sql-Placed)

  record_managed-Placed :
      (ip c m r : String) → Keeps (Placed n) (Store.record_managed_error o ip c m r)
  unfolding Store.record_managed_error
  record_managed-Placed ip c m r = search (keeps_rules, sql-Placed)

  save-Placed : (s : Snapshot) → Keeps (Placed n) (Rollback.save o s)
  unfolding Rollback.save
  save-Placed s = search (keeps_rules, fault-Placed n, get_dir-Placed n, set_dir-Placed n) depth 8

  remove-Placed : (id : String) → Keeps (Placed n) (Rollback.remove o id)
  unfolding Rollback.remove
  remove-Placed id =
      search (keeps_rules, fault-Placed n, get_dir-Placed n, set_dir-Placed n) depth 8

  check_file-Placed : (f : Option File) → Keeps (Placed n) (check_file o f)
  unfolding check_file
  check_file-Placed none = search keeps_rules
  check_file-Placed (some f) = search keeps_rules

  check_json-Placed : (s : Option Snapshot) → Keeps (Placed n) (check_json o s)
  unfolding check_json
  check_json-Placed none = search keeps_rules
  check_json-Placed (some s) = search keeps_rules

  load-Placed : (id : String) → Keeps (Placed n) (Rollback.load o id)
  unfolding Rollback.load
  load-Placed id =
      search (keeps_rules, fault-Placed n, get_dir-Placed n, check_file-Placed, check_json-Placed)
        depth 12

  load_all-Placed : (ids : List String) → Keeps (Placed n) (Rollback.load_all o ids)
  unfolding Rollback.load_all
  load_all-Placed [] = search keeps_rules
  load_all-Placed (id ∷ ids) =
      Keeps-bind _ _ (load-Placed id) λ s. Keeps-bind _ _ (load_all-Placed ids) λ rest. Keeps-pass _

  list-Placed : Keeps (Placed n) (Rollback.list o)
  unfolding Rollback.list
  list-Placed = search (keeps_rules, fault-Placed n, get_dir-Placed n, load_all-Placed) depth 8

  pub quiet : Primitives o (Placed n)
  unfolding Store.set_policy_bound Store.set_error Store.set_error_with_retry
      Store.record_operation_failure Challenges.complete_challenge
  quiet = record {
    external_kept = external-Placed n;
    fault_kept = fault-Placed n;
    now_kept = now-Placed;
    query_kept = query-Placed;
    update_kept = λ input. updates-Placed n input _;
    create_kept = λ input. creates-Placed n input _;
    save_kept = save-Placed;
    remove_kept = remove-Placed;
    list_kept = list-Placed;
    save_issued_kept = save_issued-Placed;
    set_cert_created_kept = set_cert_created-Placed;
    set_policy_bound_kept = λ id. update_expected-Placed id _ _ _;
    set_active_kept = set_active-Placed;
    set_error_kept = λ id s c m k. update_expected-Placed id _ _ _;
    set_error_with_retry_kept = λ id s c m k i at. update_expected-Placed id _ _ _;
    record_failure_kept = λ id s c m k. update_expected-Placed id _ _ _;
    normalize_kept = normalize-Placed;
    record_managed_kept = record_managed-Placed;
    complete_kept = λ p. sql-Placed _;
  }
