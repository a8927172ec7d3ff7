-- ===== src/Lifecycle/Journaled.antt =====
-- What Recover of internal/challenge/provider.go leaves of the journal, which is the table
-- pending_challenges of the run.
use goedge_ip_cert.Prelude.{
  ◌≡◌, refl, sym, ap, ◌∙◌, Bool, true, false, if◌then◌else◌, List, [], ◌∷◌,
}
use goedge_ip_cert.Error.{Error}
use goedge_ip_cert.Action.{Result, ok, err, Action, pass, fail, on, ◌>>=◌}
use goedge_ip_cert.Action.Keeps.{
  Keeps, Keeps-attempt, Keeps-if, Keeps-bind, Keeps-pass, Keeps-fail, keeps_rules,
}
use goedge_ip_cert.Action.Success.{err≢ok, ok-inj, bind-succeeds}
use goedge_ip_cert.World.{World, Outside, external}
use goedge_ip_cert.Challenge.Model.{Challenge, Pending}
use goedge_ip_cert.Challenge.Provider.{
  resolve_owned, one_row, unless_not_found, recover_one, recover_all, recover,
}
use goedge_ip_cert.State.Tables.{Tables, delete, same_challenge}
use goedge_ip_cert.State.Tables.Deleting.{delete_all, delete_all-ordered}
use goedge_ip_cert.State.Outcomes.{sql-succeeds, query-succeeds}
use goedge_ip_cert.State.Challenges.{journal, complete_challenge, list_pending_challenges, in_order}
use goedge_ip_cert.Lifecycle.Run.{challenge_store}

-- An action that, when it returns no error, has changed the journal by `f`.
record Leaves {X A : Type 0} (f : List Pending → List Pending) (m : Action (World X) A)
    : Type 0 where
  at :
      (w : World X) (a : A)
      → (m w).0 ≡ ok a
      → (m w).1.tables.pending_challenges ≡ f w.tables.pending_challenges

abbrev HasTables : {X : Type 0} → Tables → World X → Type 0
HasTables t w = w.tables ≡ t

module _ {X : Type 0} (f : List Pending → List Pending) where
  Leaves-fail : {A : Type 0} (e : Error) → Leaves {X = X} {A = A} f (fail e)
  unfolding fail
  Leaves-fail e = record { at = λ w a h. absurd (err≢ok h) }

  Leaves-then :
      {A B : Type 0} (m : Action (World X) A) (k : A → Action (World X) B)
      → ((t : Tables) → Keeps (HasTables t) m)
      → ((a : A) → Leaves f (k a))
      → Leaves f (m >>= k)
  Leaves-then m k km lk = record {
    at = λ w b h.
        let a = bind-succeeds m k w b h in
        let t = (km w.tables).at w refl in
        rw a.2 ((lk a.0).at (m w).1 b (rw a.2 at h) ∙ ap (λ x. f x.pending_challenges) t);
  }

  Leaves-on :
      {A B : Type 0} (x : Result A) (g : A → Action (World X) B) (h : Error → Action (World X) B)
      → ((a : A) → Leaves f (g a))
      → ((e : Error) → Leaves f (h e))
      → Leaves f (on x g h)
  Leaves-on (ok a) g h lg lh = lg a
  Leaves-on (err e) g h lg lh = lh e

  Leaves-if :
      {A : Type 0} (b : Bool) (m n : Action (World X) A)
      → Leaves f m
      → Leaves f n
      → Leaves f (if b then m else n)
  Leaves-if true m n lm ln = lm
  Leaves-if false m n lm ln = ln

module _ {X : Type 0} (t : Tables) where
  external-HasTables : {A : Type 0} (m : Action X A) → Keeps (HasTables t) (external m)
  unfolding external
  external-HasTables m = record { at = λ w q. q }

  one_row-HasTables : (rows : List Challenge) → Keeps (HasTables {X = X} t) (one_row rows)
  one_row-HasTables [] = Keeps-fail _
  one_row-HasTables (row ∷ []) = Keeps-pass row
  one_row-HasTables (row ∷ _ ∷ _) = Keeps-fail _

  unless-HasTables : (x : Result (Unit {0})) → Keeps (HasTables {X = X} t) (unless_not_found x)
  unless-HasTables x = search keeps_rules

module _ {X : Type 0} (o : Outside X) where
  resolve-HasTables :
      (t : Tables) (p : Pending) → Keeps (HasTables t) (resolve_owned (challenge_store o) p)
  unfolding resolve_owned
  resolve-HasTables t p =
      Keeps-if _ _ _ (Keeps-pass _)
        (Keeps-bind _ _ (external-HasTables t _) λ rows. one_row-HasTables t rows)

  complete-Leaves : (p : Pending) → Leaves (delete (same_challenge p)) (complete_challenge o p)
  unfolding complete_challenge
  complete-Leaves p = record {
    at = λ w a h. ap (λ t. t.pending_challenges) (sql-succeeds o _ w a h).1;
  }

  recover_one-Leaves :
      (p : Pending)
      → Leaves (delete (same_challenge p)) (recover_one (challenge_store o) (journal o) p)
  unfolding recover_one
  recover_one-Leaves p =
      let D = delete (same_challenge p) in
      Leaves-then D _ _ (λ t. Keeps-attempt _ (resolve-HasTables t p))
        λ found.
          Leaves-on D found _ _
            (λ item.
              Leaves-then D _ _ (λ t. Keeps-attempt _ (external-HasTables t _))
                λ removed.
                  Leaves-then D _ _ (λ t. unless-HasTables t removed) λ _. complete-Leaves p)
            (λ e. Leaves-if D _ _ _ (complete-Leaves p) (Leaves-fail D e))

  recover_all-Leaves :
      (items : List Pending)
      → Leaves (delete_all items) (recover_all (challenge_store o) (journal o) items)
  unfolding recover_all delete_all pass
  recover_all-Leaves [] = record { at = λ w a h. refl }
  recover_all-Leaves (p ∷ items) = record {
    at = λ w u h.
        let a = bind-succeeds _ _ w u h in
        let w1 = (recover_one (challenge_store o) (journal o) p w).1 in
        rw (a.2, ← (recover_one-Leaves p).at w a.0 a.1)
          ((recover_all-Leaves items).at w1 u (rw a.2 at h));
  }

  -- When Recover returns no error, no challenge is left in the journal.
  pub recover_empties :
      (w : World X) (u : Unit {0})
      → (recover (challenge_store o) (journal o) w).0 ≡ ok u
      → (recover (challenge_store o) (journal o) w).1.tables.pending_challenges ≡ []
  unfolding recover list_pending_challenges
  recover_empties w u h =
      let items = bind-succeeds _ _ w u h in
      let q = query-succeeds o (λ t. ok (in_order t.pending_challenges)) w items.0 items.1 in
      let w1 = (list_pending_challenges o w).1 in
      let rest = (recover_all-Leaves items.0).at w1 u (rw items.2 at h) in
      let pending = w.tables.pending_challenges in
      rw items.2 (
        rest
        ∙ ap (λ t. delete_all items.0 t.pending_challenges) q.1
        ∙ ap (λ l. delete_all l pending) (sym (ok-inj q.0))
        ∙ delete_all-ordered _ pending)
