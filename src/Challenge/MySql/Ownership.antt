-- ===== src/Challenge/MySql/Ownership.antt =====
-- The rows of other tasks: those whose taskId is not 0.
use goedge_ip_cert.Prelude.{
  ◌≡◌, refl, ◌∙◌, ap, String, Bool, true, false, not, ◌&&◌, ◌||◌, Option, List, [], ◌∷◌, ◌++◌,
  Bool-cases, Option-cases, inl, inr, arith, if◌then◌else◌,
}
use goedge_ip_cert.Prelude.Int.{ℤ, pos, eq_ℤ}
use goedge_ip_cert.Error.{Error}
use goedge_ip_cert.Action.{Action, lift_option, refuse_if}
use goedge_ip_cert.Action.Keeps.{Keeps, Keeps-bind, Keeps-unless, keeps_rules}
use goedge_ip_cert.Challenge.Model.{Challenge}
use goedge_ip_cert.Challenge.MySql.{
  Server, Table, outside_fault, outside_step, set_checked, require_checked, get_table, insert_row,
  delete_first, delete_rows, select_rows, is_unfit, lacks_selector, is_selected, creation_time,
  create, remove, find_owned, check_schema,
}

is_foreign : Challenge → Bool
is_foreign row = not (eq_ℤ row.task_id (pos 0))

pub foreign : List Challenge → List Challenge
foreign rows = select_rows is_foreign rows

-- The rows of other tasks are `rows`.
abbrev pub Untouched : {X : Type 0} → List Challenge → Table X → Type 0
Untouched rows t = foreign t.rows ≡ rows

foreign-append_own :
    (rows : List Challenge) (row : Challenge)
    → is_foreign row ≡ false
    → foreign (rows ++ (row ∷ [])) ≡ foreign rows
unfolding foreign select_rows
foreign-append_own [] row h = rw h refl
foreign-append_own (r ∷ rows) row h = ground (arith, foreign-append_own rows row h)

foreign-delete :
    (matches : Challenge → Bool) (rows : List Challenge)
    → ((row : Challenge) → matches row ≡ true → is_foreign row ≡ false)
    → foreign ((delete_first matches rows).1) ≡ foreign rows
unfolding foreign select_rows delete_first
foreign-delete matches [] h = refl
foreign-delete matches (r ∷ rows) h = elim (Bool-cases (matches r)) [
  | inl e ↦ let own = h r e in rw (e, own) refl
  | inr e ↦
      let rest = foreign-delete matches rows h in
      rw e (ap (λ l. if is_foreign r then r ∷ l else l) rest)
]

own_task :
    (a b d : Bool) (task : ℤ)
    → (a || not (eq_ℤ task (pos 0)) || b || d) ≡ false
    → not (eq_ℤ task (pos 0)) ≡ false
own_task a b d task h = ground arith

fit_task :
    (a b d : Bool) (task : ℤ)
    → (not (eq_ℤ task (pos 0)) || a || b || d) ≡ false
    → not (eq_ℤ task (pos 0)) ≡ false
fit_task a b d task h = ground arith

same_task :
    (row item : ℤ) (a b d : Bool)
    → (a && eq_ℤ row item && b && d) ≡ true
    → not (eq_ℤ item (pos 0)) ≡ false
    → not (eq_ℤ row (pos 0)) ≡ false
same_task row item a b d h k = ground arith

module _ {X : Type 0} (rows : List Challenge) where
  fault-Untouched : (f : X → Option Error × X) → Keeps (Untouched rows) (outside_fault f)
  unfolding outside_fault lift_option
  fault-Untouched f = record {
    at = λ t h. elim (Option-cases (f t.outside).0) [
      | inl e ↦ rw (e, outside_fault) h
      | inr (x, e) ↦ rw (e, outside_fault) h
    ];
  }

  pub step-Untouched : {A : Type 0} (m : Action X A) → Keeps (Untouched rows) (outside_step m)
  unfolding outside_step
  step-Untouched m = record { at = λ t h. h }

  checked-Untouched : Keeps (Untouched {X = X} rows) set_checked
  unfolding set_checked
  checked-Untouched = record { at = λ t h. h }

  require-Untouched : Keeps (Untouched {X = X} rows) require_checked
  unfolding require_checked refuse_if
  require-Untouched = record {
    at = λ t h. elim (Bool-cases t.checked) [
      | inl e ↦ rw (e, require_checked) h
      | inr e ↦ rw (e, require_checked) h
    ];
  }

  get-Untouched : Keeps (Untouched {X = X} rows) get_table
  unfolding get_table
  get-Untouched = record { at = λ t h. h }

  insert-Untouched :
      (item : Challenge)
      → is_foreign item ≡ false
      → Keeps (Untouched {X = X} rows) (insert_row item)
  unfolding insert_row is_foreign
  insert-Untouched item own = record { at = λ t h. foreign-append_own t.rows _ own ∙ h }

  delete-Untouched :
      (matches : Challenge → Bool)
      → ((row : Challenge) → matches row ≡ true → is_foreign row ≡ false)
      → Keeps (Untouched {X = X} rows) (delete_rows matches)
  unfolding delete_rows
  delete-Untouched matches own = record { at = λ t h. foreign-delete matches t.rows own ∙ h }

module _ {X : Type 0} (db : Server X) (rows : List Challenge) where
  time-Untouched : (item : Challenge) → Keeps (Untouched rows) (creation_time db item)
  unfolding creation_time
  time-Untouched item = search (keeps_rules, step-Untouched rows)

  pub create-Untouched : (item : Challenge) → Keeps (Untouched rows) (create db item)
  unfolding create is_unfit is_foreign
  create-Untouched item = Keeps-bind _ _ (require-Untouched rows) λ _.
      Keeps-unless (is_unfit item) _ _ λ fit.
        let own = fit_task _ _ _ item.task_id fit in
        let timed = time-Untouched item in
        Keeps-bind _ _ (search keeps_rules) λ _. Keeps-bind _ _ timed λ at.
          Keeps-bind _ _ (search (keeps_rules, fault-Untouched rows)) λ _.
            Keeps-bind _ _ (insert-Untouched rows (record item { created_at = at }) own)
              λ id. search (keeps_rules, fault-Untouched rows)

  pub remove-Untouched : (item : Challenge) → Keeps (Untouched rows) (remove db item)
  unfolding remove lacks_selector is_selected is_foreign
  remove-Untouched item = Keeps-bind _ _ (require-Untouched rows) λ _.
      Keeps-unless (lacks_selector item) _ _ λ fit.
        let own = own_task _ _ _ item.task_id fit in
        let selected : (row : Challenge) → is_selected db item row ≡ true → is_foreign row ≡ false =
          λ row h. same_task row.task_id item.task_id _ _ _ h own in
        search
          (keeps_rules, fault-Untouched rows, delete-Untouched rows (is_selected db item) selected)

  pub find_owned-Untouched :
      (domain token : String) (at : ℤ) → Keeps (Untouched rows) (find_owned db domain token at)
  unfolding find_owned
  find_owned-Untouched domain token at =
      search (keeps_rules, require-Untouched rows, fault-Untouched rows, get-Untouched rows)

  pub check_schema-Untouched : Keeps (Untouched rows) (check_schema db)
  unfolding check_schema
  check_schema-Untouched =
      search (keeps_rules, get-Untouched rows, checked-Untouched rows, step-Untouched rows)
