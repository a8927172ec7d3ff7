-- ===== src/Challenge/MySql/RoundTrip.antt =====
-- A challenge that Create has inserted, found and deleted again.
use mathlib.Core.Path.{subst}
use goedge_ip_cert.Prelude.{
  ◌≡◌, refl, sym, ap, ◌∙◌, String, Bool, true, false, ◌&&◌, Option, none, List, [], ◌∷◌, ◌++◌,
  Bool-cases, Option-cases, inl, inr, arith,
}
use goedge_ip_cert.Prelude.Int.{ℤ, pos, eq_ℤ, ltb_ℤ, not_positive}
use goedge_ip_cert.Error.{Error, wrapped}
use goedge_ip_cert.Action.{ok, ◌>>=◌, pass, lift_option, wrap_error, refuse_if}
use goedge_ip_cert.Action.Success.{err≢ok, ok-inj, step-succeeds, refuse-succeeds}
use goedge_ip_cert.Challenge.Model.{Challenge}
use goedge_ip_cert.Challenge.MySql.{
  Server, Table, outside_fault, outside_step, require_checked, insert_row, delete_first,
  delete_rows, is_unfit, is_too_long, lacks_selector, is_selected, creation_time, create, remove,
}

-- What stays of the table in the steps that do not write.
record Kept {X : Type 0} (t t' : Table X) : Type 0 where
  checked : t'.checked ≡ t.checked
  rows : t'.rows ≡ t.rows
  next_id : t'.next_id ≡ t.next_id

module _ {X : Type 0} where
  fault-Kept : (f : X → Option Error × X) (t : Table X) → Kept t (outside_fault f t).1
  unfolding outside_fault lift_option
  fault-Kept f t = elim (Option-cases (f t.outside).0) [
    | inl e ↦ rw (e, outside_fault) (record { checked = refl; rows = refl; next_id = refl })
    | inr (x, e) ↦ rw (e, outside_fault) (record { checked = refl; rows = refl; next_id = refl })
  ]

  require-succeeds :
      (t : Table X)
      → (require_checked t).0 ≡ ok tt
      → (t.checked ≡ true) × ((require_checked t).1 ≡ t)
  unfolding require_checked refuse_if
  require-succeeds t h = elim (Bool-cases t.checked) [
    | inl e ↦ (e, rw (e, require_checked) refl)
    | inr e ↦ absurd (err≢ok (rw (e, require_checked) at h))
  ]

Kept-trans : {X : Type 0} (a b c : Table X) → Kept a b → Kept b c → Kept a c
Kept-trans a b c h k = record {
  checked = k.checked ∙ h.checked;
  rows = k.rows ∙ h.rows;
  next_id = k.next_id ∙ h.next_id;
}

wrap-Kept :
    {X : Type 0} (g : Error → Error) (f : X → Option Error × X) (t : Table X)
    → Kept t (wrap_error g (outside_fault f) t).1
unfolding wrap_error
wrap-Kept g f t = fault-Kept f t

-- What Create has done when it returns no error.
pub record Created {X : Type 0} (item created : Challenge) (t t' : Table X) : Type 0 where
  pub was_checked : t.checked ≡ true
  pub fit : is_unfit item ≡ false
  pub positive : not_positive t.next_id ≡ false
  pub still_checked : t'.checked ≡ true
  pub created_at : ℤ
  pub row : created ≡ record item { id = t.next_id; created_at = created_at }
  pub rows : t'.rows ≡ t.rows ++ (created ∷ [])

module _ {X : Type 0} (db : Server X) where
  time-Kept : (item : Challenge) (t : Table X) → Kept t (creation_time db item t).1
  unfolding creation_time outside_step pass
  time-Kept item t = elim (Bool-cases (eq_ℤ item.created_at (pos 0))) [
    | inl e ↦ rw (e, creation_time) (record { checked = refl; rows = refl; next_id = refl })
    | inr e ↦ rw (e, creation_time) (record { checked = refl; rows = refl; next_id = refl })
  ]

  pub create-Created :
      (item created : Challenge) (t : Table X)
      → (create db item t).0 ≡ ok created
      → Created item created t (create db item t).1
  unfolding create insert_row pass
  create-Created item created t h =
      let a = step-succeeds require_checked _ t created h in
      let ready = require-succeeds t a.1 in
      let b = step-succeeds _ _ _ created a.2 in
      let fit = refuse-succeeds _ _ _ _ b.1 in
      let c = step-succeeds _ _ _ created b.2 in
      let short = refuse-succeeds _ _ _ _ c.1 in
      let d = step-succeeds (creation_time db item) _ _ created c.2 in
      let e = step-succeeds _ _ _ created d.2 in
      let row : Challenge = record item { created_at = d.0 } in
      let f = step-succeeds (insert_row row) _ _ created e.2 in
      let g = step-succeeds _ _ _ created f.2 in
      let i = step-succeeds _ _ _ created g.2 in
      let positive = refuse-succeeds _ _ _ _ i.1 in
      let s3 =
        (refuse_if (is_too_long item) _ (refuse_if (is_unfit item) _ (require_checked t).1).1).1 in
      let same : s3 ≡ t = short.1 ∙ fit.1 ∙ ready.1 in
      let s4 = (creation_time db item s3).1 in
      let s5 = (wrap_error (wrapped "create challenge") (outside_fault db.exec_fault) s4).1 in
      let timed = subst (λ x. Kept x s4) same (time-Kept item s3) in
      let kept =
        Kept-trans t s4 s5 timed (wrap-Kept (wrapped "create challenge") db.exec_fault s4) in
      let s6 = (insert_row row s5).1 in
      let after = wrap-Kept (wrapped "read challenge row ID") db.result_fault s6 in
      let state = a.3 ∙ b.3 ∙ c.3 ∙ d.3 ∙ e.3 ∙ f.3 ∙ g.3 ∙ i.3 ∙ positive.1 in
      let id : t.next_id ≡ f.0 = sym kept.next_id ∙ ok-inj f.1 in
      let last : record row { id = f.0 } ≡ created = ok-inj i.2 in
      let numbered : ℤ → Challenge = λ n. record row { id = n } in
      record {
        was_checked = ready.0;
        fit = fit.0;
        positive = subst (λ n. not_positive n ≡ false) (sym id) positive.0;
        still_checked = ap (λ x. x.checked) state ∙ after.checked ∙ kept.checked ∙ ready.0;
        created_at = d.0;
        row = sym last ∙ ap numbered (sym id);
        rows =
            ap (λ x. x.rows) state
            ∙ after.rows
            ∙ ap (λ rs. rs ++ (numbered s5.next_id ∷ [])) kept.rows
            ∙ ap (λ c. t.rows ++ (c ∷ [])) (ap numbered (ok-inj f.1) ∙ last);
      }

-- The ids of the rows are below the next one.
abbrev pub all_below : ℤ → List Challenge → Bool
all_below next [] = true
all_below next (row ∷ rows) = ltb_ℤ row.id next && all_below next rows

own_selected :
    {X : Type 0} (db : Server X) (row : Challenge)
    → ((s : String) → db.same_text s s ≡ true)
    → is_selected db row row ≡ true
unfolding is_selected
own_selected db row same = rw (same row.domain, same row.token) (ground arith)

lower_unselected :
    {X : Type 0} (db : Server X) (item row : Challenge)
    → ltb_ℤ row.id item.id ≡ true
    → is_selected db item row ≡ false
unfolding is_selected
lower_unselected db item row h = ground arith

delete-append :
    {X : Type 0} (db : Server X) (rows : List Challenge) (item : Challenge)
    → ((s : String) → db.same_text s s ≡ true)
    → all_below item.id rows ≡ true
    → delete_first (is_selected db item) (rows ++ (item ∷ [])) ≡ (1, rows)
unfolding delete_first
delete-append db [] item same h = rw (own_selected db item same) refl
delete-append db (row ∷ rows) item same h =
    let lower : ltb_ℤ row.id item.id ≡ true = ground arith in
    let rest = delete-append db rows item same (ground arith) in
    rw (lower_unselected db item row lower, rest) refl

remove_runs :
    {X : Type 0} (db : Server X) (item : Challenge) (t : Table X) (rows : List Challenge)
    → ((x : X) → (db.exec_fault x).0 ≡ none)
    → ((x : X) → (db.result_fault x).0 ≡ none)
    → t.checked ≡ true
    → lacks_selector item ≡ false
    → delete_first (is_selected db item) t.rows ≡ (1, rows)
    → ((remove db item t).0 ≡ ok tt) × ((remove db item t).1.rows ≡ rows)
unfolding remove require_checked outside_fault delete_rows wrap_error ◌>>=◌
remove_runs db item t rows exec result checked whole deleted =
    rw (checked, whole, exec t.outside, deleted, result (db.exec_fault t.outside).1) (refl, refl)

whole_selector :
    (item : Challenge) (id at : ℤ)
    → is_unfit item ≡ false
    → not_positive id ≡ false
    → lacks_selector (record item { id = id; created_at = at }) ≡ false
unfolding is_unfit lacks_selector
whole_selector item id at h k = ground arith

-- On a database whose statements do not fail, and in a table whose ids are below its next one, Delete
-- takes away the row that Create has inserted and no other: it returns no error, and the rows are those
-- before Create.
pub remove-create :
    {X : Type 0} (db : Server X) (item created : Challenge) (t : Table X)
    → ((x : X) → (db.exec_fault x).0 ≡ none)
    → ((x : X) → (db.result_fault x).0 ≡ none)
    → ((s : String) → db.same_text s s ≡ true)
    → all_below t.next_id t.rows ≡ true
    → (create db item t).0 ≡ ok created
    → ((remove db created (create db item t).1).0 ≡ ok tt)
      × ((remove db created (create db item t).1).1.rows ≡ t.rows)
remove-create db item created t exec result same below h =
    let c = create-Created db item created t h in
    let whole =
      subst (λ x. lacks_selector x ≡ false) (sym c.row)
        (whole_selector item t.next_id c.created_at c.fit c.positive) in
    let lower = subst (λ n. all_below n t.rows ≡ true) (sym (ap (λ x. x.id) c.row)) below in
    remove_runs db created (create db item t).1 t.rows exec result c.still_checked whole
      (rw c.rows (delete-append db t.rows created same lower))
