-- ===== src/Challenge/MySql/Guard.antt =====
-- What the schema of a checked store has.
pub mod Columns
use goedge_ip_cert.Prelude.{allowed, ◌≡◌, refl, ap, ◌∙◌, sym, Bool, true, false, not, ◌||◌, arith}
use goedge_ip_cert.Action.{ok, Action, ◌>>◌}
use goedge_ip_cert.Action.Success.{bind-ok, step-succeeds, refuse-succeeds, wrap-succeeds}
use goedge_ip_cert.Challenge.MySql.{
  Server, Table, get_table, outside_step, check_schema, set_checked,
}
use goedge_ip_cert.Challenge.MySql.Schema.{varchar, SchemaReader, inspect}
use goedge_ip_cert.Challenge.MySql.Guard.Columns.{
  Acceptable, text_column, number_column, id_column, six-Wanted, primary_found, token_found,
}

both : (a b : Bool) → (not a || not b) ≡ false → (a ≡ true) × (b ≡ true)
both a b h = ground arith

inspect-Acceptable :
    {X : Type 0} (reader : SchemaReader X) (x : X)
    → (inspect reader x).0 ≡ ok tt
    → Acceptable reader
unfolding inspect
inspect-Acceptable reader x h =
    let a = step-succeeds _ _ x tt h in
    let b = step-succeeds _ _ _ tt a.2 in
    let c = step-succeeds _ _ _ tt b.2 in
    let d = step-succeeds _ _ _ tt c.2 in
    let e = step-succeeds _ _ _ tt d.2 in
    let f = step-succeeds _ _ _ tt e.2 in
    let number = step-succeeds _ _ _ tt f.2 in
    let fit = step-succeeds _ _ _ tt number.2 in
    let i = step-succeeds _ _ _ tt fit.2 in
    let wanted = six-Wanted f.0 (allowed _ (refuse-succeeds _ _ _ _ fit.1).0) in
    let indexed = both _ _ (refuse-succeeds _ _ _ tt i.2).0 in
    record {
      columns = f.0;
      asked = _;
      read_columns = wrap-succeeds _ reader.columns _ f.0 f.1;
      id = id_column f.0 wanted.0;
      task_id = number_column f.0 "taskId" wanted.1;
      domain = text_column f.0 "domain" "varchar(255)" wanted.2 refl;
      token = text_column f.0 "token" "varchar(255)" wanted.3 refl;
      key = text_column f.0 "key" "varchar(1024)" wanted.4 refl;
      created_at = number_column f.0 "createdAt" wanted.5;
      indexes = i.0;
      asked_again = _;
      read_indexes = wrap-succeeds _ reader.indexes _ i.0 i.1;
      primary = primary_found i.0 indexed.0;
      token_index = token_found i.0 indexed.1;
    }

marked :
    {X : Type 0} (m : Action X (Unit {0})) (t : Table X)
    → ((outside_step m >> set_checked) t).0 ≡ ok tt
    → ((m t.outside).0 ≡ ok tt) × (((outside_step m >> set_checked) t).1.checked ≡ true)
unfolding outside_step set_checked
marked m t h = let a = step-succeeds (outside_step m) _ t tt h in (a.1, ap (λ x. x.checked) a.3)

module _ {X : Type 0} (db : Server X) (t : Table X) where
  -- When CheckSchema turns an unchecked store into a checked one, the database has returned the columns
  -- id (bigint unsigned auto_increment, NO), taskId and createdAt (bigint unsigned, YES, default 0), and
  -- domain, token and key (varchar of 255, 255 and 1024, YES), a unique index PRIMARY that starts with
  -- id, and an index that starts with token.
  pub check_schema-Acceptable :
      t.checked ≡ false
      → (check_schema db t).0 ≡ ok tt
      → Acceptable db.schema × ((check_schema db t).1.checked ≡ true)
  unfolding check_schema get_table outside_step set_checked
  check_schema-Acceptable unchecked h =
      let at_first = bind-ok get_table _ t t refl in
      let entered : check_schema db t ≡ (outside_step (inspect db.schema) >> set_checked) t =
        at_first ∙ rw unchecked refl in
      let m = marked (inspect db.schema) t (sym (ap (λ r. r.0) entered) ∙ h) in
      (inspect-Acceptable db.schema t.outside m.0, ap (λ r. r.1.checked) entered ∙ m.1)
