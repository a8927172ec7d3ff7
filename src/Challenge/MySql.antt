-- ===== src/Challenge/MySql.antt =====
-- internal/challenge/mysql.go: the rows of GoEdge's table edgeACMEAuthentications. MySQL is modelled as a
-- list of rows in the order of their ids; what it says of its schema, its collation, and whether a
-- statement fails are parameters. A statement that fails changes nothing. The lock is not modelled.
pub mod Schema
pub mod Ownership
pub mod Tasks
pub mod RoundTrip
pub mod Guard
use goedge_ip_cert.Prelude.{
  ℕ, String, Bool, true, false, not, ◌&&◌, ◌||◌, Option, none, some, List, [], ◌∷◌, ◌++◌, ltb, ◌==◌,
  ◌=s=◌, if◌then◌else◌,
}
use goedge_ip_cert.Prelude.Int.{ℤ, pos, eq_ℤ, not_positive, ◌+ℤ◌}
use goedge_ip_cert.Error.{
  Error, known, message, wrapped, schema_mismatch, challenge_not_found, ambiguous,
}
use goedge_ip_cert.Action.{
  Result, ok, err, Action, pass, fail, refuse_if, wrap_error, lift_option, ◌>>=◌, ◌>>◌,
}
use goedge_ip_cert.Security.Redact.{byte_length}
use goedge_ip_cert.Challenge.Model.{Challenge, Store}
use goedge_ip_cert.Challenge.MySql.Schema.{SchemaReader, inspect}

-- What the store uses of MySQL and of the clock.
pub record Server (X : Type 0) : Type 0 where
  pub schema : SchemaReader X
  -- an error of a statement on the rows, and one of LastInsertId or RowsAffected after it
  pub exec_fault : X → Option Error × X
  pub result_fault : X → Option Error × X
  -- the collation's equality of two texts
  pub same_text : String → String → Bool
  -- time.Now().Unix()
  pub unix_now : X → ℤ × X

-- The fields of MySQLStore that change, the table with its next id, and the outside.
pub record Table (X : Type 0) : Type 0 where
  pub checked : Bool
  pub rows : List Challenge
  pub next_id : ℤ
  pub outside : X

module _ {X : Type 0} where
  unfoldable pub outside_fault : (X → Option Error × X) → Action (Table X) (Unit {0})
  unfolding lift_option
  outside_fault f s = let (o, x) = f s.outside in lift_option o (record s { outside = x })

  unfoldable pub outside_step : {A : Type 0} → Action X A → Action (Table X) A
  outside_step m s = let (r, x) = m s.outside in (r, record s { outside = x })

  unfoldable pub set_checked : Action (Table X) (Unit {0})
  set_checked s = (ok tt, record s { checked = true })

  unfoldable pub require_checked : Action (Table X) (Unit {0})
  unfolding refuse_if
  require_checked s = refuse_if (not s.checked) (known schema_mismatch) s

  unfoldable pub get_table : Action (Table X) (Table X)
  get_table s = (ok s, s)

  -- INSERT; the new row's id is the LastInsertId.
  unfoldable pub insert_row : Challenge → Action (Table X) ℤ
  insert_row item s = (
    ok s.next_id,
    record s {
      rows = s.rows ++ (record item { id = s.next_id } ∷ []);
      next_id = s.next_id +ℤ pos 1;
    },
  )

-- The rows without the first that matches, and how many were deleted.
unfoldable pub delete_first : (Challenge → Bool) → List Challenge → ℕ × List Challenge
delete_first matches [] = (0, [])
delete_first matches (row ∷ rows) =
    let rest = delete_first matches rows in
    if matches row then (1, rows) else (rest.0, row ∷ rest.1)

unfoldable pub select_rows : (Challenge → Bool) → List Challenge → List Challenge
select_rows matches [] = []
select_rows matches (row ∷ rows) =
    let rest = select_rows matches rows in if matches row then row ∷ rest else rest

-- The columns that FindOwned selects; the key is not one of them.
abbrev pub without_key : Challenge → Challenge
without_key row = record row { key = "" }

unfoldable pub without_keys : List Challenge → List Challenge
without_keys [] = []
without_keys (row ∷ rows) = without_key row ∷ without_keys rows

unfoldable pub delete_rows : {X : Type 0} → (Challenge → Bool) → Action (Table X) ℕ
unfolding delete_first
delete_rows matches s =
    let (n, rows) = delete_first matches s.rows in (ok n, record s { rows = rows })

-- The guard of Create.
unfoldable pub is_unfit : Challenge → Bool
is_unfit item =
    not (eq_ℤ item.task_id (pos 0)) || item.domain =s= "" || item.token =s= "" || item.key =s= ""

unfoldable pub is_too_long : Challenge → Bool
unfolding byte_length
is_too_long item =
    ltb 255 (byte_length item.domain)
    || ltb 255 (byte_length item.token)
    || ltb 1024 (byte_length item.key)

unfoldable pub lacks_selector : Challenge → Bool
lacks_selector item =
    not_positive item.id
    || not (eq_ℤ item.task_id (pos 0))
    || item.domain =s= ""
    || item.token =s= ""

module _ {X : Type 0} (db : Server X) where
  -- WHERE id=? AND taskId=? AND domain=? AND token=?
  unfoldable pub is_selected : Challenge → Challenge → Bool
  is_selected item row =
      eq_ℤ row.id item.id
      && eq_ℤ row.task_id item.task_id
      && db.same_text row.domain item.domain
      && db.same_text row.token item.token

  -- WHERE taskId=0 AND domain=? AND token=? AND createdAt=?
  unfoldable pub is_owned : String → String → ℤ → Challenge → Bool
  is_owned domain token created_at row =
      eq_ℤ row.task_id (pos 0)
      && db.same_text row.domain domain
      && db.same_text row.token token
      && eq_ℤ row.created_at created_at

  unfoldable pub creation_time : Challenge → Action (Table X) ℤ
  unfolding outside_step
  creation_time item =
      if eq_ℤ item.created_at (pos 0)
      then outside_step (λ x. (let (t, x') = db.unix_now x in (ok t, x')))
      else pass item.created_at

  unfoldable pub create : Challenge → Action (Table X) Challenge
  unfolding is_unfit is_too_long creation_time outside_fault insert_row require_checked
  create item = do
    require_checked
    refuse_if (is_unfit item)
        (message "a challenge must have taskId 0, a domain, a token and a key")
    refuse_if (is_too_long item) (message "a field is too long for the schema")
    created_at ← creation_time item
    let item : Challenge = record item { created_at = created_at }
    wrap_error (wrapped "create challenge") (outside_fault db.exec_fault)
    id ← insert_row item
    wrap_error (wrapped "read challenge row ID") (outside_fault db.result_fault)
    refuse_if (not_positive id) (message "read challenge row ID")
    pass (record item { id = id })

  unfoldable pub remove : Challenge → Action (Table X) (Unit {0})
  unfolding lacks_selector is_selected outside_fault delete_rows require_checked
  remove item = do
    require_checked
    refuse_if (lacks_selector item) (message "the selector of a challenge is incomplete")
    wrap_error (wrapped "delete challenge") (outside_fault db.exec_fault)
    count ← delete_rows (is_selected item)
    outside_fault db.result_fault
    refuse_if (count == 0) (known challenge_not_found)
    refuse_if (not (count == 1)) (wrapped "challenge delete" (known ambiguous))

  unfoldable pub find_owned : String → String → ℤ → Action (Table X) (List Challenge)
  unfolding is_owned outside_fault select_rows without_keys require_checked get_table
  find_owned domain token created_at = do
    require_checked
    wrap_error (wrapped "find owned challenge") (outside_fault db.exec_fault)
    table ← get_table
    pass (without_keys (select_rows (is_owned domain token created_at) table.rows))

  unfoldable pub check_schema : Action (Table X) (Unit {0})
  unfolding outside_step set_checked get_table
  check_schema = do
    table ← get_table
    if table.checked then pass tt else (do outside_step (inspect db.schema); set_checked)

  -- MySQLStore as a Store
  abbrev pub mysql_store : Store (Table X)
  mysql_store = record {
    check_schema = check_schema;
    create = create;
    remove = remove;
    find_owned = find_owned;
  }
