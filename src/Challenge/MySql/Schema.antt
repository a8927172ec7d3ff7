-- ===== src/Challenge/MySql/Schema.antt =====
-- internal/challenge/mysql.go: what CheckSchema wants of the database. The columns are looked up by
-- their names; the source goes through the expected ones in any order, here it is that of the list.
use goedge_ip_cert.Prelude.{
  ℕ, String, Bool, true, false, not, ◌&&◌, ◌||◌, Option, none, some, List, [], ◌∷◌, length, ◌==◌,
  ◌=s=◌, if◌then◌else◌,
}
use goedge_ip_cert.Error.{Error, known, wrapped, schema_mismatch}
use goedge_ip_cert.Action.{Action, fail, on_option, refuse_if, wrap_error, ◌>>=◌, ◌>>◌}
use goedge_ip_cert.Ipv4.{codes}
use goedge_ip_cert.Text.{mentions, starts_lower, equals_lower, equal_fold}

-- columnInfo
pub record ColumnInfo : Type 0 where
  pub name : String
  pub data_type : String
  pub column_type : String
  pub nullable : String
  pub default_value : Option String
  pub extra : String

pub record IndexInfo : Type 0 where
  pub name : String
  pub non_unique : ℕ
  pub sequence : ℕ
  pub column : String

pub record TableInfo : Type 0 where
  pub engine : Option String
  pub collation : Option String

-- The database's answers; `table` is none for sql.ErrNoRows.
pub record SchemaReader (X : Type 0) : Type 0 where
  pub database_name : String
  pub ping : Action X (Unit {0})
  pub current_database : Action X (Option String)
  pub table : Action X (Option TableInfo)
  pub columns : Action X (List ColumnInfo)
  pub indexes : Action X (List IndexInfo)

-- What CheckSchema expects of a column: an empty text expects nothing.
pub record Expected : Type 0 where
  pub name : String
  pub data_type : String
  pub contains : String
  pub nullable : String
  pub extra : String
  pub max_length : String
  pub default0 : Bool

abbrev pub id_expected : Expected
id_expected = record {
  name = "id";
  data_type = "bigint";
  contains = "unsigned";
  nullable = "NO";
  extra = "auto_increment";
  max_length = "";
  default0 = false;
}

abbrev pub counter : String → Expected
counter name = record {
  name = name;
  data_type = "bigint";
  contains = "unsigned";
  nullable = "YES";
  extra = "";
  max_length = "";
  default0 = true;
}

abbrev pub varchar : String → String → Expected
varchar name type = record {
  name = name;
  data_type = "varchar";
  contains = "";
  nullable = "YES";
  extra = "";
  max_length = type;
  default0 = false;
}

abbrev pub expected_columns : List Expected
expected_columns =
    id_expected
    ∷ counter "taskId"
    ∷ varchar "domain" "varchar(255)"
    ∷ varchar "token" "varchar(255)"
    ∷ varchar "key" "varchar(1024)"
    ∷ counter "createdAt"
    ∷ []

-- columns[column.name] = column
unfoldable pub put_column : ColumnInfo → List ColumnInfo → List ColumnInfo
put_column column [] = column ∷ []
put_column column (c ∷ columns) =
    let rest = put_column column columns in
    if c.name =s= column.name then column ∷ columns else c ∷ rest

unfoldable pub column_map : List ColumnInfo → List ColumnInfo → List ColumnInfo
unfolding put_column
column_map done [] = done
column_map done (column ∷ columns) = column_map (put_column column done) columns

unfoldable pub find_column : String → List ColumnInfo → Option ColumnInfo
find_column name [] = none
find_column name (column ∷ columns) =
    let rest = find_column name columns in if column.name =s= name then some column else rest

unfoldable pub is_zero : Option String → Bool
is_zero none = false
is_zero (some value) = value =s= "0"

unfoldable pub fits : Expected → ColumnInfo → Bool
unfolding is_zero mentions equals_lower
fits want got =
    got.data_type =s= want.data_type
    && got.nullable =s= want.nullable
    && (want.contains =s= "" || mentions (codes want.contains) (codes got.column_type))
    && (want.max_length =s= "" || equals_lower (codes want.max_length) (codes got.column_type))
    && (want.extra =s= "" || mentions (codes want.extra) (codes got.extra))
    && (not want.default0 || is_zero got.default_value)

unfoldable pub fits_one : List ColumnInfo → Expected → Bool
unfolding fits find_column
fits_one columns want = on_option (find_column want.name columns) false (λ got. fits want got)

unfoldable pub fits_all : List ColumnInfo → List Expected → Bool
unfolding fits_one
fits_all columns [] = true
fits_all columns (want ∷ wants) = fits_one columns want && fits_all columns wants

unfoldable pub has_primary_id : List IndexInfo → Bool
has_primary_id [] = false
has_primary_id (i ∷ indexes) =
    i.name =s= "PRIMARY" && i.non_unique == 0 && i.sequence == 1 && i.column =s= "id"
    || has_primary_id indexes

unfoldable pub has_token_index : List IndexInfo → Bool
has_token_index [] = false
has_token_index (i ∷ indexes) = i.column =s= "token" && i.sequence == 1 || has_token_index indexes

unfoldable pub is_current : String → Option String → Bool
is_current name none = false
is_current name (some database) = database =s= name

unfoldable pub is_innodb_utf8mb4 : TableInfo → Bool
unfolding equal_fold starts_lower
is_innodb_utf8mb4 info =
    on_option info.engine false (λ engine. equal_fold (codes "innodb") (codes engine))
    && on_option info.collation false
        (λ collation. starts_lower (codes "utf8mb4_") (codes collation))

abbrev mismatch : String → Error
mismatch what = wrapped what (known schema_mismatch)

module _ {X : Type 0} (reader : SchemaReader X) where
  -- CheckSchema from the ping to the indexes
  unfoldable pub inspect : Action X (Unit {0})
  unfolding is_current is_innodb_utf8mb4 column_map fits_all has_primary_id has_token_index
  inspect = do
    wrap_error (wrapped "challenge DB ping") reader.ping
    current ← wrap_error (wrapped "read the current database") reader.current_database
    refuse_if (not (is_current reader.database_name current)) (mismatch "current database")
    table ← wrap_error (wrapped "read challenge table metadata") reader.table
    on_option table (fail (mismatch "the table does not exist"))
        λ info. refuse_if (not (is_innodb_utf8mb4 info)) (mismatch "InnoDB and utf8mb4")
    rows ← wrap_error (wrapped "read challenge columns") reader.columns
    let columns = column_map [] rows
    refuse_if (not (length columns == 6)) (mismatch "number of columns")
    refuse_if (not (fits_all columns expected_columns)) (mismatch "a column")
    indexes ← wrap_error (wrapped "read challenge indexes") reader.indexes
    refuse_if (not (has_primary_id indexes) || not (has_token_index indexes)) (mismatch "an index")
