-- ===== src/Examples/Rows.antt =====
-- The statements about internal/challenge/mysql.go at a table with one row of another task.
use goedge_ip_cert.Prelude.{◌≡◌, refl, String, true, false, none, some, [], ◌∷◌, ◌=s=◌, eq_refl}
use goedge_ip_cert.Prelude.Int.{pos, ◌+ℤ◌}
use goedge_ip_cert.Action.{ok, ◌>>=◌}
use goedge_ip_cert.Text.{mentions, equals_lower, equal_fold, starts_lower}
use goedge_ip_cert.Challenge.Model.{Challenge, Pending, Journal}
use goedge_ip_cert.Challenge.Provider.{present, clean_up, recover}
use goedge_ip_cert.Challenge.MySql.{
  Server, Table, create, remove, check_schema, mysql_store, require_checked, is_unfit, is_too_long,
  creation_time, outside_fault, insert_row, outside_step, get_table, set_checked,
}
use goedge_ip_cert.Challenge.MySql.Schema.{
  SchemaReader, ColumnInfo, inspect, is_current, is_innodb_utf8mb4, column_map, put_column,
  fits_all, fits_one, fits, find_column, is_zero, has_primary_id, has_token_index,
}
use goedge_ip_cert.Security.Redact.{byte_length}
use goedge_ip_cert.Challenge.MySql.Ownership.{foreign}
use goedge_ip_cert.Challenge.MySql.Tasks.{provider, on_table, other_tasks_untouched}
use goedge_ip_cert.Challenge.MySql.RoundTrip.{remove-create}
use goedge_ip_cert.Challenge.MySql.Guard.{check_schema-Acceptable}
use goedge_ip_cert.Challenge.MySql.Guard.Columns.{Acceptable}

abbrev column : String → String → String → String → ColumnInfo
column name data_type column_type nullable = record {
  name = name;
  data_type = data_type;
  column_type = column_type;
  nullable = nullable;
  default_value = some "0";
  extra = "AUTO_INCREMENT";
}

abbrev reader : SchemaReader (Unit {0})
reader = record {
  database_name = "db_edge";
  ping = λ x. (ok tt, x);
  current_database = λ x. (ok (some "db_edge"), x);
  table = λ x. (ok (some (record { engine = some "InnoDB"; collation = some "utf8mb4_bin" })), x);
  columns = λ x. (
    ok (
        column "id" "bigint" "bigint(20) unsigned" "NO"
        ∷ column "taskId" "bigint" "bigint(20) unsigned" "YES"
        ∷ column "domain" "varchar" "varchar(255)" "YES"
        ∷ column "token" "varchar" "varchar(255)" "YES"
        ∷ column "key" "varchar" "varchar(1024)" "YES"
        ∷ column "createdAt" "bigint" "bigint(11) unsigned" "YES"
        ∷ []),
    x,
  );
  indexes = λ x. (
    ok (
        record { name = "PRIMARY"; non_unique = 0; sequence = 1; column = "id" }
        ∷ record { name = "token"; non_unique = 1; sequence = 1; column = "token" }
        ∷ []),
    x,
  );
}

abbrev db : Server (Unit {0})
db = record {
  schema = reader;
  exec_fault = λ x. (none, x);
  result_fault = λ x. (none, x);
  same_text = λ s t. s =s= t;
  unix_now = λ x. (pos 50, x);
}

abbrev other : Challenge
other = record {
  id = pos 1;
  task_id = pos 9;
  domain = "8.8.4.4";
  token = "other";
  key = "key";
  created_at = pos 10;
}

abbrev item : Challenge
item = record {
  id = pos 0;
  task_id = pos 0;
  domain = "8.8.8.8";
  token = "token";
  key = "key";
  created_at = pos 40;
}

abbrev created : Challenge
created = record item { id = pos 2 }

abbrev table : Table (Unit {0})
table = record { checked = true; rows = other ∷ []; next_id = pos 2; outside = tt }

abbrev unchecked : Table (Unit {0})
unchecked = record table { checked = false }

abbrev pending : Pending
pending = record {
  operation_id = "a";
  domain = "8.8.8.8";
  token = "token";
  row_id = pos 1;
  created_at = pos 40;
}

abbrev journal : Journal (Unit {0})
journal = record {
  begin_challenge = λ p x. (ok tt, x);
  set_challenge_row_id = λ p id x. (ok tt, x);
  pending_challenge = λ id domain token x. (ok pending, x);
  list_pending_challenges = λ x. (ok (pending ∷ []), x);
  complete_challenge = λ p x. (ok tt, x);
}

other_tasks_untouched_example :
    (foreign
        (present
          (provider db "a" journal (λ point x. (ok tt, x)) (λ x. (ok (pos 50), x)))
          "8.8.8.8"
          "token"
          "key"
          table).1.rows
      ≡ foreign table.rows)
    × (foreign
          (clean_up
            (provider db "a" journal (λ point x. (ok tt, x)) (λ x. (ok (pos 50), x)))
            "8.8.8.8"
            "token"
            table).1.rows
        ≡ foreign table.rows)
    × (foreign (recover (mysql_store db) (on_table journal) table).1.rows ≡ foreign table.rows)
other_tasks_untouched_example =
    other_tasks_untouched db journal "a" (λ point x. (ok tt, x)) (λ x. (ok (pos 50), x)) "8.8.8.8"
      "token" "key" table

is_created : (create db item table).0 ≡ ok created
unfolding create is_unfit is_too_long creation_time outside_fault insert_row require_checked
    byte_length ◌+ℤ◌ ◌>>=◌
is_created = refl

remove-create_example :
    ((remove db created (create db item table).1).0 ≡ ok tt)
    × ((remove db created (create db item table).1).1.rows ≡ table.rows)
remove-create_example =
    remove-create db item created table (λ x. refl) (λ x. refl) eq_refl refl is_created

is_accepted : (check_schema db unchecked).0 ≡ ok tt
unfolding check_schema get_table outside_step set_checked inspect is_current is_innodb_utf8mb4
    column_map put_column fits_all fits_one fits find_column is_zero has_primary_id has_token_index
    mentions equals_lower equal_fold starts_lower ◌>>=◌
is_accepted = refl

check_schema-Acceptable_example :
    Acceptable db.schema × ((check_schema db unchecked).1.checked ≡ true)
check_schema-Acceptable_example = check_schema-Acceptable db unchecked refl is_accepted
