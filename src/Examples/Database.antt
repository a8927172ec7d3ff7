-- ===== src/Examples/Database.antt =====
-- The statements about internal/bootstrap/database.go at a fresh machine whose MySQL answers a user
-- with too many grants.
use mathlib.Core.Logic.{◌↔◌}
use goedge_ip_cert.Prelude.{◌≡◌, refl, List, String, true, false, none, some, [], ◌∷◌}
use goedge_ip_cert.Prelude.Int.{pos}
use goedge_ip_cert.Action.{ok}
use goedge_ip_cert.Action.Ends.{Outcome}
use goedge_ip_cert.Bootstrap.{Machine, Calls, exact_grants, initialize_database}
use goedge_ip_cert.Bootstrap.Grants.{AllAllowed, SomeGranted, exact_grants_lem}
use goedge_ip_cert.Bootstrap.Cleanup.{On, Clean, Ready, initialize_database-Outcome}

abbrev mysql : Calls (Unit {0})
mysql = record {
  net = record { parse_url = λ s. none; is_loopback = λ s. some true };
  stat_fault = λ x. (none, x);
  lstat = λ x. (ok (record { is_regular = true; is_shared = false }), x);
  on_windows = false;
  read_config = λ x. (
    ok (record {
      user = "root";
      password = "secret";
      host = "127.0.0.1:3306";
      database = "db_edge";
      host_name = some "127.0.0.1";
    }),
    x,
  );
  connect_admin = λ c x. (ok tt, x);
  table_count = λ d x. (ok (pos 1), x);
  random_password = λ x. (ok "Abc_-9", x);
  query_fault = λ x. (none, x);
  exec_fault = λ sql x. (none, x);
  read_fault = λ x. (none, x);
  write_fault = λ x. (none, x);
  remove_fault = λ x. (none, x);
  connect = λ dsn x. (ok tt, x);
  show_grants = λ x. (ok ("GRANT ALL PRIVILEGES ON *.* TO 'goedge_ip_cert'@'127.0.0.1'" ∷ []), x);
  parse_database = λ dsn. some "db_edge";
  format_dsn = λ c p. "dsn";
  drop_password = λ grant. grant;
}

abbrev fresh : Machine (Unit {0})
fresh = record { credential = none; database_file = none; has_user = false; outside = tt }

abbrev new_user_grants : List String
new_user_grants =
    "GRANT USAGE ON *.* TO 'goedge_ip_cert'@'127.0.0.1'"
    ∷ "GRANT SELECT, INSERT, DELETE ON `db_edge`.`edgeACMEAuthentications` TO 'goedge_ip_cert'@'127.0.0.1'"
    ∷ []

exact_grants_lem_example :
    (exact_grants mysql new_user_grants "db_edge" ≡ true)
    ↔ (AllAllowed mysql "db_edge" new_user_grants × SomeGranted mysql "db_edge" new_user_grants)
exact_grants_lem_example = exact_grants_lem mysql "db_edge" new_user_grants

initialize_database-Outcome_example :
    Outcome (On Ready) (On Clean) (initialize_database mysql true fresh)
unfolding On Clean
initialize_database-Outcome_example =
    initialize_database-Outcome mysql true fresh (λ x. refl) (λ x. refl) (refl, refl)
