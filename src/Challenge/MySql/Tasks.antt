-- ===== src/Challenge/MySql/Tasks.antt =====
-- The provider of internal/challenge/provider.go over the table of internal/challenge/mysql.go. The
-- journal, the hook and the clock belong to the outside of the table.
use goedge_ip_cert.Prelude.{◌≡◌, refl, String, List, [], ◌∷◌}
use goedge_ip_cert.Prelude.Int.{ℤ}
use goedge_ip_cert.Error.{Error}
use goedge_ip_cert.Action.{Action}
use goedge_ip_cert.Action.Keeps.{Keeps, Keeps-bind, keeps_rules}
use goedge_ip_cert.Challenge.Model.{Challenge, Pending, Journal}
use goedge_ip_cert.Challenge.Provider.{
  Provider, present, undo_create, clean_up, resolve_owned, one_row, recover_one, recover_all,
  recover,
}
use goedge_ip_cert.Challenge.MySql.{Server, Table, outside_step, mysql_store}
use goedge_ip_cert.Challenge.MySql.Ownership.{
  foreign, Untouched, step-Untouched, create-Untouched, remove-Untouched, find_owned-Untouched,
}

abbrev pub on_table : {X : Type 0} → Journal X → Journal (Table X)
on_table j = record {
  begin_challenge = λ p. outside_step (j.begin_challenge p);
  set_challenge_row_id = λ p id. outside_step (j.set_challenge_row_id p id);
  pending_challenge = λ id domain token. outside_step (j.pending_challenge id domain token);
  list_pending_challenges = outside_step j.list_pending_challenges;
  complete_challenge = λ p. outside_step (j.complete_challenge p);
}

abbrev pub provider :
    {X : Type 0}
    → Server X
    → String
    → Journal X
    → (String → Action X (Unit {0}))
    → Action X ℤ
    → Provider (Table X)
provider db id j hook now = record {
  operation_id = id;
  store = mysql_store db;
  journal = on_table j;
  hook = λ point. outside_step (hook point);
  unix_now = outside_step now;
}

module _ {X : Type 0} (db : Server X) (j : Journal X) (rows : List Challenge) where
  one-Untouched : (found : List Challenge) → Keeps (Untouched {X = X} rows) (one_row found)
  one-Untouched [] = search keeps_rules
  one-Untouched (row ∷ []) = search keeps_rules
  one-Untouched (row ∷ _ ∷ _) = search keeps_rules

  resolve-Untouched : (p : Pending) → Keeps (Untouched rows) (resolve_owned (mysql_store db) p)
  unfolding resolve_owned
  resolve-Untouched p = search (keeps_rules, one-Untouched, find_owned-Untouched db rows)

  one_recovered-Untouched :
      (p : Pending) → Keeps (Untouched rows) (recover_one (mysql_store db) (on_table j) p)
  unfolding recover_one
  one_recovered-Untouched p =
      search (keeps_rules, resolve-Untouched, remove-Untouched db rows, step-Untouched rows) depth
        12

  all_recovered-Untouched :
      (ps : List Pending) → Keeps (Untouched rows) (recover_all (mysql_store db) (on_table j) ps)
  unfolding recover_all
  all_recovered-Untouched [] = search keeps_rules
  all_recovered-Untouched (p ∷ ps) =
      Keeps-bind _ _ (one_recovered-Untouched p) λ _. all_recovered-Untouched ps

  recover-Untouched : Keeps (Untouched rows) (recover (mysql_store db) (on_table j))
  unfolding recover
  recover-Untouched = Keeps-bind _ _ (step-Untouched rows _) λ ps. all_recovered-Untouched ps

  module _ (id : String) (hook : String → Action X (Unit {0})) (now : Action X ℤ) where
    clean_up-Untouched :
        (domain token : String)
        → Keeps (Untouched rows) (clean_up (provider db id j hook now) domain token)
    unfolding clean_up
    clean_up-Untouched domain token =
        search (keeps_rules, resolve-Untouched, remove-Untouched db rows, step-Untouched rows) depth
          12

    undo-Untouched :
        (p : Pending) (c : Challenge) (e : Error)
        → Keeps (Untouched rows) (undo_create (provider db id j hook now) p c e)
    unfolding undo_create
    undo-Untouched p c e =
        search (keeps_rules, remove-Untouched db rows, step-Untouched rows) depth 12

    present-Untouched :
        (domain token key : String)
        → Keeps (Untouched rows) (present (provider db id j hook now) domain token key)
    unfolding present
    present-Untouched domain token key =
        search (keeps_rules, create-Untouched db rows, undo-Untouched, step-Untouched rows) depth 14

-- Whatever the database, the journal and the crash hook answer, presenting a challenge, cleaning it up,
-- and recovering what a crash left behind leave the rows of other tasks in the table as they were and
-- in their order.
pub other_tasks_untouched :
    {X : Type 0} (db : Server X) (j : Journal X) (id : String) (hook : String → Action X (Unit {0}))
    (now : Action X ℤ) (domain token key : String) (t : Table X)
    → (foreign (present (provider db id j hook now) domain token key t).1.rows ≡ foreign t.rows)
      × (foreign (clean_up (provider db id j hook now) domain token t).1.rows ≡ foreign t.rows)
      × (foreign (recover (mysql_store db) (on_table j) t).1.rows ≡ foreign t.rows)
other_tasks_untouched db j id hook now domain token key t =
    let rows = foreign t.rows in
    (
      (present-Untouched db j rows id hook now domain token key).at t refl,
      (clean_up-Untouched db j rows id hook now domain token).at t refl,
      (recover-Untouched db j rows).at t refl,
    )
