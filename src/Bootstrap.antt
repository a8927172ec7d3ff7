-- ===== src/Bootstrap.antt =====
-- internal/bootstrap/database.go: making the database user of the program, with the least privileges, and
-- the file of its DSN. MySQL, the files and the random bytes are parameters; a file is written by a rename
-- at the end, so that a failure leaves the old one.
pub mod Grants
pub mod Cleanup
use Prim.Native.Char.{code}
use goedge_ip_cert.Prelude.{
  ℕ, ◌-◌, String, ◌<>◌, Bool, true, false, not, ◌&&◌, ◌||◌, Option, none, some, List, [], ◌∷◌, leb,
  ◌==◌, ◌=s=◌, if◌then◌else◌,
}
use goedge_ip_cert.Prelude.Int.{ℤ, pos, eq_ℤ}
use goedge_ip_cert.Error.{Error, message, wrapped}
use goedge_ip_cert.Action.{
  Result, Action, ok, err, pass, fail, attempt, on, on_option, refuse_if, wrap_error, lift_option,
  ◌>>=◌, ◌>>◌,
}
use goedge_ip_cert.Security.Secret.{FileInfo, trim_space}
use goedge_ip_cert.Config.{Net, is_local_host}

-- GoEdgeDBConfig; `host_name` is what net.SplitHostPort finds in Host.
pub record GoEdgeDbConfig : Type 0 where
  pub user : String
  pub password : String
  pub host : String
  pub database : String
  pub host_name : Option String

-- What the program leaves on the machine: the file of the DSN, the file of the database's name, and
-- whether MySQL has the user; and the outside.
pub record Machine (X : Type 0) : Type 0 where
  pub credential : Option String
  pub database_file : Option String
  pub has_user : Bool
  pub outside : X

pub record Calls (X : Type 0) : Type 0 where
  pub net : Net
  -- os.Stat of the credential, where it fails for another reason than a missing file
  pub stat_fault : X → Option Error × X
  pub lstat : Action X FileInfo
  pub on_windows : Bool
  -- os.ReadFile with yaml.Unmarshal
  pub read_config : Action X GoEdgeDbConfig
  -- sql.Open and PingContext as the administrator
  pub connect_admin : GoEdgeDbConfig → Action X (Unit {0})
  pub table_count : String → Action X ℤ
  -- base64 of 32 random bytes
  pub random_password : Action X String
  pub query_fault : X → Option Error × X
  pub exec_fault : String → X → Option Error × X
  -- os.ReadFile(outputPath)
  pub read_fault : X → Option Error × X
  pub write_fault : X → Option Error × X
  pub remove_fault : X → Option Error × X
  pub connect : String → Action X (Unit {0})
  pub show_grants : Action X (List String)
  pub parse_database : String → Option String
  pub format_dsn : GoEdgeDbConfig → String → String
  -- passwordSuffix.ReplaceAllString(grant, "")
  pub drop_password : String → String

is_word : ℕ → Bool
is_word c =
    leb b'A' c && leb c b'Z' || leb b'a' c && leb c b'z' || leb b'0' c && leb c b'9' || c == b'_'

all_word : Bool → String → Bool
unfolding is_word
all_word dash String.[] = true
all_word dash (String.◌∷◌ c s) = (is_word (code c) || dash && code c == b'-') && all_word dash s

-- identifierPattern
unfoldable pub is_identifier : String → Bool
unfolding all_word
is_identifier s = not (s =s= "") && all_word false s

unfoldable pub is_url_safe : String → Bool
unfolding all_word
is_url_safe s = not (s =s= "") && all_word true s

abbrev pub account : String
account = "'goedge_ip_cert'@'127.0.0.1'"

unfoldable pub least_grant : String → String
least_grant database =
    "GRANT SELECT, INSERT, DELETE ON `" <> database <> "`.`edgeACMEAuthentications` TO " <> account

-- LeastPrivilegeSQL
unfoldable pub least_privilege_sql : String → String → Result (String × String)
unfolding is_identifier is_url_safe least_grant
least_privilege_sql database password =
    if not (is_identifier database) || not (is_url_safe password)
    then err (message "the name of the database or the password is unsafe")
    else ok
        ("CREATE USER " <> account <> " IDENTIFIED BY '" <> password <> "'", least_grant database)

-- strings.ToUpper, as far as its result is one of the letters of the prefix below.
abbrev pub to_upper : ℕ → ℕ
to_upper c = if leb b'a' c && leb c b'z' then c - 32 else if c == 0x17f then b'S' else c

unfoldable pub has_upper_prefix : String → String → Bool
has_upper_prefix String.[] s = true
has_upper_prefix (String.◌∷◌ a p) String.[] = false
has_upper_prefix (String.◌∷◌ a p) (String.◌∷◌ c s) =
    code a == to_upper (code c) && has_upper_prefix p s

unfoldable pub is_usage : String → Bool
unfolding has_upper_prefix trim_space
is_usage grant = has_upper_prefix "GRANT USAGE ON *.* TO " (trim_space grant)

module _ {X : Type 0} (calls : Calls X) where
  unfoldable pub clean_grant : String → String
  unfolding trim_space
  clean_grant grant = calls.drop_password (trim_space grant)

  -- The loop of ExactLeastPrivilegeGrants
  unfoldable pub grants_from : Bool → List String → String → Bool
  unfolding clean_grant is_usage least_grant
  grants_from found [] database = found
  grants_from found (grant ∷ grants) database =
      let skipped = grants_from found grants database in
      let wanted = grants_from true grants database in
      if is_usage (clean_grant grant)
      then skipped
      else if clean_grant grant =s= least_grant database
      then wanted
      else false

  unfoldable pub exact_grants : List String → String → Bool
  unfolding grants_from
  exact_grants grants database = grants_from false grants database

  unfoldable pub step : {A : Type 0} → Action X A → Action (Machine X) A
  step m s = let (r, x) = m s.outside in (r, record s { outside = x })

  unfoldable pub faulty : (X → Option Error × X) → Action (Machine X) (Unit {0})
  unfolding lift_option
  faulty f s = let (o, x) = f s.outside in lift_option o (record s { outside = x })

  unfoldable pub get : Action (Machine X) (Machine X)
  get s = (ok s, s)

  unfoldable pub set_credential : Option String → Action (Machine X) (Unit {0})
  set_credential text s = (ok tt, record s { credential = text })

  unfoldable pub set_database_file : String → Action (Machine X) (Unit {0})
  set_database_file text s = (ok tt, record s { database_file = some text })

  unfoldable pub set_user : Bool → Action (Machine X) (Unit {0})
  set_user has s = (ok tt, record s { has_user = has })

  unfoldable pub write_private : String → Action (Machine X) (Unit {0})
  unfolding faulty set_credential
  write_private text = do faulty calls.write_fault; set_credential (some text)

  unfoldable pub write_public : String → Action (Machine X) (Unit {0})
  unfolding faulty set_database_file
  write_public text = do faulty calls.write_fault; set_database_file text

  -- os.Remove(outputPath), whose error is ignored
  unfoldable pub remove_credential : Action (Machine X) (Unit {0})
  unfolding faulty set_credential
  remove_credential = do attempt (faulty calls.remove_fault >> set_credential none); pass tt

  -- The deferred DROP USER, whose error is ignored
  unfoldable pub drop_user : Action (Machine X) (Unit {0})
  unfolding faulty set_user
  drop_user = do attempt (faulty (calls.exec_fault "DROP USER") >> set_user false); pass tt

  unfoldable pub verify_runtime_dsn : String → Action (Machine X) (Unit {0})
  unfolding step exact_grants
  verify_runtime_dsn dsn = do
    step (calls.connect dsn)
    grants ← step calls.show_grants
    refuse_if
        (not
          (on_option (calls.parse_database dsn) false (λ database. exact_grants grants database)))
        (message "the database user has not the least privileges")

  -- verifyExistingRuntimeDSN, and the database's name from the DSN
  unfoldable pub keep_existing : Bool → String → Action (Machine X) (Unit {0})
  unfolding verify_runtime_dsn write_public step trim_space faulty
  keep_existing with_database text = do
    info ← step calls.lstat
    refuse_if (not info.is_regular || not calls.on_windows && info.is_shared)
        (message "the mode of the credential is unsafe")
    faulty calls.read_fault
    verify_runtime_dsn (trim_space text)
    if with_database
        then (do
          faulty calls.read_fault
          on_option (calls.parse_database (trim_space text)) (fail (message "the DSN"))
              (λ database. write_public (database <> "\n")))
        else pass tt

  -- LoadGoEdgeDBConfig
  unfoldable pub load_db_config : Action (Machine X) GoEdgeDbConfig
  unfolding step is_identifier is_local_host
  load_db_config = do
    config ← wrap_error (wrapped "read the GoEdge DB configuration") (step calls.read_config)
    refuse_if
        (config.user =s= ""
          || config.password =s= ""
          || config.host =s= ""
          || not (is_identifier config.database))
        (message "the GoEdge DB configuration is incomplete")
    refuse_if (not (on_option config.host_name false (λ host. is_local_host calls.net host)))
        (message "the GoEdge DB must be at a loopback address")
    pass config

  -- From the written credential on: it is removed when one of the last steps fails.
  unfoldable pub confirm_credential : Bool → GoEdgeDbConfig → String → Action (Machine X) (Unit {0})
  unfolding verify_runtime_dsn write_public remove_credential
  confirm_credential with_database config dsn = do
    verified ← attempt (verify_runtime_dsn dsn)
    on verified
        (λ _.
          if with_database
          then (do
            written ← attempt (write_public (config.database <> "\n"))
            on written (λ _. pass tt) (λ e. do remove_credential; fail e))
          else pass tt)
        (λ e. do remove_credential; fail e)

  -- From the GRANT on.
  unfoldable pub grant_and_write : Bool → GoEdgeDbConfig → String → Action (Machine X) (Unit {0})
  unfolding write_private confirm_credential faulty
  grant_and_write with_database config password = do
    faulty (calls.exec_fault "GRANT")
    write_private (calls.format_dsn config password <> "\n")
    confirm_credential with_database config (calls.format_dsn config password)

  -- From the CREATE USER on: the user is dropped when a later step fails.
  unfoldable pub create_runtime_user :
      Bool → GoEdgeDbConfig → String → Action (Machine X) (Unit {0})
  unfolding grant_and_write drop_user faulty set_user
  create_runtime_user with_database config password = do
    faulty (calls.exec_fault "CREATE USER")
    set_user true
    done ← attempt (grant_and_write with_database config password)
    on done (λ _. pass tt) (λ e. do drop_user; fail e)

  unfoldable pub initialize_new : Bool → Action (Machine X) (Unit {0})
  unfolding load_db_config least_privilege_sql create_runtime_user faulty step get
  initialize_new with_database = do
    config ← load_db_config
    step (calls.connect_admin config)
    count ← step (calls.table_count config.database)
    refuse_if (not (eq_ℤ count (pos 1))) (message "the challenge table is missing")
    faulty calls.query_fault
    machine ← get
    refuse_if machine.has_user (message "the database user exists without a credential")
    password ← step calls.random_password
    on (least_privilege_sql config.database password)
        (λ _. create_runtime_user with_database config password) (λ e. fail e)

  -- InitializeDatabase; `with_database` says whether there is a path for the database's name.
  unfoldable pub initialize_database : Bool → Action (Machine X) (Unit {0})
  unfolding keep_existing initialize_new faulty get
  initialize_database with_database = do
    faulty calls.stat_fault
    machine ← get
    on_option machine.credential (initialize_new with_database)
        (λ text. keep_existing with_database text)
