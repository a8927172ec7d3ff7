-- ===== src/Command.antt =====
-- cmd/goedge-ip-cert/main.go: the commands validate-config, status and run-once. The parts that only open
-- files, sockets and accounts before a run are parameters: their errors end the command. state.Open is one
-- that may change the tables in any way, as it makes them and brings those of an older version up to date.
pub mod Safety
use goedge_ip_cert.Prelude.{
  String, ◌<>◌, Bool, true, false, not, ◌&&◌, ◌||◌, Option, none, some, List, ◌=s=◌, if◌then◌else◌,
}
use goedge_ip_cert.Error.{Error, message}
use goedge_ip_cert.Action.{
  Result, ok, err, Action, pass, fail, on, on_option, refuse_if, ◌>>=◌, ◌>>◌,
}
use goedge_ip_cert.World.{World, Outside, external}
use goedge_ip_cert.Security.Secret.{Secrets, load_secret}
use goedge_ip_cert.Config.{Config, Net, load, credentials, policy_of, is_local_host}
use goedge_ip_cert.Lock.{LockCalls, acquire}
use goedge_ip_cert.State.Model.{ManagedCert}
use goedge_ip_cert.State.Tables.{Tables}
use goedge_ip_cert.State.Store.{list_managed}
use goedge_ip_cert.Lifecycle.Model.{Runner, RunMode, interactive, timer, manual_first_issue_retry}
use goedge_ip_cert.Lifecycle.Run.{DryRunResult, dry_run, run_once}

-- What mysql.ParseDSN reads; `host` is what net.SplitHostPort finds in the address.
pub record Dsn : Type 0 where
  pub db_name : String
  pub multi_statements : Bool
  pub allow_all_files : Bool
  pub allow_cleartext_passwords : Bool
  pub net : String
  pub addr : String
  pub host : Option String

-- The flags of run-once
pub record RunFlags : Type 0 where
  pub apply : Bool
  pub timer : Bool
  pub manual_retry : Bool

-- What the command opens before a run: config.Load's file, the lock, state.Open, goedge.NewClient, the
-- ACME account with its reference and the issuer, and rollback.NewStore.
pub record Setup (X : Type 0) : Type 0 where
  pub net : Net
  pub secrets : Secrets X
  pub lock : LockCalls X
  pub read_config : String → Action X Config
  pub parse_dsn : String → Option Dsn
  pub open_state : String → Action (Tables × X) (Unit {0})
  pub new_client : String → Action X (Unit {0})
  pub open_account : String → String → String → Action X String
  pub open_rollbacks : String → Action X (Unit {0})

-- The guards of run-once and its choice of the mode.
unfoldable pub run_mode : RunFlags → Result RunMode
run_mode flags =
    if (flags.timer || flags.manual_retry) && not flags.apply
    then err (message "--timer and --manual-first-issue-retry need --apply")
    else if flags.timer && flags.manual_retry
    then err (message "--timer and --manual-first-issue-retry exclude each other")
    else if flags.timer
    then ok timer
    else if flags.manual_retry
    then ok manual_first_issue_retry
    else ok interactive

unfoldable pub is_local_database : Net → Dsn → Bool
unfolding is_local_host
is_local_database net dsn =
    if dsn.net =s= "unix"
    then not (dsn.addr =s= "")
    else if dsn.net =s= "tcp" || dsn.net =s= "tcp4" || dsn.net =s= "tcp6"
    then on_option dsn.host false (λ host. is_local_host net host)
    else false

unfoldable pub is_unsafe : Dsn → Bool
is_unsafe dsn = dsn.multi_statements || dsn.allow_all_files || dsn.allow_cleartext_passwords

-- validateDSN
unfoldable pub validate_dsn : Net → (String → Option Dsn) → String → String → Option Error
unfolding is_local_database is_unsafe
validate_dsn net parse_dsn value database_name =
    on_option (parse_dsn value) (some (message "the MySQL DSN is invalid")) λ dsn.
      if not (dsn.db_name =s= database_name) || dsn.db_name =s= ""
      then some (message "the database of the MySQL DSN")
      else if is_unsafe dsn
      then some (message "the MySQL DSN has forbidden options")
      else if is_local_database net dsn
      then none
      else some (message "MySQL must be local")

abbrev checked : {X : Type 0} → Option Error → Action X (Unit {0})
checked o = on_option o (pass tt) (λ e. fail e)

module _ {X : Type 0} (setup : Setup X) where
  -- the case validate-config of run
  unfoldable pub validate_config : String → Action X (Unit {0})
  unfolding load credentials validate_dsn
  validate_config path = do
    config ← load setup.net (setup.read_config path)
    credentials setup.secrets config.goedge
    dsn ← load_secret setup.secrets config.database.dsn
    checked (validate_dsn setup.net setup.parse_dsn dsn config.database.name)

  -- Loading the configuration, and the lock.
  unfoldable pub lock_run : String → Action X Config
  unfolding load acquire
  lock_run path = do
    config ← load setup.net (setup.read_config path)
    acquire setup.lock (config.state_path <> ".lock")
    pass config

  -- What follows the opening of the state.
  unfoldable pub open_clients : Config → Action X (Unit {0})
  unfolding load_secret validate_dsn
  open_clients config = do
    dsn ← load_secret setup.secrets config.database.dsn
    checked (validate_dsn setup.net setup.parse_dsn dsn config.database.name)
    setup.new_client config.goedge.endpoint

  unfoldable pub open_tables : String → Action (World X) (Unit {0})
  open_tables path w =
      let (r, s) = setup.open_state path (w.tables, w.outside) in
      (r, record w { tables = s.0; outside = s.1 })

  -- The lock, the state and the clients, which every run needs.
  unfoldable pub prepare_run : String → Action (World X) Config
  unfolding lock_run open_clients open_tables
  prepare_run path = do
    config ← external (lock_run path)
    open_tables config.state_path
    external (open_clients config)
    pass config

  unfoldable pub open_issuer : Config → Action X String
  open_issuer config = do
    reference ←
        setup.open_account config.acme.account_dir config.acme.email config.acme.directory_url
    setup.open_rollbacks config.state_path
    pass reference

-- The runner of a dry run; `complete` adds what --apply needs.
abbrev pub dry_runner : Config → RunMode → Runner
dry_runner config mode = record {
  has_state = true;
  has_challenges = true;
  has_edge = true;
  has_issuer = false;
  has_rollbacks = false;
  has_tls = false;
  schedule = policy_of config.schedule;
  account_reference = "";
  mode = mode;
}

abbrev pub complete : Runner → String → Runner
complete r reference = record r {
  has_issuer = true;
  has_rollbacks = true;
  has_tls = true;
  account_reference = reference;
}

pub data Output : Type 0 where
  dry : DryRunResult → Output
  done : Output

module _ {X : Type 0} (o : Outside X) (setup : Setup X) where
  unfoldable pub apply_run : Config → RunMode → Action (World X) Output
  unfolding open_issuer
  apply_run config mode = do
    reference ← external (open_issuer setup config)
    run_once o (complete (dry_runner config mode) reference) config.ipv4
    pass done

  unfoldable pub look_run : Config → RunMode → Action (World X) Output
  look_run config mode = do
    result ← dry_run o (dry_runner config mode) config.ipv4
    pass (dry result)

  -- runOnce
  unfoldable pub run_command : String → Bool → RunMode → Action (World X) Output
  unfolding prepare_run apply_run look_run
  run_command path apply mode = do
    config ← prepare_run setup path
    if apply then apply_run config mode else look_run config mode

  -- the case run-once of run
  unfoldable pub run_once_command : String → RunFlags → Action (World X) Output
  unfolding run_mode run_command
  run_once_command path flags =
      on (run_mode flags) (λ mode. run_command path flags.apply mode) (λ e. fail e)

  -- the case status of run
  unfoldable pub status : String → Action (World X) (List ManagedCert)
  unfolding load list_managed open_tables
  status path = do
    config ← external (load setup.net (setup.read_config path))
    open_tables setup config.state_path
    list_managed o
