-- ===== src/Examples/Commands.antt =====
-- The statements about internal/config and cmd/goedge-ip-cert at the configuration of the examples.
use goedge_ip_cert.Prelude.{◌+◌, ◌≤◌, ◌≡◌, refl, true, false, none, some}
use goedge_ip_cert.Prelude.Int.{pos, ◌*ℤ◌}
use goedge_ip_cert.Action.{ok, ◌>>=◌}
use goedge_ip_cert.Ipv4.{parse_public}
use goedge_ip_cert.Security.Secret.{SecretRef}
use goedge_ip_cert.Security.Redact.{has_prefix}
use goedge_ip_cert.Config.{
  Config, Net, load, validate, set_defaults, accepts_endpoint, accepts_url, is_local_host,
  accepts_goedge, accepts_acme, accepts_schedule, is_abs, lets_encrypt_production,
}
use goedge_ip_cert.Config.Accepted.{Accepted, WithDefaults, load-Accepted}
use goedge_ip_cert.Lock.{granted}
use goedge_ip_cert.Lifecycle.Sent.{orders}
use goedge_ip_cert.Command.{
  Setup, RunFlags, Dsn, run_once_command, validate_dsn, is_local_database, is_unsafe,
}
use goedge_ip_cert.Command.Safety.{LocalDsn, orders-run_once_command, validate_dsn-LocalDsn}
use goedge_ip_cert.Examples.{calm, world}

abbrev secret : SecretRef
secret = record { file = "/etc/goedge-ip-cert/secret"; env = "" }

-- The schedule is left to the defaults.
abbrev written : Config
written = record {
  version = pos 1;
  ipv4 = "8.8.8.8";
  goedge = record {
    endpoint = "http://127.0.0.1:8004";
    identity_type = "admin";
    access_key_id = secret;
    access_key = secret;
    request_timeout = pos 0;
  };
  database = record { name = "db_edge"; dsn = secret };
  acme = record {
    directory_url = lets_encrypt_production;
    email = "admin";
    account_dir = "/var/lib/goedge-ip-cert/acme";
  };
  state_path = "/var/lib/goedge-ip-cert/state.db";
  schedule = record {
    renew_before = pos 0;
    retry_min = pos 0;
    retry_max = pos 0;
    jitter_max = pos 0;
  };
}

abbrev net : Net
net = record {
  parse_url = λ s. some (record {
    scheme = "http";
    host = "127.0.0.1:8004";
    hostname = "127.0.0.1";
    has_user = false;
    raw_query = "";
    fragment = "";
  });
  is_loopback = λ host. some true;
}

is_loaded : (load net (λ (x : Unit {0}). (ok written, x)) tt).0 ≡ ok (set_defaults written)
unfolding load validate accepts_endpoint accepts_url is_local_host accepts_goedge accepts_acme
    accepts_schedule is_abs parse_public has_prefix ◌*ℤ◌ ◌>>=◌
is_loaded = refl

load-Accepted_example :
    Accepted net (set_defaults written)
    × ((decoded : Config) × (ok written ≡ ok decoded) × WithDefaults decoded (set_defaults written))
load-Accepted_example =
    load-Accepted net (λ (x : Unit {0}). (ok written, x)) tt (set_defaults written) is_loaded

abbrev dsn : Dsn
dsn = record {
  db_name = "db_edge";
  multi_statements = false;
  allow_all_files = false;
  allow_cleartext_passwords = false;
  net = "tcp";
  addr = "127.0.0.1:3306";
  host = some "127.0.0.1";
}

is_valid :
    validate_dsn net (λ s. some dsn) "user:password@tcp(127.0.0.1:3306)/db_edge" "db_edge" ≡ none
unfolding validate_dsn is_local_database is_unsafe is_local_host
is_valid = refl

validate_dsn-LocalDsn_example : LocalDsn net "db_edge" (some dsn)
validate_dsn-LocalDsn_example =
    validate_dsn-LocalDsn net (λ s. some dsn) "user:password@tcp(127.0.0.1:3306)/db_edge" "db_edge"
      is_valid

abbrev setup : Setup (Unit {0})
setup = record {
  net = net;
  secrets = record {
    lookup_env = λ name x. (ok none, x);
    lstat = λ file x. (ok (record { is_regular = true; is_shared = false }), x);
    read_file = λ file x. (ok "secret", x);
    on_windows = false;
  };
  lock = record {
    mkdir_all = λ path x. (ok tt, x);
    chmod = λ path x. (ok tt, x);
    open_no_follow = λ path x. (ok tt, x);
    flock = λ path x. (ok granted, x);
  };
  read_config = λ path x. (ok written, x);
  parse_dsn = λ s. some dsn;
  open_state = λ path s. (ok tt, s);
  new_client = λ endpoint x. (ok tt, x);
  open_account = λ dir email url x. (ok "account", x);
  open_rollbacks = λ path x. (ok tt, x);
}

abbrev flags : RunFlags
flags = record { apply = true; timer = true; manual_retry = false }

orders-run_once_command_example :
    orders (run_once_command calm setup "config.yaml" flags world).1.sent ≤ 1 + orders world.sent
orders-run_once_command_example = orders-run_once_command calm setup "config.yaml" flags world

abbrev no_flags : RunFlags
no_flags = record { apply = false; timer = false; manual_retry = false }
