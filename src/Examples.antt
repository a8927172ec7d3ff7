-- ===== src/Examples.antt =====
-- Each statement at a concrete input: an outside in which all is well, and one in which TLS answers
-- nothing. The state of the outside is a single value.
mod Schedule
mod Certificates
mod Runs
mod Stores
mod Edge
mod Rows
mod Commands
mod Database
mod Accounts
use goedge_ip_cert.Prelude.{String, true, false, none, List, [], ◌∷◌, if◌then◌else◌, ◌=s=◌}
use goedge_ip_cert.Prelude.Int.{ℤ, pos}
use goedge_ip_cert.Error.{known, message, certificate_not_found}
use goedge_ip_cert.Action.{ok, err}
use goedge_ip_cert.Certificate.{X509, Crypto}
use goedge_ip_cert.GoEdge.Model.{CertificateConfig, ServerTarget, SslPolicy}
use goedge_ip_cert.World.{World, Outside}
use goedge_ip_cert.Scheduler.{Policy, hours}
use goedge_ip_cert.State.Model.{Operation, issue, error}
use goedge_ip_cert.State.Tables.{Tables}
use goedge_ip_cert.Lifecycle.Model.{Runner, timer}

-- The policy of the configuration's example: three days ahead, retries from 15 minutes to six hours.
abbrev pub schedule : Policy
schedule = record {
  renew_before = pos 259_200_000_000_000;
  retry_min = pos 900_000_000_000;
  retry_max = pos 21_600_000_000_000;
  jitter_max = pos 600_000_000_000;
}

abbrev pub leaf : X509
leaf = record {
  raw = 1 ∷ [];
  is_ca = false;
  not_before = pos 10;
  not_after = pos 1000;
  dns_names = [];
  ip_addresses = "8.8.8.8" ∷ [];
  email_addresses = [];
  uris = [];
  issuer_common_name = "CA";
}

abbrev pub issuer : X509
issuer = record leaf { raw = 2 ∷ []; is_ca = true; ip_addresses = [] }

-- Every file holds the same chain, and every signature is right.
abbrev pub crypto : Crypto
crypto = record {
  key_pair = λ cert key. ok (leaf ∷ issuer ∷ []);
  check_signature_from = λ cert by. none;
  parse_first_certificate = λ pem. ok leaf;
  sha256_hex = λ raw. "digest";
}

abbrev pub config : CertificateConfig
config = record {
  id = pos 7;
  is_on = true;
  name = "edge";
  description = "";
  cert_data = 1 ∷ [];
  key_data = 2 ∷ [];
  server_name = "";
  is_ca = false;
  is_acme = false;
  time_begin_at = pos 0;
  time_end_at = pos 0;
  dns_names = "8.8.8.8" ∷ [];
  common_names = [];
}

abbrev pub target : ServerTarget
target = record { id = pos 1; user_id = pos 2; policy_id = pos 3; https_is_on = true }

abbrev pub ssl_policy : SslPolicy
ssl_policy = record { id = pos 3; is_on = true; cert_refs = [] }

abbrev pub calm : Outside (Unit {0})
calm = record {
  now = λ x. (pos 0, x);
  sql_fault = λ x. (none, x);
  file_fault = λ x. (none, x);
  new_operation_id = λ x. (ok "0123456789abcdef0123456789abcdef", x);
  discover_server = λ ip x. (ok target, x);
  policy = λ id x. (ok ssl_policy, x);
  create_certificate = λ input x. (ok (pos 7), x);
  update_certificate = λ input x. (ok tt, x);
  certificate = λ id x. (ok config, x);
  find_certificate_by_marker = λ marker user x. (err (known certificate_not_found), x);
  verify_certificate_bound = λ policy cert x. (ok tt, x);
  obtain = λ id ip s. (ok (record { certificate = 1 ∷ []; private_key = 2 ∷ [] }), s);
  tls_verify = λ ip print x. (ok tt, x);
  hook = λ point x. (none, x);
  challenges = record {
    check_schema = λ x. (ok tt, x);
    create = λ c x. (ok c, x);
    remove = λ c x. (ok tt, x);
    find_owned = λ domain token at x. (ok [], x);
  };
  crypto = crypto;
  digest = λ ip at. 5;
}

abbrev pub unserved : Outside (Unit {0})
unserved = record calm { tls_verify = λ ip print x. (err (message "no handshake"), x) }

-- A first issue that failed.
abbrev pub failed : Operation
failed = record {
  id = "a";
  ipv4 = "8.8.8.8";
  kind = issue;
  stage = error;
  marker = "m";
  server_id = pos 1;
  policy_id = pos 3;
  cert_id = pos 0;
  user_id = pos 2;
  cert_fingerprint = "new";
  expires_at = pos 0;
  error_category = "transient";
  error_message = "";
  recovery_marker = "needs-attention";
  retry_count = pos 1;
  next_retry_at = pos 100;
  created_at = pos 0;
  updated_at = pos 0;
}

abbrev pub tables : Tables
tables = record { operations = failed ∷ []; managed_certs = []; pending_challenges = [] }

abbrev pub world : World (Unit {0})
world = record { tables = tables; rollback_dir = []; sent = []; outside = tt }

abbrev pub runner : Runner
runner = record {
  has_state = true;
  has_challenges = true;
  has_edge = true;
  has_issuer = true;
  has_rollbacks = true;
  has_tls = true;
  schedule = schedule;
  account_reference = "account";
  mode = timer;
}
