-- ===== src/Examples/Accounts.antt =====
-- The statements about internal/acme/account.go, with keys that are numbers and metadata that are texts.
use goedge_ip_cert.Prelude.{ℕ, String, true, false, none, some}
use goedge_ip_cert.Action.{ok}
use goedge_ip_cert.Action.Ends.{Outcome}
use goedge_ip_cert.Acme.{PrivateFile, Directory, Calls, load_or_create}
use goedge_ip_cert.Acme.Files.{IsTorn, HasFiles, Never, load_or_create-IsTorn}

abbrev openssl : Calls (Unit {0}) ℕ String
openssl = record {
  on_windows = false;
  mkdir_fault = λ x. (none, x);
  chmod_fault = λ x. (none, x);
  read_fault = λ x. (none, x);
  write_fault = λ x. (none, x);
  sync_fault = λ x. (none, x);
  generate_key = λ x. (ok 7, x);
  encode_key = λ k. ok "PEM";
  decode_pem = λ text. some "DER";
  parse_pkcs8 = λ der. some 7;
  is_signer = λ k. true;
  encode_meta = λ a. ok "{}";
  decode_meta = λ text. some (record {
    email = "a@example.com";
    directory_url = "https://acme";
    registration = none;
    private_key = none;
  });
}

abbrev key_file : PrivateFile
key_file = record { text = "PEM"; info = record { is_regular = true; is_shared = false } }

abbrev key_only : Directory (Unit {0})
key_only = record { key_file = some key_file; meta_file = none; outside = tt }

load_or_create-IsTorn_example :
    Outcome Never
      (HasFiles (some key_file) none)
      (load_or_create openssl "a@example.com" "https://acme" key_only)
unfolding IsTorn
load_or_create-IsTorn_example =
    load_or_create-IsTorn openssl "a@example.com" "https://acme" key_only tt
