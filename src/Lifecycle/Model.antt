-- ===== src/Lifecycle/Model.antt =====
-- The Runner of internal/lifecycle/runner.go, its modes, and its functions that call nothing outside.
use goedge_ip_cert.Prelude.{
  String, Bool, true, false, not, ◌||◌, Option, none, some, List, [], ◌∷◌, ◌=s=◌, if◌then◌else◌,
}
use goedge_ip_cert.Prelude.Int.{ℤ, pos, ◌*ℤ◌, not_positive}
use goedge_ip_cert.Error.{
  Error, message, is, authentication, schema_mismatch, certificate_not_bound, multiple_servers,
  server_not_found,
}
use goedge_ip_cert.Certificate.{Verified}
use goedge_ip_cert.GoEdge.Model.{CertificateInput, CertificateConfig}
use goedge_ip_cert.Scheduler
use goedge_ip_cert.Scheduler.{Policy, ErrorCategory, transient, config, auth, schema, security}
use goedge_ip_cert.State.Model.{Operation}
use goedge_ip_cert.World.{unix}

pub data RunMode : Type 0 where
  interactive timer manual_first_issue_retry : RunMode
  -- a value above the constants
  unknown_mode : RunMode

-- Whether the interfaces are set stands beside the plain fields; the interfaces themselves are the
-- `Outside` and the tables.
pub record Runner : Type 0 where
  pub has_state : Bool
  pub has_challenges : Bool
  pub has_edge : Bool
  pub has_issuer : Bool
  pub has_rollbacks : Bool
  pub has_tls : Bool
  pub schedule : Policy
  pub account_reference : String
  pub mode : RunMode

abbrev pub is_timer : RunMode → Bool
is_timer timer = true
is_timer _ = false

abbrev pub is_manual_retry : RunMode → Bool
is_manual_retry manual_first_issue_retry = true
is_manual_retry _ = false

abbrev is_unknown : RunMode → Bool
is_unknown unknown_mode = true
is_unknown _ = false

check_mode : Option Error → RunMode → Option Error
check_mode (some e) mode = some e
check_mode none mode =
    if is_unknown mode then some (message "lifecycle run mode is invalid") else none

unfoldable pub validate : Runner → Option Error
unfolding check_mode
validate r =
    if not r.has_state || not r.has_challenges || not r.has_edge
    then some (message "lifecycle dependencies are incomplete")
    else check_mode (Scheduler.validate r.schedule) r.mode

-- `string(category)`
abbrev pub category_text : ErrorCategory → String
category_text transient = "transient"
category_text config = "config"
category_text auth = "auth"
category_text schema = "schema"
category_text security = "security"

unfoldable pub classify_error : Error → ErrorCategory × String
classify_error e =
    if is e authentication
    then (auth, "fix-goedge-credentials")
    else if is e schema_mismatch
    then (schema, "review-goedge-schema")
    else if is e certificate_not_bound || is e multiple_servers || is e server_not_found
    then (config, "manual-reconciliation")
    else (transient, "retry-integration-step")

-- time.Unix(seconds, 0)
abbrev pub from_unix : ℤ → ℤ
from_unix seconds = seconds *ℤ pos 1_000_000_000

unfoldable pub input_for_operation : Operation → CertificateConfig → Verified → CertificateInput
unfolding unix
input_for_operation op old verified = record {
  id = op.cert_id;
  user_id = op.user_id;
  is_on = old.is_on;
  name = old.name;
  description = old.description;
  server_name = old.server_name;
  is_ca = false;
  cert_data = verified.cert_pem;
  key_data = verified.key_pem;
  time_begin_at = unix verified.not_before;
  time_end_at = unix verified.not_after;
  dns_names = verified.dns_names;
  common_names = verified.common_names;
}

unfoldable pub certificate_input_from_config : CertificateConfig → CertificateInput
certificate_input_from_config cert = record {
  id = cert.id;
  user_id = pos 0;
  is_on = cert.is_on;
  name = cert.name;
  description = cert.description;
  server_name = cert.server_name;
  is_ca = cert.is_ca;
  cert_data = cert.cert_data;
  key_data = cert.key_data;
  time_begin_at = cert.time_begin_at;
  time_end_at = cert.time_end_at;
  dns_names = cert.dns_names;
  common_names = cert.common_names;
}

abbrev is_only : String → List String → Bool
is_only ip (name ∷ []) = name =s= ip
is_only ip _ = false

unfoldable pub validate_managed_certificate : CertificateConfig → String → Option Error
validate_managed_certificate cert ip =
    if not_positive cert.id || cert.is_ca || cert.is_acme
    then some (message "not a certificate that an outside manager may manage")
    else if not (is_only ip cert.dns_names)
    then some (message "SAN metadata differs from the managed IPv4")
    else none

-- CertificateConfig{IsOn: true, Name: op.Marker}
abbrev pub blank_config : String → CertificateConfig
blank_config name = record {
  id = pos 0;
  is_on = true;
  name = name;
  description = "";
  cert_data = [];
  key_data = [];
  server_name = "";
  is_ca = false;
  is_acme = false;
  time_begin_at = pos 0;
  time_end_at = pos 0;
  dns_names = [];
  common_names = [];
}
