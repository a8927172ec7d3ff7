-- ===== src/Config.antt =====
-- internal/config: the configuration file, its defaults and what is accepted. Durations are nanoseconds.
-- YAML, net/url and net.ParseIP are parameters.
pub mod Accepted
use goedge_ip_cert.Prelude.{
  String, Bool, true, false, not, ◌&&◌, ◌||◌, Option, none, some, List, [], ◌∷◌, ◌=s=◌,
  if◌then◌else◌,
}
use goedge_ip_cert.Prelude.Int.{ℤ, pos, eq_ℤ, ltb_ℤ, not_positive, ◌*ℤ◌}
use goedge_ip_cert.Error.{Error, message, wrapped}
use goedge_ip_cert.Action.{
  Result, ok, err, Action, pass, fail, on, on_option, refuse_if, wrap_error, ◌>>=◌, ◌>>◌,
}
use goedge_ip_cert.Ipv4.{codes, parse_public}
use goedge_ip_cert.Security.Secret.{SecretRef, Secrets, load_secret}
use goedge_ip_cert.Security.Redact.{has_prefix}
use goedge_ip_cert.GoEdge.Model.{Credentials}
use goedge_ip_cert.Scheduler.{Policy, hours}

pub record GoEdgeConfig : Type 0 where
  pub endpoint : String
  pub identity_type : String
  pub access_key_id : SecretRef
  pub access_key : SecretRef
  pub request_timeout : ℤ

pub record DatabaseConfig : Type 0 where
  pub name : String
  pub dsn : SecretRef

pub record AcmeConfig : Type 0 where
  pub directory_url : String
  pub email : String
  pub account_dir : String

pub record Schedule : Type 0 where
  pub renew_before : ℤ
  pub retry_min : ℤ
  pub retry_max : ℤ
  pub jitter_max : ℤ

pub record Config : Type 0 where
  pub version : ℤ
  -- target.ipv4
  pub ipv4 : String
  pub goedge : GoEdgeConfig
  pub database : DatabaseConfig
  pub acme : AcmeConfig
  -- state.path
  pub state_path : String
  pub schedule : Schedule

-- What url.Parse makes of an endpoint.
pub record Url : Type 0 where
  pub scheme : String
  pub host : String
  pub hostname : String
  pub has_user : Bool
  pub raw_query : String
  pub fragment : String

-- net/url and net: `is_loopback` is none where net.ParseIP returns nil.
pub record Net : Type 0 where
  pub parse_url : String → Option Url
  pub is_loopback : String → Option Bool

abbrev pub lets_encrypt_production : String
lets_encrypt_production = "https://acme-v02.api.letsencrypt.org/directory"

abbrev pub lets_encrypt_staging : String
lets_encrypt_staging = "https://acme-staging-v02.api.letsencrypt.org/directory"

abbrev pub default : ℤ → ℤ → ℤ
default value chosen = if eq_ℤ chosen (pos 0) then value else chosen

unfoldable pub set_defaults : Config → Config
set_defaults c = record c {
  goedge = record (c.goedge) {
    request_timeout = default (pos 15_000_000_000) c.goedge.request_timeout;
  };
  schedule = record {
    renew_before = default (pos 259_200_000_000_000) c.schedule.renew_before;
    retry_min = default (pos 900_000_000_000) c.schedule.retry_min;
    retry_max = default (pos 21_600_000_000_000) c.schedule.retry_max;
    jitter_max = default (pos 600_000_000_000) c.schedule.jitter_max;
  };
}

abbrev is_unset : SecretRef → Bool
is_unset ref = ref.file =s= "" && ref.env =s= ""

-- filepath.IsAbs, on Unix
unfoldable pub is_abs : String → Bool
unfolding has_prefix
is_abs path = has_prefix "/" path

-- `host == "localhost"`, or the text of a loopback address
unfoldable pub is_local_host : Net → String → Bool
is_local_host net host = host =s= "localhost" || on_option (net.is_loopback host) false (λ b. b)

unfoldable pub accepts_url : Net → Url → Bool
unfolding is_local_host
accepts_url net url =
    not (url.scheme =s= "")
    && not (url.host =s= "")
    && (url.scheme =s= "http" || url.scheme =s= "https")
    && not url.has_user
    && url.raw_query =s= ""
    && url.fragment =s= ""
    && is_local_host net url.hostname

unfoldable pub accepts_endpoint : Net → String → Bool
unfolding accepts_url
accepts_endpoint net endpoint =
    on_option (net.parse_url endpoint) false (λ url. accepts_url net url)

unfoldable pub accepts_goedge : GoEdgeConfig → Bool
accepts_goedge c =
    (c.identity_type =s= "admin" || c.identity_type =s= "user")
    && not (is_unset c.access_key_id)
    && not (is_unset c.access_key)

unfoldable pub accepts_acme : AcmeConfig → Bool
unfolding is_abs
accepts_acme c =
    (c.directory_url =s= lets_encrypt_production || c.directory_url =s= lets_encrypt_staging)
    && not (c.email =s= "")
    && not (c.account_dir =s= "")
    && is_abs c.account_dir

unfoldable pub accepts_schedule : Schedule → Bool
unfolding ◌*ℤ◌
accepts_schedule s =
    not (ltb_ℤ s.renew_before (hours 48))
    && not (ltb_ℤ (hours 96) s.renew_before)
    && not (not_positive s.retry_min)
    && not (ltb_ℤ s.retry_max s.retry_min)
    && not (ltb_ℤ s.jitter_max (pos 0))

-- (*Config).Validate
unfoldable pub validate : {X : Type 0} → Net → Config → Action X (Unit {0})
unfolding accepts_endpoint accepts_goedge accepts_acme accepts_schedule is_abs
validate net c = do
  refuse_if (not (eq_ℤ c.version (pos 1))) (message "the version of the configuration")
  on (parse_public (codes c.ipv4)) (λ ip. pass tt) (λ e. fail e)
  refuse_if (not (accepts_endpoint net c.goedge.endpoint)) (message "goedge.endpoint")
  refuse_if (not (accepts_goedge c.goedge)) (message "goedge.identity_type or the access key")
  refuse_if (c.database.name =s= "" || is_unset c.database.dsn) (message "database")
  refuse_if (not (accepts_acme c.acme) || c.state_path =s= "" || not (is_abs c.state_path))
      (message "acme or state.path")
  refuse_if (not (accepts_schedule c.schedule)) (message "schedule")

-- Load: `read` is os.Open with the YAML decoder.
unfoldable pub load : {X : Type 0} → Net → Action X Config → Action X Config
unfolding set_defaults validate
load net read = do
  decoded ← wrap_error (wrapped "read the configuration") read
  let config = set_defaults decoded
  validate net config
  pass config

-- GoEdgeCredentials.Credentials
unfoldable pub credentials : {X : Type 0} → Secrets X → GoEdgeConfig → Action X Credentials
unfolding load_secret
credentials secrets c = do
  id ← load_secret secrets c.access_key_id
  key ← load_secret secrets c.access_key
  pass (record { identity_type = c.identity_type; access_key_id = id; access_key = key })

-- The policy that cmd/goedge-ip-cert gives the scheduler
abbrev pub policy_of : Schedule → Policy
policy_of s = record {
  renew_before = s.renew_before;
  retry_min = s.retry_min;
  retry_max = s.retry_max;
  jitter_max = s.jitter_max;
}
