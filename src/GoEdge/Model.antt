-- ===== src/GoEdge/Model.antt =====
-- internal/goedge/model.go: what the lifecycle exchanges with the EdgeAPI.
use goedge_ip_cert.Prelude.{ℕ, String, Bool, List}
use goedge_ip_cert.Prelude.Int.{ℤ}

pub record Credentials : Type 0 where
  pub identity_type : String
  pub access_key_id : String
  pub access_key : String

pub record CertificateInput : Type 0 where
  pub id : ℤ
  pub user_id : ℤ
  pub is_on : Bool
  pub name : String
  pub description : String
  pub server_name : String
  pub is_ca : Bool
  pub cert_data : List ℕ
  pub key_data : List ℕ
  pub time_begin_at : ℤ
  pub time_end_at : ℤ
  pub dns_names : List String
  pub common_names : List String

pub record CertificateConfig : Type 0 where
  pub id : ℤ
  pub is_on : Bool
  pub name : String
  pub description : String
  pub cert_data : List ℕ
  pub key_data : List ℕ
  pub server_name : String
  pub is_ca : Bool
  pub is_acme : Bool
  pub time_begin_at : ℤ
  pub time_end_at : ℤ
  pub dns_names : List String
  pub common_names : List String

pub record ServerTarget : Type 0 where
  pub id : ℤ
  pub user_id : ℤ
  pub policy_id : ℤ
  pub https_is_on : Bool

pub record ServerName : Type 0 where
  pub name : String
  pub type : String
  pub sub_names : List String

pub record SslPolicyRef : Type 0 where
  pub is_on : Bool
  pub ssl_policy_id : ℤ

pub record Website : Type 0 where
  pub server_id : ℤ
  pub user_id : ℤ
  pub name : String
  pub ipv4 : String
  pub policy_id : ℤ
  pub cluster_id : ℤ
  pub cluster : String
  pub node_online : Bool

pub record SslCertRef : Type 0 where
  pub is_on : Bool
  pub cert_id : ℤ

-- The fields of SSLPolicy that the program reads.
pub record SslPolicy : Type 0 where
  pub id : ℤ
  pub is_on : Bool
  pub cert_refs : List SslCertRef
