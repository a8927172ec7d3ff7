-- ===== src/GoEdge/Api.antt =====
-- What the client of internal/goedge exchanges with the EdgeAPI: the requests with their paths, the
-- answers, and what encoding/json reads from them. A type `D` stands for raw JSON.
use goedge_ip_cert.Prelude.{ℕ, String, Bool, Option, List}
use goedge_ip_cert.Prelude.Int.{ℤ}
use goedge_ip_cert.Error.{Error}
use goedge_ip_cert.Action.{Action}
use goedge_ip_cert.GoEdge.Model.{
  Credentials, CertificateInput, CertificateConfig, ServerName, SslPolicy, SslPolicyRef,
}

pub data ApiRequest : Type 0 where
  get_token : Credentials → ApiRequest
  -- the keyword, if the request has one; then the offset
  count_servers : Option String → ApiRequest
  list_servers : Option String → ℕ → ApiRequest
  list_nodes : ℤ → ApiRequest
  create_cert update_cert : CertificateInput → ApiRequest
  find_cert : ℤ → ApiRequest
  list_certs : String → ℤ → ApiRequest
  find_policy : ℤ → ApiRequest

unfoldable pub path : ApiRequest → String
path (get_token c) = "/APIAccessTokenService/getAPIAccessToken"
path (count_servers k) = "/ServerService/countAllEnabledServersMatch"
path (list_servers k offset) = "/ServerService/listEnabledServersMatch"
path (list_nodes cluster) = "/NodeService/listEnabledNodesMatch"
path (create_cert input) = "/SSLCertService/createSSLCert"
path (update_cert input) = "/SSLCertService/updateSSLCert"
path (find_cert id) = "/SSLCertService/findEnabledSSLCertConfig"
path (list_certs marker user) = "/SSLCertService/listSSLCerts"
path (find_policy id) = "/SSLPolicyService/findEnabledSSLPolicyConfig"

-- The JSON value of an envelope's code: a number that fits in an int, a text with what strconv.Atoi
-- reads from it, or anything else; `absent` is also null, which leaves the code 0.
pub data CodeJson : Type 0 where
  number_code : ℤ → CodeJson
  text_code : Option ℤ → CodeJson
  other_code absent : CodeJson

-- An envelope as encoding/json splits it; `payload` is none when it is missing or null.
pub record Envelope (D : Type 0) : Type 0 where
  pub code : CodeJson
  pub message : List ℕ
  pub payload : Option D

-- What io.ReadAll finds in a body: an error, or the number of bytes read and what json.Unmarshal makes
-- of them.
pub data Body (D : Type 0) : Type 0 where
  broken : Error → Body D
  read : ℕ → Option (Envelope D) → Body D

pub record Response (D : Type 0) : Type 0 where
  pub status : ℕ
  pub body : Body D

-- A field of raw JSON bytes: empty or the text null, not decodable, or decoded.
pub data Field (A : Type 0) : Type 0 where
  missing invalid : Field A
  present : A → Field A

pub record TokenResult : Type 0 where
  pub token : String
  -- Unix seconds
  pub expires_at : ℤ

-- httpsConfig
pub record HttpsConfig : Type 0 where
  pub is_on : Bool
  pub ssl_policy_ref : Option SslPolicyRef

pub record NodeCluster : Type 0 where
  pub id : ℤ
  pub name : String

-- serverResponse; `names` is what json.Unmarshal makes of ServerNamesJSON.
pub record ServerResponse : Type 0 where
  pub id : ℤ
  pub user_id : ℤ
  pub name : String
  pub names : Option (List ServerName)
  pub https : Field HttpsConfig
  pub node_cluster : Option NodeCluster

pub record Node : Type 0 where
  pub is_installed : Bool
  pub is_on : Bool
  pub is_up : Bool

-- json.Unmarshal into the response of each request.
pub record Decoders (D : Type 0) : Type 0 where
  pub token : D → Option TokenResult
  pub count : D → Option ℤ
  pub servers : D → Option (List ServerResponse)
  pub nodes : D → Option (List Node)
  pub ssl_cert_id : D → Option ℤ
  pub empty : D → Option (Unit {0})
  pub ssl_cert : D → Option (Field CertificateConfig)
  -- the list, if SSLCertsJSON is decodable
  pub ssl_certs : D → Option (Option (List CertificateConfig))
  pub ssl_policy : D → Option (Field SslPolicy)

-- What the client is made with, and what it uses of Go's library: the clock in nanoseconds, the
-- credentials, http.NewRequestWithContext with json.Marshal, and Do. `send` has the token, which is
-- not sent when it is empty.
pub record Api (X D : Type 0) : Type 0 where
  pub now : X → ℤ × X
  pub credentials : Action X Credentials
  pub new_request : ApiRequest → Option Error
  pub send : ApiRequest → String → Action X (Response D)
  pub decode : Decoders D
