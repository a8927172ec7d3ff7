-- ===== src/Rollback/Encoding.antt =====
-- internal/rollback/store.go: json.Marshal and json.Unmarshal of a Snapshot, by the names of its tags and of
-- the fields of goedge.CertificateInput, which has no tags.
use goedge_ip_cert.Prelude.{String, Option, none, some, List, [], ◌∷◌, ◌≡◌, refl}
use goedge_ip_cert.GoEdge.Model.{CertificateInput}
use goedge_ip_cert.Json.{
  Scalar, number, text, boolean, bytes, texts, ScalarField, Value, scalar, nested, Field,
  last_scalar, last_value, as_number, as_text, as_boolean, as_bytes, as_texts, as_scalar, as_nested,
}
use goedge_ip_cert.World.{Snapshot}

abbrev with_name : String → Scalar → ScalarField
with_name name value = record { name = name; value = value }

abbrev tagged : String → Value → Field
tagged tag value = record { name = tag; value = value }

unfoldable pub encode_input : CertificateInput → List ScalarField
encode_input c =
    with_name "ID" (number c.id)
    ∷ with_name "UserID" (number c.user_id)
    ∷ with_name "IsOn" (boolean c.is_on)
    ∷ with_name "Name" (text c.name)
    ∷ with_name "Description" (text c.description)
    ∷ with_name "ServerName" (text c.server_name)
    ∷ with_name "IsCA" (boolean c.is_ca)
    ∷ with_name "CertData" (bytes c.cert_data)
    ∷ with_name "KeyData" (bytes c.key_data)
    ∷ with_name "TimeBeginAt" (number c.time_begin_at)
    ∷ with_name "TimeEndAt" (number c.time_end_at)
    ∷ with_name "DNSNames" (texts c.dns_names)
    ∷ with_name "CommonNames" (texts c.common_names)
    ∷ []

-- json.Marshal
unfoldable pub encode_snapshot : Snapshot → List Field
unfolding encode_input
encode_snapshot s =
    tagged "version" (scalar (number s.version))
    ∷ tagged "operationId" (scalar (text s.operation_id))
    ∷ tagged "ipv4" (scalar (text s.ipv4))
    ∷ tagged "certId" (scalar (number s.cert_id))
    ∷ tagged "newFingerprint" (scalar (text s.new_fingerprint))
    ∷ tagged "oldFingerprint" (scalar (text s.old_fingerprint))
    ∷ tagged "old" (nested (encode_input s.old))
    ∷ []

infixl 5 ◌>>=◌
abbrev ◌>>=◌ : {A B : Type 0} → Option A → (A → Option B) → Option B
none >>= f = none
some a >>= f = f a

unfoldable pub decode_input : List ScalarField → Option CertificateInput
unfolding last_scalar
decode_input fields = do
  id ← as_number (last_scalar "ID" none fields)
  user_id ← as_number (last_scalar "UserID" none fields)
  is_on ← as_boolean (last_scalar "IsOn" none fields)
  name ← as_text (last_scalar "Name" none fields)
  description ← as_text (last_scalar "Description" none fields)
  server_name ← as_text (last_scalar "ServerName" none fields)
  is_ca ← as_boolean (last_scalar "IsCA" none fields)
  cert_data ← as_bytes (last_scalar "CertData" none fields)
  key_data ← as_bytes (last_scalar "KeyData" none fields)
  time_begin_at ← as_number (last_scalar "TimeBeginAt" none fields)
  time_end_at ← as_number (last_scalar "TimeEndAt" none fields)
  dns_names ← as_texts (last_scalar "DNSNames" none fields)
  common_names ← as_texts (last_scalar "CommonNames" none fields)
  some (record {
    id = id;
    user_id = user_id;
    is_on = is_on;
    name = name;
    description = description;
    server_name = server_name;
    is_ca = is_ca;
    cert_data = cert_data;
    key_data = key_data;
    time_begin_at = time_begin_at;
    time_end_at = time_end_at;
    dns_names = dns_names;
    common_names = common_names;
  })

-- json.Unmarshal
unfoldable pub decode_snapshot : List Field → Option Snapshot
unfolding last_value decode_input
decode_snapshot fields = do
  version ← as_scalar (last_value "version" none fields) >>= as_number
  operation_id ← as_scalar (last_value "operationId" none fields) >>= as_text
  ipv4 ← as_scalar (last_value "ipv4" none fields) >>= as_text
  cert_id ← as_scalar (last_value "certId" none fields) >>= as_number
  new_fingerprint ← as_scalar (last_value "newFingerprint" none fields) >>= as_text
  old_fingerprint ← as_scalar (last_value "oldFingerprint" none fields) >>= as_text
  old ← as_nested (last_value "old" none fields) >>= decode_input
  some (record {
    version = version;
    operation_id = operation_id;
    ipv4 = ipv4;
    cert_id = cert_id;
    new_fingerprint = new_fingerprint;
    old_fingerprint = old_fingerprint;
    old = old;
  })

-- Every field is read back under the name it is written under.
decode-encode_input : (c : CertificateInput) → decode_input (encode_input c) ≡ some c
unfolding decode_input encode_input
decode-encode_input c = refl

pub decode-encode : (s : Snapshot) → decode_snapshot (encode_snapshot s) ≡ some s
unfolding decode_snapshot encode_snapshot
decode-encode s = refl
