-- ===== src/Certificate.antt =====
-- internal/certificate/verify.go: what an issued certificate has to satisfy before it is used. The
-- parsing of PEM and X.509, the signature check and SHA-256 are parameters.
pub mod Soundness
use goedge_ip_cert.Prelude.{
  ℕ, String, Bool, true, false, not, ◌&&◌, ◌||◌, Option, none, some, List, [], ◌∷◌, ◌==◌, ◌=s=◌,
  if◌then◌else◌,
}
use goedge_ip_cert.Prelude.Int.{ℤ, ltb_ℤ}
use goedge_ip_cert.Error.{Error, message, wrapped}
use goedge_ip_cert.Action.{Result, ok, err}
use goedge_ip_cert.Ipv4.{Addr, codes, number, parse_public}

-- The fields of x509.Certificate that are read; an IP address is its text.
pub record X509 : Type 0 where
  pub raw : List ℕ
  pub is_ca : Bool
  pub not_before : ℤ
  pub not_after : ℤ
  pub dns_names : List String
  pub ip_addresses : List String
  pub email_addresses : List String
  pub uris : List String
  pub issuer_common_name : String

pub record Verified : Type 0 where
  pub cert_pem : List ℕ
  pub key_pem : List ℕ
  pub not_before : ℤ
  pub not_after : ℤ
  pub dns_names : List String
  pub common_names : List String
  pub fingerprint : String

pub record Crypto : Type 0 where
  -- tls.X509KeyPair and x509.ParseCertificate of each element of the chain
  pub key_pair : List ℕ → List ℕ → Result (List X509)
  -- the first argument's CheckSignatureFrom of the second
  pub check_signature_from : X509 → X509 → Option Error
  -- pem.Decode and x509.ParseCertificate of the first block
  pub parse_first_certificate : List ℕ → Result X509
  -- hex of SHA-256
  pub sha256_hex : List ℕ → String

infixl 5 ◌>>=◌ ◌>>◌
abbrev ◌>>=◌ : {A B : Type 0} → Result A → (A → Result B) → Result B
ok a >>= f = f a
err e >>= f = err e

abbrev ◌>>◌ : {A B : Type 0} → Result A → Result B → Result B
m >> k = m >>= λ _. k

abbrev refuse : Bool → Error → Result (Unit {0})
refuse true e = err e
refuse false e = ok tt

abbrev is_empty {ℓ} : {A : Type ℓ} → List A → Bool
is_empty [] = true
is_empty (_ ∷ _) = false

-- `!now.Before(NotBefore) && now.Before(NotAfter)`
abbrev pub is_valid_at : X509 → ℤ → Bool
is_valid_at leaf now = not (ltb_ℤ now leaf.not_before) && ltb_ℤ now leaf.not_after

-- the only subject alternative name, an IP address
abbrev the_address : X509 → Result String
the_address leaf = elim leaf.ip_addresses [
  | [] ↦ err (message "the SAN must be one IPv4")
  | ip ∷ more ↦
      if is_empty more
        && is_empty leaf.dns_names
        && is_empty leaf.email_addresses
        && is_empty leaf.uris
      then ok ip
      else err (message "the SAN must be one IPv4")
]

same_address : Addr → Result Addr → Result (Unit {0})
same_address requested (err e) = err (message "the IP SAN differs from the requested IPv4")
same_address requested (ok leaf_ip) =
    refuse (not (number leaf_ip == number requested))
      (message "the IP SAN differs from the requested IPv4")

common_names : List X509 → List String
common_names [] = []
common_names (cert ∷ certs) =
    if cert.issuer_common_name =s= ""
    then common_names certs
    else cert.issuer_common_name ∷ common_names certs

module _ (c : Crypto) where
  check_issuer : X509 → Option Error → Result (Unit {0})
  check_issuer issuer (some e) = err (wrapped "a signature of the chain is invalid" e)
  check_issuer issuer none = ok tt

  -- Each certificate but the last is signed by the next, which is a CA.
  unfoldable pub check_chain : X509 → List X509 → Result (Unit {0})
  unfolding check_issuer
  check_chain cert [] = ok tt
  check_chain cert (issuer ∷ rest) = do
    refuse (not issuer.is_ca) (message "an issuer of the chain is not a CA")
    check_issuer issuer (c.check_signature_from cert issuer)
    check_chain issuer rest

  check_leaf : Addr → ℤ → X509 → Result (Unit {0})
  unfolding same_address
  check_leaf requested now leaf = do
    refuse leaf.is_ca (message "the leaf is a CA")
    refuse (not (is_valid_at leaf now)) (message "not yet valid or expired")
    ip ← the_address leaf
    same_address requested (parse_public (codes ip))

  check_certs : List ℕ → List ℕ → String → ℤ → Addr → List X509 → Result Verified
  unfolding check_leaf check_chain common_names
  check_certs cert_pem key_pem ip now requested (leaf ∷ issuer ∷ rest) = do
    check_leaf requested now leaf
    check_chain leaf (issuer ∷ rest)
    ok (record {
      cert_pem = cert_pem;
      key_pem = key_pem;
      not_before = leaf.not_before;
      not_after = leaf.not_after;
      dns_names = ip ∷ [];
      common_names = common_names (leaf ∷ issuer ∷ rest);
      fingerprint = c.sha256_hex leaf.raw;
    })
  check_certs cert_pem key_pem ip now requested _ = err (message "the chain is incomplete")

  -- requested.String() is the text that was asked for, since ParsePublic accepts no other spelling.
  unfoldable pub verify : List ℕ → List ℕ → String → ℤ → Result Verified
  unfolding check_certs
  verify cert_pem key_pem requested_ipv4 now = do
    requested ← parse_public (codes requested_ipv4)
    refuse (is_empty cert_pem || is_empty key_pem) (message "certificate or key is empty")
    certs ← c.key_pair cert_pem key_pem
    check_certs cert_pem key_pem requested_ipv4 now requested certs

  -- lifecycle.fingerprint
  unfoldable pub fingerprint : List ℕ → String
  fingerprint cert_pem = elim (c.parse_first_certificate cert_pem) [
    | ok cert ↦ c.sha256_hex cert.raw
    | err e ↦ ""
  ]
