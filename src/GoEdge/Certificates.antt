-- ===== src/GoEdge/Certificates.antt =====
-- internal/goedge/cert.go and policy.go: the certificates and SSL policies of the EdgeAPI. Of a policy
-- the model has the fields that the program reads, which normalizePolicy leaves as they are.
use goedge_ip_cert.Prelude.{
  String, Bool, false, not, ◌&&◌, ◌||◌, List, [], ◌∷◌, ◌=s=◌, if◌then◌else◌,
}
use goedge_ip_cert.Prelude.Int.{ℤ, not_positive, eq_ℤ}
use goedge_ip_cert.Error.{
  known, message, certificate_not_found, multiple_certificates, certificate_not_bound,
}
use goedge_ip_cert.Action.{Action, pass, fail, on_option, refuse_if, ◌>>=◌, ◌>>◌}
use goedge_ip_cert.GoEdge.Model.{CertificateInput, CertificateConfig, SslCertRef, SslPolicy}
use goedge_ip_cert.GoEdge.Api.{
  create_cert, update_cert, find_cert, list_certs, find_policy, Field, missing, invalid, present,
  Api,
}
use goedge_ip_cert.GoEdge.Client.{Session, unexpected, call}

abbrev pub named : String → List CertificateConfig → List CertificateConfig
named marker [] = []
named marker (cert ∷ certs) =
    let rest = named marker certs in if cert.name =s= marker then cert ∷ rest else rest

unfoldable pub is_bound : ℤ → List SslCertRef → Bool
is_bound cert_id [] = false
is_bound cert_id (ref ∷ refs) = eq_ℤ ref.cert_id cert_id && ref.is_on || is_bound cert_id refs

module _ {X : Type 0} where
  unfoldable pub accept_certificate : Field CertificateConfig → Action (Session X) CertificateConfig
  accept_certificate missing = fail (known certificate_not_found)
  accept_certificate invalid = fail (unexpected "sslCertJSON")
  accept_certificate (present cert) =
      if not_positive cert.id then fail (unexpected "sslCertJSON") else pass cert

  unfoldable pub accept_policy : Field SslPolicy → Action (Session X) SslPolicy
  accept_policy missing = fail (unexpected "sslPolicyJSON")
  accept_policy invalid = fail (unexpected "sslPolicyJSON")
  accept_policy (present policy) =
      if not_positive policy.id then fail (unexpected "sslPolicyJSON") else pass policy

  unfoldable pub the_match : List CertificateConfig → Action (Session X) CertificateConfig
  the_match [] = fail (known certificate_not_found)
  the_match (cert ∷ []) = pass cert
  the_match (cert ∷ _ ∷ _) = fail (known multiple_certificates)

module _ {X D : Type 0} (api : Api X D) where
  unfoldable pub create_certificate : CertificateInput → Action (Session X) ℤ
  create_certificate input = do
    id ← call api (create_cert input) api.decode.ssl_cert_id
    refuse_if (not_positive id) (unexpected "createSSLCert")
    pass id

  unfoldable pub update_certificate : CertificateInput → Action (Session X) (Unit {0})
  update_certificate input = do
    refuse_if (not_positive input.id) (message "sslCertId must be positive")
    call api (update_cert input) api.decode.empty

  unfoldable pub certificate : ℤ → Action (Session X) CertificateConfig
  unfolding accept_certificate
  certificate id = do
    answer ← call api (find_cert id) api.decode.ssl_cert
    accept_certificate answer

  unfoldable pub find_certificate_by_marker : String → ℤ → Action (Session X) CertificateConfig
  unfolding the_match
  find_certificate_by_marker marker user = do
    answer ← call api (list_certs marker user) api.decode.ssl_certs
    on_option answer (fail (unexpected "sslCertsJSON")) (λ certs. the_match (named marker certs))

  unfoldable pub policy : ℤ → Action (Session X) SslPolicy
  unfolding accept_policy
  policy id = do answer ← call api (find_policy id) api.decode.ssl_policy; accept_policy answer

  unfoldable pub verify_certificate_bound : ℤ → ℤ → Action (Session X) (Unit {0})
  unfolding policy is_bound
  verify_certificate_bound policy_id cert_id = do
    found ← policy policy_id
    refuse_if (not found.is_on) (message "SSL policy is off")
    if is_bound cert_id found.cert_refs then pass tt else fail (known certificate_not_bound)
