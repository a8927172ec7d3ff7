-- ===== src/GoEdge/Binding.antt =====
-- What the client's reading methods promise about what they return, whatever the EdgeAPI answers.
use mathlib.Core.List.{Memᴰ}
use mathlib.Core.List.Memᴰ.{cases_cons}
use goedge_ip_cert.Prelude.{
  allowed, ◌≡◌, refl, ◌↔◌, String, Bool, true, false, ◌++◌, Option, none, some, List, [], ◌∷◌,
  Bool-cases, inl, inr, arith, ◌=s=◌, eq_iff, not, ◌&&◌, ap, sym, ◌∙◌, if◌then◌else◌,
}
use goedge_ip_cert.Prelude.Int.{ℤ, eq_ℤ, eq_of_parts}
use goedge_ip_cert.Error.{Error}
use goedge_ip_cert.Action.{ok, on_option, pass, fail}
use goedge_ip_cert.Action.Success.{
  bind-ok, bind-succeeds, refuse-succeeds, refuse-passes, err≢ok, ok-inj,
}
use goedge_ip_cert.GoEdge.Model.{SslCertRef, SslPolicy, CertificateConfig}
use goedge_ip_cert.GoEdge.Api.{list_certs, Api}
use goedge_ip_cert.GoEdge.Client.{Session, call, unexpected}
use goedge_ip_cert.GoEdge.Certificates.{
  named, is_bound, the_match, find_certificate_by_marker, policy, verify_certificate_bound,
}

-- The policy is on, and one of its references names the certificate and is on.
pub record Bound (cert_id : ℤ) (policy : SslPolicy) : Type 0 where
  pub policy_is_on : policy.is_on ≡ true
  pub ref : SslCertRef
  pub is_listed : Memᴰ ref policy.cert_refs
  pub names_it : ref.cert_id ≡ cert_id
  pub is_on : ref.is_on ≡ true

same_id : (a b : ℤ) (c : Bool) → (eq_ℤ a b && c) ≡ true → (a ≡ b) × (c ≡ true)
same_id a b c h = ground (arith, eq_of_parts a b)

bound_ref :
    (cert_id : ℤ) (refs : List SslCertRef)
    → is_bound cert_id refs ≡ true
    → (ref : SslCertRef) × Memᴰ ref refs × (ref.cert_id ≡ cert_id) × (ref.is_on ≡ true)
unfolding is_bound
bound_ref cert_id [] h = absurd cc
bound_ref cert_id (ref ∷ refs) h = elim (Bool-cases (eq_ℤ ref.cert_id cert_id && ref.is_on)) [
  | inl e ↦ let s = same_id ref.cert_id cert_id ref.is_on e in (ref, Memᴰ.head refl, s.0, s.1)
  | inr e ↦
      let more = bound_ref cert_id refs (rw (e, is_bound) at h) in
      (more.0, Memᴰ.tail more.1, more.2, more.3)
]

eq_ℤ-refl : (a : ℤ) → eq_ℤ a a ≡ true
eq_ℤ-refl a = ground arith

-- The other way round.
listed-is_bound :
    (cert_id : ℤ) (refs : List SslCertRef) (ref : SslCertRef)
    → Memᴰ ref refs
    → ref.cert_id ≡ cert_id
    → ref.is_on ≡ true
    → is_bound cert_id refs ≡ true
unfolding is_bound
listed-is_bound cert_id [] ref m n o = elim m [ ]
listed-is_bound cert_id (r ∷ refs) ref (Memᴰ.head e) n o =
    let same : r.cert_id ≡ cert_id = ap (λ x. x.cert_id) (sym e) ∙ n in
    let on : r.is_on ≡ true = ap (λ x. x.is_on) (sym e) ∙ o in ground (arith, eq_ℤ-refl r.cert_id)
listed-is_bound cert_id (r ∷ refs) ref (Memᴰ.tail m) n o =
    ground (arith, listed-is_bound cert_id refs ref m n o)

last_step :
    {X : Type 0} (b : Bool) (e : Error) (s : Session X)
    → ((if b then pass tt else fail e) s).0 ≡ ok tt
    → b ≡ true
unfolding pass fail
last_step true e s h = refl
last_step false e s h = absurd (err≢ok h)

true≢false : true ≡ false → ⊥
true≢false h = cc

cons≢nil : {A : Type 0} {a : A} {xs : List A} → a ∷ xs ≡ [] → ⊥
cons≢nil h = cc

cons_parts : {A : Type 0} {a b : A} {xs ys : List A} → a ∷ xs ≡ b ∷ ys → (a ≡ b) × (xs ≡ ys)
cons_parts h = (cc, cc)

only_match :
    {X : Type 0} (certs : List CertificateConfig) (cert : CertificateConfig) (s : Session X)
    → (the_match certs s).0 ≡ ok cert
    → certs ≡ cert ∷ []
unfolding the_match pass fail
only_match [] cert s h = absurd (err≢ok h)
only_match (c ∷ []) cert s h = ap (λ x. x ∷ []) (ok-inj h)
only_match (c ∷ _ ∷ _) cert s h = absurd (err≢ok h)

marker_answer :
    {X : Type 0} (marker : String) (o : Option (List CertificateConfig)) (cert : CertificateConfig)
    (s : Session X)
    → (on_option o (fail (unexpected "sslCertsJSON")) (λ certs. the_match (named marker certs)) s).0
      ≡ ok cert
    → (certs : List CertificateConfig) × (o ≡ some certs) × (named marker certs ≡ cert ∷ [])
unfolding fail
marker_answer marker none cert s h = absurd (err≢ok h)
marker_answer marker (some certs) cert s h = (certs, refl, only_match (named marker certs) cert s h)

-- No certificate of the list has the name.
pub Unnamed : String → List CertificateConfig → Type 0
Unnamed marker certs = (c : CertificateConfig) → Memᴰ c certs → c.name ≡ marker → ⊥

-- The certificate stands in the list at one place, and at all others is none of its name.
pub record Only (marker : String) (certs : List CertificateConfig) (cert : CertificateConfig)
    : Type 0 where
  pub before : List CertificateConfig
  pub after : List CertificateConfig
  pub split : certs ≡ before ++ cert ∷ after
  pub has_name : cert.name ≡ marker
  pub none_before : Unnamed marker before
  pub none_after : Unnamed marker after

Unnamed-cons :
    (marker : String) (c : CertificateConfig) (certs : List CertificateConfig)
    → (c.name =s= marker) ≡ false
    → Unnamed marker certs
    → Unnamed marker (c ∷ certs)
unfolding Unnamed
Unnamed-cons marker c certs h u d m e = elim (cases_cons m) [
  | inl p ↦ true≢false (sym ((eq_iff c.name marker).1 (ap (λ x. x.name) (sym p) ∙ e)) ∙ h)
  | inr t ↦ u d t e
]

named_none :
    (marker : String) (certs : List CertificateConfig)
    → named marker certs ≡ []
    → Unnamed marker certs
unfolding Unnamed
named_none marker [] h = λ c m e. elim m [ ]
named_none marker (c ∷ certs) h = elim (Bool-cases (c.name =s= marker)) [
  | inl e ↦ absurd (cons≢nil (rw (e, named) at h))
  | inr e ↦ Unnamed-cons marker c certs e (named_none marker certs (rw (e, named) at h))
]

named-Only :
    (marker : String) (certs : List CertificateConfig) (cert : CertificateConfig)
    → named marker certs ≡ cert ∷ []
    → Only marker certs cert
named-Only marker [] cert h = absurd (cons≢nil (sym h))
named-Only marker (c ∷ certs) cert h = elim (Bool-cases (c.name =s= marker)) [
  | inl e ↦
      let same = cons_parts (rw (e, named) at h) in
      record {
        before = [];
        after = certs;
        split = ap (λ x. x ∷ certs) same.0;
        has_name = ap (λ x. x.name) (sym same.0) ∙ (eq_iff c.name marker).0 e;
        none_before = named_none marker [] refl;
        none_after = named_none marker certs same.1;
      }
  | inr e ↦
      let r = named-Only marker certs cert (rw (e, named) at h) in
      record {
        before = c ∷ r.before;
        after = r.after;
        split = ap (λ x. c ∷ x) r.split;
        has_name = r.has_name;
        none_before = Unnamed-cons marker c r.before e r.none_before;
        none_after = r.none_after;
      }
]

module _ {X D : Type 0} (api : Api X D) where
  -- VerifyCertificateBound returns no error exactly when the EdgeAPI has just returned a policy that is
  -- on and lists the certificate by a reference that is on.
  pub verify_certificate_bound-Bound :
      (policy_id cert_id : ℤ) (s : Session X)
      → ((verify_certificate_bound api policy_id cert_id s).0 ≡ ok tt)
        ↔ ((found : SslPolicy) × ((policy api policy_id s).0 ≡ ok found) × Bound cert_id found)
  unfolding verify_certificate_bound pass
  verify_certificate_bound-Bound policy_id cert_id s = (there, back)
    where
      there :
          (verify_certificate_bound api policy_id cert_id s).0 ≡ ok tt
          → (found : SslPolicy) × ((policy api policy_id s).0 ≡ ok found) × Bound cert_id found
      there h =
          let first = bind-succeeds (policy api policy_id) _ s tt h in
          let found = first.0 in
          let s1 = (policy api policy_id s).1 in
          let second = bind-succeeds _ _ s1 tt (sym (ap (λ r. r.0) first.2) ∙ h) in
          let refused = refuse-succeeds _ _ s1 _ second.1 in
          let third = last_step _ _ _ (sym (ap (λ r. r.0) (first.2 ∙ second.2)) ∙ h) in
          let ref = bound_ref cert_id found.cert_refs third in
          (
            found,
            first.1,
            record {
              policy_is_on = allowed _ refused.0;
              ref = ref.0;
              is_listed = ref.1;
              names_it = ref.2;
              is_on = ref.3;
            },
          )

      back :
          ((found : SslPolicy) × ((policy api policy_id s).0 ≡ ok found) × Bound cert_id found)
          → (verify_certificate_bound api policy_id cert_id s).0 ≡ ok tt
      back (found, p, b) =
          let s1 = (policy api policy_id s).1 in
          let on = listed-is_bound cert_id found.cert_refs b.ref b.is_listed b.names_it b.is_on in
          ap (λ r. r.0)
            (bind-ok (policy api policy_id) _ s found p
              ∙ refuse-passes _ _ _ s1 (ap not b.policy_is_on))
          ∙ rw on refl

  -- The certificate that FindCertificateByMarker returns stands in the list that the EdgeAPI has
  -- answered with, has the marker as its name, and is the only entry of that name in the list.
  pub find_certificate_by_marker_lem :
      (marker : String) (user : ℤ) (s : Session X) (cert : CertificateConfig)
      → (find_certificate_by_marker api marker user s).0 ≡ ok cert
      → (certs : List CertificateConfig) × ((call api
            (list_certs marker user)
            api.decode.ssl_certs
            s).0
          ≡ ok (some certs))
        × Only marker certs cert
  unfolding find_certificate_by_marker
  find_certificate_by_marker_lem marker user s cert h =
      let first =
        bind-succeeds (call api (list_certs marker user) api.decode.ssl_certs) _ s cert h in
      let answered = marker_answer marker first.0 cert _ (sym (ap (λ r. r.0) first.2) ∙ h) in
      (
        answered.0,
        first.1 ∙ ap (λ o. ok o) answered.1,
        named-Only marker answered.0 cert answered.2,
      )
