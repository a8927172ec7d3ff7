-- ===== src/Certificate/Soundness.antt =====
-- What verify promises of a certificate that it accepts.
use goedge_ip_cert.Prelude.{
  ℕ, ◌≡◌, refl, ap, String, Bool, true, false, List, [], ◌∷◌, sym, arith, Option, none, some, not,
  ◌==◌, ◌||◌,
}
use goedge_ip_cert.Prelude.Int.{ℤ}
use goedge_ip_cert.Error.{Error, message}
use goedge_ip_cert.Action.Success.{ok-inj}
use goedge_ip_cert.Action.{Result, ok, err}
use goedge_ip_cert.Ipv4.{Addr, codes, number, parse_public}
use goedge_ip_cert.Certificate.{
  X509, Verified, Crypto, is_valid_at, check_chain, check_leaf, check_certs, verify, the_address,
  same_address, refuse, check_issuer, is_empty, common_names, ◌>>=◌, ◌>>◌,
}

-- Each certificate of a chain but the last is signed by the next, which is a CA.
pub data SignedBy (c : Crypto) : X509 → List X509 → Type 0 where
  root : {cert : X509} → SignedBy c cert []
  link :
      {cert issuer : X509} {rest : List X509}
      → issuer.is_ca ≡ true
      → c.check_signature_from cert issuer ≡ none
      → SignedBy c issuer rest
      → SignedBy c cert (issuer ∷ rest)

-- What an accepting run of two steps says of each.
bind-ok :
    {A B : Type 0} (m : Result A) (f : A → Result B) (b : B)
    → (m >>= f) ≡ ok b
    → (a : A) × (m ≡ ok a) × (f a ≡ ok b)
bind-ok (ok a) f b h = (a, refl, h)
bind-ok (err e) f b h = absurd cc

refuse-ok : (b : Bool) (e : Error) (u : Unit {0}) → refuse b e ≡ ok u → b ≡ false
refuse-ok true e u h = absurd cc
refuse-ok false e u h = refl

check_issuer-ok :
    (c : Crypto) (issuer : X509) (o : Option Error) (u : Unit {0})
    → check_issuer c issuer o ≡ ok u
    → o ≡ none
unfolding check_issuer
check_issuer-ok c issuer none u h = refl
check_issuer-ok c issuer (some e) u h = absurd cc

check_chain-SignedBy :
    (c : Crypto) (cert : X509) (rest : List X509) (u : Unit {0})
    → check_chain c cert rest ≡ ok u
    → SignedBy c cert rest
unfolding check_chain
check_chain-SignedBy c cert [] u h = root
check_chain-SignedBy c cert (issuer ∷ rest) u h =
    let ca =
      bind-ok (refuse (not issuer.is_ca) (message "an issuer of the chain is not a CA"))
        (λ _.
          check_issuer c issuer (c.check_signature_from cert issuer) >> check_chain c issuer rest)
        u h in
    let signed =
      bind-ok (check_issuer c issuer (c.check_signature_from cert issuer))
        (λ _. check_chain c issuer rest) u ca.2 in
    let is_ca = refuse-ok (not issuer.is_ca) _ _ ca.1 in
    link (ground arith) (check_issuer-ok c issuer _ _ signed.1)
      (check_chain-SignedBy c issuer rest _ signed.2)

-- What is known of an accepted leaf.
pub record GoodLeaf (requested : Addr) (now : ℤ) (leaf : X509) : Type 0 where
  pub not_ca : leaf.is_ca ≡ false
  pub valid_now : is_valid_at leaf now ≡ true
  pub address : String
  pub only_address : leaf.ip_addresses ≡ address ∷ []
  pub no_dns_names : leaf.dns_names ≡ []
  pub no_email_addresses : leaf.email_addresses ≡ []
  pub no_uris : leaf.uris ≡ []
  pub parsed : Addr
  pub is_public : parse_public (codes address) ≡ ok parsed
  pub same_number : number parsed ≡ number requested

is_empty-[] : {A : Type 0} (xs : List A) → is_empty xs ≡ true → xs ≡ []
is_empty-[] [] h = refl
is_empty-[] (x ∷ xs) h = absurd cc

single-address :
    (leaf : X509) (ip : String)
    → the_address leaf ≡ ok ip
    → (leaf.ip_addresses ≡ ip ∷ [])
      × (leaf.dns_names ≡ [])
      × (leaf.email_addresses ≡ [])
      × (leaf.uris ≡ [])
single-address leaf ip h =
    ground
      (arith, is_empty-[] leaf.dns_names, is_empty-[] leaf.email_addresses, is_empty-[] leaf.uris)

same_address-ok :
    (requested : Addr) (a : Result Addr) (u : Unit {0})
    → same_address requested a ≡ ok u
    → (x : Addr) × (a ≡ ok x) × (number x ≡ number requested)
unfolding same_address
same_address-ok requested (ok x) u h =
    let e = refuse-ok (not (number x == number requested)) _ _ h in (x, refl, ground arith)
same_address-ok requested (err e) u h = absurd cc

check_leaf-GoodLeaf :
    (c : Crypto) (requested : Addr) (now : ℤ) (leaf : X509) (u : Unit {0})
    → check_leaf c requested now leaf ≡ ok u
    → GoodLeaf requested now leaf
unfolding check_leaf
check_leaf-GoodLeaf c requested now leaf u h =
    let address = λ (ip : String). same_address requested (parse_public (codes ip)) in
    let date = refuse (not (is_valid_at leaf now)) (message "not yet valid or expired") in
    let ca =
      bind-ok (refuse leaf.is_ca (message "the leaf is a CA"))
        (λ _. date >> (the_address leaf >>= address)) u h in
    let valid = bind-ok date (λ _. the_address leaf >>= address) u ca.2 in
    let ip = bind-ok (the_address leaf) address u valid.2 in
    let one = single-address leaf ip.0 ip.1 in
    let same = same_address-ok requested (parse_public (codes ip.0)) u ip.2 in
    let is_valid = refuse-ok (not (is_valid_at leaf now)) _ _ valid.1 in
    record {
      not_ca = refuse-ok leaf.is_ca _ _ ca.1;
      valid_now = ground arith;
      address = ip.0;
      only_address = one.0;
      no_dns_names = one.1;
      no_email_addresses = one.2;
      no_uris = one.3;
      parsed = same.0;
      is_public = same.1;
      same_number = same.2;
    }

-- What is known of an accepted certificate: it has a chain of at least two certificates, the leaf is
-- good for the address that was asked for, the chain is signed, and the result is about it.
pub record Accepted (c : Crypto) (cert_pem key_pem : List ℕ) (ip : String) (now : ℤ) (v : Verified)
    : Type 0 where
  pub requested : Addr
  pub leaf : X509
  pub issuer : X509
  pub rest : List X509
  pub is_public : parse_public (codes ip) ≡ ok requested
  pub parsed_chain : c.key_pair cert_pem key_pem ≡ ok (leaf ∷ issuer ∷ rest)
  pub good : GoodLeaf requested now leaf
  pub signed : SignedBy c leaf (issuer ∷ rest)
  pub same_cert : v.cert_pem ≡ cert_pem
  pub same_key : v.key_pem ≡ key_pem
  pub same_not_before : v.not_before ≡ leaf.not_before
  pub same_not_after : v.not_after ≡ leaf.not_after
  pub dns_names : v.dns_names ≡ ip ∷ []
  pub same_fingerprint : v.fingerprint ≡ c.sha256_hex leaf.raw

module _ (c : Crypto) (cert_pem key_pem : List ℕ) (ip : String) (now : ℤ) (requested : Addr)
    (v : Verified) where
  certs-Accepted :
      (certs : List X509)
      → parse_public (codes ip) ≡ ok requested
      → c.key_pair cert_pem key_pem ≡ ok certs
      → check_certs c cert_pem key_pem ip now requested certs ≡ ok v
      → Accepted c cert_pem key_pem ip now v
  unfolding check_certs
  certs-Accepted [] p q h = absurd cc
  certs-Accepted (leaf ∷ []) p q h = absurd cc
  certs-Accepted (leaf ∷ issuer ∷ rest) p q h =
      let built : Verified = record {
        cert_pem = cert_pem;
        key_pem = key_pem;
        not_before = leaf.not_before;
        not_after = leaf.not_after;
        dns_names = ip ∷ [];
        common_names = common_names (leaf ∷ issuer ∷ rest);
        fingerprint = c.sha256_hex leaf.raw;
      } in
      let leaf_ok =
        bind-ok (check_leaf c requested now leaf)
          (λ _. check_chain c leaf (issuer ∷ rest) >> ok built) v h in
      let chain_ok = bind-ok (check_chain c leaf (issuer ∷ rest)) (λ _. ok built) v leaf_ok.2 in
      let same = ok-inj chain_ok.2 in
      record {
        requested = requested;
        leaf = leaf;
        issuer = issuer;
        rest = rest;
        is_public = p;
        parsed_chain = q;
        good = check_leaf-GoodLeaf c requested now leaf _ leaf_ok.1;
        signed = check_chain-SignedBy c leaf (issuer ∷ rest) _ chain_ok.1;
        same_cert = ap (λ x. x.cert_pem) (sym same);
        same_key = ap (λ x. x.key_pem) (sym same);
        same_not_before = ap (λ x. x.not_before) (sym same);
        same_not_after = ap (λ x. x.not_after) (sym same);
        dns_names = ap (λ x. x.dns_names) (sym same);
        same_fingerprint = ap (λ x. x.fingerprint) (sym same);
      }

-- A certificate that verify accepts has a chain of at least two certificates in which each is signed
-- by the next, a CA; its leaf is no CA, is valid at the time of the check, and has as its only
-- subject alternative name an address of the same number as the one that was asked for, which is
-- public; and the result's fields are those of the input and of the leaf.
pub verify-Accepted :
    (c : Crypto) (cert_pem key_pem : List ℕ) (ip : String) (now : ℤ) (v : Verified)
    → verify c cert_pem key_pem ip now ≡ ok v
    → Accepted c cert_pem key_pem ip now v
unfolding verify
verify-Accepted c cert_pem key_pem ip now v h =
    let some_pem =
      refuse (is_empty cert_pem || is_empty key_pem) (message "certificate or key is empty") in
    let rest = λ (x : Addr). λ (certs : List X509). check_certs c cert_pem key_pem ip now x certs in
    let address =
      bind-ok (parse_public (codes ip)) (λ x. some_pem >> (c.key_pair cert_pem key_pem >>= rest x))
        v h in
    let pem = bind-ok some_pem (λ _. c.key_pair cert_pem key_pem >>= rest address.0) v address.2 in
    let certs = bind-ok (c.key_pair cert_pem key_pem) (rest address.0) v pem.2 in
    certs-Accepted c cert_pem key_pem ip now address.0 v certs.0 address.1 certs.1 certs.2
