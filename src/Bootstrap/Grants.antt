-- ===== src/Bootstrap/Grants.antt =====
-- Which lists of grants ExactLeastPrivilegeGrants accepts.
use mathlib.Core.List.{Memᴰ}
use mathlib.Core.List.Memᴰ.{cases_cons}
use mathlib.Core.Logic.{◌↔◌}
use mathlib.Core.Path.{subst}
use Prim.Native.Char.{code}
use text.Mathlib.TextLemmas.{nil-append, cons-append}
use goedge_ip_cert.Ipv4.{codes}
use goedge_ip_cert.Security.Secret.{trim_space}
use goedge_ip_cert.Prelude.{
  ℕ, ◌<>◌, ap, ◌==◌, ◌&&◌, arith, ◌≡◌, refl, sym, ◌∙◌, String, Bool, true, false, ◌⊎◌, inl, inr,
  List, [], ◌∷◌, ◌=s=◌, Bool-cases, eq_iff,
}
use goedge_ip_cert.Bootstrap.{
  Calls, clean_grant, grants_from, exact_grants, is_usage, least_grant, has_upper_prefix, to_upper,
}

map_upper : String → List ℕ
map_upper String.[] = []
map_upper (String.◌∷◌ c s) = to_upper (code c) ∷ map_upper s

-- The text begins with "GRANT USAGE ON *.* TO ", in letters of either case.
pub StartsUsage : String → Type 0
StartsUsage text =
    (front : String) × (rest : String) × (text ≡ front <> rest)
    × (map_upper front ≡ codes "GRANT USAGE ON *.* TO ")

true≢false : true ≡ false → ⊥
true≢false h = cc

heads_and_tails : {m n : ℕ} {xs ys : List ℕ} → m ∷ xs ≡ n ∷ ys → (m ≡ n) × (xs ≡ ys)
heads_and_tails h = (cc, cc)

same_first : (m n : ℕ) (b : Bool) → (m == n && b) ≡ true → (n ≡ m) × (b ≡ true)
same_first m n b h = ground arith

has_upper_prefix-split :
    (p s : String)
    → has_upper_prefix p s ≡ true
    → (front : String) × (rest : String) × (s ≡ front <> rest) × (map_upper front ≡ codes p)
unfolding has_upper_prefix map_upper
has_upper_prefix-split String.[] s h = ("", s, sym (nil-append s), refl)
has_upper_prefix-split (String.◌∷◌ a p) String.[] h = absurd cc
has_upper_prefix-split (String.◌∷◌ a p) (String.◌∷◌ c s) h =
    let e = same_first (code a) (to_upper (code c)) _ h in
    let r = has_upper_prefix-split p s e.1 in
    (
      String.◌∷◌ c (r.0),
      r.1,
      ap (λ x. String.◌∷◌ c x) r.2 ∙ sym (cons-append c (r.0) (r.1)),
      ap (λ x. x ∷ map_upper (r.0)) e.0 ∙ ap (λ x. code a ∷ x) r.3,
    )

split-has_upper_prefix :
    (p front rest : String) → map_upper front ≡ codes p → has_upper_prefix p (front <> rest) ≡ true
unfolding has_upper_prefix map_upper
split-has_upper_prefix String.[] front rest h = refl
split-has_upper_prefix (String.◌∷◌ a p) String.[] rest h = absurd cc
split-has_upper_prefix (String.◌∷◌ a p) (String.◌∷◌ c s) rest h =
    let e = heads_and_tails h in
    rw (cons-append c s rest) (ground (arith, e.0, split-has_upper_prefix p s rest e.1))

is_usage-StartsUsage : (grant : String) → is_usage grant ≡ true → StartsUsage (trim_space grant)
unfolding is_usage StartsUsage
is_usage-StartsUsage grant h = has_upper_prefix-split "GRANT USAGE ON *.* TO " (trim_space grant) h

StartsUsage-is_usage : (grant : String) → StartsUsage (trim_space grant) → is_usage grant ≡ true
unfolding is_usage StartsUsage
StartsUsage-is_usage grant (front, rest, e, h) =
    rw e (split-has_upper_prefix "GRANT USAGE ON *.* TO " front rest h)

no_usage : (grant : String) → (StartsUsage (trim_space grant) → ⊥) → is_usage grant ≡ false
no_usage grant h = elim (Bool-cases (is_usage grant)) [
  | inl e ↦ absurd (h (is_usage-StartsUsage grant e))
  | inr e ↦ e
]

module _ {X : Type 0} (calls : Calls X) (database : String) where
  -- The right to read, insert and delete in the challenge table, and no line that begins with USAGE.
  pub IsGranted : String → Type 0
  IsGranted grant =
      (StartsUsage (trim_space (clean_grant calls grant)) → ⊥)
      × (clean_grant calls grant
          ≡ "GRANT SELECT, INSERT, DELETE ON `" <> database
            <> "`.`edgeACMEAuthentications` TO 'goedge_ip_cert'@'127.0.0.1'")

  pub IsAllowed : String → Type 0
  IsAllowed grant = StartsUsage (trim_space (clean_grant calls grant)) ⊎ IsGranted grant

  pub AllAllowed : List String → Type 0
  AllAllowed grants = (grant : String) → Memᴰ grant grants → IsAllowed grant

  pub SomeGranted : List String → Type 0
  SomeGranted grants = (grant : String) × Memᴰ grant grants × IsGranted grant

  AllAllowed-cons :
      (g : String) (gs : List String) → IsAllowed g → AllAllowed gs → AllAllowed (g ∷ gs)
  unfolding AllAllowed
  AllAllowed-cons g gs one all grant m = elim (cases_cons m) [
    | inl e ↦ subst IsAllowed (sym e) one
    | inr t ↦ all grant t
  ]

  grants_from-usage :
      (found : Bool) (g : String) (gs : List String)
      → is_usage (clean_grant calls g) ≡ true
      → grants_from calls found (g ∷ gs) database ≡ grants_from calls found gs database
  unfolding grants_from
  grants_from-usage found g gs h = rw h refl

  grants_from-granted :
      (found : Bool) (g : String) (gs : List String)
      → IsGranted g
      → grants_from calls found (g ∷ gs) database ≡ grants_from calls true gs database
  unfolding grants_from IsGranted least_grant
  grants_from-granted found g gs h =
      rw
        (
          no_usage (clean_grant calls g) h.0,
          (eq_iff (clean_grant calls g) (least_grant database)).1 h.1,
        )
        refl

  grants_from-cases :
      (found : Bool) (g : String) (gs : List String)
      → IsAllowed g ⊎ (grants_from calls found (g ∷ gs) database ≡ false)
  unfolding grants_from IsAllowed IsGranted least_grant
  grants_from-cases found g gs = elim (Bool-cases (is_usage (clean_grant calls g))) [
    | inl e ↦ inl (inl (is_usage-StartsUsage (clean_grant calls g) e))
    | inr u ↦ elim (Bool-cases (clean_grant calls g =s= least_grant database)) [
      | inl e ↦ inl (
          inr (
            λ s. true≢false (sym (StartsUsage-is_usage (clean_grant calls g) s) ∙ u),
            (eq_iff (clean_grant calls g) (least_grant database)).0 e,
          ))
      | inr e ↦ inr (rw (u, e) refl)
    ]
  ]

  Accepted : Bool → List String → Type 0
  Accepted found grants = AllAllowed grants × ((found ≡ true) ⊎ SomeGranted grants)

  grants_from-Accepted :
      (found : Bool) (grants : List String)
      → grants_from calls found grants database ≡ true
      → Accepted found grants
  unfolding grants_from Accepted AllAllowed IsAllowed SomeGranted
  grants_from-Accepted found [] h = (λ g m. elim m [ ], inl h)
  grants_from-Accepted found (g ∷ gs) h = elim (grants_from-cases found g gs) [
    | inr e ↦ absurd cc
    | inl (inl u) ↦
        let r =
          grants_from-Accepted found gs (
            sym (grants_from-usage found g gs (StartsUsage-is_usage (clean_grant calls g) u))
            ∙ h) in
        (
          AllAllowed-cons g gs (inl u) r.0,
          elim r.1 [ inl e ↦ inl e | inr (x, m, p) ↦ inr (x, Memᴰ.tail m, p) ],
        )
    | inl (inr p) ↦
        let r = grants_from-Accepted true gs (sym (grants_from-granted found g gs p) ∙ h) in
        (AllAllowed-cons g gs (inr p) r.0, inr (g, Memᴰ.head refl, p))
  ]

  Granted_uncons :
      (g : String) (gs : List String)
      → StartsUsage (trim_space (clean_grant calls g))
      → SomeGranted (g ∷ gs)
      → SomeGranted gs
  unfolding SomeGranted IsGranted
  Granted_uncons g gs u (x, m, p) = elim (cases_cons m) [
    | inl e ↦ absurd (p.0 (subst (λ y. StartsUsage (trim_space (clean_grant calls y))) (sym e) u))
    | inr t ↦ (x, t, p)
  ]

  Accepted-grants_from :
      (found : Bool) (grants : List String)
      → AllAllowed grants
      → (found ≡ true) ⊎ SomeGranted grants
      → grants_from calls found grants database ≡ true
  unfolding grants_from SomeGranted AllAllowed IsAllowed
  Accepted-grants_from found [] all (inl e) = e
  Accepted-grants_from found [] all (inr (x, m, p)) = elim m [ ]
  Accepted-grants_from found (g ∷ gs) all h = elim (all g (Memᴰ.head refl)) [
    | inl u ↦
        grants_from-usage found g gs (StartsUsage-is_usage (clean_grant calls g) u)
        ∙ Accepted-grants_from found gs (λ x m. all x (Memᴰ.tail m))
            (elim h [ inl e ↦ inl e | inr s ↦ inr (Granted_uncons g gs u s) ])
    | inr p ↦
        grants_from-granted found g gs p
        ∙ Accepted-grants_from true gs (λ x m. all x (Memᴰ.tail m)) (inl refl)
  ]

  -- ExactLeastPrivilegeGrants accepts the lines of SHOW GRANTS exactly when each of them, without
  -- its password, begins with GRANT USAGE ON *.* TO, in letters of either case and with anything after
  -- it, or is the grant of SELECT, INSERT and DELETE on the challenge table, and one of them is the latter.
  pub exact_grants_lem :
      (grants : List String)
      → (exact_grants calls grants database ≡ true) ↔ (AllAllowed grants × SomeGranted grants)
  unfolding exact_grants Accepted
  exact_grants_lem grants = (
    λ h.
        let r = grants_from-Accepted false grants h in
        (r.0, elim r.1 [ inl e ↦ absurd cc | inr s ↦ s ]),
    λ h. Accepted-grants_from false grants h.0 (inr h.1),
  )
