-- ===== src/Ipv4/Canonical.antt =====
-- What ParsePublic accepts.
use goedge_ip_cert.Prelude.{
  ℕ, ◌≤◌, ◌+◌, ◌-◌, ◌*◌, ◌==◌, ◌&&◌, ◌||◌, ltb, ap, ◌≡◌, refl, sym, true, false, List, [], ◌∷◌,
  Option, some, none, Bool-cases, inl, inr, arith,
}
use mathlib.Core.Path.{subst}
use mathlib.Core.Option.{some-injective}
use goedge_ip_cert.Action.Success.{err≢ok, ok-inj}
use goedge_ip_cert.Action.{ok}
use goedge_ip_cert.Ipv4.{
  Addr, is_untrimmed, is_digit, four, fields, parse_addr, print, same_text, in_non_public_prefix,
  is_special, check_addr, parse_public,
}

same_text-eq : (xs ys : List ℕ) → same_text xs ys ≡ true → xs ≡ ys
unfolding same_text
same_text-eq [] [] h = refl
same_text-eq [] (y ∷ ys) h = absurd cc
same_text-eq (x ∷ xs) [] h = absurd cc
same_text-eq (x ∷ xs) (y ∷ ys) h = ground (arith, same_text-eq xs ys)

-- The networks that the program excludes, by their octets.
pub data Excluded (x : Addr) : Type 0 where
  this_network : x.a ≡ 0 → Excluded x
  private_10 : x.a ≡ 10 → Excluded x
  carrier : x.a ≡ 100 → 64 ≤ x.b → x.b ≤ 127 → Excluded x
  loopback : x.a ≡ 127 → Excluded x
  link_local : x.a ≡ 169 → x.b ≡ 254 → Excluded x
  private_172 : x.a ≡ 172 → 16 ≤ x.b → x.b ≤ 31 → Excluded x
  private_192 : x.a ≡ 192 → x.b ≡ 168 → Excluded x
  protocol : x.a ≡ 192 → x.b ≡ 0 → x.c ≡ 0 → Excluded x
  test_1 : x.a ≡ 192 → x.b ≡ 0 → x.c ≡ 2 → Excluded x
  relay : x.a ≡ 192 → x.b ≡ 88 → x.c ≡ 99 → Excluded x
  benchmark : x.a ≡ 198 → 18 ≤ x.b → x.b ≤ 19 → Excluded x
  test_2 : x.a ≡ 198 → x.b ≡ 51 → x.c ≡ 100 → Excluded x
  test_3 : x.a ≡ 203 → x.b ≡ 0 → x.c ≡ 113 → Excluded x
  multicast_or_reserved : 224 ≤ x.a → Excluded x

pub IsAddr : Addr → Type 0
IsAddr x = (x.a ≤ 255) × (x.b ≤ 255) × (x.c ≤ 255) × (x.d ≤ 255)

-- The one spelling of an address that is in none of these networks.
pub record Canonical (value : List ℕ) (x : Addr) : Type 0 where
  pub parsed : parse_addr value ≡ some x
  pub text : value ≡ print x
  pub octets : IsAddr x
  pub not_excluded : Excluded x → ⊥

AllBounded : List ℕ → Type 0
AllBounded [] = Unit {0}
AllBounded (v ∷ vs) = (v ≤ 255) × AllBounded vs

Bounded : Option (List ℕ) → Type 0
Bounded none = Unit {0}
Bounded (some vs) = AllBounded vs

cons-Bounded :
    (value : ℕ) (o : Option (List ℕ))
    → value ≤ 255
    → Bounded o
    → Bounded (elim o [ none ↦ none | some fs ↦ some (value ∷ fs) ])
unfolding Bounded AllBounded
cons-Bounded value none h k = tt
cons-Bounded value (some fs) h k = (h, k)

fields-Bounded : (cs : List ℕ) (value digits : ℕ) → value ≤ 255 → Bounded (fields cs value digits)
unfolding fields Bounded AllBounded
fields-Bounded [] value digits h = elim (Bool-cases (digits == 0)) [
  | inl e ↦ rw (e, fields) tt
  | inr e ↦ rw (e, fields) (h, tt)
]
fields-Bounded (c ∷ cs) value digits h = elim (Bool-cases (is_digit c)) [
  | inl e ↦ elim (Bool-cases (digits == 1 && value == 0 || ltb 255 (value * 10 + (c - b'0')))) [
    | inl f ↦ rw (e, f, fields) tt
    | inr f ↦
        rw (e, f, fields) (fields-Bounded cs (value * 10 + (c - b'0')) (digits + 1) (ground arith))
  ]
  | inr e ↦ elim (Bool-cases (c == b'.')) [
    | inr f ↦ rw (e, f, fields) tt
    | inl f ↦ elim (Bool-cases (digits == 0)) [
      | inl g ↦ rw (e, f, g, fields) tt
      | inr g ↦
          rw (e, f, g, fields)
            (cons-Bounded value (fields cs 0 0) h (fields-Bounded cs 0 0 ((omega arith))))
    ]
  ]
]

four-IsAddr : (o : Option (List ℕ)) (x : Addr) → Bounded o → four o ≡ some x → IsAddr x
unfolding four Bounded AllBounded IsAddr
four-IsAddr (some (a ∷ b ∷ c ∷ d ∷ [])) x h e =
    let same = some-injective _ _ e in
    (
      subst (λ n. n ≤ 255) (ap (λ y. y.a) same) h.0,
      subst (λ n. n ≤ 255) (ap (λ y. y.b) same) h.1.0,
      subst (λ n. n ≤ 255) (ap (λ y. y.c) same) h.1.1.0,
      subst (λ n. n ≤ 255) (ap (λ y. y.d) same) h.1.1.1.0,
    )
four-IsAddr none x h e = absurd cc
four-IsAddr (some []) x h e = absurd cc
four-IsAddr (some (a ∷ [])) x h e = absurd cc
four-IsAddr (some (a ∷ b ∷ [])) x h e = absurd cc
four-IsAddr (some (a ∷ b ∷ c ∷ [])) x h e = absurd cc
four-IsAddr (some (a ∷ b ∷ c ∷ d ∷ e' ∷ r)) x h e = absurd cc

parsed-IsAddr : (value : List ℕ) (x : Addr) → parse_addr value ≡ some x → IsAddr x
unfolding parse_addr
parsed-IsAddr value x e =
    four-IsAddr (fields value 0 0) x (fields-Bounded value 0 0 (omega arith)) e

Excluded-refused :
    (x : Addr) → IsAddr x → is_special x ≡ false → in_non_public_prefix x ≡ false → Excluded x → ⊥
unfolding is_special in_non_public_prefix IsAddr
Excluded-refused x o s n (this_network p) = ground arith
Excluded-refused x o s n (private_10 p) = ground arith
Excluded-refused x o s n (carrier p q r) = ground arith
Excluded-refused x o s n (loopback p) = ground arith
Excluded-refused x o s n (link_local p q) = ground arith
Excluded-refused x o s n (private_172 p q r) = ground arith
Excluded-refused x o s n (private_192 p q) = ground arith
Excluded-refused x o s n (protocol p q r) = ground arith
Excluded-refused x o s n (test_1 p q r) = ground arith
Excluded-refused x o s n (relay p q r) = ground arith
Excluded-refused x o s n (benchmark p q r) = ground arith
Excluded-refused x o s n (test_2 p q r) = ground arith
Excluded-refused x o s n (test_3 p q r) = ground arith
Excluded-refused x o s n (multicast_or_reserved p) = ground arith

check_addr-Canonical :
    (value : List ℕ) (o : Option Addr) (x : Addr)
    → parse_addr value ≡ o
    → check_addr value o ≡ ok x
    → Canonical value x
unfolding check_addr
check_addr-Canonical value none x p h = absurd cc
check_addr-Canonical value (some y) x p h = elim (Bool-cases (same_text (print y) value)) [
  | inr t ↦ absurd (err≢ok (rw (t, check_addr) at h))
  | inl t ↦ elim (Bool-cases (is_special y)) [
    | inl e ↦ absurd (err≢ok (rw (t, e, check_addr) at h))
    | inr e ↦ elim (Bool-cases (in_non_public_prefix y)) [
      | inl n ↦ absurd (err≢ok (rw (t, e, n, check_addr) at h))
      | inr n ↦
          let same = ok-inj (rw (t, e, n, check_addr) at h) in
          subst (λ z. Canonical value z) same
            (record {
              parsed = p;
              text = sym (same_text-eq (print y) value t);
              octets = parsed-IsAddr value y p;
              not_excluded = Excluded-refused y (parsed-IsAddr value y p) e n;
            })
    ]
  ]
]

-- A text that ParsePublic accepts is the one spelling of its address, four octets up to 255, and the
-- address lies in none of the networks 0/8, 10/8, 100.64/10, 127/8, 169.254/16, 172.16/12, 192.168/16,
-- 192.0.0/24, 192.0.2/24, 192.88.99/24, 198.18/15, 198.51.100/24 and 203.0.113/24, and below 224/3.
pub parse_public-Canonical :
    (value : List ℕ) (x : Addr) → parse_public value ≡ ok x → Canonical value x
unfolding parse_public
parse_public-Canonical value x h = elim (Bool-cases (is_untrimmed value)) [
  | inl e ↦ absurd (err≢ok (rw (e, parse_public) at h))
  | inr e ↦ check_addr-Canonical value (parse_addr value) x refl (rw (e, parse_public) at h)
]
