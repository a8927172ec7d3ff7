-- ===== src/Ipv4.antt =====
-- internal/ipv4/validate.go: ParsePublic, over the code points of the text. netip.ParseAddr is
-- modelled for texts of digits and dots; it reads any other text as no address or as IPv6, and both
-- are refused alike.
pub mod Canonical
use Prim.Native.Char.{code}
use goedge_ip_cert.Prelude.{
  ℕ, ◌+◌, ◌-◌, ◌*◌, ◌/◌, ◌%◌, ◌^◌, String, Bool, true, false, not, ◌&&◌, ◌||◌, Option, none, some,
  List, [], ◌∷◌, ltb, leb, ◌==◌, if◌then◌else◌,
}
use goedge_ip_cert.Error.{message}
use goedge_ip_cert.Action.{Result, ok, err}

pub record Addr : Type 0 where
  pub a : ℕ
  pub b : ℕ
  pub c : ℕ
  pub d : ℕ

abbrev pub codes : String → List ℕ
codes String.[] = []
codes (String.◌∷◌ c s) = code c ∷ codes s

-- unicode.IsSpace
abbrev pub is_space : ℕ → Bool
is_space c =
    leb 9 c && leb c 13
    || c == 32
    || c == 0x85
    || c == 0xa0
    || c == 0x1680
    || leb 0x2000 c && leb c 0x200a
    || c == 0x2028
    || c == 0x2029
    || c == 0x202f
    || c == 0x205f
    || c == 0x3000

ends_in_space : List ℕ → Bool
ends_in_space [] = false
ends_in_space (c ∷ []) = is_space c
ends_in_space (c ∷ d ∷ cs) = ends_in_space (d ∷ cs)

-- `trimmed == "" || trimmed != value`
unfoldable pub is_untrimmed : List ℕ → Bool
unfolding ends_in_space
is_untrimmed [] = true
is_untrimmed (c ∷ cs) = is_space c || ends_in_space (c ∷ cs)

abbrev pub is_digit : ℕ → Bool
is_digit c = leb b'0' c && leb c b'9'

-- The fields after the first dots are done; `digits` counts those of the field at hand.
unfoldable pub fields : List ℕ → ℕ → ℕ → Option (List ℕ)
fields [] value digits = if digits == 0 then none else some (value ∷ [])
fields (c ∷ cs) value digits =
    let more = fields cs (value * 10 + (c - b'0')) (digits + 1) in
    let next = fields cs 0 0 in
    if is_digit c
    then (if digits == 1 && value == 0 || ltb 255 (value * 10 + (c - b'0')) then none else more)
    else if c == b'.'
    then (if digits == 0 then none else (elim next [ none ↦ none | some fs ↦ some (value ∷ fs) ]))
    else none

four : Option (List ℕ) → Option Addr
four (some (a ∷ b ∷ c ∷ d ∷ [])) = some (record { a = a; b = b; c = c; d = d })
four _ = none

-- netip.ParseAddr, on what is an IPv4 address
unfoldable pub parse_addr : List ℕ → Option Addr
unfolding fields four
parse_addr cs = four (fields cs 0 0)

unfoldable pub print_octet : ℕ → List ℕ → List ℕ
print_octet n rest =
    if ltb n 10
    then (b'0' + n) ∷ rest
    else if ltb n 100
    then (b'0' + n / 10) ∷ (b'0' + n % 10) ∷ rest
    else (b'0' + n / 100) ∷ (b'0' + n / 10 % 10) ∷ (b'0' + n % 10) ∷ rest

-- addr.String()
unfoldable pub print : Addr → List ℕ
unfolding print_octet
print x =
    print_octet x.a (b'.' ∷ print_octet x.b (b'.' ∷ print_octet x.c (b'.' ∷ print_octet x.d [])))

unfoldable pub same_text : List ℕ → List ℕ → Bool
same_text [] [] = true
same_text (x ∷ xs) (y ∷ ys) = x == y && same_text xs ys
same_text _ _ = false

abbrev pub number : Addr → ℕ
number x = ((x.a * 256 + x.b) * 256 + x.c) * 256 + x.d

-- A prefix and its length; prefix.Contains(addr)
abbrev pub contains : ℕ → ℕ → Addr → Bool
contains prefix bits x = number x / 2 ^ (32 - bits) == prefix / 2 ^ (32 - bits)

unfoldable pub in_non_public_prefix : Addr → Bool
in_non_public_prefix x =
    contains 0 8 x
    || contains 0x64400000 10 x
    || contains 0xc0000000 24 x
    || contains 0xc0000200 24 x
    || contains 0xc0586300 24 x
    || contains 0xc6120000 15 x
    || contains 0xc6336400 24 x
    || contains 0xcb007100 24 x
    || contains 0xf0000000 4 x

abbrev is_unspecified : Addr → Bool
is_unspecified x = number x == 0

abbrev is_loopback : Addr → Bool
is_loopback x = x.a == 127

abbrev is_multicast : Addr → Bool
is_multicast x = x.a / 16 == 14

abbrev is_link_local_unicast : Addr → Bool
is_link_local_unicast x = x.a == 169 && x.b == 254

abbrev is_private : Addr → Bool
is_private x = x.a == 10 || x.a == 172 && x.b / 16 == 1 || x.a == 192 && x.b == 168

abbrev is_global_unicast : Addr → Bool
is_global_unicast x = not (
    is_unspecified x
    || number x == 0xffffffff
    || is_loopback x
    || is_multicast x
    || is_link_local_unicast x)

unfoldable pub is_special : Addr → Bool
is_special x =
    not (is_global_unicast x)
    || is_private x
    || is_loopback x
    || is_link_local_unicast x
    || is_multicast x
    || is_unspecified x

check_addr : List ℕ → Option Addr → Result Addr
unfolding print same_text is_special in_non_public_prefix
check_addr value none = err (message "not a native IPv4 address")
check_addr value (some x) =
    if not (same_text (print x) value)
    then err (message "IPv4 is not in canonical form")
    else if is_special x
    then err (message "IPv4 is not publicly verifiable")
    else if in_non_public_prefix x
    then err (message "IPv4 is in a reserved network")
    else ok x

unfoldable pub parse_public : List ℕ → Result Addr
unfolding is_untrimmed parse_addr check_addr
parse_public value =
    if is_untrimmed value
    then err (message "IPv4 must be a non-empty canonical literal")
    else check_addr value (parse_addr value)
