-- ===== src/Security/Redact/Visible.antt =====
-- What a redacted text cannot hold.
use Prim.Native.Char.{code}
use text.Mathlib.TextLemmas.{nil-append, cons-append}
use goedge_ip_cert.Prelude.{
  ℕ, zero, suc, ◌+◌, ◌≤◌, ◌≡◌, refl, String, ◌<>◌, Bool, true, ◌&&◌, ◌||◌, false, List, arith, leb,
  ltb, Bool-cases, inl, inr,
}
use goedge_ip_cert.Security.Redact.{
  Patterns, is_hidden, drop_hidden, redact, redact_header, replace_secrets, characters,
  first_characters, safe_api_message, new_redactor,
}

-- The characters that may be shown, range by range: what is left out are the controls, U+200B to U+200D,
-- U+202A to U+202E, U+2066 to U+2069, U+FEFF and the tags.
abbrev pub is_shown : ℕ → Bool
is_shown c =
    leb 0x20 c && leb c 0x7e
    || leb 0xa0 c && leb c 0x200a
    || leb 0x200e c && leb c 0x2029
    || leb 0x202f c && leb c 0x2065
    || leb 0x206a c && leb c 0xfefe
    || leb 0xff00 c && leb c 0xdffff
    || leb 0xe0080 c

abbrev pub is_visible : String → Bool
is_visible String.[] = true
is_visible (String.◌∷◌ c s) = is_shown (code c) && is_visible s

hidden_or_shown : (c : ℕ) → is_hidden c ≡ false → is_shown c ≡ true
hidden_or_shown c h = ground arith

drop_hidden-visible : (s : String) → is_visible (drop_hidden s) ≡ true
unfolding drop_hidden
drop_hidden-visible String.[] = refl
drop_hidden-visible (String.◌∷◌ c s) = elim (Bool-cases (is_hidden (code c))) [
  | inl e ↦ rw (e, drop_hidden) (drop_hidden-visible s)
  | inr e ↦ rw (e, drop_hidden, hidden_or_shown (code c) e) (drop_hidden-visible s)
]

first-visible :
    (n : ℕ) (s : String) → is_visible s ≡ true → is_visible (first_characters n s) ≡ true
first-visible zero s h = refl
first-visible (suc n) String.[] h = refl
first-visible (suc n) (String.◌∷◌ c s) h = ground (arith, first-visible n s)

append-visible :
    (s t : String) → is_visible s ≡ true → is_visible t ≡ true → is_visible (s <> t) ≡ true
append-visible String.[] t h k = rw (nil-append t) k
append-visible (String.◌∷◌ c s) t h k = rw (cons-append c s t) (ground (arith, append-visible s t))

characters-first : (n : ℕ) (s : String) → characters (first_characters n s) ≤ n
characters-first zero s = omega arith
characters-first (suc n) String.[] = omega arith
characters-first (suc n) (String.◌∷◌ c s) = omega (arith, characters-first n s)

characters-append : (s t : String) → characters (s <> t) ≡ characters s + characters t
characters-append String.[] t = rw (nil-append t) (omega arith)
characters-append (String.◌∷◌ c s) t = rw (cons-append c s t) (omega (arith, characters-append s t))

redact-visible :
    (p : Patterns) (secrets : List String) (text : String)
    → is_visible (redact p secrets text) ≡ true
unfolding redact
redact-visible p secrets text = drop_hidden-visible (
    replace_secrets secrets
      (p.redact_dsn (p.replace_headers redact_header (p.redact_private_keys (p.drop_ansi text)))))

-- Whatever text the EdgeAPI sends and whatever the patterns make of it, the message that ends up in an
-- error has at most 1024 characters and "...", and none of them is a control character, one of U+200B to
-- U+200D, U+202A to U+202E, U+2066 to U+2069 and U+FEFF, or a tag character.
pub safe_api_message_lem :
    (p : Patterns) (secrets : List String) (text : String)
    → (is_visible (safe_api_message p secrets text) ≡ true)
      × (characters (safe_api_message p secrets text) ≤ 1027)
unfolding safe_api_message
safe_api_message_lem p secrets text =
    let m = redact p (new_redactor secrets) text in
    let v = redact-visible p (new_redactor secrets) text in
    elim (Bool-cases (ltb 1024 (characters m))) [
      | inl e ↦
          let short = characters-first 1024 m in
          rw (e, safe_api_message)
            (
              append-visible (first_characters 1024 m) "..." (first-visible 1024 m v) refl,
              rw (characters-append (first_characters 1024 m) "...") (omega arith),
            )
      | inr e ↦ rw (e, safe_api_message) (v, ground arith)
    ]
