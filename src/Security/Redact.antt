-- ===== src/Security/Redact.antt =====
-- internal/security/redact.go. The regular expressions are those of Go's regexp package, a parameter;
-- the rest is over the characters of the text. Control characters are those of Unicode's category Cc.
pub mod Visible
use Prim.Native.Char.{Char, code}
use goedge_ip_cert.Prelude.{
  ℕ, zero, suc, ◌+◌, ◌-◌, String, ◌<>◌, Bool, true, false, not, ◌&&◌, ◌||◌, List, [], ◌∷◌, ltb, leb,
  ◌==◌, if◌then◌else◌,
}

-- What the patterns of the package do to a text.
pub record Patterns : Type 0 where
  -- ansiPattern.ReplaceAllString(value, "")
  pub drop_ansi : String → String
  -- pemPrivateKeyPattern.ReplaceAllString(value, "[REDACTED_PRIVATE_KEY]")
  pub redact_private_keys : String → String
  -- headerSecretPattern.ReplaceAllStringFunc(value, f)
  pub replace_headers : (String → String) → String → String
  -- dsnPasswordPattern.ReplaceAllString(value, "$1:[REDACTED]@")
  pub redact_dsn : String → String

unfoldable utf8_width : ℕ → ℕ
utf8_width c = if ltb c 0x80 then 1 else if ltb c 0x800 then 2 else if ltb c 0x10000 then 3 else 4

-- len(secret), in bytes
unfoldable pub byte_length : String → ℕ
unfolding utf8_width
byte_length String.[] = 0
byte_length (String.◌∷◌ c s) = utf8_width (code c) + byte_length s

unfoldable pub new_redactor : List String → List String
unfolding byte_length
new_redactor [] = []
new_redactor (secret ∷ secrets) =
    let filtered = new_redactor secrets in
    if leb 4 (byte_length secret) then secret ∷ filtered else filtered

unfoldable pub has_prefix : String → String → Bool
has_prefix String.[] s = true
has_prefix (String.◌∷◌ a p) String.[] = false
has_prefix (String.◌∷◌ a p) (String.◌∷◌ c s) = code a == code c && has_prefix p s

abbrev pub characters : String → ℕ
characters String.[] = 0
characters (String.◌∷◌ c s) = suc (characters s)

-- strings.ReplaceAll for a text that is not empty; `skip` characters of the last match are left.
unfoldable pub replace_from : ℕ → String → String → String → String
unfolding has_prefix
replace_from skip secret by String.[] = ""
replace_from zero secret by (String.◌∷◌ c s) =
    let matched = by <> replace_from (characters secret - 1) secret by s in
    let kept = String.◌∷◌ c (replace_from zero secret by s) in
    if has_prefix secret (String.◌∷◌ c s) then matched else kept
replace_from (suc skip) secret by (String.◌∷◌ c s) = replace_from skip secret by s

unfoldable pub replace_all : String → String → String → String
unfolding replace_from
replace_all secret by value = replace_from 0 secret by value

unfoldable pub replace_secrets : List String → String → String
unfolding replace_all
replace_secrets [] value = value
replace_secrets (secret ∷ secrets) value =
    replace_secrets secrets (replace_all secret "[REDACTED]" value)

-- The characters that the last step removes.
abbrev pub is_hidden : ℕ → Bool
is_hidden c =
    c == 10
    || c == 13
    || c == 9
    || ltb c 0x20
    || leb 0x7f c && leb c 0x9f
    || leb 0x202a c && leb c 0x202e
    || leb 0x2066 c && leb c 0x2069
    || c == 0x200b
    || c == 0x200c
    || c == 0x200d
    || c == 0xfeff
    || leb 0xe0000 c && leb c 0xe007f

unfoldable pub drop_hidden : String → String
drop_hidden String.[] = ""
drop_hidden (String.◌∷◌ c s) =
    let rest = drop_hidden s in if is_hidden (code c) then rest else String.◌∷◌ c rest

abbrev is_separator : Char → Bool
is_separator c = code c == b':' || code c == b'='

unfoldable has_separator : String → Bool
has_separator String.[] = false
has_separator (String.◌∷◌ c s) = is_separator c || has_separator s

unfoldable up_to_separator : String → String
up_to_separator String.[] = ""
up_to_separator (String.◌∷◌ c s) =
    let rest = up_to_separator s in if is_separator c then String.◌∷◌ c "" else String.◌∷◌ c rest

-- match[:strings.IndexAny(match, ":=")+1] + "[REDACTED]"
unfoldable pub redact_header : String → String
unfolding has_separator up_to_separator
redact_header match =
    if has_separator match then up_to_separator match <> "[REDACTED]" else "[REDACTED_HEADER]"

-- (*Redactor).Redact
unfoldable pub redact : Patterns → List String → String → String
unfolding redact_header replace_secrets drop_hidden
redact p secrets value =
    let value = p.drop_ansi value in
    let value = p.redact_private_keys value in
    let value = p.replace_headers redact_header value in
    let value = p.redact_dsn value in drop_hidden (replace_secrets secrets value)

abbrev pub first_characters : ℕ → String → String
first_characters zero s = ""
first_characters (suc n) String.[] = ""
first_characters (suc n) (String.◌∷◌ c s) = String.◌∷◌ c (first_characters n s)

-- safeAPIMessage of internal/goedge/client.go
unfoldable pub safe_api_message : Patterns → List String → String → String
unfolding redact new_redactor
safe_api_message p secrets text =
    let message = redact p (new_redactor secrets) text in
    if ltb 1024 (characters message) then first_characters 1024 message <> "..." else message
