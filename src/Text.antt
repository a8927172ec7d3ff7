-- ===== src/Text.antt =====
-- Go's strings package on code points, as far as internal/goedge and internal/challenge use it: they look
-- for texts of ASCII characters; and the order of texts, which is also that of SQLite.
use Prim.Native.Char.{code}
use goedge_ip_cert.Prelude.{
  String, ltb, ℕ, ◌+◌, Bool, true, false, ◌&&◌, ◌||◌, List, [], ◌∷◌, leb, ◌==◌, if◌then◌else◌,
}

-- strings.ToLower, as far as its result is one of the letters that the program looks for.
abbrev pub to_lower : ℕ → ℕ
to_lower c =
    if leb b'A' c && leb c b'Z'
    then c + 32
    else if c == 0x130
    then b'i'
    else if c == 0x212a
    then b'k'
    else c

unfoldable pub starts_lower : List ℕ → List ℕ → Bool
starts_lower [] cs = true
starts_lower (c ∷ word) [] = false
starts_lower (c ∷ word) (d ∷ cs) = c == to_lower d && starts_lower word cs

-- strings.Contains(strings.ToLower(text), word)
unfoldable pub mentions : List ℕ → List ℕ → Bool
unfolding starts_lower
mentions word [] = starts_lower word []
mentions word (c ∷ cs) = starts_lower word (c ∷ cs) || mentions word cs

-- strings.ToLower(text) == word
unfoldable pub equals_lower : List ℕ → List ℕ → Bool
equals_lower [] [] = true
equals_lower (c ∷ word) (d ∷ cs) = c == to_lower d && equals_lower word cs
equals_lower _ _ = false

abbrev ascii_lower : ℕ → ℕ
ascii_lower c = if leb b'A' c && leb c b'Z' then c + 32 else c

-- strings.EqualFold(text, word), for a lower-case word without k and s, which have foldings beyond ASCII
unfoldable pub equal_fold : List ℕ → List ℕ → Bool
equal_fold [] [] = true
equal_fold (c ∷ word) (d ∷ cs) = c == ascii_lower d && equal_fold word cs
equal_fold _ _ = false

-- strings compared with <: their UTF-8 bytes are in the order of their code points.
unfoldable pub text_before : String → String → Bool
text_before s String.[] = false
text_before String.[] (String.◌∷◌ d t) = true
text_before (String.◌∷◌ c s) (String.◌∷◌ d t) =
    ltb (code c) (code d) || code c == code d && text_before s t
