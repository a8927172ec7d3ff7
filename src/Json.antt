-- ===== src/Json.antt =====
-- What encoding/json makes of a text: an object of named values. A value is a number, a text, a Boolean,
-- bytes (a base64 text), a list of texts, or an object of such values. The text itself is left to
-- encoding/json; `null`, which stands for a nil slice, is the empty list here.
use goedge_ip_cert.Prelude.{
  ℕ, String, Bool, true, false, ◌&&◌, ◌==◌, ◌+◌, leb, Option, none, some, List, [], ◌∷◌,
  if◌then◌else◌,
}
use goedge_ip_cert.Prelude.Int.{ℤ, pos}
use goedge_ip_cert.Ipv4.{codes}

pub data Scalar : Type 0 where
  number : ℤ → Scalar
  text : String → Scalar
  boolean : Bool → Scalar
  bytes : List ℕ → Scalar
  texts : List String → Scalar

pub record ScalarField : Type 0 where
  pub name : String
  pub value : Scalar

pub data Value : Type 0 where
  scalar : Scalar → Value
  nested : List ScalarField → Value

pub record Field : Type 0 where
  pub name : String
  pub value : Value

-- What has the fold of an ASCII letter: the letter in both cases, and two signs beyond ASCII.
fold : ℕ → ℕ
fold c =
    if leb b'A' c && leb c b'Z'
    then c + 32
    else if c == 0x17f
    then b's'
    else if c == 0x212a
    then b'k'
    else c

unfoldable pub same_name : List ℕ → List ℕ → Bool
unfolding fold
same_name [] [] = true
same_name (c ∷ cs) (d ∷ ds) = fold c == fold d && same_name cs ds
same_name _ _ = false

-- The last value of a name, in letters of either case, as Unmarshal takes it.
unfoldable pub last_scalar : String → Option Scalar → List ScalarField → Option Scalar
unfolding same_name
last_scalar name found [] = found
last_scalar name found (f ∷ fields) =
    last_scalar name (if same_name (codes name) (codes f.name) then some f.value else found) fields

unfoldable pub last_value : String → Option Value → List Field → Option Value
unfolding same_name
last_value name found [] = found
last_value name found (f ∷ fields) =
    last_value name (if same_name (codes name) (codes f.name) then some f.value else found) fields

-- A missing value is the zero of its type, a value of another type is an error.
abbrev pub as_number : Option Scalar → Option ℤ
as_number none = some (pos 0)
as_number (some (number n)) = some n
as_number (some _) = none

abbrev pub as_text : Option Scalar → Option String
as_text none = some ""
as_text (some (text t)) = some t
as_text (some _) = none

abbrev pub as_boolean : Option Scalar → Option Bool
as_boolean none = some false
as_boolean (some (boolean b)) = some b
as_boolean (some _) = none

abbrev pub as_bytes : Option Scalar → Option (List ℕ)
as_bytes none = some []
as_bytes (some (bytes b)) = some b
as_bytes (some _) = none

abbrev pub as_texts : Option Scalar → Option (List String)
as_texts none = some []
as_texts (some (texts t)) = some t
as_texts (some _) = none

-- Of an object's value, the scalar; of the value of a struct, the object.
abbrev pub as_scalar : Option Value → Option (Option Scalar)
as_scalar none = some none
as_scalar (some (scalar s)) = some (some s)
as_scalar (some (nested fields)) = none

abbrev pub as_nested : Option Value → Option (List ScalarField)
as_nested none = some []
as_nested (some (nested fields)) = some fields
as_nested (some (scalar s)) = none
