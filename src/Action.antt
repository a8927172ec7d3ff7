-- ===== src/Action.antt =====
-- Methods that change shared state and may return an error. What was written before an error stays
-- written, so the state comes back beside the error too.
pub mod Keeps
pub mod Success
pub mod Returns
pub mod Ends
use goedge_ip_cert.Prelude.{Bool, true, false, Option, none, some}
use goedge_ip_cert.Error.{Error}

pub data Result {ℓ} (A : Type ℓ) : Type ℓ where
  ok : A → Result A
  err : Error → Result A

abbrev pub Action {ℓ} : Type ℓ → Type ℓ → Type ℓ
Action S A = S → Result A × S

unfoldable pub pass {ℓ} : {S A : Type ℓ} → A → Action S A
pass a s = (ok a, s)

unfoldable pub fail {ℓ} : {S A : Type ℓ} → Error → Action S A
fail e s = (err e, s)

-- `if err != nil { return err }`
abbrev pub after {ℓ} : {S A B : Type ℓ} → Result A → (A → Action S B) → Action S B
after (ok a) f s = f a s
after (err e) f s = (err e, s)

-- The error as a value, for the callers that look at it.
unfoldable pub attempt {ℓ} : {S A : Type ℓ} → Action S A → Action S (Result A)
attempt m s = let (r, s') = m s in (ok r, s')

-- Both ways on from a result.
abbrev pub on {ℓ κ} : {A : Type ℓ} {B : Type κ} → Result A → (A → B) → (Error → B) → B
on (ok a) good bad = good a
on (err e) good bad = bad e

-- The same for a value that may be missing.
abbrev pub on_option {ℓ κ} : {A : Type ℓ} {B : Type κ} → Option A → B → (A → B) → B
on_option none absent f = absent
on_option (some a) absent f = f a

-- `if bad { return err }`
unfoldable pub refuse_if {ℓ} : {S : Type ℓ} → Bool → Error → Action S (Unit {ℓ})
refuse_if true e s = (err e, s)
refuse_if false e s = (ok tt, s)

-- an error of the form fmt.Errorf("...: %w", err)
unfoldable pub wrap_error {ℓ} : {S A : Type ℓ} → (Error → Error) → Action S A → Action S A
wrap_error g m s = let (r, s') = m s in (on r (λ a. ok a) (λ e. err (g e)), s')

unfoldable pub lift_option {ℓ} : {S : Type ℓ} → Option Error → Action S (Unit {ℓ})
lift_option none s = (ok tt, s)
lift_option (some e) s = (err e, s)

infixl 5 ◌>>=◌ ◌>>◌
-- Opening this opens all the ways to build an action.
unfoldable pub ◌>>=◌ {ℓ} : {S A B : Type ℓ} → Action S A → (A → Action S B) → Action S B
unfolding pass fail attempt refuse_if wrap_error lift_option
◌>>=◌ m f s = let (r, s') = m s in after r f s'

abbrev pub ◌>>◌ {ℓ} : {S A B : Type ℓ} → Action S A → Action S B → Action S B
m >> k = m >>= λ _. k
