-- ===== src/Action/Keeps.antt =====
-- A predicate on the state that an action keeps, with an error or without: a rule for each way in
-- which the models build their actions.
use goedge_ip_cert.Prelude.{◌≡◌, refl, Bool, true, false, Option, none, some, if◌then◌else◌}
use goedge_ip_cert.Error.{Error}
use goedge_ip_cert.Action.{
  Result, ok, err, Action, pass, fail, after, ◌>>=◌, attempt, on, on_option, refuse_if, wrap_error,
  lift_option,
}

pub record Keeps {ℓ} {S A : Type ℓ} (P : S → Type ℓ) (m : Action S A) : Type ℓ where
  pub at : (s : S) → P s → P (m s).1

module _ {ℓ} {S : Type ℓ} {P : S → Type ℓ} where
  pub Keeps-refuse_if : (b : Bool) (e : Error) → Keeps P (refuse_if b e)
  unfolding refuse_if
  Keeps-refuse_if true e = record { at = λ s h. h }
  Keeps-refuse_if false e = record { at = λ s h. h }

  pub Keeps-lift_option : (o : Option Error) → Keeps P (lift_option o)
  unfolding lift_option
  Keeps-lift_option none = record { at = λ s h. h }
  Keeps-lift_option (some e) = record { at = λ s h. h }

module _ {ℓ} {S A : Type ℓ} {P : S → Type ℓ} where
  -- What comes after a refusal may count on what was not refused.
  pub Keeps-unless :
      (b : Bool) (e : Error) (f : Unit {ℓ} → Action S A)
      → (b ≡ false → Keeps P (f tt))
      → Keeps P (refuse_if b e >>= f)
  unfolding ◌>>=◌
  Keeps-unless true e f kf = record { at = λ s h. h }
  Keeps-unless false e f kf = record { at = λ s h. (kf refl).at s h }

  pub Keeps-pass : (a : A) → Keeps P (pass a)
  unfolding pass
  Keeps-pass a = record { at = λ s h. h }

  pub Keeps-fail : (e : Error) → Keeps P (fail {A = A} e)
  unfolding fail
  Keeps-fail e = record { at = λ s h. h }

  pub Keeps-if :
      (b : Bool) (m n : Action S A) → Keeps P m → Keeps P n → Keeps P (if b then m else n)
  Keeps-if true m n km kn = km
  Keeps-if false m n km kn = kn

  pub Keeps-attempt : (m : Action S A) → Keeps P m → Keeps P (attempt m)
  unfolding attempt
  Keeps-attempt m km = record { at = λ s h. km.at s h }

  pub Keeps-wrap_error : (g : Error → Error) (m : Action S A) → Keeps P m → Keeps P (wrap_error g m)
  unfolding wrap_error
  Keeps-wrap_error g m km = record { at = λ s h. km.at s h }

module _ {ℓ} {S A B : Type ℓ} {P : S → Type ℓ} where
  pub Keeps-on :
      (r : Result A) (f : A → Action S B) (g : Error → Action S B)
      → ((a : A) → Keeps P (f a))
      → ((e : Error) → Keeps P (g e))
      → Keeps P (on r f g)
  Keeps-on (ok a) f g kf kg = kf a
  Keeps-on (err e) f g kf kg = kg e

  pub Keeps-on_option :
      (o : Option A) (m : Action S B) (f : A → Action S B)
      → Keeps P m
      → ((a : A) → Keeps P (f a))
      → Keeps P (on_option o m f)
  Keeps-on_option none m f km kf = km
  Keeps-on_option (some a) m f km kf = kf a

  Keeps-after :
      (r : Result A) (f : A → Action S B) → ((a : A) → Keeps P (f a)) → Keeps P (after r f)
  Keeps-after (ok a) f kf = record { at = λ s h. (kf a).at s h }
  Keeps-after (err e) f kf = record { at = λ s h. h }

  pub Keeps-bind :
      (m : Action S A) (f : A → Action S B)
      → Keeps P m
      → ((a : A) → Keeps P (f a))
      → Keeps P (m >>= f)
  unfolding ◌>>=◌
  Keeps-bind m f km kf = record { at = λ s h. (Keeps-after (m s).0 f kf).at (m s).1 (km.at s h) }

pub ruleset keeps_rules = (
  Keeps-pass, Keeps-fail, Keeps-refuse_if, Keeps-lift_option, Keeps-if, Keeps-attempt,
  Keeps-wrap_error, Keeps-on, Keeps-on_option, Keeps-bind,
)
