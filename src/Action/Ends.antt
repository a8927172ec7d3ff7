-- ===== src/Action/Ends.antt =====
-- A triple for actions that clean up after an error: what holds before, after success and after an error.
use goedge_ip_cert.Prelude.{◌≡◌, refl, Bool, true, false, if◌then◌else◌}
use goedge_ip_cert.Error.{Error}
use goedge_ip_cert.Action.{Result, ok, err, Action, pass, fail, attempt, on, ◌>>=◌}
use goedge_ip_cert.Action.Keeps.{Keeps}
use goedge_ip_cert.Action.Returns.{Returns}

unfoldable pub Outcome : {S A : Type 0} → (S → Type 0) → (S → Type 0) → Result A × S → Type 0
Outcome Q R r = on r.0 (λ a. Q r.1) (λ e. R r.1)

pub record Ends {S A : Type 0} (P Q R : S → Type 0) (m : Action S A) : Type 0 where
  pub at : (s : S) → P s → Outcome Q R (m s)

module _ {S A : Type 0} {P R : S → Type 0} where
  pub Ends-pass : (a : A) → Ends P P R (pass a)
  unfolding pass Outcome
  Ends-pass a = record { at = λ s h. h }

  pub Ends-fail : (e : Error) → Ends P R P (fail {A = A} e)
  unfolding fail Outcome
  Ends-fail e = record { at = λ s h. h }

module _ {S A : Type 0} (P : S → Type 0) where
  Outcome-unchanged : (r : Result A × S) → P r.1 → Outcome P P r
  unfolding Outcome
  Outcome-unchanged (ok a, s) h = h
  Outcome-unchanged (err e, s) h = h

module _ {S A : Type 0} {P : S → Type 0} where
  pub Ends-Keeps : (m : Action S A) → Keeps P m → Ends P P P m
  Ends-Keeps m k = record { at = λ s h. Outcome-unchanged P (m s) (k.at s h) }

module _ {S A : Type 0} {P Q R : S → Type 0} where
  pub Ends-if :
      (b : Bool) (m n : Action S A) → Ends P Q R m → Ends P Q R n → Ends P Q R (if b then m else n)
  Ends-if true m n km kn = km
  Ends-if false m n km kn = kn

  pub Ends-on :
      {B : Type 0} (r : Result B) (f : B → Action S A) (g : Error → Action S A)
      → ((b : B) → Ends P Q R (f b))
      → ((e : Error) → Ends P Q R (g e))
      → Ends P Q R (on r f g)
  Ends-on (ok b) f g kf kg = kf b
  Ends-on (err e) f g kf kg = kg e

module _ {S A B : Type 0} {Q R : S → Type 0} where
  Outcome-bind :
      (P' : S → Type 0) (r : Result A × S) (m : Action S A) (f : A → Action S B) (s : S)
      → m s ≡ r
      → Outcome P' R r
      → ((a : A) → Ends P' Q R (f a))
      → Outcome Q R ((m >>= f) s)
  unfolding ◌>>=◌ Outcome
  Outcome-bind P' (ok a, t) m f s eq h kf = rw eq ((kf a).at t h)
  Outcome-bind P' (err e, t) m f s eq h kf = rw eq h

  pub Ends-bind :
      {P : S → Type 0} (P' : S → Type 0) (m : Action S A) (f : A → Action S B)
      → Ends P P' R m
      → ((a : A) → Ends P' Q R (f a))
      → Ends P Q R (m >>= f)
  Ends-bind P' m f km kf = record { at = λ s h. Outcome-bind P' (m s) m f s refl (km.at s h) kf }

  Outcome-attempt :
      (P' R' : S → Type 0) (r : Result A × S) (m : Action S A) (f : A → Action S B)
      (g : Error → Action S B) (s : S)
      → m s ≡ r
      → Outcome P' R' r
      → ((a : A) → Ends P' Q R (f a))
      → ((e : Error) → Ends R' Q R (g e))
      → Outcome Q R ((attempt m >>= λ x. on x f g) s)
  unfolding ◌>>=◌ attempt Outcome
  Outcome-attempt P' R' (ok a, t) m f g s eq h kf kg = rw eq ((kf a).at t h)
  Outcome-attempt P' R' (err e, t) m f g s eq h kf kg = rw eq ((kg e).at t h)

  -- A step whose error the caller looks at.
  pub Ends-attempt :
      {P : S → Type 0} (P' R' : S → Type 0) (m : Action S A) (f : A → Action S B)
      (g : Error → Action S B)
      → Ends P P' R' m
      → ((a : A) → Ends P' Q R (f a))
      → ((e : Error) → Ends R' Q R (g e))
      → Ends P Q R (attempt m >>= λ x. on x f g)
  Ends-attempt P' R' m f g km kf kg = record {
    at = λ s h. Outcome-attempt P' R' (m s) m f g s refl (km.at s h) kf kg;
  }

  -- A step whose result the caller looks at, with what is known of its value.
  pub Ends-look :
      {P : S → Type 0} (V : A → Type 0) (m : Action S A) (f : Result A → Action S B)
      → Keeps P m
      → Returns V m
      → ((r : Result A) → ((a : A) → r ≡ ok a → V a) → Ends P Q R (f r))
      → Ends P Q R (attempt m >>= f)
  unfolding ◌>>=◌ attempt
  Ends-look V m f k v kf = record {
    at = λ s h. (kf (m s).0 (λ a e. v.at s a e)).at (m s).1 (k.at s h);
  }
