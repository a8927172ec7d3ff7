-- ===== src/Action/Returns.antt =====
-- What an action promises about the value it returns, when it returns one.
use mathlib.Core.Path.{subst}
use goedge_ip_cert.Prelude.{
  ◌≡◌, refl, sym, ap, ◌∙◌, Bool, true, false, Option, none, some, if◌then◌else◌,
}
use goedge_ip_cert.Error.{Error}
use goedge_ip_cert.Action.Success.{err≢ok, ok-inj, bind-succeeds}
use goedge_ip_cert.Action.{ok, Action, pass, fail, on_option, ◌>>=◌}

pub record Returns {S A : Type 0} (Q : A → Type 0) (m : Action S A) : Type 0 where
  pub at : (s : S) (a : A) → (m s).0 ≡ ok a → Q a

module _ {S A : Type 0} {Q : A → Type 0} where
  pub Returns-pass : (a : A) → Q a → Returns {S = S} Q (pass a)
  unfolding pass
  Returns-pass a q = record { at = λ s b h. subst Q (ok-inj h) q }

  pub Returns-fail : (e : Error) → Returns {S = S} Q (fail e)
  unfolding fail
  Returns-fail e = record { at = λ s b h. absurd (err≢ok h) }

  pub Returns-if :
      (b : Bool) (m n : Action S A)
      → (b ≡ true → Returns Q m)
      → (b ≡ false → Returns Q n)
      → Returns Q (if b then m else n)
  Returns-if true m n rm rn = rm refl
  Returns-if false m n rm rn = rn refl

  pub Returns-on_option :
      {B : Type 0} (o : Option B) (m : Action S A) (f : B → Action S A)
      → Returns Q m
      → ((b : B) → o ≡ some b → Returns Q (f b))
      → Returns Q (on_option o m f)
  Returns-on_option none m f rm rf = rm
  Returns-on_option (some b) m f rm rf = rf b refl

  -- Of the first step's value only what it promises is known.
  pub Returns-bind :
      {B : Type 0} (R : B → Type 0) (m : Action S B) (f : B → Action S A)
      → Returns R m
      → ((b : B) → R b → Returns Q (f b))
      → Returns Q (m >>= f)
  Returns-bind R m f rm rf = record {
    at = λ s a h.
        let t = bind-succeeds m f s a h in
        (rf t.0 (rm.at s t.0 t.1)).at _ a (sym (ap (λ r. r.0) t.2) ∙ h);
  }

  pub Returns-then :
      {B : Type 0} (m : Action S B) (f : B → Action S A)
      → ((b : B) → Returns Q (f b))
      → Returns Q (m >>= f)
  Returns-then m f rf = Returns-bind (λ _. Unit {0}) m f (record { at = λ s a h. tt }) (λ b _. rf b)
