-- ===== src/Action/Success.antt =====
-- What a run without an error says of its steps.
use goedge_ip_cert.Prelude.{◌≡◌, refl, sym, ap, ◌∙◌, Bool, true, false, ◌⊎◌, inl, inr}
use goedge_ip_cert.Error.{Error}
use goedge_ip_cert.Action.{Result, ok, err, Action, refuse_if, wrap_error, ◌>>=◌}

module _ {A : Type 0} where
  pub err≢ok : {e : Error} {a : A} → err e ≡ ok a → ⊥
  err≢ok h = cc

  pub ok-inj : {a b : A} → ok a ≡ ok b → a ≡ b
  ok-inj h = cc

  pub Result-cases : (x : Result A) → ((a : A) × (x ≡ ok a)) ⊎ ((e : Error) × (x ≡ err e))
  Result-cases (ok a) = inl (a, refl)
  Result-cases (err e) = inr (e, refl)

module _ {S A B : Type 0} where
  -- Both steps ran, the second on what the first left.
  pub bind-succeeds :
      (m : Action S A) (f : A → Action S B) (s : S) (b : B)
      → ((m >>= f) s).0 ≡ ok b
      → (a : A) × ((m s).0 ≡ ok a) × ((m >>= f) s ≡ f a (m s).1)
  unfolding ◌>>=◌
  bind-succeeds m f s b h = elim (Result-cases (m s).0) [
    | inl (a, e) ↦ (a, e, rw e refl)
    | inr (e, p) ↦ absurd (err≢ok (rw p at h))
  ]

  -- The same, for the next step to go on from.
  pub step-succeeds :
      (m : Action S A) (f : A → Action S B) (s : S) (b : B)
      → ((m >>= f) s).0 ≡ ok b
      → (a : A) × ((m s).0 ≡ ok a) × ((f a (m s).1).0 ≡ ok b) × (((m >>= f) s).1 ≡ (f a (m s).1).1)
  step-succeeds m f s b h =
      let t = bind-succeeds m f s b h in (t.0, t.1, sym (ap (λ r. r.0) t.2) ∙ h, ap (λ r. r.1) t.2)

module _ {S A B : Type 0} where
  -- After a step without an error comes the next, on what it left.
  pub bind-ok :
      (m : Action S A) (f : A → Action S B) (s : S) (a : A)
      → (m s).0 ≡ ok a
      → (m >>= f) s ≡ f a (m s).1
  unfolding ◌>>=◌
  bind-ok m f s a h = rw h refl

  pub bind-err :
      (m : Action S A) (f : A → Action S B) (s : S) (e : Error)
      → (m s).0 ≡ err e
      → (m >>= f) s ≡ (err e, (m s).1)
  unfolding ◌>>=◌
  bind-err m f s e h = rw h refl

pub wrap-succeeds :
    {S A : Type 0} (g : Error → Error) (m : Action S A) (s : S) (a : A)
    → (wrap_error g m s).0 ≡ ok a
    → (m s).0 ≡ ok a
unfolding wrap_error
wrap-succeeds g m s a h = elim (Result-cases (m s).0) [
  | inl (b, e) ↦ e ∙ (rw e at h)
  | inr (e, p) ↦ absurd (err≢ok (rw p at h))
]

-- What is not refused goes on.
pub refuse-passes :
    {S A : Type 0} (b : Bool) (e : Error) (f : Unit {0} → Action S A) (s : S)
    → b ≡ false
    → (refuse_if b e >>= f) s ≡ f tt s
unfolding ◌>>=◌
refuse-passes b e f s h = rw h refl

pub refuse-stops :
    {S A : Type 0} (b : Bool) (e : Error) (f : Unit {0} → Action S A) (s : S)
    → b ≡ true
    → (refuse_if b e >>= f) s ≡ (err e, s)
unfolding ◌>>=◌
refuse-stops b e f s h = rw h refl

pub refuse-succeeds :
    {S : Type 0} (b : Bool) (e : Error) (s : S) (u : Unit {0})
    → (refuse_if b e s).0 ≡ ok u
    → (b ≡ false) × ((refuse_if b e s).1 ≡ s)
unfolding refuse_if
refuse-succeeds true e s u h = absurd (err≢ok h)
refuse-succeeds false e s u h = (refl, refl)
