-- ===== src/State/Tables/Rows.antt =====
-- Laws of the statements on a list of rows.
use goedge_ip_cert.Prelude.{
  ◌+◌, ◌≤◌, ◌<◌, ◌≡◌, refl, Bool, true, some, List, [], ◌∷◌, ◌++◌, Bool-cases, inl, inr, arith,
  if◌then◌else◌,
}
use goedge_ip_cert.State.Tables.{count, update, select, any}

module _ {ℓ} {A : Type ℓ} where
  pub count-append :
      (p : A → Bool) (xs : List A) (y : A)
      → count p (xs ++ y ∷ []) ≡ count p xs + (if p y then 1 else 0)
  unfolding count
  count-append p [] y = ground arith
  count-append p (x ∷ xs) y = ground (arith, count-append p xs y)

  -- A row that fits only where none does yet leaves at most one.
  pub count_insert_le :
      (p : A → Bool) (xs : List A) (y : A)
      → (p y ≡ true → count p xs ≡ 0)
      → count p xs ≤ 1
      → count p (xs ++ y ∷ []) ≤ 1
  count_insert_le p xs y alone h = elim (Bool-cases (p y)) [
    | inl e ↦ ground (arith, count-append p xs y, alone e)
    | inr e ↦ ground (arith, count-append p xs y)
  ]

  pub count-update :
      (q p : A → Bool) (f : A → A) (xs : List A)
      → ((x : A) → p x ≡ true → q (f x) ≡ q x)
      → count q (update p f xs) ≡ count q xs
  unfolding count update
  count-update q p f [] h = refl
  count-update q p f (x ∷ xs) h = elim (Bool-cases (p x)) [
    | inl e ↦ ground (arith, count-update q p f xs h, h x e)
    | inr e ↦ ground (arith, count-update q p f xs h)
  ]

  -- The row that a key selects is changed in its place, if the change keeps the key.
  pub select-update :
      (q p : A → Bool) (f : A → A) (xs : List A) (x : A)
      → ((y : A) → p y ≡ true → q (f y) ≡ q y)
      → select q xs ≡ some x
      → select q (update p f xs) ≡ some (if p x then f x else x)
  unfolding select update
  select-update q p f [] x h e = cc
  select-update q p f (y ∷ ys) x h e = elim (Bool-cases (p y)) [
    | inl c ↦ ground (arith, select-update q p f ys x h, h y c)
    | inr c ↦ ground (arith, select-update q p f ys x h)
  ]

  pub select-append :
      (q : A → Bool) (xs ys : List A) (x : A) → select q xs ≡ some x → select q (xs ++ ys) ≡ some x
  unfolding select
  select-append q [] ys x e = cc
  select-append q (y ∷ xs) ys x e = ground (arith, select-append q xs ys x)

  pub select_fits : (q : A → Bool) (xs : List A) (x : A) → select q xs ≡ some x → q x ≡ true
  unfolding select
  select_fits q [] x e = cc
  select_fits q (y ∷ xs) x e = ground (arith, select_fits q xs x)

  pub count_pos-any : (q : A → Bool) (xs : List A) → 0 < count q xs → any q xs ≡ true
  unfolding count any
  count_pos-any q [] h = absurd (omega arith)
  count_pos-any q (x ∷ xs) h = ground (arith, count_pos-any q xs)
