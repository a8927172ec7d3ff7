-- ===== src/State/Tables/Deleting.antt =====
-- Deleting the rows of a list one after the other.
use goedge_ip_cert.Prelude.{
  ◌≡◌, refl, ◌∙◌, Bool, true, ◌&&◌, ◌||◌, List, [], ◌∷◌, Bool-cases, inl, inr, arith, eq_refl,
}
use goedge_ip_cert.Challenge.Model.{Pending}
use goedge_ip_cert.State.Tables.{delete, any, order_by, insert_by, same_challenge}

module _ {A : Type 0} (f : A → Bool) (before : A → A → Bool) where
  any-insert_by : (x : A) (ys : List A) → any f (insert_by before x ys) ≡ (f x || any f ys)
  unfolding any insert_by
  any-insert_by x [] = refl
  any-insert_by x (y ∷ ys) = elim (Bool-cases (before x y)) [
    | inl e ↦ rw (e, insert_by) refl
    | inr e ↦ rw (e, insert_by) (ground (arith, any-insert_by x ys))
  ]

  pub any-order_by : (xs : List A) → any f (order_by before xs) ≡ any f xs
  unfolding any order_by
  any-order_by [] = refl
  any-order_by (x ∷ xs) = rw (any-insert_by x (order_by before xs), any-order_by xs) refl

-- Whether a row has the key of one of the rows.
abbrev pub hit_by : List Pending → Pending → Bool
hit_by items q = any (λ p. same_challenge p q) items

unfoldable pub all_hit : List Pending → List Pending → Bool
all_hit items [] = true
all_hit items (q ∷ ps) = hit_by items q && all_hit items ps

unfoldable pub delete_all : List Pending → List Pending → List Pending
delete_all [] ps = ps
delete_all (p ∷ items) ps = delete_all items (delete (same_challenge p) ps)

delete_all-[] : (items : List Pending) → delete_all items [] ≡ []
unfolding delete_all delete
delete_all-[] [] = refl
delete_all-[] (p ∷ items) = delete_all-[] items

delete_all-hit :
    (items : List Pending) (q : Pending) (ps : List Pending)
    → hit_by items q ≡ true
    → delete_all items (q ∷ ps) ≡ delete_all items ps
unfolding delete_all delete any
delete_all-hit [] q ps h = absurd cc
delete_all-hit (p ∷ items) q ps h = elim (Bool-cases (same_challenge p q)) [
  | inl e ↦ rw (e, delete) refl
  | inr e ↦ rw (e, delete) (delete_all-hit items q (delete (same_challenge p) ps) (ground arith))
]

pub delete_all-all_hit :
    (items ps : List Pending) → all_hit items ps ≡ true → delete_all items ps ≡ []
unfolding all_hit
delete_all-all_hit items [] h = delete_all-[] items
delete_all-all_hit items (q ∷ ps) h =
    delete_all-hit items q ps (ground arith) ∙ delete_all-all_hit items ps (ground arith)

all_hit-more :
    (x : Pending) (items ps : List Pending)
    → all_hit items ps ≡ true
    → all_hit (x ∷ items) ps ≡ true
unfolding all_hit any
all_hit-more x items [] h = refl
all_hit-more x items (q ∷ ps) h = ground (arith, all_hit-more x items ps)

same_challenge_self : (q : Pending) → same_challenge q q ≡ true
same_challenge_self q = ground (arith, eq_refl q.operation_id, eq_refl q.domain, eq_refl q.token)

all_hit_self : (ps : List Pending) → all_hit ps ps ≡ true
unfolding all_hit any
all_hit_self [] = refl
all_hit_self (q ∷ ps) =
    ground (arith, same_challenge_self q, all_hit-more q ps ps (all_hit_self ps))

all_hit-ordered :
    (before : Pending → Pending → Bool) (items ps : List Pending)
    → all_hit items ps ≡ true
    → all_hit (order_by before items) ps ≡ true
unfolding all_hit
all_hit-ordered before items [] h = refl
all_hit-ordered before items (q ∷ ps) h =
    ground
      (arith, any-order_by (λ p. same_challenge p q) before items, all_hit-ordered before items ps)

-- Deleting by every row of the list, in any order, leaves nothing.
pub delete_all-ordered :
    (before : Pending → Pending → Bool) (ps : List Pending)
    → delete_all (order_by before ps) ps ≡ []
delete_all-ordered before ps =
    delete_all-all_hit (order_by before ps) ps (all_hit-ordered before ps ps (all_hit_self ps))
