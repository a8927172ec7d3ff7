-- ===== src/GoEdge/Websites/Order.antt =====
-- The order and the uniqueness of the listed websites.
use Prim.Native.Char.{code}
use text.Mathlib.TextEquality.{Char-path}
use goedge_ip_cert.Prelude.{
  suc, ◌≤◌, ◌≡◌, refl, ◌∙◌, String, Bool, true, false, ◌&&◌, List, [], ◌∷◌, Bool-cases, inl, inr,
  arith, ◌==◌, ◌=s=◌, eq_iff, eq_refl, if◌then◌else◌,
}
use goedge_ip_cert.Text.{text_before}
use goedge_ip_cert.GoEdge.Model.{Website}
use goedge_ip_cert.GoEdge.Servers.{insert_website, sort_websites, unique_in, count_ipv4}

-- Each address comes before the next one.
abbrev is_below : Website → List Website → Bool
is_below w [] = true
is_below w (v ∷ vs) = text_before w.ipv4 v.ipv4

abbrev pub is_ascending : List Website → Bool
is_ascending [] = true
is_ascending (w ∷ ws) = is_below w ws && is_ascending ws

text_before-total : (s t : String) → text_before s t ≡ false → text_before t s ≡ false → s ≡ t
unfolding text_before
text_before-total String.[] String.[] h k = refl
text_before-total String.[] (String.◌∷◌ d t) h k = absurd cc
text_before-total (String.◌∷◌ c s) String.[] h k = absurd cc
text_before-total (String.◌∷◌ c s) (String.◌∷◌ d t) h k =
    let e : code c ≡ code d = ground arith in
    let rest : s ≡ t = text_before-total s t (ground arith) (ground arith) in
    cc (Char-path c d e, rest)

below-insert :
    (v w : Website) (ws : List Website)
    → is_below v ws ≡ true
    → text_before v.ipv4 w.ipv4 ≡ true
    → is_below v (insert_website w ws) ≡ true
unfolding insert_website
below-insert v w [] h k = k
below-insert v w (x ∷ ws) h k = elim (Bool-cases (text_before x.ipv4 w.ipv4)) [
  | inl t ↦ rw (t, insert_website) h
  | inr t ↦ rw (t, insert_website) k
]

count-other :
    (ip : String) (w : Website) (ws : List Website)
    → count_ipv4 ip (w ∷ ws) ≡ 0
    → ((w.ipv4 =s= ip) ≡ false) × (count_ipv4 ip ws ≡ 0)
unfolding count_ipv4
count-other ip w ws h = ground arith

count_self :
    (w : Website) (ws : List Website) → count_ipv4 w.ipv4 (w ∷ ws) ≡ suc (count_ipv4 w.ipv4 ws)
unfolding count_ipv4
count_self w ws = rw (eq_refl w.ipv4) refl

count_more :
    (ip : String) (w : Website) (ws : List Website) → count_ipv4 ip ws ≤ count_ipv4 ip (w ∷ ws)
unfolding count_ipv4
count_more ip w ws = ground arith

differ : (s t : String) → (s =s= t) ≡ false → text_before s t ≡ false → text_before t s ≡ true
differ s t n h = elim (Bool-cases (text_before t s)) [
  | inl e ↦ e
  | inr e ↦ let same = (eq_iff s t).1 (text_before-total s t h e) in cc
]

insert-ascending :
    (w : Website) (ws : List Website)
    → is_ascending ws ≡ true
    → count_ipv4 w.ipv4 ws ≡ 0
    → is_ascending (insert_website w ws) ≡ true
unfolding insert_website count_ipv4
insert-ascending w [] h n = refl
insert-ascending w (v ∷ vs) h n =
    let other = count-other w.ipv4 v vs n in
    elim (Bool-cases (text_before v.ipv4 w.ipv4)) [
      | inl t ↦
          let below = below-insert v w vs (ground arith) t in
          let rest = insert-ascending w vs (ground arith) other.1 in
          rw (t, insert_website) (rw (below, rest) refl)
      | inr t ↦
          let first = differ v.ipv4 w.ipv4 other.0 t in rw (t, insert_website) (rw (first, h) refl)
    ]

count-insert :
    (ip : String) (w : Website) (ws : List Website)
    → count_ipv4 ip (insert_website w ws) ≡ count_ipv4 ip (w ∷ ws)
unfolding insert_website count_ipv4
count-insert ip w [] = refl
count-insert ip w (v ∷ vs) = ground (arith, count-insert ip w vs)

count-sort : (ip : String) (ws : List Website) → count_ipv4 ip (sort_websites ws) ≡ count_ipv4 ip ws
unfolding sort_websites count_ipv4
count-sort ip [] = refl
count-sort ip (w ∷ ws) = count-insert ip w (sort_websites ws) ∙ ground (arith, count-sort ip ws)

sort-ascending :
    (ws : List Website)
    → ((ip : String) → count_ipv4 ip ws ≤ 1)
    → is_ascending (sort_websites ws) ≡ true
unfolding sort_websites
sort-ascending [] h = refl
sort-ascending (w ∷ ws) h =
    let once = h w.ipv4 in
    let self = count_self w ws in
    insert-ascending w (sort_websites ws)
      (sort-ascending ws λ ip. (let more = count_more ip w ws in let le = h ip in omega arith))
      (count-sort w.ipv4 ws ∙ omega arith)

count_unique :
    (ip : String) (all ws : List Website)
    → count_ipv4 ip (unique_in all ws) ≤ (if count_ipv4 ip all == 1 then count_ipv4 ip ws else 0)
unfolding unique_in count_ipv4
count_unique ip all [] = ground arith
count_unique ip all (w ∷ ws) = elim (Bool-cases (w.ipv4 =s= ip)) [
  | inl e ↦
      let same = (eq_iff w.ipv4 ip).0 e in
      let ih = count_unique ip all ws in
      elim (Bool-cases (count_ipv4 ip all == 1)) [
        | inl t ↦ let tw : (count_ipv4 w.ipv4 all == 1) ≡ true = rw same t in ground arith
        | inr t ↦ let tw : (count_ipv4 w.ipv4 all == 1) ≡ false = rw same t in ground arith
      ]
  | inr e ↦ ground (arith, count_unique ip all ws)
]

pub sorted-ascending :
    (all : List Website) → is_ascending (sort_websites (unique_in all all)) ≡ true
sorted-ascending all =
    sort-ascending (unique_in all all) λ ip. (let h = count_unique ip all all in ground arith)
