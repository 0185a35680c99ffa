-- ===== src/FullSync/Multiset.antt =====
-- The operations on sorted multisets: how often each value occurs, and the order.
use gensync_core.Prelude.{
  ℕ, ◌-◌, ◌≤◌, ◌≡◌, refl, ◌==◌, ltb, if◌then◌else◌, List, [], ◌∷◌, All, arith, Bool-cases, inl, inr,
}
use gensync_core.Prelude.Bags.{count, IsSorted, count-below, All-le}
use gensync_core.FullSync.{multiset_insert, multiset_erase, range_diff}

pub count-multiset_insert :
    (a x : ℕ) (xs : List ℕ) → count a (multiset_insert x xs) ≡ count a (x ∷ xs)
unfolding multiset_insert
count-multiset_insert a x [] = refl
count-multiset_insert a x (y ∷ ys) = ground (arith, count-multiset_insert a x ys)

multiset_insert-above :
    (z x : ℕ) (xs : List ℕ) → z ≤ x → All (λ y. z ≤ y) xs → All (λ y. z ≤ y) (multiset_insert x xs)
unfolding multiset_insert
multiset_insert-above z x [] l h = (l, tt)
multiset_insert-above z x (y ∷ ys) l h =
    let rest = multiset_insert-above z x ys l h.1 in
    elim (Bool-cases (ltb x y)) [
      | inl less ↦ rw less (l, h)
      | inr not_less ↦ rw not_less (h.0, rest)
    ]

pub multiset_insert-IsSorted : (x : ℕ) (xs : List ℕ) → IsSorted xs → IsSorted (multiset_insert x xs)
unfolding multiset_insert
multiset_insert-IsSorted x [] s = (tt, tt)
multiset_insert-IsSorted x (y ∷ ys) s = elim (Bool-cases (ltb x y)) [
  | inl less ↦ let l : x ≤ y = ground arith in rw less ((l, All-le x y ys l s.0), s)
  | inr not_less ↦
      let l : y ≤ x = ground arith in
      rw not_less (multiset_insert-above y x ys l s.0, multiset_insert-IsSorted x ys s.1)
]

pub count-multiset_erase :
    (a x : ℕ) (xs : List ℕ) → count a (multiset_erase x xs) ≡ (if x == a then 0 else count a xs)
unfolding multiset_erase
count-multiset_erase a x [] = ground arith
count-multiset_erase a x (y ∷ ys) = ground (arith, count-multiset_erase a x ys)

multiset_erase-above :
    (z x : ℕ) (xs : List ℕ) → All (λ y. z ≤ y) xs → All (λ y. z ≤ y) (multiset_erase x xs)
unfolding multiset_erase
multiset_erase-above z x [] h = tt
multiset_erase-above z x (y ∷ ys) h =
    let rest = multiset_erase-above z x ys h.1 in
    elim (Bool-cases (y == x)) [ inl same ↦ rw same rest | inr other ↦ rw other (h.0, rest) ]

pub multiset_erase-IsSorted : (x : ℕ) (xs : List ℕ) → IsSorted xs → IsSorted (multiset_erase x xs)
unfolding multiset_erase
multiset_erase-IsSorted x [] s = tt
multiset_erase-IsSorted x (y ∷ ys) s =
    let rest = multiset_erase-IsSorted x ys s.1 in
    elim (Bool-cases (y == x)) [
      | inl same ↦ rw same rest
      | inr other ↦ rw other (multiset_erase-above y x ys s.0, rest)
    ]

-- The difference holds each value as often as the first range does more than the second.
pub count-range_diff :
    (a : ℕ) (xs ys : List ℕ)
    → IsSorted xs
    → IsSorted ys
    → count a (range_diff xs ys) ≡ count a xs - count a ys
unfolding range_diff
count-range_diff a [] ys s t = omega arith
count-range_diff a (x ∷ xs) [] s t = omega arith
count-range_diff a (x ∷ xs) (y ∷ ys) s t = elim (Bool-cases (ltb x y)) [
  | inl less ↦
      rw less (ground (arith, count-range_diff a xs (y ∷ ys) s.1 t, count-below a y ys t.0))
  | inr not_less ↦ rw not_less (elim (Bool-cases (ltb y x)) [
    | inl more ↦
        rw more (ground (arith, count-range_diff a (x ∷ xs) ys s t.1, count-below a x xs s.0))
    | inr same ↦ rw same (ground (arith, count-range_diff a xs ys s.1 t.1))
  ])
]
