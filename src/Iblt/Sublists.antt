-- ===== src/Iblt/Sublists.antt =====
-- Sublists, and tests on every sublist, for what is left of a table while it is peeled.
use mathlib.Core.Path.{subst}
use gensync_core.Prelude.{
  ℕ, suc, ◌≡◌, refl, ap, sym, Bool, true, false, ◌&&◌, ◌||◌, ◌==◌, ==_iff, List, [], ◌∷◌, ◌++◌,
  length, arith, Bool-cases, inl, inr,
}

-- One list is the other with some elements left out.
pub data IsSub : List ℕ → List ℕ → Type 0 where
  ends : IsSub [] []
  keeps : {xs ys : List ℕ} (x : ℕ) → IsSub xs ys → IsSub (x ∷ xs) (x ∷ ys)
  skips : {xs ys : List ℕ} (y : ℕ) → IsSub xs ys → IsSub xs (y ∷ ys)

pub IsSub-refl : (xs : List ℕ) → IsSub xs xs
IsSub-refl [] = ends
IsSub-refl (x ∷ xs) = keeps x (IsSub-refl xs)

tail_of : List ℕ → List ℕ
tail_of [] = []
tail_of (x ∷ xs) = xs

head_of : List ℕ → ℕ
head_of [] = 0
head_of (x ∷ xs) = x

pub IsSub-without :
    (xs : List ℕ) (k : ℕ) (ys : List ℕ) {all zs : List ℕ}
    → IsSub all zs
    → all ≡ xs ++ k ∷ ys
    → IsSub (xs ++ ys) zs
unfolding tail_of head_of
IsSub-without [] k ys ends e = cc
IsSub-without (w ∷ xs) k ys ends e = cc
IsSub-without [] k ys {zs = y ∷ zs} (keeps x s) e =
    skips x (subst (λ l. IsSub l zs) (ap tail_of e) s)
IsSub-without (w ∷ xs) k ys {zs = y ∷ zs} (keeps x s) e =
    subst (λ t. IsSub (t ∷ (xs ++ ys)) (y ∷ zs)) (ap head_of e)
      (keeps x (IsSub-without xs k ys s (ap tail_of e)))
IsSub-without xs k ys (skips z s) e = skips z (IsSub-without xs k ys s e)

abbrev pub for_sublists : List ℕ → (List ℕ → Bool) → Bool
for_sublists [] f = f []
for_sublists (x ∷ xs) f = for_sublists xs f && for_sublists xs (λ l. f (x ∷ l))

pub for_sublists_lem :
    {xs ys : List ℕ} (f : List ℕ → Bool) → IsSub xs ys → for_sublists ys f ≡ true → f xs ≡ true
for_sublists_lem f ends h = h
for_sublists_lem f (keeps x s) h = for_sublists_lem (λ l. f (x ∷ l)) s (ground arith)
for_sublists_lem f (skips y s) h = for_sublists_lem f s (ground arith)

abbrev pub mem : ℕ → List ℕ → Bool
mem k [] = false
mem k (x ∷ xs) = k == x || mem k xs

abbrev pub is_nil : List ℕ → Bool
is_nil [] = true
is_nil (x ∷ xs) = false

-- Where a member stands.
pub mem-split :
    (k : ℕ) (l : List ℕ) → mem k l ≡ true → (xs : List ℕ) × (ys : List ℕ) × (l ≡ xs ++ k ∷ ys)
mem-split k [] h = cc
mem-split k (x ∷ l) h = elim (Bool-cases (k == x)) [
  | inl e ↦ ([], l, ap (λ t. t ∷ l) (sym ((==_iff k x).0 e)))
  | inr n ↦ let (xs, ys, e) = mem-split k l (ground arith) in (x ∷ xs, ys, ap (λ t. x ∷ t) e)
]

pub length-without :
    (xs : List ℕ) (k : ℕ) (ys : List ℕ) → length (xs ++ k ∷ ys) ≡ suc (length (xs ++ ys))
length-without [] k ys = refl
length-without (x ∷ xs) k ys = ap suc (length-without xs k ys)
