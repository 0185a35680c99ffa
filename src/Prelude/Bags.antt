-- ===== src/Prelude/Bags.antt =====
-- Lists of numbers as bags: how often a number occurs, ascending lists, and the quotient that forgets
-- the order.
use Prim.Native.Nat.{ℕ, ◌+◌, ◌≤◌, ◌<◌}
use mathlib.Core.Path.{◌≡◌, refl}
use mathlib.Core.Quot.{Quot}
use mathlib.Core.List.{List, [], ◌∷◌, ◌++◌}
use native.Mathlib.Omega.{arith}
use gensync_core.Prelude.Lists.{All}
use gensync_core.Prelude.Tests.{◌==◌, if◌then◌else◌}

abbrev pub IsSorted : List ℕ → Type 0
IsSorted [] = Unit
IsSorted (x ∷ xs) = All (λ y. x ≤ y) xs × IsSorted xs

-- How often `v` occurs.
abbrev pub count : ℕ → List ℕ → ℕ
count v [] = 0
count v (w ∷ ws) = (if w == v then 1 else 0) + count v ws

-- Every value occurs as often in the one as in the other.
abbrev pub AsOften : List ℕ → List ℕ → Type 0
AsOften first second = (v : ℕ) → count v first ≡ count v second

-- What is below all of a list does not occur in it.
pub count-below : (a : ℕ) (x : ℕ) (xs : List ℕ) → All (λ y. x ≤ y) xs → a < x → count a xs ≡ 0
count-below a x [] h l = refl
count-below a x (y ∷ ys) h l = ground (arith, count-below a x ys h.1 l, h.0)

abbrev pub Bag : Type 0
Bag = Quot AsOften

pub All-le : (x y : ℕ) (xs : List ℕ) → x ≤ y → All (λ z. y ≤ z) xs → All (λ z. x ≤ z) xs
All-le x y [] l h = tt
All-le x y (z ∷ zs) l h = (omega (arith, h.0), All-le x y zs l h.1)

pub count-append : (v : ℕ) (ws us : List ℕ) → count v (ws ++ us) ≡ count v ws + count v us
count-append v [] us = omega arith
count-append v (w ∷ ws) us = omega (arith, count-append v ws us)
