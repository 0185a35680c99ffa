-- ===== src/Bloom/Bits.antt =====
-- Lists of bits as numbers, for the conversions of the filter.
use gensync_core.Prelude.{
  ℕ, zero, suc, ◌+◌, ◌*◌, ◌^◌, ◌≤◌, ◌<◌, ◌≡◌, refl, ap, Bool, true, false, List, [], ◌∷◌, ◌++◌,
  length, take, drop, replicate, arith, if◌then◌else◌,
}
use native.Mathlib.Nat.{pow-suc}

abbrev pub bit : Bool → ℕ
bit b = if b then 1 else 0

-- The number whose binary digits are the bits, lowest first.
abbrev pub val_bits : List Bool → ℕ
val_bits [] = 0
val_bits (b ∷ bs) = bit b + 2 * val_bits bs

pub val_bits-lt : (bs : List Bool) → val_bits bs < 2 ^ length bs
val_bits-lt [] = omega arith
val_bits-lt (true ∷ bs) = omega (arith, val_bits-lt bs, pow-suc 2 (length bs))
val_bits-lt (false ∷ bs) = omega (arith, val_bits-lt bs, pow-suc 2 (length bs))

pub val_bits-injective :
    (xs ys : List Bool) → length xs ≡ length ys → val_bits xs ≡ val_bits ys → xs ≡ ys
val_bits-injective [] [] h e = refl
val_bits-injective [] (b ∷ ys) h e = absurd (omega arith)
val_bits-injective (a ∷ xs) [] h e = absurd (omega arith)
val_bits-injective (true ∷ xs) (true ∷ ys) h e =
    ap (λ l. true ∷ l) (val_bits-injective xs ys (omega arith) (omega arith))
val_bits-injective (true ∷ xs) (false ∷ ys) h e = absurd (omega arith)
val_bits-injective (false ∷ xs) (true ∷ ys) h e = absurd (omega arith)
val_bits-injective (false ∷ xs) (false ∷ ys) h e =
    ap (λ l. false ∷ l) (val_bits-injective xs ys (omega arith) (omega arith))

pub val_bits-append :
    (xs ys : List Bool) → val_bits (xs ++ ys) ≡ val_bits xs + 2 ^ length xs * val_bits ys
val_bits-append [] ys = omega arith
val_bits-append (a ∷ xs) ys =
    omega (arith, val_bits-append xs ys, ap (λ (t : ℕ). t * val_bits ys) (pow-suc 2 (length xs)))

pub val_bits-take-drop :
    (k : ℕ) (bs : List Bool) → val_bits bs ≡ val_bits (take k bs) + 2 ^ k * val_bits (drop k bs)
val_bits-take-drop zero bs = omega arith
val_bits-take-drop (suc k) [] = omega arith
val_bits-take-drop (suc k) (b ∷ bs) =
    omega (arith, val_bits-take-drop k bs, ap (λ (t : ℕ). t * val_bits (drop k bs)) (pow-suc 2 k))

pub val_bits-replicate : (n : ℕ) → val_bits (replicate n false) ≡ 0
val_bits-replicate zero = refl
val_bits-replicate (suc n) = omega (arith, val_bits-replicate n)

pub length-take-le : (k : ℕ) (bs : List Bool) → length (take k bs) ≤ k
length-take-le zero bs = omega arith
length-take-le (suc k) [] = omega arith
length-take-le (suc k) (b ∷ bs) = omega (arith, length-take-le k bs)
