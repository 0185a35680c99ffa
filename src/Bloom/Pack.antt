-- ===== src/Bloom/Pack.antt =====
-- The loops of `toZZ` as arithmetic.
use gensync_core.Prelude.{
  ℕ, zero, suc, ◌+◌, ◌*◌, ◌^◌, ◌≤◌, ◌<◌, ◌≡◌, refl, ap, ◌∙◌, Bool, true, false, List, [], ◌∷◌,
  length, take, drop, length-drop, arith,
}
use native.Mathlib.Numerals.{add-one}
use native.Mathlib.Nat.{pow-le-pow_right, pow-succ'}
use gensync_core.Prelude.Fields.{bit_or-shifted}
use gensync_core.Ntl.{AreBytes, le_value}
use gensync_core.Bloom.{byte_loop, bytes_loop, bytes_needed}
use gensync_core.Bloom.Bits.{bit, val_bits, val_bits-lt, val_bits-take-drop, length-take-le}

-- `|=` into a byte adds the bits.
pub byte_loop-val :
    (byte j : ℕ) (bs : List Bool) → byte < 2 ^ j → byte_loop byte j bs ≡ byte + 2 ^ j * val_bits bs
unfolding byte_loop
byte_loop-val byte j [] h = omega arith
byte_loop-val byte j (b ∷ bs) h =
    let joined = bit b * 2 ^ j + byte in
    let small : joined < 2 ^ (j + 1) = small_join b (2 ^ j) byte (2 ^ (j + 1)) (pow_next j) h in
    rw (bit_or-shifted j (bit b) byte h) (
      byte_loop-val joined (j + 1) bs small
      ∙ omega (arith, ap (λ (t : ℕ). t * val_bits bs) (pow_next j)))
  where
    pow_next : (j : ℕ) → 2 ^ (j + 1) ≡ 2 * 2 ^ j
    pow_next j = ap (λ (t : ℕ). 2 ^ t) (add-one j) ∙ pow-succ' 2 j

    small_join : (b : Bool) (q r t : ℕ) → t ≡ 2 * q → r < q → bit b * q + r < t
    small_join true q r t e h = omega arith
    small_join false q r t e h = omega arith

pub bytes_loop-val :
    (n : ℕ) (bs : List Bool) → length bs ≤ 8 * n → le_value (bytes_loop n bs) ≡ val_bits bs
unfolding bytes_loop
bytes_loop-val zero [] h = refl
bytes_loop-val zero (b ∷ bs) h = absurd (omega arith)
bytes_loop-val (suc n) bs h = omega (
  arith,
  byte_loop-val 0 0 (take 8 bs) (omega arith),
  val_bits-take-drop 8 bs,
  bytes_loop-val n (drop 8 bs) (omega (arith, length-drop 8 bs)),
)

pub bytes_loop-AreBytes : (n : ℕ) (bs : List Bool) → AreBytes (bytes_loop n bs)
unfolding bytes_loop
bytes_loop-AreBytes zero bs = tt
bytes_loop-AreBytes (suc n) bs =
    let few = length-take-le 8 bs in
    (
      rw (byte_loop-val 0 0 (take 8 bs) (omega arith))
          (omega (arith, val_bits-lt (take 8 bs), pow-le-pow_right {n = 2} (omega arith) few)),
      bytes_loop-AreBytes n (drop 8 bs),
    )

pub needed : (n m : ℕ) → m ≡ n → m ≤ 8 * bytes_needed n
needed n m e = ground arith
