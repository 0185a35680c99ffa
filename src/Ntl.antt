-- ===== src/Ntl.antt =====
-- NTL's conversions between integers and byte arrays, which the code calls and does not contain.
-- `ZZFromBytes(p, n)` is the sum of p[i] * 256^i; `BytesFromZZ(p, a, n)` writes the n low bytes of
-- |a|; `NumBytes(a)` is the number of bytes that |a| needs; `to_long` and `to_int` keep a value that fits.
use gensync_core.Prelude.{
  ℕ, zero, suc, ◌+◌, ◌*◌, ◌/◌, ◌%◌, ◌^◌, ◌≤◌, ◌<◌, ◌≡◌, refl, ap, ◌∙◌, List, [], ◌∷◌, All, length,
  arith,
}
use native.Mathlib.Nat.{
  mod-lt, mod-eq_of_lt, div-add-mod, one-le-pow, pow-suc, pow-succ', add-mul-mod_self_left,
}
use gensync_core.Prelude.Int.{ℤ, pos, negsuc}

abbrev pub AreBytes : List ℕ → Type 0
AreBytes = All (λ b. b < 256)

-- The number of a little-endian byte array.
abbrev pub le_value : List ℕ → ℕ
le_value [] = 0
le_value (b ∷ bs) = b + 256 * le_value bs

abbrev pub abs : ℤ → ℕ
abs (pos n) = n
abs (negsuc n) = suc n

pub record Ntl : Type 0 where
  pub zz_from_bytes : List ℕ → ℕ
  pub bytes_from_zz : ℤ → ℕ → List ℕ
  pub num_bytes : ℤ → ℕ
  pub to_long : ℕ → ℤ
  pub to_int : ℕ → ℤ
  pub zz_from_bytes_lem : (ps : List ℕ) → AreBytes ps → zz_from_bytes ps ≡ le_value ps
  pub length-bytes_from_zz : (a : ℤ) (n : ℕ) → length (bytes_from_zz a n) ≡ n
  pub bytes_from_zz-AreBytes : (a : ℤ) (n : ℕ) → AreBytes (bytes_from_zz a n)
  pub le_value-bytes_from_zz : (a : ℤ) (n : ℕ) → le_value (bytes_from_zz a n) ≡ abs a % 256 ^ n
  pub fits-num_bytes : (a : ℤ) → abs a < 256 ^ num_bytes a
  pub num_bytes_least : (a : ℤ) (n : ℕ) → abs a < 256 ^ n → num_bytes a ≤ n
  pub to_long_lem : (a : ℕ) → a < 2 ^ 63 → to_long a ≡ pos a
  pub to_int_lem : (a : ℕ) → a < 2 ^ 31 → to_int a ≡ pos a

-- An instance, by repeated division.
unfoldable pub bytes_of : ℕ → ℕ → List ℕ
bytes_of a zero = []
bytes_of a (suc n) = (a % 256) ∷ bytes_of (a / 256) n

unfoldable pub count_bytes : ℕ → ℕ → ℕ
count_bytes zero a = 0
count_bytes (suc fuel) zero = 0
count_bytes (suc fuel) (suc a) = suc (count_bytes fuel (suc a / 256))

pub length-bytes_of : (a n : ℕ) → length (bytes_of a n) ≡ n
unfolding bytes_of
length-bytes_of a zero = refl
length-bytes_of a (suc n) = omega (arith, length-bytes_of (a / 256) n)

pub bytes_of-AreBytes : (a n : ℕ) → AreBytes (bytes_of a n)
unfolding bytes_of
bytes_of-AreBytes a zero = tt
bytes_of-AreBytes a (suc n) = (omega arith, bytes_of-AreBytes (a / 256) n)

-- The remainder by 256 * P, digit by digit.
pub mod-step : (a P : ℕ) → 0 < P → a % (256 * P) ≡ a % 256 + 256 * (a / 256 % P)
mod-step a P h =
    let q = a / 256 in
    let r = a % 256 + 256 * (q % P) in
    let small : r < 256 * P = omega (arith, mod-lt q h) in
    let whole : a ≡ r + 256 * P * (q / P) = omega (arith, div-add-mod q P, div-add-mod a 256) in
    ap (λ t. t % (256 * P)) whole ∙ add-mul-mod_self_left r (256 * P) (q / P) ∙ mod-eq_of_lt small

pub le_value-bytes_of : (a n : ℕ) → le_value (bytes_of a n) ≡ a % 256 ^ n
unfolding bytes_of
le_value-bytes_of a zero = omega arith
le_value-bytes_of a (suc n) = omega (
  arith,
  le_value-bytes_of (a / 256) n,
  mod-step a (256 ^ n) (one-le-pow n 256 (omega arith)),
  ap (λ t. a % t) (pow-succ' 256 n),
)

pub fits-count : (fuel a : ℕ) → a ≤ fuel → a < 256 ^ count_bytes fuel a
unfolding count_bytes
fits-count zero zero h = omega arith
fits-count zero (suc a) h = absurd (omega arith)
fits-count (suc fuel) zero h = omega arith
fits-count (suc fuel) (suc a) h = omega (
  arith,
  fits-count fuel (suc a / 256) (omega arith),
  pow-suc 256 (count_bytes fuel (suc a / 256)),
)

pub count_least : (fuel a n : ℕ) → a < 256 ^ n → count_bytes fuel a ≤ n
unfolding count_bytes
count_least zero a n f = omega arith
count_least (suc fuel) zero n f = omega arith
count_least (suc fuel) (suc a) zero f = absurd (omega arith)
count_least (suc fuel) (suc a) (suc n) f =
    omega (arith, count_least fuel (suc a / 256) n (omega (arith, pow-suc 256 n)))

-- An instance for examples.
abbrev pub sample_ntl : Ntl
sample_ntl = record {
  zz_from_bytes = le_value;
  bytes_from_zz = λ a n. bytes_of (abs a) n;
  num_bytes = λ a. count_bytes (abs a) (abs a);
  to_long = pos;
  to_int = pos;
  zz_from_bytes_lem = λ ps h. refl;
  length-bytes_from_zz = λ a n. length-bytes_of (abs a) n;
  bytes_from_zz-AreBytes = λ a n. bytes_of-AreBytes (abs a) n;
  le_value-bytes_from_zz = λ a n. le_value-bytes_of (abs a) n;
  fits-num_bytes = λ a. fits-count (abs a) (abs a) (omega arith);
  num_bytes_least = λ a n h. count_least (abs a) (abs a) n h;
  to_long_lem = λ a h. refl;
  to_int_lem = λ a h. refl;
}
