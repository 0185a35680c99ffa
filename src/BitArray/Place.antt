-- ===== src/BitArray/Place.antt =====
-- Where an entry lies in the vector, and what makes an array valid.
use gensync_core.Prelude.{
  ℕ, zero, suc, ◌+◌, ◌-◌, ◌*◌, ◌/◌, ◌%◌, ◌^◌, ◌≤◌, ◌<◌, ◌≡◌, refl, ap, List, [], ◌∷◌, ◌++◌, length,
  arith,
}
use native.Mathlib.Nat.{mul-le-mul_left, mul-suc}
use gensync_core.Ntl.{AreBytes}
use gensync_core.BitArray.{Compact2dBitArray, get_set_prelim}

-- What the constructors check, that the bit count does not wrap, and that the vector is long enough.
pub record IsValid (a : Compact2dBitArray) : Type 0 where
  pub some_bits : 0 < a.f_size
  pub few_bits : a.f_size ≤ 32
  pub f_bytes_fit : a.f_size ≤ 8 * a.f_size_b
  pub f_bytes_needed : 8 * a.f_size_b < a.f_size + 8
  pub no_wrap : a.f_size * a.b_size * a.n_buckets < 2 ^ 64
  pub room : a.f_size * a.b_size * a.n_buckets ≤ 8 * length a.store
  pub bytes : AreBytes a.store

pub split_at {ℓ} :
    {A : Type ℓ} (xs : List A) (i : ℕ)
    → i < length xs
    → (pre : List A) × (x : A) × (post : List A) × (xs ≡ pre ++ x ∷ post) × (length pre ≡ i)
split_at [] i h = elim h [ ]
split_at (x ∷ xs) zero h = ([], x, xs, refl, refl)
split_at (x ∷ xs) (suc i) h =
    let (pre, y, post, e, l) = split_at xs i (omega arith) in
    (x ∷ pre, y, post, ap (λ t. x ∷ t) e, ap suc l)

module _ (a : Compact2dBitArray) (i j : ℕ) where
  -- The bits before the entry, and those after it in the whole vector.
  abbrev pub bits_before : ℕ
  bits_before = a.f_size * a.b_size * i + a.f_size * j

  abbrev pub bits_after : ℕ
  bits_after = 8 * length a.store - (bits_before + a.f_size)

  module _ (valid : IsValid a) (row : i < a.n_buckets) (column : j < a.b_size) where
    open valid use {some_bits, few_bits, no_wrap, room}

    pub inside_table : bits_before + a.f_size ≤ a.f_size * a.b_size * a.n_buckets
    inside_table = omega (
      arith,
      mul-le-mul_left {m = suc j} {n = a.b_size} a.f_size column,
      mul-suc a.f_size j,
      mul-le-mul_left {m = suc i} {n = a.n_buckets} (a.f_size * a.b_size) row,
      mul-suc (a.f_size * a.b_size) i,
    )

    pub fst_byte_lem : (get_set_prelim a i j).fst_byte ≡ bits_before / 8
    fst_byte_lem = omega (arith, inside_table, no_wrap)

    pub lst_byte_lem : (get_set_prelim a i j).lst_byte ≡ (bits_before + a.f_size - 1) / 8
    lst_byte_lem = omega (arith, inside_table, no_wrap, some_bits)

    pub onset_bits_lem : (get_set_prelim a i j).onset_bits ≡ bits_before % 8
    onset_bits_lem = omega (arith, inside_table, no_wrap)

    pub offset_bits_lem : (get_set_prelim a i j).offset_bits ≡ (bits_before + a.f_size) % 8
    offset_bits_lem = omega (arith, inside_table, no_wrap)

    pub last_inside : (bits_before + a.f_size - 1) / 8 < length a.store
    last_inside = omega (arith, inside_table, room, some_bits)
