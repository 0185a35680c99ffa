-- ===== src/BitArray/Tests.antt =====
-- Runs of the array on small inputs.
use gensync_core.Prelude.{
  ℕ, ◌≡◌, refl, Bool, true, false, ◌&&◌, ltb, List, [], ◌∷◌, ◌<◌, ◌^◌, ◌+◌, arith,
}
use gensync_core.Prelude.Outcome.{ok, ◌>>=◌, load_at, store_at, at_index}
use gensync_core.Ntl.{AreBytes}
use gensync_core.BitArray.{Compact2dBitArray, byte_count, get_entry, set_entry}
use gensync_core.BitArray.Place.{IsValid}
use gensync_core.BitArray.Entries.{get_entry-lt, set_entry_back}
use gensync_core.BitArray.Table.{Write, set_all, write_all, set_all_refines, held}

abbrev all_bytes : List ℕ → Bool
all_bytes [] = true
all_bytes (x ∷ xs) = ltb x 256 && all_bytes xs

bytes_under : (xs : List ℕ) → all_bytes xs ≡ true → AreBytes xs
bytes_under [] e = tt
bytes_under (x ∷ xs) e = (ground arith, bytes_under xs (ground arith))

-- Two rows of two entries of 12 bits.
abbrev twelve_bits : Compact2dBitArray
twelve_bits = record {
  store = 1 ∷ 35 ∷ 69 ∷ 103 ∷ 137 ∷ 171 ∷ [];
  f_size = 12;
  f_size_b = 2;
  b_size = 2;
  n_buckets = 2;
}

twelve_bits-IsValid : IsValid twelve_bits
twelve_bits-IsValid = record {
  some_bits = omega arith;
  few_bits = omega arith;
  f_bytes_fit = omega arith;
  f_bytes_needed = omega arith;
  no_wrap = omega arith;
  room = omega arith;
  bytes = bytes_under (1 ∷ 35 ∷ 69 ∷ 103 ∷ 137 ∷ 171 ∷ []) refl;
}

-- The entries lie one after the other: 0x012, 0x345, 0x678, 0x9ab.
reads_in_order : get_entry twelve_bits 0 1 ≡ ok 837
unfolding get_entry load_at
reads_in_order = refl

-- The last two bytes of 2 ^ 24 + 1 bits are one too few, since `float` rounds the count.
byte_count_rounds : byte_count (2 ^ 24 + 1) ≡ 2 ^ 21
unfolding byte_count
byte_count_rounds = refl

-- On a big-endian machine the bytes of the fingerprint are taken from the wrong end.
big_endian_loses : (set_entry false twelve_bits 0 1 2748 >>= λ a. get_entry a 0 1) ≡ ok 0
unfolding get_entry set_entry load_at store_at at_index
big_endian_loses = refl

set_entry_back_example :
    (set_entry true twelve_bits 0 1 2748 >>= λ b. set_entry true b 0 1 837) ≡ ok twelve_bits
set_entry_back_example =
    set_entry_back twelve_bits twelve_bits-IsValid 0 1 (omega arith) (omega arith) 837 2748
      reads_in_order (omega arith)

get_entry-lt_example : (v : ℕ) × (get_entry twelve_bits 1 1 ≡ ok v) × (v < 2 ^ 12)
get_entry-lt_example = get_entry-lt twelve_bits twelve_bits-IsValid 1 1 (omega arith) (omega arith)

abbrev two_writes : List Write
two_writes =
    record { bucket = 0; entry = 1; value = 2748 }
    ∷ record { bucket = 1; entry = 0; value = 7 }
    ∷ []

set_all_refines_example :
    (set_all two_writes twelve_bits >>= λ b. get_entry b 1 1)
    ≡ ok (write_all two_writes (held twelve_bits) 1 1)
set_all_refines_example =
    set_all_refines two_writes twelve_bits twelve_bits-IsValid
      ((omega arith, omega arith, omega arith), ((omega arith, omega arith, omega arith), tt)) 1 1
      (omega arith) (omega arith)
