-- ===== src/BitArray.antt =====
-- The table of fingerprints of src/Syncs/Compact2DBitArray.cpp and
-- include/GenSync/Syncs/Compact2DBitArray.h: `b_size` columns and `n_buckets` rows of entries of
-- `f_size` bits each, packed into a vector of bytes, the highest bit first.
-- A byte is a number below 256, `& ((1 << k) - 1)` is the remainder by 2 ^ k, `<<` and `>>` multiply
-- and divide by 2 ^ k, `size_t` is taken modulo 2 ^ 64 and `unsigned` modulo 2 ^ 32.
-- The byte order that `_discern_endianness` finds is the argument `little_endian`.
mod Values
mod NextByte
mod Window
mod WindowValue
mod Spread
mod Single
pub mod Place
mod Whole
pub mod Entries
pub mod Changed
pub mod Table
pub mod New
mod Tests
use gensync_core.Prelude.{
  ℕ, zero, suc, ◌+◌, ◌-◌, ◌*◌, ◌/◌, ◌%◌, ◌^◌, Bool, true, false, ◌&&◌, List, [], ◌∷◌, ◌==◌, ltb,
  leb, if◌then◌else◌, length, replicate, bit_or,
}
use gensync_core.Prelude.Outcome.{
  Outcome, ok, stop, ◌>>=◌, ◌>>◌, unless_stops, throws, undefined, at_index, load_at, store_at,
}

pub record Compact2dBitArray : Type 0 where
  pub store : List ℕ
  pub f_size : ℕ
  pub f_size_b : ℕ
  pub b_size : ℕ
  pub n_buckets : ℕ

-- `a - b` on `size_t`, for b at most 2 ^ 64.
abbrev pub size_minus : ℕ → ℕ → ℕ
size_minus a b = (a + (2 ^ 64 - b)) % 2 ^ 64

-- `float(n)`: 24 significant bits, to the nearest, halves to even.
pub exponent : ℕ → ℕ → ℕ → ℕ
exponent zero e n = e
exponent (suc fuel) e n =
    let rest = exponent fuel (e + 1) n in if ltb (n / 2 ^ e) (2 ^ 24) then e else rest

pub round_at : ℕ → ℕ → ℕ
round_at n e =
    let kept = n / 2 ^ e in
    let lost = 2 * (n % 2 ^ e) in
    let up = if ltb (2 ^ e) lost then 1 else if lost == 2 ^ e then kept % 2 else 0 in
    (kept + up) * 2 ^ e

unfoldable pub to_float : ℕ → ℕ
unfolding exponent round_at
to_float n = round_at n (exponent 64 0 n)

-- `ceil(n / float(BYTE))`; a division by 8 is exact.
unfoldable pub byte_count : ℕ → ℕ
unfolding to_float
byte_count n = (to_float n + 7) / 8

-- `narrow_cast<unsigned short>`
unfoldable pub narrow_short : ℕ → Outcome ℕ
narrow_short m = if ltb m (2 ^ 16) then ok m else stop throws

-- `_constructorGuards`
unfoldable pub constructor_guards : ℕ → ℕ → ℕ → Outcome (Unit {0})
constructor_guards f_size b_size n_buckets =
    unless_stops (ltb 0 f_size && leb f_size 32) throws
    >> (unless_stops (ltb 0 b_size) throws >> unless_stops (ltb 0 n_buckets) throws)

-- The constructor for a shape.
unfoldable pub new : ℕ → ℕ → ℕ → Outcome Compact2dBitArray
unfolding byte_count narrow_short constructor_guards
new f_size b_size n_buckets = do
  f_size_b ← narrow_short (byte_count f_size)
  u ← constructor_guards f_size b_size n_buckets
  ok (record {
    store = replicate (byte_count (f_size * b_size * n_buckets % 2 ^ 64)) 0;
    f_size = f_size;
    f_size_b = f_size_b;
    b_size = b_size;
    n_buckets = n_buckets;
  })

-- The reconstruction constructor.
unfoldable pub from_raw : ℕ → ℕ → ℕ → List ℕ → Outcome Compact2dBitArray
unfolding byte_count narrow_short constructor_guards
from_raw f_size b_size n_buckets f = do
  f_size_b ← narrow_short (byte_count f_size)
  u ← constructor_guards f_size b_size n_buckets
  ok (record {
    store = f;
    f_size = f_size;
    f_size_b = f_size_b;
    b_size = b_size;
    n_buckets = n_buckets;
  })

unfoldable pub get_f : Compact2dBitArray → ℕ
get_f a = a.f_size

unfoldable pub get_columns : Compact2dBitArray → ℕ
get_columns a = a.b_size

unfoldable pub get_rows : Compact2dBitArray → ℕ
get_rows a = a.n_buckets

unfoldable pub get_raw : Compact2dBitArray → List ℕ
get_raw a = a.store

pub record GetSetPrelim : Type 0 where
  pub entry_bits : ℕ
  pub fst_byte : ℕ
  pub lst_byte : ℕ
  pub onset_bits : ℕ
  pub offset_bits : ℕ

-- `_getSetPrelim`
abbrev pub get_set_prelim : Compact2dBitArray → ℕ → ℕ → GetSetPrelim
get_set_prelim a bucket entry =
    let bits = (a.f_size * a.b_size * bucket + a.f_size * entry) % 2 ^ 64 in
    record {
      entry_bits = bits;
      fst_byte = bits / 8;
      lst_byte = size_minus (bits + a.f_size) 1 / 8;
      onset_bits = bits % 8;
      offset_bits = (bits + a.f_size) % 2 ^ 64 % 8;
    }

-- `_assertIdx`
unfoldable pub assert_idx : Compact2dBitArray → ℕ → ℕ → Outcome (Unit {0})
assert_idx a bucket entry =
    unless_stops (ltb bucket a.n_buckets) throws >> unless_stops (ltb entry a.b_size) throws

-- The loop of `getEntry` over the bytes inside the entry, by the rounds left.
pub get_middle : List ℕ → ℕ → ℕ → ℕ → Outcome ℕ
get_middle st k zero entry = ok entry
get_middle st k (suc n) entry = do
  x ← load_at st k
  get_middle st (k + 1) n (bit_or (entry * 2 ^ 8 % 2 ^ 32) x)

-- The branch of `getEntry` for an entry in more than one byte.
pub get_spread : List ℕ → GetSetPrelim → Outcome ℕ
unfolding get_middle
get_spread st p = do
  x ← load_at st p.fst_byte
  y ← load_at st p.lst_byte
  entry ← get_middle st (p.fst_byte + 1) (p.lst_byte - p.fst_byte - 1) (x % 2 ^ (8 - p.onset_bits))
  let shift = if p.offset_bits == 0 then 8 else p.offset_bits
  ok (bit_or (entry * 2 ^ shift % 2 ^ 32) (y / 2 ^ ((8 - p.offset_bits) % 8)))

-- The branch for an entry in one byte; a shift by a wrapped `BYTE - onsetBits - fSize` is undefined.
pub get_single : List ℕ → GetSetPrelim → ℕ → Outcome ℕ
get_single st p f_size =
    unless_stops (leb (p.onset_bits + f_size) 8) undefined
    >> (do x ← load_at st p.fst_byte; ok (x / 2 ^ (8 - p.onset_bits - f_size) % 2 ^ f_size))

unfoldable pub get_entry : Compact2dBitArray → ℕ → ℕ → Outcome ℕ
unfolding assert_idx get_spread get_single
get_entry a bucket entry =
    let p = get_set_prelim a bucket entry in
    let spread = get_spread a.store p in
    let single = get_single a.store p a.f_size in
    assert_idx a bucket entry >> (if ltb p.fst_byte p.lst_byte then spread else single)

-- `fngprtC[ii]`: byte `ii` of the four that hold an `unsigned`.
abbrev pub memory_byte : Bool → ℕ → ℕ → ℕ
memory_byte little_endian f ii = f / 2 ^ (8 * (if little_endian then ii else 3 - ii)) % 256

-- `fBytes`: the loop down from `fSizeB` - 1, or up from 0 by the rounds left.
abbrev pub bytes_down : ℕ → ℕ → List ℕ
bytes_down f zero = []
bytes_down f (suc ii) = memory_byte true f ii ∷ bytes_down f ii

abbrev bytes_up : ℕ → ℕ → ℕ → List ℕ
bytes_up f zero ii = []
bytes_up f (suc n) ii = memory_byte false f ii ∷ bytes_up f n (ii + 1)

abbrev pub f_bytes : Bool → ℕ → ℕ → List ℕ
f_bytes little_endian f f_size_b =
    if little_endian then bytes_down f f_size_b else bytes_up f f_size_b 0

-- The local `msByteIdx` of `_getNextFByte`, where `r` bits remain.
pub ms_byte_idx : List ℕ → ℕ → ℕ
ms_byte_idx f r = size_minus (size_minus (length f) (r / 8)) (if r % 8 == 0 then 0 else 1)

-- `_getNextFByte` where `r` bits remain; its last branch, with bits of two bytes, is `joined`.
pub joined_byte : List ℕ → ℕ → ℕ → Outcome ℕ
joined_byte f idx left = do
  x ← at_index f idx
  y ← at_index f (idx + 1)
  ok (bit_or (x * 2 ^ (8 - left) % 256) (y / 2 ^ left))

pub byte_of_rest : List ℕ → ℕ → Outcome ℕ
unfolding ms_byte_idx joined_byte
byte_of_rest f r =
    let align = (do x ← load_at f 0; ok (x * 2 ^ (8 - r) % 256)) in
    let whole = at_index f (ms_byte_idx f r) in
    let joined = joined_byte f (ms_byte_idx f r) (r % 8) in
    if r == 0 then stop throws else if ltb r 8 then align else if r % 8 == 0 then whole else joined

pub next_f_byte : ℕ → List ℕ → ℕ → Outcome ℕ
unfolding byte_of_rest
next_f_byte f_size f cons = byte_of_rest f (size_minus f_size cons)

-- `case 0` of `setEntry`: the entry is in one byte; `c` is `*fngprtC`.
pub set_single : List ℕ → GetSetPrelim → ℕ → ℕ → Outcome (List ℕ)
set_single st p f_size c = do
  x ← load_at st p.fst_byte
  let fst_p = x / 2 ^ (8 - p.onset_bits)
  let lst_p = x % 2 ^ (8 - p.onset_bits - f_size)
  let onset = fst_p * 2 ^ (8 - p.onset_bits) % 256
  let with_f = bit_or onset (c * 2 ^ (8 - p.onset_bits - f_size)) % 256
  store_at st p.fst_byte (bit_or with_f lst_p)

-- The loop of `setEntry` over the bytes inside the entry, by the rounds left, with `cBits`.
pub set_middle : ℕ → List ℕ → List ℕ → ℕ → ℕ → ℕ → Outcome (List ℕ × ℕ)
unfolding next_f_byte
set_middle f_size f st k zero c_bits = ok (st, c_bits)
set_middle f_size f st k (suc n) c_bits = do
  x ← next_f_byte f_size f c_bits
  st' ← store_at st k x
  set_middle f_size f st' (k + 1) n (c_bits + 8)

-- `cases 1` to `4` of `setEntry`: the entry spreads over `diff` + 1 bytes.
pub set_spread : List ℕ → GetSetPrelim → ℕ → List ℕ → ℕ → Outcome (List ℕ)
unfolding next_f_byte set_middle
set_spread st p f_size f diff = do
  next ← next_f_byte f_size f 0
  x ← load_at st p.fst_byte
  let onset_p = x / 2 ^ (8 - p.onset_bits) * 2 ^ (8 - p.onset_bits) % 256
  st1 ← store_at st p.fst_byte (bit_or (next / 2 ^ p.onset_bits) onset_p)
  (st2, c_bits) ← set_middle f_size f st1 (p.fst_byte + 1) (diff - 1) (8 - p.onset_bits)
  back ← load_at f (length f - 1)
  let to_write = back * 2 ^ (8 - (f_size - c_bits)) % 256
  y ← load_at st2 p.lst_byte
  let kept = y % 2 ^ (8 - p.offset_bits)
  store_at st2 p.lst_byte (if p.offset_bits == 0 then to_write else bit_or to_write kept)

unfoldable pub set_entry : Bool → Compact2dBitArray → ℕ → ℕ → ℕ → Outcome Compact2dBitArray
unfolding assert_idx set_single set_spread
set_entry little_endian a bucket entry f =
    let p = get_set_prelim a bucket entry in
    let diff = size_minus p.lst_byte p.fst_byte in
    let single = set_single a.store p a.f_size (memory_byte little_endian f 0) in
    let spread = set_spread a.store p a.f_size (f_bytes little_endian f a.f_size_b) diff in
    assert_idx a bucket entry >> (do
      st ← (if diff == 0 then single else if leb diff 4 then spread else stop throws)
      ok (record a { store = st }))
