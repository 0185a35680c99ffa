-- ===== src/Bloom.antt =====
-- The Bloom filter of src/Syncs/BloomFilter.cpp and include/GenSync/Syncs/BloomFilter.h: its bits and
-- its number of hash functions.
-- The constructor from a false positive probability computes with floats and is left out; every
-- statement is about any size and any number of hash functions.
pub mod Member
mod Bits
mod Pack
mod Unpack
pub mod Transfer
mod Tests
use gensync_core.Prelude.{
  ℕ, zero, suc, ◌+◌, ◌*◌, ◌/◌, ◌%◌, ◌^◌, Bool, true, false, List, [], ◌∷◌, ◌==◌, if◌then◌else◌,
  length, take, drop, replicate, bit_or,
}
use gensync_core.Prelude.Int.{pos}
use gensync_core.Prelude.Outcome.{Outcome, ok, ◌>>=◌, rem, load_at, store_at, quits, stop}
use gensync_core.Platform.{Platform}
use gensync_core.Ntl.{Ntl}
use mathlib.Core.List.{reverse}

pub record BloomFilter : Type 0 where
  pub bits : List Bool
  pub num_hashes : ℕ

-- The constructor for a size and a number of hash functions.
unfoldable pub new : ℕ → ℕ → BloomFilter
new size n_hash = record { bits = replicate size false; num_hashes = n_hash }

-- `Builder::build` where the size and the number of hash functions are set, and nothing else.
unfoldable pub build : ℕ → ℕ → Outcome BloomFilter
unfolding new
build bf_size num_hashes =
    if bf_size == 0
    then stop quits
    else if num_hashes == 0
    then stop quits
    else ok (new bf_size num_hashes)

unfoldable pub get_size : BloomFilter → ℕ
get_size f = length f.bits

module _ (p : Platform) where
  open p use {shash, shash_pair}

  -- `_hash`
  pub hash : ℕ → ℕ → ℕ
  hash value kk = shash_pair (shash value) (shash kk)

  -- The loop of `insert`, by the rounds left and the index `i`.
  pub insert_loop : ℕ → ℕ → ℕ → List Bool → Outcome (List Bool)
  insert_loop value zero i bits = ok bits
  insert_loop value (suc n) i bits = do
    loc ← rem (hash value i) (length bits)
    bits' ← store_at bits loc true
    insert_loop value n (i + 1) bits'

  unfoldable pub insert : ℕ → BloomFilter → Outcome BloomFilter
  unfolding insert_loop hash
  insert value f = do bits ← insert_loop value f.num_hashes 0 f.bits; ok (record f { bits = bits })

  -- The loop of `exist`.
  pub exist_loop : ℕ → ℕ → ℕ → List Bool → Outcome Bool
  exist_loop value zero i bits = ok true
  exist_loop value (suc n) i bits = do
    loc ← rem (hash value i) (length bits)
    b ← load_at bits loc
    let rest = exist_loop value n (i + 1) bits
    if b then rest else ok false

  unfoldable pub exist : ℕ → BloomFilter → Outcome Bool
  unfolding exist_loop hash
  exist value f = exist_loop value f.num_hashes 0 f.bits

  -- `insert` of a set of elements
  unfoldable pub insert_set : List ℕ → BloomFilter → Outcome BloomFilter
  insert_set [] f = ok f
  insert_set (v ∷ vs) f = insert v f >>= insert_set vs

-- The inner loop of `toZZ`: `byte |= bit << j` for the at most 8 bits from `j` on.
pub byte_loop : ℕ → ℕ → List Bool → ℕ
byte_loop byte j [] = byte
byte_loop byte j (b ∷ bs) = byte_loop (bit_or ((if b then 1 else 0) * 2 ^ j) byte) (j + 1) bs

-- The outer loop of `toZZ`, by the bytes left.
pub bytes_loop : ℕ → List Bool → List ℕ
bytes_loop zero bits = []
bytes_loop (suc n) bits = byte_loop 0 0 (take 8 bits) ∷ bytes_loop n (drop 8 bits)

-- The local `numBytes` of `toZZ`.
abbrev pub bytes_needed : ℕ → ℕ
bytes_needed size = if size % 8 == 0 then size / 8 else size / 8 + 1

-- `(byte >> j) & 1`
abbrev pub bit_at : ℕ → ℕ → Bool
bit_at byte j = byte / 2 ^ j % 2 == 1

-- The inner loop of `ZZtoBF`, for j from `n` - 1 down to 0.
pub unpack_byte : ℕ → ℕ → ℕ → List Bool → Outcome (List Bool)
unpack_byte zero base byte bits = ok bits
unpack_byte (suc j) base byte bits =
    store_at bits (base + j) (bit_at byte j) >>= unpack_byte j base byte

-- The outer loop of `ZZtoBF`, from byte `i` on.
pub unpack_loop : ℕ → List ℕ → List Bool → Outcome (List Bool)
unpack_loop i [] bits = ok bits
unpack_loop i (byte ∷ bytes) bits = unpack_byte 8 (8 * i) byte bits >>= unpack_loop (i + 1) bytes

module _ (ntl : Ntl) where
  open ntl use {zz_from_bytes, bytes_from_zz, num_bytes}

  unfoldable pub to_zz : BloomFilter → ℕ
  unfolding bytes_loop byte_loop
  to_zz f = zz_from_bytes (bytes_loop (bytes_needed (length f.bits)) (reverse f.bits))

  unfoldable pub zz_to_bf : BloomFilter → ℕ → Outcome BloomFilter
  unfolding unpack_loop unpack_byte
  zz_to_bf f val = do
    let bytes = bytes_from_zz (pos val) (num_bytes (pos val))
    bits ← unpack_loop 0 bytes (replicate (length f.bits) false)
    ok (record { bits = reverse bits; num_hashes = f.num_hashes })
