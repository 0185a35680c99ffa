-- ===== src/Cuckoo.antt =====
-- The cuckoo filter of src/Syncs/Cuckoo.cpp and include/GenSync/Syncs/Cuckoo.h, over the packed array
-- of fingerprints.
-- `fingerprint_impl` and `hash_impl` are the two functions that a filter is made with; the defaults
-- are here. An `overflow_error` or a `range_error`, which the filter catches itself, is the result
-- `none`. The generator of random numbers is an argument: `draw min max` gives a number and the
-- generator's next state.
mod Hashed
pub mod Kicks
mod Present
pub mod Search
pub mod Member
pub mod Suitable
pub mod Ends
pub mod Erase
mod Tests
use gensync_core.Prelude.{
  ℕ, zero, suc, ◌+◌, ◌-◌, ◌%◌, ◌^◌, Bool, true, false, not, Option, none, some, List, [], ◌∷◌, ◌==◌,
  ltb, if◌then◌else◌,
}
use gensync_core.Prelude.Outcome.{
  Outcome, ok, stop, ◌>>=◌, ◌>>◌, unless_stops, rem, throws, undefined,
}
use gensync_core.Platform.{Platform}
use gensync_core.BitArray.{Compact2dBitArray, get_entry, set_entry, size_minus, get_raw}
use gensync_core.BitArray

pub record Cuckoo : Type 0 where
  pub filter : Compact2dBitArray
  pub filter_size : ℕ
  pub bucket_size : ℕ
  pub fngprt_size : ℕ
  pub max_kicks : ℕ
  pub items_count : ℕ
  pub fingerprint_impl : ℕ → ℕ → Outcome ℕ
  pub hash_impl : ℕ → ℕ → Outcome ℕ

-- `_default_fingerprint`; `(1 << fngprtSize) - 1` overflows an `int` from 31 bits on.
unfoldable pub default_fingerprint : Platform → ℕ → ℕ → Outcome ℕ
default_fingerprint p xx fngprt_size =
    if ltb fngprt_size 31 then ok (p.to_int xx % 2 ^ fngprt_size) else stop undefined

-- `_default_hash`
unfoldable pub default_hash : Platform → ℕ → ℕ → Outcome ℕ
default_hash p xx filter_size = rem (p.shash_long xx) filter_size

-- The constructor for a shape and two functions, and the one with the default functions.
unfoldable pub new_with : (ℕ → ℕ → Outcome ℕ) → (ℕ → ℕ → Outcome ℕ) → ℕ → ℕ → ℕ → ℕ → Outcome Cuckoo
new_with fingerprint_impl hash_impl fngprt_size bucket_size filter_size max_kicks = do
  filter ← BitArray.new fngprt_size bucket_size filter_size
  ok (record {
    filter = filter;
    filter_size = filter_size;
    bucket_size = bucket_size;
    fngprt_size = fngprt_size;
    max_kicks = max_kicks;
    items_count = 0;
    fingerprint_impl = fingerprint_impl;
    hash_impl = hash_impl;
  })

unfoldable pub new : Platform → ℕ → ℕ → ℕ → ℕ → Outcome Cuckoo
unfolding new_with default_fingerprint default_hash
new p = new_with (default_fingerprint p) (default_hash p)

-- The reconstruction constructor.
unfoldable pub from_raw : Platform → ℕ → ℕ → ℕ → ℕ → List ℕ → ℕ → Outcome Cuckoo
unfolding default_fingerprint default_hash
from_raw p fngprt_size bucket_size filter_size max_kicks f items_count = do
  filter ← BitArray.from_raw fngprt_size bucket_size filter_size f
  ok (record {
    filter = filter;
    filter_size = filter_size;
    bucket_size = bucket_size;
    fngprt_size = fngprt_size;
    max_kicks = max_kicks;
    items_count = items_count;
    fingerprint_impl = default_fingerprint p;
    hash_impl = default_hash p;
  })

unfoldable pub get_raw_filter : Cuckoo → List ℕ
unfolding get_raw
get_raw_filter c = get_raw c.filter

-- `fingerprint` and `hash`
abbrev pub fingerprint : Cuckoo → ℕ → Outcome ℕ
fingerprint c e = c.fingerprint_impl e c.fngprt_size

abbrev pub hash : Cuckoo → ℕ → Outcome ℕ
hash c e = c.hash_impl e c.filter_size

-- An `int`, of which `r` has the low bits, as a `size_t`.
abbrev pub int_as_size : ℕ → ℕ
int_as_size r = let b = r % 2 ^ 32 in if ltb b (2 ^ 31) then b else b + (2 ^ 64 - 2 ^ 32)

-- `_alternativeBucket`
unfoldable pub alternative_bucket : Platform → Cuckoo → ℕ → ℕ → Outcome ℕ
alternative_bucket p c current_b f = do
  h ← hash c f
  r ← rem (p.xor current_b h) c.filter_size
  ok (int_as_size r)

pub record PartialHash : Type 0 where
  pub f : ℕ
  pub i1 : ℕ
  pub i2 : ℕ

-- `_pHash`
unfoldable pub p_hash : Platform → Cuckoo → ℕ → Outcome PartialHash
p_hash p c datum = do
  f ← fingerprint c datum
  h ← hash c datum
  let i1 = p.to_int h
  i2 ← alternative_bucket p c i1 f
  back ← alternative_bucket p c i2 f
  unless_stops (i1 == back) throws >> ok (record { f = f; i1 = i1; i2 = i2 })

-- `isZeroF`
unfoldable pub is_zero_f : Cuckoo → ℕ → Outcome Bool
is_zero_f c d = do f ← fingerprint c d; ok (f == 0)

-- The loops of `findFingerprint` and `addToBucket`, by the rounds left.
pub find_loop : Compact2dBitArray → ℕ → ℕ → ℕ → ℕ → Outcome (Option ℕ)
find_loop filter f bucket zero ii = ok none
find_loop filter f bucket (suc n) ii = do
  x ← get_entry filter bucket ii
  let rest = find_loop filter f bucket n (ii + 1)
  if x == f then ok (some ii) else rest

-- `findFingerprint`, which takes an `unsigned`.
unfoldable pub find_fingerprint : Cuckoo → ℕ → ℕ → Outcome (Option ℕ)
unfolding find_loop
find_fingerprint c f bucket = find_loop c.filter (f % 2 ^ 32) bucket c.bucket_size 0

-- `try { return then(run) } catch (...) {}` before `rest`
pub try_else : {A B : Type 0} → Outcome (Option A) → (A → B) → Outcome B → Outcome B
try_else (stop s) after rest = stop s
try_else (ok none) after rest = rest
try_else (ok (some a)) after rest = ok (after a)

-- The same where `run` is `addToBucket` and the rest of `insert` follows.
pub try_add :
    {S : Type 0}
    → Outcome (Option Compact2dBitArray)
    → S
    → Outcome (Bool × Compact2dBitArray × S)
    → Outcome (Bool × Compact2dBitArray × S)
try_add (stop e) s rest = stop e
try_add (ok none) s rest = rest
try_add (ok (some a)) s rest = ok (true, a, s)

unfoldable pub lookup : Platform → Cuckoo → ℕ → Outcome Bool
unfolding p_hash find_fingerprint try_else
lookup p c datum = do
  h ← p_hash p c datum
  try_else (find_fingerprint c h.f h.i1) (λ i. true)
      (try_else (find_fingerprint c h.f h.i2) (λ i. true) (ok false))

module _ (little_endian : Bool) where
  pub add_loop : ℕ → ℕ → ℕ → ℕ → Compact2dBitArray → Outcome (Option Compact2dBitArray)
  add_loop bucket_idx f zero ii filter = ok none
  add_loop bucket_idx f (suc n) ii filter = do
    x ← get_entry filter bucket_idx ii
    let rest = add_loop bucket_idx f n (ii + 1) filter
    let here = set_entry little_endian filter bucket_idx ii (f % 2 ^ 32)
    if x == 0 then (here >>= λ a. ok (some a)) else rest

  -- `addToBucket` on the filter as it is in the course of `insert`.
  pub add_to_bucket : Cuckoo → Compact2dBitArray → ℕ → ℕ → Outcome (Option Compact2dBitArray)
  unfolding add_loop
  add_to_bucket c filter bucket_idx f = add_loop bucket_idx f c.bucket_size 0 filter

  -- The body of each `try` of `erase`.
  pub clear : Cuckoo → ℕ → ℕ → Outcome (Bool × Cuckoo)
  clear c bucket idx = do
    a ← set_entry little_endian c.filter bucket idx 0
    ok (true, record c { filter = a; items_count = c.items_count - 1 })

  pub try_clear :
      Cuckoo → ℕ → Outcome (Option ℕ) → Outcome (Bool × Cuckoo) → Outcome (Bool × Cuckoo)
  unfolding clear
  try_clear c bucket (stop s) rest = stop s
  try_clear c bucket (ok none) rest = rest
  try_clear c bucket (ok (some idx)) rest = clear c bucket idx

  unfoldable pub erase : Platform → Cuckoo → ℕ → Outcome (Bool × Cuckoo)
  unfolding p_hash find_fingerprint try_clear
  erase p c datum = unless_stops (not (c.items_count == 0)) throws >> (do
    h ← p_hash p c datum
    try_clear c h.i1 (find_fingerprint c h.f h.i1)
        (try_clear c h.i2 (find_fingerprint c h.f h.i2) (ok (false, c))))

-- `Slot`
pub record Slot : Type 0 where
  pub b : ℕ
  pub c : ℕ
  pub f : ℕ

-- `_restore_filter`, with the stack from its top on.
pub restore_filter : Bool → List Slot → Compact2dBitArray → Outcome Compact2dBitArray
restore_filter little_endian [] filter = ok filter
restore_filter little_endian (s ∷ slots) filter =
    set_entry little_endian filter s.b s.c s.f >>= restore_filter little_endian slots

-- `insert`, with the generator's state.
module _ (little_endian : Bool) (p : Platform) {S : Type 0} (draw : ℕ → ℕ → S → ℕ × S) where
  -- The loop over the kicks, by the kicks left, and what follows it.
  pub kick_loop :
      Cuckoo
      → ℕ
      → Compact2dBitArray
      → ℕ
      → ℕ
      → List Slot
      → S
      → Outcome (Bool × Compact2dBitArray × S)
  unfolding add_to_bucket restore_filter try_add
  kick_loop c zero filter chosen f slots s = do
    a ← restore_filter little_endian slots filter
    ok (false, a, s)
  kick_loop c (suc n) filter chosen f slots s = do
    let (victim_idx, s') = draw 0 (size_minus c.bucket_size 1) s
    victim ← get_entry filter chosen victim_idx
    alt_bucket ← alternative_bucket p c chosen victim
    filter' ← set_entry little_endian filter chosen victim_idx (f % 2 ^ 32)
    let slot : Slot = record { b = chosen; c = victim_idx; f = victim % 2 ^ 32 }
    try_add (add_to_bucket little_endian c filter' alt_bucket victim) s'
        (kick_loop c n filter' alt_bucket victim (slot ∷ slots) s')

  -- `insert` from where the hashes are known.
  pub place : Cuckoo → PartialHash → S → Outcome (Bool × Compact2dBitArray × S)
  unfolding add_to_bucket kick_loop try_add
  place c h s =
      let (coin, s') = draw 0 1 s in
      let chosen = if coin == 0 then h.i1 else h.i2 in
      try_add (add_to_bucket little_endian c c.filter h.i1 h.f) s (
        try_add (add_to_bucket little_endian c c.filter h.i2 h.f) s
          (kick_loop c c.max_kicks c.filter chosen h.f [] s'))

  unfoldable pub insert : Cuckoo → ℕ → S → Outcome (Bool × Cuckoo × S)
  unfolding p_hash place
  insert c datum s = do
    h ← p_hash p c datum
    (done, filter, s') ← place c h s
    ok (
      done,
      record c { filter = filter; items_count = c.items_count + (if done then 1 else 0) },
      s',
    )
