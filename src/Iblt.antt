-- ===== src/Iblt.antt =====
-- The invertible Bloom lookup table of src/Syncs/GenIBLT.cpp and include/GenSync/Syncs/GenIBLT.h.
-- A table is the vector of its cells; a method returns the new table. `long` counts are integers,
-- since 2 ^ 63 updates are out of reach.
pub mod Sums
pub mod Update
pub mod Subtract
pub mod Peel
pub mod Decode
pub mod Reconcile
pub mod Sublists
pub mod Honest
mod Order
pub mod Ends
pub mod Get
pub mod Inserted
mod Tests
use gensync_core.Prelude.{
  ℕ, zero, suc, ◌+◌, ◌*◌, ◌/◌, bit_xor, Bool, true, ◌&&◌, ◌||◌, Option, none, some, List, [], ◌∷◌,
  ◌++◌, ◌==◌, if◌then◌else◌, length, replicate,
}
use gensync_core.Prelude.Int.{ℤ, pos, negsuc, ◌+ℤ◌, ◌-ℤ◌, -ℤ◌, ◌==ℤ◌}
use gensync_core.Prelude.Outcome.{
  Outcome, ok, stop, quits, out_of_fuel, ◌>>=◌, ◌>>◌, unless_stops, div, rem, at_index, modify_at,
}
use gensync_core.Platform.{Platform}

pub record HashTableEntry : Type 0 where
  pub count : ℤ
  pub key_sum : ℕ
  pub key_check : ℕ
  pub value_sum : ℕ

pub record GenIblt : Type 0 where
  pub num_hashes : ℕ
  pub calc_num_hashes : Option (ℕ → ℕ)
  pub num_hash_check : ℕ
  pub hash_table : List HashTableEntry
  pub value_size : ℕ

abbrev pub blank : HashTableEntry
blank = record { count = pos 0; key_sum = 0; key_check = 0; value_sum = 0 }

-- `HashTableEntry::empty`
unfoldable pub empty : HashTableEntry → Bool
empty e = (e.count ==ℤ pos 0) && (e.key_sum == 0 && e.key_check == 0)

-- The constructor for an expected number of entries; `%` by no hashes is undefined.
unfoldable pub new : ℕ → ℕ → ℕ → ℕ → Outcome GenIblt
new num_hashes num_hash_check expected_num_entries value_size = do
  let n_entries = expected_num_entries + expected_num_entries / 2
  r ← rem n_entries num_hashes
  ok (record {
    num_hashes = num_hashes;
    calc_num_hashes = none;
    num_hash_check = num_hash_check;
    hash_table = replicate (n_entries + r) blank;
    value_size = value_size;
  })

-- The constructor for a number of cells and a rule for the number of hashes.
unfoldable pub new_cells : ℕ → ℕ → (ℕ → ℕ) → GenIblt
new_cells num_cells value_size calc = record {
  num_hashes = 0;
  calc_num_hashes = some calc;
  num_hash_check = 0;
  hash_table = replicate num_cells blank;
  value_size = value_size;
}

abbrev pub size : GenIblt → ℕ
size g = length g.hash_table

-- The local `numHashes` of `_insert` and `get`.
abbrev pub hashes_for : GenIblt → ℕ → ℕ
hashes_for g key = elim g.calc_num_hashes [ none ↦ g.num_hashes | some f ↦ f key ]

-- The loop at the end of `listEntries`.
pub all_empty : List HashTableEntry → Bool
all_empty [] = true
all_empty (e ∷ es) = empty e && all_empty es

-- The variables of the loops of `listEntries`.
pub record Listing : Type 0 where
  pub iblt : GenIblt
  pub positive : List (ℕ × ℕ)
  pub negative : List (ℕ × ℕ)
  pub n_erased : ℕ

module _ (p : Platform) where
  open p use {xor, sizeof_zz, shash}

  -- `_hash(initial, kk)`, by the number kk + 1 of rounds
  unfoldable pub hash_rounds : ℕ → ℕ → ℕ
  hash_rounds initial zero = initial
  hash_rounds initial (suc n) = hash_rounds (shash initial) n

  unfoldable pub hash_k : ℕ → ℕ → ℕ
  unfolding hash_rounds
  hash_k item kk = hash_rounds (shash item) kk

  -- `HashTableEntry::isPure`
  unfoldable pub is_pure : ℕ → HashTableEntry → Bool
  is_pure num_hash_check e =
      (e.count ==ℤ pos 1 || e.count ==ℤ negsuc 0)
      && (e.key_check == hash_k e.key_sum num_hash_check)

  -- What one round of the loop in `_insert` does to its cell.
  unfoldable pub bump : ℕ → ℤ → ℕ → ℕ → HashTableEntry → HashTableEntry
  unfolding empty
  bump num_hash_check plus_or_minus key value e =
      let e' = record e {
        count = e.count +ℤ plus_or_minus;
        key_sum = xor e.key_sum key;
        key_check = bit_xor e.key_check (hash_k key num_hash_check);
      } in
      record e' { value_sum = if empty e' then 0 else xor e.value_sum value }

  -- The loop of `_insert`, by the rounds left and the index `ii`.
  pub insert_loop : ℕ → ℕ → ℤ → ℕ → ℕ → ℕ → ℕ → List HashTableEntry → Outcome (List HashTableEntry)
  insert_loop buckets_per_hash num_hash_check plus_or_minus key value zero ii table = ok table
  insert_loop buckets_per_hash num_hash_check plus_or_minus key value (suc n) ii table = do
    r ← rem (hash_k key ii) buckets_per_hash
    table' ←
        modify_at table (ii * buckets_per_hash + r) (bump num_hash_check plus_or_minus key value)
    insert_loop buckets_per_hash num_hash_check plus_or_minus key value n (ii + 1) table'

  -- `_insert`
  unfoldable pub insert_signed : ℤ → ℕ → ℕ → GenIblt → Outcome GenIblt
  unfolding insert_loop
  insert_signed plus_or_minus key value g = do
    let num_hashes = hashes_for g key
    buckets_per_hash ← div (size g) num_hashes
    unless_stops (sizeof_zz == g.value_size) quits
    table ←
        insert_loop buckets_per_hash g.num_hash_check plus_or_minus key value num_hashes 0
          g.hash_table
    ok (record g { hash_table = table })

  unfoldable pub insert : ℕ → ℕ → GenIblt → Outcome GenIblt
  insert key value g = insert_signed (pos 1) key value g

  unfoldable pub erase : ℕ → ℕ → GenIblt → Outcome GenIblt
  erase key value g = insert_signed (negsuc 0) key value g

  -- One cell of `operator-=`.
  unfoldable pub sub_entry : HashTableEntry → HashTableEntry → HashTableEntry
  unfolding empty
  sub_entry e₁ e₂ =
      let e' = record e₁ {
        count = e₁.count -ℤ e₂.count;
        key_sum = xor e₁.key_sum e₂.key_sum;
        key_check = bit_xor e₁.key_check e₂.key_check;
      } in
      record e' { value_sum = if empty e' then 0 else xor e₁.value_sum e₂.value_sum }

  pub sub_loop : List HashTableEntry → List HashTableEntry → List HashTableEntry
  sub_loop [] others = []
  sub_loop (e ∷ es) [] = e ∷ es
  sub_loop (e₁ ∷ es) (e₂ ∷ others) = sub_entry e₁ e₂ ∷ sub_loop es others

  -- `operator-=`
  unfoldable pub subtract : GenIblt → GenIblt → Outcome GenIblt
  unfolding sub_loop
  subtract g other = do
    unless_stops (g.value_size == other.value_size) quits
    unless_stops (size g == size other) quits
    ok (record g { hash_table = sub_loop g.hash_table other.hash_table })

  -- The body of the inner loop of `listEntries`, on the cell at one index.
  pub list_cell : ℕ → Listing → Outcome Listing
  list_cell i s = do
    e ← at_index s.iblt.hash_table i
    let peeled = do
      g ← insert_signed (-ℤ◌ e.count) e.key_sum e.value_sum s.iblt
      let item : ℕ × ℕ = (e.key_sum, e.value_sum)
      ok (
          if e.count ==ℤ pos 1
          then record s { iblt = g; positive = s.positive ++ item ∷ []; n_erased = s.n_erased + 1 }
          else record s { iblt = g; negative = s.negative ++ item ∷ []; n_erased = s.n_erased + 1 })
    if is_pure s.iblt.num_hash_check e then peeled else ok s

  -- The inner loop, by the cells left and the index.
  pub list_pass : ℕ → ℕ → Listing → Outcome Listing
  unfolding list_cell
  list_pass zero i s = ok s
  list_pass (suc n) i s = list_cell i s >>= list_pass n (i + 1)

  -- The outer loop, on fuel.
  pub list_loop : ℕ → Listing → Outcome Listing
  unfolding list_pass
  list_loop zero s = stop out_of_fuel
  list_loop (suc fuel) s = do
    s' ← list_pass (size s.iblt) 0 (record s { n_erased = 0 })
    let rest = list_loop fuel s'
    if 0 == s'.n_erased then ok s' else rest

  -- `listEntries`: the answer, and the table and the two vectors as they are left.
  unfoldable pub list_entries : ℕ → Listing → Outcome (Bool × Listing)
  unfolding list_loop all_empty
  list_entries fuel s = do s' ← list_loop fuel s; ok (all_empty s'.iblt.hash_table, s')
