-- ===== src/Iblt/Get.antt =====
-- The lookup of a key, `get` of src/Syncs/GenIBLT.cpp.
use gensync_core.Prelude.{
  ℕ, zero, suc, ◌+◌, ◌*◌, Bool, true, false, if◌then◌else◌, ◌==◌, Option, none, some,
}
use gensync_core.Prelude.Int.{ -ℤ◌}
use gensync_core.Prelude.Outcome.{
  Outcome, ok, stop, out_of_fuel, ◌>>=◌, div, rem, load_at, at_index,
}
use gensync_core.Platform.{Platform}
use gensync_core.Iblt.{GenIblt, size, hashes_for, hash_k, empty, is_pure, insert_signed}

-- What becomes of the result: kept as it was, killed, or the value that was found.
pub data Got : Type 0 where
  kept killed : Got
  found : ℕ → Got

-- The variables of the second loop.
pub record Search : Type 0 where
  pub iblt : GenIblt
  pub n_erased : ℕ

module _ (p : Platform) where
  -- The first loop, by the rounds left and the index `ii`: the result if it returns.
  unfoldable pub get_scan : GenIblt → ℕ → ℕ → ℕ → ℕ → Outcome (Option Got)
  get_scan g buckets_per_hash key zero ii = ok none
  get_scan g buckets_per_hash key (suc n) ii = do
    r ← rem (hash_k p key ii) buckets_per_hash
    e ← load_at g.hash_table (ii * buckets_per_hash + r)
    let rest = get_scan g buckets_per_hash key n (ii + 1)
    if empty e
        then ok (some kept)
        else if is_pure p g.num_hash_check e
        then ok (some (if e.key_sum == key then found e.value_sum else killed))
        else rest

  -- The second loop on the cell at one index: the value if it returns, and the loop as it is left.
  pub get_cell : ℕ → ℕ → Search → Outcome (Option ℕ × Search)
  get_cell key i s = do
    e ← at_index s.iblt.hash_table i
    let peeled = do
      g ← insert_signed p (-ℤ◌ e.count) e.key_sum e.value_sum s.iblt
      ok (none, record { iblt = g; n_erased = s.n_erased + 1 })
    if is_pure p s.iblt.num_hash_check e
        then if e.key_sum == key then ok (some e.value_sum, s) else peeled
        else ok (none, s)

  pub get_pass : ℕ → ℕ → ℕ → Search → Outcome (Option ℕ × Search)
  unfolding get_cell
  get_pass key zero i s = ok (none, s)
  get_pass key (suc n) i s = do
    (r, s') ← get_cell key i s
    let rest = get_pass key n (i + 1) s'
    elim r [ some v ↦ ok (some v, s') | none ↦ rest ]

  -- The second loop, on fuel.
  pub get_loop : ℕ → ℕ → GenIblt → Outcome (Bool × Got × GenIblt)
  unfolding get_pass
  get_loop zero key g = stop out_of_fuel
  get_loop (suc fuel) key g = do
    (r, s) ← get_pass key (size g) 0 (record { iblt = g; n_erased = 0 })
    let rest = get_loop fuel key s.iblt
    elim r [
      | some v ↦ ok (true, found v, s.iblt)
      | none ↦ if s.n_erased == 0 then ok (false, kept, s.iblt) else rest
    ]

  -- `get`: the answer, the result, and the table as it is left, on fuel for the second loop.
  unfoldable pub get : ℕ → ℕ → GenIblt → Outcome (Bool × Got × GenIblt)
  unfolding get_loop get_scan
  get fuel key g = do
    let num_hashes = hashes_for g key
    buckets_per_hash ← div (size g) num_hashes
    r ← get_scan g buckets_per_hash key num_hashes 0
    let peel = get_loop fuel key g
    elim r [ some result ↦ ok (true, result, g) | none ↦ peel ]
