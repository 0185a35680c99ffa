-- ===== src/BitArray/Table.antt =====
-- The array as a table of numbers, and runs of writes against it.
use gensync_core.Prelude.{
  ℕ, ◌^◌, ◌≤◌, ◌<◌, ◌≡◌, refl, sym, ap, ◌∙◌, List, [], ◌∷◌, arith, Bool, true, false, Bool-cases,
  ◌&&◌, ◌==◌, ltb, if◌then◌else◌, ◌⊎◌, inl, inr, ◌≢◌, All,
}
use gensync_core.Prelude.Outcome.{Outcome, ok, stop, throws, ◌>>=◌}
use gensync_core.BitArray.{Compact2dBitArray, get_entry, set_entry, assert_idx}
use gensync_core.BitArray.Place.{IsValid, bits_after}
use gensync_core.BitArray.Values.{be_value, field}
use gensync_core.BitArray.Whole.{get_entry_lem}
use gensync_core.BitArray.Entries.{get_entry-set_entry}

-- The table that an array holds.
abbrev pub Table : Type 0
Table = ℕ → ℕ → ℕ

-- The table with one entry replaced.
abbrev pub write : Table → ℕ → ℕ → ℕ → Table
write tab i j v k l = if k == i && l == j then v else tab k l

pub record Represents (a : Compact2dBitArray) (tab : Table) : Type 0 where
  pub valid : IsValid a
  pub reads : (i j : ℕ) → i < a.n_buckets → j < a.b_size → get_entry a i j ≡ ok (tab i j)

-- The table of a valid array.
abbrev pub held : Compact2dBitArray → Table
held a i j = field (be_value a.store) (bits_after a i j) a.f_size

pub held_lem :
    (a : Compact2dBitArray)
    → IsValid a
    → (i j : ℕ) → i < a.n_buckets
    → j < a.b_size
    → get_entry a i j ≡ ok (held a i j)
held_lem a valid i j r c = get_entry_lem a i j valid r c

-- A write of a fingerprint, and a run of such writes.
pub record Write : Type 0 where
  pub bucket : ℕ
  pub entry : ℕ
  pub value : ℕ

unfoldable pub set_all : List Write → Compact2dBitArray → Outcome Compact2dBitArray
set_all [] a = ok a
set_all (w ∷ ws) a = set_entry true a w.bucket w.entry w.value >>= set_all ws

abbrev pub write_all : List Write → Table → Table
write_all [] tab = tab
write_all (w ∷ ws) tab = write_all ws (write tab w.bucket w.entry w.value)

-- The writes are in the table, and their fingerprints have no more than `f_size` bits.
abbrev pub Fits : Compact2dBitArray → Write → Type 0
Fits a w = (w.bucket < a.n_buckets) × (w.entry < a.b_size) × (w.value < 2 ^ a.f_size)

same_or_other : (i j k l : ℕ) → ((k ≡ i) × (l ≡ j)) ⊎ ((k ≢ i) ⊎ (l ≢ j))
same_or_other i j k l = ground arith

write_here : (tab : Table) (i j v k l : ℕ) → k ≡ i → l ≡ j → write tab i j v k l ≡ v
write_here tab i j v k l e d = ground arith

write_other : (tab : Table) (i j v k l : ℕ) → (k ≢ i) ⊎ (l ≢ j) → write tab i j v k l ≡ tab k l
write_other tab i j v k l ne = ground arith

-- One write.
pub set_entry-Represents :
    (a : Compact2dBitArray) (tab : Table) (i j v : ℕ)
    → Represents a tab
    → Fits a (record { bucket = i; entry = j; value = v })
    → (st : List ℕ) × (set_entry true a i j v ≡ ok (record a { store = st }))
      × Represents (record a { store = st }) (write tab i j v)
set_entry-Represents a tab i j v r (row, column, h) =
    let (st, run, valid, here, others) = get_entry-set_entry a r.valid i j row column v h in
    (
      st,
      run,
      record {
        valid = valid;
        reads = λ k l q c. elim (same_or_other i j k l) [
          | inl (e, d) ↦
              ap (λ n. get_entry (record a { store = st }) n l) e
              ∙ ap (get_entry (record a { store = st }) i) d
              ∙ here
              ∙ ap ok (sym (write_here tab i j v k l e d))
          | inr ne ↦
              others k l q c ne ∙ r.reads k l q c ∙ ap ok (sym (write_other tab i j v k l ne))
        ];
      },
    )

-- A run of writes to an array that holds a table ends well, and the array then holds the table with
-- these writes, in their order.
pub set_all-Represents :
    (ws : List Write) (a : Compact2dBitArray) (tab : Table)
    → Represents a tab
    → All (Fits a) ws
    → (st : List ℕ) × (set_all ws a ≡ ok (record a { store = st }))
      × Represents (record a { store = st }) (write_all ws tab)
unfolding set_all
set_all-Represents [] a tab r h = (a.store, refl, r)
set_all-Represents (w ∷ ws) a tab r (h, hs) =
    let (st, run, r') = set_entry-Represents a tab w.bucket w.entry w.value r h in
    let (st', runs, r'') = set_all-Represents ws (record a { store = st }) _ r' hs in
    (st', rw run runs, r'')

-- After a run of writes to a valid array, which all are in the table, every entry reads as the table
-- that the vector of bytes stood for, with the writes applied to it in their order: the bytes of the
-- array refine a function of the row and the column, and the run ends well.
pub set_all_refines :
    (ws : List Write) (a : Compact2dBitArray)
    → IsValid a
    → All (Fits a) ws
    → (k l : ℕ) → k < a.n_buckets
    → l < a.b_size
    → (set_all ws a >>= λ b. get_entry b k l) ≡ ok (write_all ws (held a) k l)
set_all_refines ws a valid fits k l r c =
    let start : Represents a (held a) = record { valid = valid; reads = held_lem a valid } in
    let (st, run, after) = set_all-Represents ws a (held a) start fits in
    rw run (after.reads k l r c)

assert_past :
    (a : Compact2dBitArray) (i j : ℕ)
    → (a.n_buckets ≤ i) ⊎ (a.b_size ≤ j)
    → assert_idx a i j ≡ stop throws
unfolding assert_idx
assert_past a i j (inl h) = let rows : ltb i a.n_buckets ≡ false = ground arith in rw rows
assert_past a i j (inr h) =
    let columns : ltb j a.b_size ≡ false = ground arith in
    elim (Bool-cases (ltb i a.n_buckets)) [ inl e ↦ rw (e, columns) | inr e ↦ rw e ]

-- Past the last row or the last column, `get_entry` and `set_entry` throw.
pub entry_past :
    (little_endian : Bool) (a : Compact2dBitArray) (i j v : ℕ)
    → (a.n_buckets ≤ i) ⊎ (a.b_size ≤ j)
    → (get_entry a i j ≡ stop throws) × (set_entry little_endian a i j v ≡ stop throws)
unfolding get_entry set_entry
entry_past little_endian a i j v h = (rw (assert_past a i j h), rw (assert_past a i j h))
