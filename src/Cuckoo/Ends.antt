-- ===== src/Cuckoo/Ends.antt =====
-- Insertions end well where the hash function does.
use gensync_core.Prelude.{
  ℕ, zero, suc, ◌+◌, ◌%◌, ◌^◌, ◌≤◌, ◌<◌, ◌≡◌, refl, sym, ap, ◌∙◌, Bool, true, false, Bool-cases,
  Option, none, some, List, [], arith, if◌then◌else◌, ◌==◌, ltb, ◌⊎◌, inl, inr,
}
use native.Mathlib.Nat.{mod-lt}
use gensync_core.Prelude.Outcome.{Outcome, ok, stop, throws, rem_lem, ok-injective}
use gensync_core.Platform.{Platform}
use gensync_core.BitArray.{Compact2dBitArray, set_entry, size_minus}
use gensync_core.BitArray.Place.{IsValid}
use gensync_core.BitArray.Entries.{get_entry-lt, get_entry-set_entry}
use gensync_core.BitArray.Changed.{set_entry-Changed}
use gensync_core.Cuckoo.{
  Cuckoo, PartialHash, Slot, try_add, add_to_bucket, add_loop, kick_loop, place, insert, p_hash,
  fingerprint, hash, alternative_bucket, restore_filter, int_as_size,
}
use gensync_core.Cuckoo.Hashed.{p_hash-Hashed}
use gensync_core.Cuckoo.Kicks.{as_unsigned_lem}
use gensync_core.Cuckoo.Search.{IsReady}

-- A generator that keeps to its bounds, as `uniform_int_distribution` does.
abbrev pub DrawsWithin : {S : Type 0} → (ℕ → ℕ → S → ℕ × S) → Type 0
DrawsWithin {S} draw =
    (lo hi : ℕ) (s : S) → lo ≤ hi → (lo ≤ (draw lo hi s).0) × ((draw lo hi s).0 ≤ hi)

-- The filter has as many buckets as it says, no more than an `int` counts, and its hash function ends
-- well on every number.
pub record Hashes (c : Cuckoo) : Type 0 where
  pub rows : c.filter.n_buckets ≡ c.filter_size
  pub some_rows : 0 < c.filter_size
  pub few_rows : c.filter_size ≤ 2 ^ 31
  pub total : (e : ℕ) → (h : ℕ) × (hash c e ≡ ok h)

module _ (p : Platform) (c : Cuckoo) (hashes : Hashes c) where
  open hashes use {rows, some_rows, few_rows, total}

  -- The other bucket is always there.
  pub alternative_bucket_ends :
      (b f : ℕ) → (r : ℕ) × (alternative_bucket p c b f ≡ ok r) × (r < c.filter.n_buckets)
  unfolding alternative_bucket
  alternative_bucket_ends b f =
      let (h, found) = total f in
      let r = p.xor b h % c.filter_size in
      let small : r < c.filter_size = mod-lt (p.xor b h) some_rows in
      (
        r,
        rw (found, rem_lem (p.xor b h) c.filter_size some_rows) (ap ok (as_int r (omega arith))),
        rw rows small,
      )
    where
      as_int : (r : ℕ) → r < 2 ^ 31 → int_as_size r ≡ r
      as_int r h =
          let low : r % 2 ^ 32 ≡ r = omega arith in
          let test : ltb r (2 ^ 31) ≡ true = ground arith in rw (low, test)

add_loop_ends :
    (b g n ii : ℕ) (filter : Compact2dBitArray)
    → IsValid filter
    → b < filter.n_buckets
    → g < 2 ^ filter.f_size
    → ii + n ≤ filter.b_size
    → (o : Option Compact2dBitArray) × (add_loop true b g n ii filter ≡ ok o)
unfolding add_loop
add_loop_ends b g zero ii filter valid row small h = (none, refl)
add_loop_ends b g (suc n) ii filter valid row small h =
    let column : ii < filter.b_size = omega arith in
    let (x, read, below) = get_entry-lt filter valid b ii row column in
    let (st, wrote, v, here, others) = get_entry-set_entry filter valid b ii row column g small in
    let unsigned = as_unsigned_lem g filter.f_size valid.few_bits small in
    let (o, rest) = add_loop_ends b g n (ii + 1) filter valid row small (omega arith) in
    elim (Bool-cases (x == 0)) [
      | inl e ↦ (some (record filter { store = st }), rw (read, e, unsigned, wrote))
      | inr e ↦ (o, rw (read, e, rest))
    ]

try_add_ends :
    {S : Type 0} (r : Outcome (Option Compact2dBitArray)) (o : Option Compact2dBitArray) (s : S)
    (rest : Outcome (Bool × Compact2dBitArray × S))
    → r ≡ ok o
    → (t : Bool × Compact2dBitArray × S) × (rest ≡ ok t)
    → (t : Bool × Compact2dBitArray × S) × (try_add r s rest ≡ ok t)
unfolding try_add
try_add_ends r none s rest e (t, run) = (t, rw (e, run))
try_add_ends r (some a) s rest e (t, run) = ((true, a, s), rw e)

module _ (p : Platform) {S : Type 0} (draw : ℕ → ℕ → S → ℕ × S) (within : DrawsWithin draw)
    (c : Cuckoo) (ready : IsReady c) (hashes : Hashes c) where
  open ready use {columns, some_columns, fit}

  kick_loop_ends :
      (n : ℕ) (filter original : Compact2dBitArray) (chosen f : ℕ) (slots : List Slot) (s : S)
      → IsValid filter
      → filter.b_size ≡ c.bucket_size
      → filter.n_buckets ≡ c.filter.n_buckets
      → chosen < filter.n_buckets
      → f < 2 ^ filter.f_size
      → restore_filter true slots filter ≡ ok original
      → (t : Bool × Compact2dBitArray × S) × (kick_loop true p draw c n filter chosen f slots s
          ≡ ok t)
  unfolding kick_loop restore_filter add_to_bucket
  kick_loop_ends zero filter original chosen f slots s valid cols rows row small back =
      ((false, original, s), rw back)
  kick_loop_ends (suc n) filter original chosen f slots s valid cols rows row small back =
      let idx = (draw 0 (size_minus c.bucket_size 1) s).0 in
      let last : size_minus c.bucket_size 1 < c.bucket_size = last_of c.bucket_size some_columns in
      let column : idx < filter.b_size =
        omega (arith, (within 0 (size_minus c.bucket_size 1) s (omega arith)).1) in
      let (victim, read, below) = get_entry-lt filter valid chosen idx row column in
      let (alt, found, alt_row) = alternative_bucket_ends p c hashes chosen victim in
      let (st, wrote, v, here, others) =
        get_entry-set_entry filter valid chosen idx row column f small in
      let unsigned = as_unsigned_lem f filter.f_size valid.few_bits small in
      let filter' = record filter { store = st } in
      let changed = set_entry-Changed filter filter' chosen idx f valid small wrote in
      let undo : set_entry true filter' chosen idx (victim % 2 ^ 32) ≡ ok filter =
        ap (set_entry true filter' chosen idx)
          (as_unsigned_lem victim filter.f_size valid.few_bits below)
        ∙ changed.back victim read in
      let alt_inside : alt < filter.n_buckets = rw rows alt_row in
      let (o, added) =
        add_loop_ends alt victim c.bucket_size 0 filter' changed.valid alt_inside below
          (omega arith) in
      let rest =
        kick_loop_ends n filter' original alt victim _ _ changed.valid cols rows alt_inside below
          (rw undo back) in
      rw (read, found, unsigned, wrote) (try_add_ends _ o _ _ added rest)
    where
      last_of : (b : ℕ) → 0 < b → size_minus b 1 < b
      last_of b h = omega arith

  -- `_pHash` ends well, or throws: no other way.
  p_hash_ends :
      (x f : ℕ)
      → fingerprint c x ≡ ok f
      → (p_hash p c x ≡ stop throws) ⊎ ((h : PartialHash) × (p_hash p c x ≡ ok h))
  unfolding p_hash
  p_hash_ends x f found =
      let (k, hashed) = hashes.total x in
      let i1 = p.to_int k in
      let (i2, there, row) = alternative_bucket_ends p c hashes i1 f in
      let (b, back, row') = alternative_bucket_ends p c hashes i2 f in
      rw (found, hashed, there, back)
        (elim (Bool-cases (i1 == b)) [
          | inl same ↦ rw same (inr (record { f = f; i1 = i1; i2 = i2 }, refl))
          | inr other ↦ rw other (inl refl)
        ])

  place_ends :
      (x : ℕ) (s : S) (h : PartialHash)
      → p_hash p c x ≡ ok h
      → (answer : Bool) × (c' : Cuckoo) × (s' : S) × (insert true p draw c x s
          ≡ ok (answer, c', s'))
  unfolding insert place add_to_bucket restore_filter
  place_ends x s h hashed =
      let q = p_hash-Hashed p c x h hashed in
      let small = fit x h.f q.found in
      let (i1, e1, row1) = alternative_bucket_ends p c hashes h.i2 h.f in
      let (i2, e2, row2) = alternative_bucket_ends p c hashes h.i1 h.f in
      let same1 : i1 ≡ h.i1 = ok-injective (sym e1 ∙ q.back) in
      let same2 : i2 ≡ h.i2 = ok-injective (sym e2 ∙ q.there) in
      let inside1 : h.i1 < c.filter.n_buckets = rw (sym same1) row1 in
      let inside2 : h.i2 < c.filter.n_buckets = rw (sym same2) row2 in
      let (o1, added1) =
        add_loop_ends h.i1 h.f c.bucket_size 0 c.filter ready.valid inside1 small (omega arith) in
      let (o2, added2) =
        add_loop_ends h.i2 h.f c.bucket_size 0 c.filter ready.valid inside2 small (omega arith) in
      let coin = (draw 0 1 s).0 in
      let chosen : (if coin == 0 then h.i1 else h.i2) < c.filter.n_buckets =
        elim (Bool-cases (coin == 0)) [ inl e ↦ rw e inside1 | inr e ↦ rw e inside2 ] in
      let kicks =
        kick_loop_ends c.max_kicks c.filter c.filter (if coin == 0 then h.i1 else h.i2) h.f []
          (draw 0 1 s).1 ready.valid columns refl chosen small refl in
      let (t, run) =
        try_add_ends (add_loop true h.i1 h.f c.bucket_size 0 c.filter) o1 s _ added1
          (try_add_ends (add_loop true h.i2 h.f c.bucket_size 0 c.filter) o2 s _ added2 kicks) in
      (
        t.0,
        record c { filter = t.1; items_count = c.items_count + (if t.0 then 1 else 0) },
        t.2,
        rw (hashed, run),
      )

  -- Every insertion of an element that has a fingerprint ends, in one of two ways: where `_pHash`
  -- throws, since the two buckets of the element are not each other's alternatives, the exception
  -- escapes; else the insertion ends well, with an answer: no kick leaves the table, no exception
  -- escapes, and giving up ends too. The filter is ready, its hash function is total and the table
  -- has at most 2 ^ 31 rows, the generator keeps to its bounds, and the byte order is little endian.
  pub insert_ends :
      (x f : ℕ) (s : S)
      → fingerprint c x ≡ ok f
      → ((p_hash p c x ≡ stop throws) × (insert true p draw c x s ≡ stop throws))
        ⊎ ((h : PartialHash) × (p_hash p c x ≡ ok h)
            × (answer : Bool) × (c' : Cuckoo) × (s' : S) × (insert true p draw c x s
                ≡ ok (answer, c', s')))
  unfolding insert
  insert_ends x f s found = elim (p_hash_ends x f found) [
    | inl thrown ↦ inl (thrown, rw thrown refl)
    | inr (h, hashed) ↦
        let (answer, c', s', run) = place_ends x s h hashed in inr (h, hashed, answer, c', s', run)
  ]
