-- ===== src/Iblt/Inserted.antt =====
-- The lookup of a key that was inserted.
use gensync_core.Prelude.{
  ℕ, zero, suc, ◌+◌, ◌*◌, ◌/◌, ◌%◌, ◌≤◌, ◌<◌, ◌≡◌, refl, sym, ap, ◌∙◌, Bool, true, false, none,
  some, List, [], ◌∷◌, ◌++◌, All, length, modify, length-modify, ◌==◌, ==_refl, arith, ◌⊎◌, inl,
  inr, ==_iff, Bool-cases, ◌&&◌, ◌||◌,
}
use mathlib.Core.Path.{subst}
use native.Mathlib.Nat.{mod-lt, le-div_iff_mul-le, one-mul, zero-add, mul_comm, div-mul-le_self}
use gensync_core.Prelude.Int.{pos, ◌+ℤ◌, int_laws}
use gensync_core.Prelude.Outcome.{
  Outcome, ok, ◌>>=◌, rem_lem, div_lem, modify_at_lem, load_at, ok-injective,
}
use gensync_core.Platform.{Platform}
use gensync_core.Iblt.{
  HashTableEntry, GenIblt, size, hashes_for, hash_k, empty, is_pure, bump, insert_loop,
  insert_signed, insert,
}
use gensync_core.Iblt.Get.{found, get_scan, get_loop, get}

-- A cell that nothing but insertions has touched.
pub record IsCounted (e : HashTableEntry) : Type 0 where
  pub insertions : ℕ
  pub counted : e.count ≡ pos insertions
  pub none_yet : insertions ≡ 0 → (e.key_sum ≡ 0) × (e.value_sum ≡ 0)

-- A cell in which the pair is counted: if it is the only one, the sums are its own.
pub record IsHeld (key value : ℕ) (e : HashTableEntry) : Type 0 where
  pub others : ℕ
  pub counted : e.count ≡ pos (suc others)
  pub alone : others ≡ 0 → (e.key_sum ≡ key) × (e.value_sum ≡ value)

pos_suc : (n : ℕ) → pos n +ℤ pos 1 ≡ pos (suc n)
pos_suc n = omega int_laws

IsHeld-IsCounted : (key value : ℕ) (e : HashTableEntry) → IsHeld key value e → IsCounted e
IsHeld-IsCounted key value e h = record {
  insertions = suc h.others;
  counted = h.counted;
  none_yet = λ z. absurd (omega arith);
}

suc-not_zero : (n : ℕ) → (suc n == 0) ≡ false
suc-not_zero n = ground arith

-- The cell at the index counts the pair.
abbrev pub HeldAt : ℕ → ℕ → List HashTableEntry → ℕ → Type 0
HeldAt key value table i = (e : HashTableEntry) × (load_at table i ≡ ok e) × IsHeld key value e

module _ (f : HashTableEntry → HashTableEntry) (key value : ℕ) where
  modify-HeldAt :
      (table : List HashTableEntry) (i j : ℕ)
      → ((e : HashTableEntry) → IsHeld key value e → IsHeld key value (f e))
      → HeldAt key value table i
      → HeldAt key value (modify table j f) i
  unfolding load_at
  modify-HeldAt [] i j keep h = h
  modify-HeldAt (x ∷ xs) zero zero keep (e, run, held) =
      (f x, refl, keep x (subst (IsHeld key value) (sym (ok-injective run)) held))
  modify-HeldAt (x ∷ xs) zero (suc j) keep h = h
  modify-HeldAt (x ∷ xs) (suc i) zero keep h = h
  modify-HeldAt (x ∷ xs) (suc i) (suc j) keep h = modify-HeldAt xs i j keep h

  modified-HeldAt :
      (table : List HashTableEntry) (i : ℕ)
      → i < length table
      → ((e : HashTableEntry) → IsCounted e → IsHeld key value (f e))
      → All IsCounted table
      → HeldAt key value (modify table i f) i
  unfolding load_at
  modified-HeldAt [] i lt make h = absurd (omega arith)
  modified-HeldAt (x ∷ xs) zero lt make h = (f x, refl, make x h.0)
  modified-HeldAt (x ∷ xs) (suc i) lt make h = modified-HeldAt xs i (omega arith) make h.1

  modify-IsCounted :
      (table : List HashTableEntry) (i : ℕ)
      → ((e : HashTableEntry) → IsCounted e → IsHeld key value (f e))
      → All IsCounted table
      → All IsCounted (modify table i f)
  modify-IsCounted [] i make h = h
  modify-IsCounted (x ∷ xs) zero make h = (IsHeld-IsCounted key value (f x) (make x h.0), h.1)
  modify-IsCounted (x ∷ xs) (suc i) make h = (h.0, modify-IsCounted xs i make h.1)

module _ (p : Platform) where
  bump-IsHeld :
      (check key value : ℕ) (e : HashTableEntry)
      → IsCounted e
      → IsHeld key value (bump p check (pos 1) key value e)
  unfolding bump empty
  bump-IsHeld check key value e h =
      rw (h.counted, pos_suc h.insertions, suc-not_zero h.insertions)
        (record {
          others = h.insertions;
          counted = refl;
          alone = λ z.
              let sums = h.none_yet z in
              (
                ap (λ x. p.xor x key) sums.0 ∙ p.zero-xor key,
                ap (λ x. p.xor x value) sums.1 ∙ p.zero-xor value,
              );
        })

  bump-keeps :
      (check key value j v : ℕ) (e : HashTableEntry)
      → IsHeld key value e
      → IsHeld key value (bump p check (pos 1) j v e)
  unfolding bump empty
  bump-keeps check key value j v e h =
      rw (h.counted, pos_suc (suc h.others))
        (record { others = suc h.others; counted = refl; alone = λ z. absurd (omega arith) })

  -- The cell of the key for one of the hash functions.
  abbrev pub slot : ℕ → ℕ → ℕ → ℕ
  slot b key ii = ii * b + hash_k p key ii % b

  -- What the loop of `_insert` leaves.
  record Left (key value b n ii : ℕ) (table table' : List HashTableEntry) : Type 0 where
    width : length table' ≡ length table
    counted : All IsCounted table'
    keeps : (k v i : ℕ) → HeldAt k v table i → HeldAt k v table' i
    holds : (jj : ℕ) → ii ≤ jj → jj < ii + n → HeldAt key value table' (slot b key jj)

  insert_loop-Left :
      (check key value b n ii : ℕ) (table : List HashTableEntry)
      → 0 < b
      → (ii + n) * b ≤ length table
      → All IsCounted table
      → (table' : List HashTableEntry) × (insert_loop p b check (pos 1) key value n ii table
          ≡ ok table')
        × Left key value b n ii table table'
  unfolding insert_loop
  insert_loop-Left check key value b zero ii table hb room h = (
    table,
    refl,
    record {
      width = refl;
      counted = h;
      keeps = λ k v i held. held;
      holds = λ jj lo hi. absurd (omega arith);
    },
  )
  insert_loop-Left check key value b (suc n) ii table hb room h =
      let f = bump p check (pos 1) key value in
      let i = slot b key ii in
      let inside : i < length table = grind (arith, mod-lt (hash_k p key ii) hb) in
      let make = bump-IsHeld check key value in
      let table₁ = modify table i f in
      let width₁ = length-modify table i f in
      let (table', run, left) =
        insert_loop-Left check key value b n (ii + 1) table₁ hb (rw (width₁) (grind arith))
          (modify-IsCounted f key value table i make h) in
      (
        table',
        rw (rem_lem (hash_k p key ii) b hb, modify_at_lem table i f inside) run,
        record {
          width = left.width ∙ width₁;
          counted = left.counted;
          keeps = λ k v j held.
              left.keeps k v j
                (modify-HeldAt f k v table j i (λ e. bump-keeps check k v key value e) held);
          holds = λ jj lo hi. elim (first-or-later ii jj lo) [
            | inl same ↦ left.keeps key value (slot b key jj) (
                subst (λ l. HeldAt key value table₁ (slot b key l)) same
                  (modified-HeldAt f key value table i inside make h))
            | inr later ↦ left.holds jj later (omega arith)
          ];
        },
      )
    where
      first-or-later : (a c : ℕ) → a ≤ c → (a ≡ c) ⊎ (a + 1 ≤ c)
      first-or-later a c h = ground arith

  -- Insertions run to their end, and nothing else has touched the cells.
  pub record TakesAll (g : GenIblt) : Type 0 where
    pub hashed : (key : ℕ) → 0 < hashes_for g key
    pub roomy : (key : ℕ) → hashes_for g key ≤ size g
    pub sized : p.sizeof_zz ≡ g.value_size
    pub counted : All IsCounted g.hash_table

  -- The cells of the key, one for each hash function, count the pair.
  abbrev pub Holds : ℕ → ℕ → GenIblt → Type 0
  Holds key value g =
      (jj : ℕ)
      → jj < hashes_for g key
      → HeldAt key value g.hash_table (slot (size g / hashes_for g key) key jj)

  insert-Holds :
      (key value : ℕ) (g : GenIblt)
      → TakesAll g
      → (g' : GenIblt) × (insert p key value g ≡ ok g')
        × TakesAll g'
        × Holds key value g'
        × ((k v : ℕ) → Holds k v g → Holds k v g')
  unfolding insert insert_signed
  insert-Holds key value g h =
      let n = hashes_for g key in
      let b = size g / n in
      let hb : 0 < b = (le-div_iff_mul-le (h.hashed key)).1 (rw (one-mul n) (h.roomy key)) in
      let (table, run, left) =
        insert_loop-Left g.num_hash_check key value b n 0 g.hash_table hb
          (rw (zero-add, mul_comm n b) (div-mul-le_self (size g) n)) h.counted in
      (
        record g { hash_table = table },
        rw (div_lem (size g) n (h.hashed key), (==_iff _ _).1 h.sized, run) refl,
        record {
          hashed = h.hashed;
          roomy = λ k. rw (left.width) (h.roomy k);
          sized = h.sized;
          counted = left.counted;
        },
        λ jj lt. rw (left.width) (left.holds jj (omega arith) (omega (arith, lt))),
        λ k v held jj lt. rw (left.width) (left.keeps k v _ (held jj lt)),
      )

  -- Several pairs, one after the other.
  abbrev pub insert_pairs : List (ℕ × ℕ) → GenIblt → Outcome GenIblt
  insert_pairs [] g = ok g
  insert_pairs (x ∷ xs) g = insert p x.0 x.1 g >>= insert_pairs xs

  insert_pairs-keeps :
      (xs : List (ℕ × ℕ)) (g : GenIblt)
      → TakesAll g
      → (g' : GenIblt) × (insert_pairs xs g ≡ ok g')
        × TakesAll g'
        × ((k v : ℕ) → Holds k v g → Holds k v g')
  insert_pairs-keeps [] g h = (g, refl, h, λ k v held. held)
  insert_pairs-keeps (x ∷ xs) g h =
      let (g₁, run, takes, held, keep) = insert-Holds x.0 x.1 g h in
      let (g', runs, takes', keep') = insert_pairs-keeps xs g₁ takes in
      (g', rw run runs, takes', λ k v held. keep' k v (keep k v held))

  insert_pairs-Holds :
      (before after : List (ℕ × ℕ)) (key value : ℕ) (g : GenIblt)
      → TakesAll g
      → (g' : GenIblt) × (insert_pairs (before ++ (key, value) ∷ after) g ≡ ok g')
        × TakesAll g'
        × Holds key value g'
  insert_pairs-Holds [] after key value g h =
      let (g₁, run, takes, held, keep) = insert-Holds key value g h in
      let (g', runs, takes', keep') = insert_pairs-keeps after g₁ takes in
      (g', rw run runs, takes', keep' key value held)
  insert_pairs-Holds (x ∷ before) after key value g h =
      let (g₁, run, takes, held, keep) = insert-Holds x.0 x.1 g h in
      let (g', runs, takes', held') = insert_pairs-Holds before after key value g₁ takes in
      (g', rw run runs, takes', held')

  -- A cell that counts the pair is not empty, and if it is pure, its sums are the pair's.
  held-pure :
      (key value check : ℕ) (e : HashTableEntry)
      → IsHeld key value e
      → is_pure p check e ≡ true
      → (e.key_sum ≡ key) × (e.value_sum ≡ value)
  unfolding is_pure
  held-pure key value check e h pure =
      h.alone (only h.others (e.key_check == hash_k p e.key_sum check) (rw (h.counted) at (pure)))
    where
      only : (n : ℕ) (x : Bool) → ((suc n == 1) || false) && x ≡ true → n ≡ 0
      only n x h = ground arith

  held-not_empty : (key value : ℕ) (e : HashTableEntry) → IsHeld key value e → empty e ≡ false
  unfolding empty
  held-not_empty key value e h = rw (h.counted, suc-not_zero h.others) refl

  get_scan-held :
      (g : GenIblt) (key value b n ii : ℕ)
      → 0 < b
      → ((jj : ℕ) → ii ≤ jj → jj < ii + n → HeldAt key value g.hash_table (slot b key jj))
      → (get_scan p g b key n ii ≡ ok none) ⊎ (get_scan p g b key n ii ≡ ok (some (found value)))
  unfolding get_scan
  get_scan-held g key value b zero ii hb h = inl refl
  get_scan-held g key value b (suc n) ii hb h =
      let (e, run, held) = h ii (omega arith) (omega arith) in
      rw (rem_lem (hash_k p key ii) b hb, run, held-not_empty key value e held)
        (elim (Bool-cases (is_pure p g.num_hash_check e)) [
          | inl pure ↦
              let sums = held-pure key value g.num_hash_check e held pure in
              rw (pure, sums.0, sums.1, ==_refl key) (inr refl)
          | inr other ↦ rw other (
              get_scan-held g key value b n (ii + 1) hb
                (λ jj lo hi. h jj (omega (arith, lo)) (omega (arith, hi))))
        ])

  -- The first loop of a lookup is never wrong about a key that was inserted. After a list of pairs is
  -- inserted, which always runs to its end, the first loop of the lookup of one of their keys runs to
  -- its end in one of two ways: it finds the value of that pair, and the lookup answers true with it
  -- and leaves the table as it was; or it finds nothing, and the lookup comes to the loop that peels.
  -- What that loop answers is left open. The table that the pairs are inserted into has room for
  -- every key's hashes and only insertions behind it.
  pub get-insert_pairs :
      (before after : List (ℕ × ℕ)) (key value fuel : ℕ) (g : GenIblt)
      → TakesAll g
      → (g' : GenIblt) × (insert_pairs (before ++ (key, value) ∷ after) g ≡ ok g')
        × (let n = hashes_for g' key in
            let first = get_scan p g' (size g' / n) key n 0 in
            ((first ≡ ok (some (found value))) × (get p fuel key g' ≡ ok (true, found value, g')))
            ⊎ ((first ≡ ok none) × (get p fuel key g' ≡ get_loop p fuel key g')))
  unfolding get
  get-insert_pairs before after key value fuel g h =
      let (g', run, takes, held) = insert_pairs-Holds before after key value g h in
      let n = hashes_for g' key in
      let hb : 0 < size g' / n =
        (le-div_iff_mul-le (takes.hashed key)).1 (rw (one-mul n) (takes.roomy key)) in
      (
        g',
        run,
        rw (div_lem (size g') n (takes.hashed key))
            (elim (get_scan-held g' key value (size g' / n) n 0 hb
              (λ jj lo hi. held jj (omega (arith, hi)))) [
                | inl on ↦ inr (on, rw on refl)
                | inr hit ↦ inl (hit, rw hit refl)
              ]),
      )
