-- ===== src/BitArray/Entries.antt =====
-- What `set_entry` changes, what it leaves alone, and how a write is undone.
use gensync_core.Prelude.{
  ℕ, suc, ◌+◌, ◌-◌, ◌*◌, ◌^◌, ◌≤◌, ◌<◌, ◌≡◌, sym, ap, ap₂, ◌∙◌, List, length, arith, true, ◌⊎◌, inl,
  inr, ◌≢◌,
}
use native.Mathlib.Nat.{mod-lt, mul-le-mul_left, mul-suc}
use gensync_core.Prelude.Powers.{pow-pos}
use gensync_core.Prelude.Outcome.{ok, ◌>>=◌, ok-injective}
use gensync_core.Ntl.{AreBytes}
use gensync_core.BitArray.{Compact2dBitArray, get_entry, set_entry}
use gensync_core.BitArray.Values.{
  be_value, field, splice, field-splice, field-splice_above, field-splice_below, splice-splice,
  splice-field, be_value-injective,
}
use gensync_core.BitArray.Place.{IsValid, bits_before, bits_after, inside_table}
use gensync_core.BitArray.Whole.{Written, get_entry_lem, set_entry_lem}

-- Two entries do not overlap.
module _ (f b : ℕ) where
  earlier_row : (i j k l : ℕ) → l < b → k < i → f * b * k + f * l + f ≤ f * b * i + f * j
  earlier_row i j k l d h = omega (
    arith,
    mul-le-mul_left {m = suc l} {n = b} f d,
    mul-suc f l,
    mul-le-mul_left {m = suc k} {n = i} (f * b) h,
    mul-suc (f * b) k,
  )

  earlier_column : (i j l : ℕ) → l < j → f * b * i + f * l + f ≤ f * b * i + f * j
  earlier_column i j l h = omega (arith, mul-le-mul_left {m = suc l} {n = j} f h, mul-suc f l)

  apart :
      (i j k l : ℕ)
      → j < b
      → l < b
      → (k ≢ i) ⊎ (l ≢ j)
      → (f * b * k + f * l + f ≤ f * b * i + f * j) ⊎ (f * b * i + f * j + f ≤ f * b * k + f * l)
  apart i j k l c d ne = elim (rows i k) [
    | inl h ↦ inl (earlier_row i j k l d h)
    | inr (inl h) ↦ inr (earlier_row k l i j c h)
    | inr (inr e) ↦ elim (columns e ne) [
      | inl h ↦ inl (omega (arith, earlier_column i j l h, ap (λ (n : ℕ). f * b * n) e))
      | inr h ↦ inr (omega (arith, earlier_column i l j h, ap (λ (n : ℕ). f * b * n) e))
    ]
  ]
    where
      rows : (i k : ℕ) → (k < i) ⊎ ((i < k) ⊎ (k ≡ i))
      rows i k = ground arith

      columns : k ≡ i → (k ≢ i) ⊎ (l ≢ j) → (l < j) ⊎ (j < l)
      columns e ne = ground arith

module _ (a : Compact2dBitArray) (valid : IsValid a) where
  open valid use {some_bits, room}

  written-IsValid :
      (st : List ℕ) → length st ≡ length a.store → AreBytes st → IsValid (record a { store = st })
  written-IsValid st l b = record {
    some_bits = valid.some_bits;
    few_bits = valid.few_bits;
    f_bytes_fit = valid.f_bytes_fit;
    f_bytes_needed = valid.f_bytes_needed;
    no_wrap = valid.no_wrap;
    room = omega (arith, valid.room, l);
    bytes = b;
  }

  module _ (i j : ℕ) (row : i < a.n_buckets) (column : j < a.b_size) where
    -- An entry that is read is below 2 ^ f_size.
    pub get_entry-lt : (v : ℕ) × (get_entry a i j ≡ ok v) × (v < 2 ^ a.f_size)
    get_entry-lt = (
      field (be_value a.store) (bits_after a i j) a.f_size,
      get_entry_lem a i j valid row column,
      mod-lt _ (pow-pos a.f_size),
    )

    module _ (v : ℕ) (h : v < 2 ^ a.f_size)
        (w : Written a.store (bits_after a i j) a.f_size v) where
      abbrev after : Compact2dBitArray
      after = record a { store = w.after }

      after-IsValid : IsValid after
      after-IsValid = written-IsValid w.after w.length-after w.after-AreBytes

      read_after :
          (k l : ℕ)
          → k < a.n_buckets
          → l < a.b_size
          → get_entry after k l
            ≡ ok (
                field
                  (splice (be_value a.store) (bits_after a i j) a.f_size v)
                  (bits_after a k l)
                  a.f_size)
      read_after k l r c =
          get_entry_lem after k l after-IsValid r c
          ∙ ap₂ (λ (n m : ℕ). ok (field n (8 * m - (bits_before a k l + a.f_size)) a.f_size))
              w.be_value-after w.length-after

      read_written : get_entry after i j ≡ ok v
      read_written =
          read_after i j row column
          ∙ ap ok (field-splice (be_value a.store) (bits_after a i j) a.f_size v h)

      read_other :
          (k l : ℕ)
          → k < a.n_buckets
          → l < a.b_size
          → (k ≢ i) ⊎ (l ≢ j)
          → get_entry after k l ≡ get_entry a k l
      read_other k l r c ne =
          read_after k l r c
          ∙ ap ok (elim (apart a.f_size a.b_size i j k l column c ne) [
            | inl e ↦
                let d = bits_before a i j - (bits_before a k l + a.f_size) in
                let place : bits_after a k l ≡ a.f_size + bits_after a i j + d =
                  omega (arith, room, inside_table a i j valid row column) in
                rw place
                  (field-splice_above (be_value a.store) (bits_after a i j) a.f_size v h d a.f_size)
            | inr e ↦
                let d = bits_before a k l - (bits_before a i j + a.f_size) in
                field-splice_below (be_value a.store) (bits_after a i j) a.f_size v h d a.f_size
                  (bits_after a k l) (omega (arith, room, inside_table a k l valid r c))
          ])
          ∙ sym (get_entry_lem a k l valid r c)

    -- `set_entry` of a fingerprint of `f_size` bits ends well; the entry then reads as the fingerprint,
    -- every other entry reads as before, and the array stays valid.
    pub get_entry-set_entry :
        (v : ℕ)
        → v < 2 ^ a.f_size
        → (st : List ℕ) × (set_entry true a i j v ≡ ok (record a { store = st }))
          × IsValid (record a { store = st })
          × (get_entry (record a { store = st }) i j ≡ ok v)
          × ((k l : ℕ)
              → k < a.n_buckets
              → l < a.b_size
              → (k ≢ i) ⊎ (l ≢ j)
              → get_entry (record a { store = st }) k l ≡ get_entry a k l)
    get_entry-set_entry v h =
        let (w, run) = set_entry_lem a i j valid row column v h in
        (w.after, run, after-IsValid v h w, read_written v h w, read_other v h w)

    -- Writing over an entry and then writing its old value gives back the same bytes.
    pub set_entry_back :
        (u v : ℕ)
        → get_entry a i j ≡ ok u
        → v < 2 ^ a.f_size
        → (set_entry true a i j v >>= λ b. set_entry true b i j u) ≡ ok a
    set_entry_back u v read h =
        let (w, run) = set_entry_lem a i j valid row column v h in
        let old : u ≡ field (be_value a.store) (bits_after a i j) a.f_size =
          ok-injective (sym read ∙ get_entry_lem a i j valid row column) in
        let small : u < 2 ^ a.f_size = rw old (mod-lt _ (pow-pos a.f_size)) in
        let (x, again) = set_entry_lem (after v h w) i j (after-IsValid v h w) row column u small in
        let value : be_value x.after ≡ be_value a.store =
          x.be_value-after
          ∙ ap₂ (λ (n m : ℕ). splice n (8 * m - (bits_before a i j + a.f_size)) a.f_size u)
              w.be_value-after w.length-after
          ∙ splice-splice (be_value a.store) (bits_after a i j) a.f_size v h u
          ∙ ap (splice (be_value a.store) (bits_after a i j) a.f_size) old
          ∙ splice-field (be_value a.store) (bits_after a i j) a.f_size in
        let same : x.after ≡ a.store =
          be_value-injective x.after a.store x.after-AreBytes valid.bytes
            (x.length-after ∙ w.length-after) value in
        rw run (again ∙ ap (λ st. ok (record a { store = st })) same)
