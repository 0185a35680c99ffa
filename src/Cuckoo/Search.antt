-- ===== src/Cuckoo/Search.antt =====
-- The search of the buckets of an element.
use gensync_core.Prelude.{
  ℕ, zero, suc, ◌+◌, ◌≤◌, ◌<◌, ◌≡◌, refl, sym, ap, ◌∙◌, true, false, Bool-cases, Option, none, some,
  arith, ◌==◌, ◌⊎◌, inl, inr,
}
use gensync_core.Prelude.Outcome.{Outcome, ok, >>=-eq-ok, ok-injective}
use gensync_core.Platform.{Platform}
use gensync_core.BitArray.{Compact2dBitArray, get_entry}
use gensync_core.BitArray.Place.{IsValid}
use gensync_core.BitArray.Entries.{get_entry-lt}
use gensync_core.BitArray.Changed.{read-Inside}
use gensync_core.Cuckoo.{Cuckoo, PartialHash, try_else, find_loop, find_fingerprint, lookup, p_hash}
use gensync_core.Cuckoo.Hashed.{p_hash-Hashed}
use gensync_core.Cuckoo.Kicks.{FingerprintsFit, as_unsigned_lem}
use gensync_core.Cuckoo.Present.{Present, if-true, if-false}

-- A filter as the constructors make it: its array is valid and has the filter's columns, at least one,
-- and fingerprints have at most `f_size` bits.
pub record IsReady (c : Cuckoo) : Type 0 where
  pub valid : IsValid c.filter
  pub columns : c.filter.b_size ≡ c.bucket_size
  pub some_columns : 0 < c.bucket_size
  pub fit : FingerprintsFit c

-- The search of one bucket of a valid array.
module _ (a : Compact2dBitArray) (valid : IsValid a) (f b : ℕ) (row : b < a.n_buckets) where
  pub find_loop_ends :
      (n ii : ℕ) → ii + n ≤ a.b_size → (r : Option ℕ) × (find_loop a f b n ii ≡ ok r)
  unfolding find_loop
  find_loop_ends zero ii h = (none, refl)
  find_loop_ends (suc n) ii h =
      let (x, read, small) = get_entry-lt a valid b ii row (omega arith) in
      let (r, rest) = find_loop_ends n (ii + 1) (omega arith) in
      elim (Bool-cases (x == f)) [
        | inl e ↦ (some ii, rw (read, e))
        | inr e ↦ (r, rw (read, e, rest))
      ]

  find_loop_finds :
      (n ii j : ℕ)
      → ii + n ≤ a.b_size
      → ii ≤ j
      → j < ii + n
      → get_entry a b j ≡ ok f
      → (k : ℕ) × (find_loop a f b n ii ≡ ok (some k))
  unfolding find_loop
  find_loop_finds zero ii j h g l e = absurd (omega arith)
  find_loop_finds (suc n) ii j h g l e =
      let (x, read, small) = get_entry-lt a valid b ii row (omega arith) in
      elim (Bool-cases (x == f)) [
        | inl same ↦ (ii, rw (read, same))
        | inr other ↦
            let later : ii + 1 ≤ j = later_of x ii j g read other e in
            let (k, rest) = find_loop_finds n (ii + 1) j (omega arith) later (omega arith) e in
            (k, rw (read, other, rest))
      ]
    where
      eq_or_lt : (ii j : ℕ) → ii ≤ j → (ii ≡ j) ⊎ (ii + 1 ≤ j)
      eq_or_lt ii j g = ground arith

      later_of :
          (x ii j : ℕ)
          → ii ≤ j
          → get_entry a b ii ≡ ok x
          → (x == f) ≡ false
          → get_entry a b j ≡ ok f
          → ii + 1 ≤ j
      later_of x ii j g read other e = elim (eq_or_lt ii j g) [
        | inl same ↦
            let found : x ≡ f = ok-injective (sym read ∙ ap (get_entry a b) same ∙ e) in
            ground arith
        | inr h ↦ h
      ]

-- What the search found is there.
pub find_loop-reads :
    (a : Compact2dBitArray) (f b n ii k : ℕ)
    → find_loop a f b n ii ≡ ok (some k)
    → get_entry a b k ≡ ok f
unfolding find_loop
find_loop-reads a f b zero ii k run = let told : none ≡ some k = ok-injective run in cc
find_loop-reads a f b (suc n) ii k run =
    let (x, run1, read) = >>=-eq-ok (get_entry a b ii) _ run in
    elim (Bool-cases (x == f)) [
      | inl e ↦
          let told : some ii ≡ some k = ok-injective (if-true (x == f) _ _ _ e run1) in
          let same : ii ≡ k = cc in
          let found : x ≡ f = ground arith in sym (ap (get_entry a b) same) ∙ read ∙ ap ok found
      | inr e ↦ find_loop-reads a f b n (ii + 1) k (if-false (x == f) _ _ _ e run1)
    ]

module _ (p : Platform) (c : Cuckoo) (ready : IsReady c) where
  open ready use {valid, columns, some_columns, fit}

  -- `lookup` finds a fingerprint that is in one of the two buckets.
  pub lookup_of_Present :
      (x : ℕ) (h : PartialHash)
      → p_hash p c x ≡ ok h
      → h.i1 < c.filter.n_buckets
      → Present c.filter h.f h.i1 h.i2
      → lookup p c x ≡ ok true
  unfolding lookup find_fingerprint try_else
  lookup_of_Present x h hashed row q =
      let small = fit x h.f (p_hash-Hashed p c x h hashed).found in
      let unsigned = as_unsigned_lem h.f c.filter.f_size valid.few_bits small in
      let inside = read-Inside c.filter q.bucket q.entry h.f q.reads in
      let (r, first) = find_loop_ends c.filter valid h.f h.i1 row c.bucket_size 0 (omega arith) in
      rw (hashed, unsigned)
        (elim q.one_of [
          | inl t ↦
              let (k, found) =
                search h.i1 q.entry row inside.column
                  (sym (ap (λ b. get_entry c.filter b q.entry) t) ∙ q.reads) in
              rw found
          | inr t ↦
              let row2 : h.i2 < c.filter.n_buckets = rw (sym t) inside.row in
              let (k, found) =
                search h.i2 q.entry row2 inside.column
                  (sym (ap (λ b. get_entry c.filter b q.entry) t) ∙ q.reads) in
              second_try r k _ _ first found
        ])
    where
      search :
          (b j : ℕ)
          → b < c.filter.n_buckets
          → j < c.filter.b_size
          → get_entry c.filter b j ≡ ok h.f
          → (k : ℕ) × (find_loop c.filter h.f b c.bucket_size 0 ≡ ok (some k))
      search b j row column reads =
          find_loop_finds c.filter valid h.f b row c.bucket_size 0 j (omega arith) (omega arith)
            (omega arith) reads

      second_try :
          (r : Option ℕ) (k : ℕ) (first second : Outcome (Option ℕ))
          → first ≡ ok r
          → second ≡ ok (some k)
          → try_else first (λ i. true) (try_else second (λ i. true) (ok false)) ≡ ok true
      second_try none k first second e d = rw (e, d)
      second_try (some i) k first second e d = rw e
