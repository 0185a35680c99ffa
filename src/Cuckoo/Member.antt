-- ===== src/Cuckoo/Member.antt =====
-- Membership: what is inserted is found, and insertions lose nothing.
use gensync_core.Prelude.{
  ℕ, zero, suc, ◌+◌, ◌%◌, ◌^◌, ◌<◌, ◌≡◌, ◌≢◌, refl, sym, ap, ◌∙◌, Bool, true, false, Option, none,
  some, arith, if◌then◌else◌, ◌==◌, ◌⊎◌, inl, inr,
}
use gensync_core.Prelude.Outcome.{Outcome, ok, stop, >>=-eq-ok, ok-injective}
use gensync_core.Platform.{Platform}
use gensync_core.BitArray.{Compact2dBitArray, get_entry}
use gensync_core.BitArray.Changed.{Kept, read-Inside}
use gensync_core.Cuckoo.{
  Cuckoo, PartialHash, try_add, try_else, find_loop, find_fingerprint, add_to_bucket, add_loop,
  place, insert, lookup, p_hash, fingerprint, alternative_bucket, is_zero_f,
}
use gensync_core.Cuckoo.Hashed.{p_hash-Hashed}
use gensync_core.Cuckoo.Kicks.{as_unsigned_lem, insert_gives_up}
use gensync_core.Cuckoo.Present.{Present, place-Present}
use gensync_core.Cuckoo.Search.{IsReady, find_loop-reads, lookup_of_Present}

-- The filter of `c` with another array and another count.
abbrev with_filter : Cuckoo → Compact2dBitArray → ℕ → Cuckoo
with_filter c a n = record c { filter = a; items_count = n }

same_hash :
    (p : Platform) (c : Cuckoo) (a : Compact2dBitArray) (n x : ℕ)
    → p_hash p (with_filter c a n) x ≡ p_hash p c x
unfolding p_hash alternative_bucket
same_hash p c a n x = refl

still-IsReady :
    (c : Cuckoo) (a : Compact2dBitArray) (n : ℕ)
    → IsReady c
    → Kept c.filter a
    → IsReady (with_filter c a n)
still-IsReady c a n ready kept = record {
  valid = kept.valid;
  columns = kept.columns ∙ ready.columns;
  some_columns = ready.some_columns;
  fit = λ x f found. rw kept.bits (ready.fit x f found);
}

nonzero_of : (c : Cuckoo) (x f : ℕ) → is_zero_f c x ≡ ok false → fingerprint c x ≡ ok f → f ≢ 0
unfolding is_zero_f
nonzero_of c x f told found =
    let (g, ends, again) = >>=-eq-ok (fingerprint c x) _ told in
    let same : g ≡ f = ok-injective (sym again ∙ found) in
    let test : (g == 0) ≡ false = ok-injective ends in ground arith

-- The first bucket that is searched is in the table.
add_row :
    (b g n : ℕ) (filter : Compact2dBitArray) (o : Option Compact2dBitArray)
    → 0 < n
    → add_loop true b g n 0 filter ≡ ok o
    → b < filter.n_buckets
unfolding add_loop
add_row b g zero filter o h run = absurd (omega arith)
add_row b g (suc n) filter o h run =
    let (x, run1, read) = >>=-eq-ok (get_entry filter b 0) _ run in
    (read-Inside filter b 0 x read).row

find_row :
    (a : Compact2dBitArray) (f b n : ℕ) (o : Option ℕ)
    → 0 < n
    → find_loop a f b n 0 ≡ ok o
    → b < a.n_buckets
unfolding find_loop
find_row a f b zero o h run = absurd (omega arith)
find_row a f b (suc n) o h run =
    let (x, run1, read) = >>=-eq-ok (get_entry a b 0) _ run in (read-Inside a b 0 x read).row

try_add_ran :
    {S : Type 0} (r : Outcome (Option Compact2dBitArray)) (s : S)
    (rest : Outcome (Bool × Compact2dBitArray × S)) (t : Bool × Compact2dBitArray × S)
    → try_add r s rest ≡ ok t
    → (o : Option Compact2dBitArray) × (r ≡ ok o)
unfolding try_add
try_add_ran (stop e) s rest t run = cc
try_add_ran (ok o) s rest t run = (o, refl)

try_else-cases :
    (first second : Outcome (Option ℕ))
    → try_else first (λ i. true) (try_else second (λ i. true) (ok false)) ≡ ok true
    → (o : Option ℕ) × (first ≡ ok o)
      × (((k : ℕ) × (first ≡ ok (some k))) ⊎ ((k : ℕ) × (second ≡ ok (some k))))
unfolding try_else
try_else-cases (stop e) second run = cc
try_else-cases (ok (some k)) second run = (some k, refl, inl (k, refl))
try_else-cases (ok none) (stop e) run = cc
try_else-cases (ok none) (ok none) run = let told : false ≡ true = ok-injective run in cc
try_else-cases (ok none) (ok (some k)) run = (none, refl, inr (k, refl))

-- The filter is ready and finds the element, whose fingerprint is not 0.
pub record Finds (p : Platform) (y : ℕ) (c : Cuckoo) : Type 0 where
  pub ready : IsReady c
  pub nonzero : is_zero_f c y ≡ ok false
  pub found : lookup p c y ≡ ok true

same_zero :
    (c : Cuckoo) (a : Compact2dBitArray) (n x : ℕ) → is_zero_f (with_filter c a n) x ≡ is_zero_f c x
unfolding is_zero_f
same_zero c a n x = refl

module _ (p : Platform) {S : Type 0} (draw : ℕ → ℕ → S → ℕ × S) (c : Cuckoo)
    (ready : IsReady c) where
  open ready use {valid, columns, some_columns, fit}

  -- What an insertion that answers true has done.
  inserted :
      (x : ℕ) (s s' : S) (c' : Cuckoo)
      → insert true p draw c x s ≡ ok (true, c', s')
      → (h : PartialHash) × (t : Bool × Compact2dBitArray × S) × (n : ℕ) × (p_hash p c x ≡ ok h)
        × (place true p draw c h s ≡ ok t)
        × (t.0 ≡ true)
        × (with_filter c t.1 n ≡ c')
  unfolding insert
  inserted x s s' c' run =
      let (h, run1, hashed) = >>=-eq-ok (p_hash p c x) _ run in
      let (t, ends, placed) = >>=-eq-ok (place true p draw c h s) _ run1 in
      (
        h,
        t,
        c.items_count + (if t.0 then 1 else 0),
        hashed,
        placed,
        ap (λ u. u.0) (ok-injective ends),
        ap (λ u. u.1) (ok-injective ends),
      )

  pub insert-Finds_self :
      (x : ℕ) (s s' : S) (c' : Cuckoo)
      → is_zero_f c x ≡ ok false
      → insert true p draw c x s ≡ ok (true, c', s')
      → Finds p x c'
  unfolding place add_to_bucket
  insert-Finds_self x s s' c' nonzero run =
      let (h, t, n, hashed, placed, done, same) = inserted x s s' c' run in
      let q = p_hash-Hashed p c x h hashed in
      let (found, kept) =
        place-Present p draw c h.f h.i1 h.i2 (nonzero_of c x h.f nonzero q.found) q.there q.back h s
          t valid (fit x h.f q.found) (inr (refl, inl refl)) (inr (refl, inr refl)) placed done in
      let (o, added) = try_add_ran (add_to_bucket true c c.filter h.i1 h.f) s _ t placed in
      let row = add_row h.i1 h.f c.bucket_size c.filter o some_columns added in
      let still = still-IsReady c t.1 n ready kept in
      rw (sym same) (record {
        ready = still;
        nonzero = same_zero c t.1 n x ∙ nonzero;
        found =
            lookup_of_Present p (with_filter c t.1 n) still x h (same_hash p c t.1 n x ∙ hashed)
              (rw kept.rows row) found;
      })

  -- An element whose insertion answers true is found, if its fingerprint is not 0: there are no false
  -- negatives. The filter is ready and the byte order is little endian.
  pub lookup-insert :
      (x : ℕ) (s s' : S) (c' : Cuckoo)
      → is_zero_f c x ≡ ok false
      → insert true p draw c x s ≡ ok (true, c', s')
      → lookup p c' x ≡ ok true
  lookup-insert x s s' c' nonzero run = (insert-Finds_self x s s' c' nonzero run).found

  -- What a lookup that answers true has found.
  looked_up :
      (y : ℕ)
      → lookup p c y ≡ ok true
      → (h : PartialHash) × (p_hash p c y ≡ ok h)
        × (h.i1 < c.filter.n_buckets)
        × Present c.filter h.f h.i1 h.i2
  unfolding lookup find_fingerprint
  looked_up y run =
      let (h, run1, hashed) = >>=-eq-ok (p_hash p c y) _ run in
      let (o, first, either) =
        try_else-cases (find_fingerprint c h.f h.i1) (find_fingerprint c h.f h.i2) run1 in
      let small = fit y h.f (p_hash-Hashed p c y h hashed).found in
      let unsigned = as_unsigned_lem h.f c.filter.f_size valid.few_bits small in
      (
        h,
        hashed,
        find_row c.filter (h.f % 2 ^ 32) h.i1 c.bucket_size o some_columns first,
        elim either [
          | inl (k, e) ↦ record {
            bucket = h.i1;
            entry = k;
            one_of = inl refl;
            reads =
                find_loop-reads c.filter (h.f % 2 ^ 32) h.i1 c.bucket_size 0 k e ∙ ap ok unsigned;
          }
          | inr (k, e) ↦ record {
            bucket = h.i2;
            entry = k;
            one_of = inr refl;
            reads =
                find_loop-reads c.filter (h.f % 2 ^ 32) h.i2 c.bucket_size 0 k e ∙ ap ok unsigned;
          }
        ],
      )

  pub insert-Finds :
      (x y : ℕ) (s s' : S) (c' : Cuckoo) (answer : Bool)
      → is_zero_f c y ≡ ok false
      → lookup p c y ≡ ok true
      → insert true p draw c x s ≡ ok (answer, c', s')
      → Finds p y c'
  insert-Finds x y s s' c' false nonzero before run =
      rw (insert_gives_up p draw c x s s' c' valid fit run)
        (record { ready = ready; nonzero = nonzero; found = before })
  insert-Finds x y s s' c' true nonzero before run =
      let (h, t, n, hashed, placed, done, same) = inserted x s s' c' run in
      let (g, hashed_y, row, q) = looked_up y before in
      let r = p_hash-Hashed p c y g hashed_y in
      let small = fit x h.f (p_hash-Hashed p c x h hashed).found in
      let (found, kept) =
        place-Present p draw c g.f g.i1 g.i2 (nonzero_of c y g.f nonzero r.found) r.there r.back h s
          t valid small (inl q) (inl q) placed done in
      let still = still-IsReady c t.1 n ready kept in
      rw (sym same) (record {
        ready = still;
        nonzero = same_zero c t.1 n y ∙ nonzero;
        found =
            lookup_of_Present p (with_filter c t.1 n) still y g (same_hash p c t.1 n y ∙ hashed_y)
              (rw kept.rows row) found;
      })

  -- An element that is found is still found after any insertion, whatever its answer, if its
  -- fingerprint is not 0. The filter is ready and the byte order is little endian.
  pub lookup-insert_other :
      (x y : ℕ) (s s' : S) (c' : Cuckoo) (answer : Bool)
      → is_zero_f c y ≡ ok false
      → lookup p c y ≡ ok true
      → insert true p draw c x s ≡ ok (answer, c', s')
      → lookup p c' y ≡ ok true
  lookup-insert_other x y s s' c' answer nonzero before run =
      (insert-Finds x y s s' c' answer nonzero before run).found
