-- ===== src/Bloom/Member.antt =====
-- Membership: what `insert` sets, and that `exist` has no false negatives.
use gensync_core.Prelude.{
  ℕ, zero, suc, ◌+◌, ◌%◌, ◌<◌, ◌≡◌, refl, sym, ap, ◌∙◌, Bool, true, false, ◌&&◌, ◌||◌, ◌==◌, List,
  [], ◌∷◌, ◌++◌, length, set, length-set, arith, if◌then◌else◌,
}
use native.Mathlib.Nat.{mod-lt}
use gensync_core.Prelude.Outcome.{Outcome, ok, ◌>>=◌, rem_lem, load_at, store_at_lem, ok-injective}
use gensync_core.Platform.{Platform}
use gensync_core.Bloom.{BloomFilter, hash, insert_loop, insert, exist_loop, exist, insert_set}

-- The bit at a place; past the end there is none set.
abbrev pub read : List Bool → ℕ → Bool
read [] k = false
read (b ∷ bs) zero = b
read (b ∷ bs) (suc k) = read bs k

if-and : (b c : Bool) → ◌≡◌ {A = Outcome Bool} (if b then ok c else ok false) (ok (b && c))
if-and true c = refl
if-and false c = refl

load_at-read : (bs : List Bool) (k : ℕ) → k < length bs → load_at bs k ≡ ok (read bs k)
unfolding load_at
load_at-read [] k h = elim h [ ]
load_at-read (b ∷ bs) zero h = refl
load_at-read (b ∷ bs) (suc k) h = load_at-read bs k (omega arith)

read-set :
    (bs : List Bool) (j k : ℕ) → j < length bs → read (set bs j true) k ≡ (read bs k || j == k)
read-set [] j k h = elim h [ ]
read-set (b ∷ bs) zero zero h = ground arith
read-set (b ∷ bs) zero (suc k) h = ground arith
read-set (b ∷ bs) (suc j) zero h = ground arith
read-set (b ∷ bs) (suc j) (suc k) h = ground (arith, read-set bs j k (omega arith))

module _ (p : Platform) where
  -- Where hash function `i` sends `value` among `n` bits, and whether one of the rounds hits `k`.
  abbrev pub place : ℕ → ℕ → ℕ → ℕ
  place n value i = hash p value i % n

  abbrev pub hits : ℕ → ℕ → ℕ → ℕ → ℕ → Bool
  hits n value zero i k = false
  hits n value (suc r) i k = place n value i == k || hits n value r (i + 1) k

  -- `insert` and `exist` without their checks.
  abbrev mark : ℕ → ℕ → ℕ → ℕ → List Bool → List Bool
  mark n value zero i bs = bs
  mark n value (suc r) i bs = mark n value r (i + 1) (set bs (place n value i) true)

  abbrev seen : ℕ → ℕ → ℕ → ℕ → List Bool → Bool
  seen n value zero i bs = true
  seen n value (suc r) i bs = read bs (place n value i) && seen n value r (i + 1) bs

  length-mark : (n v r i : ℕ) (bs : List Bool) → length (mark n v r i bs) ≡ length bs
  length-mark n v zero i bs = refl
  length-mark n v (suc r) i bs = length-mark n v r (i + 1) _ ∙ length-set bs (place n v i) true

  insert_loop-mark :
      (n v r i : ℕ) (bs : List Bool)
      → length bs ≡ n
      → 0 < n
      → insert_loop p v r i bs ≡ ok (mark n v r i bs)
  unfolding insert_loop
  insert_loop-mark n v zero i bs e h = refl
  insert_loop-mark n v (suc r) i bs e h =
      rw
        (
          e,
          rem_lem (hash p v i) n h,
          store_at_lem bs (place n v i) true (omega (arith, mod-lt (hash p v i) h)),
        )
        (insert_loop-mark n v r (i + 1) _ (length-set bs (place n v i) true ∙ e) h)

  exist_loop-seen :
      (n v r i : ℕ) (bs : List Bool)
      → length bs ≡ n
      → 0 < n
      → exist_loop p v r i bs ≡ ok (seen n v r i bs)
  unfolding exist_loop
  exist_loop-seen n v zero i bs e h = refl
  exist_loop-seen n v (suc r) i bs e h =
      rw
        (
          e,
          rem_lem (hash p v i) n h,
          load_at-read bs (place n v i) (omega (arith, mod-lt (hash p v i) h)),
          exist_loop-seen n v r (i + 1) bs e h,
        )
        (if-and (read bs (place n v i)) _)

  read-mark :
      (n v r i k : ℕ) (bs : List Bool)
      → length bs ≡ n
      → 0 < n
      → read (mark n v r i bs) k ≡ (read bs k || hits n v r i k)
  read-mark n v zero i k bs e h = ground arith
  read-mark n v (suc r) i k bs e h = ground (
    arith,
    read-mark n v r (i + 1) k (set bs (place n v i) true) (length-set bs (place n v i) true ∙ e) h,
    read-set bs (place n v i) k (omega (arith, mod-lt (hash p v i) h)),
  )

  -- More bits set, more values seen.
  seen_mono :
      (n v r i : ℕ) (bs cs : List Bool)
      → ((k : ℕ) → read bs k ≡ true → read cs k ≡ true)
      → seen n v r i bs ≡ true
      → seen n v r i cs ≡ true
  seen_mono n v zero i bs cs m h = refl
  seen_mono n v (suc r) i bs cs m h =
      ground (arith, m (place n v i), seen_mono n v r (i + 1) bs cs m)

  seen-hits :
      (n v r i : ℕ) (bs : List Bool)
      → ((k : ℕ) → hits n v r i k ≡ true → read bs k ≡ true)
      → seen n v r i bs ≡ true
  seen-hits n v zero i bs m = refl
  seen-hits n v (suc r) i bs m =
      let here : read bs (place n v i) ≡ true = m (place n v i) (ground arith) in
      let rest = seen-hits n v r (i + 1) bs (λ k h. m k (ground arith)) in ground arith

  -- `insert` sets the bits that the hash functions hit, keeps every other bit, and changes neither
  -- the size nor the number of hash functions. The filter is not empty.
  pub insert_bits :
      (v : ℕ) (f : BloomFilter)
      → 0 < length f.bits
      → (f' : BloomFilter) × (insert p v f ≡ ok f')
        × (length f'.bits ≡ length f.bits)
        × (f'.num_hashes ≡ f.num_hashes)
        × ((k : ℕ) → read f'.bits k ≡ (read f.bits k || hits (length f.bits) v f.num_hashes 0 k))
  unfolding insert
  insert_bits v f h =
      let n = length f.bits in
      (
        record f { bits = mark n v f.num_hashes 0 f.bits },
        rw (insert_loop-mark n v f.num_hashes 0 f.bits refl h),
        length-mark n v f.num_hashes 0 f.bits,
        refl,
        λ k. read-mark n v f.num_hashes 0 k f.bits refl h,
      )

  exist-seen :
      (v : ℕ) (f : BloomFilter)
      → 0 < length f.bits
      → exist p v f ≡ ok (seen (length f.bits) v f.num_hashes 0 f.bits)
  unfolding exist
  exist-seen v f h = exist_loop-seen (length f.bits) v f.num_hashes 0 f.bits refl h

  -- `exist` of a filter of the same shape that has the bits of an insertion of `v`.
  exist_of_bits :
      (v n m : ℕ) (f : BloomFilter)
      → 0 < n
      → length f.bits ≡ n
      → f.num_hashes ≡ m
      → ((k : ℕ) → hits n v m 0 k ≡ true → read f.bits k ≡ true)
      → exist p v f ≡ ok true
  exist_of_bits v n m f h e d t =
      exist-seen v f (rw e h) ∙ rw (e, d) (ap ok (seen-hits n v m 0 f.bits t))

  -- A value that was inserted exists: there are no false negatives. The filter is not empty.
  pub exist-insert :
      (v : ℕ) (f : BloomFilter) → 0 < length f.bits → (insert p v f >>= exist p v) ≡ ok true
  exist-insert v f h =
      let (f', run, e, d, bits) = insert_bits v f h in
      rw run (exist_of_bits v (length f.bits) f.num_hashes f' h e d (λ k t. ground (arith, bits k)))

  -- A value that exists still exists after any other insertion.
  pub exist-insert_other :
      (v w : ℕ) (f : BloomFilter)
      → 0 < length f.bits
      → exist p v f ≡ ok true
      → (insert p w f >>= exist p v) ≡ ok true
  exist-insert_other v w f h x =
      let (f', run, e, d, bits) = insert_bits w f h in
      let was = ok-injective (sym (exist-seen v f h) ∙ x) in
      rw run (
        exist-seen v f' (rw e h)
        ∙ rw (e, d)
            (ap ok (
              seen_mono (length f.bits) v f.num_hashes 0 f.bits f'.bits
                (λ k t. ground (arith, bits k)) was)))

  -- Insertions of a list leave the shape of the filter, and a value that exists still exists.
  insert_set-keeps :
      (v : ℕ) (ws : List ℕ) (f : BloomFilter)
      → 0 < length f.bits
      → exist p v f ≡ ok true
      → (insert_set p ws f >>= exist p v) ≡ ok true
  unfolding insert_set
  insert_set-keeps v [] f h x = x
  insert_set-keeps v (w ∷ ws) f h x =
      let (f', run, e, d, bits) = insert_bits w f h in
      rw run (
        insert_set-keeps v ws f' (rw e h)
          (sym (ap (λ m. m >>= exist p v) run) ∙ exist-insert_other v w f h x))

  -- Every value of an inserted set exists: there are no false negatives. The filter is not empty.
  pub exist-insert_set :
      (v : ℕ) (before after : List ℕ) (f : BloomFilter)
      → 0 < length f.bits
      → (insert_set p (before ++ v ∷ after) f >>= exist p v) ≡ ok true
  unfolding insert_set
  exist-insert_set v [] after f h =
      let (f', run, e, d, bits) = insert_bits v f h in
      rw run (
        insert_set-keeps v after f' (rw e h)
          (sym (ap (λ m. m >>= exist p v) run) ∙ exist-insert v f h))
  exist-insert_set v (w ∷ before) after f h =
      let (f', run, e, d, bits) = insert_bits w f h in
      rw run (exist-insert_set v before after f' (rw e h))
