-- ===== src/Cuckoo/Tests.antt =====
-- Runs of the cuckoo filter on small inputs.
use gensync_core.Prelude.{
  ℕ, ◌+◌, ◌-◌, ◌%◌, ◌^◌, ◌<◌, ◌≡◌, refl, Bool, true, false, ◌&&◌, ltb, List, [], ◌∷◌, length, arith,
  ◌⊎◌,
}
use native.Mathlib.Nat.{mod-lt}
use gensync_core.Prelude.Outcome.{ok, stop, throws, ok-injective, rem, load_at, store_at, at_index}
use gensync_core.Platform.{sample_platform}
use gensync_core.Ntl.{AreBytes}
use gensync_core.BitArray.{get_entry, set_entry}
use gensync_core.BitArray.Place.{IsValid}
use gensync_core.Cuckoo.{
  Cuckoo, PartialHash, fingerprint, default_fingerprint, default_hash, alternative_bucket, p_hash,
  is_zero_f, find_fingerprint, lookup, insert, erase,
}
use gensync_core.Cuckoo.Kicks.{FingerprintsFit, insert_gives_up}
use gensync_core.Cuckoo.Search.{IsReady}
use gensync_core.Cuckoo.Member.{lookup-insert, lookup-insert_other}
use gensync_core.Cuckoo.Ends.{DrawsWithin, Hashes, insert_ends}
use gensync_core.Cuckoo.Erase.{erase-lookup}

-- Four buckets of two fingerprints of 12 bits, with the functions that filters have by default.
abbrev filter_of : List ℕ → ℕ → Cuckoo
filter_of st n = record {
  filter = record { store = st; f_size = 12; f_size_b = 2; b_size = 2; n_buckets = 4 };
  filter_size = 4;
  bucket_size = 2;
  fngprt_size = 12;
  max_kicks = 2;
  items_count = n;
  fingerprint_impl = default_fingerprint sample_platform;
  hash_impl = default_hash sample_platform;
}

-- The fingerprint 8 in all entries of the first two buckets, and in all entries.
abbrev half_full : Cuckoo
half_full = filter_of (0 ∷ 128 ∷ 8 ∷ 0 ∷ 128 ∷ 8 ∷ 0 ∷ 0 ∷ 0 ∷ 0 ∷ 0 ∷ 0 ∷ []) 4

abbrev full : Cuckoo
full = filter_of (0 ∷ 128 ∷ 8 ∷ 0 ∷ 128 ∷ 8 ∷ 0 ∷ 128 ∷ 8 ∷ 0 ∷ 128 ∷ 8 ∷ []) 8

-- After the insertion of 6, which kicks one of the 8 to the third bucket.
abbrev after_six : Cuckoo
after_six = filter_of (0 ∷ 128 ∷ 8 ∷ 0 ∷ 128 ∷ 6 ∷ 0 ∷ 128 ∷ 0 ∷ 0 ∷ 0 ∷ 0 ∷ []) 5

-- A generator that counts.
abbrev count_up : ℕ → ℕ → ℕ → ℕ × ℕ
count_up lo hi s = (lo + s % (hi - lo + 1), s + 1)

inserts_six : insert true sample_platform count_up half_full 6 0 ≡ ok (true, after_six, 2)
unfolding insert p_hash alternative_bucket default_fingerprint default_hash rem get_entry set_entry
    load_at store_at at_index
inserts_six = refl

gives_up_six : insert true sample_platform count_up full 6 0 ≡ ok (false, full, 3)
unfolding insert p_hash alternative_bucket default_fingerprint default_hash rem get_entry set_entry
    load_at store_at at_index
gives_up_six = refl

finds_eight : lookup sample_platform half_full 8 ≡ ok true
unfolding lookup p_hash alternative_bucket default_fingerprint default_hash rem find_fingerprint
    get_entry load_at
finds_eight = refl

six_nonzero : is_zero_f half_full 6 ≡ ok false
unfolding is_zero_f default_fingerprint
six_nonzero = refl

eight_nonzero : is_zero_f half_full 8 ≡ ok false
unfolding is_zero_f default_fingerprint
eight_nonzero = refl

abbrev all_bytes : List ℕ → Bool
all_bytes [] = true
all_bytes (x ∷ xs) = ltb x 256 && all_bytes xs

bytes_under : (xs : List ℕ) → all_bytes xs ≡ true → AreBytes xs
bytes_under [] e = tt
bytes_under (x ∷ xs) e = (ground arith, bytes_under xs (ground arith))

filter-IsValid :
    (st : List ℕ) (n : ℕ) → all_bytes st ≡ true → length st ≡ 12 → IsValid (filter_of st n).filter
filter-IsValid st n b l = record {
  some_bits = omega arith;
  few_bits = omega arith;
  f_bytes_fit = omega arith;
  f_bytes_needed = omega arith;
  no_wrap = omega arith;
  room = omega (arith, l);
  bytes = bytes_under st b;
}

filter-FingerprintsFit : (st : List ℕ) (n : ℕ) → FingerprintsFit (filter_of st n)
unfolding default_fingerprint
filter-FingerprintsFit st n x f found =
    let e : x % 2 ^ 32 % 2 ^ 12 ≡ f = ok-injective found in omega arith

filter-IsReady :
    (st : List ℕ) (n : ℕ) → all_bytes st ≡ true → length st ≡ 12 → IsReady (filter_of st n)
filter-IsReady st n b l = record {
  valid = filter-IsValid st n b l;
  columns = refl;
  some_columns = omega arith;
  fit = filter-FingerprintsFit st n;
}

half_full-IsReady : IsReady half_full
half_full-IsReady = filter-IsReady half_full.filter.store 4 refl refl

half_full-Hashes : Hashes half_full
unfolding default_hash rem
half_full-Hashes = record {
  rows = refl;
  some_rows = omega arith;
  few_rows = omega arith;
  total = λ e. (_, refl);
}

count_up-DrawsWithin : DrawsWithin count_up
count_up-DrawsWithin lo hi s h =
    let small : s % (hi - lo + 1) < hi - lo + 1 = mod-lt s (omega arith) in
    (omega arith, omega arith)

six_fingerprint : fingerprint half_full 6 ≡ ok 6
unfolding default_fingerprint
six_fingerprint = refl

insert_gives_up_example : full ≡ full
insert_gives_up_example =
    insert_gives_up sample_platform count_up full 6 0 3 full
      (filter-IsValid full.filter.store 8 refl refl) (filter-FingerprintsFit full.filter.store 8)
      gives_up_six

lookup-insert_example : lookup sample_platform after_six 6 ≡ ok true
lookup-insert_example =
    lookup-insert sample_platform count_up half_full half_full-IsReady 6 0 2 after_six six_nonzero
      inserts_six

lookup-insert_other_example : lookup sample_platform after_six 8 ≡ ok true
lookup-insert_other_example =
    lookup-insert_other sample_platform count_up half_full half_full-IsReady 6 8 0 2 after_six true
      eight_nonzero finds_eight inserts_six

insert_ends_example :
    ((p_hash sample_platform half_full 6 ≡ stop throws)
      × (insert true sample_platform count_up half_full 6 0 ≡ stop throws))
    ⊎ ((h : PartialHash) × (p_hash sample_platform half_full 6 ≡ ok h)
        × (answer : Bool) × (c' : Cuckoo) × (s' : ℕ) × (insert true sample_platform count_up
              half_full 6 0
            ≡ ok (answer, c', s')))
insert_ends_example =
    insert_ends sample_platform count_up count_up-DrawsWithin half_full half_full-IsReady
      half_full-Hashes 6 6 0 six_fingerprint

erase-lookup_example :
    (c' : Cuckoo) × (erase true sample_platform half_full 8 ≡ ok (true, c')) × (c'.items_count ≡ 3)
erase-lookup_example =
    erase-lookup sample_platform half_full half_full-IsReady 8 true (omega arith) finds_eight
