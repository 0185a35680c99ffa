-- ===== src/Cuckoo/Suitable.antt =====
-- Filters whose number of buckets is a power of two: the check of `p_hash` never fails.
use gensync_core.Prelude.{ℕ, ◌%◌, ◌^◌, ◌≤◌, ◌<◌, ◌≡◌, ap, ◌∙◌, true, arith, ==_refl, ltb}
use native.Mathlib.Nat.{mod-eq_of_lt, pow-le-pow_right}
use gensync_core.Prelude.Powers.{pow-pos}
use gensync_core.Prelude.Outcome.{ok, rem_lem}
use gensync_core.Platform.{Platform}
use gensync_core.Cuckoo.{Cuckoo, p_hash, fingerprint, hash, alternative_bucket, int_as_size}

module _ (p : Platform) (c : Cuckoo) (k : ℕ) (few : k ≤ 31) (size : c.filter_size ≡ 2 ^ k) where
  -- The other bucket is the exclusive or.
  alternative_bucket-xor :
      (b f h : ℕ)
      → b < 2 ^ k
      → h < 2 ^ k
      → hash c f ≡ ok h
      → alternative_bucket p c b f ≡ ok (p.xor b h)
  unfolding alternative_bucket
  alternative_bucket-xor b f h below small found =
      let inside = p.xor-lt k b h below small in
      let whole : p.xor b h % 2 ^ k ≡ p.xor b h = mod-eq_of_lt inside in
      let int : p.xor b h < 2 ^ 31 =
        omega (arith, pow-le-pow_right {n = 2} (omega arith) {i = k} {j = 31} few) in
      rw (found, size, rem_lem (p.xor b h) (2 ^ k) (pow-pos k))
        (ap ok (ap int_as_size whole ∙ as_int (p.xor b h) int))
    where
      as_int : (r : ℕ) → r < 2 ^ 31 → int_as_size r ≡ r
      as_int r h =
          let low : r % 2 ^ 32 ≡ r = omega arith in
          let test : ltb r (2 ^ 31) ≡ true = ground arith in rw (low, test)

  -- An element whose fingerprint and hash are found is hashed: the two buckets are each other's
  -- alternatives, so that the check does not throw. The filter has 2 ^ k buckets, with k at most 31,
  -- and the hashes of the element and of its fingerprint are among them.
  pub p_hash_suits :
      (x f h g : ℕ)
      → fingerprint c x ≡ ok f
      → hash c x ≡ ok h
      → h < 2 ^ k
      → hash c f ≡ ok g
      → g < 2 ^ k
      → p_hash p c x ≡ ok (record { f = f; i1 = h; i2 = p.xor h g })
  unfolding p_hash
  p_hash_suits x f h g found hashed below again small =
      let int : p.to_int h ≡ h =
        p.to_int_lem h
          (omega (arith, pow-le-pow_right {n = 2} (omega arith) {i = k} {j = 31} few)) in
      let there = alternative_bucket-xor h f g below small again in
      let undone : p.xor (p.xor h g) g ≡ h =
        p.xor_assoc h g g ∙ ap (p.xor h) (p.xor_self g) ∙ p.xor_comm h 0 ∙ p.zero-xor h in
      let back : alternative_bucket p c (p.xor h g) f ≡ ok h =
        alternative_bucket-xor (p.xor h g) f g (p.xor-lt k h g below small) small again
        ∙ ap ok undone in
      rw (found, hashed, int, there, back, ==_refl h)
