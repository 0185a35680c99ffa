-- ===== src/Cuckoo/Kicks.antt =====
-- The loop of `insert` over the kicks: where it gives up, it puts every entry back.
use gensync_core.Prelude.{
  ℕ, zero, suc, ◌+◌, ◌%◌, ◌^◌, ◌≤◌, ◌<◌, ◌≡◌, refl, sym, ap, ap₂, ◌∙◌, Bool, true, false, Option,
  none, some, List, [], arith, if◌then◌else◌,
}
use native.Mathlib.Nat.{mod-eq_of_lt, pow-le-pow_right}
use gensync_core.Prelude.Outcome.{Outcome, ok, stop, >>=-eq-ok, ok-injective}
use gensync_core.Platform.{Platform}
use gensync_core.BitArray.{Compact2dBitArray, get_entry, set_entry, size_minus}
use gensync_core.BitArray.Place.{IsValid}
use gensync_core.BitArray.Changed.{Changed, set_entry-Changed, read-lt}
use gensync_core.Cuckoo.{
  Cuckoo, Slot, try_add, add_to_bucket, alternative_bucket, restore_filter, kick_loop, place,
  insert, p_hash, fingerprint, PartialHash,
}
use gensync_core.Cuckoo.Hashed.{p_hash-Hashed}

-- Every fingerprint of the filter's function has at most `f_size` bits.
abbrev pub FingerprintsFit : Cuckoo → Type 0
FingerprintsFit c = (x f : ℕ) → fingerprint c x ≡ ok f → f < 2 ^ c.filter.f_size

-- What an addition that was not made leaves to the rest.
try_add-false :
    {S : Type 0} (r : Outcome (Option Compact2dBitArray)) (s : S)
    (rest : Outcome (Bool × Compact2dBitArray × S)) (t : Bool × Compact2dBitArray × S)
    → try_add r s rest ≡ ok t
    → t.0 ≡ false
    → rest ≡ ok t
unfolding try_add
try_add-false (stop e) s rest t run gave_up = cc
try_add-false (ok none) s rest t run gave_up = run
try_add-false (ok (some a)) s rest t run gave_up =
    let told : true ≡ t.0 = ap (λ u. u.0) (ok-injective run) in cc

pub as_unsigned_lem : (f n : ℕ) → n ≤ 32 → f < 2 ^ n → f % 2 ^ 32 ≡ f
as_unsigned_lem f n h g =
    mod-eq_of_lt (omega (arith, pow-le-pow_right {n = 2} (omega arith) {i = n} {j = 32} h))

pub step_Changed :
    (a b : Compact2dBitArray) (i j f : ℕ)
    → IsValid a
    → f < 2 ^ a.f_size
    → set_entry true a i j (f % 2 ^ 32) ≡ ok b
    → Changed a b i j f
step_Changed a b i j f valid h run =
    set_entry-Changed a b i j f valid h
      (sym (ap (set_entry true a i j) (as_unsigned_lem f a.f_size valid.few_bits h)) ∙ run)

module _ (p : Platform) {S : Type 0} (draw : ℕ → ℕ → S → ℕ × S) (c : Cuckoo) where
  -- The slots on the stack restore the filter that the loop started with.
  kick_loop_restores :
      (n : ℕ) (filter original : Compact2dBitArray) (chosen f : ℕ) (slots : List Slot) (s : S)
      (t : Bool × Compact2dBitArray × S)
      → IsValid filter
      → f < 2 ^ filter.f_size
      → restore_filter true slots filter ≡ ok original
      → kick_loop true p draw c n filter chosen f slots s ≡ ok t
      → t.0 ≡ false
      → t.1 ≡ original
  unfolding kick_loop restore_filter
  kick_loop_restores zero filter original chosen f slots s t valid h back run gave_up =
      let (a, ends, restored) = >>=-eq-ok (restore_filter true slots filter) _ run in
      sym (ap (λ u. u.1) (ok-injective ends)) ∙ ok-injective (sym restored ∙ back)
  kick_loop_restores (suc n) filter original chosen f slots s t valid h back run gave_up =
      let idx = (draw 0 (size_minus c.bucket_size 1) s).0 in
      let (victim, run1, read) = >>=-eq-ok (get_entry filter chosen idx) _ run in
      let (alt, run2, found) = >>=-eq-ok (alternative_bucket p c chosen victim) _ run1 in
      let (filter', run3, wrote) =
        >>=-eq-ok (set_entry true filter chosen idx (f % 2 ^ 32)) _ run2 in
      let changed = step_Changed filter filter' chosen idx f valid h wrote in
      let small = read-lt filter chosen idx victim valid read in
      let undo : set_entry true filter' chosen idx (victim % 2 ^ 32) ≡ ok filter =
        ap (set_entry true filter' chosen idx)
          (as_unsigned_lem victim filter.f_size valid.few_bits small)
        ∙ changed.back victim read in
      kick_loop_restores n filter' original alt victim _ _ t changed.valid (rw changed.bits small)
        (rw undo back) (try_add-false (add_to_bucket true c filter' alt victim) _ _ t run3 gave_up)
        gave_up

  place_restores :
      (h : PartialHash) (s : S) (t : Bool × Compact2dBitArray × S)
      → IsValid c.filter
      → h.f < 2 ^ c.filter.f_size
      → place true p draw c h s ≡ ok t
      → t.0 ≡ false
      → t.1 ≡ c.filter
  unfolding place restore_filter
  place_restores h s t valid small placed gave_up =
      let run2 = try_add-false (add_to_bucket true c c.filter h.i1 h.f) s _ t placed gave_up in
      let run3 = try_add-false (add_to_bucket true c c.filter h.i2 h.f) s _ t run2 gave_up in
      kick_loop_restores c.max_kicks c.filter c.filter _ h.f [] _ t valid small refl run3 gave_up

  -- An insertion that answers false leaves the filter as it was, byte for byte, and so the count: the
  -- fingerprints that were kicked out are put back. The filter's array is valid, fingerprints have at
  -- most `f_size` bits, and the byte order is little endian.
  pub insert_gives_up :
      (x : ℕ) (s s' : S) (c' : Cuckoo)
      → IsValid c.filter
      → FingerprintsFit c
      → insert true p draw c x s ≡ ok (false, c', s')
      → c' ≡ c
  unfolding insert
  insert_gives_up x s s' c' valid fit run =
      let (h, run1, hashed) = >>=-eq-ok (p_hash p c x) _ run in
      let (t, ends, placed) = >>=-eq-ok (place true p draw c h s) _ run1 in
      let gave_up : t.0 ≡ false = ap (λ u. u.0) (ok-injective ends) in
      let small = fit x h.f (p_hash-Hashed p c x h hashed).found in
      let same = place_restores h s t valid small placed gave_up in
      let told : record c { filter = t.1; items_count = c.items_count + (if t.0 then 1 else 0) }
          ≡ c' =
        ap (λ u. u.1) (ok-injective ends) in
      let count : c.items_count + (if t.0 then 1 else 0) ≡ c.items_count =
        ap (λ b. c.items_count + (if b then 1 else 0)) gave_up ∙ plus_zero c.items_count in
      sym told ∙ ap₂ (λ a n. record c { filter = a; items_count = n }) same count
    where
      plus_zero : (n : ℕ) → n + 0 ≡ n
      plus_zero n = omega arith
