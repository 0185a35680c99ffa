-- ===== src/BitArray/New.antt =====
-- What the constructor for a shape gives.
use gensync_core.Prelude.{
  ℕ, zero, suc, ◌+◌, ◌*◌, ◌/◌, ◌%◌, ◌^◌, ◌≤◌, ◌<◌, ◌≡◌, refl, ap, ◌∙◌, arith, true, false, Bool,
  Bool-cases, ◌&&◌, replicate, length-replicate, ltb, leb, ◌⊎◌, inl, inr, List,
}
use native.Mathlib.Nat.{zero-div, zero-mod}
use gensync_core.Prelude.Outcome.{ok, ◌>>=◌, ◌>>◌, stop, throws, unless_stops}
use gensync_core.Ntl.{AreBytes}
use gensync_core.BitArray.{
  Compact2dBitArray, get_entry, new, from_raw, byte_count, to_float, exponent, round_at,
  narrow_short, constructor_guards,
}
use gensync_core.BitArray.Values.{be_value, field}
use gensync_core.BitArray.Place.{IsValid, bits_after}
use gensync_core.BitArray.Whole.{get_entry_lem}
use gensync_core.BitArray.Table.{Represents}

-- Below 2 ^ 24 a `float` is exact.
exponent-small : (n : ℕ) → n < 2 ^ 24 → exponent 64 0 n ≡ 0
unfolding exponent
exponent-small n h = let test : ltb (n / 1) (2 ^ 24) ≡ true = ground arith in rw test

to_float-small : (n : ℕ) → n < 2 ^ 24 → to_float n ≡ n
unfolding to_float round_at
to_float-small n h = rw (exponent-small n h) (ground arith)

byte_count-small : (n : ℕ) → n < 2 ^ 24 → byte_count n ≡ (n + 7) / 8
unfolding byte_count
byte_count-small n h = rw (to_float-small n h)

replicate-AreBytes : (n : ℕ) → AreBytes (replicate n 0)
replicate-AreBytes zero = tt
replicate-AreBytes (suc n) = (omega arith, replicate-AreBytes n)

be_value-replicate : (n : ℕ) → be_value (replicate n 0) ≡ 0
be_value-replicate zero = refl
be_value-replicate (suc n) = omega (arith, be_value-replicate n)

-- The empty array of a shape, where every entry is 0.
module _ (f b n : ℕ) (some_bits : 0 < f) (few_bits : f ≤ 32) (columns : 0 < b) (rows : 0 < n)
    (size : f * b * n < 2 ^ 24) where
  abbrev blank : Compact2dBitArray
  blank = record {
    store = replicate ((f * b * n + 7) / 8) 0;
    f_size = f;
    f_size_b = (f + 7) / 8;
    b_size = b;
    n_buckets = n;
  }

  new-blank : new f b n ≡ ok blank
  unfolding new narrow_short constructor_guards
  new-blank =
      let bits : f * b * n % 2 ^ 64 ≡ f * b * n = omega arith in
      let short : ltb ((f + 7) / 8) (2 ^ 16) ≡ true = ground arith in
      let t1 : ltb 0 f ≡ true = ground arith in
      let t2 : leb f 32 ≡ true = ground arith in
      let t3 : ltb 0 b ≡ true = ground arith in
      let t4 : ltb 0 n ≡ true = ground arith in
      rw (
        byte_count-small f (omega arith),
        short,
        t1,
        t2,
        t3,
        t4,
        bits,
        byte_count-small (f * b * n) size,
      )

  blank-IsValid : IsValid blank
  blank-IsValid = record {
    some_bits = some_bits;
    few_bits = few_bits;
    f_bytes_fit = omega arith;
    f_bytes_needed = omega arith;
    no_wrap = omega arith;
    room = omega (arith, length-replicate {A = ℕ} ((f * b * n + 7) / 8) 0);
    bytes = replicate-AreBytes ((f * b * n + 7) / 8);
  }

  -- For a shape that the constructor's checks admit and of fewer than 2 ^ 24 bits, the constructor
  -- ends well and every entry is 0.
  pub new-Represents :
      (a : Compact2dBitArray) × (new f b n ≡ ok a)
      × (a.f_size ≡ f)
      × (a.b_size ≡ b)
      × (a.n_buckets ≡ n)
      × Represents a (λ i j. 0)
  new-Represents = (
    blank,
    new-blank,
    refl,
    refl,
    refl,
    record {
      valid = blank-IsValid;
      reads = λ i j r c.
          get_entry_lem blank i j blank-IsValid r c
          ∙ ap (λ m. ok (field m (bits_after blank i j) f))
              (be_value-replicate ((f * b * n + 7) / 8))
          ∙ ap ok (zero_field (2 ^ bits_after blank i j) (2 ^ f));
    },
  )
    where
      zero_field : (p q : ℕ) → 0 / p % q ≡ 0
      zero_field p q = ap (λ (m : ℕ). m % q) (zero-div p) ∙ zero-mod q

  -- In the array that the constructor gives for a shape that it admits, of fewer than 2 ^ 24 bits,
  -- every entry reads as 0.
  pub get_entry-new : (i j : ℕ) → i < n → j < b → (new f b n >>= λ a. get_entry a i j) ≡ ok 0
  get_entry-new i j r c =
      let (a, run, e, d, g, after) = new-Represents in rw run (after.reads i j (rw g r) (rw d c))

-- An array of a shape that the constructors admit, from its bytes.
pub from_raw_shape :
    (f b n : ℕ) (st : List ℕ)
    → 0 < f
    → f ≤ 32
    → 0 < b
    → 0 < n
    → from_raw f b n st
      ≡ ok (record { store = st; f_size = f; f_size_b = (f + 7) / 8; b_size = b; n_buckets = n })
unfolding from_raw narrow_short constructor_guards
from_raw_shape f b n st some_bits few_bits columns rows =
    let short : ltb ((f + 7) / 8) (2 ^ 16) ≡ true = ground arith in
    let t1 : ltb 0 f ≡ true = ground arith in
    let t2 : leb f 32 ≡ true = ground arith in
    let t3 : ltb 0 b ≡ true = ground arith in
    let t4 : ltb 0 n ≡ true = ground arith in
    rw (byte_count-small f (omega arith), short, t1, t2, t3, t4)

-- The shapes that the constructors reject.
module _ (f b n : ℕ) (bad : ((f ≡ 0) ⊎ (32 < f)) ⊎ ((b ≡ 0) ⊎ (n ≡ 0))) where
  guards_reject : constructor_guards f b n ≡ stop throws
  unfolding constructor_guards
  guards_reject = elim bad [
    | inl (inl e) ↦ let t : ltb 0 f ≡ false = ground arith in rw t
    | inl (inr h) ↦
        let t : ltb 0 f ≡ true = ground arith in
        let u : leb f 32 ≡ false = ground arith in rw (t, u)
    | inr (inl e) ↦ guard_first (ltb 0 f && leb f 32) (ltb 0 b) (ltb 0 n) (inl (ground arith))
    | inr (inr e) ↦ guard_first (ltb 0 f && leb f 32) (ltb 0 b) (ltb 0 n) (inr (ground arith))
  ]
    where
      guard_first :
          (p q r : Bool)
          → (q ≡ false) ⊎ (r ≡ false)
          → (unless_stops p throws >> (unless_stops q throws >> unless_stops r throws))
            ≡ stop throws
      guard_first false q r h = refl
      guard_first true false r h = refl
      guard_first true true false h = refl
      guard_first true true true (inl e) = cc
      guard_first true true true (inr e) = cc

  after_narrow :
      {A : Type 0} (m : ℕ) (make : ℕ → A)
      → (narrow_short m >>= λ k. constructor_guards f b n >>= λ u. ok (make k)) ≡ stop throws
  unfolding narrow_short
  after_narrow m make = elim (Bool-cases (ltb m (2 ^ 16))) [
    | inl e ↦ rw (e, guards_reject)
    | inr e ↦ rw e
  ]

  -- An entry of no bits or of more than 32, no columns, or no rows: both constructors throw.
  pub new_rejects : (st : List ℕ) → (new f b n ≡ stop throws) × (from_raw f b n st ≡ stop throws)
  unfolding new from_raw
  new_rejects st = (after_narrow (byte_count f) _, after_narrow (byte_count f) _)
