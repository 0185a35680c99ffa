-- ===== src/Bloom/Transfer.antt =====
-- A filter as an integer and back: `toZZ` and `ZZtoBF`.
use gensync_core.Prelude.{
  ℕ, ◌+◌, ◌*◌, ◌%◌, ◌^◌, ◌≤◌, ◌<◌, ◌≡◌, refl, sym, ap, ap₂, ◌∙◌, Bool, true, false, List, [], ◌∷◌,
  ◌++◌, length, drop, replicate, length-append, length-replicate, length-drop, length-reverse,
  arith, inl, inr, ◌≢◌,
}
use native.Mathlib.Nat.{pow-le-pow_right, mod-eq_of_lt}
use mathlib.Core.List.{reverse, reverse-cons, reverse-reverse}
use gensync_core.Prelude.Outcome.{ok, stop, undefined}
use gensync_core.Prelude.Int.{pos}
use gensync_core.Ntl.{Ntl}
use gensync_core.Bloom.{BloomFilter, bytes_needed, unpack_loop, to_zz, zz_to_bf}
use gensync_core.Bloom.Bits.{val_bits, val_bits-lt, val_bits-injective, val_bits-append}
use gensync_core.Bloom.Pack.{bytes_loop-val, bytes_loop-AreBytes, needed}
use gensync_core.Bloom.Unpack.{
  all_bits, all_bits-val, unpack_loop_lem, le_or_lt, unpack_loop_past, bytes_pow,
  val_bits-drop-replicate,
}

module _ (ntl : Ntl) where
  -- `toZZ` reads the filter's bits as binary digits, the last bit lowest.
  pub to_zz-val : (f : BloomFilter) → to_zz ntl f ≡ val_bits (reverse f.bits)
  unfolding to_zz
  to_zz-val f =
      let n = bytes_needed (length f.bits) in
      ntl.zz_from_bytes_lem _ (bytes_loop-AreBytes n (reverse f.bits))
      ∙ bytes_loop-val n (reverse f.bits)
          (needed (length f.bits) (length (reverse f.bits)) (length-reverse f.bits))

  -- The bytes that `ZZtoBF` unpacks hold the number, and are no more than it needs.
  unpacked :
      (v n : ℕ)
      → (8 * ntl.num_bytes (pos v) ≤ n)
      → (bits : List Bool) × (unpack_loop 0
            (ntl.bytes_from_zz (pos v) (ntl.num_bytes (pos v)))
            (replicate n false)
          ≡ ok bits)
        × (length bits ≡ n)
        × (val_bits bits ≡ v)
  unpacked v n h =
      let count = ntl.num_bytes (pos v) in
      let bytes = ntl.bytes_from_zz (pos v) count in
      let (val, len) = all_bits-val bytes (ntl.bytes_from_zz-AreBytes (pos v) count) in
      let rest = drop (8 * length bytes) (replicate n false) in
      let few = ntl.length-bytes_from_zz (pos v) count in
      let room = length-replicate n false in
      (
        all_bits bytes ++ rest,
        unpack_loop_lem 0 bytes [] (replicate n false) refl (omega arith),
        omega (
          arith,
          length-append (all_bits bytes) rest,
          length-drop (8 * length bytes) (replicate n false),
        ),
        val_bits-append (all_bits bytes) rest
            ∙ ap₂ (λ (s t : ℕ). s + 2 ^ length (all_bits bytes) * t) val
                (val_bits-drop-replicate (8 * length bytes) n)
            ∙ omega (
              arith,
              ntl.le_value-bytes_from_zz (pos v) count,
              mod-eq_of_lt (ntl.fits-num_bytes (pos v)),
            ),
      )

  pub num_bytes-to_zz :
      (m : ℕ) (f : BloomFilter) → length f.bits ≡ 8 * m → ntl.num_bytes (pos (to_zz ntl f)) ≤ m
  num_bytes-to_zz m f e =
      let low = reverse f.bits in
      let len = length-reverse f.bits in
      let v = to_zz ntl f in
      let bound : v < 256 ^ m = rw (to_zz-val f, bytes_pow m, sym (len ∙ e)) (val_bits-lt low) in
      ntl.num_bytes_least (pos v) m bound

  -- A filter whose size is a multiple of 8 survives the way over an integer.
  pub zz_to_bf-to_zz :
      (m : ℕ) (f : BloomFilter) → length f.bits ≡ 8 * m → zz_to_bf ntl f (to_zz ntl f) ≡ ok f
  unfolding zz_to_bf
  zz_to_bf-to_zz m f e =
      let low = reverse f.bits in
      let v = to_zz ntl f in
      let val = to_zz-val f in
      let len = length-reverse f.bits in
      let few = num_bytes-to_zz m f e in
      let (bits, run, size, back) = unpacked v (length f.bits) (omega arith) in
      let same = val_bits-injective bits low (size ∙ sym len) (back ∙ val) in
      rw (run, same, reverse-reverse f.bits) refl

  -- If the size is not a multiple of 8 and the filter's first bit is set, then `ZZtoBF` writes past
  -- the end of its vector.
  pub zz_to_bf-to_zz_past :
      (f : BloomFilter) (bs : List Bool)
      → f.bits ≡ true ∷ bs
      → length f.bits % 8 ≢ 0
      → zz_to_bf ntl f (to_zz ntl f) ≡ stop undefined
  unfolding zz_to_bf
  zz_to_bf-to_zz_past f bs e odd =
      let v = to_zz ntl f in
      let count = ntl.num_bytes (pos v) in
      let bytes = ntl.bytes_from_zz (pos v) count in
      let zeros = replicate (length f.bits) false in
      let room = length-replicate (length f.bits) false in
      let size = ap length e in
      let large : 2 ^ length bs ≤ v =
        rw (to_zz-val f, e, reverse-cons true bs)
          (omega (
            arith,
            val_bits-append (reverse bs) (true ∷ []),
            ap (λ (t : ℕ). 2 ^ t * 1) (length-reverse bs),
          )) in
      let many : length bs < 8 * count = elim (le_or_lt (8 * count) (length bs)) [
        | inl few ↦ absurd (
            omega (
              arith,
              ntl.fits-num_bytes (pos v),
              bytes_pow count,
              pow-le-pow_right {n = 2} (omega arith) few,
            ))
        | inr h ↦ h
      ] in
      let long : length f.bits < 8 * count =
        below_multiple (length f.bits) count odd (omega arith) in
      let over =
        unpack_loop_past 0 bytes zeros (omega arith)
          (omega (arith, ntl.length-bytes_from_zz (pos v) count)) in
      rw over refl
    where
      below_multiple : (n c : ℕ) → n % 8 ≢ 0 → n ≤ 8 * c → n < 8 * c
      below_multiple n c h g = omega arith
