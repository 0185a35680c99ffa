-- ===== src/BitArray/NextByte.antt =====
-- The bytes of a fingerprint that `_getNextFByte` hands out.
use gensync_core.Prelude.{
  ℕ, zero, suc, ◌+◌, ◌-◌, ◌*◌, ◌/◌, ◌%◌, ◌^◌, ◌≤◌, ◌<◌, ◌≡◌, refl, sym, ap, ◌∙◌, bit_or, arith,
  length, ◌==◌, ltb, true, ◌⊎◌, inl, inr, false, if◌then◌else◌,
}
use native.Mathlib.Nat.{mod-lt, div-one}
use gensync_core.Prelude.Powers.{pow-pos, div-pow, slice, slice-div, slice-mod, shift_cut}
use gensync_core.Prelude.Fields.{bit_or-shifted}
use gensync_core.Prelude.Outcome.{ok, at_index, load_at}
use gensync_core.BitArray.{
  bytes_down, ms_byte_idx, joined_byte, byte_of_rest, next_f_byte, size_minus,
}

pub size_minus_lem : (a b : ℕ) → b ≤ a → a < 2 ^ 64 → size_minus a b ≡ a - b
size_minus_lem a b g h = omega arith

pub length-bytes_down : (v k : ℕ) → length (bytes_down v k) ≡ k
length-bytes_down v zero = refl
length-bytes_down v (suc k) = ap suc (length-bytes_down v k)

-- Byte `m` from the front of `m` + 1 + `j`.
at_index-bytes_down :
    (v k m j : ℕ) → k ≡ m + suc j → at_index (bytes_down v k) m ≡ ok (v / 2 ^ (8 * j) % 256)
unfolding at_index
at_index-bytes_down v zero m j e = absurd (omega arith)
at_index-bytes_down v (suc k) zero j e =
    let same : k ≡ j = omega arith in ap (λ (t : ℕ). ok (v / 2 ^ (8 * t) % 256)) same
at_index-bytes_down v (suc k) (suc m) j e = at_index-bytes_down v k m j (omega arith)

-- The part of two neighbouring bytes that starts `m` bits before their border.
module _ (u l m : ℕ) (e : l + m ≡ 8) where
  up : 2 ^ (l + m) ≡ 256
  up = ap (λ (t : ℕ). 2 ^ t) e

  down : 2 ^ (m + l) ≡ 256
  down = let flip : m + l ≡ 8 = omega arith in ap (λ (t : ℕ). 2 ^ t) flip

  high : u / 256 % 256 * 2 ^ m % 256 ≡ u / 256 % 2 ^ l * 2 ^ m
  high =
      sym (ap (λ (t : ℕ). u / 256 % 256 * 2 ^ m % t) up)
      ∙ shift_cut (u / 256 % 256) l m
      ∙ sym (ap (λ (t : ℕ). u / 256 % t % 2 ^ l * 2 ^ m) down)
      ∙ ap (λ (t : ℕ). t * 2 ^ m) (slice-mod (u / 256) l m)

  low : u % 256 / 2 ^ l ≡ u / 2 ^ l % 2 ^ m
  low = sym (ap (λ (t : ℕ). u % t / 2 ^ l) down) ∙ slice-div u l m

  both : u / 2 ^ l % 256 ≡ u / 256 % 2 ^ l * 2 ^ m + u / 2 ^ l % 2 ^ m
  both =
      sym (ap (λ (t : ℕ). u / 2 ^ l % t) up)
      ∙ slice (u / 2 ^ l) m l
      ∙ ap (λ (t : ℕ). t % 2 ^ l * 2 ^ m + u / 2 ^ l % 2 ^ m)
          (sym (div-pow u l m) ∙ ap (λ (t : ℕ). u / t) up)

  joined_bytes : bit_or (u / 256 % 256 * 2 ^ m % 256) (u % 256 / 2 ^ l) ≡ u / 2 ^ l % 256
  joined_bytes =
      rw (high, low)
        (bit_or-shifted m (u / 256 % 2 ^ l) (u / 2 ^ l % 2 ^ m) (mod-lt (u / 2 ^ l) (pow-pos m))
          ∙ sym both)

module _ (v k : ℕ) (small : k < 5) where
  -- Byte `t` of the fingerprint, counted from the low end.
  ms_byte_idx_lem :
      (r m : ℕ) → k ≡ m + r / 8 + (if r % 8 == 0 then 0 else 1) → ms_byte_idx (bytes_down v k) r ≡ m
  unfolding ms_byte_idx
  ms_byte_idx_lem r m e = rw (length-bytes_down v k) (ground arith)

  zero_test : (r : ℕ) → 0 < r → (r == 0) ≡ false
  zero_test r h = ground arith

  one_test : (r : ℕ) → r % 8 ≡ 0 → (r % 8 == 0) ≡ true
  one_test r h = ground arith

  short_test : (r : ℕ) → 8 ≤ r → ltb r 8 ≡ false
  short_test r h = ground arith

  whole_byte :
      (t m : ℕ)
      → k ≡ m + suc t
      → byte_of_rest (bytes_down v k) (8 * t + 8) ≡ ok (v / 2 ^ (8 * t) % 256)
  unfolding byte_of_rest
  whole_byte t m e = rw (
    ms_byte_idx_lem (8 * t + 8) m (ground arith),
    zero_test (8 * t + 8) (omega arith),
    short_test (8 * t + 8) (omega arith),
    one_test (8 * t + 8) (omega arith),
    at_index-bytes_down v k m t e,
  )

  split_byte :
      (t l m : ℕ)
      → 0 < l
      → l < 8
      → k ≡ m + suc (suc t)
      → byte_of_rest (bytes_down v k) (8 * t + l + 8) ≡ ok (v / 2 ^ (8 * t + l) % 256)
  unfolding byte_of_rest joined_byte
  split_byte t l m g h e =
      let rest : (8 * t + l + 8) % 8 ≡ l = omega arith in
      let eight : 8 * suc t ≡ 8 * t + 8 = omega arith in
      let above : v / 2 ^ (8 * suc t) ≡ v / 2 ^ (8 * t) / 256 =
        ap (λ (a : ℕ). v / 2 ^ a) eight ∙ div-pow v (8 * t) 8 in
      rw
        (
          ms_byte_idx_lem (8 * t + l + 8) m (ground arith),
          zero_test (8 * t + l + 8) (omega arith),
          short_test (8 * t + l + 8) (omega arith),
          rest,
          zero_test l g,
          at_index-bytes_down v k m (suc t) e,
          at_index-bytes_down v k (m + 1) t (omega arith),
          above,
          div-pow v (8 * t) l,
        )
        (ap ok (joined_bytes (v / 2 ^ (8 * t)) l (8 - l) (omega arith)))

-- A fingerprint of `f_size` bits is in `k` bytes, at most four.
module _ (v f_size k : ℕ) (fits : f_size ≤ 8 * k) (needed : 8 * k < f_size + 8)
    (small : k < 5) where
  -- The next eight bits, where so many are left.
  pub next_f_byte_lem :
      (c r : ℕ)
      → f_size ≡ c + (r + 8)
      → next_f_byte f_size (bytes_down v k) c ≡ ok (v / 2 ^ r % 256)
  unfolding next_f_byte
  next_f_byte_lem c r e =
      let d : size_minus f_size c ≡ 8 * (r / 8) + r % 8 + 8 = omega arith in
      let back : 8 * (r / 8) + r % 8 ≡ r = omega arith in
      rw d (elim (zero_or_pos (r % 8)) [
        | inl z ↦
            let even : 8 * (r / 8) + r % 8 ≡ 8 * (r / 8) = omega arith in
            let same : 8 * (r / 8) ≡ r = omega arith in
            rw even (
              whole_byte v k small (r / 8) (k - suc (r / 8)) (omega arith)
              ∙ ap (λ (a : ℕ). ok (v / 2 ^ a % 256)) same)
        | inr p ↦
            split_byte v k small (r / 8) (r % 8) (k - suc (suc (r / 8))) p (omega arith)
              (omega arith)
            ∙ ap (λ (a : ℕ). ok (v / 2 ^ a % 256)) back
      ])
    where
      zero_or_pos : (a : ℕ) → (a ≡ 0) ⊎ (0 < a)
      zero_or_pos a = ground arith

  -- Fewer than eight bits in all are moved up.
  pub next_f_byte_short :
      f_size < 8
      → 0 < f_size
      → next_f_byte f_size (bytes_down v k) 0 ≡ ok (v % 256 * 2 ^ (8 - f_size) % 256)
  unfolding next_f_byte byte_of_rest load_at
  next_f_byte_short h g =
      let d : size_minus f_size 0 ≡ f_size = omega arith in
      let one : k ≡ 1 = omega arith in
      let below : ltb f_size 8 ≡ true = ground arith in
      rw (d, one, zero_test v k small f_size g, below)
        (ap (λ (t : ℕ). ok (t % 256 * 2 ^ (8 - f_size) % 256)) (div-one v))

-- The last byte of the fingerprint.
load_at-bytes_down : (v j : ℕ) → load_at (bytes_down v (suc j)) j ≡ ok (v % 256)
unfolding load_at
load_at-bytes_down v zero = ap (λ (t : ℕ). ok (t % 256)) (div-one v)
load_at-bytes_down v (suc j) = load_at-bytes_down v j

pub back_byte :
    (v k : ℕ) → 0 < k → load_at (bytes_down v k) (length (bytes_down v k) - 1) ≡ ok (v % 256)
back_byte v zero h = absurd (omega arith)
back_byte v (suc k) h =
    let e : length (bytes_down v (suc k)) - 1 ≡ k = omega (arith, length-bytes_down v (suc k)) in
    rw e (load_at-bytes_down v k)
