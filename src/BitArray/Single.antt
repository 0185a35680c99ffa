-- ===== src/BitArray/Single.antt =====
-- Entries in one byte.
use gensync_core.Prelude.{
  ℕ, ◌+◌, ◌-◌, ◌*◌, ◌/◌, ◌%◌, ◌^◌, ◌<◌, ◌≡◌, sym, ap, ◌∙◌, List, ◌∷◌, ◌++◌, length, arith, bit_or,
  leb, true,
}
use native.Mathlib.Nat.{mod-lt, mod-eq_of_lt, mul_assoc, add-mul, div-one}
use gensync_core.Prelude.Fields.{bit_or-shifted}
use gensync_core.Prelude.Powers.{pow-plus, pow-pos, div-pow-lt, join-lt}
use gensync_core.Prelude.Outcome.{ok}
use gensync_core.BitArray.{get_single, set_single, memory_byte, GetSetPrelim}
use gensync_core.BitArray.Values.{field, splice, splice-low-lt}
use gensync_core.BitArray.Window.{load_at-append, store_at-append}

-- An entry of `f` bits in byte `x` of a vector, with `t` bits of the byte after it.
module _ (pre post : List ℕ) (x : ℕ) (p : GetSetPrelim) (t f : ℕ) (byte : x < 2 ^ 8)
    (place : p.fst_byte ≡ length pre) (whole : p.onset_bits + (f + t) ≡ 8) where
  pub get_single_lem : get_single (pre ++ x ∷ post) p f ≡ ok (field x t f)
  unfolding get_single
  get_single_lem =
      let test : leb (p.onset_bits + f) 8 ≡ true = ground arith in
      let left : 8 - p.onset_bits - f ≡ t = omega arith in
      rw (test, load_at-append x post pre p.fst_byte place, left)

  module _ (v : ℕ) (v-lt : v < 2 ^ f) where
    pub single-lt : splice x t f v < 2 ^ 8
    single-lt =
        let turned : f + t + p.onset_bits ≡ 8 = omega arith in
        below
          (join-lt (x / 2 ^ (f + t)) (v * 2 ^ t + x % 2 ^ t) (f + t) (splice-low-lt x t f v v-lt)
            p.onset_bits (div-pow-lt x (f + t) p.onset_bits (rw turned byte)))
          whole
      where
        below : {n a b : ℕ} → n < 2 ^ a → a ≡ b → n < 2 ^ b
        below h e = rw (sym e) h

    joined :
        bit_or (bit_or (x / 2 ^ (f + t) * 2 ^ (f + t) % 256) (v * 2 ^ t) % 256) (x % 2 ^ t)
        ≡ splice x t f v
    joined =
        let q = x / 2 ^ (f + t) in
        let small = single-lt in
        let room : v * 2 ^ t < 2 ^ (f + t) = omega (arith, splice-low-lt x t f v v-lt) in
        let onset : q * 2 ^ (f + t) % 256 ≡ q * 2 ^ (f + t) = mod-eq_of_lt (omega arith) in
        let two : (q * 2 ^ (f + t) + v * 2 ^ t) % 256 ≡ q * 2 ^ (f + t) + v * 2 ^ t =
          mod-eq_of_lt (omega arith) in
        let grouped : q * 2 ^ (f + t) + v * 2 ^ t ≡ (q * 2 ^ f + v) * 2 ^ t = omega (
          arith,
          add-mul (q * 2 ^ f) v (2 ^ t),
          mul_assoc q (2 ^ f) (2 ^ t),
          ap (λ (b : ℕ). q * b) (pow-plus f t),
        ) in
        rw (onset, bit_or-shifted (f + t) q (v * 2 ^ t) room, two, grouped)
          (bit_or-shifted t (q * 2 ^ f + v) (x % 2 ^ t) (mod-lt x (pow-pos t))
            ∙ omega (arith, grouped))

    pub set_single_lem :
        v < 256
        → set_single (pre ++ x ∷ post) p f (memory_byte true v 0)
          ≡ ok (pre ++ splice x t f v ∷ post)
    unfolding set_single
    set_single_lem h =
        let kept : 8 - p.onset_bits ≡ f + t = omega arith in
        let left : f + t - f ≡ t = omega arith in
        let c : v / 2 ^ 0 % 256 ≡ v = ap (λ (b : ℕ). b % 256) (div-one v) ∙ mod-eq_of_lt h in
        rw (load_at-append x post pre p.fst_byte place, kept, left, c, joined)
          (store_at-append x post (splice x t f v) pre p.fst_byte place)
