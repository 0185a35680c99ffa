-- ===== src/BitArray/Spread.antt =====
-- Entries in more than one byte: `get_spread` reads and `set_spread` writes one field of the number
-- of these bytes.
use gensync_core.Prelude.{
  ℕ, suc, ◌+◌, ◌-◌, ◌*◌, ◌/◌, ◌%◌, ◌^◌, ◌≤◌, ◌<◌, ◌≡◌, refl, sym, ap, ◌∙◌, List, [], ◌∷◌, ◌++◌,
  length, length-append, arith, bit_or, ◌==◌, false, if◌then◌else◌, ◌⊎◌, inl, inr,
}
use mathlib.Core.List.{append_assoc}
use native.Mathlib.Nat.{
  pow-le-pow_right, mod-lt, mod-eq_of_lt, le-mul_of_pos_right, div-mul-le_self,
}
use gensync_core.Prelude.Fields.{bit_or-shifted, bit_or_comm}
use gensync_core.Prelude.Powers.{
  pow-pos, div-pow, div-pow-lt, slice-mod, join-div-plus, join-lt, shift_cut,
}
use gensync_core.Prelude.Outcome.{ok, load_at, store_at}
use gensync_core.Ntl.{AreBytes}
use gensync_core.BitArray.{
  get_middle, get_spread, bytes_down, set_middle, set_spread, next_f_byte, GetSetPrelim,
}
use gensync_core.BitArray.Values.{be_value, be_value-lt, AreBytes-append, field, splice}
use gensync_core.BitArray.WindowValue.{
  window, window_value, be_value-window, field-window, splice-window,
}
use gensync_core.BitArray.NextByte.{next_f_byte_lem, next_f_byte_short, back_byte}
use gensync_core.BitArray.Window.{
  load_at-append, store_at-append, get_middle_lem, set_middle_lem, middle_bytes,
  length-middle_bytes, middle_bytes-AreBytes, be_value-middle_bytes,
}

le_or_lt : (a b : ℕ) → (a ≤ b) ⊎ (b < a)
le_or_lt a b = ground arith

below : {n a b : ℕ} → n < 2 ^ a → a ≡ b → n < 2 ^ b
below h e = rw (sym e) h

-- An entry of `f` bits in the bytes `x`, `ms` and `y` of a vector: `h` bits of it are in the first
-- byte and `s` in the last, and `t` bits of the last byte are after it.
module _ (pre ms post : List ℕ) (x y : ℕ) (p : GetSetPrelim) (h s t f : ℕ) (first : x < 2 ^ 8)
    (inside : AreBytes ms) (last : y < 2 ^ 8) (whole : s + t ≡ 8) (some_last : 0 < s)
    (some_first : 0 < h) (size : f ≡ h + (8 * length ms + s)) (small : f ≤ 32)
    (at_first : p.fst_byte ≡ length pre) (at_last : p.lst_byte ≡ length pre + (1 + length ms))
    (onset : p.onset_bits + h ≡ 8) (offset : p.offset_bits ≡ s % 8) where
  skip_first : (b : ℕ) (zs : List ℕ) → pre ++ b ∷ zs ≡ (pre ++ b ∷ []) ++ zs
  skip_first b zs = sym (append_assoc pre (b ∷ []) zs)

  skip_inside : (b : ℕ) (ns zs : List ℕ) → pre ++ b ∷ (ns ++ zs) ≡ ((pre ++ b ∷ []) ++ ns) ++ zs
  skip_inside b ns zs = skip_first b (ns ++ zs) ∙ sym (append_assoc (pre ++ b ∷ []) ns zs)

  last_place :
      (b : ℕ) (ns : List ℕ) → length ns ≡ length ms → p.lst_byte ≡ length ((pre ++ b ∷ []) ++ ns)
  last_place b ns e = omega (arith, length-append (pre ++ b ∷ []) ns, length-append pre (b ∷ []))

  load_last :
      (b : ℕ) (ns : List ℕ)
      → length ns ≡ length ms
      → load_at (pre ++ b ∷ (ns ++ y ∷ post)) p.lst_byte ≡ ok y
  load_last b ns e =
      ap (λ l. load_at l p.lst_byte) (skip_inside b ns (y ∷ post))
      ∙ load_at-append y post ((pre ++ b ∷ []) ++ ns) p.lst_byte (last_place b ns e)

  store_last :
      (b v : ℕ) (ns : List ℕ)
      → length ns ≡ length ms
      → store_at (pre ++ b ∷ (ns ++ y ∷ post)) p.lst_byte v ≡ ok (pre ++ b ∷ (ns ++ v ∷ post))
  store_last b v ns e =
      ap (λ l. store_at l p.lst_byte v) (skip_inside b ns (y ∷ post))
      ∙ store_at-append y post v ((pre ++ b ∷ []) ++ ns) p.lst_byte (last_place b ns e)
      ∙ ap ok (sym (skip_inside b ns (v ∷ post)))

  shift_cases : ((s ≡ 8) × (t ≡ 0) × (p.offset_bits ≡ 0)) ⊎ ((s < 8) × (p.offset_bits ≡ s))
  shift_cases = ground arith

  shift_eq : (if p.offset_bits == 0 then 8 else p.offset_bits) ≡ s
  shift_eq = ground arith

  tail_eq : (8 - p.offset_bits) % 8 ≡ t
  tail_eq = ground arith

  inside-lt : be_value ms < 2 ^ (8 * length ms)
  inside-lt = be_value-lt ms inside

  -- What the loop of `getEntry` gives.
  abbrev entry : ℕ
  entry = x % 2 ^ h * 2 ^ (8 * length ms) + be_value ms

  entry_eq : field (be_value (window x ms y)) t f ≡ entry * 2 ^ s + y / 2 ^ t
  entry_eq =
      ap (λ (k : ℕ). field k t f) (be_value-window x y ms)
      ∙ field-window (length ms) h s t f x (be_value ms) y last inside-lt whole size

  shifted-lt : entry * 2 ^ s < 2 ^ 32
  shifted-lt = omega (
    arith,
    entry_eq,
    mod-lt (be_value (window x ms y) / 2 ^ t) (pow-pos f),
    pow-le-pow_right {n = 2} (omega arith) small,
  )

  entry-lt : entry < 2 ^ 32
  entry-lt = omega (arith, shifted-lt, le-mul_of_pos_right entry (pow-pos s))

  tail-lt : y / 2 ^ t < 2 ^ s
  tail-lt = div-pow-lt y t s (below_byte last)
    where
      below_byte : {k : ℕ} → k < 2 ^ 8 → k < 2 ^ (t + s)
      below_byte g = let e : t + s ≡ 8 = omega arith in rw e g

  middle :
      get_middle
        (pre ++ x ∷ (ms ++ y ∷ post))
        (p.fst_byte + 1)
        (p.lst_byte - p.fst_byte - 1)
        (x % 2 ^ (8 - p.onset_bits))
      ≡ ok entry
  middle =
      let rounds : p.lst_byte - p.fst_byte - 1 ≡ length ms = omega arith in
      let kept : 8 - p.onset_bits ≡ h = omega arith in
      let next : p.fst_byte + 1 ≡ length (pre ++ x ∷ []) =
        omega (arith, length-append pre (x ∷ [])) in
      rw (rounds, kept, skip_first x (ms ++ y ∷ post))
        (get_middle_lem (pre ++ x ∷ []) ms (y ∷ post) (p.fst_byte + 1) (x % 2 ^ h) next inside
          entry-lt)

  pub get_spread_lem :
      get_spread (pre ++ x ∷ (ms ++ y ∷ post)) p ≡ ok (field (be_value (window x ms y)) t f)
  unfolding get_spread
  get_spread_lem =
      rw
        (
          load_at-append x (ms ++ y ∷ post) pre p.fst_byte at_first,
          load_last x ms refl,
          middle,
          shift_eq,
          tail_eq,
          mod-eq_of_lt shifted-lt,
        )
        (ap ok (bit_or-shifted s entry (y / 2 ^ t) tail-lt ∙ sym entry_eq))

  -- The writes of a fingerprint `v` in `k` bytes.
  module _ (v k : ℕ) (fits : f ≤ 8 * k) (needed : 8 * k < f + 8) (few : k < 5)
      (v-lt : v < 2 ^ f) where
    abbrev rest : ℕ
    rest = 8 * length ms + s

    -- The bits of the first byte that the entry takes.
    first_bits :
        (next : ℕ) × (next_f_byte f (bytes_down v k) 0 ≡ ok next)
        × (next / 2 ^ p.onset_bits ≡ v / 2 ^ rest)
    first_bits = elim (long_or_short f) [
      | inl (r, e) ↦ (
        v / 2 ^ r % 256,
        next_f_byte_lem v f k fits needed few 0 r (omega arith),
        (ap (λ (b : ℕ). b / 2 ^ p.onset_bits) (mod-eq_of_lt (div-pow-lt v r 8 (rw (sym e) v-lt)))
            ∙ sym (div-pow v r p.onset_bits)
            ∙ ap (λ (b : ℕ). v / 2 ^ b) (onset_of r e)),
      )
      | inr e ↦ (
        v % 256 * 2 ^ (8 - f) % 256,
        next_f_byte_short v f k fits needed few e (omega arith),
        short_bits e,
      )
    ]
      where
        long_or_short : (f : ℕ) → ((r : ℕ) × (f ≡ r + 8)) ⊎ (f < 8)
        long_or_short f = elim (le_or_lt 8 f) [ inl g ↦ inl (f - 8, omega arith) | inr g ↦ inr g ]

        onset_of : (r : ℕ) → f ≡ r + 8 → r + p.onset_bits ≡ rest
        onset_of r e = omega arith

        eight : (a : ℕ) → a ≡ 8 → 2 ^ a ≡ 256
        eight a e = ap (λ (b : ℕ). 2 ^ b) e

        plus_zero : (a : ℕ) → a ≡ a + 0
        plus_zero a = omega arith

        short_bits : f < 8 → v % 256 * 2 ^ (8 - f) % 256 / 2 ^ p.onset_bits ≡ v / 2 ^ rest
        short_bits e =
            let room : 2 ^ (f + (8 - f)) ≡ 256 = eight (f + (8 - f)) (omega arith) in
            let shifted : v * 2 ^ (8 - f) < 256 =
              omega (arith, room, join-lt v 0 (8 - f) (pow-pos (8 - f)) f v-lt) in
            let byte : v < 256 = omega (arith, shifted, le-mul_of_pos_right v (pow-pos (8 - f))) in
            let on : p.onset_bits ≡ 8 - f + rest = omega arith in
            rw (mod-eq_of_lt byte, mod-eq_of_lt shifted, on)
              (ap (λ (b : ℕ). b / 2 ^ (8 - f + rest)) (plus_zero (v * 2 ^ (8 - f)))
                ∙ join-div-plus v 0 (8 - f) rest (pow-pos (8 - f)))

    abbrev new_first : ℕ
    new_first = x / 2 ^ h * 2 ^ h + v / 2 ^ rest

    abbrev new_last : ℕ
    new_last = v % 2 ^ s * 2 ^ t + y % 2 ^ t

    abbrev new_inside : List ℕ
    new_inside = middle_bytes v s (length ms)

    first_joined :
        (next : ℕ)
        → next / 2 ^ p.onset_bits ≡ v / 2 ^ rest
        → bit_or (next / 2 ^ p.onset_bits) (x / 2 ^ h * 2 ^ h % 256) ≡ new_first
    first_joined next e =
        let high : x / 2 ^ h * 2 ^ h < 256 = omega (arith, div-mul-le_self x (2 ^ h)) in
        let turned : f ≡ rest + h = omega arith in
        rw (e, mod-eq_of_lt high, bit_or_comm (v / 2 ^ rest) (x / 2 ^ h * 2 ^ h))
          (bit_or-shifted h (x / 2 ^ h) (v / 2 ^ rest) (div-pow-lt v rest h (rw (sym turned) v-lt)))

    to_write : v % 256 * 2 ^ (8 - s) % 256 ≡ v % 2 ^ s * 2 ^ t
    to_write =
        let left : 8 - s ≡ t = omega arith in
        let up : 2 ^ (s + t) ≡ 256 = ap (λ (b : ℕ). 2 ^ b) whole in
        let flip : t + s ≡ 8 = omega arith in
        let down : 2 ^ (t + s) ≡ 256 = ap (λ (b : ℕ). 2 ^ b) flip in
        rw left (
          sym (ap (λ (b : ℕ). v % 256 * 2 ^ t % b) up)
          ∙ shift_cut (v % 256) s t
          ∙ sym (ap (λ (b : ℕ). v % b % 2 ^ s * 2 ^ t) down)
          ∙ ap (λ (b : ℕ). b * 2 ^ t) (slice-mod v s t))

    last_joined :
        (if p.offset_bits == 0
          then v % 256 * 2 ^ (8 - s) % 256
          else bit_or (v % 256 * 2 ^ (8 - s) % 256) (y % 2 ^ (8 - p.offset_bits)))
        ≡ new_last
    last_joined = rw to_write (elim shift_cases [
      | inl (a, b, c) ↦
          let none_kept : v % 2 ^ s * 2 ^ t ≡ v % 2 ^ s * 2 ^ t + y % 2 ^ t =
            omega (arith, ap (λ (d : ℕ). y % 2 ^ d) b) in
          rw c none_kept
      | inr (a, b) ↦
          let left : 8 - s ≡ t = omega arith in
          let test : (s == 0) ≡ false = ground arith in
          rw (b, test, left) (bit_or-shifted t (v % 2 ^ s) (y % 2 ^ t) (mod-lt y (pow-pos t)))
    ])

    middle_set :
        set_middle f
          (bytes_down v k)
          (pre ++ new_first ∷ (ms ++ y ∷ post))
          (p.fst_byte + 1)
          (length ms)
          h
        ≡ ok (pre ++ new_first ∷ (new_inside ++ y ∷ post), h + 8 * length ms)
    middle_set =
        let next : p.fst_byte + 1 ≡ length (pre ++ new_first ∷ []) =
          omega (arith, length-append pre (new_first ∷ [])) in
        rw (skip_first new_first (ms ++ y ∷ post)) (
          set_middle_lem v f k fits needed few (pre ++ new_first ∷ []) ms (y ∷ post)
            (p.fst_byte + 1) h s next size
          ∙ ap (λ l. ok (l, h + 8 * length ms))
              (sym (skip_first new_first (new_inside ++ y ∷ post))))

    set_spread_lem :
        set_spread (pre ++ x ∷ (ms ++ y ∷ post)) p f (bytes_down v k) (suc (length ms))
        ≡ ok (pre ++ new_first ∷ (new_inside ++ new_last ∷ post))
    unfolding set_spread
    set_spread_lem =
        let (next, run, bits) = first_bits in
        let kept : 8 - p.onset_bits ≡ h = omega arith in
        let left : f - (h + 8 * length ms) ≡ s = omega arith in
        let rounds : suc (length ms) - 1 ≡ length ms = omega arith in
        rw
          (
            run,
            load_at-append x (ms ++ y ∷ post) pre p.fst_byte at_first,
            kept,
            first_joined next bits,
            store_at-append x (ms ++ y ∷ post) new_first pre p.fst_byte at_first,
            rounds,
            middle_set,
            back_byte v k (omega arith),
            left,
            load_last new_first new_inside (length-middle_bytes v s (length ms)),
            last_joined,
          )
          (store_last new_first new_last new_inside (length-middle_bytes v s (length ms)))

    be_value-written :
        be_value (window new_first new_inside new_last) ≡ splice (be_value (window x ms y)) t f v
    be_value-written =
        let n : length new_inside ≡ length ms = length-middle_bytes v s (length ms) in
        be_value-window new_first new_last new_inside
        ∙ ap (λ (m : ℕ). window_value m new_first (be_value new_inside) new_last) n
        ∙ sym (
            splice-window (length ms) h s t f x (be_value ms) y last inside-lt whole size v
              (be_value new_inside) (be_value-middle_bytes v s (length ms)))
        ∙ ap (λ (m : ℕ). splice m t f v) (sym (be_value-window x y ms))

    first-lt : new_first < 2 ^ 8
    first-lt =
        let turned : f ≡ rest + h = omega arith in
        let whole_byte : h + p.onset_bits ≡ 8 = omega arith in
        let back : p.onset_bits + h ≡ 8 = omega arith in
        let high : x / 2 ^ h < 2 ^ p.onset_bits =
          div-pow-lt x h p.onset_bits (rw whole_byte first) in
        let low : v / 2 ^ rest < 2 ^ h = div-pow-lt v rest h (rw (sym turned) v-lt) in
        below (join-lt (x / 2 ^ h) (v / 2 ^ rest) h low p.onset_bits high) back

    last-lt : new_last < 2 ^ 8
    last-lt =
        below (join-lt (v % 2 ^ s) (y % 2 ^ t) t (mod-lt y (pow-pos t)) s (mod-lt v (pow-pos s)))
          whole

    written-AreBytes : AreBytes (window new_first new_inside new_last)
    written-AreBytes = (
      first-lt,
      AreBytes-append new_inside (new_last ∷ []) (middle_bytes-AreBytes v s (length ms))
          (last-lt, tt),
    )

    -- All of what the write does.
    pub set_spread-window :
        (w' : List ℕ) × (length w' ≡ length (window x ms y))
        × AreBytes w'
        × (be_value w' ≡ splice (be_value (window x ms y)) t f v)
        × (set_spread (pre ++ x ∷ (ms ++ y ∷ post)) p f (bytes_down v k) (suc (length ms))
            ≡ ok (pre ++ (w' ++ post)))
    set_spread-window = (
      window new_first new_inside new_last,
      omega (
        arith,
        length-append new_inside (new_last ∷ []),
        length-append ms (y ∷ []),
        length-middle_bytes v s (length ms),
      ),
      written-AreBytes,
      be_value-written,
      set_spread_lem
          ∙ ap (λ l. ok (pre ++ new_first ∷ l))
              (sym (append_assoc new_inside (new_last ∷ []) post)),
    )
