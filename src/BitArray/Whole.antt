-- ===== src/BitArray/Whole.antt =====
-- `getEntry` and `setEntry` on the number of the whole vector.
use gensync_core.Prelude.{
  ℕ, suc, ◌+◌, ◌-◌, ◌*◌, ◌/◌, ◌%◌, ◌^◌, ◌≤◌, ◌<◌, ◌≡◌, refl, sym, ap, ap₂, ◌∙◌, List, [], ◌∷◌, ◌++◌,
  length, length-append, arith, ltb, leb, ◌==◌, true, false, ◌⊎◌, inl, inr,
}
use mathlib.Core.List.{append_assoc}
use native.Mathlib.Nat.{pow-le-pow_right}
use gensync_core.Prelude.Outcome.{Outcome, ok}
use gensync_core.Ntl.{AreBytes}
use gensync_core.BitArray.{
  Compact2dBitArray, GetSetPrelim, get_set_prelim, get_entry, set_entry, get_single, get_spread,
  set_single, set_spread, bytes_down, memory_byte, assert_idx, size_minus,
}
use gensync_core.BitArray.Values.{
  be_value, field, splice, AreBytes-append, AreBytes-split, field-inside, splice-inside,
}
use gensync_core.BitArray.WindowValue.{window}
use gensync_core.BitArray.Spread.{get_spread_lem, set_spread-window}
use gensync_core.BitArray.Single.{get_single_lem, set_single_lem, single-lt}
use gensync_core.BitArray.Place.{
  IsValid, split_at, bits_before, bits_after, fst_byte_lem, lst_byte_lem, onset_bits_lem,
  offset_bits_lem, last_inside, inside_table,
}

le_or_lt : (a b : ℕ) → (a ≤ b) ⊎ (b < a)
le_or_lt a b = ground arith

-- What a write of `v` into the field leaves.
pub record Written (st : List ℕ) (low f v : ℕ) : Type 0 where
  pub after : List ℕ
  pub length-after : length after ≡ length st
  pub after-AreBytes : AreBytes after
  pub be_value-after : be_value after ≡ splice (be_value st) low f v

module _ (a : Compact2dBitArray) (i j : ℕ) (valid : IsValid a) (row : i < a.n_buckets)
    (column : j < a.b_size) where
  open valid use {some_bits, few_bits, f_bytes_fit, f_bytes_needed, bytes, no_wrap}

  abbrev p : GetSetPrelim
  p = get_set_prelim a i j

  -- A run that ends with such a write.
  abbrev Writes : Outcome (List ℕ) → ℕ → ℕ → Type 0
  Writes run low v = (w : Written a.store low a.f_size v) × (run ≡ ok w.after)

  abbrev onset : ℕ
  onset = bits_before a i j % 8

  -- The bytes `w` of the entry in the vector, with `t` bits after the entry in them.
  module _ (pre w post : List ℕ) (t : ℕ) (parts : a.store ≡ pre ++ (w ++ post))
      (place : length pre ≡ bits_before a i j / 8)
      (size : 8 * length w ≡ onset + (a.f_size + t)) where
    low_eq : bits_after a i j ≡ 8 * length post + t
    low_eq = omega (arith, ap length parts, length-append pre (w ++ post), length-append w post)

    parts-AreBytes : AreBytes pre × AreBytes w × AreBytes post
    parts-AreBytes =
        let (ps, qs) = AreBytes-split pre (w ++ post) (rw (sym parts) bytes) in
        let (ws, zs) = AreBytes-split w post qs in (ps, ws, zs)

    field_of_parts :
        field (be_value a.store) (bits_after a i j) a.f_size ≡ field (be_value w) t a.f_size
    field_of_parts =
        ap₂ (λ (n k : ℕ). field n k a.f_size) (ap be_value parts) low_eq
        ∙ field-inside pre w post t a.f_size onset (parts-AreBytes.2) size

    written_parts :
        (v : ℕ) (w' : List ℕ)
        → length w' ≡ length w
        → AreBytes w'
        → be_value w' ≡ splice (be_value w) t a.f_size v
        → (run : Outcome (List ℕ)) → run ≡ ok (pre ++ (w' ++ post))
        → Writes run (bits_after a i j) v
    written_parts v w' l b e run ends =
        let (ps, ws, qs) = parts-AreBytes in
        (
          record {
            after = pre ++ (w' ++ post);
            length-after = omega (
              arith,
              ap length parts,
              length-append pre (w ++ post),
              length-append w post,
              length-append pre (w' ++ post),
              length-append w' post,
            );
            after-AreBytes = AreBytes-append pre (w' ++ post) ps (AreBytes-append w' post b qs);
            be_value-after =
                splice-inside pre w post t a.f_size onset qs size w' v l e
                ∙ sym (ap₂ (λ (n k : ℕ). splice n k a.f_size v) (ap be_value parts) low_eq);
          },
          ends,
        )

  fst_inside : bits_before a i j / 8 < length a.store
  fst_inside = omega (arith, last_inside a i j valid row column)

  one_byte : (x : ℕ) → x * 1 + 0 ≡ x
  one_byte x = omega arith

  -- An entry in one byte.
  single_read :
      (onset + a.f_size ≤ 8)
      → get_single a.store p a.f_size ≡ ok (field (be_value a.store) (bits_after a i j) a.f_size)
  single_read fits =
      let (pre, x, post, e, l) = split_at a.store (bits_before a i j / 8) fst_inside in
      let t = 8 - (onset + a.f_size) in
      let (ps, (b, u), qs) = parts-AreBytes pre (x ∷ []) post t e l (omega arith) in
      ap (λ st. get_single st p a.f_size) e
      ∙ get_single_lem pre post x p t a.f_size b (fst_byte_lem a i j valid row column ∙ sym l)
          (omega (arith, onset_bits_lem a i j valid row column))
      ∙ ap ok (
          ap (λ (n : ℕ). field n t a.f_size) (sym (one_byte x))
          ∙ sym (field_of_parts pre (x ∷ []) post t e l (omega arith)))

  single_write :
      (v : ℕ)
      → v < 2 ^ a.f_size
      → onset + a.f_size ≤ 8
      → Writes (set_single a.store p a.f_size (memory_byte true v 0)) (bits_after a i j) v
  single_write v h fits =
      let (pre, x, post, e, l) = split_at a.store (bits_before a i j / 8) fst_inside in
      let t = 8 - (onset + a.f_size) in
      let (ps, (b, u), qs) = parts-AreBytes pre (x ∷ []) post t e l (omega arith) in
      let place = fst_byte_lem a i j valid row column ∙ sym l in
      let whole : p.onset_bits + (a.f_size + t) ≡ 8 =
        omega (arith, onset_bits_lem a i j valid row column) in
      let byte : v < 256 =
        omega (arith, pow-le-pow_right {n = 2} (omega arith) {j = 8} (le_of onset a.f_size fits)) in
      written_parts pre (x ∷ []) post t e l (omega arith) v (splice x t a.f_size v ∷ []) refl
        (single-lt pre post x p t a.f_size b place whole v h, tt)
        (one_byte (splice x t a.f_size v)
          ∙ ap (λ (n : ℕ). splice n t a.f_size v) (sym (one_byte x)))
        _
        (ap (λ st. set_single st p a.f_size (memory_byte true v 0)) e
          ∙ set_single_lem pre post x p t a.f_size b place whole v h byte)
    where
      le_of : (b a : ℕ) → b + a ≤ 8 → a ≤ 8
      le_of b a h = omega arith

  -- The bytes of an entry in more than one byte: how many are inside, and the bits in the last.
  module _ (many : bits_before a i j / 8 < (bits_before a i j + a.f_size - 1) / 8) where
    abbrev inner : ℕ
    inner = (bits_before a i j + a.f_size - 1) / 8 - bits_before a i j / 8 - 1

    abbrev in_last : ℕ
    in_last = (bits_before a i j + a.f_size - 1) % 8 + 1

    record SpreadParts : Type 0 where
      pub pre : List ℕ
      pub x : ℕ
      pub ms : List ℕ
      pub y : ℕ
      pub post : List ℕ
      pub flat : a.store ≡ pre ++ x ∷ (ms ++ y ∷ post)
      pub place : length pre ≡ bits_before a i j / 8
      pub count : length ms ≡ inner

    spread_parts : SpreadParts
    spread_parts =
        let (pre, x, r, e, l) = split_at a.store (bits_before a i j / 8) fst_inside in
        let (ms, y, post, d, m) = split_at r inner (
          omega
            (arith, ap length e, length-append pre (x ∷ r), last_inside a i j valid row column)) in
        record {
          pre = pre;
          x = x;
          ms = ms;
          y = y;
          post = post;
          flat = e ∙ ap (λ t. pre ++ x ∷ t) d;
          place = l;
          count = m;
        }

    module _ (q : SpreadParts) where
      open q use {pre, x, ms, y, post, flat, place, count}

      grouped : a.store ≡ pre ++ (window x ms y ++ post)
      grouped = flat ∙ ap (λ t. pre ++ x ∷ t) (sym (append_assoc ms (y ∷ []) post))

      window-size : 8 * length (window x ms y) ≡ onset + (a.f_size + (8 - in_last))
      window-size = omega (arith, length-append ms (y ∷ []))

      window-AreBytes : AreBytes (x ∷ []) × AreBytes ms × AreBytes (y ∷ [])
      window-AreBytes =
          let (ps, (b, ws), qs) =
            parts-AreBytes pre (window x ms y) post (8 - in_last) grouped place window-size in
          let (ns, ls) = AreBytes-split ms (y ∷ []) ws in ((b, tt), ns, ls)

      size : a.f_size ≡ 8 - onset + (8 * length ms + in_last)
      size = omega arith

      at_last : p.lst_byte ≡ length pre + (1 + length ms)
      at_last = omega (arith, lst_byte_lem a i j valid row column)

      read_of : get_spread a.store p ≡ ok (field (be_value a.store) (bits_after a i j) a.f_size)
      read_of =
          let ((b, u), ns, (c, w)) = window-AreBytes in
          ap (λ st. get_spread st p) flat
          ∙ get_spread_lem pre ms post x y p (8 - onset) in_last (8 - in_last) a.f_size b ns c
              (omega arith) (omega arith) (omega arith) size few_bits
              (fst_byte_lem a i j valid row column ∙ sym place) at_last
              (omega (arith, onset_bits_lem a i j valid row column))
              (omega (arith, offset_bits_lem a i j valid row column))
          ∙ ap ok (
              sym (field_of_parts pre (window x ms y) post (8 - in_last) grouped place window-size))

      write_of :
          (v : ℕ)
          → v < 2 ^ a.f_size
          → Writes
              (set_spread a.store p a.f_size (bytes_down v a.f_size_b) (suc inner))
              (bits_after a i j)
              v
      write_of v h =
          let ((b, u), ns, (c, w)) = window-AreBytes in
          let (w', l, ws, e, run) =
            set_spread-window pre ms post x y p (8 - onset) in_last (8 - in_last) a.f_size b ns c
              (omega arith) (omega arith) (omega arith) size few_bits
              (fst_byte_lem a i j valid row column ∙ sym place) at_last
              (omega (arith, onset_bits_lem a i j valid row column))
              (omega (arith, offset_bits_lem a i j valid row column)) v a.f_size_b f_bytes_fit
              f_bytes_needed (omega arith) h in
          written_parts pre (window x ms y) post (8 - in_last) grouped place window-size v w' l ws e
            _
            (ap₂ (λ st n. set_spread st p a.f_size (bytes_down v a.f_size_b) (suc n)) flat
                (sym count)
              ∙ run)

  -- One byte or more.
  byte_cases :
      (onset + a.f_size ≤ 8) ⊎ (bits_before a i j / 8 < (bits_before a i j + a.f_size - 1) / 8)
  byte_cases = elim (le_or_lt (onset + a.f_size) 8) [ inl h ↦ inl h | inr h ↦ inr (omega arith) ]

  pub get_entry_lem : get_entry a i j ≡ ok (field (be_value a.store) (bits_after a i j) a.f_size)
  unfolding get_entry assert_idx
  get_entry_lem =
      let fst = fst_byte_lem a i j valid row column in
      let lst = lst_byte_lem a i j valid row column in
      let rows : ltb i a.n_buckets ≡ true = ground arith in
      let columns : ltb j a.b_size ≡ true = ground arith in
      rw (rows, columns)
        (elim byte_cases [
          | inl h ↦
              let test : ltb p.fst_byte p.lst_byte ≡ false = ground arith in rw test (single_read h)
          | inr h ↦
              let test : ltb p.fst_byte p.lst_byte ≡ true = ground arith in
              rw test (read_of h (spread_parts h))
        ])

  pub set_entry_lem :
      (v : ℕ)
      → v < 2 ^ a.f_size
      → (w : Written a.store (bits_after a i j) a.f_size v) × (set_entry true a i j v
          ≡ ok (record a { store = w.after }))
  unfolding set_entry assert_idx
  set_entry_lem v bound =
      let fst = fst_byte_lem a i j valid row column in
      let lst = lst_byte_lem a i j valid row column in
      let inside = inside_table a i j valid row column in
      let rows : ltb i a.n_buckets ≡ true = ground arith in
      let columns : ltb j a.b_size ≡ true = ground arith in
      elim byte_cases [
        | inl h ↦
            let (w, run) = single_write v bound h in
            let diff : size_minus p.lst_byte p.fst_byte ≡ 0 = omega (arith, no_wrap) in
            (w, rw (rows, columns, diff, run))
        | inr h ↦
            let (w, run) = write_of h (spread_parts h) v bound in
            let diff : size_minus p.lst_byte p.fst_byte ≡ suc (inner h) = omega (arith, no_wrap) in
            let some_diff : (suc (inner h) == 0) ≡ false = ground arith in
            let few : leb (suc (inner h)) 4 ≡ true = ground arith in
            (w, rw (rows, columns, diff, some_diff, few, run))
      ]
