-- ===== src/BitArray/Changed.antt =====
-- What a caller learns from a run of `get_entry` or `set_entry` that ended well.
use gensync_core.Prelude.{
  ℕ, ◌^◌, ◌≤◌, ◌<◌, ◌≡◌, refl, sym, ap, ◌∙◌, arith, true, ◌⊎◌, inl, inr, ◌≢◌,
}
use gensync_core.Prelude.Outcome.{Outcome, ok, stop, throws, ◌>>=◌, ok-injective}
use gensync_core.BitArray.{Compact2dBitArray, get_entry, set_entry}
use gensync_core.BitArray.Place.{IsValid}
use gensync_core.BitArray.Entries.{get_entry-lt, get_entry-set_entry, set_entry_back}
use gensync_core.BitArray.Table.{entry_past}

pub record Inside (a : Compact2dBitArray) (i j : ℕ) : Type 0 where
  pub row : i < a.n_buckets
  pub column : j < a.b_size

not_stop : {A : Type 0} {x : A} {s : Outcome A} → s ≡ stop throws → s ≡ ok x → ⊥
not_stop {s = ok y} e d = cc
not_stop {s = stop y} e d = cc

make-Inside :
    (a : Compact2dBitArray) (i j : ℕ) → ((a.n_buckets ≤ i) ⊎ (a.b_size ≤ j) → ⊥) → Inside a i j
make-Inside a i j h = record {
  row = elim (le_or_lt a.n_buckets i) [ inl p ↦ absurd (h (inl p)) | inr p ↦ p ];
  column = elim (le_or_lt a.b_size j) [ inl p ↦ absurd (h (inr p)) | inr p ↦ p ];
}
  where
    le_or_lt : (a b : ℕ) → (a ≤ b) ⊎ (b < a)
    le_or_lt a b = ground arith

pub read-Inside : (a : Compact2dBitArray) (i j u : ℕ) → get_entry a i j ≡ ok u → Inside a i j
read-Inside a i j u e = make-Inside a i j (λ h. not_stop ((entry_past true a i j 0 h).0) e)

pub read-lt :
    (a : Compact2dBitArray) (i j u : ℕ) → IsValid a → get_entry a i j ≡ ok u → u < 2 ^ a.f_size
read-lt a i j u valid e =
    let inside = read-Inside a i j u e in
    let (v, d, h) = get_entry-lt a valid i j inside.row inside.column in
    let same : u ≡ v = ok-injective (sym e ∙ d) in rw same h

-- The array `b` after a write of `v` to entry (i, j) of `a`.
pub record Changed (a b : Compact2dBitArray) (i j v : ℕ) : Type 0 where
  pub inside : Inside a i j
  pub valid : IsValid b
  pub rows : b.n_buckets ≡ a.n_buckets
  pub columns : b.b_size ≡ a.b_size
  pub bits : b.f_size ≡ a.f_size
  pub here : get_entry b i j ≡ ok v
  pub others :
      (k l : ℕ)
      → k < a.n_buckets
      → l < a.b_size
      → (k ≢ i) ⊎ (l ≢ j)
      → get_entry b k l ≡ get_entry a k l
  pub back : (u : ℕ) → get_entry a i j ≡ ok u → set_entry true b i j u ≡ ok a

pub set_entry-Changed :
    (a b : Compact2dBitArray) (i j v : ℕ)
    → IsValid a
    → v < 2 ^ a.f_size
    → set_entry true a i j v ≡ ok b
    → Changed a b i j v
set_entry-Changed a b i j v valid h e =
    let inside = make-Inside a i j (λ past. not_stop ((entry_past true a i j v past).1) e) in
    let (st, run, valid', here, others) =
      get_entry-set_entry a valid i j inside.row inside.column v h in
    let same : record a { store = st } ≡ b = ok-injective (sym run ∙ e) in
    rw (sym same) (record {
      inside = inside;
      valid = valid';
      rows = refl;
      columns = refl;
      bits = refl;
      here = here;
      others = others;
      back = λ u read.
          sym (ap (λ m. m >>= λ c. set_entry true c i j u) run)
          ∙ set_entry_back a valid i j inside.row inside.column u v read h;
    })

-- The array `b` is valid and has the shape of `a`.
pub record Kept (a b : Compact2dBitArray) : Type 0 where
  pub valid : IsValid b
  pub rows : b.n_buckets ≡ a.n_buckets
  pub columns : b.b_size ≡ a.b_size
  pub bits : b.f_size ≡ a.f_size

pub Changed-Kept : (a b : Compact2dBitArray) (i j v : ℕ) → Changed a b i j v → Kept a b
Changed-Kept a b i j v q = record {
  valid = q.valid;
  rows = q.rows;
  columns = q.columns;
  bits = q.bits;
}

pub Kept-trans : (a b c : Compact2dBitArray) → Kept a b → Kept b c → Kept a c
Kept-trans a b c q r = record {
  valid = r.valid;
  rows = r.rows ∙ q.rows;
  columns = r.columns ∙ q.columns;
  bits = r.bits ∙ q.bits;
}
