-- ===== src/Iblt/Peel.antt =====
-- `listEntries` loses nothing: what it took out of the table is in its two lists.
use gensync_core.Prelude.{
  ℕ, zero, suc, ◌+◌, ◌≤◌, ◌<◌, ◌≡◌, refl, sym, ap, ◌∙◌, List, [], ◌∷◌, ◌++◌, All, arith, Bool, true,
  false, if◌then◌else◌, Bool-cases, inl, inr, ◌==◌,
}
use gensync_core.Prelude.Int.{ℤ, pos, negsuc, -ℤ◌, ◌==ℤ◌, ==ℤ_iff, ◌+ℤ◌, neg-+ℤ}
use mathlib.Core.Path.{subst}
use gensync_core.Prelude.Outcome.{ok-injective, Outcome, ok, at_index, at_index-lt}
use gensync_core.Platform.{Platform}
use gensync_core.Iblt.{
  HashTableEntry, GenIblt, Listing, size, insert_signed, is_pure, list_cell, list_pass, list_loop,
}
use gensync_core.Iblt.Sums.{IsMirrored}
use gensync_core.Iblt.Update.{
  IsReady, added, size-added, insert_signed-added, added-IsReady, added_comm, added-opposite,
}
use gensync_core.Iblt.Subtract.{added_all}

abbrev pub keys : List (ℕ × ℕ) → List ℕ
keys [] = []
keys ((k, v) ∷ l) = k ∷ keys l

-- In every listed pair the value is the key.
abbrev pub AreMirrored : List (ℕ × ℕ) → Type 0
AreMirrored = All (λ i. i.1 ≡ i.0)

module _ (p : Platform) where
  -- The table with all that was listed put back.
  abbrev pub restored : Listing → GenIblt
  restored s =
      added_all p (added_all p s.iblt (pos 1) (keys s.positive)) (negsuc 0) (keys s.negative)

  pub added_all-added :
      (g : GenIblt) (s t : ℤ) (ks : List ℕ) (k : ℕ)
      → added_all p (added p g t k) s ks ≡ added p (added_all p g s ks) t k
  added_all-added g s t [] k = refl
  added_all-added g s t (j ∷ ks) k =
      ap (λ h. added_all p h s ks) (added_comm p g t s k j)
      ∙ added_all-added (added p g s j) s t ks k

  added_all-snoc :
      (g : GenIblt) (s : ℤ) (l : List (ℕ × ℕ)) (k v : ℕ)
      → added_all p g s (keys (l ++ (k, v) ∷ [])) ≡ added p (added_all p g s (keys l)) s k
  added_all-snoc g s [] k v = refl
  added_all-snoc g s ((j, w) ∷ l) k v = added_all-snoc (added p g s j) s l k v

  -- What every step of the listing keeps.
  pub record Keeps (g : GenIblt) (s : Listing) : Type 0 where
    pub ready : IsReady p s.iblt
    pub whole : restored s ≡ g
    pub positive_pairs : AreMirrored s.positive
    pub negative_pairs : AreMirrored s.negative

  -- A cell read from a mirrored table.
  pub at_index-IsMirrored :
      (t : List HashTableEntry) (i : ℕ) {e : HashTableEntry}
      → All IsMirrored t
      → at_index t i ≡ ok e
      → IsMirrored e
  unfolding at_index
  at_index-IsMirrored [] i m h = cc
  at_index-IsMirrored (x ∷ t) zero m h = ground arith
  at_index-IsMirrored (x ∷ t) (suc i) m h = at_index-IsMirrored t i m.1 h

  pub is_pure-count :
      (check : ℕ) (e : HashTableEntry)
      → is_pure p check e ≡ true
      → (e.count ==ℤ pos 1) ≡ false
      → e.count ≡ negsuc 0
  unfolding is_pure
  is_pure-count check e h n = ground (arith, ==ℤ_iff e.count (negsuc 0))

  insert_signed-mirrored :
      {g : GenIblt} (sign : ℤ) (key value : ℕ)
      → value ≡ key
      → IsReady p g
      → insert_signed p sign key value g ≡ ok (added p g sign key)
  insert_signed-mirrored {g} sign key value e r =
      ap (λ v. insert_signed p sign key v g) e ∙ insert_signed-added p sign key r

  All-snoc : (l : List (ℕ × ℕ)) (k v : ℕ) → AreMirrored l → v ≡ k → AreMirrored (l ++ (k, v) ∷ [])
  All-snoc [] k v m e = (e, tt)
  All-snoc (x ∷ l) k v m e = (m.0, All-snoc l k v m.1 e)

  -- The two outcomes for a pure cell.
  abbrev pub listed : Listing → HashTableEntry → Listing
  listed s e =
      if e.count ==ℤ pos 1
      then record s {
        iblt = added p s.iblt (-ℤ◌ e.count) e.key_sum;
        positive = s.positive ++ (e.key_sum, e.value_sum) ∷ [];
        n_erased = s.n_erased + 1;
      }
      else record s {
        iblt = added p s.iblt (-ℤ◌ e.count) e.key_sum;
        negative = s.negative ++ (e.key_sum, e.value_sum) ∷ [];
        n_erased = s.n_erased + 1;
      }

  if-ok : (b : Bool) (x y : Listing) → (if b then ok x else ok y) ≡ ok (if b then x else y)
  if-ok true x y = refl
  if-ok false x y = refl

  pub list_cell-listed :
      {g : GenIblt} {s : Listing} (i : ℕ) {e : HashTableEntry}
      → Keeps g s
      → at_index s.iblt.hash_table i ≡ ok e
      → list_cell p i s ≡ ok (if is_pure p s.iblt.num_hash_check e then listed s e else s)
  unfolding list_cell
  list_cell-listed {s = s} i {e} k h =
      let m = at_index-IsMirrored s.iblt.hash_table i k.ready.mirrored h in
      rw (h, insert_signed-mirrored (-ℤ◌ e.count) e.key_sum e.value_sum m k.ready)
        (if-ok (is_pure p s.iblt.num_hash_check e) _ _)

  restored-positive :
      (s : Listing) (k v n : ℕ) (c : ℤ)
      → c +ℤ pos 1 ≡ pos 0
      → restored (record s {
        iblt = added p s.iblt c k;
        positive = s.positive ++ (k, v) ∷ [];
        n_erased = n;
      })
        ≡ restored s
  restored-positive s k v n c e =
      ap (λ h. added_all p h (negsuc 0) (keys s.negative))
        (added_all-snoc (added p s.iblt c k) (pos 1) s.positive k v
          ∙ ap (λ h. added p h (pos 1) k) (added_all-added s.iblt (pos 1) c (keys s.positive) k)
          ∙ added-opposite p (added_all p s.iblt (pos 1) (keys s.positive)) c (pos 1) k e)

  restored-negative :
      (s : Listing) (k v n : ℕ) (c : ℤ)
      → c +ℤ negsuc 0 ≡ pos 0
      → restored (record s {
        iblt = added p s.iblt c k;
        negative = s.negative ++ (k, v) ∷ [];
        n_erased = n;
      })
        ≡ restored s
  restored-negative s k v n c e =
      let plus_part = added_all p s.iblt (pos 1) (keys s.positive) in
      added_all-snoc (added_all p (added p s.iblt c k) (pos 1) (keys s.positive)) (negsuc 0)
        s.negative k v
      ∙ ap (λ h. added p (added_all p h (negsuc 0) (keys s.negative)) (negsuc 0) k)
          (added_all-added s.iblt (pos 1) c (keys s.positive) k)
      ∙ ap (λ h. added p h (negsuc 0) k)
          (added_all-added plus_part (negsuc 0) c (keys s.negative) k)
      ∙ added-opposite p (restored s) c (negsuc 0) k e

  neg_cancel : (c d : ℤ) → c ≡ d → -ℤ◌ c +ℤ d ≡ pos 0
  neg_cancel c d e = ap (λ a. -ℤ◌ a +ℤ d) e ∙ neg-+ℤ d

  pub listed-Keeps :
      {g : GenIblt} {s : Listing} (e : HashTableEntry)
      → Keeps g s
      → IsMirrored e
      → is_pure p s.iblt.num_hash_check e ≡ true
      → Keeps g (listed s e)
  listed-Keeps {s = s} e k m pure = elim (Bool-cases (e.count ==ℤ pos 1)) [
    | inl one ↦ rw one (record {
      ready = added-IsReady p (-ℤ◌ e.count) e.key_sum k.ready;
      whole =
          restored-positive s e.key_sum e.value_sum (s.n_erased + 1) (-ℤ◌ e.count)
            (neg_cancel e.count (pos 1) ((==ℤ_iff e.count (pos 1)).0 one))
          ∙ k.whole;
      positive_pairs = All-snoc s.positive e.key_sum e.value_sum k.positive_pairs m;
      negative_pairs = k.negative_pairs;
    })
    | inr other ↦ rw other (record {
      ready = added-IsReady p (-ℤ◌ e.count) e.key_sum k.ready;
      whole =
          restored-negative s e.key_sum e.value_sum (s.n_erased + 1) (-ℤ◌ e.count)
            (neg_cancel e.count (negsuc 0) (is_pure-count s.iblt.num_hash_check e pure other))
          ∙ k.whole;
      positive_pairs = k.positive_pairs;
      negative_pairs = All-snoc s.negative e.key_sum e.value_sum k.negative_pairs m;
    })
  ]

  pub size-listed : (s : Listing) (e : HashTableEntry) → size (listed s e).iblt ≡ size s.iblt
  size-listed s e = elim (Bool-cases (e.count ==ℤ pos 1)) [
    | inl one ↦ rw one (size-added p s.iblt (-ℤ◌ e.count) e.key_sum)
    | inr other ↦ rw other (size-added p s.iblt (-ℤ◌ e.count) e.key_sum)
  ]

  -- A run of a part of the listing that ends, keeps what is to be kept, and the number of cells.
  abbrev Runs : GenIblt → Listing → Outcome Listing → Type 0
  Runs g s run = (s' : Listing) × (run ≡ ok s') × Keeps g s' × (size s'.iblt ≡ size s.iblt)

  list_cell-Keeps :
      {g : GenIblt} {s : Listing} (i : ℕ) → Keeps g s → i < size s.iblt → Runs g s (list_cell p i s)
  list_cell-Keeps {s = s} i k h =
      let (e, here) = at_index-lt s.iblt.hash_table i h in
      let m = at_index-IsMirrored s.iblt.hash_table i k.ready.mirrored here in
      elim (Bool-cases (is_pure p s.iblt.num_hash_check e)) [
        | inl pure ↦ (
          listed s e,
          list_cell-listed i k here ∙ rw pure,
          listed-Keeps e k m pure,
          size-listed s e,
        )
        | inr mixed ↦ (s, list_cell-listed i k here ∙ rw mixed, k, refl)
      ]

  pub list_pass-Keeps :
      {g : GenIblt} {s : Listing} (n i : ℕ)
      → Keeps g s
      → i + n ≤ size s.iblt
      → Runs g s (list_pass p n i s)
  unfolding list_pass
  list_pass-Keeps {s = s} zero i k h = (s, refl, k, refl)
  list_pass-Keeps {g} {s} (suc n) i k h =
      let (s', run, k', w) = list_cell-Keeps {g = g} {s = s} i k (omega arith) in
      let (s'', run', k'', w') = list_pass-Keeps {g = g} {s = s'} n (i + 1) k' (omega arith) in
      (s'', rw run run', k'', w' ∙ w)

  -- One round of the outer loop.
  pub list_loop_step :
      {g : GenIblt} (fuel : ℕ) {s : Listing}
      → Keeps g s
      → (t : Listing) × Keeps g t
        × (list_pass p (size s.iblt) 0 (record s { n_erased = 0 }) ≡ ok t)
        × (list_loop p (suc fuel) s ≡ (if 0 == t.n_erased then ok t else list_loop p fuel t))
  unfolding list_loop
  list_loop_step {g} fuel {s} k =
      let kept : Keeps g (record s { n_erased = 0 }) = record {
        ready = k.ready;
        whole = k.whole;
        positive_pairs = k.positive_pairs;
        negative_pairs = k.negative_pairs;
      } in
      let (t, run, k', w) =
        list_pass-Keeps {g = g} {s = record s { n_erased = 0 }} (size s.iblt) 0 kept
          (omega arith) in
      (t, k', run, rw run)

  Keeps-of_end :
      {g : GenIblt} (b : Bool) (t : Listing) (rest : Outcome Listing) {s' : Listing}
      → Keeps g t
      → (rest ≡ ok s' → Keeps g s')
      → (if b then ok t else rest) ≡ ok s'
      → Keeps g s'
  Keeps-of_end {g} true t rest k more e = subst (Keeps g) (ok-injective e) k
  Keeps-of_end false t rest k more e = more e

  pub list_loop-Keeps :
      {g : GenIblt} (fuel : ℕ) {s s' : Listing}
      → Keeps g s
      → list_loop p fuel s ≡ ok s'
      → Keeps g s'
  list_loop-Keeps zero k e = unfold list_loop in cc
  list_loop-Keeps {g} (suc fuel) {s} {s'} k e =
      let (t, k', run, step) = list_loop_step {g = g} fuel {s = s} k in
      Keeps-of_end (0 == t.n_erased) t (list_loop p fuel t) k'
        (list_loop-Keeps {g = g} fuel {s = t} {s' = s'} k') (sym step ∙ e)
