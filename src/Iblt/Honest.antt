-- ===== src/Iblt/Honest.antt =====
-- Tables on which no check collides: a cell that looks pure holds a key that is left, and taking the
-- key out leaves one less.
use mathlib.Core.Path.{subst}
use gensync_core.Prelude.{
  ℕ, zero, suc, ◌+◌, ◌≡◌, refl, sym, ap, ap₂, ◌∙◌, Bool, true, ◌&&◌, ◌||◌, ◌==◌, not, if◌then◌else◌,
  List, [], ◌∷◌, ◌++◌, length, arith, Bool-cases, inl, inr,
}
use gensync_core.Prelude.Int.{ℤ, pos, negsuc, -ℤ◌, ◌==ℤ◌, ==ℤ_iff, ◌+ℤ◌}
use gensync_core.Prelude.Outcome.{ok, at_index, ok-injective}
use gensync_core.Platform.{Platform}
use gensync_core.Prelude.Bags.{AsOften, count, count-append}
use gensync_core.Prelude.Group.{zeros}
use gensync_core.Iblt.{HashTableEntry, GenIblt, Listing, hash_k, is_pure}
use gensync_core.Iblt.Sums.{entries}
use gensync_core.Iblt.Update.{added, added-opposite}
use gensync_core.Iblt.Subtract.{added_all}
use gensync_core.Iblt.Peel.{keys, added_all-added, listed, is_pure-count}
use gensync_core.Iblt.Sublists.{
  IsSub, IsSub-without, for_sublists, for_sublists_lem, mem, is_nil, mem-split, length-without,
}

module _ (p : Platform) where
  -- The table of `g` with the keys `ps` inserted and the keys `ns` erased.
  abbrev pub holding : GenIblt → List ℕ → List ℕ → GenIblt
  holding g ps ns = added_all p (added_all p g (pos 1) ps) (negsuc 0) ns

  -- The check of the cell is that of its key sum.
  abbrev fits : ℕ → HashTableEntry → Bool
  fits check e = e.key_check == hash_k p e.key_sum check

  -- A cell with a fitting check holds one of the inserted keys where its count is 1, and one of the
  -- erased keys where it is -1.
  abbrev honest_cell : ℕ → List ℕ → List ℕ → HashTableEntry → Bool
  honest_cell check ps ns e =
      (not (fits check e && e.count ==ℤ pos 1) || mem e.key_sum ps)
      && (not (fits check e && e.count ==ℤ negsuc 0) || mem e.key_sum ns)

  abbrev honest_cells : ℕ → List ℕ → List ℕ → List HashTableEntry → Bool
  honest_cells check ps ns [] = true
  honest_cells check ps ns (e ∷ es) = honest_cell check ps ns e && honest_cells check ps ns es

  -- No check collides: whichever of the keys are left, an honest cell holds one of them.
  abbrev pub honest : GenIblt → List ℕ → List ℕ → Bool
  honest g ps ns = for_sublists ps (λ ps'.
      for_sublists ns (λ ns'. honest_cells g.num_hash_check ps' ns' (holding g ps' ns').hash_table))

  abbrev blank_cells : List HashTableEntry → Bool
  blank_cells [] = true
  blank_cells (e ∷ es) =
      (e.count ==ℤ pos 0 && (e.key_sum == 0 && (e.key_check == 0 && e.value_sum == 0)))
      && blank_cells es

  -- No keys cancel: whichever of the keys are left, some cell is not blank.
  abbrev pub telling : GenIblt → List ℕ → List ℕ → Bool
  telling g ps ns = for_sublists ps (λ ps'.
      for_sublists ns
        (λ ns'. not (blank_cells (holding g ps' ns').hash_table) || (is_nil ps' && is_nil ns')))

  blank_cells-zeros : (n : ℕ) → blank_cells (zeros (entries p) n) ≡ true
  blank_cells-zeros zero = refl
  blank_cells-zeros (suc n) = rw (blank_cells-zeros n) refl

  honest_cell-mem :
      (check : ℕ) (ps ns : List ℕ) (e : HashTableEntry)
      → is_pure p check e ≡ true
      → honest_cell check ps ns e ≡ true
      → mem e.key_sum (if e.count ==ℤ pos 1 then ps else ns) ≡ true
  unfolding is_pure
  honest_cell-mem check ps ns e pure h = elim (Bool-cases (e.count ==ℤ pos 1)) [
    | inl one ↦ rw one (ground arith)
    | inr other ↦ rw other (ground arith)
  ]

  honest_at :
      (check : ℕ) (ps ns : List ℕ) (t : List HashTableEntry) (i : ℕ) {e : HashTableEntry}
      → honest_cells check ps ns t ≡ true
      → at_index t i ≡ ok e
      → honest_cell check ps ns e ≡ true
  unfolding at_index
  honest_at check ps ns [] i h f = cc
  honest_at check ps ns (x ∷ t) zero {e} h f =
      subst (λ a. honest_cell check ps ns a ≡ true) (ok-injective f) (ground arith)
  honest_at check ps ns (x ∷ t) (suc i) h f = honest_at check ps ns t i (ground arith) f

  pub added_all-middle :
      (g : GenIblt) (s : ℤ) (xs : List ℕ) (k : ℕ) (ys : List ℕ)
      → added_all p g s (xs ++ k ∷ ys) ≡ added p (added_all p g s (xs ++ ys)) s k
  added_all-middle g s [] k ys = added_all-added p g s s ys k
  added_all-middle g s (x ∷ xs) k ys = added_all-middle (added p g s x) s xs k ys

  -- Taking out a key that is there.
  positive_out :
      (g : GenIblt) (xs : List ℕ) (k : ℕ) (ys ns : List ℕ)
      → added p (holding g (xs ++ k ∷ ys) ns) (negsuc 0) k ≡ holding g (xs ++ ys) ns
  positive_out g xs k ys ns =
      ap (λ h. added p (added_all p h (negsuc 0) ns) (negsuc 0) k)
        (added_all-middle g (pos 1) xs k ys)
      ∙ ap (λ h. added p h (negsuc 0) k)
          (added_all-added p (added_all p g (pos 1) (xs ++ ys)) (negsuc 0) (pos 1) ns k)
      ∙ added-opposite p (holding g (xs ++ ys) ns) (pos 1) (negsuc 0) k (unfold ◌+ℤ◌ in refl)

  negative_out :
      (g : GenIblt) (ps xs : List ℕ) (k : ℕ) (ys : List ℕ)
      → added p (holding g ps (xs ++ k ∷ ys)) (pos 1) k ≡ holding g ps (xs ++ ys)
  negative_out g ps xs k ys =
      ap (λ h. added p h (pos 1) k) (added_all-middle (added_all p g (pos 1) ps) (negsuc 0) xs k ys)
      ∙ added-opposite p (holding g ps (xs ++ ys)) (negsuc 0) (pos 1) k (unfold ◌+ℤ◌ in refl)

  -- The keys that are left in a listing of `holding g ps ns`.
  pub record Left (g : GenIblt) (ps ns : List ℕ) (s : Listing) (n : ℕ) : Type 0 where
    pub ps' : List ℕ
    pub ns' : List ℕ
    pub sub_p : IsSub ps' ps
    pub sub_n : IsSub ns' ns
    pub table : s.iblt ≡ holding g ps' ns'
    pub number : length ps' + length ns' ≡ n
    pub bag_p : AsOften (keys s.positive ++ ps') ps
    pub bag_n : AsOften (keys s.negative ++ ns') ns

  -- Where the table is blank, no key is left.
  pub Left-none :
      {g : GenIblt} {ps ns : List ℕ} {s : Listing} {n : ℕ} (size : ℕ)
      → telling g ps ns ≡ true
      → (l : Left g ps ns s n) → s.iblt.hash_table ≡ zeros (entries p) size
      → (l.ps' ≡ []) × (l.ns' ≡ [])
  Left-none size h l e =
      let blanks =
        ap blank_cells (sym (ap (λ t. t.hash_table) l.table) ∙ e) ∙ blank_cells-zeros size in
      none_left l.ps' l.ns' _ blanks (for_sublists_lem _ l.sub_n (for_sublists_lem _ l.sub_p h))
    where
      none_left :
          (ps ns : List ℕ) (b : Bool)
          → b ≡ true
          → (not b || (is_nil ps && is_nil ns)) ≡ true
          → (ps ≡ []) × (ns ≡ [])
      none_left [] [] b e h = (refl, refl)
      none_left [] (x ∷ ns) b e h = absurd (ground arith)
      none_left (x ∷ ps) ns b e h = absurd (ground arith)

  count-keys_snoc :
      (v : ℕ) (l : List (ℕ × ℕ)) (k w : ℕ)
      → count v (keys (l ++ (k, w) ∷ [])) ≡ count v (keys l) + count v (k ∷ [])
  count-keys_snoc v [] k w = omega arith
  count-keys_snoc v (x ∷ l) k w = omega (arith, count-keys_snoc v l k w)

  -- A key that is listed is no longer left.
  moved :
      (l : List (ℕ × ℕ)) (k w : ℕ) (xs ys all : List ℕ) {left : List ℕ}
      → left ≡ xs ++ k ∷ ys
      → AsOften (keys l ++ left) all
      → AsOften (keys (l ++ (k, w) ∷ []) ++ (xs ++ ys)) all
  moved l k w xs ys all {left} e h v = omega (
    arith,
    h v,
    ap (count v) e,
    count-keys_snoc v l k w,
    count-append v (keys l) left,
    count-append v (keys (l ++ (k, w) ∷ [])) (xs ++ ys),
    count-append v xs ys,
    count-append v xs (k ∷ ys),
  )

  added_all-check :
      (g : GenIblt) (s : ℤ) (ks : List ℕ) → (added_all p g s ks).num_hash_check ≡ g.num_hash_check
  added_all-check g s [] = refl
  added_all-check g s (k ∷ ks) = added_all-check (added p g s k) s ks

  -- Peeling an honest cell leaves one key less.
  pub listed-Left :
      {g : GenIblt} {ps ns : List ℕ} {s : Listing} {n : ℕ} (i : ℕ) {e : HashTableEntry}
      → honest g ps ns ≡ true
      → Left g ps ns s n
      → at_index s.iblt.hash_table i ≡ ok e
      → is_pure p s.iblt.num_hash_check e ≡ true
      → (m : ℕ) × (suc m ≡ n) × Left g ps ns (listed p s e) m
  listed-Left {g} {ps} {ns} {s} {n} i {e} h l here pure =
      let check : s.iblt.num_hash_check ≡ g.num_hash_check =
        ap (λ t. t.num_hash_check) l.table
        ∙ added_all-check (added_all p g (pos 1) l.ps') (negsuc 0) l.ns'
        ∙ added_all-check g (pos 1) l.ps' in
      let cells : honest_cells g.num_hash_check l.ps' l.ns' s.iblt.hash_table ≡ true =
        ap (λ t. honest_cells g.num_hash_check l.ps' l.ns' t.hash_table) l.table
        ∙ for_sublists_lem _ l.sub_n (for_sublists_lem _ l.sub_p h) in
      let cell = honest_at g.num_hash_check l.ps' l.ns' s.iblt.hash_table i cells here in
      let is = subst (λ c. is_pure p c e ≡ true) check pure in
      let found = honest_cell-mem g.num_hash_check l.ps' l.ns' e is cell in
      elim (Bool-cases (e.count ==ℤ pos 1)) [
        | inl one ↦
            let there : mem e.key_sum l.ps' ≡ true =
              ap (λ b. mem e.key_sum (if b then l.ps' else l.ns')) (sym one) ∙ found in
            let (xs, ys, split) = mem-split e.key_sum l.ps' there in
            let left = length (xs ++ ys) + length l.ns' in
            (
              left,
              count_left l.ps' l.ns' (length-without xs e.key_sum ys) split l.number,
              rw one (record {
                ps' = xs ++ ys;
                ns' = l.ns';
                sub_p = IsSub-without xs e.key_sum ys l.sub_p split;
                sub_n = l.sub_n;
                table =
                    ap₂ (λ h c. added p h (-ℤ◌ c) e.key_sum)
                      (l.table ∙ ap (λ t. holding g t l.ns') split)
                      ((==ℤ_iff e.count (pos 1)).0 one)
                    ∙ unfold -ℤ◌ in positive_out g xs e.key_sum ys l.ns';
                number = refl;
                bag_p = moved s.positive e.key_sum e.value_sum xs ys ps split l.bag_p;
                bag_n = l.bag_n;
              }),
            )
        | inr other ↦
            let there : mem e.key_sum l.ns' ≡ true =
              ap (λ b. mem e.key_sum (if b then l.ps' else l.ns')) (sym other) ∙ found in
            let (xs, ys, split) = mem-split e.key_sum l.ns' there in
            let left = length l.ps' + length (xs ++ ys) in
            (
              left,
              count_right l.ps' l.ns' (length-without xs e.key_sum ys) split l.number,
              rw other (record {
                ps' = l.ps';
                ns' = xs ++ ys;
                sub_p = l.sub_p;
                sub_n = IsSub-without xs e.key_sum ys l.sub_n split;
                table =
                    ap₂ (λ h c. added p h (-ℤ◌ c) e.key_sum)
                      (l.table ∙ ap (λ t. holding g l.ps' t) split)
                      (is_pure-count p s.iblt.num_hash_check e pure other)
                    ∙ unfold -ℤ◌ in negative_out g l.ps' xs e.key_sum ys;
                number = refl;
                bag_p = l.bag_p;
                bag_n = moved s.negative e.key_sum e.value_sum xs ys ns split l.bag_n;
              }),
            )
      ]
    where
      count_left :
          {n m : ℕ} (ps ns : List ℕ) {qs : List ℕ}
          → length qs ≡ suc m
          → ps ≡ qs
          → length ps + length ns ≡ n
          → suc (m + length ns) ≡ n
      count_left ps ns h split e = omega (arith, ap length split)

      count_right :
          {n m : ℕ} (ps ns : List ℕ) {qs : List ℕ}
          → length qs ≡ suc m
          → ns ≡ qs
          → length ps + length ns ≡ n
          → suc (length ps + m) ≡ n
      count_right ps ns h split e = omega (arith, ap length split)

  pub n_erased-listed :
      (s : Listing) (e : HashTableEntry) → (listed p s e).n_erased ≡ s.n_erased + 1
  n_erased-listed s e = elim (Bool-cases (e.count ==ℤ pos 1)) [
    | inl one ↦ rw one refl
    | inr other ↦ rw other refl
  ]
