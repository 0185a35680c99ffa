-- ===== src/MetIblt/Tables.antt =====
-- Every table of a rateless table encodes the same keys.
use gensync_core.Prelude.{ℕ, ◌≡◌, refl, sym, ap, ◌∙◌, List, [], ◌∷◌, ◌++◌, All, replicate}
use mathlib.Core.Path.{subst}
use gensync_core.Prelude.Int.{pos, negsuc, ◌+ℤ◌}
use gensync_core.Prelude.Outcome.{ok, ok-injective}
use gensync_core.Platform.{Platform}
use gensync_core.Iblt.{GenIblt, blank, size, insert, erase}
use gensync_core.Iblt.Update.{IsReady, added, added_comm, added-opposite, insert_signed-added}
use gensync_core.Iblt.Subtract.{update_all, added_all, update_all-added_all, added_all-IsReady}
use gensync_core.MetIblt.{MetIblt, insert_tables, insert_all, erase_tables, erase_all}

module _ (p : Platform) where
  -- The table that `insert` of these keys, in their order, makes of a blank one of the same shape.
  pub record Encodes (ks : List ℕ) (t : GenIblt) : Type 0 where
    pub base : GenIblt
    pub ready : IsReady p base
    pub is_blank : base.hash_table ≡ replicate (size base) blank
    pub whole : update_all p (pos 1) ks base ≡ ok t

  -- The same by the sums of footprints.
  pub Encodes-added_all :
      {ks : List ℕ} {t : GenIblt} (h : Encodes ks t) → t ≡ added_all p h.base (pos 1) ks
  Encodes-added_all {ks} h = ok-injective (sym h.whole ∙ update_all-added_all p (pos 1) ks h.ready)

  pub encode :
      (ks : List ℕ) (base : GenIblt) {t : GenIblt}
      → IsReady p base
      → base.hash_table ≡ replicate (size base) blank
      → t ≡ added_all p base (pos 1) ks
      → Encodes ks t
  encode ks base r b e = record {
    base = base;
    ready = r;
    is_blank = b;
    whole = update_all-added_all p (pos 1) ks r ∙ ap ok (sym e);
  }

  pub Encodes-IsReady : (ks : List ℕ) (t : GenIblt) → Encodes ks t → IsReady p t
  Encodes-IsReady ks t h =
      subst (IsReady p) (sym (Encodes-added_all h)) (added_all-IsReady p (pos 1) ks h.ready)

  added_all-last :
      (g : GenIblt) (ks : List ℕ) (k : ℕ)
      → added_all p g (pos 1) (ks ++ k ∷ []) ≡ added p (added_all p g (pos 1) ks) (pos 1) k
  added_all-last g [] k = refl
  added_all-last g (j ∷ ks) k = added_all-last (added p g (pos 1) j) ks k

  -- A key may be added last, wherever it stands.
  added_all-middle :
      (g : GenIblt) (xs ys : List ℕ) (k : ℕ)
      → added_all p g (pos 1) (xs ++ k ∷ ys) ≡ added p (added_all p g (pos 1) (xs ++ ys)) (pos 1) k
  added_all-middle g [] [] k = refl
  added_all-middle g [] (y ∷ ys) k =
      ap (λ h. added_all p h (pos 1) ys) (added_comm p g (pos 1) (pos 1) k y)
      ∙ added_all-middle (added p g (pos 1) y) [] ys k
  added_all-middle g (x ∷ xs) ys k = added_all-middle (added p g (pos 1) x) xs ys k

  pub insert-Encodes :
      (ks : List ℕ) (k : ℕ) (t : GenIblt)
      → Encodes ks t
      → (t' : GenIblt) × (insert p k k t ≡ ok t') × Encodes (ks ++ k ∷ []) t'
  unfolding insert
  insert-Encodes ks k t h = (
    added p t (pos 1) k,
    insert_signed-added p (pos 1) k (Encodes-IsReady ks t h),
    encode (ks ++ k ∷ []) h.base h.ready h.is_blank
        (ap (λ u. added p u (pos 1) k) (Encodes-added_all h) ∙ sym (added_all-last h.base ks k)),
  )

  pub erase-Encodes :
      (xs ys : List ℕ) (k : ℕ) (t : GenIblt)
      → Encodes (xs ++ k ∷ ys) t
      → (t' : GenIblt) × (erase p k k t ≡ ok t') × Encodes (xs ++ ys) t'
  unfolding erase
  erase-Encodes xs ys k t h =
      let rest = added_all p h.base (pos 1) (xs ++ ys) in
      let before : t ≡ added p rest (pos 1) k =
        Encodes-added_all h ∙ added_all-middle h.base xs ys k in
      (
        added p t (negsuc 0) k,
        insert_signed-added p (negsuc 0) k (Encodes-IsReady (xs ++ k ∷ ys) t h),
        encode (xs ++ ys) h.base h.ready h.is_blank (
            ap (λ u. added p u (negsuc 0) k) before
            ∙ added-opposite p rest (pos 1) (negsuc 0) k (unfold ◌+ℤ◌ in refl)),
      )

  added_all-append :
      (g : GenIblt) (xs ys : List ℕ)
      → added_all p g (pos 1) (xs ++ ys) ≡ added_all p (added_all p g (pos 1) xs) (pos 1) ys
  added_all-append g [] ys = refl
  added_all-append g (x ∷ xs) ys = added_all-append (added p g (pos 1) x) xs ys

  pub added_all-Encodes :
      (xs ys : List ℕ) (t : GenIblt) → Encodes xs t → Encodes (xs ++ ys) (added_all p t (pos 1) ys)
  added_all-Encodes xs ys t h = encode (xs ++ ys) h.base h.ready h.is_blank (
      ap (λ u. added_all p u (pos 1) ys) (Encodes-added_all h)
      ∙ sym (added_all-append h.base xs ys))

  -- Every table encodes the keys.
  abbrev pub AllEncode : List ℕ → MetIblt → Type 0
  AllEncode ks m = All (Encodes ks) m.tables

  insert_tables-Encodes :
      (ks : List ℕ) (k : ℕ) (ts : List GenIblt)
      → All (Encodes ks) ts
      → (ts' : List GenIblt) × (insert_tables p k ts ≡ ok ts') × All (Encodes (ks ++ k ∷ [])) ts'
  unfolding insert_tables
  insert_tables-Encodes ks k [] h = ([], refl, tt)
  insert_tables-Encodes ks k (t ∷ ts) h =
      let (t', run, here) = insert-Encodes ks k t h.0 in
      let (ts', runs, rest) = insert_tables-Encodes ks k ts h.1 in
      (t' ∷ ts', rw (run, runs) refl, (here, rest))

  pub insert_all-AllEncode :
      (ks : List ℕ) (k : ℕ) (m : MetIblt)
      → AllEncode ks m
      → (m' : MetIblt) × (insert_all p k m ≡ ok m') × AllEncode (ks ++ k ∷ []) m'
  unfolding insert_all
  insert_all-AllEncode ks k m h =
      let (ts, runs, all) = insert_tables-Encodes ks k m.tables h in
      (record m { tables = ts }, rw runs refl, all)

  erase_tables-Encodes :
      (xs ys : List ℕ) (k : ℕ) (ts : List GenIblt)
      → All (Encodes (xs ++ k ∷ ys)) ts
      → (ts' : List GenIblt) × (erase_tables p k ts ≡ ok ts') × All (Encodes (xs ++ ys)) ts'
  unfolding erase_tables
  erase_tables-Encodes xs ys k [] h = ([], refl, tt)
  erase_tables-Encodes xs ys k (t ∷ ts) h =
      let (t', run, here) = erase-Encodes xs ys k t h.0 in
      let (ts', runs, rest) = erase_tables-Encodes xs ys k ts h.1 in
      (t' ∷ ts', rw (run, runs) refl, (here, rest))

  pub erase_all-AllEncode :
      (xs ys : List ℕ) (k : ℕ) (m : MetIblt)
      → AllEncode (xs ++ k ∷ ys) m
      → (m' : MetIblt) × (erase_all p k m ≡ ok m') × AllEncode (xs ++ ys) m'
  unfolding erase_all
  erase_all-AllEncode xs ys k m h =
      let (ts, runs, all) = erase_tables-Encodes xs ys k m.tables h in
      (record m { tables = ts }, rw runs refl, all)
