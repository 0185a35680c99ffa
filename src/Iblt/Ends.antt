-- ===== src/Iblt/Ends.antt =====
-- When `listEntries` ends: each round that erases anything leaves fewer keys.
use mathlib.Core.Path.{subst}
use gensync_core.Prelude.{
  ℕ, zero, suc, ◌+◌, ◌≤◌, ◌<◌, ◌≡◌, refl, sym, ◌∙◌, Bool, true, false, ◌==◌, List, length, arith,
  Bool-cases, inl, inr,
}
use gensync_core.Prelude.Int.{pos, negsuc}
use gensync_core.Prelude.Outcome.{Outcome, ok, ◌>>=◌, at_index-lt, ok-injective}
use gensync_core.Platform.{Platform}
use gensync_core.Iblt.{
  GenIblt, Listing, size, is_pure, list_cell, list_pass, list_loop, all_empty, list_entries,
}
use gensync_core.Iblt.Update.{IsReady}
use gensync_core.Iblt.Subtract.{update_all, update_all-added_all, added_all-IsReady}
use gensync_core.Iblt.Peel.{
  Keeps, listed, list_cell-listed, listed-Keeps, size-listed, at_index-IsMirrored,
}
use gensync_core.Iblt.Decode.{start, start-Keeps}
use gensync_core.Iblt.Sublists.{IsSub-refl}
use gensync_core.Iblt.Honest.{holding, honest, Left, listed-Left, n_erased-listed}

module _ (p : Platform) where
  -- A run of a part of the listing: as many keys are gone as were erased.
  abbrev Shrinks : GenIblt → GenIblt → List ℕ → List ℕ → Listing → ℕ → Outcome Listing → Type 0
  Shrinks d g ps ns s n run =
      (s' : Listing) × (m : ℕ) × (run ≡ ok s')
      × Keeps p d s'
      × (size s'.iblt ≡ size s.iblt)
      × Left p g ps ns s' m
      × (s'.n_erased + m ≡ s.n_erased + n)

  list_cell-Shrinks :
      {d g : GenIblt} {ps ns : List ℕ} {s : Listing} {n : ℕ} (i : ℕ)
      → honest p g ps ns ≡ true
      → Keeps p d s
      → Left p g ps ns s n
      → i < size s.iblt
      → Shrinks d g ps ns s n (list_cell p i s)
  list_cell-Shrinks {s = s} {n} i h k l lt =
      let (e, here) = at_index-lt s.iblt.hash_table i lt in
      elim (Bool-cases (is_pure p s.iblt.num_hash_check e)) [
        | inl pure ↦
            let (m, less, l') = listed-Left p i {e = e} h l here pure in
            (
              listed p s e,
              m,
              list_cell-listed p i k here ∙ rw pure,
              listed-Keeps p e k (at_index-IsMirrored p s.iblt.hash_table i k.ready.mirrored here)
                  pure,
              size-listed p s e,
              l',
              omega (arith, n_erased-listed p s e),
            )
        | inr mixed ↦ (s, n, list_cell-listed p i k here ∙ rw mixed, k, refl, l, refl)
      ]

  list_pass-Shrinks :
      {d g : GenIblt} {ps ns : List ℕ} {s : Listing} {n : ℕ} (c i : ℕ)
      → honest p g ps ns ≡ true
      → Keeps p d s
      → Left p g ps ns s n
      → i + c ≤ size s.iblt
      → Shrinks d g ps ns s n (list_pass p c i s)
  unfolding list_pass
  list_pass-Shrinks {s = s} {n} zero i h k l fits = (s, n, refl, k, refl, l, refl)
  list_pass-Shrinks {d} {g} {ps} {ns} {s} {n} (suc c) i h k l fits =
      let (s', m, run, k', w, l', e) =
        list_cell-Shrinks {d = d} {g = g} {ps = ps} {ns = ns} {s = s} {n = n} i h k l
          (omega arith) in
      let (s'', m', run', k'', w', l'', e') =
        list_pass-Shrinks {d = d} {g = g} {ps = ps} {ns = ns} {s = s'} {n = m} c (i + 1) h k' l'
          (omega arith) in
      (s'', m', rw run run', k'', w' ∙ w, l'', e' ∙ e)

  -- The outer loop ends once it has had a round for every key, and one more.
  list_loop-ends :
      {d g : GenIblt} {ps ns : List ℕ} {s : Listing} (fuel n : ℕ)
      → honest p g ps ns ≡ true
      → Keeps p d s
      → Left p g ps ns s n
      → n < fuel
      → (s' : Listing) × (m : ℕ) × (list_loop p fuel s ≡ ok s') × Keeps p d s' × Left p g ps ns s' m
  unfolding list_loop
  list_loop-ends zero n h k l few = absurd (omega arith)
  list_loop-ends {d} {g} {ps} {ns} {s} (suc fuel) n h k l few =
      let s₀ : Listing = record s { n_erased = 0 } in
      let k₀ : Keeps p d s₀ = record {
        ready = k.ready;
        whole = k.whole;
        positive_pairs = k.positive_pairs;
        negative_pairs = k.negative_pairs;
      } in
      let l₀ : Left p g ps ns s₀ n = record {
        ps' = l.ps';
        ns' = l.ns';
        sub_p = l.sub_p;
        sub_n = l.sub_n;
        table = l.table;
        number = l.number;
        bag_p = l.bag_p;
        bag_n = l.bag_n;
      } in
      let (t, m, run, k', w, l', e) =
        list_pass-Shrinks {d = d} {g = g} {ps = ps} {ns = ns} {s = s₀} {n = n} (size s.iblt) 0 h k₀
          l₀ (omega arith) in
      elim (Bool-cases (0 == t.n_erased)) [
        | inl none_left ↦ (t, m, rw (run, none_left) refl, k', l')
        | inr some_left ↦
            let (s', m', rest, k'', l'') =
              list_loop-ends {d = d} {g = g} {ps = ps} {ns = ns} {s = t} fuel m h k' l'
                (fewer t.n_erased m some_left e) in
            (s', m', rw (run, some_left) rest, k'', l'')
      ]
    where
      fewer : (c m : ℕ) → (0 == c) ≡ false → c + m ≡ 0 + n → m < fuel
      fewer c m h e = ground arith

  -- What a listing leaves of a list of inserted and a list of erased keys, where no check collides.
  pub list_entries-Left :
      {g d : GenIblt} (ps ns : List ℕ) (fuel : ℕ)
      → IsReady p g
      → honest p g ps ns ≡ true
      → (update_all p (pos 1) ps g >>= update_all p (negsuc 0) ns) ≡ ok d
      → length ps + length ns < fuel
      → (s : Listing) × (m : ℕ) × (list_entries p fuel (start p d)
          ≡ ok (all_empty s.iblt.hash_table, s))
        × Keeps p d s
        × Left p g ps ns s m
  unfolding list_entries
  list_entries-Left {g} {d} ps ns fuel r h made few =
      let made' : (update_all p (pos 1) ps g >>= update_all p (negsuc 0) ns)
          ≡ ok (holding p g ps ns) =
        rw (update_all-added_all p (pos 1) ps r)
          (update_all-added_all p (negsuc 0) ns (added_all-IsReady p (pos 1) ps r)) in
      let same : holding p g ps ns ≡ d = ok-injective (sym made' ∙ made) in
      let ready =
        subst (IsReady p) same
          (added_all-IsReady p (negsuc 0) ns (added_all-IsReady p (pos 1) ps r)) in
      let l : Left p g ps ns (start p d) (length ps + length ns) = record {
        ps' = ps;
        ns' = ns;
        sub_p = IsSub-refl ps;
        sub_n = IsSub-refl ns;
        table = sym same;
        number = refl;
        bag_p = λ v. refl;
        bag_n = λ v. refl;
      } in
      let (s, m, run, k, l') =
        list_loop-ends {d = d} {g = g} {ps = ps} {ns = ns} {s = start p d} fuel
          (length ps + length ns) h (start-Keeps p ready) l few in
      (s, m, rw run refl, k, l')

  -- `listEntries` ends on the table of a list of inserted and a list of erased keys where no check
  -- collides: one round for each key and one more are enough. The table that the keys were put into
  -- is ready for updates.
  pub list_entries_ends :
      {g d : GenIblt} (ps ns : List ℕ) (fuel : ℕ)
      → IsReady p g
      → honest p g ps ns ≡ true
      → (update_all p (pos 1) ps g >>= update_all p (negsuc 0) ns) ≡ ok d
      → length ps + length ns < fuel
      → (answer : Bool) × (s : Listing) × (list_entries p fuel (start p d) ≡ ok (answer, s))
  list_entries_ends {g} {d} ps ns fuel r h made few =
      let (s, m, run, k, l) = list_entries-Left {g = g} {d = d} ps ns fuel r h made few in
      (all_empty s.iblt.hash_table, s, run)
