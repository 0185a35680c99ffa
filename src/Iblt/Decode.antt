-- ===== src/Iblt/Decode.antt =====
-- `listEntries` as a whole: it loses nothing, and an answer of true decodes the table.
use gensync_core.Prelude.{
  ℕ, ◌≡◌, refl, sym, ap, ap₂, ◌∙◌, List, [], ◌∷◌, All, length, arith, Bool, true,
}
use gensync_core.Prelude.Int.{ℤ, pos, negsuc, ==ℤ_iff}
use gensync_core.Prelude.Group.{zeros}
use gensync_core.Prelude.Outcome.{ok-injective, ok, ◌>>=◌, >>=-eq-ok}
use gensync_core.Platform.{Platform}
use gensync_core.Iblt.{
  HashTableEntry, GenIblt, Listing, blank, empty, size, list_loop, all_empty, list_entries,
}
use gensync_core.Iblt.Sums.{IsMirrored, entries}
use gensync_core.Iblt.Update.{IsReady, added, size-added}
use gensync_core.Iblt.Subtract.{update_all, added_all, update_all-added_all, added_all-IsReady}
use gensync_core.Iblt.Peel.{keys, AreMirrored, Keeps, list_loop-Keeps}

module _ (p : Platform) where
  -- The start of a listing of `g`, with nothing listed.
  abbrev pub start : GenIblt → Listing
  start g = record { iblt = g; positive = []; negative = []; n_erased = 0 }

  pub start-Keeps : {g : GenIblt} → IsReady p g → Keeps p g (start g)
  start-Keeps r = record { ready = r; whole = refl; positive_pairs = tt; negative_pairs = tt }

  -- The loop that was left, behind the answer of `listEntries`.
  pub list_entries-loop :
      (g : GenIblt) (fuel : ℕ) {answer : Bool} {s' : Listing}
      → list_entries p fuel (start g) ≡ ok (answer, s')
      → (list_loop p fuel (start g) ≡ ok s') × (all_empty s'.iblt.hash_table ≡ answer)
  unfolding list_entries
  list_entries-loop g fuel e =
      let (t, end, run) = >>=-eq-ok (list_loop p fuel (start g)) _ e in
      let pair = ok-injective end in
      (
        run ∙ ap (λ a. ok a.1) pair,
        ap (λ a. all_empty a.1.iblt.hash_table) (sym pair) ∙ ap (λ a. a.0) pair,
      )

  blank_path : (e : HashTableEntry) → IsMirrored e → empty e ≡ true → e ≡ blank
  unfolding empty
  blank_path e m h = ground (arith, ==ℤ_iff e.count (pos 0))

  pub all_empty-blank :
      (t : List HashTableEntry)
      → All IsMirrored t
      → all_empty t ≡ true
      → t ≡ zeros (entries p) (length t)
  unfolding all_empty
  all_empty-blank [] m h = refl
  all_empty-blank (e ∷ t) m h =
      ap₂ ◌∷◌ (blank_path e m.0 (ground arith)) (all_empty-blank t m.1 (ground arith))

  -- The table with every cell blank.
  abbrev pub cleared : GenIblt → GenIblt
  cleared g = record g { hash_table = zeros (entries p) (size g) }

  cleared-added_all :
      (g : GenIblt) (sign : ℤ) (ks : List ℕ) → cleared (added_all p g sign ks) ≡ cleared g
  cleared-added_all g sign [] = refl
  cleared-added_all g sign (k ∷ ks) =
      cleared-added_all (added p g sign k) sign ks
      ∙ ap (λ n. record g { hash_table = zeros (entries p) n }) (size-added p g sign k)

  update_all-restored :
      {g : GenIblt} {s : Listing}
      → Keeps p g s
      → (update_all p (pos 1) (keys s.positive) s.iblt
          >>= update_all p (negsuc 0) (keys s.negative))
        ≡ ok g
  update_all-restored {s = s} k = rw (update_all-added_all p (pos 1) (keys s.positive) k.ready) (
      update_all-added_all p (negsuc 0) (keys s.negative)
        (added_all-IsReady p (pos 1) (keys s.positive) k.ready)
      ∙ ap ok k.whole)

  -- A listing that ends, whatever its answer, loses nothing: inserting the positive keys into the
  -- table that it leaves and erasing the negative ones gives the table that it was called on. In
  -- every listed pair the value is the key.
  pub list_entries-restores :
      {g : GenIblt} (fuel : ℕ) {answer : Bool} {s : Listing}
      → IsReady p g
      → list_entries p fuel (start g) ≡ ok (answer, s)
      → ((update_all p (pos 1) (keys s.positive) s.iblt
            >>= update_all p (negsuc 0) (keys s.negative))
          ≡ ok g)
        × AreMirrored s.positive
        × AreMirrored s.negative
  list_entries-restores {g} fuel {s = s} r e =
      let k =
        list_loop-Keeps p {g = g} fuel {s = start g} {s' = s} (start-Keeps r)
          (list_entries-loop g fuel e).0 in
      (update_all-restored k, k.positive_pairs, k.negative_pairs)

  pub list_entries-cleared :
      {g : GenIblt} (fuel : ℕ) {s : Listing}
      → IsReady p g
      → list_entries p fuel (start g) ≡ ok (true, s)
      → s.iblt ≡ cleared g
  list_entries-cleared {g} fuel {s} r e =
      let (run, all) = list_entries-loop g fuel e in
      let k = list_loop-Keeps p {g = g} fuel {s = start g} {s' = s} (start-Keeps r) run in
      let middle = added_all p s.iblt (pos 1) (keys s.positive) in
      ap (λ t. record s.iblt { hash_table = t })
        (all_empty-blank s.iblt.hash_table k.ready.mirrored all)
      ∙ sym (cleared-added_all s.iblt (pos 1) (keys s.positive))
      ∙ sym (cleared-added_all middle (negsuc 0) (keys s.negative))
      ∙ ap cleared k.whole

  -- A listing that answers true decodes the whole table: inserting its positive keys into the blank
  -- table and erasing its negative keys gives the table that it was called on, cell for cell.
  pub list_entries-decodes :
      {g : GenIblt} (fuel : ℕ) {s : Listing}
      → IsReady p g
      → list_entries p fuel (start g) ≡ ok (true, s)
      → (update_all p (pos 1) (keys s.positive) (cleared g)
          >>= update_all p (negsuc 0) (keys s.negative))
        ≡ ok g
  list_entries-decodes {g} fuel {s} r e =
      ap
        (λ h.
          update_all p (pos 1) (keys s.positive) h >>= update_all p (negsuc 0) (keys s.negative))
        (sym (list_entries-cleared {g = g} fuel r e))
      ∙ (list_entries-restores {g = g} fuel r e).0
