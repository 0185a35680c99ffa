-- ===== src/Iblt/Tests.antt =====
-- Runs of the table, and its theorems at concrete inputs.
use gensync_core.Prelude.{◌≡◌, refl, arith, [], ◌∷◌, true, none, some, ◌/◌, Bool, ◌⊎◌}
use gensync_core.Prelude.Int.{pos, negsuc, ◌+ℤ◌, ◌-ℤ◌, -ℤ◌}
use gensync_core.Prelude.Outcome.{Outcome, ok, stop, ◌>>=◌, div, rem, modify_at}
use gensync_core.Platform.{sample_platform}
use gensync_core.Iblt.{
  GenIblt, Listing, hashes_for, size, blank, new, empty, hash_k, bump, insert_signed, insert, erase,
  is_pure, subtract, sub_entry, list_entries,
}
use gensync_core.Iblt.Sums.{add_entry}
use gensync_core.Iblt.Update.{IsReady, footprint, erase-insert, insert_signed_comm}
use gensync_core.Iblt.Subtract.{update_all, subtract-common}
use gensync_core.Iblt.Peel.{AreMirrored}
use gensync_core.Iblt.Decode.{start, cleared, list_entries-restores, list_entries-decodes}
use gensync_core.Iblt.Honest.{honest, telling}
use gensync_core.Iblt.Get.{found, get, get_scan, get_loop}
use gensync_core.Iblt.Inserted.{IsCounted, TakesAll, insert_pairs, get-insert_pairs}
use gensync_core.Iblt.Ends.{list_entries_ends}
use gensync_core.Iblt.Reconcile.{Reconciles, reconcile}

program : Unit {0}
unfolding new empty hash_k bump insert_signed insert erase is_pure subtract sub_entry list_entries
    update_all div rem modify_at ◌+ℤ◌ ◌-ℤ◌ -ℤ◌
program = tt

abbrev small : GenIblt
small = record {
  num_hashes = 2;
  calc_num_hashes = none;
  num_hash_check = 11;
  hash_table = blank ∷ blank ∷ blank ∷ blank ∷ blank ∷ blank ∷ blank ∷ blank ∷ [];
  value_size = 8;
}

small-IsReady : IsReady sample_platform small
small-IsReady = record {
  hashed = λ k. omega arith;
  roomy = λ k. omega arith;
  sized = refl;
  mirrored = omega arith;
}

erase-insert_example :
    (insert sample_platform 42 42 small >>= erase sample_platform 42 42) ≡ ok small
erase-insert_example = erase-insert sample_platform 42 small-IsReady

insert_signed_comm_example :
    (insert_signed sample_platform (pos 1) 7 7 small
      >>= insert_signed sample_platform (negsuc 0) 9 9)
    ≡ (insert_signed sample_platform (negsuc 0) 9 9 small
        >>= insert_signed sample_platform (pos 1) 7 7)
insert_signed_comm_example = insert_signed_comm sample_platform (pos 1) (negsuc 0) 7 9 small-IsReady

subtract-common_example :
    (update_all sample_platform (pos 1) (1 ∷ 2 ∷ 5 ∷ []) small >>= λ a.
    update_all sample_platform (pos 1) (1 ∷ 2 ∷ 9 ∷ []) small >>= subtract sample_platform a)
    ≡ (update_all sample_platform (pos 1) (5 ∷ []) small >>= λ a.
        update_all sample_platform (pos 1) (9 ∷ []) small >>= subtract sample_platform a)
subtract-common_example =
    subtract-common sample_platform (pos 1) (1 ∷ 2 ∷ []) (5 ∷ []) (9 ∷ []) small-IsReady

-- The value of a run that ends well.
value : {A : Type 0} → A → Outcome A → A
value d (ok a) = a
value d (stop s) = d

abbrev gap_run : Outcome GenIblt
gap_run = update_all sample_platform (pos 1) (1 ∷ 5 ∷ []) small >>= λ a.
    update_all sample_platform (pos 1) (1 ∷ 8 ∷ []) small >>= subtract sample_platform a

gap : GenIblt
unfolding program value
gap = value small gap_run

gap_run-gap : gap_run ≡ ok gap
unfolding gap
gap_run-gap = refl

abbrev decoded : Listing
decoded = record { iblt = small; positive = (5, 5) ∷ []; negative = (8, 8) ∷ []; n_erased = 0 }

gap-decoded : list_entries sample_platform 9 (start sample_platform gap) ≡ ok (true, decoded)
unfolding gap
gap-decoded = refl

gap-IsReady : IsReady sample_platform gap
unfolding gap
gap-IsReady = record {
  hashed = λ k. omega arith;
  roomy = λ k. omega arith;
  sized = refl;
  mirrored = omega arith;
}

list_entries-restores_example :
    ((update_all sample_platform (pos 1) (5 ∷ []) small
        >>= update_all sample_platform (negsuc 0) (8 ∷ []))
      ≡ ok gap)
    × AreMirrored decoded.positive
    × AreMirrored decoded.negative
list_entries-restores_example = list_entries-restores sample_platform 9 gap-IsReady gap-decoded

list_entries-decodes_example :
    (update_all sample_platform (pos 1) (5 ∷ []) (cleared sample_platform gap)
      >>= update_all sample_platform (negsuc 0) (8 ∷ []))
    ≡ ok gap
list_entries-decodes_example = list_entries-decodes sample_platform 9 gap-IsReady gap-decoded

small-honest : honest sample_platform small (5 ∷ []) (8 ∷ []) ≡ true
unfolding program footprint add_entry
small-honest = refl

gap-made :
    (update_all sample_platform (pos 1) (5 ∷ []) small
      >>= update_all sample_platform (negsuc 0) (8 ∷ []))
    ≡ ok gap
unfolding gap
gap-made = refl

list_entries_ends_example :
    (answer : Bool) × (s : Listing) × (list_entries sample_platform 3 (start sample_platform gap)
      ≡ ok (answer, s))
list_entries_ends_example =
    list_entries_ends sample_platform (5 ∷ []) (8 ∷ []) 3 small-IsReady small-honest gap-made
      (omega arith)

small-telling : telling sample_platform small (5 ∷ []) (8 ∷ []) ≡ true
unfolding program footprint add_entry
small-telling = refl

reconcile_example :
    (answer : Bool) × (s : Listing) × (list_entries sample_platform 3 (start sample_platform gap)
      ≡ ok (answer, s))
    × Reconciles (1 ∷ 5 ∷ []) (1 ∷ 8 ∷ []) (5 ∷ []) (8 ∷ []) answer s
reconcile_example =
    reconcile sample_platform (1 ∷ 5 ∷ []) (1 ∷ 8 ∷ []) (1 ∷ []) (5 ∷ []) (8 ∷ []) 3 small-IsReady
      (λ v. refl) (λ v. refl) small-honest small-telling gap_run-gap (omega arith)

small-TakesAll : TakesAll sample_platform small
small-TakesAll =
    let new : IsCounted blank = record {
      insertions = 0;
      counted = refl;
      none_yet = λ z. (refl, refl);
    } in
    record {
      hashed = λ k. omega arith;
      roomy = λ k. omega arith;
      sized = refl;
      counted = (new, (new, (new, (new, (new, (new, (new, (new, tt))))))));
    }

get-insert_pairs_example :
    (g : GenIblt) × (insert_pairs sample_platform ((3, 30) ∷ (7, 70) ∷ (9, 90) ∷ []) small ≡ ok g)
    × (let n = hashes_for g 7 in
        let first = get_scan sample_platform g (size g / n) 7 n 0 in
        ((first ≡ ok (some (found 70))) × (get sample_platform 5 7 g ≡ ok (true, found 70, g)))
        ⊎ ((first ≡ ok none) × (get sample_platform 5 7 g ≡ get_loop sample_platform 5 7 g)))
get-insert_pairs_example =
    get-insert_pairs sample_platform ((3, 30) ∷ []) ((9, 90) ∷ []) 7 70 5 small small-TakesAll
