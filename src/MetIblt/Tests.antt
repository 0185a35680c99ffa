-- ===== src/MetIblt/Tests.antt =====
-- Runs of the rateless table, and its theorems at concrete inputs.
use gensync_core.Prelude.{◌≡◌, refl, arith, ℕ, [], ◌∷◌, false, some, replicate}
use gensync_core.Prelude.Int.{ℤ, pos, negsuc, ◌+ℤ◌, ◌-ℤ◌, -ℤ◌}
use gensync_core.Prelude.Outcome.{ok, div, rem, modify_at, load_at, store_at}
use gensync_core.Platform.{sample_platform}
use gensync_core.Iblt.{
  GenIblt, blank, new_cells, empty, hash_k, bump, insert_signed, insert, erase, is_pure,
  list_entries,
}
use gensync_core.Iblt.Sums.{add_entry}
use gensync_core.Iblt.Update.{IsReady, added, added-IsReady, footprint}
use gensync_core.MetIblt.Peel.{peel_once-positive, peel_once-negative}
use gensync_core.MetIblt.{
  MetIblt, build, build_tables, new_met, insert_tables, insert_all, erase_tables, erase_all,
  set_insert, contains, peel_table, peel_tables, erase_missing, erase_rest, peel_once, peel_loop,
  peel_all,
}

program : Unit {0}
unfolding new_cells empty hash_k bump insert_signed insert erase is_pure list_entries div rem
    modify_at load_at store_at ◌+ℤ◌ ◌-ℤ◌ -ℤ◌ build build_tables new_met insert_tables insert_all
    erase_tables erase_all set_insert contains peel_table peel_tables erase_missing erase_rest
    peel_once peel_loop peel_all footprint
program = tt

-- A table of so many cells, with one hash for every key.
abbrev one_hash : ℕ → GenIblt
one_hash n = record {
  num_hashes = 0;
  calc_num_hashes = some (λ k. 1);
  num_hash_check = 0;
  hash_table = replicate n blank;
  value_size = 8;
}

abbrev two_types : MetIblt
two_types = record {
  deg_matrix = (1 ∷ []) ∷ (1 ∷ []) ∷ [];
  m_cells = 4 ∷ 1 ∷ [];
  key2type = λ k. 0;
  tables = one_hash 4 ∷ one_hash 1 ∷ [];
  elt_size = 8;
}

two_types-made : new_met two_types.deg_matrix two_types.m_cells two_types.key2type 8 ≡ ok two_types
unfolding program
two_types-made = refl

one_cell-IsReady : IsReady sample_platform (one_hash 1)
one_cell-IsReady = record {
  hashed = λ k. omega arith;
  roomy = λ k. omega arith;
  sized = refl;
  mirrored = omega arith;
}

-- Two keys counted in.
abbrev with_two : ℤ → ℕ → ℤ → ℕ → GenIblt → GenIblt
with_two s j t k g = added sample_platform (added sample_platform g s j) t k

with_two-IsReady : (s t : ℤ) (j k : ℕ) → IsReady sample_platform (with_two s j t k (one_hash 1))
with_two-IsReady s t j k =
    added-IsReady sample_platform t k (added-IsReady sample_platform s j one_cell-IsReady)

-- A difference of 1 and 3 against 7, where 3 and 7 share a cell of the first table.
abbrev shared : GenIblt → GenIblt
shared = with_two (pos 1) 3 (negsuc 0) 7

abbrev one_more : GenIblt → GenIblt
one_more g = added sample_platform g (pos 1) 1

peel_once-positive_example :
    peel_once sample_platform 9 (record two_types {
      tables = one_more (shared (one_hash 4)) ∷ one_more (shared (one_hash 1)) ∷ [];
    })
    ≡ ok (
      false,
      1 ∷ [],
      [],
      record two_types { tables = shared (one_hash 4) ∷ shared (one_hash 1) ∷ [] },
    )
unfolding program add_entry
peel_once-positive_example =
    peel_once-positive sample_platform 9 1 (one_more (shared (one_hash 4))) (shared (one_hash 4))
      (shared (one_hash 1) ∷ []) two_types refl (refl, tt)
      (with_two-IsReady (pos 1) (negsuc 0) 3 7, tt)

-- A difference of 1 and 5 against 7, where 1 and 5 share a cell of the first table.
abbrev paired : GenIblt → GenIblt
paired = with_two (pos 1) 1 (pos 1) 5

abbrev one_less : GenIblt → GenIblt
one_less g = added sample_platform g (negsuc 0) 7

peel_once-negative_example :
    peel_once sample_platform 9 (record two_types {
      tables = one_less (paired (one_hash 4)) ∷ one_less (paired (one_hash 1)) ∷ [];
    })
    ≡ ok (
      false,
      [],
      7 ∷ [],
      record two_types {
        tables = paired (one_hash 4) ∷ one_less (one_less (paired (one_hash 1))) ∷ [];
      },
    )
unfolding program add_entry
peel_once-negative_example =
    peel_once-negative sample_platform 9 7 (one_less (paired (one_hash 4))) (paired (one_hash 4))
      (paired (one_hash 1) ∷ []) two_types refl (refl, tt)
      (with_two-IsReady (pos 1) (pos 1) 1 5, tt)
