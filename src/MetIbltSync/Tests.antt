-- ===== src/MetIbltSync/Tests.antt =====
-- The sync method at concrete inputs: the client holds 5, the server 8, and a rateless table has one
-- cell of its first type and four of its second.
use gensync_core.Prelude.{
  ◌≡◌, refl, [], ◌∷◌, ◌++◌, none, some, true, List, arith, ℕ, ◌==◌, if◌then◌else◌, replicate,
}
use gensync_core.Prelude.Int.{pos, negsuc, ◌+ℤ◌, ◌-ℤ◌, -ℤ◌}
use gensync_core.Prelude.Outcome.{ok, div, rem, modify_at, load_at, store_at}
use gensync_core.Platform.{sample_platform}
use gensync_core.Ntl.{sample_ntl, count_bytes}
use gensync_core.Decimal.{sample_decimal}
use gensync_core.Iblt.{
  HashTableEntry, GenIblt, blank, empty, hash_k, bump, insert_signed, insert, erase, is_pure,
  subtract, sub_entry, list_entries, new_cells,
}
use gensync_core.Iblt.Sums.{add_entry}
use gensync_core.Iblt.Update.{IsReady, footprint}
use gensync_core.Iblt.Subtract.{added_all}
use gensync_core.Communicant.{Communicant}
use gensync_core.Communicant.Wire.{counted}
use gensync_core.Communicant.Tables.RoundTrip.{IsSendable}
use gensync_core.IbltSync.{Differences}
use gensync_core.MetIblt.{
  MetIblt, build, add_cell_type, add_gen_iblt, insert_type, set_insert, contains, peel_table,
  peel_tables, erase_missing, erase_rest, peel_once, peel_loop, peel_all,
}
use gensync_core.MetIblt.Tables.{Encodes, encode}
use gensync_core.MetIbltSync.{MetIbltSync, no_difference, insert_elements, grow, add_elem, del_elem}
use gensync_core.MetIbltSync.Elements.{values, TablesEncode, add_elem-del_elem-TablesEncode}
use gensync_core.MetIbltSync.Grow.{new_table, with_type, grow-TablesEncode, grow-again}
use gensync_core.MetIbltSync.Round.{Session, Round, run_session, run_session-ends}

program : Unit {0}
unfolding empty hash_k bump insert_signed insert erase is_pure subtract sub_entry list_entries div
    rem modify_at load_at store_at ◌+ℤ◌ ◌-ℤ◌ -ℤ◌ footprint add_entry new_cells build add_cell_type
    add_gen_iblt insert_type set_insert contains peel_table peel_tables erase_missing erase_rest
    peel_once peel_loop peel_all insert_elements grow
program = tt

-- A table of so many cells, with one hash for every key.
abbrev one_hash : ℕ → GenIblt
one_hash n = record {
  num_hashes = 0;
  calc_num_hashes = some (λ k. 1);
  num_hash_check = 0;
  hash_table = replicate n blank;
  value_size = 8;
}

-- A method that has not grown yet.
abbrev holding : List (ℕ × ℕ) → MetIbltSync
holding es = record {
  elements = es;
  my_met = record {
    deg_matrix = (1 ∷ []) ∷ [];
    m_cells = 1 ∷ [];
    key2type = λ k. 0;
    tables = added_all sample_platform (one_hash 1) (pos 1) (values es) ∷ [];
    elt_size = 8;
  };
  element_size = 8;
  cell_type_func = λ index. if index == 0 then 1 else 4;
  deg_matrix_func = λ index. 1 ∷ [];
}

one_cell-IsReady : IsReady sample_platform (one_hash 1)
one_cell-IsReady = record {
  hashed = λ k. omega arith;
  roomy = λ k. omega arith;
  sized = refl;
  mirrored = omega arith;
}

holding-TablesEncode : (es : List (ℕ × ℕ)) → TablesEncode sample_platform (holding es)
holding-TablesEncode es =
    (encode sample_platform (values es) (one_hash 1) one_cell-IsReady refl refl, tt)

add_elem-del_elem-TablesEncode_example :
    ((s : MetIbltSync) × (add_elem sample_platform (3, 6) (holding ((1, 5) ∷ (2, 9) ∷ []))
        ≡ ok (true, s))
      × (s.elements ≡ (1, 5) ∷ (2, 9) ∷ (3, 6) ∷ [])
      × TablesEncode sample_platform s)
    × ((s : MetIbltSync) × (del_elem sample_platform (2, 9) (holding ((1, 5) ∷ (2, 9) ∷ []))
          ≡ ok (true, s))
        × (s.elements ≡ (1, 5) ∷ [])
        × TablesEncode sample_platform s)
add_elem-del_elem-TablesEncode_example =
    add_elem-del_elem-TablesEncode sample_platform ((1, 5) ∷ []) [] (2, 9) (3, 6)
      (holding ((1, 5) ∷ (2, 9) ∷ [])) refl ((λ e. absurd (omega arith)), tt) tt
      (holding-TablesEncode ((1, 5) ∷ (2, 9) ∷ []))

abbrev client : MetIbltSync
client = holding ((1, 5) ∷ [])

abbrev server : MetIbltSync
server = holding ((2, 8) ∷ [])

new_table-IsReady : IsReady sample_platform (new_table 1 client)
unfolding program
new_table-IsReady = record {
  hashed = λ k. omega arith;
  roomy = λ k. omega arith;
  sized = refl;
  mirrored = omega arith;
}

grow-TablesEncode_example :
    (s : MetIbltSync) × (grow sample_platform 1 client ≡ ok s)
    × (s.my_met.tables
        ≡ client.my_met.tables
          ++ added_all sample_platform (new_table 1 client) (pos 1) (5 ∷ []) ∷ [])
    × TablesEncode sample_platform s
grow-TablesEncode_example =
    grow-TablesEncode sample_platform client (omega arith) (omega arith) new_table-IsReady
      (holding-TablesEncode ((1, 5) ∷ []))

grow-again_example :
    (s : MetIbltSync) × (g : GenIblt) × (grow sample_platform 0 client ≡ ok s)
    × (s.my_met.tables ≡ g ∷ new_table 0 client ∷ [])
    × Encodes sample_platform (5 ∷ 5 ∷ []) g
grow-again_example =
    grow-again sample_platform client [] []
      (added_all sample_platform (one_hash 1) (pos 1) (5 ∷ [])) refl (omega arith) (omega arith)
      (holding-TablesEncode ((1, 5) ∷ []))

abbrev open_end : Communicant
open_end = record {
  stream = [];
  xfer_bytes = 0;
  xfer_bytes_tot = 0;
  recv_bytes = 0;
  recv_bytes_tot = 0;
  mod_size = none;
}

abbrev nothing : Differences
nothing = record { self_minus_other = []; other_minus_self = [] }

-- The table of the server less that of the client, in so many cells.
abbrev gap : ℕ → GenIblt
gap n =
    added_all sample_platform (added_all sample_platform (one_hash n) (pos 1) (8 ∷ [])) (negsuc 0)
      (5 ∷ [])

-- The methods after one round.
abbrev grown : List (ℕ × ℕ) → MetIbltSync
grown es =
    let s = holding es in
    record s {
      my_met =
          with_type 1 s
            (s.my_met.tables ++ added_all sample_platform (one_hash 4) (pos 1) (values es) ∷ []);
    }

abbrev second : Session
second = record {
  client = grown ((1, 5) ∷ []);
  server = grown ((2, 8) ∷ []);
  difference = record no_difference { tables = gap 1 ∷ [] };
}

blank-IsSendable : IsSendable sample_ntl sample_decimal 8 blank
unfolding count_bytes
blank-IsSendable = record {
  insertions = 0;
  counted_up = refl;
  few = omega arith;
  checked = omega arith;
  short = omega arith;
  fits = omega arith;
}

abbrev five : HashTableEntry
five = record { count = pos 1; key_sum = 5; key_check = 14816632086413376816; value_sum = 5 }

five-IsSendable : IsSendable sample_ntl sample_decimal 8 five
unfolding count_bytes
five-IsSendable = record {
  insertions = 1;
  counted_up = refl;
  few = omega arith;
  checked = omega arith;
  short = omega arith;
  fits = omega arith;
}

-- Both values are found in the second table; the first is left with the client's erased twice.
abbrev left_over : MetIblt
left_over = record no_difference {
  tables =
      record (one_hash 1) {
        hash_table = record { count = negsuc 1; key_sum = 0; key_check = 0; value_sum = 0 } ∷ [];
      }
      ∷ one_hash 4
      ∷ [];
}

second-Round : Round sample_platform sample_ntl sample_decimal 9 9 1 second true (8 ∷ [], 5 ∷ [])
unfolding program
second-Round = record {
  theirs = record (one_hash 4) { hash_table = five ∷ blank ∷ blank ∷ blank ∷ [] };
  ours = added_all sample_platform (one_hash 4) (pos 1) (8 ∷ []);
  gap = gap 4;
  rest = left_over;
  client_has = refl;
  server_has = refl;
  same_size = refl;
  same_value = refl;
  sized = omega arith;
  few = omega arith;
  few_cells = omega arith;
  sendable = (five-IsSendable, (blank-IsSendable, (blank-IsSendable, (blank-IsSendable, tt))));
  subtracted = refl;
  peeled = refl;
}

run_session-ends_example :
    (n : ℕ) × (run_session sample_platform sample_ntl sample_decimal 9 9 1 1 second nothing nothing
        open_end
      ≡ ok (
        (
          record { self_minus_other = 8 ∷ []; other_minus_self = 5 ∷ [] },
          record { self_minus_other = 5 ∷ []; other_minus_self = 8 ∷ [] },
        ),
        counted n open_end,
      ))
run_session-ends_example =
    run_session-ends sample_platform sample_ntl sample_decimal 9 9 0 1 second (8 ∷ [], 5 ∷ [])
      nothing nothing open_end second-Round (unfold count_bytes in (omega arith, tt))
      (unfold count_bytes in (omega arith, tt)) (omega arith) (omega arith) refl
