-- ===== src/IbltSync/Tests.antt =====
-- The sync method at concrete inputs: the client holds 5, the server 8.
use gensync_core.Prelude.{◌≡◌, refl, [], ◌∷◌, none, true, false, List, arith, ℕ}
use gensync_core.Prelude.Int.{pos, ◌+ℤ◌, ◌-ℤ◌, -ℤ◌}
use gensync_core.Prelude.Outcome.{Outcome, ok, stop, div, rem, modify_at}
use gensync_core.Platform.{sample_platform}
use gensync_core.Ntl.{sample_ntl, count_bytes}
use gensync_core.Decimal.{sample_decimal}
use gensync_core.Iblt.{
  HashTableEntry, GenIblt, Listing, blank, empty, hash_k, bump, insert_signed, is_pure, subtract,
  sub_entry, list_entries,
}
use gensync_core.Iblt.Decode.{start}
use gensync_core.Communicant.{Communicant}
use gensync_core.Communicant.Wire.{counted}
use gensync_core.Communicant.Tables.RoundTrip.{as_received, IsSendable}
use gensync_core.IbltSync.{IbltSync, Differences}
use gensync_core.IbltSync.Exchange.{exchange, exchange-mirrors}

program : Unit {0}
unfolding empty hash_k bump insert_signed is_pure subtract sub_entry list_entries div rem modify_at
    ◌+ℤ◌ ◌-ℤ◌ -ℤ◌
program = tt

abbrev table_of : List HashTableEntry → GenIblt
table_of cells = record {
  num_hashes = 4;
  calc_num_hashes = none;
  num_hash_check = 11;
  hash_table = cells;
  value_size = 8;
}

abbrev five : HashTableEntry
five = record { count = pos 1; key_sum = 5; key_check = 4021673672686820561; value_sum = 5 }

abbrev eight : HashTableEntry
eight = record { count = pos 1; key_sum = 8; key_check = 13460748727848961124; value_sum = 8 }

abbrev client : IbltSync
client = record {
  elements = (1, 5) ∷ [];
  my_iblt = table_of (
      five ∷ blank ∷ blank ∷ blank ∷ five ∷ blank ∷ five ∷ blank ∷ blank ∷ blank ∷ five ∷ blank
      ∷ []);
  one_way = false;
  exp_num_elems = 8;
  element_size = 8;
}

abbrev server : IbltSync
server = record {
  elements = (2, 8) ∷ [];
  my_iblt = table_of (
      blank ∷ blank ∷ eight ∷ eight ∷ blank ∷ blank ∷ eight ∷ blank ∷ blank ∷ blank ∷ eight ∷ blank
      ∷ []);
  one_way = false;
  exp_num_elems = 8;
  element_size = 8;
}

abbrev open_end : Communicant
open_end = record {
  stream = [];
  xfer_bytes = 0;
  xfer_bytes_tot = 0;
  recv_bytes = 0;
  recv_bytes_tot = 0;
  mod_size = none;
}

abbrev nothing : Differences
nothing = record { self_minus_other = []; other_minus_self = [] }

value : {A : Type 0} → A → Outcome A → A
value d (ok a) = a
value d (stop s) = d

abbrev gap_run : Outcome GenIblt
gap_run =
    subtract sample_platform (as_received sample_ntl sample_decimal client.my_iblt) server.my_iblt

gap : GenIblt
unfolding program value
gap = value server.my_iblt gap_run

gap_run-gap : gap_run ≡ ok gap
unfolding gap
gap_run-gap = refl

abbrev listing : Listing
listing = record {
  iblt = table_of (
      blank ∷ blank ∷ blank ∷ blank ∷ blank ∷ blank ∷ blank ∷ blank ∷ blank ∷ blank ∷ blank ∷ blank
      ∷ []);
  positive = (5, 5) ∷ [];
  negative = (8, 8) ∷ [];
  n_erased = 0;
}

gap-listing : list_entries sample_platform 9 (start sample_platform gap) ≡ ok (true, listing)
unfolding gap
gap-listing = refl

blank-IsSendable : IsSendable sample_ntl sample_decimal 8 blank
unfolding count_bytes
blank-IsSendable = record {
  insertions = 0;
  counted_up = refl;
  few = omega arith;
  checked = omega arith;
  short = omega arith;
  fits = omega arith;
}

five-IsSendable : IsSendable sample_ntl sample_decimal 8 five
unfolding count_bytes
five-IsSendable = record {
  insertions = 1;
  counted_up = refl;
  few = omega arith;
  checked = omega arith;
  short = omega arith;
  fits = omega arith;
}

exchange-mirrors_example :
    (n : ℕ) × (exchange sample_platform sample_ntl sample_decimal 9 client server nothing nothing
        open_end
      ≡ ok (
        (
          true,
          record { self_minus_other = 8 ∷ []; other_minus_self = 5 ∷ [] },
          record { self_minus_other = 5 ∷ []; other_minus_self = 8 ∷ [] },
        ),
        counted n open_end,
      ))
exchange-mirrors_example =
    let b = blank-IsSendable in
    let f = five-IsSendable in
    exchange-mirrors sample_platform sample_ntl sample_decimal 9 client server nothing nothing
      open_end refl refl refl (omega arith) (omega arith) (omega arith)
      (f, (b, (b, (b, (f, (b, (f, (b, (b, (b, (f, (b, tt)))))))))))) refl refl gap_run-gap
      gap-listing (unfold count_bytes in (omega arith, tt))
      (unfold count_bytes in (omega arith, tt)) (omega arith) (omega arith)
