-- ===== src/Communicant/Tests.antt =====
-- The theorems on the communicant at concrete inputs.
use gensync_core.Prelude.{ℕ, ◌≡◌, refl, ◌^◌, false, none, [], ◌∷◌, arith, ◌<◌}
use gensync_core.Prelude.Int.{pos}
use gensync_core.Prelude.Outcome.{ok}
use gensync_core.Ntl.{sample_ntl, count_bytes}
use gensync_core.Decimal.{sample_decimal}
use gensync_core.Iblt.{HashTableEntry, GenIblt}
use gensync_core.Communicant.{
  Communicant, send_data_object_list, recv_data_object_list, send_vec, recv_vec, pack_vec,
}
use gensync_core.Communicant.Wire.{counted}
use gensync_core.Communicant.Strings.{recv_data_object_list-send_data_object_list}
use gensync_core.Communicant.Vectors.{recv_vec-send_vec}
use gensync_core.Communicant.Tables.{send_iblt, recv_iblt}
use gensync_core.Communicant.Tables.RoundTrip.{as_received, recv_iblt-send_iblt, IsSendable}
use gensync_core.Communicant.Handshake.{establish_iblt_send, establish_iblt_recv}
use gensync_core.Communicant.Agree.{both_ends, establish_iblt-agree}

abbrev open_end : Communicant
open_end = record {
  stream = [];
  xfer_bytes = 0;
  xfer_bytes_tot = 7;
  recv_bytes = 0;
  recv_bytes_tot = 9;
  mod_size = none;
}

recv_data_object_list-send_data_object_list_example :
    (n : ℕ) × (recv_data_object_list sample_ntl
        (send_data_object_list sample_ntl (300 ∷ 5 ∷ []) open_end)
      ≡ ok (300 ∷ 5 ∷ [], counted n open_end))
recv_data_object_list-send_data_object_list_example =
    recv_data_object_list-send_data_object_list sample_ntl (300 ∷ 5 ∷ []) open_end
      (unfold count_bytes in (omega arith, (omega arith, tt))) (omega arith) refl

packed_size : sample_ntl.num_bytes (pos (pack_vec 97 (96 ∷ 0 ∷ 3 ∷ []))) < 2 ^ 31
unfolding count_bytes pack_vec
packed_size = omega arith

recv_vec-send_vec_example :
    (n : ℕ) × (recv_vec sample_ntl 97 (send_vec sample_ntl 97 (96 ∷ 0 ∷ 3 ∷ []) open_end)
      ≡ ok (96 ∷ 0 ∷ 3 ∷ [], counted n open_end))
recv_vec-send_vec_example =
    recv_vec-send_vec sample_ntl 97 (96 ∷ 0 ∷ 3 ∷ []) open_end
      (omega arith, (omega arith, (omega arith, tt))) packed_size refl

abbrev cell : HashTableEntry
cell = record { count = pos 2; key_sum = 300; key_check = 12345; value_sum = 300 }

abbrev table : GenIblt
table = record {
  num_hashes = 1;
  calc_num_hashes = none;
  num_hash_check = 5;
  hash_table = cell ∷ [];
  value_size = 8;
}

cell-IsSendable : IsSendable sample_ntl sample_decimal 8 cell
unfolding count_bytes
cell-IsSendable = record {
  insertions = 2;
  counted_up = refl;
  few = omega arith;
  checked = omega arith;
  short = omega arith;
  fits = omega arith;
}

recv_iblt-send_iblt_example :
    (n : ℕ) × (recv_iblt sample_ntl sample_decimal none none
        (send_iblt sample_ntl sample_decimal table false open_end)
      ≡ ok (as_received sample_ntl sample_decimal table, counted n open_end))
recv_iblt-send_iblt_example =
    recv_iblt-send_iblt sample_ntl sample_decimal table false open_end (omega arith) (omega arith)
      (omega arith) (cell-IsSendable, tt) refl

establish_iblt-agree_example :
    (n : ℕ) × (both_ends sample_ntl
        (establish_iblt_send sample_ntl 20 8)
        (establish_iblt_recv sample_ntl 20 9 false)
        false
        open_end
      ≡ ok ((false, false), counted n open_end))
establish_iblt-agree_example =
    establish_iblt-agree sample_ntl 20 8 20 9 false open_end (omega arith) (omega arith) refl
