-- ===== src/BloomFilterSync/Tests.antt =====
-- The sync method with Bloom filters at concrete inputs: the client holds 8, the server 6.
use gensync_core.Prelude.{◌≡◌, refl, ℕ, true, false, [], ◌∷◌, none, arith, replicate}
use gensync_core.Prelude.Outcome.{ok, rem, load_at, store_at}
use gensync_core.Platform.{sample_platform}
use gensync_core.Ntl.{sample_ntl, count_bytes}
use gensync_core.Bloom.{BloomFilter, insert, exist}
use gensync_core.Communicant.{Communicant}
use gensync_core.Communicant.Wire.{counted}
use gensync_core.IbltSync.{Differences}
use gensync_core.BloomFilterSync.{BloomFilterSync, missing}
use gensync_core.BloomFilterSync.Exchange.{exchange, bloom_exchange_mirrors}

program : Unit {0}
unfolding insert exist rem load_at store_at
program = tt

abbrev blank : BloomFilter
blank = record { bits = replicate 8 false; num_hashes = 2 }

-- The filter with 6 alone, and that with 8 alone.
abbrev with_six : BloomFilter
with_six = record {
  bits = false ∷ false ∷ false ∷ true ∷ true ∷ false ∷ false ∷ false ∷ [];
  num_hashes = 2;
}

abbrev with_eight : BloomFilter
with_eight = record {
  bits = false ∷ true ∷ true ∷ false ∷ false ∷ false ∷ false ∷ false ∷ [];
  num_hashes = 2;
}

inserts_six : insert sample_platform 6 blank ≡ ok with_six
unfolding program
inserts_six = refl

inserts_eight : insert sample_platform 8 blank ≡ ok with_eight
unfolding program
inserts_eight = refl

abbrev client : BloomFilterSync
client = record {
  elements = (1, 8) ∷ [];
  my_bloom_filter = with_eight;
  exp_num_elems = 1;
  element_size = 8;
}

abbrev server : BloomFilterSync
server = record {
  elements = (2, 6) ∷ [];
  my_bloom_filter = with_six;
  exp_num_elems = 1;
  element_size = 8;
}

-- One with a larger filter.
abbrev large : BloomFilterSync
large = record {
  elements = [];
  my_bloom_filter = record { bits = replicate 16 false; num_hashes = 2 };
  exp_num_elems = 2;
  element_size = 8;
}

abbrev open_end : Communicant
open_end = record {
  stream = [];
  xfer_bytes = 0;
  xfer_bytes_tot = 0;
  recv_bytes = 0;
  recv_bytes_tot = 0;
  mod_size = none;
}

abbrev nothing : Differences
nothing = record { self_minus_other = []; other_minus_self = [] }

client_misses : missing sample_platform with_six client.elements ≡ ok (8 ∷ [])
unfolding program missing
client_misses = refl

server_misses : missing sample_platform with_eight server.elements ≡ ok (6 ∷ [])
unfolding program missing
server_misses = refl

bloom_exchange_mirrors_example :
    (n : ℕ) × (exchange sample_ntl sample_platform client server nothing nothing open_end
      ≡ ok (
        (
          (true, record { self_minus_other = 6 ∷ []; other_minus_self = 8 ∷ [] }),
          (true, record { self_minus_other = 8 ∷ []; other_minus_self = 6 ∷ [] }),
        ),
        counted n open_end,
      ))
bloom_exchange_mirrors_example =
    bloom_exchange_mirrors sample_ntl sample_platform client server nothing nothing open_end 1 refl
      refl refl (omega arith) refl (omega arith) client_misses server_misses
      (unfold count_bytes in (omega arith, tt)) (unfold count_bytes in (omega arith, tt))
      (omega arith) (omega arith)
