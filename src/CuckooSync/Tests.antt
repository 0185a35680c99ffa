-- ===== src/CuckooSync/Tests.antt =====
-- The sync method with cuckoo filters at concrete inputs: the client holds 8, the server 6.
use gensync_core.Prelude.{
  ℕ, ◌+◌, ◌-◌, ◌%◌, ◌^◌, ◌<◌, ◌≡◌, ◌≢◌, refl, Bool, true, false, ◌&&◌, ltb, List, [], ◌∷◌, All,
  length, none, arith,
}
use gensync_core.Prelude.Outcome.{ok, ok-injective, rem, load_at, store_at, at_index}
use gensync_core.Platform.{sample_platform}
use gensync_core.Ntl.{sample_ntl, count_bytes, AreBytes}
use gensync_core.BitArray.{get_entry, set_entry}
use gensync_core.BitArray.Place.{IsValid}
use gensync_core.Cuckoo.{
  Cuckoo, default_fingerprint, default_hash, alternative_bucket, p_hash, is_zero_f,
  find_fingerprint, lookup, insert,
}
use gensync_core.Cuckoo.Search.{IsReady}
use gensync_core.Communicant.{Communicant}
use gensync_core.Communicant.Wire.{counted}
use gensync_core.IbltSync.{Differences}
use gensync_core.CuckooSync.{CuckooSync, add_elem, missing}
use gensync_core.CuckooSync.Transfer.{made}
use gensync_core.CuckooSync.Exchange.{IsSendable, exchange, cuckoo_exchange_mirrors}
use gensync_core.CuckooSync.Missing.{add_each, missing-add_elem}

program : Unit {0}
unfolding insert lookup find_fingerprint p_hash alternative_bucket default_fingerprint default_hash
    rem get_entry set_entry load_at store_at at_index
program = tt

-- Four buckets of two fingerprints of 12 bits.
abbrev filter_of : List ℕ → ℕ → Cuckoo
filter_of st n = made sample_platform 12 2 4 2 n st

abbrev blank : Cuckoo
blank = filter_of (0 ∷ 0 ∷ 0 ∷ 0 ∷ 0 ∷ 0 ∷ 0 ∷ 0 ∷ 0 ∷ 0 ∷ 0 ∷ 0 ∷ []) 0

abbrev count_up : ℕ → ℕ → ℕ → ℕ × ℕ
count_up lo hi s = (lo + s % (hi - lo + 1), s + 1)

-- The filter with 6 alone, and that with 8 alone.
abbrev with_six : Cuckoo
with_six = filter_of (0 ∷ 0 ∷ 0 ∷ 0 ∷ 96 ∷ 0 ∷ 0 ∷ 0 ∷ 0 ∷ 0 ∷ 0 ∷ 0 ∷ []) 1

abbrev with_eight : Cuckoo
with_eight = filter_of (0 ∷ 0 ∷ 0 ∷ 0 ∷ 0 ∷ 0 ∷ 0 ∷ 0 ∷ 0 ∷ 0 ∷ 128 ∷ 0 ∷ []) 1

abbrev client : CuckooSync
client = record { elements = (1, 8) ∷ []; my_cf = with_eight }

abbrev server : CuckooSync
server = record { elements = (2, 6) ∷ []; my_cf = with_six }

abbrev open_end : Communicant
open_end = record {
  stream = [];
  xfer_bytes = 0;
  xfer_bytes_tot = 0;
  recv_bytes = 0;
  recv_bytes_tot = 0;
  mod_size = none;
}

abbrev nothing : Differences
nothing = record { self_minus_other = []; other_minus_self = [] }

client_misses : missing sample_platform with_six client.elements ≡ ok (8 ∷ [])
unfolding program missing
client_misses = refl

server_misses : missing sample_platform with_eight server.elements ≡ ok (6 ∷ [])
unfolding program missing
server_misses = refl

sendable : (st : List ℕ) → length st ≡ 12 → IsSendable sample_ntl sample_platform (filter_of st 1)
unfolding count_bytes
sendable st l = record {
  f = 12;
  b = 2;
  n = 4;
  kicks = 2;
  items = 1;
  st = st;
  is_made = refl;
  some_bits = omega arith;
  few_bits = omega arith;
  some_columns = omega arith;
  few_columns = omega arith;
  some_rows = omega arith;
  few_rows = omega arith;
  few_kicks = omega arith;
  few_items = omega arith;
  small = omega arith;
  whole = omega (arith, l);
}

cuckoo_exchange_mirrors_example :
    (k : ℕ) × (exchange sample_platform sample_ntl client server nothing nothing open_end
      ≡ ok (
        (
          record { self_minus_other = 6 ∷ []; other_minus_self = 8 ∷ [] },
          record { self_minus_other = 8 ∷ []; other_minus_self = 6 ∷ [] },
        ),
        counted k open_end,
      ))
cuckoo_exchange_mirrors_example =
    cuckoo_exchange_mirrors sample_platform sample_ntl client server nothing nothing open_end refl
      (sendable with_eight.filter.store refl) (sendable with_six.filter.store refl) client_misses
      server_misses (unfold count_bytes in (omega arith, tt))
      (unfold count_bytes in (omega arith, tt)) (omega arith) (omega arith)

abbrev all_bytes : List ℕ → Bool
all_bytes [] = true
all_bytes (x ∷ xs) = ltb x 256 && all_bytes xs

bytes_under : (xs : List ℕ) → all_bytes xs ≡ true → AreBytes xs
bytes_under [] e = tt
bytes_under (x ∷ xs) e = (ground arith, bytes_under xs (ground arith))

blank-IsValid : IsValid blank.filter
blank-IsValid = record {
  some_bits = omega arith;
  few_bits = omega arith;
  f_bytes_fit = omega arith;
  f_bytes_needed = omega arith;
  no_wrap = omega arith;
  room = omega arith;
  bytes = bytes_under blank.filter.store refl;
}

blank-IsReady : IsReady blank
unfolding default_fingerprint
blank-IsReady = record {
  valid = blank-IsValid;
  columns = refl;
  some_columns = omega arith;
  fit = λ x f found. fits x f (ok-injective found);
}
  where
    fits : (x f : ℕ) → x % 2 ^ 32 % 2 ^ 12 ≡ f → f < 2 ^ 12
    fits x f e = omega arith

abbrev added : CuckooSync
added = record { elements = (1, 8) ∷ []; my_cf = with_eight }

inserts_eight : insert true sample_platform count_up blank 8 0 ≡ ok (true, with_eight, 0)
unfolding program
inserts_eight = refl

adds_eight :
    add_elem true sample_platform count_up (1, 8) (record { elements = []; my_cf = blank }) 0
    ≡ ok (true, added, 0)
unfolding add_elem
adds_eight = rw inserts_eight refl

eight_nonzero : is_zero_f blank 8 ≡ ok false
unfolding is_zero_f default_fingerprint
eight_nonzero = refl

adds_more :
    (s : CuckooSync) × (rng : ℕ) × (add_each sample_platform count_up ((3, 9) ∷ []) added 0
      ≡ ok (s, rng))
    × (missing sample_platform s.my_cf ((5, 8) ∷ (2, 6) ∷ []) ≡ ok (6 ∷ []))
unfolding program add_elem add_each missing
adds_more = (_, _, refl, refl)

missing-add_elem_example : All (λ (x : ℕ). x ≢ 8) (6 ∷ [])
missing-add_elem_example =
    missing-add_elem sample_platform count_up (1, 8) ((3, 9) ∷ [])
      (record { elements = []; my_cf = blank }) added (adds_more.0) with_eight 0 0 0 (adds_more.1)
      true ((5, 8) ∷ (2, 6) ∷ []) (6 ∷ []) blank-IsReady eight_nonzero inserts_eight adds_eight
      (adds_more.2) (adds_more.3)
