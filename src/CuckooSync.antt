-- ===== src/CuckooSync.antt =====
-- The sync method of src/Syncs/CuckooSync.cpp, over include/GenSync/Aux/SyncMethod.h, and the cuckoo
-- filter on the wire (src/Communicants/Communicant.cpp). The two ends of the protocol are cut where one
-- waits for the other. Statistics, logs and the connection itself are left out.
pub mod Transfer
pub mod Exchange
pub mod Missing
mod Tests
use gensync_core.Prelude.{
  ℕ, zero, suc, ◌*◌, ◌/◌, ◌%◌, ◌^◌, Bool, true, false, none, List, [], ◌∷◌, ◌++◌, if◌then◌else◌,
}
use gensync_core.Prelude.Int.{pos}
use gensync_core.Prelude.Outcome.{Outcome, ok, ◌>>=◌}
use gensync_core.Platform.{Platform}
use gensync_core.Ntl.{Ntl}
use gensync_core.Cuckoo.{Cuckoo, from_raw, get_raw_filter, lookup, insert}
use gensync_core.Cuckoo
use gensync_core.Communicant.{
  Communicant, send_long, recv_long, send_zz, recv_zz, send_byte, recv_byte, as_unsigned,
  send_data_object_list, recv_data_object_list,
}
use gensync_core.IbltSync.{Differences, push_element}

pub record CuckooSync : Type 0 where
  pub elements : List (ℕ × ℕ)
  pub my_cf : Cuckoo

unfoldable pub new_sync : Platform → ℕ → ℕ → ℕ → ℕ → Outcome CuckooSync
new_sync p fngprt_size bucket_size filter_size max_kicks = do
  cf ← Cuckoo.new p fngprt_size bucket_size filter_size max_kicks
  ok (record { elements = []; my_cf = cf })

module _ (ntl : Ntl) where
  -- The loops over the bytes of the filter.
  pub send_bytes : List ℕ → Communicant → Communicant
  send_bytes [] c = c
  send_bytes (b ∷ bs) c = send_bytes bs (send_byte ntl b c)

  pub recv_bytes_loop : ℕ → Communicant → Outcome (List ℕ × Communicant)
  recv_bytes_loop zero c = ok ([], c)
  recv_bytes_loop (suc n) c = do
    (b, c') ← recv_byte ntl c
    (bs, c'') ← recv_bytes_loop n c'
    ok (b ∷ bs, c'')

  -- The casts to long are the identity, for sizes under 2 ^ 63.
  pub send_cuckoo : Cuckoo → Communicant → Communicant
  unfolding get_raw_filter send_bytes
  send_cuckoo cf c = send_bytes (get_raw_filter cf) (
      send_zz ntl (pos cf.items_count) none (
        send_long ntl (pos cf.max_kicks) (
          send_long ntl (pos cf.filter_size)
            (send_long ntl (pos cf.bucket_size) (send_long ntl (pos cf.fngprt_size) c)))))

  -- `ceil` of a quotient of integers is the quotient.
  abbrev pub bytes_to_read : ℕ → ℕ → ℕ → ℕ
  bytes_to_read fngprt_s bucket_s filter_size = fngprt_s * bucket_s * filter_size % 2 ^ 64 / 8

  -- `commRecv_Cuckoo`, from the number of items on.
  pub recv_filter : Platform → ℕ → ℕ → ℕ → ℕ → Communicant → Outcome (Cuckoo × Communicant)
  unfolding recv_bytes_loop
  recv_filter p fngprt_s bucket_s filter_size kicks c = do
    (items, c') ← recv_zz ntl 0 c
    (filter, c'') ← recv_bytes_loop (bytes_to_read fngprt_s bucket_s filter_size) c'
    cf ← from_raw p fngprt_s bucket_s filter_size kicks filter items
    ok (cf, c'')

  pub recv_cuckoo : Platform → Communicant → Outcome (Cuckoo × Communicant)
  unfolding recv_filter
  recv_cuckoo p c = do
    (fngprt_s, c₁) ← recv_long ntl c
    (bucket_s, c₂) ← recv_long ntl c₁
    (filter_size, c₃) ← recv_long ntl c₂
    (kicks, c₄) ← recv_long ntl c₃
    recv_filter p (as_unsigned fngprt_s) (as_unsigned bucket_s) (as_unsigned filter_size)
        (as_unsigned kicks) c₄

-- The elements that are not found in the other filter.
pub missing : Platform → Cuckoo → List (ℕ × ℕ) → Outcome (List ℕ)
missing p theirs [] = ok []
missing p theirs ((pointer, e) ∷ es) = do
  found ← lookup p theirs e
  rest ← missing p theirs es
  ok (if found then rest else e ∷ rest)

-- The answer is true even where the filter refused the element.
unfoldable pub add_elem :
    Bool
    → Platform
    → {S : Type 0} (draw : ℕ → ℕ → S → ℕ × S) → ℕ × ℕ
    → CuckooSync
    → S
    → Outcome (Bool × CuckooSync × S)
add_elem little_endian p draw datum s rng = do
  (done, cf, rng') ← insert little_endian p draw s.my_cf datum.1 rng
  ok (true, record { elements = push_element datum s.elements; my_cf = cf }, rng')

module _ (p : Platform) (ntl : Ntl) where
  -- `SyncClient`, up to where the server's filter is awaited.
  unfoldable pub client_send : CuckooSync → Communicant → Communicant
  unfolding send_cuckoo
  client_send s c = send_cuckoo ntl s.my_cf c

  -- `SyncServer`, up to where the client's elements are awaited: its own elements, and its filter sent.
  unfoldable pub server_query :
      CuckooSync → Differences → Communicant → Outcome (Differences × Communicant)
  unfolding recv_cuckoo send_cuckoo missing
  server_query s d c = do
    (theirs, c') ← recv_cuckoo ntl p c
    mine ← missing p theirs s.elements
    ok (record d { self_minus_other = d.self_minus_other ++ mine }, send_cuckoo ntl s.my_cf c')

  -- The client, up to where the server's elements are awaited.
  unfoldable pub client_query :
      CuckooSync → Differences → Communicant → Outcome (Differences × Communicant)
  unfolding recv_cuckoo missing
  client_query s d c = do
    (theirs, c') ← recv_cuckoo ntl p c
    mine ← missing p theirs s.elements
    let d' : Differences = record d { self_minus_other = d.self_minus_other ++ mine }
    ok (d', send_data_object_list ntl d'.self_minus_other c')

  -- The end of `SyncServer`, and that of `SyncClient`.
  unfoldable pub server_finish :
      Differences → Communicant → Outcome ((Bool × Differences) × Communicant)
  server_finish d c = do
    (rcvd, c') ← recv_data_object_list ntl c
    ok (
      (true, record d { other_minus_self = d.other_minus_self ++ rcvd }),
      send_data_object_list ntl d.self_minus_other c',
    )

  unfoldable pub client_finish :
      Differences → Communicant → Outcome ((Bool × Differences) × Communicant)
  client_finish d c = do
    (rcvd, c') ← recv_data_object_list ntl c
    ok ((true, record d { other_minus_self = d.other_minus_self ++ rcvd }), c')
