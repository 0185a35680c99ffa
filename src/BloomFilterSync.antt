-- ===== src/BloomFilterSync.antt =====
-- The sync method of src/Syncs/BloomFilterSync.cpp over include/GenSync/Aux/SyncMethod.h. The two ends
-- of the protocol are cut where one waits for the other. Statistics, logs and the connection itself
-- are left out.
pub mod Exchange
mod Tests
use gensync_core.Prelude.{
  ℕ, ◌*◌, ◌%◌, ◌^◌, Bool, true, false, ◌&&◌, ◌==◌, none, List, [], ◌∷◌, ◌++◌, if◌then◌else◌,
}
use gensync_core.Prelude.Int.{ℤ, pos, negsuc}
use gensync_core.Prelude.Outcome.{Outcome, ok, ◌>>=◌}
use gensync_core.Platform.{Platform}
use gensync_core.Ntl.{Ntl}
use gensync_core.Bloom.{BloomFilter, build, get_size, insert, exist, to_zz, zz_to_bf}
use gensync_core.Communicant.{
  Communicant, send_int, recv_int, send_zz, recv_zz, send_data_object_list, recv_data_object_list,
}
use gensync_core.IbltSync.{Differences, push_element}

pub record BloomFilterSync : Type 0 where
  pub elements : List (ℕ × ℕ)
  pub my_bloom_filter : BloomFilter
  pub exp_num_elems : ℕ
  pub element_size : ℕ

-- The constructor from a size and a number of hash functions.
unfoldable pub new_sync : ℕ → ℕ → ℕ → ℕ → Outcome BloomFilterSync
new_sync exp_num_elems elt_size sz_mult n_hash = do
  filter ← build (exp_num_elems * sz_mult % 2 ^ 64) n_hash
  ok (record {
    elements = [];
    my_bloom_filter = filter;
    exp_num_elems = exp_num_elems;
    element_size = elt_size;
  })

-- Equality of an int and a size under 2 ^ 31.
abbrev pub is_size : ℤ → ℕ → Bool
is_size (pos m) n = m == n
is_size (negsuc m) n = false

-- The test on the parameters of the two filters.
abbrev pub same_shape : BloomFilter → ℤ × ℤ → Bool
same_shape f other = is_size other.0 (get_size f) && is_size other.1 f.num_hashes

module _ (p : Platform) where
  unfoldable pub add_elem : ℕ × ℕ → BloomFilterSync → Outcome (Bool × BloomFilterSync)
  add_elem datum s = do
    filter ← insert p datum.1 s.my_bloom_filter
    ok (true, record s { elements = push_element datum s.elements; my_bloom_filter = filter })

  -- The elements that do not exist in the other filter.
  pub missing : BloomFilter → List (ℕ × ℕ) → Outcome (List ℕ)
  missing theirs [] = ok []
  missing theirs ((pointer, e) ∷ es) = do
    found ← exist p e theirs
    rest ← missing theirs es
    ok (if found then rest else e ∷ rest)

module _ (ntl : Ntl) where
  unfoldable pub send_shape : BloomFilter → Communicant → Communicant
  send_shape f c = send_int ntl (pos f.num_hashes) (send_int ntl (pos (get_size f)) c)

  unfoldable pub recv_shape : Communicant → Outcome ((ℤ × ℤ) × Communicant)
  recv_shape c = do
    (bf_size, c₁) ← recv_int ntl c
    (num_hashes, c₂) ← recv_int ntl c₁
    ok ((bf_size, num_hashes), c₂)

  -- `SyncServer`, up to where the client's parameters are awaited.
  unfoldable pub server_open : BloomFilterSync → Communicant → Communicant
  unfolding send_shape
  server_open s c = send_shape s.my_bloom_filter c

  -- `SyncClient`, up to where the server's elements are awaited, or to its end where the filters differ.
  unfoldable pub client_open : BloomFilterSync → Communicant → Outcome (Bool × Communicant)
  unfolding send_shape recv_shape
  client_open s c = do
    (other, c₁) ← recv_shape c
    let c₂ = send_shape s.my_bloom_filter c₁
    ok (
      same_shape s.my_bloom_filter other,
      if same_shape s.my_bloom_filter other
          then send_zz ntl (pos (to_zz ntl s.my_bloom_filter)) none c₂
          else c₂,
    )

  module _ (p : Platform) where
    -- Where the other end's filter is received, and the own elements that it misses are added.
    unfoldable pub query :
        BloomFilterSync → Differences → Communicant → Outcome (Differences × Communicant)
    unfolding missing
    query s d c = do
      (number, c₁) ← recv_zz ntl 0 c
      theirs ← zz_to_bf ntl s.my_bloom_filter number
      mine ← missing p theirs s.elements
      ok (record d { self_minus_other = d.self_minus_other ++ mine }, c₁)

    -- The server, up to where the client's elements are awaited, or to its end.
    unfoldable pub server_query :
        BloomFilterSync → Differences → Communicant → Outcome ((Bool × Differences) × Communicant)
    unfolding recv_shape query
    server_query s d c = do
      (other, c₁) ← recv_shape c
      if same_shape s.my_bloom_filter other
          then (do
            (d', c₂) ← query s d c₁
            ok (
              (true, d'),
              send_zz ntl (pos (to_zz ntl s.my_bloom_filter)) none
                  (send_data_object_list ntl d'.self_minus_other c₂),
            ))
          else ok ((false, d), c₁)

    -- The rest of the client, from what it has concluded of the filters.
    unfoldable pub client_finish :
        Bool
        → BloomFilterSync
        → Differences
        → Communicant
        → Outcome ((Bool × Differences) × Communicant)
    unfolding query
    client_finish false s d c = ok ((false, d), c)
    client_finish true s d c = do
      (new_oms, c₁) ← recv_data_object_list ntl c
      (d', c₂) ← query s (record d { other_minus_self = d.other_minus_self ++ new_oms }) c₁
      ok ((true, d'), send_data_object_list ntl d'.self_minus_other c₂)

  -- The rest of the server.
  unfoldable pub server_finish :
      Bool × Differences → Communicant → Outcome ((Bool × Differences) × Communicant)
  server_finish (false, d) c = ok ((false, d), c)
  server_finish (true, d) c = do
    (new_oms, c₁) ← recv_data_object_list ntl c
    ok ((true, record d { other_minus_self = d.other_minus_self ++ new_oms }), c₁)
