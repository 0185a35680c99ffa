-- ===== src/BloomFilterSync/Exchange.antt =====
-- What the two ends of the protocol with Bloom filters conclude.
use gensync_core.Prelude.{
  ℕ, ◌+◌, ◌*◌, ◌<◌, ◌^◌, ◌≡◌, refl, sym, ◌∙◌, Bool, true, false, List, [], ◌++◌, All, length, arith,
}
use gensync_core.Prelude.Int.{pos}
use gensync_core.Prelude.Outcome.{Outcome, ok, ◌>>=◌}
use gensync_core.Platform.{Platform}
use gensync_core.Ntl.{Ntl}
use gensync_core.Bloom.{BloomFilter, get_size, to_zz, zz_to_bf}
use gensync_core.Bloom.Transfer.{zz_to_bf-to_zz, num_bytes-to_zz}
use gensync_core.Communicant.{Communicant, send_int, recv_int}
use gensync_core.Communicant.Wire.{
  Sends, Receives, Sends-then, Receives-then, Receives-map, counted, counted-counted, delivered,
  pair_with, two-arrive,
}
use gensync_core.Communicant.Numbers.{
  Sends-send_int, Receives-recv_int, Sends-send_zz, Receives-recv_zz,
}
use gensync_core.Communicant.Strings.{
  IsShort, Sends-send_data_object_list, Receives-recv_data_object_list,
  recv_data_object_list-send_data_object_list,
}
use gensync_core.IbltSync.{Differences}
use gensync_core.BloomFilterSync.{
  BloomFilterSync, same_shape, missing, send_shape, recv_shape, server_open, client_open, query,
  server_query, client_finish, server_finish,
}

module _ (ntl : Ntl) where
  open ntl use {bytes_from_zz}

  wire_shape : BloomFilter → List ℕ
  wire_shape f = bytes_from_zz (pos (get_size f)) 4 ++ bytes_from_zz (pos f.num_hashes) 4

  Sends-send_shape : (f : BloomFilter) → Sends (send_shape ntl f) (wire_shape f)
  unfolding send_shape wire_shape
  Sends-send_shape f =
      Sends-then {g = send_int ntl (pos f.num_hashes)} (Sends-send_int ntl (pos (get_size f)))
        (Sends-send_int ntl (pos f.num_hashes))

  Receives-recv_shape :
      (f : BloomFilter)
      → get_size f < 2 ^ 31
      → f.num_hashes < 2 ^ 31
      → Receives (recv_shape ntl) (wire_shape f) (pos (get_size f), pos f.num_hashes)
  unfolding recv_shape wire_shape pair_with
  Receives-recv_shape f few some_hashes =
      Receives-then (λ a c. recv_int ntl c >>= λ b. ok ((a, b.0), b.1))
        (Receives-recv_int ntl (pos (get_size f)) few)
        (Receives-map (pair_with (pos (get_size f)))
          (Receives-recv_int ntl (pos f.num_hashes) some_hashes) refl)

  the_zz-arrives :
      (f g : BloomFilter) (m : ℕ)
      → length g.bits ≡ 8 * m
      → length f.bits ≡ length g.bits
      → f.num_hashes ≡ g.num_hashes
      → zz_to_bf ntl f (to_zz ntl g) ≡ ok g
  unfolding zz_to_bf
  the_zz-arrives f g m e l h = rw (l, h) (unfold zz_to_bf in zz_to_bf-to_zz ntl m g e)

  same_shape-true :
      (f g : BloomFilter)
      → length f.bits ≡ length g.bits
      → f.num_hashes ≡ g.num_hashes
      → same_shape f (pos (get_size g), pos g.num_hashes) ≡ true
  unfolding get_size
  same_shape-true f g l h = ground arith

  module _ (p : Platform) where
    -- Both ends, in the order in which they wait for each other: what the server and what the client
    -- conclude.
    abbrev pub exchange :
        BloomFilterSync
        → BloomFilterSync
        → Differences
        → Differences
        → Communicant
        → Outcome (((Bool × Differences) × (Bool × Differences)) × Communicant)
    exchange client server dc ds c = do
      (agreed, c₁) ← client_open ntl client (server_open ntl server c)
      (asked, c₂) ← server_query ntl p server ds c₁
      (ours, c₃) ← client_finish ntl p agreed client dc c₂
      (theirs, c₄) ← server_finish ntl asked c₃
      ok ((theirs, ours), c₄)

    -- Where the sizes or the numbers of hash functions differ, both ends answer false and report
    -- nothing, and the stream is empty again. It was empty, and the parameters fit an int.
    pub exchange-differ :
        (client server : BloomFilterSync) (dc ds : Differences) (c : Communicant)
        → c.stream ≡ []
        → get_size client.my_bloom_filter < 2 ^ 31
        → client.my_bloom_filter.num_hashes < 2 ^ 31
        → get_size server.my_bloom_filter < 2 ^ 31
        → server.my_bloom_filter.num_hashes < 2 ^ 31
        → same_shape client.my_bloom_filter
            (pos (get_size server.my_bloom_filter), pos server.my_bloom_filter.num_hashes)
          ≡ false
        → (n : ℕ) × (exchange client server dc ds c ≡ ok (((false, ds), (false, dc)), counted n c))
    unfolding server_open client_open server_query client_finish server_finish
    exchange-differ client server dc ds c e lc hc ls hs differ =
        let f = client.my_bloom_filter in
        let g = server.my_bloom_filter in
        let k = length (wire_shape g) in
        let m = length (wire_shape f) in
        let first = delivered (Sends-send_shape g) (Receives-recv_shape g ls hs) c e in
        let second = delivered (Sends-send_shape f) (Receives-recv_shape f lc hc) (counted k c) e in
        let back : same_shape g (pos (get_size f), pos f.num_hashes) ≡ false = ground arith in
        (k + m, rw (first, differ, second, back, counted-counted k m c) refl)

    -- Where the filters have the same size, a multiple of 8, and as many hash functions, both ends
    -- answer true with the same differences, the other way around. Each end adds to its own elements
    -- those that do not exist in the other filter, and to those of the other end all that the other end
    -- has listed as its own; the stream is empty again. It was empty, the parameters fit an int, the
    -- tests for the elements succeed, and the lists of own elements can be sent.
    pub bloom_exchange_mirrors :
        (client server : BloomFilterSync) (dc ds : Differences) (c : Communicant) (m : ℕ)
        {mine theirs : List ℕ}
        → c.stream ≡ []
        → length client.my_bloom_filter.bits ≡ 8 * m
        → length server.my_bloom_filter.bits ≡ 8 * m
        → 8 * m < 2 ^ 31
        → client.my_bloom_filter.num_hashes ≡ server.my_bloom_filter.num_hashes
        → server.my_bloom_filter.num_hashes < 2 ^ 31
        → missing p server.my_bloom_filter client.elements ≡ ok mine
        → missing p client.my_bloom_filter server.elements ≡ ok theirs
        → All (IsShort ntl) (dc.self_minus_other ++ mine)
        → All (IsShort ntl) (ds.self_minus_other ++ theirs)
        → length (dc.self_minus_other ++ mine) < 2 ^ 31
        → length (ds.self_minus_other ++ theirs) < 2 ^ 31
        → let own_c = dc.self_minus_other ++ mine in
          let own_s = ds.self_minus_other ++ theirs in
          let ds' : Differences = record {
            self_minus_other = own_s;
            other_minus_self = ds.other_minus_self ++ own_c;
          } in
          let dc' : Differences = record {
            self_minus_other = own_c;
            other_minus_self = dc.other_minus_self ++ own_s;
          } in
          (n : ℕ) × (exchange client server dc ds c ≡ ok (((true, ds'), (true, dc')), counted n c))
    unfolding server_open client_open server_query client_finish server_finish query get_size
    bloom_exchange_mirrors client server dc ds c m {mine} {theirs} e lc ls few same hs mc ms sc ss
          nc ns =
        let f = client.my_bloom_filter in
        let g = server.my_bloom_filter in
        let own_c = dc.self_minus_other ++ mine in
        let own_s = ds.self_minus_other ++ theirs in
        let few_f : ntl.num_bytes (pos (to_zz ntl f)) < 2 ^ 31 =
          omega (arith, num_bytes-to_zz ntl m f lc) in
        let few_g : ntl.num_bytes (pos (to_zz ntl g)) < 2 ^ 31 =
          omega (arith, num_bytes-to_zz ntl m g ls) in
        let k = length (wire_shape g) in
        let first = delivered (Sends-send_shape g) (Receives-recv_shape g (omega arith) hs) c e in
        let agree = same_shape-true f g (lc ∙ sym ls) same in
        let back = same_shape-true g f (ls ∙ sym lc) (sym same) in
        let (c₂, n₂, shape, filter) =
          two-arrive (Sends-send_shape f) (Sends-send_zz ntl (pos (to_zz ntl f)))
            (Receives-recv_shape f (omega arith) (omega arith))
            (Receives-recv_zz ntl (pos (to_zz ntl f)) few_f) (counted k c) e in
        let built = the_zz-arrives g f m lc (ls ∙ sym lc) (sym same) in
        let (c₄, n₄, listed, filter') =
          two-arrive (Sends-send_data_object_list ntl own_s) (Sends-send_zz ntl (pos (to_zz ntl g)))
            (Receives-recv_data_object_list ntl own_s ss ns)
            (Receives-recv_zz ntl (pos (to_zz ntl g)) few_g) (counted n₂ (counted k c)) e in
        let built' = the_zz-arrives f g m ls (lc ∙ sym ls) same in
        let (n₅, last) =
          recv_data_object_list-send_data_object_list ntl own_c
            (counted n₄ (counted n₂ (counted k c))) sc nc e in
        (
          k + (n₂ + (n₄ + n₅)),
          rw
              (
                first,
                agree,
                shape,
                back,
                filter,
                built,
                ms,
                listed,
                filter',
                built',
                mc,
                last,
                counted-counted n₄ n₅,
                counted-counted n₂ (n₄ + n₅),
                counted-counted k (n₂ + (n₄ + n₅)),
              )
              refl,
        )
