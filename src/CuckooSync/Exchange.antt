-- ===== src/CuckooSync/Exchange.antt =====
-- What the two ends of the protocol with cuckoo filters conclude.
use gensync_core.Prelude.{ℕ, ◌+◌, ◌*◌, ◌<◌, ◌≤◌, ◌^◌, ◌≡◌, refl, sym, List, [], ◌++◌, All, length}
use mathlib.Core.Path.{subst}
use gensync_core.Prelude.Int.{pos}
use gensync_core.Prelude.Outcome.{Outcome, ok, ◌>>=◌}
use gensync_core.Platform.{Platform}
use gensync_core.Ntl.{Ntl}
use gensync_core.Cuckoo.{Cuckoo}
use gensync_core.Communicant.{Communicant}
use gensync_core.Communicant.Wire.{counted, counted-counted}
use gensync_core.Communicant.Strings.{IsShort, recv_data_object_list-send_data_object_list}
use gensync_core.IbltSync.{Differences}
use gensync_core.CuckooSync.{
  CuckooSync, send_cuckoo, recv_cuckoo, missing, client_send, server_query, client_query,
  server_finish, client_finish,
}
use gensync_core.CuckooSync.Transfer.{made, recv_cuckoo-send_cuckoo}

-- A filter that the stream carries whole.
pub record IsSendable (ntl : Ntl) (p : Platform) (cf : Cuckoo) : Type 0 where
  pub f : ℕ
  pub b : ℕ
  pub n : ℕ
  pub kicks : ℕ
  pub items : ℕ
  pub st : List ℕ
  pub is_made : cf ≡ made p f b n kicks items st
  pub some_bits : 0 < f
  pub few_bits : f ≤ 32
  pub some_columns : 0 < b
  pub few_columns : b < 2 ^ 63
  pub some_rows : 0 < n
  pub few_rows : n < 2 ^ 63
  pub few_kicks : kicks < 2 ^ 63
  pub few_items : ntl.num_bytes (pos items) < 2 ^ 31
  pub small : f * b * n < 2 ^ 64
  pub whole : 8 * length st ≡ f * b * n

module _ (p : Platform) (ntl : Ntl) where
  filter-arrives :
      (cf : Cuckoo)
      → IsSendable ntl p cf
      → (c : Communicant) → c.stream ≡ []
      → (k : ℕ) × (recv_cuckoo ntl p (send_cuckoo ntl cf c) ≡ ok (cf, counted k c))
  filter-arrives cf h c e =
      subst (λ x. (k : ℕ) × (recv_cuckoo ntl p (send_cuckoo ntl x c) ≡ ok (x, counted k c)))
        (sym h.is_made)
        (recv_cuckoo-send_cuckoo ntl p h.f h.b h.n h.kicks h.items h.st h.some_bits h.few_bits
          h.some_columns h.few_columns h.some_rows h.few_rows h.few_kicks h.few_items h.small
          h.whole c e)

  -- Both ends, in the order in which they wait for each other.
  abbrev pub exchange :
      CuckooSync
      → CuckooSync
      → Differences
      → Differences
      → Communicant
      → Outcome ((Differences × Differences) × Communicant)
  exchange client server dc ds c = do
    (ds', c₁) ← server_query p ntl server ds (client_send p ntl client c)
    (dc', c₂) ← client_query p ntl client dc c₁
    (rs, c₃) ← server_finish p ntl ds' c₂
    (rc, c₄) ← client_finish p ntl dc' c₃
    ok ((rs.1, rc.1), c₄)

  -- The two ends end with the same differences, the other way around. Each end adds to its own elements
  -- those that it misses in the other's filter, and to the other's elements all that the other end has
  -- then listed as its own; the stream is empty again. Both filters can be sent, the lookups succeed,
  -- the stream was empty, and the lists of own elements can be sent.
  pub cuckoo_exchange_mirrors :
      (client server : CuckooSync) (dc ds : Differences) (c : Communicant) {mine theirs : List ℕ}
      → c.stream ≡ []
      → IsSendable ntl p client.my_cf
      → IsSendable ntl p server.my_cf
      → missing p server.my_cf client.elements ≡ ok mine
      → missing p client.my_cf server.elements ≡ ok theirs
      → All (IsShort ntl) (dc.self_minus_other ++ mine)
      → All (IsShort ntl) (ds.self_minus_other ++ theirs)
      → length (dc.self_minus_other ++ mine) < 2 ^ 31
      → length (ds.self_minus_other ++ theirs) < 2 ^ 31
      → let own_c = dc.self_minus_other ++ mine in
        let own_s = ds.self_minus_other ++ theirs in
        let ds' : Differences = record {
          self_minus_other = own_s;
          other_minus_self = ds.other_minus_self ++ own_c;
        } in
        let dc' : Differences = record {
          self_minus_other = own_c;
          other_minus_self = dc.other_minus_self ++ own_s;
        } in
        (k : ℕ) × (exchange client server dc ds c ≡ ok ((ds', dc'), counted k c))
  unfolding client_send server_query client_query server_finish client_finish
  cuckoo_exchange_mirrors client server dc ds c {mine} {theirs} e hc hs mc ms sc ss lc ls =
      let own_c = dc.self_minus_other ++ mine in
      let own_s = ds.self_minus_other ++ theirs in
      let (i, first) = filter-arrives client.my_cf hc c e in
      let (j, second) = filter-arrives server.my_cf hs (counted i c) e in
      let (k, third) =
        recv_data_object_list-send_data_object_list ntl own_c (counted j (counted i c)) sc lc e in
      let (l, fourth) =
        recv_data_object_list-send_data_object_list ntl own_s (counted k (counted j (counted i c)))
          ss ls e in
      (
        i + (j + (k + l)),
        rw
            (
              first,
              ms,
              second,
              mc,
              third,
              fourth,
              counted-counted k l,
              counted-counted j (k + l),
              counted-counted i (j + (k + l)),
            )
            refl,
      )
