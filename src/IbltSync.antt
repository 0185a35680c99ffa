-- ===== src/IbltSync.antt =====
-- The sync method of src/Syncs/IBLTSync.cpp over include/GenSync/Aux/SyncMethod.h: its elements and
-- its table, and the two ends of the protocol, cut where an end waits for the other. An element is a
-- pointer to a data object: a number for the pointer, and the object's integer. Statistics, logs
-- and the connection itself are left out.
pub mod Elements
pub mod Exchange
mod Tests
use gensync_core.Prelude.{
  ℕ, Bool, true, false, not, ◌==◌, if◌then◌else◌, some, List, [], ◌∷◌, ◌++◌, map, length, ltb,
}
use gensync_core.Prelude.Outcome.{Outcome, ok, ◌>>=◌}
use gensync_core.Platform.{Platform}
use gensync_core.Ntl.{Ntl}
use gensync_core.Decimal.{Decimal}
use gensync_core.Iblt.{GenIblt, Listing, new, size, insert, erase, subtract, list_entries}
use gensync_core.Communicant.{
  Communicant, reset_comm_counters, send_data_object_list, recv_data_object_list,
}
use gensync_core.Communicant.Tables.{send_iblt, recv_iblt}

pub record IbltSync : Type 0 where
  pub elements : List (ℕ × ℕ)
  pub my_iblt : GenIblt
  pub one_way : Bool
  pub exp_num_elems : ℕ
  pub element_size : ℕ

-- The constructor: 4 hashes, and 11 for the check.
unfoldable pub new_sync : ℕ → ℕ → Outcome IbltSync
new_sync expected elt_size = do
  table ← new 4 11 expected elt_size
  ok (record {
    elements = [];
    my_iblt = table;
    one_way = false;
    exp_num_elems = expected;
    element_size = elt_size;
  })

-- `SyncMethod::addElem`
abbrev pub push_element : ℕ × ℕ → List (ℕ × ℕ) → List (ℕ × ℕ)
push_element datum elements = elements ++ datum ∷ []

-- `std::remove` of a pointer, in `SyncMethod::delElem`.
unfoldable pub remove_pointer : ℕ → List (ℕ × ℕ) → List (ℕ × ℕ)
remove_pointer pointer [] = []
remove_pointer pointer ((q, v) ∷ rest) =
    let rest' = remove_pointer pointer rest in if q == pointer then rest' else (q, v) ∷ rest'

-- The two lists of results that a protocol fills.
pub record Differences : Type 0 where
  pub self_minus_other : List ℕ
  pub other_minus_self : List ℕ

-- The loops over the listed pairs: the values of the positive ones, the keys of the negative ones.
abbrev pub with_listed : Listing → Differences → Differences
with_listed s d = record {
  self_minus_other = d.self_minus_other ++ map (λ x. x.0) s.negative;
  other_minus_self = d.other_minus_self ++ map (λ x. x.1) s.positive;
}

module _ (p : Platform) where
  unfoldable pub add_elem : ℕ × ℕ → IbltSync → Outcome IbltSync
  add_elem datum s = do
    table ← insert p datum.1 datum.1 s.my_iblt
    ok (record s { elements = push_element datum s.elements; my_iblt = table })

  -- The element is erased from the table, whether or not the pointer was there.
  unfoldable pub del_elem : ℕ × ℕ → IbltSync → Outcome (Bool × IbltSync)
  unfolding remove_pointer
  del_elem datum s = do
    table ← erase p datum.1 datum.1 s.my_iblt
    ok (true, record s { elements = remove_pointer datum.0 s.elements; my_iblt = table })

module _ (p : Platform) (ntl : Ntl) (dec : Decimal) where
  -- `SyncClient` once the sizes are agreed.
  unfoldable pub client_send : IbltSync → Communicant → Communicant
  client_send s c = send_iblt ntl dec s.my_iblt true c

  -- `SyncServer` once the sizes are agreed, on fuel for `listEntries`.
  unfoldable pub server_run :
      ℕ → IbltSync → Differences → Communicant → Outcome ((Bool × Differences) × Communicant)
  server_run fuel s d c = do
    (theirs, c') ← recv_iblt ntl dec (some (size s.my_iblt)) (some s.my_iblt.value_size) c
    gap ← subtract p theirs s.my_iblt
    (success, listing) ←
        list_entries p fuel (record { iblt = gap; positive = []; negative = []; n_erased = 0 })
    let d' = with_listed listing d
    ok (
      (success, d'),
      if s.one_way
          then c'
          else send_data_object_list ntl d'.other_minus_self
              (send_data_object_list ntl d'.self_minus_other c'),
    )

  -- The client's new elements and those of the server.
  unfoldable pub recv_lists : Communicant → Outcome ((List ℕ × List ℕ) × Communicant)
  recv_lists c = do
    (new_oms, c₁) ← recv_data_object_list ntl c
    (new_smo, c₂) ← recv_data_object_list ntl c₁
    ok ((new_oms, new_smo), c₂)

  abbrev pub with_received : Differences → List ℕ × List ℕ → Differences
  with_received d lists = record {
    self_minus_other = d.self_minus_other ++ lists.1;
    other_minus_self = d.other_minus_self ++ lists.0;
  }

  -- The rest of `SyncClient`.
  unfoldable pub client_finish :
      IbltSync → Differences → Communicant → Outcome ((Bool × Differences) × Communicant)
  unfolding recv_lists
  client_finish s d c =
      let exchange = recv_lists c >>= λ x. ok ((true, with_received d x.0), x.1) in
      if s.one_way then ok ((true, d), c) else exchange
