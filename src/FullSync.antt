-- ===== src/FullSync.antt =====
-- The sync method of src/Syncs/FullSync.cpp and include/GenSync/Syncs/FullSync.h, over
-- include/GenSync/Aux/SyncMethod.h, and `rangeDiff` of include/GenSync/Aux/Auxiliary.h. The multiset of
-- elements is kept by value, in ascending order. The two ends of the protocol are cut where one waits
-- for the other. Statistics, logs and the connection itself are left out.
pub mod Multiset
pub mod Elements
pub mod Exchange
pub mod Reconcile
mod Tests
use gensync_core.Prelude.{
  ℕ, zero, suc, Bool, true, false, ◌==◌, ltb, if◌then◌else◌, List, [], ◌∷◌, ◌++◌, map, length,
}
use gensync_core.Prelude.Int.{pos}
use gensync_core.Prelude.Outcome.{next_int, Outcome, ok, ◌>>=◌}
use gensync_core.Ntl.{Ntl}
use gensync_core.Communicant.{
  Communicant, send_long, recv_long, send_objects, recv_data_object, rounds, send_data_object_list,
}
use gensync_core.IbltSync.{Differences, push_element, remove_pointer}

pub record FullSync : Type 0 where
  pub elements : List (ℕ × ℕ)
  pub my_data : List ℕ

abbrev pub new_sync : FullSync
new_sync = record { elements = []; my_data = [] }

-- `std::multiset::insert`: after the elements that are not greater.
unfoldable pub multiset_insert : ℕ → List ℕ → List ℕ
multiset_insert x [] = x ∷ []
multiset_insert x (y ∷ ys) =
    let rest = multiset_insert x ys in if ltb x y then x ∷ y ∷ ys else y ∷ rest

-- `std::multiset::erase` of a key: every element that is equal to it.
unfoldable pub multiset_erase : ℕ → List ℕ → List ℕ
multiset_erase x [] = []
multiset_erase x (y ∷ ys) = let rest = multiset_erase x ys in if y == x then rest else y ∷ rest

-- `rangeDiff`, which is `std::set_difference` by the order of the elements.
unfoldable pub range_diff : List ℕ → List ℕ → List ℕ
range_diff [] ys = []
range_diff (x ∷ xs) [] = x ∷ xs
range_diff (x ∷ xs) (y ∷ ys) =
    let here = x ∷ range_diff xs (y ∷ ys) in
    let past = range_diff (x ∷ xs) ys in
    let both = range_diff xs ys in if ltb x y then here else if ltb y x then past else both

unfoldable pub add_elem : ℕ × ℕ → FullSync → Bool × FullSync
unfolding multiset_insert
add_elem datum s = (
  true,
  record { elements = push_element datum s.elements; my_data = multiset_insert datum.1 s.my_data },
)

-- The data are erased only where a pointer was removed.
unfoldable pub del_elem : ℕ × ℕ → FullSync → Bool × FullSync
unfolding remove_pointer multiset_erase
del_elem datum s =
    let rest = remove_pointer datum.0 s.elements in
    if ltb (length rest) (length s.elements)
    then (true, record { elements = rest; my_data = multiset_erase datum.1 s.my_data })
    else (false, record s { elements = rest })

module _ (ntl : Ntl) where
  -- `SyncClient`, up to where the server's answer is awaited.
  unfoldable pub client_send : FullSync → Communicant → Communicant
  client_send s c =
      send_objects ntl (map (λ x. x.1) s.elements) (send_long ntl (pos (length s.elements)) c)

  -- The loop that receives elements into a multiset, by the rounds left and the `int` that counts
  -- them.
  pub recv_multiset : ℕ → ℕ → List ℕ → Communicant → Outcome (List ℕ × Communicant)
  unfolding multiset_insert
  recv_multiset zero ii other c = ok (other, c)
  recv_multiset (suc n) ii other c = do
    (d, c') ← recv_data_object ntl c
    ii' ← next_int ii
    recv_multiset n ii' (multiset_insert d other) c'

  unfoldable pub server_run :
      FullSync → Differences → Communicant → Outcome ((Bool × Differences) × Communicant)
  unfolding recv_multiset range_diff
  server_run s d c = do
    (size, c₁) ← recv_long ntl c
    (other, c₂) ← recv_multiset (rounds size) 0 [] c₁
    let d' : Differences = record {
      self_minus_other = d.self_minus_other ++ range_diff s.my_data other;
      other_minus_self = d.other_minus_self ++ range_diff other s.my_data;
    }
    ok (
      (true, d'),
      send_data_object_list ntl d'.self_minus_other
          (send_data_object_list ntl d'.other_minus_self c₂),
    )

  -- The loop of `commRecv_DoList`, by the rounds left; a `long` counts up to any `long`.
  pub recv_do_objects : ℕ → Communicant → Outcome (List ℕ × Communicant)
  recv_do_objects zero c = ok ([], c)
  recv_do_objects (suc n) c = do
    (d, c') ← recv_data_object ntl c
    (ds, c'') ← recv_do_objects n c'
    ok (d ∷ ds, c'')

  -- `commRecv_DoList`
  unfoldable pub recv_do_list : Communicant → Outcome (List ℕ × Communicant)
  unfolding recv_do_objects
  recv_do_list c = do (num_diffs, c') ← recv_long ntl c; recv_do_objects (rounds num_diffs) c'

  -- The rest of the client. Its lists are replaced.
  unfoldable pub client_finish :
      FullSync → Differences → Communicant → Outcome ((Bool × Differences) × Communicant)
  unfolding recv_do_list
  client_finish s d c = do
    (smo, c₁) ← recv_do_list c
    (oms, c₂) ← recv_do_list c₁
    ok ((true, record { self_minus_other = smo; other_minus_self = oms }), c₂)
