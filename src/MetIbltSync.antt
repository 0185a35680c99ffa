-- ===== src/MetIbltSync.antt =====
-- The sync method of src/Syncs/MET_IBLTSync.cpp over include/GenSync/Aux/SyncMethod.h: its elements
-- and its rateless table, which both ends let grow until the server can list the difference. The
-- loops of the two ends are cut where an end waits for the other. An element is a pointer and the
-- integer of its object. Statistics, logs and the connection itself are left out.
pub mod Elements
pub mod Grow
pub mod Round
mod Tests
use gensync_core.Prelude.{
  ℕ, zero, suc, ◌+◌, ◌*◌, ◌^◌, Bool, true, false, not, ◌==◌, ltb, if◌then◌else◌, Option, none, some,
  List, [], ◌∷◌, ◌++◌, ◌⊎◌, inl, inr,
}
use gensync_core.Prelude.Int.{ℤ, pos}
use gensync_core.Prelude.Outcome.{Outcome, ok, ◌>>=◌, load_at}
use gensync_core.Platform.{Platform}
use gensync_core.Ntl.{Ntl}
use gensync_core.Decimal.{Decimal}
use gensync_core.Iblt.{GenIblt, subtract}
use gensync_core.Communicant.{
  Communicant, send_int, recv_int, send_data_object_list, recv_data_object_list,
}
use gensync_core.Communicant.Tables.{send_gen_iblt, recv_gen_iblt}
use gensync_core.IbltSync.{Differences, push_element, remove_pointer, recv_lists, with_received}
use gensync_core.MetIblt.{
  MetIblt, new_met, add_cell_type, add_gen_iblt, get_table, insert_all, insert_type, erase_all,
  peel_all,
}

pub record MetIbltSync : Type 0 where
  pub elements : List (ℕ × ℕ)
  pub my_met : MetIblt
  pub element_size : ℕ
  pub cell_type_func : ℕ → ℕ
  pub deg_matrix_func : ℕ → List ℕ

abbrev pub default_cell_type : ℕ → ℕ
default_cell_type index = 2 ^ index * 5

abbrev pub default_deg_matrix : ℕ → List ℕ
default_deg_matrix index =
    if index == 0 then 3 ∷ 4 ∷ 2 ∷ [] else if ltb index 4 then 4 ∷ 4 ∷ 4 ∷ [] else 5 ∷ 5 ∷ 5 ∷ []

-- The constructor, by the probabilities of the types of elements, and what `key2type` makes of them
-- in floats.
module _ {Probs : Type 0} (default_probs : Probs) (key2type : Probs → ℕ → ℕ) where
  pub with_functions : ℕ → Probs → (ℕ → ℕ) → (ℕ → List ℕ) → Outcome MetIbltSync
  with_functions elt_size probs cells degrees = do
    m ← new_met (degrees 0 ∷ []) (cells 0 ∷ []) (key2type probs) elt_size
    ok (record {
      elements = [];
      my_met = m;
      element_size = elt_size;
      cell_type_func = cells;
      deg_matrix_func = degrees;
    })

  unfoldable pub new_sync :
      ℕ → Option Probs → Option (ℕ → ℕ) → Option (ℕ → List ℕ) → Outcome MetIbltSync
  unfolding with_functions
  new_sync elt_size (some probs) (some cells) (some degrees) =
      with_functions elt_size probs cells degrees
  new_sync elt_size probs cells degrees =
      with_functions elt_size default_probs default_cell_type default_deg_matrix

module _ (p : Platform) where
  unfoldable pub add_elem : ℕ × ℕ → MetIbltSync → Outcome (Bool × MetIbltSync)
  add_elem datum s = do
    m ← insert_all p datum.1 s.my_met
    ok (true, record s { elements = push_element datum s.elements; my_met = m })

  unfoldable pub del_elem : ℕ × ℕ → MetIbltSync → Outcome (Bool × MetIbltSync)
  del_elem datum s = do
    m ← erase_all p datum.1 s.my_met
    ok (true, record s { elements = remove_pointer datum.0 s.elements; my_met = m })

  pub insert_elements : List (ℕ × ℕ) → ℕ → MetIblt → Outcome MetIblt
  insert_elements [] index m = ok m
  insert_elements (e ∷ es) index m = insert_type p e.1 index m >>= insert_elements es index

  -- Both ends, when the difference could not be listed: one type of cells more. `index` is the
  -- round's `mIndex`, already advanced.
  unfoldable pub grow : ℕ → MetIbltSync → Outcome MetIbltSync
  unfolding insert_elements
  grow index s = do
    m ← add_cell_type (s.cell_type_func index) (s.deg_matrix_func index) s.my_met
    m' ← insert_elements s.elements index m
    ok (record s { my_met = m' })

-- An int as a bool.
abbrev pub is_nonzero : ℤ → Bool
is_nonzero (pos zero) = false
is_nonzero n = true

-- The difference that the server starts from.
abbrev pub no_difference : MetIblt
no_difference = record {
  deg_matrix = [];
  m_cells = [];
  key2type = λ k. 0;
  tables = [];
  elt_size = 0;
}

module _ (p : Platform) (ntl : Ntl) (dec : Decimal) where
  -- The first half of a round of `SyncClient`.
  unfoldable pub client_send : ℕ → MetIbltSync → Communicant → Outcome Communicant
  client_send index s c = do t ← get_table s.my_met index; ok (send_gen_iblt ntl dec t true c)

  -- Its second half: whether the loop ends, and the method for the next round.
  unfoldable pub client_hear :
      ℕ → MetIbltSync → Communicant → Outcome ((Bool × MetIbltSync) × Communicant)
  client_hear index s c = do
    (answer, c') ← recv_int ntl c
    let grown = grow p (index + 1) s >>= λ s'. ok ((false, s'), c')
    if is_nonzero answer then ok ((true, s), c') else grown

  -- A round of `SyncServer`: the listed values if the loop ends, else the method with its new table,
  -- and the difference so far; with fuel for `listEntries` and for the rounds of `peelAll`.
  unfoldable pub server_round :
      ℕ
      → ℕ
      → ℕ
      → MetIbltSync
      → MetIblt
      → Communicant
      → Outcome ((MetIbltSync × Option (List ℕ × List ℕ) × MetIblt) × Communicant)
  server_round fuel rounds index s diff c = do
    cells ← load_at s.my_met.m_cells index
    own ← get_table s.my_met index
    (theirs, c') ← recv_gen_iblt ntl dec (some cells) (some s.element_size) own.calc_num_hashes c
    gap ← subtract p own theirs
    let diff' = add_gen_iblt gap diff
    (success, found_pos, found_neg, rest) ← peel_all p fuel rounds diff'
    let c'' = send_int ntl (pos (if success then 1 else 0)) c'
    let grown = grow p (index + 1) s >>= λ s'. ok ((s', none, diff'), c'')
    if success then ok ((s, some (found_pos, found_neg), diff'), c'') else grown

  -- The rest of `SyncServer`.
  unfoldable pub server_finish :
      List ℕ × List ℕ → Differences → Communicant → (Bool × Differences) × Communicant
  server_finish found d c =
      let d' : Differences = record {
        self_minus_other = d.self_minus_other ++ found.0;
        other_minus_self = d.other_minus_self ++ found.1;
      } in
      (
        (true, d'),
        send_data_object_list ntl d'.other_minus_self
            (send_data_object_list ntl d'.self_minus_other c),
      )

  -- The rest of `SyncClient`.
  unfoldable pub client_finish :
      Differences → Communicant → Outcome ((Bool × Differences) × Communicant)
  client_finish d c =
      recv_lists p ntl dec c >>= λ x. ok ((true, with_received p ntl dec d x.0), x.1)
