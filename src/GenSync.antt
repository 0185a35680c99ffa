-- ===== src/GenSync.antt =====
-- The container of src/Syncs/GenSync.cpp and include/GenSync/Syncs/GenSync.h, over the list of
-- src/Data/InMemContainer.cpp: its elements, its sync methods and its communicants. What a GenSync asks
-- of a sync method is an interface; a communicant is a number. The file that new elements are appended
-- to is the list of what was written to it. The post-processing is the default one. Statistics and
-- logs are left out.
pub mod Method
pub mod InStep
pub mod Reach
pub mod Clear
pub mod Union
mod Tests
use gensync_core.Prelude.{
  ℕ, zero, suc, ◌-◌, ◌≡◌, Bool, true, false, ◌&&◌, ◌==◌, ltb, leb, not, if◌then◌else◌, Option, none,
  some, List, [], ◌∷◌, ◌++◌, length, set, take, drop,
}
use gensync_core.Prelude.Outcome.{
  Outcome, ok, stop, quits, throws, undefined, out_of_fuel, ◌>>=◌, load_at,
}
use gensync_core.IbltSync.{push_element, remove_pointer}

-- A sync method as a GenSync uses it: `addElem` and `delElem`, and the elements of the base class. An
-- element is pushed whatever is answered, and its pointer removed; false is answered by `delElem` only
-- where the pointer was not there.
pub record SyncMethod : Type 1 where
  pub State : Type 0
  pub add_elem : ℕ × ℕ → State → Outcome (Bool × State)
  pub del_elem : ℕ × ℕ → State → Outcome (Bool × State)
  pub elements : State → List (ℕ × ℕ)
  pub add_pushes :
      (d : ℕ × ℕ) (s s' : State) (b : Bool)
      → add_elem d s ≡ ok (b, s')
      → elements s' ≡ push_element d (elements s)
  pub del_removes :
      (d : ℕ × ℕ) (s s' : State) (b : Bool)
      → del_elem d s ≡ ok (b, s')
      → elements s' ≡ remove_pointer d.0 (elements s)
  pub del_misses :
      (d : ℕ × ℕ) (s s' : State)
      → del_elem d s ≡ ok (false, s')
      → remove_pointer d.0 (elements s) ≡ elements s

-- A method with its state.
abbrev pub Agent : Type 1
Agent = (m : SyncMethod) × m.State

abbrev pub held : Agent → List (ℕ × ℕ)
held a = a.0.elements a.1

pub record GenSync : Type 1 where
  pub my_data : List (ℕ × ℕ)
  pub my_sync_vec : List Agent
  pub my_comm_vec : List ℕ
  pub out_file : Option (List ℕ)

-- `addElem` of every method; one that refuses ends the program.
pub add_all : ℕ × ℕ → List Agent → Outcome (List Agent)
add_all d [] = ok []
add_all d ((m, s) ∷ agents) = do
  (done, s') ← m.add_elem d s
  let rest = add_all d agents
  if done then (do agents' ← rest; ok ((m, s') ∷ agents')) else stop quits

abbrev pub write_out : ℕ → Option (List ℕ) → Option (List ℕ)
write_out v none = none
write_out v (some lines) = some (lines ++ v ∷ [])

unfoldable pub add_elem : ℕ × ℕ → GenSync → Outcome GenSync
unfolding add_all
add_elem d g = do
  agents ← add_all d g.my_sync_vec
  ok (record g {
    my_data = push_element d g.my_data;
    my_sync_vec = agents;
    out_file = write_out d.1 g.out_file;
  })

-- `delElem` of every method, up to the first that answers false.
pub del_all : ℕ × ℕ → List Agent → Outcome (Bool × List Agent)
del_all d [] = ok (true, [])
del_all d ((m, s) ∷ agents) = do
  (done, s') ← m.del_elem d s
  let rest = del_all d agents
  if done
      then (do (all, agents') ← rest; ok (all, (m, s') ∷ agents'))
      else ok (false, (m, s') ∷ agents)

abbrev pub is_empty : List (ℕ × ℕ) → Bool
is_empty [] = true
is_empty (d ∷ ds) = false

unfoldable pub del_elem : ℕ × ℕ → GenSync → Outcome (Bool × GenSync)
unfolding del_all remove_pointer
del_elem d g = if is_empty g.my_data then ok (false, g) else (do
  (all, agents) ← del_all d g.my_sync_vec
  let rest = remove_pointer d.0 g.my_data
  if all
      then ok
          (ltb (length rest) (length g.my_data), record g { my_data = rest; my_sync_vec = agents })
      else ok (false, record g { my_sync_vec = agents }))

-- The node that the iterator of `clearData` stands at is gone.
abbrev pub is_dangling : ℕ → List (ℕ × ℕ) → Bool
is_dangling pointer [] = false
is_dangling pointer ((q, v) ∷ rest) = q == pointer

-- The loop of `clearData` over the nodes that are left, on fuel. The iterator stands at the second
-- node when the first is deleted, and with it every node of the same pointer.
pub clear_loop : ℕ → List (ℕ × ℕ) → Bool → GenSync → Outcome (Bool × GenSync)
clear_loop fuel [] success g = ok (success, g)
clear_loop zero (d ∷ nodes) success g = stop out_of_fuel
clear_loop (suc fuel) (d ∷ nodes) success g = do
  (done, g') ← del_elem d g
  let removed = ltb (length g'.my_data) (length g.my_data)
  let left = if removed then remove_pointer d.0 nodes else nodes
  let rest = clear_loop fuel left (success && done) g'
  if removed && is_dangling d.0 nodes then stop undefined else rest

unfoldable pub clear_data : GenSync → Outcome (Bool × GenSync)
unfolding clear_loop del_elem
clear_data g = do
  (success, g') ← clear_loop (length g.my_data) g.my_data true g
  ok (success && is_empty g'.my_data, g')

-- `std::remove` of a communicant.
pub del_comm_ptr : ℕ → List ℕ → List ℕ
del_comm_ptr old_comm [] = []
del_comm_ptr old_comm (c ∷ cs) =
    let rest = del_comm_ptr old_comm cs in if c == old_comm then rest else c ∷ rest

-- `advance` and `vector::insert`; past the end they are undefined.
abbrev pub insert_at {ℓ} : {A : Type ℓ} → ℕ → A → List A → Outcome (List A)
insert_at index x xs =
    if leb index (length xs) then ok (take index xs ++ x ∷ drop index xs) else stop undefined

-- `advance` and `vector::erase`, for which the end is past the end too.
abbrev pub erase_at {ℓ} : {A : Type ℓ} → ℕ → List A → Outcome (List A)
erase_at index xs =
    if ltb index (length xs) then ok (take index xs ++ drop (suc index) xs) else stop undefined

-- An index of 0 stands for the end, and any other is counted from 1.
unfoldable pub add_comm : ℕ → ℕ → GenSync → Outcome GenSync
add_comm new_comm zero g = ok (record g { my_comm_vec = g.my_comm_vec ++ new_comm ∷ [] })
add_comm new_comm (suc i) g = do
  comms ← insert_at i new_comm g.my_comm_vec
  ok (record g { my_comm_vec = comms })

-- Here both 0 and 1 stand for the first.
unfoldable pub del_comm : ℕ → GenSync → Outcome GenSync
del_comm index g = do
  comms ← erase_at (index - 1) g.my_comm_vec
  ok (record g { my_comm_vec = comms })

unfoldable pub del_old_comm : ℕ → GenSync → GenSync
unfolding del_comm_ptr
del_old_comm old_comm g = record g { my_comm_vec = del_comm_ptr old_comm g.my_comm_vec }

-- The elements, one by one, into a new method.
pub fill : List (ℕ × ℕ) → Agent → Outcome Agent
fill [] a = ok a
fill (d ∷ ds) (m, s) = do
  (done, s') ← m.add_elem d s
  let rest = fill ds (m, s')
  if done then rest else stop quits

unfoldable pub add_sync_agt : Agent → ℕ → GenSync → Outcome GenSync
unfolding fill
add_sync_agt new_agt index g = do
  agt ← fill g.my_data new_agt
  agents ← insert_at index agt g.my_sync_vec
  ok (record g { my_sync_vec = agents })

unfoldable pub del_sync_agt : ℕ → GenSync → Outcome GenSync
del_sync_agt index g = do
  agents ← erase_at index g.my_sync_vec
  ok (record g { my_sync_vec = agents })

-- `SyncMethod::postProcessing_SET`, and the loop of the constructor.
pub post_processing : List (ℕ × ℕ) → GenSync → Outcome GenSync
post_processing [] g = ok g
post_processing (d ∷ ds) g = add_elem d g >>= post_processing ds

unfoldable pub new_sync : List ℕ → List Agent → List (ℕ × ℕ) → Outcome GenSync
unfolding post_processing add_elem
new_sync comms methods given =
    post_processing given
      (record { my_data = []; my_sync_vec = methods; my_comm_vec = comms; out_file = none })

-- A SyncFailureException ends the program.
abbrev pub caught {ℓ} : {A : Type ℓ} → Outcome A → Outcome A
caught (ok a) = ok a
caught (stop s) = elim s [ throws ↦ stop quits | other ↦ stop other ]

-- One end of a protocol, `SyncServer` or `SyncClient` of a method over a communicant: its answer, the
-- state that it leaves the method in, and the elements that the other end is found to have more, as
-- new objects. It leaves the elements of the method alone: those are added afterwards.
pub record ProtocolEnd : Type 1 where
  pub run : (a : Agent) → ℕ → Outcome (Bool × a.0.State × List (ℕ × ℕ))
  pub keeps :
      (a : Agent) (comm : ℕ) (answer : Bool) (s : a.0.State) (found : List (ℕ × ℕ))
      → run a comm ≡ ok (answer, s, found)
      → a.0.elements s ≡ held a

-- The method of the index in another state.
abbrev pub with_state : ℕ → (a : Agent) → a.0.State → GenSync → GenSync
with_state sync_num a s g = record g { my_sync_vec = set g.my_sync_vec sync_num (a.0, s) }

-- The loop of the server over the communicants.
pub begin_loop : ProtocolEnd → ℕ → List ℕ → Bool → GenSync → Outcome (Bool × GenSync)
begin_loop end sync_num [] success g = ok (success, g)
begin_loop end sync_num (comm ∷ comms) success g = do
  agt ← load_at g.my_sync_vec sync_num
  (done, s, found) ← caught (end.run agt comm)
  g' ← post_processing found (with_state sync_num agt s g)
  begin_loop end sync_num comms (success && done) g'

unfoldable pub server_sync_begin : ProtocolEnd → ℕ → GenSync → Outcome (Bool × GenSync)
unfolding begin_loop post_processing add_elem load_at
server_sync_begin end sync_num g = begin_loop end sync_num g.my_comm_vec true g

-- The loop of the client.
pub client_loop : ProtocolEnd → ℕ → List ℕ → Bool → GenSync → Outcome (Bool × GenSync)
client_loop end sync_num [] success g = ok (success, g)
client_loop end sync_num (comm ∷ comms) success g = do
  agt ← load_at g.my_sync_vec sync_num
  (done, s, found) ← caught (end.run agt comm)
  g' ← post_processing found (with_state sync_num agt s g)
  client_loop end sync_num comms (if done then success else false) g'

unfoldable pub client_sync_begin : ProtocolEnd → ℕ → GenSync → Outcome (Bool × GenSync)
unfolding client_loop post_processing add_elem load_at
client_sync_begin end sync_num g = client_loop end sync_num g.my_comm_vec true g
