-- ===== src/GenSync/Tests.antt =====
-- Containers with one FullSync, at concrete inputs: one holds 5 twice and 8, the other 5 and 9.
use gensync_core.Prelude.{◌≡◌, refl, true, [], ◌∷◌, none, arith}
use mathlib.Core.Quot
use gensync_core.Prelude.Bags.{Bag}
use gensync_core.Prelude.Outcome.{ok, stop, undefined}
use gensync_core.Ntl.{sample_ntl, count_bytes}
use gensync_core.Communicant.{Communicant}
use gensync_core.IbltSync.{Differences, remove_pointer}
use gensync_core.FullSync
use gensync_core.FullSync.{FullSync, range_diff, multiset_insert, multiset_erase}
use gensync_core.FullSync.Elements
use gensync_core.FullSync.Elements.{values}
use gensync_core.FullSync.Exchange.{exchange_run, gathered}
use gensync_core.GenSync.{
  GenSync, add_elem, del_elem, clear_data, new_sync, server_sync_begin, client_sync_begin,
}
use gensync_core.GenSync.Method.{full_method}
use gensync_core.GenSync.InStep.{IsInStep}
use gensync_core.GenSync.Reach.{Reach, Step, Reach-IsInStep}
use gensync_core.GenSync.Clear.{clear_data-twice}
use gensync_core.GenSync.Union.{IsFull, reported, sync_begin-union}

abbrev client : FullSync
client = record { elements = (1, 5) ∷ (2, 8) ∷ (3, 5) ∷ []; my_data = 5 ∷ 5 ∷ 8 ∷ [] }

abbrev server : FullSync
server = record { elements = (4, 9) ∷ (5, 5) ∷ []; my_data = 5 ∷ 9 ∷ [] }

-- A container of the elements of its only method.
abbrev over : FullSync → GenSync
over s = record {
  my_data = s.elements;
  my_sync_vec = (full_method, s) ∷ [];
  my_comm_vec = 0 ∷ [];
  out_file = none;
}

over-IsFull : (s : FullSync) → IsFull (over s) s
over-IsFull s = record { method = refl; comm = 0; one_comm = refl; in_step = (refl, tt) }

server-IsInStep : FullSync.Elements.IsInStep server
server-IsInStep = record { sorted = omega arith; same = λ a. ground arith }

abbrev open_end : Communicant
open_end = record {
  stream = [];
  xfer_bytes = 0;
  xfer_bytes_tot = 0;
  recv_bytes = 0;
  recv_bytes_tot = 0;
  mod_size = none;
}

abbrev nothing : Differences
nothing = record { self_minus_other = []; other_minus_self = [] }

-- The server finds a second 5 and 8, the client 9.
server_finds :
    values ((6, 5) ∷ (7, 8) ∷ []) ≡ range_diff (gathered (values client.elements) []) server.my_data
unfolding range_diff gathered multiset_insert
server_finds = refl

client_finds :
    values ((8, 9) ∷ []) ≡ range_diff server.my_data (gathered (values client.elements) [])
unfolding range_diff gathered multiset_insert
client_finds = refl

sync_begin-union_example :
    (gs' : GenSync) × (gc' : GenSync) × (server_sync_begin
        (reported true ((6, 5) ∷ (7, 8) ∷ []))
        0
        (over server)
      ≡ ok (true, gs'))
    × (client_sync_begin (reported true ((8, 9) ∷ [])) 0 (over client) ≡ ok (true, gc'))
    × ◌≡◌ {A = Bag} (Quot.mk (values gs'.my_data)) (Quot.mk (values gc'.my_data))
sync_begin-union_example =
    sync_begin-union sample_ntl client server (over client) (over server) nothing _ _ open_end _
      ((8, 9) ∷ []) ((6, 5) ∷ (7, 8) ∷ []) true true (over-IsFull client) (over-IsFull server)
      server-IsInStep refl (unfold count_bytes in (omega arith, (omega arith, (omega arith, tt))))
      (unfold count_bytes in (omega arith, (omega arith, tt))) (omega arith) (omega arith)
      (exchange_run sample_ntl client server nothing open_end refl
        (unfold count_bytes in (omega arith, (omega arith, (omega arith, tt))))
        (unfold count_bytes in (omega arith, (omega arith, tt))) (omega arith) (omega arith)).1
      server_finds client_finds

-- One 5 is added, and 9 is deleted.
abbrev made : GenSync
made = over (record { elements = (4, 9) ∷ (5, 5) ∷ []; my_data = 5 ∷ 9 ∷ [] })

abbrev grown : GenSync
grown = over (record { elements = (4, 9) ∷ (5, 5) ∷ (6, 5) ∷ []; my_data = 5 ∷ 5 ∷ 9 ∷ [] })

abbrev shrunk : GenSync
shrunk = over (record { elements = (5, 5) ∷ (6, 5) ∷ []; my_data = 5 ∷ 5 ∷ [] })

makes : new_sync (0 ∷ []) ((full_method, FullSync.new_sync) ∷ []) ((4, 9) ∷ (5, 5) ∷ []) ≡ ok made
unfolding new_sync FullSync.add_elem multiset_insert
makes = refl

grows : add_elem (6, 5) made ≡ ok grown
unfolding add_elem FullSync.add_elem multiset_insert
grows = refl

shrinks : del_elem (4, 9) grown ≡ ok (true, shrunk)
unfolding del_elem FullSync.del_elem multiset_erase remove_pointer
shrinks = refl

Reach-IsInStep_example : IsInStep shrunk
Reach-IsInStep_example =
    Reach-IsInStep (0 ∷ []) ((full_method, FullSync.new_sync) ∷ []) ((4, 9) ∷ (5, 5) ∷ []) made
      shrunk (refl, tt) makes
      (Reach.next (Reach.next Reach.here (Step.adds (6, 5) grows))
        (Step.deletes (4, 9) true shrinks))

-- One object, added twice.
abbrev twice : GenSync
twice = over (record { elements = (4, 9) ∷ (4, 9) ∷ []; my_data = 9 ∷ 9 ∷ [] })

abbrev emptied : GenSync
emptied = over (record { elements = []; my_data = [] })

empties : del_elem (4, 9) twice ≡ ok (true, emptied)
unfolding del_elem FullSync.del_elem multiset_erase remove_pointer
empties = refl

clear_data-twice_example : clear_data twice ≡ stop undefined
clear_data-twice_example = clear_data-twice twice emptied 4 9 9 [] true (refl, tt) refl empties
