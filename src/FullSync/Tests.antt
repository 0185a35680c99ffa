-- ===== src/FullSync/Tests.antt =====
-- The sync method over whole sets at concrete inputs: the client holds 5 twice and 8, the server 5
-- and 9.
use gensync_core.Prelude.{ℕ, ◌<◌, ◌≡◌, refl, true, [], ◌∷◌, none, arith}
use gensync_core.Prelude.Bags.{count}
use gensync_core.Prelude.Outcome.{ok}
use gensync_core.Ntl.{sample_ntl, count_bytes}
use gensync_core.Communicant.{Communicant}
use gensync_core.Communicant.Wire.{counted}
use gensync_core.IbltSync.{Differences}
use gensync_core.FullSync.{FullSync, add_elem, del_elem}
use gensync_core.FullSync.Elements.{IsInStep, values, add_elem-del_elem-IsInStep, del_elem-forgets}
use gensync_core.FullSync.Exchange.{exchange}
use gensync_core.FullSync.Reconcile.{IsDifference, exchange_reconciles}

abbrev client : FullSync
client = record { elements = (1, 5) ∷ (2, 8) ∷ (3, 5) ∷ []; my_data = 5 ∷ 5 ∷ 8 ∷ [] }

abbrev server : FullSync
server = record { elements = (4, 9) ∷ (5, 5) ∷ []; my_data = 5 ∷ 9 ∷ [] }

abbrev open_end : Communicant
open_end = record {
  stream = [];
  xfer_bytes = 0;
  xfer_bytes_tot = 0;
  recv_bytes = 0;
  recv_bytes_tot = 0;
  mod_size = none;
}

abbrev nothing : Differences
nothing = record { self_minus_other = []; other_minus_self = [] }

server-IsInStep : IsInStep server
server-IsInStep = record { sorted = omega arith; same = λ a. ground arith }

exchange_reconciles_example :
    (n : ℕ) × (d : Differences) × (exchange sample_ntl client server nothing open_end
      ≡ ok (
        (
          (true, d),
          (
            true,
            record { self_minus_other = d.other_minus_self; other_minus_self = d.self_minus_other },
          ),
        ),
        counted n open_end,
      ))
    × IsDifference (values server.elements) (values client.elements) d
exchange_reconciles_example =
    exchange_reconciles sample_ntl client server nothing open_end refl server-IsInStep
      (unfold count_bytes in (omega arith, (omega arith, (omega arith, tt))))
      (unfold count_bytes in (omega arith, (omega arith, tt))) (omega arith) (omega arith)

add_elem-del_elem-IsInStep_example :
    IsInStep (add_elem (6, 5) server).1 × IsInStep (del_elem (4, 9) server).1
add_elem-del_elem-IsInStep_example =
    add_elem-del_elem-IsInStep (6, 5) (4, 9) server server-IsInStep (refl, (refl, tt))

-- One of the two elements 5 is deleted, and the data lose both.
deletes_five : (del_elem (1, 5) client).0 ≡ true
unfolding del_elem
deletes_five = refl

del_elem-forgets_example :
    (count 5 (del_elem (1, 5) client).1.my_data ≡ 0)
    × (0 < count 5 (values (del_elem (1, 5) client).1.elements))
del_elem-forgets_example =
    del_elem-forgets 1 3 5 ((1, 5) ∷ (2, 8) ∷ []) [] client refl (λ e. absurd (omega arith))
      deletes_five
