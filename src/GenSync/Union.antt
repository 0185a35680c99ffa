-- ===== src/GenSync/Union.antt =====
-- Two containers whose sync method is FullSync hold the same elements after they have synchronized.
use gensync_core.Prelude.{
  ℕ, ◌<◌, ◌^◌, ◌≡◌, refl, sym, ap, ◌∙◌, Bool, true, List, [], ◌∷◌, ◌++◌, All, length, set,
}
use mathlib.Core.Quot
use mathlib.Core.Path.{subst}
use mathlib.Core.List.{map-append}
use gensync_core.Prelude.Bags.{Bag}
use gensync_core.Prelude.Outcome.{ok, ◌>>=◌, load_at, ok-injective}
use gensync_core.Ntl.{Ntl}
use gensync_core.Communicant.{Communicant}
use gensync_core.Communicant.Strings.{IsShort}
use gensync_core.IbltSync.{Differences, push_element}
use gensync_core.FullSync
use gensync_core.FullSync.{FullSync}
use gensync_core.FullSync.Elements
use gensync_core.FullSync.Elements.{values}
use gensync_core.FullSync.Exchange.{exchange}
use gensync_core.FullSync.Reconcile.{exchange_reconciles}
use gensync_core.GenSync.{
  Agent, GenSync, ProtocolEnd, add_all, write_out, add_elem, post_processing, begin_loop,
  server_sync_begin, client_sync_begin,
}
use gensync_core.GenSync.Method.{full_method}
use gensync_core.GenSync.InStep.{Holds, IsInStep}
use gensync_core.GenSync.Reach.{post_processing-IsInStep, client_sync_begin-server_sync_begin}

-- The only method is a FullSync with this state, and there is one communicant.
pub record IsFull (g : GenSync) (s : FullSync) : Type 1 where
  pub method : g.my_sync_vec ≡ (full_method, s) ∷ []
  pub comm : ℕ
  pub one_comm : g.my_comm_vec ≡ comm ∷ []
  pub in_step : IsInStep g

add_elem-full :
    (d : ℕ × ℕ) (g : GenSync) (s : FullSync)
    → g.my_sync_vec ≡ (full_method, s) ∷ []
    → (t : GenSync) × (add_elem d g ≡ ok t)
      × (t.my_sync_vec ≡ (full_method, (FullSync.add_elem d s).1) ∷ [])
unfolding add_elem add_all FullSync.add_elem
add_elem-full d g s e =
    let grown = λ (agents : List Agent). record g {
      my_data = push_element d g.my_data;
      my_sync_vec = agents;
      out_file = write_out d.1 g.out_file;
    } in
    (
      grown ((full_method, (FullSync.add_elem d s).1) ∷ []),
      ap (λ l. add_all d l >>= λ agents. ok (grown agents)) e,
      refl,
    )

-- Additions to a FullSync never fail.
post_processing-full :
    (ds : List (ℕ × ℕ)) (g : GenSync) (s : FullSync)
    → g.my_sync_vec ≡ (full_method, s) ∷ []
    → (g' : GenSync) × (post_processing ds g ≡ ok g')
unfolding post_processing
post_processing-full [] g s e = (g, refl)
post_processing-full (d ∷ ds) g s e =
    let (t, added, method) = add_elem-full d g s e in
    let (g', rest) = post_processing-full ds t (FullSync.add_elem d s).1 method in
    (g', rw added rest)

-- An end of the protocol that gave this answer and these new objects; a FullSync keeps its state.
abbrev pub reported : Bool → List (ℕ × ℕ) → ProtocolEnd
reported answer found = record {
  run = λ agt comm. ok (answer, agt.1, found);
  keeps = λ a comm b s f e. ap (λ u. a.0.elements u.1) (sym (ok-injective e));
}

-- One end: it adds what it has found, and answers what the protocol has answered.
synced :
    (answer : Bool) (found : List (ℕ × ℕ)) (g : GenSync) (s : FullSync)
    → IsFull g s
    → (g' : GenSync) × (server_sync_begin (reported answer found) 0 g ≡ ok (answer, g'))
      × (g'.my_data ≡ g.my_data ++ found)
unfolding server_sync_begin begin_loop load_at
synced answer found g s h =
    let g₁ : GenSync = record g { my_sync_vec = (full_method, s) ∷ [] } in
    let (g', added) = post_processing-full found g₁ s refl in
    (
      g',
      ap (λ comms. begin_loop (reported answer found) 0 comms true g) h.one_comm
          ∙ ap
              (λ l. load_at l 0 >>= λ agt.
                post_processing found (record g { my_sync_vec = set l 0 (agt.0, agt.1) }) >>= λ t.
                ok (answer, t))
              h.method
          ∙ ap (λ m. m >>= λ t. ok (answer, t)) added,
      (post_processing-IsInStep found g₁ g' (subst (Holds g.my_data) h.method h.in_step) added).1,
    )

values-after :
    (g g' : GenSync) (s : FullSync) (found : List (ℕ × ℕ))
    → IsFull g s
    → g'.my_data ≡ g.my_data ++ found
    → values g'.my_data ≡ values s.elements ++ values found
values-after g g' s found h e =
    let kept = subst (Holds g.my_data) h.method h.in_step in
    ap values e
    ∙ map-append (λ x. x.1) g.my_data found
    ∙ ap (λ l. values l ++ values found) (sym kept.0)

module _ (ntl : Ntl) where
  -- Two containers, each with a FullSync as its only method, after a synchronization over one
  -- communicant: both calls end and answer true, and then both containers hold the same bag of
  -- values. The two runs of the protocol are the two ends of one exchange over an empty stream, from
  -- the states of the two methods; the new objects have the values that the ends report. The elements
  -- have fewer than 2 ^ 63 bytes, the client has fewer than 2 ^ 31 of them and the server fewer than
  -- 2 ^ 63, and the server's data are in step with its elements.
  pub sync_begin-union :
      (client server : FullSync) (gc gs : GenSync) (dc ds dc' : Differences) (c c' : Communicant)
      (found_c found_s : List (ℕ × ℕ)) (rc rs : Bool)
      → IsFull gc client
      → IsFull gs server
      → FullSync.Elements.IsInStep server
      → c.stream ≡ []
      → All (IsShort ntl) (values client.elements)
      → All (IsShort ntl) server.my_data
      → length client.elements < 2 ^ 31
      → length server.my_data < 2 ^ 63
      → exchange ntl client server dc c ≡ ok (((rs, ds), (rc, dc')), c')
      → values found_s ≡ ds.other_minus_self
      → values found_c ≡ dc'.other_minus_self
      → (gs' : GenSync) × (gc' : GenSync) × (server_sync_begin (reported rs found_s) 0 gs
          ≡ ok (true, gs'))
        × (client_sync_begin (reported rc found_c) 0 gc ≡ ok (true, gc'))
        × ◌≡◌ {A = Bag} (Quot.mk (values gs'.my_data)) (Quot.mk (values gc'.my_data))
  sync_begin-union client server gc gs dc ds dc' c c' found_c found_s rc rs fc fs h e sc ss lc ls
        run as_s as_c =
      let (n, d, ran, differ) = exchange_reconciles ntl client server dc c e h sc ss lc ls in
      let same = ok-injective (sym run ∙ ran) in
      let (gs', synced_s, all_s) = synced rs found_s gs server fs in
      let (gc', synced_c, all_c) = synced rc found_c gc client fc in
      let held_s : values gs'.my_data ≡ values server.elements ++ d.other_minus_self =
        values-after gs gs' server found_s fs all_s
        ∙ ap (λ l. values server.elements ++ l) (as_s ∙ ap (λ u. u.0.0.1.other_minus_self) same) in
      let held_c : values gc'.my_data ≡ values client.elements ++ d.self_minus_other =
        values-after gc gc' client found_c fc all_c
        ∙ ap (λ l. values client.elements ++ l) (as_c ∙ ap (λ u. u.0.1.1.other_minus_self) same) in
      (
        gs',
        gc',
        synced_s ∙ ap (λ u. ok (u.0.0.0, gs')) same,
        client_sync_begin-server_sync_begin _ 0 gc ∙ synced_c ∙ ap (λ u. ok (u.0.1.0, gc')) same,
        ap (λ l. Quot.mk l) held_s ∙ differ.union ∙ ap (λ l. Quot.mk l) (sym held_c),
      )
