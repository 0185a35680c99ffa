-- ===== src/GenSync/Reach.antt =====
-- The states that a container comes to.
use gensync_core.Prelude.{
  All-append, ℕ, zero, suc, ◌-◌, ◌≡◌, refl, sym, ap, ◌∙◌, Bool, true, false, ◌&&◌, ltb, leb,
  if◌then◌else◌, List, [], ◌∷◌, ◌++◌, All, length, set, take, drop, Bool-cases, inl, inr,
}
use mathlib.Core.Path.{fun_ext, subst}
use mathlib.Core.List.{append_assoc, append-nil}
use gensync_core.Prelude.Outcome.{
  Outcome, ok, stop, quits, throws, undefined, out_of_fuel, ◌>>=◌, load_at, ok-injective, >>=-eq-ok,
}
use gensync_core.IbltSync.{remove_pointer}
use gensync_core.GenSync.{
  Agent, held, GenSync, ProtocolEnd, with_state, add_elem, del_elem, clear_loop, is_dangling,
  clear_data, insert_at, erase_at, add_comm, del_comm, fill, add_sync_agt, del_sync_agt,
  post_processing, new_sync, caught, begin_loop, server_sync_begin, client_loop, client_sync_begin,
  del_old_comm,
}
use gensync_core.GenSync.InStep.{
  Holds, IsInStep, add_elem-IsInStep, add_elem-pushes, del_elem-IsInStep,
}

module _ {ℓ κ} {A : Type ℓ} (P : A → Type κ) where
  All-take : (n : ℕ) (xs : List A) → All P xs → All P (take n xs)
  All-take zero xs h = tt
  All-take (suc n) [] h = tt
  All-take (suc n) (x ∷ xs) h = (h.0, All-take n xs h.1)

  All-drop : (n : ℕ) (xs : List A) → All P xs → All P (drop n xs)
  All-drop zero xs h = h
  All-drop (suc n) [] h = tt
  All-drop (suc n) (x ∷ xs) h = All-drop n xs h.1

  All-insert_at :
      (i : ℕ) (x : A) (xs ys : List A) → P x → All P xs → insert_at i x xs ≡ ok ys → All P ys
  All-insert_at i x xs ys h hs run = elim (Bool-cases (leb i (length xs))) [
    | inl inside ↦
        let same : ok (take i xs ++ x ∷ drop i xs) ≡ ok ys = rw inside at (run) in
        subst (All P) (ok-injective same)
          (All-append P (take i xs) (x ∷ drop i xs) (All-take i xs hs) (h, All-drop i xs hs))
    | inr past ↦
        let bad : ◌≡◌ {A = Outcome (List A)} (stop undefined) (ok ys) = rw past at (run) in cc
  ]

  All-erase_at : (i : ℕ) (xs ys : List A) → All P xs → erase_at i xs ≡ ok ys → All P ys
  All-erase_at i xs ys hs run = elim (Bool-cases (ltb i (length xs))) [
    | inl inside ↦
        let same : ok (take i xs ++ drop (suc i) xs) ≡ ok ys = rw inside at (run) in
        subst (All P) (ok-injective same)
          (All-append P (take i xs) (drop (suc i) xs) (All-take i xs hs) (All-drop (suc i) xs hs))
    | inr past ↦
        let bad : ◌≡◌ {A = Outcome (List A)} (stop undefined) (ok ys) = rw past at (run) in cc
  ]

fill-holds : (ds : List (ℕ × ℕ)) (a a' : Agent) → fill ds a ≡ ok a' → held a' ≡ held a ++ ds
unfolding fill
fill-holds [] a a' run = sym (append-nil (held a) ∙ ap held (ok-injective run))
fill-holds (d ∷ ds) (m, s) a' run =
    let ((done, s'), ends, added) = >>=-eq-ok (m.add_elem d s) _ run in
    elim (Bool-cases done) [
      | inl yes_done ↦
          let went : fill ds (m, s') ≡ ok a' = rw yes_done at (ends) in
          fill-holds ds (m, s') a' went
          ∙ ap (λ l. l ++ ds) (m.add_pushes d s s' done added)
          ∙ append_assoc (m.elements s) (d ∷ []) ds
      | inr refused ↦
          let bad : ◌≡◌ {A = Outcome Agent} (stop quits) (ok a') = rw refused at (ends) in cc
    ]

pub post_processing-IsInStep :
    (ds : List (ℕ × ℕ)) (g g' : GenSync)
    → IsInStep g
    → post_processing ds g ≡ ok g'
    → IsInStep g' × (g'.my_data ≡ g.my_data ++ ds)
unfolding post_processing
post_processing-IsInStep [] g g' h run =
    subst (λ u. IsInStep u × (u.my_data ≡ g.my_data ++ [])) (ok-injective run)
      (h, sym (append-nil g.my_data))
post_processing-IsInStep (d ∷ ds) g g' h run =
    let (t, rest, added) = >>=-eq-ok (add_elem d g) _ run in
    let (kept, all) = post_processing-IsInStep ds t g' (add_elem-IsInStep d g t h added) rest in
    (
      kept,
      all ∙ ap (λ l. l ++ ds) (add_elem-pushes d g t added) ∙ append_assoc g.my_data (d ∷ []) ds,
    )

clear_loop-IsInStep :
    (fuel : ℕ) (nodes : List (ℕ × ℕ)) (success answer : Bool) (g g' : GenSync)
    → IsInStep g
    → clear_loop fuel nodes success g ≡ ok (answer, g')
    → IsInStep g'
unfolding clear_loop
clear_loop-IsInStep zero [] success answer g g' h run =
    subst (λ (u : Bool × GenSync). IsInStep u.1) (ok-injective run) h
clear_loop-IsInStep (suc fuel) [] success answer g g' h run =
    subst (λ (u : Bool × GenSync). IsInStep u.1) (ok-injective run) h
clear_loop-IsInStep zero (d ∷ nodes) success answer g g' h run = cc
clear_loop-IsInStep (suc fuel) (d ∷ nodes) success answer g g' h run =
    let ((done, t), ends, deleted) = >>=-eq-ok (del_elem d g) _ run in
    let (kept, gone, told) = del_elem-IsInStep d g t done h deleted in
    let removed = ltb (length t.my_data) (length g.my_data) in
    let left = if removed then remove_pointer d.0 nodes else nodes in
    elim (Bool-cases (removed && is_dangling d.0 nodes)) [
      | inl dangling ↦
          let bad : ◌≡◌ {A = Outcome (Bool × GenSync)} (stop undefined) (ok (answer, g')) =
            rw dangling at (ends) in
          cc
      | inr stands ↦
          let went : clear_loop fuel left (success && done) t ≡ ok (answer, g') =
            rw stands at (ends) in
          clear_loop-IsInStep fuel left (success && done) answer t g' kept went
    ]

clear_data-IsInStep :
    (answer : Bool) (g g' : GenSync) → IsInStep g → clear_data g ≡ ok (answer, g') → IsInStep g'
unfolding clear_data
clear_data-IsInStep answer g g' h run =
    let ((success, t), ends, ran) =
      >>=-eq-ok (clear_loop (length g.my_data) g.my_data true g) _ run in
    subst IsInStep (ap (λ u. u.1) (ok-injective ends))
      (clear_loop-IsInStep (length g.my_data) g.my_data true success g t h ran)

set-Holds :
    (es : List (ℕ × ℕ)) (l : List Agent) (i : ℕ) (a a' : Agent)
    → load_at l i ≡ ok a
    → held a' ≡ held a
    → Holds es l
    → Holds es (set l i a')
unfolding load_at
set-Holds es [] i a a' e k h = tt
set-Holds es (x ∷ l) zero a a' e k h = (k ∙ ap held (sym (ok-injective e)) ∙ h.0, h.1)
set-Holds es (x ∷ l) (suc i) a a' e k h = (h.0, set-Holds es l i a a' e k h.1)

caught-ok : {A : Type 0} (r : Outcome A) {a : A} → caught r ≡ ok a → r ≡ ok a
caught-ok (ok b) e = e
caught-ok (stop quits) e = cc
caught-ok (stop throws) e = cc
caught-ok (stop undefined) e = cc
caught-ok (stop out_of_fuel) e = cc

begin_loop-IsInStep :
    (end : ProtocolEnd) (i : ℕ) (comms : List ℕ) (success answer : Bool) (g g' : GenSync)
    → IsInStep g
    → begin_loop end i comms success g ≡ ok (answer, g')
    → IsInStep g'
unfolding begin_loop
begin_loop-IsInStep end i [] success answer g g' h ran =
    subst (λ (u : Bool × GenSync). IsInStep u.1) (ok-injective ran) h
begin_loop-IsInStep end i (comm ∷ comms) success answer g g' h ran =
    let (agt, ends, found) = >>=-eq-ok (load_at g.my_sync_vec i) _ ran in
    let (report, ends', synced) = >>=-eq-ok (caught (end.run agt comm)) _ ends in
    let g₁ = with_state i agt report.1 g in
    let (t, rest, added) = >>=-eq-ok (post_processing report.2 g₁) _ ends' in
    let kept =
      end.keeps agt comm report.0 report.1 report.2 (caught-ok (end.run agt comm) synced) in
    let h₁ = set-Holds g.my_data g.my_sync_vec i agt (agt.0, report.1) found kept h in
    begin_loop-IsInStep end i comms (success && report.0) answer t g'
      (post_processing-IsInStep report.2 g₁ t h₁ added).0 rest

server_sync_begin-IsInStep :
    (end : ProtocolEnd) (i : ℕ) (answer : Bool) (g g' : GenSync)
    → IsInStep g
    → server_sync_begin end i g ≡ ok (answer, g')
    → IsInStep g'
unfolding server_sync_begin
server_sync_begin-IsInStep end i answer g g' h ran =
    begin_loop-IsInStep end i g.my_comm_vec true answer g g' h ran

client_loop_lem :
    (end : ProtocolEnd) (i : ℕ) (comms : List ℕ) (success : Bool) (g : GenSync)
    → client_loop end i comms success g ≡ begin_loop end i comms success g
unfolding client_loop begin_loop
client_loop_lem end i [] success g = refl
client_loop_lem end i (comm ∷ comms) success g =
    ap
      (λ next. load_at g.my_sync_vec i >>= λ agt. caught (end.run agt comm) >>= λ u.
        post_processing u.2 (with_state i agt u.1 g) >>= λ t. next u.0 t)
      (fun_ext (λ done. fun_ext (λ t.
        ap (λ b. client_loop end i comms b t) (both success done)
        ∙ client_loop_lem end i comms (success && done) t)))
  where
    both : (a b : Bool) → (if b then a else false) ≡ (a && b)
    both true true = refl
    both true false = refl
    both false true = refl
    both false false = refl

-- The two loops do the same with what the protocols find.
pub client_sync_begin-server_sync_begin :
    (end : ProtocolEnd) (i : ℕ) (g : GenSync)
    → client_sync_begin end i g ≡ server_sync_begin end i g
unfolding client_sync_begin server_sync_begin
client_sync_begin-server_sync_begin end i g = client_loop_lem end i g.my_comm_vec true g

-- One call on a container that ends. A method that joins has no elements of its own.
pub data Step : GenSync → GenSync → Type 1 where
  adds : {g g' : GenSync} (d : ℕ × ℕ) → add_elem d g ≡ ok g' → Step g g'
  deletes : {g g' : GenSync} (d : ℕ × ℕ) (done : Bool) → del_elem d g ≡ ok (done, g') → Step g g'
  clears : {g g' : GenSync} (answer : Bool) → clear_data g ≡ ok (answer, g') → Step g g'
  joins :
      {g g' : GenSync} (a : Agent) (i : ℕ) → held a ≡ [] → add_sync_agt a i g ≡ ok g' → Step g g'
  leaves : {g g' : GenSync} (i : ℕ) → del_sync_agt i g ≡ ok g' → Step g g'
  serves :
      {g g' : GenSync} (end : ProtocolEnd) (i : ℕ) (answer : Bool)
      → server_sync_begin end i g ≡ ok (answer, g')
      → Step g g'
  asks :
      {g g' : GenSync} (end : ProtocolEnd) (i : ℕ) (answer : Bool)
      → client_sync_begin end i g ≡ ok (answer, g')
      → Step g g'
  forgets : {g g' : GenSync} (c : ℕ) → del_old_comm c g ≡ g' → Step g g'
  connects : {g g' : GenSync} (c i : ℕ) → add_comm c i g ≡ ok g' → Step g g'
  disconnects : {g g' : GenSync} (i : ℕ) → del_comm i g ≡ ok g' → Step g g'

pub data Reach (g : GenSync) : GenSync → Type 1 where
  here : Reach g g
  next : {t u : GenSync} → Reach g t → Step t u → Reach g u

joins-IsInStep :
    (a : Agent) (i : ℕ) (g g' : GenSync)
    → held a ≡ []
    → IsInStep g
    → add_sync_agt a i g ≡ ok g'
    → IsInStep g'
unfolding add_sync_agt
joins-IsInStep a i g g' none_yet h run =
    let (agt, rest, filled) = >>=-eq-ok (fill g.my_data a) _ run in
    let (agents, made, placed) = >>=-eq-ok (insert_at i agt g.my_sync_vec) _ rest in
    let full : held agt ≡ g.my_data =
      fill-holds g.my_data a agt filled ∙ ap (λ l. l ++ g.my_data) none_yet in
    subst IsInStep (ok-injective made)
      (All-insert_at (λ b. held b ≡ g.my_data) i agt g.my_sync_vec agents full h placed)

leaves-IsInStep : (i : ℕ) (g g' : GenSync) → IsInStep g → del_sync_agt i g ≡ ok g' → IsInStep g'
unfolding del_sync_agt
leaves-IsInStep i g g' h run =
    let (agents, made, cut) = >>=-eq-ok (erase_at i g.my_sync_vec) _ run in
    subst IsInStep (ok-injective made)
      (All-erase_at (λ b. held b ≡ g.my_data) i g.my_sync_vec agents h cut)

connects-IsInStep : (c i : ℕ) (g g' : GenSync) → IsInStep g → add_comm c i g ≡ ok g' → IsInStep g'
unfolding add_comm
connects-IsInStep c zero g g' h run = subst IsInStep (ok-injective run) h
connects-IsInStep c (suc i) g g' h run =
    let (comms, made, placed) = >>=-eq-ok (insert_at i c g.my_comm_vec) _ run in
    subst IsInStep (ok-injective made) h

disconnects-IsInStep : (i : ℕ) (g g' : GenSync) → IsInStep g → del_comm i g ≡ ok g' → IsInStep g'
unfolding del_comm
disconnects-IsInStep i g g' h run =
    let (comms, made, cut) = >>=-eq-ok (erase_at (i - 1) g.my_comm_vec) _ run in
    subst IsInStep (ok-injective made) h

forgets-IsInStep : (c : ℕ) (g : GenSync) → IsInStep g → IsInStep (del_old_comm c g)
unfolding del_old_comm
forgets-IsInStep c g h = h

Step-IsInStep : {g g' : GenSync} → Step g g' → IsInStep g → IsInStep g'
Step-IsInStep {g} {g'} (adds d run) h = add_elem-IsInStep d g g' h run
Step-IsInStep {g} {g'} (deletes d done run) h = (del_elem-IsInStep d g g' done h run).0
Step-IsInStep {g} {g'} (clears answer run) h = clear_data-IsInStep answer g g' h run
Step-IsInStep {g} {g'} (joins a i none_yet run) h = joins-IsInStep a i g g' none_yet h run
Step-IsInStep {g} {g'} (leaves i run) h = leaves-IsInStep i g g' h run
Step-IsInStep {g} {g'} (serves end i answer ran) h =
    server_sync_begin-IsInStep end i answer g g' h ran
Step-IsInStep {g} {g'} (asks end i answer ran) h =
    server_sync_begin-IsInStep end i answer g g' h
      (sym (client_sync_begin-server_sync_begin end i g) ∙ ran)
Step-IsInStep {g} {g'} (forgets c e) h = subst IsInStep e (forgets-IsInStep c g h)
Step-IsInStep {g} {g'} (connects c i run) h = connects-IsInStep c i g g' h run
Step-IsInStep {g} {g'} (disconnects i run) h = disconnects-IsInStep i g g' h run

Reach-keeps : {g g' : GenSync} → Reach g g' → IsInStep g → IsInStep g'
Reach-keeps here h = h
Reach-keeps (next r s) h = Step-IsInStep s (Reach-keeps r h)

-- In every state that a container comes to from its constructor, by calls that end, every sync method
-- holds the elements of the container, in their order. The methods start with no elements, and a run
-- of a protocol leaves those of its method alone.
pub Reach-IsInStep :
    (comms : List ℕ) (methods : List Agent) (given : List (ℕ × ℕ)) (g g' : GenSync)
    → Holds [] methods
    → new_sync comms methods given ≡ ok g
    → Reach g g'
    → IsInStep g'
unfolding new_sync
Reach-IsInStep comms methods given g g' fresh run r =
    Reach-keeps r (post_processing-IsInStep given _ g fresh run).0
