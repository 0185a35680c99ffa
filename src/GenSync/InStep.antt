-- ===== src/GenSync/InStep.antt =====
-- Every sync method holds the elements of the container.
use gensync_core.Prelude.{
  ℕ, ◌≡◌, refl, sym, ap, ◌∙◌, Bool, true, false, ltb, List, [], ◌∷◌, All, length, arith, Bool-cases,
  inl, inr,
}
use mathlib.Core.Path.{subst}
use gensync_core.Prelude.Outcome.{Outcome, ok, stop, quits, ◌>>=◌, ok-injective, >>=-eq-ok}
use gensync_core.IbltSync.{push_element, remove_pointer}
use gensync_core.GenSync.{Agent, held, GenSync, add_all, add_elem, del_all, is_empty, del_elem}

abbrev pub Holds : List (ℕ × ℕ) → List Agent → Type 0
Holds es agents = All (λ a. held a ≡ es) agents

abbrev pub IsInStep : GenSync → Type 0
IsInStep g = Holds g.my_data g.my_sync_vec

add_all-Holds :
    (d : ℕ × ℕ) (es : List (ℕ × ℕ)) (agents agents' : List Agent)
    → Holds es agents
    → add_all d agents ≡ ok agents'
    → Holds (push_element d es) agents'
unfolding add_all
add_all-Holds d es [] agents' h run = subst (Holds (push_element d es)) (ok-injective run) tt
add_all-Holds d es ((m, s) ∷ agents) agents' h run =
    let ((done, s'), ends, added) = >>=-eq-ok (m.add_elem d s) _ run in
    elim (Bool-cases done) [
      | inl yes_done ↦
          let went : (add_all d agents >>= λ l. ok ((m, s') ∷ l)) ≡ ok agents' =
            rw yes_done at (ends) in
          let (rest, made, ran) = >>=-eq-ok (add_all d agents) _ went in
          subst (Holds (push_element d es)) (ok-injective made) (
            m.add_pushes d s s' done added ∙ ap (push_element d) h.0,
            add_all-Holds d es agents rest h.1 ran,
          )
      | inr refused ↦
          let bad : ◌≡◌ {A = Outcome (List Agent)} (stop quits) (ok agents') =
            rw refused at (ends) in
          cc
    ]

-- The elements after a deletion by every method, and where one has answered false.
del_all-Holds :
    (d : ℕ × ℕ) (es : List (ℕ × ℕ)) (agents agents' : List Agent) (all : Bool)
    → Holds es agents
    → del_all d agents ≡ ok (all, agents')
    → Holds (remove_pointer d.0 es) agents' × (all ≡ false → remove_pointer d.0 es ≡ es)
unfolding del_all
del_all-Holds d es [] agents' all h run =
    let same = ok-injective run in
    (
      subst (Holds (remove_pointer d.0 es)) (ap (λ u. u.1) same) tt,
      λ e. let bad : true ≡ false = ap (λ u. u.0) same ∙ e in cc,
    )
del_all-Holds d es ((m, s) ∷ agents) agents' all h run =
    let ((done, s'), ends, deleted) = >>=-eq-ok (m.del_elem d s) _ run in
    let here : m.elements s' ≡ remove_pointer d.0 es =
      m.del_removes d s s' done deleted ∙ ap (remove_pointer d.0) h.0 in
    elim (Bool-cases done) [
      | inl yes_done ↦
          let went : (del_all d agents >>= λ u. ok (u.0, (m, s') ∷ u.1)) ≡ ok (all, agents') =
            rw yes_done at (ends) in
          let ((all', rest), made, ran) = >>=-eq-ok (del_all d agents) _ went in
          let (kept, missed) = del_all-Holds d es agents rest all' h.1 ran in
          let same = ok-injective made in
          (
            subst (Holds (remove_pointer d.0 es)) (ap (λ u. u.1) same) (here, kept),
            λ e. missed (ap (λ u. u.0) same ∙ e),
          )
      | inr refused ↦
          let same : ok (false, (m, s') ∷ agents) ≡ ok (all, agents') = rw refused at (ends) in
          let gone : m.del_elem d s ≡ ok (false, s') = deleted ∙ ap (λ b. ok (b, s')) refused in
          let missed : remove_pointer d.0 es ≡ es = rw h.0 at (m.del_misses d s s' gone) in
          (
            subst (Holds (remove_pointer d.0 es)) (ap (λ u. u.1) (ok-injective same))
                (here, subst (λ l. Holds l agents) (sym missed) h.1),
            λ e. missed,
          )
    ]

-- An element that is added is the last of the container and of every method that it has.
pub add_elem-IsInStep :
    (d : ℕ × ℕ) (g g' : GenSync) → IsInStep g → add_elem d g ≡ ok g' → IsInStep g'
unfolding add_elem
add_elem-IsInStep d g g' h run =
    let (agents, made, ran) = >>=-eq-ok (add_all d g.my_sync_vec) _ run in
    subst IsInStep (ok-injective made) (add_all-Holds d g.my_data g.my_sync_vec agents h ran)

pub add_elem-pushes :
    (d : ℕ × ℕ) (g g' : GenSync) → add_elem d g ≡ ok g' → g'.my_data ≡ push_element d g.my_data
unfolding add_elem
add_elem-pushes d g g' run =
    let (agents, made, ran) = >>=-eq-ok (add_all d g.my_sync_vec) _ run in
    sym (ap (λ u. u.my_data) (ok-injective made))

length-remove_pointer :
    (p : ℕ) (es : List (ℕ × ℕ))
    → remove_pointer p es ≡ es
    → ltb (length (remove_pointer p es)) (length es) ≡ false
length-remove_pointer p es e = rw e (less_than_itself (length es))
  where
    less_than_itself : (n : ℕ) → ltb n n ≡ false
    less_than_itself n = ground arith

remove_pointer-empty : (p : ℕ) (es : List (ℕ × ℕ)) → is_empty es ≡ true → remove_pointer p es ≡ es
unfolding remove_pointer
remove_pointer-empty p [] h = refl
remove_pointer-empty p (d ∷ ds) h = cc

pub del_elem-IsInStep :
    (d : ℕ × ℕ) (g g' : GenSync) (done : Bool)
    → IsInStep g
    → del_elem d g ≡ ok (done, g')
    → IsInStep g'
      × (g'.my_data ≡ remove_pointer d.0 g.my_data)
      × (done ≡ ltb (length g'.my_data) (length g.my_data))
unfolding del_elem
del_elem-IsInStep d g g' done h run =
    let gone = remove_pointer d.0 g.my_data in
    let Result : Bool × GenSync → Type 0 = λ u.
      IsInStep u.1 × (u.1.my_data ≡ gone) × (u.0 ≡ ltb (length u.1.my_data) (length g.my_data)) in
    elim (Bool-cases (is_empty g.my_data)) [
      | inl empty ↦
          let same : ok (false, g) ≡ ok (done, g') = rw empty at (run) in
          let e = remove_pointer-empty d.0 g.my_data empty in
          subst Result (ok-injective same) (
            h,
            sym e,
            sym (
                ap (λ l. ltb (length l) (length g.my_data)) (sym e)
                ∙ length-remove_pointer d.0 g.my_data e),
          )
      | inr some_left ↦
          let went = rw some_left at (run) in
          let ((all, agents), ends, ran) = >>=-eq-ok (del_all d g.my_sync_vec) _ went in
          let (kept, missed) = del_all-Holds d g.my_data g.my_sync_vec agents all h ran in
          elim (Bool-cases all) [
            | inl all_done ↦
                let same = rw all_done at (ends) in
                subst Result (ok-injective same) (kept, refl, refl)
            | inr refused ↦
                let same = rw refused at (ends) in
                let e = missed refused in
                subst Result (ok-injective same) (
                  subst (λ l. Holds l agents) e kept,
                  sym e,
                  sym (
                      ap (λ l. ltb (length l) (length g.my_data)) (sym e)
                      ∙ length-remove_pointer d.0 g.my_data e),
                )
          ]
    ]
