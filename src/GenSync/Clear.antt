-- ===== src/GenSync/Clear.antt =====
-- Clearing a container that holds an object twice.
use gensync_core.Prelude.{
  ℕ, suc, ◌≡◌, refl, ap, ap₂, ◌∙◌, Bool, true, ◌&&◌, ==_refl, ltb, List, ◌∷◌, length, arith,
}
use gensync_core.Prelude.Outcome.{ok, stop, undefined, ◌>>=◌}
use gensync_core.IbltSync.{remove_pointer}
use gensync_core.FullSync.Elements.{remove_pointer-length}
use gensync_core.GenSync.{GenSync, del_elem, clear_loop, clear_data, is_empty}
use gensync_core.GenSync.InStep.{IsInStep, del_elem-IsInStep}

shrinks :
    (p v w : ℕ) (rest : List (ℕ × ℕ))
    → ltb (length (remove_pointer p ((p, v) ∷ (p, w) ∷ rest))) (length ((p, v) ∷ (p, w) ∷ rest))
      ≡ true
unfolding remove_pointer
shrinks p v w rest =
    let few = (remove_pointer-length p rest).0 in rw (==_refl p) (ground (arith, few))

dangles :
    (fuel : ℕ) (g g' : GenSync) (p v w : ℕ) (rest : List (ℕ × ℕ)) (done : Bool)
    → del_elem (p, v) g ≡ ok (done, g')
    → ltb (length g'.my_data) (length g.my_data) ≡ true
    → clear_loop (suc fuel) ((p, v) ∷ (p, w) ∷ rest) true g ≡ stop undefined
unfolding clear_loop
dangles fuel g g' p v w rest done deleted removed = rw (deleted, removed, ==_refl p) refl

-- Clearing a container whose first two elements are one object reads a list node that is gone, where
-- the methods hold its elements and the deletion of that object ends.
pub clear_data-twice :
    (g g' : GenSync) (p v w : ℕ) (rest : List (ℕ × ℕ)) (done : Bool)
    → IsInStep g
    → g.my_data ≡ (p, v) ∷ (p, w) ∷ rest
    → del_elem (p, v) g ≡ ok (done, g')
    → clear_data g ≡ stop undefined
unfolding clear_data
clear_data-twice g g' p v w rest done h e deleted =
    let (kept, gone, told) = del_elem-IsInStep (p, v) g g' done h deleted in
    let removed : ltb (length g'.my_data) (length g.my_data) ≡ true =
      ap₂ (λ (l m : List (ℕ × ℕ)). ltb (length l) (length m)) (gone ∙ ap (remove_pointer p) e) e
      ∙ shrinks p v w rest in
    let nodes = λ (l : List (ℕ × ℕ)).
      clear_loop (length l) l true g >>= λ u. ok (u.0 && is_empty u.1.my_data, u.1) in
    ap nodes e ∙ rw (dangles (suc (length rest)) g g' p v w rest done deleted removed) refl
