-- ===== src/IbltSync/Elements.antt =====
-- Adding and deleting elements.
use gensync_core.Prelude.{
  ℕ, ◌≡◌, ◌≢◌, refl, sym, ap, ◌∙◌, true, false, List, [], ◌∷◌, ◌++◌, All, ◌==◌, ==_refl, arith,
}
use mathlib.Core.List.{append-nil}
use gensync_core.Prelude.Int.{pos, negsuc, ◌+ℤ◌}
use gensync_core.Prelude.Outcome.{ok, ◌>>=◌}
use gensync_core.Platform.{Platform}
use gensync_core.Iblt.{GenIblt, insert, erase}
use gensync_core.Iblt.Update.{
  IsReady, added, insert_signed-added, added-IsReady, added-opposite, erase-insert,
}
use gensync_core.IbltSync.{IbltSync, add_elem, del_elem, remove_pointer}

-- No element has the pointer.
abbrev pub IsFresh : ℕ → List (ℕ × ℕ) → Type 0
IsFresh pointer = All (λ e. e.0 ≢ pointer)

differs : (a b : ℕ) → a ≢ b → (a == b) ≡ false
differs a b h = ground arith

remove_pointer-fresh : (q : ℕ) (xs : List (ℕ × ℕ)) → IsFresh q xs → remove_pointer q xs ≡ xs
unfolding remove_pointer
remove_pointer-fresh q [] h = refl
remove_pointer-fresh q ((r, v) ∷ xs) h =
    rw (differs r q h.0) (ap (λ l. (r, v) ∷ l) (remove_pointer-fresh q xs h.1))

pub remove_pointer-middle :
    (q v : ℕ) (xs ys : List (ℕ × ℕ))
    → IsFresh q xs
    → IsFresh q ys
    → remove_pointer q (xs ++ (q, v) ∷ ys) ≡ xs ++ ys
unfolding remove_pointer
remove_pointer-middle q v [] ys h k = rw (==_refl q) (remove_pointer-fresh q ys k)
remove_pointer-middle q v ((r, w) ∷ xs) ys h k =
    rw (differs r q h.0) (ap (λ l. (r, w) ∷ l) (remove_pointer-middle q v xs ys h.1 k))

remove_pointer-last :
    (q v : ℕ) (xs : List (ℕ × ℕ)) → IsFresh q xs → remove_pointer q (xs ++ (q, v) ∷ []) ≡ xs
remove_pointer-last q v xs h = remove_pointer-middle q v xs [] h tt ∙ append-nil xs

module _ (p : Platform) where
  inserted : {g : GenIblt} (k : ℕ) → IsReady p g → insert p k k g ≡ ok (added p g (pos 1) k)
  unfolding insert
  inserted k r = insert_signed-added p (pos 1) k r

  erased : {g : GenIblt} (k : ℕ) → IsReady p g → erase p k k g ≡ ok (added p g (negsuc 0) k)
  unfolding erase
  erased k r = insert_signed-added p (negsuc 0) k r

  -- Deleting an element that was just added gives back the method, its elements and its table. The
  -- table is ready for updates, and no element has the pointer yet.
  pub del_elem-add_elem :
      (d : ℕ × ℕ) (s : IbltSync)
      → IsReady p s.my_iblt
      → IsFresh d.0 s.elements
      → (add_elem p d s >>= del_elem p d) ≡ ok (true, s)
  unfolding add_elem del_elem
  del_elem-add_elem (q, v) s r h =
      let back = ap (λ m. m >>= erase p v v) (sym (inserted v r)) ∙ erase-insert p v r in
      rw (inserted v r, back, remove_pointer-last q v s.elements h) refl

  -- Deleting an element whose pointer is not there answers true and keeps the elements, and yet the
  -- table changes: it is the one that gives the old table where the element is inserted.
  pub del_elem-absent :
      (d : ℕ × ℕ) (s : IbltSync)
      → IsReady p s.my_iblt
      → IsFresh d.0 s.elements
      → (table : GenIblt) × (del_elem p d s ≡ ok (true, record s { my_iblt = table }))
        × (insert p d.1 d.1 table ≡ ok s.my_iblt)
  unfolding del_elem
  del_elem-absent (q, v) s r h = (
    added p s.my_iblt (negsuc 0) v,
    rw (erased v r, remove_pointer-fresh q s.elements h) refl,
    inserted v (added-IsReady p (negsuc 0) v r)
        ∙ ap ok (added-opposite p s.my_iblt (negsuc 0) (pos 1) v (unfold ◌+ℤ◌ in refl)),
  )
