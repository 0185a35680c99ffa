-- ===== src/MetIbltSync/Elements.antt =====
-- Adding and deleting elements: every table encodes the values of the elements.
use gensync_core.Prelude.{ℕ, ◌≡◌, refl, sym, ap, ◌∙◌, true, List, [], ◌∷◌, ◌++◌, map}
use mathlib.Core.Path.{subst}
use gensync_core.Prelude.Outcome.{ok}
use gensync_core.Platform.{Platform}
use gensync_core.IbltSync.{push_element, remove_pointer}
use gensync_core.IbltSync.Elements.{IsFresh, remove_pointer-middle}
use gensync_core.MetIblt.Tables.{AllEncode, insert_all-AllEncode, erase_all-AllEncode}
use gensync_core.MetIbltSync.{MetIbltSync, add_elem, del_elem}

abbrev pub values : List (ℕ × ℕ) → List ℕ
values es = map (λ x. x.1) es

values-append : (es fs : List (ℕ × ℕ)) → values (es ++ fs) ≡ values es ++ values fs
values-append [] fs = refl
values-append (e ∷ es) fs = ap (λ vs. e.1 ∷ vs) (values-append es fs)

module _ (p : Platform) where
  -- Every table encodes the values of the elements.
  abbrev pub TablesEncode : MetIbltSync → Type 0
  TablesEncode s = AllEncode p (values s.elements) s.my_met

  add_elem-TablesEncode :
      (d : ℕ × ℕ) (s : MetIbltSync)
      → TablesEncode s
      → (s' : MetIbltSync) × (add_elem p d s ≡ ok (true, s'))
        × (s'.elements ≡ s.elements ++ d ∷ [])
        × TablesEncode s'
  unfolding add_elem
  add_elem-TablesEncode d s h =
      let (m, run, all) = insert_all-AllEncode p (values s.elements) d.1 s.my_met h in
      (
        record s { elements = push_element d s.elements; my_met = m },
        rw run refl,
        refl,
        subst (λ vs. AllEncode p vs m) (sym (values-append s.elements (d ∷ []))) all,
      )

  del_elem-TablesEncode :
      (xs ys : List (ℕ × ℕ)) (d : ℕ × ℕ) (s : MetIbltSync)
      → s.elements ≡ xs ++ d ∷ ys
      → IsFresh d.0 xs
      → IsFresh d.0 ys
      → TablesEncode s
      → (s' : MetIbltSync) × (del_elem p d s ≡ ok (true, s'))
        × (s'.elements ≡ xs ++ ys)
        × TablesEncode s'
  unfolding del_elem
  del_elem-TablesEncode xs ys d s e hx hy h =
      let held = subst (λ es. AllEncode p (values es) s.my_met) e h in
      let (m, run, all) =
        erase_all-AllEncode p (values xs) (values ys) d.1 s.my_met
          (subst (λ vs. AllEncode p vs s.my_met) (values-append xs (d ∷ ys)) held) in
      let left : remove_pointer d.0 s.elements ≡ xs ++ ys =
        ap (remove_pointer d.0) e ∙ remove_pointer-middle d.0 d.1 xs ys hx hy in
      (
        record s { elements = remove_pointer d.0 s.elements; my_met = m },
        rw run refl,
        left,
        subst (λ vs. AllEncode p vs m) (sym (ap values left ∙ values-append xs ys)) all,
      )

  -- Adding any element, and deleting one that is there, keep every table an encoding of the values
  -- of the elements. Both always end with the answer true: the first puts the element last, the
  -- second takes it from its place. The deleted element's pointer stands at that place only.
  pub add_elem-del_elem-TablesEncode :
      (xs ys : List (ℕ × ℕ)) (d new : ℕ × ℕ) (s : MetIbltSync)
      → s.elements ≡ xs ++ d ∷ ys
      → IsFresh d.0 xs
      → IsFresh d.0 ys
      → TablesEncode s
      → ((s' : MetIbltSync) × (add_elem p new s ≡ ok (true, s'))
          × (s'.elements ≡ s.elements ++ new ∷ [])
          × TablesEncode s')
        × ((s' : MetIbltSync) × (del_elem p d s ≡ ok (true, s'))
            × (s'.elements ≡ xs ++ ys)
            × TablesEncode s')
  add_elem-del_elem-TablesEncode xs ys d new s e hx hy h =
      (add_elem-TablesEncode new s h, del_elem-TablesEncode xs ys d s e hx hy h)
