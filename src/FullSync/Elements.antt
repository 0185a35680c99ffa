-- ===== src/FullSync/Elements.antt =====
-- The elements and the sorted data: `addElem` and `delElem`.
use gensync_core.Prelude.{
  ℕ, ◌+◌, ◌≤◌, ◌<◌, ◌≡◌, ◌≢◌, refl, sym, ap, ◌∙◌, true, false, ◌==◌, ltb, if◌then◌else◌, List, [],
  ◌∷◌, ◌++◌, map, length, All, arith, Bool-cases, inl, inr,
}
use gensync_core.Prelude.Bags.{count, IsSorted, AsOften}
use gensync_core.IbltSync.{remove_pointer, push_element}
use gensync_core.FullSync.{FullSync, add_elem, del_elem}
use gensync_core.FullSync.Multiset.{
  count-multiset_insert, multiset_insert-IsSorted, count-multiset_erase, multiset_erase-IsSorted,
}

abbrev pub values : List (ℕ × ℕ) → List ℕ
values es = map (λ x. x.1) es

-- The sorted data hold the values of the elements, each as often as the elements do.
pub record IsInStep (s : FullSync) : Type 0 where
  pub sorted : IsSorted s.my_data
  pub same : AsOften s.my_data (values s.elements)

-- The pointer and its value belong to each other alone, among these elements.
abbrev pub Owns : ℕ × ℕ → List (ℕ × ℕ) → Type 0
Owns datum es = All (λ e. (e.0 == datum.0) ≡ (e.1 == datum.1)) es

count-push :
    (a : ℕ) (datum : ℕ × ℕ) (es : List (ℕ × ℕ))
    → count a (values (push_element datum es)) ≡ count a (values es) + count a (datum.1 ∷ [])
count-push a datum [] = omega arith
count-push a datum (e ∷ es) = omega (arith, count-push a datum es)

add_elem-IsInStep : (datum : ℕ × ℕ) (s : FullSync) → IsInStep s → IsInStep (add_elem datum s).1
unfolding add_elem
add_elem-IsInStep datum s h = record {
  sorted = multiset_insert-IsSorted datum.1 s.my_data h.sorted;
  same = λ a.
      omega
        (arith, count-multiset_insert a datum.1 s.my_data, count-push a datum s.elements, h.same a);
}

count-remove_pointer :
    (a : ℕ) (datum : ℕ × ℕ) (es : List (ℕ × ℕ))
    → Owns datum es
    → count a (values (remove_pointer datum.0 es))
      ≡ (if datum.1 == a then 0 else count a (values es))
unfolding remove_pointer
count-remove_pointer a datum [] h = ground arith
count-remove_pointer a datum ((q, v) ∷ es) h =
    let ih = count-remove_pointer a datum es h.1 in
    elim (Bool-cases (q == datum.0)) [
      | inl mine ↦ rw mine (ground arith)
      | inr other ↦ rw other (ground arith)
    ]

-- Where nothing is removed, nothing changes.
pub remove_pointer-length :
    (p : ℕ) (es : List (ℕ × ℕ))
    → length (remove_pointer p es) ≤ length es
      × (ltb (length (remove_pointer p es)) (length es) ≡ false → remove_pointer p es ≡ es)
unfolding remove_pointer
remove_pointer-length p [] = (omega arith, λ h. refl)
remove_pointer-length p ((q, v) ∷ es) =
    let ih = remove_pointer-length p es in
    elim (Bool-cases (q == p)) [
      | inl mine ↦ rw mine (omega (arith, ih.0), λ h. absurd (ground (arith, ih.0)))
      | inr other ↦ rw other (omega (arith, ih.0), λ h. ap (λ l. (q, v) ∷ l) (ih.1 (ground arith)))
    ]

del_elem-IsInStep :
    (datum : ℕ × ℕ) (s : FullSync)
    → Owns datum s.elements
    → IsInStep s
    → IsInStep (del_elem datum s).1
unfolding del_elem
del_elem-IsInStep datum s own h =
    let rest = remove_pointer datum.0 s.elements in
    elim (Bool-cases (ltb (length rest) (length s.elements))) [
      | inl fewer ↦ rw fewer (record {
        sorted = multiset_erase-IsSorted datum.1 s.my_data h.sorted;
        same = λ a. ground (
          arith,
          count-multiset_erase a datum.1 s.my_data,
          count-remove_pointer a datum s.elements own,
          h.same a,
        );
      })
      | inr all ↦
          let kept = (remove_pointer-length datum.0 s.elements).1 all in
          rw all (record {
            sorted = h.sorted;
            same = λ a. h.same a ∙ ap (λ es. count a (values es)) (sym kept);
          })
    ]

-- An addition keeps the data in step with the elements, sorted and with each value as often; so does a
-- deletion, whether the pointer is present or not, where the deleted pointer and its value belong to
-- each other alone.
pub add_elem-del_elem-IsInStep :
    (added deleted : ℕ × ℕ) (s : FullSync)
    → IsInStep s
    → Owns deleted s.elements
    → IsInStep (add_elem added s).1 × IsInStep (del_elem deleted s).1
add_elem-del_elem-IsInStep added deleted s h own =
    (add_elem-IsInStep added s h, del_elem-IsInStep deleted s own h)

stays :
    (p q v : ℕ) (before after : List (ℕ × ℕ))
    → q ≢ p
    → 0 < count v (values (remove_pointer p (before ++ (q, v) ∷ after)))
unfolding remove_pointer
stays p q v [] after ne = ground arith
stays p q v ((r, w) ∷ before) after ne =
    let ih = stays p q v before after ne in
    elim (Bool-cases (r == p)) [ inl mine ↦ rw mine ih | inr other ↦ rw other (omega (arith, ih)) ]

-- Where an element is deleted and another pointer to the same value stays, the value is gone from the
-- data and not from the elements.
pub del_elem-forgets :
    (p q v : ℕ) (before after : List (ℕ × ℕ)) (s : FullSync)
    → s.elements ≡ before ++ (q, v) ∷ after
    → q ≢ p
    → (del_elem (p, v) s).0 ≡ true
    → (count v (del_elem (p, v) s).1.my_data ≡ 0)
      × (0 < count v (values (del_elem (p, v) s).1.elements))
unfolding del_elem
del_elem-forgets p q v before after s e ne done =
    let rest = remove_pointer p s.elements in
    let left : 0 < count v (values rest) = rw e (stays p q v before after ne) in
    elim (Bool-cases (ltb (length rest) (length s.elements))) [
      | inl fewer ↦ rw fewer (ground (arith, count-multiset_erase v v s.my_data), left)
      | inr all ↦ let bad : false ≡ true = rw all at (done) in cc
    ]
