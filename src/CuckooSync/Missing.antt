-- ===== src/CuckooSync/Missing.antt =====
-- What an end lists as its own, given the filter of the other end.
use gensync_core.Prelude.{
  ℕ, ◌≡◌, ◌≢◌, sym, ap, ◌∙◌, Bool, true, false, List, [], ◌∷◌, All, if◌then◌else◌,
}
use mathlib.Core.Path.{subst}
use gensync_core.Prelude.Outcome.{Outcome, ok, ◌>>=◌, ok-injective, >>=-eq-ok}
use gensync_core.Platform.{Platform}
use gensync_core.Cuckoo.{Cuckoo, is_zero_f, insert, lookup}
use gensync_core.Cuckoo.Search.{IsReady}
use gensync_core.Cuckoo.Member.{Finds, insert-Finds_self, insert-Finds}
use gensync_core.CuckooSync.{CuckooSync, add_elem, missing}

module _ (p : Platform) (theirs : Cuckoo) where
  abbrev pub IsAbsent : ℕ → Type 0
  IsAbsent e = lookup p theirs e ≡ ok false

  with_answer :
      (found : Bool) (e : ℕ) (rest : List ℕ)
      → lookup p theirs e ≡ ok found
      → All IsAbsent rest
      → All IsAbsent (if found then rest else e ∷ rest)
  with_answer true e rest told h = h
  with_answer false e rest told h = (told, h)

  -- All that an end lists as its own is absent from the other filter.
  pub missing-IsAbsent :
      (es : List (ℕ × ℕ)) (xs : List ℕ) → missing p theirs es ≡ ok xs → All IsAbsent xs
  unfolding missing
  missing-IsAbsent [] xs run = subst (All IsAbsent) (ok-injective run) tt
  missing-IsAbsent ((pointer, e) ∷ es) xs run =
      let (found, run1, told) = >>=-eq-ok (lookup p theirs e) _ run in
      let (rest, ends, rec) = >>=-eq-ok (missing p theirs es) _ run1 in
      subst (All IsAbsent) (ok-injective ends)
        (with_answer found e rest told (missing-IsAbsent es rest rec))

  others_differ :
      (e : ℕ) (xs : List ℕ) → lookup p theirs e ≡ ok true → All IsAbsent xs → All (λ x. x ≢ e) xs
  others_differ e [] told h = tt
  others_differ e (x ∷ xs) told (a, h) = (
    λ same. true_or_false (ok-injective (sym told ∙ ap (lookup p theirs) (sym same) ∙ a)),
    others_differ e xs told h,
  )
    where
      true_or_false : true ≢ false
      true_or_false = λ q. cc

module _ (p : Platform) {S : Type 0} (draw : ℕ → ℕ → S → ℕ × S) where
  -- Calls of `addElem`, one after the other.
  unfoldable pub add_each : List (ℕ × ℕ) → CuckooSync → S → Outcome (CuckooSync × S)
  add_each [] s rng = ok (s, rng)
  add_each (d ∷ ds) s rng = do
    (answer, s', rng') ← add_elem true p draw d s rng
    add_each ds s' rng'

  add_elem-Finds :
      (y : ℕ) (d : ℕ × ℕ) (s s' : CuckooSync) (rng rng' : S) (answer : Bool)
      → Finds p y s.my_cf
      → add_elem true p draw d s rng ≡ ok (answer, s', rng')
      → Finds p y s'.my_cf
  unfolding add_elem
  add_elem-Finds y d s s' rng rng' answer h run =
      let (r, ends, inserted) = >>=-eq-ok (insert true p draw s.my_cf d.1 rng) _ run in
      subst (Finds p y) (ap (λ u. u.1.my_cf) (ok-injective ends))
        (insert-Finds p draw s.my_cf h.ready d.1 y rng r.2 r.1 r.0 h.nonzero h.found inserted)

  add_each-Finds :
      (y : ℕ) (ds : List (ℕ × ℕ)) (s s' : CuckooSync) (rng rng' : S)
      → Finds p y s.my_cf
      → add_each ds s rng ≡ ok (s', rng')
      → Finds p y s'.my_cf
  unfolding add_each
  add_each-Finds y [] s s' rng rng' h run =
      subst (Finds p y) (ap (λ u. u.0.my_cf) (ok-injective run)) h
  add_each-Finds y (d ∷ ds) s s' rng rng' h run =
      let (r, rest, first) = >>=-eq-ok (add_elem true p draw d s rng) _ run in
      add_each-Finds y ds r.1 s' r.2 rng' (add_elem-Finds y d s r.1 rng r.2 r.0 h first) rest

  -- An element that an end has added, and that its filter has taken in, is not listed by the other end
  -- as missing there, after any further additions, whatever their answers and whatever the other end
  -- holds. The fingerprint of the element is not 0, the filter was ready, and the byte order is
  -- little endian.
  pub missing-add_elem :
      (datum : ℕ × ℕ) (later : List (ℕ × ℕ)) (s s' s'' : CuckooSync) (cf : Cuckoo)
      (rng rng' rng'' rng3 : S) (answer : Bool) (es : List (ℕ × ℕ)) (xs : List ℕ)
      → IsReady s.my_cf
      → is_zero_f s.my_cf datum.1 ≡ ok false
      → insert true p draw s.my_cf datum.1 rng ≡ ok (true, cf, rng')
      → add_elem true p draw datum s rng ≡ ok (answer, s', rng'')
      → add_each later s' rng'' ≡ ok (s'', rng3)
      → missing p s''.my_cf es ≡ ok xs
      → All (λ x. x ≢ datum.1) xs
  unfolding add_elem
  missing-add_elem datum later s s' s'' cf rng rng' rng'' rng3 answer es xs ready nonzero inserted
        added more run =
      let (r, ends, again) = >>=-eq-ok (insert true p draw s.my_cf datum.1 rng) _ added in
      let same : cf ≡ s'.my_cf =
        ap (λ u. u.1) (ok-injective (sym inserted ∙ again))
        ∙ ap (λ u. u.1.my_cf) (ok-injective ends) in
      let first = insert-Finds_self p draw s.my_cf ready datum.1 rng rng' cf nonzero inserted in
      let last =
        add_each-Finds datum.1 later s' s'' rng'' rng3 (subst (Finds p datum.1) same first) more in
      others_differ p s''.my_cf datum.1 xs last.found (missing-IsAbsent p s''.my_cf es xs run)
