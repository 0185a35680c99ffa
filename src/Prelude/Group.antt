-- ===== src/Prelude/Group.antt =====
-- Abelian groups, and tables: lists of group elements added place by place.
-- A lookup table of sums is such a table, and an update of one place is the sum with a table that
-- is zero elsewhere.
use gensync_core.Prelude.Lists.{length, replicate, set, modify, length-set, length-replicate}
use Prim.Native.Nat.{ℕ, zero, suc}
use mathlib.Core.Path.{◌≡◌, refl, sym, ap, ap₂, ◌∙◌}
use mathlib.Core.List.{List, [], ◌∷◌}
use native.Mathlib.Omega.{arith}

pub record AbGroup {ℓ} (A : Type ℓ) : Type ℓ where
  pub zero_of : A
  pub add : A → A → A
  pub neg : A → A
  pub add_comm : (a b : A) → add a b ≡ add b a
  pub add_assoc : (a b c : A) → add (add a b) c ≡ add a (add b c)
  pub zero-add : (a : A) → add zero_of a ≡ a
  pub neg-add : (a : A) → add (neg a) a ≡ zero_of

module _ {ℓ} {A : Type ℓ} (g : AbGroup A) where
  open g use {zero_of, add, neg, add_comm, add_assoc, zero-add, neg-add}

  pub add-zero : (a : A) → add a zero_of ≡ a
  add-zero a = add_comm a zero_of ∙ zero-add a

  -- Place by place; the two tables have one length wherever this is used.
  abbrev pub plus : List A → List A → List A
  plus [] ys = []
  plus (x ∷ xs) [] = []
  plus (x ∷ xs) (y ∷ ys) = add x y ∷ plus xs ys

  abbrev pub negate : List A → List A
  negate [] = []
  negate (x ∷ xs) = neg x ∷ negate xs

  abbrev pub zeros : ℕ → List A
  zeros n = replicate n zero_of

  -- Zero everywhere but at place `i`.
  abbrev pub at : ℕ → ℕ → A → List A
  at n i s = set (zeros n) i s

module _ {ℓ} {A : Type ℓ} (g : AbGroup A) where
  open g use {zero_of, add, neg, add_comm, add_assoc, zero-add, neg-add}

  pub plus_comm : (xs ys : List A) → length xs ≡ length ys → plus g xs ys ≡ plus g ys xs
  plus_comm [] [] h = refl
  plus_comm [] (y ∷ ys) h = absurd (omega arith)
  plus_comm (x ∷ xs) [] h = absurd (omega arith)
  plus_comm (x ∷ xs) (y ∷ ys) h = ap₂ ◌∷◌ (add_comm x y) (plus_comm xs ys (omega arith))

  pub plus_assoc : (xs ys zs : List A) → plus g (plus g xs ys) zs ≡ plus g xs (plus g ys zs)
  plus_assoc [] ys zs = refl
  plus_assoc (x ∷ xs) [] zs = refl
  plus_assoc (x ∷ xs) (y ∷ ys) [] = refl
  plus_assoc (x ∷ xs) (y ∷ ys) (z ∷ zs) = ap₂ ◌∷◌ (add_assoc x y z) (plus_assoc xs ys zs)

  pub length-plus : (xs ys : List A) → length xs ≡ length ys → length (plus g xs ys) ≡ length xs
  length-plus [] ys h = refl
  length-plus (x ∷ xs) [] h = absurd (omega arith)
  length-plus (x ∷ xs) (y ∷ ys) h = ap suc (length-plus xs ys (omega arith))

  pub length-negate : (xs : List A) → length (negate g xs) ≡ length xs
  length-negate [] = refl
  length-negate (x ∷ xs) = ap suc (length-negate xs)

  pub zeros-plus : (xs : List A) → plus g (zeros g (length xs)) xs ≡ xs
  zeros-plus [] = refl
  zeros-plus (x ∷ xs) = ap₂ ◌∷◌ (zero-add x) (zeros-plus xs)

  pub plus-zeros : (xs : List A) → plus g xs (zeros g (length xs)) ≡ xs
  plus-zeros [] = refl
  plus-zeros (x ∷ xs) = ap₂ ◌∷◌ (add-zero g x) (plus-zeros xs)

  pub negate-plus : (xs : List A) → plus g (negate g xs) xs ≡ zeros g (length xs)
  negate-plus [] = refl
  negate-plus (x ∷ xs) = ap₂ ◌∷◌ (neg-add x) (negate-plus xs)

  -- Adding `s` at one place is adding the table that holds `s` there.
  pub modify-at :
      (xs : List A) (i : ℕ) (s : A) → modify xs i (λ x. add x s) ≡ plus g xs (at g (length xs) i s)
  modify-at [] i s = refl
  modify-at (x ∷ xs) zero s = ap (λ l. add x s ∷ l) (sym (plus-zeros xs))
  modify-at (x ∷ xs) (suc i) s = ap₂ ◌∷◌ (sym (add-zero g x)) (modify-at xs i s)

  pub length-at : (n i : ℕ) (s : A) → length (at g n i s) ≡ n
  length-at n i s = length-set (zeros g n) i s ∙ length-replicate n zero_of

  pub plus_swap :
      (t xs ys : List A) → length xs ≡ length ys → plus g (plus g t xs) ys ≡ plus g (plus g t ys) xs
  plus_swap t xs ys h =
      plus_assoc t xs ys ∙ ap (plus g t) (plus_comm xs ys h) ∙ sym (plus_assoc t ys xs)

  -- What was added and then taken away.
  pub plus-negate :
      (t xs ys : List A)
      → length t ≡ length xs
      → plus g ys xs ≡ zeros g (length xs)
      → plus g (plus g t ys) xs ≡ t
  plus-negate t xs ys h e =
      plus_assoc t ys xs ∙ ap (plus g t) (e ∙ ap (zeros g) (sym h)) ∙ plus-zeros t

  pub zeros-zeros : (n : ℕ) → plus g (zeros g n) (zeros g n) ≡ zeros g n
  zeros-zeros zero = refl
  zeros-zeros (suc n) = ap₂ ◌∷◌ (zero-add zero_of) (zeros-zeros n)

  pub at-opposite :
      (n i : ℕ) (s t : A) → add s t ≡ zero_of → plus g (at g n i s) (at g n i t) ≡ zeros g n
  at-opposite zero i s t e = refl
  at-opposite (suc n) zero s t e = ap₂ ◌∷◌ e (zeros-zeros n)
  at-opposite (suc n) (suc i) s t e = ap₂ ◌∷◌ (zero-add zero_of) (at-opposite n i s t e)

  pub plus_medial :
      (a b c d : List A)
      → length b ≡ length c
      → plus g (plus g a b) (plus g c d) ≡ plus g (plus g a c) (plus g b d)
  plus_medial a b c d h =
      sym (plus_assoc (plus g a b) c d)
      ∙ ap (λ l. plus g l d) (plus_swap a b c h)
      ∙ plus_assoc (plus g a c) b d

  -- Subtraction undoes addition.
  pub plus-sub : (ys zs : List A) → length ys ≡ length zs → plus g (plus g ys zs) (negate g ys) ≡ zs
  plus-sub ys zs h =
      ap (λ l. plus g l (negate g ys)) (plus_comm ys zs h)
      ∙ plus_assoc zs ys (negate g ys)
      ∙ ap (plus g zs)
          (plus_comm ys (negate g ys) (sym (length-negate ys)) ∙ negate-plus ys ∙ ap (zeros g) h)
      ∙ plus-zeros zs

  -- A common part of two tables cancels in their difference.
  pub sub_common :
      (t xs ys : List A)
      → length t ≡ length xs
      → length t ≡ length ys
      → plus g (plus g t xs) (negate g (plus g t ys)) ≡ plus g xs (negate g ys)
  sub_common t xs ys h k =
      let d = plus g xs (negate g ys) in
      let wide : length d ≡ length xs = length-plus xs _ (sym h ∙ k ∙ sym (length-negate ys)) in
      let back : plus g (plus g t ys) d ≡ plus g t xs =
        plus_assoc t ys d
        ∙ ap (plus g t) (
            plus_comm ys d (sym k ∙ h ∙ sym wide)
            ∙ plus_assoc xs (negate g ys) ys
            ∙ ap (plus g xs) (negate-plus ys ∙ ap (zeros g) (sym k ∙ h))
            ∙ plus-zeros xs) in
      ap (λ l. plus g l (negate g (plus g t ys))) (sym back)
      ∙ plus-sub (plus g t ys) d (length-plus t ys k ∙ h ∙ sym wide)

  -- An equation of differences, p - m = a - b with m the inverse of n, as one of sums.
  pub move_over :
      (a b p m n : List A)
      → length b ≡ length a
      → length (plus g b p) ≡ length (plus g m n)
      → plus g m n ≡ zeros g (length (plus g m n))
      → plus g p m ≡ plus g a (negate g b)
      → plus g b p ≡ plus g a n
  move_over a b p m n h w e d =
      sym (plus-zeros (plus g b p))
      ∙ ap (plus g (plus g b p)) (ap (zeros g) w ∙ sym e)
      ∙ sym (plus_assoc (plus g b p) m n)
      ∙ ap (λ l. plus g l n)
          (plus_assoc b p m ∙ ap (plus g b) d ∙ sym (plus_assoc b a (negate g b)) ∙ plus-sub b a h)
