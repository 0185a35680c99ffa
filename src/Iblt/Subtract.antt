-- ===== src/Iblt/Subtract.antt =====
-- Tables that hold sets of keys, and their difference by `operator-=`.
use gensync_core.Prelude.{
  ℕ, ◌≡◌, refl, sym, ap, ap₂, ◌∙◌, length-replicate, List, [], ◌∷◌, ◌++◌, All, length, arith,
  ==_iff,
}
use gensync_core.Prelude.Int.{ℤ}
use gensync_core.Prelude.Group.{
  plus, negate, length-plus, plus_assoc, plus-zeros, zeros-plus, zeros, sub_common,
}
use gensync_core.Prelude.Outcome.{Outcome, ok, ◌>>=◌}
use gensync_core.Platform.{Platform}
use gensync_core.Iblt.{HashTableEntry, GenIblt, size, insert_signed, sub_loop, subtract}
use gensync_core.Iblt.Sums.{IsMirrored, entries, sub_entry-add}
use gensync_core.Iblt.Update.{
  IsReady, footprint_of, length-footprint_of, added, size-added, insert_signed-added, added-IsReady,
}

module _ (p : Platform) where
  -- One update for each key, in order; each key is its own value.
  unfoldable pub update_all : ℤ → List ℕ → GenIblt → Outcome GenIblt
  update_all sign [] g = ok g
  update_all sign (k ∷ ks) g = insert_signed p sign k k g >>= update_all sign ks

  -- The table that `update_all` leaves, written without the checks.
  abbrev pub added_all : GenIblt → ℤ → List ℕ → GenIblt
  added_all g sign [] = g
  added_all g sign (k ∷ ks) = added_all (added p g sign k) sign ks

  pub added_all-IsReady :
      {g : GenIblt} (sign : ℤ) (ks : List ℕ) → IsReady p g → IsReady p (added_all g sign ks)
  added_all-IsReady sign [] r = r
  added_all-IsReady {g} sign (k ∷ ks) r =
      added_all-IsReady {g = added p g sign k} sign ks (added-IsReady p sign k r)

  pub update_all-added_all :
      {g : GenIblt} (sign : ℤ) (ks : List ℕ)
      → IsReady p g
      → update_all sign ks g ≡ ok (added_all g sign ks)
  unfolding update_all
  update_all-added_all sign [] r = refl
  update_all-added_all {g} sign (k ∷ ks) r =
      rw (insert_signed-added p sign k r)
        (update_all-added_all {g = added p g sign k} sign ks (added-IsReady p sign k r))

  -- The sum of the footprints of the keys.
  unfoldable pub sketch : GenIblt → ℕ → ℤ → List ℕ → List HashTableEntry
  sketch g n sign [] = zeros (entries p) n
  sketch g n sign (k ∷ ks) = plus (entries p) (footprint_of p g n sign k) (sketch g n sign ks)

  pub length-sketch :
      (g : GenIblt) (n : ℕ) (sign : ℤ) (ks : List ℕ) → length (sketch g n sign ks) ≡ n
  unfolding sketch
  length-sketch g n sign [] = length-replicate n _
  length-sketch g n sign (k ∷ ks) =
      let here = length-footprint_of p g n sign k in
      length-plus (entries p) _ _ (here ∙ sym (length-sketch g n sign ks)) ∙ here

  -- The cells of `g` have no part in it.
  pub sketch-cells :
      (g : GenIblt) (t : List HashTableEntry) (n : ℕ) (sign : ℤ) (ks : List ℕ)
      → sketch (record g { hash_table = t }) n sign ks ≡ sketch g n sign ks
  unfolding sketch
  sketch-cells g t n sign [] = refl
  sketch-cells g t n sign (k ∷ ks) =
      ap (plus (entries p) (footprint_of p g n sign k)) (sketch-cells g t n sign ks)

  pub added_all-sketch :
      (g : GenIblt) (sign : ℤ) (ks : List ℕ)
      → added_all g sign ks
        ≡ record g { hash_table = plus (entries p) g.hash_table (sketch g (size g) sign ks) }
  unfolding sketch
  added_all-sketch g sign [] =
      ap (λ t. record g { hash_table = t }) (sym (plus-zeros (entries p) g.hash_table))
  added_all-sketch g sign (k ∷ ks) =
      added_all-sketch (added p g sign k) sign ks
      ∙ ap (λ t. record g { hash_table = t })
          (ap (plus (entries p) (added p g sign k).hash_table) (
              sketch-cells g (added p g sign k).hash_table (size (added p g sign k)) sign ks
              ∙ ap (λ n. sketch g n sign ks) (size-added p g sign k))
            ∙ plus_assoc (entries p) g.hash_table _ _)

  pub size-added_all : (g : GenIblt) (sign : ℤ) (ks : List ℕ) → size (added_all g sign ks) ≡ size g
  size-added_all g sign [] = refl
  size-added_all g sign (k ∷ ks) = size-added_all (added p g sign k) sign ks ∙ size-added p g sign k

  sub_loop-plus :
      (xs ys : List HashTableEntry)
      → length xs ≡ length ys
      → All IsMirrored xs
      → All IsMirrored ys
      → sub_loop p xs ys ≡ plus (entries p) xs (negate (entries p) ys)
  unfolding sub_loop
  sub_loop-plus [] ys h m n = refl
  sub_loop-plus (x ∷ xs) [] h m n = absurd (omega arith)
  sub_loop-plus (x ∷ xs) (y ∷ ys) h m n =
      ap₂ ◌∷◌ (sub_entry-add p x y m.0 n.0) (sub_loop-plus xs ys (omega arith) m.1 n.1)

  pub subtract-plus :
      {a b : GenIblt}
      → IsReady p a
      → IsReady p b
      → size a ≡ size b
      → subtract p a b
        ≡ ok (record a {
          hash_table = plus (entries p) a.hash_table (negate (entries p) b.hash_table);
        })
  unfolding subtract
  subtract-plus {a} {b} r q h = rw (
    (==_iff a.value_size b.value_size).1 (sym r.sized ∙ q.sized),
    (==_iff (size a) (size b)).1 h,
    sub_loop-plus a.hash_table b.hash_table h r.mirrored q.mirrored,
  )

  pub sketch-append :
      (g : GenIblt) (n : ℕ) (sign : ℤ) (ks ls : List ℕ)
      → sketch g n sign (ks ++ ls) ≡ plus (entries p) (sketch g n sign ks) (sketch g n sign ls)
  unfolding sketch
  sketch-append g n sign [] ls = sym (
      ap (λ m. plus (entries p) (zeros (entries p) m) (sketch g n sign ls))
        (sym (length-sketch g n sign ls))
      ∙ zeros-plus (entries p) (sketch g n sign ls))
  sketch-append g n sign (k ∷ ks) ls =
      ap (plus (entries p) (footprint_of p g n sign k)) (sketch-append g n sign ks ls)
      ∙ sym (plus_assoc (entries p) _ _ _)

  -- The difference of the tables of two sets, whatever the first table holds.
  pub difference :
      {g : GenIblt} (sign : ℤ) (xs ys : List ℕ)
      → IsReady p g
      → (update_all sign xs g >>= λ a. update_all sign ys g >>= subtract p a)
        ≡ ok (record g {
          hash_table =
              plus
                (entries p)
                (sketch g (size g) sign xs)
                (negate (entries p) (sketch g (size g) sign ys));
        })
  difference {g} sign xs ys r =
      let n = size g in
      let wide = λ (ks : List ℕ). sym (length-sketch g n sign ks) in
      let same : size (added_all g sign xs) ≡ size (added_all g sign ys) =
        size-added_all g sign xs ∙ sym (size-added_all g sign ys) in
      rw (update_all-added_all sign xs r, update_all-added_all sign ys r)
        (subtract-plus (added_all-IsReady sign xs r) (added_all-IsReady sign ys r) same
          ∙ ap₂
              (λ (a b : GenIblt). ok (record a {
                hash_table = plus (entries p) a.hash_table (negate (entries p) b.hash_table);
              }))
              (added_all-sketch g sign xs) (added_all-sketch g sign ys)
          ∙ ap (λ t. ok (record g { hash_table = t }))
              (sub_common (entries p) g.hash_table _ _ (wide xs) (wide ys)))

  -- Keys that two tables have in common leave no trace in their difference: the difference of the
  -- tables of common ++ xs and common ++ ys is that of the tables of xs and ys, on a table that is ready.
  pub subtract-common :
      {g : GenIblt} (sign : ℤ) (common xs ys : List ℕ)
      → IsReady p g
      → (update_all sign (common ++ xs) g >>= λ a.
          update_all sign (common ++ ys) g >>= subtract p a)
        ≡ (update_all sign xs g >>= λ a. update_all sign ys g >>= subtract p a)
  subtract-common {g} sign common xs ys r =
      let n = size g in
      let wide = λ (ks ls : List ℕ). length-sketch g n sign ks ∙ sym (length-sketch g n sign ls) in
      difference sign (common ++ xs) (common ++ ys) r
      ∙ ap (λ t. ok (record g { hash_table = t }))
          (ap₂ (λ t u. plus (entries p) t (negate (entries p) u)) (sketch-append g n sign common xs)
              (sketch-append g n sign common ys)
            ∙ sub_common (entries p) (sketch g n sign common) (sketch g n sign xs)
                (sketch g n sign ys) (wide common xs) (wide common ys))
      ∙ sym (difference sign xs ys r)
