-- ===== src/Iblt/Order.antt =====
-- Tables of keys do not depend on the order in which the keys are put in.
use gensync_core.Prelude.{
  ℕ, ◌<◌, ◌≡◌, refl, sym, ap, ◌∙◌, true, List, [], ◌∷◌, ◌++◌, arith, ==_refl,
}
use gensync_core.Prelude.Bags.{AsOften, count, count-append}
use gensync_core.Prelude.Int.{ℤ}
use gensync_core.Prelude.Outcome.{ok}
use gensync_core.Platform.{Platform}
use gensync_core.Iblt.{GenIblt}
use gensync_core.Iblt.Update.{IsReady, added}
use gensync_core.Iblt.Subtract.{update_all, added_all, update_all-added_all}
use gensync_core.Iblt.Peel.{added_all-added}
use gensync_core.Iblt.Sublists.{mem, mem-split}
use gensync_core.Iblt.Honest.{added_all-middle}

mem-count : (v : ℕ) (ys : List ℕ) → 0 < count v ys → mem v ys ≡ true
mem-count v [] h = absurd (omega arith)
mem-count v (y ∷ ys) h = ground (arith, mem-count v ys)

count_self : (x : ℕ) (xs : List ℕ) → 0 < count x (x ∷ xs)
count_self x xs = rw (==_refl x) (omega arith)

without-AsOften :
    (x : ℕ) (xs before after : List ℕ) {ys : List ℕ}
    → AsOften (x ∷ xs) ys
    → ys ≡ before ++ x ∷ after
    → AsOften xs (before ++ after)
without-AsOften x xs before after {ys} h e v =
    omega
      (arith, h v, ap (count v) e, count-append v before (x ∷ after), count-append v before after)

module _ (p : Platform) where
  added_all-AsOften :
      (g : GenIblt) (sign : ℤ) (xs ys : List ℕ)
      → AsOften xs ys
      → added_all p g sign xs ≡ added_all p g sign ys
  added_all-AsOften g sign [] [] h = refl
  added_all-AsOften g sign [] (y ∷ ys) h = absurd (omega (arith, h y, count_self y ys))
  added_all-AsOften g sign (x ∷ xs) ys h =
      let there = mem-count x ys (omega (arith, h x, count_self x xs)) in
      let (before, after, e) = mem-split x ys there in
      added_all-AsOften (added p g sign x) sign xs (before ++ after)
        (without-AsOften x xs before after h e)
      ∙ added_all-added p g sign sign (before ++ after) x
      ∙ sym (added_all-middle p g sign before x after)
      ∙ ap (added_all p g sign) (sym e)

  -- Two lists with every key as often make the same table.
  pub update_all-AsOften :
      {g : GenIblt} (sign : ℤ) (xs ys : List ℕ)
      → IsReady p g
      → AsOften xs ys
      → update_all p sign xs g ≡ update_all p sign ys g
  update_all-AsOften {g} sign xs ys r h =
      update_all-added_all p sign xs r
      ∙ ap ok (added_all-AsOften g sign xs ys h)
      ∙ sym (update_all-added_all p sign ys r)
