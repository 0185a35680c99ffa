-- ===== src/Iblt/Reconcile.antt =====
-- One party's table minus the other's, listed: what the two parties' keys have to do with the two
-- lists.
use gensync_core.Prelude.{
  ℕ, ◌+◌, ◌<◌, ◌≡◌, refl, sym, ap, ap₂, ◌∙◌, List, [], ◌∷◌, ◌++◌, length, Bool, true, false,
  Bool-cases, ◌⊎◌, inl, inr, length-replicate, arith,
}
use gensync_core.Prelude.Bags.{AsOften, count, count-append}
use gensync_core.Prelude.Int.{ℤ, pos, negsuc, ◌+ℤ◌}
use gensync_core.Prelude.Group.{
  plus, negate, zeros, length-negate, plus_medial, zeros-zeros, zeros-plus, plus-sub,
}
use gensync_core.Prelude.Outcome.{ok-injective, ok, ◌>>=◌}
use gensync_core.Platform.{Platform}
use gensync_core.Iblt.{
  HashTableEntry, GenIblt, Listing, blank, size, all_empty, list_entries, subtract,
}
use gensync_core.Iblt.Sums.{entries, zeros-IsMirrored}
use gensync_core.Iblt.Update.{IsReady, length-footprint_of, footprint-opposite}
use gensync_core.Iblt.Subtract.{
  update_all, added_all, update_all-added_all, added_all-IsReady, added_all-sketch, sketch,
  length-sketch, sketch-cells, difference, subtract-common,
}
use gensync_core.Iblt.Peel.{keys}
use gensync_core.Iblt.Decode.{start, cleared, all_empty-blank}
use gensync_core.Iblt.Honest.{holding, honest, telling, Left-none}
use gensync_core.Iblt.Ends.{list_entries-Left}
use gensync_core.Iblt.Order.{update_all-AsOften}

-- The outcome of a listing: the keys that it missed of each list, how often every key is listed, and
-- what an answer of true means.
pub record Reconciles (first second xs ys : List ℕ) (answer : Bool) (s : Listing) : Type 0 where
  pub missed_p : List ℕ
  pub missed_n : List ℕ
  pub positive : AsOften (keys s.positive ++ missed_p) xs
  pub negative : AsOften (keys s.negative ++ missed_n) ys
  pub complete :
      (answer ≡ false)
      ⊎ (AsOften (keys s.positive) xs
          × AsOften (keys s.negative) ys
          × AsOften (second ++ keys s.positive) (first ++ keys s.negative))

module _ (p : Platform) where
  sketch-opposite :
      (g : GenIblt) (n : ℕ) (s t : ℤ) (ks : List ℕ)
      → s +ℤ t ≡ pos 0
      → plus (entries p) (sketch p g n s ks) (sketch p g n t ks) ≡ zeros (entries p) n
  unfolding sketch
  sketch-opposite g n s t [] e = zeros-zeros (entries p) n
  sketch-opposite g n s t (k ∷ ks) e =
      plus_medial (entries p) _ _ _ _
        (length-sketch p g n s ks ∙ sym (length-footprint_of p g n t k))
      ∙ ap₂ (plus (entries p)) (footprint-opposite p _ s t k _ n _ 0 e)
          (sketch-opposite g n s t ks e)
      ∙ zeros-zeros (entries p) n

  -- The cells after a run of updates on a table with the parameters of `g`.
  run_cells :
      (g : GenIblt) (t : List HashTableEntry) (sign : ℤ) (ks : List ℕ)
      → length t ≡ size g
      → added_all p (record g { hash_table = t }) sign ks
        ≡ record g { hash_table = plus (entries p) t (sketch p g (size g) sign ks) }
  run_cells g t sign ks e =
      added_all-sketch p (record g { hash_table = t }) sign ks
      ∙ ap (λ u. record g { hash_table = plus (entries p) t u })
          (sketch-cells p g t (length t) sign ks ∙ ap (λ n. sketch p g n sign ks) e)

  -- The cells after two runs of updates on a blank table.
  two_runs :
      (g : GenIblt) (ps ns : List ℕ)
      → added_all p (added_all p (cleared p g) (pos 1) ps) (negsuc 0) ns ≡ record g {
        hash_table =
            plus (entries p) (sketch p g (size g) (pos 1) ps) (sketch p g (size g) (negsuc 0) ns);
      }
  two_runs g ps ns =
      let n = size g in
      let first = sketch p g n (pos 1) ps in
      let wide = length-sketch p g n (pos 1) ps in
      let blanks : plus (entries p) (zeros (entries p) n) first ≡ first =
        ap (λ m. plus (entries p) (zeros (entries p) m) first) (sym wide)
        ∙ zeros-plus (entries p) first in
      ap (λ h. added_all p h (negsuc 0) ns)
        (run_cells g (zeros (entries p) n) (pos 1) ps (length-replicate n blank)
          ∙ ap (λ t. record g { hash_table = t }) blanks)
      ∙ run_cells g first (negsuc 0) ns wide

  cleared-IsReady : {g : GenIblt} → IsReady p g → IsReady p (cleared p g)
  cleared-IsReady {g} r = record {
    hashed = r.hashed;
    roomy = λ k. rw (length-replicate (size g) blank) (r.roomy k);
    sized = r.sized;
    mirrored = zeros-IsMirrored p (size g);
  }

  -- Erasing is inserting into the opposite table.
  negate-sketch :
      (g : GenIblt) (n : ℕ) (ks : List ℕ)
      → negate (entries p) (sketch p g n (pos 1) ks) ≡ sketch p g n (negsuc 0) ks
  negate-sketch g n ks =
      let up = sketch p g n (pos 1) ks in
      let down = sketch p g n (negsuc 0) ks in
      let wide = length-sketch p g n (pos 1) ks in
      sym (zeros-plus (entries p) (negate (entries p) up))
      ∙ ap (λ m. plus (entries p) (zeros (entries p) m) (negate (entries p) up))
          (length-negate (entries p) up ∙ wide)
      ∙ ap (λ t. plus (entries p) t (negate (entries p) up))
          (sym (sketch-opposite g n (pos 1) (negsuc 0) ks (unfold ◌+ℤ◌ in refl)))
      ∙ plus-sub (entries p) up down (wide ∙ sym (length-sketch p g n (negsuc 0) ks))

  -- The difference of the tables of two parties: what the one alone holds is inserted, and what the
  -- other alone holds is erased, whatever they have in common and whatever the order.
  difference-holding :
      {g : GenIblt} (first second common xs ys : List ℕ)
      → IsReady p g
      → AsOften first (common ++ xs)
      → AsOften second (common ++ ys)
      → (update_all p (pos 1) first g >>= λ a. update_all p (pos 1) second g >>= subtract p a)
        ≡ ok (holding p (cleared p g) xs ys)
  difference-holding {g} first second common xs ys r hx hy =
      ap₂ (λ a b. a >>= λ t. b >>= subtract p t) (update_all-AsOften p (pos 1) first _ r hx)
        (update_all-AsOften p (pos 1) second _ r hy)
      ∙ subtract-common p (pos 1) common xs ys r
      ∙ difference p (pos 1) xs ys r
      ∙ ap (λ t. ok (record g { hash_table = plus (entries p) (sketch p g (size g) (pos 1) xs) t }))
          (negate-sketch g (size g) ys)
      ∙ ap ok (sym (two_runs g xs ys))

  -- What the two parties have once each has added what the other lists.
  union_lem :
      (first second common xs ys ps ns : List ℕ)
      → AsOften first (common ++ xs)
      → AsOften second (common ++ ys)
      → AsOften ps xs
      → AsOften ns ys
      → AsOften (second ++ ps) (first ++ ns)
  union_lem first second common xs ys ps ns hx hy hp hn v = omega (
    arith,
    hx v,
    hy v,
    hp v,
    hn v,
    count-append v common xs,
    count-append v common ys,
    count-append v second ps,
    count-append v first ns,
  )

  -- Two parties hold the keys `common ++ xs` and `common ++ ys`, in any order, each in a table that
  -- began as g. Where no check collides and no keys cancel, listing the difference of the tables ends,
  -- within a round for every key that is not common and one more. It lists as positive only keys of
  -- xs and as negative only keys of ys, none more often than it is there. With the answer true it
  -- lists them all: the second party's keys with the positive list and the first party's with the
  -- negative list are then the same, each key as often. The table g is ready for updates.
  pub reconcile :
      {g d : GenIblt} (first second common xs ys : List ℕ) (fuel : ℕ)
      → IsReady p g
      → AsOften first (common ++ xs)
      → AsOften second (common ++ ys)
      → honest p (cleared p g) xs ys ≡ true
      → telling p (cleared p g) xs ys ≡ true
      → (update_all p (pos 1) first g >>= λ a. update_all p (pos 1) second g >>= subtract p a)
        ≡ ok d
      → length xs + length ys < fuel
      → (answer : Bool) × (s : Listing) × (list_entries p fuel (start p d) ≡ ok (answer, s))
        × Reconciles first second xs ys answer s
  reconcile {g} {d} first second common xs ys fuel r hx hy h t made few =
      let blanks = cleared-IsReady r in
      let same : holding p (cleared p g) xs ys ≡ d =
        ok-injective (sym (difference-holding first second common xs ys r hx hy) ∙ made) in
      let runs : (update_all p (pos 1) xs (cleared p g) >>= update_all p (negsuc 0) ys) ≡ ok d =
        rw (update_all-added_all p (pos 1) xs blanks) (
          update_all-added_all p (negsuc 0) ys (added_all-IsReady p (pos 1) xs blanks)
          ∙ ap ok same) in
      let (s, m, run, k, l) =
        list_entries-Left p {g = cleared p g} {d = d} xs ys fuel blanks h runs few in
      let all = λ (e : all_empty s.iblt.hash_table ≡ true).
        Left-none p (length s.iblt.hash_table) t l
          (all_empty-blank p s.iblt.hash_table k.ready.mirrored e) in
      (
        all_empty s.iblt.hash_table,
        s,
        run,
        record {
          missed_p = l.ps';
          missed_n = l.ns';
          positive = l.bag_p;
          negative = l.bag_n;
          complete = elim (Bool-cases (all_empty s.iblt.hash_table)) [
            | inr no_answer ↦ inl no_answer
            | inl e ↦
                let hp = none_missed (keys s.positive) l.ps' xs (all e).0 l.bag_p in
                let hn = none_missed (keys s.negative) l.ns' ys (all e).1 l.bag_n in
                inr (hp, hn, union_lem first second common xs ys _ _ hx hy hp hn)
          ];
        },
      )
    where
      none_missed : (ks left all : List ℕ) → left ≡ [] → AsOften (ks ++ left) all → AsOften ks all
      none_missed ks left all e h v = omega (arith, h v, count-append v ks left, ap (count v) e)
