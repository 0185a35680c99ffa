-- ===== src/MetIblt/Peel.antt =====
-- What `peelOnce` does to a key that one table lists and the others do not.
use gensync_core.Prelude.{
  ℕ, ◌≡◌, refl, ap, ap₂, ◌∙◌, Bool, true, false, ◌||◌, ==_refl, List, [], ◌∷◌, ◌++◌, map, All,
}
use mathlib.Core.List.{append_assoc, append-nil}
use gensync_core.Prelude.Int.{ℤ, pos, negsuc, ◌+ℤ◌}
use gensync_core.Prelude.Outcome.{ok}
use gensync_core.Platform.{Platform}
use gensync_core.Iblt.{GenIblt, Listing, list_entries, erase}
use gensync_core.Iblt.Decode.{start}
use gensync_core.Iblt.Update.{IsReady, added, added-IsReady, added-opposite, insert_signed-added}
use gensync_core.MetIblt.{
  MetIblt, Peeling, peel_table, peel_tables, peel_once, erase_missing, erase_rest, contains,
  set_insert, set_insert_all,
}

module _ (p : Platform) (fuel : ℕ) where
  -- The table lists nothing and keeps its cells.
  abbrev pub ListsNothing : GenIblt → Type 0
  ListsNothing t = list_entries p fuel (start p t) ≡ ok (false, start p t)

  or_false : (b : Bool) → (b || false) ≡ b
  or_false true = refl
  or_false false = refl

  peel_tables-nothing :
      (ts : List GenIblt) (s : Peeling)
      → All ListsNothing ts
      → peel_tables p fuel ts s ≡ ok (record s { per_table = s.per_table ++ map (λ t. (t, [])) ts })
  unfolding peel_tables peel_table
  peel_tables-nothing [] s h = rw (append-nil s.per_table) refl
  peel_tables-nothing (t ∷ ts) s h =
      rw (h.0, or_false s.success)
        (peel_tables-nothing ts (record s { per_table = s.per_table ++ (t, []) ∷ [] }) h.1
          ∙ rw (append_assoc s.per_table ((t, []) ∷ []) (map (λ u. (u, [])) ts)) refl)

  module _ (sign : ℤ) (k : ℕ) where
    -- The tables with the key counted in.
    abbrev pub with_key : List GenIblt → List GenIblt
    with_key gs = map (λ g. added p g sign k) gs

    -- The tables when the key was counted in and then erased.
    abbrev pub with_key_erased : List GenIblt → List GenIblt
    with_key_erased gs = map (λ g. added p (added p g sign k) (negsuc 0) k) gs

    erase_rest-with_key :
        (gs : List GenIblt)
        → All (IsReady p) gs
        → erase_rest p (k ∷ []) (map (λ t. (t, [])) (with_key gs)) ≡ ok (with_key_erased gs)
    unfolding erase_rest erase_missing contains erase
    erase_rest-with_key [] h = refl
    erase_rest-with_key (g ∷ gs) h =
        rw
          (
            insert_signed-added p (negsuc 0) k (added-IsReady p sign k h.0),
            erase_rest-with_key gs h.1,
          )
          refl

    -- `peelOnce` when the first table lists just this key and the others list nothing.
    peel_once-one :
        (t : GenIblt) {b : Bool} {l : Listing} (gs : List GenIblt) (m : MetIblt)
        → (set_insert_all
              (map (λ x. x.0) l.positive)
              (set_insert_all (map (λ x. x.0) l.negative) [])
            ≡ k ∷ [])
        → list_entries p fuel (start p t) ≡ ok (b, l)
        → All ListsNothing (with_key gs)
        → All (IsReady p) gs
        → peel_once p fuel (record m { tables = t ∷ with_key gs })
          ≡ ok (
            b,
            set_insert_all (map (λ x. x.0) l.positive) [],
            set_insert_all (map (λ x. x.0) l.negative) [],
            record m { tables = l.iblt ∷ with_key_erased gs },
          )
    unfolding peel_once peel_tables peel_table erase_rest erase_missing contains
    peel_once-one t {b} {l} gs m listed run rest ready =
        rw (run, listed)
          (let s : Peeling = record {
            success = b;
            positive = set_insert_all (map (λ x. x.0) l.positive) [];
            negative = set_insert_all (map (λ x. x.0) l.negative) [];
            removed_total = k ∷ [];
            per_table = (l.iblt, k ∷ []) ∷ [];
          } in
            rw (peel_tables-nothing (with_key gs) s rest, ==_refl k, erase_rest-with_key gs ready)
              refl)

  module _ (k : ℕ) (t u : GenIblt) {b : Bool} {n : ℕ} (gs : List GenIblt) (m : MetIblt) where
    -- A key that only the first table lists, with a positive count, is taken out of every other
    -- table. The first table lists just this key and is left as `u`; each other one has the key
    -- inserted into a table of `gs`, which is ready for updates, and lists nothing itself. Then
    -- `peelOnce` ends with the answer of the first table, gives the key as positive, and leaves `u`
    -- and the tables of `gs`.
    pub peel_once-positive :
        (list_entries p fuel (start p t)
          ≡ ok (b, record { iblt = u; positive = (k, k) ∷ []; negative = []; n_erased = n }))
        → All ListsNothing (map (λ g. added p g (pos 1) k) gs)
        → All (IsReady p) gs
        → peel_once p fuel (record m { tables = t ∷ map (λ g. added p g (pos 1) k) gs })
          ≡ ok (b, k ∷ [], [], record m { tables = u ∷ gs })
    unfolding set_insert
    peel_once-positive run rest ready =
        peel_once-one (pos 1) k t gs m refl run rest ready
        ∙ ap (λ ts. ok (b, k ∷ [], [], record m { tables = u ∷ ts })) (restored gs)
      where
        restored : (hs : List GenIblt) → with_key_erased (pos 1) k hs ≡ hs
        restored [] = refl
        restored (h ∷ hs) =
            ap₂ ◌∷◌ (added-opposite p h (pos 1) (negsuc 0) k (unfold ◌+ℤ◌ in refl)) (restored hs)

    -- A key that only the first table lists, with a negative count, is not taken out of the other
    -- tables: `peelOnce` erases it there once more. The first table lists just this key and is left
    -- as `u`; each other one has the key erased from a table of `gs`, which is ready for updates,
    -- and lists nothing itself. Then `peelOnce` ends with the answer of the first table, gives the
    -- key as negative, and leaves `u` and the tables of `gs` with the key erased twice.
    pub peel_once-negative :
        (list_entries p fuel (start p t)
          ≡ ok (b, record { iblt = u; positive = []; negative = (k, k) ∷ []; n_erased = n }))
        → All ListsNothing (map (λ g. added p g (negsuc 0) k) gs)
        → All (IsReady p) gs
        → peel_once p fuel (record m { tables = t ∷ map (λ g. added p g (negsuc 0) k) gs })
          ≡ ok (
            b,
            [],
            k ∷ [],
            record m { tables = u ∷ map (λ g. added p (added p g (negsuc 0) k) (negsuc 0) k) gs },
          )
    unfolding set_insert
    peel_once-negative run rest ready = peel_once-one (negsuc 0) k t gs m refl run rest ready
