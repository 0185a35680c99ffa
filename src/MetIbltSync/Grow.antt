-- ===== src/MetIbltSync/Grow.antt =====
-- What one more type of cells does to the rateless table of the sync method.
use gensync_core.Prelude.{
  All-append, ℕ, ◌<◌, ◌≡◌, refl, ap, ◌∙◌, true, ltb, List, [], ◌∷◌, ◌++◌, All, length, arith, sym,
  replicate, length-replicate,
}
use mathlib.Core.Path.{subst}
use mathlib.Core.List.{append_assoc}
use gensync_core.Prelude.Int.{pos}
use gensync_core.Prelude.Outcome.{ok, load_at-middle, store_at-middle}
use gensync_core.Platform.{Platform}
use gensync_core.Iblt.{GenIblt, blank, size, insert, new_cells}
use gensync_core.Iblt.Update.{IsReady, added, added-IsReady, insert_signed-added}
use gensync_core.Iblt.Subtract.{added_all}
use gensync_core.MetIblt.{MetIblt, build, create_hasher, add_cell_type, insert_type}
use gensync_core.MetIblt.Tables.{Encodes, encode, Encodes-IsReady, added_all-Encodes}
use gensync_core.MetIbltSync.{MetIbltSync, insert_elements, grow}
use gensync_core.MetIbltSync.Elements.{values, TablesEncode}

-- The table that `addCellType` adds.
abbrev pub new_table : ℕ → MetIbltSync → GenIblt
new_table index s =
    let m = s.my_met in
    new_cells (s.cell_type_func index) m.elt_size
      (create_hasher (m.deg_matrix ++ s.deg_matrix_func index ∷ []) m.key2type (length m.m_cells))

-- The rateless table with its new type of cells, and these tables.
abbrev pub with_type : ℕ → MetIbltSync → List GenIblt → MetIblt
with_type index s tables = record (s.my_met) {
  deg_matrix = s.my_met.deg_matrix ++ s.deg_matrix_func index ∷ [];
  m_cells = s.my_met.m_cells ++ s.cell_type_func index ∷ [];
  tables = tables;
}

blank_cells :
    (cells value_size : ℕ) (calc : ℕ → ℕ)
    → (new_cells cells value_size calc).hash_table
      ≡ replicate (size (new_cells cells value_size calc)) blank
unfolding new_cells
blank_cells cells value_size calc = ap (λ n. replicate n blank) (sym (length-replicate cells blank))

add_cell_type_lem :
    (index : ℕ) (s : MetIbltSync)
    → 0 < s.cell_type_func index
    → 0 < s.my_met.elt_size
    → add_cell_type (s.cell_type_func index) (s.deg_matrix_func index) s.my_met
      ≡ ok (with_type index s (s.my_met.tables ++ new_table index s ∷ []))
unfolding add_cell_type build
add_cell_type_lem index s hc he =
    let positive : (n : ℕ) → 0 < n → ltb 0 n ≡ true = λ n h. ground arith in
    rw (positive _ hc, positive _ he) refl

module _ (p : Platform) where
  -- The elements go into the one table.
  insert_elements-middle :
      (es : List (ℕ × ℕ)) (before after : List GenIblt) (g : GenIblt) (m : MetIblt)
      → IsReady p g
      → insert_elements p es (length before) (record m { tables = before ++ g ∷ after })
        ≡ ok (record m { tables = before ++ added_all p g (pos 1) (values es) ∷ after })
  unfolding insert_elements insert_type insert
  insert_elements-middle [] before after g m r = refl
  insert_elements-middle (e ∷ es) before after g m r =
      rw
        (
          load_at-middle before after g,
          insert_signed-added p (pos 1) e.1 r,
          store_at-middle before after g (added p g (pos 1) e.1),
        )
        (insert_elements-middle es before after (added p g (pos 1) e.1) m
          (added-IsReady p (pos 1) e.1 r))

  -- Growing fills the table of the index, which is not the new one unless it is the last.
  grow-middle :
      (s : MetIbltSync) (before after : List GenIblt) (g : GenIblt)
      → 0 < s.cell_type_func (length before)
      → 0 < s.my_met.elt_size
      → IsReady p g
      → s.my_met.tables ++ new_table (length before) s ∷ [] ≡ before ++ g ∷ after
      → grow p (length before) s
        ≡ ok (record s {
          my_met =
              with_type
                (length before)
                s
                (before ++ added_all p g (pos 1) (values s.elements) ∷ after);
        })
  unfolding grow
  grow-middle s before after g hc he r e =
      let i = length before in
      rw
        (
          add_cell_type_lem i s hc he,
          e,
          insert_elements-middle s.elements before after g (with_type i s []) r,
        )
        refl

  -- In a first synchronization, growing keeps every table an encoding of the values of the elements:
  -- where the index is the number of tables, growing ends, and the last of the tables is the new
  -- one, with every element inserted. The new type of cells has cells, the elements have a size, and
  -- the new table is ready for updates.
  pub grow-TablesEncode :
      (s : MetIbltSync)
      → 0 < s.cell_type_func (length s.my_met.tables)
      → 0 < s.my_met.elt_size
      → IsReady p (new_table (length s.my_met.tables) s)
      → TablesEncode p s
      → (s' : MetIbltSync) × (grow p (length s.my_met.tables) s ≡ ok s')
        × (s'.my_met.tables
            ≡ s.my_met.tables
              ++ added_all p (new_table (length s.my_met.tables) s) (pos 1) (values s.elements)
                ∷ [])
        × TablesEncode p s'
  grow-TablesEncode s hc he r h =
      let tables = s.my_met.tables in
      let new = new_table (length tables) s in
      let filled = added_all p new (pos 1) (values s.elements) in
      let blanks : new.hash_table ≡ replicate (size new) blank =
        blank_cells (s.cell_type_func (length tables)) _ _ in
      (
        record s { my_met = with_type (length tables) s (tables ++ filled ∷ []) },
        grow-middle s tables [] new hc he r refl,
        refl,
        All-append _ tables (filled ∷ []) h (encode p (values s.elements) new r blanks refl, tt),
      )

  -- In a later synchronization, growing goes wrong: where a table of the index is there already,
  -- growing inserts every element into it once more, so that it encodes the values of the elements
  -- twice, and leaves the new table empty behind the others. The new type of cells has cells, the
  -- elements have a size, and every table encoded the values of the elements.
  pub grow-again :
      (s : MetIbltSync) (before after : List GenIblt) (g : GenIblt)
      → s.my_met.tables ≡ before ++ g ∷ after
      → 0 < s.cell_type_func (length before)
      → 0 < s.my_met.elt_size
      → TablesEncode p s
      → (s' : MetIbltSync) × (g' : GenIblt) × (grow p (length before) s ≡ ok s')
        × (s'.my_met.tables ≡ before ++ g' ∷ (after ++ new_table (length before) s ∷ []))
        × Encodes p (values s.elements ++ values s.elements) g'
  grow-again s before after g e hc he h =
      let index = length before in
      let new = new_table index s in
      let held = Encodes-middle before (subst (All (Encodes p (values s.elements))) e h) in
      let g' = added_all p g (pos 1) (values s.elements) in
      (
        record s { my_met = with_type index s (before ++ g' ∷ (after ++ new ∷ [])) },
        g',
        grow-middle s before (after ++ new ∷ []) g hc he
            (Encodes-IsReady p (values s.elements) g held)
            (ap (λ ts. ts ++ new ∷ []) e ∙ append_assoc before (g ∷ after) (new ∷ [])),
        refl,
        added_all-Encodes p (values s.elements) (values s.elements) g held,
      )
    where
      Encodes-middle :
          {ks : List ℕ} (ts : List GenIblt) → All (Encodes p ks) (ts ++ g ∷ after) → Encodes p ks g
      Encodes-middle [] h = h.0
      Encodes-middle (t ∷ ts) h = Encodes-middle ts h.1
