-- ===== src/MetIblt.antt =====
-- The rateless table of src/Syncs/MET_IBLT.cpp and include/GenSync/Syncs/MET_IBLT.h: a table for each
-- type of cells, in which a key has a number of hashes by its own type. A `std::set` of keys is the
-- ascending list of them.
pub mod Tables
pub mod Peel
mod Tests
use gensync_core.Prelude.{
  ℕ, zero, suc, ◌+◌, Bool, true, false, ◌&&◌, ◌||◌, ◌==◌, ltb, if◌then◌else◌, Option, none, some,
  List, [], ◌∷◌, ◌++◌, map, length, get_elem?,
}
use gensync_core.Prelude.Outcome.{Outcome, ok, stop, quits, out_of_fuel, ◌>>=◌, load_at, store_at}
use gensync_core.Platform.{Platform}
use gensync_core.Iblt.{GenIblt, Listing, new, new_cells, insert, erase, list_entries}

pub record MetIblt : Type 0 where
  pub deg_matrix : List (List ℕ)
  pub m_cells : List ℕ
  pub key2type : ℕ → ℕ
  pub tables : List GenIblt
  pub elt_size : ℕ

-- `GenIBLT::Builder::build`, by what was set; a number that was not is 0.
unfoldable pub build : ℕ → ℕ → ℕ → ℕ → ℕ → Option (ℕ → ℕ) → Outcome GenIblt
build num_hashes num_hash_check expected_num_entries num_cells value_size calc =
    if ltb 0 num_hashes
      && (ltb 0 num_hash_check && (ltb 0 expected_num_entries && ltb 0 value_size))
    then new num_hashes num_hash_check expected_num_entries value_size
    else if ltb 0 num_cells && ltb 0 value_size
    then elim calc [ none ↦ stop quits | some f ↦ ok (new_cells num_cells value_size f) ]
    else stop quits

-- An entry of the matrix. Past its ends the source is undefined; here the number of hashes is 0 then,
-- and with it every use of it in a table is undefined.
abbrev pub degree : List (List ℕ) → ℕ → ℕ → ℕ
degree matrix cell_type elem_type = elim (get_elem? matrix cell_type) [
  | none ↦ 0
  | some row ↦ elim (get_elem? row elem_type) [ none ↦ 0 | some n ↦ n ]
]

abbrev pub create_hasher : List (List ℕ) → (ℕ → ℕ) → ℕ → ℕ → ℕ
create_hasher matrix key2type cell_type elem = degree matrix cell_type (key2type elem)

-- The loop of the constructor, from one type of cells on.
pub build_tables : List (List ℕ) → (ℕ → ℕ) → ℕ → ℕ → List ℕ → Outcome (List GenIblt)
build_tables matrix key2type elt_size cell_type [] = ok []
build_tables matrix key2type elt_size cell_type (cells ∷ rest) = do
  t ← build 0 0 0 cells elt_size (some (create_hasher matrix key2type cell_type))
  ts ← build_tables matrix key2type elt_size (cell_type + 1) rest
  ok (t ∷ ts)

unfoldable pub new_met : List (List ℕ) → List ℕ → (ℕ → ℕ) → ℕ → Outcome MetIblt
unfolding build_tables build
new_met deg_matrix m_cells key2type elt_size = do
  tables ← build_tables deg_matrix key2type elt_size 0 m_cells
  ok (record {
    deg_matrix = deg_matrix;
    m_cells = m_cells;
    key2type = key2type;
    tables = tables;
    elt_size = elt_size;
  })

unfoldable pub add_cell_type : ℕ → List ℕ → MetIblt → Outcome MetIblt
unfolding build
add_cell_type cells elem_hashes m = do
  let m_cells = m.m_cells ++ cells ∷ []
  let matrix = m.deg_matrix ++ elem_hashes ∷ []
  t ← build 0 0 0 cells m.elt_size (some (create_hasher matrix m.key2type (length m.m_cells)))
  ok (record m { m_cells = m_cells; deg_matrix = matrix; tables = m.tables ++ t ∷ [] })

unfoldable pub add_gen_iblt : GenIblt → MetIblt → MetIblt
add_gen_iblt new_iblt m = record m { tables = m.tables ++ new_iblt ∷ [] }

unfoldable pub get_table : MetIblt → ℕ → Outcome GenIblt
get_table m cell_type = load_at m.tables cell_type

-- `std::set::insert`
unfoldable pub set_insert : ℕ → List ℕ → List ℕ
set_insert x [] = x ∷ []
set_insert x (y ∷ ys) =
    let rest = set_insert x ys in
    if ltb x y then x ∷ y ∷ ys else if y == x then y ∷ ys else y ∷ rest

abbrev pub set_insert_all : List ℕ → List ℕ → List ℕ
set_insert_all [] s = s
set_insert_all (x ∷ xs) s = set_insert_all xs (set_insert x s)

-- `std::set::find`
unfoldable pub contains : ℕ → List ℕ → Bool
contains x [] = false
contains x (y ∷ ys) = y == x || contains x ys

-- The variables of the first loop of `peelOnce`.
pub record Peeling : Type 0 where
  pub success : Bool
  pub positive : List ℕ
  pub negative : List ℕ
  pub removed_total : List ℕ
  pub per_table : List (GenIblt × List ℕ)

module _ (p : Platform) where
  pub insert_tables : ℕ → List GenIblt → Outcome (List GenIblt)
  insert_tables value [] = ok []
  insert_tables value (t ∷ ts) = do
    t' ← insert p value value t
    ts' ← insert_tables value ts
    ok (t' ∷ ts')

  unfoldable pub insert_all : ℕ → MetIblt → Outcome MetIblt
  unfolding insert_tables
  insert_all value m = do ts ← insert_tables value m.tables; ok (record m { tables = ts })

  -- `insert` into the table of one type of cells.
  unfoldable pub insert_type : ℕ → ℕ → MetIblt → Outcome MetIblt
  insert_type value cell_type m = do
    t ← load_at m.tables cell_type
    t' ← insert p value value t
    ts ← store_at m.tables cell_type t'
    ok (record m { tables = ts })

  pub erase_tables : ℕ → List GenIblt → Outcome (List GenIblt)
  erase_tables value [] = ok []
  erase_tables value (t ∷ ts) = do
    t' ← erase p value value t
    ts' ← erase_tables value ts
    ok (t' ∷ ts')

  unfoldable pub erase_all : ℕ → MetIblt → Outcome MetIblt
  unfolding erase_tables
  erase_all value m = do ts ← erase_tables value m.tables; ok (record m { tables = ts })

  -- The body of the first loop of `peelOnce`, with fuel for `listEntries`.
  unfoldable pub peel_table : ℕ → GenIblt → Peeling → Outcome Peeling
  unfolding set_insert
  peel_table fuel t s = do
    (listed, l) ←
        list_entries p fuel (record { iblt = t; positive = []; negative = []; n_erased = 0 })
    let neg = map (λ x. x.0) l.negative
    let pos = map (λ x. x.0) l.positive
    let to_be_removed = set_insert_all pos (set_insert_all neg [])
    ok (record {
      success = s.success || listed;
      positive = set_insert_all pos s.positive;
      negative = set_insert_all neg s.negative;
      removed_total = set_insert_all to_be_removed s.removed_total;
      per_table = s.per_table ++ (l.iblt, to_be_removed) ∷ [];
    })

  unfoldable pub peel_tables : ℕ → List GenIblt → Peeling → Outcome Peeling
  unfolding peel_table
  peel_tables fuel [] s = ok s
  peel_tables fuel (t ∷ ts) s = peel_table fuel t s >>= peel_tables fuel ts

  -- The inner loop of the second: every removed key that this table has not listed is erased.
  unfoldable pub erase_missing : List ℕ → List ℕ → GenIblt → Outcome GenIblt
  unfolding contains
  erase_missing [] removed t = ok t
  erase_missing (x ∷ xs) removed t = do
    t' ← if contains x removed then ok t else erase p x x t
    erase_missing xs removed t'

  unfoldable pub erase_rest : List ℕ → List (GenIblt × List ℕ) → Outcome (List GenIblt)
  unfolding erase_missing
  erase_rest total [] = ok []
  erase_rest total ((t, removed) ∷ rest) = do
    t' ← erase_missing total removed t
    ts ← erase_rest total rest
    ok (t' ∷ ts)

  abbrev pub peel_start : Peeling
  peel_start = record {
    success = false;
    positive = [];
    negative = [];
    removed_total = [];
    per_table = [];
  }

  -- `peelOnce`: its answer, its two sets, and the tables as they are left.
  unfoldable pub peel_once : ℕ → MetIblt → Outcome (Bool × List ℕ × List ℕ × MetIblt)
  unfolding peel_tables erase_rest
  peel_once fuel m = do
    s ← peel_tables fuel m.tables peel_start
    ts ← erase_rest s.removed_total s.per_table
    ok (s.success, s.positive, s.negative, record m { tables = ts })

  abbrev pub none_left : List ℕ → List ℕ → Bool
  none_left [] [] = true
  none_left pos neg = false

  -- The loop of `peelAll`, on fuel: `found` is what the last `peelOnce` gave.
  unfoldable pub peel_loop :
      ℕ
      → ℕ
      → List ℕ
      → List ℕ
      → Bool × List ℕ × List ℕ × MetIblt
      → Outcome (Bool × List ℕ × List ℕ × MetIblt)
  peel_loop fuel zero positive negative found = stop out_of_fuel
  peel_loop fuel (suc rounds) positive negative (success, pos, neg, m) =
      let next = peel_once fuel m >>= peel_loop fuel rounds (positive ++ pos) (negative ++ neg) in
      if none_left pos neg then ok (success, positive, negative, m) else next

  unfoldable pub peel_all : ℕ → ℕ → MetIblt → Outcome (Bool × List ℕ × List ℕ × MetIblt)
  unfolding peel_loop peel_once
  peel_all fuel rounds m = peel_once fuel m >>= peel_loop fuel rounds [] []
