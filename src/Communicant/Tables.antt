-- ===== src/Communicant/Tables.antt =====
-- Sending and receiving the cells of a table, and a table: `commSend` of a HashTableEntry and of an
-- IBLT, `commRecv_HashTableEntry` and `commRecv_IBLT`.
pub mod RoundTrip
use gensync_core.Prelude.{
  ℕ, zero, suc, ◌-◌, ◌+◌, ◌%◌, ◌^◌, ◌<◌, ◌≡◌, refl, sym, ap, ap₂, ◌∙◌, Bool, true, false, Option,
  none, some, List, [], ◌∷◌, ◌++◌, All, length, ltb, if◌then◌else◌, arith,
}
use mathlib.Core.Path.{subst}
use gensync_core.Prelude.Int.{ℤ, pos}
use gensync_core.Prelude.Outcome.{next_int, Outcome, ok, ◌>>=◌}
use gensync_core.Ntl.{Ntl, abs}
use gensync_core.Decimal.{Decimal, to_str, str_to, str_to-to_str}
use gensync_core.Iblt.{HashTableEntry, GenIblt, size}
use gensync_core.Communicant.{
  Communicant, send_long, recv_long, send_string, recv_string, send_zz, recv_zz, as_unsigned,
}
use gensync_core.Communicant.Wire.{
  Sends, Receives, Receives-then, Receives-map, Sends-then, comm_send-nil, consumed-nil, counted,
  delivered,
}
use gensync_core.Communicant.Numbers.{
  Sends-send_long, Receives-recv_long, wire_zz, Sends-send_zz, Receives-recv_zz,
  Sends-send_zz_sized, Receives-recv_zz_sized,
}
use gensync_core.Communicant.Strings.{wire_string, Sends-send_string, Receives-recv_string}

-- A size as an unsigned int, taken for an int and then for a size again.
abbrev pub int_size : ℕ → ℕ
int_size elt_size = let n = elt_size % 2 ^ 32 in if ltb n (2 ^ 31) then n else 2 ^ 64 - (2 ^ 32 - n)

module _ (ntl : Ntl) (dec : Decimal) where
  open ntl use {bytes_from_zz, num_bytes}

  unfoldable pub send_entry : HashTableEntry → ℕ → Communicant → Communicant
  send_entry hte elt_size c = send_zz ntl (pos hte.value_sum) (some elt_size) (
      send_zz ntl (pos hte.key_sum) none
        (send_string ntl (to_str dec hte.key_check) (send_long ntl hte.count c)))

  -- `strTo<hash_t>(commRecv_string())`
  pub recv_number : Communicant → Outcome (ℕ × Communicant)
  recv_number c = do (text, c') ← recv_string ntl c; n ← str_to dec text; ok (n, c')

  unfoldable pub recv_entry : ℕ → Communicant → Outcome (HashTableEntry × Communicant)
  unfolding recv_number
  recv_entry elt_size c = do
    (count, c₁) ← recv_long ntl c
    (key_check, c₂) ← recv_number c₁
    (key_sum, c₃) ← recv_zz ntl 0 c₂
    (value_sum, c₄) ← recv_zz ntl (int_size elt_size) c₃
    ok (
      record { count = count; key_sum = key_sum; key_check = key_check; value_sum = value_sum },
      c₄,
    )

  pub send_entries : List HashTableEntry → ℕ → Communicant → Communicant
  send_entries [] elt_size c = c
  send_entries (e ∷ es) elt_size c = send_entries es elt_size (send_entry e elt_size c)

  unfoldable pub send_iblt : GenIblt → Bool → Communicant → Communicant
  unfolding send_entries
  send_iblt iblt sync c =
      send_entries iblt.hash_table iblt.value_size (
        if sync then c else send_long ntl (pos iblt.value_size) (send_long ntl (pos (size iblt)) c))

  -- The loop of `commRecv_IBLT`, by the rounds left and the `int` that counts them.
  pub recv_entries : ℕ → ℕ → ℕ → Communicant → Outcome (List HashTableEntry × Communicant)
  recv_entries zero ii elt_size c = ok ([], c)
  recv_entries (suc n) ii elt_size c = do
    (e, c') ← recv_entry elt_size c
    ii' ← next_int ii
    (es, c'') ← recv_entries n ii' elt_size c'
    ok (e ∷ es, c'')

  pub recv_cells : ℕ → ℕ → Communicant → Outcome (GenIblt × Communicant)
  recv_cells num_size num_elt_size c = do
    (table, c') ← recv_entries num_size 0 num_elt_size c
    ok (
      record {
        num_hashes = 4;
        calc_num_hashes = none;
        num_hash_check = 11;
        hash_table = table;
        value_size = num_elt_size;
      },
      c',
    )

  pub recv_sized : Communicant → Outcome (GenIblt × Communicant)
  recv_sized c = do
    (num_size, c₁) ← recv_long ntl c
    (num_elt_size, c₂) ← recv_long ntl c₁
    recv_cells (as_unsigned num_size) (as_unsigned num_elt_size) c₂

  unfoldable pub recv_iblt : Option ℕ → Option ℕ → Communicant → Outcome (GenIblt × Communicant)
  unfolding recv_sized recv_cells recv_entries
  recv_iblt none elt_size c = recv_sized c
  recv_iblt (some n) none c = recv_sized c
  recv_iblt (some n) (some m) c = recv_cells n m c

  -- The overload for the tables with a rule for the number of hashes.
  unfoldable pub send_gen_iblt : GenIblt → Bool → Communicant → Communicant
  unfolding send_entries
  send_gen_iblt iblt sync c =
      send_entries iblt.hash_table iblt.value_size (
        if sync then c else send_long ntl (pos iblt.value_size) (send_long ntl (pos (size iblt)) c))

  -- The numbers of hashes of the table itself, which the source leaves unset, are 0 here.
  pub recv_gen_cells : Option (ℕ → ℕ) → ℕ → ℕ → Communicant → Outcome (GenIblt × Communicant)
  recv_gen_cells calc num_size num_elt_size c = do
    (table, c') ← recv_entries num_size 0 num_elt_size c
    ok (
      record {
        num_hashes = 0;
        calc_num_hashes = calc;
        num_hash_check = 0;
        hash_table = table;
        value_size = num_elt_size;
      },
      c',
    )

  pub recv_gen_sized : Option (ℕ → ℕ) → Communicant → Outcome (GenIblt × Communicant)
  recv_gen_sized calc c = do
    (num_size, c₁) ← recv_long ntl c
    (num_elt_size, c₂) ← recv_long ntl c₁
    recv_gen_cells calc (as_unsigned num_size) (as_unsigned num_elt_size) c₂

  unfoldable pub recv_gen_iblt :
      Option ℕ → Option ℕ → Option (ℕ → ℕ) → Communicant → Outcome (GenIblt × Communicant)
  unfolding recv_gen_sized recv_gen_cells recv_entries
  recv_gen_iblt none elt_size calc c = recv_gen_sized calc c
  recv_gen_iblt (some n) none calc c = recv_gen_sized calc c
  recv_gen_iblt (some n) (some m) calc c = recv_gen_cells calc n m c
