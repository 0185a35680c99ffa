-- ===== src/Communicant/Tables/RoundTrip.antt =====
-- The round trips of a cell and of a table.
use gensync_core.Prelude.{
  Option, ℕ, ◌+◌, ◌^◌, ◌<◌, ◌≡◌, refl, sym, ap, Bool, true, false, none, some, List, [], ◌∷◌, ◌++◌,
  All, length, if◌then◌else◌, arith,
}
use mathlib.Core.Path.{subst}
use gensync_core.Prelude.Int.{ℤ, pos}
use gensync_core.Prelude.Outcome.{ok, ◌>>=◌, next_int, next_int_lem}
use gensync_core.Ntl.{Ntl}
use gensync_core.Decimal.{Decimal, to_str, str_to-to_str}
use gensync_core.Iblt.{HashTableEntry, GenIblt, size}
use gensync_core.Communicant.{
  Communicant, send_long, recv_long, send_string, send_zz, recv_zz, as_unsigned,
}
use gensync_core.Communicant.Wire.{
  Sends, Receives, Receives-then, Receives-map, Sends-then, comm_send-nil, consumed-nil, counted,
  delivered,
}
use gensync_core.Communicant.Numbers.{
  Sends-send_long, Receives-recv_long, wire_zz, Sends-send_zz, Receives-recv_zz,
  Sends-send_zz_sized, Receives-recv_zz_sized,
}
use gensync_core.Communicant.Strings.{wire_string, Sends-send_string, Receives-recv_string}
use gensync_core.Communicant.Tables.{
  int_size, send_entry, recv_number, recv_entry, send_entries, send_iblt, recv_entries, recv_cells,
  recv_gen_cells, recv_gen_iblt, send_gen_iblt, recv_sized, recv_iblt,
}

module _ (ntl : Ntl) (dec : Decimal) where
  open ntl use {bytes_from_zz, num_bytes}

  -- A cell that the wire can carry: its count is not negative, and its value sum fits the size of
  -- the values.
  pub record IsSendable (elt_size : ℕ) (e : HashTableEntry) : Type 0 where
    pub insertions : ℕ
    pub counted_up : e.count ≡ pos insertions
    pub few : insertions < 2 ^ 63
    pub checked : e.key_check < 2 ^ 64
    pub short : num_bytes (pos e.key_sum) < 2 ^ 31
    pub fits : e.value_sum < 256 ^ elt_size

  abbrev wire_entry : HashTableEntry → ℕ → List ℕ
  wire_entry e elt_size =
      bytes_from_zz e.count 8
      ++ (wire_string ntl (to_str dec e.key_check)
          ++ (wire_zz ntl (pos e.key_sum) ++ bytes_from_zz (pos e.value_sum) elt_size))

  Sends-send_entry :
      (e : HashTableEntry) (elt_size : ℕ)
      → 0 < elt_size
      → elt_size < 2 ^ 31
      → Sends (send_entry ntl dec e elt_size) (wire_entry e elt_size)
  unfolding send_entry
  Sends-send_entry e n h few =
      Sends-then
        {g = λ c.
          send_zz ntl (pos e.value_sum) (some n)
            (send_zz ntl (pos e.key_sum) none (send_string ntl (to_str dec e.key_check) c))}
        (Sends-send_long ntl e.count)
        (Sends-then
          {g = λ c. send_zz ntl (pos e.value_sum) (some n) (send_zz ntl (pos e.key_sum) none c)}
          (Sends-send_string ntl (to_str dec e.key_check))
          (Sends-then {g = send_zz ntl (pos e.value_sum) (some n)}
            (Sends-send_zz ntl (pos e.key_sum))
            (Sends-send_zz_sized ntl (pos e.value_sum) n h (omega arith))))

  length-to_str : (n : ℕ) → n < 2 ^ 64 → length (to_str dec n) < 2 ^ 63
  unfolding to_str
  length-to_str n h = omega (arith, dec.length-print n h)

  Receives-recv_number :
      (n : ℕ) → n < 2 ^ 64 → Receives (recv_number ntl dec) (wire_string ntl (to_str dec n)) n
  unfolding recv_number
  Receives-recv_number n h = record {
    received = λ c rest e.
        rw
          (
            (Receives-recv_string ntl (to_str dec n) (length-to_str n h)).received c rest e,
            str_to-to_str dec n,
          )
          refl;
  }

  Receives-recv_count :
      (a : ℤ) (n : ℕ) → a ≡ pos n → n < 2 ^ 63 → Receives (recv_long ntl) (bytes_from_zz a 8) a
  Receives-recv_count a n e h =
      subst (λ a. Receives (recv_long ntl) (bytes_from_zz a 8) a) (sym e)
        (Receives-recv_long ntl (pos n) h)

  int_size_lem : (n : ℕ) → n < 2 ^ 31 → int_size n ≡ n
  int_size_lem n h = ground arith

  Receives-recv_entry :
      (e : HashTableEntry) (elt_size : ℕ)
      → 0 < elt_size
      → elt_size < 2 ^ 31
      → IsSendable elt_size e
      → Receives (recv_entry ntl dec elt_size) (wire_entry e elt_size) e
  unfolding recv_entry
  Receives-recv_entry e n h few s =
      (Receives-then
        (λ count c. recv_number ntl dec c >>= λ k. recv_zz ntl 0 k.1 >>= λ x.
          recv_zz ntl (int_size n) x.1 >>= λ v.
          ok (record { count = count; key_sum = x.0; key_check = k.0; value_sum = v.0 }, v.1))
        (Receives-recv_count e.count s.insertions s.counted_up s.few)
        (Receives-then
          (λ k c. recv_zz ntl 0 c >>= λ x. recv_zz ntl (int_size n) x.1 >>= λ v.
            ok (record { count = e.count; key_sum = x.0; key_check = k; value_sum = v.0 }, v.1))
          (Receives-recv_number e.key_check s.checked)
          (Receives-then
            (λ x c. recv_zz ntl (int_size n) c >>= λ v. ok (
              record { count = e.count; key_sum = x; key_check = e.key_check; value_sum = v.0 },
              v.1,
            ))
            (Receives-recv_zz ntl (pos e.key_sum) s.short)
            (Receives-map
              (λ v. record {
                count = e.count;
                key_sum = e.key_sum;
                key_check = e.key_check;
                value_sum = v;
              })
              (subst (λ m. Receives (recv_zz ntl m) (bytes_from_zz (pos e.value_sum) n) e.value_sum)
                (sym (int_size_lem n few))
                (Receives-recv_zz_sized ntl (pos e.value_sum) n h s.fits))
              refl))))

  wire_entries : List HashTableEntry → ℕ → List ℕ
  wire_entries [] n = []
  wire_entries (e ∷ es) n = wire_entry e n ++ wire_entries es n

  Sends-send_entries :
      (es : List HashTableEntry) (n : ℕ)
      → 0 < n
      → n < 2 ^ 31
      → Sends (send_entries ntl dec es n) (wire_entries es n)
  unfolding send_entries wire_entries
  Sends-send_entries [] n h few = record { sent = λ c. sym (comm_send-nil c) }
  Sends-send_entries (e ∷ es) n h few = record {
    sent =
        (Sends-then {g = send_entries ntl dec es n} (Sends-send_entry e n h few)
          (Sends-send_entries es n h few)).sent;
  }

  Receives-recv_entries :
      (es : List HashTableEntry) (ii n : ℕ)
      → 0 < n
      → n < 2 ^ 31
      → All (IsSendable n) es
      → ii + length es < 2 ^ 31
      → Receives (recv_entries ntl dec (length es) ii n) (wire_entries es n) es
  unfolding recv_entries wire_entries
  Receives-recv_entries [] ii n h few s fits = record {
    received = λ c rest e. ap (λ c'. ok ([], c')) (sym (consumed-nil c rest e));
  }
  Receives-recv_entries (e ∷ es) ii n h few s fits =
      Receives-then
        (λ x c. next_int ii >>= λ ii'.
          recv_entries ntl dec (length es) ii' n c >>= λ y. ok (x ∷ y.0, y.1))
        (Receives-recv_entry e n h few s.0)
        (rw (next_int_lem ii (omega arith)) (
          Receives-map (λ y. e ∷ y) (Receives-recv_entries es (ii + 1) n h few s.1 (omega arith))
            refl))

  -- What `commRecv_IBLT` makes of a table: it sets the numbers of hashes of the table itself.
  abbrev pub as_received : GenIblt → GenIblt
  as_received g = record g { num_hashes = 4; calc_num_hashes = none; num_hash_check = 11 }

  Receives-recv_cells :
      (g : GenIblt)
      → 0 < g.value_size
      → g.value_size < 2 ^ 31
      → All (IsSendable g.value_size) g.hash_table
      → size g < 2 ^ 31
      → Receives
          (recv_cells ntl dec (size g) g.value_size)
          (wire_entries g.hash_table g.value_size)
          (as_received g)
  unfolding recv_cells
  Receives-recv_cells g h few s wide =
      Receives-map
        (λ table. record {
          num_hashes = 4;
          calc_num_hashes = none;
          num_hash_check = 11;
          hash_table = table;
          value_size = g.value_size;
        })
        (Receives-recv_entries g.hash_table 0 g.value_size h few s (omega arith)) refl

  -- A table that is sent over an empty stream is received cell for cell, with 4 hashes and 11 for
  -- the check in place of its own, whether its sizes are agreed beforehand or sent along. The table
  -- has fewer than 2 ^ 31 cells, no cell has a negative count, its value sum fits the size of the
  -- values, and the sizes fit their types.
  pub recv_iblt-send_iblt :
      (g : GenIblt) (sync : Bool) (c : Communicant)
      → 0 < g.value_size
      → g.value_size < 2 ^ 31
      → size g < 2 ^ 31
      → All (IsSendable g.value_size) g.hash_table
      → c.stream ≡ []
      → (n : ℕ) × ((if sync
              then recv_iblt ntl dec (some (size g)) (some g.value_size)
              else recv_iblt ntl dec none none)
            (send_iblt ntl dec g sync c)
          ≡ ok (as_received g, counted n c))
  unfolding send_iblt recv_iblt recv_sized
  recv_iblt-send_iblt g true c h few wide s e = (
    _,
    delivered (Sends-send_entries g.hash_table g.value_size h few)
        (Receives-recv_cells g h few s wide) c e,
  )
  recv_iblt-send_iblt g false c h few wide s e = (
    _,
    delivered
        (Sends-then
          {g = λ c.
            send_entries ntl dec g.hash_table g.value_size (send_long ntl (pos g.value_size) c)}
          (Sends-send_long ntl (pos (size g)))
          (Sends-then {g = send_entries ntl dec g.hash_table g.value_size}
            (Sends-send_long ntl (pos g.value_size))
            (Sends-send_entries g.hash_table g.value_size h few)))
        (Receives-then
          (λ n c. recv_long ntl c >>= λ m. recv_cells ntl dec (as_unsigned n) (as_unsigned m.0) m.1)
          (Receives-recv_long ntl (pos (size g)) (omega arith))
          (Receives-then (λ m c. recv_cells ntl dec (size g) (as_unsigned m) c)
            (Receives-recv_long ntl (pos g.value_size) (omega arith))
            (Receives-recv_cells g h few s wide)))
        c e,
  )

  -- A table that is sent without its sizes, as `commRecv_GenIBLT` makes it again.
  pub recv_gen_iblt-send_gen_iblt :
      (g : GenIblt) (calc : Option (ℕ → ℕ)) (c : Communicant)
      → 0 < g.value_size
      → g.value_size < 2 ^ 31
      → size g < 2 ^ 31
      → All (IsSendable g.value_size) g.hash_table
      → c.stream ≡ []
      → (n : ℕ) × (recv_gen_iblt ntl dec
            (some (size g))
            (some g.value_size)
            calc
            (send_gen_iblt ntl dec g true c)
          ≡ ok (
            record g { num_hashes = 0; calc_num_hashes = calc; num_hash_check = 0 },
            counted n c,
          ))
  unfolding send_gen_iblt recv_gen_iblt recv_gen_cells
  recv_gen_iblt-send_gen_iblt g calc c h few wide s e = (
    _,
    delivered (Sends-send_entries g.hash_table g.value_size h few)
        (Receives-map
          (λ table. record {
            num_hashes = 0;
            calc_num_hashes = calc;
            num_hash_check = 0;
            hash_table = table;
            value_size = g.value_size;
          })
          (Receives-recv_entries g.hash_table 0 g.value_size h few s (omega arith)) refl)
        c e,
  )
