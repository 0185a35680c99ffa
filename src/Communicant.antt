-- ===== src/Communicant.antt =====
-- The codec of src/Communicants/Communicant.cpp over the string stream of
-- src/Communicants/CommString.cpp: what is written to the stream is read from it in order, by both
-- ends. A long has 8 bytes and an int 4. Log lines are left out.
-- `BytesFromZZ` of a negative number writes the bytes of its absolute value.
pub mod Wire
pub mod Numbers
pub mod Strings
pub mod Vectors
pub mod Tables
pub mod Handshake
pub mod Agree
mod Tests
use gensync_core.Prelude.{
  ℕ, zero, suc, ◌+◌, ◌-◌, ◌*◌, ◌/◌, ◌%◌, ◌^◌, Bool, true, false, not, ◌&&◌, Option, none, some,
  List, [], ◌∷◌, ◌++◌, ◌==◌, leb, if◌then◌else◌, length, take, drop,
}
use gensync_core.Prelude.Int.{ℤ, pos, negsuc, ◌==ℤ◌}
use gensync_core.Prelude.Outcome.{
  next_int, Outcome, ok, stop, ◌>>=◌, undefined, throws, out_of_fuel,
}
use gensync_core.Ntl.{Ntl}
use gensync_core.Decimal.{Decimal, to_str, str_to}
use gensync_core.DataObject.{pack, unpack}
use gensync_core.Iblt.{HashTableEntry, GenIblt, size}

pub record Communicant : Type 0 where
  pub stream : List ℕ
  pub xfer_bytes : ℕ
  pub xfer_bytes_tot : ℕ
  pub recv_bytes : ℕ
  pub recv_bytes_tot : ℕ
  pub mod_size : Option ℕ

abbrev pub reset_comm_counters : Communicant → Communicant
reset_comm_counters c = record c { xfer_bytes = 0; recv_bytes = 0 }

abbrev pub add_xmit_bytes : ℕ → Communicant → Communicant
add_xmit_bytes num_bytes c = record c {
  xfer_bytes = c.xfer_bytes + num_bytes;
  xfer_bytes_tot = c.xfer_bytes_tot + num_bytes;
}

abbrev pub add_recv_bytes : ℕ → Communicant → Communicant
add_recv_bytes num_bytes c = record c {
  recv_bytes = c.recv_bytes + num_bytes;
  recv_bytes_tot = c.recv_bytes_tot + num_bytes;
}

-- `CommString::commSend`
unfoldable pub comm_send : List ℕ → Communicant → Communicant
comm_send to_send c = add_xmit_bytes (length to_send) (record c { stream = c.stream ++ to_send })

-- `CommString::commRecv`; where the stream is too short, the rest of the buffer is not initialised.
unfoldable pub comm_recv : ℕ → Communicant → Outcome (List ℕ × Communicant)
comm_recv num_bytes c =
    if leb num_bytes (length c.stream)
    then ok (
      take num_bytes c.stream,
      add_recv_bytes num_bytes (record c { stream = drop num_bytes c.stream }),
    )
    else stop undefined

-- `narrow_cast<size_t>` of a long or an int: a negative number wraps around, and its test agrees.
abbrev pub as_unsigned : ℤ → ℕ
as_unsigned (pos n) = n
as_unsigned (negsuc n) = 2 ^ 64 - suc n

-- The rounds of a loop up to a long; a negative one makes none.
abbrev pub rounds : ℤ → ℕ
rounds (pos n) = n
rounds (negsuc n) = 0

-- `*MOD_SIZE`
abbrev pub the_mod_size : Communicant → Outcome ℕ
the_mod_size c = elim c.mod_size [ none ↦ stop throws | some n ↦ ok n ]

-- Turns a number of digits in base `modulus` + 1, each one more than it says, into a list.
pub unpack_vec : ℕ → ℕ → ℕ → Outcome (List ℕ)
unpack_vec zero modulus received = stop out_of_fuel
unpack_vec (suc fuel) modulus received =
    let rest = unpack_vec fuel modulus (received / (modulus + 1)) in
    if received == 0
    then ok []
    else (do xs ← rest; ok ((received % (modulus + 1) + (modulus - 1)) % modulus ∷ xs))

unfoldable pub pack_vec : ℕ → List ℕ → ℕ
pack_vec modulus [] = 0
pack_vec modulus (x ∷ xs) = pack_vec modulus xs * (modulus + 1) + x + 1

module _ (ntl : Ntl) where
  open ntl use {zz_from_bytes, bytes_from_zz, num_bytes, to_long, to_int}

  unfoldable pub send_long : ℤ → Communicant → Communicant
  send_long num c = comm_send (bytes_from_zz num 8) c

  unfoldable pub recv_long : Communicant → Outcome (ℤ × Communicant)
  recv_long c = do (received, c') ← comm_recv 8 c; ok (to_long (zz_from_bytes received), c')

  unfoldable pub send_int : ℤ → Communicant → Communicant
  send_int num c = comm_send (bytes_from_zz num 4) c

  unfoldable pub recv_int : Communicant → Outcome (ℤ × Communicant)
  recv_int c = do (received, c') ← comm_recv 4 c; ok (to_int (zz_from_bytes received), c')

  unfoldable pub send_byte : ℕ → Communicant → Communicant
  send_byte bt c = comm_send (bt ∷ []) c

  unfoldable pub recv_byte : Communicant → Outcome (ℕ × Communicant)
  recv_byte c = do
    (received, c') ← comm_recv 1 c
    elim received [ [] ↦ stop undefined | b ∷ bs ↦ ok (b, c') ]

  unfoldable pub send_string : List ℕ → Communicant → Communicant
  send_string str c = comm_send str (send_long (pos (length str)) c)

  unfoldable pub recv_string : Communicant → Outcome (List ℕ × Communicant)
  recv_string c = do (sz, c') ← recv_long c; comm_recv (as_unsigned sz) c'

  -- Elements are sent as strings.
  unfoldable pub send_data_object : ℕ → Communicant → Communicant
  send_data_object dob c = send_string (unpack ntl dob) c

  unfoldable pub recv_data_object : Communicant → Outcome (ℕ × Communicant)
  recv_data_object c = do (str, c') ← recv_string c; ok (pack ntl str, c')

  pub send_objects : List ℕ → Communicant → Communicant
  send_objects [] c = c
  send_objects (d ∷ ds) c = send_objects ds (send_data_object d c)

  unfoldable pub send_data_object_list : List ℕ → Communicant → Communicant
  unfolding send_objects
  send_data_object_list ds c = send_objects ds (send_long (pos (length ds)) c)

  -- The loop of `commRecv_DataObject_List`, by the rounds left and the `int` that counts them.
  pub recv_objects : ℕ → ℕ → Communicant → Outcome (List ℕ × Communicant)
  recv_objects zero ii c = ok ([], c)
  recv_objects (suc n) ii c = do
    (d, c') ← recv_data_object c
    ii' ← next_int ii
    (ds, c'') ← recv_objects n ii' c'
    ok (d ∷ ds, c'')

  unfoldable pub recv_data_object_list : Communicant → Outcome (List ℕ × Communicant)
  unfolding recv_objects
  recv_data_object_list c = do (n, c') ← recv_long c; recv_objects (rounds n) 0 c'

  -- The number of bytes of a ZZ, at least one.
  abbrev pub zz_size : ℤ → Option ℕ → ℕ
  zz_size num size =
      let n = elim size [ none ↦ num_bytes num | some n ↦ n ] % 2 ^ 32 in if n == 0 then 1 else n

  unfoldable pub send_zz : ℤ → Option ℕ → Communicant → Communicant
  send_zz num size c =
      let n = zz_size num size in
      comm_send (bytes_from_zz num n) (elim size [ none ↦ send_int (pos n) c | some s ↦ c ])

  unfoldable pub recv_zz : ℕ → Communicant → Outcome (ℕ × Communicant)
  recv_zz size c = do
    (n, c') ← if size == 0 then (do (n, c') ← recv_int c; ok (as_unsigned n, c')) else ok (size, c)
    (received, c'') ← comm_recv n c'
    ok (zz_from_bytes received, c'')

  unfoldable pub send_zzp : ℕ → Communicant → Outcome Communicant
  send_zzp num c = do n ← the_mod_size c; ok (comm_send (bytes_from_zz (pos num) n) c)

  unfoldable pub recv_zzp : ℕ → Communicant → Outcome (ℕ × Communicant)
  recv_zzp modulus c = do
    n ← the_mod_size c
    (received, c') ← comm_recv n c
    ok (zz_from_bytes received % modulus, c')

  -- A vector of integers modulo `modulus`.
  unfoldable pub send_vec : ℕ → List ℕ → Communicant → Communicant
  unfolding pack_vec
  send_vec modulus vec c = send_zz (pos (pack_vec modulus vec)) none c

  unfoldable pub recv_vec : ℕ → Communicant → Outcome (List ℕ × Communicant)
  unfolding unpack_vec
  recv_vec modulus c = do
    (received, c') ← recv_zz 0 c
    result ← unpack_vec (received + 1) modulus received
    ok (result, c')
