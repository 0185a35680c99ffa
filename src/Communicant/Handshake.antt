-- ===== src/Communicant/Handshake.antt =====
-- How two ends agree on parameters before a protocol runs: `establishModSend`, `establishModRecv`,
-- `establishIBLTSend`, `establishIBLTRecv`, `establishCuckooSend`, `establishCuckooRecv`. The sending
-- end is cut in two where it waits for the answer of the other end.
use gensync_core.Prelude.{ℕ, Bool, true, false, not, ◌&&◌, ◌==◌, if◌then◌else◌, none, some}
use gensync_core.Prelude.Int.{ℤ, pos}
use gensync_core.Prelude.Outcome.{Outcome, ok, ◌>>=◌}
use gensync_core.Ntl.{Ntl}
use gensync_core.Communicant.{
  Communicant, send_long, recv_long, send_byte, recv_byte, send_zz, recv_zz, as_unsigned,
}

abbrev pub sync_fail_flag : ℕ
sync_fail_flag = 0

abbrev pub sync_ok_flag : ℕ
sync_ok_flag = 1

module _ (ntl : Ntl) where
  -- The answer of the receiving end.
  unfoldable pub answer : Bool → Bool → Communicant → Communicant
  answer agreed one_way c =
      if one_way then c else send_byte ntl (if agreed then sync_ok_flag else sync_fail_flag) c

  -- The sending end from where it waits for the answer.
  unfoldable pub await_answer : Bool → Communicant → Outcome (Bool × Communicant)
  await_answer true c = ok (true, c)
  await_answer false c = do (flag, c') ← recv_byte ntl c; ok (not (flag == sync_fail_flag), c')

  -- `establishIBLTSend`, up to its answer.
  unfoldable pub establish_iblt_send : ℕ → ℕ → Communicant → Communicant
  establish_iblt_send size elt_size c = send_long ntl (pos elt_size) (send_long ntl (pos size) c)

  -- The other end's size and element size; both are read, whether the first agrees or not.
  unfoldable pub recv_sizes : Communicant → Outcome ((ℤ × ℤ) × Communicant)
  recv_sizes c = do
    (other_size, c₁) ← recv_long ntl c
    (other_elt_size, c₂) ← recv_long ntl c₁
    ok ((other_size, other_elt_size), c₂)

  abbrev pub same_sizes : ℕ → ℕ → ℤ × ℤ → Bool
  same_sizes size elt_size other =
      (as_unsigned other.0 == size) && (as_unsigned other.1 == elt_size)

  unfoldable pub establish_iblt_recv : ℕ → ℕ → Bool → Communicant → Outcome (Bool × Communicant)
  unfolding recv_sizes
  establish_iblt_recv size elt_size one_way c = do
    (other, c') ← recv_sizes c
    ok (same_sizes size elt_size other, answer (same_sizes size elt_size other) one_way c')

  -- `establishCuckooSend`, up to its answer.
  unfoldable pub establish_cuckoo_send : ℕ → ℕ → ℕ → ℕ → Communicant → Communicant
  establish_cuckoo_send fngprt_size bucket_size filter_size max_kicks c =
      send_long ntl (pos max_kicks) (
        send_long ntl (pos filter_size)
          (send_long ntl (pos bucket_size) (send_long ntl (pos fngprt_size) c)))

  -- The other end's four parameters.
  unfoldable pub recv_params : Communicant → Outcome (((ℤ × ℤ) × (ℤ × ℤ)) × Communicant)
  unfolding recv_sizes
  recv_params c = do (first, c₁) ← recv_sizes c; (last, c₂) ← recv_sizes c₁; ok ((first, last), c₂)

  abbrev pub same_params : ℕ → ℕ → ℕ → ℕ → (ℤ × ℤ) × (ℤ × ℤ) → Bool
  same_params fngprt_size bucket_size filter_size max_kicks other =
      same_sizes fngprt_size bucket_size other.0 && same_sizes filter_size max_kicks other.1

  unfoldable pub establish_cuckoo_recv : ℕ → ℕ → ℕ → ℕ → Communicant → Outcome (Bool × Communicant)
  unfolding recv_params
  establish_cuckoo_recv fngprt_size bucket_size filter_size max_kicks c = do
    (other, c') ← recv_params c
    let agreed = same_params fngprt_size bucket_size filter_size max_kicks other
    ok (agreed, answer agreed false c')

  -- `MOD_SIZE = NumBytes(ZZ_p::modulus())`
  abbrev pub set_mod_size : ℕ → Communicant → Communicant
  set_mod_size modulus c = record c { mod_size = some (ntl.num_bytes (pos modulus)) }

  -- `establishModSend`, up to its answer.
  unfoldable pub establish_mod_send : ℕ → Communicant → Communicant
  establish_mod_send modulus c = set_mod_size modulus (send_zz ntl (pos modulus) none c)

  unfoldable pub establish_mod_recv : ℕ → Bool → Communicant → Outcome (Bool × Communicant)
  establish_mod_recv modulus one_way c = do
    (other_modulus, c₁) ← recv_zz ntl 0 c
    ok (
        if other_modulus == modulus
        then (true, answer true one_way (set_mod_size modulus c₁))
        else (false, answer false one_way c₁))
