-- ===== src/Communicant/Strings.antt =====
-- Round trips of strings, elements and lists of elements.
use gensync_core.Prelude.{
  ℕ, ◌+◌, ◌^◌, ◌<◌, ◌≡◌, refl, sym, ap, List, [], ◌∷◌, ◌++◌, All, length, arith,
}
use gensync_core.Prelude.Int.{pos}
use gensync_core.Prelude.Outcome.{ok, ◌>>=◌, next_int, next_int_lem}
use gensync_core.Ntl.{Ntl}
use gensync_core.DataObject.{pack, unpack, pack-unpack}
use gensync_core.Communicant.{
  Communicant, comm_send, comm_recv, send_string, recv_string, as_unsigned, send_data_object,
  recv_data_object, send_objects, recv_objects, send_data_object_list, recv_data_object_list,
  rounds,
}
use gensync_core.Communicant.Wire.{
  Sends, Receives, Receives-then, Receives-map, Sends-then, comm_recv-exact, comm_send-nil,
  consumed-nil, counted, delivered,
}
use gensync_core.Communicant.Numbers.{Sends-send_long, Receives-recv_long}

module _ (ntl : Ntl) where
  open ntl use {bytes_from_zz, num_bytes}

  abbrev pub wire_string : List ℕ → List ℕ
  wire_string s = bytes_from_zz (pos (length s)) 8 ++ s

  pub Sends-send_string : (s : List ℕ) → Sends (send_string ntl s) (wire_string s)
  unfolding send_string
  Sends-send_string s =
      Sends-then {g = comm_send s} (Sends-send_long ntl (pos (length s)))
        (record { sent = λ c. refl })

  pub Receives-recv_string :
      (s : List ℕ) → length s < 2 ^ 63 → Receives (recv_string ntl) (wire_string s) s
  unfolding recv_string
  Receives-recv_string s h =
      Receives-then (λ sz c. comm_recv (as_unsigned sz) c)
        (Receives-recv_long ntl (pos (length s)) h) (comm_recv-exact s refl)

  -- An element is its bytes.
  abbrev pub wire_object : ℕ → List ℕ
  wire_object d = wire_string (unpack ntl d)

  length-unpack : (d : ℕ) → length (unpack ntl d) ≡ num_bytes (pos d)
  unfolding unpack
  length-unpack d = ntl.length-bytes_from_zz (pos d) (num_bytes (pos d))

  pub Sends-send_data_object : (d : ℕ) → Sends (send_data_object ntl d) (wire_object d)
  unfolding send_data_object
  Sends-send_data_object d = record { sent = (Sends-send_string (unpack ntl d)).sent }

  -- An element of fewer than 2 ^ 63 bytes.
  abbrev pub IsShort : ℕ → Type 0
  IsShort d = num_bytes (pos d) < 2 ^ 63

  pub Receives-recv_data_object :
      (d : ℕ) → IsShort d → Receives (recv_data_object ntl) (wire_object d) d
  unfolding recv_data_object
  Receives-recv_data_object d h =
      Receives-map (pack ntl) (Receives-recv_string (unpack ntl d) (omega (arith, length-unpack d)))
        (pack-unpack ntl d)

  abbrev pub wire_objects : List ℕ → List ℕ
  wire_objects [] = []
  wire_objects (d ∷ ds) = wire_object d ++ wire_objects ds

  Sends-send_objects : (ds : List ℕ) → Sends (send_objects ntl ds) (wire_objects ds)
  unfolding send_objects
  Sends-send_objects [] = record { sent = λ c. sym (comm_send-nil c) }
  Sends-send_objects (d ∷ ds) = record {
    sent =
        (Sends-then {g = send_objects ntl ds} (Sends-send_data_object d)
          (Sends-send_objects ds)).sent;
  }

  Receives-recv_objects :
      (ds : List ℕ) (ii : ℕ)
      → All IsShort ds
      → ii + length ds < 2 ^ 31
      → Receives (recv_objects ntl (length ds) ii) (wire_objects ds) ds
  unfolding recv_objects
  Receives-recv_objects [] ii h few = record {
    received = λ c rest e. ap (λ c'. ok ([], c')) (sym (consumed-nil c rest e));
  }
  Receives-recv_objects (d ∷ ds) ii h few =
      Receives-then
        (λ x c.
          next_int ii >>= λ ii'. recv_objects ntl (length ds) ii' c >>= λ y. ok (x ∷ y.0, y.1))
        (Receives-recv_data_object d h.0)
        (rw (next_int_lem ii (omega arith))
          (Receives-map (λ y. d ∷ y) (Receives-recv_objects ds (ii + 1) h.1 (omega arith)) refl))

  unfoldable pub wire_list : List ℕ → List ℕ
  wire_list ds = bytes_from_zz (pos (length ds)) 8 ++ wire_objects ds

  pub Sends-send_data_object_list :
      (ds : List ℕ) → Sends (send_data_object_list ntl ds) (wire_list ds)
  unfolding send_data_object_list wire_list
  Sends-send_data_object_list ds =
      Sends-then {g = send_objects ntl ds} (Sends-send_long ntl (pos (length ds)))
        (Sends-send_objects ds)

  pub Receives-recv_data_object_list :
      (ds : List ℕ)
      → All IsShort ds
      → length ds < 2 ^ 31
      → Receives (recv_data_object_list ntl) (wire_list ds) ds
  unfolding recv_data_object_list wire_list
  Receives-recv_data_object_list ds h few =
      Receives-then (λ n c. recv_objects ntl (rounds n) 0 c)
        (Receives-recv_long ntl (pos (length ds)) (omega arith))
        (Receives-recv_objects ds 0 h (omega arith))

  -- A list of elements that is sent over an empty stream is received as it was, in its order, where
  -- the list has fewer than 2 ^ 31 elements and each of them fewer than 2 ^ 63 bytes; as many bytes
  -- are counted as received as were sent, and the stream is empty again.
  pub recv_data_object_list-send_data_object_list :
      (ds : List ℕ) (c : Communicant)
      → All IsShort ds
      → length ds < 2 ^ 31
      → c.stream ≡ []
      → (n : ℕ) × (recv_data_object_list ntl (send_data_object_list ntl ds c)
          ≡ ok (ds, counted n c))
  recv_data_object_list-send_data_object_list ds c h few e =
      (_, delivered (Sends-send_data_object_list ds) (Receives-recv_data_object_list ds h few) c e)
