-- ===== src/Communicant/Numbers.antt =====
-- Round trips of longs, ints, bytes and integers.
use gensync_core.Prelude.{
  ℕ, ◌%◌, ◌^◌, ◌≤◌, ◌<◌, ◌≡◌, refl, ap, ◌∙◌, false, none, some, List, [], ◌∷◌, ◌++◌, if◌then◌else◌,
  arith, ◌==◌,
}
use native.Mathlib.Nat.{mod-eq_of_lt, pow-le-pow_right}
use gensync_core.Prelude.Int.{ℤ, pos}
use gensync_core.Prelude.Outcome.{ok, ◌>>=◌}
use gensync_core.Ntl.{Ntl, abs}
use gensync_core.Communicant.{
  Communicant, comm_send, comm_recv, send_long, recv_long, send_int, recv_int, send_byte, recv_byte,
  zz_size, send_zz, recv_zz, as_unsigned,
}
use gensync_core.Communicant.Wire.{
  Sends, Receives, Receives-then, Receives-map, Sends-then, comm_recv-exact, counted, delivered,
}

module _ (ntl : Ntl) where
  open ntl use {zz_from_bytes, bytes_from_zz, num_bytes, to_long, to_int}

  -- The bytes of a number that has room hold its absolute value.
  pub zz_from_bytes-bytes_from_zz :
      (a : ℤ) (n : ℕ) → abs a < 256 ^ n → zz_from_bytes (bytes_from_zz a n) ≡ abs a
  zz_from_bytes-bytes_from_zz a n h =
      ntl.zz_from_bytes_lem _ (ntl.bytes_from_zz-AreBytes a n)
      ∙ ntl.le_value-bytes_from_zz a n
      ∙ mod-eq_of_lt h

  pub Sends-send_long : (a : ℤ) → Sends (send_long ntl a) (bytes_from_zz a 8)
  unfolding send_long
  Sends-send_long a = record { sent = λ c. refl }

  pub Receives-recv_long :
      (a : ℤ) → abs a < 2 ^ 63 → Receives (recv_long ntl) (bytes_from_zz a 8) (pos (abs a))
  unfolding recv_long
  Receives-recv_long a h =
      Receives-map (λ bs. to_long (zz_from_bytes bs))
        (comm_recv-exact (bytes_from_zz a 8) (ntl.length-bytes_from_zz a 8))
        (ap to_long (zz_from_bytes-bytes_from_zz a 8 (omega arith)) ∙ ntl.to_long_lem (abs a) h)

  pub Sends-send_int : (a : ℤ) → Sends (send_int ntl a) (bytes_from_zz a 4)
  unfolding send_int
  Sends-send_int a = record { sent = λ c. refl }

  pub Receives-recv_int :
      (a : ℤ) → abs a < 2 ^ 31 → Receives (recv_int ntl) (bytes_from_zz a 4) (pos (abs a))
  unfolding recv_int
  Receives-recv_int a h =
      Receives-map (λ bs. to_int (zz_from_bytes bs))
        (comm_recv-exact (bytes_from_zz a 4) (ntl.length-bytes_from_zz a 4))
        (ap to_int (zz_from_bytes-bytes_from_zz a 4 (omega arith)) ∙ ntl.to_int_lem (abs a) h)

  pub Sends-send_byte : (b : ℕ) → Sends (send_byte ntl b) (b ∷ [])
  unfolding send_byte
  Sends-send_byte b = record { sent = λ c. refl }

  pub Receives-recv_byte : (b : ℕ) → Receives (recv_byte ntl) (b ∷ []) b
  unfolding recv_byte
  Receives-recv_byte b = record {
    received = λ c rest e. rw ((comm_recv-exact {n = 1} (b ∷ []) refl).received c rest e) refl;
  }

  -- An integer without a size on the wire: an int for the number of bytes, and the bytes.
  abbrev pub wire_zz : ℤ → List ℕ
  wire_zz a = bytes_from_zz (pos (zz_size ntl a none)) 4 ++ bytes_from_zz a (zz_size ntl a none)

  pub Sends-send_zz : (a : ℤ) → Sends (send_zz ntl a none) (wire_zz a)
  unfolding send_zz
  Sends-send_zz a =
      let n = zz_size ntl a none in
      Sends-then {g = comm_send (bytes_from_zz a n)} (Sends-send_int (pos n))
        (record { sent = λ c. refl })

  room :
      (a : ℤ)
      → num_bytes a < 2 ^ 31
      → (abs a < 256 ^ zz_size ntl a none) × (zz_size ntl a none < 2 ^ 31)
  room a h =
      let m = num_bytes a in
      let (up, few) = at_least_one m h in
      let fits = ntl.fits-num_bytes a in
      (omega (arith, pow-le-pow_right {n = 256} (omega arith) up), few)
    where
      at_least_one :
          (m : ℕ)
          → m < 2 ^ 31
          → (m ≤ (if m % 2 ^ 32 == 0 then 1 else m % 2 ^ 32))
            × ((if m % 2 ^ 32 == 0 then 1 else m % 2 ^ 32) < 2 ^ 31)
      at_least_one m h = (ground arith, ground arith)

  pub Receives-recv_zz :
      (a : ℤ) → num_bytes a < 2 ^ 31 → Receives (recv_zz ntl 0) (wire_zz a) (abs a)
  unfolding recv_zz
  Receives-recv_zz a h =
      let n = zz_size ntl a none in
      let (fits, few) = room a h in
      Receives-then (λ m c. comm_recv m c >>= λ x. ok (zz_from_bytes x.0, x.1))
        (Receives-map as_unsigned (Receives-recv_int (pos n) few) refl)
        (Receives-map zz_from_bytes
          (comm_recv-exact (bytes_from_zz a n) (ntl.length-bytes_from_zz a n))
          (zz_from_bytes-bytes_from_zz a n fits))

  -- With a size, the bytes alone.
  pub Sends-send_zz_sized :
      (a : ℤ) (n : ℕ) → 0 < n → n < 2 ^ 32 → Sends (send_zz ntl a (some n)) (bytes_from_zz a n)
  unfolding send_zz
  Sends-send_zz_sized a n h few = record {
    sent = λ c. ap (λ k. comm_send (bytes_from_zz a k) c) (same n h few);
  }
    where
      same : (n : ℕ) → 0 < n → n < 2 ^ 32 → (if n % 2 ^ 32 == 0 then 1 else n % 2 ^ 32) ≡ n
      same n h few = ground arith

  pub Receives-recv_zz_sized :
      (a : ℤ) (n : ℕ)
      → 0 < n
      → abs a < 256 ^ n
      → Receives (recv_zz ntl n) (bytes_from_zz a n) (abs a)
  unfolding recv_zz
  Receives-recv_zz_sized a n h fits = record {
    received = λ c rest e. rw (nonzero n h) (
        (Receives-map zz_from_bytes
            (comm_recv-exact (bytes_from_zz a n) (ntl.length-bytes_from_zz a n))
            (zz_from_bytes-bytes_from_zz a n fits)).received
          c rest e);
  }
    where
      nonzero : (n : ℕ) → 0 < n → (n == 0) ≡ false
      nonzero n h = ground arith

  -- A long that is sent over an empty stream is received as its absolute value, whatever its sign:
  -- eight bytes are counted as sent and as received, and the stream is empty again.
  pub recv_long-send_long :
      (a : ℤ) (c : Communicant)
      → abs a < 2 ^ 63
      → c.stream ≡ []
      → recv_long ntl (send_long ntl a c) ≡ ok (pos (abs a), counted 8 c)
  recv_long-send_long a c h e =
      delivered (Sends-send_long a) (Receives-recv_long a h) c e
      ∙ ap (λ n. ok (pos (abs a), counted n c)) (ntl.length-bytes_from_zz a 8)

  -- An integer that is sent over an empty stream without an agreed size is received as its absolute
  -- value, where it has less than 2 ^ 31 bytes; as many bytes are counted as received as were sent.
  pub recv_zz-send_zz :
      (a : ℤ) (c : Communicant)
      → num_bytes a < 2 ^ 31
      → c.stream ≡ []
      → (n : ℕ) × (recv_zz ntl 0 (send_zz ntl a none c) ≡ ok (abs a, counted n c))
  recv_zz-send_zz a c h e = (_, delivered (Sends-send_zz a) (Receives-recv_zz a h) c e)
