-- ===== src/CuckooSync/Transfer.antt =====
-- A cuckoo filter on its way over the stream.
use gensync_core.Prelude.{
  ℕ, ◌+◌, ◌*◌, ◌/◌, ◌^◌, ◌≤◌, ◌<◌, ◌≡◌, refl, sym, ap, none, List, [], ◌∷◌, ◌++◌, length, arith,
}
use mathlib.Core.Path.{subst}
use gensync_core.Prelude.Int.{ℤ, pos}
use gensync_core.Prelude.Outcome.{Outcome, ok, ◌>>=◌}
use gensync_core.Platform.{Platform}
use gensync_core.Ntl.{Ntl}
use gensync_core.BitArray.New.{from_raw_shape}
use gensync_core.Cuckoo.{Cuckoo, from_raw, get_raw_filter, default_fingerprint, default_hash}
use gensync_core.Communicant.{Communicant, send_long, recv_long, send_zz, as_unsigned}
use gensync_core.Communicant.Wire.{
  Sends, Receives, Receives-then, Sends-then, comm_send-nil, consumed-nil, counted, delivered,
}
use gensync_core.Communicant.Numbers.{
  Sends-send_long, Receives-recv_long, wire_zz, Sends-send_zz, Receives-recv_zz, Sends-send_byte,
  Receives-recv_byte,
}
use gensync_core.CuckooSync.{
  send_bytes, recv_bytes_loop, send_cuckoo, recv_filter, recv_cuckoo, bytes_to_read,
}

-- A filter with the default functions, as its constructors make it.
abbrev pub made : Platform → ℕ → ℕ → ℕ → ℕ → ℕ → List ℕ → Cuckoo
made p f b n kicks items st = record {
  filter = record { store = st; f_size = f; f_size_b = (f + 7) / 8; b_size = b; n_buckets = n };
  filter_size = n;
  bucket_size = b;
  fngprt_size = f;
  max_kicks = kicks;
  items_count = items;
  fingerprint_impl = default_fingerprint p;
  hash_impl = default_hash p;
}

-- A last step that may fail, and does not.
Receives-pure :
    {A B : Type 0} {f : Communicant → Outcome (A × Communicant)} {v : List ℕ} {a : A} {b : B}
    (h : A → Outcome B)
    → Receives f v a
    → h a ≡ ok b
    → Receives (λ c. f c >>= λ x. h x.0 >>= λ y. ok (y, x.1)) v b
Receives-pure h hf e = record { received = λ c rest s. rw (hf.received c rest s, e) refl }

module _ (ntl : Ntl) where
  open ntl use {bytes_from_zz, num_bytes}

  Sends-send_bytes : (bs : List ℕ) → Sends (send_bytes ntl bs) bs
  unfolding send_bytes
  Sends-send_bytes [] = record { sent = λ c. sym (comm_send-nil c) }
  Sends-send_bytes (b ∷ bs) =
      Sends-then {g = send_bytes ntl bs} (Sends-send_byte ntl b) (Sends-send_bytes bs)

  Receives-recv_bytes : (bs : List ℕ) → Receives (recv_bytes_loop ntl (length bs)) bs bs
  unfolding recv_bytes_loop
  Receives-recv_bytes [] = record {
    received = λ c rest e. ap (λ c'. ok ([], c')) (sym (consumed-nil c rest e));
  }
  Receives-recv_bytes (b ∷ bs) =
      Receives-then (λ x c. recv_bytes_loop ntl (length bs) c >>= λ y. ok (x ∷ y.0, y.1))
        (Receives-recv_byte ntl b) (Receives-pure (λ y. ok (b ∷ y)) (Receives-recv_bytes bs) refl)

  abbrev wire_size : ℕ → List ℕ
  wire_size n = bytes_from_zz (pos n) 8

  module _ (p : Platform) (f b n kicks items : ℕ) (st : List ℕ) where
    abbrev pub wire_cuckoo : List ℕ
    wire_cuckoo =
        wire_size f
        ++ (wire_size b ++ (wire_size n ++ (wire_size kicks ++ (wire_zz ntl (pos items) ++ st))))

    pub Sends-send_cuckoo : Sends (send_cuckoo ntl (made p f b n kicks items st)) wire_cuckoo
    unfolding send_cuckoo get_raw_filter
    Sends-send_cuckoo =
        let g5 = send_bytes ntl st in
        let g4 = λ (c : Communicant). g5 (send_zz ntl (pos items) none c) in
        let g3 = λ (c : Communicant). g4 (send_long ntl (pos kicks) c) in
        let g2 = λ (c : Communicant). g3 (send_long ntl (pos n) c) in
        let g1 = λ (c : Communicant). g2 (send_long ntl (pos b) c) in
        Sends-then {g = g1} (Sends-send_long ntl (pos f)) (
          Sends-then {g = g2} (Sends-send_long ntl (pos b)) (
            Sends-then {g = g3} (Sends-send_long ntl (pos n)) (
              Sends-then {g = g4} (Sends-send_long ntl (pos kicks))
                (Sends-then {g = g5} (Sends-send_zz ntl (pos items)) (Sends-send_bytes st)))))

    module _ (some_bits : 0 < f) (few_bits : f ≤ 32) (some_columns : 0 < b)
        (few_columns : b < 2 ^ 63) (some_rows : 0 < n) (few_rows : n < 2 ^ 63)
        (few_kicks : kicks < 2 ^ 63) (few_items : num_bytes (pos items) < 2 ^ 31)
        (small : f * b * n < 2 ^ 64) (whole : 8 * length st ≡ f * b * n) where
      Receives-recv_filter :
          Receives
            (recv_filter ntl p f b n kicks)
            (wire_zz ntl (pos items) ++ st)
            (made p f b n kicks items st)
      unfolding recv_filter from_raw
      Receives-recv_filter =
          let count : length st ≡ bytes_to_read ntl f b n = omega arith in
          let read : Receives (recv_bytes_loop ntl (bytes_to_read ntl f b n)) st st =
            subst (λ k. Receives (recv_bytes_loop ntl k) st st) count (Receives-recv_bytes st) in
          let build : from_raw p f b n kicks st items ≡ ok (made p f b n kicks items st) =
            rw (from_raw_shape f b n st some_bits few_bits some_columns some_rows) refl in
          Receives-then
            (λ it c. recv_bytes_loop ntl (bytes_to_read ntl f b n) c >>= λ x.
              from_raw p f b n kicks x.0 it >>= λ cf. ok (cf, x.1))
            (Receives-recv_zz ntl (pos items) few_items)
            (Receives-pure (λ l. from_raw p f b n kicks l items) read build)

      pub Receives-recv_cuckoo :
          Receives (recv_cuckoo ntl p) wire_cuckoo (made p f b n kicks items st)
      unfolding recv_cuckoo
      Receives-recv_cuckoo =
          let after = λ (a₁ a₂ a₃ a₄ : ℤ) (c : Communicant).
            recv_filter ntl p (as_unsigned a₁) (as_unsigned a₂) (as_unsigned a₃) (as_unsigned a₄)
              c in
          let fourth =
            λ (a₁ a₂ a₃ : ℤ) (c : Communicant). recv_long ntl c >>= λ x. after a₁ a₂ a₃ x.0 x.1 in
          let third =
            λ (a₁ a₂ : ℤ) (c : Communicant). recv_long ntl c >>= λ x. fourth a₁ a₂ x.0 x.1 in
          let second = λ (a₁ : ℤ) (c : Communicant). recv_long ntl c >>= λ x. third a₁ x.0 x.1 in
          Receives-then second (Receives-recv_long ntl (pos f) (omega arith)) (
            Receives-then (third (pos f)) (Receives-recv_long ntl (pos b) few_columns) (
              Receives-then (fourth (pos f) (pos b)) (Receives-recv_long ntl (pos n) few_rows) (
                Receives-then (after (pos f) (pos b) (pos n))
                  (Receives-recv_long ntl (pos kicks) few_kicks) Receives-recv_filter)))

      -- A cuckoo filter with the default functions that is sent over an empty stream is received as it
      -- was, its bytes, its shape and its count. Its bits fill its bytes, it has the shape that the
      -- constructors admit, and its sizes fit their types.
      pub recv_cuckoo-send_cuckoo :
          (c : Communicant)
          → c.stream ≡ []
          → (k : ℕ) × (recv_cuckoo ntl p (send_cuckoo ntl (made p f b n kicks items st) c)
              ≡ ok (made p f b n kicks items st, counted k c))
      recv_cuckoo-send_cuckoo c e = (_, delivered Sends-send_cuckoo Receives-recv_cuckoo c e)
