-- ===== src/Communicant/Agree.antt =====
-- That the two ends of a handshake come to one conclusion.
use gensync_core.Prelude.{
  ℕ, ◌+◌, ◌^◌, ◌<◌, ◌≡◌, refl, sym, ap, ◌∙◌, Bool, true, false, ◌&&◌, ◌==◌, if◌then◌else◌, none,
  some, List, [], ◌++◌, length, Bool-cases, inl, inr, ==_iff,
}
use gensync_core.Prelude.Int.{ℤ, pos}
use gensync_core.Prelude.Outcome.{Outcome, ok, ◌>>=◌}
use gensync_core.Ntl.{Ntl}
use gensync_core.Communicant.{Communicant, comm_send, send_long, recv_long, send_zz, recv_zz}
use gensync_core.Communicant.Wire.{
  Sends, Receives, Receives-then, Receives-map, Sends-then, counted, counted-zero, counted-counted,
  delivered,
}
use gensync_core.Communicant.Numbers.{
  Sends-send_long, Receives-recv_long, Sends-send_byte, Receives-recv_byte, wire_zz, Sends-send_zz,
  Receives-recv_zz,
}
use gensync_core.Communicant.Handshake.{
  answer, await_answer, establish_iblt_send, establish_iblt_recv, recv_sizes, recv_params,
  same_sizes, same_params, establish_cuckoo_send, establish_cuckoo_recv, set_mod_size,
  establish_mod_send, establish_mod_recv,
}

module _ (ntl : Ntl) where
  -- What the two ends conclude, and the communicant that they leave.
  abbrev pub both_ends :
      (Communicant → Communicant)
      → (Communicant → Outcome (Bool × Communicant))
      → Bool
      → Communicant
      → Outcome ((Bool × Bool) × Communicant)
  both_ends send recv one_way c = do
    (theirs, c₁) ← recv (send c)
    (mine, c₂) ← await_answer ntl one_way c₁
    ok ((theirs, mine), c₂)

  -- The answer comes back as it was given; one way, the sending end takes it for granted.
  answered :
      (agreed one_way : Bool) (c : Communicant)
      → c.stream ≡ []
      → (n : ℕ) × (await_answer ntl one_way (answer ntl agreed one_way c)
          ≡ ok (if one_way then true else agreed, counted n c))
  unfolding answer await_answer
  answered agreed true c e = (0, ap (λ c'. ok (true, c')) (sym (counted-zero c)))
  answered true false c e =
      (1, rw (delivered (Sends-send_byte ntl 1) (Receives-recv_byte ntl 1) c e) refl)
  answered false false c e =
      (1, rw (delivered (Sends-send_byte ntl 0) (Receives-recv_byte ntl 0) c e) refl)

  -- A receiving end that reads `a` and tests it, and the sending end, come to one conclusion.
  one_conclusion {ℓ} :
      {A : Type ℓ} {send : Communicant → Communicant}
      {recv : Communicant → Outcome (A × Communicant)} {wire : List ℕ} {a : A} (test : A → Bool)
      (one_way : Bool) (c : Communicant)
      → Sends send wire
      → Receives recv wire a
      → c.stream ≡ []
      → (n : ℕ) × (both_ends send
            (λ c. recv c >>= λ x. ok (test x.0, answer ntl (test x.0) one_way x.1))
            one_way
            c
          ≡ ok ((test a, if one_way then true else test a), counted n c))
  one_conclusion {wire = wire} {a} test one_way c s r e =
      let (n, back) = answered (test a) one_way (counted (length wire) c) e in
      (
        length wire + n,
        rw (delivered s r c e, back)
            (ap (λ c'. ok ((test a, if one_way then true else test a), c'))
              (counted-counted (length wire) n c)),
      )

  Receives-recv_sizes :
      (n m : ℕ)
      → n < 2 ^ 63
      → m < 2 ^ 63
      → Receives
          (recv_sizes ntl)
          (ntl.bytes_from_zz (pos n) 8 ++ ntl.bytes_from_zz (pos m) 8)
          (pos n, pos m)
  unfolding recv_sizes
  Receives-recv_sizes n m h g =
      Receives-then (λ a c. recv_long ntl c >>= λ b. ok ((a, b.0), b.1))
        (Receives-recv_long ntl (pos n) h)
        (Receives-map (λ b. (the_pos n, b)) (Receives-recv_long ntl (pos m) g) refl)
    where
      the_pos : ℕ → ℤ
      the_pos n = pos n

  -- Two ends of a table protocol that start over an empty stream end with it empty. The receiving end
  -- concludes that they agree exactly where both sizes are the same, and so does the sending end
  -- unless the protocol is one way, where it concludes so in any case. The sizes fit a long.
  pub establish_iblt-agree :
      (size elt_size size' elt_size' : ℕ) (one_way : Bool) (c : Communicant)
      → size < 2 ^ 63
      → elt_size < 2 ^ 63
      → c.stream ≡ []
      → let agreed = (size == size') && (elt_size == elt_size') in
        (n : ℕ) × (both_ends
            (establish_iblt_send ntl size elt_size)
            (establish_iblt_recv ntl size' elt_size' one_way)
            one_way
            c
          ≡ ok ((agreed, if one_way then true else agreed), counted n c))
  unfolding establish_iblt_send establish_iblt_recv
  establish_iblt-agree size elt_size size' elt_size' one_way c h g e =
      one_conclusion (same_sizes ntl size' elt_size') one_way c
        (Sends-then {g = send_long ntl (pos elt_size)} (Sends-send_long ntl (pos size))
          (Sends-send_long ntl (pos elt_size)))
        (Receives-recv_sizes size elt_size h g) e

  Receives-recv_params :
      (f b n k : ℕ)
      → f < 2 ^ 63
      → b < 2 ^ 63
      → n < 2 ^ 63
      → k < 2 ^ 63
      → Receives
          (recv_params ntl)
          ((ntl.bytes_from_zz (pos f) 8 ++ ntl.bytes_from_zz (pos b) 8)
            ++ (ntl.bytes_from_zz (pos n) 8 ++ ntl.bytes_from_zz (pos k) 8))
          ((pos f, pos b), (pos n, pos k))
  unfolding recv_params
  Receives-recv_params f b n k hf hb hn hk =
      Receives-then (λ x c. recv_sizes ntl c >>= λ y. ok ((x, y.0), y.1))
        (Receives-recv_sizes f b hf hb)
        (Receives-map (λ y. (pair_of f b, y)) (Receives-recv_sizes n k hn hk) refl)
    where
      pair_of : ℕ → ℕ → ℤ × ℤ
      pair_of f b = (pos f, pos b)

  -- Two ends of a protocol over cuckoo filters that start over an empty stream end with it empty, and
  -- both conclude that they agree exactly where all four parameters are the same. The sending end's
  -- parameters fit a long.
  pub establish_cuckoo-agree :
      (f b n k f' b' n' k' : ℕ) (c : Communicant)
      → f < 2 ^ 63
      → b < 2 ^ 63
      → n < 2 ^ 63
      → k < 2 ^ 63
      → c.stream ≡ []
      → let agreed = (f == f' && b == b') && (n == n' && k == k') in
        (m : ℕ) × (both_ends
            (establish_cuckoo_send ntl f b n k)
            (establish_cuckoo_recv ntl f' b' n' k')
            false
            c
          ≡ ok ((agreed, agreed), counted m c))
  unfolding establish_cuckoo_send establish_cuckoo_recv
  establish_cuckoo-agree f b n k f' b' n' k' c hf hb hn hk e =
      one_conclusion (same_params ntl f' b' n' k') false c
        (Sends-then {g = λ c. send_long ntl (pos k) (send_long ntl (pos n) c)}
          (Sends-then {g = send_long ntl (pos b)} (Sends-send_long ntl (pos f))
            (Sends-send_long ntl (pos b)))
          (Sends-then {g = send_long ntl (pos k)} (Sends-send_long ntl (pos n))
            (Sends-send_long ntl (pos k))))
        (Receives-recv_params f b n k hf hb hn hk) e

  set_mod_size-send_zz :
      (m : ℕ) (c : Communicant)
      → set_mod_size ntl m (send_zz ntl (pos m) none c)
        ≡ send_zz ntl (pos m) none (set_mod_size ntl m c)
  unfolding comm_send
  set_mod_size-send_zz m c =
      ap (set_mod_size ntl m) ((Sends-send_zz ntl (pos m)).sent c)
      ∙ sym ((Sends-send_zz ntl (pos m)).sent (set_mod_size ntl m c))

  -- The receiving end notes the modulus where it is the one that the sending end has noted.
  settled :
      (m m' : ℕ) (one_way : Bool) (c : Communicant)
      → c.mod_size ≡ some (ntl.num_bytes (pos m))
      → ◌≡◌ {A = Bool × Communicant}
          (if m == m'
            then (true, answer ntl true one_way (set_mod_size ntl m' c))
            else (false, answer ntl false one_way c))
          (m == m', answer ntl (m == m') one_way c)
  settled m m' one_way c h = elim (Bool-cases (m == m')) [
    | inl same ↦
        let noted : set_mod_size ntl m' c ≡ c =
          ap (λ k. record c { mod_size = k })
            (ap (λ t. some (ntl.num_bytes (pos t))) (sym ((==_iff m m').0 same)) ∙ sym h) in
        rw same (ap (λ c'. (true, answer ntl true one_way c')) noted)
    | inr other ↦ rw other refl
  ]

  -- Two ends of a protocol modulo m and m' that start over an empty stream end with it empty and with
  -- the number of bytes of m noted. The receiving end concludes that they agree exactly where m is m',
  -- and so does the sending end unless the protocol is one way.
  pub establish_mod-agree :
      (m m' : ℕ) (one_way : Bool) (c : Communicant)
      → ntl.num_bytes (pos m) < 2 ^ 31
      → c.stream ≡ []
      → (n : ℕ) × (both_ends
            (establish_mod_send ntl m)
            (establish_mod_recv ntl m' one_way)
            one_way
            c
          ≡ ok ((m == m', if one_way then true else m == m'), set_mod_size ntl m (counted n c)))
  unfolding establish_mod_send establish_mod_recv
  establish_mod-agree m m' one_way c few e =
      let noted = set_mod_size ntl m c in
      let width = length (wire_zz ntl (pos m)) in
      let (n, back) = answered (m == m') one_way (counted width noted) e in
      let run = delivered (Sends-send_zz ntl (pos m)) (Receives-recv_zz ntl (pos m) few) noted e in
      let same = ap (recv_zz ntl 0) (set_mod_size-send_zz m c) ∙ run in
      (
        width + n,
        rw (same, settled m m' one_way (counted width noted) refl, back)
            (ap (λ c'. ok ((m == m', if one_way then true else m == m'), c'))
              (counted-counted width n noted)),
      )
