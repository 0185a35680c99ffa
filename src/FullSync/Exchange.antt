-- ===== src/FullSync/Exchange.antt =====
-- What the two ends of the protocol over whole sets conclude.
use gensync_core.Prelude.{
  ℕ, suc, ◌+◌, ◌<◌, ◌≤◌, ◌^◌, ◌≡◌, refl, sym, ap, Bool, true, ltb, List, [], ◌∷◌, All, length,
  length-map, arith, Bool-cases, inl, inr,
}
use gensync_core.Prelude.Bags.{count, IsSorted}
use gensync_core.Prelude.Int.{pos}
use gensync_core.Prelude.Outcome.{Outcome, ok, ◌>>=◌, >>=-eq-ok, next_int, next_int_lem}
use gensync_core.Ntl.{Ntl}
use gensync_core.Communicant.{Communicant, recv_long, rounds, send_data_object_list}
use gensync_core.Communicant.Wire.{
  Receives, Receives-then, Receives-map, consumed-nil, counted, counted-counted, delivered,
  two-arrive,
}
use gensync_core.Communicant.Numbers.{Receives-recv_long}
use gensync_core.Communicant.Strings.{
  IsShort, wire_list, wire_objects, Receives-recv_data_object, Sends-send_data_object_list,
}
use gensync_core.IbltSync.{Differences}
use gensync_core.FullSync.{
  FullSync, multiset_insert, range_diff, client_send, recv_multiset, server_run, recv_do_objects,
  recv_do_list, client_finish,
}
use gensync_core.FullSync.Multiset.{count-multiset_insert, multiset_insert-IsSorted}
use gensync_core.FullSync.Elements.{values}

-- What the server has once it has received a list.
unfoldable pub gathered : List ℕ → List ℕ → List ℕ
gathered [] other = other
gathered (d ∷ ds) other = gathered ds (multiset_insert d other)

pub gathered-IsSorted : (ds other : List ℕ) → IsSorted other → IsSorted (gathered ds other)
unfolding gathered
gathered-IsSorted [] other s = s
gathered-IsSorted (d ∷ ds) other s =
    gathered-IsSorted ds (multiset_insert d other) (multiset_insert-IsSorted d other s)

pub count-gathered :
    (a : ℕ) (ds other : List ℕ) → count a (gathered ds other) ≡ count a ds + count a other
unfolding gathered
count-gathered a [] other = omega arith
count-gathered a (d ∷ ds) other =
    omega (arith, count-gathered a ds (multiset_insert d other), count-multiset_insert a d other)

length-multiset_insert : (d : ℕ) (xs : List ℕ) → length (multiset_insert d xs) ≡ suc (length xs)
unfolding multiset_insert
length-multiset_insert d [] = refl
length-multiset_insert d (x ∷ xs) = ground (arith, length-multiset_insert d xs)

length-gathered : (ds other : List ℕ) → length (gathered ds other) ≡ length ds + length other
unfolding gathered
length-gathered [] other = omega arith
length-gathered (d ∷ ds) other =
    omega (arith, length-gathered ds (multiset_insert d other), length-multiset_insert d other)

module _ {κ} (P : ℕ → Type κ) where
  All-multiset_insert : (d : ℕ) (xs : List ℕ) → P d → All P xs → All P (multiset_insert d xs)
  unfolding multiset_insert
  All-multiset_insert d [] h hs = (h, tt)
  All-multiset_insert d (x ∷ xs) h hs =
      let rest = All-multiset_insert d xs h hs.1 in
      elim (Bool-cases (ltb d x)) [
        | inl less ↦ rw less (h, hs)
        | inr not_less ↦ rw not_less (hs.0, rest)
      ]

  All-gathered : (ds other : List ℕ) → All P ds → All P other → All P (gathered ds other)
  unfolding gathered
  All-gathered [] other h k = k
  All-gathered (d ∷ ds) other h k =
      All-gathered ds (multiset_insert d other) h.1 (All-multiset_insert d other h.0 k)

  All-range_diff : (xs ys : List ℕ) → All P xs → All P (range_diff xs ys)
  unfolding range_diff
  All-range_diff [] ys h = tt
  All-range_diff (x ∷ xs) [] h = h
  All-range_diff (x ∷ xs) (y ∷ ys) h =
      let here = All-range_diff xs (y ∷ ys) h.1 in
      let past = All-range_diff (x ∷ xs) ys h in
      let both = All-range_diff xs ys h.1 in
      elim (Bool-cases (ltb x y)) [
        | inl less ↦ rw less (h.0, here)
        | inr not_less ↦
            rw not_less
              (elim (Bool-cases (ltb y x)) [ inl more ↦ rw more past | inr same ↦ rw same both ])
      ]

length-range_diff : (xs ys : List ℕ) → length (range_diff xs ys) ≤ length xs
unfolding range_diff
length-range_diff [] ys = omega arith
length-range_diff (x ∷ xs) [] = omega arith
length-range_diff (x ∷ xs) (y ∷ ys) =
    ground
      (arith, length-range_diff xs (y ∷ ys), length-range_diff (x ∷ xs) ys, length-range_diff xs ys)

module _ (ntl : Ntl) where
  Receives-recv_multiset :
      (ds other : List ℕ) (ii : ℕ)
      → All (IsShort ntl) ds
      → ii + length ds < 2 ^ 31
      → Receives (recv_multiset ntl (length ds) ii other) (wire_objects ntl ds) (gathered ds other)
  unfolding recv_multiset gathered
  Receives-recv_multiset [] other ii h few = record {
    received = λ c rest e. ap (λ c'. ok (other, c')) (sym (consumed-nil c rest e));
  }
  Receives-recv_multiset (d ∷ ds) other ii h few =
      Receives-then
        (λ x c.
          next_int ii >>= λ ii'. recv_multiset ntl (length ds) ii' (multiset_insert x other) c)
        (Receives-recv_data_object ntl d h.0)
        (rw (next_int_lem ii (omega arith))
          (Receives-recv_multiset ds (multiset_insert d other) (ii + 1) h.1 (omega arith)))

  client_send_lem :
      (s : FullSync) (c : Communicant)
      → client_send ntl s c ≡ send_data_object_list ntl (values s.elements) c
  unfolding client_send send_data_object_list
  client_send_lem s c = rw (length-map s.elements (λ x. x.1)) refl

  -- The client's elements arrive in the server's multiset.
  data-arrive :
      (s : FullSync) (c : Communicant)
      → c.stream ≡ []
      → All (IsShort ntl) (values s.elements)
      → length s.elements < 2 ^ 31
      → (c' : Communicant) × (size : _) × (n : ℕ) × (recv_long ntl (client_send ntl s c)
          ≡ ok (size, c'))
        × (recv_multiset ntl (rounds size) 0 [] c'
            ≡ ok (gathered (values s.elements) [], counted n c))
  unfolding wire_list
  data-arrive s c e short few =
      let vs = values s.elements in
      let same : length vs ≡ length s.elements = length-map s.elements (λ x. x.1) in
      let run =
        delivered (Sends-send_data_object_list ntl vs)
          (Receives-then (λ n c. recv_multiset ntl (rounds n) 0 [] c)
            (Receives-recv_long ntl (pos (length vs)) (omega (arith, same)))
            (Receives-recv_multiset vs [] 0 short (omega (arith, same))))
          c e in
      let (x, rest, first) = >>=-eq-ok (recv_long ntl (send_data_object_list ntl vs c)) _ run in
      (x.1, x.0, _, rw (client_send_lem s c) first, rest)

  Receives-recv_do_objects :
      (ds : List ℕ)
      → All (IsShort ntl) ds
      → Receives (recv_do_objects ntl (length ds)) (wire_objects ntl ds) ds
  unfolding recv_do_objects
  Receives-recv_do_objects [] h = record {
    received = λ c rest e. ap (λ c'. ok ([], c')) (sym (consumed-nil c rest e));
  }
  Receives-recv_do_objects (d ∷ ds) h =
      Receives-then (λ x c. recv_do_objects ntl (length ds) c >>= λ y. ok (x ∷ y.0, y.1))
        (Receives-recv_data_object ntl d h.0)
        (Receives-map (λ y. d ∷ y) (Receives-recv_do_objects ds h.1) refl)

  Receives-recv_do_list :
      (ds : List ℕ)
      → All (IsShort ntl) ds
      → length ds < 2 ^ 63
      → Receives (recv_do_list ntl) (wire_list ntl ds) ds
  unfolding recv_do_list wire_list
  Receives-recv_do_list ds h few =
      Receives-then (λ n c. recv_do_objects ntl (rounds n) c)
        (Receives-recv_long ntl (pos (length ds)) few) (Receives-recv_do_objects ds h)

  -- Both ends: what the server and what the client conclude. The server starts with empty lists.
  abbrev pub exchange :
      FullSync
      → FullSync
      → Differences
      → Communicant
      → Outcome (((Bool × Differences) × (Bool × Differences)) × Communicant)
  exchange client server dc c = do
    (theirs, c₁) ←
        server_run ntl server (record { self_minus_other = []; other_minus_self = [] })
          (client_send ntl client c)
    (ours, c₂) ← client_finish ntl client dc c₁
    ok ((theirs, ours), c₂)

  -- The run, with the ranges that the server computes.
  pub exchange_run :
      (client server : FullSync) (dc : Differences) (c : Communicant)
      → c.stream ≡ []
      → All (IsShort ntl) (values client.elements)
      → All (IsShort ntl) server.my_data
      → length client.elements < 2 ^ 31
      → length server.my_data < 2 ^ 63
      → let other = gathered (values client.elements) [] in
        let own = range_diff server.my_data other in
        let missing = range_diff other server.my_data in
        (n : ℕ) × (exchange client server dc c
          ≡ ok (
            (
              (true, record { self_minus_other = own; other_minus_self = missing }),
              (true, record { self_minus_other = missing; other_minus_self = own }),
            ),
            counted n c,
          ))
  unfolding server_run client_finish
  exchange_run client server dc c e sc ss lc ls =
      let vs = values client.elements in
      let other = gathered vs [] in
      let own = range_diff server.my_data other in
      let missing = range_diff other server.my_data in
      let (c₁, size, n₁, sized, arrived) = data-arrive client c e sc lc in
      let short =
        All-range_diff (IsShort ntl) other server.my_data
          (All-gathered (IsShort ntl) vs [] sc tt) in
      let few : length missing < 2 ^ 63 = omega (
        arith,
        length-range_diff other server.my_data,
        length-gathered vs [],
        length-map client.elements (λ x. x.1),
      ) in
      let few' : length own < 2 ^ 63 = omega (arith, length-range_diff server.my_data other) in
      let (c₃, n₃, first, second) =
        two-arrive (Sends-send_data_object_list ntl missing) (Sends-send_data_object_list ntl own)
          (Receives-recv_do_list missing short few)
          (Receives-recv_do_list own (All-range_diff (IsShort ntl) server.my_data other ss) few')
          (counted n₁ c) e in
      (n₁ + n₃, rw (sized, arrived, first, second, counted-counted n₁ n₃) refl)
