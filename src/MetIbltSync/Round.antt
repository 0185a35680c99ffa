-- ===== src/MetIbltSync/Round.antt =====
-- The rounds of the two ends together.
use gensync_core.Prelude.{
  ℕ, zero, suc, ◌+◌, ◌<◌, ◌^◌, ◌≡◌, refl, ap, ◌∙◌, Bool, true, false, none, some, List, [], ◌++◌,
  All, length, arith, if◌then◌else◌,
}
use gensync_core.Prelude.Int.{ℤ, pos}
use gensync_core.Prelude.Outcome.{Outcome, ok, stop, out_of_fuel, ◌>>=◌, load_at}
use gensync_core.Platform.{Platform}
use gensync_core.Ntl.{Ntl}
use gensync_core.Decimal.{Decimal}
use gensync_core.Iblt.{GenIblt, size, subtract}
use gensync_core.Communicant.{Communicant, send_int, recv_int}
use gensync_core.Communicant.Wire.{counted, counted-counted, delivered}
use gensync_core.Communicant.Numbers.{Sends-send_int, Receives-recv_int}
use gensync_core.Communicant.Strings.{IsShort}
use gensync_core.Communicant.Tables.{send_gen_iblt, recv_gen_iblt}
use gensync_core.Communicant.Tables.RoundTrip.{recv_gen_iblt-send_gen_iblt, IsSendable}
use gensync_core.IbltSync.{Differences}
use gensync_core.IbltSync.Exchange.{lists-delivered}
use gensync_core.MetIblt.{MetIblt, add_gen_iblt, get_table, peel_all}
use gensync_core.MetIbltSync.{
  MetIbltSync, grow, client_send, client_hear, server_round, server_finish, client_finish,
}

-- Where the two ends stand at the start of a round.
pub record Session : Type 0 where
  pub client : MetIbltSync
  pub server : MetIbltSync
  pub difference : MetIblt

module _ (p : Platform) (ntl : Ntl) (dec : Decimal) (fuel peels : ℕ) where
  -- The ends when the loops are over: the server's lists, and the client's.
  abbrev pub ends_with :
      List ℕ × List ℕ
      → Differences
      → Differences
      → Communicant
      → Outcome ((Differences × Differences) × Communicant)
  ends_with found dc ds c = do
    let (mine, c₁) = server_finish p ntl dec found ds c
    (theirs, c₂) ← client_finish p ntl dec dc c₁
    ok ((mine.1, theirs.1), c₂)

  -- The loops of both ends, on fuel for the rounds.
  pub run_session :
      ℕ
      → ℕ
      → Session
      → Differences
      → Differences
      → Communicant
      → Outcome ((Differences × Differences) × Communicant)
  run_session zero index s dc ds c = stop out_of_fuel
  run_session (suc rounds) index s dc ds c = do
    c₁ ← client_send p ntl dec index s.client c
    ((server, found, difference), c₂) ←
        server_round p ntl dec fuel peels index s.server s.difference c₁
    ((ended, client), c₃) ← client_hear p ntl dec index s.client c₂
    let s' : Session = record { client = client; server = server; difference = difference }
    let next = run_session rounds (index + 1) s' dc ds c₃
    elim found [ some f ↦ ends_with f dc ds c₃ | none ↦ next ]

  -- The server answers the client's table `t` with `answer`: what its difference becomes.
  pub record Round (index : ℕ) (s : Session) (answer : Bool) (found : List ℕ × List ℕ)
      : Type 0 where
    pub theirs : GenIblt
    pub ours : GenIblt
    pub gap : GenIblt
    pub rest : MetIblt
    pub client_has : load_at s.client.my_met.tables index ≡ ok theirs
    pub server_has : load_at s.server.my_met.tables index ≡ ok ours
    pub same_size : load_at s.server.my_met.m_cells index ≡ ok (size theirs)
    pub same_value : s.server.element_size ≡ theirs.value_size
    pub sized : 0 < theirs.value_size
    pub few : theirs.value_size < 2 ^ 31
    pub few_cells : size theirs < 2 ^ 31
    pub sendable : All (IsSendable ntl dec theirs.value_size) theirs.hash_table
    pub subtracted :
        subtract p ours (record theirs {
          num_hashes = 0;
          calc_num_hashes = ours.calc_num_hashes;
          num_hash_check = 0;
        })
        ≡ ok gap
    pub peeled :
        peel_all p fuel peels (add_gen_iblt gap s.difference) ≡ ok (answer, found.0, found.1, rest)

  abbrev answer_of : Bool → ℤ
  answer_of b = pos (if b then 1 else 0)

  -- What arrives in a round.
  arrives :
      (index : ℕ) (s : Session) (answer : Bool) (found : List ℕ × List ℕ) (c : Communicant)
      → (h : Round index s answer found) → c.stream ≡ []
      → (n : ℕ) × (recv_gen_iblt ntl dec
            (some (size h.theirs))
            (some s.server.element_size)
            h.ours.calc_num_hashes
            (send_gen_iblt ntl dec h.theirs true c)
          ≡ ok (
            record (h.theirs) {
              num_hashes = 0;
              calc_num_hashes = h.ours.calc_num_hashes;
              num_hash_check = 0;
            },
            counted n c,
          ))
        × (m : ℕ) × (recv_int ntl (send_int ntl (answer_of answer) (counted n c))
            ≡ ok (answer_of answer, counted (n + m) c))
  arrives index s answer found c h e =
      let (n, table) =
        recv_gen_iblt-send_gen_iblt ntl dec h.theirs h.ours.calc_num_hashes c h.sized h.few
          h.few_cells h.sendable e in
      (
        n,
        ap
              (λ v.
                recv_gen_iblt ntl dec (some (size h.theirs)) (some v) h.ours.calc_num_hashes
                  (send_gen_iblt ntl dec h.theirs true c))
              h.same_value
            ∙ table,
        _,
        delivered (Sends-send_int ntl (answer_of answer))
              (Receives-recv_int ntl (answer_of answer) (small answer)) (counted n c) e
            ∙ ap (λ c'. ok (answer_of answer, c')) (counted-counted n _ c),
      )
    where
      small : (b : Bool) → (if b then 1 else 0) < 2 ^ 31
      small true = omega arith
      small false = omega arith

  -- The last round. Where the server can list the difference, both loops end: the server adds what
  -- it found to its lists, the client adds the server's lists to its own the other way around, and
  -- the stream is empty again. The stream was empty before, the round has the tables and the answer
  -- that `Round` describes, and the lists can be sent.
  pub run_session-ends :
      (rounds index : ℕ) (s : Session) (found : List ℕ × List ℕ) (dc ds : Differences)
      (c : Communicant)
      → Round index s true found
      → All (IsShort ntl) (ds.self_minus_other ++ found.0)
      → All (IsShort ntl) (ds.other_minus_self ++ found.1)
      → length (ds.self_minus_other ++ found.0) < 2 ^ 31
      → length (ds.other_minus_self ++ found.1) < 2 ^ 31
      → c.stream ≡ []
      → let ds' : Differences = record {
        self_minus_other = ds.self_minus_other ++ found.0;
        other_minus_self = ds.other_minus_self ++ found.1;
      } in
        let dc' : Differences = record {
          self_minus_other = dc.self_minus_other ++ ds'.other_minus_self;
          other_minus_self = dc.other_minus_self ++ ds'.self_minus_other;
        } in
        (n : ℕ) × (run_session (suc rounds) index s dc ds c ≡ ok ((ds', dc'), counted n c))
  unfolding run_session client_send server_round client_hear server_finish client_finish get_table
  run_session-ends rounds index s found dc ds c h hs ho ls lo e =
      let ds' : Differences = record {
        self_minus_other = ds.self_minus_other ++ found.0;
        other_minus_self = ds.other_minus_self ++ found.1;
      } in
      let (n, table, m, answer) = arrives index s true found c h e in
      let (k, lists) =
        lists-delivered p ntl dec (ds.self_minus_other ++ found.0) (ds.other_minus_self ++ found.1)
          (counted (n + m) c) hs ho ls lo e in
      (
        n + m + k,
        rw (h.client_has, h.same_size, h.server_has, table, h.subtracted, h.peeled, answer, lists)
            (ap
              (λ c'. ok (
                (
                  ds',
                  record {
                    self_minus_other = dc.self_minus_other ++ ds'.other_minus_self;
                    other_minus_self = dc.other_minus_self ++ ds'.self_minus_other;
                  },
                ),
                c',
              ))
              (counted-counted (n + m) k c)),
      )

  -- A round before. Where the server cannot list the difference, both ends grow, and the loops go on
  -- with the next index, the grown methods and the difference so far. The stream is empty before and
  -- after, the round has the tables and the answer that `Round` describes, and both ends can grow.
  pub run_session-grows :
      (rounds index : ℕ) (s : Session) (found : List ℕ × List ℕ) (dc ds : Differences)
      (c : Communicant) (client server : MetIbltSync)
      → (h : Round index s false found) → grow p (index + 1) s.client ≡ ok client
      → grow p (index + 1) s.server ≡ ok server
      → c.stream ≡ []
      → (n : ℕ) × (run_session (suc rounds) index s dc ds c
          ≡ run_session rounds
              (index + 1)
              (record {
                client = client;
                server = server;
                difference = add_gen_iblt h.gap s.difference;
              })
              dc
              ds
              (counted n c))
  unfolding run_session client_send server_round client_hear get_table
  run_session-grows rounds index s found dc ds c client server h gc gs e =
      let (n, table, m, answer) = arrives index s false found c h e in
      (
        n + m,
        rw (h.client_has, h.same_size, h.server_has, table, h.subtracted, h.peeled, gs, answer, gc)
            refl,
      )
