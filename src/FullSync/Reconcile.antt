-- ===== src/FullSync/Reconcile.antt =====
-- The protocol over whole sets computes the differences of multisets.
use gensync_core.Prelude.{ℕ, ◌-◌, ◌<◌, ◌^◌, ◌≡◌, true, List, [], ◌++◌, All, length, arith}
use mathlib.Core.Quot
use gensync_core.Prelude.Bags.{count, count-append, Bag}
use gensync_core.Prelude.Outcome.{ok}
use gensync_core.Ntl.{Ntl}
use gensync_core.Communicant.{Communicant}
use gensync_core.Communicant.Wire.{counted}
use gensync_core.Communicant.Strings.{IsShort}
use gensync_core.IbltSync.{Differences}
use gensync_core.FullSync.{FullSync, range_diff}
use gensync_core.FullSync.Multiset.{count-range_diff}
use gensync_core.FullSync.Elements.{values, IsInStep}
use gensync_core.FullSync.Exchange.{
  exchange, exchange_run, gathered, gathered-IsSorted, count-gathered,
}

-- The differences `d` of the elements `mine` and `other`, as multisets: how often each value is in one
-- more than in the other, and that both ends hold the same once they have added what they miss.
pub record IsDifference (mine other : List ℕ) (d : Differences) : Type 0 where
  pub own : (a : ℕ) → count a d.self_minus_other ≡ count a mine - count a other
  pub missing : (a : ℕ) → count a d.other_minus_self ≡ count a other - count a mine
  pub union :
      ◌≡◌ {A = Bag} (Quot.mk (mine ++ d.other_minus_self)) (Quot.mk (other ++ d.self_minus_other))

range_diff-IsDifference :
    (client server : FullSync)
    → IsInStep server
    → let other = gathered (values client.elements) [] in
      IsDifference (values server.elements) (values client.elements) (record {
        self_minus_other = range_diff server.my_data other;
        other_minus_self = range_diff other server.my_data;
      })
range_diff-IsDifference client server h =
    let vs = values client.elements in
    let other = gathered vs [] in
    let sorted = gathered-IsSorted vs [] tt in
    let own = λ (a : ℕ). count-range_diff a server.my_data other h.sorted sorted in
    let missing = λ (a : ℕ). count-range_diff a other server.my_data sorted h.sorted in
    record {
      own = λ a. omega (arith, own a, h.same a, count-gathered a vs []);
      missing = λ a. omega (arith, missing a, h.same a, count-gathered a vs []);
      union = Quot.sound (λ a. omega (
        arith,
        own a,
        missing a,
        h.same a,
        count-gathered a vs [],
        count-append a (values server.elements) (range_diff other server.my_data),
        count-append a vs (range_diff server.my_data other),
      ));
    }

module _ (ntl : Ntl) where
  -- The protocol ends, both ends answer true, and they report the differences of the two multisets of
  -- elements, each the other's the other way around: how often a value is listed is how much more
  -- often the one end holds it than the other. As bags, the elements of either end with those that it
  -- misses are the same. The stream was empty and is so again; the server's sorted data are in step
  -- with its elements; the elements have fewer than 2 ^ 63 bytes, the client has fewer than 2 ^ 31 of
  -- them and the server fewer than 2 ^ 63.
  pub exchange_reconciles :
      (client server : FullSync) (dc : Differences) (c : Communicant)
      → c.stream ≡ []
      → IsInStep server
      → All (IsShort ntl) (values client.elements)
      → All (IsShort ntl) server.my_data
      → length client.elements < 2 ^ 31
      → length server.my_data < 2 ^ 63
      → (n : ℕ) × (d : Differences) × (exchange ntl client server dc c
          ≡ ok (
            (
              (true, d),
              (
                true,
                record {
                  self_minus_other = d.other_minus_self;
                  other_minus_self = d.self_minus_other;
                },
              ),
            ),
            counted n c,
          ))
        × IsDifference (values server.elements) (values client.elements) d
  exchange_reconciles client server dc c e h sc ss lc ls =
      let (n, run) = exchange_run ntl client server dc c e sc ss lc ls in
      (n, _, run, range_diff-IsDifference client server h)
