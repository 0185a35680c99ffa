-- ===== src/IbltSync/Exchange.antt =====
-- What the two ends of the protocol conclude.
use gensync_core.Prelude.{
  ℕ, ◌+◌, ◌<◌, ◌^◌, ◌≡◌, refl, sym, ap, ap₂, ◌∙◌, Bool, true, false, List, [], ◌++◌, All, length,
  some,
}
use gensync_core.Prelude.Outcome.{Outcome, ok, ◌>>=◌}
use gensync_core.Platform.{Platform}
use gensync_core.Ntl.{Ntl}
use gensync_core.Decimal.{Decimal}
use gensync_core.Iblt.{GenIblt, Listing, size, subtract, list_entries}
use gensync_core.Iblt.Decode.{start}
use gensync_core.Communicant.{Communicant, send_data_object_list, recv_data_object_list}
use gensync_core.Communicant.Wire.{
  Sends-then, Receives-then, Receives-map, counted, counted-counted, delivered,
}
use gensync_core.Communicant.Strings.{
  IsShort, Sends-send_data_object_list, Receives-recv_data_object_list,
}
use gensync_core.Communicant.Tables.{send_iblt, recv_iblt}
use gensync_core.Communicant.Tables.RoundTrip.{as_received, recv_iblt-send_iblt, IsSendable}
use gensync_core.IbltSync.{
  IbltSync, Differences, with_listed, client_send, server_run, client_finish, recv_lists,
  with_received,
}

module _ (p : Platform) (ntl : Ntl) (dec : Decimal) where
  -- Both ends, from where the sizes are agreed: the server's answer and lists, and the client's lists.
  abbrev pub exchange :
      ℕ
      → IbltSync
      → IbltSync
      → Differences
      → Differences
      → Communicant
      → Outcome ((Bool × Differences × Differences) × Communicant)
  exchange fuel client server dc ds c = do
    (result, c₁) ← server_run p ntl dec fuel server ds (client_send p ntl dec client c)
    (mine, c₂) ← client_finish p ntl dec client dc c₁
    ok ((result.0, result.1, mine.1), c₂)

  -- Two lists, one after the other.
  pub lists-delivered :
      (xs ys : List ℕ) (c : Communicant)
      → All (IsShort ntl) xs
      → All (IsShort ntl) ys
      → length xs < 2 ^ 31
      → length ys < 2 ^ 31
      → c.stream ≡ []
      → (n : ℕ) × (recv_lists p ntl dec
            (send_data_object_list ntl ys (send_data_object_list ntl xs c))
          ≡ ok ((xs, ys), counted n c))
  unfolding recv_lists
  lists-delivered xs ys c hx hy lx ly e = (
    _,
    delivered
        (Sends-then {g = send_data_object_list ntl ys} (Sends-send_data_object_list ntl xs)
          (Sends-send_data_object_list ntl ys))
        (Receives-then (λ a c. recv_data_object_list ntl c >>= λ b. ok ((a, b.0), b.1))
          (Receives-recv_data_object_list ntl xs hx lx)
          (Receives-map (λ b. pair_with xs b) (Receives-recv_data_object_list ntl ys hy ly) refl))
        c e,
  )
    where
      pair_with : List ℕ → List ℕ → List ℕ × List ℕ
      pair_with a b = (a, b)

  -- The two ends report the same differences. From where the sizes are agreed, over an empty stream,
  -- and two ways: where the listing of the client's table less the server's ends with an answer, the
  -- server returns that answer and its lists with the listed pairs added, and the client's lists are
  -- its own with the server's lists added the other way around; the stream is empty again. The
  -- client's table can be sent, the lists too, and the tables have the same sizes.
  pub exchange-mirrors :
      (fuel : ℕ) (client server : IbltSync) (dc ds : Differences) (c : Communicant) {gap : GenIblt}
      {answer : Bool} {listing : Listing}
      → client.one_way ≡ false
      → server.one_way ≡ false
      → c.stream ≡ []
      → 0 < client.my_iblt.value_size
      → client.my_iblt.value_size < 2 ^ 31
      → size client.my_iblt < 2 ^ 31
      → All (IsSendable ntl dec client.my_iblt.value_size) client.my_iblt.hash_table
      → size client.my_iblt ≡ size server.my_iblt
      → client.my_iblt.value_size ≡ server.my_iblt.value_size
      → subtract p (as_received ntl dec client.my_iblt) server.my_iblt ≡ ok gap
      → list_entries p fuel (start p gap) ≡ ok (answer, listing)
      → All (IsShort ntl) (with_listed listing ds).self_minus_other
      → All (IsShort ntl) (with_listed listing ds).other_minus_self
      → length (with_listed listing ds).self_minus_other < 2 ^ 31
      → length (with_listed listing ds).other_minus_self < 2 ^ 31
      → let ds' = with_listed listing ds in
        let dc' : Differences = record {
          self_minus_other = dc.self_minus_other ++ ds'.other_minus_self;
          other_minus_self = dc.other_minus_self ++ ds'.self_minus_other;
        } in
        (n : ℕ) × (exchange fuel client server dc ds c ≡ ok ((answer, ds', dc'), counted n c))
  unfolding client_send server_run client_finish
  exchange-mirrors fuel client server dc ds c {gap} {answer} {listing} oc os e pos_size few wide
        cells same_size same_value diff run hs ho ls lo =
      let (n, table) =
        recv_iblt-send_iblt ntl dec client.my_iblt true c pos_size few wide cells e in
      let arrived =
        ap₂ (λ a b. recv_iblt ntl dec (some a) (some b) (send_iblt ntl dec client.my_iblt true c))
          (sym same_size) (sym same_value)
        ∙ table in
      let ds' = with_listed listing ds in
      let (m, lists) =
        lists-delivered ds'.self_minus_other ds'.other_minus_self (counted n c) hs ho ls lo e in
      (
        n + m,
        rw (oc, os, arrived, diff, run, lists)
            (ap
              (λ c'. ok (
                (
                  answer,
                  ds',
                  with_received p ntl dec dc (ds'.self_minus_other, ds'.other_minus_self),
                ),
                c',
              ))
              (counted-counted n m c)),
      )
