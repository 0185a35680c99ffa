-- ===== src/Cuckoo/Erase.antt =====
-- Erasing agrees with looking up.
use gensync_core.Prelude.{
  ℕ, ◌-◌, ◌%◌, ◌^◌, ◌<◌, ◌≡◌, refl, sym, Bool, true, false, not, Option, none, some, arith, ◌==◌,
  if◌then◌else◌,
}
use gensync_core.Prelude.Outcome.{Outcome, ok, stop, >>=-eq-ok, ok-injective}
use gensync_core.Platform.{Platform}
use gensync_core.BitArray.Entries.{get_entry-set_entry}
use gensync_core.BitArray.Changed.{read-Inside}
use gensync_core.Prelude.Powers.{pow-pos}
use gensync_core.Cuckoo.{
  Cuckoo, try_else, find_fingerprint, lookup, p_hash, clear, try_clear, erase,
}
use gensync_core.Cuckoo.Search.{IsReady, find_loop-reads}

module _ (p : Platform) (c : Cuckoo) (ready : IsReady c) where
  open ready use {valid}

  -- Clearing the entry that a search found ends well.
  clear_found :
      (f b k : ℕ)
      → find_fingerprint c f b ≡ ok (some k)
      → (c' : Cuckoo) × (clear true c b k ≡ ok (true, c')) × (c'.items_count ≡ c.items_count - 1)
  unfolding clear find_fingerprint
  clear_found f b k found =
      let inside =
        read-Inside c.filter b k (f % 2 ^ 32)
          (find_loop-reads c.filter (f % 2 ^ 32) b c.bucket_size 0 k found) in
      let (st, wrote, v, here, others) =
        get_entry-set_entry c.filter valid b k inside.row inside.column 0
          (pow-pos c.filter.f_size) in
      (
        record c { filter = record c.filter { store = st }; items_count = c.items_count - 1 },
        rw wrote,
        refl,
      )

  tries_agree :
      (f b1 b2 : ℕ) (answer : Bool) (first second : Outcome (Option ℕ))
      → first ≡ find_fingerprint c f b1
      → second ≡ find_fingerprint c f b2
      → try_else first (λ i. true) (try_else second (λ i. true) (ok false)) ≡ ok answer
      → (c' : Cuckoo) × (try_clear true c b1 first (try_clear true c b2 second (ok (false, c)))
          ≡ ok (answer, c'))
        × (c'.items_count ≡ c.items_count - (if answer then 1 else 0))
  unfolding try_else try_clear
  tries_agree f b1 b2 answer (stop e) second d1 d2 run = cc
  tries_agree f b1 b2 answer (ok (some k)) second d1 d2 run =
      let (c', cleared, count) = clear_found f b1 k (sym d1) in
      let told : true ≡ answer = ok-injective run in rw (sym told) (c', cleared, count)
  tries_agree f b1 b2 answer (ok none) (stop e) d1 d2 run = cc
  tries_agree f b1 b2 answer (ok none) (ok (some k)) d1 d2 run =
      let (c', cleared, count) = clear_found f b2 k (sym d2) in
      let told : true ≡ answer = ok-injective run in rw (sym told) (c', cleared, count)
  tries_agree f b1 b2 answer (ok none) (ok none) d1 d2 run =
      let told : false ≡ answer = ok-injective run in
      rw (sym told) (c, refl, minus_zero c.items_count)
    where
      minus_zero : (n : ℕ) → n ≡ n - 0
      minus_zero n = omega arith

  -- Erasing from a filter that has elements answers what a lookup answers, and the count goes down by
  -- one where the answer is true. The filter is ready and the byte order is little endian.
  pub erase-lookup :
      (x : ℕ) (answer : Bool)
      → 0 < c.items_count
      → lookup p c x ≡ ok answer
      → (c' : Cuckoo) × (erase true p c x ≡ ok (answer, c'))
        × (c'.items_count ≡ c.items_count - (if answer then 1 else 0))
  unfolding lookup erase
  erase-lookup x answer some_items told =
      let (h, run, hashed) = >>=-eq-ok (p_hash p c x) _ told in
      let test : not (c.items_count == 0) ≡ true = ground arith in
      let (c', ends, count) =
        tries_agree h.f h.i1 h.i2 answer (find_fingerprint c h.f h.i1) (find_fingerprint c h.f h.i2)
          refl refl run in
      (c', rw (test, hashed) ends, count)
