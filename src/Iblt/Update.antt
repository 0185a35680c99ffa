-- ===== src/Iblt/Update.antt =====
-- `_insert` as the addition of a fixed table, its footprint.
use gensync_core.Prelude.{
  ℕ, zero, suc, ◌+◌, ◌*◌, ◌/◌, ◌%◌, ◌≤◌, ◌<◌, ◌≡◌, refl, sym, ap, ap₂, ◌∙◌, List, arith, length,
  All, ==_iff, length-replicate,
}
use gensync_core.Prelude.Int.{ℤ, pos, negsuc, ◌+ℤ◌}
use gensync_core.Prelude.Group.{
  plus, plus_swap, plus-negate, at-opposite, plus_medial, zeros-zeros, zeros, at, plus_assoc,
  length-plus, plus-zeros, length-at,
}
use gensync_core.Prelude.Outcome.{ok, ◌>>=◌, div_lem, rem_lem, modify_at_lem}
use native.Mathlib.Nat.{mod-lt, zero-add, mul_comm, div-mul-le_self, le-div_iff_mul-le}
use gensync_core.Platform.{Platform}
use gensync_core.Iblt.{
  HashTableEntry, GenIblt, blank, size, hashes_for, hash_k, bump, insert_loop, insert_signed,
  insert, erase,
}
use gensync_core.Iblt.Sums.{
  IsMirrored, entries, share, share-opposite, modify-bump, plus-IsMirrored, at-IsMirrored,
  zeros-IsMirrored,
}

-- A table on which `_insert` runs to its end: there are cells for every hash function, values have
-- the expected size, and value sums equal key sums.
pub record IsReady (p : Platform) (g : GenIblt) : Type 0 where
  pub hashed : (key : ℕ) → 0 < hashes_for g key
  pub roomy : (key : ℕ) → hashes_for g key ≤ size g
  pub sized : p.sizeof_zz ≡ g.value_size
  pub mirrored : All IsMirrored g.hash_table

module _ (p : Platform) where
  -- What the rounds from `ii` on add, in a table of `n` cells with `b` cells for each hash function.
  unfoldable pub footprint : ℕ → ℤ → ℕ → ℕ → ℕ → ℕ → ℕ → List HashTableEntry
  footprint check sign key b n zero ii = zeros (entries p) n
  footprint check sign key b n (suc k) ii =
      plus (entries p) (at (entries p) n (ii * b + hash_k p key ii % b) (share p check sign key))
        (footprint check sign key b n k (ii + 1))

  -- What an update by `sign` of `key` adds to a table with the parameters of `g` and `n` cells.
  abbrev pub footprint_of : GenIblt → ℕ → ℤ → ℕ → List HashTableEntry
  footprint_of g n sign key =
      footprint g.num_hash_check sign key (n / hashes_for g key) n (hashes_for g key) 0

  pub length-footprint :
      (check : ℕ) (sign : ℤ) (key b n k ii : ℕ) → length (footprint check sign key b n k ii) ≡ n
  unfolding footprint
  length-footprint check sign key b n zero ii = length-replicate n blank
  length-footprint check sign key b n (suc k) ii =
      let here = length-at (entries p) n (ii * b + hash_k p key ii % b) (share p check sign key) in
      length-plus (entries p) _ _ (here ∙ sym (length-footprint check sign key b n k (ii + 1)))
      ∙ here

  pub footprint-IsMirrored :
      (check : ℕ) (sign : ℤ) (key b n k ii : ℕ) → All IsMirrored (footprint check sign key b n k ii)
  unfolding footprint
  footprint-IsMirrored check sign key b n zero ii = zeros-IsMirrored p n
  footprint-IsMirrored check sign key b n (suc k) ii =
      plus-IsMirrored p _ _ (at-IsMirrored p n _ _ refl)
        (footprint-IsMirrored check sign key b n k (ii + 1))

  -- Each round's cell lies in the table.
  slot-lt :
      (b ii k n h : ℕ) (table : List HashTableEntry)
      → 0 < b
      → length table ≡ n
      → (ii + suc k) * b ≤ n
      → ii * b + h % b < length table
  slot-lt b ii k n h table hb e room = grind (arith, mod-lt h hb)

  insert_loop-footprint :
      (b check : ℕ) (sign : ℤ) (key k ii n : ℕ) (table : List HashTableEntry)
      → 0 < b
      → length table ≡ n
      → (ii + k) * b ≤ n
      → All IsMirrored table
      → insert_loop p b check sign key key k ii table
        ≡ ok (plus (entries p) table (footprint check sign key b n k ii))
  unfolding insert_loop footprint
  insert_loop-footprint b check sign key zero ii n table hb e room m = ap ok (
      sym (
        ap (λ l. plus (entries p) table (zeros (entries p) l)) (sym e)
        ∙ plus-zeros (entries p) table))
  insert_loop-footprint b check sign key (suc k) ii n table hb e room m =
      let i = ii * b + hash_k p key ii % b in
      let here = at (entries p) n i (share p check sign key) in
      let width : length table ≡ length here = e ∙ sym (length-at (entries p) n i _) in
      rw
        (
          rem_lem (hash_k p key ii) b hb,
          modify_at_lem table i (bump p check sign key key) (slot-lt b ii k n _ table hb e room),
          modify-bump p check sign key i table m,
          e,
        )
        (insert_loop-footprint b check sign key k (ii + 1) n (plus (entries p) table here) hb
            (length-plus (entries p) table here width ∙ e) (grind arith)
            (plus-IsMirrored p table here m (at-IsMirrored p n i _ refl))
          ∙ ap ok (plus_assoc (entries p) table here _))

  buckets_pos : (k n : ℕ) → 0 < k → k ≤ n → 0 < n / k
  buckets_pos k n h r = (le-div_iff_mul-le h).1 (omega arith)

  -- The table with `sign` of `key` added.
  abbrev pub added : GenIblt → ℤ → ℕ → GenIblt
  added g sign key = record g {
    hash_table = plus (entries p) g.hash_table (footprint_of g (size g) sign key);
  }

  pub length-footprint_of :
      (g : GenIblt) (n : ℕ) (sign : ℤ) (key : ℕ) → length (footprint_of g n sign key) ≡ n
  length-footprint_of g n sign key = length-footprint _ sign key _ n _ 0

  pub size-added : (g : GenIblt) (sign : ℤ) (key : ℕ) → size (added g sign key) ≡ size g
  size-added g sign key =
      length-plus (entries p) g.hash_table _ (sym (length-footprint_of g (size g) sign key))

  pub insert_signed-added :
      {g : GenIblt} (sign : ℤ) (key : ℕ)
      → IsReady p g
      → insert_signed p sign key key g ≡ ok (added g sign key)
  unfolding insert_signed
  insert_signed-added {g} sign key r =
      let k = hashes_for g key in
      let b = size g / k in
      rw (
        div_lem (size g) k (r.hashed key),
        (==_iff _ _).1 r.sized,
        insert_loop-footprint b g.num_hash_check sign key k 0 (size g) g.hash_table
            (buckets_pos k (size g) (r.hashed key) (r.roomy key)) refl
            (rw (zero-add, mul_comm k b) (div-mul-le_self (size g) k)) r.mirrored,
      )

  pub added-IsReady :
      {g : GenIblt} (sign : ℤ) (key : ℕ) → IsReady p g → IsReady p (added g sign key)
  added-IsReady {g} sign key r = record {
    hashed = r.hashed;
    roomy = λ j. rw (size-added g sign key) (r.roomy j);
    sized = r.sized;
    mirrored = plus-IsMirrored p _ _ r.mirrored (footprint-IsMirrored _ sign key _ _ _ 0);
  }

  -- Two updates may be swapped.
  pub added_comm :
      (g : GenIblt) (s t : ℤ) (j k : ℕ) → added (added g s j) t k ≡ added (added g t k) s j
  added_comm g s t j k =
      let n = size g in
      let a = footprint_of g n s j in
      let b = footprint_of g n t k in
      rw (size-added g s j, size-added g t k)
        (ap (λ table. record g { hash_table = table })
          (plus_swap (entries p) g.hash_table a b
            (length-footprint_of g n s j ∙ sym (length-footprint_of g n t k))))

  -- An update by the opposite sign takes the footprint away.
  pub footprint-opposite :
      (check : ℕ) (s t : ℤ) (key b n k ii : ℕ)
      → s +ℤ t ≡ pos 0
      → plus (entries p) (footprint check s key b n k ii) (footprint check t key b n k ii)
        ≡ zeros (entries p) n
  unfolding footprint
  footprint-opposite check s t key b n zero ii e = zeros-zeros (entries p) n
  footprint-opposite check s t key b n (suc k) ii e =
      let i = ii * b + hash_k p key ii % b in
      plus_medial (entries p) _ _ _ _
        (length-footprint check s key b n k (ii + 1) ∙ sym (length-at (entries p) n i _))
      ∙ ap₂ (plus (entries p)) (at-opposite (entries p) n i _ _ (share-opposite p check s t key e))
          (footprint-opposite check s t key b n k (ii + 1) e)
      ∙ zeros-zeros (entries p) n

  pub added-opposite :
      (g : GenIblt) (s t : ℤ) (key : ℕ) → s +ℤ t ≡ pos 0 → added (added g s key) t key ≡ g
  added-opposite g s t key e =
      let n = size g in
      rw (size-added g s key) (
        ap (λ table. record g { hash_table = table })
          (plus-negate (entries p) g.hash_table (footprint_of g n t key) (footprint_of g n s key)
            (sym (length-footprint_of g n t key))
            (footprint-opposite _ s t key _ n _ 0 e
              ∙ ap (zeros (entries p)) (sym (length-footprint_of g n t key)))))

  -- Inserting a key and erasing it gives back the table, cell for cell. The table is ready for
  -- updates, and the key is its own value.
  pub erase-insert :
      {g : GenIblt} (key : ℕ) → IsReady p g → (insert p key key g >>= erase p key key) ≡ ok g
  unfolding insert erase
  erase-insert {g} key r = rw (insert_signed-added (pos 1) key r) (
      insert_signed-added (negsuc 0) key (added-IsReady (pos 1) key r)
      ∙ ap ok (added-opposite g (pos 1) (negsuc 0) key (unfold ◌+ℤ◌ in refl)))

  -- The order of two updates does not matter: inserts and erases of keys that are their own values
  -- commute on a table that is ready for updates.
  pub insert_signed_comm :
      {g : GenIblt} (s t : ℤ) (j k : ℕ)
      → IsReady p g
      → (insert_signed p s j j g >>= insert_signed p t k k)
        ≡ (insert_signed p t k k g >>= insert_signed p s j j)
  insert_signed_comm {g} s t j k r =
      rw (insert_signed-added s j r, insert_signed-added t k r)
        (insert_signed-added t k (added-IsReady s j r)
          ∙ ap ok (added_comm g s t j k)
          ∙ sym (insert_signed-added s j (added-IsReady t k r)))
