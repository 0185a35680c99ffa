-- ===== src/Iblt/Sums.antt =====
-- Cells as an abelian group, and what one update adds to the table.
-- All callers but the set-of-sets code insert each key with itself as the value. There the value sum
-- of every cell is its key sum (`IsMirrored`), and an update is the addition of a fixed table.
use gensync_core.Prelude.{
  ℕ, zero, suc, ◌≡◌, refl, ap, ap₂, ◌∙◌, bit_xor, Bool, ◌&&◌, ◌==◌, List, [], ◌∷◌, if◌then◌else◌,
  arith, length, All, modify,
}
use gensync_core.Prelude.Int.{ℤ, pos, ◌+ℤ◌, -ℤ◌, +ℤ_comm, +ℤ_assoc, zero-+ℤ, neg-+ℤ, sub-eq}
use gensync_core.Prelude.Xor.{bit_xor_comm, bit_xor_assoc, zero-bit_xor, bit_xor_self}
use gensync_core.Prelude.Group.{AbGroup, plus, negate, zeros, at, modify-at}
use gensync_core.Platform.{Platform}
use gensync_core.Iblt.{HashTableEntry, blank, hash_k, bump, sub_entry}

abbrev pub IsMirrored : HashTableEntry → Type 0
IsMirrored e = e.value_sum ≡ e.key_sum

module _ (p : Platform) where
  unfoldable pub add_entry : HashTableEntry → HashTableEntry → HashTableEntry
  add_entry a b = record {
    count = a.count +ℤ b.count;
    key_sum = p.xor a.key_sum b.key_sum;
    key_check = bit_xor a.key_check b.key_check;
    value_sum = p.xor a.value_sum b.value_sum;
  }

pub neg_entry : HashTableEntry → HashTableEntry
neg_entry a = record a { count = -ℤ◌ a.count }

entry_path :
    {a b : HashTableEntry}
    → a.count ≡ b.count
    → a.key_sum ≡ b.key_sum
    → a.key_check ≡ b.key_check
    → a.value_sum ≡ b.value_sum
    → a ≡ b
entry_path c k h v = λ i. record { count = c i; key_sum = k i; key_check = h i; value_sum = v i }

module _ (p : Platform) where
  pub add_entry_comm : (a b : HashTableEntry) → add_entry p a b ≡ add_entry p b a
  unfolding add_entry
  add_entry_comm a b = entry_path (+ℤ_comm _ _) (p.xor_comm _ _) (bit_xor_comm _ _) (p.xor_comm _ _)

  pub add_entry_assoc :
      (a b c : HashTableEntry) → add_entry p (add_entry p a b) c ≡ add_entry p a (add_entry p b c)
  unfolding add_entry
  add_entry_assoc a b c =
      entry_path (+ℤ_assoc _ _ _) (p.xor_assoc _ _ _) (bit_xor_assoc _ _ _) (p.xor_assoc _ _ _)

  pub blank-add_entry : (a : HashTableEntry) → add_entry p blank a ≡ a
  unfolding add_entry
  blank-add_entry a = entry_path (zero-+ℤ _) (p.zero-xor _) (zero-bit_xor _) (p.zero-xor _)

  pub neg-add_entry : (a : HashTableEntry) → add_entry p (neg_entry a) a ≡ blank
  unfolding add_entry neg_entry
  neg-add_entry a = entry_path (neg-+ℤ _) (p.xor_self _) (bit_xor_self _) (p.xor_self _)

  abbrev pub entries : AbGroup HashTableEntry
  entries = record {
    zero_of = blank;
    add = add_entry p;
    neg = neg_entry;
    add_comm = add_entry_comm;
    add_assoc = add_entry_assoc;
    zero-add = blank-add_entry;
    neg-add = neg-add_entry;
  }

  -- The contribution of one key to a cell that it is mapped to.
  abbrev pub share : ℕ → ℤ → ℕ → HashTableEntry
  share num_hash_check sign key = record {
    count = sign;
    key_sum = key;
    key_check = hash_k p key num_hash_check;
    value_sum = key;
  }

  pub share-opposite :
      (check : ℕ) (s t : ℤ) (key : ℕ)
      → s +ℤ t ≡ pos 0
      → add_entry p (share check s key) (share check t key) ≡ blank
  unfolding add_entry
  share-opposite check s t key e = entry_path e (p.xor_self _) (bit_xor_self _) (p.xor_self _)

  -- Killing the value sum of an empty cell changes nothing where it equals the key sum.
  killed : (c : Bool) (k h v : ℕ) → v ≡ k → (if c && (k == 0 && h == 0) then 0 else v) ≡ v
  killed c k h v e = ground arith

  pub bump-add :
      (check : ℕ) (sign : ℤ) (key : ℕ) (e : HashTableEntry)
      → IsMirrored e
      → bump p check sign key key e ≡ add_entry p e (share check sign key)
  unfolding bump add_entry
  bump-add check sign key e m = entry_path refl refl refl (killed _ _ _ _ (ap (λ v. p.xor v key) m))

  pub sub_entry-add :
      (a b : HashTableEntry)
      → IsMirrored a
      → IsMirrored b
      → sub_entry p a b ≡ add_entry p a (neg_entry b)
  unfolding sub_entry add_entry neg_entry
  sub_entry-add a b m n = entry_path (sub-eq _ _) refl refl (killed _ _ _ _ (ap₂ p.xor m n))

  pub add_entry-IsMirrored :
      (a b : HashTableEntry) → IsMirrored a → IsMirrored b → IsMirrored (add_entry p a b)
  unfolding add_entry
  add_entry-IsMirrored a b m n = ap₂ p.xor m n

  pub neg_entry-IsMirrored : (a : HashTableEntry) → IsMirrored a → IsMirrored (neg_entry a)
  unfolding neg_entry
  neg_entry-IsMirrored a m = m

  pub plus-IsMirrored :
      (xs ys : List HashTableEntry)
      → All IsMirrored xs
      → All IsMirrored ys
      → All IsMirrored (plus entries xs ys)
  plus-IsMirrored [] ys m n = tt
  plus-IsMirrored (x ∷ xs) [] m n = tt
  plus-IsMirrored (x ∷ xs) (y ∷ ys) m n =
      (add_entry-IsMirrored x y m.0 n.0, plus-IsMirrored xs ys m.1 n.1)

  pub negate-IsMirrored :
      (xs : List HashTableEntry) → All IsMirrored xs → All IsMirrored (negate entries xs)
  negate-IsMirrored [] m = tt
  negate-IsMirrored (x ∷ xs) m = (neg_entry-IsMirrored x m.0, negate-IsMirrored xs m.1)

  pub zeros-IsMirrored : (n : ℕ) → All IsMirrored (zeros entries n)
  zeros-IsMirrored zero = tt
  zeros-IsMirrored (suc n) = (refl, zeros-IsMirrored n)

  pub at-IsMirrored :
      (n i : ℕ) (e : HashTableEntry) → IsMirrored e → All IsMirrored (at entries n i e)
  at-IsMirrored zero i e m = tt
  at-IsMirrored (suc n) zero e m = (m, zeros-IsMirrored n)
  at-IsMirrored (suc n) (suc i) e m = (refl, at-IsMirrored n i e m)

  -- One round of the loop in `_insert` on a mirrored table.
  pub modify-bump :
      (check : ℕ) (sign : ℤ) (key i : ℕ) (xs : List HashTableEntry)
      → All IsMirrored xs
      → modify xs i (bump p check sign key key)
        ≡ plus entries xs (at entries (length xs) i (share check sign key))
  modify-bump check sign key i xs m = go i xs m ∙ modify-at entries xs i _
    where
      go :
          (i : ℕ) (xs : List HashTableEntry)
          → All IsMirrored xs
          → modify xs i (bump p check sign key key)
            ≡ modify xs i (λ e. add_entry p e (share check sign key))
      go i [] m = refl
      go zero (x ∷ xs) m = ap (λ y. y ∷ xs) (bump-add check sign key x m.0)
      go (suc i) (x ∷ xs) m = ap (λ l. x ∷ l) (go i xs m.1)
