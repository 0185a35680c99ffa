-- ===== src/Prelude/Outcome.antt =====
-- What a call can end in: a value, a call of `Logger::error_and_quit`, a C++ exception, a step that
-- the language leaves undefined, or (of the model alone) fuel that ran out.
use mathlib.Core.Path.{◌≡◌, refl, ap}
use mathlib.Core.Bool.{Bool, true, false}
use mathlib.Core.List.{List, [], ◌∷◌, ◌++◌}
use Prim.Native.Nat.{ℕ, zero, suc, ◌+◌, ◌^◌, ◌/◌, ◌%◌, ◌<◌, ◌≤◌}
use native.Mathlib.Omega.{arith}
use gensync_core.Prelude.Lists.{length, modify, set}
use gensync_core.Prelude.Tests.{ltb, if◌then◌else◌}

pub data Stop : Type 0 where
  quits throws undefined out_of_fuel : Stop

pub data Outcome {ℓ} (A : Type ℓ) : Type ℓ where
  ok : A → Outcome A
  stop : Stop → Outcome A

infixl 5 ◌>>=◌
abbrev pub ◌>>=◌ {ℓ κ} : {A : Type ℓ} {B : Type κ} → Outcome A → (A → Outcome B) → Outcome B
stop s >>= next = stop s
ok a >>= next = next a

-- Goes on if the test holds.
abbrev pub unless_stops : Bool → Stop → Outcome (Unit {0})
unless_stops true s = ok tt
unless_stops false s = stop s

-- After a test that gives no value.
infixl 5 ◌>>◌
abbrev pub ◌>>◌ {ℓ} : {B : Type ℓ} → Outcome (Unit {0}) → Outcome B → Outcome B
stop s >> rest = stop s
ok tt >> rest = rest

-- Unsigned division and remainder; by zero they are undefined.
unfoldable pub div : ℕ → ℕ → Outcome ℕ
div a zero = stop undefined
div a (suc b) = ok (a / suc b)

unfoldable pub rem : ℕ → ℕ → Outcome ℕ
rem a zero = stop undefined
rem a (suc b) = ok (a % suc b)

pub div_lem : (a b : ℕ) → 0 < b → div a b ≡ ok (a / b)
unfolding div
div_lem a zero h = absurd (omega arith)
div_lem a (suc b) h = refl

-- `ii++` for an `int`, whose overflow is undefined.
unfoldable pub next_int : ℕ → Outcome ℕ
next_int ii = if ltb (ii + 1) (2 ^ 31) then ok (ii + 1) else stop undefined

pub next_int_lem : (ii : ℕ) → ii + 1 < 2 ^ 31 → next_int ii ≡ ok (ii + 1)
unfolding next_int
next_int_lem ii h = ground arith

pub rem_lem : (a b : ℕ) → 0 < b → rem a b ≡ ok (a % b)
unfolding rem
rem_lem a zero h = absurd (omega arith)
rem_lem a (suc b) h = refl

module _ {ℓ} {A : Type ℓ} where
  -- `vector::at(i)`, and an update through the reference that it returns.
  unfoldable pub at_index : List A → ℕ → Outcome A
  at_index [] i = stop throws
  at_index (x ∷ xs) zero = ok x
  at_index (x ∷ xs) (suc i) = at_index xs i

  unfoldable pub modify_at : List A → ℕ → (A → A) → Outcome (List A)
  unfolding at_index
  modify_at xs i f = do _ ← at_index xs i; ok (modify xs i f)

  -- `v[i] = x` through `operator[]`, which is undefined past the end.
  unfoldable pub store_at : List A → ℕ → A → Outcome (List A)
  store_at [] i v = stop undefined
  store_at (x ∷ xs) zero v = ok (v ∷ xs)
  store_at (x ∷ xs) (suc i) v = do ys ← store_at xs i v; ok (x ∷ ys)

  -- `v[i]`, likewise.
  unfoldable pub load_at : List A → ℕ → Outcome A
  load_at [] i = stop undefined
  load_at (x ∷ xs) zero = ok x
  load_at (x ∷ xs) (suc i) = load_at xs i

  pub store_at_lem :
      (xs : List A) (i : ℕ) (v : A) → i < length xs → store_at xs i v ≡ ok (set xs i v)
  unfolding store_at
  store_at_lem [] i v h = elim h [ ]
  store_at_lem (x ∷ xs) zero v h = refl
  store_at_lem (x ∷ xs) (suc i) v h = rw (store_at_lem xs i v (omega arith))

  pub store_at_past :
      (xs : List A) (i : ℕ) (v : A) → length xs ≤ i → store_at xs i v ≡ stop undefined
  unfolding store_at
  store_at_past [] i v h = refl
  store_at_past (x ∷ xs) zero v h = absurd (omega arith)
  store_at_past (x ∷ xs) (suc i) v h = rw (store_at_past xs i v (omega arith))

  pub load_at-lt : (xs : List A) (i : ℕ) → i < length xs → (a : A) × (load_at xs i ≡ ok a)
  unfolding load_at
  load_at-lt [] i h = elim h [ ]
  load_at-lt (x ∷ xs) zero h = (x, refl)
  load_at-lt (x ∷ xs) (suc i) h = load_at-lt xs i (omega arith)

  -- The element between two lists.
  pub load_at-middle :
      (before after : List A) (a : A) → load_at (before ++ a ∷ after) (length before) ≡ ok a
  unfolding load_at
  load_at-middle [] after a = refl
  load_at-middle (x ∷ before) after a = load_at-middle before after a

  pub store_at-middle :
      (before after : List A) (a b : A)
      → store_at (before ++ a ∷ after) (length before) b ≡ ok (before ++ b ∷ after)
  unfolding store_at
  store_at-middle [] after a b = refl
  store_at-middle (x ∷ before) after a b = rw (store_at-middle before after a b) refl

  pub at_index-lt : (xs : List A) (i : ℕ) → i < length xs → (a : A) × (at_index xs i ≡ ok a)
  unfolding at_index
  at_index-lt [] i h = elim h [ ]
  at_index-lt (x ∷ xs) zero h = (x, refl)
  at_index-lt (x ∷ xs) (suc i) h = at_index-lt xs i (omega arith)

  pub modify_at_lem :
      (xs : List A) (i : ℕ) (f : A → A) → i < length xs → modify_at xs i f ≡ ok (modify xs i f)
  unfolding modify_at
  modify_at_lem xs i f h = rw ((at_index-lt xs i h).1)

  from_ok : A → Outcome A → A
  from_ok d (ok a) = a
  from_ok d (stop s) = d

  pub ok-injective : {a b : A} → ok a ≡ ok b → a ≡ b
  unfolding from_ok
  ok-injective {a} e = ap (from_ok a) e

  -- The two runs of a chain that ends well.
  pub >>=-eq-ok {κ} :
      {B : Type κ} {b : B} (first : Outcome A) (next : A → Outcome B)
      → (first >>= next) ≡ ok b
      → (a : A) × (next a ≡ ok b) × (first ≡ ok a)
  >>=-eq-ok (stop s) next run = cc
  >>=-eq-ok (ok a) next run = (a, run, refl)
