-- ===== src/Decimal.antt =====
-- `toStr` and `strTo` of include/GenSync/Aux/Auxiliary.h on unsigned numbers: `<<` and `>>` of the
-- streams of C++, which the code calls and does not contain. A text is the list of its bytes.
use gensync_core.Prelude.{
  ℕ, zero, suc, ◌+◌, ◌-◌, ◌*◌, ◌/◌, ◌%◌, ◌^◌, ◌≤◌, ◌<◌, ◌≡◌, refl, ap, ◌∙◌, List, [], ◌∷◌, ◌++◌,
  length, length-append, arith, true, if◌then◌else◌, ltb, Bool-cases, inl, inr,
}
use native.Mathlib.Nat.{pow-suc}
use gensync_core.Prelude.Outcome.{Outcome, ok, stop, throws}

pub record Decimal : Type 0 where
  pub print : ℕ → List ℕ
  pub scan : List ℕ → ℕ
  pub scan-print : (n : ℕ) → scan (print n) ≡ n
  pub some-print : (n : ℕ) → 0 < length (print n)
  pub length-print : (n : ℕ) → n < 2 ^ 64 → length (print n) ≤ 20

module _ (d : Decimal) where
  -- `toStr`
  unfoldable pub to_str : ℕ → List ℕ
  to_str n = d.print n

  -- `strTo`
  unfoldable pub str_to : List ℕ → Outcome ℕ
  str_to [] = stop throws
  str_to (b ∷ bs) = ok (d.scan (b ∷ bs))

  pub str_to-to_str : (n : ℕ) → str_to (to_str n) ≡ ok n
  unfolding to_str str_to
  str_to-to_str n = full (d.print n) (d.some-print n) ∙ ap ok (d.scan-print n)
    where
      full : (bs : List ℕ) → 0 < length bs → str_to bs ≡ ok (d.scan bs)
      full [] h = elim h [ ]
      full (b ∷ bs) h = refl

-- An instance, digit by digit.
unfoldable pub print_fuel : ℕ → ℕ → List ℕ
print_fuel zero n = (48 + n % 10) ∷ []
print_fuel (suc fuel) n =
    let rest = print_fuel fuel (n / 10) in
    if ltb n 10 then (48 + n) ∷ [] else rest ++ (48 + n % 10) ∷ []

unfoldable pub scan_loop : ℕ → List ℕ → ℕ
scan_loop acc [] = acc
scan_loop acc (b ∷ bs) = scan_loop (acc * 10 + (b - 48)) bs

scan_loop-append :
    (acc : ℕ) (xs ys : List ℕ) → scan_loop acc (xs ++ ys) ≡ scan_loop (scan_loop acc xs) ys
unfolding scan_loop
scan_loop-append acc [] ys = refl
scan_loop-append acc (x ∷ xs) ys = scan_loop-append (acc * 10 + (x - 48)) xs ys

pub scan-print_fuel : (fuel n : ℕ) → n ≤ fuel → scan_loop 0 (print_fuel fuel n) ≡ n
unfolding print_fuel scan_loop
scan-print_fuel zero n h = omega arith
scan-print_fuel (suc fuel) n h = elim (Bool-cases (ltb n 10)) [
  | inl small ↦ rw small (omega arith)
  | inr large ↦ rw large (
      scan_loop-append 0 (print_fuel fuel (n / 10)) ((48 + n % 10) ∷ [])
      ∙ ap (λ t. t * 10 + (48 + n % 10 - 48)) (scan-print_fuel fuel (n / 10) (ground arith))
      ∙ omega arith)
]

pub some-print_fuel : (fuel n : ℕ) → 0 < length (print_fuel fuel n)
unfolding print_fuel
some-print_fuel zero n = omega arith
some-print_fuel (suc fuel) n = elim (Bool-cases (ltb n 10)) [
  | inl small ↦ rw small (omega arith)
  | inr large ↦
      rw large (omega (arith, length-append (print_fuel fuel (n / 10)) ((48 + n % 10) ∷ [])))
]

pub length-print_fuel : (fuel n k : ℕ) → n < 10 ^ suc k → length (print_fuel fuel n) ≤ suc k
unfolding print_fuel
length-print_fuel zero n k h = omega arith
length-print_fuel (suc fuel) n zero h = rw (below n (omega arith)) (omega arith)
  where
    below : (n : ℕ) → n < 10 → ltb n 10 ≡ true
    below n h = ground arith
length-print_fuel (suc fuel) n (suc k) h = elim (Bool-cases (ltb n 10)) [
  | inl small ↦ rw small (omega arith)
  | inr large ↦
      let rest = length-print_fuel fuel (n / 10) k (omega (arith, pow-suc 10 (suc k))) in
      rw large (omega (arith, length-append (print_fuel fuel (n / 10)) ((48 + n % 10) ∷ [])))
]

-- An instance for examples.
abbrev pub sample_decimal : Decimal
sample_decimal = record {
  print = λ n. print_fuel n n;
  scan = scan_loop 0;
  scan-print = λ n. scan-print_fuel n n (omega arith);
  some-print = λ n. some-print_fuel n n;
  length-print = λ n h. length-print_fuel n n 19 (omega arith);
}
