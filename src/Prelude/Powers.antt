-- ===== src/Prelude/Powers.antt =====
-- Division and remainder by powers of two, where the exponents are sums.
use Prim.Native.Nat.{ℕ, zero, suc, ◌+◌, ◌*◌, ◌/◌, ◌%◌, ◌^◌, ◌<◌}
use mathlib.Core.Path.{◌≡◌, sym, ap, ◌∙◌}
use native.Mathlib.Omega.{arith}
use native.Mathlib.Nat.{
  pow-suc, one-le-pow, div-div-eq-div-mul, mul-add-div_right, mul-add-mod_self_right, div-add-mod',
  mul_assoc, mod-lt, div-eq_of_lt, mod-eq_of_lt, div-lt_iff_lt-mul, mul-le-mul_right, add-mul,
}

pub pow-plus : (a b : ℕ) → 2 ^ (a + b) ≡ 2 ^ a * 2 ^ b
pow-plus a zero = omega (arith, ap (λ (t : ℕ). 2 ^ t) (plus_zero a))
  where
    plus_zero : (a : ℕ) → a + 0 ≡ a
    plus_zero a = omega arith
pow-plus a (suc b) = omega (
  arith,
  ap (λ (t : ℕ). 2 ^ t) (plus_suc a b),
  pow-suc 2 (a + b),
  pow-plus a b,
  ap (λ (t : ℕ). 2 ^ a * t) (pow-suc 2 b),
)
  where
    plus_suc : (a b : ℕ) → a + suc b ≡ suc (a + b)
    plus_suc a b = omega arith

pub pow-pos : (a : ℕ) → 0 < 2 ^ a
pow-pos a = one-le-pow a 2 (omega arith)

pub div-pow : (n a b : ℕ) → n / 2 ^ (a + b) ≡ n / 2 ^ a / 2 ^ b
div-pow n a b = rw (pow-plus a b) (sym (div-div-eq-div-mul n (2 ^ a) (2 ^ b)))

pub div-pow-lt : (n a b : ℕ) → n < 2 ^ (a + b) → n / 2 ^ a < 2 ^ b
div-pow-lt n a b h = (div-lt_iff_lt-mul (pow-pos a)).1 (omega (arith, pow-plus a b))

-- A number in two parts: the part from place `p` on and the part below.
module _ (x z p : ℕ) (h : z < 2 ^ p) where
  pub join-div : (x * 2 ^ p + z) / 2 ^ p ≡ x
  join-div = mul-add-div_right (pow-pos p) x z ∙ omega (arith, div-eq_of_lt h)

  pub join-mod : (x * 2 ^ p + z) % 2 ^ p ≡ z
  join-mod = mul-add-mod_self_right x (2 ^ p) z ∙ mod-eq_of_lt h

  pub join-lt : (q : ℕ) → x < 2 ^ q → x * 2 ^ p + z < 2 ^ (q + p)
  join-lt q g =
      omega (arith, pow-plus q p, mul-le-mul_right {m = suc x} (2 ^ p) g, add-mul 1 x (2 ^ p))

-- The same number cut at a higher place.
module _ (x z p k : ℕ) (h : z < 2 ^ p) where
  pub join-div-plus : (x * 2 ^ p + z) / 2 ^ (p + k) ≡ x / 2 ^ k
  join-div-plus = div-pow (x * 2 ^ p + z) p k ∙ ap (λ (t : ℕ). t / 2 ^ k) (join-div x z p h)

  regroup : x * 2 ^ p + z ≡ x / 2 ^ k * 2 ^ (k + p) + (x % 2 ^ k * 2 ^ p + z)
  regroup = omega (
    arith,
    ap (λ (t : ℕ). t * 2 ^ p) (sym (div-add-mod' x (2 ^ k))),
    add-mul (x / 2 ^ k * 2 ^ k) (x % 2 ^ k) (2 ^ p),
    mul_assoc (x / 2 ^ k) (2 ^ k) (2 ^ p),
    ap (λ (t : ℕ). x / 2 ^ k * t) (pow-plus k p),
  )

  pub join-mod-plus : (x * 2 ^ p + z) % 2 ^ (k + p) ≡ x % 2 ^ k * 2 ^ p + z
  join-mod-plus =
      ap (λ (t : ℕ). t % 2 ^ (k + p)) regroup
      ∙ join-mod (x / 2 ^ k) (x % 2 ^ k * 2 ^ p + z) (k + p)
          (join-lt (x % 2 ^ k) z p h k (mod-lt x (pow-pos k)))

-- The digits of `n` from place `a` on, `b` of them.
module _ (n a b : ℕ) where
  pub slice : n % 2 ^ (b + a) ≡ n / 2 ^ a % 2 ^ b * 2 ^ a + n % 2 ^ a
  slice =
      ap (λ (t : ℕ). t % 2 ^ (b + a)) (sym (div-add-mod' n (2 ^ a)))
      ∙ join-mod-plus (n / 2 ^ a) (n % 2 ^ a) a b (mod-lt n (pow-pos a))

  pub slice-div : n % 2 ^ (b + a) / 2 ^ a ≡ n / 2 ^ a % 2 ^ b
  slice-div =
      ap (λ (t : ℕ). t / 2 ^ a) slice
      ∙ join-div (n / 2 ^ a % 2 ^ b) (n % 2 ^ a) a (mod-lt n (pow-pos a))

  pub slice-mod : n % 2 ^ (b + a) % 2 ^ a ≡ n % 2 ^ a
  slice-mod =
      ap (λ (t : ℕ). t % 2 ^ a) slice
      ∙ join-mod (n / 2 ^ a % 2 ^ b) (n % 2 ^ a) a (mod-lt n (pow-pos a))

pub shift_cut : (x k p : ℕ) → x * 2 ^ p % 2 ^ (k + p) ≡ x % 2 ^ k * 2 ^ p
shift_cut x k p =
    ap (λ (t : ℕ). t % 2 ^ (k + p)) (plus_zero (x * 2 ^ p))
    ∙ join-mod-plus x 0 p k (pow-pos p)
    ∙ sym (plus_zero (x % 2 ^ k * 2 ^ p))
  where
    plus_zero : (a : ℕ) → a ≡ a + 0
    plus_zero a = omega arith
