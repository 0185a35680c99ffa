-- ===== src/BitArray/Values.antt =====
-- A vector of bytes as one number, the first byte highest, and the fields of such a number.
use gensync_core.Prelude.{
  ℕ, suc, ◌+◌, ◌*◌, ◌/◌, ◌%◌, ◌^◌, ◌<◌, ◌≡◌, refl, sym, ap, ap₂, ◌∙◌, List, [], ◌∷◌, ◌++◌, length,
  length-append, arith,
}
use native.Mathlib.Nat.{
  mod-lt, div-add-mod', add-mul, mul_assoc, mul-add-div_right, mul-add-mod_self_right,
}
use gensync_core.Prelude.Powers.{
  pow-plus, pow-pos, div-pow, join-div, join-mod, join-lt, join-div-plus, join-mod-plus, slice-div,
  slice-mod, slice,
}
use gensync_core.Ntl.{AreBytes}

-- The `f` bits of `n` above its lowest `a`, and `n` with `v` for them.
abbrev pub field : ℕ → ℕ → ℕ → ℕ
field n a f = n / 2 ^ a % 2 ^ f

abbrev pub splice : ℕ → ℕ → ℕ → ℕ → ℕ
splice n a f v = n / 2 ^ (f + a) * 2 ^ (f + a) + (v * 2 ^ a + n % 2 ^ a)

module _ (n a f v : ℕ) (h : v < 2 ^ f) where
  pub splice-low-lt : v * 2 ^ a + n % 2 ^ a < 2 ^ (f + a)
  splice-low-lt = join-lt v (n % 2 ^ a) a (mod-lt n (pow-pos a)) f h

  splice-mod : splice n a f v % 2 ^ a ≡ n % 2 ^ a
  splice-mod =
      sym (slice-mod (splice n a f v) a f)
      ∙ ap (λ (t : ℕ). t % 2 ^ a)
          (join-mod (n / 2 ^ (f + a)) (v * 2 ^ a + n % 2 ^ a) (f + a) splice-low-lt)
      ∙ join-mod v (n % 2 ^ a) a (mod-lt n (pow-pos a))

  pub field-splice : field (splice n a f v) a f ≡ v
  field-splice =
      sym (slice-div (splice n a f v) a f)
      ∙ ap (λ (t : ℕ). t / 2 ^ a)
          (join-mod (n / 2 ^ (f + a)) (v * 2 ^ a + n % 2 ^ a) (f + a) splice-low-lt)
      ∙ join-div v (n % 2 ^ a) a (mod-lt n (pow-pos a))

  -- A field `d` bits above the end of the other.
  pub field-splice_above : (d g : ℕ) → field (splice n a f v) (f + a + d) g ≡ field n (f + a + d) g
  field-splice_above d g =
      ap (λ (t : ℕ). t % 2 ^ g)
        (join-div-plus (n / 2 ^ (f + a)) (v * 2 ^ a + n % 2 ^ a) (f + a) d splice-low-lt
          ∙ sym (div-pow n (f + a) d))

  -- A field that ends `d` bits below the start of the other.
  pub field-splice_below : (d g b : ℕ) → a ≡ d + (g + b) → field (splice n a f v) b g ≡ field n b g
  field-splice_below d g b e =
      cut (splice n a f v) ∙ ap (λ (t : ℕ). t % 2 ^ (g + b) / 2 ^ b) splice-mod ∙ sym (cut n)
    where
      cut : (m : ℕ) → field m b g ≡ m % 2 ^ a % 2 ^ (g + b) / 2 ^ b
      cut m =
          sym (slice-div m b g)
          ∙ ap (λ (t : ℕ). t / 2 ^ b) (sym (slice-mod m (g + b) d))
          ∙ ap (λ (t : ℕ). m % 2 ^ t % 2 ^ (g + b) / 2 ^ b) (sym e)

  pub splice-splice : (u : ℕ) → splice (splice n a f v) a f u ≡ splice n a f u
  splice-splice u =
      ap₂ (λ (b c : ℕ). b * 2 ^ (f + a) + (u * 2 ^ a + c))
        (join-div (n / 2 ^ (f + a)) (v * 2 ^ a + n % 2 ^ a) (f + a) splice-low-lt) splice-mod

pub splice-field : (n a f : ℕ) → splice n a f (field n a f) ≡ n
splice-field n a f =
    ap (λ (t : ℕ). n / 2 ^ (f + a) * 2 ^ (f + a) + t) (sym (slice n a f))
    ∙ div-add-mod' n (2 ^ (f + a))

-- A number inside a larger one: with `p` bits more at the low end,
module _ (x z p a f : ℕ) (h : z < 2 ^ p) where
  pub field-low : field (x * 2 ^ p + z) (p + a) f ≡ field x a f
  field-low = ap (λ (t : ℕ). t % 2 ^ f) (join-div-plus x z p a h)

  pub splice-low : (v : ℕ) → splice (x * 2 ^ p + z) (p + a) f v ≡ splice x a f v * 2 ^ p + z
  splice-low v =
      let outer : f + (p + a) ≡ p + (f + a) = omega arith in
      let turned : p + (f + a) ≡ f + a + p = omega arith in
      let flip : p + a ≡ a + p = omega arith in
      let low = join-mod-plus x z p a h in
      rw (outer, join-div-plus x z p (f + a) h, turned, pow-plus (f + a) p, flip, low, pow-plus a p)
        (shifted (x / 2 ^ (f + a)) (2 ^ (f + a)) v (2 ^ a) (x % 2 ^ a) (2 ^ p))
    where
      shifted :
          (m w v b r p : ℕ)
          → m * (w * p) + (v * (b * p) + (r * p + z)) ≡ (m * w + (v * b + r)) * p + z
      shifted m w v b r p = omega (
        arith,
        add-mul (m * w) (v * b + r) p,
        add-mul (v * b) r p,
        mul_assoc m w p,
        mul_assoc v b p,
      )

-- and with more bits at the high end.
above : (y x d k : ℕ) → y * 2 ^ (d + k) + x ≡ y * 2 ^ d * 2 ^ k + x
above y x d k =
    ap (λ (t : ℕ). t + x) (ap (λ (t : ℕ). y * t) (pow-plus d k) ∙ sym (mul_assoc y (2 ^ d) (2 ^ k)))

above-mod : (y x d k : ℕ) → (y * 2 ^ (d + k) + x) % 2 ^ k ≡ x % 2 ^ k
above-mod y x d k =
    ap (λ (t : ℕ). t % 2 ^ k) (above y x d k) ∙ mul-add-mod_self_right (y * 2 ^ d) (2 ^ k) x

module _ (y x a f d : ℕ) where
  pub field-high : field (y * 2 ^ (d + (f + a)) + x) a f ≡ field x a f
  field-high =
      sym (slice-div (y * 2 ^ (d + (f + a)) + x) a f)
      ∙ ap (λ (t : ℕ). t / 2 ^ a) (above-mod y x d (f + a))
      ∙ slice-div x a f

  pub splice-high :
      (v : ℕ) → splice (y * 2 ^ (d + (f + a)) + x) a f v ≡ y * 2 ^ (d + (f + a)) + splice x a f v
  splice-high v =
      let w = 2 ^ (f + a) in
      let low : (y * 2 ^ (d + (f + a)) + x) % 2 ^ a ≡ x % 2 ^ a =
        sym (slice-mod (y * 2 ^ (d + (f + a)) + x) a f)
        ∙ ap (λ (t : ℕ). t % 2 ^ a) (above-mod y x d (f + a))
        ∙ slice-mod x a f in
      let high : (y * 2 ^ (d + (f + a)) + x) / 2 ^ (f + a) ≡ y * 2 ^ d + x / 2 ^ (f + a) =
        ap (λ (t : ℕ). t / 2 ^ (f + a)) (above y x d (f + a))
        ∙ mul-add-div_right (pow-pos (f + a)) (y * 2 ^ d) x in
      rw (low, high)
        (omega (arith, add-mul (y * 2 ^ d) (x / 2 ^ (f + a)) (2 ^ (f + a)), above y 0 d (f + a)))

-- The number of a vector of bytes.
abbrev pub be_value : List ℕ → ℕ
be_value [] = 0
be_value (x ∷ xs) = x * 2 ^ (8 * length xs) + be_value xs

pub pow_byte : (n : ℕ) → 2 ^ (8 * suc n) ≡ 2 ^ (8 + 8 * n)
pow_byte n = let e : 8 * suc n ≡ 8 + 8 * n = omega arith in ap (λ (t : ℕ). 2 ^ t) e

pub be_value-lt : (xs : List ℕ) → AreBytes xs → be_value xs < 2 ^ (8 * length xs)
be_value-lt [] h = omega arith
be_value-lt (x ∷ xs) (b, bs) =
    omega
      (arith, pow_byte (length xs), join-lt x (be_value xs) (8 * length xs) (be_value-lt xs bs) 8 b)

pub be_value-append :
    (xs ys : List ℕ) → be_value (xs ++ ys) ≡ be_value xs * 2 ^ (8 * length ys) + be_value ys
be_value-append [] ys = omega arith
be_value-append (x ∷ xs) ys =
    let e : 8 * length (xs ++ ys) ≡ 8 * length xs + 8 * length ys =
      omega (arith, length-append xs ys) in
    rw (e, be_value-append xs ys, pow-plus (8 * length xs) (8 * length ys))
      (omega (
        arith,
        add-mul (x * 2 ^ (8 * length xs)) (be_value xs) (2 ^ (8 * length ys)),
        mul_assoc x (2 ^ (8 * length xs)) (2 ^ (8 * length ys)),
      ))

pub be_value-injective :
    (xs ys : List ℕ)
    → AreBytes xs
    → AreBytes ys
    → length xs ≡ length ys
    → be_value xs ≡ be_value ys
    → xs ≡ ys
be_value-injective [] [] g h l e = refl
be_value-injective [] (y ∷ ys) g h l e = absurd (omega arith)
be_value-injective (x ∷ xs) [] g h l e = absurd (omega arith)
be_value-injective (x ∷ xs) (y ∷ ys) (b, bs) (c, cs) l e =
    let n = 8 * length xs in
    let same : length ys ≡ length xs = omega arith in
    let small : be_value ys < 2 ^ (8 * length xs) = ap_lt same (be_value-lt ys cs) in
    let e' : x * 2 ^ (8 * length xs) + be_value xs ≡ y * 2 ^ (8 * length xs) + be_value ys =
      e ∙ ap (λ (t : ℕ). y * 2 ^ (8 * t) + be_value ys) same in
    let heads : x ≡ y =
      sym (join-div x (be_value xs) (8 * length xs) (be_value-lt xs bs))
      ∙ ap (λ (t : ℕ). t / 2 ^ (8 * length xs)) e'
      ∙ join-div y (be_value ys) (8 * length xs) small in
    let tails : be_value xs ≡ be_value ys =
      sym (join-mod x (be_value xs) (8 * length xs) (be_value-lt xs bs))
      ∙ ap (λ (t : ℕ). t % 2 ^ (8 * length xs)) e'
      ∙ join-mod y (be_value ys) (8 * length xs) small in
    ap₂ (λ a l. a ∷ l) heads (be_value-injective xs ys bs cs (omega arith) tails)
  where
    ap_lt : {n m k : ℕ} → m ≡ n → k < 2 ^ (8 * m) → k < 2 ^ (8 * n)
    ap_lt {k = k} e h = rw (sym e) h

pub AreBytes-append : (xs ys : List ℕ) → AreBytes xs → AreBytes ys → AreBytes (xs ++ ys)
AreBytes-append [] ys g h = h
AreBytes-append (x ∷ xs) ys (b, bs) h = (b, AreBytes-append xs ys bs h)

pub AreBytes-split : (xs ys : List ℕ) → AreBytes (xs ++ ys) → AreBytes xs × AreBytes ys
AreBytes-split [] ys h = (tt, h)
AreBytes-split (x ∷ xs) ys (b, bs) = let (ps, qs) = AreBytes-split xs ys bs in ((b, ps), qs)

-- The bytes `w` of an entry inside a vector, with `d` + `t` bits around the field.
module _ (pre w post : List ℕ) (t f d : ℕ) (bytes : AreBytes post)
    (size : 8 * length w ≡ d + (f + t)) where
  around : 8 * length (w ++ post) ≡ d + (f + (8 * length post + t))
  around = omega (arith, length-append w post)

  whole_value :
      (w' : List ℕ)
      → length w' ≡ length w
      → be_value (pre ++ (w' ++ post))
        ≡ be_value pre * 2 ^ (d + (f + (8 * length post + t)))
          + (be_value w' * 2 ^ (8 * length post) + be_value post)
  whole_value w' e =
      let same : 8 * length (w' ++ post) ≡ d + (f + (8 * length post + t)) =
        omega (arith, length-append w' post) in
      be_value-append pre (w' ++ post)
      ∙ ap₂ (λ (a b : ℕ). be_value pre * 2 ^ a + b) same (be_value-append w' post)

  pub field-inside :
      field (be_value (pre ++ (w ++ post))) (8 * length post + t) f ≡ field (be_value w) t f
  field-inside =
      ap (λ (n : ℕ). field n (8 * length post + t) f) (whole_value w refl)
      ∙ field-high (be_value pre) (be_value w * 2 ^ (8 * length post) + be_value post)
          (8 * length post + t) f d
      ∙ field-low (be_value w) (be_value post) (8 * length post) t f (be_value-lt post bytes)

  pub splice-inside :
      (w' : List ℕ) (v : ℕ)
      → length w' ≡ length w
      → be_value w' ≡ splice (be_value w) t f v
      → be_value (pre ++ (w' ++ post))
        ≡ splice (be_value (pre ++ (w ++ post))) (8 * length post + t) f v
  splice-inside w' v l e =
      let low = be_value w * 2 ^ (8 * length post) + be_value post in
      whole_value w' l
      ∙ ap
          (λ (n : ℕ).
            be_value pre * 2 ^ (d + (f + (8 * length post + t)))
            + (n * 2 ^ (8 * length post) + be_value post))
          e
      ∙ ap (λ (n : ℕ). be_value pre * 2 ^ (d + (f + (8 * length post + t))) + n)
          (sym (
            splice-low (be_value w) (be_value post) (8 * length post) t f (be_value-lt post bytes)
              v))
      ∙ sym (splice-high (be_value pre) low (8 * length post + t) f d v)
      ∙ ap (λ (n : ℕ). splice n (8 * length post + t) f v) (sym (whole_value w refl))
