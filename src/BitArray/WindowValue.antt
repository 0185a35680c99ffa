-- ===== src/BitArray/WindowValue.antt =====
-- The number of the bytes of one entry, and the field of it that is the entry.
use gensync_core.Prelude.{
  ℕ, ◌+◌, ◌*◌, ◌/◌, ◌%◌, ◌^◌, ◌<◌, ◌≡◌, sym, ap, ◌∙◌, List, [], ◌∷◌, ◌++◌, length, length-append,
  arith,
}
use native.Mathlib.Nat.{add-mul, mul_assoc, div-add-mod', mul-add-div_right, mul-add-mod_self_right}
use gensync_core.Prelude.Powers.{
  pow-plus, pow-pos, slice-div, join-mod-plus, join-div-plus, join-lt,
}
use gensync_core.BitArray.Values.{be_value, be_value-append, field, splice}

-- The bytes of an entry: the first, those inside, and the last.
abbrev pub window : ℕ → List ℕ → ℕ → List ℕ
window x ms y = x ∷ (ms ++ y ∷ [])

-- The number of these bytes, by the number `n` of bytes inside and their number `m`.
abbrev pub window_value : ℕ → ℕ → ℕ → ℕ → ℕ
window_value n x m y = x * 2 ^ (8 * n + 8) + (m * 2 ^ 8 + y)

pub be_value-window :
    (x y : ℕ) (ms : List ℕ) → be_value (window x ms y) ≡ window_value (length ms) x (be_value ms) y
be_value-window x y ms =
    let size : 8 * length (ms ++ y ∷ []) ≡ 8 * length ms + 8 =
      omega (arith, length-append ms (y ∷ [])) in
    rw (size, be_value-append ms (y ∷ []))
      (ap (λ (t : ℕ). x * 2 ^ (8 * length ms + 8) + (be_value ms * 2 ^ 8 + t)) (times_one y))
  where
    times_one : (y : ℕ) → y * 1 + 0 ≡ y
    times_one y = omega arith

-- `h` bits of the entry are in the first byte, and `t` bits of the last byte are after it.
module _ (n h s t f : ℕ) (x m y : ℕ) (last : y < 2 ^ 8) (inside : m < 2 ^ (8 * n))
    (whole : s + t ≡ 8) (size : f ≡ h + (8 * n + s)) where
  byte : 2 ^ 8 ≡ 2 ^ s * 2 ^ t
  byte = sym (ap (λ (k : ℕ). 2 ^ k) whole) ∙ pow-plus s t

  turned : f + t ≡ h + (8 * n + 8)
  turned = omega arith

  -- What the loop of `getEntry` gives.
  abbrev pub loaded : ℕ
  loaded = x % 2 ^ h * 2 ^ (8 * n) + m

  rest-lt : m * 2 ^ 8 + y < 2 ^ (8 * n + 8)
  rest-lt = join-lt m y 8 last (8 * n) inside

  low-eq : x % 2 ^ h * 2 ^ (8 * n + 8) + (m * 2 ^ 8 + y) ≡ loaded * 2 ^ s * 2 ^ t + y
  low-eq = omega (
    arith,
    ap (λ (k : ℕ). x % 2 ^ h * k) (pow-plus (8 * n) 8),
    mul_assoc (x % 2 ^ h) (2 ^ (8 * n)) (2 ^ 8),
    add-mul (x % 2 ^ h * 2 ^ (8 * n)) m (2 ^ 8),
    ap (λ (k : ℕ). loaded * k) byte,
    mul_assoc loaded (2 ^ s) (2 ^ t),
  )

  pub field-window : field (window_value n x m y) t f ≡ loaded * 2 ^ s + y / 2 ^ t
  field-window =
      sym (slice-div (window_value n x m y) t f)
      ∙ ap (λ (k : ℕ). window_value n x m y % 2 ^ k / 2 ^ t) turned
      ∙ ap (λ (k : ℕ). k / 2 ^ t) (join-mod-plus x (m * 2 ^ 8 + y) (8 * n + 8) h rest-lt ∙ low-eq)
      ∙ mul-add-div_right (pow-pos t) (loaded * 2 ^ s) y

  -- What `setEntry` writes into the first byte, into those inside, and into the last.
  module _ (v inner : ℕ) (written : v / 2 ^ (8 * n + s) * 2 ^ (8 * n) + inner ≡ v / 2 ^ s) where
    abbrev pub new_first : ℕ
    new_first = x / 2 ^ h * 2 ^ h + v / 2 ^ (8 * n + s)

    abbrev pub new_last : ℕ
    new_last = v % 2 ^ s * 2 ^ t + y % 2 ^ t

    window-mod : window_value n x m y % 2 ^ t ≡ y % 2 ^ t
    window-mod =
        let flat : window_value n x m y ≡ (x * 2 ^ (8 * n) + m) * 2 ^ s * 2 ^ t + y = omega (
          arith,
          ap (λ (k : ℕ). x * k) (pow-plus (8 * n) 8),
          mul_assoc x (2 ^ (8 * n)) (2 ^ 8),
          add-mul (x * 2 ^ (8 * n)) m (2 ^ 8),
          ap (λ (k : ℕ). (x * 2 ^ (8 * n) + m) * k) byte,
          mul_assoc (x * 2 ^ (8 * n) + m) (2 ^ s) (2 ^ t),
        ) in
        ap (λ (k : ℕ). k % 2 ^ t) flat
        ∙ mul-add-mod_self_right ((x * 2 ^ (8 * n) + m) * 2 ^ s) (2 ^ t) y

    window-div : window_value n x m y / 2 ^ (f + t) ≡ x / 2 ^ h
    window-div =
        ap (λ (k : ℕ). window_value n x m y / 2 ^ k) flip
        ∙ join-div-plus x (m * 2 ^ 8 + y) (8 * n + 8) h rest-lt
      where
        flip : f + t ≡ 8 * n + 8 + h
        flip = omega arith

    pub splice-window :
        splice (window_value n x m y) t f v ≡ window_value n new_first inner new_last
    splice-window =
        rw (window-mod, window-div, turned, pow-plus h (8 * n + 8))
          (omega (
            arith,
            mul_assoc (x / 2 ^ h) (2 ^ h) (2 ^ (8 * n + 8)),
            add-mul (x / 2 ^ h * 2 ^ h) (v / 2 ^ (8 * n + s)) (2 ^ (8 * n + 8)),
            ap (λ (k : ℕ). v / 2 ^ (8 * n + s) * k) (pow-plus (8 * n) 8),
            mul_assoc (v / 2 ^ (8 * n + s)) (2 ^ (8 * n)) (2 ^ 8),
            add-mul (v / 2 ^ (8 * n + s) * 2 ^ (8 * n)) inner (2 ^ 8),
            ap (λ (k : ℕ). k * 2 ^ 8) written,
            ap (λ (k : ℕ). v / 2 ^ s * k) byte,
            mul_assoc (v / 2 ^ s) (2 ^ s) (2 ^ t),
            add-mul (v / 2 ^ s * 2 ^ s) (v % 2 ^ s) (2 ^ t),
            ap (λ (k : ℕ). k * 2 ^ t) (div-add-mod' v (2 ^ s)),
          ))
