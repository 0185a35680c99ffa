-- ===== src/Communicant/Vectors.antt =====
-- The round trip of a vector of integers modulo some number, over one large integer.
use gensync_core.Prelude.{
  ℕ, zero, suc, ◌+◌, ◌-◌, ◌*◌, ◌/◌, ◌%◌, ◌^◌, ◌<◌, ◌≡◌, refl, ap, ◌∙◌, List, [], ◌∷◌, All, arith,
  ◌==◌, false,
}
use native.Mathlib.Nat.{
  mod-eq_of_lt, add-mul-mod_self_left, mul-add-div_right, div-eq_of_lt, add-mod_right,
}
use gensync_core.Prelude.Int.{pos}
use gensync_core.Prelude.Outcome.{ok}
use gensync_core.Ntl.{Ntl}
use gensync_core.Communicant.{Communicant, pack_vec, unpack_vec, send_vec, recv_vec}
use gensync_core.Communicant.Wire.{Sends, Receives, counted, delivered}
use gensync_core.Communicant.Numbers.{wire_zz, Sends-send_zz, Receives-recv_zz}

last_digit : (q b d : ℕ) → d < b → ((q * b + d) % b ≡ d) × ((q * b + d) / b ≡ q)
last_digit q b d h = (
  ap (λ t. t % b) (swapped q b d) ∙ add-mul-mod_self_left d b q ∙ mod-eq_of_lt h,
  mul-add-div_right {m = b} (omega arith) q d ∙ omega (arith, div-eq_of_lt h),
)
  where
    swapped : (q b d : ℕ) → q * b + d ≡ d + b * q
    swapped q b d = omega arith

digit_back : (x m : ℕ) → x < m → (x + 1 + (m - 1)) % m ≡ x
digit_back x m h = ap (λ t. t % m) (whole x m h) ∙ add-mod_right x m ∙ mod-eq_of_lt h
  where
    whole : (x m : ℕ) → x < m → x + 1 + (m - 1) ≡ x + m
    whole x m h = omega arith

-- Unpacking ends, with the list that was packed.
pub unpack_vec-pack_vec :
    (m : ℕ) (xs : List ℕ) (fuel : ℕ)
    → All (λ x. x < m) xs
    → pack_vec m xs < fuel
    → unpack_vec fuel m (pack_vec m xs) ≡ ok xs
unfolding unpack_vec pack_vec
unpack_vec-pack_vec m [] zero h few = absurd (omega arith)
unpack_vec-pack_vec m [] (suc fuel) h few = refl
unpack_vec-pack_vec m (x ∷ xs) zero h few = absurd (omega arith)
unpack_vec-pack_vec m (x ∷ xs) (suc fuel) h few =
    let rest = pack_vec m xs in
    let (low, high) = last_digit rest (m + 1) (x + 1) (omega (arith, h.0)) in
    let shape : pack_vec m (x ∷ xs) ≡ rest * (m + 1) + (x + 1) = omega arith in
    let again = unpack_vec-pack_vec m xs fuel h.1 (shorter rest m x fuel few) in
    rw
      (
        nonzero (rest * (m + 1)) x,
        ap (λ t. t / (m + 1)) shape ∙ high,
        again,
        ap (λ t. t % (m + 1)) shape ∙ low,
        digit_back x m h.0,
      )
      refl
  where
    nonzero : (t x : ℕ) → (t + x + 1 == 0) ≡ false
    nonzero t x = ground arith

    shorter : (r m x fuel : ℕ) → r * (m + 1) + x + 1 < suc fuel → r < fuel
    shorter r m x fuel h = omega arith

module _ (ntl : Ntl) where
  pub Sends-send_vec :
      (m : ℕ) (xs : List ℕ) → Sends (send_vec ntl m xs) (wire_zz ntl (pos (pack_vec m xs)))
  unfolding send_vec
  Sends-send_vec m xs = record { sent = (Sends-send_zz ntl (pos (pack_vec m xs))).sent }

  pub Receives-recv_vec :
      (m : ℕ) (xs : List ℕ)
      → All (λ x. x < m) xs
      → ntl.num_bytes (pos (pack_vec m xs)) < 2 ^ 31
      → Receives (recv_vec ntl m) (wire_zz ntl (pos (pack_vec m xs))) xs
  unfolding recv_vec
  Receives-recv_vec m xs h few = record {
    received = λ c rest e.
        rw
          (
            (Receives-recv_zz ntl (pos (pack_vec m xs)) few).received c rest e,
            unpack_vec-pack_vec m xs (pack_vec m xs + 1) h (omega arith),
          )
          refl;
  }

  -- A vector of integers modulo m that is sent over an empty stream is received as it was: the loop
  -- that takes it apart ends. The packed integer has less than 2 ^ 31 bytes.
  pub recv_vec-send_vec :
      (m : ℕ) (xs : List ℕ) (c : Communicant)
      → All (λ x. x < m) xs
      → ntl.num_bytes (pos (pack_vec m xs)) < 2 ^ 31
      → c.stream ≡ []
      → (n : ℕ) × (recv_vec ntl m (send_vec ntl m xs c) ≡ ok (xs, counted n c))
  recv_vec-send_vec m xs c h few e =
      (_, delivered (Sends-send_vec m xs) (Receives-recv_vec m xs h few) c e)
