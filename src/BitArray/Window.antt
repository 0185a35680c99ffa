-- ===== src/BitArray/Window.antt =====
-- The loops over the bytes that an entry spreads over.
use gensync_core.Prelude.{
  ℕ, zero, suc, ◌+◌, ◌*◌, ◌/◌, ◌%◌, ◌^◌, ◌≤◌, ◌<◌, ◌≡◌, refl, sym, ap, ap₂, ◌∙◌, List, [], ◌∷◌,
  ◌++◌, length, length-append, arith,
}
use mathlib.Core.List.{append_assoc}
use native.Mathlib.Nat.{add-mul, mul_assoc, mod-eq_of_lt, div-add-mod', le-mul_of_pos_right}
use gensync_core.Prelude.Fields.{bit_or-shifted}
use gensync_core.Prelude.Powers.{pow-plus, pow-pos, div-pow}
use gensync_core.Prelude.Outcome.{ok, load_at, store_at}
use gensync_core.Ntl.{AreBytes}
use gensync_core.BitArray.{get_middle, bytes_down, set_middle}
use gensync_core.BitArray.Values.{be_value, pow_byte}
use gensync_core.BitArray.NextByte.{next_f_byte_lem}

module _ {ℓ} {A : Type ℓ} (x : A) (post : List A) where
  pub load_at-append : (pre : List A) (k : ℕ) → k ≡ length pre → load_at (pre ++ x ∷ post) k ≡ ok x
  unfolding load_at
  load_at-append [] zero e = refl
  load_at-append [] (suc k) e = absurd (omega arith)
  load_at-append (y ∷ pre) zero e = absurd (omega arith)
  load_at-append (y ∷ pre) (suc k) e = load_at-append pre k (omega arith)

  pub store_at-append :
      (v : A) (pre : List A) (k : ℕ)
      → k ≡ length pre
      → store_at (pre ++ x ∷ post) k v ≡ ok (pre ++ v ∷ post)
  unfolding store_at
  store_at-append v [] zero e = refl
  store_at-append v [] (suc k) e = absurd (omega arith)
  store_at-append v (y ∷ pre) zero e = absurd (omega arith)
  store_at-append v (y ∷ pre) (suc k) e = rw (store_at-append v pre k (omega arith))

joined :
    (entry x n m : ℕ)
    → (entry * 2 ^ 8 + x) * 2 ^ (8 * n) + m ≡ entry * 2 ^ (8 * suc n) + (x * 2 ^ (8 * n) + m)
joined entry x n m = omega (
  arith,
  add-mul (entry * 2 ^ 8) x (2 ^ (8 * n)),
  mul_assoc entry (2 ^ 8) (2 ^ (8 * n)),
  ap (λ (t : ℕ). entry * t) (pow_byte n ∙ pow-plus 8 (8 * n)),
)

pub get_middle_lem :
    (pre ms post : List ℕ) (k entry : ℕ)
    → k ≡ length pre
    → AreBytes ms
    → entry * 2 ^ (8 * length ms) + be_value ms < 2 ^ 32
    → get_middle (pre ++ (ms ++ post)) k (length ms) entry
      ≡ ok (entry * 2 ^ (8 * length ms) + be_value ms)
unfolding get_middle
get_middle_lem pre [] post k entry e b h = ap ok (times_one entry)
  where
    times_one : (n : ℕ) → n ≡ n * 1 + 0
    times_one n = omega arith
get_middle_lem pre (x ∷ ms) post k entry e (b, bs) h =
    let sum = joined entry x (length ms) (be_value ms) in
    let room : entry * 2 ^ 8 + x < 2 ^ 32 =
      omega (arith, sum, le-mul_of_pos_right (entry * 2 ^ 8 + x) (pow-pos (8 * length ms))) in
    let small : entry * 2 ^ 8 % 2 ^ 32 ≡ entry * 2 ^ 8 = mod-eq_of_lt (omega arith) in
    let next : k + 1 ≡ length (pre ++ x ∷ []) = omega (arith, length-append pre (x ∷ [])) in
    rw (load_at-append x (ms ++ post) pre k e, small, bit_or-shifted 8 entry x b)
      (sym (
          ap (λ (st : List ℕ). get_middle st (k + 1) (length ms) (entry * 2 ^ 8 + x))
            (append_assoc pre (x ∷ []) (ms ++ post)))
        ∙ get_middle_lem (pre ++ x ∷ []) ms post (k + 1) (entry * 2 ^ 8 + x) next bs (omega arith)
        ∙ ap ok sum)

-- The bytes that the loop of `setEntry` writes, where `s` bits are left for the last byte.
abbrev pub middle_bytes : ℕ → ℕ → ℕ → List ℕ
middle_bytes v s zero = []
middle_bytes v s (suc n) = v / 2 ^ (8 * n + s) % 256 ∷ middle_bytes v s n

pub length-middle_bytes : (v s n : ℕ) → length (middle_bytes v s n) ≡ n
length-middle_bytes v s zero = refl
length-middle_bytes v s (suc n) = ap suc (length-middle_bytes v s n)

pub middle_bytes-AreBytes : (v s n : ℕ) → AreBytes (middle_bytes v s n)
middle_bytes-AreBytes v s zero = tt
middle_bytes-AreBytes v s (suc n) = (omega arith, middle_bytes-AreBytes v s n)

pub be_value-middle_bytes :
    (v s n : ℕ) → v / 2 ^ (8 * n + s) * 2 ^ (8 * n) + be_value (middle_bytes v s n) ≡ v / 2 ^ s
be_value-middle_bytes v s zero =
    let none_left : 8 * 0 + s ≡ s = omega arith in
    omega (arith, ap (λ (t : ℕ). v / 2 ^ t) none_left)
be_value-middle_bytes v s (suc n) =
    let u = v / 2 ^ (8 * n + s) in
    let more : 8 * suc n + s ≡ 8 * n + s + 8 = omega arith in
    rw (more, div-pow v (8 * n + s) 8, length-middle_bytes v s n, pow_byte n, pow-plus 8 (8 * n))
      (split u (2 ^ (8 * n)) (be_value (middle_bytes v s n)) ∙ be_value-middle_bytes v s n)
  where
    split : (u p b : ℕ) → u / 256 * (256 * p) + (u % 256 * p + b) ≡ u * p + b
    split u p b = omega (
      arith,
      ap (λ (t : ℕ). t * p) (sym (div-add-mod' u 256)),
      add-mul (u / 256 * 256) (u % 256) p,
      mul_assoc (u / 256) 256 p,
    )

module _ (v f_size k : ℕ) (fits : f_size ≤ 8 * k) (needed : 8 * k < f_size + 8)
    (small : k < 5) where
  pub set_middle_lem :
      (pre ms post : List ℕ) (i c s : ℕ)
      → i ≡ length pre
      → f_size ≡ c + (8 * length ms + s)
      → set_middle f_size (bytes_down v k) (pre ++ (ms ++ post)) i (length ms) c
        ≡ ok (pre ++ (middle_bytes v s (length ms) ++ post), c + 8 * length ms)
  unfolding set_middle
  set_middle_lem pre [] post i c s e g = ap (λ (t : ℕ). ok (pre ++ post, t)) (no_more c)
    where
      no_more : (c : ℕ) → c ≡ c + 0
      no_more c = omega arith
  set_middle_lem pre (x ∷ ms) post i c s e g =
      let n = length ms in
      let b = v / 2 ^ (8 * n + s) % 256 in
      let next : i + 1 ≡ length (pre ++ b ∷ []) = omega (arith, length-append pre (b ∷ [])) in
      let rest = middle_bytes v s n ++ post in
      let count : c + 8 + 8 * n ≡ c + 8 * suc n = omega arith in
      rw
        (
          next_f_byte_lem v f_size k fits needed small c (8 * n + s) (omega arith),
          store_at-append x (ms ++ post) b pre i e,
        )
        (sym (
            ap (λ (st : List ℕ). set_middle f_size (bytes_down v k) st (i + 1) n (c + 8))
              (append_assoc pre (b ∷ []) (ms ++ post)))
          ∙ set_middle_lem (pre ++ b ∷ []) ms post (i + 1) (c + 8) s next (omega arith)
          ∙ ap₂ (λ (st : List ℕ) (t : ℕ). ok (st, t)) (append_assoc pre (b ∷ []) rest) count)
