-- ===== src/Bloom/Unpack.antt =====
-- The loops of `ZZtoBF`: which bits they write, and where they write past the end.
use gensync_core.Prelude.{
  ℕ, zero, suc, ◌+◌, ◌*◌, ◌/◌, ◌%◌, ◌^◌, ◌≤◌, ◌<◌, ◌≡◌, refl, sym, ap, ◌∙◌, Bool, false, List, [],
  ◌∷◌, ◌++◌, length, set, drop, replicate, length-append, length-drop, drop-drop, length-set, arith,
  ◌⊎◌, inl, inr,
}
use native.Mathlib.Nat.{
  mod-lt, div-add-mod, add-mul-mod_self_left, zero-add, pow-suc, mod-eq_of_lt, one-le-pow,
}
use mathlib.Core.List.{append_assoc}
use gensync_core.Prelude.Outcome.{ok, stop, store_at, store_at_lem, store_at_past, undefined}
use gensync_core.Ntl.{AreBytes, le_value}
use gensync_core.Bloom.{bit_at, unpack_byte, unpack_loop}
use gensync_core.Bloom.Bits.{bit, val_bits, val_bits-append, val_bits-replicate}

-- The low `k` bits of a byte.
abbrev pub bits_of : ℕ → ℕ → List Bool
bits_of zero byte = []
bits_of (suc k) byte = bits_of k byte ++ bit_at byte k ∷ []

abbrev pub all_bits : List ℕ → List Bool
all_bits [] = []
all_bits (b ∷ bs) = bits_of 8 b ++ all_bits bs

pub length-bits_of : (k byte : ℕ) → length (bits_of k byte) ≡ k
length-bits_of zero byte = refl
length-bits_of (suc k) byte =
    omega (arith, length-append (bits_of k byte) (bit_at byte k ∷ []), length-bits_of k byte)

pub bit_at-val : (byte j : ℕ) → bit (bit_at byte j) ≡ byte / 2 ^ j % 2
bit_at-val byte j = ground arith

pub mod-next : (a q : ℕ) → 0 < q → a % (q * 2) ≡ a % q + q * (a / q % 2)
mod-next a q h =
    let d = a / q in
    let r = a % q + q * (d % 2) in
    let small : r < q * 2 = next_lt q (a % q) (d % 2) (mod-lt a h) (omega arith) in
    let whole : a ≡ r + q * 2 * (d / 2) =
      omega (arith, div-add-mod a q, ap (λ (t : ℕ). q * t) (div-add-mod d 2)) in
    ap (λ t. t % (q * 2)) whole ∙ add-mul-mod_self_left r (q * 2) (d / 2) ∙ mod-eq_of_lt small
  where
    next_lt : (q r b : ℕ) → r < q → b < 2 → r + q * b < q * 2
    next_lt q r zero h g = omega arith
    next_lt q r (suc zero) h g = omega arith
    next_lt q r (suc (suc b)) h g = absurd (omega arith)

pub val_bits-bits_of : (k byte : ℕ) → val_bits (bits_of k byte) ≡ byte % 2 ^ k
val_bits-bits_of zero byte = omega arith
val_bits-bits_of (suc k) byte = omega (
  arith,
  val_bits-append (bits_of k byte) (bit_at byte k ∷ []),
  val_bits-bits_of k byte,
  ap (λ (t : ℕ). 2 ^ t * (bit (bit_at byte k) + 0)) (length-bits_of k byte),
  ap (λ (t : ℕ). 2 ^ k * (t + 0)) (bit_at-val byte k),
  mod-next byte (2 ^ k) (one-le-pow k 2 (omega arith)),
  ap (λ t. byte % t) (pow-suc 2 k),
)

pub all_bits-val :
    (bs : List ℕ)
    → AreBytes bs
    → (val_bits (all_bits bs) ≡ le_value bs) × (length (all_bits bs) ≡ 8 * length bs)
all_bits-val [] h = (refl, refl)
all_bits-val (b ∷ bs) h =
    let (v, w) = all_bits-val bs h.1 in
    (
      omega (
        arith,
        val_bits-append (bits_of 8 b) (all_bits bs),
        val_bits-bits_of 8 b,
        ap (λ (t : ℕ). 2 ^ t * val_bits (all_bits bs)) (length-bits_of 8 b),
      ),
      omega (arith, length-append (bits_of 8 b) (all_bits bs), length-bits_of 8 b),
    )

pub set-append :
    (xs ys : List Bool) (j : ℕ) (v : Bool) → set (xs ++ ys) (length xs + j) v ≡ xs ++ set ys j v
set-append [] ys j v = ap (λ (t : ℕ). set ys t v) (zero-add j)
set-append (x ∷ xs) ys j v =
    ap (λ (t : ℕ). set (x ∷ (xs ++ ys)) t v) (suc-add (length xs) j)
    ∙ ap (λ l. x ∷ l) (set-append xs ys j v)
  where
    suc-add : (a b : ℕ) → suc a + b ≡ suc (a + b)
    suc-add a b = omega arith

pub drop-set :
    (ys : List Bool) (j : ℕ) (v : Bool) → j < length ys → drop j (set ys j v) ≡ v ∷ drop (suc j) ys
drop-set [] j v h = elim h [ ]
drop-set (y ∷ ys) zero v h = refl
drop-set (y ∷ ys) (suc j) v h = drop-set ys j v (omega arith)

pub unpack_byte_lem :
    (k base byte : ℕ) (xs ys : List Bool)
    → length xs ≡ base
    → k ≤ length ys
    → unpack_byte k base byte (xs ++ ys) ≡ ok (xs ++ (bits_of k byte ++ drop k ys))
unfolding unpack_byte
unpack_byte_lem zero base byte xs ys e h = refl
unpack_byte_lem (suc k) base byte xs ys e h =
    let v = bit_at byte k in
    let stored : store_at (xs ++ ys) (base + k) v ≡ ok (xs ++ set ys k v) =
      store_at_lem (xs ++ ys) (base + k) v (omega (arith, length-append xs ys))
      ∙ ap (λ (t : ℕ). ok (set (xs ++ ys) (t + k) v)) (sym e)
      ∙ ap ok (set-append xs ys k v) in
    rw stored (
      unpack_byte_lem k base byte xs (set ys k v) e (omega (arith, length-set ys k v))
      ∙ ap (λ l. ok (xs ++ l))
          (ap (λ l. bits_of k byte ++ l) (drop-set ys k v h)
            ∙ sym (append_assoc (bits_of k byte) (v ∷ []) (drop (suc k) ys))))

pub unpack_loop_lem :
    (i : ℕ) (bytes : List ℕ) (xs ys : List Bool)
    → length xs ≡ 8 * i
    → 8 * length bytes ≤ length ys
    → unpack_loop i bytes (xs ++ ys) ≡ ok (xs ++ (all_bits bytes ++ drop (8 * length bytes) ys))
unfolding unpack_loop
unpack_loop_lem i [] xs ys e h = refl
unpack_loop_lem i (b ∷ bytes) xs ys e h =
    let front = xs ++ bits_of 8 b in
    let long : length front ≡ 8 * (i + 1) =
      omega (arith, length-append xs (bits_of 8 b), length-bits_of 8 b) in
    let eights : 8 + 8 * length bytes ≡ 8 * suc (length bytes) = omega arith in
    let rest =
      unpack_loop_lem (i + 1) bytes front (drop 8 ys) long (omega (arith, length-drop 8 ys)) in
    rw (unpack_byte_lem 8 (8 * i) b xs ys e (omega arith)) (
      ap (unpack_loop (i + 1) bytes) (sym (append_assoc xs (bits_of 8 b) (drop 8 ys)))
      ∙ rest
      ∙ ap ok (
          append_assoc xs (bits_of 8 b) _
          ∙ ap (λ l. xs ++ l)
              (ap (λ l. bits_of 8 b ++ (all_bits bytes ++ l)) (drop-drop 8 (8 * length bytes) ys)
                ∙ ap (λ (t : ℕ). bits_of 8 b ++ (all_bits bytes ++ drop t ys)) eights)))

-- A byte that fits is written without a change of size.
pub unpack_byte_fits :
    (k base byte : ℕ) (bits : List Bool)
    → base + k ≤ length bits
    → (bits' : List Bool) × (unpack_byte k base byte bits ≡ ok bits') × (length bits' ≡ length bits)
unfolding unpack_byte
unpack_byte_fits zero base byte bits h = (bits, refl, refl)
unpack_byte_fits (suc k) base byte bits h =
    let v = bit_at byte k in
    let next = set bits (base + k) v in
    let same = length-set bits (base + k) v in
    let (bits', run, len) = unpack_byte_fits k base byte next (omega arith) in
    (bits', rw (store_at_lem bits (base + k) v (omega arith)) run, len ∙ same)

pub unpack_byte_over :
    (base byte : ℕ) (bits : List Bool)
    → length bits < base + 8
    → unpack_byte 8 base byte bits ≡ stop undefined
unfolding unpack_byte
unpack_byte_over base byte bits h = rw (store_at_past bits (base + 7) (bit_at byte 7) (omega arith))

pub le_or_lt : (a b : ℕ) → (a ≤ b) ⊎ (b < a)
le_or_lt a b = ground arith

-- Bytes that do not fit are written past the end.
pub unpack_loop_past :
    (i : ℕ) (bytes : List ℕ) (bits : List Bool)
    → 8 * i ≤ length bits
    → length bits < 8 * (i + length bytes)
    → unpack_loop i bytes bits ≡ stop undefined
unfolding unpack_loop
unpack_loop_past i [] bits g h = absurd (omega arith)
unpack_loop_past i (b ∷ bytes) bits g h = elim (le_or_lt (8 * i + 8) (length bits)) [
  | inl fits ↦
      let (bits', run, len) = unpack_byte_fits 8 (8 * i) b bits fits in
      rw run (unpack_loop_past (i + 1) bytes bits' (omega arith) (omega arith))
  | inr over ↦ rw (unpack_byte_over (8 * i) b bits over)
]

pub bytes_pow : (m : ℕ) → 256 ^ m ≡ 2 ^ (8 * m)
bytes_pow zero = refl
bytes_pow (suc m) =
    omega (arith, pow-suc 256 m, bytes_pow m, ap (λ (t : ℕ). 2 ^ t) (eight m), pow_eight (8 * m))
  where
    eight : (m : ℕ) → 8 * suc m ≡ suc (suc (suc (suc (suc (suc (suc (suc (8 * m))))))))
    eight m = omega arith

    pow_eight : (n : ℕ) → 2 ^ suc (suc (suc (suc (suc (suc (suc (suc n))))))) ≡ 2 ^ n * 256
    pow_eight n = omega (
      arith,
      pow-suc 2 n,
      pow-suc 2 (n + 1),
      pow-suc 2 (n + 2),
      pow-suc 2 (n + 3),
      pow-suc 2 (n + 4),
      pow-suc 2 (n + 5),
      pow-suc 2 (n + 6),
      pow-suc 2 (n + 7),
    )

pub val_bits-drop-replicate : (k n : ℕ) → val_bits (drop k (replicate n false)) ≡ 0
val_bits-drop-replicate zero n = val_bits-replicate n
val_bits-drop-replicate (suc k) zero = refl
val_bits-drop-replicate (suc k) (suc n) = val_bits-drop-replicate k n
