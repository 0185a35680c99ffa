-- ===== src/Platform.antt =====
-- What the code takes from outside the repository.
-- `ZZ` is NTL's unbounded integer; keys and values are not negative, so a number stands for one.
-- `xor` is NTL's `^` on such integers, with the laws of the exclusive or that NTL documents.
-- `sizeof_zz` is `sizeof(ZZ)`. `shash` is `std::hash<std::string>` of the decimal text (`toStr`) of
-- a number, a 64-bit value, and `shash_pair` that of the texts of two numbers, one after the other;
-- nothing is assumed of how they spread. `to_int` is the 32-bit pattern of NTL's `to_int` of an
-- integer, which is the integer where an `int` holds it, and `shash_long` the hash of the text of its
-- `to_long`.
use gensync_core.Prelude.{ℕ, ◌≡◌, ◌^◌, ◌%◌, bit_xor, ◌*◌, ◌+◌, ◌<◌, arith}
use gensync_core.Prelude.Xor.{bit_xor_comm, bit_xor_assoc, zero-bit_xor, bit_xor_self, bit_xor-lt}

pub record Platform : Type 0 where
  pub xor : ℕ → ℕ → ℕ
  pub xor_comm : (a b : ℕ) → xor a b ≡ xor b a
  pub xor_assoc : (a b c : ℕ) → xor (xor a b) c ≡ xor a (xor b c)
  pub zero-xor : (a : ℕ) → xor 0 a ≡ a
  pub xor_self : (a : ℕ) → xor a a ≡ 0
  pub xor-lt : (k a b : ℕ) → a < 2 ^ k → b < 2 ^ k → xor a b < 2 ^ k
  pub sizeof_zz : ℕ
  pub shash : ℕ → ℕ
  pub shash_pair : ℕ → ℕ → ℕ
  pub to_int : ℕ → ℕ
  pub to_int_lem : (a : ℕ) → a < 2 ^ 31 → to_int a ≡ a
  pub shash_long : ℕ → ℕ

-- A platform for examples: the hash is an affine map modulo 2 ^ 64.
abbrev pub sample_platform : Platform
sample_platform = record {
  xor = bit_xor;
  xor_comm = bit_xor_comm;
  xor_assoc = bit_xor_assoc;
  zero-xor = zero-bit_xor;
  xor_self = bit_xor_self;
  xor-lt = bit_xor-lt;
  sizeof_zz = 8;
  shash = λ n. (n * 6364136223846793005 + 1442695040888963407) % 2 ^ 64;
  shash_pair = λ m n. (m * 31 + n * 2862933555777941757 + 3037000493) % 2 ^ 64;
  to_int = λ n. n % 2 ^ 32;
  to_int_lem = λ a h. omega arith;
  shash_long = λ n. (n * 2862933555777941757 + 7046029254386353087) % 2 ^ 64;
}
