-- ===== src/Bloom/Tests.antt =====
-- Runs of the Bloom filter on small inputs.
use gensync_core.Prelude.{◌≡◌, refl, true, false, [], ◌∷◌, ◌++◌, arith, replicate}
use gensync_core.Prelude.Outcome.{ok, ◌>>=◌, stop, undefined}
use gensync_core.Platform.{sample_platform}
use gensync_core.Ntl.{sample_ntl}
use gensync_core.Bloom.{BloomFilter, insert_set, exist, to_zz, zz_to_bf}
use gensync_core.Bloom.Member.{exist-insert_set}
use gensync_core.Bloom.Transfer.{zz_to_bf-to_zz, zz_to_bf-to_zz_past}

abbrev blank : BloomFilter
blank = record { bits = replicate 16 false; num_hashes = 2 }

abbrev eight_bits : BloomFilter
eight_bits = record {
  bits = true ∷ false ∷ true ∷ true ∷ false ∷ false ∷ false ∷ true ∷ [];
  num_hashes = 3;
}

abbrev three_bits : BloomFilter
three_bits = record { bits = true ∷ false ∷ true ∷ []; num_hashes = 3 }

exist-insert_set_example :
    (insert_set sample_platform ((3 ∷ []) ++ 5 ∷ 8 ∷ []) blank >>= exist sample_platform 5)
    ≡ ok true
exist-insert_set_example = exist-insert_set sample_platform 5 (3 ∷ []) (8 ∷ []) blank (omega arith)

zz_to_bf-to_zz_example :
    zz_to_bf sample_ntl eight_bits (to_zz sample_ntl eight_bits) ≡ ok eight_bits
zz_to_bf-to_zz_example = zz_to_bf-to_zz sample_ntl 1 eight_bits refl

zz_to_bf-to_zz_past_example :
    zz_to_bf sample_ntl three_bits (to_zz sample_ntl three_bits) ≡ stop undefined
zz_to_bf-to_zz_past_example =
    zz_to_bf-to_zz_past sample_ntl three_bits (false ∷ true ∷ []) refl (omega arith)
