-- ===== src/DataObject.antt =====
-- Elements of the sets: src/Data/DataObject.cpp. An element is its integer, `myBuffer`; its time
-- stamp and identifier play no part in the protocols. `RepIsInt` is false, as it is set.
use gensync_core.Prelude.{ℕ, ◌≡◌, ◌∙◌, List}
use native.Mathlib.Nat.{mod-eq_of_lt}
use gensync_core.Prelude.Int.{pos}
use gensync_core.Ntl.{Ntl}

module _ (ntl : Ntl) where
  open ntl use {zz_from_bytes, bytes_from_zz, num_bytes}

  -- A string is the list of its bytes.
  unfoldable pub pack : List ℕ → ℕ
  pack the_str = zz_from_bytes the_str

  unfoldable pub unpack : ℕ → List ℕ
  unpack num = bytes_from_zz (pos num) (num_bytes (pos num))

  -- Packing what was unpacked gives back the integer.
  pub pack-unpack : (num : ℕ) → pack (unpack num) ≡ num
  unfolding pack unpack
  pack-unpack num =
      ntl.zz_from_bytes_lem _ (ntl.bytes_from_zz-AreBytes (pos num) (num_bytes (pos num)))
      ∙ ntl.le_value-bytes_from_zz (pos num) (num_bytes (pos num))
      ∙ mod-eq_of_lt (ntl.fits-num_bytes (pos num))
