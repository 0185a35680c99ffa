-- ===== src/Cuckoo/Hashed.antt =====
-- What a run of `p_hash` that ended well has found.
use gensync_core.Prelude.{ℕ, ◌≡◌, refl, sym, ap, ◌∙◌, Bool, true, false, ◌==◌, arith}
use gensync_core.Prelude.Outcome.{Outcome, ok, throws, ◌>>◌, unless_stops, >>=-eq-ok, ok-injective}
use gensync_core.Platform.{Platform}
use gensync_core.Cuckoo.{Cuckoo, PartialHash, p_hash, fingerprint, hash, alternative_bucket}

-- The two buckets are each other's alternatives.
pub record Hashed (p : Platform) (c : Cuckoo) (x : ℕ) (h : PartialHash) : Type 0 where
  pub found : fingerprint c x ≡ ok h.f
  pub there : alternative_bucket p c h.i1 h.f ≡ ok h.i2
  pub back : alternative_bucket p c h.i2 h.f ≡ ok h.i1

test_passed :
    {A : Type 0} (b : Bool) (m : Outcome A) (a : A)
    → (unless_stops b throws >> m) ≡ ok a
    → (b ≡ true) × (m ≡ ok a)
test_passed true m a e = (refl, e)
test_passed false m a e = cc

pub p_hash-Hashed :
    (p : Platform) (c : Cuckoo) (x : ℕ) (h : PartialHash) → p_hash p c x ≡ ok h → Hashed p c x h
unfolding p_hash
p_hash-Hashed p c x h run =
    let (f, run1, found) = >>=-eq-ok (fingerprint c x) _ run in
    let (k, run2, hashed) = >>=-eq-ok (hash c x) _ run1 in
    let i1 = p.to_int k in
    let (i2, run3, there) = >>=-eq-ok (alternative_bucket p c i1 f) _ run2 in
    let (b, run4, back) = >>=-eq-ok (alternative_bucket p c i2 f) _ run3 in
    let (test, ends) = test_passed (i1 == b) _ _ run4 in
    let same : i1 ≡ b = ground arith in
    let e : record { f = f; i1 = i1; i2 = i2 } ≡ h = ok-injective ends in
    rw (sym e) (record { found = found; there = there; back = back ∙ ap ok (sym same) })
