-- ===== src/GenSync/Method.antt =====
-- The sync methods of the other modules as a GenSync uses them.
use gensync_core.Prelude.{
  ℕ, ◌≡◌, refl, sym, ap, ◌∙◌, Bool, true, false, ltb, List, length, arith, Bool-cases, inl, inr,
}
use gensync_core.Prelude.Outcome.{Outcome, ok, ◌>>=◌, ok-injective, >>=-eq-ok}
use gensync_core.Platform.{Platform}
use gensync_core.Iblt.{insert, erase}
use gensync_core.Cuckoo
use gensync_core.Bloom
use gensync_core.IbltSync
use gensync_core.IbltSync.{IbltSync, push_element, remove_pointer}
use gensync_core.CuckooSync
use gensync_core.CuckooSync.{CuckooSync}
use gensync_core.BloomFilterSync
use gensync_core.BloomFilterSync.{BloomFilterSync}
use gensync_core.FullSync
use gensync_core.FullSync.{FullSync}
use gensync_core.FullSync.Elements.{remove_pointer-length}
use gensync_core.MetIblt.{insert_all, erase_all}
use gensync_core.MetIbltSync
use gensync_core.MetIbltSync.{MetIbltSync}
use gensync_core.GenSync.{SyncMethod}

-- `SyncMethod::delElem`, which CuckooSync and BloomFilterSync inherit: the answer, and what is left.
unfoldable pub base_del : ℕ × ℕ → List (ℕ × ℕ) → Bool × List (ℕ × ℕ)
base_del d es = (ltb (length (remove_pointer d.0 es)) (length es), remove_pointer d.0 es)

pub base_del_misses :
    (d : ℕ × ℕ) (es : List (ℕ × ℕ)) → (base_del d es).0 ≡ false → remove_pointer d.0 es ≡ es
unfolding base_del
base_del_misses d es h = (remove_pointer-length d.0 es).1 h

pub full_del_removes :
    (d : ℕ × ℕ) (s : FullSync) → (FullSync.del_elem d s).1.elements ≡ remove_pointer d.0 s.elements
unfolding FullSync.del_elem
full_del_removes d s = ground arith

pub full_del_misses :
    (d : ℕ × ℕ) (s : FullSync)
    → (FullSync.del_elem d s).0 ≡ false
    → remove_pointer d.0 s.elements ≡ s.elements
unfolding FullSync.del_elem
full_del_misses d s h =
    let rest = remove_pointer d.0 s.elements in
    elim (Bool-cases (ltb (length rest) (length s.elements))) [
      | inl fewer ↦ let bad : true ≡ false = rw fewer at (h) in cc
      | inr all ↦ (remove_pointer-length d.0 s.elements).1 all
    ]

pub full_add_pushes :
    (d : ℕ × ℕ) (s : FullSync) → (FullSync.add_elem d s).1.elements ≡ push_element d s.elements
unfolding FullSync.add_elem
full_add_pushes d s = refl

abbrev pub full_method : SyncMethod
full_method = record {
  State = FullSync;
  add_elem = λ d s. ok (FullSync.add_elem d s);
  del_elem = λ d s. ok (FullSync.del_elem d s);
  elements = λ s. s.elements;
  add_pushes = λ d s s' b e. ap (λ u. u.1.elements) (sym (ok-injective e)) ∙ full_add_pushes d s;
  del_removes = λ d s s' b e. ap (λ u. u.1.elements) (sym (ok-injective e)) ∙ full_del_removes d s;
  del_misses = λ d s s' e. full_del_misses d s (ap (λ u. u.0) (ok-injective e));
}

module _ (p : Platform) where
  unfoldable pub iblt_add : ℕ × ℕ → IbltSync → Outcome (Bool × IbltSync)
  iblt_add d s = IbltSync.add_elem p d s >>= λ s'. ok (true, s')

  pub iblt_add_pushes :
      (d : ℕ × ℕ) (s s' : IbltSync) (b : Bool)
      → iblt_add d s ≡ ok (b, s')
      → s'.elements ≡ push_element d s.elements
  unfolding iblt_add IbltSync.add_elem
  iblt_add_pushes d s s' b e =
      let (t, ends, ran) = >>=-eq-ok (IbltSync.add_elem p d s) _ e in
      let (g, made, run) = >>=-eq-ok (insert p d.1 d.1 s.my_iblt) _ ran in
      ap (λ u. u.1.elements) (sym (ok-injective ends))
      ∙ ap (λ u. u.elements) (sym (ok-injective made))

  pub iblt_del_removes :
      (d : ℕ × ℕ) (s s' : IbltSync) (b : Bool)
      → IbltSync.del_elem p d s ≡ ok (b, s')
      → (b ≡ true) × (s'.elements ≡ remove_pointer d.0 s.elements)
  unfolding IbltSync.del_elem
  iblt_del_removes d s s' b e =
      let (g, made, run) = >>=-eq-ok (erase p d.1 d.1 s.my_iblt) _ e in
      let same = sym (ok-injective made) in (ap (λ u. u.0) same, ap (λ u. u.1.elements) same)

  pub iblt_del_misses :
      (d : ℕ × ℕ) (s s' : IbltSync)
      → IbltSync.del_elem p d s ≡ ok (false, s')
      → remove_pointer d.0 s.elements ≡ s.elements
  iblt_del_misses d s s' e = let bad : false ≡ true = (iblt_del_removes d s s' false e).0 in cc

  abbrev pub iblt_method : SyncMethod
  iblt_method = record {
    State = IbltSync;
    add_elem = iblt_add;
    del_elem = IbltSync.del_elem p;
    elements = λ s. s.elements;
    add_pushes = iblt_add_pushes;
    del_removes = λ d s s' b e. (iblt_del_removes d s s' b e).1;
    del_misses = iblt_del_misses;
  }

  pub met_add_pushes :
      (d : ℕ × ℕ) (s s' : MetIbltSync) (b : Bool)
      → MetIbltSync.add_elem p d s ≡ ok (b, s')
      → s'.elements ≡ push_element d s.elements
  unfolding MetIbltSync.add_elem
  met_add_pushes d s s' b e =
      let (m, made, run) = >>=-eq-ok (insert_all p d.1 s.my_met) _ e in
      ap (λ u. u.1.elements) (sym (ok-injective made))

  pub met_del_removes :
      (d : ℕ × ℕ) (s s' : MetIbltSync) (b : Bool)
      → MetIbltSync.del_elem p d s ≡ ok (b, s')
      → (b ≡ true) × (s'.elements ≡ remove_pointer d.0 s.elements)
  unfolding MetIbltSync.del_elem
  met_del_removes d s s' b e =
      let (m, made, run) = >>=-eq-ok (erase_all p d.1 s.my_met) _ e in
      let same = sym (ok-injective made) in (ap (λ u. u.0) same, ap (λ u. u.1.elements) same)

  pub met_del_misses :
      (d : ℕ × ℕ) (s s' : MetIbltSync)
      → MetIbltSync.del_elem p d s ≡ ok (false, s')
      → remove_pointer d.0 s.elements ≡ s.elements
  met_del_misses d s s' e = let bad : false ≡ true = (met_del_removes d s s' false e).0 in cc

  abbrev pub met_method : SyncMethod
  met_method = record {
    State = MetIbltSync;
    add_elem = MetIbltSync.add_elem p;
    del_elem = MetIbltSync.del_elem p;
    elements = λ s. s.elements;
    add_pushes = met_add_pushes;
    del_removes = λ d s s' b e. (met_del_removes d s s' b e).1;
    del_misses = met_del_misses;
  }

  pub bloom_add_pushes :
      (d : ℕ × ℕ) (s s' : BloomFilterSync) (b : Bool)
      → BloomFilterSync.add_elem p d s ≡ ok (b, s')
      → s'.elements ≡ push_element d s.elements
  unfolding BloomFilterSync.add_elem
  bloom_add_pushes d s s' b e =
      let (f, made, run) = >>=-eq-ok (Bloom.insert p d.1 s.my_bloom_filter) _ e in
      ap (λ u. u.1.elements) (sym (ok-injective made))

  unfoldable pub bloom_del : ℕ × ℕ → BloomFilterSync → Bool × BloomFilterSync
  bloom_del d s = ((base_del d s.elements).0, record s { elements = (base_del d s.elements).1 })

  abbrev pub bloom_method : SyncMethod
  unfolding bloom_del base_del
  bloom_method = record {
    State = BloomFilterSync;
    add_elem = BloomFilterSync.add_elem p;
    del_elem = λ d s. ok (bloom_del d s);
    elements = λ s. s.elements;
    add_pushes = bloom_add_pushes;
    del_removes = λ d s s' b e. ap (λ u. u.1.elements) (sym (ok-injective e));
    del_misses = λ d s s' e. base_del_misses d s.elements (ap (λ u. u.0) (ok-injective e));
  }

  module _ (little_endian : Bool) {S : Type 0} (draw : ℕ → ℕ → S → ℕ × S) where
    unfoldable pub cuckoo_add : ℕ × ℕ → CuckooSync × S → Outcome (Bool × (CuckooSync × S))
    cuckoo_add d (s, rng) =
        CuckooSync.add_elem little_endian p draw d s rng >>= λ u. ok (u.0, (u.1, u.2))

    pub cuckoo_add_pushes :
        (d : ℕ × ℕ) (s s' : CuckooSync × S) (b : Bool)
        → cuckoo_add d s ≡ ok (b, s')
        → s'.0.elements ≡ push_element d s.0.elements
    unfolding cuckoo_add CuckooSync.add_elem
    cuckoo_add_pushes d s s' b e =
        let (u, ends, ran) = >>=-eq-ok (CuckooSync.add_elem little_endian p draw d s.0 s.1) _ e in
        let (r, made, run) =
          >>=-eq-ok (Cuckoo.insert little_endian p draw s.0.my_cf d.1 s.1) _ ran in
        ap (λ u. u.1.0.elements) (sym (ok-injective ends))
        ∙ ap (λ u. u.1.elements) (sym (ok-injective made))

    unfoldable pub cuckoo_del : ℕ × ℕ → CuckooSync × S → Bool × (CuckooSync × S)
    cuckoo_del d (s, rng) =
        ((base_del d s.elements).0, (record s { elements = (base_del d s.elements).1 }, rng))

    -- The state of the generator goes with the filter.
    abbrev pub cuckoo_method : SyncMethod
    unfolding cuckoo_del base_del
    cuckoo_method = record {
      State = CuckooSync × S;
      add_elem = cuckoo_add;
      del_elem = λ d s. ok (cuckoo_del d s);
      elements = λ s. s.0.elements;
      add_pushes = cuckoo_add_pushes;
      del_removes = λ d s s' b e. ap (λ u. u.1.0.elements) (sym (ok-injective e));
      del_misses = λ d s s' e. base_del_misses d s.0.elements (ap (λ u. u.0) (ok-injective e));
    }
