-- ===== src/Cuckoo/Present.antt =====
-- Where a fingerprint is in the filter, and that additions and kicks do not lose it.
use gensync_core.Prelude.{
  ℕ, zero, suc, ◌+◌, ◌%◌, ◌^◌, ◌<◌, ◌≡◌, ◌≢◌, refl, sym, ap, ap₂, ◌∙◌, Bool, true, false,
  Bool-cases, Option, none, some, List, [], arith, if◌then◌else◌, ◌==◌, ◌⊎◌, inl, inr,
}
use gensync_core.Prelude.Outcome.{Outcome, ok, stop, >>=-eq-ok, ok-injective}
use gensync_core.Platform.{Platform}
use gensync_core.BitArray.{Compact2dBitArray, get_entry, set_entry, size_minus}
use gensync_core.BitArray.Place.{IsValid}
use gensync_core.BitArray.Changed.{Changed, Kept, Changed-Kept, Kept-trans, read-Inside, read-lt}
use gensync_core.Cuckoo.{
  Cuckoo, PartialHash, Slot, place, try_add, add_loop, add_to_bucket, alternative_bucket, kick_loop,
  restore_filter,
}
use gensync_core.Cuckoo.Kicks.{step_Changed}

-- Fingerprint `f` is in one of two buckets.
pub record Present (a : Compact2dBitArray) (f b1 b2 : ℕ) : Type 0 where
  pub bucket : ℕ
  pub entry : ℕ
  pub one_of : (bucket ≡ b1) ⊎ (bucket ≡ b2)
  pub reads : get_entry a bucket entry ≡ ok f

pub if-true : {A : Type 0} (b : Bool) (x y r : A) → b ≡ true → (if b then x else y) ≡ r → x ≡ r
if-true true x y r e run = run
if-true false x y r e run = cc

pub if-false : {A : Type 0} (b : Bool) (x y r : A) → b ≡ false → (if b then x else y) ≡ r → y ≡ r
if-false true x y r e run = cc
if-false false x y r e run = run

same_or_other : (i j k l : ℕ) → ((k ≡ i) × (l ≡ j)) ⊎ ((k ≢ i) ⊎ (l ≢ j))
same_or_other i j k l = ground arith

module _ (f b1 b2 : ℕ) where
  abbrev OneOf : ℕ → Type 0
  OneOf b = (b ≡ b1) ⊎ (b ≡ b2)

  -- A write over the entry `u` loses the fingerprint only where `u` is it.
  pub keeps_or_takes :
      (a b : Compact2dBitArray) (i j u v : ℕ)
      → Changed a b i j v
      → get_entry a i j ≡ ok u
      → Present a f b1 b2
      → Present b f b1 b2 ⊎ ((u ≡ f) × OneOf i)
  keeps_or_takes a b i j u v changed read q = elim (same_or_other i j q.bucket q.entry) [
    | inl (e, d) ↦
        let same : get_entry a q.bucket q.entry ≡ get_entry a i j = ap₂ (get_entry a) e d in
        let here : OneOf i = elim q.one_of [ inl t ↦ inl (sym e ∙ t) | inr t ↦ inr (sym e ∙ t) ] in
        inr (ok-injective (sym read ∙ sym same ∙ q.reads), here)
    | inr ne ↦
        let inside = read-Inside a q.bucket q.entry f q.reads in
        inl (record {
          bucket = q.bucket;
          entry = q.entry;
          one_of = q.one_of;
          reads = changed.others q.bucket q.entry inside.row inside.column ne ∙ q.reads;
        })
  ]

-- An addition writes over one empty entry.
pub add_loop-Changed :
    (bucket g n ii : ℕ) (filter a : Compact2dBitArray)
    → IsValid filter
    → g < 2 ^ filter.f_size
    → add_loop true bucket g n ii filter ≡ ok (some a)
    → (j : ℕ) × Changed filter a bucket j g × (get_entry filter bucket j ≡ ok 0)
unfolding add_loop
add_loop-Changed bucket g zero ii filter a valid h run =
    let told : none ≡ some a = ok-injective run in cc
add_loop-Changed bucket g (suc n) ii filter a valid h run =
    let (x, run1, read) = >>=-eq-ok (get_entry filter bucket ii) _ run in
    elim (Bool-cases (x == 0)) [
      | inl e ↦
          let (b, ends, wrote) =
            >>=-eq-ok (set_entry true filter bucket ii (g % 2 ^ 32)) _
              (if-true (x == 0) _ _ _ e run1) in
          let same : b ≡ a = some_injective (ok-injective ends) in
          let empty : x ≡ 0 = ground arith in
          (ii, step_Changed filter a bucket ii g valid h (wrote ∙ ap ok same), read ∙ ap ok empty)
      | inr e ↦
          add_loop-Changed bucket g n (ii + 1) filter a valid h (if-false (x == 0) _ _ _ e run1)
    ]
  where
    some_injective : {x y : Compact2dBitArray} → some x ≡ some y → x ≡ y
    some_injective e = cc

-- The outcomes of a try.
pub try_add-cases :
    {S : Type 0} (r : Outcome (Option Compact2dBitArray)) (s : S)
    (rest : Outcome (Bool × Compact2dBitArray × S)) (t : Bool × Compact2dBitArray × S)
    → try_add r s rest ≡ ok t
    → ((a : Compact2dBitArray) × (r ≡ ok (some a)) × (t.1 ≡ a)) ⊎ (rest ≡ ok t)
unfolding try_add
try_add-cases (stop e) s rest t run = cc
try_add-cases (ok none) s rest t run = inr run
try_add-cases (ok (some a)) s rest t run = inl (a, refl, sym (ap (λ u. u.1) (ok-injective run)))

module _ (p : Platform) {S : Type 0} (draw : ℕ → ℕ → S → ℕ × S) (c : Cuckoo) (f b1 b2 : ℕ)
    (some_f : f ≢ 0) (there : alternative_bucket p c b1 f ≡ ok b2)
    (back : alternative_bucket p c b2 f ≡ ok b1) where
  -- The fingerprint is in the filter, or in hand on the way to one of its buckets.
  abbrev pub Safe : Compact2dBitArray → ℕ → ℕ → Type 0
  Safe a hand chosen = Present a f b1 b2 ⊎ ((hand ≡ f) × ((chosen ≡ b1) ⊎ (chosen ≡ b2)))

  pub add-Present :
      (filter a : Compact2dBitArray) (bucket g : ℕ)
      → IsValid filter
      → g < 2 ^ filter.f_size
      → add_to_bucket true c filter bucket g ≡ ok (some a)
      → Safe filter g bucket
      → Present a f b1 b2 × Kept filter a
  unfolding add_to_bucket
  add-Present filter a bucket g valid h run safe =
      let (j, changed, empty) = add_loop-Changed bucket g c.bucket_size 0 filter a valid h run in
      let found : Present a f b1 b2 = elim safe [
        | inl q ↦ elim (keeps_or_takes f b1 b2 filter a bucket j 0 g changed empty q) [
          | inl r ↦ r
          | inr (e, o) ↦ absurd (some_f (sym e))
        ]
        | inr (e, o) ↦ record {
          bucket = bucket;
          entry = j;
          one_of = o;
          reads = changed.here ∙ ap ok e;
        }
      ] in
      (found, Changed-Kept filter a bucket j g changed)

  -- After a kick the fingerprint is in the filter or it is the victim.
  kick-Safe :
      (filter filter' : Compact2dBitArray) (chosen idx hand victim alt : ℕ)
      → Changed filter filter' chosen idx hand
      → get_entry filter chosen idx ≡ ok victim
      → alternative_bucket p c chosen victim ≡ ok alt
      → Safe filter hand chosen
      → Safe filter' victim alt
  kick-Safe filter filter' chosen idx hand victim alt changed read found safe = elim safe [
    | inl q ↦ elim (keeps_or_takes f b1 b2 filter filter' chosen idx victim hand changed read q) [
      | inl r ↦ inl r
      | inr (e, o) ↦ inr (
        e,
        elim o [
          | inl t ↦ inr (ok-injective (sym found ∙ ap₂ (alternative_bucket p c) t e ∙ there))
          | inr t ↦ inl (ok-injective (sym found ∙ ap₂ (alternative_bucket p c) t e ∙ back))
        ],
      )
    ]
    | inr (e, o) ↦
        inl (record { bucket = chosen; entry = idx; one_of = o; reads = changed.here ∙ ap ok e })
  ]

  pub kick_loop-Present :
      (n : ℕ) (filter : Compact2dBitArray) (chosen hand : ℕ) (slots : List Slot) (s : S)
      (t : Bool × Compact2dBitArray × S)
      → IsValid filter
      → hand < 2 ^ filter.f_size
      → Safe filter hand chosen
      → kick_loop true p draw c n filter chosen hand slots s ≡ ok t
      → t.0 ≡ true
      → Present t.1 f b1 b2 × Kept filter t.1
  unfolding kick_loop
  kick_loop-Present zero filter chosen hand slots s t valid h safe run done =
      let (a, ends, restored) = >>=-eq-ok (restore_filter true slots filter) _ run in
      let told : false ≡ t.0 = ap (λ u. u.0) (ok-injective ends) in cc
  kick_loop-Present (suc n) filter chosen hand slots s t valid h safe run done =
      let idx = (draw 0 (size_minus c.bucket_size 1) s).0 in
      let (victim, run1, read) = >>=-eq-ok (get_entry filter chosen idx) _ run in
      let (alt, run2, found) = >>=-eq-ok (alternative_bucket p c chosen victim) _ run1 in
      let (filter', run3, wrote) =
        >>=-eq-ok (set_entry true filter chosen idx (hand % 2 ^ 32)) _ run2 in
      let changed = step_Changed filter filter' chosen idx hand valid h wrote in
      let small : victim < 2 ^ filter'.f_size =
        rw changed.bits (read-lt filter chosen idx victim valid read) in
      let safe' = kick-Safe filter filter' chosen idx hand victim alt changed read found safe in
      let kept = Changed-Kept filter filter' chosen idx hand changed in
      elim (try_add-cases (add_to_bucket true c filter' alt victim) _ _ t run3) [
        | inl (a, added, same) ↦
            let (q, after) = add-Present filter' a alt victim changed.valid small added safe' in
            rw same (q, Kept-trans filter filter' a kept after)
        | inr rest ↦
            let (q, after) =
              kick_loop-Present n filter' alt victim _ _ t changed.valid small safe' rest done in
            (q, Kept-trans filter filter' t.1 kept after)
      ]

  -- `insert` from where the hashes of an element are known, where the fingerprint `f` is in the filter
  -- or is the one to insert.
  pub place-Present :
      (h : PartialHash) (s : S) (t : Bool × Compact2dBitArray × S)
      → IsValid c.filter
      → h.f < 2 ^ c.filter.f_size
      → Safe c.filter h.f h.i1
      → Safe c.filter h.f h.i2
      → place true p draw c h s ≡ ok t
      → t.0 ≡ true
      → Present t.1 f b1 b2 × Kept c.filter t.1
  unfolding place
  place-Present h s t valid small safe1 safe2 placed done =
      let coin = (draw 0 1 s).0 in
      let safe : Safe c.filter h.f (if coin == 0 then h.i1 else h.i2) =
        elim (Bool-cases (coin == 0)) [ inl e ↦ rw e safe1 | inr e ↦ rw e safe2 ] in
      elim (try_add-cases (add_to_bucket true c c.filter h.i1 h.f) s _ t placed) [
        | inl (a, added, same) ↦ rw same (add-Present c.filter a h.i1 h.f valid small added safe1)
        | inr run2 ↦ elim (try_add-cases (add_to_bucket true c c.filter h.i2 h.f) s _ t run2) [
          | inl (a, added, same) ↦ rw same (add-Present c.filter a h.i2 h.f valid small added safe2)
          | inr run3 ↦
              kick_loop-Present c.max_kicks c.filter _ h.f [] _ t valid small safe run3 done
        ]
      ]
