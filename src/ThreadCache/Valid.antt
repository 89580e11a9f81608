-- ===== src/ThreadCache/Valid.antt =====
-- ReleaseToCentralCache and Scavenge of src/tcmalloc.cpp keep `size_` right.
use native.Mathlib.Nat.{mul_comm}
use ferp.Common.{
  ℕ, zero, suc, ◌+◌, ◌*◌, ◌/◌, ◌%◌, ◌≤◌, ◌<◌, ◌≡◌, ◌≢◌, ltb, if◌then◌else◌, arith, Bool-cases, inl,
  inr,
}
use ferp.Common.Bits.{u64_mod}
use ferp.Common.Sums.{sum_below-same}
use ferp.SizeClass.{num_classes, Tables, byte_size_for_class}
use ferp.PageHeap.{sub64}
use ferp.ThreadCache.{
  Center, ThreadCache, write_list, release_batches, release_to_central_cache, scavenge_classes,
  scavenge,
}
use ferp.ThreadCache.Bytes.{IsValid, bytes, list_bytes, IsCounted-write_list}
use ferp.ThreadCache.Release.{CenterLaws, Released, release_batches-Released}

abbrev pub at_most : ℕ → ℕ → ℕ
at_most n len = if ltb len n then len else n

module _ (t : Tables) {C : Center} (L : CenterLaws C) (most : ℕ) (word : most < 65536) where
  -- What ReleaseToCentralCache of `n` objects, if there are so many, leaves.
  pub record Freed (cl n : ℕ) (c c' : ThreadCache) (s' : C.State) : Type 0 where
    pub valid : IsValid t most c'
    pub gone : (c'.list cl).length_ + n ≡ (c.list cl).length_
    pub others : (j : ℕ) → j ≢ cl → c'.list j ≡ c.list j
    pub good : L.IsGood s'

  Released-Freed :
      (cl n : ℕ) (inside : cl < num_classes) (c c' : ThreadCache) (s' : C.State)
      → c.size ≡ bytes t c % u64_mod
      → Released t L most cl inside word n
          (record c { size = sub64 c.size (n * byte_size_for_class t cl % u64_mod) })
          c'
          s'
      → Freed cl n c c' s'
  Released-Freed cl n inside c c' s' e r = record {
    valid = record {
      size_eq = omega (arith, e, r.size_eq, r.bytes_eq, mul_comm n (byte_size_for_class t cl));
      counted = r.counted;
    };
    gone = r.gone;
    others = r.others;
    good = r.good;
  }

  pub release_to_central_cache-Freed :
      (cl n : ℕ) (c : ThreadCache) (s : C.State)
      → cl < num_classes
      → IsValid t most c
      → L.IsGood s
      → Freed cl
          (at_most n (c.list cl).length_)
          c
          (release_to_central_cache t C cl n c s).0
          (release_to_central_cache t C cl n c s).1
  unfolding release_to_central_cache
  release_to_central_cache-Freed cl n c s inside v g =
      let k = at_most n (c.list cl).length_ in
      let c1 = record c { size = sub64 c.size (k * byte_size_for_class t cl % u64_mod) } in
      let r = release_batches t C k cl k c1 s in
      Released-Freed cl k inside c r.0 r.1 v.size_eq
        (release_batches-Released t L most cl inside word k k c1 s (ground arith) v.counted g)

  -- One class of Scavenge.
  lowmark-IsValid :
      (cl : ℕ) (c : ThreadCache)
      → IsValid t most c
      → IsValid t most (write_list cl (record (c.list cl) { lowater = (c.list cl).length_ }) c)
  lowmark-IsValid cl c v =
      let l = record (c.list cl) { lowater = (c.list cl).length_ } in
      let same =
        sum_below-same (list_bytes t c) (list_bytes t (write_list cl l c)) num_classes
          (λ j k. ground arith) in
      record {
        size_eq = omega (arith, v.size_eq, same);
        counted = IsCounted-write_list most cl l c v.counted (record {
          count = (v.counted cl).count;
          low = omega arith;
          short = (v.counted cl).short;
        });
      }

  scavenge_classes-IsValid :
      (left cl : ℕ) (c : ThreadCache) (s : C.State)
      → cl + left ≤ num_classes
      → IsValid t most c
      → L.IsGood s
      → IsValid t most (scavenge_classes t C left cl c s).0
        × L.IsGood (scavenge_classes t C left cl c s).1
  unfolding scavenge_classes
  scavenge_classes-IsValid zero cl c s b v g = (v, g)
  scavenge_classes-IsValid (suc left) cl c s b v g = elim (Bool-cases (ltb 0 (c.list cl).lowater)) [
    | inl e ↦
        let drop = if ltb 1 (c.list cl).lowater then (c.list cl).lowater / 2 else 1 in
        let r = release_to_central_cache t C cl drop c s in
        let f = release_to_central_cache-Freed cl drop c s (omega arith) v g in
        rw (e, scavenge_classes)
          (scavenge_classes-IsValid left (cl + 1)
            (write_list cl (record (r.0.list cl) { lowater = (r.0.list cl).length_ }) r.0) r.1
            (omega arith) (lowmark-IsValid cl r.0 f.valid) f.good)
    | inr e ↦
        rw (e, scavenge_classes)
          (scavenge_classes-IsValid left (cl + 1)
            (write_list cl (record (c.list cl) { lowater = (c.list cl).length_ }) c) s (omega arith)
            (lowmark-IsValid cl c v) g)
  ]

  pub scavenge-IsValid :
      (c : ThreadCache) (s : C.State)
      → IsValid t most c
      → L.IsGood s
      → IsValid t most (scavenge t C c s).0 × L.IsGood (scavenge t C c s).1
  unfolding scavenge
  scavenge-IsValid c s v g = scavenge_classes-IsValid num_classes 0 c s (omega arith) v g
