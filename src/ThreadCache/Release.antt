-- ===== src/ThreadCache/Release.antt =====
-- ReleaseToCentralCache of src/tcmalloc.cpp.
use native.Mathlib.Nat.{mul-add}
use ferp.Common.{
  subst, ℕ, zero, suc, ◌+◌, ◌-◌, ◌*◌, ◌≤◌, ◌<◌, ◌≡◌, ◌≢◌, ◌∙◌, refl, sym, List, ltb, length, take,
  length-take_le, arith, Bool-cases, inl, inr,
}
use ferp.SizeClass.{num_classes, Tables, byte_size_for_class}
use ferp.PageHeap.{Ptr}
use ferp.ThreadCache.{Center, ThreadCache, pop_range, moves, release_batch, release_batches}
use ferp.ThreadCache.Bytes.{
  IsCounted, bytes, pop_range-IsCounted, bytes-write_list, mul_parts, IsCounted-write_list,
}

-- What the thread relies on: in a good state of the central lists, RemoveRange counts the objects
-- that it answers, no more than it was asked for, if InsertRange was given objects that were
-- counted.
pub record CenterLaws (C : Center) : Type 1 where
  pub IsGood : C.State → Type 0
  pub insert_range-IsGood :
      (cl : ℕ) (objects : List Ptr) (n : ℕ) (s : C.State)
      → length objects ≡ n
      → IsGood s
      → IsGood (C.insert_range cl objects n s)
  pub remove_range-IsGood :
      (cl num : ℕ) (s : C.State)
      → 0 < num
      → IsGood s
      → IsGood (C.remove_range cl num s).2
        × (length (C.remove_range cl num s).0 ≡ (C.remove_range cl num s).1)
        × ((C.remove_range cl num s).1 ≤ num)

module _ (t : Tables) {C : Center} (L : CenterLaws C) (most cl : ℕ) (inside : cl < num_classes)
    (word : most < 65536) where
  -- `n` objects of the class have gone: their bytes are missing, and nothing else has changed.
  pub record Released (n : ℕ) (c c' : ThreadCache) (s' : C.State) : Type 0 where
    pub size_eq : c'.size ≡ c.size
    pub bytes_eq : bytes t c' + byte_size_for_class t cl * n ≡ bytes t c
    pub gone : (c'.list cl).length_ + n ≡ (c.list cl).length_
    pub others : (j : ℕ) → j ≢ cl → c'.list j ≡ c.list j
    pub counted : (j : ℕ) → IsCounted most (c'.list j)
    pub good : L.IsGood s'

  release_batch-Released :
      (n : ℕ) (c : ThreadCache) (s : C.State)
      → n ≤ (c.list cl).length_
      → ((j : ℕ) → IsCounted most (c.list j))
      → L.IsGood s
      → Released n c (release_batch t C cl n c s).0 (release_batch t C cl n c s).1
  unfolding release_batch
  release_batch-Released n c s f v g =
      let l = c.list cl in
      let (counted, gone) = pop_range-IsCounted most n l word f (v cl) in
      record {
        size_eq = refl;
        bytes_eq = omega (
          arith,
          bytes-write_list t c cl (pop_range n l) inside,
          mul_parts (byte_size_for_class t cl) _ n _ gone,
        );
        gone = ground (arith, gone);
        others = λ j d. ground arith;
        counted = IsCounted-write_list most cl (pop_range n l) c v counted;
        good =
            L.insert_range-IsGood cl (take n l.objects) n s
              (length-take_le n l.objects (omega (arith, (v cl).count))) g;
      }

  Released-trans :
      (n m : ℕ) (c c1 c2 : ThreadCache) (s1 s2 : C.State)
      → Released n c c1 s1
      → Released m c1 c2 s2
      → Released (n + m) c c2 s2
  Released-trans n m c c1 c2 s1 s2 a b = record {
    size_eq = b.size_eq ∙ a.size_eq;
    bytes_eq = omega (arith, a.bytes_eq, b.bytes_eq, mul-add (byte_size_for_class t cl) n m);
    gone = omega (arith, a.gone, b.gone);
    others = λ j d. b.others j d ∙ a.others j d;
    counted = b.counted;
    good = b.good;
  }

  pub release_batches-Released :
      (fuel n : ℕ) (c : ThreadCache) (s : C.State)
      → n ≤ (c.list cl).length_
      → ((j : ℕ) → IsCounted most (c.list j))
      → L.IsGood s
      → Released n c (release_batches t C fuel cl n c s).0 (release_batches t C fuel cl n c s).1
  unfolding release_batches
  release_batches-Released zero n c s f v g = release_batch-Released n c s f v g
  release_batches-Released (suc fuel) n c s f v g = elim (Bool-cases (ltb (moves t cl) n)) [
    | inl e ↦
        let m = moves t cl in
        let more : m < n = ground arith in
        let r = release_batch t C cl m c s in
        let first = release_batch-Released m c s (omega arith) v g in
        let rest =
          release_batches-Released fuel (n - m) r.0 r.1 (omega (arith, first.gone)) first.counted
            first.good in
        let sum : n ≡ m + (n - m) = omega arith in
        rw (e, release_batches)
          (subst
            (λ k.
              Released k c (release_batches t C fuel cl (n - m) r.0 r.1).0
                (release_batches t C fuel cl (n - m) r.0 r.1).1)
            (sym sum)
            (Released-trans m (n - m) c r.0 (release_batches t C fuel cl (n - m) r.0 r.1).0 r.1
              (release_batches t C fuel cl (n - m) r.0 r.1).1 first rest))
    | inr e ↦ rw (e, release_batches) (release_batch-Released n c s f v g)
  ]
