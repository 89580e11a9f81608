-- ===== src/ThreadCache/Calls.antt =====
-- Allocate and Deallocate of TCMalloc_ThreadCache in src/tcmalloc.cpp, alone and in sequence.
use ferp.Common.{
  ℕ, ◌+◌, ◌≤◌, ◌<◌, ◌≡◌, ◌≢◌, ltb, leb, ◌==◌, update, arith, Bool-cases, List-cases, inl, inr,
}
use ferp.SizeClass.{num_classes, Tables, size_class, byte_size_for_class}
use ferp.PageHeap.{Ptr, add64}
use ferp.ThreadCache.{
  Center, ThreadCache, moves, push, push_range, pop_range, fetch_from_central_cache, pop_object,
  allocate, deallocate, release_to_central_cache, max_free_list_length,
}
use ferp.ThreadCache.Bytes.{
  IsCounted, IsValid, bytes-write_list, mul_parts, IsCounted-write_list, push-IsCounted,
  push_range-IsCounted, pop_range-IsCounted,
}
use ferp.ThreadCache.Release.{CenterLaws}
use ferp.ThreadCache.Valid.{Freed, at_most, release_to_central_cache-Freed, scavenge-IsValid}

one_more : 257 < 65536
one_more = omega arith

module _ (t : Tables) {C : Center} (L : CenterLaws C) where
  fetch-IsValid :
      (most cl : ℕ) (c : ThreadCache) (s : C.State)
      → most < 65536
      → cl < num_classes
      → 0 < moves t cl
      → (c.list cl).length_ + moves t cl ≤ most
      → IsValid t most c
      → L.IsGood s
      → IsValid t most (fetch_from_central_cache t C cl c s).0
        × L.IsGood (fetch_from_central_cache t C cl c s).1
  unfolding fetch_from_central_cache
  fetch-IsValid most cl c s word inside pos room v g =
      let r = C.remove_range cl (moves t cl) s in
      let (good, count, few) = L.remove_range-IsGood cl (moves t cl) s pos g in
      let l = push_range r.0 r.1 (c.list cl) in
      let grown : (c.list cl).length_ + r.1 ≡ l.length_ = omega arith in
      (
        record {
          size_eq = omega (
            arith,
            v.size_eq,
            bytes-write_list t c cl l inside,
            mul_parts (byte_size_for_class t cl) (c.list cl).length_ r.1 l.length_ grown,
          );
          counted = IsCounted-write_list most cl l c v.counted (
              push_range-IsCounted most r.1 r.0 (c.list cl) word count (omega arith)
                (v.counted cl));
        },
        good,
      )

  pop_object-IsValid :
      (most cl : ℕ) (c : ThreadCache)
      → most < 65536
      → cl < num_classes
      → IsValid t most c
      → IsValid t most (pop_object t C cl c).1
  unfolding pop_object
  pop_object-IsValid most cl c word inside v = elim (List-cases (c.list cl).objects) [
    | inl e ↦ rw (e, pop_object) v
    | inr (p, ps, e) ↦
        let l = pop_range 1 (c.list cl) in
        let held : 1 ≤ (c.list cl).length_ = ground (arith, (v.counted cl).count, e) in
        let (counted, gone) = pop_range-IsCounted most 1 (c.list cl) word held (v.counted cl) in
        rw (e, pop_object)
          (record {
            size_eq = omega (
              arith,
              v.size_eq,
              bytes-write_list t c cl l inside,
              mul_parts (byte_size_for_class t cl) l.length_ 1 (c.list cl).length_ gone,
            );
            counted = IsCounted-write_list most cl l c v.counted counted;
          })
  ]

  pub allocate-IsValid :
      (size : ℕ) (c : ThreadCache) (s : C.State)
      → size_class t size < num_classes
      → 0 < moves t (size_class t size)
      → moves t (size_class t size) ≤ max_free_list_length
      → IsValid t max_free_list_length c
      → L.IsGood s
      → IsValid t max_free_list_length (allocate t C size c s).1
        × L.IsGood (allocate t C size c s).2
  unfolding allocate
  allocate-IsValid size c s inside pos few v g =
      let cl = size_class t size in
      elim (List-cases (c.list cl).objects) [
        | inl e ↦
            let r = fetch_from_central_cache t C cl c s in
            let none_left : (c.list cl).length_ ≡ 0 = ground (arith, (v.counted cl).count, e) in
            let (valid, good) =
              fetch-IsValid max_free_list_length cl c s (omega arith) inside pos (omega arith) v
                g in
            rw (e, allocate)
              (pop_object-IsValid max_free_list_length cl r.0 (omega arith) inside valid, good)
        | inr (p, ps, e) ↦
            rw (e, allocate)
              (pop_object-IsValid max_free_list_length cl c (omega arith) inside v, g)
      ]

  -- A list that was too long by one is not after a release.
  shortened :
      (cl n : ℕ) (c c' : ThreadCache) (s : C.State)
      → Freed t L 257 one_more cl n c c' s
      → 0 < n
      → (c.list cl).length_ ≤ 257
      → ((j : ℕ) → j ≢ cl → (c.list j).length_ ≤ max_free_list_length)
      → IsValid t max_free_list_length c'
  shortened cl n c c' s f pos long rest = record {
    size_eq = f.valid.size_eq;
    counted = λ j. record {
      count = (f.valid.counted j).count;
      low = (f.valid.counted j).low;
      short = elim (Bool-cases (j == cl)) [
        | inl e ↦ let same : j ≡ cl = ground arith in rw same (omega (arith, f.gone))
        | inr e ↦ ground (arith, rest j, f.others j)
      ];
    };
  }

  -- The object is in its list and in the size.
  abbrev pushed : Ptr → ℕ → ThreadCache → ThreadCache
  pushed p cl c = record c {
    size = add64 c.size (byte_size_for_class t cl);
    list = update c.list cl (push p (c.list cl));
  }

  pushed-IsValid :
      (p : Ptr) (cl : ℕ) (c : ThreadCache)
      → cl < num_classes
      → IsValid t max_free_list_length c
      → IsValid t 257 (pushed p cl c)
        × ((j : ℕ) → j ≢ cl → ((pushed p cl c).list j).length_ ≤ max_free_list_length)
  pushed-IsValid p cl c inside v =
      let l = push p (c.list cl) in
      let held : (c.list cl).length_ + 1 ≡ l.length_ = omega (arith, (v.counted cl).short) in
      let weak = λ (j : ℕ).
        (let k : IsCounted 257 (c.list j) = record {
          count = (v.counted j).count;
          low = (v.counted j).low;
          short = omega (arith, (v.counted j).short);
        } in
          k) in
      (
        record {
          size_eq = omega (
            arith,
            v.size_eq,
            bytes-write_list t c cl l inside,
            mul_parts (byte_size_for_class t cl) (c.list cl).length_ 1 l.length_ held,
          );
          counted =
              IsCounted-write_list 257 cl l c weak
                (push-IsCounted max_free_list_length p (c.list cl) (omega arith) (v.counted cl));
        },
        λ j d. ground (arith, (v.counted j).short),
      )

  -- A valid cache without a list that is too long.
  tightened :
      (c : ThreadCache)
      → IsValid t 257 c
      → ((j : ℕ) → (c.list j).length_ ≤ max_free_list_length)
      → IsValid t max_free_list_length c
  tightened c v h = record {
    size_eq = v.size_eq;
    counted = λ j. record { count = (v.counted j).count; low = (v.counted j).low; short = h j };
  }

  pub deallocate-IsValid :
      (limit : ℕ) (p : Ptr) (cl : ℕ) (c : ThreadCache) (s : C.State)
      → cl < num_classes
      → 0 < moves t cl
      → IsValid t max_free_list_length c
      → L.IsGood s
      → IsValid t max_free_list_length (deallocate t C limit p cl c s).0
        × L.IsGood (deallocate t C limit p cl c s).1
  unfolding deallocate
  deallocate-IsValid limit p cl c s inside pos v g =
      let (valid, rest) = pushed-IsValid p cl c inside v in
      let c1 = pushed p cl c in
      elim (Bool-cases (ltb max_free_list_length (c1.list cl).length_)) [
        | inl e ↦
            let r = release_to_central_cache t C cl (moves t cl) c1 s in
            let f =
              release_to_central_cache-Freed t L 257 one_more cl (moves t cl) c1 s inside valid g in
            let ok =
              shortened cl (at_most (moves t cl) (c1.list cl).length_) c1 r.0 r.1 f (ground arith)
                (valid.counted cl).short rest in
            elim (Bool-cases (leb limit r.0.size)) [
              | inl k ↦
                  rw (e, k)
                    (scavenge-IsValid t L max_free_list_length (omega arith) r.0 r.1 ok f.good)
              | inr k ↦ rw (e, k) (ok, f.good)
            ]
        | inr e ↦
            let ok = tightened c1 valid (λ j. elim (Bool-cases (j == cl)) [
              | inl q ↦ let same : j ≡ cl = ground arith in rw same (ground arith)
              | inr q ↦ rest j (ground arith)
            ]) in
            elim (Bool-cases (leb limit c1.size)) [
              | inl k ↦
                  rw (e, k) (scavenge-IsValid t L max_free_list_length (omega arith) c1 s ok g)
              | inr k ↦ rw (e, k) (ok, g)
            ]
      ]
