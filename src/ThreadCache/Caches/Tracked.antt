-- ===== src/ThreadCache/Caches/Tracked.antt =====
-- The list of the thread caches in src/tcmalloc.cpp, their number and the share of each.
use native.Mathlib.Nat.{div-mul-le_self, mul-le-mul_right}
use ferp.Common.{
  ℕ, ◌+◌, ◌*◌, ◌/◌, ◌≤◌, ◌<◌, ◌≡◌, ◌⊎◌, inl, inr, refl, ◌∙◌, true, false, not, ◌&&◌, none, some,
  List, [], ◌∷◌, ◌==◌, if◌then◌else◌, update, update_self, length, arith, Bool-cases, Option-cases,
}
use ferp.PageHeap.{has, Ptr, dll_remove}
use ferp.PageHeap.Rings.{Distinct, Distinct-dll_remove, has-dll_remove}
use ferp.PageHeapAllocator.{SystemAlloc, Area, new}
use ferp.ThreadCache.Sampling.{init, init-lists}
use ferp.ThreadCache.Caches.{
  Caches, thread_share, find_cache, unlink_cache, min_thread_cache_size, max_thread_cache_size,
  thread_cache_size, recompute_thread_cache_size, add_cache, remove_cache, find_or_add,
  set_specific, create_cache_if_necessary,
}

share_cases :
    (overall count : ℕ)
    → 0 < count
    → (thread_share overall count ≡ min_thread_cache_size)
      ⊎ (thread_share overall count ≤ overall / count)
unfolding thread_share
share_cases overall count p = ground arith

share_least : (overall count : ℕ) → min_thread_cache_size ≤ thread_share overall count
unfolding thread_share
share_least overall count = ground arith

share_most : (overall count : ℕ) → thread_share overall count ≤ max_thread_cache_size
unfolding thread_share
share_most overall count = ground arith

-- RecomputeThreadCacheSize keeps the share between kMinThreadCacheSize and kMaxThreadCacheSize, and
-- the shares of all caches within the overall size, if that has kMinThreadCacheSize for each.
pub thread_share_bounds :
    (overall count : ℕ)
    → (min_thread_cache_size ≤ thread_share overall count)
      × (thread_share overall count ≤ max_thread_cache_size)
      × (0 < count
          → min_thread_cache_size * count ≤ overall
          → thread_share overall count * count ≤ overall)
thread_share_bounds overall count = (
  share_least overall count,
  share_most overall count,
  λ p h. elim (share_cases overall count p) [
    | inl e ↦ rw e h
    | inr e ↦ omega (arith, mul-le-mul_right count e, div-mul-le_self overall count)
  ],
)

unlink_cache-eq : (p : Ptr) (hs : List Ptr) → unlink_cache p hs ≡ dll_remove p hs
unfolding unlink_cache dll_remove
unlink_cache-eq p [] = refl
unlink_cache-eq p (h ∷ hs) = ground (arith, unlink_cache-eq p hs)

-- The list has no cache twice, and the count and the share belong to it.
pub record Tracked {Y : Type 0} (m : Caches Y) : Type 0 where
  pub distinct : Distinct m.heaps
  pub count : m.heap_count ≡ length m.heaps
  pub share : m.per_thread_size ≡ thread_share m.overall_size m.heap_count

length-dll_remove :
    (p : Ptr) (hs : List Ptr) → has p hs ≡ true → length hs ≡ length (dll_remove p hs) + 1
unfolding dll_remove
length-dll_remove p [] h = ground arith
length-dll_remove p (x ∷ hs) h = ground (arith, length-dll_remove p hs)

update_again :
    (f : ℕ → Ptr) (i : ℕ) (v : Ptr) (j : ℕ) → update (update f i v) i v j ≡ update f i v j
update_again f i v j = elim (Bool-cases (j == i)) [ inl e ↦ rw e refl | inr e ↦ rw e refl ]

module _ {Y : Type 0} where
  -- add_cache puts the cache of the thread first.
  add_cache-heaps :
      (flag me p : ℕ) (m : Caches Y)
      → ((add_cache flag me p m).heaps ≡ p ∷ m.heaps)
        × (((add_cache flag me p m).cache p).tid ≡ me)
        × ((add_cache flag me p m).tsd_inited ≡ m.tsd_inited)
  unfolding add_cache recompute_thread_cache_size
  add_cache-heaps flag me p m = (
    refl,
    ground
        (arith, update_self m.cache p (init flag p me m.sampler).1, init-lists flag p me m.sampler),
    refl,
  )

  add_cache-Tracked :
      (flag me p : ℕ) (m : Caches Y)
      → Tracked m
      → has p m.heaps ≡ false
      → Tracked (add_cache flag me p m)
  unfolding add_cache recompute_thread_cache_size
  add_cache-Tracked flag me p m h absent = record {
    distinct = (absent, h.distinct);
    count = ground (arith, h.count);
    share = refl;
  }

  -- DeleteCache takes the cache out of the list and gives the others their shares of the rest.
  pub remove_cache-Tracked :
      (p : Ptr) (m : Caches Y)
      → Tracked m
      → has p m.heaps ≡ true
      → Tracked (remove_cache p m) × (has p (remove_cache p m).heaps ≡ false)
  unfolding remove_cache recompute_thread_cache_size
  remove_cache-Tracked p m h present = rw (unlink_cache-eq p m.heaps) (
    record {
      distinct = Distinct-dll_remove p m.heaps h.distinct;
      count = omega (arith, h.count, length-dll_remove p m.heaps present);
      share = refl;
    },
    ground (arith, has-dll_remove p p m.heaps h.distinct),
  )

  set_specific-keeps :
      (self p : Ptr) (m : Caches Y)
      → ((set_specific self p m).heaps ≡ m.heaps)
        × ((set_specific self p m).cache ≡ m.cache)
        × ((set_specific self p m).tsd_inited ≡ m.tsd_inited)
        × (Tracked m → Tracked (set_specific self p m))
  unfolding set_specific
  set_specific-keeps self p m = elim (Bool-cases (not (m.cache p).in_setspecific && m.tsd_inited)) [
    | inl e ↦
        rw e (
          refl,
          refl,
          refl,
          λ h. record { distinct = h.distinct; count = h.count; share = h.share },
        )
    | inr e ↦ rw e (refl, refl, refl, λ h. h)
  ]

  set_specific-again :
      (self p : Ptr) (m : Caches Y)
      → set_specific self p (set_specific self p m) ≡ set_specific self p m
  unfolding set_specific
  set_specific-again self p m = elim (Bool-cases (not (m.cache p).in_setspecific && m.tsd_inited)) [
    | inl e ↦ rw (e, e) (λ i. record m { specific = λ j. update_again m.specific self p j i })
    | inr e ↦ rw (e, e) refl
  ]

  module _ (system_alloc : SystemAlloc Y) (flag : ℕ) where
    pub find_or_add-found :
        (me : ℕ) (m : Caches Y) {p : Ptr}
        → find_cache m.cache me m.heaps ≡ some p
        → find_or_add system_alloc flag me m ≡ some (p, m)
    unfolding find_or_add
    find_or_add-found me m e = rw (e, find_or_add) refl

    add_cache-found :
        (me p : ℕ) (m : Caches Y)
        → find_cache (add_cache flag me p m).cache me (add_cache flag me p m).heaps ≡ some p
    unfolding find_cache
    add_cache-found me p m =
        rw ((add_cache-heaps flag me p m).0) (ground (arith, add_cache-heaps flag me p m))

    find_or_add-aborts :
        (me : ℕ) (m : Caches Y)
        → find_cache m.cache me m.heaps ≡ none
        → new system_alloc thread_cache_size m.allocator m.metadata m.system ≡ none
        → find_or_add system_alloc flag me m ≡ none
    unfolding find_or_add
    find_or_add-aborts me m e n = rw (e, find_or_add, n) refl

    find_or_add-adds :
        (me : ℕ) (m : Caches Y) (q : Ptr) (a : Area) (metadata : ℕ) (y : Y)
        → find_cache m.cache me m.heaps ≡ none
        → new system_alloc thread_cache_size m.allocator m.metadata m.system
          ≡ some (q, a, metadata, y)
        → find_or_add system_alloc flag me m
          ≡ some
              (q, add_cache flag me q (record m { allocator = a; metadata = metadata; system = y }))
    unfolding find_or_add
    find_or_add-adds me m q a metadata y e n = rw (e, find_or_add, n) refl

    find_or_add-cache :
        (me : ℕ) (m m' : Caches Y) (p : Ptr)
        → find_or_add system_alloc flag me m ≡ some (p, m')
        → (find_cache m'.cache me m'.heaps ≡ some p) × (m'.tsd_inited ≡ m.tsd_inited)
    find_or_add-cache me m m' p h = elim (Option-cases (find_cache m.cache me m.heaps)) [
      | inl e ↦
          elim (Option-cases (new system_alloc thread_cache_size m.allocator m.metadata m.system)) [
            | inl n ↦ ground (arith, h, find_or_add-aborts me m e n)
            | inr ((q, a, metadata, y), n) ↦
                let made = record m { allocator = a; metadata = metadata; system = y } in
                ground (
                  arith,
                  h,
                  find_or_add-adds me m q a metadata y e n,
                  add_cache-found me q made,
                  add_cache-heaps flag me q made,
                )
          ]
      | inr (q, e) ↦ ground (arith, h, find_or_add-found me m e)
    ]

    create_cache-eq :
        (self : ℕ) (m made : Caches Y) (p : Ptr)
        → find_or_add system_alloc flag (if m.tsd_inited then self else 0) m ≡ some (p, made)
        → create_cache_if_necessary system_alloc flag self m ≡ some (p, set_specific self p made)
    unfolding create_cache_if_necessary
    create_cache-eq self m made p e = rw (e, create_cache_if_necessary) refl

    create_cache-aborts :
        (self : ℕ) (m : Caches Y)
        → find_or_add system_alloc flag (if m.tsd_inited then self else 0) m ≡ none
        → create_cache_if_necessary system_alloc flag self m ≡ none
    unfolding create_cache_if_necessary
    create_cache-aborts self m e = rw (e, create_cache_if_necessary) refl

    -- What a successful creation has found or added.
    create_cache-made :
        (self : ℕ) (m m' : Caches Y) (p : Ptr)
        → create_cache_if_necessary system_alloc flag self m ≡ some (p, m')
        → (made : Caches Y) × (find_or_add system_alloc flag (if m.tsd_inited then self else 0) m
            ≡ some (p, made))
          × (m' ≡ set_specific self p made)
    create_cache-made self m m' p h =
        elim (Option-cases (find_or_add system_alloc flag (if m.tsd_inited then self else 0) m)) [
          | inl e ↦ ground (arith, h, create_cache-aborts self m e)
          | inr ((q, made), e) ↦ (
            made,
            ground (arith, e, h, create_cache-eq self m made q e),
            ground (arith, h, create_cache-eq self m made q e),
          )
        ]

    set_specific-found :
        (self : ℕ) (m made : Caches Y) (p : Ptr)
        → find_or_add system_alloc flag (if m.tsd_inited then self else 0) m ≡ some (p, made)
        → create_cache_if_necessary system_alloc flag self (set_specific self p made)
          ≡ some (p, set_specific self p made)
    set_specific-found self m made p e =
        let keeps = set_specific-keeps self p made in
        let found = find_or_add-cache (if m.tsd_inited then self else 0) m made p e in
        let me = (if (set_specific self p made).tsd_inited then self else 0) in
        let there : find_cache (set_specific self p made).cache me (set_specific self p made).heaps
            ≡ some p =
          rw (keeps.0, keeps.1, keeps.2, found.1) found.0 in
        create_cache-eq self (set_specific self p made) (set_specific self p made) p
          (find_or_add-found me (set_specific self p made) there)
        ∙ rw (set_specific-again self p made) refl

    -- A thread that has got a cache gets the same one, and nothing changes, when it asks again.
    pub create_cache_if_necessary-again :
        (self : ℕ) (m m' : Caches Y) (p : Ptr)
        → create_cache_if_necessary system_alloc flag self m ≡ some (p, m')
        → create_cache_if_necessary system_alloc flag self m' ≡ some (p, m')
    create_cache_if_necessary-again self m m' p h =
        let (made, e, q) = create_cache-made self m m' p h in
        rw q (set_specific-found self m made p e)

    find_or_add-Tracked :
        (me : ℕ) (m m' : Caches Y) (p : Ptr)
        → Tracked m
        → ((q : Ptr) (a : Area) (metadata : ℕ) (y : Y)
            → new system_alloc thread_cache_size m.allocator m.metadata m.system
              ≡ some (q, a, metadata, y)
            → has q m.heaps ≡ false)
        → find_or_add system_alloc flag me m ≡ some (p, m')
        → Tracked m'
    find_or_add-Tracked me m m' p valid fresh h =
        elim (Option-cases (find_cache m.cache me m.heaps)) [
          | inl e ↦
              elim (Option-cases
                (new system_alloc thread_cache_size m.allocator m.metadata m.system)) [
                  | inl n ↦ ground (arith, h, find_or_add-aborts me m e n)
                  | inr ((q, a, metadata, y), n) ↦
                      let made = record m { allocator = a; metadata = metadata; system = y } in
                      let same : Tracked made = record {
                        distinct = valid.distinct;
                        count = valid.count;
                        share = valid.share;
                      } in
                      let tracked =
                        add_cache-Tracked flag me q made same (fresh q a metadata y n) in
                      let eq : m' ≡ add_cache flag me q made =
                        ground (arith, h, find_or_add-adds me m q a metadata y e n) in
                      rw eq tracked
                ]
          | inr (q, e) ↦
              let eq : m' ≡ m = ground (arith, h, find_or_add-found me m e) in rw eq valid
        ]

    -- A new cache at an address that no cache has keeps the list, and the share, right.
    pub create_cache_if_necessary-Tracked :
        (self : ℕ) (m m' : Caches Y) (p : Ptr)
        → Tracked m
        → ((q : Ptr) (a : Area) (metadata : ℕ) (y : Y)
            → new system_alloc thread_cache_size m.allocator m.metadata m.system
              ≡ some (q, a, metadata, y)
            → has q m.heaps ≡ false)
        → create_cache_if_necessary system_alloc flag self m ≡ some (p, m')
        → Tracked m'
    create_cache_if_necessary-Tracked self m m' p valid fresh h =
        let (made, e, q) = create_cache-made self m m' p h in
        let tracked =
          find_or_add-Tracked (if m.tsd_inited then self else 0) m made p valid fresh e in
        rw q ((set_specific-keeps self p made).3 tracked)
