-- ===== src/ThreadCache/Caches.antt =====
-- The thread caches of a process in src/tcmalloc.cpp: GetCache, CreateCacheIfNecessary,
-- DeleteCache, InitTSD and RecomputeThreadCacheSize. `thread_heaps`, with `next_` and `prev_`, is the
-- list of the caches' addresses, first to last; pthread_self is an argument, and the values of
-- pthread_getspecific are a function of the thread.
pub mod Tracked
mod Tests
use ferp.Common.{
  ℕ, zero, suc, ◌+◌, ◌-◌, ◌*◌, ◌/◌, ◌%◌, ◌≤◌, ◌<◌, ◌≡◌, refl, Bool, true, false, not, ◌&&◌, Option,
  none, some, List, [], ◌∷◌, ltb, leb, ◌==◌, if◌then◌else◌, update, length, arith,
}
use ferp.SizeClass.{Tables}
use ferp.PageHeap.{Ptr, null}
use ferp.PageHeapAllocator.{SystemAlloc, Area, new, delete}
use ferp.ThreadCache.{Center, ThreadCache, cleanup}
use ferp.ThreadCache.Sampling.{Sampler, init}

abbrev pub min_thread_cache_size : ℕ
min_thread_cache_size = 65536

abbrev pub max_thread_cache_size : ℕ
max_thread_cache_size = 2097152

-- sizeof(TCMalloc_ThreadCache) on a 64-bit machine.
abbrev pub thread_cache_size : ℕ
thread_cache_size = 2776

module _ (Y : Type 0) where
  pub record Caches : Type 0 where
    pub heaps : List Ptr
    pub cache : Ptr → ThreadCache
    pub heap_count : ℕ
    pub overall_size : ℕ
    pub per_thread_size : ℕ
    pub tsd_inited : Bool
    pub specific : ℕ → Ptr
    pub sampler : Sampler
    pub allocator : Area
    pub metadata : ℕ
    pub system : Y

-- The statements of RecomputeThreadCacheSize.
unfoldable pub thread_share : ℕ → ℕ → ℕ
thread_share overall count =
    let space = overall / (if ltb 0 count then count else 1) in
    let raised = if ltb space min_thread_cache_size then min_thread_cache_size else space in
    if ltb max_thread_cache_size raised then max_thread_cache_size else raised

-- The search for the cache of a thread, first to last.
pub find_cache : (Ptr → ThreadCache) → ℕ → List Ptr → Option Ptr
find_cache cache me [] = none
find_cache cache me (h ∷ hs) = if (cache h).tid == me then some h else find_cache cache me hs

pub unlink_cache : Ptr → List Ptr → List Ptr
unlink_cache p [] = []
unlink_cache p (h ∷ hs) = if h == p then hs else h ∷ unlink_cache p hs

-- The loop of InitTSD.
pub claim_caches : ℕ → List Ptr → (Ptr → ThreadCache) → Ptr → ThreadCache
claim_caches self [] cache = cache
claim_caches self (h ∷ hs) cache =
    claim_caches self hs
      (if (cache h).tid == 0 then update cache h (record (cache h) { tid = self }) else cache)

module _ {Y : Type 0} where
  unfoldable pub recompute_thread_cache_size : Caches Y → Caches Y
  recompute_thread_cache_size m = record m {
    per_thread_size = thread_share m.overall_size m.heap_count;
  }

  pub init_tsd : ℕ → Caches Y → Caches Y
  init_tsd self m = record m { tsd_inited = true; cache = claim_caches self m.heaps m.cache }

  pub get_cache_if_present : ℕ → Caches Y → Ptr
  get_cache_if_present self m = if m.tsd_inited then m.specific self else null

  -- A new cache at an address goes in front.
  pub add_cache : ℕ → ℕ → Ptr → Caches Y → Caches Y
  add_cache flag me p m =
      let (sampler, c) = init flag p me m.sampler in
      recompute_thread_cache_size (record m {
        heaps = p ∷ m.heaps;
        cache = update m.cache p c;
        heap_count = m.heap_count + 1;
        sampler = sampler;
      })

  pub remove_cache : Ptr → Caches Y → Caches Y
  remove_cache p m =
      let left =
        recompute_thread_cache_size
          (record m { heaps = unlink_cache p m.heaps; heap_count = m.heap_count - 1 }) in
      record left { allocator = delete p left.allocator }

  -- pthread_setspecific, if the cache is not there yet.
  pub set_specific : ℕ → Ptr → Caches Y → Caches Y
  set_specific self p m =
      if not (m.cache p).in_setspecific && m.tsd_inited
      then record m { specific = update m.specific self p }
      else m

  module _ (system_alloc : SystemAlloc Y) (flag : ℕ) where
    -- `none` is abort() in the allocator of the caches.
    pub find_or_add : ℕ → Caches Y → Option (Ptr × Caches Y)
    find_or_add me m = elim (find_cache m.cache me m.heaps) [
      | some p ↦ some (p, m)
      | none ↦ elim (new system_alloc thread_cache_size m.allocator m.metadata m.system) [
        | none ↦ none
        | some (p, a, metadata, y) ↦
            some
              (p, add_cache flag me p (record m { allocator = a; metadata = metadata; system = y }))
      ]
    ]

    pub create_cache_if_necessary : ℕ → Caches Y → Option (Ptr × Caches Y)
    create_cache_if_necessary self m = elim (find_or_add (if m.tsd_inited then self else 0) m) [
      | none ↦ none
      | some (p, m') ↦ some (p, set_specific self p m')
    ]

    -- `init_module` is InitModule, which sets up the other parts of the allocator.
    pub get_cache : (Caches Y → Caches Y) → ℕ → Caches Y → Option (Ptr × Caches Y)
    get_cache init_module self m =
        let m' = if m.tsd_inited then m else init_module m in
        let p = if m.tsd_inited then m.specific self else null in
        if p == null then create_cache_if_necessary self m' else some (p, m')

  pub delete_cache : (t : Tables) (C : Center) → Ptr → Caches Y → C.State → Caches Y × C.State
  delete_cache t C p m s =
      let (c, s') = cleanup t C (m.cache p) s in
      (remove_cache p (record m { cache = update m.cache p c }), s')
