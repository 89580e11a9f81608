-- ===== src/Malloc.antt =====
-- The allocation interface of src/tcmalloc.cpp: do_malloc, do_free, do_memalign and the functions
-- of the C library over them, for one running thread. The page heap is that of PageHeap; the
-- thread caches are the interface Caching. `memory` has the bytes of live objects. The messages
-- and the hooks of MallocHk are left out.
pub mod Align
pub mod Library
pub mod Operators
mod Tests
use ferp.Common.{
  ℕ, zero, suc, ◌+◌, ◌-◌, ◌*◌, ◌/◌, ◌%◌, ◌^◌, Bool, true, false, not, ◌&&◌, ◌||◌, Option, none,
  some, List, [], ◌∷◌, ltb, leb, ◌==◌, if◌then◌else◌, update, bit_and, bit_or,
}
use ferp.Common.Bits.{u64_mod, u32_mod, shr, shl}
use ferp.SizeClass.{
  Tables, num_classes, max_size, page_size, size_class, byte_size_for_class, pages, allocation_size,
}
use ferp.PageMap.Interface.{PageMap}
use ferp.PageHeapAllocator.{new, delete}
use ferp.PageHeap.{
  Ptr, null, Span, StackTrace, System, PageHeap, M, get_descriptor, dll_remove, add64, sub64,
  int_of, page_shift, stack_trace_size, max_stack_depth,
}
use ferp.PageHeap.Pages.{new_pages, split, delete_pages}
use ferp.Malloc.Align.{is_aligned, aligned_class, find_skip}

abbrev pub enomem : ℕ
enomem = 12

abbrev pub einval : ℕ
einval = 22

-- What the interface uses of the thread caches and the central lists: GetCache, GetCacheIfPresent
-- != NULL, the test of the sampling flag with SampleAllocation, Allocate, Deallocate, and the
-- InsertRange of one object. `none` is abort().
pub record Caching (P : PageMap) (Y : System) : Type 1 where
  pub Rest : Type 0
  pub get_cache : PageHeap P Y × Rest → Option (PageHeap P Y × Rest)
  pub has_cache : Rest → Bool
  pub sample_allocation : ℕ → Rest → Bool × Rest
  pub allocate : ℕ → PageHeap P Y × Rest → Option (Ptr × PageHeap P Y × Rest)
  pub deallocate : Ptr → ℕ → PageHeap P Y × Rest → Option (PageHeap P Y × Rest)
  pub insert_one : ℕ → Ptr → PageHeap P Y × Rest → Option (PageHeap P Y × Rest)

module _ {P : PageMap} {Y : System} (K : Caching P Y) where
  pub record World : Type 0 where
    pub heap : PageHeap P Y
    pub rest : K.Rest
    pub sampled_objects : List Ptr
    pub errno : ℕ
    pub memory : ℕ → ℕ

  abbrev pub W : Type 0 → Type 0
  W A = World → Option (A × World)

module _ {P : PageMap} {Y : System} {K : Caching P Y} where
  abbrev pub pure : {A : Type 0} → A → W K A
  pure a w = some (a, w)

  infixl 5 ◌>>=◌ ◌>>◌
  abbrev pub ◌>>=◌ : {A B : Type 0} → W K A → (A → W K B) → W K B
  ◌>>=◌ c f w = elim (c w) [ none ↦ none | some (a, w') ↦ f a w' ]

  abbrev pub ◌>>◌ : {B : Type 0} → W K (Unit {0}) → W K B → W K B
  c >> k = c >>= λ _. k

  abbrev pub modify : (World K → World K) → W K (Unit {0})
  modify f w = some (tt, f w)

  -- A step of the page heap, and one of the caches.
  pub in_heap : {A : Type 0} → M P Y A → W K A
  in_heap c w = elim (c w.heap) [ none ↦ none | some (a, h) ↦ some (a, record w { heap = h }) ]

  pub in_caches : (PageHeap P Y × K.Rest → Option (PageHeap P Y × K.Rest)) → W K (Unit {0})
  in_caches c w = elim (c (w.heap, w.rest)) [
    | none ↦ none
    | some (h, r) ↦ some (tt, record w { heap = h; rest = r })
  ]

  abbrev pub span_of : Ptr → W K Span
  span_of p w = some (w.heap.spans p, w)

  abbrev pub store_span : Ptr → Span → W K (Unit {0})
  store_span p s = modify λ w. record w { heap = record w.heap { spans = update w.heap.spans p s } }

  -- `span->start << kPageShift`, or NULL without a span.
  pub address_of : Ptr → W K Ptr
  address_of p = if p == null then pure null else (span_of p >>= λ s. pure (shl s.start page_shift))

  -- The stack trace of a sampled span, if there is memory for it.
  pub record_sample : ℕ → Ptr → W K (Unit {0})
  record_sample size p w =
      let h = w.heap in
      elim (new Y.system_alloc stack_trace_size h.stacktrace_allocator h.metadata_system_bytes
        h.system) [
          | none ↦ none
          | some (q, a, metadata, s) ↦
              let (depth, stack) = Y.get_stack_trace max_stack_depth s in
              let trace : StackTrace = record { size = size; depth = depth; stack = stack } in
              some (
                tt,
                record w {
                  heap = record h {
                    stacktrace_allocator = a;
                    metadata_system_bytes = metadata;
                    system = s;
                    traces = update h.traces q trace;
                    spans = update h.spans p (record (h.spans p) { sample = true; objects = q });
                  };
                  sampled_objects = p ∷ w.sampled_objects;
                },
              )
        ]

  pub do_sampled_allocation : ℕ → W K Ptr
  do_sampled_allocation size = do
    span ← in_heap (new_pages (pages (if size == 0 then 1 else size)))
    if span == null then pure null else (record_sample size span >> pure span)

  pub sample : ℕ → W K Bool
  sample size w =
      let (sampled, r) = K.sample_allocation size w.rest in some (sampled, record w { rest = r })

  pub allocate_small : ℕ → W K Ptr
  allocate_small size w = elim (K.allocate size (w.heap, w.rest)) [
    | none ↦ none
    | some (p, h, r) ↦ some (p, record w { heap = h; rest = r })
  ]

  pub do_malloc : ℕ → W K Ptr
  do_malloc size = do
    in_caches K.get_cache
    sampled ← sample size
    ret ←
        (if sampled
          then (do_sampled_allocation size >>= address_of)
          else if ltb max_size size
          then (in_heap (new_pages (pages size)) >>= address_of)
          else allocate_small size)
    if ret == null then (modify (λ w. record w { errno = enomem }) >> pure ret) else pure ret

  -- The branch of do_free for a span without a class.
  pub free_span : Ptr → W K (Unit {0})
  free_span p = do
    span ← span_of p
    if span.sample
        then (do
          modify λ w. record w {
            sampled_objects = dll_remove p w.sampled_objects;
            heap = record w.heap {
              stacktrace_allocator = delete span.objects w.heap.stacktrace_allocator;
            };
          }
          store_span p (record span { objects = null }))
        else pure tt
    in_heap (delete_pages p)

  pub has_cache : W K Bool
  has_cache w = some (K.has_cache w.rest, w)

  pub do_free : Ptr → W K (Unit {0})
  do_free ptr = if ptr == null then pure tt else (do
    p ← in_heap (get_descriptor (shr ptr page_shift))
    span ← span_of p
    cached ← has_cache
    if not (span.sizeclass == 0)
        then (if cached
            then in_caches (K.deallocate ptr span.sizeclass)
            else in_caches (K.insert_one span.sizeclass ptr))
        else free_span p)
