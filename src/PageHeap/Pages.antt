-- ===== src/PageHeap/Pages.antt =====
-- TCMalloc_PageHeap of src/tcmalloc.cpp: Carve, Split, Delete, RegisterSizeClass, GrowHeap, New
-- and Check. ASSERT is compiled away.
pub mod Join
pub mod Enter
pub mod Register
pub mod Delete
pub mod Split
pub mod Tests
use ferp.Common.{
  ℕ, zero, suc, ◌+◌, ◌-◌, ◌*◌, ◌/◌, ◌%◌, ◌^◌, Bool, true, false, ◌&&◌, Option, none, some, List, [],
  ◌∷◌, ltb, leb, ◌==◌, if◌then◌else◌, update,
}
use ferp.Common.Bits.{u64_mod, shr, shl}
use ferp.PageMap.Interface.{PageMap}
use ferp.PageHeapAllocator.{new}
use ferp.PageHeap.{
  Ptr, null, Span, StackTrace, System, PageHeap, M, pure, ◌>>=◌, ◌>>◌, gets, modify, span_of,
  store_span, get_descriptor, set_page, new_span, delete_span, record_span, unlink, link, add64,
  sub64, int_of, int_positive, max_pages, page_shift, min_system_alloc, stack_trace_size,
  big_allocation_threshold, max_stack_depth, best_fit, first_fit,
}

module _ {P : PageMap} {Y : System} where
  pub carve : Ptr → ℕ → M P Y (Unit {0})
  carve p n = do
    unlink p
    span ← span_of p
    store_span p (record span { free = false })
    let extra = int_of (sub64 span.length n)
    if int_positive extra
        then (do
          leftover ← new_span (add64 span.start n) extra
          fresh ← span_of leftover
          store_span leftover (record fresh { free = true })
          record_span leftover
          link extra leftover
          carved ← span_of p
          store_span p (record carved { length = n })
          set_page (sub64 (add64 span.start n) 1) p)
        else pure tt

  pub split : Ptr → ℕ → M P Y Ptr
  split p n = do
    span ← span_of p
    leftover ← new_span (add64 span.start n) (int_of (sub64 span.length n))
    record_span leftover
    set_page (sub64 (add64 span.start n) 1) p
    span' ← span_of p
    store_span p (record span' { length = n })
    pure leftover

  -- `p != NULL && p->free`
  pub is_free : Ptr → M P Y Bool
  is_free p = if p == null then pure false else gets (λ h. (h.spans p).free)

  -- The free span `prev`, which ends before the span at `p`, becomes a part of it.
  pub absorb_prev : Ptr → Ptr → M P Y (Unit {0})
  absorb_prev p prev = do
    before ← span_of prev
    unlink prev
    delete_span prev
    span ← span_of p
    let start = sub64 span.start before.length
    store_span p (record span { start = start; length = add64 span.length before.length })
    set_page start p

  pub join_prev : Ptr → ℕ → M P Y (Unit {0})
  join_prev p page = do
    prev ← get_descriptor (sub64 page 1)
    joins ← is_free prev
    if joins then absorb_prev p prev else pure tt

  -- The free span `next`, which starts behind the span at `p`, becomes a part of it.
  pub absorb_next : Ptr → Ptr → M P Y (Unit {0})
  absorb_next p next = do
    after ← span_of next
    unlink next
    delete_span next
    span ← span_of p
    let length = add64 span.length after.length
    store_span p (record span { length = length })
    set_page (sub64 (add64 span.start length) 1) p

  pub join_next : Ptr → ℕ → M P Y (Unit {0})
  join_next p page = do
    next ← get_descriptor page
    joins ← is_free next
    if joins then absorb_next p next else pure tt

  -- The end of Delete: the span is free and goes into its list, `n` pages are counted.
  pub enter_free : Ptr → ℕ → M P Y (Unit {0})
  enter_free p n = do
    joined ← span_of p
    store_span p (record joined { free = true })
    link joined.length p
    modify (λ h. record h { free_pages = add64 h.free_pages n })

  pub delete_pages : Ptr → M P Y (Unit {0})
  delete_pages p = do
    span ← span_of p
    store_span p (record span { sizeclass = 0; sample = false })
    join_prev p span.start
    join_next p (add64 span.start span.length)
    enter_free p span.length

  -- The loop of RegisterSizeClass, for the pages that are left.
  pub register_pages : ℕ → ℕ → ℕ → Ptr → M P Y (Unit {0})
  register_pages zero start i p = pure tt
  register_pages (suc left) start i p = do
    set_page (add64 start i) p
    register_pages left start (i + 1) p

  pub register_size_class : Ptr → ℕ → M P Y (Unit {0})
  register_size_class p sc = do
    span ← span_of p
    store_span p (record span { sizeclass = sc % 256 })
    register_pages (sub64 span.length 1 - 1) span.start 1 p

  -- RecordGrowth; the assignment `growth = t` writes the parameter, which nothing reads.
  pub record_growth : ℕ → M P Y (Unit {0})
  record_growth growth h =
      elim (new Y.system_alloc stack_trace_size h.stacktrace_allocator h.metadata_system_bytes
        h.system) [
          | none ↦ none
          | some (t, a, metadata, s) ↦
              let (depth, stack) = Y.get_stack_trace (max_stack_depth - 1) s in
              let trace : StackTrace = record {
                size = growth;
                depth = depth;
                stack = update stack (max_stack_depth - 1) growth;
              } in
              some (
                tt,
                record h {
                  stacktrace_allocator = a;
                  metadata_system_bytes = metadata;
                  system = s;
                  traces = update h.traces t trace;
                },
              )
        ]

  pub system_pages : ℕ → M P Y ℕ
  system_pages ask h =
      let (p, s) = Y.system_alloc (shl ask page_shift) (2 ^ page_shift) h.system in
      some (p, record h { system = s })

  -- The pages asked for and the address, after the second try for fewer pages.
  pub ask_system : ℕ → M P Y (ℕ × ℕ)
  ask_system n = do
    let ask = if ltb min_system_alloc n then n else min_system_alloc
    ptr ← system_pages ask
    if (ptr == null) && ltb n ask
        then (do ptr' ← system_pages n; pure (n, ptr'))
        else pure (ask, ptr)

  pub preallocate : ℕ → M P Y (Unit {0})
  preallocate old = modify λ h.
      if ltb old big_allocation_threshold && leb big_allocation_threshold h.system_bytes
      then record h { pagemap = P.preallocate h.pagemap }
      else h

  -- Ensure; the allocator of the nodes is a part of the page map, so that their bytes are not counted
  -- in `metadata_system_bytes`.
  pub ensure_pages : ℕ → ℕ → M P Y Bool
  ensure_pages page n h = elim (P.ensure h.pagemap page n) [
    | none ↦ none
    | some (ok, m) ↦ some (ok, record h { pagemap = m })
  ]

  pub grow_heap : ℕ → M P Y Bool
  grow_heap n = do
    (ask, ptr) ← ask_system n
    if ptr == null then pure false else (do
      record_growth (shl ask page_shift)
      old ← gets (λ h. h.system_bytes)
      modify (λ h. record h { system_bytes = add64 h.system_bytes (shl ask page_shift) })
      let page = shr ptr page_shift
      preallocate old
      ok ← ensure_pages (sub64 page 1) (add64 ask 2)
      if ok
          then (do span ← new_span page ask; record_span span; delete_pages span; pure true)
          else pure false)

  -- Carve and the count of the free pages, on both ways of New.
  pub take_pages : Ptr → ℕ → M P Y Ptr
  take_pages p n = do
    carve p n
    modify (λ h. record h { free_pages = sub64 h.free_pages n })
    pure p

  pub best_large : ℕ → M P Y Ptr
  best_large n = gets λ h. best_fit h.spans n h.large null

  -- The rounds of New over the large spans: the heap grows after the first.
  pub new_large : ℕ → M P Y Ptr
  new_large n = do
    best ← best_large n
    if best == null
        then (do
          grown ← grow_heap n
          if grown
              then (do
                again ← best_large n
                if again == null then pure null else take_pages again n)
              else pure null)
        else take_pages best n

  pub new_pages : ℕ → M P Y Ptr
  new_pages n = if n == 0 then pure null else (do
    small ← gets (λ h. first_fit (max_pages - n) h.free n)
    if small == null then new_large n else take_pages small n)

  -- CheckList; `none` is a failed CHECK_CONDITION.
  pub check_list : ℕ → ℕ → List Ptr → M P Y Bool
  check_list min_length max_length [] = pure true
  check_list min_length max_length (p ∷ ps) = do
    span ← span_of p
    first ← get_descriptor span.start
    last ← get_descriptor (sub64 (add64 span.start span.length) 1)
    if span.free
          && leb min_length span.length
          && leb span.length max_length
          && (first == p)
          && (last == p)
        then check_list min_length max_length ps
        else λ h. none

  pub check_small : ℕ → ℕ → M P Y Bool
  check_small zero s = pure true
  check_small (suc left) s = do
    list ← gets (λ h. h.free s)
    fine ← check_list s s list
    check_small left (s + 1)

  pub check : M P Y Bool
  check = do
    large ← gets (λ h. h.large)
    fine ← check_list max_pages 1000000000 large
    check_small (max_pages - 1) 1
