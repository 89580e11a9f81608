-- ===== src/Malloc/Library.antt =====
-- The functions of the C library in src/tcmalloc.cpp: calloc, realloc, memalign and its kin.
pub mod Calls
pub mod Moves
use ferp.Common.{
  ℕ, zero, suc, ◌+◌, ◌-◌, ◌*◌, ◌/◌, ◌%◌, ◌^◌, Bool, true, false, not, ◌&&◌, ◌||◌, Option, none,
  some, List, [], ◌∷◌, ltb, leb, ◌==◌, if◌then◌else◌, bit_and,
}
use ferp.Common.Bits.{u64_mod, shr, shl}
use ferp.SizeClass.{
  Tables, num_classes, max_size, page_size, size_class, byte_size_for_class, pages, allocation_size,
}
use ferp.PageMap.Interface.{PageMap}
use ferp.PageHeap.{Ptr, null, Span, System, get_descriptor, add64, int_of, page_shift}
use ferp.PageHeap.Pages.{new_pages, split, delete_pages}
use ferp.Malloc.{
  Caching, World, W, pure, ◌>>=◌, ◌>>◌, modify, in_heap, in_caches, span_of, address_of,
  allocate_small, do_malloc, do_free, enomem, einval,
}
use ferp.Malloc.Align.{is_aligned, aligned_class, find_skip}

-- memset to 0, and memcpy.
pub clear : ℕ → ℕ → (ℕ → ℕ) → ℕ → ℕ
clear p size memory a = if leb p a && ltb a (p + size) then 0 else memory a

pub copy : ℕ → ℕ → ℕ → (ℕ → ℕ) → ℕ → ℕ
copy to from size memory a =
    if leb to a && ltb a (to + size) then memory (from + (a - to)) else memory a

-- The class that do_memalign allocates from; kNumClasses is none.
pub memalign_class : Tables → ℕ → ℕ → ℕ
memalign_class t align size =
    if leb size max_size && ltb align page_size
    then aligned_class (num_classes - size_class t size) t align (size_class t size)
    else num_classes

-- The test of realloc, on the old and the new size.
pub must_move : Tables → ℕ → ℕ → Bool
must_move t old_size new_size = ltb old_size new_size || ltb (allocation_size t new_size) old_size

-- The first test of posix_memalign, with pointers of eight bytes.
pub bad_alignment : ℕ → Bool
bad_alignment align = not (align % 8 == 0) || not (is_aligned align align) || align == 0

-- The size that pvalloc rounds to, for a page size that is a power of two.
unfoldable pub pvalloc_size : ℕ → ℕ → ℕ
pvalloc_size pagesize size = bit_and ((size + pagesize - 1) % u64_mod) (u64_mod - pagesize)

module _ (t : Tables) {P : PageMap} {Y : System} {K : Caching P Y} where
  -- The pages before the first aligned one, where the int is positive, go back to the page heap.
  pub drop_front : Ptr → ℕ → W K Ptr
  drop_front span skip =
      if ltb 0 skip && ltb skip (2 ^ 31)
      then (do rest ← in_heap (split span skip); in_heap (delete_pages span); pure rest)
      else pure span

  -- So do the pages behind the last one needed.
  pub drop_back : Ptr → ℕ → W K (Unit {0})
  drop_back span needed = do
    s ← span_of span
    if ltb needed s.length
        then (do trailer ← in_heap (split span needed); in_heap (delete_pages trailer))
        else pure tt

  -- The end of do_memalign, for alignments of more than a page; `skip` and `needed` are ints.
  pub memalign_pages : ℕ → ℕ → W K Ptr
  memalign_pages align size = do
    span ← in_heap (new_pages (int_of (pages (add64 size align))))
    if span == null then pure null else (do
      s ← span_of span
      front ← drop_front span (find_skip (align / page_size) align s.start 0)
      drop_back front (int_of (pages size))
      address_of front)

  pub do_memalign : ℕ → ℕ → W K Ptr
  do_memalign align size0 =
      let size = if size0 == 0 then 1 else size0 in
      let cl = memalign_class t align size in
      if ltb (add64 size0 align) size0
      then pure null
      else if ltb cl num_classes
      then (in_caches K.get_cache >> allocate_small (byte_size_for_class t cl))
      else if leb align page_size
      then (in_heap (new_pages (pages size)) >>= address_of)
      else memalign_pages align size

  pub calloc : ℕ → ℕ → W K Ptr
  calloc n elem_size =
      let size = n * elem_size % u64_mod in
      if not (elem_size == 0) && not (size / elem_size == n) then pure null else (do
        result ← do_malloc size
        if result == null
            then pure null
            else (modify (λ w. record w { memory = clear result size w.memory }) >> pure result))

  pub old_size_of : Ptr → W K ℕ
  old_size_of ptr = do
    p ← in_heap (get_descriptor (shr ptr page_shift))
    span ← span_of p
    pure (
        if not (span.sizeclass == 0)
        then byte_size_for_class t span.sizeclass
        else shl span.length page_shift)

  -- The branch of realloc that moves the object.
  pub move_object : Ptr → ℕ → ℕ → W K Ptr
  move_object old_ptr old_size new_size = do
    new_ptr ← do_malloc new_size
    if new_ptr == null then pure null else (do
      modify λ w. record w {
        memory =
            copy new_ptr old_ptr (if ltb old_size new_size then old_size else new_size) w.memory;
      }
      do_free old_ptr
      pure new_ptr)

  pub realloc : Ptr → ℕ → W K Ptr
  realloc old_ptr new_size =
      if old_ptr == null
      then do_malloc new_size
      else if new_size == 0
      then (do_free old_ptr >> pure null)
      else (do
        old_size ← old_size_of old_ptr
        if must_move t old_size new_size
            then move_object old_ptr old_size new_size
            else pure old_ptr)

  -- The status, and what *result_ptr gets.
  pub posix_memalign : ℕ → ℕ → W K (ℕ × Option Ptr)
  posix_memalign align size =
      if bad_alignment align
      then pure (einval, none)
      else (do_memalign align size >>= λ result.
          pure (if result == null then (enomem, none) else (0, some result)))

  -- `pagesize` is what getpagesize() answers.
  pub valloc : ℕ → ℕ → W K Ptr
  valloc pagesize size = do_memalign pagesize size

  pub pvalloc : ℕ → ℕ → W K Ptr
  pvalloc pagesize size = do_memalign pagesize (pvalloc_size pagesize size)
