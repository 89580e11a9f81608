-- ===== src/Malloc/Tests.antt =====
-- The theorems on the allocation interface at concrete sizes, with thread caches that take memory
-- from a counter.
use ferp.Common.{
  ℕ, ◌+◌, ◌-◌, ◌*◌, ◌%◌, ◌^◌, ◌≤◌, ◌<◌, ◌≡◌, ◌≢◌, ltb, refl, true, false, some, [], if◌then◌else◌,
  arith,
}
use ferp.Common.Bits.{u64_mod}
use ferp.SizeClass.{size_tables, size_class, byte_size_for_class, num_classes}
use ferp.SizeClass.InUse.{last_class}
use ferp.PageHeap.{null, page_shift}
use ferp.PageHeap.Pages.Tests.{flat, counter, heap}
use ferp.Malloc.{Caching, World, do_malloc}
use ferp.Malloc.Align.{aligned_class, find_skip, aligned_class-fits, find_skip-first}
use ferp.Malloc.Library.{calloc, realloc, pvalloc_size}
use ferp.Malloc.Library.Calls.{Cleared, calloc-checked}
use ferp.Malloc.Library.Moves.{Moved, realloc-class}

abbrev bump : Caching flat counter
bump = record {
  Rest = ℕ;
  get_cache = λ w. some w;
  has_cache = λ r. true;
  sample_allocation = λ size r. (false, r);
  allocate = λ size w. some (w.1, w.0, w.1 + size);
  deallocate = λ p cl w. some w;
  insert_one = λ cl p w. some w;
}

abbrev world : World bump
world = record { heap = heap; rest = 4096; sampled_objects = []; errno = 0; memory = λ a. 7 }

abbrev served : World bump
served = record world { rest = 4216 }

calloc-checked_example :
    (u64_mod ≤ 10 * 12 → calloc size_tables {K = bump} 10 12 world ≡ some (null, world))
    × (10 * 12 < u64_mod
        → Cleared
            (10 * 12)
            (do_malloc {K = bump} (10 * 12) world)
            (calloc size_tables {K = bump} 10 12 world))
calloc-checked_example = calloc-checked size_tables 10 12 world (omega arith)

-- The last page of sizes is rounded to 0.
pvalloc_wraps : pvalloc_size 4096 (u64_mod - 1) ≡ 0
unfolding pvalloc_size
pvalloc_wraps = refl

aligned_class-fits_example :
    let cl = size_class size_tables 100 in
    let found = aligned_class (num_classes - cl) size_tables (2 ^ 6) cl in
    (0 < found)
    × (found ≤ last_class)
    × (100 ≤ byte_size_for_class size_tables found)
    × (byte_size_for_class size_tables found % 2 ^ 6 ≡ 0)
aligned_class-fits_example = aligned_class-fits 100 6 (omega arith) (omega arith)

find_skip-first_example :
    let skip = find_skip (2 ^ 2) (2 ^ (2 + page_shift)) 41 0 in
    (skip < 2 ^ 2)
    × ((41 + skip) % 2 ^ 2 ≡ 0)
    × ((41 + skip) * 2 ^ page_shift % 2 ^ (2 + page_shift) ≡ 0)
    × ((i : ℕ) → i < skip → 0 < (41 + i) % 2 ^ 2)
find_skip-first_example = find_skip-first 2 41 (omega arith) (omega arith)

-- The span at 5 has objects of the class 40.
abbrev classed : World bump
classed = record world {
  heap = record heap { spans = λ p. record (heap.spans p) { sizeclass = 40 } };
}

realloc-class_example :
    let old_size = byte_size_for_class size_tables 40 in
    let new_length = byte_size_for_class size_tables (size_class size_tables 3000) in
    (new_length ≡ old_size
      → (3000 ≤ old_size)
        × (realloc size_tables {K = bump} 163840 3000 classed ≡ some (163840, classed)))
    × (new_length ≢ old_size
        → Moved 163840
            (if ltb old_size 3000 then old_size else 3000)
            (do_malloc {K = bump} 3000 classed)
            (realloc size_tables {K = bump} 163840 3000 classed))
realloc-class_example =
    realloc-class 163840 5 3000 40 classed (omega arith) (omega arith) (omega arith) (omega arith)
      (omega arith) refl refl
