-- ===== src/HeapProfiler/Found.antt =====
-- HaveOnHeapLocked of src/heap-profiler.cpp answers an allocation and its start.
use ferp.Common.{ℕ, ◌≡◌, some, arith}
use ferp.AddressMap.{find}
use ferp.HeapProfiler.{AllocValue, HeapProfile, find_before, have_on_heap_locked}

find_before-find :
    (offset ptr q : ℕ) (v : AllocValue) (p : HeapProfile)
    → find_before offset ptr p ≡ some (q, v)
    → find p.allocation q ≡ some v
unfolding find_before
find_before-find offset ptr q v p h = ground (arith, h)

pub have_on_heap_locked-find :
    (ptr q : ℕ) (v : AllocValue) (p : HeapProfile)
    → have_on_heap_locked ptr p ≡ some (q, v)
    → find p.allocation q ≡ some v
unfolding have_on_heap_locked
have_on_heap_locked-find ptr q v p h =
    ground (arith, h, find_before-find 4 ptr q v p, find_before-find 12 ptr q v p)

-- An address where an allocation starts.
pub have_on_heap_locked-start :
    (q : ℕ) (v : AllocValue) (p : HeapProfile)
    → find p.allocation q ≡ some v
    → have_on_heap_locked q p ≡ some (q, v)
unfolding have_on_heap_locked
have_on_heap_locked-start q v p f = ground (arith, f)
