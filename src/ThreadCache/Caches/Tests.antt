-- ===== src/ThreadCache/Caches/Tests.antt =====
-- The theorems on the list of the thread caches, in a process that has two.
use ferp.Common.{ℕ, ◌+◌, ◌≡◌, refl, true, false, some, [], ◌∷◌, arith}
use ferp.PageHeap.{has, Ptr, null}
use ferp.PageHeapAllocator.{SystemAlloc, Area, new}
use ferp.ThreadCache.{ThreadCache, empty_list}
use ferp.ThreadCache.Caches.{
  Caches, thread_share, remove_cache, find_cache, create_cache_if_necessary, find_or_add, add_cache,
  set_specific, thread_cache_size,
}
use ferp.ThreadCache.Caches.Tracked.{
  Tracked, remove_cache-Tracked, create_cache_if_necessary-Tracked,
}

abbrev one_cache : ThreadCache
one_cache = record {
  size = 0;
  tid = 1;
  in_setspecific = false;
  list = λ cl. empty_list;
  rnd = 1;
  bytes_until_sample = 0;
}

-- Memory from a counter.
abbrev counter : SystemAlloc ℕ
counter = λ bytes alignment s. (s, s + bytes)

-- A process with the caches at 4096 and 8192, and a free place for one at 12288.
abbrev process : Caches ℕ
process = record {
  heaps = 8192 ∷ 4096 ∷ [];
  cache = λ p. one_cache;
  heap_count = 2;
  overall_size = 16777216;
  per_thread_size = 2097152;
  tsd_inited = true;
  specific = λ self. null;
  sampler = record { sample_period = 262147; last_flag_value = 262144 };
  allocator = record { free_area = 0; free_avail = 0; free_list = 12288 ∷ []; inuse = 2 };
  metadata = 0;
  system = 1048576;
}

process-Tracked : Tracked process
unfolding thread_share
process-Tracked = record { distinct = (refl, (refl, tt)); count = refl; share = refl }

remove_cache-Tracked_example :
    Tracked (remove_cache 4096 process) × (has 4096 (remove_cache 4096 process).heaps ≡ false)
remove_cache-Tracked_example = remove_cache-Tracked 4096 process process-Tracked refl

-- The list after the thread 9 has got the cache at 12288.
abbrev process_with_9 : Caches ℕ
process_with_9 = set_specific 9 12288 (
    add_cache 262144 9 12288 (record process {
      allocator = record { free_area = 0; free_avail = 0; free_list = []; inuse = 3 };
    }))

created : create_cache_if_necessary counter 262144 9 process ≡ some (12288, process_with_9)
unfolding create_cache_if_necessary find_or_add find_cache new
created = refl

fresh :
    (q : Ptr) (a : Area) (metadata y : ℕ)
    → new counter thread_cache_size process.allocator process.metadata process.system
      ≡ some (q, a, metadata, y)
    → has q process.heaps ≡ false
unfolding new
fresh q a metadata y h = ground (arith, h)

create_cache_if_necessary-Tracked_example : Tracked process_with_9
create_cache_if_necessary-Tracked_example =
    create_cache_if_necessary-Tracked counter 262144 9 process process_with_9 12288 process-Tracked
      fresh created
