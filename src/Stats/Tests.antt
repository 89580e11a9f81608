-- ===== src/Stats/Tests.antt =====
-- The theorems on the statistics at concrete numbers.
use ferp.Common.{
  ℕ, ◌/◌, ◌%◌, ◌^◌, ◌≡◌, ltb, ◌==◌, if◌then◌else◌, Bool-cases, inl, inr, ◌*◌, refl, true, false,
  some, [], ◌∷◌, arith,
}
use ferp.Common.Bits.{u64_mod, u32_mod}
use ferp.SizeClass.{Tables, size_tables, num_classes, byte_size_for_class}
use ferp.PageHeap.{null, add64}
use ferp.PageHeap.Pages.Tests.{heap}
use ferp.PageHeapAllocator.{empty_area}
use ferp.Central.{PageSource, Store, is_empty}
use ferp.PageHeap.Rings.{chained}
use ferp.Central.Counted.{Counted}
use ferp.Central.Transfer.Batches.{AreFull, IsGood}
use ferp.Central.Transfer.{moves}
use ferp.ThreadCache.{empty_list}
use ferp.ThreadCache.Caches.{Caches, thread_share, min_thread_cache_size, max_thread_cache_size}
use ferp.ThreadCache.Caches.Tracked.{Tracked}
use ferp.Stats.{
  TcmallocStats, extract_stats, bytes_in_use, Property, get_numeric_property, set_numeric_property,
  mallinfo,
}
use ferp.Stats.Totals.{
  allocated-bytes_in_use, extract_stats-Totals, set_numeric_property-Tracked, class_sum, batched,
  total_size,
}

abbrev stats : TcmallocStats
stats = record {
  system_bytes = 10485760;
  thread_bytes = 4096;
  central_bytes = 8192;
  transfer_bytes = 2048;
  pageheap_bytes = 1048576;
  metadata_bytes = 131072;
}

allocated-bytes_in_use_example :
    (get_numeric_property stats 16777216 Property.current_allocated_bytes
      ≡ some (add64 (bytes_in_use stats) 2048))
    × ((mallinfo stats).uordblks ≡ bytes_in_use stats % u32_mod)
allocated-bytes_in_use_example =
    allocated-bytes_in_use stats 16777216 (omega arith) (omega arith) (omega arith) (omega arith)
      (omega arith)

abbrev no_pages : PageSource
no_pages = record {
  Heap = ℕ;
  get_descriptor = λ h page. null;
  start_of = λ h p. 0;
  length_of = λ h p. 0;
  class_of = λ h p. 0;
  new_span = λ npages cl h. (null, h);
  delete_span = λ p h. h;
}

-- Every list has two objects in a chain, and the last one a batch in its slots.
abbrev store : Store no_pages
store = record {
  heap = 0;
  objects = λ p. if p == 5 then 40960 ∷ 73728 ∷ [] else [];
  refcount = λ p. 0;
  central = λ cl. record {
    empty = [];
    nonempty = 5 ∷ [];
    counter = 2;
    slots = if cl == 168 then (4096 ∷ 36864 ∷ []) ∷ [] else [];
    cache_size = 1;
  };
  race_counter = 0;
}

store-Counted : (j : ℕ) → Counted (store.central j) store.objects
unfolding is_empty
store-Counted j = record {
  distinct = (refl, tt);
  distinct_empty = tt;
  chains = λ p h. ground arith;
  no_chains = λ p h. ground arith;
  count = refl;
}

pair-AreFull :
    (t : Tables) (j : ℕ)
    → moves t 168 ≡ 2
    → AreFull (moves t j) (if j == 168 then (4096 ∷ 36864 ∷ []) ∷ [] else [])
pair-AreFull t j two = elim (Bool-cases (j == 168)) [
  | inl e ↦ let same : j ≡ 168 = ground arith in rw (e, same, two) (refl, tt)
  | inr e ↦ rw e tt
]

moves_two : moves size_tables 168 ≡ 2
unfolding size_tables
moves_two = refl

store-IsGood : IsGood size_tables store
store-IsGood j = pair-AreFull size_tables j moves_two

abbrev process : Caches ℕ
process = record {
  heaps = 8192 ∷ 4096 ∷ [];
  cache = λ p. record {
    size = p;
    tid = 1;
    in_setspecific = false;
    list = λ cl. empty_list;
    rnd = 1;
    bytes_until_sample = 0;
  };
  heap_count = 2;
  overall_size = 16777216;
  per_thread_size = thread_share 16777216 2;
  tsd_inited = true;
  specific = λ self. null;
  sampler = record { sample_period = 262147; last_flag_value = 262144 };
  allocator = empty_area;
  metadata = 0;
  system = 1048576;
}

extract_stats-Totals_example :
    ((extract_stats size_tables store process heap).central_bytes
      ≡ class_sum
          (λ j.
            byte_size_for_class size_tables j * chained store.objects (store.central j).nonempty)
          num_classes)
    × ((extract_stats size_tables store process heap).transfer_bytes
        ≡ class_sum
            (λ j. byte_size_for_class size_tables j * batched (store.central j).slots)
            num_classes)
    × ((extract_stats size_tables store process heap).thread_bytes
        ≡ total_size process.cache process.heaps % u64_mod)
extract_stats-Totals_example =
    extract_stats-Totals size_tables store process heap store-Counted (λ j. omega arith)
      store-IsGood (λ j. ground arith)

set_numeric_property-Tracked_example :
    let m' = (set_numeric_property Property.max_total_thread_cache_bytes 100 process).1 in
    let count = if process.heap_count == 0 then 1 else process.heap_count in
    let even = m'.overall_size / count in
    Tracked m'
    × (m'.overall_size ≡ (
        if ltb 100 min_thread_cache_size
        then min_thread_cache_size
        else if ltb (2 ^ 30) 100
        then 2 ^ 30
        else 100))
    × (get_numeric_property stats m'.overall_size Property.max_total_thread_cache_bytes
        ≡ some m'.overall_size)
    × (m'.per_thread_size ≡ (
        if ltb even min_thread_cache_size
        then min_thread_cache_size
        else if ltb max_thread_cache_size even
        then max_thread_cache_size
        else even))
set_numeric_property-Tracked_example =
    set_numeric_property-Tracked 100 process stats
      (record { distinct = (refl, (refl, tt)); count = refl; share = refl })
