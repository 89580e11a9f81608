-- ===== src/HeapProfiler.antt =====
-- The records of src/heap-profiler.cpp: a bucket for each stack that has allocated, the totals, and
-- the map of the live allocations. A pointer to a bucket is its number, in the order in which they
-- were made, and a chain of the table is a list of them. Addresses, and the frames that
-- GetStackTrace answers, are arguments.
pub mod Memory
pub mod Weights
pub mod Found
pub mod Recorded
pub mod Allocs
pub mod Frees
pub mod Run
pub mod Leaks
pub mod Dump
pub mod Totals
pub mod Leaked
mod Tests
use ferp.Common.{
  ℕ, ◌+◌, ◌-◌, ◌%◌, ◌^◌, Bool, true, false, ◌&&◌, ◌||◌, Option, none, some, List, [], ◌∷◌, ltb, leb,
  ◌==◌, if◌then◌else◌, update,
}
use ferp.Common.Bits.{u32_mod, u64_mod}
use ferp.AddressMap.{AddressMap, new, find, insert, find_and_remove}
use ferp.Profiler.{hash_stack, same_stack}

abbrev pub hash_table_size : ℕ
hash_table_size = 179999

pub record Bucket : Type 0 where
  pub hash : ℕ
  pub depth : ℕ
  pub stack : ℕ → ℕ
  pub allocs : ℕ
  pub frees : ℕ
  pub alloc_size : ℕ
  pub free_size : ℕ

-- `none` is the null pointer.
pub record AllocValue : Type 0 where
  pub bucket : Option ℕ
  pub bytes : ℕ

pub record HeapProfile : Type 0 where
  pub is_on : Bool
  pub dumping : Bool
  pub need_for_leaks : Bool
  pub self_disable : Bool
  pub filename_prefix : Option (List ℕ)
  pub table : ℕ → List ℕ
  pub bucket : ℕ → Bucket
  pub num_buckets : ℕ
  pub total_stack_depth : ℕ
  pub allocation : AddressMap AllocValue
  pub total : Bucket
  pub last_dump : ℕ
  pub high_water_mark : ℕ
  pub self_disabled : Bucket
  pub self_disabled_allocation : AddressMap AllocValue

unfoldable pub empty_bucket : Bucket
empty_bucket = record {
  hash = 0;
  depth = 0;
  stack = λ i. 0;
  allocs = 0;
  frees = 0;
  alloc_size = 0;
  free_size = 0;
}

-- The loop of GetBucket over the chain.
pub search_chain : List ℕ → (ℕ → Bucket) → ℕ → ℕ → (ℕ → ℕ) → Option ℕ
search_chain [] bucket h depth key = none
search_chain (b ∷ bs) bucket h depth key =
    elim ((bucket b).hash == h
      && ((bucket b).depth == depth && same_stack depth (bucket b).stack key 0)) [
        | true ↦ some b
        | false ↦ search_chain bs bucket h depth key
      ]

-- A bucket at the front of its chain.
pub new_bucket : ℕ → ℕ → (ℕ → ℕ) → HeapProfile → HeapProfile
new_bucket h depth key p =
    let buck = h % u32_mod % hash_table_size in
    record p {
      bucket =
          update p.bucket p.num_buckets
            (record empty_bucket { hash = h; depth = depth; stack = key });
      table = update p.table buck (p.num_buckets ∷ p.table buck);
      num_buckets = p.num_buckets + 1;
      total_stack_depth = p.total_stack_depth + depth;
    }

pub get_bucket : ℕ → (ℕ → ℕ) → HeapProfile → ℕ × HeapProfile
get_bucket depth key p =
    let h = hash_stack depth key 0 0 in
    elim (search_chain (p.table (h % u32_mod % hash_table_size)) p.bucket h depth key) [
      | some b ↦ (b, p)
      | none ↦ (p.num_buckets, new_bucket h depth key p)
    ]

pub count_alloc : ℕ → Bucket → Bucket
count_alloc bytes b = record b {
  allocs = (b.allocs + 1) % u32_mod;
  alloc_size = (b.alloc_size + bytes) % u64_mod;
}

pub count_free : ℕ → Bucket → Bucket
count_free bytes b = record b {
  frees = (b.frees + 1) % u32_mod;
  free_size = (b.free_size + bytes) % u64_mod;
}

-- The order of 64-bit words as signed numbers.
abbrev pub signed : ℕ → ℕ
signed w = (w + 2 ^ 63) % u64_mod

-- The decision for a dump; DumpLocked, which writes a file, is left out.
pub consider_dump : ℕ → ℕ → HeapProfile → HeapProfile
consider_dump allocation_interval inuse_interval p =
    let inuse_bytes = (p.total.alloc_size + u64_mod - p.total.free_size) % u64_mod in
    if p.dumping
    then p
    else if leb (signed ((p.last_dump + allocation_interval) % u64_mod)) (signed p.total.alloc_size)
    then record p { last_dump = p.total.alloc_size }
    else if ltb (signed ((p.high_water_mark + inuse_interval) % u64_mod)) (signed inuse_bytes)
    then record p { high_water_mark = inuse_bytes }
    else p

-- RecordAlloc after the frames to strip are known, where profiling is on for the thread.
pub record_alloc : ℕ → ℕ → ℕ → ℕ → ℕ → (ℕ → ℕ) → HeapProfile → HeapProfile
record_alloc allocation_interval inuse_interval ptr bytes depth key p =
    if p.is_on
    then (let (b, p') = get_bucket depth key p in
        consider_dump allocation_interval inuse_interval (record p' {
          bucket = update p'.bucket b (count_alloc bytes (p'.bucket b));
          total = count_alloc bytes p'.total;
          allocation = insert p'.allocation ptr (record { bucket = some b; bytes = bytes });
        }))
    else p

-- RecordAlloc and RecordFree for the thread that has switched profiling off.
pub record_disabled_alloc : ℕ → ℕ → HeapProfile → HeapProfile
record_disabled_alloc ptr bytes p = record p {
  self_disabled = count_alloc bytes p.self_disabled;
  self_disabled_allocation =
      insert p.self_disabled_allocation ptr (record { bucket = none; bytes = bytes });
}

pub record_disabled_free : ℕ → HeapProfile → HeapProfile
record_disabled_free ptr p =
    let (v, m) = find_and_remove p.self_disabled_allocation ptr in
    elim v [
      | some v ↦ record p {
        self_disabled = count_free v.bytes p.self_disabled;
        self_disabled_allocation = m;
      }
      | none ↦ record p {
        self_disabled = record p.self_disabled {
          free_size = (p.self_disabled.free_size + 100000000) % u64_mod;
          frees = (p.self_disabled.frees + 100000000) % u32_mod;
        };
        self_disabled_allocation = m;
      }
    ]

-- `none` is an access through a null pointer.
pub record_free : ℕ → HeapProfile → Option HeapProfile
record_free ptr p =
    if p.is_on
    then (let (v, m) = find_and_remove p.allocation ptr in
        elim v [
          | none ↦ some (record p { allocation = m })
          | some v ↦ elim v.bucket [
            | none ↦ none
            | some b ↦ some (record p {
              bucket = update p.bucket b (count_free v.bytes (p.bucket b));
              total = count_free v.bytes p.total;
              allocation = m;
            })
          ]
        ])
    else some p

-- An allocation of more than `offset` bytes that starts as much before the pointer.
pub find_before : ℕ → ℕ → HeapProfile → Option (ℕ × AllocValue)
find_before offset ptr p =
    let start = (ptr + u64_mod - offset) % u64_mod in
    elim (find p.allocation start) [
      | some v ↦ if ltb offset v.bytes then some (start, v) else none
      | none ↦ none
    ]

-- The allocation that a pointer points into: at its start, or behind the length of an array or the
-- head of a string.
pub have_on_heap_locked : ℕ → HeapProfile → Option (ℕ × AllocValue)
have_on_heap_locked ptr p = elim (find p.allocation ptr) [
  | some v ↦ some (ptr, v)
  | none ↦ elim (find_before 4 ptr p) [ some out ↦ some out | none ↦ find_before 12 ptr p ]
]

-- HaveOnHeap, for callers without the lock.
unfoldable pub have_on_heap : ℕ → HeapProfile → Option (ℕ × AllocValue)
have_on_heap ptr p = if p.is_on then have_on_heap_locked ptr p else none

-- A new profile; `none` is abort(). The hooks, and the allocation by which the number of frames to
-- strip is found, are left out.
unfoldable pub early_start_locked : HeapProfile → Option HeapProfile
early_start_locked p = if p.need_for_leaks || p.self_disable then none else elim p.filename_prefix [
  | some prefix ↦ none
  | none ↦ some (record p {
    is_on = true;
    table = λ i. [];
    allocation = new;
    total = empty_bucket;
    num_buckets = 0;
    total_stack_depth = 0;
    last_dump = 0;
  })
]

pub start_locked : List ℕ → HeapProfile → Option HeapProfile
start_locked prefix p = elim p.filename_prefix [
  | some old ↦ some p
  | none ↦
      let started = if p.is_on then some p else early_start_locked p in
      elim started [ none ↦ none | some p' ↦ some (record p' { filename_prefix = some prefix }) ]
]

pub stop_locked : HeapProfile → HeapProfile
stop_locked p =
    if p.is_on
    then (if p.need_for_leaks
        then record p { filename_prefix = none }
        else record p { filename_prefix = none; table = λ i. []; allocation = new; is_on = false })
    else p

unfoldable pub start_for_leaks : HeapProfile → Option HeapProfile
start_for_leaks p =
    let started = if p.is_on then some p else early_start_locked p in
    elim started [
      | none ↦ none
      | some p' ↦ some (record p' {
        need_for_leaks = true;
        self_disabled = empty_bucket;
        self_disabled_allocation = new;
      })
    ]

pub stop_for_leaks : HeapProfile → HeapProfile
stop_for_leaks p = elim p.filename_prefix [
  | none ↦ stop_locked (record p { need_for_leaks = false })
  | some prefix ↦ record p { need_for_leaks = false }
]
