-- ===== src/Stats.antt =====
-- The statistics of src/tcmalloc.cpp: ExtractStats, the bytes in use of DumpStats,
-- GetNumericProperty, SetNumericProperty and mallinfo. An `int` that takes part in a 64-bit
-- product is its sign-extended word.
pub mod Totals
mod Tests
use ferp.Common.{
  ℕ, zero, suc, ◌+◌, ◌-◌, ◌*◌, ◌/◌, ◌%◌, ◌^◌, Bool, true, false, Option, none, some, List, [], ◌∷◌,
  ltb, if◌then◌else◌, get_or,
}
use ferp.Common.Bits.{u64_mod, u32_mod, shl}
use ferp.SizeClass.{Tables, num_classes, byte_size_for_class}
use ferp.PageMap.Interface.{PageMap}
use ferp.PageHeap.{Ptr, System, PageHeap, add64, sub64, int_of, page_shift}
use ferp.Central.{PageSource, Store, Central, used_slots}
use ferp.Central.Transfer.{moves}
use ferp.ThreadCache.{ThreadCache}
use ferp.ThreadCache.Caches.{Caches, min_thread_cache_size, recompute_thread_cache_size}

pub record TcmallocStats : Type 0 where
  pub system_bytes : ℕ
  pub thread_bytes : ℕ
  pub central_bytes : ℕ
  pub transfer_bytes : ℕ
  pub pageheap_bytes : ℕ
  pub metadata_bytes : ℕ

-- length() and tc_length()
pub central_length : Central → ℕ
central_length c = int_of c.counter

pub tc_length : Tables → ℕ → Central → ℕ
tc_length t cl c = int_of (used_slots c * moves t cl)

-- The loop over the classes, for the classes that are left.
pub add_classes : Tables → (ℕ → Central) → ℕ → ℕ → ℕ × ℕ → ℕ × ℕ
add_classes t central zero cl (in_spans, in_slots) = (in_spans, in_slots)
add_classes t central (suc left) cl (in_spans, in_slots) = add_classes t central left (cl + 1) (
  add64 in_spans (byte_size_for_class t cl * central_length (central cl) % u64_mod),
  add64 in_slots (byte_size_for_class t cl * tc_length t cl (central cl) % u64_mod),
)

-- The loop over the thread caches.
pub add_caches : (Ptr → ThreadCache) → List Ptr → ℕ → ℕ
add_caches cache [] total = total
add_caches cache (p ∷ ps) total = add_caches cache ps (add64 total (cache p).size)

-- The objects of a class in the lists of the thread caches, for `class_count`.
pub count_lists : ℕ → (Ptr → ThreadCache) → List Ptr → ℕ → ℕ
count_lists cl cache [] total = total
count_lists cl cache (p ∷ ps) total =
    count_lists cl cache ps (add64 total ((cache p).list cl).length_)

pub free_bytes : ℕ → ℕ
free_bytes free_pages = shl free_pages page_shift

module _ (t : Tables) {S : PageSource} {Z : Type 0} {P : PageMap} {Y : System} where
  pub extract_stats : Store S → Caches Z → PageHeap P Y → TcmallocStats
  extract_stats s m h =
      let (in_spans, in_slots) = add_classes t s.central num_classes 0 (0, 0) in
      record {
        system_bytes = h.system_bytes;
        thread_bytes = add_caches m.cache m.heaps 0;
        central_bytes = in_spans;
        transfer_bytes = in_slots;
        pageheap_bytes = free_bytes h.free_pages;
        metadata_bytes = h.metadata_system_bytes;
      }

module _ (t : Tables) {S : PageSource} {Z : Type 0} where
  -- What the loops leave in `class_count[cl]`, if it is asked for.
  pub class_count : Store S → Caches Z → ℕ → ℕ
  class_count s m cl =
      let c = s.central cl in
      count_lists cl m.cache m.heaps (int_of (central_length c + tc_length t cl c))

-- `bytes_in_use` of DumpStats.
pub bytes_in_use : TcmallocStats → ℕ
bytes_in_use r =
    sub64 (sub64 (sub64 (sub64 r.system_bytes r.pageheap_bytes) r.central_bytes) r.transfer_bytes)
      r.thread_bytes

-- The names of the properties; `other` is every further name.
pub data Property : Type 0 where
  current_allocated_bytes : Property
  heap_size : Property
  slack_bytes : Property
  max_total_thread_cache_bytes : Property
  current_total_thread_cache_bytes : Property
  other : Property

-- `none` is the answer false. `overall` is overall_thread_cache_size.
pub get_numeric_property : TcmallocStats → ℕ → Property → Option ℕ
get_numeric_property r overall current_allocated_bytes =
    some (sub64 (sub64 (sub64 r.system_bytes r.thread_bytes) r.central_bytes) r.pageheap_bytes)
get_numeric_property r overall heap_size = some r.system_bytes
get_numeric_property r overall slack_bytes = some r.pageheap_bytes
get_numeric_property r overall max_total_thread_cache_bytes = some overall
get_numeric_property r overall current_total_thread_cache_bytes = some r.thread_bytes
get_numeric_property r overall other = none

pub clamped : ℕ → ℕ
clamped value =
    let raised = if ltb value min_thread_cache_size then min_thread_cache_size else value in
    if ltb (2 ^ 30) raised then 2 ^ 30 else raised

module _ {Z : Type 0} where
  pub set_max_total : ℕ → Caches Z → Caches Z
  set_max_total value m = recompute_thread_cache_size (record m { overall_size = clamped value })

  pub set_numeric_property : Property → ℕ → Caches Z → Bool × Caches Z
  set_numeric_property max_total_thread_cache_bytes value m = (true, set_max_total value m)
  set_numeric_property current_allocated_bytes value m = (false, m)
  set_numeric_property heap_size value m = (false, m)
  set_numeric_property slack_bytes value m = (false, m)
  set_numeric_property current_total_thread_cache_bytes value m = (false, m)
  set_numeric_property other value m = (false, m)

-- The fields that mallinfo fills, as 32-bit words.
pub record Mallinfo : Type 0 where
  pub arena : ℕ
  pub fsmblks : ℕ
  pub fordblks : ℕ
  pub uordblks : ℕ

pub mallinfo : TcmallocStats → Mallinfo
mallinfo r = record {
  arena = r.system_bytes % u32_mod;
  fsmblks = add64 (add64 r.thread_bytes r.central_bytes) r.transfer_bytes % u32_mod;
  fordblks = r.pageheap_bytes % u32_mod;
  uordblks =
      sub64 (sub64 (sub64 (sub64 r.system_bytes r.thread_bytes) r.central_bytes) r.transfer_bytes)
        r.pageheap_bytes
      % u32_mod;
}
