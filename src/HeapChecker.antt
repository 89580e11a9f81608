-- ===== src/HeapChecker.antt =====
-- The search for leaks in src/heapcheck.cpp: which live allocations can be reached from stacks,
-- globals and ignored objects, on a 64-bit machine. The memory of the program is a function that
-- answers the 32 bits at an address, since the source loads a uint32; the allocations are those
-- of the heap profiler.
pub mod Reach
pub mod Scan
pub mod Round
pub mod Mark
pub mod Maps
pub mod Disable
pub mod Disabled
pub mod Ignore
pub mod Ignored
mod Tests
pub mod Phases
pub mod Compose
pub mod Roots
pub mod Phased
pub mod Whole
pub mod Leaks
use ferp.Common.{
  ℕ, zero, suc, ◌+◌, ◌-◌, ◌/◌, ◌%◌, Bool, true, false, Option, none, some, List, [], ◌∷◌, leb, ◌==◌,
  if◌then◌else◌, length,
}
use ferp.Common.Bits.{u64_mod}
use ferp.AddressMap.{iterate}
use ferp.HeapProfiler.{HeapProfile, have_on_heap_locked}

pub data ObjectPlacement : Type 0 where
  must_be_on_heap ignored_on_heap in_global_data thread_stack thread_registers : ObjectPlacement

pub record AllocObject : Type 0 where
  pub ptr : ℕ
  pub size : ℕ
  pub place : ObjectPlacement

-- The stack of objects to look into, the top first; the set of the allocations that are not
-- leaked, the last one first; and the counts of the objects and bytes put into it.
pub record LeakSearch : Type 0 where
  pub live_objects : List AllocObject
  pub ignored : List ℕ
  pub object_count : ℕ
  pub byte_count : ℕ

-- sizeof(void*)
abbrev pub word : ℕ
word = 8

pub is_ignored : List ℕ → ℕ → Bool
is_ignored [] q = false
is_ignored (x ∷ xs) q = if x == q then true else is_ignored xs q

abbrev pub is_must : ObjectPlacement → Bool
is_must must_be_on_heap = true
is_must _ = false

-- The first aligned address in an object, and the size from there on.
pub align_object : ℕ → ℕ → ℕ × ℕ
align_object object size =
    let remainder = object % word in
    if remainder == 0 then (object, size) else (
      (object + (word - remainder)) % u64_mod,
      if leb (word - remainder) size then size - (word - remainder) else 0,
    )

module _ (p : HeapProfile) (load : ℕ → ℕ) where
  -- An object that is taken off the stack, with its start if it is found on the heap.
  pub take_object : AllocObject → LeakSearch → ℕ × LeakSearch
  take_object o s =
      if is_must o.place
      then elim (have_on_heap_locked o.ptr p) [
        | none ↦ (o.ptr, s)
        | some (start, v) ↦ (
          start,
          if is_ignored s.ignored start then s else record s {
            ignored = start ∷ s.ignored;
            object_count = (s.object_count + 1) % u64_mod;
            byte_count = (s.byte_count + o.size) % u64_mod;
          },
        )
      ]
      else (o.ptr, s)

  -- A word that was loaded.
  pub try_pointer : ℕ → LeakSearch → LeakSearch
  try_pointer ptr s = if ptr == 0 then s else elim (have_on_heap_locked ptr p) [
    | none ↦ s
    | some (start, v) ↦ if is_ignored s.ignored start then s else record s {
      live_objects =
          record { ptr = start; size = v.bytes; place = ignored_on_heap } ∷ s.live_objects;
      ignored = start ∷ s.ignored;
      object_count = (s.object_count + 1) % u64_mod;
      byte_count = (s.byte_count + v.bytes) % u64_mod;
    }
  ]

  -- The inner loop, for the words that are left.
  pub scan_words : ℕ → ℕ → LeakSearch → LeakSearch
  scan_words zero object s = s
  scan_words (suc left) object s =
      scan_words left ((object + word) % u64_mod) (try_pointer (load object) s)

  -- One round of the loop.
  pub look_into : AllocObject → LeakSearch → LeakSearch
  look_into o s =
      let (object, s') = take_object o s in
      let (start, size) = align_object object o.size in scan_words (size / word) start s'

  -- The loop, on fuel.
  pub search : ℕ → LeakSearch → Option LeakSearch
  search zero s = elim s.live_objects [ [] ↦ some s | o ∷ os ↦ none ]
  search (suc fuel) s = elim s.live_objects [
    | [] ↦ some s
    | o ∷ os ↦ search fuel (look_into o (record s { live_objects = os }))
  ]

  -- A round for each object on the stack and for each allocation.
  pub ignore_live_objects_locked : LeakSearch → Option LeakSearch
  ignore_live_objects_locked s = search (length s.live_objects + length (iterate p.allocation)) s
