-- ===== src/HeapChecker/Leaks.antt =====
-- IgnoreAllLiveObjectsLocked and DumpProfileLocked of src/heapcheck.cpp, where the registers of other
-- threads cannot be read, as in a build without DUMPER: what a leak check counts. The file of the dump
-- is taken to open; what the checker allocates and frees for itself in the check is given as a list.
mod Tests
use mathlib.Core.List.{Memᴰ}
use mathlib.Core.List.Memᴰ
use ferp.Common.{ℕ, Option, none, some, List, [], ◌∷◌, if◌then◌else◌}
use ferp.HeapProfiler.{Bucket, HeapProfile, record_disabled_alloc, record_disabled_free}
use ferp.HeapProfiler.Dump.{get_heap_profile}
use ferp.HeapProfiler.Leaked.{is_quiet}
use ferp.HeapChecker.{AllocObject, ignore_live_objects_locked}
use ferp.HeapChecker.Reach.{Reach}
use ferp.HeapChecker.Ignore.{Checks}
use ferp.HeapChecker.Phases.{Marking, ignore_non_thread_live_objects_locked}

-- How far ListAllProcessThreads gets with the callback IgnoreLiveThreads: it is not called, the
-- callback is not reached, or breaks off, or ends.
pub data ThreadListing : Type 0 where
  unlisted not_started interrupted completed : ThreadListing

pub new_marking : Marking
new_marking = record {
  search = record { live_objects = []; ignored = []; object_count = 0; byte_count = 0 };
  stack_ranges = [];
}

-- What the checker allocates for itself, with the address and the bytes, and frees.
pub data OwnCall : Type 0 where
  own_alloc : ℕ → ℕ → OwnCall
  own_free : ℕ → OwnCall

pub run_own : List OwnCall → HeapProfile → HeapProfile
run_own [] p = p
run_own (own_alloc ptr bytes ∷ calls) p = run_own calls (record_disabled_alloc ptr bytes p)
run_own (own_free ptr ∷ calls) p = run_own calls (record_disabled_free ptr p)

module _ (load : ℕ → ℕ) (c : Checks) (self : Option (ℕ × ℕ))
    (libraries : Option (List (List AllocObject))) where
  -- The callback looks for what the stacks of other threads reach, of which it has found none.
  pub ignore_live_threads : HeapProfile → Marking → Option Marking
  ignore_live_threads p m = elim (ignore_live_objects_locked p load m.search) [
    | none ↦ none
    | some s ↦
        ignore_non_thread_live_objects_locked p load c self libraries (record m { search = s })
  ]

  pub ignore_all_live_objects_locked : ThreadListing → HeapProfile → Option Marking
  ignore_all_live_objects_locked interrupted p = none
  ignore_all_live_objects_locked completed p = ignore_live_threads p new_marking
  ignore_all_live_objects_locked unlisted p =
      ignore_non_thread_live_objects_locked p load c self libraries new_marking
  ignore_all_live_objects_locked not_started p =
      ignore_non_thread_live_objects_locked p load c self libraries new_marking

  -- The profile that is left, the ignored allocations, and the counts of the dump. The checker's own
  -- calls change what no other step reads, so that they come in one place.
  pub dump_profile_locked :
      List OwnCall → ThreadListing → Bucket → HeapProfile → Option (HeapProfile × List ℕ × Bucket)
  dump_profile_locked own listing profile p = elim (ignore_all_live_objects_locked listing p) [
    | none ↦ none
    | some m ↦ elim (get_heap_profile m.search.ignored profile p) [
      | none ↦ none
      | some (p', total) ↦
          let q = run_own own p' in if is_quiet q then some (q, m.search.ignored, total) else none
    ]
  ]
