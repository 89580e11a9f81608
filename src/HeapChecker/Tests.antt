-- ===== src/HeapChecker/Tests.antt =====
-- The theorems on the heap checker at two allocations, where a global points to the first, and a word
-- of the first to the second.
use mathlib.Core.List.{Memᴰ}
use mathlib.Core.List.Memᴰ
use ferp.Common.{
  ℕ, ◌∙◌, ◌≡◌, refl, ap, true, false, none, some, List, [], ◌∷◌, ◌==◌, if◌then◌else◌, inl, inr,
  arith,
}
use ferp.AddressMap.{AddressMap, find, new, insert}
use ferp.AddressMap.Lookup.{IsValid, insert-IsValid, new-IsValid, find-insert}
use ferp.AddressMap.Placed.{IsPlaced}
use ferp.AddressMap.Visited.{insert-IsPlaced, new-IsPlaced}
use ferp.HeapProfiler.Leaks.{AreCounted, raised, objects_in, bytes_in, adjust_by_ignored_objects}
use ferp.HeapProfiler.Leaks.Moved.{adjust_by_ignored_objects-back}
use ferp.HeapProfiler.{AllocValue, HeapProfile, Bucket, have_on_heap_locked}
use ferp.HeapProfiler.Found.{have_on_heap_locked-start}
use ferp.HeapChecker.{
  AllocObject, LeakSearch, in_global_data, is_ignored, is_must, ignore_live_objects_locked,
}
use ferp.HeapChecker.Reach.{Reach}
use ferp.HeapChecker.Scan.{AreDistinct}
use ferp.HeapChecker.Mark.{ignore_live_objects_locked-Reach}
use ferp.HeapChecker.Maps.{lookup}
use ferp.HeapChecker.Ignore.{Checks}
use ferp.HeapChecker.Ignore.{ignore_object, un_ignore_object}
use ferp.HeapChecker.Disable.{disable_checks_at, disable_checks_at_locked, have_disabled_checks_at}
use ferp.HeapChecker.Disabled.{have_disabled_checks_at-disable_checks_at}
use ferp.HeapChecker.Ignored.{un_ignore_object-ignore_object}
use ferp.HeapChecker.Phases.{Marking, ignore_non_thread_live_objects_locked}
use ferp.HeapChecker.Roots.{are_there, are_all_there, all_roots, global_roots}
use ferp.HeapChecker.Compose.{IsExact, IsExact-none}
use ferp.HeapChecker.Phased.{AreData}
use ferp.HeapChecker.Whole.{ignore_non_thread_live_objects_locked-IsExact}

abbrev first : AllocValue
first = record { bucket = some 0; bytes = 16 }

abbrev second : AllocValue
second = record { bucket = some 0; bytes = 8 }

abbrev cells : AddressMap AllocValue
cells = insert (insert new 0x1000 first) 0x2000 second

cells-IsValid : IsValid cells
cells-IsValid =
    insert-IsValid (insert new 0x1000 first) 0x2000 second
      (insert-IsValid new 0x1000 first (new-IsValid AllocValue))

cells-IsPlaced : IsPlaced cells
cells-IsPlaced =
    insert-IsPlaced (insert new 0x1000 first) 0x2000 second
      (insert-IsPlaced new 0x1000 first (new-IsPlaced AllocValue))

abbrev zeros : Bucket
zeros = record {
  hash = 0;
  depth = 1;
  stack = λ i. 0x700;
  allocs = 2;
  frees = 0;
  alloc_size = 24;
  free_size = 0;
}

abbrev profile : HeapProfile
profile = record {
  is_on = true;
  dumping = false;
  need_for_leaks = false;
  self_disable = false;
  filename_prefix = none;
  table = λ i. [];
  bucket = λ i. zeros;
  num_buckets = 1;
  total_stack_depth = 1;
  allocation = cells;
  total = zeros;
  last_dump = 0;
  high_water_mark = 0;
  self_disabled = zeros;
  self_disabled_allocation = new;
}

found_second : have_on_heap_locked 0x2000 profile ≡ some (0x2000, second)
found_second =
    have_on_heap_locked-start 0x2000 second profile
      (find-insert (insert new 0x1000 first) 0x2000 0x2000 second)

abbrev memory : ℕ → ℕ
memory a = if a == 0x500 then 0x1000 else if a == 0x1008 then 0x2000 else 0

abbrev at_start : LeakSearch
at_start = record {
  live_objects = record { ptr = 0x500; size = 8; place = in_global_data } ∷ [];
  ignored = [];
  object_count = 0;
  byte_count = 0;
}

global_only : (o : AllocObject) → Memᴰ o at_start.live_objects → is_must o.place ≡ false
global_only o m = elim (Memᴰ.cases_cons m) [
  | inl e ↦ ap (λ x. is_must x.place) e
  | inr r ↦ absurd (Memᴰ.not-nil r)
]

nothing_ignored : (q : ℕ) → is_ignored [] q ≡ false
unfolding is_ignored
nothing_ignored q = refl

ignore_live_objects_locked-Reach_example :
    (s' : LeakSearch) × (ignore_live_objects_locked profile memory at_start ≡ some s')
    × (s'.live_objects ≡ [])
    × AreDistinct s'.ignored
    × ((q : ℕ) → is_ignored s'.ignored q ≡ true → Reach profile memory at_start.live_objects [] q)
    × ((q : ℕ) → Reach profile memory at_start.live_objects [] q → is_ignored s'.ignored q ≡ true)
ignore_live_objects_locked-Reach_example =
    ignore_live_objects_locked-Reach profile memory at_start
      (λ o q v m e f. absurd (ground (arith, global_only o m, e)))
      (λ q r v on f t. absurd (ground (arith, nothing_ignored q, on))) tt

abbrev checks : List (ℕ × ℕ) → Checks
checks es = record {
  heap_checker_on = true;
  ignored_objects = some es;
  disabled_addresses = none;
  disabled_ranges = none;
}

abbrev marking : Marking
marking = record {
  search = record { live_objects = []; ignored = []; object_count = 0; byte_count = 0 };
  stack_ranges = [];
}

second_there : are_all_there profile (some ((0x2000, 8) ∷ [])) ≡ true
unfolding are_there are_all_there
second_there = ground (arith, found_second)

no_globals : AreData (global_roots none)
unfolding global_roots
no_globals o m = absurd (Memᴰ.not-nil m)

ignore_non_thread_live_objects_locked-IsExact_example :
    (m' : Marking) × (ignore_non_thread_live_objects_locked profile memory
        (checks ((0x2000, 8) ∷ []))
        (some (0x508, 0x500))
        none
        marking
      ≡ some m')
    × (m'.search.live_objects ≡ [])
    × IsExact profile memory
        (all_roots profile (checks ((0x2000, 8) ∷ [])) (some (0x508, 0x500)) none [] [])
        m'.search.ignored
ignore_non_thread_live_objects_locked-IsExact_example =
    ignore_non_thread_live_objects_locked-IsExact profile memory (checks ((0x2000, 8) ∷ []))
      (some (0x508, 0x500)) none [] marking refl (IsExact-none profile memory) second_there
      cells-IsValid cells-IsPlaced no_globals

empty_lookup : (V : Type 0) (key : ℕ) → lookup {V = V} [] key ≡ none
unfolding lookup
empty_lookup V key = refl

un_ignore_object-ignore_object_example :
    (c' : Checks) × (ignore_object profile profile 0x9000 0x2000 (checks []) ≡ some c')
    × (un_ignore_object profile 0x2000 c' ≡ some (checks []))
    × (ignore_object profile profile 0x9000 0x2000 c' ≡ none)
    × (are_all_there profile (some []) ≡ true → are_all_there profile c'.ignored_objects ≡ true)
un_ignore_object-ignore_object_example =
    un_ignore_object-ignore_object profile profile 0x9000 0x2000 0x2000 second (checks []) [] refl
      refl refl found_second (empty_lookup ℕ 0x2000)

abbrev told : Checks
told = record {
  heap_checker_on = true;
  ignored_objects = none;
  disabled_addresses = some [];
  disabled_ranges = none;
}

abbrev told_more : Checks
told_more = record told { disabled_addresses = some (0x700 ∷ []) }

disabled_here : disable_checks_at profile profile 0x9000 0xA000 0x700 told ≡ some told_more
unfolding disable_checks_at disable_checks_at_locked is_ignored
disabled_here = refl

have_disabled_checks_at-disable_checks_at_example :
    have_disabled_checks_at 0x700 told_more
    ≡ (if 0x700 == 0x700 then true else have_disabled_checks_at 0x700 told)
have_disabled_checks_at-disable_checks_at_example =
    have_disabled_checks_at-disable_checks_at profile profile 0x9000 0xA000 0x700 0x700 told
      told_more refl disabled_here

first_counted : AreCounted profile (0x1000 ∷ [])
first_counted i m = elim (Memᴰ.cases_cons m) [
  | inl e ↦ (
    first,
    0,
    ap (find cells) e
        ∙ find-insert (insert new 0x1000 first) 0x2000 0x1000 second
        ∙ find-insert new 0x1000 0x1000 first,
    refl,
  )
  | inr r ↦ absurd (Memᴰ.not-nil r)
]

adjust_by_ignored_objects-back_example :
    (p' : HeapProfile) × (adjust_by_ignored_objects false (0x1000 ∷ []) profile ≡ some p')
    × ((j : ℕ)
        → raised
            (p'.bucket j)
            (objects_in profile (0x1000 ∷ []) j)
            (bytes_in profile (0x1000 ∷ []) j)
          ≡ profile.bucket j)
    × (adjust_by_ignored_objects true (0x1000 ∷ []) p' ≡ some profile)
adjust_by_ignored_objects-back_example =
    adjust_by_ignored_objects-back (0x1000 ∷ []) profile first_counted
      (λ j. (omega arith, omega arith))
