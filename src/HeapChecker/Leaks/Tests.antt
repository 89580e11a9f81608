-- ===== src/HeapChecker/Leaks/Tests.antt =====
-- The theorem on a leak check at two allocations, where a global points to the first, and a word of
-- the first to the second.
use mathlib.Core.List.Memᴰ
use ferp.Common.{ℕ, Option, true, false, none, some, List, [], ◌∷◌, ◌==◌, if◌then◌else◌}
use ferp.AddressMap.{new}
use ferp.HeapProfiler.Run.{Event, alloc}
use ferp.HeapProfiler.Leaked.{started_for_leaks}
use ferp.HeapChecker.Leaks.{OwnCall, own_alloc, own_free}
use ferp.HeapProfiler.{record_alloc, HeapProfile, Bucket}
use ferp.HeapChecker.{AllocObject, in_global_data}
use ferp.HeapChecker.Ignore.{Checks}

abbrev zeros : Bucket
zeros = record {
  hash = 0;
  depth = 1;
  stack = λ i. 0x700;
  allocs = 2;
  frees = 0;
  alloc_size = 24;
  free_size = 0;
}

abbrev memory : ℕ → ℕ
memory a = if a == 0x500 then 0x1000 else if a == 0x1008 then 0x2000 else 0

abbrev idle : HeapProfile
idle = record {
  is_on = false;
  dumping = false;
  need_for_leaks = false;
  self_disable = false;
  filename_prefix = none;
  table = λ i. [];
  bucket = λ i. zeros;
  num_buckets = 0;
  total_stack_depth = 0;
  allocation = new;
  total = zeros;
  last_dump = 0;
  high_water_mark = 0;
  self_disabled = zeros;
  self_disabled_allocation = new;
}

abbrev at_first : HeapProfile
at_first = started_for_leaks idle

abbrev later : HeapProfile
later =
    record_alloc 1000000 1000000 0x2000 8 1 (λ i. 0x700)
      (record_alloc 1000000 1000000 0x1000 16 1 (λ i. 0x700) at_first)

abbrev events : List Event
events = alloc 0x1000 16 1 (λ i. 0x700) ∷ alloc 0x2000 8 1 (λ i. 0x700) ∷ []

abbrev no_checks : Checks
no_checks = record {
  heap_checker_on = true;
  ignored_objects = none;
  disabled_addresses = none;
  disabled_ranges = none;
}

abbrev global_cell : Option (List (List AllocObject))
global_cell = some ((record { ptr = 0x500; size = 8; place = in_global_data } ∷ []) ∷ [])

-- The checker allocates its stack of objects and frees it.
abbrev own_calls : List OwnCall
own_calls = own_alloc 0x9000 24 ∷ own_free 0x9000 ∷ []
