-- ===== src/HeapProfiler/Tests.antt =====
-- The theorem on heap profiles at two allocations and a free.
use ferp.Common.{◌+◌, ◌≡◌, refl, false, none, some, List, [], ◌∷◌}
use ferp.AddressMap.{new}
use ferp.HeapProfiler.{HeapProfile, Bucket, start_locked}
use ferp.HeapProfiler.Recorded.{Recorded}
use ferp.HeapProfiler.Run.{Event, alloc, free, run, log, empty_log, start_locked-Recorded}

abbrev zeros : Bucket
zeros = record {
  hash = 0;
  depth = 0;
  stack = λ i. 0;
  allocs = 0;
  frees = 0;
  alloc_size = 0;
  free_size = 0;
}

abbrev idle : HeapProfile
idle = record {
  is_on = false;
  dumping = false;
  need_for_leaks = false;
  self_disable = false;
  filename_prefix = none;
  table = λ i. [];
  bucket = λ i. zeros;
  num_buckets = 0;
  total_stack_depth = 0;
  allocation = new;
  total = zeros;
  last_dump = 0;
  high_water_mark = 0;
  self_disabled = zeros;
  self_disabled_allocation = new;
}

abbrev events : List Event
events = alloc 4096 100 2 (λ i. 8192 + i) ∷ alloc 8192 50 2 (λ i. 8192 + i) ∷ free 4096 ∷ []

start_locked-Recorded_example :
    (p0 : HeapProfile) × (p' : HeapProfile) × (start_locked (104 ∷ []) idle ≡ some p0)
    × (run 1000000 1000000 events p0 ≡ some p')
    × Recorded p' (log events empty_log)
start_locked-Recorded_example =
    start_locked-Recorded (104 ∷ []) 1000000 1000000 events idle (refl, refl, refl)
