-- ===== src/HeapProfiler/Run.antt =====
-- A heap profile of src/heap-profiler.cpp from its start on, over any allocations and frees.
use ferp.Common.{
  ℕ, ◌%◌, ◌≡◌, ap, refl, Bool, true, false, ◌||◌, Option, none, some, List, [], ◌∷◌, arith,
}
use ferp.Common.Sums.{sum_below_none}
use ferp.Common.Bits.{u32_mod, u64_mod}
use ferp.Traces.{frames}
use ferp.AddressMap.{new}
use ferp.AddressMap.Lookup.{find-new, new-IsValid}
use ferp.HeapProfiler.{
  Bucket, AllocValue, HeapProfile, empty_bucket, early_start_locked, start_locked, record_alloc,
  record_free,
}
use ferp.HeapProfiler.Weights.{weight}
use ferp.HeapProfiler.Recorded.{Log, log_alloc, log_free, Recorded, sum_of}
use ferp.HeapProfiler.Allocs.{record_alloc-Recorded}
use ferp.HeapProfiler.Frees.{record_free-Recorded}

-- An allocation, with its address, its bytes and the frames of its stack, or a free.
pub data Event : Type 0 where
  alloc : ℕ → ℕ → ℕ → (ℕ → ℕ) → Event
  free : ℕ → Event

unfoldable pub run : ℕ → ℕ → List Event → HeapProfile → Option HeapProfile
run i j [] p = some p
run i j (alloc ptr bytes depth key ∷ es) p = run i j es (record_alloc i j ptr bytes depth key p)
run i j (free ptr ∷ es) p = elim (record_free ptr p) [ none ↦ none | some p' ↦ run i j es p' ]

pub log : List Event → Log → Log
log [] l = l
log (alloc ptr bytes depth key ∷ es) l = log es (log_alloc ptr (frames depth key 0, bytes) l)
log (free ptr ∷ es) l = log es (log_free ptr l)

pub run-Recorded :
    (i j : ℕ) (es : List Event) (p : HeapProfile) (l : Log)
    → Recorded p l
    → (p' : HeapProfile) × (run i j es p ≡ some p') × Recorded p' (log es l)
unfolding run log
run-Recorded i j [] p l r = (p, refl, r)
run-Recorded i j (alloc ptr bytes depth key ∷ es) p l r =
    run-Recorded i j es (record_alloc i j ptr bytes depth key p)
      (log_alloc ptr (frames depth key 0, bytes) l)
      (record_alloc-Recorded i j ptr bytes depth key p l r)
run-Recorded i j (free ptr ∷ es) p l r =
    let (p', done, r') = record_free-Recorded ptr p l r in
    let (last, ran, recorded) = run-Recorded i j es p' (log_free ptr l) r' in
    (last, rw (done, run) ran, recorded)

abbrev pub empty_log : Log
empty_log = record { live = λ a. none; made = []; freed = [] }

-- The state after the start.
abbrev pub started : List ℕ → HeapProfile → HeapProfile
started prefix p = record p {
  is_on = true;
  table = λ i. [];
  allocation = new;
  total = empty_bucket;
  num_buckets = 0;
  total_stack_depth = 0;
  last_dump = 0;
  filename_prefix = some prefix;
}

no_weight : (q : List ℕ → Bool) (f : Bucket → ℕ) (bucket : ℕ → Bucket) → weight q f bucket 0 ≡ 0
unfolding weight
no_weight q f bucket = sum_below_none _

pub started-Recorded : (prefix : List ℕ) (p : HeapProfile) → Recorded (started prefix p) empty_log
unfolding sum_of empty_bucket
started-Recorded prefix p = record {
  on = refl;
  chains = λ j. tt;
  valid = new-IsValid AllocValue;
  matches = λ a. rw (find-new {V = AllocValue} a) tt;
  counted = record {
    allocs = λ q. ap (λ w. w % u32_mod) (no_weight q (λ b. b.allocs) p.bucket);
    frees = λ q. ap (λ w. w % u32_mod) (no_weight q (λ b. b.frees) p.bucket);
    alloc_size = λ q. ap (λ w. w % u64_mod) (no_weight q (λ b. b.alloc_size) p.bucket);
    free_size = λ q. ap (λ w. w % u64_mod) (no_weight q (λ b. b.free_size) p.bucket);
  };
  totalled = record { allocs = refl; frees = refl; alloc_size = refl; free_size = refl };
}

-- Whether the profiler is off, and ready to start.
abbrev pub IsOff : HeapProfile → Type 0
IsOff p =
    (p.is_on ≡ false) × (p.filename_prefix ≡ none) × ((p.need_for_leaks || p.self_disable) ≡ false)

pub start_locked-off :
    (prefix : List ℕ) (p : HeapProfile) → IsOff p → start_locked prefix p ≡ some (started prefix p)
unfolding start_locked early_start_locked
start_locked-off prefix p (off, no_prefix, ready) = ground (arith, off, no_prefix, ready)

-- From the start of a profiler that is off, with no file name and nothing that makes it abort, over
-- any allocations and frees, no null pointer is followed, and the buckets and totals agree with a log of
-- the events: for every set of stacks, the counts of allocations and frees, modulo 2 ^ 32, and of
-- their bytes, modulo 2 ^ 64, and the map has the live allocations with the stacks that made them.
pub start_locked-Recorded :
    (prefix : List ℕ) (i j : ℕ) (es : List Event) (p : HeapProfile)
    → IsOff p
    → (p0 : HeapProfile) × (p' : HeapProfile) × (start_locked prefix p ≡ some p0)
      × (run i j es p0 ≡ some p')
      × Recorded p' (log es empty_log)
start_locked-Recorded prefix i j es p off =
    let (p', ran, r) =
      run-Recorded i j es (started prefix p) empty_log (started-Recorded prefix p) in
    (started prefix p, p', start_locked-off prefix p off, ran, r)
