-- ===== src/Profiler/Tests.antt =====
-- The theorems on profiles at two signals and a flush.
use ferp.Common.{ℕ, ◌+◌, ◌≡◌, refl, false, Option, some, List, [], ◌∷◌, ltb, if◌then◌else◌, arith}
use ferp.Profiler.{ProfileData, empty_entry}
use ferp.Profiler.Run.{Event, signal, flush}
use ferp.Profiler.Finish.{Profiled, profile-Profiled}
use ferp.Profiler.Write.{write_loop, write_loop-all}

abbrev off : ProfileData
off = record {
  hash = λ b a. empty_entry;
  evicted = [];
  file = [];
  enabled = false;
  count = 0;
  evictions = 0;
  total_bytes = 0;
  fname = [];
  frequency = 100;
  start_time = 0;
  overflowed = false;
}

abbrev events : List Event
events = signal 4096 2 (λ i. 8192 + i) ∷ flush ∷ signal 4096 2 (λ i. 8192 + i) ∷ []

profile-Profiled_example : Profiled 1700000000 (112 ∷ []) events off
profile-Profiled_example =
    profile-Profiled 1700000000 (112 ∷ []) events off refl (omega arith, (omega arith, tt))

-- A file that takes two bytes at a time, and counts its calls.
abbrev two_at_a_time : ℕ → ℕ → Option ℕ × ℕ
two_at_a_time asked s = (some (if ltb asked 2 then asked else 2), s + 1)

write_loop-all_example :
    (s' : ℕ) × (write_loop two_at_a_time 3 (7 ∷ 8 ∷ 9 ∷ []) 0 ≡ some (7 ∷ 8 ∷ 9 ∷ [], s'))
write_loop-all_example =
    write_loop-all two_at_a_time (7 ∷ 8 ∷ 9 ∷ []) 0
      (λ asked s h. (if ltb asked 2 then asked else 2, refl, ground arith, ground arith))
