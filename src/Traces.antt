-- ===== src/Traces.antt =====
-- The arrays of stack traces: DumpStackTraces of src/tcmalloc.cpp, which writes one entry for each
-- sampled span, and the walk of PrintHeader in src/mallocext.cpp over such an array. The numbers of
-- slots are ints, taken to fit, and memory for the array is taken to be there.
pub mod Dump
mod Tests
use ferp.Common.{
  ℕ, zero, suc, ◌+◌, ◌-◌, ◌*◌, ◌/◌, ◌%◌, Bool, true, false, Option, none, some, List, [], ◌∷◌, ◌++◌,
  leb, if◌then◌else◌, drop,
}
use ferp.PageHeap.{StackTrace, add64}

-- The first loop of DumpStackTraces, and the slop.
pub count_slots : List StackTrace → ℕ
count_slots [] = 0
count_slots (t ∷ ts) = 3 + t.depth + count_slots ts

pub needed_slots : List StackTrace → ℕ
needed_slots ts = let n = count_slots ts + 100 in n + n / 8

-- The stack of an entry from a frame on, and the entry.
unfoldable pub frames : ℕ → (ℕ → ℕ) → ℕ → List ℕ
frames zero stack d = []
frames (suc left) stack d = stack d ∷ frames left stack (d + 1)

pub entry : StackTrace → List ℕ
entry t = 1 ∷ t.size ∷ t.depth ∷ frames t.depth t.stack 0

-- The second loop, and the 0 behind its entries.
pub fill : ℕ → ℕ → List StackTrace → List ℕ
fill needed used [] = 0 ∷ []
fill needed used (t ∷ ts) =
    if leb needed (used + 3 + t.depth)
    then 0 ∷ []
    else entry t ++ fill needed (used + 3 + t.depth) ts

-- The list may have changed between the loops, which hold the lock apart.
pub dump_stack_traces : List StackTrace → List StackTrace → List ℕ
dump_stack_traces counted ts = fill (needed_slots counted) 0 ts

-- The loop of PrintHeader, on fuel: the count and the size of all entries. `none` is a read behind
-- the end.
pub header_totals : ℕ → List ℕ → ℕ → ℕ → Option (ℕ × ℕ)
header_totals fuel [] count size = none
header_totals zero (c ∷ cs) count size = none
header_totals (suc fuel) (zero ∷ cs) count size = some (count, size)
header_totals (suc fuel) (suc c ∷ []) count size = none
header_totals (suc fuel) (suc c ∷ s ∷ []) count size = none
header_totals (suc fuel) (suc c ∷ s ∷ d ∷ cs) count size =
    header_totals fuel (drop d cs) (add64 count (suc c)) (add64 size s)
