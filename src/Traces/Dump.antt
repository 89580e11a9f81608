-- ===== src/Traces/Dump.antt =====
-- DumpStackTraces of src/tcmalloc.cpp stays in its array, and PrintHeader of src/mallocext.cpp
-- reads what it wrote.
use ferp.Common.{
  ℕ, zero, suc, ◌+◌, ◌≤◌, ◌<◌, ◌≡◌, refl, List, [], ◌∷◌, ◌++◌, leb, length, arith, Bool-cases, inl,
  inr,
}
use ferp.PageHeap.{StackTrace}
use ferp.Traces.{needed_slots, frames, entry, fill, dump_stack_traces}

length-append : (xs ys : List ℕ) → length (xs ++ ys) ≡ length xs + length ys
length-append [] ys = omega arith
length-append (x ∷ xs) ys = omega (arith, length-append xs ys)

pub length-frames : (n : ℕ) (stack : ℕ → ℕ) (d : ℕ) → length (frames n stack d) ≡ n
unfolding frames
length-frames zero stack d = refl
length-frames (suc n) stack d = omega (arith, length-frames n stack (d + 1))

length-entry : (t : StackTrace) → length (entry t) ≡ 3 + t.depth
unfolding entry
length-entry t = omega (arith, length-frames t.depth t.stack 0)

fill-inside :
    (needed used : ℕ) (ts : List StackTrace)
    → used < needed
    → used + length (fill needed used ts) ≤ needed
unfolding fill
fill-inside needed used [] h = omega arith
fill-inside needed used (t ∷ ts) h = elim (Bool-cases (leb needed (used + 3 + t.depth))) [
  | inl e ↦ rw e (omega arith)
  | inr e ↦
      let rest = fill needed (used + 3 + t.depth) ts in
      rw (e, length-append (entry t) rest, length-entry t)
        (omega (arith, fill-inside needed (used + 3 + t.depth) ts (ground arith)))
]

-- However the list of the sampled spans has changed since the slots were counted, DumpStackTraces
-- writes no slot behind the end of its array.
pub dump_stack_traces-inside :
    (counted ts : List StackTrace) → length (dump_stack_traces counted ts) ≤ needed_slots counted
unfolding dump_stack_traces needed_slots
dump_stack_traces-inside counted ts =
    omega (arith, fill-inside (needed_slots counted) 0 ts (omega arith))
