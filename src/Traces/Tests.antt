-- ===== src/Traces/Tests.antt =====
-- The theorems on stack traces at two sampled spans.
use ferp.Common.{◌+◌, ◌≤◌, [], ◌∷◌, length}
use ferp.PageHeap.{StackTrace}
use ferp.Traces.{needed_slots, dump_stack_traces}
use ferp.Traces.Dump.{dump_stack_traces-inside}

abbrev one : StackTrace
one = record { size = 100; depth = 2; stack = λ d. 4096 + d }

abbrev two : StackTrace
two = record { size = 300; depth = 1; stack = λ d. 8192 }

dump_stack_traces-inside_example :
    length (dump_stack_traces (one ∷ []) (one ∷ two ∷ [])) ≤ needed_slots (one ∷ [])
dump_stack_traces-inside_example = dump_stack_traces-inside (one ∷ []) (one ∷ two ∷ [])
