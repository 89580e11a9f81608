-- ===== src/Profiler/Run.antt =====
-- Samples, flushes and the end of a profile in src/profiler.cpp: no sample is lost or counted for
-- another stack.
use ferp.Common.{
  ℕ, ◌+◌, ◌≤◌, ◌≡◌, sym, subst, refl, true, Option, none, some, List, [], ◌∷◌, if◌then◌else◌, arith,
}
use ferp.Profiler.{ProfileData, add_stack, add, sample_stack, flush_table}
use ferp.Profiler.Records.{Record}
use ferp.Profiler.Flush.{Sampled, flush_table-Sampled}
use ferp.Profiler.Sample.{add_stack-Sampled, stack_taken}

-- A signal with its program counter and frames, or a call of FlushTable.
pub data Event : Type 0 where
  signal : ℕ → ℕ → (ℕ → ℕ) → Event
  flush : Event

abbrev pub FramesInRange : List Event → Type 0
FramesInRange [] = Unit {0}
FramesInRange (signal pc n trace ∷ es) = (n ≤ 63) × FramesInRange es
FramesInRange (flush ∷ es) = FramesInRange es

pub run : List Event → ProfileData → Option ProfileData
run [] p = some p
run (signal pc n trace ∷ es) p = elim (add pc n trace p) [ none ↦ none | some p' ↦ run es p' ]
run (flush ∷ es) p = run es (flush_table p)

-- The stacks of the signals, the last one first.
pub taken : List Event → List (List ℕ) → List (List ℕ)
taken [] seen = seen
taken (signal pc n trace ∷ es) seen = taken es (stack_taken pc n trace ∷ seen)
taken (flush ∷ es) seen = taken es seen

add-enabled :
    (pc n : ℕ) (trace : ℕ → ℕ) (p : ProfileData)
    → p.enabled ≡ true
    → add pc n trace p ≡ some (add_stack (n + 1) (sample_stack pc trace) p)
unfolding add
add-enabled pc n trace p h =
    subst
      (λ x.
        (if x then some (add_stack (n + 1) (sample_stack pc trace) p) else none)
        ≡ some (add_stack (n + 1) (sample_stack pc trace) p))
      (sym h) refl

-- What a run ends with.
pub record Ended (es : List Event) (seen : List (List ℕ)) (p : ProfileData) : Type 0 where
  pub last : ProfileData
  pub records : List Record
  pub ran : run es p ≡ some last
  pub sampled : Sampled last (taken es seen) records

pub run-Sampled :
    (es : List Event) (p : ProfileData) (seen : List (List ℕ)) (rs : List Record)
    → FramesInRange es
    → Sampled p seen rs
    → Ended es seen p
unfolding run taken
run-Sampled [] p seen rs h s = record { last = p; records = rs; ran = refl; sampled = s }
run-Sampled (signal pc n trace ∷ es) p seen rs h s =
    let (rs', s') =
      add_stack-Sampled (n + 1) (sample_stack pc trace) p seen rs (omega (arith, h.0)) s in
    let r =
      run-Sampled es (add_stack (n + 1) (sample_stack pc trace) p) (stack_taken pc n trace ∷ seen)
        rs' h.1 s' in
    record {
      last = r.last;
      records = r.records;
      ran = rw (add-enabled pc n trace p s.enabled, run) r.ran;
      sampled = r.sampled;
    }
run-Sampled (flush ∷ es) p seen rs h s =
    let (rs', s') = flush_table-Sampled p seen rs s in
    let r = run-Sampled es (flush_table p) seen rs' h s' in
    record { last = r.last; records = r.records; ran = r.ran; sampled = r.sampled }
