-- ===== src/HeapChecker/Phases.antt =====
-- IgnoreNonThreadLiveObjectsLocked of src/heapcheck.cpp: the stack of the thread itself, the ignored
-- objects, the allocations under disabled code, and the globals, one after the other.
use ferp.Common.{ℕ, ◌-◌, Option, none, some, List, [], ◌∷◌, ltb, ◌==◌, if◌then◌else◌}
use ferp.AddressMap.{iterate}
use ferp.HeapProfiler.{HeapProfile, have_on_heap_locked}
use ferp.HeapChecker.{
  AllocObject, LeakSearch, must_be_on_heap, thread_stack, ignore_live_objects_locked,
}
use ferp.HeapChecker.Maps.{insert}
use ferp.HeapChecker.Ignore.{Checks}
use ferp.HeapChecker.Disable.{disable_each}

infixl 5 ◌>>=◌
abbrev pub ◌>>=◌ : {A B : Type 0} → Option A → (A → Option B) → Option B
c >>= f = elim c [ none ↦ none | some a ↦ f a ]

-- The search, and the ranges of the stacks.
pub record Marking : Type 0 where
  pub search : LeakSearch
  pub stack_ranges : List (ℕ × ℕ)

unfoldable pub register_stack_range : ℕ → ℕ → Marking → Marking
register_stack_range top bottom m =
    let p1 = if ltb bottom top then bottom else top in
    let p2 = if ltb top bottom then bottom else top in
    record m {
      search = record m.search {
        live_objects =
            record { ptr = p1; size = p2 - p1; place = thread_stack } ∷ m.search.live_objects;
      };
      stack_ranges = insert m.stack_ranges p1 p2;
    }

-- The loop over the ignored objects; `none` is a call of abort.
unfoldable pub push_ignored : HeapProfile → List (ℕ × ℕ) → LeakSearch → Option LeakSearch
push_ignored p [] s = some s
push_ignored p ((ptr, bytes) ∷ es) s =
    let s' : LeakSearch = record s {
      live_objects = record { ptr = ptr; size = bytes; place = must_be_on_heap } ∷ s.live_objects;
    } in
    let rest = push_ignored p es s' in
    elim (have_on_heap_locked ptr p) [
      | none ↦ none
      | some (start, v) ↦ if bytes == v.bytes then rest else none
    ]

module _ (p : HeapProfile) (load : ℕ → ℕ) where
  unfoldable pub ignore_self_stack : Option (ℕ × ℕ) → Marking → Option Marking
  ignore_self_stack none m = some m
  ignore_self_stack (some (top, bottom)) m = do
    let m' = register_stack_range top bottom m
    s ← ignore_live_objects_locked p load m'.search
    some (record m' { search = s })

  unfoldable pub ignore_objects : Option (List (ℕ × ℕ)) → LeakSearch → Option LeakSearch
  ignore_objects none s = some s
  ignore_objects (some objects) s = do
    s' ← push_ignored p objects s
    ignore_live_objects_locked p load s'

  -- The globals of the libraries, in the order of their names.
  unfoldable pub ignore_globals : List (List AllocObject) → LeakSearch → Option LeakSearch
  ignore_globals [] s = some s
  ignore_globals (l ∷ ls) s = elim s.live_objects [
    | o ∷ os ↦ none
    | [] ↦ do
      s' ← ignore_live_objects_locked p load (record s { live_objects = l })
      ignore_globals ls s'
  ]

  -- The globals are `none` where they are not asked for.
  unfoldable pub ignore_non_thread_live_objects_locked :
      Checks → Option (ℕ × ℕ) → Option (List (List AllocObject)) → Marking → Option Marking
  ignore_non_thread_live_objects_locked c self_stack library_live_objects m = do
    m1 ← ignore_self_stack self_stack m
    s2 ← ignore_objects c.ignored_objects m1.search
    s3 ←
        ignore_live_objects_locked p load
          (disable_each c m1.stack_ranges p.bucket (iterate p.allocation) s2)
    s4 ← elim library_live_objects [ none ↦ some s3 | some ls ↦ ignore_globals ls s3 ]
    some (record m1 { search = s4 })
