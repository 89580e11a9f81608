-- ===== src/HeapChecker/Whole.antt =====
-- IgnoreNonThreadLiveObjectsLocked of src/heapcheck.cpp against the allocations that can be reached
-- from all it starts at.
use mathlib.Core.List.{append-nil}
use mathlib.Core.List.Memᴰ
use ferp.Common.{ℕ, ◌≡◌, ◌∙◌, ap, sym, subst, refl, true, Option, none, some, List, [], ◌++◌, arith}
use ferp.AddressMap.{iterate}
use ferp.AddressMap.Lookup.{IsValid}
use ferp.AddressMap.Placed.{IsPlaced}
use ferp.AddressMap.Visited.{find-iterate}
use ferp.HeapProfiler.{HeapProfile}
use ferp.HeapChecker.{AllocObject, LeakSearch, ignore_live_objects_locked}
use ferp.HeapChecker.Ignore.{Checks}
use ferp.HeapChecker.Disable.{disable_each}
use ferp.HeapChecker.Phases.{
  Marking, ignore_objects, ignore_globals, ignore_non_thread_live_objects_locked,
}
use ferp.HeapChecker.Compose.{IsExact, next-IsExact}
use ferp.HeapChecker.Roots.{
  stack_roots, disabled_roots, global_roots, are_all_there, ignored_roots, all_roots,
  disable_each-disabled_roots,
}
use ferp.HeapChecker.Phased.{
  AreFound, AreData, Ends, ignore_self_stack-Ends, ignore_objects-Ends, ignore_globals-Ends,
  disabled_roots-IsHonest,
}

module _ (p : HeapProfile) (load : ℕ → ℕ) where
  ignore_objects-all :
      (o : Option (List (ℕ × ℕ))) (roots : List AllocObject) (s : LeakSearch)
      → s.live_objects ≡ []
      → IsExact p load roots s.ignored
      → are_all_there p o ≡ true
      → Ends p load (roots ++ ignored_roots o) (ignore_objects p load o s)
  unfolding ignore_objects are_all_there ignored_roots
  ignore_objects-all none roots s e x t =
      (s, refl, e, subst (λ os. IsExact p load os s.ignored) (sym (append-nil roots)) x)
  ignore_objects-all (some es) roots s e x t = ignore_objects-Ends p load es roots s e x t

  globals : Option (List (List AllocObject)) → LeakSearch → Option LeakSearch
  globals none s = some s
  globals (some ls) s = ignore_globals p load ls s

  globals-Ends :
      (o : Option (List (List AllocObject))) (roots : List AllocObject) (s : LeakSearch)
      → s.live_objects ≡ []
      → IsExact p load roots s.ignored
      → AreData (global_roots o)
      → Ends p load (roots ++ global_roots o) (globals o s)
  unfolding globals global_roots
  globals-Ends none roots s e x d =
      (s, refl, e, subst (λ os. IsExact p load os s.ignored) (sym (append-nil roots)) x)
  globals-Ends (some ls) roots s e x d = ignore_globals-Ends p load ls roots s e x d

  disabled-Ends :
      (c : Checks) (ranges : List (ℕ × ℕ)) (roots : List AllocObject) (s : LeakSearch)
      → s.live_objects ≡ []
      → IsExact p load roots s.ignored
      → AreFound p (iterate p.allocation)
      → Ends p load (roots ++ disabled_roots c ranges p.bucket (iterate p.allocation) []) (
          ignore_live_objects_locked p load
            (disable_each c ranges p.bucket (iterate p.allocation) s))
  disabled-Ends c ranges roots s e x a =
      let es = iterate p.allocation in
      let same = disable_each-disabled_roots c ranges p.bucket es s in
      let s1 = disable_each c ranges p.bucket es s in
      next-IsExact p load roots (disabled_roots c ranges p.bucket es []) s1
        (ap (λ y. y.live_objects) same ∙ ap (disabled_roots c ranges p.bucket es) e)
        (subst (λ y. IsExact p load roots y.ignored) (sym same) x)
        (disabled_roots-IsHonest p load c ranges p.bucket es [] a
          (λ o q v m. absurd (Memᴰ.not-nil m)))

  -- From where the stack of objects is empty and the ignored allocations, none of them twice, are those
  -- that can be reached from some roots, with a well-formed map, the objects of IgnoreObject on the heap
  -- with their sizes, and globals that are no objects that must be on the heap: no phase aborts, the
  -- stack is empty at the end, and the allocations ignored then, none of them twice, are those that can
  -- be reached from all the roots.
  pub ignore_non_thread_live_objects_locked-IsExact :
      (c : Checks) (self : Option (ℕ × ℕ)) (libraries : Option (List (List AllocObject)))
      (roots : List AllocObject) (m : Marking)
      → m.search.live_objects ≡ []
      → IsExact p load roots m.search.ignored
      → are_all_there p c.ignored_objects ≡ true
      → IsValid p.allocation
      → IsPlaced p.allocation
      → AreData (global_roots libraries)
      → (m' : Marking) × (ignore_non_thread_live_objects_locked p load c self libraries m ≡ some m')
        × (m'.search.live_objects ≡ [])
        × IsExact p load (all_roots p c self libraries m.stack_ranges roots) m'.search.ignored
  unfolding ignore_non_thread_live_objects_locked globals
  ignore_non_thread_live_objects_locked-IsExact c self libraries roots m e x t valid placed d =
      let (m1, f1, ranges, e1, x1) = ignore_self_stack-Ends p load self roots m e x in
      let (s2, f2, e2, x2) = ignore_objects-all c.ignored_objects _ m1.search e1 x1 t in
      let (s3, f3, e3, x3) =
        disabled-Ends c m1.stack_ranges _ s2 e2 x2
          (λ q v k. find-iterate p.allocation q v valid placed k) in
      let (s4, f4, e4, x4) = globals-Ends libraries _ s3 e3 x3 d in
      (
        record m1 { search = s4 },
        ground (arith, f1, f2, f3, f4),
        e4,
        subst
            (λ r.
              IsExact p load
                ((((roots ++ stack_roots self) ++ ignored_roots c.ignored_objects)
                    ++ disabled_roots c r p.bucket (iterate p.allocation) [])
                  ++ global_roots libraries)
                s4.ignored)
            ranges x4,
      )
