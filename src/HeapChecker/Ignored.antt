-- ===== src/HeapChecker/Ignored.antt =====
-- What IgnoreObject and UnIgnoreObject of src/heapcheck.cpp do one after the other.
use ferp.Common.{ℕ, ◌≡◌, true, none, some, List, [], ◌∷◌, Option-cases, inl, inr, arith, ==_refl}
use ferp.HeapProfiler.{AllocValue, HeapProfile, have_on_heap_locked, have_on_heap}
use ferp.HeapProfiler.Found.{have_on_heap_locked-find, have_on_heap_locked-start}
use ferp.HeapChecker.Maps.{lookup, insert, erase-insert, lookup-insert}
use ferp.HeapChecker.Ignore.{Checks, ignore_object_locked, ignore_object, un_ignore_object}
use ferp.HeapChecker.Roots.{are_there, are_all_there}

insert-are_there :
    (p : HeapProfile) (es : List (ℕ × ℕ)) (start : ℕ) (v : AllocValue)
    → have_on_heap_locked start p ≡ some (start, v)
    → are_there p es ≡ true
    → are_there p (insert es start v.bytes) ≡ true
unfolding are_there insert
insert-are_there p [] start v f t = ground (arith, f, ==_refl v.bytes)
insert-are_there p ((k, w) ∷ es) start v f t = elim (Option-cases (have_on_heap_locked k p)) [
  | inl e ↦ absurd (ground (arith, e, t))
  | inr ((s, u), e) ↦ ground (arith, e, f, t, ==_refl v.bytes, insert-are_there p es start v f)
]

-- An object on the heap, where the map is there and the checker and the profiler are on.
module _ (p p' : HeapProfile) (new_map ptr start : ℕ) (v : AllocValue) (c : Checks)
    (es : List (ℕ × ℕ)) (on : c.heap_checker_on ≡ true) (there : c.ignored_objects ≡ some es)
    (running : p.is_on ≡ true) (found : have_on_heap_locked ptr p ≡ some (start, v)) where
  -- An object that was not ignored, and is, can be taken back, which leaves what was there before; and
  -- it cannot be ignored again. What the checker will look for on the heap is all there afterwards if
  -- it was before.
  pub un_ignore_object-ignore_object :
      lookup es start ≡ none
      → (c' : Checks) × (ignore_object p p' new_map ptr c ≡ some c')
        × (un_ignore_object p ptr c' ≡ some c)
        × (ignore_object p p' new_map ptr c' ≡ none)
        × (are_all_there p c.ignored_objects ≡ true → are_all_there p c'.ignored_objects ≡ true)
  unfolding un_ignore_object ignore_object ignore_object_locked are_all_there have_on_heap
  un_ignore_object-ignore_object h =
      let c' : Checks = record c { ignored_objects = some (insert es start v.bytes) } in
      let in_it = lookup-insert es start v.bytes h in
      (
        c',
        ground (arith, on, running, there, found, h),
        ground (
          arith,
          on,
          running,
          there,
          found,
          in_it,
          erase-insert es start v.bytes h,
          ==_refl v.bytes,
        ),
        ground (arith, on, running, there, found, in_it),
        λ t.
            insert-are_there p es start v
              (have_on_heap_locked-start start v p (have_on_heap_locked-find ptr start v p found))
              (ground (arith, there, t)),
      )
