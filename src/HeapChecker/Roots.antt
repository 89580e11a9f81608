-- ===== src/HeapChecker/Roots.antt =====
-- What IgnoreNonThreadLiveObjectsLocked of src/heapcheck.cpp starts at.
use ferp.Common.{
  ℕ, ◌-◌, ◌≡◌, ◌∙◌, ap, refl, Bool, true, false, Option, none, some, List, [], ◌∷◌, ◌++◌, ltb, ◌==◌,
  if◌then◌else◌, inl, inr, Option-cases, arith,
}
use ferp.AddressMap.{iterate}
use ferp.HeapProfiler.{AllocValue, Bucket, HeapProfile, have_on_heap_locked}
use ferp.HeapChecker.{AllocObject, LeakSearch, must_be_on_heap, thread_stack}
use ferp.HeapChecker.Maps.{insert}
use ferp.HeapChecker.Ignore.{Checks}
use ferp.HeapChecker.Disable.{
  is_disabled_stack, has_stack_inside, make_disabled_live_callback, disable_each,
}
use ferp.HeapChecker.Phases.{push_ignored}

-- What the thread's stack, the ignored objects and the disabled code put on the stack of objects.
unfoldable pub stack_roots : Option (ℕ × ℕ) → List AllocObject
stack_roots none = []
stack_roots (some (top, bottom)) =
    record {
      ptr = if ltb bottom top then bottom else top;
      size = if ltb bottom top then top - bottom else bottom - top;
      place = thread_stack;
    }
    ∷ []

unfoldable pub ranges_with : Option (ℕ × ℕ) → List (ℕ × ℕ) → List (ℕ × ℕ)
ranges_with none ranges = ranges
ranges_with (some (top, bottom)) ranges =
    if ltb bottom top then insert ranges bottom top else insert ranges top bottom

unfoldable pub object_roots : List (ℕ × ℕ) → List AllocObject → List AllocObject
object_roots [] acc = acc
object_roots ((ptr, bytes) ∷ es) acc =
    object_roots es (record { ptr = ptr; size = bytes; place = must_be_on_heap } ∷ acc)

-- The allocations under disabled code that have no stack inside.
pub is_disabled_live : Checks → List (ℕ × ℕ) → (ℕ → Bucket) → ℕ → AllocValue → Bool
is_disabled_live c ranges bucket ptr v = elim v.bucket [
  | none ↦ false
  | some b ↦
      if is_disabled_stack c (bucket b).stack (bucket b).depth 0
      then (if has_stack_inside ranges ptr v.bytes then false else true)
      else false
]

unfoldable pub disabled_roots :
    Checks
    → List (ℕ × ℕ)
    → (ℕ → Bucket)
    → List (ℕ × AllocValue)
    → List AllocObject
    → List AllocObject
disabled_roots c ranges bucket [] acc = acc
disabled_roots c ranges bucket ((ptr, v) ∷ es) acc = disabled_roots c ranges bucket es (
    if is_disabled_live c ranges bucket ptr v
    then record { ptr = ptr; size = v.bytes; place = must_be_on_heap } ∷ acc
    else acc)

unfoldable pub global_roots : Option (List (List AllocObject)) → List AllocObject
global_roots none = []
global_roots (some []) = []
global_roots (some (l ∷ ls)) = l ++ global_roots (some ls)

-- Every ignored object is still on the heap, with its size.
unfoldable pub are_there : HeapProfile → List (ℕ × ℕ) → Bool
are_there p [] = true
are_there p ((ptr, bytes) ∷ es) = elim (have_on_heap_locked ptr p) [
  | none ↦ false
  | some (start, v) ↦ if bytes == v.bytes then are_there p es else false
]

pub push_ignored-object_roots :
    (p : HeapProfile) (es : List (ℕ × ℕ)) (s : LeakSearch)
    → push_ignored p es s ≡ (
        if are_there p es
        then some (record s { live_objects = object_roots es s.live_objects })
        else none)
unfolding push_ignored are_there object_roots
push_ignored-object_roots p [] s = refl
push_ignored-object_roots p ((ptr, bytes) ∷ es) s =
    elim (Option-cases (have_on_heap_locked ptr p)) [
      | inl e ↦ rw (e, push_ignored, are_there) refl
      | inr ((start, v), e) ↦
          let o : AllocObject = record { ptr = ptr; size = bytes; place = must_be_on_heap } in
          ground (
            arith,
            e,
            push_ignored-object_roots p es (record s { live_objects = o ∷ s.live_objects }),
          )
    ]

make_disabled_live_callback-is_disabled_live :
    (c : Checks) (ranges : List (ℕ × ℕ)) (bucket : ℕ → Bucket) (ptr : ℕ) (v : AllocValue)
    (s : LeakSearch)
    → make_disabled_live_callback c ranges bucket ptr v s ≡ record s {
      live_objects =
          if is_disabled_live c ranges bucket ptr v
          then record { ptr = ptr; size = v.bytes; place = must_be_on_heap } ∷ s.live_objects
          else s.live_objects;
    }
unfolding make_disabled_live_callback is_disabled_live
make_disabled_live_callback-is_disabled_live c ranges bucket ptr v s = ground arith

pub disable_each-disabled_roots :
    (c : Checks) (ranges : List (ℕ × ℕ)) (bucket : ℕ → Bucket) (es : List (ℕ × AllocValue))
    (s : LeakSearch)
    → disable_each c ranges bucket es s
      ≡ record s { live_objects = disabled_roots c ranges bucket es s.live_objects }
unfolding disable_each disabled_roots
disable_each-disabled_roots c ranges bucket [] s = refl
disable_each-disabled_roots c ranges bucket ((ptr, v) ∷ es) s =
    ap (disable_each c ranges bucket es)
      (make_disabled_live_callback-is_disabled_live c ranges bucket ptr v s)
    ∙ disable_each-disabled_roots c ranges bucket es (record s {
      live_objects =
          if is_disabled_live c ranges bucket ptr v
          then record { ptr = ptr; size = v.bytes; place = must_be_on_heap } ∷ s.live_objects
          else s.live_objects;
    })

unfoldable pub are_all_there : HeapProfile → Option (List (ℕ × ℕ)) → Bool
are_all_there p none = true
are_all_there p (some es) = are_there p es

unfoldable pub ignored_roots : Option (List (ℕ × ℕ)) → List AllocObject
ignored_roots none = []
ignored_roots (some es) = object_roots es []

-- Roots of before, and all that this thread, the program's calls, disabled code and globals add.
abbrev pub all_roots :
    HeapProfile
    → Checks
    → Option (ℕ × ℕ)
    → Option (List (List AllocObject))
    → List (ℕ × ℕ)
    → List AllocObject
    → List AllocObject
all_roots p c self libraries ranges roots =
    (((roots ++ stack_roots self) ++ ignored_roots c.ignored_objects)
      ++ disabled_roots c (ranges_with self ranges) p.bucket (iterate p.allocation) [])
    ++ global_roots libraries
