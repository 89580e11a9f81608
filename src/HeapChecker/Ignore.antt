-- ===== src/HeapChecker/Ignore.antt =====
-- What the program tells the checker of src/heapcheck.cpp, with IgnoreObject and UnIgnoreObject.
use ferp.Common.{ℕ, Bool, Option, none, some, List, [], ◌==◌, if◌then◌else◌}
use ferp.HeapProfiler.{HeapProfile, have_on_heap}
use ferp.HeapChecker.Maps.{lookup, insert, erase}

-- A negative depth, which no frame has, is as 0.
pub record RangeValue : Type 0 where
  pub start_address : ℕ
  pub max_depth : ℕ

-- What the program told the checker, and what it disabled. `none` is the null pointer.
pub record Checks : Type 0 where
  pub heap_checker_on : Bool
  pub ignored_objects : Option (List (ℕ × ℕ))
  pub disabled_addresses : Option (List ℕ)
  pub disabled_ranges : Option (List (ℕ × RangeValue))

-- IgnoreObjectLocked where the map is there; `none` is a call of abort.
pub ignore_in : HeapProfile → ℕ → List (ℕ × ℕ) → Option (List (ℕ × ℕ))
ignore_in p ptr objects = elim (have_on_heap ptr p) [
  | none ↦ some objects
  | some (start, v) ↦ elim (lookup objects start) [
    | none ↦ some (insert objects start v.bytes)
    | some bytes ↦ none
  ]
]

-- A map that is made here is put at an address, and is ignored too; the records have it then.
unfoldable pub ignore_object_locked : HeapProfile → HeapProfile → ℕ → ℕ → Checks → Option Checks
ignore_object_locked p p' new_map ptr c = elim (have_on_heap ptr p) [
  | none ↦ some c
  | some (start, v) ↦
      let objects : Option (List (ℕ × ℕ)) = elim c.ignored_objects [
        | some xs ↦ some xs
        | none ↦ ignore_in p' new_map []
      ] in
      elim objects [
        | none ↦ none
        | some xs ↦ elim (lookup xs start) [
          | some bytes ↦ none
          | none ↦ some (record c { ignored_objects = some (insert xs start v.bytes) })
        ]
      ]
]

unfoldable pub ignore_object : HeapProfile → HeapProfile → ℕ → ℕ → Checks → Option Checks
ignore_object p p' new_map ptr c =
    if c.heap_checker_on then ignore_object_locked p p' new_map ptr c else some c

unfoldable pub un_ignore_object : HeapProfile → ℕ → Checks → Option Checks
un_ignore_object p ptr c =
    if c.heap_checker_on
    then elim (have_on_heap ptr p) [
      | none ↦ none
      | some (start, v) ↦ elim c.ignored_objects [
        | none ↦ none
        | some objects ↦ elim (lookup objects start) [
          | none ↦ none
          | some bytes ↦
              if v.bytes == bytes
              then some (record c { ignored_objects = some (erase objects start) })
              else none
        ]
      ]
    ]
    else some c
