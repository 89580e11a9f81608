-- ===== src/HeapChecker/Disable.antt =====
-- The disabling of checks in src/heapcheck.cpp: under a frame at an address, or at an address in a
-- range up to a depth.
use ferp.Common.{
  ℕ, zero, suc, ◌+◌, ◌%◌, Bool, true, false, ◌&&◌, Option, none, some, List, [], ◌∷◌, ltb, leb,
  if◌then◌else◌,
}
use ferp.Common.Bits.{u64_mod}
use ferp.HeapProfiler.{AllocValue, Bucket, HeapProfile}
use ferp.HeapChecker.{LeakSearch, must_be_on_heap, is_ignored}
use ferp.HeapChecker.Maps.{insert, lower_bound, upper_bound}
use ferp.HeapChecker.Ignore.{RangeValue, Checks, ignore_object_locked}

-- A set that is made here is put at an address, and is an ignored object itself.
unfoldable pub disable_checks_at_locked :
    HeapProfile → HeapProfile → ℕ → ℕ → ℕ → Checks → Option Checks
disable_checks_at_locked p p' new_map new_set address c =
    let ready : Option Checks = elim c.disabled_addresses [
      | some xs ↦ some c
      | none ↦ ignore_object_locked p p' new_map new_set (record c { disabled_addresses = some [] })
    ] in
    elim ready [
      | none ↦ none
      | some c' ↦
          let addresses : List ℕ = elim c'.disabled_addresses [ none ↦ [] | some xs ↦ xs ] in
          if is_ignored addresses address
          then some c'
          else some (record c' { disabled_addresses = some (address ∷ addresses) })
    ]

unfoldable pub disable_checks_at : HeapProfile → HeapProfile → ℕ → ℕ → ℕ → Checks → Option Checks
disable_checks_at p p' new_map new_set address c =
    if c.heap_checker_on then disable_checks_at_locked p p' new_map new_set address c else some c

unfoldable pub have_disabled_checks_at : ℕ → Checks → Bool
have_disabled_checks_at address c =
    if c.heap_checker_on
    then elim c.disabled_addresses [ none ↦ false | some xs ↦ is_ignored xs address ]
    else false

pub disable_checks_from_to : HeapProfile → HeapProfile → ℕ → ℕ → ℕ → ℕ → ℕ → Checks → Option Checks
disable_checks_from_to p p' new_map new_ranges start end max_depth c =
    let ready : Option Checks = elim c.disabled_ranges [
      | some rs ↦ some c
      | none ↦ ignore_object_locked p p' new_map new_ranges (record c { disabled_ranges = some [] })
    ] in
    elim ready [
      | none ↦ none
      | some c' ↦
          let ranges : List (ℕ × RangeValue) = elim c'.disabled_ranges [
            | none ↦ []
            | some rs ↦ rs
          ] in
          some (record c' {
            disabled_ranges =
                some (insert ranges end (record { start_address = start; max_depth = max_depth }));
          })
    ]

-- A frame at a depth, in the loop of MakeDisabledLiveCallback.
pub is_disabled_frame : Checks → ℕ → ℕ → Bool
is_disabled_frame c addr depth =
    let stack_disable : Bool = elim c.disabled_addresses [
      | none ↦ false
      | some xs ↦ is_ignored xs addr
    ] in
    let range_disable : Bool = elim c.disabled_ranges [
      | none ↦ false
      | some rs ↦ elim (upper_bound rs addr) [
        | none ↦ false
        | some (end, range) ↦ ltb range.start_address addr && ltb depth range.max_depth
      ]
    ] in
    if stack_disable then true else range_disable

-- The loop, for the frames that are left.
pub is_disabled_stack : Checks → (ℕ → ℕ) → ℕ → ℕ → Bool
is_disabled_stack c stack zero depth = false
is_disabled_stack c stack (suc left) depth =
    if is_disabled_frame c (stack depth) depth
    then true
    else is_disabled_stack c stack left (depth + 1)

-- The stack that starts at or after an allocation ends in it.
pub has_stack_inside : List (ℕ × ℕ) → ℕ → ℕ → Bool
has_stack_inside stack_ranges ptr bytes = elim (lower_bound stack_ranges ptr) [
  | none ↦ false
  | some (top, bottom) ↦ leb bottom ((ptr + bytes) % u64_mod)
]

-- An allocation of the map, which has a bucket.
unfoldable pub make_disabled_live_callback :
    Checks → List (ℕ × ℕ) → (ℕ → Bucket) → ℕ → AllocValue → LeakSearch → LeakSearch
make_disabled_live_callback c stack_ranges bucket ptr v s = elim v.bucket [
  | none ↦ s
  | some b ↦
      if is_disabled_stack c (bucket b).stack (bucket b).depth 0
      then (if has_stack_inside stack_ranges ptr v.bytes then s else record s {
        live_objects =
            record { ptr = ptr; size = v.bytes; place = must_be_on_heap } ∷ s.live_objects;
      })
      else s
]

-- The callback for the entries that Iterate visits.
unfoldable pub disable_each :
    Checks → List (ℕ × ℕ) → (ℕ → Bucket) → List (ℕ × AllocValue) → LeakSearch → LeakSearch
disable_each c stack_ranges bucket [] s = s
disable_each c stack_ranges bucket ((ptr, v) ∷ es) s =
    disable_each c stack_ranges bucket es
      (make_disabled_live_callback c stack_ranges bucket ptr v s)
