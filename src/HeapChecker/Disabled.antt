-- ===== src/HeapChecker/Disabled.antt =====
-- DisableChecksAt and HaveDisabledChecksAt of src/heapcheck.cpp.
use ferp.Common.{ℕ, ◌≡◌, true, some, [], ◌==◌, if◌then◌else◌, Option-cases, inl, inr, arith}
use ferp.HeapProfiler.{HeapProfile}
use ferp.HeapChecker.{is_ignored}
use ferp.HeapChecker.Ignore.{Checks, ignore_object_locked}
use ferp.HeapChecker.Disable.{disable_checks_at_locked, disable_checks_at, have_disabled_checks_at}

ignore_object_locked-disabled_addresses :
    (p p' : HeapProfile) (new_map ptr : ℕ) (c c' : Checks)
    → ignore_object_locked p p' new_map ptr c ≡ some c'
    → (c'.disabled_addresses ≡ c.disabled_addresses) × (c'.heap_checker_on ≡ c.heap_checker_on)
unfolding ignore_object_locked
ignore_object_locked-disabled_addresses p p' new_map ptr c c' h =
    (ground (arith, h), ground (arith, h))

-- Where the checker is on and does not abort, the checks are disabled at the address afterwards, and
-- at every other address where they were before.
pub have_disabled_checks_at-disable_checks_at :
    (p p' : HeapProfile) (new_map new_set address other : ℕ) (c c' : Checks)
    → c.heap_checker_on ≡ true
    → disable_checks_at p p' new_map new_set address c ≡ some c'
    → have_disabled_checks_at other c'
      ≡ (if address == other then true else have_disabled_checks_at other c)
unfolding disable_checks_at disable_checks_at_locked have_disabled_checks_at is_ignored
have_disabled_checks_at-disable_checks_at p p' new_map new_set address other c c' on h =
    elim (Option-cases c.disabled_addresses) [
      | inr (xs, e) ↦ ground (arith, on, e, h)
      | inl e ↦
          let c0 : Checks = record c { disabled_addresses = some [] } in
          elim (Option-cases (ignore_object_locked p p' new_map new_set c0)) [
            | inl f ↦ absurd (ground (arith, on, e, f, h))
            | inr (c1, f) ↦
                let (same, still) =
                  ignore_object_locked-disabled_addresses p p' new_map new_set c0 c1 f in
                ground (arith, on, e, f, h, same, still)
          ]
    ]
