-- ===== src/HeapChecker/Phased.antt =====
-- The phases of IgnoreNonThreadLiveObjectsLocked in src/heapcheck.cpp, each against the allocations
-- that can be reached from what it starts at.
use mathlib.Core.List.{Memᴰ, append-nil, append_assoc}
use mathlib.Core.List.Memᴰ
use ferp.Common.{
  ℕ, ◌≡◌, ◌∙◌, ap, sym, subst, refl, true, false, Option, none, some, List, [], ◌∷◌, ◌++◌, inl, inr,
  Bool-cases, Option-cases, arith,
}
use ferp.AddressMap.{find}
use ferp.HeapProfiler.{AllocValue, Bucket, HeapProfile, have_on_heap_locked}
use ferp.HeapChecker.{AllocObject, LeakSearch, is_must, must_be_on_heap}
use ferp.HeapChecker.Reach.{IsHonest}
use ferp.HeapChecker.Ignore.{Checks}
use ferp.HeapChecker.Phases.{
  Marking, register_stack_range, push_ignored, ignore_self_stack, ignore_objects, ignore_globals,
}
use ferp.HeapChecker.Compose.{IsExact, next-IsExact}
use ferp.HeapProfiler.Found.{have_on_heap_locked-start}
use ferp.HeapChecker.Roots.{
  is_disabled_live, stack_roots, ranges_with, object_roots, disabled_roots, global_roots, are_there,
  push_ignored-object_roots,
}

-- Every entry that Iterate visits is what Find answers.
abbrev pub AreFound : HeapProfile → List (ℕ × AllocValue) → Type 0
AreFound p es = (q : ℕ) (v : AllocValue) → Memᴰ (q, v) es → find p.allocation q ≡ some v

-- No object is one that must be on the heap.
abbrev pub AreData : List AllocObject → Type 0
AreData os = (o : AllocObject) → Memᴰ o os → is_must o.place ≡ false

module _ (p : HeapProfile) (load : ℕ → ℕ) where
  AreData-IsHonest : (os : List AllocObject) → AreData os → IsHonest p load os
  AreData-IsHonest os d o q v m e f = absurd (ground (arith, d o m, e))

  IsHonest-cons :
      (o : AllocObject) (os : List AllocObject)
      → ((q : ℕ) (v : AllocValue) → have_on_heap_locked o.ptr p ≡ some (q, v) → o.size ≡ v.bytes)
      → IsHonest p load os
      → IsHonest p load (o ∷ os)
  IsHonest-cons o os h hs x q v m e f = elim (Memᴰ.cases_cons m) [
    | inl same ↦
        ap (λ y. y.size) same ∙ h q v (ap (λ y. have_on_heap_locked y.ptr p) (sym same) ∙ f)
    | inr k ↦ hs x q v k e f
  ]

  object_roots-IsHonest :
      (es : List (ℕ × ℕ)) (acc : List AllocObject)
      → are_there p es ≡ true
      → IsHonest p load acc
      → IsHonest p load (object_roots es acc)
  unfolding are_there object_roots
  object_roots-IsHonest [] acc t h = h
  object_roots-IsHonest ((ptr, bytes) ∷ es) acc t h =
      elim (Option-cases (have_on_heap_locked ptr p)) [
        | inl e ↦ absurd (ground (arith, e, t))
        | inr ((start, v), e) ↦
            object_roots-IsHonest es
              (record { ptr = ptr; size = bytes; place = must_be_on_heap } ∷ acc)
              (ground (arith, e, t))
              (IsHonest-cons (record { ptr = ptr; size = bytes; place = must_be_on_heap }) acc
                (λ q w f. ground (arith, e, f, t)) h)
      ]

  pub disabled_roots-IsHonest :
      (c : Checks) (ranges : List (ℕ × ℕ)) (bucket : ℕ → Bucket) (es : List (ℕ × AllocValue))
      (acc : List AllocObject)
      → AreFound p es
      → IsHonest p load acc
      → IsHonest p load (disabled_roots c ranges bucket es acc)
  unfolding disabled_roots
  disabled_roots-IsHonest c ranges bucket [] acc a h = h
  disabled_roots-IsHonest c ranges bucket ((ptr, v) ∷ es) acc a h =
      elim (Bool-cases (is_disabled_live c ranges bucket ptr v)) [
        | inr e ↦
            rw e (disabled_roots-IsHonest c ranges bucket es acc (λ q w m. a q w (Memᴰ.tail m)) h)
        | inl e ↦ rw e (
            disabled_roots-IsHonest c ranges bucket es
              (record { ptr = ptr; size = v.bytes; place = must_be_on_heap } ∷ acc)
              (λ q w m. a q w (Memᴰ.tail m))
              (IsHonest-cons (record { ptr = ptr; size = v.bytes; place = must_be_on_heap }) acc
                (λ q w f.
                  ground (arith, f, have_on_heap_locked-start ptr v p (a ptr v (Memᴰ.head refl))))
                h))
      ]

  -- A phase that ends with the stack empty.
  abbrev pub Ends : List AllocObject → Option LeakSearch → Type 0
  Ends roots o =
      (s : LeakSearch) × (o ≡ some s) × (s.live_objects ≡ []) × IsExact p load roots s.ignored

  pub ignore_self_stack-Ends :
      (self : Option (ℕ × ℕ)) (roots : List AllocObject) (m : Marking)
      → m.search.live_objects ≡ []
      → IsExact p load roots m.search.ignored
      → (m' : Marking) × (ignore_self_stack p load self m ≡ some m')
        × (m'.stack_ranges ≡ ranges_with self m.stack_ranges)
        × (m'.search.live_objects ≡ [])
        × IsExact p load (roots ++ stack_roots self) m'.search.ignored
  unfolding ignore_self_stack register_stack_range ranges_with stack_roots
  ignore_self_stack-Ends none roots m e x = (
    m,
    refl,
    refl,
    e,
    subst (λ os. IsExact p load os m.search.ignored) (sym (append-nil roots)) x,
  )
  ignore_self_stack-Ends (some (top, bottom)) roots m e x =
      let m1 = register_stack_range top bottom m in
      let live : m1.search.live_objects ≡ stack_roots (some (top, bottom)) = ground (arith, e) in
      let (s, f, done, y) =
        next-IsExact p load roots (stack_roots (some (top, bottom))) m1.search live x (
          AreData-IsHonest (stack_roots (some (top, bottom))) (λ o k. elim (Memᴰ.cases_cons k) [
            | inl same ↦ ap (λ y. is_must y.place) same
            | inr r ↦ absurd (Memᴰ.not-nil r)
          ])) in
      (record m1 { search = s }, ground (arith, f), ground arith, done, y)

  pub ignore_objects-Ends :
      (es : List (ℕ × ℕ)) (roots : List AllocObject) (s : LeakSearch)
      → s.live_objects ≡ []
      → IsExact p load roots s.ignored
      → are_there p es ≡ true
      → Ends (roots ++ object_roots es []) (ignore_objects p load (some es) s)
  unfolding ignore_objects
  ignore_objects-Ends es roots s e x t =
      let s1 : LeakSearch = record s { live_objects = object_roots es s.live_objects } in
      let pushed : push_ignored p es s ≡ some s1 =
        ground (arith, push_ignored-object_roots p es s, t) in
      let (s2, f, done, y) =
        next-IsExact p load roots (object_roots es []) s1 (ap (object_roots es) e) x
          (object_roots-IsHonest es [] t (λ o q v m. absurd (Memᴰ.not-nil m))) in
      (s2, ground (arith, pushed, f), done, y)

  pub ignore_globals-Ends :
      (ls : List (List AllocObject)) (roots : List AllocObject) (s : LeakSearch)
      → s.live_objects ≡ []
      → IsExact p load roots s.ignored
      → AreData (global_roots (some ls))
      → Ends (roots ++ global_roots (some ls)) (ignore_globals p load ls s)
  unfolding ignore_globals global_roots
  ignore_globals-Ends [] roots s e x d =
      (s, refl, e, subst (λ os. IsExact p load os s.ignored) (sym (append-nil roots)) x)
  ignore_globals-Ends (l ∷ ls) roots s e x d =
      let s1 : LeakSearch = record s { live_objects = l } in
      let (s2, f, done, y) =
        next-IsExact p load roots l s1 refl x
          (AreData-IsHonest l (λ o k. d o (Memᴰ.append_left (global_roots (some ls)) k))) in
      let (s3, g, done', z) =
        ignore_globals-Ends ls (roots ++ l) s2 done y (λ o k. d o (Memᴰ.append_right l k)) in
      (
        s3,
        ground (arith, e, f, g),
        done',
        subst (λ os. IsExact p load os s3.ignored) (append_assoc roots l (global_roots (some ls)))
            z,
      )
