-- ===== src/HeapChecker/Compose.antt =====
-- IgnoreLiveObjectsLocked of src/heapcheck.cpp, called again and again with other objects.
use mathlib.Core.List.Memᴰ
use ferp.Common.{ℕ, ◌≡◌, sym, subst, true, some, List, [], ◌++◌, inl, inr, arith}
use ferp.HeapProfiler.{HeapProfile}
use ferp.HeapChecker.{AllocObject, LeakSearch, is_ignored, ignore_live_objects_locked}
use ferp.HeapChecker.Reach.{Reach, already, root, step, IsClosed, IsHonest}
use ferp.HeapChecker.Scan.{AreDistinct}
use ferp.HeapChecker.Mark.{ignore_live_objects_locked-Reach}

module _ (p : HeapProfile) (load : ℕ → ℕ) where
  -- The ignored allocations are those that can be reached from the roots.
  abbrev pub IsExact : List AllocObject → List ℕ → Type 0
  IsExact roots marks =
      ((q : ℕ) → is_ignored marks q ≡ true → Reach p load roots [] q)
      × ((q : ℕ) → Reach p load roots [] q → is_ignored marks q ≡ true)
      × AreDistinct marks

  pub IsExact-none : IsExact [] []
  unfolding is_ignored
  IsExact-none = (λ q h. absurd (ground (arith, h)), λ q r. empty q r, tt)
    where
      empty : (q : ℕ) → Reach p load [] [] q → is_ignored [] q ≡ true
      empty q (already h) = h
      empty q (root m t) = absurd (Memᴰ.not-nil m)
      empty q (step {q = x} r f t) = absurd (ground (arith, empty x r))

  widen :
      (roots more : List AllocObject) (q : ℕ)
      → Reach p load roots [] q
      → Reach p load (roots ++ more) [] q
  widen roots more q (already h) = already h
  widen roots more q (root m t) = root (Memᴰ.append_left more m) t
  widen roots more q (step {q = x} r f t) = step (widen roots more x r) f t

  module _ (roots more : List AllocObject) (marks : List ℕ) (exact : IsExact roots marks) where
    -- Roots that are searched after others.
    joined : (q : ℕ) → Reach p load more marks q → Reach p load (roots ++ more) [] q
    joined q (already h) = widen roots more q (exact.0 q h)
    joined q (root m t) = root (Memᴰ.append_right roots m) t
    joined q (step {q = x} r f t) = step (joined x r) f t

    parted : (q : ℕ) → Reach p load (roots ++ more) [] q → Reach p load more marks q
    parted q (already h) = already (exact.1 q (already h))
    parted q (root m t) = elim (Memᴰ.append_cases roots m) [
      | inl k ↦ already (exact.1 q (root k t))
      | inr k ↦ root k t
    ]
    parted q (step {q = x} r f t) = step (parted x r) f t

  pub next-IsExact :
      (roots more : List AllocObject) (s : LeakSearch)
      → s.live_objects ≡ more
      → IsExact roots s.ignored
      → IsHonest p load more
      → (s' : LeakSearch) × (ignore_live_objects_locked p load s ≡ some s')
        × (s'.live_objects ≡ [])
        × IsExact (roots ++ more) s'.ignored
  next-IsExact roots more s live exact honest =
      let closed : IsClosed p load s = λ q r v on f t. inr (exact.1 r (step (exact.0 q on) f t)) in
      let (s', run, done, distinct, sound, complete) =
        ignore_live_objects_locked-Reach p load s
          (subst (λ xs. IsHonest p load xs) (sym live) honest) closed exact.2 in
      (
        s',
        run,
        done,
        (
          λ q h.
              joined roots more s.ignored exact q
                (subst (λ xs. Reach p load xs s.ignored q) live (sound q h)),
          λ q r. complete q (
              subst (λ xs. Reach p load xs s.ignored q) (sym live)
                (parted roots more s.ignored exact q r)),
          distinct,
        ),
      )
