-- ===== src/HeapChecker/Round.antt =====
-- A round of the loop of IgnoreLiveObjectsLocked in src/heapcheck.cpp, for one object.
use mathlib.Core.List.{Memᴰ}
use ferp.Common.{
  ℕ, ◌+◌, ◌/◌, ◌≤◌, ◌≡◌, ap, sym, subst, true, false, some, List, ◌==◌, Bool-cases, Option-cases,
  inl, inr, ◌⊎◌, arith, length,
}
use ferp.AddressMap.{find}
use ferp.HeapProfiler.{AllocValue, HeapProfile, have_on_heap_locked}
use ferp.HeapChecker.{
  AllocObject, LeakSearch, word, is_must, align_object, take_object, look_into, is_ignored,
}
use ferp.HeapChecker.Reach.{heap_object, start_of, contents, PointsTo, IsTarget}
use ferp.HeapChecker.Scan.{
  AreDistinct, unmarked, unmarked-le, is_ignored-cons, AreKeys, IsPushed, Grown, scan_words-Grown,
  scan_words-ignored,
}

module _ (p : HeapProfile) (load : ℕ → ℕ) where
  -- The object is the allocation at `q`.
  abbrev pub IsStart : AllocObject → ℕ → Type 0
  IsStart o q =
      (is_must o.place ≡ true) × (v : AllocValue) × (have_on_heap_locked o.ptr p ≡ some (q, v))

  -- What a round does, where it looks into the object `o`.
  pub record Looked (o : AllocObject) (s s' : LeakSearch) : Type 0 where
    pub sound :
        (q : ℕ)
        → is_ignored s'.ignored q ≡ true
        → (is_ignored s.ignored q ≡ true) ⊎ IsTarget p load o q
    pub kept : (q : ℕ) → is_ignored s.ignored q ≡ true → is_ignored s'.ignored q ≡ true
    pub live_kept : (x : AllocObject) → Memᴰ x s.live_objects → Memᴰ x s'.live_objects
    pub live_new :
        (x : AllocObject) → Memᴰ x s'.live_objects → Memᴰ x s.live_objects ⊎ IsPushed p s'.ignored x
    pub pushed :
        (q : ℕ) (v : AllocValue)
        → is_ignored s.ignored q ≡ false
        → is_ignored s'.ignored q ≡ true
        → find p.allocation q ≡ some v
        → Memᴰ (heap_object q v) s'.live_objects ⊎ IsStart o q
    pub ignores : (q : ℕ) → IsTarget p load o q → is_ignored s'.ignored q ≡ true
    pub distinct : AreDistinct s.ignored → AreDistinct s'.ignored
    pub work :
        (ks : List ℕ)
        → AreKeys p ks
        → unmarked ks s'.ignored + length s'.live_objects
          ≤ unmarked ks s.ignored + length s.live_objects

  take_object-start_of :
      (o : AllocObject) (s : LeakSearch) → (take_object p load o s).0 ≡ start_of p load o
  unfolding take_object start_of
  take_object-start_of o s = ground arith

  take_object-live_objects :
      (o : AllocObject) (s : LeakSearch) → (take_object p load o s).1.live_objects ≡ s.live_objects
  unfolding take_object
  take_object-live_objects o s = ground arith

  take_object_sound :
      (o : AllocObject) (s : LeakSearch) (q : ℕ)
      → is_ignored (take_object p load o s).1.ignored q ≡ true
      → (is_ignored s.ignored q ≡ true) ⊎ IsStart o q
  unfolding take_object
  take_object_sound o s q h = elim (Bool-cases (is_must o.place)) [
    | inr e ↦ inl (ground (arith, e, h))
    | inl e ↦ elim (Option-cases (have_on_heap_locked o.ptr p)) [
      | inl f ↦ inl (ground (arith, e, f, h))
      | inr ((start, v), f) ↦ elim (Bool-cases (start == q)) [
        | inl t ↦
            let same : start ≡ q = ground arith in
            inr (e, v, subst (λ x. have_on_heap_locked o.ptr p ≡ some (x, v)) same f)
        | inr t ↦ inl (ground (arith, e, f, t, h, is_ignored-cons start s.ignored q))
      ]
    ]
  ]

  take_object-kept :
      (o : AllocObject) (s : LeakSearch) (q : ℕ)
      → is_ignored s.ignored q ≡ true
      → is_ignored (take_object p load o s).1.ignored q ≡ true
  unfolding take_object
  take_object-kept o s q h = elim (Option-cases (have_on_heap_locked o.ptr p)) [
    | inl f ↦ ground (arith, f, h)
    | inr ((start, v), f) ↦ ground (arith, f, h, is_ignored-cons start s.ignored q)
  ]

  take_object-ignored :
      (o : AllocObject) (s : LeakSearch) (q : ℕ)
      → IsStart o q
      → is_ignored (take_object p load o s).1.ignored q ≡ true
  unfolding take_object
  take_object-ignored o s q (e, v, f) = ground (arith, e, f, is_ignored-cons q s.ignored q)

  take_object-AreDistinct :
      (o : AllocObject) (s : LeakSearch)
      → AreDistinct s.ignored
      → AreDistinct (take_object p load o s).1.ignored
  unfolding take_object
  take_object-AreDistinct o s d = elim (Bool-cases (is_must o.place)) [
    | inr e ↦ rw (e, take_object) d
    | inl e ↦ elim (Option-cases (have_on_heap_locked o.ptr p)) [
      | inl f ↦ rw (e, f, take_object) d
      | inr ((start, v), f) ↦ elim (Bool-cases (is_ignored s.ignored start)) [
        | inl k ↦ rw (e, f, k, take_object) d
        | inr k ↦ rw (e, f, k, take_object) (k, d)
      ]
    ]
  ]

  take_object-unmarked :
      (o : AllocObject) (s : LeakSearch) (ks : List ℕ)
      → unmarked ks (take_object p load o s).1.ignored ≤ unmarked ks s.ignored
  unfolding take_object
  take_object-unmarked o s ks = elim (Option-cases (have_on_heap_locked o.ptr p)) [
    | inl f ↦ ground (arith, f)
    | inr ((start, v), f) ↦ ground (arith, f, unmarked-le ks s.ignored start)
  ]

  -- The words that a round scans.
  look_into-Grown :
      (o : AllocObject) (s : LeakSearch)
      → Grown p
          (PointsTo p load (contents p load (start_of p load o) o.size))
          (take_object p load o s).1
          (look_into p load o s)
  unfolding look_into contents
  look_into-Grown o s =
      let (start, size) = align_object (take_object p load o s).0 o.size in
      subst
        (λ x.
          Grown p (PointsTo p load (contents p load x o.size)) (take_object p load o s).1
            (look_into p load o s))
        (take_object-start_of o s)
        (scan_words-Grown p load (size / word) start (take_object p load o s).1)

  look_into-ignored :
      (o : AllocObject) (s : LeakSearch) (q : ℕ)
      → PointsTo p load (contents p load (start_of p load o) o.size) q
      → is_ignored (look_into p load o s).ignored q ≡ true
  unfolding look_into contents
  look_into-ignored o s q t =
      let (start, size) = align_object (take_object p load o s).0 o.size in
      scan_words-ignored p load (size / word) start q (take_object p load o s).1 (
        subst (λ x. PointsTo p load (contents p load x o.size) q) (sym (take_object-start_of o s))
          t)

  pub look_into-Looked : (o : AllocObject) (s : LeakSearch) → Looked o s (look_into p load o s)
  look_into-Looked o s =
      let s1 = (take_object p load o s).1 in
      let g = look_into-Grown o s in
      let live = take_object-live_objects o s in
      record {
        sound = λ q m. elim (g.sound q m) [
          | inr t ↦ inr (inr t)
          | inl e ↦ elim (take_object_sound o s q e) [ inl h ↦ inl h | inr h ↦ inr (inl h) ]
        ];
        kept = λ q m. g.kept q (take_object-kept o s q m);
        live_kept = λ x m. g.live_kept x (subst (λ xs. Memᴰ x xs) (sym live) m);
        live_new = λ x m. elim (g.live_new x m) [
          | inl e ↦ inl (subst (λ xs. Memᴰ x xs) live e)
          | inr h ↦ inr h
        ];
        pushed = λ q v off on f. elim (Bool-cases (is_ignored s1.ignored q)) [
          | inr e ↦ inl (g.pushed q v e on f)
          | inl e ↦ elim (take_object_sound o s q e) [
            | inl h ↦ absurd (ground (arith, h, off))
            | inr h ↦ inr h
          ]
        ];
        ignores = λ q t. elim t [
          | inl h ↦ g.kept q (take_object-ignored o s q h)
          | inr h ↦ look_into-ignored o s q h
        ];
        distinct = λ d. g.distinct (take_object-AreDistinct o s d);
        work = λ ks k.
            omega (arith, g.work ks k, take_object-unmarked o s ks, ap (λ xs. length xs) live);
      }
