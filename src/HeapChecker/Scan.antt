-- ===== src/HeapChecker/Scan.antt =====
-- The inner loop of IgnoreLiveObjectsLocked in src/heapcheck.cpp: what a round puts into the set of
-- ignored allocations and on the stack.
use mathlib.Core.List.{Memᴰ}
use mathlib.Core.List.Memᴰ
use ferp.Common.{
  ℕ, zero, suc, ◌+◌, ◌%◌, ◌≤◌, ◌≡◌, ◌∙◌, ap, sym, subst, refl, true, false, some, List, [], ◌∷◌,
  ◌==◌, if◌then◌else◌, Bool-cases, Option-cases, inl, inr, ◌⊎◌, arith, length,
}
use ferp.Common.Bits.{u64_mod}
use ferp.AddressMap.{find}
use ferp.HeapProfiler.{AllocValue, HeapProfile, have_on_heap_locked}
use ferp.HeapProfiler.Found.{have_on_heap_locked-find}
use ferp.HeapChecker.{AllocObject, LeakSearch, word, try_pointer, scan_words, is_ignored}
use ferp.HeapChecker.Reach.{heap_object, loaded, PointsTo}

-- The keys that are not ignored yet.
unfoldable pub unmarked : List ℕ → List ℕ → ℕ
unmarked [] marks = 0
unmarked (k ∷ ks) marks = (if is_ignored marks k then 0 else 1) + unmarked ks marks

pub unmarked-le : (ks marks : List ℕ) (q : ℕ) → unmarked ks (q ∷ marks) ≤ unmarked ks marks
unfolding unmarked is_ignored
unmarked-le [] marks q = omega arith
unmarked-le (k ∷ ks) marks q = ground (arith, unmarked-le ks marks q)

unmarked-less :
    (ks marks : List ℕ) (q : ℕ)
    → Memᴰ q ks
    → is_ignored marks q ≡ false
    → unmarked ks (q ∷ marks) + 1 ≤ unmarked ks marks
unfolding unmarked is_ignored
unmarked-less [] marks q m h = absurd (Memᴰ.not-nil m)
unmarked-less (k ∷ ks) marks q m h = elim (Memᴰ.cases_cons m) [
  | inl e ↦
      let new : is_ignored marks k ≡ false = ap (is_ignored marks) (sym e) ∙ h in
      ground (arith, e, new, unmarked-le ks marks q)
  | inr r ↦ ground (arith, unmarked-less ks marks q r h)
]

pub is_ignored-cons :
    (x : ℕ) (xs : List ℕ) (q : ℕ)
    → is_ignored (x ∷ xs) q ≡ (if x == q then true else is_ignored xs q)
unfolding is_ignored
is_ignored-cons x xs q = refl

-- No allocation stands twice in the set.
abbrev pub AreDistinct : List ℕ → Type 0
AreDistinct [] = Unit {0}
AreDistinct (x ∷ xs) = (is_ignored xs x ≡ false) × AreDistinct xs

-- Every allocation is one of the keys.
abbrev pub AreKeys : HeapProfile → List ℕ → Type 0
AreKeys p ks = (q : ℕ) (v : AllocValue) → find p.allocation q ≡ some v → Memᴰ q ks

module _ (p : HeapProfile) where
  -- An object that was put on the stack for an ignored allocation.
  abbrev pub IsPushed : List ℕ → AllocObject → Type 0
  IsPushed marks o =
      (q : ℕ) × (v : AllocValue) × (o ≡ heap_object q v)
      × (is_ignored marks q ≡ true)
      × (find p.allocation q ≡ some v)

  -- What a part of a round does, where it looks at the allocations in `T`.
  pub record Grown (T : ℕ → Type 0) (s s' : LeakSearch) : Type 0 where
    pub sound : (q : ℕ) → is_ignored s'.ignored q ≡ true → (is_ignored s.ignored q ≡ true) ⊎ T q
    pub kept : (q : ℕ) → is_ignored s.ignored q ≡ true → is_ignored s'.ignored q ≡ true
    pub live_kept : (o : AllocObject) → Memᴰ o s.live_objects → Memᴰ o s'.live_objects
    pub live_new :
        (o : AllocObject) → Memᴰ o s'.live_objects → Memᴰ o s.live_objects ⊎ IsPushed s'.ignored o
    pub pushed :
        (q : ℕ) (v : AllocValue)
        → is_ignored s.ignored q ≡ false
        → is_ignored s'.ignored q ≡ true
        → find p.allocation q ≡ some v
        → Memᴰ (heap_object q v) s'.live_objects
    pub distinct : AreDistinct s.ignored → AreDistinct s'.ignored
    pub work :
        (ks : List ℕ)
        → AreKeys p ks
        → unmarked ks s'.ignored + length s'.live_objects
          ≤ unmarked ks s.ignored + length s.live_objects

  pub Grown-refl : (T : ℕ → Type 0) (s : LeakSearch) → Grown T s s
  Grown-refl T s = record {
    sound = λ q h. inl h;
    kept = λ q h. h;
    live_kept = λ o m. m;
    live_new = λ o m. inl m;
    pushed = λ q v h k f. absurd (ground (arith, h, k));
    distinct = λ d. d;
    work = λ ks h. omega arith;
  }

  pub Grown-trans :
      (T : ℕ → Type 0) (s s' s'' : LeakSearch) → Grown T s s' → Grown T s' s'' → Grown T s s''
  Grown-trans T s s' s'' g h = record {
    sound = λ q m. elim (h.sound q m) [ inl e ↦ g.sound q e | inr t ↦ inr t ];
    kept = λ q m. h.kept q (g.kept q m);
    live_kept = λ o m. h.live_kept o (g.live_kept o m);
    live_new = λ o m. elim (h.live_new o m) [
      | inr t ↦ inr t
      | inl e ↦ elim (g.live_new o e) [
        | inl f ↦ inl f
        | inr (q, v, same, k, f) ↦ inr (q, v, same, h.kept q k, f)
      ]
    ];
    pushed = λ q v no yes f. elim (Bool-cases (is_ignored s'.ignored q)) [
      | inl k ↦ h.live_kept (heap_object q v) (g.pushed q v no k f)
      | inr k ↦ h.pushed q v k yes f
    ];
    distinct = λ d. h.distinct (g.distinct d);
    work = λ ks k. omega (arith, g.work ks k, h.work ks k);
  }

  pub Grown-weaken :
      (T U : ℕ → Type 0) (s s' : LeakSearch) → ((q : ℕ) → T q → U q) → Grown T s s' → Grown U s s'
  Grown-weaken T U s s' f g = record {
    sound = λ q m. elim (g.sound q m) [ inl e ↦ inl e | inr t ↦ inr (f q t) ];
    kept = g.kept;
    live_kept = g.live_kept;
    live_new = g.live_new;
    pushed = g.pushed;
    distinct = g.distinct;
    work = g.work;
  }

  -- A new allocation on the stack and in the set.
  push-Grown :
      (T : ℕ → Type 0) (s : LeakSearch) (q : ℕ) (v : AllocValue) (n m : ℕ)
      → T q
      → is_ignored s.ignored q ≡ false
      → find p.allocation q ≡ some v
      → Grown T s (record {
        live_objects = heap_object q v ∷ s.live_objects;
        ignored = q ∷ s.ignored;
        object_count = n;
        byte_count = m;
      })
  unfolding is_ignored
  push-Grown T s q v n m t fresh f = record {
    sound = λ r h. elim (Bool-cases (q == r)) [
      | inl e ↦ let same : q ≡ r = ground arith in inr (subst T same t)
      | inr e ↦ inl (ground (arith, h, e))
    ];
    kept = λ r h. ground (arith, h);
    live_kept = λ o k. Memᴰ.tail k;
    live_new =
        λ o k. elim (Memᴰ.cases_cons k) [ inl e ↦ inr (q, v, e, ground arith, f) | inr r ↦ inl r ];
    pushed = λ r w off on g.
        let same : q ≡ r = ground (arith, off, on) in
        let found : find p.allocation r ≡ some v = ap (find p.allocation) (sym same) ∙ f in
        let value : w ≡ v = ground (arith, g, found) in
        Memᴰ.head (λ i. heap_object (sym same i) (value i));
    distinct = λ d. (fresh, d);
    work = λ ks k. omega (arith, unmarked-less ks s.ignored q (k q v f) fresh);
  }

module _ (p : HeapProfile) (load : ℕ → ℕ) where
  try_pointer-Grown :
      (T : ℕ → Type 0) (ptr : ℕ) (s : LeakSearch)
      → ((q : ℕ) (v : AllocValue)
          → (ptr == 0) ≡ false
          → have_on_heap_locked ptr p ≡ some (q, v)
          → T q)
      → Grown p T s (try_pointer p load ptr s)
  unfolding try_pointer
  try_pointer-Grown T ptr s t = elim (Bool-cases (ptr == 0)) [
    | inl e ↦ rw e (Grown-refl p T s)
    | inr e ↦ elim (Option-cases (have_on_heap_locked ptr p)) [
      | inl h ↦ rw (e, h) (Grown-refl p T s)
      | inr ((q, v), h) ↦ elim (Bool-cases (is_ignored s.ignored q)) [
        | inl k ↦ rw (e, h, k) (Grown-refl p T s)
        | inr k ↦
            rw (e, h, k)
              (push-Grown p T s q v ((s.object_count + 1) % u64_mod)
                ((s.byte_count + v.bytes) % u64_mod) (t q v e h) k
                (have_on_heap_locked-find ptr q v p h))
      ]
    ]
  ]

  try_pointer-ignored :
      (ptr q : ℕ) (v : AllocValue) (s : LeakSearch)
      → (ptr == 0) ≡ false
      → have_on_heap_locked ptr p ≡ some (q, v)
      → is_ignored (try_pointer p load ptr s).ignored q ≡ true
  unfolding try_pointer
  try_pointer-ignored ptr q v s e h = elim (Bool-cases (is_ignored s.ignored q)) [
    | inl k ↦ rw (e, h, k) k
    | inr k ↦ rw (e, h, k) (ground (arith, is_ignored-cons q s.ignored q))
  ]

  pub scan_words-Grown :
      (n object : ℕ) (s : LeakSearch)
      → Grown p (PointsTo p load (loaded load n object)) s (scan_words p load n object s)
  unfolding scan_words loaded
  scan_words-Grown zero object s = Grown-refl p _ s
  scan_words-Grown (suc n) object s =
      let next = (object + word) % u64_mod in
      let T = PointsTo p load (load object ∷ loaded load n next) in
      let s' = try_pointer p load (load object) s in
      Grown-trans p T s s' (scan_words p load n next s')
        (try_pointer-Grown T (load object) s (λ q v e h. (load object, v, Memᴰ.head refl, e, h)))
        (Grown-weaken p (PointsTo p load (loaded load n next)) T s' (scan_words p load n next s')
          (λ q (ptr, v, m, e, h). (ptr, v, Memᴰ.tail m, e, h)) (scan_words-Grown n next s'))

  -- Every allocation that a word points to is ignored afterwards.
  pub scan_words-ignored :
      (n object q : ℕ) (s : LeakSearch)
      → PointsTo p load (loaded load n object) q
      → is_ignored (scan_words p load n object s).ignored q ≡ true
  unfolding scan_words loaded
  scan_words-ignored zero object q s (ptr, v, m, e, h) = absurd (Memᴰ.not-nil m)
  scan_words-ignored (suc n) object q s (ptr, v, m, e, h) =
      let next = (object + word) % u64_mod in
      let s' = try_pointer p load (load object) s in
      elim (Memᴰ.cases_cons m) [
        | inl same ↦ (scan_words-Grown n next s').kept q (
            try_pointer-ignored (load object) q v s (ap (λ x. x == 0) (sym same) ∙ e)
              (ap (λ x. have_on_heap_locked x p) (sym same) ∙ h))
        | inr r ↦ scan_words-ignored n next q s' (ptr, v, r, e, h)
      ]
