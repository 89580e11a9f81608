-- ===== src/HeapChecker/Mark.antt =====
-- The loop of IgnoreLiveObjectsLocked in src/heapcheck.cpp against the allocations that can be
-- reached.
use mathlib.Core.List.{Memᴰ}
use mathlib.Core.List.Memᴰ
use ferp.Common.{
  ℕ, zero, suc, ◌+◌, ◌≤◌, ◌≡◌, ◌∙◌, ap, sym, subst, refl, true, some, List, [], ◌∷◌, Bool-cases,
  List-cases, inl, inr, ◌⊎◌, arith, length,
}
use ferp.AddressMap.{find, iterate}
use ferp.AddressMap.Visit.{iterate-find}
use ferp.HeapProfiler.{AllocValue, HeapProfile}
use ferp.HeapProfiler.Found.{have_on_heap_locked-find}
use ferp.HeapChecker.{
  AllocObject, LeakSearch, is_must, look_into, search, ignore_live_objects_locked, is_ignored,
}
use ferp.HeapChecker.Reach.{
  heap_object, start_of, contents, PointsTo, IsTarget, Reach, already, root, step, IsClosed,
  IsHonest,
}
use ferp.HeapChecker.Scan.{AreDistinct, unmarked, AreKeys, IsPushed}
use ferp.HeapChecker.Round.{IsStart, Looked, look_into-Looked}

keys : List (ℕ × AllocValue) → List ℕ
keys [] = []
keys ((q, v) ∷ es) = q ∷ keys es

keys-member :
    (es : List (ℕ × AllocValue)) (q : ℕ) (v : AllocValue) → Memᴰ (q, v) es → Memᴰ q (keys es)
unfolding keys
keys-member [] q v m = absurd (Memᴰ.not-nil m)
keys-member ((k, w) ∷ es) q v m = elim (Memᴰ.cases_cons m) [
  | inl e ↦ Memᴰ.head (ap (λ x. x.0) e)
  | inr r ↦ Memᴰ.tail (keys-member es q v r)
]

unmarked-keys : (es : List (ℕ × AllocValue)) (marks : List ℕ) → unmarked (keys es) marks ≤ length es
unfolding keys unmarked
unmarked-keys [] marks = omega arith
unmarked-keys ((k, w) ∷ es) marks = ground (arith, unmarked-keys es marks)

module _ (p : HeapProfile) (load : ℕ → ℕ) where
  start_of-heap_object : (q : ℕ) (v : AllocValue) → start_of p load (heap_object q v) ≡ q
  unfolding start_of
  start_of-heap_object q v = refl

  start_of-IsStart : (o : AllocObject) (q : ℕ) → IsStart p load o q → start_of p load o ≡ q
  unfolding start_of
  start_of-IsStart o q (e, v, f) = ground (arith, e, f)

  -- An object that covers an allocation has its words.
  covers :
      (o : AllocObject) (q r : ℕ) (v : AllocValue)
      → start_of p load o ≡ q
      → o.size ≡ v.bytes
      → IsTarget p load (heap_object q v) r
      → IsTarget p load o r
  covers o q r v same size t = elim t [
    | inl (no_must, u, h) ↦ absurd (ground (arith, no_must))
    | inr w ↦ inr (
        subst (λ n. PointsTo p load (contents p load (start_of p load o) n) r) (sym size)
          (subst (λ x. PointsTo p load (contents p load x v.bytes) r)
            (start_of-heap_object q v ∙ sym same) w))
  ]

  module _ (roots : List AllocObject) (before : List ℕ) (honest : IsHonest p load roots) where
    -- What holds between the rounds.
    record Progress (s : LeakSearch) : Type 0 where
      sound : (q : ℕ) → is_ignored s.ignored q ≡ true → Reach p load roots before q
      kept : (q : ℕ) → is_ignored before q ≡ true → is_ignored s.ignored q ≡ true
      pending : (o : AllocObject) → Memᴰ o s.live_objects → Memᴰ o roots ⊎ IsPushed p s.ignored o
      closed : IsClosed p load s
      distinct : AreDistinct s.ignored
      explored :
          (o : AllocObject) (q : ℕ)
          → Memᴰ o roots
          → IsTarget p load o q
          → Memᴰ o s.live_objects ⊎ (is_ignored s.ignored q ≡ true)

    -- The object of a round covers an allocation it starts at.
    start-covers :
        (o : AllocObject) (marks : List ℕ) (q : ℕ) (v : AllocValue)
        → Memᴰ o roots ⊎ IsPushed p marks o
        → find p.allocation q ≡ some v
        → IsStart p load o q
        → o.size ≡ v.bytes
    start-covers o marks q v w f (e, u, h) = elim w [
      | inl m ↦ honest o q u m e h ∙ ground (arith, have_on_heap_locked-find o.ptr q u p h, f)
      | inr (k, x, same, on, g) ↦ absurd (ground (arith, e, ap (λ y. is_must y.place) same))
    ]

    look_into-Reach :
        (o : AllocObject) (s s' : LeakSearch) (q : ℕ)
        → Looked p load o s s'
        → ((x : ℕ) → is_ignored s.ignored x ≡ true → Reach p load roots before x)
        → Memᴰ o roots ⊎ IsPushed p s.ignored o
        → is_ignored s'.ignored q ≡ true
        → Reach p load roots before q
    look_into-Reach o s s' q l old w h = elim (l.sound q h) [
      | inl e ↦ old q e
      | inr t ↦ elim w [
        | inl m ↦ root m t
        | inr (k, v, same, on, f) ↦ step (old k on) f (subst (λ x. IsTarget p load x q) same t)
      ]
    ]

    look_into-IsClosed :
        (o : AllocObject) (os : List AllocObject) (s : LeakSearch) (s' : LeakSearch)
        → s.live_objects ≡ os
        → Looked p load o s s'
        → Memᴰ o roots ⊎ IsPushed p s.ignored o
        → IsClosed p load (record s { live_objects = o ∷ os })
        → IsClosed p load s'
    look_into-IsClosed o os s s' live l w c q r v on f t =
        elim (Bool-cases (is_ignored s.ignored q)) [
          | inl e ↦ elim (c q r v e f t) [
            | inr k ↦ inr (l.kept r k)
            | inl (x, m, same, size) ↦ elim (Memᴰ.cases_cons m) [
              | inl k ↦
                  inr
                    (l.ignores r (subst (λ y. IsTarget p load y r) k (covers x q r v same size t)))
              | inr k ↦ inl (x, l.live_kept x (subst (λ xs. Memᴰ x xs) (sym live) k), same, size)
            ]
          ]
          | inr e ↦ elim (l.pushed q v e on f) [
            | inl k ↦ inl (heap_object q v, k, start_of-heap_object q v, refl)
            | inr k ↦ inr (
                l.ignores r
                  (covers o q r v (start_of-IsStart o q k) (start-covers o s.ignored q v w f k) t))
          ]
        ]

    look_into-Progress :
        (o : AllocObject) (os : List AllocObject) (s : LeakSearch)
        → s.live_objects ≡ o ∷ os
        → Progress s
        → Progress (look_into p load o (record s { live_objects = os }))
    look_into-Progress o os s live g =
        let s0 : LeakSearch = record s { live_objects = os } in
        let s' = look_into p load o s0 in
        let l = look_into-Looked p load o s0 in
        let w : Memᴰ o roots ⊎ IsPushed p s.ignored o =
          g.pending o (subst (λ xs. Memᴰ o xs) (sym live) (Memᴰ.head refl)) in
        record {
          sound = λ q h. look_into-Reach o s0 s' q l g.sound w h;
          kept = λ q h. l.kept q (g.kept q h);
          pending = λ x m. elim (l.live_new x m) [
            | inr h ↦ inr h
            | inl k ↦ elim (g.pending x (subst (λ xs. Memᴰ x xs) (sym live) (Memᴰ.tail k))) [
              | inl r ↦ inl r
              | inr (q, v, same, on, f) ↦ inr (q, v, same, l.kept q on, f)
            ]
          ];
          closed = look_into-IsClosed o os s0 s' refl l w (λ q r v on f t.
              elim (g.closed q r v on f t) [
                | inl (x, m, start, size) ↦ inl (x, subst (λ xs. Memᴰ x xs) live m, start, size)
                | inr h ↦ inr h
              ]);
          distinct = l.distinct g.distinct;
          explored = λ x q m t. elim (g.explored x q m t) [
            | inr h ↦ inr (l.kept q h)
            | inl k ↦ elim (Memᴰ.cases_cons (subst (λ xs. Memᴰ x xs) live k)) [
              | inl e ↦ inr (l.ignores q (subst (λ y. IsTarget p load y q) e t))
              | inr r ↦ inl (l.live_kept x r)
            ]
          ];
        }

    search-Progress :
        (fuel : ℕ) (ks : List ℕ) (s : LeakSearch)
        → AreKeys p ks
        → unmarked ks s.ignored + length s.live_objects ≤ fuel
        → Progress s
        → (s' : LeakSearch) × (search p load fuel s ≡ some s')
          × (s'.live_objects ≡ [])
          × Progress s'
    unfolding search
    search-Progress zero ks s k le g = elim (List-cases s.live_objects) [
      | inl e ↦ (s, ground (arith, e), e, g)
      | inr (o, os, e) ↦ absurd (ground (arith, e, le))
    ]
    search-Progress (suc fuel) ks s k le g = elim (List-cases s.live_objects) [
      | inl e ↦ (s, ground (arith, e), e, g)
      | inr (o, os, e) ↦
          let s0 : LeakSearch = record s { live_objects = os } in
          let l = look_into-Looked p load o s0 in
          let (s', f, done, more) =
            search-Progress fuel ks (look_into p load o s0) k
              (omega (arith, l.work ks k, le, ap (λ xs. length xs) e))
              (look_into-Progress o os s e g) in
          (s', ground (arith, e, f), done, more)
    ]

    -- Where the stack is empty, all that can be reached is ignored.
    Progress-Reach :
        (s : LeakSearch) (q : ℕ)
        → Progress s
        → s.live_objects ≡ []
        → Reach p load roots before q
        → is_ignored s.ignored q ≡ true
    Progress-Reach s q g e (already h) = g.kept q h
    Progress-Reach s q g e (root {o} m t) = elim (g.explored o q m t) [
      | inl k ↦ absurd (Memᴰ.not-nil (subst (λ xs. Memᴰ o xs) e k))
      | inr h ↦ h
    ]
    Progress-Reach s q g e (step {q = x} {r = y} {v = v} r f t) =
        elim (g.closed x y v (Progress-Reach s x g e r) f t) [
          | inl (o, m, start, size) ↦ absurd (Memᴰ.not-nil (subst (λ xs. Memᴰ o xs) e m))
          | inr h ↦ h
        ]

  -- The search ends, with the stack empty and no allocation ignored twice; and the allocations it
  -- ignores are those that can be reached from the objects on the stack and from those that were
  -- ignored before. It starts where none is ignored twice, the objects that must be on the heap have
  -- the sizes of their allocations, and what an ignored allocation points to is ignored, or found from
  -- the stack.
  pub ignore_live_objects_locked-Reach :
      (s : LeakSearch)
      → IsHonest p load s.live_objects
      → IsClosed p load s
      → AreDistinct s.ignored
      → (s' : LeakSearch) × (ignore_live_objects_locked p load s ≡ some s')
        × (s'.live_objects ≡ [])
        × AreDistinct s'.ignored
        × ((q : ℕ) → is_ignored s'.ignored q ≡ true → Reach p load s.live_objects s.ignored q)
        × ((q : ℕ) → Reach p load s.live_objects s.ignored q → is_ignored s'.ignored q ≡ true)
  unfolding ignore_live_objects_locked
  ignore_live_objects_locked-Reach s honest closed different =
      let entries = iterate p.allocation in
      let ks = keys entries in
      let start : Progress s.live_objects s.ignored honest s = record {
        sound = λ q h. already h;
        kept = λ q h. h;
        pending = λ o m. inl m;
        closed = closed;
        distinct = different;
        explored = λ o q m t. inl m;
      } in
      let (s', f, e, g) =
        search-Progress s.live_objects s.ignored honest (length s.live_objects + length entries) ks
          s (λ q v h. keys-member entries q v (iterate-find p.allocation q v h))
          (omega (arith, unmarked-keys entries s.ignored)) start in
      (
        s',
        f,
        e,
        g.distinct,
        g.sound,
        λ q r. Progress-Reach s.live_objects s.ignored honest s' q g e r,
      )
