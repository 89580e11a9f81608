-- ===== src/Central/Transfer/Space.antt =====
-- MakeCacheSpace and InsertRange of src/tcmalloc.cpp: the transfer caches of all classes together
-- keep their size, and none holds more batches than its size.
use ferp.Common.{
  ℕ, ◌+◌, ◌≤◌, ◌<◌, ◌≡◌, ◌≢◌, ◌∙◌, refl, sym, subst, Bool, true, false, ltb, ◌==◌, if◌then◌else◌,
  arith, Bool-cases, inl, inr,
}
use ferp.Common.Sums.{sum_below, sum_below-change}
use ferp.SizeClass.{num_classes, Tables}
use ferp.Central.{PageSource, Store, num_transfer_entries}
use ferp.Central.Transfer.{
  race, shrink_cache, evict_random_size_class, grow_cache, make_cache_space,
}
use ferp.Central.Transfer.Sizes.{cache_of, slots_of, Shrunk, shrink_cache-Shrunk}

race_bounds : (counter : ℕ) → (race counter).0 < num_classes
unfolding race
race_bounds counter = ground arith

module _ {S : PageSource} where
  -- The slots of all classes.
  abbrev pub total_cache : Store S → ℕ
  total_cache s = sum_below (cache_of s) num_classes

  -- No class has more batches than its size, and no size is more than there are entries.
  abbrev pub InBounds : Store S → Type 0
  InBounds s = (j : ℕ) → (slots_of s j ≤ cache_of s j) × (cache_of s j ≤ num_transfer_entries)

  -- A class other than the locked one has lost a slot, or nothing has changed.
  abbrev Evicted : ℕ → Store S → Bool × Store S → Type 0
  Evicted locked s (taken, s') =
      (total_cache s' + (if taken then 1 else 0) ≡ total_cache s)
      × (InBounds s → InBounds s')
      × (slots_of s' locked ≡ slots_of s locked)
      × (cache_of s' locked ≡ cache_of s locked)

  Shrunk-Evicted :
      (v locked : ℕ) (s : Store S) (r : Bool × Store S)
      → v < num_classes
      → v ≢ locked
      → Shrunk v s r
      → Evicted locked s r
  Shrunk-Evicted v locked s (taken, s') l n (others, size, room) = (
    omega (
      arith,
      sum_below-change (cache_of s) (cache_of s') v num_classes l (λ j d. (others j d).1),
    ),
    λ b j. elim (Bool-cases (j == v)) [
      | inl e ↦ ground (arith, room, b v, size)
      | inr e ↦ ground (arith, others j, b j)
    ],
    (others locked (λ e. n (sym e))).0,
    (others locked (λ e. n (sym e))).1,
  )

  -- The class has got a slot, or none.
  abbrev pub Made : ℕ → Store S → Bool × Store S → Type 0
  Made cl s (space, s') =
      (total_cache s' ≡ total_cache s)
      × (InBounds s → InBounds s')
      × (space ≡ true → slots_of s' cl < cache_of s' cl)

  grown-Made :
      (cl : ℕ) (s s' : Store S)
      → cl < num_classes
      → cache_of s cl < num_transfer_entries
      → slots_of s cl ≤ cache_of s cl
      → Evicted cl s (true, s')
      → Made cl s (true, grow_cache cl s')
  grown-Made cl s s' l room below (total, keep, slots, size) = (
    omega (
      arith,
      total,
      sum_below-change (cache_of s') (cache_of (grow_cache cl s')) cl num_classes l
          (λ j d. ground arith),
      grown_at,
    ),
    λ b j. ground (arith, keep b j, size, room),
    λ e. ground (arith, slots, size),
  )
    where
      grown_at : cache_of (grow_cache cl s') cl ≡ cache_of s' cl + 1
      grown_at = ground arith

  Evicted-taken :
      (cl : ℕ) (s : Store S) (b : Bool) (r : Bool × Store S)
      → r.0 ≡ b
      → Evicted cl s r
      → Evicted cl s (b, r.1)
  Evicted-taken cl s b (taken, s') e h = subst (λ b. Evicted cl s (b, s')) e h

  Evicted-trans :
      (cl : ℕ) (s s1 : Store S) (r : Bool × Store S)
      → Evicted cl s (false, s1)
      → Evicted cl s1 r
      → Evicted cl s r
  Evicted-trans cl s s1 (taken, s2) (a, b, c, d) (e, f, g, h) =
      (omega arith, λ i. f (b i), g ∙ c, h ∙ d)

  Evicted-Made : (cl : ℕ) (s s' : Store S) → Evicted cl s (false, s') → Made cl s (false, s')
  Evicted-Made cl s s' (a, b, c, d) = (omega arith, b, λ e. absurd (ground arith))

module _ (t : Tables) {S : PageSource} where
  evict-Evicted :
      (locked : ℕ) (force : Bool) (s : Store S)
      → Evicted locked s (evict_random_size_class t locked force s)
  unfolding evict_random_size_class
  evict-Evicted locked force s =
      let v = (race s.race_counter).0 in
      let counted = record s { race_counter = (race s.race_counter).1 } in
      elim (Bool-cases (v == locked)) [
        | inl e ↦ rw e (omega arith, λ b. b, refl, refl)
        | inr e ↦ rw e (
            Shrunk-Evicted v locked counted (shrink_cache t v force counted)
              (race_bounds s.race_counter) (ground arith) (shrink_cache-Shrunk t v force counted))
      ]

  pub make_cache_space-Made :
      (cl : ℕ) (s : Store S) → cl < num_classes → InBounds s → Made cl s (make_cache_space t cl s)
  unfolding make_cache_space
  make_cache_space-Made cl s l b = elim (Bool-cases (ltb (slots_of s cl) (cache_of s cl))) [
    | inl e ↦ rw e (refl, λ i. i, λ i. ground arith)
    | inr e ↦ elim (Bool-cases (cache_of s cl == num_transfer_entries)) [
      | inl f ↦ rw (e, f) (refl, λ i. i, λ i. absurd (ground arith))
      | inr f ↦
          let room : cache_of s cl < num_transfer_entries = ground (arith, b cl) in
          let r1 = evict_random_size_class t cl false s in
          let first = evict-Evicted cl false s in
          elim (Bool-cases r1.0) [
            | inl g ↦
                rw (e, f, g)
                  (grown-Made cl s r1.1 l room (b cl).0 (Evicted-taken cl s true r1 g first))
            | inr g ↦
                let r2 = evict_random_size_class t cl true r1.1 in
                let both =
                  Evicted-trans cl s r1.1 r2 (Evicted-taken cl s false r1 g first)
                    (evict-Evicted cl true r1.1) in
                elim (Bool-cases r2.0) [
                  | inl k ↦
                      rw (e, f, g, k)
                        (grown-Made cl s r2.1 l room (b cl).0 (Evicted-taken cl s true r2 k both))
                  | inr k ↦
                      rw (e, f, g, k) (Evicted-Made cl s r2.1 (Evicted-taken cl s false r2 k both))
                ]
          ]
    ]
  ]
