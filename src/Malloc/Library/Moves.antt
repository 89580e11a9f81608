-- ===== src/Malloc/Library/Moves.antt =====
-- What realloc of src/tcmalloc.cpp does.
use native.Mathlib.Nat.{add-zero, add-suc}
use ferp.Common.{
  ℕ, zero, suc, ◌+◌, ◌-◌, ◌≤◌, ◌<◌, ◌≡◌, ◌⊎◌, ◌∙◌, ltb, leb→le, every_until, of-every_until, refl,
  subst, Bool, true, false, not, ◌||◌, Option, none, some, ◌≢◌, leb, ◌==◌, if◌then◌else◌, arith,
  Bool-cases, inl, inr,
}
use ferp.Common.Bits.{shr}
use ferp.SizeClass.{size_tables, max_size, size_class, byte_size_for_class, allocation_size}
use ferp.SizeClass.InUse.{last_class, largest_class}
use ferp.SizeClass.Classes.{size_class-least}
use ferp.PageMap.Interface.{PageMap}
use ferp.PageHeap.{Ptr, null, System, get_descriptor, page_shift}
use ferp.Malloc.{Caching, World, pure, modify, in_heap, do_malloc, do_free, ◌>>=◌, ◌>>◌}
use ferp.Malloc.Library.{copy, must_move, move_object, old_size_of, realloc}

-- The classes that are large enough for a size and not after its own are not longer.
rising : ℕ → Bool
rising cl =
    leb cl 0 || leb (byte_size_for_class size_tables cl) (byte_size_for_class size_tables (cl + 1))

classes_rise : every_until rising 168 ≡ true
unfolding rising every_until byte_size_for_class size_tables
classes_rise = refl

sizes_rise :
    (d cl : ℕ)
    → 0 < cl
    → cl + d ≤ last_class
    → byte_size_for_class size_tables cl ≤ byte_size_for_class size_tables (cl + d)
unfolding rising
sizes_rise zero cl p h = rw (add-zero cl) (omega arith)
sizes_rise (suc d) cl p h =
    let rest = sizes_rise d cl p (omega arith) in
    let step = of-every_until rising 168 (cl + d) (omega arith) classes_rise in
    rw (add-suc cl d) (ground (arith, rest, step))

-- The test of realloc on an object of a class in use: the new size has a class of another length.
must_move-class :
    (cl new_size : ℕ)
    → 0 < cl
    → cl ≤ last_class
    → 0 < new_size
    → new_size ≤ max_size
    → let old_size = byte_size_for_class size_tables cl in
      let same = byte_size_for_class size_tables (size_class size_tables new_size) == old_size in
      (must_move size_tables old_size new_size ≡ not same)
      × (must_move size_tables old_size new_size ≡ false → new_size ≤ old_size)
unfolding must_move allocation_size
must_move-class cl new_size low high pos most =
    let old_size = byte_size_for_class size_tables cl in
    let mine =
      size_class-least new_size last_class most (omega arith) (omega arith)
        (omega (arith, largest_class)) in
    elim (Bool-cases (leb new_size old_size)) [
      | inl fits ↦
          let least =
            size_class-least new_size cl most low (omega arith) (leb→le new_size old_size fits) in
          let k = size_class size_tables new_size in
          let below : byte_size_for_class size_tables k ≤ old_size =
            subst (λ j. byte_size_for_class size_tables k ≤ byte_size_for_class size_tables j)
              (omega arith) (sizes_rise (cl - k) k (least.1) (omega (arith, least))) in
          ground (arith, mine, below)
      | inr large ↦ ground (arith, mine)
    ]

copy-bytes :
    (to from size : ℕ) (memory : ℕ → ℕ) (a : ℕ)
    → (a < size → copy to from size memory (to + a) ≡ memory (from + a))
      × ((a < to) ⊎ (to + size ≤ a) → copy to from size memory a ≡ memory a)
unfolding copy
copy-bytes to from size memory a =
    let back : to + a - to ≡ a = omega arith in (λ l. ground (arith, back), λ o. ground arith)

module _ {P : PageMap} {Y : System} {K : Caching P Y} where
  abbrev pub after_free : Ptr → Option (Unit {0} × World K) → Option (Ptr × World K)
  after_free p none = none
  after_free p (some (u, w)) = some (p, w)

  -- A result of do_malloc to which the first `size` bytes at `old_ptr` are then copied, and the old
  -- object freed.
  abbrev pub Moved : Ptr → ℕ → Option (Ptr × World K) → Option (Ptr × World K) → Type 0
  Moved old_ptr size none r = r ≡ none
  Moved old_ptr size (some (p, w)) r =
      (p ≡ null → r ≡ some (null, w))
      × (p ≢ null
          → (memory : ℕ → ℕ) × (r
              ≡ after_free p (do_free {K = K} old_ptr (record w { memory = memory })))
            × ((a : ℕ) → a < size → memory (p + a) ≡ w.memory (old_ptr + a))
            × ((a : ℕ) → (a < p) ⊎ (p + size ≤ a) → memory a ≡ w.memory a))

  freed :
      (p : Ptr) (r : Option (Unit {0} × World K))
      → elim r [ none ↦ none | some (u, w) ↦ pure p w ] ≡ after_free p r
  freed p none = refl
  freed p (some (u, w)) = refl

  moved :
      (old_ptr size : ℕ) (r : Option (Ptr × World K))
      → Moved old_ptr size r (elim r [
        | none ↦ none
        | some (p, w) ↦
            (if p == null
                then pure null
                else (modify (λ u. record u { memory = copy p old_ptr size u.memory })
                    >> (do_free old_ptr >> pure p)))
              w
      ])
  moved old_ptr size none = refl
  moved old_ptr size (some (p, w)) = (
    λ z. rw z refl,
    λ d.
        let one : (p == null) ≡ false = ground (arith, d) in
        (
          copy p old_ptr size w.memory,
          rw one (freed p (do_free old_ptr (record w { memory = copy p old_ptr size w.memory }))),
          λ a l. (copy-bytes p old_ptr size w.memory a).0 l,
          λ a o. (copy-bytes p old_ptr size w.memory a).1 o,
        ),
  )

  move_object-Moved :
      (old_ptr old_size new_size : ℕ) (w : World K)
      → Moved old_ptr
          (if ltb old_size new_size then old_size else new_size)
          (do_malloc {K = K} new_size w)
          (move_object size_tables {K = K} old_ptr old_size new_size w)
  unfolding move_object
  move_object-Moved old_ptr old_size new_size w =
      moved old_ptr (if ltb old_size new_size then old_size else new_size)
        (do_malloc {K = K} new_size w)

  realloc-steps :
      (ptr p new_size cl : ℕ) (w : World K)
      → ptr ≢ null
      → 0 < new_size
      → 0 < cl
      → P.get w.heap.pagemap (shr ptr page_shift) ≡ some p
      → (w.heap.spans p).sizeclass ≡ cl
      → let old_size = byte_size_for_class size_tables cl in
        realloc size_tables {K = K} ptr new_size w
        ≡ (if must_move size_tables old_size new_size
              then move_object size_tables ptr old_size new_size
              else pure ptr)
            w
  unfolding realloc old_size_of in_heap get_descriptor
  realloc-steps ptr p new_size cl w there pos low mapped class =
      let a : (ptr == null) ≡ false = ground (arith, there) in
      let b : (new_size == 0) ≡ false = ground arith in
      let c : ((w.heap.spans p).sizeclass == 0) ≡ false = ground (arith, class) in
      rw (a, b, mapped, ◌>>=◌, c, class) refl

  -- realloc of an object, whose span has a class in use, to a positive size of at most kMaxSize. If the
  -- class of the new size is as long, the object holds the new size, and realloc answers it and changes
  -- nothing. Else it answers what do_malloc does for the new size, aborts included; and if that is not
  -- NULL, the bytes of the object that fit it are copied there, all others stay as do_malloc left them,
  -- and then the old object is freed.
  pub realloc-class :
      (ptr p new_size cl : ℕ) (w : World K)
      → ptr ≢ null
      → 0 < new_size
      → new_size ≤ max_size
      → 0 < cl
      → cl ≤ last_class
      → P.get w.heap.pagemap (shr ptr page_shift) ≡ some p
      → (w.heap.spans p).sizeclass ≡ cl
      → let old_size = byte_size_for_class size_tables cl in
        let new_length = byte_size_for_class size_tables (size_class size_tables new_size) in
        (new_length ≡ old_size
          → (new_size ≤ old_size) × (realloc size_tables {K = K} ptr new_size w ≡ some (ptr, w)))
        × (new_length ≢ old_size
            → Moved ptr
                (if ltb old_size new_size then old_size else new_size)
                (do_malloc {K = K} new_size w)
                (realloc size_tables {K = K} ptr new_size w))
  realloc-class ptr p new_size cl w there pos most low high mapped class =
      let old_size = byte_size_for_class size_tables cl in
      let test = must_move-class cl new_size low high pos most in
      let steps = realloc-steps ptr p new_size cl w there pos low mapped class in
      (
        λ same.
            let stays : must_move size_tables old_size new_size ≡ false =
              ground (arith, test.0, same) in
            (test.1 stays, steps ∙ rw stays refl),
        λ other.
            let moves : must_move size_tables old_size new_size ≡ true =
              ground (arith, test.0, other) in
            rw (steps, moves) (move_object-Moved ptr old_size new_size w),
      )
