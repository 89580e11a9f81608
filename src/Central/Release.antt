-- ===== src/Central/Release.antt =====
-- ReleaseToSpans of src/tcmalloc.cpp.
use ferp.Common.{
  List-cases, ◌∙◌, ℕ, ◌+◌, ◌-◌, ◌%◌, ◌<◌, ◌≡◌, inl, inr, refl, true, false, ◌||◌, ◌∷◌, ◌==◌,
  if◌then◌else◌, update, length, arith, Bool-cases,
}
use ferp.Common.Bits.{u64_mod, shr}
use ferp.SizeClass.{Tables}
use ferp.PageHeap.{has, Ptr, dll_remove, page_shift, add64, sub64}
use ferp.PageHeap.Rings.{
  chained, dll_remove-absent, has-dll_remove, chained-update, chained-dll_remove,
}
use ferp.Central.{
  PageSource, Store, release_to_spans, to_nonempty, is_empty, count_back, release_object,
  unlink_span, return_span, objects_of,
}
use ferp.Central.Counted.{
  Counted, no_chain-length, refilled, raised, returned, refilled-Counted, raised-Counted,
  returned-Counted,
}

module _ {S : PageSource} where
  -- The members after the object is counted, for a span with and without a chain.
  count_back-chain :
      (cl : ℕ) (span : Ptr) (s : Store S)
      → is_empty (s.objects span) ≡ false
      → (count_back cl span s).central cl ≡ raised (s.central cl)
  unfolding count_back
  count_back-chain cl span s h = ground arith

  count_back-none :
      (cl : ℕ) (span : Ptr) (s : Store S)
      → is_empty (s.objects span) ≡ true
      → (count_back cl span s).central cl ≡ refilled span (s.central cl)
  unfolding count_back to_nonempty
  count_back-none cl span s h = ground arith

  count_back-refcount :
      (cl : ℕ) (span : Ptr) (s : Store S)
      → (count_back cl span s).refcount span ≡ (s.refcount span + 2047) % 2048
  unfolding count_back to_nonempty
  count_back-refcount cl span s = ground arith

  count_back-objects :
      (cl : ℕ) (span : Ptr) (s : Store S)
      → ((count_back cl span s).objects ≡ s.objects) × ((count_back cl span s).heap ≡ s.heap)
  unfolding count_back to_nonempty
  count_back-objects cl span s = elim (Bool-cases (is_empty (s.objects span))) [
    | inl h ↦ rw h (refl, refl)
    | inr h ↦ rw h (refl, refl)
  ]

module _ (t : Tables) {S : PageSource} where
  return_span-central :
      (cl : ℕ) (span : Ptr) (s : Store S)
      → (return_span t cl span s).central cl ≡ record (s.central cl) {
        empty = dll_remove span (s.central cl).empty;
        nonempty = dll_remove span (s.central cl).nonempty;
        counter =
            sub64
              (s.central cl).counter
              (objects_of t (S.length_of s.heap span) (S.class_of s.heap span));
      }
  unfolding return_span unlink_span
  return_span-central cl span s = ground arith

  return_span-objects :
      (cl : ℕ) (span : Ptr) (s : Store S) → (return_span t cl span s).objects ≡ s.objects
  unfolding return_span unlink_span
  return_span-objects cl span s = refl

  module _ (cl : ℕ) (object span : Ptr) (s : Store S) (v : Counted (s.central cl) s.objects) where
    abbrev cut : ℕ
    cut = objects_of t (S.length_of s.heap span) (S.class_of s.heap span)

    removed_twice :
        dll_remove span (dll_remove span (s.central cl).empty)
        ≡ dll_remove span (s.central cl).empty
    removed_twice =
        dll_remove-absent span _
          (ground (arith, has-dll_remove span span (s.central cl).empty v.distinct_empty))

    count_back-removed :
        (dll_remove span ((count_back cl span s).central cl).empty
          ≡ dll_remove span (s.central cl).empty)
        × (dll_remove span ((count_back cl span s).central cl).nonempty
            ≡ dll_remove span (s.central cl).nonempty)
        × (((count_back cl span s).central cl).counter ≡ add64 (s.central cl).counter 1)
    unfolding dll_remove
    count_back-removed = elim (Bool-cases (is_empty (s.objects span))) [
      | inl h ↦ rw (count_back-none cl span s h) (removed_twice, ground arith, refl)
      | inr h ↦ rw (count_back-chain cl span s h) (refl, refl, refl)
    ]

    count_back-slots :
        (((count_back cl span s).central cl).slots ≡ (s.central cl).slots)
        × (((count_back cl span s).central cl).cache_size ≡ (s.central cl).cache_size)
    count_back-slots = elim (Bool-cases (is_empty (s.objects span))) [
      | inl h ↦ rw (count_back-none cl span s h) (refl, refl)
      | inr h ↦ rw (count_back-chain cl span s h) (refl, refl)
    ]

    -- The last object in use of a span comes back.
    release-last :
        s.refcount span ≡ 1
        → ((release_object t cl object span s).central cl ≡ returned span cut (s.central cl))
          × ((release_object t cl object span s).objects ≡ s.objects)
    unfolding release_object
    release-last f =
        let zero_left : (count_back cl span s).refcount span ≡ 0 =
          omega (arith, count_back-refcount cl span s) in
        rw zero_left (
          ground (
            arith,
            return_span-central cl span (count_back cl span s),
            count_back-objects cl span s,
            count_back-removed,
            count_back-slots,
          ),
          return_span-objects cl span (count_back cl span s) ∙ (count_back-objects cl span s).0,
        )

    release-other :
        1 < s.refcount span
        → s.refcount span < 2048
        → ((release_object t cl object span s).central cl ≡ (count_back cl span s).central cl)
          × ((release_object t cl object span s).objects
              ≡ update s.objects span (object ∷ s.objects span))
    unfolding release_object
    release-other f g = elim (Bool-cases ((count_back cl span s).refcount span == 0)) [
      | inl e ↦ absurd (ground (arith, count_back-refcount cl span s))
      | inr e ↦ rw e (refl, refl)
    ]

    returned-chained :
        (has span (s.central cl).nonempty || has span (s.central cl).empty) ≡ true
        → chained s.objects (dll_remove span (s.central cl).nonempty) + length (s.objects span)
          ≡ chained s.objects (s.central cl).nonempty
    returned-chained i = elim (Bool-cases (has span (s.central cl).nonempty)) [
      | inl within ↦ omega (arith, chained-dll_remove s.objects span (s.central cl).nonempty within)
      | inr out ↦
          let bare : length (s.objects span) ≡ 0 =
            no_chain-length (s.central cl) s.objects span object v
              (v.no_chains span (ground (arith, out))) in
          rw (dll_remove-absent span (s.central cl).nonempty out) (omega (arith, bare))
    ]

    kept-Counted :
        (has span (s.central cl).nonempty || has span (s.central cl).empty) ≡ true
        → Counted
            ((count_back cl span s).central cl)
            (update s.objects span (object ∷ s.objects span))
          × (chained
                (update s.objects span (object ∷ s.objects span))
                ((count_back cl span s).central cl).nonempty
              ≡ chained s.objects (s.central cl).nonempty + 1)
    unfolding is_empty
    kept-Counted i = elim (List-cases (s.objects span)) [
      | inl f ↦
          let bare : is_empty (s.objects span) ≡ true = ground (arith, f) in
          let out : has span (s.central cl).nonempty ≡ false = ground (arith, v.chains span) in
          rw (count_back-none cl span s bare, f)
            (
              refilled-Counted (s.central cl) s.objects span object v (ground (arith, out)) f,
              ground (
                arith,
                dll_remove-absent span (s.central cl).nonempty out,
                chained-update s.objects span (object ∷ s.objects span)
                    (dll_remove span (s.central cl).nonempty),
                has-dll_remove span span (s.central cl).nonempty v.distinct,
              ),
            )
      | inr (next, rest, f) ↦
          let held : is_empty (s.objects span) ≡ false = ground (arith, f) in
          let within : has span (s.central cl).nonempty ≡ true = ground (arith, v.no_chains span) in
          rw (count_back-chain cl span s held, f)
            (
              raised-Counted (s.central cl) s.objects span object v next rest within f,
              ground (
                arith,
                f,
                chained-dll_remove s.objects span (s.central cl).nonempty,
                chained-dll_remove (update s.objects span (object ∷ next ∷ rest)) span
                    (s.central cl).nonempty,
                has-dll_remove span span (s.central cl).nonempty v.distinct,
                chained-update s.objects span (object ∷ next ∷ rest)
                    (dll_remove span (s.central cl).nonempty),
              ),
            )
    ]

    release_object-Counted :
        (has span (s.central cl).nonempty || has span (s.central cl).empty) ≡ true
        → 0 < s.refcount span
        → s.refcount span < 2048
        → length (s.objects span) + s.refcount span ≡ cut
        → cut < u64_mod
        → Counted
            ((release_object t cl object span s).central cl)
            (release_object t cl object span s).objects
          × (chained
                  (release_object t cl object span s).objects
                  ((release_object t cl object span s).central cl).nonempty
                + (if s.refcount span == 1 then cut else 0)
              ≡ chained s.objects (s.central cl).nonempty + 1)
    release_object-Counted i low high full word = elim (Bool-cases (s.refcount span == 1)) [
      | inl e ↦
          let one : s.refcount span ≡ 1 = ground arith in
          let (c, o) = release-last one in
          let n : cut ≡ length (s.objects span) + 1 = omega arith in
          rw (c, o, e, n)
            (
              returned-Counted (s.central cl) s.objects span object v i (omega arith),
              omega (arith, returned-chained i),
            )
      | inr e ↦
          let (c, o) = release-other (ground arith) high in
          rw (c, o, e) ((kept-Counted i).0, omega (arith, (kept-Counted i).1))
    ]

  -- What becomes of the span and of the page heap.
  release_object-heap :
      (cl : ℕ) (object span : Ptr) (s : Store S)
      → 0 < s.refcount span
      → s.refcount span < 2048
      → ((release_object t cl object span s).heap
          ≡ (if s.refcount span == 1 then S.delete_span span s.heap else s.heap))
        × ((j : Ptr)
            → (release_object t cl object span s).refcount j
              ≡ (if j == span then s.refcount span - 1 else s.refcount j))
  unfolding release_object return_span unlink_span count_back to_nonempty
  release_object-heap cl object span s low high = (
    elim (Bool-cases (is_empty (s.objects span))) [
      | inl h ↦ rw h (ground arith)
      | inr h ↦ rw h (ground arith)
    ],
    λ j. elim (Bool-cases (is_empty (s.objects span))) [
      | inl h ↦ rw h (ground arith)
      | inr h ↦ rw h (ground arith)
    ],
  )

  -- ReleaseToSpans of an object whose span is in a ring of the class and has an object in use,
  -- where chain and objects in use make up the objects of the span, keeps the spans counted
  -- right. The chains have one object more; if it was the last in use, they lose those of the
  -- whole span, and Delete of the page heap is called for it, which is not called else. The span has
  -- one object in use less, and no other span's count changes.
  pub release_to_spans-Counted :
      (cl : ℕ) (object span : Ptr) (s : Store S)
      → Counted (s.central cl) s.objects
      → S.get_descriptor s.heap (shr object page_shift) ≡ span
      → (has span (s.central cl).nonempty || has span (s.central cl).empty) ≡ true
      → 0 < s.refcount span
      → s.refcount span < 2048
      → length (s.objects span) + s.refcount span
        ≡ objects_of t (S.length_of s.heap span) (S.class_of s.heap span)
      → objects_of t (S.length_of s.heap span) (S.class_of s.heap span) < u64_mod
      → Counted
          ((release_to_spans t cl object s).central cl)
          (release_to_spans t cl object s).objects
        × (chained
                (release_to_spans t cl object s).objects
                ((release_to_spans t cl object s).central cl).nonempty
              + (if s.refcount span == 1
                  then objects_of t (S.length_of s.heap span) (S.class_of s.heap span)
                  else 0)
            ≡ chained s.objects (s.central cl).nonempty + 1)
        × ((release_to_spans t cl object s).heap
            ≡ (if s.refcount span == 1 then S.delete_span span s.heap else s.heap))
        × ((j : Ptr)
            → (release_to_spans t cl object s).refcount j
              ≡ (if j == span then s.refcount span - 1 else s.refcount j))
  unfolding release_to_spans
  release_to_spans-Counted cl object span s v e i low high full word =
      let (counted, chains) = release_object-Counted cl object span s v i low high full word in
      let (heap, refcount) = release_object-heap cl object span s low high in
      rw e (counted, chains, heap, refcount)
