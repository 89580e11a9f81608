-- ===== src/Central/Fetch.antt =====
-- FetchFromSpans of src/tcmalloc.cpp.
use ferp.Common.{
  List-cases, ℕ, ◌+◌, ◌%◌, ◌≡◌, ◌≢◌, ◌==◌, if◌then◌else◌, update_other, ◌⊎◌, inl, inr, refl, Option,
  none, some, List, [], ◌∷◌, update, arith,
}
use ferp.PageHeap.{Ptr, dll_remove}
use ferp.PageHeap.Rings.{chained, chained-update}
use ferp.Central.{
  refcount_mod, PageSource, Store, fetch_from_spans, take_object, to_empty, is_empty,
}
use ferp.Central.Counted.{Counted, emptied, lessened, emptied-Counted, lessened-Counted}

module _ {S : PageSource} where
  -- What a call of FetchFromSpans leaves: with no object in the chains it answers NULL and changes
  -- nothing; else it answers the first object of the first span, which has one object in use more,
  -- while no other span's count or chain changes, and the chains have one object less.
  abbrev pub Fetched : ℕ → Store S → Option Ptr × Store S → Type 0
  Fetched cl s (r, s') =
      Counted (s'.central cl) s'.objects
      × (((r ≡ none) × (chained s.objects (s.central cl).nonempty ≡ 0) × (s' ≡ s))
          ⊎ ((span : Ptr) × (object : Ptr) × (spans : List Ptr) × (r ≡ some object)
              × ((s.central cl).nonempty ≡ span ∷ spans)
              × (s.objects span ≡ object ∷ s'.objects span)
              × ((j : Ptr) → j ≢ span → s'.objects j ≡ s.objects j)
              × ((j : Ptr)
                  → s'.refcount j
                    ≡ (if j == span then (s.refcount span + 1) % refcount_mod else s.refcount j))
              × (chained s.objects (s.central cl).nonempty
                  ≡ chained s'.objects (s'.central cl).nonempty + 1)))

  take_last :
      (cl : ℕ) (span object : Ptr) (s : Store S)
      → (take_object cl span object [] s).central cl ≡ emptied span (s.central cl)
  unfolding take_object to_empty is_empty
  take_last cl span object s = ground arith

  take_front :
      (cl : ℕ) (span object next : Ptr) (rest : List Ptr) (s : Store S)
      → (take_object cl span object (next ∷ rest) s).central cl ≡ lessened (s.central cl)
  unfolding take_object is_empty
  take_front cl span object next rest s = ground arith

  take_object-objects :
      (cl : ℕ) (span object : Ptr) (rest : List Ptr) (s : Store S)
      → (take_object cl span object rest s).objects ≡ update s.objects span rest
  unfolding take_object to_empty is_empty
  take_object-objects cl span object [] s = refl
  take_object-objects cl span object (x ∷ rest) s = refl

  take_object-refcount :
      (cl : ℕ) (span object : Ptr) (rest : List Ptr) (s : Store S) (j : Ptr)
      → (take_object cl span object rest s).refcount j
        ≡ (if j == span then (s.refcount span + 1) % refcount_mod else s.refcount j)
  unfolding take_object to_empty is_empty
  take_object-refcount cl span object [] s j = ground arith
  take_object-refcount cl span object (x ∷ rest) s j = ground arith

  take_object-others :
      (cl : ℕ) (span object : Ptr) (rest : List Ptr) (s : Store S) (j : Ptr)
      → j ≢ span
      → (take_object cl span object rest s).objects j ≡ s.objects j
  take_object-others cl span object rest s j d =
      rw (take_object-objects cl span object rest s) (update_other s.objects span rest j d)

  take_object-Counted :
      (cl : ℕ) (span object : Ptr) (spans rest : List Ptr) (s : Store S)
      → (s.central cl).nonempty ≡ span ∷ spans
      → s.objects span ≡ object ∷ rest
      → Counted (s.central cl) s.objects
      → Counted
          ((take_object cl span object rest s).central cl)
          (take_object cl span object rest s).objects
  take_object-Counted cl span object spans [] s e f v =
      rw (take_last cl span object s, take_object-objects cl span object [] s)
        (emptied-Counted (s.central cl) s.objects span object spans e v f)
  take_object-Counted cl span object spans (x ∷ rest) s e f v =
      rw (take_front cl span object x rest s, take_object-objects cl span object (x ∷ rest) s)
        (lessened-Counted (s.central cl) s.objects span object spans e v x rest f)

  take_object-chained :
      (cl : ℕ) (span object : Ptr) (spans rest : List Ptr) (s : Store S)
      → (s.central cl).nonempty ≡ span ∷ spans
      → s.objects span ≡ object ∷ rest
      → Counted (s.central cl) s.objects
      → chained s.objects (s.central cl).nonempty
        ≡ chained
            (take_object cl span object rest s).objects
            ((take_object cl span object rest s).central cl).nonempty
          + 1
  unfolding dll_remove
  take_object-chained cl span object spans [] s e f v =
      rw (take_last cl span object s, take_object-objects cl span object [] s)
        (ground (arith, v.distinct, chained-update s.objects span [] spans, e, f))
  take_object-chained cl span object spans (x ∷ rest) s e f v =
      rw (take_front cl span object x rest s, take_object-objects cl span object (x ∷ rest) s)
        (ground (arith, v.distinct, chained-update s.objects span (x ∷ rest) spans, e, f))

  fetch-some :
      (cl : ℕ) (span object : Ptr) (spans rest : List Ptr) (s : Store S)
      → (s.central cl).nonempty ≡ span ∷ spans
      → s.objects span ≡ object ∷ rest
      → fetch_from_spans cl s ≡ (some object, take_object cl span object rest s)
  unfolding fetch_from_spans
  fetch-some cl span object spans rest s e f = ground (arith, e, f)

  fetch-none :
      (cl : ℕ) (s : Store S) → (s.central cl).nonempty ≡ [] → fetch_from_spans cl s ≡ (none, s)
  unfolding fetch_from_spans
  fetch-none cl s e = ground (arith, e)

  -- FetchFromSpans on a class whose spans are counted right leaves them so, and does as `Fetched`
  -- says.
  pub fetch_from_spans-Fetched :
      (cl : ℕ) (s : Store S)
      → Counted (s.central cl) s.objects
      → Fetched cl s (fetch_from_spans cl s)
  unfolding is_empty
  fetch_from_spans-Fetched cl s v = elim (List-cases (s.central cl).nonempty) [
    | inl e ↦ rw (fetch-none cl s e) (v, inl (refl, ground (arith, e), refl))
    | inr (span, spans, e) ↦ elim (List-cases (s.objects span)) [
      | inl f ↦ absurd (ground (arith, v.chains span))
      | inr (object, rest, f) ↦ rw (fetch-some cl span object spans rest s e f) (
        take_object-Counted cl span object spans rest s e f v,
        inr (
          span,
          object,
          spans,
          refl,
          e,
          rw (take_object-objects cl span object rest s) (ground (arith, f)),
          take_object-others cl span object rest s,
          take_object-refcount cl span object rest s,
          take_object-chained cl span object spans rest s e f v,
        ),
      )
    ]
  ]
