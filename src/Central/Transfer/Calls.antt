-- ===== src/Central/Transfer/Calls.antt =====
-- Sequences of InsertRange and RemoveRange of src/tcmalloc.cpp, on lists as Init leaves them.
use ferp.Common.{
  ap, fun_ext, ==_refl, lt→ltb, List-cases, ℕ, zero, suc, ◌-◌, ◌<◌, ◌≡◌, ◌∙◌, refl, List, [], ◌∷◌,
  ◌==◌, arith, Bool-cases, Option-cases, inl, inr,
}
use ferp.Common.Sums.{sum_below, sum_below-same}
use ferp.SizeClass.{num_classes, Tables}
use ferp.PageHeap.{Ptr}
use ferp.Central.{
  PageSource, Store, Central, init, release_list_to_spans, fetch_from_spans, take_object, to_empty,
  populate, fetch_from_spans_safe,
}
use ferp.Central.Transfer.{
  moves, pushed, popped, make_cache_space, insert_range, remove_range, remove_objects, fetch_more,
}
use ferp.Central.Transfer.Sizes.{SameSlots, cache_of, slots_of, release_list_to_spans-SameSlots}
use ferp.Central.Transfer.Space.{total_cache, InBounds, make_cache_space-Made}

module _ {S : PageSource} where
  SameSlots-trans : (s s1 s2 : Store S) → SameSlots s s1 → SameSlots s1 s2 → SameSlots s s2
  SameSlots-trans s s1 s2 h k = λ j. ((k j).0 ∙ (h j).0, (k j).1 ∙ (h j).1)

  fetch_from_spans-SameSlots : (cl : ℕ) (s : Store S) → SameSlots s (fetch_from_spans cl s).1
  unfolding fetch_from_spans take_object to_empty
  fetch_from_spans-SameSlots cl s = λ j. ground arith

  fetch_more-SameSlots :
      (left cl : ℕ) (head : List Ptr) (s : Store S) → SameSlots s (fetch_more left cl head s).1
  unfolding fetch_more
  fetch_more-SameSlots zero cl head s = λ j. (refl, refl)
  fetch_more-SameSlots (suc left) cl head s =
      let r = fetch_from_spans cl s in
      let first = fetch_from_spans-SameSlots cl s in
      elim (Option-cases r.0) [
        | inl e ↦ rw (e, fetch_more) first
        | inr (p, e) ↦
            rw (e, fetch_more)
              (SameSlots-trans s r.1 (fetch_more left cl (p ∷ head) r.1).1 first
                (fetch_more-SameSlots left cl (p ∷ head) r.1))
      ]

module _ (t : Tables) {S : PageSource} where
  populate-SameSlots : (cl : ℕ) (s : Store S) → SameSlots s (populate t cl s)
  unfolding populate
  populate-SameSlots cl s = λ j. ground arith

  safe-SameSlots : (cl : ℕ) (s : Store S) → SameSlots s (fetch_from_spans_safe t cl s).1
  unfolding fetch_from_spans_safe
  safe-SameSlots cl s = λ j.
      let r = fetch_from_spans cl s in
      ground (
        arith,
        fetch_from_spans-SameSlots cl s j,
        populate-SameSlots cl r.1 j,
        fetch_from_spans-SameSlots cl (populate t cl r.1) j,
      )

  pub remove_objects-SameSlots :
      (cl num : ℕ) (s : Store S) → SameSlots s (remove_objects t cl num s).1
  unfolding remove_objects
  remove_objects-SameSlots cl num s =
      let r = fetch_from_spans_safe t cl s in
      let first = safe-SameSlots cl s in
      elim (Option-cases r.0) [
        | inl e ↦ rw (e, remove_objects) first
        | inr (p, e) ↦
            rw (e, remove_objects)
              (SameSlots-trans s r.1 (fetch_more (num - 1) cl (p ∷ []) r.1).1 first
                (fetch_more-SameSlots (num - 1) cl (p ∷ []) r.1))
      ]

  -- The slots and sizes decide the two properties of the caches.
  SameSlots-total : (s s' : Store S) → SameSlots s s' → total_cache s' ≡ total_cache s
  SameSlots-total s s' h = sum_below-same (cache_of s) (cache_of s') num_classes (λ j l. (h j).1)

  SameSlots-InBounds : (s s' : Store S) → SameSlots s s' → InBounds s → InBounds s'
  SameSlots-InBounds s s' h b = λ j. ground (arith, h j, b j)

  -- A call keeps the size of all caches together, and each within its bounds.
  abbrev Keeps : Store S → Store S → Type 0
  Keeps s s' = (total_cache s' ≡ total_cache s) × (InBounds s → InBounds s')

  SameSlots-Keeps : (s s' : Store S) → SameSlots s s' → Keeps s s'
  SameSlots-Keeps s s' h = (SameSlots-total s s' h, SameSlots-InBounds s s' h)

  insert_range-Keeps :
      (cl n : ℕ) (objects : List Ptr) (s : Store S)
      → cl < num_classes
      → InBounds s
      → Keeps s (insert_range t cl objects n s)
  unfolding insert_range
  insert_range-Keeps cl n objects s l b =
      let r = make_cache_space t cl s in
      let (total, keep, space) = make_cache_space-Made t cl s l b in
      elim (Bool-cases (n == moves t cl)) [
        | inl e ↦ elim (Bool-cases r.0) [
          | inl f ↦
              rw (e, f)
                (
                  sum_below-same (cache_of r.1) (cache_of (pushed cl objects r.1)) num_classes
                        (λ j k. ground arith)
                      ∙ total,
                  λ i j. ground (arith, keep i j, space f),
                )
          | inr f ↦
              let h = release_list_to_spans-SameSlots t cl objects r.1 in
              rw (e, f)
                (
                  SameSlots-total r.1 (release_list_to_spans t cl objects r.1) h ∙ total,
                  λ i. SameSlots-InBounds r.1 (release_list_to_spans t cl objects r.1) h (keep i),
                )
        ]
        | inr e ↦ rw e (
            SameSlots-Keeps s (release_list_to_spans t cl objects s)
              (release_list_to_spans-SameSlots t cl objects s))
      ]

  remove_range-Keeps : (cl num : ℕ) (s : Store S) → Keeps s (remove_range t cl num s).2
  unfolding remove_range
  remove_range-Keeps cl num s =
      let asked =
        SameSlots-Keeps s (remove_objects t cl num s).1 (remove_objects-SameSlots cl num s) in
      elim (Bool-cases (num == moves t cl)) [
        | inl e ↦ elim (List-cases (s.central cl).slots) [
          | inl f ↦ rw (e, f, remove_range) asked
          | inr (batch, slots, f) ↦
              rw (e, f, remove_range)
                (
                  sum_below-same (cache_of s) (cache_of (popped cl slots s)) num_classes
                      (λ j k. ground arith),
                  λ b j. ground (arith, b j, f),
                )
        ]
        | inr e ↦ rw e asked
      ]

-- A call of one of the two functions on a class.
pub data Call : Type 0 where
  insert : ℕ → List Ptr → ℕ → Call
  remove : ℕ → ℕ → Call

abbrev pub ClassesInRange : List Call → Type 0
ClassesInRange [] = Unit {0}
ClassesInRange (insert cl objects n ∷ calls) = (cl < num_classes) × ClassesInRange calls
ClassesInRange (remove cl num ∷ calls) = (cl < num_classes) × ClassesInRange calls

module _ (t : Tables) {S : PageSource} where
  pub run : List Call → Store S → Store S
  run [] s = s
  run (insert cl objects n ∷ calls) s = run calls (insert_range t cl objects n s)
  run (remove cl num ∷ calls) s = run calls (remove_range t cl num s).2

  run-Keeps :
      (calls : List Call) (s : Store S)
      → ClassesInRange calls
      → InBounds s
      → Keeps t s (run calls s)
  unfolding run
  run-Keeps [] s c b = (refl, λ i. i)
  run-Keeps (insert cl objects n ∷ calls) s c b =
      let s1 = insert_range t cl objects n s in
      let (total, keep) = insert_range-Keeps t cl n objects s c.0 b in
      let (total', keep') = run-Keeps calls s1 c.1 (keep b) in (total' ∙ total, λ i. keep' (keep i))
  run-Keeps (remove cl num ∷ calls) s c b =
      let s1 = (remove_range t cl num s).2 in
      let (total, keep) = remove_range-Keeps t cl num s in
      let (total', keep') = run-Keeps calls s1 c.1 (keep b) in (total' ∙ total, λ i. keep' (keep i))

  -- After any calls on lists as Init leaves them, the transfer caches of all classes have 170
  -- slots together, and every class has at most as many batches as slots and at most 170 slots.
  pub run-total :
      (calls : List Call) (s : Store S)
      → ClassesInRange calls
      → ((j : ℕ) → s.central j ≡ init)
      → (total_cache (run calls s) ≡ num_classes) × InBounds (run calls s)
  unfolding init sum_below
  run-total calls s c start =
      let ones : total_cache s ≡ total_cache (record s { central = λ j. init }) =
        sum_below-same (cache_of (record s { central = λ j. init })) (cache_of s) num_classes
          (λ j l. ground (arith, start j)) in
      let first : InBounds s = λ j. ground (arith, start j) in
      let (total, keep) = run-Keeps calls s c first in (total ∙ ones ∙ refl, keep first)

  insert_range-spare :
      (cl : ℕ) (objects : List Ptr) (s : Store S)
      → slots_of s cl < cache_of s cl
      → insert_range t cl objects (moves t cl) s ≡ pushed cl objects s
  unfolding insert_range make_cache_space
  insert_range-spare cl objects s l = rw (==_refl (moves t cl), lt→ltb _ _ l) refl

  remove_range-top :
      (cl : ℕ) (batch : List Ptr) (slots : List (List Ptr)) (s : Store S)
      → (s.central cl).slots ≡ batch ∷ slots
      → remove_range t cl (moves t cl) s ≡ (batch, moves t cl, popped cl slots s)
  unfolding remove_range
  remove_range-top cl batch slots s e = rw (==_refl (moves t cl), e, remove_range) refl

  pushed-slots :
      (cl : ℕ) (objects : List Ptr) (s : Store S)
      → ((pushed cl objects s).central cl).slots ≡ objects ∷ (s.central cl).slots
  pushed-slots cl objects s = ground arith

  popped-pushed :
      (cl : ℕ) (objects : List Ptr) (s : Store S)
      → popped cl (s.central cl).slots (pushed cl objects s) ≡ s
  popped-pushed cl objects s =
      ap (λ (c : ℕ → Central). record s { central = c }) (fun_ext λ j. ground arith)

  -- A full batch that goes into a class with a slot to spare comes back from the next RemoveRange
  -- of a full batch, and the lists are as before.
  pub remove_range-insert_range :
      (cl : ℕ) (objects : List Ptr) (s : Store S)
      → slots_of s cl < cache_of s cl
      → remove_range t cl (moves t cl) (insert_range t cl objects (moves t cl) s)
        ≡ (objects, moves t cl, s)
  remove_range-insert_range cl objects s l =
      let s1 = pushed cl objects s in
      rw (insert_range-spare cl objects s l) (
        remove_range-top cl objects (s.central cl).slots s1 (pushed-slots cl objects s)
        ∙ ap (λ x. (objects, moves t cl, x)) (popped-pushed cl objects s))
