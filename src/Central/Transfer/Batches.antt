-- ===== src/Central/Transfer/Batches.antt =====
-- Every batch in the slots of a class has num_objects_to_move objects, and RemoveRange of
-- src/tcmalloc.cpp counts what it answers.
use ferp.Common.{
  ℕ, zero, suc, ◌+◌, ◌-◌, ◌≤◌, ◌<◌, ◌≡◌, refl, subst, Bool, true, false, List, [], ◌∷◌, ltb, ◌==◌,
  length, arith, Bool-cases, Option-cases, List-cases, inl, inr,
}
use ferp.SizeClass.{Tables}
use ferp.PageHeap.{Ptr}
use ferp.Central.{
  PageSource, Store, at, release_list_to_spans, fetch_from_spans, fetch_from_spans_safe,
  num_transfer_entries,
}
use ferp.Central.Transfer.{
  moves, race, drop_slot, shrink_cache, evict_random_size_class, make_cache_space, insert_range,
  remove_range, remove_objects, fetch_more,
}
use ferp.Central.Transfer.Sizes.{SameSlots, slots_of, cache_of, release_list_to_spans-SameSlots}
use ferp.Central.Transfer.Calls.{remove_objects-SameSlots}

abbrev pub AreFull : ℕ → List (List Ptr) → Type 0
AreFull m [] = Unit {0}
AreFull m (batch ∷ slots) = (length batch ≡ m) × AreFull m slots

module _ (t : Tables) {S : PageSource} where
  abbrev pub IsGood : Store S → Type 0
  IsGood s = (j : ℕ) → AreFull (moves t j) (s.central j).slots

  SameSlots-IsGood : (s s' : Store S) → SameSlots s s' → IsGood s → IsGood s'
  SameSlots-IsGood s s' h g = λ j. rw (h j).0 (g j)

  -- The slots of a class are replaced by good ones.
  at-IsGood :
      (cl size : ℕ) (slots : List (List Ptr)) (s : Store S)
      → IsGood s
      → AreFull (moves t cl) slots
      → IsGood (at cl s λ c. record c { cache_size = size; slots = slots })
  at-IsGood cl size slots s g f j = elim (Bool-cases (j == cl)) [
    | inl e ↦ let same : j ≡ cl = ground arith in rw (e, same) f
    | inr e ↦ rw e (g j)
  ]

  drop_slot-IsGood :
      (cl : ℕ) (slots : List (List Ptr)) (s : Store S)
      → IsGood s
      → AreFull (moves t cl) slots
      → IsGood (drop_slot t cl slots s)
  unfolding drop_slot
  drop_slot-IsGood cl [] s g f = g
  drop_slot-IsGood cl (batch ∷ slots) s g f =
      let s1 = at cl s λ c. record c { cache_size = c.cache_size - 1; slots = slots } in
      SameSlots-IsGood s1 (release_list_to_spans t cl batch s1)
        (release_list_to_spans-SameSlots t cl batch s1)
        (at-IsGood cl (cache_of s cl - 1) slots s g f.1)

  shrink_cache-IsGood :
      (cl : ℕ) (force : Bool) (s : Store S) → IsGood s → IsGood (shrink_cache t cl force s).1
  unfolding shrink_cache
  shrink_cache-IsGood cl force s g = elim (Bool-cases (cache_of s cl == 0)) [
    | inl e ↦ rw e g
    | inr e ↦ elim (Bool-cases (slots_of s cl == cache_of s cl)) [
      | inl f ↦ elim (Bool-cases force) [
        | inl k ↦ rw (e, f, k) (drop_slot-IsGood cl (s.central cl).slots s g (g cl))
        | inr k ↦ rw (e, f, k) g
      ]
      | inr f ↦ rw (e, f) (at-IsGood cl (cache_of s cl - 1) (s.central cl).slots s g (g cl))
    ]
  ]

  evict-IsGood :
      (locked : ℕ) (force : Bool) (s : Store S)
      → IsGood s
      → IsGood (evict_random_size_class t locked force s).1
  unfolding evict_random_size_class
  evict-IsGood locked force s g =
      let v = (race s.race_counter).0 in
      let counted = record s { race_counter = (race s.race_counter).1 } in
      elim (Bool-cases (v == locked)) [
        | inl e ↦ rw e g
        | inr e ↦ rw e (shrink_cache-IsGood v force counted g)
      ]

  make_cache_space-IsGood : (cl : ℕ) (s : Store S) → IsGood s → IsGood (make_cache_space t cl s).1
  unfolding make_cache_space
  make_cache_space-IsGood cl s g =
      let r1 = evict_random_size_class t cl false s in
      let g1 = evict-IsGood cl false s g in
      let r2 = evict_random_size_class t cl true r1.1 in
      let g2 = evict-IsGood cl true r1.1 g1 in
      let grown = λ (u : Store S) (h : IsGood u).
        at-IsGood cl (cache_of u cl + 1) (u.central cl).slots u h (h cl) in
      elim (Bool-cases (ltb (slots_of s cl) (cache_of s cl))) [
        | inl e ↦ rw e g
        | inr e ↦ elim (Bool-cases (cache_of s cl == num_transfer_entries)) [
          | inl f ↦ rw (e, f) g
          | inr f ↦ elim (Bool-cases r1.0) [
            | inl k ↦ rw (e, f, k) (grown r1.1 g1)
            | inr k ↦ elim (Bool-cases r2.0) [
              | inl l ↦ rw (e, f, k, l) (grown r2.1 g2)
              | inr l ↦ rw (e, f, k, l) g2
            ]
          ]
        ]
      ]

  pub insert_range-IsGood :
      (cl : ℕ) (objects : List Ptr) (n : ℕ) (s : Store S)
      → length objects ≡ n
      → IsGood s
      → IsGood (insert_range t cl objects n s)
  unfolding insert_range
  insert_range-IsGood cl objects n s count g =
      let r = make_cache_space t cl s in
      let h = make_cache_space-IsGood cl s g in
      elim (Bool-cases (n == moves t cl)) [
        | inl e ↦ elim (Bool-cases r.0) [
          | inl f ↦
              rw (e, f)
                (at-IsGood cl (cache_of r.1 cl) (objects ∷ (r.1.central cl).slots) r.1 h
                  (ground arith, h cl))
          | inr f ↦
              rw (e, f)
                (SameSlots-IsGood r.1 (release_list_to_spans t cl objects r.1)
                  (release_list_to_spans-SameSlots t cl objects r.1) h)
        ]
        | inr e ↦ rw e (
            SameSlots-IsGood s (release_list_to_spans t cl objects s)
              (release_list_to_spans-SameSlots t cl objects s) g)
      ]

  fetch_more-length :
      (left cl : ℕ) (head : List Ptr) (s : Store S)
      → length (fetch_more left cl head s).0 ≤ left + length head
  unfolding fetch_more
  fetch_more-length zero cl head s = omega arith
  fetch_more-length (suc left) cl head s =
      let r = fetch_from_spans cl s in
      elim (Option-cases r.0) [
        | inl e ↦ rw (e, fetch_more) (omega arith)
        | inr (p, e) ↦ rw (e, fetch_more) (omega (arith, fetch_more-length left cl (p ∷ head) r.1))
      ]

  remove_objects-length :
      (cl num : ℕ) (s : Store S) → 0 < num → length (remove_objects t cl num s).0 ≤ num
  unfolding remove_objects
  remove_objects-length cl num s pos =
      let r = fetch_from_spans_safe t cl s in
      elim (Option-cases r.0) [
        | inl e ↦ rw (e, remove_objects) (omega arith)
        | inr (p, e) ↦
            rw (e, remove_objects) (omega (arith, fetch_more-length (num - 1) cl (p ∷ []) r.1))
      ]

  -- RemoveRange of a positive number of objects, with full batches in all slots, leaves full
  -- batches in all slots; what it stores in *N is the number of the objects that it answers, and
  -- at most the number that it was asked for.
  pub remove_range-IsGood :
      (cl num : ℕ) (s : Store S)
      → 0 < num
      → IsGood s
      → IsGood (remove_range t cl num s).2
        × (length (remove_range t cl num s).0 ≡ (remove_range t cl num s).1)
        × ((remove_range t cl num s).1 ≤ num)
  unfolding remove_range
  remove_range-IsGood cl num s pos g =
      let r = remove_objects t cl num s in
      let h = SameSlots-IsGood s r.1 (remove_objects-SameSlots t cl num s) g in
      let few = remove_objects-length cl num s pos in
      elim (Bool-cases (num == moves t cl)) [
        | inl e ↦ elim (List-cases (s.central cl).slots) [
          | inl f ↦ rw (e, f, remove_range) (h, refl, few)
          | inr (batch, slots, f) ↦
              let full : AreFull (moves t cl) (batch ∷ slots) =
                subst (AreFull (moves t cl)) f (g cl) in
              rw (e, f, remove_range)
                (at-IsGood cl (cache_of s cl) slots s g full.1, ground (arith, full.0), omega arith)
        ]
        | inr e ↦ rw e (h, refl, few)
      ]
