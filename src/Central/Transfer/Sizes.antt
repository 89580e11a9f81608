-- ===== src/Central/Transfer/Sizes.antt =====
-- The sizes of the transfer caches in src/tcmalloc.cpp: what one class gains another loses.
use ferp.Common.{
  ℕ, ◌+◌, ◌-◌, ◌≤◌, ◌<◌, ◌≡◌, ◌≢◌, ◌∙◌, refl, Bool, true, List, [], ◌∷◌, ◌==◌, if◌then◌else◌, arith,
  Bool-cases, inl, inr,
}
use ferp.SizeClass.{Tables}
use ferp.Common.Bits.{shr}
use ferp.PageHeap.{Ptr, page_shift}
use ferp.Central.{
  PageSource, Store, used_slots, at, release_object, release_to_spans, release_list_to_spans,
  count_back, return_span, unlink_span, to_nonempty,
}
use ferp.Central.Transfer.{drop_slot, shrink_cache}

module _ {S : PageSource} where
  -- The slots and the cache size of every class are the same.
  abbrev pub SameSlots : Store S → Store S → Type 0
  SameSlots s s' =
      (j : ℕ)
      → ((s'.central j).slots ≡ (s.central j).slots)
        × ((s'.central j).cache_size ≡ (s.central j).cache_size)

  count_back-SameSlots : (cl : ℕ) (span : Ptr) (s : Store S) → SameSlots s (count_back cl span s)
  unfolding count_back to_nonempty
  count_back-SameSlots cl span s = λ j. ground arith

  abbrev pub cache_of : Store S → ℕ → ℕ
  cache_of s j = (s.central j).cache_size

  abbrev pub slots_of : Store S → ℕ → ℕ
  slots_of s j = used_slots (s.central j)

  -- What a try to take a slot from a class leaves.
  abbrev pub Shrunk : ℕ → Store S → Bool × Store S → Type 0
  Shrunk cl s (taken, s') =
      ((j : ℕ) → j ≢ cl → (slots_of s' j ≡ slots_of s j) × (cache_of s' j ≡ cache_of s j))
      × (cache_of s' cl + (if taken then 1 else 0) ≡ cache_of s cl)
      × (slots_of s cl ≤ cache_of s cl → slots_of s' cl ≤ cache_of s' cl)

module _ (t : Tables) {S : PageSource} where
  return_span-SameSlots :
      (cl : ℕ) (span : Ptr) (s : Store S) → SameSlots s (return_span t cl span s)
  unfolding return_span unlink_span
  return_span-SameSlots cl span s = λ j. ground arith

  release_to_spans-SameSlots :
      (cl : ℕ) (object : Ptr) (s : Store S) → SameSlots s (release_to_spans t cl object s)
  unfolding release_to_spans release_object
  release_to_spans-SameSlots cl object s = λ j.
      let span = S.get_descriptor s.heap (shr object page_shift) in
      ground (
        arith,
        count_back-SameSlots cl span s j,
        return_span-SameSlots cl span (count_back cl span s) j,
      )

  pub release_list_to_spans-SameSlots :
      (cl : ℕ) (objects : List Ptr) (s : Store S)
      → SameSlots s (release_list_to_spans t cl objects s)
  unfolding release_list_to_spans
  release_list_to_spans-SameSlots cl [] s = λ j. (refl, refl)
  release_list_to_spans-SameSlots cl (x ∷ xs) s = λ j.
      let (a, b) = release_list_to_spans-SameSlots cl xs (release_to_spans t cl x s) j in
      let (c, d) = release_to_spans-SameSlots cl x s j in (a ∙ c, b ∙ d)

  drop_slot-Shrunk :
      (cl : ℕ) (slots : List (List Ptr)) (s : Store S)
      → (s.central cl).slots ≡ slots
      → 0 < cache_of s cl
      → slots_of s cl ≡ cache_of s cl
      → Shrunk cl s (true, drop_slot t cl slots s)
  unfolding drop_slot
  drop_slot-Shrunk cl [] s e p q = absurd (ground (arith, e))
  drop_slot-Shrunk cl (batch ∷ slots) s e p q =
      let s1 = at cl s λ c. record c { cache_size = c.cache_size - 1; slots = slots } in
      (
        λ j n. ground (arith, release_list_to_spans-SameSlots cl batch s1 j),
        ground (arith, release_list_to_spans-SameSlots cl batch s1 cl),
        λ h. ground (arith, release_list_to_spans-SameSlots cl batch s1 cl, e),
      )

  pub shrink_cache-Shrunk :
      (cl : ℕ) (force : Bool) (s : Store S) → Shrunk cl s (shrink_cache t cl force s)
  unfolding shrink_cache
  shrink_cache-Shrunk cl force s = elim (Bool-cases (cache_of s cl == 0)) [
    | inl e ↦ rw e (λ j n. (refl, refl), omega arith, λ h. h)
    | inr e ↦ elim (Bool-cases (slots_of s cl == cache_of s cl)) [
      | inl f ↦ elim (Bool-cases force) [
        | inl g ↦
            rw (e, f, g)
              (drop_slot-Shrunk cl (s.central cl).slots s refl (ground arith) (ground arith))
        | inr g ↦ rw (e, f, g) (λ j n. (refl, refl), omega arith, λ h. h)
      ]
      | inr f ↦ rw (e, f) (λ j n. ground arith, ground arith, λ h. ground arith)
    ]
  ]
