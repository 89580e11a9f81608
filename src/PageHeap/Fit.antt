-- ===== src/PageHeap/Fit.antt =====
-- The searches of TCMalloc_PageHeap::New in src/tcmalloc.cpp: the best fit among the large spans
-- and the first list of small spans that has one.
mod Tests
use ferp.Common.{
  ℕ, zero, suc, ◌+◌, ◌-◌, ◌≤◌, ◌<◌, ◌≡◌, ◌≢◌, ◌⊎◌, refl, Bool, true, false, ◌||◌, List, [], ◌∷◌,
  leb, ltb, ◌==◌, if◌then◌else◌, arith, List-cases, Bool-cases, inl, inr,
}
use ferp.PageHeap.{Ptr, null, Span, has, best_fit, first_fit, max_pages}

module _ (spans : Ptr → Span) (n : ℕ) where
  abbrev len : Ptr → ℕ
  len p = (spans p).length

  -- No span of the list is as long, and the answer is null; or the answer is a shortest one
  -- of those that are.
  abbrev pub Best : List Ptr → Ptr → Type 0
  Best ps r =
      ((r ≡ null) × ((q : Ptr) → has q ps ≡ true → len q < n))
      ⊎ ((has r ps ≡ true)
          × (n ≤ len r)
          × ((q : Ptr) → has q ps ≡ true → n ≤ len q → len r ≤ len q))

  best_fit-or :
      (ps : List Ptr) (best : Ptr)
      → (best_fit spans n ps best ≡ best)
        ⊎ ((has (best_fit spans n ps best) ps ≡ true) × (n ≤ len (best_fit spans n ps best)))
  unfolding best_fit
  best_fit-or [] best = inl refl
  best_fit-or (p ∷ ps) best = ground (arith, best_fit-or ps best, best_fit-or ps p)

  best_fit-le :
      (ps : List Ptr) (best : Ptr)
      → has null ps ≡ false
      → best ≢ null
      → (best_fit spans n ps best ≢ null) × (len (best_fit spans n ps best) ≤ len best)
  unfolding best_fit
  best_fit-le [] best h b = (b, omega arith)
  best_fit-le (p ∷ ps) best h b = ground (arith, best_fit-le ps best, best_fit-le ps p)

  best_fit-min :
      (ps : List Ptr) (best q : Ptr)
      → has null ps ≡ false
      → has q ps ≡ true
      → n ≤ len q
      → (best_fit spans n ps best ≢ null) × (len (best_fit spans n ps best) ≤ len q)
  unfolding best_fit
  best_fit-min [] best q h i l = absurd (ground arith)
  best_fit-min (p ∷ ps) best q h i l =
      ground
        (arith, best_fit-min ps best q, best_fit-min ps p q, best_fit-le ps best, best_fit-le ps p)

  -- The loop over the large spans, none of which is null, answers null if none has `n` pages,
  -- and else a span with at least `n` pages than which no span with `n` pages is shorter.
  pub best_fit-Best : (ps : List Ptr) → has null ps ≡ false → Best ps (best_fit spans n ps null)
  best_fit-Best ps h = elim (best_fit-or ps null) [
    | inl e ↦ inl (e, λ q i. ground (arith, best_fit-min ps null q))
    | inr (i, l) ↦ inr (i, l, λ q j m. (best_fit-min ps null q h j m).1)
  ]

-- The answer of the loop over the lists of small spans, for the lengths from `s` to `e - 1`: the
-- lists are empty and it is null, or it is the first span of the first list that is not empty.
abbrev pub First : (ℕ → List Ptr) → ℕ → ℕ → Ptr → Type 0
First free s e r =
    ((r ≡ null) × ((i : ℕ) → s ≤ i → i < e → free i ≡ []))
    ⊎ ((t : ℕ) × (s ≤ t)
        × (t < e)
        × (ps : List Ptr) × (free t ≡ r ∷ ps)
        × ((i : ℕ) → s ≤ i → i < t → free i ≡ []))

First-step :
    (free : ℕ → List Ptr) (s e r : ℕ) → free s ≡ [] → First free (s + 1) e r → First free s e r
First-step free s e r h (inl (z, all)) = inl (z, λ i p q. ground (arith, all i))
First-step free s e r h (inr (t, p, q, ps, eq, all)) =
    inr (t, omega arith, q, ps, eq, λ i u v. ground (arith, all i))

first_fit-range :
    (left : ℕ) (free : ℕ → List Ptr) (s e : ℕ)
    → e ≡ s + left
    → First free s e (first_fit left free s)
unfolding first_fit
first_fit-range zero free s e h = inl (refl, λ i p q. absurd (omega arith))
first_fit-range (suc left) free s e h = elim (List-cases (free s)) [
  | inl empty ↦
      rw (empty, first_fit)
        (First-step free s e _ empty (first_fit-range left free (s + 1) e (omega arith)))
  | inr (p, ps, found) ↦
      rw (found, first_fit)
        (inr (s, omega arith, omega arith, ps, found, λ i u v. absurd (omega arith)))
]

-- For `n` of at most 256 pages the loop over the lists of small spans answers null if the lists
-- of the lengths from `n` to 255 are empty, and else the first span of the first that is not.
pub first_fit-First :
    (free : ℕ → List Ptr) (n : ℕ)
    → n ≤ max_pages
    → First free n max_pages (first_fit (max_pages - n) free n)
first_fit-First free n h = first_fit-range (max_pages - n) free n max_pages (omega arith)
