-- ===== src/AddressMap/Chains.antt =====
-- One block's chain of entries, in src/addressmap.hpp.
use ferp.Common.{
  ℕ, suc, ◌≡◌, refl, ap, none, some, [], ◌∷◌, arith, ◌==◌, if◌then◌else◌, length, inl, inr,
  Bool-cases, Option-cases,
}
use ferp.AddressMap.{Chain, find_entry, assign_entry, unlink_entry}

module _ {V : Type 0} where
  -- No key stands in two entries.
  abbrev pub KeysDistinct : Chain V → Type 0
  KeysDistinct [] = Unit {0}
  KeysDistinct ((k, v) ∷ es) = (find_entry es k ≡ none) × KeysDistinct es

  pub find_entry-assign_entry :
      (es es' : Chain V) (key j : ℕ) (value : V)
      → assign_entry es key value ≡ some es'
      → (find_entry es' j ≡ (if j == key then some value else find_entry es j))
        × (length es' ≡ length es)
        × (KeysDistinct es → KeysDistinct es')
  unfolding find_entry assign_entry
  find_entry-assign_entry [] es' key j value h = cc
  find_entry-assign_entry ((k, v) ∷ es) es' key j value h = elim (Bool-cases (k == key)) [
    | inl here ↦
        let same : (k, value) ∷ es ≡ es' = ground arith in rw (← same) (ground arith, refl, λ d. d)
    | inr there ↦ elim (Option-cases (assign_entry es key value)) [
      | inl e ↦ absurd (ground arith)
      | inr (rest, e) ↦
          let same : (k, v) ∷ rest ≡ es' = ground arith in
          let (found, len, distinct) = find_entry-assign_entry es rest key j value e in
          let (found_k, _, _) = find_entry-assign_entry es rest key k value e in
          rw (← same) (ground arith, ap suc len, λ d. (ground arith, distinct d.1))
    ]
  ]

  pub assign_entry-none :
      (es : Chain V) (key : ℕ) (value : V)
      → assign_entry es key value ≡ none
      → find_entry es key ≡ none
  unfolding find_entry assign_entry
  assign_entry-none [] key value h = refl
  assign_entry-none ((k, v) ∷ es) key value h = ground (arith, assign_entry-none es key value)

  pub unlink_entry-none :
      (es : Chain V) (key : ℕ) → unlink_entry es key ≡ none → find_entry es key ≡ none
  unfolding find_entry unlink_entry
  unlink_entry-none [] key h = refl
  unlink_entry-none ((k, v) ∷ es) key h = ground (arith, unlink_entry-none es key)

  pub unlink_entry-some :
      (es es' : Chain V) (key j : ℕ) (v : V)
      → KeysDistinct es
      → unlink_entry es key ≡ some (v, es')
      → (find_entry es key ≡ some v)
        × (find_entry es' j ≡ (if j == key then none else find_entry es j))
        × (length es ≡ suc (length es'))
        × KeysDistinct es'
  unfolding find_entry unlink_entry
  unlink_entry-some [] es' key j v d h = cc
  unlink_entry-some ((k, w) ∷ es) es' key j v d h = elim (Bool-cases (k == key)) [
    | inl here ↦
        let same : es ≡ es' = ground arith in rw (← same) (ground arith, ground arith, refl, d.1)
    | inr there ↦ elim (Option-cases (unlink_entry es key)) [
      | inl e ↦ absurd (ground arith)
      | inr ((w', rest), e) ↦
          let same : (k, w) ∷ rest ≡ es' = ground arith in
          let (was, found, len, distinct) = unlink_entry-some es rest key j w' d.1 e in
          let (_, found_k, _, _) = unlink_entry-some es rest key k w' d.1 e in
          rw (← same) (ground arith, ground arith, ap suc len, (ground arith, distinct))
    ]
  ]
