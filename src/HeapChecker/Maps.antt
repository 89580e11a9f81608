-- ===== src/HeapChecker/Maps.antt =====
-- The ordered maps of src/heapcheck.cpp, as lists of their entries in the order of the keys.
use ferp.Common.{ℕ, ◌≡◌, Option, none, some, List, [], ◌∷◌, ltb, leb, ◌==◌, if◌then◌else◌, arith}

module _ {V : Type 0} where
  unfoldable pub lookup : List (ℕ × V) → ℕ → Option V
  lookup [] key = none
  lookup ((k, v) ∷ es) key = if k == key then some v else lookup es key

  -- A key that is there keeps its value.
  unfoldable pub insert : List (ℕ × V) → ℕ → V → List (ℕ × V)
  insert [] key v = (key, v) ∷ []
  insert ((k, w) ∷ es) key v =
      let rest = insert es key v in
      if ltb key k then (key, v) ∷ (k, w) ∷ es else if k == key then (k, w) ∷ es else (k, w) ∷ rest

  pub erase : List (ℕ × V) → ℕ → List (ℕ × V)
  erase [] key = []
  erase ((k, v) ∷ es) key = let rest = erase es key in if k == key then es else (k, v) ∷ rest

  -- The first entry whose key is not below, or is above, a key.
  pub lower_bound : List (ℕ × V) → ℕ → Option (ℕ × V)
  lower_bound [] key = none
  lower_bound ((k, v) ∷ es) key = if leb key k then some (k, v) else lower_bound es key

  pub upper_bound : List (ℕ × V) → ℕ → Option (ℕ × V)
  upper_bound [] key = none
  upper_bound ((k, v) ∷ es) key = if ltb key k then some (k, v) else upper_bound es key

  -- What is erased right after it was inserted leaves the map as it was.
  pub erase-insert :
      (es : List (ℕ × V)) (key : ℕ) (v : V)
      → lookup es key ≡ none
      → erase (insert es key v) key ≡ es
  unfolding lookup insert erase
  erase-insert [] key v h = ground arith
  erase-insert ((k, w) ∷ es) key v h = ground (arith, h, erase-insert es key v)

  pub lookup-insert :
      (es : List (ℕ × V)) (key : ℕ) (v : V)
      → lookup es key ≡ none
      → lookup (insert es key v) key ≡ some v
  unfolding lookup insert
  lookup-insert [] key v h = ground arith
  lookup-insert ((k, w) ∷ es) key v h = ground (arith, h, lookup-insert es key v)
