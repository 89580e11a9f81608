-- ===== src/PageMap/Three/Get.antt =====
-- TCMalloc_PageMap3::get and set of src/pagemap.hpp: the tree is a map from keys to values.
use native.Mathlib.Nat.{div-div-eq-div-mul, div-add-mod'}
use ferp.Common.{
  ℕ, ◌/◌, ◌%◌, ◌^◌, ◌≡◌, refl, sym, ◌∙◌, none, some, ◌==◌, if◌then◌else◌, update, arith, Bool-cases,
  Option-cases, inl, inr,
}
use ferp.Common.Bits.{shr, pow-add}
use ferp.PageMap.Three.{
  Widths, Leaf, Node, Root, PageMap3, index1, index2, index3, find_leaf, get, put_leaf, set, bits,
}

-- A number from its quotient and its remainder.
pub eq_of_div_mod : (a b d : ℕ) → a / d ≡ b / d → a % d ≡ b % d → a ≡ b
eq_of_div_mod a b d p q = sym (div-add-mod' a d) ∙ rw (p, q) (div-add-mod' b d)

module _ (w : Widths) where
  pub index1-block : (k : ℕ) → index1 w k ≡ shr k w.leaf / 2 ^ w.interior
  index1-block k =
      rw (pow-add 2 w.leaf w.interior) (sym (div-div-eq-div-mul k (2 ^ w.leaf) (2 ^ w.interior)))

  -- The first two indices tell the leaves apart.
  pub eq-block :
      (j k : ℕ) → index1 w j ≡ index1 w k → index2 w j ≡ index2 w k → shr j w.leaf ≡ shr k w.leaf
  eq-block j k p q =
      eq_of_div_mod _ _ (2 ^ w.interior) (sym (index1-block j) ∙ p ∙ index1-block k) q

  -- The three indices tell the keys apart.
  eq_of_indices :
      (j k : ℕ)
      → index1 w j ≡ index1 w k
      → index2 w j ≡ index2 w k
      → index3 w j ≡ index3 w k
      → j ≡ k
  eq_of_indices j k p q r = eq_of_div_mod j k (2 ^ w.leaf) (eq-block j k p q) r

  pub find_leaf-put_leaf :
      (r : Root) (k j : ℕ) (l : Leaf) (n : Node)
      → r (index1 w k) ≡ some n
      → find_leaf w (put_leaf w r k l) j
        ≡ (if shr j w.leaf == shr k w.leaf then some l else find_leaf w r j)
  unfolding find_leaf put_leaf
  find_leaf-put_leaf r k j l n h = ground (arith, eq-block j k, index1-block j, index1-block k)

  find_leaf-node :
      (r : Root) (k : ℕ) (l : Leaf)
      → find_leaf w r k ≡ some l
      → (n : Node) × (r (index1 w k) ≡ some n)
  unfolding find_leaf
  find_leaf-node r k l h = elim (Option-cases (r (index1 w k))) [
    | inl e ↦ ground arith
    | inr node ↦ node
  ]

  pub find_leaf-block :
      (r : Root) (j k : ℕ) → shr j w.leaf ≡ shr k w.leaf → find_leaf w r j ≡ find_leaf w r k
  unfolding find_leaf
  find_leaf-block r j k e = ground (arith, index1-block j, index1-block k)

  get_null : (k : ℕ) → get w none k ≡ none
  unfolding get
  get_null k = refl

  get-eq-some :
      (r : Root) (k u : ℕ)
      → get w (some r) k ≡ some u
      → (l : Leaf) × (shr k (bits w) ≡ 0) × (find_leaf w r k ≡ some l)
  unfolding get
  get-eq-some r k u h = elim (Option-cases (find_leaf w r k)) [
    | inl e ↦ absurd (ground arith)
    | inr (l, e) ↦ (l, ground arith, e)
  ]

  get-put_leaf :
      (r : Root) (k j v : ℕ) (l : Leaf)
      → shr k (bits w) ≡ 0
      → find_leaf w r k ≡ some l
      → get w (some (put_leaf w r k (update l (index3 w k) v))) j
        ≡ (if j == k then some v else get w (some r) j)
  unfolding get
  get-put_leaf r k j v l low h =
      let (n, node) = find_leaf-node r k l h in
      rw (find_leaf-put_leaf r k j (update l (index3 w k) v) n node)
        (elim (Bool-cases (shr j w.leaf == shr k w.leaf)) [
          | inl same ↦
              rw same (ground (arith, find_leaf-block r j k, eq_of_div_mod j k (2 ^ w.leaf)))
          | inr other ↦ rw other (ground arith)
        ])

  -- Where `get` reads a value, `set` succeeds; then `get` reads the new value at that key, and at
  -- every other key what it read before.
  pub get-set :
      (m : PageMap3) (k j u v : ℕ)
      → get w m k ≡ some u
      → (m' : PageMap3) × (set w m k v ≡ some m')
        × (get w m' j ≡ (if j == k then some v else get w m j))
  unfolding set
  get-set none k j u v h = absurd (none-ne-some h)
    where
      none-ne-some : get w none k ≡ some u → ⊥
      none-ne-some e = ground (arith, get_null k)
  get-set (some r) k j u v h =
      let (l, low, leaf) = get-eq-some r k u h in
      (
        some (put_leaf w r k (update l (index3 w k) v)),
        rw (low, leaf, set) refl,
        get-put_leaf r k j v l low leaf,
      )
