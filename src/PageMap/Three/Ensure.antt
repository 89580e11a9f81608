-- ===== src/PageMap/Three/Ensure.antt =====
-- TCMalloc_PageMap3::Ensure of src/pagemap.hpp: which leaves it makes, and that it ends.
use native.Mathlib.Nat.{
  div-lt_iff_lt-mul, mul-le-mul_right, pow-le-pow_right, mod-eq_of_lt, mul-div_cancel,
}
use ferp.Common.{
  ℕ, zero, suc, ◌+◌, ◌-◌, ◌*◌, ◌%◌, ◌^◌, ◌≤◌, ◌<◌, ◌≢◌, ◌≡◌, ◌⊎◌, refl, Bool, true, false, none,
  some, ltb, leb, if◌then◌else◌, update, arith, Bool-cases, Option-cases, inl, inr,
}
use ferp.Common.Bits.{shr, pow-add, pow_pos, div_bounds, div_mono, u64_mod}
use ferp.PageMap.Three.{
  Widths, Node, Root, index1, find_leaf, put_leaf, bits, ensure, ensure_key, ensure_node,
  ensure_leaf, ensure_loop, next_key, zeroed_leaf, zeroed_node, Outcome, done,
}
use ferp.PageMap.Three.Get.{find_leaf-put_leaf, find_leaf-block}

module _ (w : Widths) where
  -- `r'` has the leaves of `r` as they are, and maybe fresh ones.
  abbrev Extends : Root → Root → Type 0
  Extends r r' =
      (j : ℕ)
      → (find_leaf w r' j ≡ find_leaf w r j)
        ⊎ ((find_leaf w r j ≡ none) × (find_leaf w r' j ≡ some zeroed_leaf))

  Extends-trans : (r r' r'' : Root) → Extends r r' → Extends r' r'' → Extends r r''
  Extends-trans r r' r'' p q = λ j. ground (arith, p j, q j)

  kept : (r r' : Root) (k : ℕ) → Extends r r' → find_leaf w r k ≢ none → find_leaf w r' k ≢ none
  kept r r' k p h = ground (arith, p k)

  next_key-eq :
      (key : ℕ)
      → key < 2 ^ bits w
      → bits w < 64
      → next_key w key ≡ (shr key w.leaf + 1) * 2 ^ w.leaf
  unfolding next_key
  next_key-eq key h wide =
      let split = pow-add 2 (2 * w.interior) w.leaf in
      let below =
        (div-lt_iff_lt-mul {x = key} {y = 2 ^ (2 * w.interior)} (pow_pos w.leaf)).1
          (rw split at h) in
      let fits = mul-le-mul_right (2 ^ w.leaf) below in
      let small = pow-le-pow_right {n = 2} (omega arith) {i = bits w} {j = 63} (omega arith) in
      mod-eq_of_lt (omega (arith, fits, small, split))

  next_key-block :
      (key : ℕ) → key < 2 ^ bits w → bits w < 64 → shr (next_key w key) w.leaf ≡ shr key w.leaf + 1
  next_key-block key h wide = rw (next_key-eq key h wide) (mul-div_cancel _ (pow_pos w.leaf))

  -- The keys that the loop passes over stand in the block of `key`.
  same_block :
      (key k : ℕ)
      → key < 2 ^ bits w
      → bits w < 64
      → key ≤ k
      → k < next_key w key
      → shr k w.leaf ≡ shr key w.leaf
  same_block key k h wide p q = grind (
    arith,
    next_key-eq key h wide,
    div_bounds k (2 ^ w.leaf) (pow_pos w.leaf),
    div_bounds key (2 ^ w.leaf) (pow_pos w.leaf),
    pow_pos w.leaf,
  )

  same_block_missing :
      (r : Root) (j k : ℕ)
      → shr j w.leaf ≡ shr k w.leaf
      → find_leaf w r k ≢ none
      → find_leaf w r j ≢ none
  same_block_missing r j k e h = ground (arith, find_leaf-block w r j k)

module _ (w : Widths) {S : Type 0} (alloc : S → Bool × S) where
  -- A call that makes what `P` asks of, or stops because the allocator refused.
  data Makes (r : Root) (P : Root → Type 0) : Bool × Root × S → Type 0 where
    made : {r' : Root} {s' : S} → Extends w r r' → P r' → Makes r P (true, r', s')
    refused :
        {r' : Root} {s' : S} (s : S)
        → (alloc s).0 ≡ false
        → Extends w r r'
        → Makes r P (false, r', s')

  fresh_node :
      (r : Root) (key j : ℕ)
      → r (index1 w key) ≡ none
      → find_leaf w (update r (index1 w key) (some zeroed_node)) j ≡ find_leaf w r j
  unfolding find_leaf
  fresh_node r key j e = ground arith

  ensure_node-Makes :
      (r : Root) (key : ℕ) (s : S)
      → Makes r (λ r'. (n : Node) × (r' (index1 w key) ≡ some n)) (ensure_node alloc w r key s)
  unfolding ensure_node
  ensure_node-Makes r key s = elim (Option-cases (r (index1 w key))) [
    | inl e ↦ elim (Bool-cases (alloc s).0) [
      | inl ok ↦
          rw (e, ensure_node, ok)
            (made (λ j. inl (fresh_node r key j e)) (zeroed_node, ground arith))
      | inr fail ↦ rw (e, ensure_node, fail) (refused s fail (λ j. inl refl))
    ]
    | inr (n, e) ↦ rw (e, ensure_node) (made (λ j. inl refl) (n, e))
  ]

  put_zeroed :
      (r : Root) (key : ℕ) (n : Node)
      → r (index1 w key) ≡ some n
      → find_leaf w r key ≡ none
      → Extends w r (put_leaf w r key zeroed_leaf)
  put_zeroed r key n h e =
      λ j. ground (arith, find_leaf-put_leaf w r key j zeroed_leaf n, find_leaf-block w r j key)

  ensure_leaf-Makes :
      (r : Root) (key : ℕ) (s : S) (n : Node)
      → r (index1 w key) ≡ some n
      → Makes r (λ r'. find_leaf w r' key ≢ none) (ensure_leaf alloc w r key s)
  unfolding ensure_leaf
  ensure_leaf-Makes r key s n h = elim (Option-cases (find_leaf w r key)) [
    | inl e ↦ elim (Bool-cases (alloc s).0) [
      | inl ok ↦
          rw (e, ensure_leaf, ok)
            (made (put_zeroed r key n h e)
              (ground (arith, find_leaf-put_leaf w r key key zeroed_leaf n)))
      | inr fail ↦ rw (e, ensure_leaf, fail) (refused s fail (λ j. inl refl))
    ]
    | inr (l, e) ↦ rw (e, ensure_leaf) (made (λ j. inl refl) (ground arith))
  ]

  Makes-bind :
      {r : Root} {P Q : Root → Type 0} {t : Bool × Root × S} (k : Root → S → Bool × Root × S)
      → Makes r P t
      → ((r' : Root) (s' : S) → P r' → Makes r' Q (k r' s'))
      → Makes r Q (if t.0 then k t.1 t.2 else (false, t.1, t.2))
  Makes-bind k (refused s e x) next = refused s e x
  Makes-bind {r} {Q} k (made {r'} {s'} x p) next = weaken (next r' s' p)
    where
      weaken : {u : Bool × Root × S} → Makes r' Q u → Makes r Q u
      weaken (made {r' = r''} y q) = made (Extends-trans w r r' r'' x y) q
      weaken (refused {r' = r''} s e y) = refused s e (Extends-trans w r r' r'' x y)

  ensure_key-Makes :
      (r : Root) (key : ℕ) (s : S)
      → Makes r (λ r'. find_leaf w r' key ≢ none) (ensure_key alloc w r key s)
  unfolding ensure_key
  ensure_key-Makes r key s =
      Makes-bind (λ r' s'. ensure_leaf alloc w r' key s') (ensure_node-Makes r key s)
        λ r' s' (n, e). ensure_leaf-Makes r' key s' n e

  -- How a call for the keys from `key` to `last` ends.
  pub data Ensured (r : Root) (key last : ℕ) : Outcome S → Type 0 where
    ensured :
        {r' : Root} {s' : S}
        → Extends w r r'
        → ((k : ℕ) → key ≤ k → k ≤ last → find_leaf w r' k ≢ none)
        → Ensured r key last (done true r' s')
    out_of_memory :
        {r' : Root} {s' : S} (s : S)
        → (alloc s).0 ≡ false
        → Extends w r r'
        → Ensured r key last (done false r' s')

  Ensured-next :
      {r r' : Root} (key last : ℕ) {o : Outcome S}
      → key < 2 ^ bits w
      → bits w < 64
      → Extends w r r'
      → find_leaf w r' key ≢ none
      → Ensured r' (next_key w key) last o
      → Ensured r key last o
  Ensured-next {r} {r'} key last h wide x got (out_of_memory s e y) =
      out_of_memory s e (Extends-trans w r r' _ x y)
  Ensured-next {r} {r'} key last h wide x got (ensured {r' = r''} y all) =
      ensured (Extends-trans w r r' r'' x y) λ k p q. elim (Bool-cases (ltb k (next_key w key))) [
        | inl passed ↦
            same_block_missing w r'' k key (same_block w key k h wide p (ground arith))
              (kept w r' r'' key y got)
        | inr later ↦ all k (ground arith) q
      ]

  Ensured-step :
      {r : Root} (key last : ℕ) (t : Bool × Root × S) (rest : Root → S → Outcome S)
      → key < 2 ^ bits w
      → bits w < 64
      → Makes r (λ r'. find_leaf w r' key ≢ none) t
      → ((r' : Root) (s' : S) → Ensured r' (next_key w key) last (rest r' s'))
      → Ensured r key last (elim t.0 [ true ↦ rest t.1 t.2 | false ↦ done false t.1 t.2 ])
  Ensured-step key last t rest h wide (refused s e x) next = out_of_memory s e x
  Ensured-step key last t rest h wide (made {r'} {s'} x got) next =
      Ensured-next key last h wide x got (next r' s')

  ensure_loop-Ensured :
      (fuel : ℕ) (r : Root) (key last : ℕ) (s : S)
      → last < 2 ^ bits w
      → bits w < 64
      → shr key w.leaf ≤ shr last w.leaf + 1
      → shr last w.leaf + 1 < fuel + shr key w.leaf
      → Ensured r key last (ensure_loop alloc w fuel r key last s)
  unfolding ensure_loop
  ensure_loop-Ensured zero r key last s low wide h f = absurd (omega arith)
  ensure_loop-Ensured (suc fuel) r key last s low wide h f = elim (Bool-cases (leb key last)) [
    | inr after ↦ rw (after, ensure_loop) (ensured (λ j. inl refl) (λ k p q. absurd (ground arith)))
    | inl within ↦
        let le : key ≤ last = ground arith in
        let blocks : shr key w.leaf ≤ shr last w.leaf = div_mono key last _ (pow_pos w.leaf) le in
        let up = next_key-block w key (omega arith) wide in
        rw (within, ensure_loop)
          (Ensured-step key last (ensure_key alloc w r key s) _ (omega arith) wide
            (ensure_key-Makes r key s)
            λ r' s'.
              ensure_loop-Ensured fuel r' (next_key w key) last s' low wide (omega arith)
                (omega arith))
  ]

-- `Ensure(start, n)` on a tree with a root and a non-empty range of keys of at most `BITS` bits
-- ends within the rounds that the model gives it. It keeps every leaf that is there, a leaf that
-- it adds is zeroed, and it answers true exactly with a leaf for every key of the range: it
-- answers false only if the allocator had no memory.
pub ensure-Ensured :
    {S : Type 0} (alloc : S → Bool × S) (w : Widths) (r : Root) (start n : ℕ) (s : S)
    → bits w < 64
    → 0 < n
    → start + n ≤ 2 ^ bits w
    → Ensured w alloc r start (start + n - 1) (ensure alloc w (some r) start n s)
unfolding ensure
ensure-Ensured alloc w r start n s wide pos fits =
    let small = pow-le-pow_right {n = 2} (omega arith) {i = bits w} {j = 63} (omega arith) in
    let last : (start + n + u64_mod - 1) % u64_mod ≡ start + n - 1 = omega arith in
    rw last (
      ensure_loop-Ensured w alloc _ r start (start + n - 1) s (omega arith) wide
        (omega (arith, div_mono start (start + n - 1) _ (pow_pos w.leaf) (omega arith)))
        (omega arith))
