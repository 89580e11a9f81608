-- ===== src/PageMap/Three.antt =====
-- TCMalloc_PageMap3 of src/pagemap.hpp. A null pointer is `none`, so a node read through one is
-- a fault; `k & (2^n - 1)` is `k % 2 ^ n`. The nodes are fresh memory, so no two are shared, and
-- an index of an array is not checked: `ASSERT(k >> BITS == 0)` bounds it.
pub mod Get
pub mod Ensure
mod Tests
use ferp.Common.{
  ℕ, zero, suc, ◌+◌, ◌-◌, ◌*◌, ◌/◌, ◌%◌, ◌^◌, Bool, true, false, Option, none, some, ltb, leb, ◌==◌,
  if◌then◌else◌, update,
}
use ferp.Common.Bits.{u64_mod, shr, shl}

-- `INTERIOR_BITS` and `LEAF_BITS` for a number of bits.
pub record Widths : Type 0 where
  pub interior : ℕ
  pub leaf : ℕ

abbrev pub bits : Widths → ℕ
bits w = 2 * w.interior + w.leaf

pub widths_of : ℕ → Widths
widths_of bits = record { interior = (bits + 2) / 3; leaf = bits - 2 * ((bits + 2) / 3) }

abbrev pub Leaf : Type 0
Leaf = ℕ → ℕ

abbrev pub Node : Type 0
Node = ℕ → Option Leaf

abbrev pub Root : Type 0
Root = ℕ → Option Node

-- `root_` is null if the constructor found no memory.
abbrev pub PageMap3 : Type 0
PageMap3 = Option Root

module _ (w : Widths) where
  abbrev pub index1 : ℕ → ℕ
  index1 k = shr k (w.leaf + w.interior)

  abbrev pub index2 : ℕ → ℕ
  index2 k = shr k w.leaf % 2 ^ w.interior

  abbrev pub index3 : ℕ → ℕ
  index3 k = k % 2 ^ w.leaf

  pub find_leaf : Root → ℕ → Option Leaf
  find_leaf r k = elim (r (index1 k)) [ none ↦ none | some n ↦ n (index2 k) ]

  -- `none` is the failed assertion or a null pointer.
  pub get : PageMap3 → ℕ → Option ℕ
  get none k = none
  get (some r) k =
      if shr k (bits w) == 0
      then elim (find_leaf r k) [ none ↦ none | some l ↦ some (l (index3 k)) ]
      else none

  -- root_->ptrs[i1]->ptrs[i2] = l
  pub put_leaf : Root → ℕ → Leaf → Root
  put_leaf r k l = elim (r (index1 k)) [
    | none ↦ r
    | some n ↦ update r (index1 k) (some (update n (index2 k) (some l)))
  ]

  pub set : PageMap3 → ℕ → ℕ → Option PageMap3
  set none k v = none
  set (some r) k v =
      if shr k (bits w) == 0
      then elim (find_leaf r k) [
        | none ↦ none
        | some l ↦ some (some (put_leaf r k (update l (index3 k) v)))
      ]
      else none

  -- The key that follows in the loop of Ensure.
  pub next_key : ℕ → ℕ
  next_key key = shl (shr key w.leaf + 1) w.leaf

pub data Outcome (S : Type 0) : Type 0 where
  done : Bool → Root → S → Outcome S
  fault : Outcome S
  out_of_fuel : Outcome S

abbrev pub zeroed_node : Node
zeroed_node i = none

abbrev pub zeroed_leaf : Leaf
zeroed_leaf i = 0

-- The allocator is a function pointer: whether it has memory, and its state after the call.
module _ {S : Type 0} (alloc : S → Bool × S) where
  -- The constructor.
  pub new : S → PageMap3 × S
  new s = let (ok, s') = alloc s in (if ok then some (λ _. none) else none, s')

  module _ (w : Widths) where
    -- `if (root_->ptrs[i1] == NULL) …`
    pub ensure_node : Root → ℕ → S → Bool × Root × S
    ensure_node r key s = elim (r (index1 w key)) [
      | some n ↦ (true, r, s)
      | none ↦
          let (ok, s') = alloc s in
          if ok then (true, update r (index1 w key) (some zeroed_node), s') else (false, r, s')
    ]

    -- `if (root_->ptrs[i1]->ptrs[i2] == NULL) …`
    pub ensure_leaf : Root → ℕ → S → Bool × Root × S
    ensure_leaf r key s = elim (find_leaf w r key) [
      | some l ↦ (true, r, s)
      | none ↦
          let (ok, s') = alloc s in
          if ok then (true, put_leaf w r key zeroed_leaf, s') else (false, r, s')
    ]

    pub ensure_key : Root → ℕ → S → Bool × Root × S
    ensure_key r key s =
        let (ok, r', s') = ensure_node r key s in
        if ok then ensure_leaf r' key s' else (false, r', s')

    pub ensure_loop : ℕ → Root → ℕ → ℕ → S → Outcome S
    ensure_loop zero r key last s = out_of_fuel
    ensure_loop (suc fuel) r key last s = elim (leb key last) [
      | false ↦ done true r s
      | true ↦
          let (ok, r', s') = ensure_key r key s in
          elim ok [ true ↦ ensure_loop fuel r' (next_key w key) last s' | false ↦ done false r' s' ]
    ]

    -- `start + n - 1` on a 64-bit word; as many rounds as there are leaves up to it, and two.
    pub ensure : PageMap3 → ℕ → ℕ → S → Outcome S
    ensure none start n s = fault
    ensure (some r) start n s =
        let last = (start + n + u64_mod - 1) % u64_mod in
        ensure_loop (shr last w.leaf + 2) r start last s
