-- ===== src/FreeList/Links.antt =====
-- One object at a time: TCMalloc_ThreadCache_FreeList::Push and Pop of src/tcmalloc.cpp.
use Prim.Native.Nat.{min}
use ferp.Common.{
  ◌+◌, ◌-◌, ◌%◌, ◌≤◌, ◌<◌, ◌≡◌, ◌∙◌, ◌≢◌, refl, false, some, List, ◌∷◌, arith, update, length,
}
use ferp.Common.Bits.{u16_mod}
use ferp.FreeList.{
  Ptr, null, Memory, FreeList, sll_push, sll_pop, sll_next, sll_set_next, bind-some, push, pop,
  lower,
}
use ferp.FreeList.Chain.{has, Chain, Distinct, Chain-push, sll_next_lem, sll_set_next_lem}

-- The free list `l` holds the objects `xs`, first to last.
pub record Holds (m : Memory) (l : FreeList) (xs : List Ptr) : Type 0 where
  pub chain : Chain m l.list xs null
  pub distinct : Distinct xs
  pub count : l.length ≡ length xs
  pub bounded : length xs < u16_mod
  pub low : l.lowater ≤ l.length

sll_push_lem :
    (m : Memory) (list ptr : Ptr) → ptr ≢ null → sll_push list ptr m ≡ some (ptr, update m ptr list)
unfolding sll_push
sll_push_lem m list ptr ne = bind-some (sll_set_next ptr list) _ (sll_set_next_lem m ptr list ne)

-- `Push` puts an object that is not in the list in front, counts it, and writes its link only.
pub push-Holds :
    (m : Memory) (l : FreeList) (xs : List Ptr) (ptr : Ptr)
    → Holds m l xs
    → ptr ≢ null
    → has ptr xs ≡ false
    → length xs + 1 < u16_mod
    → (l' : FreeList) × (push l ptr m ≡ some (l', update m ptr l.list))
      × Holds (update m ptr l.list) l' (ptr ∷ xs)
      × (l'.lowater ≡ l.lowater)
unfolding push
push-Holds m l xs ptr h ne out room = (
  record l { list = ptr; length = (l.length + 1) % u16_mod },
  bind-some (sll_push l.list ptr) _ (sll_push_lem m l.list ptr ne),
  record {
    chain = Chain-push m l.list ptr xs null ne out h.chain;
    distinct = (out, h.distinct);
    count = omega (arith, h.count);
    bounded = omega arith;
    low = omega (arith, h.count, h.low);
  },
  refl,
)

pub lower-min : (l : FreeList) → lower l ≡ record l { lowater = min l.lowater l.length }
unfolding lower
lower-min l = ground arith

sll_pop_lem :
    (m : Memory) (list x : Ptr) → list ≡ x → x ≢ null → sll_pop list m ≡ some ((m x, x), m)
unfolding sll_pop
sll_pop_lem m list x e ne = rw e (bind-some (sll_next x) _ (sll_next_lem m x ne))

-- `Pop` takes the first object, writes nothing, and lowers the low-water mark to the new length
-- if that is less.
pub pop-Holds :
    (m : Memory) (l : FreeList) (x : Ptr) (xs : List Ptr)
    → Holds m l (x ∷ xs)
    → (l' : FreeList) × (pop l m ≡ some ((l', x), m))
      × Holds m l' xs
      × (l'.lowater ≡ min l.lowater (length xs))
unfolding pop
pop-Holds m l x xs h =
    let one_less : (l.length + u16_mod - 1) % u16_mod ≡ length xs =
      omega (arith, h.count, h.bounded) in
    (
      record { list = m x; length = length xs; lowater = min l.lowater (length xs) },
      bind-some (sll_pop l.list) _ (sll_pop_lem m l.list x h.chain.0 h.chain.1)
          ∙ rw (lower-min, one_less) refl,
      record {
        chain = h.chain.2;
        distinct = h.distinct.1;
        count = refl;
        bounded = omega (arith, h.bounded);
        low = omega arith;
      },
      refl,
    )
