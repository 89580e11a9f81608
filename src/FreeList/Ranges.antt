-- ===== src/FreeList/Ranges.antt =====
-- Several objects at a time: SLL_PopRange, SLL_PushRange and the calls of them in
-- TCMalloc_ThreadCache_FreeList, in src/tcmalloc.cpp.
use Prim.Native.Nat.{min}
use ferp.Common.{
  suc, ◌+◌, ◌-◌, ◌%◌, ◌<◌, ◌≡◌, ◌∙◌, ◌≢◌, refl, false, some, List, [], ◌∷◌, ◌++◌, arith, ◌==◌,
  update, update_self, length, length-append,
}
use ferp.Common.Bits.{u16_mod}
use ferp.FreeList.{
  Ptr, null, Memory, FreeList, bind-some, walk, sll_next, sll_set_next, sll_pop_range,
  sll_push_range, pop_range, push_range,
}
use ferp.FreeList.Chain.{
  Chain, Distinct, IsList, Chain-update, Chain-split, Chain-join, Distinct-split, sll_next_lem,
  sll_set_next_lem,
}
use ferp.FreeList.Links.{Holds, lower-min}

walk-Chain :
    (m : Memory) (p : Ptr) (xs : List Ptr) (y : Ptr)
    → Chain m p xs y
    → walk (length xs) p m ≡ some (y, m)
unfolding walk
walk-Chain m p [] y e = rw e
walk-Chain m p (x ∷ xs) y (e, ne, c) =
    rw e (bind-some (sll_next x) _ (sll_next_lem m x ne) ∙ walk-Chain m (m x) xs y c)

sll_pop_range_lem :
    (m : Memory) (p : Ptr) (xs : List Ptr) (y : Ptr)
    → Chain m p xs y
    → y ≢ null
    → sll_pop_range p (suc (length xs)) m
      ≡ some (record { head = m y; start = p; last = y }, update m y null)
unfolding sll_pop_range
sll_pop_range_lem m p xs y c ne =
    bind-some (walk (length xs) p) _ (walk-Chain m p xs y c)
    ∙ bind-some (sll_next y) _ (sll_next_lem m y ne)
    ∙ bind-some (sll_set_next y null) _ (sll_set_next_lem m y null ne)

-- `PopRange` cuts a list of `xs`, `y` and `ys` behind `y`: it hands over `xs` and `y` as a list
-- that ends in null, keeps `ys`, and writes the link of `y` only.
pub pop_range-Holds :
    (m : Memory) (l : FreeList) (xs ys : List Ptr) (y : Ptr)
    → Holds m l (xs ++ y ∷ ys)
    → let m' = update m y null in
      (l' : FreeList) × (pop_range l (suc (length xs)) m
        ≡ some ((l', record { head = m y; start = l.list; last = y }), m'))
      × Holds m' l' ys
      × IsList m' l.list (xs ++ y ∷ [])
      × (l'.lowater ≡ min l.lowater (length ys))
unfolding pop_range
pop_range-Holds m l xs ys y h =
    let (front, ne, rest) = Chain-split m l.list xs ys y null h.chain in
    let (before, after, d, d') = Distinct-split xs ys y h.distinct in
    let n = suc (length xs) in
    let total = length-append xs (y ∷ ys) in
    let left : (l.length + u16_mod - n % u16_mod) % u16_mod ≡ length ys =
      omega (arith, h.count, h.bounded, total) in
    (
      record { list = m y; length = length ys; lowater = min l.lowater (length ys) },
      bind-some (sll_pop_range l.list n) _ (sll_pop_range_lem m l.list xs y front ne)
          ∙ rw (lower-min, left) refl,
      record {
        chain = Chain-update m (m y) ys null y null after rest;
        distinct = d;
        count = refl;
        bounded = omega (arith, h.bounded, total);
        low = omega arith;
      },
      (
        Chain-join (update m y null) l.list xs [] y null
            (Chain-update m l.list xs y y null before front) ne (update_self m y null),
        d',
      ),
      refl,
    )

-- `PopRange(0)` takes nothing and writes nothing.
pub pop_range-zero :
    (m : Memory) (l : FreeList) (xs : List Ptr)
    → Holds m l xs
    → pop_range l 0 m ≡ some ((l, record { head = l.list; start = null; last = null }), m)
unfolding pop_range sll_pop_range
pop_range-zero m l xs h =
    let same : (l.length + u16_mod - 0 % u16_mod) % u16_mod ≡ l.length =
      omega (arith, h.count, h.bounded) in
    rw (lower-min, same) (ground (arith, h.low))

sll_push_range_lem :
    (m : Memory) (head start last : Ptr)
    → start ≢ null
    → last ≢ null
    → sll_push_range head start last m ≡ some (start, update m last head)
unfolding sll_push_range
sll_push_range_lem m head start last ns nl =
    let given : (start == null) ≡ false = ground arith in
    rw given (bind-some (sll_set_next last head) _ (sll_set_next_lem m last head nl))

-- `PushRange` links a list of `xs` and `y` in front of the objects `zs`, given that none of
-- them is in both, counts them, and writes the link of `y` only.
pub push_range-Holds :
    (m : Memory) (l : FreeList) (xs zs : List Ptr) (y start : Ptr)
    → Holds m l zs
    → IsList m start (xs ++ y ∷ [])
    → Distinct (xs ++ y ∷ zs)
    → length (xs ++ y ∷ zs) < u16_mod
    → let m' = update m y l.list in
      (l' : FreeList) × (push_range l (suc (length xs)) start y m ≡ some (l', m'))
      × Holds m' l' (xs ++ y ∷ zs)
      × (l'.lowater ≡ l.lowater)
unfolding push_range
push_range-Holds m l xs zs y start h (c, _) d room =
    let (front, ne, _) = Chain-split m start xs [] y null c in
    let (before, after, _, _) = Distinct-split xs zs y d in
    let total = length-append xs (y ∷ zs) in
    (
      record l { list = start; length = (l.length + suc (length xs)) % u16_mod },
      bind-some (sll_push_range l.list start y) _
          (sll_push_range_lem m l.list start y (start_ne xs front ne) ne),
      record {
        chain =
            Chain-join (update m y l.list) start xs zs y null
              (Chain-update m start xs y y l.list before front) ne
              (rw (update_self m y l.list) (Chain-update m l.list zs null y l.list after h.chain));
        distinct = d;
        count = omega (arith, h.count, total);
        bounded = room;
        low = omega (arith, h.low, h.count, total);
      },
      refl,
    )
  where
    start_ne : (xs : List Ptr) → Chain m start xs y → y ≢ null → start ≢ null
    start_ne [] e ne = rw e ne
    start_ne (x ∷ xs) (e, nx, _) ne = rw e nx
