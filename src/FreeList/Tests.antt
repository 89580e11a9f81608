-- ===== src/FreeList/Tests.antt =====
-- The theorems on free lists at a list of three objects: 8, 16 and 24.
use Prim.Native.Nat.{min}
use ferp.Common.{◌≡◌, refl, some, [], ◌∷◌, arith, update}
use ferp.FreeList.{null, Memory, FreeList, pop_range}
use ferp.FreeList.Chain.{IsList}
use ferp.FreeList.Links.{Holds}
use ferp.FreeList.Ranges.{pop_range-Holds}

abbrev memory : Memory
memory = update (update (update (λ a. null) 8 16) 16 24) 40 48

abbrev three : FreeList
three = record { list = 8; length = 3; lowater = 1 }

three-Holds : Holds memory three (8 ∷ 16 ∷ 24 ∷ [])
three-Holds = record {
  chain = (refl, omega arith, (refl, omega arith, (refl, omega arith, refl)));
  distinct = (refl, (refl, (refl, tt)));
  count = refl;
  bounded = omega arith;
  low = omega arith;
}

pop_range-Holds_example :
    let m' = update memory 16 null in
    (l' : FreeList) × (pop_range three 2 memory
      ≡ some ((l', record { head = 24; start = 8; last = 16 }), m'))
    × Holds m' l' (24 ∷ [])
    × IsList m' 8 (8 ∷ 16 ∷ [])
    × (l'.lowater ≡ min 1 1)
pop_range-Holds_example = pop_range-Holds memory three (8 ∷ []) (24 ∷ []) 16 three-Holds

two-IsList : IsList memory 40 (40 ∷ 48 ∷ [])
two-IsList = ((refl, omega arith, (refl, omega arith, refl)), (refl, (refl, tt)))
