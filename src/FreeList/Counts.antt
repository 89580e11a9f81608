-- ===== src/FreeList/Counts.antt =====
-- SLL_Size of src/tcmalloc.cpp.
use ferp.Common.{
  ℕ, zero, suc, ◌+◌, ◌<◌, ◌≡◌, ◌∙◌, subst, sym, false, some, List, [], ◌∷◌, arith, ◌==◌, length,
}
use ferp.FreeList.{Ptr, null, Memory, bind-some, sll_next, size_loop, sll_size}
use ferp.FreeList.Chain.{Chain, sll_next_lem}

size_loop-length :
    (fuel : ℕ) (m : Memory) (p : Ptr) (xs : List Ptr) (count : ℕ)
    → Chain m p xs null
    → length xs < fuel
    → size_loop fuel p count m ≡ some (count + length xs, m)
unfolding size_loop
size_loop-length zero m p xs count c h = absurd (omega arith)
size_loop-length (suc fuel) m p [] count e h = rw e (ground arith)
size_loop-length (suc fuel) m p (x ∷ xs) count (e, ne, c) h =
    let more : (x == null) ≡ false = ground arith in
    let sum : count + suc (length xs) ≡ count + 1 + length xs = omega arith in
    subst (λ q. size_loop (suc fuel) q count m ≡ some (count + suc (length xs), m)) (sym e)
      (rw (more, size_loop, sum)
        (bind-some (sll_next x) _ (sll_next_lem m x ne)
          ∙ size_loop-length fuel m (m x) xs (count + 1) c (omega arith)))

-- On a list that ends in null, SLL_Size returns the number of objects, within one round more
-- than there are objects.
pub sll_size-length :
    (fuel : ℕ) (m : Memory) (p : Ptr) (xs : List Ptr)
    → Chain m p xs null
    → length xs < fuel
    → sll_size fuel p m ≡ some (length xs, m)
unfolding sll_size
sll_size-length fuel m p xs c h = size_loop-length fuel m p xs 0 c h ∙ ground arith
