-- ===== src/SizeClass/Pages.antt =====
-- The spans and the batches that src/tcmalloc.cpp gives to the size classes, and the sizes
-- that it rounds up.
use native.Mathlib.Nat.{mul-le-mul_right}
use ferp.Common.{
  ℕ, ◌+◌, ◌-◌, ◌*◌, ◌/◌, ◌%◌, ◌≤◌, ◌<◌, ◌≡◌, refl, ◌⊎◌, inl, inr, arith, Bool, true, ◌&&◌, ◌||◌,
  ltb, leb, every_until, of-every_until, get_or,
}
use ferp.Common.Bits.{u64_mod, div_bounds}
use ferp.SizeClass.{
  Tables, size_class, byte_size_for_class, max_size, page_size, num_move_size, pages,
  allocation_size, size_tables,
}
use ferp.SizeClass.Classes.{size_class-Fits}

-- The checks of one class.
span_good : Tables → ℕ → Bool
span_good t cl =
    let s = byte_size_for_class t cl in
    let psize = get_or t.class_to_pages cl 0 * page_size in
    leb cl 0 || (leb s psize && leb (psize % s) (psize / 8))

spans_good : every_until (span_good size_tables) 169 ≡ true
unfolding size_tables every_until span_good byte_size_for_class
spans_good = refl

-- A span of a class in use holds at least one object, and what is left over at its end is at
-- most an eighth of it.
pub class_to_pages_waste :
    (cl : ℕ)
    → 0 < cl
    → cl ≤ 168
    → let psize = get_or size_tables.class_to_pages cl 0 * page_size in
      (byte_size_for_class size_tables cl ≤ psize)
      × (psize % byte_size_for_class size_tables cl ≤ psize / 8)
unfolding span_good
class_to_pages_waste cl p q =
    ground (arith, of-every_until (span_good size_tables) 169 cl (omega arith) spans_good)

num_move_size_cases :
    (size : ℕ)
    → 0 < size
    → (2 ≤ num_move_size size)
      × (num_move_size size ≤ 32)
      × ((num_move_size size ≡ 2) ⊎ (num_move_size size ≤ 65536 / size))
unfolding num_move_size
num_move_size_cases size h = ground arith

-- A batch moves two to 32 objects, and more than two only where they fit 64 KB.
pub num_move_size_bounds :
    (size : ℕ)
    → 0 < size
    → (2 ≤ num_move_size size)
      × (num_move_size size ≤ 32)
      × ((num_move_size size ≡ 2) ⊎ (num_move_size size * size ≤ 65536))
num_move_size_bounds size h =
    let c = num_move_size_cases size h in
    (
      c.0,
      c.1,
      elim c.2 [
        | inl two ↦ inl two
        | inr le ↦ inr (omega (arith, mul-le-mul_right size le, div_bounds 65536 size h))
      ],
    )

-- The check of one size.
waste_good : Tables → ℕ → Bool
waste_good t size =
    let s = byte_size_for_class t (size_class t size) in
    leb size 0 || ltb s (size + 8) || ltb (8 * (s - size)) size

wastes_good : every_until (waste_good size_tables) (max_size + 1) ≡ true
unfolding size_tables every_until waste_good size_class byte_size_for_class
wastes_good = refl

-- For a positive size of at most kMaxSize, AllocationSize answers a size that is not smaller, and
-- larger by less than eight bytes or by less than an eighth of the request.
pub allocation_size_small :
    (bytes : ℕ)
    → 0 < bytes
    → bytes ≤ max_size
    → (bytes ≤ allocation_size size_tables bytes)
      × ((allocation_size size_tables bytes < bytes + 8)
          ⊎ (8 * (allocation_size size_tables bytes - bytes) < bytes))
unfolding allocation_size waste_good
allocation_size_small bytes p h = ground (
  arith,
  of-every_until (waste_good size_tables) (max_size + 1) bytes (omega arith) wastes_good,
  size_class-Fits bytes h,
)

-- For a larger size that is at least a page short of 2 ^ 64, AllocationSize rounds up to the
-- next whole number of pages.
pub allocation_size_large :
    (bytes : ℕ)
    → max_size < bytes
    → bytes + page_size ≤ u64_mod
    → (bytes ≤ allocation_size size_tables bytes)
      × (allocation_size size_tables bytes < bytes + page_size)
      × (allocation_size size_tables bytes % page_size ≡ 0)
unfolding allocation_size pages
allocation_size_large bytes p h = ground arith
