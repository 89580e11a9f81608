-- ===== src/SizeClass/InUse.antt =====
-- The classes that the tables of InitSizeClasses in src/tcmalloc.cpp use, and their batches.
use ferp.Common.{
  ℕ, ◌≤◌, ◌<◌, ◌≡◌, refl, Bool, true, ◌&&◌, ◌||◌, ltb, leb, get_or, every_until, of-every_until,
  arith,
}
use ferp.SizeClass.{size_tables, size_class, byte_size_for_class, max_size}
use ferp.SizeClass.Classes.{size_class-least}

-- The classes in use.
abbrev pub last_class : ℕ
last_class = 168

few_moves : ℕ → Bool
few_moves cl =
    leb cl 0
    || (ltb 0 (get_or size_tables.num_objects_to_move cl 0)
        && leb (get_or size_tables.num_objects_to_move cl 0) 32)

all_few_moves : every_until few_moves 169 ≡ true
unfolding few_moves size_tables every_until
all_few_moves = refl

pub moves_bounds :
    (cl : ℕ)
    → 0 < cl
    → cl ≤ last_class
    → (0 < get_or size_tables.num_objects_to_move cl 0)
      × (get_or size_tables.num_objects_to_move cl 0 ≤ 32)
unfolding few_moves
moves_bounds cl p h = ground (arith, of-every_until few_moves 169 cl (omega arith) all_few_moves)

pub largest_class : byte_size_for_class size_tables last_class ≡ max_size
unfolding size_tables byte_size_for_class
largest_class = refl

pub class_in_use :
    (size : ℕ)
    → size ≤ max_size
    → (0 < size_class size_tables size) × (size_class size_tables size ≤ last_class)
class_in_use size h =
    let r =
      size_class-least size last_class h (omega arith) (omega arith)
        (omega (arith, largest_class)) in
    (r.1, r.3)
