-- ===== src/SizeClass/Classes.antt =====
-- What InitSizeClasses of src/tcmalloc.cpp sets up: the class that SizeClass gives a size.
-- The tables are closed, so the checks of all sizes and of all classes are evaluated.
use native.Mathlib.Nat.{le_refl}
use ferp.Common.{
  ℕ, zero, suc, ◌+◌, ◌-◌, ◌≤◌, ◌<◌, ◌≡◌, refl, ◌∙◌, ◌⊎◌, arith, Bool, true, ◌||◌, some, ltb, leb,
  every_until, of-every_until,
}
use ferp.SizeClass.{
  Tables, size_class, byte_size_for_class, size_is_good, build_size_classes, double_check,
  size_tables, init_size_classes, max_size, num_classes,
}

sizes_good : every_until (size_is_good size_tables) (max_size + 1) ≡ true
unfolding size_tables every_until size_is_good size_class byte_size_for_class
sizes_good = refl

size_is_good_lem : (size : ℕ) → size ≤ max_size → size_is_good size_tables size ≡ true
size_is_good_lem size h =
    of-every_until (size_is_good size_tables) (max_size + 1) size (omega arith) sizes_good

build_size_classes_lem : build_size_classes ≡ some size_tables
unfolding size_tables build_size_classes
build_size_classes_lem = refl

double_check-eq :
    (t : Tables) → every_until (size_is_good t) (max_size + 1) ≡ true → double_check t ≡ some t
unfolding double_check
double_check-eq t h = rw h

init-eq : (t : Tables) → build_size_classes ≡ some t → init_size_classes ≡ double_check t
unfolding init_size_classes
init-eq t h = rw (h, init_size_classes)

pub init_size_classes_lem : init_size_classes ≡ some size_tables
init_size_classes_lem =
    init-eq size_tables build_size_classes_lem ∙ double_check-eq size_tables sizes_good

-- The sizes of the classes that are in use rise.
rising : ℕ → Bool
rising cl =
    leb cl 0 || ltb (byte_size_for_class size_tables (cl - 1)) (byte_size_for_class size_tables cl)

classes_rise : every_until rising 169 ≡ true
unfolding rising size_tables every_until byte_size_for_class
classes_rise = refl

class_size_lt :
    (cl : ℕ)
    → cl < 168
    → byte_size_for_class size_tables cl < byte_size_for_class size_tables (cl + 1)
unfolding rising
class_size_lt cl h = ground (arith, of-every_until rising 169 (cl + 1) (omega arith) classes_rise)

-- `d` classes up.
class_size_mono :
    (d cl m : ℕ)
    → cl + d ≡ m
    → m ≤ 168
    → byte_size_for_class size_tables cl ≤ byte_size_for_class size_tables m
class_size_mono zero cl m e h = let e' : cl ≡ m = omega arith in rw e' (le_refl _)
class_size_mono (suc d) cl m e h =
    omega (arith, class_size_lt cl (omega arith), class_size_mono d (cl + 1) m (omega arith) h)

-- The class of a size is in the table, and holds the size.
pub record Fits (size : ℕ) : Type 0 where
  pub positive : 0 < size_class size_tables size
  pub in_table : size_class size_tables size < num_classes
  pub holds : size ≤ byte_size_for_class size_tables (size_class size_tables size)
  pub tight :
      (size_class size_tables size ≡ 1)
      ⊎ (byte_size_for_class size_tables (size_class size_tables size - 1) < size)

pub size_class-Fits : (size : ℕ) → size ≤ max_size → Fits size
unfolding size_is_good
size_class-Fits size h = ground (arith, size_is_good_lem size h)

-- InitSizeClasses does not abort, and with its tables every size of at most kMaxSize gets the
-- smallest class in use that holds it.
pub size_class-least :
    (size cl : ℕ)
    → size ≤ max_size
    → 0 < cl
    → cl ≤ 168
    → size ≤ byte_size_for_class size_tables cl
    → (init_size_classes ≡ some size_tables)
      × (0 < size_class size_tables size)
      × (size ≤ byte_size_for_class size_tables (size_class size_tables size))
      × (size_class size_tables size ≤ cl)
size_class-least size cl h p q k = (
  init_size_classes_lem,
  (size_class-Fits size h).positive,
  (size_class-Fits size h).holds,
  ground (
    arith,
    size_class-Fits size h,
    class_size_mono (size_class size_tables size - 1 - cl) cl (size_class size_tables size - 1),
  ),
)
