-- ===== src/SizeClass/Tests.antt =====
-- The theorems on size classes at concrete sizes.
use ferp.Common.{◌-◌, ◌≤◌, ◌<◌, ◌≡◌, refl, some, arith}
use ferp.Common.Bits.{u64_mod}
use ferp.SizeClass.{size_class, byte_size_for_class, pages, size_tables, init_size_classes}
use ferp.SizeClass.Classes.{size_class-least}

size_of_class_40 : byte_size_for_class size_tables 40 ≡ 1024
unfolding byte_size_for_class size_tables
size_of_class_40 = refl

class_of_1000 : size_class size_tables 1000 ≡ 40
unfolding size_class size_tables
class_of_1000 = refl

-- The rounding of a size near the end of the address space wraps to no page at all.
pages_wrap : pages (u64_mod - 1) ≡ 0
unfolding pages
pages_wrap = refl

size_class-least_example :
    (init_size_classes ≡ some size_tables)
    × (0 < size_class size_tables 1000)
    × (1000 ≤ byte_size_for_class size_tables (size_class size_tables 1000))
    × (size_class size_tables 1000 ≤ 40)
size_class-least_example =
    size_class-least 1000 40 (omega arith) (omega arith) (omega arith)
      (omega (arith, size_of_class_40))
