-- ===== src/SizeClass.antt =====
-- The size classes of src/tcmalloc.cpp: LgFloor, SizeClass, InitSizeClasses and NumMoveSize.
-- An array is a list, its index checked by `get_or` and `set`; a loop runs on fuel.
pub mod Floor
pub mod InUse
pub mod Classes
pub mod Pages
mod Tests
use mathlib.Core.Option
use ferp.Common.{
  ℕ, zero, suc, ◌+◌, ◌-◌, ◌/◌, ◌%◌, ◌^◌, Bool, true, false, ◌&&◌, ◌||◌, Option, none, some, List,
  ltb, leb, ◌==◌, if◌then◌else◌, get_or, set, replicate, every_until,
}
use ferp.Common.Bits.{u8_mod, u64_mod, shr, shl}

abbrev pub page_shift : ℕ
page_shift = 12

abbrev pub page_size : ℕ
page_size = 4096

abbrev pub max_size : ℕ
max_size = 32768

abbrev pub align_shift : ℕ
align_shift = 3

abbrev pub alignment : ℕ
alignment = 8

abbrev pub num_classes : ℕ
num_classes = 170

abbrev pub max_free_list_length : ℕ
max_free_list_length = 256

abbrev pub size_bits : ℕ
size_bits = 64

-- `for (i = 4; i >= 0; --i)`: the first argument is i + 1.
pub lg_floor_loop : ℕ → ℕ → ℕ → ℕ
lg_floor_loop zero n log = log
lg_floor_loop (suc i) n log =
    let x = shr n (2 ^ i) in
    lg_floor_loop i (if x == 0 then n else x) (if x == 0 then log else log + 2 ^ i)

pub lg_floor : ℕ → ℕ
unfolding lg_floor_loop
lg_floor n = lg_floor_loop 5 n 0

-- The static arrays.
pub record Tables : Type 0 where
  pub size_base : List ℕ
  pub size_shift : List ℕ
  pub class_to_size : List ℕ
  pub class_to_pages : List ℕ
  pub num_objects_to_move : List ℕ

pub size_class : Tables → ℕ → ℕ
unfolding lg_floor
size_class t size =
    let size' = if size == 0 then 1 else size in
    let lg = lg_floor size' in get_or t.size_base lg 0 + shr (size' - 1) (get_or t.size_shift lg 0)

unfoldable pub byte_size_for_class : Tables → ℕ → ℕ
byte_size_for_class t cl = get_or t.class_to_size cl 0

-- `static_cast<int>(0.8 * kMaxFreeListLength)` is 204; the quotient of doubles is cut to an int.
pub num_move_size : ℕ → ℕ
num_move_size size =
    if size == 0
    then 0
    else let num = 65536 / size in
      let num = if ltb num 2 then 2 else num in
      let num = if ltb 204 num then 204 else num in if ltb 32 num then 32 else num

-- The variables of the loop over the sizes; `last_lg` is one more than in the source.
pub record Scan : Type 0 where
  pub tables : Tables
  pub next_class : ℕ
  pub alignshift : ℕ
  pub last_lg : ℕ

pub new_alignshift : ℕ → ℕ → ℕ
new_alignshift lg alignshift = if leb 7 lg && ltb alignshift 8 then alignshift + 1 else alignshift

-- `if (lg > last_lg) …`
pub enter_lg : Scan → ℕ → ℕ → Scan
unfolding new_alignshift
enter_lg s size lg =
    let t = s.tables in
    let a = new_alignshift lg s.alignshift in
    let base = (s.next_class + u64_mod - shr (size - 1) a) % u64_mod in
    record s {
      alignshift = a;
      tables = record t {
        size_base = set t.size_base lg (base % u8_mod);
        size_shift = set t.size_shift lg a;
      };
    }

-- One round, but for the step of `size`.
pub scan_size : Scan → ℕ → Scan
unfolding enter_lg lg_floor
scan_size s size =
    let lg = lg_floor size in
    let s' = if leb s.last_lg lg then enter_lg s size lg else s in
    let t = s'.tables in
    record s' {
      tables = record t { class_to_size = set t.class_to_size s'.next_class size };
      last_lg = lg + 1;
      next_class = s'.next_class + 1;
    }

-- `none` means that the fuel ran out.
pub scan_sizes : ℕ → Scan → ℕ → Option Scan
scan_sizes zero s size = none
scan_sizes (suc fuel) s size = elim (leb size max_size) [
  | true ↦ scan_sizes fuel (scan_size s size) (size + 2 ^ (scan_size s size).alignshift)
  | false ↦ some s
]

-- `while ((psize % s) > (psize >> 3)) psize += kPageSize`
pub span_size : ℕ → ℕ → ℕ → Option ℕ
span_size zero s psize = none
span_size (suc fuel) s psize = elim (ltb (shr psize 3) (psize % s)) [
  | true ↦ span_size fuel s (psize + page_size)
  | false ↦ some psize
]

-- The loop over the classes from `cl`, for the given number of them.
pub fill_pages : ℕ → ℕ → Tables → Option Tables
unfolding span_size byte_size_for_class
fill_pages zero cl t = some t
fill_pages (suc n) cl t = elim (span_size 16 (byte_size_for_class t cl) page_size) [
  | none ↦ none
  | some psize ↦
      fill_pages n (cl + 1)
        (record t { class_to_pages = set t.class_to_pages cl (shr psize page_shift) })
]

-- The checks of the double-check loop at one size; `false` is a call of abort().
pub size_is_good : Tables → ℕ → Bool
size_is_good t size =
    let sc = size_class t size in
    ltb 0 sc
    && (leb sc 1 || ltb (byte_size_for_class t (sc - 1)) size)
    && ltb sc num_classes
    && leb size (byte_size_for_class t sc)
    && ltb 0 (byte_size_for_class t sc)

-- The last loop, from `cl`.
pub fill_moves : ℕ → ℕ → Tables → Tables
unfolding num_move_size byte_size_for_class
fill_moves zero cl t = t
fill_moves (suc n) cl t = fill_moves n (cl + 1) (record t {
  num_objects_to_move = set t.num_objects_to_move cl (num_move_size (byte_size_for_class t cl));
})

abbrev zeroed_tables : Tables
zeroed_tables = record {
  size_base = replicate size_bits 0;
  size_shift = replicate size_bits 0;
  class_to_size = replicate num_classes 0;
  class_to_pages = replicate num_classes 0;
  num_objects_to_move = replicate num_classes 0;
}

-- The first loop of the function, `for (lg = 0; lg < kAlignShift; lg++)`, in `lg`.
pub init_small_lgs : ℕ → ℕ → Tables → Tables
init_small_lgs zero lg t = t
init_small_lgs (suc n) lg t =
    init_small_lgs n (lg + 1)
      (record t { size_base = set t.size_base lg 1; size_shift = set t.size_shift lg align_shift })

abbrev first_scan : Tables → Scan
first_scan t = record { tables = t; next_class = 1; alignshift = align_shift; last_lg = 0 }

-- All but the double check; `none` is a call of abort().
pub build_size_classes : Option Tables
unfolding init_small_lgs scan_sizes scan_size fill_pages fill_moves
build_size_classes =
    elim (scan_sizes 4097 (first_scan (init_small_lgs align_shift 0 zeroed_tables)) alignment) [
      | none ↦ none
      | some s ↦ elim (leb num_classes s.next_class) [
        | true ↦ none
        | false ↦
            Option.map (fill_moves (num_classes - 1) 1) (fill_pages (s.next_class - 1) 1 s.tables)
      ]
    ]

-- The double check of every size.
pub double_check : Tables → Option Tables
double_check t = if every_until (size_is_good t) (max_size + 1) then some t else none

pub init_size_classes : Option Tables
init_size_classes = elim build_size_classes [ none ↦ none | some t ↦ double_check t ]

or_zeroed : Option Tables → Tables
or_zeroed none = zeroed_tables
or_zeroed (some t) = t

-- The tables that a process ends up with.
unfoldable pub size_tables : Tables
unfolding or_zeroed build_size_classes
size_tables = or_zeroed build_size_classes

-- `pages`, on a 64-bit size_t.
pub pages : ℕ → ℕ
pages bytes = shr ((bytes + (page_size - 1)) % u64_mod) page_shift

unfoldable pub allocation_size : Tables → ℕ → ℕ
unfolding pages size_class byte_size_for_class
allocation_size t bytes =
    if ltb max_size bytes
    then shl (pages bytes) page_shift
    else byte_size_for_class t (size_class t bytes)
