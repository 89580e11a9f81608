-- ===== src/Malloc/Align.antt =====
-- The choices of do_memalign of src/tcmalloc.cpp: a size class whose objects have the alignment,
-- and the pages before the first aligned one of a span.
use native.Mathlib.Nat.{
  add-zero, add-mul-mod_self_right, mod-eq_of_lt, mod-lt, mul-lt-mul_of_pos_right, pow-le-pow_right,
}
use ferp.Common.{
  ◌∙◌, ap, ℕ, zero, suc, ◌+◌, ◌-◌, ◌*◌, ◌/◌, ◌%◌, ◌^◌, ◌≤◌, ◌<◌, ◌≡◌, refl, Bool, true, ◌&&◌, ◌||◌,
  ltb, leb, ◌==◌, if◌then◌else◌, bit_and, arith, every_until, of-every_until, Bool-cases, inl, inr,
}
use ferp.Common.Bits.{shl, u32_mod, pow_pos, pow-add}
use ferp.Common.Masks.{bit_and-mask}
use ferp.SizeClass.{Tables, size_tables, size_class, byte_size_for_class, num_classes, max_size}
use ferp.SizeClass.InUse.{last_class, class_in_use, largest_class}
use ferp.SizeClass.Classes.{size_class-least}
use ferp.PageHeap.{page_shift, add64, int_of}

-- `size & (align - 1)`, which is 0 at the multiples of a power of two.
pub is_aligned : ℕ → ℕ → Bool
is_aligned align x = bit_and x (align - 1) == 0

-- The loop over the classes, for the classes that are left; kNumClasses is none.
pub aligned_class : ℕ → Tables → ℕ → ℕ → ℕ
aligned_class zero t align cl = cl
aligned_class (suc left) t align cl =
    if is_aligned align (byte_size_for_class t cl) then cl else aligned_class left t align (cl + 1)

-- The loop over `skip`, an int, as its 32-bit pattern, which is taken to wrap around; on fuel.
pub find_skip : ℕ → ℕ → ℕ → ℕ → ℕ
find_skip zero align start skip = skip
find_skip (suc fuel) align start skip =
    if is_aligned align (shl (add64 start (int_of skip)) page_shift)
    then skip
    else find_skip fuel align start ((skip + 1) % u32_mod)

is_aligned-mod : (k x : ℕ) → is_aligned (2 ^ k) x ≡ (x % 2 ^ k == 0)
unfolding is_aligned
is_aligned-mod k x = rw (bit_and-mask x k) refl

-- The class that the loop ends with, checked for every class and alignment.
class_good : ℕ → ℕ → Bool
class_good k cl =
    let found = aligned_class (num_classes - cl) size_tables (2 ^ k) cl in
    leb cl 0
    || (leb cl found
        && leb found last_class
        && leb (byte_size_for_class size_tables cl) (byte_size_for_class size_tables found)
        && (byte_size_for_class size_tables found % 2 ^ k == 0))

classes_good : every_until (λ k. every_until (class_good k) 169) 12 ≡ true
unfolding class_good aligned_class is_aligned every_until byte_size_for_class size_tables
classes_good = refl

-- For a size of at most kMaxSize and an alignment below a page, the loop over the classes ends at
-- a class in use, whose objects are long enough and a multiple of the alignment long.
pub aligned_class-fits :
    (size k : ℕ)
    → size ≤ max_size
    → k < page_shift
    → let cl = size_class size_tables size in
      let found = aligned_class (num_classes - cl) size_tables (2 ^ k) cl in
      (0 < found)
      × (found ≤ last_class)
      × (size ≤ byte_size_for_class size_tables found)
      × (byte_size_for_class size_tables found % 2 ^ k ≡ 0)
unfolding class_good
aligned_class-fits size k h l =
    let cl = size_class size_tables size in
    let (low, high) = class_in_use size h in
    let fits =
      size_class-least size last_class h (omega arith) (omega arith)
        (omega (arith, largest_class)) in
    let all = of-every_until (λ j. every_until (class_good j) 169) 12 k l classes_good in
    let one = of-every_until (class_good k) 169 cl (omega arith) all in ground (arith, one, fits)

-- How far the next multiple is.
abbrev pub gap : ℕ → ℕ → ℕ
gap n a = if a % n == 0 then 0 else n - a % n

-- A remainder from a quotient.
mod_unique : (n q r : ℕ) → r < n → (r + q * n) % n ≡ r
mod_unique n q r h = add-mul-mod_self_right r q n ∙ mod-eq_of_lt h

mod_next : (n a : ℕ) → a % n + 1 < n → (a + 1) % n ≡ a % n + 1
mod_next n a h =
    let whole : a + 1 ≡ a % n + 1 + a / n * n = omega arith in
    ap (λ x. x % n) whole ∙ mod_unique n (a / n) (a % n + 1) h

mod_around : (n a : ℕ) → a % n + 1 ≡ n → (a + 1) % n ≡ 0
mod_around n a h =
    let whole : a + 1 ≡ 0 + (a / n + 1) * n = grind arith in
    ap (λ x. x % n) whole ∙ mod_unique n (a / n + 1) 0 (omega arith)

gap_suc : (n a : ℕ) → 0 < n → 0 < a % n → gap n a ≡ gap n (a + 1) + 1
gap_suc n a p h =
    let low = mod-lt a p in
    elim (Bool-cases (ltb (a % n + 1) n)) [
      | inl e ↦ ground (arith, mod_next n a (ground arith), low)
      | inr e ↦ ground (arith, mod_around n a (ground arith), low)
    ]

expand : (q r n m : ℕ) → (r + q * n) * m ≡ r * m + q * (n * m)
expand q r n m = grind arith

scaled_mod : (n m a : ℕ) → 0 < n → 0 < m → a * m % (n * m) ≡ a % n * m
scaled_mod n m a p h =
    let low : a % n * m < n * m = mul-lt-mul_of_pos_right {k = m} (mod-lt a p) h in
    let split : a ≡ a % n + a / n * n = omega arith in
    let whole : a * m ≡ a % n * m + a / n * (n * m) =
      ap (λ x. x * m) split ∙ expand (a / n) (a % n) n m in
    ap (λ x. x % (n * m)) whole ∙ mod_unique (n * m) (a / n) (a % n * m) low

aligned_page :
    (j page : ℕ)
    → page < 2 ^ 52
    → is_aligned (2 ^ (j + page_shift)) (shl page page_shift) ≡ (page % 2 ^ j == 0)
aligned_page j page h =
    let exact : shl page page_shift ≡ page * 2 ^ page_shift = mod-eq_of_lt (omega arith) in
    rw
      (
        exact,
        is_aligned-mod (j + page_shift) (page * 2 ^ page_shift),
        pow-add 2 j page_shift,
        scaled_mod (2 ^ j) (2 ^ page_shift) page (pow_pos j) (omega arith),
      )
      (ground arith)

int_of-same : (a : ℕ) → a < 2 ^ 31 → int_of a ≡ a
unfolding int_of
int_of-same a h = ground arith

-- The loop ends after as many rounds as there are pages before the next multiple.
find_skip-from :
    (fuel j start skip : ℕ)
    → gap (2 ^ j) (start + skip) ≤ fuel
    → start + skip + gap (2 ^ j) (start + skip) < 2 ^ 52
    → skip + gap (2 ^ j) (start + skip) < 2 ^ 31
    → find_skip fuel (2 ^ (j + page_shift)) start skip ≡ skip + gap (2 ^ j) (start + skip)
unfolding find_skip
find_skip-from zero j start skip h l m = omega arith
find_skip-from (suc fuel) j start skip h l m =
    let pos = pow_pos j in
    let n = 2 ^ j in
    let int : int_of skip ≡ skip = int_of-same skip (omega arith) in
    let word : add64 start skip ≡ start + skip = mod-eq_of_lt (omega arith) in
    let tested : is_aligned (2 ^ (j + page_shift)) (shl (add64 start (int_of skip)) page_shift)
        ≡ ((start + skip) % n == 0) =
      rw (int, word) (aligned_page j (start + skip) (omega arith)) in
    elim (Bool-cases ((start + skip) % n == 0)) [
      | inl e ↦ rw (tested, e) (omega arith)
      | inr e ↦
          let next = gap_suc n (start + skip) pos (ground arith) in
          let more : (skip + 1) % u32_mod ≡ skip + 1 = mod-eq_of_lt (grind (arith, next)) in
          rw (tested, e, more)
            (find_skip-from fuel j start (skip + 1) (grind (arith, next)) (grind (arith, next))
                (grind (arith, next))
              ∙ grind (arith, next))
    ]

gap-multiple : (n a : ℕ) → 0 < n → (a + gap n a) % n ≡ 0
gap-multiple n a p =
    let low = mod-lt a p in
    elim (Bool-cases (a % n == 0)) [
      | inl e ↦ rw e (ground (arith, add-zero a))
      | inr e ↦
          let whole : a + (n - a % n) ≡ 0 + (a / n + 1) * n = grind arith in
          rw e (ap (λ x. x % n) whole ∙ mod_unique n (a / n + 1) 0 p)
    ]

gap-first : (n a i : ℕ) → 0 < n → i < gap n a → 0 < (a + i) % n
gap-first n a i p h =
    let inside : a % n + i < n = ground (arith, mod-lt a p) in
    let whole : a + i ≡ a % n + i + a / n * n = omega arith in
    let eq : (a + i) % n ≡ a % n + i =
      ap (λ x. x % n) whole ∙ mod_unique n (a / n) (a % n + i) inside in
    ground (arith, eq)

-- For an alignment of 2 ^ j pages, at most 2 ^ 31, and a span that leaves room for it below 2 ^ 52,
-- `skip` does not overflow, and the loop ends within 2 ^ j rounds, at the first page from the span's start on whose number, and so whose
-- address, is a multiple of the alignment.
pub find_skip-first :
    (j start : ℕ)
    → j ≤ 31
    → start + 2 ^ j < 2 ^ 52
    → let skip = find_skip (2 ^ j) (2 ^ (j + page_shift)) start 0 in
      (skip < 2 ^ j)
      × ((start + skip) % 2 ^ j ≡ 0)
      × ((start + skip) * 2 ^ page_shift % 2 ^ (j + page_shift) ≡ 0)
      × ((i : ℕ) → i < skip → 0 < (start + i) % 2 ^ j)
find_skip-first j start few h =
    let n = 2 ^ j in
    let pos = pow_pos j in
    let short : n ≤ 2 ^ 31 = pow-le-pow_right {n = 2} (omega arith) few in
    let low : gap n start < n = ground (arith, mod-lt start pos) in
    let at : find_skip n (2 ^ (j + page_shift)) start 0 ≡ gap n start =
      rw
        (
          find_skip-from n j start 0 (rw (add-zero start) (omega arith))
              (rw (add-zero start) (omega arith)) (rw (add-zero start) (omega arith)),
          add-zero start,
        )
        (omega arith) in
    let multiple = gap-multiple n start pos in
    rw at (
      low,
      multiple,
      rw
          (
            pow-add 2 j page_shift,
            scaled_mod n (2 ^ page_shift) (start + gap n start) pos (omega arith),
            multiple,
          )
          refl,
      λ i l. gap-first n start i pos l,
    )
