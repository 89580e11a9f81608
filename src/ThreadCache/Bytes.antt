-- ===== src/ThreadCache/Bytes.antt =====
-- `size_` of a TCMalloc_ThreadCache in src/tcmalloc.cpp is the number of bytes in its free lists,
-- and every free list counts its objects.
use native.Mathlib.Nat.{mul-add}
use ferp.Common.{
  ℕ, ◌+◌, ◌*◌, ◌%◌, ◌≤◌, ◌<◌, ◌≡◌, sym, List, ◌==◌, length, length-append, length-drop, arith,
  Bool-cases, inl, inr,
}
use ferp.Common.Bits.{u64_mod}
use ferp.Common.Sums.{sum_below, sum_below-change}
use ferp.SizeClass.{num_classes, Tables, byte_size_for_class}
use ferp.PageHeap.{Ptr}
use ferp.ThreadCache.{ObjectList, ThreadCache, push, push_range, pop_range, write_list}

-- The counters of a list, of at most `most` objects.
pub record IsCounted (most : ℕ) (l : ObjectList) : Type 0 where
  pub count : l.length_ ≡ length l.objects
  pub low : l.lowater ≤ l.length_
  pub short : l.length_ ≤ most

abbrev pub list_bytes : Tables → ThreadCache → ℕ → ℕ
list_bytes t c cl = byte_size_for_class t cl * (c.list cl).length_

abbrev pub bytes : Tables → ThreadCache → ℕ
bytes t c = sum_below (list_bytes t c) num_classes

-- The size is the bytes in the lists, as a 64-bit word, and all lists are counted.
pub record IsValid (t : Tables) (most : ℕ) (c : ThreadCache) : Type 0 where
  pub size_eq : c.size ≡ bytes t c % u64_mod
  pub counted : (j : ℕ) → IsCounted most (c.list j)

pub push-IsCounted :
    (most : ℕ) (p : Ptr) (l : ObjectList)
    → most < 65535
    → IsCounted most l
    → IsCounted (most + 1) (push p l)
push-IsCounted most p l h v = record {
  count = omega (arith, v.count, v.short);
  low = omega (arith, v.low, v.short);
  short = omega (arith, v.short);
}

pub push_range-IsCounted :
    (most n : ℕ) (ps : List Ptr) (l : ObjectList)
    → most < 65536
    → length ps ≡ n
    → l.length_ + n ≤ most
    → IsCounted most l
    → IsCounted most (push_range ps n l)
push_range-IsCounted most n ps l h e f v = record {
  count = omega (arith, v.count, length-append {0} ps l.objects);
  low = omega (arith, v.low);
  short = omega arith;
}

pub pop_range-IsCounted :
    (most n : ℕ) (l : ObjectList)
    → most < 65536
    → n ≤ l.length_
    → IsCounted most l
    → IsCounted most (pop_range n l) × ((pop_range n l).length_ + n ≡ l.length_)
pop_range-IsCounted most n l h f v = (
  record {
    count = omega (arith, v.count, v.short, length-drop {0} n l.objects);
    low = ground (arith, v.low, v.short);
    short = omega (arith, v.short);
  },
  omega (arith, v.short),
)

pub IsCounted-write_list :
    (most cl : ℕ) (l : ObjectList) (c : ThreadCache)
    → ((j : ℕ) → IsCounted most (c.list j))
    → IsCounted most l
    → (j : ℕ) → IsCounted most ((write_list cl l c).list j)
IsCounted-write_list most cl l c v w j = elim (Bool-cases (j == cl)) [
  | inl e ↦ rw e w
  | inr e ↦ rw e (v j)
]

pub mul_parts : (b x n y : ℕ) → x + n ≡ y → b * x + b * n ≡ b * y
mul_parts b x n y h = rw (sym h) (sym (mul-add b x n))

-- What a write to one list does to the bytes.
module _ (t : Tables) (c : ThreadCache) (cl : ℕ) (l : ObjectList) (inside : cl < num_classes) where
  pub bytes-write_list :
      bytes t (write_list cl l c) + byte_size_for_class t cl * (c.list cl).length_
      ≡ bytes t c + byte_size_for_class t cl * l.length_
  bytes-write_list =
      let change =
        sum_below-change (list_bytes t c) (list_bytes t (write_list cl l c)) cl num_classes inside
          (λ j d. ground arith) in
      ground (arith, change)
