-- ===== src/HeapProfiler/Leaks.antt =====
-- AdjustByIgnoredObjects of src/heap-profiler.cpp: a dump for leaks counts without the objects that
-- the heap checker ignores, and the buckets are as before afterwards. Its asserts are left out.
pub mod Moved
use mathlib.Core.List.{Memᴰ}
use ferp.Common.{
  ℕ, ◌+◌, ◌-◌, ◌%◌, ◌<◌, ◌≡◌, ◌∙◌, ap, sym, refl, subst, fun_ext, Bool, true, false, Option, none,
  some, List, [], ◌∷◌, ◌==◌, if◌then◌else◌, update, update_self, update_other, Bool-cases, inl, inr,
  arith,
}
use ferp.Common.Bits.{u32_mod, u64_mod}
use ferp.AddressMap.{find}
use ferp.HeapProfiler.{Bucket, AllocValue, HeapProfile}

-- An ignored object, taken out of its bucket or put back.
pub adjust_bucket : Bool → ℕ → Bucket → Bucket
adjust_bucket back bytes b =
    if back
    then record b {
      allocs = (b.allocs + 1) % u32_mod;
      alloc_size = (b.alloc_size + bytes) % u64_mod;
    }
    else record b {
      allocs = (b.allocs + (u32_mod - 1)) % u32_mod;
      alloc_size = (b.alloc_size + (u64_mod - bytes % u64_mod)) % u64_mod;
    }

-- `none` is a call of abort, or a read through a null pointer.
pub adjust_by_ignored_objects : Bool → List ℕ → HeapProfile → Option HeapProfile
adjust_by_ignored_objects back [] p = some p
adjust_by_ignored_objects back (i ∷ is) p = elim (find p.allocation i) [
  | none ↦ none
  | some v ↦ elim v.bucket [
    | none ↦ none
    | some b ↦
        adjust_by_ignored_objects back is
          (record p { bucket = update p.bucket b (adjust_bucket back v.bytes (p.bucket b)) })
  ]
]

-- How many of the objects are in a bucket, and their bytes.
unfoldable pub is_in : HeapProfile → ℕ → ℕ → Bool
is_in p i j = elim (find p.allocation i) [
  | none ↦ false
  | some v ↦ elim v.bucket [ none ↦ false | some b ↦ b == j ]
]

pub bytes_of : HeapProfile → ℕ → ℕ
bytes_of p i = elim (find p.allocation i) [ none ↦ 0 | some v ↦ v.bytes ]

unfoldable pub objects_in : HeapProfile → List ℕ → ℕ → ℕ
objects_in p [] j = 0
objects_in p (i ∷ is) j = (if is_in p i j then 1 else 0) + objects_in p is j

unfoldable pub bytes_in : HeapProfile → List ℕ → ℕ → ℕ
bytes_in p [] j = 0
bytes_in p (i ∷ is) j = (if is_in p i j then bytes_of p i else 0) + bytes_in p is j

-- A bucket with more objects and bytes.
unfoldable pub raised : Bucket → ℕ → ℕ → Bucket
raised b n m = record b {
  allocs = (b.allocs + n) % u32_mod;
  alloc_size = (b.alloc_size + m) % u64_mod;
}

abbrev pub InRange : Bucket → Type 0
InRange b = (b.allocs < u32_mod) × (b.alloc_size < u64_mod)

-- Every object is an allocation that has a bucket.
abbrev pub AreCounted : HeapProfile → List ℕ → Type 0
AreCounted p is =
    (i : ℕ)
    → Memᴰ i is
    → (v : AllocValue) × (b : ℕ) × (find p.allocation i ≡ some v) × (v.bucket ≡ some b)
