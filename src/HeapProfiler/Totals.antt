-- ===== src/HeapProfiler/Totals.antt =====
-- The counts of a dump for leaks in src/heap-profiler.cpp against the log of allocations and frees.
use mathlib.Core.List.{Memᴰ}
use ferp.Common.{
  ℕ, zero, suc, ◌+◌, ◌%◌, ◌<◌, ◌≡◌, ◌∙◌, ap, sym, refl, subst, Option, none, some, List, [], ◌∷◌,
  ◌==◌, if◌then◌else◌, Bool-cases, inl, inr, arith, length, ==_refl,
}
use ferp.Common.Bits.{u32_mod, u64_mod}
use ferp.Common.Sums.{sum_below, sum_below-change, sum_below-zero, sum_below-same}
use ferp.AddressMap.{find}
use ferp.HeapProfiler.{Bucket, AllocValue, HeapProfile, hash_table_size, empty_bucket}
use ferp.HeapProfiler.Weights.{bucket_weight, weight}
use ferp.HeapProfiler.Recorded.{Log, Allocation, Matches, Recorded, sum_of, one, itself, all}
use ferp.HeapProfiler.Leaks.{is_in, bytes_of, objects_in, bytes_in, raised, AreCounted}
use ferp.HeapProfiler.Leaks.Moved.{AllInRange, adjust_by_ignored_objects-back}
use ferp.HeapProfiler.Dump.{
  count_bucket, count_buckets, listed, sort, get_heap_profile, sum_over, IsListed, sum_over-sort,
}

abbrev allocs_of : (ℕ → Bucket) → ℕ → ℕ
allocs_of bucket j = (bucket j).allocs

abbrev frees_of : (ℕ → Bucket) → ℕ → ℕ
frees_of bucket j = (bucket j).frees

abbrev alloc_sizes_of : (ℕ → Bucket) → ℕ → ℕ
alloc_sizes_of bucket j = (bucket j).alloc_size

abbrev free_sizes_of : (ℕ → Bucket) → ℕ → ℕ
free_sizes_of bucket j = (bucket j).free_size

-- The sums of the loop, modulo the size of a word.
count_buckets-sum_over :
    (bs : List ℕ) (bucket : ℕ → Bucket) (c : Bucket)
    → ((count_buckets bs bucket c).allocs % u32_mod
        ≡ (c.allocs + sum_over bs (allocs_of bucket)) % u32_mod)
      × ((count_buckets bs bucket c).frees % u32_mod
          ≡ (c.frees + sum_over bs (frees_of bucket)) % u32_mod)
      × ((count_buckets bs bucket c).alloc_size % u64_mod
          ≡ (c.alloc_size + sum_over bs (alloc_sizes_of bucket)) % u64_mod)
      × ((count_buckets bs bucket c).free_size % u64_mod
          ≡ (c.free_size + sum_over bs (free_sizes_of bucket)) % u64_mod)
unfolding count_buckets count_bucket sum_over
count_buckets-sum_over [] bucket c = (omega arith, omega arith, omega arith, omega arith)
count_buckets-sum_over (b ∷ bs) bucket c =
    let (h1, h2, h3, h4) = count_buckets-sum_over bs bucket (count_bucket c (bucket b)) in
    (omega (arith, h1), omega (arith, h2), omega (arith, h3), omega (arith, h4))

-- Sums of what was taken out and what is left.
sum_below-u32 :
    (f g h : ℕ → ℕ) (n : ℕ)
    → ((j : ℕ) → (f j + g j) % u32_mod ≡ h j)
    → (sum_below f n + sum_below g n) % u32_mod ≡ sum_below h n % u32_mod
unfolding sum_below
sum_below-u32 f g h zero e = refl
sum_below-u32 f g h (suc n) e = omega (arith, sum_below-u32 f g h n e, e n)

sum_below-u64 :
    (f g h : ℕ → ℕ) (n : ℕ)
    → ((j : ℕ) → (f j + g j) % u64_mod ≡ h j)
    → (sum_below f n + sum_below g n) % u64_mod ≡ sum_below h n % u64_mod
unfolding sum_below
sum_below-u64 f g h zero e = refl
sum_below-u64 f g h (suc n) e = omega (arith, sum_below-u64 f g h n e, e n)

sum_below-add : (f g : ℕ → ℕ) (n : ℕ) → sum_below (λ j. f j + g j) n ≡ sum_below f n + sum_below g n
unfolding sum_below
sum_below-add f g zero = refl
sum_below-add f g (suc n) = omega (arith, sum_below-add f g n)

-- One object, in one bucket.
sum_below-once :
    (p : HeapProfile) (i b n w : ℕ) (v : AllocValue)
    → find p.allocation i ≡ some v
    → v.bucket ≡ some b
    → b < n
    → sum_below (λ j. if is_in p i j then w else 0) n ≡ w
unfolding is_in
sum_below-once p i b n w v f e l =
    let at : (j : ℕ) → is_in p i j ≡ (b == j) = λ j. ground (arith, f, e) in
    let change =
      sum_below-change (λ j. 0) (λ j. if is_in p i j then w else 0) b n l
        (λ j d. elim (Bool-cases (b == j)) [
          | inl t ↦ absurd (d (sym (ground arith)))
          | inr t ↦ rw (at j, t) refl
        ]) in
    omega (
      arith,
      change,
      sum_below-zero (λ j. 0) n (λ j. refl),
      ap (λ x. if x then w else 0) (at b ∙ ==_refl b),
    )

-- The bytes of the objects.
pub total_bytes : HeapProfile → List ℕ → ℕ
total_bytes p [] = 0
total_bytes p (i ∷ is) = bytes_of p i + total_bytes p is

-- Every object is an allocation that has one of the buckets.
abbrev HaveBuckets : HeapProfile → List ℕ → Type 0
HaveBuckets p is =
    (i : ℕ)
    → Memᴰ i is
    → (v : AllocValue) × (b : ℕ) × (find p.allocation i ≡ some v)
      × (v.bucket ≡ some b)
      × (b < p.num_buckets)

sum_below-objects :
    (p : HeapProfile) (is : List ℕ)
    → HaveBuckets p is
    → (sum_below (objects_in p is) p.num_buckets ≡ length is)
      × (sum_below (bytes_in p is) p.num_buckets ≡ total_bytes p is)
unfolding objects_in bytes_in total_bytes
sum_below-objects p [] h = (
  sum_below-zero (objects_in p []) p.num_buckets (λ j. refl),
  sum_below-zero (bytes_in p []) p.num_buckets (λ j. refl),
)
sum_below-objects p (i ∷ is) h =
    let (v, b, f, e, l) = h i (Memᴰ.head refl) in
    let (n, m) = sum_below-objects p is (λ k t. h k (Memᴰ.tail t)) in
    (
      omega (
        arith,
        n,
        sum_below-once p i b p.num_buckets 1 v f e l,
        sum_below-add (λ j. if is_in p i j then 1 else 0) (objects_in p is) p.num_buckets,
      ),
      omega (
        arith,
        m,
        sum_below-once p i b p.num_buckets (bytes_of p i) v f e l,
        sum_below-add (λ j. if is_in p i j then bytes_of p i else 0) (bytes_in p is) p.num_buckets,
      ),
    )

-- Every object is a live allocation.
abbrev pub AreLive : HeapProfile → List ℕ → Type 0
AreLive p is = (i : ℕ) → Memᴰ i is → (v : AllocValue) × (find p.allocation i ≡ some v)

matched :
    (bucket : ℕ → Bucket) (n : ℕ) (v : AllocValue) (a : Option Allocation)
    → Matches bucket n (some v) a
    → (b : ℕ) × (v.bucket ≡ some b) × (b < n)
matched bucket n v none m = absurd m
matched bucket n v (some a) (b, e, l, stack, size) = (b, e, l)

Recorded-HaveBuckets :
    (p : HeapProfile) (l : Log) (is : List ℕ) → Recorded p l → AreLive p is → HaveBuckets p is
Recorded-HaveBuckets p l is r a i m =
    let (v, f) = a i m in
    let (b, e, k) =
      matched p.bucket p.num_buckets v (l.live i)
        (subst (λ x. Matches p.bucket p.num_buckets x (l.live i)) f (r.matches i)) in
    (v, b, f, e, k)

weight-all :
    (f : Bucket → ℕ) (bucket : ℕ → Bucket) (n : ℕ)
    → weight all f bucket n ≡ sum_below (λ j. f (bucket j)) n
unfolding weight bucket_weight
weight-all f bucket n = refl

-- A dump for leaks, where the objects to ignore are live allocations, the table has every bucket once,
-- and the counts of the buckets are words: it does not abort, the profile is as before, and what was
-- counted and the ignored objects make up all allocations of the log, as all their bytes; and the
-- frees are those of the log.
pub get_heap_profile-Recorded :
    (is : List ℕ) (profile : Bucket) (p : HeapProfile) (l : Log)
    → Recorded p l
    → IsListed p
    → AllInRange p.bucket
    → AreLive p is
    → (c : Bucket) × (get_heap_profile is profile p ≡ some (p, c))
      × ((c.allocs + length is) % u32_mod ≡ sum_of all one l.made % u32_mod)
      × (c.frees % u32_mod ≡ sum_of all one l.freed % u32_mod)
      × ((c.alloc_size + total_bytes p is) % u64_mod ≡ sum_of all itself l.made % u64_mod)
      × (c.free_size % u64_mod ≡ sum_of all itself l.freed % u64_mod)
unfolding get_heap_profile raised empty_bucket
get_heap_profile-Recorded is profile p l r once ok live =
    let have = Recorded-HaveBuckets p l is r live in
    let counted : AreCounted p is = λ i m. let (v, b, f, e, k) = have i m in (v, b, f, e) in
    let (p', taken, left, back) = adjust_by_ignored_objects-back is p counted ok in
    let order = sort p.bucket (listed hash_table_size 0 p.table) in
    let c = count_buckets order p'.bucket empty_bucket in
    let (s1, s2, s3, s4) = count_buckets-sum_over order p'.bucket empty_bucket in
    let all_of : (f : ℕ → ℕ) → sum_over order f ≡ sum_below f p.num_buckets =
      λ f. sum_over-sort p.bucket (listed hash_table_size 0 p.table) f ∙ once f in
    let (objects, bytes) = sum_below-objects p is have in
    let n = p.num_buckets in
    let on = r.on in
    (
      c,
      ground (arith, on, taken, back),
      omega (
        arith,
        s1,
        all_of (allocs_of p'.bucket),
        objects,
        sum_below-u32 (allocs_of p'.bucket) (objects_in p is) (allocs_of p.bucket) n
            (λ j. ap (λ b. b.allocs) (left j)),
        r.counted.allocs all,
        weight-all (λ b. b.allocs) p.bucket n,
      ),
      omega (
        arith,
        s2,
        all_of (frees_of p'.bucket),
        sum_below-same (frees_of p.bucket) (frees_of p'.bucket) n
            (λ j k. ap (λ b. b.frees) (left j)),
        r.counted.frees all,
        weight-all (λ b. b.frees) p.bucket n,
      ),
      omega (
        arith,
        s3,
        all_of (alloc_sizes_of p'.bucket),
        bytes,
        sum_below-u64 (alloc_sizes_of p'.bucket) (bytes_in p is) (alloc_sizes_of p.bucket) n
            (λ j. ap (λ b. b.alloc_size) (left j)),
        r.counted.alloc_size all,
        weight-all (λ b. b.alloc_size) p.bucket n,
      ),
      omega (
        arith,
        s4,
        all_of (free_sizes_of p'.bucket),
        sum_below-same (free_sizes_of p.bucket) (free_sizes_of p'.bucket) n
            (λ j k. ap (λ b. b.free_size) (left j)),
        r.counted.free_size all,
        weight-all (λ b. b.free_size) p.bucket n,
      ),
    )
