-- ===== src/HeapProfiler/Dump.antt =====
-- The counts of GetHeapProfile in src/heap-profiler.cpp: the buckets are taken out of the table, sorted,
-- and added up, without the ignored objects. The text is left out.
use ferp.Common.{
  ℕ, zero, suc, ◌+◌, ◌-◌, ◌%◌, ◌<◌, ◌≤◌, ◌≡◌, ◌∙◌, ap, sym, refl, Bool, true, false, Option, none,
  some, List, [], ◌∷◌, ◌++◌, ◌==◌, ltb, if◌then◌else◌, update, update_self, update_other,
  Bool-cases, Option-cases, inl, inr, arith,
}
use ferp.Common.Bits.{u32_mod, u64_mod}
use ferp.Common.Sums.{sum_below, sum_below-next}
use ferp.Profiler.{hash_stack}
use ferp.HeapProfiler.{
  Bucket, HeapProfile, hash_table_size, empty_bucket, signed, search_chain, new_bucket, get_bucket,
}
use ferp.HeapProfiler.Leaks.{adjust_by_ignored_objects}

-- The sums of UnparseBucket.
unfoldable pub count_bucket : Bucket → Bucket → Bucket
count_bucket profile b = record profile {
  allocs = (profile.allocs + b.allocs) % u32_mod;
  alloc_size = (profile.alloc_size + b.alloc_size) % u64_mod;
  frees = (profile.frees + b.frees) % u32_mod;
  free_size = (profile.free_size + b.free_size) % u64_mod;
}

unfoldable pub count_buckets : List ℕ → (ℕ → Bucket) → Bucket → Bucket
count_buckets [] bucket profile = profile
count_buckets (b ∷ bs) bucket profile = count_buckets bs bucket (count_bucket profile (bucket b))

-- The buckets of n chains of the table.
unfoldable pub listed : ℕ → ℕ → (ℕ → List ℕ) → List ℕ
listed zero at table = []
listed (suc n) at table = table at ++ listed n (at + 1) table

abbrev pub in_use : Bucket → ℕ
in_use b = (b.alloc_size + u64_mod - b.free_size) % u64_mod

pub by_allocated_space : Bucket → Bucket → Bool
by_allocated_space a b = ltb (signed (in_use b)) (signed (in_use a))

-- std::sort with that order.
pub insert_sorted : (ℕ → Bucket) → ℕ → List ℕ → List ℕ
insert_sorted bucket b [] = b ∷ []
insert_sorted bucket b (x ∷ xs) =
    let rest = insert_sorted bucket b xs in
    if by_allocated_space (bucket x) (bucket b) then x ∷ rest else b ∷ x ∷ xs

pub sort : (ℕ → Bucket) → List ℕ → List ℕ
sort bucket [] = []
sort bucket (b ∷ bs) = insert_sorted bucket b (sort bucket bs)

-- The profile that is left, and the sums; `profile` are those from before.
unfoldable pub get_heap_profile : List ℕ → Bucket → HeapProfile → Option (HeapProfile × Bucket)
get_heap_profile ignored profile p =
    if p.is_on
    then (let list = sort p.bucket (listed hash_table_size 0 p.table) in
        elim (adjust_by_ignored_objects false ignored p) [
          | none ↦ none
          | some p' ↦ elim (adjust_by_ignored_objects true ignored p') [
            | none ↦ none
            | some p'' ↦ some (p'', count_buckets list p'.bucket empty_bucket)
          ]
        ])
    else some (p, profile)

unfoldable pub sum_over : List ℕ → (ℕ → ℕ) → ℕ
sum_over [] f = 0
sum_over (b ∷ bs) f = f b + sum_over bs f

-- The table has every bucket once.
abbrev pub IsListed : HeapProfile → Type 0
IsListed p = (f : ℕ → ℕ) → sum_over (listed hash_table_size 0 p.table) f ≡ sum_below f p.num_buckets

sum_over-append :
    (xs ys : List ℕ) (f : ℕ → ℕ) → sum_over (xs ++ ys) f ≡ sum_over xs f + sum_over ys f
unfolding sum_over
sum_over-append [] ys f = omega arith
sum_over-append (x ∷ xs) ys f = omega (arith, sum_over-append xs ys f)

sum_over-insert_sorted :
    (bucket : ℕ → Bucket) (b : ℕ) (xs : List ℕ) (f : ℕ → ℕ)
    → sum_over (insert_sorted bucket b xs) f ≡ f b + sum_over xs f
unfolding insert_sorted sum_over
sum_over-insert_sorted bucket b [] f = refl
sum_over-insert_sorted bucket b (x ∷ xs) f = ground (arith, sum_over-insert_sorted bucket b xs f)

pub sum_over-sort :
    (bucket : ℕ → Bucket) (xs : List ℕ) (f : ℕ → ℕ) → sum_over (sort bucket xs) f ≡ sum_over xs f
unfolding sort sum_over
sum_over-sort bucket [] f = refl
sum_over-sort bucket (x ∷ xs) f =
    omega (arith, sum_over-insert_sorted bucket x (sort bucket xs) f, sum_over-sort bucket xs f)

-- A bucket at the front of a chain, before or among those listed.
listed_before :
    (n at k x : ℕ) (t : ℕ → List ℕ) (f : ℕ → ℕ)
    → k < at
    → sum_over (listed n at (update t k (x ∷ t k))) f ≡ sum_over (listed n at t) f
unfolding listed
listed_before zero at k x t f l = refl
listed_before (suc n) at k x t f l =
    let same = update_other t k (x ∷ t k) at (λ e. omega arith) in
    omega (
      arith,
      sum_over-append (update t k (x ∷ t k) at) (listed n (at + 1) (update t k (x ∷ t k))) f,
      sum_over-append (t at) (listed n (at + 1) t) f,
      ap (λ xs. sum_over xs f) same,
      listed_before n (at + 1) k x t f (omega arith),
    )

listed_among :
    (n at k x : ℕ) (t : ℕ → List ℕ) (f : ℕ → ℕ)
    → at ≤ k
    → k < at + n
    → sum_over (listed n at (update t k (x ∷ t k))) f ≡ f x + sum_over (listed n at t) f
unfolding listed sum_over
listed_among zero at k x t f l h = absurd (omega arith)
listed_among (suc n) at k x t f l h =
    let parts =
      sum_over-append (update t k (x ∷ t k) at) (listed n (at + 1) (update t k (x ∷ t k))) f in
    let parts' = sum_over-append (t at) (listed n (at + 1) t) f in
    elim (Bool-cases (at == k)) [
      | inl e ↦
          let same : at ≡ k = ground arith in
          let chain : update t k (x ∷ t k) at ≡ x ∷ t at =
            ap (update t k (x ∷ t k)) same
            ∙ update_self t k (x ∷ t k)
            ∙ ap (λ i. x ∷ t i) (sym same) in
          omega (
            arith,
            parts,
            parts',
            ap (λ xs. sum_over xs f) chain,
            listed_before n (at + 1) k x t f (omega arith),
          )
      | inr e ↦
          let other : k < at + 1 → k ≡ at = λ q. omega arith in
          let chain : update t k (x ∷ t k) at ≡ t at =
            update_other t k (x ∷ t k) at (λ q. absurd (ground (arith, q, e))) in
          omega (
            arith,
            parts,
            parts',
            ap (λ xs. sum_over xs f) chain,
            listed_among n (at + 1) k x t f (ground (arith, e)) (omega arith),
          )
    ]

pub get_bucket-IsListed :
    (depth : ℕ) (key : ℕ → ℕ) (p : HeapProfile) → IsListed p → IsListed (get_bucket depth key p).1
unfolding get_bucket new_bucket
get_bucket-IsListed depth key p l f =
    let h = hash_stack depth key 0 0 in
    let buck = h % u32_mod % hash_table_size in
    elim (Option-cases (search_chain (p.table buck) p.bucket h depth key)) [
      | inr (b, e) ↦ rw (e, get_bucket) (l f)
      | inl e ↦
          rw (e, get_bucket)
            (omega (
              arith,
              listed_among hash_table_size 0 buck p.num_buckets p.table f (omega arith)
                  (omega arith),
              l f,
              sum_below-next f p.num_buckets,
            ))
    ]
