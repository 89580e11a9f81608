-- ===== src/HeapProfiler/Recorded.antt =====
-- RecordAlloc and RecordFree of src/heap-profiler.cpp against a log of what was allocated and
-- freed by whom.
use ferp.Common.{
  ℕ, ◌+◌, ◌%◌, ◌<◌, ◌≤◌, ◌≡◌, ◌∙◌, ap, Bool, true, false, Option, none, some, List, [], ◌∷◌, ◌==◌,
  if◌then◌else◌, update, arith,
}
use ferp.Common.Bits.{u32_mod, u64_mod}
use ferp.AddressMap.{find}
use ferp.AddressMap.Lookup.{IsValid}
use ferp.HeapProfiler.{Bucket, AllocValue, HeapProfile, count_alloc, count_free}
use ferp.HeapProfiler.Weights.{stack_of, bucket_weight, weight, weight-update, AreBelow}

-- The stack and the bytes of an allocation.
abbrev pub Allocation : Type 0
Allocation = List ℕ × ℕ

-- The live allocations by address, and all that were made and freed.
pub record Log : Type 0 where
  pub live : ℕ → Option Allocation
  pub made : List Allocation
  pub freed : List Allocation

unfoldable pub log_alloc : ℕ → Allocation → Log → Log
log_alloc ptr a l = record l {
  live = λ x. if x == ptr then some a else l.live x;
  made = a ∷ l.made;
}

unfoldable pub log_free : ℕ → Log → Log
log_free ptr l = elim (l.live ptr) [
  | none ↦ l
  | some a ↦ record l { live = λ x. if x == ptr then none else l.live x; freed = a ∷ l.freed }
]

-- The sum over the allocations of the stacks in a set.
unfoldable pub sum_of : (List ℕ → Bool) → (ℕ → ℕ) → List Allocation → ℕ
sum_of q g [] = 0
sum_of q g ((s, n) ∷ rest) = (if q s then g n else 0) + sum_of q g rest

abbrev pub one : ℕ → ℕ
one n = 1

abbrev pub itself : ℕ → ℕ
itself n = n

-- An entry of the map, for what the log has at the address.
abbrev pub Matches : (ℕ → Bucket) → ℕ → Option AllocValue → Option Allocation → Type 0
Matches bucket n none none = Unit {0}
Matches bucket n none (some a) = ⊥
Matches bucket n (some v) none = ⊥
Matches bucket n (some v) (some a) =
    (b : ℕ) × (v.bucket ≡ some b) × (b < n) × (stack_of (bucket b) ≡ a.0) × (v.bytes ≡ a.1)

-- The four counts, of the buckets of every set of stacks.
pub record Counted (bucket : ℕ → Bucket) (n : ℕ) (l : Log) : Type 0 where
  pub allocs :
      (q : List ℕ → Bool)
      → weight q (λ b. b.allocs) bucket n % u32_mod ≡ sum_of q one l.made % u32_mod
  pub frees :
      (q : List ℕ → Bool)
      → weight q (λ b. b.frees) bucket n % u32_mod ≡ sum_of q one l.freed % u32_mod
  pub alloc_size :
      (q : List ℕ → Bool)
      → weight q (λ b. b.alloc_size) bucket n % u64_mod ≡ sum_of q itself l.made % u64_mod
  pub free_size :
      (q : List ℕ → Bool)
      → weight q (λ b. b.free_size) bucket n % u64_mod ≡ sum_of q itself l.freed % u64_mod

abbrev pub all : List ℕ → Bool
all s = true

pub record Totalled (total : Bucket) (l : Log) : Type 0 where
  pub allocs : total.allocs ≡ sum_of all one l.made % u32_mod
  pub frees : total.frees ≡ sum_of all one l.freed % u32_mod
  pub alloc_size : total.alloc_size ≡ sum_of all itself l.made % u64_mod
  pub free_size : total.free_size ≡ sum_of all itself l.freed % u64_mod

pub record Recorded (p : HeapProfile) (l : Log) : Type 0 where
  pub on : p.is_on ≡ true
  pub chains : (j : ℕ) → AreBelow p.num_buckets (p.table j)
  pub valid : IsValid p.allocation
  pub matches : (a : ℕ) → Matches p.bucket p.num_buckets (find p.allocation a) (l.live a)
  pub counted : Counted p.bucket p.num_buckets l
  pub totalled : Totalled p.total l

-- The map and the buckets change, and what is there keeps its stack.
pub Matches-grow :
    (bucket bucket' : ℕ → Bucket) (n n' : ℕ) (v : Option AllocValue) (a : Option Allocation)
    → n ≤ n'
    → ((j : ℕ) → j < n → stack_of (bucket' j) ≡ stack_of (bucket j))
    → Matches bucket n v a
    → Matches bucket' n' v a
Matches-grow bucket bucket' n n' none none l h m = tt
Matches-grow bucket bucket' n n' none (some a) l h m = m
Matches-grow bucket bucket' n n' (some v) none l h m = m
Matches-grow bucket bucket' n n' (some v) (some a) l h (b, e, k, s, t) =
    (b, e, omega arith, h b k ∙ s, t)

-- One count that goes up in one bucket, as a word of 32 bits, and of 64.
raise32 :
    (on : Bool) (w w' x e t : ℕ)
    → w' + (if on then x else 0) ≡ w + (if on then (x + e) % u32_mod else 0)
    → w % u32_mod ≡ t % u32_mod
    → w' % u32_mod ≡ ((if on then e else 0) + t) % u32_mod
raise32 true w w' x e t h k = omega (arith, h, k)
raise32 false w w' x e t h k = omega (arith, h, k)

raise64 :
    (on : Bool) (w w' x e t : ℕ)
    → w' + (if on then x else 0) ≡ w + (if on then (x + e) % u64_mod else 0)
    → w % u64_mod ≡ t % u64_mod
    → w' % u64_mod ≡ ((if on then e else 0) + t) % u64_mod
raise64 true w w' x e t h k = omega (arith, h, k)
raise64 false w w' x e t h k = omega (arith, h, k)

-- A count that stays.
stay : (on : Bool) (w w' x : ℕ) → w' + (if on then x else 0) ≡ w + (if on then x else 0) → w' ≡ w
stay on w w' x h = omega (arith, h)

pub count_alloc-Counted :
    (bucket : ℕ → Bucket) (n b bytes : ℕ) (live : ℕ → Option Allocation) (l : Log)
    → b < n
    → Counted bucket n l
    → Counted
        (update bucket b (count_alloc bytes (bucket b)))
        n
        (record { live = live; made = (stack_of (bucket b), bytes) ∷ l.made; freed = l.freed })
unfolding count_alloc bucket_weight sum_of stack_of
count_alloc-Counted bucket n b bytes live l h c =
    let old = bucket b in
    let new = count_alloc bytes old in
    let s = stack_of old in
    record {
      allocs = λ q.
          raise32 (q s) (weight q (λ b. b.allocs) bucket n) _ old.allocs 1 (sum_of q one l.made)
            (weight-update q (λ b. b.allocs) bucket n b new h) (c.allocs q);
      frees = λ q.
          ap (λ w. w % u32_mod)
            (stay (q s) (weight q (λ b. b.frees) bucket n) _ old.frees
              (weight-update q (λ b. b.frees) bucket n b new h))
          ∙ c.frees q;
      alloc_size = λ q.
          raise64 (q s) (weight q (λ b. b.alloc_size) bucket n) _ old.alloc_size bytes
            (sum_of q itself l.made) (weight-update q (λ b. b.alloc_size) bucket n b new h)
            (c.alloc_size q);
      free_size = λ q.
          ap (λ w. w % u64_mod)
            (stay (q s) (weight q (λ b. b.free_size) bucket n) _ old.free_size
              (weight-update q (λ b. b.free_size) bucket n b new h))
          ∙ c.free_size q;
    }

pub count_free-Counted :
    (bucket : ℕ → Bucket) (n b bytes : ℕ) (live : ℕ → Option Allocation) (l : Log)
    → b < n
    → Counted bucket n l
    → Counted
        (update bucket b (count_free bytes (bucket b)))
        n
        (record { live = live; made = l.made; freed = (stack_of (bucket b), bytes) ∷ l.freed })
unfolding count_free bucket_weight sum_of stack_of
count_free-Counted bucket n b bytes live l h c =
    let old = bucket b in
    let new = count_free bytes old in
    let s = stack_of old in
    record {
      frees = λ q.
          raise32 (q s) (weight q (λ b. b.frees) bucket n) _ old.frees 1 (sum_of q one l.freed)
            (weight-update q (λ b. b.frees) bucket n b new h) (c.frees q);
      allocs = λ q.
          ap (λ w. w % u32_mod)
            (stay (q s) (weight q (λ b. b.allocs) bucket n) _ old.allocs
              (weight-update q (λ b. b.allocs) bucket n b new h))
          ∙ c.allocs q;
      free_size = λ q.
          raise64 (q s) (weight q (λ b. b.free_size) bucket n) _ old.free_size bytes
            (sum_of q itself l.freed) (weight-update q (λ b. b.free_size) bucket n b new h)
            (c.free_size q);
      alloc_size = λ q.
          ap (λ w. w % u64_mod)
            (stay (q s) (weight q (λ b. b.alloc_size) bucket n) _ old.alloc_size
              (weight-update q (λ b. b.alloc_size) bucket n b new h))
          ∙ c.alloc_size q;
    }
