-- ===== src/HeapProfiler/Allocs.antt =====
-- RecordAlloc of src/heap-profiler.cpp keeps the buckets in step with the log.
use ferp.Common.{
  ℕ, ◌+◌, ◌-◌, ◌%◌, ltb, leb, ◌≡◌, ◌∙◌, ap, sym, subst, refl, Bool, true, false, Option, some, List,
  ◌∷◌, ◌==◌, if◌then◌else◌, update, Bool-cases, inl, inr, arith, update_self, update_other,
}
use ferp.Common.Bits.{u32_mod, u64_mod}
use ferp.Traces.{frames}
use ferp.AddressMap.{find, insert}
use ferp.AddressMap.Lookup.{IsValid, find-insert, insert-IsValid}
use ferp.HeapProfiler.{
  signed, Bucket, AllocValue, HeapProfile, empty_bucket, get_bucket, count_alloc, count_free,
  consider_dump, record_alloc,
}
use ferp.HeapProfiler.Weights.{stack_of, Got, get_bucket-Got}
use ferp.HeapProfiler.Recorded.{
  Allocation, Log, log_alloc, sum_of, Matches, Matches-grow, Counted, Totalled, Recorded,
  count_alloc-Counted,
}

either :
    (l : Log) (b : Bool) (x y : HeapProfile)
    → Recorded x l
    → Recorded y l
    → Recorded (if b then x else y) l
either l true x y h k = h
either l false x y h k = k

abbrev marked : ℕ → ℕ → HeapProfile → HeapProfile
marked last high p = record p { last_dump = last; high_water_mark = high }

marked-Recorded :
    (last high : ℕ) (p : HeapProfile) (l : Log) → Recorded p l → Recorded (marked last high p) l
marked-Recorded last high p l r = record {
  on = r.on;
  chains = r.chains;
  valid = r.valid;
  matches = r.matches;
  counted = r.counted;
  totalled = r.totalled;
}

-- A dump changes nothing that is recorded.
consider_dump-Recorded :
    (i j : ℕ) (p : HeapProfile) (l : Log) → Recorded p l → Recorded (consider_dump i j p) l
unfolding consider_dump
consider_dump-Recorded i j p l r =
    let inuse_bytes = (p.total.alloc_size + u64_mod - p.total.free_size) % u64_mod in
    let by_space = marked p.last_dump inuse_bytes p in
    let by_total = marked p.total.alloc_size p.high_water_mark p in
    let space_test = ltb (signed ((p.high_water_mark + j) % u64_mod)) (signed inuse_bytes) in
    either l p.dumping p
      (if leb (signed ((p.last_dump + i) % u64_mod)) (signed p.total.alloc_size)
        then by_total
        else (if space_test then by_space else p))
      r
      (either l (leb (signed ((p.last_dump + i) % u64_mod)) (signed p.total.alloc_size)) by_total
        (if space_test then by_space else p)
        (marked-Recorded p.total.alloc_size p.high_water_mark p l r)
        (either l space_test by_space p (marked-Recorded p.last_dump inuse_bytes p l r) r))

pub update-stack :
    (bucket : ℕ → Bucket) (b : ℕ) (new : Bucket) (j : ℕ)
    → stack_of new ≡ stack_of (bucket b)
    → stack_of (update bucket b new j) ≡ stack_of (bucket j)
update-stack bucket b new j h = elim (Bool-cases (j == b)) [
  | inl e ↦ let same : j ≡ b = ground arith in rw same (ap stack_of (update_self bucket b new) ∙ h)
  | inr e ↦ ap stack_of (update_other bucket b new j (λ same. ground arith))
]

stack_counted : (bytes : ℕ) (b : Bucket) → stack_of (count_alloc bytes b) ≡ stack_of b
unfolding count_alloc stack_of
stack_counted bytes b = refl

pub stack_freed : (bytes : ℕ) (b : Bucket) → stack_of (count_free bytes b) ≡ stack_of b
unfolding count_free stack_of
stack_freed bytes b = refl

-- What GetBucket leaves has the same counts.
Got-Counted :
    (depth : ℕ) (key : ℕ → ℕ) (p : HeapProfile) (b : ℕ) (p' : HeapProfile) (l : Log)
    → Got depth key p b p'
    → Counted p.bucket p.num_buckets l
    → Counted p'.bucket p'.num_buckets l
unfolding empty_bucket
Got-Counted depth key p b p' l g c = record {
  allocs = λ q. ap (λ w. w % u32_mod) (g.weights q (λ b. b.allocs) (λ h d k. refl)) ∙ c.allocs q;
  frees = λ q. ap (λ w. w % u32_mod) (g.weights q (λ b. b.frees) (λ h d k. refl)) ∙ c.frees q;
  alloc_size =
      λ q. ap (λ w. w % u64_mod) (g.weights q (λ b. b.alloc_size) (λ h d k. refl)) ∙ c.alloc_size q;
  free_size =
      λ q. ap (λ w. w % u64_mod) (g.weights q (λ b. b.free_size) (λ h d k. refl)) ∙ c.free_size q;
}

count_alloc-Totalled :
    (total : Bucket) (live : ℕ → Option Allocation) (s : List ℕ) (bytes : ℕ) (l : Log)
    → Totalled total l
    → Totalled
        (count_alloc bytes total)
        (record { live = live; made = (s, bytes) ∷ l.made; freed = l.freed })
unfolding count_alloc sum_of
count_alloc-Totalled total live s bytes l t = record {
  allocs = omega (arith, t.allocs);
  frees = t.frees;
  alloc_size = omega (arith, t.alloc_size);
  free_size = t.free_size;
}

pub count_free-Totalled :
    (total : Bucket) (live : ℕ → Option Allocation) (s : List ℕ) (bytes : ℕ) (l : Log)
    → Totalled total l
    → Totalled
        (count_free bytes total)
        (record { live = live; made = l.made; freed = (s, bytes) ∷ l.freed })
unfolding count_free sum_of
count_free-Totalled total live s bytes l t = record {
  frees = omega (arith, t.frees);
  allocs = t.allocs;
  free_size = omega (arith, t.free_size);
  alloc_size = t.alloc_size;
}

-- The state that RecordAlloc leaves before the decision for a dump.
abbrev charged : ℕ → ℕ → ℕ → HeapProfile → HeapProfile
charged ptr bytes b p = record p {
  bucket = update p.bucket b (count_alloc bytes (p.bucket b));
  total = count_alloc bytes p.total;
  allocation = insert p.allocation ptr (record { bucket = some b; bytes = bytes });
}

charged-Recorded :
    (ptr bytes depth : ℕ) (key : ℕ → ℕ) (p : HeapProfile) (b : ℕ) (p' : HeapProfile) (l : Log)
    → Got depth key p b p'
    → Recorded p l
    → Recorded (charged ptr bytes b p') (log_alloc ptr (frames depth key 0, bytes) l)
unfolding log_alloc
charged-Recorded ptr bytes depth key p b p' l g r =
    let new = count_alloc bytes (p'.bucket b) in
    let v : AllocValue = record { bucket = some b; bytes = bytes } in
    let live = λ (x : ℕ). if x == ptr then some (frames depth key 0, bytes) else l.live x in
    let valid : IsValid p'.allocation = subst IsValid (sym g.rest.0) r.valid in
    let kept = λ (j : ℕ). update-stack p'.bucket b new j (stack_counted bytes (p'.bucket b)) in
    record {
      on = g.rest.2 ∙ r.on;
      chains = g.chains;
      valid = insert-IsValid p'.allocation ptr v valid;
      matches = λ a. rw (find-insert p'.allocation ptr a v) (elim (Bool-cases (a == ptr)) [
        | inl e ↦ rw e (b, refl, g.inside, kept b ∙ g.stack, refl)
        | inr e ↦ rw e (
            Matches-grow p.bucket (update p'.bucket b new) p.num_buckets p'.num_buckets _ (l.live a)
              g.more (λ j h. kept j ∙ g.old j h)
              (subst (λ m. Matches p.bucket p.num_buckets (find m a) (l.live a)) (sym g.rest.0)
                (r.matches a)))
      ]);
      counted =
          subst
            (λ s.
              Counted (update p'.bucket b new) p'.num_buckets
                (record { live = live; made = (s, bytes) ∷ l.made; freed = l.freed }))
            g.stack
            (count_alloc-Counted p'.bucket p'.num_buckets b bytes live l g.inside
              (Got-Counted depth key p b p' l g r.counted));
      totalled =
          count_alloc-Totalled p'.total live (frames depth key 0) bytes l
            (subst (λ t. Totalled t l) (sym g.rest.1) r.totalled);
    }

record_alloc-on :
    (i j ptr bytes depth : ℕ) (key : ℕ → ℕ) (p : HeapProfile)
    → p.is_on ≡ true
    → record_alloc i j ptr bytes depth key p
      ≡ consider_dump i j (charged ptr bytes (get_bucket depth key p).0 (get_bucket depth key p).1)
unfolding record_alloc
record_alloc-on i j ptr bytes depth key p on =
    let done =
      consider_dump i j (charged ptr bytes (get_bucket depth key p).0 (get_bucket depth key p).1) in
    subst (λ x. (if x then done else p) ≡ done) (sym on) refl

pub record_alloc-Recorded :
    (i j ptr bytes depth : ℕ) (key : ℕ → ℕ) (p : HeapProfile) (l : Log)
    → Recorded p l
    → Recorded
        (record_alloc i j ptr bytes depth key p)
        (log_alloc ptr (frames depth key 0, bytes) l)
record_alloc-Recorded i j ptr bytes depth key p l r =
    let b = (get_bucket depth key p).0 in
    let p' = (get_bucket depth key p).1 in
    let l' = log_alloc ptr (frames depth key 0, bytes) l in
    subst (λ x. Recorded x l') (sym (record_alloc-on i j ptr bytes depth key p r.on))
      (consider_dump-Recorded i j (charged ptr bytes b p') l'
        (charged-Recorded ptr bytes depth key p b p' l (get_bucket-Got depth key p r.chains) r))
