-- ===== src/HeapProfiler/Frees.antt =====
-- RecordFree of src/heap-profiler.cpp keeps the buckets in step with the log.
use ferp.Common.{
  ℕ, ◌<◌, ◌≡◌, ◌∙◌, ap, sym, subst, refl, true, Option, none, some, ◌∷◌, ◌==◌, if◌then◌else◌,
  update, Bool-cases, Option-cases, inl, inr, arith,
}
use ferp.AddressMap.{find, find_and_remove}
use ferp.AddressMap.Lookup.{IsValid, find-find_and_remove}
use ferp.HeapProfiler.{AllocValue, HeapProfile, count_free, record_free}
use ferp.HeapProfiler.Weights.{stack_of}
use ferp.HeapProfiler.Recorded.{
  Allocation, Log, log_free, Matches, Matches-grow, Recorded, count_free-Counted,
}
use ferp.HeapProfiler.Allocs.{count_free-Totalled, stack_freed, update-stack}

abbrev freed_from : ℕ → ℕ → ℕ → HeapProfile → HeapProfile
freed_from ptr b bytes p = record p {
  bucket = update p.bucket b (count_free bytes (p.bucket b));
  total = count_free bytes p.total;
  allocation = (find_and_remove p.allocation ptr).1;
}

-- The body of RecordFree where profiling is on, for what there is in the map.
abbrev answer_for : ℕ → HeapProfile → Option AllocValue → Option HeapProfile
answer_for ptr p none = some (record p { allocation = (find_and_remove p.allocation ptr).1 })
answer_for ptr p (some v) = elim v.bucket [
  | none ↦ none
  | some b ↦ some (freed_from ptr b v.bytes p)
]

record_free-on :
    (ptr : ℕ) (p : HeapProfile)
    → p.is_on ≡ true
    → record_free ptr p ≡ answer_for ptr p (find_and_remove p.allocation ptr).0
unfolding record_free
record_free-on ptr p on =
    subst
      (λ x.
        (if x then answer_for ptr p (find_and_remove p.allocation ptr).0 else some p)
        ≡ answer_for ptr p (find_and_remove p.allocation ptr).0)
      (sym on) refl

log_free-unknown : (ptr : ℕ) (l : Log) → l.live ptr ≡ none → log_free ptr l ≡ l
unfolding log_free
log_free-unknown ptr l k =
    subst
      (λ x.
        (elim x [
          | none ↦ l
          | some a ↦ record l {
            live = λ x. if x == ptr then none else l.live x;
            freed = a ∷ l.freed;
          }
        ])
        ≡ l)
      (sym k) refl

abbrev without : ℕ → Allocation → Log → Log
without ptr a l = record l { live = λ x. if x == ptr then none else l.live x; freed = a ∷ l.freed }

log_free-known :
    (ptr : ℕ) (a : Allocation) (l : Log) → l.live ptr ≡ some a → log_free ptr l ≡ without ptr a l
unfolding log_free
log_free-known ptr a l k =
    subst (λ x. (elim x [ none ↦ l | some b ↦ without ptr b l ]) ≡ without ptr a l) (sym k) refl

-- What there is to find, with the log's word for it.
module _ (ptr : ℕ) (p : HeapProfile) (l : Log) (r : Recorded p l) where
  removed :
      (a : ℕ)
      → find (find_and_remove p.allocation ptr).1 a
        ≡ (if a == ptr then none else find p.allocation a)
  removed a = (find-find_and_remove p.allocation ptr a r.valid).1

  found : (find_and_remove p.allocation ptr).0 ≡ find p.allocation ptr
  found = (find-find_and_remove p.allocation ptr ptr r.valid).0

  find_and_remove-IsValid : IsValid (find_and_remove p.allocation ptr).1
  find_and_remove-IsValid = (find-find_and_remove p.allocation ptr ptr r.valid).2

  unknown-Recorded :
      find p.allocation ptr ≡ none
      → l.live ptr ≡ none
      → (p' : HeapProfile) × (record_free ptr p ≡ some p') × Recorded p' (log_free ptr l)
  unknown-Recorded e k =
      let p' : HeapProfile = record p { allocation = (find_and_remove p.allocation ptr).1 } in
      (
        p',
        record_free-on ptr p r.on ∙ ap (answer_for ptr p) (found ∙ e),
        subst (Recorded p') (sym (log_free-unknown ptr l k)) (record {
          on = r.on;
          chains = r.chains;
          valid = find_and_remove-IsValid;
          counted = r.counted;
          totalled = r.totalled;
          matches = λ a. rw (removed a) (elim (Bool-cases (a == ptr)) [
            | inl t ↦
                let same : a ≡ ptr = ground arith in
                let gone : l.live a ≡ none = ap l.live same ∙ k in rw (t, gone) tt
            | inr t ↦ rw t (r.matches a)
          ]);
        }),
      )

  known-Recorded :
      (v : AllocValue) (b : ℕ)
      → find p.allocation ptr ≡ some v
      → v.bucket ≡ some b
      → b < p.num_buckets
      → l.live ptr ≡ some (stack_of (p.bucket b), v.bytes)
      → (p' : HeapProfile) × (record_free ptr p ≡ some p') × Recorded p' (log_free ptr l)
  known-Recorded v b e f h k =
      let p' = freed_from ptr b v.bytes p in
      let a : Allocation = (stack_of (p.bucket b), v.bytes) in
      let new = count_free v.bytes (p.bucket b) in
      let live = λ (x : ℕ). if x == ptr then none else l.live x in
      let kept = λ (j : ℕ). update-stack p.bucket b new j (stack_freed v.bytes (p.bucket b)) in
      (
        p',
        record_free-on ptr p r.on
            ∙ ap (answer_for ptr p) (found ∙ e)
            ∙ ap (λ o. elim o [ none ↦ none | some b ↦ some (freed_from ptr b v.bytes p) ]) f,
        subst (Recorded p') (sym (log_free-known ptr a l k)) (record {
          on = r.on;
          chains = r.chains;
          valid = find_and_remove-IsValid;
          counted = count_free-Counted p.bucket p.num_buckets b v.bytes live l h r.counted;
          totalled = count_free-Totalled p.total live (stack_of (p.bucket b)) v.bytes l r.totalled;
          matches = λ x. rw (removed x) (elim (Bool-cases (x == ptr)) [
            | inl t ↦ rw t tt
            | inr t ↦ rw t (
                Matches-grow p.bucket (update p.bucket b new) p.num_buckets p.num_buckets
                  (find p.allocation x) (l.live x) (omega arith) (λ j i. kept j) (r.matches x))
          ]);
        }),
      )

  pub record_free-Recorded :
      (p' : HeapProfile) × (record_free ptr p ≡ some p') × Recorded p' (log_free ptr l)
  record_free-Recorded =
      let m = r.matches ptr in
      elim (Option-cases (find p.allocation ptr)) [
        | inl e ↦ elim (Option-cases (l.live ptr)) [
          | inl k ↦ unknown-Recorded e k
          | inr (a, k) ↦ absurd (
              subst (λ w. Matches p.bucket p.num_buckets none w) k
                (subst (λ o. Matches p.bucket p.num_buckets o (l.live ptr)) e m))
        ]
        | inr (v, e) ↦ elim (Option-cases (l.live ptr)) [
          | inl k ↦ absurd (
              subst (λ w. Matches p.bucket p.num_buckets (some v) w) k
                (subst (λ o. Matches p.bucket p.num_buckets o (l.live ptr)) e m))
          | inr (a, k) ↦
              let (b, f, h, same_stack, same_bytes) =
                subst (λ w. Matches p.bucket p.num_buckets (some v) w) k
                  (subst (λ o. Matches p.bucket p.num_buckets o (l.live ptr)) e m) in
              known-Recorded v b e f h (k ∙ λ i. some (sym same_stack i, sym same_bytes i))
        ]
      ]
