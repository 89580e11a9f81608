-- ===== src/HeapProfiler/Leaked.antt =====
-- What src/heap-profiler.cpp counts for a leak check, from StartForLeaks on.
use ferp.Common.{
  ℕ, zero, suc, ◌+◌, ◌%◌, ◌≡◌, ◌∙◌, ap, sym, refl, subst, Bool, true, some, none, List, [], ◌∷◌,
  ◌==◌, ◌-◌, ◌&&◌, update, Bool-cases, Option-cases, inl, inr, arith,
}
use ferp.Common.Bits.{u32_mod, u64_mod}
use ferp.Common.Sums.{sum_below, sum_below_none}
use ferp.AddressMap.{new, insert, find_and_remove}
use ferp.AddressMap.Placed.{IsPlaced}
use ferp.AddressMap.Visited.{new-IsPlaced, insert-IsPlaced, find_and_remove-IsPlaced}
use ferp.Profiler.{hash_stack}
use ferp.HeapProfiler.{
  Bucket, AllocValue, HeapProfile, hash_table_size, empty_bucket, search_chain, count_alloc,
  count_free, consider_dump, new_bucket, get_bucket, record_alloc, record_free, start_for_leaks,
  early_start_locked,
}
use ferp.HeapProfiler.Recorded.{Recorded}
use ferp.HeapProfiler.Run.{
  Event, alloc, free, run, log, empty_log, started, IsOff, started-Recorded, run-Recorded,
}
use ferp.HeapProfiler.Leaks.{InRange}
use ferp.HeapProfiler.Leaks.Moved.{AllInRange}
use ferp.HeapProfiler.Dump.{listed, sum_over, IsListed, get_bucket-IsListed}

-- What the thread of the leak check allocates for itself it has freed.
unfoldable pub is_disabled_quiet : Bucket → Bool
is_disabled_quiet d =
    (d.alloc_size + u64_mod - d.free_size) % u64_mod == 0
    && (d.allocs + u32_mod - d.frees) % u32_mod == 0

abbrev pub is_quiet : HeapProfile → Bool
is_quiet p = is_disabled_quiet p.self_disabled

-- The table has every bucket once, the counts of the buckets are words, and the entries of the map
-- are where they belong.
pub record Countable (p : HeapProfile) : Type 0 where
  pub once : IsListed p
  pub words : AllInRange p.bucket
  pub placed : IsPlaced p.allocation
  pub quiet : is_quiet p ≡ true

IsListed-same :
    (p p' : HeapProfile)
    → p'.table ≡ p.table
    → p'.num_buckets ≡ p.num_buckets
    → IsListed p
    → IsListed p'
IsListed-same p p' t n l f =
    ap (λ x. sum_over (listed hash_table_size 0 x) f) t ∙ l f ∙ ap (λ x. sum_below f x) (sym n)

update-AllInRange :
    (bucket : ℕ → Bucket) (b : ℕ) (x : Bucket)
    → AllInRange bucket
    → InRange x
    → AllInRange (update bucket b x)
update-AllInRange bucket b x r y j = elim (Bool-cases (j == b)) [
  | inl t ↦ rw t y
  | inr t ↦ rw t (r j)
]

get_bucket-same :
    (depth : ℕ) (key : ℕ → ℕ) (p : HeapProfile)
    → ((get_bucket depth key p).1.allocation ≡ p.allocation)
      × ((get_bucket depth key p).1.self_disabled ≡ p.self_disabled)
unfolding get_bucket new_bucket
get_bucket-same depth key p = (ground arith, ground arith)

get_bucket-Countable :
    (depth : ℕ) (key : ℕ → ℕ) (p : HeapProfile) → Countable p → Countable (get_bucket depth key p).1
unfolding get_bucket new_bucket empty_bucket
get_bucket-Countable depth key p c = record {
  once = get_bucket-IsListed depth key p c.once;
  words =
      let h = hash_stack depth key 0 0 in
      elim (Option-cases
        (search_chain (p.table (h % u32_mod % hash_table_size)) p.bucket h depth key)) [
          | inr (b, e) ↦ rw (e, get_bucket) c.words
          | inl e ↦
              rw (e, get_bucket)
                (update-AllInRange p.bucket p.num_buckets
                  (record empty_bucket { hash = h; depth = depth; stack = key }) c.words
                  (omega arith, omega arith))
        ];
  placed = subst IsPlaced (sym (get_bucket-same depth key p).0) c.placed;
  quiet = ap is_disabled_quiet (get_bucket-same depth key p).1 ∙ c.quiet;
}

consider_dump-same :
    (i j : ℕ) (p : HeapProfile)
    → ((consider_dump i j p).table ≡ p.table)
      × ((consider_dump i j p).num_buckets ≡ p.num_buckets)
      × ((consider_dump i j p).bucket ≡ p.bucket)
      × ((consider_dump i j p).allocation ≡ p.allocation)
      × ((consider_dump i j p).self_disabled ≡ p.self_disabled)
unfolding consider_dump
consider_dump-same i j p = (ground arith, ground arith, ground arith, ground arith, ground arith)

count_alloc-InRange : (bytes : ℕ) (b : Bucket) → InRange (count_alloc bytes b)
unfolding count_alloc
count_alloc-InRange bytes b = (omega arith, omega arith)

record_alloc-Countable :
    (i j ptr bytes depth : ℕ) (key : ℕ → ℕ) (p : HeapProfile)
    → Countable p
    → Countable (record_alloc i j ptr bytes depth key p)
unfolding record_alloc
record_alloc-Countable i j ptr bytes depth key p c = elim (Bool-cases p.is_on) [
  | inr e ↦
      let same : p ≡ record_alloc i j ptr bytes depth key p = ground (arith, e) in
      subst Countable same c
  | inl e ↦
      let b = (get_bucket depth key p).0 in
      let p1 = (get_bucket depth key p).1 in
      let c1 = get_bucket-Countable depth key p c in
      let p2 : HeapProfile = record p1 {
        bucket = update p1.bucket b (count_alloc bytes (p1.bucket b));
        total = count_alloc bytes p1.total;
        allocation = insert p1.allocation ptr (record { bucket = some b; bytes = bytes });
      } in
      let (t, n, k, a, d) = consider_dump-same i j p2 in
      let same : consider_dump i j p2 ≡ record_alloc i j ptr bytes depth key p =
        ground (arith, e) in
      subst Countable same (record {
        once = IsListed-same p1 (consider_dump i j p2) t n c1.once;
        words = subst AllInRange (sym k) (
            update-AllInRange p1.bucket b (count_alloc bytes (p1.bucket b)) c1.words
              (count_alloc-InRange bytes (p1.bucket b)));
        placed = subst IsPlaced (sym a) (
            insert-IsPlaced p1.allocation ptr (record { bucket = some b; bytes = bytes })
              c1.placed);
        quiet = ap is_disabled_quiet d ∙ c1.quiet;
      })
]

count_free-InRange : (bytes : ℕ) (b : Bucket) → InRange b → InRange (count_free bytes b)
unfolding count_free
count_free-InRange bytes b r = r

record_free-Countable :
    (ptr : ℕ) (p p' : HeapProfile) → record_free ptr p ≡ some p' → Countable p → Countable p'
unfolding record_free
record_free-Countable ptr p p' h c = elim (Bool-cases p.is_on) [
  | inr e ↦ let same : p ≡ p' = ground (arith, e, h) in subst Countable same c
  | inl e ↦
      let m = (find_and_remove p.allocation ptr).1 in
      elim (Option-cases (find_and_remove p.allocation ptr).0) [
        | inl f ↦
            let same : record p { allocation = m } ≡ p' = ground (arith, e, f, h) in
            subst Countable same (record {
              once = c.once;
              words = c.words;
              placed = find_and_remove-IsPlaced p.allocation ptr c.placed;
              quiet = c.quiet;
            })
        | inr (v, f) ↦ elim (Option-cases v.bucket) [
          | inl g ↦ absurd (ground (arith, e, f, g, h))
          | inr (b, g) ↦
              let same : record p {
                bucket = update p.bucket b (count_free v.bytes (p.bucket b));
                total = count_free v.bytes p.total;
                allocation = m;
              }
                  ≡ p' =
                ground (arith, e, f, g, h) in
              subst Countable same (record {
                once = c.once;
                words =
                    update-AllInRange p.bucket b (count_free v.bytes (p.bucket b)) c.words
                      (count_free-InRange v.bytes (p.bucket b) (c.words b));
                placed = find_and_remove-IsPlaced p.allocation ptr c.placed;
                quiet = c.quiet;
              })
        ]
      ]
]

run-Countable :
    (i j : ℕ) (es : List Event) (p p' : HeapProfile)
    → run i j es p ≡ some p'
    → Countable p
    → Countable p'
unfolding run
run-Countable i j [] p p' h c = let same : p ≡ p' = ground (arith, h) in subst Countable same c
run-Countable i j (alloc ptr bytes depth key ∷ es) p p' h c =
    run-Countable i j es (record_alloc i j ptr bytes depth key p) p' h
      (record_alloc-Countable i j ptr bytes depth key p c)
run-Countable i j (free ptr ∷ es) p p' h c = elim (Option-cases (record_free ptr p)) [
  | inl e ↦ absurd (ground (arith, e, h))
  | inr (p1, e) ↦
      let rest : run i j es p1 ≡ some p' = ground (arith, e, h) in
      run-Countable i j es p1 p' rest (record_free-Countable ptr p p1 e c)
]

listed-none : (n at : ℕ) (f : ℕ → ℕ) → sum_over (listed n at (λ i. [])) f ≡ 0
unfolding listed sum_over
listed-none zero at f = refl
listed-none (suc n) at f = listed-none n (at + 1) f

-- The state that StartForLeaks leaves of a profiler that is off.
abbrev pub started_for_leaks : HeapProfile → HeapProfile
started_for_leaks p = record (started [] p) {
  filename_prefix = none;
  need_for_leaks = true;
  self_disabled = empty_bucket;
  self_disabled_allocation = new;
}

pub start_for_leaks-off :
    (p : HeapProfile) → IsOff p → start_for_leaks p ≡ some (started_for_leaks p)
unfolding start_for_leaks early_start_locked
start_for_leaks-off p (off, no_prefix, ready) = ground (arith, off, no_prefix, ready)

started_for_leaks-Recorded : (p : HeapProfile) → Recorded (started_for_leaks p) empty_log
started_for_leaks-Recorded p =
    let r = started-Recorded [] p in
    record {
      on = r.on;
      chains = r.chains;
      valid = r.valid;
      matches = r.matches;
      counted = r.counted;
      totalled = r.totalled;
    }

started_for_leaks-Countable :
    (p : HeapProfile) → AllInRange p.bucket → Countable (started_for_leaks p)
unfolding is_disabled_quiet empty_bucket
started_for_leaks-Countable p r = record {
  once = λ f. listed-none hash_table_size 0 f ∙ sym (sum_below_none f);
  words = r;
  placed = new-IsPlaced AllocValue;
  quiet = refl;
}

-- From StartForLeaks of a profiler that is off, over any allocations and frees.
pub run-start_for_leaks :
    (i j : ℕ) (es : List Event) (p p0 p' : HeapProfile)
    → IsOff p
    → AllInRange p.bucket
    → start_for_leaks p ≡ some p0
    → run i j es p0 ≡ some p'
    → Recorded p' (log es empty_log) × Countable p'
run-start_for_leaks i j es p p0 p' off words start ran =
    let begun : started_for_leaks p ≡ p0 = ground (arith, start_for_leaks-off p off, start) in
    let (q', t, r) =
      run-Recorded i j es (started_for_leaks p) empty_log (started_for_leaks-Recorded p) in
    let last : q' ≡ p' = ground (arith, ap (run i j es) begun, t, ran) in
    (
      subst (λ x. Recorded x (log es empty_log)) last r,
      run-Countable i j es p0 p' ran (subst Countable begun (started_for_leaks-Countable p words)),
    )
