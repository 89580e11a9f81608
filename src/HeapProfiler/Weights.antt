-- ===== src/HeapProfiler/Weights.antt =====
-- What the buckets of src/heap-profiler.cpp count for a set of stacks, and what a new bucket and a
-- count in one of them do to it.
use ferp.Common.{
  ℕ, ◌+◌, ◌%◌, ◌≤◌, ◌<◌, ◌≡◌, ◌∙◌, ap, sym, refl, Bool, true, ◌&&◌, ◌==◌, some, List, [], ◌∷◌,
  if◌then◌else◌, update, Bool-cases, Option-cases, inl, inr, arith, update_other, update_self,
}
use ferp.Common.Bits.{u32_mod}
use ferp.Common.Sums.{sum_below, sum_below-same, sum_below-change, sum_below-next}
use ferp.Traces.{frames}
use ferp.Profiler.{hash_stack, same_stack}
use ferp.Profiler.Table.{frames-same}
use ferp.HeapProfiler.{
  Bucket, HeapProfile, hash_table_size, empty_bucket, search_chain, new_bucket, get_bucket,
}

unfoldable pub stack_of : Bucket → List ℕ
stack_of b = frames b.depth b.stack 0

module _ (q : List ℕ → Bool) (f : Bucket → ℕ) where
  unfoldable pub bucket_weight : Bucket → ℕ
  bucket_weight b = if q (stack_of b) then f b else 0

  unfoldable pub weight : (ℕ → Bucket) → ℕ → ℕ
  weight bucket n = sum_below (λ i. bucket_weight (bucket i)) n

  nothing_counted : (b : Bucket) → f b ≡ 0 → bucket_weight b ≡ 0
  unfolding bucket_weight
  nothing_counted b e = ground arith

  -- A change of one bucket.
  pub weight-update :
      (bucket : ℕ → Bucket) (n b : ℕ) (new : Bucket)
      → b < n
      → weight (update bucket b new) n + bucket_weight (bucket b)
        ≡ weight bucket n + bucket_weight new
  unfolding weight
  weight-update bucket n b new l = omega (
    arith,
    sum_below-change (λ i. bucket_weight (bucket i)) (λ i. bucket_weight (update bucket b new i)) b
        n l (λ j d. ap bucket_weight (update_other bucket b new j d)),
    ap bucket_weight (update_self bucket b new),
  )

  -- A bucket more, of which nothing is counted.
  pub weight-grow :
      (bucket : ℕ → Bucket) (n : ℕ) (new : Bucket)
      → f new ≡ 0
      → weight (update bucket n new) (n + 1) ≡ weight bucket n
  unfolding weight bucket_weight
  weight-grow bucket n new e =
      let g = λ (i : ℕ). bucket_weight (update bucket n new i) in
      omega (
        arith,
        sum_below-next g n,
        sum_below-same (λ i. bucket_weight (bucket i)) g n
            (λ j l. ap bucket_weight (update_other bucket n new j (λ same. omega arith))),
        ap bucket_weight (update_self bucket n new),
        nothing_counted new e,
      )

-- The numbers of a chain are those of buckets.
abbrev pub AreBelow : ℕ → List ℕ → Type 0
AreBelow n [] = Unit {0}
AreBelow n (b ∷ bs) = (b < n) × AreBelow n bs

AreBelow-grow : (n : ℕ) (bs : List ℕ) → AreBelow n bs → AreBelow (n + 1) bs
AreBelow-grow n [] h = tt
AreBelow-grow n (b ∷ bs) h = (omega (arith, h.0), AreBelow-grow n bs h.1)

-- The bucket found has the stack looked for.
search_chain-found :
    (bs : List ℕ) (bucket : ℕ → Bucket) (h depth : ℕ) (key : ℕ → ℕ) (n b : ℕ)
    → AreBelow n bs
    → search_chain bs bucket h depth key ≡ some b
    → (b < n) × (stack_of (bucket b) ≡ frames depth key 0)
unfolding search_chain stack_of
search_chain-found [] bucket h depth key n b below e = absurd (ground arith)
search_chain-found (c ∷ cs) bucket h depth key n b below e =
    let test =
      (bucket c).hash == h
      && ((bucket c).depth == depth && same_stack depth (bucket c).stack key 0) in
    elim (Bool-cases test) [
      | inl t ↦
          let hit : search_chain (c ∷ cs) bucket h depth key ≡ some c = rw (t, search_chain) refl in
          let same_bucket : b ≡ c = ground (arith, e, hit) in
          let same_depth : (bucket c).depth ≡ depth = ground (arith, t) in
          let same : same_stack depth (bucket c).stack key 0 ≡ true = ground (arith, t) in
          rw (same_bucket, same_depth) (below.0, frames-same depth (bucket c).stack key 0 same)
      | inr t ↦
          let miss : search_chain (c ∷ cs) bucket h depth key ≡ search_chain cs bucket h depth key =
            rw (t, search_chain) refl in
          search_chain-found cs bucket h depth key n b below.1 (sym miss ∙ e)
    ]

-- What GetBucket leaves: a bucket with the stack, and no count of any bucket changed.
pub record Got (depth : ℕ) (key : ℕ → ℕ) (p : HeapProfile) (b : ℕ) (p' : HeapProfile) : Type 0 where
  pub inside : b < p'.num_buckets
  pub stack : stack_of (p'.bucket b) ≡ frames depth key 0
  pub chains : (j : ℕ) → AreBelow p'.num_buckets (p'.table j)
  pub more : p.num_buckets ≤ p'.num_buckets
  pub old : (j : ℕ) → j < p.num_buckets → stack_of (p'.bucket j) ≡ stack_of (p.bucket j)
  pub weights :
      (q : List ℕ → Bool) (f : Bucket → ℕ)
      → ((h d : ℕ) (k : ℕ → ℕ) → f (record empty_bucket { hash = h; depth = d; stack = k }) ≡ 0)
      → weight q f p'.bucket p'.num_buckets ≡ weight q f p.bucket p.num_buckets
  pub rest : (p'.allocation ≡ p.allocation) × (p'.total ≡ p.total) × (p'.is_on ≡ p.is_on)

new_bucket-Got :
    (h depth : ℕ) (key : ℕ → ℕ) (p : HeapProfile)
    → ((j : ℕ) → AreBelow p.num_buckets (p.table j))
    → Got depth key p p.num_buckets (new_bucket h depth key p)
unfolding new_bucket stack_of
new_bucket-Got h depth key p below =
    let n = p.num_buckets in
    let new = record empty_bucket { hash = h; depth = depth; stack = key } in
    let buck = h % u32_mod % hash_table_size in
    record {
      inside = omega arith;
      stack = ap stack_of (update_self p.bucket n new);
      chains = λ j. elim (Bool-cases (j == buck)) [
        | inl e ↦ rw e (omega arith, AreBelow-grow n (p.table buck) (below buck))
        | inr e ↦ rw e (AreBelow-grow n (p.table j) (below j))
      ];
      more = omega arith;
      old = λ j l. ap stack_of (update_other p.bucket n new j (λ e. omega arith));
      weights = λ q f e. weight-grow q f p.bucket n new (e h depth key);
      rest = (refl, refl, refl);
    }

pub get_bucket-Got :
    (depth : ℕ) (key : ℕ → ℕ) (p : HeapProfile)
    → ((j : ℕ) → AreBelow p.num_buckets (p.table j))
    → Got depth key p (get_bucket depth key p).0 (get_bucket depth key p).1
unfolding get_bucket
get_bucket-Got depth key p below =
    let h = hash_stack depth key 0 0 in
    let buck = h % u32_mod % hash_table_size in
    elim (Option-cases (search_chain (p.table buck) p.bucket h depth key)) [
      | inl e ↦ rw (e, get_bucket) (new_bucket-Got h depth key p below)
      | inr (b, e) ↦
          let (inside, same) =
            search_chain-found (p.table buck) p.bucket h depth key p.num_buckets b (below buck) e in
          rw (e, get_bucket)
            (record {
              inside = inside;
              stack = same;
              chains = below;
              more = omega arith;
              old = λ j l. refl;
              weights = λ q f e. refl;
              rest = (refl, refl, refl);
            })
    ]
