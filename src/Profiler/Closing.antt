-- ===== src/Profiler/Closing.antt =====
-- The loops of Stop in src/profiler.cpp: every entry of the table with samples gets its record.
use ferp.Common.{
  ℕ, zero, suc, ◌+◌, ◌≤◌, ◌≡◌, ◌∙◌, ap, subst, refl, Bool, List, [], ◌∷◌, ◌++◌, ltb, if◌then◌else◌,
  arith, Bool-cases, inl, inr,
}
use ferp.Common.Sums.{sum_below, sum_below-next, sum_below_none}
use ferp.Profiler.{Entry, ProfileData, evict, buckets, associativity, evict_bucket, evict_buckets}
use ferp.Profiler.Records.{Record, weigh, weigh-append}
use ferp.Profiler.Table.{entry_weight, bucket_weight}
use ferp.Profiler.Kept.{Kept, SameTable, evict-Kept, record_of}

abbrev pub DeepEnough : ProfileData → Type 0
DeepEnough p = (b a : ℕ) → (p.hash b a).depth ≤ 64

SameTable-trans : (p p' p'' : ProfileData) → SameTable p p' → SameTable p' p'' → SameTable p p''
SameTable-trans p p' p'' h k = (k.0 ∙ h.0, k.1 ∙ h.1, k.2 ∙ h.2, k.3 ∙ h.3)

-- What a part of the loops has added to the records.
pub record Evicted (p p' : ProfileData) (rs : List Record) (before after : (List ℕ → Bool) → ℕ)
    : Type 0 where
  pub records : List Record
  pub kept : Kept p' records
  pub same : SameTable p p'
  pub weights : (q : List ℕ → Bool) → weigh q records + before q ≡ weigh q rs + after q

-- One entry of the loops.
evict_place-Evicted :
    (b a : ℕ) (p : ProfileData) (rs : List Record)
    → DeepEnough p
    → Kept p rs
    → Evicted p
        (if ltb 0 (p.hash b a).count then evict (p.hash b a) p else p)
        rs
        (λ q. 0)
        (λ q. entry_weight q (p.hash b a))
unfolding entry_weight
evict_place-Evicted b a p rs d k = elim (Bool-cases (ltb 0 (p.hash b a).count)) [
  | inl e ↦
      let old = p.hash b a in
      let (k', same) = evict-Kept old p rs (ground arith) (d b a) k in
      rw e (record {
        records = rs ++ (record_of old ∷ []);
        kept = k';
        same = same;
        weights = λ q. omega (arith, weigh-append q rs (record_of old));
      })
  | inr e ↦ rw e (record {
    records = rs;
    kept = k;
    same = (refl, refl, refl, refl);
    weights = λ q. ground arith;
  })
]

evict_bucket-Evicted :
    (left b a : ℕ) (p : ProfileData) (rs : List Record)
    → DeepEnough p
    → Kept p rs
    → Evicted p
        (evict_bucket left b a p)
        rs
        (λ q. sum_below (λ j. entry_weight q (p.hash b j)) a)
        (λ q. sum_below (λ j. entry_weight q (p.hash b j)) (a + left))
unfolding evict_bucket
evict_bucket-Evicted zero b a p rs d k = record {
  records = rs;
  kept = k;
  same = (refl, refl, refl, refl);
  weights =
      λ q. ap (λ n. weigh q rs + sum_below (λ j. entry_weight q (p.hash b j)) n) (omega arith);
}
evict_bucket-Evicted (suc left) b a p rs d k =
    let p' = if ltb 0 (p.hash b a).count then evict (p.hash b a) p else p in
    let one = evict_place-Evicted b a p rs d k in
    let deep : DeepEnough p' = λ i j. rw one.same.0 (d i j) in
    let rest = evict_bucket-Evicted left b (a + 1) p' one.records deep one.kept in
    record {
      records = rest.records;
      kept = rest.kept;
      same = SameTable-trans p p' (evict_bucket left b (a + 1) p') one.same rest.same;
      weights = λ q.
          let f = λ (j : ℕ). entry_weight q (p.hash b j) in
          let there : weigh q rest.records + sum_below f (a + 1)
              ≡ weigh q one.records + sum_below f (a + 1 + left) =
            subst
              (λ (t : ℕ → ℕ → Entry).
                weigh q rest.records + sum_below (λ j. entry_weight q (t b j)) (a + 1)
                ≡ weigh q one.records + sum_below (λ j. entry_weight q (t b j)) (a + 1 + left))
              one.same.0 (rest.weights q) in
          let shift : a + suc left ≡ a + 1 + left = omega arith in
          rw shift (omega (arith, there, one.weights q, sum_below-next f a));
    }

-- The four places of a bucket are all of it.
bucket_total :
    (q : List ℕ → Bool) (b : ℕ) (p : ProfileData) (rs rs' : List Record)
    → weigh q rs' + sum_below (λ j. entry_weight q (p.hash b j)) 0
      ≡ weigh q rs + sum_below (λ j. entry_weight q (p.hash b j)) (0 + associativity)
    → weigh q rs' ≡ weigh q rs + bucket_weight q (p.hash b)
unfolding bucket_weight sum_below
bucket_total q b p rs rs' h = omega (arith, h)

pub evict_buckets-Evicted :
    (left b : ℕ) (p : ProfileData) (rs : List Record)
    → DeepEnough p
    → Kept p rs
    → Evicted p
        (evict_buckets left b p)
        rs
        (λ q. sum_below (λ j. bucket_weight q (p.hash j)) b)
        (λ q. sum_below (λ j. bucket_weight q (p.hash j)) (b + left))
unfolding evict_buckets
evict_buckets-Evicted zero b p rs d k = record {
  records = rs;
  kept = k;
  same = (refl, refl, refl, refl);
  weights = λ q. ap (λ n. weigh q rs + sum_below (λ j. bucket_weight q (p.hash j)) n) (omega arith);
}
evict_buckets-Evicted (suc left) b p rs d k =
    let p' = evict_bucket associativity b 0 p in
    let one = evict_bucket-Evicted associativity b 0 p rs d k in
    let deep : DeepEnough p' = λ i j. rw one.same.0 (d i j) in
    let rest = evict_buckets-Evicted left (b + 1) p' one.records deep one.kept in
    record {
      records = rest.records;
      kept = rest.kept;
      same = SameTable-trans p p' (evict_buckets left (b + 1) p') one.same rest.same;
      weights = λ q.
          let f = λ (j : ℕ). bucket_weight q (p.hash j) in
          let there : weigh q rest.records + sum_below f (b + 1)
              ≡ weigh q one.records + sum_below f (b + 1 + left) =
            subst
              (λ (t : ℕ → ℕ → Entry).
                weigh q rest.records + sum_below (λ j. bucket_weight q (t j)) (b + 1)
                ≡ weigh q one.records + sum_below (λ j. bucket_weight q (t j)) (b + 1 + left))
              one.same.0 (rest.weights q) in
          let shift : b + suc left ≡ b + 1 + left = omega arith in
          rw shift (
            omega (
              arith,
              there,
              bucket_total q b p rs one.records (one.weights q),
              sum_below-next f b,
            ));
    }

pub all_buckets :
    (w w' : ℕ) (f : ℕ → ℕ)
    → w + sum_below f 0 ≡ w' + sum_below f (0 + buckets)
    → w ≡ w' + sum_below f buckets
all_buckets w w' f h = omega (arith, h, sum_below_none f)
