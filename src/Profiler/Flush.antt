-- ===== src/Profiler/Flush.antt =====
-- FlushTable of src/profiler.cpp: entries go over to the records with their samples.
use ferp.Common.{
  ℕ, zero, suc, ◌+◌, ◌%◌, ◌≤◌, ◌<◌, ◌≡◌, ◌∙◌, sym, subst, Bool, true, List, [], ◌∷◌, ◌++◌, ltb,
  if◌then◌else◌, length, arith, Bool-cases, inl, inr,
}
use ferp.Common.Bits.{u32_mod, u64_mod}
use ferp.Profiler.{
  Entry, ProfileData, flush_evicted, evict, buckets, associativity, write_entry, flush_entry,
  flush_bucket, flush_buckets, flush_table,
}
use ferp.Profiler.Records.{Record, weigh, weigh-append, tally}
use ferp.Profiler.Table.{entry_weight, table_weight, table_weight-write_entry}
use ferp.Profiler.Kept.{Kept, evict-Kept, record_of, flush_evicted-Kept}

-- The samples so far are the ones in the records and in the table, for every set of stacks, as
-- 64-bit words, since a count of the table is one.
pub record Sampled (p : ProfileData) (seen : List (List ℕ)) (rs : List Record) : Type 0 where
  pub kept : Kept p rs
  pub deep : (b a : ℕ) → (p.hash b a).depth ≤ 64
  pub weights :
      (q : List ℕ → Bool) → (weigh q rs + table_weight q p.hash) % u64_mod ≡ tally q seen % u64_mod
  pub count : p.count ≡ length seen % u32_mod
  pub enabled : p.enabled ≡ true

-- A write of a place of the table.
write_entry-deep :
    (b a : ℕ) (e : Entry) (p : ProfileData)
    → ((i j : ℕ) → (p.hash i j).depth ≤ 64)
    → e.depth ≤ 64
    → (i j : ℕ) → ((write_entry b a e p).hash i j).depth ≤ 64
unfolding write_entry
write_entry-deep b a e p h l i j = ground (arith, h i j, h b j)

write_entry-Kept :
    (b a : ℕ) (e : Entry) (p : ProfileData) (rs : List Record)
    → Kept p rs
    → Kept (write_entry b a e p) rs
unfolding write_entry
write_entry-Kept b a e p rs k = record {
  words = k.words;
  positive = k.positive;
  bounded = k.bounded;
  within = k.within;
}

-- The weight of an entry goes over to its record.
flushed :
    (q : List ℕ → Bool) (e : Entry) (rs : List Record) (seen : List (List ℕ))
    → (weigh q (rs ++ (record_of e ∷ []))
          + entry_weight q (record e { depth = 0; count = 0 })
          + tally q seen)
        % u64_mod
      ≡ (weigh q rs + entry_weight q e + tally q seen) % u64_mod
unfolding entry_weight
flushed q e rs seen = ground (arith, weigh-append q rs (record_of e))

-- A state with another table entry, other records and other samples, where these balance.
module _ (p p' : ProfileData) (seen seen' : List (List ℕ)) (rs rs' : List Record) (b a : ℕ)
    (e : Entry) (h : b < buckets) (l : a < associativity) (s : Sampled p seen rs) where
  pub written-Sampled :
      Kept p' rs'
      → p'.hash ≡ p.hash
      → p'.enabled ≡ true
      → p'.count ≡ length seen' % u32_mod
      → e.depth ≤ 64
      → ((q : List ℕ → Bool)
          → (weigh q rs' + entry_weight q e + tally q seen) % u64_mod
            ≡ (weigh q rs + entry_weight q (p.hash b a) + tally q seen') % u64_mod)
      → Sampled (write_entry b a e p') seen' rs'
  unfolding write_entry
  written-Sampled k same on count deep balance = record {
    kept = write_entry-Kept b a e p' rs' k;
    deep = write_entry-deep b a e p' (λ i j. rw same (s.deep i j)) deep;
    weights = λ q.
        let change : table_weight q (write_entry b a e p').hash + entry_weight q (p.hash b a)
            ≡ table_weight q p.hash + entry_weight q e =
          subst
            (λ t.
              table_weight q (write_entry b a e p').hash + entry_weight q (t b a)
              ≡ table_weight q t + entry_weight q e)
            same (table_weight-write_entry q b a e p' h l) in
        omega (arith, change, balance q, s.weights q);
    count = count;
    enabled = on;
  }

-- An entry that goes out and leaves a zero behind keeps the samples.
flush_entry-Sampled :
    (b a : ℕ) (p : ProfileData) (seen : List (List ℕ)) (rs : List Record)
    → b < buckets
    → a < associativity
    → Sampled p seen rs
    → (rs' : List Record) × Sampled (flush_entry b a p) seen rs'
unfolding flush_entry
flush_entry-Sampled b a p seen rs h l s = elim (Bool-cases (ltb 0 (p.hash b a).count)) [
  | inl e ↦
      let old = p.hash b a in
      let (k, same) = evict-Kept old p rs (ground arith) (s.deep b a) s.kept in
      rw e (
        rs ++ (record_of old ∷ []),
        written-Sampled p (evict old p) seen seen rs (rs ++ (record_of old ∷ [])) b a
            (record old { depth = 0; count = 0 }) h l s k same.0 (same.2 ∙ s.enabled)
            (same.1 ∙ s.count) (omega arith) (λ q. flushed q old rs seen),
      )
  | inr e ↦ rw e (rs, s)
]

flush_bucket-Sampled :
    (left b a : ℕ) (p : ProfileData) (seen : List (List ℕ)) (rs : List Record)
    → b < buckets
    → a + left ≤ associativity
    → Sampled p seen rs
    → (rs' : List Record) × Sampled (flush_bucket left b a p) seen rs'
unfolding flush_bucket
flush_bucket-Sampled zero b a p seen rs h l s = (rs, s)
flush_bucket-Sampled (suc left) b a p seen rs h l s =
    let (rs', s') = flush_entry-Sampled b a p seen rs h (omega arith) s in
    flush_bucket-Sampled left b (a + 1) (flush_entry b a p) seen rs' h (omega arith) s'

flush_buckets-Sampled :
    (left b : ℕ) (p : ProfileData) (seen : List (List ℕ)) (rs : List Record)
    → b + left ≤ buckets
    → Sampled p seen rs
    → (rs' : List Record) × Sampled (flush_buckets left b p) seen rs'
unfolding flush_buckets
flush_buckets-Sampled zero b p seen rs h s = (rs, s)
flush_buckets-Sampled (suc left) b p seen rs h s =
    let (rs', s') =
      flush_bucket-Sampled associativity b 0 p seen rs (omega arith) (omega arith) s in
    flush_buckets-Sampled left (b + 1) (flush_bucket associativity b 0 p) seen rs' (omega arith) s'

flush_evicted-Sampled :
    (p : ProfileData) (seen : List (List ℕ)) (rs : List Record)
    → Sampled p seen rs
    → Sampled (flush_evicted p) seen rs
unfolding flush_evicted
flush_evicted-Sampled p seen rs s = record {
  kept = flush_evicted-Kept p rs s.kept;
  deep = s.deep;
  weights = s.weights;
  count = s.count;
  enabled = s.enabled;
}

pub flush_table-Sampled :
    (p : ProfileData) (seen : List (List ℕ)) (rs : List Record)
    → Sampled p seen rs
    → (rs' : List Record) × Sampled (flush_table p) seen rs'
unfolding flush_table
flush_table-Sampled p seen rs s =
    let (rs', s') = flush_buckets-Sampled buckets 0 p seen rs (omega arith) s in
    let there = flush_evicted-Sampled (flush_buckets buckets 0 p) seen rs' s' in
    (
      rs',
      subst (λ x. Sampled (if x then flush_evicted (flush_buckets buckets 0 p) else p) seen rs')
          (sym s.enabled) there,
    )
