-- ===== src/Profiler/Sample.antt =====
-- Add of src/profiler.cpp: a sample more, in the entry of its stack or in a new one.
use ferp.Common.{
  ℕ, ◌+◌, ◌%◌, ◌≤◌, ◌<◌, ◌≡◌, ◌∙◌, ap, sym, refl, Bool, false, List, [], ◌∷◌, ◌++◌, ltb,
  if◌then◌else◌, arith, Bool-cases, Option-cases, inl, inr,
}
use ferp.Common.Bits.{u32_mod, u64_mod}
use ferp.Traces.{frames}
use ferp.Profiler.{
  Entry, ProfileData, evict, buckets, associativity, add_stack, sample_stack, find_entry,
  least_entry, hash_stack, write_entry, make_room,
}
use ferp.Profiler.Records.{Record, weigh, weigh-append, tally}
use ferp.Profiler.Table.{
  stack_of, entry_weight, find_entry-found, least_entry-inside, stack_of-written,
}
use ferp.Profiler.Kept.{Kept, evict-Kept, record_of}
use ferp.Profiler.Flush.{Sampled, written-Sampled}

-- The counter goes up with the first line of Add.
abbrev counted : ProfileData → ProfileData
counted p = record p { count = (p.count + 1) % u32_mod }

abbrev place : ℕ → (ℕ → ℕ) → ℕ
place depth stack = hash_stack depth stack 0 0 % buckets

-- A sample more in an entry, and a new entry of one sample.
raised :
    (q : List ℕ → Bool) (e : Entry) (k : List ℕ) (w : ℕ) (seen : List (List ℕ))
    → stack_of e ≡ k
    → (w + entry_weight q (record e { count = (e.count + 1) % u64_mod }) + tally q seen) % u64_mod
      ≡ (w + entry_weight q e + tally q (k ∷ seen)) % u64_mod
unfolding entry_weight tally stack_of
raised q e k w seen same = rw (sym same) (elim (Bool-cases (q (frames e.depth e.stack 0))) [
  | inl t ↦ rw t (omega arith)
  | inr t ↦ rw t (omega arith)
])

no_weight : (q : List ℕ → Bool) (e : Entry) → ltb 0 e.count ≡ false → entry_weight q e ≡ 0
unfolding entry_weight
no_weight q e zero_count = ground arith

abbrev one_sample : ℕ → (ℕ → ℕ) → (ℕ → ℕ) → Entry
one_sample depth stack old = record {
  count = 1;
  depth = depth;
  stack = λ i. if ltb i depth then stack i else old i;
}

one_sample-weight :
    (q : List ℕ → Bool) (depth : ℕ) (stack old : ℕ → ℕ)
    → entry_weight q (one_sample depth stack old) ≡ (if q (frames depth stack 0) then 1 else 0)
unfolding entry_weight
one_sample-weight q depth stack old =
    ap (λ k. if q k then 1 else 0) (stack_of-written 1 depth stack old)

replaced :
    (q : List ℕ → Bool) (e : Entry) (depth : ℕ) (stack : ℕ → ℕ) (rs : List Record)
    (seen : List (List ℕ))
    → (weigh q (rs ++ (record_of e ∷ []))
          + entry_weight q (one_sample depth stack e.stack)
          + tally q seen)
        % u64_mod
      ≡ (weigh q rs + entry_weight q e + tally q (frames depth stack 0 ∷ seen)) % u64_mod
unfolding entry_weight tally
replaced q e depth stack rs seen =
    rw (one_sample-weight q depth stack e.stack, weigh-append q rs (record_of e)) (omega arith)

unused :
    (q : List ℕ → Bool) (e : Entry) (depth : ℕ) (stack : ℕ → ℕ) (w : ℕ) (seen : List (List ℕ))
    → ltb 0 e.count ≡ false
    → (w + entry_weight q (one_sample depth stack e.stack) + tally q seen) % u64_mod
      ≡ (w + entry_weight q e + tally q (frames depth stack 0 ∷ seen)) % u64_mod
unfolding tally
unused q e depth stack w seen zero_count =
    let weightless : entry_weight q e ≡ 0 = no_weight q e zero_count in
    rw (one_sample-weight q depth stack e.stack, weightless) (omega arith)

-- The stack is in the table.
hit-Sampled :
    (depth a : ℕ) (stack : ℕ → ℕ) (p : ProfileData) (seen : List (List ℕ)) (rs : List Record)
    → let e = p.hash (place depth stack) a in
      a < associativity
      → stack_of e ≡ frames depth stack 0
      → Sampled p seen rs
      → Sampled
          (write_entry
            (place depth stack)
            a
            (record e { count = (e.count + 1) % u64_mod })
            (counted p))
          (frames depth stack 0 ∷ seen)
          rs
hit-Sampled depth a stack p seen rs l same s =
    let b = place depth stack in
    let e = p.hash b a in
    written-Sampled p (counted p) seen (frames depth stack 0 ∷ seen) rs rs b a
      (record e { count = (e.count + 1) % u64_mod }) (omega arith) l s
      (record {
        words = s.kept.words;
        positive = s.kept.positive;
        bounded = s.kept.bounded;
        within = s.kept.within;
      })
      refl s.enabled (omega (arith, s.count)) (s.deep b a)
      (λ q. raised q e (frames depth stack 0) (weigh q rs) seen same)

-- The stack takes the place of an entry, which goes out if it has samples.
miss-Sampled :
    (depth a : ℕ) (stack : ℕ → ℕ) (p : ProfileData) (seen : List (List ℕ)) (rs : List Record)
    → let e = p.hash (place depth stack) a in
      a < associativity
      → depth ≤ 64
      → Sampled p seen rs
      → (rs' : List Record) × Sampled
          (write_entry
            (place depth stack)
            a
            (record {
              count = 1;
              depth = depth;
              stack = λ i. if ltb i depth then stack i else e.stack i;
            })
            (make_room e (counted p)))
          (frames depth stack 0 ∷ seen)
          rs'
unfolding make_room
miss-Sampled depth a stack p seen rs l deep s =
    let b = place depth stack in
    let e = p.hash b a in
    let new = one_sample depth stack e.stack in
    let seen' = frames depth stack 0 ∷ seen in
    let bare : Kept (counted p) rs = record {
      words = s.kept.words;
      positive = s.kept.positive;
      bounded = s.kept.bounded;
      within = s.kept.within;
    } in
    elim (Bool-cases (ltb 0 e.count)) [
      | inl used ↦
          let marked = record (counted p) { evictions = (p.evictions + 1) % u32_mod } in
          let (k, same) = evict-Kept e marked rs (ground arith) (s.deep b a) (record {
            words = s.kept.words;
            positive = s.kept.positive;
            bounded = s.kept.bounded;
            within = s.kept.within;
          }) in
          rw used (
            rs ++ (record_of e ∷ []),
            written-Sampled p (evict e marked) seen seen' rs (rs ++ (record_of e ∷ [])) b a new
                (omega arith) l s k same.0 (same.2 ∙ s.enabled) (same.1 ∙ omega (arith, s.count))
                deep (λ q. replaced q e depth stack rs seen),
          )
      | inr free ↦ rw free (
        rs,
        written-Sampled p (counted p) seen seen' rs rs b a new (omega arith) l s bare refl s.enabled
            (omega (arith, s.count)) deep (λ q. unused q e depth stack (weigh q rs) seen free),
      )
    ]

-- The stack of a sample.
abbrev pub stack_taken : ℕ → ℕ → (ℕ → ℕ) → List ℕ
stack_taken pc n trace = frames (n + 1) (sample_stack pc trace) 0

pub add_stack-Sampled :
    (depth : ℕ) (stack : ℕ → ℕ) (p : ProfileData) (seen : List (List ℕ)) (rs : List Record)
    → depth ≤ 64
    → Sampled p seen rs
    → (rs' : List Record) × Sampled (add_stack depth stack p) (frames depth stack 0 ∷ seen) rs'
unfolding add_stack
add_stack-Sampled depth stack p seen rs deep s =
    let b = place depth stack in
    elim (Option-cases (find_entry associativity (p.hash b) depth stack 0)) [
      | inl e ↦
          let a = least_entry 3 (p.hash b) 0 1 in
          rw (e, add_stack)
            (miss-Sampled depth a stack p seen rs
              (least_entry-inside 3 (p.hash b) 0 1 associativity (omega arith) (omega arith)) deep
              s)
      | inr (a, e) ↦
          let (inside, same_depth, same) =
            find_entry-found associativity (p.hash b) depth stack 0 a e in
          rw (e, add_stack) (rs, hit-Sampled depth a stack p seen rs (omega (arith, inside)) same s)
    ]
