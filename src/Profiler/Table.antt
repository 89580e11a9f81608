-- ===== src/Profiler/Table.antt =====
-- The table of src/profiler.cpp as a bag of stacks: what a write of an entry does to it, and that
-- an entry which the first loop of Add finds has the stack looked for.
use ferp.Common.{
  ℕ, zero, suc, ◌+◌, ◌≤◌, ◌<◌, ◌≡◌, ◌≢◌, ◌∙◌, ap, sym, refl, Bool, true, false, ◌&&◌, some, List,
  ◌∷◌, ltb, ◌==◌, if◌then◌else◌, update, update_self, update_other, arith, Bool-cases, inl, inr,
}
use ferp.Common.Sums.{sum_below, sum_below-change}
use ferp.Traces.{frames}
use ferp.Profiler.{
  Entry, ProfileData, write_entry, same_stack, find_entry, least_entry, associativity, buckets,
}

unfoldable pub stack_of : Entry → List ℕ
stack_of e = frames e.depth e.stack 0

unfoldable pub entry_weight : (List ℕ → Bool) → Entry → ℕ
entry_weight q e = if q (stack_of e) then e.count else 0

same_stack-parts :
    (n : ℕ) (s t : ℕ → ℕ) (d : ℕ)
    → same_stack (suc n) s t d ≡ true
    → (s d ≡ t d) × (same_stack n s t (d + 1) ≡ true)
unfolding same_stack
same_stack-parts n s t d h = ground arith

module _ (q : List ℕ → Bool) where
  unfoldable pub bucket_weight : (ℕ → Entry) → ℕ
  bucket_weight bucket = sum_below (λ a. entry_weight q (bucket a)) associativity

  unfoldable pub table_weight : (ℕ → ℕ → Entry) → ℕ
  table_weight hash = sum_below (λ b. bucket_weight (hash b)) buckets

  -- A write changes the weight by those of the two entries.
  pub table_weight-write_entry :
      (b a : ℕ) (e : Entry) (p : ProfileData)
      → b < buckets
      → a < associativity
      → table_weight (write_entry b a e p).hash + entry_weight q (p.hash b a)
        ≡ table_weight p.hash + entry_weight q e
  unfolding table_weight bucket_weight write_entry
  table_weight-write_entry b a e p h l =
      let bucket = update (p.hash b) a e in
      let other : (j : ℕ) → j ≢ a → entry_weight q (bucket j) ≡ entry_weight q (p.hash b j) =
        λ j d. ap (entry_weight q) (update_other (p.hash b) a e j d) in
      let in_bucket =
        sum_below-change (λ j. entry_weight q (p.hash b j)) (λ j. entry_weight q (bucket j)) a
          associativity l other in
      let in_table =
        sum_below-change (λ j. bucket_weight (p.hash j))
          (λ j. bucket_weight (update p.hash b bucket j)) b buckets h
          (λ j d. ap bucket_weight (update_other p.hash b bucket j d)) in
      omega (
        arith,
        in_bucket,
        in_table,
        ap (entry_weight q) (update_self (p.hash b) a e),
        ap bucket_weight (update_self p.hash b bucket),
      )

-- The two stacks have the same frames.
pub frames-same :
    (n : ℕ) (s t : ℕ → ℕ) (d : ℕ) → same_stack n s t d ≡ true → frames n s d ≡ frames n t d
unfolding frames same_stack
frames-same zero s t d h = refl
frames-same (suc n) s t d h =
    let parts = same_stack-parts n s t d h in λ i. parts.0 i ∷ frames-same n s t (d + 1) parts.1 i

abbrev test : (ℕ → Entry) → ℕ → (ℕ → ℕ) → ℕ → Bool
test bucket depth stack a = (bucket a).depth == depth && same_stack depth (bucket a).stack stack 0

find_entry-hit :
    (left : ℕ) (bucket : ℕ → Entry) (depth : ℕ) (stack : ℕ → ℕ) (a : ℕ)
    → test bucket depth stack a ≡ true
    → find_entry (suc left) bucket depth stack a ≡ some a
unfolding find_entry
find_entry-hit left bucket depth stack a e = rw (e, find_entry) refl

find_entry-miss :
    (left : ℕ) (bucket : ℕ → Entry) (depth : ℕ) (stack : ℕ → ℕ) (a : ℕ)
    → test bucket depth stack a ≡ false
    → find_entry (suc left) bucket depth stack a ≡ find_entry left bucket depth stack (a + 1)
unfolding find_entry
find_entry-miss left bucket depth stack a e = rw (e, find_entry) refl

-- What the first loop of Add finds is a place of the bucket, with the stack looked for.
pub find_entry-found :
    (left : ℕ) (bucket : ℕ → Entry) (depth : ℕ) (stack : ℕ → ℕ) (a found : ℕ)
    → find_entry left bucket depth stack a ≡ some found
    → (found < a + left)
      × ((bucket found).depth ≡ depth)
      × (stack_of (bucket found) ≡ frames depth stack 0)
unfolding find_entry stack_of
find_entry-found zero bucket depth stack a found h = absurd (ground arith)
find_entry-found (suc left) bucket depth stack a found h =
    elim (Bool-cases ((bucket a).depth == depth && same_stack depth (bucket a).stack stack 0)) [
      | inl e ↦
          let at : found ≡ a = ground (arith, h, find_entry-hit left bucket depth stack a e) in
          let same : (bucket a).depth ≡ depth = ground (arith, e) in
          let frame : same_stack depth (bucket a).stack stack 0 ≡ true = ground (arith, e) in
          rw (at, same) (omega arith, refl, frames-same depth (bucket a).stack stack 0 frame)
      | inr e ↦
          let rest =
            find_entry-found left bucket depth stack (a + 1) found
              (sym (find_entry-miss left bucket depth stack a e) ∙ h) in
          (omega (arith, rest.0), rest.1, rest.2)
    ]

pub least_entry-inside :
    (left : ℕ) (bucket : ℕ → Entry) (e a n : ℕ)
    → e < n
    → a + left ≤ n
    → least_entry left bucket e a < n
unfolding least_entry
least_entry-inside zero bucket e a n h l = h
least_entry-inside (suc left) bucket e a n h l =
    least_entry-inside left bucket (if ltb (bucket a).count (bucket e).count then a else e) (a + 1)
      n (ground arith) (omega arith)

-- The entry of a new stack.
frames-written :
    (n : ℕ) (s t : ℕ → ℕ) (depth d : ℕ)
    → d + n ≤ depth
    → frames n (λ i. if ltb i depth then s i else t i) d ≡ frames n s d
unfolding frames
frames-written zero s t depth d h = refl
frames-written (suc n) s t depth d h =
    let inside : ltb d depth ≡ true = ground arith in
    rw inside (λ i. s d ∷ frames-written n s t depth (d + 1) (omega arith) i)

pub stack_of-written :
    (count depth : ℕ) (s t : ℕ → ℕ)
    → stack_of
        (record { count = count; depth = depth; stack = λ i. if ltb i depth then s i else t i })
      ≡ frames depth s 0
unfolding stack_of
stack_of-written count depth s t = frames-written depth s t depth 0 (omega arith)
