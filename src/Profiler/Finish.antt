-- ===== src/Profiler/Finish.antt =====
-- A profile of src/profiler.cpp from Start to Stop: what a reader finds in the file.
use ferp.Common.{
  ℕ, ◌+◌, ◌%◌, ◌≡◌, ◌∙◌, ap, sym, subst, refl, Bool, true, false, some, List, [], ◌++◌,
  if◌then◌else◌, length, ◌||◌, ltb, arith,
}
use ferp.Common.Bits.{u32_mod, u64_mod}
use ferp.Common.Sums.{sum_below, sum_below-zero}
use ferp.Profiler.{
  ProfileData, flush_evicted, header, trailer, buckets, associativity, empty_entry, evict_buckets,
  write_trailer, start, stop, store_words, buffer_length,
}
use ferp.Profiler.Records.{
  Record, encode, weigh, tally, ArePositive, append_assoc, read_profile, read_profile-encode,
}
use ferp.Profiler.Table.{stack_of, entry_weight, bucket_weight, table_weight}
use ferp.Profiler.Kept.{Kept, with_room, with_room-Kept}
use ferp.Profiler.Run.{Event, FramesInRange, run, taken, run-Sampled}
use ferp.Profiler.Flush.{Sampled}
use ferp.Profiler.Closing.{DeepEnough, all_buckets, evict_buckets-Evicted}

-- What Stop leaves.
pub record Stopped (p p' : ProfileData) (rs : List Record) : Type 0 where
  pub records : List Record
  pub file : p'.file ≡ header p.frequency ++ (encode records ++ trailer)
  pub positive : ArePositive records
  pub off : p'.enabled ≡ false
  pub within : p'.overflowed ≡ false
  pub weights : (q : List ℕ → Bool) → weigh q records ≡ weigh q rs + table_weight q p.hash

-- Stop and Start where they do something.
abbrev stopped : ProfileData → ProfileData
stopped p = record (write_trailer (evict_buckets buckets 0 p)) {
  hash = λ b a. empty_entry;
  evicted = [];
  fname = [];
  start_time = 0;
  enabled = false;
}

stop-on : (p : ProfileData) → p.enabled ≡ true → stop p ≡ stopped p
unfolding stop
stop-on p on = subst (λ x. (if x then stopped p else p) ≡ stopped p) (sym on) refl

write_trailer-file :
    (p : ProfileData)
    → (write_trailer p).file ≡ (with_room 3 p).file ++ ((with_room 3 p).evicted ++ trailer)
unfolding write_trailer flush_evicted store_words
write_trailer-file p = refl

stopped-Stopped :
    (p : ProfileData) (rs : List Record) → DeepEnough p → Kept p rs → Stopped p (stopped p) rs
unfolding table_weight write_trailer flush_evicted store_words trailer
stopped-Stopped p rs d k =
    let p' = evict_buckets buckets 0 p in
    let all = evict_buckets-Evicted buckets 0 p rs d k in
    let (k', room, same) = with_room-Kept 3 p' all.records (omega arith) all.kept in
    let full = with_room 3 p' in
    record {
      records = all.records;
      file =
          write_trailer-file p'
          ∙ sym (append_assoc full.file full.evicted trailer)
          ∙ ap (λ ws. ws ++ trailer) k'.words
          ∙ append_assoc (header full.frequency) (encode all.records) trailer
          ∙ ap (λ f. header f ++ (encode all.records ++ trailer)) (same.3 ∙ all.same.3);
      positive = k'.positive;
      off = refl;
      within =
          ap (λ b. b || ltb buffer_length (length full.evicted + 3)) k'.within
          ∙ ground (arith, room);
      weights = λ q.
          all_buckets (weigh q all.records) (weigh q rs) (λ j. bucket_weight q (p.hash j))
            (all.weights q);
    }

abbrev started : ℕ → List ℕ → ProfileData → ProfileData
started now fname p = record p {
  start_time = now;
  fname = fname;
  count = 0;
  evictions = 0;
  total_bytes = 0;
  enabled = true;
  file = [];
  hash = λ b a. empty_entry;
  evicted = header p.frequency;
  overflowed = false;
}

pub start-off :
    (now : ℕ) (fname : List ℕ) (p : ProfileData)
    → p.enabled ≡ false
    → start true now fname p ≡ (true, started now fname p)
unfolding start
start-off now fname p off =
    subst
      (λ x.
        ◌≡◌ {A = Bool × ProfileData} (if x then (false, p) else (true, started now fname p))
          (true, started now fname p))
      (sym off) refl

empty_table : (q : List ℕ → Bool) → table_weight q (λ b a. empty_entry) ≡ 0
unfolding table_weight bucket_weight entry_weight empty_entry
empty_table q =
    sum_below-zero (λ b. sum_below (λ a. if q (stack_of empty_entry) then 0 else 0) associativity)
      buckets
      (λ b.
        sum_below-zero (λ a. if q (stack_of empty_entry) then 0 else 0) associativity
          (λ a. ground arith))

started-Sampled : (now : ℕ) (fname : List ℕ) (p : ProfileData) → Sampled (started now fname p) [] []
unfolding header encode weigh tally empty_entry
started-Sampled now fname p = record {
  kept = record { words = refl; positive = tt; bounded = omega arith; within = refl };
  deep = λ b a. omega arith;
  weights = λ q. omega (arith, empty_table q);
  count = refl;
  enabled = refl;
}

-- A whole profile: Start, the events and Stop succeed, and a reader of the file finds the samples
-- of every set of stacks.
pub record Profiled (now : ℕ) (fname : List ℕ) (es : List Event) (p : ProfileData) : Type 0 where
  pub last : ProfileData
  pub started : (start true now fname p).0 ≡ true
  pub ran : run es (start true now fname p).1 ≡ some last
  pub counted : last.count ≡ length (taken es []) % u32_mod
  pub closed : (stop last).enabled ≡ false
  pub within : (stop last).overflowed ≡ false
  pub samples :
      (q : List ℕ → Bool)
      → (n : ℕ) × (read_profile q (stop last).file ≡ some n)
        × (n % u64_mod ≡ tally q (taken es []) % u64_mod)

-- From Start, which opens its file, over any signals and flushes, to Stop, no null pointer is
-- followed, no word goes past the end of the buffer of evicted entries, and no sample is lost: for every set of stacks, a reader finds as many samples in the file as there
-- were signals with such a stack, as 64-bit words.
pub profile-Profiled :
    (now : ℕ) (fname : List ℕ) (es : List Event) (p : ProfileData)
    → p.enabled ≡ false
    → FramesInRange es
    → Profiled now fname es p
profile-Profiled now fname es p off h =
    let begun = start-off now fname p off in
    let r = run-Sampled es (started now fname p) [] [] h (started-Sampled now fname p) in
    let s = r.sampled in
    let done = stopped-Stopped r.last r.records s.deep s.kept in
    let closing = stop-on r.last s.enabled in
    record {
      last = r.last;
      started = ap (λ x. x.0) begun;
      ran = ap (λ x. run es x.1) begun ∙ r.ran;
      counted = s.count;
      closed = ap (λ x. x.enabled) closing ∙ done.off;
      within = ap (λ x. x.overflowed) closing ∙ done.within;
      samples = λ q. (
        weigh q done.records,
        ap (λ x. read_profile q x.file) closing
            ∙ ap (read_profile q) done.file
            ∙ read_profile-encode q r.last.frequency done.records done.positive,
        ap (λ x. x % u64_mod) (done.weights q) ∙ s.weights q,
      );
    }
