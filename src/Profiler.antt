-- ===== src/Profiler.antt =====
-- ProfileData of src/profiler.cpp: the table of stacks, the buffer of evicted entries and the file.
-- A file is the list of the words written to it; the writing itself, which may take several calls
-- of write(), is in Profiler.Write. The signal handler is a call of `add`; GetStackTrace answers at
-- most 63 frames, which are arguments, and so is what open() and time() answer.
pub mod Write
pub mod Records
pub mod Table
pub mod Kept
pub mod Flush
pub mod Sample
pub mod Run
pub mod Closing
pub mod Finish
mod Tests
use ferp.Common.{
  ℕ, zero, suc, ◌+◌, ◌-◌, ◌*◌, ◌/◌, ◌%◌, ◌^◌, Bool, true, false, ◌&&◌, ◌||◌, Option, none, some,
  List, [], ◌∷◌, ◌++◌, ltb, leb, ◌==◌, if◌then◌else◌, update, length, bit_or,
}
use ferp.Common.Bits.{u32_mod, u64_mod, shr, shl}
use ferp.Traces.{frames}

abbrev pub associativity : ℕ
associativity = 4

abbrev pub buckets : ℕ
buckets = 1024

abbrev pub buffer_length : ℕ
buffer_length = 262144

pub record Entry : Type 0 where
  pub count : ℕ
  pub depth : ℕ
  pub stack : ℕ → ℕ

-- `overflowed` is no member of the source: it is set once a word goes past the end of `evict_`.
pub record ProfileData : Type 0 where
  pub hash : ℕ → ℕ → Entry
  pub evicted : List ℕ
  pub file : List ℕ
  pub enabled : Bool
  pub count : ℕ
  pub evictions : ℕ
  pub total_bytes : ℕ
  pub fname : List ℕ
  pub frequency : ℕ
  pub start_time : ℕ
  pub overflowed : Bool

-- FlushEvicted
pub flush_evicted : ProfileData → ProfileData
flush_evicted p = record p {
  file = p.file ++ p.evicted;
  total_bytes = (p.total_bytes + 8 * length p.evicted) % u64_mod;
  evicted = [];
}

-- Words stored in `evict_` from `num_evicted_` on.
pub store_words : List ℕ → ProfileData → ProfileData
store_words words p = record p {
  evicted = p.evicted ++ words;
  overflowed = p.overflowed || ltb buffer_length (length p.evicted + length words);
}

-- The words of an entry.
pub entry_words : Entry → List ℕ
entry_words e = e.count ∷ e.depth ∷ frames e.depth e.stack 0

pub evict : Entry → ProfileData → ProfileData
evict e p =
    let p' = if ltb buffer_length (length p.evicted + (e.depth + 2)) then flush_evicted p else p in
    store_words (entry_words e) p'

-- The hash of a stack, from a frame on.
pub hash_stack : ℕ → (ℕ → ℕ) → ℕ → ℕ → ℕ
hash_stack zero stack i h = h
hash_stack (suc left) stack i h =
    let slot = stack i in
    let turned = bit_or (shl h 8) (shr h 56) in
    hash_stack left stack (i + 1) ((turned + (slot * 31 + slot * 7 + slot * 3)) % u64_mod)

-- The comparison of two stacks, for the frames that are left.
pub same_stack : ℕ → (ℕ → ℕ) → (ℕ → ℕ) → ℕ → Bool
same_stack zero s t i = true
same_stack (suc left) s t i = elim (s i == t i) [
  | true ↦ same_stack left s t (i + 1)
  | false ↦ false
]

-- The first loop of Add: the place of the stack in its bucket.
pub find_entry : ℕ → (ℕ → Entry) → ℕ → (ℕ → ℕ) → ℕ → Option ℕ
find_entry zero bucket depth stack a = none
find_entry (suc left) bucket depth stack a =
    elim ((bucket a).depth == depth && same_stack depth (bucket a).stack stack 0) [
      | true ↦ some a
      | false ↦ find_entry left bucket depth stack (a + 1)
    ]

-- The second loop: the first place with the least count.
pub least_entry : ℕ → (ℕ → Entry) → ℕ → ℕ → ℕ
least_entry zero bucket e a = e
least_entry (suc left) bucket e a =
    least_entry left bucket (if ltb (bucket a).count (bucket e).count then a else e) (a + 1)

pub write_entry : ℕ → ℕ → Entry → ProfileData → ProfileData
write_entry b a e p = record p { hash = update p.hash b (update (p.hash b) a e) }

-- The entry that goes out for a new stack, if it has samples.
pub make_room : Entry → ProfileData → ProfileData
make_room e p =
    if ltb 0 e.count then evict e (record p { evictions = (p.evictions + 1) % u32_mod }) else p

pub add_stack : ℕ → (ℕ → ℕ) → ProfileData → ProfileData
add_stack depth stack p0 =
    let p = record p0 { count = (p0.count + 1) % u32_mod } in
    let b = hash_stack depth stack 0 0 % buckets in
    elim (find_entry associativity (p.hash b) depth stack 0) [
      | some a ↦
          let e = p.hash b a in write_entry b a (record e { count = (e.count + 1) % u64_mod }) p
      | none ↦
          let a = least_entry 3 (p.hash b) 0 1 in
          let e = p.hash b a in
          write_entry b a
            (record {
              count = 1;
              depth = depth;
              stack = λ i. if ltb i depth then stack i else e.stack i;
            })
            (make_room e p)
    ]

-- The stack of a sample: the program counter, then the `n` frames of GetStackTrace.
pub sample_stack : ℕ → (ℕ → ℕ) → ℕ → ℕ
sample_stack pc trace i = if i == 0 then pc else trace (i - 1)

-- `none` is an access through the null pointer of a table that is not there.
pub add : ℕ → ℕ → (ℕ → ℕ) → ProfileData → Option ProfileData
add pc n trace p = if p.enabled then some (add_stack (n + 1) (sample_stack pc trace) p) else none

-- One round of the loops of FlushTable, for the places that are left, and the loops.
pub flush_entry : ℕ → ℕ → ProfileData → ProfileData
flush_entry b a p =
    let e = p.hash b a in
    if ltb 0 e.count then write_entry b a (record e { depth = 0; count = 0 }) (evict e p) else p

pub flush_bucket : ℕ → ℕ → ℕ → ProfileData → ProfileData
flush_bucket zero b a p = p
flush_bucket (suc left) b a p = flush_bucket left b (a + 1) (flush_entry b a p)

pub flush_buckets : ℕ → ℕ → ProfileData → ProfileData
flush_buckets zero b p = p
flush_buckets (suc left) b p = flush_buckets left (b + 1) (flush_bucket associativity b 0 p)

pub flush_table : ProfileData → ProfileData
flush_table p = if p.enabled then flush_evicted (flush_buckets buckets 0 p) else p

-- The loops of Stop, which leave the table.
pub evict_bucket : ℕ → ℕ → ℕ → ProfileData → ProfileData
evict_bucket zero b a p = p
evict_bucket (suc left) b a p =
    let e = p.hash b a in evict_bucket left b (a + 1) (if ltb 0 e.count then evict e p else p)

pub evict_buckets : ℕ → ℕ → ProfileData → ProfileData
evict_buckets zero b p = p
evict_buckets (suc left) b p = evict_buckets left (b + 1) (evict_bucket associativity b 0 p)

pub trailer : List ℕ
trailer = 0 ∷ 1 ∷ 0 ∷ []

-- The words of Stop; the text of /proc/self/maps that follows them is left out.
pub write_trailer : ProfileData → ProfileData
write_trailer p =
    let p' = if ltb buffer_length (length p.evicted + 3) then flush_evicted p else p in
    flush_evicted (store_words trailer p')

pub empty_entry : Entry
empty_entry = record { count = 0; depth = 0; stack = λ i. 0 }

pub stop : ProfileData → ProfileData
stop p =
    if p.enabled
    then record (write_trailer (evict_buckets buckets 0 p)) {
      hash = λ b a. empty_entry;
      evicted = [];
      fname = [];
      start_time = 0;
      enabled = false;
    }
    else p

pub header : ℕ → List ℕ
header frequency = 0 ∷ 3 ∷ 0 ∷ 1000000 / frequency ∷ 0 ∷ []

-- `opened` tells whether open() gave a file, which is empty, and `now` is the time.
pub start : Bool → ℕ → List ℕ → ProfileData → Bool × ProfileData
start opened now fname p =
    if p.enabled
    then (false, p)
    else if opened
    then (
      true,
      record p {
        start_time = now;
        fname = fname;
        count = 0;
        evictions = 0;
        total_bytes = 0;
        enabled = true;
        file = [];
        hash = λ b a. empty_entry;
        evicted = header p.frequency;
        overflowed = false;
      },
    )
    else (false, p)

-- The clamping of PROFILEFREQUENCY, if it is a number, in the constructor.
pub choose_frequency : Option ℕ → ℕ
choose_frequency none = 100
choose_frequency (some f) =
    if ltb 0 f && ltb f (2 ^ 31) then (if ltb 4000 f then 4000 else f) else 100

pub record ProfilerState : Type 0 where
  pub enabled : Bool
  pub start_time : ℕ
  pub samples_gathered : ℕ
  pub profile_name : List ℕ

pub get_current_state : ProfileData → ProfilerState
get_current_state p =
    if p.enabled
    then record {
      enabled = true;
      start_time = p.start_time;
      samples_gathered = p.count;
      profile_name = p.fname;
    }
    else record { enabled = false; start_time = 0; samples_gathered = 0; profile_name = [] }
