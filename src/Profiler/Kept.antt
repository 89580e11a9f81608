-- ===== src/Profiler/Kept.antt =====
-- What src/profiler.cpp has written and buffered: the records that went out, in order.
use ferp.Common.{
  ℕ, ◌+◌, ◌≤◌, ◌<◌, ◌≡◌, ◌∙◌, ap, sym, refl, false, List, [], ◌∷◌, ◌++◌, ltb, if◌then◌else◌, length,
  length-append, arith, Bool-cases, inl, inr,
}
use ferp.Traces.{frames}
use ferp.Traces.Dump.{length-frames}
use ferp.Profiler.{
  Entry, ProfileData, flush_evicted, store_words, evict, entry_words, header, buffer_length,
}
use ferp.Profiler.Records.{
  Record, record_words, encode, encode-append, ArePositive, ArePositive-append, append_assoc,
  append_nil,
}
use ferp.Profiler.Table.{stack_of}

-- The file and then the buffer have the header and the records, and the buffer fits its
-- array, past the end of which no word went.
pub record Kept (p : ProfileData) (rs : List Record) : Type 0 where
  pub words : p.file ++ p.evicted ≡ header p.frequency ++ encode rs
  pub positive : ArePositive rs
  pub bounded : length p.evicted ≤ buffer_length
  pub within : p.overflowed ≡ false

-- The members that only the table and the counters of samples touch.
abbrev pub SameTable : ProfileData → ProfileData → Type 0
SameTable p p' =
    (p'.hash ≡ p.hash)
    × (p'.count ≡ p.count)
    × (p'.enabled ≡ p.enabled)
    × (p'.frequency ≡ p.frequency)

pub flush_evicted-Kept :
    (p : ProfileData) (rs : List Record) → Kept p rs → Kept (flush_evicted p) rs
unfolding flush_evicted
flush_evicted-Kept p rs k = record {
  words = append_nil (p.file ++ p.evicted) ∙ k.words;
  positive = k.positive;
  bounded = omega arith;
  within = k.within;
}

-- FlushEvicted, if there is no room for `n` more words.
abbrev pub with_room : ℕ → ProfileData → ProfileData
with_room n p = if ltb buffer_length (length p.evicted + n) then flush_evicted p else p

pub with_room-Kept :
    (n : ℕ) (p : ProfileData) (rs : List Record)
    → n ≤ buffer_length
    → Kept p rs
    → Kept (with_room n p) rs
      × (length (with_room n p).evicted + n ≤ buffer_length)
      × SameTable p (with_room n p)
unfolding flush_evicted
with_room-Kept n p rs l k = elim (Bool-cases (ltb buffer_length (length p.evicted + n))) [
  | inl e ↦ rw e (flush_evicted-Kept p rs k, omega arith, (refl, refl, refl, refl))
  | inr e ↦ rw e (k, ground arith, (refl, refl, refl, refl))
]

-- The record of an entry.
abbrev pub record_of : Entry → Record
record_of e = (e.count, stack_of e)

entry_words-record : (e : Entry) → entry_words e ≡ record_words (record_of e)
unfolding entry_words record_words stack_of
entry_words-record e =
    ap (λ n. e.count ∷ n ∷ frames e.depth e.stack 0) (sym (length-frames e.depth e.stack 0))

length-entry_words : (e : Entry) → length (entry_words e) ≡ e.depth + 2
unfolding entry_words
length-entry_words e = omega (arith, length-frames e.depth e.stack 0)

appended-Kept :
    (p : ProfileData) (rs : List Record) (e : Entry)
    → 0 < e.count
    → Kept p rs
    → length p.evicted + (e.depth + 2) ≤ buffer_length
    → Kept (store_words (entry_words e) p) (rs ++ (record_of e ∷ []))
unfolding store_words
appended-Kept p rs e pos k l = record {
  words =
      sym (append_assoc p.file p.evicted (entry_words e))
      ∙ ap (λ ws. ws ++ entry_words e) k.words
      ∙ append_assoc (header p.frequency) (encode rs) (entry_words e)
      ∙ ap (λ ws. header p.frequency ++ (encode rs ++ ws)) (entry_words-record e)
      ∙ ap (λ ws. header p.frequency ++ ws) (sym (encode-append rs (record_of e)));
  positive = ArePositive-append rs (record_of e) k.positive pos;
  bounded = omega (arith, l, length-append p.evicted (entry_words e), length-entry_words e);
  within = ground (arith, k.within, l, length-entry_words e);
}

-- Evict adds the record of the entry, and no word behind the end of the buffer.
pub evict-Kept :
    (e : Entry) (p : ProfileData) (rs : List Record)
    → 0 < e.count
    → e.depth ≤ 64
    → Kept p rs
    → Kept (evict e p) (rs ++ (record_of e ∷ [])) × SameTable p (evict e p)
unfolding evict store_words
evict-Kept e p rs pos deep k =
    let (k', room, same) = with_room-Kept (e.depth + 2) p rs (omega arith) k in
    (appended-Kept (with_room (e.depth + 2) p) rs e pos k' room, same)
