-- ===== src/ThreadCache/Run.antt =====
-- Sequences of Allocate and Deallocate of src/tcmalloc.cpp on a new thread cache, with the tables
-- that InitSizeClasses sets up.
use ferp.Common.{ℕ, zero, suc, ◌*◌, ◌≤◌, ◌<◌, ◌≡◌, refl, List, [], ◌∷◌, arith}
use ferp.Common.Sums.{sum_below, sum_below-same}
use ferp.SizeClass.{size_tables, size_class, byte_size_for_class, num_classes, max_size}
use ferp.SizeClass.InUse.{last_class, moves_bounds, class_in_use}
use ferp.PageHeap.{Ptr}
use ferp.ThreadCache.{Center, ThreadCache, allocate, deallocate, empty_list, max_free_list_length}
use ferp.ThreadCache.Bytes.{IsValid, list_bytes}
use ferp.ThreadCache.Release.{CenterLaws}
use ferp.ThreadCache.Calls.{allocate-IsValid, deallocate-IsValid}
use ferp.ThreadCache.Sampling.{Sampler, init, init-lists}

-- A call that the allocation interface makes.
pub data Call : Type 0 where
  alloc : ℕ → Call
  free : Ptr → ℕ → Call

abbrev pub IsAllowed : List Call → Type 0
IsAllowed [] = Unit {0}
IsAllowed (alloc size ∷ calls) = (size ≤ max_size) × IsAllowed calls
IsAllowed (free p cl ∷ calls) = (0 < cl) × (cl ≤ last_class) × IsAllowed calls

module _ {C : Center} (L : CenterLaws C) (limit : ℕ) where
  pub run : List Call → ThreadCache → C.State → ThreadCache × C.State
  run [] c s = (c, s)
  run (alloc size ∷ calls) c s = let r = allocate size_tables C size c s in run calls r.1 r.2
  run (free p cl ∷ calls) c s = let r = deallocate size_tables C limit p cl c s in run calls r.0 r.1

  run-IsValid :
      (calls : List Call) (c : ThreadCache) (s : C.State)
      → IsAllowed calls
      → IsValid size_tables max_free_list_length c
      → L.IsGood s
      → IsValid size_tables max_free_list_length (run calls c s).0
  unfolding run
  run-IsValid [] c s a v g = v
  run-IsValid (alloc size ∷ calls) c s a v g =
      let cl = size_class size_tables size in
      let (low, high) = class_in_use size a.0 in
      let (some, few) = moves_bounds cl low high in
      let (w, h) = allocate-IsValid size_tables L size c s (omega arith) some (omega arith) v g in
      let r = allocate size_tables C size c s in run-IsValid calls r.1 r.2 a.1 w h
  run-IsValid (free p cl ∷ calls) c s a v g =
      let (some, few) = moves_bounds cl a.0 a.1 in
      let (w, h) = deallocate-IsValid size_tables L limit p cl c s (omega arith) some v g in
      let r = deallocate size_tables C limit p cl c s in run-IsValid calls r.0 r.1 a.2 w h

-- The bytes of empty lists.
no_bytes : (n : ℕ) → sum_below (λ cl. byte_size_for_class size_tables cl * 0) n ≡ 0
unfolding sum_below
no_bytes zero = refl
no_bytes (suc n) = omega (arith, no_bytes n)

init-IsValid :
    (flag address tid : ℕ) (p : Sampler)
    → IsValid size_tables max_free_list_length (init flag address tid p).1
unfolding empty_list
init-IsValid flag address tid p =
    let (lists, size, tid_eq) = init-lists flag address tid p in
    let c = (init flag address tid p).1 in
    let none_yet =
      sum_below-same (λ cl. byte_size_for_class size_tables cl * 0) (list_bytes size_tables c)
        num_classes (λ j k. rw lists refl) in
    record {
      size_eq = omega (arith, size, none_yet, no_bytes num_classes);
      counted = λ j. rw lists (record { count = refl; low = omega arith; short = omega arith });
    }

-- After any calls of Allocate for at most kMaxSize bytes and of Deallocate for a class in use, on
-- a new thread cache, `size_` is the number of bytes in the free lists, as a 64-bit word, and
-- every free list counts its objects, has its low-water mark at most there, and has at most
-- kMaxFreeListLength of them.
pub run-size :
    {C : Center} (L : CenterLaws C) (limit flag address tid : ℕ) (p : Sampler) (s : C.State)
    (calls : List Call)
    → IsAllowed calls
    → L.IsGood s
    → IsValid size_tables max_free_list_length (run L limit calls (init flag address tid p).1 s).0
run-size L limit flag address tid p s calls a g =
    run-IsValid L limit calls (init flag address tid p).1 s a (init-IsValid flag address tid p) g
