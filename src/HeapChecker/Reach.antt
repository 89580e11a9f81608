-- ===== src/HeapChecker/Reach.antt =====
-- What can be reached from the objects of src/heapcheck.cpp.
use mathlib.Core.List.{Memᴰ}
use ferp.Common.{
  ℕ, zero, suc, ◌+◌, ◌/◌, ◌%◌, ◌≡◌, true, false, none, some, List, [], ◌∷◌, ◌==◌, if◌then◌else◌,
  ◌⊎◌,
}
use ferp.Common.Bits.{u64_mod}
use ferp.AddressMap.{find}
use ferp.HeapProfiler.{AllocValue, HeapProfile, have_on_heap_locked}
use ferp.HeapChecker.{
  ignored_on_heap, AllocObject, LeakSearch, word, is_must, align_object, is_ignored,
}

-- The object for an allocation that was found.
abbrev pub heap_object : ℕ → AllocValue → AllocObject
heap_object q v = record { ptr = q; size = v.bytes; place = ignored_on_heap }

-- The words that are loaded from an address on.
unfoldable pub loaded : (ℕ → ℕ) → ℕ → ℕ → List ℕ
loaded load zero object = []
loaded load (suc left) object = load object ∷ loaded load left ((object + word) % u64_mod)

module _ (p : HeapProfile) (load : ℕ → ℕ) where
  -- Where an object starts.
  unfoldable pub start_of : AllocObject → ℕ
  start_of o =
      if is_must o.place
      then elim (have_on_heap_locked o.ptr p) [ none ↦ o.ptr | some (start, v) ↦ start ]
      else o.ptr

  -- The words in an object.
  unfoldable pub contents : ℕ → ℕ → List ℕ
  contents object size =
      let (start, rest) = align_object object size in loaded load (rest / word) start

  -- One of the words points to the allocation at `q`.
  abbrev pub PointsTo : List ℕ → ℕ → Type 0
  PointsTo ws q =
      (ptr : ℕ) × (v : AllocValue) × Memᴰ ptr ws
      × ((ptr == 0) ≡ false)
      × (have_on_heap_locked ptr p ≡ some (q, v))

  -- The object is an allocation itself, or a word in it points to one.
  abbrev pub IsTarget : AllocObject → ℕ → Type 0
  IsTarget o q =
      ((is_must o.place ≡ true) × (v : AllocValue) × (have_on_heap_locked o.ptr p ≡ some (q, v)))
      ⊎ PointsTo (contents (start_of o) o.size) q

  -- The allocations that can be reached from roots and from those that were ignored before.
  pub data Reach (roots : List AllocObject) (before : List ℕ) : ℕ → Type 0 where
    already : {q : ℕ} → is_ignored before q ≡ true → Reach roots before q
    root : {o : AllocObject} {q : ℕ} → Memᴰ o roots → IsTarget o q → Reach roots before q
    step :
        {q r : ℕ} {v : AllocValue}
        → Reach roots before q
        → find p.allocation q ≡ some v
        → IsTarget (heap_object q v) r
        → Reach roots before r

  -- An object on a stack starts at `q` and has the size of the allocation.
  abbrev pub Pending : List AllocObject → ℕ → AllocValue → Type 0
  Pending live q v = (o : AllocObject) × Memᴰ o live × (start_of o ≡ q) × (o.size ≡ v.bytes)

  -- What an ignored allocation points to is ignored too, or is found when the stack is looked into.
  abbrev pub IsClosed : LeakSearch → Type 0
  IsClosed s =
      (q r : ℕ) (v : AllocValue)
      → is_ignored s.ignored q ≡ true
      → find p.allocation q ≡ some v
      → IsTarget (heap_object q v) r
      → Pending s.live_objects q v ⊎ (is_ignored s.ignored r ≡ true)

  -- The objects that must be on the heap have the size of the allocation they are found in.
  abbrev pub IsHonest : List AllocObject → Type 0
  IsHonest os =
      (o : AllocObject) (q : ℕ) (v : AllocValue)
      → Memᴰ o os
      → is_must o.place ≡ true
      → have_on_heap_locked o.ptr p ≡ some (q, v)
      → o.size ≡ v.bytes
