-- ===== src/ThreadCache.antt =====
-- TCMalloc_ThreadCache of src/tcmalloc.cpp: the free lists of one thread and the bytes in them.
-- A free list is the list of its objects with the counters of TCMalloc_ThreadCache_FreeList, whose
-- links FreeList models; the central lists are an interface.
pub mod Bytes
pub mod Release
pub mod Valid
pub mod Sampling
pub mod Lists
pub mod Caches
mod Tests
pub mod Run
pub mod Calls
use ferp.Common.{
  ℕ, zero, suc, ◌+◌, ◌-◌, ◌*◌, ◌/◌, ◌%◌, ◌^◌, ◌≤◌, ◌≡◌, Bool, true, false, not, ◌&&◌, ◌||◌, Option,
  none, some, List, [], ◌∷◌, ◌++◌, ltb, leb, ◌==◌, if◌then◌else◌, update, length, get_or, take,
  drop, bit_xor,
}
use ferp.Common.Bits.{u16_mod, u32_mod, u64_mod}
use ferp.SizeClass.{num_classes, Tables, size_class, byte_size_for_class}
use ferp.PageHeap.{Ptr, add64, sub64}

abbrev pub max_free_list_length : ℕ
max_free_list_length = 256

-- What a thread uses of the central lists. RemoveRange answers the objects and their number.
pub record Center : Type 1 where
  pub State : Type 0
  pub remove_range : ℕ → ℕ → State → List Ptr × ℕ × State
  pub insert_range : ℕ → List Ptr → ℕ → State → State

-- TCMalloc_ThreadCache_FreeList
pub record ObjectList : Type 0 where
  pub objects : List Ptr
  pub length_ : ℕ
  pub lowater : ℕ

pub empty_list : ObjectList
empty_list = record { objects = []; length_ = 0; lowater = 0 }

abbrev pub lower : ObjectList → ObjectList
lower l = record l { lowater = if ltb l.length_ l.lowater then l.length_ else l.lowater }

abbrev pub push : Ptr → ObjectList → ObjectList
push p l = record l { objects = p ∷ l.objects; length_ = (l.length_ + 1) % u16_mod }

abbrev pub push_range : List Ptr → ℕ → ObjectList → ObjectList
push_range ps n l = record l { objects = ps ++ l.objects; length_ = (l.length_ + n) % u16_mod }

-- The list that stays; the objects that go are `take n l.objects`.
abbrev pub pop_range : ℕ → ObjectList → ObjectList
pop_range n l = lower (record l {
  objects = drop n l.objects;
  length_ = (l.length_ + (u16_mod - n % u16_mod)) % u16_mod;
})

pub record ThreadCache : Type 0 where
  pub size : ℕ
  pub tid : ℕ
  pub in_setspecific : Bool
  pub list : ℕ → ObjectList
  pub rnd : ℕ
  pub bytes_until_sample : ℕ

abbrev pub write_list : ℕ → ObjectList → ThreadCache → ThreadCache
write_list cl l c = record c { list = update c.list cl l }

abbrev pub moves : Tables → ℕ → ℕ
moves t cl = get_or t.num_objects_to_move cl 0

module _ (t : Tables) (C : Center) where
  pub fetch_from_central_cache : ℕ → ThreadCache → C.State → ThreadCache × C.State
  fetch_from_central_cache cl c s =
      let (objects, n, s') = C.remove_range cl (moves t cl) s in
      (
        record c {
          list = update c.list cl (push_range objects n (c.list cl));
          size = add64 c.size (byte_size_for_class t cl * n);
        },
        s',
      )

  -- A batch of the list of the class goes to the central list.
  pub release_batch : ℕ → ℕ → ThreadCache → C.State → ThreadCache × C.State
  release_batch cl n c s =
      let l = c.list cl in
      (write_list cl (pop_range n l) c, C.insert_range cl (take n l.objects) n s)

  -- The loop of ReleaseToCentralCache and the last batch. A round takes a batch, so with a batch
  -- of at least one there are no more rounds than objects.
  pub release_batches : ℕ → ℕ → ℕ → ThreadCache → C.State → ThreadCache × C.State
  release_batches zero cl n c s = release_batch cl n c s
  release_batches (suc fuel) cl n c s = elim (ltb (moves t cl) n) [
    | true ↦
        let (c', s') = release_batch cl (moves t cl) c s in
        release_batches fuel cl (n - moves t cl) c' s'
    | false ↦ release_batch cl n c s
  ]

  pub release_to_central_cache : ℕ → ℕ → ThreadCache → C.State → ThreadCache × C.State
  release_to_central_cache cl n c s =
      let n' = if ltb (c.list cl).length_ n then (c.list cl).length_ else n in
      release_batches n' cl n'
        (record c { size = sub64 c.size (n' * byte_size_for_class t cl % u64_mod) }) s

  -- The loop of Scavenge, for the classes that are left.
  pub scavenge_classes : ℕ → ℕ → ThreadCache → C.State → ThreadCache × C.State
  scavenge_classes zero cl c s = (c, s)
  scavenge_classes (suc left) cl c s =
      let lowmark = (c.list cl).lowater in
      let (c', s') =
        (if ltb 0 lowmark
          then release_to_central_cache cl (if ltb 1 lowmark then lowmark / 2 else 1) c s
          else (c, s)) in
      let l = c'.list cl in
      scavenge_classes left (cl + 1) (write_list cl (record l { lowater = l.length_ }) c') s'

  pub scavenge : ThreadCache → C.State → ThreadCache × C.State
  scavenge = scavenge_classes num_classes 0

  -- The end of Allocate: `none` is NULL, and Pop takes the first object.
  pub pop_object : ℕ → ThreadCache → Option Ptr × ThreadCache
  pop_object cl c = elim (c.list cl).objects [
    | [] ↦ (none, c)
    | p ∷ ps ↦ (
      some p,
      write_list cl (pop_range 1 (c.list cl))
          (record c { size = sub64 c.size (byte_size_for_class t cl % u64_mod) }),
    )
  ]

  pub allocate : ℕ → ThreadCache → C.State → Option Ptr × ThreadCache × C.State
  allocate size c s =
      let cl = size_class t size in
      elim (c.list cl).objects [
        | [] ↦
            let (c', s') = fetch_from_central_cache cl c s in
            let (p, c'') = pop_object cl c' in (p, c'', s')
        | p ∷ ps ↦ let (q, c'') = pop_object cl c in (q, c'', s)
      ]

  -- `limit` is per_thread_cache_size.
  pub deallocate : ℕ → Ptr → ℕ → ThreadCache → C.State → ThreadCache × C.State
  deallocate limit p cl c s =
      let pushed = record c {
        size = add64 c.size (byte_size_for_class t cl);
        list = update c.list cl (push p (c.list cl));
      } in
      let (c', s') =
        (if ltb max_free_list_length (pushed.list cl).length_
          then release_to_central_cache cl (moves t cl) pushed s
          else (pushed, s)) in
      if leb limit c'.size then scavenge c' s' else (c', s')

  -- The loop of Cleanup, for the classes that are left.
  pub cleanup_classes : ℕ → ℕ → ThreadCache → C.State → ThreadCache × C.State
  cleanup_classes zero cl c s = (c, s)
  cleanup_classes (suc left) cl c s =
      let n = (c.list cl).length_ in
      let (c', s') = (if ltb 0 n then release_to_central_cache cl n c s else (c, s)) in
      cleanup_classes left (cl + 1) c' s'

  pub cleanup : ThreadCache → C.State → ThreadCache × C.State
  cleanup = cleanup_classes num_classes 0
