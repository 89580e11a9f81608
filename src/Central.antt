-- ===== src/Central.antt =====
-- TCMalloc_Central_FreeList of src/tcmalloc.cpp. A chain of objects is the list of its members,
-- which the theorems of FreeList justify, and so are a ring of spans and the used part of
-- `tc_slots_`, the last slot first. `objects` and `refcount` of a span are kept apart from the
-- rest of it, which is the page heap's. A call runs with the lock held from begin to end.
pub mod Transfer
pub mod Carve
pub mod Source
pub mod Counted
pub mod Fetch
pub mod Release
mod Tests
use ferp.Common.{
  ℕ, zero, suc, ◌+◌, ◌-◌, ◌*◌, ◌/◌, ◌%◌, ◌^◌, ◌≤◌, ◌≡◌, Bool, true, false, not, ◌&&◌, ◌||◌, Option,
  none, some, List, [], ◌∷◌, ltb, leb, ◌==◌, if◌then◌else◌, update, length, get_or,
}
use ferp.Common.Bits.{u64_mod, shr, shl}
use ferp.SizeClass.{Tables, byte_size_for_class}
use ferp.PageHeap.{Ptr, null, dll_remove, add64, sub64, page_shift}

abbrev pub num_transfer_entries : ℕ
num_transfer_entries = 170

-- `refcount : 11`
abbrev pub refcount_mod : ℕ
refcount_mod = 2048

-- What the central lists use of the page heap. `new_span` is New and RegisterSizeClass under one
-- lock.
pub record PageSource : Type 1 where
  pub Heap : Type 0
  pub get_descriptor : Heap → ℕ → Ptr
  pub start_of : Heap → Ptr → ℕ
  pub length_of : Heap → Ptr → ℕ
  pub class_of : Heap → Ptr → ℕ
  pub new_span : ℕ → ℕ → Heap → Ptr × Heap
  pub delete_span : Ptr → Heap → Heap

-- The members of one list.
pub record Central : Type 0 where
  pub empty : List Ptr
  pub nonempty : List Ptr
  pub counter : ℕ
  pub slots : List (List Ptr)
  pub cache_size : ℕ

abbrev pub used_slots : Central → ℕ
used_slots c = length c.slots

pub init : Central
init = record { empty = []; nonempty = []; counter = 0; slots = []; cache_size = 1 }

-- The loop of Populate: the objects of `size` bytes from `ptr` on that end by `limit`.
pub carve_objects : ℕ → ℕ → ℕ → ℕ → List Ptr
carve_objects zero size ptr limit = []
carve_objects (suc fuel) size ptr limit = elim (leb (ptr + size) limit) [
  | true ↦ ptr ∷ carve_objects fuel size (ptr + size) limit
  | false ↦ []
]

unfoldable pub is_empty : List Ptr → Bool
is_empty [] = true
is_empty (x ∷ xs) = false

-- The objects that a span was cut into, as the source counts them.
pub objects_of : Tables → ℕ → ℕ → ℕ
objects_of t pages cl = shl pages page_shift / byte_size_for_class t cl

module _ (S : PageSource) where
  pub record Store : Type 0 where
    pub heap : S.Heap
    pub objects : Ptr → List Ptr
    pub refcount : Ptr → ℕ
    pub central : ℕ → Central
    pub race_counter : ℕ

module _ {S : PageSource} where
  -- A write to the members of the list of a class.
  abbrev pub at : ℕ → Store S → (Central → Central) → Store S
  at cl s f = record s { central = update s.central cl (f (s.central cl)) }

  -- DLL_Remove and DLL_Prepend, into `nonempty_` and into `empty_`.
  pub to_nonempty : ℕ → Ptr → Store S → Store S
  to_nonempty cl span s = at cl s λ c. record c {
    empty = dll_remove span c.empty;
    nonempty = span ∷ dll_remove span c.nonempty;
  }

  pub to_empty : ℕ → Ptr → Store S → Store S
  to_empty cl span s = at cl s λ c. record c {
    empty = span ∷ dll_remove span c.empty;
    nonempty = dll_remove span c.nonempty;
  }

  pub unlink_span : ℕ → Ptr → Store S → Store S
  unlink_span cl span s =
      at cl s
        λ c. record c { empty = dll_remove span c.empty; nonempty = dll_remove span c.nonempty }

  -- The first object of a span's chain goes out.
  pub take_object : ℕ → Ptr → Ptr → List Ptr → Store S → Store S
  take_object cl span object rest s =
      let counted = record s {
        refcount = update s.refcount span ((s.refcount span + 1) % refcount_mod);
        objects = update s.objects span rest;
      } in
      let moved = if is_empty rest then to_empty cl span counted else counted in
      at cl moved λ c. record c { counter = sub64 c.counter 1 }

  -- `none` is NULL.
  pub fetch_from_spans : ℕ → Store S → Option Ptr × Store S
  fetch_from_spans cl s = elim (s.central cl).nonempty [
    | [] ↦ (none, s)
    | span ∷ spans ↦ elim (s.objects span) [
      | [] ↦ (none, s)
      | object ∷ rest ↦ (some object, take_object cl span object rest s)
    ]
  ]

  -- The span goes to the other ring if its chain is empty, and the object is counted.
  pub count_back : ℕ → Ptr → Store S → Store S
  count_back cl span s =
      let moved = if is_empty (s.objects span) then to_nonempty cl span s else s in
      let refcount = (s.refcount span + (refcount_mod - 1)) % refcount_mod in
      at cl (record moved { refcount = update s.refcount span refcount })
        (λ c. record c { counter = add64 c.counter 1 })

module _ (t : Tables) {S : PageSource} where
  -- The span without an object in use goes back to the page heap.
  pub return_span : ℕ → Ptr → Store S → Store S
  return_span cl span s =
      let pages = S.length_of s.heap span in
      let counted =
        at cl s λ c. record c {
          counter = sub64 c.counter (objects_of t pages (S.class_of s.heap span));
        } in
      let unlinked = unlink_span cl span counted in
      record unlinked { heap = S.delete_span span s.heap }

  pub release_object : ℕ → Ptr → Ptr → Store S → Store S
  release_object cl object span s =
      let counted = count_back cl span s in
      if (counted.refcount span) == 0
      then return_span cl span counted
      else record counted { objects = update s.objects span (object ∷ s.objects span) }

  pub release_to_spans : ℕ → Ptr → Store S → Store S
  release_to_spans cl object s =
      release_object cl object (S.get_descriptor s.heap (shr object page_shift)) s

  pub release_list_to_spans : ℕ → List Ptr → Store S → Store S
  release_list_to_spans cl [] s = s
  release_list_to_spans cl (object ∷ rest) s =
      release_list_to_spans cl rest (release_to_spans cl object s)

  -- The loop of Populate gets a round for each byte; `none` means that the page heap has no span.
  pub populate : ℕ → Store S → Store S
  populate cl s =
      let npages = get_or t.class_to_pages cl 0 in
      let (span, heap) = S.new_span npages cl s.heap in
      if span == null
      then record s { heap = heap }
      else (let ptr = shl (S.start_of heap span) page_shift in
          let bytes = shl npages page_shift in
          let chain = carve_objects bytes (byte_size_for_class t cl) ptr (ptr + bytes) in
          let cut = record s {
            heap = heap;
            objects = update s.objects span chain;
            refcount = update s.refcount span 0;
          } in
          at cl cut λ c. record c {
            nonempty = span ∷ c.nonempty;
            counter = add64 c.counter (length chain);
          })

  pub fetch_from_spans_safe : ℕ → Store S → Option Ptr × Store S
  fetch_from_spans_safe cl s =
      let (object, s') = fetch_from_spans cl s in
      elim object [ some p ↦ (some p, s') | none ↦ fetch_from_spans cl (populate cl s') ]
