-- ===== src/Central/Transfer.antt =====
-- The transfer cache of TCMalloc_Central_FreeList in src/tcmalloc.cpp: batches of objects in the
-- slots of `tc_slots_`, and the classes that take slots from each other. The tests that
-- ShrinkCache makes before and after the exchange of the locks are the same tests.
pub mod Sizes
pub mod Space
pub mod Batches
pub mod Calls
use ferp.Common.{
  ℕ, zero, suc, ◌+◌, ◌-◌, ◌%◌, ◌≤◌, ◌≡◌, Bool, true, false, not, ◌&&◌, ◌||◌, Option, none, some,
  List, [], ◌∷◌, ltb, leb, ◌==◌, if◌then◌else◌, update, length, get_or,
}
use ferp.SizeClass.{num_classes, Tables}
use ferp.PageHeap.{Ptr}
use ferp.Central.{
  PageSource, Store, Central, used_slots, at, release_list_to_spans, fetch_from_spans,
  fetch_from_spans_safe, num_transfer_entries,
}

abbrev pub moves : Tables → ℕ → ℕ
moves t cl = get_or t.num_objects_to_move cl 0

-- The two statements on `race_counter`: the class to try, and the counter after them.
pub race : ℕ → ℕ × ℕ
race counter =
    if leb num_classes counter
    then (counter % num_classes, counter % num_classes)
    else (counter, counter + 1)

module _ {S : PageSource} where
  abbrev pub grow_cache : ℕ → Store S → Store S
  grow_cache cl s = at cl s λ c. record c { cache_size = c.cache_size + 1 }

  -- A batch goes into the next slot, and out of the last one.
  abbrev pub pushed : ℕ → List Ptr → Store S → Store S
  pushed cl objects s = at cl s λ c. record c { slots = objects ∷ c.slots }

  abbrev pub popped : ℕ → List (List Ptr) → Store S → Store S
  popped cl slots s = at cl s λ c. record c { slots = slots }

  -- The loop of RemoveRange, for the rounds that are left: each object goes in front.
  pub fetch_more : ℕ → ℕ → List Ptr → Store S → List Ptr × Store S
  fetch_more zero cl head s = (head, s)
  fetch_more (suc left) cl head s =
      let (object, s') = fetch_from_spans cl s in
      elim object [ none ↦ (head, s') | some p ↦ fetch_more left cl (p ∷ head) s' ]

module _ (t : Tables) {S : PageSource} where
  -- The slot on top goes back to the spans.
  pub drop_slot : ℕ → List (List Ptr) → Store S → Store S
  drop_slot cl [] s = s
  drop_slot cl (batch ∷ slots) s =
      release_list_to_spans t cl batch
        (at cl s λ c. record c { cache_size = c.cache_size - 1; slots = slots })

  pub shrink_cache : ℕ → Bool → Store S → Bool × Store S
  shrink_cache cl force s =
      let c = s.central cl in
      if c.cache_size == 0
      then (false, s)
      else if used_slots c == c.cache_size
      then (if force then (true, drop_slot cl c.slots s) else (false, s))
      else (true, at cl s λ c. record c { cache_size = c.cache_size - 1 })

  pub evict_random_size_class : ℕ → Bool → Store S → Bool × Store S
  evict_random_size_class locked force s =
      let (cl, counter) = race s.race_counter in
      let counted = record s { race_counter = counter } in
      if cl == locked then (false, counted) else shrink_cache cl force counted

  pub make_cache_space : ℕ → Store S → Bool × Store S
  make_cache_space cl s =
      let c = s.central cl in
      if ltb (used_slots c) c.cache_size
      then (true, s)
      else if c.cache_size == num_transfer_entries
      then (false, s)
      else (let (first, s1) = evict_random_size_class cl false s in
          if first
          then (true, grow_cache cl s1)
          else (let (second, s2) = evict_random_size_class cl true s1 in
              if second then (true, grow_cache cl s2) else (false, s2)))

  pub insert_range : ℕ → List Ptr → ℕ → Store S → Store S
  insert_range cl objects n s =
      if n == moves t cl
      then (let (space, s') = make_cache_space cl s in
          if space then pushed cl objects s' else release_list_to_spans t cl objects s')
      else release_list_to_spans t cl objects s

  -- The branch of RemoveRange that asks the spans.
  pub remove_objects : ℕ → ℕ → Store S → List Ptr × Store S
  remove_objects cl num s =
      let (object, s') = fetch_from_spans_safe t cl s in
      elim object [ none ↦ ([], s') | some tail ↦ fetch_more (num - 1) cl (tail ∷ []) s' ]

  -- The objects, and what the call stores in *N.
  pub remove_range : ℕ → ℕ → Store S → List Ptr × ℕ × Store S
  remove_range cl num s =
      let c = s.central cl in
      let (objects, s') = remove_objects cl num s in
      if num == moves t cl
      then elim c.slots [
        | [] ↦ (objects, length objects, s')
        | batch ∷ slots ↦ (batch, num, popped cl slots s)
      ]
      else (objects, length objects, s')
