-- ===== src/Central/Tests.antt =====
-- The theorems on the central lists at a span of one page, 40, which is cut into four objects of
-- 1024 bytes: two in its chain and two in use.
use ferp.Common.{◌-◌, ℕ, ◌+◌, ◌≡◌, refl, List, [], ◌∷◌, ◌==◌, if◌then◌else◌, arith}
use ferp.SizeClass.{size_tables, byte_size_for_class, num_classes}
use ferp.PageHeap.{Ptr, null}
use ferp.PageHeap.Rings.{chained}
use ferp.Central.{
  PageSource, Central, Store, init, objects_of, carve_objects, is_empty, fetch_from_spans,
  release_to_spans,
}
use ferp.Central.Carve.{Carved, carve_objects-span}
use ferp.Central.Counted.{Counted}
use ferp.Central.Fetch.{Fetched, fetch_from_spans-Fetched}
use ferp.Central.Release.{release_to_spans-Counted}
use ferp.Central.Transfer.{moves, insert_range, remove_range}
use ferp.Central.Transfer.Space.{total_cache, InBounds}
use ferp.Central.Transfer.Calls.{Call, insert, remove, run, run-total, remove_range-insert_range}

-- The span at 5 has the page 40, and there are no further pages.
abbrev one_span : PageSource
one_span = record {
  Heap = ℕ;
  get_descriptor = λ h page. if page == 40 then 5 else null;
  start_of = λ h p. 40;
  length_of = λ h p. 1;
  class_of = λ h p. 40;
  new_span = λ npages cl h. (null, h);
  delete_span = λ p h. h + 1;
}

abbrev in_use : Central
in_use = record { empty = []; nonempty = 5 ∷ []; counter = 2; slots = []; cache_size = 2 }

abbrev store : Store one_span
store = record {
  heap = 0;
  objects = λ p. 164864 ∷ 165888 ∷ [];
  refcount = λ p. 2;
  central = λ cl. in_use;
  race_counter = 0;
}

abbrev fresh : Store one_span
fresh = record store { central = λ cl. init }

in_use-Counted : Counted (store.central 40) store.objects
unfolding is_empty
in_use-Counted = record {
  distinct = (refl, tt);
  distinct_empty = tt;
  chains = λ p h. refl;
  no_chains = λ p h. ground arith;
  count = refl;
}

objects_of_span : objects_of size_tables 1 40 ≡ 4
unfolding objects_of byte_size_for_class size_tables
objects_of_span = refl

fetch_from_spans-Fetched_example : Fetched 40 store (fetch_from_spans 40 store)
fetch_from_spans-Fetched_example = fetch_from_spans-Fetched 40 store in_use-Counted

abbrev left : Store one_span
left = release_to_spans size_tables 40 163840 store

release_to_spans-Counted_example :
    Counted (left.central 40) left.objects
    × (chained left.objects (left.central 40).nonempty
          + (if store.refcount 5 == 1 then objects_of size_tables 1 40 else 0)
        ≡ chained store.objects (store.central 40).nonempty + 1)
    × (left.heap
        ≡ (if store.refcount 5 == 1 then one_span.delete_span 5 store.heap else store.heap))
    × ((j : Ptr) → left.refcount j ≡ (if j == 5 then store.refcount 5 - 1 else store.refcount j))
release_to_spans-Counted_example =
    release_to_spans-Counted size_tables 40 163840 5 store in_use-Counted refl refl (omega arith)
      (omega arith) (omega (arith, objects_of_span)) (omega (arith, objects_of_span))

carve_objects-span_example :
    Carved 1024 163840 4096 (carve_objects 4096 1024 163840 (163840 + 4096))
carve_objects-span_example = carve_objects-span 1024 163840 4096 (omega arith)

run-total_example :
    let calls : List Call = insert 40 (163840 ∷ []) 1 ∷ remove 40 3 ∷ [] in
    (total_cache (run size_tables calls fresh) ≡ num_classes)
    × InBounds (run size_tables calls fresh)
run-total_example =
    run-total size_tables (insert 40 (163840 ∷ []) 1 ∷ remove 40 3 ∷ []) fresh
      (omega arith, (omega arith, tt)) (λ j. refl)

remove_range-insert_range_example :
    let batch : List Ptr = 163840 ∷ 164864 ∷ [] in
    remove_range size_tables 40
      (moves size_tables 40)
      (insert_range size_tables 40 batch (moves size_tables 40) store)
    ≡ (batch, moves size_tables 40, store)
remove_range-insert_range_example =
    remove_range-insert_range size_tables 40 (163840 ∷ 164864 ∷ []) store (omega arith)
