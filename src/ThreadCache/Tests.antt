-- ===== src/ThreadCache/Tests.antt =====
-- The theorems on thread caches, over central lists that get no pages.
use mathlib.Core.List.Memᴰ
use ferp.Common.{ℕ, ◌%◌, ◌<◌, ◌≡◌, false, List, [], ◌∷◌, arith}
use ferp.Common.Bits.{u32_mod}
use ferp.SizeClass.{size_tables}
use ferp.PageHeap.{null}
use ferp.Central.{PageSource, Store}
use ferp.ThreadCache.{ThreadCache, empty_list, max_free_list_length}
use ferp.ThreadCache.Bytes.{IsValid}
use ferp.ThreadCache.Run.{Call, alloc, free, run, run-size}
use ferp.ThreadCache.Lists.{central_laws}
use ferp.ThreadCache.Sampling.{Sampler, init, IsChosen, pick_next_sample, pick_next_sample-IsChosen}

abbrev no_pages : PageSource
no_pages = record {
  Heap = ℕ;
  get_descriptor = λ h page. null;
  start_of = λ h p. 0;
  length_of = λ h p. 0;
  class_of = λ h p. 0;
  new_span = λ npages cl h. (null, h);
  delete_span = λ p h. h;
}

-- Every list has an object at 4096 in its only slot or none.
abbrev store : Store no_pages
store = record {
  heap = 0;
  objects = λ p. [];
  refcount = λ p. 0;
  central = λ cl. record { empty = []; nonempty = []; counter = 0; slots = []; cache_size = 1 };
  race_counter = 0;
}

abbrev calls : List Call
calls = free 4096 40 ∷ free 8192 40 ∷ alloc 1000 ∷ []

abbrev sampler : Sampler
sampler = record { sample_period = 262147; last_flag_value = 262144 }

run-size_example :
    IsValid size_tables max_free_list_length
      (run (central_laws size_tables no_pages) 2000 calls (init 262144 4096 1 sampler).1 store).0
run-size_example =
    run-size (central_laws size_tables no_pages) 2000 262144 4096 1 sampler store calls
      (omega arith, omega arith, (omega arith, omega arith, (omega arith, tt))) (λ cl. tt)

sampler-IsChosen : IsChosen sampler
sampler-IsChosen = record {
  positive = omega arith;
  below = omega arith;
  member = Memᴰ.tail (Memᴰ.tail (Memᴰ.tail (Memᴰ.head (λ i. 262147))));
  fits = λ h. omega arith;
  nearest = (
    λ h. omega arith,
    (
      λ h. omega arith,
      (
        λ h. omega arith,
        (
          λ h. omega arith,
          (
            λ h. omega arith,
            (
              λ h. omega arith,
              (
                λ h. omega arith,
                (λ h. omega arith, (λ h. omega arith, (λ h. omega arith, (λ h. omega arith, tt)))),
              ),
            ),
          ),
        ),
      ),
    ),
  );
  last = λ h d. absurd (omega arith);
}

abbrev one_cache : ThreadCache
one_cache = record {
  size = 0;
  tid = 1;
  in_setspecific = false;
  list = λ cl. empty_list;
  rnd = 1;
  bytes_until_sample = 0;
}

pick_next_sample-IsChosen_example :
    let r = pick_next_sample 524288 sampler one_cache in
    IsChosen r.0
    × (r.1.bytes_until_sample < r.0.sample_period)
    × (r.0.last_flag_value ≡ 524288 % u32_mod)
pick_next_sample-IsChosen_example =
    pick_next_sample-IsChosen 524288 sampler one_cache sampler-IsChosen
