-- ===== src/PageHeap/Pages/Tests.antt =====
-- RegisterSizeClass, Delete and Split at a span of four pages, over a page map that is a function.
use ferp.Common.{
  ℕ, ◌+◌, ◌≡◌, refl, true, false, some, ◌==◌, if◌then◌else◌, update, arith, [], ◌∷◌, every_until,
  Bool-cases, inl, inr,
}
use ferp.PageMap.Interface.{PageMap}
use ferp.PageHeapAllocator.{Area, empty_area, new}
use ferp.PageHeap.{is_listed, Span, null, System, PageHeap}
use ferp.PageHeap.Pages.{delete_pages, split}
use ferp.PageHeap.Pages.Split.{Parted, split-Parted}
use ferp.PageHeap.Pages.Join.{AreDistinct}
use ferp.PageHeap.Pages.Delete.{Deleted, delete_pages-Deleted}

-- Every page is in the map.
abbrev pub flat : PageMap
flat = record {
  Map = ℕ → ℕ;
  get = λ m k. some (m k);
  set = λ m k v. some (update m k v);
  ensure = λ m k n. some (true, m);
  preallocate = λ m. m;
  get-set = λ m k u v h. (update m k v, refl, λ j. ground arith);
}

-- Memory from a counter, and empty stacks.
abbrev pub counter : System
counter = record {
  State = ℕ;
  system_alloc = λ bytes alignment s. (s, s + bytes);
  get_stack_trace = λ n s. (0, λ i. 0);
}

abbrev four_pages : Span
four_pages = record {
  start = 40;
  length = 4;
  objects = null;
  free = false;
  sample = false;
  sizeclass = 0;
  refcount = 0;
}

-- The span at 5 has the pages 40 to 43.
abbrev pub heap : PageHeap flat counter
heap = record {
  spans = λ p. four_pages;
  span_allocator = empty_area;
  traces = λ p. record { size = 0; depth = 0; stack = λ i. 0 };
  stacktrace_allocator = empty_area;
  metadata_system_bytes = 0;
  system = 8192;
  pagemap = λ k. if k == 40 then 5 else if k == 43 then 5 else 0;
  large = [];
  free = λ s. [];
  free_pages = 0;
  system_bytes = 0;
}

abbrev ten_pages : Span
ten_pages = record {
  start = 30;
  length = 10;
  objects = null;
  free = true;
  sample = false;
  sizeclass = 0;
  refcount = 0;
}

-- Before it, the span at 6 has the pages 30 to 39 and is free.
abbrev two_spans : PageHeap flat counter
two_spans = record heap {
  spans = λ p. if p == 6 then ten_pages else four_pages;
  pagemap = λ k.
      if k == 40 then 5 else if k == 43 then 5 else if k == 30 then 6 else if k == 39 then 6 else 0;
  free = λ s. if s == 10 then 6 ∷ [] else [];
  free_pages = 10;
}

two_spans-AreDistinct : AreDistinct two_spans
two_spans-AreDistinct =
    (tt, λ s. elim (Bool-cases (s == 10)) [ inl e ↦ rw e (refl, tt) | inr e ↦ rw e tt ])

six_listed : is_listed 6 two_spans ≡ true
unfolding is_listed every_until
six_listed = refl

delete_pages-Deleted_example :
    (h1 : PageHeap flat counter) × (delete_pages 5 two_spans ≡ some (tt, h1))
    × Deleted two_spans 5 6 null true false 40 4 10 0 h1
delete_pages-Deleted_example =
    delete_pages-Deleted two_spans 5 6 null (omega arith) refl refl refl refl refl
      two_spans-AreDistinct (λ t. six_listed) (λ t. absurd (ground (arith, t)))
      (λ t u. absurd (ground (arith, u))) (omega arith) (omega arith) (λ h. absurd (ground arith))
      (λ h. absurd (ground arith))

-- A deleted Span object at 9, before and after it is used again.
abbrev spare : Area
spare = record { free_area = 0; free_avail = 0; free_list = 9 ∷ []; inuse = 1 }

abbrev spent : Area
spent = record { free_area = 0; free_avail = 0; free_list = []; inuse = 2 }

abbrev with_spare : PageHeap flat counter
with_spare = record heap { span_allocator = spare }

split-Parted_example :
    (h1 : PageHeap flat counter) × (split 5 1 with_spare ≡ some (9, h1))
    × Parted with_spare 5 9 40 4 1 h1
unfolding new
split-Parted_example =
    split-Parted with_spare 5 9 spent 0 8192 40 4 1 refl refl (omega arith) (omega arith)
      (omega arith) (omega arith) (λ h. absurd (ground arith)) refl (λ h. absurd (ground arith))
      (λ h. absurd (ground arith)) (λ h. absurd (ground arith))
