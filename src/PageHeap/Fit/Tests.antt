-- ===== src/PageHeap/Fit/Tests.antt =====
-- The searches of New at a heap with three large spans.
use ferp.Common.{ℕ, ◌*◌, ◌≡◌, refl, false, List, [], ◌∷◌, ◌==◌, if◌then◌else◌}
use ferp.PageHeap.{Ptr, null, Span, best_fit}

-- The span at `p` has 100 times `p` pages.
abbrev spans : Ptr → Span
spans p = record {
  start = 1000 * p;
  length = 100 * p;
  objects = null;
  free = false;
  sample = false;
  sizeclass = 0;
  refcount = 0;
}

abbrev large : List Ptr
large = 9 ∷ 5 ∷ 7 ∷ []

best_of_three : best_fit spans 450 large null ≡ 5
unfolding best_fit
best_of_three = refl

-- Two spans of 20 pages.
abbrev lists : ℕ → List Ptr
lists s = if s == 20 then 8 ∷ 3 ∷ [] else []
