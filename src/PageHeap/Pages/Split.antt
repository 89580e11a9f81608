-- ===== src/PageHeap/Pages/Split.antt =====
-- RecordSpan and TCMalloc_PageHeap::Split of src/tcmalloc.cpp.
use ferp.Common.{
  ℕ, ◌+◌, ◌-◌, ◌<◌, ◌^◌, ◌≡◌, ◌≢◌, ◌∙◌, refl, sym, false, ◌||◌, Option, none, some, ltb, ◌==◌,
  if◌then◌else◌, update, arith, Bool-cases, inl, inr,
}
use ferp.Common.Bits.{u64_mod}
use ferp.PageMap.Interface.{PageMap}
use ferp.PageHeapAllocator.{Area, new}
use ferp.PageHeap.{
  Ptr, null, System, PageHeap, set_page, bind-some, add64, sub64, pure, store_span, span_of, ◌>>=◌,
  ◌>>◌, record_span, new_span, span_size, int_of,
}
use ferp.PageHeap.Pages.{split}
use ferp.PageHeap.Pages.Register.{page, remap, set_page-page}

int_of-small : (a : ℕ) → a < 2 ^ 31 → int_of a ≡ a
unfolding int_of
int_of-small a h = ground arith

module _ {P : PageMap} {Y : System} where
  record_span-eq :
      (h : PageHeap P Y) (p : Ptr) (m : P.Map)
      → set_page (h.spans p).start p h ≡ some (tt, remap h m)
      → record_span p h
        ≡ (if ltb 1 (h.spans p).length
              then set_page (sub64 (add64 (h.spans p).start (h.spans p).length) 1) p
              else pure tt)
            (remap h m)
  unfolding record_span
  record_span-eq h p m e =
      bind-some (set_page (h.spans p).start p)
        (λ _.
          if ltb 1 (h.spans p).length
          then set_page (sub64 (add64 (h.spans p).start (h.spans p).length) 1) p
          else pure tt)
        e

  pub record_span-page :
      (h : PageHeap P Y) (p : Ptr)
      → 0 < (h.spans p).length
      → (h.spans p).start + (h.spans p).length < u64_mod
      → page h (h.spans p).start ≢ none
      → page h ((h.spans p).start + (h.spans p).length - 1) ≢ none
      → (m : P.Map) × (record_span p h ≡ some (tt, remap h m))
        × ((j : ℕ)
            → P.get m j ≡ (
                if (j == (h.spans p).start) || (j == (h.spans p).start + (h.spans p).length - 1)
                then some p
                else page h j))
  record_span-page h p pos fits first last =
      let word : sub64 (add64 (h.spans p).start (h.spans p).length) 1
          ≡ (h.spans p).start + (h.spans p).length - 1 =
        omega arith in
      let (m, e, read) = set_page-page h (h.spans p).start p first in
      let (m', e', read') =
        set_page-page (remap h m) (sub64 (add64 (h.spans p).start (h.spans p).length) 1) p
          (rw word (ground (arith, read ((h.spans p).start + (h.spans p).length - 1), last))) in
      elim (Bool-cases (ltb 1 (h.spans p).length)) [
        | inl t ↦ (m', record_span-eq h p m e ∙ rw t e', λ j. ground (arith, read j, read' j, word))
        | inr t ↦ (m, record_span-eq h p m e ∙ rw t refl, λ j. ground (arith, read j))
      ]

  -- The heap in which the span at `q` is the new one.
  abbrev added : PageHeap P Y → Ptr → Area → ℕ → Y.State → ℕ → ℕ → PageHeap P Y
  added h q a metadata y start length = record h {
    span_allocator = a;
    metadata_system_bytes = metadata;
    system = y;
    spans = update h.spans q (record {
      start = start;
      length = length;
      objects = null;
      free = false;
      sample = false;
      sizeclass = 0;
      refcount = 0;
    });
  }

  pub new_span-added :
      (h : PageHeap P Y) (q : Ptr) (a : Area) (metadata : ℕ) (y : Y.State) (start length : ℕ)
      → new Y.system_alloc span_size h.span_allocator h.metadata_system_bytes h.system
        ≡ some (q, a, metadata, y)
      → new_span start length h ≡ some (q, added h q a metadata y start length)
  unfolding new_span
  new_span-added h q a metadata y start length e = rw (e, new_span) refl

  -- The same, with names for the span's first page and its length.
  record_span-at :
      (h : PageHeap P Y) (p : Ptr) (start length : ℕ)
      → (h.spans p).start ≡ start
      → (h.spans p).length ≡ length
      → 0 < length
      → start + length < u64_mod
      → page h start ≢ none
      → page h (start + length - 1) ≢ none
      → (m : P.Map) × (record_span p h ≡ some (tt, remap h m))
        × ((j : ℕ)
            → P.get m j ≡ (if (j == start) || (j == start + length - 1) then some p else page h j))
  record_span-at h p start length es el pos fits first last =
      rw (sym es, sym el)
        (record_span-page h p (omega arith) (omega arith) (rw es first) (rw (es, el) last))

  -- The end of Split.
  abbrev shorten : Ptr → ℕ → Ptr → PageHeap P Y → Option (Ptr × PageHeap P Y)
  shorten p n q = span_of p >>= λ span. store_span p (record span { length = n }) >> pure q

  split-by :
      (h h1 h2 h3 : PageHeap P Y) (p q : Ptr) (n a b : ℕ)
      → add64 (h.spans p).start n ≡ a
      → int_of (sub64 (h.spans p).length n) ≡ b
      → new_span a b h ≡ some (q, h1)
      → record_span q h1 ≡ some (tt, h2)
      → set_page (sub64 a 1) p h2 ≡ some (tt, h3)
      → split p n h ≡ shorten p n q h3
  unfolding split
  split-by h h1 h2 h3 p q n a b ea eb e f g =
      rw (ea, eb)
        (bind-some (new_span a b) (λ x. record_span x >> (set_page (sub64 a 1) p >> shorten p n x))
            e
          ∙ bind-some (record_span q) (λ _. set_page (sub64 a 1) p >> shorten p n q) f
          ∙ bind-some (set_page (sub64 a 1) p) (λ _. shorten p n q) g)

  -- After Split at `n` pages into a new span at `q`: the old span keeps its first `n` pages, the
  -- new one has the others, and their ends lead to them.
  pub record Parted (h : PageHeap P Y) (p q : Ptr) (start length n : ℕ) (h1 : PageHeap P Y)
      : Type 0 where
    pub kept : h1.spans p ≡ record (h.spans p) { length = n }
    pub start_eq : (h1.spans q).start ≡ start + n
    pub length_eq : (h1.spans q).length ≡ length - n
    pub free_eq : (h1.spans q).free ≡ false
    pub class_eq : (h1.spans q).sizeclass ≡ 0
    pub others : (x : Ptr) → x ≢ p → x ≢ q → h1.spans x ≡ h.spans x
    pub pages :
        (j : ℕ)
        → page h1 j ≡ (
            if j == start + n - 1
            then some p
            else if (j == start + n) || (j == start + length - 1)
            then some q
            else page h j)
    pub count : h1.free_pages ≡ h.free_pages

  -- Split of a span of less than 2 ^ 31 pages at a positive number `n` of pages less than its
  -- own, where NewSpan has memory at another address `q` and the three pages that Split writes
  -- are in the page map, succeeds: it answers the new span, and the heap is as `Parted` says.
  pub split-Parted :
      (h : PageHeap P Y) (p q : Ptr) (a : Area) (metadata : ℕ) (y : Y.State) (start length n : ℕ)
      → (h.spans p).start ≡ start
      → (h.spans p).length ≡ length
      → 0 < n
      → n < length
      → length < 2 ^ 31
      → start + length < u64_mod
      → p ≢ q
      → new Y.system_alloc span_size h.span_allocator h.metadata_system_bytes h.system
        ≡ some (q, a, metadata, y)
      → page h (start + n - 1) ≢ none
      → page h (start + n) ≢ none
      → page h (start + length - 1) ≢ none
      → (h1 : PageHeap P Y) × (split p n h ≡ some (q, h1)) × Parted h p q start length n h1
  split-Parted h p q a metadata y start length n es el pos lt small fits ne e m0 m1 m2 =
      let h1 = added h q a metadata y (start + n) (length - n) in
      let sum : start + n + (length - n) - 1 ≡ start + length - 1 = omega arith in
      let (m, f, read) =
        record_span-at h1 q (start + n) (length - n) (ground arith) (ground arith) (omega arith)
          (omega arith) m1 (rw sum m2) in
      let word : sub64 (start + n) 1 ≡ start + n - 1 = omega arith in
      let (m', g, read') =
        set_page-page (remap h1 m) (sub64 (start + n) 1) p
          (rw word (ground (arith, read (start + n - 1), m0))) in
      let extra : sub64 (h.spans p).length n ≡ length - n = omega arith in
      (
        _,
        split-by h h1 (remap h1 m) (remap h1 m') p q n (start + n) (length - n) (omega arith)
            (rw extra (int_of-small (length - n) (omega arith)))
            (new_span-added h q a metadata y (start + n) (length - n) e) f g,
        record {
          kept = ground arith;
          start_eq = ground arith;
          length_eq = ground arith;
          free_eq = ground arith;
          class_eq = ground arith;
          others = λ x b c. ground arith;
          pages = λ j. ground (arith, read j, read' j, word, sum);
          count = refl;
        },
      )
