-- ===== src/PageHeap/Pages/Register.antt =====
-- TCMalloc_PageHeap::RegisterSizeClass of src/tcmalloc.cpp: which pages lead to the span.
use ferp.Common.{
  ℕ, zero, suc, ◌+◌, ◌-◌, ◌%◌, ◌≤◌, ◌<◌, ◌≡◌, ◌≢◌, refl, ◌&&◌, Option, none, some, ltb, leb, ◌==◌,
  if◌then◌else◌, update, arith, ◌∙◌, Option-cases, inl, inr,
}
use ferp.Common.Bits.{u64_mod}
use ferp.PageMap.Interface.{PageMap}
use ferp.PageHeap.{Ptr, System, PageHeap, set_page, bind-some, add64, sub64}
use ferp.PageHeap.Pages.{register_pages, register_size_class}

module _ {P : PageMap} {Y : System} where
  -- What the page map reads, and the heap with another page map.
  abbrev pub page : PageHeap P Y → ℕ → Option Ptr
  page h k = P.get h.pagemap k

  abbrev pub remap : PageHeap P Y → P.Map → PageHeap P Y
  remap h m = record h { pagemap = m }

  pub set_page-page :
      (h : PageHeap P Y) (k : ℕ) (p : Ptr)
      → page h k ≢ none
      → (m : P.Map) × (set_page k p h ≡ some (tt, remap h m))
        × ((j : ℕ) → P.get m j ≡ (if j == k then some p else page h j))
  unfolding set_page
  set_page-page h k p f = elim (Option-cases (page h k)) [
    | inl e ↦ absurd (f e)
    | inr (u, e) ↦
        let (m, s, read) = P.get-set h.pagemap k u p e in (m, rw (s, set_page) refl, read)
  ]

  -- The pages from `a` to `b - 1` lead to the span, the others where they led before.
  abbrev pub Leads : ℕ → ℕ → Ptr → PageHeap P Y → P.Map → Type 0
  Leads a b p h m = (j : ℕ) → P.get m j ≡ (if leb a j && ltb j b then some p else page h j)

  register_pages-Leads :
      (left start i : ℕ) (p : Ptr) (h : PageHeap P Y)
      → start + i + left < u64_mod
      → ((j : ℕ) → start + i ≤ j → j < start + i + left → page h j ≢ none)
      → (m : P.Map) × (register_pages left start i p h ≡ some (tt, remap h m))
        × Leads (start + i) (start + i + left) p h m
  unfolding register_pages
  register_pages-Leads zero start i p h fits mapped = (h.pagemap, refl, λ j. ground arith)
  register_pages-Leads (suc left) start i p h fits mapped =
      let word : add64 start i ≡ start + i = omega arith in
      let (m, e, read) =
        set_page-page h (add64 start i) p
          (rw word (mapped (start + i) (omega arith) (omega arith))) in
      let (m', e', read') =
        register_pages-Leads left start (i + 1) p (remap h m) (omega arith)
          (λ j a b. ground (arith, read j, mapped j)) in
      (
        m',
        bind-some (set_page (add64 start i) p) (λ _. register_pages left start (i + 1) p) e ∙ e',
        λ j. ground (arith, read j, read' j),
      )

  abbrev pub with_class : Ptr → ℕ → PageHeap P Y → PageHeap P Y
  with_class p sc h = record h { spans = update h.spans p (record (h.spans p) { sizeclass = sc }) }

  -- RegisterSizeClass of a span of at least one page, to whose first and last page the page map
  -- leads it and whose other pages are in the page map, succeeds: it sets the span's size class,
  -- modulo 256, leads every page of the span to it, and changes no other page or span.
  pub register_size_class-Leads :
      (h : PageHeap P Y) (p : Ptr) (sc : ℕ)
      → 0 < (h.spans p).length
      → (h.spans p).start + (h.spans p).length < u64_mod
      → page h (h.spans p).start ≡ some p
      → page h ((h.spans p).start + (h.spans p).length - 1) ≡ some p
      → ((j : ℕ)
          → (h.spans p).start ≤ j
          → j < (h.spans p).start + (h.spans p).length
          → page h j ≢ none)
      → (m : P.Map) × (register_size_class p sc h ≡ some (tt, remap (with_class p (sc % 256) h) m))
        × Leads (h.spans p).start ((h.spans p).start + (h.spans p).length) p h m
  unfolding register_size_class
  register_size_class-Leads h p sc pos fits first last mapped =
      let start = (h.spans p).start in
      let left = sub64 (h.spans p).length 1 - 1 in
      let inner : left ≡ (h.spans p).length - 2 = omega arith in
      let (m, e, read) =
        register_pages-Leads left start 1 p (with_class p (sc % 256) h) (omega arith)
          (λ j a b. mapped j (omega arith) (omega arith)) in
      (m, e, λ j. ground (arith, read j, first, last))
