-- ===== src/PageHeap/Pages/Enter.antt =====
-- The end of TCMalloc_PageHeap::Delete in src/tcmalloc.cpp: the span goes into its list.
use ferp.Common.{
  ℕ, ◌≡◌, ◌≢◌, refl, true, some, ltb, List, [], ◌∷◌, if◌then◌else◌, update, arith, Bool-cases, inl,
  inr,
}
use ferp.PageMap.Interface.{PageMap}
use ferp.PageHeap.{has, Ptr, Span, System, PageHeap, add64, max_pages, link, dll_insert_ordered}
use ferp.PageHeap.Pages.{enter_free}
use ferp.PageHeap.Pages.Register.{page}

has-dll_insert_ordered :
    (spans : Ptr → Span) (p : Ptr) (ps : List Ptr) → has p (dll_insert_ordered spans p ps) ≡ true
unfolding dll_insert_ordered
has-dll_insert_ordered spans p [] = ground arith
has-dll_insert_ordered spans p (q ∷ qs) = ground (arith, has-dll_insert_ordered spans p qs)

has-dll_insert_ordered-others :
    (spans : Ptr → Span) (p x : Ptr) (ps : List Ptr)
    → x ≢ p
    → has x (dll_insert_ordered spans p ps) ≡ has x ps
unfolding dll_insert_ordered
has-dll_insert_ordered-others spans p x [] d = ground (arith, d)
has-dll_insert_ordered-others spans p x (q ∷ qs) d =
    ground (arith, d, has-dll_insert_ordered-others spans p x qs d)

module _ {P : PageMap} {Y : System} where
  -- The list that a span of `len` pages belongs to.
  abbrev pub list_for : PageHeap P Y → ℕ → List Ptr
  list_for h len = if ltb len max_pages then h.free len else h.large

  pub record Entered (h : PageHeap P Y) (p : Ptr) (n : ℕ) (h1 : PageHeap P Y) : Type 0 where
    pub freed : h1.spans p ≡ record (h.spans p) { free = true }
    pub others : (q : Ptr) → q ≢ p → h1.spans q ≡ h.spans q
    pub pages : (j : ℕ) → page h1 j ≡ page h j
    pub count : h1.free_pages ≡ add64 h.free_pages n
    pub listed : has p (list_for h1 (h.spans p).length) ≡ true
    pub large : (x : Ptr) → x ≢ p → has x h1.large ≡ has x h.large
    pub lists : (x s : ℕ) → x ≢ p → has x (h1.free s) ≡ has x (h.free s)

  pub enter_free-Entered :
      (h : PageHeap P Y) (p : Ptr) (n : ℕ)
      → (h1 : PageHeap P Y) × (enter_free p n h ≡ some (tt, h1)) × Entered h p n h1
  unfolding enter_free link
  enter_free-Entered h p n = elim (Bool-cases (ltb (h.spans p).length max_pages)) [
    | inl t ↦ rw t (
      _,
      refl,
      record {
        freed = ground arith;
        others = λ q d. ground arith;
        pages = λ j. refl;
        count = refl;
        listed = ground (arith, t);
        large = λ x d. refl;
        lists = λ x s d. ground (arith, d);
      },
    )
    | inr t ↦ rw t (
      _,
      refl,
      record {
        freed = ground arith;
        others = λ q d. ground arith;
        pages = λ j. refl;
        count = refl;
        listed = ground (
          arith,
          t,
          has-dll_insert_ordered (update h.spans p (record (h.spans p) { free = true })) p h.large,
        );
        large = λ x d.
            has-dll_insert_ordered-others (update h.spans p (record (h.spans p) { free = true })) p
              x h.large d;
        lists = λ x s d. refl;
      },
    )
  ]
