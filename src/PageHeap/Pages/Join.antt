-- ===== src/PageHeap/Pages/Join.antt =====
-- The two joins of TCMalloc_PageHeap::Delete in src/tcmalloc.cpp.
use ferp.Common.{
  ℕ, ◌<◌, ◌≡◌, ◌≢◌, ◌∙◌, refl, Bool, true, false, not, get_or, ◌&&◌, none, some, ◌==◌,
  if◌then◌else◌, update, arith, Bool-cases, inl, inr,
}
use ferp.Common.Bits.{u64_mod}
use ferp.PageMap.Interface.{PageMap}
use ferp.PageHeapAllocator.{delete}
use ferp.PageHeap.{
  Ptr, null, System, PageHeap, get_descriptor, set_page, bind-some, add64, sub64, pure, unlink,
  delete_span, ◌>>=◌, dll_remove, has, is_listed,
}
use ferp.PageHeap.Rings.{Distinct, Distinct-dll_remove, has-dll_remove}
use ferp.PageHeap.Pages.{is_free, join_prev, join_next, absorb_prev, absorb_next}
use ferp.PageHeap.Pages.Register.{page, remap, set_page-page}

module _ {P : PageMap} {Y : System} where
  -- The test of Delete, and the pages that it joins.
  abbrev pub free_at : PageHeap P Y → Ptr → Bool
  free_at h q = if q == null then false else (h.spans q).free

  abbrev pub joined_pages : PageHeap P Y → Ptr → ℕ
  joined_pages h q = if free_at h q then (h.spans q).length else 0

  -- No list has a span twice.
  abbrev pub AreDistinct : PageHeap P Y → Type 0
  AreDistinct h = Distinct h.large × ((s : ℕ) → Distinct (h.free s))

  -- The heap `h1` differs from `h` by the pages of the span at `p`, by the page `k`, which leads
  -- to it if the span at `q` was joined, which is then in no list, and by the place of that span.
  pub record Joined (h : PageHeap P Y) (p q : Ptr) (start length : ℕ) (joins : Bool) (k : ℕ)
      (h1 : PageHeap P Y) : Type 0 where
    pub start_eq : (h1.spans p).start ≡ start
    pub length_eq : (h1.spans p).length ≡ length
    pub free_eq : (h1.spans p).free ≡ (h.spans p).free
    pub class_eq : (h1.spans p).sizeclass ≡ (h.spans p).sizeclass
    pub others : (x : Ptr) → x ≢ p → (joins && (x == q)) ≡ false → h1.spans x ≡ h.spans x
    pub large : (x : Ptr) → has x h1.large ≡ (has x h.large && not (joins && (x == q)))
    pub lists : (x s : ℕ) → has x (h1.free s) ≡ (has x (h.free s) && not (joins && (x == q)))
    pub distinct : AreDistinct h1
    pub pages : (j : ℕ) → page h1 j ≡ (if joins && (j == k) then some p else page h j)
    pub count : h1.free_pages ≡ h.free_pages

  is_free-free_at : (h : PageHeap P Y) (q : Ptr) → is_free q h ≡ some (free_at h q, h)
  unfolding is_free
  is_free-free_at h q = elim (Bool-cases (q == null)) [ inl e ↦ rw e refl | inr e ↦ rw e refl ]

  get_descriptor-some :
      (h : PageHeap P Y) (k : ℕ) (q : Ptr) → page h k ≡ some q → get_descriptor k h ≡ some (q, h)
  unfolding get_descriptor
  get_descriptor-some h k q e = rw (e, get_descriptor) refl

  -- The span at `q` leaves its list and goes back to the allocator, and the span at `p` takes
  -- its pages.
  abbrev absorb : PageHeap P Y → Ptr → Ptr → ℕ → ℕ → PageHeap P Y
  absorb h p q start length = record h {
    large = dll_remove q h.large;
    free = λ s. dll_remove q (h.free s);
    span_allocator = delete q h.span_allocator;
    spans =
        update
          (update h.spans q
            (record (h.spans q) { start = get_or h.span_allocator.free_list 0 null }))
          p (record (h.spans p) { start = start; length = length });
  }

  absorb-Joined :
      (h : PageHeap P Y) (p q : Ptr) (a l k : ℕ)
      → AreDistinct h
      → page h k ≢ none
      → (h1 : PageHeap P Y) × (set_page k p (absorb h p q a l) ≡ some (tt, h1))
        × Joined h p q a l true k h1
  absorb-Joined h p q a l k d f =
      let (m, e, read) = set_page-page (absorb h p q a l) k p f in
      (
        remap (absorb h p q a l) m,
        e,
        record {
          start_eq = ground arith;
          length_eq = ground arith;
          free_eq = ground arith;
          class_eq = ground arith;
          others = λ x n o. ground arith;
          large = λ x. has-dll_remove q x h.large d.0;
          lists = λ x s. has-dll_remove q x (h.free s) (d.1 s);
          distinct =
              (Distinct-dll_remove q h.large d.0, λ s. Distinct-dll_remove q (h.free s) (d.1 s));
          pages = λ j. read j;
          count = refl;
        },
      )

  same-Joined :
      (h : PageHeap P Y) (p q : Ptr) (a l k : ℕ)
      → AreDistinct h
      → (h.spans p).start ≡ a
      → (h.spans p).length ≡ l
      → Joined h p q a l false k h
  same-Joined h p q a l k d e f = record {
    start_eq = e;
    length_eq = f;
    free_eq = refl;
    class_eq = refl;
    others = λ x n o. refl;
    large = λ x. ground arith;
    lists = λ x s. ground arith;
    distinct = d;
    pages = λ j. refl;
    count = refl;
  }

  join_prev-eq :
      (h : PageHeap P Y) (p q : Ptr) (a : ℕ)
      → page h (sub64 a 1) ≡ some q
      → join_prev p a h ≡ (if free_at h q then absorb_prev p q else pure tt) h
  unfolding join_prev
  join_prev-eq h p q a e =
      bind-some (get_descriptor (sub64 a 1))
        (λ prev. is_free prev >>= λ joins. if joins then absorb_prev p prev else pure tt)
        (get_descriptor-some h (sub64 a 1) q e)
      ∙ bind-some (is_free q) (λ joins. if joins then absorb_prev p q else pure tt)
          (is_free-free_at h q)

  join_next-eq :
      (h : PageHeap P Y) (p q : Ptr) (a : ℕ)
      → page h a ≡ some q
      → join_next p a h ≡ (if free_at h q then absorb_next p q else pure tt) h
  unfolding join_next
  join_next-eq h p q a e =
      bind-some (get_descriptor a)
        (λ next. is_free next >>= λ joins. if joins then absorb_next p next else pure tt)
        (get_descriptor-some h a q e)
      ∙ bind-some (is_free q) (λ joins. if joins then absorb_next p q else pure tt)
          (is_free-free_at h q)

  free_at-apart :
      (h : PageHeap P Y) (p q : Ptr)
      → free_at h q ≡ true
      → (h.spans p).free ≡ false
      → (p == q) ≡ false
  free_at-apart h p q t u = ground arith

  unlink-listed :
      (h : PageHeap P Y) (q : Ptr)
      → is_listed q h ≡ true
      → unlink q h
        ≡ some (tt, record h { large = dll_remove q h.large; free = λ s. dll_remove q (h.free s) })
  unfolding unlink
  unlink-listed h q e = rw e refl

  absorb_prev-eq :
      (h : PageHeap P Y) (p q : Ptr)
      → is_listed q h ≡ true
      → (p == q) ≡ false
      → let start = sub64 (h.spans p).start (h.spans q).length in
        absorb_prev p q h
        ≡ set_page start p (absorb h p q start (add64 (h.spans p).length (h.spans q).length))
  unfolding absorb_prev delete_span
  absorb_prev-eq h p q e d = rw (unlink-listed h q e, ◌>>=◌, d) refl

  absorb_next-eq :
      (h : PageHeap P Y) (p q : Ptr)
      → is_listed q h ≡ true
      → (p == q) ≡ false
      → let length = add64 (h.spans p).length (h.spans q).length in
        absorb_next p q h
        ≡ set_page
            (sub64 (add64 (h.spans p).start length) 1)
            p
            (absorb h p q (h.spans p).start length)
  unfolding absorb_next delete_span
  absorb_next-eq h p q e d = rw (unlink-listed h q e, ◌>>=◌, d) refl

  pub join_prev-Joined :
      (h : PageHeap P Y) (p q : Ptr) (a : ℕ)
      → page h (sub64 a 1) ≡ some q
      → AreDistinct h
      → (h.spans p).free ≡ false
      → (free_at h q ≡ true → is_listed q h ≡ true)
      → (h.spans p).start < u64_mod
      → (h.spans p).length < u64_mod
      → page h (sub64 (h.spans p).start (joined_pages h q)) ≢ none
      → (h1 : PageHeap P Y) × (join_prev p a h ≡ some (tt, h1))
        × Joined h p q
            (sub64 (h.spans p).start (joined_pages h q))
            (add64 (h.spans p).length (joined_pages h q))
            (free_at h q)
            (sub64 (h.spans p).start (joined_pages h q))
            h1
  join_prev-Joined h p q a e d used there sa la mapped = elim (Bool-cases (free_at h q)) [
    | inl t ↦
        rw (join_prev-eq h p q a e, t, absorb_prev-eq h p q (there t) (free_at-apart h p q t used))
          (absorb-Joined h p q (sub64 (h.spans p).start (h.spans q).length)
            (add64 (h.spans p).length (h.spans q).length) _ d (ground (arith, mapped, t)))
    | inr t ↦
        rw (join_prev-eq h p q a e, t)
          (h, refl, same-Joined h p q _ _ _ d (omega arith) (omega arith))
  ]

  pub join_next-Joined :
      (h : PageHeap P Y) (p q : Ptr) (a : ℕ)
      → page h a ≡ some q
      → AreDistinct h
      → (h.spans p).free ≡ false
      → (free_at h q ≡ true → is_listed q h ≡ true)
      → (h.spans p).length < u64_mod
      → page h (sub64 (add64 (h.spans p).start (add64 (h.spans p).length (joined_pages h q))) 1)
        ≢ none
      → (h1 : PageHeap P Y) × (join_next p a h ≡ some (tt, h1))
        × Joined h p q
            (h.spans p).start
            (add64 (h.spans p).length (joined_pages h q))
            (free_at h q)
            (sub64 (add64 (h.spans p).start (add64 (h.spans p).length (joined_pages h q))) 1)
            h1
  join_next-Joined h p q a e d used there la mapped = elim (Bool-cases (free_at h q)) [
    | inl t ↦
        rw (join_next-eq h p q a e, t, absorb_next-eq h p q (there t) (free_at-apart h p q t used))
          (absorb-Joined h p q (h.spans p).start (add64 (h.spans p).length (h.spans q).length) _ d
            (ground (arith, mapped, t)))
    | inr t ↦ rw (join_next-eq h p q a e, t) (h, refl, same-Joined h p q _ _ _ d refl (omega arith))
  ]
