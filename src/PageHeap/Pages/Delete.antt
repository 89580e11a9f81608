-- ===== src/PageHeap/Pages/Delete.antt =====
-- TCMalloc_PageHeap::Delete of src/tcmalloc.cpp: free neighbours are joined and the page map
-- leads from both ends to the span.
use ferp.Common.{
  ℕ, ◌+◌, ◌-◌, ◌≤◌, ◌<◌, ◌≡◌, ◌≢◌, ◌∙◌, refl, sym, subst, Bool, true, false, not, ◌&&◌, ◌||◌,
  every_until, fun_ext, ap, none, some, ◌==◌, if◌then◌else◌, update, arith, Bool-cases, inl, inr,
}
use ferp.Common.Bits.{u64_mod}
use ferp.PageMap.Interface.{PageMap}
use ferp.PageHeap.{has, is_listed, Ptr, System, PageHeap, bind-some, add64, sub64, max_pages, ◌>>◌}
use ferp.PageHeap.Pages.{join_prev, join_next, enter_free, delete_pages}
use ferp.PageHeap.Pages.Register.{page}
use ferp.PageHeap.Pages.Enter.{list_for, Entered, enter_free-Entered}
use ferp.PageHeap.Pages.Join.{
  AreDistinct, free_at, joined_pages, Joined, join_prev-Joined, join_next-Joined,
}

module _ {P : PageMap} {Y : System} where
  -- The span with its class and sample bit cleared, before the joins.
  abbrev cleared : PageHeap P Y → Ptr → PageHeap P Y
  cleared h p = record h {
    spans = update h.spans p (record (h.spans p) { sizeclass = 0; sample = false });
  }

  delete_pages-eq :
      (h h1 h2 : PageHeap P Y) (p : Ptr)
      → join_prev p (h.spans p).start (cleared h p) ≡ some (tt, h1)
      → join_next p (add64 (h.spans p).start (h.spans p).length) h1 ≡ some (tt, h2)
      → delete_pages p h ≡ enter_free p (h.spans p).length h2
  unfolding delete_pages
  delete_pages-eq h h1 h2 p e f =
      bind-some (join_prev p (h.spans p).start)
        (λ _.
          join_next p (add64 (h.spans p).start (h.spans p).length)
          >> enter_free p (h.spans p).length)
        e
      ∙ bind-some (join_next p (add64 (h.spans p).start (h.spans p).length))
          (λ _. enter_free p (h.spans p).length) f

  delete_pages-by :
      (h h1 h2 h3 : PageHeap P Y) (p : Ptr) (start length : ℕ)
      → (h.spans p).start ≡ start
      → (h.spans p).length ≡ length
      → join_prev p start (cleared h p) ≡ some (tt, h1)
      → join_next p (add64 start length) h1 ≡ some (tt, h2)
      → enter_free p length h2 ≡ some (tt, h3)
      → delete_pages p h ≡ some (tt, h3)
  delete_pages-by h h1 h2 h3 p start length es el e f g =
      delete_pages-eq h h1 h2 p
        (subst (λ s. join_prev p s (cleared h p) ≡ some (tt, h1)) (sym es) e) (rw (es, el) f)
      ∙ rw el g

  -- After Delete: the span is free, without a class, and has its pages and those of the free
  -- spans on both sides, `before` and `after` pages, the joined ones of which are in no list; both
  -- its ends lead to it, and no page but these two leads elsewhere than before; its pages are counted
  -- as free, and it is in the list of its length. No other span changes, nor whether it is in a list.
  pub record Deleted (h : PageHeap P Y) (p q r : Ptr) (joins_q joins_r : Bool)
      (start length before after : ℕ) (h1 : PageHeap P Y) : Type 0 where
    pub start_eq : (h1.spans p).start ≡ start - before
    pub length_eq : (h1.spans p).length ≡ before + length + after
    pub free_eq : (h1.spans p).free ≡ true
    pub class_eq : (h1.spans p).sizeclass ≡ 0
    pub others :
        (x : Ptr)
        → x ≢ p
        → (joins_q && (x == q)) ≡ false
        → (joins_r && (x == r)) ≡ false
        → h1.spans x ≡ h.spans x
    pub large :
        (x : Ptr)
        → x ≢ p
        → has x h1.large ≡ (has x h.large && not ((joins_q && (x == q)) || (joins_r && (x == r))))
    pub lists :
        (x s : ℕ)
        → x ≢ p
        → has x (h1.free s)
          ≡ (has x (h.free s) && not ((joins_q && (x == q)) || (joins_r && (x == r))))
    pub first : page h1 (start - before) ≡ some p
    pub last : page h1 (start + length + after - 1) ≡ some p
    pub pages : (j : ℕ) → j ≢ start - before → j ≢ start + length + after - 1 → page h1 j ≡ page h j
    pub count : h1.free_pages ≡ add64 h.free_pages length
    pub listed : has p (list_for h1 (before + length + after)) ≡ true

  prev-Joined :
      (h : PageHeap P Y) (p q : Ptr) (a start length before : ℕ) (joins : Bool)
      → (h.spans p).start ≡ start
      → (h.spans p).length ≡ length
      → joined_pages h q ≡ before
      → free_at h q ≡ joins
      → page h (sub64 a 1) ≡ some q
      → AreDistinct h
      → (h.spans p).free ≡ false
      → (joins ≡ true → is_listed q h ≡ true)
      → before ≤ start
      → start < u64_mod
      → length < u64_mod
      → length + before < u64_mod
      → page h (start - before) ≢ none
      → (h1 : PageHeap P Y) × (join_prev p a h ≡ some (tt, h1))
        × Joined h p q (start - before) (length + before) joins (start - before) h1
  prev-Joined h p q a start length before joins es el eb ej e d used there le fs fl fb mapped =
      let down : start - before ≡ sub64 start before = omega arith in
      let up : length + before ≡ add64 length before = omega arith in
      rw (down, up, sym es, sym el, sym eb, sym ej)
        (join_prev-Joined h p q a e d used (λ t. there (ground (arith, t, ej))) (omega arith)
          (omega arith) (rw (eb, es, sym down) mapped))

  next-Joined :
      (h : PageHeap P Y) (p q : Ptr) (a start length after : ℕ) (joins : Bool)
      → (h.spans p).start ≡ start
      → (h.spans p).length ≡ length
      → joined_pages h q ≡ after
      → free_at h q ≡ joins
      → page h a ≡ some q
      → 0 < length
      → AreDistinct h
      → (h.spans p).free ≡ false
      → (joins ≡ true → is_listed q h ≡ true)
      → start + length + after < u64_mod
      → page h (start + length + after - 1) ≢ none
      → (h1 : PageHeap P Y) × (join_next p a h ≡ some (tt, h1))
        × Joined h p q start (length + after) joins (start + length + after - 1) h1
  next-Joined h p q a start length after joins es el eb ej e pos d used there fits mapped =
      let up : length + after ≡ add64 length after = omega arith in
      let last : start + length + after - 1 ≡ sub64 (add64 start (add64 length after)) 1 =
        omega arith in
      rw (up, last, sym es, sym el, sym eb, sym ej)
        (join_next-Joined h p q a e d used (λ t. there (ground (arith, t, ej))) (omega arith)
          (rw (eb, el, es, sym last) mapped))

  module _ (h h1 h2 h3 : PageHeap P Y) (p q r : Ptr) (start length before after : ℕ) (b1 b2 : Bool)
      (pos : 0 < length) (below : before ≤ start) (first : page h start ≡ some p)
      (last : page h (start + length - 1) ≡ some p) (n1 : b1 ≡ false → before ≡ 0)
      (n2 : b2 ≡ false → after ≡ 0)
      (j1 : Joined (cleared h p) p q (start - before) (length + before) b1 (start - before) h1)
      (j2 : Joined h1 p r
        (start - before)
        (length + before + after)
        b2
        (start - before + (length + before) + after - 1)
        h2)
      (d : Entered h2 p length h3) where
    steps-page :
        (j : ℕ)
        → page h3 j ≡ (
            if b2 && (j == start + length + after - 1)
            then some p
            else if b1 && (j == start - before)
            then some p
            else page h j)
    steps-page j = ground (arith, d.pages j, j2.pages j, j1.pages j)

    steps-span : (h3.spans p) ≡ record (h2.spans p) { free = true }
    steps-span = d.freed

    steps-Deleted : Deleted h p q r b1 b2 start length before after h3
    steps-Deleted = record {
      start_eq = ground (arith, d.freed, j2.start_eq);
      length_eq = ground (arith, d.freed, j2.length_eq);
      free_eq = ground (arith, d.freed);
      class_eq = ground (arith, d.freed, j2.class_eq, j1.class_eq);
      others = λ x n s t. d.others x n ∙ j2.others x n t ∙ j1.others x n s ∙ ground (arith, n);
      large = λ x n. ground (arith, d.large x n, j2.large x, j1.large x);
      lists = λ x s n. ground (arith, d.lists x s n, j2.lists x s, j1.lists x s);
      first = ground (arith, steps-page (start - before), first, n1, n2);
      last = ground (arith, steps-page (start + length + after - 1), last, first, n1, n2);
      pages = λ j a b. ground (arith, steps-page j);
      count = ground (arith, d.count, j2.count, j1.count);
      listed = ground (arith, d.listed, j2.length_eq);
    }

  -- The second neighbour is the same after the first join.
  module _ (h h1 : PageHeap P Y) (p q : Ptr) (a l k : ℕ) (b : Bool)
      (used : (h.spans p).free ≡ false) (j1 : Joined (cleared h p) p q a l b k h1) (r : Ptr)
      (apart : (b && (r == q)) ≡ false) where
    free_at-joined : free_at h1 r ≡ free_at h r
    free_at-joined = elim (Bool-cases (r == p)) [
      | inl e ↦ let same : r ≡ p = ground (arith, e) in rw same (ground (arith, j1.free_eq, used))
      | inr e ↦ ground (arith, e, apart, j1.others r)
    ]

    joined_pages-joined : joined_pages h1 r ≡ joined_pages h r
    joined_pages-joined = elim (Bool-cases (r == p)) [
      | inl e ↦ let same : r ≡ p = ground (arith, e) in rw same (ground (arith, j1.free_eq, used))
      | inr e ↦ ground (arith, e, apart, j1.others r)
    ]

    is_listed-joined : is_listed r h1 ≡ is_listed r h
    unfolding is_listed
    is_listed-joined =
        let large : has r h1.large ≡ has r h.large = ground (arith, j1.large r, apart) in
        let lists : (s : ℕ) → not (has r (h1.free s)) ≡ not (has r (h.free s)) =
          λ s. ground (arith, j1.lists r s, apart) in
        rw large (ap (λ f. has r h.large || not (every_until f max_pages)) (fun_ext lists))

  neighbours_apart :
      (h : PageHeap P Y) (q r : Ptr)
      → (free_at h q ≡ true → free_at h r ≡ true → q ≢ r)
      → (free_at h q && (r == q)) ≡ false
  neighbours_apart h q r n = elim (Bool-cases (r == q)) [
    | inr e ↦ ground (arith, e)
    | inl e ↦
        let same : r ≡ q = ground (arith, e) in
        elim (Bool-cases (free_at h q)) [
          | inl t ↦ absurd (n t (rw same t) (sym same))
          | inr t ↦ rw t refl
        ]
  ]

  delete_pages-steps :
      (h : PageHeap P Y) (p q r : Ptr) (start length before after : ℕ)
      → (h.spans p).start ≡ start
      → (h.spans p).length ≡ length
      → joined_pages h q ≡ before
      → joined_pages h r ≡ after
      → 0 < length
      → (h.spans p).free ≡ false
      → page h start ≡ some p
      → page h (start + length - 1) ≡ some p
      → page h (sub64 start 1) ≡ some q
      → page h (start + length) ≡ some r
      → AreDistinct h
      → (free_at h q ≡ true → is_listed q h ≡ true)
      → (free_at h r ≡ true → is_listed r h ≡ true)
      → (free_at h q ≡ true → free_at h r ≡ true → q ≢ r)
      → before ≤ start
      → start + length + after < u64_mod
      → page h (start - before) ≢ none
      → page h (start + length + after - 1) ≢ none
      → (h1 : PageHeap P Y) × (delete_pages p h ≡ some (tt, h1))
        × Deleted h p q r (free_at h q) (free_at h r) start length before after h1
  unfolding is_listed
  delete_pages-steps h p q r start length before after es el eb ea pos used first last prev next
        distinct there_q there_r apart below fits low high =
      let (h1, e1, j1) =
        prev-Joined (cleared h p) p q start start length before (free_at h q) (ground arith)
          (ground arith) (ground arith) (ground arith) prev distinct (ground (arith, used)) there_q
          below (omega arith) (omega arith) (omega arith) low in
      let word : add64 start length ≡ start + length = omega arith in
      let sum : start - before + (length + before) + after ≡ start + length + after = omega arith in
      let other = neighbours_apart h q r apart in
      let (h2, e2, j2) =
        next-Joined h1 p r (add64 start length) (start - before) (length + before) after
          (free_at h r) j1.start_eq j1.length_eq
          (joined_pages-joined h h1 p q _ _ _ _ used j1 r other ∙ ea)
          (free_at-joined h h1 p q _ _ _ _ used j1 r other)
          (rw word (ground (arith, j1.pages (start + length), next))) (omega arith) j1.distinct
          (ground (arith, j1.free_eq, used))
          (λ t. is_listed-joined h h1 p q _ _ _ _ used j1 r other ∙ there_r t)
          (rw sum (omega arith))
          (rw sum (ground (arith, j1.pages (start + length + after - 1), high))) in
      let (h3, e3, d) = enter_free-Entered h2 p length in
      (
        h3,
        delete_pages-by h h1 h2 h3 p start length es el e1 e2 e3,
        steps-Deleted h h1 h2 h3 p q r start length before after (free_at h q) (free_at h r) pos
            below first last (λ f. ground arith) (λ f. ground arith) j1 j2 d,
      )

  -- Delete of a span in use that has a page, to whose ends the page map leads it, where no list has a
  -- span twice and the free spans before and behind it are two and each in a list, succeeds: with these
  -- spans, as `joined_pages` counts them, whose far ends are in the page map, the heap is as `Deleted`
  -- says.
  pub delete_pages-Deleted :
      (h : PageHeap P Y) (p q r : Ptr)
      → 0 < (h.spans p).length
      → (h.spans p).free ≡ false
      → page h (h.spans p).start ≡ some p
      → page h ((h.spans p).start + (h.spans p).length - 1) ≡ some p
      → page h (sub64 (h.spans p).start 1) ≡ some q
      → page h ((h.spans p).start + (h.spans p).length) ≡ some r
      → AreDistinct h
      → (free_at h q ≡ true → is_listed q h ≡ true)
      → (free_at h r ≡ true → is_listed r h ≡ true)
      → (free_at h q ≡ true → free_at h r ≡ true → q ≢ r)
      → joined_pages h q ≤ (h.spans p).start
      → (h.spans p).start + (h.spans p).length + joined_pages h r < u64_mod
      → page h ((h.spans p).start - joined_pages h q) ≢ none
      → page h ((h.spans p).start + (h.spans p).length + joined_pages h r - 1) ≢ none
      → (h1 : PageHeap P Y) × (delete_pages p h ≡ some (tt, h1))
        × Deleted h p q r
            (free_at h q)
            (free_at h r)
            (h.spans p).start
            (h.spans p).length
            (joined_pages h q)
            (joined_pages h r)
            h1
  delete_pages-Deleted h p q r pos used first last prev next distinct there_q there_r apart below
        fits low high =
      delete_pages-steps h p q r _ _ _ _ refl refl refl refl pos used first last prev next distinct
        there_q there_r apart below fits low high
