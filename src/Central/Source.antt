-- ===== src/Central/Source.antt =====
-- The page heap of src/tcmalloc.cpp as the central lists use it. A crash is `none`, and stays.
use ferp.Common.{ℕ, Option, none, some, ◌==◌, if◌then◌else◌}
use ferp.PageMap.Interface.{PageMap}
use ferp.PageHeap.{Ptr, null, Span, System, PageHeap, M, ◌>>=◌, ◌>>◌, pure, get_descriptor}
use ferp.PageHeap.Pages.{new_pages, register_size_class, delete_pages}
use ferp.Central.{PageSource}

module _ (P : PageMap) (Y : System) where
  -- The locked part of Populate.
  pub new_registered : ℕ → ℕ → M P Y Ptr
  new_registered npages cl = do
    span ← new_pages npages
    if span == null then pure null else (register_size_class span cl >> pure span)

  abbrev field_of : (Span → ℕ) → Option (PageHeap P Y) → Ptr → ℕ
  field_of f h p = elim h [ none ↦ 0 | some h' ↦ f (h'.spans p) ]

  pub page_source : PageSource
  page_source = record {
    Heap = Option (PageHeap P Y);
    get_descriptor = λ h page. elim h [
      | none ↦ null
      | some h' ↦ elim (get_descriptor page h') [ none ↦ null | some (p, _) ↦ p ]
    ];
    start_of = field_of (λ s. s.start);
    length_of = field_of (λ s. s.length);
    class_of = field_of (λ s. s.sizeclass);
    new_span = λ npages cl h. elim h [
      | none ↦ (null, none)
      | some h' ↦ elim (new_registered npages cl h') [
        | none ↦ (null, none)
        | some (p, h'') ↦ (p, some h'')
      ]
    ];
    delete_span = λ p h. elim h [
      | none ↦ none
      | some h' ↦ elim (delete_pages p h') [ none ↦ none | some (_, h'') ↦ some h'' ]
    ];
  }
