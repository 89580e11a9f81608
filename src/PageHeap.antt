-- ===== src/PageHeap.antt =====
-- struct Span and TCMalloc_PageHeap of src/tcmalloc.cpp. A ring of spans is the list of its
-- members from `next` on, so `DLL_Remove` takes a span out of the list that has it. The page map
-- and the system are interfaces; `none` is abort() or an access outside the page map.
pub mod Pages
pub mod Fit
pub mod Rings
use ferp.Common.{
  ℕ, zero, suc, ◌+◌, ◌-◌, ◌*◌, ◌/◌, ◌%◌, ◌^◌, ◌≡◌, Bool, true, false, not, ◌&&◌, ◌||◌, Option, none,
  some, get_or, every_until, List, [], ◌∷◌, ltb, leb, ◌==◌, if◌then◌else◌, update,
}
use ferp.Common.Bits.{u32_mod, u64_mod, shr, shl}
use ferp.PageHeapAllocator.{SystemAlloc, Area, empty_area, new, delete}
use ferp.PageMap.Interface.{PageMap}

abbrev pub page_shift : ℕ
page_shift = 12

abbrev pub max_pages : ℕ
max_pages = 256

abbrev pub min_system_alloc : ℕ
min_system_alloc = 256

abbrev pub big_allocation_threshold : ℕ
big_allocation_threshold = 134217728

abbrev pub max_stack_depth : ℕ
max_stack_depth = 31

abbrev pub Ptr : Type 0
Ptr = ℕ

abbrev pub null : Ptr
null = 0

-- Without `next` and `prev`, which the rings stand for.
pub record Span : Type 0 where
  pub start : ℕ
  pub length : ℕ
  pub objects : Ptr
  pub free : Bool
  pub sample : Bool
  pub sizeclass : ℕ
  pub refcount : ℕ

pub record StackTrace : Type 0 where
  pub size : ℕ
  pub depth : ℕ
  pub stack : ℕ → ℕ

-- TCMalloc_SystemAlloc, and GetStackTrace, which fills a stack of at most so many frames.
pub record System : Type 1 where
  pub State : Type 0
  pub system_alloc : SystemAlloc State
  pub get_stack_trace : ℕ → State → ℕ × (ℕ → ℕ)

-- sizeof(Span) and sizeof(StackTrace) on a 64-bit machine.
abbrev pub span_size : ℕ
span_size = 48

abbrev pub stack_trace_size : ℕ
stack_trace_size = 264

-- Sums and differences of 64-bit words, and a word taken to `int` and back.
abbrev pub add64 : ℕ → ℕ → ℕ
add64 a b = (a + b) % u64_mod

abbrev pub sub64 : ℕ → ℕ → ℕ
sub64 a b = (a + u64_mod - b) % u64_mod

unfoldable pub int_of : ℕ → ℕ
int_of a = if ltb (a % u32_mod) (2 ^ 31) then a % u32_mod else a % u32_mod + u64_mod - u32_mod

abbrev pub int_positive : ℕ → Bool
int_positive a = ltb 0 a && ltb a (2 ^ 63)

abbrev pub has : Ptr → List Ptr → Bool
has p [] = false
has p (q ∷ qs) = (q == p) || has p qs

-- DLL_Remove, on a ring that may have the span.
unfoldable pub dll_remove : Ptr → List Ptr → List Ptr
dll_remove p [] = []
dll_remove p (q ∷ qs) = if q == p then qs else q ∷ dll_remove p qs

-- The loop of DLL_InsertOrdered and the insertion, by the first pages of the spans.
pub dll_insert_ordered : (Ptr → Span) → Ptr → List Ptr → List Ptr
dll_insert_ordered spans p [] = p ∷ []
dll_insert_ordered spans p (q ∷ qs) =
    if ltb (spans q).start (spans p).start then q ∷ dll_insert_ordered spans p qs else p ∷ q ∷ qs

-- The loop of New over the large spans.
pub best_fit : (Ptr → Span) → ℕ → List Ptr → Ptr → Ptr
best_fit spans n [] best = best
best_fit spans n (p ∷ ps) best =
    if leb n (spans p).length
    then best_fit spans n ps
        (if best == null then p else if ltb (spans p).length (spans best).length then p else best)
    else best_fit spans n ps best

-- The loop of New over the lists of small spans, for the classes that are left; `null` if all
-- are empty.
pub first_fit : ℕ → (ℕ → List Ptr) → ℕ → Ptr
first_fit zero free s = null
first_fit (suc left) free s = elim (free s) [ [] ↦ first_fit left free (s + 1) | p ∷ ps ↦ p ]

module _ (P : PageMap) (Y : System) where
  pub record PageHeap : Type 0 where
    pub spans : Ptr → Span
    pub span_allocator : Area
    pub traces : Ptr → StackTrace
    pub stacktrace_allocator : Area
    pub metadata_system_bytes : ℕ
    pub system : Y.State
    pub pagemap : P.Map
    pub large : List Ptr
    pub free : ℕ → List Ptr
    pub free_pages : ℕ
    pub system_bytes : ℕ

  abbrev pub M : Type 0 → Type 0
  M A = PageHeap → Option (A × PageHeap)

module _ {P : PageMap} {Y : System} where
  abbrev pub pure : {A : Type 0} → A → M P Y A
  pure a h = some (a, h)

  infixl 5 ◌>>=◌ ◌>>◌
  abbrev pub ◌>>=◌ : {A B : Type 0} → M P Y A → (A → M P Y B) → M P Y B
  ◌>>=◌ c f h = elim (c h) [ none ↦ none | some (a, h') ↦ f a h' ]

  abbrev pub ◌>>◌ : {B : Type 0} → M P Y (Unit {0}) → M P Y B → M P Y B
  c >> k = c >>= λ _. k

  pub bind-some :
      {A B : Type 0} (c : M P Y A) (f : A → M P Y B) {h h' : PageHeap P Y} {a : A}
      → c h ≡ some (a, h')
      → (c >>= f) h ≡ f a h'
  bind-some c f e = rw (e, ◌>>=◌)

  abbrev pub gets : {A : Type 0} → (PageHeap P Y → A) → M P Y A
  gets f h = some (f h, h)

  abbrev pub modify : (PageHeap P Y → PageHeap P Y) → M P Y (Unit {0})
  modify f h = some (tt, f h)

  abbrev pub span_of : Ptr → M P Y Span
  span_of p = gets λ h. h.spans p

  abbrev pub store_span : Ptr → Span → M P Y (Unit {0})
  store_span p s = modify λ h. record h { spans = update h.spans p s }

  unfoldable pub get_descriptor : ℕ → M P Y Ptr
  get_descriptor page h = elim (P.get h.pagemap page) [ none ↦ none | some p ↦ some (p, h) ]

  pub set_page : ℕ → Ptr → M P Y (Unit {0})
  set_page page p h = elim (P.set h.pagemap page p) [
    | none ↦ none
    | some m ↦ some (tt, record h { pagemap = m })
  ]

  -- NewSpan
  pub new_span : ℕ → ℕ → M P Y Ptr
  new_span page len h =
      elim (new Y.system_alloc span_size h.span_allocator h.metadata_system_bytes h.system) [
        | none ↦ none
        | some (p, a, metadata, s) ↦
            let span : Span = record {
              start = page;
              length = len;
              objects = null;
              free = false;
              sample = false;
              sizeclass = 0;
              refcount = 0;
            } in
            some (
              p,
              record h {
                span_allocator = a;
                metadata_system_bytes = metadata;
                system = s;
                spans = update h.spans p span;
              },
            )
      ]

  -- DeleteSpan: the allocator's link to the next deleted object takes the place of `start`.
  pub delete_span : Ptr → M P Y (Unit {0})
  delete_span p = modify λ h. record h {
    spans =
        update h.spans p (record (h.spans p) { start = get_or h.span_allocator.free_list 0 null });
    span_allocator = delete p h.span_allocator;
  }

  pub record_span : Ptr → M P Y (Unit {0})
  record_span p = do
    span ← span_of p
    set_page span.start p
    if ltb 1 span.length then set_page (sub64 (add64 span.start span.length) 1) p else pure tt

  -- Whether the span is in a list.
  unfoldable pub is_listed : Ptr → PageHeap P Y → Bool
  is_listed p h = has p h.large || not (every_until (λ s. not (has p (h.free s))) max_pages)

  -- DLL_Remove(span); `none` is an access through the null pointers of a span in no list.
  pub unlink : Ptr → M P Y (Unit {0})
  unlink p h =
      if is_listed p h
      then some (tt, record h { large = dll_remove p h.large; free = λ s. dll_remove p (h.free s) })
      else none

  -- A span of `len` pages goes into the list of that length or into that of the large spans.
  pub link : ℕ → Ptr → M P Y (Unit {0})
  link len p =
      if ltb len max_pages
      then modify (λ h. record h { free = update h.free len (p ∷ h.free len) })
      else modify (λ h. record h { large = dll_insert_ordered h.spans p h.large })
