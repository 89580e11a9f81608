-- ===== src/FreeList.antt =====
-- The singly linked lists through free objects, and TCMalloc_ThreadCache_FreeList, of
-- src/tcmalloc.cpp. An object's first word is the link; the memory is a function, `none` is an
-- access through a null pointer, and a function that takes `void** list` returns the new head.
pub mod Chain
pub mod Links
pub mod Ranges
pub mod Counts
mod Tests
use ferp.Common.{
  ◌≡◌, ℕ, zero, suc, ◌+◌, ◌-◌, ◌%◌, Bool, true, false, Option, none, some, ltb, ◌==◌, if◌then◌else◌,
  update,
}
use ferp.Common.Bits.{u16_mod}

abbrev pub Ptr : Type 0
Ptr = ℕ

abbrev pub null : Ptr
null = 0

abbrev pub Memory : Type 0
Memory = Ptr → Ptr

abbrev pub M : Type 0 → Type 0
M A = Memory → Option (A × Memory)

abbrev pub pure : {A : Type 0} → A → M A
pure a m = some (a, m)

infixl 5 ◌>>=◌ ◌>>◌
abbrev pub ◌>>=◌ : {A B : Type 0} → M A → (A → M B) → M B
◌>>=◌ c f m = elim (c m) [ none ↦ none | some (a, m') ↦ f a m' ]

abbrev pub ◌>>◌ : {B : Type 0} → M (Unit {0}) → M B → M B
c >> k = c >>= λ _. k

pub bind-some :
    {A B : Type 0} (c : M A) (f : A → M B) {m m' : Memory} {a : A}
    → c m ≡ some (a, m')
    → (c >>= f) m ≡ f a m'
bind-some c f e = rw (e, ◌>>=◌)

pub sll_next : Ptr → M Ptr
sll_next t m = if t == null then none else some (m t, m)

pub sll_set_next : Ptr → Ptr → M (Unit {0})
sll_set_next t n m = if t == null then none else some (tt, update m t n)

pub sll_push : Ptr → Ptr → M Ptr
sll_push list element = do sll_set_next element list; pure element

-- The new head and the object.
pub sll_pop : Ptr → M (Ptr × Ptr)
sll_pop list = do next ← sll_next list; pure (next, list)

-- `for (i = 1; i < N; ++i) tmp = SLL_Next(tmp)`, for the rounds that are left.
pub walk : ℕ → Ptr → M Ptr
walk zero tmp = pure tmp
walk (suc n) tmp = do tmp' ← sll_next tmp; walk n tmp'

pub record Range : Type 0 where
  pub head : Ptr
  pub start : Ptr
  pub last : Ptr

-- The new head, and what the call stores in *start and *end.
pub sll_pop_range : Ptr → ℕ → M Range
sll_pop_range head zero = pure (record { head = head; start = null; last = null })
sll_pop_range head (suc n) = do
  tmp ← walk n head
  next ← sll_next tmp
  sll_set_next tmp null
  pure (record { head = next; start = head; last = tmp })

pub sll_push_range : Ptr → Ptr → Ptr → M Ptr
sll_push_range head start last =
    if start == null then pure head else do sll_set_next last head; pure start

-- The loop of SLL_Size; `none` is also the end of the fuel.
pub size_loop : ℕ → Ptr → ℕ → M ℕ
size_loop zero head count = λ m. none
size_loop (suc fuel) head count = λ m. elim (head == null) [
  | true ↦ some (count, m)
  | false ↦ (do next ← sll_next head; size_loop fuel next (count + 1)) m
]

pub sll_size : ℕ → Ptr → M ℕ
unfolding size_loop
sll_size fuel head = size_loop fuel head 0

pub record FreeList : Type 0 where
  pub list : Ptr
  pub length : ℕ
  pub lowater : ℕ

pub init : FreeList
init = record { list = null; length = 0; lowater = 0 }

pub empty : FreeList → Bool
empty l = l.list == null

pub clear_lowwatermark : FreeList → FreeList
clear_lowwatermark l = record l { lowater = l.length }

-- `if (length_ < lowater_) lowater_ = length_`
pub lower : FreeList → FreeList
lower l = if ltb l.length l.lowater then record l { lowater = l.length } else l

pub push : FreeList → Ptr → M FreeList
push l ptr = do
  list ← sll_push l.list ptr
  pure (record l { list = list; length = (l.length + 1) % u16_mod })

pub pop : FreeList → M (FreeList × Ptr)
pop l = do
  let counted = lower (record l { length = (l.length + u16_mod - 1) % u16_mod })
  (list, result) ← sll_pop l.list
  pure (record counted { list = list }, result)

pub push_range : FreeList → ℕ → Ptr → Ptr → M FreeList
push_range l n start last = do
  list ← sll_push_range l.list start last
  pure (record l { list = list; length = (l.length + n) % u16_mod })

pub pop_range : FreeList → ℕ → M (FreeList × Range)
pop_range l n = do
  r ← sll_pop_range l.list n
  let length = (l.length + u16_mod - n % u16_mod) % u16_mod
  pure (lower (record l { list = r.head; length = length }), r)
