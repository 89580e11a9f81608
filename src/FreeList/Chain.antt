-- ===== src/FreeList/Chain.antt =====
-- Which objects a chain of links leads through.
use ferp.Common.{
  ◌≡◌, ◌≢◌, refl, Bool, true, false, ◌||◌, List, [], ◌∷◌, ◌++◌, arith, some, ◌==◌, update,
  update_self,
}
use ferp.FreeList.{Ptr, null, Memory, sll_next, sll_set_next}

abbrev pub has : Ptr → List Ptr → Bool
has a [] = false
has a (x ∷ xs) = (a == x) || has a xs

-- From `p` the links lead through `xs` to `stop`.
abbrev pub Chain : Memory → Ptr → List Ptr → Ptr → Type 0
Chain m p [] stop = p ≡ stop
Chain m p (x ∷ xs) stop = (p ≡ x) × (x ≢ null) × Chain m (m x) xs stop

abbrev pub Distinct : List Ptr → Type 0
Distinct [] = Unit {0}
Distinct (x ∷ xs) = (has x xs ≡ false) × Distinct xs

-- A list that ends in null and meets no object twice.
abbrev pub IsList : Memory → Ptr → List Ptr → Type 0
IsList m p xs = Chain m p xs null × Distinct xs

-- The memories agree on the objects of `xs`.
abbrev pub AgreeOn : List Ptr → Memory → Memory → Type 0
AgreeOn xs m m' = (a : Ptr) → has a xs ≡ true → m' a ≡ m a

pub Chain-frame :
    (m m' : Memory) (p : Ptr) (xs : List Ptr) (stop : Ptr)
    → AgreeOn xs m m'
    → Chain m p xs stop
    → Chain m' p xs stop
Chain-frame m m' p [] stop same c = c
Chain-frame m m' p (x ∷ xs) stop same (e, ne, c) = (
  e,
  ne,
  rw (same x (ground arith)) (Chain-frame m m' (m x) xs stop (λ a h. same a (ground arith)) c),
)

pub Chain-update :
    (m : Memory) (p : Ptr) (xs : List Ptr) (stop a v : Ptr)
    → has a xs ≡ false
    → Chain m p xs stop
    → Chain (update m a v) p xs stop
Chain-update m p xs stop a v out = Chain-frame m (update m a v) p xs stop (λ b h. ground arith)

pub Chain-push :
    (m : Memory) (list ptr : Ptr) (xs : List Ptr) (stop : Ptr)
    → ptr ≢ null
    → has ptr xs ≡ false
    → Chain m list xs stop
    → Chain (update m ptr list) ptr (ptr ∷ xs) stop
Chain-push m list ptr xs stop ne out c =
    (refl, ne, rw (update_self m ptr list) (Chain-update m list xs stop ptr list out c))

pub sll_next_lem : (m : Memory) (t : Ptr) → t ≢ null → sll_next t m ≡ some (m t, m)
unfolding sll_next
sll_next_lem m t ne = ground arith

pub sll_set_next_lem :
    (m : Memory) (t n : Ptr) → t ≢ null → sll_set_next t n m ≡ some (tt, update m t n)
unfolding sll_set_next
sll_set_next_lem m t n ne = let ok : (t == null) ≡ false = ground arith in rw ok

pub has-append : (a : Ptr) (xs ys : List Ptr) → has a (xs ++ ys) ≡ (has a xs || has a ys)
has-append a [] ys = refl
has-append a (x ∷ xs) ys = ground (arith, has-append a xs ys)

pub Chain-split :
    (m : Memory) (p : Ptr) (xs ys : List Ptr) (y stop : Ptr)
    → Chain m p (xs ++ y ∷ ys) stop
    → Chain m p xs y × (y ≢ null) × Chain m (m y) ys stop
Chain-split m p [] ys y stop (e, ne, c) = (e, ne, c)
Chain-split m p (x ∷ xs) ys y stop (e, ne, c) =
    let (front, ny, rest) = Chain-split m (m x) xs ys y stop c in ((e, ne, front), ny, rest)

pub Chain-join :
    (m : Memory) (p : Ptr) (xs ys : List Ptr) (y stop : Ptr)
    → Chain m p xs y
    → y ≢ null
    → Chain m (m y) ys stop
    → Chain m p (xs ++ y ∷ ys) stop
Chain-join m p [] ys y stop e ne c = (e, ne, c)
Chain-join m p (x ∷ xs) ys y stop (e, nx, front) ne c =
    (e, nx, Chain-join m (m x) xs ys y stop front ne c)

pub Distinct-split :
    (xs ys : List Ptr) (y : Ptr)
    → Distinct (xs ++ y ∷ ys)
    → (has y xs ≡ false) × (has y ys ≡ false) × Distinct ys × Distinct (xs ++ y ∷ [])
Distinct-split [] ys y (out, d) = (refl, out, d, (refl, tt))
Distinct-split (x ∷ xs) ys y (out, d) =
    let (a, b, c, e) = Distinct-split xs ys y d in
    (
      ground (arith, has-append x xs (y ∷ ys)),
      b,
      c,
      (ground (arith, has-append x xs (y ∷ ys), has-append x xs (y ∷ [])), e),
    )
