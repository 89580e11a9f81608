-- ===== src/PageHeap/Rings.antt =====
-- Rings of spans as lists: DLL_Remove of src/tcmalloc.cpp on a ring without a span twice.
use ferp.Common.{
  ℕ, ◌+◌, ◌≡◌, refl, true, false, not, ◌&&◌, List, [], ◌∷◌, ◌==◌, update, length, arith,
}
use ferp.PageHeap.{has, Ptr, dll_remove}

abbrev pub Distinct : List Ptr → Type 0
Distinct [] = Unit {0}
Distinct (p ∷ ps) = (has p ps ≡ false) × Distinct ps

pub dll_remove-absent : (p : Ptr) (ps : List Ptr) → has p ps ≡ false → dll_remove p ps ≡ ps
unfolding dll_remove
dll_remove-absent p [] h = refl
dll_remove-absent p (q ∷ qs) h = ground (arith, dll_remove-absent p qs)

pub has-dll_remove :
    (p x : Ptr) (ps : List Ptr) → Distinct ps → has x (dll_remove p ps) ≡ (has x ps && not (x == p))
unfolding dll_remove
has-dll_remove p x [] d = refl
has-dll_remove p x (q ∷ qs) d = ground (arith, has-dll_remove p x qs d.1, d.0)

pub Distinct-dll_remove : (p : Ptr) (ps : List Ptr) → Distinct ps → Distinct (dll_remove p ps)
unfolding dll_remove
Distinct-dll_remove p [] d = tt
Distinct-dll_remove p (q ∷ qs) d =
    ground (arith, Distinct-dll_remove p qs d.1, has-dll_remove p q qs d.1, d)

-- The objects in the chains of the spans of a ring.
abbrev pub chained : (Ptr → List Ptr) → List Ptr → ℕ
chained objects [] = 0
chained objects (p ∷ ps) = length (objects p) + chained objects ps

pub chained-update :
    (objects : Ptr → List Ptr) (p : Ptr) (chain : List Ptr) (ps : List Ptr)
    → has p ps ≡ false
    → chained (update objects p chain) ps ≡ chained objects ps
chained-update objects p chain [] h = refl
chained-update objects p chain (q ∷ qs) h = ground (arith, chained-update objects p chain qs)

pub chained-dll_remove :
    (objects : Ptr → List Ptr) (p : Ptr) (ps : List Ptr)
    → has p ps ≡ true
    → chained objects ps ≡ length (objects p) + chained objects (dll_remove p ps)
unfolding dll_remove
chained-dll_remove objects p [] h = ground arith
chained-dll_remove objects p (q ∷ qs) h = ground (arith, chained-dll_remove objects p qs)
