-- ===== src/PageMap/Three/Tests.antt =====
-- The theorems of TCMalloc_PageMap3 at a small tree.
use ferp.Common.{ℕ, ◌+◌, ◌-◌, ◌≡◌, refl, Bool, none, some, arith, ◌==◌, if◌then◌else◌, ltb}
use ferp.PageMap.Three.{Widths, widths_of, Root, PageMap3, get, set, ensure, find_leaf, zeroed_leaf}
use ferp.PageMap.Three.Get.{get-set}
use ferp.PageMap.Three.Ensure.{Ensured, ensure-Ensured}

-- 4 interior and 2 leaf bits.
abbrev small : Widths
small = record { interior = 4; leaf = 2 }

-- Memory for a number of nodes.
abbrev nodes_left : ℕ → Bool × ℕ
nodes_left n = (ltb 0 n, n - 1)

abbrev empty_root : Root
empty_root i = none

widths_64 : widths_of 52 ≡ record { interior = 18; leaf = 16 }
unfolding widths_of
widths_64 = refl

-- One leaf, for the keys 4 to 7.
abbrev one_leaf : Root
one_leaf i = if i == 0 then some (λ j. if j == 1 then some zeroed_leaf else none) else none

get-set_example :
    (m' : PageMap3) × (set small (some one_leaf) 5 9 ≡ some m')
    × (get small m' 5 ≡ (if 5 == 5 then some 9 else get small (some one_leaf) 5))
unfolding get find_leaf
get-set_example = get-set small (some one_leaf) 5 5 0 9 read
  where
    read : get small (some one_leaf) 5 ≡ some 0
    read = refl

ensure-Ensured_example :
    Ensured small nodes_left empty_root 5
      (5 + 6 - 1)
      (ensure nodes_left small (some empty_root) 5 6 10)
ensure-Ensured_example =
    ensure-Ensured nodes_left small empty_root 5 6 10 (omega arith) (omega arith) (omega arith)
