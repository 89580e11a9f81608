-- ===== src/PageMap/Interface.antt =====
-- What src/tcmalloc.cpp uses of a page map of src/pagemap.hpp, and the law that it relies on;
-- `none` is an access outside the map. The allocator's state is part of the map.
use ferp.Common.{ℕ, ◌≡◌, refl, Bool, Option, none, some, ◌==◌, if◌then◌else◌, arith}
use ferp.PageMap.Three.{Widths, PageMap3, get, set, ensure, done, fault, out_of_fuel}
use ferp.PageMap.Three.Get.{get-set}

pub record PageMap : Type 1 where
  pub Map : Type 0
  pub get : Map → ℕ → Option ℕ
  pub set : Map → ℕ → ℕ → Option Map
  pub ensure : Map → ℕ → ℕ → Option (Bool × Map)
  pub preallocate : Map → Map
  pub get-set :
      (m : Map) (k u v : ℕ)
      → get m k ≡ some u
      → (m' : Map) × (set m k v ≡ some m')
        × ((j : ℕ) → get m' j ≡ (if j == k then some v else get m j))

module _ {S : Type 0} (alloc : S → Bool × S) (w : Widths) where
  pub set_three : PageMap3 × S → ℕ → ℕ → Option (PageMap3 × S)
  set_three (m, s) k v = elim (set w m k v) [ none ↦ none | some m' ↦ some (m', s) ]

  pub ensure_three : PageMap3 × S → ℕ → ℕ → Option (Bool × (PageMap3 × S))
  ensure_three (m, s) start n = elim (ensure alloc w m start n s) [
    | done ok r s' ↦ some (ok, (some r, s'))
    | fault ↦ none
    | out_of_fuel ↦ none
  ]

  pub three-get_set :
      (m : PageMap3 × S) (k u v : ℕ)
      → get w m.0 k ≡ some u
      → (m' : PageMap3 × S) × (set_three m k v ≡ some m')
        × ((j : ℕ) → get w m'.0 j ≡ (if j == k then some v else get w m.0 j))
  unfolding set_three
  three-get_set (m, s) k u v h =
      let (m', e, read) = get-set w m k k u v h in
      (
        (m', s),
        rw (e, set_three) refl,
        λ j. let (m'', e', read') = get-set w m k j u v h in ground (arith, e, e', read'),
      )

  -- The page map of the 64-bit builds.
  unfoldable pub three : PageMap
  three = record {
    Map = PageMap3 × S;
    get = λ m. get w m.0;
    set = set_three;
    ensure = ensure_three;
    preallocate = λ m. m;
    get-set = three-get_set;
  }
