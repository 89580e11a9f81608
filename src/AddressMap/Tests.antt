-- ===== src/AddressMap/Tests.antt =====
-- The theorems on the hash table at concrete keys. The keys 0x1000 and 0x1008 share a block.
use mathlib.Core.List.{Memᴰ}
use ferp.Common.{ℕ, ◌≡◌, none, some, List, [], ◌∷◌, ◌==◌, if◌then◌else◌}
use ferp.AddressMap.{AddressMap, new, find, insert, iterate}
use ferp.AddressMap.Lookup.{IsValid, find-insert, insert-IsValid, new-IsValid}
use ferp.AddressMap.History.{
  Call, inserts, removes, run, specified, find-run-specified, iterate-run-specified,
}

abbrev two_keys : AddressMap ℕ
two_keys = insert (insert new 0x1000 7) 0x1008 8

two_keys-IsValid : IsValid two_keys
two_keys-IsValid =
    insert-IsValid (insert new 0x1000 7) 0x1008 8 (insert-IsValid new 0x1000 7 (new-IsValid ℕ))

abbrev calls : List (Call ℕ)
calls = inserts 0x1000 7 ∷ inserts 0x1008 8 ∷ inserts 0x1000 9 ∷ removes 0x1008 ∷ []

find-run-specified_example : find (run new calls) 0x1000 ≡ some 9
find-run-specified_example = find-run-specified calls 0x1000

find-insert_example :
    find (insert two_keys 0x1000 9) 0x1008
    ≡ (if 0x1008 == 0x1000 then some 9 else find two_keys 0x1008)
find-insert_example = find-insert two_keys 0x1000 0x1008 9

iterate-run-specified_example :
    (Memᴰ (0x1000, 9) (iterate (run new calls)) → specified (λ _. none) calls 0x1000 ≡ some 9)
    × (specified (λ _. none) calls 0x1000 ≡ some 9 → Memᴰ (0x1000, 9) (iterate (run new calls)))
iterate-run-specified_example = iterate-run-specified calls 0x1000 9
