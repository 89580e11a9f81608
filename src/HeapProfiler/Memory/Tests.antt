-- ===== src/HeapProfiler/Memory/Tests.antt =====
-- The theorem on the memory of the profiler, with a system that hands out one address after the
-- other.
use ferp.Common.{ℕ, ◌+◌, ◌≡◌, refl, Bool, Option, some, List, [], ◌∷◌, ltb, arith}
use ferp.HeapProfiler.Memory.{Block, Memory, init, alloc_all, clear}
use ferp.HeapProfiler.Memory.Blocks.{Maps, AreApart}
use ferp.HeapProfiler.Memory.Packed.{alloc_all-AreApart}

abbrev next_addresses : ℕ → ℕ → Option ℕ × ℕ
next_addresses n s = (some s, s + n)

abbrev is_held : ℕ → ℕ → Bool
is_held s x = ltb x s

next_addresses-Maps : Maps 4096 next_addresses is_held
next_addresses-Maps = record {
  pages = omega arith;
  small = omega arith;
  address = λ n s. s;
  answer = λ n s. refl;
  fresh = λ n s x l u. ground arith;
  taken = λ n s x l u. ground arith;
  kept = λ n s x h. ground arith;
}

abbrev unused : Memory
unused = record { blocks = λ i. record { ptr = 0; size = 0 }; nblocks = 0; current = 0; pos = 0 }

alloc_all-AreApart_example :
    (regions : List Block) × (m' : Memory) × (s' : ℕ) × (alloc_all 4096 next_addresses
        (100 ∷ 200000 ∷ 60 ∷ [])
        []
        (init unused)
        65536
      ≡ some (regions, m', s'))
    × AreApart regions
    × ((clear m').0 ≡ [])
alloc_all-AreApart_example =
    alloc_all-AreApart 4096 next_addresses is_held next_addresses-Maps (100 ∷ 200000 ∷ 60 ∷ [])
      unused 65536 (omega arith, (omega arith, (omega arith, tt)))
