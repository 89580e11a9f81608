-- ===== src/HeapProfiler/Memory.antt =====
-- HeapProfilerMemory of src/heap-profiler.cpp, the memory of the profiler itself. mmap() is a
-- parameter that answers `none` for a failure, at which the program aborts.
pub mod Blocks
pub mod Packed
mod Tests
use ferp.Common.{
  ℕ, zero, suc, ◌+◌, ◌-◌, ◌*◌, ◌/◌, ◌%◌, ◌^◌, ◌≤◌, ◌<◌, ◌≡◌, ◌∙◌, ap, sym, subst, refl, Bool, true,
  false, Option, none, some, List, [], ◌∷◌, ltb, leb, ◌==◌, if◌then◌else◌, update, bit_and, arith,
  Bool-cases, Option-cases, inl, inr, ◌⊎◌,
}
use ferp.Common.Bits.{u64_mod}
use ferp.Common.Masks.{bit_and-mask}

abbrev pub block_size : ℕ
block_size = 1048576

abbrev pub max_blocks : ℕ
max_blocks = 1024

-- sizeof(AlignUnion)
abbrev pub alignment : ℕ
alignment = 8

pub record Block : Type 0 where
  pub ptr : ℕ
  pub size : ℕ

pub record Memory : Type 0 where
  pub blocks : ℕ → Block
  pub nblocks : ℕ
  pub current : ℕ
  pub pos : ℕ

pub init : Memory → Memory
init m = record m { nblocks = 0; current = 0; pos = block_size }

-- The blocks that Clear gives back, for the blocks that are left.
pub cleared_blocks : ℕ → ℕ → Memory → List Block
cleared_blocks zero i m = []
cleared_blocks (suc left) i m = m.blocks i ∷ cleared_blocks left (i + 1) m

-- The calls of munmap(), and the state.
pub clear : Memory → List Block × Memory
clear m = (cleared_blocks m.nblocks 0 m, init m)

-- (pos + bytes + kAlignment - 1) & ~(kAlignment - 1)
pub next_pos : ℕ → ℕ → ℕ
next_pos pos bytes = let end = pos + bytes + alignment - 1 in end - bit_and end (alignment - 1)

pub alloc_piece : {S : Type 0} → ℕ → Memory → S → ℕ × Memory × S
alloc_piece bytes m s = (m.current + m.pos, record m { pos = next_pos m.pos bytes }, s)

module _ {S : Type 0} (page_size : ℕ) (mmap : ℕ → S → Option ℕ × S) where
  pub alloc_block : ℕ → Memory → S → Option (ℕ × Memory × S)
  alloc_block asked m s =
      let size = (asked + page_size - 1) % u64_mod / page_size * page_size in
      if m.nblocks == max_blocks
      then none
      else (let (answer, s') = mmap size s in
          elim answer [
            | none ↦ none
            | some ptr ↦ some (
              ptr,
              record m { blocks = update m.blocks m.nblocks (record { ptr = ptr; size = size }) },
              s',
            )
          ])

  pub alloc : ℕ → Memory → S → Option (ℕ × Memory × S)
  alloc bytes m s =
      if leb (block_size / 8) bytes
      then alloc_block bytes m s
      else if ltb block_size (m.pos + bytes)
      then elim (alloc_block block_size m s) [
        | none ↦ none
        | some (ptr, m', s') ↦ some (alloc_piece bytes (record m' { current = ptr; pos = 0 }) s')
      ]
      else some (alloc_piece bytes m s)

  -- One allocation after the other, with the regions handed out, the last one first.
  pub alloc_all : List ℕ → List Block → Memory → S → Option (List Block × Memory × S)
  alloc_all [] given m s = some (given, m, s)
  alloc_all (n ∷ ns) given m s = elim (alloc n m s) [
    | none ↦ none
    | some (p, m', s') ↦ alloc_all ns (record { ptr = p; size = n } ∷ given) m' s'
  ]
