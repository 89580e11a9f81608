-- ===== src/HeapProfiler/Memory/Packed.antt =====
-- The memory of the profiler in src/heap-profiler.cpp: no two of its allocations overlap.
use ferp.Common.{
  ℕ, ◌+◌, ◌/◌, ◌^◌, ◌<◌, ◌≡◌, sym, subst, refl, Bool, Option, some, List, [], ◌∷◌, ltb, leb, arith,
  Bool-cases, inl, inr,
}
use ferp.HeapProfiler.Memory.{
  Block, Memory, block_size, init, alloc_piece, alloc, alloc_all, clear, cleared_blocks,
}
use ferp.HeapProfiler.Memory.Blocks.{
  Maps, Packed, AreApart, covers, rounded, with_block, alloc_block-some, large-Packed, block-Packed,
  piece-Packed,
}

module _ {S : Type 0} (page_size : ℕ) (mmap : ℕ → S → Option ℕ × S) (held : S → ℕ → Bool) where
  module _ (maps : Maps page_size mmap held) where
    -- What an allocation of `n` bytes leaves.
    pub record Allocated (n : ℕ) (given : List Block) (m : Memory) (s : S) : Type 0 where
      pub ptr : ℕ
      pub memory : Memory
      pub state : S
      pub done : alloc page_size mmap n m s ≡ some (ptr, memory, state)
      pub packed : Packed page_size mmap held (record { ptr = ptr; size = n } ∷ given) memory state

    alloc-Allocated :
        (n : ℕ) (given : List Block) (m : Memory) (s : S)
        → n < 2 ^ 63
        → Packed page_size mmap held given m s
        → Allocated n given m s
    unfolding alloc alloc_piece
    alloc-Allocated n given m s h k = elim (Bool-cases (leb (block_size / 8) n)) [
      | inl large ↦ record {
        ptr = maps.address (rounded page_size mmap held maps n) s;
        memory = with_block page_size mmap held maps n m s;
        state = (mmap (rounded page_size mmap held maps n) s).1;
        done = rw large (alloc_block-some page_size mmap held maps n m s k.count);
        packed = large-Packed page_size mmap held maps given m s n h k;
      }
      | inr small ↦ elim (Bool-cases (ltb block_size (m.pos + n))) [
        | inl full ↦
            let m' : Memory = record (with_block page_size mmap held maps block_size m s) {
              current = maps.address (rounded page_size mmap held maps block_size) s;
              pos = 0;
            } in
            let s' = (mmap (rounded page_size mmap held maps block_size) s).1 in
            record {
              ptr = m'.current + 0;
              memory = (alloc_piece n m' s').1;
              state = s';
              done =
                  rw (small, full, alloc_block-some page_size mmap held maps block_size m s k.count)
                    refl;
              packed =
                  piece-Packed page_size mmap held maps given m' s' n (ground arith)
                    (block-Packed page_size mmap held maps given m s k);
            }
        | inr fits ↦ record {
          ptr = m.current + m.pos;
          memory = (alloc_piece n m s).1;
          state = s;
          done = rw (small, fits) refl;
          packed = piece-Packed page_size mmap held maps given m s n (ground arith) k;
        }
      ]
    ]

    abbrev pub AreSmall : List ℕ → Type 0
    AreSmall [] = Unit {0}
    AreSmall (n ∷ ns) = (n < 2 ^ 63) × AreSmall ns

    -- What a run of allocations leaves.
    pub record AllAllocated (ns : List ℕ) (given : List Block) (m : Memory) (s : S) : Type 0 where
      pub regions : List Block
      pub memory : Memory
      pub state : S
      pub done : alloc_all page_size mmap ns given m s ≡ some (regions, memory, state)
      pub packed : Packed page_size mmap held regions memory state

    alloc_all-Packed :
        (ns : List ℕ) (given : List Block) (m : Memory) (s : S)
        → AreSmall ns
        → Packed page_size mmap held given m s
        → AllAllocated ns given m s
    unfolding alloc_all
    alloc_all-Packed [] given m s h k = record {
      regions = given;
      memory = m;
      state = s;
      done = refl;
      packed = k;
    }
    alloc_all-Packed (n ∷ ns) given m s h k =
        let first = alloc-Allocated n given m s h.0 k in
        let rest =
          alloc_all-Packed ns (record { ptr = first.ptr; size = n } ∷ given) first.memory
            first.state h.1 first.packed in
        record {
          regions = rest.regions;
          memory = rest.memory;
          state = rest.state;
          done = rw (first.done, alloc_all) rest.done;
          packed = rest.packed;
        }

    init-Packed : (m : Memory) (s : S) → Packed page_size mmap held [] (init m) s
    unfolding init covers
    init-Packed m s = record {
      count = refl;
      pos = omega arith;
      apart = tt;
      owned = λ x c. absurd (ground arith);
      rest = λ x l u. absurd (omega (arith, l, u));
    }

    nothing_cleared : (m : Memory) → m.nblocks ≡ 0 → (clear m).0 ≡ []
    unfolding clear cleared_blocks
    nothing_cleared m e = subst (λ n. cleared_blocks n 0 m ≡ []) (sym e) refl

    -- After Init, over any allocations of less than 2 ^ 63 bytes and an mmap() that does not fail,
    -- Alloc never aborts, and no two of the regions that it hands out have an address in common;
    -- but Clear then calls munmap() for no block.
    pub alloc_all-AreApart :
        (ns : List ℕ) (m : Memory) (s : S)
        → AreSmall ns
        → (regions : List Block) × (m' : Memory) × (s' : S) × (alloc_all page_size mmap ns []
              (init m)
              s
            ≡ some (regions, m', s'))
          × AreApart regions
          × ((clear m').0 ≡ [])
    alloc_all-AreApart ns m s h =
        let all = alloc_all-Packed ns [] (init m) s h (init-Packed m s) in
        (
          all.regions,
          all.memory,
          all.state,
          all.done,
          all.packed.apart,
          nothing_cleared all.memory all.packed.count,
        )
