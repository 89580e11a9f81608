-- ===== src/HeapProfiler/Memory/Blocks.antt =====
-- The blocks of the profiler's memory in src/heap-profiler.cpp, and what an allocation takes of them.
use ferp.Common.{
  ℕ, ◌+◌, ◌-◌, ◌*◌, ◌/◌, ◌%◌, ◌^◌, update, ◌≤◌, ◌<◌, ◌≡◌, refl, Bool, true, false, ◌&&◌, Option,
  some, List, [], ◌∷◌, ltb, leb, ◌==◌, if◌then◌else◌, arith, Bool-cases, inl, inr,
}
use ferp.Common.Bits.{u64_mod, div_bounds}
use ferp.Common.Masks.{bit_and-mask}
use ferp.HeapProfiler.Memory.{
  Block, Memory, block_size, max_blocks, alignment, next_pos, alloc_piece, alloc_block,
}

-- The place for the next allocation is behind this one, aligned, and in the block or at its end.
next_pos_bounds :
    (pos bytes : ℕ)
    → pos + bytes ≤ block_size
    → (pos + bytes ≤ next_pos pos bytes)
      × (next_pos pos bytes ≤ block_size)
      × (next_pos pos bytes % alignment ≡ 0)
unfolding next_pos
next_pos_bounds pos bytes h =
    let low = bit_and-mask (pos + bytes + alignment - 1) 3 in
    rw low (omega arith, omega arith, omega arith)

-- Whether an address is in one of the regions.
unfoldable pub covers : List Block → ℕ → Bool
covers [] x = false
covers (b ∷ bs) x = if leb b.ptr x && ltb x (b.ptr + b.size) then true else covers bs x

-- No region has an address of another.
abbrev pub AreApart : List Block → Type 0
AreApart [] = Unit {0}
AreApart (b ∷ bs) = ((x : ℕ) → b.ptr ≤ x → x < b.ptr + b.size → covers bs x ≡ false) × AreApart bs

module _ {S : Type 0} (page_size : ℕ) (mmap : ℕ → S → Option ℕ × S) (held : S → ℕ → Bool) where
  -- mmap() answers addresses that the process did not have, and has then.
  pub record Maps : Type 0 where
    pub pages : 0 < page_size
    pub small : page_size ≤ 2 ^ 32
    pub address : ℕ → S → ℕ
    pub answer : (n : ℕ) (s : S) → (mmap n s).0 ≡ some (address n s)
    pub fresh : (n : ℕ) (s : S) (x : ℕ) → address n s ≤ x → x < address n s + n → held s x ≡ false
    pub taken :
        (n : ℕ) (s : S) (x : ℕ) → address n s ≤ x → x < address n s + n → held (mmap n s).1 x ≡ true
    pub kept : (n : ℕ) (s : S) (x : ℕ) → held s x ≡ true → held (mmap n s).1 x ≡ true

  -- The regions handed out are apart, and the rest of the current block is not in them.
  pub record Packed (given : List Block) (m : Memory) (s : S) : Type 0 where
    pub count : m.nblocks ≡ 0
    pub pos : m.pos ≤ block_size
    pub apart : AreApart given
    pub owned : (x : ℕ) → covers given x ≡ true → held s x ≡ true
    pub rest :
        (x : ℕ)
        → m.current + m.pos ≤ x
        → x < m.current + block_size
        → (held s x ≡ true) × (covers given x ≡ false)

  module _ (maps : Maps) where
    abbrev pub rounded : ℕ → ℕ
    rounded n = (n + page_size - 1) % u64_mod / page_size * page_size

    rounded_enough : (n : ℕ) → n < 2 ^ 63 → n ≤ rounded n
    rounded_enough n h =
        let whole : (n + page_size - 1) % u64_mod ≡ n + page_size - 1 =
          omega (arith, maps.pages, maps.small) in
        rw whole (grind (arith, div_bounds (n + page_size - 1) page_size maps.pages, maps.pages))

    abbrev pub with_block : ℕ → Memory → S → Memory
    with_block n m s = record m {
      blocks =
          update m.blocks m.nblocks (record { ptr = maps.address (rounded n) s; size = rounded n });
    }

    pub alloc_block-some :
        (n : ℕ) (m : Memory) (s : S)
        → m.nblocks ≡ 0
        → alloc_block page_size mmap n m s
          ≡ some (maps.address (rounded n) s, with_block n m s, (mmap (rounded n) s).1)
    unfolding alloc_block
    alloc_block-some n m s e =
        let room : (m.nblocks == max_blocks) ≡ false = ground arith in
        rw (room, maps.answer (rounded n) s) refl

    -- What is new is in none of the regions.
    fresh_apart :
        (given : List Block) (m : Memory) (s : S) (n x : ℕ)
        → Packed given m s
        → maps.address n s ≤ x
        → x < maps.address n s + n
        → covers given x ≡ false
    fresh_apart given m s n x k l u = elim (Bool-cases (covers given x)) [
      | inl c ↦ absurd (ground (arith, k.owned x c, maps.fresh n s x l u))
      | inr c ↦ c
    ]

    -- A large allocation has a block of its own.
    pub large-Packed :
        (given : List Block) (m : Memory) (s : S) (n : ℕ)
        → n < 2 ^ 63
        → Packed given m s
        → Packed
            (record { ptr = maps.address (rounded n) s; size = n } ∷ given)
            (with_block n m s)
            (mmap (rounded n) s).1
    unfolding covers
    large-Packed given m s n h k =
        let size = rounded n in
        let enough = rounded_enough n h in
        let p = maps.address size s in
        record {
          count = k.count;
          pos = k.pos;
          apart = (λ x l u. fresh_apart given m s size x k l (omega (arith, enough)), k.apart);
          owned = λ x c. elim (Bool-cases (leb p x && ltb x (p + n))) [
            | inl t ↦ maps.taken size s x (ground arith) (ground (arith, enough))
            | inr t ↦ maps.kept size s x (k.owned x (ground arith))
          ];
          rest = λ x l u.
              let (has, free) = k.rest x l u in
              (
                maps.kept size s x has,
                elim (Bool-cases (leb p x && ltb x (p + n))) [
                  | inl t ↦ absurd (
                      ground (
                        arith,
                        has,
                        enough,
                        maps.fresh size s x (ground arith) (ground (arith, enough)),
                      ))
                  | inr t ↦ rw t free
                ],
              );
        }

    -- A new block for small allocations.
    pub block-Packed :
        (given : List Block) (m : Memory) (s : S)
        → Packed given m s
        → Packed given
            (record (with_block block_size m s) {
              current = maps.address (rounded block_size) s;
              pos = 0;
            })
            (mmap (rounded block_size) s).1
    block-Packed given m s k =
        let size = rounded block_size in
        let enough = rounded_enough block_size (omega arith) in
        record {
          count = k.count;
          pos = omega arith;
          apart = k.apart;
          owned = λ x c. maps.kept size s x (k.owned x c);
          rest = λ x l u. (
            maps.taken size s x (omega (arith, l)) (omega (arith, u, enough)),
            fresh_apart given m s size x k (omega (arith, l)) (omega (arith, u, enough)),
          );
        }

    -- A small allocation out of the current block.
    pub piece-Packed :
        (given : List Block) (m : Memory) (s : S) (n : ℕ)
        → m.pos + n ≤ block_size
        → Packed given m s
        → Packed (record { ptr = m.current + m.pos; size = n } ∷ given) (alloc_piece n m s).1 s
    unfolding alloc_piece covers
    piece-Packed given m s n h k =
        let p = m.current + m.pos in
        let (low, high, aligned) = next_pos_bounds m.pos n h in
        record {
          count = k.count;
          pos = high;
          apart = (λ x l u. (k.rest x l (omega arith)).1, k.apart);
          owned = λ x c. elim (Bool-cases (leb p x && ltb x (p + n))) [
            | inl t ↦ (k.rest x (ground arith) (ground arith)).0
            | inr t ↦ k.owned x (ground arith)
          ];
          rest = λ x l u.
              let (has, free) = k.rest x (omega (arith, l, low)) u in
              let outside : (leb p x && ltb x (p + n)) ≡ false = ground (arith, l, low) in
              (has, rw outside free);
        }
