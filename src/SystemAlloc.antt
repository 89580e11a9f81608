-- ===== src/SystemAlloc.antt =====
-- src/systemalloc.cpp: memory from the system, by sbrk(), mmap() or the device /dev/mem. The
-- system calls are the record Kernel, with its own state; an address is a number, and 0 is NULL.
use ferp.Common.{
  ℕ, ◌+◌, ◌-◌, ◌*◌, ◌/◌, ◌%◌, ◌^◌, Bool, true, false, not, ◌&&◌, Option, none, some, ltb, leb, ◌==◌,
  if◌then◌else◌, bit_and,
}
use ferp.Common.Bits.{u64_mod}
pub mod Rounding
pub mod Regions
pub mod Mapping
pub mod Attempts
pub mod Answers
pub mod Sbrk
pub mod Alloc
pub mod Ready
pub mod Retry
mod Tests

-- The answer -1 of sbrk() and mmap().
abbrev pub failed : ℕ
failed = 2 ^ 64 - 1

-- mmap() of private memory is `map none`, and of /dev/mem from an offset on `map (some offset)`.
pub record Kernel (S : Type 0) : Type 0 where
  pub sbrk : ℕ → S → ℕ × S
  pub map : Option ℕ → ℕ → S → ℕ × S
  pub munmap : ℕ → ℕ → S → S
  pub open_dev_mem : S → Bool × S
  pub page_size : ℕ

-- The flags and the switches that nothing changes.
pub record Settings : Type 0 where
  pub use_devmem : Bool
  pub use_sbrk : Bool
  pub use_mmap : Bool
  pub devmem_start : ℕ
  pub devmem_limit : ℕ

-- The static variables, with the state of the system.
pub record State (S : Type 0) : Type 0 where
  pub system : S
  pub pagesize : ℕ
  pub devmem_failure : Bool
  pub sbrk_failure : Bool
  pub mmap_failure : Bool
  pub initialized : Bool
  pub physmem_base : ℕ
  pub physmem_limit : ℕ

-- sizeof(MemoryAligner)
abbrev pub memory_aligner : ℕ
memory_aligner = 8

pub round_up : ℕ → ℕ → ℕ
round_up size alignment = (size + alignment - 1) % u64_mod / alignment * alignment

-- From an address to the next one that is aligned.
pub adjustment : ℕ → ℕ → ℕ
adjustment ptr alignment =
    let low = bit_and ptr (alignment - 1) in if low == 0 then 0 else alignment - low

module _ {S : Type 0} (kernel : Kernel S) where
  -- A larger region, in which an aligned one has room.
  pub sbrk_larger : ℕ → ℕ → State S → ℕ × State S
  sbrk_larger size alignment st =
      let (ptr, s) = kernel.sbrk ((size + alignment - 1) % u64_mod) st.system in
      if ptr == failed
      then (0, record st { system = s; sbrk_failure = true })
      else ((ptr + adjustment ptr alignment) % u64_mod, record st { system = s })

  -- The region from `ptr` on is not aligned: with what is missing behind it, it may do.
  pub sbrk_extra : ℕ → ℕ → ℕ → State S → ℕ × State S
  sbrk_extra ptr size alignment st =
      let extra = adjustment ptr alignment in
      let (r2, s) = kernel.sbrk extra st.system in
      if r2 == (ptr + size) % u64_mod
      then ((ptr + extra) % u64_mod, record st { system = s })
      else sbrk_larger size alignment (record st { system = s })

  pub try_sbrk : ℕ → ℕ → State S → ℕ × State S
  try_sbrk asked alignment st =
      if leb (2 ^ 63) ((asked + alignment) % u64_mod)
      then (0, st)
      else (let size = round_up asked alignment in
          let (ptr, s) = kernel.sbrk size st.system in
          if ptr == failed
          then (0, record st { system = s; sbrk_failure = true })
          else if bit_and ptr (alignment - 1) == 0
          then (ptr, record st { system = s })
          else sbrk_extra ptr size alignment (record st { system = s }))

  pub get_pagesize : State S → ℕ
  get_pagesize st = if st.pagesize == 0 then kernel.page_size else st.pagesize

  -- The parts of a mapping in front of the aligned address and behind the memory asked for go back.
  pub trim : ℕ → ℕ → ℕ → ℕ → S → S
  trim ptr size extra adjust s =
      let s' = if ltb 0 adjust then kernel.munmap ptr adjust s else s in
      if ltb adjust extra
      then kernel.munmap ((ptr + adjust + size) % u64_mod) (extra - adjust) s'
      else s'

  pub try_mmap : ℕ → ℕ → State S → ℕ × State S
  try_mmap asked asked_alignment st0 =
      let st = record st0 { pagesize = get_pagesize st0 } in
      let alignment = if ltb asked_alignment st.pagesize then st.pagesize else asked_alignment in
      let size = round_up asked alignment in
      let extra = alignment - st.pagesize in
      let (ptr, s) = kernel.map none ((size + extra) % u64_mod) st.system in
      if ptr == failed
      then (0, record st { system = s; mmap_failure = true })
      else (let adjust = adjustment ptr alignment in
          ((ptr + adjust) % u64_mod, record st { system = trim ptr size extra adjust s }))

  -- The first call opens the device; `false` is a failure of open().
  pub open_devmem : Settings → State S → Bool × State S
  open_devmem set st =
      if st.initialized
      then (true, st)
      else (let (opened, s) = kernel.open_dev_mem st.system in
          if opened
          then (
            true,
            record st {
              system = s;
              initialized = true;
              physmem_base = set.devmem_start * 2 ^ 20;
              physmem_limit = set.devmem_limit * 2 ^ 20;
            },
          )
          else (false, record st { system = s; devmem_failure = true }))

  pub map_devmem : ℕ → ℕ → State S → ℕ × State S
  map_devmem asked asked_alignment st0 =
      let st = record st0 { pagesize = get_pagesize st0 } in
      let alignment = if ltb asked_alignment st.pagesize then st.pagesize else asked_alignment in
      let size = round_up asked alignment in
      let extra = alignment - st.pagesize in
      let room = (st.physmem_limit + u64_mod - st.physmem_base) % u64_mod in
      if not (st.physmem_limit == 0) && ltb room ((size + extra) % u64_mod)
      then (0, record st { devmem_failure = true })
      else (let (ptr, s) = kernel.map (some st.physmem_base) ((size + extra) % u64_mod) st.system in
          if ptr == failed
          then (0, record st { system = s; devmem_failure = true })
          else (let adjust = adjustment ptr alignment in
              (
                (ptr + adjust) % u64_mod,
                record st {
                  system = trim ptr size extra adjust s;
                  physmem_base = st.physmem_base + adjust + size;
                },
              )))

  pub try_dev_mem : Settings → ℕ → ℕ → State S → ℕ × State S
  try_dev_mem set size alignment st =
      if set.devmem_start == 0
      then (0, st)
      else (let (opened, st') = open_devmem set st in
          if opened then map_devmem size alignment st' else (0, st'))

  -- One round of the loop.
  pub round : Settings → ℕ → ℕ → State S → ℕ × State S
  round set size alignment st =
      let r1 =
        if set.use_devmem && not st.devmem_failure
        then try_dev_mem set size alignment st
        else (0, st) in
      let r2 =
        if r1.0 == 0
        then (if set.use_sbrk && not r1.1.sbrk_failure
            then try_sbrk size alignment r1.1
            else (0, r1.1))
        else r1 in
      if r2.0 == 0
      then (if set.use_mmap && not r2.1.mmap_failure
          then try_mmap size alignment r2.1
          else (0, r2.1))
      else r2

  pub clear_failures : State S → State S
  clear_failures st = record st {
    devmem_failure = false;
    sbrk_failure = false;
    mmap_failure = false;
  }

  pub system_alloc : Settings → ℕ → ℕ → State S → ℕ × State S
  system_alloc set size asked_alignment st =
      if ltb ((size + asked_alignment) % u64_mod) size
      then (0, st)
      else (let alignment =
            if ltb asked_alignment memory_aligner then memory_aligner else asked_alignment in
          let (p1, st1) = round set size alignment st in
          if p1 == 0
          then (let (p2, st2) = round set size alignment (clear_failures st1) in
              if p2 == 0 then (0, clear_failures st2) else (p2, st2))
          else (p1, st1))
