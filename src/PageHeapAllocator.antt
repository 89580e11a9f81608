-- ===== src/PageHeapAllocator.antt =====
-- PageHeapAllocator and MetaDataAlloc of src/tcmalloc.cpp, the allocator of the allocator's own
-- objects. The chain of deleted objects is a list, addresses are numbers, and the system's
-- memory is a parameter that answers 0 if it has none.
use ferp.Common.{
  ℕ, ◌+◌, ◌-◌, ◌*◌, ◌/◌, ◌%◌, Option, none, some, List, [], ◌∷◌, ltb, ◌==◌, if◌then◌else◌,
}
use ferp.Common.Bits.{u64_mod}

abbrev pub alloc_increment : ℕ
alloc_increment = 131072

-- kAlignedSize for sizeof(T).
pub aligned_size : ℕ → ℕ
aligned_size size = (size + 8 - 1) / 8 * 8

pub record Area : Type 0 where
  pub free_area : ℕ
  pub free_avail : ℕ
  pub free_list : List ℕ
  pub inuse : ℕ

-- The system's allocator: the bytes and the alignment asked for, the address, its new state.
abbrev pub SystemAlloc : Type 0 → Type 0
SystemAlloc S = ℕ → ℕ → S → ℕ × S

module _ {S : Type 0} (system_alloc : SystemAlloc S) where
  -- The address, metadata_system_bytes and the system.
  pub meta_data_alloc : ℕ → ℕ → S → ℕ × ℕ × S
  meta_data_alloc bytes metadata s =
      let (result, s') = system_alloc bytes 0 s in
      if result == 0 then (0, metadata, s') else (result, (metadata + bytes) % u64_mod, s')

  -- The branch of New that has no deleted object; `none` is abort().
  pub refill : ℕ → Area → ℕ → S → Option (Area × ℕ × S)
  refill size a metadata s =
      if ltb a.free_avail (aligned_size size)
      then (let (area, metadata', s') = meta_data_alloc alloc_increment metadata s in
          if area == 0
          then none
          else some (record a { free_area = area; free_avail = alloc_increment }, metadata', s'))
      else some (a, metadata, s)

  pub carve_object : ℕ → Area → ℕ × Area
  carve_object size a = (
    a.free_area,
    record a {
      free_area = a.free_area + aligned_size size;
      free_avail = a.free_avail - aligned_size size;
      inuse = a.inuse + 1;
    },
  )

  unfoldable pub new : ℕ → Area → ℕ → S → Option (ℕ × Area × ℕ × S)
  new size a metadata s = elim a.free_list [
    | p ∷ ps ↦ some (p, record a { free_list = ps; inuse = a.inuse + 1 }, metadata, s)
    | [] ↦ elim (refill size a metadata s) [
      | none ↦ none
      | some (a', metadata', s') ↦
          let (p, a'') = carve_object size a' in some (p, a'', metadata', s')
    ]
  ]

pub delete : ℕ → Area → Area
delete p a = record a { free_list = p ∷ a.free_list; inuse = a.inuse - 1 }

pub empty_area : Area
empty_area = record { free_area = 0; free_avail = 0; free_list = []; inuse = 0 }

-- Init
pub init_area : {S : Type 0} (system_alloc : SystemAlloc S) → ℕ → ℕ → S → Option (Area × ℕ × S)
init_area system_alloc size metadata s = elim (new system_alloc size empty_area metadata s) [
  | none ↦ none
  | some (p, a, metadata', s') ↦ some (delete p a, metadata', s')
]
