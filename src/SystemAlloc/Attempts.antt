-- ===== src/SystemAlloc/Attempts.antt =====
-- TryMmap and TryDevMem of src/systemalloc.cpp: a mapping that succeeds is exactly the memory
-- handed out.
use ferp.Common.{
  ℕ, ◌+◌, ◌-◌, ◌%◌, ◌<◌, ◌≡◌, ap, sym, subst, fun_ext, ◌*◌, ◌^◌, refl, Bool, true, false, not, ◌&&◌,
  none, some, if◌then◌else◌, ltb, ◌==◌, Bool-cases, inl, inr, ◌⊎◌, arith,
}
use ferp.Common.Bits.{u64_mod}
use ferp.SystemAlloc.{
  Kernel, Settings, State, failed, trim, round_up, adjustment, get_pagesize, try_mmap, map_devmem,
  open_devmem, try_dev_mem,
}
use ferp.SystemAlloc.Rounding.{IsPower, power_pos}
use ferp.SystemAlloc.Regions.{AreSame, Lawful}
use ferp.SystemAlloc.Mapping.{Mapped, map-Mapped, raised}

-- The page size is asked for once.
abbrev pub IsKnown : {S : Type 0} → Kernel S → State S → Type 0
IsKnown kernel st = (st.pagesize ≡ 0) ⊎ (st.pagesize ≡ kernel.page_size)

-- NULL and no change of memory, or a mapping at the address.
pub record MapAnswer {S : Type 0} (kernel : Kernel S) (held : S → ℕ → Bool) (before : ℕ → Bool)
    (out : ℕ × State S) (asked alignment : ℕ) : Type 0 where
  pub known : IsKnown kernel out.1
  pub answer :
      ((out.0 ≡ 0) × AreSame before (held out.1.system))
      ⊎ Mapped before (held out.1.system) out.0 asked alignment kernel.page_size

module _ {S : Type 0} (kernel : Kernel S) (held : S → ℕ → Bool) (lawful : Lawful kernel held) where
  known_pagesize : (st : State S) → IsKnown kernel st → get_pagesize kernel st ≡ kernel.page_size
  unfolding get_pagesize
  known_pagesize st (inl e) = ground arith
  known_pagesize st (inr e) = ground (arith, power_pos kernel.page_size lawful.pages)

  -- The body of TryMmap after the page size is known.
  abbrev pub mmap_with : ℕ → ℕ → ℕ → State S → ℕ × State S
  mmap_with page asked alignment st =
      let a = raised alignment page in
      let size = round_up asked a in
      let extra = a - page in
      let (ptr, s) = kernel.map none ((size + extra) % u64_mod) st.system in
      if ptr == failed
      then (0, record st { pagesize = page; system = s; mmap_failure = true })
      else (
        (ptr + adjustment ptr a) % u64_mod,
        record st { pagesize = page; system = trim kernel ptr size extra (adjustment ptr a) s },
      )

  pub try_mmap-with :
      (asked alignment : ℕ) (st : State S)
      → IsKnown kernel st
      → try_mmap kernel asked alignment st ≡ mmap_with kernel.page_size asked alignment st
  unfolding try_mmap
  try_mmap-with asked alignment st k =
      ap (λ p. mmap_with p asked alignment st) (known_pagesize st k)

  wrapped :
      (h h' : ℕ → Bool) (p n a page : ℕ)
      → Mapped h h' p n a page
      → Mapped h h' (p % u64_mod) n a page
  wrapped h h' p n a page m =
      let same : p % u64_mod ≡ p = omega (arith, m.granted.below) in
      subst (λ x. Mapped h h' x n a page) (sym same) m

  pub try_mmap-Mapped :
      (asked alignment : ℕ) (st : State S)
      → IsPower alignment
      → asked + alignment < u64_mod
      → IsKnown kernel st
      → MapAnswer kernel held (held st.system) (try_mmap kernel asked alignment st) asked alignment
  try_mmap-Mapped asked alignment st h fits k =
      subst (λ out. MapAnswer kernel held (held st.system) out asked alignment)
        (sym (try_mmap-with asked alignment st k))
        (elim (map-Mapped kernel held lawful none asked alignment st.system h fits) [
          | inl (e, same) ↦ rw e (record { known = inr refl; answer = inl (refl, same) })
          | inr (e, m) ↦ rw e (record {
            known = inr refl;
            answer = inr (wrapped (held st.system) _ _ asked alignment kernel.page_size m);
          })
        ])

  abbrev devmem_with : ℕ → ℕ → ℕ → State S → ℕ × State S
  devmem_with page asked alignment st =
      let a = raised alignment page in
      let size = round_up asked a in
      let extra = a - page in
      let room = (st.physmem_limit + u64_mod - st.physmem_base) % u64_mod in
      if not (st.physmem_limit == 0) && ltb room ((size + extra) % u64_mod)
      then (0, record st { pagesize = page; devmem_failure = true })
      else (let (ptr, s) = kernel.map (some st.physmem_base) ((size + extra) % u64_mod) st.system in
          if ptr == failed
          then (0, record st { pagesize = page; system = s; devmem_failure = true })
          else (
            (ptr + adjustment ptr a) % u64_mod,
            record st {
              pagesize = page;
              system = trim kernel ptr size extra (adjustment ptr a) s;
              physmem_base = st.physmem_base + adjustment ptr a + size;
            },
          ))

  map_devmem-with :
      (asked alignment : ℕ) (st : State S)
      → IsKnown kernel st
      → map_devmem kernel asked alignment st ≡ devmem_with kernel.page_size asked alignment st
  unfolding map_devmem
  map_devmem-with asked alignment st k =
      ap (λ p. devmem_with p asked alignment st) (known_pagesize st k)

  map_devmem-Mapped :
      (asked alignment : ℕ) (st : State S)
      → IsPower alignment
      → asked + alignment < u64_mod
      → IsKnown kernel st
      → MapAnswer kernel held
          (held st.system)
          (map_devmem kernel asked alignment st)
          asked
          alignment
  map_devmem-Mapped asked alignment st h fits k =
      let a = raised alignment kernel.page_size in
      let wanted = (round_up asked a + (a - kernel.page_size)) % u64_mod in
      let refused =
        not (st.physmem_limit == 0)
        && ltb ((st.physmem_limit + u64_mod - st.physmem_base) % u64_mod) wanted in
      subst (λ out. MapAnswer kernel held (held st.system) out asked alignment)
        (sym (map_devmem-with asked alignment st k))
        (elim (Bool-cases refused) [
          | inl r ↦ rw r (record { known = inr refl; answer = inl (refl, λ x. refl) })
          | inr r ↦
              rw r
                (elim (map-Mapped kernel held lawful (some st.physmem_base) asked alignment
                  st.system h fits) [
                    | inl (e, same) ↦ rw e (record { known = inr refl; answer = inl (refl, same) })
                    | inr (e, m) ↦ rw e (record {
                      known = inr refl;
                      answer =
                          inr (wrapped (held st.system) _ _ asked alignment kernel.page_size m);
                    })
                  ])
        ])

  -- open() changes no memory, nor the page size.
  abbrev IsQuiet : State S → State S → Type 0
  IsQuiet st st' = AreSame (held st.system) (held st'.system) × (st'.pagesize ≡ st.pagesize)

  abbrev first_open : Settings → State S → Bool × State S
  first_open set st =
      let (opened, s) = kernel.open_dev_mem st.system in
      if opened
      then (
        true,
        record st {
          system = s;
          initialized = true;
          physmem_base = set.devmem_start * 2 ^ 20;
          physmem_limit = set.devmem_limit * 2 ^ 20;
        },
      )
      else (false, record st { system = s; devmem_failure = true })

  first_open-IsQuiet : (set : Settings) (st : State S) → IsQuiet st (first_open set st).1
  first_open-IsQuiet set st =
      let same = lawful.open_dev_mem st.system in
      elim (Bool-cases (kernel.open_dev_mem st.system).0) [
        | inl o ↦ rw o (same, refl)
        | inr o ↦ rw o (same, refl)
      ]

  open_devmem-IsQuiet : (set : Settings) (st : State S) → IsQuiet st (open_devmem kernel set st).1
  unfolding open_devmem
  open_devmem-IsQuiet set st =
      let with_flag : Bool → Type 0 =
        λ b. IsQuiet st (if b then (true, st) else first_open set st).1 in
      elim (Bool-cases st.initialized) [
        | inl i ↦ subst with_flag (sym i) (λ x. refl, refl)
        | inr i ↦ subst with_flag (sym i) (first_open-IsQuiet set st)
      ]

  pub try_dev_mem-Mapped :
      (set : Settings) (asked alignment : ℕ) (st : State S)
      → IsPower alignment
      → asked + alignment < u64_mod
      → IsKnown kernel st
      → MapAnswer kernel held
          (held st.system)
          (try_dev_mem kernel set asked alignment st)
          asked
          alignment
  unfolding try_dev_mem
  try_dev_mem-Mapped set asked alignment st h fits k = elim (Bool-cases (set.devmem_start == 0)) [
    | inl z ↦ rw z (record { known = k; answer = inl (refl, λ x. refl) })
    | inr z ↦
        let st' = (open_devmem kernel set st).1 in
        let (same, size_same) = open_devmem-IsQuiet set st in
        let k' : IsKnown kernel st' = rw size_same k in
        rw z (elim (Bool-cases (open_devmem kernel set st).0) [
          | inl o ↦
              let out = map_devmem-Mapped asked alignment st' h fits k' in
              rw o (
                subst
                  (λ b.
                    MapAnswer kernel held b (map_devmem kernel asked alignment st') asked alignment)
                  (fun_ext same) out)
          | inr o ↦ rw o (record { known = k'; answer = inl (refl, same) })
        ])
  ]
