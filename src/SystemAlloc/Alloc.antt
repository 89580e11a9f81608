-- ===== src/SystemAlloc/Alloc.antt =====
-- TCMalloc_SystemAlloc of src/systemalloc.cpp: an answer that is not NULL is memory of the size and
-- alignment asked for that the process did not have, and no failure of a source lasts.
use ferp.Common.{
  ℕ, ◌+◌, ◌%◌, ◌^◌, ◌≤◌, ◌<◌, ◌≡◌, refl, Bool, not, ◌&&◌, if◌then◌else◌, ltb, ◌==◌, Bool-cases, inl,
  inr, ◌⊎◌, arith,
}
use ferp.Common.Bits.{u64_mod}
use ferp.SystemAlloc.{
  Kernel, Settings, State, memory_aligner, try_dev_mem, try_sbrk, try_mmap, round, clear_failures,
  system_alloc,
}
use ferp.SystemAlloc.Rounding.{IsPower}
use ferp.SystemAlloc.Regions.{Lawful}
use ferp.SystemAlloc.Attempts.{IsKnown, try_mmap-Mapped, try_dev_mem-Mapped}
use ferp.SystemAlloc.Answers.{Answer, MapAnswer-Answer, later-Answer}
use ferp.SystemAlloc.Sbrk.{try_sbrk-Answer}

-- The alignment that the loop works with.
abbrev pub used : ℕ → ℕ
used alignment = if ltb alignment memory_aligner then memory_aligner else alignment

pub used-IsPower : (alignment : ℕ) → (alignment ≡ 0) ⊎ IsPower alignment → IsPower (used alignment)
used-IsPower alignment h = elim (Bool-cases (ltb alignment memory_aligner)) [
  | inl t ↦ rw t (3, refl)
  | inr f ↦ rw f (elim h [ inl z ↦ absurd (ground (arith, z, f)) | inr p ↦ p ])
]

module _ {S : Type 0} (kernel : Kernel S) (held : S → ℕ → Bool) (lawful : Lawful kernel held) where
  abbrev Good : (ℕ → Bool) → ℕ → ℕ → ℕ × State S → Type 0
  Good before asked alignment out = Answer kernel held before out asked alignment

  nothing-Answer :
      (asked alignment : ℕ) (st : State S)
      → IsKnown kernel st
      → Good (held st.system) asked alignment (0, st)
  nothing-Answer asked alignment st k = record { known = k; kept = λ x t. t; answer = inl refl }

  -- A source is tried if there is no memory yet and the source is in use.
  next-Answer :
      (before : ℕ → Bool) (asked alignment : ℕ) (out tried : ℕ × State S) (wanted : Bool)
      → Good before asked alignment out
      → Good (held out.1.system) asked alignment tried
      → Good before asked alignment
          (if out.0 == 0 then (if wanted then tried else (0, out.1)) else out)
  next-Answer before asked alignment out tried wanted r t = elim (Bool-cases (out.0 == 0)) [
    | inl z ↦ rw z (elim (Bool-cases wanted) [
      | inl u ↦
          rw u (later-Answer kernel held before (held out.1.system) tried asked alignment r.kept t)
      | inr u ↦ rw u (record { known = r.known; kept = r.kept; answer = inl refl })
    ])
    | inr z ↦ rw z r
  ]

  -- The sources before mmap(): the device, and the heap where the device gave nothing.
  abbrev from_device : Settings → ℕ → ℕ → State S → ℕ × State S
  from_device set asked a st =
      if set.use_devmem && not st.devmem_failure then try_dev_mem kernel set asked a st else (0, st)

  abbrev pub first_sources : Settings → ℕ → ℕ → State S → ℕ × State S
  first_sources set asked a st =
      let out = from_device set asked a st in
      if out.0 == 0
      then (if set.use_sbrk && not out.1.sbrk_failure
          then try_sbrk kernel asked a out.1
          else (0, out.1))
      else out

  pub first_sources-Answer :
      (set : Settings) (asked alignment : ℕ) (st : State S)
      → IsPower alignment
      → asked + alignment < u64_mod
      → IsKnown kernel st
      → Good (held st.system) asked alignment (first_sources set asked alignment st)
  first_sources-Answer set asked a st p fits k =
      let before = held st.system in
      let out = from_device set asked a st in
      let r : Good before asked a out =
        elim (Bool-cases (set.use_devmem && not st.devmem_failure)) [
          | inl u ↦ rw u (
              MapAnswer-Answer kernel held before (try_dev_mem kernel set asked a st) asked a
                (try_dev_mem-Mapped kernel held lawful set asked a st p fits k))
          | inr u ↦ rw u (nothing-Answer asked a st k)
        ] in
      next-Answer before asked a out (try_sbrk kernel asked a out.1)
        (set.use_sbrk && not out.1.sbrk_failure) r
        (try_sbrk-Answer kernel held lawful asked a out.1 p fits r.known)

  pub round-Answer :
      (set : Settings) (asked alignment : ℕ) (st : State S)
      → IsPower alignment
      → asked + alignment < u64_mod
      → IsKnown kernel st
      → Good (held st.system) asked alignment (round kernel set asked alignment st)
  unfolding round
  round-Answer set asked a st p fits k =
      let before = held st.system in
      let out = first_sources set asked a st in
      let r = first_sources-Answer set asked a st p fits k in
      next-Answer before asked a out (try_mmap kernel asked a out.1)
        (set.use_mmap && not out.1.mmap_failure) r
        (MapAnswer-Answer kernel held (held out.1.system) (try_mmap kernel asked a out.1) asked a
          (try_mmap-Mapped kernel held lawful asked a out.1 p fits r.known))

  abbrev pub rounds : Settings → ℕ → ℕ → State S → ℕ × State S
  rounds set size alignment st =
      let (p1, st1) = round kernel set size alignment st in
      if p1 == 0
      then (let (p2, st2) = round kernel set size alignment (clear_failures kernel st1) in
          if p2 == 0 then (0, clear_failures kernel st2) else (p2, st2))
      else (p1, st1)

  rounds-Answer :
      (set : Settings) (asked alignment : ℕ) (st : State S)
      → IsPower alignment
      → asked + alignment < u64_mod
      → IsKnown kernel st
      → Good (held st.system) asked alignment (rounds set asked alignment st)
  unfolding clear_failures
  rounds-Answer set asked a st p fits k =
      let before = held st.system in
      let r1 = round-Answer set asked a st p fits k in
      let out1 = round kernel set asked a st in
      let out2 = round kernel set asked a (clear_failures kernel out1.1) in
      let r2 =
        later-Answer kernel held before (held out1.1.system) out2 asked a r1.kept
          (round-Answer set asked a (clear_failures kernel out1.1) p fits r1.known) in
      elim (Bool-cases (out1.0 == 0)) [
        | inl t ↦ rw t (elim (Bool-cases (out2.0 == 0)) [
          | inl u ↦ rw u (record { known = r2.known; kept = r2.kept; answer = inl refl })
          | inr u ↦ rw u r2
        ])
        | inr t ↦ rw t r1
      ]

  -- Where size and alignment are in range, TCMalloc_SystemAlloc answers NULL or an address that is
  -- aligned, with as many bytes behind it as were asked for, which the process did not have before
  -- and has then; all memory that the process had before, it keeps.
  pub system_alloc-Answer :
      (set : Settings) (asked alignment : ℕ) (st : State S)
      → (alignment ≡ 0) ⊎ IsPower alignment
      → asked + 8 < u64_mod
      → alignment ≤ 2 ^ 63
      → IsKnown kernel st
      → Answer kernel held
          (held st.system)
          (system_alloc kernel set asked alignment st)
          asked
          (used alignment)
  unfolding system_alloc
  system_alloc-Answer set asked alignment st h small l k =
      elim (Bool-cases (ltb ((asked + alignment) % u64_mod) asked)) [
        | inl t ↦ rw t (nothing-Answer asked (used alignment) st k)
        | inr t ↦ rw t (
            rounds-Answer set asked (used alignment) st (used-IsPower alignment h) (ground arith) k)
      ]
