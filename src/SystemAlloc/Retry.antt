-- ===== src/SystemAlloc/Retry.antt =====
-- The loop of TCMalloc_SystemAlloc in src/systemalloc.cpp tries every source again: a failure that
-- is over does no harm.
use ferp.Common.{
  ℕ, ◌+◌, ◌-◌, ◌%◌, ◌<◌, ◌≡◌, ◌∙◌, sym, refl, Bool, true, false, not, ◌&&◌, none, if◌then◌else◌,
  ltb, ◌==◌, Bool-cases, inl, inr, ◌⊎◌, arith,
}
use ferp.Common.Bits.{u64_mod}
use ferp.SystemAlloc.{
  Kernel, Settings, State, round_up, try_dev_mem, try_sbrk, try_mmap, round, clear_failures,
  system_alloc,
}
use ferp.SystemAlloc.Rounding.{IsPower}
use ferp.SystemAlloc.Regions.{Lawful}
use ferp.SystemAlloc.Mapping.{map-Mapped, raised}
use ferp.SystemAlloc.Attempts.{IsKnown, try_mmap-with}
use ferp.SystemAlloc.Alloc.{
  rounds, first_sources, first_sources-Answer, round-Answer, used, used-IsPower,
}
use ferp.SystemAlloc.Ready.{either, try_sbrk-IsReady, try_dev_mem-IsReady, IsReady, Roomy}

-- What mmap() is asked for.
abbrev pub mapping_size : ℕ → ℕ → ℕ → ℕ
mapping_size page asked alignment =
    let a = raised alignment page in (round_up asked a + (a - page)) % u64_mod

switched_on :
    (wanted failure : Bool) → wanted ≡ true → failure ≡ false → (wanted && not failure) ≡ true
switched_on true true h k = sym k
switched_on true false h k = refl
switched_on false failure h k = h

switched_off : (wanted failure : Bool) → failure ≡ true → (wanted && not failure) ≡ false
switched_off wanted failure h = ground arith

module _ {S : Type 0} (kernel : Kernel S) (held : S → ℕ → Bool) (lawful : Lawful kernel held)
    (set : Settings) (asked a : ℕ) (p : IsPower a) (fits : asked + a < u64_mod) (room : S → Bool)
    (roomy : Roomy kernel (mapping_size kernel.page_size asked a) room) where
  first_sources-IsReady :
      (st : State S)
      → room st.system ≡ true
      → IsReady kernel
          (mapping_size kernel.page_size asked a)
          room
          roomy
          st.mmap_failure
          (first_sources kernel held lawful set asked a st).1
  first_sources-IsReady st r =
      let n = mapping_size kernel.page_size asked a in
      let flag = st.mmap_failure in
      let out : ℕ × State S =
        if set.use_devmem && not st.devmem_failure
        then try_dev_mem kernel set asked a st
        else (0, st) in
      let h =
        either kernel n room roomy flag (set.use_devmem && not st.devmem_failure)
          (try_dev_mem kernel set asked a st) (0, st)
          (try_dev_mem-IsReady kernel n room roomy flag set asked a st (refl, r)) (refl, r) in
      either kernel n room roomy flag (out.0 == 0)
        (if set.use_sbrk && not out.1.sbrk_failure
          then try_sbrk kernel asked a out.1
          else (0, out.1))
        out
        (either kernel n room roomy flag (set.use_sbrk && not out.1.sbrk_failure)
          (try_sbrk kernel asked a out.1) (0, out.1)
          (try_sbrk-IsReady kernel n room roomy flag asked a out.1 h) h)
        h

  mmap_given :
      (st : State S)
      → IsKnown kernel st
      → room st.system ≡ true
      → 0 < (try_mmap kernel asked a st).0
  mmap_given st k r =
      rw (try_mmap-with kernel held lawful asked a st k)
        (elim (map-Mapped kernel held lawful none asked a st.system p fits) [
          | inl (e, same) ↦ absurd (roomy.map st.system r (ground arith))
          | inr (e, m) ↦ rw e (omega (arith, m.granted.positive, m.granted.below))
        ])

  -- A round gives an address, or mmap() was off and there is still room.
  round_given :
      (st : State S)
      → set.use_mmap ≡ true
      → IsKnown kernel st
      → room st.system ≡ true
      → (0 < (round kernel set asked a st).0)
        ⊎ ((st.mmap_failure ≡ true) × (room (round kernel set asked a st).1.system ≡ true))
  unfolding round
  round_given st on k r =
      let out = first_sources kernel held lawful set asked a st in
      let answer = first_sources-Answer kernel held lawful set asked a st p fits k in
      let (flag, r') = first_sources-IsReady st r in
      elim (Bool-cases (out.0 == 0)) [
        | inr z ↦ rw z (inl (ground arith))
        | inl z ↦ elim (Bool-cases out.1.mmap_failure) [
          | inl off ↦
              let switch = switched_off set.use_mmap out.1.mmap_failure off in
              rw (z, switch) (inr (sym flag ∙ off, r'))
          | inr fine ↦
              let switch = switched_on set.use_mmap out.1.mmap_failure on fine in
              rw (z, switch) (inl (mmap_given out.1 answer.known r'))
        ]
      ]

  cleared : (st : State S) → (clear_failures kernel st).mmap_failure ≡ false
  unfolding clear_failures
  cleared st = refl

  clear_failures-IsKnown :
      (st : State S) → IsKnown kernel st → IsKnown kernel (clear_failures kernel st)
  unfolding clear_failures
  clear_failures-IsKnown st k = k

  clear_failures-room :
      (st : State S) → room st.system ≡ true → room (clear_failures kernel st).system ≡ true
  unfolding clear_failures
  clear_failures-room st r = r

  rounds_given :
      (st : State S)
      → set.use_mmap ≡ true
      → IsKnown kernel st
      → room st.system ≡ true
      → 0 < (rounds kernel held lawful set asked a st).0
  rounds_given st on k r =
      let out1 = round kernel set asked a st in
      let st1 = clear_failures kernel out1.1 in
      let known = (round-Answer kernel held lawful set asked a st p fits k).known in
      elim (round_given st on k r) [
        | inl given ↦
            let some_memory : (out1.0 == 0) ≡ false = ground (arith, given) in rw some_memory given
        | inr (off, r1) ↦
            elim (round_given st1 on (clear_failures-IsKnown out1.1 known)
              (clear_failures-room out1.1 r1)) [
                | inr (off1, r2) ↦ absurd (ground (arith, off1, cleared out1.1))
                | inl given ↦ elim (Bool-cases (out1.0 == 0)) [
                  | inl z ↦
                      let some_memory : ((round kernel set asked a st1).0 == 0) ≡ false =
                        ground (arith, given) in
                      rw (z, some_memory) given
                  | inr z ↦ rw z (ground arith)
                ]
              ]
      ]

module _ {S : Type 0} (kernel : Kernel S) (held : S → ℕ → Bool) (lawful : Lawful kernel held)
    (room : S → Bool) where
  -- Where the sizes are in range and there is room for the mapping, which the other system calls do
  -- not take, TCMalloc_SystemAlloc answers an address, even if an earlier failure has switched
  -- mmap() off.
  pub system_alloc-succeeds :
      (set : Settings) (asked alignment : ℕ) (st : State S)
      → set.use_mmap ≡ true
      → (alignment ≡ 0) ⊎ IsPower alignment
      → asked + 8 < u64_mod
      → asked + alignment < u64_mod
      → IsKnown kernel st
      → Roomy kernel (mapping_size kernel.page_size asked (used alignment)) room
      → room st.system ≡ true
      → 0 < (system_alloc kernel set asked alignment st).0
  unfolding system_alloc
  system_alloc-succeeds set asked alignment st on h small fits k roomy r =
      let in_range : ltb ((asked + alignment) % u64_mod) asked ≡ false = ground arith in
      rw in_range (
        rounds_given kernel held lawful set asked (used alignment) (used-IsPower alignment h)
          (ground arith) room roomy st on k r)
