-- ===== src/SystemAlloc/Ready.antt =====
-- What the sources before mmap() in src/systemalloc.cpp leave as it is: the failure of mmap() and
-- the room for a mapping.
use ferp.Common.{
  ℕ, ◌+◌, ◌-◌, ◌%◌, ◌≡◌, ◌≢◌, Bool, true, false, none, some, if◌then◌else◌, ltb, arith,
}
use ferp.Common.Bits.{u64_mod}
use ferp.SystemAlloc.{
  Kernel, Settings, State, failed, round_up, adjustment, trim, sbrk_larger, sbrk_extra, open_devmem,
  map_devmem, try_dev_mem, try_sbrk, get_pagesize,
}
use ferp.SystemAlloc.Mapping.{raised}

-- There is room for a mapping of `n` bytes, which other calls than that do not take.
pub record Roomy {S : Type 0} (kernel : Kernel S) (n : ℕ) (room : S → Bool) : Type 0 where
  pub map : (s : S) → room s ≡ true → (kernel.map none n s).0 ≢ failed
  pub sbrk : (m : ℕ) (s : S) → room s ≡ true → room (kernel.sbrk m s).1 ≡ true
  pub device : (o m : ℕ) (s : S) → room s ≡ true → room (kernel.map (some o) m s).1 ≡ true
  pub munmap : (p m : ℕ) (s : S) → room s ≡ true → room (kernel.munmap p m s) ≡ true
  pub open_dev_mem : (s : S) → room s ≡ true → room (kernel.open_dev_mem s).1 ≡ true

module _ {S : Type 0} (kernel : Kernel S) (n : ℕ) (room : S → Bool) (roomy : Roomy kernel n room)
    (failure : Bool) where
  -- What the sources before mmap() leave as it is.
  abbrev pub IsReady : State S → Type 0
  IsReady st = (st.mmap_failure ≡ failure) × (room st.system ≡ true)

  pub either :
      {A : Type 0} (b : Bool) (x y : A × State S)
      → IsReady x.1
      → IsReady y.1
      → IsReady (if b then x else y).1
  either true x y h k = h
  either false x y h k = k

  sbrk_larger-IsReady :
      (size a : ℕ) (st : State S) → IsReady st → IsReady (sbrk_larger kernel size a st).1
  unfolding sbrk_larger
  sbrk_larger-IsReady size a st (f, r) =
      let r' = roomy.sbrk ((size + a - 1) % u64_mod) st.system r in ground (arith, f, r')

  sbrk_extra-IsReady :
      (p size a : ℕ) (st : State S) → IsReady st → IsReady (sbrk_extra kernel p size a st).1
  unfolding sbrk_extra
  sbrk_extra-IsReady p size a st (f, r) =
      let r' = roomy.sbrk (adjustment p a) st.system r in
      ground (
        arith,
        f,
        r',
        sbrk_larger-IsReady size a
            (record st { system = (kernel.sbrk (adjustment p a) st.system).1 }) (f, r'),
      )

  pub try_sbrk-IsReady :
      (asked a : ℕ) (st : State S) → IsReady st → IsReady (try_sbrk kernel asked a st).1
  unfolding try_sbrk
  try_sbrk-IsReady asked a st (f, r) =
      let size = round_up asked a in
      let answer = kernel.sbrk size st.system in
      let r' = roomy.sbrk size st.system r in
      ground (
        arith,
        f,
        r,
        r',
        sbrk_extra-IsReady answer.0 size a (record st { system = answer.1 }) (f, r'),
      )

  trim-room :
      (p size extra adjust : ℕ) (s : S)
      → room s ≡ true
      → room (trim kernel p size extra adjust s) ≡ true
  unfolding trim
  trim-room p size extra adjust s r =
      let s' = if ltb 0 adjust then kernel.munmap p adjust s else s in
      ground (
        arith,
        r,
        roomy.munmap p adjust s r,
        roomy.munmap ((p + adjust + size) % u64_mod) (extra - adjust) s',
      )

  map_devmem-IsReady :
      (asked a : ℕ) (st : State S) → IsReady st → IsReady (map_devmem kernel asked a st).1
  unfolding map_devmem
  map_devmem-IsReady asked a0 st (f, r) =
      let page = get_pagesize kernel st in
      let a = raised a0 page in
      let size = round_up asked a in
      let extra = a - page in
      let answer = kernel.map (some st.physmem_base) ((size + extra) % u64_mod) st.system in
      let r' = roomy.device st.physmem_base ((size + extra) % u64_mod) st.system r in
      ground (arith, f, r, r', trim-room answer.0 size extra (adjustment answer.0 a) answer.1 r')

  open_devmem-IsReady :
      (set : Settings) (st : State S) → IsReady st → IsReady (open_devmem kernel set st).1
  unfolding open_devmem
  open_devmem-IsReady set st (f, r) =
      let r' = roomy.open_dev_mem st.system r in ground (arith, f, r, r')

  pub try_dev_mem-IsReady :
      (set : Settings) (asked a : ℕ) (st : State S)
      → IsReady st
      → IsReady (try_dev_mem kernel set asked a st).1
  unfolding try_dev_mem
  try_dev_mem-IsReady set asked a st h =
      let h' = open_devmem-IsReady set st h in
      ground (arith, h, h', map_devmem-IsReady asked a (open_devmem kernel set st).1 h')
