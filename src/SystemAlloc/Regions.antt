-- ===== src/SystemAlloc/Regions.antt =====
-- Which addresses a process has from the system, for src/systemalloc.cpp: what the system calls
-- promise, and the parts of a mapping that go back.
use ferp.Common.{
  ℕ, ◌+◌, ◌-◌, ◌%◌, ◌^◌, ◌≤◌, ◌<◌, ◌≡◌, ◌∙◌, sym, subst, Bool, true, false, Option, if◌then◌else◌,
  ltb, Bool-cases, inl, inr, ◌⊎◌, arith,
}
use ferp.Common.Bits.{u64_mod}
use ferp.SystemAlloc.{Kernel, failed, trim}
use ferp.SystemAlloc.Rounding.{IsPower, add_multiple, sub_multiple}

abbrev pub IsOutside : ℕ → ℕ → ℕ → Type 0
IsOutside p n x = (x < p) ⊎ (p + n ≤ x)

abbrev pub AreSame : (ℕ → Bool) → (ℕ → Bool) → Type 0
AreSame held held' = (x : ℕ) → held' x ≡ held x

-- The addresses from `p` on are new, and all others are as they were.
pub record Granted (held held' : ℕ → Bool) (p n : ℕ) : Type 0 where
  pub positive : 0 < p
  pub below : p + n ≤ 2 ^ 63
  pub fresh : (x : ℕ) → p ≤ x → x < p + n → held x ≡ false
  pub taken : (x : ℕ) → p ≤ x → x < p + n → held' x ≡ true
  pub others : (x : ℕ) → IsOutside p n x → held' x ≡ held x

-- The system calls as they are documented, where `held` tells the addresses that a process has:
-- addresses of a process are below 2 ^ 63, an empty mapping is an error, and munmap() takes whole
-- pages.
pub record Lawful {S : Type 0} (kernel : Kernel S) (held : S → ℕ → Bool) : Type 0 where
  pub pages : IsPower kernel.page_size
  pub small : kernel.page_size ≤ 2 ^ 63
  pub sbrk :
      (n : ℕ) (s : S)
      → n < 2 ^ 63
      → (((kernel.sbrk n s).0 ≡ failed) × AreSame (held s) (held (kernel.sbrk n s).1))
        ⊎ Granted (held s) (held (kernel.sbrk n s).1) (kernel.sbrk n s).0 n
  pub map :
      (offset : Option ℕ) (n : ℕ) (s : S)
      → (((kernel.map offset n s).0 ≡ failed) × AreSame (held s) (held (kernel.map offset n s).1))
        ⊎ ((0 < n)
            × ((kernel.map offset n s).0 % kernel.page_size ≡ 0)
            × Granted (held s) (held (kernel.map offset n s).1) (kernel.map offset n s).0 n)
  pub munmap :
      (p n : ℕ) (s : S)
      → p % kernel.page_size ≡ 0
      → n % kernel.page_size ≡ 0
      → 0 < n
      → ((x : ℕ) → p ≤ x → x < p + n → held (kernel.munmap p n s) x ≡ false)
        × ((x : ℕ) → IsOutside p n x → held (kernel.munmap p n s) x ≡ held s x)
  pub open_dev_mem : (s : S) → AreSame (held s) (held (kernel.open_dev_mem s).1)

-- The place of an address to two bounds.
side : (x m : ℕ) → (x < m) ⊎ (m ≤ x)
side x m = omega arith

module _ {S : Type 0} (kernel : Kernel S) (held : S → ℕ → Bool) (lawful : Lawful kernel held) where
  -- The front of a region goes back.
  cut_front :
      (h0 : ℕ → Bool) (p a n : ℕ) (s : S)
      → Granted h0 (held s) p (a + n)
      → p % kernel.page_size ≡ 0
      → a % kernel.page_size ≡ 0
      → Granted h0 (held (if ltb 0 a then kernel.munmap p a s else s)) (p + a) n
  cut_front h0 p a n s g ep ea = elim (Bool-cases (ltb 0 a)) [
    | inl t ↦
        let (gone, same) = lawful.munmap p a s ep ea (ground arith) in
        rw t (record {
          positive = omega (arith, g.positive);
          below = omega (arith, g.below);
          fresh = λ x h k. g.fresh x (omega arith) (omega arith);
          taken = λ x h k. same x (inr h) ∙ g.taken x (omega arith) (omega arith);
          others = λ x o. elim (side x p) [
            | inl l ↦ same x (inl l) ∙ g.others x (inl l)
            | inr u ↦ elim (side x (p + a)) [
              | inl l ↦ gone x u l ∙ sym (g.fresh x u (omega arith))
              | inr v ↦ same x (inr v) ∙ g.others x (inr (omega arith))
            ]
          ];
        })
    | inr t ↦
        let zero : a ≡ 0 = ground arith in
        rw t (record {
          positive = omega (arith, g.positive);
          below = omega (arith, g.below);
          fresh = λ x h k. g.fresh x (omega arith) (omega arith);
          taken = λ x h k. g.taken x (omega arith) (omega arith);
          others = λ x o. g.others x (omega arith);
        })
  ]

  -- The back of a region goes back.
  cut_back :
      (h0 : ℕ → Bool) (p n adjust extra : ℕ) (s : S)
      → Granted h0 (held s) p (n + (extra - adjust))
      → p % kernel.page_size ≡ 0
      → n % kernel.page_size ≡ 0
      → adjust % kernel.page_size ≡ 0
      → extra % kernel.page_size ≡ 0
      → Granted h0
          (held
            (if ltb adjust extra then kernel.munmap ((p + n) % u64_mod) (extra - adjust) s else s))
          p
          n
  cut_back h0 p n adjust extra s g ep en ea ee = elim (Bool-cases (ltb adjust extra)) [
    | inl t ↦
        let inside : (p + n) % u64_mod ≡ p + n = omega (arith, g.below) in
        let (gone, same) =
          lawful.munmap (p + n) (extra - adjust) s (add_multiple p n kernel.page_size ep en)
            (sub_multiple extra adjust kernel.page_size ee ea) (ground arith) in
        rw (t, inside)
          (record {
            positive = g.positive;
            below = omega (arith, g.below);
            fresh = λ x h k. g.fresh x h (omega arith);
            taken = λ x h k. same x (inl k) ∙ g.taken x h (omega arith);
            others = λ x o. elim (side x p) [
              | inl l ↦ same x (inl (omega arith)) ∙ g.others x (inl l)
              | inr u ↦ elim (side x (p + n + (extra - adjust))) [
                | inl l ↦ gone x (omega arith) l ∙ sym (g.fresh x u (omega arith))
                | inr v ↦ same x (inr v) ∙ g.others x (inr (omega arith))
              ]
            ];
          })
    | inr t ↦
        let zero : extra - adjust ≡ 0 = ground arith in
        rw t (record {
          positive = g.positive;
          below = omega (arith, g.below);
          fresh = λ x h k. g.fresh x h (omega arith);
          taken = λ x h k. g.taken x h (omega arith);
          others = λ x o. g.others x (omega arith);
        })
  ]

  -- Of a mapping with `extra` bytes more, the aligned part is left.
  pub trim-Granted :
      (h0 : ℕ → Bool) (p n extra adjust : ℕ) (s : S)
      → Granted h0 (held s) p (n + extra)
      → adjust ≤ extra
      → p % kernel.page_size ≡ 0
      → n % kernel.page_size ≡ 0
      → adjust % kernel.page_size ≡ 0
      → extra % kernel.page_size ≡ 0
      → Granted h0 (held (trim kernel p n extra adjust s)) (p + adjust) n
  unfolding trim
  trim-Granted h0 p n extra adjust s g le ep en ea ee =
      let whole : n + extra ≡ adjust + (n + (extra - adjust)) = omega arith in
      let front =
        cut_front h0 p adjust (n + (extra - adjust)) s (subst (Granted h0 (held s) p) whole g) ep
          ea in
      cut_back h0 (p + adjust) n adjust extra (if ltb 0 adjust then kernel.munmap p adjust s else s)
        front (add_multiple p adjust kernel.page_size ep ea) en ea ee
