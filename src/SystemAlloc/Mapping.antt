-- ===== src/SystemAlloc/Mapping.antt =====
-- TryMmap of src/systemalloc.cpp, and what TryDevMem has in common with it.
use native.Mathlib.Nat.{mod-eq_of_lt}
use ferp.Common.{
  ℕ, ◌+◌, ◌-◌, ◌%◌, ◌≤◌, ◌<◌, ◌≡◌, subst, refl, Bool, true, false, Option, if◌then◌else◌, ltb, leb,
  ◌==◌, Bool-cases, inl, inr, ◌⊎◌, arith,
}
use ferp.Common.Bits.{u64_mod}
use ferp.SystemAlloc.{Kernel, failed, trim, round_up, adjustment}
use ferp.SystemAlloc.Rounding.{
  IsPower, power_pos, powers-divide, adjusted, adjusted_multiple, round_up_bounds,
  round_up_overflow, multiple_room, mod_multiple, sub_multiple,
}
use ferp.SystemAlloc.Regions.{Granted, AreSame, Lawful, trim-Granted}

-- The alignment, which is a page or more.
abbrev pub raised : ℕ → ℕ → ℕ
raised a page = if ltb a page then page else a

raised-IsPower : (a page : ℕ) → IsPower a → IsPower page → IsPower (raised a page)
raised-IsPower a page h k = elim (Bool-cases (ltb a page)) [ inl t ↦ rw t k | inr t ↦ rw t h ]

raised_multiple :
    (a page : ℕ) → IsPower a → IsPower page → (raised a page % page ≡ 0) × (raised a page % a ≡ 0)
raised_multiple a page h k =
    let p = raised-IsPower a page h k in
    (
      powers-divide page (raised a page) k p (ground arith),
      powers-divide a (raised a page) h p (ground arith),
    )

-- What a mapping that succeeds gives: the memory asked for and no other, at an aligned address. Its
-- size is the least multiple of the alignment, or of a larger page, that is enough.
pub record Mapped (held held' : ℕ → Bool) (p asked alignment page : ℕ) : Type 0 where
  pub size : ℕ
  pub granted : Granted held held' p size
  pub enough : asked ≤ size
  pub tight : size < asked + raised alignment page
  pub multiple : size % raised alignment page ≡ 0
  pub aligned : p % alignment ≡ 0

module _ {S : Type 0} (kernel : Kernel S) (held : S → ℕ → Bool) (lawful : Lawful kernel held) where
  -- The sizes do not overflow, or the mapping is empty, which is an error.
  sized :
      (asked alignment : ℕ)
      → IsPower alignment
      → asked + alignment < u64_mod
      → let a = raised alignment kernel.page_size in
        let size = round_up asked a in
        let n = (size + (a - kernel.page_size)) % u64_mod in
        (n ≡ 0)
        ⊎ ((n ≡ size + (a - kernel.page_size))
            × (asked ≤ size)
            × (size < asked + a)
            × (size % a ≡ 0))
  sized asked alignment h fits =
      let page = kernel.page_size in
      let a = raised alignment page in
      let p = raised-IsPower alignment page h lawful.pages in
      let small : a ≤ u64_mod = ground (arith, fits, lawful.small) in
      elim (Bool-cases (leb (asked + a) u64_mod)) [
        | inl t ↦
            let (low, high, multiple) = round_up_bounds asked a (power_pos a p) (ground arith) in
            let room =
              multiple_room (round_up asked a) u64_mod a multiple
                (powers-divide a u64_mod p (64, refl) small) (ground arith) in
            inr (
              mod-eq_of_lt (omega (arith, room, power_pos a p, power_pos page lawful.pages)),
              low,
              high,
              multiple,
            )
        | inr t ↦
            let nothing = round_up_overflow asked a (omega (arith, fits)) small (ground arith) in
            let page_wide : a - page ≡ 0 = ground (arith, fits) in
            inl (rw (nothing, page_wide) refl)
      ]

  pub map-Mapped :
      (offset : Option ℕ) (asked alignment : ℕ) (s : S)
      → IsPower alignment
      → asked + alignment < u64_mod
      → let a = raised alignment kernel.page_size in
        let size = round_up asked a in
        let extra = a - kernel.page_size in
        let (p, s') = kernel.map offset ((size + extra) % u64_mod) s in
        ((p == failed) ≡ true × AreSame (held s) (held s'))
        ⊎ (((p == failed) ≡ false)
            × Mapped
                (held s)
                (held (trim kernel p size extra (adjustment p a) s'))
                (p + adjustment p a)
                asked
                alignment
                kernel.page_size)
  map-Mapped offset asked alignment s h fits =
      let page = kernel.page_size in
      let a = raised alignment page in
      let size = round_up asked a in
      let extra = a - page in
      let n = (size + extra) % u64_mod in
      let ptr = (kernel.map offset n s).0 in
      let s' = (kernel.map offset n s).1 in
      elim (lawful.map offset n s) [
        | inl (e, same) ↦ inl (rw e refl, same)
        | inr (some_bytes, on_page, g) ↦ elim (sized asked alignment h fits) [
          | inl nothing ↦ absurd (omega (arith, some_bytes, nothing))
          | inr (whole, low, high, multiple) ↦
              let p = raised-IsPower alignment page h lawful.pages in
              let (by_page, by_alignment) = raised_multiple alignment page h lawful.pages in
              let (near, there) = adjusted ptr a p in
              let (adjust_pages, within) =
                adjusted_multiple ptr a page p (power_pos page lawful.pages) by_page on_page in
              let region =
                trim-Granted kernel held lawful (held s) ptr size extra (adjustment ptr a) s'
                  (subst (Granted (held s) (held s') ptr) whole g) within on_page
                  (mod_multiple size a page multiple by_page) adjust_pages
                  (sub_multiple a page page by_page
                    (powers-divide page page lawful.pages lawful.pages (omega arith))) in
              inr (
                ground (arith, g.below),
                record {
                  size = size;
                  granted = region;
                  enough = low;
                  tight = high;
                  multiple = multiple;
                  aligned = mod_multiple (ptr + adjustment ptr a) a alignment there by_alignment;
                },
              )
        ]
      ]
