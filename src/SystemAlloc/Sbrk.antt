-- ===== src/SystemAlloc/Sbrk.antt =====
-- TrySbrk of src/systemalloc.cpp: what it takes beside the memory that it answers stays unused.
use ferp.Common.{
  ℕ, ◌+◌, ◌-◌, ◌%◌, ◌^◌, ◌≤◌, ◌<◌, ◌≡◌, ◌∙◌, sym, subst, refl, Bool, false, leb, ◌==◌, bit_and,
  Bool-cases, inl, inr, arith,
}
use ferp.Common.Bits.{u64_mod}
use ferp.SystemAlloc.{
  Kernel, State, failed, round_up, adjustment, sbrk_larger, sbrk_extra, try_sbrk,
}
use ferp.SystemAlloc.Rounding.{
  IsPower, power_pos, powers-divide, low_bits, adjusted, round_up_bounds, multiple_room,
}
use ferp.SystemAlloc.Regions.{Granted, Lawful}
use ferp.SystemAlloc.Attempts.{IsKnown}
use ferp.SystemAlloc.Answers.{
  Answer, IsKept, Served, Granted-IsKept, Granted-Served, both-Served, later-Answer,
}

module _ {S : Type 0} (kernel : Kernel S) (held : S → ℕ → Bool) (lawful : Lawful kernel held) where
  sbrk_larger-Answer :
      (size asked alignment : ℕ) (st : State S)
      → IsPower alignment
      → IsKnown kernel st
      → asked ≤ size
      → size + alignment ≤ 2 ^ 63
      → Answer kernel held (held st.system) (sbrk_larger kernel size alignment st) asked alignment
  unfolding sbrk_larger
  sbrk_larger-Answer size asked a st p k low room =
      let n = (size + a - 1) % u64_mod in
      let pos = power_pos a p in
      let whole : n ≡ size + a - 1 = omega arith in
      let ptr = (kernel.sbrk n st.system).0 in
      let st' : State S = record st { system = (kernel.sbrk n st.system).1 } in
      elim (lawful.sbrk n st.system (omega arith)) [
        | inl (e, same) ↦ rw e (record { known = k; kept = λ x t. same x ∙ t; answer = inl refl })
        | inr g ↦
            let (near, there) = adjusted ptr a p in
            let fine : (ptr == failed) ≡ false = ground (arith, g.below) in
            let same : (ptr + adjustment ptr a) % u64_mod ≡ ptr + adjustment ptr a =
              omega (arith, g.below, near) in
            rw (fine, same)
              (record {
                known = k;
                kept = Granted-IsKept (held st.system) (held st'.system) ptr n g;
                answer = inr (
                    Granted-Served (held st.system) (held st'.system) ptr n (ptr + adjustment ptr a)
                      asked a g (omega arith) (omega (arith, near, whole)) there);
              })
      ]

  sbrk_extra-Answer :
      (h : ℕ → Bool) (ptr size asked alignment : ℕ) (st : State S)
      → IsPower alignment
      → IsKnown kernel st
      → asked ≤ size
      → size + alignment ≤ 2 ^ 63
      → Granted h (held st.system) ptr size
      → Answer kernel held h (sbrk_extra kernel ptr size alignment st) asked alignment
  unfolding sbrk_extra
  sbrk_extra-Answer h ptr size asked a st p k low room g =
      let extra = adjustment ptr a in
      let (near, there) = adjusted ptr a p in
      let keep = Granted-IsKept h (held st.system) ptr size g in
      let r2 = (kernel.sbrk extra st.system).0 in
      let st' : State S = record st { system = (kernel.sbrk extra st.system).1 } in
      let behind : (ptr + size) % u64_mod ≡ ptr + size = omega (arith, g.below) in
      let granted = lawful.sbrk extra st.system (omega (arith, near, room)) in
      let keep' : IsKept (held st.system) (held st'.system) = elim granted [
        | inl (e, same) ↦ λ x t. same x ∙ t
        | inr g2 ↦ Granted-IsKept (held st.system) (held st'.system) r2 extra g2
      ] in
      elim (Bool-cases (r2 == (ptr + size) % u64_mod)) [
        | inl t ↦
            let there' : r2 ≡ ptr + size = ground arith in
            let answer : Served h (held st'.system) ((ptr + extra) % u64_mod) asked a =
              elim granted [
                | inl (e, same) ↦ absurd (omega (arith, e, there', g.below))
                | inr g2 ↦
                    let next =
                      subst (λ x. Granted (held st.system) (held st'.system) x extra) there' g2 in
                    let same : (ptr + extra) % u64_mod ≡ ptr + extra = omega (arith, next.below) in
                    rw same (
                      both-Served h (held st.system) (held st'.system) ptr size extra asked a g next
                        low there)
              ] in
            rw t (record { known = k; kept = λ x u. keep' x (keep x u); answer = inr answer })
        | inr f ↦ rw f (
            later-Answer kernel held h (held st'.system) (sbrk_larger kernel size a st') asked a
              (λ x u. keep' x (keep x u)) (sbrk_larger-Answer size asked a st' p k low room))
      ]

  pub try_sbrk-Answer :
      (asked alignment : ℕ) (st : State S)
      → IsPower alignment
      → asked + alignment < u64_mod
      → IsKnown kernel st
      → Answer kernel held (held st.system) (try_sbrk kernel asked alignment st) asked alignment
  unfolding try_sbrk
  try_sbrk-Answer asked a st p fits k = elim (Bool-cases (leb (2 ^ 63) ((asked + a) % u64_mod))) [
    | inl t ↦ rw t (record { known = k; kept = λ x u. u; answer = inl refl })
    | inr f ↦
        let sum : asked + a < 2 ^ 63 = ground arith in
        let size = round_up asked a in
        let (low, high, multiple) = round_up_bounds asked a (power_pos a p) (omega arith) in
        let room =
          multiple_room size (2 ^ 63) a multiple
            (powers-divide a (2 ^ 63) p (63, refl) (omega arith)) (omega arith) in
        let ptr = (kernel.sbrk size st.system).0 in
        let st' : State S = record st { system = (kernel.sbrk size st.system).1 } in
        rw f (elim (lawful.sbrk size st.system (omega (arith, room, power_pos a p))) [
          | inl (e, same) ↦ rw e (record { known = k; kept = λ x t. same x ∙ t; answer = inl refl })
          | inr g ↦
              let fine : (ptr == failed) ≡ false = ground (arith, g.below) in
              rw fine (elim (Bool-cases (bit_and ptr (a - 1) == 0)) [
                | inl t ↦
                    let aligned : ptr % a ≡ 0 = sym (low_bits ptr a p) ∙ ground arith in
                    rw t (record {
                      known = k;
                      kept = Granted-IsKept (held st.system) (held st'.system) ptr size g;
                      answer = inr (
                          Granted-Served (held st.system) (held st'.system) ptr size ptr asked a g
                            (omega arith) (omega arith) aligned);
                    })
                | inr u ↦
                    rw u (sbrk_extra-Answer (held st.system) ptr size asked a st' p k low room g)
              ])
        ])
  ]
