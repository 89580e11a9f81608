-- ===== src/SizeClass/Floor.antt =====
-- LgFloor of src/tcmalloc.cpp finds the position of the highest bit.
use native.Mathlib.Nat.{mul-le-mul_right, pow-suc}
use ferp.Common.{
  ℕ, zero, suc, ◌+◌, ◌*◌, ◌/◌, ◌^◌, ◌≤◌, ◌<◌, ◌≡◌, ap, inl, inr, arith, ◌==◌, Bool-cases,
}
use ferp.Common.Bits.{pow-add, pow_pos, div_bounds}
use ferp.SizeClass.{lg_floor_loop, lg_floor}

-- What the loop keeps: `n` is the number that is left of `m` after a shift by `log`.
abbrev Shifted : ℕ → ℕ → ℕ → Type 0
Shifted m n log = (0 < n) × (n * 2 ^ log ≤ m) × (m < (n + 1) * 2 ^ log)

-- Two bounds on a quotient, scaled.
scaled :
    (n q d p : ℕ)
    → q * d ≤ n
    → n < (q + 1) * d
    → (q * (p * d) ≤ n * p) × ((n + 1) * p ≤ (q + 1) * (p * d))
scaled n q d p h k = (omega (arith, mul-le-mul_right p h), omega (arith, mul-le-mul_right p k))

Shifted-div : (m n log k : ℕ) → Shifted m n log → 0 < n / 2 ^ k → Shifted m (n / 2 ^ k) (log + k)
Shifted-div m n log k s h =
    let b = div_bounds n (2 ^ k) (pow_pos k) in
    let c = scaled n (n / 2 ^ k) (2 ^ k) (2 ^ log) b.0 b.1 in
    rw (pow-add 2 log k) (h, omega arith, omega arith)

pow-square : (i : ℕ) → 2 ^ 2 ^ suc i ≡ 2 ^ 2 ^ i * 2 ^ 2 ^ i
pow-square i = rw (pow-suc 2 i, ← pow-add 2 (2 ^ i) (2 ^ i)) (ap (λ k. 2 ^ k) (omega arith))

div-square-lt : (n d : ℕ) → 0 < d → n < d * d → n / d < d
div-square-lt n d h k = grind (arith, div_bounds n d h, mul-le-mul_right {m = d} {n = n / d} d)

lg_floor_loop-Shifted :
    (i m n log : ℕ)
    → n < 2 ^ 2 ^ i
    → Shifted m n log
    → (2 ^ lg_floor_loop i n log ≤ m) × (m < 2 ^ (lg_floor_loop i n log + 1))
unfolding lg_floor_loop
lg_floor_loop-Shifted zero m n log h s =
    let one : n ≡ 1 = omega arith in
    rw (pow-add 2 log 1) (omega (arith, rw one at s.1), omega (arith, rw one at s.2))
lg_floor_loop-Shifted (suc i) m n log h s = elim (Bool-cases (n / 2 ^ 2 ^ i == 0)) [
  | inl e ↦ rw e (
      lg_floor_loop-Shifted i m n log (ground (arith, div_bounds n (2 ^ 2 ^ i) (pow_pos (2 ^ i))))
        s)
  | inr e ↦ rw e (
      lg_floor_loop-Shifted i m _ (log + 2 ^ i)
        (div-square-lt n (2 ^ 2 ^ i) (pow_pos (2 ^ i)) (rw (← pow-square i) h))
        (Shifted-div m n log (2 ^ i) s (ground arith)))
]

-- For every positive number below 2 ^ 32, `lg_floor` is the position of its highest bit.
pub lg_floor_bounds :
    (n : ℕ) → 0 < n → n < 2 ^ 32 → (2 ^ lg_floor n ≤ n) × (n < 2 ^ (lg_floor n + 1))
unfolding lg_floor
lg_floor_bounds n pos h = lg_floor_loop-Shifted 5 n n 0 h (omega arith)
