-- ===== src/Common/Masks.antt =====
-- The mask of a power of two, `x & (2 ^ k - 1)`, as a remainder.
use native.Mathlib.Nat.{add-mul-mod_self_right, mod-eq_of_lt, mod-lt, pow-suc, pow-zero}
use Prim.Native.Nat.{digits, min, bit_and-bitwise}
use ferp.Common.{
  ℕ, zero, suc, ◌+◌, ◌-◌, ◌*◌, ◌/◌, ◌%◌, ◌^◌, ◌≤◌, ◌<◌, ◌≡◌, ◌∙◌, ap, sym, refl, bit_and, arith,
}
use ferp.Common.Bits.{pow_pos}

abbrev and_digits : ℕ → ℕ → ℕ → ℕ
and_digits n a b = digits (λ b. zero) min n a b

min_zero : (n : ℕ) → min n 0 ≡ 0
min_zero n = omega arith

min_bit : (n : ℕ) → n < 2 → min n 1 ≡ n
min_bit n h = omega arith

no_digits : (n a : ℕ) → and_digits n a 0 ≡ 0
no_digits zero a = refl
no_digits (suc n) zero = refl
no_digits (suc n) (suc a) = rw (no_digits n (suc a / 2)) (omega (arith, min_zero (suc a % 2)))

-- The lowest digit and the rest.
mod_double : (a m : ℕ) → 0 < m → a % (m * 2) ≡ a / 2 % m * 2 + a % 2
mod_double a m p =
    let r = a / 2 % m in
    let q = a / 2 / m in
    let low : r < m = mod-lt (a / 2) p in
    let half : a / 2 ≡ q * m + r = omega arith in
    let whole : a ≡ r * 2 + a % 2 + q * (m * 2) = grind arith in
    ap (λ x. x % (m * 2)) whole
    ∙ add-mul-mod_self_right (r * 2 + a % 2) q (m * 2)
    ∙ mod-eq_of_lt (omega arith)

mask_digits : (k n a : ℕ) → a ≤ n → and_digits n a (2 ^ k - 1) ≡ a % 2 ^ k
mask_digits zero n a h = rw (pow-zero 2) (no_digits n a ∙ omega arith)
mask_digits (suc k) zero a h =
    let none : a ≡ 0 = omega arith in rw none (sym (mod-eq_of_lt (pow_pos (suc k))))
mask_digits (suc k) (suc n) zero h = sym (mod-eq_of_lt (pow_pos (suc k)))
mask_digits (suc k) (suc n) (suc a) h =
    let pos = pow_pos k in
    let half : (2 ^ suc k - 1) / 2 ≡ 2 ^ k - 1 = rw (pow-suc 2 k) (omega (arith, pos)) in
    let odd : (2 ^ suc k - 1) % 2 ≡ 1 = rw (pow-suc 2 k) (omega (arith, pos)) in
    rw
      (
        half,
        odd,
        mask_digits k n (suc a / 2) (omega arith),
        min_bit (suc a % 2) (omega arith),
        pow-suc 2 k,
      )
      (sym (mod_double (suc a) (2 ^ k) pos))

pub bit_and-mask : (x k : ℕ) → bit_and x (2 ^ k - 1) ≡ x % 2 ^ k
bit_and-mask x k = (λ i. bit_and-bitwise x (2 ^ k - 1) i) ∙ mask_digits k x x (omega arith)
