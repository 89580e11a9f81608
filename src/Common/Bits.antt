-- ===== src/Common/Bits.antt =====
-- Machine words as native numbers: wrap-around by `%`, shifts by `/` and `*`, masks by
-- `bit_and`.
use Prim.Native.Nat.{ℕ, zero, suc, ◌+◌, ◌*◌, ◌/◌, ◌%◌, ◌^◌, ◌≤◌, ◌<◌}
use mathlib.Core.Path.{◌≡◌}
use native.Mathlib.Nat.{
  pow-suc, pow-zero, one-le-pow, add-zero, add-suc, mul_assoc, div-lt_iff_lt-mul,
}
use native.Mathlib.Omega.{arith}

abbrev pub u8_mod : ℕ
u8_mod = 2 ^ 8

abbrev pub u16_mod : ℕ
u16_mod = 2 ^ 16

abbrev pub u32_mod : ℕ
u32_mod = 2 ^ 32

abbrev pub u64_mod : ℕ
u64_mod = 2 ^ 64

-- x >> k, and x << k on a 64-bit word.
abbrev pub shr : ℕ → ℕ → ℕ
shr x k = x / 2 ^ k

abbrev pub shl : ℕ → ℕ → ℕ
shl x k = x * 2 ^ k % u64_mod

pub pow_pos : (n : ℕ) → 0 < 2 ^ n
pow_pos n = one-le-pow n 2 (omega arith)

pub pow-add : (a m n : ℕ) → a ^ (m + n) ≡ a ^ m * a ^ n
pow-add a m zero = rw (add-zero m, pow-zero a) (omega arith)
pow-add a m (suc n) =
    rw (add-suc m n, pow-suc a (m + n), pow-add a m n, pow-suc a n) (mul_assoc (a ^ m) (a ^ n) a)

pub div_bounds : (n d : ℕ) → 0 < d → (n / d * d ≤ n) × (n < (n / d + 1) * d)
div_bounds n d h = omega arith

pub div_mono : (a b d : ℕ) → 0 < d → a ≤ b → a / d ≤ b / d
div_mono a b d h p =
    let below : a / d < b / d + 1 = (div-lt_iff_lt-mul h).1 (omega (arith, div_bounds b d h)) in
    omega arith
