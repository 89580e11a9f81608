-- ===== src/Common/Sums.antt =====
-- Sums over the indices below a bound, and what a change at one index does to them.
use Prim.Native.Nat.{ℕ, zero, suc, ◌+◌, ◌<◌}
use mathlib.Core.Path.{◌≡◌, refl}
use mathlib.Core.Logic.{◌≢◌}
use native.Mathlib.Omega.{arith}
use native.Mathlib.Decide.{dec_lt}

unfoldable pub sum_below : (ℕ → ℕ) → ℕ → ℕ
sum_below f zero = 0
sum_below f (suc n) = sum_below f n + f n

pub sum_below-same :
    (f g : ℕ → ℕ) (n : ℕ) → ((j : ℕ) → j < n → g j ≡ f j) → sum_below g n ≡ sum_below f n
unfolding sum_below
sum_below-same f g zero h = refl
sum_below-same f g (suc n) h =
    omega (arith, sum_below-same f g n (λ j l. h j (omega arith)), h n (omega arith))

-- The two functions differ at `i` only.
pub sum_below-change :
    (f g : ℕ → ℕ) (i n : ℕ)
    → i < n
    → ((j : ℕ) → j ≢ i → g j ≡ f j)
    → sum_below g n + f i ≡ sum_below f n + g i
unfolding sum_below
sum_below-change f g i zero l h = absurd (omega arith)
sum_below-change f g i (suc n) l h = elim (dec_lt i n) [
  | yes below ↦ omega (arith, sum_below-change f g i n below h, h n (λ e. omega arith))
  | no last ↦
      let e : i ≡ n = omega arith in
      rw e (omega (arith, sum_below-same f g n (λ j k. h j (λ q. omega arith))))
]

pub sum_below-next : (f : ℕ → ℕ) (n : ℕ) → sum_below f (n + 1) ≡ sum_below f n + f n
unfolding sum_below
sum_below-next f n = let one : n + 1 ≡ suc n = omega arith in rw one refl

pub sum_below-zero : (f : ℕ → ℕ) (n : ℕ) → ((j : ℕ) → f j ≡ 0) → sum_below f n ≡ 0
unfolding sum_below
sum_below-zero f zero h = refl
sum_below-zero f (suc n) h = omega (arith, sum_below-zero f n h, h n)

pub sum_below_none : (f : ℕ → ℕ) → sum_below f 0 ≡ 0
unfolding sum_below
sum_below_none f = refl
