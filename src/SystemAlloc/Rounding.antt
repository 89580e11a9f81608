-- ===== src/SystemAlloc/Rounding.antt =====
-- The rounding of sizes and addresses in src/systemalloc.cpp, for an alignment that is a power of
-- two.
use native.Mathlib.Nat.{
  dvd-mul_left, mod-eq-zero_of_dvd, pow-le-pow_right, mod-lt, two-pow-succ, mul-mod_left,
  mod-add-div', dvd_of_mod-eq-zero, mod-mod_of_dvd, dvd-zero, le_of_dvd, dvd-sub, div-eq_of_lt,
  dvd_trans, dvd-add,
}
use Prim.Native.Nat.{◌∣◌}
use ferp.Common.{
  ℕ, suc, ◌+◌, ◌-◌, ◌*◌, ◌/◌, ◌%◌, ◌^◌, ◌≤◌, ◌<◌, ◌≡◌, ◌∙◌, ap, sym, subst, inl, inr, arith,
  Bool-cases, bit_and, ◌⊎◌, ◌==◌, if◌then◌else◌,
}
use ferp.Common.Bits.{u64_mod, pow_pos, pow-add, div_bounds}
use ferp.Common.Masks.{bit_and-mask}
use ferp.SystemAlloc.{round_up, adjustment}

abbrev pub IsPower : ℕ → Type 0
IsPower a = (k : ℕ) × (a ≡ 2 ^ k)

order : (j k : ℕ) → (j ≤ k) ⊎ (suc k ≤ j)
order j k = omega arith

-- The lesser power divides the greater.
power-divides : (j k : ℕ) → 2 ^ j ≤ 2 ^ k → 2 ^ j ∣ 2 ^ k
power-divides j k h = elim (order j k) [
  | inl le ↦
      subst (λ n. 2 ^ j ∣ n) (sym (pow-add 2 (k - j) j) ∙ ap (λ n. 2 ^ n) (omega arith))
        (dvd-mul_left (2 ^ j) (2 ^ (k - j)))
  | inr lt ↦
      absurd
        (omega (arith, h, two-pow-succ k, pow_pos k, pow-le-pow_right {n = 2} (omega arith) lt))
]

pub powers-divide : (p a : ℕ) → IsPower p → IsPower a → p ≤ a → a % p ≡ 0
powers-divide p a (j, e) (k, f) h =
    let le : 2 ^ j ≤ 2 ^ k = omega (arith, e, f, h) in
    ap (λ x. x % p) f ∙ ap (λ x. 2 ^ k % x) e ∙ mod-eq-zero_of_dvd (2 ^ j) (power-divides j k le)

pub power_pos : (a : ℕ) → IsPower a → 0 < a
power_pos a (k, e) = omega (arith, e, pow_pos k)

pub low_bits : (x a : ℕ) → IsPower a → bit_and x (a - 1) ≡ x % a
low_bits x a (k, e) = ap (λ y. bit_and x (y - 1)) e ∙ bit_and-mask x k ∙ ap (λ y. x % y) (sym e)

pub adjustment-mod : (x a : ℕ) → IsPower a → adjustment x a ≡ (if x % a == 0 then 0 else a - x % a)
unfolding adjustment
adjustment-mod x a p = ap (λ y. if y == 0 then 0 else a - y) (low_bits x a p)

-- A multiple, spelled with its factor.
multiple_mod : (x q a : ℕ) → x ≡ q * a → x % a ≡ 0
multiple_mod x q a e = ap (λ y. y % a) e ∙ mul-mod_left q a

pub factor : (x a : ℕ) → x % a ≡ 0 → x ≡ x / a * a
factor x a h = omega (arith, mod-add-div' x a, h)

-- The address after the adjustment is aligned, and less than an alignment away.
pub adjusted : (x a : ℕ) → IsPower a → (adjustment x a < a) × ((x + adjustment x a) % a ≡ 0)
adjusted x a p =
    let pos = power_pos a p in
    let below = mod-lt x pos in
    let whole = mod-add-div' x a in
    rw (adjustment-mod x a p) (elim (Bool-cases (x % a == 0)) [
      | inl t ↦
          let none_left : x % a ≡ 0 = ground arith in
          rw t (pos, multiple_mod (x + 0) (x / a) a (omega (arith, whole)))
      | inr t ↦
          let some_left : 0 < x % a = ground arith in
          rw t (omega arith, multiple_mod (x + (a - x % a)) (x / a + 1) a (grind arith))
    ])

-- Of an address that is a multiple of `m`, which divides the alignment.
pub adjusted_multiple :
    (x a m : ℕ)
    → IsPower a
    → 0 < m
    → a % m ≡ 0
    → x % m ≡ 0
    → (adjustment x a % m ≡ 0) × (adjustment x a ≤ a - m)
adjusted_multiple x a m p pos h k =
    let divides = dvd_of_mod-eq-zero m h in
    let rest : x % a % m ≡ 0 = mod-mod_of_dvd m x divides ∙ k in
    rw (adjustment-mod x a p) (elim (Bool-cases (x % a == 0)) [
      | inl t ↦ rw t (mod-eq-zero_of_dvd m (dvd-zero m), omega arith)
      | inr t ↦
          let some_left : 0 < x % a = ground arith in
          let far = le_of_dvd some_left (dvd_of_mod-eq-zero m rest) in
          rw t (
            mod-eq-zero_of_dvd m (dvd-sub m divides (dvd_of_mod-eq-zero m rest)),
            omega (arith, far),
          )
    ])

-- A size that does not overflow is rounded up to a multiple; one that does becomes 0.
pub round_up_bounds :
    (n a : ℕ)
    → 0 < a
    → n + a ≤ u64_mod
    → (n ≤ round_up n a) × (round_up n a < n + a) × (round_up n a % a ≡ 0)
unfolding round_up
round_up_bounds n a pos h =
    let d = div_bounds (n + a - 1) a pos in
    let e : (n + a - 1) % u64_mod ≡ n + a - 1 = omega arith in
    rw e (grind arith, omega arith, mul-mod_left ((n + a - 1) / a) a)

pub round_up_overflow : (n a : ℕ) → n ≤ u64_mod → a ≤ u64_mod → u64_mod < n + a → round_up n a ≡ 0
unfolding round_up
round_up_overflow n a h l k =
    let low : (n + a - 1) % u64_mod < a = omega arith in
    let quotient : (n + a - 1) % u64_mod / a ≡ 0 = div-eq_of_lt low in rw quotient (omega arith)

-- Between two multiples there is room for one.
pub multiple_room : (x y a : ℕ) → x % a ≡ 0 → y % a ≡ 0 → x < y → x + a ≤ y
multiple_room x y a h k lt =
    let apart : 0 < y - x = omega arith in
    let least = le_of_dvd apart (dvd-sub a (dvd_of_mod-eq-zero a k) (dvd_of_mod-eq-zero a h)) in
    omega (arith, least, lt)

-- What is aligned to a multiple is aligned.
pub mod_multiple : (x a m : ℕ) → x % a ≡ 0 → a % m ≡ 0 → x % m ≡ 0
mod_multiple x a m h k =
    mod-eq-zero_of_dvd m (dvd_trans m (dvd_of_mod-eq-zero m k) (dvd_of_mod-eq-zero a h))

pub add_multiple : (x y m : ℕ) → x % m ≡ 0 → y % m ≡ 0 → (x + y) % m ≡ 0
add_multiple x y m h k =
    mod-eq-zero_of_dvd m (dvd-add m (dvd_of_mod-eq-zero m h) (dvd_of_mod-eq-zero m k))

pub sub_multiple : (x y m : ℕ) → x % m ≡ 0 → y % m ≡ 0 → (x - y) % m ≡ 0
sub_multiple x y m h k =
    mod-eq-zero_of_dvd m (dvd-sub m (dvd_of_mod-eq-zero m h) (dvd_of_mod-eq-zero m k))
