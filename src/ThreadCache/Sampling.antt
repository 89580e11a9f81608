-- ===== src/ThreadCache/Sampling.antt =====
-- PickNextSample, SampleAllocation and Init of TCMalloc_ThreadCache in src/tcmalloc.cpp. An `int`
-- is its 32-bit pattern, so the first `last_flag_value`, -1, is 2 ^ 32 - 1.
use native.Mathlib.Nat.{mod-lt}
use mathlib.Core.List.{Memᴰ}
use ferp.Common.{
  ℕ, zero, suc, ◌-◌, ◌*◌, ◌%◌, ◌^◌, ◌≤◌, ◌<◌, ◌≡◌, ◌≢◌, inl, inr, refl, Bool, true, false, List, [],
  ◌∷◌, ltb, leb, ◌==◌, if◌then◌else◌, bit_xor, arith, Bool-cases,
}
use ferp.Common.Bits.{u32_mod}
use ferp.ThreadCache.{ThreadCache, empty_list}

abbrev pub primes_list : List ℕ
primes_list =
    32771 ∷ 65537 ∷ 131101 ∷ 262147 ∷ 524309 ∷ 1048583 ∷ 2097169 ∷ 4194319 ∷ 8388617 ∷ 16777259
    ∷ 33554467 ∷ []

abbrev pub poly : ℕ
poly = 4194311

-- The statics `sample_period` and `last_flag_value`.
pub record Sampler : Type 0 where
  pub sample_period : ℕ
  pub last_flag_value : ℕ

pub new_sampler : Sampler
new_sampler = record { sample_period = 262147; last_flag_value = u32_mod - 1 }

pub next_rnd : ℕ → ℕ
next_rnd r = bit_xor (r * 2 % u32_mod) (if ltb r (2 ^ 31) then 0 else poly)

-- The loop over `primes_list`: the first prime that is not less, or the last one.
pub choose_period : ℕ → ℕ → List ℕ → ℕ
choose_period flag p [] = p
choose_period flag p (q ∷ qs) = if leb flag p then p else choose_period flag q qs

pub new_period : ℕ → Sampler → Sampler
new_period flag p = elim primes_list [
  | [] ↦ p
  | q ∷ qs ↦ record { sample_period = choose_period flag q qs; last_flag_value = flag }
]

-- `flag` is FLAGS_tcmalloc_sample_parameter.
pub pick_next_sample : ℕ → Sampler → ThreadCache → Sampler × ThreadCache
pick_next_sample flag p c =
    let value = flag % u32_mod in
    let p' = if value == p.last_flag_value then p else new_period value p in
    let rnd = next_rnd c.rnd in
    (p', record c { rnd = rnd; bytes_until_sample = rnd % p'.sample_period })

pub sample_allocation : ℕ → ℕ → Sampler → ThreadCache → Bool × Sampler × ThreadCache
sample_allocation flag k p c =
    if ltb c.bytes_until_sample k
    then (let (p', c') = pick_next_sample flag p c in (true, p', c'))
    else (false, p, record c { bytes_until_sample = c.bytes_until_sample - k })

pub pick_times : ℕ → ℕ → Sampler → ThreadCache → Sampler × ThreadCache
pick_times zero flag p c = (p, c)
pick_times (suc n) flag p c = let (p', c') = pick_next_sample flag p c in pick_times n flag p' c'

-- Init, for the cache at an address.
pub init : ℕ → ℕ → ℕ → Sampler → Sampler × ThreadCache
init flag address tid p = pick_times 100 flag p (record {
  size = 0;
  tid = tid;
  in_setspecific = false;
  list = λ cl. empty_list;
  rnd = address % u32_mod;
  bytes_until_sample = 0;
})

-- The largest prime of the list.
abbrev pub last_prime : ℕ
last_prime = 33554467

-- No prime of a list that is not less than the flag is less than the period.
abbrev pub IsNearest : ℕ → ℕ → List ℕ → Type 0
IsNearest flag period [] = Unit {0}
IsNearest flag period (q ∷ qs) = (flag ≤ q → period ≤ q) × IsNearest flag period qs

-- The period is one of the primes, and the least one that is not less than the flag that it was
-- chosen for, or the last one if all are less; -1 is the flag before any is chosen for.
pub record IsChosen (p : Sampler) : Type 0 where
  pub positive : 0 < p.sample_period
  pub below : p.sample_period ≤ last_prime
  pub member : Memᴰ p.sample_period primes_list
  pub fits : p.last_flag_value ≤ last_prime → p.last_flag_value ≤ p.sample_period
  pub nearest : IsNearest p.last_flag_value p.sample_period primes_list
  pub last :
      last_prime < p.last_flag_value
      → p.last_flag_value ≢ u32_mod - 1
      → p.sample_period ≡ last_prime

choose_period-member : (flag p : ℕ) (qs : List ℕ) → Memᴰ (choose_period flag p qs) (p ∷ qs)
unfolding choose_period
choose_period-member flag p [] = Memᴰ.head refl
choose_period-member flag p (q ∷ qs) = elim (Bool-cases (leb flag p)) [
  | inl e ↦ rw e (Memᴰ.head refl)
  | inr e ↦ rw e (Memᴰ.tail (choose_period-member flag q qs))
]

new_sampler-IsChosen : IsChosen new_sampler
unfolding new_sampler
new_sampler-IsChosen = record {
  positive = omega arith;
  below = omega arith;
  member = Memᴰ.tail (Memᴰ.tail (Memᴰ.tail (Memᴰ.head refl)));
  fits = λ h. absurd (omega arith);
  nearest = (
    λ h. absurd (omega arith),
    (
      λ h. absurd (omega arith),
      (
        λ h. absurd (omega arith),
        (
          λ h. absurd (omega arith),
          (
            λ h. absurd (omega arith),
            (
              λ h. absurd (omega arith),
              (
                λ h. absurd (omega arith),
                (
                  λ h. absurd (omega arith),
                  (
                    λ h. absurd (omega arith),
                    (λ h. absurd (omega arith), (λ h. absurd (omega arith), tt)),
                  ),
                ),
              ),
            ),
          ),
        ),
      ),
    ),
  );
  last = λ h d. absurd (d refl);
}

new_period-IsChosen : (flag : ℕ) (p : Sampler) → IsChosen (new_period flag p)
unfolding new_period choose_period
new_period-IsChosen flag p = record {
  positive = ground arith;
  below = ground arith;
  member = choose_period-member flag 32771 _;
  fits = λ h. ground arith;
  nearest = (
    λ h. ground arith,
    (
      λ h. ground arith,
      (
        λ h. ground arith,
        (
          λ h. ground arith,
          (
            λ h. ground arith,
            (
              λ h. ground arith,
              (
                λ h. ground arith,
                (
                  λ h. ground arith,
                  (λ h. ground arith, (λ h. ground arith, (λ h. ground arith, tt))),
                ),
              ),
            ),
          ),
        ),
      ),
    ),
  );
  last = λ h d. ground arith;
}

new_period-flag : (flag : ℕ) (p : Sampler) → (new_period flag p).last_flag_value ≡ flag
unfolding new_period
new_period-flag flag p = refl

-- PickNextSample with a period that was chosen so leaves one that was, for the flag that it is
-- called with, and the thread samples within that many bytes.
pub pick_next_sample-IsChosen :
    (flag : ℕ) (p : Sampler) (c : ThreadCache)
    → IsChosen p
    → IsChosen (pick_next_sample flag p c).0
      × ((pick_next_sample flag p c).1.bytes_until_sample
          < (pick_next_sample flag p c).0.sample_period)
      × (((pick_next_sample flag p c).0.last_flag_value ≡ flag % u32_mod))
unfolding pick_next_sample
pick_next_sample-IsChosen flag p c v = elim (Bool-cases (flag % u32_mod == p.last_flag_value)) [
  | inl e ↦ rw e (v, mod-lt (next_rnd c.rnd) v.positive, ground arith)
  | inr e ↦
      let w = new_period-IsChosen (flag % u32_mod) p in
      rw e (w, mod-lt (next_rnd c.rnd) w.positive, new_period-flag (flag % u32_mod) p)
]

pick_times-lists :
    (n flag : ℕ) (p : Sampler) (c : ThreadCache)
    → ((pick_times n flag p c).1.list ≡ c.list)
      × ((pick_times n flag p c).1.size ≡ c.size)
      × ((pick_times n flag p c).1.tid ≡ c.tid)
unfolding pick_times pick_next_sample
pick_times-lists zero flag p c = (refl, refl, refl)
pick_times-lists (suc n) flag p c =
    let r = pick_next_sample flag p c in pick_times-lists n flag r.0 r.1

-- A new cache has empty lists, the size 0 and the thread that it is for.
pub init-lists :
    (flag address tid : ℕ) (p : Sampler)
    → ((init flag address tid p).1.list ≡ (λ cl. empty_list))
      × ((init flag address tid p).1.size ≡ 0)
      × ((init flag address tid p).1.tid ≡ tid)
unfolding init
init-lists flag address tid p = pick_times-lists 100 flag p (record {
  size = 0;
  tid = tid;
  in_setspecific = false;
  list = λ cl. empty_list;
  rnd = address % u32_mod;
  bytes_until_sample = 0;
})
