-- ===== src/Malloc/Library/Calls.antt =====
-- What calloc of src/tcmalloc.cpp does.
use native.Mathlib.Nat.{div-lt_iff_lt-mul, mul-div_left, mod-eq_of_lt}
use ferp.Common.{
  ℕ, ◌+◌, ◌*◌, ◌/◌, ◌%◌, ◌≤◌, ◌<◌, ◌≡◌, ◌⊎◌, ◌∙◌, le→leb, refl, true, false, not, ◌&&◌, Option,
  none, some, ◌≢◌, leb, ◌==◌, if◌then◌else◌, arith, Bool-cases, inl, inr,
}
use ferp.Common.Bits.{u64_mod}
use ferp.SizeClass.{Tables}
use ferp.PageMap.Interface.{PageMap}
use ferp.PageHeap.{Ptr, null, System}
use ferp.Malloc.{Caching, World, pure, modify, do_malloc, ◌>>◌}
use ferp.Malloc.Library.{clear, calloc}

-- The test of calloc finds every product that does not fit 64 bits.
overflow_test :
    (n e : ℕ) → n < u64_mod → (not (e == 0) && not (n * e % u64_mod / e == n)) ≡ leb u64_mod (n * e)
overflow_test n e h = elim (Bool-cases (e == 0)) [
  | inl z ↦ let zero_e : e ≡ 0 = ground arith in rw zero_e (ground arith)
  | inr z ↦
      let pos : 0 < e = ground arith in
      elim (Bool-cases (leb u64_mod (n * e))) [
        | inl big ↦
            let word : n * e % u64_mod < n * e = ground arith in
            let less : n * e % u64_mod / e < n = (div-lt_iff_lt-mul pos).1 word in ground arith
        | inr small ↦
            let word : n * e % u64_mod ≡ n * e = mod-eq_of_lt (ground arith) in
            rw (word, mul-div_left n pos) (ground arith)
      ]
]

pub clear-bytes :
    (p size : ℕ) (memory : ℕ → ℕ) (a : ℕ)
    → (p ≤ a → a < p + size → clear p size memory a ≡ 0)
      × ((a < p) ⊎ (p + size ≤ a) → clear p size memory a ≡ memory a)
unfolding clear
clear-bytes p size memory a = ground arith

-- The size of all elements, where calloc gets so far.
small_product : (n e : ℕ) → n * e < u64_mod → n * e % u64_mod ≡ n * e
small_product n e h = mod-eq_of_lt h

tested_big :
    (n e : ℕ)
    → n < u64_mod
    → u64_mod ≤ n * e
    → (not (e == 0) && not (n * e % u64_mod / e == n)) ≡ true
tested_big n e h big = overflow_test n e h ∙ le→leb u64_mod (n * e) big

tested_small :
    (n e : ℕ)
    → n < u64_mod
    → n * e < u64_mod
    → (not (e == 0) && not (n * e % u64_mod / e == n)) ≡ false
tested_small n e h small = overflow_test n e h ∙ ground arith

module _ {P : PageMap} {Y : System} {K : Caching P Y} where
  -- A result of do_malloc whose `size` bytes are then set to 0.
  abbrev pub Cleared : ℕ → Option (Ptr × World K) → Option (Ptr × World K) → Type 0
  Cleared size none r = r ≡ none
  Cleared size (some (p, w)) r =
      (p ≡ null → r ≡ some (null, w))
      × (p ≢ null
          → (memory : ℕ → ℕ) × (r ≡ some (p, record w { memory = memory }))
            × ((a : ℕ) → p ≤ a → a < p + size → memory a ≡ 0)
            × ((a : ℕ) → (a < p) ⊎ (p + size ≤ a) → memory a ≡ w.memory a))

module _ (t : Tables) {P : PageMap} {Y : System} {K : Caching P Y} where
  cleared :
      (size : ℕ) (r : Option (Ptr × World K))
      → Cleared size r (elim r [
        | none ↦ none
        | some (p, w) ↦
            (if p == null
                then pure null
                else (modify (λ u. record u { memory = clear p size u.memory }) >> pure p))
              w
      ])
  cleared size none = refl
  cleared size (some (p, w)) = (
    λ z. rw z refl,
    λ d.
        let one : (p == null) ≡ false = ground (arith, d) in
        (
          clear p size w.memory,
          rw one refl,
          λ a l h. (clear-bytes p size w.memory a).0 l h,
          λ a o. (clear-bytes p size w.memory a).1 o,
        ),
  )

  -- calloc answers NULL and changes nothing if the size of all elements does not fit 64 bits. Else
  -- it does what do_malloc does for that size, aborts included, and if that is not NULL, the bytes of
  -- the object are then 0 and all others as do_malloc left them.
  pub calloc-checked :
      (n e : ℕ) (w : World K)
      → n < u64_mod
      → (u64_mod ≤ n * e → calloc t {K = K} n e w ≡ some (null, w))
        × (n * e < u64_mod → Cleared (n * e) (do_malloc {K = K} (n * e) w) (calloc t {K = K} n e w))
  unfolding calloc
  calloc-checked n e w h = (
    λ big. rw (tested_big n e h big) refl,
    λ small.
        rw (tested_small n e h small, small_product n e small)
          (cleared (n * e) (do_malloc {K = K} (n * e) w)),
  )
