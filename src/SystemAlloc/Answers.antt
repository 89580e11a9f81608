-- ===== src/SystemAlloc/Answers.antt =====
-- What the functions of src/systemalloc.cpp answer: NULL, or memory at an aligned address.
use ferp.Common.{
  ℕ, ◌+◌, ◌%◌, ◌^◌, ◌≤◌, ◌<◌, ◌≡◌, ◌∙◌, sym, Bool, true, false, Bool-cases, inl, inr, ◌⊎◌, arith,
}
use ferp.SystemAlloc.{Kernel, State}
use ferp.SystemAlloc.Regions.{IsOutside, Granted}
use ferp.SystemAlloc.Attempts.{IsKnown, MapAnswer}

abbrev pub IsKept : (ℕ → Bool) → (ℕ → Bool) → Type 0
IsKept held held' = (x : ℕ) → held x ≡ true → held' x ≡ true

-- Memory at an aligned address that the process did not have before.
pub record Served (held held' : ℕ → Bool) (p asked alignment : ℕ) : Type 0 where
  pub positive : 0 < p
  pub below : p + asked ≤ 2 ^ 63
  pub aligned : p % alignment ≡ 0
  pub fresh : (x : ℕ) → p ≤ x → x < p + asked → held x ≡ false
  pub taken : (x : ℕ) → p ≤ x → x < p + asked → held' x ≡ true

-- NULL or such memory; what the process had, it keeps.
pub record Answer {S : Type 0} (kernel : Kernel S) (held : S → ℕ → Bool) (before : ℕ → Bool)
    (out : ℕ × State S) (asked alignment : ℕ) : Type 0 where
  pub known : IsKnown kernel out.1
  pub kept : IsKept before (held out.1.system)
  pub answer : (out.0 ≡ 0) ⊎ Served before (held out.1.system) out.0 asked alignment

pub inside_or_not : (p n x : ℕ) → ((p ≤ x) × (x < p + n)) ⊎ IsOutside p n x
inside_or_not p n x = omega arith

pub Granted-IsKept : (h h' : ℕ → Bool) (p n : ℕ) → Granted h h' p n → IsKept h h'
Granted-IsKept h h' p n g x t = elim (inside_or_not p n x) [
  | inl (a, b) ↦ g.taken x a b
  | inr o ↦ g.others x o ∙ t
]

pub Granted-Served :
    (h h' : ℕ → Bool) (p n q asked a : ℕ)
    → Granted h h' p n
    → p ≤ q
    → q + asked ≤ p + n
    → q % a ≡ 0
    → Served h h' q asked a
Granted-Served h h' p n q asked a g low high e = record {
  positive = omega (arith, g.positive);
  below = omega (arith, g.below);
  aligned = e;
  fresh = λ x l k. g.fresh x (omega arith) (omega arith);
  taken = λ x l k. g.taken x (omega arith) (omega arith);
}

-- From a mapping.
pub MapAnswer-Answer :
    {S : Type 0} (kernel : Kernel S) (held : S → ℕ → Bool) (before : ℕ → Bool) (out : ℕ × State S)
    (asked a : ℕ)
    → MapAnswer kernel held before out asked a
    → Answer kernel held before out asked a
MapAnswer-Answer kernel held before out asked a m = elim m.answer [
  | inl (e, same) ↦ record { known = m.known; kept = λ x t. same x ∙ t; answer = inl e }
  | inr mapped ↦
      let after = held out.1.system in
      record {
        known = m.known;
        kept = Granted-IsKept before after out.0 mapped.size mapped.granted;
        answer = inr (
            Granted-Served before after out.0 mapped.size out.0 asked a mapped.granted (omega arith)
              (omega (arith, mapped.enough)) mapped.aligned);
      }
]

-- Memory that was served in a later state, if the process had no less before.
later-Served :
    (h h1 h2 : ℕ → Bool) (p asked a : ℕ)
    → IsKept h h1
    → Served h1 h2 p asked a
    → Served h h2 p asked a
later-Served h h1 h2 p asked a keep s = record {
  positive = s.positive;
  below = s.below;
  aligned = s.aligned;
  taken = s.taken;
  fresh = λ x l k. elim (Bool-cases (h x)) [
    | inl t ↦ absurd (ground (arith, keep x t, s.fresh x l k))
    | inr f ↦ f
  ];
}

-- An answer after a first one that has taken nothing away.
pub later-Answer :
    {S : Type 0} (kernel : Kernel S) (held : S → ℕ → Bool) (h h1 : ℕ → Bool) (out : ℕ × State S)
    (asked a : ℕ)
    → IsKept h h1
    → Answer kernel held h1 out asked a
    → Answer kernel held h out asked a
later-Answer kernel held h h1 out asked a keep r = record {
  known = r.known;
  kept = λ x t. r.kept x (keep x t);
  answer = elim r.answer [
    | inl e ↦ inl e
    | inr s ↦ inr (later-Served h h1 (held out.1.system) out.0 asked a keep s)
  ];
}

-- Two regions, the second one right behind the first.
pub both-Served :
    (h h1 h2 : ℕ → Bool) (p n extra asked a : ℕ)
    → Granted h h1 p n
    → Granted h1 h2 (p + n) extra
    → asked ≤ n
    → (p + extra) % a ≡ 0
    → Served h h2 (p + extra) asked a
both-Served h h1 h2 p n extra asked a g g2 enough e = record {
  positive = omega (arith, g.positive);
  below = omega (arith, g2.below);
  aligned = e;
  fresh = λ x l k. elim (inside_or_not (p + n) extra x) [
    | inl (u, v) ↦ sym (g.others x (inr u)) ∙ g2.fresh x u v
    | inr o ↦ g.fresh x (omega arith) (omega arith)
  ];
  taken = λ x l k. elim (inside_or_not (p + n) extra x) [
    | inl (u, v) ↦ g2.taken x u v
    | inr o ↦ g2.others x o ∙ g.taken x (omega arith) (omega arith)
  ];
}
