-- ===== src/Profiler/Records.antt =====
-- The format of a profile that src/profiler.cpp writes: records of a count, a depth and so many
-- program counters, behind five words and before the words 0, 1, 0. The reader is independent of
-- the code.
use ferp.Common.{
  ℕ, zero, suc, ◌+◌, ◌≤◌, ◌<◌, ◌≡◌, ◌∙◌, ap, sym, refl, Bool, Option, none, some, List, [], ◌∷◌,
  ◌++◌, if◌then◌else◌, take, drop, length, length-append, arith,
}
use ferp.Profiler.{trailer, header}

-- A count and a stack.
abbrev pub Record : Type 0
Record = ℕ × List ℕ

unfoldable pub record_words : Record → List ℕ
record_words r = r.0 ∷ length r.1 ∷ r.1

unfoldable pub encode : List Record → List ℕ
unfolding record_words
encode [] = []
encode (r ∷ rs) = record_words r ++ encode rs

-- The samples with a stack in a set, in records, and among stacks.
unfoldable pub weigh : (List ℕ → Bool) → List Record → ℕ
weigh q [] = 0
weigh q (r ∷ rs) = (if q r.1 then r.0 else 0) + weigh q rs

unfoldable pub tally : (List ℕ → Bool) → List (List ℕ) → ℕ
tally q [] = 0
tally q (k ∷ ks) = (if q k then 1 else 0) + tally q ks

abbrev pub ArePositive : List Record → Type 0
ArePositive [] = Unit {0}
ArePositive (r ∷ rs) = (0 < r.0) × ArePositive rs

-- The samples with a stack in a set that a reader of the records finds before a count of 0.
pub read_records : (List ℕ → Bool) → ℕ → List ℕ → Option ℕ
read_records q zero ws = none
read_records q (suc fuel) [] = none
read_records q (suc fuel) (zero ∷ ws) = some 0
read_records q (suc fuel) (suc c ∷ []) = none
read_records q (suc fuel) (suc c ∷ d ∷ ws) = elim (read_records q fuel (drop d ws)) [
  | none ↦ none
  | some n ↦ some ((if q (take d ws) then suc c else 0) + n)
]

pub read_profile : (List ℕ → Bool) → List ℕ → Option ℕ
read_profile q ws = read_records q (suc (length ws)) (drop 5 ws)

pub append_assoc : (xs ys zs : List ℕ) → (xs ++ ys) ++ zs ≡ xs ++ (ys ++ zs)
append_assoc [] ys zs = refl
append_assoc (x ∷ xs) ys zs = ap (◌∷◌ x) (append_assoc xs ys zs)

pub append_nil : (xs : List ℕ) → xs ++ [] ≡ xs
append_nil [] = refl
append_nil (x ∷ xs) = ap (◌∷◌ x) (append_nil xs)

drop-append : (xs ys : List ℕ) → drop (length xs) (xs ++ ys) ≡ ys
drop-append [] ys = refl
drop-append (x ∷ xs) ys = drop-append xs ys

take-append : (xs ys : List ℕ) → take (length xs) (xs ++ ys) ≡ xs
take-append [] ys = refl
take-append (x ∷ xs) ys = ap (◌∷◌ x) (take-append xs ys)

-- One more record, at the end.
pub encode-append :
    (rs : List Record) (r : Record) → encode (rs ++ (r ∷ [])) ≡ encode rs ++ record_words r
unfolding encode record_words
encode-append [] r = append_nil (record_words r)
encode-append (s ∷ rs) r =
    ap (λ ws. record_words s ++ ws) (encode-append rs r)
    ∙ sym (append_assoc (record_words s) (encode rs) (record_words r))

pub weigh-append :
    (q : List ℕ → Bool) (rs : List Record) (r : Record)
    → weigh q (rs ++ (r ∷ [])) ≡ weigh q rs + (if q r.1 then r.0 else 0)
unfolding weigh
weigh-append q [] r = omega arith
weigh-append q (s ∷ rs) r = omega (arith, weigh-append q rs r)

pub ArePositive-append :
    (rs : List Record) (r : Record) → ArePositive rs → 0 < r.0 → ArePositive (rs ++ (r ∷ []))
ArePositive-append [] r h p = (p, tt)
ArePositive-append (s ∷ rs) r h p = (h.0, ArePositive-append rs r h.1 p)

read_records-encode :
    (q : List ℕ → Bool) (rs : List Record) (fuel : ℕ)
    → ArePositive rs
    → length rs < fuel
    → read_records q fuel (encode rs ++ trailer) ≡ some (weigh q rs)
unfolding read_records encode weigh record_words trailer
read_records-encode q rs zero h l = absurd (omega arith)
read_records-encode q [] (suc fuel) h l = refl
read_records-encode q ((zero, k) ∷ rs) (suc fuel) h l = absurd (omega (arith, h.0))
read_records-encode q ((suc c, k) ∷ rs) (suc fuel) h l =
    rw
      (
        append_assoc k (encode rs) trailer,
        read_records,
        drop-append k (encode rs ++ trailer),
        read_records-encode q rs fuel h.1 (omega arith),
        append_assoc k (encode rs) trailer,
        take-append k (encode rs ++ trailer),
      )
      refl

length-encode : (rs : List Record) → length rs ≤ length (encode rs)
unfolding encode record_words
length-encode [] = omega arith
length-encode ((c, k) ∷ rs) = omega (arith, length-encode rs, length-append k (encode rs))

-- The reader finds the samples of all records of a whole file.
pub read_profile-encode :
    (q : List ℕ → Bool) (frequency : ℕ) (rs : List Record)
    → ArePositive rs
    → read_profile q (header frequency ++ (encode rs ++ trailer)) ≡ some (weigh q rs)
unfolding read_profile header trailer
read_profile-encode q frequency rs h =
    read_records-encode q rs (suc (length (header frequency ++ (encode rs ++ trailer)))) h
      (omega (arith, length-encode rs, length-append (encode rs) trailer))
