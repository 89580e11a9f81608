-- ===== src/Profiler/Write.antt =====
-- The loop of FlushEvicted in src/profiler.cpp around write(), which may take a part of what it
-- is given. write() is a parameter: the number of bytes it took, or an error, for which the
-- program exits. The model collects the bytes that were taken.
use ferp.Common.{
  ℕ, zero, suc, ◌≤◌, ◌<◌, ◌≡◌, ap, refl, Option, none, some, List, [], ◌∷◌, ◌++◌, take, drop,
  length, length-drop, take-append-drop, arith,
}

module _ {S : Type 0} (write : ℕ → S → Option ℕ × S) where
  -- A round for each byte at most; `none` is exit(1), or no round left.
  pub write_loop : ℕ → List ℕ → S → Option (List ℕ × S)
  write_loop fuel [] s = some ([], s)
  write_loop zero (b ∷ bs) s = none
  write_loop (suc fuel) (b ∷ bs) s =
      let (r, s') = write (length (b ∷ bs)) s in
      elim r [
        | none ↦ none
        | some n ↦ elim (write_loop fuel (drop n (b ∷ bs)) s') [
          | none ↦ none
          | some (rest, s'') ↦ some (take n (b ∷ bs) ++ rest, s'')
        ]
      ]

  -- What write() does with a file that takes bytes: at least one, and no more than it is given.
  abbrev pub Progresses : Type 0
  Progresses =
      (asked : ℕ) (s : S)
      → 0 < asked
      → (n : ℕ) × ((write asked s).0 ≡ some n) × (0 < n) × (n ≤ asked)

  written :
      (fuel : ℕ) (bs : List ℕ) (s : S)
      → Progresses
      → length bs ≤ fuel
      → (s' : S) × (write_loop fuel bs s ≡ some (bs, s'))
  unfolding write_loop
  written fuel [] s p h = (s, refl)
  written zero (b ∷ bs) s p h = absurd (omega arith)
  written (suc fuel) (b ∷ bs) s p h =
      let (n, e, low, high) = p (length (b ∷ bs)) s (omega arith) in
      let rest = drop n (b ∷ bs) in
      let after = (write (length (b ∷ bs)) s).1 in
      let (s'', ih) = written fuel rest after p (omega (arith, h, low, length-drop n (b ∷ bs))) in
      (s'', rw (e, write_loop, ih) (ap (λ ws. some (ws, s'')) (take-append-drop n (b ∷ bs))))

  -- Where every call of write() takes a byte or more, the loop ends after at most as many calls as
  -- there are bytes, and has written all of them, in order.
  pub write_loop-all :
      (bs : List ℕ) (s : S) → Progresses → (s' : S) × (write_loop (length bs) bs s ≡ some (bs, s'))
  write_loop-all bs s p = written (length bs) bs s p (omega arith)
