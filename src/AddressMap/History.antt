-- ===== src/AddressMap/History.antt =====
-- Any sequence of calls on a new table of src/addressmap.hpp, against a function from keys to
-- values.
use mathlib.Core.List.{Memᴰ}
use ferp.Common.{
  ℕ, ◌≡◌, ◌∙◌, refl, sym, ap, fun_ext, Option, none, some, List, [], ◌∷◌, ◌==◌, if◌then◌else◌,
}
use ferp.AddressMap.{AddressMap, new, find, insert, find_and_remove, iterate}
use ferp.AddressMap.Lookup.{
  IsValid, find-insert, insert-IsValid, find-find_and_remove, find-new, new-IsValid,
}
use ferp.AddressMap.Visit.{iterate-find}
use ferp.AddressMap.Placed.{IsPlaced}
use ferp.AddressMap.Visited.{new-IsPlaced, insert-IsPlaced, find_and_remove-IsPlaced, find-iterate}

pub data Call (V : Type 0) : Type 0 where
  inserts : ℕ → V → Call V
  removes : ℕ → Call V

module _ {V : Type 0} where
  pub step : AddressMap V → Call V → AddressMap V
  step m (inserts key value) = insert m key value
  step m (removes key) = (find_and_remove m key).1

  pub run : AddressMap V → List (Call V) → AddressMap V
  run m [] = m
  run m (c ∷ cs) = run (step m c) cs

  -- The same calls on a function.
  abbrev pub specified : (ℕ → Option V) → List (Call V) → ℕ → Option V
  specified f [] j = f j
  specified f (inserts key value ∷ cs) j =
      specified (λ i. if i == key then some value else f i) cs j
  specified f (removes key ∷ cs) j = specified (λ i. if i == key then none else f i) cs j

  specified-ext :
      (f g : ℕ → Option V) (cs : List (Call V)) (j : ℕ)
      → ((i : ℕ) → f i ≡ g i)
      → specified f cs j ≡ specified g cs j
  specified-ext f g cs j same = ap (λ h. specified h cs j) (fun_ext same)

  run-specified :
      (m : AddressMap V) (cs : List (Call V)) (j : ℕ)
      → IsValid m
      → (find (run m cs) j ≡ specified (find m) cs j) × IsValid (run m cs)
  unfolding run step
  run-specified m [] j valid = (refl, valid)
  run-specified m (inserts key value ∷ cs) j valid =
      let (same, ok) = run-specified (insert m key value) cs j (insert-IsValid m key value valid) in
      (same ∙ specified-ext _ _ cs j (λ i. find-insert m key i value), ok)
  run-specified m (removes key ∷ cs) j valid =
      let (_, _, kept) = find-find_and_remove m key key valid in
      let (same, ok) = run-specified (find_and_remove m key).1 cs j kept in
      (same ∙ specified-ext _ _ cs j (λ i. (find-find_and_remove m key i valid).1), ok)

  -- After any sequence of Insert and FindAndRemove on a new table, Find reads what the same
  -- calls make of the empty function.
  pub find-run-specified :
      (cs : List (Call V)) (j : ℕ) → find (run new cs) j ≡ specified (λ _. none) cs j
  find-run-specified cs j =
      (run-specified new cs j (new-IsValid V)).0 ∙ specified-ext _ _ cs j find-new

  run-IsPlaced : (m : AddressMap V) (cs : List (Call V)) → IsPlaced m → IsPlaced (run m cs)
  unfolding run step
  run-IsPlaced m [] p = p
  run-IsPlaced m (inserts key value ∷ cs) p =
      run-IsPlaced (insert m key value) cs (insert-IsPlaced m key value p)
  run-IsPlaced m (removes key ∷ cs) p =
      run-IsPlaced (find_and_remove m key).1 cs (find_and_remove-IsPlaced m key p)

  -- After any sequence of Insert and FindAndRemove on a new table, Iterate visits the keys that the
  -- same calls give the empty function, with their values, and no others.
  pub iterate-run-specified :
      (cs : List (Call V)) (key : ℕ) (v : V)
      → (Memᴰ (key, v) (iterate (run new cs)) → specified (λ _. none) cs key ≡ some v)
        × (specified (λ _. none) cs key ≡ some v → Memᴰ (key, v) (iterate (run new cs)))
  iterate-run-specified cs key v =
      let valid = (run-specified new cs key (new-IsValid V)).1 in
      let placed = run-IsPlaced new cs (new-IsPlaced V) in
      (
        (λ m. sym (find-run-specified cs key) ∙ find-iterate (run new cs) key v valid placed m),
        λ h. iterate-find (run new cs) key v (find-run-specified cs key ∙ h),
      )
