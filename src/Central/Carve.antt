-- ===== src/Central/Carve.antt =====
-- The loop of Populate in src/tcmalloc.cpp, which cuts a span into objects.
use ferp.Common.{
  ℕ, zero, suc, ◌+◌, ◌-◌, ◌*◌, ◌≤◌, ◌<◌, ◌≡◌, refl, some, List, ◌∷◌, leb, length, get_elem?, arith,
  Bool-cases, inl, inr,
}
use ferp.Central.{carve_objects}

-- `bytes` bytes from `ptr` on in objects of `size` bytes: as many as fit, one behind the other.
pub record Carved (size ptr bytes : ℕ) (objects : List ℕ) : Type 0 where
  pub fit : length objects * size ≤ bytes
  pub full : bytes < (length objects + 1) * size
  pub places : (i : ℕ) → i < length objects → get_elem? objects i ≡ some (ptr + i * size)

places_cons :
    (size ptr : ℕ) (objects : List ℕ)
    → ((i : ℕ) → i < length objects → get_elem? objects i ≡ some (ptr + size + i * size))
    → (i : ℕ) → i < suc (length objects)
    → get_elem? (ptr ∷ objects) i ≡ some (ptr + i * size)
places_cons size ptr objects h zero l = ground arith
places_cons size ptr objects h (suc i) l = grind (arith, h i (omega arith))

carve_objects-Carved :
    (fuel size ptr limit bytes : ℕ)
    → 0 < size
    → limit ≡ ptr + bytes
    → bytes ≤ fuel
    → Carved size ptr bytes (carve_objects fuel size ptr limit)
unfolding carve_objects
carve_objects-Carved zero size ptr limit bytes p e f = record {
  fit = omega arith;
  full = omega arith;
  places = λ i l. absurd (omega arith);
}
carve_objects-Carved (suc fuel) size ptr limit bytes p e f =
    elim (Bool-cases (leb (ptr + size) limit)) [
      | inl t ↦
          let fits : ptr + size ≤ limit = ground arith in
          let r =
            carve_objects-Carved fuel size (ptr + size) limit (bytes - size) p (omega arith)
              (omega arith) in
          rw (t, carve_objects)
            (record {
              fit = grind (arith, r.fit);
              full = grind (arith, r.full);
              places = places_cons size ptr (carve_objects fuel size (ptr + size) limit) r.places;
            })
      | inr t ↦
          rw (t, carve_objects)
            (record {
              fit = omega arith;
              full = ground arith;
              places = λ i l. absurd (omega arith);
            })
    ]

-- The loop over a span of `bytes` bytes ends within the rounds that the model gives it, and cuts
-- the span as `Carved` says.
pub carve_objects-span :
    (size ptr bytes : ℕ)
    → 0 < size
    → Carved size ptr bytes (carve_objects bytes size ptr (ptr + bytes))
carve_objects-span size ptr bytes p =
    carve_objects-Carved bytes size ptr (ptr + bytes) bytes p refl (omega arith)
