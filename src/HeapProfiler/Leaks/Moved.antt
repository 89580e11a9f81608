-- ===== src/HeapProfiler/Leaks/Moved.antt =====
-- Taking ignored objects out of their buckets, and putting them back, in src/heap-profiler.cpp.
use mathlib.Core.List.{Memᴰ}
use ferp.Common.{
  ℕ, ◌+◌, ◌-◌, ◌%◌, ◌≡◌, ◌∙◌, ap, sym, refl, subst, fun_ext, Bool, true, false, some, List, [], ◌∷◌,
  ◌==◌, if◌then◌else◌, update, update_self, update_other, Bool-cases, inl, inr, arith,
}
use ferp.Common.Bits.{u32_mod, u64_mod}
use ferp.AddressMap.{find}
use ferp.HeapProfiler.{Bucket, AllocValue, HeapProfile}
use ferp.HeapProfiler.Leaks.{
  adjust_bucket, adjust_by_ignored_objects, is_in, bytes_of, objects_in, bytes_in, raised, InRange,
  AreCounted,
}

raised-more :
    (b : Bucket) (n m n' m' : ℕ) → raised (raised b n m) n' m' ≡ raised b (n + n') (m + m')
unfolding raised
raised-more b n m n' m' =
    let allocs : ((b.allocs + n) % u32_mod + n') % u32_mod ≡ (b.allocs + (n + n')) % u32_mod =
      omega arith in
    let size : ((b.alloc_size + m) % u64_mod + m') % u64_mod ≡ (b.alloc_size + (m + m')) % u64_mod =
      omega arith in
    ap (λ (c : ℕ × ℕ). record b { allocs = c.0; alloc_size = c.1 }) (λ i. (allocs i, size i))

raised_none : (b : Bucket) → InRange b → raised b 0 0 ≡ b
unfolding raised
raised_none b (l, k) =
    let allocs : (b.allocs + 0) % u32_mod ≡ b.allocs = omega arith in
    let size : (b.alloc_size + 0) % u64_mod ≡ b.alloc_size = omega arith in
    ap (λ (c : ℕ × ℕ). record b { allocs = c.0; alloc_size = c.1 }) (λ i. (allocs i, size i))

adjust_bucket-raised : (b : Bucket) (bytes : ℕ) → adjust_bucket true bytes b ≡ raised b 1 bytes
unfolding adjust_bucket raised
adjust_bucket-raised b bytes = refl

raised-adjust_bucket :
    (b : Bucket) (bytes : ℕ) → InRange b → raised (adjust_bucket false bytes b) 1 bytes ≡ b
unfolding adjust_bucket raised
raised-adjust_bucket b bytes (l, k) =
    let allocs : ((b.allocs + (u32_mod - 1)) % u32_mod + 1) % u32_mod ≡ b.allocs = omega arith in
    let size : ((b.alloc_size + (u64_mod - bytes % u64_mod)) % u64_mod + bytes) % u64_mod
        ≡ b.alloc_size =
      omega arith in
    ap (λ (c : ℕ × ℕ). record b { allocs = c.0; alloc_size = c.1 }) (λ i. (allocs i, size i))

adjust_bucket-InRange :
    (back : Bool) (b : Bucket) (bytes : ℕ) → InRange (adjust_bucket back bytes b)
unfolding adjust_bucket
adjust_bucket-InRange true b bytes = (omega arith, omega arith)
adjust_bucket-InRange false b bytes = (omega arith, omega arith)

-- A bucket that n objects of m bytes were put back into, or taken out of.
abbrev pub Moved : Bool → Bucket → Bucket → ℕ → ℕ → Type 0
Moved true b b' n m = b' ≡ raised b n m
Moved false b b' n m = raised b' n m ≡ b

Moved-trans :
    (back : Bool) (b b' b'' : Bucket) (n m n' m' : ℕ)
    → Moved back b b' n m
    → Moved back b' b'' n' m'
    → Moved back b b'' (n + n') (m + m')
Moved-trans true b b' b'' n m n' m' h k = k ∙ ap (λ x. raised x n' m') h ∙ raised-more b n m n' m'
Moved-trans false b b' b'' n m n' m' h k =
    let count : n + n' ≡ n' + n = omega arith in
    let size : m + m' ≡ m' + m = omega arith in
    ap (λ (c : ℕ × ℕ). raised b'' c.0 c.1) (λ i. (count i, size i))
    ∙ sym (raised-more b'' n' m' n m)
    ∙ ap (λ x. raised x n m) k
    ∙ h

Moved-none : (back : Bool) (b : Bucket) → InRange b → Moved back b b 0 0
Moved-none true b r = sym (raised_none b r)
Moved-none false b r = raised_none b r

adjust_bucket-Moved :
    (back : Bool) (b : Bucket) (bytes : ℕ)
    → InRange b
    → Moved back b (adjust_bucket back bytes b) 1 bytes
adjust_bucket-Moved true b bytes r = adjust_bucket-raised b bytes
adjust_bucket-Moved false b bytes r = raised-adjust_bucket b bytes r

abbrev pub AllInRange : (ℕ → Bucket) → Type 0
AllInRange bucket = (j : ℕ) → InRange (bucket j)

-- One object.
step-Moved :
    (back : Bool) (p : HeapProfile) (i b j : ℕ) (v : AllocValue)
    → find p.allocation i ≡ some v
    → v.bucket ≡ some b
    → AllInRange p.bucket
    → Moved back
        (p.bucket j)
        (update p.bucket b (adjust_bucket back v.bytes (p.bucket b)) j)
        (if is_in p i j then 1 else 0)
        (if is_in p i j then bytes_of p i else 0)
unfolding is_in bytes_of
step-Moved back p i b j v f e r = elim (Bool-cases (b == j)) [
  | inl t ↦
      let same : b ≡ j = ground arith in
      rw (f, is_in, e, bytes_of, t)
        (subst
          (λ x.
            Moved back (p.bucket x) (update p.bucket b (adjust_bucket back v.bytes (p.bucket b)) x)
              1 v.bytes)
          same
          (subst (λ x. Moved back (p.bucket b) x 1 v.bytes)
            (sym (update_self p.bucket b (adjust_bucket back v.bytes (p.bucket b))))
            (adjust_bucket-Moved back (p.bucket b) v.bytes (r b))))
  | inr t ↦
      rw (f, is_in, e, t)
        (subst (λ x. Moved back (p.bucket j) x 0 0)
          (sym (
            update_other p.bucket b (adjust_bucket back v.bytes (p.bucket b)) j
              (λ s. absurd (ground (arith, s, t)))))
          (Moved-none back (p.bucket j) (r j)))
]

-- The counts are those of the map, whatever is in the buckets.
objects_in-record :
    (p : HeapProfile) (bucket : ℕ → Bucket) (is : List ℕ) (j : ℕ)
    → (objects_in (record p { bucket = bucket }) is j ≡ objects_in p is j)
      × (bytes_in (record p { bucket = bucket }) is j ≡ bytes_in p is j)
unfolding objects_in bytes_in is_in bytes_of
objects_in-record p bucket [] j = (refl, refl)
objects_in-record p bucket (i ∷ is) j =
    let (n, m) = objects_in-record p bucket is j in
    (
      ap (λ x. (if is_in p i j then 1 else 0) + x) n,
      ap (λ x. (if is_in p i j then bytes_of p i else 0) + x) m,
    )

update-AllInRange :
    (back : Bool) (bucket : ℕ → Bucket) (b bytes : ℕ)
    → AllInRange bucket
    → AllInRange (update bucket b (adjust_bucket back bytes (bucket b)))
update-AllInRange back bucket b bytes r j = elim (Bool-cases (j == b)) [
  | inl t ↦ rw t (adjust_bucket-InRange back (bucket b) bytes)
  | inr t ↦ rw t (r j)
]

-- All objects.
pub adjust_by_ignored_objects-Moved :
    (back : Bool) (is : List ℕ) (p : HeapProfile)
    → AreCounted p is
    → AllInRange p.bucket
    → (bucket : ℕ → Bucket) × (adjust_by_ignored_objects back is p
        ≡ some (record p { bucket = bucket }))
      × AllInRange bucket
      × ((j : ℕ) → Moved back (p.bucket j) (bucket j) (objects_in p is j) (bytes_in p is j))
unfolding adjust_by_ignored_objects objects_in bytes_in
adjust_by_ignored_objects-Moved back [] p c r =
    (p.bucket, refl, r, λ j. Moved-none back (p.bucket j) (r j))
adjust_by_ignored_objects-Moved back (i ∷ is) p c r =
    let (v, b, f, e) = c i (Memᴰ.head refl) in
    let bucket1 = update p.bucket b (adjust_bucket back v.bytes (p.bucket b)) in
    let p1 : HeapProfile = record p { bucket = bucket1 } in
    let (bucket, run, ok, moved) =
      adjust_by_ignored_objects-Moved back is p1 (λ k m. c k (Memᴰ.tail m))
        (update-AllInRange back p.bucket b v.bytes r) in
    (
      bucket,
      ground (arith, f, e, run),
      ok,
      λ j.
          let (n, m) = objects_in-record p bucket1 is j in
          Moved-trans back (p.bucket j) (bucket1 j) (bucket j) _ _ _ _
            (step-Moved back p i b j v f e r)
            (subst (λ x. Moved back (bucket1 j) (bucket j) x (bytes_in p is j)) n
              (subst (λ x. Moved back (bucket1 j) (bucket j) (objects_in p1 is j) x) m (moved j))),
    )

-- Where every ignored object has a bucket, and the counts of the buckets are words, nothing aborts:
-- the objects and their bytes are taken out of their buckets, and putting them back leaves the
-- profile as it was.
pub adjust_by_ignored_objects-back :
    (is : List ℕ) (p : HeapProfile)
    → AreCounted p is
    → AllInRange p.bucket
    → (p' : HeapProfile) × (adjust_by_ignored_objects false is p ≡ some p')
      × ((j : ℕ) → raised (p'.bucket j) (objects_in p is j) (bytes_in p is j) ≡ p.bucket j)
      × (adjust_by_ignored_objects true is p' ≡ some p)
adjust_by_ignored_objects-back is p c r =
    let (bucket, run, ok, moved) = adjust_by_ignored_objects-Moved false is p c r in
    let p' : HeapProfile = record p { bucket = bucket } in
    let (bucket', run', ok', moved') = adjust_by_ignored_objects-Moved true is p' c ok in
    let same : (j : ℕ) → bucket' j ≡ p.bucket j = λ j.
      let (n, m) = objects_in-record p bucket is j in
      moved' j ∙ ap (λ (x : ℕ × ℕ). raised (bucket j) x.0 x.1) (λ i. (n i, m i)) ∙ moved j in
    (p', run, moved, run' ∙ ap (λ t. some (record p { bucket = t })) (fun_ext same))
