-- ===== src/AddressMap/Visit.antt =====
-- Iterate of src/addressmap.hpp visits every entry of the table.
use mathlib.Core.List.{Memᴰ}
use mathlib.Core.List.Memᴰ
use ferp.Common.{
  ℕ, zero, suc, ◌+◌, ◌≤◌, ◌<◌, ◌≡◌, sym, some, List, [], ◌∷◌, ◌==◌, Bool-cases, Option-cases, inl,
  inr, arith, subst,
}
use ferp.AddressMap.{
  AddressMap, Cluster, Chain, cluster_id, block_id, hash_int, hash_size, cluster_blocks,
  search_bucket, find_cluster, find_entry, find, block_entries, bucket_entries, table_entries,
  iterate,
}

hash_int_bound : (x : ℕ) → hash_int x < hash_size
unfolding hash_int
hash_int_bound x = omega arith

module _ {V : Type 0} where
  find_entry-visited :
      (es : Chain V) (key : ℕ) (v : V) → find_entry es key ≡ some v → Memᴰ (key, v) es
  unfolding find_entry
  find_entry-visited [] key v h = absurd (ground arith)
  find_entry-visited ((k, w) ∷ es) key v h = elim (Bool-cases (k == key)) [
    | inl e ↦
        let same : k ≡ key = ground arith in
        let value : w ≡ v = ground (arith, h, e) in Memᴰ.head (λ i. (sym same i, sym value i))
    | inr e ↦ Memᴰ.tail (find_entry-visited es key v (ground (arith, h, e)))
  ]

  block_entries-visited :
      (n at b : ℕ) (c : Cluster V) (e : ℕ × V)
      → at ≤ b
      → b < at + n
      → Memᴰ e (c.blocks b)
      → Memᴰ e (block_entries n at c)
  unfolding block_entries
  block_entries-visited zero at b c e low high m = absurd (omega arith)
  block_entries-visited (suc n) at b c e low high m = elim (Bool-cases (at == b)) [
    | inl t ↦
        let same : b ≡ at = ground arith in
        Memᴰ.append_left (block_entries n (at + 1) c) (subst (λ x. Memᴰ e (c.blocks x)) same m)
    | inr t ↦
        Memᴰ.append_right (c.blocks at)
          (block_entries-visited n (at + 1) b c e (ground (arith, low)) (omega arith) m)
  ]

  search_bucket-visited :
      (cs : List (Cluster V)) (id b : ℕ) (c : Cluster V) (e : ℕ × V)
      → b < cluster_blocks
      → search_bucket cs id ≡ some c
      → Memᴰ e (c.blocks b)
      → Memᴰ e (bucket_entries cs)
  unfolding search_bucket bucket_entries
  search_bucket-visited [] id b c e l h m = absurd (ground arith)
  search_bucket-visited (x ∷ cs) id b c e l h m = elim (Bool-cases (x.id == id)) [
    | inl t ↦
        let same : x ≡ c = ground (arith, h, t) in
        Memᴰ.append_left (bucket_entries cs) (
          block_entries-visited cluster_blocks 0 b x e (omega arith) (omega arith)
            (subst (λ y. Memᴰ e (y.blocks b)) (sym same) m))
    | inr t ↦
        Memᴰ.append_right (block_entries cluster_blocks 0 x)
          (search_bucket-visited cs id b c e l (ground (arith, h, t)) m)
  ]

  table_entries-visited :
      (n at h : ℕ) (m : AddressMap V) (e : ℕ × V)
      → at ≤ h
      → h < at + n
      → Memᴰ e (bucket_entries (m.hashtable h))
      → Memᴰ e (table_entries n at m)
  unfolding table_entries
  table_entries-visited zero at h m e low high k = absurd (omega arith)
  table_entries-visited (suc n) at h m e low high k = elim (Bool-cases (at == h)) [
    | inl t ↦
        let same : h ≡ at = ground arith in
        Memᴰ.append_left (table_entries n (at + 1) m)
          (subst (λ x. Memᴰ e (bucket_entries (m.hashtable x))) same k)
    | inr t ↦
        Memᴰ.append_right (bucket_entries (m.hashtable at))
          (table_entries-visited n (at + 1) h m e (ground (arith, low)) (omega arith) k)
  ]

  -- What Find answers for a key is visited by Iterate, with the key.
  pub iterate-find :
      (m : AddressMap V) (key : ℕ) (v : V) → find m key ≡ some v → Memᴰ (key, v) (iterate m)
  unfolding find find_cluster iterate
  iterate-find m key v h = elim (Option-cases (find_cluster m key)) [
    | inl e ↦ absurd (ground (arith, e, h))
    | inr (c, e) ↦
        let there : find_entry (c.blocks (block_id key)) key ≡ some v = ground (arith, e, h) in
        let hash = hash_int (cluster_id key) in
        table_entries-visited hash_size 0 hash m (key, v) (omega arith)
          (omega (arith, hash_int_bound (cluster_id key)))
          (search_bucket-visited (m.hashtable hash) (cluster_id key) (block_id key) c (key, v)
            (omega arith) e (find_entry-visited (c.blocks (block_id key)) key v there))
  ]
