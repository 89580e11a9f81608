-- ===== src/AddressMap/Visited.antt =====
-- What Iterate of src/addressmap.hpp visits is what Find answers.
use mathlib.Core.List.{Memᴰ}
use mathlib.Core.List.Memᴰ
use ferp.Common.{
  ℕ, zero, suc, ◌+◌, ◌≡◌, ◌∙◌, ap, sym, refl, some, List, [], ◌∷◌, ◌==◌, Bool-cases, Option-cases,
  inl, inr, arith, subst,
}
use ferp.AddressMap.{
  AddressMap, Cluster, Chain, cluster_id, block_id, hash_int, search_bucket, find_cluster,
  find_entry, find, create_cluster, assign_entry, unlink_entry, take_entry, insert, find_and_remove,
  new, block_entries, bucket_entries, table_entries, iterate, hash_size, cluster_blocks,
}
use ferp.AddressMap.Chains.{KeysDistinct}
use ferp.AddressMap.Blocks.{
  create_cluster-find_cluster, search_bucket-id, chain_at, chain_at-found, find_cluster-take_entry,
}
use ferp.AddressMap.Lookup.{IsValid, find-chain_at}
use ferp.AddressMap.Placed.{
  InBlock, InCluster, InBucket, IsPlaced, InBlock-nil, InBlock-cons, InBlock-assign_entry,
  InBlock-unlink_entry, search_bucket-InCluster, set_block-IsPlaced,
}

pub new-IsPlaced : (V : Type 0) → IsPlaced (new {V = V})
unfolding new
new-IsPlaced V = λ h. tt

module _ {V : Type 0} where
  create_cluster-IsPlaced :
      (m : AddressMap V) (key : ℕ) → IsPlaced m → IsPlaced (create_cluster m key).0
  unfolding create_cluster find_cluster
  create_cluster-IsPlaced m key p h = elim (Option-cases (find_cluster m key)) [
    | inr (c, e) ↦ rw (e, create_cluster) (p h)
    | inl e ↦
        let hash = hash_int (cluster_id key) in
        rw (e, create_cluster)
          (elim (Bool-cases (h == hash)) [
            | inl t ↦
                let same : h ≡ hash = ground arith in
                rw t (
                  sym same,
                  e,
                  record { blocks = λ b. InBlock-nil (cluster_id key) b },
                  subst (λ x. InBucket x (m.hashtable hash)) (sym same) (p hash),
                )
            | inr t ↦ rw t (p h)
          ])
  ]

  take_entry-IsPlaced : (m : AddressMap V) → IsPlaced m → IsPlaced (take_entry m)
  unfolding take_entry
  take_entry-IsPlaced m p h = elim (Bool-cases (m.free == 0)) [
    | inl e ↦ rw e (p h)
    | inr e ↦ rw e (p h)
  ]

  -- The chain of a cluster that is there belongs into its block.
  found-InBlock :
      (m : AddressMap V) (key : ℕ) (c : Cluster V)
      → IsPlaced m
      → find_cluster m key ≡ some c
      → InBlock (cluster_id key) (block_id key) (c.blocks (block_id key))
  unfolding find_cluster
  found-InBlock m key c p f =
      let hash = hash_int (cluster_id key) in
      subst (λ x. InBlock x (block_id key) (c.blocks (block_id key)))
        (search_bucket-id (m.hashtable hash) (cluster_id key) c f)
        ((search_bucket-InCluster (m.hashtable hash) hash (cluster_id key) c (p hash) f).blocks
          (block_id key))

  pub insert-IsPlaced :
      (m : AddressMap V) (key : ℕ) (value : V) → IsPlaced m → IsPlaced (insert m key value)
  unfolding insert
  insert-IsPlaced m key value p =
      let m' = (create_cluster m key).0 in
      let c = (create_cluster m key).1 in
      let there = create_cluster-find_cluster m key in
      let placed = create_cluster-IsPlaced m key p in
      let chain = c.blocks (block_id key) in
      let block = found-InBlock m' key c placed there in
      elim (Option-cases (assign_entry chain key value)) [
        | inl e ↦
            rw (e, insert)
              (set_block-IsPlaced (take_entry m') c key ((key, value) ∷ chain)
                (find_cluster-take_entry m' key ∙ there)
                (InBlock-cons (cluster_id key) (block_id key) key value chain refl refl block)
                (take_entry-IsPlaced m' placed))
        | inr (es, e) ↦
            rw (e, insert)
              (set_block-IsPlaced m' c key es there
                (InBlock-assign_entry (cluster_id key) (block_id key) key value chain es e block)
                placed)
      ]

  pub find_and_remove-IsPlaced :
      (m : AddressMap V) (key : ℕ) → IsPlaced m → IsPlaced (find_and_remove m key).1
  unfolding find_and_remove
  find_and_remove-IsPlaced m key p = elim (Option-cases (find_cluster m key)) [
    | inl e ↦ rw (e, find_and_remove) p
    | inr (c, e) ↦ elim (Option-cases (unlink_entry (c.blocks (block_id key)) key)) [
      | inl f ↦ rw (e, f, find_and_remove) p
      | inr ((v, es), f) ↦
          rw (e, f, find_and_remove)
            (set_block-IsPlaced m c key es e
              (InBlock-unlink_entry (cluster_id key) (block_id key) key v (c.blocks (block_id key))
                es f (found-InBlock m key c p e))
              p)
    ]
  ]

  block_entries-block :
      (n at : ℕ) (c : Cluster V) (e : ℕ × V)
      → Memᴰ e (block_entries n at c)
      → (b : ℕ) × Memᴰ e (c.blocks b)
  unfolding block_entries
  block_entries-block zero at c e m = absurd (Memᴰ.not-nil m)
  block_entries-block (suc n) at c e m = elim (Memᴰ.append_cases (c.blocks at) m) [
    | inl k ↦ (at, k)
    | inr k ↦ block_entries-block n (at + 1) c e k
  ]

  bucket_entries-cluster :
      (cs : List (Cluster V)) (h : ℕ) (e : ℕ × V)
      → InBucket h cs
      → Memᴰ e (bucket_entries cs)
      → (c : Cluster V) × (b : ℕ) × (search_bucket cs c.id ≡ some c)
        × (hash_int c.id ≡ h)
        × InCluster c
        × Memᴰ e (c.blocks b)
  unfolding bucket_entries search_bucket
  bucket_entries-cluster [] h e p m = absurd (Memᴰ.not-nil m)
  bucket_entries-cluster (x ∷ cs) h e (a, free, i, q) m =
      elim (Memᴰ.append_cases (block_entries cluster_blocks 0 x) m) [
        | inl k ↦
            let (b, l) = block_entries-block cluster_blocks 0 x e k in (x, b, ground arith, a, i, l)
        | inr k ↦
            let (c, b, f, d, j, l) = bucket_entries-cluster cs h e q k in
            (c, b, ground (arith, f, free, λ (s : x.id ≡ c.id). ap (search_bucket cs) s), d, j, l)
      ]

  table_entries-bucket :
      (n at : ℕ) (m : AddressMap V) (e : ℕ × V)
      → Memᴰ e (table_entries n at m)
      → (h : ℕ) × Memᴰ e (bucket_entries (m.hashtable h))
  unfolding table_entries
  table_entries-bucket zero at m e k = absurd (Memᴰ.not-nil k)
  table_entries-bucket (suc n) at m e k =
      elim (Memᴰ.append_cases (bucket_entries (m.hashtable at)) k) [
        | inl l ↦ (at, l)
        | inr l ↦ table_entries-bucket n (at + 1) m e l
      ]

  find_entry-member :
      (es : Chain V) (k : ℕ) (v : V) → KeysDistinct es → Memᴰ (k, v) es → find_entry es k ≡ some v
  unfolding find_entry
  find_entry-member [] k v d m = absurd (Memᴰ.not-nil m)
  find_entry-member ((x, w) ∷ es) k v (free, d) m = elim (Memᴰ.cases_cons m) [
    | inl e ↦
        let same : k ≡ x = ap (λ y. y.0) e in
        let value : v ≡ w = ap (λ y. y.1) e in ground (arith, same, value)
    | inr r ↦
        let there = find_entry-member es k v d r in
        ground (arith, there, free, λ (s : x ≡ k). ap (find_entry es) s)
  ]

  -- Where every key has one entry, in its place, Find answers each entry that Iterate visits.
  pub find-iterate :
      (m : AddressMap V) (key : ℕ) (v : V)
      → IsValid m
      → IsPlaced m
      → Memᴰ (key, v) (iterate m)
      → find m key ≡ some v
  unfolding iterate find_cluster
  find-iterate m key v valid placed k =
      let (h, l) = table_entries-bucket hash_size 0 m (key, v) k in
      let (c, b, f, hash, i, e) = bucket_entries-cluster (m.hashtable h) h (key, v) (placed h) l in
      let (id, block) = (i.blocks b).ids key v e in
      let found : find_cluster m key ≡ some c = rw (id, hash) f in
      let chain : chain_at m key ≡ c.blocks b = chain_at-found m c key found ∙ ap c.blocks block in
      find-chain_at m key
      ∙ find_entry-member (chain_at m key) key v (valid key)
          (subst (λ es. Memᴰ (key, v) es) (sym chain) e)
