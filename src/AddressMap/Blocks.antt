-- ===== src/AddressMap/Blocks.antt =====
-- Which chain of entries a key belongs to, through buckets and clusters, in src/addressmap.hpp.
use ferp.Common.{
  ℕ, ◌+◌, ◌≡◌, refl, ap, true, Option, none, some, List, [], ◌∷◌, arith, ◌==◌, ◌&&◌, if◌then◌else◌,
  inl, inr, Bool-cases, Option-cases, update, ==_refl,
}
use ferp.AddressMap.{
  AddressMap, new, Cluster, Chain, cluster_id, block_id, hash_int, search_bucket, find_cluster,
  create_cluster, replace_cluster, set_block, take_entry,
}

module _ {V : Type 0} where
  abbrev block_of : Option (Cluster V) → ℕ → Chain V
  block_of none b = []
  block_of (some c) b = c.blocks b

  -- The chain in which the entry of a key is kept.
  pub chain_at : AddressMap V → ℕ → Chain V
  chain_at m key = block_of (find_cluster m key) (block_id key)

  pub search_bucket-id :
      (cs : List (Cluster V)) (id : ℕ) (c : Cluster V) → search_bucket cs id ≡ some c → c.id ≡ id
  unfolding search_bucket
  search_bucket-id [] id c h = cc
  search_bucket-id (x ∷ cs) id c h = ground (arith, search_bucket-id cs id c)

  -- A bucket after a write of a cluster that is in it.
  search_bucket-replace_cluster :
      (cs : List (Cluster V)) (c c' : Cluster V) (id : ℕ)
      → search_bucket cs c'.id ≡ some c
      → search_bucket (replace_cluster cs c') id
        ≡ (if id == c'.id then some c' else search_bucket cs id)
  unfolding search_bucket replace_cluster
  search_bucket-replace_cluster [] c c' id h = cc
  search_bucket-replace_cluster (x ∷ cs) c c' id h =
      ground (arith, search_bucket-replace_cluster cs c c' id)

  search_bucket-table :
      (t : ℕ → List (Cluster V)) (c c' : Cluster V) (a b : ℕ)
      → c'.id ≡ a
      → search_bucket (t (hash_int a)) a ≡ some c
      → search_bucket (update t (hash_int a) (replace_cluster (t (hash_int a)) c') (hash_int b)) b
        ≡ (if b == a then some c' else search_bucket (t (hash_int b)) b)
  search_bucket-table t c c' a b e h = elim (Bool-cases (hash_int b == hash_int a)) [
    | inl same ↦
        let hit : hash_int b ≡ hash_int a = ground arith in
        let found : search_bucket (t (hash_int a)) c'.id ≡ some c = rw e h in
        rw (same, search_bucket-replace_cluster (t (hash_int a)) c c' b found, e, hit) refl
    | inr other ↦ rw other (ground (arith, λ (p : b ≡ a). ap hash_int p))
  ]

  search_bucket-cons :
      (t : ℕ → List (Cluster V)) (c : Cluster V) (a b : ℕ)
      → c.id ≡ a
      → search_bucket (update t (hash_int a) (c ∷ t (hash_int a)) (hash_int b)) b
        ≡ (if b == a then some c else search_bucket (t (hash_int b)) b)
  unfolding search_bucket
  search_bucket-cons t c a b e = elim (Bool-cases (hash_int b == hash_int a)) [
    | inl same ↦ let hit : hash_int b ≡ hash_int a = ground arith in rw (same, hit) (ground arith)
    | inr other ↦ rw other (ground (arith, λ (p : b ≡ a). ap hash_int p))
  ]

  find_cluster-set_block :
      (m : AddressMap V) (c : Cluster V) (key j : ℕ) (chain : Chain V)
      → find_cluster m key ≡ some c
      → find_cluster (set_block m c key chain) j ≡ (
          if cluster_id j == cluster_id key
          then some (record c { blocks = update c.blocks (block_id key) chain })
          else find_cluster m j)
  unfolding find_cluster set_block
  find_cluster-set_block m c key j chain h =
      let id = search_bucket-id (m.hashtable (hash_int (cluster_id key))) (cluster_id key) c h in
      search_bucket-table m.hashtable c (record c { blocks = update c.blocks (block_id key) chain })
        (cluster_id key) (cluster_id j) id h

  find_cluster-id :
      (m : AddressMap V) (j key : ℕ)
      → cluster_id j ≡ cluster_id key
      → find_cluster m j ≡ find_cluster m key
  unfolding find_cluster
  find_cluster-id m j key e = rw e

  -- A write at the block of `key` is read at the keys of that block only.
  pub chain_at-set_block :
      (m : AddressMap V) (c : Cluster V) (key j : ℕ) (chain : Chain V)
      → find_cluster m key ≡ some c
      → chain_at (set_block m c key chain) j ≡ (
          if cluster_id j == cluster_id key && block_id j == block_id key
          then chain
          else chain_at m j)
  unfolding chain_at
  chain_at-set_block m c key j chain h =
      rw (chain_at, find_cluster-set_block m c key j chain h)
        (elim (Bool-cases (cluster_id j == cluster_id key)) [
          | inl same ↦ rw same (ground (arith, h, find_cluster-id m j key))
          | inr other ↦ rw other refl
        ])

  -- The cluster that FindCluster makes.
  abbrev fresh_cluster : ℕ → Cluster V
  fresh_cluster key = record { id = cluster_id key; blocks = λ b. [] }

  find_cluster-fresh :
      (m : AddressMap V) (key j : ℕ)
      → let h = hash_int (cluster_id key) in
        find_cluster
          (record m {
            hashtable = update m.hashtable h (fresh_cluster key ∷ m.hashtable h);
            allocated = m.allocated + 1;
          })
          j
        ≡ (if cluster_id j == cluster_id key then some (fresh_cluster key) else find_cluster m j)
  unfolding find_cluster
  find_cluster-fresh m key j =
      search_bucket-cons m.hashtable (fresh_cluster key) (cluster_id key) (cluster_id j) refl

  pub create_cluster-find_cluster :
      (m : AddressMap V) (key : ℕ)
      → find_cluster (create_cluster m key).0 key ≡ some (create_cluster m key).1
  unfolding create_cluster
  create_cluster-find_cluster m key = elim (Option-cases (find_cluster m key)) [
    | inr (c, e) ↦ rw (e, create_cluster) e
    | inl e ↦ rw (e, create_cluster, find_cluster-fresh m key key, ==_refl (cluster_id key)) refl
  ]

  pub chain_at-create_cluster :
      (m : AddressMap V) (key j : ℕ) → chain_at (create_cluster m key).0 j ≡ chain_at m j
  unfolding create_cluster chain_at
  chain_at-create_cluster m key j = elim (Option-cases (find_cluster m key)) [
    | inr (c, e) ↦ rw (e, create_cluster) refl
    | inl e ↦
        rw (e, create_cluster, find_cluster-fresh m key j)
          (elim (Bool-cases (cluster_id j == cluster_id key)) [
            | inl same ↦ rw same (rw (find_cluster-id m j key (ground arith), e) refl)
            | inr other ↦ rw other refl
          ])
  ]

  -- The entries taken off the free list are no part of the table.
  pub find_cluster-take_entry :
      (m : AddressMap V) (j : ℕ) → find_cluster (take_entry m) j ≡ find_cluster m j
  unfolding find_cluster take_entry
  find_cluster-take_entry m j = elim (Bool-cases (m.free == 0)) [
    | inl e ↦ rw e refl
    | inr e ↦ rw e refl
  ]

  pub chain_at-take_entry : (m : AddressMap V) (j : ℕ) → chain_at (take_entry m) j ≡ chain_at m j
  unfolding chain_at
  chain_at-take_entry m j = rw (find_cluster-take_entry m j) refl

  pub chain_at-found :
      (m : AddressMap V) (c : Cluster V) (key : ℕ)
      → find_cluster m key ≡ some c
      → chain_at m key ≡ c.blocks (block_id key)
  unfolding chain_at
  chain_at-found m c key e = rw e refl

  pub chain_at-missing :
      (m : AddressMap V) (key : ℕ) → find_cluster m key ≡ none → chain_at m key ≡ []
  unfolding chain_at
  chain_at-missing m key e = rw e refl

  pub chain_at-same :
      (m : AddressMap V) (j key : ℕ)
      → (cluster_id j == cluster_id key && block_id j == block_id key) ≡ true
      → chain_at m j ≡ chain_at m key
  unfolding chain_at
  chain_at-same m j key h =
      let block : block_id j ≡ block_id key = ground arith in
      rw (find_cluster-id m j key (ground arith), block) refl

  pub chain_at-free :
      (m : AddressMap V) (n j : ℕ) → chain_at (record m { free = n }) j ≡ chain_at m j
  unfolding chain_at find_cluster
  chain_at-free m n j = refl

  pub set_block-free :
      (m : AddressMap V) (c : Cluster V) (key : ℕ) (es : Chain V)
      → (set_block m c key es).free ≡ m.free
  unfolding set_block
  set_block-free m c key es = refl

  pub chain_at-new : (j : ℕ) → chain_at (new {V = V}) j ≡ []
  unfolding chain_at find_cluster search_bucket new
  chain_at-new j = refl
