-- ===== src/AddressMap/Placed.antt =====
-- Every entry of the table of src/addressmap.hpp stands in the block, the cluster and the bucket of
-- its key.
use mathlib.Core.List.{Memᴰ}
use mathlib.Core.List.Memᴰ
use ferp.Common.{
  ℕ, ◌≡◌, ◌∙◌, ap, sym, refl, none, some, List, [], ◌∷◌, ◌==◌, Bool-cases, Option-cases, inl, inr,
  arith, subst, update,
}
use ferp.AddressMap.{
  AddressMap, Cluster, Chain, cluster_id, block_id, hash_int, search_bucket, find_cluster,
  replace_cluster, set_block, assign_entry, unlink_entry,
}
use ferp.AddressMap.Blocks.{search_bucket-id}

module _ {V : Type 0} where
  pub record InBlock (id b : ℕ) (es : Chain V) : Type 0 where
    pub ids : (k : ℕ) (v : V) → Memᴰ (k, v) es → (cluster_id k ≡ id) × (block_id k ≡ b)

  pub record InCluster (c : Cluster V) : Type 0 where
    pub blocks : (b : ℕ) → InBlock c.id b (c.blocks b)

  abbrev pub InBucket : ℕ → List (Cluster V) → Type 0
  InBucket h [] = Unit {0}
  InBucket h (c ∷ cs) =
      (hash_int c.id ≡ h) × (search_bucket cs c.id ≡ none) × InCluster c × InBucket h cs

  -- No cluster stands twice in a bucket, and all is where its key belongs.
  abbrev pub IsPlaced : AddressMap V → Type 0
  IsPlaced m = (h : ℕ) → InBucket h (m.hashtable h)

  pub InBlock-nil : (id b : ℕ) → InBlock id b []
  InBlock-nil id b = record { ids = λ k v m. absurd (Memᴰ.not-nil m) }

  pub InBlock-cons :
      (id b k : ℕ) (v : V) (es : Chain V)
      → cluster_id k ≡ id
      → block_id k ≡ b
      → InBlock id b es
      → InBlock id b ((k, v) ∷ es)
  InBlock-cons id b k v es c d p = record {
    ids = λ j w m. elim (Memᴰ.cases_cons m) [
      | inl e ↦ let same : j ≡ k = ap (λ x. x.0) e in (ap cluster_id same ∙ c, ap block_id same ∙ d)
      | inr r ↦ p.ids j w r
    ];
  }

  InBlock-rest : (id b k : ℕ) (v : V) (es : Chain V) → InBlock id b ((k, v) ∷ es) → InBlock id b es
  InBlock-rest id b k v es p = record { ids = λ j w m. p.ids j w (Memᴰ.tail m) }

  pub InBlock-assign_entry :
      (id b key : ℕ) (value : V) (es es' : Chain V)
      → assign_entry es key value ≡ some es'
      → InBlock id b es
      → InBlock id b es'
  unfolding assign_entry
  InBlock-assign_entry id b key value [] es' h p = absurd (ground (arith, h))
  InBlock-assign_entry id b key value ((k, v) ∷ es) es' h p =
      let (c, d) = p.ids k v (Memᴰ.head refl) in
      let below = InBlock-rest id b k v es p in
      elim (Bool-cases (k == key)) [
        | inl e ↦
            let same : (k, value) ∷ es ≡ es' = ground (arith, h, e) in
            subst (InBlock id b) same (InBlock-cons id b k value es c d below)
        | inr e ↦ elim (Option-cases (assign_entry es key value)) [
          | inl f ↦ absurd (ground (arith, h, e, f))
          | inr (rest, f) ↦
              let same : (k, v) ∷ rest ≡ es' = ground (arith, h, e, f) in
              subst (InBlock id b) same (
                InBlock-cons id b k v rest c d
                  (InBlock-assign_entry id b key value es rest f below))
        ]
      ]

  pub InBlock-unlink_entry :
      (id b key : ℕ) (w : V) (es es' : Chain V)
      → unlink_entry es key ≡ some (w, es')
      → InBlock id b es
      → InBlock id b es'
  unfolding unlink_entry
  InBlock-unlink_entry id b key w [] es' h p = absurd (ground (arith, h))
  InBlock-unlink_entry id b key w ((k, v) ∷ es) es' h p =
      let (c, d) = p.ids k v (Memᴰ.head refl) in
      let below = InBlock-rest id b k v es p in
      elim (Bool-cases (k == key)) [
        | inl e ↦ let same : es ≡ es' = ground (arith, h, e) in subst (InBlock id b) same below
        | inr e ↦ elim (Option-cases (unlink_entry es key)) [
          | inl f ↦ absurd (ground (arith, h, e, f))
          | inr ((u, rest), f) ↦
              let same : (k, v) ∷ rest ≡ es' = ground (arith, h, e, f) in
              subst (InBlock id b) same
                (InBlock-cons id b k v rest c d (InBlock-unlink_entry id b key u es rest f below))
        ]
      ]

  pub search_bucket-InCluster :
      (cs : List (Cluster V)) (h id : ℕ) (c : Cluster V)
      → InBucket h cs
      → search_bucket cs id ≡ some c
      → InCluster c
  unfolding search_bucket
  search_bucket-InCluster [] h id c p f = absurd (ground (arith, f))
  search_bucket-InCluster (x ∷ cs) h id c (a, b, i, q) f = elim (Bool-cases (x.id == id)) [
    | inl e ↦ let same : x ≡ c = ground (arith, f, e) in subst InCluster same i
    | inr e ↦ search_bucket-InCluster cs h id c q (ground (arith, f, e))
  ]

  replace_cluster-none :
      (cs : List (Cluster V)) (c' : Cluster V) (id : ℕ)
      → search_bucket cs id ≡ none
      → search_bucket (replace_cluster cs c') id ≡ none
  unfolding search_bucket replace_cluster
  replace_cluster-none [] c' id h = h
  replace_cluster-none (x ∷ cs) c' id h = ground (arith, h, replace_cluster-none cs c' id)

  replace_cluster-InBucket :
      (cs : List (Cluster V)) (c' : Cluster V) (h : ℕ)
      → InCluster c'
      → InBucket h cs
      → InBucket h (replace_cluster cs c')
  unfolding replace_cluster
  replace_cluster-InBucket [] c' h i p = p
  replace_cluster-InBucket (x ∷ cs) c' h i (a, b, j, q) = elim (Bool-cases (x.id == c'.id)) [
    | inl e ↦
        let same : x.id ≡ c'.id = ground arith in
        rw e (ap hash_int (sym same) ∙ a, ap (search_bucket cs) (sym same) ∙ b, i, q)
    | inr e ↦ rw e (a, replace_cluster-none cs c' x.id b, j, replace_cluster-InBucket cs c' h i q)
  ]

  -- A write of a chain whose keys belong into the block.
  pub set_block-IsPlaced :
      (m : AddressMap V) (c : Cluster V) (key : ℕ) (chain : Chain V)
      → find_cluster m key ≡ some c
      → InBlock (cluster_id key) (block_id key) chain
      → IsPlaced m
      → IsPlaced (set_block m c key chain)
  unfolding set_block find_cluster
  set_block-IsPlaced m c key chain f i p h =
      let hash = hash_int (cluster_id key) in
      let c' : Cluster V = record c { blocks = update c.blocks (block_id key) chain } in
      let id = search_bucket-id (m.hashtable hash) (cluster_id key) c f in
      let old = search_bucket-InCluster (m.hashtable hash) hash (cluster_id key) c (p hash) f in
      let placed : InCluster c' = record {
        blocks = λ b. elim (Bool-cases (b == block_id key)) [
          | inl e ↦
              let same : b ≡ block_id key = ground arith in
              rw e (
                subst (λ x. InBlock x b chain) (sym id)
                  (subst (λ x. InBlock (cluster_id key) x chain) (sym same) i))
          | inr e ↦ rw e (old.blocks b)
        ];
      } in
      elim (Bool-cases (h == hash)) [
        | inl e ↦
            let same : h ≡ hash = ground arith in
            rw e (
              subst (λ x. InBucket x (replace_cluster (m.hashtable hash) c')) (sym same)
                (replace_cluster-InBucket (m.hashtable hash) c' hash placed (p hash)))
        | inr e ↦ rw e (p h)
      ]
