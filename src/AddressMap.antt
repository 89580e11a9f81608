-- ===== src/AddressMap.antt =====
-- The hash table of src/addressmap.hpp. The entries of a block and the clusters of a bucket are
-- singly linked and have one owner each, so a chain is a list; `free_` is the number of entries
-- in it, and `allocated_` the number of objects in it. The allocator is taken to return memory:
-- the source does not look at its result.
pub mod Chains
pub mod Blocks
pub mod Lookup
pub mod History
pub mod Visit
pub mod Placed
pub mod Visited
mod Tests
use ferp.Common.{
  ℕ, zero, suc, ◌+◌, ◌-◌, ◌*◌, ◌/◌, ◌%◌, ◌^◌, Bool, true, false, Option, none, some, List, [], ◌∷◌,
  ◌++◌, ◌==◌, if◌then◌else◌, update,
}
use ferp.Common.Bits.{u32_mod, shr}

abbrev pub block_bits : ℕ
block_bits = 7

abbrev pub cluster_bits : ℕ
cluster_bits = 13

abbrev pub cluster_blocks : ℕ
cluster_blocks = 8192

abbrev pub hash_bits : ℕ
hash_bits = 12

abbrev pub hash_size : ℕ
hash_size = 4096

abbrev pub alloc_count : ℕ
alloc_count = 64

abbrev pub hash_multiplier : ℕ
hash_multiplier = 2654435769

pub hash_int : ℕ → ℕ
hash_int x = shr (x % u32_mod * hash_multiplier % u32_mod) (32 - hash_bits)

abbrev pub cluster_id : ℕ → ℕ
cluster_id address = shr address (block_bits + cluster_bits)

abbrev pub block_id : ℕ → ℕ
block_id address = shr address block_bits % cluster_blocks

module _ (V : Type 0) where
  abbrev pub Chain : Type 0
  Chain = List (ℕ × V)

  pub record Cluster : Type 0 where
    pub id : ℕ
    pub blocks : ℕ → Chain

  pub record AddressMap : Type 0 where
    pub hashtable : ℕ → List Cluster
    pub free : ℕ
    pub allocated : ℕ

module _ {V : Type 0} where
  -- The constructor; its hash table is the first object.
  pub new : AddressMap V
  new = record { hashtable = λ h. []; free = 0; allocated = 1 }

  -- The loop of FindCluster over a bucket.
  pub search_bucket : List (Cluster V) → ℕ → Option (Cluster V)
  search_bucket [] id = none
  search_bucket (c ∷ cs) id = if c.id == id then some c else search_bucket cs id

  pub find_cluster : AddressMap V → ℕ → Option (Cluster V)
  find_cluster m address =
      search_bucket (m.hashtable (hash_int (cluster_id address))) (cluster_id address)

  -- `FindCluster(address, true)`: the map in which the cluster is there, and the cluster.
  pub create_cluster : AddressMap V → ℕ → AddressMap V × Cluster V
  create_cluster m address = elim (find_cluster m address) [
    | some c ↦ (m, c)
    | none ↦
        let id = cluster_id address in
        let h = hash_int id in
        let c : Cluster V = record { id = id; blocks = λ b. [] } in
        (
          record m {
            hashtable = update m.hashtable h (c ∷ m.hashtable h);
            allocated = m.allocated + 1;
          },
          c,
        )
  ]

  -- The write of a cluster in its place in a bucket.
  pub replace_cluster : List (Cluster V) → Cluster V → List (Cluster V)
  replace_cluster [] c' = []
  replace_cluster (c ∷ cs) c' = if c.id == c'.id then c' ∷ cs else c ∷ replace_cluster cs c'

  -- `c->blocks[BlockID(address)] = chain`
  pub set_block : AddressMap V → Cluster V → ℕ → Chain V → AddressMap V
  set_block m c address chain =
      let h = hash_int (cluster_id address) in
      let c' = record c { blocks = update c.blocks (block_id address) chain } in
      record m { hashtable = update m.hashtable h (replace_cluster (m.hashtable h) c') }

  pub find_entry : Chain V → ℕ → Option V
  find_entry [] key = none
  find_entry ((k, v) ∷ es) key = if k == key then some v else find_entry es key

  -- `e->value = value` at the entry of the key; `none` if there is no such entry.
  pub assign_entry : Chain V → ℕ → V → Option (Chain V)
  assign_entry [] key value = none
  assign_entry ((k, v) ∷ es) key value =
      let rest = assign_entry es key value in
      if k == key
      then some ((k, value) ∷ es)
      else elim rest [ none ↦ none | some es' ↦ some ((k, v) ∷ es') ]

  -- `*p = e->next` at the entry of the key, and its value.
  pub unlink_entry : Chain V → ℕ → Option (V × Chain V)
  unlink_entry [] key = none
  unlink_entry ((k, v) ∷ es) key =
      let rest = unlink_entry es key in
      if k == key
      then some (v, es)
      else elim rest [ none ↦ none | some (w, es') ↦ some (w, (k, v) ∷ es') ]

  pub find : AddressMap V → ℕ → Option V
  find m key = elim (find_cluster m key) [
    | none ↦ none
    | some c ↦ find_entry (c.blocks (block_id key)) key
  ]

  -- `if (free_ == NULL) …`, and the entry taken off the free list.
  pub take_entry : AddressMap V → AddressMap V
  take_entry m =
      let m' =
        if m.free == 0 then record m { free = alloc_count; allocated = m.allocated + 1 } else m in
      record m' { free = m'.free - 1 }

  pub insert : AddressMap V → ℕ → V → AddressMap V
  insert m key value =
      let (m', c) = create_cluster m key in
      let chain = c.blocks (block_id key) in
      elim (assign_entry chain key value) [
        | some chain' ↦ set_block m' c key chain'
        | none ↦ set_block (take_entry m') c key ((key, value) ∷ chain)
      ]

  pub find_and_remove : AddressMap V → ℕ → Option V × AddressMap V
  find_and_remove m key = elim (find_cluster m key) [
    | none ↦ (none, m)
    | some c ↦ elim (unlink_entry (c.blocks (block_id key)) key) [
      | none ↦ (none, m)
      | some (v, chain) ↦
          let m' = set_block m c key chain in (some v, record m' { free = m'.free + 1 })
    ]
  ]

  -- What the callback of Iterate is given, in order: the entries of n blocks from b on, of the
  -- clusters of a bucket, and of n buckets from h on.
  pub block_entries : ℕ → ℕ → Cluster V → Chain V
  block_entries zero b c = []
  block_entries (suc n) b c = c.blocks b ++ block_entries n (b + 1) c

  pub bucket_entries : List (Cluster V) → Chain V
  bucket_entries [] = []
  bucket_entries (c ∷ cs) = block_entries cluster_blocks 0 c ++ bucket_entries cs

  pub table_entries : ℕ → ℕ → AddressMap V → Chain V
  table_entries zero h m = []
  table_entries (suc n) h m = bucket_entries (m.hashtable h) ++ table_entries n (h + 1) m

  pub iterate : AddressMap V → Chain V
  iterate m = table_entries hash_size 0 m
