-- ===== src/AddressMap/Lookup.antt =====
-- Find, Insert and FindAndRemove of src/addressmap.hpp: the table is a map from keys to values.
use ferp.Common.{
  ℕ, ◌+◌, ◌≡◌, ◌∙◌, subst, sym, refl, ap, Option, none, some, ◌∷◌, arith, ◌==◌, ◌&&◌, if◌then◌else◌,
  inl, inr, Bool-cases, Option-cases,
}
use ferp.AddressMap.{
  AddressMap, Cluster, Chain, cluster_id, block_id, new, find, insert, find_and_remove,
  find_cluster, create_cluster, find_entry, assign_entry, unlink_entry, set_block, take_entry,
}
use ferp.AddressMap.Chains.{
  KeysDistinct, find_entry-assign_entry, assign_entry-none, unlink_entry-none, unlink_entry-some,
}
use ferp.AddressMap.Blocks.{
  chain_at, chain_at-set_block, create_cluster-find_cluster, chain_at-create_cluster,
  find_cluster-take_entry, chain_at-take_entry, chain_at-found, chain_at-same, set_block-free,
  chain_at-free, chain_at-new, chain_at-missing,
}

module _ {V : Type 0} where
  -- No key has two entries.
  abbrev pub IsValid : AddressMap V → Type 0
  IsValid m = (j : ℕ) → KeysDistinct (chain_at m j)

  -- The chain that Insert leaves behind.
  insert_entry : Chain V → ℕ → V → Chain V
  insert_entry es key value = elim (assign_entry es key value) [
    | none ↦ (key, value) ∷ es
    | some es' ↦ es'
  ]

  find_entry-insert_entry :
      (es : Chain V) (key j : ℕ) (value : V)
      → find_entry (insert_entry es key value) j
        ≡ (if j == key then some value else find_entry es j)
  unfolding insert_entry find_entry
  find_entry-insert_entry es key j value = elim (Option-cases (assign_entry es key value)) [
    | inl e ↦ rw (e, insert_entry) (ground arith)
    | inr (es', e) ↦ rw (e, insert_entry) (find_entry-assign_entry es es' key j value e).0
  ]

  insert_entry-KeysDistinct :
      (es : Chain V) (key : ℕ) (value : V)
      → KeysDistinct es
      → KeysDistinct (insert_entry es key value)
  unfolding insert_entry
  insert_entry-KeysDistinct es key value d = elim (Option-cases (assign_entry es key value)) [
    | inl e ↦ rw (e, insert_entry) (assign_entry-none es key value e, d)
    | inr (es', e) ↦ rw (e, insert_entry) ((find_entry-assign_entry es es' key key value e).2 d)
  ]

  pub find-chain_at : (m : AddressMap V) (key : ℕ) → find m key ≡ find_entry (chain_at m key) key
  unfolding find find_entry
  find-chain_at m key = elim (Option-cases (find_cluster m key)) [
    | inl e ↦ rw (e, find, chain_at-missing m key e) refl
    | inr (c, e) ↦ rw (e, find, chain_at-found m c key e) refl
  ]

  chain_at-store :
      (m : AddressMap V) (c : Cluster V) (key j : ℕ) (es : Chain V) (o : Option (Chain V))
      → find_cluster m key ≡ some c
      → chain_at
          (elim o [ some es' ↦ set_block m c key es' | none ↦ set_block (take_entry m) c key es ])
          j
        ≡ (if cluster_id j == cluster_id key && block_id j == block_id key
            then (elim o [ none ↦ es | some es' ↦ es' ])
            else chain_at m j)
  chain_at-store m c key j es (some es') h = chain_at-set_block m c key j es' h
  chain_at-store m c key j es none h =
      chain_at-set_block (take_entry m) c key j es (find_cluster-take_entry m key ∙ h)
      ∙ rw (chain_at-take_entry m j) refl

  chain_at-insert :
      (m : AddressMap V) (key j : ℕ) (value : V)
      → chain_at (insert m key value) j ≡ (
          if cluster_id j == cluster_id key && block_id j == block_id key
          then insert_entry (chain_at m key) key value
          else chain_at m j)
  unfolding insert insert_entry
  chain_at-insert m key j value =
      let m' = (create_cluster m key).0 in
      let c = (create_cluster m key).1 in
      let there = create_cluster-find_cluster m key in
      let chain : chain_at m key ≡ c.blocks (block_id key) =
        sym (chain_at-create_cluster m key key) ∙ chain_at-found m' c key there in
      chain_at-store m' c key j _ _ there ∙ rw (chain, chain_at-create_cluster m key j) refl

  -- What Find reads after a change of one chain.
  find-change :
      (m m' : AddressMap V) (key j : ℕ) (es : Chain V) (o : Option V)
      → chain_at m' j ≡ (
          if cluster_id j == cluster_id key && block_id j == block_id key then es else chain_at m j)
      → find_entry es j ≡ (if j == key then o else find_entry (chain_at m key) j)
      → find m' j ≡ (if j == key then o else find m j)
  find-change m m' key j es o changed entry =
      rw (find-chain_at m' j, changed, find-chain_at m j)
        (elim (Bool-cases (cluster_id j == cluster_id key && block_id j == block_id key)) [
          | inl same ↦ rw (same, chain_at-same m j key same) entry
          | inr other ↦ rw other (ground arith)
        ])

  -- Insert sets the value of its key, and changes no other.
  pub find-insert :
      (m : AddressMap V) (key j : ℕ) (value : V)
      → find (insert m key value) j ≡ (if j == key then some value else find m j)
  find-insert m key j value =
      find-change m (insert m key value) key j _ (some value) (chain_at-insert m key j value)
        (find_entry-insert_entry (chain_at m key) key j value)

  pub insert-IsValid :
      (m : AddressMap V) (key : ℕ) (value : V) → IsValid m → IsValid (insert m key value)
  insert-IsValid m key value v = λ j.
      rw (chain_at-insert m key j value)
        (elim (Bool-cases (cluster_id j == cluster_id key && block_id j == block_id key)) [
          | inl same ↦ rw same (insert_entry-KeysDistinct (chain_at m key) key value (v key))
          | inr other ↦ rw other (v j)
        ])

  -- A key that is not there is not removed, and nothing changes.
  find_and_remove-missing :
      (m : AddressMap V) (key : ℕ)
      → unlink_entry (chain_at m key) key ≡ none
      → find_and_remove m key ≡ (none, m)
  unfolding find_and_remove
  find_and_remove-missing m key h = elim (Option-cases (find_cluster m key)) [
    | inl e ↦ rw (e, find_and_remove) refl
    | inr (c, e) ↦ rw (e, find_and_remove, sym (chain_at-found m c key e), h, find_and_remove) refl
  ]

  find_and_remove-found :
      (m : AddressMap V) (key : ℕ) (v : V) (es : Chain V)
      → unlink_entry (chain_at m key) key ≡ some (v, es)
      → (m' : AddressMap V) × (find_and_remove m key ≡ (some v, m'))
        × (m'.free ≡ m.free + 1)
        × ((j : ℕ)
            → chain_at m' j ≡ (
                if cluster_id j == cluster_id key && block_id j == block_id key
                then es
                else chain_at m j))
  unfolding find_and_remove unlink_entry
  find_and_remove-found m key v es h = elim (Option-cases (find_cluster m key)) [
    | inl e ↦ absurd (ground (arith, chain_at-missing m key e))
    | inr (c, e) ↦
        let m' = set_block m c key es in
        let taken : unlink_entry (c.blocks (block_id key)) key ≡ some (v, es) =
          ap (λ ch. unlink_entry ch key) (sym (chain_at-found m c key e)) ∙ h in
        (
          record m' { free = m'.free + 1 },
          rw (e, find_and_remove, taken, find_and_remove) refl,
          ap (λ n. n + 1) (set_block-free m c key es),
          λ j. chain_at-free m' (m'.free + 1) j ∙ chain_at-set_block m c key j es e,
        )
  ]

  -- FindAndRemove answers what Find would, removes the key if it is there, and changes no other.
  pub find-find_and_remove :
      (m : AddressMap V) (key j : ℕ)
      → IsValid m
      → ((find_and_remove m key).0 ≡ find m key)
        × (find (find_and_remove m key).1 j ≡ (if j == key then none else find m j))
        × IsValid (find_and_remove m key).1
  find-find_and_remove m key j valid = elim (Option-cases (unlink_entry (chain_at m key) key)) [
    | inl e ↦
        let absent : find m key ≡ none =
          find-chain_at m key ∙ unlink_entry-none (chain_at m key) key e in
        rw (find_and_remove-missing m key e) (sym absent, ground arith, valid)
    | inr ((v, es), e) ↦
        let (m', done, _, changed) = find_and_remove-found m key v es e in
        let (was, now, _, distinct) = unlink_entry-some (chain_at m key) es key j v (valid key) e in
        rw done (
          sym (find-chain_at m key ∙ was),
          find-change m m' key j es none (changed j) now,
          λ i.
              rw (changed i)
                (elim (Bool-cases (cluster_id i == cluster_id key && block_id i == block_id key)) [
                  | inl same ↦ rw same distinct
                  | inr other ↦ rw other (valid i)
                ]),
        )
  ]

  pub find-new : (j : ℕ) → find (new {V = V}) j ≡ none
  unfolding find_entry
  find-new j = find-chain_at new j ∙ ap (λ es. find_entry es j) (chain_at-new j)

pub new-IsValid : (V : Type 0) → IsValid (new {V = V})
new-IsValid V = λ j. subst KeysDistinct (sym (chain_at-new j)) tt
