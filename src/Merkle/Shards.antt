-- ===== src/Merkle/Shards.antt =====
-- Shard aggregation of src/openwright/merkle.py: a super-tree over the roots of the shards.
use openwright.Merkle.Binding.{verify_inclusion_sound}
use openwright.Common.{
  ℕ, ◌≡◌, ◌⊎◌, inl, inr, Bool, true, false, not, Option, some, List, ◌∷◌, map, arith, if◌then◌else◌,
  length, get_elem?, length-map, get_elem?-map, Bytes, Collision, eq_or_Collision,
}
use openwright.Merkle.{leaf_hash, tree_hash, inclusion_proof, verify_inclusion}

module _ (sha256 : Bytes → Bytes) where
  unfoldable pub shard_super_root : List Bytes → Bytes
  shard_super_root shard_roots = tree_hash sha256 (map (leaf_hash sha256) shard_roots)

  unfoldable pub shard_super_proof : List Bytes → ℕ → Option (List Bytes)
  shard_super_proof shard_roots shard_index =
      inclusion_proof sha256 (map (leaf_hash sha256) shard_roots) shard_index

  unfoldable pub verify_sharded_inclusion :
      Bytes → ℕ → ℕ → List Bytes → Bytes → ℕ → ℕ → List Bytes → Bytes → Bool
  verify_sharded_inclusion leaf leaf_index shard_size shard_proof shard_root shard_index num_shards
        super_proof super_root =
      if not (verify_inclusion sha256 leaf_index shard_size leaf shard_proof shard_root)
      then false
      else verify_inclusion sha256 shard_index num_shards (leaf_hash sha256 shard_root) super_proof
          super_root

  -- Against an honest super-root an accepted shard root is the root of the shard at that index,
  -- or SHA-256 has a collision: a whole shard cannot be replaced.
  pub verify_sharded_inclusion_sound :
      (sized : (x : Bytes) → length (sha256 x) ≡ 32) (roots : List Bytes) (i m n : ℕ)
      (stored shard_root leaf : Bytes) (p q : List Bytes)
      → get_elem? roots i ≡ some stored
      → verify_sharded_inclusion leaf m n p shard_root i (length roots) q (shard_super_root roots)
        ≡ true
      → ((shard_root ≡ stored) × (verify_inclusion sha256 m n leaf p stored ≡ true))
        ⊎ Collision sha256
  unfolding shard_super_root verify_sharded_inclusion leaf_hash
  verify_sharded_inclusion_sound sized roots i m n stored shard_root leaf p q at_shard accepted =
      let hashed : List Bytes = map (leaf_hash sha256) roots in
      let inner : verify_inclusion sha256 m n leaf p shard_root ≡ true = ground arith in
      let outer : verify_inclusion sha256 i (length hashed) (leaf_hash sha256 shard_root) q
            (tree_hash sha256 hashed)
          ≡ true =
        rw (length-map (leaf_hash sha256) roots) (ground arith) in
      elim (verify_inclusion_sound sha256 sized hashed i (leaf_hash sha256 stored)
        (leaf_hash sha256 shard_root) q (get_elem?-map (leaf_hash sha256) roots i stored at_shard)
        (sized (0x00 ∷ stored)) (sized (0x00 ∷ shard_root)) outer) [
          | inl same ↦ elim (eq_or_Collision sha256 (0x00 ∷ shard_root) (0x00 ∷ stored) same) [
            | inl equal ↦
                let root_same : shard_root ≡ stored = cc in inl (root_same, rw (← root_same) inner)
            | inr collision ↦ inr collision
          ]
          | inr collision ↦ inr collision
        ]
