-- ===== src/Merkle/Tests.antt =====
-- The theorems on src/openwright/merkle.py at concrete inputs.
use openwright.Merkle.Frontier.Head.{root-from_leaves}
use openwright.Merkle.Consistency.Sizes.{IsDigest}
use openwright.Merkle.Consistency.Complete.{verify_consistency-consistency_proof}
use openwright.Merkle.Consistency.Sound.{verify_consistency_sound, verify_consistency-unsized}
use openwright.Merkle.Consistency.{verify_consistency, join_first}
use openwright.Merkle.Shards.{
  verify_sharded_inclusion, verify_sharded_inclusion_sound, shard_super_root,
}
use openwright.Merkle.Frontier.{root, from_leaves}
use openwright.Merkle.Binding.{verify_inclusion_sound}
use openwright.Merkle.Inclusion.{verify_inclusion-inclusion_proof}
use openwright.Merkle.Pow2.{largest_pow2_lt}
use openwright.Common.{
  bytes_eq, ℕ, ◌≡◌, refl, ◌≢◌, ◌⊎◌, true, some, List, [], ◌∷◌, ◌++◌, arith, length, take, All,
  Bytes, Collision, toy_sha256, toy_sha256_sized,
}
use openwright.Merkle.{
  tree_hash, inclusion_proof, verify_inclusion, leaf_hash, largest_pow2_lt, node_hash,
  consistency_proof, advance, join,
}

abbrev leaf : ℕ → Bytes
leaf n = leaf_hash toy_sha256 (n ∷ [])

abbrev five : List Bytes
five = leaf 10 ∷ leaf 11 ∷ leaf 12 ∷ leaf 13 ∷ leaf 14 ∷ []

pow2_of_five : largest_pow2_lt 5 ≡ 4
unfolding largest_pow2_lt
pow2_of_five = refl

verify_inclusion-inclusion_proof_example :
    (path : List Bytes) × (inclusion_proof toy_sha256 five 4 ≡ some path)
    × (verify_inclusion toy_sha256 4 5 (leaf 14) path (tree_hash toy_sha256 five) ≡ true)
verify_inclusion-inclusion_proof_example =
    verify_inclusion-inclusion_proof toy_sha256 five 4 (leaf 14) refl

abbrev path_of_four : List Bytes
path_of_four = tree_hash toy_sha256 (take 4 five) ∷ []

accepted_four :
    verify_inclusion toy_sha256 4 5 (leaf 14) path_of_four (tree_hash toy_sha256 five) ≡ true
unfolding verify_inclusion bytes_eq tree_hash largest_pow2_lt node_hash leaf_hash
accepted_four = refl

size_of_leaf : length (leaf 14) ≡ 32
unfolding leaf_hash
size_of_leaf = refl

verify_inclusion_sound_example : (leaf 14 ≡ leaf 14) ⊎ Collision toy_sha256
verify_inclusion_sound_example =
    verify_inclusion_sound toy_sha256 toy_sha256_sized five 4 (leaf 14) (leaf 14) path_of_four refl
      size_of_leaf size_of_leaf accepted_four

root-from_leaves_example :
    (root toy_sha256 (from_leaves toy_sha256 five) ≡ tree_hash toy_sha256 five)
    × ((from_leaves toy_sha256 five).count ≡ 5)
root-from_leaves_example = root-from_leaves toy_sha256 five

abbrev two_roots : List Bytes
two_roots = leaf 1 ∷ leaf 2 ∷ []

sharded_accepted :
    verify_sharded_inclusion toy_sha256
      (leaf 2)
      0
      1
      []
      (leaf 2)
      1
      2
      (leaf_hash toy_sha256 (leaf 1) ∷ [])
      (shard_super_root toy_sha256 two_roots)
    ≡ true
unfolding bytes_eq verify_sharded_inclusion verify_inclusion shard_super_root tree_hash
    largest_pow2_lt node_hash leaf_hash
sharded_accepted = refl

verify_sharded_inclusion_sound_example :
    ((leaf 2 ≡ leaf 2) × (verify_inclusion toy_sha256 0 1 (leaf 2) [] (leaf 2) ≡ true))
    ⊎ Collision toy_sha256
verify_sharded_inclusion_sound_example =
    verify_sharded_inclusion_sound toy_sha256 toy_sha256_sized two_roots 1 0 1 (leaf 2) (leaf 2)
      (leaf 2) [] (leaf_hash toy_sha256 (leaf 1) ∷ []) refl sharded_accepted

verify_consistency-consistency_proof_example :
    (proof : List Bytes) × (consistency_proof toy_sha256 five 3 ≡ some proof)
    × (verify_consistency toy_sha256 3 5
          (tree_hash toy_sha256 (take 3 five))
          (tree_hash toy_sha256 five)
          proof
        ≡ true)
verify_consistency-consistency_proof_example =
    verify_consistency-consistency_proof toy_sha256 3 five (omega arith) (omega arith)

abbrev proof_of_four : List Bytes
proof_of_four = leaf 14 ∷ []

accepted_first :
    verify_consistency toy_sha256 4 5
      (tree_hash toy_sha256 (take 4 five))
      (tree_hash toy_sha256 five)
      proof_of_four
    ≡ true
unfolding bytes_eq advance join join_first verify_consistency tree_hash largest_pow2_lt node_hash
    leaf_hash
accepted_first = refl

digests :
    All IsDigest five × IsDigest (tree_hash toy_sha256 (take 4 five)) × All IsDigest proof_of_four
unfolding leaf_hash tree_hash largest_pow2_lt node_hash
digests = omega arith

verify_consistency_sound_example :
    (tree_hash toy_sha256 (take 4 five) ≡ tree_hash toy_sha256 (take 4 five)) ⊎ Collision toy_sha256
verify_consistency_sound_example =
    verify_consistency_sound toy_sha256 toy_sha256_sized 4 five (tree_hash toy_sha256 (take 4 five))
      proof_of_four (omega arith) (omega arith) digests.0 digests.1 digests.2 accepted_first

leaf_2_IsDigest : IsDigest (leaf 2)
unfolding leaf_hash
leaf_2_IsDigest = omega arith

verify_consistency-unsized_example :
    (verify_consistency toy_sha256 3 4
        (node_hash toy_sha256 (node_hash toy_sha256 (leaf 0) (leaf 1)) (leaf 2 ++ 1 ∷ []))
        (tree_hash toy_sha256 (leaf 0 ∷ leaf 1 ∷ leaf 2 ∷ (1 ∷ [] ++ 2 ∷ 3 ∷ []) ∷ []))
        ((leaf 2 ++ 1 ∷ []) ∷ (2 ∷ 3 ∷ []) ∷ node_hash toy_sha256 (leaf 0) (leaf 1) ∷ [])
      ≡ true)
    × ((node_hash toy_sha256 (node_hash toy_sha256 (leaf 0) (leaf 1)) (leaf 2 ++ 1 ∷ [])
          ≢ tree_hash toy_sha256 (leaf 0 ∷ leaf 1 ∷ leaf 2 ∷ []))
        ⊎ Collision toy_sha256)
verify_consistency-unsized_example =
    verify_consistency-unsized toy_sha256 toy_sha256_sized (leaf 0) (leaf 1) (leaf 2) (1 ∷ [])
      (2 ∷ 3 ∷ []) (leaf 0) (leaf 1) (leaf 2) leaf_2_IsDigest (λ e. cc) leaf_2_IsDigest
