-- ===== src/Witness/Tests.antt =====
-- The theorems on src/openwright/witness.py at concrete inputs.
use openwright.Merkle.Pow2.{largest_pow2_lt}
use openwright.Merkle.Consistency.Sizes.{IsDigest, tree_hash-IsDigest}
use openwright.Canonical.{clean}
use openwright.Merkle.Consistency.{verify_consistency, join_first}
use openwright.Witness.Endorsed.{
  cosign_no_rewrite, verify_cosignature-cosign, cosign_state, cosign_same_size,
}
use openwright.Witness.{
  WitnessCosignature, cosign, verify_cosignature, cosignature, check_extension, ok,
  verify_consistency, unhex_all,
}
use openwright.Signing.Toy.{toy_platform, toy_key, toy_Signs, toy_dumps}
use openwright.Merkle.{tree_hash, leaf_hash, node_hash, advance, join}
use openwright.Signing.{Checkpoint, key_id_for, signing_bytes, KeySource, verify}
use openwright.Common.{
  bytes_eq, hex, fromhex, ℕ, ◌≡◌, refl, ◌⊎◌, true, none, some, List, [], ◌∷◌, ◌++◌, arith, length,
  take, All, Bytes, Collision, codes, toy_sha256, toy_sha256_sized,
}

abbrev leaf : ℕ → Bytes
leaf n = leaf_hash toy_sha256 (n ∷ [])

abbrev producer : Bytes
producer = 9 ∷ []

abbrev unsigned : List Bytes → Checkpoint
unsigned ls = record {
  origin = codes "log";
  tree_size = length ls;
  root_hash = hex (tree_hash toy_sha256 ls);
  timestamp = codes "now";
  public_key_id = key_id_for toy_platform producer;
  signature = [];
}

abbrev head : List Bytes → Checkpoint
head ls = record (unsigned ls) {
  signature = elim (signing_bytes toy_platform (unsigned ls)) [
    | none ↦ []
    | some b ↦ producer ++ b
  ];
}

abbrev witness_key : KeySource
witness_key = toy_key (8 ∷ [])

abbrev two : List Bytes
two = leaf 1 ∷ leaf 2 ∷ []

abbrev three : List Bytes
three = leaf 1 ∷ leaf 2 ∷ leaf 3 ∷ []

abbrev cosig_of : Checkpoint → WitnessCosignature
cosig_of cp =
    cosignature toy_platform witness_key cp
      (elim (signing_bytes toy_platform cp) [ none ↦ [] | some b ↦ b ])

endorsed :
    (cosign toy_platform witness_key (some (head two)) (head three) producer (hex (leaf 3) ∷ [])).0
    ≡ ok (cosig_of (head three))
unfolding cosign check_extension verify_consistency tree_hash toy_dumps clean verify bytes_eq hex
    node_hash largest_pow2_lt leaf_hash fromhex advance join_first join
endorsed = refl

leaf-IsDigest : (n : ℕ) → IsDigest (leaf n)
unfolding leaf_hash
leaf-IsDigest n = toy_sha256_sized (0x00 ∷ n ∷ [])

two-IsDigest : All IsDigest two
two-IsDigest = (leaf-IsDigest 1, (leaf-IsDigest 2, tt))

three_read : fromhex (hex (tree_hash toy_sha256 three)) ≡ some (tree_hash toy_sha256 three)
unfolding tree_hash bytes_eq hex node_hash largest_pow2_lt leaf_hash fromhex
three_read = refl

two_read : fromhex (hex (tree_hash toy_sha256 two)) ≡ some (tree_hash toy_sha256 two)
unfolding tree_hash bytes_eq hex node_hash largest_pow2_lt leaf_hash fromhex
two_read = refl

unhexed : unhex_all (hex (leaf 3) ∷ []) ≡ some (leaf 3 ∷ [])
unfolding unhex_all hex leaf_hash fromhex
unhexed = refl

valid_other : verify toy_platform (head (leaf 3 ∷ leaf 4 ∷ [])) producer ≡ true
unfolding tree_hash toy_dumps clean verify bytes_eq hex node_hash largest_pow2_lt leaf_hash
valid_other = refl

cosign_state_example :
    ((cosign toy_platform witness_key (some (head two)) (head three) producer (hex (leaf 3) ∷ [])).1
      ≡ some (head three))
    × (verify toy_platform (head three) producer ≡ true)
cosign_state_example =
    (cosign_state toy_platform witness_key (some (head two)) (head three) producer
        (hex (leaf 3) ∷ [])).1
      (cosig_of (head three)) endorsed

verify_cosignature-cosign_example :
    verify_cosignature toy_platform (head three) (cosig_of (head three)) (8 ∷ []) ≡ true
verify_cosignature-cosign_example =
    verify_cosignature-cosign toy_platform witness_key (some (head two)) (head three) producer
      (hex (leaf 3) ∷ []) (cosig_of (head three)) (toy_Signs (8 ∷ [])) endorsed

cosign_no_rewrite_example :
    (tree_hash toy_sha256 two ≡ tree_hash toy_sha256 (take 2 three)) ⊎ Collision toy_sha256
cosign_no_rewrite_example =
    cosign_no_rewrite toy_platform witness_key toy_sha256_sized (head two) (head three) producer
      (hex (leaf 3) ∷ []) (cosig_of (head three)) three (tree_hash toy_sha256 two) (leaf 3 ∷ [])
      endorsed (omega arith) (omega arith) refl three_read two_read unhexed
      (leaf-IsDigest 1, (leaf-IsDigest 2, (leaf-IsDigest 3, tt)))
      (tree_hash-IsDigest toy_sha256 toy_sha256_sized two two-IsDigest) (leaf-IsDigest 3, tt)

cosign_same_size_example :
    (c : WitnessCosignature) × (cosign toy_platform witness_key
        (some (head two))
        (head (leaf 3 ∷ leaf 4 ∷ []))
        producer
        []
      ≡ (ok c, some (head (leaf 3 ∷ leaf 4 ∷ []))))
    × (c.root_hash ≡ hex (tree_hash toy_sha256 (leaf 3 ∷ leaf 4 ∷ [])))
cosign_same_size_example =
    cosign_same_size toy_platform witness_key (head two) (head (leaf 3 ∷ leaf 4 ∷ [])) producer []
      valid_other refl
