-- ===== src/Ledger/Tests.antt =====
-- The theorems on src/openwright/ledger.py at concrete inputs.
use openwright.Ledger.Toy.{
  one, keep, start, one-InStep, committed, event, toy_IsHash, start-InStep, first_commit,
}
use openwright.Merkle.Shards.{verify_sharded_inclusion}
use openwright.Ledger.Sharded.{
  sharded_inclusion_proof, snapshot, super_root, sharded_inclusion_proof-snapshot, shard_roots,
  shards_field,
}
use openwright.Ledger.TornTail.{
  NoNewline, heal_torn_tail, file_of, ends_with_newline, line, rfind, heal_torn_tail-crash,
}
use openwright.Merkle.Consistency.{verify_consistency}
use openwright.Merkle.{verify_inclusion}
use openwright.Ledger.Proofs.{
  open_ledger-Run, Run, step, stop, inclusion_proof_hex-Run, consistency_proof_hex-Run,
}
use openwright.Merkle.Frontier
use openwright.Signing.Toy.{toy_platform, toy_dumps}
use openwright.Ledger.Backends.{in_memory, in_memory-IsAppendOnly}
use openwright.Canonical.{clean}
use openwright.Ledger.Invariant.{Commits, InStep, commit-InStep, InStep}
use openwright.Ledger.{
  ComplianceEvent, Ledger, commit, commit_leaf, open_ledger, inclusion_proof_hex,
  consistency_proof_hex, root_hex, all_leaf_bytes, leaf_hash,
}
use openwright.Common.{
  hex, ◌<◌, ◌≡◌, refl, true, none, some, List, [], ◌∷◌, ◌++◌, map, arith, length, get_elem?, take,
  All, Bytes, codes, IsByte, toy_sha256,
}

commit-InStep_example :
    (content : Bytes) × Commits toy_platform in_memory start (committed start 1).0 one content
commit-InStep_example =
    commit-InStep toy_platform in_memory toy_IsHash in_memory-IsAppendOnly keep start (event 1)
      (codes "now") (committed start 1).0 one start-InStep first_commit

abbrev two : Ledger (List ComplianceEvent)
two = (committed one 2).1

second_commit :
    commit toy_platform in_memory keep one (event 2) (codes "now") ≡ some (committed one 2)
unfolding commit toy_dumps clean commit_leaf in_memory
second_commit = refl

one_to_two : Run toy_platform in_memory keep one two
one_to_two = step one (event 2) (codes "now") (committed one 2).0 two two second_commit (stop two)

empty : in_memory.iter_records [] ≡ []
unfolding in_memory
empty = refl

opened_empty : open_ledger toy_platform in_memory [] ≡ some start
unfolding open_ledger in_memory all_leaf_bytes Frontier.from_leaves
opened_empty = refl

open_ledger-Run_example :
    (l' : Ledger (List ComplianceEvent)) × (open_ledger toy_platform in_memory two.store ≡ some l')
    × (l'.store ≡ two.store)
    × (l'.leaves ≡ two.leaves)
    × (root_hex toy_platform in_memory l' ≡ root_hex toy_platform in_memory two)
    × InStep toy_platform in_memory l'
open_ledger-Run_example =
    open_ledger-Run toy_platform in_memory keep toy_IsHash in_memory-IsAppendOnly [] start two empty
      opened_empty
      (step start (event 1) (codes "now") (committed start 1).0 one two first_commit one_to_two)

abbrev first_leaf : Bytes
first_leaf = elim (get_elem? one.leaves 0) [ none ↦ [] | some h ↦ h ]

first_leaf_found : get_elem? one.leaves 0 ≡ some first_leaf
unfolding commit toy_dumps clean commit_leaf in_memory
first_leaf_found = refl

inclusion_proof_hex-Run_example :
    (path : List Bytes) × (inclusion_proof_hex toy_platform in_memory two 0
        (some (length one.leaves))
      ≡ some (map hex path))
    × (verify_inclusion toy_sha256 0
          (length one.leaves)
          first_leaf
          path
          (Frontier.root toy_sha256 one.tree)
        ≡ true)
inclusion_proof_hex-Run_example =
    inclusion_proof_hex-Run toy_platform in_memory keep toy_IsHash in_memory-IsAppendOnly one two 0
      first_leaf one-InStep one_to_two first_leaf_found

one_leaf : 0 < length one.leaves
unfolding commit toy_dumps clean commit_leaf in_memory
one_leaf = omega arith

consistency_proof_hex-Run_example :
    (proof : List Bytes) × (consistency_proof_hex toy_platform in_memory two
        (length one.leaves)
        none
      ≡ some (map hex proof))
    × (verify_consistency toy_sha256
          (length one.leaves)
          (length two.leaves)
          (Frontier.root toy_sha256 one.tree)
          (Frontier.root toy_sha256 two.tree)
          proof
        ≡ true)
consistency_proof_hex-Run_example =
    consistency_proof_hex-Run toy_platform in_memory keep toy_IsHash in_memory-IsAppendOnly one two
      one-InStep one_leaf one_to_two

no_newline : NoNewline (3 ∷ 4 ∷ [])
no_newline = ((λ e. cc), ((λ e. cc), tt))

heal_torn_tail-crash_example :
    heal_torn_tail (file_of ((1 ∷ 2 ∷ []) ∷ []) ++ take 2 (line (3 ∷ 4 ∷ [])))
    ≡ file_of ((1 ∷ 2 ∷ []) ∷ [])
heal_torn_tail-crash_example =
    (heal_torn_tail-crash ((1 ∷ 2 ∷ []) ∷ []) (3 ∷ 4 ∷ []) 2 no_newline).0 (omega arith)

healed : heal_torn_tail (1 ∷ 10 ∷ 3 ∷ 4 ∷ []) ≡ 1 ∷ 10 ∷ []
unfolding heal_torn_tail ends_with_newline rfind
healed = refl

roots_are_bytes : All (All IsByte) (shard_roots toy_platform in_memory (one ∷ one ∷ []))
unfolding shard_roots commit toy_dumps clean commit_leaf in_memory Frontier.root Frontier.append
    openwright.Merkle.leaf_hash hex
roots_are_bytes = omega arith

-- The other shard takes a commit between the two reads.
sharded_inclusion_proof-snapshot_example :
    (path : List Bytes) × (super : List Bytes) × (sharded_inclusion_proof toy_platform in_memory
        (two ∷ one ∷ [])
        0
        0
        (some (
          shards_field toy_platform in_memory
            (snapshot toy_platform in_memory (one ∷ start ∷ []) (one ∷ one ∷ []))))
      ≡ some (record {
        shard_index = 0;
        num_shards = 2;
        leaf_index = 0;
        shard_size = length one.leaves;
        shard_root = hex (Frontier.root toy_sha256 one.tree);
        shard_proof = map hex path;
        super_proof = map hex super;
      }))
    × (verify_sharded_inclusion toy_sha256 first_leaf 0
          (length one.leaves)
          path
          (Frontier.root toy_sha256 one.tree)
          0
          2
          super
          (super_root toy_platform in_memory (one ∷ one ∷ []))
        ≡ true)
sharded_inclusion_proof-snapshot_example =
    sharded_inclusion_proof-snapshot toy_platform in_memory keep toy_IsHash in_memory-IsAppendOnly
      (one ∷ start ∷ []) (one ∷ one ∷ []) (two ∷ one ∷ []) 0 0 one two first_leaf refl refl
      roots_are_bytes refl refl refl one-InStep one_to_two first_leaf_found
