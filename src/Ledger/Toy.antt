-- ===== src/Ledger/Toy.antt =====
-- A ledger in memory with one committed event, for tests.
use openwright.Merkle.Frontier.Head.{new_tree-Represents}
use openwright.Signing.Toy.{toy_platform, toy_dumps}
use openwright.Ledger.Backends.{in_memory, in_memory-IsAppendOnly}
use openwright.Merkle.Frontier.{new_tree}
use openwright.Canonical.{Fields, Value, clean}
use openwright.Ledger.Invariant.{InStep, commit-InStep}
use openwright.Ledger.{ComplianceEvent, Ledger, all_leaf_bytes, commit, Fields, commit_leaf}
use openwright.Ledger.Records.{IsHash}
use openwright.Common.{
  ℕ, ◌≡◌, refl, Option, none, some, List, [], Text, codes, toy_sha256, toy_sha256_sized,
  toy_sha256-IsByte,
}

pub toy_IsHash : IsHash toy_sha256
toy_IsHash = record { sized = toy_sha256_sized; bytes = toy_sha256-IsByte }

abbrev pub event : ℕ → ComplianceEvent
event n = record {
  event_id = [];
  body = Fields.field (codes "kind") (Value.int n) Fields.empty;
  ledger = none;
}

abbrev pub keep : Text → Option Text
keep clock = none

abbrev pub start : Ledger (List ComplianceEvent)
start = record { store = []; leaves = []; tree = new_tree }

pub start-InStep : InStep toy_platform in_memory start
unfolding all_leaf_bytes in_memory
start-InStep = record { stored = refl; represents = new_tree-Represents toy_sha256; attested = tt }

abbrev pub committed :
    Ledger (List ComplianceEvent) → ℕ → ComplianceEvent × Ledger (List ComplianceEvent)
committed l n = elim (commit toy_platform in_memory keep l (event n) (codes "now")) [
  | none ↦ (event n, l)
  | some done ↦ done
]

abbrev pub one : Ledger (List ComplianceEvent)
one = (committed start 1).1

pub first_commit :
    commit toy_platform in_memory keep start (event 1) (codes "now") ≡ some (committed start 1)
unfolding commit toy_dumps clean commit_leaf in_memory
first_commit = refl

pub one-InStep : InStep toy_platform in_memory one
one-InStep =
    (commit-InStep toy_platform in_memory toy_IsHash in_memory-IsAppendOnly keep start (event 1)
      (codes "now") (committed start 1).0 one start-InStep first_commit).1.in_step
