-- ===== src/Ledger.antt =====
-- src/openwright/ledger.py (`Ledger`), with the determinism helpers of src/openwright/events.py.
-- The backend is an interface; pydantic's dump of an event is its parts here.
pub mod Backends
pub mod TornTail
pub mod Sharded
pub mod Records
pub mod Invariant
pub mod Attested
pub mod Proofs
pub mod Toy
mod Tests
use mathlib.Core.Option
use openwright.Common.{
  hex, fromhex, ℕ, ◌≡◌, Option, none, some, List, [], ◌∷◌, ◌++◌, map, ◌==◌, if◌then◌else◌, length,
  get_elem?, take, Bytes, Text, codes,
}
use openwright.Canonical.{Value, Fields, canonical_bytes}
use openwright.Merkle.{leaf_hash, inclusion_proof, consistency_proof}
use openwright.Merkle.Frontier
use openwright.Merkle.Frontier.{IncrementalMerkleTree}
use openwright.Signing.{Platform, KeySource, Checkpoint, sign_checkpoint}

-- Assigned at commit time.
pub record LedgerFields : Type 0 where
  pub leaf_hash : Text
  pub leaf_index : ℕ
  pub committed_at : Text
  pub retention_until : Option Text

-- `body` is the dump of every field but `event_id` and `ledger`.
pub record ComplianceEvent : Type 0 where
  pub event_id : Text
  pub body : Fields
  pub ledger : Option LedgerFields

-- The storage contract; `none` of `append_record` is an append that raised.
pub record LedgerBackend (B : Type 0) : Type 0 where
  pub append_record : B → ComplianceEvent → Option B
  pub size : B → ℕ
  pub iter_records : B → List ComplianceEvent
  pub get_record : B → ℕ → Option ComplianceEvent

-- What an append-only backend promises.
pub record IsAppendOnly {B : Type 0} (backend : LedgerBackend B) : Type 0 where
  pub appended :
      (b : B) (r : ComplianceEvent) (b' : B)
      → backend.append_record b r ≡ some b'
      → backend.iter_records b' ≡ backend.iter_records b ++ r ∷ []
  pub sized : (b : B) → backend.size b ≡ length (backend.iter_records b)
  pub found : (b : B) (i : ℕ) → backend.get_record b i ≡ get_elem? (backend.iter_records b) i

module _ (p : Platform) where
  -- `leaf_content`: everything except `ledger`.
  abbrev pub leaf_content : ComplianceEvent → Value
  leaf_content ev = Value.dict (Fields.field (codes "event_id") (Value.str ev.event_id) ev.body)

  -- `derive_event_id`, over `content_for_id`.
  unfoldable pub derive_event_id : ComplianceEvent → Option Text
  unfolding canonical_bytes
  derive_event_id ev =
      Option.map (λ content. codes "evt_" ++ take 40 (hex (p.sha256 content)))
        (canonical_bytes p.dumps (Value.dict ev.body))

  unfoldable pub finalize_id : ComplianceEvent → Option ComplianceEvent
  unfolding derive_event_id
  finalize_id ev = Option.map (λ i. record ev { event_id = i }) (derive_event_id ev)

  unfoldable pub leaf_content_bytes : ComplianceEvent → Option Bytes
  unfolding canonical_bytes
  leaf_content_bytes ev = canonical_bytes p.dumps (leaf_content ev)

-- The part after the last colon, `ref.split(":")[-1]`.
unfoldable pub last_segment : Text → Text → Text
last_segment seg [] = seg
last_segment seg (c ∷ s) = last_segment (if c == b':' then [] else seg ++ c ∷ []) s

abbrev pub stored_leaf_hash : Option LedgerFields → Text
stored_leaf_hash none = []
stored_leaf_hash (some fields) = fields.leaf_hash

-- `_leaf_bytes_from_record`; `none` is the ValueError.
unfoldable pub leaf_bytes_from_record : ComplianceEvent → Option Bytes
unfolding last_segment
leaf_bytes_from_record r = fromhex (last_segment [] (stored_leaf_hash r.ledger))

unfoldable pub all_leaf_bytes : List ComplianceEvent → Option (List Bytes)
all_leaf_bytes [] = some []
all_leaf_bytes (r ∷ rs) = elim (leaf_bytes_from_record r) [
  | none ↦ none
  | some h ↦ elim (all_leaf_bytes rs) [ none ↦ none | some hs ↦ some (h ∷ hs) ]
]

pub record Ledger (B : Type 0) : Type 0 where
  pub store : B
  pub leaves : List Bytes
  pub tree : IncrementalMerkleTree

module _ (p : Platform) {B : Type 0} (backend : LedgerBackend B) where
  -- `Ledger.__init__`: the leaves come from durable storage.
  unfoldable pub open_ledger : B → Option (Ledger B)
  open_ledger b =
      Option.map (λ hs. record { store = b; leaves = hs; tree = Frontier.from_leaves p.sha256 hs })
        (all_leaf_bytes (backend.iter_records b))

  -- The event as it is committed.
  unfoldable pub stamped : ComplianceEvent → Bytes → ℕ → Text → Option Text → ComplianceEvent
  stamped ev h index committed_at retention_until = record ev {
    ledger = some (record {
      leaf_hash = codes "sha256:" ++ hex h;
      leaf_index = index;
      committed_at = committed_at;
      retention_until = retention_until;
    });
  }

  -- `commit` once the event has its id and the bytes of its leaf. `clock` and `retain` are the
  -- clock's reading and the retention date that `datetime` computes from it.
  unfoldable pub commit_leaf :
      Ledger B → ComplianceEvent → Bytes → Text → Option Text → Option (ComplianceEvent × Ledger B)
  unfolding stamped
  commit_leaf l ev content committed_at retention_until =
      let h = leaf_hash p.sha256 content in
      let ev' = stamped ev h (backend.size l.store) committed_at retention_until in
      elim (backend.append_record l.store ev') [
        | none ↦ none
        | some b ↦ some (
          ev',
          record {
            store = b;
            leaves = l.leaves ++ h ∷ [];
            tree = Frontier.append p.sha256 l.tree h;
          },
        )
      ]

  unfoldable pub commit :
      (Text → Option Text) → Ledger B → ComplianceEvent → Text → Option (ComplianceEvent × Ledger B)
  unfolding finalize_id leaf_content_bytes
  commit retain l event clock = elim (finalize_id p event) [
    | none ↦ none
    | some ev ↦ elim (leaf_content_bytes p ev) [
      | none ↦ none
      | some content ↦ commit_leaf l ev content clock (retain clock)
    ]
  ]

  -- `self._leaves[:tree_size] if tree_size is not None else list(self._leaves)`
  abbrev pub pinned : Option ℕ → List Bytes → List Bytes
  pinned none leaves = leaves
  pinned (some n) leaves = take n leaves

  unfoldable pub inclusion_proof_hex : Ledger B → ℕ → Option ℕ → Option (List Text)
  inclusion_proof_hex l index tree_size =
      Option.map (map hex) (inclusion_proof p.sha256 (pinned tree_size l.leaves) index)

  unfoldable pub consistency_proof_hex : Ledger B → ℕ → Option ℕ → Option (List Text)
  consistency_proof_hex l old_size tree_size =
      Option.map (map hex) (consistency_proof p.sha256 (pinned tree_size l.leaves) old_size)

  unfoldable pub root_hex : Ledger B → Text
  root_hex l = hex (Frontier.root p.sha256 l.tree)

  unfoldable pub checkpoint : KeySource → Text → Ledger B → Text → Option Checkpoint
  unfolding sign_checkpoint root_hex
  checkpoint key origin l timestamp =
      sign_checkpoint p key origin (length l.leaves) (root_hex l) timestamp
