-- ===== src/Report.antt =====
-- src/openwright/report.py: `build_report`. Identifiers from uuid and the clock are arguments.
pub mod Content
pub mod Signed
pub mod Floats
pub mod Entries
pub mod Gaps
pub mod Packing
pub mod Placed
pub mod Loop
pub mod Cited
pub mod Rederived
pub mod Verified
pub mod Deep
pub mod Built
pub mod Assembled
pub mod Exports
mod Toy
mod Tests
use openwright.Common.{
  ℕ, zero, suc, not, ◌||◌, Option, none, some, List, [], ◌∷◌, Bytes, Text, codes, ◌>>=◌, guard,
}
use openwright.Ledger.{LedgerBackend, Ledger, checkpoint, inclusion_proof_hex}
use openwright.Signing.{Platform, KeySource, Checkpoint, key_id}
use openwright.Canonical.{Value, Fields, canonical_bytes}
use openwright.Crosswalk.Values.{lookup}
use openwright.Dicts.{dict_of, without, set_field}
use openwright.Authz.{require, Capability}
use openwright.Report.Content.{
  CrosswalkResult, Packed, text_field, agent_of, item_of, evidence_gaps, Request, assemble,
}

module _ (p : Platform) where
  -- `_signing_payload`
  unfoldable pub signing_payload : Fields → Option Bytes
  unfolding canonical_bytes without
  signing_payload report = canonical_bytes p.dumps (Value.dict (without (codes "signature") report))

  -- From the signature on.
  unfoldable pub sign_report : KeySource → Fields → Option Fields
  unfolding signing_payload key_id set_field
  sign_report key report = do
    payload ← signing_payload report
    some (
        set_field (codes "signature")
          (Value.dict (
            dict_of (
              (codes "algorithm", Value.str (codes "ed25519"))
              ∷ (codes "public_key_id", Value.str (key_id p key))
              ∷ (codes "signature", Value.str (p.b64encode (key.sign payload)))
              ∷ [])))
          report)

  module _ {B : Type 0} (backend : LedgerBackend B) (l : Ledger B) where
    -- One turn of the loop over the events; `none` is an exception of `get_event`, which reads the
    -- record with its time and its agent, or of the proof.
    unfoldable pub pack : ℕ → ℕ → Option Packed
    unfolding inclusion_proof_hex lookup
    pack tree_size i = do
      ev ← backend.get_record l.store i
      time ← text_field (codes "timestamp") ev.body
      agent ← agent_of ev.body
      path ← inclusion_proof_hex p backend l i (some tree_size)
      some (record { timestamp = time; agent_id = agent; item = item_of ev i path })

    -- The loop, for so many events from an index on.
    unfoldable pub pack_from : ℕ → ℕ → ℕ → Option (List Packed)
    unfolding pack
    pack_from tree_size i zero = some []
    pack_from tree_size i (suc n) = do
      q ← pack tree_size i
      qs ← pack_from tree_size (suc i) n
      some (q ∷ qs)

    -- `checkpoint or ledger.checkpoint(key)`
    unfoldable pub checkpoint_for : KeySource → Text → Text → Option Checkpoint → Option Checkpoint
    unfolding checkpoint
    checkpoint_for key origin now none = checkpoint p backend key origin l now
    checkpoint_for key origin now (some cp) = some cp

    -- `build_report`; `pem_of` is `public_key_pem` of `cryptography`, and `origin` and `now` are
    -- what a checkpoint that is made here has.
    unfoldable pub build_report :
        (Bytes → Text) → KeySource → Text → Text → CrosswalkResult → Request → Option Fields
    unfolding pack_from checkpoint_for evidence_gaps assemble sign_report
    build_report pem_of key origin now cr req = do
      _ ← guard (not req.authorizer || require req.principal Capability.generate_report)
      cp ← checkpoint_for key origin now req.checkpoint
      qs ← pack_from cp.tree_size 0 cp.tree_size
      gaps ← evidence_gaps qs
      sign_report key (assemble req cr cp qs gaps (pem_of key.public_key_raw))
