-- ===== src/Ledger/Proofs.antt =====
-- Commits of src/openwright/ledger.py one after the other, and the proofs that a log gives of its
-- own past.
use openwright.Merkle.Frontier.Head.{root-Represents}
use openwright.Merkle.Consistency.Complete.{verify_consistency-consistency_proof}
use openwright.Merkle.Inclusion.{verify_inclusion-inclusion_proof}
use openwright.Merkle.Frontier
use openwright.Merkle.Consistency.{verify_consistency}
use openwright.Merkle.{verify_inclusion, tree_hash}
use openwright.Ledger.Invariant.{InStep, commit-InStep, open_ledger-InStep, open_ledger_empty}
use openwright.Ledger.Records.{IsHash}
use openwright.Ledger.{
  LedgerBackend, Ledger, ComplianceEvent, IsAppendOnly, commit, inclusion_proof_hex,
  consistency_proof_hex, leaf_hash, open_ledger, root_hex,
}
use openwright.Signing.{Platform}
use openwright.Common.{
  hex, ℕ, ◌≤◌, ◌<◌, ◌≡◌, refl, sym, ap, ◌∙◌, subst, true, Option, none, some, List, [], ◌∷◌, ◌++◌,
  map, append-nil, append_assoc, arith, length, get_elem?, take, length-append, take-append, Bytes,
  Text,
}

module _ (p : Platform) {B : Type 0} (backend : LedgerBackend B) (retain : Text → Option Text) where
  -- Commits that return, from the first log to the second.
  pub data Run : Ledger B → Ledger B → Type 0 where
    stop : (l : Ledger B) → Run l l
    step :
        (l : Ledger B) (event : ComplianceEvent) (clock : Text) (ev' : ComplianceEvent)
        (l' l'' : Ledger B)
        → commit p backend retain l event clock ≡ some (ev', l')
        → Run l' l''
        → Run l l''

  module _ (hash : IsHash p.sha256) (lawful : IsAppendOnly backend) where
    -- Over an append-only backend, and however many events are committed, a log in step stays in
    -- step, and its records and its leaves only grow at the end.
    pub Run-InStep :
        (l l'' : Ledger B)
        → InStep p backend l
        → Run l l''
        → InStep p backend l''
          × ((rs : List ComplianceEvent) × (backend.iter_records l''.store
                ≡ backend.iter_records l.store ++ rs))
          × ((hs : List Bytes) × (l''.leaves ≡ l.leaves ++ hs))
    Run-InStep l _ inv (stop _) = (inv, ([], sym (append-nil _)), ([], sym (append-nil _)))
    Run-InStep l l'' inv (step _ event clock ev' l' _ h run) =
        let (content, c) = commit-InStep p backend hash lawful retain l event clock ev' l' inv h in
        let (after, (rs, records), (hs, leaves)) = Run-InStep l' l'' c.in_step run in
        (
          after,
          (ev' ∷ rs, records ∙ ap (λ s. s ++ rs) c.appended ∙ append_assoc _ (ev' ∷ []) rs),
          (
            _,
            leaves
                ∙ ap (λ s. s ++ hs) c.grown
                ∙ append_assoc _ (leaf_hash p.sha256 content ∷ []) hs,
          ),
        )

    -- Over an append-only backend, and with a hash of 32 bytes, let a log be opened on an empty store
    -- and grow by commits. Then its store opens again, as a log with the same store, leaves and root, which is in step.
    pub open_ledger-Run :
        (b : B) (l l'' : Ledger B)
        → backend.iter_records b ≡ []
        → open_ledger p backend b ≡ some l
        → Run l l''
        → (l' : Ledger B) × (open_ledger p backend l''.store ≡ some l')
          × (l'.store ≡ l''.store)
          × (l'.leaves ≡ l''.leaves)
          × (root_hex p backend l' ≡ root_hex p backend l'')
          × InStep p backend l'
    open_ledger-Run b l l'' none_yet opened run =
        open_ledger-InStep p backend l''
          (Run-InStep l l'' (open_ledger_empty p backend b l none_yet opened) run).0

    -- Over an append-only backend, a log in step that has grown by commits still proves every leaf
    -- of its past against the root it had then, when the proof is pinned to the size it had then.
    pub inclusion_proof_hex-Run :
        (l l'' : Ledger B) (m : ℕ) (leaf : Bytes)
        → InStep p backend l
        → Run l l''
        → get_elem? l.leaves m ≡ some leaf
        → (path : List Bytes) × (inclusion_proof_hex p backend l'' m (some (length l.leaves))
            ≡ some (map hex path))
          × (verify_inclusion p.sha256 m (length l.leaves) leaf path (Frontier.root p.sha256 l.tree)
              ≡ true)
    unfolding inclusion_proof_hex
    inclusion_proof_hex-Run l l'' m leaf inv run h =
        let (after, records, (hs, grown)) = Run-InStep l l'' inv run in
        let (path, made, accepted) = verify_inclusion-inclusion_proof p.sha256 l.leaves m leaf h in
        (
          path,
          rw (grown, take-append (length l.leaves) l.leaves hs refl, made) refl,
          rw (root-Represents p.sha256 l.tree l.leaves inv.represents) accepted,
        )

    -- Over an append-only backend, a log in step that was not empty and has grown by commits proves
    -- that it extends the one it was.
    pub consistency_proof_hex-Run :
        (l l'' : Ledger B)
        → InStep p backend l
        → 0 < length l.leaves
        → Run l l''
        → (proof : List Bytes) × (consistency_proof_hex p backend l'' (length l.leaves) none
            ≡ some (map hex proof))
          × (verify_consistency p.sha256
                (length l.leaves)
                (length l''.leaves)
                (Frontier.root p.sha256 l.tree)
                (Frontier.root p.sha256 l''.tree)
                proof
              ≡ true)
    unfolding consistency_proof_hex
    consistency_proof_hex-Run l l'' inv pos run =
        let (after, records, (hs, grown)) = Run-InStep l l'' inv run in
        let inside : length l.leaves ≤ length l''.leaves =
          rw (grown, length-append l.leaves hs) (omega arith) in
        let (proof, made, accepted) =
          verify_consistency-consistency_proof p.sha256 (length l.leaves) l''.leaves pos inside in
        let past : take (length l.leaves) l''.leaves ≡ l.leaves =
          rw grown (take-append (length l.leaves) l.leaves hs refl) in
        (
          proof,
          rw made refl,
          rw
              (
                root-Represents p.sha256 l.tree l.leaves inv.represents,
                root-Represents p.sha256 l''.tree l''.leaves after.represents,
              )
              (subst
                (λ (ls : List Bytes).
                  verify_consistency p.sha256 (length l.leaves) (length l''.leaves)
                    (tree_hash p.sha256 ls) (tree_hash p.sha256 l''.leaves) proof
                  ≡ true)
                past accepted),
        )
