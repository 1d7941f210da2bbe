-- ===== src/Report/Packing.antt =====
-- The events that `build_report` of src/openwright/report.py packs out of a log in step.
use openwright.Common.{
  hex, ℕ, ◌≤◌, ◌<◌, ◌≡◌, refl, sym, ap, ◌∙◌, subst, true, some, List, ◌∷◌, ◌++◌, map, arith,
  some-injective, length, get_elem?, take, All, length-take, get_elem?-take, All-take,
  All-get_elem?, get_elem?-inside, Bytes, codes, IsByte,
}
use openwright.Signing.{Platform}
use openwright.Ledger.{ComplianceEvent, LedgerBackend, Ledger, IsAppendOnly, inclusion_proof_hex}
use openwright.Ledger.Records.{IsHash}
use openwright.Ledger.Invariant.{InStep}
use openwright.Ledger.Attested.{InStep-leaf, InStep-leaves_bytes, AttestedFrom-get}
use openwright.Merkle.{leaf_hash, tree_hash, verify_inclusion}
use openwright.Report.{pack}
use openwright.Report.Content.{item_of}
use openwright.Report.Entries.{IsDump, Stands}
use openwright.Merkle.Inclusion.{verify_inclusion-inclusion_proof}
use openwright.Merkle.Nodes.{inclusion_proof_keeps}

module _ (p : Platform) {B : Type 0} (backend : LedgerBackend B) (l : Ledger B) (n : ℕ)
    (hash : IsHash p.sha256) (lawful : IsAppendOnly backend) (inv : InStep p backend l)
    (inside : n ≤ length l.leaves)
    (dumps : All (λ (r : ComplianceEvent). IsDump r.body) (backend.iter_records l.store)) where
  -- What the loop makes of the event at an index.
  pub record PackedAt (i : ℕ) : Type 0 where
    pub event : ComplianceEvent
    pub path : List Bytes
    pub leaf : Bytes
    pub dumped : IsDump event.body
    pub recorded : get_elem? (backend.iter_records l.store) i ≡ some event
    pub placed : get_elem? (take n l.leaves) i ≡ some leaf
    pub stands : Stands p (tree_hash p.sha256 (take n l.leaves)) n event i path leaf
    pub packed :
        pack p backend l n i
        ≡ some (record {
          timestamp = dumped.time;
          agent_id = dumped.agent;
          item = item_of event i (map hex path);
        })

  leaves_IsByte : All (All IsByte) (take n l.leaves)
  leaves_IsByte = All-take (All IsByte) n l.leaves (InStep-leaves_bytes p backend l hash inv)

  length-pinned : length (take n l.leaves) ≡ n
  length-pinned = omega (arith, length-take n l.leaves)

  pub pack_at : (i : ℕ) → i < n → PackedAt i
  unfolding pack inclusion_proof_hex
  pack_at i below =
      let (leaf, at) = get_elem?-inside l.leaves i (omega (arith, inside)) in
      let (ev, content, found, made, is_leaf) = InStep-leaf p backend l i leaf hash inv at in
      let (j, attested) =
        AttestedFrom-get p 0 (backend.iter_records l.store) i ev inv.attested found in
      let (content', fields, made', committed, text, idx) = attested in
      let same_content : content' ≡ content = some-injective (sym made' ∙ made) in
      let at' : get_elem? (take n l.leaves) i ≡ some leaf =
        get_elem?-take n l.leaves i below ∙ at in
      let (path, proof, accepted) =
        verify_inclusion-inclusion_proof p.sha256 (take n l.leaves) i leaf at' in
      let dump_is =
        All-get_elem? (λ (r : ComplianceEvent). IsDump r.body) (backend.iter_records l.store) i ev
          dumps found in
      record {
        event = ev;
        path = path;
        leaf = leaf;
        dumped = dump_is;
        recorded = found;
        placed = at';
        stands = record {
          fields = fields;
          content = content;
          committed = committed;
          made = made;
          is_leaf = is_leaf;
          leaf_bytes =
              subst (All IsByte) (sym is_leaf) (unfold leaf_hash in hash.bytes (0x00 ∷ content));
          text =
              text
              ∙ ap (λ (c : Bytes). codes "sha256:" ++ hex (leaf_hash p.sha256 c)) same_content
              ∙ ap (λ (h : Bytes). codes "sha256:" ++ hex h) (sym is_leaf);
          clean_body = dump_is.no_ledger;
          path_bytes =
              inclusion_proof_keeps p.sha256 (All IsByte) hash.bytes (take n l.leaves) i path
                leaves_IsByte proof;
          accepted =
              subst
                (λ (k : ℕ).
                  verify_inclusion p.sha256 i k leaf path (tree_hash p.sha256 (take n l.leaves))
                  ≡ true)
                length-pinned accepted;
        };
        packed = rw (lawful.found l.store i, found, dump_is.timed, dump_is.acted, proof) refl;
      }
