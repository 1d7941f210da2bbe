-- ===== src/Report/Assembled.antt =====
-- The shape of what `build_report` of src/openwright/report.py returns.
use openwright.Ledger.{LedgerBackend, Ledger}
use openwright.Signing.{Platform, KeySource, Checkpoint}
use openwright.Authz.{require, Capability}
use openwright.Report.{
  build_report, sign_report, signing_payload, checkpoint_for, pack_from, Platform, LedgerBackend,
  KeySource,
}
use openwright.Report.Content.{Request, CrosswalkResult, Packed, assemble, evidence_gaps}
use openwright.Dicts.{set_field}
use openwright.Common.{
  ◌≡◌, sym, not, ◌||◌, some, List, some-injective, Bytes, Text, codes, guard, >>=-elim,
}
use openwright.Canonical.{Value, Items, Fields}

-- What `build_report` returns is an assembled report with a signature.
pub build_report_assembled :
    (p : Platform) {B : Type 0} (backend : LedgerBackend B) (l : Ledger B) (pem_of : Bytes → Text)
    (key : KeySource) (origin now : Text) (cr : CrosswalkResult) (req : Request) (report : Fields)
    → build_report p backend l pem_of key origin now cr req ≡ some report
    → (cp : Checkpoint) × (qs : List Packed) × (gaps : Items) × (pem : Text) × (sig : Value)
      × (report ≡ set_field (codes "signature") sig (assemble req cr cp qs gaps pem))
unfolding build_report sign_report
build_report_assembled p backend l pem_of key origin now cr req report h =
    >>=-elim (guard (not req.authorizer || require req.principal Capability.generate_report)) _ h
      (λ u allowed h1.
        >>=-elim (checkpoint_for p backend l key origin now req.checkpoint) _ h1 (λ cp chosen h2.
          >>=-elim (pack_from p backend l cp.tree_size 0 cp.tree_size) _ h2 (λ qs packed h3.
            >>=-elim (evidence_gaps qs) _ h3 (λ gaps gathered h4.
              >>=-elim (signing_payload p (assemble req cr cp qs gaps (pem_of key.public_key_raw)))
                _ h4
                (λ payload made h5.
                  (cp, qs, gaps, pem_of key.public_key_raw, _, sym (some-injective h5)))))))
