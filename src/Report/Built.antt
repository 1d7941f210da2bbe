-- ===== src/Report/Built.antt =====
-- `build_report` of src/openwright/report.py, and `verify_report` of verify.py of what it returns.
use openwright.Report.Verified.{Finishes}
use openwright.Report.Deep.{deep_verify_accepts}
use openwright.Report.Rederived.{AllDifferent, events_in-pack_from}
use openwright.Verify.Report.{finish}
use openwright.Verify.Deep.{crosswalk_content_hash}
use openwright.Crosswalk.{dump}
use openwright.Crosswalk.Schema.{ControlResult}
use openwright.Crosswalk.Values.{truthy}
use openwright.Canonical.Clean.{has_float_items}
use openwright.Canonical.{canonical_bytes}
use openwright.Report.Content.{items_packed}
use openwright.Report.Loop.{loop_all}
use openwright.Report.Floats.{has_float-assemble, canonical_bytes_total}
use openwright.Report.Verified.{checkpoint-Heads, verify_report-accepts}
use openwright.Report.Cited.{Cites}
use openwright.Crosswalk.Evidence.{evaluate-Backed, Backed}
use openwright.Ledger.Attested.{InStep-leaves_bytes}
use openwright.Merkle.Nodes.{tree_hash_keeps}
use openwright.Verify.Report.{verify_report}
use openwright.Canonical.Clean.{has_float_fields}
use openwright.Crosswalk.Evaluate.{evaluate}
use openwright.Report.Entries.{IsDump}
use openwright.Ledger.Proofs.{Run, Run-InStep}
use openwright.Ledger.Invariant.{InStep}
use openwright.Ledger.Records.{IsHash}
use openwright.Crosswalk.Schema.{Crosswalk, Control}
use openwright.Verify.{Libraries, VerificationResult}
use openwright.Canonical.{Value, Items, Fields}
use openwright.Common.{
  ℕ, ◌≤◌, ◌≡◌, refl, ap, ◌∙◌, Bool, true, false, not, ◌||◌, Option, some, List, [], ◌∷◌, map, arith,
  length, take, All, length-append, take-append, All-unmap, All-imp, Bytes, Text, IsByte,
}
use openwright.Report.Loop.{id_value}
use openwright.Report.Signed.{signed_report}
use openwright.Report.{build_report, checkpoint_for, signing_payload, pack_from, sign_report}
use openwright.Report.Content.{Request, CrosswalkResult, assemble, Packed, evidence_gaps, Reported}
use openwright.Ledger.{ComplianceEvent, Ledger, LedgerBackend, checkpoint, IsAppendOnly}
use openwright.Signing.{Platform, KeySource, Signs, Checkpoint}
use openwright.Authz.{require, Capability}

str_ids :
    (rs : List ComplianceEvent)
    → map id_value rs
      ≡ map (λ (i : Text). Value.str i) (map (λ (r : ComplianceEvent). r.event_id) rs)
str_ids [] = refl
str_ids (r ∷ rs) = ap (λ (vs : List Value). id_value r ∷ vs) (str_ids rs)

abbrev IsClear : Fields → Type 0
IsClear d = has_float_fields d ≡ false

abbrev ids_in : List ComplianceEvent → List Text
ids_in = map (λ (r : ComplianceEvent). r.event_id)

-- The controls that `evaluate` returns cite events that it was given, and the crosswalk.
evaluated_controls :
    (dump_crosswalk : Crosswalk → Value) (crosswalk : Crosswalk) (cr : CrosswalkResult)
    (events : List ComplianceEvent)
    → All (λ (c : Control). has_float_fields c.citation ≡ false) crosswalk.controls
    → evaluate dump_crosswalk crosswalk events ≡ some (map (λ (c : Reported). c.result) cr.controls)
    → All (Cites (ids_in events)) cr.controls
      × All (λ (c : Reported). has_float_fields c.result.citation ≡ false) cr.controls
evaluated_controls dump_crosswalk crosswalk cr events citations evaluated =
    let kind = λ (c : Reported). Backed (ids_in events) IsClear c.result in
    let backed =
      All-unmap (Backed (ids_in events) IsClear) (λ (c : Reported). c.result) cr.controls
        (evaluate-Backed IsClear dump_crosswalk crosswalk events _ citations evaluated) in
    (
      All-imp kind (Cites (ids_in events)) cr.controls (λ c b. b.events) backed,
      All-imp kind (λ (c : Reported). IsClear c.result.citation) cr.controls (λ c b. b.citation)
          backed,
    )

-- What is signed of a report without floats.
signing_payload_total :
    (p : Platform) (req : Request) (cr : CrosswalkResult) (cp : Checkpoint) (qs : List Packed)
    (gaps : Items) (pem : Text)
    → ((d : Fields) → req.period ≡ some d → has_float_fields d ≡ false)
    → All (λ (c : Reported). has_float_fields c.result.citation ≡ false) cr.controls
    → has_float_items (items_packed qs) ≡ false
    → has_float_items gaps ≡ false
    → (payload : Bytes) × (signing_payload p (assemble req cr cp qs gaps pem) ≡ some payload)
unfolding signing_payload canonical_bytes
signing_payload_total p req cr cp qs gaps pem period citations packed found =
    canonical_bytes_total p.dumps _
      (has_float-assemble req cr cp qs gaps pem period citations packed found)

-- The report of a packed log.
build_report_makes :
    (p : Platform) {B : Type 0} (backend : LedgerBackend B) (l : Ledger B) (pem_of : Bytes → Text)
    (key : KeySource) (signs : Signs p key) (origin now : Text) (cr : CrosswalkResult)
    (req : Request) (cp : Checkpoint) (qs : List Packed) (gaps : Items) (payload : Bytes)
    → (not req.authorizer || require req.principal Capability.generate_report) ≡ true
    → checkpoint_for p backend l key origin now req.checkpoint ≡ some cp
    → pack_from p backend l cp.tree_size 0 cp.tree_size ≡ some qs
    → evidence_gaps qs ≡ some gaps
    → signing_payload p (assemble req cr cp qs gaps (pem_of key.public_key_raw)) ≡ some payload
    → build_report p backend l pem_of key origin now cr req
      ≡ some (signed_report p key signs req cr cp qs gaps (pem_of key.public_key_raw) payload)
unfolding build_report sign_report
build_report_makes p backend l pem_of key signs origin now cr req cp qs gaps payload allowed head
      packed gathered made =
    rw (allowed, head, packed, gathered, made) refl

-- The report, for whatever mode of the verifier that finishes on it.
built_accepted :
    (p : Platform) {B : Type 0} (backend : LedgerBackend B) (w : Libraries) (pem_of : Bytes → Text)
    (retain : Text → Option Text) (key : KeySource) (deep : Bool) (read_with : Option Crosswalk)
    (origin origin' now made_at : Text) (crosswalk : Crosswalk) (cr : CrosswalkResult)
    (req : Request) (l0 l : Ledger B) (cp : Checkpoint)
    → IsHash p.sha256
    → IsAppendOnly backend
    → Signs p key
    → w.pem_key (pem_of key.public_key_raw) ≡ some key.public_key_raw
    → InStep p backend l0
    → Run p backend retain l0 l
    → checkpoint p backend key origin l0 made_at ≡ some cp
    → checkpoint_for p backend l key origin' now req.checkpoint ≡ some cp
    → (not req.authorizer || require req.principal Capability.generate_report) ≡ true
    → All (λ (r : ComplianceEvent). IsDump r.body) (backend.iter_records l.store)
    → evaluate w.dump_crosswalk crosswalk (take (length l0.leaves) (backend.iter_records l.store))
      ≡ some (map (λ (c : Reported). c.result) cr.controls)
    → All (λ (c : Control). has_float_fields c.citation ≡ false) crosswalk.controls
    → ((d : Fields) → req.period ≡ some d → has_float_fields d ≡ false)
    → ((qs : List Packed) (gaps : Items) (payload : Bytes)
        → pack_from p backend l (length l0.leaves) 0 (length l0.leaves) ≡ some qs
        → (signs : Signs p key)
        → Finishes p w deep read_with key signs req cr cp qs gaps
            (pem_of key.public_key_raw)
            payload)
    → (report : Fields) × (build_report p backend l pem_of key origin' now cr req ≡ some report)
      × ((res : VerificationResult) × (verify_report p w deep read_with report
              (some key.public_key_raw)
            ≡ some res)
          × (res.valid ≡ true))
built_accepted p backend w pem_of retain key deep read_with origin origin' now made_at crosswalk cr
      req l0 l cp hash lawful signs pem inv0 run headed chosen allowed dumps evaluated citations
      period finishes =
    let (inv, records, (hs, grown)) = Run-InStep p backend retain hash lawful l0 l inv0 run in
    let n : ℕ = length l0.leaves in
    let past : take n l.leaves ≡ l0.leaves = rw grown (take-append n l0.leaves hs refl) in
    let inside : n ≤ length l.leaves = rw (grown, length-append l0.leaves hs) (omega arith) in
    let heads = checkpoint-Heads p backend key origin made_at l0 cp inv0 headed in
    let lo = loop_all p backend l n hash lawful inv inside dumps in
    let events = take n (backend.iter_records l.store) in
    let (cited, float_free) =
      evaluated_controls w.dump_crosswalk crosswalk cr events citations evaluated in
    let pem_text : Text = pem_of key.public_key_raw in
    let (payload, made) =
      signing_payload_total p req cr cp lo.qs lo.gaps pem_text period float_free lo.clear
        lo.gaps_clear in
    let packed : pack_from p backend l cp.tree_size 0 cp.tree_size ≡ some lo.qs =
      rw (heads.sized) lo.packed in
    let root_bytes =
      tree_hash_keeps p.sha256 (All IsByte) hash.bytes l0.leaves
        (InStep-leaves_bytes p backend l0 hash inv0) in
    (
      signed_report p key signs req cr cp lo.qs lo.gaps pem_text payload,
      build_report_makes p backend l pem_of key signs origin' now cr req cp lo.qs lo.gaps payload
          allowed chosen packed lo.gathered made,
      verify_report-accepts p w deep read_with key signs req cr cp lo.qs lo.gaps pem_text payload
          pem_of l0.leaves lo.seen' (ids_in events) pem refl made heads root_bytes
          (rw past at lo.looped) lo.leaf_ok lo.incl_ok (rw past at lo.placed)
          (lo.ids ∙ str_ids events) cited (finishes lo.qs lo.gaps payload lo.packed signs),
    )

-- Over an append-only backend, and with a hash of 32 bytes and a key whose signatures are accepted,
-- `build_report` gives a report, and `verify_report` accepts it under that key. The checkpoint is
-- given, or is made here; either way it is one that this key has signed of a log in
-- step, from which the log has since grown by commits. The caller may generate reports, the
-- controls are those of `evaluate` over the events under the checkpoint, every record dumps with a
-- time and an agent, no float stands in the period or in a citation, and PEM text reads back.
pub verify_report-build_report :
    (p : Platform) {B : Type 0} (backend : LedgerBackend B) (w : Libraries) (pem_of : Bytes → Text)
    (retain : Text → Option Text) (key : KeySource) (read_with : Option Crosswalk)
    (origin origin' now made_at : Text) (crosswalk : Crosswalk) (cr : CrosswalkResult)
    (req : Request) (l0 l : Ledger B) (cp : Checkpoint)
    → IsHash p.sha256
    → IsAppendOnly backend
    → Signs p key
    → w.pem_key (pem_of key.public_key_raw) ≡ some key.public_key_raw
    → InStep p backend l0
    → Run p backend retain l0 l
    → checkpoint p backend key origin l0 made_at ≡ some cp
    → checkpoint_for p backend l key origin' now req.checkpoint ≡ some cp
    → (not req.authorizer || require req.principal Capability.generate_report) ≡ true
    → All (λ (r : ComplianceEvent). IsDump r.body) (backend.iter_records l.store)
    → evaluate w.dump_crosswalk crosswalk (take (length l0.leaves) (backend.iter_records l.store))
      ≡ some (map (λ (c : Reported). c.result) cr.controls)
    → All (λ (c : Control). has_float_fields c.citation ≡ false) crosswalk.controls
    → ((d : Fields) → req.period ≡ some d → has_float_fields d ≡ false)
    → (report : Fields) × (build_report p backend l pem_of key origin' now cr req ≡ some report)
      × ((res : VerificationResult) × (verify_report p w false read_with report
              (some key.public_key_raw)
            ≡ some res)
          × (res.valid ≡ true))
unfolding finish
verify_report-build_report p backend w pem_of retain key read_with origin origin' now made_at
      crosswalk cr req l0 l cp hash lawful signs pem inv0 run headed chosen allowed dumps evaluated
      citations period =
    built_accepted p backend w pem_of retain key false read_with origin origin' now made_at
      crosswalk cr req l0 l cp hash lawful signs pem inv0 run headed chosen allowed dumps evaluated
      citations period (λ qs gaps payload packed s res valid. (res, refl, valid))

-- Over an append-only backend, and with a hash of 32 bytes and a key whose signatures are accepted,
-- the deep mode of `verify_report`, which derives the verdicts again, accepts under that key what
-- `build_report` gives. The checkpoint is one that this key has signed of a log in step, which has since grown
-- by commits; the controls are those of `evaluate` over the events under it, no two with one
-- identifier, and the report pins the crosswalk by its hash, which is not
-- empty; what pydantic dumps of a record, with
-- a time and an agent, it reads back; the caller may generate reports, no float stands in the
-- period or in a citation, and PEM text reads back.
pub deep_verify-build_report :
    (p : Platform) {B : Type 0} (backend : LedgerBackend B) (w : Libraries) (pem_of : Bytes → Text)
    (retain : Text → Option Text) (key : KeySource) (origin origin' now made_at : Text)
    (crosswalk : Crosswalk) (cr : CrosswalkResult) (req : Request) (l0 l : Ledger B)
    (cp : Checkpoint) (content_hash : Text)
    → IsHash p.sha256
    → IsAppendOnly backend
    → Signs p key
    → w.pem_key (pem_of key.public_key_raw) ≡ some key.public_key_raw
    → InStep p backend l0
    → Run p backend retain l0 l
    → checkpoint p backend key origin l0 made_at ≡ some cp
    → checkpoint_for p backend l key origin' now req.checkpoint ≡ some cp
    → (not req.authorizer || require req.principal Capability.generate_report) ≡ true
    → All (λ (r : ComplianceEvent). IsDump r.body) (backend.iter_records l.store)
    → evaluate w.dump_crosswalk crosswalk (take (length l0.leaves) (backend.iter_records l.store))
      ≡ some (map (λ (c : Reported). c.result) cr.controls)
    → All (λ (c : Control). has_float_fields c.citation ≡ false) crosswalk.controls
    → ((d : Fields) → req.period ≡ some d → has_float_fields d ≡ false)
    → cr.crosswalk_content_hash ≡ some content_hash
    → truthy (Value.str content_hash) ≡ true
    → crosswalk_content_hash p w crosswalk ≡ some content_hash
    → All (λ (r : ComplianceEvent). w.validate (dump r) ≡ some r) (backend.iter_records l.store)
    → AllDifferent
        (map (λ (r : ControlResult). r.control_id) (map (λ (c : Reported). c.result) cr.controls))
    → (report : Fields) × (build_report p backend l pem_of key origin' now cr req ≡ some report)
      × ((res : VerificationResult) × (verify_report p w true
              (some crosswalk)
              report
              (some key.public_key_raw)
            ≡ some res)
          × (res.valid ≡ true))
deep_verify-build_report p backend w pem_of retain key origin origin' now made_at crosswalk cr req
      l0 l cp content_hash hash lawful signs pem inv0 run headed chosen allowed dumps evaluated
      citations period pinned some_hash hashed read_back different =
    built_accepted p backend w pem_of retain key true (some crosswalk) origin origin' now made_at
      crosswalk cr req l0 l cp hash lawful signs pem inv0 run headed chosen allowed dumps evaluated
      citations period
      (λ qs gaps payload packed s.
        deep_verify_accepts p w crosswalk key s req cr cp qs gaps (pem_of key.public_key_raw)
          payload content_hash (take (length l0.leaves) (backend.iter_records l.store)) pinned
          some_hash hashed
          (events_in-pack_from p w backend l (length l0.leaves) lawful read_back (length l0.leaves)
            0 qs packed)
          evaluated different)
