-- ===== src/Verify/Valid.antt =====
-- What a report that `verify_report` of src/openwright/verify.py calls valid is bound to.
use openwright.Verify.Derived.{VerdictsDerived, deep_verify_valid}
use openwright.Crosswalk.Schema.{Crosswalk}
use openwright.Verify.Events.{check_events, nothing_seen, check_controls, check_full_tree}
use openwright.Verify.Steps.{
  EventHolds, EvidenceHolds, event_id_of, check_controls_valid, and_right, check_full_tree_valid,
  and_left, check_events_valid,
}
use openwright.Verify.Report.{
  events_of, verify_with, verify_headed, verify_trusting, verify_report, finish,
}
use openwright.Verify.{
  signature_ok, report_payload, checkpoint_bytes, head_of, VerificationResult, check, Check,
  check_report_signature, check_checkpoint, establish_key, Established, refused, trusting,
  Libraries, Crosswalk,
}
use openwright.Canonical.{Fields, Value, Items}
use openwright.Signing.{Platform}
use openwright.Verify.Report.{events_of, verify_events}
use openwright.Common.{
  ◌≡◌, refl, sym, ap, ◌∙◌, subst, Bool, true, false, Option, none, some, List, [], map, arith,
  some-injective, All, Bytes, Text, codes, >>=-elim,
}
use openwright.Dicts.{Number, read_block, dget, dget_or, iterate}
use openwright.Verify.Signatures.{report_signature_valid, checkpoint_signature_valid}

-- The signatures of a report and of its checkpoint, its head, its events and its evidence hold for
-- a key.
pub record Accepts (p : Platform) (key : Bytes) (report : Fields) : Type 0 where
  pub block : Fields
  pub cp : Fields
  pub root : Bytes
  pub size : Number
  pub items : List Value
  pub controls : List Value
  pub is_block : read_block (dget (codes "signature") report) ≡ some block
  pub is_checkpoint : read_block (dget (codes "checkpoint") report) ≡ some cp
  pub report_signed :
      signature_ok p key
        (dget_or (codes "signature") (Value.str []) block)
        (report_payload p report)
      ≡ true
  pub checkpoint_signed :
      signature_ok p key (dget_or (codes "signature") (Value.str []) cp) (checkpoint_bytes p cp)
      ≡ true
  pub head : head_of cp ≡ some (root, size)
  pub is_items : iterate (events_of report) ≡ some items
  pub events_hold : All (EventHolds p root size) items
  pub is_controls :
      iterate (dget_or (codes "controls") (Value.list Items.nil) report) ≡ some controls
  pub evidence_holds : All (EvidenceHolds (map event_id_of items)) controls

finish_valid :
    (p : Platform) (w : Libraries) (deep : Bool) (crosswalk : Option Crosswalk) (report : Fields)
    (res res' : VerificationResult)
    → finish p w deep crosswalk report res ≡ some res'
    → res'.valid ≡ true
    → (res.valid ≡ true) × (deep ≡ true → VerdictsDerived p w crosswalk report)
unfolding finish
finish_valid p w true crosswalk report res res' h v =
    let (before, derived) = deep_verify_valid p w crosswalk report res res' h v in
    (before, λ e. derived)
finish_valid p w false crosswalk report res res' h v =
    (ap (λ (r : VerificationResult). r.valid) (some-injective h) ∙ v, λ e. cc)

verify_events_valid :
    (p : Platform) (w : Libraries) (deep : Bool) (crosswalk : Option Crosswalk) (report : Fields)
    (root : Bytes) (size : Number) (res res' : VerificationResult)
    → verify_events p w deep crosswalk report root size res ≡ some res'
    → res'.valid ≡ true
    → (res.valid ≡ true)
      × (items : List Value) × (controls : List Value) × (iterate (events_of report) ≡ some items)
      × All (EventHolds p root size) items
      × (iterate (dget_or (codes "controls") (Value.list Items.nil) report) ≡ some controls)
      × All (EvidenceHolds (map event_id_of items)) controls
      × (deep ≡ true → VerdictsDerived p w crosswalk report)
unfolding verify_events
verify_events_valid p w deep crosswalk report root size res res' h v =
    >>=-elim (iterate (events_of report)) _ h (λ items is_items h1.
      >>=-elim (check_events p root size items nothing_seen) _ h1 (λ seen looped h2.
        >>=-elim (iterate (dget_or (codes "controls") (Value.list Items.nil) report)) _ h2
          (λ controls is_controls h3.
            >>=-elim
              (check_controls seen.present_ids controls true (
                check_full_tree p root size seen.leaves_by_index (
                  check Check.inclusion_proofs seen.incl_ok_all
                    (check Check.event_leaf_hashes seen.leaf_ok_all res))))
              _ h3
              (λ out gone h4.
                let (done, derived) = finish_valid p w deep crosswalk report _ res' h4 v in
                let (kept, cited) =
                  check_controls_valid seen.present_ids controls true out.0 _ out.1 gone in
                let (evidence, held) = cited (and_right out.1.valid out.0 done) in
                let (before, whole) =
                  check_full_tree_valid p root size seen.leaves_by_index _
                    (sym kept ∙ and_left out.1.valid out.0 done) in
                let leaf_ok = and_right (res.valid) seen.leaf_ok_all (and_left _ _ before) in
                let (l0, i0, events, ids) =
                  check_events_valid p root size items nothing_seen seen looped leaf_ok
                    (and_right _ _ before) in
                (
                  and_left (res.valid) seen.leaf_ok_all (and_left _ _ before),
                  items,
                  controls,
                  is_items,
                  events,
                  is_controls,
                  subst (λ (ps : List Value). All (EvidenceHolds ps) controls) ids held,
                  derived,
                )))))

verify_headed_valid :
    (p : Platform) (w : Libraries) (deep : Bool) (crosswalk : Option Crosswalk) (report : Fields)
    (found : Option (Bytes × Number)) (res res' : VerificationResult)
    → verify_headed p w deep crosswalk report found res ≡ some res'
    → res'.valid ≡ true
    → (root : Bytes) × (size : Number) × (found ≡ some (root, size))
      × (verify_events p w deep crosswalk report root size res ≡ some res')
unfolding verify_headed
verify_headed_valid p w deep crosswalk report none res res' h v =
    let bad = ap (λ (r : VerificationResult). r.valid) (some-injective h) ∙ v in
    let wrong : false ≡ true = and_right res.valid false bad in cc
verify_headed_valid p w deep crosswalk report (some (root, size)) res res' h v =
    (root, size, refl, h)

verify_with_valid :
    (p : Platform) (w : Libraries) (deep : Bool) (crosswalk : Option Crosswalk) (key : Bytes)
    (report : Fields) (res res' : VerificationResult)
    → verify_with p w deep crosswalk key report res ≡ some res'
    → res'.valid ≡ true
    → (res.valid ≡ true)
      × Accepts p key report
      × (deep ≡ true → VerdictsDerived p w crosswalk report)
unfolding verify_with
verify_with_valid p w deep crosswalk key report res res' h v =
    >>=-elim (check_report_signature p key report res) _ h (λ signed is_signed h1.
      >>=-elim (read_block (dget (codes "checkpoint") report)) _ h1 (λ cp is_cp h2.
        >>=-elim (check_checkpoint p key cp signed) _ h2 (λ headed is_headed h3.
          let (root, size, head, looped) =
            verify_headed_valid p w deep crosswalk report (head_of cp) headed res' h3 v in
          let (v3, items, controls, is_items, events, is_controls, evidence, derived) =
            verify_events_valid p w deep crosswalk report root size headed res' looped v in
          let (v2, cp_ok) = checkpoint_signature_valid p key cp signed headed is_headed v3 in
          let (v1, block, is_block, report_ok) =
            report_signature_valid p key report res signed is_signed v2 in
          (
            v1,
            record {
              block = block;
              cp = cp;
              root = root;
              size = size;
              items = items;
              controls = controls;
              is_block = is_block;
              is_checkpoint = is_cp;
              report_signed = report_ok;
              checkpoint_signed = cp_ok;
              head = head;
              is_items = is_items;
              events_hold = events;
              is_controls = is_controls;
              evidence_holds = evidence;
            },
            derived,
          ))))

verify_trusting_valid :
    (p : Platform) (w : Libraries) (deep : Bool) (crosswalk : Option Crosswalk) (report : Fields)
    (e : Established) (res : VerificationResult)
    → ((r : VerificationResult) → e ≡ refused r → r.valid ≡ false)
    → verify_trusting p w deep crosswalk report e ≡ some res
    → res.valid ≡ true
    → (key : Bytes) × (start_res : VerificationResult) × (e ≡ trusting key start_res)
      × (start_res.valid ≡ true)
      × Accepts p key report
      × (deep ≡ true → VerdictsDerived p w crosswalk report)
unfolding verify_trusting
verify_trusting_valid p w deep crosswalk report (refused r) res never h v =
    let wrong : false ≡ true =
      sym (never r refl) ∙ ap (λ (q : VerificationResult). q.valid) (some-injective h) ∙ v in
    cc
verify_trusting_valid p w deep crosswalk report (trusting key r) res never h v =
    let (ok, accepts, derived) = verify_with_valid p w deep crosswalk key report r res h v in
    (key, r, refl, ok, accepts, derived)

establish_key_lem :
    (pem_key : Text → Option Bytes) (trusted : Option Bytes) (embedded : Value)
    → ((r : VerificationResult)
        → establish_key pem_key trusted embedded ≡ refused r
        → r.valid ≡ false)
      × ((k key : Bytes) (r : VerificationResult)
          → trusted ≡ some k
          → establish_key pem_key trusted embedded ≡ trusting key r
          → key ≡ k)
unfolding establish_key
establish_key_lem pem_key none embedded = (λ r e. ground arith, λ k key r t e. cc)
establish_key_lem pem_key (some given) embedded = (λ r e. ground arith, λ k key r t e. ground arith)

-- When `verify_report` returns a valid result, then for the key that was passed in (or else the one
-- in the report): the report without its signature field is signed, its checkpoint is signed, each
-- of its events hashes to the leaf that is stated for it, which the inclusion proof places at the
-- stated index under the checkpoint's root, and each event that a control cites is in the report.
-- In deep mode, each control's status is also the one that `evaluate` gives for the events of the
-- report under the crosswalk whose content hash the report pins.
pub verify_report_valid :
    (p : Platform) (w : Libraries) (deep : Bool) (crosswalk : Option Crosswalk) (report : Fields)
    (trusted : Option Bytes) (res : VerificationResult)
    → verify_report p w deep crosswalk report trusted ≡ some res
    → res.valid ≡ true
    → (key : Bytes) × ((k : Bytes) → trusted ≡ some k → key ≡ k)
      × Accepts p key report
      × (deep ≡ true → VerdictsDerived p w crosswalk report)
unfolding verify_report
verify_report_valid p w deep crosswalk report trusted res h v =
    let embedded : Value = dget (codes "public_key_pem") report in
    let (never, same) = establish_key_lem w.pem_key trusted embedded in
    let (key, r, e, ok, accepts, derived) =
      verify_trusting_valid p w deep crosswalk report (establish_key w.pem_key trusted embedded) res
        never h v in
    (key, λ k t. same k key r t e, accepts, derived)
