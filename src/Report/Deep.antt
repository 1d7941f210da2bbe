-- ===== src/Report/Deep.antt =====
-- The deep mode of `verify_report` (src/openwright/verify.py) on a report of src/openwright/report.py.
use openwright.Report.Verified.{Finishes}
use openwright.Verify.Report.{finish}
use openwright.Canonical.{Value, Fields, Items}
use openwright.Common.{
  bytes_eq, ℕ, ◌≡◌, refl, ◌∙◌, Bool, true, false, some, List, [], map, if◌then◌else◌, length, Bytes,
  bytes_eq_refl, Text, codes,
}
use openwright.Crosswalk.Evaluate.{evaluate}
use openwright.Crosswalk.Schema.{Crosswalk, ControlResult}
use openwright.Crosswalk.Values.{truthy, lookup, eq_value}
use openwright.Dicts.{dget_or, iterate, int_of, set_field, items_of, Number, read_block, dget}
use openwright.Ledger.{ComplianceEvent}
use openwright.Report.Content.{
  Packed, Reported, Request, CrosswalkResult, assemble, items_packed, dump_controls,
  dump_checkpoint,
}
use openwright.Report.Rederived.{AllDifferent, mismatches_of_same}
use openwright.Report.Signed.{signed_report}
use openwright.Signing.{Platform, KeySource, Signs, Checkpoint}
use openwright.Verify.{Libraries, VerificationResult, warn, deep_over_disclosed, check, Check}
use openwright.Verify.Deep.{
  extend_errors, check_verdicts, deep_pinned, len_of, deep_verify, events_in, deep_with, smaller,
  crosswalk_content_hash, mismatches_of, stated_size,
}

sized_int :
    (b : Bool) (t n : ℕ)
    → (m : ℕ) × (int_of (if b then Value.int t else Value.int n) ≡ some (true, m))
unfolding int_of
sized_int true t n = (t, refl)
sized_int false t n = (n, refl)

warn_valid :
    (b : Bool) (res : VerificationResult)
    → res.valid ≡ true
    → (if b then warn deep_over_disclosed res else res).valid ≡ true
warn_valid true res v = v
warn_valid false res v = v

module _ (p : Platform) (w : Libraries) (cw : Crosswalk) (report : Fields) where
  check_verdicts_reaches :
      (events : List ComplianceEvent) (rs : List ControlResult) (vs : List Value)
      (res : VerificationResult)
      → evaluate w.dump_crosswalk cw events ≡ some rs
      → iterate (dget_or (codes "controls") (Value.list Items.nil) report) ≡ some vs
      → mismatches_of rs vs ≡ some []
      → check_verdicts p w cw report res (some events)
        ≡ some (extend_errors [] (check Check.deep_verify_verdicts true res))
  unfolding check_verdicts
  check_verdicts_reaches events rs vs res evaluated listed same = rw (evaluated, listed, same) refl

  deep_pinned_reaches :
      (events : List ComplianceEvent) (items : List Value) (cp : Fields) (size : Number)
      (res : VerificationResult)
      → iterate (dget_or (codes "events") (Value.list Items.nil) report) ≡ some items
      → read_block (dget (codes "checkpoint") report) ≡ some cp
      → int_of (stated_size p w cp (length items)) ≡ some size
      → events_in p w items ≡ some events
      → deep_pinned p w cw report res
        ≡ check_verdicts p w cw report
            (if smaller (length items) size then warn deep_over_disclosed res else res)
            (some events)
  unfolding deep_pinned len_of
  deep_pinned_reaches events items cp size res listed block sized read =
      rw (listed, block, sized, read) refl

  deep_verify_reaches :
      (block : Fields) (h : Text) (res : VerificationResult)
      → read_block (dget (codes "crosswalk") report) ≡ some block
      → dget (codes "content_hash") block ≡ Value.str h
      → truthy (Value.str h) ≡ true
      → crosswalk_content_hash p w cw ≡ some h
      → finish p w true (some cw) report res
        ≡ deep_pinned p w cw report (check Check.deep_verify_crosswalk_pin true res)
  unfolding finish deep_verify deep_with eq_value
  deep_verify_reaches block h res is_block pinned some_hash hashed =
      rw (is_block, pinned, some_hash, hashed, bytes_eq_refl h) refl

module _ (p : Platform) (w : Libraries) (cw : Crosswalk) (key : KeySource) (signs : Signs p key)
    (req : Request) (cr : CrosswalkResult) (cp : Checkpoint) (qs : List Packed) (gaps : Items)
    (pem payload : Bytes) where
  abbrev report : Fields
  report = signed_report p key signs req cr cp qs gaps pem payload

  events_listed :
      iterate (dget_or (codes "events") (Value.list Items.nil) report)
      ≡ some (items_of (items_packed qs))
  unfolding dget_or lookup bytes_eq assemble set_field iterate
  events_listed = refl

  controls_listed :
      iterate (dget_or (codes "controls") (Value.list Items.nil) report)
      ≡ some (items_of (dump_controls cr.controls))
  unfolding dget_or lookup bytes_eq assemble set_field iterate
  controls_listed = refl

  checkpoint_block : read_block (dget (codes "checkpoint") report) ≡ some (dump_checkpoint cp)
  unfolding dget_or lookup bytes_eq assemble set_field
  checkpoint_block = refl

  crosswalk_block :
      (h : Text)
      → cr.crosswalk_content_hash ≡ some h
      → (block : Fields) × (read_block (dget (codes "crosswalk") report) ≡ some block)
        × (dget (codes "content_hash") block ≡ Value.str h)
  unfolding dget_or lookup bytes_eq assemble set_field
  crosswalk_block h pinned = (_, refl, rw pinned refl)

  stated_int :
      (n : ℕ) → (m : ℕ) × (int_of (stated_size p w (dump_checkpoint cp) n) ≡ some (true, m))
  unfolding dget_or lookup bytes_eq
  stated_int n = sized_int (truthy (Value.int cp.tree_size)) cp.tree_size n

  -- Deep verification of the report, when the events read back and give the same results.
  pub deep_verify_accepts :
      (h : Text) (events : List ComplianceEvent)
      → cr.crosswalk_content_hash ≡ some h
      → truthy (Value.str h) ≡ true
      → crosswalk_content_hash p w cw ≡ some h
      → events_in p w (items_of (items_packed qs)) ≡ some events
      → evaluate w.dump_crosswalk cw events ≡ some (map (λ (c : Reported). c.result) cr.controls)
      → AllDifferent
          (map (λ (r : ControlResult). r.control_id) (map (λ (c : Reported). c.result) cr.controls))
      → Finishes p w true (some cw) key signs req cr cp qs gaps pem payload
  deep_verify_accepts h events pinned some_hash hashed read evaluated different res valid =
      let n = length (items_of (items_packed qs)) in
      let (block, is_block, has_hash) = crosswalk_block h pinned in
      let (m, sized) = stated_int n in
      let res0 : VerificationResult = check Check.deep_verify_crosswalk_pin true res in
      let res1 : VerificationResult =
        if smaller n (true, m) then warn deep_over_disclosed res0 else res0 in
      (
        extend_errors [] (check Check.deep_verify_verdicts true res1),
        deep_verify_reaches p w cw report block h res is_block has_hash some_hash hashed
            ∙ deep_pinned_reaches p w cw report events _ _ (true, m) res0 events_listed
                checkpoint_block sized read
            ∙ check_verdicts_reaches p w cw report events _ _ res1 evaluated controls_listed
                (mismatches_of_same cr.controls different),
        rw (warn_valid (smaller n (true, m)) res0 (rw valid refl)) refl,
      )
