-- ===== src/Verify/Report.antt =====
-- `verify_report` of src/openwright/verify.py.
use openwright.Verify.Deep.{deep_verify}
use openwright.Crosswalk.Schema.{Crosswalk}
use openwright.Crosswalk.Values.{truthy}
use openwright.Canonical.{Fields, Value, Items}
use openwright.Dicts.{dget_or, iterate, Number, read_block, dget}
use openwright.Verify.{
  check_report_signature, establish_key, check_checkpoint, dget_or, head_of, Fields,
  VerificationResult, truthy, check, refused, trusting, Check, Established, Libraries, Crosswalk,
}
use openwright.Verify.Events.{check_events, check_full_tree, check_controls, nothing_seen}
use openwright.Signing.{Platform}
use openwright.Common.{Bool, true, false, Option, none, some, if◌then◌else◌, Bytes, codes, ◌>>=◌}

-- `report.get("events") or []`
abbrev pub events_of : Fields → Value
events_of report =
    if truthy (dget (codes "events") report)
    then dget (codes "events") report
    else Value.list Items.nil

module _ (p : Platform) (w : Libraries) (deep : Bool) (crosswalk : Option Crosswalk) where
  -- Step 7: deep mode, where it is asked for.
  unfoldable pub finish : Fields → VerificationResult → Option VerificationResult
  unfolding deep_verify
  finish report res = if deep then deep_verify p w crosswalk report res else some res

  -- From step 4 on, for the root and the size of the checkpoint.
  unfoldable pub verify_events :
      Fields → Bytes → Number → VerificationResult → Option VerificationResult
  unfolding finish check_events check_full_tree check_controls iterate dget_or
  verify_events report root size res = do
    items ← iterate (events_of report)
    seen ← check_events p root size items nothing_seen
    controls ← iterate (dget_or (codes "controls") (Value.list Items.nil) report)
    (evidence_ok, surfaced_all) ← check_controls seen.present_ids controls true (
        check_full_tree p root size seen.leaves_by_index (
          check Check.inclusion_proofs seen.incl_ok_all
            (check Check.event_leaf_hashes seen.leaf_ok_all res)))
    finish report (check Check.evidence_events_present evidence_ok surfaced_all)

  -- What follows the reading of the head.
  unfoldable pub verify_headed :
      Fields → Option (Bytes × Number) → VerificationResult → Option VerificationResult
  unfolding verify_events
  verify_headed report none res = some (check Check.checkpoint_well_formed false res)
  verify_headed report (some (root, size)) res = verify_events report root size res

  -- From step 2 on, for the key that is trusted.
  unfoldable pub verify_with : Bytes → Fields → VerificationResult → Option VerificationResult
  unfolding check_report_signature check_checkpoint head_of verify_headed
  verify_with key report res = do
    signed ← check_report_signature p key report res
    cp ← read_block (dget (codes "checkpoint") report)
    headed ← check_checkpoint p key cp signed
    verify_headed report (head_of cp) headed

  -- What follows the choice of the key.
  unfoldable pub verify_trusting : Fields → Established → Option VerificationResult
  unfolding verify_with
  verify_trusting report (refused res) = some res
  verify_trusting report (trusting key res) = verify_with key report res

  unfoldable pub verify_report : Fields → Option Bytes → Option VerificationResult
  unfolding establish_key verify_trusting dget_or
  verify_report report trusted =
      verify_trusting report
        (establish_key w.pem_key trusted (dget (codes "public_key_pem") report))
