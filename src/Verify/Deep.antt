-- ===== src/Verify/Deep.antt =====
-- `_deep_verify` of src/openwright/verify.py: the verdicts are derived again from the events.
use openwright.Crosswalk.Evaluate.{evaluate}
use openwright.Ledger.{ComplianceEvent}
use openwright.Signing.{Platform}
use openwright.Verify.{
  Mistake, VerificationResult, Libraries, ComplianceEvent, check, verdict_mismatch, Check, warn,
  deep_over_disclosed,
}
use openwright.Canonical.{Value, content_hash, Fields, Items}
use openwright.Crosswalk.Values.{eq_value, truthy}
use mathlib.Core.Option
use openwright.Crosswalk.Schema.{ControlStatus, ControlResult, Crosswalk}
use openwright.Common.{
  ℕ, Bool, true, false, not, Option, none, some, List, [], ◌∷◌, ◌++◌, ltb, if◌then◌else◌, length,
  Text, codes, ◌>>=◌, guard,
}
use openwright.Dicts.{Number, iterate, dget_or, read_dict, hashable, int_of, dget, read_block}

-- `len(v)`
unfoldable pub len_of : Value → Option ℕ
unfolding iterate
len_of v = Option.map length (iterate v)

abbrev pub smaller : ℕ → Number → Bool
smaller n (true, m) = ltb n m
smaller n (false, m) = false

abbrev pub status_text : ControlStatus → Text
status_text ControlStatus.satisfied = codes "satisfied"
status_text ControlStatus.not_satisfied = codes "not_satisfied"
status_text ControlStatus.insufficient_evidence = codes "insufficient_evidence"

-- `recomputed.get(cid)`: the last result with the identifier.
unfoldable pub recomputed_status :
    Value → Option ControlStatus → List ControlResult → Option ControlStatus
unfolding eq_value
recomputed_status cid found [] = found
recomputed_status cid found (r ∷ rs) =
    recomputed_status cid (if eq_value cid (Value.str r.control_id) then some r.status else found)
      rs

abbrev pub differs : Option ControlStatus → Value → Bool
differs none want = true
differs (some got) want = not (eq_value (Value.str (status_text got)) want)

-- The loop over the reported controls.
unfoldable pub mismatches_of : List ControlResult → List Value → Option (List Mistake)
unfolding recomputed_status dget_or
mismatches_of rs [] = some []
mismatches_of rs (item ∷ items) = do
  c ← read_dict item
  _ ← guard (hashable (dget (codes "control_id") c))
  rest ← mismatches_of rs items
  some (
      if differs (recomputed_status (dget (codes "control_id") c) none rs) (dget (codes "status") c)
      then verdict_mismatch (dget (codes "control_id") c) ∷ rest
      else rest)

abbrev pub is_none : List Mistake → Bool
is_none [] = true
is_none (m ∷ ms) = false

abbrev pub extend_errors : List Mistake → VerificationResult → VerificationResult
extend_errors ms res = record res { errors = res.errors ++ ms }

module _ (p : Platform) (w : Libraries) where
  unfoldable pub crosswalk_content_hash : Crosswalk → Option Text
  unfolding content_hash
  crosswalk_content_hash cw = content_hash p.sha256 p.dumps (w.dump_crosswalk cw)

  -- The events of the report, as the model of an event reads them; any exception is caught.
  unfoldable pub events_in : List Value → Option (List ComplianceEvent)
  unfolding dget_or
  events_in [] = some []
  events_in (item ∷ items) = do
    it ← read_dict item
    d ← read_block (dget (codes "event") it)
    ev ← w.validate d
    rest ← events_in items
    some (ev ∷ rest)

  -- From the evaluation on.
  unfoldable pub check_verdicts :
      Crosswalk
      → Fields
      → VerificationResult
      → Option (List ComplianceEvent)
      → Option VerificationResult
  unfolding evaluate mismatches_of iterate dget_or
  check_verdicts cw report res none = some (check Check.deep_verify_events false res)
  check_verdicts cw report res (some events) = do
    rs ← evaluate w.dump_crosswalk cw events
    controls ← iterate (dget_or (codes "controls") (Value.list Items.nil) report)
    mismatches ← mismatches_of rs controls
    some (extend_errors mismatches (check Check.deep_verify_verdicts (is_none mismatches) res))

  -- `(report.get("checkpoint") or {}).get("tree_size") or n_events`
  abbrev pub stated_size : Fields → ℕ → Value
  stated_size cp n =
      if truthy (dget (codes "tree_size") cp) then dget (codes "tree_size") cp else Value.int n

  -- Once the crosswalk's hash is the pinned one.
  unfoldable pub deep_pinned : Crosswalk → Fields → VerificationResult → Option VerificationResult
  unfolding check_verdicts events_in iterate len_of int_of dget_or
  deep_pinned cw report res = do
    n ← len_of (dget_or (codes "events") (Value.list Items.nil) report)
    cp ← read_block (dget (codes "checkpoint") report)
    size ← int_of (stated_size cp n)
    items ← iterate (dget_or (codes "events") (Value.list Items.nil) report)
    check_verdicts cw report (if smaller n size then warn deep_over_disclosed res else res)
        (events_in items)

  -- Once there is a crosswalk.
  unfoldable pub deep_with :
      Value → Option Crosswalk → Fields → VerificationResult → Option VerificationResult
  unfolding crosswalk_content_hash deep_pinned
  deep_with pinned none report res = some (check Check.deep_verify_crosswalk false res)
  deep_with pinned (some cw) report res = do
    actual ← crosswalk_content_hash cw
    if eq_value (Value.str actual) pinned
        then deep_pinned cw report (check Check.deep_verify_crosswalk_pin true res)
        else some (check Check.deep_verify_crosswalk_pin false res)

  -- The crosswalk that was passed in, or else the built-in one that the report names.
  abbrev pub crosswalk_for : Option Crosswalk → Fields → Option Crosswalk
  crosswalk_for (some cw) block = some cw
  crosswalk_for none block = w.builtin (dget (codes "id") block)

  unfoldable pub deep_verify :
      Option Crosswalk → Fields → VerificationResult → Option VerificationResult
  unfolding deep_with dget_or
  deep_verify crosswalk report res = do
    block ← read_block (dget (codes "crosswalk") report)
    if truthy (dget (codes "content_hash") block)
        then deep_with (dget (codes "content_hash") block) (crosswalk_for crosswalk block) report
            res
        else some (check Check.deep_verify_crosswalk_pin false res)
