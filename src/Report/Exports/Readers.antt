-- ===== src/Report/Exports/Readers.antt =====
-- What a reader takes from the exports of a report of src/openwright/report.py.
use openwright.Common.{Bool, true, false, Option, none, some, List, [], ◌∷◌, Text, codes, ◌>>=◌}
use openwright.Canonical.{Value, Fields}
use openwright.Crosswalk.Schema.{ControlStatus}
use openwright.Dicts.{iterate, read_text}
use openwright.Report.Content.{Reported}
use openwright.Report.Exports.{subscript}

abbrev pub first : List Value → Option Value
first [] = none
first (v ∷ vs) = some v

abbrev first_of : Text → Value → Option Value
first_of k v = subscript k v >>= iterate >>= first

abbrev text_of : Text → Value → Option Text
text_of k v = subscript k v >>= read_text

-- What a reader takes from an OSCAL finding: the control, the exact status and the coarse state.
abbrev pub told : Value → Option (Text × (Text × Text))
told finding = do
  target ← subscript (codes "target") finding
  control_id ← text_of (codes "target-id") target
  mark ← first_of (codes "props") finding
  status ← text_of (codes "value") mark
  coarse ← subscript (codes "status") target
  state ← text_of (codes "state") coarse
  some (control_id, (status, state))

abbrev pub findings_of : Fields → Option (List Value)
findings_of out =
    subscript (codes "assessment-results") (Value.dict out)
    >>= first_of (codes "results")
    >>= subscript (codes "findings")
    >>= iterate

-- What a reader takes from a SARIF result: the control and the level.
abbrev pub alert : Value → Option (Text × Text)
alert result = do
  control_id ← text_of (codes "ruleId") result
  level ← text_of (codes "level") result
  some (control_id, level)

abbrev pub results_of : Fields → Option (List Value)
results_of out =
    first_of (codes "runs") (Value.dict out) >>= subscript (codes "results") >>= iterate

abbrev pub state_text : ControlStatus → Text
state_text ControlStatus.satisfied = codes "satisfied"
state_text ControlStatus.not_satisfied = codes "not-satisfied"
state_text ControlStatus.insufficient_evidence = codes "not-satisfied"

abbrev pub why_text : ControlStatus → Text
why_text ControlStatus.satisfied = codes "pass"
why_text ControlStatus.not_satisfied = codes "fail"
why_text ControlStatus.insufficient_evidence = codes "other"

abbrev pub level_text : ControlStatus → Text
level_text ControlStatus.not_satisfied = codes "error"
level_text _ = codes "warning"

abbrev pub unsatisfied : ControlStatus → Bool
unsatisfied ControlStatus.satisfied = false
unsatisfied ControlStatus.not_satisfied = true
unsatisfied ControlStatus.insufficient_evidence = true

abbrev pub open_gap : Reported → Bool
open_gap c = unsatisfied c.result.status
