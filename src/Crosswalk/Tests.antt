-- ===== src/Crosswalk/Tests.antt =====
-- The theorems on src/openwright/crosswalk.py at concrete inputs.
use openwright.Crosswalk.Counts.{is_gap_marker}
use openwright.Crosswalk.Values.{get}
use openwright.Crosswalk.Reports.{Says, evaluate_lem}
use openwright.Canonical.{Fields, Value}
use openwright.Crosswalk.Status.{Distinct}
use openwright.Crosswalk.Evaluate.{evaluate, among, in_scope}
use openwright.Crosswalk.{Entry, holds, Fields, entries_from, dump, get}
use openwright.Ledger.{ComplianceEvent}
use openwright.Crosswalk.Schema.{Control, ControlResult, ControlStatus, Crosswalk}
use openwright.Crosswalk.Toy.{crosswalk, decision}
use openwright.Common.{
  bytes_eq, ◌≡◌, refl, ◌≢◌, true, none, some, List, [], ◌∷◌, get_elem?, filter, codes,
}

abbrev marker : ComplianceEvent
marker = record {
  event_id = codes "evt_2";
  body = Fields.field (codes "kind") (Value.str (codes "generic")) (
      Fields.field (codes "attributes")
        (Value.dict (
          Fields.field (codes "marker") (Value.str (codes "evidence_gap"))
            (Fields.field (codes "dropped_events") (Value.str (codes " +1_0 ")) Fields.empty)))
        Fields.empty);
  ledger = none;
}

abbrev dump_name : Crosswalk → Value
dump_name c = Value.str c.id

abbrev entries : List Entry
entries = entries_from 0 (decision ∷ marker ∷ [])

abbrev reported : List ControlResult
reported = elim (evaluate dump_name crosswalk (decision ∷ marker ∷ [])) [ none ↦ [] | some rs ↦ rs ]

abbrev forced : ControlResult
forced = record {
  control_id = codes "art12";
  title = codes "Record-keeping";
  status = ControlStatus.not_satisfied;
  requirement = codes "Keep logs";
  citation = Fields.empty;
  evaluated_count = 1;
  satisfied_count = 1;
  evidence_event_ids = codes "evt_1" ∷ [];
  gap_event_ids = codes "evt_2" ∷ [];
}

run : evaluate dump_name crosswalk (decision ∷ marker ∷ []) ≡ some (forced ∷ [])
unfolding evaluate holds bytes_eq get
run = refl

entries-Distinct : Distinct entries
unfolding Distinct among bytes_eq
entries-Distinct = (refl, (refl, tt), (refl, tt, tt))

evaluate_lem_example :
    (ctrl : Control) × (get_elem? crosswalk.controls 0 ≡ some ctrl)
    × Says entries ctrl (in_scope entries ctrl) forced
    × (filter is_gap_marker entries ≢ []
        → ctrl.completeness_sensitive ≡ true
        → forced.status ≡ ControlStatus.not_satisfied)
evaluate_lem_example =
    evaluate_lem dump_name crosswalk (decision ∷ marker ∷ []) (forced ∷ []) 0 forced run refl
      entries-Distinct

abbrev first : Entry
first = record { position = 0; event_id = codes "evt_1"; fields = dump decision }
