-- ===== src/Crosswalk/Evaluate.antt =====
-- `select_profile` and `evaluate` of src/openwright/crosswalk.py.
use openwright.Crosswalk.Counts.{is_gap_marker, counts_drops}
use mathlib.Core.Option
use openwright.Ledger.{ComplianceEvent}
use openwright.Crosswalk.Values.{eq_value}
use openwright.Canonical.{Value, clean}
use openwright.Crosswalk.{Entry, holds, matches, entries_from}
use openwright.Crosswalk.Schema.{
  Control, Crosswalk, ControlStatus, ControlResult, status_of, Condition,
}
use openwright.Common.{
  bytes_eq, ℕ, ◌≡◌, inl, inr, Bool, true, false, not, ◌&&◌, ◌||◌, Option, none, some, List, [], ◌∷◌,
  ◌++◌, map, arith, ◌==◌, if◌then◌else◌, Bool-cases, length, take, any, all, filter, Text,
}

abbrev pub applies : List Text → Control → Bool
applies selected c = elim c.applies_to_profiles [
  | [] ↦ true
  | _ ↦ any (λ a. any (bytes_eq a) selected) c.applies_to_profiles
]

-- `select_profile`
unfoldable pub select_profile : Crosswalk → Option (List Text) → Crosswalk
select_profile crosswalk profile =
    let selected : List Text = elim profile [ none ↦ crosswalk.default_profiles | some p ↦ p ] in
    record crosswalk { controls = filter (applies selected) crosswalk.controls }

-- `_MAX_IDS`
abbrev max_ids : ℕ
max_ids = 50

abbrev pub ids_of : List Entry → List Text
ids_of es = take max_ids (map (λ e. e.event_id) es)

-- The events of the scope that satisfy the condition; a condition that raises stops it.
unfoldable pub passing : List Entry → Condition → List Entry → Option (List Entry)
unfolding holds
passing events cond [] = some []
passing events cond (e ∷ es) = elim (holds events e cond) [
  | none ↦ none
  | some b ↦ elim (passing events cond es) [
    | none ↦ none
    | some passed ↦ some (if b then e ∷ passed else passed)
  ]
]

-- `e in passed`, by identity or equality.
unfoldable pub among : Entry → List Entry → Bool
unfolding eq_value
among e passed =
    any (λ q. (e.position == q.position) || eq_value (Value.dict e.fields) (Value.dict q.fields))
      passed

abbrev pub violators_of : List Entry → List Entry → List Entry
violators_of scoped passed = filter (λ e. not (among e passed)) scoped

abbrev pub result_of : Control → ControlStatus → ℕ → ℕ → List Text → List Text → ControlResult
result_of ctrl status evaluated satisfied evidence gaps = record {
  control_id = ctrl.id;
  title = ctrl.title;
  status = status;
  requirement = ctrl.requirement;
  citation = ctrl.citation;
  evaluated_count = evaluated;
  satisfied_count = satisfied;
  evidence_event_ids = evidence;
  gap_event_ids = gaps;
}

abbrev pub status_with : List Entry → ControlStatus
status_with [] = ControlStatus.satisfied
status_with (v ∷ violators) = ControlStatus.not_satisfied

-- The result of a control whose scope has events.
unfoldable pub scoped_result : Control → List Entry → List Entry → ControlResult
unfolding among
scoped_result ctrl scoped passed =
    let violators = violators_of scoped passed in
    result_of ctrl (status_with violators) (length scoped) (length passed) (ids_of passed)
      (ids_of violators)

-- One turn of the loop over the controls.
unfoldable pub control_result : List Entry → Control → List Entry → Option ControlResult
unfolding passing scoped_result
control_result events ctrl [] = some (result_of ctrl (status_of ctrl.empty_scope) 0 0 [] [])
control_result events ctrl (e ∷ es) =
    Option.map (scoped_result ctrl (e ∷ es)) (passing events ctrl.condition (e ∷ es))

abbrev pub in_scope : List Entry → Control → List Entry
in_scope events ctrl = filter (λ e. matches e.fields ctrl.scope) events

unfoldable pub control_results : List Entry → List Control → Option (List ControlResult)
unfolding control_result matches
control_results events [] = some []
control_results events (c ∷ cs) = elim (control_result events c (in_scope events c)) [
  | none ↦ none
  | some r ↦ elim (control_results events cs) [ none ↦ none | some rs ↦ some (r ∷ rs) ]
]

abbrev pub is_not_satisfied : ControlStatus → Bool
is_not_satisfied ControlStatus.not_satisfied = true
is_not_satisfied ControlStatus.satisfied = false
is_not_satisfied ControlStatus.insufficient_evidence = false

-- The identifiers of the completeness-sensitive controls.
abbrev pub sensitive_ids : List Control → List Text
sensitive_ids cs = map (λ c. c.id) (filter (λ c. c.completeness_sensitive) cs)

-- The completeness override of one result.
unfoldable pub override : List Text → List Text → ControlResult → ControlResult
override sensitive gap_ids r =
    if any (bytes_eq r.control_id) sensitive && not (is_not_satisfied r.status)
    then record r {
      status = ControlStatus.not_satisfied;
      gap_event_ids = take max_ids (r.gap_event_ids ++ gap_ids);
    }
    else r

abbrev pub gap_ids_of : List Entry → List Text
gap_ids_of markers = ids_of (filter (λ e. not (bytes_eq e.event_id [])) markers)

unfoldable pub completed : List Entry → List Control → List ControlResult → List ControlResult
unfolding override
completed [] controls results = results
completed (g ∷ gs) controls results =
    map (override (sensitive_ids controls) (gap_ids_of (g ∷ gs))) results

-- The control results, from the loop over the controls on.
unfoldable pub finished_results : List Entry → List Control → Option (List ControlResult)
unfolding control_results completed is_gap_marker
finished_results dicts controls =
    Option.map (completed (filter is_gap_marker dicts) controls) (control_results dicts controls)

-- `crosswalk_content_hash(crosswalk)` returns, for what pydantic dumps of the crosswalk.
unfoldable pub is_hashable : Value → Bool
unfolding clean
is_hashable dumped = elim (clean dumped) [ none ↦ false | some v ↦ true ]

-- `evaluate`, its control results: it raises also when the drops of a gap marker are no integer,
-- and when the crosswalk cannot be hashed.
unfoldable pub evaluate :
    (Crosswalk → Value) → Crosswalk → List ComplianceEvent → Option (List ControlResult)
unfolding finished_results is_gap_marker counts_drops is_hashable
evaluate dump_crosswalk crosswalk events =
    let dicts : List Entry = entries_from 0 events in
    if all counts_drops (filter is_gap_marker dicts) && is_hashable (dump_crosswalk crosswalk)
    then finished_results dicts crosswalk.controls
    else none

pub evaluate-finished_results :
    (dump_crosswalk : Crosswalk → Value) (crosswalk : Crosswalk) (events : List ComplianceEvent)
    (rs : List ControlResult)
    → evaluate dump_crosswalk crosswalk events ≡ some rs
    → finished_results (entries_from 0 events) crosswalk.controls ≡ some rs
unfolding evaluate
evaluate-finished_results dump_crosswalk crosswalk events rs h =
    elim (Bool-cases (
      all counts_drops (filter is_gap_marker (entries_from 0 events))
      && is_hashable (dump_crosswalk crosswalk))) [
        | inl returns ↦ ground (arith, h, returns)
        | inr raises ↦ ground (arith, h, raises)
      ]
