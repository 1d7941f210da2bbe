-- ===== src/Report/Exports/Alerts.antt =====
-- `to_sarif` of src/openwright/report.py raises every control that is not satisfied.
use openwright.Common.{
  bytes_eq, ◌≡◌, refl, Bool, true, false, not, Option, none, some, List, [], ◌∷◌, map,
  if◌then◌else◌, take, filter, Bytes, Text, codes,
}
use openwright.Canonical.{Value, Items, Fields}
use openwright.Crosswalk.Schema.{ControlStatus}
use openwright.Crosswalk.Values.{eq_value, lookup}
use openwright.Dicts.{iterate, items_of, set_field, read_block, dget, dget_or}
use openwright.Report.{build_report}
use openwright.Report.Content.{
  Reported, Request, CrosswalkResult, Packed, assemble, dump_controls, dump_control,
}
use openwright.Report.Assembled.{build_report_assembled}
use openwright.Report.Exports.Readers.{alert, results_of, level_text, open_gap, unsatisfied}
use openwright.Report.Exports.Sarif.{
  sarif_gap, sarif_control, sarif_controls, to_sarif, with_gap, rule_of, alert_for, sarif_document,
}
use openwright.Verify.Deep.{status_text}
use openwright.Signing.{Platform, KeySource, Checkpoint}
use openwright.Ledger.{Ledger, LedgerBackend}

level_text_lem :
    (s : ControlStatus)
    → (if eq_value (Value.str (status_text s)) (Value.str (codes "not_satisfied"))
        then codes "error"
        else codes "warning")
      ≡ level_text s
unfolding eq_value bytes_eq
level_text_lem ControlStatus.satisfied = refl
level_text_lem ControlStatus.not_satisfied = refl
level_text_lem ControlStatus.insufficient_evidence = refl

satisfied-unsatisfied :
    (s : ControlStatus)
    → eq_value (Value.str (status_text s)) (Value.str (codes "satisfied")) ≡ not (unsatisfied s)
unfolding eq_value bytes_eq
satisfied-unsatisfied ControlStatus.satisfied = refl
satisfied-unsatisfied ControlStatus.not_satisfied = refl
satisfied-unsatisfied ControlStatus.insufficient_evidence = refl

abbrev block_of : Fields → Fields
block_of Fields.empty = Fields.empty
block_of (Fields.field k v d) = Fields.field k v d

read_block-dict : (d : Fields) → read_block (Value.dict d) ≡ some (block_of d)
read_block-dict Fields.empty = refl
read_block-dict (Fields.field k v d) = refl

abbrev loud : Reported → Option (Text × Text)
loud c = some (c.result.control_id, level_text c.result.status)

module _ (shown : Value → Text) where
  abbrev rule : Reported → Fields
  rule c =
      rule_of shown (Value.str c.result.control_id) (Value.str c.result.title)
        (Value.str (take 300 c.result.requirement))
        (dget (codes "url") (block_of c.result.citation))

  abbrev result : Reported → Fields
  result c =
      alert_for shown (Value.str c.result.control_id) (level_text c.result.status)
        (Value.str (status_text c.result.status)) (Value.str c.reason)

  abbrev gap_if : Bool → Reported → Option (Fields × Fields)
  gap_if true c = some (rule c, result c)
  gap_if false c = none

  sarif_gap-dump_control :
      (c : Reported)
      → sarif_gap shown (Value.dict (dump_control c)) (Value.str (status_text c.result.status))
        ≡ some (rule c, result c)
  unfolding sarif_gap lookup bytes_eq dget_or
  sarif_gap-dump_control c =
      rw (read_block-dict c.result.citation, level_text_lem c.result.status) refl

  picked :
      (b : Bool) (c : Reported)
      → (if not b then some none else some (some (rule c, result c))) ≡ some (gap_if b c)
  picked true c = refl
  picked false c = refl

  sarif_control-dump_control :
      (c : Reported)
      → sarif_control shown (Value.dict (dump_control c)) ≡ some (gap_if (open_gap c) c)
  unfolding sarif_control lookup bytes_eq
  sarif_control-dump_control c =
      rw (sarif_gap-dump_control c, satisfied-unsatisfied c.result.status) (picked (open_gap c) c)

  with_gap-gap_if :
      (b : Bool) (c : Reported) (rules results : Items) (cs : List Reported)
      → map alert (items_of results) ≡ map loud (filter open_gap cs)
      → map alert (items_of (with_gap shown (gap_if b c) rules results).1)
        ≡ map loud (if b then c ∷ filter open_gap cs else filter open_gap cs)
  unfolding lookup bytes_eq
  with_gap-gap_if true c rules results cs h = rw h refl
  with_gap-gap_if false c rules results cs h = h

  sarif_controls-dump_controls :
      (cs : List Reported)
      → (rules results : Items) × (sarif_controls shown (items_of (dump_controls cs))
          ≡ some (rules, results))
        × (map alert (items_of results) ≡ map loud (filter open_gap cs))
  unfolding sarif_controls
  sarif_controls-dump_controls [] = (Items.nil, Items.nil, refl, refl)
  sarif_controls-dump_controls (c ∷ cs) =
      let (rules, results, rest, same) = sarif_controls-dump_controls cs in
      let more = with_gap shown (gap_if (open_gap c) c) rules results in
      (
        more.0,
        more.1,
        rw (sarif_control-dump_control c, rest) refl,
        with_gap-gap_if (open_gap c) c rules results cs same,
      )

  to_sarif-assemble :
      (req : Request) (cr : CrosswalkResult) (cp : Checkpoint) (qs : List Packed) (gaps : Items)
      (pem : Text) (sig : Value)
      → (out : Fields) × (rs : List Value) × (to_sarif shown
            (set_field (codes "signature") sig (assemble req cr cp qs gaps pem))
          ≡ some out)
        × (results_of out ≡ some rs)
        × (map alert rs ≡ map loud (filter open_gap cr.controls))
  unfolding to_sarif assemble set_field lookup bytes_eq iterate
  to_sarif-assemble req cr cp qs gaps pem sig =
      let (rules, results, done, same) = sarif_controls-dump_controls cr.controls in
      (sarif_document shown rules results, items_of results, rw done refl, refl, same)

-- Of whatever `build_report` returns, `to_sarif` makes a document, with one result for each control
-- that is not satisfied and for no other, in their order. The level of each is `error` where the
-- control is violated and `warning` where the evidence is insufficient.
pub to_sarif-build_report :
    (p : Platform) {B : Type 0} (backend : LedgerBackend B) (l : Ledger B) (pem_of : Bytes → Text)
    (key : KeySource) (origin now : Text) (cr : CrosswalkResult) (req : Request)
    (shown : Value → Text) (report : Fields)
    → build_report p backend l pem_of key origin now cr req ≡ some report
    → (out : Fields) × (rs : List Value) × (to_sarif shown report ≡ some out)
      × (results_of out ≡ some rs)
      × (map alert rs
          ≡ map
              (λ (c : Reported). some (c.result.control_id, level_text c.result.status))
              (filter open_gap cr.controls))
to_sarif-build_report p backend l pem_of key origin now cr req shown report h =
    let (cp, qs, gaps, pem, sig, is) =
      build_report_assembled p backend l pem_of key origin now cr req report h in
    rw is (to_sarif-assemble shown req cr cp qs gaps pem sig)
