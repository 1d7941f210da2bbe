-- ===== src/Report/Exports/Faithful.antt =====
-- `to_oscal` of src/openwright/report.py keeps the status of every control.
use openwright.Ledger.{LedgerBackend, Ledger}
use openwright.Signing.{Platform, KeySource, Checkpoint}
use openwright.Report.{build_report, Platform, LedgerBackend, KeySource}
use openwright.Report.Content.{Request, CrosswalkResult, Packed, assemble}
use openwright.Dicts.{set_field}
use openwright.Report.Exports.Oscal.{observation_of, finding_of}
use openwright.Crosswalk.Values.{lookup}
use openwright.Common.{
  bytes_eq, ℕ, suc, ◌*◌, ◌≡◌, refl, Option, some, List, [], ◌∷◌, map, length, Bytes, Text, codes,
}
use openwright.Canonical.{Value, Items, Fields}
use openwright.Crosswalk.Schema.{ControlStatus}
use openwright.Dicts.{iterate, items_of}
use openwright.Report.Content.{Reported, dump_controls, dump_control}
use openwright.Report.Exports.Oscal.{
  observation_of, finding_of, oscal_state, oscal_control, oscal_controls,
}
use openwright.Verify.Deep.{status_text}
use openwright.Report.Exports.Readers.{told, findings_of, state_text, why_text}
use openwright.Report.Assembled.{build_report_assembled}
use openwright.Report.Exports.Oscal.{oscal_document, to_oscal}
use openwright.Report.Content.{period_of}
use openwright.Dicts.{dget_or}

oscal_state-status_text :
    (s : ControlStatus) → oscal_state (Value.str (status_text s)) ≡ some (state_text s, why_text s)
unfolding bytes_eq
oscal_state-status_text ControlStatus.satisfied = refl
oscal_state-status_text ControlStatus.not_satisfied = refl
oscal_state-status_text ControlStatus.insufficient_evidence = refl

module _ (shown : Value → Text) (uuid : ℕ → Text) where
  abbrev finding : ℕ → Reported → Fields
  finding n c =
      finding_of shown uuid n (Value.str c.result.control_id) (Value.str c.result.title)
        (Value.str c.result.requirement) (Value.str (status_text c.result.status))
        (state_text c.result.status) (why_text c.result.status)

  abbrev observation : ℕ → Value → Reported → Fields
  observation n now c =
      observation_of shown uuid n now (Value.str c.result.title) (Value.str c.reason)

  oscal_control-dump_control :
      (n : ℕ) (now : Value) (c : Reported)
      → oscal_control shown uuid n now (Value.dict (dump_control c))
        ≡ some (observation n now c, finding n c)
  unfolding oscal_control lookup bytes_eq
  oscal_control-dump_control n now c = rw (oscal_state-status_text c.result.status) refl

  oscal_controls-dump_controls :
      (n : ℕ) (now : Value) (cs : List Reported)
      → (observations findings : Items) × (oscal_controls shown uuid n now
            (items_of (dump_controls cs))
          ≡ some (observations, findings))
        × (map told (items_of findings)
            ≡ map
                (λ (c : Reported).
                  some (
                    c.result.control_id,
                    (status_text c.result.status, state_text c.result.status),
                  ))
                cs)
  unfolding oscal_controls lookup bytes_eq iterate
  oscal_controls-dump_controls n now [] = (Items.nil, Items.nil, refl, refl)
  oscal_controls-dump_controls n now (c ∷ cs) =
      let (observations, findings, rest, same) =
        oscal_controls-dump_controls (suc (suc n)) now cs in
      (
        Items.item (Value.dict (observation n now c)) observations,
        Items.item (Value.dict (finding n c)) findings,
        rw (oscal_control-dump_control n now c, rest) refl,
        rw same refl,
      )

  abbrev exact : Reported → Option (Text × (Text × Text))
  exact c = some (c.result.control_id, (status_text c.result.status, state_text c.result.status))

  to_oscal-assemble :
      (req : Request) (cr : CrosswalkResult) (cp : Checkpoint) (qs : List Packed) (gaps : Items)
      (pem : Text) (sig : Value)
      → (out : Fields) × (fs : List Value) × (to_oscal shown uuid
            (set_field (codes "signature") sig (assemble req cr cp qs gaps pem))
          ≡ some out)
        × (findings_of out ≡ some fs)
        × (map told fs ≡ map exact cr.controls)
  unfolding to_oscal assemble set_field lookup bytes_eq iterate dget_or
  to_oscal-assemble req cr cp qs gaps pem sig =
      let now = Value.str req.generated_at in
      let (observations, findings, done, same) = oscal_controls-dump_controls 0 now cr.controls in
      (
        oscal_document shown uuid (2 * length (items_of (dump_controls cr.controls))) now
            (Value.str cr.crosswalk_title) (Value.str req.report_id)
            (Value.str req.scope_description)
            (dget_or (codes "start") now (period_of req.period qs)) observations findings,
        items_of findings,
        rw done refl,
        refl,
        same,
      )

-- Of whatever `build_report` returns, `to_oscal` makes a document, with one finding for each
-- control, in their order. Each names its control and carries its exact status, also where the
-- state of OSCAL has only two values, and that state is `satisfied` for a satisfied control only.
pub to_oscal-build_report :
    (p : Platform) {B : Type 0} (backend : LedgerBackend B) (l : Ledger B) (pem_of : Bytes → Text)
    (key : KeySource) (origin now : Text) (cr : CrosswalkResult) (req : Request)
    (shown : Value → Text) (uuid : ℕ → Text) (report : Fields)
    → build_report p backend l pem_of key origin now cr req ≡ some report
    → (out : Fields) × (fs : List Value) × (to_oscal shown uuid report ≡ some out)
      × (findings_of out ≡ some fs)
      × (map told fs
          ≡ map
              (λ (c : Reported).
                some
                  (c.result.control_id, (status_text c.result.status, state_text c.result.status)))
              cr.controls)
to_oscal-build_report p backend l pem_of key origin now cr req shown uuid report h =
    let (cp, qs, gaps, pem, sig, is) =
      build_report_assembled p backend l pem_of key origin now cr req report h in
    rw is (to_oscal-assemble shown uuid req cr cp qs gaps pem sig)
