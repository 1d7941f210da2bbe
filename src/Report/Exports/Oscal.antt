-- ===== src/Report/Exports/Oscal.antt =====
-- src/openwright/report.py: `to_oscal`. `uuid` is the text of the identifier that each call of uuid4
-- gives.
use openwright.Canonical.{Value, Items, Fields}
use openwright.Common.{
  bytes_eq, ℕ, suc, ◌+◌, ◌*◌, Option, none, some, List, [], ◌∷◌, ◌++◌, if◌then◌else◌, length, Text,
  codes, ◌>>=◌,
}
use openwright.Crosswalk.Values.{lookup}
use openwright.Dicts.{dget_or, read_dict, dict_of, iterate, text_items}
use openwright.Report.Content.{boundary_statement}
use openwright.Report.Exports.{subscript, sentence}

-- `_OSCAL_STATE[status]`
abbrev pub oscal_state : Value → Option (Text × Text)
oscal_state (Value.str s) =
    if bytes_eq s (codes "satisfied")
    then some (codes "satisfied", codes "pass")
    else if bytes_eq s (codes "not_satisfied")
    then some (codes "not-satisfied", codes "fail")
    else if bytes_eq s (codes "insufficient_evidence")
    then some (codes "not-satisfied", codes "other")
    else none
oscal_state v = none

module _ (shown : Value → Text) (uuid : ℕ → Text) where
  abbrev pub observation_of : ℕ → Value → Value → Value → Fields
  observation_of n now title reason = dict_of (
      (codes "uuid", Value.str (uuid n))
      ∷ (codes "description", sentence shown title reason)
      ∷ (codes "methods", Value.list (text_items (codes "TEST" ∷ [])))
      ∷ (codes "collected", now)
      ∷ [])

  abbrev pub finding_of : ℕ → Value → Value → Value → Value → Text → Text → Fields
  finding_of n control_id title requirement status state why = dict_of (
      (codes "uuid", Value.str (uuid (suc n)))
      ∷ (codes "title", title)
      ∷ (codes "description", requirement)
      ∷ (
        codes "props",
        Value.list (
            Items.item
              (Value.dict (
                dict_of (
                  (codes "name", Value.str (codes "openwright-status"))
                  ∷ (codes "value", status)
                  ∷ (codes "ns", Value.str (codes "https://github.com/allthingsN/openwright/ns"))
                  ∷ [])))
              Items.nil),
      )
      ∷ (
        codes "target",
        Value.dict (
            dict_of (
              (codes "type", Value.str (codes "objective-id"))
              ∷ (codes "target-id", control_id)
              ∷ (
                codes "status",
                Value.dict (
                    dict_of
                      ((codes "state", Value.str state) ∷ (codes "reason", Value.str why) ∷ [])),
              )
              ∷ [])),
      )
      ∷ (
        codes "related-observations",
        Value.list (
            Items.item (Value.dict (dict_of ((codes "observation-uuid", Value.str (uuid n)) ∷ [])))
              Items.nil),
      )
      ∷ [])

  -- The observation and the finding of a control; `n` identifiers have been given before.
  unfoldable pub oscal_control : ℕ → Value → Value → Option (Fields × Fields)
  unfolding lookup
  oscal_control n now c = do
    title ← subscript (codes "title") c
    reason ← subscript (codes "reason") c
    status ← subscript (codes "status") c
    (state, why) ← oscal_state status
    requirement ← subscript (codes "requirement") c
    control_id ← subscript (codes "control_id") c
    some (
      observation_of n now title reason,
      finding_of n control_id title requirement status state why,
    )

  -- The loop over the controls: the observations and the findings.
  unfoldable pub oscal_controls : ℕ → Value → List Value → Option (Items × Items)
  unfolding oscal_control
  oscal_controls n now [] = some (Items.nil, Items.nil)
  oscal_controls n now (c ∷ cs) = do
    (observation, finding) ← oscal_control n now c
    (observations, findings) ← oscal_controls (suc (suc n)) now cs
    some
        (Items.item (Value.dict observation) observations, Items.item (Value.dict finding) findings)

  -- The document, of so many controls.
  abbrev pub oscal_document : ℕ → Value → Value → Value → Value → Value → Items → Items → Fields
  oscal_document n now title report_id description start observations findings = dict_of (
      (
        codes "assessment-results",
        Value.dict (
            dict_of (
              (codes "uuid", Value.str (uuid n))
              ∷ (
                codes "metadata",
                Value.dict (
                    dict_of (
                      (codes "title", Value.str (codes "OpenWright evidence — " ++ shown title))
                      ∷ (codes "last-modified", now)
                      ∷ (codes "version", report_id)
                      ∷ (codes "oscal-version", Value.str (codes "1.1.3"))
                      ∷ (codes "remarks", Value.str boundary_statement)
                      ∷ [])),
              )
              ∷ (
                codes "import-ap",
                Value.dict
                    (dict_of ((codes "href", Value.str (codes "#openwright-evidence")) ∷ [])),
              )
              ∷ (
                codes "results",
                Value.list (
                    Items.item
                      (Value.dict (
                        dict_of (
                          (codes "uuid", Value.str (uuid (n + 1)))
                          ∷ (codes "title", Value.str (codes "Runtime control evidence"))
                          ∷ (codes "description", description)
                          ∷ (codes "start", start)
                          ∷ (
                            codes "reviewed-controls",
                            Value.dict (
                                dict_of (
                                  (
                                    codes "control-selections",
                                    Value.list (
                                        Items.item
                                          (Value.dict (
                                            dict_of (
                                              (codes "include-all", Value.dict Fields.empty) ∷ [])))
                                          Items.nil),
                                  )
                                  ∷ [])),
                          )
                          ∷ (codes "observations", Value.list observations)
                          ∷ (
                            codes "risks",
                            Value.list (
                                Items.item
                                  (Value.dict (
                                    dict_of (
                                      (codes "uuid", Value.str (uuid (n + 2)))
                                      ∷ (codes "title", Value.str (codes "Control gaps"))
                                      ∷ (
                                        codes "description",
                                        Value.str (
                                            codes
                                              "Controls not satisfied or with insufficient evidence."),
                                      )
                                      ∷ (codes "statement", Value.str boundary_statement)
                                      ∷ (codes "status", Value.str (codes "open"))
                                      ∷ [])))
                                  Items.nil),
                          )
                          ∷ (codes "findings", Value.list findings)
                          ∷ [])))
                      Items.nil),
              )
              ∷ [])),
      )
      ∷ [])

  unfoldable pub to_oscal : Fields → Option Fields
  unfolding oscal_controls lookup dget_or iterate
  to_oscal report = do
    now ← lookup (codes "generated_at") report
    controls ← lookup (codes "controls") report
    cs ← iterate controls
    (observations, findings) ← oscal_controls 0 now cs
    crosswalk ← lookup (codes "crosswalk") report
    title ← subscript (codes "title") crosswalk
    report_id ← lookup (codes "report_id") report
    scope ← lookup (codes "scope") report
    description ← subscript (codes "description") scope
    period ← read_dict (dget_or (codes "period") (Value.dict Fields.empty) report)
    some (
        oscal_document (2 * length cs) now title report_id description
          (dget_or (codes "start") now period) observations findings)
