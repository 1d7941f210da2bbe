-- ===== src/Report/Exports/Sarif.antt =====
-- src/openwright/report.py: `to_sarif`.
use mathlib.Core.Option
use openwright.Canonical.{Value, Items, Fields}
use openwright.Common.{
  ℕ, zero, suc, Option, none, some, List, [], ◌∷◌, if◌then◌else◌, take, Text, codes, ◌>>=◌,
}
use openwright.Crosswalk.Values.{lookup, eq_value}
use openwright.Dicts.{dget, dget_or, read_dict, read_block, dict_of, iterate, hashable}
use openwright.Report.Content.{boundary_statement, tool_version}
use openwright.Report.Exports.{subscript, sentence}

-- `_SARIF_LEVEL.get(status, "warning")`
unfoldable pub sarif_level : Value → Option Text
unfolding eq_value
sarif_level v =
    if hashable v
    then some
        (if eq_value v (Value.str (codes "not_satisfied")) then codes "error" else codes "warning")
    else none

abbrev pub take_items : ℕ → Items → Items
take_items zero vs = Items.nil
take_items (suc n) Items.nil = Items.nil
take_items (suc n) (Items.item v vs) = Items.item v (take_items n vs)

-- `v[:n]`
abbrev pub slice : ℕ → Value → Option Value
slice n (Value.str s) = some (Value.str (take n s))
slice n (Value.list vs) = some (Value.list (take_items n vs))
slice n v = none

module _ (shown : Value → Text) where
  abbrev pub rule_of : Value → Value → Value → Value → Fields
  rule_of control_id title short url = dict_of (
      (codes "id", control_id)
      ∷ (codes "name", title)
      ∷ (codes "shortDescription", Value.dict (dict_of ((codes "text", short) ∷ [])))
      ∷ (codes "helpUri", url)
      ∷ [])

  abbrev pub alert_for : Value → Text → Value → Value → Fields
  alert_for control_id level status reason = dict_of (
      (codes "ruleId", control_id)
      ∷ (codes "level", Value.str level)
      ∷ (codes "message", Value.dict (dict_of ((codes "text", sentence shown status reason) ∷ [])))
      ∷ (
        codes "locations",
        Value.list (
            Items.item
              (Value.dict (
                dict_of (
                  (
                    codes "logicalLocations",
                    Value.list (
                        Items.item
                          (Value.dict (
                            dict_of (
                              (codes "name", control_id)
                              ∷ (codes "kind", Value.str (codes "control"))
                              ∷ [])))
                          Items.nil),
                  )
                  ∷ [])))
              Items.nil),
      )
      ∷ [])

  -- The rule and the result of a control that is not satisfied.
  unfoldable pub sarif_gap : Value → Value → Option (Fields × Fields)
  unfolding lookup dget_or sarif_level
  sarif_gap c status = do
    d ← read_dict c
    control_id ← lookup (codes "control_id") d
    title ← lookup (codes "title") d
    requirement ← lookup (codes "requirement") d
    short ← slice 300 requirement
    citation ← read_block (dget (codes "citation") d)
    level ← sarif_level status
    reason ← lookup (codes "reason") d
    some (
      rule_of control_id title short (dget (codes "url") citation),
      alert_for control_id level status reason,
    )

  -- One turn of the loop: nothing of a control that is satisfied.
  unfoldable pub sarif_control : Value → Option (Option (Fields × Fields))
  unfolding sarif_gap eq_value
  sarif_control c = do
    status ← subscript (codes "status") c
    let gap = Option.map some (sarif_gap c status)
    if eq_value status (Value.str (codes "satisfied")) then some none else gap

  abbrev pub with_gap : Option (Fields × Fields) → Items → Items → Items × Items
  with_gap none rules results = (rules, results)
  with_gap (some (rule, result)) rules results =
      (Items.item (Value.dict rule) rules, Items.item (Value.dict result) results)

  -- The loop over the controls: the rules and the results.
  unfoldable pub sarif_controls : List Value → Option (Items × Items)
  unfolding sarif_control
  sarif_controls [] = some (Items.nil, Items.nil)
  sarif_controls (c ∷ cs) = do
    found ← sarif_control c
    (rules, results) ← sarif_controls cs
    some (with_gap found rules results)

  abbrev pub sarif_document : Items → Items → Fields
  sarif_document rules results = dict_of (
      (
        codes "$schema",
        Value.str (
            codes
              "https://docs.oasis-open.org/sarif/sarif/v2.1.0/errata01/os/schemas/sarif-schema-2.1.0.json"),
      )
      ∷ (codes "version", Value.str (codes "2.1.0"))
      ∷ (
        codes "runs",
        Value.list (
            Items.item
              (Value.dict (
                dict_of (
                  (
                    codes "tool",
                    Value.dict (
                        dict_of (
                          (
                            codes "driver",
                            Value.dict (
                                dict_of (
                                  (codes "name", Value.str (codes "openwright"))
                                  ∷ (codes "version", Value.str tool_version)
                                  ∷ (
                                    codes "informationUri",
                                    Value.str (codes "https://github.com/allthingsN/openwright"),
                                  )
                                  ∷ (
                                    codes "fullDescription",
                                    Value.dict (
                                        dict_of
                                          ((codes "text", Value.str boundary_statement) ∷ [])),
                                  )
                                  ∷ (codes "rules", Value.list rules)
                                  ∷ [])),
                          )
                          ∷ [])),
                  )
                  ∷ (codes "results", Value.list results)
                  ∷ (
                    codes "properties",
                    Value.dict (
                        dict_of (
                          (codes "openwright_boundary_statement", Value.str boundary_statement)
                          ∷ [])),
                  )
                  ∷ [])))
              Items.nil),
      )
      ∷ [])

  unfoldable pub to_sarif : Fields → Option Fields
  unfolding sarif_controls lookup iterate
  to_sarif report = do
    controls ← lookup (codes "controls") report
    cs ← iterate controls
    (rules, results) ← sarif_controls cs
    some (sarif_document rules results)
