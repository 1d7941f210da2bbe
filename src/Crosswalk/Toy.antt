-- ===== src/Crosswalk/Toy.antt =====
-- A crosswalk with one control and an event that it is about, for the tests.
use openwright.Canonical.{Fields, Value}
use openwright.Ledger.{ComplianceEvent}
use openwright.Crosswalk.Schema.{EventFilter, Control, Crosswalk, Condition, Op, EmptyScopePolicy}
use openwright.Common.{true, none, some, [], ◌∷◌, codes}

abbrev pub anything : EventFilter
anything = record {
  kind = none;
  risk_classification = none;
  oversight_status = none;
  source_format = none;
  attribute_equals = Fields.empty;
  has = [];
}

abbrev pub record_keeping : Control
record_keeping = record {
  id = codes "art12";
  title = codes "Record-keeping";
  requirement = codes "Keep logs";
  citation = Fields.empty;
  scope = record anything { kind = some (codes "decision" ∷ []) };
  condition = Condition.field (some (codes "risk.classification")) Op.eq (Value.str (codes "low"));
  empty_scope = EmptyScopePolicy.insufficient;
  completeness_sensitive = true;
  applies_to_profiles = codes "deployer" ∷ [];
}

abbrev pub crosswalk : Crosswalk
crosswalk = record {
  id = codes "toy";
  version = codes "1";
  default_profiles = codes "deployer" ∷ [];
  controls = record_keeping ∷ [];
}

abbrev pub decision : ComplianceEvent
decision = record {
  event_id = codes "evt_1";
  body = Fields.field (codes "kind") (Value.str (codes "decision")) (
      Fields.field (codes "risk")
        (Value.dict (Fields.field (codes "classification") (Value.str (codes "low")) Fields.empty))
        Fields.empty);
  ledger = none;
}
