-- ===== src/Crosswalk/Schema.antt =====
-- The declarative schema of src/openwright/crosswalk.py.
use openwright.Canonical.{Fields, Value}
use openwright.Common.{ℕ, Bool, Option, List, Text}

pub data ControlStatus : Type 0 where
  satisfied not_satisfied insufficient_evidence : ControlStatus

pub data EmptyScopePolicy : Type 0 where
  insufficient satisfied_when_empty not_satisfied_when_empty : EmptyScopePolicy

-- `ControlStatus(ctrl.empty_scope.value)`
abbrev pub status_of : EmptyScopePolicy → ControlStatus
status_of insufficient = insufficient_evidence
status_of satisfied_when_empty = satisfied
status_of not_satisfied_when_empty = not_satisfied

pub record EventFilter : Type 0 where
  pub kind : Option (List Text)
  pub risk_classification : Option (List Text)
  pub oversight_status : Option (List Text)
  pub source_format : Option (List Text)
  pub attribute_equals : Fields
  pub has : List Text

-- `op` of a field condition; an absent one is `exists`.
pub data Op : Type 0 where
  exists eq ne in_list gte lte : Op
  unknown_op : Text → Op

pub data Link : Type 0 where
  approval_ref same_task same_context references_root : Link
  unknown_link : Text → Link

-- By `type`, with the fields that the type reads.
mutual
  pub data Condition : Type 0 where
    committed : Condition
    field : Option Text → Op → Value → Condition
    linked_to : Link → Option EventFilter → Condition
    any_of : Conditions → Condition
    all_of : Conditions → Condition
    not_all : Conditions → Condition
    unknown_type : Text → Condition

  pub data Conditions : Type 0 where
    no_more : Conditions
    more : Condition → Conditions → Conditions

pub record Control : Type 0 where
  pub id : Text
  pub title : Text
  pub requirement : Text
  pub citation : Fields
  pub scope : EventFilter
  pub condition : Condition
  pub empty_scope : EmptyScopePolicy
  pub completeness_sensitive : Bool
  pub applies_to_profiles : List Text

pub record Crosswalk : Type 0 where
  pub id : Text
  pub version : Text
  pub default_profiles : List Text
  pub controls : List Control

pub record ControlResult : Type 0 where
  pub control_id : Text
  pub title : Text
  pub status : ControlStatus
  pub requirement : Text
  pub citation : Fields
  pub evaluated_count : ℕ
  pub satisfied_count : ℕ
  pub evidence_event_ids : List Text
  pub gap_event_ids : List Text
