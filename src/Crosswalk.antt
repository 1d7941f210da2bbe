-- ===== src/Crosswalk.antt =====
-- src/openwright/crosswalk.py: declarative controls and their three-state evaluation.
-- The reason texts of the results are left out; `none` is an exception that the code raises.
pub mod Values
pub mod Schema
pub mod Counts
pub mod Evaluate
pub mod Evidence
pub mod Status
pub mod Reports
pub mod Complete
pub mod Toy
mod Tests
use openwright.Ledger.{LedgerFields, ComplianceEvent}
use openwright.Canonical.{Fields, Value, is_null, Items}
use mathlib.Core.Option
use openwright.Common.{
  bytes_eq, ℕ, suc, Bool, true, false, not, ◌&&◌, Option, none, some, List, [], ◌∷◌, ◌==◌,
  if◌then◌else◌, any, all, Text, codes,
}
use openwright.Crosswalk.Values.{eq_value, get, get_parts, truthy, in_value, ge_value}
use openwright.Crosswalk.Schema.{
  EventFilter, field, Link, Op, Condition, unknown_link, linked_to, any_of, unknown_op, all_of,
  not_all, Conditions,
}

-- An event of the evaluated snapshot: its position in the list and its dump.
pub record Entry : Type 0 where
  pub position : ℕ
  pub event_id : Text
  pub fields : Fields

abbrev dump_ledger : Option LedgerFields → Fields → Fields
dump_ledger none rest = rest
dump_ledger (some l) rest =
    Fields.field (codes "ledger")
      (Value.dict (
        Fields.field (codes "leaf_hash") (Value.str l.leaf_hash) (
          Fields.field (codes "leaf_index") (Value.int l.leaf_index) (
            Fields.field (codes "committed_at") (Value.str l.committed_at) (elim l.retention_until [
              | none ↦ Fields.empty
              | some t ↦ Fields.field (codes "retention_until") (Value.str t) Fields.empty
            ])))))
      rest

-- `model_dump(mode="json", exclude_none=True)`
abbrev pub dump : ComplianceEvent → Fields
dump e = Fields.field (codes "event_id") (Value.str e.event_id) (dump_ledger e.ledger e.body)

abbrev pub entries_from : ℕ → List ComplianceEvent → List Entry
entries_from i [] = []
entries_from i (e ∷ es) =
    record { position = i; event_id = e.event_id; fields = dump e } ∷ entries_from (suc i) es

abbrev one_of : Option (List Text) → Value → Bool
one_of none v = true
one_of (some names) v = any (λ n. eq_value v (Value.str n)) names

-- `_matches`
abbrev attributes_equal : Fields → Fields → Bool
attributes_equal ev Fields.empty = true
attributes_equal ev (Fields.field path v rest) =
    eq_value (get ev path) v && attributes_equal ev rest

unfoldable pub matches : Fields → EventFilter → Bool
matches ev f =
    one_of f.kind (get_parts (Value.dict ev) (codes "kind" ∷ []))
    && one_of f.risk_classification (get ev (codes "risk.classification"))
    && one_of f.oversight_status (get ev (codes "oversight.status"))
    && one_of f.source_format (get ev (codes "source.format"))
    && attributes_equal ev f.attribute_equals
    && all (λ path. not (is_null (get ev path))) f.has

-- `_Index.by_id`: the last event with the identifier.
abbrev by_id : Text → Option Entry → List Entry → Option Entry
by_id ref found [] = found
by_id ref found (e ∷ es) =
    by_id ref (if not (bytes_eq e.event_id []) && bytes_eq e.event_id ref then some e else found) es

abbrev targeted : Option EventFilter → Fields → Bool
targeted none ev = true
targeted (some f) ev = matches ev f

abbrev approved : Option EventFilter → Option Entry → Bool
approved target none = false
approved target (some cand) = targeted target cand.fields

-- The link `approval_ref`; a list or a dictionary as the reference is unhashable.
abbrev linked_ref : List Entry → Option EventFilter → Value → Option Bool
linked_ref events target (Value.str s) =
    some (truthy (Value.str s) && approved target (by_id s none events))
linked_ref events target (Value.list vs) = if truthy (Value.list vs) then none else some false
linked_ref events target (Value.dict fs) = if truthy (Value.dict fs) then none else some false
linked_ref events target v = some false

-- Another event of the snapshot has the same value under the key.
abbrev linked_key : List Entry → Option EventFilter → Entry → Text → Bool
linked_key events target ev key =
    not (is_null (get ev.fields key))
    && any
        (λ other.
          not (other.position == ev.position)
          && eq_value (get other.fields key) (get ev.fields key)
          && targeted target other.fields)
        events

-- `_linked`
unfoldable pub linked : List Entry → Entry → Link → Option EventFilter → Option Bool
unfolding matches
linked events ev Link.approval_ref target =
    linked_ref events target (get ev.fields (codes "oversight.approval_ref"))
linked events ev Link.same_task target =
    some (linked_key events target ev (codes "provenance.task_id"))
linked events ev Link.same_context target =
    some (linked_key events target ev (codes "provenance.context_id"))
linked events ev Link.references_root target =
    some (linked_key events target ev (codes "provenance.root_task_id"))
linked events ev (Link.unknown_link name) target = none

abbrev compare_field : Op → Value → Value → Option Bool
compare_field Op.exists actual value = some (not (is_null actual))
compare_field Op.eq actual value = some (eq_value actual value)
compare_field Op.ne actual value = some (not (eq_value actual value))
compare_field Op.in_list actual value =
    in_value actual (if truthy value then value else Value.list Items.nil)
compare_field Op.gte actual value = if is_null actual then some false else ge_value actual value
compare_field Op.lte actual value = if is_null actual then some false else ge_value value actual
compare_field (Op.unknown_op name) actual value = some false

abbrev get_path : Fields → Option Text → Value
get_path ev none = Value.null
get_path ev (some []) = Value.null
get_path ev (some (c ∷ path)) = get ev (c ∷ path)

abbrev or_else : Option Bool → Option Bool → Option Bool
or_else none rest = none
or_else (some b) rest = if b then some true else rest

abbrev and_then : Option Bool → Option Bool → Option Bool
and_then none rest = none
and_then (some b) rest = if b then rest else some false

-- `_holds`, with `any` and `all` stopping at the first condition that decides.
unfoldable mutual
  unfolding linked

  pub holds : List Entry → Entry → Condition → Option Bool
  holds events ev Condition.committed = some (truthy (get ev.fields (codes "ledger.leaf_hash")))
  holds events ev (Condition.field path op value) = compare_field op (get_path ev.fields path) value
  holds events ev (Condition.linked_to link target) = linked events ev link target
  holds events ev (Condition.any_of conditions) = any_holds events ev conditions
  holds events ev (Condition.all_of conditions) = all_hold events ev conditions
  holds events ev (Condition.not_all conditions) = Option.map not (all_hold events ev conditions)
  holds events ev (Condition.unknown_type name) = none

  pub any_holds : List Entry → Entry → Conditions → Option Bool
  any_holds events ev Conditions.no_more = some false
  any_holds events ev (Conditions.more c cs) = or_else (holds events ev c) (any_holds events ev cs)

  pub all_hold : List Entry → Entry → Conditions → Option Bool
  all_hold events ev Conditions.no_more = some true
  all_hold events ev (Conditions.more c cs) = and_then (holds events ev c) (all_hold events ev cs)
