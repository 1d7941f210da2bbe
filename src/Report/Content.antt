-- ===== src/Report/Content.antt =====
-- What a report of src/openwright/report.py is made of: the results of the controls, the packed events,
-- the period, the agents, the evidence gaps, and the report before it is signed.
use openwright.Common.{
  bytes_eq, ℕ, ◌+◌, Bool, true, false, Option, none, some, List, [], ◌∷◌, if◌then◌else◌, length,
  any, Text, codes, ◌>>=◌,
}
use openwright.Ledger.{ComplianceEvent}
use openwright.Signing.{Checkpoint}
use openwright.Canonical.{Value, Items, Fields}
use openwright.Crosswalk.Schema.{ControlStatus, ControlResult}
use openwright.Crosswalk.{dump}
use openwright.Crosswalk.Values.{lookup, eq_value, ge_text}
use openwright.Dicts.{dget, dict_of, text_items, read_text, read_dict, dget_or, read_block}
use openwright.Authz.{Principal}
use openwright.Verify.Deep.{status_text}

-- A control's result with the text of its reason.
pub record Reported : Type 0 where
  pub result : ControlResult
  pub reason : Text

pub record CrosswalkResult : Type 0 where
  pub crosswalk_id : Text
  pub crosswalk_title : Text
  pub crosswalk_version : Text
  pub crosswalk_content_hash : Option Text
  pub source : Text
  pub reviewed_as_of : Text
  pub disclaimer : Option Text
  pub controls : List Reported

abbrev same_status : ControlStatus → ControlStatus → Bool
same_status ControlStatus.satisfied ControlStatus.satisfied = true
same_status ControlStatus.not_satisfied ControlStatus.not_satisfied = true
same_status ControlStatus.insufficient_evidence ControlStatus.insufficient_evidence = true
same_status _ _ = false

-- The properties `satisfied`, `not_satisfied` and `insufficient`.
abbrev pub count_status : ControlStatus → List Reported → ℕ
count_status wanted [] = 0
count_status wanted (c ∷ cs) =
    (if same_status c.result.status wanted then 1 else 0) + count_status wanted cs

abbrev pub report_version : Text
report_version = codes "1.0.0"

abbrev pub tool_version : Text
tool_version = codes "0.7.1"

-- `BOUNDARY_STATEMENT`
abbrev pub boundary_statement : Text
boundary_statement =
    codes
      "This report constitutes EVIDENCE that the listed controls were exercised at runtime, attested with a tamper-evident Merkle log and an Ed25519 signature. It DOES NOT constitute legal compliance, certification, conformity assessment, or an audit opinion. Determinations of compliance are reserved for qualified auditors, notified bodies, and counsel. Crosswalks are maintainer-authored, rigorously cited, and pending qualified legal/standards review."

abbrev pub optional : Option Text → Value
optional none = Value.null
optional (some s) = Value.str s

-- `model_dump(mode="json", exclude_none=True)` of a control's result.
abbrev pub dump_control : Reported → Fields
dump_control c = dict_of (
    (codes "control_id", Value.str c.result.control_id)
    ∷ (codes "title", Value.str c.result.title)
    ∷ (codes "status", Value.str (status_text c.result.status))
    ∷ (codes "requirement", Value.str c.result.requirement)
    ∷ (codes "citation", Value.dict c.result.citation)
    ∷ (codes "reason", Value.str c.reason)
    ∷ (codes "evaluated_count", Value.int c.result.evaluated_count)
    ∷ (codes "satisfied_count", Value.int c.result.satisfied_count)
    ∷ (codes "evidence_event_ids", Value.list (text_items c.result.evidence_event_ids))
    ∷ (codes "gap_event_ids", Value.list (text_items c.result.gap_event_ids))
    ∷ [])

abbrev pub dump_controls : List Reported → Items
dump_controls [] = Items.nil
dump_controls (c ∷ cs) = Items.item (Value.dict (dump_control c)) (dump_controls cs)

-- `model_dump(mode="json")` of a checkpoint.
abbrev pub dump_checkpoint : Checkpoint → Fields
dump_checkpoint cp = dict_of (
    (codes "origin", Value.str cp.origin)
    ∷ (codes "tree_size", Value.int cp.tree_size)
    ∷ (codes "root_hash", Value.str cp.root_hash)
    ∷ (codes "timestamp", Value.str cp.timestamp)
    ∷ (codes "public_key_id", Value.str cp.public_key_id)
    ∷ (codes "signature", Value.str cp.signature)
    ∷ [])

-- What the loop over the events makes of one.
pub record Packed : Type 0 where
  pub timestamp : Text
  pub agent_id : Text
  pub item : Fields

abbrev pub text_field : Text → Fields → Option Text
text_field k d = lookup k d >>= read_text

-- `ev.actor.agent_id`
abbrev pub agent_of : Fields → Option Text
agent_of body = lookup (codes "actor") body >>= λ a. read_dict a >>= text_field (codes "agent_id")

abbrev pub stated_hash : ComplianceEvent → Value
stated_hash ev = elim ev.ledger [ none ↦ Value.null | some l ↦ Value.str l.leaf_hash ]

abbrev pub item_of : ComplianceEvent → ℕ → List Text → Fields
item_of ev i path = dict_of (
    (codes "event", Value.dict (dump ev))
    ∷ (codes "leaf_index", Value.int i)
    ∷ (codes "leaf_hash", stated_hash ev)
    ∷ (codes "inclusion_proof", Value.list (text_items path))
    ∷ [])

abbrev pub items_packed : List Packed → Items
items_packed [] = Items.nil
items_packed (q ∷ qs) = Items.item (Value.dict q.item) (items_packed qs)

-- The least and the greatest of the texts, from a first one on.
abbrev pub least : Text → List Packed → Text
least s [] = s
least s (q ∷ qs) = least (if ge_text q.timestamp s then s else q.timestamp) qs

abbrev pub greatest : Text → List Packed → Text
greatest s [] = s
greatest s (q ∷ qs) = greatest (if ge_text s q.timestamp then s else q.timestamp) qs

-- `period`, unless it is given: from the first to the last time.
abbrev pub period_of : Option Fields → List Packed → Fields
period_of (some period) qs = period
period_of none [] = Fields.empty
period_of none (q ∷ qs) = dict_of (
    (codes "start", Value.str (least q.timestamp qs))
    ∷ (codes "end", Value.str (greatest q.timestamp qs))
    ∷ [])

abbrev insert_text : Text → List Text → List Text
insert_text s [] = s ∷ []
insert_text s (t ∷ ts) =
    let later = insert_text s ts in if ge_text t s then s ∷ t ∷ ts else t ∷ later

-- `sorted`
abbrev pub sorted : List Text → List Text
sorted [] = []
sorted (s ∷ ss) = insert_text s (sorted ss)

-- `seen_agents`, each agent once.
abbrev pub seen_agents : List Packed → List Text
seen_agents [] = []
seen_agents (q ∷ qs) =
    let seen = seen_agents qs in if any (bytes_eq q.agent_id) seen then seen else q.agent_id ∷ seen

-- `sorted(agent_ids or seen_agents)`
abbrev pub agents_of : Option (List Text) → List Packed → List Text
agents_of none qs = sorted (seen_agents qs)
agents_of (some []) qs = sorted (seen_agents qs)
agents_of (some (a ∷ given)) qs = sorted (a ∷ given)

abbrev pub gap_entry : Fields → Fields → Value → Value
gap_entry ev attrs index = Value.dict (
    dict_of (
      (codes "event_id", dget (codes "event_id") ev)
      ∷ (codes "leaf_index", index)
      ∷ (codes "dropped_events", dget (codes "dropped_events") attrs)
      ∷ (codes "window_start", dget (codes "window_start") attrs)
      ∷ (codes "window_end", dget (codes "window_end") attrs)
      ∷ []))

-- The loop that gathers `evidence_gaps`.
unfoldable pub evidence_gaps : List Packed → Option Items
unfolding eq_value dget_or
evidence_gaps [] = some Items.nil
evidence_gaps (q ∷ qs) = do
  ev ← read_dict (dget (codes "event") q.item)
  attrs ← read_block (dget (codes "attributes") ev)
  rest ← evidence_gaps qs
  some (
      if eq_value (dget (codes "marker") attrs) (Value.str (codes "evidence_gap"))
      then Items.item (gap_entry ev attrs (dget (codes "leaf_index") q.item)) rest
      else rest)

-- The arguments of `build_report` by name; `authorizer` is whether one is given.
pub record Request : Type 0 where
  pub scope_description : Text
  pub agent_ids : Option (List Text)
  pub period : Option Fields
  pub checkpoint : Option Checkpoint
  pub report_id : Text
  pub generated_at : Text
  pub principal : Option Principal
  pub authorizer : Bool

-- The report before it is signed.
unfoldable pub assemble :
    Request → CrosswalkResult → Checkpoint → List Packed → Items → Text → Fields
assemble req cr cp qs gaps pem = dict_of (
    (codes "report_version", Value.str report_version)
    ∷ (codes "report_id", Value.str req.report_id)
    ∷ (codes "generated_at", Value.str req.generated_at)
    ∷ (
      codes "tool",
      Value.dict (
          dict_of (
            (codes "name", Value.str (codes "openwright"))
            ∷ (codes "version", Value.str tool_version)
            ∷ [])),
    )
    ∷ (codes "boundary_statement", Value.str boundary_statement)
    ∷ (
      codes "scope",
      Value.dict (
          dict_of (
            (codes "description", Value.str req.scope_description)
            ∷ (codes "agent_ids", Value.list (text_items (agents_of req.agent_ids qs)))
            ∷ [])),
    )
    ∷ (codes "period", Value.dict (period_of req.period qs))
    ∷ (
      codes "crosswalk",
      Value.dict (
          dict_of (
            (codes "id", Value.str cr.crosswalk_id)
            ∷ (codes "title", Value.str cr.crosswalk_title)
            ∷ (codes "version", Value.str cr.crosswalk_version)
            ∷ (codes "content_hash", optional cr.crosswalk_content_hash)
            ∷ (codes "source", Value.str cr.source)
            ∷ (codes "reviewed_as_of", Value.str cr.reviewed_as_of)
            ∷ (codes "disclaimer", optional cr.disclaimer)
            ∷ [])),
    )
    ∷ (
      codes "summary",
      Value.dict (
          dict_of (
            (codes "total", Value.int (length cr.controls))
            ∷ (codes "satisfied", Value.int (count_status ControlStatus.satisfied cr.controls))
            ∷ (
              codes "not_satisfied",
              Value.int (count_status ControlStatus.not_satisfied cr.controls),
            )
            ∷ (
              codes "insufficient_evidence",
              Value.int (count_status ControlStatus.insufficient_evidence cr.controls),
            )
            ∷ [])),
    )
    ∷ (codes "controls", Value.list (dump_controls cr.controls))
    ∷ (codes "evidence_gaps", Value.list gaps)
    ∷ (codes "checkpoint", Value.dict (dump_checkpoint cp))
    ∷ (codes "events", Value.list (items_packed qs))
    ∷ (codes "public_key_pem", Value.str pem)
    ∷ [])
