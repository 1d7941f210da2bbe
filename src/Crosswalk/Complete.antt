-- ===== src/Crosswalk/Complete.antt =====
-- When `evaluate` of src/openwright/crosswalk.py returns.
use openwright.Canonical.{Value}
use openwright.Ledger.{ComplianceEvent}
use openwright.Crosswalk.Schema.{Condition, Conditions, Op, Link, Crosswalk}
use openwright.Crosswalk.{
  Entry, holds, Conditions, any_holds, Op, all_hold, Link, linked, ComplianceEvent, Value,
}
use openwright.Common.{◌≡◌, refl, Bool, true, false, not, ◌&&◌, ◌||◌, some, List, arith}

unfoldable pub IsPlainOp : Op → Type 0
IsPlainOp Op.in_list = ⊥
IsPlainOp Op.gte = ⊥
IsPlainOp Op.lte = ⊥
IsPlainOp op = Unit

unfoldable pub IsPlainLink : Link → Type 0
IsPlainLink Link.approval_ref = ⊥
IsPlainLink (Link.unknown_link name) = ⊥
IsPlainLink link = Unit

-- Conditions that no event makes raise: known types and links, and no comparison by order or
-- membership.
unfoldable mutual
  unfolding IsPlainOp IsPlainLink

  pub IsPlain : Condition → Type 0
  IsPlain Condition.committed = Unit
  IsPlain (Condition.field path op value) = IsPlainOp op
  IsPlain (Condition.linked_to link target) = IsPlainLink link
  IsPlain (Condition.any_of cs) = ArePlain cs
  IsPlain (Condition.all_of cs) = ArePlain cs
  IsPlain (Condition.not_all cs) = ArePlain cs
  IsPlain (Condition.unknown_type t) = ⊥

  pub ArePlain : Conditions → Type 0
  ArePlain Conditions.no_more = Unit
  ArePlain (Conditions.more c cs) = IsPlain c × ArePlain cs

mutual
  unfolding holds any_holds all_hold linked IsPlain ArePlain IsPlainOp IsPlainLink

  holds_total :
      (events : List Entry) (e : Entry) (c : Condition)
      → IsPlain c
      → (b : Bool) × (holds events e c ≡ some b)
  holds_total events e Condition.committed h = (_, refl)
  holds_total events e (Condition.field path Op.exists value) h = (_, refl)
  holds_total events e (Condition.field path Op.eq value) h = (_, refl)
  holds_total events e (Condition.field path Op.ne value) h = (_, refl)
  holds_total events e (Condition.field path Op.in_list value) h = absurd h
  holds_total events e (Condition.field path Op.gte value) h = absurd h
  holds_total events e (Condition.field path Op.lte value) h = absurd h
  holds_total events e (Condition.field path (Op.unknown_op name) value) h = (_, refl)
  holds_total events e (Condition.linked_to Link.approval_ref target) h = absurd h
  holds_total events e (Condition.linked_to Link.same_task target) h = (_, refl)
  holds_total events e (Condition.linked_to Link.same_context target) h = (_, refl)
  holds_total events e (Condition.linked_to Link.references_root target) h = (_, refl)
  holds_total events e (Condition.linked_to (Link.unknown_link name) target) h = absurd h
  holds_total events e (Condition.any_of cs) h = any_holds_total events e cs h
  holds_total events e (Condition.all_of cs) h = all_hold_total events e cs h
  holds_total events e (Condition.not_all cs) h =
      let (b, made) = all_hold_total events e cs h in (not b, rw made refl)
  holds_total events e (Condition.unknown_type t) h = absurd h

  any_holds_total :
      (events : List Entry) (e : Entry) (cs : Conditions)
      → ArePlain cs
      → (b : Bool) × (any_holds events e cs ≡ some b)
  any_holds_total events e Conditions.no_more h = (false, refl)
  any_holds_total events e (Conditions.more c cs) h =
      let (a, first) = holds_total events e c h.0 in
      let (b, later) = any_holds_total events e cs h.1 in (a || b, rw (first, later) (ground arith))

  all_hold_total :
      (events : List Entry) (e : Entry) (cs : Conditions)
      → ArePlain cs
      → (b : Bool) × (all_hold events e cs ≡ some b)
  all_hold_total events e Conditions.no_more h = (true, refl)
  all_hold_total events e (Conditions.more c cs) h =
      let (a, first) = holds_total events e c h.0 in
      let (b, later) = all_hold_total events e cs h.1 in (a && b, rw (first, later) (ground arith))
