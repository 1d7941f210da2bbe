-- ===== src/Report/Floats.antt =====
-- No float stands in a report that `build_report` of src/openwright/report.py assembles.
use openwright.Signing.{Checkpoint}
use openwright.Crosswalk.Values.{lookup, truthy}
use openwright.Common.{
  bytes_eq, ◌≡◌, refl, sym, subst, inl, inr, Bool, true, false, Option, none, some, List, [], ◌∷◌,
  arith, if◌then◌else◌, Bool-cases, some-injective, All, Bytes, Text, codes,
}
use openwright.Canonical.{Fields, Items, Value, canonical_bytes}
use openwright.Canonical.Clean.{has_float, has_float_items, has_float_fields, clean_lem}
use openwright.Dicts.{dget, text_items, dget_or, read_block, without}
use openwright.Report.Content.{
  assemble, Packed, Reported, dump_controls, optional, period_of, Request, CrosswalkResult,
  items_packed, agents_of,
}

pub canonical_bytes-float :
    (dumps : Value → Bytes) (v : Value) (content : Bytes)
    → canonical_bytes dumps v ≡ some content
    → has_float v ≡ false
unfolding canonical_bytes
canonical_bytes-float dumps v content h = elim (Bool-cases (has_float v)) [
  | inr clear ↦ clear
  | inl found ↦ let refused = (clean_lem v).0 found in ground (arith, refused, h)
]

pub canonical_bytes_total :
    (dumps : Value → Bytes) (v : Value)
    → has_float v ≡ false
    → (content : Bytes) × (canonical_bytes dumps v ≡ some content)
unfolding canonical_bytes
canonical_bytes_total dumps v h =
    let (w, cleaned, again) = (clean_lem v).1 h in (dumps w, rw cleaned refl)

pub has_float-text_items : (ss : List Text) → has_float_items (text_items ss) ≡ false
unfolding has_float has_float_items
has_float-text_items [] = refl
has_float-text_items (s ∷ ss) = has_float-text_items ss

chosen :
    (b : Bool) (v default : Value) (later : Option Value)
    → elim (if b then some v else later) as (λ _. Value) [ none ↦ default | some w ↦ w ]
      ≡ (if b then v else elim later as (λ _. Value) [ none ↦ default | some w ↦ w ])
chosen true v default later = refl
chosen false v default later = refl

dget-cons :
    (k j : Text) (v : Value) (d : Fields)
    → dget k (Fields.field j v d) ≡ (if bytes_eq k j then v else dget k d)
unfolding dget_or lookup
dget-cons k j v d = chosen (bytes_eq k j) v Value.null (lookup k d)

has_float-if :
    (b : Bool) (v w : Value)
    → has_float v ≡ false
    → has_float w ≡ false
    → has_float (if b then v else w) ≡ false
has_float-if true v w hv hw = hv
has_float-if false v w hv hw = hw

pub has_float-dget :
    (k : Text) (d : Fields) → has_float_fields d ≡ false → has_float (dget k d) ≡ false
unfolding has_float has_float_fields
has_float-dget k Fields.empty h = unfold dget_or lookup has_float in refl
has_float-dget k (Fields.field j v d) h =
    subst (λ (w : Value). has_float w ≡ false) (sym (dget-cons k j v d))
      (has_float-if (bytes_eq k j) v (dget k d) (ground (arith, h))
        (has_float-dget k d (ground (arith, h))))

has_float-falsy :
    (b : Bool) (d : Fields)
    → (if b then none else some Fields.empty) ≡ some d
    → has_float_fields d ≡ false
unfolding has_float_fields
has_float-falsy true d e = cc
has_float-falsy false d e =
    subst (λ (x : Fields). has_float_fields x ≡ false) (some-injective e) refl

pub has_float-read_block :
    (v : Value) (d : Fields)
    → has_float v ≡ false
    → read_block v ≡ some d
    → has_float_fields d ≡ false
unfolding has_float has_float_fields
has_float-read_block (Value.dict Fields.empty) d h e =
    subst (λ (x : Fields). has_float_fields x ≡ false) (some-injective e) refl
has_float-read_block (Value.dict (Fields.field k v fs)) d h e =
    subst (λ (x : Fields). has_float_fields x ≡ false) (some-injective e) h
has_float-read_block (Value.null) d h e = has_float-falsy (truthy (Value.null)) d e
has_float-read_block (Value.bool b) d h e = has_float-falsy (truthy (Value.bool b)) d e
has_float-read_block (Value.int n) d h e = has_float-falsy (truthy (Value.int n)) d e
has_float-read_block (Value.minus n) d h e = has_float-falsy (truthy (Value.minus n)) d e
has_float-read_block (Value.float r) d h e = has_float-falsy (truthy (Value.float r)) d e
has_float-read_block (Value.str s) d h e = has_float-falsy (truthy (Value.str s)) d e
has_float-read_block (Value.list vs) d h e = has_float-falsy (truthy (Value.list vs)) d e

has_float-dump_controls :
    (cs : List Reported)
    → All (λ c. has_float_fields c.result.citation ≡ false) cs
    → has_float_items (dump_controls cs) ≡ false
unfolding has_float has_float_items has_float_fields
has_float-dump_controls [] h = refl
has_float-dump_controls (c ∷ cs) h =
    rw
      (
        h.0,
        has_float-text_items c.result.evidence_event_ids,
        has_float-text_items c.result.gap_event_ids,
        has_float-dump_controls cs h.1,
      )
      refl

has_float-optional : (s : Option Text) → has_float (optional s) ≡ false
unfolding has_float
has_float-optional none = refl
has_float-optional (some s) = refl

has_float-period_of :
    (period : Option Fields) (qs : List Packed)
    → ((d : Fields) → period ≡ some d → has_float_fields d ≡ false)
    → has_float_fields (period_of period qs) ≡ false
unfolding has_float has_float_fields
has_float-period_of (some d) qs h = h d refl
has_float-period_of none [] h = refl
has_float-period_of none (q ∷ qs) h = refl

pub has_float-assemble :
    (req : Request) (cr : CrosswalkResult) (cp : Checkpoint) (qs : List Packed) (gaps : Items)
    (pem : Text)
    → ((d : Fields) → req.period ≡ some d → has_float_fields d ≡ false)
    → All (λ (c : Reported). has_float_fields c.result.citation ≡ false) cr.controls
    → has_float_items (items_packed qs) ≡ false
    → has_float_items gaps ≡ false
    → has_float (Value.dict (without (codes "signature") (assemble req cr cp qs gaps pem))) ≡ false
unfolding has_float has_float_items has_float_fields assemble without bytes_eq
has_float-assemble req cr cp qs gaps pem period citations packed found =
    rw
      (
        has_float-text_items (agents_of req.agent_ids qs),
        has_float-period_of req.period qs period,
        has_float-optional cr.crosswalk_content_hash,
        has_float-optional cr.disclaimer,
        has_float-dump_controls cr.controls citations,
        found,
        packed,
      )
      refl
