-- ===== src/Report/Gaps.antt =====
-- `evidence_gaps` of a report (src/openwright/report.py) over events that were committed.
use openwright.Crosswalk.Values.{lookup, eq_value}
use openwright.Report.Floats.{
  canonical_bytes-float, has_float-text_items, has_float-read_block, has_float-dget,
}
use openwright.Common.{
  bytes_eq, hex, ℕ, ◌≡◌, refl, Bool, true, false, Option, none, some, List, ◌∷◌, map, if◌then◌else◌,
  Bytes, Text, codes,
}
use openwright.Canonical.{Items, Value}
use openwright.Canonical.Clean.{has_float, has_float_items, has_float_fields}
use openwright.Signing.{Platform}
use openwright.Ledger.{ComplianceEvent, leaf_content_bytes}
use openwright.Report.Content.{Packed, evidence_gaps, item_of, gap_entry}
use openwright.Report.Entries.{IsDump, Stands}
use openwright.Crosswalk.{dump}
use openwright.Dicts.{dget, dget_or}

module _ (p : Platform) (root : Bytes) (n : ℕ) (ev : ComplianceEvent) (i : ℕ) (path : List Bytes)
    (leaf : Bytes) (s : Stands p root n ev i path leaf) where
  body_clear : has_float_fields ev.body ≡ false
  unfolding leaf_content_bytes has_float has_float_fields
  body_clear = canonical_bytes-float p.dumps _ s.content s.made

  dump_clear : has_float_fields (dump ev) ≡ false
  unfolding has_float has_float_fields
  dump_clear =
      rw s.committed
        (elim s.fields.retention_until
          as (λ (o : Option Text).
            has_float_fields
              (dump (record ev { ledger = some (record s.fields { retention_until = o }) }))
            ≡ false) [ none ↦ body_clear | some t ↦ body_clear ])

  -- The packed event holds no float.
  pub item_of_clear : has_float_fields (item_of ev i (map hex path)) ≡ false
  unfolding has_float has_float_fields has_float_items
  item_of_clear = rw (dump_clear, has_float-text_items (map hex path), s.committed) refl

  attributes_of : dget (codes "attributes") (dump ev) ≡ dget (codes "attributes") ev.body
  unfolding dget_or lookup bytes_eq
  attributes_of = rw s.committed refl

  chosen_clear :
      (b : Bool) (v : Value) (rest : Items)
      → has_float v ≡ false
      → has_float_items rest ≡ false
      → has_float_items (if b then Items.item v rest else rest) ≡ false
  unfolding has_float_items
  chosen_clear true v rest hv hr = rw (hv, hr) refl
  chosen_clear false v rest hv hr = hr

  entry_clear :
      (d : IsDump ev.body) → has_float (gap_entry (dump ev) d.attributes (Value.int i)) ≡ false
  unfolding has_float has_float_fields
  entry_clear d =
      let attrs_clear =
        has_float-read_block (dget (codes "attributes") ev.body) d.attributes
          (has_float-dget (codes "attributes") ev.body body_clear) d.described in
      rw
        (
          has_float-dget (codes "event_id") (dump ev) dump_clear,
          has_float-dget (codes "dropped_events") d.attributes attrs_clear,
          has_float-dget (codes "window_start") d.attributes attrs_clear,
          has_float-dget (codes "window_end") d.attributes attrs_clear,
        )
        refl

  -- The gap entries of the packed event and of the ones after it.
  pub evidence_gaps-more :
      (d : IsDump ev.body) (time agent : Text) (qs : List Packed) (rest : Items)
      → evidence_gaps qs ≡ some rest
      → has_float_items rest ≡ false
      → (gaps : Items) × (evidence_gaps
            (record { timestamp = time; agent_id = agent; item = item_of ev i (map hex path) } ∷ qs)
          ≡ some gaps)
        × (has_float_items gaps ≡ false)
  unfolding evidence_gaps dget_or lookup bytes_eq
  evidence_gaps-more d time agent qs rest gathered clear =
      let marked : Bool =
        eq_value (dget (codes "marker") d.attributes) (Value.str (codes "evidence_gap")) in
      (
        if marked then Items.item (gap_entry (dump ev) d.attributes (Value.int i)) rest else rest,
        rw (attributes_of, d.described, gathered) refl,
        chosen_clear marked _ rest (entry_clear d) clear,
      )
