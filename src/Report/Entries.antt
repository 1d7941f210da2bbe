-- ===== src/Report/Entries.antt =====
-- An event that `build_report` of src/openwright/report.py packs, before the loop of `verify_report`.
use openwright.Crosswalk.Values.{lookup}
use openwright.Ledger.Records.{fromhex_of_text}
use openwright.Verify.{leaf_from_event}
use openwright.Common.{
  bytes_eq, hex, ℕ, ◌≡◌, refl, true, ◌&&◌, some, List, [], ◌∷◌, ◌++◌, map, All, Bytes,
  bytes_eq_refl, Text, codes, IsByte, fromhex-hex,
}
use openwright.Canonical.{Fields, Value}
use openwright.Signing.{Platform}
use openwright.Ledger.{ComplianceEvent, LedgerFields, leaf_content_bytes}
use openwright.Verify.Events.{Seen, stored_leaf, unhex_values, check_event, included, put_leaf}
use openwright.Crosswalk.{dump}
use openwright.Dicts.{dget, text_items, without, items_of, dget_or, iterate, read_block}
use openwright.Merkle.{leaf_hash, verify_inclusion}
use openwright.Report.Content.{item_of, stated_hash, text_field, agent_of}

-- What validation promises of the dump of an event's own fields: there is no `ledger` among them,
-- and the time, the agent and the attributes are what they should be.
pub record IsDump (body : Fields) : Type 0 where
  pub no_ledger : without (codes "ledger") body ≡ body
  pub time : Text
  pub agent : Text
  pub attributes : Fields
  pub timed : text_field (codes "timestamp") body ≡ some time
  pub acted : agent_of body ≡ some agent
  pub described : read_block (dget (codes "attributes") body) ≡ some attributes

unhex_values-hex :
    (path : List Bytes)
    → All (All IsByte) path
    → unhex_values (items_of (text_items (map hex path))) ≡ some path
unfolding unhex_values
unhex_values-hex [] h = refl
unhex_values-hex (x ∷ path) h = rw (fromhex-hex x h.0, unhex_values-hex path h.1) refl

without-dump :
    (ev : ComplianceEvent) (l : LedgerFields)
    → ev.ledger ≡ some l
    → without (codes "ledger") ev.body ≡ ev.body
    → without (codes "ledger") (dump ev)
      ≡ Fields.field (codes "event_id") (Value.str ev.event_id) ev.body
unfolding without bytes_eq
without-dump ev l committed clean_body = rw (committed, clean_body) refl

module _ (p : Platform) (root : Bytes) (n : ℕ) where
  -- The packed event is that of a committed record, with a path that is accepted.
  pub record Stands (ev : ComplianceEvent) (i : ℕ) (path : List Bytes) (leaf : Bytes) : Type 0 where
    pub fields : LedgerFields
    pub content : Bytes
    pub committed : ev.ledger ≡ some fields
    pub made : leaf_content_bytes p ev ≡ some content
    pub is_leaf : leaf ≡ leaf_hash p.sha256 content
    pub leaf_bytes : All IsByte leaf
    pub text : fields.leaf_hash ≡ codes "sha256:" ++ hex leaf
    pub clean_body : without (codes "ledger") ev.body ≡ ev.body
    pub path_bytes : All (All IsByte) path
    pub accepted : verify_inclusion p.sha256 i n leaf path root ≡ true

  leaf_from_event-dump :
      (ev : ComplianceEvent) (i : ℕ) (path : List Bytes) (leaf : Bytes)
      → Stands ev i path leaf
      → leaf_from_event p (dump ev) ≡ some leaf
  unfolding leaf_from_event leaf_content_bytes
  leaf_from_event-dump ev i path leaf s =
      rw (without-dump ev s.fields s.committed s.clean_body, s.made, s.is_leaf) refl

  stored_leaf-item :
      (ev : ComplianceEvent) (i : ℕ) (path : List Bytes) (leaf : Bytes)
      → Stands ev i path leaf
      → stored_leaf (stated_hash ev) ≡ some leaf
  unfolding stored_leaf
  stored_leaf-item ev i path leaf s =
      rw (s.committed, s.text, fromhex_of_text leaf s.leaf_bytes) refl

  -- What one turn of the loop adds.
  abbrev pub noted : ComplianceEvent → ℕ → Bytes → Seen → Seen
  unfolding put_leaf
  noted ev i leaf seen = record {
    present_ids = seen.present_ids ++ Value.str ev.event_id ∷ [];
    leaves_by_index = put_leaf (true, i) leaf seen.leaves_by_index;
    leaf_ok_all = seen.leaf_ok_all && true;
    incl_ok_all = seen.incl_ok_all && true;
  }

  pub check_event-item_of :
      (ev : ComplianceEvent) (i : ℕ) (path : List Bytes) (leaf : Bytes) (seen : Seen)
      → Stands ev i path leaf
      → check_event p root (true, n) (Value.dict (item_of ev i (map hex path))) seen
        ≡ some (noted ev i leaf seen)
  unfolding check_event dget_or lookup bytes_eq iterate included
  check_event-item_of ev i path leaf seen s =
      rw
        (
          leaf_from_event-dump ev i path leaf s,
          stored_leaf-item ev i path leaf s,
          unhex_values-hex path s.path_bytes,
          bytes_eq_refl leaf,
          s.accepted,
        )
        refl
