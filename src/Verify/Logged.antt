-- ===== src/Verify/Logged.antt =====
-- A report that `verify_report` of src/openwright/verify.py calls valid, against the ledger whose
-- head it carries.
use openwright.Crosswalk.Schema.{Crosswalk}
use openwright.Verify.Valid.{verify_report_valid}
use openwright.Verify.Report.{verify_report, events_of}
use openwright.Ledger.Attested.{InStep-leaf}
use openwright.Merkle.Frontier.Head.{root-Represents}
use openwright.Merkle.Binding.{verify_inclusion-out, verify_inclusion_sound}
use openwright.Crosswalk.Values.{number}
use openwright.Verify.Steps.{EventHolds}
use openwright.Ledger.Invariant.{InStep}
use openwright.Ledger.Records.{IsHash}
use openwright.Canonical.{Fields, canonical_bytes, Value}
use openwright.Merkle.{tree_hash, verify_inclusion, leaf_hash}
use openwright.Ledger.{LedgerBackend, Ledger, ComplianceEvent, leaf_content_bytes}
use openwright.Verify.{leaf_from_event, Fields, VerificationResult, head_of, Libraries, Crosswalk}
use openwright.Verify.Events.{included}
use openwright.Signing.{Platform}
use openwright.Merkle.Frontier
use openwright.Common.{
  ℕ, zero, suc, ◌≤◌, ◌≡◌, refl, sym, ap, ◌∙◌, subst, ◌⊎◌, inl, inr, Bool, true, false, Option, none,
  some, List, [], ◌∷◌, arith, Option-cases, some-injective, length, get_elem?, All, Bytes,
  Collision, eq_or_Collision, codes,
}
use openwright.Dicts.{Number, without, read_dict, read_block, dget, iterate}

-- The event of the item has the canonical bytes of the record that the ledger committed at the
-- index that the item states.
pub record EventLogged (p : Platform) {B : Type 0} (backend : LedgerBackend B) (l : Ledger B)
    (item : Value) : Type 0 where
  pub it : Fields
  pub ev : Fields
  pub index : ℕ
  pub committed : ComplianceEvent
  pub is_item : read_dict item ≡ some it
  pub is_event : read_block (dget (codes "event") it) ≡ some ev
  pub placed : number (dget (codes "leaf_index") it) ≡ some (true, index)
  pub found : get_elem? (backend.iter_records l.store) index ≡ some committed
  pub same_bytes :
      canonical_bytes p.dumps (Value.dict (without (codes "ledger") ev))
      ≡ leaf_content_bytes p committed

get_elem?-outside : (ls : List Bytes) (i : ℕ) → get_elem? ls i ≡ none → length ls ≤ i
get_elem?-outside [] i h = omega arith
get_elem?-outside (x ∷ ls) zero h = cc
get_elem?-outside (x ∷ ls) (suc i) h = omega (arith, get_elem?-outside ls i h)

length-leaf_hash :
    (sha256 : Bytes → Bytes)
    → ((x : Bytes) → length (sha256 x) ≡ 32)
    → (content : Bytes) → length (leaf_hash sha256 content) ≡ 32
unfolding leaf_hash
length-leaf_hash sha256 sized content = sized (0x00 ∷ content)

-- Equal leaf hashes are those of one content, or exhibit a collision.
leaf_hash-binding :
    (sha256 : Bytes → Bytes) (a b : Bytes)
    → leaf_hash sha256 a ≡ leaf_hash sha256 b
    → (a ≡ b) ⊎ Collision sha256
unfolding leaf_hash
leaf_hash-binding sha256 a b h = elim (eq_or_Collision sha256 (0x00 ∷ a) (0x00 ∷ b) h) [
  | inl same ↦ inl (cc)
  | inr collision ↦ inr collision
]

included_at :
    (p : Platform) (idx : Number) (ls : List Bytes) (leaf : Bytes) (proof : List Bytes)
    → included p idx (true, length ls) leaf proof (tree_hash p.sha256 ls) ≡ true
    → (i : ℕ) × (stored : Bytes) × (idx ≡ (true, i))
      × (get_elem? ls i ≡ some stored)
      × (verify_inclusion p.sha256 i (length ls) leaf proof (tree_hash p.sha256 ls) ≡ true)
unfolding included
included_at p (false, i) ls leaf proof h = cc
included_at p (true, i) ls leaf proof h = elim (Option-cases (get_elem? ls i)) [
  | inl out ↦
      let refused : verify_inclusion p.sha256 i (length ls) leaf proof (tree_hash p.sha256 ls)
          ≡ false =
        verify_inclusion-out p.sha256 i (length ls) leaf proof (tree_hash p.sha256 ls)
          (get_elem?-outside ls i out) in
      cc
  | inr (stored, at) ↦ (i, stored, refl, at, h)
]

leaf_from_event_lem :
    (p : Platform) (ev : Fields) (leaf : Bytes)
    → leaf_from_event p ev ≡ some leaf
    → (content : Bytes) × (canonical_bytes p.dumps (Value.dict (without (codes "ledger") ev))
        ≡ some content)
      × (leaf ≡ leaf_hash p.sha256 content)
unfolding leaf_from_event
leaf_from_event_lem p ev leaf h =
    elim (Option-cases (canonical_bytes p.dumps (Value.dict (without (codes "ledger") ev)))) [
      | inl bad ↦ ground arith
      | inr (content, made) ↦ (content, made, some-injective (sym h ∙ rw made refl))
    ]

module _ (p : Platform) {B : Type 0} (backend : LedgerBackend B) (l : Ledger B) where
  event_logged :
      IsHash p.sha256
      → InStep p backend l
      → (item : Value) → EventHolds p (Frontier.root p.sha256 l.tree) (true, length l.leaves) item
      → EventLogged p backend l item ⊎ Collision p.sha256
  event_logged hash inv item e =
      let root_is = root-Represents p.sha256 l.tree l.leaves inv.represents in
      let (i, stored, is_idx, at, accepted) =
        included_at p e.idx l.leaves e.leaf e.proof (rw root_is at e.inclusion) in
      let (r, content, found, made, stored_is) = InStep-leaf p backend l i stored hash inv at in
      let (bytes, bytes_made, leaf_is) = leaf_from_event_lem p e.ev e.leaf e.recomputed in
      elim (verify_inclusion_sound p.sha256 hash.sized l.leaves i stored e.leaf e.proof at
        (rw stored_is (length-leaf_hash p.sha256 hash.sized content))
        (rw leaf_is (length-leaf_hash p.sha256 hash.sized bytes)) accepted) [
          | inr collision ↦ inr collision
          | inl same ↦
              elim (leaf_hash-binding p.sha256 bytes content (sym leaf_is ∙ same ∙ stored_is)) [
                | inr collision ↦ inr collision
                | inl equal ↦ inl (record {
                  it = e.it;
                  ev = e.ev;
                  index = i;
                  committed = r;
                  is_item = e.is_item;
                  is_event = e.is_event;
                  placed = e.placed ∙ ap some is_idx;
                  found = found;
                  same_bytes = bytes_made ∙ ap some equal ∙ sym made;
                })
              ]
        ]

  each_logged :
      IsHash p.sha256
      → InStep p backend l
      → (items : List Value)
      → All (EventHolds p (Frontier.root p.sha256 l.tree) (true, length l.leaves)) items
      → All (EventLogged p backend l) items ⊎ Collision p.sha256
  each_logged hash inv [] h = inl tt
  each_logged hash inv (item ∷ items) h = elim (event_logged hash inv item h.0) [
    | inr collision ↦ inr collision
    | inl one ↦ elim (each_logged hash inv items h.1) [
      | inr collision ↦ inr collision
      | inl rest ↦ inl (one, rest)
    ]
  ]

  -- When `verify_report` returns a valid result for a report whose checkpoint states the root and the
  -- size of a ledger in step, then each event in the report has the canonical bytes of the record
  -- that the ledger committed at the stated index, or SHA-256 has a collision.
  pub verify_report_logged :
      (w : Libraries) (deep : Bool) (crosswalk : Option Crosswalk) (report : Fields)
      (trusted : Option Bytes) (res : VerificationResult) (cp : Fields)
      → IsHash p.sha256
      → InStep p backend l
      → verify_report p w deep crosswalk report trusted ≡ some res
      → res.valid ≡ true
      → read_block (dget (codes "checkpoint") report) ≡ some cp
      → head_of cp ≡ some (Frontier.root p.sha256 l.tree, (true, length l.leaves))
      → ((items : List Value) × (iterate (events_of report) ≡ some items)
          × All (EventLogged p backend l) items)
        ⊎ Collision p.sha256
  verify_report_logged w deep crosswalk report trusted res cp hash inv h v is_cp head =
      let (key, same, a, derived) = verify_report_valid p w deep crosswalk report trusted res h v in
      let same_cp : a.cp ≡ cp = some-injective (sym a.is_checkpoint ∙ is_cp) in
      let same_head : (a.root, a.size) ≡ (Frontier.root p.sha256 l.tree, (true, length l.leaves)) =
        some-injective (sym a.head ∙ ap head_of same_cp ∙ head) in
      let held =
        subst (λ (q : Bytes × Number). All (EventHolds p q.0 q.1) a.items) same_head
          a.events_hold in
      elim (each_logged hash inv a.items held) [
        | inr collision ↦ inr collision
        | inl logged ↦ inl (a.items, a.is_items, logged)
      ]
