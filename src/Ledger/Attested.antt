-- ===== src/Ledger/Attested.antt =====
-- The records of a log in step, seen from its leaves (src/openwright/ledger.py).
use openwright.Ledger.Invariant.{IsAttested, AttestedFrom, InStep}
use openwright.Ledger.Records.{IsHash, all_leaf_bytes-cons, fromhex_of_text}
use openwright.Signing.{Platform}
use openwright.Ledger.{
  leaf_bytes_from_record, ComplianceEvent, LedgerBackend, Ledger, leaf_content_bytes,
  all_leaf_bytes, LedgerFields, last_segment, stored_leaf_hash,
}
use openwright.Merkle.{leaf_hash}
use openwright.Common.{
  fromhex, ℕ, zero, suc, ◌≡◌, refl, sym, ap, ◌∙◌, subst, Option, some, List, [], ◌∷◌,
  some-injective, get_elem?, All, All-each, Bytes, Text, IsByte,
}

leaf_bytes_from_attested :
    (p : Platform) (i : ℕ) (r : ComplianceEvent)
    → IsHash p.sha256
    → IsAttested p i r
    → (content : Bytes) × (leaf_content_bytes p r ≡ some content)
      × (leaf_bytes_from_record r ≡ some (leaf_hash p.sha256 content))
unfolding leaf_bytes_from_record
leaf_bytes_from_attested p i r hash (content, fields, made, at, text, idx) = (
  content,
  made,
  ap (λ (l : Option LedgerFields). fromhex (last_segment [] (stored_leaf_hash l))) at
      ∙ ap (λ (s : Text). fromhex (last_segment [] s)) text
      ∙ fromhex_of_text (leaf_hash p.sha256 content)
          (unfold leaf_hash in hash.bytes (0x00 ∷ content)),
)

attested_leaf :
    (p : Platform) (k : ℕ) (rs : List ComplianceEvent) (hs : List Bytes) (i : ℕ) (h : Bytes)
    → IsHash p.sha256
    → AttestedFrom p k rs
    → all_leaf_bytes rs ≡ some hs
    → get_elem? hs i ≡ some h
    → (r : ComplianceEvent) × (content : Bytes) × (get_elem? rs i ≡ some r)
      × (leaf_content_bytes p r ≡ some content)
      × (h ≡ leaf_hash p.sha256 content)
attested_leaf p k [] hs i h hash a read at =
    let none_left : [] ≡ hs = some-injective (unfold all_leaf_bytes in read) in
    let bad : get_elem? {A = Bytes} [] i ≡ some h = rw (← none_left) at at in cc
attested_leaf p k (r ∷ rs) hs zero h hash a read at =
    let (content, made, leaf) = leaf_bytes_from_attested p k r hash a.0 in
    let (b, bs, first, rest, whole) = all_leaf_bytes-cons r rs hs read in
    let at' : get_elem? (b ∷ bs) 0 ≡ some h = rw (← whole) at at in
    (r, content, refl, made, some-injective (sym at' ∙ sym first ∙ leaf))
attested_leaf p k (r ∷ rs) hs (suc i) h hash a read at =
    let (b, bs, first, rest, whole) = all_leaf_bytes-cons r rs hs read in
    let at' : get_elem? (b ∷ bs) (suc i) ≡ some h = rw (← whole) at at in
    attested_leaf p (suc k) rs bs i h hash a.1 rest at'

-- In a log in step each leaf is the hash of the content of the record at its position.
pub InStep-leaf :
    (p : Platform) {B : Type 0} (backend : LedgerBackend B) (l : Ledger B) (i : ℕ) (h : Bytes)
    → IsHash p.sha256
    → InStep p backend l
    → get_elem? l.leaves i ≡ some h
    → (r : ComplianceEvent) × (content : Bytes) × (get_elem? (backend.iter_records l.store) i
        ≡ some r)
      × (leaf_content_bytes p r ≡ some content)
      × (h ≡ leaf_hash p.sha256 content)
InStep-leaf p backend l i h hash inv at =
    attested_leaf p 0 (backend.iter_records l.store) l.leaves i h hash inv.attested inv.stored at

-- The leaves of a log in step are of bytes.
pub InStep-leaves_bytes :
    (p : Platform) {B : Type 0} (backend : LedgerBackend B) (l : Ledger B)
    → IsHash p.sha256
    → InStep p backend l
    → All (All IsByte) l.leaves
InStep-leaves_bytes p backend l hash inv = All-each (All IsByte) l.leaves (λ i h at.
    let (r, content, found, made, is_leaf) = InStep-leaf p backend l i h hash inv at in
    subst (All IsByte) (sym is_leaf) (unfold leaf_hash in hash.bytes (0x00 ∷ content)))

-- A record of a log in step is attested.
pub AttestedFrom-get :
    (p : Platform) (k : ℕ) (rs : List ComplianceEvent) (i : ℕ) (r : ComplianceEvent)
    → AttestedFrom p k rs
    → get_elem? rs i ≡ some r
    → (j : ℕ) × IsAttested p j r
AttestedFrom-get p k [] i r a h = cc
AttestedFrom-get p k (q ∷ rs) zero r a h = (k, subst (IsAttested p k) (some-injective h) a.0)
AttestedFrom-get p k (q ∷ rs) (suc i) r a h = AttestedFrom-get p (suc k) rs i r a.1 h
