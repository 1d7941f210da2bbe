-- ===== src/Report/Verified.antt =====
-- A report that `build_report` of src/openwright/report.py makes, before `verify_report` of verify.py.
use openwright.Report.Placed.{Placed, check_full_tree-Placed}
use openwright.Merkle.Frontier.Head.{root-Represents}
use openwright.Dicts.{iterate, dget_or, int_of, items_of, set_field, dget, read_block}
use openwright.Crosswalk.Values.{lookup, truthy}
use openwright.Common.{
  bytes_eq, hex, ℕ, ◌≡◌, refl, ap, ◌∙◌, subst, Bool, true, Option, some, List, map, if◌then◌else◌,
  some-injective, length, All, Bytes, Text, codes, IsByte, fromhex-hex,
}
use openwright.Canonical.{Fields, Items, Value, clean}
use openwright.Crosswalk.Schema.{Crosswalk}
use openwright.Signing.{Platform, KeySource, Signs, Checkpoint, key_id, signing_bytes}
use openwright.Ledger.{LedgerBackend, Ledger, checkpoint, root_hex}
use openwright.Ledger.Invariant.{InStep}
use openwright.Merkle.{tree_hash}
use openwright.Verify.{
  start as fresh, VerificationResult, Libraries, head_of, check, Check, establish_key, trusting,
  check_report_signature, check_checkpoint,
}
use openwright.Verify.Events.{Seen, check_events, nothing_seen, check_full_tree}
use openwright.Verify.Report.{
  events_of, verify_events, finish, verify_report, verify_trusting, verify_with, verify_headed,
}
use openwright.Report.{signing_payload}
use openwright.Report.Content.{
  Packed, Request, CrosswalkResult, assemble, dump_checkpoint, items_packed,
}
use openwright.Report.Cited.{Cites, check_controls-Cites}
use openwright.Report.Signed.{
  signed_report, establish_key-pem, check_checkpoint-signed, check_report_signature-signed,
}

-- The checkpoint of a log, as the verifier needs it.
pub record Heads (p : Platform) (key : KeySource) (ls : List Bytes) (cp : Checkpoint) : Type 0 where
  pub content : Bytes
  pub sized : cp.tree_size ≡ length ls
  pub rooted : cp.root_hash ≡ hex (tree_hash p.sha256 ls)
  pub named : cp.public_key_id ≡ key_id p key
  pub made : signing_bytes p cp ≡ some content
  pub signed : cp.signature ≡ p.b64encode (key.sign content)

pub checkpoint-Heads :
    (p : Platform) {B : Type 0} (backend : LedgerBackend B) (key : KeySource) (origin now : Text)
    (l : Ledger B) (cp : Checkpoint)
    → InStep p backend l
    → checkpoint p backend key origin l now ≡ some cp
    → Heads p key l.leaves cp
unfolding checkpoint root_hex clean signing_bytes
checkpoint-Heads p backend key origin now l cp inv h =
    subst (Heads p key l.leaves) (some-injective h) (record {
      content = _;
      sized = refl;
      rooted = ap hex (root-Represents p.sha256 l.tree l.leaves inv.represents);
      named = refl;
      made = refl;
      signed = refl;
    })

head_of-Heads :
    (p : Platform) (key : KeySource) (ls : List Bytes) (cp : Checkpoint)
    → All IsByte (tree_hash p.sha256 ls)
    → Heads p key ls cp
    → head_of (dump_checkpoint cp) ≡ some (tree_hash p.sha256 ls, (true, length ls))
unfolding head_of lookup bytes_eq int_of
head_of-Heads p key ls cp bytes h =
    rw (h.rooted, fromhex-hex (tree_hash p.sha256 ls) bytes, h.sized) refl

verify_report_reaches :
    (p : Platform) (w : Libraries) (deep : Bool) (crosswalk : Option Crosswalk) (report cp : Fields)
    (raw : Bytes) (res signed headed : VerificationResult) (root : Bytes) (n : ℕ)
    → establish_key w.pem_key (some raw) (dget (codes "public_key_pem") report) ≡ trusting raw res
    → check_report_signature p raw report res ≡ some signed
    → read_block (dget (codes "checkpoint") report) ≡ some cp
    → check_checkpoint p raw cp signed ≡ some headed
    → head_of cp ≡ some (root, (true, n))
    → verify_report p w deep crosswalk report (some raw)
      ≡ verify_events p w deep crosswalk report root (true, n) headed
unfolding verify_report verify_trusting verify_with verify_headed
verify_report_reaches p w deep crosswalk report cp raw res signed headed root n key sig block
      checked head =
    rw (key, sig, block, checked, head) refl

iterate_or_empty :
    (vs : Items)
    → iterate (if truthy (Value.list vs) then Value.list vs else Value.list Items.nil)
      ≡ some (items_of vs)
unfolding iterate
iterate_or_empty Items.nil = refl
iterate_or_empty (Items.item v vs) = refl

module _ (p : Platform) (w : Libraries) (deep : Bool) (crosswalk : Option Crosswalk)
    (key : KeySource) (signs : Signs p key) (req : Request) (cr : CrosswalkResult) (cp : Checkpoint)
    (qs : List Packed) (gaps : Items) (pem payload : Bytes) where
  abbrev the_report : Fields
  the_report = signed_report p key signs req cr cp qs gaps pem payload

  events_of_report : iterate (events_of the_report) ≡ some (items_of (items_packed qs))
  unfolding dget_or lookup bytes_eq assemble set_field
  events_of_report = iterate_or_empty (items_packed qs)

  -- What is left when everything else has been checked: nothing, or the deep mode.
  abbrev pub Finishes : Type 0
  Finishes =
      (res : VerificationResult)
      → res.valid ≡ true
      → (res' : VerificationResult) × (finish p w deep crosswalk the_report res ≡ some res')
        × (res'.valid ≡ true)

  -- From the events on.
  verify_events-accepts :
      (hs : List Bytes) (n : ℕ) (seen : Seen) (ids : List Text) (res : VerificationResult)
      → length hs ≡ n
      → check_events p (tree_hash p.sha256 hs) (true, n) (items_of (items_packed qs)) nothing_seen
        ≡ some seen
      → seen.leaf_ok_all ≡ true
      → seen.incl_ok_all ≡ true
      → Placed hs seen.leaves_by_index
      → seen.present_ids ≡ map (λ (i : Text). Value.str i) ids
      → All (Cites ids) cr.controls
      → res.valid ≡ true
      → Finishes
      → (res' : VerificationResult) × (verify_events p w deep crosswalk the_report
            (tree_hash p.sha256 hs)
            (true, n)
            res
          ≡ some res')
        × (res'.valid ≡ true)
  unfolding verify_events dget_or lookup bytes_eq assemble set_field iterate
  verify_events-accepts hs n seen ids res size looped leaf_ok incl_ok placed present cites valid
        finishes =
      let before : VerificationResult =
        check Check.inclusion_proofs seen.incl_ok_all
          (check Check.event_leaf_hashes seen.leaf_ok_all res) in
      let whole : VerificationResult =
        check_full_tree p (tree_hash p.sha256 hs) (true, n) seen.leaves_by_index before in
      let (res', found, kept) = check_controls-Cites ids cr.controls whole cites in
      let same = check_full_tree-Placed p hs n seen.leaves_by_index before size placed in
      let (final, done, ok) =
        finishes (check Check.evidence_events_present true res')
          (rw (kept, same, valid, leaf_ok, incl_ok) refl) in
      (final, rw (events_of_report, looped, present, found) done, ok)

  -- The whole of the verifier, for a report whose payload was signed.
  pub verify_report-accepts :
      (pem_of : Bytes → Text) (hs : List Bytes) (seen : Seen) (ids : List Text)
      → w.pem_key (pem_of key.public_key_raw) ≡ some key.public_key_raw
      → pem ≡ pem_of key.public_key_raw
      → signing_payload p (assemble req cr cp qs gaps pem) ≡ some payload
      → Heads p key hs cp
      → All IsByte (tree_hash p.sha256 hs)
      → check_events p
          (tree_hash p.sha256 hs)
          (true, length hs)
          (items_of (items_packed qs))
          nothing_seen
        ≡ some seen
      → seen.leaf_ok_all ≡ true
      → seen.incl_ok_all ≡ true
      → Placed hs seen.leaves_by_index
      → seen.present_ids ≡ map (λ (i : Text). Value.str i) ids
      → All (Cites ids) cr.controls
      → Finishes
      → (res : VerificationResult) × (verify_report p w deep crosswalk the_report
            (some key.public_key_raw)
          ≡ some res)
        × (res.valid ≡ true)
  unfolding dget_or lookup bytes_eq assemble set_field
  verify_report-accepts pem_of hs seen ids pem_key is_pem made heads bytes looped leaf_ok incl_ok
        placed present cites finishes =
      let signed : VerificationResult = check Check.report_signature true fresh in
      let headed : VerificationResult = check Check.checkpoint_signature true signed in
      let (res, ran, valid) =
        verify_events-accepts hs (length hs) seen ids headed refl looped leaf_ok incl_ok placed
          present cites refl finishes in
      (
        res,
        verify_report_reaches p w deep crosswalk the_report (dump_checkpoint cp) key.public_key_raw
              fresh signed headed (tree_hash p.sha256 hs) (length hs)
              (rw is_pem (establish_key-pem w pem_of key.public_key_raw pem_key))
              (check_report_signature-signed p key signs req cr cp qs gaps pem payload fresh made)
              refl
              (check_checkpoint-signed p key signs cp heads.content signed heads.named heads.made
                heads.signed)
              (head_of-Heads p key hs cp bytes heads)
            ∙ ran,
        valid,
      )
