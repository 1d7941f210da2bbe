-- ===== src/Receipt/Malformed.antt =====
-- What `verify_and_normalize` of src/openwright/adapters/receipt.py refuses otherwise than its file says.
use openwright.Ledger.{ComplianceEvent}
use openwright.Canonical.{Value, Fields, canonical_bytes}
use openwright.Canonical.Clean.{has_float, clean_lem}
use openwright.Common.{ℕ, ◌≡◌, Bool, true, ◌&&◌, Option, some, arith, Bytes, Text, codes}
use openwright.Crosswalk.Values.{truthy}
use openwright.Dicts.{without, dget, read_dict}
use openwright.Signing.{Platform}
use openwright.Receipt.{
  receipt_signing_bytes, ComplianceEvent, verify_and_normalize, of_receipt, of_parts, decoded,
  decode, Outcome,
}
use openwright.Receipt.{
  Outcome, decode, verify_and_normalize, of_receipt, of_parts, decoded, receipt_signing_bytes,
}
use openwright.Canonical.{canonical_bytes}
use openwright.Canonical.Clean.{clean_lem, has_float}

-- A receipt that holds a float in what is signed, say a fractional unix time, makes
-- `verify_and_normalize` raise the error of canonical.py in place of ReceiptVerificationError, when
-- its action and its signer are dictionaries and its signature and its key decode.
pub verify_and_normalize-float :
    (p : Platform) (calendar : Bool × ℕ → Option Text) (validate : Fields → Option ComplianceEvent)
    (r action signer : Fields) (d : Option Text) (sig pub_raw : Bytes)
    → read_dict (dget (codes "action") r) ≡ some action
    → read_dict (dget (codes "signer") r) ≡ some signer
    → (truthy (dget (codes "sig") r) && truthy (dget (codes "pubkey") signer)) ≡ true
    → decode p (dget (codes "sig") r) ≡ some sig
    → decode p (dget (codes "pubkey") signer) ≡ some pub_raw
    → has_float (Value.dict (without (codes "sig") r)) ≡ true
    → verify_and_normalize p calendar validate (Value.dict r) d ≡ Outcome.raised
unfolding verify_and_normalize of_receipt of_parts decoded receipt_signing_bytes canonical_bytes
verify_and_normalize-float p calendar validate r action signer d sig pub_raw has_action has_signer
      present has_sig has_key found =
    let refused = (clean_lem (Value.dict (without (codes "sig") r))).0 found in
    rw (has_action, has_signer, has_sig, has_key, refused) (ground (arith, present))
