-- ===== src/Receipt/Verified.antt =====
-- What `verify_and_normalize` of src/openwright/adapters/receipt.py has checked when it gives an event.
use openwright.Crosswalk.Values.{truthy}
use openwright.Canonical.{Value, Fields}
use openwright.Canonical.Timestamp.{to_rfc3339}
use openwright.Common.{
  ℕ, ◌≡◌, refl, inl, inr, Bool, true, not, ◌||◌, Option, none, some, arith, Bool-cases, Bytes, Text,
  codes,
}
use openwright.Dicts.{dget, read_dict}
use openwright.Ledger.{ComplianceEvent}
use openwright.Signing.{Platform}
use openwright.Receipt.{
  Outcome, is_none, decode, checked, normalize, receipt_signing_bytes, event_fields, outcome,
  stamped, decoded, of_parts, of_receipt, verify_and_normalize, truthy,
}

module _ (p : Platform) (calendar : Bool × ℕ → Option Text)
    (validate : Fields → Option ComplianceEvent) where
  -- The event is what the receipt says, under a signature of the receipt that holds for the key in it.
  pub record Vouched (receipt : Value) (agent_id_default : Option Text) (ev : ComplianceEvent)
      : Type 0 where
    pub fields : Fields
    pub action : Fields
    pub signer : Fields
    pub sig : Bytes
    pub pub_raw : Bytes
    pub content : Bytes
    pub timestamp : Text
    pub is_dict : read_dict receipt ≡ some fields
    pub has_action : read_dict (dget (codes "action") fields) ≡ some action
    pub has_signer : read_dict (dget (codes "signer") fields) ≡ some signer
    pub has_sig : decode p (dget (codes "sig") fields) ≡ some sig
    pub has_key : decode p (dget (codes "pubkey") signer) ≡ some pub_raw
    pub covers : receipt_signing_bytes p fields ≡ some content
    pub verified : p.ed25519_verify pub_raw sig content ≡ true
    pub timed : to_rfc3339 calendar (dget (codes "ts") fields) ≡ some timestamp
    pub validated :
        validate (
          event_fields p fields action signer agent_id_default
            (dget (codes "pubkey") signer)
            (dget (codes "sig") fields)
            pub_raw
            timestamp)
        ≡ some ev

  checked_accepts :
      (sig pub_raw : Bytes) (o : Option Bytes) (next : Outcome) (ev : ComplianceEvent)
      → checked p sig pub_raw o next ≡ Outcome.accepted ev
      → (content : Bytes) × (o ≡ some content)
        × (p.ed25519_verify pub_raw sig content ≡ true)
        × (next ≡ Outcome.accepted ev)
  checked_accepts sig pub_raw none next ev h = cc
  checked_accepts sig pub_raw (some content) next ev h =
      elim (Bool-cases (p.ed25519_verify pub_raw sig content)) [
        | inl good ↦ (content, refl, good, ground (arith, h))
        | inr bad ↦ ground (arith, h)
      ]

  outcome_accepts :
      (o : Option ComplianceEvent) (ev : ComplianceEvent)
      → outcome o ≡ Outcome.accepted ev
      → o ≡ some ev
  outcome_accepts none ev h = cc
  outcome_accepts (some ev') ev h = cc

  stamped_accepts :
      (r action signer : Fields) (d : Option Text) (k s : Value) (pub_raw : Bytes) (o : Option Text)
      (ev : ComplianceEvent)
      → stamped p calendar validate r action signer d k s pub_raw o ≡ Outcome.accepted ev
      → (t : Text) × (o ≡ some t)
        × (validate (event_fields p r action signer d k s pub_raw t) ≡ some ev)
  stamped_accepts r action signer d k s pub_raw none ev h = cc
  stamped_accepts r action signer d k s pub_raw (some t) ev h = (t, refl, outcome_accepts _ ev h)

  normalize_accepts :
      (r action signer : Fields) (d : Option Text) (k s : Value) (pub_raw : Bytes)
      (ev : ComplianceEvent)
      → normalize p calendar validate r action signer d k s pub_raw ≡ Outcome.accepted ev
      → (t : Text) × (to_rfc3339 calendar (dget (codes "ts") r) ≡ some t)
        × (validate (event_fields p r action signer d k s pub_raw t) ≡ some ev)
  unfolding normalize
  normalize_accepts r action signer d k s pub_raw ev h =
      elim (Bool-cases (is_none (dget (codes "ts") r))) [
        | inl missing ↦ let bad : Outcome.rejected ≡ Outcome.accepted ev = rw missing at h in cc
        | inr there ↦ stamped_accepts r action signer d k s pub_raw _ ev (rw there at h)
      ]

  decoded_accepts :
      (r action signer : Fields) (d : Option Text) (k s : Value) (so ko : Option Bytes)
      (ev : ComplianceEvent)
      → decoded p calendar validate r action signer d k s so ko ≡ Outcome.accepted ev
      → (sig pub_raw content : Bytes) × (so ≡ some sig)
        × (ko ≡ some pub_raw)
        × (receipt_signing_bytes p r ≡ some content)
        × (p.ed25519_verify pub_raw sig content ≡ true)
        × (normalize p calendar validate r action signer d k s pub_raw ≡ Outcome.accepted ev)
  unfolding decoded
  decoded_accepts r action signer d k s none none ev h = cc
  decoded_accepts r action signer d k s none (some pub_raw) ev h = cc
  decoded_accepts r action signer d k s (some sig) none ev h = cc
  decoded_accepts r action signer d k s (some sig) (some pub_raw) ev h =
      let (content, made, good, next) = checked_accepts sig pub_raw _ _ ev h in
      (sig, pub_raw, content, refl, refl, made, good, next)

  of_parts_accepts :
      (v : Value) (r : Fields) (d : Option Text) (ao so : Option Fields) (ev : ComplianceEvent)
      → read_dict v ≡ some r
      → read_dict (dget (codes "action") r) ≡ ao
      → read_dict (dget (codes "signer") r) ≡ so
      → of_parts p calendar validate r d ao so ≡ Outcome.accepted ev
      → Vouched v d ev
  unfolding of_parts
  of_parts_accepts v r d none none ev is_dict a s h = cc
  of_parts_accepts v r d none (some signer) ev is_dict a s h = cc
  of_parts_accepts v r d (some action) none ev is_dict a s h = cc
  of_parts_accepts v r d (some action) (some signer) ev is_dict a s h =
      let sig_b64 = dget (codes "sig") r in
      let pubkey_b64 = dget (codes "pubkey") signer in
      elim (Bool-cases (not (truthy sig_b64) || not (truthy pubkey_b64))) [
        | inl missing ↦ let bad : Outcome.rejected ≡ Outcome.accepted ev = rw missing at h in cc
        | inr there ↦
            let (sig, pub_raw, content, has_sig, has_key, covers, good, next) =
              decoded_accepts r action signer d pubkey_b64 sig_b64 _ _ ev (rw there at h) in
            let (timestamp, timed, validated) =
              normalize_accepts r action signer d pubkey_b64 sig_b64 pub_raw ev next in
            record {
              fields = r;
              action = action;
              signer = signer;
              sig = sig;
              pub_raw = pub_raw;
              content = content;
              timestamp = timestamp;
              is_dict = is_dict;
              has_action = a;
              has_signer = s;
              has_sig = has_sig;
              has_key = has_key;
              covers = covers;
              verified = good;
              timed = timed;
              validated = validated;
            }
      ]

  of_receipt_accepts :
      (v : Value) (o : Option Fields) (d : Option Text) (ev : ComplianceEvent)
      → read_dict v ≡ o
      → of_receipt p calendar validate o d ≡ Outcome.accepted ev
      → Vouched v d ev
  unfolding of_receipt
  of_receipt_accepts v none d ev is_dict h = cc
  of_receipt_accepts v (some r) d ev is_dict h = of_parts_accepts v r d _ _ ev is_dict refl refl h

  -- Verification precedes ingestion: when `verify_and_normalize` gives an event, the receipt is a
  -- dictionary with the objects of its action and its signer, the signature in it decodes and holds,
  -- under the key of its signer, over the canonical bytes of all the rest of it, and the event is
  -- the one that the fields of the receipt stand for, with the identifier of that key.
  pub verify_and_normalize-Vouched :
      (receipt : Value) (agent_id_default : Option Text) (ev : ComplianceEvent)
      → verify_and_normalize p calendar validate receipt agent_id_default ≡ Outcome.accepted ev
      → Vouched receipt agent_id_default ev
  unfolding verify_and_normalize
  verify_and_normalize-Vouched receipt d ev h = of_receipt_accepts receipt _ d ev refl h
