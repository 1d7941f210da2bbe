-- ===== src/Receipt.antt =====
-- src/openwright/adapters/receipt.py: action receipts of other producers, verified and turned into
-- events. `validate` is pydantic's reading of the arguments of ComplianceEvent, and `calendar` is
-- that of `to_rfc3339`.
pub mod Verified
pub mod Signed
pub mod Malformed
mod Tests
use openwright.Canonical.{Value, Fields, canonical_bytes}
use openwright.Canonical.Timestamp.{to_rfc3339}
use openwright.Common.{
  ℕ, Bool, true, false, not, ◌||◌, Option, none, some, [], ◌∷◌, if◌then◌else◌, Bytes, Text, codes,
  ◌>>=◌,
}
use openwright.Crosswalk.Values.{truthy}
use openwright.Dicts.{read_dict, dget, dget_or, dict_of, without, set_field}
use openwright.Ledger.{ComplianceEvent}
use openwright.Signing.{Platform, KeySource, key_id_for}

-- An event, `ReceiptVerificationError`, or any other exception.
pub data Outcome : Type 0 where
  accepted : ComplianceEvent → Outcome
  rejected raised : Outcome

abbrev pub is_none : Value → Bool
is_none Value.null = true
is_none v = false

-- `v or w`
abbrev pub or_else : Value → Value → Value
or_else v w = if truthy v then v else w

abbrev pub default_name : Option Text → Value
default_name none = Value.null
default_name (some s) = Value.str s

-- `d[k] = v` in a new dictionary, unless `v` is None.
abbrev pub entry_unless_none : Text → Value → Fields → Fields
entry_unless_none k v d = if is_none v then d else Fields.field k v d

-- `Model(field=v) if v else None`
abbrev pub model_if : Text → Value → Value
model_if k v = if truthy v then Value.dict (Fields.field k v Fields.empty) else Value.null

abbrev pub outcome : Option ComplianceEvent → Outcome
outcome none = Outcome.raised
outcome (some ev) = Outcome.accepted ev

-- The arguments of `sign_receipt` by name.
pub record Action : Type 0 where
  pub tool : Text
  pub params_hash : Text
  pub signer_name : Text
  pub ts : Text
  pub nonce : Text
  pub target : Option Text
  pub owner : Option Text
  pub transport : Option Text

abbrev pub entry_if : Text → Option Text → Fields
entry_if k none = Fields.empty
entry_if k (some s) = Fields.field k (Value.str s) Fields.empty

module _ (p : Platform) where
  unfoldable pub receipt_signing_bytes : Fields → Option Bytes
  unfolding canonical_bytes without
  receipt_signing_bytes receipt =
      canonical_bytes p.dumps (Value.dict (without (codes "sig") receipt))

  abbrev pub identity_of : Fields → Value → Value → Bytes → Fields
  identity_of signer pubkey_b64 sig_b64 pub_raw =
      Fields.field (codes "claim_type") (Value.str (codes "receipt-signer")) (
        Fields.field (codes "public_key_id") (Value.str (key_id_for p pub_raw)) (
          Fields.field (codes "signature_b64") sig_b64 (
            Fields.field (codes "public_key_b64") pubkey_b64
              (entry_unless_none (codes "owner") (dget (codes "owner") signer) Fields.empty))))

  abbrev pub attributes_of : Fields → Fields → Fields
  attributes_of receipt action = Fields.field (codes "receipt_verified") (Value.bool true) (
      entry_unless_none (codes "nonce") (dget (codes "nonce") receipt) (
        entry_unless_none (codes "target") (dget (codes "target") action)
          (entry_unless_none (codes "transport") (dget (codes "transport") receipt) Fields.empty)))

  -- The arguments of `ComplianceEvent`.
  unfoldable pub event_fields :
      Fields → Fields → Fields → Option Text → Value → Value → Bytes → Text → Fields
  unfolding dget_or key_id_for
  event_fields receipt action signer agent_id_default pubkey_b64 sig_b64 pub_raw timestamp =
      dict_of (
        (codes "timestamp", Value.str timestamp)
        ∷ (codes "kind", Value.str (codes "tool_call"))
        ∷ (
          codes "actor",
          Value.dict (
              dict_of (
                (
                  codes "agent_id",
                  or_else (or_else (dget (codes "name") signer) (default_name agent_id_default))
                      (Value.str (codes "unknown-agent")),
                )
                ∷ (
                  codes "identity_claim",
                  Value.dict (identity_of signer pubkey_b64 sig_b64 pub_raw),
                )
                ∷ [])),
        )
        ∷ (codes "io", model_if (codes "arguments_ref") (dget (codes "params_hash") action))
        ∷ (codes "tool", model_if (codes "name") (dget (codes "tool") action))
        ∷ (codes "attributes", Value.dict (attributes_of receipt action))
        ∷ (
          codes "source",
          Value.dict
              (Fields.field (codes "format") (Value.str (codes "receipt/action-v1")) Fields.empty),
        )
        ∷ [])

  -- `base64.b64decode`, where a TypeError is caught as a ValueError is.
  abbrev pub decode : Value → Option Bytes
  decode (Value.str s) = p.b64decode s
  decode v = none

  abbrev pub checked : Bytes → Bytes → Option Bytes → Outcome → Outcome
  checked sig pub_raw none next = Outcome.raised
  checked sig pub_raw (some content) next =
      if p.ed25519_verify pub_raw sig content then next else Outcome.rejected

  module _ (calendar : Bool × ℕ → Option Text) (validate : Fields → Option ComplianceEvent) where
    abbrev pub stamped :
        Fields → Fields → Fields → Option Text → Value → Value → Bytes → Option Text → Outcome
    stamped receipt action signer agent_id_default pubkey_b64 sig_b64 pub_raw none = Outcome.raised
    stamped receipt action signer agent_id_default pubkey_b64 sig_b64 pub_raw (some timestamp) =
        outcome (
          validate (
            event_fields receipt action signer agent_id_default pubkey_b64 sig_b64 pub_raw
              timestamp))

    -- What follows the check of the signature.
    unfoldable pub normalize :
        Fields → Fields → Fields → Option Text → Value → Value → Bytes → Outcome
    unfolding to_rfc3339 dget_or
    normalize receipt action signer agent_id_default pubkey_b64 sig_b64 pub_raw =
        if is_none (dget (codes "ts") receipt)
        then Outcome.rejected
        else stamped receipt action signer agent_id_default pubkey_b64 sig_b64 pub_raw
            (to_rfc3339 calendar (dget (codes "ts") receipt))

    unfoldable pub decoded :
        Fields
        → Fields
        → Fields
        → Option Text
        → Value
        → Value
        → Option Bytes
        → Option Bytes
        → Outcome
    unfolding receipt_signing_bytes normalize
    decoded receipt action signer agent_id_default pubkey_b64 sig_b64 (some sig) (some pub_raw) =
        checked sig pub_raw (receipt_signing_bytes receipt)
          (normalize receipt action signer agent_id_default pubkey_b64 sig_b64 pub_raw)
    decoded receipt action signer agent_id_default pubkey_b64 sig_b64 sig pub_raw = Outcome.rejected

    -- From the two objects of the receipt on, where they are dictionaries.
    unfoldable pub of_parts : Fields → Option Text → Option Fields → Option Fields → Outcome
    unfolding decoded dget_or
    of_parts receipt agent_id_default (some action) (some signer) =
        let sig_b64 = dget (codes "sig") receipt in
        let pubkey_b64 = dget (codes "pubkey") signer in
        let next =
          decoded receipt action signer agent_id_default pubkey_b64 sig_b64 (decode sig_b64)
            (decode pubkey_b64) in
        if not (truthy sig_b64) || not (truthy pubkey_b64) then Outcome.rejected else next
    of_parts receipt agent_id_default action signer = Outcome.rejected

    unfoldable pub of_receipt : Option Fields → Option Text → Outcome
    unfolding of_parts dget_or
    of_receipt none agent_id_default = Outcome.rejected
    of_receipt (some receipt) agent_id_default =
        of_parts receipt agent_id_default (read_dict (dget (codes "action") receipt))
          (read_dict (dget (codes "signer") receipt))

    -- `SignedActionReceiptSource.verify_and_normalize`
    unfoldable pub verify_and_normalize : Value → Option Text → Outcome
    unfolding of_receipt
    verify_and_normalize receipt agent_id_default = of_receipt (read_dict receipt) agent_id_default

  -- The receipt before it is signed.
  unfoldable pub unsigned_receipt : KeySource → Action → Fields
  unsigned_receipt key a =
      Fields.field (codes "action")
        (Value.dict (
          Fields.field (codes "tool") (Value.str a.tool) (
            Fields.field (codes "params_hash") (Value.str a.params_hash)
              (entry_if (codes "target") a.target))))
        (Fields.field (codes "signer")
          (Value.dict (
            Fields.field (codes "pubkey") (Value.str (p.b64encode key.public_key_raw)) (
              Fields.field (codes "name") (Value.str a.signer_name)
                (entry_if (codes "owner") a.owner))))
          (Fields.field (codes "ts") (Value.str a.ts) (
            Fields.field (codes "nonce") (Value.str a.nonce)
              (entry_if (codes "transport") a.transport))))

  unfoldable pub sign_receipt : KeySource → Action → Option Fields
  unfolding unsigned_receipt receipt_signing_bytes set_field
  sign_receipt key a = do
    content ← receipt_signing_bytes (unsigned_receipt key a)
    some (
        set_field (codes "sig") (Value.str (p.b64encode (key.sign content)))
          (unsigned_receipt key a))
