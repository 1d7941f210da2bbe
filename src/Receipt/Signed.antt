-- ===== src/Receipt/Signed.antt =====
-- A receipt that `sign_receipt` of src/openwright/adapters/receipt.py makes, before `verify_and_normalize`.
use openwright.Report.Floats.{canonical_bytes_total}
use openwright.Canonical.Timestamp.{to_rfc3339}
use openwright.Ledger.{ComplianceEvent}
use openwright.Canonical.{Value, Fields}
use openwright.Canonical.Clean.{has_float, has_float_fields, has_float_items}
use openwright.Common.{
  bytes_eq, ℕ, ◌≡◌, refl, ◌∙◌, Bool, true, false, Option, none, some, [], ◌∷◌, Bytes, Text, codes,
}
use openwright.Crosswalk.Values.{lookup, truthy}
use openwright.Dicts.{dget_or, dict_of, set_field, without, dget}
use openwright.Signing.{Platform, KeySource, key_id, Signs}
use openwright.Receipt.{
  Action, entry_if, receipt_signing_bytes, event_fields, unsigned_receipt, model_if, or_else,
  default_name, ComplianceEvent, normalize, sign_receipt, to_rfc3339, verify_and_normalize, outcome,
  of_receipt, of_parts, decoded,
}

abbrev pub named : Text → Option Text → Value
named name d =
    or_else (or_else (Value.str name) (default_name d)) (Value.str (codes "unknown-agent"))

abbrev with_more : Fields → Fields → Fields
with_more Fields.empty d = d
with_more (Fields.field k v rest) d = Fields.field k v (with_more rest d)

-- The arguments of the event that a receipt stands for.
abbrev pub event_of : Platform → KeySource → Action → Option Text → Text → Fields
event_of p key a d sig_b64 = dict_of (
    (codes "timestamp", Value.str a.ts)
    ∷ (codes "kind", Value.str (codes "tool_call"))
    ∷ (
      codes "actor",
      Value.dict (
          dict_of (
            (codes "agent_id", named a.signer_name d)
            ∷ (
              codes "identity_claim",
              Value.dict (
                  Fields.field (codes "claim_type") (Value.str (codes "receipt-signer")) (
                    Fields.field (codes "public_key_id") (Value.str (key_id p key)) (
                      Fields.field (codes "signature_b64") (Value.str sig_b64) (
                        Fields.field (codes "public_key_b64")
                          (Value.str (p.b64encode key.public_key_raw))
                          (entry_if (codes "owner") a.owner))))),
            )
            ∷ [])),
    )
    ∷ (codes "io", model_if (codes "arguments_ref") (Value.str a.params_hash))
    ∷ (codes "tool", model_if (codes "name") (Value.str a.tool))
    ∷ (
      codes "attributes",
      Value.dict (
          Fields.field (codes "receipt_verified") (Value.bool true) (
            Fields.field (codes "nonce") (Value.str a.nonce) (
              with_more (entry_if (codes "target") a.target)
                (entry_if (codes "transport") a.transport)))),
    )
    ∷ (
      codes "source",
      Value.dict
          (Fields.field (codes "format") (Value.str (codes "receipt/action-v1")) Fields.empty),
    )
    ∷ [])

module _ (p : Platform) (key : KeySource) (tool params_hash signer_name ts nonce : Text) where
  abbrev pub action_with : Option Text → Option Text → Option Text → Action
  action_with target owner transport = record {
    tool = tool;
    params_hash = params_hash;
    signer_name = signer_name;
    ts = ts;
    nonce = nonce;
    target = target;
    owner = owner;
    transport = transport;
  }

  no_float :
      (target owner transport : Option Text)
      → has_float (
          Value.dict
            (without (codes "sig") (unsigned_receipt p key (action_with target owner transport))))
        ≡ false
  unfolding has_float has_float_fields has_float_items unsigned_receipt without bytes_eq
  no_float none none none = refl
  no_float none none (some t) = refl
  no_float none (some o) none = refl
  no_float none (some o) (some t) = refl
  no_float (some g) none none = refl
  no_float (some g) none (some t) = refl
  no_float (some g) (some o) none = refl
  no_float (some g) (some o) (some t) = refl

  abbrev action_part : Option Text → Fields
  action_part target = Fields.field (codes "tool") (Value.str tool) (
      Fields.field (codes "params_hash") (Value.str params_hash) (entry_if (codes "target") target))

  abbrev signer_part : Option Text → Fields
  signer_part owner =
      Fields.field (codes "pubkey") (Value.str (p.b64encode key.public_key_raw))
        (Fields.field (codes "name") (Value.str signer_name) (entry_if (codes "owner") owner))

  abbrev signed_with : Option Text → Option Text → Option Text → Text → Fields
  unfolding set_field unsigned_receipt
  signed_with target owner transport sig_b64 =
      set_field (codes "sig") (Value.str sig_b64)
        (unsigned_receipt p key (action_with target owner transport))

  event_fields_signed :
      (target owner transport d : Option Text) (sig_b64 : Text)
      → event_fields p
          (signed_with target owner transport sig_b64)
          (action_part target)
          (signer_part owner)
          d
          (Value.str (p.b64encode key.public_key_raw))
          (Value.str sig_b64)
          key.public_key_raw
          ts
        ≡ event_of p key (action_with target owner transport) d sig_b64
  unfolding event_fields key_id bytes_eq lookup dget_or set_field unsigned_receipt
  event_fields_signed none none none d s = refl
  event_fields_signed none none (some t) d s = refl
  event_fields_signed none (some o) none d s = refl
  event_fields_signed none (some o) (some t) d s = refl
  event_fields_signed (some g) none none d s = refl
  event_fields_signed (some g) none (some t) d s = refl
  event_fields_signed (some g) (some o) none d s = refl
  event_fields_signed (some g) (some o) (some t) d s = refl

  same_bytes :
      (target owner transport : Option Text) (sig_b64 : Text)
      → receipt_signing_bytes p (signed_with target owner transport sig_b64)
        ≡ receipt_signing_bytes p (unsigned_receipt p key (action_with target owner transport))
  unfolding receipt_signing_bytes without bytes_eq set_field unsigned_receipt
  same_bytes target owner none s = refl
  same_bytes target owner (some t) s = refl

  sig_of_signed :
      (target owner transport : Option Text) (sig_b64 : Text)
      → dget (codes "sig") (signed_with target owner transport sig_b64) ≡ Value.str sig_b64
  unfolding dget_or lookup bytes_eq set_field unsigned_receipt
  sig_of_signed target owner none s = refl
  sig_of_signed target owner (some t) s = refl

  module _ (calendar : Bool × ℕ → Option Text) (validate : Fields → Option ComplianceEvent) where
    normalize-signed :
        (target owner transport d : Option Text) (sig_b64 : Text)
        → normalize p calendar validate
            (signed_with target owner transport sig_b64)
            (action_part target)
            (signer_part owner)
            d
            (Value.str (p.b64encode key.public_key_raw))
            (Value.str sig_b64)
            key.public_key_raw
          ≡ outcome (validate (event_of p key (action_with target owner transport) d sig_b64))
    unfolding normalize to_rfc3339 dget_or lookup bytes_eq set_field unsigned_receipt
    normalize-signed target owner transport d s =
        rw (event_fields_signed target owner transport d s) refl

    of_parts-signed :
        (target owner transport d : Option Text) (content : Bytes)
        → Signs p key
        → truthy (Value.str (p.b64encode key.public_key_raw)) ≡ true
        → truthy (Value.str (p.b64encode (key.sign content))) ≡ true
        → receipt_signing_bytes p
            (signed_with target owner transport (p.b64encode (key.sign content)))
          ≡ some content
        → of_parts p calendar validate
            (signed_with target owner transport (p.b64encode (key.sign content)))
            d
            (some (action_part target))
            (some (signer_part owner))
          ≡ outcome (
              validate (
                event_of p key
                  (action_with target owner transport)
                  d
                  (p.b64encode (key.sign content))))
    unfolding of_parts decoded dget_or lookup bytes_eq
    of_parts-signed target owner transport d content signs has_key has_sig covered =
        rw
          (
            sig_of_signed target owner transport (p.b64encode (key.sign content)),
            has_key,
            has_sig,
            signs.decoded key.public_key_raw,
            signs.decoded (key.sign content),
            covered,
            signs.accepted content,
          )
          (normalize-signed target owner transport d (p.b64encode (key.sign content)))

    -- A receipt that `sign_receipt` makes with a key is verified and normalized: whatever its parts,
    -- and whether the target, the owner and the transport are given, the result is the event of
    -- exactly those parts, if pydantic takes it, and carries the identifier of the key. Base64 of the
    -- key and of a signature are not empty.
    pub verify_and_normalize-sign_receipt :
        (target owner transport d : Option Text)
        → Signs p key
        → truthy (Value.str (p.b64encode key.public_key_raw)) ≡ true
        → ((content : Bytes) → truthy (Value.str (p.b64encode (key.sign content))) ≡ true)
        → (receipt : Fields) × (sig_b64 : Text) × (sign_receipt p key
              (action_with target owner transport)
            ≡ some receipt)
          × (verify_and_normalize p calendar validate (Value.dict receipt) d
              ≡ outcome (validate (event_of p key (action_with target owner transport) d sig_b64)))
    unfolding sign_receipt verify_and_normalize of_receipt receipt_signing_bytes set_field
        unsigned_receipt dget_or lookup bytes_eq
    verify_and_normalize-sign_receipt target owner transport d signs has_key has_sig =
        let a = action_with target owner transport in
        let (content, made) = canonical_bytes_total p.dumps _ (no_float target owner transport) in
        let made' : receipt_signing_bytes p (unsigned_receipt p key a) ≡ some content = made in
        let sig_b64 = p.b64encode (key.sign content) in
        let covered = same_bytes target owner transport sig_b64 ∙ made' in
        (
          signed_with target owner transport sig_b64,
          sig_b64,
          rw made' refl,
          of_parts-signed target owner transport d content signs has_key (has_sig content) covered,
        )
