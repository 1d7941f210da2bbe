-- ===== src/Receipt/Tests.antt =====
-- The theorems on src/openwright/adapters/receipt.py at concrete receipts.
use openwright.Crosswalk.Values.{lookup}
use openwright.Canonical.{Value, Fields, clean}
use openwright.Canonical.Clean.{has_float, has_float_fields, has_float_items}
use openwright.Common.{
  bytes_eq, ℕ, ◌≡◌, refl, Bool, Option, none, some, [], ◌∷◌, Bytes, Text, codes,
}
use openwright.Dicts.{dict_of, without, dget_or}
use openwright.Ledger.{ComplianceEvent}
use openwright.Receipt.{Action, Outcome, verify_and_normalize, sign_receipt, outcome, accepted}
use openwright.Receipt.Signed.{verify_and_normalize-sign_receipt, event_of}
use openwright.Receipt.Malformed.{verify_and_normalize-float}
use openwright.Receipt.Verified.{Vouched, verify_and_normalize-Vouched}
use openwright.Signing.Toy.{toy_platform, toy_key, toy_Signs, toy_dumps}

abbrev signer : Bytes
signer = 9 ∷ []

abbrev calendar : Bool × ℕ → Option Text
calendar n = none

abbrev validate : Fields → Option ComplianceEvent
validate d = some (record { event_id = codes "evt_1"; body = d; ledger = none })

abbrev action : Action
action = record {
  tool = codes "search";
  params_hash = codes "sha256:ab";
  signer_name = codes "bot";
  ts = codes "09:00";
  nonce = codes "1";
  target = some (codes "db");
  owner = none;
  transport = none;
}

verify_and_normalize-sign_receipt_example :
    (receipt : Fields) × (sig_b64 : Text) × (sign_receipt toy_platform (toy_key signer) action
      ≡ some receipt)
    × (verify_and_normalize toy_platform calendar validate (Value.dict receipt) none
        ≡ outcome (validate (event_of toy_platform (toy_key signer) action none sig_b64)))
verify_and_normalize-sign_receipt_example =
    verify_and_normalize-sign_receipt toy_platform (toy_key signer) (codes "search")
      (codes "sha256:ab") (codes "bot") (codes "09:00") (codes "1") calendar validate
      (some (codes "db")) none none none (toy_Signs signer) refl (λ content. refl)

abbrev receipt : Fields
receipt = elim (sign_receipt toy_platform (toy_key signer) action) [
  | none ↦ Fields.empty
  | some r ↦ r
]

abbrev made : ComplianceEvent
made = elim (verify_and_normalize toy_platform calendar validate (Value.dict receipt) none) [
  | openwright.Receipt.accepted ev ↦ ev
  | openwright.Receipt.rejected ↦ record { event_id = []; body = Fields.empty; ledger = none }
  | openwright.Receipt.raised ↦ record { event_id = []; body = Fields.empty; ledger = none }
]

normalized :
    verify_and_normalize toy_platform calendar validate (Value.dict receipt) none
    ≡ Outcome.accepted made
unfolding verify_and_normalize sign_receipt clean bytes_eq toy_dumps
normalized = refl

verify_and_normalize-Vouched_example :
    Vouched toy_platform calendar validate (Value.dict receipt) none made
verify_and_normalize-Vouched_example =
    verify_and_normalize-Vouched toy_platform calendar validate (Value.dict receipt) none made
      normalized

abbrev no_fields : Fields
no_fields = Fields.empty

abbrev key_fields : Fields
key_fields = Fields.field (codes "pubkey") (Value.str signer) no_fields

abbrev with_fraction : Fields
with_fraction = dict_of (
    (codes "action", Value.dict no_fields)
    ∷ (codes "signer", Value.dict key_fields)
    ∷ (codes "ts", Value.float (codes "1.5"))
    ∷ (codes "sig", Value.str (codes "s"))
    ∷ [])

verify_and_normalize-float_example :
    verify_and_normalize toy_platform calendar validate (Value.dict with_fraction) none
    ≡ Outcome.raised
unfolding dget_or lookup bytes_eq has_float has_float_fields has_float_items without
verify_and_normalize-float_example =
    verify_and_normalize-float toy_platform calendar validate with_fraction no_fields key_fields
      none (codes "s") signer refl refl refl refl refl refl
