-- ===== src/Verify.antt =====
-- src/openwright/verify.py: the standalone verifier of signed reports. The texts of checks, warnings
-- and errors are left out; `none` is an exception that leaves `verify_report`.
pub mod Events
pub mod Deep
pub mod Report
pub mod Steps
pub mod Derived
pub mod Signatures
pub mod Valid
pub mod Logged
pub mod Malformed
pub mod Checkpoints
mod Tests
use mathlib.Core.Option
use openwright.Crosswalk.Values.{truthy, eq_value}
use openwright.Dicts.{dget_or, without, int_of, read_block, dget, Number, read_text}
use openwright.Canonical.{Value, canonical_bytes, Fields}
use openwright.Crosswalk.Values.{lookup, eq_value, truthy}
use openwright.Ledger.{ComplianceEvent}
use openwright.Crosswalk.Schema.{Crosswalk}
use openwright.Common.{
  bytes_eq, fromhex, Bool, true, false, not, ◌&&◌, Option, none, some, List, [], ◌∷◌, ◌++◌,
  if◌then◌else◌, Bytes, Text, codes, ◌>>=◌,
}
use openwright.Merkle.{leaf_hash}
use openwright.Signing.{Platform, verify_b64, key_id_for}

-- What the verifier takes from pydantic, PyYAML and the PEM reader: the key in a PEM text, the event
-- that a dictionary validates as, the dump of a crosswalk, and the built-in crosswalk of an id.
pub record Libraries : Type 0 where
  pub pem_key : Text → Option Bytes
  pub validate : Fields → Option ComplianceEvent
  pub dump_crosswalk : Crosswalk → Value
  pub builtin : Value → Option Crosswalk

-- The names of the checks.
pub data Check : Type 0 where
  embedded_key_matches_trusted report_signature report_key_id : Check
  checkpoint_signature checkpoint_well_formed : Check
  event_leaf_hashes inclusion_proofs full_tree_root evidence_events_present : Check
  deep_verify_crosswalk_pin deep_verify_crosswalk deep_verify_events deep_verify_verdicts : Check

pub data Warning : Type 0 where
  embedded_key_used selective_disclosure deep_over_disclosed : Warning

pub data Mistake : Type 0 where
  no_public_key unparsable_key : Mistake
  verdict_mismatch : Value → Mistake

-- A control as it is surfaced.
pub record Surfaced : Type 0 where
  pub control_id : Value
  pub status : Value
  pub title : Value

pub record VerificationResult : Type 0 where
  pub valid : Bool
  pub checks : List (Check × Bool)
  pub warnings : List Warning
  pub controls : List Surfaced
  pub gaps : List Surfaced
  pub errors : List Mistake

abbrev pub start : VerificationResult
start = record { valid = true; checks = []; warnings = []; controls = []; gaps = []; errors = [] }

-- The closure `check`.
abbrev pub check : Check → Bool → VerificationResult → VerificationResult
check name ok res = record res { valid = res.valid && ok; checks = res.checks ++ (name, ok) ∷ [] }

abbrev pub warn : Warning → VerificationResult → VerificationResult
warn w res = record res { warnings = res.warnings ++ w ∷ [] }

-- `res.valid = False` with an error.
abbrev pub fail : Mistake → VerificationResult → VerificationResult
fail m res = record res { valid = false; errors = res.errors ++ m ∷ [] }

pub data Established : Type 0 where
  refused : VerificationResult → Established
  trusting : Bytes → VerificationResult → Established

-- `_public_key_raw_from_pem` on what the report holds, where any exception is caught.
abbrev pub key_in : (Text → Option Bytes) → Value → Option Bytes
key_in pem_key (Value.str s) = pem_key s
key_in pem_key v = none

-- Step 1: the public key to trust.
unfoldable pub establish_key : (Text → Option Bytes) → Option Bytes → Value → Established
establish_key pem_key none embedded =
    if not (truthy embedded)
    then refused (fail no_public_key start)
    else elim (key_in pem_key embedded) [
      | none ↦ refused (fail unparsable_key start)
      | some key ↦ trusting key (warn embedded_key_used start)
    ]
establish_key pem_key (some trusted) embedded =
    if not (truthy embedded) then trusting trusted start else elim (key_in pem_key embedded) [
      | none ↦ trusting trusted start
      | some key ↦
          trusting trusted
            (if bytes_eq key trusted then start else check embedded_key_matches_trusted false start)
    ]

-- `cp.get('root_hash', '')[:16]`, in the text of the check, raises on what has no slices.
abbrev pub sliced : Value → Option (Unit {0})
sliced (Value.str s) = some tt
sliced (Value.list vs) = some tt
sliced v = none

-- The root and the size that the checkpoint states.
unfoldable pub head_of : Fields → Option (Bytes × Number)
unfolding lookup int_of
head_of cp = do
  r ← lookup (codes "root_hash") cp
  s ← read_text r
  root ← fromhex s
  n ← lookup (codes "tree_size") cp
  size ← int_of n
  some (root, size)

module _ (p : Platform) where
  -- `_checkpoint_signing_bytes`
  unfoldable pub checkpoint_bytes : Fields → Option Bytes
  unfolding canonical_bytes lookup
  checkpoint_bytes cp = do
    o ← lookup (codes "origin") cp
    r ← lookup (codes "root_hash") cp
    t ← lookup (codes "timestamp") cp
    n ← lookup (codes "tree_size") cp
    canonical_bytes p.dumps (
        Value.dict (
          Fields.field (codes "origin") o (
            Fields.field (codes "root_hash") r (
              Fields.field (codes "timestamp") t
                (Fields.field (codes "tree_size") n Fields.empty)))))

  -- `_report_signing_payload`
  unfoldable pub report_payload : Fields → Option Bytes
  unfolding canonical_bytes without
  report_payload report = canonical_bytes p.dumps (Value.dict (without (codes "signature") report))

  -- `_leaf_from_event_dict`
  unfoldable pub leaf_from_event : Fields → Option Bytes
  unfolding canonical_bytes without
  leaf_from_event event =
      Option.map (leaf_hash p.sha256)
        (canonical_bytes p.dumps (Value.dict (without (codes "ledger") event)))

  -- Base64 of a signature and the check of it, where any exception is a refusal.
  unfoldable pub signature_ok : Bytes → Value → Option Bytes → Bool
  unfolding verify_b64
  signature_ok key (Value.str s) content = verify_b64 p key s content
  signature_ok key v content = false

  -- A key identifier is stated, and it is another key's.
  abbrev pub other_key : Bytes → Value → Bool
  other_key key stated = truthy stated && not (eq_value stated (Value.str (key_id_for p key)))

  -- Step 2: the signature of the report.
  unfoldable pub check_report_signature :
      Bytes → Fields → VerificationResult → Option VerificationResult
  unfolding report_payload signature_ok dget_or
  check_report_signature key report res = do
    block ← read_block (dget (codes "signature") report)
    let ok =
        signature_ok key (dget_or (codes "signature") (Value.str []) block) (report_payload report)
    let signed = check report_signature ok res
    some (
        if other_key key (dget (codes "public_key_id") block)
        then check report_key_id false signed
        else signed)

  -- Step 3: the signature of the checkpoint.
  unfoldable pub check_checkpoint : Bytes → Fields → VerificationResult → Option VerificationResult
  unfolding checkpoint_bytes signature_ok dget_or
  check_checkpoint key cp res = do
    let ok =
        not (other_key key (dget (codes "public_key_id") cp))
        && signature_ok key (dget_or (codes "signature") (Value.str []) cp) (checkpoint_bytes cp)
    shown ← sliced (dget_or (codes "root_hash") (Value.str []) cp)
    some (check checkpoint_signature ok res)
