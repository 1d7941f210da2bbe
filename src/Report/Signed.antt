-- ===== src/Report/Signed.antt =====
-- The signatures of a report that `build_report` of src/openwright/report.py makes, before the steps
-- of `verify_report` that check them.
use openwright.Crosswalk.Values.{truthy, eq_value, lookup}
use openwright.Common.{
  bytes_eq, ◌≡◌, refl, inl, inr, true, false, some, List, [], ◌∷◌, arith, Bool-cases, Bytes,
  bytes_eq_refl, Text, codes,
}
use openwright.Canonical.{Fields, Value, Items}
use openwright.Signing.{Platform, KeySource, Signs, Checkpoint, key_id, signing_bytes, key_id_for}
use openwright.Signing.Checkpoints.{verify_b64-sign}
use openwright.Verify.{
  VerificationResult, Libraries, check, Check, establish_key, trusting, signature_ok,
  check_checkpoint, other_key, checkpoint_bytes, report_payload, check_report_signature,
}
use openwright.Verify.{start as fresh}
use openwright.Report.{signing_payload}
use openwright.Report.Content.{assemble, Packed, Request, CrosswalkResult, dump_checkpoint}
use openwright.Dicts.{dict_of, dget_or, set_field, without}

-- The trusted key is that of the report.
pub establish_key-pem :
    (w : Libraries) (pem_of : Bytes → Text) (raw : Bytes)
    → w.pem_key (pem_of raw) ≡ some raw
    → establish_key w.pem_key (some raw) (Value.str (pem_of raw)) ≡ trusting raw fresh
unfolding establish_key
establish_key-pem w pem_of raw h = elim (Bool-cases (truthy (Value.str (pem_of raw)))) [
  | inl full ↦ rw (full, h, bytes_eq_refl raw) refl
  | inr empty ↦ rw empty refl
]

module _ (p : Platform) (key : KeySource) (signs : Signs p key) where
  own_key : other_key p key.public_key_raw (Value.str (key_id p key)) ≡ false
  unfolding key_id eq_value
  own_key =
      let same = bytes_eq_refl (key_id_for p key.public_key_raw) in
      rw (other_key, same) (ground arith)

  own_signature :
      (content : Bytes)
      → signature_ok p key.public_key_raw
          (Value.str (p.b64encode (key.sign content)))
          (some content)
        ≡ true
  unfolding signature_ok
  own_signature content = verify_b64-sign p key content signs

  -- The checkpoint step accepts the dump of a checkpoint that the key has signed.
  pub check_checkpoint-signed :
      (cp : Checkpoint) (content : Bytes) (res : VerificationResult)
      → cp.public_key_id ≡ key_id p key
      → signing_bytes p cp ≡ some content
      → cp.signature ≡ p.b64encode (key.sign content)
      → check_checkpoint p key.public_key_raw (dump_checkpoint cp) res
        ≡ some (check Check.checkpoint_signature true res)
  unfolding check_checkpoint checkpoint_bytes dget_or lookup bytes_eq signing_bytes
  check_checkpoint-signed cp content res named signed is_sig =
      rw (named, own_key, is_sig, signed, own_signature content) refl

module _ (p : Platform) (key : KeySource) (signs : Signs p key) (req : Request)
    (cr : CrosswalkResult) (cp : Checkpoint) (qs : List Packed) (gaps : Items) (pem : Text)
    (payload : Bytes) where
  -- The report with its signature.
  abbrev pub signed_report : Fields
  unfolding assemble set_field
  signed_report =
      set_field (codes "signature")
        (Value.dict (
          dict_of (
            (codes "algorithm", Value.str (codes "ed25519"))
            ∷ (codes "public_key_id", Value.str (key_id p key))
            ∷ (codes "signature", Value.str (p.b64encode (key.sign payload)))
            ∷ [])))
        (assemble req cr cp qs gaps pem)

  payload_signed :
      report_payload p signed_report ≡ signing_payload p (assemble req cr cp qs gaps pem)
  unfolding report_payload signing_payload without set_field assemble bytes_eq
  payload_signed = refl

  pub check_report_signature-signed :
      (res : VerificationResult)
      → signing_payload p (assemble req cr cp qs gaps pem) ≡ some payload
      → check_report_signature p key.public_key_raw signed_report res
        ≡ some (check Check.report_signature true res)
  unfolding check_report_signature dget_or lookup bytes_eq set_field assemble
  check_report_signature-signed res made =
      rw (payload_signed, made, own_key p key signs, own_signature p key signs payload) refl
