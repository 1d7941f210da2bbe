-- ===== src/Verify/Signatures.antt =====
-- What the two signature checks of `verify_report` (src/openwright/verify.py) establish.
use openwright.Verify.Steps.{and_right, and_left}
use openwright.Verify.{
  signature_ok, report_payload, checkpoint_bytes, VerificationResult, check, Check,
  check_report_signature, check_checkpoint, other_key, sliced,
}
use openwright.Canonical.{Fields, Value}
use openwright.Signing.{Platform}
use openwright.Common.{
  ◌≡◌, ap, ◌∙◌, Bool, true, false, ◌&&◌, some, [], if◌then◌else◌, some-injective, Bytes, codes,
  >>=-elim,
}
use openwright.Dicts.{read_block, dget, dget_or}

keyed :
    (b : Bool) (signed res : VerificationResult)
    → (if b then check Check.report_key_id false signed else signed) ≡ res
    → res.valid ≡ true
    → signed.valid ≡ true
keyed true signed res e v = and_left _ _ (ap (λ (r : VerificationResult). r.valid) e ∙ v)
keyed false signed res e v = ap (λ (r : VerificationResult). r.valid) e ∙ v

pub report_signature_valid :
    (p : Platform) (key : Bytes) (report : Fields) (res res' : VerificationResult)
    → check_report_signature p key report res ≡ some res'
    → res'.valid ≡ true
    → (res.valid ≡ true)
      × (block : Fields) × (read_block (dget (codes "signature") report) ≡ some block)
      × (signature_ok p key
            (dget_or (codes "signature") (Value.str []) block)
            (report_payload p report)
          ≡ true)
unfolding check_report_signature
report_signature_valid p key report res res' h v =
    >>=-elim (read_block (dget (codes "signature") report)) _ h (λ block is_block h1.
      let ok : Bool =
        signature_ok p key (dget_or (codes "signature") (Value.str []) block)
          (report_payload p report) in
      let both : (res.valid && ok) ≡ true =
        keyed (other_key p key (dget (codes "public_key_id") block))
          (check Check.report_signature ok res) res' (some-injective h1) v in
      (and_left _ _ both, block, is_block, and_right _ _ both))

pub checkpoint_signature_valid :
    (p : Platform) (key : Bytes) (cp : Fields) (res res' : VerificationResult)
    → check_checkpoint p key cp res ≡ some res'
    → res'.valid ≡ true
    → (res.valid ≡ true)
      × (signature_ok p key (dget_or (codes "signature") (Value.str []) cp) (checkpoint_bytes p cp)
          ≡ true)
unfolding check_checkpoint
checkpoint_signature_valid p key cp res res' h v =
    >>=-elim (sliced (dget_or (codes "root_hash") (Value.str []) cp)) _ h (λ u shown h1.
      let both = ap (λ (r : VerificationResult). r.valid) (some-injective h1) ∙ v in
      (and_left _ _ both, and_right _ _ (and_right _ _ both)))
