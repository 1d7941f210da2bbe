-- ===== src/Signing/Checkpoints.antt =====
-- Signing and checking checkpoints (src/openwright/signing.py).
use openwright.Common.{◌≡◌, refl, true, some, Bytes}
use openwright.Canonical.{clean}
use openwright.Signing.{Platform, KeySource, Signs, Checkpoint, signing_bytes, verify_b64}

module _ (p : Platform) where
  -- The bytes that a checkpoint signs over always exist: no float stands in them.
  pub signing_bytes_total :
      (cp : Checkpoint) → (content : Bytes) × (signing_bytes p cp ≡ some content)
  unfolding signing_bytes clean
  signing_bytes_total cp = (_, refl)

  pub verify_b64-sign :
      (key : KeySource) (content : Bytes)
      → Signs p key
      → verify_b64 p key.public_key_raw (p.b64encode (key.sign content)) (some content) ≡ true
  unfolding verify_b64
  verify_b64-sign key content s = rw (s.decoded (key.sign content), verify_b64) (s.accepted content)
