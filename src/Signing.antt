-- ===== src/Signing.antt =====
-- src/openwright/signing.py: key identifiers, signed checkpoints (tree heads) and their check.
-- The cryptography and encoding libraries are a parameter.
pub mod Checkpoints
pub mod Toy
use mathlib.Core.Option
use openwright.Common.{
  bytes_eq, hex, ℕ, ◌≡◌, Bool, true, false, not, Option, none, some, ◌++◌, if◌then◌else◌, take,
  Bytes, Text, codes,
}
use openwright.Canonical.{Value, Fields, canonical_bytes}

-- hashlib, json, the Ed25519 check of `cryptography`, and base64, as the code calls them.
-- `ed25519_verify` is false where that library raises InvalidSignature or ValueError, and
-- `b64decode` is none where base64 raises.
pub record Platform : Type 0 where
  pub sha256 : Bytes → Bytes
  pub dumps : Value → Bytes
  pub ed25519_verify : Bytes → Bytes → Bytes → Bool
  pub b64encode : Bytes → Text
  pub b64decode : Text → Option Bytes

-- `KeySource`: a file, an environment variable, an HSM.
pub record KeySource : Type 0 where
  pub sign : Bytes → Bytes
  pub public_key_raw : Bytes

-- What Ed25519 and base64 promise: a signature made with a key is accepted for its public key,
-- and decoding undoes encoding.
pub record Signs (p : Platform) (key : KeySource) : Type 0 where
  pub accepted :
      (content : Bytes) → p.ed25519_verify key.public_key_raw (key.sign content) content ≡ true
  pub decoded : (content : Bytes) → p.b64decode (p.b64encode content) ≡ some content

pub record Checkpoint : Type 0 where
  pub origin : Text
  pub tree_size : ℕ
  pub root_hash : Text
  pub timestamp : Text
  pub public_key_id : Text
  pub signature : Text

module _ (p : Platform) where
  unfoldable pub key_id_for : Bytes → Text
  key_id_for public_key_raw = codes "ed25519:" ++ take 32 (hex (p.sha256 public_key_raw))

  unfoldable pub key_id : KeySource → Text
  unfolding key_id_for
  key_id key = key_id_for key.public_key_raw

  unfoldable pub checkpoint_signing_bytes : Text → ℕ → Text → Text → Option Bytes
  unfolding canonical_bytes
  checkpoint_signing_bytes origin tree_size root_hash_hex timestamp = canonical_bytes p.dumps (
      Value.dict (
        Fields.field (codes "origin") (Value.str origin) (
          Fields.field (codes "root_hash") (Value.str root_hash_hex) (
            Fields.field (codes "timestamp") (Value.str timestamp)
              (Fields.field (codes "tree_size") (Value.int tree_size) Fields.empty)))))

  -- `Checkpoint.signing_bytes`
  unfoldable pub signing_bytes : Checkpoint → Option Bytes
  unfolding checkpoint_signing_bytes
  signing_bytes cp = checkpoint_signing_bytes cp.origin cp.tree_size cp.root_hash cp.timestamp

  -- A base64 signature over bytes; what cannot be decoded is refused.
  unfoldable pub verify_b64 : Bytes → Text → Option Bytes → Bool
  verify_b64 public_key_raw signature none = false
  verify_b64 public_key_raw signature (some content) = elim (p.b64decode signature) [
    | none ↦ false
    | some sig ↦ p.ed25519_verify public_key_raw sig content
  ]

  -- `Checkpoint.verify`
  unfoldable pub verify : Checkpoint → Bytes → Bool
  unfolding key_id_for signing_bytes verify_b64
  verify cp public_key_raw =
      if not (bytes_eq (key_id_for public_key_raw) cp.public_key_id)
      then false
      else verify_b64 public_key_raw cp.signature (signing_bytes cp)

  unfoldable pub sign_checkpoint : KeySource → Text → ℕ → Text → Text → Option Checkpoint
  unfolding checkpoint_signing_bytes key_id
  sign_checkpoint key origin tree_size root_hash_hex timestamp =
      Option.map
        (λ content. record {
          origin = origin;
          tree_size = tree_size;
          root_hash = root_hash_hex;
          timestamp = timestamp;
          public_key_id = key_id key;
          signature = p.b64encode (key.sign content);
        })
        (checkpoint_signing_bytes origin tree_size root_hash_hex timestamp)
