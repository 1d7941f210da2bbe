-- ===== src/Identity.antt =====
-- src/openwright/identity.py: claims that bind an agent's card to a key.
pub mod Claims
mod Tests
use mathlib.Core.Option
use openwright.Common.{
  bytes_eq, hex, Bool, false, not, ◌&&◌, Option, none, some, [], ◌∷◌, ◌++◌, if◌then◌else◌, Bytes,
  Text, codes, ◌>>=◌,
}
use openwright.Signing.{Platform, KeySource, key_id, key_id_for}
use openwright.Dicts.{without}
use openwright.Canonical.{Fields, canonical_bytes, Value}

pub record IdentityClaim : Type 0 where
  pub claim_type : Text
  pub public_key_id : Option Text
  pub agent_card_hash : Option Text
  pub signature_b64 : Option Text

-- `stated and stated != wanted`
abbrev pub other_than : Text → Option Text → Bool
other_than wanted none = false
other_than wanted (some []) = false
other_than wanted (some (c ∷ stated)) = not (bytes_eq (c ∷ stated) wanted)

module _ (p : Platform) where
  -- `_card_signing_bytes`
  unfoldable pub card_signing_bytes : Fields → Option Bytes
  unfolding canonical_bytes without
  card_signing_bytes agent_card =
      canonical_bytes p.dumps (Value.dict (without (codes "signatures") agent_card))

  -- `"sha256:" + sha256_hex(signed)`
  unfoldable pub hash_text : Bytes → Text
  unfolding hex
  hash_text signed = codes "sha256:" ++ hex (p.sha256 signed)

  unfoldable pub agent_card_hash : Fields → Option Text
  unfolding card_signing_bytes hash_text
  agent_card_hash agent_card = Option.map hash_text (card_signing_bytes agent_card)

  unfoldable pub make_identity_claim : Fields → KeySource → Option IdentityClaim
  unfolding card_signing_bytes hash_text key_id
  make_identity_claim agent_card key = do
    signed ← card_signing_bytes agent_card
    some (record {
      claim_type = codes "agentcard-binding";
      public_key_id = some (key_id p key);
      agent_card_hash = some (hash_text signed);
      signature_b64 = some (p.b64encode (key.sign signed));
    })

  -- The signature of a claim, where base64 that cannot be read is a refusal.
  abbrev pub signature_holds : Bytes → Option Text → Bytes → Bool
  signature_holds public_key_raw none signed = false
  signature_holds public_key_raw (some []) signed = false
  signature_holds public_key_raw (some (c ∷ s)) signed = elim (p.b64decode (c ∷ s)) [
    | none ↦ false
    | some sig ↦ p.ed25519_verify public_key_raw sig signed
  ]

  unfoldable pub verify_identity_claim : IdentityClaim → Fields → Bytes → Option Bool
  unfolding card_signing_bytes hash_text key_id_for
  verify_identity_claim claim agent_card public_key_raw =
      if other_than (key_id_for p public_key_raw) claim.public_key_id
      then some false
      else Option.map
          (λ signed.
            not (other_than (hash_text signed) claim.agent_card_hash)
            && signature_holds public_key_raw claim.signature_b64 signed)
          (card_signing_bytes agent_card)
