-- ===== src/Identity/Tests.antt =====
-- The theorem on identity claims for a concrete card.
use openwright.Identity.Claims.{verify_identity_claim-make, verify_identity_claim-binding}
use openwright.Signing.{key_id}
use openwright.Signing.Toy.{toy_platform, toy_key, toy_Signs, toy_dumps}
use openwright.Identity.{
  IdentityClaim, card_signing_bytes, key_id, make_identity_claim, verify_identity_claim, hash_text,
}
use openwright.Canonical.{Fields, Value, clean}
use openwright.Common.{
  bytes_eq, ◌≡◌, refl, ◌⊎◌, true, none, some, [], ◌∷◌, ◌++◌, Bytes, Collision, codes,
}

abbrev card : Fields
card =
    Fields.field (codes "name") (Value.str (codes "agent"))
      (Fields.field (codes "signatures") (Value.str (codes "x")) Fields.empty)

abbrev unsigned_card : Fields
unsigned_card = Fields.field (codes "name") (Value.str (codes "agent")) Fields.empty

abbrev signer : Bytes
signer = 9 ∷ []

abbrev content : Bytes
content = elim (card_signing_bytes toy_platform card) [ none ↦ [] | some signed ↦ signed ]

abbrev made_claim : IdentityClaim
made_claim = record {
  claim_type = codes "agentcard-binding";
  public_key_id = some (key_id toy_platform (toy_key signer));
  agent_card_hash = some (hash_text toy_platform content);
  signature_b64 = some (signer ++ content);
}

read_card : card_signing_bytes toy_platform card ≡ some content
unfolding card_signing_bytes clean bytes_eq
read_card = refl

made : make_identity_claim toy_platform card (toy_key signer) ≡ some made_claim
unfolding make_identity_claim clean bytes_eq
made = refl

accepted : verify_identity_claim toy_platform made_claim unsigned_card signer ≡ some true
unfolding verify_identity_claim key_id bytes_eq clean toy_dumps
accepted = refl

verify_identity_claim-make_example :
    (claim : IdentityClaim) × (make_identity_claim toy_platform card (toy_key signer) ≡ some claim)
    × (verify_identity_claim toy_platform claim card signer ≡ some true)
verify_identity_claim-make_example =
    verify_identity_claim-make toy_platform card (toy_key signer) content (toy_Signs signer)
      read_card (λ e. cc)

verify_identity_claim-binding_example :
    (card_signing_bytes toy_platform unsigned_card ≡ card_signing_bytes toy_platform card)
    ⊎ Collision (hash_text toy_platform)
verify_identity_claim-binding_example =
    verify_identity_claim-binding toy_platform card unsigned_card (toy_key signer) signer made_claim
      made accepted
