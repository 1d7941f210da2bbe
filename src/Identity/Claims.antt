-- ===== src/Identity/Claims.antt =====
-- What a claim of src/openwright/identity.py binds.
use openwright.Common.{
  ◌≡◌, refl, sym, ap, ◌∙◌, subst, ◌≢◌, ◌⊎◌, inl, inr, true, false, none, some, [], ◌∷◌, arith,
  Bool-cases, Option-cases, some-injective, Bytes, bytes_eq→eq, bytes_eq_refl, Collision,
  eq_or_Collision, Text, codes,
}
use openwright.Signing.{Platform, KeySource, Signs, key_id, key_id_for}
use openwright.Identity.{
  IdentityClaim, other_than, signature_holds, make_identity_claim, verify_identity_claim,
  card_signing_bytes, hash_text,
}
use openwright.Canonical.{Fields}

other_than_refl : (t : Text) → other_than t (some t) ≡ false
other_than_refl [] = refl
other_than_refl (c ∷ t) = ground (arith, bytes_eq_refl (c ∷ t))

module _ (p : Platform) where
  signature_holds-sign :
      (key : KeySource) (signed : Bytes) (encoded : Text)
      → Signs p key
      → encoded ≡ p.b64encode (key.sign signed)
      → encoded ≢ []
      → signature_holds p key.public_key_raw (some encoded) signed ≡ true
  signature_holds-sign key signed [] s e full = absurd (full refl)
  signature_holds-sign key signed (c ∷ t) s e full =
      let read : p.b64decode (c ∷ t) ≡ some (key.sign signed) =
        ap p.b64decode e ∙ s.decoded (key.sign signed) in
      rw (read, signature_holds) (s.accepted signed)

  abbrev claim_of : KeySource → Bytes → IdentityClaim
  claim_of key signed = record {
    claim_type = codes "agentcard-binding";
    public_key_id = some (key_id p key);
    agent_card_hash = some (hash_text p signed);
    signature_b64 = some (p.b64encode (key.sign signed));
  }

  make_identity_claim-claim_of :
      (card : Fields) (key : KeySource) (signed : Bytes)
      → card_signing_bytes p card ≡ some signed
      → make_identity_claim p card key ≡ some (claim_of key signed)
  unfolding make_identity_claim
  make_identity_claim-claim_of card key signed made = rw made refl

  verify_identity_claim-claim_of :
      (card : Fields) (key : KeySource) (signed : Bytes)
      → Signs p key
      → card_signing_bytes p card ≡ some signed
      → p.b64encode (key.sign signed) ≢ []
      → verify_identity_claim p (claim_of key signed) card key.public_key_raw ≡ some true
  unfolding verify_identity_claim key_id
  verify_identity_claim-claim_of card key signed s made full =
      rw
        (
          other_than_refl (key_id_for p key.public_key_raw),
          made,
          other_than_refl (hash_text p signed),
          signature_holds-sign key signed (p.b64encode (key.sign signed)) s refl full,
        )
        refl

  same_hash :
      (signed signed' : Bytes)
      → other_than (hash_text p signed') (some (hash_text p signed)) ≡ false
      → hash_text p signed' ≡ hash_text p signed
  unfolding hash_text
  same_hash signed signed' h =
      sym (bytes_eq→eq (hash_text p signed) (hash_text p signed') (ground (arith, h)))

  verify_identity_claim-hash :
      (claim : IdentityClaim) (other : Fields) (k : Bytes)
      → verify_identity_claim p claim other k ≡ some true
      → (signed : Bytes) × (card_signing_bytes p other ≡ some signed)
        × (other_than (hash_text p signed) claim.agent_card_hash ≡ false)
  unfolding verify_identity_claim
  verify_identity_claim-hash claim other k h =
      elim (Bool-cases (other_than (key_id_for p k) claim.public_key_id)) [
        | inl wrong ↦ ground (arith, wrong, h)
        | inr right ↦ elim (Option-cases (card_signing_bytes p other)) [
          | inl bad ↦ ground (arith, right, bad, h)
          | inr (signed, made) ↦ (signed, made, ground (arith, right, made, h))
        ]
      ]

  no_claim :
      (card : Fields) (key : KeySource) (claim : IdentityClaim)
      → card_signing_bytes p card ≡ none
      → make_identity_claim p card key ≢ some claim
  unfolding make_identity_claim
  no_claim card key claim bad made = ground (arith, bad, made)

  -- With a key whose signatures are accepted, if a card can be signed and its signature is not empty,
  -- the key makes a claim for the card, and the claim verifies for it with the key's public half.
  pub verify_identity_claim-make :
      (card : Fields) (key : KeySource) (signed : Bytes)
      → Signs p key
      → card_signing_bytes p card ≡ some signed
      → p.b64encode (key.sign signed) ≢ []
      → (claim : IdentityClaim) × (make_identity_claim p card key ≡ some claim)
        × (verify_identity_claim p claim card key.public_key_raw ≡ some true)
  verify_identity_claim-make card key signed s made full = (
    claim_of key signed,
    make_identity_claim-claim_of card key signed made,
    verify_identity_claim-claim_of card key signed s made full,
  )

  -- A card for which the claim made for another one verifies, with any public key, has the same
  -- bytes to sign as that one, or two byte strings with one hash are found.
  pub verify_identity_claim-binding :
      (card other : Fields) (key : KeySource) (k : Bytes) (claim : IdentityClaim)
      → make_identity_claim p card key ≡ some claim
      → verify_identity_claim p claim other k ≡ some true
      → (card_signing_bytes p other ≡ card_signing_bytes p card) ⊎ Collision (hash_text p)
  verify_identity_claim-binding card other key k claim is_claim accepted =
      elim (Option-cases (card_signing_bytes p card)) [
        | inl bad ↦ absurd (no_claim card key claim bad is_claim)
        | inr (signed, made) ↦
            let same : claim_of key signed ≡ claim =
              some-injective (sym (make_identity_claim-claim_of card key signed made) ∙ is_claim) in
            let (signed', made', agrees) =
              verify_identity_claim-hash (claim_of key signed) other k (
                subst (λ (c : IdentityClaim). verify_identity_claim p c other k ≡ some true)
                  (sym same) accepted) in
            elim (eq_or_Collision (hash_text p) signed' signed (same_hash signed signed' agrees)) [
              | inl equal ↦ inl (made' ∙ ap some equal ∙ sym made)
              | inr collision ↦ inr collision
            ]
      ]
