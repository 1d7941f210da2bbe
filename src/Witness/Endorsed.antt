-- ===== src/Witness/Endorsed.antt =====
-- What `Witness.cosign` of src/openwright/witness.py endorses.
use openwright.Merkle.Consistency.Sound.{verify_consistency_sound}
use openwright.Merkle.Consistency.Sizes.{IsDigest}
use openwright.Merkle.{tree_hash}
use openwright.Merkle.Consistency.{verify_consistency}
use openwright.Signing.Checkpoints.{signing_bytes_total, verify_b64-sign}
use openwright.Common.{
  fromhex, ℕ, ◌≤◌, ◌<◌, ◌≡◌, refl, ◌⊎◌, true, Option, none, some, List, arith, eq→==, length, take,
  All, Bytes, bytes_eq_refl, Collision, Text,
}
use openwright.Signing.{Platform, KeySource, Signs, Checkpoint, verify, key_id, key_id_for}
use openwright.Witness.{
  WitnessCosignature, Refusal, ok, err, cosign, verify_cosignature, endorse, cosignature,
  check_extension, check_last, verify_consistency, unhex_all,
}

check_extension_ok :
    (p : Platform) (m n : ℕ) (first second : Option Bytes) (proof : Option (List Bytes))
    → check_extension p m n first second proof ≡ ok tt
    → (a : Bytes) × (b : Bytes) × (path : List Bytes) × (first ≡ some a)
      × (second ≡ some b)
      × (proof ≡ some path)
      × (verify_consistency p.sha256 m n a b path ≡ true)
unfolding check_extension
check_extension_ok p m n (some a) (some b) (some path) h =
    (a, b, path, refl, refl, refl, ground arith)
check_extension_ok p m n (some a) (some b) none h = cc
check_extension_ok p m n (some a) none path h = cc
check_extension_ok p m n none b path h = cc

module _ (p : Platform) (key : KeySource) where
  -- Whatever is refused leaves the last endorsed head as it was, and what is endorsed becomes it.
  pub cosign_state :
      (last : Option Checkpoint) (cp : Checkpoint) (producer : Bytes) (proof_hex : List Text)
      → ((e : Refusal)
          → (cosign p key last cp producer proof_hex).0 ≡ err e
          → (cosign p key last cp producer proof_hex).1 ≡ last)
        × ((c : WitnessCosignature)
            → (cosign p key last cp producer proof_hex).0 ≡ ok c
            → ((cosign p key last cp producer proof_hex).1 ≡ some cp)
              × (verify p cp producer ≡ true))
  unfolding cosign endorse
  cosign_state last cp producer proof_hex =
      let (content, made) = signing_bytes_total p cp in (λ e h. ground arith, λ c h. ground arith)

  -- With a key whose signatures are accepted, a co-signature that `cosign` returns is confirmed by
  -- `verify_cosignature` with the witness's public key, for the very head that was shown.
  pub verify_cosignature-cosign :
      (last : Option Checkpoint) (cp : Checkpoint) (producer : Bytes) (proof_hex : List Text)
      (c : WitnessCosignature)
      → Signs p key
      → (cosign p key last cp producer proof_hex).0 ≡ ok c
      → verify_cosignature p cp c key.public_key_raw ≡ true
  unfolding cosign endorse verify_cosignature cosignature key_id
  verify_cosignature-cosign last cp producer proof_hex c s h =
      let (content, made) = signing_bytes_total p cp in
      let same : c ≡ cosignature p key cp content = ground arith in
      rw
        (
          same,
          made,
          bytes_eq_refl (key_id_for p key.public_key_raw),
          eq→== cp.tree_size cp.tree_size refl,
          bytes_eq_refl cp.root_hash,
        )
        (verify_b64-sign p key content s)

  -- What is endorsed after another head is not smaller, and if it is larger its consistency proof
  -- from that head was accepted.
  pub cosign_extends :
      (last cp : Checkpoint) (producer : Bytes) (proof_hex : List Text) (c : WitnessCosignature)
      → (cosign p key (some last) cp producer proof_hex).0 ≡ ok c
      → (last.tree_size ≤ cp.tree_size)
        × (last.tree_size < cp.tree_size
            → (first : Bytes) × (second : Bytes) × (proof : List Bytes) × (fromhex last.root_hash
                ≡ some first)
              × (fromhex cp.root_hash ≡ some second)
              × (unhex_all proof_hex ≡ some proof)
              × (verify_consistency p.sha256 last.tree_size cp.tree_size first second proof ≡ true))
  unfolding cosign check_last
  cosign_extends last cp producer proof_hex c h = (
    ground arith,
    λ larger.
        check_extension_ok p last.tree_size cp.tree_size (fromhex last.root_hash)
          (fromhex cp.root_hash) (unhex_all proof_hex) (ground arith),
  )

  -- When the witness endorses a larger head whose root is that of a log of digests, with nodes and
  -- an earlier root of 32 bytes, then the head that it endorsed before, if not of an empty log, is
  -- the head of a prefix of that log, or SHA-256 has a collision.
  pub cosign_no_rewrite :
      ((x : Bytes) → length (p.sha256 x) ≡ 32)
      → (last cp : Checkpoint) (producer : Bytes) (proof_hex : List Text) (c : WitnessCosignature)
        (ls : List Bytes) (first : Bytes) (proof : List Bytes)
      → (cosign p key (some last) cp producer proof_hex).0 ≡ ok c
      → 0 < last.tree_size
      → last.tree_size < cp.tree_size
      → cp.tree_size ≡ length ls
      → fromhex cp.root_hash ≡ some (tree_hash p.sha256 ls)
      → fromhex last.root_hash ≡ some first
      → unhex_all proof_hex ≡ some proof
      → All IsDigest ls
      → IsDigest first
      → All IsDigest proof
      → (first ≡ tree_hash p.sha256 (take last.tree_size ls)) ⊎ Collision p.sha256
  cosign_no_rewrite sized last cp producer proof_hex c ls first proof endorsed pos larger size root
        old read dl df dp =
      let (a, b, path, fa, fb, fp, accepted) =
        (cosign_extends last cp producer proof_hex c endorsed).1 larger in
      let same_first : a ≡ first = cc in
      let same_root : b ≡ tree_hash p.sha256 ls = cc in
      let same_proof : path ≡ proof = cc in
      let accepted' : verify_consistency p.sha256 last.tree_size (length ls) first
            (tree_hash p.sha256 ls) proof
          ≡ true =
        rw (← size, ← same_first, ← same_root, ← same_proof) accepted in
      verify_consistency_sound p.sha256 sized last.tree_size ls first proof pos (omega arith) dl df
        dp accepted'

  -- At the size of the last endorsed head nothing is compared: any head of that size with a valid
  -- producer signature is endorsed, whatever its root.
  pub cosign_same_size :
      (last cp : Checkpoint) (producer : Bytes) (proof_hex : List Text)
      → verify p cp producer ≡ true
      → cp.tree_size ≡ last.tree_size
      → (c : WitnessCosignature) × (cosign p key (some last) cp producer proof_hex
          ≡ (ok c, some cp))
        × (c.root_hash ≡ cp.root_hash)
  unfolding cosign check_last endorse cosignature
  cosign_same_size last cp producer proof_hex valid same =
      let (content, made) = signing_bytes_total p cp in
      (cosignature p key cp content, ground arith, refl)
