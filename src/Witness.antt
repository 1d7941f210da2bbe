-- ===== src/Witness.antt =====
-- src/openwright/witness.py: an independent witness that co-signs tree heads.
pub mod Endorsed
mod Tests
use openwright.Common.{
  bytes_eq, fromhex, ℕ, Bool, false, not, ◌||◌, Option, none, some, List, [], ◌∷◌, ltb, ◌==◌,
  if◌then◌else◌, Bytes, Text,
}
use openwright.Merkle.Consistency.{verify_consistency}
use openwright.Signing.{
  Platform, KeySource, Checkpoint, key_id, key_id_for, signing_bytes, verify, verify_b64,
}

pub record WitnessCosignature : Type 0 where
  pub witness_key_id : Text
  pub tree_size : ℕ
  pub root_hash : Text
  pub signature : Text

-- The WitnessErrors in the order of the code, and the ValueErrors of `bytes.fromhex` and of the
-- canonical encoding.
pub data Refusal : Type 0 where
  invalid_signature went_backwards not_consistent bad_hex not_canonical : Refusal

pub data Result {ℓ} (A : Type ℓ) : Type ℓ where
  ok : A → Result A
  err : Refusal → Result A

-- `[bytes.fromhex(h) for h in …]`
unfoldable pub unhex_all : List Text → Option (List Bytes)
unhex_all [] = some []
unhex_all (h ∷ hs) = elim (fromhex h) [
  | none ↦ none
  | some b ↦ elim (unhex_all hs) [ none ↦ none | some bs ↦ some (b ∷ bs) ]
]

module _ (p : Platform) where
  -- The consistency check from the last endorsed head, all its texts read.
  unfoldable pub check_extension :
      ℕ → ℕ → Option Bytes → Option Bytes → Option (List Bytes) → Result (Unit {0})
  check_extension m n (some first) (some second) (some proof) =
      if verify_consistency p.sha256 m n first second proof then ok tt else err not_consistent
  check_extension m n _ _ _ = err bad_hex

  -- Step 2 of `cosign`: the head must extend the last one that was endorsed.
  unfoldable pub check_last : Option Checkpoint → Checkpoint → List Text → Result (Unit {0})
  unfolding check_extension unhex_all
  check_last none checkpoint proof_hex = ok tt
  check_last (some last) checkpoint proof_hex =
      if ltb checkpoint.tree_size last.tree_size
      then err went_backwards
      else if ltb last.tree_size checkpoint.tree_size
      then check_extension last.tree_size checkpoint.tree_size (fromhex last.root_hash)
          (fromhex checkpoint.root_hash) (unhex_all proof_hex)
      else ok tt

  unfoldable pub cosignature : KeySource → Checkpoint → Bytes → WitnessCosignature
  cosignature key checkpoint content = record {
    witness_key_id = key_id p key;
    tree_size = checkpoint.tree_size;
    root_hash = checkpoint.root_hash;
    signature = p.b64encode (key.sign content);
  }

  -- Step 3: endorse, and remember the head.
  unfoldable pub endorse :
      KeySource
      → Option Checkpoint
      → Checkpoint
      → Option Bytes
      → Result WitnessCosignature × Option Checkpoint
  unfolding cosignature
  endorse key last checkpoint none = (err not_canonical, last)
  endorse key last checkpoint (some content) =
      (ok (cosignature key checkpoint content), some checkpoint)

  -- `Witness.cosign` from the last endorsed head; an absent proof is the empty one. The state is
  -- the new last head.
  unfoldable pub cosign :
      KeySource
      → Option Checkpoint
      → Checkpoint
      → Bytes
      → List Text
      → Result WitnessCosignature × Option Checkpoint
  unfolding check_last endorse
  cosign key last checkpoint producer_public_key_raw proof_hex =
      if not (verify p checkpoint producer_public_key_raw)
      then (err invalid_signature, last)
      else elim (check_last last checkpoint proof_hex) [
        | err e ↦ (err e, last)
        | ok _ ↦ endorse key last checkpoint (signing_bytes p checkpoint)
      ]

  unfoldable pub verify_cosignature : Checkpoint → WitnessCosignature → Bytes → Bool
  verify_cosignature checkpoint cosig witness_public_key_raw =
      if not (bytes_eq (key_id_for p witness_public_key_raw) cosig.witness_key_id)
      then false
      else if not (cosig.tree_size == checkpoint.tree_size)
          || not (bytes_eq cosig.root_hash checkpoint.root_hash)
      then false
      else verify_b64 p witness_public_key_raw cosig.signature (signing_bytes p checkpoint)
