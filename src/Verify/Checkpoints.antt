-- ===== src/Verify/Checkpoints.antt =====
-- `verify_consistency_between` of src/openwright/verify.py.
use openwright.Merkle.Consistency.Sound.{verify_consistency_sound}
use openwright.Merkle.Consistency.Sizes.{IsDigest}
use openwright.Merkle.{tree_hash}
use openwright.Crosswalk.Values.{eq_value}
use openwright.Witness.{unhex_all}
use openwright.Canonical.{Fields, Value}
use openwright.Merkle.Consistency.{verify_consistency}
use openwright.Verify.{checkpoint_bytes, head_of, eq_value}
use openwright.Signing.{Platform, key_id_for}
use openwright.Common.{
  ℕ, ◌<◌, ◌≡◌, refl, sym, ap, ◌∙◌, ◌⊎◌, Bool, true, false, ◌&&◌, Option, none, some, List, [],
  arith, if◌then◌else◌, some-injective, length, take, All, Bytes, Collision, Text, codes, ◌>>=◌,
  >>=-elim,
}
use openwright.Dicts.{Number, dget_or, read_text, dget}

-- A negative size, which no ledger signs, is left out of the model.
abbrev pub natural : Number → Option ℕ
natural (true, n) = some n
natural (false, n) = none

if_true :
    (b : Bool) (o : Option Bool)
    → (if b then o else some false) ≡ some true
    → (b ≡ true) × (o ≡ some true)
if_true true o h = (refl, h)
if_true false o h = cc

module _ (p : Platform) where
  -- One turn of the loop over the two checkpoints.
  unfoldable pub signed_by : Bytes → Fields → Option Bool
  unfolding checkpoint_bytes dget_or
  signed_by key cp = do
    encoded ← read_text (dget_or (codes "signature") (Value.str []) cp)
    sig ← p.b64decode encoded
    content ← checkpoint_bytes p cp
    some (
        p.ed25519_verify key sig content
        && eq_value (dget (codes "public_key_id") cp) (Value.str (key_id_for p key)))

  -- The roots and sizes, read after both signatures were accepted.
  unfoldable pub heads_consistent : Fields → Fields → List Text → Option Bool
  unfolding head_of unhex_all
  heads_consistent old new proof_hex = do
    (first, s) ← head_of old
    (second, t) ← head_of new
    m ← natural s
    n ← natural t
    proof ← unhex_all proof_hex
    some (verify_consistency p.sha256 m n first second proof)

  unfoldable pub verify_consistency_between :
      Fields → Fields → List Text → Option Bytes → Option Bool
  unfolding signed_by heads_consistent
  verify_consistency_between old new proof_hex none = some false
  verify_consistency_between old new proof_hex (some key) = do
    old_ok ← signed_by key old
    new_ok ← if old_ok then signed_by key new else some false
    if new_ok then heads_consistent old new proof_hex else some false

  heads_consistent_lem :
      (old new : Fields) (proof_hex : List Text) (first second : Bytes) (m n : ℕ)
      (proof : List Bytes)
      → head_of old ≡ some (first, (true, m))
      → head_of new ≡ some (second, (true, n))
      → unhex_all proof_hex ≡ some proof
      → heads_consistent old new proof_hex
        ≡ some (verify_consistency p.sha256 m n first second proof)
  unfolding heads_consistent
  heads_consistent_lem old new proof_hex first second m n proof ho hn hp =
      rw (heads_consistent, ho, hn, hp) refl

  -- Let SHA-256 give 32 bytes, the newer checkpoint state the root and size of a log of 32-byte
  -- digests, the older one a smaller size that is not 0, and the older root and every node of the
  -- proof be 32 bytes long. If `verify_consistency_between` then returns true, a trusted key was
  -- given, both checkpoints are signed with it and name it, and the older root is that of the prefix
  -- of the log of the older size, or SHA-256 has a collision.
  pub verify_consistency_between_sound :
      ((x : Bytes) → length (p.sha256 x) ≡ 32)
      → (old new : Fields) (proof_hex : List Text) (trusted : Option Bytes) (m : ℕ)
        (ls : List Bytes) (first : Bytes) (proof : List Bytes)
      → verify_consistency_between old new proof_hex trusted ≡ some true
      → head_of old ≡ some (first, (true, m))
      → head_of new ≡ some (tree_hash p.sha256 ls, (true, length ls))
      → unhex_all proof_hex ≡ some proof
      → 0 < m
      → m < length ls
      → All IsDigest ls
      → IsDigest first
      → All IsDigest proof
      → ((key : Bytes) × (trusted ≡ some key)
          × (signed_by key old ≡ some true)
          × (signed_by key new ≡ some true))
        × ((first ≡ tree_hash p.sha256 (take m ls)) ⊎ Collision p.sha256)
  unfolding verify_consistency_between
  verify_consistency_between_sound sized old new proof_hex none m ls first proof h ho hn hp pos
        larger dl df dp =
      cc
  verify_consistency_between_sound sized old new proof_hex (some key) m ls first proof h ho hn hp
        pos larger dl df dp =
      >>=-elim (signed_by key old) _ h (λ old_ok is_old h1.
        >>=-elim (if old_ok then signed_by key new else some false) _ h1 (λ new_ok is_new h2.
          let (new_true, checked) = if_true new_ok _ h2 in
          let (old_true, also) = if_true old_ok _ (is_new ∙ ap some new_true) in
          let accepted : verify_consistency p.sha256 m (length ls) first (tree_hash p.sha256 ls)
                proof
              ≡ true =
            some-injective (
              sym (
                heads_consistent_lem old new proof_hex first (tree_hash p.sha256 ls) m (length ls)
                  proof ho hn hp)
              ∙ checked) in
          (
            (key, refl, is_old ∙ ap some old_true, also),
            verify_consistency_sound p.sha256 sized m ls first proof pos (omega arith) dl df dp
                accepted,
          )))
