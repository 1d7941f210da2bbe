-- ===== src/Merkle/InclusionProof.antt =====
-- `inclusion_proof` of src/openwright/merkle.py: the equations of its recursion.
use openwright.Common.{
  ℕ, zero, suc, ◌+◌, ◌-◌, ◌^◌, ◌≤◌, ◌<◌, ◌≡◌, refl, sym, ◌∙◌, inl, inr, some, List, [], ◌∷◌, arith,
  leb, ◌==◌, lt→ltb, le→ltb, le→leb, lt→leb, gt→==, Bool-cases, length, take, drop, length-take,
  length-drop, Bytes,
}
use openwright.Merkle.{tree_hash, then_sibling, inclusion_fuel, inclusion_proof}
use openwright.Merkle.Pow2.{largest_pow2_lt, largest_pow2_lt_lem, pow2_pos}
use openwright.Merkle.TreeHash.{take_shorter, drop_shorter}

module _ (sha256 : Bytes → Bytes) where
  inclusion_fuel_enough :
      (f g : ℕ) (ls : List Bytes) (m : ℕ)
      → length ls ≤ f
      → length ls ≤ g
      → inclusion_fuel sha256 f ls m ≡ inclusion_fuel sha256 g ls m
  unfolding inclusion_fuel
  inclusion_fuel_enough zero zero ls m p q = refl
  inclusion_fuel_enough zero (suc g) ls m p q = rw (le→leb (length ls) m (omega arith))
  inclusion_fuel_enough (suc f) zero ls m p q = rw (le→leb (length ls) m (omega arith))
  inclusion_fuel_enough (suc f) (suc g) ls m p q = elim (Bool-cases (leb (length ls) m)) [
    | inl out ↦ rw out
    | inr inside ↦ elim (Bool-cases (length ls == 1)) [
      | inl one ↦ rw (inside, one)
      | inr more ↦
          let k : ℕ = largest_pow2_lt (length ls) in
          let s = take_shorter ls (ground arith) in
          let t = drop_shorter ls (ground arith) in
          rw (
            inclusion_fuel_enough f g (take k ls) m (omega arith) (omega arith),
            inclusion_fuel_enough f g (drop k ls) (m - k) (omega arith) (omega arith),
          )
    ]
  ]

  inclusion_fuel-proof :
      (f : ℕ) (ls : List Bytes) (m : ℕ)
      → length ls ≤ f
      → inclusion_fuel sha256 f ls m ≡ inclusion_proof sha256 ls m
  unfolding inclusion_proof
  inclusion_fuel-proof f ls m p = inclusion_fuel_enough f (length ls) ls m p (omega arith)

  pub inclusion_proof-one : (x : Bytes) → inclusion_proof sha256 (x ∷ []) 0 ≡ some []
  unfolding inclusion_proof
  inclusion_proof-one x = refl

  module _ (e : ℕ) (ls : List Bytes) (m : ℕ) (lo : 2 ^ e < length ls)
      (hi : length ls ≤ 2 ^ e + 2 ^ e) where
    inclusion_fuel-left :
        (f : ℕ)
        → length ls ≤ suc f
        → m < 2 ^ e
        → inclusion_fuel sha256 (suc f) ls m
          ≡ then_sibling
              (inclusion_proof sha256 (take (2 ^ e) ls) m)
              (tree_hash sha256 (drop (2 ^ e) ls))
    unfolding inclusion_fuel
    inclusion_fuel-left f p h = rw (
      largest_pow2_lt_lem e (length ls) lo hi,
      lt→leb (length ls) m (omega arith),
      gt→== (length ls) 1 (omega (arith, pow2_pos e)),
      lt→ltb m (2 ^ e) h,
      inclusion_fuel-proof f (take (2 ^ e) ls) m (omega (arith, length-take (2 ^ e) ls)),
    )

    inclusion_fuel-right :
        (f : ℕ)
        → length ls ≤ suc f
        → 2 ^ e ≤ m
        → m < length ls
        → inclusion_fuel sha256 (suc f) ls m
          ≡ then_sibling
              (inclusion_proof sha256 (drop (2 ^ e) ls) (m - 2 ^ e))
              (tree_hash sha256 (take (2 ^ e) ls))
    unfolding inclusion_fuel
    inclusion_fuel-right f p h h' = rw (
      largest_pow2_lt_lem e (length ls) lo hi,
      lt→leb (length ls) m (omega arith),
      gt→== (length ls) 1 (omega (arith, pow2_pos e)),
      le→ltb m (2 ^ e) h,
      inclusion_fuel-proof f (drop (2 ^ e) ls) (m - 2 ^ e)
          (omega (arith, pow2_pos e, length-drop (2 ^ e) ls)),
    )

    -- The source's two recursive branches, at the split point 2^e.
    pub inclusion_proof-left :
        m < 2 ^ e
        → inclusion_proof sha256 ls m
          ≡ then_sibling
              (inclusion_proof sha256 (take (2 ^ e) ls) m)
              (tree_hash sha256 (drop (2 ^ e) ls))
    inclusion_proof-left h =
        sym (inclusion_fuel-proof (suc (length ls)) ls m (omega arith))
        ∙ inclusion_fuel-left (length ls) (omega arith) h

    pub inclusion_proof-right :
        2 ^ e ≤ m
        → m < length ls
        → inclusion_proof sha256 ls m
          ≡ then_sibling
              (inclusion_proof sha256 (drop (2 ^ e) ls) (m - 2 ^ e))
              (tree_hash sha256 (take (2 ^ e) ls))
    inclusion_proof-right h h' =
        sym (inclusion_fuel-proof (suc (length ls)) ls m (omega arith))
        ∙ inclusion_fuel-right (length ls) (omega arith) h h'
