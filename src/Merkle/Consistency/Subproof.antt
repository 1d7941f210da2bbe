-- ===== src/Merkle/Consistency/Subproof.antt =====
-- `_subproof` of src/openwright/merkle.py: the equations of its recursion.
use openwright.Common.{
  ℕ, zero, suc, ◌+◌, ◌-◌, ◌^◌, ◌≤◌, ◌<◌, ◌≡◌, sym, ◌∙◌, inl, inr, Bool, false, List, [], ◌∷◌, ◌++◌,
  arith, leb, ◌==◌, if◌then◌else◌, le→leb, lt→leb, eq→==, lt→==, leb→le, leb→gt, Bool-cases, length,
  take, drop, length-take, length-drop, all, Bytes,
}
use openwright.Merkle.{subproof_fuel, subproof, tree_hash}
use openwright.Merkle.Pow2.{largest_pow2_lt, largest_pow2_lt_lem}
use openwright.Merkle.TreeHash.{take_shorter, drop_shorter}

module _ (sha256 : Bytes → Bytes) where
  -- Enough fuel gives one result, for the sizes 0 < m ≤ n at which it is called.
  subproof_fuel_enough :
      (f g m : ℕ) (ls : List Bytes) (b : Bool)
      → length ls ≤ f
      → length ls ≤ g
      → 0 < m
      → m ≤ length ls
      → subproof_fuel sha256 f m ls b ≡ subproof_fuel sha256 g m ls b
  unfolding subproof_fuel
  subproof_fuel_enough zero g m ls b p q h h' = absurd (omega arith)
  subproof_fuel_enough (suc f) zero m ls b p q h h' = absurd (omega arith)
  subproof_fuel_enough (suc f) (suc g) m ls b p q h h' = elim (Bool-cases (m == length ls)) [
    | inl all ↦ rw all
    | inr part ↦
        let k : ℕ = largest_pow2_lt (length ls) in
        let s = take_shorter ls (ground arith) in
        let t = drop_shorter ls (ground arith) in
        let lt = length-take k ls in
        let ld = length-drop k ls in
        elim (Bool-cases (leb m k)) [
          | inl left ↦
              let low = leb→le m k left in
              rw (
                part,
                left,
                subproof_fuel_enough f g m (take k ls) b (omega arith) (omega arith) h
                    (omega arith),
              )
          | inr right ↦
              let high = leb→gt m k right in
              rw (
                part,
                right,
                subproof_fuel_enough f g (m - k) (drop k ls) false (omega arith) (omega arith)
                    (omega arith) (omega arith),
              )
        ]
  ]

  subproof_fuel-subproof :
      (f m : ℕ) (ls : List Bytes) (b : Bool)
      → length ls ≤ f
      → 0 < m
      → m ≤ length ls
      → subproof_fuel sha256 f m ls b ≡ subproof sha256 m ls b
  unfolding subproof
  subproof_fuel-subproof f m ls b p h h' =
      subproof_fuel_enough f (length ls) m ls b p (omega arith) h h'

  -- `if m == n: return [] if b else [tree_hash(leaves)]`
  pub subproof-all :
      (m : ℕ) (ls : List Bytes) (b : Bool)
      → 0 < m
      → m ≡ length ls
      → subproof sha256 m ls b ≡ (if b then [] else tree_hash sha256 ls ∷ [])
  subproof-all m ls b h e =
      sym (subproof_fuel-subproof (suc (length ls)) m ls b (omega arith) h (omega arith))
      ∙ unfold subproof_fuel in rw (eq→== m (length ls) e)

  module _ (e m : ℕ) (ls : List Bytes) (b : Bool) (lo : 2 ^ e < length ls)
      (hi : length ls ≤ 2 ^ e + 2 ^ e) (positive : 0 < m) (inside : m < length ls) where
    -- The two recursive branches, at the split point 2^e.
    pub subproof-left :
        m ≤ 2 ^ e
        → subproof sha256 m ls b
          ≡ subproof sha256 m (take (2 ^ e) ls) b ++ tree_hash sha256 (drop (2 ^ e) ls) ∷ []
    subproof-left h =
        sym (subproof_fuel-subproof (suc (length ls)) m ls b (omega arith) positive (omega arith))
        ∙ unfold subproof_fuel in
          rw (
            largest_pow2_lt_lem e (length ls) lo hi,
            lt→== m (length ls) inside,
            le→leb m (2 ^ e) h,
            subproof_fuel-subproof (length ls) m (take (2 ^ e) ls) b
                (omega (arith, length-take (2 ^ e) ls)) positive
                (omega (arith, length-take (2 ^ e) ls)),
          )

    pub subproof-right :
        2 ^ e < m
        → subproof sha256 m ls b
          ≡ subproof sha256 (m - 2 ^ e) (drop (2 ^ e) ls) false
            ++ tree_hash sha256 (take (2 ^ e) ls) ∷ []
    subproof-right h =
        sym (subproof_fuel-subproof (suc (length ls)) m ls b (omega arith) positive (omega arith))
        ∙ unfold subproof_fuel in
          rw (
            largest_pow2_lt_lem e (length ls) lo hi,
            lt→== m (length ls) inside,
            lt→leb m (2 ^ e) h,
            subproof_fuel-subproof (length ls) (m - 2 ^ e) (drop (2 ^ e) ls) false
                (omega (arith, length-drop (2 ^ e) ls)) (omega arith)
                (omega (arith, length-drop (2 ^ e) ls)),
          )
