-- ===== src/Merkle/Consistency/Sizes.antt =====
-- With SHA-256 digests of 32 bytes, all that src/openwright/merkle.py makes of 32-byte leaves has
-- 32 bytes.
use native.Mathlib.Decide.{ℕ_discrete, dec_le}
use openwright.Common.{
  ℕ, zero, suc, ◌-◌, ◌^◌, ◌≤◌, ◌<◌, ◌≡◌, false, List, [], ◌∷◌, arith, length, take, drop, All,
  length-take, length-drop, All-append, All-take, All-drop, all, Bytes,
}
use openwright.Merkle.{tree_hash, tree_fuel, subproof, empty_root}
use openwright.Merkle.Pow2.{split_point, pow2_pos}
use openwright.Merkle.Binding.{length-node_hash}
use openwright.Merkle.Consistency.Subproof.{subproof-all, subproof-left, subproof-right}

abbrev pub IsDigest : Bytes → Type 0
IsDigest x = length x ≡ 32

module _ (sha256 : Bytes → Bytes) (sized : (x : Bytes) → length (sha256 x) ≡ 32) where
  tree_fuel-IsDigest :
      (f : ℕ) (ls : List Bytes) → All IsDigest ls → IsDigest (tree_fuel sha256 f ls)
  unfolding tree_fuel empty_root
  tree_fuel-IsDigest zero ls h = sized []
  tree_fuel-IsDigest (suc f) [] h = sized []
  tree_fuel-IsDigest (suc f) (x ∷ []) h = h.0
  tree_fuel-IsDigest (suc f) (x ∷ y ∷ rest) h = length-node_hash sha256 sized _ _

  pub tree_hash-IsDigest : (ls : List Bytes) → All IsDigest ls → IsDigest (tree_hash sha256 ls)
  unfolding tree_hash
  tree_hash-IsDigest ls h = tree_fuel-IsDigest (length ls) ls h

  subproof-IsDigest_fuel :
      (f m : ℕ) (ls : List Bytes)
      → length ls ≤ f
      → 0 < m
      → m ≤ length ls
      → All IsDigest ls
      → All IsDigest (subproof sha256 m ls false)
  subproof-IsDigest_fuel zero m ls p h part d = absurd (omega arith)
  subproof-IsDigest_fuel (suc f) m ls p h part d = elim (ℕ_discrete m (length ls)) [
    | yes all ↦ rw (subproof-all sha256 m ls false h all) (tree_hash-IsDigest ls d, tt)
    | no some_right ↦
        let (e, lo, hi) = split_point (length ls) (omega arith) in
        let dl = All-take IsDigest (2 ^ e) ls d in
        let dr = All-drop IsDigest (2 ^ e) ls d in
        elim (dec_le m (2 ^ e)) [
          | yes low ↦ rw (subproof-left sha256 e m ls false lo hi h (omega arith) low) (
              All-append IsDigest (subproof sha256 m (take (2 ^ e) ls) false) _
                (subproof-IsDigest_fuel f m (take (2 ^ e) ls)
                  (omega (arith, length-take (2 ^ e) ls)) h (omega (arith, length-take (2 ^ e) ls))
                  dl)
                (tree_hash-IsDigest (drop (2 ^ e) ls) dr, tt))
          | no high ↦ rw (subproof-right sha256 e m ls false lo hi h (omega arith) (omega arith)) (
              All-append IsDigest (subproof sha256 (m - 2 ^ e) (drop (2 ^ e) ls) false) _
                (subproof-IsDigest_fuel f (m - 2 ^ e) (drop (2 ^ e) ls)
                  (omega (arith, length-drop (2 ^ e) ls, pow2_pos e)) (omega arith)
                  (omega (arith, length-drop (2 ^ e) ls)) dr)
                (tree_hash-IsDigest (take (2 ^ e) ls) dl, tt))
        ]
  ]

  pub subproof-IsDigest :
      (m : ℕ) (ls : List Bytes)
      → 0 < m
      → m ≤ length ls
      → All IsDigest ls
      → All IsDigest (subproof sha256 m ls false)
  subproof-IsDigest m ls = subproof-IsDigest_fuel (length ls) m ls (omega arith)
