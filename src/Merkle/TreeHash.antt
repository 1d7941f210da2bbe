-- ===== src/Merkle/TreeHash.antt =====
-- `tree_hash` of src/openwright/merkle.py: its recursion has enough fuel, so it meets the equation
-- that the source states, at any split point between two powers of two.
use openwright.Common.{
  ℕ, zero, suc, ◌+◌, ◌^◌, ◌≤◌, ◌<◌, ◌≡◌, refl, ap₂, ◌∙◌, List, [], ◌∷◌, ◌++◌, arith, length, take,
  drop, length-append, length-take, length-drop, take-append, drop-append, Bytes,
}
use openwright.Merkle.{node_hash, tree_fuel, tree_hash, empty_root}
use openwright.Merkle.Pow2.{largest_pow2_lt, largest_pow2_lt_lem, split_point, pow2_pos}

-- Both halves of a list of n ≥ 2 elements, cut where `tree_hash` cuts it, are shorter.
pub take_shorter :
    (ls : List Bytes) → 2 ≤ length ls → length (take (largest_pow2_lt (length ls)) ls) < length ls
take_shorter ls h =
    let (e, lo, hi) = split_point (length ls) h in
    omega
      (arith, largest_pow2_lt_lem e (length ls) lo hi, length-take (largest_pow2_lt (length ls)) ls)

pub drop_shorter :
    (ls : List Bytes) → 2 ≤ length ls → length (drop (largest_pow2_lt (length ls)) ls) < length ls
drop_shorter ls h =
    let (e, lo, hi) = split_point (length ls) h in
    omega (
      arith,
      pow2_pos e,
      largest_pow2_lt_lem e (length ls) lo hi,
      length-drop (largest_pow2_lt (length ls)) ls,
    )

module _ (sha256 : Bytes → Bytes) where
  tree_fuel_enough :
      (f g : ℕ) (ls : List Bytes)
      → length ls ≤ f
      → length ls ≤ g
      → tree_fuel sha256 f ls ≡ tree_fuel sha256 g ls
  unfolding tree_fuel
  tree_fuel_enough zero zero [] p q = refl
  tree_fuel_enough zero (suc g) [] p q = refl
  tree_fuel_enough (suc f) zero [] p q = refl
  tree_fuel_enough (suc f) (suc g) [] p q = refl
  tree_fuel_enough zero g (x ∷ ls) p q = absurd (omega arith)
  tree_fuel_enough (suc f) zero (x ∷ ls) p q = absurd (omega arith)
  tree_fuel_enough (suc f) (suc g) (x ∷ []) p q = refl
  tree_fuel_enough (suc f) (suc g) (x ∷ y ∷ rest) p q =
      let ls : List Bytes = x ∷ y ∷ rest in
      let k : ℕ = largest_pow2_lt (length ls) in
      let s = take_shorter ls (omega arith) in
      let t = drop_shorter ls (omega arith) in
      ap₂ (node_hash sha256) (tree_fuel_enough f g (take k ls) (omega arith) (omega arith))
        (tree_fuel_enough f g (drop k ls) (omega arith) (omega arith))

  -- Any fuel of at least the number of leaves gives the same root.
  pub tree_fuel-tree_hash :
      (f : ℕ) (ls : List Bytes) → length ls ≤ f → tree_fuel sha256 f ls ≡ tree_hash sha256 ls
  unfolding tree_hash
  tree_fuel-tree_hash f ls p = tree_fuel_enough f (length ls) ls p (omega arith)

  tree_hash-step :
      (ls : List Bytes) (k : ℕ)
      → 2 ≤ length ls
      → largest_pow2_lt (length ls) ≡ k
      → tree_hash sha256 ls
        ≡ node_hash sha256 (tree_hash sha256 (take k ls)) (tree_hash sha256 (drop k ls))
  unfolding tree_hash tree_fuel
  tree_hash-step [] k h e = absurd (omega arith)
  tree_hash-step (x ∷ []) k h e = absurd (omega arith)
  tree_hash-step (x ∷ y ∷ rest) k h e =
      let ls : List Bytes = x ∷ y ∷ rest in
      let s = take_shorter ls h in
      let t = drop_shorter ls h in
      rw (← e) (
        ap₂ (node_hash sha256)
          (tree_fuel-tree_hash (length (y ∷ rest)) (take (largest_pow2_lt (length ls)) ls)
            (omega arith))
          (tree_fuel-tree_hash (length (y ∷ rest)) (drop (largest_pow2_lt (length ls)) ls)
            (omega arith)))

  -- The equation of the source, at the split point 2^e with 2^e < n ≤ 2^(e+1).
  pub tree_hash-split :
      (e : ℕ) (ls : List Bytes)
      → 2 ^ e < length ls
      → length ls ≤ 2 ^ e + 2 ^ e
      → tree_hash sha256 ls
        ≡ node_hash sha256 (tree_hash sha256 (take (2 ^ e) ls)) (tree_hash sha256 (drop (2 ^ e) ls))
  tree_hash-split e ls lo hi =
      tree_hash-step ls (2 ^ e) (omega (arith, pow2_pos e))
        (largest_pow2_lt_lem e (length ls) lo hi)

  -- A full left subtree beside what does not exceed it.
  pub tree_hash-append :
      (e : ℕ) (xs ys : List Bytes)
      → length xs ≡ 2 ^ e
      → 0 < length ys
      → length ys ≤ 2 ^ e
      → tree_hash sha256 (xs ++ ys) ≡ node_hash sha256 (tree_hash sha256 xs) (tree_hash sha256 ys)
  tree_hash-append e xs ys full some_right fits =
      tree_hash-split e (xs ++ ys) (omega (arith, length-append xs ys))
        (omega (arith, length-append xs ys))
      ∙ ap₂ (λ l r. node_hash sha256 (tree_hash sha256 l) (tree_hash sha256 r))
          (take-append (2 ^ e) xs ys full) (drop-append (2 ^ e) xs ys full)

  pub tree_hash-one : (x : Bytes) → tree_hash sha256 (x ∷ []) ≡ x
  unfolding tree_hash
  tree_hash-one x = refl

  pub tree_hash-nil : tree_hash sha256 [] ≡ empty_root sha256
  unfolding tree_hash
  tree_hash-nil = refl
