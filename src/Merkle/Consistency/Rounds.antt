-- ===== src/Merkle/Consistency/Rounds.antt =====
-- The rounds of `verify_consistency` in src/openwright/merkle.py.
use openwright.Common.{
  ℕ, zero, suc, ◌+◌, ◌-◌, ◌*◌, ◌/◌, ◌%◌, ◌^◌, ◌≤◌, ◌<◌, ◌≡◌, ap, List, ◌∷◌, arith, eq→==, gt→==,
  Bytes,
}
use openwright.Merkle.{node_hash, join}
use openwright.Merkle.Pow2.{pow2-suc, pow2_pos, lt-pow2}
use openwright.Merkle.Rounds.{
  sibling_on_left-even, sibling_on_left-odd, sibling_on_left-same, advance-even, advance-odd,
  advance-edge,
}
use openwright.Merkle.Consistency.{strip_ones, join_first, climb_both, check_path}

-- Stripping e ones from below an even number leaves the even number.
strip_ones_lem :
    (e f a b c : ℕ)
    → e ≤ f
    → c < 2 ^ e
    → strip_ones f (2 * a * 2 ^ e + (2 ^ e - 1)) (b * 2 ^ e + c) ≡ (2 * a, b)
unfolding strip_ones
strip_ones_lem zero zero a b c h k = ground arith
strip_ones_lem zero (suc f) a b c h k = ground arith
strip_ones_lem (suc e) zero a b c h k = absurd (omega arith)
strip_ones_lem (suc e) (suc f) a b c h k =
    let A : ℕ = 2 * a * 2 ^ e in
    let B : ℕ = b * 2 ^ e in
    let fe : 2 * a * 2 ^ suc e ≡ A + A = omega (arith, ap (λ (t : ℕ). 2 * a * t) (pow2-suc e)) in
    let se : b * 2 ^ suc e ≡ B + B = omega (arith, ap (λ (t : ℕ). b * t) (pow2-suc e)) in
    let odd : (2 * a * 2 ^ suc e + (2 ^ suc e - 1)) % 2 ≡ 1 =
      omega (arith, pow2-suc e, pow2_pos e) in
    let fn : (2 * a * 2 ^ suc e + (2 ^ suc e - 1)) / 2 ≡ A + (2 ^ e - 1) =
      omega (arith, pow2-suc e, pow2_pos e) in
    let sn : (b * 2 ^ suc e + c) / 2 ≡ B + c / 2 = omega arith in
    rw (eq→== _ 1 odd, fn, sn)
      (strip_ones_lem e f a b (c / 2) (omega arith) (omega (arith, pow2-suc e)))

module _ (sha256 : Bytes → Bytes) (fr sr c : Bytes) (path : List Bytes) (first second : Bytes) where
  pub climb_both-even :
      (a b sn : ℕ)
      → 2 * a < sn
      → sn / 2 ≡ b
      → climb_both sha256 (2 * a) sn fr sr (c ∷ path) first second
        ≡ climb_both sha256 a b fr (node_hash sha256 sr c) path first second
  unfolding climb_both join join_first
  climb_both-even a b sn h e =
      rw (advance-even a b sn h e, sibling_on_left-even a sn h, gt→== sn 0 (omega arith))

  pub climb_both-odd :
      (a b sn : ℕ)
      → 0 < sn
      → sn / 2 ≡ b
      → climb_both sha256 (2 * a + 1) sn fr sr (c ∷ path) first second
        ≡ climb_both sha256 a b (node_hash sha256 c fr) (node_hash sha256 c sr) path first second
  unfolding climb_both join join_first
  climb_both-odd a b sn h e = rw (advance-odd a b sn e, sibling_on_left-odd a sn, gt→== sn 0 h)

  pub climb_both-edge :
      (j a : ℕ)
      → climb_both sha256 ((2 * a + 1) * 2 ^ j) ((2 * a + 1) * 2 ^ j) fr sr (c ∷ path) first second
        ≡ climb_both sha256 a a (node_hash sha256 c fr) (node_hash sha256 c sr) path first second
  unfolding climb_both join join_first
  climb_both-edge j a =
      let positive : 0 < (2 * a + 1) * 2 ^ j = grind (arith, pow2_pos j) in
      rw (
        advance-edge j a,
        sibling_on_left-same ((2 * a + 1) * 2 ^ j),
        gt→== ((2 * a + 1) * 2 ^ j) 0 positive,
      )

-- The start of the loop at a full subtree that is a left child.
pub check_path-start :
    (sha256 : Bytes → Bytes) (e a b c : ℕ) (x : Bytes) (path : List Bytes) (first second : Bytes)
    → c < 2 ^ e
    → check_path sha256 (2 * a * 2 ^ e + (2 ^ e - 1)) (b * 2 ^ e + c) (x ∷ path) first second
      ≡ climb_both sha256 (2 * a) b x x path first second
unfolding check_path
check_path-start sha256 e a b c x path first second h =
    let fuel : e ≤ 2 * a * 2 ^ e + (2 ^ e - 1) = omega (arith, lt-pow2 e) in
    rw (strip_ones_lem e (2 * a * 2 ^ e + (2 ^ e - 1)) a b c fuel h)
