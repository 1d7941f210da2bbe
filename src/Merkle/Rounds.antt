-- ===== src/Merkle/Rounds.antt =====
-- The rounds of the verifiers' loops in src/openwright/merkle.py: how `fn` and `sn` move.
use openwright.Common.{
  ℕ, zero, suc, ◌+◌, ◌*◌, ◌/◌, ◌^◌, ◌<◌, ◌≡◌, ap, true, false, List, ◌∷◌, arith, gt→==, Bytes,
}
use openwright.Merkle.{strip_zeros, advance, join, climb, node_hash, sibling_on_left}
use openwright.Merkle.Pow2.{pow2-suc, pow2_pos, lt-pow2}

-- An even `fn` other than `sn`: the sibling is on the right.
pub sibling_on_left-even : (a sn : ℕ) → 2 * a < sn → sibling_on_left (2 * a) sn ≡ false
sibling_on_left-even a sn h = ground arith

pub sibling_on_left-odd : (a sn : ℕ) → sibling_on_left (2 * a + 1) sn ≡ true
sibling_on_left-odd a sn = ground arith

pub sibling_on_left-same : (a : ℕ) → sibling_on_left a a ≡ true
sibling_on_left-same a = ground arith

pub advance-even : (a b sn : ℕ) → 2 * a < sn → sn / 2 ≡ b → advance (2 * a) sn ≡ (a, b)
unfolding advance
advance-even a b sn h e = ground arith

pub advance-odd : (a b sn : ℕ) → sn / 2 ≡ b → advance (2 * a + 1) sn ≡ (a, b)
unfolding advance
advance-odd a b sn e = ground arith

-- Stripping zeros from an odd number times 2^j leaves the odd number.
strip_zeros-odd :
    (j f a : ℕ)
    → j < f
    → strip_zeros f ((2 * a + 1) * 2 ^ j) ((2 * a + 1) * 2 ^ j) ≡ (2 * a + 1, 2 * a + 1)
unfolding strip_zeros
strip_zeros-odd j zero a h = absurd (omega arith)
strip_zeros-odd zero (suc f) a h = ground arith
strip_zeros-odd (suc j) (suc f) a h =
    let e : (2 * a + 1) * 2 ^ suc j ≡ (2 * a + 1) * 2 ^ j + (2 * a + 1) * 2 ^ j =
      omega (arith, ap (λ (t : ℕ). (2 * a + 1) * t) (pow2-suc j)) in
    let d : (2 * a + 1) * 2 ^ suc j / 2 ≡ (2 * a + 1) * 2 ^ j = omega arith in
    let p : 0 < (2 * a + 1) * 2 ^ j = grind (arith, pow2_pos j) in
    rw d (ground (arith, strip_zeros-odd j f a (omega arith)))

-- On the right edge the zeros are skipped, and then one bit goes.
pub advance-edge : (j a : ℕ) → advance ((2 * a + 1) * 2 ^ j) ((2 * a + 1) * 2 ^ j) ≡ (a, a)
unfolding advance
advance-edge zero a = ground arith
advance-edge (suc j) a =
    let e : (2 * a + 1) * 2 ^ suc j ≡ (2 * a + 1) * 2 ^ j + (2 * a + 1) * 2 ^ j =
      omega (arith, ap (λ (t : ℕ). (2 * a + 1) * t) (pow2-suc j)) in
    let p : suc j < (2 * a + 1) * 2 ^ suc j = grind (arith, lt-pow2 (suc j)) in
    ground (arith, strip_zeros-odd (suc j) ((2 * a + 1) * 2 ^ suc j) a)

module _ (sha256 : Bytes → Bytes) (p r : Bytes) (proof : List Bytes) (root : Bytes) where
  -- A round with the sibling on the right.
  pub climb-even :
      (a b sn : ℕ)
      → 2 * a < sn
      → sn / 2 ≡ b
      → climb sha256 (2 * a) sn r (p ∷ proof) root
        ≡ climb sha256 a b (node_hash sha256 r p) proof root
  unfolding climb join
  climb-even a b sn h e =
      rw (advance-even a b sn h e, sibling_on_left-even a sn h, gt→== sn 0 (omega arith))

  -- A round at an odd index.
  pub climb-odd :
      (a b sn : ℕ)
      → 0 < sn
      → sn / 2 ≡ b
      → climb sha256 (2 * a + 1) sn r (p ∷ proof) root
        ≡ climb sha256 a b (node_hash sha256 p r) proof root
  unfolding climb join
  climb-odd a b sn h e = rw (advance-odd a b sn e, sibling_on_left-odd a sn, gt→== sn 0 h)

  -- A round on the right edge.
  pub climb-edge :
      (j a : ℕ)
      → climb sha256 ((2 * a + 1) * 2 ^ j) ((2 * a + 1) * 2 ^ j) r (p ∷ proof) root
        ≡ climb sha256 a a (node_hash sha256 p r) proof root
  unfolding climb join
  climb-edge j a =
      let positive : 0 < (2 * a + 1) * 2 ^ j = grind (arith, pow2_pos j) in
      rw (
        advance-edge j a,
        sibling_on_left-same ((2 * a + 1) * 2 ^ j),
        gt→== ((2 * a + 1) * 2 ^ j) 0 positive,
      )
