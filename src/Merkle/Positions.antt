-- ===== src/Merkle/Positions.antt =====
-- Positions in a tree of 2^e leaves, as the verifiers of src/openwright/merkle.py number them.
use native.Mathlib.Decide.{dec_lt}
use openwright.Common.{ℕ, suc, ◌+◌, ◌-◌, ◌*◌, ◌/◌, ◌^◌, ◌≤◌, ◌<◌, ◌≡◌, ap, arith}
use openwright.Merkle.Pow2.{pow2-suc, pow2_pos}

-- One level down, an index doubles.
pub left_position : (e a m : ℕ) → a * 2 ^ suc e + m ≡ 2 * a * 2 ^ e + m
left_position e a m = omega (arith, ap (λ (t : ℕ). a * t) (pow2-suc e))

pub right_position : (e a m : ℕ) → 2 ^ e ≤ m → a * 2 ^ suc e + m ≡ (2 * a + 1) * 2 ^ e + (m - 2 ^ e)
right_position e a m h = omega (arith, ap (λ (t : ℕ). a * t) (pow2-suc e))

-- Any number below the node b is below one of its two children.
pub child :
    (e b c : ℕ)
    → c < 2 ^ suc e
    → (b' : ℕ) × (c' : ℕ) × (b * 2 ^ suc e + c ≡ b' * 2 ^ e + c') × (c' < 2 ^ e) × (b' / 2 ≡ b)
child e b c h = elim (dec_lt c (2 ^ e)) [
  | yes lo ↦ (2 * b, c, left_position e b c, lo, omega arith)
  | no hi ↦ (
    2 * b + 1,
    c - 2 ^ e,
    right_position e b c (omega arith),
    omega (arith, pow2-suc e, pow2_pos e),
    omega arith,
  )
]
