-- ===== src/Merkle/Pow2.antt =====
-- `_largest_pow2_lt` of src/openwright/merkle.py.
use native.Mathlib.Nat.{pow-suc, pow-le-pow_right, zero-add, suc-add}
use openwright.Common.{
  ℕ, zero, suc, ◌+◌, ◌-◌, ◌*◌, ◌^◌, ◌≤◌, ◌<◌, ◌≡◌, ap, ◌∙◌, arith, ltb, if◌then◌else◌, lt→ltb,
  le→ltb,
}
use native.Mathlib.Decide.{dec_le}

-- `while k * 2 < n: k *= 2`
unfoldable pub double_below : ℕ → ℕ → ℕ → ℕ
double_below zero n k = k
double_below (suc f) n k = let rest = double_below f n (k * 2) in if ltb (k * 2) n then rest else k

unfoldable pub largest_pow2_lt : ℕ → ℕ
unfolding double_below
largest_pow2_lt n = double_below n n 1

pub pow2-suc : (e : ℕ) → 2 ^ suc e ≡ 2 ^ e + 2 ^ e
pow2-suc e = omega (arith, pow-suc 2 e)

pub pow2_pos : (e : ℕ) → 0 < 2 ^ e
pow2_pos zero = omega arith
pow2_pos (suc e) = omega (arith, pow2-suc e, pow2_pos e)

pub lt-pow2 : (e : ℕ) → e < 2 ^ e
lt-pow2 zero = omega arith
lt-pow2 (suc e) = omega (arith, pow2-suc e, lt-pow2 e)

double_below_lem :
    (d f n k : ℕ)
    → d < f
    → 0 < k
    → k * 2 ^ d < n
    → n ≤ k * 2 ^ d + k * 2 ^ d
    → double_below f n k ≡ k * 2 ^ d
unfolding double_below
double_below_lem d zero n k h p lo hi = absurd (omega arith)
double_below_lem zero (suc f) n k h p lo hi = rw (le→ltb (k * 2) n (omega arith)) (omega arith)
double_below_lem (suc d) (suc f) n k h p lo hi =
    let e : k * 2 ^ suc d ≡ k * 2 * 2 ^ d = omega (arith, ap (λ (t : ℕ). k * t) (pow2-suc d)) in
    rw (lt→ltb (k * 2) n (grind (arith, pow2_pos d))) (
      double_below_lem d f n (k * 2) (omega arith) (omega arith) (omega arith) (omega arith)
      ∙ omega arith)

-- Where 2^e < n ≤ 2^(e+1), the loop ends at 2^e.
pub largest_pow2_lt_lem : (e n : ℕ) → 2 ^ e < n → n ≤ 2 ^ e + 2 ^ e → largest_pow2_lt n ≡ 2 ^ e
unfolding largest_pow2_lt
largest_pow2_lt_lem e n lo hi =
    double_below_lem e n n 1 (omega (arith, lt-pow2 e)) (omega arith) (omega arith) (omega arith)
    ∙ omega arith

-- Every n ≥ 2 lies between two neighbouring powers of two.
pub split_point : (n : ℕ) → 2 ≤ n → (e : ℕ) × (2 ^ e < n) × (n ≤ 2 ^ e + 2 ^ e)
split_point zero h = absurd (omega arith)
split_point (suc zero) h = absurd (omega arith)
split_point (suc (suc zero)) h = (0, omega arith, omega arith)
split_point (suc (suc (suc n))) h =
    let (e, lo, hi) = split_point (suc (suc n)) (omega arith) in
    elim (dec_le (suc (suc (suc n))) (2 ^ e + 2 ^ e)) [
      | yes fits ↦ (e, omega arith, fits)
      | no past ↦ (suc e, omega (arith, pow2-suc e), omega (arith, pow2-suc e, pow2_pos e))
    ]

pub pow2-add : (d e : ℕ) → 2 ^ (d + e) ≡ 2 ^ d * 2 ^ e
pow2-add zero e = rw zero-add (omega arith)
pow2-add (suc d) e = rw (suc-add d e) (
    omega
      (arith, pow2-suc (d + e), pow2-suc d, pow2-add d e, ap (λ (t : ℕ). t * 2 ^ e) (pow2-suc d)))

-- The exponent below another, with the distance between them.
pub pow2_lt : (e d : ℕ) → 2 ^ e < 2 ^ d → (g : ℕ) × (2 ^ d ≡ 2 * (2 ^ g * 2 ^ e))
pow2_lt e d h = elim (dec_le d e) [
  | yes le ↦
      let mono : 2 ^ d ≤ 2 ^ e = pow-le-pow_right {n = 2} (omega arith) le in absurd (omega arith)
  | no gt ↦
      let split : d ≡ suc (d - e - 1 + e) = omega arith in
      (
        d - e - 1,
        ap (λ (t : ℕ). 2 ^ t) split
            ∙ omega (arith, pow2-suc (d - e - 1 + e), pow2-add (d - e - 1) e),
      )
]
