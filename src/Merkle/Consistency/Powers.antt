-- ===== src/Merkle/Consistency/Powers.antt =====
-- The test `first_size & (first_size - 1) == 0` of src/openwright/merkle.py is for powers of two.
use Prim.Native.Nat.{min, digits, bit_and, bit_and-bitwise}
use openwright.Common.{
  ℕ, zero, suc, ◌+◌, ◌-◌, ◌*◌, ◌/◌, ◌%◌, ◌^◌, ◌≤◌, ◌<◌, ◌≡◌, refl, true, false, arith, eq→==, gt→==,
}
use openwright.Merkle.Pow2.{pow2-suc, pow2_pos}
use openwright.Merkle.Consistency.{is_power_of_two}

abbrev common_bits : ℕ → ℕ → ℕ → ℕ
common_bits fuel a b = digits (λ b. zero) min fuel a b

-- Any two fuels that cover the first number find the same bits.
common_bits_stable : (f g a b : ℕ) → a ≤ f → a ≤ g → common_bits f a b ≡ common_bits g a b
common_bits_stable zero zero zero b p q = refl
common_bits_stable zero (suc g) zero b p q = refl
common_bits_stable (suc f) zero zero b p q = refl
common_bits_stable (suc f) (suc g) zero b p q = refl
common_bits_stable zero g (suc a) b p q = absurd (omega arith)
common_bits_stable (suc f) zero (suc a) b p q = absurd (omega arith)
common_bits_stable (suc f) (suc g) (suc a) b p q =
    omega (arith, common_bits_stable f g (suc a / 2) (b / 2) (omega arith) (omega arith))

bit_and-halves : (a b : ℕ) → 0 < a → bit_and a b ≡ 2 * bit_and (a / 2) (b / 2) + min (a % 2) (b % 2)
bit_and-halves zero b h = absurd (omega arith)
bit_and-halves (suc a) b h =
    let whole = bit_and-bitwise (suc a) b in
    let half = bit_and-bitwise (suc a / 2) (b / 2) in
    omega (
      arith,
      whole,
      half,
      common_bits_stable a (suc a / 2) (suc a / 2) (b / 2) (omega arith) (omega arith),
    )

bit_and_power : (e : ℕ) → bit_and (2 ^ e) (2 ^ e - 1) ≡ 0
bit_and_power zero = refl
bit_and_power (suc e) =
    let h : 2 ^ suc e / 2 ≡ 2 ^ e = omega (arith, pow2-suc e) in
    let k : (2 ^ suc e - 1) / 2 ≡ 2 ^ e - 1 = omega (arith, pow2-suc e, pow2_pos e) in
    rw (bit_and-halves (2 ^ suc e) (2 ^ suc e - 1) (pow2_pos (suc e)), h, k, bit_and_power e)
      (omega (arith, pow2-suc e))

-- Two numbers with the same highest bit share it.
bit_and_pos :
    (e a b : ℕ) → 2 ^ e ≤ a → a < 2 ^ e + 2 ^ e → 2 ^ e ≤ b → b < 2 ^ e + 2 ^ e → 0 < bit_and a b
bit_and_pos zero a b p q r s =
    let a_one : a ≡ 1 = omega arith in
    let b_one : b ≡ 1 = omega arith in rw (a_one, b_one) (omega arith)
bit_and_pos (suc e) a b p q r s = omega (
  arith,
  bit_and-halves a b (omega (arith, pow2_pos (suc e))),
  bit_and_pos e (a / 2) (b / 2) (omega (arith, pow2-suc e)) (omega (arith, pow2-suc e))
      (omega (arith, pow2-suc e)) (omega (arith, pow2-suc e)),
)

pub is_power_of_two-pow2 : (e : ℕ) → is_power_of_two (2 ^ e) ≡ true
is_power_of_two-pow2 e = eq→== (bit_and (2 ^ e) (2 ^ e - 1)) 0 (bit_and_power e)

pub is_power_of_two-between : (e m : ℕ) → 2 ^ e < m → m < 2 ^ e + 2 ^ e → is_power_of_two m ≡ false
is_power_of_two-between e m lo hi =
    gt→== (bit_and m (m - 1)) 0
      (bit_and_pos e m (m - 1) (omega arith) hi (omega arith) (omega arith))
