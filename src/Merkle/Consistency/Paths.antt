-- ===== src/Merkle/Consistency/Paths.antt =====
-- How the proof of `_subproof` carries the loop of `verify_consistency` (src/openwright/merkle.py)
-- up to the heads of both trees.
use native.Mathlib.Decide.{ℕ_discrete, dec_le}
use openwright.Common.{
  ℕ, zero, suc, ◌+◌, ◌-◌, ◌*◌, ◌^◌, ◌≤◌, ◌<◌, ◌≡◌, refl, sym, ap, ap₂, ◌∙◌, subst, false, List, [],
  ◌∷◌, ◌++◌, append_assoc, arith, length, take, drop, length-take, length-drop, take-all, take-take,
  drop-take, all, Bytes,
}
use openwright.Merkle.{tree_hash, subproof, node_hash}
use openwright.Merkle.Pow2.{pow2-suc, pow2_pos}
use openwright.Merkle.Positions.{left_position, right_position, child}
use openwright.Merkle.TreeHash.{tree_hash-split}
use openwright.Merkle.Consistency.{climb_both, check_path}
use openwright.Merkle.Consistency.Rounds.{climb_both-even, climb_both-odd, check_path-start}
use openwright.Merkle.Consistency.Subproof.{subproof-all, subproof-left, subproof-right}

module _ (sha256 : Bytes → Bytes) where
  -- The head of the first m leaves, where m lies in the left or in the right part.
  pub tree_hash-take_left :
      (m k : ℕ) (ls : List Bytes)
      → m ≤ k
      → tree_hash sha256 (take m (take k ls)) ≡ tree_hash sha256 (take m ls)
  tree_hash-take_left m k ls h = ap (tree_hash sha256) (take-take m k ls h)

  pub tree_hash-take_right :
      (e m : ℕ) (ls : List Bytes)
      → 2 ^ e < m
      → m ≤ 2 ^ e + 2 ^ e
      → m ≤ length ls
      → tree_hash sha256 (take m ls)
        ≡ node_hash sha256
            (tree_hash sha256 (take (2 ^ e) ls))
            (tree_hash sha256 (take (m - 2 ^ e) (drop (2 ^ e) ls)))
  tree_hash-take_right e m ls lo hi inside =
      tree_hash-split sha256 e (take m ls) (omega (arith, length-take m ls))
        (omega (arith, length-take m ls))
      ∙ ap₂ (λ l r. node_hash sha256 (tree_hash sha256 l) (tree_hash sha256 r))
          (take-take (2 ^ e) m ls (omega arith)) (drop-take (2 ^ e) m ls (omega arith))

  -- Inside a full subtree that is not on the right edge of the second tree.
  abbrev Joins : (e a m : ℕ) → List Bytes → Type 0
  Joins e a m ls =
      (b c : ℕ) (rest : List Bytes) (first second : Bytes)
      → a < b
      → c < 2 ^ e
      → check_path sha256 (a * 2 ^ e + (m - 1)) (b * 2 ^ e + c) (subproof sha256 m ls false ++ rest)
          first second
        ≡ climb_both sha256 a b (tree_hash sha256 (take m ls)) (tree_hash sha256 ls) rest first
            second

  Joins-all : (e a m : ℕ) (ls : List Bytes) → length ls ≡ 2 ^ e → m ≡ 2 ^ e → Joins e (2 * a) m ls
  Joins-all e a m ls n all b c rest first second h k =
      let last : 2 * a * 2 ^ e + (m - 1) ≡ 2 * a * 2 ^ e + (2 ^ e - 1) = omega arith in
      rw
        (
          last,
          subproof-all sha256 m ls false (omega (arith, pow2_pos e)) (omega arith),
          take-all m ls (omega arith),
        )
        (check_path-start sha256 e a b c (tree_hash sha256 ls) rest first second k)

  module _ (e a m : ℕ) (ls : List Bytes) (n : length ls ≡ 2 ^ suc e) (positive : 0 < m)
      (part : m < 2 ^ suc e) where
    Joins-left : m ≤ 2 ^ e → Joins e (2 * a) m (take (2 ^ e) ls) → Joins (suc e) a m ls
    Joins-left low ih b c rest first second h k =
        let (b', c', eb, hc, hb) = child e b c k in
        let s : Bytes = tree_hash sha256 (drop (2 ^ e) ls) in
        rw
          (
            left_position e a (m - 1),
            eb,
            subproof-left sha256 e m ls false (omega (arith, pow2-suc e, pow2_pos e))
                (omega (arith, pow2-suc e)) positive (omega arith) low,
            append_assoc (subproof sha256 m (take (2 ^ e) ls) false) (s ∷ []) rest,
            tree_hash-split sha256 e ls (omega (arith, pow2-suc e, pow2_pos e))
                (omega (arith, pow2-suc e)),
            ← tree_hash-take_left m (2 ^ e) ls low,
          )
          (ih b' c' (s ∷ rest) first second (omega arith) hc
            ∙ climb_both-even sha256 _ _ s rest first second a b b' (omega arith) hb)

    Joins-right :
        2 ^ e < m → Joins e (2 * a + 1) (m - 2 ^ e) (drop (2 ^ e) ls) → Joins (suc e) a m ls
    Joins-right high ih b c rest first second h k =
        let (b', c', eb, hc, hb) = child e b c k in
        let s : Bytes = tree_hash sha256 (take (2 ^ e) ls) in
        let here : a * 2 ^ suc e + (m - 1) ≡ (2 * a + 1) * 2 ^ e + (m - 2 ^ e - 1) =
          right_position e a (m - 1) (omega arith)
          ∙ ap (λ (t : ℕ). (2 * a + 1) * 2 ^ e + t) (omega arith) in
        rw
          (
            here,
            eb,
            subproof-right sha256 e m ls false (omega (arith, pow2-suc e, pow2_pos e))
                (omega (arith, pow2-suc e)) positive (omega arith) high,
            append_assoc (subproof sha256 (m - 2 ^ e) (drop (2 ^ e) ls) false) (s ∷ []) rest,
            tree_hash-take_right e m ls high (omega (arith, pow2-suc e)) (omega arith),
            tree_hash-split sha256 e ls (omega (arith, pow2-suc e, pow2_pos e))
                (omega (arith, pow2-suc e)),
          )
          (ih b' c' (s ∷ rest) first second (omega arith) hc
            ∙ climb_both-odd sha256 _ _ s rest first second a b b' (omega arith) hb)

  -- `_subproof` stops at a full subtree only where it went left.
  pub Joins_lem :
      (e a m : ℕ) (ls : List Bytes)
      → length ls ≡ 2 ^ e
      → 0 < m
      → m ≤ 2 ^ e
      → (m ≡ 2 ^ e → (h : ℕ) × (a ≡ 2 * h))
      → Joins e a m ls
  Joins_lem zero a m ls n p q went_left =
      let (h, even) = went_left (omega arith) in
      subst (λ (t : ℕ). Joins 0 t m ls) (sym even) (Joins-all 0 h m ls n (omega arith))
  Joins_lem (suc e) a m ls n p q went_left = elim (ℕ_discrete m (2 ^ suc e)) [
    | yes all ↦
        let (h, even) = went_left all in
        subst (λ (t : ℕ). Joins (suc e) t m ls) (sym even) (Joins-all (suc e) h m ls n all)
    | no some_left ↦ elim (dec_le m (2 ^ e)) [
      | yes low ↦ Joins-left e a m ls n p (omega arith) low (
          Joins_lem e (2 * a) m (take (2 ^ e) ls)
            (omega (arith, length-take (2 ^ e) ls, pow2-suc e)) p low (λ _. (a, refl)))
      | no high ↦ Joins-right e a m ls n p (omega arith) (omega arith) (
          Joins_lem e (2 * a + 1) (m - 2 ^ e) (drop (2 ^ e) ls)
            (omega (arith, length-drop (2 ^ e) ls, pow2-suc e)) (omega arith)
            (omega (arith, pow2-suc e)) (λ all. absurd (omega (arith, pow2-suc e))))
    ]
  ]
