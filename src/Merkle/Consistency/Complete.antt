-- ===== src/Merkle/Consistency/Complete.antt =====
-- `verify_consistency` of src/openwright/merkle.py accepts what `consistency_proof` makes.
use openwright.Merkle.Consistency.Rounds.{climb_both-even, climb_both-edge}
use openwright.Merkle.Consistency.Powers.{is_power_of_two-pow2, is_power_of_two-between}
use openwright.Merkle.TreeHash.{tree_hash-split}
use native.Mathlib.Decide.{ℕ_discrete, dec_le}
use openwright.Merkle.Pow2.{split_point, pow2_lt, pow2_pos, lt-pow2}
use openwright.Merkle.Consistency.Subproof.{subproof-right, subproof-left, subproof-all}
use openwright.Merkle.Consistency.Paths.{Joins_lem, tree_hash-take_left, tree_hash-take_right}
use openwright.Common.{
  ℕ, zero, suc, ◌+◌, ◌-◌, ◌*◌, ◌^◌, ◌≤◌, ◌<◌, ◌≡◌, refl, sym, ap, ap₂, ◌∙◌, subst, inl, inr, true,
  false, some, List, [], ◌∷◌, ◌++◌, append-nil, append_assoc, arith, if◌then◌else◌, le→ltb, eq→==,
  lt→==, gt→==, Bool-cases, length, take, drop, length-take, length-drop, take-all, all, Bytes,
  bytes_eq_refl,
}
use openwright.Merkle.{tree_hash, subproof, consistency_proof}
use openwright.Merkle.Consistency.{check_path, climb_both, is_power_of_two, verify_consistency}

module _ (sha256 : Bytes → Bytes) where
  -- At a subtree on the right edge of the second tree, of which the first tree has m leaves.
  abbrev Meets : (d m : ℕ) → List Bytes → Type 0
  Meets d m ls =
      (a : ℕ) (rest : List Bytes) (first second : Bytes)
      → (j : ℕ) × (check_path sha256 (a * 2 ^ d + (m - 1)) (a * 2 ^ d + (length ls - 1))
            (subproof sha256 m ls false ++ rest) first second
          ≡ climb_both sha256 (a * 2 ^ j) (a * 2 ^ j) (tree_hash sha256 (take m ls))
              (tree_hash sha256 ls) rest first second)

  module _ (e d g m : ℕ) (ls : List Bytes) (lo : 2 ^ e < length ls) (hi : length ls ≤ 2 ^ e + 2 ^ e)
      (positive : 0 < m) (part : m < length ls) (apart : 2 ^ d ≡ 2 * (2 ^ g * 2 ^ e)) where
    offset : (a : ℕ) → a * 2 ^ d ≡ 2 * (a * 2 ^ g) * 2 ^ e
    offset a = omega (arith, ap (λ (t : ℕ). a * t) apart)

    Meets-left : m ≤ 2 ^ e → Meets d m ls
    Meets-left low a rest first second =
        let A : ℕ = a * 2 ^ g in
        let s : Bytes = tree_hash sha256 (drop (2 ^ e) ls) in
        let last : a * 2 ^ d + (length ls - 1) ≡ (2 * A + 1) * 2 ^ e + (length ls - 1 - 2 ^ e) =
          omega (arith, offset a) in
        let joins =
          Joins_lem sha256 e (2 * A) m (take (2 ^ e) ls) (omega (arith, length-take (2 ^ e) ls))
            positive low (λ _. (A, refl)) in
        (
          g,
          rw
              (
                last,
                offset a,
                subproof-left sha256 e m ls false lo hi positive part low,
                append_assoc (subproof sha256 m (take (2 ^ e) ls) false) (s ∷ []) rest,
                tree_hash-split sha256 e ls lo hi,
                ← tree_hash-take_left sha256 m (2 ^ e) ls low,
              )
              (joins (2 * A + 1) (length ls - 1 - 2 ^ e) (s ∷ rest) first second (omega arith)
                  (omega arith)
                ∙ climb_both-even sha256 _ _ s rest first second A A (2 * A + 1) (omega arith)
                    (omega arith)),
        )

    Meets-right : 2 ^ e < m → Meets e (m - 2 ^ e) (drop (2 ^ e) ls) → Meets d m ls
    Meets-right high ih a rest first second =
        let A : ℕ = a * 2 ^ g in
        let s : Bytes = tree_hash sha256 (take (2 ^ e) ls) in
        let (j, met) = ih (2 * A + 1) (s ∷ rest) first second in
        let here : a * 2 ^ d + (m - 1) ≡ (2 * A + 1) * 2 ^ e + (m - 2 ^ e - 1) =
          omega (arith, offset a) in
        let last : a * 2 ^ d + (length ls - 1)
            ≡ (2 * A + 1) * 2 ^ e + (length (drop (2 ^ e) ls) - 1) =
          omega (arith, offset a, length-drop (2 ^ e) ls) in
        (
          g,
          rw
              (
                here,
                last,
                subproof-right sha256 e m ls false lo hi positive part high,
                append_assoc (subproof sha256 (m - 2 ^ e) (drop (2 ^ e) ls) false) (s ∷ []) rest,
                tree_hash-split sha256 e ls lo hi,
                tree_hash-take_right sha256 e m ls high (omega arith) (omega arith),
              )
              (met ∙ climb_both-edge sha256 _ _ s rest first second j A),
        )

  Meets_lem :
      (f d m : ℕ) (ls : List Bytes)
      → length ls ≤ f
      → length ls ≤ 2 ^ d
      → 0 < m
      → m < length ls
      → Meets d m ls
  Meets_lem zero d m ls p q h part = absurd (omega arith)
  Meets_lem (suc f) d m ls p q h part =
      let (e, lo, hi) = split_point (length ls) (omega arith) in
      let (g, apart) = pow2_lt e d (omega arith) in
      elim (dec_le m (2 ^ e)) [
        | yes low ↦ Meets-left e d g m ls lo hi h part apart low
        | no high ↦ Meets-right e d g m ls lo hi h part apart (omega arith) (
            Meets_lem f e (m - 2 ^ e) (drop (2 ^ e) ls)
              (omega (arith, length-drop (2 ^ e) ls, pow2_pos e))
              (omega (arith, length-drop (2 ^ e) ls)) (omega arith)
              (omega (arith, length-drop (2 ^ e) ls)))
      ]

  -- The proof leaves out the first tree's head exactly when that is a full subtree.
  abbrev pub Omits : ℕ → List Bytes → Type 0
  Omits m ls =
      (if is_power_of_two m
        then tree_hash sha256 (take m ls) ∷ subproof sha256 m ls true
        else subproof sha256 m ls true)
      ≡ subproof sha256 m ls false

  pub Omits_lem :
      (f m : ℕ) (ls : List Bytes)
      → length ls ≤ f
      → 0 < m
      → m ≤ length ls
      → (m ≡ length ls → (e : ℕ) × (m ≡ 2 ^ e))
      → Omits m ls
  Omits_lem zero m ls p h part full = absurd (omega arith)
  Omits_lem (suc f) m ls p h part full = elim (ℕ_discrete m (length ls)) [
    | yes all ↦
        let (e, power) = full all in
        let is_power : is_power_of_two m ≡ true =
          subst (λ (t : ℕ). is_power_of_two t ≡ true) (sym power) (is_power_of_two-pow2 e) in
        rw (
          is_power,
          subproof-all sha256 m ls true h all,
          subproof-all sha256 m ls false h all,
          take-all m ls (omega arith),
        )
    | no some_right ↦
        let (e, lo, hi) = split_point (length ls) (omega arith) in
        elim (dec_le m (2 ^ e)) [
          | yes low ↦
              let s : Bytes = tree_hash sha256 (drop (2 ^ e) ls) in
              let ih =
                Omits_lem f m (take (2 ^ e) ls) (omega (arith, length-take (2 ^ e) ls)) h
                  (omega (arith, length-take (2 ^ e) ls))
                  (λ same. (e, omega (arith, length-take (2 ^ e) ls))) in
              rw
                (
                  subproof-left sha256 e m ls true lo hi h (omega arith) low,
                  subproof-left sha256 e m ls false lo hi h (omega arith) low,
                  ← ih,
                  tree_hash-take_left sha256 m (2 ^ e) ls low,
                )
                (elim (Bool-cases (is_power_of_two m)) [ inl y ↦ rw y | inr n ↦ rw n ])
          | no high ↦ rw (
            is_power_of_two-between e m (omega arith) (omega arith),
            subproof-right sha256 e m ls true lo hi h (omega arith) (omega arith),
            subproof-right sha256 e m ls false lo hi h (omega arith) (omega arith),
          )
        ]
  ]

  part_accepted :
      (m : ℕ) (ls : List Bytes)
      → 0 < m
      → m < length ls
      → check_path sha256
          (m - 1)
          (length ls - 1)
          (if is_power_of_two m
            then tree_hash sha256 (take m ls) ∷ subproof sha256 m ls true
            else subproof sha256 m ls true)
          (tree_hash sha256 (take m ls))
          (tree_hash sha256 ls)
        ≡ true
  part_accepted m ls h part =
      let first : Bytes = tree_hash sha256 (take m ls) in
      let second : Bytes = tree_hash sha256 ls in
      let (j, met) =
        Meets_lem (length ls) (length ls) m ls (omega arith) (omega (arith, lt-pow2 (length ls))) h
          part 0 [] first second in
      let start : check_path sha256 (m - 1) (length ls - 1) (subproof sha256 m ls false) first
            second
          ≡ check_path sha256 (0 * 2 ^ length ls + (m - 1)) (0 * 2 ^ length ls + (length ls - 1))
              (subproof sha256 m ls false ++ []) first second =
        rw append-nil (
          ap₂ (λ (s t : ℕ). check_path sha256 s t (subproof sha256 m ls false) first second)
            (omega arith) (omega arith)) in
      rw
        (
          Omits_lem (length ls) m ls (omega arith) h (omega arith) (λ all. absurd (omega arith)),
          start,
          met,
        )
        (unfold climb_both in
          rw (eq→== (0 * 2 ^ j) 0 (omega arith), bytes_eq_refl first, bytes_eq_refl second))

  -- For every 0 < m ≤ n the consistency proof exists, and the verifier accepts it against the
  -- heads of the first m and of all n leaves.
  pub verify_consistency-consistency_proof :
      (m : ℕ) (ls : List Bytes)
      → 0 < m
      → m ≤ length ls
      → (proof : List Bytes) × (consistency_proof sha256 ls m ≡ some proof)
        × (verify_consistency sha256 m
              (length ls)
              (tree_hash sha256 (take m ls))
              (tree_hash sha256 ls)
              proof
            ≡ true)
  verify_consistency-consistency_proof m ls h inside = elim (ℕ_discrete m (length ls)) [
    | yes all ↦ (
      [],
      unfold consistency_proof in
          rw (gt→== m 0 h, le→ltb (length ls) m inside, eq→== m (length ls) all),
      unfold verify_consistency in
          rw (
            le→ltb (length ls) m inside,
            eq→== m (length ls) all,
            take-all m ls (omega arith),
            bytes_eq_refl,
          ),
    )
    | no part ↦ (
      subproof sha256 m ls true,
      unfold consistency_proof in
          rw (gt→== m 0 h, le→ltb (length ls) m inside, lt→== m (length ls) (omega arith)),
      unfold verify_consistency in
          rw (le→ltb (length ls) m inside, lt→== m (length ls) (omega arith), gt→== m 0 h)
            (part_accepted m ls h (omega arith)),
    )
  ]
