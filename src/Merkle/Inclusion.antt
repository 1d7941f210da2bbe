-- ===== src/Merkle/Inclusion.antt =====
-- `verify_inclusion` of src/openwright/merkle.py accepts what `inclusion_proof` makes.
use native.Mathlib.Decide.{dec_lt}
use openwright.Common.{
  ℕ, zero, suc, ◌+◌, ◌-◌, ◌*◌, ◌^◌, ◌≤◌, ◌<◌, ◌≡◌, sym, ap, ap₂, ◌∙◌, true, some, List, [], ◌∷◌,
  ◌++◌, append-nil, append_assoc, arith, lt→leb, eq→==, length, get_elem?, take, drop, length-take,
  length-drop, get_elem?-take, get_elem?-drop, get_elem?-lt, Bytes, bytes_eq_refl,
}
use openwright.Merkle.{tree_hash, inclusion_proof, climb, verify_inclusion}
use openwright.Merkle.Pow2.{pow2-suc, pow2_pos, pow2_lt, lt-pow2, split_point}
use openwright.Merkle.Positions.{left_position, right_position, child}
use openwright.Merkle.Rounds.{climb-even, climb-odd, climb-edge}
use openwright.Merkle.TreeHash.{tree_hash-split, tree_hash-one}
use openwright.Merkle.InclusionProof.{
  inclusion_proof-left, inclusion_proof-right, inclusion_proof-one,
}

module _ (sha256 : Bytes → Bytes) where
  -- The audit path of a leaf of a full subtree carries the loop up to the subtree's root, below
  -- any node a that is not on the right edge.
  abbrev Lifts : (e m : ℕ) → List Bytes → Bytes → List Bytes → Type 0
  Lifts e m ls leaf path =
      (a b c : ℕ) (rest : List Bytes) (root : Bytes)
      → a < b
      → c < 2 ^ e
      → climb sha256 (a * 2 ^ e + m) (b * 2 ^ e + c) leaf (path ++ rest) root
        ≡ climb sha256 a b (tree_hash sha256 ls) rest root

  Lifts-left :
      (e m : ℕ) (ls : List Bytes) (leaf : Bytes) (path : List Bytes)
      → length ls ≡ 2 ^ suc e
      → Lifts e m (take (2 ^ e) ls) leaf path
      → Lifts (suc e) m ls leaf (path ++ tree_hash sha256 (drop (2 ^ e) ls) ∷ [])
  Lifts-left e m ls leaf path n ih a b c rest root h k =
      let (b', c', eb, hc, hb) = child e b c k in
      rw
        (
          left_position e a m,
          eb,
          append_assoc path (tree_hash sha256 (drop (2 ^ e) ls) ∷ []) rest,
          tree_hash-split sha256 e ls (omega (arith, pow2-suc e, pow2_pos e))
              (omega (arith, pow2-suc e)),
        )
        (ih (2 * a) b' c' (tree_hash sha256 (drop (2 ^ e) ls) ∷ rest) root (omega arith) hc
          ∙ climb-even sha256 _ _ rest root a b b' (omega arith) hb)

  Lifts-right :
      (e m : ℕ) (ls : List Bytes) (leaf : Bytes) (path : List Bytes)
      → length ls ≡ 2 ^ suc e
      → 2 ^ e ≤ m
      → Lifts e (m - 2 ^ e) (drop (2 ^ e) ls) leaf path
      → Lifts (suc e) m ls leaf (path ++ tree_hash sha256 (take (2 ^ e) ls) ∷ [])
  Lifts-right e m ls leaf path n low ih a b c rest root h k =
      let (b', c', eb, hc, hb) = child e b c k in
      rw
        (
          right_position e a m low,
          eb,
          append_assoc path (tree_hash sha256 (take (2 ^ e) ls) ∷ []) rest,
          tree_hash-split sha256 e ls (omega (arith, pow2-suc e, pow2_pos e))
              (omega (arith, pow2-suc e)),
        )
        (ih (2 * a + 1) b' c' (tree_hash sha256 (take (2 ^ e) ls) ∷ rest) root (omega arith) hc
          ∙ climb-odd sha256 _ _ rest root a b b' (omega arith) hb)

  full_path :
      (e m : ℕ) (ls : List Bytes) (leaf : Bytes)
      → length ls ≡ 2 ^ e
      → get_elem? ls m ≡ some leaf
      → (path : List Bytes) × (inclusion_proof sha256 ls m ≡ some path) × Lifts e m ls leaf path
  full_path zero m [] leaf n h = absurd (omega arith)
  full_path zero zero (x ∷ []) leaf n h =
      let same : x ≡ leaf = cc in
      (
        [],
        inclusion_proof-one sha256 x,
        λ a b c rest root p q.
            ap₂ (λ (s t : ℕ). climb sha256 s t leaf rest root) (omega arith) (omega arith)
            ∙ ap (λ (t : Bytes). climb sha256 a b t rest root)
                (sym (tree_hash-one sha256 x ∙ same)),
      )
  full_path zero (suc m) (x ∷ []) leaf n h = cc
  full_path zero m (x ∷ y ∷ ls) leaf n h = absurd (omega arith)
  full_path (suc e) m ls leaf n h = elim (dec_lt m (2 ^ e)) [
    | yes lo ↦
        let (path, made, lifts) =
          full_path e m (take (2 ^ e) ls) leaf (omega (arith, length-take (2 ^ e) ls, pow2-suc e))
            (get_elem?-take (2 ^ e) ls m lo ∙ h) in
        (
          path ++ tree_hash sha256 (drop (2 ^ e) ls) ∷ [],
          inclusion_proof-left sha256 e ls m (omega (arith, pow2-suc e, pow2_pos e))
                (omega (arith, pow2-suc e)) lo
              ∙ rw made,
          Lifts-left e m ls leaf path n lifts,
        )
    | no hi ↦
        let (path, made, lifts) =
          full_path e (m - 2 ^ e) (drop (2 ^ e) ls) leaf
            (omega (arith, length-drop (2 ^ e) ls, pow2-suc e))
            (get_elem?-drop (2 ^ e) ls m (omega arith) ∙ h) in
        (
          path ++ tree_hash sha256 (take (2 ^ e) ls) ∷ [],
          inclusion_proof-right sha256 e ls m (omega (arith, pow2-suc e, pow2_pos e))
                (omega (arith, pow2-suc e)) (omega arith) (get_elem?-lt ls m leaf h)
              ∙ rw made,
          Lifts-right e m ls leaf path n (omega arith) lifts,
        )
  ]

  -- The audit path of a leaf of any subtree on the right edge carries the loop up to its root.
  -- The source skips the levels at which the edge has no sibling, so the height j varies.
  abbrev Climbs : (d m : ℕ) → List Bytes → Bytes → List Bytes → Type 0
  Climbs d m ls leaf path =
      (a : ℕ) (rest : List Bytes) (root : Bytes)
      → (j : ℕ) × (climb sha256 (a * 2 ^ d + m) (a * 2 ^ d + (length ls - 1)) leaf (path ++ rest)
            root
          ≡ climb sha256 (a * 2 ^ j) (a * 2 ^ j) (tree_hash sha256 ls) rest root)

  module _ (e d g m : ℕ) (ls : List Bytes) (leaf : Bytes) (path : List Bytes)
      (lo : 2 ^ e < length ls) (hi : length ls ≤ 2 ^ e + 2 ^ e)
      (apart : 2 ^ d ≡ 2 * (2 ^ g * 2 ^ e)) where
    offset : (a : ℕ) → a * 2 ^ d ≡ 2 * (a * 2 ^ g) * 2 ^ e
    offset a = omega (arith, ap (λ (t : ℕ). a * t) apart)

    Climbs-left :
        Lifts e m (take (2 ^ e) ls) leaf path
        → Climbs d m ls leaf (path ++ tree_hash sha256 (drop (2 ^ e) ls) ∷ [])
    Climbs-left lifts a rest root =
        let last : a * 2 ^ d + (length ls - 1)
            ≡ (2 * (a * 2 ^ g) + 1) * 2 ^ e + (length ls - 1 - 2 ^ e) =
          omega (arith, offset a) in
        (
          g,
          rw
              (
                last,
                offset a,
                append_assoc path (tree_hash sha256 (drop (2 ^ e) ls) ∷ []) rest,
                tree_hash-split sha256 e ls lo hi,
              )
              (lifts (2 * (a * 2 ^ g)) (2 * (a * 2 ^ g) + 1) (length ls - 1 - 2 ^ e)
                  (tree_hash sha256 (drop (2 ^ e) ls) ∷ rest) root (omega arith) (omega arith)
                ∙ climb-even sha256 _ _ rest root (a * 2 ^ g) (a * 2 ^ g) (2 * (a * 2 ^ g) + 1)
                    (omega arith) (omega arith)),
        )

    Climbs-right :
        2 ^ e ≤ m
        → Climbs e (m - 2 ^ e) (drop (2 ^ e) ls) leaf path
        → Climbs d m ls leaf (path ++ tree_hash sha256 (take (2 ^ e) ls) ∷ [])
    Climbs-right low ih a rest root =
        let (j, lifted) =
          ih (2 * (a * 2 ^ g) + 1) (tree_hash sha256 (take (2 ^ e) ls) ∷ rest) root in
        let here : a * 2 ^ d + m ≡ (2 * (a * 2 ^ g) + 1) * 2 ^ e + (m - 2 ^ e) =
          omega (arith, offset a) in
        let last : a * 2 ^ d + (length ls - 1)
            ≡ (2 * (a * 2 ^ g) + 1) * 2 ^ e + (length (drop (2 ^ e) ls) - 1) =
          omega (arith, offset a, length-drop (2 ^ e) ls) in
        (
          g,
          rw
              (
                here,
                last,
                append_assoc path (tree_hash sha256 (take (2 ^ e) ls) ∷ []) rest,
                tree_hash-split sha256 e ls lo hi,
              )
              (lifted ∙ climb-edge sha256 _ _ rest root j (a * 2 ^ g)),
        )

  edge_path :
      (f d m : ℕ) (ls : List Bytes) (leaf : Bytes)
      → length ls ≤ f
      → length ls ≤ 2 ^ d
      → get_elem? ls m ≡ some leaf
      → (path : List Bytes) × (inclusion_proof sha256 ls m ≡ some path) × Climbs d m ls leaf path
  edge_path f d m [] leaf p q h = cc
  edge_path zero d m (x ∷ ls) leaf p q h = absurd (omega arith)
  edge_path (suc f) d zero (x ∷ []) leaf p q h =
      let same : x ≡ leaf = cc in
      (
        [],
        inclusion_proof-one sha256 x,
        λ a rest root. (
          d,
          ap₂ (λ (s t : ℕ). climb sha256 s t leaf rest root) (omega arith) (omega arith)
              ∙ ap (λ (t : Bytes). climb sha256 (a * 2 ^ d) (a * 2 ^ d) t rest root)
                  (sym (tree_hash-one sha256 x ∙ same)),
        ),
      )
  edge_path (suc f) d (suc m) (x ∷ []) leaf p q h = cc
  edge_path (suc f) d m (x ∷ y ∷ more) leaf p q h =
      let ls : List Bytes = x ∷ y ∷ more in
      let (e, lo, hi) = split_point (length ls) (omega arith) in
      let (g, apart) = pow2_lt e d (omega arith) in
      elim (dec_lt m (2 ^ e)) [
        | yes left ↦
            let (path, made, lifts) =
              full_path e m (take (2 ^ e) ls) leaf (omega (arith, length-take (2 ^ e) ls))
                (get_elem?-take (2 ^ e) ls m left ∙ h) in
            (
              path ++ tree_hash sha256 (drop (2 ^ e) ls) ∷ [],
              inclusion_proof-left sha256 e ls m lo hi left ∙ rw made,
              Climbs-left e d g m ls leaf path lo hi apart lifts,
            )
        | no right ↦
            let (path, made, climbs) =
              edge_path f e (m - 2 ^ e) (drop (2 ^ e) ls) leaf
                (omega (arith, length-drop (2 ^ e) ls, pow2_pos e))
                (omega (arith, length-drop (2 ^ e) ls))
                (get_elem?-drop (2 ^ e) ls m (omega arith) ∙ h) in
            (
              path ++ tree_hash sha256 (take (2 ^ e) ls) ∷ [],
              inclusion_proof-right sha256 e ls m lo hi (omega arith) (get_elem?-lt ls m leaf h)
                  ∙ rw made,
              Climbs-right e d g m ls leaf path lo hi apart (omega arith) climbs,
            )
      ]

  -- Every leaf has an audit path, and the verifier accepts it against the tree head.
  pub verify_inclusion-inclusion_proof :
      (ls : List Bytes) (m : ℕ) (leaf : Bytes)
      → get_elem? ls m ≡ some leaf
      → (path : List Bytes) × (inclusion_proof sha256 ls m ≡ some path)
        × (verify_inclusion sha256 m (length ls) leaf path (tree_hash sha256 ls) ≡ true)
  unfolding verify_inclusion climb
  verify_inclusion-inclusion_proof ls m leaf h =
      let (path, made, climbs) =
        edge_path (length ls) (length ls) m ls leaf (omega arith)
          (omega (arith, lt-pow2 (length ls))) h in
      let (j, lifted) = climbs 0 [] (tree_hash sha256 ls) in
      let start : climb sha256 m (length ls - 1) leaf path (tree_hash sha256 ls)
          ≡ climb sha256 (0 * 2 ^ length ls + m) (0 * 2 ^ length ls + (length ls - 1)) leaf
              (path ++ []) (tree_hash sha256 ls) =
        rw append-nil (
          ap₂ (λ (s t : ℕ). climb sha256 s t leaf path (tree_hash sha256 ls)) (omega arith)
            (omega arith)) in
      (
        path,
        made,
        rw (lt→leb (length ls) m (get_elem?-lt ls m leaf h), start, lifted, bytes_eq_refl)
            (rw (eq→== (0 * 2 ^ j) 0 (omega arith))),
      )
