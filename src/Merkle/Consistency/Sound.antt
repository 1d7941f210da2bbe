-- ===== src/Merkle/Consistency/Sound.antt =====
-- What acceptance by `verify_consistency` of src/openwright/merkle.py binds: with one second root,
-- the first root is determined, or SHA-256 has a collision.
use openwright.Merkle.Pow2.{largest_pow2_lt}
use openwright.Merkle.Consistency.Complete.{verify_consistency-consistency_proof, Omits_lem}
use native.Mathlib.Decide.{ℕ_discrete}
use openwright.Common.{
  bytes_eq, ℕ, ◌-◌, ◌≤◌, ◌<◌, ◌≡◌, refl, sym, ap, ap₂, subst, ◌≢◌, ◌⊎◌, inl, inr, Bool, true, false,
  some, List, [], ◌∷◌, ◌++◌, append_assoc, arith, ◌==◌, if◌then◌else◌, Bool-cases, length, take,
  All, length-append, All-take, all, Bytes, bytes_eq→eq, bytes_eq_refl, Collision,
}
use openwright.Merkle.{
  node_hash, advance, join, sibling_on_left, consistency_proof, tree_hash, largest_pow2_lt,
  subproof,
}
use openwright.Merkle.Binding.{length-join, node_hash-inj, node_hash-inj_left}
use openwright.Merkle.Consistency.{
  join_first, climb_both, strip_ones, check_path, verify_consistency, is_power_of_two,
}
use openwright.Merkle.Consistency.Sizes.{IsDigest, tree_hash-IsDigest, subproof-IsDigest}

-- Equal results of a round come from equal siblings and equal second nodes.
join-both_inj :
    (sha256 : Bytes → Bytes) (fn sn : ℕ) (p r q s : Bytes)
    → length r ≡ length s
    → join sha256 fn sn p r ≡ join sha256 fn sn q s
    → ((p ≡ q) × (r ≡ s)) ⊎ Collision sha256
unfolding join
join-both_inj sha256 fn sn p r q s l e = elim (Bool-cases (sibling_on_left fn sn)) [
  | inl left ↦
      let e' : node_hash sha256 p r ≡ node_hash sha256 q s = ground arith in
      node_hash-inj sha256 p r q s l e'
  | inr right ↦
      let e' : node_hash sha256 r p ≡ node_hash sha256 s q = ground arith in
      elim (node_hash-inj_left sha256 r p s q l e') [
        | inl same ↦ inl (same.1, same.0)
        | inr collision ↦ inr collision
      ]
]

module _ (sha256 : Bytes → Bytes) (sized : (x : Bytes) → length (sha256 x) ≡ 32) where
  climb_both-inj :
      (fn sn : ℕ) (fr sr fr' sr' : Bytes) (path path' : List Bytes) (first first' second : Bytes)
      → IsDigest sr
      → IsDigest sr'
      → climb_both sha256 fn sn fr sr path first second ≡ true
      → climb_both sha256 fn sn fr' sr' path' first' second ≡ true
      → ((sr ≡ sr') × (fr ≡ fr' → first ≡ first')) ⊎ Collision sha256
  unfolding climb_both
  climb_both-inj fn sn fr sr fr' sr' [] [] first first' second d d' a b =
      let one = bytes_eq→eq fr first in
      let two = bytes_eq→eq fr' first' in
      let s = bytes_eq→eq sr second in
      let t = bytes_eq→eq sr' second in inl (ground (arith, s, t), λ same. ground (arith, one, two))
  climb_both-inj fn sn fr sr fr' sr' [] (c' ∷ path') first first' second d d' a b = ground arith
  climb_both-inj fn sn fr sr fr' sr' (c ∷ path) [] first first' second d d' a b = ground arith
  climb_both-inj fn sn fr sr fr' sr' (c ∷ path) (c' ∷ path') first first' second d d' a b =
      let (fn', sn') = advance fn sn in
      elim (climb_both-inj fn' sn' (join_first sha256 fn sn c fr) (join sha256 fn sn c sr)
        (join_first sha256 fn sn c' fr') (join sha256 fn sn c' sr') path path' first first' second
        (length-join sha256 sized fn sn c sr) (length-join sha256 sized fn sn c' sr') (ground arith)
        (ground arith)) [
          | inl (same, firsts) ↦ elim (join-both_inj sha256 fn sn c sr c' sr' (omega arith) same) [
            | inl (cs, srs) ↦ inl (srs, λ frs. firsts (ap₂ (join_first sha256 fn sn) cs frs))
            | inr collision ↦ inr collision
          ]
          | inr collision ↦ inr collision
        ]

  check_path-inj :
      (fn sn : ℕ) (path path' : List Bytes) (first first' second : Bytes)
      → All IsDigest path
      → All IsDigest path'
      → check_path sha256 fn sn path first second ≡ true
      → check_path sha256 fn sn path' first' second ≡ true
      → (first ≡ first') ⊎ Collision sha256
  unfolding check_path
  check_path-inj fn sn [] path' first first' second d d' a b = cc
  check_path-inj fn sn (x ∷ path) [] first first' second d d' a b = cc
  check_path-inj fn sn (x ∷ path) (y ∷ path') first first' second d d' a b =
      let (fn', sn') = strip_ones fn fn sn in
      elim (climb_both-inj fn' sn' x x y y path path' first first' second d.0 d'.0 a b) [
        | inl (same, firsts) ↦ inl (firsts same)
        | inr collision ↦ inr collision
      ]

  path-IsDigest :
      (b : Bool) (first : Bytes) (proof : List Bytes)
      → IsDigest first
      → All IsDigest proof
      → All IsDigest (if b then first ∷ proof else proof)
  path-IsDigest true first proof h k = (h, k)
  path-IsDigest false first proof h k = k

  -- Two first roots that are accepted, at the same sizes, as prefixes of one second root are equal
  -- or SHA-256 has a collision, if all nodes given are 32 bytes long.
  verify_consistency-binding :
      (m n : ℕ) (first first' second : Bytes) (proof proof' : List Bytes)
      → 0 < m
      → IsDigest first
      → IsDigest first'
      → All IsDigest proof
      → All IsDigest proof'
      → verify_consistency sha256 m n first second proof ≡ true
      → verify_consistency sha256 m n first' second proof' ≡ true
      → (first ≡ first') ⊎ Collision sha256
  unfolding verify_consistency
  verify_consistency-binding m n first first' second proof proof' h d d' ds ds' a b =
      elim (Bool-cases (m == n)) [
        | inl all ↦
            let s = bytes_eq→eq first second in
            let t = bytes_eq→eq first' second in inl (ground (arith, s, t))
        | inr part ↦
            check_path-inj (m - 1) (n - 1) (if is_power_of_two m then first ∷ proof else proof)
              (if is_power_of_two m then first' ∷ proof' else proof') first first' second
              (path-IsDigest (is_power_of_two m) first proof d ds)
              (path-IsDigest (is_power_of_two m) first' proof' d' ds') (ground arith) (ground arith)
      ]

  All-tail :
      (b : Bool) (x : Bytes) (xs : List Bytes)
      → All IsDigest (if b then x ∷ xs else xs)
      → All IsDigest xs
  All-tail true x xs h = h.1
  All-tail false x xs h = h

  consistency_proof-IsDigest :
      (m : ℕ) (ls proof : List Bytes)
      → 0 < m
      → m ≤ length ls
      → All IsDigest ls
      → consistency_proof sha256 ls m ≡ some proof
      → All IsDigest proof
  unfolding consistency_proof
  consistency_proof-IsDigest m ls proof h inside d made = elim (ℕ_discrete m (length ls)) [
    | yes all ↦ let empty : [] ≡ proof = ground arith in subst (All IsDigest) empty tt
    | no part ↦
        let same : subproof sha256 m ls true ≡ proof = ground arith in
        subst (All IsDigest) same (
          All-tail (is_power_of_two m) (tree_hash sha256 (take m ls)) (subproof sha256 m ls true) (
            rw (Omits_lem sha256 (length ls) m ls (omega arith) h inside (λ all. absurd (part all)))
              (subproof-IsDigest sha256 sized m ls h inside d)))
  ]

  -- Let the leaves, the first root and every node of the proof be 32 bytes long and m be positive
  -- and at most the number of leaves. If the first root is accepted for size m against the head of
  -- those leaves, it is the head of the first m of them, or SHA-256 has a collision.
  pub verify_consistency_sound :
      (m : ℕ) (ls : List Bytes) (first : Bytes) (proof : List Bytes)
      → 0 < m
      → m ≤ length ls
      → All IsDigest ls
      → IsDigest first
      → All IsDigest proof
      → verify_consistency sha256 m (length ls) first (tree_hash sha256 ls) proof ≡ true
      → (first ≡ tree_hash sha256 (take m ls)) ⊎ Collision sha256
  verify_consistency_sound m ls first proof h inside d df dp accepted =
      let (honest, made, good) = verify_consistency-consistency_proof sha256 m ls h inside in
      verify_consistency-binding m (length ls) first (tree_hash sha256 (take m ls))
        (tree_hash sha256 ls) proof honest h df
        (tree_hash-IsDigest sha256 sized (take m ls) (All-take IsDigest m ls d)) dp
        (consistency_proof-IsDigest m ls honest h inside d made) accepted good

unsized_accepted :
    (sha256 : Bytes → Bytes) (l0 l1 l2 piece rest : Bytes)
    → verify_consistency sha256 3 4
        (node_hash sha256 (node_hash sha256 l0 l1) (l2 ++ piece))
        (tree_hash sha256 (l0 ∷ l1 ∷ l2 ∷ (piece ++ rest) ∷ []))
        ((l2 ++ piece) ∷ rest ∷ node_hash sha256 l0 l1 ∷ [])
      ≡ true
unfolding verify_consistency climb_both join_first join advance tree_hash largest_pow2_lt node_hash
unsized_accepted sha256 l0 l1 l2 piece rest = simp (append_assoc, bytes_eq_refl)

node_hash-length :
    (sha256 : Bytes → Bytes)
    → ((x : Bytes) → length (sha256 x) ≡ 32)
    → (l r l' r' : Bytes) → length (node_hash sha256 l r) ≡ length (node_hash sha256 l' r')
unfolding node_hash
node_hash-length sha256 sized l r l' r' = cc (sized (1 ∷ (l ++ r)), sized (1 ∷ (l' ++ r')))

too_long : (l piece c : Bytes) → IsDigest l → IsDigest c → piece ≢ [] → (l ++ piece) ≢ c
too_long l [] c d dc more same = more refl
too_long l (x ∷ piece) c d dc more same =
    let sum = length-append l (x ∷ piece) in let whole = ap length same in omega arith

unequal_bytes : (x y : Bytes) → bytes_eq x y ≡ false → x ≢ y
unequal_bytes x y other same =
    let self = bytes_eq_refl x in
    let as_other : bytes_eq x x ≡ false =
      rw (subst (λ z. bytes_eq x z ≡ bytes_eq x y) (sym same) refl) other in
    ground arith

-- The first root of this attack, whose second node runs into the fourth leaf, is the head of no
-- three digests.
unsized-head :
    (sha256 : Bytes → Bytes)
    → ((x : Bytes) → length (sha256 x) ≡ 32)
    → (l0 l1 l2 piece a b c : Bytes) → IsDigest l2
    → piece ≢ []
    → IsDigest c
    → node_hash sha256 (node_hash sha256 l0 l1) (l2 ++ piece) ≡ tree_hash sha256 (a ∷ b ∷ c ∷ [])
    → Collision sha256
unfolding tree_hash largest_pow2_lt
unsized-head sha256 sized l0 l1 l2 piece a b c d more dc same =
    elim (node_hash-inj_left sha256 (node_hash sha256 l0 l1) (l2 ++ piece) (node_hash sha256 a b) c
      (node_hash-length sha256 sized l0 l1 a b) same) [
        | inl nodes ↦ absurd (too_long l2 piece c d dc more nodes.1)
        | inr collision ↦ collision
      ]

-- The 32-byte condition is needed, and the code does not check it: let SHA-256 give 32 bytes, the
-- third leaf l2 and c be 32 bytes long, and the fourth leaf be cut after a nonempty first piece.
-- With l2 and that piece run together as one node, a first root of three leaves is accepted that
-- is not the head of the digests a, b and c, or SHA-256 has a collision.
pub verify_consistency-unsized :
    (sha256 : Bytes → Bytes)
    → ((x : Bytes) → length (sha256 x) ≡ 32)
    → (l0 l1 l2 piece rest a b c : Bytes) → IsDigest l2
    → piece ≢ []
    → IsDigest c
    → (verify_consistency sha256 3 4
          (node_hash sha256 (node_hash sha256 l0 l1) (l2 ++ piece))
          (tree_hash sha256 (l0 ∷ l1 ∷ l2 ∷ (piece ++ rest) ∷ []))
          ((l2 ++ piece) ∷ rest ∷ node_hash sha256 l0 l1 ∷ [])
        ≡ true)
      × ((node_hash sha256 (node_hash sha256 l0 l1) (l2 ++ piece)
            ≢ tree_hash sha256 (a ∷ b ∷ c ∷ []))
          ⊎ Collision sha256)
verify_consistency-unsized sha256 sized l0 l1 l2 piece rest a b c d more dc =
    let root = node_hash sha256 (node_hash sha256 l0 l1) (l2 ++ piece) in
    let head = tree_hash sha256 (a ∷ b ∷ c ∷ []) in
    (
      unsized_accepted sha256 l0 l1 l2 piece rest,
      elim (Bool-cases (bytes_eq root head)) [
        | inl same ↦
            inr (
              unsized-head sha256 sized l0 l1 l2 piece a b c d more dc (bytes_eq→eq root head same))
        | inr other ↦ inl (λ same. unequal_bytes root head other same)
      ],
    )
