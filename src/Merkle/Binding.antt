-- ===== src/Merkle/Binding.antt =====
-- What acceptance by `verify_inclusion` of src/openwright/merkle.py binds: two leaves accepted at
-- one position under one root are equal, or SHA-256 has a collision.
use openwright.Common.{
  ℕ, ◌-◌, ◌≤◌, ◌≡◌, sym, ◌∙◌, ◌⊎◌, inl, inr, true, false, some, List, [], ◌∷◌, ◌++◌, arith, le→leb,
  Bool-cases, length, get_elem?, append-inj_right, append-inj_left, Bytes, bytes_eq→eq, Collision,
  eq_or_Collision,
}
use openwright.Merkle.Inclusion.{verify_inclusion-inclusion_proof}
use openwright.Merkle.{
  node_hash, join, sibling_on_left, climb, verify_inclusion, advance, tree_hash,
}

module _ (sha256 : Bytes → Bytes) (sized : (x : Bytes) → length (sha256 x) ≡ 32) where
  pub length-node_hash : (p r : Bytes) → length (node_hash sha256 p r) ≡ 32
  unfolding node_hash
  length-node_hash p r = sized (0x01 ∷ p ++ r)

  pub length-join : (fn sn : ℕ) (p r : Bytes) → length (join sha256 fn sn p r) ≡ 32
  unfolding join
  length-join fn sn p r = ground (arith, length-node_hash p r, length-node_hash r p)

module _ (sha256 : Bytes → Bytes) where
  -- Equal nodes with equally long right parts have equal parts, or exhibit a collision.
  pub node_hash-inj :
      (p r q s : Bytes)
      → length r ≡ length s
      → node_hash sha256 p r ≡ node_hash sha256 q s
      → ((p ≡ q) × (r ≡ s)) ⊎ Collision sha256
  unfolding node_hash
  node_hash-inj p r q s l e = elim (eq_or_Collision sha256 (0x01 ∷ p ++ r) (0x01 ∷ q ++ s) e) [
    | inl same ↦ inl (append-inj_right p q r s l (cc))
    | inr collision ↦ inr collision
  ]

  -- The same with equally long left parts.
  pub node_hash-inj_left :
      (p r q s : Bytes)
      → length p ≡ length q
      → node_hash sha256 p r ≡ node_hash sha256 q s
      → ((p ≡ q) × (r ≡ s)) ⊎ Collision sha256
  unfolding node_hash
  node_hash-inj_left p r q s l e = elim (eq_or_Collision sha256 (0x01 ∷ p ++ r) (0x01 ∷ q ++ s) e) [
    | inl same ↦ inl (append-inj_left p q r s l (cc))
    | inr collision ↦ inr collision
  ]

  pub join-inj :
      (fn sn : ℕ) (p r q s : Bytes)
      → length r ≡ length s
      → join sha256 fn sn p r ≡ join sha256 fn sn q s
      → (r ≡ s) ⊎ Collision sha256
  unfolding join
  join-inj fn sn p r q s l e = elim (Bool-cases (sibling_on_left fn sn)) [
    | inl left ↦
        let e' : node_hash sha256 p r ≡ node_hash sha256 q s = ground arith in
        elim (node_hash-inj p r q s l e') [ inl same ↦ inl same.1 | inr collision ↦ inr collision ]
    | inr right ↦
        let e' : node_hash sha256 r p ≡ node_hash sha256 s q = ground arith in
        elim (node_hash-inj_left r p s q l e') [
          | inl same ↦ inl same.0
          | inr collision ↦ inr collision
        ]
  ]

module _ (sha256 : Bytes → Bytes) (sized : (x : Bytes) → length (sha256 x) ≡ 32) where
  climb-inj :
      (fn sn : ℕ) (r s : Bytes) (path other : List Bytes) (root : Bytes)
      → length r ≡ 32
      → length s ≡ 32
      → climb sha256 fn sn r path root ≡ true
      → climb sha256 fn sn s other root ≡ true
      → (r ≡ s) ⊎ Collision sha256
  unfolding climb
  climb-inj fn sn r s [] [] root lr ls a b =
      inl (bytes_eq→eq r root (ground arith) ∙ sym (bytes_eq→eq s root (ground arith)))
  climb-inj fn sn r s [] (q ∷ other) root lr ls a b = ground arith
  climb-inj fn sn r s (p ∷ path) [] root lr ls a b = ground arith
  climb-inj fn sn r s (p ∷ path) (q ∷ other) root lr ls a b =
      let (fn', sn') = advance fn sn in
      elim (climb-inj fn' sn' (join sha256 fn sn p r) (join sha256 fn sn q s) path other root
        (length-join sha256 sized fn sn p r) (length-join sha256 sized fn sn q s) (ground arith)
        (ground arith)) [
          | inl same ↦ join-inj sha256 fn sn p r q s (omega arith) same
          | inr collision ↦ inr collision
        ]

  -- Two digests that `verify_inclusion` accepts at one position of one tree head are equal, or
  -- SHA-256 has a collision. Nothing is assumed of the proofs or of where the root comes from.
  verify_inclusion-binding :
      (leaf_index tree_size : ℕ) (leaf other : Bytes) (path other_path : List Bytes) (root : Bytes)
      → length leaf ≡ 32
      → length other ≡ 32
      → verify_inclusion sha256 leaf_index tree_size leaf path root ≡ true
      → verify_inclusion sha256 leaf_index tree_size other other_path root ≡ true
      → (leaf ≡ other) ⊎ Collision sha256
  unfolding verify_inclusion
  verify_inclusion-binding i n leaf other path other_path root ll lo a b =
      climb-inj i (n - 1) leaf other path other_path root ll lo (ground arith) (ground arith)

  -- With a hash of 32 bytes, against the head of a tree, a leaf of 32 bytes that is accepted at an
  -- index where the tree has a leaf of 32 bytes is that leaf, or SHA-256 has a collision.
  pub verify_inclusion_sound :
      (ls : List Bytes) (m : ℕ) (stored leaf : Bytes) (path : List Bytes)
      → get_elem? ls m ≡ some stored
      → length stored ≡ 32
      → length leaf ≡ 32
      → verify_inclusion sha256 m (length ls) leaf path (tree_hash sha256 ls) ≡ true
      → (leaf ≡ stored) ⊎ Collision sha256
  verify_inclusion_sound ls m stored leaf path at lens lenl accepted =
      let (honest, made, good) = verify_inclusion-inclusion_proof sha256 ls m stored at in
      verify_inclusion-binding m (length ls) leaf stored path honest (tree_hash sha256 ls) lenl lens
        accepted good

-- An index outside the tree is refused, whatever the proof.
pub verify_inclusion-out :
    (sha256 : Bytes → Bytes) (i n : ℕ) (leaf : Bytes) (path : List Bytes) (root : Bytes)
    → n ≤ i
    → verify_inclusion sha256 i n leaf path root ≡ false
unfolding verify_inclusion
verify_inclusion-out sha256 i n leaf path root h = rw (le→leb n i h)
