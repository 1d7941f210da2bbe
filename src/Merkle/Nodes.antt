-- ===== src/Merkle/Nodes.antt =====
-- A property of every digest of the hash and of every leaf holds of every node that
-- src/openwright/merkle.py makes.
use openwright.Common.{
  ℕ, zero, suc, ◌-◌, ◌≡◌, refl, subst, inl, inr, Option, none, some, List, [], ◌∷◌, arith, ltb, leb,
  ◌==◌, Bool-cases, some-injective, length, take, drop, All, All-append, All-take, All-drop, Bytes,
}
use openwright.Merkle.{
  tree_hash, tree_fuel, inclusion_fuel, inclusion_proof, empty_root, node_hash, then_sibling,
}
use openwright.Merkle.Pow2.{largest_pow2_lt}

module _ (sha256 : Bytes → Bytes) (P : Bytes → Type 0) (made : (x : Bytes) → P (sha256 x)) where
  tree_fuel_keeps : (f : ℕ) (ls : List Bytes) → All P ls → P (tree_fuel sha256 f ls)
  unfolding tree_fuel empty_root node_hash
  tree_fuel_keeps zero ls h = made []
  tree_fuel_keeps (suc f) [] h = made []
  tree_fuel_keeps (suc f) (x ∷ []) h = h.0
  tree_fuel_keeps (suc f) (x ∷ y ∷ rest) h = made _

  pub tree_hash_keeps : (ls : List Bytes) → All P ls → P (tree_hash sha256 ls)
  unfolding tree_hash
  tree_hash_keeps ls h = tree_fuel_keeps (length ls) ls h

  then_sibling_keeps :
      (o : Option (List Bytes)) (h : Bytes) (path : List Bytes)
      → ((q : List Bytes) → o ≡ some q → All P q)
      → P h
      → then_sibling o h ≡ some path
      → All P path
  then_sibling_keeps none h path kept ph e = cc
  then_sibling_keeps (some q) h path kept ph e =
      subst (All P) (some-injective e) (All-append P q (h ∷ []) (kept q refl) (ph, tt))

  inclusion_fuel_keeps :
      (f : ℕ) (ls : List Bytes) (m : ℕ) (path : List Bytes)
      → All P ls
      → inclusion_fuel sha256 f ls m ≡ some path
      → All P path
  unfolding inclusion_fuel
  inclusion_fuel_keeps zero ls m path h e = cc
  inclusion_fuel_keeps (suc f) ls m path h e =
      let k : ℕ = largest_pow2_lt (length ls) in
      elim (Bool-cases (leb (length ls) m)) [
        | inl out ↦ ground (arith, out, e)
        | inr inside ↦ elim (Bool-cases (length ls == 1)) [
          | inl one ↦
              let none_left : some [] ≡ some path = rw (inside, one) at e in
              subst (All P) (some-injective none_left) tt
          | inr more ↦ elim (Bool-cases (ltb m k)) [
            | inl low ↦
                then_sibling_keeps (inclusion_fuel sha256 f (take k ls) m) _ path
                  (λ q e'. inclusion_fuel_keeps f (take k ls) m q (All-take P k ls h) e')
                  (tree_hash_keeps (drop k ls) (All-drop P k ls h)) (rw (inside, more, low) at e)
            | inr high ↦
                then_sibling_keeps (inclusion_fuel sha256 f (drop k ls) (m - k)) _ path
                  (λ q e'. inclusion_fuel_keeps f (drop k ls) (m - k) q (All-drop P k ls h) e')
                  (tree_hash_keeps (take k ls) (All-take P k ls h)) (rw (inside, more, high) at e)
          ]
        ]
      ]

  pub inclusion_proof_keeps :
      (ls : List Bytes) (m : ℕ) (path : List Bytes)
      → All P ls
      → inclusion_proof sha256 ls m ≡ some path
      → All P path
  unfolding inclusion_proof
  inclusion_proof_keeps ls m path h e = inclusion_fuel_keeps (length ls) ls m path h e
