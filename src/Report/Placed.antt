-- ===== src/Report/Placed.antt =====
-- The leaves that the loop of `verify_report` in src/openwright/verify.py keeps by index.
use openwright.Dicts.{Number}
use openwright.Common.{
  ℕ, zero, suc, ◌≡◌, refl, sym, ap, ◌∙◌, inl, inr, true, false, Option, none, some, List, [], ◌∷◌,
  ◌++◌, arith, ◌==◌, if◌then◌else◌, ==→eq, Bool-cases, some-injective, length, get_elem?, take,
  take-all, take-get_elem?, Bytes, bytes_eq_refl, >>=-elim,
}
use openwright.Verify.Events.{
  put_leaf, leaf_at, leaves_upto, all_leaves, check_full_tree, compare_tree,
}
use openwright.Signing.{Platform}
use openwright.Merkle.{tree_hash}
use openwright.Verify.{VerificationResult}

-- Every leaf that is kept stands at its index.
abbrev pub Placed : List Bytes → List (Number × Bytes) → Type 0
Placed hs leaves = (j : ℕ) (h : Bytes) → leaf_at j leaves ≡ some h → get_elem? hs j ≡ some h

leaf_at-put_leaf :
    (j i : ℕ) (h : Bytes) (leaves : List (Number × Bytes))
    → leaf_at j (put_leaf (true, i) h leaves) ≡ (if j == i then some h else leaf_at j leaves)
unfolding leaf_at put_leaf
leaf_at-put_leaf j i h [] = refl
leaf_at-put_leaf j i h (((true, k), g) ∷ leaves) = ground (arith, leaf_at-put_leaf j i h leaves)
leaf_at-put_leaf j i h (((false, k), g) ∷ leaves) = leaf_at-put_leaf j i h leaves

pub put_leaf-Placed :
    (hs : List Bytes) (i : ℕ) (h : Bytes) (leaves : List (Number × Bytes))
    → get_elem? hs i ≡ some h
    → Placed hs leaves
    → Placed hs (put_leaf (true, i) h leaves)
put_leaf-Placed hs i h leaves at placed j g found = elim (Bool-cases (j == i)) [
  | inl here ↦
      let same : some h ≡ some g = rw (leaf_at-put_leaf j i h leaves, here) at found in
      let j_is : j ≡ i = ==→eq j i here in rw j_is (at ∙ same)
  | inr there ↦ placed j g (rw (leaf_at-put_leaf j i h leaves, there) at found)
]

leaves_upto-Placed :
    (hs : List Bytes) (m : ℕ) (leaves : List (Number × Bytes)) (ordered : List Bytes)
    → Placed hs leaves
    → leaves_upto m leaves ≡ some ordered
    → ordered ≡ take m hs
unfolding leaves_upto
leaves_upto-Placed hs zero leaves ordered placed h = sym (some-injective h)
leaves_upto-Placed hs (suc m) leaves ordered placed h =
    >>=-elim (leaves_upto m leaves) _ h (λ before is_before h1.
      >>=-elim (leaf_at m leaves) _ h1 (λ leaf is_leaf h2.
        sym (some-injective h2)
        ∙ ap (λ (r : List Bytes). r ++ leaf ∷ [])
            (leaves_upto-Placed hs m leaves before placed is_before)
        ∙ sym (take-get_elem? m hs leaf (placed m leaf is_leaf))))

compare_tree-same :
    (p : Platform) (hs : List Bytes) (found : Option (List Bytes)) (res : VerificationResult)
    → ((ordered : List Bytes) → found ≡ some ordered → ordered ≡ hs)
    → (compare_tree p (tree_hash p.sha256 hs) found res).valid ≡ res.valid
compare_tree-same p hs none res same = refl
compare_tree-same p hs (some ordered) res same =
    rw (same ordered refl, bytes_eq_refl (tree_hash p.sha256 hs)) (ground arith)

-- The whole tree of leaves that stand at their indices has the root of the leaves, so the step keeps
-- a result as valid as it was.
pub check_full_tree-Placed :
    (p : Platform) (hs : List Bytes) (n : ℕ) (leaves : List (Number × Bytes))
    (res : VerificationResult)
    → length hs ≡ n
    → Placed hs leaves
    → (check_full_tree p (tree_hash p.sha256 hs) (true, n) leaves res).valid ≡ res.valid
unfolding check_full_tree all_leaves
check_full_tree-Placed p hs n leaves res size placed =
    compare_tree-same p hs (all_leaves n leaves) res (λ ordered found.
      elim (Bool-cases (length leaves == n)) [
        | inl full ↦
            leaves_upto-Placed hs n leaves ordered placed (rw full at found)
            ∙ take-all n hs (omega (arith, size))
        | inr part ↦ ground (arith, part, found)
      ])
