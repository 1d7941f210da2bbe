-- ===== src/Merkle.antt =====
-- src/openwright/merkle.py: the tree head, the proofs and their verifiers. `sha256` is
-- hashlib's `sha256(data).digest()`, a parameter. Leaf indices and tree sizes are naturals.
pub mod Pow2
pub mod TreeHash
pub mod InclusionProof
pub mod Rounds
mod Positions
pub mod Inclusion
pub mod Binding
pub mod Nodes
pub mod Frontier
pub mod Shards
pub mod Consistency
mod Tests
use openwright.Common.{
  bytes_eq, ℕ, zero, suc, ◌-◌, ◌/◌, ◌%◌, Bool, true, false, not, ◌&&◌, ◌||◌, Option, none, some,
  List, [], ◌∷◌, ◌++◌, ltb, leb, ◌==◌, if◌then◌else◌, length, take, drop, Bytes,
}
use Pow2.{largest_pow2_lt}

-- `path + [sibling]`, if the recursive call did not raise.
abbrev pub then_sibling : Option (List Bytes) → Bytes → Option (List Bytes)
then_sibling none sibling = none
then_sibling (some path) sibling = some (path ++ sibling ∷ [])

module _ (sha256 : Bytes → Bytes) where
  unfoldable pub leaf_hash : Bytes → Bytes
  leaf_hash content = sha256 (0x00 ∷ content)

  unfoldable pub node_hash : Bytes → Bytes → Bytes
  node_hash left right = sha256 (0x01 ∷ left ++ right)

  unfoldable pub empty_root : Bytes
  empty_root = sha256 []

  -- `tree_hash` with a bound on the depth of its recursion. The patterns are the tests on `n`.
  unfoldable pub tree_fuel : ℕ → List Bytes → Bytes
  tree_fuel zero leaves = empty_root
  tree_fuel (suc f) [] = empty_root
  tree_fuel (suc f) (x ∷ []) = x
  tree_fuel (suc f) (x ∷ y ∷ rest) =
      let leaves : List Bytes = x ∷ y ∷ rest in
      let k = largest_pow2_lt (length leaves) in
      node_hash (tree_fuel f (take k leaves)) (tree_fuel f (drop k leaves))

  unfoldable pub tree_hash : List Bytes → Bytes
  unfolding tree_fuel
  tree_hash leaves = tree_fuel (length leaves) leaves

  -- `none` is the IndexError.
  unfoldable pub inclusion_fuel : ℕ → List Bytes → ℕ → Option (List Bytes)
  inclusion_fuel zero leaves m = none
  inclusion_fuel (suc f) leaves m =
      let n = length leaves in
      let k = largest_pow2_lt n in
      let left = then_sibling (inclusion_fuel f (take k leaves) m) (tree_hash (drop k leaves)) in
      let right =
        then_sibling (inclusion_fuel f (drop k leaves) (m - k)) (tree_hash (take k leaves)) in
      if leb n m then none else if n == 1 then some [] else if ltb m k then left else right

  unfoldable pub inclusion_proof : List Bytes → ℕ → Option (List Bytes)
  unfolding inclusion_fuel
  inclusion_proof leaves m = inclusion_fuel (length leaves) leaves m

  unfoldable pub subproof_fuel : ℕ → ℕ → List Bytes → Bool → List Bytes
  subproof_fuel zero m leaves b = []
  subproof_fuel (suc f) m leaves b =
      let n = length leaves in
      let k = largest_pow2_lt n in
      let left = subproof_fuel f m (take k leaves) b ++ tree_hash (drop k leaves) ∷ [] in
      let right = subproof_fuel f (m - k) (drop k leaves) false ++ tree_hash (take k leaves) ∷ [] in
      if m == n then (if b then [] else tree_hash leaves ∷ []) else if leb m k then left else right

  unfoldable pub subproof : ℕ → List Bytes → Bool → List Bytes
  unfolding subproof_fuel
  subproof m leaves b = subproof_fuel (length leaves) m leaves b

  -- `none` is the ValueError.
  unfoldable pub consistency_proof : List Bytes → ℕ → Option (List Bytes)
  unfolding subproof
  consistency_proof leaves m =
      let n = length leaves in
      if m == 0 || ltb n m then none else if m == n then some [] else some (subproof m leaves true)

-- `while (fn & 1) == 0 and fn != 0: fn >>= 1; sn >>= 1`
unfoldable pub strip_zeros : ℕ → ℕ → ℕ → ℕ × ℕ
strip_zeros zero fn sn = (fn, sn)
strip_zeros (suc f) fn sn =
    let rest = strip_zeros f (fn / 2) (sn / 2) in
    if fn % 2 == 0 && not (fn == 0) then rest else (fn, sn)

-- `(fn & 1) == 1 or fn == sn`: the sibling stands on the left.
abbrev pub sibling_on_left : ℕ → ℕ → Bool
sibling_on_left fn sn = fn % 2 == 1 || fn == sn

abbrev pub halve : ℕ × ℕ → ℕ × ℕ
halve (fn, sn) = (fn / 2, sn / 2)

-- What one round of either verifier makes of `fn` and `sn`.
unfoldable pub advance : ℕ → ℕ → ℕ × ℕ
unfolding strip_zeros
advance fn sn =
    if sibling_on_left fn sn && fn % 2 == 0 then halve (strip_zeros fn fn sn) else halve (fn, sn)

module _ (sha256 : Bytes → Bytes) where
  unfoldable pub join : ℕ → ℕ → Bytes → Bytes → Bytes
  join fn sn p r = if sibling_on_left fn sn then node_hash sha256 p r else node_hash sha256 r p

  -- The loop of `verify_inclusion` over the rest of the proof, and its last line.
  unfoldable pub climb : ℕ → ℕ → Bytes → List Bytes → Bytes → Bool
  climb fn sn r [] root = sn == 0 && bytes_eq r root
  climb fn sn r (p ∷ proof) root =
      let (fn', sn') = advance fn sn in
      let rest = climb fn' sn' (join fn sn p r) proof root in if sn == 0 then false else rest

  unfoldable pub verify_inclusion : ℕ → ℕ → Bytes → List Bytes → Bytes → Bool
  unfolding climb join advance
  verify_inclusion leaf_index tree_size leaf proof root =
      if leb tree_size leaf_index then false else climb leaf_index (tree_size - 1) leaf proof root
