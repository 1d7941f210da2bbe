-- ===== src/Merkle/Consistency.antt =====
-- `verify_consistency` of src/openwright/merkle.py.
pub mod Subproof
pub mod Powers
pub mod Rounds
pub mod Paths
pub mod Complete
pub mod Sizes
pub mod Sound
use Prim.Native.Nat.{bit_and}
use openwright.Common.{
  bytes_eq, ℕ, zero, suc, ◌-◌, ◌/◌, ◌%◌, Bool, true, false, ◌&&◌, List, [], ◌∷◌, ltb, ◌==◌,
  if◌then◌else◌, Bytes,
}
use openwright.Merkle.{node_hash, advance, sibling_on_left, join}

-- `while fn & 1: fn >>= 1; sn >>= 1`
unfoldable pub strip_ones : ℕ → ℕ → ℕ → ℕ × ℕ
strip_ones zero fn sn = (fn, sn)
strip_ones (suc f) fn sn =
    let rest = strip_ones f (fn / 2) (sn / 2) in if fn % 2 == 1 then rest else (fn, sn)

-- `first_size & (first_size - 1) == 0`
abbrev pub is_power_of_two : ℕ → Bool
is_power_of_two n = bit_and n (n - 1) == 0

is_nil : List Bytes → Bool
is_nil [] = true
is_nil (x ∷ xs) = false

module _ (sha256 : Bytes → Bytes) where
  -- How a round changes the root of the first tree; that of the second changes as in `join`.
  unfoldable pub join_first : ℕ → ℕ → Bytes → Bytes → Bytes
  join_first fn sn c fr = if sibling_on_left fn sn then node_hash sha256 c fr else fr

  -- The loop over `path[1:]`, and the last line.
  unfoldable pub climb_both : ℕ → ℕ → Bytes → Bytes → List Bytes → Bytes → Bytes → Bool
  climb_both fn sn fr sr [] first_root second_root =
      sn == 0 && bytes_eq fr first_root && bytes_eq sr second_root
  climb_both fn sn fr sr (c ∷ path) first_root second_root =
      let (fn', sn') = advance fn sn in
      let rest =
        climb_both fn' sn' (join_first fn sn c fr) (join sha256 fn sn c sr) path first_root
          second_root in
      if sn == 0 then false else rest

  -- From `if not path` on.
  unfoldable pub check_path : ℕ → ℕ → List Bytes → Bytes → Bytes → Bool
  unfolding strip_ones climb_both
  check_path fn sn [] first_root second_root = false
  check_path fn sn (x ∷ path) first_root second_root =
      let (fn', sn') = strip_ones fn fn sn in climb_both fn' sn' x x path first_root second_root

  unfoldable pub verify_consistency : ℕ → ℕ → Bytes → Bytes → List Bytes → Bool
  unfolding check_path is_nil
  verify_consistency first_size second_size first_root second_root proof =
      if ltb second_size first_size
      then false
      else if first_size == second_size
      then is_nil proof && bytes_eq first_root second_root
      else if first_size == 0
      then is_nil proof
      else check_path (first_size - 1) (second_size - 1)
          (if is_power_of_two first_size then first_root ∷ proof else proof) first_root second_root
