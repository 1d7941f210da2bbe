-- ===== src/Merkle/Frontier.antt =====
-- `IncrementalMerkleTree` of src/openwright/merkle.py.
pub mod Head
use mathlib.Core.List.{reverse}
use openwright.Common.{ℕ, ◌+◌, Option, none, some, List, [], ◌∷◌, foldl, leb, if◌then◌else◌, Bytes}
use openwright.Merkle.{node_hash, empty_root}

pub record IncrementalMerkleTree : Type 0 where
  pub frontier : List (Option Bytes)
  pub count : ℕ

abbrev pub new_tree : IncrementalMerkleTree
new_tree = record { frontier = []; count = 0 }

-- `enumerate(self._frontier)` from a level on, without the empty entries.
unfoldable pub present : ℕ → List (Option Bytes) → List (ℕ × Bytes)
present level [] = []
present level (none ∷ rest) = present (level + 1) rest
present level (some h ∷ rest) = (level, h) ∷ present (level + 1) rest

-- Python's `sort(key=level, reverse=True)`, by insertion: stable, the largest level first.
unfoldable pub insert_desc : ℕ × Bytes → List (ℕ × Bytes) → List (ℕ × Bytes)
insert_desc x [] = x ∷ []
insert_desc x (y ∷ ys) = if leb y.0 x.0 then x ∷ y ∷ ys else y ∷ insert_desc x ys

unfoldable pub sort_desc : List (ℕ × Bytes) → List (ℕ × Bytes)
unfolding insert_desc
sort_desc [] = []
sort_desc (x ∷ xs) = insert_desc x (sort_desc xs)

module _ (sha256 : Bytes → Bytes) where
  -- The loop of `append`, from the entry of the current level on.
  unfoldable pub carry_up : Bytes → List (Option Bytes) → List (Option Bytes)
  carry_up carry [] = some carry ∷ []
  carry_up carry (none ∷ rest) = some carry ∷ rest
  carry_up carry (some h ∷ rest) = none ∷ carry_up (node_hash sha256 h carry) rest

  unfoldable pub append : IncrementalMerkleTree → Bytes → IncrementalMerkleTree
  unfolding carry_up
  append t leaf = record { frontier = carry_up leaf t.frontier; count = t.count + 1 }

  unfoldable pub from_leaves : List Bytes → IncrementalMerkleTree
  unfolding append
  from_leaves leaves = foldl append new_tree leaves

  -- `present[-1]`, and then `present[-2::-1]`, are the reversed list from its front.
  unfoldable pub fold_roots : List (ℕ × Bytes) → Bytes
  fold_roots [] = empty_root sha256
  fold_roots ((_, acc) ∷ rest) = foldl (λ acc x. node_hash sha256 x.1 acc) acc rest

  unfoldable pub root : IncrementalMerkleTree → Bytes
  unfolding fold_roots present sort_desc
  root t = fold_roots (reverse (sort_desc (present 0 t.frontier)))
