-- ===== src/Merkle/Frontier/Head.antt =====
-- The frontier of `IncrementalMerkleTree` (src/openwright/merkle.py) stands for the leaves that
-- were appended: its root is their `tree_hash`, its size their number.
use mathlib.Core.List.{reverse-cons, reverse-reverse}
use openwright.Common.{
  ℕ, suc, ◌+◌, ◌^◌, ◌≤◌, ◌<◌, ◌≡◌, refl, sym, ap, ap₂, ◌∙◌, inl, inr, Option, none, some, List, [],
  ◌∷◌, ◌++◌, foldl, append-nil, append_assoc, arith, leb, lt→leb, Bool-cases, length, All,
  length-append, Bytes,
}
use openwright.Merkle.{tree_hash, node_hash}
use openwright.Merkle.Pow2.{pow2-suc, pow2_pos}
use openwright.Merkle.TreeHash.{tree_hash-append, tree_hash-nil, tree_hash-one}
use openwright.Merkle.Frontier.{
  present, insert_desc, carry_up, fold_roots, sort_desc, IncrementalMerkleTree, new_tree, append,
  from_leaves, root, reverse,
}

module _ (sha256 : Bytes → Bytes) where
  -- The entries from a level e on hold, from the right, the full subtrees of these leaves.
  abbrev pub Holds : ℕ → List (Option Bytes) → List Bytes → Type 0
  Holds e [] ls = ls ≡ []
  Holds e (none ∷ rest) ls = Holds (suc e) rest ls
  Holds e (some h ∷ rest) ls =
      (front : List Bytes) × (block : List Bytes) × (ls ≡ front ++ block)
      × (length block ≡ 2 ^ e)
      × (h ≡ tree_hash sha256 block)
      × Holds (suc e) rest front

  carry_up-Holds :
      (e : ℕ) (fs : List (Option Bytes)) (front block : List Bytes) (carry : Bytes)
      → Holds e fs front
      → length block ≡ 2 ^ e
      → carry ≡ tree_hash sha256 block
      → Holds e (carry_up sha256 carry fs) (front ++ block)
  unfolding carry_up
  carry_up-Holds e [] front block carry h n c =
      ([], block, ap (λ (l : List Bytes). l ++ block) h, n, c, refl)
  carry_up-Holds e (none ∷ rest) front block carry h n c = (front, block, refl, n, c, h)
  carry_up-Holds e (some k ∷ rest) front block carry (front', block', split, n', k', held) n c =
      let whole : front ++ block ≡ front' ++ (block' ++ block) =
        ap (λ (l : List Bytes). l ++ block) split ∙ append_assoc front' block' block in
      rw whole (
        carry_up-Holds (suc e) rest front' (block' ++ block) (node_hash sha256 k carry) held
          (omega (arith, length-append block' block, pow2-suc e))
          (ap₂ (node_hash sha256) k' c
            ∙ sym (
                tree_hash-append sha256 e block' block n' (omega (arith, pow2_pos e))
                  (omega arith))))

  -- The accumulator of `root` is the head of a non-empty run of leaves at the right end that does
  -- not exceed the next subtree.
  fold-Holds :
      (e level : ℕ) (fs : List (Option Bytes)) (front last : List Bytes) (acc : Bytes)
      → Holds e fs front
      → 0 < length last
      → length last ≤ 2 ^ e
      → acc ≡ tree_hash sha256 last
      → foldl (λ acc (x : ℕ × Bytes). node_hash sha256 x.1 acc) acc (present level fs)
        ≡ tree_hash sha256 (front ++ last)
  unfolding present
  fold-Holds e level [] front last acc h p n c = rw h c
  fold-Holds e level (none ∷ rest) front last acc h p n c =
      fold-Holds (suc e) (level + 1) rest front last acc h p (omega (arith, pow2-suc e)) c
  fold-Holds e level (some k ∷ rest) front last acc (front', block, split, size, k', held) p n c =
      let whole : front ++ last ≡ front' ++ (block ++ last) =
        ap (λ (l : List Bytes). l ++ last) split ∙ append_assoc front' block last in
      rw whole (
        fold-Holds (suc e) (level + 1) rest front' (block ++ last) (node_hash sha256 k acc) held
          (omega (arith, length-append block last))
          (omega (arith, length-append block last, pow2-suc e))
          (ap₂ (node_hash sha256) k' c ∙ sym (tree_hash-append sha256 e block last size p n)))

  fold_roots-Holds :
      (e level : ℕ) (fs : List (Option Bytes)) (ls : List Bytes)
      → Holds e fs ls
      → fold_roots sha256 (present level fs) ≡ tree_hash sha256 ls
  unfolding present fold_roots
  fold_roots-Holds e level [] ls h = rw h (sym (tree_hash-nil sha256))
  fold_roots-Holds e level (none ∷ rest) ls h = fold_roots-Holds (suc e) (level + 1) rest ls h
  fold_roots-Holds e level (some k ∷ rest) ls (front, block, split, size, k', held) = rw split (
      fold-Holds (suc e) (level + 1) rest front block k held (omega (arith, pow2_pos e))
        (omega (arith, pow2-suc e)) k')

-- Sorting levels that already ascend into descending order reverses them.
abbrev Below : ℕ → List (ℕ × Bytes) → Type 0
Below n [] = Unit
Below n (x ∷ xs) = (n ≤ x.0) × Below (suc x.0) xs

abbrev AllAbove : ℕ → List (ℕ × Bytes) → Type 0
AllAbove n = All (λ x. n < x.0)

insert_desc-last :
    (x : ℕ × Bytes) (ys : List (ℕ × Bytes)) → AllAbove x.0 ys → insert_desc x ys ≡ ys ++ x ∷ []
unfolding insert_desc
insert_desc-last x [] h = refl
insert_desc-last x (y ∷ ys) h = rw (lt→leb y.0 x.0 h.0, insert_desc-last x ys h.1)

present-Below : (n level : ℕ) (fs : List (Option Bytes)) → n ≤ level → Below n (present level fs)
unfolding present
present-Below n level [] h = tt
present-Below n level (none ∷ rest) h = present-Below n (level + 1) rest (omega arith)
present-Below n level (some k ∷ rest) h =
    (h, present-Below (suc level) (level + 1) rest (omega arith))

insert_desc-AllAbove :
    (n : ℕ) (x : ℕ × Bytes) (ys : List (ℕ × Bytes))
    → n < x.0
    → AllAbove n ys
    → AllAbove n (insert_desc x ys)
unfolding insert_desc
insert_desc-AllAbove n x [] h k = (h, tt)
insert_desc-AllAbove n x (y ∷ ys) h k = elim (Bool-cases (leb y.0 x.0)) [
  | inl first ↦ rw first (h, k)
  | inr later ↦ rw later (k.0, insert_desc-AllAbove n x ys h k.1)
]

sort_desc-AllAbove :
    (n m : ℕ) (xs : List (ℕ × Bytes)) → n < m → Below m xs → AllAbove n (sort_desc xs)
unfolding sort_desc
sort_desc-AllAbove n m [] h k = tt
sort_desc-AllAbove n m (x ∷ xs) h k =
    insert_desc-AllAbove n x (sort_desc xs) (omega arith)
      (sort_desc-AllAbove n (suc x.0) xs (omega arith) k.1)

sort_desc-reverse : (m : ℕ) (xs : List (ℕ × Bytes)) → Below m xs → sort_desc xs ≡ reverse xs
unfolding sort_desc
sort_desc-reverse m [] h = refl
sort_desc-reverse m (x ∷ xs) h =
    insert_desc-last x (sort_desc xs) (sort_desc-AllAbove x.0 (suc x.0) xs (omega arith) h.1)
    ∙ ap (λ (l : List (ℕ × Bytes)). l ++ x ∷ []) (sort_desc-reverse (suc x.0) xs h.1)
    ∙ sym (reverse-cons x xs)

module _ (sha256 : Bytes → Bytes) where
  -- What a tree that stands for some leaves is.
  pub record Represents (t : IncrementalMerkleTree) (ls : List Bytes) : Type 0 where
    pub held : Holds sha256 0 t.frontier ls
    pub counted : t.count ≡ length ls

  pub new_tree-Represents : Represents new_tree []
  new_tree-Represents = record { held = refl; counted = refl }

  pub append-Represents :
      (t : IncrementalMerkleTree) (ls : List Bytes) (leaf : Bytes)
      → Represents t ls
      → Represents (append sha256 t leaf) (ls ++ leaf ∷ [])
  unfolding append
  append-Represents t ls leaf r = record {
    held =
        carry_up-Holds sha256 0 t.frontier ls (leaf ∷ []) leaf r.held (omega arith)
          (sym (tree_hash-one sha256 leaf));
    counted = omega (arith, r.counted, length-append ls (leaf ∷ []));
  }

  foldl-Represents :
      (t : IncrementalMerkleTree) (ls more : List Bytes)
      → Represents t ls
      → Represents (foldl (append sha256) t more) (ls ++ more)
  foldl-Represents t ls [] r = rw append-nil r
  foldl-Represents t ls (x ∷ more) r =
      rw (← append_assoc ls (x ∷ []) more)
        (foldl-Represents (append sha256 t x) (ls ++ x ∷ []) more (append-Represents t ls x r))

  pub from_leaves-Represents : (ls : List Bytes) → Represents (from_leaves sha256 ls) ls
  unfolding from_leaves
  from_leaves-Represents ls = foldl-Represents new_tree [] ls new_tree-Represents

  pub root-Represents :
      (t : IncrementalMerkleTree) (ls : List Bytes)
      → Represents t ls
      → root sha256 t ≡ tree_hash sha256 ls
  unfolding root
  root-Represents t ls r =
      rw
        (
          sort_desc-reverse 0 (present 0 t.frontier) (present-Below 0 0 t.frontier (omega arith)),
          reverse-reverse,
        )
        (fold_roots-Holds sha256 0 0 t.frontier ls r.held)

  -- Built leaf by leaf, the incremental tree has the root that the recursive definition gives,
  -- and its size is the number of leaves.
  pub root-from_leaves :
      (ls : List Bytes)
      → (root sha256 (from_leaves sha256 ls) ≡ tree_hash sha256 ls)
        × ((from_leaves sha256 ls).count ≡ length ls)
  root-from_leaves ls =
      let r = from_leaves-Represents ls in (root-Represents (from_leaves sha256 ls) ls r, r.counted)
