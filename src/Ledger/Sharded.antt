-- ===== src/Ledger/Sharded.antt =====
-- `ShardedLedger` of src/openwright/ledger.py: ledgers under a super-tree over their roots.
-- A checkpoint reads the size and the root of a shard under one lock after the other, so the state
-- of a shard whose size it reads and the one whose root it reads are two arguments.
use mathlib.Core.Option.{none-ne-some}
use openwright.Merkle.Inclusion.{verify_inclusion-inclusion_proof}
use openwright.Ledger.Proofs.{Run, inclusion_proof_hex-Run}
use openwright.Merkle.{verify_inclusion}
use openwright.Ledger.Invariant.{InStep}
use openwright.Merkle.Shards.{shard_super_root, shard_super_proof, verify_sharded_inclusion}
use openwright.Ledger.Records.{IsHash}
use openwright.Ledger.{
  LedgerBackend, ComplianceEvent, Ledger, KeySource, inclusion_proof_hex, commit, Checkpoint,
  IsAppendOnly, sign_checkpoint, leaf_hash,
}
use openwright.Signing.{Platform, KeySource, Checkpoint, sign_checkpoint}
use openwright.Merkle.Frontier
use mathlib.Core.Option
use openwright.Common.{
  hex, fromhex, ℕ, zero, suc, ◌+◌, ◌*◌, ◌%◌, ◌≡◌, refl, ap, ◌∙◌, true, Option, none, some, List, [],
  ◌∷◌, map, arith, some-injective, length, get_elem?, take, All, length-map, get_elem?-map, Bytes,
  Text, IsByte, fromhex-hex, ◌>>=◌,
}

-- A dictionary that `sharded_inclusion_proof` returns.
pub record ShardedProof : Type 0 where
  pub shard_index : ℕ
  pub num_shards : ℕ
  pub leaf_index : ℕ
  pub shard_size : ℕ
  pub shard_root : Text
  pub shard_proof : List Text
  pub super_proof : List Text

-- `int.from_bytes(digest[:8], "big")`
abbrev from_bytes : ℕ → Bytes → ℕ
from_bytes n [] = n
from_bytes n (b ∷ bs) = from_bytes (n * 256 + b) bs

abbrev sum : List ℕ → ℕ
sum [] = 0
sum (n ∷ ns) = n + sum ns

-- `xs[i] = x`
abbrev pub put {ℓ} : {A : Type ℓ} → ℕ → A → List A → List A
put i x [] = []
put zero x (y ∷ ys) = x ∷ ys
put (suc i) x (y ∷ ys) = y ∷ put i x ys

module _ (p : Platform) {B : Type 0} (backend : LedgerBackend B) where
  -- `_default_route`, for the encoded `agent_id` and the number of shards.
  unfoldable pub default_route : Bytes → ℕ → ℕ
  default_route key count = from_bytes 0 (take 8 (p.sha256 key)) % count

  -- `commit` to the shard that the caller pins or that the event is routed to.
  unfoldable pub commit_sharded :
      (ComplianceEvent → ℕ)
      → (Text → Option Text)
      → List (Ledger B)
      → ComplianceEvent
      → Option ℕ
      → Text
      → Option (ℕ × ComplianceEvent × List (Ledger B))
  commit_sharded route retain shards event shard clock =
      let s : ℕ = elim shard [ none ↦ route event | some pinned_shard ↦ pinned_shard ] in
      elim (get_elem? shards s) [
        | none ↦ none
        | some l ↦ elim (commit p backend retain l event clock) [
          | none ↦ none
          | some (ev', l') ↦ some (s, ev', put s l' shards)
        ]
      ]

  unfoldable pub shard_roots : List (Ledger B) → List Bytes
  shard_roots shards = map (λ l. Frontier.root p.sha256 l.tree) shards

  unfoldable pub super_root : List (Ledger B) → Bytes
  unfolding shard_roots
  super_root shards = shard_super_root p.sha256 (shard_roots shards)

  unfoldable pub total_size : List (Ledger B) → ℕ
  total_size shards = sum (map (λ l. length l.leaves) shards)

  -- `snap` of `checkpoint`: the sizes of the shards as they are when `size()` is called, and the
  -- roots of the shards as they are when `root()` is.
  unfoldable pub snapshot : List (Ledger B) → List (Ledger B) → List (ℕ × Bytes)
  snapshot [] at_root = []
  snapshot (s ∷ at_size) [] = []
  snapshot (s ∷ at_size) (r ∷ at_root) =
      (length s.leaves, Frontier.root p.sha256 r.tree) ∷ snapshot at_size at_root

  -- The field `shards` of a checkpoint, in the order of its indices.
  unfoldable pub shards_field : List (ℕ × Bytes) → List (ℕ × Text)
  shards_field snap = map (λ s. (s.0, hex s.1)) snap

  -- `checkpoint`: the signed super-root, and the snapshot that travels with it.
  unfoldable pub checkpoint_sharded :
      KeySource
      → Text
      → List (Ledger B)
      → List (Ledger B)
      → Text
      → Option (Checkpoint × List (ℕ × Text))
  unfolding snapshot shards_field
  checkpoint_sharded key origin at_size at_root timestamp =
      let snap = snapshot at_size at_root in
      Option.map (λ cp. (cp, shards_field snap))
        (sign_checkpoint p key origin (sum (map (λ s. s.0) snap))
          (hex (shard_super_root p.sha256 (map (λ s. s.1) snap))) timestamp)

  -- `[bytes.fromhex(meta[i]["root"]) for i in range(count)]`
  unfoldable pub pinned_roots : ℕ → List (ℕ × Text) → Option (List Bytes)
  pinned_roots zero snap = some []
  pinned_roots (suc count) [] = none
  pinned_roots (suc count) ((size, root) ∷ snap) = do
    r ← fromhex root
    rs ← pinned_roots count snap
    some (r ∷ rs)

  -- `shard_size`: pinned, or that of the shard now.
  abbrev shard_size_of : List (Ledger B) → ℕ → Option (List (ℕ × Text)) → Option ℕ
  shard_size_of shards shard (some snap) = Option.map (λ s. s.0) (get_elem? snap shard)
  shard_size_of shards shard none = Option.map (λ l. length l.leaves) (get_elem? shards shard)

  abbrev roots_of : List (Ledger B) → Option (List (ℕ × Text)) → Option (List Bytes)
  roots_of shards (some snap) = pinned_roots (length shards) snap
  roots_of shards none = some (shard_roots shards)

  -- `sharded_inclusion_proof`, with the field `shards` of the checkpoint, if one is given.
  unfoldable pub sharded_inclusion_proof :
      List (Ledger B) → ℕ → ℕ → Option (List (ℕ × Text)) → Option ShardedProof
  unfolding inclusion_proof_hex pinned_roots shard_roots
  sharded_inclusion_proof shards shard index checkpoint = do
    roots ← roots_of shards checkpoint
    size ← shard_size_of shards shard checkpoint
    root ← get_elem? roots shard
    l ← get_elem? shards shard
    path ← inclusion_proof_hex p backend l index (some size)
    super ← shard_super_proof p.sha256 roots shard
    some (record {
      shard_index = shard;
      num_shards = length shards;
      leaf_index = index;
      shard_size = size;
      shard_root = hex root;
      shard_proof = path;
      super_proof = map hex super;
    })

  -- The roots are read back from the snapshot of as many shards.
  pinned_roots-snapshot :
      (count : ℕ) (at_size at_root : List (Ledger B))
      → count ≡ length at_root
      → length at_size ≡ length at_root
      → All (All IsByte) (shard_roots at_root)
      → pinned_roots count (shards_field (snapshot at_size at_root)) ≡ some (shard_roots at_root)
  unfolding pinned_roots snapshot shards_field shard_roots
  pinned_roots-snapshot zero at_size [] e same h = refl
  pinned_roots-snapshot zero at_size (r ∷ at_root) e same h = absurd (omega (arith, e))
  pinned_roots-snapshot (suc count) at_size [] e same h = absurd (omega (arith, e))
  pinned_roots-snapshot (suc count) [] (r ∷ at_root) e same h = absurd (omega (arith, same))
  pinned_roots-snapshot (suc count) (s ∷ at_size) (r ∷ at_root) e same h =
      rw
        (
          fromhex-hex (Frontier.root p.sha256 r.tree) h.0,
          pinned_roots-snapshot count at_size at_root (omega (arith, e)) (omega (arith, same)) h.1,
        )
        refl

  snapshot_size :
      (at_size at_root : List (Ledger B)) (i : ℕ) (l r : Ledger B)
      → get_elem? at_size i ≡ some l
      → get_elem? at_root i ≡ some r
      → Option.map (λ s. s.0) (get_elem? (shards_field (snapshot at_size at_root)) i)
        ≡ some (length l.leaves)
  unfolding snapshot shards_field
  snapshot_size [] at_root i l r at at' = absurd (none-ne-some _ at)
  snapshot_size (s ∷ at_size) [] i l r at at' = absurd (none-ne-some _ at')
  snapshot_size (s ∷ at_size) (q ∷ at_root) zero l r at at' =
      ap (λ (k : Ledger B). some (length k.leaves)) (some-injective at)
  snapshot_size (s ∷ at_size) (q ∷ at_root) (suc i) l r at at' =
      snapshot_size at_size at_root i l r at at'

  super_proof_found :
      (shards : List (Ledger B)) (i : ℕ) (l : Ledger B)
      → get_elem? shards i ≡ some l
      → (super : List Bytes) × (shard_super_proof p.sha256 (shard_roots shards) i ≡ some super)
        × (verify_inclusion p.sha256 i
              (length shards)
              (leaf_hash p.sha256 (Frontier.root p.sha256 l.tree))
              super
              (super_root shards)
            ≡ true)
  unfolding shard_super_proof super_root shard_super_root shard_roots
  super_proof_found shards i l at =
      let roots : List Bytes = map (λ q. Frontier.root p.sha256 q.tree) shards in
      let hashed : List Bytes = map (leaf_hash p.sha256) roots in
      let (super, made, accepted) = verify_inclusion-inclusion_proof p.sha256 hashed i _ (
        get_elem?-map (leaf_hash p.sha256) roots i _
          (get_elem?-map (λ (q : Ledger B). Frontier.root p.sha256 q.tree) shards i l at)) in
      let count : length hashed ≡ length shards =
        length-map (leaf_hash p.sha256) roots ∙ length-map _ shards in
      (super, made, rw count at accepted)

  module _ (retain : Text → Option Text) (hash : IsHash p.sha256)
      (lawful : IsAppendOnly backend) where
    -- Over an append-only backend, and with a hash of 32 bytes, let a checkpoint read the sizes and
    -- then the roots, which are bytes, of all shards, and let shard i be in step and the same at both
    -- reads. The
    -- other shards may change between them, and any may have grown since. Then a leaf that shard i
    -- had has a proof, of the size and root in the checkpoint, that `verify_sharded_inclusion`
    -- accepts against the super-root of the checkpoint.
    pub sharded_inclusion_proof-snapshot :
        (at_size at_root later : List (Ledger B)) (i m : ℕ) (l l'' : Ledger B) (leaf : Bytes)
        → length at_size ≡ length at_root
        → length later ≡ length at_root
        → All (All IsByte) (shard_roots at_root)
        → get_elem? at_size i ≡ some l
        → get_elem? at_root i ≡ some l
        → get_elem? later i ≡ some l''
        → InStep p backend l
        → Run p backend retain l l''
        → get_elem? l.leaves m ≡ some leaf
        → (path : List Bytes) × (super : List Bytes) × (sharded_inclusion_proof later i m
              (some (shards_field (snapshot at_size at_root)))
            ≡ some (record {
              shard_index = i;
              num_shards = length later;
              leaf_index = m;
              shard_size = length l.leaves;
              shard_root = hex (Frontier.root p.sha256 l.tree);
              shard_proof = map hex path;
              super_proof = map hex super;
            }))
          × (verify_sharded_inclusion p.sha256 leaf m
                (length l.leaves)
                path
                (Frontier.root p.sha256 l.tree)
                i
                (length later)
                super
                (super_root at_root)
              ≡ true)
    sharded_inclusion_proof-snapshot at_size at_root later i m l l'' leaf sizes count bytes at at'
          at_later inv run here =
        let (path, made, accepted) =
          inclusion_proof_hex-Run p backend retain hash lawful l l'' m leaf inv run here in
        let (super, super_made, super_accepted) = super_proof_found at_root i l at' in
        let roots = pinned_roots-snapshot (length later) at_size at_root count sizes bytes in
        let size = snapshot_size at_size at_root i l l at at' in
        let root : get_elem? (shard_roots at_root) i ≡ some (Frontier.root p.sha256 l.tree) =
          unfold shard_roots in
          get_elem?-map (λ (q : Ledger B). Frontier.root p.sha256 q.tree) at_root i l at' in
        (
          path,
          super,
          unfold sharded_inclusion_proof in
              rw (sharded_inclusion_proof, roots, size, root, at_later, made, super_made) refl,
          unfold verify_sharded_inclusion in rw (accepted, count) super_accepted,
        )
