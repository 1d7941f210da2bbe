-- ===== src/Ledger/Invariant.antt =====
-- `Ledger` of src/openwright/ledger.py keeps its leaves, its tree and its stored records in step.
use openwright.Common.{
  hex, ℕ, suc, ◌+◌, ◌≡◌, refl, sym, ap, ◌∙◌, subst, inl, inr, Option, some, List, [], ◌∷◌, ◌++◌,
  arith, Option-cases, some-injective, length, Bytes, Text, codes,
}
use openwright.Merkle.{leaf_hash}
use openwright.Merkle.Frontier
use openwright.Merkle.Frontier.Head.{
  Represents, append-Represents, from_leaves-Represents, root-Represents,
}
use openwright.Signing.{Platform}
use openwright.Ledger.{
  LedgerFields, ComplianceEvent, LedgerBackend, IsAppendOnly, Ledger, leaf_content_bytes,
  all_leaf_bytes, stamped, open_ledger, commit, root_hex, commit_leaf, finalize_id,
}
use openwright.Ledger.Records.{IsHash, leaf_bytes-stamped, all_leaf_bytes-append}

module _ (p : Platform) where
  -- The leaf hash of a record is that of its own content, and its index is its position.
  abbrev pub IsAttested : ℕ → ComplianceEvent → Type 0
  IsAttested i r =
      (content : Bytes) × (fields : LedgerFields) × (leaf_content_bytes p r ≡ some content)
      × (r.ledger ≡ some fields)
      × (fields.leaf_hash ≡ codes "sha256:" ++ hex (leaf_hash p.sha256 content))
      × (fields.leaf_index ≡ i)

  abbrev pub AttestedFrom : ℕ → List ComplianceEvent → Type 0
  AttestedFrom i [] = Unit
  AttestedFrom i (r ∷ rs) = IsAttested i r × AttestedFrom (suc i) rs

  AttestedFrom-append :
      (i : ℕ) (rs : List ComplianceEvent) (r : ComplianceEvent)
      → AttestedFrom i rs
      → IsAttested (i + length rs) r
      → AttestedFrom i (rs ++ r ∷ [])
  AttestedFrom-append i [] r a b =
      let e : i + 0 ≡ i = omega arith in (subst (λ (k : ℕ). IsAttested k r) e b, tt)
  AttestedFrom-append i (q ∷ rs) r a b =
      let e : i + suc (length rs) ≡ suc i + length rs = omega arith in
      (a.0, AttestedFrom-append (suc i) rs r a.1 (subst (λ (k : ℕ). IsAttested k r) e b))

  module _ {B : Type 0} (backend : LedgerBackend B) where
    -- The leaves in memory are those of the stored records, the tree stands for them, and every
    -- record is attested.
    pub record InStep (l : Ledger B) : Type 0 where
      pub stored : all_leaf_bytes (backend.iter_records l.store) ≡ some l.leaves
      pub represents : Represents p.sha256 l.tree l.leaves
      pub attested : AttestedFrom 0 (backend.iter_records l.store)

    -- What a commit that returns has done.
    pub record Commits (l : Ledger B) (ev' : ComplianceEvent) (l' : Ledger B) (content : Bytes)
        : Type 0 where
      pub appended : backend.iter_records l'.store ≡ backend.iter_records l.store ++ ev' ∷ []
      pub leaf_content : leaf_content_bytes p ev' ≡ some content
      pub grown : l'.leaves ≡ l.leaves ++ leaf_hash p.sha256 content ∷ []
      pub in_step : InStep l'

    -- Opening an empty store gives a log in step.
    pub open_ledger_empty :
        (b : B) (l : Ledger B)
        → backend.iter_records b ≡ []
        → open_ledger p backend b ≡ some l
        → InStep l
    unfolding open_ledger all_leaf_bytes
    open_ledger_empty b l none_yet opened =
        let t = Frontier.from_leaves p.sha256 [] in
        let l0 : Ledger B = record { store = b; leaves = []; tree = t } in
        let same : l0 ≡ l = some-injective (sym (rw (open_ledger, none_yet) refl) ∙ opened) in
        subst InStep same (record {
          stored = rw none_yet refl;
          represents = from_leaves-Represents p.sha256 [];
          attested = rw none_yet tt;
        })

    -- Opening the store of a log in step gives a log in step with the same leaves and root.
    pub open_ledger-InStep :
        (l : Ledger B)
        → InStep l
        → (l' : Ledger B) × (open_ledger p backend l.store ≡ some l')
          × (l'.store ≡ l.store)
          × (l'.leaves ≡ l.leaves)
          × (root_hex p backend l' ≡ root_hex p backend l)
          × InStep l'
    unfolding open_ledger root_hex
    open_ledger-InStep l inv =
        let t = Frontier.from_leaves p.sha256 l.leaves in
        let r = from_leaves-Represents p.sha256 l.leaves in
        let l' : Ledger B = record { store = l.store; leaves = l.leaves; tree = t } in
        (
          l',
          rw (inv.stored) refl,
          refl,
          refl,
          ap hex (
              root-Represents p.sha256 t l.leaves r
              ∙ sym (root-Represents p.sha256 l.tree l.leaves inv.represents)),
          record { stored = inv.stored; represents = r; attested = inv.attested },
        )

    module _ (hash : IsHash p.sha256) (lawful : IsAppendOnly backend) where
      commit_leaf-InStep :
          (l : Ledger B) (ev : ComplianceEvent) (content : Bytes) (at : Text) (until : Option Text)
          (b : B)
          → InStep l
          → leaf_content_bytes p ev ≡ some content
          → backend.append_record l.store
              (stamped p backend ev (leaf_hash p.sha256 content) (backend.size l.store) at until)
            ≡ some b
          → Commits l
              (stamped p backend ev (leaf_hash p.sha256 content) (backend.size l.store) at until)
              (record {
                store = b;
                leaves = l.leaves ++ leaf_hash p.sha256 content ∷ [];
                tree = Frontier.append p.sha256 l.tree (leaf_hash p.sha256 content);
              })
              content
      unfolding stamped leaf_content_bytes leaf_hash
      commit_leaf-InStep l ev content at until b inv made done =
          let h : Bytes = leaf_hash p.sha256 content in
          let ev' : ComplianceEvent = stamped p backend ev h (backend.size l.store) at until in
          let more = lawful.appended l.store ev' b done in
          record {
            appended = more;
            leaf_content = made;
            grown = refl;
            in_step = record {
              stored = rw more (
                  all_leaf_bytes-append (backend.iter_records l.store) l.leaves ev' h inv.stored (
                    leaf_bytes-stamped p backend ev h (backend.size l.store) at until
                      (hash.bytes (0x00 ∷ content))));
              represents = append-Represents p.sha256 l.tree l.leaves h inv.represents;
              attested = rw more (
                  AttestedFrom-append 0 (backend.iter_records l.store) ev' inv.attested
                    (content, _, made, refl, refl, omega (arith, lawful.sized l.store)));
            };
          }

      commit_leaf_done :
          (l : Ledger B) (ev : ComplianceEvent) (content : Bytes) (at : Text) (until : Option Text)
          (ev' : ComplianceEvent) (l' : Ledger B)
          → InStep l
          → leaf_content_bytes p ev ≡ some content
          → commit_leaf p backend l ev content at until ≡ some (ev', l')
          → Commits l ev' l' content
      unfolding commit_leaf
      commit_leaf_done l ev content at until ev' l' inv made h =
          let leaf : Bytes = leaf_hash p.sha256 content in
          let r : ComplianceEvent = stamped p backend ev leaf (backend.size l.store) at until in
          elim (Option-cases (backend.append_record l.store r)) [
            | inl bad ↦ ground arith
            | inr (b, done) ↦
                let after : Ledger B = record {
                  store = b;
                  leaves = l.leaves ++ leaf ∷ [];
                  tree = Frontier.append p.sha256 l.tree leaf;
                } in
                let same : (r, after) ≡ (ev', l') =
                  some-injective (sym (rw (commit_leaf, done) refl) ∙ h) in
                subst (λ (q : ComplianceEvent × Ledger B). Commits l q.0 q.1 content) same
                  (commit_leaf-InStep l ev content at until b inv made done)
          ]

      -- Over an append-only backend, a commit to a log in step that returns has appended one record
      -- and the hash of its content as one leaf, and has kept the log in step.
      pub commit-InStep :
          (retain : Text → Option Text) (l : Ledger B) (event : ComplianceEvent) (clock : Text)
          (ev' : ComplianceEvent) (l' : Ledger B)
          → InStep l
          → commit p backend retain l event clock ≡ some (ev', l')
          → (content : Bytes) × Commits l ev' l' content
      unfolding commit
      commit-InStep retain l event clock ev' l' inv h = elim (Option-cases (finalize_id p event)) [
        | inl bad ↦ ground arith
        | inr (ev, good) ↦ elim (Option-cases (leaf_content_bytes p ev)) [
          | inl bad ↦ ground arith
          | inr (content, made) ↦ (
            content,
            commit_leaf_done l ev content clock (retain clock) ev' l' inv made
                (sym (rw (commit, good, made) refl) ∙ h),
          )
        ]
      ]
