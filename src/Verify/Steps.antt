-- ===== src/Verify/Steps.antt =====
-- What the steps of `verify_report` in src/openwright/verify.py have established when the result is
-- still valid.
use openwright.Merkle.{tree_hash}
use openwright.Verify.{VerificationResult, leaf_from_event}
use openwright.Crosswalk.Values.{eq_value, number}
use openwright.Verify.Events.{
  check_event, check_events, cited_present, check_controls, check_full_tree, Seen, included,
  surface, surfaced, stored_leaf, unhex_values, compare_tree, all_leaves,
}
use openwright.Canonical.{Value, Fields, Items}
use openwright.Signing.{Platform}
use openwright.Common.{
  bytes_eq, ℕ, ◌≡◌, refl, sym, ap, ◌∙◌, Bool, true, false, ◌&&◌, Option, none, some, List, [], ◌∷◌,
  ◌++◌, map, append-nil, append_assoc, some-injective, All, any, Bytes, bytes_eq→eq, codes,
  >>=-some, guard, >>=-elim,
}
use openwright.Dicts.{Number, read_dict, hashable, read_block, iterate, dget, dget_or}

pub and_left : (a b : Bool) → (a && b) ≡ true → a ≡ true
and_left true b h = refl
and_left false b h = cc

pub and_right : (a b : Bool) → (a && b) ≡ true → b ≡ true
and_right true b h = h
and_right false b h = cc

guard-true : (b : Bool) (u : Unit {0}) → guard b ≡ some u → b ≡ true
guard-true true u h = refl
guard-true false u h = cc

-- The event of an item hashes to the leaf that the item states, and the item's proof places that
-- leaf at its index under the root.
pub record EventHolds (p : Platform) (root : Bytes) (size : Number) (item : Value) : Type 0 where
  pub it : Fields
  pub ev : Fields
  pub leaf : Bytes
  pub hashes : List Value
  pub proof : List Bytes
  pub idx : Number
  pub is_item : read_dict item ≡ some it
  pub is_event : read_block (dget (codes "event") it) ≡ some ev
  pub recomputed : leaf_from_event p ev ≡ some leaf
  pub stored : stored_leaf (dget_or (codes "leaf_hash") (Value.str []) it) ≡ some leaf
  pub path : iterate (dget_or (codes "inclusion_proof") (Value.list Items.nil) it) ≡ some hashes
  pub unhexed : unhex_values hashes ≡ some proof
  pub placed : number (dget (codes "leaf_index") it) ≡ some idx
  pub inclusion : included p idx size leaf proof root ≡ true

-- The identifier that the loop records of an item.
unfoldable pub event_id_of : Value → Value
event_id_of item = elim (read_dict item) [
  | none ↦ Value.null
  | some it ↦ elim (read_block (dget (codes "event") it)) [
    | none ↦ Value.null
    | some ev ↦ dget (codes "event_id") ev
  ]
]

event_id_of-event :
    (item : Value) (it ev : Fields)
    → read_dict item ≡ some it
    → read_block (dget (codes "event") it) ≡ some ev
    → event_id_of item ≡ dget (codes "event_id") ev
unfolding event_id_of
event_id_of-event item it ev is_it is_ev = rw (event_id_of, is_it, is_ev) refl

-- Every identifier that a control cites is one of those present.
pub record EvidenceHolds (present : List Value) (item : Value) : Type 0 where
  pub c : Fields
  pub eids : List Value
  pub is_control : read_dict item ≡ some c
  pub cites : iterate (dget_or (codes "evidence_event_ids") (Value.list Items.nil) c) ≡ some eids
  pub present_all : All (λ eid. any (eq_value eid) present ≡ true) eids

seen_leaf_ok : {a b : Seen} → some a ≡ some b → a.leaf_ok_all ≡ b.leaf_ok_all
seen_leaf_ok h = ap (λ (s : Seen). s.leaf_ok_all) (some-injective h)

seen_ids : {a b : Seen} → some a ≡ some b → a.present_ids ≡ b.present_ids
seen_ids h = ap (λ (s : Seen). s.present_ids) (some-injective h)

seen_incl_ok : {a b : Seen} → some a ≡ some b → a.incl_ok_all ≡ b.incl_ok_all
seen_incl_ok h = ap (λ (s : Seen). s.incl_ok_all) (some-injective h)

check_event_valid :
    (p : Platform) (root : Bytes) (size : Number) (item : Value) (seen seen' : Seen)
    → check_event p root size item seen ≡ some seen'
    → seen'.leaf_ok_all ≡ true
    → seen'.incl_ok_all ≡ true
    → (seen.leaf_ok_all ≡ true)
      × (seen.incl_ok_all ≡ true)
      × EventHolds p root size item
      × (seen'.present_ids ≡ seen.present_ids ++ event_id_of item ∷ [])
unfolding check_event
check_event_valid p root size item seen seen' h leaf_ok incl_ok =
    >>=-elim (read_dict item) _ h (λ it is_it h1.
      >>=-elim (read_block (dget (codes "event") it)) _ h1 (λ ev is_ev h2.
        >>=-elim (guard (hashable (dget (codes "event_id") ev))) _ h2 (λ u ok_id h3.
          >>=-elim (leaf_from_event p ev) _ h3 (λ recomputed is_leaf h4.
            >>=-elim (stored_leaf (dget_or (codes "leaf_hash") (Value.str []) it)) _ h4
              (λ stored is_stored h5.
                >>=-elim (iterate (dget_or (codes "inclusion_proof") (Value.list Items.nil) it)) _
                  h5
                  (λ hs is_hs h6. >>=-elim (unhex_values hs) _ h6 (λ proof is_proof h7.
                    >>=-elim (number (dget (codes "leaf_index") it)) _ h7 (λ idx is_idx made.
                      let leaf_ok' : (seen.leaf_ok_all && bytes_eq recomputed stored) ≡ true =
                        seen_leaf_ok (made) ∙ leaf_ok in
                      let incl_ok' : (seen.incl_ok_all && included p idx size recomputed proof root)
                          ≡ true =
                        seen_incl_ok (made) ∙ incl_ok in
                      let same : recomputed ≡ stored =
                        bytes_eq→eq recomputed stored (and_right _ _ leaf_ok') in
                      (
                        and_left _ _ leaf_ok',
                        and_left _ _ incl_ok',
                        record {
                          it = it;
                          ev = ev;
                          leaf = recomputed;
                          hashes = hs;
                          proof = proof;
                          idx = idx;
                          is_item = is_it;
                          is_event = is_ev;
                          recomputed = is_leaf;
                          stored = is_stored ∙ ap some (sym same);
                          path = is_hs;
                          unhexed = is_proof;
                          placed = is_idx;
                          inclusion = and_right _ _ incl_ok';
                        },
                        seen_ids (sym made)
                            ∙ ap (λ v. seen.present_ids ++ v ∷ [])
                                (sym (event_id_of-event item it ev is_it is_ev)),
                      )))))))))

pub check_events_valid :
    (p : Platform) (root : Bytes) (size : Number) (items : List Value) (seen seen' : Seen)
    → check_events p root size items seen ≡ some seen'
    → seen'.leaf_ok_all ≡ true
    → seen'.incl_ok_all ≡ true
    → (seen.leaf_ok_all ≡ true)
      × (seen.incl_ok_all ≡ true)
      × All (EventHolds p root size) items
      × (seen'.present_ids ≡ seen.present_ids ++ map event_id_of items)
unfolding check_events
check_events_valid p root size [] seen seen' h leaf_ok incl_ok = (
  seen_leaf_ok h ∙ leaf_ok,
  seen_incl_ok h ∙ incl_ok,
  tt,
  seen_ids (sym h) ∙ sym (append-nil seen.present_ids),
)
check_events_valid p root size (item ∷ items) seen seen' h leaf_ok incl_ok =
    let (mid, first, rest) = >>=-some (check_event p root size item seen) _ h in
    let (leaf_mid, incl_mid, held, ids) =
      check_events_valid p root size items mid seen' rest leaf_ok incl_ok in
    let (leaf0, incl0, one, id) =
      check_event_valid p root size item seen mid first leaf_mid incl_mid in
    (
      leaf0,
      incl0,
      (one, held),
      ids
          ∙ ap (λ l. l ++ map event_id_of items) id
          ∙ append_assoc seen.present_ids (event_id_of item ∷ []) (map event_id_of items),
    )

cited_present-true :
    (present eids : List Value)
    → cited_present present eids ≡ some true
    → All (λ eid. any (eq_value eid) present ≡ true) eids
unfolding cited_present
cited_present-true present [] h = tt
cited_present-true present (eid ∷ eids) h =
    let (u, ok, h1) = >>=-some (guard (hashable eid)) _ h in
    let (rest, later, h2) = >>=-some (cited_present present eids) _ h1 in
    let both : (any (eq_value eid) present && rest) ≡ true = some-injective h2 in
    (and_left _ _ both, cited_present-true present eids (later ∙ ap some (and_right _ _ both)))

pub check_controls_valid :
    (present items : List Value) (ok ok' : Bool) (res res' : VerificationResult)
    → check_controls present items ok res ≡ some (ok', res')
    → (res'.valid ≡ res.valid) × (ok' ≡ true → (ok ≡ true) × All (EvidenceHolds present) items)
unfolding check_controls
check_controls_valid present [] ok ok' res res' h =
    let same : (ok, res) ≡ (ok', res') = some-injective h in
    (
      ap (λ (q : Bool × VerificationResult). q.1.valid) (sym same),
      λ t. (ap (λ (q : Bool × VerificationResult). q.0) same ∙ t, tt),
    )
check_controls_valid present (item ∷ items) ok ok' res res' h =
    let (c, is_c, h1) = >>=-some (read_dict item) _ h in
    let (eids, is_eids, h2) = >>=-some _ _ h1 in
    let (found, is_found, h3) = >>=-some (cited_present present eids) _ h2 in
    let (kept, then) =
      check_controls_valid present items (ok && found) ok' (surface (surfaced c) res) res' h3 in
    (
      kept,
      λ t.
          let (both, held) = then t in
          (
            and_left _ _ both,
            (
              record {
                c = c;
                eids = eids;
                is_control = is_c;
                cites = is_eids;
                present_all =
                    cited_present-true present eids (is_found ∙ ap some (and_right ok found both));
              },
              held,
            ),
          ),
    )

compare_tree_valid :
    (p : Platform) (root : Bytes) (found : Option (List Bytes)) (res : VerificationResult)
    → (compare_tree p root found res).valid ≡ true
    → (res.valid ≡ true)
      × ((ordered : List Bytes) → found ≡ some ordered → tree_hash p.sha256 ordered ≡ root)
compare_tree_valid p root none res h = (h, λ ordered e. cc)
compare_tree_valid p root (some ls) res h = (
  and_left _ _ h,
  λ ordered e.
      ap (tree_hash p.sha256) (sym (some-injective e))
      ∙ bytes_eq→eq (tree_hash p.sha256 ls) root (and_right _ _ h),
)

pub check_full_tree_valid :
    (p : Platform) (root : Bytes) (size : Number) (leaves : List (Number × Bytes))
    (res : VerificationResult)
    → (check_full_tree p root size leaves res).valid ≡ true
    → (res.valid ≡ true)
      × ((n : ℕ) (ordered : List Bytes)
          → size ≡ (true, n)
          → all_leaves n leaves ≡ some ordered
          → tree_hash p.sha256 ordered ≡ root)
unfolding check_full_tree
check_full_tree_valid p root (false, n) leaves res h = (h, λ m ordered e found. cc)
check_full_tree_valid p root (true, n) leaves res h =
    let (before, whole) = compare_tree_valid p root (all_leaves n leaves) res h in
    (
      before,
      λ m ordered e found.
          let same : n ≡ m = ap (λ (q : Number). q.1) e in whole ordered (rw same found),
    )
