-- ===== src/Report/Loop.antt =====
-- The loops of `build_report` (src/openwright/report.py) and of `verify_report` over the events.
use openwright.Report.Gaps.{evidence_gaps-more, item_of_clear}
use openwright.Report.Placed.{Placed, put_leaf-Placed}
use openwright.Dicts.{items_of}
use openwright.Common.{
  hex, ℕ, zero, suc, ◌+◌, ◌≤◌, ◌≡◌, refl, sym, ap, ◌∙◌, true, false, some, List, [], ◌∷◌, ◌++◌, map,
  append-nil, append_assoc, arith, length, take, drop, All, drop-get_elem?,
}
use openwright.Canonical.{Items, Value}
use openwright.Canonical.Clean.{has_float_items}
use openwright.Signing.{Platform}
use openwright.Ledger.{ComplianceEvent, LedgerBackend, Ledger, IsAppendOnly}
use openwright.Ledger.Records.{IsHash}
use openwright.Ledger.Invariant.{InStep}
use openwright.Merkle.{tree_hash}
use openwright.Verify.Events.{Seen, check_events, nothing_seen, leaf_at}
use openwright.Report.{pack_from}
use openwright.Report.Content.{Packed, evidence_gaps, item_of, items_packed}
use openwright.Report.Entries.{IsDump, noted, check_event-item_of}
use openwright.Report.Packing.{pack_at}

abbrev pub id_value : ComplianceEvent → Value
id_value e = Value.str e.event_id

module _ (p : Platform) {B : Type 0} (backend : LedgerBackend B) (l : Ledger B) (n : ℕ)
    (hash : IsHash p.sha256) (lawful : IsAppendOnly backend) (inv : InStep p backend l)
    (inside : n ≤ length l.leaves)
    (dumps : All (λ (r : ComplianceEvent). IsDump r.body) (backend.iter_records l.store)) where
  -- The packed events from an index on, and what the verifier has seen of them.
  pub record Looped (i k : ℕ) (seen : Seen) : Type 0 where
    pub qs : List Packed
    pub seen' : Seen
    pub gaps : Items
    pub packed : pack_from p backend l n i k ≡ some qs
    pub looped :
        check_events p
          (tree_hash p.sha256 (take n l.leaves))
          (true, n)
          (items_of (items_packed qs))
          seen
        ≡ some seen'
    pub leaf_ok : seen'.leaf_ok_all ≡ true
    pub incl_ok : seen'.incl_ok_all ≡ true
    pub placed : Placed (take n l.leaves) seen'.leaves_by_index
    pub ids :
        seen'.present_ids
        ≡ seen.present_ids ++ map id_value (take k (drop i (backend.iter_records l.store)))
    pub clear : has_float_items (items_packed qs) ≡ false
    pub gathered : evidence_gaps qs ≡ some gaps
    pub gaps_clear : has_float_items gaps ≡ false

  loop_from :
      (k i : ℕ) (seen : Seen)
      → i + k ≤ n
      → seen.leaf_ok_all ≡ true
      → seen.incl_ok_all ≡ true
      → Placed (take n l.leaves) seen.leaves_by_index
      → Looped i k seen
  unfolding pack_from check_events evidence_gaps has_float_items
  loop_from zero i seen h leaf_ok incl_ok placed = record {
    qs = [];
    seen' = seen;
    gaps = Items.nil;
    packed = refl;
    looped = refl;
    leaf_ok = leaf_ok;
    incl_ok = incl_ok;
    placed = placed;
    ids = sym (append-nil seen.present_ids);
    clear = refl;
    gathered = refl;
    gaps_clear = refl;
  }
  loop_from (suc k) i seen h leaf_ok incl_ok placed =
      let root = tree_hash p.sha256 (take n l.leaves) in
      let a = pack_at p backend l n hash lawful inv inside dumps i (omega (arith, h)) in
      let mid : Seen = noted p root n a.event i a.leaf seen in
      let rest =
        loop_from k (suc i) mid (omega (arith, h)) (rw leaf_ok refl) (rw incl_ok refl)
          (put_leaf-Placed (take n l.leaves) i a.leaf seen.leaves_by_index a.placed placed) in
      let (gaps, gathered, gaps_clear) =
        evidence_gaps-more p root n a.event i a.path a.leaf a.stands a.dumped a.dumped.time
          a.dumped.agent rest.qs rest.gaps rest.gathered rest.gaps_clear in
      record {
        qs =
            record {
              timestamp = a.dumped.time;
              agent_id = a.dumped.agent;
              item = item_of a.event i (map hex a.path);
            }
            ∷ rest.qs;
        seen' = rest.seen';
        gaps = gaps;
        packed = rw (a.packed, rest.packed) refl;
        looped =
            rw (check_event-item_of p root n a.event i a.path a.leaf seen a.stands) rest.looped;
        leaf_ok = rest.leaf_ok;
        incl_ok = rest.incl_ok;
        placed = rest.placed;
        ids =
            rest.ids
            ∙ append_assoc seen.present_ids (id_value a.event ∷ []) _
            ∙ ap (λ (rs : List ComplianceEvent). seen.present_ids ++ map id_value (take (suc k) rs))
                (sym (drop-get_elem? i (backend.iter_records l.store) a.event a.recorded));
        clear = rw (item_of_clear p root n a.event i a.path a.leaf a.stands) rest.clear;
        gathered = gathered;
        gaps_clear = gaps_clear;
      }

  -- The whole loop, from the first event on.
  pub loop_all : Looped 0 n nothing_seen
  unfolding leaf_at
  loop_all = loop_from n 0 nothing_seen (omega arith) refl refl (λ j h e. cc)
