-- ===== src/Report/Rederived.antt =====
-- A report of src/openwright/report.py before the deep mode of `verify_report`, which derives its verdicts
-- again.
use openwright.Report.Content.{text_field, agent_of, item_of}
use openwright.Ledger.{inclusion_proof_hex}
use openwright.Canonical.{Value}
use openwright.Common.{
  bytes_eq, ℕ, zero, suc, ◌≡◌, refl, sym, ap, ◌∙◌, subst, inl, inr, true, false, Option, none, some,
  List, [], ◌∷◌, map, Bool-cases, some-injective, get_elem?, take, drop, All, All-get_elem?,
  drop-get_elem?, All-unmap, All-each, any, bytes_eq_refl, Text, codes, >>=-elim,
}
use openwright.Crosswalk.{dump}
use openwright.Crosswalk.Schema.{ControlResult, ControlStatus}
use openwright.Crosswalk.Values.{eq_value, lookup}
use openwright.Dicts.{dget_or, items_of}
use openwright.Ledger.{ComplianceEvent, LedgerBackend, Ledger, IsAppendOnly}
use openwright.Report.{pack, pack_from, item_of}
use openwright.Report.Content.{Packed, Reported, items_packed, dump_controls}
use openwright.Signing.{Platform}
use openwright.Verify.{Libraries}
use openwright.Verify.Deep.{recomputed_status, mismatches_of, events_in, status_text}

-- No identifier stands twice.
unfoldable pub AllDifferent : List Text → Type 0
AllDifferent [] = Unit
AllDifferent (i ∷ is) = (any (bytes_eq i) is ≡ false) × AllDifferent is

abbrev id_of : ControlResult → Text
id_of r = r.control_id

recomputed_status_absent :
    (id : Text) (found : Option ControlStatus) (rs : List ControlResult)
    → any (bytes_eq id) (map id_of rs) ≡ false
    → recomputed_status (Value.str id) found rs ≡ found
unfolding recomputed_status eq_value
recomputed_status_absent id found [] h = refl
recomputed_status_absent id found (r ∷ rs) h = elim (Bool-cases (bytes_eq id r.control_id)) [
  | inl same ↦ let bad : true ≡ false = rw same at h in cc
  | inr other ↦ rw other (recomputed_status_absent id found rs (rw other at h))
]

recomputed_status_at :
    (rs : List ControlResult) (found : Option ControlStatus) (i : ℕ) (r : ControlResult)
    → get_elem? rs i ≡ some r
    → AllDifferent (map id_of rs)
    → recomputed_status (Value.str r.control_id) found rs ≡ some r.status
unfolding recomputed_status eq_value AllDifferent
recomputed_status_at [] found i r h d = cc
recomputed_status_at (q ∷ rs) found zero r h d =
    subst
      (λ (x : ControlResult).
        recomputed_status (Value.str x.control_id) found (q ∷ rs) ≡ some x.status)
      (some-injective h)
      (rw (bytes_eq_refl q.control_id)
        (recomputed_status_absent q.control_id (some q.status) rs d.0))
recomputed_status_at (q ∷ rs) found (suc i) r h d = recomputed_status_at rs _ i r h d.1

mismatches_none :
    (rs : List ControlResult) (cs : List Reported)
    → All
        (λ (c : Reported).
          recomputed_status (Value.str c.result.control_id) none rs ≡ some c.result.status)
        cs
    → mismatches_of rs (items_of (dump_controls cs)) ≡ some []
unfolding mismatches_of dget_or lookup bytes_eq eq_value
mismatches_none rs [] h = refl
mismatches_none rs (c ∷ cs) h =
    rw (mismatches_none rs cs h.1, h.0, bytes_eq_refl (status_text c.result.status)) refl

-- The verdicts of the report are those that the deep mode derives.
pub mismatches_of_same :
    (cs : List Reported)
    → AllDifferent (map id_of (map (λ (c : Reported). c.result) cs))
    → mismatches_of (map (λ (c : Reported). c.result) cs) (items_of (dump_controls cs)) ≡ some []
mismatches_of_same cs d =
    let rs = map (λ (c : Reported). c.result) cs in
    let each =
      λ (r : ControlResult). recomputed_status (Value.str r.control_id) none rs ≡ some r.status in
    mismatches_none rs cs (
      All-unmap each (λ (c : Reported). c.result) cs
        (All-each each rs (λ i r h. recomputed_status_at rs none i r h d)))

module _ (p : Platform) (w : Libraries) {B : Type 0} (backend : LedgerBackend B) (l : Ledger B)
    (n : ℕ) (lawful : IsAppendOnly backend)
    (read_back : All
      (λ (r : ComplianceEvent). w.validate (dump r) ≡ some r)
      (backend.iter_records l.store)) where
  pack_item :
      (i : ℕ) (q : Packed)
      → pack p backend l n i ≡ some q
      → (ev : ComplianceEvent) × (path : List Text) × (get_elem? (backend.iter_records l.store) i
          ≡ some ev)
        × (q.item ≡ item_of ev i path)
  unfolding pack
  pack_item i q h = >>=-elim (backend.get_record l.store i) _ h (λ ev got h1.
      >>=-elim (text_field (codes "timestamp") ev.body) _ h1 (λ time timed h2.
        >>=-elim (agent_of ev.body) _ h2 (λ agent acted h3.
          >>=-elim (inclusion_proof_hex p backend l i (some n)) _ h3 (λ path proved h4. (
            ev,
            path,
            sym (lawful.found l.store i) ∙ got,
            sym (ap (λ (x : Packed). x.item) (some-injective h4)),
          )))))

  -- The events that the deep mode reads are the packed ones.
  pub events_in-pack_from :
      (k i : ℕ) (qs : List Packed)
      → pack_from p backend l n i k ≡ some qs
      → events_in p w (items_of (items_packed qs))
        ≡ some (take k (drop i (backend.iter_records l.store)))
  unfolding events_in pack_from dget_or lookup bytes_eq
  events_in-pack_from zero i qs h =
      subst (λ (xs : List Packed). events_in p w (items_of (items_packed xs)) ≡ some [])
        (some-injective h) refl
  events_in-pack_from (suc k) i qs h = >>=-elim (pack p backend l n i) _ h (λ q packed h1.
      >>=-elim (pack_from p backend l n (suc i) k) _ h1 (λ rest more h2.
        let (ev, path, at, item) = pack_item i q packed in
        let read =
          All-get_elem? (λ (r : ComplianceEvent). w.validate (dump r) ≡ some r)
            (backend.iter_records l.store) i ev read_back at in
        let later = events_in-pack_from k (suc i) rest more in
        subst
          (λ (xs : List Packed).
            events_in p w (items_of (items_packed xs))
            ≡ some (take (suc k) (drop i (backend.iter_records l.store))))
          (some-injective h2)
          (rw (item, read, later, drop-get_elem? i (backend.iter_records l.store) ev at) refl)))
