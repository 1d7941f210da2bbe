-- ===== src/Report/Cited.antt =====
-- The controls of a report (src/openwright/report.py) before the step of `verify_report` that looks
-- for the events that they cite.
use openwright.Verify.Events.{cited_present, check_controls, surface, surfaced}
use openwright.Crosswalk.Values.{eq_value, lookup}
use openwright.Common.{bytes_eq, ◌≡◌, refl, true, some, List, [], ◌∷◌, map, All, any, Text}
use openwright.Canonical.{Value}
use openwright.Verify.{VerificationResult}
use openwright.Report.Content.{Reported, dump_controls, dump_control}
use openwright.Dicts.{text_items, items_of, dget_or, iterate}

-- Every event that the control cites is among those with the identifiers.
abbrev pub Cites : List Text → Reported → Type 0
Cites ids c = All (λ (e : Text). any (bytes_eq e) ids ≡ true) c.result.evidence_event_ids

any-ids :
    (e : Text) (ids : List Text)
    → any (eq_value (Value.str e)) (map (λ (i : Text). Value.str i) ids) ≡ any (bytes_eq e) ids
unfolding eq_value
any-ids e [] = refl
any-ids e (i ∷ ids) = rw (any-ids e ids) refl

cited_present-ids :
    (ids es : List Text)
    → All (λ (e : Text). any (bytes_eq e) ids ≡ true) es
    → cited_present (map (λ (i : Text). Value.str i) ids) (items_of (text_items es)) ≡ some true
unfolding cited_present
cited_present-ids ids [] h = refl
cited_present-ids ids (e ∷ es) h = rw (cited_present-ids ids es h.1, any-ids e ids, h.0) refl

-- The step finds them all, and keeps the result as valid as it was.
pub check_controls-Cites :
    (ids : List Text) (cs : List Reported) (res : VerificationResult)
    → All (Cites ids) cs
    → (res' : VerificationResult) × (check_controls
          (map (λ (i : Text). Value.str i) ids)
          (items_of (dump_controls cs))
          true
          res
        ≡ some (true, res'))
      × (res'.valid ≡ res.valid)
unfolding check_controls dget_or lookup bytes_eq iterate
check_controls-Cites ids [] res h = (res, refl, refl)
check_controls-Cites ids (c ∷ cs) res h =
    let (res', rest, kept) =
      check_controls-Cites ids cs (surface (surfaced (dump_control c)) res) h.1 in
    (res', rw (cited_present-ids ids c.result.evidence_event_ids h.0) rest, kept)
