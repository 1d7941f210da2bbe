-- ===== src/Crosswalk/Evidence.antt =====
-- The events that a result of `evaluate` of src/openwright/crosswalk.py cites.
use openwright.Crosswalk.Counts.{is_gap_marker}
use openwright.Common.{
  bytes_eq, ℕ, suc, ◌≡◌, refl, sym, ◌∙◌, subst, inl, inr, true, not, ◌&&◌, some, List, [], ◌∷◌, map,
  arith, Bool-cases, Option-cases, some-injective, All, All-take, All-map, All-imp, any, filter,
  All-kept, All-filter, bytes_eq_refl, Text,
}
use openwright.Ledger.{ComplianceEvent}
use openwright.Crosswalk.{Entry, entries_from}
use openwright.Crosswalk.Reports.{control_results-cons}
use openwright.Crosswalk.{holds, matches}
use openwright.Crosswalk.Schema.{Condition, Control, Crosswalk, ControlResult}
use openwright.Crosswalk.Evaluate.{
  control_result, scoped_result, passing, control_results, in_scope, is_not_satisfied, override,
  sensitive_ids, completed, evaluate, gap_ids_of, finished_results, evaluate-finished_results,
}
use openwright.Canonical.{Fields, Value}

-- The identifier is one of those.
abbrev pub Listed : List Text → Text → Type 0
Listed ids e = any (bytes_eq e) ids ≡ true

Listed-more :
    (j : Text) (ids : List Text) (events : List ComplianceEvent)
    → All (λ (e : ComplianceEvent). Listed ids e.event_id) events
    → All (λ (e : ComplianceEvent). Listed (j ∷ ids) e.event_id) events
Listed-more j ids events =
    All-imp (λ (e : ComplianceEvent). Listed ids e.event_id)
      (λ (e : ComplianceEvent). Listed (j ∷ ids) e.event_id) events (λ e h. ground (arith, h))

entries-Listed :
    (events : List ComplianceEvent)
    → All
        (λ (e : ComplianceEvent).
          Listed (map (λ (q : ComplianceEvent). q.event_id) events) e.event_id)
        events
entries-Listed [] = tt
entries-Listed (e ∷ es) =
    (rw (bytes_eq_refl e.event_id) refl, Listed-more e.event_id _ es (entries-Listed es))

All-entries_from :
    (P : Text → Type 0) (i : ℕ) (events : List ComplianceEvent)
    → All (λ (e : ComplianceEvent). P e.event_id) events
    → All (λ (q : Entry). P q.event_id) (entries_from i events)
All-entries_from P i [] h = tt
All-entries_from P i (e ∷ es) h = (h.0, All-entries_from P (suc i) es h.1)

All-passing :
    (P : Entry → Type 0) (events : List Entry) (cond : Condition) (es ps : List Entry)
    → All P es
    → passing events cond es ≡ some ps
    → All P ps
unfolding passing
All-passing P events cond [] ps h made = subst (All P) (some-injective made) tt
All-passing P events cond (e ∷ es) ps h made = elim (Option-cases (holds events e cond)) [
  | inl raised ↦ ground arith
  | inr (b, held) ↦ elim (Option-cases (passing events cond es)) [
    | inl raised ↦ ground arith
    | inr (qs, rest) ↦
        let more = All-passing P events cond es qs h.1 rest in
        subst (All P) (some-injective (sym (rw (passing, held, rest) refl) ∙ made))
          (All-kept P b e qs h.0 more)
  ]
]

module _ (ids : List Text) (Cited : Fields → Type 0) where
  -- The result cites events with the identifiers, and its citation is as asked.
  pub record Backed (r : ControlResult) : Type 0 where
    pub events : All (Listed ids) r.evidence_event_ids
    pub citation : Cited r.citation

  control_result-Backed :
      (dicts : List Entry) (ctrl : Control) (scoped : List Entry) (r : ControlResult)
      → Cited ctrl.citation
      → All (λ (q : Entry). Listed ids q.event_id) scoped
      → control_result dicts ctrl scoped ≡ some r
      → Backed r
  unfolding control_result scoped_result
  control_result-Backed dicts ctrl [] r cited h made =
      subst Backed (some-injective made) (record { events = tt; citation = cited })
  control_result-Backed dicts ctrl (e ∷ es) r cited h made =
      elim (Option-cases (passing dicts ctrl.condition (e ∷ es))) [
        | inl raised ↦ ground arith
        | inr (ps, passed) ↦
            let held =
              All-passing (λ (q : Entry). Listed ids q.event_id) dicts ctrl.condition (e ∷ es) ps h
                passed in
            let same : scoped_result ctrl (e ∷ es) ps ≡ r =
              some-injective (sym (rw (control_result, passed) refl) ∙ made) in
            subst Backed same (record {
              events =
                  All-take (Listed ids) 50 (map (λ (q : Entry). q.event_id) ps)
                    (All-map (Listed ids) (λ (q : Entry). q.event_id) ps held);
              citation = cited;
            })
      ]

  control_results-Backed :
      (dicts : List Entry) (controls : List Control) (rs : List ControlResult)
      → All (λ (c : Control). Cited c.citation) controls
      → All (λ (q : Entry). Listed ids q.event_id) dicts
      → control_results dicts controls ≡ some rs
      → All Backed rs
  control_results-Backed dicts [] rs cited h made =
      let none_left : [] ≡ rs = some-injective (unfold control_results in made) in
      subst (All Backed) none_left tt
  control_results-Backed dicts (c ∷ cs) rs cited h made =
      let (q, qs, done, rest, same) = control_results-cons dicts c cs rs made in
      subst (All Backed) same (
        control_result-Backed dicts c (in_scope dicts c) q cited.0
            (All-filter (λ (q : Entry). Listed ids q.event_id) (λ e. matches e.fields c.scope) dicts
              h)
            done,
        control_results-Backed dicts cs qs cited.1 h rest,
      )

  override-Backed :
      (sensitive gap_ids : List Text) (r : ControlResult)
      → Backed r
      → Backed (override sensitive gap_ids r)
  unfolding override
  override-Backed sensitive gap_ids r b =
      elim (Bool-cases (any (bytes_eq r.control_id) sensitive && not (is_not_satisfied r.status))) [
        | inl forced ↦ rw forced (record { events = b.events; citation = b.citation })
        | inr left ↦ rw left b
      ]

  completed-Backed :
      (markers : List Entry) (controls : List Control) (rs : List ControlResult)
      → All Backed rs
      → All Backed (completed markers controls rs)
  unfolding completed
  completed-Backed [] controls rs h = h
  completed-Backed (g ∷ gs) controls rs h =
      let changed = override (sensitive_ids controls) (gap_ids_of (g ∷ gs)) in
      All-map Backed changed rs (
        All-imp Backed (λ (r : ControlResult). Backed (changed r)) rs
          (override-Backed (sensitive_ids controls) (gap_ids_of (g ∷ gs))) h)

-- What `evaluate` returns cites events that it was given, and nothing but the controls' citations.
pub evaluate-Backed :
    (Cited : Fields → Type 0) (dump_crosswalk : Crosswalk → Value) (crosswalk : Crosswalk)
    (events : List ComplianceEvent) (rs : List ControlResult)
    → All (λ (c : Control). Cited c.citation) crosswalk.controls
    → evaluate dump_crosswalk crosswalk events ≡ some rs
    → All (Backed (map (λ (q : ComplianceEvent). q.event_id) events) Cited) rs
unfolding finished_results
evaluate-Backed Cited dump_crosswalk crosswalk events rs cited h =
    let h' = evaluate-finished_results dump_crosswalk crosswalk events rs h in
    elim (Option-cases (control_results (entries_from 0 events) crosswalk.controls)) [
      | inl raised ↦ ground arith
      | inr (rs0, done) ↦
          let ids = map (λ (q : ComplianceEvent). q.event_id) events in
          let dicts : List Entry = entries_from 0 events in
          subst (All (Backed ids Cited))
            (some-injective (sym (rw (finished_results, done) refl) ∙ h'))
            (completed-Backed ids Cited (filter is_gap_marker dicts) crosswalk.controls rs0 (
              control_results-Backed ids Cited dicts crosswalk.controls rs0 cited
                (All-entries_from (Listed ids) 0 events (entries-Listed events)) done))
    ]
