-- ===== src/Crosswalk/Reports.antt =====
-- What `evaluate` of src/openwright/crosswalk.py reports of a control.
use openwright.Canonical.{Value}
use openwright.Crosswalk.Counts.{is_gap_marker}
use openwright.Ledger.{ComplianceEvent}
use openwright.Crosswalk.Status.{Distinct, All-both, passing-holds, Distinct-filter}
use openwright.Crosswalk.Schema.{Control, ControlResult, ControlStatus, status_of, Crosswalk}
use openwright.Crosswalk.Evaluate.{
  control_result, scoped_result, passing, status_with, violators_of, control_results, among,
  in_scope, is_not_satisfied, override, sensitive_ids, completed, evaluate, gap_ids_of,
  finished_results, evaluate-finished_results,
}
use openwright.Crosswalk.{Entry, holds, ComplianceEvent, entries_from, matches, Value}
use openwright.Common.{
  bytes_eq, ℕ, zero, suc, ◌≡◌, refl, sym, ◌∙◌, subst, ◌≢◌, ◌⊎◌, inl, inr, Bool, true, false, not,
  ◌&&◌, some, List, [], ◌∷◌, arith, Bool-cases, Option-cases, some-injective, get_elem?, All, any,
  filter, get_elem?-map-cases, bytes_eq_refl, Text,
}

filter_empty {ℓ} :
    {A : Type ℓ} (f : A → Bool) (xs : List A) → filter f xs ≡ [] → All (λ x. f x ≡ false) xs
filter_empty f [] h = tt
filter_empty f (x ∷ xs) h = elim (Bool-cases (f x)) [
  | inl kept ↦ absurd (let bad : (x ∷ filter f xs) ≡ [] = rw kept at h in cc)
  | inr gone ↦ (gone, filter_empty f xs (rw gone at h))
]

status_with_satisfied :
    (violators : List Entry) → status_with violators ≡ ControlStatus.satisfied → violators ≡ []
status_with_satisfied [] h = refl
status_with_satisfied (v ∷ vs) h = cc

status_with_sufficient :
    (violators : List Entry) → status_with violators ≢ ControlStatus.insufficient_evidence
status_with_sufficient [] h = cc
status_with_sufficient (v ∷ vs) h = cc

-- No violators: every event of the scope is among the passing ones.
violators_none :
    (scoped passed : List Entry)
    → violators_of scoped passed ≡ []
    → All (λ e. among e passed ≡ true) scoped
violators_none scoped passed h =
    let outside = filter_empty (λ e. not (among e passed)) scoped h in
    All-both (λ e. not (among e passed) ≡ false) (λ e. not (among e passed) ≡ false)
      (λ e. among e passed ≡ true) scoped (λ e x y. ground (arith, x)) outside outside

-- What the result of a control says of the events of its scope.
pub record Says (events : List Entry) (ctrl : Control) (scoped : List Entry) (r : ControlResult)
    : Type 0 where
  pub named : r.control_id ≡ ctrl.id
  pub satisfied :
      r.status ≡ ControlStatus.satisfied
      → ((scoped ≡ []) × (status_of ctrl.empty_scope ≡ ControlStatus.satisfied))
        ⊎ All (λ e. holds events e ctrl.condition ≡ some true) scoped
  pub insufficient : r.status ≡ ControlStatus.insufficient_evidence → scoped ≡ []

scoped_result-Says :
    (events : List Entry) (ctrl : Control) (scoped passed : List Entry)
    → passing events ctrl.condition scoped ≡ some passed
    → Distinct scoped
    → Says events ctrl scoped (scoped_result ctrl scoped passed)
unfolding scoped_result
scoped_result-Says events ctrl scoped passed h d = record {
  named = refl;
  satisfied = λ good. inr (
      All-both (λ e. among e passed ≡ true)
        (λ e. among e passed ≡ true → holds events e ctrl.condition ≡ some true)
        (λ e. holds events e ctrl.condition ≡ some true) scoped (λ e found then. then found)
        (violators_none scoped passed (status_with_satisfied _ good))
        (passing-holds events ctrl.condition scoped passed h d));
  insufficient = λ bad. absurd (status_with_sufficient _ bad);
}

control_result-Says :
    (events : List Entry) (ctrl : Control) (scoped : List Entry) (r : ControlResult)
    → control_result events ctrl scoped ≡ some r
    → Distinct scoped
    → Says events ctrl scoped r
unfolding control_result
control_result-Says events ctrl [] r h d =
    subst (Says events ctrl []) (some-injective h)
      (record { named = refl; satisfied = λ good. inl (refl, good); insufficient = λ _. refl })
control_result-Says events ctrl (e ∷ es) r h d =
    elim (Option-cases (passing events ctrl.condition (e ∷ es))) [
      | inl raised ↦ ground arith
      | inr (passed, done) ↦
          subst (Says events ctrl (e ∷ es))
            (some-injective (sym (rw (control_result, done) refl) ∙ h))
            (scoped_result-Says events ctrl (e ∷ es) passed done d)
    ]

pub control_results-cons :
    (events : List Entry) (c : Control) (cs : List Control) (rs : List ControlResult)
    → control_results events (c ∷ cs) ≡ some rs
    → (q : ControlResult) × (qs : List ControlResult) × (control_result events c (in_scope events c)
        ≡ some q)
      × (control_results events cs ≡ some qs)
      × ((q ∷ qs) ≡ rs)
unfolding control_results
control_results-cons events c cs rs h =
    elim (Option-cases (control_result events c (in_scope events c))) [
      | inl raised ↦ ground arith
      | inr (q, done) ↦ elim (Option-cases (control_results events cs)) [
        | inl raised ↦ ground arith
        | inr (qs, rest) ↦
            (q, qs, done, rest, some-injective (sym (rw (control_results, done, rest) refl) ∙ h))
      ]
    ]

-- The results stand in the order of the controls.
control_results_at :
    (events : List Entry) (controls : List Control) (rs : List ControlResult) (i : ℕ)
    (r : ControlResult)
    → control_results events controls ≡ some rs
    → get_elem? rs i ≡ some r
    → (ctrl : Control) × (get_elem? controls i ≡ some ctrl)
      × (control_result events ctrl (in_scope events ctrl) ≡ some r)
control_results_at events [] rs i r h at =
    let none_left : [] ≡ rs = some-injective (unfold control_results in h) in
    let bad : get_elem? {A = ControlResult} [] i ≡ some r = rw (← none_left) at at in cc
control_results_at events (c ∷ cs) rs zero r h at =
    let (q, qs, done, rest, made) = control_results-cons events c cs rs h in
    let at' : get_elem? (q ∷ qs) 0 ≡ some r = rw (← made) at at in (c, refl, done ∙ at')
control_results_at events (c ∷ cs) rs (suc i) r h at =
    let (q, qs, done, rest, made) = control_results-cons events c cs rs h in
    let at' : get_elem? (q ∷ qs) (suc i) ≡ some r = rw (← made) at at in
    control_results_at events cs qs i r rest at'

is_not_satisfied_lem :
    (s : ControlStatus) → is_not_satisfied s ≡ true → s ≡ ControlStatus.not_satisfied
is_not_satisfied_lem ControlStatus.not_satisfied h = refl
is_not_satisfied_lem ControlStatus.satisfied h = cc
is_not_satisfied_lem ControlStatus.insufficient_evidence h = cc

override-Says :
    (events : List Entry) (ctrl : Control) (scoped : List Entry) (r : ControlResult)
    (sensitive gap_ids : List Text)
    → Says events ctrl scoped r
    → Says events ctrl scoped (override sensitive gap_ids r)
unfolding override
override-Says events ctrl scoped r sensitive gap_ids says =
    elim (Bool-cases (any (bytes_eq r.control_id) sensitive && not (is_not_satisfied r.status))) [
      | inl forced ↦
          rw forced
            (record { named = says.named; satisfied = λ good. cc; insufficient = λ bad. cc })
      | inr left ↦ rw left says
    ]

override_forces :
    (sensitive gap_ids : List Text) (r : ControlResult)
    → any (bytes_eq r.control_id) sensitive ≡ true
    → (override sensitive gap_ids r).status ≡ ControlStatus.not_satisfied
unfolding override
override_forces sensitive gap_ids r found = elim (Bool-cases (is_not_satisfied r.status)) [
  | inl already ↦ rw (found, already) (is_not_satisfied_lem r.status already)
  | inr other ↦ rw (found, other) refl
]

sensitive_found :
    (controls : List Control) (i : ℕ) (ctrl : Control)
    → get_elem? controls i ≡ some ctrl
    → ctrl.completeness_sensitive ≡ true
    → any (bytes_eq ctrl.id) (sensitive_ids controls) ≡ true
sensitive_found [] i ctrl at s = cc
sensitive_found (c ∷ cs) zero ctrl at s =
    let same : c ≡ ctrl = some-injective at in
    subst (λ (d : Control). any (bytes_eq ctrl.id) (sensitive_ids (d ∷ cs)) ≡ true) (sym same)
      (rw (s, bytes_eq_refl ctrl.id) refl)
sensitive_found (c ∷ cs) (suc i) ctrl at s =
    let later = sensitive_found cs i ctrl at s in
    elim (Bool-cases c.completeness_sensitive) [
      | inl yes_too ↦ rw yes_too (ground (arith, later))
      | inr not_this ↦ rw not_this later
    ]

-- What is said of a control when the snapshot has evidence-gap markers.
completed_at :
    (markers : List Entry) (controls : List Control) (rs : List ControlResult) (i : ℕ)
    (r : ControlResult)
    → get_elem? (completed markers controls rs) i ≡ some r
    → (r0 : ControlResult) × (get_elem? rs i ≡ some r0)
      × (((markers ≡ []) × (r ≡ r0))
          ⊎ (r ≡ override (sensitive_ids controls) (gap_ids_of markers) r0))
unfolding completed
completed_at [] controls rs i r at = (r, at, inl (refl, refl))
completed_at (g ∷ gs) controls rs i r at =
    let (r0, at0, made) =
      get_elem?-map-cases (override (sensitive_ids controls) (gap_ids_of (g ∷ gs))) rs i r at in
    (r0, at0, inr made)

concluded :
    (controls : List Control) (i : ℕ) (ctrl : Control) (dicts markers : List Entry)
    (r0 r : ControlResult)
    → get_elem? controls i ≡ some ctrl
    → Says dicts ctrl (in_scope dicts ctrl) r0
    → ((markers ≡ []) × (r ≡ r0)) ⊎ (r ≡ override (sensitive_ids controls) (gap_ids_of markers) r0)
    → Says dicts ctrl (in_scope dicts ctrl) r
      × (markers ≢ [] → ctrl.completeness_sensitive ≡ true → r.status ≡ ControlStatus.not_satisfied)
concluded controls i ctrl dicts markers r0 r at says (inl (no_markers, same)) = (
  subst (Says dicts ctrl (in_scope dicts ctrl)) (sym same) says,
  λ some_marker. absurd (some_marker no_markers),
)
concluded controls i ctrl dicts markers r0 r at says (inr same) = (
  subst (Says dicts ctrl (in_scope dicts ctrl)) (sym same) (
      override-Says dicts ctrl (in_scope dicts ctrl) r0 (sensitive_ids controls)
        (gap_ids_of markers) says),
  λ some_marker sensitive. rw same (
      override_forces (sensitive_ids controls) (gap_ids_of markers) r0
        (rw (says.named) (sensitive_found controls i ctrl at sensitive))),
)

-- When `evaluate` returns, and no two of the events have equal dumps, the result at each position
-- is that of the control there. It is satisfied only if every event in the control's scope
-- satisfies its condition (or the scope is empty and the control takes that as satisfied), it is
-- insufficient evidence only if the scope is empty, and when an event of the log is an evidence-gap
-- marker the result of a completeness-sensitive control is not satisfied.
pub evaluate_lem :
    (dump_crosswalk : Crosswalk → Value) (crosswalk : Crosswalk) (events : List ComplianceEvent)
    (rs : List ControlResult) (i : ℕ) (r : ControlResult)
    → evaluate dump_crosswalk crosswalk events ≡ some rs
    → get_elem? rs i ≡ some r
    → Distinct (entries_from 0 events)
    → (ctrl : Control) × (get_elem? crosswalk.controls i ≡ some ctrl)
      × Says (entries_from 0 events) ctrl (in_scope (entries_from 0 events) ctrl) r
      × (filter is_gap_marker (entries_from 0 events) ≢ []
          → ctrl.completeness_sensitive ≡ true
          → r.status ≡ ControlStatus.not_satisfied)
unfolding finished_results
evaluate_lem dump_crosswalk crosswalk events rs i r h at d =
    let h' = evaluate-finished_results dump_crosswalk crosswalk events rs h in
    elim (Option-cases (control_results (entries_from 0 events) crosswalk.controls)) [
      | inl raised ↦ ground arith
      | inr (rs0, done) ↦
          let dicts : List Entry = entries_from 0 events in
          let markers : List Entry = filter is_gap_marker dicts in
          let made : completed markers crosswalk.controls rs0 ≡ rs =
            some-injective (sym (rw (finished_results, done) refl) ∙ h') in
          let (r0, at0, how) =
            completed_at markers crosswalk.controls rs0 i r (rw (← made) at at) in
          let (ctrl, at_ctrl, from) =
            control_results_at dicts crosswalk.controls rs0 i r0 done at0 in
          let says =
            control_result-Says dicts ctrl (in_scope dicts ctrl) r0 from
              (Distinct-filter (λ e. matches e.fields ctrl.scope) dicts d) in
          let both = concluded crosswalk.controls i ctrl dicts markers r0 r at_ctrl says how in
          (ctrl, at_ctrl, both.0, both.1)
    ]
