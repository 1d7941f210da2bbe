-- ===== src/Verify/Derived.antt =====
-- What `_deep_verify` of src/openwright/verify.py has established when the result is still valid.
use openwright.Verify.Steps.{and_right, and_left}
use openwright.Crosswalk.Evaluate.{evaluate}
use openwright.Ledger.{ComplianceEvent}
use openwright.Crosswalk.Values.{eq_value}
use openwright.Dicts.{read_dict, hashable, read_block, dget, iterate, dget_or, int_of}
use openwright.Verify.Deep.{
  mismatches_of, differs, is_none, check_verdicts, deep_verify, recomputed_status, status_text,
  crosswalk_content_hash, events_in, deep_pinned, deep_with, crosswalk_for, len_of, stated_size,
  smaller,
}
use openwright.Verify.{
  Mistake, Libraries, eq_value, VerificationResult, ComplianceEvent, warn, check, Warning, Check,
}
use openwright.Signing.{Platform}
use openwright.Canonical.{Value, Fields, Items}
use openwright.Crosswalk.Schema.{ControlStatus, ControlResult, Crosswalk}
use openwright.Common.{
  ◌≡◌, refl, sym, ap, ◌∙◌, Bool, true, false, ◌&&◌, Option, none, some, List, [], ◌∷◌, arith,
  if◌then◌else◌, some-injective, All, Text, codes, guard, >>=-elim,
}

-- The status that a control of the report states is that of a result with its identifier.
pub record VerdictHolds (rs : List ControlResult) (item : Value) : Type 0 where
  pub c : Fields
  pub got : ControlStatus
  pub is_control : read_dict item ≡ some c
  pub evaluated : recomputed_status (dget (codes "control_id") c) none rs ≡ some got
  pub same_status : eq_value (Value.str (status_text got)) (dget (codes "status") c) ≡ true

-- Every reported verdict is that of `evaluate` under the crosswalk whose hash the report pins, over
-- the events in the report.
pub record VerdictsDerived (p : Platform) (w : Libraries) (crosswalk : Option Crosswalk)
    (report : Fields) : Type 0 where
  pub block : Fields
  pub cw : Crosswalk
  pub hash : Text
  pub items : List Value
  pub events : List ComplianceEvent
  pub rs : List ControlResult
  pub controls : List Value
  pub is_block : read_block (dget (codes "crosswalk") report) ≡ some block
  pub given : (c : Crosswalk) → crosswalk ≡ some c → cw ≡ c
  pub hashed : crosswalk_content_hash p w cw ≡ some hash
  pub pinned : eq_value (Value.str hash) (dget (codes "content_hash") block) ≡ true
  pub is_items : iterate (dget_or (codes "events") (Value.list Items.nil) report) ≡ some items
  pub read_events : events_in p w items ≡ some events
  pub evaluated : evaluate w.dump_crosswalk cw events ≡ some rs
  pub is_controls :
      iterate (dget_or (codes "controls") (Value.list Items.nil) report) ≡ some controls
  pub verdicts : All (VerdictHolds rs) controls

not_differs :
    (found : Option ControlStatus) (want : Value)
    → differs found want ≡ false
    → (got : ControlStatus) × (found ≡ some got)
      × (eq_value (Value.str (status_text got)) want ≡ true)
not_differs none want h = cc
not_differs (some got) want h = (got, refl, ground (arith, h))

none_when :
    (b : Bool) (m : Mistake) (rest ms : List Mistake)
    → (if b then m ∷ rest else rest) ≡ ms
    → is_none ms ≡ true
    → (b ≡ false) × (is_none rest ≡ true)
none_when true m rest ms e h = let bad : is_none (m ∷ rest) ≡ true = ap is_none e ∙ h in cc
none_when false m rest ms e h = (refl, ap is_none e ∙ h)

mismatches_none :
    (rs : List ControlResult) (items : List Value) (ms : List Mistake)
    → mismatches_of rs items ≡ some ms
    → is_none ms ≡ true
    → All (VerdictHolds rs) items
unfolding mismatches_of
mismatches_none rs [] ms h v = tt
mismatches_none rs (item ∷ items) ms h v = >>=-elim (read_dict item) _ h (λ c is_c h1.
    >>=-elim (guard (hashable (dget (codes "control_id") c))) _ h1 (λ u ok h2.
      >>=-elim (mismatches_of rs items) _ h2 (λ rest later h3.
        let (agree, clean) = none_when _ _ rest ms (some-injective h3) v in
        let (got, found, same) =
          not_differs (recomputed_status (dget (codes "control_id") c) none rs)
            (dget (codes "status") c) agree in
        (
          record { c = c; got = got; is_control = is_c; evaluated = found; same_status = same },
          mismatches_none rs items rest later clean,
        ))))

module _ (p : Platform) (w : Libraries) where
  check_verdicts_valid :
      (cw : Crosswalk) (report : Fields) (res res' : VerificationResult)
      (found : Option (List ComplianceEvent))
      → check_verdicts p w cw report res found ≡ some res'
      → res'.valid ≡ true
      → (res.valid ≡ true)
        × (events : List ComplianceEvent) × (rs : List ControlResult) × (controls : List Value)
        × (found ≡ some events)
        × (evaluate w.dump_crosswalk cw events ≡ some rs)
        × (iterate (dget_or (codes "controls") (Value.list Items.nil) report) ≡ some controls)
        × All (VerdictHolds rs) controls
  unfolding check_verdicts
  check_verdicts_valid cw report res res' none h v =
      let wrong : false ≡ true =
        and_right res.valid false
          (ap (λ (r : VerificationResult). r.valid) (some-injective h) ∙ v) in
      cc
  check_verdicts_valid cw report res res' (some events) h v =
      >>=-elim (evaluate w.dump_crosswalk cw events) _ h (λ rs is_rs h1.
        >>=-elim (iterate (dget_or (codes "controls") (Value.list Items.nil) report)) _ h1
          (λ controls is_controls h2. >>=-elim (mismatches_of rs controls) _ h2 (λ ms found h3.
            let both : (res.valid && is_none ms) ≡ true =
              ap (λ (r : VerificationResult). r.valid) (some-injective h3) ∙ v in
            (
              and_left _ _ both,
              events,
              rs,
              controls,
              refl,
              is_rs,
              is_controls,
              mismatches_none rs controls ms found (and_right _ _ both),
            ))))

  warned :
      (b : Bool) (res : VerificationResult)
      → (if b then warn Warning.deep_over_disclosed res else res).valid ≡ res.valid
  warned true res = refl
  warned false res = refl

  pinned_if :
      (b : Bool) (pin res res' : VerificationResult) (o : Option VerificationResult)
      → pin ≡ check Check.deep_verify_crosswalk_pin false res
      → (if b then o else some pin) ≡ some res'
      → res'.valid ≡ true
      → (b ≡ true) × (o ≡ some res')
  pinned_if true pin res res' o e h v = (refl, h)
  pinned_if false pin res res' o e h v =
      let wrong : false ≡ true =
        and_right res.valid false
          (ap (λ (r : VerificationResult). r.valid) (sym e ∙ some-injective h) ∙ v) in
      cc

  deep_pinned_valid :
      (cw : Crosswalk) (report : Fields) (res res' : VerificationResult)
      → deep_pinned p w cw report res ≡ some res'
      → res'.valid ≡ true
      → (res.valid ≡ true)
        × (items : List Value) × (events : List ComplianceEvent) × (rs : List ControlResult)
        × (controls : List Value) × (iterate
              (dget_or (codes "events") (Value.list Items.nil) report)
            ≡ some items)
        × (events_in p w items ≡ some events)
        × (evaluate w.dump_crosswalk cw events ≡ some rs)
        × (iterate (dget_or (codes "controls") (Value.list Items.nil) report) ≡ some controls)
        × All (VerdictHolds rs) controls
  unfolding deep_pinned
  deep_pinned_valid cw report res res' h v =
      >>=-elim (len_of (dget_or (codes "events") (Value.list Items.nil) report)) _ h (λ n is_n h1.
        >>=-elim (read_block (dget (codes "checkpoint") report)) _ h1 (λ cp is_cp h2.
          >>=-elim (int_of (stated_size p w cp n)) _ h2 (λ size is_size h3.
            >>=-elim (iterate (dget_or (codes "events") (Value.list Items.nil) report)) _ h3
              (λ items is_items h4.
                let (before, events, rs, controls, read, ran, is_controls, held) =
                  check_verdicts_valid cw report _ res' (events_in p w items) h4 v in
                (
                  sym (warned (smaller n size) res) ∙ before,
                  items,
                  events,
                  rs,
                  controls,
                  is_items,
                  read,
                  ran,
                  is_controls,
                  held,
                )))))

  deep_with_valid :
      (pinned : Value) (found : Option Crosswalk) (report : Fields) (res res' : VerificationResult)
      → deep_with p w pinned found report res ≡ some res'
      → res'.valid ≡ true
      → (cw : Crosswalk) × (hash : Text) × (found ≡ some cw)
        × (crosswalk_content_hash p w cw ≡ some hash)
        × (eq_value (Value.str hash) pinned ≡ true)
        × (deep_pinned p w cw report (check Check.deep_verify_crosswalk_pin true res) ≡ some res')
  unfolding deep_with
  deep_with_valid pinned none report res res' h v =
      let wrong : false ≡ true =
        and_right res.valid false
          (ap (λ (r : VerificationResult). r.valid) (some-injective h) ∙ v) in
      cc
  deep_with_valid pinned (some cw) report res res' h v =
      >>=-elim (crosswalk_content_hash p w cw) _ h (λ hash is_hash h1.
        let (same, h2) = pinned_if (eq_value (Value.str hash) pinned) _ res res' _ refl h1 v in
        (cw, hash, refl, is_hash, same, h2))

  crosswalk_for_given :
      (crosswalk : Option Crosswalk) (block : Fields) (cw c : Crosswalk)
      → crosswalk_for p w crosswalk block ≡ some cw
      → crosswalk ≡ some c
      → cw ≡ c
  crosswalk_for_given none block cw c h e = cc
  crosswalk_for_given (some given) block cw c h e = some-injective (sym h ∙ e)

  -- Deep mode keeps a result valid only if it was valid and every reported verdict follows from
  -- the events in the report.
  pub deep_verify_valid :
      (crosswalk : Option Crosswalk) (report : Fields) (res res' : VerificationResult)
      → deep_verify p w crosswalk report res ≡ some res'
      → res'.valid ≡ true
      → (res.valid ≡ true) × VerdictsDerived p w crosswalk report
  unfolding deep_verify
  deep_verify_valid crosswalk report res res' h v =
      >>=-elim (read_block (dget (codes "crosswalk") report)) _ h (λ block is_block h1.
        let (stated, h2) = pinned_if _ _ res res' _ refl h1 v in
        let (cw, hash, found, is_hash, same, h3) =
          deep_with_valid _ (crosswalk_for p w crosswalk block) report res res' h2 v in
        let (before, items, events, rs, controls, is_items, read, ran, is_controls, held) =
          deep_pinned_valid cw report _ res' h3 v in
        (
          and_left res.valid true before,
          record {
            block = block;
            cw = cw;
            hash = hash;
            items = items;
            events = events;
            rs = rs;
            controls = controls;
            is_block = is_block;
            given = λ c e. crosswalk_for_given crosswalk block cw c found e;
            hashed = is_hash;
            pinned = same;
            is_items = is_items;
            read_events = read;
            evaluated = ran;
            is_controls = is_controls;
            verdicts = held;
          },
        ))
