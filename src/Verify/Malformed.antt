-- ===== src/Verify/Malformed.antt =====
-- Untrusted reports on which `verify_report` of src/openwright/verify.py raises.
use openwright.Crosswalk.Schema.{Crosswalk}
use openwright.Crosswalk.Values.{truthy}
use openwright.Canonical.{Value, Fields}
use openwright.Signing.{Platform}
use openwright.Verify.{
  establish_key, Platform, Value, VerificationResult, trusting, Established, truthy, start, head_of,
  key_in, check_report_signature, leaf_from_event, check, check_checkpoint, Check, refused,
  Libraries, Crosswalk,
}
use openwright.Verify.Report.{
  verify_events, verify_trusting, verify_report, verify_with, events_of, verify_headed,
}
use openwright.Verify.Events.{check_event, check_events, Seen, stored_leaf, nothing_seen}
use openwright.Common.{
  bytes_eq, ◌≡◌, refl, sym, ap, ◌∙◌, inl, inr, Bool, false, Option, none, some, List, [], ◌∷◌,
  if◌then◌else◌, Bool-cases, Option-cases, some-injective, Bytes, Text, codes, guard, >>=-none,
}
use openwright.Dicts.{Number, read_dict, iterate, read_block, dget, dget_or, hashable}

check_event_raises :
    (p : Platform) (root : Bytes) (size : Number) (item : Value) (seen : Seen) (it : Fields)
    → read_dict item ≡ some it
    → stored_leaf (dget_or (codes "leaf_hash") (Value.str []) it) ≡ none
    → check_event p root size item seen ≡ none
unfolding check_event
check_event_raises p root size item seen it is_it bad = >>=-none (read_dict item) _ (λ it' is_it'.
    let same : it' ≡ it = some-injective (sym is_it' ∙ is_it) in
    >>=-none (read_block (dget (codes "event") it')) _ (λ ev is_ev.
      >>=-none (guard (hashable (dget (codes "event_id") ev))) _ (λ u ok.
        >>=-none (leaf_from_event p ev) _ (λ leaf is_leaf.
          >>=-none (stored_leaf (dget_or (codes "leaf_hash") (Value.str []) it')) _
            (λ stored is_stored.
              let gone : none ≡ some stored =
                sym bad
                ∙ ap (λ d. stored_leaf (dget_or (codes "leaf_hash") (Value.str []) d)) (sym same)
                ∙ is_stored in
              cc)))))

verify_events_raises :
    (p : Platform) (w : Libraries) (deep : Bool) (crosswalk : Option Crosswalk) (report : Fields)
    (root : Bytes) (size : Number) (res : VerificationResult) (item : Value) (items : List Value)
    (it : Fields)
    → iterate (events_of report) ≡ some (item ∷ items)
    → read_dict item ≡ some it
    → stored_leaf (dget_or (codes "leaf_hash") (Value.str []) it) ≡ none
    → verify_events p w deep crosswalk report root size res ≡ none
unfolding verify_events check_events
verify_events_raises p w deep crosswalk report root size res item items it is_items is_it bad =
    >>=-none (iterate (events_of report)) _ (λ found is_found.
      let same : found ≡ item ∷ items = some-injective (sym is_found ∙ is_items) in
      >>=-none (check_events p root size found nothing_seen) _ (λ seen looped.
        let stopped : check_events p root size (item ∷ items) nothing_seen ≡ none =
          rw (check_event_raises p root size item nothing_seen it is_it bad) refl in
        let gone : none ≡ some seen =
          sym stopped ∙ ap (λ l. check_events p root size l nothing_seen) (sym same) ∙ looped in
        cc))

establish_some :
    (pem_key : Text → Option Bytes) (key : Bytes) (embedded : Value)
    → (k : Bytes) × (res : VerificationResult) × (establish_key pem_key (some key) embedded
        ≡ trusting k res)
unfolding establish_key
establish_some pem_key key embedded = elim (Bool-cases (truthy embedded)) [
  | inr empty ↦ (key, start, rw empty refl)
  | inl full ↦ elim (Option-cases (key_in pem_key embedded)) [
    | inl unreadable ↦ (key, start, rw (full, unreadable) refl)
    | inr (k, read) ↦ (
      key,
      (if bytes_eq k key then start else check Check.embedded_key_matches_trusted false start),
      rw (full, read) refl,
    )
  ]
]

trusting_raises :
    (p : Platform) (w : Libraries) (deep : Bool) (crosswalk : Option Crosswalk) (report : Fields)
    (e : Established)
    → ((k : Bytes) × (res : VerificationResult) × (e ≡ trusting k res))
    → ((k : Bytes) (res : VerificationResult) → verify_with p w deep crosswalk k report res ≡ none)
    → verify_trusting p w deep crosswalk report e ≡ none
unfolding verify_trusting
trusting_raises p w deep crosswalk report (refused r) (k, res, h) next = cc
trusting_raises p w deep crosswalk report (trusting k res) h next = next k res

-- When a trusted key is passed in and the checkpoint's root and size can be read, a report whose
-- first event states a leaf hash that `bytes.fromhex` does not read makes `verify_report` raise,
-- whatever its signatures are: there is no result that says invalid.
pub verify_report_raises :
    (p : Platform) (w : Libraries) (deep : Bool) (crosswalk : Option Crosswalk) (report cp : Fields)
    (key : Bytes) (head : Bytes × Number) (item : Value) (items : List Value) (it : Fields)
    → read_block (dget (codes "checkpoint") report) ≡ some cp
    → head_of cp ≡ some head
    → iterate (events_of report) ≡ some (item ∷ items)
    → read_dict item ≡ some it
    → stored_leaf (dget_or (codes "leaf_hash") (Value.str []) it) ≡ none
    → verify_report p w deep crosswalk report (some key) ≡ none
unfolding verify_report verify_with
verify_report_raises p w deep crosswalk report cp key (root, size) item items it is_cp head is_items
      is_it bad =
    trusting_raises p w deep crosswalk report
      (establish_key w.pem_key (some key) (dget (codes "public_key_pem") report))
      (establish_some w.pem_key key (dget (codes "public_key_pem") report))
      (λ k res. >>=-none (check_report_signature p k report res) _ (λ signed is_signed.
        >>=-none (read_block (dget (codes "checkpoint") report)) _ (λ cp' is_cp'.
          let same : cp' ≡ cp = some-injective (sym is_cp' ∙ is_cp) in
          >>=-none (check_checkpoint p k cp' signed) _ (λ headed is_headed.
            ap (λ h. verify_headed p w deep crosswalk report h headed) (ap head_of same ∙ head)
            ∙ (unfold verify_headed in
                verify_events_raises p w deep crosswalk report root size headed item items it
                  is_items is_it bad)))))
