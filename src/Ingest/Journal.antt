-- ===== src/Ingest/Journal.antt =====
-- `DropJournal` of src/openwright/ingest/durable.py under the pipeline of pipeline.py: the file
-- holds the pending drops at every moment, so that a restart recovers them.
use openwright.Ingest.Drops.{marked, unsettled, run_attests_once}
use openwright.Ingest.Spill.{Codec, SpillBuffer}
use openwright.Ingest.Worker.{
  Action, submit_span, overflow, refill, take_item, stop, commit_with_retries, handle_event,
  handle_taken, perform, run, handle_item, overflow_to, refill_from,
}
use openwright.Common.{
  ℕ, zero, suc, ◌+◌, ◌≡◌, refl, ap, Bool, true, false, Option, none, some, List, [], ◌∷◌, arith,
  all, Text,
}
use openwright.Ingest.Pipeline.{
  Pipeline, Intent, Settings, settle, persist, drop_span, claim, attest, start, Entry, Item,
  load_intent,
}

abbrev pub has_journal : Option (Option Intent) → Bool
has_journal none = false
has_journal (some file) = true

abbrev pub recorded : Option (Option Intent) → ℕ
recorded none = 0
recorded (some none) = 0
recorded (some (some intent)) = intent.count

-- The action's write of the journal succeeds, if it has one.
abbrev pub writes : {Span : Type 0} → Action Span → Bool
writes (Action.submitted s now spilled written) = written
writes (Action.settled written) = written
writes action = true

pub record Journaled {Span Event Known : Type 0} (st : Pipeline Span Event Known) : Type 0 where
  pub present : has_journal st.journal ≡ true
  pub kept : recorded st.journal ≡ st.undeclared

module _ {Span Event Known : Type 0} (codec : Codec Span) (cfg : Settings Span Event Known) where
  settle-Journaled : (st : Pipeline Span Event Known) → Journaled st → Journaled (settle true st)
  unfolding settle persist
  settle-Journaled st a = record {
    present = ground (arith, a.present);
    kept = ground (arith, a.present, a.kept);
  }

  submit_span-Journaled :
      (s : Span) (now : Text) (spilled : Bool) (st : Pipeline Span Event Known)
      → Journaled st
      → Journaled (submit_span codec cfg s now spilled true st)
  unfolding submit_span overflow overflow_to drop_span persist
  submit_span-Journaled s now spilled st a = record {
    present = ground (arith, a.present);
    kept = ground (arith, a.present, a.kept);
  }

  claim-Journaled : (st : Pipeline Span Event Known) → Journaled st → Journaled (claim st)
  unfolding claim
  claim-Journaled st a = record {
    present = ground (arith, a.present);
    kept = ground (arith, a.kept);
  }

  attest-Journaled :
      (committed : Bool) (st : Pipeline Span Event Known)
      → Journaled st
      → Journaled (attest committed st)
  unfolding attest
  attest-Journaled committed st a = record {
    present = ground (arith, a.present);
    kept = ground (arith, a.kept);
  }

  refill-Journaled :
      (by_worker : Bool) (st : Pipeline Span Event Known)
      → Journaled st
      → Journaled (refill codec cfg by_worker st)
  unfolding refill refill_from
  refill-Journaled by_worker st a = record {
    present = ground (arith, a.present);
    kept = ground (arith, a.kept);
  }

  take_item-Journaled :
      (st : Pipeline Span Event Known) → Journaled st → Journaled (take_item codec cfg st)
  unfolding take_item
  take_item-Journaled st a = record {
    present = ground (arith, a.present);
    kept = ground (arith, a.kept);
  }

  stop-Journaled : (st : Pipeline Span Event Known) → Journaled st → Journaled (stop codec cfg st)
  unfolding stop
  stop-Journaled st a = record {
    present = ground (arith, a.present);
    kept = ground (arith, a.kept);
  }

  commit_with_retries-Journaled :
      (up : ℕ → Bool) (attempt left : ℕ) (event : Event) (st : Pipeline Span Event Known)
      → Journaled st
      → Journaled (commit_with_retries codec cfg up attempt left event st)
  unfolding commit_with_retries
  commit_with_retries-Journaled up attempt zero event st a = record {
    present = ground (arith, a.present);
    kept = ground (arith, a.kept);
  }
  commit_with_retries-Journaled up attempt (suc left) event st a =
      let later =
        commit_with_retries-Journaled up (suc attempt) left event
          (record st { retries = suc st.retries })
          (record { present = a.present; kept = a.kept }) in
      record {
        present = ground (arith, a.present, later.present);
        kept = ground (arith, a.kept, later.kept);
      }

  handle_event-Journaled :
      (up : ℕ → Bool) (found : Option (Event × Known)) (st : Pipeline Span Event Known)
      → Journaled st
      → Journaled (handle_event codec cfg up found st)
  unfolding handle_event
  handle_event-Journaled up none st a = record { present = a.present; kept = a.kept }
  handle_event-Journaled up (some (event, known)) st a =
      commit_with_retries-Journaled up 0 cfg.commit_retries event _
        (record { present = a.present; kept = a.kept })

  handle_taken-Journaled :
      (up : ℕ → Bool) (item : Option (Item Span)) (st : Pipeline Span Event Known)
      → Journaled st
      → Journaled (handle_taken codec cfg up item st)
  unfolding handle_taken
  handle_taken-Journaled up none st a = a
  handle_taken-Journaled up (some (Item.span s)) st a =
      handle_event-Journaled up (cfg.normalize st.known s) (record st { in_hand = none })
        (record { present = a.present; kept = a.kept })
  handle_taken-Journaled up (some Item.sentinel) st a = record {
    present = a.present;
    kept = a.kept;
  }

  perform-Journaled :
      (action : Action Span) (st : Pipeline Span Event Known)
      → writes action ≡ true
      → Journaled st
      → Journaled (perform codec cfg action st)
  unfolding perform handle_item
  perform-Journaled (Action.submitted s now spilled true) st ok a =
      submit_span-Journaled s now spilled st a
  perform-Journaled (Action.submitted s now spilled false) st ok a = cc
  perform-Journaled (Action.refilled by_worker) st ok a = refill-Journaled by_worker st a
  perform-Journaled Action.took st ok a = take_item-Journaled st a
  perform-Journaled (Action.handled up) st ok a = handle_taken-Journaled up st.in_hand st a
  perform-Journaled Action.claimed st ok a = claim-Journaled st a
  perform-Journaled (Action.attested committed) st ok a = attest-Journaled committed st a
  perform-Journaled (Action.settled true) st ok a = settle-Journaled st a
  perform-Journaled (Action.settled false) st ok a = cc
  perform-Journaled Action.stopped st ok a = stop-Journaled st a

  run-Journaled :
      (actions : List (Action Span)) (st : Pipeline Span Event Known)
      → all writes actions ≡ true
      → Journaled st
      → Journaled (run codec cfg actions st)
  unfolding run
  run-Journaled [] st ok a = a
  run-Journaled (action ∷ actions) st ok a =
      run-Journaled actions _ (ground (arith, ok))
        (perform-Journaled action st (ground (arith, ok)) a)

  start-recovers :
      (known : Known) (ledger : List (Entry Event)) (spill : Option SpillBuffer)
      (journal : Option (Option Intent))
      → (start {Span = Span} known ledger spill journal).undeclared ≡ recorded journal
  unfolding start load_intent
  start-recovers known ledger spill none = refl
  start-recovers known ledger spill (some none) = refl
  start-recovers known ledger spill (some (some intent)) = ground arith

  start_present :
      (known : Known) (ledger : List (Entry Event)) (spill : Option SpillBuffer)
      (file : Option Intent)
      → has_journal (start {Span = Span} known ledger spill (some file)).journal ≡ true
  unfolding start
  start_present known ledger spill file = refl

  start_kept :
      (known : Known) (ledger : List (Entry Event)) (spill : Option SpillBuffer)
      (file : Option Intent)
      → recorded (start {Span = Span} known ledger spill (some file)).journal
        ≡ (start {Span = Span} known ledger spill (some file)).undeclared
  unfolding start load_intent
  start_kept known ledger spill none = refl
  start_kept known ledger spill (some intent) = ground arith

  start_ledger :
      (known : Known) (ledger : List (Entry Event)) (spill : Option SpillBuffer)
      (journal : Option (Option Intent))
      → (start {Span = Span} known ledger spill journal).ledger ≡ ledger
  unfolding start
  start_ledger known ledger spill journal = refl

  start-Journaled :
      (known : Known) (ledger : List (Entry Event)) (spill : Option SpillBuffer)
      (file : Option Intent)
      → Journaled {Span = Span} (start known ledger spill (some file))
  start-Journaled known ledger spill file = record {
    present = start_present known ledger spill file;
    kept = start_kept known ledger spill file;
  }

  -- With a journal whose writes succeed, a crash at any point of any interleaving loses no drop: once
  -- the pipeline is started again on the same ledger and files, the markers in the ledger and the
  -- recovered count are together the earlier markers and all drops, and more than that only by a
  -- batch that was committed and not yet subtracted when the crash came.
  pub restart_recovers :
      (known known' : Known) (ledger : List (Entry Event)) (spill spill' : Option SpillBuffer)
      (file : Option Intent) (actions : List (Action Span))
      → all writes actions ≡ true
      → let first = start known ledger spill (some file) in
        let st = run codec cfg actions first in
        let next = start {Span = Span} known' st.ledger spill' st.journal in
        marked next.ledger + next.undeclared
        ≡ marked ledger + first.recovered_drops + st.dropped + unsettled st.emission
  restart_recovers known known' ledger spill spill' file actions ok =
      let first : Pipeline Span Event Known = start known ledger spill (some file) in
      let st : Pipeline Span Event Known = run codec cfg actions first in
      let a = run-Journaled actions first ok (start-Journaled known ledger spill file) in
      omega (
        arith,
        ap marked (start_ledger known' st.ledger spill' st.journal),
        start-recovers known' st.ledger spill' st.journal,
        a.kept,
        run_attests_once codec cfg known ledger spill (some file) actions,
      )
