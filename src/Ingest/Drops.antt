-- ===== src/Ingest/Drops.antt =====
-- The drop accounting of src/openwright/ingest/pipeline.py: what the gap markers say of the drops.
use openwright.Ingest.Spill.{Codec, SpillBuffer}
use openwright.Ingest.Worker.{
  commit_with_retries, handle_item, submit_span, refill, take_item, stop, overflow, handle_event,
  handle_taken, perform, run, Action, overflow_to, refill_from,
}
use openwright.Common.{
  ℕ, zero, suc, ◌+◌, ◌≤◌, ◌≡◌, Bool, Option, none, some, List, [], ◌∷◌, ◌++◌, arith, Text,
}
use openwright.Ingest.Pipeline.{
  Pipeline, Entry, Emission, persist, drop_span, claim, attest, settle, Settings, start, Item,
  Intent,
}

-- The drops that the markers in the ledger declare.
abbrev pub marked : {Event : Type 0} → List (Entry Event) → ℕ
marked [] = 0
marked (Entry.marker batch ∷ es) = batch.count + marked es
marked (Entry.evidence event ∷ es) = marked es

-- What is in the ledger and not yet subtracted.
abbrev pub unsettled : Emission → ℕ
unsettled Emission.resting = 0
unsettled (Emission.claimed batch) = 0
unsettled (Emission.attested batch) = batch.count

abbrev pub batch_of : Emission → ℕ
batch_of Emission.resting = 0
batch_of (Emission.claimed batch) = batch.count
batch_of (Emission.attested batch) = batch.count

-- The markers and the pending count together are the drops, those from before the start included.
pub record Accounts {Span Event Known : Type 0} (before : ℕ) (st : Pipeline Span Event Known)
    : Type 0 where
  pub balance : marked st.ledger + st.undeclared ≡ before + st.dropped + unsettled st.emission
  pub covered : batch_of st.emission ≤ st.undeclared

marked-append :
    {Event : Type 0} (es : List (Entry Event)) (e : Entry Event)
    → marked (es ++ e ∷ []) ≡ marked es + marked (e ∷ [])
marked-append [] e = omega arith
marked-append (Entry.marker batch ∷ es) e = omega (arith, marked-append es e)
marked-append (Entry.evidence event ∷ es) e = marked-append es e

module _ {Span Event Known : Type 0} (before : ℕ) where
  persist-Accounts :
      (written : Bool) (st : Pipeline Span Event Known)
      → Accounts before st
      → Accounts before (persist written st)
  unfolding persist
  persist-Accounts written st a = record {
    balance = ground (arith, a.balance);
    covered = ground (arith, a.covered);
  }

  drop_span-Accounts :
      (now : Text) (written : Bool) (st : Pipeline Span Event Known)
      → Accounts before st
      → Accounts before (drop_span now written st)
  unfolding drop_span persist
  drop_span-Accounts now written st a = record {
    balance = ground (arith, a.balance);
    covered = ground (arith, a.covered);
  }

  claim-Accounts :
      (st : Pipeline Span Event Known) → Accounts before st → Accounts before (claim st)
  unfolding claim
  claim-Accounts st a = record {
    balance = ground (arith, a.balance, a.covered);
    covered = ground (arith, a.balance, a.covered);
  }

  attest-Accounts :
      (committed : Bool) (st : Pipeline Span Event Known)
      → Accounts before st
      → Accounts before (attest committed st)
  unfolding attest
  attest-Accounts committed st a = record {
    balance = grind (arith, a.balance, a.covered, marked-append);
    covered = ground (arith, a.balance, a.covered);
  }

  settle-Accounts :
      (written : Bool) (st : Pipeline Span Event Known)
      → Accounts before st
      → Accounts before (settle written st)
  unfolding settle persist
  settle-Accounts written st a = record {
    balance = ground (arith, a.balance, a.covered);
    covered = ground (arith, a.balance, a.covered);
  }

module _ {Span Event Known : Type 0} (before : ℕ) (codec : Codec Span)
    (cfg : Settings Span Event Known) where
  commit_with_retries-Accounts :
      (up : ℕ → Bool) (attempt left : ℕ) (event : Event) (st : Pipeline Span Event Known)
      → Accounts before st
      → Accounts before (commit_with_retries codec cfg up attempt left event st)
  unfolding commit_with_retries
  commit_with_retries-Accounts up attempt zero event st a = record {
    balance = grind (arith, a.balance, marked-append);
    covered = ground (arith, a.covered);
  }
  commit_with_retries-Accounts up attempt (suc left) event st a =
      let later =
        commit_with_retries-Accounts up (suc attempt) left event
          (record st { retries = suc st.retries })
          (record { balance = a.balance; covered = a.covered }) in
      record {
        balance = grind (arith, a.balance, later.balance, marked-append);
        covered = ground (arith, a.covered, later.covered);
      }

  handle_event-Accounts :
      (up : ℕ → Bool) (found : Option (Event × Known)) (st : Pipeline Span Event Known)
      → Accounts before st
      → Accounts before (handle_event codec cfg up found st)
  unfolding handle_event
  handle_event-Accounts up none st a = record { balance = a.balance; covered = a.covered }
  handle_event-Accounts up (some (event, known)) st a =
      commit_with_retries-Accounts up 0 cfg.commit_retries event _
        (record { balance = a.balance; covered = a.covered })

  handle_taken-Accounts :
      (up : ℕ → Bool) (item : Option (Item Span)) (st : Pipeline Span Event Known)
      → Accounts before st
      → Accounts before (handle_taken codec cfg up item st)
  unfolding handle_taken
  handle_taken-Accounts up none st a = a
  handle_taken-Accounts up (some (Item.span s)) st a =
      handle_event-Accounts up (cfg.normalize st.known s) (record st { in_hand = none })
        (record { balance = a.balance; covered = a.covered })
  handle_taken-Accounts up (some Item.sentinel) st a = record {
    balance = a.balance;
    covered = a.covered;
  }

  submit_span-Accounts :
      (s : Span) (now : Text) (spilled written : Bool) (st : Pipeline Span Event Known)
      → Accounts before st
      → Accounts before (submit_span codec cfg s now spilled written st)
  unfolding submit_span overflow overflow_to drop_span persist
  submit_span-Accounts s now spilled written st a = record {
    balance = ground (arith, a.balance);
    covered = ground (arith, a.covered);
  }

  refill-Accounts :
      (by_worker : Bool) (st : Pipeline Span Event Known)
      → Accounts before st
      → Accounts before (refill codec cfg by_worker st)
  unfolding refill refill_from
  refill-Accounts by_worker st a = record {
    balance = ground (arith, a.balance);
    covered = ground (arith, a.covered);
  }

  take_item-Accounts :
      (st : Pipeline Span Event Known)
      → Accounts before st
      → Accounts before (take_item codec cfg st)
  unfolding take_item
  take_item-Accounts st a = record {
    balance = ground (arith, a.balance);
    covered = ground (arith, a.covered);
  }

  stop-Accounts :
      (st : Pipeline Span Event Known) → Accounts before st → Accounts before (stop codec cfg st)
  unfolding stop
  stop-Accounts st a = record {
    balance = ground (arith, a.balance);
    covered = ground (arith, a.covered);
  }

  perform-Accounts :
      (action : Action Span) (st : Pipeline Span Event Known)
      → Accounts before st
      → Accounts before (perform codec cfg action st)
  unfolding perform handle_item
  perform-Accounts (Action.submitted s now spilled written) st a =
      submit_span-Accounts s now spilled written st a
  perform-Accounts (Action.refilled by_worker) st a = refill-Accounts by_worker st a
  perform-Accounts Action.took st a = take_item-Accounts st a
  perform-Accounts (Action.handled up) st a = handle_taken-Accounts up st.in_hand st a
  perform-Accounts Action.claimed st a = claim-Accounts before st a
  perform-Accounts (Action.attested committed) st a = attest-Accounts before committed st a
  perform-Accounts (Action.settled written) st a = settle-Accounts before written st a
  perform-Accounts Action.stopped st a = stop-Accounts st a

  pub run-Accounts :
      (actions : List (Action Span)) (st : Pipeline Span Event Known)
      → Accounts before st
      → Accounts before (run codec cfg actions st)
  unfolding run
  run-Accounts [] st a = a
  run-Accounts (action ∷ actions) st a = run-Accounts actions _ (perform-Accounts action st a)

module _ {Span Event Known : Type 0} (codec : Codec Span) (cfg : Settings Span Event Known) where
  -- However the actions of submitters, the worker and whoever emits markers interleave from a start
  -- of the pipeline on, and whatever fails: the markers in the ledger declare exactly the drops, those
  -- recovered at the start included, less those still pending and with the batch that is committed
  -- and not yet subtracted.
  pub run_attests_once :
      (known : Known) (ledger : List (Entry Event)) (spill : Option SpillBuffer)
      (journal : Option (Option Intent)) (actions : List (Action Span))
      → let first = start known ledger spill journal in
        let st = run codec cfg actions first in
        marked st.ledger + st.undeclared
        ≡ marked ledger + first.recovered_drops + st.dropped + unsettled st.emission
  unfolding start
  run_attests_once known ledger spill journal actions =
      let first : Pipeline Span Event Known = start known ledger spill journal in
      let a =
        run-Accounts (marked ledger + first.recovered_drops) codec cfg actions first
          (record { balance = omega arith; covered = omega arith }) in
      a.balance
