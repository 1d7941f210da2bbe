-- ===== src/Ingest/Worker.antt =====
-- `submit` and the worker `_run` of src/openwright/ingest/pipeline.py, and their interleavings.
use openwright.Common.{
  ℕ, zero, suc, ◌+◌, Bool, true, false, not, ◌&&◌, Option, none, some, List, [], ◌∷◌, ◌++◌,
  if◌then◌else◌, Text,
}
use openwright.Ingest.Spill.{SpillBuffer, append, Codec, Drained, drain}
use openwright.Ingest.Pipeline.{
  Pipeline, Settings, Item, drop_span, put_nowait, Entry, claim, emit, attest, settle,
}

-- What one thread does between two points where the others may act. The Booleans say whether a
-- write or a commit succeeds, and for `refilled` whether the worker is the one that refills.
pub data Action (Span : Type 0) : Type 0 where
  submitted : Span → Text → Bool → Bool → Action Span
  refilled : Bool → Action Span
  took : Action Span
  handled : (ℕ → Bool) → Action Span
  claimed : Action Span
  attested : Bool → Action Span
  settled : Bool → Action Span
  stopped : Action Span

module _ {Span Event Known : Type 0} (codec : Codec Span) (cfg : Settings Span Event Known) where
  -- The closure `accept` of `_refill_from_spill`.
  abbrev pub accept : Span → List (Item Span) → Option (List (Item Span))
  accept s queue = put_nowait cfg.max_queue (Item.span s) queue

  unfoldable pub overflow_to :
      Span
      → Text
      → Bool
      → Bool
      → Option SpillBuffer
      → Pipeline Span Event Known
      → Pipeline Span Event Known
  unfolding append drop_span
  overflow_to s now spilled written none st = drop_span now written st
  overflow_to s now spilled written (some buf) st =
      if spilled
      then record st { spill = some (append codec s buf); spilled = suc st.spilled }
      else drop_span now written st

  -- The overflow of `submit`.
  unfoldable pub overflow :
      Span → Text → Bool → Bool → Pipeline Span Event Known → Pipeline Span Event Known
  unfolding overflow_to
  overflow s now spilled written st = overflow_to s now spilled written st.spill st

  -- With the queue that `put_nowait` makes, or what is done when it is full.
  abbrev pub enqueued :
      Option (List (Item Span))
      → Pipeline Span Event Known
      → Pipeline Span Event Known
      → Pipeline Span Event Known
  enqueued none st full = full
  enqueued (some queue) st full = record st { queue = queue }

  -- One turn of the loop of `submit`.
  unfoldable pub submit_span :
      Span → Text → Bool → Bool → Pipeline Span Event Known → Pipeline Span Event Known
  unfolding put_nowait overflow
  submit_span s now spilled written st =
      enqueued (put_nowait cfg.max_queue (Item.span s) st.queue) st
        (overflow s now spilled written st)

  -- What `drain` has done, and an exception of it, which ends the worker's thread.
  abbrev pub refill_with :
      Bool
      → Drained (List (Item Span)) × SpillBuffer
      → Pipeline Span Event Known
      → Pipeline Span Event Known
  refill_with by_worker (d, buf) st =
      if d.raised
      then record st { queue = d.queue; spill = some buf; alive = st.alive && not by_worker }
      else record st {
        queue = d.queue;
        spill = some buf;
        spill_recovered = st.spill_recovered + d.accepted;
      }

  unfoldable pub refill_from :
      Bool → Option SpillBuffer → Pipeline Span Event Known → Pipeline Span Event Known
  unfolding drain put_nowait
  refill_from by_worker none st = st
  refill_from by_worker (some buf) st = refill_with by_worker (drain codec accept buf st.queue) st

  -- `_refill_from_spill`
  unfoldable pub refill : Bool → Pipeline Span Event Known → Pipeline Span Event Known
  unfolding refill_from
  refill by_worker st = refill_from by_worker st.spill st

  -- `self._q.get`, by the worker.
  unfoldable pub take_item : Pipeline Span Event Known → Pipeline Span Event Known
  take_item st = elim st.in_hand [
    | some item ↦ st
    | none ↦
        if st.alive
        then elim st.queue [
          | [] ↦ st
          | item ∷ rest ↦ record st { queue = rest; in_hand = some item }
        ]
        else st
  ]

  -- The loop of attempts at a commit, from one of them on.
  unfoldable pub commit_with_retries :
      (ℕ → Bool) → ℕ → ℕ → Event → Pipeline Span Event Known → Pipeline Span Event Known
  commit_with_retries up attempt zero event st =
      if up attempt
      then record st {
        ledger = st.ledger ++ Entry.evidence event ∷ [];
        processed = suc st.processed;
      }
      else record st { errors = suc st.errors }
  commit_with_retries up attempt (suc left) event st =
      let again =
        commit_with_retries up (suc attempt) left event (record st { retries = suc st.retries }) in
      if up attempt
      then record st {
        ledger = st.ledger ++ Entry.evidence event ∷ [];
        processed = suc st.processed;
      }
      else again

  -- What the worker does with what `_normalize` returns.
  unfoldable pub handle_event :
      (ℕ → Bool) → Option (Event × Known) → Pipeline Span Event Known → Pipeline Span Event Known
  unfolding commit_with_retries
  handle_event up none st = record st { errors = suc st.errors }
  handle_event up (some (event, known)) st =
      commit_with_retries up 0 cfg.commit_retries event (record st { known = known })

  -- What the worker does with an item that it has taken.
  unfoldable pub handle_taken :
      (ℕ → Bool) → Option (Item Span) → Pipeline Span Event Known → Pipeline Span Event Known
  unfolding handle_event
  handle_taken up none st = st
  handle_taken up (some (Item.span s)) st =
      handle_event up (cfg.normalize st.known s) (record st { in_hand = none })
  handle_taken up (some Item.sentinel) st = record st { in_hand = none; alive = false }

  unfoldable pub handle_item : (ℕ → Bool) → Pipeline Span Event Known → Pipeline Span Event Known
  unfolding handle_taken
  handle_item up st = handle_taken up st.in_hand st

  -- `stop`, once there is room in the queue.
  unfoldable pub stop : Pipeline Span Event Known → Pipeline Span Event Known
  unfolding put_nowait
  stop st = enqueued (put_nowait cfg.max_queue Item.sentinel st.queue) st st

  unfoldable pub perform : Action Span → Pipeline Span Event Known → Pipeline Span Event Known
  unfolding submit_span refill take_item handle_item claim attest settle stop
  perform (Action.submitted s now spilled written) st = submit_span s now spilled written st
  perform (Action.refilled by_worker) st = refill by_worker st
  perform Action.took st = take_item st
  perform (Action.handled up) st = handle_item up st
  perform Action.claimed st = claim st
  perform (Action.attested committed) st = attest committed st
  perform (Action.settled written) st = settle written st
  perform Action.stopped st = stop st

  -- The actions, in the order in which they happen.
  unfoldable pub run : List (Action Span) → Pipeline Span Event Known → Pipeline Span Event Known
  unfolding perform
  run [] st = st
  run (a ∷ rest) st = run rest (perform a st)

  -- `submit`, for spans with what happens to each.
  unfoldable pub submit :
      List (Span × Text × Bool × Bool) → Pipeline Span Event Known → Pipeline Span Event Known
  unfolding submit_span
  submit [] st = st
  submit ((s, now, spilled, written) ∷ spans) st =
      submit spans (submit_span s now spilled written st)

  -- One turn of `_run`, when nobody else acts meanwhile.
  unfoldable pub turn :
      (ℕ → Bool) → Bool → Bool → Pipeline Span Event Known → Pipeline Span Event Known
  unfolding emit refill take_item handle_item
  turn up committed written st = elim st.queue [
    | [] ↦ emit committed written (refill true st)
    | item ∷ rest ↦ refill true (handle_item up (emit committed written (take_item st)))
  ]
