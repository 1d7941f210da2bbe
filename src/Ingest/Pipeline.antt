-- ===== src/Ingest/Pipeline.antt =====
-- `EvidencePipeline` of src/openwright/ingest/pipeline.py, with `DropJournal` of durable.py. Each
-- section under a lock, each call of the queue and each ledger commit is one action.
use openwright.Common.{
  ℕ, suc, ◌-◌, Bool, true, ◌||◌, Option, none, some, List, [], ◌∷◌, ◌++◌, ltb, ◌==◌, if◌then◌else◌,
  length, Text,
}
use openwright.Ingest.Spill.{SpillBuffer}

-- What the drop journal holds: `count`, `window_start`, `window_end`.
pub record Intent : Type 0 where
  pub count : ℕ
  pub window_start : Option Text
  pub window_end : Option Text

-- `DropJournal.load`, of what the file holds, if it is there.
unfoldable pub load_intent : Option Intent → Option Intent
load_intent none = none
load_intent (some i) = if ltb 0 i.count then some i else none

-- What a worker puts into the ledger: a gap marker, or the event of a span.
pub data Entry (Event : Type 0) : Type 0 where
  marker : Intent → Entry Event
  evidence : Event → Entry Event

-- What stands in the queue.
pub data Item (Span : Type 0) : Type 0 where
  span : Span → Item Span
  sentinel : Item Span

-- Where the one caller that holds `_emit_lock` is.
pub data Emission : Type 0 where
  resting : Emission
  claimed : Intent → Emission
  attested : Intent → Emission

pub record Pipeline (Span Event Known : Type 0) : Type 0 where
  pub ledger : List (Entry Event)
  pub queue : List (Item Span)
  pub in_hand : Option (Item Span)
  pub alive : Bool
  pub known : Known
  pub processed : ℕ
  pub dropped : ℕ
  pub errors : ℕ
  pub retries : ℕ
  pub drop_markers : ℕ
  pub spilled : ℕ
  pub spill_recovered : ℕ
  pub recovered_drops : ℕ
  pub undeclared : ℕ
  pub window_start : Option Text
  pub window_end : Option Text
  pub emission : Emission
  pub spill : Option SpillBuffer
  pub journal : Option (Option Intent)

-- What the constructor is given: `max_queue`, `commit_retries`, and `_normalize`, which may raise.
pub record Settings (Span Event Known : Type 0) : Type 1 where
  pub max_queue : ℕ
  pub commit_retries : ℕ
  pub normalize : Known → Span → Option (Event × Known)

-- `put_nowait` of `queue.Queue(maxsize=max_queue)`, which has no bound for 0; `none` is `Full`.
unfoldable pub put_nowait :
    {Span : Type 0} → ℕ → Item Span → List (Item Span) → Option (List (Item Span))
put_nowait max_queue item queue =
    if max_queue == 0 || ltb (length queue) max_queue then some (queue ++ item ∷ []) else none

module _ {Span Event Known : Type 0} where
  -- `_persist_drop_intent_locked`, where the write succeeds or is logged.
  unfoldable pub persist : Bool → Pipeline Span Event Known → Pipeline Span Event Known
  persist written st = elim st.journal [
    | none ↦ st
    | some old ↦
        if written
        then record st {
          journal = some (
              some (record {
                count = st.undeclared;
                window_start = st.window_start;
                window_end = st.window_end;
              }));
        }
        else st
  ]

  -- `__init__`, on what the files of the journal and of the spill buffer hold.
  unfoldable pub start :
      Known
      → List (Entry Event)
      → Option SpillBuffer
      → Option (Option Intent)
      → Pipeline Span Event Known
  unfolding load_intent
  start known ledger spill journal =
      let found : Option Intent = elim journal [ none ↦ none | some file ↦ load_intent file ] in
      let pending : Intent = elim found [
        | none ↦ record { count = 0; window_start = none; window_end = none }
        | some intent ↦ intent
      ] in
      record {
        ledger = ledger;
        queue = [];
        in_hand = none;
        alive = true;
        known = known;
        processed = 0;
        dropped = 0;
        errors = 0;
        retries = 0;
        drop_markers = 0;
        spilled = 0;
        spill_recovered = 0;
        recovered_drops = pending.count;
        undeclared = pending.count;
        window_start = pending.window_start;
        window_end = pending.window_end;
        emission = Emission.resting;
        spill = spill;
        journal = journal;
      }

  -- A drop, in `submit`.
  unfoldable pub drop_span : Text → Bool → Pipeline Span Event Known → Pipeline Span Event Known
  unfolding persist
  drop_span now written st = persist written (record st {
    dropped = suc st.dropped;
    undeclared = suc st.undeclared;
    window_start = elim st.window_start [ none ↦ some now | some first ↦ some first ];
    window_end = some now;
  })

  -- `_emit_drop_marker_if_pending` up to the commit: the batch is read.
  unfoldable pub claim : Pipeline Span Event Known → Pipeline Span Event Known
  claim st = elim st.emission [
    | Emission.resting ↦ if st.undeclared == 0 then st else record st {
      emission = Emission.claimed (record {
        count = st.undeclared;
        window_start = st.window_start;
        window_end = st.window_end;
      });
    }
    | Emission.claimed batch ↦ st
    | Emission.attested batch ↦ st
  ]

  -- The commit of the marker, which succeeds or raises.
  unfoldable pub attest : Bool → Pipeline Span Event Known → Pipeline Span Event Known
  attest committed st = elim st.emission [
    | Emission.resting ↦ st
    | Emission.claimed batch ↦
        if committed
        then record st {
          ledger = st.ledger ++ Entry.marker batch ∷ [];
          drop_markers = suc st.drop_markers;
          emission = Emission.attested batch;
        }
        else record st { emission = Emission.resting }
    | Emission.attested batch ↦ st
  ]

  -- The rest: exactly the committed batch is subtracted, and the journal follows.
  unfoldable pub settle : Bool → Pipeline Span Event Known → Pipeline Span Event Known
  unfolding persist
  settle written st = elim st.emission [
    | Emission.resting ↦ st
    | Emission.claimed batch ↦ st
    | Emission.attested batch ↦
        let rest = st.undeclared - batch.count in
        if rest == 0
        then record st {
          undeclared = 0;
          window_start = none;
          window_end = none;
          emission = Emission.resting;
          journal =
              if written
              then elim st.journal [ none ↦ none | some old ↦ some none ]
              else st.journal;
        }
        else persist written (record st { undeclared = rest; emission = Emission.resting })
  ]

  -- The whole of `_emit_drop_marker_if_pending`.
  unfoldable pub emit : Bool → Bool → Pipeline Span Event Known → Pipeline Span Event Known
  unfolding claim attest settle
  emit committed written st = settle written (attest committed (claim st))
