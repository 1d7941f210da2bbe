-- ===== src/Ingest/Conserved.antt =====
-- No span disappears in src/openwright/ingest/pipeline.py: where those that were submitted are.
use openwright.Ingest.Tally.{
  SpillHolds, tally, spans_in, put_nowait-append, submissions, spans_held,
}
use openwright.Ingest.Fifo.{IsCodec, serve, Buffers}
use openwright.Ingest.Spill.{Codec, SpillBuffer, Drained, drain}
use openwright.Ingest.Worker.{
  Action, accept, refill_with, refill_from, overflow_to, enqueued, submit_span, commit_with_retries,
  handle_event, handle_taken, take_item, overflow, refill, perform, run, handle_item, stop,
}
use openwright.Common.{
  ℕ, zero, suc, ◌+◌, ◌≡◌, refl, sym, ap, subst, inl, inr, Bool, true, false, Option, none, some,
  List, [], ◌∷◌, ◌++◌, arith, Option-cases, length, length-append, Text,
}
use openwright.Ingest.Pipeline.{
  Pipeline, Item, put_nowait, Settings, drop_span, persist, start, Entry, Intent, claim, attest,
  settle,
}
use openwright.Ingest.SpillQueue.{drain-Buffers, append-Buffers}

module _ {Span Event Known : Type 0} (codec : Codec Span) (cfg : Settings Span Event Known)
    (ok : IsCodec codec) where
  -- So many spans are in the pipeline or have left it.
  pub record Conserved (n : ℕ) (st : Pipeline Span Event Known) : Type 0 where
    pub held : List Span
    pub buffered : SpillHolds codec st.spill held
    pub balance : n ≡ tally st + length held

  same_spill :
      (n k : ℕ) (st st' : Pipeline Span Event Known)
      → st'.spill ≡ st.spill
      → tally st' ≡ tally st + k
      → Conserved n st
      → Conserved (n + k) st'
  same_spill n k st st' same more c = record {
    held = c.held;
    buffered = subst (λ (s : Option SpillBuffer). SpillHolds codec s c.held) (sym same) c.buffered;
    balance = omega (arith, c.balance, more);
  }

  serve_lem :
      (xs : List Span) (q : List (Item Span))
      → let (n, kept, last) = serve (accept codec cfg) xs q in
        spans_in last + length kept ≡ spans_in q + length xs
  serve_lem [] q = refl
  serve_lem (s ∷ xs) q = elim (Option-cases (accept codec cfg s q)) [
    | inl full ↦ rw (serve, full) refl
    | inr (q', put) ↦
        ground (arith, put, serve_lem xs q', put_nowait-append cfg.max_queue (Item.span s) q q' put)
  ]

  refill_with-Conserved :
      (n : ℕ) (by_worker : Bool) (out : Drained (List (Item Span))) (buf : SpillBuffer)
      (kept : List Span) (st : Pipeline Span Event Known)
      → out.raised ≡ false
      → Buffers codec buf kept
      → n ≡ tally (record st { queue = out.queue }) + length kept
      → Conserved n (refill_with codec cfg by_worker (out, buf) st)
  refill_with-Conserved n by_worker out buf kept st calm b h =
      rw (refill_with, calm) (record { held = kept; buffered = b; balance = h })

  refill_from-Conserved :
      (n : ℕ) (by_worker : Bool) (spill : Option SpillBuffer) (st : Pipeline Span Event Known)
      (c : Conserved n st)
      → SpillHolds codec spill c.held
      → Conserved n (refill_from codec cfg by_worker spill st)
  unfolding refill_from
  refill_from-Conserved n by_worker none st c b = c
  refill_from-Conserved n by_worker (some buf) st c b =
      let (n', kept, last) = serve (accept codec cfg) c.held st.queue in
      let (counted, left, calm, after) =
        drain-Buffers codec (accept codec cfg) ok buf c.held st.queue b in
      refill_with-Conserved n by_worker (drain codec (accept codec cfg) buf st.queue).0
        (drain codec (accept codec cfg) buf st.queue).1 kept st calm after
        (omega (arith, c.balance, ap spans_in left, serve_lem c.held st.queue))

  drop_span-Conserved :
      (n : ℕ) (now : Text) (written : Bool) (st : Pipeline Span Event Known)
      → Conserved n st
      → Conserved (n + 1) (drop_span now written st)
  unfolding drop_span persist
  drop_span-Conserved n now written st c =
      same_spill n 1 st (drop_span now written st) (ground arith) (ground arith) c

  overflow_to-Conserved :
      (n : ℕ) (s : Span) (now : Text) (spilled written : Bool) (spill : Option SpillBuffer)
      (st : Pipeline Span Event Known) (c : Conserved n st)
      → SpillHolds codec spill c.held
      → Conserved (n + 1) (overflow_to codec cfg s now spilled written spill st)
  unfolding overflow_to
  overflow_to-Conserved n s now spilled written none st c b = drop_span-Conserved n now written st c
  overflow_to-Conserved n s now true written (some buf) st c b = record {
    held = c.held ++ s ∷ [];
    buffered = append-Buffers codec buf c.held s b;
    balance = omega (arith, c.balance, length-append c.held (s ∷ []));
  }
  overflow_to-Conserved n s now false written (some buf) st c b =
      drop_span-Conserved n now written st c

  enqueued-Conserved :
      (n k : ℕ) (item : Item Span) (o : Option (List (Item Span)))
      (st full : Pipeline Span Event Known)
      → ((q : List (Item Span)) → o ≡ some q → spans_in q ≡ spans_in st.queue + k)
      → Conserved n st
      → Conserved (n + k) full
      → Conserved (n + k) (enqueued codec cfg o st full)
  enqueued-Conserved n k item none st full more c c' = c'
  enqueued-Conserved n k item (some q) st full more c c' =
      same_spill n k st (record st { queue = q }) refl (omega (arith, more q refl)) c

  submit_span-Conserved :
      (n : ℕ) (s : Span) (now : Text) (spilled written : Bool) (st : Pipeline Span Event Known)
      → Conserved n st
      → Conserved (n + 1) (submit_span codec cfg s now spilled written st)
  unfolding submit_span overflow
  submit_span-Conserved n s now spilled written st c =
      enqueued-Conserved n 1 (Item.span s) (put_nowait cfg.max_queue (Item.span s) st.queue) st _
        (λ q put. put_nowait-append cfg.max_queue (Item.span s) st.queue q put) c
        (overflow_to-Conserved n s now spilled written st.spill st c c.buffered)

  commit_with_retries-same :
      (up : ℕ → Bool) (attempt left : ℕ) (event : Event) (st : Pipeline Span Event Known)
      → ((commit_with_retries codec cfg up attempt left event st).spill ≡ st.spill)
        × (tally (commit_with_retries codec cfg up attempt left event st) ≡ tally st + 1)
  unfolding commit_with_retries
  commit_with_retries-same up attempt zero event st = (ground arith, ground arith)
  commit_with_retries-same up attempt (suc left) event st =
      let (same, more) =
        commit_with_retries-same up (suc attempt) left event
          (record st { retries = suc st.retries }) in
      (ground (arith, same), ground (arith, more))

  handle_event-same :
      (up : ℕ → Bool) (found : Option (Event × Known)) (st : Pipeline Span Event Known)
      → ((handle_event codec cfg up found st).spill ≡ st.spill)
        × (tally (handle_event codec cfg up found st) ≡ tally st + 1)
  unfolding handle_event
  handle_event-same up none st = (refl, omega arith)
  handle_event-same up (some (event, known)) st =
      commit_with_retries-same up 0 cfg.commit_retries event (record st { known = known })

  handle_taken-same :
      (up : ℕ → Bool) (st : Pipeline Span Event Known) (item : Option (Item Span))
      → st.in_hand ≡ item
      → ((handle_taken codec cfg up item st).spill ≡ st.spill)
        × (tally (handle_taken codec cfg up item st) ≡ tally st)
  unfolding handle_taken
  handle_taken-same up st none h = (refl, refl)
  handle_taken-same up st (some (Item.span s)) h =
      let (same, more) =
        handle_event-same up (cfg.normalize st.known s) (record st { in_hand = none }) in
      (same, omega (arith, more, ap spans_held h))
  handle_taken-same up st (some Item.sentinel) h = (refl, omega (arith, ap spans_held h))

  take_item-same :
      (st : Pipeline Span Event Known)
      → ((take_item codec cfg st).spill ≡ st.spill) × (tally (take_item codec cfg st) ≡ tally st)
  unfolding take_item
  take_item-same st = (ground arith, ground arith)

  refill-Conserved :
      (n : ℕ) (by_worker : Bool) (st : Pipeline Span Event Known)
      → Conserved n st
      → Conserved n (refill codec cfg by_worker st)
  unfolding refill
  refill-Conserved n by_worker st c = refill_from-Conserved n by_worker st.spill st c c.buffered

  -- The number of spans that an action submits.
  abbrev submitted_by : Action Span → ℕ
  submitted_by action = submissions (action ∷ [])

  unchanged :
      (n : ℕ) (st st' : Pipeline Span Event Known)
      → (st'.spill ≡ st.spill) × (tally st' ≡ tally st)
      → Conserved n st
      → Conserved (n + 0) st'
  unchanged n st st' (same, more) c = same_spill n 0 st st' same (omega (arith, more)) c

  perform-Conserved :
      (n : ℕ) (action : Action Span) (st : Pipeline Span Event Known)
      → Conserved n st
      → Conserved (n + submitted_by action) (perform codec cfg action st)
  unfolding perform handle_item claim attest settle persist stop
  perform-Conserved n (Action.submitted s now spilled written) st c =
      submit_span-Conserved n s now spilled written st c
  perform-Conserved n (Action.refilled by_worker) st c =
      unchanged n _ (refill codec cfg by_worker st) (refl, refl) (refill-Conserved n by_worker st c)
  perform-Conserved n Action.took st c = unchanged n st _ (take_item-same st) c
  perform-Conserved n (Action.handled up) st c =
      unchanged n st _ (handle_taken-same up st st.in_hand refl) c
  perform-Conserved n Action.claimed st c = unchanged n st _ (ground arith, ground arith) c
  perform-Conserved n (Action.attested committed) st c =
      unchanged n st _ (ground arith, ground arith) c
  perform-Conserved n (Action.settled written) st c =
      unchanged n st _ (ground arith, ground arith) c
  perform-Conserved n Action.stopped st c =
      enqueued-Conserved n 0 Item.sentinel (put_nowait cfg.max_queue Item.sentinel st.queue) st st
        (λ q put. put_nowait-append cfg.max_queue Item.sentinel st.queue q put) c
        (unchanged n st st (refl, refl) c)

  submissions-cons :
      (action : Action Span) (actions : List (Action Span))
      → submissions (action ∷ actions) ≡ submitted_by action + submissions actions
  submissions-cons (Action.submitted s now spilled written) actions = omega arith
  submissions-cons (Action.refilled by_worker) actions = omega arith
  submissions-cons Action.took actions = omega arith
  submissions-cons (Action.handled up) actions = omega arith
  submissions-cons Action.claimed actions = omega arith
  submissions-cons (Action.attested committed) actions = omega arith
  submissions-cons (Action.settled written) actions = omega arith
  submissions-cons Action.stopped actions = omega arith

  run-Conserved :
      (n : ℕ) (actions : List (Action Span)) (st : Pipeline Span Event Known)
      → Conserved n st
      → Conserved (n + submissions actions) (run codec cfg actions st)
  unfolding run
  run-Conserved n [] st c = subst (λ (k : ℕ). Conserved k st) (omega arith) c
  run-Conserved n (action ∷ actions) st c =
      let out : Pipeline Span Event Known = run codec cfg actions (perform codec cfg action st) in
      let e : n + submitted_by action + submissions actions ≡ n + submissions (action ∷ actions) =
        omega (arith, submissions-cons action actions) in
      subst (λ (k : ℕ). Conserved k out) e
        (run-Conserved (n + submitted_by action) actions _ (perform-Conserved n action st c))

  start-Conserved :
      (known : Known) (ledger : List (Entry Event)) (spill : Option SpillBuffer)
      (journal : Option (Option Intent)) (held : List Span)
      → SpillHolds codec spill held
      → Conserved (length held) (start known ledger spill journal)
  unfolding start
  start-Conserved known ledger spill journal held b = record {
    held = held;
    buffered = b;
    balance = omega arith;
  }

  -- When the spans' JSON reads back, then after any interleaving from a start of the pipeline on, the
  -- spans that were submitted and those that the spill file held at the start are, in number, those in
  -- the queue, in the worker's hand, in the spill file, processed, counted as errors and counted as
  -- dropped.
  pub run_conserves :
      (known : Known) (ledger : List (Entry Event)) (spill : Option SpillBuffer)
      (journal : Option (Option Intent)) (held : List Span) (actions : List (Action Span))
      → SpillHolds codec spill held
      → let st = run codec cfg actions (start known ledger spill journal) in
        (left : List Span) × SpillHolds codec st.spill left
        × (length held + submissions actions
            ≡ spans_in st.queue
              + spans_held st.in_hand
              + st.processed
              + st.errors
              + st.dropped
              + length left)
  run_conserves known ledger spill journal held actions b =
      let c =
        run-Conserved (length held) actions (start known ledger spill journal)
          (start-Conserved known ledger spill journal held b) in
      (c.held, c.buffered, c.balance)
