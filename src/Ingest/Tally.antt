-- ===== src/Ingest/Tally.antt =====
-- Counting the spans of src/openwright/ingest/pipeline.py.
use openwright.Ingest.Fifo.{Buffers}
use openwright.Ingest.Worker.{Action}
use openwright.Common.{
  ℕ, suc, ◌+◌, ◌≡◌, refl, sym, ap, ◌∙◌, inl, inr, ◌||◌, Option, none, some, List, [], ◌∷◌, ◌++◌,
  arith, ltb, ◌==◌, Bool-cases, some-injective, length,
}
use openwright.Ingest.Pipeline.{Pipeline, Item, put_nowait}
use openwright.Ingest.Spill.{SpillBuffer, Codec}

abbrev pub spans_in : {Span : Type 0} → List (Item Span) → ℕ
spans_in [] = 0
spans_in (Item.span s ∷ items) = suc (spans_in items)
spans_in (Item.sentinel ∷ items) = spans_in items

abbrev pub spans_held : {Span : Type 0} → Option (Item Span) → ℕ
spans_held none = 0
spans_held (some (Item.span s)) = 1
spans_held (some Item.sentinel) = 0

-- The spans in the queue, in the worker's hand, and those that ended in one of the three ways.
abbrev pub tally : {Span Event Known : Type 0} → Pipeline Span Event Known → ℕ
tally st = spans_in st.queue + spans_held st.in_hand + st.processed + st.errors + st.dropped

abbrev pub submissions : {Span : Type 0} → List (Action Span) → ℕ
submissions [] = 0
submissions (Action.submitted s now spilled written ∷ actions) = suc (submissions actions)
submissions (Action.refilled by_worker ∷ actions) = submissions actions
submissions (Action.took ∷ actions) = submissions actions
submissions (Action.handled up ∷ actions) = submissions actions
submissions (Action.claimed ∷ actions) = submissions actions
submissions (Action.attested committed ∷ actions) = submissions actions
submissions (Action.settled written ∷ actions) = submissions actions
submissions (Action.stopped ∷ actions) = submissions actions

abbrev pub SpillHolds : {Span : Type 0} → Codec Span → Option SpillBuffer → List Span → Type 0
SpillHolds codec none held = held ≡ []
SpillHolds codec (some buf) held = Buffers codec buf held

spans_in-append :
    {Span : Type 0} (xs ys : List (Item Span)) → spans_in (xs ++ ys) ≡ spans_in xs + spans_in ys
spans_in-append [] ys = omega arith
spans_in-append (Item.span s ∷ xs) ys = omega (arith, spans_in-append xs ys)
spans_in-append (Item.sentinel ∷ xs) ys = spans_in-append xs ys

pub put_nowait-append :
    {Span : Type 0} (max_queue : ℕ) (item : Item Span) (queue queue' : List (Item Span))
    → put_nowait max_queue item queue ≡ some queue'
    → spans_in queue' ≡ spans_in queue + spans_in (item ∷ [])
unfolding put_nowait
put_nowait-append max_queue item queue queue' h =
    elim (Bool-cases (max_queue == 0 || ltb (length queue) max_queue)) [
      | inl room ↦
          let same : queue ++ item ∷ [] ≡ queue' = some-injective (sym (rw room refl) ∙ h) in
          sym (ap spans_in same) ∙ spans_in-append queue (item ∷ [])
      | inr full ↦ ground (arith, full, h)
    ]
