-- ===== src/Ingest/Tests.antt =====
-- The theorems on src/openwright/ingest at concrete inputs.
use openwright.Ingest.Tally.{SpillHolds, spans_in, spans_held}
use openwright.Ingest.Fifo.{IsCodec, Buffers}
use openwright.Ingest.Journal.{restart_recovers}
use openwright.Ingest.Conserved.{run_conserves}
use openwright.Ingest.Drops.{marked, unsettled, run_attests_once}
use openwright.Ingest.Worker.{Action, run, refill}
use openwright.Ingest.Crash.{after_truncation, drain-after_truncation, refill_torn}
use openwright.Ingest.SpillQueue.{pending-Buffers, drain-Buffers}
use openwright.Common.{
  ℕ, ◌+◌, ◌-◌, ◌≡◌, refl, ap, true, false, Option, none, some, List, [], ◌∷◌, arith, ◌==◌,
  if◌then◌else◌, length, Bytes, codes,
}
use openwright.Ingest.Pipeline.{Pipeline, start, Settings}
use openwright.Ingest.Spill.{SpillBuffer, append, drain, pending, Codec, blank, open_buffer}

abbrev toy_decode : Bytes → Option ℕ
toy_decode (c ∷ d ∷ []) = if d == 10 then some (c - 100) else none
toy_decode l = none

abbrev toy : Codec ℕ
toy = record { encode = λ n. (n + 100) ∷ []; decode = toy_decode }

toy-IsCodec : IsCodec toy
unfolding blank
toy-IsCodec = record {
  one_line = λ n. ((λ e. absurd (omega (arith, e))), tt);
  shown = λ n. ground arith;
  read_back = λ n. ap some (omega arith);
}

abbrev one_slot : ℕ → List ℕ → Option (List ℕ)
one_slot n [] = some (n ∷ [])
one_slot n (m ∷ ms) = none

abbrev two : SpillBuffer
two = record { file = 101 ∷ 10 ∷ 102 ∷ 10 ∷ []; cursor_file = none; consumed = 0 }

two-Buffers : Buffers toy two (1 ∷ 2 ∷ [])
two-Buffers = record { unread = refl; inside = omega arith; saved = refl }

drain-Buffers_example :
    let (d, buf') = drain toy one_slot two [] in
    (d.accepted ≡ 1) × (d.queue ≡ 1 ∷ []) × (d.raised ≡ false) × Buffers toy buf' (2 ∷ [])
drain-Buffers_example = drain-Buffers toy one_slot toy-IsCodec two (1 ∷ 2 ∷ []) [] two-Buffers

pending-two : pending two ≡ 2
pending-two = pending-Buffers toy toy-IsCodec two (1 ∷ 2 ∷ []) two-Buffers

abbrev half_read : SpillBuffer
half_read = record { file = 101 ∷ 10 ∷ 102 ∷ 10 ∷ []; cursor_file = some 2; consumed = 2 }

drain-after_truncation_example :
    let (d, buf') = drain toy one_slot (append toy 3 (after_truncation half_read)) [] in
    (d.accepted ≡ 0) × (d.queue ≡ []) × (d.raised ≡ false) × (buf'.file ≡ [])
drain-after_truncation_example = drain-after_truncation toy one_slot half_read 3 [] (omega arith)

abbrev settings : Settings ℕ ℕ ℕ
settings = record { max_queue = 1; commit_retries = 1; normalize = λ k s. some (s, k) }

abbrev drop_burst : List (Action ℕ)
drop_burst =
    Action.submitted 1 (codes "t1") true true
    ∷ Action.submitted 2 (codes "t2") true true
    ∷ Action.claimed
    ∷ Action.attested true
    ∷ Action.submitted 3 (codes "t3") true true
    ∷ Action.settled true
    ∷ Action.took
    ∷ Action.handled (λ n. true)
    ∷ []

abbrev before_crash : List (Action ℕ)
before_crash =
    Action.submitted 1 (codes "t1") true true
    ∷ Action.submitted 2 (codes "t2") true true
    ∷ Action.claimed
    ∷ Action.attested true
    ∷ []

run_attests_once_example :
    let first = start {Span = ℕ} {Event = ℕ} {Known = ℕ} 0 [] none none in
    let st = run toy settings drop_burst first in
    marked st.ledger + st.undeclared
    ≡ marked {Event = ℕ} [] + first.recovered_drops + st.dropped + unsettled st.emission
run_attests_once_example = run_attests_once toy settings 0 [] none none drop_burst

restart_recovers_example :
    let first = start {Span = ℕ} {Event = ℕ} {Known = ℕ} 0 [] none (some none) in
    let st = run toy settings before_crash first in
    let next = start {Span = ℕ} {Known = ℕ} 0 st.ledger none st.journal in
    marked next.ledger + next.undeclared
    ≡ marked {Event = ℕ} [] + first.recovered_drops + st.dropped + unsettled st.emission
restart_recovers_example = restart_recovers toy settings 0 0 [] none none none before_crash refl

run_conserves_example :
    let st = run toy settings drop_burst (start {Event = ℕ} 0 [] (some two) none) in
    (left : List ℕ) × SpillHolds toy st.spill left
    × (2 + 3
        ≡ spans_in st.queue
          + spans_held st.in_hand
          + st.processed
          + st.errors
          + st.dropped
          + length left)
run_conserves_example =
    run_conserves toy settings toy-IsCodec 0 [] (some two) none (1 ∷ 2 ∷ []) drop_burst two-Buffers

abbrev torn_state : Pipeline ℕ ℕ ℕ
torn_state = start 0 [] (some (open_buffer (101 ∷ []) none)) none

refill_torn_example : (refill toy settings true torn_state).alive ≡ false
unfolding start blank
refill_torn_example =
    refill_torn toy settings torn_state 101 [] ((λ e. absurd (omega (arith, e))), tt) refl refl refl
