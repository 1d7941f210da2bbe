-- ===== src/Ingest/Crash.antt =====
-- What a crash inside `SpillBuffer` of src/openwright/ingest/durable.py leaves behind.
use openwright.Ingest.Fifo.{drop-all}
use openwright.Ingest.Worker.{refill, refill_from, refill_with, accept}
use openwright.Ledger.TornTail.{NoNewline, line}
use openwright.Common.{
  ℕ, ◌≤◌, ◌≡◌, refl, ap, ◌∙◌, true, false, Option, none, some, List, [], ◌∷◌, arith, leb, ◌==◌,
  le→leb, length, drop, Bytes,
}
use openwright.Ingest.Pipeline.{Pipeline, Settings, Item}
use openwright.Ingest.Spill.{
  SpillBuffer, append, open_buffer, Codec, readline, drain, drain_loop, load_cursor, blank,
  settle_cursor, Drained, drain_line,
}

-- The buffer that a restart finds when the crash came between the truncation of the file, in
-- `drain`, and the write of the cursor.
abbrev pub after_truncation : SpillBuffer → SpillBuffer
after_truncation buf = open_buffer [] buf.cursor_file

module _ {Span Q : Type 0} (codec : Codec Span) (accept : Span → Q → Option Q) where
  -- After a crash between the two writes, a span that is then spilled, whose line is not longer than
  -- the cursor that was saved before, is dropped by the next drain: the callback is not called and
  -- the file is empty afterwards.
  pub drain-after_truncation :
      (buf : SpillBuffer) (s : Span) (q : Q)
      → length (line (codec.encode s)) ≤ load_cursor buf.cursor_file
      → let (d, buf') = drain codec accept (append codec s (after_truncation buf)) q in
        (d.accepted ≡ 0) × (d.queue ≡ q) × (d.raised ≡ false) × (buf'.file ≡ [])
  unfolding drain drain_loop readline append
  drain-after_truncation buf s q short =
      let nothing : drop (load_cursor buf.cursor_file) (line (codec.encode s)) ≡ [] =
        drop-all _ _ short in
      let past : leb (length (line (codec.encode s))) (load_cursor buf.cursor_file) ≡ true =
        le→leb _ _ short in
      (rw nothing refl, rw nothing refl, rw nothing refl, rw (nothing, settle_cursor, past) refl)

readline-NoNewline : (xs : Bytes) → NoNewline xs → readline xs ≡ (xs, [])
unfolding readline
readline-NoNewline [] h = refl
readline-NoNewline (x ∷ xs) h =
    let other : (x == 10) ≡ false = ground (arith, h.0) in
    rw (other, readline-NoNewline xs h.1) refl

module _ {Span Event Known : Type 0} (codec : Codec Span) (cfg : Settings Span Event Known) where
  drain_torn :
      (c : ℕ) (s : Bytes) (q : List (Item Span))
      → NoNewline (c ∷ s)
      → blank (c ∷ s) ≡ false
      → codec.decode (c ∷ s) ≡ none
      → (drain codec (accept codec cfg) (open_buffer (c ∷ s) none) q).0.raised ≡ true
  unfolding drain drain_loop
  drain_torn c s q one_line shown bad =
      let d : Drained (List (Item Span)) = record {
        accepted = 0;
        consumed = 0;
        queue = q;
        raised = false;
      } in
      ap
        (λ (r : Bytes × Bytes).
          (drain_line codec (accept codec cfg) r.0
            (drain_loop codec (accept codec cfg) (length (c ∷ s)) r.1) d).raised)
        (readline-NoNewline (c ∷ s) one_line)
      ∙ rw (drain_line, shown, bad) refl

  refill_from_torn :
      (st : Pipeline Span Event Known) (c : ℕ) (s : Bytes)
      → NoNewline (c ∷ s)
      → blank (c ∷ s) ≡ false
      → codec.decode (c ∷ s) ≡ none
      → (refill_from codec cfg true (some (open_buffer (c ∷ s) none)) st).alive ≡ false
  unfolding refill_from
  refill_from_torn st c s one_line shown bad =
      rw (refill_with, drain_torn c s st.queue one_line shown bad) (ground arith)

  -- When there is no cursor file, and all that the spill file holds is the beginning of a line, as a
  -- crash inside the first `append` leaves it, which is not blank and no JSON, the worker's next
  -- refill ends the worker.
  pub refill_torn :
      (st : Pipeline Span Event Known) (c : ℕ) (s : Bytes)
      → NoNewline (c ∷ s)
      → blank (c ∷ s) ≡ false
      → codec.decode (c ∷ s) ≡ none
      → st.spill ≡ some (open_buffer (c ∷ s) none)
      → (refill codec cfg true st).alive ≡ false
  unfolding refill
  refill_torn st c s one_line shown bad torn =
      ap (λ (o : Option SpillBuffer). (refill_from codec cfg true o st).alive) torn
      ∙ refill_from_torn st c s one_line shown bad
