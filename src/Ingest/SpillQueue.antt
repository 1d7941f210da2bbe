-- ===== src/Ingest/SpillQueue.antt =====
-- `SpillBuffer` of src/openwright/ingest/durable.py refines a first-in-first-out queue of spans.
use openwright.Ingest.DrainLoop.{Served, drain_loop_lem}
use openwright.Common.{
  ℕ, zero, suc, ◌≤◌, ◌≡◌, refl, sym, ap, ◌∙◌, subst, inl, inr, false, Option, List, [], ◌∷◌, ◌++◌,
  append-nil, append_assoc, arith, leb, if◌then◌else◌, leb→le, Bool-cases, length, drop,
  length-append, length-drop, drop-append, Bytes,
}
use openwright.Ledger.TornTail.{line}
use openwright.Ingest.Spill.{
  SpillBuffer, Codec, Drained, drain, append, count_lines, pending, settle_cursor, readline,
  open_buffer, drain_loop, blank,
}
use openwright.Ingest.Fifo.{
  serve, spans_file, Buffers, IsCodec, drop-inside, drop-all, fewer, spans_file-nil, readline-line,
  drop-drop,
}

module _ {Span Q : Type 0} (codec : Codec Span) (accept : Span → Q → Option Q) where
  settle_cursor-kept :
      (buf : SpillBuffer) (kept : List Span) (d : Drained Q)
      → drop d.consumed buf.file ≡ spans_file codec kept
      → d.consumed ≤ length buf.file
      → d.raised ≡ false
      → Buffers codec (settle_cursor codec accept buf d) kept
  settle_cursor-kept buf kept d here inside calm =
      elim (Bool-cases (leb (length buf.file) d.consumed)) [
        | inl whole ↦
            let gone = sym here ∙ drop-all d.consumed buf.file (leb→le _ _ whole) in
            subst (Buffers codec (settle_cursor codec accept buf d))
              (sym (spans_file-nil codec kept gone))
              (rw (settle_cursor, calm, whole)
                (record { unread = refl; inside = omega arith; saved = refl }))
        | inr part ↦
            rw (settle_cursor, calm, part) (record { unread = here; inside = inside; saved = refl })
      ]

  -- A buffer that holds spans hands them to the callback of `drain` in order until one is declined,
  -- as the queue does: the count that `drain` returns, the callback's state and what the buffer
  -- holds afterwards are those of the queue, and nothing is raised.
  pub drain-Buffers :
      IsCodec codec
      → (buf : SpillBuffer) (xs : List Span) (q : Q) → Buffers codec buf xs
      → let (n, kept, last) = serve accept xs q in
        let (d, buf') = drain codec accept buf q in
        (d.accepted ≡ n) × (d.queue ≡ last) × (d.raised ≡ false) × Buffers codec buf' kept
  unfolding drain
  drain-Buffers ok buf xs q b =
      let start : Drained Q = record {
        accepted = 0;
        consumed = buf.consumed;
        queue = q;
        raised = false;
      } in
      let out =
        drain_loop codec accept (suc (length (drop buf.consumed buf.file)))
          (drop buf.consumed buf.file) start in
      let (n, kept, last) = serve accept xs q in
      let handed : Served codec accept xs n kept last start out =
        subst
          (λ (r : Bytes).
            Served codec accept xs n kept last start
              (drain_loop codec accept (suc (length r)) r start))
          (sym b.unread) (drain_loop_lem codec accept ok _ xs start (fewer codec xs)) in
      let here : drop out.consumed buf.file ≡ spans_file codec kept =
        drop-drop out.consumed buf.consumed (length handed.read) buf.file handed.moved
        ∙ ap (drop (length handed.read)) (b.unread ∙ handed.parted)
        ∙ drop-append (length handed.read) handed.read (spans_file codec kept) refl in
      let inside : out.consumed ≤ length buf.file = omega (
        arith,
        handed.moved,
        b.inside,
        length-drop buf.consumed buf.file,
        ap length (b.unread ∙ handed.parted),
        length-append handed.read (spans_file codec kept),
      ) in
      (
        handed.counted ∙ omega arith,
        handed.left,
        handed.calm,
        settle_cursor-kept buf kept out here inside handed.calm,
      )

module _ {Span : Type 0} (codec : Codec Span) where
  spans_file-append :
      (xs : List Span) (s : Span)
      → spans_file codec (xs ++ s ∷ []) ≡ spans_file codec xs ++ line (codec.encode s)
  spans_file-append [] s = append-nil _
  spans_file-append (x ∷ xs) s =
      ap (λ (r : Bytes). line (codec.encode x) ++ r) (spans_file-append xs s)
      ∙ sym (append_assoc (line (codec.encode x)) (spans_file codec xs) (line (codec.encode s)))

  -- `append` puts the span behind the others.
  pub append-Buffers :
      (buf : SpillBuffer) (xs : List Span) (s : Span)
      → Buffers codec buf xs
      → Buffers codec (append codec s buf) (xs ++ s ∷ [])
  unfolding append
  append-Buffers buf xs s b = record {
    unread =
        drop-inside buf.consumed buf.file (line (codec.encode s)) b.inside
        ∙ ap (λ (r : Bytes). r ++ line (codec.encode s)) b.unread
        ∙ sym (spans_file-append xs s);
    inside = omega (arith, b.inside, length-append buf.file (line (codec.encode s)));
    saved = b.saved;
  }

  count_lines_lem :
      IsCodec codec
      → (fuel : ℕ) (xs : List Span) → length xs ≤ fuel
      → count_lines fuel (spans_file codec xs) ≡ length xs
  unfolding count_lines readline
  count_lines_lem ok zero [] h = refl
  count_lines_lem ok zero (s ∷ xs) h = absurd (omega arith)
  count_lines_lem ok (suc fuel) [] h = count_lines_lem ok fuel [] (omega arith)
  count_lines_lem ok (suc fuel) (s ∷ xs) h =
      ap
        (λ (r : Bytes × Bytes).
          if blank r.0 then count_lines fuel r.1 else suc (count_lines fuel r.1))
        (readline-line (codec.encode s) (spans_file codec xs) (ok.one_line s))
      ∙ rw (ok.shown s) (ap suc (count_lines_lem ok fuel xs (omega arith)))

  -- `pending` counts the spans that the buffer holds.
  pub pending-Buffers :
      IsCodec codec
      → (buf : SpillBuffer) (xs : List Span) → Buffers codec buf xs
      → pending buf ≡ length xs
  unfolding pending
  pending-Buffers ok buf xs b =
      rw b.unread (count_lines_lem ok _ xs (omega (arith, fewer codec xs)))

  -- A restart reads the buffer back.
  pub open_buffer-Buffers :
      (buf : SpillBuffer) (xs : List Span)
      → Buffers codec buf xs
      → Buffers codec (open_buffer buf.file buf.cursor_file) xs
  open_buffer-Buffers buf xs b = record {
    unread = ap (λ (n : ℕ). drop n buf.file) b.saved ∙ b.unread;
    inside = omega (arith, b.saved, b.inside);
    saved = refl;
  }
