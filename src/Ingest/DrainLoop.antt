-- ===== src/Ingest/DrainLoop.antt =====
-- The loop of `SpillBuffer.drain` in src/openwright/ingest/durable.py, next to the queue.
use openwright.Ingest.Spill.{Codec, blank, drain_loop, Drained, drain_line, answered}
use openwright.Common.{
  ℕ, zero, suc, ◌+◌, ◌<◌, ◌≡◌, refl, sym, ap, ◌∙◌, subst, false, Option, none, some, List, [], ◌∷◌,
  ◌++◌, append_assoc, arith, length, length-append, Bytes,
}
use openwright.Ledger.TornTail.{line}
use openwright.Ingest.Fifo.{serve, IsCodec, spans_file, served, readline-line}

module _ {Span Q : Type 0} (codec : Codec Span) (accept : Span → Q → Option Q) where
  drain_line-read :
      (l : Bytes) (s : Span) (next : Drained Q → Drained Q) (d : Drained Q)
      → blank l ≡ false
      → codec.decode l ≡ some s
      → drain_line codec accept l next d ≡ answered (accept s d.queue) (length l) next d
  unfolding blank
  drain_line-read [] s next d shown read = cc
  drain_line-read (c ∷ l) s next d shown read = rw (shown, read) refl

  drain_loop-step :
      IsCodec codec
      → (fuel : ℕ) (s : Span) (xs : List Span) (d : Drained Q)
      → drain_loop codec accept (suc fuel) (spans_file codec (s ∷ xs)) d
        ≡ answered
            (accept s d.queue)
            (length (line (codec.encode s)))
            (drain_loop codec accept fuel (spans_file codec xs))
            d
  unfolding drain_loop
  drain_loop-step ok fuel s xs d =
      ap (λ (r : Bytes × Bytes). drain_line codec accept r.0 (drain_loop codec accept fuel r.1) d)
        (readline-line (codec.encode s) (spans_file codec xs) (ok.one_line s))
      ∙ drain_line-read (line (codec.encode s)) s
          (drain_loop codec accept fuel (spans_file codec xs)) d (ok.shown s) (ok.read_back s)

  drain_loop-end : (fuel : ℕ) (d : Drained Q) → drain_loop codec accept (suc fuel) [] d ≡ d
  unfolding drain_loop
  drain_loop-end fuel d = refl

  -- What the loop has done, when the queue hands over so many, keeps those and leaves that.
  pub record Served (xs : List Span) (n : ℕ) (kept : List Span) (q : Q) (d out : Drained Q)
      : Type 0 where
    pub read : Bytes
    pub counted : out.accepted ≡ d.accepted + n
    pub left : out.queue ≡ q
    pub calm : out.raised ≡ d.raised
    pub parted : spans_file codec xs ≡ read ++ spans_file codec kept
    pub moved : out.consumed ≡ d.consumed + length read

  abbrev pub ServedBy : List Span → ℕ × List Span × Q → Drained Q → Drained Q → Type 0
  ServedBy xs r d out = Served xs r.0 r.1 r.2 d out

  Served-nothing : (xs : List Span) (d : Drained Q) → Served xs 0 xs d.queue d d
  Served-nothing xs d = record {
    read = [];
    counted = omega arith;
    left = refl;
    calm = refl;
    parted = refl;
    moved = omega arith;
  }

  Served-more :
      (s : Span) (xs kept : List Span) (n m : ℕ) (q q' : Q) (d out : Drained Q)
      → length (line (codec.encode s)) ≡ m
      → Served xs n kept q
          (record d { accepted = suc d.accepted; consumed = d.consumed + m; queue = q' })
          out
      → Served (s ∷ xs) (suc n) kept q d out
  Served-more s xs kept n m q q' d out size later = record {
    read = line (codec.encode s) ++ later.read;
    counted = omega (arith, later.counted);
    left = later.left;
    calm = later.calm;
    parted =
        ap (λ (r : Bytes). line (codec.encode s) ++ r) later.parted
        ∙ sym (append_assoc (line (codec.encode s)) later.read (spans_file codec kept));
    moved = omega (arith, later.moved, size, length-append (line (codec.encode s)) later.read);
  }

  answered-served :
      (o : Option Q) (s : Span) (xs : List Span) (next : Drained Q → Drained Q) (d : Drained Q)
      → ((d' : Drained Q) → ServedBy xs (serve accept xs d'.queue) d' (next d'))
      → ServedBy
          (s ∷ xs)
          (served o s xs d.queue (serve accept xs))
          d
          (answered o (length (line (codec.encode s))) next d)
  answered-served none s xs next d later = Served-nothing (s ∷ xs) d
  answered-served (some q') s xs next d later = Served-more s xs _ _ _ _ q' d _ refl (later _)

  pub drain_loop_lem :
      IsCodec codec
      → (fuel : ℕ) (xs : List Span) (d : Drained Q) → length xs < fuel
      → ServedBy xs
          (serve accept xs d.queue)
          d
          (drain_loop codec accept fuel (spans_file codec xs) d)
  drain_loop_lem ok zero xs d h = absurd (omega arith)
  drain_loop_lem ok (suc fuel) [] d h =
      subst (Served [] 0 [] d.queue d) (sym (drain_loop-end fuel d)) (Served-nothing [] d)
  drain_loop_lem ok (suc fuel) (s ∷ xs) d h =
      subst (ServedBy (s ∷ xs) (serve accept (s ∷ xs) d.queue) d)
        (sym (drain_loop-step ok fuel s xs d))
        (answered-served (accept s d.queue) s xs _ d
          (λ d'. drain_loop_lem ok fuel xs d' (omega arith)))
