-- ===== src/Ingest/Spill.antt =====
-- `SpillBuffer` of src/openwright/ingest/durable.py: a file of lines and a cursor into it, kept in a
-- file of its own. Writes to files succeed; `path.exists()` holds from the constructor on.
use openwright.Common.{
  ℕ, zero, suc, ◌+◌, Bool, true, false, ◌&&◌, ◌||◌, Option, none, some, [], ◌∷◌, ◌++◌, leb, ◌==◌,
  if◌then◌else◌, length, drop, Bytes,
}
use openwright.Ledger.TornTail.{line}

pub record SpillBuffer : Type 0 where
  pub file : Bytes
  pub cursor_file : Option ℕ
  pub consumed : ℕ

-- `_load_cursor`
abbrev pub load_cursor : Option ℕ → ℕ
load_cursor none = 0
load_cursor (some n) = n

-- `__init__`, on what the two files hold.
abbrev pub open_buffer : Bytes → Option ℕ → SpillBuffer
open_buffer file cursor_file = record {
  file = file;
  cursor_file = cursor_file;
  consumed = load_cursor cursor_file;
}

-- `fh.readline()`: the line with its newline, and what follows it.
unfoldable pub readline : Bytes → Bytes × Bytes
readline [] = ([], [])
readline (c ∷ s) =
    let (rest, later) = readline s in if c == b'\n' then (c ∷ [], s) else (c ∷ rest, later)

abbrev is_space : ℕ → Bool
is_space c = leb 9 c && leb c 13 || c == 32

-- `not line.strip()`
unfoldable pub blank : Bytes → Bool
blank [] = true
blank (c ∷ s) = is_space c && blank s

-- A span's JSON text, and the span that a line is read as.
pub record Codec (Span : Type 0) : Type 1 where
  pub encode : Span → Bytes
  pub decode : Bytes → Option Span

-- What the loop of `drain` has done: with the callback's own state.
pub record Drained (Q : Type 0) : Type 0 where
  pub accepted : ℕ
  pub consumed : ℕ
  pub queue : Q
  pub raised : Bool

-- Once the callback has answered: it declines, or has a new state.
abbrev pub answered : {Q : Type 0} → Option Q → ℕ → (Drained Q → Drained Q) → Drained Q → Drained Q
answered none n next d = d
answered (some queue) n next d =
    next (record d { accepted = suc d.accepted; consumed = d.consumed + n; queue = queue })

module _ {Span Q : Type 0} (codec : Codec Span) (accept : Span → Q → Option Q) where
  -- What the loop does with a line, and then.
  abbrev pub drain_line : Bytes → (Drained Q → Drained Q) → Drained Q → Drained Q
  drain_line [] next d = d
  drain_line (c ∷ s) next d =
      if blank (c ∷ s)
      then next (record d { consumed = d.consumed + length (c ∷ s) })
      else elim (codec.decode (c ∷ s)) [
        | none ↦ record d { raised = true }
        | some span ↦ answered (accept span d.queue) (length (c ∷ s)) next d
      ]

  -- The loop, on what the file holds from the cursor on.
  unfoldable pub drain_loop : ℕ → Bytes → Drained Q → Drained Q
  unfolding readline blank
  drain_loop zero rest d = d
  drain_loop (suc fuel) rest d =
      let (found, later) = readline rest in drain_line found (drain_loop fuel later) d

  -- What follows the loop: compaction, and the cursor is written.
  abbrev pub settle_cursor : SpillBuffer → Drained Q → SpillBuffer
  settle_cursor buf d =
      if d.raised
      then record buf { consumed = d.consumed }
      else if leb (length buf.file) d.consumed
      then record { file = []; cursor_file = some 0; consumed = 0 }
      else record buf { cursor_file = some d.consumed; consumed = d.consumed }

  unfoldable pub drain : SpillBuffer → Q → Drained Q × SpillBuffer
  unfolding drain_loop
  drain buf queue =
      let rest = drop buf.consumed buf.file in
      let d =
        drain_loop (suc (length rest)) rest
          (record { accepted = 0; consumed = buf.consumed; queue = queue; raised = false }) in
      (d, settle_cursor buf d)

-- The lines that are not blank, counted.
unfoldable pub count_lines : ℕ → Bytes → ℕ
unfolding readline blank
count_lines zero rest = 0
count_lines (suc fuel) rest =
    let (found, later) = readline rest in
    let more = count_lines fuel later in if blank found then more else suc more

unfoldable pub pending : SpillBuffer → ℕ
unfolding count_lines
pending buf = let rest = drop buf.consumed buf.file in count_lines (length rest) rest

module _ {Span : Type 0} (codec : Codec Span) where
  unfoldable pub append : Span → SpillBuffer → SpillBuffer
  append span buf = record buf { file = buf.file ++ line (codec.encode span) }
