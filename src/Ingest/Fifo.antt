-- ===== src/Ingest/Fifo.antt =====
-- The first-in-first-out queue that `SpillBuffer` of src/openwright/ingest/durable.py stands for,
-- and its file.
use openwright.Common.{
  ℕ, zero, suc, ◌+◌, ◌≤◌, ◌<◌, ◌≡◌, refl, ap, false, Option, none, some, List, [], ◌∷◌, ◌++◌, arith,
  ◌==◌, length, drop, length-append, Bytes,
}
use openwright.Ledger.TornTail.{line, NoNewline}
use openwright.Ingest.Spill.{SpillBuffer, Codec, readline, blank, load_cursor}

-- What is relied on of the JSON of a span: it is one line with something on it, which reads back.
pub record IsCodec {Span : Type 0} (codec : Codec Span) : Type 0 where
  pub one_line : (s : Span) → NoNewline (codec.encode s)
  pub shown : (s : Span) → blank (line (codec.encode s)) ≡ false
  pub read_back : (s : Span) → codec.decode (line (codec.encode s)) ≡ some s

module _ {Span : Type 0} (codec : Codec Span) where
  -- The file of the spans.
  abbrev pub spans_file : List Span → Bytes
  spans_file [] = []
  spans_file (s ∷ xs) = line (codec.encode s) ++ spans_file xs

  -- The buffer holds the spans, in order, and its cursor is saved.
  pub record Buffers (buf : SpillBuffer) (xs : List Span) : Type 0 where
    pub unread : drop buf.consumed buf.file ≡ spans_file xs
    pub inside : buf.consumed ≤ length buf.file
    pub saved : load_cursor buf.cursor_file ≡ buf.consumed

-- The queue: what it hands over until a span is declined, and what it keeps.
abbrev pub served :
    {Span Q : Type 0}
    → Option Q
    → Span
    → List Span
    → Q
    → (Q → ℕ × List Span × Q)
    → ℕ × List Span × Q
served none s xs q later = (0, s ∷ xs, q)
served (some q') s xs q later = let (n, kept, last) = later q' in (suc n, kept, last)

abbrev pub serve : {Span Q : Type 0} → (Span → Q → Option Q) → List Span → Q → ℕ × List Span × Q
serve accept [] q = (0, [], q)
serve accept (s ∷ xs) q = served (accept s q) s xs q (serve accept xs)

pub readline-line : (xs rest : Bytes) → NoNewline xs → readline (line xs ++ rest) ≡ (line xs, rest)
unfolding readline
readline-line [] rest h = refl
readline-line (x ∷ xs) rest h =
    let other : (x == 10) ≡ false = ground (arith, h.0) in
    rw (other, readline-line xs rest h.1) refl

pub length-line : (xs : Bytes) → length (line xs) ≡ suc (length xs)
length-line xs = omega (arith, length-append xs (10 ∷ []))

pub drop-inside : (n : ℕ) (xs ys : Bytes) → n ≤ length xs → drop n (xs ++ ys) ≡ drop n xs ++ ys
drop-inside zero xs ys h = refl
drop-inside (suc n) [] ys h = absurd (omega arith)
drop-inside (suc n) (x ∷ xs) ys h = drop-inside n xs ys (omega arith)

pub drop-drop : (n a b : ℕ) (xs : Bytes) → n ≡ a + b → drop n xs ≡ drop b (drop a xs)
drop-drop n zero b xs h = ap (λ (k : ℕ). drop k xs) (omega arith)
drop-drop zero (suc a) b xs h = absurd (omega arith)
drop-drop (suc n) (suc a) zero [] h = refl
drop-drop (suc n) (suc a) (suc b) [] h = refl
drop-drop (suc n) (suc a) b (x ∷ xs) h = drop-drop n a b xs (omega arith)

pub drop-all : (n : ℕ) (xs : Bytes) → length xs ≤ n → drop n xs ≡ []
drop-all zero [] h = refl
drop-all zero (x ∷ xs) h = absurd (omega arith)
drop-all (suc n) [] h = refl
drop-all (suc n) (x ∷ xs) h = drop-all n xs (omega arith)

pub spans_file-nil :
    {Span : Type 0} (codec : Codec Span) (xs : List Span) → spans_file codec xs ≡ [] → xs ≡ []
spans_file-nil codec [] h = refl
spans_file-nil codec (s ∷ xs) h = absurd (
    omega (
      arith,
      ap length h,
      length-line (codec.encode s),
      length-append (line (codec.encode s)) (spans_file codec xs),
    ))

pub fewer :
    {Span : Type 0} (codec : Codec Span) (xs : List Span)
    → length xs < suc (length (spans_file codec xs))
fewer codec [] = omega arith
fewer codec (s ∷ xs) = omega (
  arith,
  fewer codec xs,
  length-line (codec.encode s),
  length-append (line (codec.encode s)) (spans_file codec xs),
)
