-- ===== src/Ledger/TornTail.antt =====
-- `FileLedgerBackend` of src/openwright/ledger.py: the file of lines, and `_heal_torn_tail`, which
-- drops what a crash left of an append.
use openwright.Common.{
  ℕ, suc, ◌+◌, ◌≤◌, ◌<◌, ◌≡◌, refl, sym, ap, ◌∙◌, ◌≢◌, Bool, true, false, not, Option, none, some,
  List, [], ◌∷◌, ◌++◌, append-nil, append_assoc, arith, ◌==◌, if◌then◌else◌, length, take, All,
  length-append, take-append, take-append_left, take-all, All-take, Bytes,
}

-- `data.endswith(b"\n")`
unfoldable pub ends_with_newline : Bytes → Bool
ends_with_newline [] = false
ends_with_newline (c ∷ []) = c == b'\n'
ends_with_newline (c ∷ d ∷ s) = ends_with_newline (d ∷ s)

-- `data.rfind(b"\n")` from a position on; `none` is -1.
unfoldable pub rfind : ℕ → Bytes → Option ℕ → Option ℕ
rfind i [] found = found
rfind i (c ∷ s) found = rfind (suc i) s (if c == b'\n' then some i else found)

-- `_heal_torn_tail`, from what the file holds to what it holds afterwards.
unfoldable pub heal_torn_tail : Bytes → Bytes
unfolding ends_with_newline rfind
heal_torn_tail [] = []
heal_torn_tail (c ∷ s) =
    if not (ends_with_newline (c ∷ s))
    then elim (rfind 0 (c ∷ s) none) [ none ↦ [] | some last_nl ↦ take (last_nl + 1) (c ∷ s) ]
    else c ∷ s

-- What `append_record` adds to the file for an encoded record.
abbrev pub line : Bytes → Bytes
line encoded = encoded ++ b'\n' ∷ []

-- The file after the appends of the encoded records.
unfoldable pub file_of : List Bytes → Bytes
file_of [] = []
file_of (r ∷ rs) = line r ++ file_of rs

abbrev pub NoNewline : Bytes → Type 0
NoNewline = All (λ c. c ≢ 10)

rfind-append :
    (i : ℕ) (xs ys : Bytes) (found : Option ℕ)
    → rfind i (xs ++ ys) found ≡ rfind (i + length xs) ys (rfind i xs found)
unfolding rfind
rfind-append i [] ys found = ap (λ (k : ℕ). rfind k ys found) (omega arith)
rfind-append i (x ∷ xs) ys found =
    let e : suc i + length xs ≡ i + suc (length xs) = omega arith in
    rfind-append (suc i) xs ys _ ∙ ap (λ (k : ℕ). rfind k ys (rfind i (x ∷ xs) found)) e

rfind-NoNewline : (i : ℕ) (xs : Bytes) (found : Option ℕ) → NoNewline xs → rfind i xs found ≡ found
unfolding rfind
rfind-NoNewline i [] found h = refl
rfind-NoNewline i (x ∷ xs) found h =
    let other : (x == 10) ≡ false = ground (arith, h.0) in
    rw other (rfind-NoNewline (suc i) xs found h.1)

ends_with_newline-append :
    (xs : Bytes) (y : ℕ) (ys : Bytes)
    → ends_with_newline (xs ++ y ∷ ys) ≡ ends_with_newline (y ∷ ys)
unfolding ends_with_newline
ends_with_newline-append [] y ys = refl
ends_with_newline-append (x ∷ []) y ys = refl
ends_with_newline-append (x ∷ z ∷ xs) y ys = ends_with_newline-append (z ∷ xs) y ys

ends_with_newline-NoNewline : (xs : Bytes) → NoNewline xs → ends_with_newline xs ≡ false
unfolding ends_with_newline
ends_with_newline-NoNewline [] h = refl
ends_with_newline-NoNewline (x ∷ []) h = ground (arith, h.0)
ends_with_newline-NoNewline (x ∷ y ∷ xs) h = ends_with_newline-NoNewline (y ∷ xs) h.1

-- A file that is not empty ends with a newline.
file_of_last : (r : Bytes) (rs : List Bytes) → (init : Bytes) × (file_of (r ∷ rs) ≡ init ++ 10 ∷ [])
unfolding file_of
file_of_last r [] = (r, append-nil _)
file_of_last r (q ∷ rs) =
    let (init, e) = file_of_last q rs in
    (line r ++ init, ap (λ s. line r ++ s) e ∙ sym (append_assoc (line r) init (10 ∷ [])))

heal_torn_tail-step :
    (c : ℕ) (s : Bytes) (k : Option ℕ)
    → ends_with_newline (c ∷ s) ≡ false
    → rfind 0 (c ∷ s) none ≡ k
    → heal_torn_tail (c ∷ s) ≡ elim k [ none ↦ [] | some last_nl ↦ take (last_nl + 1) (c ∷ s) ]
unfolding heal_torn_tail
heal_torn_tail-step c s k torn found = rw (torn, found) refl

heal_torn_tail-whole : (xs : Bytes) → ends_with_newline xs ≡ true → heal_torn_tail xs ≡ xs
unfolding heal_torn_tail
heal_torn_tail-whole [] h = refl
heal_torn_tail-whole (c ∷ s) h = rw h refl

heal_torn_tail-torn :
    (xs : Bytes) (n : ℕ)
    → ends_with_newline xs ≡ false
    → rfind 0 xs none ≡ some n
    → heal_torn_tail xs ≡ take (n + 1) xs
heal_torn_tail-torn [] n torn found = absurd (let bad : none ≡ some n = unfold rfind in found in cc)
heal_torn_tail-torn (c ∷ s) n torn found = heal_torn_tail-step c s (some n) torn found

heal_torn_tail-lines :
    (init : Bytes) (partial : Bytes)
    → NoNewline partial
    → heal_torn_tail ((init ++ 10 ∷ []) ++ partial) ≡ init ++ 10 ∷ []
heal_torn_tail-lines init [] h = rw (append-nil (init ++ 10 ∷ [])) (
    heal_torn_tail-whole (init ++ 10 ∷ [])
      (ends_with_newline-append init 10 [] ∙ unfold ends_with_newline in refl))
heal_torn_tail-lines init (c ∷ s) h =
    let torn =
      ends_with_newline-append (init ++ 10 ∷ []) c s ∙ ends_with_newline-NoNewline (c ∷ s) h in
    let start : 0 + length init ≡ length init = omega arith in
    let last : rfind 0 (init ++ 10 ∷ []) none ≡ some (length init) =
      rfind-append 0 init (10 ∷ []) none ∙ unfold rfind in ap (λ (k : ℕ). some k) start in
    let found : rfind 0 ((init ++ 10 ∷ []) ++ c ∷ s) none ≡ some (length init) =
      rfind-append 0 (init ++ 10 ∷ []) (c ∷ s) none ∙ rfind-NoNewline _ (c ∷ s) _ h ∙ last in
    heal_torn_tail-torn ((init ++ 10 ∷ []) ++ c ∷ s) (length init) torn found
    ∙ take-append (length init + 1) (init ++ 10 ∷ []) (c ∷ s) (length-append init (10 ∷ []))

-- Whatever stands after the last newline is dropped, and all that stands before it is kept.
heal_torn_tail-file_of :
    (records : List Bytes) (partial : Bytes)
    → NoNewline partial
    → heal_torn_tail (file_of records ++ partial) ≡ file_of records
heal_torn_tail-file_of [] [] h = unfold heal_torn_tail file_of in refl
heal_torn_tail-file_of [] (c ∷ s) h =
    unfold file_of in
    heal_torn_tail-step c s none (ends_with_newline-NoNewline (c ∷ s) h)
      (rfind-NoNewline 0 (c ∷ s) none h)
heal_torn_tail-file_of (r ∷ rs) partial h =
    let (init, e) = file_of_last r rs in rw e (heal_torn_tail-lines init partial h)

file_of-append :
    (records : List Bytes) (encoded : Bytes)
    → file_of (records ++ encoded ∷ []) ≡ file_of records ++ line encoded
unfolding file_of
file_of-append [] encoded = append-nil _
file_of-append (r ∷ rs) encoded =
    ap (λ s. line r ++ s) (file_of-append rs encoded)
    ∙ sym (append_assoc (line r) (file_of rs) (line encoded))

-- An append is all or nothing: when a crash leaves any first part of the line of a record (encoded
-- without a newline) after the lines of the earlier records, then healing gives back the file of
-- the earlier records, or that of all of them if the line was whole.
pub heal_torn_tail-crash :
    (records : List Bytes) (encoded : Bytes) (n : ℕ)
    → NoNewline encoded
    → (n ≤ length encoded
        → heal_torn_tail (file_of records ++ take n (line encoded)) ≡ file_of records)
      × (length encoded < n
          → heal_torn_tail (file_of records ++ take n (line encoded))
            ≡ file_of (records ++ encoded ∷ []))
heal_torn_tail-crash records encoded n h = (
  (λ short.
      rw (take-append_left n encoded (10 ∷ []) short)
        (heal_torn_tail-file_of records (take n encoded) (All-take (λ c. c ≢ 10) n encoded h))),
  (λ long.
      rw
        (
          take-all n (line encoded) (omega (arith, length-append encoded (10 ∷ []))),
          ← file_of-append records encoded,
        )
        (sym (ap heal_torn_tail (append-nil _))
          ∙ heal_torn_tail-file_of (records ++ encoded ∷ []) [] tt)),
)
