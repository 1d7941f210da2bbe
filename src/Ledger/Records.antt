-- ===== src/Ledger/Records.antt =====
-- Stored records of src/openwright/ledger.py: a leaf hash is read back from its text.
use openwright.Common.{
  hex, fromhex, hex_digit, ℕ, suc, ◌/◌, ◌%◌, ◌<◌, ◌≡◌, refl, sym, ap, ◌∙◌, ◌≢◌, inl, inr, false,
  Option, some, List, [], ◌∷◌, ◌++◌, append-nil, append_assoc, arith, ◌==◌, Option-cases,
  some-injective, length, All, Bytes, Text, codes, IsByte, fromhex-hex,
}
use openwright.Signing.{Platform}
use openwright.Ledger.{
  ComplianceEvent, last_segment, leaf_bytes_from_record, all_leaf_bytes, stamped, LedgerBackend,
}

-- What SHA-256 promises of its digests.
pub record IsHash (hash : Bytes → Bytes) : Type 0 where
  pub sized : (x : Bytes) → length (hash x) ≡ 32
  pub bytes : (x : Bytes) → All IsByte (hash x)

abbrev NoColon : Text → Type 0
NoColon = All (λ c. c ≢ 58)

hex_digit-NoColon : (n : ℕ) → n < 16 → hex_digit n ≢ 58
unfolding hex_digit
hex_digit-NoColon n h = ground arith

hex-NoColon : (bs : Bytes) → All IsByte bs → NoColon (hex bs)
unfolding hex
hex-NoColon [] h = tt
hex-NoColon (b ∷ bs) h =
    let hi : b / 16 < 16 = omega arith in
    (hex_digit-NoColon (b / 16) hi, (hex_digit-NoColon (b % 16) (omega arith), hex-NoColon bs h.1))

last_segment-NoColon : (seg s : Text) → NoColon s → last_segment seg s ≡ seg ++ s
unfolding last_segment
last_segment-NoColon seg [] h = sym (append-nil seg)
last_segment-NoColon seg (c ∷ s) h =
    let differs : (c == 58) ≡ false = ground (arith, h.0) in
    rw differs (last_segment-NoColon (seg ++ c ∷ []) s h.1 ∙ append_assoc seg (c ∷ []) s)

last_segment-sha256 : (s : Text) → NoColon s → last_segment [] (codes "sha256:" ++ s) ≡ s
unfolding last_segment
last_segment-sha256 s h = last_segment-NoColon [] s h

-- A leaf hash is read back from its text.
pub fromhex_of_text :
    (h : Bytes) → All IsByte h → fromhex (last_segment [] (codes "sha256:" ++ hex h)) ≡ some h
fromhex_of_text h bytes =
    rw (last_segment-sha256 (hex h) (hex-NoColon h bytes)) (fromhex-hex h bytes)

-- The leaf hash that `commit` writes into a record is the one that is read when the log is opened.
pub leaf_bytes-stamped :
    (p : Platform) {B : Type 0} (backend : LedgerBackend B) (ev : ComplianceEvent) (h : Bytes)
    (index : ℕ) (committed_at : Text) (retention_until : Option Text)
    → All IsByte h
    → leaf_bytes_from_record (stamped p backend ev h index committed_at retention_until) ≡ some h
unfolding leaf_bytes_from_record stamped
leaf_bytes-stamped p backend ev h index committed_at retention_until bytes =
    rw (last_segment-sha256 (hex h) (hex-NoColon h bytes)) (fromhex-hex h bytes)

pub all_leaf_bytes-append :
    (rs : List ComplianceEvent) (hs : List Bytes) (r : ComplianceEvent) (h : Bytes)
    → all_leaf_bytes rs ≡ some hs
    → leaf_bytes_from_record r ≡ some h
    → all_leaf_bytes (rs ++ r ∷ []) ≡ some (hs ++ h ∷ [])
unfolding all_leaf_bytes
all_leaf_bytes-append [] hs r h es e =
    let none_yet : [] ≡ hs = cc in rw (← none_yet, all_leaf_bytes) (ground (arith, e))
all_leaf_bytes-append (q ∷ rs) hs r h es e = elim (Option-cases (leaf_bytes_from_record q)) [
  | inl bad ↦ ground arith
  | inr (k, good) ↦ elim (Option-cases (all_leaf_bytes rs)) [
    | inl bad ↦ ground arith
    | inr (ks, goods) ↦
        let split : (k ∷ ks) ≡ hs = ground arith in
        rw (all_leaf_bytes, good, all_leaf_bytes-append rs ks r h goods e, ← split)
  ]
]

pub length-all_leaf_bytes :
    (rs : List ComplianceEvent) (hs : List Bytes)
    → all_leaf_bytes rs ≡ some hs
    → length hs ≡ length rs
unfolding all_leaf_bytes
length-all_leaf_bytes [] hs e = let none_yet : [] ≡ hs = cc in rw (← none_yet) refl
length-all_leaf_bytes (q ∷ rs) hs e = elim (Option-cases (leaf_bytes_from_record q)) [
  | inl bad ↦ ground arith
  | inr (k, good) ↦ elim (Option-cases (all_leaf_bytes rs)) [
    | inl bad ↦ ground arith
    | inr (ks, goods) ↦
        let split : (k ∷ ks) ≡ hs = ground arith in
        rw (← split) (ap suc (length-all_leaf_bytes rs ks goods))
  ]
]

pub all_leaf_bytes-cons :
    (r : ComplianceEvent) (rs : List ComplianceEvent) (hs : List Bytes)
    → all_leaf_bytes (r ∷ rs) ≡ some hs
    → (b : Bytes) × (bs : List Bytes) × (leaf_bytes_from_record r ≡ some b)
      × (all_leaf_bytes rs ≡ some bs)
      × ((b ∷ bs) ≡ hs)
unfolding all_leaf_bytes
all_leaf_bytes-cons r rs hs h = elim (Option-cases (leaf_bytes_from_record r)) [
  | inl bad ↦ ground arith
  | inr (b, first) ↦ elim (Option-cases (all_leaf_bytes rs)) [
    | inl bad ↦ ground arith
    | inr (bs, rest) ↦
        (b, bs, first, rest, some-injective (sym (rw (all_leaf_bytes, first, rest) refl) ∙ h))
  ]
]
