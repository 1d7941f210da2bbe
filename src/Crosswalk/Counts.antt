-- ===== src/Crosswalk/Counts.antt =====
-- The markers of an evidence gap that `evaluate` of src/openwright/crosswalk.py adds up, and when
-- Python's `int()` reads their `dropped_events`: text is ASCII, within the interpreter's limit on
-- digits.
use openwright.Crosswalk.Values.{truthy, eq_value, lookup, get_parts}
use openwright.Canonical.{Value, Fields}
use openwright.Crosswalk.{Entry}
use openwright.Common.{
  bytes_eq, ℕ, Bool, true, false, not, ◌&&◌, ◌||◌, [], ◌∷◌, leb, ◌==◌, if◌then◌else◌, any, all,
  Text, codes,
}

-- `e.get("attributes") or {}`; the model of an event types it as a dictionary.
abbrev pub as_fields : Value → Fields
as_fields (Value.dict fs) = fs
as_fields v = Fields.empty

abbrev attribute : Text → Entry → Value
attribute key e =
    get_parts (Value.dict (as_fields (get_parts (Value.dict e.fields) (codes "attributes" ∷ []))))
      (key ∷ [])

unfoldable pub is_gap_marker : Entry → Bool
unfolding eq_value lookup get_parts
is_gap_marker e = eq_value (attribute (codes "marker") e) (Value.str (codes "evidence_gap"))

-- What `str.strip` removes.
abbrev is_blank : ℕ → Bool
is_blank c = (leb 9 c && leb c 13) || (leb 28 c && leb c 32)

abbrev is_digit : ℕ → Bool
is_digit c = leb 48 c && leb c 57

-- Digits with single underscores between them, then blanks; `after` says that the last was a digit.
abbrev digits_read : Bool → Text → Bool
digits_read after [] = after
digits_read after (c ∷ s) =
    (digits_read (is_digit c) s && (is_digit c || (after && (c == 95))))
    || (after && is_blank c && all is_blank s)

abbrev after_sign : Text → Text
after_sign [] = []
after_sign (c ∷ s) = if (c == 43) || (c == 45) then s else c ∷ s

abbrev after_blanks : Text → Text
after_blanks [] = []
after_blanks (c ∷ s) = if is_blank c then after_blanks s else c ∷ s

-- `int(v)` returns.
abbrev int_reads : Value → Bool
int_reads Value.null = false
int_reads (Value.bool b) = true
int_reads (Value.int n) = true
int_reads (Value.minus n) = true
int_reads (Value.float r) = not (any (bytes_eq r) (codes "inf" ∷ codes "-inf" ∷ codes "nan" ∷ []))
int_reads (Value.str s) = digits_read false (after_sign (after_blanks s))
int_reads (Value.list vs) = false
int_reads (Value.dict fs) = false

-- `int((e.get("attributes") or {}).get("dropped_events") or 0)` returns.
unfoldable pub counts_drops : Entry → Bool
unfolding lookup get_parts
counts_drops e =
    let dropped = attribute (codes "dropped_events") e in not (truthy dropped) || int_reads dropped
