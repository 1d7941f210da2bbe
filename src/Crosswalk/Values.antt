-- ===== src/Crosswalk/Values.antt =====
-- Python's operators on the values of event dumps and crosswalks, as src/openwright/crosswalk.py
-- uses them, and `_get`. Floats are compared by their repr.
use openwright.Canonical.{Value, Fields, is_null, Items}
use openwright.Common.{
  bytes_eq, ℕ, suc, Bool, true, false, not, ◌&&◌, ◌||◌, Option, none, some, List, [], ◌∷◌, ◌++◌,
  ltb, leb, ◌==◌, if◌then◌else◌, Text,
}

-- A number's sign and size: `(true, n)` is n and `(false, n)` is -n-1. Booleans are numbers.
abbrev pub number : Value → Option (Bool × ℕ)
number (Value.bool b) = some (true, (if b then 1 else 0))
number (Value.int n) = some (true, n)
number (Value.minus n) = some (false, n)
number v = none

abbrev eq_bool : Bool → Bool → Bool
eq_bool true b = b
eq_bool false b = not b

abbrev eq_number : Bool × ℕ → Option (Bool × ℕ) → Bool
eq_number (s, a) none = false
eq_number (s, a) (some (t, b)) = eq_bool s t && (a == b)

abbrev ge_number : Bool × ℕ → Bool × ℕ → Bool
ge_number (true, a) (true, b) = leb b a
ge_number (true, a) (false, b) = true
ge_number (false, a) (true, b) = false
ge_number (false, a) (false, b) = leb a b

abbrev pub size : Fields → ℕ
size Fields.empty = 0
size (Fields.field k v fs) = suc (size fs)

-- `d[k]` and `k in d`; `none` is a missing key.
unfoldable pub lookup : Text → Fields → Option Value
lookup k Fields.empty = none
lookup k (Fields.field j v fs) = if bytes_eq k j then some v else lookup k fs

-- `==`
unfoldable mutual
  unfolding lookup

  pub eq_value : Value → Value → Bool
  eq_value Value.null w = is_null w
  eq_value (Value.bool b) w = eq_number (true, (if b then 1 else 0)) (number w)
  eq_value (Value.int n) w = eq_number (true, n) (number w)
  eq_value (Value.minus n) w = eq_number (false, n) (number w)
  eq_value (Value.float r) (Value.float s) = bytes_eq r s
  eq_value (Value.str s) (Value.str t) = bytes_eq s t
  eq_value (Value.list vs) (Value.list ws) = eq_items vs ws
  eq_value (Value.dict fs) (Value.dict gs) = (size fs == size gs) && eq_fields fs gs
  eq_value v w = false

  pub eq_items : Items → Items → Bool
  eq_items Items.nil Items.nil = true
  eq_items (Items.item v vs) (Items.item w ws) = eq_value v w && eq_items vs ws
  eq_items vs ws = false

  -- Every field of the first has an equal one in the second.
  pub eq_fields : Fields → Fields → Bool
  eq_fields Fields.empty gs = true
  eq_fields (Fields.field k v fs) gs = elim (lookup k gs) [
    | none ↦ false
    | some w ↦ eq_value v w && eq_fields fs gs
  ]

-- `s >= t` on text.
abbrev pub ge_text : Text → Text → Bool
ge_text s [] = true
ge_text [] (d ∷ t) = false
ge_text (c ∷ s) (d ∷ t) = if c == d then ge_text s t else ltb d c

-- `>=`; `none` is the TypeError.
unfoldable mutual
  unfolding eq_value

  pub ge_value : Value → Value → Option Bool
  ge_value (Value.str s) (Value.str t) = some (ge_text s t)
  ge_value (Value.list vs) (Value.list ws) = ge_items vs ws
  ge_value v w = elim (number v) [
    | none ↦ none
    | some a ↦ elim (number w) [ none ↦ none | some b ↦ some (ge_number a b) ]
  ]

  pub ge_items : Items → Items → Option Bool
  ge_items vs Items.nil = some true
  ge_items Items.nil (Items.item w ws) = some false
  ge_items (Items.item v vs) (Items.item w ws) =
      let rest = ge_items vs ws in let first = ge_value v w in if eq_value v w then rest else first

abbrev pub truthy : Value → Bool
truthy Value.null = false
truthy (Value.bool b) = b
truthy (Value.int n) = not (n == 0)
truthy (Value.minus n) = true
truthy (Value.float r) = true
truthy (Value.str []) = false
truthy (Value.str (c ∷ s)) = true
truthy (Value.list Items.nil) = false
truthy (Value.list (Items.item v vs)) = true
truthy (Value.dict Fields.empty) = false
truthy (Value.dict (Fields.field k v fs)) = true

abbrev is_prefix : Text → Text → Bool
is_prefix [] t = true
is_prefix (c ∷ s) [] = false
is_prefix (c ∷ s) (d ∷ t) = (c == d) && is_prefix s t

abbrev is_infix : Text → Text → Bool
is_infix s [] = is_prefix s []
is_infix s (d ∷ t) = is_prefix s (d ∷ t) || is_infix s t

unfoldable pub member : Value → Items → Bool
unfolding eq_value
member v Items.nil = false
member v (Items.item w ws) = eq_value v w || member v ws

abbrev has_key : Text → Fields → Bool
has_key k Fields.empty = false
has_key k (Fields.field j v fs) = bytes_eq k j || has_key k fs

-- `v in w`; `none` is the TypeError.
unfoldable pub in_value : Value → Value → Option Bool
unfolding member
in_value v (Value.list ws) = some (member v ws)
in_value (Value.str s) (Value.str t) = some (is_infix s t)
in_value (Value.str s) (Value.dict fs) = some (has_key s fs)
in_value (Value.list vs) (Value.dict fs) = none
in_value (Value.dict gs) (Value.dict fs) = none
in_value v (Value.dict fs) = some false
in_value v w = none

-- `dotted.split(".")`
unfoldable pub split_dots : Text → Text → List Text
split_dots part [] = part ∷ []
split_dots part (c ∷ s) =
    let go_on = split_dots (part ++ c ∷ []) s in
    let next = split_dots [] s in if c == b'.' then part ∷ next else go_on

unfoldable pub get_parts : Value → List Text → Value
unfolding lookup
get_parts cur [] = cur
get_parts (Value.dict fs) (part ∷ parts) = elim (lookup part fs) [
  | none ↦ Value.null
  | some v ↦ get_parts v parts
]
get_parts cur (part ∷ parts) = Value.null

-- `_get`
unfoldable pub get : Fields → Text → Value
unfolding get_parts split_dots
get d dotted = get_parts (Value.dict d) (split_dots [] dotted)
