-- ===== src/Dicts.antt =====
-- How the code reads dictionaries that came from outside: `get`, subscripts, iteration and `int`.
-- `none` is an exception.
use openwright.Canonical.{Value, Fields, Items}
use openwright.Common.{
  bytes_eq, ℕ, ◌+◌, ◌-◌, ◌*◌, Bool, true, false, ◌&&◌, Option, none, some, List, [], ◌∷◌, leb,
  if◌then◌else◌, Text,
}
use openwright.Crosswalk.Values.{lookup, truthy, number}

-- `d.get(k, default)`
unfoldable pub dget_or : Text → Value → Fields → Value
unfolding lookup
dget_or k default d = elim (lookup k d) [ none ↦ default | some v ↦ v ]

-- `d.get(k)`
abbrev pub dget : Text → Fields → Value
dget k d = dget_or k Value.null d

-- `{k: v for k, v in d.items() if k != key}`
unfoldable pub without : Text → Fields → Fields
without key Fields.empty = Fields.empty
without key (Fields.field k v d) =
    if bytes_eq k key then without key d else Fields.field k v (without key d)

-- A value whose method `get` is called.
abbrev pub read_dict : Value → Option Fields
read_dict (Value.dict d) = some d
read_dict v = none

-- `v or {}`, before its method `get` is called.
abbrev pub read_block : Value → Option Fields
read_block v = if truthy v then read_dict v else some Fields.empty

-- A value whose method `split` is called, or that `bytes.fromhex` reads.
abbrev pub read_text : Value → Option Text
read_text (Value.str s) = some s
read_text v = none

abbrev pub items_of : Items → List Value
items_of Items.nil = []
items_of (Items.item v vs) = v ∷ items_of vs

abbrev characters_of : Text → List Value
characters_of [] = []
characters_of (c ∷ s) = Value.str (c ∷ []) ∷ characters_of s

abbrev keys_of : Fields → List Value
keys_of Fields.empty = []
keys_of (Fields.field k v d) = Value.str k ∷ keys_of d

-- `for x in v`
unfoldable pub iterate : Value → Option (List Value)
iterate (Value.list vs) = some (items_of vs)
iterate (Value.str s) = some (characters_of s)
iterate (Value.dict d) = some (keys_of d)
iterate v = none

-- What a set or a dictionary takes as a key.
abbrev pub hashable : Value → Bool
hashable (Value.list vs) = false
hashable (Value.dict d) = false
hashable v = true

-- A sign and a size, as `Crosswalk.Values.number` has them.
abbrev pub Number : Type 0
Number = Bool × ℕ

abbrev digits_from : ℕ → Text → Option ℕ
digits_from n [] = some n
digits_from n (c ∷ s) =
    let rest = digits_from (n * 10 + (c - 48)) s in if leb 48 c && leb c 57 then rest else none

-- `int(text)` of plain decimal digits.
abbrev pub digits : Text → Option ℕ
digits [] = none
digits (c ∷ s) = digits_from 0 (c ∷ s)

abbrev positive : Option ℕ → Option Number
positive none = none
positive (some n) = some (true, n)

-- `int(v)`. Text with a sign, blanks or underscores and floats, which no signed content may hold,
-- are refused here.
unfoldable pub int_of : Value → Option Number
int_of (Value.str s) = positive (digits s)
int_of v = number v

abbrev pub text_items : List Text → Items
text_items [] = Items.nil
text_items (s ∷ ss) = Items.item (Value.str s) (text_items ss)

-- A dictionary display.
abbrev pub dict_of : List (Text × Value) → Fields
dict_of [] = Fields.empty
dict_of ((k, v) ∷ rest) = Fields.field k v (dict_of rest)

-- `d[key] = v`
unfoldable pub set_field : Text → Value → Fields → Fields
set_field key v Fields.empty = Fields.field key v Fields.empty
set_field key v (Fields.field k w d) =
    if bytes_eq k key then Fields.field k v d else Fields.field k w (set_field key v d)
