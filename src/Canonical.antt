-- ===== src/Canonical.antt =====
-- src/openwright/canonical.py: the values that are hashed, and their cleaning. The encoder
-- `json.dumps(…, sort_keys=True, …).encode("utf-8")` is a parameter, `dumps`.
pub mod Clean
pub mod Timestamp
mod Tests
use mathlib.Core.Option
use openwright.Common.{
  hex, ℕ, Bool, true, false, Option, none, some, ◌++◌, if◌then◌else◌, Bytes, Text, codes,
}

-- Python's values as JSON has them; object keys are text. `minus n` is the integer -n-1, and a
-- float keeps its repr.
mutual
  pub data Value : Type 0 where
    null : Value
    bool : Bool → Value
    int : ℕ → Value
    minus : ℕ → Value
    float : Text → Value
    str : Text → Value
    list : Items → Value
    dict : Fields → Value

  pub data Items : Type 0 where
    nil : Items
    item : Value → Items → Items

  pub data Fields : Type 0 where
    empty : Fields
    field : Text → Value → Fields → Fields

abbrev pub is_null : Value → Bool
is_null null = true
is_null v = false

abbrev pub keep_item : Option Value → Option Items → Option Items
keep_item (some v) (some vs) = some (item v vs)
keep_item (some v) none = none
keep_item none vs = none

abbrev pub keep_field : Text → Option Value → Option Fields → Option Fields
keep_field k (some v) (some fs) = some (field k v fs)
keep_field k (some v) none = none
keep_field k none fs = none

abbrev pub as_list : Option Items → Option Value
as_list (some vs) = some (list vs)
as_list none = none

abbrev pub as_dict : Option Fields → Option Value
as_dict (some fs) = some (dict fs)
as_dict none = none

-- `_clean`; `none` is the CanonicalizationError.
unfoldable mutual
  pub clean : Value → Option Value
  clean null = some null
  clean (bool b) = some (bool b)
  clean (int n) = some (int n)
  clean (minus n) = some (minus n)
  clean (float r) = none
  clean (str s) = some (str s)
  clean (list vs) = as_list (clean_items vs)
  clean (dict fs) = as_dict (clean_fields fs)

  pub clean_items : Items → Option Items
  clean_items nil = some nil
  clean_items (item v vs) = keep_item (clean v) (clean_items vs)

  pub clean_fields : Fields → Option Fields
  clean_fields empty = some empty
  clean_fields (field k v fs) =
      if is_null v then clean_fields fs else keep_field k (clean v) (clean_fields fs)

-- A text stands for one that UTF-8 encodes, so `encode` raises nothing: lone surrogates, on which it
-- does, are no text here.
unfoldable pub canonical_bytes : (Value → Bytes) → Value → Option Bytes
canonical_bytes dumps obj = Option.map dumps (clean obj)

-- `content_hash`, and `hash_payload` of anything but text and bytes.
unfoldable pub content_hash : (Bytes → Bytes) → (Value → Bytes) → Value → Option Text
unfolding canonical_bytes
content_hash sha256 dumps obj =
    Option.map (λ b. codes "sha256:" ++ hex (sha256 b)) (canonical_bytes dumps obj)
