-- ===== src/Canonical/Tests.antt =====
-- The theorems on src/openwright/canonical.py at concrete inputs.
use openwright.Canonical.{Fields, Value, clean, Items}
use openwright.Common.{◌≡◌, refl, none, some, codes}

abbrev fields : Fields
fields = Fields.field (codes "a") (Value.int 1) Fields.empty

abbrev nested_float : Value
nested_float = Value.list (
    Items.item (Value.dict (Fields.field (codes "b") (Value.float (codes "0.5")) fields)) Items.nil)

refused : clean nested_float ≡ none
unfolding clean
refused = refl

dropped : clean (Value.dict (Fields.field (codes "c") Value.null fields)) ≡ some (Value.dict fields)
unfolding clean
dropped = refl
