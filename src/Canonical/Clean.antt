-- ===== src/Canonical/Clean.antt =====
-- `_clean` of src/openwright/canonical.py: what it accepts, and what it makes.
use openwright.Common.{
  ◌≡◌, refl, sym, ◌∙◌, inl, inr, Bool, true, false, ◌||◌, none, some, arith, Bool-cases,
}
use openwright.Canonical.{Value, Items, clean, Fields, clean_fields, clean_items, is_null}

-- A float stands somewhere in the value.
unfoldable mutual
  pub has_float : Value → Bool
  has_float (Value.float r) = true
  has_float (Value.list vs) = has_float_items vs
  has_float (Value.dict fs) = has_float_fields fs
  has_float Value.null = false
  has_float (Value.bool b) = false
  has_float (Value.int n) = false
  has_float (Value.minus n) = false
  has_float (Value.str s) = false

  pub has_float_items : Items → Bool
  has_float_items Items.nil = false
  has_float_items (Items.item v vs) = has_float v || has_float_items vs

  pub has_float_fields : Fields → Bool
  has_float_fields Fields.empty = false
  has_float_fields (Fields.field k v fs) = has_float v || has_float_fields fs

mutual
  unfolding clean clean_items clean_fields has_float has_float_items has_float_fields

  clean_refuses : (v : Value) → has_float v ≡ true → clean v ≡ none
  clean_refuses (Value.float r) h = refl
  clean_refuses (Value.list vs) h = rw (clean_items_refuses vs h)
  clean_refuses (Value.dict fs) h = rw (clean_fields_refuses fs h)
  clean_refuses Value.null h = cc
  clean_refuses (Value.bool b) h = cc
  clean_refuses (Value.int n) h = cc
  clean_refuses (Value.minus n) h = cc
  clean_refuses (Value.str s) h = cc

  clean_items_refuses : (vs : Items) → has_float_items vs ≡ true → clean_items vs ≡ none
  clean_items_refuses Items.nil h = cc
  clean_items_refuses (Items.item v vs) h = ground (arith, clean_refuses v, clean_items_refuses vs)

  clean_fields_refuses : (fs : Fields) → has_float_fields fs ≡ true → clean_fields fs ≡ none
  clean_fields_refuses Fields.empty h = cc
  clean_fields_refuses (Fields.field k v fs) h =
      ground (arith, clean_refuses v, clean_fields_refuses fs)

mutual
  unfolding clean clean_items clean_fields has_float has_float_items has_float_fields

  -- A cleaned value is there, and cleaning it again changes nothing.
  clean_accepts :
      (v : Value)
      → has_float v ≡ false
      → (w : Value) × (clean v ≡ some w) × (clean w ≡ some w) × (is_null v ≡ is_null w)
  clean_accepts (Value.float r) h = cc
  clean_accepts (Value.list vs) h =
      let (ws, e, again) = clean_items_accepts vs h in (Value.list ws, rw e, rw again, refl)
  clean_accepts (Value.dict fs) h =
      let (gs, e, again) = clean_fields_accepts fs h in (Value.dict gs, rw e, rw again, refl)
  clean_accepts Value.null h = (Value.null, refl, refl, refl)
  clean_accepts (Value.bool b) h = (Value.bool b, refl, refl, refl)
  clean_accepts (Value.int n) h = (Value.int n, refl, refl, refl)
  clean_accepts (Value.minus n) h = (Value.minus n, refl, refl, refl)
  clean_accepts (Value.str s) h = (Value.str s, refl, refl, refl)

  clean_items_accepts :
      (vs : Items)
      → has_float_items vs ≡ false
      → (ws : Items) × (clean_items vs ≡ some ws) × (clean_items ws ≡ some ws)
  clean_items_accepts Items.nil h = (Items.nil, refl, refl)
  clean_items_accepts (Items.item v vs) h =
      let (w, e, again, same) = clean_accepts v (ground arith) in
      let (ws, es, agains) = clean_items_accepts vs (ground arith) in
      (Items.item w ws, rw (e, es), rw (again, agains))

  clean_fields_accepts :
      (fs : Fields)
      → has_float_fields fs ≡ false
      → (gs : Fields) × (clean_fields fs ≡ some gs) × (clean_fields gs ≡ some gs)
  clean_fields_accepts Fields.empty h = (Fields.empty, refl, refl)
  clean_fields_accepts (Fields.field k v fs) h =
      let (w, e, again, same) = clean_accepts v (ground arith) in
      let (gs, es, agains) = clean_fields_accepts fs (ground arith) in
      elim (Bool-cases (is_null v)) [
        | inl gone ↦ (gs, rw gone es, agains)
        | inr kept ↦
            let kept_too : is_null w ≡ false = sym same ∙ kept in
            (Fields.field k w gs, rw (kept, e, es), rw (kept_too, again, agains))
      ]

-- A value with a float in it, at any depth, is refused; any other is cleaned, and what cleaning
-- made is clean.
pub clean_lem :
    (v : Value)
    → (has_float v ≡ true → clean v ≡ none)
      × (has_float v ≡ false → (w : Value) × (clean v ≡ some w) × (clean w ≡ some w))
clean_lem v = (clean_refuses v, λ h. let (w, e, again, same) = clean_accepts v h in (w, e, again))
