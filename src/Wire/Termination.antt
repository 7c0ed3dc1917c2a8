-- ===== src/Wire/Termination.antt =====
-- The validator and its fuel: which parts of a schema its recursion meets.
use hermes_device_protocol.Wire.Validate.{
  Checked, bad_schema, by_type, check_array, check_items, check_object, check_properties,
  check_required, depth, depth_fields, has_key_codes, is_number, is_text, is_truth, is_whole, max,
  mismatch, on_items, on_key, on_properties, on_type, out_of_fuel, require_chars, require_field,
  require_items, require_keys, validate, validate_output,
}
use hermes_device_protocol.Prelude.Strings.{codes}
use hermes_device_protocol.Prelude.Result.{err, ok, require, ◌>>◌}
use hermes_device_protocol.Prelude.{
  Bool, List, Option, Option-cases, String, [], arith, false, if◌then◌else◌, inl, inr, is_some,
  none, refl, some, str_eq, suc, true, zero, ℕ, ◌∷◌, ◌≡◌, ◌≢◌, ◌≤◌,
}
use hermes_device_protocol.Wire.{
  Fields, Items, Json, array, empty, end, field, get, item, null, object, or_null, string,
}

abbrev pub ends : Checked → Bool
ends (err out_of_fuel) = false
ends _ = true

ends_both : (m k : Checked) → ends m ≡ true → ends k ≡ true → ends (m >> k) ≡ true
ends_both (ok _) k hm hk = hk
ends_both (err _) k hm hk = ground arith

require-ends : (b : Bool) → ends (require b mismatch) ≡ true
require-ends true = refl
require-ends false = refl

require_items-ends : (items : Items) (value : Fields) → ends (require_items items value) ≡ true
unfolding require_items
require_items-ends end value = refl
require_items-ends (item v rest) value =
    ends_both (require_field v value) (require_items rest value) (one v)
      (require_items-ends rest value)
  where
    one : (v : Json) → ends (require_field v value) ≡ true
    one (string key) = require-ends (is_some (get key value))
    one (array _) = refl
    one (object _) = refl
    one _ = refl

require_chars-ends : (cs : List ℕ) (value : Fields) → ends (require_chars cs value) ≡ true
unfolding require_chars
require_chars-ends [] value = refl
require_chars-ends (c ∷ cs) value =
    ends_both _ (require_chars cs value) (require-ends (has_key_codes (c ∷ []) value))
      (require_chars-ends cs value)

require_keys-ends : (d value : Fields) → ends (require_keys d value) ≡ true
unfolding require_keys
require_keys-ends empty value = refl
require_keys-ends (field k v rest) value =
    ends_both _ (require_keys rest value) (require-ends (is_some (get k value)))
      (require_keys-ends rest value)

check_required-ends : (r : Option Json) (value : Fields) → ends (check_required r value) ≡ true
check_required-ends none value = refl
check_required-ends (some (array items)) value = require_items-ends items value
check_required-ends (some (string s)) value = require_chars-ends (codes s) value
check_required-ends (some (object d)) value = require_keys-ends d value
check_required-ends (some _) value = refl

max-le : (a b n : ℕ) → max a b ≤ n → (a ≤ n) × (b ≤ n)
max-le a b n h = (ground arith, ground arith)

le_max_left : (a b n : ℕ) → n ≤ a → n ≤ max a b
le_max_left a b n h = ground arith

le_max_right : (a b n : ℕ) → n ≤ b → n ≤ max a b
le_max_right a b n h = ground arith

-- A part of a schema is no deeper than its fields.
depth-get : (key : String) (d : Fields) (v : Json) → get key d ≡ some v → depth v ≤ depth_fields d
unfolding get depth
depth-get key empty v h = absurd (ground arith)
depth-get key (field k w rest) v h = le_if (str_eq k key) (depth-get key rest v) h
  where
    le_if :
        (b : Bool)
        → (get key rest ≡ some v → depth v ≤ depth_fields rest)
        → (if b then some w else get key rest) ≡ some v
        → depth v ≤ max (depth w) (depth_fields rest)
    le_if true later h = le_max_left (depth w) (depth_fields rest) (depth v) (ground arith)
    le_if false later h = le_max_right (depth w) (depth_fields rest) (depth v) (later h)

module _ (n : ℕ) (rec : Json → Json → Checked) where
  -- The checker ends on every schema whose depth is at most `n`.
  abbrev Ends : Type 0
  Ends = (s v : Json) → depth s ≤ n → ends (rec s v) ≡ true

  on_key-ends :
      (o : Option Json) (sub : Json) (later : Checked)
      → Ends
      → depth sub ≤ n
      → ends later ≡ true
      → ends (on_key rec o sub later) ≡ true
  on_key-ends none sub later h d ends_later = ends_later
  on_key-ends (some v) sub later h d ends_later = ends_both (rec sub v) later (h sub v d) ends_later

  check_properties-ends :
      (ps value : Fields) → Ends → depth_fields ps ≤ n → ends (check_properties rec ps value) ≡ true
  unfolding check_properties depth
  check_properties-ends empty value h d = refl
  check_properties-ends (field k sub rest) value h d =
      let fits = max-le (depth sub) (depth_fields rest) n d in
      on_key-ends (get k value) sub (check_properties rec rest value) h fits.0
        (check_properties-ends rest value h fits.1)

  check_items-ends :
      (s : Json) (items : Items) → Ends → depth s ≤ n → ends (check_items rec s items) ≡ true
  unfolding check_items
  check_items-ends s end h d = refl
  check_items-ends s (item v rest) h d =
      ends_both (rec s v) (check_items rec s rest) (h s v d) (check_items-ends s rest h d)

  on_properties-ends :
      (o : Option Json) (value : Fields)
      → Ends
      → ((p : Json) → o ≡ some p → depth p ≤ n)
      → ends (on_properties rec o value) ≡ true
  unfolding depth
  on_properties-ends none value h d = refl
  on_properties-ends (some (object ps)) value h d =
      check_properties-ends ps value h (omega (arith, d (object ps) refl))
  on_properties-ends (some _) value h d = refl

  on_items-ends :
      (s : Json) (items : Items) → Ends → depth s ≤ n → ends (on_items rec s items) ≡ true
  on_items-ends null items h d = refl
  on_items-ends s items h d = check_items-ends s items h d

  check_object-ends :
      (d : Fields) (v : Json) → Ends → depth_fields d ≤ n → ends (check_object rec d v) ≡ true
  check_object-ends d (object value) h fits =
      ends_both (check_required (get "required" d) value)
        (on_properties rec (get "properties" d) value)
        (check_required-ends (get "required" d) value)
        (on_properties-ends (get "properties" d) value h
          (λ p e. omega (arith, depth-get "properties" d p e)))
  check_object-ends d _ h fits = refl

  check_array-ends :
      (d : Fields) (v : Json) → Ends → depth_fields d ≤ n → ends (check_array rec d v) ≡ true
  check_array-ends d (array items) h fits = elim (Option-cases (get "items" d)) [
    | inl e ↦ rw e refl
    | inr (s, e) ↦ rw e (on_items-ends s items h (omega (arith, depth-get "items" d s e)))
  ]
  check_array-ends d _ h fits = refl

  by_type-ends :
      (t : String) (d : Fields) (v : Json)
      → Ends
      → depth_fields d ≤ n
      → ends (by_type rec t d v) ≡ true
  unfolding by_type
  by_type-ends t d v h fits =
      let of_object = check_object-ends d v h fits in
      let of_array = check_array-ends d v h fits in
      ground (
        arith,
        require-ends (is_text v),
        require-ends (is_truth v),
        require-ends (is_whole v),
        require-ends (is_number v),
      )

  on_type-ends :
      (t : Json) (d : Fields) (v : Json)
      → Ends
      → depth_fields d ≤ n
      → ends (on_type rec t d v) ≡ true
  on_type-ends (string t) d v h fits = by_type-ends t d v h fits
  on_type-ends _ d v h fits = refl

-- Fuel for the depth of a schema is enough, whatever the value.
validate-ends :
    (fuel : ℕ) (schema value : Json)
    → depth schema ≤ fuel
    → ends (validate fuel schema value) ≡ true
unfolding validate depth
validate-ends zero (array _) value h = absurd (omega (arith, h))
validate-ends zero (object _) value h = absurd (omega (arith, h))
validate-ends zero _ value h = absurd (omega (arith, h))
validate-ends (suc n) (object d) value h =
    on_type-ends n (validate n) (or_null (get "type" d)) d value (validate-ends n)
      (omega (arith, h))
validate-ends (suc n) _ value h = refl

ends-out_of_fuel : (m : Checked) → ends m ≡ true → m ≢ err out_of_fuel
ends-out_of_fuel (ok _) e eq = ground arith
ends-out_of_fuel (err mismatch) e eq = ground arith
ends-out_of_fuel (err bad_schema) e eq = ground arith
ends-out_of_fuel (err out_of_fuel) e eq = ground arith

-- The validator ends on every output schema and every value, well formed or not: with the fuel that
-- `validate_output` takes, the depth of the schema, it accepts, reports a mismatch or fails on the
-- schema itself, and never runs out.
pub validate_output_ends :
    (schema : Fields) (value : Json) → validate_output schema value ≢ err out_of_fuel
unfolding validate_output depth
validate_output_ends schema value =
    ends-out_of_fuel _
      (validate-ends (suc (depth_fields schema)) (object schema) value (omega arith))
