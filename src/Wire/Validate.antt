-- ===== src/Wire/Validate.antt =====
-- hdp-spec/hdp_proto/capabilities.py: `validate_output`, which checks a value against the subset
-- of JSON Schema that the capabilities use. A schema comes from a device and is only known to be an
-- object: where it is not of the expected form, Python raises TypeError or AttributeError. The
-- recursion takes fuel for the depth of the schema; `validate_output` gives it that much.
use hermes_device_protocol.Prelude.Strings.{codes}
use hermes_device_protocol.Prelude.Result.{Result, err, ok, require, ◌>>◌}
use hermes_device_protocol.Prelude.{
  Bool, List, Option, String, [], false, if◌then◌else◌, is_some, ltb, none, some, str_eq, suc, true,
  zero, ℕ, ◌&&◌, ◌==◌, ◌||◌, ◌∷◌,
}
use hermes_device_protocol.Wire.{
  Fields, Items, Json, array, boolean, empty, end, field, get, integer, item, null, object, or_null,
  real, string,
}

-- SchemaValidationError, the Python exceptions above, and the end of the fuel
pub data SchemaError : Type 0 where
  mismatch bad_schema out_of_fuel : SchemaError

abbrev pub Checked : Type 0
Checked = Result SchemaError (Unit {0})

-- `field not in value`, where the field is a text
abbrev pub require_key : String → Fields → Checked
require_key key value = require (is_some (get key value)) mismatch

-- `field not in value`: no other value is a key of a JSON object, and a list or an object cannot
-- be looked up.
abbrev pub require_field : Json → Fields → Checked
require_field (string key) value = require_key key value
require_field (array _) value = err bad_schema
require_field (object _) value = err bad_schema
require_field _ value = err mismatch

unfoldable pub require_items : Items → Fields → Checked
unfolding get
require_items end value = ok tt
require_items (item v rest) value =
    let later = require_items rest value in require_field v value >> later

-- a key of the object, by its characters
abbrev pub same_codes : List ℕ → List ℕ → Bool
same_codes [] [] = true
same_codes (c ∷ cs) (d ∷ ds) = c == d && same_codes cs ds
same_codes _ _ = false

unfoldable pub has_key_codes : List ℕ → Fields → Bool
has_key_codes cs empty = false
has_key_codes cs (field k v rest) = same_codes (codes k) cs || has_key_codes cs rest

-- a text as `required` is the sequence of its characters
unfoldable pub require_chars : List ℕ → Fields → Checked
unfolding has_key_codes
require_chars [] value = ok tt
require_chars (c ∷ cs) value =
    let later = require_chars cs value in require (has_key_codes (c ∷ []) value) mismatch >> later

-- an object as `required` is the sequence of its keys
unfoldable pub require_keys : Fields → Fields → Checked
unfolding get
require_keys empty value = ok tt
require_keys (field k v rest) value =
    let later = require_keys rest value in require_key k value >> later

-- for field in schema.get("required", [])
abbrev pub check_required : Option Json → Fields → Checked
check_required none value = ok tt
check_required (some (array items)) value = require_items items value
check_required (some (string s)) value = require_chars (codes s) value
check_required (some (object d)) value = require_keys d value
check_required (some _) value = err bad_schema

abbrev pub max : ℕ → ℕ → ℕ
max a b = if ltb a b then b else a

-- Calls of the checker on the parts of a value.
module _ (validate : Json → Json → Checked) where
  -- if key in value: the value's part, then the other properties
  abbrev pub on_key : Option Json → Json → Checked → Checked
  on_key none sub later = later
  on_key (some v) sub later = validate sub v >> later

  -- for key, sub_schema in properties.items()
  unfoldable pub check_properties : Fields → Fields → Checked
  unfolding get
  check_properties empty value = ok tt
  check_properties (field key sub rest) value =
      let later = check_properties rest value in on_key (get key value) sub later

  -- for i, item in enumerate(value)
  unfoldable pub check_items : Json → Items → Checked
  check_items schema end = ok tt
  check_items schema (item v rest) =
      let later = check_items schema rest in validate schema v >> later

  -- schema.get("properties", {}).items()
  abbrev pub on_properties : Option Json → Fields → Checked
  on_properties none value = ok tt
  on_properties (some (object d)) value = check_properties d value
  on_properties (some _) value = err bad_schema

  -- items_schema = schema.get("items")
  abbrev pub on_items : Json → Items → Checked
  on_items null value = ok tt
  on_items schema value = check_items schema value

  abbrev pub check_object : Fields → Json → Checked
  check_object schema (object value) =
      check_required (get "required" schema) value >> on_properties (get "properties" schema) value
  check_object schema _ = err mismatch

  abbrev pub check_array : Fields → Json → Checked
  check_array schema (array value) = on_items (or_null (get "items" schema)) value
  check_array schema _ = err mismatch

abbrev pub is_text : Json → Bool
is_text (string _) = true
is_text _ = false

abbrev pub is_truth : Json → Bool
is_truth (boolean _) = true
is_truth _ = false

abbrev pub is_whole : Json → Bool
is_whole (integer _) = true
is_whole _ = false

abbrev pub is_number : Json → Bool
is_number (integer _) = true
is_number (real _) = true
is_number _ = false

-- The branches of `_validate`, by the schema's type.
unfoldable pub by_type : (Json → Json → Checked) → String → Fields → Json → Checked
unfolding get check_properties check_items require_items require_chars require_keys
by_type validate t schema value =
    if str_eq t "object"
    then check_object validate schema value
    else if str_eq t "string"
    then require (is_text value) mismatch
    else if str_eq t "boolean"
    then require (is_truth value) mismatch
    else if str_eq t "integer"
    then require (is_whole value) mismatch
    else if str_eq t "number"
    then require (is_number value) mismatch
    else if str_eq t "array"
    then check_array validate schema value
    else ok tt

-- A schema with no type, or one that is no text, accepts any value.
abbrev pub on_type : (Json → Json → Checked) → Json → Fields → Json → Checked
on_type validate (string t) schema value = by_type validate t schema value
on_type validate _ schema value = ok tt

-- `_validate`; a schema that is no object has no `get`.
unfoldable pub validate : ℕ → Json → Json → Checked
unfolding by_type
validate zero schema value = err out_of_fuel
validate (suc fuel) (object schema) value =
    on_type (validate fuel) (or_null (get "type" schema)) schema value
validate (suc fuel) _ value = err bad_schema

unfoldable mutual
  pub depth : Json → ℕ
  depth (array items) = suc (depth_items items)
  depth (object d) = suc (depth_fields d)
  depth _ = 1

  pub depth_items : Items → ℕ
  depth_items end = 0
  depth_items (item v rest) = max (depth v) (depth_items rest)

  pub depth_fields : Fields → ℕ
  depth_fields empty = 0
  depth_fields (field k v rest) = max (depth v) (depth_fields rest)

-- `validate_output(descriptor, data)`
unfoldable pub validate_output : Fields → Json → Checked
unfolding validate depth
validate_output output_schema value =
    validate (suc (depth_fields output_schema)) (object output_schema) value
