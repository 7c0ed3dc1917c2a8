-- ===== src/Wire/Tests.antt =====
-- The theorems on frames at concrete values.
use hermes_device_protocol.Wire.Termination.{validate_output_ends}
use hermes_device_protocol.Pairing.{upper}
use hermes_device_protocol.Prelude.Strings.{contains}
use hermes_device_protocol.Wire.Validate.{bad_schema, mismatch, out_of_fuel, validate_output}
use hermes_device_protocol.Wire.Tolerance.{envelope-roundtrip}
use hermes_device_protocol.Wire.Envelope.{
  Envelope, envelope_from_wire, envelope_to_wire, is_known_type, is_valid_id,
}
use hermes_device_protocol.Wire.{
  Fields, array, boolean, empty, end, field, integer, item, object, string,
}
use hermes_device_protocol.Ids.{parse}
use hermes_device_protocol.Store.{Python}
use hermes_device_protocol.Prelude.Int.{pos}
use hermes_device_protocol.Prelude.Result.{err, ok}
use hermes_device_protocol.Prelude.{[], refl, some, true, ◌∷◌, ◌≡◌, ◌≢◌}

abbrev py : Python
py = record { sha256 = λ bytes. ""; upper_other = λ c. c ∷ [] }

abbrev frame : Envelope
frame = record {
  type_name = "ack";
  id = "01ARZ3NDEKTSV4RRFFQ69G5FAV";
  ts = pos 1_700_000_000;
  payload = empty;
  corr = some "01ARZ3NDEKTSV4RRFFQ69G5FAW";
}

frame_type : is_known_type frame.type_name ≡ true
unfolding contains
frame_type = refl

frame_id : is_valid_id py frame.id ≡ true
unfolding parse upper
frame_id = refl

envelope-roundtrip_example : envelope_from_wire py (object (envelope_to_wire frame)) ≡ ok frame
envelope-roundtrip_example = envelope-roundtrip py frame frame_type frame_id

-- A schema whose list of required fields is a number, and one that is of the expected form.
abbrev odd_schema : Fields
odd_schema = field "type" (string "object") (field "required" (integer (pos 3)) empty)

abbrev list_schema : Fields
list_schema =
    field "type" (string "array")
      (field "items" (object (field "type" (string "string") empty)) empty)

odd_schema_fails : validate_output odd_schema (object empty) ≡ err bad_schema
unfolding validate_output
odd_schema_fails = refl

list_schema_mismatch : validate_output list_schema (array (item (boolean true) end)) ≡ err mismatch
unfolding validate_output
list_schema_mismatch = refl

validate_output_ends_example : validate_output odd_schema (object empty) ≢ err out_of_fuel
validate_output_ends_example = validate_output_ends odd_schema (object empty)
