-- ===== src/Wire/Capability.antt =====
-- hdp-spec/hdp_proto/capabilities.py: `CapabilityDescriptor` and its wire form.
use hermes_device_protocol.Prelude.Result.{Result, err, ok, ◌>>=◌}
use hermes_device_protocol.Prelude.Int.{ℤ}
use hermes_device_protocol.Prelude.{
  List, Option, String, [], if◌then◌else◌, none, some, str_eq, ◌∷◌,
}
use hermes_device_protocol.Wire.{
  Fields, Items, Json, WireError, array, empty, end, field, get, integer, invalid, item, object,
  require_dict, require_int, require_str, string,
}

pub record CapabilityDescriptor : Type 0 where
  pub name : String
  pub version : ℤ
  pub input_schema : Fields
  pub output_schema : Fields

abbrev pub not_empty : String → Result WireError String
not_empty s = if str_eq s "" then err (invalid "name") else ok s

unfoldable pub descriptor_from_fields : Fields → Result WireError CapabilityDescriptor
unfolding require_str require_int require_dict
descriptor_from_fields d = require_str d "name" >>= λ raw. not_empty raw >>= λ name.
    require_int d "version" >>= λ version. require_dict d "input_schema" >>= λ input_schema.
    require_dict d "output_schema" >>= λ output_schema. ok (record {
      name = name;
      version = version;
      input_schema = input_schema;
      output_schema = output_schema;
    })

-- `CapabilityDescriptor.from_wire`
unfoldable pub descriptor_from_wire : Json → Result WireError CapabilityDescriptor
unfolding descriptor_from_fields
descriptor_from_wire (object d) = descriptor_from_fields d
descriptor_from_wire _ = err (invalid "capability")

unfoldable pub descriptor_to_wire : CapabilityDescriptor → Json
descriptor_to_wire c = object (
    field "name" (string c.name) (
      field "version" (integer c.version) (
        field "input_schema" (object c.input_schema)
          (field "output_schema" (object c.output_schema) empty))))

unfoldable pub descriptors_from_items : Items → Result WireError (List CapabilityDescriptor)
unfolding descriptor_from_wire
descriptors_from_items end = ok []
descriptors_from_items (item v rest) =
    let later = descriptors_from_items rest in
    descriptor_from_wire v >>= λ c. later >>= λ cs. ok (c ∷ cs)

abbrev pub as_descriptors : Json → Result WireError (List CapabilityDescriptor)
as_descriptors (array items) = descriptors_from_items items
as_descriptors _ = err (invalid "capabilities")

-- d.get("capabilities", [])
abbrev pub or_end : Option Json → Json
or_end none = array end
or_end (some v) = v

-- `_capabilities_from_wire(d.get("capabilities", []))`
unfoldable pub capabilities_from_wire : Fields → Result WireError (List CapabilityDescriptor)
unfolding get descriptors_from_items
capabilities_from_wire d = as_descriptors (or_end (get "capabilities" d))

-- [c.to_wire() for c in self.capabilities]
unfoldable pub descriptors_to_items : List CapabilityDescriptor → Items
unfolding descriptor_to_wire
descriptors_to_items [] = end
descriptors_to_items (c ∷ cs) = item (descriptor_to_wire c) (descriptors_to_items cs)
