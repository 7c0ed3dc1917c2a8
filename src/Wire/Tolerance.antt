-- ===== src/Wire/Tolerance.antt =====
-- Writing and reading a frame.
use hermes_device_protocol.Wire.Envelope.{
  Envelope, check_version, envelope_from_fields, envelope_from_wire, envelope_to_wire,
  is_known_type, is_valid_id, unsupported_version, versioned_from_fields,
}
use hermes_device_protocol.Store.{Python}
use hermes_device_protocol.Prelude.Result.{err, ok, ◌>>=◌}
use hermes_device_protocol.Prelude.{
  Bool, Bool-cases, String, ap, arith, eq_iff, false, inl, inr, refl, str_eq, true, ◌||◌, ◌≡◌, ◌≢◌,
}
use hermes_device_protocol.Wire.{Fields, Json, field, get, object, or_null, string}

-- An envelope of a known type with a well-formed identifier is read back as it was written.
pub envelope-roundtrip :
    (py : Python) (e : Envelope)
    → is_known_type e.type_name ≡ true
    → is_valid_id py e.id ≡ true
    → envelope_from_wire py (object (envelope_to_wire e)) ≡ ok e
unfolding envelope_from_wire envelope_to_wire
envelope-roundtrip py e known valid = ground (arith, known, valid)

-- One of the six names that `from_wire` reads.
abbrev pub is_envelope_key : String → Bool
is_envelope_key k =
    str_eq k "hdp"
    || (str_eq k "type"
        || (str_eq k "id" || (str_eq k "ts" || (str_eq k "payload" || str_eq k "corr"))))

get_other :
    (k key : String) (v : Json) (d : Fields)
    → str_eq k key ≡ false
    → get key (field k v d) ≡ get key d
unfolding get
get_other k key v d other = rw other

-- A field that the envelope does not name is ignored, whatever it holds: the result, an error
-- included, is that of the object without it.
pub envelope_ignores_unknown :
    (py : Python) (k : String) (v : Json) (d : Fields)
    → is_envelope_key k ≡ false
    → envelope_from_wire py (object (field k v d)) ≡ envelope_from_wire py (object d)
unfolding envelope_from_wire envelope_from_fields versioned_from_fields
envelope_ignores_unknown py k v d other = rw (
  get_other k "hdp" v d (ground arith),
  get_other k "type" v d (ground arith),
  get_other k "id" v d (ground arith),
  get_other k "ts" v d (ground arith),
  get_other k "payload" v d (ground arith),
  get_other k "corr" v d (ground arith),
)

other_version : (v : Json) → v ≢ string "0" → check_version v ≡ err unsupported_version
other_version (string s) h = elim (Bool-cases (str_eq s "0")) [
  | inl e ↦ absurd (h (ap string ((eq_iff s "0").0 e)))
  | inr e ↦ rw e refl
]
other_version _ h = refl

-- The version is looked at first: a frame of another version, or of none, is refused as such
-- whatever else it holds.
pub other_version_first :
    (py : Python) (d : Fields)
    → or_null (get "hdp" d) ≢ string "0"
    → envelope_from_wire py (object d) ≡ err unsupported_version
unfolding envelope_from_wire envelope_from_fields
other_version_first py d other =
    ap (λ r. r >>= λ _. versioned_from_fields py d) (other_version (or_null (get "hdp" d)) other)
