-- ===== src/Control/Tests.antt =====
-- The choice of a target on a concrete registry: two devices, one of them with two versions.
use hermes_device_protocol.Control.Payload.{duplicate_versions, validate_invoke_payload}
use hermes_device_protocol.Connection.Admission.{nonempty}
use hermes_device_protocol.Wire.Errors
use hermes_device_protocol.Control.Resolved.{IsTarget, resolve_target-IsTarget}
use hermes_device_protocol.Control.{ResolvedTarget, failure, list_devices, resolve_target}
use hermes_device_protocol.Registry.Register.{DeviceRecord}
use hermes_device_protocol.Wire.{Fields, array, empty, end, field, integer, item, string}
use hermes_device_protocol.Store.{Capability, Device, RegistryDb, active, secondary}
use hermes_device_protocol.Prelude.Dict.{Dict}
use hermes_device_protocol.Prelude.Int.{pos, ℤ}
use hermes_device_protocol.Prelude.Result.{err, ok}
use hermes_device_protocol.Prelude.{List, String, [], none, refl, some, ℕ, ◌∷◌, ◌≡◌}

abbrev row : String → Device
row d = record {
  device_id = d;
  friendly_name = d;
  platform = "android";
  client_version = "";
  first_paired_at = 10;
  last_seen_at = 20;
  state = active;
  device_pubkey = "";
  role = secondary;
}

abbrev offers : String → ℕ → Capability
offers d v = record {
  device_id = d;
  name = "call";
  version = pos v;
  input_schema = "{}";
  output_schema = "{}";
  advertised_at = 20;
}

abbrev db : RegistryDb
db = record {
  devices = row "phone" ∷ (row "tablet" ∷ []);
  credentials = [];
  capabilities = offers "phone" 1 ∷ (offers "phone" 2 ∷ (offers "tablet" 1 ∷ []));
  pending_enrollments = [];
  pairing_lock = none;
}

abbrev records : List DeviceRecord
records = list_devices (λ text. empty) db

abbrev connections : Dict ℕ
connections = ("phone", 7) ∷ (("tablet", 8) ∷ [])

abbrev versions : List ℤ
versions = pos 1 ∷ (pos 2 ∷ (pos 3 ∷ []))

abbrev phone_target : ResolvedTarget
phone_target = record {
  device_id = "phone";
  connection = 7;
  version = pos 2;
  descriptor = record {
    name = "call";
    version = pos 2;
    input_schema = empty;
    output_schema = empty;
  };
}

phone_resolves :
    resolve_target "call" versions connections records none (some "phone") ≡ ok phone_target
unfolding resolve_target list_devices
phone_resolves = refl

default_resolves :
    resolve_target "call" versions connections records (some "phone") none ≡ ok phone_target
unfolding resolve_target list_devices
default_resolves = refl

ambiguous_without_default :
    resolve_target "call" versions connections records none none
    ≡ err (failure Errors.ambiguous_device none)
unfolding resolve_target list_devices
ambiguous_without_default = refl

resolve_target-IsTarget_example :
    IsTarget "call" versions connections records phone_target
    × ((d : String) → nonempty (some "phone") ≡ some d → phone_target.device_id ≡ d)
resolve_target-IsTarget_example =
    resolve_target-IsTarget "call" versions connections records none (some "phone") phone_target
      phone_resolves

abbrev payload : Fields
payload = field "capability" (string "call") (
    field "acceptable_versions" (array (item (integer (pos 1)) (item (integer (pos 1)) end))) empty)

repeated_version_refused : validate_invoke_payload payload ≡ err duplicate_versions
unfolding validate_invoke_payload
repeated_version_refused = refl
