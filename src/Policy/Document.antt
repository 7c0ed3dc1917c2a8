-- ===== src/Policy/Document.antt =====
-- hdp-bridge/hdp_bridge/policy.py: `PolicyTable.from_data`, and the lookups of a table.
use hermes_device_protocol.Policy.{
  Decision, Entries, Mode, Modes, PolicyError, PolicyTable, Source, Value, all_top_level,
  bad_default_capability, bad_default_device, bad_version, default_device_not_mapping, deny,
  device_capability, device_default, devices_not_mapping, entry, equals_one, fallback, get_value,
  global_default, mapping, matches_capability, nil, not_a_mapping, or_empty, parse_devices,
  parse_modes, string, unconfigured_capability, unsupported_keys,
}
use hermes_device_protocol.Prelude.Result.{Result, err, ok, ◌>>=◌}
use hermes_device_protocol.Prelude.{
  Bool, List, Option, String, [], false, if◌then◌else◌, is_some, none, not, some, str_eq, ℕ, ◌&&◌,
  ◌||◌, ◌∷◌,
}

-- A mapping's value for a key: the first entry with that key.
module _ {V : Type 0} where
  unfoldable pub lookup : String → List (String × V) → Option V
  lookup key [] = none
  lookup key ((k, v) ∷ rest) = if str_eq k key then some v else lookup key rest

abbrev pub has_capability : String → Modes → Bool
has_capability c modes = is_some (lookup c modes)

-- `capability in configured_capabilities`: named by the defaults, or by a device other than as the
-- word "default"
unfoldable pub configured_by_devices : String → List (String × Modes) → Bool
unfolding lookup
configured_by_devices c [] = false
configured_by_devices c ((d, modes) ∷ rest) =
    not (str_eq c "default") && has_capability c modes || configured_by_devices c rest

abbrev pub is_configured : String → Modes → List (String × Modes) → Bool
is_configured c defaults devices = has_capability c defaults || configured_by_devices c devices

abbrev pub default_capability : Value → Result PolicyError String
default_capability (string s) = if matches_capability s then ok s else err bad_default_capability
default_capability _ = err bad_default_capability

abbrev pub default_target : Value → Result PolicyError String
default_target (string s) = if str_eq s "" then err bad_default_device else ok s
default_target _ = err bad_default_device

module _ (defaults : Modes) (devices : List (String × Modes)) where
  unfoldable pub parse_default_devices : Entries → Result PolicyError (List (String × String))
  unfolding configured_by_devices lookup
  parse_default_devices nil = ok []
  parse_default_devices (entry k v rest) =
      let later = parse_default_devices rest in
      default_capability k >>= λ capability.
      (if is_configured capability defaults devices
        then (default_target v >>= λ device_id. later >>= λ ds. ok ((capability, device_id) ∷ ds))
        else err unconfigured_capability)

abbrev pub as_mapping : PolicyError → Value → Result PolicyError Entries
as_mapping e (mapping es) = ok es
as_mapping e _ = err e

-- The fields of a document whose top level has been checked.
unfoldable pub from_fields : Entries → ℕ → Result PolicyError PolicyTable
unfolding parse_default_devices
from_fields es policy_seq = parse_modes false (or_empty (get_value "defaults" es)) >>= λ defaults.
    as_mapping devices_not_mapping (or_empty (get_value "devices" es)) >>= λ raw_devices.
    parse_devices raw_devices >>= λ devices.
    as_mapping default_device_not_mapping (or_empty (get_value "default_device" es)) >>= λ raw.
    parse_default_devices defaults devices raw >>= λ default_devices. ok (record {
      defaults = defaults;
      devices = devices;
      default_devices = default_devices;
      policy_seq = policy_seq;
    })

unfoldable pub from_data : Value → ℕ → Result PolicyError PolicyTable
unfolding from_fields
from_data (mapping es) policy_seq =
    if not (equals_one (get_value "version" es))
    then err bad_version
    else if not (all_top_level es)
    then err unsupported_keys
    else from_fields es policy_seq
from_data _ policy_seq = err not_a_mapping

-- The loops of `resolve` over one layer.
abbrev pub layer : Option Mode → Source → ℕ → Decision → Decision
layer none source policy_seq next = next
layer (some mode) source policy_seq next = record {
  mode = mode;
  source = source;
  policy_seq = policy_seq;
}

unfoldable pub device_modes : String → PolicyTable → Option Modes
unfolding lookup
device_modes device_id t = lookup device_id t.devices

abbrev pub from_defaults : PolicyTable → String → Decision
from_defaults t capability =
    layer (lookup capability t.defaults) global_default t.policy_seq
      (record { mode = deny; source = fallback; policy_seq = t.policy_seq })

-- `resolve` with what `_device_modes` returned
abbrev pub resolve_with : PolicyTable → String → Option Modes → Decision
resolve_with t capability none = from_defaults t capability
resolve_with t capability (some modes) =
    layer (lookup capability modes) device_capability t.policy_seq
      (layer (lookup "default" modes) device_default t.policy_seq (from_defaults t capability))

unfoldable pub resolve : PolicyTable → String → String → Decision
unfolding device_modes
resolve t device_id capability = resolve_with t capability (device_modes device_id t)

unfoldable pub default_device_for : PolicyTable → String → Option String
unfolding lookup
default_device_for t capability = lookup capability t.default_devices
