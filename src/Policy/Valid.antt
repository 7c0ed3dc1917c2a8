-- ===== src/Policy/Valid.antt =====
-- What `PolicyTable.from_data` guarantees of a table that it returns.
use hermes_device_protocol.Policy.Document.{
  as_mapping, default_capability, default_target, from_data, from_fields, is_configured,
  parse_default_devices,
}
use hermes_device_protocol.Policy.{
  Entries, Mode, Modes, PolicyTable, Value, check_capability, default_device_not_mapping,
  device_key, devices_not_mapping, entry, get_value, mapping, matches_capability, nil, or_empty,
  parse_devices, parse_entries, parse_modes, raw_mode, string,
}
use hermes_device_protocol.Prelude.Result.{bind_ok, ok, ok_injective}
use hermes_device_protocol.Prelude.{
  All, Bool, Bool-cases, List, String, arith, false, inl, inr, refl, str_eq, true, ℕ, ◌||◌, ◌≡◌,
}
use mathlib.Core.Path.{subst}

abbrev pub IsCapability : String → Type 0
IsCapability c = matches_capability c ≡ true

-- a key of a device's modes: a capability or the word "default"
abbrev pub IsDeviceKey : String → Type 0
IsDeviceKey c = (str_eq c "default" || matches_capability c) ≡ true

abbrev pub IsKey : Bool → String → Type 0
IsKey true c = IsDeviceKey c
IsKey false c = IsCapability c

abbrev pub IsModes : Bool → Modes → Type 0
IsModes permit_default modes = All (λ (p : String × Mode). IsKey permit_default p.0) modes

abbrev pub IsDefaultDevice : Modes → List (String × Modes) → String × String → Type 0
IsDefaultDevice defaults devices p =
    IsCapability p.0 × (is_configured p.0 defaults devices ≡ true) × (str_eq p.1 "" ≡ false)

-- A table that may be used: only well-formed capability names, "default" only under a device, and
-- default devices named and only for configured capabilities.
pub record IsValid (t : PolicyTable) : Type 0 where
  pub defaults_ok : IsModes false t.defaults
  pub devices_ok : All (λ (d : String × Modes). IsModes true d.1) t.devices
  pub default_devices_ok : All (IsDefaultDevice t.defaults t.devices) t.default_devices

check_capability-IsKey :
    (permit_default : Bool) (k : Value) (c : String)
    → check_capability permit_default k ≡ ok c
    → IsKey permit_default c
unfolding check_capability
check_capability-IsKey true (string s) c h = ground arith
check_capability-IsKey false (string s) c h = ground arith
check_capability-IsKey permit_default _ c h = absurd (ground arith)

parse_entries-IsModes :
    (permit_default : Bool) (es : Entries) (modes : Modes)
    → parse_entries permit_default es ≡ ok modes
    → IsModes permit_default modes
unfolding parse_entries
parse_entries-IsModes permit_default nil modes h =
    subst (IsModes permit_default) (ok_injective h) tt
parse_entries-IsModes permit_default (entry k v rest) modes h =
    let (c, checked, h1) = bind_ok (check_capability permit_default k) _ h in
    let (m, _, h2) = bind_ok (raw_mode v) _ h1 in
    let (ms, parsed, h3) = bind_ok (parse_entries permit_default rest) _ h2 in
    subst (IsModes permit_default) (ok_injective h3) (
      check_capability-IsKey permit_default k c checked,
      parse_entries-IsModes permit_default rest ms parsed,
    )

parse_modes-IsModes :
    (permit_default : Bool) (v : Value) (modes : Modes)
    → parse_modes permit_default v ≡ ok modes
    → IsModes permit_default modes
unfolding parse_modes
parse_modes-IsModes permit_default (mapping es) modes h =
    parse_entries-IsModes permit_default es modes h
parse_modes-IsModes permit_default _ modes h = absurd (ground arith)

parse_devices_ok :
    (es : Entries) (devices : List (String × Modes))
    → parse_devices es ≡ ok devices
    → All (λ (d : String × Modes). IsModes true d.1) devices
unfolding parse_devices
parse_devices_ok nil devices h = subst (All _) (ok_injective h) tt
parse_devices_ok (entry k v rest) devices h =
    let (d, _, h1) = bind_ok (device_key k) _ h in
    let (modes, parsed, h2) = bind_ok (parse_modes true v) _ h1 in
    let (ds, later, h3) = bind_ok (parse_devices rest) _ h2 in
    subst (All (λ (x : String × Modes). IsModes true x.1)) (ok_injective h3)
      (parse_modes-IsModes true v modes parsed, parse_devices_ok rest ds later)

default_capability-IsCapability :
    (k : Value) (c : String) → default_capability k ≡ ok c → IsCapability c
default_capability-IsCapability (string s) c h = ground arith
default_capability-IsCapability _ c h = absurd (ground arith)

default_target_named : (v : Value) (d : String) → default_target v ≡ ok d → str_eq d "" ≡ false
default_target_named (string s) d h = ground arith
default_target_named _ d h = absurd (ground arith)

module _ (defaults : Modes) (devices : List (String × Modes)) where
  parse_default_devices_ok :
      (es : Entries) (ds : List (String × String))
      → parse_default_devices defaults devices es ≡ ok ds
      → All (IsDefaultDevice defaults devices) ds
  unfolding parse_default_devices
  parse_default_devices_ok nil ds h =
      subst (All (IsDefaultDevice defaults devices)) (ok_injective h) tt
  parse_default_devices_ok (entry k v rest) ds h =
      let (c, checked, h1) = bind_ok (default_capability k) _ h in
      elim (Bool-cases (is_configured c defaults devices)) [
        | inr no_rule ↦ absurd (ground arith)
        | inl rule ↦
            let h1' = rw rule at h1 in
            let (d, named, h2) = bind_ok (default_target v) _ h1' in
            let (later, parsed, h3) = bind_ok (parse_default_devices defaults devices rest) _ h2 in
            subst (All (IsDefaultDevice defaults devices)) (ok_injective h3) (
              (default_capability-IsCapability k c checked, rule, default_target_named v d named),
              parse_default_devices_ok rest later parsed,
            )
      ]

from_fields-IsValid :
    (es : Entries) (policy_seq : ℕ) (t : PolicyTable)
    → from_fields es policy_seq ≡ ok t
    → IsValid t × (t.policy_seq ≡ policy_seq)
unfolding from_fields
from_fields-IsValid es policy_seq t h =
    let (defaults, parsed, h1) =
      bind_ok (parse_modes false (or_empty (get_value "defaults" es))) _ h in
    let (raw_devices, _, h2) =
      bind_ok (as_mapping devices_not_mapping (or_empty (get_value "devices" es))) _ h1 in
    let (devices, parsed_devices, h3) = bind_ok (parse_devices raw_devices) _ h2 in
    let (raw, _, h4) =
      bind_ok (as_mapping default_device_not_mapping (or_empty (get_value "default_device" es))) _
        h3 in
    let (targets, parsed_targets, h5) = bind_ok (parse_default_devices defaults devices raw) _ h4 in
    subst (λ (x : PolicyTable). IsValid x × (x.policy_seq ≡ policy_seq)) (ok_injective h5)
      (
        record {
          defaults_ok = parse_modes-IsModes false _ defaults parsed;
          devices_ok = parse_devices_ok raw_devices devices parsed_devices;
          default_devices_ok = parse_default_devices_ok defaults devices raw targets parsed_targets;
        },
        refl,
      )

-- Every table that `from_data` returns is valid and carries the sequence number it was given.
pub from_data-IsValid :
    (v : Value) (policy_seq : ℕ) (t : PolicyTable)
    → from_data v policy_seq ≡ ok t
    → IsValid t × (t.policy_seq ≡ policy_seq)
unfolding from_data
from_data-IsValid (mapping es) policy_seq t h = from_fields-IsValid es policy_seq t (ground arith)
from_data-IsValid _ policy_seq t h = absurd (ground arith)
