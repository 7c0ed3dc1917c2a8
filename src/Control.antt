-- ===== src/Control.antt =====
-- hdp-bridge/hdp_bridge/control.py, `_resolve_target`: the choice of the device, connection and
-- version that an invocation goes to, on the records that hdp-bridge/hdp_bridge/registry.py reads.
-- The detail and the extras of a failure are left out. `Control.Payload` has the payload's shape.
pub mod Payload
pub mod Members
pub mod Resolved
mod Tests
use hermes_device_protocol.Connection.Admission.{nonempty}
use hermes_device_protocol.Registry.Register.{CapabilityRecord, DeviceRecord, same_int}
use hermes_device_protocol.Wire.Capability.{CapabilityDescriptor}
use hermes_device_protocol.Wire.Errors
use hermes_device_protocol.Wire.{Fields}
use hermes_device_protocol.Store.{Capability, Device, RegistryDb, is_active}
use hermes_device_protocol.Prelude.Sql.{fetchone}
use hermes_device_protocol.Prelude.Dict.{Dict, get_item}
use hermes_device_protocol.Prelude.Int.{negsuc, pos, ℤ}
use hermes_device_protocol.Prelude.Result.{Result, err, ok}
use hermes_device_protocol.Prelude.{
  Bool, List, Option, String, [], false, if◌then◌else◌, is_some, leb, map, none, some, str_eq, true,
  ℕ, ◌&&◌, ◌||◌, ◌∷◌,
}
use Prim.Native.String.{compare as compare_str}
use Prim.Native.Nat.{Ordering}

abbrev pub leb_int : ℤ → ℤ → Bool
leb_int (pos m) (pos n) = leb m n
leb_int (negsuc m) (pos n) = true
leb_int (pos m) (negsuc n) = false
leb_int (negsuc m) (negsuc n) = leb n m

abbrev pub contains_int : ℤ → List ℤ → Bool
contains_int v [] = false
contains_int v (u ∷ us) = same_int u v || contains_int v us

-- [x for x in xs if p(x)]
unfoldable pub keep_if : {A : Type 0} → (A → Bool) → List A → List A
keep_if p [] = []
keep_if p (x ∷ xs) = let rest = keep_if p xs in if p x then x ∷ rest else rest

-- `Registry._to_record`; a schema is read back from the text that `register` wrote.
module _ (load_schema : String → Fields) where
  abbrev pub capability_record : Capability → CapabilityRecord
  capability_record c = record {
    name = c.name;
    version = c.version;
    input_schema = load_schema c.input_schema;
    output_schema = load_schema c.output_schema;
  }

  unfoldable pub to_record : RegistryDb → Device → DeviceRecord
  unfolding keep_if
  to_record db r = record {
    device_id = r.device_id;
    friendly_name = r.friendly_name;
    platform = r.platform;
    online = false;
    client_version = r.client_version;
    state = r.state;
    first_paired_at = r.first_paired_at;
    last_seen_at = r.last_seen_at;
    capabilities =
        map capability_record
          (keep_if (λ (c : Capability). str_eq c.device_id r.device_id) db.capabilities);
  }

  -- `Registry.list_devices`
  unfoldable pub list_devices : RegistryDb → List DeviceRecord
  unfolding to_record
  list_devices db = map (to_record db) db.devices

abbrev pub record_has_id : String → DeviceRecord → Bool
record_has_id d r = str_eq r.device_id d

-- `Registry.get`: the record of the first row
abbrev pub get_record : String → List DeviceRecord → Option DeviceRecord
get_record d records = fetchone (record_has_id d) records

abbrev pub str_leb : String → String → Bool
str_leb a b = elim (compare_str a b) [ Ordering.gt ↦ false | _ ↦ true ]

abbrev pub insert_sorted : DeviceRecord → List DeviceRecord → List DeviceRecord
insert_sorted r [] = r ∷ []
insert_sorted r (s ∷ rs) =
    let rest = insert_sorted r rs in
    if str_leb r.device_id s.device_id then r ∷ (s ∷ rs) else s ∷ rest

-- sorted(records, key=lambda record: record.device_id)
unfoldable pub sort_by_id : List DeviceRecord → List DeviceRecord
sort_by_id [] = []
sort_by_id (r ∷ rs) = insert_sorted r (sort_by_id rs)

-- A `_ResolutionFailure` by its code and device, or a Python exception.
pub data Unresolved : Type 0 where
  failure : Errors.ErrorCode → Option String → Unresolved
  key_error stop_iteration : Unresolved

-- `_ResolvedTarget`
pub record ResolvedTarget : Type 0 where
  pub device_id : String
  pub connection : ℕ
  pub version : ℤ
  pub descriptor : CapabilityDescriptor

abbrev pub is_named : String → CapabilityRecord → Bool
is_named capability c = str_eq c.name capability

abbrev pub is_acceptable : List ℤ → CapabilityRecord → Bool
is_acceptable acceptable c = contains_int c.version acceptable

abbrev pub larger : ℤ → Option ℤ → ℤ
larger v none = v
larger v (some u) = if leb_int v u then u else v

-- max(...) of the versions, none where there is none
unfoldable pub greatest : List CapabilityRecord → Option ℤ
greatest [] = none
greatest (c ∷ cs) = let rest = greatest cs in some (larger c.version rest)

abbrev pub has_version : ℤ → CapabilityRecord → Bool
has_version v c = same_int c.version v

abbrev pub descriptor_of : CapabilityRecord → CapabilityDescriptor
descriptor_of c = record {
  name = c.name;
  version = c.version;
  input_schema = c.input_schema;
  output_schema = c.output_schema;
}

abbrev pub with_capability :
    String → ℕ → ℤ → Option CapabilityRecord → Result Unresolved ResolvedTarget
with_capability d connection v none = err stop_iteration
with_capability d connection v (some c) =
    ok
      (record { device_id = d; connection = connection; version = v; descriptor = descriptor_of c })

abbrev pub with_version :
    String → ℕ → List CapabilityRecord → Option ℤ → Result Unresolved ResolvedTarget
with_version d connection cs none = err (failure Errors.version_incompatible (some d))
with_version d connection cs (some v) = with_capability d connection v (fetchone (has_version v) cs)

-- The version, once the device, its connection and its capabilities of the name are known
abbrev pub select_version :
    List ℤ → String → ℕ → List CapabilityRecord → Result Unresolved ResolvedTarget
select_version acceptable d connection cs =
    with_version d connection cs (greatest (keep_if (is_acceptable acceptable) cs))

module _ (capability : String) (acceptable : List ℤ) (connections : Dict ℕ)
    (records : List DeviceRecord) where
  abbrev pub offline : String → Result Unresolved ResolvedTarget
  offline d = err (failure Errors.device_offline (some d))

  abbrev pub nonempty_caps :
      String → String → ℕ → List CapabilityRecord → Result Unresolved ResolvedTarget
  nonempty_caps asked d connection [] = err (failure Errors.capability_unsupported (some asked))
  nonempty_caps asked d connection (c ∷ cs) = select_version acceptable d connection (c ∷ cs)

  -- A device that was asked for by its identifier
  abbrev pub requested_target :
      String → Option ℕ → Option DeviceRecord → Result Unresolved ResolvedTarget
  requested_target d (some connection) (some r) =
      if is_active r.state
      then nonempty_caps d r.device_id connection (keep_if (is_named capability) r.capabilities)
      else offline d
  requested_target d _ _ = offline d

  abbrev pub is_candidate : DeviceRecord → Bool
  is_candidate r =
      is_active r.state
      && (is_some (get_item r.device_id connections)
          && is_some (fetchone (is_named capability) r.capabilities))

  abbrev pub connected_target : DeviceRecord → Option ℕ → Result Unresolved ResolvedTarget
  connected_target r none = err key_error
  connected_target r (some connection) =
      select_version acceptable r.device_id connection
        (keep_if (is_named capability) r.capabilities)

  abbrev pub default_target : Option DeviceRecord → Result Unresolved ResolvedTarget
  default_target none = err (failure Errors.ambiguous_device none)
  default_target (some r) = connected_target r (get_item r.device_id connections)

  abbrev pub is_default : Option String → DeviceRecord → Bool
  is_default none r = false
  is_default (some d) r = str_eq r.device_id d

  -- `configured` is `policy_table.default_device_for(capability)`.
  abbrev pub candidate_target : Option String → List DeviceRecord → Result Unresolved ResolvedTarget
  candidate_target configured [] = err (failure Errors.no_matching_device none)
  candidate_target configured (r ∷ []) = connected_target r (get_item r.device_id connections)
  candidate_target configured (r ∷ (s ∷ rs)) =
      default_target (fetchone (is_default configured) (r ∷ (s ∷ rs)))

  abbrev pub by_request : Option String → Option String → Result Unresolved ResolvedTarget
  by_request configured none =
      candidate_target configured (sort_by_id (keep_if is_candidate records))
  by_request configured (some d) =
      requested_target d (get_item d connections) (get_record d records)

  -- `_resolve_target`
  unfoldable pub resolve_target : Option String → Option String → Result Unresolved ResolvedTarget
  unfolding keep_if sort_by_id greatest get_item
  resolve_target configured requested = by_request configured (nonempty requested)
