-- ===== src/Registry/Tests.antt =====
-- The theorems on the registry at a concrete database.
use hermes_device_protocol.Registry.Written.{
  AreRowsOf, IsInitial, IsKept, IsWritten, register_writes,
}
use hermes_device_protocol.Registry.Register.{DeviceRecord, register}
use hermes_device_protocol.Wire.{empty}
use hermes_device_protocol.Prelude.Int.{pos}
use mathlib.Core.Path.{subst}
use hermes_device_protocol.Registry.Removal.{removal_refused}
use hermes_device_protocol.Registry.Roles.{IsPromoted, IsWellFormed, promote-IsPromoted}
use hermes_device_protocol.Registry.Issued.{issue-verify}
use hermes_device_protocol.Registry.Revoked.{revoke_locks_out, revoke_none_revokes}
use hermes_device_protocol.Registry.{
  deregister, device_role_error, has_device_id, hash_credential, integrity_error, is_active_device,
  issue_credential, new_credential, promote, remove_primary, resolve_device, revoke_credential,
  verify_credential,
}
use hermes_device_protocol.Store.{
  Capability, Device, Python, RegistryDb, Role, Text, active, primary, revoked, secondary,
}
use hermes_device_protocol.Prelude.Result.{err, is_ok, ok}
use hermes_device_protocol.Prelude.Sql.{delete, fetchone, rowcount}
use hermes_device_protocol.Prelude.{
  Bool-cases, List, String, [], arith, eq_iff, false, if◌then◌else◌, inl, inr, leb, length, none,
  refl, some, str_eq, true, ◌++◌, ◌∷◌, ◌≡◌, ◌≢◌, ◌≤◌,
}

-- A stand-in for the digest that tells two texts apart.
abbrev py : Python
py = record {
  sha256 = λ bytes. if leb 2 (length bytes) then "long" else "short";
  upper_other = λ c. c ∷ [];
}

abbrev device_row : String → Role → Device
device_row d role = record {
  device_id = d;
  friendly_name = d;
  platform = "android";
  client_version = "1";
  first_paired_at = 10;
  last_seen_at = 20;
  state = active;
  device_pubkey = "";
  role = role;
}

abbrev two_devices : RegistryDb
two_devices = record {
  devices = device_row "phone" primary ∷ (device_row "tablet" secondary ∷ []);
  credentials = new_credential "phone" "long" 10 ∷ [];
  capabilities = [];
  pending_enrollments = [];
  pairing_lock = none;
}

abbrev token : Text
token = b'a' ∷ (b'b' ∷ [])

token_hash : hash_credential py token ≡ ok "long"
unfolding hash_credential
token_hash = refl

phone_verifies : verify_credential py "phone" token two_devices.credentials ≡ ok true
unfolding verify_credential
phone_verifies = refl

two_devices_keyed : (d : String) → rowcount (has_device_id d) two_devices.devices ≤ 1
two_devices_keyed d = elim (Bool-cases (str_eq "phone" d)) [
  | inl e ↦
      subst (λ k. rowcount (has_device_id k) two_devices.devices ≤ 1) ((eq_iff "phone" d).0 e)
        (omega arith)
  | inr e ↦ ground arith
]

two_devices-IsWellFormed : IsWellFormed two_devices.devices
two_devices-IsWellFormed = record { keyed = two_devices_keyed; one_primary = omega arith }

revoke_locks_out_example :
    let after = (revoke_credential "phone" 30 two_devices).1 in
    (verify_credential py "phone" token after.credentials ≡ ok false)
    × (resolve_device py token after.credentials ≢ ok (some "phone"))
    × (verify_credential py "tablet" token after.credentials
        ≡ verify_credential py "tablet" token two_devices.credentials)
revoke_locks_out_example =
    revoke_locks_out py "phone" 30 two_devices token "long" "tablet" token_hash refl

revoke_none_revokes_example :
    ((revoke_credential "tablet" 30 two_devices).0 ≡ 0)
    × (fetchone (has_device_id "tablet") (revoke_credential "tablet" 30 two_devices).1.devices
        ≡ some (record (device_row "tablet" secondary) { state = revoked }))
revoke_none_revokes_example =
    revoke_none_revokes "tablet" 30 two_devices (device_row "tablet" secondary) refl refl

issue-verify_example :
    ((issue_credential py token "tablet" 30 two_devices).0 ≡ ok tt)
    × (verify_credential py "tablet" token
          (issue_credential py token "tablet" 30 two_devices).1.credentials
        ≡ ok true)
issue-verify_example =
    issue-verify py "tablet" "long" token 30 two_devices token_hash refl (λ h. omega arith, tt)

promote-IsPromoted_example :
    ((r : Device)
      → fetchone (is_active_device "tablet") two_devices.devices ≡ some r
      → ((promote "tablet" two_devices).0 ≡ ok tt)
        × IsPromoted "tablet" r (promote "tablet" two_devices).1.devices)
    × (fetchone (is_active_device "tablet") two_devices.devices ≡ none
        → promote "tablet" two_devices ≡ (err device_role_error, two_devices))
promote-IsPromoted_example = promote-IsPromoted "tablet" two_devices two_devices-IsWellFormed

tablet_is_active :
    fetchone (is_active_device "tablet") two_devices.devices ≡ some (device_row "tablet" secondary)
tablet_is_active = refl

removal_refused_example :
    (deregister "phone" two_devices ≡ (err integrity_error, two_devices))
    × ((remove_primary "phone" two_devices).1 ≡ two_devices)
    × (is_ok (remove_primary "phone" two_devices).0 ≡ false)
removal_refused_example = removal_refused "phone" two_devices refl refl

-- A record of the phone under a new name, with one capability.
abbrev renamed_phone : DeviceRecord
renamed_phone = record {
  device_id = "phone";
  friendly_name = "New phone";
  platform = "android";
  online = true;
  client_version = "2";
  state = active;
  first_paired_at = 0;
  last_seen_at = 0;
  capabilities =
      record { name = "call"; version = pos 1; input_schema = empty; output_schema = empty } ∷ [];
}

renamed_phone_registers : (register (λ d. some "{}") renamed_phone 30 two_devices).0 ≡ ok tt
unfolding register
renamed_phone_registers = refl

register_writes_example :
    let after = (register (λ d. some "{}") renamed_phone 30 two_devices).1 in
    ((d : Device) × (fetchone (has_device_id "phone") after.devices ≡ some d)
      × IsWritten renamed_phone 30 d
      × ((old : Device)
          → fetchone (has_device_id "phone") two_devices.devices ≡ some old
          → IsKept old d)
      × (fetchone (has_device_id "phone") two_devices.devices ≡ none
          → IsInitial renamed_phone 30 d))
    × ((k : String)
        → k ≢ "phone"
        → fetchone (has_device_id k) after.devices ≡ fetchone (has_device_id k) two_devices.devices)
    × ((caps : List Capability) × AreRowsOf
          (λ d. some "{}")
          "phone"
          30
          renamed_phone.capabilities
          caps
        × (after.capabilities
            ≡ delete (λ (c : Capability). str_eq c.device_id "phone") two_devices.capabilities
              ++ caps))
register_writes_example =
    register_writes (λ d. some "{}") renamed_phone 30 two_devices renamed_phone_registers
