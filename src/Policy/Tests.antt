-- ===== src/Policy/Tests.antt =====
-- The theorems on the policy at a concrete document.
use hermes_device_protocol.Policy.Reload.{Attempt, reload_key_escapes, reloads, reloads-IsValid}
use hermes_device_protocol.Policy.Resolve.{IsCited, resolve-IsCited}
use hermes_device_protocol.Policy.Valid.{IsValid}
use hermes_device_protocol.Policy.Engine.{FileToken, LoadError, empty_table, new_engine, reload}
use hermes_device_protocol.Policy.Document.{from_data, resolve}
use hermes_device_protocol.Policy.{
  Entries, PolicyTable, Value, all_top_level, always, ask, entry, get_value, integer, mapping,
  matches_capability, nil, parse_devices, parse_entries, parse_mode, parse_modes, string,
  type_error,
}
use hermes_device_protocol.Store.{Text}
use hermes_device_protocol.Prelude.Result.{Result, err, ok}
use hermes_device_protocol.Prelude.{[], false, none, refl, some, true, ◌∷◌, ◌≡◌, ◌≤◌}

abbrev document : Value
document = mapping (
    entry (string "version") (integer 1) (
      entry (string "defaults") (mapping (entry (string "device.status") (string "always") nil)) (
        entry (string "devices")
          (mapping
            (entry (string "phone") (mapping (entry (string "default") (string "ask") nil)) nil))
          nil)))

abbrev parsed : PolicyTable
parsed = record {
  defaults = ("device.status", always) ∷ [];
  devices = ("phone", ("default", ask) ∷ []) ∷ [];
  default_devices = [];
  policy_seq = 1;
}

document_parses : from_data document 1 ≡ ok parsed
unfolding from_data parse_entries parse_mode matches_capability parse_modes parse_devices get_value
    all_top_level
document_parses = refl

resolve-IsCited_example :
    IsCited parsed "phone" "device.status" (resolve parsed "phone" "device.status")
resolve-IsCited_example = resolve-IsCited parsed "phone" "device.status"

phone_asks : (resolve parsed "phone" "device.status").mode ≡ ask
unfolding resolve
phone_asks = refl

abbrev token : FileToken
token = record { mtime_ns = 5; size = 6; inode = 7 }

abbrev loader : Text → Result LoadError Value
loader contents = ok document

reload_returns : (reload loader true false none (some (token, [])) new_engine).0 ≡ ok true
unfolding reload from_data parse_entries parse_mode matches_capability parse_modes parse_devices
    get_value all_top_level
reload_returns = refl

abbrev attempt : Attempt
attempt = record { force = true; initial = true; known = none; file = some (token, []) }

new_engine-IsValid : IsValid empty_table
new_engine-IsValid = record { defaults_ok = tt; devices_ok = tt; default_devices_ok = tt }

reloads-IsValid_example :
    IsValid (reloads loader (attempt ∷ attempt ∷ []) new_engine).table
    × (0 ≤ (reloads loader (attempt ∷ attempt ∷ []) new_engine).table.policy_seq)
reloads-IsValid_example =
    reloads-IsValid loader (attempt ∷ attempt ∷ []) new_engine new_engine-IsValid

abbrev numbered : Entries
numbered =
    entry (string "version") (integer 1)
      (entry (string "devices") (mapping (entry (integer 7) (mapping nil) nil)) nil)

reload_key_escapes_example :
    reload
      (λ _. ok (mapping numbered))
      true
      false
      (some ("phone" ∷ []))
      (some (token, []))
      new_engine
    ≡ (err type_error, new_engine)
unfolding get_value
reload_key_escapes_example =
    reload_key_escapes (λ _. ok (mapping numbered)) false ("phone" ∷ []) token [] numbered
      (entry (integer 7) (mapping nil) nil) new_engine refl refl refl
