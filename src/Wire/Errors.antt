-- ===== src/Wire/Errors.antt =====
-- hdp-spec/hdp_proto/errors.py: the error codes, their hints, and the result envelope that the
-- model is shown.
use hermes_device_protocol.Prelude.Result.{Result, err, ok, ◌>>=◌}
use hermes_device_protocol.Prelude.{
  Bool, Option, String, false, if◌then◌else◌, none, some, str_eq, true, ◌||◌,
}
use hermes_device_protocol.Wire.{Fields, WireError, boolean, empty, field, invalid, object, string}

pub data ErrorCode : Type 0 where
  bridge_unavailable not_implemented no_matching_device capability_unsupported ambiguous_device
        device_offline invocation_timeout malformed_result :
      ErrorCode
  version_incompatible auth_failed policy_denied approval_denied approval_timeout revoked
        late_result schema_drift :
      ErrorCode

-- the value of the member
abbrev pub code_str : ErrorCode → String
code_str bridge_unavailable = "bridge_unavailable"
code_str not_implemented = "not_implemented"
code_str no_matching_device = "no_matching_device"
code_str capability_unsupported = "capability_unsupported"
code_str ambiguous_device = "ambiguous_device"
code_str device_offline = "device_offline"
code_str invocation_timeout = "invocation_timeout"
code_str malformed_result = "malformed_result"
code_str version_incompatible = "version_incompatible"
code_str auth_failed = "auth_failed"
code_str policy_denied = "policy_denied"
code_str approval_denied = "approval_denied"
code_str approval_timeout = "approval_timeout"
code_str revoked = "revoked"
code_str late_result = "late_result"
code_str schema_drift = "schema_drift"

-- `HINTS`
unfoldable pub hint_of : ErrorCode → String
hint_of bridge_unavailable =
    "The HDP runtime failed to start or is not responding. Retry shortly, or call device_status_get to check bridge health."
hint_of not_implemented = "This capability is reserved but not implemented in the MVP."
hint_of no_matching_device =
    "No paired device advertises this capability. Call device_status_get to see connected devices and their capabilities."
hint_of capability_unsupported =
    "The named device does not advertise this capability. Call device_status_get to see what it supports."
hint_of ambiguous_device =
    "Multiple devices advertise this capability. Pass an explicit device, or call device_status_get to see the candidates."
hint_of device_offline =
    "The device disconnected or missed its heartbeat. Call device_status_get to check current online state."
hint_of invocation_timeout =
    "The device did not respond within its deadline. Retry, or call device_status_get to check whether it is still online."
hint_of malformed_result =
    "The device returned a result that failed schema validation. Treat the capability as unreliable until the device reconnects."
hint_of version_incompatible =
    "No mutually supported capability version. Call device_status_get to see the device's advertised versions."
hint_of auth_failed = "The device credential was rejected. Re-pair the device."
hint_of policy_denied =
    "Policy denies this capability for this device. An operator can change the policy; the model cannot."
hint_of approval_denied = "A human denied this invocation."
hint_of approval_timeout =
    "No approval decision arrived before the approval window expired. Ask again if the action is still wanted."
hint_of revoked = "The device's credential was revoked mid-invocation."
hint_of late_result =
    "A result arrived for an invocation that already reached a terminal state; it was dropped."
hint_of schema_drift = "The device's advertised schema no longer matches what it returns."

-- `Error.to_dict`
abbrev pub error_dict : String → String → String → Fields
error_dict code message hint =
    field "code" (string code) (field "message" (string message) (field "hint" (string hint) empty))

abbrev pub or_hint : Option String → ErrorCode → String
or_hint none code = hint_of code
or_hint (some hint) code = hint

-- set(error).intersection(extras) is not empty
abbrev pub is_reserved : String → Bool
is_reserved key = str_eq key "code" || (str_eq key "message" || str_eq key "hint")

unfoldable pub has_reserved : Fields → Bool
has_reserved empty = false
has_reserved (field k v rest) = is_reserved k || has_reserved rest

unfoldable pub append_fields : Fields → Fields → Fields
append_fields empty e = e
append_fields (field k v rest) e = field k v (append_fields rest e)

-- The `error` of `err(code, detail, hint=..., extras=...)`; the ValueError is for a reserved extra.
-- `extras` shares no key with the error, so `error.update(extras)` appends.
unfoldable pub error_fields : ErrorCode → String → Option String → Fields → Result WireError Fields
unfolding has_reserved append_fields hint_of
error_fields code detail hint extras =
    if has_reserved extras
    then err (invalid "extras")
    else ok (append_fields (error_dict (code_str code) detail (or_hint hint code)) extras)

-- `err`
unfoldable pub failure : ErrorCode → String → Option String → Fields → Result WireError Fields
unfolding error_fields
failure code detail hint extras = error_fields code detail hint extras >>= λ error.
    ok (field "ok" (boolean false) (field "error" (object error) empty))

-- `ok`
unfoldable pub success : Fields → Fields
success value = field "ok" (boolean true) (field "data" (object value) empty)
