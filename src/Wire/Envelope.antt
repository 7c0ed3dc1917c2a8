-- ===== src/Wire/Envelope.antt =====
-- hdp-spec/hdp_proto/envelope.py and version.py: the frame around every payload, and which types
-- are known.
use hermes_device_protocol.Ids.{parse}
use hermes_device_protocol.Store.{Python}
use hermes_device_protocol.Prelude.Strings.{codes, contains}
use hermes_device_protocol.Prelude.Result.{Result, err, ok, require, ◌>>=◌}
use hermes_device_protocol.Prelude.Int.{ℤ}
use hermes_device_protocol.Prelude.{
  Bool, List, Option, String, [], if◌then◌else◌, is_some, none, some, str_eq, ◌||◌, ◌∷◌,
}
use hermes_device_protocol.Wire.{
  Fields, Json, empty, field, get, integer, null, object, opt_str, or_null, string,
}

abbrev pub node_types : List String
node_types =
    "hello" ∷ "welcome" ∷ "capabilities" ∷ "invoke" ∷ "cancel" ∷ "ack" ∷ "result" ∷ "progress"
    ∷ "revoke" ∷ "heartbeat" ∷ "error" ∷ "challenge" ∷ "proof" ∷ "sentinel_approval_request"
    ∷ "sentinel_approval_decision" ∷ []

abbrev pub control_types : List String
control_types =
    "ctl_invoke" ∷ "ctl_invoke_reply" ∷ "ctl_cancel" ∷ "ctl_cancel_reply" ∷ "ctl_list_devices"
    ∷ "ctl_list_devices_reply" ∷ "ctl_status" ∷ "ctl_status_reply" ∷ "ctl_list_approvals"
    ∷ "ctl_list_approvals_reply" ∷ "ctl_resolve_approval" ∷ "ctl_resolve_approval_reply"
    ∷ "ctl_devices_revoke" ∷ "ctl_devices_revoke_reply" ∷ "ctl_devices_list_detailed"
    ∷ "ctl_devices_list_detailed_reply" ∷ "ctl_audit_tail" ∷ "ctl_audit_tail_reply"
    ∷ "ctl_policy_show" ∷ "ctl_policy_show_reply" ∷ "ctl_policy_reload" ∷ "ctl_policy_reload_reply"
    ∷ "ctl_usb_bootstrap" ∷ "ctl_usb_bootstrap_reply" ∷ "ctl_policy_set" ∷ "ctl_pair_mint" ∷ []

abbrev pub is_known_type : String → Bool
is_known_type t = contains t node_types || contains t control_types

pub record Envelope : Type 0 where
  pub type_name : String
  pub id : String
  pub ts : ℤ
  pub payload : Fields
  pub corr : Option String

-- EnvelopeError, and the two of its subclasses that callers tell apart
pub data EnvelopeError : Type 0 where
  not_an_object invalid_id invalid_ts invalid_payload invalid_corr : EnvelopeError
  unsupported_version unknown_type : EnvelopeError

abbrev pub check_version : Json → Result EnvelopeError (Unit {0})
check_version (string s) = require (str_eq s "0") unsupported_version
check_version _ = err unsupported_version

abbrev pub check_type : Json → Result EnvelopeError String
check_type (string s) = if is_known_type s then ok s else err unknown_type
check_type _ = err unknown_type

module _ (py : Python) where
  -- `ids.is_valid`
  abbrev pub is_valid_id : String → Bool
  is_valid_id s = is_some (parse py (codes s))

  abbrev pub check_id : Json → Result EnvelopeError String
  check_id (string s) = if is_valid_id s then ok s else err invalid_id
  check_id _ = err invalid_id

abbrev pub check_ts : Json → Result EnvelopeError ℤ
check_ts (integer n) = ok n
check_ts _ = err invalid_ts

abbrev pub check_payload : Json → Result EnvelopeError Fields
check_payload (object d) = ok d
check_payload _ = err invalid_payload

abbrev pub check_corr : Json → Result EnvelopeError (Option String)
check_corr null = ok none
check_corr (string s) = ok (some s)
check_corr _ = err invalid_corr

module _ (py : Python) where
  -- `from_wire` once the version has been accepted
  unfoldable pub versioned_from_fields : Fields → Result EnvelopeError Envelope
  unfolding get
  versioned_from_fields d = check_type (or_null (get "type" d)) >>= λ type_name.
      check_id py (or_null (get "id" d)) >>= λ id. check_ts (or_null (get "ts" d)) >>= λ ts.
      check_payload (or_null (get "payload" d)) >>= λ payload.
      check_corr (or_null (get "corr" d)) >>= λ corr.
      ok (record { type_name = type_name; id = id; ts = ts; payload = payload; corr = corr })

  unfoldable pub envelope_from_fields : Fields → Result EnvelopeError Envelope
  unfolding versioned_from_fields
  envelope_from_fields d = check_version (or_null (get "hdp" d)) >>= λ _. versioned_from_fields d

  -- `Envelope.from_wire`
  unfoldable pub envelope_from_wire : Json → Result EnvelopeError Envelope
  unfolding envelope_from_fields
  envelope_from_wire (object d) = envelope_from_fields d
  envelope_from_wire _ = err not_an_object

-- `Envelope.to_wire`
unfoldable pub envelope_to_wire : Envelope → Fields
envelope_to_wire e = field "hdp" (string "0") (
    field "type" (string e.type_name) (
      field "id" (string e.id) (
        field "ts" (integer e.ts)
          (field "corr" (opt_str e.corr) (field "payload" (object e.payload) empty)))))
