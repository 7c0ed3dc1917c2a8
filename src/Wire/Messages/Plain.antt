-- ===== src/Wire/Messages/Plain.antt =====
-- hdp-spec/hdp_proto/messages.py: the payloads whose fields are read one by one. `Ack` and
-- `Heartbeat` have none: they read any object and write `{}`.
use hermes_device_protocol.Prelude.Result.{Result, ok, ◌>>=◌}
use hermes_device_protocol.Prelude.Int.{ℤ}
use hermes_device_protocol.Prelude.{Option, String}
use hermes_device_protocol.Wire.{
  Fields, WireError, empty, field, integer, object, opt_str, require_dict, require_int, require_str,
  require_str_or_none, string,
}

pub record Welcome : Type 0 where
  pub hdp_version : ℤ
  pub device_id : String
  pub credential : Option String

unfoldable pub welcome_from_wire : Fields → Result WireError Welcome
unfolding require_int require_str require_str_or_none
welcome_from_wire d = require_int d "hdp_version" >>= λ hdp_version.
    require_str d "device_id" >>= λ device_id. require_str_or_none d "credential" >>= λ credential.
    ok (record { hdp_version = hdp_version; device_id = device_id; credential = credential })

unfoldable pub welcome_to_wire : Welcome → Fields
welcome_to_wire m =
    field "hdp_version" (integer m.hdp_version)
      (field "device_id" (string m.device_id) (field "credential" (opt_str m.credential) empty))

pub record InvokeMsg : Type 0 where
  pub capability : String
  pub version : ℤ
  pub args : Fields
  pub deadline_ms : ℤ

unfoldable pub invoke_from_wire : Fields → Result WireError InvokeMsg
unfolding require_dict require_int require_str
invoke_from_wire d = require_str d "capability" >>= λ capability.
    require_int d "version" >>= λ version. require_dict d "args" >>= λ args.
    require_int d "deadline_ms" >>= λ deadline_ms.
    ok (record {
      capability = capability;
      version = version;
      args = args;
      deadline_ms = deadline_ms;
    })

unfoldable pub invoke_to_wire : InvokeMsg → Fields
invoke_to_wire m = field "capability" (string m.capability) (
    field "version" (integer m.version)
      (field "args" (object m.args) (field "deadline_ms" (integer m.deadline_ms) empty)))

pub record CancelMsg : Type 0 where
  pub reason : String

unfoldable pub cancel_from_wire : Fields → Result WireError CancelMsg
unfolding require_str
cancel_from_wire d = require_str d "reason" >>= λ reason. ok (record { reason = reason })

unfoldable pub cancel_to_wire : CancelMsg → Fields
cancel_to_wire m = field "reason" (string m.reason) empty

pub record Challenge : Type 0 where
  pub nonce : String

unfoldable pub challenge_from_wire : Fields → Result WireError Challenge
unfolding require_str
challenge_from_wire d = require_str d "nonce" >>= λ nonce. ok (record { nonce = nonce })

unfoldable pub challenge_to_wire : Challenge → Fields
challenge_to_wire m = field "nonce" (string m.nonce) empty

pub record Proof : Type 0 where
  pub signature : String

unfoldable pub proof_from_wire : Fields → Result WireError Proof
unfolding require_str
proof_from_wire d = require_str d "signature" >>= λ signature. ok (record { signature = signature })

unfoldable pub proof_to_wire : Proof → Fields
proof_to_wire m = field "signature" (string m.signature) empty

pub record SentinelApprovalRequest : Type 0 where
  pub enrollment_id : String
  pub host_key_fingerprint : String
  pub candidate_key_fingerprint : String
  pub candidate_name : String
  pub expires_at : ℤ
  pub host_signature : String

unfoldable pub approval_request_from_wire : Fields → Result WireError SentinelApprovalRequest
unfolding require_int require_str
approval_request_from_wire d = require_str d "enrollment_id" >>= λ enrollment_id.
    require_str d "host_key_fingerprint" >>= λ host_key_fingerprint.
    require_str d "candidate_key_fingerprint" >>= λ candidate_key_fingerprint.
    require_str d "candidate_name" >>= λ candidate_name.
    require_int d "expires_at" >>= λ expires_at.
    require_str d "host_signature" >>= λ host_signature. ok (record {
      enrollment_id = enrollment_id;
      host_key_fingerprint = host_key_fingerprint;
      candidate_key_fingerprint = candidate_key_fingerprint;
      candidate_name = candidate_name;
      expires_at = expires_at;
      host_signature = host_signature;
    })

unfoldable pub approval_request_to_wire : SentinelApprovalRequest → Fields
approval_request_to_wire m = field "enrollment_id" (string m.enrollment_id) (
    field "host_key_fingerprint" (string m.host_key_fingerprint) (
      field "candidate_key_fingerprint" (string m.candidate_key_fingerprint) (
        field "candidate_name" (string m.candidate_name) (
          field "expires_at" (integer m.expires_at)
            (field "host_signature" (string m.host_signature) empty)))))

pub record ErrorMsg : Type 0 where
  pub code : String
  pub message : String
  pub hint : String

unfoldable pub error_msg_from_wire : Fields → Result WireError ErrorMsg
unfolding require_str
error_msg_from_wire d = require_str d "code" >>= λ code. require_str d "message" >>= λ message.
    require_str d "hint" >>= λ hint. ok (record { code = code; message = message; hint = hint })

unfoldable pub error_msg_to_wire : ErrorMsg → Fields
error_msg_to_wire m =
    field "code" (string m.code)
      (field "message" (string m.message) (field "hint" (string m.hint) empty))

pub record RevokeMsg : Type 0 where
  pub reason : String

unfoldable pub revoke_from_wire : Fields → Result WireError RevokeMsg
unfolding require_str
revoke_from_wire d = require_str d "reason" >>= λ reason. ok (record { reason = reason })

unfoldable pub revoke_to_wire : RevokeMsg → Fields
revoke_to_wire m = field "reason" (string m.reason) empty
