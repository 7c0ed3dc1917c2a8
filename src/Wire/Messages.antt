-- ===== src/Wire/Messages.antt =====
-- hdp-spec/hdp_proto/messages.py: the payloads with lists or alternatives, and how a node's hello,
-- its results and the primary's decisions are read and written. `Wire.Messages.Plain` has the
-- payloads whose fields are read one by one.
pub mod Plain
use hermes_device_protocol.Wire.Capability.{
  CapabilityDescriptor, capabilities_from_wire, descriptors_to_items,
}
use hermes_device_protocol.Prelude.Result.{Result, err, ok, ◌>>=◌}
use hermes_device_protocol.Prelude.{
  Bool, List, Option, String, false, if◌then◌else◌, none, some, str_eq, true, ◌&&◌,
}
use hermes_device_protocol.Wire.{
  Fields, Items, Json, WireError, array, as_dict, boolean, empty, end, field, get, integer, invalid,
  item, null, object, opt_dict, opt_str, or_null, require_str, require_str_or_none, string,
}

-- isinstance(v, int) for each item, which a bool passes
abbrev pub is_int : Json → Bool
is_int (integer n) = true
is_int (boolean b) = true
is_int _ = false

unfoldable pub all_int : Items → Bool
all_int end = true
all_int (item v rest) = is_int v && all_int rest

-- The versions are kept as they came, a bool as a bool.
pub record Hello : Type 0 where
  pub hdp_versions : Items
  pub device_name : String
  pub capabilities : List CapabilityDescriptor
  pub credential : Option String
  pub platform : Option String
  pub device_pubkey : Option String
  pub enrollment_id : Option String

abbrev pub as_versions : Json → Result WireError Items
as_versions (array vs) = if all_int vs then ok vs else err (invalid "hdp_versions")
as_versions _ = err (invalid "hdp_versions")

unfoldable pub hello_from_wire : Fields → Result WireError Hello
unfolding get all_int require_str require_str_or_none capabilities_from_wire
hello_from_wire d = as_versions (or_null (get "hdp_versions" d)) >>= λ versions.
    require_str d "device_name" >>= λ device_name. capabilities_from_wire d >>= λ capabilities.
    require_str_or_none d "credential" >>= λ credential.
    require_str_or_none d "platform" >>= λ platform.
    require_str_or_none d "device_pubkey" >>= λ device_pubkey.
    require_str_or_none d "enrollment_id" >>= λ enrollment_id. ok (record {
      hdp_versions = versions;
      device_name = device_name;
      capabilities = capabilities;
      credential = credential;
      platform = platform;
      device_pubkey = device_pubkey;
      enrollment_id = enrollment_id;
    })

unfoldable pub hello_to_wire : Hello → Fields
unfolding descriptors_to_items
hello_to_wire m = field "hdp_versions" (array m.hdp_versions) (
    field "device_name" (string m.device_name) (
      field "capabilities" (array (descriptors_to_items m.capabilities)) (
        field "credential" (opt_str m.credential) (
          field "platform" (opt_str m.platform) (
            field "device_pubkey" (opt_str m.device_pubkey)
              (field "enrollment_id" (opt_str m.enrollment_id) empty))))))

pub record CapabilitiesMsg : Type 0 where
  pub capabilities : List CapabilityDescriptor

unfoldable pub capabilities_msg_from_wire : Fields → Result WireError CapabilitiesMsg
unfolding capabilities_from_wire
capabilities_msg_from_wire d =
    capabilities_from_wire d >>= λ capabilities. ok (record { capabilities = capabilities })

unfoldable pub capabilities_msg_to_wire : CapabilitiesMsg → Fields
unfolding descriptors_to_items
capabilities_msg_to_wire m =
    field "capabilities" (array (descriptors_to_items m.capabilities)) empty

pub record ResultMsg : Type 0 where
  pub is_ok : Bool
  pub value : Option Fields
  pub error : Option Fields

abbrev pub as_bool : String → Json → Result WireError Bool
as_bool key (boolean b) = ok b
as_bool key _ = err (invalid key)

abbrev pub as_dict_or_none : String → Json → Result WireError (Option Fields)
as_dict_or_none key null = ok none
as_dict_or_none key (object d) = ok (some d)
as_dict_or_none key _ = err (invalid key)

unfoldable pub result_from_wire : Fields → Result WireError ResultMsg
unfolding get
result_from_wire d = as_bool "ok" (or_null (get "ok" d)) >>= λ is_ok.
    as_dict_or_none "data" (or_null (get "data" d)) >>= λ value.
    as_dict_or_none "error" (or_null (get "error" d)) >>= λ error.
    ok (record { is_ok = is_ok; value = value; error = error })

unfoldable pub result_to_wire : ResultMsg → Fields
result_to_wire m =
    field "ok" (boolean m.is_ok)
      (field "data" (opt_dict m.value) (field "error" (opt_dict m.error) empty))

pub record ProgressMsg : Type 0 where
  pub detail : Fields

-- _require_dict(d, "detail") if "detail" in d else {}
abbrev pub detail_of : Option Json → Result WireError Fields
detail_of none = ok empty
detail_of (some v) = as_dict "detail" v

unfoldable pub progress_from_wire : Fields → Result WireError ProgressMsg
unfolding get
progress_from_wire d = detail_of (get "detail" d) >>= λ detail. ok (record { detail = detail })

unfoldable pub progress_to_wire : ProgressMsg → Fields
progress_to_wire m = field "detail" (object m.detail) empty

pub data Decision : Type 0 where
  approve deny block : Decision

pub record SentinelApprovalDecision : Type 0 where
  pub enrollment_id : String
  pub decision : Decision
  pub signature : String

abbrev pub as_decision : String → Result WireError Decision
as_decision s =
    if str_eq s "approve"
    then ok approve
    else if str_eq s "deny"
    then ok deny
    else if str_eq s "block"
    then ok block
    else err (invalid "decision")

abbrev pub decision_str : Decision → String
decision_str approve = "approve"
decision_str deny = "deny"
decision_str block = "block"

unfoldable pub approval_decision_from_wire : Fields → Result WireError SentinelApprovalDecision
unfolding require_str
approval_decision_from_wire d = require_str d "decision" >>= λ raw. as_decision raw >>= λ decision.
    require_str d "enrollment_id" >>= λ enrollment_id. require_str d "signature" >>= λ signature.
    ok (record { enrollment_id = enrollment_id; decision = decision; signature = signature })

unfoldable pub approval_decision_to_wire : SentinelApprovalDecision → Fields
approval_decision_to_wire m = field "enrollment_id" (string m.enrollment_id) (
    field "decision" (string (decision_str m.decision))
      (field "signature" (string m.signature) empty))
