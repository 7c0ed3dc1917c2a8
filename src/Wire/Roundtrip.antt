-- ===== src/Wire/Roundtrip.antt =====
-- Writing and reading the payloads.
use hermes_device_protocol.Wire.Capability.{
  CapabilityDescriptor, capabilities_from_wire, descriptor_from_wire, descriptor_to_wire,
  descriptors_from_items, descriptors_to_items,
}
use hermes_device_protocol.Wire.Messages.{
  CapabilitiesMsg, Decision, Hello, ProgressMsg, ResultMsg, SentinelApprovalDecision, all_int,
  approval_decision_from_wire, approval_decision_to_wire, approve, as_decision, block,
  capabilities_msg_from_wire, capabilities_msg_to_wire, decision_str, deny, hello_from_wire,
  hello_to_wire, progress_from_wire, progress_to_wire, result_from_wire, result_to_wire,
}
use hermes_device_protocol.Wire.Messages.Plain.{
  CancelMsg, Challenge, ErrorMsg, InvokeMsg, Proof, RevokeMsg, SentinelApprovalRequest, Welcome,
  approval_request_from_wire, approval_request_to_wire, cancel_from_wire, cancel_to_wire,
  challenge_from_wire, challenge_to_wire, error_msg_from_wire, error_msg_to_wire, invoke_from_wire,
  invoke_to_wire, proof_from_wire, proof_to_wire, revoke_from_wire, revoke_to_wire,
  welcome_from_wire, welcome_to_wire,
}
use hermes_device_protocol.Prelude.Result.{ok, ◌>>=◌}
use hermes_device_protocol.Prelude.{All, List, [], ap, arith, false, refl, str_eq, true, ◌∷◌, ◌≡◌}

welcome_roundtrip : (m : Welcome) → welcome_from_wire (welcome_to_wire m) ≡ ok m
unfolding welcome_from_wire welcome_to_wire
welcome_roundtrip m = ground arith

invoke_roundtrip : (m : InvokeMsg) → invoke_from_wire (invoke_to_wire m) ≡ ok m
unfolding invoke_from_wire invoke_to_wire
invoke_roundtrip m = refl

cancel_roundtrip : (m : CancelMsg) → cancel_from_wire (cancel_to_wire m) ≡ ok m
unfolding cancel_from_wire cancel_to_wire
cancel_roundtrip m = refl

challenge_roundtrip : (m : Challenge) → challenge_from_wire (challenge_to_wire m) ≡ ok m
unfolding challenge_from_wire challenge_to_wire
challenge_roundtrip m = refl

proof_roundtrip : (m : Proof) → proof_from_wire (proof_to_wire m) ≡ ok m
unfolding proof_from_wire proof_to_wire
proof_roundtrip m = refl

approval_request_roundtrip :
    (m : SentinelApprovalRequest) → approval_request_from_wire (approval_request_to_wire m) ≡ ok m
unfolding approval_request_from_wire approval_request_to_wire
approval_request_roundtrip m = refl

error_msg_roundtrip : (m : ErrorMsg) → error_msg_from_wire (error_msg_to_wire m) ≡ ok m
unfolding error_msg_from_wire error_msg_to_wire
error_msg_roundtrip m = refl

revoke_roundtrip : (m : RevokeMsg) → revoke_from_wire (revoke_to_wire m) ≡ ok m
unfolding revoke_from_wire revoke_to_wire
revoke_roundtrip m = refl

progress_roundtrip : (m : ProgressMsg) → progress_from_wire (progress_to_wire m) ≡ ok m
unfolding progress_from_wire progress_to_wire
progress_roundtrip m = refl

result_roundtrip : (m : ResultMsg) → result_from_wire (result_to_wire m) ≡ ok m
unfolding result_from_wire result_to_wire
result_roundtrip m = ground arith

decision_roundtrip : (d : Decision) → as_decision (decision_str d) ≡ ok d
decision_roundtrip approve = refl
decision_roundtrip deny = refl
decision_roundtrip block = refl

approval_decision_roundtrip :
    (m : SentinelApprovalDecision)
    → approval_decision_from_wire (approval_decision_to_wire m) ≡ ok m
unfolding approval_decision_from_wire approval_decision_to_wire
approval_decision_roundtrip m = ground (arith, decision_roundtrip m.decision)

abbrev pub IsNamed : CapabilityDescriptor → Type 0
IsNamed c = str_eq c.name "" ≡ false

descriptor_roundtrip :
    (c : CapabilityDescriptor) → IsNamed c → descriptor_from_wire (descriptor_to_wire c) ≡ ok c
unfolding descriptor_from_wire descriptor_to_wire
descriptor_roundtrip c named = rw named

descriptors_roundtrip :
    (cs : List CapabilityDescriptor)
    → All IsNamed cs
    → descriptors_from_items (descriptors_to_items cs) ≡ ok cs
unfolding descriptors_from_items descriptors_to_items
descriptors_roundtrip [] named = refl
descriptors_roundtrip (c ∷ cs) named =
    ground (arith, descriptor_roundtrip c named.0, descriptors_roundtrip cs named.1)

capabilities_msg_roundtrip :
    (m : CapabilitiesMsg)
    → All IsNamed m.capabilities
    → capabilities_msg_from_wire (capabilities_msg_to_wire m) ≡ ok m
unfolding capabilities_msg_from_wire capabilities_msg_to_wire capabilities_from_wire
capabilities_msg_roundtrip m named =
    ap (λ r. r >>= λ cs. ok (record { capabilities = cs }))
      (descriptors_roundtrip m.capabilities named)

hello_roundtrip :
    (m : Hello)
    → all_int m.hdp_versions ≡ true
    → All IsNamed m.capabilities
    → hello_from_wire (hello_to_wire m) ≡ ok m
unfolding hello_from_wire hello_to_wire capabilities_from_wire
hello_roundtrip m versions named =
    ground (arith, versions, descriptors_roundtrip m.capabilities named)

-- Each payload of the protocol that has fields is read back as it was written: for `hello`, where
-- its versions are numbers and its capabilities have names, and for `capabilities`, where each
-- descriptor has a name.
pub messages_roundtrip :
    ((m : Welcome) → welcome_from_wire (welcome_to_wire m) ≡ ok m)
    × ((m : InvokeMsg) → invoke_from_wire (invoke_to_wire m) ≡ ok m)
    × ((m : ResultMsg) → result_from_wire (result_to_wire m) ≡ ok m)
    × ((m : CancelMsg) → cancel_from_wire (cancel_to_wire m) ≡ ok m)
    × ((m : ProgressMsg) → progress_from_wire (progress_to_wire m) ≡ ok m)
    × ((m : Challenge) → challenge_from_wire (challenge_to_wire m) ≡ ok m)
    × ((m : Proof) → proof_from_wire (proof_to_wire m) ≡ ok m)
    × ((m : SentinelApprovalRequest)
        → approval_request_from_wire (approval_request_to_wire m) ≡ ok m)
    × ((m : SentinelApprovalDecision)
        → approval_decision_from_wire (approval_decision_to_wire m) ≡ ok m)
    × ((m : ErrorMsg) → error_msg_from_wire (error_msg_to_wire m) ≡ ok m)
    × ((m : RevokeMsg) → revoke_from_wire (revoke_to_wire m) ≡ ok m)
    × ((m : CapabilitiesMsg)
        → All IsNamed m.capabilities
        → capabilities_msg_from_wire (capabilities_msg_to_wire m) ≡ ok m)
    × ((m : Hello)
        → all_int m.hdp_versions ≡ true
        → All IsNamed m.capabilities
        → hello_from_wire (hello_to_wire m) ≡ ok m)
messages_roundtrip = (
  welcome_roundtrip, invoke_roundtrip, result_roundtrip, cancel_roundtrip, progress_roundtrip,
  challenge_roundtrip, proof_roundtrip, approval_request_roundtrip, approval_decision_roundtrip,
  error_msg_roundtrip, revoke_roundtrip, capabilities_msg_roundtrip, hello_roundtrip,
)
