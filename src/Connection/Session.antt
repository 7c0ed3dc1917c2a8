-- ===== src/Connection/Session.antt =====
-- hdp-bridge/hdp_bridge/connection.py, the frames of a connection whose device is known, and the
-- frames that the bridge sends it on its own account.
use hermes_device_protocol.Connection.Admission.{
  advertised, as_node, enrolled_public_key, enrollment_db, put_descriptors, put_enrollment,
  update_device,
}
use hermes_device_protocol.Connection.Challenge.{is_caught}
use hermes_device_protocol.Connection.{
  Config, Draw, Node, Step, does, emit, enrollment_error, of_enrollment, put_conn, put_world,
  reject_malformed, send, sends,
}
use hermes_device_protocol.Wire.Messages.Plain.{
  InvokeMsg, SentinelApprovalRequest, approval_request_to_wire, cancel_to_wire, invoke_to_wire,
}
use hermes_device_protocol.Wire.Messages.{
  CapabilitiesMsg, Decision, ResultMsg, SentinelApprovalDecision, approval_decision_from_wire,
  approve, block, capabilities_msg_from_wire, decision_str, deny, result_from_wire, result_to_wire,
}
use hermes_device_protocol.Wire.Capability.{CapabilityDescriptor}
use hermes_device_protocol.Wire.{Fields, WireError, empty}
use hermes_device_protocol.Invocations.{InvocationsMem, mark_acked, resolve}
use hermes_device_protocol.DeviceKeys.{verify_signature}
use hermes_device_protocol.Enrollment.Finish.{
  block as block_enrollment, deny as deny_enrollment, details,
}
use hermes_device_protocol.Enrollment.{EnrollmentError, approve_primary}
use hermes_device_protocol.Registry.Register.{register}
use hermes_device_protocol.Registry.{has_device_id, is_primary_device}
use hermes_device_protocol.Store.{Device, EnrollmentDb, RegistryDb, Text}
use hermes_device_protocol.Prelude.Int.{pos}
use hermes_device_protocol.Prelude.Dict.{get_item, set_item}
use hermes_device_protocol.Prelude.Sql.{fetchone}
use hermes_device_protocol.Prelude.Strings.{codes}
use hermes_device_protocol.Prelude.Transaction.{Tx, ◌>>>◌}
use hermes_device_protocol.Prelude.Result.{Result, err, ok}
use hermes_device_protocol.Prelude.{
  Bool, List, Option, String, [], false, if◌then◌else◌, is_some, none, some, str_eq, ℕ, ◌&&◌, ◌++◌,
  ◌==◌, ◌∷◌,
}

abbrev pub is_same : ℕ → Option ℕ → Bool
is_same me none = false
is_same me (some other) = other == me

-- `self._connections.get(self.device_id) is self`
abbrev pub owns : String → Node → Bool
owns d n = is_same n.conn.self (get_item d n.world.connections)

abbrev pub put_invocations : InvocationsMem → Node → Node
put_invocations mem n = put_world (record n.world { invocations = mem }) n

-- UPDATE devices SET last_seen_at = ?
abbrev pub set_last_seen : ℕ → Device → Device
set_last_seen now_ms r = record r { last_seen_at = now_ms }

-- What the device is called, and its platform, as far as it is registered.
abbrev pub names_of : String → Option Device → String × String
names_of d none = (d, "unknown")
names_of d (some r) = (r.friendly_name, r.platform)

-- The lines of a text that is signed.
abbrev pub joined : List Text → Text
joined [] = []
joined (l ∷ []) = l
joined (l ∷ ls) = l ++ (10 ∷ joined ls)

module _ (cfg : Config) (draw : Draw) where
  -- `sentinel_approval_request_bytes`
  abbrev pub request_bytes : String → String → String → String → ℕ → Text
  request_bytes enrollment_id host candidate candidate_name expires_at =
      (codes "HDP/0 sentinel-approval-request" ++ (0 ∷ []))
      ++ joined (
          cfg.lib.utf8 enrollment_id
          ∷ cfg.lib.utf8 host
          ∷ cfg.lib.utf8 candidate
          ∷ cfg.lib.utf8 candidate_name
          ∷ cfg.str_int expires_at
          ∷ [])

  -- `sentinel_approval_decision_bytes`
  abbrev pub decision_bytes : String → Decision → ℕ → Text
  decision_bytes enrollment_id decision expires_at =
      (codes "HDP/0 sentinel-approval-decision" ++ (0 ∷ []))
      ++ joined (
          cfg.lib.utf8 enrollment_id
          ∷ cfg.lib.utf8 (decision_str decision)
          ∷ cfg.str_int expires_at
          ∷ [])

  abbrev pub refused : String → Step
  refused message n = (ok tt, reject_malformed draw message n)

  -- `_handle_capabilities`: the full set replaces what was advertised.
  abbrev pub register_set : String → List CapabilityDescriptor → String × String → Step
  register_set d cs (friendly_name, platform) n =
      as_node n
        (register cfg.dumps (advertised d friendly_name platform cs) draw.now_ms n.world.registry)

  abbrev pub replace_capabilities : String → List CapabilityDescriptor → String × String → Step
  replace_capabilities d cs known = register_set d cs known >>> does (put_descriptors d cs)

  abbrev pub on_capabilities : String → Result WireError CapabilitiesMsg → Step
  on_capabilities d (err e) n = refused "malformed capabilities" n
  on_capabilities d (ok msg) n =
      if owns d n
      then replace_capabilities d msg.capabilities
          (names_of d (fetchone (has_device_id d) n.world.registry.devices)) n
      else (ok tt, n)

  unfoldable pub handle_capabilities : String → Fields → Step
  unfolding capabilities_msg_from_wire register reject_malformed get_item set_item
  handle_capabilities d payload n = on_capabilities d (capabilities_msg_from_wire payload) n

  unfoldable pub handle_ack : Option String → Step
  unfolding mark_acked reject_malformed
  handle_ack none n = refused "ack missing corr" n
  handle_ack (some corr) n =
      (ok tt, put_invocations (mark_acked corr (some n.conn.self) n.world.invocations).1 n)

  abbrev pub on_result : String → Result WireError ResultMsg → Step
  on_result corr (err e) n = refused "malformed result" n
  on_result corr (ok m) n = (
    ok tt,
    put_invocations
        (resolve corr (cfg.json_text (result_to_wire m)) (some n.conn.self) n.world.invocations).1
        n,
  )

  unfoldable pub handle_result : Option String → Fields → Step
  unfolding result_from_wire resolve reject_malformed
  handle_result none payload n = refused "result missing corr" n
  handle_result (some corr) payload n = on_result corr (result_from_wire payload) n

  unfoldable pub handle_heartbeat : String → Step
  unfolding get_item
  handle_heartbeat d n =
      let beat = put_conn (record n.conn { last_heartbeat = draw.monotonic }) n in
      (
        ok tt,
        send "heartbeat" empty
            (if owns d n then update_device d (set_last_seen draw.now_ms) beat else beat),
      )

  -- An approval that the primary signed. An enrollment error is caught, as in a handshake.
  abbrev pub on_decided : Result EnrollmentError (Unit {0}) × EnrollmentDb → Step
  on_decided (ok _, e) n = (ok tt, put_enrollment e n)
  on_decided (err why, e) n =
      if is_caught why
      then refused "rejected sentinel approval" (put_enrollment e n)
      else (err (of_enrollment why), put_enrollment e n)

  abbrev pub decide : Decision → Text → String → Tx EnrollmentDb EnrollmentError (Unit {0})
  decide approve identifier d = approve_primary cfg.py identifier d draw.now_ms
  decide deny identifier d = deny_enrollment cfg.py identifier d draw.now_ms
  decide block identifier d = block_enrollment cfg.py identifier d draw.now_ms

  -- The signature is by the key that the device of this connection enrolled.
  abbrev pub is_signed : String → SentinelApprovalDecision → ℕ → Node → Bool
  is_signed d m expires_at n =
      verify_signature cfg.lib (enrolled_public_key d n.world.registry)
        (decision_bytes m.enrollment_id m.decision expires_at) m.signature

  abbrev pub on_details :
      String → SentinelApprovalDecision → Result EnrollmentError (String × String × ℕ) → Step
  on_details d m (err e) n = refused "invalid sentinel approval" n
  on_details d m (ok (host, candidate, expires_at)) n =
      if is_signed d m expires_at n
      then on_decided (decide m.decision (codes m.enrollment_id) d (enrollment_db n.world.registry))
          n
      else refused "invalid sentinel approval signature" n

  abbrev pub on_approval : String → Result WireError SentinelApprovalDecision → Step
  on_approval d (err e) n = refused "invalid sentinel approval" n
  on_approval d (ok m) n =
      on_details d m
        (details cfg.py (codes m.enrollment_id) draw.now_ms (enrollment_db n.world.registry)) n

  -- `_handle_sentinel_approval_decision`
  unfoldable pub handle_approval_decision : String → Fields → Step
  unfolding approval_decision_from_wire details approve_primary deny_enrollment block_enrollment
      reject_malformed verify_signature
  handle_approval_decision d payload n =
      if cfg.has_coordinator
      then on_approval d (approval_decision_from_wire payload) n
      else refused "sentinel approval is unavailable" n

  abbrev pub approval_request :
      String → String → (String × String × ℕ) → (Text → Text) → SentinelApprovalRequest
  approval_request enrollment_id candidate_name (host, candidate, expires_at) sign = record {
    enrollment_id = enrollment_id;
    host_key_fingerprint = host;
    candidate_key_fingerprint = candidate;
    candidate_name = candidate_name;
    expires_at = pos expires_at;
    host_signature =
        cfg.lib.b64encode
          (sign (request_bytes enrollment_id host candidate candidate_name expires_at));
  }

  abbrev pub send_request :
      String → String → String → (Text → Text) → Result EnrollmentError (String × String × ℕ) → Step
  send_request enrollment_id candidate_name own_host sign (err e) n = (err (of_enrollment e), n)
  send_request enrollment_id candidate_name own_host sign (ok found) n =
      if str_eq found.0 own_host
      then (
        ok tt,
        send "sentinel_approval_request"
            (approval_request_to_wire (approval_request enrollment_id candidate_name found sign)) n,
      )
      else (err enrollment_error, n)

  abbrev pub has_primary_row : String → RegistryDb → Bool
  has_primary_row d db =
      is_some (fetchone (λ r. has_device_id d r && is_primary_device r) db.devices)

  abbrev pub request_by :
      String → String → Option String → Option (Text → Text) → Option String → Step
  request_by enrollment_id candidate_name (some own_host) (some sign) (some d) n =
      if cfg.has_coordinator && has_primary_row d n.world.registry
      then send_request enrollment_id candidate_name own_host sign
          (details cfg.py (codes enrollment_id) draw.now_ms (enrollment_db n.world.registry)) n
      else (err enrollment_error, n)
  request_by enrollment_id candidate_name _ _ _ n = (err enrollment_error, n)

  unfoldable pub send_sentinel_approval_request : String → String → Step
  unfolding details approval_request_to_wire
  send_sentinel_approval_request enrollment_id candidate_name n =
      request_by enrollment_id candidate_name cfg.host_key_fingerprint cfg.host_signer
        n.conn.device_id n

  -- `send_invoke`
  abbrev pub send_invoke : String → InvokeMsg → Node → Node
  send_invoke invocation_id m = emit (sends "invoke" (invoke_to_wire m) (some invocation_id))

  -- `send_cancel`
  abbrev pub send_cancel : String → String → Node → Node
  send_cancel invocation_id reason =
      emit (sends "cancel" (cancel_to_wire (record { reason = reason })) (some invocation_id))
