-- ===== src/Connection/Stable/Run.antt =====
-- Stable predicates of a connection, through the frames of a session and a whole run.
use hermes_device_protocol.Connection.Admission.{
  advertised, enrollment_db, put_descriptors, put_enrollment,
}
use hermes_device_protocol.Connection.Stable.Frames.{
  Kept, handle_hello_keeps, handle_proof_keeps, refused_keeps,
}
use hermes_device_protocol.Connection.Stable.{IsStable, IsSteady, as_node_keeps, branch, seq_keeps}
use hermes_device_protocol.Connection.Run.{
  Handler, ack, approval_decision, capabilities, disconnect, dispatch, error, gate, handle_envelope,
  handle_frame, handler_of, heartbeat, leave, node_to_bridge_types, on_disconnect, on_envelope,
  on_json, progress, read_frames, result, route, run,
}
use hermes_device_protocol.Connection.Session.{
  decide, handle_ack, handle_approval_decision, handle_capabilities, handle_heartbeat,
  handle_result, is_signed, names_of, on_approval, on_capabilities, on_decided, on_details,
  on_result, owns, refused, register_set, replace_capabilities,
}
use hermes_device_protocol.Connection.Challenge.{handle_proof, is_caught}
use hermes_device_protocol.Connection.Handshake.{handle_hello}
use hermes_device_protocol.Connection.{
  Config, Draw, Node, NodeConnection, PendingHandshake, Step, close, does, of_enrollment,
  protocol_error, put_conn, remember_id,
}
use hermes_device_protocol.Wire.Envelope.{
  Envelope, EnvelopeError, envelope_from_wire, unsupported_version,
}
use hermes_device_protocol.Wire.Messages.{
  CapabilitiesMsg, ResultMsg, SentinelApprovalDecision, approval_decision_from_wire,
  capabilities_msg_from_wire, result_from_wire,
}
use hermes_device_protocol.Wire.{Fields, Json, WireError}
use hermes_device_protocol.Enrollment.Finish.{details}
use hermes_device_protocol.Enrollment.{EnrollmentError}
use hermes_device_protocol.Registry.Register.{register}
use hermes_device_protocol.Registry.{has_device_id}
use hermes_device_protocol.Store.{EnrollmentDb}
use hermes_device_protocol.Prelude.Sql.{fetchone}
use hermes_device_protocol.Prelude.Strings.{codes, contains}
use hermes_device_protocol.Prelude.Result.{Result, err, ok}
use hermes_device_protocol.Prelude.{
  Bool, Bool-cases, List, Option, String, [], arith, false, inl, inr, none, some, str_eq, true, ℕ,
  ◌∷◌,
}

module _ (P : NodeConnection → Type 0) (steady : IsSteady P) (cfg : Config) (draw : Draw) where
  abbrev KeptBy : Step → Type 0
  KeptBy = Kept P steady cfg draw

  capabilities_keeps :
      (d : String) (r : Result WireError CapabilitiesMsg) → KeptBy (on_capabilities cfg draw d r)
  capabilities_keeps d (err e) n h = refused_keeps P steady cfg draw "malformed capabilities" n h
  capabilities_keeps d (ok msg) n h =
      let known = names_of d (fetchone (has_device_id d) n.world.registry.devices) in
      branch P steady cfg draw (owns d n) (replace_capabilities cfg draw d msg.capabilities known n)
        (ok tt, n)
        (seq_keeps P steady cfg draw (register_set cfg draw d msg.capabilities known)
          (does (put_descriptors d msg.capabilities))
          (λ m hm.
            as_node_keeps P steady cfg draw m
              (register cfg.dumps (advertised d known.0 known.1 msg.capabilities) draw.now_ms
                m.world.registry)
              hm)
          (λ m hm. hm) n h)
        h

  ack_keeps : (corr : Option String) → KeptBy (handle_ack cfg draw corr)
  unfolding handle_ack
  ack_keeps none n h = refused_keeps P steady cfg draw "ack missing corr" n h
  ack_keeps (some corr) n h = h

  on_result_keeps :
      (corr : String) (r : Result WireError ResultMsg) → KeptBy (on_result cfg draw corr r)
  on_result_keeps corr (err e) n h = refused_keeps P steady cfg draw "malformed result" n h
  on_result_keeps corr (ok m) n h = h

  result_keeps :
      (corr : Option String) (payload : Fields) → KeptBy (handle_result cfg draw corr payload)
  unfolding handle_result
  result_keeps none payload n h = refused_keeps P steady cfg draw "result missing corr" n h
  result_keeps (some corr) payload n h = on_result_keeps corr (result_from_wire payload) n h

  heartbeat_keeps : (d : String) → KeptBy (handle_heartbeat cfg draw d)
  unfolding handle_heartbeat
  heartbeat_keeps d n h = elim (Bool-cases (owns d n)) [
    | inl e ↦ rw e (steady.beating draw.monotonic n.conn h)
    | inr e ↦ rw e (steady.beating draw.monotonic n.conn h)
  ]

  on_decided_keeps :
      (r : Result EnrollmentError (Unit {0}) × EnrollmentDb) → KeptBy (on_decided cfg draw r)
  on_decided_keeps (ok _, e) n h = h
  on_decided_keeps (err why, e) n h =
      branch P steady cfg draw (is_caught why)
        (refused cfg draw "rejected sentinel approval" (put_enrollment e n))
        (err (of_enrollment why), put_enrollment e n)
        (refused_keeps P steady cfg draw "rejected sentinel approval" (put_enrollment e n) h) h

  on_details_keeps :
      (d : String) (m : SentinelApprovalDecision) (r : Result EnrollmentError (String × String × ℕ))
      → KeptBy (on_details cfg draw d m r)
  on_details_keeps d m (err e) n h = refused_keeps P steady cfg draw "invalid sentinel approval" n h
  on_details_keeps d m (ok (host, candidate, expires_at)) n h =
      let r =
        decide cfg draw m.decision (codes m.enrollment_id) d (enrollment_db n.world.registry) in
      branch P steady cfg draw (is_signed cfg draw d m expires_at n) (on_decided cfg draw r n)
        (refused cfg draw "invalid sentinel approval signature" n) (on_decided_keeps r n h)
        (refused_keeps P steady cfg draw "invalid sentinel approval signature" n h)

  on_approval_keeps :
      (d : String) (r : Result WireError SentinelApprovalDecision)
      → KeptBy (on_approval cfg draw d r)
  on_approval_keeps d (err e) n h = refused_keeps P steady cfg draw "invalid sentinel approval" n h
  on_approval_keeps d (ok m) n h =
      on_details_keeps d m
        (details cfg.py (codes m.enrollment_id) draw.now_ms (enrollment_db n.world.registry)) n h

  approval_keeps :
      (d : String) (payload : Fields) → KeptBy (handle_approval_decision cfg draw d payload)
  unfolding handle_approval_decision
  approval_keeps d payload n h =
      branch P steady cfg draw cfg.has_coordinator
        (on_approval cfg draw d (approval_decision_from_wire payload) n)
        (refused cfg draw "sentinel approval is unavailable" n)
        (on_approval_keeps d (approval_decision_from_wire payload) n h)
        (refused_keeps P steady cfg draw "sentinel approval is unavailable" n h)

  dispatch_keeps :
      (o : Option Handler) (d : String) (e : Envelope) → KeptBy (dispatch cfg draw o d e)
  unfolding handle_capabilities
  dispatch_keeps none d e n h = refused_keeps P steady cfg draw "unhandled type" n h
  dispatch_keeps (some capabilities) d e n h =
      capabilities_keeps d (capabilities_msg_from_wire e.payload) n h
  dispatch_keeps (some ack) d e n h = ack_keeps e.corr n h
  dispatch_keeps (some result) d e n h = result_keeps e.corr e.payload n h
  dispatch_keeps (some progress) d e n h = h
  dispatch_keeps (some heartbeat) d e n h = heartbeat_keeps d n h
  dispatch_keeps (some error) d e n h = h
  dispatch_keeps (some approval_decision) d e n h = approval_keeps d e.payload n h

  pub route_keeps : (d : String) (e : Envelope) → KeptBy (route cfg draw d e)
  unfolding route
  route_keeps d e n h =
      branch P steady cfg draw (contains e.type_name node_to_bridge_types)
        (dispatch cfg draw (handler_of e.type_name) d e n)
        (refused cfg draw "unexpected message direction" n)
        (dispatch_keeps (handler_of e.type_name) d e n h)
        (refused_keeps P steady cfg draw "unexpected message direction" n h)

module _ (P : NodeConnection → Type 0) (stable : IsStable P) (cfg : Config) (draw : Draw) where
  gate_keeps :
      (d : Option String) (p : Option PendingHandshake) (e : Envelope)
      → KeptBy P stable.steady cfg draw (gate cfg draw d p e)
  gate_keeps none none e n h =
      branch P stable.steady cfg draw (str_eq e.type_name "hello")
        (handle_hello cfg draw e.payload n) (ok tt, close protocol_error "expected hello first" n)
        (handle_hello_keeps P stable cfg draw e.payload n h) (stable.steady.closing n.conn h)
  gate_keeps none (some p) e n h =
      branch P stable.steady cfg draw (str_eq e.type_name "proof")
        (handle_proof cfg draw e.payload n) (ok tt, close protocol_error "expected proof" n)
        (handle_proof_keeps P stable cfg draw e.payload n h) (stable.steady.closing n.conn h)
  gate_keeps (some d) p e n h = route_keeps P stable.steady cfg draw d e n h

  handle_envelope_keeps :
      (e : Envelope) → KeptBy P stable.steady cfg draw (handle_envelope cfg draw e)
  unfolding handle_envelope
  handle_envelope_keeps e n h =
      branch P stable.steady cfg draw (contains e.id n.conn.seen_ids) (ok tt, n)
        (gate cfg draw n.conn.device_id n.conn.pending e (put_conn (remember_id e.id n.conn) n)) h
        (gate_keeps n.conn.device_id n.conn.pending e (put_conn (remember_id e.id n.conn) n)
          (stable.steady.remembering e.id n.conn h))

  on_envelope_keeps :
      (r : Result EnvelopeError Envelope) → KeptBy P stable.steady cfg draw (on_envelope cfg draw r)
  on_envelope_keeps (ok e) n h = handle_envelope_keeps e n h
  on_envelope_keeps (err unsupported_version) n h = stable.steady.closing n.conn h
  on_envelope_keeps (err _) n h = refused_keeps P stable.steady cfg draw "invalid envelope" n h

  on_json_keeps : (o : Option Json) → KeptBy P stable.steady cfg draw (on_json cfg draw o)
  on_json_keeps none n h = refused_keeps P stable.steady cfg draw "invalid JSON" n h
  on_json_keeps (some v) n h = on_envelope_keeps (envelope_from_wire cfg.py v) n h

  pub handle_frame_keeps :
      (raw : String) → KeptBy P stable.steady cfg draw (handle_frame cfg draw raw)
  unfolding handle_frame
  handle_frame_keeps raw n h = on_json_keeps (cfg.loads raw) n h

module _ (P : NodeConnection → Type 0) (stable : IsStable P) (cfg : Config) where
  read_frames_keeps :
      (frames : List (Draw × String)) (n : Node) → P n.conn → P (read_frames cfg frames n).conn
  unfolding read_frames
  read_frames_keeps [] n h = h
  read_frames_keeps ((draw, raw) ∷ frames) n h =
      let after = handle_frame_keeps P stable cfg draw raw n h in
      ground (arith, after, read_frames_keeps frames (handle_frame cfg draw raw n).1 after)

  disconnect_keeps : (draw : Draw) (n : Node) → P n.conn → P (on_disconnect draw n).conn
  unfolding on_disconnect
  disconnect_keeps draw n h = by_device n.conn.device_id
    where
      by_owner : (b : Bool) (d : String) → P (disconnect b d draw.now_ms n).conn
      by_owner true d = h
      by_owner false d = h

      by_device : (o : Option String) → P (leave draw o n).conn
      by_device none = h
      by_device (some d) = by_owner (owns d n) d

  pub run_keeps :
      (end_draw : Draw) (frames : List (Draw × String)) (n : Node)
      → P n.conn
      → P (run cfg end_draw frames n).conn
  unfolding run
  run_keeps end_draw frames n h =
      disconnect_keeps end_draw (read_frames cfg frames n) (read_frames_keeps frames n h)
