-- ===== src/Connection/Run.antt =====
-- hdp-bridge/hdp_bridge/connection.py, the dispatch of a frame, the end of a connection, and the run
-- over all its frames. A frame comes with the draws of its step.
use hermes_device_protocol.Connection.Admission.{update_device}
use hermes_device_protocol.Connection.Session.{
  handle_ack, handle_approval_decision, handle_capabilities, handle_heartbeat, handle_result, owns,
  put_invocations, refused, set_last_seen,
}
use hermes_device_protocol.Connection.Challenge.{handle_proof}
use hermes_device_protocol.Connection.Handshake.{handle_hello}
use hermes_device_protocol.Connection.{
  Config, Draw, Escape, Node, PendingHandshake, Step, close, going_away, policy_violation,
  protocol_error, put_conn, put_world, reject_malformed, remember_id,
}
use hermes_device_protocol.Wire.Envelope.{
  Envelope, EnvelopeError, envelope_from_wire, unsupported_version,
}
use hermes_device_protocol.Wire.{Json}
use hermes_device_protocol.Invocations.{fail_all_for_connection}
use hermes_device_protocol.Prelude.Dict.{get_item, pop_item}
use hermes_device_protocol.Prelude.Strings.{contains}
use hermes_device_protocol.Prelude.Result.{Result, err, ok}
use hermes_device_protocol.Prelude.{
  Bool, List, Option, String, [], false, if◌then◌else◌, ltb, none, not, some, str_eq, true, ℕ, ◌-◌,
  ◌∷◌,
}

-- `_NODE_TO_BRIDGE_TYPES`
abbrev pub node_to_bridge_types : List String
node_to_bridge_types =
    "hello" ∷ "capabilities" ∷ "ack" ∷ "result" ∷ "progress" ∷ "heartbeat" ∷ "error"
    ∷ "sentinel_approval_decision" ∷ []

abbrev pub put_offline : Bool → String → ℕ → Node → Node
put_offline true d now_ms n = update_device d (set_last_seen now_ms) n
put_offline false d now_ms n = n

abbrev pub pop_if : Bool → String → Node → Node
pop_if true d n = put_world (record n.world { connections = pop_item d n.world.connections }) n
pop_if false d n = n

abbrev pub fail_in_flight : Node → Node
fail_in_flight n =
    put_invocations
      (fail_all_for_connection n.conn.self n.conn.disconnect_reason n.world.invocations).1 n

abbrev pub disconnect : Bool → String → ℕ → Node → Node
disconnect owned d now_ms n = put_offline owned d now_ms (fail_in_flight (pop_if owned d n))

abbrev pub leave : Draw → Option String → Node → Node
leave draw none n = n
leave draw (some d) n = disconnect (owns d n) d draw.now_ms n

-- `_on_disconnect`; `Registry.mark_offline` writes the time.
unfoldable pub on_disconnect : Draw → Node → Node
unfolding get_item pop_item fail_all_for_connection
on_disconnect draw n = leave draw n.conn.device_id n

-- One round of `_dead_peer_monitor`
abbrev pub dead_peer_check : Config → Draw → Node → Node
dead_peer_check cfg draw n =
    if ltb cfg.dead_peer_timeout (draw.monotonic - n.conn.last_heartbeat)
    then close going_away "dead peer" (on_disconnect draw n)
    else n

-- The handlers of a connection whose device is known.
pub data Handler : Type 0 where
  capabilities ack result progress heartbeat error approval_decision : Handler

-- The table of handlers, from types; only "hello" of the node's types has none.
unfoldable pub handler_of : String → Option Handler
handler_of t =
    if str_eq t "capabilities"
    then some capabilities
    else if str_eq t "ack"
    then some ack
    else if str_eq t "result"
    then some result
    else if str_eq t "progress"
    then some progress
    else if str_eq t "heartbeat"
    then some heartbeat
    else if str_eq t "error"
    then some error
    else if str_eq t "sentinel_approval_decision"
    then some approval_decision
    else none

module _ (cfg : Config) (draw : Draw) where
  abbrev pub dispatch : Option Handler → String → Envelope → Step
  dispatch none d e n = refused cfg draw "unhandled type" n
  dispatch (some capabilities) d e n = handle_capabilities cfg draw d e.payload n
  dispatch (some ack) d e n = handle_ack cfg draw e.corr n
  dispatch (some result) d e n = handle_result cfg draw e.corr e.payload n
  dispatch (some progress) d e n = (ok tt, n)
  dispatch (some heartbeat) d e n = handle_heartbeat cfg draw d n
  dispatch (some error) d e n = (ok tt, n)
  dispatch (some approval_decision) d e n = handle_approval_decision cfg draw d e.payload n

  unfoldable pub route : String → Envelope → Step
  unfolding contains reject_malformed handler_of handle_capabilities handle_ack handle_result
      handle_heartbeat handle_approval_decision
  route d e n =
      if contains e.type_name node_to_bridge_types
      then dispatch (handler_of e.type_name) d e n
      else refused cfg draw "unexpected message direction" n

  -- Frames of a connection that has sent a challenge, and of one that has not.
  abbrev pub expect_proof : Envelope → Step
  expect_proof e n =
      if str_eq e.type_name "proof"
      then handle_proof cfg draw e.payload n
      else (ok tt, close protocol_error "expected proof" n)

  abbrev pub expect_hello : Envelope → Step
  expect_hello e n =
      if str_eq e.type_name "hello"
      then handle_hello cfg draw e.payload n
      else (ok tt, close protocol_error "expected hello first" n)

  abbrev pub gate : Option String → Option PendingHandshake → Envelope → Step
  gate none none e n = expect_hello e n
  gate none (some p) e n = expect_proof e n
  gate (some d) p e n = route d e n

  -- An identifier that was seen before is ignored.
  unfoldable pub handle_envelope : Envelope → Step
  unfolding contains remember_id handle_hello handle_proof route
  handle_envelope e n =
      if contains e.id n.conn.seen_ids
      then (ok tt, n)
      else gate n.conn.device_id n.conn.pending e (put_conn (remember_id e.id n.conn) n)

  abbrev pub on_envelope : Result EnvelopeError Envelope → Step
  on_envelope (err unsupported_version) n =
      (ok tt, close policy_violation "unsupported hdp version" n)
  on_envelope (err _) n = refused cfg draw "invalid envelope" n
  on_envelope (ok e) n = handle_envelope e n

  abbrev pub on_json : Option Json → Step
  on_json none n = refused cfg draw "invalid JSON" n
  on_json (some data_) n = on_envelope (envelope_from_wire cfg.py data_) n

  -- `_handle_frame`
  unfoldable pub handle_frame : String → Step
  unfolding handle_envelope reject_malformed envelope_from_wire
  handle_frame raw n = on_json (cfg.loads raw) n

abbrev pub goes_on : Result Escape (Unit {0}) × Node → Bool
goes_on (ok _, n) = not n.conn.closed
goes_on (err _, n) = false

module _ (cfg : Config) where
  -- The loop of `run`: it ends with the frames, with the socket, or with an exception.
  unfoldable pub read_frames : List (Draw × String) → Node → Node
  unfolding handle_frame
  read_frames [] n = n
  read_frames ((draw, raw) ∷ frames) n =
      let after = handle_frame cfg draw raw n in
      let rest = read_frames frames after.1 in if goes_on after then rest else after.1

  -- `run`, with the disconnect of its `finally`
  unfoldable pub run : Draw → List (Draw × String) → Node → Node
  unfolding read_frames on_disconnect
  run end_draw frames n = on_disconnect end_draw (read_frames frames n)
