-- ===== src/Connection.antt =====
-- hdp-bridge/hdp_bridge/connection.py: the state of one node's connection and what it shares with
-- the others, and the bookkeeping of identifiers and malformed frames. `Connection.Admission`,
-- `Connection.Handshake` and `Connection.Challenge` have the frames before a device is known, `Connection.Session` those
-- after, and `Connection.Run` the dispatch and the end of a connection. A handler runs without another task between its steps: its
-- awaits are sends and closes, and all but the last come after what it changes.
pub mod Admission
pub mod Handshake
pub mod Challenge
pub mod Session
pub mod Run
pub mod Stable
pub mod Bounds
pub mod Settled
pub mod Phases
pub mod Unproven
pub mod Escapes
pub mod Presence
pub mod Race
mod Tests
pub mod Revocation
use hermes_device_protocol.Wire.Messages.Plain.{ErrorMsg, error_msg_to_wire}
use hermes_device_protocol.Wire.Messages.{Hello}
use hermes_device_protocol.Wire.Capability.{CapabilityDescriptor}
use hermes_device_protocol.Wire.{Fields, Json, empty, field, string}
use hermes_device_protocol.Invocations.{InvocationsMem}
use hermes_device_protocol.DeviceKeys.{Cryptography, InvalidDeviceKey}
use hermes_device_protocol.Enrollment.{EnrollmentError}
use hermes_device_protocol.Pairing.{PairingError}
use hermes_device_protocol.Registry.{RegistryError}
use hermes_device_protocol.Store.{PairingCode, Python, RegistryDb, Text}
use hermes_device_protocol.Prelude.Dict.{Dict}
use hermes_device_protocol.Prelude.Strings.{contains}
use hermes_device_protocol.Prelude.Transaction.{Tx}
use hermes_device_protocol.Prelude.Result.{ok}
use hermes_device_protocol.Prelude.{
  Bool, List, Option, String, [], false, if◌then◌else◌, leb, length, ltb, none, true, ℕ, ◌++◌, ◌-◌,
  ◌∷◌,
}

-- An exception that a handler does not catch. It ends the task that runs the connection. An
-- EnrollmentError of the connection itself, of no subclass, is `enrollment_error`.
pub data Escape : Type 0 where
  of_registry : RegistryError → Escape
  of_pairing : PairingError → Escape
  of_enrollment : EnrollmentError → Escape
  of_key : InvalidDeviceKey → Escape
  enrollment_error runtime_error : Escape

pub data CloseCode : Type 0 where
  policy_violation protocol_error going_away revoked_4001 : CloseCode

-- What others observe: a frame by its type, payload and `corr`, the close of the socket, a record
-- of the audit trail. The identifier and time of a frame that the bridge sends are left out, and so
-- is the detail of an exception in an error's message. A send to the peer does not fail.
pub data Effect : Type 0 where
  sends : String → Fields → Option String → Effect
  closes : CloseCode → String → Effect
  audits : String → Fields → Effect

-- `_PendingHandshake`
pub record PendingHandshake : Type 0 where
  pub hello : Hello
  pub nonce : String
  pub public_key : String
  pub context : Text
  pub pair_code : Option Text
  pub enrollment_id : Option String
  pub device_id : Option String

-- What the connections of a bridge share. A connection is the number of its object; the descriptors
-- of a device are in the order in which they enter its dictionary.
pub record World : Type 0 where
  pub registry : RegistryDb
  pub pairing_codes : List PairingCode
  pub invocations : InvocationsMem
  pub connections : Dict ℕ
  pub descriptors : Dict (List CapabilityDescriptor)

-- The fields of `NodeConnection` that change. Times are milliseconds of the monotonic clock.
pub record NodeConnection : Type 0 where
  pub self : ℕ
  pub device_id : Option String
  pub pending : Option PendingHandshake
  pub seen_ids : List String
  pub malformed_times : List ℕ
  pub last_heartbeat : ℕ
  pub disconnect_reason : String
  pub closed : Bool

pub record Node : Type 0 where
  pub world : World
  pub conn : NodeConnection
  pub effects : List Effect

abbrev pub Step : Type 0
Step = Tx Node Escape (Unit {0})

-- The arguments of `__init__` that do not change, and what the code takes from libraries. The
-- invocations keep a result by its `json_text`.
pub record Config : Type 0 where
  pub py : Python
  pub lib : Cryptography
  pub dumps : Fields → Option String
  pub json_text : Fields → String
  pub str_int : ℕ → Text
  pub loads : String → Option Json
  pub has_audit : Bool
  pub has_coordinator : Bool
  pub host_key_fingerprint : Option String
  pub host_signer : Option (Text → Text)
  pub dead_peer_timeout : ℕ

-- What a step reads of the clocks and draws at random.
pub record Draw : Type 0 where
  pub monotonic : ℕ
  pub now_ms : ℕ
  pub new_id : String
  pub nonce_bytes : Text
  pub new_credential : String

abbrev pub malformed_window : ℕ
malformed_window = 60_000

abbrev pub malformed_limit : ℕ
malformed_limit = 10

abbrev pub seen_ids_cap : ℕ
seen_ids_cap = 256

-- A step that raises nothing.
abbrev pub does : (Node → Node) → Step
does f n = (ok tt, f n)

abbrev pub put_world : World → Node → Node
put_world w n = record n { world = w }

abbrev pub put_conn : NodeConnection → Node → Node
put_conn c n = record n { conn = c }

abbrev pub emit : Effect → Node → Node
emit e n = record n { effects = n.effects ++ (e ∷ []) }

-- `_send`
abbrev pub send : String → Fields → Node → Node
send type_name payload = emit (sends type_name payload none)

abbrev pub mark_closed : NodeConnection → NodeConnection
mark_closed c = record c { closed = true }

-- `self._ws.close`
abbrev pub close : CloseCode → String → Node → Node
close code message n = emit (closes code message) (put_conn (mark_closed n.conn) n)

-- if self._audit is not None: self._audit.record(event, ...)
abbrev pub audit : Config → String → Fields → Node → Node
audit cfg event fields n = if cfg.has_audit then emit (audits event fields) n else n

abbrev pub reason_field : String → Fields
reason_field reason = field "reason" (string reason) empty

-- A refusal that looks the same to the peer whatever its reason.
abbrev pub auth_failed : Node → Node
auth_failed = close policy_violation "auth_failed"

-- `id in self._seen_ids` and `self._seen_ids[id] = None`, which keeps the place of a known id
abbrev pub add_id : String → List String → List String
add_id i ids = if contains i ids then ids else ids ++ (i ∷ [])

-- popitem(last=False)
abbrev pub drop_oldest : List String → List String
drop_oldest [] = []
drop_oldest (i ∷ ids) = ids

abbrev pub cap_ids : List String → List String
cap_ids ids = if ltb seen_ids_cap (length ids) then drop_oldest ids else ids

unfoldable pub remember_id : String → NodeConnection → NodeConnection
unfolding contains
remember_id i c = record c { seen_ids = cap_ids (add_id i c.seen_ids) }

-- [t for t in times if t >= cutoff]
unfoldable pub since : ℕ → List ℕ → List ℕ
since cutoff [] = []
since cutoff (t ∷ ts) = let rest = since cutoff ts in if leb cutoff t then t ∷ rest else rest

-- The cutoff is `now - 60.0`, which is below every time while the clock is below a minute.
unfoldable pub record_malformed : ℕ → NodeConnection → Bool × NodeConnection
unfolding since
record_malformed now c =
    let times = since (now - malformed_window) (c.malformed_times ++ (now ∷ [])) in
    (ltb malformed_limit (length times), record c { malformed_times = times })

abbrev pub malformed_error : String → ErrorMsg
malformed_error message = record {
  code = "malformed_frame";
  message = message;
  hint = "Send a well-formed HDP/0 frame.";
}

abbrev pub close_if : Bool → Node → Node
close_if true n = close protocol_error "too many malformed frames" n
close_if false n = n

unfoldable pub reject_malformed : Draw → String → Node → Node
unfolding record_malformed error_msg_to_wire
reject_malformed draw message n =
    let recorded = record_malformed draw.monotonic n.conn in
    close_if recorded.0
      (send "error" (error_msg_to_wire (malformed_error message)) (put_conn recorded.1 n))
