-- ===== src/Connection/Challenge.antt =====
-- hdp-bridge/hdp_bridge/connection.py, `_handle_proof`: the one answer to a challenge.
use hermes_device_protocol.Connection.Admission.{
  complete_pairing, enrollment_db, fail_enrollment, fail_pairing, put_enrollment, register_device,
  some_field, welcome,
}
use hermes_device_protocol.Connection.Handshake.{pair_with_code}
use hermes_device_protocol.Connection.{
  Config, Draw, Node, PendingHandshake, Step, audit, auth_failed, does, of_enrollment, of_key,
  put_conn, reason_field, runtime_error,
}
use hermes_device_protocol.Wire.Messages.Plain.{Proof, proof_from_wire}
use hermes_device_protocol.Wire.Messages.{Hello}
use hermes_device_protocol.Wire.{Fields, WireError}
use hermes_device_protocol.DeviceKeys.{InvalidDeviceKey, fingerprint, verify_proof}
use hermes_device_protocol.Enrollment.Finish.{consume}
use hermes_device_protocol.Enrollment.{
  EnrollmentError, empty_identifier, integrity_error, unicode_encode_error,
}
use hermes_device_protocol.Pairing.{unicode_encode_error}
use hermes_device_protocol.Registry.{integrity_error, unicode_encode_error}
use hermes_device_protocol.Store.{EnrollmentDb, Role, Text, secondary}
use hermes_device_protocol.Prelude.Strings.{codes}
use hermes_device_protocol.Prelude.Transaction.{◌>>>◌}
use hermes_device_protocol.Prelude.Result.{Result, err, ok}
use hermes_device_protocol.Prelude.{
  Bool, Option, String, false, if◌then◌else◌, is_some, none, some, true,
}

abbrev pub clear_pending : Node → Node
clear_pending n = put_conn (record n.conn { pending = none }) n

-- The exceptions that `except EnrollmentError` catches.
abbrev pub is_caught : EnrollmentError → Bool
is_caught empty_identifier = false
is_caught unicode_encode_error = false
is_caught integrity_error = false
is_caught _ = true

module _ (cfg : Config) (draw : Draw) where
  -- A failed reconnect: the peer sees what it sees of any failure.
  abbrev pub refuse_device : String → Option String → Node → Node
  refuse_device reason device_id n =
      audit cfg "auth_failed" (some_field "device_id" device_id (reason_field reason))
        (auth_failed n)

  -- `_reject_proof`
  unfoldable pub reject_proof : PendingHandshake → String → Node → Node
  unfolding fail_pairing
  reject_proof p reason n =
      if is_some p.pair_code
      then fail_pairing cfg draw reason n
      else if is_some p.enrollment_id
      then fail_enrollment cfg draw reason n
      else refuse_device reason p.device_id n

  -- What `consume` of the coordinator returned.
  abbrev pub on_role : Hello → Result EnrollmentError Role × EnrollmentDb → Step
  on_role hello (ok role, e) n =
      complete_pairing cfg draw draw.new_id hello role (put_enrollment e n)
  on_role hello (err why, e) n =
      if is_caught why
      then (ok tt, fail_enrollment cfg draw "enrollment_not_approved" (put_enrollment e n))
      else (err (of_enrollment why), put_enrollment e n)

  abbrev pub on_fingerprint : Hello → String → String → Result InvalidDeviceKey String → Step
  on_fingerprint hello enrollment_id host (err why) n = (err (of_key why), n)
  on_fingerprint hello enrollment_id host (ok candidate) n =
      on_role hello
        (consume cfg.py (codes enrollment_id) host candidate draw.now_ms
          (enrollment_db n.world.registry))
        n

  abbrev pub consume_enrollment : PendingHandshake → String → Option String → Step
  consume_enrollment p enrollment_id none n =
      (ok tt, fail_enrollment cfg draw "enrollment_unavailable" n)
  consume_enrollment p enrollment_id (some host) n =
      if cfg.has_coordinator
      then on_fingerprint p.hello enrollment_id host (fingerprint cfg.lib cfg.py p.public_key) n
      else (ok tt, fail_enrollment cfg draw "enrollment_unavailable" n)

  abbrev pub reconnect : Hello → Option String → Step
  reconnect hello none n = (err runtime_error, n)
  reconnect hello (some d) n =
      (register_device cfg draw d hello secondary >>> does (welcome d none)) n

  -- The three handshakes that a challenge may belong to, once its proof has been accepted.
  abbrev pub accepted : PendingHandshake → Option Text → Option String → Step
  accepted p (some code) enrollment_id n = pair_with_code cfg draw p.hello code n
  accepted p none (some enrollment_id) n =
      consume_enrollment p enrollment_id cfg.host_key_fingerprint n
  accepted p none none n = reconnect p.hello p.device_id n

  unfoldable pub on_proof : PendingHandshake → Result WireError Proof → Step
  unfolding verify_proof consume fingerprint pair_with_code complete_pairing register_device
      reject_proof
  on_proof p (err e) n = (ok tt, reject_proof p "malformed proof" n)
  on_proof p (ok proof) n =
      if verify_proof cfg.lib p.public_key p.context p.nonce proof.signature
      then accepted p p.pair_code p.enrollment_id n
      else (ok tt, reject_proof p "invalid_device_proof" n)

  abbrev pub answer : Option PendingHandshake → Fields → Step
  answer none payload n = (err runtime_error, n)
  answer (some p) payload n = on_proof p (proof_from_wire payload) (clear_pending n)

  -- `_handle_proof`
  unfoldable pub handle_proof : Fields → Step
  unfolding on_proof proof_from_wire
  handle_proof payload n = answer n.conn.pending payload n
