-- ===== src/Connection/Stable/Frames.antt =====
-- Stable predicates of a connection, through the two frames of a handshake.
use hermes_device_protocol.Connection.Admission.{
  enrolled_public_key, enrollment_db, fail_enrollment, fail_pairing, nonempty, put_enrollment,
  register_device, removed_prefix, some_field, welcome,
}
use hermes_device_protocol.Connection.Stable.{
  Holds, IsStable, IsSteady, StepKeeps, branch, complete_pairing_keeps, enrollment_keeps,
  fail_pairing_keeps, on_known_keeps, on_pairing_key_keeps, pair_with_code_keeps, refusal_keeps,
  register_keeps, seq_keeps,
}
use hermes_device_protocol.Connection.Session.{refused}
use hermes_device_protocol.Connection.Challenge.{
  accepted, answer, clear_pending, consume_enrollment, handle_proof, is_caught, on_fingerprint,
  on_proof, on_role, reconnect, reject_proof,
}
use hermes_device_protocol.Connection.Handshake.{
  handle_hello, handle_pairing_hello, on_credential, on_enrollment, on_hello, on_prefix,
  on_resolved,
}
use hermes_device_protocol.Connection.{
  Config, Draw, Node, NodeConnection, PendingHandshake, Step, does, of_enrollment, reason_field,
}
use hermes_device_protocol.Wire.Messages.Plain.{Proof, proof_from_wire}
use hermes_device_protocol.Wire.Messages.{Hello, hello_from_wire}
use hermes_device_protocol.Wire.{Fields, WireError}
use hermes_device_protocol.DeviceKeys.{InvalidDeviceKey, fingerprint, verify_proof}
use hermes_device_protocol.Enrollment.Finish.{consume}
use hermes_device_protocol.Enrollment.{EnrollmentError}
use hermes_device_protocol.Registry.{RegistryError, resolve_device}
use hermes_device_protocol.Store.{EnrollmentDb, Role, Text, secondary}
use hermes_device_protocol.Prelude.Strings.{codes}
use hermes_device_protocol.Prelude.Result.{Result, err, ok}
use hermes_device_protocol.Prelude.{Option, String, arith, none, some}

module _ (P : NodeConnection → Type 0) (steady : IsSteady P) (cfg : Config) (draw : Draw) where
  abbrev pub Kept : Step → Type 0
  Kept = StepKeeps P steady cfg draw

  pub refused_keeps : (m : String) → Kept (refused cfg draw m)
  refused_keeps m n h = steady.malformed draw m n h

module _ (P : NodeConnection → Type 0) (stable : IsStable P) (cfg : Config) (draw : Draw) where
  on_resolved_keeps :
      (hello : Hello) (r : Result RegistryError (Option String))
      → Kept P stable.steady cfg draw (on_resolved cfg draw hello r)
  on_resolved_keeps hello (err e) n h = h
  on_resolved_keeps hello (ok none) n h =
      refusal_keeps P stable.steady cfg draw "auth_failed" (reason_field "unknown_credential") n h
  on_resolved_keeps hello (ok (some d)) n h =
      on_known_keeps P stable cfg draw hello d
        (nonempty (some (enrolled_public_key d n.world.registry))) n h

  on_prefix_keeps :
      (hello : Hello) (credential : String) (o : Option Text)
      → Kept P stable.steady cfg draw (on_prefix cfg draw hello credential o)
  unfolding handle_pairing_hello
  on_prefix_keeps hello credential (some code) n h =
      branch P stable.steady cfg draw cfg.has_coordinator
        (ok tt, fail_pairing cfg draw "legacy_pairing_code_rejected" n)
        (handle_pairing_hello cfg draw hello code n)
        (fail_pairing_keeps P stable.steady cfg draw "legacy_pairing_code_rejected" n h)
        (on_pairing_key_keeps P stable cfg draw hello code (nonempty hello.device_pubkey) n h)
  on_prefix_keeps hello credential none n h =
      on_resolved_keeps hello
        (resolve_device cfg.py (codes credential) n.world.registry.credentials) n h

  on_credential_keeps :
      (hello : Hello) (o : Option String)
      → Kept P stable.steady cfg draw (on_credential cfg draw hello o)
  on_credential_keeps hello none n h =
      refusal_keeps P stable.steady cfg draw "auth_failed" (reason_field "no_credential") n h
  on_credential_keeps hello (some credential) n h =
      on_prefix_keeps hello credential (removed_prefix (codes "pair:") (codes credential)) n h

  on_hello_keeps :
      (r : Result WireError Hello) → Kept P stable.steady cfg draw (on_hello cfg draw r)
  on_hello_keeps (err e) n h = refused_keeps P stable.steady cfg draw "malformed hello" n h
  on_hello_keeps (ok hello) n h = go (nonempty hello.enrollment_id)
    where
      go : (o : Option String) → Holds P stable.steady cfg draw (on_enrollment cfg draw hello o n)
      go none = on_credential_keeps hello (nonempty hello.credential) n h
      go (some e) = enrollment_keeps P stable cfg draw hello e (nonempty hello.device_pubkey) n h

  pub handle_hello_keeps :
      (payload : Fields) → Kept P stable.steady cfg draw (handle_hello cfg draw payload)
  unfolding handle_hello
  handle_hello_keeps payload = on_hello_keeps (hello_from_wire payload)

  reject_proof_keeps :
      (p : PendingHandshake) (reason : String) (n : Node)
      → P n.conn
      → P (reject_proof cfg draw p reason n).conn
  unfolding reject_proof
  reject_proof_keeps p reason n h = ground (
    arith,
    fail_pairing_keeps P stable.steady cfg draw reason n h,
    refusal_keeps P stable.steady cfg draw "enrollment_failed" (reason_field reason) n h,
    refusal_keeps P stable.steady cfg draw "auth_failed"
        (some_field "device_id" p.device_id (reason_field reason)) n h,
  )

  on_role_keeps :
      (hello : Hello) (r : Result EnrollmentError Role × EnrollmentDb)
      → Kept P stable.steady cfg draw (on_role cfg draw hello r)
  on_role_keeps hello (ok role, e) n h =
      complete_pairing_keeps P stable cfg draw draw.new_id hello role (put_enrollment e n) h
  on_role_keeps hello (err why, e) n h =
      branch P stable.steady cfg draw (is_caught why)
        (ok tt, fail_enrollment cfg draw "enrollment_not_approved" (put_enrollment e n))
        (err (of_enrollment why), put_enrollment e n)
        (refusal_keeps P stable.steady cfg draw "enrollment_failed"
          (reason_field "enrollment_not_approved") (put_enrollment e n) h)
        h

  on_fingerprint_keeps :
      (hello : Hello) (enrollment_id host : String) (r : Result InvalidDeviceKey String)
      → Kept P stable.steady cfg draw (on_fingerprint cfg draw hello enrollment_id host r)
  on_fingerprint_keeps hello enrollment_id host (err e) n h = h
  on_fingerprint_keeps hello enrollment_id host (ok candidate) n h =
      on_role_keeps hello
        (consume cfg.py (codes enrollment_id) host candidate draw.now_ms
          (enrollment_db n.world.registry))
        n h

  consume_enrollment_keeps :
      (p : PendingHandshake) (enrollment_id : String) (host : Option String)
      → Kept P stable.steady cfg draw (consume_enrollment cfg draw p enrollment_id host)
  consume_enrollment_keeps p enrollment_id none n h =
      refusal_keeps P stable.steady cfg draw "enrollment_failed"
        (reason_field "enrollment_unavailable") n h
  consume_enrollment_keeps p enrollment_id (some host) n h =
      branch P stable.steady cfg draw cfg.has_coordinator
        (on_fingerprint cfg draw p.hello enrollment_id host
          (fingerprint cfg.lib cfg.py p.public_key) n)
        (ok tt, fail_enrollment cfg draw "enrollment_unavailable" n)
        (on_fingerprint_keeps p.hello enrollment_id host (fingerprint cfg.lib cfg.py p.public_key) n
          h)
        (refusal_keeps P stable.steady cfg draw "enrollment_failed"
          (reason_field "enrollment_unavailable") n h)

  accepted_keeps :
      (p : PendingHandshake) (code : Option Text) (enrollment_id : Option String) (n : Node)
      → P n.conn
      → Holds P stable.steady cfg draw (accepted cfg draw p code enrollment_id n)
  accepted_keeps p (some code) enrollment_id n h =
      pair_with_code_keeps P stable cfg draw p.hello code n h
  accepted_keeps p none (some e) n h = consume_enrollment_keeps p e cfg.host_key_fingerprint n h
  accepted_keeps p none none n h = reconnects p.device_id
    where
      reconnects :
          (o : Option String) → Holds P stable.steady cfg draw (reconnect cfg draw p.hello o n)
      reconnects none = h
      reconnects (some d) =
          seq_keeps P stable.steady cfg draw (register_device cfg draw d p.hello secondary)
            (does (welcome d none)) (register_keeps P stable cfg draw d p.hello secondary)
            (λ m hm. hm) n h

  on_proof_keeps :
      (p : PendingHandshake) (r : Result WireError Proof)
      → Kept P stable.steady cfg draw (on_proof cfg draw p r)
  unfolding on_proof
  on_proof_keeps p (err e) n h = reject_proof_keeps p "malformed proof" n h
  on_proof_keeps p (ok proof) n h =
      branch P stable.steady cfg draw
        (verify_proof cfg.lib p.public_key p.context p.nonce proof.signature)
        (accepted cfg draw p p.pair_code p.enrollment_id n)
        (ok tt, reject_proof cfg draw p "invalid_device_proof" n)
        (accepted_keeps p p.pair_code p.enrollment_id n h)
        (reject_proof_keeps p "invalid_device_proof" n h)

  pub handle_proof_keeps :
      (payload : Fields) → Kept P stable.steady cfg draw (handle_proof cfg draw payload)
  unfolding handle_proof
  handle_proof_keeps payload n h = go n.conn.pending
    where
      go :
          (o : Option PendingHandshake)
          → Holds P stable.steady cfg draw (answer cfg draw o payload n)
      go none = h
      go (some p) =
          on_proof_keeps p (proof_from_wire payload) (clear_pending n)
            (stable.waiting none n.conn h)
