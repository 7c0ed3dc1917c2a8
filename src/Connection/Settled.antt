-- ===== src/Connection/Settled.antt =====
-- The state of a connection after a proof.
use hermes_device_protocol.Connection.Admission.{
  as_node, bind_key, complete_pairing, enrollment_db, enter, fail_enrollment, fail_pairing, greet,
  is_bound, issue, nonempty, promoted, put_codes, put_enrollment, register_device, register_hello,
  some_field, welcome,
}
use hermes_device_protocol.Connection.Challenge.{
  accepted, answer, clear_pending, consume_enrollment, handle_proof, is_caught, on_fingerprint,
  on_proof, on_role, reconnect, reject_proof,
}
use hermes_device_protocol.Connection.Handshake.{on_consumed, pair_with_code}
use hermes_device_protocol.Connection.{
  Config, Draw, Escape, Node, PendingHandshake, Step, audit, auth_failed, does, of_enrollment,
  reason_field,
}
use hermes_device_protocol.Wire.Messages.Plain.{Proof, proof_from_wire}
use hermes_device_protocol.Wire.Messages.{Hello}
use hermes_device_protocol.Wire.{Fields, WireError, boolean, empty, field, integer, string}
use hermes_device_protocol.DeviceKeys.{InvalidDeviceKey, fingerprint, verify_proof}
use hermes_device_protocol.Enrollment.Finish.{consume}
use hermes_device_protocol.Enrollment.{EnrollmentError}
use hermes_device_protocol.Pairing.{PairingError, burn_attempt, consume_pairing_code}
use hermes_device_protocol.Registry.{RegistryError, issue_credential}
use hermes_device_protocol.Store.{EnrollmentDb, PairingCode, RegistryDb, Role, Text, secondary}
use hermes_device_protocol.Prelude.Int.{pos}
use hermes_device_protocol.Prelude.Strings.{codes}
use hermes_device_protocol.Prelude.Transaction.{on_return, ◌>>>◌}
use hermes_device_protocol.Prelude.Result.{Result, err, ok}
use hermes_device_protocol.Prelude.{
  Bool, Bool-cases, List, Option, String, arith, false, if◌then◌else◌, inl, inr, is_some, none,
  refl, some, true, ◌||◌, ◌≡◌,
}

-- After a step there is a device, or the connection has ended.
abbrev pub IsSettled : Result Escape (Unit {0}) × Node → Type 0
IsSettled (ok _, n) = (n.conn.closed || is_some n.conn.device_id) ≡ true
IsSettled (err e, n) = Unit

IsSettled-if :
    (b : Bool) (r s : Result Escape (Unit {0}) × Node)
    → IsSettled r
    → IsSettled s
    → IsSettled (if b then r else s)
IsSettled-if true r s hr hs = hr
IsSettled-if false r s hr hs = hs

module _ (cfg : Config) (draw : Draw) where
  abbrev Has : Node → Type 0
  Has n = (n.conn.closed || is_some n.conn.device_id) ≡ true

  then-IsSettled :
      (r : Result Escape (Unit {0}) × Node) (next : Step)
      → ((n : Node) → IsSettled (next n))
      → IsSettled (on_return r next)
  then-IsSettled (ok _, n) next k = k n
  then-IsSettled (err e, n) next k = tt

  kept-IsSettled :
      (r : Result Escape (Unit {0}) × Node) (next : Step)
      → IsSettled r
      → ((n : Node) → Has n → IsSettled (next n))
      → IsSettled (on_return r next)
  kept-IsSettled (ok _, n) next h k = k n h
  kept-IsSettled (err e, n) next h k = tt

  audit_Has : (event : String) (fields : Fields) (n : Node) → Has n → Has (audit cfg event fields n)
  audit_Has event fields n h = elim (Bool-cases cfg.has_audit) [ inl e ↦ rw e h | inr e ↦ rw e h ]

  fail_pairing-Has : (reason : String) (n : Node) → Has (fail_pairing cfg draw reason n)
  unfolding fail_pairing
  fail_pairing-Has reason n =
      let burnt = burn_attempt draw.now_ms n.world.pairing_codes in
      audit_Has "auth_failed"
        (field "reason" (string reason)
          (field "pairing_codes_invalidated" (integer (pos burnt.0)) empty))
        (auth_failed (put_codes burnt.1 n)) refl

  register-IsSettled :
      (d : String) (hello : Hello) (role : Role) (n : Node)
      → IsSettled (register_device cfg draw d hello role n)
  unfolding register_device
  register-IsSettled d hello role n =
      then-IsSettled (register_hello cfg draw d hello n) (does (enter cfg draw d hello role))
        λ m. some_or (promoted role d m).conn.closed
    where
      some_or : (b : Bool) → (b || true) ≡ true
      some_or true = refl
      some_or false = refl

  bind_settled : (d : String) (o : Option String) (n : Node) → Has n → Has (bind_key cfg draw d o n)
  bind_settled d none n h = h
  bind_settled d (some key) n h = h

  as_node-IsSettled :
      (n : Node) (r : Result RegistryError (Unit {0}) × RegistryDb)
      → Has n
      → IsSettled (as_node n r)
  as_node-IsSettled n (ok _, db) h = h
  as_node-IsSettled n (err e, db) h = tt

  complete-IsSettled :
      (d : String) (hello : Hello) (role : Role) (n : Node)
      → IsSettled (complete_pairing cfg draw d hello role n)
  unfolding complete_pairing
  complete-IsSettled d hello role n =
      let bind = does (bind_key cfg draw d (nonempty hello.device_pubkey)) in
      let registered = register_device cfg draw d hello role in
      let bound =
        kept-IsSettled (registered n) bind (register-IsSettled d hello role n)
          (bind_settled d (nonempty hello.device_pubkey)) in
      let issued = kept-IsSettled ((registered >>> bind) n) (issue cfg draw d) bound λ m h.
        as_node-IsSettled m
          (issue_credential cfg.py (codes draw.new_credential) d draw.now_ms m.world.registry) h in
      kept-IsSettled ((registered >>> bind >>> issue cfg draw d) n) (does (greet cfg draw d hello))
        issued
        λ m h.
          audit_Has "paired"
            (field "device_id" (string d)
              (field "device_bound" (boolean (is_bound cfg draw hello.device_pubkey)) empty))
            (welcome d (some draw.new_credential) m) h

  pair-IsSettled :
      (hello : Hello) (code : Text) (n : Node) → IsSettled (pair_with_code cfg draw hello code n)
  unfolding pair_with_code
  pair-IsSettled hello code n =
      consumed_settled
        (consume_pairing_code cfg.py code draw.new_id draw.now_ms n.world.pairing_codes)
    where
      consumed_settled :
          (r : Result PairingError (Bool × List PairingCode))
          → IsSettled (on_consumed cfg draw hello r n)
      consumed_settled (err e) = tt
      consumed_settled (ok (true, rows)) =
          complete-IsSettled draw.new_id hello secondary (put_codes rows n)
      consumed_settled (ok (false, rows)) =
          fail_pairing-Has "invalid_or_expired_pairing_code" (put_codes rows n)

  fail_enrollment-Has : (reason : String) (n : Node) → Has (fail_enrollment cfg draw reason n)
  fail_enrollment-Has reason n =
      audit_Has "enrollment_failed" (reason_field reason) (auth_failed n) refl

  enrollment-IsSettled :
      (p : PendingHandshake) (enrollment_id : String) (host : Option String) (n : Node)
      → IsSettled (consume_enrollment cfg draw p enrollment_id host n)
  enrollment-IsSettled p enrollment_id none n = fail_enrollment-Has "enrollment_unavailable" n
  enrollment-IsSettled p enrollment_id (some host) n =
      IsSettled-if cfg.has_coordinator
        (on_fingerprint cfg draw p.hello enrollment_id host
          (fingerprint cfg.lib cfg.py p.public_key) n)
        (ok tt, fail_enrollment cfg draw "enrollment_unavailable" n)
        (fingerprint_settled (fingerprint cfg.lib cfg.py p.public_key))
        (fail_enrollment-Has "enrollment_unavailable" n)
    where
      role_settled :
          (r : Result EnrollmentError Role × EnrollmentDb)
          → IsSettled (on_role cfg draw p.hello r n)
      role_settled (ok role, e) = complete-IsSettled draw.new_id p.hello role (put_enrollment e n)
      role_settled (err why, e) =
          IsSettled-if (is_caught why)
            (ok tt, fail_enrollment cfg draw "enrollment_not_approved" (put_enrollment e n))
            (err (of_enrollment why), put_enrollment e n)
            (fail_enrollment-Has "enrollment_not_approved" (put_enrollment e n)) tt

      fingerprint_settled :
          (r : Result InvalidDeviceKey String)
          → IsSettled (on_fingerprint cfg draw p.hello enrollment_id host r n)
      fingerprint_settled (err e) = tt
      fingerprint_settled (ok candidate) = role_settled (
          consume cfg.py (codes enrollment_id) host candidate draw.now_ms
            (enrollment_db n.world.registry))

  accepted-IsSettled :
      (p : PendingHandshake) (code : Option Text) (enrollment_id : Option String) (n : Node)
      → IsSettled (accepted cfg draw p code enrollment_id n)
  accepted-IsSettled p (some code) e n = pair-IsSettled p.hello code n
  accepted-IsSettled p none (some e) n = enrollment-IsSettled p e cfg.host_key_fingerprint n
  accepted-IsSettled p none none n = reconnects p.device_id
    where
      reconnects : (o : Option String) → IsSettled (reconnect cfg draw p.hello o n)
      reconnects none = tt
      reconnects (some d) =
          kept-IsSettled (register_device cfg draw d p.hello secondary n) (does (welcome d none))
            (register-IsSettled d p.hello secondary n) λ m h. h

  reject_Has :
      (p : PendingHandshake) (reason : String) (n : Node) → Has (reject_proof cfg draw p reason n)
  unfolding reject_proof
  reject_Has p reason n = ground (
    arith,
    fail_pairing-Has reason n,
    fail_enrollment-Has reason n,
    audit_Has "auth_failed" (some_field "device_id" p.device_id (reason_field reason))
        (auth_failed n) refl,
  )

  proof-IsSettled :
      (p : PendingHandshake) (r : Result WireError Proof) (n : Node)
      → IsSettled (on_proof cfg draw p r n)
  unfolding on_proof
  proof-IsSettled p (err e) n = reject_Has p "malformed proof" n
  proof-IsSettled p (ok proof) n =
      IsSettled-if (verify_proof cfg.lib p.public_key p.context p.nonce proof.signature)
        (accepted cfg draw p p.pair_code p.enrollment_id n)
        (ok tt, reject_proof cfg draw p "invalid_device_proof" n)
        (accepted-IsSettled p p.pair_code p.enrollment_id n) (reject_Has p "invalid_device_proof" n)

  pub handle_proof-IsSettled :
      (payload : Fields) (n : Node) → IsSettled (handle_proof cfg draw payload n)
  unfolding handle_proof
  handle_proof-IsSettled payload n = answered n.conn.pending
    where
      answered : (o : Option PendingHandshake) → IsSettled (answer cfg draw o payload n)
      answered none = tt
      answered (some p) = proof-IsSettled p (proof_from_wire payload) (clear_pending n)
