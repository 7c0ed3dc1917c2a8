-- ===== src/Connection/Unproven.antt =====
-- A connection before its device has proved that it holds its key: what refused handshakes change.
use hermes_device_protocol.Connection.Admission.{
  fail_pairing, nonempty, put_codes, removed_prefix, some_field,
}
use hermes_device_protocol.Connection.Challenge.{on_proof, reject_proof}
use hermes_device_protocol.Connection.Handshake.{
  challenge_pairing, handle_hello, handle_pairing_hello, on_enrollment_key, on_prefix,
}
use hermes_device_protocol.Connection.{
  Config, Draw, Escape, Node, PendingHandshake, World, audit, auth_failed, reason_field,
}
use hermes_device_protocol.Wire.Messages.Plain.{Proof}
use hermes_device_protocol.Wire.Messages.{Hello, hello_from_wire}
use hermes_device_protocol.Wire.{Fields, WireError, empty, field, integer, string}
use hermes_device_protocol.DeviceKeys.{key_is_usable, verify_proof}
use hermes_device_protocol.Pairing.{PairingError, burn_attempt, code_is_live}
use hermes_device_protocol.Store.{Text}
use hermes_device_protocol.Prelude.Int.{pos}
use hermes_device_protocol.Prelude.Strings.{codes}
use hermes_device_protocol.Prelude.Result.{Result, err, ok}
use hermes_device_protocol.Prelude.{
  Bool, Bool-cases, Option, String, arith, false, if◌then◌else◌, inl, inr, is_some, none, refl,
  some, true, ◌≡◌, ◌⊎◌,
}

module _ (cfg : Config) (draw : Draw) where
  -- The world after a failed legacy pairing: the budget of the codes is charged.
  abbrev pub charged : World → World
  charged w = record w { pairing_codes = (burn_attempt draw.now_ms w.pairing_codes).1 }

  audit_world :
      (event : String) (fields : Fields) (n : Node) → (audit cfg event fields n).world ≡ n.world
  audit_world event fields n = elim (Bool-cases cfg.has_audit) [
    | inl e ↦ rw e refl
    | inr e ↦ rw e refl
  ]

  fail_pairing_world :
      (reason : String) (n : Node) → (fail_pairing cfg draw reason n).world ≡ charged n.world
  unfolding fail_pairing
  fail_pairing_world reason n =
      let burnt = burn_attempt draw.now_ms n.world.pairing_codes in
      audit_world "auth_failed"
        (field "reason" (string reason)
          (field "pairing_codes_invalidated" (integer (pos burnt.0)) empty))
        (auth_failed (put_codes burnt.1 n))

  -- What a refused proof may change: the budget, where the challenge was for a pairing code.
  abbrev pub after_refusal : PendingHandshake → World → World
  after_refusal p w = if is_some p.pair_code then charged w else w

  reject_world :
      (p : PendingHandshake) (reason : String) (n : Node)
      → (reject_proof cfg draw p reason n).world ≡ after_refusal p n.world
  unfolding reject_proof
  reject_world p reason n = ground (
    arith,
    fail_pairing_world reason n,
    audit_world "enrollment_failed" (reason_field reason) (auth_failed n),
    audit_world "auth_failed" (some_field "device_id" p.device_id (reason_field reason))
        (auth_failed n),
  )

  -- A proof that is malformed, or whose signature does not verify, changes nothing that connections
  -- share but the guessing budget, and that only where the challenge was for a pairing code: no
  -- code or enrollment is consumed, no device, credential or presence is written.
  pub refused_proof_charges :
      (p : PendingHandshake) (r : Result WireError Proof) (n : Node)
      → ((proof : Proof)
          → r ≡ ok proof
          → verify_proof cfg.lib p.public_key p.context p.nonce proof.signature ≡ false)
      → (on_proof cfg draw p r n).1.world ≡ after_refusal p n.world
  unfolding on_proof
  refused_proof_charges p (err e) n h = reject_world p "malformed proof" n
  refused_proof_charges p (ok proof) n h =
      rw (h proof refl) (reject_world p "invalid_device_proof" n)

  -- Either nothing that connections share changes, or only the guessing budget is charged.
  abbrev pub IsUnproven : Result Escape (Unit {0}) × Node → World → Type 0
  IsUnproven r w = (r.1.world ≡ w) ⊎ (r.1.world ≡ charged w)

  challenge-IsUnproven :
      (hello : Hello) (code : Text) (key : String) (live : Result PairingError Bool) (n : Node)
      → IsUnproven (challenge_pairing cfg draw hello code key live n) n.world
  challenge-IsUnproven hello code key (err e) n = inl refl
  challenge-IsUnproven hello code key (ok false) n =
      inr (fail_pairing_world "invalid_or_expired_pairing_code" n)
  challenge-IsUnproven hello code key (ok true) n = elim (Bool-cases (key_is_usable cfg.lib key)) [
    | inl e ↦ inl (rw e refl)
    | inr e ↦ inr (rw e (fail_pairing_world "unusable_device_pubkey" n))
  ]

  code-IsUnproven :
      (hello : Hello) (credential : String) (code : Text) (key : String) (n : Node)
      → nonempty hello.device_pubkey ≡ some key
      → IsUnproven (on_prefix cfg draw hello credential (some code) n) n.world
  unfolding handle_pairing_hello
  code-IsUnproven hello credential code key n h = elim (Bool-cases cfg.has_coordinator) [
    | inl e ↦ inr (rw e (fail_pairing_world "legacy_pairing_code_rejected" n))
    | inr e ↦
        rw (e, h)
          (challenge-IsUnproven hello code key
            (code_is_live cfg.py code draw.now_ms n.world.pairing_codes) n)
  ]

  enrollment_world :
      (hello : Hello) (enrollment_id : String) (o : Option String) (n : Node)
      → (on_enrollment_key cfg draw hello enrollment_id o n).world ≡ n.world
  enrollment_world hello enrollment_id none n =
      audit_world "enrollment_failed" (reason_field "enrollment_unavailable") (auth_failed n)
  enrollment_world hello enrollment_id (some key) n = ground (
    arith,
    audit_world "enrollment_failed" (reason_field "enrollment_unavailable") (auth_failed n),
    audit_world "enrollment_failed" (reason_field "unusable_device_pubkey") (auth_failed n),
  )

  -- A hello that carries a pairing code and a key, and asks for no enrollment, creates no state:
  -- either nothing that connections share changes, or only the guessing budget is charged, once.
  pub keyed_hello_creates_nothing :
      (payload : Fields) (hello : Hello) (credential key : String) (code : Text) (n : Node)
      → hello_from_wire payload ≡ ok hello
      → nonempty hello.enrollment_id ≡ none
      → nonempty hello.credential ≡ some credential
      → removed_prefix (codes "pair:") (codes credential) ≡ some code
      → nonempty hello.device_pubkey ≡ some key
      → IsUnproven (handle_hello cfg draw payload n) n.world
  unfolding handle_hello
  keyed_hello_creates_nothing payload hello credential key code n read enroll cred prefix keyed =
      rw (read, enroll, cred, prefix) (code-IsUnproven hello credential code key n keyed)

  -- A hello that asks for an enrollment changes nothing that connections share, whatever else it
  -- carries: the enrollment is consumed by a proof only.
  pub enrollment_hello_creates_nothing :
      (payload : Fields) (hello : Hello) (enrollment_id : String) (n : Node)
      → hello_from_wire payload ≡ ok hello
      → nonempty hello.enrollment_id ≡ some enrollment_id
      → (handle_hello cfg draw payload n).1.world ≡ n.world
  unfolding handle_hello
  enrollment_hello_creates_nothing payload hello enrollment_id n read enroll =
      rw (read, enroll) (enrollment_world hello enrollment_id (nonempty hello.device_pubkey) n)
