-- ===== src/Connection/Race.antt =====
-- A revocation between a challenge and its proof.
use hermes_device_protocol.Connection.Admission.{
  advertised, as_node, enter, nonempty, platform_of, put_registry, register_device, welcome,
}
use hermes_device_protocol.Registry.Registered.{register_rows}
use hermes_device_protocol.Wire.Messages.{Hello}
use hermes_device_protocol.Registry.Register.{DeviceRecord, excluded, new_device, register}
use hermes_device_protocol.Prelude.Transaction.{on_return, ◌>>>◌}
use hermes_device_protocol.Connection.Revocation.{after_revocation, revoke_device}
use hermes_device_protocol.Connection.Challenge.{
  accepted, answer, clear_pending, handle_proof, on_proof, reconnect, reject_proof,
}
use hermes_device_protocol.Connection.{
  Config, Draw, Escape, Node, NodeConnection, PendingHandshake, Step, does,
}
use hermes_device_protocol.Wire.Messages.Plain.{Proof, proof_from_wire}
use hermes_device_protocol.Wire.{Fields}
use hermes_device_protocol.DeviceKeys.{verify_proof}
use hermes_device_protocol.Registry.{RegistryError, has_device_id, revoke_credential}
use hermes_device_protocol.Store.{Device, RegistryDb, is_active, secondary}
use hermes_device_protocol.Prelude.Dict.{get_item, get_item-set_item}
use hermes_device_protocol.Prelude.Sql.{fetchone, on_row}
use hermes_device_protocol.Prelude.Result.{Result, err, ok}
use hermes_device_protocol.Prelude.{
  Bool, Bool-cases, Option, String, ap, arith, false, if◌then◌else◌, inl, inr, none, refl, some,
  suc, true, zero, ℕ, ◌∙◌, ◌≡◌,
}

-- The row of a device, as far as the bridge asks whether it is active.
abbrev pub is_active_row : String → RegistryDb → Bool
is_active_row d db =
    on_row (fetchone (has_device_id d) db.devices) false λ (r : Device). is_active r.state

module _ (cfg : Config) (d : String) where
  as_node_ok :
      (n : Node) (r : Result RegistryError (Unit {0}) × RegistryDb)
      → r.0 ≡ ok tt
      → as_node n r ≡ (ok tt, put_registry r.1 n)
  as_node_ok n (ok _, db) h = refl
  as_node_ok n (err e, db) h = absurd (ground arith)

  unconnected :
      (k : ℕ) (n : Node)
      → get_item d n.world.connections ≡ none
      → ((after_revocation cfg d k n).1.conn ≡ n.conn)
        × ((after_revocation cfg d k n).1.world ≡ n.world)
  unconnected zero n h = (refl, refl)
  unconnected (suc k) n h = elim (Bool-cases cfg.has_audit) [
    | inl e ↦ rw (e, h) (refl, refl)
    | inr e ↦ rw (e, h) (refl, refl)
  ]

  abbrev device_of : Hello → DeviceRecord
  device_of hello =
      advertised d hello.device_name (platform_of (nonempty hello.platform)) hello.capabilities

  -- A step that registers the device again and welcomes it.
  abbrev readmit : Draw → Hello → Step
  readmit draw hello = register_device cfg draw d hello secondary >>> does (welcome d none)

  proof_readmits :
      (draw : Draw) (p : PendingHandshake) (proof : Proof) (payload : Fields) (n : Node)
      → n.conn.pending ≡ some p
      → p.pair_code ≡ none
      → p.enrollment_id ≡ none
      → p.device_id ≡ some d
      → proof_from_wire payload ≡ ok proof
      → verify_proof cfg.lib p.public_key p.context p.nonce proof.signature ≡ true
      → handle_proof cfg draw payload n ≡ readmit draw p.hello (clear_pending n)
  unfolding handle_proof on_proof
  proof_readmits draw p proof payload n asked no_code no_enrollment of_d read signed =
      let m = clear_pending n in
      ap (λ o. answer cfg draw o payload n) asked
      ∙ ap (λ r. on_proof cfg draw p r m) read
      ∙ ap
          (λ b.
            if b
            then accepted cfg draw p p.pair_code p.enrollment_id m
            else (ok tt, reject_proof cfg draw p "invalid_device_proof" m))
          signed
      ∙ ap (λ c. accepted cfg draw p c p.enrollment_id m) no_code
      ∙ ap (λ e. accepted cfg draw p none e m) no_enrollment
      ∙ ap (λ o. reconnect cfg draw p.hello o m) of_d

  row_active :
      (r : DeviceRecord) (now_ms : ℕ) (o : Option Device)
      → is_active r.state ≡ true
      → is_active (on_row o (new_device r now_ms) (excluded r now_ms)).state ≡ true
  row_active r now_ms none h = h
  row_active r now_ms (some row) h = h

  readmit_connects :
      (draw : Draw) (hello : Hello) (n : Node)
      → (register cfg.dumps (device_of hello) draw.now_ms n.world.registry).0 ≡ ok tt
      → ((readmit draw hello n).0 ≡ ok tt)
        × (get_item d (readmit draw hello n).1.world.connections ≡ some n.conn.self)
        × (is_active_row d (readmit draw hello n).1.world.registry ≡ true)
  unfolding register_device
  readmit_connects draw hello n h =
      let db = n.world.registry in
      let written = register cfg.dumps (device_of hello) draw.now_ms db in
      let same : readmit draw hello n
          ≡ (ok tt, welcome d none (enter cfg draw d hello secondary (put_registry written.1 n))) =
        ap
          (λ r.
            on_return (on_return r (does (enter cfg draw d hello secondary)))
              (does (welcome d none)))
          (as_node_ok n written h) in
      let (caps, read, replaced, row, _) =
        register_rows cfg.dumps (device_of hello) draw.now_ms db h in
      (
        ap (λ (r : Result Escape (Unit {0}) × Node). r.0) same,
        ap (λ (r : Result Escape (Unit {0}) × Node). get_item d r.1.world.connections) same
            ∙ get_item-set_item d n.conn.self n.world.connections,
        ap (λ (r : Result Escape (Unit {0}) × Node). is_active_row d r.1.world.registry) same
            ∙ ap (λ o. on_row o false λ (r : Device). is_active r.state) row
            ∙ row_active (device_of hello) draw.now_ms (fetchone (has_device_id d) db.devices) refl,
      )

  -- Take a device that has no connection and was sent a challenge for a reconnect. It is revoked
  -- before it answers. A proof whose signature verifies is accepted all the same, with no second
  -- look at the credential: where the registration returns, the device is connected and its row is
  -- active.
  pub revoked_device_reconnects :
      (revoking proving : Draw) (p : PendingHandshake) (proof : Proof) (payload : Fields) (n : Node)
      → get_item d n.world.connections ≡ none
      → n.conn.pending ≡ some p
      → p.pair_code ≡ none
      → p.enrollment_id ≡ none
      → p.device_id ≡ some d
      → proof_from_wire payload ≡ ok proof
      → verify_proof cfg.lib p.public_key p.context p.nonce proof.signature ≡ true
      → (register cfg.dumps
          (device_of p.hello)
          proving.now_ms
          (revoke_device cfg revoking d n).1.world.registry).0
        ≡ ok tt
      → ((handle_proof cfg proving payload (revoke_device cfg revoking d n).1).0 ≡ ok tt)
        × (get_item d
              (handle_proof cfg proving payload
                (revoke_device cfg revoking d n).1).1.world.connections
            ≡ some n.conn.self)
        × (is_active_row d
              (handle_proof cfg proving payload (revoke_device cfg revoking d n).1).1.world.registry
            ≡ true)
  unfolding revoke_device
  revoked_device_reconnects revoking proving p proof payload n away asked no_code no_enrollment of_d
        read signed registers =
      let revoked_db = revoke_credential d revoking.now_ms n.world.registry in
      let kept = unconnected revoked_db.0 (put_registry revoked_db.1 n) away in
      let m = (revoke_device cfg revoking d n).1 in
      let same =
        proof_readmits proving p proof payload m
          (ap (λ (c : NodeConnection). c.pending) kept.0 ∙ asked) no_code no_enrollment of_d read
          signed in
      let (returned, connected, active_again) =
        readmit_connects proving p.hello (clear_pending m) registers in
      (
        ap (λ (r : Result Escape (Unit {0}) × Node). r.0) same ∙ returned,
        ap (λ (r : Result Escape (Unit {0}) × Node). get_item d r.1.world.connections) same
            ∙ connected
            ∙ ap (λ (c : NodeConnection). some c.self) kept.0,
        ap (λ (r : Result Escape (Unit {0}) × Node). is_active_row d r.1.world.registry) same
            ∙ active_again,
      )
