-- ===== src/Connection/Escapes.antt =====
-- Exceptions that leave a handler, and what they leave behind.
use hermes_device_protocol.Connection.Admission.{
  advertised, as_node, bind_key, complete_pairing, enter, greet, issue, nonempty, platform_of,
  put_codes, register_device,
}
use hermes_device_protocol.Registry.Registered.{register_atomic}
use hermes_device_protocol.Prelude.Transaction.{on_return}
use hermes_device_protocol.Connection.Handshake.{pair_with_code}
use hermes_device_protocol.Connection.{Config, Draw, Node, does, of_registry}
use hermes_device_protocol.Wire.Messages.{Hello}
use hermes_device_protocol.Enrollment.{unicode_encode_error}
use hermes_device_protocol.Pairing.{consume_pairing_code, unicode_encode_error}
use hermes_device_protocol.Registry.Register.{register}
use hermes_device_protocol.Registry.{RegistryError, unicode_encode_error}
use hermes_device_protocol.Store.{PairingCode, RegistryDb, Role, Text, secondary}
use hermes_device_protocol.Prelude.Result.{Result, err, ok}
use hermes_device_protocol.Prelude.{List, String, ap, arith, true, ◌≡◌}

module _ (cfg : Config) (draw : Draw) where
  as_node_failed :
      (n : Node) (r : Result RegistryError (Unit {0}) × RegistryDb) (e : RegistryError)
      → r.0 ≡ err e
      → r.1 ≡ n.world.registry
      → as_node n r ≡ (err (of_registry e), n)
  as_node_failed n (ok _, db) e h same = absurd (ground arith)
  as_node_failed n (err why, db) e h same = ground arith

  failed_entry :
      (d : String) (hello : Hello) (role : Role) (n : Node) (e : RegistryError)
      → (register cfg.dumps
          (advertised d hello.device_name
            (platform_of (nonempty hello.platform))
            hello.capabilities)
          draw.now_ms
          n.world.registry).0
        ≡ err e
      → complete_pairing cfg draw d hello role n ≡ (err (of_registry e), n)
  unfolding complete_pairing register_device
  failed_entry d hello role n e h =
      let device =
        advertised d hello.device_name (platform_of (nonempty hello.platform)) hello.capabilities in
      ap
        (λ r.
          on_return
            (on_return
              (on_return (on_return r (does (enter cfg draw d hello role)))
                (does (bind_key cfg draw d (nonempty hello.device_pubkey))))
              (issue cfg draw d))
            (does (greet cfg draw d hello)))
        (as_node_failed n (register cfg.dumps device draw.now_ms n.world.registry) e h
          (register_atomic cfg.dumps device draw.now_ms n.world.registry e h))

  -- Where a pairing code is consumed and the registration of the new device then raises, the
  -- exception leaves the handler: the code has been spent, and nothing else has changed, so there
  -- is no device, no credential, no frame and no close.
  pub failed_registration_spends_code :
      (hello : Hello) (code : Text) (n : Node) (rows : List PairingCode) (e : RegistryError)
      → consume_pairing_code cfg.py code draw.new_id draw.now_ms n.world.pairing_codes
        ≡ ok (true, rows)
      → (register cfg.dumps
          (advertised draw.new_id hello.device_name
            (platform_of (nonempty hello.platform))
            hello.capabilities)
          draw.now_ms
          n.world.registry).0
        ≡ err e
      → pair_with_code cfg draw hello code n ≡ (err (of_registry e), put_codes rows n)
  unfolding pair_with_code
  failed_registration_spends_code hello code n rows e spent failed =
      rw spent (failed_entry draw.new_id hello secondary (put_codes rows n) e failed)
