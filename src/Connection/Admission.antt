-- ===== src/Connection/Admission.antt =====
-- hdp-bridge/hdp_bridge/connection.py: what the handshakes are made of. A device enters the registry
-- and the presence, a new one gets its credential, a challenge is sent, an attempt is refused.
use hermes_device_protocol.Connection.{
  Config, Draw, Escape, Node, Step, audit, auth_failed, does, of_registry, put_conn, put_world,
  reason_field, send,
}
use hermes_device_protocol.Wire.Messages.Plain.{challenge_to_wire, welcome_to_wire}
use hermes_device_protocol.Wire.Messages.{Hello}
use hermes_device_protocol.Wire.Capability.{CapabilityDescriptor}
use hermes_device_protocol.Wire.{Fields, boolean, empty, field, integer, string}
use hermes_device_protocol.DeviceKeys.{new_nonce}
use hermes_device_protocol.Pairing.{burn_attempt}
use hermes_device_protocol.Registry.Register.{CapabilityRecord, DeviceRecord, register}
use hermes_device_protocol.Registry.{
  RegistryError, has_device_id, issue_credential, put_devices, set_role,
}
use hermes_device_protocol.Store.{
  Device, EnrollmentDb, PairingCode, RegistryDb, Role, Text, active, primary, secondary,
}
use hermes_device_protocol.Prelude.Int.{pos}
use hermes_device_protocol.Prelude.Dict.{set_item}
use hermes_device_protocol.Prelude.Sql.{fetchone, on_row, update}
use hermes_device_protocol.Prelude.Strings.{codes}
use hermes_device_protocol.Prelude.Transaction.{◌>>>◌}
use hermes_device_protocol.Prelude.Result.{Result, err, ok}
use hermes_device_protocol.Prelude.{
  Bool, List, Option, String, [], if◌then◌else◌, is_some, none, some, str_eq, true, ◌==◌, ◌∷◌,
}

-- A text that Python takes as true.
abbrev pub nonempty : Option String → Option String
nonempty none = none
nonempty (some s) = if str_eq s "" then none else some s

-- What follows the prefix, where the text starts with it.
unfoldable pub removed_prefix : Text → Text → Option Text
removed_prefix [] cs = some cs
removed_prefix (p ∷ ps) [] = none
removed_prefix (p ∷ ps) (c ∷ cs) = let rest = removed_prefix ps cs in if p == c then rest else none

abbrev pub put_registry : RegistryDb → Node → Node
put_registry db n = put_world (record n.world { registry = db }) n

abbrev pub put_codes : List PairingCode → Node → Node
put_codes rows n = put_world (record n.world { pairing_codes = rows }) n

abbrev pub enrollment_db : RegistryDb → EnrollmentDb
enrollment_db db = record {
  devices = db.devices;
  pending_enrollments = db.pending_enrollments;
  pairing_lock = db.pairing_lock;
}

abbrev pub put_enrollment : EnrollmentDb → Node → Node
put_enrollment e n =
    put_registry
      (record n.world.registry {
        devices = e.devices;
        pending_enrollments = e.pending_enrollments;
        pairing_lock = e.pairing_lock;
      })
      n

-- UPDATE devices SET ... WHERE device_id = ?
abbrev pub update_device : String → (Device → Device) → Node → Node
update_device d f n =
    put_registry
      (put_devices n.world.registry (update (has_device_id d) f n.world.registry.devices)) n

abbrev pub set_pubkey : String → Device → Device
set_pubkey key r = record r { device_pubkey = key }

-- `_enrolled_public_key`
abbrev pub enrolled_public_key : String → RegistryDb → String
enrolled_public_key d db =
    on_row (fetchone (has_device_id d) db.devices) "" λ (r : Device). r.device_pubkey

abbrev pub capability_infos : List CapabilityDescriptor → List CapabilityRecord
capability_infos [] = []
capability_infos (c ∷ cs) =
    record {
      name = c.name;
      version = c.version;
      input_schema = c.input_schema;
      output_schema = c.output_schema;
    }
    ∷ capability_infos cs

-- `hello.platform or "unknown"`
abbrev pub platform_of : Option String → String
platform_of none = "unknown"
platform_of (some p) = p

-- The DeviceRecord that the connection registers.
abbrev pub advertised : String → String → String → List CapabilityDescriptor → DeviceRecord
advertised d friendly_name platform cs = record {
  device_id = d;
  friendly_name = friendly_name;
  platform = platform;
  online = true;
  client_version = "";
  state = active;
  first_paired_at = 0;
  last_seen_at = 0;
  capabilities = capability_infos cs;
}

abbrev pub promoted : Role → String → Node → Node
promoted secondary d n = n
promoted primary d n = update_device d (set_role primary) n

abbrev pub put_descriptors : String → List CapabilityDescriptor → Node → Node
put_descriptors d cs n =
    put_world (record n.world { descriptors = set_item d cs n.world.descriptors }) n

-- self._connections[device_id] = self; self.device_id = device_id
abbrev pub attach : String → Node → Node
attach d n =
    put_conn (record n.conn { device_id = some d })
      (put_world (record n.world { connections = set_item d n.conn.self n.world.connections }) n)

abbrev pub as_node :
    Node → Result RegistryError (Unit {0}) × RegistryDb → Result Escape (Unit {0}) × Node
as_node n (ok _, db) = (ok tt, put_registry db n)
as_node n (err e, db) = (err (of_registry e), put_registry db n)

abbrev pub welcome : String → Option String → Node → Node
welcome d credential =
    send "welcome"
      (welcome_to_wire (record { hdp_version = pos 0; device_id = d; credential = credential }))

abbrev pub some_field : String → Option String → Fields → Fields
some_field key none d = d
some_field key (some v) d = field key (string v) d

module _ (cfg : Config) (draw : Draw) where
  abbrev pub register_hello : String → Hello → Step
  register_hello d hello n = as_node n (
      register cfg.dumps
        (advertised d hello.device_name (platform_of (nonempty hello.platform)) hello.capabilities)
        draw.now_ms n.world.registry)

  abbrev pub enter : String → Hello → Role → Node → Node
  enter d hello role n = attach d (put_descriptors d hello.capabilities (promoted role d n))

  -- `_register_device`
  unfoldable pub register_device : String → Hello → Role → Step
  unfolding register set_item
  register_device d hello role = register_hello d hello >>> does (enter d hello role)

  -- `_fail_pairing`
  unfoldable pub fail_pairing : String → Node → Node
  unfolding burn_attempt
  fail_pairing reason n =
      let burnt = burn_attempt draw.now_ms n.world.pairing_codes in
      audit cfg "auth_failed"
        (field "reason" (string reason)
          (field "pairing_codes_invalidated" (integer (pos burnt.0)) empty))
        (auth_failed (put_codes burnt.1 n))

  -- `_fail_enrollment`
  abbrev pub fail_enrollment : String → Node → Node
  fail_enrollment reason n = audit cfg "enrollment_failed" (reason_field reason) (auth_failed n)

  -- A hello without a credential that is known.
  abbrev pub refuse : String → Node → Node
  refuse reason n = audit cfg "auth_failed" (reason_field reason) (auth_failed n)

  abbrev pub begin_challenge :
      Hello → String → Text → Option Text → Option String → Option String → Node → Node
  begin_challenge hello public_key context pair_code enrollment_id device_id n =
      let nonce = new_nonce cfg.lib draw.nonce_bytes in
      send "challenge" (challenge_to_wire (record { nonce = nonce })) (
        put_conn
          (record n.conn {
            pending = some (record {
              hello = hello;
              nonce = nonce;
              public_key = public_key;
              context = context;
              pair_code = pair_code;
              enrollment_id = enrollment_id;
              device_id = device_id;
            });
          })
          n)

  abbrev pub bind_key : String → Option String → Node → Node
  bind_key d none n = n
  bind_key d (some key) n = update_device d (set_pubkey key) n

  abbrev pub is_bound : Option String → Bool
  is_bound o = is_some (nonempty o)

  abbrev pub issue : String → Step
  issue d n =
      as_node n (issue_credential cfg.py (codes draw.new_credential) d draw.now_ms n.world.registry)

  -- The welcome with the new credential, and its record
  abbrev pub greet : String → Hello → Node → Node
  greet d hello n =
      audit cfg "paired"
        (field "device_id" (string d)
          (field "device_bound" (boolean (is_bound hello.device_pubkey)) empty))
        (welcome d (some draw.new_credential) n)

  -- `_complete_pairing`
  unfoldable pub complete_pairing : String → Hello → Role → Step
  unfolding register_device issue_credential
  complete_pairing d hello role =
      register_device d hello role
      >>> does (bind_key d (nonempty hello.device_pubkey))
      >>> issue d
      >>> does (greet d hello)
