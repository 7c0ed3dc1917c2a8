-- ===== src/Connection/Tests.antt =====
-- The theorems on connections at concrete values: one peer, whose key and signatures are good or
-- not by a switch.
use hermes_device_protocol.Connection.Admission.{advertised, put_codes, removed_prefix}
use hermes_device_protocol.Connection.Race.{is_active_row, revoked_device_reconnects}
use hermes_device_protocol.Connection.Presence.{stale_disconnect}
use hermes_device_protocol.Connection.Escapes.{failed_registration_spends_code}
use hermes_device_protocol.Connection.Unproven.{
  IsUnproven, after_refusal, keyed_hello_creates_nothing, refused_proof_charges,
}
use hermes_device_protocol.Connection.Bounds.{IsBounded, run-IsBounded}
use hermes_device_protocol.Connection.Phases.{Next, handle_frame_refines, phase}
use hermes_device_protocol.Connection.Revocation.{revoke_device}
use hermes_device_protocol.Connection.Run.{handle_frame, on_disconnect, run}
use hermes_device_protocol.Connection.Session.{owns}
use hermes_device_protocol.Connection.Challenge.{handle_proof, on_proof}
use hermes_device_protocol.Connection.Handshake.{handle_hello, pair_with_code}
use hermes_device_protocol.Connection.{
  Config, Draw, Node, NodeConnection, PendingHandshake, World, of_registry,
}
use hermes_device_protocol.Wire.Messages.Plain.{Proof, proof_from_wire, proof_to_wire}
use hermes_device_protocol.Wire.Messages.{Hello, hello_from_wire, hello_to_wire}
use hermes_device_protocol.Wire.Capability.{CapabilityDescriptor}
use hermes_device_protocol.Wire.{empty, end, object}
use hermes_device_protocol.DeviceKeys.{Cryptography, p256, pair_context, verify_proof}
use hermes_device_protocol.Enrollment.{integrity_error, unicode_encode_error}
use hermes_device_protocol.Pairing.{consume_pairing_code, hash_code, unicode_encode_error}
use hermes_device_protocol.Registry.Register.{register}
use hermes_device_protocol.Registry.{integrity_error, unicode_encode_error}
use hermes_device_protocol.Store.{
  Credential, Device, PairingCode, Python, RegistryDb, Text, active, secondary,
}
use hermes_device_protocol.Prelude.Int.{pos}
use hermes_device_protocol.Prelude.Dict.{Dict, get_item}
use hermes_device_protocol.Prelude.Strings.{codes}
use hermes_device_protocol.Prelude.Result.{err, ok}
use hermes_device_protocol.Prelude.{
  Bool, List, Option, String, [], arith, false, if◌then◌else◌, none, refl, some, str_eq, true, ℕ,
  ◌∷◌, ◌≡◌,
}

abbrev py : Python
py = record { sha256 = λ bytes. "sha"; upper_other = λ c. c ∷ [] }

abbrev library : Bool → Cryptography
library signed = record {
  b64decode = λ text. some [];
  b64encode = λ bytes. "bm9uY2U=";
  load_der_public_key = λ der. some (p256 "key");
  public_bytes = λ handle. [];
  verify = λ handle signature payload. signed;
  utf8 = codes;
}

abbrev config : Bool → Config
config signed = record {
  py = py;
  lib = library signed;
  dumps = λ d. some "{}";
  json_text = λ d. "{}";
  str_int = λ n. [];
  loads = λ raw. if str_eq raw "" then none else some (object empty);
  has_audit = true;
  has_coordinator = false;
  host_key_fingerprint = none;
  host_signer = none;
  dead_peer_timeout = 45_000;
}

abbrev draw : Draw
draw = record {
  monotonic = 100_000;
  now_ms = 5_000;
  new_id = "device";
  nonce_bytes = [];
  new_credential = "ab";
}

abbrev phone : CapabilityDescriptor
phone = record { name = "call"; version = pos 1; input_schema = empty; output_schema = empty }

-- A hello that lists its capability so many times.
abbrev hello_with : List CapabilityDescriptor → Option String → Option String → Hello
hello_with listed credential key = record {
  hdp_versions = end;
  device_name = "Phone";
  capabilities = listed;
  credential = credential;
  platform = none;
  device_pubkey = key;
  enrollment_id = none;
}

abbrev device_row : Device
device_row = record {
  device_id = "device";
  friendly_name = "Phone";
  platform = "android";
  client_version = "";
  first_paired_at = 10;
  last_seen_at = 20;
  state = active;
  device_pubkey = "key";
  role = secondary;
}

abbrev credential_row : Credential
credential_row = record {
  device_id = "device";
  credential_hash = "sha";
  issued_at = 10;
  revoked_at = none;
}

abbrev code_row : PairingCode
code_row = record {
  code_hash = "sha";
  created_at = 0;
  expires_at = 9_000;
  consumed_at = none;
  issued_device_id = none;
  attempts_remaining = 5;
  invalidated_at = none;
}

abbrev db_of : List Device → List Credential → RegistryDb
db_of devices credentials = record {
  devices = devices;
  credentials = credentials;
  capabilities = [];
  pending_enrollments = [];
  pairing_lock = none;
}

abbrev world_of : RegistryDb → Dict ℕ → World
world_of db connections = record {
  registry = db;
  pairing_codes = code_row ∷ [];
  invocations = record { pending = []; gone = [] };
  connections = connections;
  descriptors = [];
}

abbrev conn_of : Option String → Option PendingHandshake → NodeConnection
conn_of d asked = record {
  self = 1;
  device_id = d;
  pending = asked;
  seen_ids = [];
  malformed_times = [];
  last_heartbeat = 0;
  disconnect_reason = "device_offline";
  closed = false;
}

abbrev node_of : World → NodeConnection → Node
node_of w c = record { world = w; conn = c; effects = [] }

abbrev fresh_node : Node
fresh_node = node_of (world_of (db_of [] []) []) (conn_of none none)

run-IsBounded_example :
    IsBounded (run (config true) draw ((draw, "") ∷ ((draw, "") ∷ [])) fresh_node).conn
run-IsBounded_example =
    run-IsBounded (config true) draw ((draw, "") ∷ ((draw, "") ∷ [])) fresh_node (omega arith, refl)

handle_frame_refines_example :
    Next (phase (ok tt, fresh_node)) (phase (handle_frame (config true) draw "" fresh_node))
handle_frame_refines_example = handle_frame_refines (config true) draw "" fresh_node refl

-- A challenge for a pairing code, and one for a reconnect.
abbrev asked_for : Option Text → Option String → PendingHandshake
asked_for code d = record {
  hello = hello_with (phone ∷ []) none (some "key");
  nonce = "bm9uY2U=";
  public_key = "key";
  context = pair_context;
  pair_code = code;
  enrollment_id = none;
  device_id = d;
}

abbrev signature : Proof
signature = record { signature = "c2ln" }

wrong_signature :
    (proof : Proof)
    → verify_proof (library false) "key" pair_context "bm9uY2U=" proof.signature ≡ false
unfolding verify_proof
wrong_signature proof = refl

refused_proof_charges_example :
    (on_proof (config false) draw (asked_for (some []) none) (ok signature) fresh_node).1.world
    ≡ after_refusal (config false) draw (asked_for (some []) none) fresh_node.world
refused_proof_charges_example =
    refused_proof_charges (config false) draw (asked_for (some []) none) (ok signature) fresh_node
      λ proof same. wrong_signature proof

abbrev keyed_hello : Hello
keyed_hello = hello_with (phone ∷ []) (some "pair:123456") (some "key")

keyed_hello_read : hello_from_wire (hello_to_wire keyed_hello) ≡ ok keyed_hello
unfolding hello_from_wire hello_to_wire
keyed_hello_read = refl

code_prefix : removed_prefix (codes "pair:") (codes "pair:123456") ≡ some (codes "123456")
unfolding removed_prefix
code_prefix = refl

keyed_hello_creates_nothing_example :
    IsUnproven
      (config true)
      draw
      (handle_hello (config true) draw (hello_to_wire keyed_hello) fresh_node)
      fresh_node.world
keyed_hello_creates_nothing_example =
    keyed_hello_creates_nothing (config true) draw (hello_to_wire keyed_hello) keyed_hello
      "pair:123456" "key" (codes "123456") fresh_node keyed_hello_read refl refl code_prefix refl

-- A code whose digits are not ASCII digits.
abbrev wide_digits : Text
wide_digits = 65_297 ∷ (65_298 ∷ [])

-- A hello without a key that lists one capability twice.
abbrev twice_hello : Hello
twice_hello = hello_with (phone ∷ (phone ∷ [])) (some "pair:123456") none

abbrev spent_rows : List PairingCode
spent_rows = record code_row { consumed_at = some 5_000; issued_device_id = some "device" } ∷ []

code_spent :
    consume_pairing_code py (codes "123456") "device" 5_000 (code_row ∷ []) ≡ ok (true, spent_rows)
unfolding consume_pairing_code hash_code
code_spent = refl

twice_fails :
    (register
      (λ d. some "{}")
      (advertised "device" "Phone" "unknown" (phone ∷ (phone ∷ [])))
      5_000
      (db_of [] [])).0
    ≡ err integrity_error
unfolding register
twice_fails = refl

failed_registration_spends_code_example :
    pair_with_code (config true) draw twice_hello (codes "123456") fresh_node
    ≡ (err (of_registry integrity_error), put_codes spent_rows fresh_node)
failed_registration_spends_code_example =
    failed_registration_spends_code (config true) draw twice_hello (codes "123456") fresh_node
      spent_rows integrity_error code_spent twice_fails

-- The device's older connection, 1, after a newer one, 2, has taken its place.
abbrev stale_node : Node
stale_node =
    node_of (world_of (db_of (device_row ∷ []) []) (("device", 2) ∷ []))
      (conn_of (some "device") none)

not_owner : owns "device" stale_node ≡ false
unfolding get_item
not_owner = refl

stale_disconnect_example :
    ((on_disconnect draw stale_node).world.connections ≡ (("device", 2) ∷ []))
    × ((on_disconnect draw stale_node).world.registry ≡ db_of (device_row ∷ []) [])
stale_disconnect_example = stale_disconnect draw stale_node "device" refl not_owner

-- A known device that has been asked for its proof.
abbrev asked_node : Node
asked_node =
    node_of (world_of (db_of (device_row ∷ []) (credential_row ∷ [])) [])
      (conn_of none (some (asked_for none (some "device"))))

signature_read : proof_from_wire (proof_to_wire signature) ≡ ok signature
unfolding proof_from_wire proof_to_wire
signature_read = refl

signature_verifies : verify_proof (library true) "key" pair_context "bm9uY2U=" "c2ln" ≡ true
unfolding verify_proof
signature_verifies = refl

away : get_item "device" asked_node.world.connections ≡ none
unfolding get_item
away = refl

registers_again :
    (register
      (λ d. some "{}")
      (advertised "device" "Phone" "unknown" (phone ∷ []))
      5_000
      (revoke_device (config true) draw "device" asked_node).1.world.registry).0
    ≡ ok tt
unfolding register revoke_device
registers_again = refl

revoked_device_reconnects_example :
    let after =
      handle_proof
        (config true)
        draw
        (proof_to_wire signature)
        (revoke_device (config true) draw "device" asked_node).1 in
    (after.0 ≡ ok tt)
    × (get_item "device" after.1.world.connections ≡ some 1)
    × (is_active_row "device" after.1.world.registry ≡ true)
revoked_device_reconnects_example =
    revoked_device_reconnects (config true) "device" draw draw (asked_for none (some "device"))
      signature (proof_to_wire signature) asked_node away refl refl refl refl signature_read
      signature_verifies registers_again
