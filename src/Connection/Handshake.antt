-- ===== src/Connection/Handshake.antt =====
-- hdp-bridge/hdp_bridge/connection.py, `_handle_hello`: a hello with a credential, a pairing code or
-- an enrollment.
use hermes_device_protocol.Connection.{
  Config, Draw, Node, Step, does, of_pairing, of_registry, reject_malformed,
}
use hermes_device_protocol.Wire.Messages.{Hello, hello_from_wire}
use hermes_device_protocol.Wire.{Fields, WireError}
use hermes_device_protocol.DeviceKeys.{auth_context, key_is_usable, pair_context}
use hermes_device_protocol.Pairing.{PairingError, code_is_live, consume_pairing_code}
use hermes_device_protocol.Registry.{RegistryError, resolve_device}
use hermes_device_protocol.Store.{PairingCode, Text, secondary}
use hermes_device_protocol.Prelude.Strings.{codes}
use hermes_device_protocol.Prelude.Transaction.{◌>>>◌}
use hermes_device_protocol.Prelude.Result.{Result, err, ok}
use hermes_device_protocol.Prelude.{
  Bool, List, Option, String, false, if◌then◌else◌, is_some, none, not, some, true, ◌&&◌,
}
use hermes_device_protocol.Connection.Admission.{
  begin_challenge, complete_pairing, enrolled_public_key, fail_enrollment, fail_pairing, nonempty,
  put_codes, refuse, register_device, removed_prefix, welcome,
}

module _ (cfg : Config) (draw : Draw) where
  -- What `consume_pairing_code` returned; the device is paired where the code was good.
  abbrev pub on_consumed : Hello → Result PairingError (Bool × List PairingCode) → Step
  on_consumed hello (err e) n = (err (of_pairing e), n)
  on_consumed hello (ok (true, rows)) n =
      complete_pairing cfg draw draw.new_id hello secondary (put_codes rows n)
  on_consumed hello (ok (false, rows)) n =
      (ok tt, fail_pairing cfg draw "invalid_or_expired_pairing_code" (put_codes rows n))

  unfoldable pub pair_with_code : Hello → Text → Step
  unfolding complete_pairing fail_pairing consume_pairing_code
  pair_with_code hello code n =
      on_consumed hello
        (consume_pairing_code cfg.py code draw.new_id draw.now_ms n.world.pairing_codes) n

  -- `code_is_live` is asked without consuming the code.
  abbrev pub challenge_pairing : Hello → Text → String → Result PairingError Bool → Step
  challenge_pairing hello code key (err e) n = (err (of_pairing e), n)
  challenge_pairing hello code key (ok false) n =
      (ok tt, fail_pairing cfg draw "invalid_or_expired_pairing_code" n)
  challenge_pairing hello code key (ok true) n =
      if key_is_usable cfg.lib key
      then (ok tt, begin_challenge cfg draw hello key pair_context (some code) none none n)
      else (ok tt, fail_pairing cfg draw "unusable_device_pubkey" n)

  abbrev pub on_pairing_key : Hello → Text → Option String → Step
  on_pairing_key hello code none n = pair_with_code hello code n
  on_pairing_key hello code (some key) n =
      challenge_pairing hello code key (code_is_live cfg.py code draw.now_ms n.world.pairing_codes)
        n

  -- `_handle_pairing_hello`
  unfoldable pub handle_pairing_hello : Hello → Text → Step
  unfolding pair_with_code fail_pairing code_is_live
  handle_pairing_hello hello code = on_pairing_key hello code (nonempty hello.device_pubkey)

  abbrev pub on_enrollment_key : Hello → String → Option String → Node → Node
  on_enrollment_key hello enrollment_id none n = fail_enrollment cfg draw "enrollment_unavailable" n
  on_enrollment_key hello enrollment_id (some key) n =
      if not (cfg.has_coordinator && is_some cfg.host_key_fingerprint)
      then fail_enrollment cfg draw "enrollment_unavailable" n
      else if key_is_usable cfg.lib key
      then begin_challenge cfg draw hello key pair_context none (some enrollment_id) none n
      else fail_enrollment cfg draw "unusable_device_pubkey" n

  -- `_handle_enrollment_hello`
  abbrev pub handle_enrollment_hello : Hello → String → Node → Node
  handle_enrollment_hello hello enrollment_id =
      on_enrollment_key hello enrollment_id (nonempty hello.device_pubkey)

  -- A known device: the welcome, or a challenge where it has enrolled a key.
  abbrev pub on_known : Hello → String → Option String → Step
  on_known hello d none n = (register_device cfg draw d hello secondary >>> does (welcome d none)) n
  on_known hello d (some key) n =
      (ok tt, begin_challenge cfg draw hello key auth_context none none (some d) n)

  abbrev pub on_resolved : Hello → Result RegistryError (Option String) → Step
  on_resolved hello (err e) n = (err (of_registry e), n)
  on_resolved hello (ok none) n = (ok tt, refuse cfg draw "unknown_credential" n)
  on_resolved hello (ok (some d)) n =
      on_known hello d (nonempty (some (enrolled_public_key d n.world.registry))) n

  abbrev pub on_prefix : Hello → String → Option Text → Step
  on_prefix hello credential (some code) n =
      if cfg.has_coordinator
      then (ok tt, fail_pairing cfg draw "legacy_pairing_code_rejected" n)
      else handle_pairing_hello hello code n
  on_prefix hello credential none n =
      on_resolved hello (resolve_device cfg.py (codes credential) n.world.registry.credentials) n

  abbrev pub on_credential : Hello → Option String → Step
  on_credential hello none n = (ok tt, refuse cfg draw "no_credential" n)
  on_credential hello (some credential) n =
      on_prefix hello credential (removed_prefix (codes "pair:") (codes credential)) n

  abbrev pub on_enrollment : Hello → Option String → Step
  on_enrollment hello (some enrollment_id) n =
      (ok tt, handle_enrollment_hello hello enrollment_id n)
  on_enrollment hello none n = on_credential hello (nonempty hello.credential) n

  abbrev pub on_hello : Result WireError Hello → Step
  on_hello (err e) n = (ok tt, reject_malformed draw "malformed hello" n)
  on_hello (ok hello) n = on_enrollment hello (nonempty hello.enrollment_id) n

  -- `_handle_hello`
  unfoldable pub handle_hello : Fields → Step
  unfolding hello_from_wire removed_prefix handle_pairing_hello fail_pairing register_device
      resolve_device reject_malformed key_is_usable
  handle_hello payload n = on_hello (hello_from_wire payload) n
