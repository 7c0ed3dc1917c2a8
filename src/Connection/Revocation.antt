-- ===== src/Connection/Revocation.antt =====
-- hdp-bridge/hdp_bridge/revocation.py: the revocation of a device, seen from one connection. The
-- frame and the close that another connection gets are not among the effects of this one.
use hermes_device_protocol.Connection.Admission.{put_registry}
use hermes_device_protocol.Connection.Session.{put_invocations}
use hermes_device_protocol.Connection.{
  Config, Draw, Node, audit, close, put_conn, reason_field, revoked_4001, send,
}
use hermes_device_protocol.Wire.{empty, field, string}
use hermes_device_protocol.Invocations.{fail_all_for_device}
use hermes_device_protocol.Registry.{revoke_credential}
use hermes_device_protocol.Prelude.Dict.{get_item}
use hermes_device_protocol.Prelude.{
  Bool, Option, String, false, none, some, suc, true, zero, ℕ, ◌==◌,
}

-- Steps 2 and 3 and the reason that comes before them, on the connection that the device has.
abbrev pub cut_off : Node → Node
cut_off n = close revoked_4001 "revoked" (
    send "revoke" (reason_field "revoked by operator")
      (put_conn (record n.conn { disconnect_reason = "revoked" }) n))

abbrev pub cut_off_if : Bool → Node → Node
cut_off_if true n = cut_off n
cut_off_if false n = n

-- Step 4
abbrev pub fail_revoked : String → Node → Node
fail_revoked d n = put_invocations (fail_all_for_device d "revoked" true n.world.invocations).1 n

abbrev pub on_connection : String → Option ℕ → Node → Node
on_connection d none n = n
on_connection d (some c) n = fail_revoked d (cut_off_if (c == n.conn.self) n)

abbrev pub after_revocation : Config → String → ℕ → Node → ℕ × Node
after_revocation cfg d zero n = (zero, n)
after_revocation cfg d (suc k) n =
    let recorded = audit cfg "revoked" (field "device_id" (string d) empty) n in
    (suc k, on_connection d (get_item d recorded.world.connections) recorded)

-- `revoke_device`: the number of credentials that it invalidated
unfoldable pub revoke_device : Config → Draw → String → Node → ℕ × Node
unfolding revoke_credential get_item fail_all_for_device
revoke_device cfg draw d n =
    let revoked_db = revoke_credential d draw.now_ms n.world.registry in
    after_revocation cfg d revoked_db.0 (put_registry revoked_db.1 n)
