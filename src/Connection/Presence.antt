-- ===== src/Connection/Presence.antt =====
-- Presence: which connection a device is reached by, when connections end in any order.
use hermes_device_protocol.Connection.Run.{disconnect, leave, on_disconnect}
use hermes_device_protocol.Connection.Session.{owns}
use hermes_device_protocol.Connection.{Draw, Node}
use hermes_device_protocol.Invocations.{fail_all_for_connection}
use hermes_device_protocol.Prelude.Dict.{get_item, get_item-pop_item}
use hermes_device_protocol.Prelude.{Bool, String, ap, false, none, some, true, ◌∙◌, ◌≡◌}

disconnects :
    (draw : Draw) (n : Node) (d : String) (owned : Bool)
    → n.conn.device_id ≡ some d
    → owns d n ≡ owned
    → on_disconnect draw n ≡ disconnect owned d draw.now_ms n
unfolding on_disconnect
disconnects draw n d owned known h =
    ap (λ o. leave draw o n) known ∙ ap (λ b. disconnect b d draw.now_ms n) h

-- A connection whose device has been taken over by a newer one, or is not connected any more, ends
-- without a trace in the presence and the registry: the replacement stays, and so does every row.
pub stale_disconnect :
    (draw : Draw) (n : Node) (d : String)
    → n.conn.device_id ≡ some d
    → owns d n ≡ false
    → ((on_disconnect draw n).world.connections ≡ n.world.connections)
      × ((on_disconnect draw n).world.registry ≡ n.world.registry)
unfolding on_disconnect
stale_disconnect draw n d known stale =
    let same = disconnects draw n d false known stale in
    (ap (λ (m : Node). m.world.connections) same, ap (λ (m : Node). m.world.registry) same)

-- The end of the connection that a device is reached by takes the device off, and fails what is in
-- flight on it with the reason that the connection has, before the row's time is written.
pub owner_disconnect :
    (draw : Draw) (n : Node) (d : String)
    → n.conn.device_id ≡ some d
    → owns d n ≡ true
    → (get_item d (on_disconnect draw n).world.connections ≡ none)
      × ((on_disconnect draw n).world.invocations
          ≡ (fail_all_for_connection n.conn.self n.conn.disconnect_reason n.world.invocations).1)
unfolding on_disconnect
owner_disconnect draw n d known owned =
    let same = disconnects draw n d true known owned in
    (
      ap (λ (m : Node). get_item d m.world.connections) same
          ∙ get_item-pop_item d n.world.connections,
      ap (λ (m : Node). m.world.invocations) same,
    )
