-- ===== src/DeviceKeys/Contexts.antt =====
-- The domain separation of device keys: what a signature for one kind of challenge covers.
use hermes_device_protocol.Prelude.{arith, ◌++◌, ◌≢◌}
use hermes_device_protocol.Store.{Text}
use hermes_device_protocol.DeviceKeys.{auth_context, pair_context}

-- The bytes that a device signs when it pairs are never those that it signs when it reconnects,
-- whatever the two nonces are: a signature taken from an enrollment proves nothing later.
pub contexts_differ : (m n : Text) → pair_context ++ m ≢ auth_context ++ n
contexts_differ m n h = ground arith
