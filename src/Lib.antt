-- ===== src/Lib.antt =====
-- The Hermes Device Protocol: a bridge daemon (hdp-bridge/hdp_bridge) that pairs devices with a
-- host, keeps them in a SQLite registry, and relays capability invocations to them under a policy.
-- This library models its Python code and proves what makes it correct.
--
-- Parts of the program and the files that model them:
-- Store: the rows of the registry database (hdp-bridge/hdp_bridge/store/migrations), shared by
--   the parts below. A table is the list of its rows; Prelude.Sql has the statements that the code
--   issues on one, and Prelude.Transaction the commit or rollback of `with conn`.
-- Pairing (hdp-bridge/hdp_bridge/pairing.py): six-digit pairing codes. `mint_pairing_code`,
--   `code_is_live`, `pairing_status`, `burn_attempt` and `consume_pairing_code` are functions of
--   the rows of `pairing_codes`.
-- Enrollment (hdp-bridge/hdp_bridge/enrollment.py): the methods of `EnrollmentCoordinator` as
--   transactions on `pending_enrollments`, `pairing_locks` and `devices`; Enrollment.Finish ends
--   with `perform_all`, which runs any sequence of calls.
-- Policy (hdp-bridge/hdp_bridge/policy.py): `PolicyTable.from_data` and `resolve` on a decoded
--   document, and in Policy.Engine the `reload` of `PolicyEngine`.
-- Invocations (hdp-bridge/hdp_bridge/invocations.py): the table of in-flight calls,
--   `InvocationsMem`, its methods and the futures that callers wait on; `steps` runs any calls.
--   Invocations.Callers has what control.py does to the futures of an entry that it holds, in the
--   table or not (`_cancel_and_drain`, `_ctl_cancel`, timeouts); `happens` runs any interleaving.
-- Registry (hdp-bridge/hdp_bridge/credentials.py, device_roles.py, and `register` and `deregister`
--   of registry.py): credentials and roles of devices, with the foreign keys that SQLite enforces.
-- Approvals (hdp-bridge/hdp_bridge/approvals.py): `ApprovalManager`, with its SQLite tables
--   `approvals` and `policy_grants`; a call of `wait` is only known by its entry in `waiters`.
-- Ids (hdp-spec/hdp_proto/ids.py): ULIDs; `next` is the state change of `new`, `ulid` its text.
-- Wire (hdp-spec/hdp_proto/envelope.py, messages.py, capabilities.py, errors.py, version.py): JSON
--   values, the envelope with the order of its checks, every payload's `from_wire` and `to_wire`,
--   the output validator, and the error envelopes.
-- DeviceKeys (hdp-bridge/hdp_bridge/device_keys.py): usable keys, fingerprints, `verify_proof`.
-- Connection (hdp-bridge/hdp_bridge/connection.py and revocation.py): one node's WebSocket. A
--   handler is a step on a `Node`: the state of the connection, the tables that connections share
--   (those of Registry, Pairing and Invocations, presence and descriptors) and what was sent.
--   Connection.Admission, Connection.Handshake and Connection.Challenge have the handshake frames,
--   `hello` and `proof`, Connection.Session the frames of a known device, Connection.Run
--   `_handle_frame`, `run` and `_on_disconnect`, and Connection.Revocation `revoke_device`. An
--   exception that no handler catches is the result of the step, and ends the run.
-- Control (hdp-bridge/hdp_bridge/control.py, with the reads of registry.py): the shape check of a
--   `ctl_invoke` payload, and `_resolve_target`, which chooses the device, connection and version
--   of an invocation from the registry's records and the presence that connections keep.
--
-- Parameters, for code outside the repository: the SHA-256 digest and the upper case of characters
-- beyond ASCII (record `Python` of Store), the YAML loader (`yaml_load` of Policy.Engine), the
-- JSON library (`dumps` and `loads` of Connection's `Config`), and base64, DER and ECDSA (record
-- `Cryptography` of DeviceKeys). What a connection draws at random is in its `Draw`. What
-- `secrets.randbelow` draws is an argument of minting. A time is an argument of each call, as the
-- code's own `now_ms` parameter is.
--
-- Bounds and fuel: the loop of `mint_pairing_code` runs its own bound of 20 rounds. The validator's
-- recursion follows the schema, which a device sends, so it takes fuel: as much as the schema is
-- deep. Every other loop is structural recursion on a list, a text or a document, so nothing can
-- run out.
--
-- Not modelled: the rest of the bridge's control socket, the reference node and the plugin;
-- sockets (a send to a peer does not fail), TLS, USB transport and the cryptography library, the
-- command line, the terminal interface, migrations, log lines, lone surrogates in texts, the lock
-- around the replacement of a policy table, errors of the YAML loader other than those that
-- `reload` catches and the TypeError of an unhashable key, and the interleaving of several connections within a
-- handler.
mod Prelude
pub mod Store
pub mod Pairing
pub mod Enrollment
pub mod Policy
pub mod Invocations
pub mod Registry
pub mod Approvals
pub mod Ids
pub mod DeviceKeys
pub mod Connection
pub mod Control
pub mod Wire
