-- ===== src/Registry.antt =====
-- hdp-bridge/hdp_bridge/credentials.py and device_roles.py: the credentials of devices, and the one
-- primary among them. Foreign keys are enforced (hdp-bridge/hdp_bridge/store/db.py).
pub mod Revoked
pub mod Issued
pub mod Roles
pub mod Removal
pub mod Register
pub mod Registered
pub mod Written
mod Tests
use hermes_device_protocol.Prelude.{
  Bool, List, Option, String, [], false, if◌then◌else◌, is_none, is_some, leb, none, not, some,
  str_eq, true, ℕ, ◌&&◌, ◌++◌, ◌==◌, ◌||◌, ◌∷◌,
}
use hermes_device_protocol.Prelude.Sql.{delete, fetchone, on_row, rowcount, update}
use hermes_device_protocol.Prelude.Result.{Result, err, ok, ◌>>=◌}
use hermes_device_protocol.Prelude.Transaction.{Tx, transaction, with_value}
use hermes_device_protocol.Store.{
  Capability, Credential, Device, PairingLock, PendingEnrollment, Python, RegistryDb, Role, Text,
  encode_ascii, is_active, is_primary, primary, revoked, secondary,
}

pub data RegistryError : Type 0 where
  unicode_encode_error integrity_error device_role_error : RegistryError
  value_error overflow_error : RegistryError

abbrev pub has_device_id : String → Device → Bool
has_device_id d r = str_eq r.device_id d

abbrev pub of_device : String → Credential → Bool
of_device d c = str_eq c.device_id d

-- device_id = ? AND revoked_at IS NULL
abbrev pub is_live_of : String → Credential → Bool
is_live_of d c = of_device d c && is_none c.revoked_at

module _ (py : Python) where
  abbrev pub digest : Option Text → Result RegistryError String
  digest none = err unicode_encode_error
  digest (some bytes) = ok (py.sha256 bytes)

  -- `_hash`
  unfoldable pub hash_credential : Text → Result RegistryError String
  unfolding encode_ascii
  hash_credential credential = digest (encode_ascii credential)

abbrev pub put_credentials : RegistryDb → List Credential → RegistryDb
put_credentials db rows = record db { credentials = rows }

abbrev pub put_devices : RegistryDb → List Device → RegistryDb
put_devices db rows = record db { devices = rows }

abbrev pub new_credential : String → String → ℕ → Credential
new_credential d h now_ms = record {
  device_id = d;
  credential_hash = h;
  issued_at = now_ms;
  revoked_at = none;
}

-- INSERT INTO credentials, whose device_id REFERENCES devices(device_id)
unfoldable pub insert_credential : Credential → Tx RegistryDb RegistryError (Unit {0})
insert_credential c db =
    if is_some (fetchone (has_device_id c.device_id) db.devices)
    then (ok tt, put_credentials db (db.credentials ++ (c ∷ [])))
    else (err integrity_error, db)

-- SELECT ... ORDER BY issued_at DESC LIMIT 1: of equal times, the first row
abbrev pub newer : Credential → Option Credential → Credential
newer c none = c
newer c (some later) = if leb later.issued_at c.issued_at then c else later

unfoldable pub newest : (Credential → Bool) → List Credential → Option Credential
newest p [] = none
newest p (c ∷ rows) = let rest = newest p rows in if p c then some (newer c rest) else rest

module _ (py : Python) where
  -- `credential` is what `os.urandom(32).hex()` draws; the function returns it.
  unfoldable pub issue_credential : Text → String → ℕ → Tx RegistryDb RegistryError (Unit {0})
  unfolding insert_credential hash_credential
  issue_credential credential d now_ms =
      with_value (hash_credential py credential)
        λ h. transaction (insert_credential (new_credential d h now_ms))

  unfoldable pub verify_credential : String → Text → List Credential → Result RegistryError Bool
  unfolding newest hash_credential
  verify_credential d presented rows =
      on_row (newest (is_live_of d) rows) (ok false)
        λ c. hash_credential py presented >>= λ h. ok (str_eq c.credential_hash h)

  -- `verify_credential_and_resolve_device`
  unfoldable pub resolve_device : Text → List Credential → Result RegistryError (Option String)
  unfolding hash_credential
  resolve_device presented [] = ok none
  resolve_device presented (c ∷ rows) =
      let rest = resolve_device presented rows in
      if is_none c.revoked_at
      then (hash_credential py presented >>= λ h.
          if str_eq c.credential_hash h then ok (some c.device_id) else rest)
      else rest

-- The number of credentials that were live, and the database.
unfoldable pub revoke_credential : String → ℕ → RegistryDb → ℕ × RegistryDb
revoke_credential d now_ms db = (
  rowcount (is_live_of d) db.credentials,
  record db {
    credentials = update (is_live_of d) (λ c. record c { revoked_at = some now_ms }) db.credentials;
    devices = update (has_device_id d) (λ r. record r { state = revoked }) db.devices;
  },
)

-- device_id = ? AND state = 'active'
abbrev pub is_active_device : String → Device → Bool
is_active_device d r = has_device_id d r && is_active r.state

abbrev pub is_primary_device : Device → Bool
is_primary_device r = is_primary r.role

abbrev pub set_role : Role → Device → Device
set_role role r = record r { role = role }

-- device_id = ? AND role = 'secondary'
abbrev pub is_secondary_device : String → Device → Bool
is_secondary_device d r = has_device_id d r && not (is_primary r.role)

unfoldable pub promote_body : String → Tx RegistryDb RegistryError (Unit {0})
promote_body d db =
    on_row (fetchone (is_active_device d) db.devices) (err device_role_error, db)
      λ r.
        if is_primary r.role
        then (ok tt, db)
        else let demoted = update is_primary_device (set_role secondary) db.devices in
          let after = put_devices db (update (is_secondary_device d) (set_role primary) demoted) in
          if rowcount (is_secondary_device d) demoted == 1
          then (ok tt, after)
          else (err device_role_error, after)

unfoldable pub promote : String → Tx RegistryDb RegistryError (Unit {0})
unfolding promote_body
promote d = transaction (promote_body d)

abbrev pub is_active_secondary : Device → Bool
is_active_secondary r = not (is_primary r.role) && is_active r.state

unfoldable pub may_remove_primary : String → RegistryDb → Bool
may_remove_primary d db =
    on_row (fetchone (has_device_id d) db.devices) true λ r.
      if not (is_primary r.role) then true else is_none (fetchone is_active_secondary db.devices)

abbrev pub names : String → Option String → Bool
names d none = false
names d (some e) = str_eq e d

abbrev pub lock_names : String → Option PairingLock → Bool
lock_names d none = false
lock_names d (some l) = str_eq l.blocked_by_device_id d

-- Some row of another table REFERENCES the device.
abbrev pub is_referenced : String → RegistryDb → Bool
is_referenced d db =
    is_some (fetchone (of_device d) db.credentials)
    || (is_some (fetchone (λ (c : Capability). str_eq c.device_id d) db.capabilities)
        || (is_some (
              fetchone (λ (e : PendingEnrollment). names d e.primary_device_id)
                db.pending_enrollments)
            || lock_names d db.pairing_lock))

-- DELETE FROM devices WHERE device_id = ?, with the foreign keys
abbrev pub delete_device : String → Tx RegistryDb RegistryError (Unit {0})
delete_device d db =
    if is_some (fetchone (has_device_id d) db.devices) && is_referenced d db
    then (err integrity_error, db)
    else (ok tt, put_devices db (delete (has_device_id d) db.devices))

abbrev pub delete_capabilities : String → RegistryDb → RegistryDb
delete_capabilities d db = record db {
  capabilities = delete (λ (c : Capability). str_eq c.device_id d) db.capabilities;
}

-- `Registry.deregister`
unfoldable pub deregister : String → Tx RegistryDb RegistryError (Unit {0})
deregister d = transaction (λ db. delete_device d (delete_capabilities d db))

unfoldable pub remove_primary_body : String → Tx RegistryDb RegistryError (Unit {0})
unfolding may_remove_primary
remove_primary_body d db =
    on_row (fetchone (is_active_device d) db.devices) (err device_role_error, db)
      λ r.
        if not (is_primary r.role)
        then (err device_role_error, db)
        else if not (may_remove_primary d db)
        then (err device_role_error, db)
        else delete_device d (delete_capabilities d db)

unfoldable pub remove_primary : String → Tx RegistryDb RegistryError (Unit {0})
unfolding remove_primary_body
remove_primary d = transaction (remove_primary_body d)
