-- ===== src/Registry/Removal.antt =====
-- Removing a device whose credentials are still on file.
use hermes_device_protocol.Registry.{
  deregister, has_device_id, integrity_error, of_device, remove_primary, remove_primary_body,
}
use hermes_device_protocol.Store.{RegistryDb}
use hermes_device_protocol.Prelude.Result.{err, is_ok}
use hermes_device_protocol.Prelude.Sql.{fetchone}
use hermes_device_protocol.Prelude.{String, arith, false, is_some, refl, true, ◌≡◌}

-- A device that has a row, and that some credential row, revoked or not, names, cannot be removed:
-- `deregister` raises IntegrityError, `remove_primary` raises, and both leave the database as it was.
pub removal_refused :
    (d : String) (db : RegistryDb)
    → is_some (fetchone (has_device_id d) db.devices) ≡ true
    → is_some (fetchone (of_device d) db.credentials) ≡ true
    → (deregister d db ≡ (err integrity_error, db))
      × ((remove_primary d db).1 ≡ db)
      × (is_ok (remove_primary d db).0 ≡ false)
unfolding deregister remove_primary remove_primary_body
removal_refused d db known named = (rw known (rw named refl), removal_kept, removal_raises)
  where
    removal_kept : (remove_primary d db).1 ≡ db
    removal_kept = ground (arith, known, named)

    removal_raises : is_ok (remove_primary d db).0 ≡ false
    removal_raises = ground (arith, known, named)
