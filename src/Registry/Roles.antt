-- ===== src/Registry/Roles.antt =====
-- One primary at most, whatever is promoted.
use hermes_device_protocol.Registry.{
  device_role_error, has_device_id, is_active_device, is_primary_device, is_secondary_device,
  promote, promote_body, set_role,
}
use hermes_device_protocol.Store.{Device, RegistryDb, is_active, is_primary, primary, secondary}
use hermes_device_protocol.Prelude.Result.{err, ok}
use hermes_device_protocol.Prelude.Sql.{
  fetchone, fetchone_unique, rowcount, rowcount-update, update,
}
use hermes_device_protocol.Prelude.{
  Bool-cases, List, String, [], arith, inl, inr, none, refl, some, true, ◌==◌, ◌∙◌, ◌∷◌, ◌≡◌, ◌≤◌,
}

-- `device_id TEXT PRIMARY KEY`, and the unique index `one_primary_device`
pub record IsWellFormed (devices : List Device) : Type 0 where
  pub keyed : (d : String) → rowcount (has_device_id d) devices ≤ 1
  pub one_primary : rowcount is_primary_device devices ≤ 1

abbrev demote_all : List Device → List Device
demote_all rows = update is_primary_device (set_role secondary) rows

rowcount-demoted : (rows : List Device) → rowcount is_primary_device (demote_all rows) ≡ 0
rowcount-demoted [] = refl
rowcount-demoted (r ∷ rows) = ground (arith, rowcount-demoted rows)

rowcount-promoted :
    (d : String) (rows : List Device)
    → rowcount is_primary_device rows ≡ 0
    → rowcount is_primary_device (update (is_secondary_device d) (set_role primary) rows)
      ≡ rowcount (is_secondary_device d) rows
rowcount-promoted d [] h = refl
rowcount-promoted d (r ∷ rows) h = ground (arith, rowcount-promoted d rows)

-- The devices after both UPDATEs of `promote`.
abbrev promoted : String → List Device → List Device
promoted d rows = update (is_secondary_device d) (set_role primary) (demote_all rows)

fetchone-promoted :
    (d : String) (rows : List Device) (r : Device)
    → fetchone (has_device_id d) rows ≡ some r
    → fetchone (has_device_id d) (promoted d rows) ≡ some (set_role primary r)
fetchone-promoted d [] r found = absurd (ground arith)
fetchone-promoted d (x ∷ rows) r found = ground (arith, fetchone-promoted d rows r)

keyed_secondary :
    (d : String) (rows : List Device) (r : Device)
    → rowcount (has_device_id d) rows ≤ 1
    → fetchone (has_device_id d) rows ≡ some r
    → rowcount (is_secondary_device d) (demote_all rows) ≡ 1
keyed_secondary d [] r keyed found = absurd (ground arith)
keyed_secondary d (x ∷ rows) r keyed found =
    ground (arith, keyed_secondary d rows r, none_secondary d rows)
  where
    none_secondary :
        (d : String) (rows : List Device)
        → rowcount (has_device_id d) rows ≤ 0
        → rowcount (is_secondary_device d) (demote_all rows) ≡ 0
    none_secondary d [] h = refl
    none_secondary d (x ∷ rows) h = ground (arith, none_secondary d rows)

active_found :
    (d : String) (rows : List Device) (r : Device)
    → rowcount (has_device_id d) rows ≤ 1
    → fetchone (is_active_device d) rows ≡ some r
    → fetchone (has_device_id d) rows ≡ some r
active_found d rows r keyed found =
    ground (arith, fetchone_unique (has_device_id d) (λ r. is_active r.state) rows keyed)

-- What a promotion leaves: the device is the one primary, and keys are kept.
pub record IsPromoted (d : String) (r : Device) (after : List Device) : Type 0 where
  pub is_the_primary : fetchone (has_device_id d) after ≡ some (set_role primary r)
  pub only_one : rowcount is_primary_device after ≤ 1
  pub keyed : (k : String) → rowcount (has_device_id k) after ≤ 1

promote-IsPromoted_rows :
    (d : String) (rows : List Device) (r : Device)
    → IsWellFormed rows
    → fetchone (has_device_id d) rows ≡ some r
    → IsPromoted d r (promoted d rows)
promote-IsPromoted_rows d rows r wf found = record {
  is_the_primary = fetchone-promoted d rows r found;
  only_one = omega (
    arith,
    rowcount-promoted d (demote_all rows) (rowcount-demoted rows),
    keyed_secondary d rows r (wf.keyed d) found,
  );
  keyed = λ k. omega (
    arith,
    wf.keyed k,
    rowcount-update (has_device_id k) is_primary_device (set_role secondary) rows (λ r. refl),
    rowcount-update (has_device_id k) (is_secondary_device d) (set_role primary) (demote_all rows)
        (λ r. refl),
  );
}

-- In a table with unique identifiers and at most one primary, promoting an active device succeeds
-- and makes it the only primary, and promoting any other raises DeviceRoleError and changes nothing.
pub promote-IsPromoted :
    (d : String) (db : RegistryDb)
    → IsWellFormed db.devices
    → ((r : Device)
        → fetchone (is_active_device d) db.devices ≡ some r
        → ((promote d db).0 ≡ ok tt) × IsPromoted d r (promote d db).1.devices)
      × (fetchone (is_active_device d) db.devices ≡ none
          → promote d db ≡ (err device_role_error, db))
unfolding promote promote_body
promote-IsPromoted d db wf = (active_case, λ absent. rw absent refl)
  where
    active_case :
        (r : Device)
        → fetchone (is_active_device d) db.devices ≡ some r
        → ((promote d db).0 ≡ ok tt) × IsPromoted d r (promote d db).1.devices
    active_case r active_row =
        let found = active_found d db.devices r (wf.keyed d) active_row in
        let done = promote-IsPromoted_rows d db.devices r wf found in
        let met : (rowcount (is_secondary_device d) (demote_all db.devices) == 1) ≡ true =
          ground (arith, keyed_secondary d db.devices r (wf.keyed d) found) in
        rw active_row (elim (Bool-cases (is_primary r.role)) [
          | inr e ↦ rw e (rw met (refl, done))
          | inl e ↦
              let already : some r ≡ some (set_role primary r) = ground arith in
              rw e (
                refl,
                record {
                  is_the_primary = found ∙ already;
                  only_one = wf.one_primary;
                  keyed = wf.keyed;
                },
              )
        ])
