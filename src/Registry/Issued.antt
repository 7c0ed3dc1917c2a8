-- ===== src/Registry/Issued.antt =====
-- A credential that is issued is accepted.
use hermes_device_protocol.Registry.{
  has_device_id, hash_credential, insert_credential, is_live_of, issue_credential, new_credential,
  newest, of_device, verify_credential,
}
use hermes_device_protocol.Store.{Credential, Python, RegistryDb, Text}
use hermes_device_protocol.Prelude.Result.{ok}
use hermes_device_protocol.Prelude.Sql.{fetchone}
use hermes_device_protocol.Prelude.{
  All, Bool-cases, List, String, [], ap, arith, eq_refl, false, inl, inr, is_some, leb, refl, some,
  true, ℕ, ◌++◌, ◌<◌, ◌∷◌, ◌≡◌,
}

-- Every credential of the device is older.
abbrev pub IsOlder : String → ℕ → Credential → Type 0
IsOlder d now_ms c = of_device d c ≡ true → c.issued_at < now_ms

newest-append :
    (d h : String) (now_ms : ℕ) (rows : List Credential)
    → All (IsOlder d now_ms) rows
    → newest (is_live_of d) (rows ++ (new_credential d h now_ms ∷ []))
      ≡ some (new_credential d h now_ms)
unfolding newest
newest-append d h now_ms [] older = ground (arith, eq_refl d)
newest-append d h now_ms (c ∷ rows) older =
    let rest = newest-append d h now_ms rows older.1 in
    rw rest (elim (Bool-cases (is_live_of d c)) [
      | inr e ↦ rw e refl
      | inl e ↦
          let before : leb now_ms c.issued_at ≡ false = ground (arith, older.0 (ground arith)) in
          rw e (rw before refl)
    ])

-- A credential that is issued to a known device, later than all its earlier ones, verifies for it.
pub issue-verify :
    (py : Python) (d h : String) (credential : Text) (now_ms : ℕ) (db : RegistryDb)
    → hash_credential py credential ≡ ok h
    → is_some (fetchone (has_device_id d) db.devices) ≡ true
    → All (IsOlder d now_ms) db.credentials
    → ((issue_credential py credential d now_ms db).0 ≡ ok tt)
      × (verify_credential py d credential
            (issue_credential py credential d now_ms db).1.credentials
          ≡ ok true)
unfolding issue_credential insert_credential verify_credential
issue-verify py d h credential now_ms db hashed known older =
    rw hashed
      (rw known (refl, rw (newest-append d h now_ms db.credentials older) (ap ok (eq_refl h))))
