-- ===== src/Registry/Revoked.antt =====
-- After a revocation no credential of the device is accepted.
use hermes_device_protocol.Registry.{
  has_device_id, hash_credential, is_live_of, newest, resolve_device, revoke_credential,
  verify_credential,
}
use hermes_device_protocol.Store.{Credential, Device, Python, RegistryDb, Text, revoked}
use hermes_device_protocol.Prelude.Result.{ok, ◌>>=◌}
use hermes_device_protocol.Prelude.Sql.{
  fetchone, fetchone-update, fetchone_holds, on_row, rowcount-none, update,
}
use hermes_device_protocol.Prelude.{
  Bool, List, String, [], ap, arith, eq_iff, eq_refl, false, is_some, none, refl, some, str_eq,
  true, ℕ, ◌&&◌, ◌∷◌, ◌≡◌, ◌≢◌,
}

abbrev revoke_row : ℕ → Credential → Credential
revoke_row now_ms c = record c { revoked_at = some now_ms }

revoked-newest :
    (d : String) (now_ms : ℕ) (rows : List Credential)
    → newest (is_live_of d) (update (is_live_of d) (revoke_row now_ms) rows) ≡ none
unfolding newest
revoked-newest d now_ms [] = refl
revoked-newest d now_ms (c ∷ rows) = ground (arith, revoked-newest d now_ms rows)

abbrev pub is_live_match : String → String → Credential → Bool
is_live_match h d c = is_live_of d c && str_eq c.credential_hash h

-- A device that a credential resolves to has a live row with the credential's hash.
pub resolve_device_live :
    (py : Python) (presented : Text) (h d : String) (rows : List Credential)
    → hash_credential py presented ≡ ok h
    → resolve_device py presented rows ≡ ok (some d)
    → is_some (fetchone (is_live_match h d) rows) ≡ true
unfolding resolve_device
resolve_device_live py presented h d [] hashed found = absurd (ground arith)
resolve_device_live py presented h d (c ∷ rows) hashed found =
    ground (arith, hashed, resolve_device_live py presented h d rows hashed, eq_refl d)

revoked-fetchone :
    (h d : String) (now_ms : ℕ) (rows : List Credential)
    → fetchone (is_live_match h d) (update (is_live_of d) (revoke_row now_ms) rows) ≡ none
revoked-fetchone h d now_ms [] = refl
revoked-fetchone h d now_ms (c ∷ rows) = ground (arith, revoked-fetchone h d now_ms rows)

-- After `revoke_credential` no text that can be hashed verifies as a credential of the device or
-- resolves to it, and for every other device it verifies exactly if it did before.
pub revoke_locks_out :
    (py : Python) (d : String) (now_ms : ℕ) (db : RegistryDb) (presented : Text) (h other : String)
    → hash_credential py presented ≡ ok h
    → str_eq other d ≡ false
    → let after = (revoke_credential d now_ms db).1 in
      (verify_credential py d presented after.credentials ≡ ok false)
      × (resolve_device py presented after.credentials ≢ ok (some d))
      × (verify_credential py other presented after.credentials
          ≡ verify_credential py other presented db.credentials)
unfolding revoke_credential verify_credential newest
revoke_locks_out py d now_ms db presented h other hashed different =
    let none_live = revoked-newest d now_ms db.credentials in
    let no_match = revoked-fetchone h d now_ms db.credentials in
    let after = update (is_live_of d) (revoke_row now_ms) db.credentials in
    let same = newest-other d other now_ms db.credentials different in
    (
      rw none_live refl,
      λ found. let live = resolve_device_live py presented h d after hashed found in ground arith,
      ap
          (λ o.
            on_row o (ok false)
              λ c. hash_credential py presented >>= λ k. ok (str_eq c.credential_hash k))
          same,
    )
  where
    newest-other :
        (d other : String) (now_ms : ℕ) (rows : List Credential)
        → str_eq other d ≡ false
        → newest (is_live_of other) (update (is_live_of d) (revoke_row now_ms) rows)
          ≡ newest (is_live_of other) rows
    newest-other d other now_ms [] different = refl
    newest-other d other now_ms (c ∷ rows) different = ground (
      arith,
      newest-other d other now_ms rows different,
      eq_iff c.device_id d,
      eq_iff c.device_id other,
      eq_iff other d,
    )

-- A device row in the state `active` whose credentials are all revoked: `revoke_credential` reports
-- that it invalidated none, and yet the device's row becomes `revoked`.
pub revoke_none_revokes :
    (d : String) (now_ms : ℕ) (db : RegistryDb) (r : Device)
    → fetchone (is_live_of d) db.credentials ≡ none
    → fetchone (has_device_id d) db.devices ≡ some r
    → ((revoke_credential d now_ms db).0 ≡ 0)
      × (fetchone (has_device_id d) (revoke_credential d now_ms db).1.devices
          ≡ some (record r { state = revoked }))
unfolding revoke_credential
revoke_none_revokes d now_ms db r no_live found = (
  rowcount-none (is_live_of d) db.credentials no_live,
  ground (
    arith,
    fetchone-update (has_device_id d) (has_device_id d) (λ r. record r { state = revoked })
        db.devices (λ r. refl),
    fetchone_holds (has_device_id d) db.devices r found,
  ),
)
