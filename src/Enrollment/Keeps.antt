-- ===== src/Enrollment/Keeps.antt =====
-- Invariants of the enrollment tables: what the bodies of the transactions keep is kept by every
-- call, whether it returns or raises, and by every sequence of calls.
use hermes_device_protocol.Prelude.{
  All, Bool, List, String, [], false, if◌then◌else◌, is_some, str_eq, true, ℕ, ◌&&◌, ◌∷◌, ◌≡◌,
}
use hermes_device_protocol.Prelude.Sql.{fetchone}
use hermes_device_protocol.Prelude.Result.{err, ok}
use hermes_device_protocol.Prelude.Transaction.{
  Keeps, KeepsOk, Tx, transaction, transaction-Keeps, with_value, with_value-Keeps,
}
use hermes_device_protocol.Store.{Device, EnrollmentDb, Python, Text, denied, is_primary}
use hermes_device_protocol.Enrollment.{
  EnrollmentError, approve_candidate, approve_primary, by_candidate, by_primary, identifier_hash,
  if_current_primary, not_ready, set_state, set_terminal_state, start, start_body, update_live,
}
use hermes_device_protocol.Enrollment.Finish.{
  Call, approves_candidate, approves_primary, block, block_body, blocks, cancel, cancels, consume,
  consume_body, consumes, denies, deny, perform, perform_all, sets_devices, starts,
}

-- The calls that a property has to survive are those that `allowed` admits.
pub record IsKept (py : Python) (allowed : Call → Bool) (P : EnrollmentDb → Type 0) : Type 0 where
  pub starts_kept :
      (h host candidate : String) (now_ms : ℕ) → KeepsOk P (start_body h host candidate now_ms)
  pub candidate_kept :
      (i : Text) (h : String) (now_ms : ℕ)
      → identifier_hash py i ≡ ok h
      → allowed (approves_candidate i now_ms) ≡ true
      → KeepsOk P (update_live h now_ms (by_candidate now_ms))
  pub primary_kept :
      (i : Text) (h device_id : String) (now_ms : ℕ)
      → identifier_hash py i ≡ ok h
      → allowed (approves_primary i device_id now_ms) ≡ true
      → KeepsOk P (update_live h now_ms (by_primary device_id now_ms))
  pub denied_kept : (h : String) (now_ms : ℕ) → KeepsOk P (update_live h now_ms (set_state denied))
  pub blocked_kept : (h device_id : String) (now_ms : ℕ) → KeepsOk P (block_body h device_id now_ms)
  pub consumed_kept :
      (h host candidate : String) (now_ms : ℕ) → KeepsOk P (consume_body h host candidate now_ms)
  pub devices_kept :
      (db : EnrollmentDb) (devices : List Device) → P db → P (record db { devices = devices })

abbrev pub hashed_call :
    {A : Type 0}
    → Python
    → Text
    → (String → Tx EnrollmentDb EnrollmentError A)
    → Tx EnrollmentDb EnrollmentError A
hashed_call py i body = with_value (identifier_hash py i) λ h. transaction (body h)

module _ (P : EnrollmentDb → Type 0) where
  if_current_primary-Keeps :
      (device_id : String) (rest : Tx EnrollmentDb EnrollmentError (Unit {0}))
      → Keeps P rest
      → Keeps P (if_current_primary device_id rest)
  unfolding if_current_primary
  if_current_primary-Keeps device_id rest keep db h = branch (
      is_some
        (fetchone (λ (d : Device). str_eq d.device_id device_id && is_primary d.role) db.devices))
    where
      branch : (b : Bool) → P (if b then rest db else (err not_ready, db)).1
      branch true = keep db h
      branch false = h

module _ (py : Python) (allowed : Call → Bool) (P : EnrollmentDb → Type 0)
    (kept : IsKept py allowed P) where
  hashed_Keeps :
      {A : Type 0} (i : Text) (body : String → Tx EnrollmentDb EnrollmentError A)
      → ((h : String) → identifier_hash py i ≡ ok h → KeepsOk P (body h))
      → Keeps P (with_value (identifier_hash py i) λ h. transaction (body h))
  hashed_Keeps i body keep =
      with_value-Keeps P (identifier_hash py i) (λ h. transaction (body h))
        (λ h e. transaction-Keeps P (body h) (keep h e))

  pub perform-Keeps : (c : Call) (db : EnrollmentDb) → allowed c ≡ true → P db → P (perform py c db)
  unfolding perform start approve_candidate approve_primary block deny cancel consume
      set_terminal_state
  perform-Keeps (starts i host candidate now_ms) db fits h =
      hashed_Keeps i _ (λ k _. kept.starts_kept k host candidate now_ms) db h
  perform-Keeps (approves_candidate i now_ms) db fits h =
      hashed_Keeps i _ (λ k e. kept.candidate_kept i k now_ms e fits) db h
  perform-Keeps (approves_primary i device_id now_ms) db fits h =
      if_current_primary-Keeps P device_id
        (hashed_call py i (λ k. update_live k now_ms (by_primary device_id now_ms)))
        (hashed_Keeps i _ (λ k e. kept.primary_kept i k device_id now_ms e fits)) db h
  perform-Keeps (blocks i device_id now_ms) db fits h =
      if_current_primary-Keeps P device_id (hashed_call py i (λ k. block_body k device_id now_ms))
        (hashed_Keeps i _ (λ k _. kept.blocked_kept k device_id now_ms)) db h
  perform-Keeps (denies i device_id now_ms) db fits h =
      if_current_primary-Keeps P device_id
        (hashed_call py i (λ k. update_live k now_ms (set_state denied)))
        (hashed_Keeps i _ (λ k _. kept.denied_kept k now_ms)) db h
  perform-Keeps (cancels i now_ms) db fits h =
      hashed_Keeps i _ (λ k _. kept.denied_kept k now_ms) db h
  perform-Keeps (consumes i host candidate now_ms) db fits h =
      hashed_Keeps i _ (λ k _. kept.consumed_kept k host candidate now_ms) db h
  perform-Keeps (sets_devices devices) db fits h = kept.devices_kept db devices h

  pub perform_all-Keeps :
      (calls : List Call) (db : EnrollmentDb)
      → All (λ c. allowed c ≡ true) calls
      → P db
      → P (perform_all py calls db)
  unfolding perform_all
  perform_all-Keeps [] db oks h = h
  perform_all-Keeps (c ∷ calls) db oks h =
      perform_all-Keeps calls (perform py c db) oks.1 (perform-Keeps c db oks.0 h)
