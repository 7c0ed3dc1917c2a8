-- ===== src/Enrollment/Lock.antt =====
-- Errors, the right to decide, and the lock that a block leaves.
use hermes_device_protocol.Prelude.{
  Bool, List, String, ap, arith, false, if◌then◌else◌, is_some, none, refl, some, str_eq, true, ℕ,
  ◌&&◌, ◌∙◌, ◌≡◌,
}
use hermes_device_protocol.Prelude.Sql.{fetchone}
use hermes_device_protocol.Prelude.Result.{Result, err, ok, ◌>>=◌}
use hermes_device_protocol.Prelude.Transaction.{Tx, commit_or_rollback, transaction, with_value}
use hermes_device_protocol.Store.{Device, EnrollmentDb, Python, Text, denied, is_primary}
use hermes_device_protocol.Enrollment.{
  EnrollmentError, approve_candidate, approve_primary, by_candidate, by_primary, identifier_hash,
  if_current_primary, locked, not_ready, set_state, set_terminal_state, start, start_body,
  update_live,
}
use hermes_device_protocol.Enrollment.Finish.{
  Call, approves_candidate, approves_primary, block, block_body, blocks, cancel, cancels, consume,
  consume_body, consumes, denies, deny, error_of, perform, perform_all, raised, sets_devices,
  starts,
}
use hermes_device_protocol.Enrollment.Table.{
  block_body_ok, consume_body_ok, start_body_ok, update_live_ok,
}
use hermes_device_protocol.Enrollment.Keeps.{IsKept, hashed_call, perform_all-Keeps}
use hermes_device_protocol.Enrollment.Invariant.{All-allowed}

abbrev is_locked : EnrollmentDb → Bool
is_locked db = is_some db.pairing_lock

locked-IsKept : (py : Python) → IsKept py (λ _. true) (λ db. is_locked db ≡ true)
locked-IsKept py = record {
  starts_kept = λ h host candidate now_ms db u on done.
      ap is_locked (start_body_ok h host candidate now_ms db u done).written ∙ on;
  candidate_kept = λ i h now_ms _ _ db u on done.
      ap is_locked (update_live_ok h now_ms (by_candidate now_ms) db u done).1 ∙ on;
  primary_kept = λ i h device_id now_ms _ _ db u on done.
      ap is_locked (update_live_ok h now_ms (by_primary device_id now_ms) db u done).1 ∙ on;
  denied_kept = λ h now_ms db u on done.
      ap is_locked (update_live_ok h now_ms (set_state denied) db u done).1 ∙ on;
  blocked_kept =
      λ h device_id now_ms db u on done. ap is_locked (block_body_ok h device_id now_ms db u done);
  consumed_kept = λ h host candidate now_ms db role on done.
      ap is_locked (consume_body_ok h host candidate now_ms db role done).1 ∙ on;
  devices_kept = λ db devices on. on;
}

hashed_error :
    {A : Type 0} (py : Python) (i : Text) (body : String → Tx EnrollmentDb EnrollmentError A)
    (db : EnrollmentDb) (e : EnrollmentError)
    → ((h : String) → (body h db).0 ≡ err e)
    → hashed_call py i body db ≡ ((identifier_hash py i >>= λ _. err e), db)
hashed_error {A} py i body db e refused = on_hash (identifier_hash py i)
  where
    on_body :
        (r : Result EnrollmentError A) (after : EnrollmentDb)
        → r ≡ err e
        → commit_or_rollback db (r, after) ≡ (err e, db)
    on_body (ok a) after done = absurd (ground arith)
    on_body (err _) after same = ground arith

    on_hash :
        (r : Result EnrollmentError String)
        → with_value r (λ h. transaction (body h)) db ≡ ((r >>= λ _. err e), db)
    on_hash (ok h) = on_body (body h db).0 (body h db).1 (refused h)
    on_hash (err _) = refl

start_locked :
    (py : Python) (i : Text) (host candidate : String) (now_ms : ℕ) (db : EnrollmentDb)
    → is_locked db ≡ true
    → start py i host candidate now_ms db ≡ ((identifier_hash py i >>= λ _. err locked), db)
unfolding start
start_locked py i host candidate now_ms db on =
    hashed_error py i (λ h. start_body h host candidate now_ms) db locked
      λ h. unfold start_body in ground arith

block_locks :
    (py : Python) (i : Text) (device_id : String) (now_ms : ℕ) (db : EnrollmentDb) (u : Unit {0})
    → (block py i device_id now_ms db).0 ≡ ok u
    → is_locked (block py i device_id now_ms db).1 ≡ true
unfolding block
block_locks py i device_id now_ms db u done = ground arith

-- After a primary's block, every start is refused for good: whatever calls and device changes follow
-- it raises EnrollmentLockedError (an identifier that cannot be hashed raises first, as always) and
-- writes nothing.
pub block_locks_out :
    (py : Python) (i j : Text) (device_id host candidate : String) (now_ms later_ms : ℕ)
    (db : EnrollmentDb) (u : Unit {0}) (calls : List Call)
    → (block py i device_id now_ms db).0 ≡ ok u
    → let after = perform_all py calls (block py i device_id now_ms db).1 in
      start py j host candidate later_ms after ≡ ((identifier_hash py j >>= λ _. err locked), after)
block_locks_out py i j device_id host candidate now_ms later_ms db u calls done =
    start_locked py j host candidate later_ms _ (
      perform_all-Keeps py (λ _. true) (λ d. is_locked d ≡ true) (locked-IsKept py) calls _
        (All-allowed calls) (block_locks py i device_id now_ms db u done))

-- Only the device that is primary at the time decides: for any other, approving, denying and
-- blocking raise EnrollmentNotReadyError and write nothing, whatever the identifier.
pub only_primary_decides :
    (py : Python) (i : Text) (device_id : String) (now_ms : ℕ) (db : EnrollmentDb)
    → fetchone (λ (d : Device). str_eq d.device_id device_id && is_primary d.role) db.devices ≡ none
    → (approve_primary py i device_id now_ms db ≡ (err not_ready, db))
      × (deny py i device_id now_ms db ≡ (err not_ready, db))
      × (block py i device_id now_ms db ≡ (err not_ready, db))
unfolding approve_primary deny block
only_primary_decides py i device_id now_ms db none_such = (
  rw (none_such, if_current_primary),
  rw (none_such, if_current_primary),
  rw (none_such, if_current_primary),
)

hashed_atomic :
    {A : Type 0} (py : Python) (i : Text) (body : String → Tx EnrollmentDb EnrollmentError A)
    (db : EnrollmentDb) (e : EnrollmentError)
    → error_of (hashed_call py i body db).0 ≡ some e
    → (hashed_call py i body db).1 ≡ db
hashed_atomic {A} py i body db e = on_hash (identifier_hash py i)
  where
    on_body :
        (r : Result EnrollmentError A) (after : EnrollmentDb)
        → error_of (commit_or_rollback db (r, after)).0 ≡ some e
        → (commit_or_rollback db (r, after)).1 ≡ db
    on_body (ok a) after failed = absurd (ground arith)
    on_body (err _) after failed = refl

    on_hash :
        (r : Result EnrollmentError String)
        → error_of (with_value r (λ h. transaction (body h)) db).0 ≡ some e
        → (with_value r (λ h. transaction (body h)) db).1 ≡ db
    on_hash (ok h) failed = on_body (body h db).0 (body h db).1 failed
    on_hash (err _) failed = refl

primary_atomic :
    (device_id : String) (rest : Tx EnrollmentDb EnrollmentError (Unit {0})) (db : EnrollmentDb)
    (e : EnrollmentError)
    → (error_of (rest db).0 ≡ some e → (rest db).1 ≡ db)
    → error_of (if_current_primary device_id rest db).0 ≡ some e
    → (if_current_primary device_id rest db).1 ≡ db
unfolding if_current_primary
primary_atomic device_id rest db e atomic = branch (
    is_some
      (fetchone (λ (d : Device). str_eq d.device_id device_id && is_primary d.role) db.devices))
  where
    branch :
        (b : Bool)
        → error_of (if b then rest db else (err not_ready, db)).0 ≡ some e
        → (if b then rest db else (err not_ready, db)).1 ≡ db
    branch true failed = atomic failed
    branch false failed = refl

-- A call that raises has changed nothing: no row, no lock. In particular the mark `expired` that
-- `consume` writes on an expired enrollment before it raises is rolled back with the rest.
pub raised_changes_nothing :
    (py : Python) (c : Call) (db : EnrollmentDb) (e : EnrollmentError)
    → raised py c db ≡ some e
    → perform py c db ≡ db
unfolding raised perform start approve_candidate approve_primary block deny cancel consume
    set_terminal_state
raised_changes_nothing py (starts i host candidate now_ms) db e =
    hashed_atomic py i (λ h. start_body h host candidate now_ms) db e
raised_changes_nothing py (approves_candidate i now_ms) db e =
    hashed_atomic py i (λ h. update_live h now_ms (by_candidate now_ms)) db e
raised_changes_nothing py (approves_primary i device_id now_ms) db e =
    let body = λ (h : String). update_live h now_ms (by_primary device_id now_ms) in
    primary_atomic device_id (hashed_call py i body) db e (hashed_atomic py i body db e)
raised_changes_nothing py (blocks i device_id now_ms) db e =
    let body = λ (h : String). block_body h device_id now_ms in
    primary_atomic device_id (hashed_call py i body) db e (hashed_atomic py i body db e)
raised_changes_nothing py (denies i device_id now_ms) db e =
    let body = λ (h : String). update_live h now_ms (set_state denied) in
    primary_atomic device_id (hashed_call py i body) db e (hashed_atomic py i body db e)
raised_changes_nothing py (cancels i now_ms) db e =
    hashed_atomic py i (λ h. update_live h now_ms (set_state denied)) db e
raised_changes_nothing py (consumes i host candidate now_ms) db e =
    hashed_atomic py i (λ h. consume_body h host candidate now_ms) db e
raised_changes_nothing py (sets_devices devices) db e = λ h. absurd (ground arith)
