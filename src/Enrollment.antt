-- ===== src/Enrollment.antt =====
-- hdp-bridge/hdp_bridge/enrollment.py: the state transitions of a USB-sentinel enrollment. Each
-- method of `EnrollmentCoordinator` is a transaction on the tables that it touches.
pub mod Finish
pub mod Table
pub mod Keeps
pub mod Marks
pub mod Consume
pub mod Approvals
pub mod Lock
pub mod Invariant
mod Tests
use hermes_device_protocol.Prelude.{
  Bool, List, Option, String, [], false, if◌then◌else◌, is_some, leb, ltb, none, some, str_eq, true,
  ℕ, ◌&&◌, ◌*◌, ◌++◌, ◌+◌, ◌==◌, ◌∷◌,
}
use hermes_device_protocol.Prelude.Sql.{fetchone, rowcount, update}
use hermes_device_protocol.Prelude.Result.{Result, err, ok}
use hermes_device_protocol.Prelude.Transaction.{Tx, transaction, with_value}
use hermes_device_protocol.Store.{
  Device, EnrollmentDb, EnrollmentState, PendingEnrollment, Python, Text, candidate_approved,
  encode_ascii, expired, is_primary, pending, primary, primary_approved, secondary,
}

pub data EnrollmentError : Type 0 where
  empty_identifier unicode_encode_error locked already_pending not_found not_ready : EnrollmentError
  integrity_error : EnrollmentError

abbrev pub lifetime_ms : ℕ
lifetime_ms = 2 * 60 * 1000

-- state IN ('pending', 'candidate_approved', 'primary_approved')
abbrev pub is_open : EnrollmentState → Bool
is_open pending = true
is_open candidate_approved = true
is_open primary_approved = true
is_open _ = false

-- state IN ('candidate_approved', 'primary_approved')
abbrev pub is_approved : EnrollmentState → Bool
is_approved candidate_approved = true
is_approved primary_approved = true
is_approved _ = false

module _ (py : Python) where
  abbrev pub digest : Option Text → Result EnrollmentError String
  digest none = err unicode_encode_error
  digest (some bytes) = ok (py.sha256 bytes)

  -- `_identifier_hash`
  unfoldable pub identifier_hash : Text → Result EnrollmentError String
  unfolding encode_ascii
  identifier_hash [] = err empty_identifier
  identifier_hash (c ∷ cs) = digest (encode_ascii (c ∷ cs))

abbrev pub has_identifier : String → PendingEnrollment → Bool
has_identifier h r = str_eq r.identifier_hash h

-- identifier_hash = ? AND expires_at > ? AND state IN (...)
abbrev pub is_live : ℕ → PendingEnrollment → Bool
is_live now_ms r = ltb now_ms r.expires_at && is_open r.state

abbrev pub is_stale : ℕ → PendingEnrollment → Bool
is_stale now_ms r = leb r.expires_at now_ms && is_open r.state

abbrev pub set_state : EnrollmentState → PendingEnrollment → PendingEnrollment
set_state s r = record r { state = s }

abbrev pub put_rows : EnrollmentDb → List PendingEnrollment → EnrollmentDb
put_rows db rows = record db { pending_enrollments = rows }

unfoldable pub has_primary : EnrollmentDb → Bool
has_primary db = is_some (fetchone (λ (d : Device). is_primary d.role) db.devices)

unfoldable pub expire_live_enrollments : ℕ → EnrollmentDb → EnrollmentDb
expire_live_enrollments now_ms db =
    put_rows db (update (is_stale now_ms) (set_state expired) db.pending_enrollments)

abbrev pub new_row : Bool → String → String → String → ℕ → PendingEnrollment
new_row primary_known h host candidate now_ms = record {
  identifier_hash = h;
  host_key_fingerprint = host;
  candidate_key_fingerprint = candidate;
  state = if primary_known then pending else primary_approved;
  created_at = now_ms;
  expires_at = now_ms + lifetime_ms;
  candidate_approved_at = none;
  primary_approved_at = if primary_known then none else some now_ms;
  primary_device_id = none;
  consumed_at = none;
  target_role = if primary_known then secondary else primary;
}

-- `identifier_hash TEXT PRIMARY KEY`
abbrev pub insert_row : PendingEnrollment → Tx EnrollmentDb EnrollmentError (Unit {0})
insert_row r db =
    if is_some (fetchone (has_identifier r.identifier_hash) db.pending_enrollments)
    then (err integrity_error, db)
    else (ok tt, put_rows db (db.pending_enrollments ++ (r ∷ [])))

unfoldable pub start_body :
    String → String → String → ℕ → Tx EnrollmentDb EnrollmentError (Unit {0})
unfolding has_primary expire_live_enrollments
start_body h host candidate now_ms db =
    if is_some db.pairing_lock
    then (err locked, db)
    else let swept = expire_live_enrollments now_ms db in
      if is_some (fetchone (λ r. is_open r.state) swept.pending_enrollments)
      then (err already_pending, swept)
      else insert_row (new_row (has_primary swept) h host candidate now_ms) swept

module _ (py : Python) where
  unfoldable pub start : Text → String → String → ℕ → Tx EnrollmentDb EnrollmentError (Unit {0})
  unfolding start_body identifier_hash
  start identifier host candidate now_ms =
      with_value (identifier_hash py identifier)
        λ h. transaction (start_body h host candidate now_ms)

-- The tail of a conditional UPDATE: nothing to do where it met one row, else the fitting error.
abbrev pub one_or_error :
    String → ℕ → EnrollmentDb → EnrollmentDb → Result EnrollmentError (Unit {0}) × EnrollmentDb
one_or_error h met before after =
    if met == 1
    then (ok tt, after)
    else if is_some (fetchone (has_identifier h) after.pending_enrollments)
    then (err not_ready, after)
    else (err not_found, after)

-- UPDATE pending_enrollments SET f WHERE identifier_hash = ? AND expires_at > ? AND state IN (...)
unfoldable pub update_live :
    String
    → ℕ
    → (PendingEnrollment → PendingEnrollment)
    → Tx EnrollmentDb EnrollmentError (Unit {0})
update_live h now_ms f db =
    let where_live = λ (r : PendingEnrollment). has_identifier h r && is_live now_ms r in
    one_or_error h (rowcount where_live db.pending_enrollments) db
      (put_rows db (update where_live f db.pending_enrollments))

abbrev pub by_candidate : ℕ → PendingEnrollment → PendingEnrollment
by_candidate now_ms r = record r { candidate_approved_at = some now_ms; state = candidate_approved }

abbrev pub by_primary : String → ℕ → PendingEnrollment → PendingEnrollment
by_primary device_id now_ms r = record r {
  primary_approved_at = some now_ms;
  primary_device_id = some device_id;
  state = primary_approved;
}

-- `_require_current_primary`, then the rest of the method
unfoldable pub if_current_primary :
    String → Tx EnrollmentDb EnrollmentError (Unit {0}) → Tx EnrollmentDb EnrollmentError (Unit {0})
if_current_primary device_id rest db =
    if is_some
      (fetchone (λ (d : Device). str_eq d.device_id device_id && is_primary d.role) db.devices)
    then rest db
    else (err not_ready, db)

module _ (py : Python) where
  unfoldable pub approve_candidate : Text → ℕ → Tx EnrollmentDb EnrollmentError (Unit {0})
  unfolding update_live identifier_hash
  approve_candidate identifier now_ms =
      with_value (identifier_hash py identifier)
        λ h. transaction (update_live h now_ms (by_candidate now_ms))

  unfoldable pub approve_primary : Text → String → ℕ → Tx EnrollmentDb EnrollmentError (Unit {0})
  unfolding update_live identifier_hash if_current_primary
  approve_primary identifier device_id now_ms = if_current_primary device_id (
      with_value (identifier_hash py identifier)
        λ h. transaction (update_live h now_ms (by_primary device_id now_ms)))

  -- `_set_terminal_state`
  unfoldable pub set_terminal_state :
      Text → EnrollmentState → ℕ → Tx EnrollmentDb EnrollmentError (Unit {0})
  unfolding update_live identifier_hash
  set_terminal_state identifier s now_ms =
      with_value (identifier_hash py identifier)
        λ h. transaction (update_live h now_ms (set_state s))
