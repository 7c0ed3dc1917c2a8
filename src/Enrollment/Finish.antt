-- ===== src/Enrollment/Finish.antt =====
-- hdp-bridge/hdp_bridge/enrollment.py, the methods that end an enrollment (block, deny, cancel,
-- consume), `details`, and the run of any sequence of calls.
use hermes_device_protocol.Prelude.{
  Bool, List, Option, String, [], if◌then◌else◌, is_some, ltb, none, some, str_eq, ℕ, ◌&&◌, ◌==◌,
  ◌∷◌,
}
use hermes_device_protocol.Prelude.Sql.{fetchone, on_row, rowcount, update}
use hermes_device_protocol.Prelude.Result.{Result, err, ok, ◌>>=◌}
use hermes_device_protocol.Prelude.Transaction.{Tx, transaction, with_value}
use hermes_device_protocol.Store.{
  Device, EnrollmentDb, PendingEnrollment, Python, Role, Text, blocked, consumed, denied, expired,
}
use hermes_device_protocol.Enrollment.{
  EnrollmentError, approve_candidate, approve_primary, has_identifier, identifier_hash,
  if_current_primary, is_approved, is_live, is_stale, not_found, not_ready, put_rows, set_state,
  set_terminal_state, start, update_live,
}

-- INSERT INTO pairing_locks ... ON CONFLICT(profile_lock) DO UPDATE
abbrev pub lock_profile :
    String
    → ℕ
    → Result EnrollmentError (Unit {0}) × EnrollmentDb
    → Result EnrollmentError (Unit {0}) × EnrollmentDb
lock_profile device_id now_ms (ok _, db) = (
  ok tt,
  record db {
    pairing_lock = some (record { locked_at = now_ms; blocked_by_device_id = device_id });
  },
)
lock_profile device_id now_ms (err e, db) = (err e, db)

unfoldable pub block_body : String → String → ℕ → Tx EnrollmentDb EnrollmentError (Unit {0})
unfolding update_live
block_body h device_id now_ms db =
    lock_profile device_id now_ms (update_live h now_ms (set_state blocked) db)

-- The row that a consumption needs: both key bindings and both approvals.
abbrev pub is_ready : String → String → ℕ → PendingEnrollment → Bool
is_ready host candidate now_ms r =
    str_eq r.host_key_fingerprint host
    && (str_eq r.candidate_key_fingerprint candidate
        && (is_some r.candidate_approved_at
            && (is_some r.primary_approved_at && (ltb now_ms r.expires_at && is_approved r.state))))

abbrev pub consume_row : ℕ → PendingEnrollment → PendingEnrollment
consume_row now_ms r = record r { state = consumed; consumed_at = some now_ms }

-- The SELECTs that follow the UPDATE of `consume`, the mark of an expired row included.
abbrev pub after_consume : String → ℕ → ℕ → Tx EnrollmentDb EnrollmentError Role
after_consume h now_ms met db =
    on_row (fetchone (has_identifier h) db.pending_enrollments) (err not_found, db)
      λ r.
        if met == 1
        then (ok r.target_role, db)
        else if is_stale now_ms r
        then (
          err not_ready,
          put_rows db (update (has_identifier h) (set_state expired) db.pending_enrollments),
        )
        else (err not_ready, db)

unfoldable pub consume_body : String → String → String → ℕ → Tx EnrollmentDb EnrollmentError Role
consume_body h host candidate now_ms db =
    let ready = λ (r : PendingEnrollment). has_identifier h r && is_ready host candidate now_ms r in
    after_consume h now_ms (rowcount ready db.pending_enrollments)
      (put_rows db (update ready (consume_row now_ms) db.pending_enrollments))

module _ (py : Python) where
  unfoldable pub block : Text → String → ℕ → Tx EnrollmentDb EnrollmentError (Unit {0})
  unfolding block_body identifier_hash if_current_primary
  block identifier device_id now_ms =
      if_current_primary device_id (
        with_value (identifier_hash py identifier) λ h. transaction (block_body h device_id now_ms))

  unfoldable pub deny : Text → String → ℕ → Tx EnrollmentDb EnrollmentError (Unit {0})
  unfolding set_terminal_state if_current_primary
  deny identifier device_id now_ms =
      if_current_primary device_id (set_terminal_state py identifier denied now_ms)

  unfoldable pub cancel : Text → ℕ → Tx EnrollmentDb EnrollmentError (Unit {0})
  unfolding set_terminal_state
  cancel identifier now_ms = set_terminal_state py identifier denied now_ms

  unfoldable pub details : Text → ℕ → EnrollmentDb → Result EnrollmentError (String × String × ℕ)
  unfolding identifier_hash
  details identifier now_ms db = identifier_hash py identifier >>= λ h.
      on_row (fetchone (λ r. has_identifier h r && is_live now_ms r) db.pending_enrollments)
        (err not_found) λ r. ok (r.host_key_fingerprint, r.candidate_key_fingerprint, r.expires_at)

  unfoldable pub consume : Text → String → String → ℕ → Tx EnrollmentDb EnrollmentError Role
  unfolding consume_body identifier_hash
  consume identifier host candidate now_ms =
      with_value (identifier_hash py identifier)
        λ h. transaction (consume_body h host candidate now_ms)

-- One call of the coordinator, or a change of the devices by the rest of the bridge.
pub data Call : Type 0 where
  starts : Text → String → String → ℕ → Call
  approves_candidate : Text → ℕ → Call
  approves_primary : Text → String → ℕ → Call
  blocks : Text → String → ℕ → Call
  denies : Text → String → ℕ → Call
  cancels : Text → ℕ → Call
  consumes : Text → String → String → ℕ → Call
  sets_devices : List Device → Call

module _ (py : Python) where
  unfoldable pub perform : Call → EnrollmentDb → EnrollmentDb
  unfolding start approve_candidate approve_primary block deny cancel consume
  perform (starts i host candidate now_ms) db = (start py i host candidate now_ms db).1
  perform (approves_candidate i now_ms) db = (approve_candidate py i now_ms db).1
  perform (approves_primary i device_id now_ms) db = (approve_primary py i device_id now_ms db).1
  perform (blocks i device_id now_ms) db = (block py i device_id now_ms db).1
  perform (denies i device_id now_ms) db = (deny py i device_id now_ms db).1
  perform (cancels i now_ms) db = (cancel py i now_ms db).1
  perform (consumes i host candidate now_ms) db = (consume py i host candidate now_ms db).1
  perform (sets_devices devices) db = record db { devices = devices }

  unfoldable pub perform_all : List Call → EnrollmentDb → EnrollmentDb
  unfolding perform
  perform_all [] db = db
  perform_all (c ∷ calls) db = perform_all calls (perform c db)

abbrev pub error_of : {A : Type 0} → Result EnrollmentError A → Option EnrollmentError
error_of (ok _) = none
error_of (err e) = some e

module _ (py : Python) where
  -- The exception that a call raises, if any.
  unfoldable pub raised : Call → EnrollmentDb → Option EnrollmentError
  unfolding start approve_candidate approve_primary block deny cancel consume
  raised (starts i host candidate now_ms) db = error_of (start py i host candidate now_ms db).0
  raised (approves_candidate i now_ms) db = error_of (approve_candidate py i now_ms db).0
  raised (approves_primary i device_id now_ms) db =
      error_of (approve_primary py i device_id now_ms db).0
  raised (blocks i device_id now_ms) db = error_of (block py i device_id now_ms db).0
  raised (denies i device_id now_ms) db = error_of (deny py i device_id now_ms db).0
  raised (cancels i now_ms) db = error_of (cancel py i now_ms db).0
  raised (consumes i host candidate now_ms) db = error_of (consume py i host candidate now_ms db).0
  raised (sets_devices devices) db = none

abbrev pub no_enrollments : EnrollmentDb
no_enrollments = record { devices = []; pending_enrollments = []; pairing_lock = none }
