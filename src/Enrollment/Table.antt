-- ===== src/Enrollment/Table.antt =====
-- What the bodies of the enrollment transactions have written where they return.
use hermes_device_protocol.Prelude.{
  Bool, List, Option, String, [], arith, none, some, ℕ, ◌&&◌, ◌++◌, ◌∷◌, ◌≡◌, ◌≤◌,
}
use hermes_device_protocol.Prelude.Sql.{fetchone, rowcount, update}
use hermes_device_protocol.Prelude.Result.{ok}
use hermes_device_protocol.Store.{EnrollmentDb, PendingEnrollment, Role, blocked, expired}
use hermes_device_protocol.Enrollment.{
  has_identifier, has_primary, is_live, is_open, is_stale, new_row, put_rows, set_state, start_body,
  update_live,
}
use hermes_device_protocol.Enrollment.Finish.{block_body, consume_body, consume_row, is_ready}

abbrev pub Rows : Type 0
Rows = List PendingEnrollment

abbrev pub row : String → EnrollmentDb → Option PendingEnrollment
row h db = fetchone (has_identifier h) db.pending_enrollments

-- `identifier_hash TEXT PRIMARY KEY`
abbrev pub IsKeyed : Rows → Type 0
IsKeyed rows = (h : String) → rowcount (has_identifier h) rows ≤ 1

abbrev pub swept : ℕ → Rows → Rows
swept now_ms rows = update (is_stale now_ms) (set_state expired) rows

abbrev pub where_live : String → ℕ → PendingEnrollment → Bool
where_live h now_ms r = has_identifier h r && is_live now_ms r

abbrev pub where_ready : String → String → String → ℕ → PendingEnrollment → Bool
where_ready h host candidate now_ms r = has_identifier h r && is_ready host candidate now_ms r

pub record Started (h host candidate : String) (now_ms : ℕ) (before after : EnrollmentDb)
    : Type 0 where
  pub unlocked : before.pairing_lock ≡ none
  pub none_open : fetchone (λ r. is_open r.state) (swept now_ms before.pending_enrollments) ≡ none
  pub new_key : fetchone (has_identifier h) (swept now_ms before.pending_enrollments) ≡ none
  pub written :
      after
      ≡ put_rows before (
          swept now_ms before.pending_enrollments
          ++ (new_row (has_primary before) h host candidate now_ms ∷ []))

pub start_body_ok :
    (h host candidate : String) (now_ms : ℕ) (db : EnrollmentDb) (u : Unit {0})
    → (start_body h host candidate now_ms db).0 ≡ ok u
    → Started h host candidate now_ms db (start_body h host candidate now_ms db).1
unfolding start_body
start_body_ok h host candidate now_ms db u done = ground arith

pub update_live_ok :
    (h : String) (now_ms : ℕ) (f : PendingEnrollment → PendingEnrollment) (db : EnrollmentDb)
    (u : Unit {0})
    → (update_live h now_ms f db).0 ≡ ok u
    → (rowcount (where_live h now_ms) db.pending_enrollments ≡ 1)
      × ((update_live h now_ms f db).1
          ≡ put_rows db (update (where_live h now_ms) f db.pending_enrollments))
unfolding update_live
update_live_ok h now_ms f db u done = ground arith

pub block_body_ok :
    (h device_id : String) (now_ms : ℕ) (db : EnrollmentDb) (u : Unit {0})
    → (block_body h device_id now_ms db).0 ≡ ok u
    → (block_body h device_id now_ms db).1 ≡ record db {
      pending_enrollments = update (where_live h now_ms) (set_state blocked) db.pending_enrollments;
      pairing_lock = some (record { locked_at = now_ms; blocked_by_device_id = device_id });
    }
unfolding block_body update_live
block_body_ok h device_id now_ms db u done = ground arith

pub consume_body_ok :
    (h host candidate : String) (now_ms : ℕ) (db : EnrollmentDb) (role : Role)
    → (consume_body h host candidate now_ms db).0 ≡ ok role
    → (rowcount (where_ready h host candidate now_ms) db.pending_enrollments ≡ 1)
      × ((consume_body h host candidate now_ms db).1
          ≡ put_rows db (
              update
                (where_ready h host candidate now_ms)
                (consume_row now_ms)
                db.pending_enrollments))
unfolding consume_body
consume_body_ok h host candidate now_ms db role done = ground arith
