-- ===== src/Enrollment/Invariant.antt =====
-- What holds of the enrollment tables whatever calls were made: one live enrollment at most, unique
-- identifiers, and states that agree with the recorded approvals.
use mathlib.Core.Path.{subst}
use hermes_device_protocol.Enrollment.Keeps.{IsKept, perform-Keeps, perform_all-Keeps}
use hermes_device_protocol.Enrollment.Finish.{
  Call, block_body, consume, consume_body, consume_row, consumes, no_enrollments, perform,
  perform_all,
}
use hermes_device_protocol.Prelude.{
  All, All-append, Bool, Bool-cases, List, String, [], ap, arith, eq_iff, false, inl, inr, is_some,
  none, refl, str_eq, sym, true, ℕ, ◌++◌, ◌∷◌, ◌≡◌, ◌≤◌,
}
use hermes_device_protocol.Prelude.Sql.{
  All-update, fetchone, rowcount, rowcount-append, rowcount-update, rowcount-update-le,
  rowcount-none, update,
}
use hermes_device_protocol.Prelude.Transaction.{KeepsOk}
use hermes_device_protocol.Store.{
  EnrollmentDb, PendingEnrollment, Python, Text, blocked, candidate_approved, consumed, denied,
  expired, pending, primary_approved, secondary,
}
use hermes_device_protocol.Enrollment.{
  by_candidate, by_primary, has_identifier, has_primary, is_open, is_stale, new_row, put_rows,
  set_state, start_body, update_live,
}
use hermes_device_protocol.Enrollment.Table.{
  IsKeyed, block_body_ok, consume_body_ok, start_body_ok, swept, update_live_ok, where_live,
  where_ready,
}

abbrev pub open_row : PendingEnrollment → Bool
open_row r = is_open r.state

pub All-allowed : (calls : List Call) → All (λ c. true ≡ true) calls
All-allowed [] = tt
All-allowed (c ∷ calls) = (refl, All-allowed calls)

-- How the state of a row agrees with its columns.
abbrev pub IsSound : PendingEnrollment → Type 0
IsSound r =
    (r.state ≡ pending → (r.candidate_approved_at ≡ none) × (r.primary_approved_at ≡ none))
    × (r.state ≡ candidate_approved → is_some r.candidate_approved_at ≡ true)
    × (r.state ≡ primary_approved → is_some r.primary_approved_at ≡ true)
    × (r.state ≡ consumed
        → (is_some r.candidate_approved_at ≡ true)
          × (is_some r.primary_approved_at ≡ true)
          × (is_some r.consumed_at ≡ true))
    × (r.target_role ≡ secondary
        → is_some r.primary_approved_at ≡ true
        → is_some r.primary_device_id ≡ true)

pub record IsWellFormed (db : EnrollmentDb) : Type 0 where
  pub keyed : IsKeyed db.pending_enrollments
  pub one_open : rowcount open_row db.pending_enrollments ≤ 1
  pub sound : All IsSound db.pending_enrollments

-- An UPDATE that keeps the identifiers, opens no row and keeps rows sound.
update-IsWellFormed :
    (q : PendingEnrollment → Bool) (f : PendingEnrollment → PendingEnrollment) (db : EnrollmentDb)
    → ((r : PendingEnrollment) → (f r).identifier_hash ≡ r.identifier_hash)
    → ((r : PendingEnrollment) → q r ≡ true → is_open (f r).state ≡ true → is_open r.state ≡ true)
    → ((r : PendingEnrollment) → IsSound r → q r ≡ true → IsSound (f r))
    → IsWellFormed db
    → IsWellFormed (put_rows db (update q f db.pending_enrollments))
update-IsWellFormed q f db same opens sound wf = record {
  keyed = λ h. omega (
    arith,
    wf.keyed h,
    rowcount-update (has_identifier h) q f db.pending_enrollments
        (λ r. ap (λ k. str_eq k h) (same r)),
  );
  one_open =
      omega (arith, wf.one_open, rowcount-update-le open_row q f db.pending_enrollments opens);
  sound = All-update IsSound q f db.pending_enrollments sound wf.sound;
}

insert-IsWellFormed :
    (r : PendingEnrollment) (db : EnrollmentDb)
    → fetchone (has_identifier r.identifier_hash) db.pending_enrollments ≡ none
    → fetchone open_row db.pending_enrollments ≡ none
    → IsSound r
    → IsWellFormed db
    → IsWellFormed (put_rows db (db.pending_enrollments ++ (r ∷ [])))
insert-IsWellFormed r db absent none_open sound wf = record {
  keyed = λ h. elim (Bool-cases (str_eq r.identifier_hash h)) [
    | inl e ↦
        let absent_h : fetchone (has_identifier h) db.pending_enrollments ≡ none =
          rw ((eq_iff r.identifier_hash h).0 e) at absent in
        ground (
          arith,
          rowcount-append (has_identifier h) db.pending_enrollments (r ∷ []),
          rowcount-none (has_identifier h) db.pending_enrollments absent_h,
        )
    | inr e ↦
        ground
          (arith, rowcount-append (has_identifier h) db.pending_enrollments (r ∷ []), wf.keyed h)
  ];
  one_open = ground (
    arith,
    rowcount-append open_row db.pending_enrollments (r ∷ []),
    rowcount-none open_row db.pending_enrollments none_open,
  );
  sound = All-append IsSound db.pending_enrollments (r ∷ []) wf.sound (sound, tt);
}

new_row-IsSound :
    (known : Bool) (h host candidate : String) (now_ms : ℕ)
    → IsSound (new_row known h host candidate now_ms)
new_row-IsSound true h host candidate now_ms = ground arith
new_row-IsSound false h host candidate now_ms = ground arith

swept-IsWellFormed :
    (now_ms : ℕ) (db : EnrollmentDb)
    → IsWellFormed db
    → IsWellFormed (put_rows db (swept now_ms db.pending_enrollments))
swept-IsWellFormed now_ms db =
    update-IsWellFormed (is_stale now_ms) (set_state expired) db (λ r. refl) (λ r _ e. cc)
      (λ r s _. ground arith)

start-IsWellFormed :
    (h host candidate : String) (now_ms : ℕ)
    → KeepsOk IsWellFormed (start_body h host candidate now_ms)
start-IsWellFormed h host candidate now_ms db u wf done =
    let st = start_body_ok h host candidate now_ms db u done in
    subst IsWellFormed (sym st.written) (
      insert-IsWellFormed (new_row (has_primary db) h host candidate now_ms)
        (put_rows db (swept now_ms db.pending_enrollments)) st.new_key st.none_open
        (new_row-IsSound (has_primary db) h host candidate now_ms)
        (swept-IsWellFormed now_ms db wf))

live-IsWellFormed :
    (h : String) (now_ms : ℕ) (f : PendingEnrollment → PendingEnrollment)
    → ((r : PendingEnrollment) → (f r).identifier_hash ≡ r.identifier_hash)
    → ((r : PendingEnrollment) → IsSound r → is_open r.state ≡ true → IsSound (f r))
    → KeepsOk IsWellFormed (update_live h now_ms f)
live-IsWellFormed h now_ms f same sound db u wf done =
    subst IsWellFormed (sym (update_live_ok h now_ms f db u done).1) (
      update-IsWellFormed (where_live h now_ms) f db same (λ r q _. ground arith)
        (λ r s q. sound r s (ground arith)) wf)

block-IsWellFormed :
    (h device_id : String) (now_ms : ℕ) → KeepsOk IsWellFormed (block_body h device_id now_ms)
block-IsWellFormed h device_id now_ms db u wf done =
    let kept =
      update-IsWellFormed (where_live h now_ms) (set_state blocked) db (λ r. refl)
        (λ r q _. ground arith) (λ r s q. ground arith) wf in
    subst IsWellFormed (sym (block_body_ok h device_id now_ms db u done))
      (record { keyed = kept.keyed; one_open = kept.one_open; sound = kept.sound })

consume-IsWellFormed :
    (h host candidate : String) (now_ms : ℕ)
    → KeepsOk IsWellFormed (consume_body h host candidate now_ms)
consume-IsWellFormed h host candidate now_ms db role wf done =
    subst IsWellFormed (sym (consume_body_ok h host candidate now_ms db role done).1) (
      update-IsWellFormed (where_ready h host candidate now_ms) (consume_row now_ms) db (λ r. refl)
        (λ r q e. cc) (λ r s q. ground arith) wf)

IsWellFormed-IsKept : (py : Python) → IsKept py (λ _. true) IsWellFormed
IsWellFormed-IsKept py = record {
  starts_kept = start-IsWellFormed;
  candidate_kept = λ i h now_ms _ _.
      live-IsWellFormed h now_ms (by_candidate now_ms) (λ r. refl) (λ r s o. ground arith);
  primary_kept = λ i h device_id now_ms _ _.
      live-IsWellFormed h now_ms (by_primary device_id now_ms) (λ r. refl) (λ r s o. ground arith);
  denied_kept =
      λ h now_ms. live-IsWellFormed h now_ms (set_state denied) (λ r. refl) (λ r s o. ground arith);
  blocked_kept = block-IsWellFormed;
  consumed_kept = consume-IsWellFormed;
  devices_kept =
      λ db devices wf. record { keyed = wf.keyed; one_open = wf.one_open; sound = wf.sound };
}

-- Whatever calls are made, in whatever order and at whatever times, and however the devices change
-- between them, a well-formed store of enrollments stays so: identifiers are unique, at most one
-- enrollment is open, and the state of each row agrees with its approvals. In particular a consumed
-- row has both approvals, and a secondary's primary approval names the device that gave it.
pub perform_all-IsWellFormed :
    (py : Python) (calls : List Call) (db : EnrollmentDb)
    → IsWellFormed db
    → IsWellFormed (perform_all py calls db)
perform_all-IsWellFormed py calls db =
    perform_all-Keeps py (λ _. true) IsWellFormed (IsWellFormed-IsKept py) calls db
      (All-allowed calls)

pub no_enrollments-IsWellFormed : IsWellFormed no_enrollments
no_enrollments-IsWellFormed = record {
  keyed = λ h. omega arith;
  one_open = omega arith;
  sound = tt;
}

pub consume-IsWellFormed_call :
    (py : Python) (i : Text) (host candidate : String) (now_ms : ℕ) (db : EnrollmentDb)
    → IsWellFormed db
    → IsWellFormed (consume py i host candidate now_ms db).1
consume-IsWellFormed_call py i host candidate now_ms db wf =
    unfold perform in
    perform-Keeps py (λ _. true) IsWellFormed (IsWellFormed-IsKept py)
      (consumes i host candidate now_ms) db refl wf
