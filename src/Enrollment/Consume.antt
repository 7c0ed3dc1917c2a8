-- ===== src/Enrollment/Consume.antt =====
-- Consuming an enrollment: exactly when it succeeds, that it never succeeds twice, and which
-- approvals must have come before it.
use hermes_device_protocol.Enrollment.Invariant.{
  All-allowed, IsWellFormed, consume-IsWellFormed_call, perform_all-IsWellFormed,
}
use mathlib.Core.Path.{subst}
use hermes_device_protocol.Enrollment.Keeps.{IsKept, perform_all-Keeps}
use hermes_device_protocol.Enrollment.Marks.{
  IsMarked, block-IsMarked, consume-IsMarked, live-IsMarked, start-IsMarked,
}
use hermes_device_protocol.Prelude.Transaction.{
  transaction, transaction-result, transaction_ok, with_value,
}
use hermes_device_protocol.Prelude.{
  Bool, List, Option, Option-cases, String, ap, arith, false, if◌then◌else◌, inl, inr, is_some, ltb,
  none, not, refl, some, str_eq, sym, true, ℕ, ◌&&◌, ◌∙◌, ◌≡◌,
}
use hermes_device_protocol.Prelude.Sql.{fetchone-update, fetchone_holds, rowcount_unique}
use hermes_device_protocol.Prelude.Result.{Result, Result-cases, err, ok, ◌>>=◌}
use hermes_device_protocol.Store.{EnrollmentDb, PendingEnrollment, Python, Role, Text, denied}
use hermes_device_protocol.Enrollment.{
  EnrollmentError, by_candidate, by_primary, has_identifier, identifier_hash, is_approved, is_open,
  not_found, not_ready, set_state,
}
use hermes_device_protocol.Enrollment.Finish.{
  Call, consume, consume_body, consume_row, is_ready, perform_all,
}
use hermes_device_protocol.Enrollment.Table.{IsKeyed, consume_body_ok, row, where_ready}

-- An enrollment that may be consumed: in time and still open to it, approved by both sides, and
-- presented with the keys that it was started for.
abbrev pub is_due : String → String → ℕ → PendingEnrollment → Bool
is_due host candidate now_ms r =
    (ltb now_ms r.expires_at && is_approved r.state)
    && ((is_some r.primary_approved_at && is_some r.candidate_approved_at)
        && (str_eq r.candidate_key_fingerprint candidate && str_eq r.host_key_fingerprint host))

-- What consuming an enrollment answers, read off its row.
abbrev pub verdict : String → String → ℕ → Option PendingEnrollment → Result EnrollmentError Role
verdict host candidate now_ms none = err not_found
verdict host candidate now_ms (some r) =
    if is_due host candidate now_ms r then ok r.target_role else err not_ready

is_due-is_ready :
    (host candidate : String) (now_ms : ℕ) (r : PendingEnrollment)
    → is_due host candidate now_ms r ≡ is_ready host candidate now_ms r
is_due-is_ready host candidate now_ms r = ground arith

abbrev ready_verdict : String → String → ℕ → Option PendingEnrollment → Result EnrollmentError Role
ready_verdict host candidate now_ms none = err not_found
ready_verdict host candidate now_ms (some r) =
    if is_ready host candidate now_ms r then ok r.target_role else err not_ready

verdict_lem :
    (host candidate : String) (now_ms : ℕ) (o : Option PendingEnrollment)
    → ready_verdict host candidate now_ms o ≡ verdict host candidate now_ms o
verdict_lem host candidate now_ms none = refl
verdict_lem host candidate now_ms (some r) =
    ap (λ b. if b then ok r.target_role else err not_ready)
      (sym (is_due-is_ready host candidate now_ms r))

consume_body-ready_verdict :
    (h host candidate : String) (now_ms : ℕ) (db : EnrollmentDb)
    → IsKeyed db.pending_enrollments
    → (consume_body h host candidate now_ms db).0 ≡ ready_verdict host candidate now_ms (row h db)
unfolding consume_body
consume_body-ready_verdict h host candidate now_ms db keyed = ground (
  arith,
  keyed h,
  rowcount_unique (has_identifier h) (is_ready host candidate now_ms) db.pending_enrollments,
  fetchone-update (has_identifier h) (where_ready h host candidate now_ms) (consume_row now_ms)
      db.pending_enrollments (λ r. refl),
  fetchone_holds (has_identifier h) db.pending_enrollments,
)

consume_body-verdict :
    (h host candidate : String) (now_ms : ℕ) (db : EnrollmentDb)
    → IsKeyed db.pending_enrollments
    → (consume_body h host candidate now_ms db).0 ≡ verdict host candidate now_ms (row h db)
consume_body-verdict h host candidate now_ms db keyed =
    consume_body-ready_verdict h host candidate now_ms db keyed
    ∙ verdict_lem host candidate now_ms (row h db)

-- With unique identifiers, `consume` answers by the row of the identifier's hash alone: it returns
-- the row's role exactly when host key, candidate key, both approvals, the expiry and the state all
-- fit, and raises otherwise, as it does for an identifier that is empty or not ASCII.
pub consume-verdict :
    (py : Python) (i : Text) (host candidate : String) (now_ms : ℕ) (db : EnrollmentDb)
    → IsKeyed db.pending_enrollments
    → (consume py i host candidate now_ms db).0
      ≡ (identifier_hash py i >>= λ h. verdict host candidate now_ms (row h db))
unfolding consume
consume-verdict py i host candidate now_ms db keyed = on_hash (identifier_hash py i)
  where
    on_hash :
        (hashed : Result EnrollmentError String)
        → (with_value hashed (λ h. transaction (consume_body h host candidate now_ms)) db).0
          ≡ (hashed >>= λ h. verdict host candidate now_ms (row h db))
    on_hash (ok h) =
        transaction-result (consume_body h host candidate now_ms) db
        ∙ consume_body-verdict h host candidate now_ms db keyed
    on_hash (err e) = refl

abbrev is_closed : PendingEnrollment → Bool
is_closed r = not (is_open r.state)

closed-IsKept : (py : Python) (h : String) → IsKept py (λ _. true) (IsMarked false is_closed h)
closed-IsKept py h = record {
  starts_kept = λ k host candidate now_ms.
      start-IsMarked false is_closed h k host candidate now_ms (λ r _. refl)
        (λ e. absurd (ground arith));
  candidate_kept = λ i k now_ms _ _.
      live-IsMarked false is_closed h k now_ms (by_candidate now_ms) (λ r. refl)
        (λ r _ m q. ground arith);
  primary_kept = λ i k device_id now_ms _ _.
      live-IsMarked false is_closed h k now_ms (by_primary device_id now_ms) (λ r. refl)
        (λ r _ m q. ground arith);
  denied_kept = λ k now_ms.
      live-IsMarked false is_closed h k now_ms (set_state denied) (λ r. refl) (λ r _ m q. refl);
  blocked_kept =
      λ k device_id now_ms. block-IsMarked false is_closed h k device_id now_ms (λ r m q. refl);
  consumed_kept = λ k host candidate now_ms.
      consume-IsMarked false is_closed h k host candidate now_ms (λ r m q. refl);
  devices_kept = λ db devices m. m;
}

closed_refused :
    (h host candidate : String) (now_ms : ℕ) (db : EnrollmentDb)
    → IsMarked false is_closed h db
    → verdict host candidate now_ms (row h db) ≡ err not_ready
closed_refused h host candidate now_ms db closed = elim (Option-cases (row h db)) [
  | inl e ↦ absurd (ground arith)
  | inr (r, e) ↦ ap (verdict host candidate now_ms) e ∙ ground arith
]

pub verdict_ready :
    (h host candidate : String) (now_ms : ℕ) (db : EnrollmentDb) (role : Role)
    → verdict host candidate now_ms (row h db) ≡ ok role
    → (r : PendingEnrollment) × (row h db ≡ some r)
      × (where_ready h host candidate now_ms r ≡ true)
      × (r.target_role ≡ role)
verdict_ready h host candidate now_ms db role answer = elim (Option-cases (row h db)) [
  | inl e ↦ absurd (ground arith)
  | inr (r, e) ↦
      let held = fetchone_holds (has_identifier h) db.pending_enrollments r e in
      (r, e, ground arith, ground arith)
]

-- A successful consumption closes the row of its identifier.
pub consumed_closed :
    (h host candidate : String) (now_ms : ℕ) (db : EnrollmentDb) (role : Role)
    → IsKeyed db.pending_enrollments
    → (consume_body h host candidate now_ms db).0 ≡ ok role
    → IsMarked false is_closed h (consume_body h host candidate now_ms db).1
consumed_closed h host candidate now_ms db role keyed done =
    let written = (consume_body_ok h host candidate now_ms db role done).1 in
    let (r, found, ready, _) =
      verdict_ready h host candidate now_ms db role
        (sym (consume_body-verdict h host candidate now_ms db keyed) ∙ done) in
    subst (IsMarked false is_closed h) (sym written) (
      ground (
        arith,
        fetchone-update (has_identifier h) (where_ready h host candidate now_ms)
            (consume_row now_ms) db.pending_enrollments (λ r. refl),
      ))

consume_at :
    (py : Python) (i : Text) (h host candidate : String) (now_ms : ℕ) (db : EnrollmentDb)
    → identifier_hash py i ≡ ok h
    → consume py i host candidate now_ms db ≡ transaction (consume_body h host candidate now_ms) db
unfolding consume
consume_at py i h host candidate now_ms db hashed =
    ap (λ r. with_value r (λ k. transaction (consume_body k host candidate now_ms)) db) hashed

consume_unhashed :
    (py : Python) (i : Text) (e : EnrollmentError) (host candidate : String) (now_ms : ℕ)
    (db : EnrollmentDb)
    → identifier_hash py i ≡ err e
    → (consume py i host candidate now_ms db).0 ≡ err e
unfolding consume
consume_unhashed py i e host candidate now_ms db failed =
    ap (λ r. (with_value r (λ k. transaction (consume_body k host candidate now_ms)) db).0) failed

-- In a well-formed store, an enrollment that was consumed is never consumed again: whatever calls
-- and device changes follow, and whichever keys and time the second attempt presents, it raises
-- EnrollmentNotReadyError.
pub consumed_forever :
    (py : Python) (i : Text) (host candidate : String) (now_ms : ℕ) (db : EnrollmentDb)
    (role : Role) (calls : List Call) (host' candidate' : String) (later_ms : ℕ)
    → IsWellFormed db
    → (consume py i host candidate now_ms db).0 ≡ ok role
    → (consume py i host' candidate' later_ms
        (perform_all py calls (consume py i host candidate now_ms db).1)).0
      ≡ err not_ready
consumed_forever py i host candidate now_ms db role calls host' candidate' later_ms wf done =
    elim (Result-cases (identifier_hash py i)) [
      | inr (e, failed) ↦
          absurd (ground (arith, consume_unhashed py i e host candidate now_ms db failed))
      | inl (h, hashed) ↦
          let body = consume_body h host candidate now_ms in
          let at_body = consume_at py i h host candidate now_ms db hashed in
          let returned =
            ap (λ (p : Result EnrollmentError Role × EnrollmentDb). p.0) (sym at_body) ∙ done in
          let after =
            ap (λ (p : Result EnrollmentError Role × EnrollmentDb). p.1) at_body
            ∙ transaction_ok body db role returned in
          let closed =
            consumed_closed h host candidate now_ms db role wf.keyed
              (sym (transaction-result body db) ∙ returned) in
          let closed_now = subst (IsMarked false is_closed h) (sym after) closed in
          let later = perform_all py calls (consume py i host candidate now_ms db).1 in
          let wf_after = consume-IsWellFormed_call py i host candidate now_ms db wf in
          consume-verdict py i host' candidate' later_ms later
            (perform_all-IsWellFormed py calls _ wf_after).keyed
          ∙ ap (λ r. r >>= λ k. verdict host' candidate' later_ms (row k later)) hashed
          ∙ closed_refused h host' candidate' later_ms later (
              perform_all-Keeps py (λ _. true) (IsMarked false is_closed h) (closed-IsKept py h)
                calls _ (All-allowed calls) closed_now)
    ]
