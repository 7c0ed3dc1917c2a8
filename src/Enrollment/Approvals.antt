-- ===== src/Enrollment/Approvals.antt =====
-- Which approvals come before a consumption, who may give them, and the lock that a block leaves.
use hermes_device_protocol.Prelude.Sql.{on_row}
use hermes_device_protocol.Prelude.{
  All, Bool, Bool-cases, List, String, [], ap, arith, eq_iff, false, inl, inr, is_none, none, not,
  refl, some, str_eq, sym, true, ℕ, ◌||◌, ◌∙◌, ◌∷◌, ◌≡◌,
}
use hermes_device_protocol.Prelude.Result.{err, ok, ◌>>=◌}
use hermes_device_protocol.Store.{
  EnrollmentDb, PendingEnrollment, Python, Role, Text, denied, is_primary, secondary,
}
use hermes_device_protocol.Enrollment.{
  by_candidate, by_primary, has_identifier, identifier_hash, new_row, set_state,
}
use hermes_device_protocol.Enrollment.Finish.{
  Call, approves_candidate, approves_primary, consume, perform_all,
}
use hermes_device_protocol.Enrollment.Table.{row}
use hermes_device_protocol.Enrollment.Keeps.{IsKept, perform_all-Keeps}
use hermes_device_protocol.Enrollment.Marks.{
  IsMarked, block-IsMarked, consume-IsMarked, live-IsMarked, start-IsMarked,
}
use hermes_device_protocol.Enrollment.Invariant.{IsWellFormed, perform_all-IsWellFormed}
use hermes_device_protocol.Enrollment.Consume.{consume-verdict, verdict, verdict_ready}

abbrev pub any_call : (Call → Bool) → List Call → Bool
any_call p [] = false
any_call p (c ∷ calls) = p c || any_call p calls

module _ (py : Python) (h : String) where
  abbrev pub hashes_to : Text → Bool
  hashes_to i = elim (identifier_hash py i) [ ok k ↦ str_eq k h | err _ ↦ false ]

  -- a candidate's approval of the enrollment with the hash `h`
  abbrev pub is_candidate_approval : Call → Bool
  is_candidate_approval (approves_candidate i now_ms) = hashes_to i
  is_candidate_approval _ = false

  -- a primary's approval of it
  abbrev pub is_primary_approval : Call → Bool
  is_primary_approval (approves_primary i device_id now_ms) = hashes_to i
  is_primary_approval _ = false

  other_hash :
      (i : Text) (k : String) (r : PendingEnrollment)
      → identifier_hash py i ≡ ok k
      → not (hashes_to i) ≡ true
      → has_identifier h r ≡ true
      → has_identifier k r ≡ false
  other_hash i k r hashed other e =
      ground (arith, eq_iff r.identifier_hash h, eq_iff r.identifier_hash k, eq_iff k h)

  abbrev no_candidate : PendingEnrollment → Bool
  no_candidate r = is_none r.candidate_approved_at

  abbrev no_primary : PendingEnrollment → Bool
  no_primary r = is_primary r.target_role || is_none r.primary_approved_at

  no_candidate-IsKept :
      IsKept py (λ c. not (is_candidate_approval c)) (IsMarked true no_candidate h)
  no_candidate-IsKept = record {
    starts_kept = λ k host candidate now_ms.
        start-IsMarked true no_candidate h k host candidate now_ms (λ r m. m) (λ _ known. refl);
    candidate_kept = λ i k now_ms hashed other.
        live-IsMarked true no_candidate h k now_ms (by_candidate now_ms) (λ r. refl)
          (λ r e m q. ground (arith, other_hash i k r hashed other e));
    primary_kept = λ i k device_id now_ms _ _.
        live-IsMarked true no_candidate h k now_ms (by_primary device_id now_ms) (λ r. refl)
          (λ r _ m q. m);
    denied_kept = λ k now_ms.
        live-IsMarked true no_candidate h k now_ms (set_state denied) (λ r. refl) (λ r _ m q. m);
    blocked_kept =
        λ k device_id now_ms. block-IsMarked true no_candidate h k device_id now_ms (λ r m q. m);
    consumed_kept = λ k host candidate now_ms.
        consume-IsMarked true no_candidate h k host candidate now_ms (λ r m q. m);
    devices_kept = λ db devices m. m;
  }

  new_row-no_primary :
      (known : Bool) (k host candidate : String) (now_ms : ℕ)
      → no_primary (new_row known k host candidate now_ms) ≡ true
  new_row-no_primary true k host candidate now_ms = refl
  new_row-no_primary false k host candidate now_ms = refl

  no_primary-IsKept : IsKept py (λ c. not (is_primary_approval c)) (IsMarked true no_primary h)
  no_primary-IsKept = record {
    starts_kept = λ k host candidate now_ms.
        start-IsMarked true no_primary h k host candidate now_ms (λ r m. m)
          (λ _ known. new_row-no_primary known k host candidate now_ms);
    candidate_kept = λ i k now_ms _ _.
        live-IsMarked true no_primary h k now_ms (by_candidate now_ms) (λ r. refl) (λ r _ m q. m);
    primary_kept = λ i k device_id now_ms hashed other.
        live-IsMarked true no_primary h k now_ms (by_primary device_id now_ms) (λ r. refl)
          (λ r e m q. ground (arith, other_hash i k r hashed other e));
    denied_kept = λ k now_ms.
        live-IsMarked true no_primary h k now_ms (set_state denied) (λ r. refl) (λ r _ m q. m);
    blocked_kept =
        λ k device_id now_ms. block-IsMarked true no_primary h k device_id now_ms (λ r m q. m);
    consumed_kept = λ k host candidate now_ms.
        consume-IsMarked true no_primary h k host candidate now_ms (λ r m q. m);
    devices_kept = λ db devices m. m;
  }

none_of :
    (p : Call → Bool) (calls : List Call)
    → any_call p calls ≡ false
    → All (λ c. not (p c) ≡ true) calls
none_of p [] e = tt
none_of p (c ∷ calls) e = (ground arith, none_of p calls (ground arith))

unmarked :
    (m : PendingEnrollment → Bool) (h : String) (db : EnrollmentDb) (r : PendingEnrollment)
    → row h db ≡ some r
    → IsMarked true m h db
    → m r ≡ true
unmarked m h db r found marked = ground arith

-- Take a well-formed store that does not know the hash of an identifier, and let any calls run. If
-- consuming the identifier then returns a role, a candidate approval of it is among the calls; and
-- if the role is secondary, a primary approval of it is too.
pub approvals_precede :
    (py : Python) (i : Text) (h host candidate : String) (now_ms : ℕ) (db : EnrollmentDb)
    (calls : List Call) (role : Role)
    → IsWellFormed db
    → identifier_hash py i ≡ ok h
    → row h db ≡ none
    → (consume py i host candidate now_ms (perform_all py calls db)).0 ≡ ok role
    → (any_call (is_candidate_approval py h) calls ≡ true)
      × (role ≡ secondary → any_call (is_primary_approval py h) calls ≡ true)
approvals_precede py i h host candidate now_ms db calls role wf hashed unknown done =
    let after = perform_all py calls db in
    let answer =
      sym (ap (λ r. r >>= λ k. verdict host candidate now_ms (row k after)) hashed)
      ∙ sym (
          consume-verdict py i host candidate now_ms after
            (perform_all-IsWellFormed py calls db wf).keyed)
      ∙ done in
    let (r, found, ready, is_role) = verdict_ready h host candidate now_ms after role answer in
    (
      elim (Bool-cases (any_call (is_candidate_approval py h) calls)) [
        | inl some_call ↦ some_call
        | inr no_call ↦ absurd (
            ground (
              arith,
              unmarked (no_candidate py h) h after r found (
                  perform_all-Keeps py _ (IsMarked true (no_candidate py h) h)
                    (no_candidate-IsKept py h) calls db (none_of _ calls no_call)
                    (ap (λ o. on_row o true (no_candidate py h)) unknown)),
            ))
      ],
      λ secondary_role. elim (Bool-cases (any_call (is_primary_approval py h) calls)) [
        | inl some_call ↦ some_call
        | inr no_call ↦ absurd (
            ground (
              arith,
              unmarked (no_primary py h) h after r found (
                  perform_all-Keeps py _ (IsMarked true (no_primary py h) h)
                    (no_primary-IsKept py h) calls db (none_of _ calls no_call)
                    (ap (λ o. on_row o true (no_primary py h)) unknown)),
            ))
      ],
    )
