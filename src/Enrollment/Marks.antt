-- ===== src/Enrollment/Marks.antt =====
-- A test on the row of one identifier that every transaction keeps.
use mathlib.Core.Path.{subst}
use hermes_device_protocol.Prelude.{
  Bool, Option-cases, String, [], ap, arith, inl, inr, refl, str_eq, sym, true, ℕ, ◌∷◌, ◌≡◌,
}
use hermes_device_protocol.Prelude.Sql.{
  fetchone-append, fetchone-update, fetchone_holds, on_row, update,
}
use hermes_device_protocol.Prelude.Transaction.{KeepsOk}
use hermes_device_protocol.Store.{EnrollmentDb, PendingEnrollment, blocked, expired}
use hermes_device_protocol.Enrollment.{
  has_identifier, has_primary, is_stale, new_row, put_rows, set_state, start_body, update_live,
}
use hermes_device_protocol.Enrollment.Finish.{block_body, consume_body, consume_row}
use hermes_device_protocol.Enrollment.Table.{
  block_body_ok, consume_body_ok, row, start_body_ok, swept, update_live_ok, where_live,
  where_ready,
}

-- The row of `h` passes `m`; with no such row, `absent`.
abbrev pub IsMarked : Bool → (PendingEnrollment → Bool) → String → EnrollmentDb → Type 0
IsMarked absent m h db = on_row (row h db) absent m ≡ true

module _ (absent : Bool) (m : PendingEnrollment → Bool) (h : String) where
  pub update-IsMarked :
      (q : PendingEnrollment → Bool) (f : PendingEnrollment → PendingEnrollment) (db : EnrollmentDb)
      → ((r : PendingEnrollment) → (f r).identifier_hash ≡ r.identifier_hash)
      → ((r : PendingEnrollment)
          → has_identifier h r ≡ true
          → m r ≡ true
          → q r ≡ true
          → m (f r) ≡ true)
      → IsMarked absent m h db
      → IsMarked absent m h (put_rows db (update q f db.pending_enrollments))
  update-IsMarked q f db same step marked = elim (Option-cases (row h db)) [
    | inl e ↦ ground (
      arith,
      fetchone-update (has_identifier h) q f db.pending_enrollments
          (λ r. ap (λ k. str_eq k h) (same r)),
    )
    | inr (r, e) ↦ ground (
      arith,
      step r (fetchone_holds (has_identifier h) db.pending_enrollments r e),
      fetchone-update (has_identifier h) q f db.pending_enrollments
          (λ r. ap (λ k. str_eq k h) (same r)),
    )
  ]

  pub start-IsMarked :
      (k host candidate : String) (now_ms : ℕ)
      → ((r : PendingEnrollment) → m r ≡ true → m (set_state expired r) ≡ true)
      → (absent ≡ true → (known : Bool) → m (new_row known k host candidate now_ms) ≡ true)
      → KeepsOk (IsMarked absent m h) (start_body k host candidate now_ms)
  start-IsMarked k host candidate now_ms expires fresh db u marked done =
      let st = start_body_ok k host candidate now_ms db u done in
      let rows = swept now_ms db.pending_enrollments in
      let mid =
        update-IsMarked (is_stale now_ms) (set_state expired) db (λ r. refl)
          (λ r _ e _. expires r e) marked in
      subst (IsMarked absent m h) (sym st.written) (
        ground (
          arith,
          mid,
          λ (e : absent ≡ true). fresh e (has_primary db),
          fetchone-append (has_identifier h) rows
              (new_row (has_primary db) k host candidate now_ms ∷ []),
        ))

  pub live-IsMarked :
      (k : String) (now_ms : ℕ) (f : PendingEnrollment → PendingEnrollment)
      → ((r : PendingEnrollment) → (f r).identifier_hash ≡ r.identifier_hash)
      → ((r : PendingEnrollment)
          → has_identifier h r ≡ true
          → m r ≡ true
          → where_live k now_ms r ≡ true
          → m (f r) ≡ true)
      → KeepsOk (IsMarked absent m h) (update_live k now_ms f)
  live-IsMarked k now_ms f same step db u marked done =
      subst (IsMarked absent m h) (sym (update_live_ok k now_ms f db u done).1)
        (update-IsMarked (where_live k now_ms) f db same step marked)

  pub block-IsMarked :
      (k device_id : String) (now_ms : ℕ)
      → ((r : PendingEnrollment)
          → m r ≡ true
          → where_live k now_ms r ≡ true
          → m (set_state blocked r) ≡ true)
      → KeepsOk (IsMarked absent m h) (block_body k device_id now_ms)
  block-IsMarked k device_id now_ms step db u marked done =
      let mid =
        update-IsMarked (where_live k now_ms) (set_state blocked) db (λ r. refl)
          (λ r _ e q. step r e q) marked in
      subst (IsMarked absent m h) (sym (block_body_ok k device_id now_ms db u done)) mid

  pub consume-IsMarked :
      (k host candidate : String) (now_ms : ℕ)
      → ((r : PendingEnrollment)
          → m r ≡ true
          → where_ready k host candidate now_ms r ≡ true
          → m (consume_row now_ms r) ≡ true)
      → KeepsOk (IsMarked absent m h) (consume_body k host candidate now_ms)
  consume-IsMarked k host candidate now_ms step db role marked done =
      subst (IsMarked absent m h) (sym (consume_body_ok k host candidate now_ms db role done).1) (
        update-IsMarked (where_ready k host candidate now_ms) (consume_row now_ms) db (λ r. refl)
          (λ r _ e q. step r e q) marked)
