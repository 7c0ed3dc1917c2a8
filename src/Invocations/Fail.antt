-- ===== src/Invocations/Fail.antt =====
-- Failing the invocations of a device or a connection: what the loop does, and that whoever waits for
-- one is interrupted.
use mathlib.Core.List.{append-nil, append_assoc}
use hermes_device_protocol.Invocations.Table.{
  IsOnce, IsWaiting, IsWellFormed, fetchone-delete_id, left, pending_not_gone, row,
}
use hermes_device_protocol.Invocations.{
  Entry, InvocationsMem, PendingInvocation, disconnected, fail, fail_entry, fail_loop, has_id,
  is_done, is_target, remove, resolved, waiting,
}
use hermes_device_protocol.Prelude.Sql.{
  fetchone, fetchone-All, fetchone-append, fetchone_unique, on_row, rowcount, rowcount_unique,
}
use hermes_device_protocol.Prelude.{
  Bool, Bool-cases, List, Option, Option-cases, String, [], ap, arith, if◌then◌else◌, inl, inr,
  none, refl, some, str_eq, sym, true, ℕ, ◌&&◌, ◌++◌, ◌∙◌, ◌∷◌, ◌≡◌, ◌≤◌,
}

module _ (device_id : Option String) (connection : Option ℕ) (reason : String)
    (fail_both : Bool) where
  abbrev pub failed_entry : Entry → Entry
  failed_entry p = (p.0, fail_entry reason fail_both p.1)

  -- The entries that are failed, in the table's order.
  unfoldable pub failed : List Entry → List Entry
  failed [] = []
  failed (p ∷ items) =
      let rest = failed items in
      if is_target device_id connection p then failed_entry p ∷ rest else rest

  unfoldable pub ids : List Entry → List String
  ids [] = []
  ids (p ∷ items) = p.0 ∷ ids items

  fetchone-failed :
      (k : String) (items : List Entry)
      → fetchone (has_id k) (failed items)
        ≡ on_row
            (fetchone (λ p. has_id k p && is_target device_id connection p) items)
            none
            (λ p. some (failed_entry p))
  unfolding failed
  fetchone-failed k [] = refl
  fetchone-failed k (p ∷ items) = ground (arith, fetchone-failed k items)

  fail_loop-gone :
      (items : List Entry) (mem : InvocationsMem)
      → (fail_loop device_id connection reason fail_both items mem).1.gone
        ≡ mem.gone ++ failed items
  unfolding fail_loop failed
  fail_loop-gone [] mem = sym (append-nil mem.gone)
  fail_loop-gone (p ∷ items) mem = elim (Bool-cases (is_target device_id connection p)) [
    | inl e ↦ rw e (
        fail_loop-gone items (remove p.0 (fail_entry reason fail_both p.1) mem)
        ∙ append_assoc mem.gone (failed_entry p ∷ []) (failed items))
    | inr e ↦ rw e (fail_loop-gone items mem)
  ]

  fail_loop-ids :
      (items : List Entry) (mem : InvocationsMem)
      → (fail_loop device_id connection reason fail_both items mem).0 ≡ ids (failed items)
  unfolding fail_loop failed ids
  fail_loop-ids [] mem = refl
  fail_loop-ids (p ∷ items) mem = elim (Bool-cases (is_target device_id connection p)) [
    | inl e ↦ rw e (ap (λ l. p.0 ∷ l) (fail_loop-ids items _))
    | inr e ↦ rw e (fail_loop-ids items mem)
  ]

  fail_loop-row :
      (k : String) (items : List Entry) (mem : InvocationsMem)
      → row k (fail_loop device_id connection reason fail_both items mem).1
        ≡ on_row
            (fetchone (λ p. has_id k p && is_target device_id connection p) items)
            (row k mem)
            (λ _. none)
  unfolding fail_loop
  fail_loop-row k [] mem = refl
  fail_loop-row k (p ∷ items) mem = elim (Bool-cases (is_target device_id connection p)) [
    | inl e ↦ rw e (
        ground (
          arith,
          fail_loop-row k items (remove p.0 (fail_entry reason fail_both p.1) mem),
          fetchone-delete_id k p.0 mem.pending,
        ))
    | inr e ↦ rw e (ground (arith, fail_loop-row k items mem))
  ]

  gone_after :
      (k : String) (mem : InvocationsMem)
      → IsOnce mem
      → fetchone (λ p. has_id k p && is_target device_id connection p) mem.pending
        ≡ on_row (row k mem) none (λ p. if is_target device_id connection p then some p else none)
      → on_row
          (left k mem)
          (on_row
            (fetchone (λ p. has_id k p && is_target device_id connection p) mem.pending)
            none
            (λ p. some (failed_entry p)))
          some
        ≡ on_row
            (row k mem)
            (left k mem)
            (λ p. if is_target device_id connection p then some (failed_entry p) else none)
  gone_after k mem once found = elim (Option-cases (row k mem)) [
    | inl e ↦ ground (arith, found)
    | inr (p, e) ↦ ground (arith, found, pending_not_gone k mem p once e)
  ]

  -- What failing does to each identifier, in terms of the loop's own test, and the names returned.
  pub fail_rows :
      (k : String) (mem : InvocationsMem)
      → IsOnce mem
      → let after = (fail device_id connection reason fail_both mem).1 in
        (row k after
          ≡ on_row
              (row k mem)
              none
              (λ p. if is_target device_id connection p then none else some p))
        × (left k after
            ≡ on_row
                (row k mem)
                (left k mem)
                (λ p. if is_target device_id connection p then some (failed_entry p) else none))
        × ((fail device_id connection reason fail_both mem).0 ≡ ids (failed mem.pending))
  unfolding fail
  fail_rows k mem once =
      let unique : rowcount (has_id k) mem.pending ≤ 1 = omega (arith, once k) in
      let found = fetchone_unique (has_id k) (is_target device_id connection) mem.pending unique in
      let at_row = fail_loop-row k mem.pending mem in
      let at_gone =
        ap (fetchone (has_id k)) (fail_loop-gone mem.pending mem)
        ∙ fetchone-append (has_id k) mem.gone (failed mem.pending)
        ∙ ap (λ o. on_row (left k mem) o some) (fetchone-failed k mem.pending) in
      (
        at_row ∙ ground (arith, found),
        at_gone ∙ gone_after k mem once found,
        fail_loop-ids mem.pending mem,
      )

  rowcount-ids :
      (k : String) (items : List Entry)
      → rowcount (λ s. str_eq s k) (ids (failed items))
        ≡ rowcount (λ p. has_id k p && is_target device_id connection p) items
  unfolding failed ids
  rowcount-ids k [] = refl
  rowcount-ids k (p ∷ items) = ground (arith, rowcount-ids k items)

  pub names_once :
      (k : String) (mem : InvocationsMem)
      → IsOnce mem
      → rowcount (λ s. str_eq s k) (fail device_id connection reason fail_both mem).0
        ≡ on_row (row k mem) 0 (λ p. if is_target device_id connection p then 1 else 0)
  unfolding fail
  names_once k mem once =
      let unique : rowcount (has_id k) mem.pending ≤ 1 = omega (arith, once k) in
      ap (rowcount (λ s. str_eq s k)) (fail_loop-ids mem.pending mem)
      ∙ rowcount-ids k mem.pending
      ∙ rowcount_unique (has_id k) (is_target device_id connection) mem.pending unique

-- In a well-formed table, failing an invocation of the given device and connection interrupts its
-- caller at once: the disconnect future has the reason; one that waits for the ack gets the
-- exception there; one that has it gets the exception on the result, and keeps the ack; and a
-- revocation, with `fail_both`, fails the result in both cases.
pub fail_interrupts :
    (device_id : Option String) (connection : Option ℕ) (reason : String) (fail_both : Bool)
    (k : String) (mem : InvocationsMem) (p : Entry)
    → IsWellFormed mem
    → row k mem ≡ some p
    → is_target device_id connection p ≡ true
    → (e : PendingInvocation) × (left k (fail device_id connection reason fail_both mem).1
        ≡ some (p.0, e))
      × (e.disconnect_future ≡ resolved reason)
      × (p.1.ack_future ≡ waiting → e.ack_future ≡ disconnected reason)
      × (is_done p.1.ack_future ≡ true
          → (e.result_future ≡ disconnected reason) × (e.ack_future ≡ p.1.ack_future))
      × (fail_both ≡ true → e.result_future ≡ disconnected reason)
unfolding fail_entry
fail_interrupts device_id connection reason fail_both k mem p wf found target =
    let (result_waits, disconnect_waits) =
      fetchone-All IsWaiting (has_id k) mem.pending p wf.waits found in
    let at_gone = (fail_rows device_id connection reason fail_both k mem wf.once).1 in
    (
      fail_entry reason fail_both p.1,
      at_gone ∙ ground arith,
      ground arith,
      λ first. ground arith,
      λ acked. (ground arith, ground arith),
      λ both. ground arith,
    )
