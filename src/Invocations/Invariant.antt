-- ===== src/Invocations/Invariant.antt =====
-- Every method keeps each identifier in one place, and settles the result and disconnect futures of an
-- entry only as it leaves the table.
use hermes_device_protocol.Invocations.Once.{AllFresh, IsFresh, step-IsOnce}
use hermes_device_protocol.Invocations.Table.{IsWaiting, IsWellFormed, row}
use hermes_device_protocol.Invocations.{
  Entry, InvocationsMem, Op, acknowledge, acks, expire, expires, fail, fail_entry, fail_loop, fails,
  has_id, is_done, is_from, is_target, mark_acked, mint_for, mints, remove, resolve, resolves, step,
  steps,
}
use hermes_device_protocol.Prelude.Sql.{All-delete, All-update}
use hermes_device_protocol.Prelude.{
  All, All-append, Bool, Bool-cases, List, Option, Option-cases, String, [], inl, inr, not, refl, ℕ,
  ◌||◌, ◌∷◌,
}

resolve-waits :
    (i result : String) (connection : Option ℕ) (mem : InvocationsMem)
    → All IsWaiting mem.pending
    → All IsWaiting (resolve i result connection mem).1.pending
unfolding resolve
resolve-waits i result connection mem waits = elim (Option-cases (row i mem)) [
  | inl e ↦ rw e waits
  | inr (p, e) ↦
      let kept = All-delete IsWaiting (has_id i) mem.pending waits in
      rw e (elim (Bool-cases (not (is_from connection p.1))) [
        | inl e' ↦ rw e' waits
        | inr e' ↦ rw e' kept
      ])
]

mark_acked-waits :
    (i : String) (connection : Option ℕ) (mem : InvocationsMem)
    → All IsWaiting mem.pending
    → All IsWaiting (mark_acked i connection mem).1.pending
unfolding mark_acked
mark_acked-waits i connection mem waits = elim (Option-cases (row i mem)) [
  | inl e ↦ rw e waits
  | inr (p, e) ↦
      let acked =
        All-update IsWaiting (has_id i) acknowledge mem.pending (λ r held _. held) waits in
      rw e (elim (Bool-cases (is_done p.1.ack_future || not (is_from connection p.1))) [
        | inl e' ↦ rw e' waits
        | inr e' ↦ rw e' acked
      ])
]

expire-waits :
    (i : String) (mem : InvocationsMem)
    → All IsWaiting mem.pending
    → All IsWaiting (expire i mem).1.pending
unfolding expire
expire-waits i mem waits = elim (Option-cases (row i mem)) [
  | inl e ↦ rw e waits
  | inr (p, e) ↦ let kept = All-delete IsWaiting (has_id i) mem.pending waits in rw e kept
]

fail_loop-waits :
    (device_id : Option String) (connection : Option ℕ) (reason : String) (fail_both : Bool)
    (items : List Entry) (mem : InvocationsMem)
    → All IsWaiting mem.pending
    → All IsWaiting (fail_loop device_id connection reason fail_both items mem).1.pending
unfolding fail_loop
fail_loop-waits device_id connection reason fail_both [] mem waits = waits
fail_loop-waits device_id connection reason fail_both (p ∷ items) mem waits =
    elim (Bool-cases (is_target device_id connection p)) [
      | inl e ↦ rw e (
          fail_loop-waits device_id connection reason fail_both items
            (remove p.0 (fail_entry reason fail_both p.1) mem)
            (All-delete IsWaiting (has_id p.0) mem.pending waits))
      | inr e ↦ rw e (fail_loop-waits device_id connection reason fail_both items mem waits)
    ]

step-waits :
    (op : Op) (mem : InvocationsMem)
    → IsFresh op mem
    → All IsWaiting mem.pending
    → All IsWaiting (step op mem).pending
unfolding step mint_for fail
step-waits (mints i device_id capability version connection) mem fresh waits =
    rw fresh.0 (All-append IsWaiting mem.pending _ waits ((refl, refl), tt))
step-waits (acks i connection) mem _ waits = mark_acked-waits i connection mem waits
step-waits (resolves i result connection) mem _ waits = resolve-waits i result connection mem waits
step-waits (expires i) mem _ waits = expire-waits i mem waits
step-waits (fails device_id connection reason fail_both) mem _ waits =
    fail_loop-waits device_id connection reason fail_both mem.pending mem waits

pub step-IsWellFormed :
    (op : Op) (mem : InvocationsMem)
    → IsFresh op mem
    → IsWellFormed mem
    → IsWellFormed (step op mem)
step-IsWellFormed op mem fresh wf = record {
  once = step-IsOnce op mem fresh wf.once;
  waits = step-waits op mem fresh wf.waits;
}

-- With fresh identifiers, any sequence of calls of the table's methods keeps it well-formed: an
-- identifier is in the table or gone, never both and never twice, and for an entry in the table
-- neither the result nor the disconnect future is settled.
pub steps-IsWellFormed :
    (ops : List Op) (mem : InvocationsMem)
    → AllFresh ops mem
    → IsWellFormed mem
    → IsWellFormed (steps ops mem)
unfolding steps AllFresh
steps-IsWellFormed [] mem _ wf = wf
steps-IsWellFormed (op ∷ ops) mem fresh wf =
    steps-IsWellFormed ops (step op mem) fresh.1 (step-IsWellFormed op mem fresh.0 wf)
