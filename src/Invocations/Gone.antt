-- ===== src/Invocations/Gone.antt =====
-- An invocation that has left the table stays out of it, whatever method is called.
use hermes_device_protocol.Prelude.Sql.{fetchone-append}
use hermes_device_protocol.Prelude.{
  Bool, Bool-cases, List, Option, Option-cases, String, [], arith, inl, inr, not, some, ℕ, ◌∷◌, ◌≡◌,
}
use hermes_device_protocol.Invocations.Table.{left, row}
use hermes_device_protocol.Invocations.{
  Entry, InvocationsMem, Op, PendingInvocation, acks, expire, expires, fail, fail_entry, fail_loop,
  fails, has_id, is_from, is_target, mark_acked, mint_for, mints, remove, resolve, resolves, step,
  with_result,
}

left-append :
    (i k : String) (entry : PendingInvocation) (mem : InvocationsMem) (p : Entry)
    → left i mem ≡ some p
    → left i (remove k entry mem) ≡ some p
left-append i k entry mem p found =
    ground (arith, fetchone-append (has_id i) mem.gone ((k, entry) ∷ []))

fail_loop-left :
    (device_id : Option String) (connection : Option ℕ) (reason : String) (fail_both : Bool)
    (i : String) (items : List Entry) (mem : InvocationsMem) (p : Entry)
    → left i mem ≡ some p
    → left i (fail_loop device_id connection reason fail_both items mem).1 ≡ some p
unfolding fail_loop
fail_loop-left device_id connection reason fail_both i [] mem p found = found
fail_loop-left device_id connection reason fail_both i (q ∷ items) mem p found =
    elim (Bool-cases (is_target device_id connection q)) [
      | inl e ↦ rw e (
          fail_loop-left device_id connection reason fail_both i items _ p
            (left-append i q.0 (fail_entry reason fail_both q.1) mem p found))
      | inr e ↦ rw e (fail_loop-left device_id connection reason fail_both i items mem p found)
    ]

mint_for-left :
    (k device_id capability : String) (version : ℕ) (connection : Option ℕ) (i : String)
    (mem : InvocationsMem) (p : Entry)
    → left i mem ≡ some p
    → left i (mint_for k device_id capability version connection mem) ≡ some p
unfolding mint_for
mint_for-left k device_id capability version connection i mem p found =
    elim (Option-cases (row k mem)) [
      | inl e ↦ rw e found
      | inr (old, e) ↦
          let kept : left i (remove old.0 old.1 mem) ≡ some p =
            left-append i old.0 old.1 mem p found in
          rw e kept
    ]

resolve-left :
    (k result : String) (connection : Option ℕ) (i : String) (mem : InvocationsMem) (p : Entry)
    → left i mem ≡ some p
    → left i (resolve k result connection mem).1 ≡ some p
unfolding resolve
resolve-left k result connection i mem p found = elim (Option-cases (row k mem)) [
  | inl e ↦ rw e found
  | inr (q, e) ↦
      let later = left-append i k (with_result result q.1) mem p found in
      rw e (elim (Bool-cases (not (is_from connection q.1))) [
        | inl e' ↦ rw e' found
        | inr e' ↦ rw e' later
      ])
]

expire-left :
    (k i : String) (mem : InvocationsMem) (p : Entry)
    → left i mem ≡ some p
    → left i (expire k mem).1 ≡ some p
unfolding expire
expire-left k i mem p found = elim (Option-cases (row k mem)) [
  | inl e ↦ rw e found
  | inr (q, e) ↦ let later = left-append i k q.1 mem p found in rw e later
]

pub step-left :
    (op : Op) (i : String) (mem : InvocationsMem) (p : Entry)
    → left i mem ≡ some p
    → left i (step op mem) ≡ some p
unfolding step mark_acked fail
step-left (mints k device_id capability version connection) i mem p found =
    mint_for-left k device_id capability version connection i mem p found
step-left (acks k connection) i mem p found = ground arith
step-left (resolves k result connection) i mem p found =
    resolve-left k result connection i mem p found
step-left (expires k) i mem p found = expire-left k i mem p found
step-left (fails device_id connection reason fail_both) i mem p found =
    fail_loop-left device_id connection reason fail_both i mem.pending mem p found
