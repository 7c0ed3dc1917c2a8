-- ===== src/Invocations/Once.antt =====
-- Every method keeps each identifier in one place.
use hermes_device_protocol.Prelude.Sql.{rowcount, rowcount-append, rowcount-none, rowcount-update}
use hermes_device_protocol.Prelude.{
  Bool, Bool-cases, List, Option, Option-cases, String, [], arith, eq_iff, eq_refl, inl, inr, none,
  not, refl, str_eq, ℕ, ◌||◌, ◌∷◌, ◌≡◌, ◌≤◌,
}
use hermes_device_protocol.Invocations.Table.{
  IsOnce, left, remove-IsOnce, row, rowcount-delete_id, rowcount_found,
}
use hermes_device_protocol.Invocations.{
  Entry, InvocationsMem, Op, PendingInvocation, acknowledge, acks, expire, expires, fail,
  fail_entry, fail_loop, fails, has_id, is_done, is_from, is_target, mark_acked, mint_for, mints,
  new_entry, remove, resolve, resolves, step, with_result,
}

-- `ids.new()` returns an identifier that was not used before.
abbrev pub IsFresh : Op → InvocationsMem → Type 0
IsFresh (mints i device_id capability version connection) mem =
    (row i mem ≡ none) × (left i mem ≡ none)
IsFresh _ mem = Unit {0}

unfoldable pub AllFresh : List Op → InvocationsMem → Type 0
unfolding step
AllFresh [] mem = Unit {0}
AllFresh (op ∷ ops) mem = IsFresh op mem × AllFresh ops (step op mem)

mint_for-IsOnce :
    (i device_id capability : String) (version : ℕ) (connection : Option ℕ) (mem : InvocationsMem)
    → row i mem ≡ none
    → left i mem ≡ none
    → IsOnce mem
    → IsOnce (mint_for i device_id capability version connection mem)
unfolding mint_for
mint_for-IsOnce i device_id capability version connection mem absent unused once = rw absent (λ k.
    elim (Bool-cases (str_eq i k)) [
      | inr e ↦ ground (
        arith,
        once k,
        rowcount-append (has_id k) mem.pending
            ((i, new_entry device_id capability version connection) ∷ []),
      )
      | inl e ↦
          let absent_k : row k mem ≡ none = rw ((eq_iff i k).0 e) at absent in
          let unused_k : left k mem ≡ none = rw ((eq_iff i k).0 e) at unused in
          ground (
            arith,
            rowcount-none (has_id k) mem.pending absent_k,
            rowcount-none (has_id k) mem.gone unused_k,
            rowcount-append (has_id k) mem.pending
                ((i, new_entry device_id capability version connection) ∷ []),
          )
    ])

mark_acked-IsOnce :
    (i : String) (connection : Option ℕ) (mem : InvocationsMem)
    → IsOnce mem
    → IsOnce (mark_acked i connection mem).1
unfolding mark_acked
mark_acked-IsOnce i connection mem once = elim (Option-cases (row i mem)) [
  | inl e ↦ rw e once
  | inr (p, e) ↦ rw e (elim (Bool-cases (is_done p.1.ack_future || not (is_from connection p.1))) [
    | inl e' ↦ rw e' once
    | inr e' ↦ rw e' (λ k.
        omega (
          arith,
          once k,
          rowcount-update (has_id k) (has_id i) acknowledge mem.pending (λ r. refl),
        ))
  ])
]

resolve-IsOnce :
    (i result : String) (connection : Option ℕ) (mem : InvocationsMem)
    → IsOnce mem
    → IsOnce (resolve i result connection mem).1
unfolding resolve
resolve-IsOnce i result connection mem once = elim (Option-cases (row i mem)) [
  | inl e ↦ rw e once
  | inr (p, e) ↦
      let kept =
        remove-IsOnce i (with_result result p.1) mem (rowcount_found i mem.pending p e) once in
      rw e (elim (Bool-cases (not (is_from connection p.1))) [
        | inl e' ↦ rw e' once
        | inr e' ↦ rw e' kept
      ])
]

expire-IsOnce : (i : String) (mem : InvocationsMem) → IsOnce mem → IsOnce (expire i mem).1
unfolding expire
expire-IsOnce i mem once = elim (Option-cases (row i mem)) [
  | inl e ↦ rw e once
  | inr (p, e) ↦
      let kept = remove-IsOnce i p.1 mem (rowcount_found i mem.pending p e) once in rw e kept
]

-- What is left of a copy of the items is still in the table.
abbrev StillThere : List Entry → InvocationsMem → Type 0
StillThere items mem = (k : String) → rowcount (has_id k) items ≤ rowcount (has_id k) mem.pending

remove-StillThere :
    (p : Entry) (items : List Entry) (entry : PendingInvocation) (mem : InvocationsMem)
    → IsOnce mem
    → StillThere (p ∷ items) mem
    → StillThere items (remove p.0 entry mem)
remove-StillThere p items entry mem once there k =
    ground (arith, once k, there k, rowcount-delete_id k p.0 mem.pending)

module _ (device_id : Option String) (connection : Option ℕ) (reason : String)
    (fail_both : Bool) where
  fail_loop-IsOnce :
      (items : List Entry) (mem : InvocationsMem)
      → StillThere items mem
      → IsOnce mem
      → IsOnce (fail_loop device_id connection reason fail_both items mem).1
  unfolding fail_loop
  fail_loop-IsOnce [] mem there once = once
  fail_loop-IsOnce (p ∷ items) mem there once =
      elim (Bool-cases (is_target device_id connection p)) [
        | inl e ↦
            let failed = fail_entry reason fail_both p.1 in
            let found : 1 ≤ rowcount (has_id p.0) mem.pending =
              ground (arith, there p.0, eq_refl p.0) in
            rw e (
              fail_loop-IsOnce items (remove p.0 failed mem)
                (remove-StillThere p items failed mem once there)
                (remove-IsOnce p.0 failed mem found once))
        | inr e ↦ rw e (fail_loop-IsOnce items mem (λ k. ground (arith, there k)) once)
      ]

  pub fail-IsOnce :
      (mem : InvocationsMem)
      → IsOnce mem
      → IsOnce (fail device_id connection reason fail_both mem).1
  unfolding fail
  fail-IsOnce mem once = fail_loop-IsOnce mem.pending mem (λ k. omega arith) once

pub step-IsOnce :
    (op : Op) (mem : InvocationsMem) → IsFresh op mem → IsOnce mem → IsOnce (step op mem)
unfolding step
step-IsOnce (mints i device_id capability version connection) mem fresh once =
    mint_for-IsOnce i device_id capability version connection mem fresh.0 fresh.1 once
step-IsOnce (acks i connection) mem _ once = mark_acked-IsOnce i connection mem once
step-IsOnce (resolves i result connection) mem _ once = resolve-IsOnce i result connection mem once
step-IsOnce (expires i) mem _ once = expire-IsOnce i mem once
step-IsOnce (fails device_id connection reason fail_both) mem _ once =
    fail-IsOnce device_id connection reason fail_both mem once
