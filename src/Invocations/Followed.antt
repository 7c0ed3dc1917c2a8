-- ===== src/Invocations/Followed.antt =====
-- Each method of the table, and each assignment of a caller, keeps the object of an invocation and the
-- outcome of its futures.
use hermes_device_protocol.Prelude.Sql.{fetchone-append, fetchone-update, fetchone_holds, update}
use hermes_device_protocol.Prelude.{
  Bool, Bool-cases, Option, Option-cases, String, [], arith, eq_iff, false, if◌then◌else◌, inl, inr,
  none, not, refl, some, str_eq, ℕ, ◌||◌, ◌∷◌, ◌≡◌,
}
use hermes_device_protocol.Invocations.Later.{
  IsLater, IsLater-refl, fail_entry-IsLater, find, settle-Stands,
}
use hermes_device_protocol.Invocations.Fail.{fail_rows}
use hermes_device_protocol.Invocations.Once.{IsFresh}
use hermes_device_protocol.Invocations.Callers.{touch}
use hermes_device_protocol.Invocations.Table.{
  IsOnce, fetchone-delete_id, left, pending_not_gone, row,
}
use hermes_device_protocol.Invocations.{
  Entry, InvocationsMem, Op, PendingInvocation, acknowledge, acks, expire, expires, fail,
  fail_entry, fails, has_id, is_done, is_from, is_target, mark_acked, mint_for, mints, new_entry,
  remove, resolve, resolved, resolves, step, with_result,
}
use mathlib.Core.Path.{subst}

-- The object under an identifier is still there, and later.
abbrev pub Follows : String → InvocationsMem → InvocationsMem → Type 0
Follows i before after =
    (p : Entry) → find i before ≡ some p → (q : Entry) × (find i after ≡ some q) × IsLater p.1 q.1

remove-Follows :
    (i k : String) (entry : PendingInvocation) (old : Entry) (mem : InvocationsMem)
    → IsOnce mem
    → row k mem ≡ some old
    → IsLater old.1 entry
    → Follows i mem (remove k entry mem)
remove-Follows i k entry old mem once found later p at = elim (Bool-cases (str_eq k i)) [
  | inl e ↦
      let found_i : row i mem ≡ some old = rw ((eq_iff k i).0 e) at found in
      let same : old ≡ p = ground (arith) in
      (
        (k, entry),
        ground (
          arith,
          fetchone-delete_id i k mem.pending,
          fetchone-append (has_id i) mem.gone ((k, entry) ∷ []),
          pending_not_gone i mem old once found_i,
        ),
        subst (λ (x : Entry). IsLater x.1 entry) same later,
      )
  | inr e ↦ (
    p,
    ground (
      arith,
      fetchone-delete_id i k mem.pending,
      fetchone-append (has_id i) mem.gone ((k, entry) ∷ []),
    ),
    IsLater-refl p.1,
  )
]

mint_for-Follows :
    (k device_id capability : String) (version : ℕ) (connection : Option ℕ) (i : String)
    (mem : InvocationsMem)
    → row k mem ≡ none
    → left k mem ≡ none
    → Follows i mem (mint_for k device_id capability version connection mem)
unfolding mint_for
mint_for-Follows k device_id capability version connection i mem absent unused p at =
    let entry = new_entry device_id capability version connection in
    rw absent (
      p,
      elim (Bool-cases (str_eq k i)) [
        | inl e ↦
            let absent_i : row i mem ≡ none = rw ((eq_iff k i).0 e) at absent in
            let unused_i : left i mem ≡ none = rw ((eq_iff k i).0 e) at unused in
            absurd (ground arith)
        | inr e ↦ ground (arith, fetchone-append (has_id i) mem.pending ((k, entry) ∷ []))
      ],
      IsLater-refl p.1,
    )

mark_acked-Follows :
    (k : String) (connection : Option ℕ) (i : String) (mem : InvocationsMem)
    → Follows i mem (mark_acked k connection mem).1
unfolding mark_acked
mark_acked-Follows k connection i mem p at = elim (Option-cases (row k mem)) [
  | inl e ↦ rw e (p, at, IsLater-refl p.1)
  | inr (old, e) ↦
      rw e (elim (Bool-cases (is_done old.1.ack_future || not (is_from connection old.1))) [
        | inl refused ↦ rw refused (p, at, IsLater-refl p.1)
        | inr taken ↦ rw taken (acked old e (ground arith))
      ])
]
  where
    acked :
        (old : Entry)
        → row k mem ≡ some old
        → is_done old.1.ack_future ≡ false
        → (q : Entry) × (find i (record mem { pending = update (has_id k) acknowledge mem.pending })
            ≡ some q)
          × IsLater p.1 q.1
    acked old found first =
        let seen = fetchone-update (has_id i) (has_id k) acknowledge mem.pending (λ r. refl) in
        elim (Option-cases (row i mem)) [
          | inl e ↦ (p, ground (arith, seen), IsLater-refl p.1)
          | inr (r, e) ↦
              let same : r ≡ p = ground arith in
              elim (Bool-cases (has_id k p)) [
                | inl is_k ↦
                    let key = fetchone_holds (has_id i) mem.pending r e in
                    let one : k ≡ i = ground (arith, eq_iff p.0 k, eq_iff r.0 i) in
                    let found_i : row i mem ≡ some old = rw one at found in
                    let first_p : is_done p.1.ack_future ≡ false = ground arith in
                    (
                      acknowledge p,
                      ground (arith, seen),
                      (λ done. absurd (ground arith), λ _. refl, λ _. refl),
                    )
                | inr is_other ↦ (p, ground (arith, seen), IsLater-refl p.1)
              ]
        ]

with_result-IsLater : (result : String) (e : PendingInvocation) → IsLater e (with_result result e)
with_result-IsLater result e =
    (λ _. refl, settle-Stands (resolved result) e.result_future, λ _. refl)

resolve-Follows :
    (k result : String) (connection : Option ℕ) (i : String) (mem : InvocationsMem)
    → IsOnce mem
    → Follows i mem (resolve k result connection mem).1
unfolding resolve
resolve-Follows k result connection i mem once p at = elim (Option-cases (row k mem)) [
  | inl e ↦ rw e (p, at, IsLater-refl p.1)
  | inr (old, e) ↦
      let taken =
        remove-Follows i k (with_result result old.1) old mem once e
          (with_result-IsLater result old.1) p at in
      rw e (elim (Bool-cases (not (is_from connection old.1))) [
        | inl e' ↦ rw e' (p, at, IsLater-refl p.1)
        | inr e' ↦ rw e' taken
      ])
]

expire-Follows : (k i : String) (mem : InvocationsMem) → IsOnce mem → Follows i mem (expire k mem).1
unfolding expire
expire-Follows k i mem once p at = elim (Option-cases (row k mem)) [
  | inl e ↦ rw e (p, at, IsLater-refl p.1)
  | inr (old, e) ↦
      let taken = remove-Follows i k old.1 old mem once e (IsLater-refl old.1) p at in rw e taken
]

fail-Follows :
    (device_id : Option String) (connection : Option ℕ) (reason : String) (fail_both : Bool)
    (i : String) (mem : InvocationsMem)
    → IsOnce mem
    → Follows i mem (fail device_id connection reason fail_both mem).1
fail-Follows device_id connection reason fail_both i mem once p at =
    let (at_row, at_gone, _) = fail_rows device_id connection reason fail_both i mem once in
    elim (Option-cases (row i mem)) [
      | inl e ↦ (p, ground (arith, at_row, at_gone), IsLater-refl p.1)
      | inr (r, e) ↦
          let same : r ≡ p = ground arith in
          let found : row i mem ≡ some p = ground arith in
          elim (Bool-cases (is_target device_id connection p)) [
            | inl target ↦ (
              (p.0, fail_entry reason fail_both p.1),
              ground (arith, at_row, at_gone),
              fail_entry-IsLater reason fail_both p.1,
            )
            | inr spared ↦ (p, ground (arith, at_row, at_gone), IsLater-refl p.1)
          ]
    ]

pub step-Follows :
    (op : Op) (i : String) (mem : InvocationsMem)
    → IsFresh op mem
    → IsOnce mem
    → Follows i mem (step op mem)
unfolding step
step-Follows (mints k device_id capability version connection) i mem fresh once =
    mint_for-Follows k device_id capability version connection i mem fresh.0 fresh.1
step-Follows (acks k connection) i mem _ once = mark_acked-Follows k connection i mem
step-Follows (resolves k result connection) i mem _ once =
    resolve-Follows k result connection i mem once
step-Follows (expires k) i mem _ once = expire-Follows k i mem once
step-Follows (fails device_id connection reason fail_both) i mem _ once =
    fail-Follows device_id connection reason fail_both i mem once

pub touch-Follows :
    (k : String) (f : PendingInvocation → PendingInvocation) (i : String) (mem : InvocationsMem)
    → ((e : PendingInvocation) → IsLater e (f e))
    → Follows i mem (touch k f mem)
touch-Follows k f i mem later p at =
    let touched : Entry → Entry = λ r. (r.0, f r.1) in
    let in_table = fetchone-update (has_id i) (has_id k) touched mem.pending (λ r. refl) in
    let in_gone = fetchone-update (has_id i) (has_id k) touched mem.gone (λ r. refl) in
    let seen : find i (touch k f mem) ≡ some (if has_id k p then (p.0, f p.1) else p) =
      ground (arith, in_table, in_gone) in
    (
      if has_id k p then (p.0, f p.1) else p,
      seen,
      elim (Bool-cases (has_id k p)) [ inl e ↦ rw e (later p.1) | inr e ↦ rw e (IsLater-refl p.1) ],
    )
