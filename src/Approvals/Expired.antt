-- ===== src/Approvals/Expired.antt =====
-- After an expiry pass no approval that pends is overdue.
use hermes_device_protocol.Approvals.Granted.{notify-grants, record_terminal-cases, with_row}
use mathlib.Core.Path.{subst}
use hermes_device_protocol.Approvals.{
  ApprovalManager, ApprovalResolution, ApprovalRow, PendingApproval, add_lapse, after_lapse,
  cons_lapse, expire_loop, expire_pending, is_invocation, is_row_of, lapse, notify, record_terminal,
  without,
}
use hermes_device_protocol.Prelude.Sql.{delete, fetchone, rowcount, rowcount-append}
use hermes_device_protocol.Prelude.{
  All, Bool, Bool-cases, List, Option, Option-cases, String, [], ap, arith, eq_iff, eq_refl, false,
  inl, inr, is_some, ltb, none, not, refl, some, sym, true, ℕ, ◌&&◌, ◌+◌, ◌||◌, ◌∙◌, ◌∷◌, ◌≡◌, ◌≤◌,
}

-- An expired item of the copy has the invocation's identifier.
abbrev expires_in : ℕ → List PendingApproval → PendingApproval → Bool
expires_in now items q =
    is_some (fetchone (λ p. is_invocation q.invocation_id p && not (ltb now p.expires_at)) items)

-- The approval is in time, or the rest of the loop takes it.
abbrev IsCovered : ℕ → List PendingApproval → PendingApproval → Type 0
IsCovered now items q = (ltb now q.expires_at || expires_in now items q) ≡ true

IsCovered-later :
    (now : ℕ) (p : PendingApproval) (items rows : List PendingApproval)
    → All (IsCovered now items) rows
    → All (IsCovered now (p ∷ items)) rows
IsCovered-later now p items [] covered = tt
IsCovered-later now p items (q ∷ rows) covered =
    (ground (arith, covered.0), IsCovered-later now p items rows covered.1)

All-IsCovered : (now : ℕ) (rows : List PendingApproval) → All (IsCovered now rows) rows
All-IsCovered now [] = tt
All-IsCovered now (q ∷ rows) = (
  ground (arith, eq_refl q.invocation_id),
  IsCovered-later now q rows rows (All-IsCovered now rows),
)

IsCovered-kept :
    (now : ℕ) (p : PendingApproval) (items rows : List PendingApproval)
    → ltb now p.expires_at ≡ true
    → All (IsCovered now (p ∷ items)) rows
    → All (IsCovered now items) rows
IsCovered-kept now p items [] early covered = tt
IsCovered-kept now p items (q ∷ rows) early covered =
    (ground (arith, covered.0), IsCovered-kept now p items rows early covered.1)

IsCovered-deleted :
    (now : ℕ) (p : PendingApproval) (items rows : List PendingApproval)
    → All (IsCovered now (p ∷ items)) rows
    → All (IsCovered now items) (delete (is_invocation p.invocation_id) rows)
IsCovered-deleted now p items [] covered = tt
IsCovered-deleted now p items (q ∷ rows) covered =
    elim (Bool-cases (is_invocation p.invocation_id q)) [
      | inl e ↦ rw e (IsCovered-deleted now p items rows covered.1)
      | inr e ↦ rw e (
        ground (
          arith,
          covered.0,
          eq_iff q.invocation_id p.invocation_id,
          eq_iff p.invocation_id q.invocation_id,
        ),
        IsCovered-deleted now p items rows covered.1,
      )
    ]

abbrev pub IsInTime : ℕ → PendingApproval → Type 0
IsInTime now q = ltb now q.expires_at ≡ true

IsCovered-IsInTime :
    (now : ℕ) (rows : List PendingApproval) → All (IsCovered now []) rows → All (IsInTime now) rows
IsCovered-IsInTime now [] covered = tt
IsCovered-IsInTime now (q ∷ rows) covered =
    (ground (arith, covered.0), IsCovered-IsInTime now rows covered.1)

expire_loop_early :
    (now : ℕ) (p : PendingApproval) (items : List PendingApproval) (m : ApprovalManager)
    → ltb now p.expires_at ≡ true
    → expire_loop now (p ∷ items) m ≡ expire_loop now items m
unfolding expire_loop
expire_loop_early now p items m early = rw early refl

expire_loop_due :
    (now : ℕ) (p : PendingApproval) (items : List PendingApproval) (m : ApprovalManager)
    → ltb now p.expires_at ≡ false
    → let taken = without p.invocation_id m in
      let recorded = record_terminal (lapse p) now taken in
      expire_loop now (p ∷ items) m
      ≡ add_lapse p taken recorded (expire_loop now items (after_lapse p taken recorded))
unfolding expire_loop
expire_loop_due now p items m due = rw due refl

expire_loop-InTime :
    (now : ℕ) (items : List PendingApproval) (m : ApprovalManager) (rs : List ApprovalResolution)
    → (expire_loop now items m).0 ≡ some rs
    → All (IsCovered now items) m.pending
    → All (IsInTime now) (expire_loop now items m).1.pending
unfolding expire_loop
expire_loop-InTime now [] m rs done covered = IsCovered-IsInTime now m.pending covered
expire_loop-InTime now (p ∷ items) m rs done covered = elim (Bool-cases (ltb now p.expires_at)) [
  | inl early ↦
      let same = expire_loop_early now p items m early in
      subst (λ o. All (IsInTime now) o.1.pending) (sym same)
        (expire_loop-InTime now items m rs (sym (ap (λ o. o.0) same) ∙ done)
          (IsCovered-kept now p items m.pending early covered))
  | inr due ↦
      let taken = without p.invocation_id m in
      let run = λ (o : Option ApprovalManager).
        add_lapse p taken o (expire_loop now items (after_lapse p taken o)) in
      let same = expire_loop_due now p items m due in
      elim (record_terminal-cases (lapse p) now taken) [
        | inl e ↦
            let raised = ap (λ o. o.0) (same ∙ ap run e) in
            absurd (some_not_none (sym done ∙ raised))
        | inr e ↦
            let next = notify (lapse p) (with_row (lapse p) now taken) in
            let stepped = same ∙ ap run e in
            let (later, returned) =
              cons_lapse_some p (expire_loop now items next).0
                (sym (ap (λ o. o.0) stepped) ∙ done) in
            let kept = (notify-grants (lapse p) (with_row (lapse p) now taken)).3 in
            subst (λ o. All (IsInTime now) o.1.pending) (sym stepped)
              (expire_loop-InTime now items next later returned (
                subst (All (IsCovered now items)) (sym kept)
                  (IsCovered-deleted now p items m.pending covered)))
      ]
]
  where
    some_not_none : {A : Type 0} {a : A} → some a ≡ none → ⊥
    some_not_none h = ground arith

    cons_lapse_some :
        (p : PendingApproval) (o : Option (List ApprovalResolution)) {rs : List ApprovalResolution}
        → cons_lapse p o ≡ some rs
        → (later : List ApprovalResolution) × (o ≡ some later)
    cons_lapse_some p none h = absurd (ground arith)
    cons_lapse_some p (some later) h = (later, refl)

-- An invocation pends at most once, and is not on record while it does.
abbrev pub IsOpen : List PendingApproval → ApprovalManager → Type 0
IsOpen items m =
    (k : String) → rowcount (is_invocation k) items + rowcount (is_row_of k) m.approvals ≤ 1

record_terminal_open :
    (now : ℕ) (p : PendingApproval) (items : List PendingApproval) (m : ApprovalManager)
    → IsOpen (p ∷ items) m
    → record_terminal (lapse p) now (without p.invocation_id m)
      ≡ some (with_row (lapse p) now (without p.invocation_id m))
unfolding record_terminal
record_terminal_open now p items m pending =
    let absent : fetchone (is_row_of p.invocation_id) m.approvals ≡ none =
      absent_row p.invocation_id m.approvals
        (ground (arith, pending p.invocation_id, eq_refl p.invocation_id)) in
    rw absent refl
  where
    absent_row :
        (k : String) (rows : List ApprovalRow)
        → rowcount (is_row_of k) rows ≤ 0
        → fetchone (is_row_of k) rows ≡ none
    absent_row k [] h = refl
    absent_row k (r ∷ rows) h = ground (arith, absent_row k rows)

IsOpen-later :
    (now : ℕ) (p : PendingApproval) (items : List PendingApproval) (m : ApprovalManager)
    → IsOpen (p ∷ items) m
    → IsOpen items (notify (lapse p) (with_row (lapse p) now (without p.invocation_id m)))
IsOpen-later now p items m pending k =
    let kept = (notify-grants (lapse p) (with_row (lapse p) now (without p.invocation_id m))).2 in
    rw kept (
      ground (
        arith,
        pending k,
        rowcount-append (is_row_of k) m.approvals
            (record { resolution = lapse p; decided_at = now } ∷ []),
      ))

expire_loop_returns :
    (now : ℕ) (items : List PendingApproval) (m : ApprovalManager)
    → IsOpen items m
    → is_some (expire_loop now items m).0 ≡ true
unfolding expire_loop
expire_loop_returns now [] m pending = refl
expire_loop_returns now (p ∷ items) m pending = elim (Bool-cases (ltb now p.expires_at)) [
  | inl early ↦
      ap (λ o. is_some o.0) (expire_loop_early now p items m early)
      ∙ expire_loop_returns now items m (λ k. ground (arith, pending k))
  | inr due ↦
      let taken = without p.invocation_id m in
      let run = λ (o : Option ApprovalManager).
        add_lapse p taken o (expire_loop now items (after_lapse p taken o)) in
      let next = notify (lapse p) (with_row (lapse p) now taken) in
      ap (λ o. is_some o.0)
        (expire_loop_due now p items m due ∙ ap run (record_terminal_open now p items m pending))
      ∙ cons_lapse_keeps p (expire_loop now items next).0
      ∙ expire_loop_returns now items next (IsOpen-later now p items m pending)
]
  where
    cons_lapse_keeps :
        (p : PendingApproval) (o : Option (List ApprovalResolution))
        → is_some (cons_lapse p o) ≡ is_some o
    cons_lapse_keeps p none = refl
    cons_lapse_keeps p (some rs) = refl

-- Where each invocation pends at most once and none that pends is on record, an expiry pass returns,
-- and every approval that still pends has its deadline in the future.
pub expire_pending-InTime :
    (now : ℕ) (m : ApprovalManager)
    → IsOpen m.pending m
    → (is_some (expire_pending now m).0 ≡ true)
      × All (IsInTime now) (expire_pending now m).1.pending
unfolding expire_pending
expire_pending-InTime now m pending =
    let returns = expire_loop_returns now m.pending m pending in
    elim (Option-cases (expire_loop now m.pending m).0) [
      | inl e ↦ absurd (ground arith)
      | inr (rs, e) ↦
          (returns, expire_loop-InTime now m.pending m rs e (All-IsCovered now m.pending))
    ]
