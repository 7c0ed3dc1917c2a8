-- ===== src/Approvals/Decided.antt =====
-- An approval is decided once, and its decision is on record.
use mathlib.Core.Path.{subst}
use hermes_device_protocol.Approvals.Granted.{decide_ok, notify-grants, settled}
use hermes_device_protocol.Approvals.{
  ApprovalManager, ApprovalResolution, ApprovalScope, PendingApproval, approved, decide, decision,
  denied, device, invalid_scope, is_invocation, one_time, parse_scope, persistent, resolve, session,
  unknown_approval,
}
use hermes_device_protocol.Prelude.Result.{err, ok}
use hermes_device_protocol.Prelude.Sql.{
  delete, fetchone, fetchone-delete_self, fetchone_holds, on_row,
}
use hermes_device_protocol.Prelude.{
  Bool, String, [], ap, eq_iff, false, none, refl, some, sym, true, ℕ, ◌++◌, ◌∙◌, ◌∷◌, ◌≡◌,
}

-- `resolve` of an approval that pends, with a scope that parses, is `decide`.
pub resolve-decide :
    (i scope decided_by : String) (is_approved : Bool) (now : ℕ) (m : ApprovalManager)
    (p : PendingApproval) (parsed : ApprovalScope)
    → parse_scope scope ≡ some parsed
    → fetchone (is_invocation i) m.pending ≡ some p
    → resolve i is_approved scope decided_by now m ≡ decide p is_approved parsed decided_by now m
unfolding resolve
resolve-decide i scope decided_by is_approved now m p parsed known found =
    ap
      (λ o. elim o [
        | none ↦ (err invalid_scope, m)
        | some s ↦
            on_row (fetchone (is_invocation i) m.pending) (err unknown_approval, m)
              λ q. decide q is_approved s decided_by now m
      ])
      known
    ∙ ap (λ o. on_row o (err unknown_approval, m) λ q. decide q is_approved parsed decided_by now m)
        found

settled-pending :
    (p : PendingApproval) (is_approved : Bool) (scope : ApprovalScope) (decided_by : String)
    (now : ℕ) (m : ApprovalManager)
    → ((settled p is_approved scope decided_by now m).pending
        ≡ delete (is_invocation p.invocation_id) m.pending)
      × ((settled p is_approved scope decided_by now m).approvals
          ≡ m.approvals
            ++ (record { resolution = decision is_approved p scope decided_by; decided_at = now }
                ∷ []))
settled-pending p false scope decided_by now m = (refl, refl)
settled-pending p true one_time decided_by now m = (refl, refl)
settled-pending p true session decided_by now m = (refl, refl)
settled-pending p true device decided_by now m = (refl, refl)
settled-pending p true persistent decided_by now m = (refl, refl)

resolve_unknown :
    (i scope decided_by : String) (is_approved : Bool) (now : ℕ) (m : ApprovalManager)
    (parsed : ApprovalScope)
    → parse_scope scope ≡ some parsed
    → fetchone (is_invocation i) m.pending ≡ none
    → resolve i is_approved scope decided_by now m ≡ (err unknown_approval, m)
unfolding resolve
resolve_unknown i scope decided_by is_approved now m parsed known absent =
    ap
      (λ o. elim o [
        | none ↦ (err invalid_scope, m)
        | some s ↦
            on_row (fetchone (is_invocation i) m.pending) (err unknown_approval, m)
              λ q. decide q is_approved s decided_by now m
      ])
      known
    ∙ ap (λ o. on_row o (err unknown_approval, m) λ q. decide q is_approved parsed decided_by now m)
        absent

-- The resolution is the operator's: approved in the scope that was given, or denied without one.
abbrev pub IsDecisionOf :
    Bool → PendingApproval → ApprovalScope → String → ApprovalResolution → Type 0
IsDecisionOf is_approved p scope decided_by r =
    (r.pending ≡ p)
    × (r.decided_by ≡ some decided_by)
    × (is_approved ≡ true → (r.state ≡ approved) × (r.scope ≡ some scope))
    × (is_approved ≡ false → (r.state ≡ denied) × (r.scope ≡ none))

decision-IsDecisionOf :
    (is_approved : Bool) (p : PendingApproval) (scope : ApprovalScope) (decided_by : String)
    → IsDecisionOf is_approved p scope decided_by (decision is_approved p scope decided_by)
decision-IsDecisionOf true p scope decided_by = (refl, refl, λ _. (refl, refl), λ e. absurd (cc))
decision-IsDecisionOf false p scope decided_by = (refl, refl, λ e. absurd (cc), λ _. (refl, refl))

-- An approval is decided once, as the operator says: where `resolve` returns for an approval that
-- pends, the resolution is of that approval, by that operator, approved in the given scope or denied
-- without one; exactly one row, that resolution, is added to the record; and from then on any decision
-- of that invocation with a valid scope raises UnknownApprovalError and changes nothing.
pub resolve_once :
    (i scope decided_by : String) (is_approved : Bool) (now : ℕ) (m : ApprovalManager)
    (p : PendingApproval) (parsed : ApprovalScope) (r : ApprovalResolution)
    (again again_by : String) (again_approved : Bool) (later : ℕ) (again_parsed : ApprovalScope)
    → parse_scope scope ≡ some parsed
    → parse_scope again ≡ some again_parsed
    → fetchone (is_invocation i) m.pending ≡ some p
    → (resolve i is_approved scope decided_by now m).0 ≡ ok r
    → let after = (resolve i is_approved scope decided_by now m).1 in
      IsDecisionOf is_approved p parsed decided_by r
      × (after.approvals ≡ m.approvals ++ (record { resolution = r; decided_at = now } ∷ []))
      × (resolve i again_approved again again_by later after ≡ (err unknown_approval, after))
resolve_once i scope decided_by is_approved now m p parsed r again again_by again_approved later
      again_parsed known again_known found done =
    let at = resolve-decide i scope decided_by is_approved now m p parsed known found in
    let decided : (decide p is_approved parsed decided_by now m).0 ≡ ok r = rw at at done in
    let (resolution, after) = decide_ok p is_approved parsed decided_by now m r decided in
    let (_, _, rows, left) =
      notify-grants (decision is_approved p parsed decided_by)
        (settled p is_approved parsed decided_by now m) in
    let (gone, recorded) = settled-pending p is_approved parsed decided_by now m in
    let same : p.invocation_id ≡ i =
      (eq_iff p.invocation_id i).0 (fetchone_holds (is_invocation i) m.pending p found) in
    let absent : fetchone (is_invocation i) (resolve i is_approved scope decided_by now m).1.pending
        ≡ none =
      ap (λ o. fetchone (is_invocation i) o.1.pending) at
      ∙ ap (λ n. fetchone (is_invocation i) n.pending) after
      ∙ ap (fetchone (is_invocation i))
          (left ∙ gone ∙ ap (λ k. delete (is_invocation k) m.pending) same)
      ∙ fetchone-delete_self (is_invocation i) m.pending in
    (
      subst (IsDecisionOf is_approved p parsed decided_by) (sym resolution)
          (decision-IsDecisionOf is_approved p parsed decided_by),
      ap (λ o. o.1.approvals) at
          ∙ ap (λ n. n.approvals) after
          ∙ rows
          ∙ recorded
          ∙ ap (λ x. m.approvals ++ (record { resolution = x; decided_at = now } ∷ []))
              (sym resolution),
      resolve_unknown i again again_by again_approved later _ again_parsed again_known absent,
    )
