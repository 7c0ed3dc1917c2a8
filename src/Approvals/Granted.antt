-- ===== src/Approvals/Granted.antt =====
-- Which grants a decision makes: exactly those that the operator's scope names.
use mathlib.Core.Logic.{◌⊎◌}
use hermes_device_protocol.Approvals.{
  ApprovalManager, ApprovalResolution, ApprovalScope, PendingApproval, after_record, always_mode,
  covers, decide, decision, device, device_mode, grant, has_database_grant, has_session_grant,
  is_granted, is_row_of, notify, one_time, persistent, policy_grant, record_terminal, session,
  without,
}
use hermes_device_protocol.Prelude.Result.{ok, ok_injective}
use hermes_device_protocol.Prelude.Sql.{fetchone, fetchone-append}
use hermes_device_protocol.Prelude.{
  Bool, Bool-cases, Option, Option-cases, String, [], ap, arith, false, if◌then◌else◌, inl, inr,
  is_some, none, refl, some, str_eq, sym, true, ℕ, ◌&&◌, ◌++◌, ◌||◌, ◌∙◌, ◌∷◌, ◌≡◌, ◌⊎◌,
}

pub notify-grants :
    (r : ApprovalResolution) (m : ApprovalManager)
    → ((notify r m).session_grants ≡ m.session_grants)
      × ((notify r m).policy_grants ≡ m.policy_grants)
      × ((notify r m).approvals ≡ m.approvals)
      × ((notify r m).pending ≡ m.pending)
unfolding notify
notify-grants r m =
    elim (Bool-cases (is_some (fetchone (str_eq r.pending.invocation_id) m.waiters))) [
      | inl e ↦ rw e (refl, refl, refl, refl)
      | inr e ↦ rw e (refl, refl, refl, refl)
    ]

-- The manager after a row is recorded.
abbrev pub with_row : ApprovalResolution → ℕ → ApprovalManager → ApprovalManager
with_row r now m = record m {
  approvals = m.approvals ++ (record { resolution = r; decided_at = now } ∷ []);
}

-- What a decision that returns leaves, before waiters are told.
abbrev pub settled :
    PendingApproval → Bool → ApprovalScope → String → ℕ → ApprovalManager → ApprovalManager
settled p is_approved scope decided_by now m =
    let m' = with_row (decision is_approved p scope decided_by) now (without p.invocation_id m) in
    if is_approved then grant p scope now m' else m'

pub record_terminal-cases :
    (r : ApprovalResolution) (now : ℕ) (m : ApprovalManager)
    → (record_terminal r now m ≡ none) ⊎ (record_terminal r now m ≡ some (with_row r now m))
unfolding record_terminal
record_terminal-cases r now m =
    elim (Bool-cases (is_some (fetchone (is_row_of r.pending.invocation_id) m.approvals))) [
      | inl e ↦ rw e (inl refl)
      | inr e ↦ rw e (inr refl)
    ]

pub decide_ok :
    (p : PendingApproval) (is_approved : Bool) (scope : ApprovalScope) (decided_by : String)
    (now : ℕ) (m : ApprovalManager) (r : ApprovalResolution)
    → (decide p is_approved scope decided_by now m).0 ≡ ok r
    → (r ≡ decision is_approved p scope decided_by)
      × ((decide p is_approved scope decided_by now m).1
          ≡ notify
              (decision is_approved p scope decided_by)
              (settled p is_approved scope decided_by now m))
unfolding decide
decide_ok p is_approved scope decided_by now m r done =
    let taken = without p.invocation_id m in
    let answer = after_record p is_approved scope decided_by now taken in
    elim (record_terminal-cases (decision is_approved p scope decided_by) now taken) [
      | inl e ↦ let raised = ap (λ o. (answer o).0) e in absurd (ground arith)
      | inr e ↦
          let returned = ap answer e in
          (ok_injective (sym done ∙ ap (λ o. o.0) returned), ap (λ o. o.1) returned)
    ]

abbrev pub is_session : Option ApprovalScope → Bool
is_session (some session) = true
is_session _ = false

abbrev pub is_lasting : Option ApprovalScope → Bool
is_lasting (some device) = true
is_lasting (some persistent) = true
is_lasting _ = false

abbrev pub asked_in : Option String → String → Bool
asked_in none s = false
asked_in (some t) s = str_eq t s

-- The resolution covers the session, the device and the capability for the session.
abbrev pub grants_session : String → String → String → ApprovalResolution → Bool
grants_session s d c r =
    is_session r.scope
    && (asked_in r.pending.requesting_session s
        && (str_eq r.pending.device_id d && str_eq r.pending.capability c))

abbrev pub grants_device : String → String → ApprovalResolution → Bool
grants_device d c r =
    is_lasting r.scope && (str_eq r.pending.device_id d && str_eq r.pending.capability c)

settled-session :
    (p : PendingApproval) (is_approved : Bool) (scope : ApprovalScope) (decided_by : String)
    (now : ℕ) (m : ApprovalManager) (s d c : String)
    → is_some
        (fetchone (covers s d c) (settled p is_approved scope decided_by now m).session_grants)
      ≡ (is_some (fetchone (covers s d c) m.session_grants)
          || grants_session s d c (decision is_approved p scope decided_by))
settled-session p false scope decided_by now m s d c = ground arith
settled-session p true one_time decided_by now m s d c = ground arith
settled-session p true session decided_by now m s d c = elim (Option-cases p.requesting_session) [
  | inl e ↦ rw e (ground arith)
  | inr (t, e) ↦ rw e (
      ground (
        arith,
        fetchone-append (covers s d c) m.session_grants
            (record { session_id = t; device_id = p.device_id; capability = p.capability } ∷ []),
      ))
]
settled-session p true device decided_by now m s d c = ground arith
settled-session p true persistent decided_by now m s d c = ground arith

settled-policy :
    (p : PendingApproval) (is_approved : Bool) (scope : ApprovalScope) (decided_by : String)
    (now : ℕ) (m : ApprovalManager) (d c : String) (later : ℕ)
    → is_some (
        fetchone
          (is_granted d c later)
          (settled p is_approved scope decided_by now m).policy_grants)
      ≡ (is_some (fetchone (is_granted d c later) m.policy_grants)
          || grants_device d c (decision is_approved p scope decided_by))
settled-policy p false scope decided_by now m d c later = ground arith
settled-policy p true one_time decided_by now m d c later = ground arith
settled-policy p true session decided_by now m d c later = ground arith
settled-policy p true device decided_by now m d c later = ground (
  arith,
  fetchone-append (is_granted d c later) m.policy_grants (policy_grant p device_mode now ∷ []),
)
settled-policy p true persistent decided_by now m d c later = ground (
  arith,
  fetchone-append (is_granted d c later) m.policy_grants (policy_grant p always_mode now ∷ []),
)

-- A decision that returns adds exactly the grants it names: a session has a grant afterwards where it
-- had one, or where the decision approved for the session that asked, on that device and
-- capability; and a device has a stored grant at any time where it had one, or where the decision
-- approved for the device or persistently. A denial, whose resolution has no scope, adds none.
pub decide_grants :
    (p : PendingApproval) (is_approved : Bool) (scope : ApprovalScope) (decided_by : String)
    (now : ℕ) (m : ApprovalManager) (r : ApprovalResolution) (s d c : String) (later : ℕ)
    → (decide p is_approved scope decided_by now m).0 ≡ ok r
    → let after = (decide p is_approved scope decided_by now m).1 in
      (has_session_grant (some s) d c after
        ≡ (has_session_grant (some s) d c m || grants_session s d c r))
      × (has_database_grant d c later after
          ≡ (has_database_grant d c later m || grants_device d c r))
      × (is_approved ≡ false → (grants_session s d c r ≡ false) × (grants_device d c r ≡ false))
unfolding has_session_grant has_database_grant
decide_grants p is_approved scope decided_by now m r s d c later done =
    let (resolution, after) = decide_ok p is_approved scope decided_by now m r done in
    let told =
      notify-grants (decision is_approved p scope decided_by)
        (settled p is_approved scope decided_by now m) in
    (
      rw after
          (rw told.0 (rw resolution (settled-session p is_approved scope decided_by now m s d c))),
      rw after (
          rw told.1
            (rw resolution (settled-policy p is_approved scope decided_by now m d c later))),
      λ denial. rw resolution (rw denial (refl, refl)),
    )
