-- ===== src/Approvals.antt =====
-- hdp-bridge/hdp_bridge/approvals.py: approvals that wait for an operator, their one decision, and
-- the grants that follow from it. Times count whole units from a common start. A waiter is a caller
-- inside `wait`: its future is done only as it leaves the table of waiters, and `notified` holds what
-- was delivered. Each row of `approvals` copies a resolution, so it is held as that; the columns of
-- `policy_grants` that are always null, and `scope`, which repeats the mode, are left out.
pub mod Decided
pub mod Granted
pub mod Expired
mod Tests
use hermes_device_protocol.Prelude.{
  Bool, List, Option, String, [], false, if◌then◌else◌, is_none, is_some, ltb, none, some, str_eq,
  true, ℕ, ◌&&◌, ◌++◌, ◌+◌, ◌∷◌,
}
use hermes_device_protocol.Prelude.Sql.{delete, fetchone, on_row}
use hermes_device_protocol.Prelude.Result.{Result, err, ok}

pub data ApprovalState : Type 0 where
  approved denied expired : ApprovalState

pub data ApprovalScope : Type 0 where
  one_time session device persistent : ApprovalScope

-- ValueError of `create` and of `ApprovalScope(scope)`, UnknownApprovalError, and the primary key of
-- `approvals`
pub data ApprovalError : Type 0 where
  already_pending invalid_scope unknown_approval integrity_error : ApprovalError

pub record PendingApproval : Type 0 where
  pub invocation_id : String
  pub device_id : String
  pub capability : String
  pub version : ℕ
  pub args_summary : String
  pub requesting_session : Option String
  pub risk_class : String
  pub created_at : ℕ
  pub expires_at : ℕ

pub record ApprovalResolution : Type 0 where
  pub state : ApprovalState
  pub pending : PendingApproval
  pub scope : Option ApprovalScope
  pub decided_by : Option String

pub record ApprovalRow : Type 0 where
  pub resolution : ApprovalResolution
  pub decided_at : ℕ

pub data GrantMode : Type 0 where
  device_mode always_mode : GrantMode

pub record PolicyGrant : Type 0 where
  pub device_id : String
  pub capability : String
  pub mode : GrantMode
  pub granted_at : ℕ
  pub expires_at : Option ℕ
  pub revoked_at : Option ℕ

pub record SessionGrant : Type 0 where
  pub session_id : String
  pub device_id : String
  pub capability : String

pub record ApprovalManager : Type 0 where
  pub timeout_s : ℕ
  pub pending : List PendingApproval
  pub session_grants : List SessionGrant
  pub waiters : List String
  pub resolutions : List ApprovalResolution
  pub notified : List ApprovalResolution
  pub approvals : List ApprovalRow
  pub policy_grants : List PolicyGrant

abbrev pub is_invocation : String → PendingApproval → Bool
is_invocation i p = str_eq p.invocation_id i

abbrev pub is_resolution_of : String → ApprovalResolution → Bool
is_resolution_of i r = str_eq r.pending.invocation_id i

abbrev pub parse_scope : String → Option ApprovalScope
parse_scope s =
    if str_eq s "one_time"
    then some one_time
    else if str_eq s "session"
    then some session
    else if str_eq s "device"
    then some device
    else if str_eq s "persistent"
    then some persistent
    else none

abbrev pub without : String → ApprovalManager → ApprovalManager
without i m = record m { pending = delete (is_invocation i) m.pending }

-- `create`, with the approval that its arguments and the time make
unfoldable pub create :
    PendingApproval → ApprovalManager → Result ApprovalError PendingApproval × ApprovalManager
create p m =
    if is_some (fetchone (is_invocation p.invocation_id) m.pending)
    then (err already_pending, m)
    else let made = record p { expires_at = p.created_at + m.timeout_s } in
      (ok made, record m { pending = m.pending ++ (made ∷ []) })

-- `_notify`
unfoldable pub notify : ApprovalResolution → ApprovalManager → ApprovalManager
notify r m =
    let i = r.pending.invocation_id in
    if is_some (fetchone (str_eq i) m.waiters)
    then record m { waiters = delete (str_eq i) m.waiters; notified = m.notified ++ (r ∷ []) }
    else record m { resolutions = delete (is_resolution_of i) m.resolutions ++ (r ∷ []) }

abbrev pub is_row_of : String → ApprovalRow → Bool
is_row_of i row = is_resolution_of i row.resolution

-- `_record_terminal`: `none` is the IntegrityError of `invocation_id TEXT PRIMARY KEY`
unfoldable pub record_terminal : ApprovalResolution → ℕ → ApprovalManager → Option ApprovalManager
record_terminal r now m =
    if is_some (fetchone (is_row_of r.pending.invocation_id) m.approvals)
    then none
    else some
        (record m { approvals = m.approvals ++ (record { resolution = r; decided_at = now } ∷ []) })

abbrev pub session_grant : PendingApproval → Option String → List SessionGrant → List SessionGrant
session_grant p none grants = grants
session_grant p (some s) grants =
    grants ++ (record { session_id = s; device_id = p.device_id; capability = p.capability } ∷ [])

abbrev pub policy_grant : PendingApproval → GrantMode → ℕ → PolicyGrant
policy_grant p mode now = record {
  device_id = p.device_id;
  capability = p.capability;
  mode = mode;
  granted_at = now;
  expires_at = none;
  revoked_at = none;
}

-- `_grant`
abbrev pub grant : PendingApproval → ApprovalScope → ℕ → ApprovalManager → ApprovalManager
grant p one_time now m = m
grant p session now m = record m {
  session_grants = session_grant p p.requesting_session m.session_grants;
}
grant p device now m = record m {
  policy_grants = m.policy_grants ++ (policy_grant p device_mode now ∷ []);
}
grant p persistent now m = record m {
  policy_grants = m.policy_grants ++ (policy_grant p always_mode now ∷ []);
}

abbrev pub decision : Bool → PendingApproval → ApprovalScope → String → ApprovalResolution
decision is_approved p scope decided_by = record {
  state = if is_approved then approved else denied;
  pending = p;
  scope = if is_approved then some scope else none;
  decided_by = some decided_by;
}

abbrev pub Outcome : Type 0
Outcome = Result ApprovalError ApprovalResolution × ApprovalManager

-- `resolve` once `_record_terminal` has returned or raised
abbrev pub after_record :
    PendingApproval
    → Bool
    → ApprovalScope
    → String
    → ℕ
    → ApprovalManager
    → Option ApprovalManager
    → Outcome
after_record p is_approved scope decided_by now taken none = (err integrity_error, taken)
after_record p is_approved scope decided_by now taken (some m) = (
  ok (decision is_approved p scope decided_by),
  notify (decision is_approved p scope decided_by) (if is_approved then grant p scope now m else m),
)

-- `resolve` from `_take_pending` on
unfoldable pub decide :
    PendingApproval → Bool → ApprovalScope → String → ℕ → ApprovalManager → Outcome
unfolding record_terminal notify
decide p is_approved scope decided_by now m =
    let taken = without p.invocation_id m in
    after_record p is_approved scope decided_by now taken
      (record_terminal (decision is_approved p scope decided_by) now taken)

unfoldable pub resolve : String → Bool → String → String → ℕ → ApprovalManager → Outcome
unfolding decide
resolve i is_approved scope decided_by now m = elim (parse_scope scope) [
  | none ↦ (err invalid_scope, m)
  | some s ↦
      on_row (fetchone (is_invocation i) m.pending) (err unknown_approval, m)
        λ p. decide p is_approved s decided_by now m
]

unfoldable pub abandon : String → ApprovalManager → Bool × ApprovalManager
abandon i m = (
  is_some (fetchone (is_invocation i) m.pending),
  record m {
    pending = delete (is_invocation i) m.pending;
    waiters = delete (str_eq i) m.waiters;
    resolutions = delete (is_resolution_of i) m.resolutions;
  },
)

abbrev pub lapse : PendingApproval → ApprovalResolution
lapse p = record { state = expired; pending = p; scope = none; decided_by = none }

abbrev pub Expiry : Type 0
Expiry = Option (List ApprovalResolution) × ApprovalManager

abbrev pub after_lapse :
    PendingApproval → ApprovalManager → Option ApprovalManager → ApprovalManager
after_lapse p taken none = taken
after_lapse p taken (some m) = notify (lapse p) m

abbrev pub cons_lapse :
    PendingApproval → Option (List ApprovalResolution) → Option (List ApprovalResolution)
cons_lapse p none = none
cons_lapse p (some rs) = some (lapse p ∷ rs)

-- The expired approval and the rest of the loop, which an IntegrityError does not reach.
abbrev pub add_lapse : PendingApproval → ApprovalManager → Option ApprovalManager → Expiry → Expiry
add_lapse p taken none rest = (none, taken)
add_lapse p taken (some _) rest = (cons_lapse p rest.0, rest.1)

-- The loop of `expire_pending` over a copy of the pending approvals; `none` in its result is the
-- IntegrityError that ends it.
unfoldable pub expire_loop : ℕ → List PendingApproval → ApprovalManager → Expiry
unfolding record_terminal notify
expire_loop now [] m = (some [], m)
expire_loop now (p ∷ items) m =
    let taken = without p.invocation_id m in
    let recorded = record_terminal (lapse p) now taken in
    let rest =
      expire_loop now items (if ltb now p.expires_at then m else after_lapse p taken recorded) in
    if ltb now p.expires_at then rest else add_lapse p taken recorded rest

unfoldable pub expire_pending : ℕ → ApprovalManager → Expiry
unfolding expire_loop
expire_pending now m = expire_loop now m.pending m

abbrev pub covers : String → String → String → SessionGrant → Bool
covers s d c g = str_eq g.session_id s && (str_eq g.device_id d && str_eq g.capability c)

unfoldable pub has_session_grant : Option String → String → String → ApprovalManager → Bool
has_session_grant none d c m = false
has_session_grant (some s) d c m = is_some (fetchone (covers s d c) m.session_grants)

abbrev pub is_unexpired : ℕ → Option ℕ → Bool
is_unexpired now none = true
is_unexpired now (some t) = ltb now t

abbrev pub is_granted : String → String → ℕ → PolicyGrant → Bool
is_granted d c now g =
    str_eq g.device_id d
    && (str_eq g.capability c && (is_none g.revoked_at && is_unexpired now g.expires_at))

unfoldable pub has_database_grant : String → String → ℕ → ApprovalManager → Bool
has_database_grant d c now m = is_some (fetchone (is_granted d c now) m.policy_grants)
