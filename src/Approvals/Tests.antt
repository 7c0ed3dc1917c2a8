-- ===== src/Approvals/Tests.antt =====
-- The theorems on approvals at a concrete manager.
use hermes_device_protocol.Approvals.Expired.{IsInTime, IsOpen, expire_pending-InTime}
use hermes_device_protocol.Approvals.Decided.{IsDecisionOf, resolve_once}
use hermes_device_protocol.Approvals.Granted.{decide_grants, grants_device, grants_session}
use hermes_device_protocol.Approvals.{
  ApprovalManager, ApprovalResolution, PendingApproval, decide, decision, expire_pending,
  has_database_grant, has_session_grant, lapse, one_time, resolve, session, unknown_approval,
}
use hermes_device_protocol.Prelude.Result.{err, ok}
use hermes_device_protocol.Prelude.{
  All, [], arith, false, is_some, refl, some, true, ◌++◌, ◌||◌, ◌∷◌, ◌≡◌,
}

abbrev request : PendingApproval
request = record {
  invocation_id = "inv";
  device_id = "phone";
  capability = "notifications.send";
  version = 1;
  args_summary = "";
  requesting_session = some "s1";
  risk_class = "low";
  created_at = 10;
  expires_at = 130;
}

abbrev waiting_manager : ApprovalManager
waiting_manager = record {
  timeout_s = 120;
  pending = request ∷ [];
  session_grants = [];
  waiters = "inv" ∷ [];
  resolutions = [];
  notified = [];
  approvals = [];
  policy_grants = [];
}

abbrev yes : ApprovalResolution
yes = decision true request session "operator"

decides : (decide request true session "operator" 20 waiting_manager).0 ≡ ok yes
unfolding decide
decides = refl

decide_grants_example :
    let after = (decide request true session "operator" 20 waiting_manager).1 in
    (has_session_grant (some "s1") "phone" "notifications.send" after ≡ (
      has_session_grant (some "s1") "phone" "notifications.send" waiting_manager
      || grants_session "s1" "phone" "notifications.send" yes))
    × (has_database_grant "phone" "notifications.send" 30 after ≡ (
        has_database_grant "phone" "notifications.send" 30 waiting_manager
        || grants_device "phone" "notifications.send" yes))
    × (true ≡ false
        → (grants_session "s1" "phone" "notifications.send" yes ≡ false)
          × (grants_device "phone" "notifications.send" yes ≡ false))
decide_grants_example =
    decide_grants request true session "operator" 20 waiting_manager yes "s1" "phone"
      "notifications.send" 30 decides

resolves : (resolve "inv" true "session" "operator" 20 waiting_manager).0 ≡ ok yes
unfolding resolve
resolves = refl

resolve_once_example :
    let after = (resolve "inv" true "session" "operator" 20 waiting_manager).1 in
    IsDecisionOf true request session "operator" yes
    × (after.approvals ≡ [] ++ (record { resolution = yes; decided_at = 20 } ∷ []))
    × (resolve "inv" false "one_time" "other" 21 after ≡ (err unknown_approval, after))
resolve_once_example =
    resolve_once "inv" "session" "operator" true 20 waiting_manager request session yes "one_time"
      "other" false 21 one_time refl refl refl resolves

waiting_manager-IsOpen : IsOpen waiting_manager.pending waiting_manager
waiting_manager-IsOpen k = ground arith

expire_pending-InTime_example :
    (is_some (expire_pending 130 waiting_manager).0 ≡ true)
    × All (IsInTime 130) (expire_pending 130 waiting_manager).1.pending
expire_pending-InTime_example = expire_pending-InTime 130 waiting_manager waiting_manager-IsOpen

expires_all : (expire_pending 130 waiting_manager).0 ≡ some (lapse request ∷ [])
unfolding expire_pending
expires_all = refl
