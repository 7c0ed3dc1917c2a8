-- ===== src/Enrollment/Tests.antt =====
-- The theorems on enrollments at concrete stores.
use hermes_device_protocol.Enrollment.Lock.{block_locks_out, raised_changes_nothing}
use hermes_device_protocol.Enrollment.Approvals.{
  any_call, approvals_precede, is_candidate_approval, is_primary_approval,
}
use hermes_device_protocol.Enrollment.Consume.{consume-verdict, consumed_forever, verdict}
use hermes_device_protocol.Enrollment.Invariant.{IsWellFormed, perform_all-IsWellFormed}
use hermes_device_protocol.Enrollment.Table.{row}
use hermes_device_protocol.Enrollment.Finish.{
  Call, approves_candidate, approves_primary, block, cancels, consume, consumes, perform,
  perform_all, raised, sets_devices, starts,
}
use hermes_device_protocol.Enrollment.{identifier_hash, locked, not_ready, start}
use hermes_device_protocol.Store.{Device, EnrollmentDb, Python, Text, active, primary, secondary}
use hermes_device_protocol.Prelude.Result.{err, ok, ◌>>=◌}
use hermes_device_protocol.Prelude.{
  List, [], arith, if◌then◌else◌, leb, length, none, refl, some, true, ◌∷◌, ◌≡◌,
}

abbrev py : Python
py = record {
  sha256 = λ bytes. if leb 3 (length bytes) then "long" else "short";
  upper_other = λ c. c ∷ [];
}

abbrev sentinel : Device
sentinel = record {
  device_id = "phone";
  friendly_name = "Phone";
  platform = "android";
  client_version = "";
  first_paired_at = 1;
  last_seen_at = 1;
  state = active;
  device_pubkey = "key";
  role = primary;
}

abbrev with_primary : EnrollmentDb
with_primary = record { devices = sentinel ∷ []; pending_enrollments = []; pairing_lock = none }

abbrev token : Text
token = 97 ∷ 98 ∷ []

-- A secondary's enrollment, as the phone and the candidate approve it.
abbrev approved : List Call
approved =
    starts token "host" "candidate" 1000
    ∷ approves_primary token "phone" 1001
    ∷ approves_candidate token 1002
    ∷ []

with_primary-IsWellFormed : IsWellFormed with_primary
with_primary-IsWellFormed = record { keyed = λ h. omega arith; one_open = omega arith; sound = tt }

abbrev ready : EnrollmentDb
ready = perform_all py approved with_primary

ready-IsWellFormed : IsWellFormed ready
ready-IsWellFormed = perform_all-IsWellFormed py approved with_primary with_primary-IsWellFormed

perform_all-IsWellFormed_example : IsWellFormed (perform_all py approved with_primary)
perform_all-IsWellFormed_example =
    perform_all-IsWellFormed py approved with_primary with_primary-IsWellFormed

consumes_ready : (consume py token "host" "candidate" 1003 ready).0 ≡ ok secondary
unfolding consume perform_all
consumes_ready = refl

token_hash : identifier_hash py token ≡ ok "short"
unfolding identifier_hash
token_hash = refl

consume-verdict_example :
    (consume py token "host" "candidate" 1003 ready).0
    ≡ (identifier_hash py token >>= λ h. verdict "host" "candidate" 1003 (row h ready))
consume-verdict_example =
    consume-verdict py token "host" "candidate" 1003 ready ready-IsWellFormed.keyed

consumed_forever_example :
    (consume py token "host" "candidate" 1005 (
      perform_all py
        (cancels token 1004 ∷ [])
        (consume py token "host" "candidate" 1003 ready).1)).0
    ≡ err not_ready
consumed_forever_example =
    consumed_forever py token "host" "candidate" 1003 ready secondary (cancels token 1004 ∷ [])
      "host" "candidate" 1005 ready-IsWellFormed consumes_ready

approvals_precede_example :
    (any_call (is_candidate_approval py "short") approved ≡ true)
    × (secondary ≡ secondary → any_call (is_primary_approval py "short") approved ≡ true)
approvals_precede_example =
    approvals_precede py token "short" "host" "candidate" 1003 with_primary approved secondary
      with_primary-IsWellFormed token_hash refl consumes_ready

blocks_ready : (block py token "phone" 1003 ready).0 ≡ ok tt
unfolding block perform_all
blocks_ready = refl

block_locks_out_example :
    let after = perform_all py (sets_devices [] ∷ []) (block py token "phone" 1003 ready).1 in
    start py (99 ∷ []) "host" "other" 9000 after
    ≡ ((identifier_hash py (99 ∷ []) >>= λ _. err locked), after)
block_locks_out_example =
    block_locks_out py token (99 ∷ []) "phone" "host" "other" 1003 9000 ready tt
      (sets_devices [] ∷ []) blocks_ready

expired_consume : raised py (consumes token "host" "candidate" 999_999) ready ≡ some not_ready
unfolding raised perform_all
expired_consume = refl

raised_changes_nothing_example :
    perform py (consumes token "host" "candidate" 999_999) ready ≡ ready
raised_changes_nothing_example =
    raised_changes_nothing py (consumes token "host" "candidate" 999_999) ready not_ready
      expired_consume
