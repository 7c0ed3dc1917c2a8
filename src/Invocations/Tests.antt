-- ===== src/Invocations/Tests.antt =====
-- The theorems on invocations at a concrete table.
use hermes_device_protocol.Invocations.Exact.{IsInterrupted, IsOfConnection, IsOfDevice, fail_exact}
use hermes_device_protocol.Invocations.Happened.{AllFreshEvents, happens-IsOnce}
use hermes_device_protocol.Invocations.Later.{IsLater, find}
use hermes_device_protocol.Invocations.Callers.{
  Event, answers, calls, cancels_result, ctl_cancel, happens,
}
use hermes_device_protocol.Invocations.Once.{AllFresh}
use mathlib.Core.Path.{subst}
use hermes_device_protocol.Invocations.Fail.{fail_interrupts}
use hermes_device_protocol.Invocations.Settled.{settled_once}
use hermes_device_protocol.Invocations.Invariant.{step-IsWellFormed, steps-IsWellFormed}
use hermes_device_protocol.Invocations.Table.{IsOnce, IsWellFormed, left, row}
use hermes_device_protocol.Invocations.{
  Entry, InvocationsMem, Op, PendingInvocation, disconnected, expire, expires, fail, fails, is_done,
  mark_acked, mints, new_entry, resolve, resolved, resolves, step, steps, waiting,
}
use hermes_device_protocol.Prelude.Sql.{rowcount}
use hermes_device_protocol.Prelude.{
  Bool, List, [], arith, false, none, refl, some, str_eq, true, ◌∷◌, ◌≡◌,
}

abbrev one_pending : InvocationsMem
one_pending = record {
  pending =
      ("first", new_entry "phone" "device.status" 1 (some 7))
      ∷ (("second", new_entry "tablet" "device.status" 1 (some 8)) ∷ []);
  gone = [];
}

abbrev empty_mem : InvocationsMem
empty_mem = record { pending = []; gone = [] }

abbrev first : Entry
first = ("first", new_entry "phone" "device.status" 1 (some 7))

empty_mem-IsWellFormed : IsWellFormed empty_mem
empty_mem-IsWellFormed = record { once = λ i. omega arith; waits = tt }

abbrev two_mints : List Op
two_mints =
    mints "first" "phone" "device.status" 1 (some 7)
    ∷ (mints "second" "tablet" "device.status" 1 (some 8) ∷ [])

two_mints_fresh : AllFresh two_mints empty_mem
unfolding AllFresh step
two_mints_fresh = ((refl, refl), ((refl, refl), tt))

two_minted : steps two_mints empty_mem ≡ one_pending
unfolding steps
two_minted = refl

steps-IsWellFormed_example : IsWellFormed (steps two_mints empty_mem)
steps-IsWellFormed_example =
    steps-IsWellFormed two_mints empty_mem two_mints_fresh empty_mem-IsWellFormed

one_pending-IsWellFormed : IsWellFormed one_pending
one_pending-IsWellFormed = subst IsWellFormed two_minted steps-IsWellFormed_example

abbrev expired : InvocationsMem
expired = record {
  pending = ("second", new_entry "tablet" "device.status" 1 (some 8)) ∷ [];
  gone = first ∷ [];
}

expires_first : (expire "first" one_pending).1 ≡ expired
unfolding expire
expires_first = refl

expired-IsWellFormed : IsWellFormed expired
unfolding step
expired-IsWellFormed =
    subst IsWellFormed expires_first
      (step-IsWellFormed (expires "first") one_pending tt one_pending-IsWellFormed)

-- `_ctl_cancel` on the first invocation; then a late result comes, the caller cancels, and the device
-- drops.
abbrev cancelling : List Event
cancelling = calls (expires "first") ∷ (answers "first" "{}" ∷ [])

abbrev cancelled_mem : InvocationsMem
cancelled_mem = happens cancelling one_pending

abbrev answered : Entry
answered = ("first", record first.1 { ack_future = resolved tt; result_future = resolved "{}" })

cancelling_steps : ctl_cancel "first" "{}" one_pending ≡ cancelling
unfolding ctl_cancel
cancelling_steps = refl

cancelling_fresh : AllFreshEvents cancelling one_pending
unfolding AllFreshEvents
cancelling_fresh = (tt, (tt, tt))

-- What the caller of the cancelled invocation gets.
cancelled_gets : left "first" cancelled_mem ≡ some answered
unfolding happens
cancelled_gets = refl

cancelled_found : find "first" cancelled_mem ≡ some answered
unfolding happens
cancelled_found = refl

cancelled_mem-IsOnce : IsOnce cancelled_mem
cancelled_mem-IsOnce =
    happens-IsOnce cancelling one_pending cancelling_fresh one_pending-IsWellFormed.once

abbrev late_events : List Event
late_events =
    calls (resolves "first" "[]" (some 7))
    ∷ (cancels_result "first" ∷ (calls (fails none none "device_offline" true) ∷ []))

late_events_fresh : AllFreshEvents late_events cancelled_mem
unfolding AllFreshEvents
late_events_fresh = (tt, (tt, (tt, tt)))

settled_once_example :
    let after = happens late_events cancelled_mem in
    ((q : Entry) × (find "first" after ≡ some q) × IsLater answered.1 q.1)
    × (left "first" cancelled_mem ≡ some answered
        → (row "first" after ≡ none)
          × (resolve "first" "{}" (some 7) after ≡ (false, after))
          × (mark_acked "first" (some 7) after ≡ (false, after))
          × (expire "first" after ≡ (none, after)))
settled_once_example =
    settled_once late_events "first" "{}" (some 7) cancelled_mem answered cancelled_mem-IsOnce
      late_events_fresh cancelled_found

abbrev second : Entry
second = ("second", new_entry "tablet" "device.status" 1 (some 8))

second_is_other : ¬ (IsOfDevice none second.1 × IsOfConnection (some 7) second.1)
second_is_other h = absurd (ground (arith, h.1))

fail_exact_example :
    let (names, after) = fail none (some 7) "device_offline" false one_pending in
    ((row "first" after ≡ none)
      × (rowcount (λ s. str_eq s "first") names ≡ 1)
      × (e : PendingInvocation) × (left "first" after ≡ some ("first", e))
      × IsInterrupted "device_offline" false first.1 e)
    × ((row "second" after ≡ some second)
        × (left "second" after ≡ none)
        × (rowcount (λ s. str_eq s "second") names ≡ 0))
fail_exact_example = (
  (fail_exact none (some 7) "device_offline" false "first" one_pending one_pending-IsWellFormed).0
      first refl tt refl,
  (fail_exact none (some 7) "device_offline" false "second" one_pending one_pending-IsWellFormed).1
      second refl second_is_other,
)

fail_interrupts_example :
    (e : PendingInvocation) × (left "first" (fail none (some 7) "revoked" true one_pending).1
      ≡ some ("first", e))
    × (e.disconnect_future ≡ resolved "revoked")
    × (first.1.ack_future ≡ waiting → e.ack_future ≡ disconnected "revoked")
    × (is_done first.1.ack_future ≡ true
        → (e.result_future ≡ disconnected "revoked") × (e.ack_future ≡ first.1.ack_future))
    × (◌≡◌ {A = Bool} true true → e.result_future ≡ disconnected "revoked")
fail_interrupts_example =
    fail_interrupts none (some 7) "revoked" true "first" one_pending first one_pending-IsWellFormed
      refl refl
