-- ===== src/Invocations/Callers.antt =====
-- hdp-bridge/hdp_bridge/control.py: what `_ctl_invoke` and `_ctl_cancel`, which hold the object of an
-- invocation, do to its futures, in the table or after it has left. An event is one such step or a
-- call of a method of the table, so a sequence of events is any interleaving of them.
use hermes_device_protocol.Prelude.Sql.{update}
use hermes_device_protocol.Prelude.{List, String, [], if◌then◌else◌, ◌∷◌}
use hermes_device_protocol.Invocations.{
  InvocationsMem, Op, PendingInvocation, cancelled, expires, has_id, is_pending, resolved, settle,
  step,
}

-- An assignment to the object, wherever it is held.
abbrev pub touch :
    String → (PendingInvocation → PendingInvocation) → InvocationsMem → InvocationsMem
touch i f mem = record {
  pending = update (has_id i) (λ p. (p.0, f p.1)) mem.pending;
  gone = update (has_id i) (λ p. (p.0, f p.1)) mem.gone;
}

-- `if not future.done(): future.cancel()`, and what a timeout of `asyncio.wait_for` does
abbrev pub cancel_ack : PendingInvocation → PendingInvocation
cancel_ack entry = record entry { ack_future = settle cancelled entry.ack_future }

abbrev pub cancel_result : PendingInvocation → PendingInvocation
cancel_result entry = record entry { result_future = settle cancelled entry.result_future }

abbrev pub cancel_disconnect : PendingInvocation → PendingInvocation
cancel_disconnect entry = record entry {
  disconnect_future = settle cancelled entry.disconnect_future;
}

-- The end of `_ctl_cancel`, with the negative result that it makes.
abbrev pub answer : String → PendingInvocation → PendingInvocation
answer cancelled_result entry = record entry {
  ack_future = settle (resolved tt) entry.ack_future;
  result_future = settle (resolved cancelled_result) entry.result_future;
}

pub data Event : Type 0 where
  calls : Op → Event
  cancels_ack : String → Event
  cancels_result : String → Event
  cancels_disconnect : String → Event
  answers : String → String → Event

unfoldable pub happen : Event → InvocationsMem → InvocationsMem
unfolding step
happen (calls op) mem = step op mem
happen (cancels_ack i) mem = touch i cancel_ack mem
happen (cancels_result i) mem = touch i cancel_result mem
happen (cancels_disconnect i) mem = touch i cancel_disconnect mem
happen (answers i cancelled_result) mem = touch i (answer cancelled_result) mem

unfoldable pub happens : List Event → InvocationsMem → InvocationsMem
unfolding happen
happens [] mem = mem
happens (e ∷ es) mem = happens es (happen e mem)

-- `_cancel_and_drain` of the three futures of an entry
abbrev pub cancel_and_drain : String → List Event
cancel_and_drain i = cancels_ack i ∷ (cancels_result i ∷ (cancels_disconnect i ∷ []))

-- The events of `_abort_dispatched` and of `_ctl_cancel`; others may come between, while the cancel
-- frame is sent.
abbrev pub abort_dispatched : String → List Event
abort_dispatched i = calls (expires i) ∷ cancel_and_drain i

unfoldable pub ctl_cancel : String → String → InvocationsMem → List Event
ctl_cancel i cancelled_result mem =
    if is_pending i mem then calls (expires i) ∷ (answers i cancelled_result ∷ []) else []
