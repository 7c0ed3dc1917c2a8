-- ===== src/Invocations/Happened.antt =====
-- Any interleaving of the table's methods and of what callers do keeps each identifier in one place,
-- and follows the object of an invocation.
use hermes_device_protocol.Invocations.Followed.{Follows, step-Follows, touch-Follows}
use hermes_device_protocol.Prelude.Sql.{fetchone-update, rowcount-update}
use hermes_device_protocol.Prelude.{List, String, [], arith, if◌then◌else◌, refl, some, ◌∷◌, ◌≡◌}
use hermes_device_protocol.Invocations.Gone.{step-left}
use hermes_device_protocol.Invocations.Later.{IsLater-refl, IsLater-trans, settle-Stands}
use hermes_device_protocol.Invocations.Once.{IsFresh, step-IsOnce}
use hermes_device_protocol.Invocations.Callers.{
  Event, answer, answers, calls, cancel_ack, cancel_disconnect, cancel_result, cancels_ack,
  cancels_disconnect, cancels_result, happen, happens, touch,
}
use hermes_device_protocol.Invocations.Table.{IsOnce, left}
use hermes_device_protocol.Invocations.{
  Entry, InvocationsMem, PendingInvocation, cancelled, has_id, resolved,
}

abbrev pub IsFreshEvent : Event → InvocationsMem → Type 0
IsFreshEvent (calls op) mem = IsFresh op mem
IsFreshEvent _ mem = Unit {0}

unfoldable pub AllFreshEvents : List Event → InvocationsMem → Type 0
unfolding happen
AllFreshEvents [] mem = Unit {0}
AllFreshEvents (e ∷ es) mem = IsFreshEvent e mem × AllFreshEvents es (happen e mem)

touch-IsOnce :
    (k : String) (f : PendingInvocation → PendingInvocation) (mem : InvocationsMem)
    → IsOnce mem
    → IsOnce (touch k f mem)
touch-IsOnce k f mem once i =
    let touched : Entry → Entry = λ r. (r.0, f r.1) in
    omega (
      arith,
      once i,
      rowcount-update (has_id i) (has_id k) touched mem.pending (λ r. refl),
      rowcount-update (has_id i) (has_id k) touched mem.gone (λ r. refl),
    )

touch-left :
    (k : String) (f : PendingInvocation → PendingInvocation) (i : String) (mem : InvocationsMem)
    (p : Entry)
    → left i mem ≡ some p
    → (q : Entry) × (left i (touch k f mem) ≡ some q)
touch-left k f i mem p found =
    let touched : Entry → Entry = λ r. (r.0, f r.1) in
    (
      if has_id k p then touched p else p,
      ground (arith, fetchone-update (has_id i) (has_id k) touched mem.gone (λ r. refl)),
    )

happen-IsOnce :
    (e : Event) (mem : InvocationsMem) → IsFreshEvent e mem → IsOnce mem → IsOnce (happen e mem)
unfolding happen
happen-IsOnce (calls op) mem fresh once = step-IsOnce op mem fresh once
happen-IsOnce (cancels_ack k) mem _ once = touch-IsOnce k cancel_ack mem once
happen-IsOnce (cancels_result k) mem _ once = touch-IsOnce k cancel_result mem once
happen-IsOnce (cancels_disconnect k) mem _ once = touch-IsOnce k cancel_disconnect mem once
happen-IsOnce (answers k result) mem _ once = touch-IsOnce k (answer result) mem once

happen-left :
    (e : Event) (i : String) (mem : InvocationsMem) (p : Entry)
    → left i mem ≡ some p
    → (q : Entry) × (left i (happen e mem) ≡ some q)
unfolding happen
happen-left (calls op) i mem p found = (p, step-left op i mem p found)
happen-left (cancels_ack k) i mem p found = touch-left k cancel_ack i mem p found
happen-left (cancels_result k) i mem p found = touch-left k cancel_result i mem p found
happen-left (cancels_disconnect k) i mem p found = touch-left k cancel_disconnect i mem p found
happen-left (answers k result) i mem p found = touch-left k (answer result) i mem p found

happen-Follows :
    (e : Event) (i : String) (mem : InvocationsMem)
    → IsFreshEvent e mem
    → IsOnce mem
    → Follows i mem (happen e mem)
unfolding happen
happen-Follows (calls op) i mem fresh once = step-Follows op i mem fresh once
happen-Follows (cancels_ack k) i mem _ once =
    touch-Follows k cancel_ack i mem
      (λ e. (settle-Stands cancelled e.ack_future, λ _. refl, λ _. refl))
happen-Follows (cancels_result k) i mem _ once =
    touch-Follows k cancel_result i mem
      (λ e. (λ _. refl, settle-Stands cancelled e.result_future, λ _. refl))
happen-Follows (cancels_disconnect k) i mem _ once =
    touch-Follows k cancel_disconnect i mem
      (λ e. (λ _. refl, λ _. refl, settle-Stands cancelled e.disconnect_future))
happen-Follows (answers k result) i mem _ once = touch-Follows k (answer result) i mem (λ e. (
  settle-Stands (resolved tt) e.ack_future,
  settle-Stands (resolved result) e.result_future,
  λ _. refl,
))

pub happens-IsOnce :
    (es : List Event) (mem : InvocationsMem)
    → AllFreshEvents es mem
    → IsOnce mem
    → IsOnce (happens es mem)
unfolding happens AllFreshEvents
happens-IsOnce [] mem _ once = once
happens-IsOnce (e ∷ es) mem fresh once =
    happens-IsOnce es (happen e mem) fresh.1 (happen-IsOnce e mem fresh.0 once)

pub happens-left :
    (es : List Event) (i : String) (mem : InvocationsMem) (p : Entry)
    → left i mem ≡ some p
    → (q : Entry) × (left i (happens es mem) ≡ some q)
unfolding happens
happens-left [] i mem p found = (p, found)
happens-left (e ∷ es) i mem p found =
    let (q, later) = happen-left e i mem p found in happens-left es i (happen e mem) q later

pub happens-Follows :
    (es : List Event) (i : String) (mem : InvocationsMem)
    → AllFreshEvents es mem
    → IsOnce mem
    → Follows i mem (happens es mem)
unfolding happens AllFreshEvents
happens-Follows [] i mem _ once p at = (p, at, IsLater-refl p.1)
happens-Follows (e ∷ es) i mem fresh once p at =
    let (q, at_q, pq) = happen-Follows e i mem fresh.0 once p at in
    let (r, at_r, qr) =
      happens-Follows es i (happen e mem) fresh.1 (happen-IsOnce e mem fresh.0 once) q at_q in
    (r, at_r, IsLater-trans p.1 q.1 r.1 pq qr)
