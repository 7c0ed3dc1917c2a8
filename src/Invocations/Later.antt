-- ===== src/Invocations/Later.antt =====
-- What happens to an invocation's object, through any events: a future that is done keeps its
-- outcome.
use hermes_device_protocol.Prelude.Sql.{on_row}
use hermes_device_protocol.Prelude.{
  Bool, Bool-cases, Option, String, arith, inl, inr, refl, some, true, ◌||◌, ◌∙◌, ◌≡◌,
}
use hermes_device_protocol.Invocations.Table.{left, row}
use hermes_device_protocol.Invocations.{
  Entry, Future, InvocationsMem, PendingInvocation, cancelled, disconnected, fail_entry, is_done,
  resolved, settle, waiting,
}

-- The object of an invocation, in the table or not.
abbrev pub find : String → InvocationsMem → Option Entry
find i mem = on_row (row i mem) (left i mem) some

abbrev pub Stands : {A : Type 0} → Future A → Future A → Type 0
Stands before after = is_done before ≡ true → after ≡ before

-- Each future that is done is as it was.
abbrev pub IsLater : PendingInvocation → PendingInvocation → Type 0
IsLater before after =
    Stands before.ack_future after.ack_future
    × Stands before.result_future after.result_future
    × Stands before.disconnect_future after.disconnect_future

Stands-trans : {A : Type 0} (f g h : Future A) → Stands f g → Stands g h → Stands f h
Stands-trans f g h first then_ done = let same = first done in then_ (rw same done) ∙ same

pub IsLater-refl : (e : PendingInvocation) → IsLater e e
IsLater-refl e = (λ _. refl, λ _. refl, λ _. refl)

pub IsLater-trans : (a b c : PendingInvocation) → IsLater a b → IsLater b c → IsLater a c
IsLater-trans a b c ab bc = (
  Stands-trans a.ack_future b.ack_future c.ack_future ab.0 bc.0,
  Stands-trans a.result_future b.result_future c.result_future ab.1 bc.1,
  Stands-trans a.disconnect_future b.disconnect_future c.disconnect_future ab.2 bc.2,
)

pub settle-Stands : {A : Type 0} (value f : Future A) → Stands f (settle value f)
settle-Stands value waiting done = absurd (ground arith)
settle-Stands value cancelled done = refl
settle-Stands value (resolved a) done = refl
settle-Stands value (disconnected reason) done = refl

pub fail_entry-IsLater :
    (reason : String) (fail_both : Bool) (e : PendingInvocation)
    → IsLater e (fail_entry reason fail_both e)
unfolding fail_entry
fail_entry-IsLater reason fail_both e = (
  settle-Stands (disconnected reason) e.ack_future,
  elim (Bool-cases (is_done e.ack_future || fail_both)) [
    | inl c ↦ rw c (settle-Stands (disconnected reason) e.result_future)
    | inr c ↦ rw c (λ _. refl)
  ],
  settle-Stands (resolved reason) e.disconnect_future,
)
