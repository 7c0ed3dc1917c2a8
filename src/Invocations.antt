-- ===== src/Invocations.antt =====
-- hdp-bridge/hdp_bridge/invocations.py: the table of pending invocations. An entry's futures are
-- read by whoever awaits them after the entry has left the table, so the entries that have left are
-- kept in `gone`. No method reaches those, but callers such as control.py's `_ctl_cancel` still cancel
-- or settle their futures (Callers). A connection is the number of the object (`is`), a result the
-- text of its JSON; the descriptor, which is only carried, is left out.
pub mod Table
pub mod Once
pub mod Callers
pub mod Later
pub mod Followed
pub mod Gone
pub mod Happened
pub mod Invariant
pub mod Settled
pub mod Fail
pub mod Exact
mod Tests
use hermes_device_protocol.Prelude.{
  Bool, List, Option, String, [], false, if◌then◌else◌, is_some, none, not, some, str_eq, true, ℕ,
  ◌&&◌, ◌++◌, ◌==◌, ◌||◌, ◌∷◌,
}
use hermes_device_protocol.Prelude.Sql.{delete, fetchone, on_row, update}

-- `asyncio.Future`; an exception is a DeviceDisconnected with its reason. No method of the table
-- cancels a future: those who wait do.
pub data Future (A : Type 0) : Type 0 where
  waiting : Future A
  cancelled : Future A
  resolved : A → Future A
  disconnected : String → Future A

abbrev pub is_done : {A : Type 0} → Future A → Bool
is_done waiting = false
is_done _ = true

-- `if not future.done(): future.set_...`
abbrev pub settle : {A : Type 0} → Future A → Future A → Future A
settle value waiting = value
settle value future = future

pub record PendingInvocation : Type 0 where
  pub device_id : String
  pub ack_future : Future (Unit {0})
  pub result_future : Future String
  pub connection : Option ℕ
  pub capability : String
  pub version : ℕ
  pub disconnect_future : Future String

abbrev pub Entry : Type 0
Entry = String × PendingInvocation

pub record InvocationsMem : Type 0 where
  pub pending : List Entry
  pub gone : List Entry

abbrev pub has_id : String → Entry → Bool
has_id i p = str_eq p.0 i

-- connection is None or entry.connection is connection
abbrev pub same_object : Option ℕ → ℕ → Bool
same_object none c = false
same_object (some d) c = d == c

abbrev pub is_from : Option ℕ → PendingInvocation → Bool
is_from none entry = true
is_from (some c) entry = same_object entry.connection c

abbrev pub new_entry : String → String → ℕ → Option ℕ → PendingInvocation
new_entry device_id capability version connection = record {
  device_id = device_id;
  ack_future = waiting;
  result_future = waiting;
  connection = connection;
  capability = capability;
  version = version;
  disconnect_future = waiting;
}

-- `self._pending[invocation_id] = entry`, which drops an entry that the id already had
unfoldable pub put_entry : String → PendingInvocation → InvocationsMem → InvocationsMem
put_entry i entry mem =
    on_row (fetchone (has_id i) mem.pending)
      (record mem { pending = mem.pending ++ ((i, entry) ∷ []) })
      λ old. record {
        pending = update (has_id i) (λ _. (i, entry)) mem.pending;
        gone = mem.gone ++ (old ∷ []);
      }

-- `mint_for`, with the identifier that `ids.new()` returns
unfoldable pub mint_for : String → String → String → ℕ → Option ℕ → InvocationsMem → InvocationsMem
unfolding put_entry
mint_for i device_id capability version connection =
    put_entry i (new_entry device_id capability version connection)

abbrev pub acknowledge : Entry → Entry
acknowledge (i, entry) = (i, record entry { ack_future = resolved tt })

unfoldable pub mark_acked : String → Option ℕ → InvocationsMem → Bool × InvocationsMem
mark_acked i connection mem =
    on_row (fetchone (has_id i) mem.pending) (false, mem)
      λ p.
        if is_done p.1.ack_future || not (is_from connection p.1)
        then (false, mem)
        else (true, record mem { pending = update (has_id i) acknowledge mem.pending })

-- `del self._pending[invocation_id]`, the entry being as given when it leaves
abbrev pub remove : String → PendingInvocation → InvocationsMem → InvocationsMem
remove i entry mem = record {
  pending = delete (has_id i) mem.pending;
  gone = mem.gone ++ ((i, entry) ∷ []);
}

abbrev pub with_result : String → PendingInvocation → PendingInvocation
with_result result entry = record entry {
  result_future = settle (resolved result) entry.result_future;
}

unfoldable pub resolve : String → String → Option ℕ → InvocationsMem → Bool × InvocationsMem
resolve i result connection mem =
    on_row (fetchone (has_id i) mem.pending) (false, mem)
      λ p.
        if not (is_from connection p.1)
        then (false, mem)
        else (true, remove i (with_result result p.1) mem)

unfoldable pub expire : String → InvocationsMem → Option PendingInvocation × InvocationsMem
expire i mem =
    on_row (fetchone (has_id i) mem.pending) (none, mem) λ p. (some p.1, remove i p.1 mem)

abbrev pub is_device : Option String → PendingInvocation → Bool
is_device none entry = true
is_device (some d) entry = str_eq entry.device_id d

-- The futures of an entry that is failed: `if not ack_future.done(): ... elif ...`.
unfoldable pub fail_entry : String → Bool → PendingInvocation → PendingInvocation
fail_entry reason fail_both entry = record entry {
  disconnect_future = settle (resolved reason) entry.disconnect_future;
  ack_future = settle (disconnected reason) entry.ack_future;
  result_future =
      if is_done entry.ack_future || fail_both
      then settle (disconnected reason) entry.result_future
      else entry.result_future;
}

abbrev pub is_target : Option String → Option ℕ → Entry → Bool
is_target device_id connection p = is_device device_id p.1 && is_from connection p.1

module _ (device_id : Option String) (connection : Option ℕ) (reason : String)
    (fail_both : Bool) where
  -- The loop of `_fail` over a copy of the items.
  unfoldable pub fail_loop : List Entry → InvocationsMem → List String × InvocationsMem
  unfolding fail_entry
  fail_loop [] mem = ([], mem)
  fail_loop (p ∷ items) mem =
      let rest = fail_loop items (
        if is_target device_id connection p
        then remove p.0 (fail_entry reason fail_both p.1) mem
        else mem) in
      (if is_target device_id connection p then p.0 ∷ rest.0 else rest.0, rest.1)

  -- `_fail`
  unfoldable pub fail : InvocationsMem → List String × InvocationsMem
  unfolding fail_loop
  fail mem = fail_loop mem.pending mem

unfoldable pub fail_all : InvocationsMem → List String × InvocationsMem
unfolding fail
fail_all = fail none none "device_offline" false

unfoldable pub fail_all_for_device :
    String → String → Bool → InvocationsMem → List String × InvocationsMem
unfolding fail
fail_all_for_device device_id reason fail_both = fail (some device_id) none reason fail_both

-- The connection is an object, so never None.
unfoldable pub fail_all_for_connection : ℕ → String → InvocationsMem → List String × InvocationsMem
unfolding fail
fail_all_for_connection connection reason = fail none (some connection) reason false

abbrev pub is_pending : String → InvocationsMem → Bool
is_pending i mem = is_some (fetchone (has_id i) mem.pending)

-- One call of a method.
pub data Op : Type 0 where
  mints : String → String → String → ℕ → Option ℕ → Op
  acks : String → Option ℕ → Op
  resolves : String → String → Option ℕ → Op
  expires : String → Op
  fails : Option String → Option ℕ → String → Bool → Op

unfoldable pub step : Op → InvocationsMem → InvocationsMem
unfolding mint_for mark_acked resolve expire fail
step (mints i device_id capability version connection) mem =
    mint_for i device_id capability version connection mem
step (acks i connection) mem = (mark_acked i connection mem).1
step (resolves i result connection) mem = (resolve i result connection mem).1
step (expires i) mem = (expire i mem).1
step (fails device_id connection reason fail_both) mem =
    (fail device_id connection reason fail_both mem).1

unfoldable pub steps : List Op → InvocationsMem → InvocationsMem
unfolding step
steps [] mem = mem
steps (op ∷ ops) mem = steps ops (step op mem)
