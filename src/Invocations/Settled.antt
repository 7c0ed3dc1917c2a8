-- ===== src/Invocations/Settled.antt =====
-- What a caller sees of one invocation: the frames that settle it, and that a settled future stands.
use hermes_device_protocol.Prelude.Sql.{
  fetchone, fetchone-All, fetchone-append, fetchone-delete_self, fetchone-update, fetchone_holds,
  update,
}
use hermes_device_protocol.Prelude.{
  List, Option, String, [], arith, eq_refl, false, none, not, refl, some, true, ℕ, ◌||◌, ◌∷◌, ◌≡◌,
}
use hermes_device_protocol.Invocations.Happened.{
  AllFreshEvents, happens-Follows, happens-IsOnce, happens-left,
}
use hermes_device_protocol.Invocations.Later.{IsLater, find}
use hermes_device_protocol.Invocations.Callers.{Event, happens}
use hermes_device_protocol.Invocations.Table.{
  IsOnce, IsWaiting, IsWellFormed, gone_not_pending, left, pending_not_gone, row,
}
use hermes_device_protocol.Invocations.{
  Entry, InvocationsMem, acknowledge, expire, has_id, is_done, is_from, mark_acked, resolve,
  resolved, waiting, with_result,
}

absent_ignored :
    (i result : String) (connection : Option ℕ) (mem : InvocationsMem)
    → row i mem ≡ none
    → (resolve i result connection mem ≡ (false, mem))
      × (mark_acked i connection mem ≡ (false, mem))
      × (expire i mem ≡ (none, mem))
unfolding resolve mark_acked expire
absent_ignored i result connection mem absent = rw absent (refl, refl, refl)

-- Take a table in which each identifier stands once, and the object of one invocation, pending or
-- gone. Whatever follows (calls of the table's methods with fresh identifiers, and callers who cancel
-- its futures or answer a cancellation, in any order), each of its futures that is done keeps its
-- outcome. And if it has left the table, it stays out of it, and a late result, a late ack and a late
-- expiry change nothing and say so.
pub settled_once :
    (events : List Event) (i result : String) (connection : Option ℕ) (mem : InvocationsMem)
    (p : Entry)
    → IsOnce mem
    → AllFreshEvents events mem
    → find i mem ≡ some p
    → let after = happens events mem in
      ((q : Entry) × (find i after ≡ some q) × IsLater p.1 q.1)
      × (left i mem ≡ some p
          → (row i after ≡ none)
            × (resolve i result connection after ≡ (false, after))
            × (mark_acked i connection after ≡ (false, after))
            × (expire i after ≡ (none, after)))
settled_once events i result connection mem p once fresh at = (
  happens-Follows events i mem fresh once p at,
  λ gone.
      let (q, later) = happens-left events i mem p gone in
      let absent =
        gone_not_pending i (happens events mem) q (happens-IsOnce events mem fresh once) later in
      let (result_ignored, ack_ignored, expiry_ignored) =
        absent_ignored i result connection (happens events mem) absent in
      (absent, result_ignored, ack_ignored, expiry_ignored),
)

-- In a well-formed table, a result frame for a pending invocation, from its own connection,
-- removes it and hands the result to its caller, and leaves the ack as it was: a result does not
-- count as an ack. From another connection it changes nothing.
pub resolve_delivers :
    (i result : String) (connection : Option ℕ) (mem : InvocationsMem) (p : Entry)
    → IsWellFormed mem
    → row i mem ≡ some p
    → (is_from connection p.1 ≡ true
        → ((resolve i result connection mem).0 ≡ true)
          × (row i (resolve i result connection mem).1 ≡ none)
          × (left i (resolve i result connection mem).1
              ≡ some (i, record p.1 { result_future = resolved result })))
      × (is_from connection p.1 ≡ false → resolve i result connection mem ≡ (false, mem))
unfolding resolve
resolve_delivers i result connection mem p wf found =
    let waits = (fetchone-All IsWaiting (has_id i) mem.pending p wf.waits found).0 in
    let unused = pending_not_gone i mem p wf.once found in
    rw found (
      λ own. ground (
        arith,
        eq_refl i,
        fetchone-delete_self (has_id i) mem.pending,
        fetchone-append (has_id i) mem.gone ((i, with_result result p.1) ∷ []),
      ),
      λ other. ground arith,
    )

-- An invocation is acknowledged at most once: an ack from its own connection, where none came
-- before, is taken and seen by the caller, and the next one, from wherever it comes, is not.
pub ack_once :
    (i : String) (connection other : Option ℕ) (mem : InvocationsMem) (p : Entry)
    → row i mem ≡ some p
    → p.1.ack_future ≡ waiting
    → is_from connection p.1 ≡ true
    → ((mark_acked i connection mem).0 ≡ true)
      × (row i (mark_acked i connection mem).1 ≡ some (acknowledge p))
      × (mark_acked i other (mark_acked i connection mem).1
          ≡ (false, (mark_acked i connection mem).1))
unfolding mark_acked
ack_once i connection other mem p found first own =
    let seen : fetchone (has_id i) (update (has_id i) acknowledge mem.pending)
        ≡ some (acknowledge p) =
      ground (
        arith,
        fetchone-update (has_id i) (has_id i) acknowledge mem.pending (λ r. refl),
        fetchone_holds (has_id i) mem.pending p found,
      ) in
    let taken : (is_done p.1.ack_future || not (is_from connection p.1)) ≡ false = ground arith in
    rw found (rw taken (refl, seen, rw seen refl))
