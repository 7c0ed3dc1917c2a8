-- ===== src/Invocations/Exact.antt =====
-- `_fail`: which entries leave and which stay, by the device and connection that are given.
use hermes_device_protocol.Prelude.Sql.{fetchone-All, rowcount}
use hermes_device_protocol.Prelude.{
  Bool, Bool-cases, Option, Option-cases, String, arith, eq_iff, false, if◌then◌else◌, inl, inr,
  none, refl, some, str_eq, true, ℕ, ◌∙◌, ◌≡◌,
}
use hermes_device_protocol.Invocations.Fail.{fail_rows, names_once}
use hermes_device_protocol.Invocations.Table.{IsWaiting, IsWellFormed, left, pending_not_gone, row}
use hermes_device_protocol.Invocations.{
  Entry, InvocationsMem, PendingInvocation, disconnected, fail, fail_entry, has_id, is_device,
  is_done, is_from, is_target, resolved, waiting,
}

-- The device is the entry's, and the connection is the one that the entry was dispatched through,
-- as far as they are given.
abbrev pub IsOfDevice : Option String → PendingInvocation → Type 0
IsOfDevice none entry = Unit {0}
IsOfDevice (some d) entry = entry.device_id ≡ d

abbrev pub IsOfConnection : Option ℕ → PendingInvocation → Type 0
IsOfConnection none entry = Unit {0}
IsOfConnection (some c) entry = entry.connection ≡ some c

is_device-IsOfDevice :
    (device_id : Option String) (entry : PendingInvocation)
    → (is_device device_id entry ≡ true → IsOfDevice device_id entry)
      × (IsOfDevice device_id entry → is_device device_id entry ≡ true)
is_device-IsOfDevice none entry = (λ _. tt, λ _. refl)
is_device-IsOfDevice (some d) entry = eq_iff entry.device_id d

is_from-IsOfConnection :
    (connection : Option ℕ) (entry : PendingInvocation)
    → (is_from connection entry ≡ true → IsOfConnection connection entry)
      × (IsOfConnection connection entry → is_from connection entry ≡ true)
is_from-IsOfConnection none entry = (λ _. tt, λ _. refl)
is_from-IsOfConnection (some c) entry = elim (Option-cases entry.connection) [
  | inl e ↦ rw e (λ h. ground arith, λ h. ground arith)
  | inr (d, e) ↦ rw e (λ h. ground arith, λ h. ground arith)
]

is_target_iff :
    (device_id : Option String) (connection : Option ℕ) (p : Entry)
    → (is_target device_id connection p ≡ true
        → IsOfDevice device_id p.1 × IsOfConnection connection p.1)
      × (IsOfDevice device_id p.1 × IsOfConnection connection p.1
          → is_target device_id connection p ≡ true)
is_target_iff device_id connection p =
    let (device, device_back) = is_device-IsOfDevice device_id p.1 in
    let (from, from_back) = is_from-IsOfConnection connection p.1 in
    (
      λ h. (device (ground arith), from (ground arith)),
      λ (of_device, of_connection).
          let d = device_back of_device in let c = from_back of_connection in ground arith,
    )

not_target :
    (device_id : Option String) (connection : Option ℕ) (p : Entry)
    → ¬ (IsOfDevice device_id p.1 × IsOfConnection connection p.1)
    → is_target device_id connection p ≡ false
not_target device_id connection p other = elim (Bool-cases (is_target device_id connection p)) [
  | inl e ↦ absurd (other ((is_target_iff device_id connection p).0 e))
  | inr e ↦ e
]

-- The entry that a caller is left with: its disconnect future has the reason; where no ack came, the
-- ack future has the exception, and the result future only if both are to fail; where one came, the
-- result future has it.
abbrev pub IsInterrupted : String → Bool → PendingInvocation → PendingInvocation → Type 0
IsInterrupted reason fail_both entry after =
    (entry.ack_future ≡ waiting
      → after ≡ record entry {
        disconnect_future = resolved reason;
        ack_future = disconnected reason;
        result_future = if fail_both then disconnected reason else waiting;
      })
    × (is_done entry.ack_future ≡ true
        → after ≡ record entry {
          disconnect_future = resolved reason;
          result_future = disconnected reason;
        })

fail_entry-IsInterrupted :
    (reason : String) (fail_both : Bool) (entry : PendingInvocation)
    → entry.result_future ≡ waiting
    → entry.disconnect_future ≡ waiting
    → IsInterrupted reason fail_both entry (fail_entry reason fail_both entry)
unfolding fail_entry
fail_entry-IsInterrupted reason fail_both entry result_waits disconnect_waits =
    (λ first. ground arith, λ acked. ground arith)

-- In a well-formed table, failing the calls of a device and a connection, each where it is given,
-- does this to every identifier: a pending entry of them leaves the table, its waiting futures are
-- settled as by IsInterrupted, and its name is returned once; any other pending entry stays as it is
-- and its name is not returned; and an identifier that is not pending stays so, what is gone under
-- it unchanged, and is not returned.
pub fail_exact :
    (device_id : Option String) (connection : Option ℕ) (reason : String) (fail_both : Bool)
    (k : String) (mem : InvocationsMem)
    → IsWellFormed mem
    → let (names, after) = fail device_id connection reason fail_both mem in
      ((p : Entry)
        → row k mem ≡ some p
        → IsOfDevice device_id p.1
        → IsOfConnection connection p.1
        → (row k after ≡ none)
          × (rowcount (λ s. str_eq s k) names ≡ 1)
          × (e : PendingInvocation) × (left k after ≡ some (p.0, e))
          × IsInterrupted reason fail_both p.1 e)
      × ((p : Entry)
          → row k mem ≡ some p
          → ¬ (IsOfDevice device_id p.1 × IsOfConnection connection p.1)
          → (row k after ≡ some p) × (left k after ≡ none) × (rowcount (λ s. str_eq s k) names ≡ 0))
      × (row k mem ≡ none
          → (row k after ≡ none)
            × (left k after ≡ left k mem)
            × (rowcount (λ s. str_eq s k) names ≡ 0))
fail_exact device_id connection reason fail_both k mem wf =
    let (at_row, at_gone, _) = fail_rows device_id connection reason fail_both k mem wf.once in
    let named = names_once device_id connection reason fail_both k mem wf.once in
    (
      λ p found of_device of_connection.
          let target = (is_target_iff device_id connection p).1 (of_device, of_connection) in
          let (result_waits, disconnect_waits) =
            fetchone-All IsWaiting (has_id k) mem.pending p wf.waits found in
          (
            at_row ∙ ground arith,
            named ∙ ground arith,
            fail_entry reason fail_both p.1,
            at_gone ∙ ground arith,
            fail_entry-IsInterrupted reason fail_both p.1 result_waits disconnect_waits,
          ),
      λ p found other.
          let spared : is_target device_id connection p ≡ false =
            not_target device_id connection p other in
          (
            at_row ∙ ground arith,
            at_gone ∙ ground (arith, pending_not_gone k mem p wf.once found),
            named ∙ ground arith,
          ),
      λ absent. (at_row ∙ ground arith, at_gone ∙ ground arith, named ∙ ground arith),
    )
