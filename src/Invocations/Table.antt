-- ===== src/Invocations/Table.antt =====
-- The pending invocations and those that have left, seen through one identifier.
use hermes_device_protocol.Invocations.{
  Entry, InvocationsMem, PendingInvocation, has_id, remove, waiting,
}
use hermes_device_protocol.Prelude.Sql.{delete, fetchone, rowcount, rowcount-append}
use hermes_device_protocol.Prelude.{
  All, Bool-cases, List, Option, String, [], arith, eq_iff, if◌then◌else◌, inl, inr, none, refl,
  some, str_eq, ℕ, ◌+◌, ◌∷◌, ◌≡◌, ◌≤◌,
}

abbrev pub row : String → InvocationsMem → Option Entry
row i mem = fetchone (has_id i) mem.pending

abbrev pub left : String → InvocationsMem → Option Entry
left i mem = fetchone (has_id i) mem.gone

-- How often an identifier occurs, pending or gone.
abbrev pub occurrences : String → InvocationsMem → ℕ
occurrences i mem = rowcount (has_id i) mem.pending + rowcount (has_id i) mem.gone

-- Nothing has settled what a pending entry's caller waits for.
abbrev pub IsWaiting : Entry → Type 0
IsWaiting p = (p.1.result_future ≡ waiting) × (p.1.disconnect_future ≡ waiting)

-- No identifier is in the table twice, or both in it and gone, or gone twice.
abbrev pub IsOnce : InvocationsMem → Type 0
IsOnce mem = (i : String) → occurrences i mem ≤ 1

pub record IsWellFormed (mem : InvocationsMem) : Type 0 where
  pub once : IsOnce mem
  pub waits : All IsWaiting mem.pending

pub fetchone-delete_id :
    (k i : String) (rows : List Entry)
    → fetchone (has_id k) (delete (has_id i) rows)
      ≡ (if str_eq i k then none else fetchone (has_id k) rows)
fetchone-delete_id k i [] = ground arith
fetchone-delete_id k i (r ∷ rows) =
    ground (arith, fetchone-delete_id k i rows, eq_iff r.0 k, eq_iff r.0 i, eq_iff i k)

pub rowcount-delete_id :
    (k i : String) (rows : List Entry)
    → rowcount (has_id k) (delete (has_id i) rows)
      ≡ (if str_eq i k then 0 else rowcount (has_id k) rows)
rowcount-delete_id k i [] = ground arith
rowcount-delete_id k i (r ∷ rows) =
    ground (arith, rowcount-delete_id k i rows, eq_iff r.0 k, eq_iff r.0 i, eq_iff i k)

pub rowcount_found :
    (i : String) (rows : List Entry) (p : Entry)
    → fetchone (has_id i) rows ≡ some p
    → 1 ≤ rowcount (has_id i) rows
rowcount_found i [] p h = absurd (ground arith)
rowcount_found i (r ∷ rows) p h = ground (arith, rowcount_found i rows p)

pub fetchone_counted :
    (i : String) (rows : List Entry)
    → rowcount (has_id i) rows ≤ 0
    → fetchone (has_id i) rows ≡ none
fetchone_counted i [] h = refl
fetchone_counted i (r ∷ rows) h = ground (arith, fetchone_counted i rows)

-- An entry that leaves takes its one occurrence along.
pub occurrences-remove :
    (k i : String) (entry : PendingInvocation) (mem : InvocationsMem)
    → 1 ≤ rowcount (has_id i) mem.pending
    → occurrences k (remove i entry mem) ≤ occurrences k mem
occurrences-remove k i entry mem found = elim (Bool-cases (str_eq i k)) [
  | inl e ↦
      let found_k : 1 ≤ rowcount (has_id k) mem.pending = rw ((eq_iff i k).0 e) at found in
      ground (
        arith,
        rowcount-delete_id k i mem.pending,
        rowcount-append (has_id k) mem.gone ((i, entry) ∷ []),
      )
  | inr e ↦ ground (
    arith,
    rowcount-delete_id k i mem.pending,
    rowcount-append (has_id k) mem.gone ((i, entry) ∷ []),
  )
]

pub remove-IsOnce :
    (i : String) (entry : PendingInvocation) (mem : InvocationsMem)
    → 1 ≤ rowcount (has_id i) mem.pending
    → IsOnce mem
    → IsOnce (remove i entry mem)
remove-IsOnce i entry mem found once k =
    omega (arith, occurrences-remove k i entry mem found, once k)

-- A pending identifier is not also gone.
pub pending_not_gone :
    (i : String) (mem : InvocationsMem) (p : Entry)
    → IsOnce mem
    → row i mem ≡ some p
    → left i mem ≡ none
pending_not_gone i mem p once found =
    fetchone_counted i mem.gone (omega (arith, once i, rowcount_found i mem.pending p found))

pub gone_not_pending :
    (i : String) (mem : InvocationsMem) (p : Entry)
    → IsOnce mem
    → left i mem ≡ some p
    → row i mem ≡ none
gone_not_pending i mem p once found =
    fetchone_counted i mem.pending (omega (arith, once i, rowcount_found i mem.gone p found))
