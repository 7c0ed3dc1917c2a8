-- ===== src/Pairing/Table.antt =====
-- The table of pairing codes seen through its key, `code_hash`: the row of one hash after a burn,
-- a consumption and a round of minting.
use hermes_device_protocol.Prelude.{
  ℕ, ◌≤◌, String, ◌≡◌, refl, Option, none, some, true, ◌&&◌, List, arith, str_eq, eq_iff,
  if◌then◌else◌,
}
use hermes_device_protocol.Prelude.Sql.{
  update, rowcount, fetchone, fetchone-update, rowcount-update,
}
use hermes_device_protocol.Store.{PairingCode}
use hermes_device_protocol.Pairing.{
  has_hash, is_live, charge, is_exhausted, burn_attempt, spend, consume_hash,
}

-- `code_hash TEXT PRIMARY KEY`
abbrev pub IsKeyed : List PairingCode → Type 0
IsKeyed rows = (h : String) → rowcount (has_hash h) rows ≤ 1

abbrev pub row : String → List PairingCode → Option PairingCode
row h rows = fetchone (has_hash h) rows

-- What `burn_attempt` does to one row.
abbrev pub invalidate : ℕ → PairingCode → PairingCode
invalidate now_ms r = record r { invalidated_at = some now_ms }

abbrev pub burn_charged : ℕ → PairingCode → PairingCode
burn_charged now_ms r = if is_exhausted r then invalidate now_ms r else r

abbrev pub burn_row : ℕ → PairingCode → PairingCode
burn_row now_ms r = burn_charged now_ms (if is_live now_ms r then charge r else r)

abbrev pub map_row : Option PairingCode → (PairingCode → PairingCode) → Option PairingCode
map_row none f = none
map_row (some r) f = some (f r)

pub row-burn_attempt :
    (h : String) (now_ms : ℕ) (rows : List PairingCode)
    → row h (burn_attempt now_ms rows).1 ≡ map_row (row h rows) (burn_row now_ms)
unfolding burn_attempt
row-burn_attempt h now_ms rows = ground (
  arith,
  fetchone-update (has_hash h) is_exhausted (invalidate now_ms)
      (update (is_live now_ms) charge rows) (λ r. refl),
  fetchone-update (has_hash h) (is_live now_ms) charge rows (λ r. refl),
)

pub row-consume_hash :
    (h k device_id : String) (now_ms : ℕ) (rows : List PairingCode)
    → row h (consume_hash k device_id now_ms rows).1
      ≡ map_row
          (row h rows)
          (λ r. if has_hash k r && is_live now_ms r then spend now_ms device_id r else r)
unfolding consume_hash
row-consume_hash h k device_id now_ms rows = ground (
  arith,
  fetchone-update (has_hash h) (λ r. has_hash k r && is_live now_ms r) (spend now_ms device_id) rows
      (λ r. refl),
)

pub has_hash_unique :
    (h k : String) (r : PairingCode) → has_hash h r ≡ true → has_hash k r ≡ str_eq h k
has_hash_unique h k r e = ground (arith, eq_iff r.code_hash h, eq_iff r.code_hash k, eq_iff h k)

pub burn_attempt-IsKeyed :
    (now_ms : ℕ) (rows : List PairingCode) → IsKeyed rows → IsKeyed (burn_attempt now_ms rows).1
unfolding burn_attempt
burn_attempt-IsKeyed now_ms rows keyed h = omega (
  arith,
  keyed h,
  rowcount-update (has_hash h) is_exhausted (invalidate now_ms)
      (update (is_live now_ms) charge rows) (λ r. refl),
  rowcount-update (has_hash h) (is_live now_ms) charge rows (λ r. refl),
)

pub consume_hash-IsKeyed :
    (k device_id : String) (now_ms : ℕ) (rows : List PairingCode)
    → IsKeyed rows
    → IsKeyed (consume_hash k device_id now_ms rows).1
unfolding consume_hash
consume_hash-IsKeyed k device_id now_ms rows keyed h = omega (
  arith,
  keyed h,
  rowcount-update (has_hash h) (λ r. has_hash k r && is_live now_ms r) (spend now_ms device_id) rows
      (λ r. refl),
)
