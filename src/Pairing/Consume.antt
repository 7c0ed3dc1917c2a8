-- ===== src/Pairing/Consume.antt =====
-- Consumption of a pairing code: it succeeds exactly on a live code, marks its row alone, and
-- never succeeds again.
use hermes_device_protocol.Prelude.{
  ℕ, String, ◌≡◌, refl, sym, ap, ◌∙◌, Bool, true, false, ◌&&◌, List, arith, str_eq, Option-cases,
  inl, inr, some,
}
use hermes_device_protocol.Prelude.Sql.{
  fetchone, on_row, fetchone_unique, rowcount_unique, fetchone_holds,
}
use hermes_device_protocol.Prelude.Result.{Result, ok, err, ◌>>=◌}
use hermes_device_protocol.Store.{Text, Python, PairingCode}
use hermes_device_protocol.Pairing.{
  hash_code, has_hash, is_unspent, is_live, code_is_live, spend, consume_hash, consume_pairing_code,
  burn_attempt, row_status, PairingError, consumed,
}
use hermes_device_protocol.Pairing.Table.{
  IsKeyed, row, row-consume_hash, row-burn_attempt, has_hash_unique, consume_hash-IsKeyed,
}

-- Liveness, read off the row of the hash.
abbrev pub live_hash : String → ℕ → List PairingCode → Bool
live_hash h now_ms rows = on_row (row h rows) false (is_live now_ms)

pub live_hash_lem :
    (h : String) (now_ms : ℕ) (rows : List PairingCode)
    → IsKeyed rows
    → on_row (fetchone (λ r. has_hash h r && is_live now_ms r) rows) false (λ _. true)
      ≡ live_hash h now_ms rows
live_hash_lem h now_ms rows keyed =
    ground (arith, keyed h, fetchone_unique (has_hash h) (is_live now_ms) rows)

pub consumed-eq-live :
    (h device_id : String) (now_ms : ℕ) (rows : List PairingCode)
    → IsKeyed rows
    → (consume_hash h device_id now_ms rows).0 ≡ live_hash h now_ms rows
unfolding consume_hash
consumed-eq-live h device_id now_ms rows keyed =
    ground (arith, keyed h, rowcount_unique (has_hash h) (is_live now_ms) rows)

-- With unique hashes, a code is consumed exactly when `code_is_live` holds of it at that moment, and
-- a code that cannot be encoded raises in both.
pub consume-iff-live :
    (py : Python) (code : Text) (device_id : String) (now_ms : ℕ) (rows : List PairingCode)
    → IsKeyed rows
    → (consume_pairing_code py code device_id now_ms rows >>= λ done. ok done.0)
      ≡ code_is_live py code now_ms rows
unfolding consume_pairing_code code_is_live
consume-iff-live py code device_id now_ms rows keyed = on_hash (hash_code py code)
  where
    on_hash :
        (hashed : Result PairingError String)
        → ((hashed >>= λ h. ok (consume_hash h device_id now_ms rows)) >>= λ done. ok done.0) ≡ (
            hashed >>= λ h.
            ok (on_row (fetchone (λ r. has_hash h r && is_live now_ms r) rows) false (λ _. true)))
    on_hash (ok h) =
        ap ok
          (consumed-eq-live h device_id now_ms rows keyed ∙ sym (live_hash_lem h now_ms rows keyed))
    on_hash (err e) = refl

-- A row that is consumed or invalidated is never changed again: neither a burn nor a consumption,
-- at any time and for any code, touches it.
pub spent_row_absorbs :
    (h k device_id : String) (now_ms : ℕ) (rows : List PairingCode) (r : PairingCode)
    → row h rows ≡ some r
    → is_unspent r ≡ false
    → (row h (burn_attempt now_ms rows).1 ≡ some r)
      × (row h (consume_hash k device_id now_ms rows).1 ≡ some r)
spent_row_absorbs h k device_id now_ms rows r found spent = (
  rw (row-burn_attempt h now_ms rows) (rw found (ground arith)),
  rw (row-consume_hash h k device_id now_ms rows) (rw found (ground arith)),
)

live_found :
    (h : String) (now_ms : ℕ) (rows : List PairingCode)
    → live_hash h now_ms rows ≡ true
    → (r : PairingCode) × (row h rows ≡ some r) × (is_live now_ms r ≡ true)
live_found h now_ms rows live = elim (Option-cases (row h rows)) [
  | inl e ↦ absurd (ground arith)
  | inr (r, e) ↦ (r, e, ground arith)
]

row-consume_live :
    (h device_id : String) (now_ms : ℕ) (rows : List PairingCode) (r : PairingCode)
    → row h rows ≡ some r
    → is_live now_ms r ≡ true
    → row h (consume_hash h device_id now_ms rows).1 ≡ some (spend now_ms device_id r)
row-consume_live h device_id now_ms rows r e live =
    ground (arith, row-consume_hash h h device_id now_ms rows, fetchone_holds (has_hash h) rows r)

row-consume_other :
    (k h device_id : String) (now_ms : ℕ) (rows : List PairingCode)
    → str_eq k h ≡ false
    → row k (consume_hash h device_id now_ms rows).1 ≡ row k rows
row-consume_other k h device_id now_ms rows other = elim (Option-cases (row k rows)) [
  | inl e ↦ rw (row-consume_hash k h device_id now_ms rows) (rw e)
  | inr (r, e) ↦ ground (
    arith,
    row-consume_hash k h device_id now_ms rows,
    has_hash_unique k h r,
    fetchone_holds (has_hash k) rows r,
  )
]

-- What a successful consumption of the hash `h` leaves: the row of `h` names the device, every
-- other hash has the row that it had, and any later consumption of `h` is refused, whichever device
-- asks and whatever the time.
pub record IsConsumed (h device_id : String) (before after : List PairingCode) : Type 0 where
  pub found : PairingCode
  pub stored : row h after ≡ some found
  pub named : found.issued_device_id ≡ some device_id
  pub status : (now_ms : ℕ) → (row_status now_ms found).state ≡ consumed
  pub others : (k : String) → str_eq k h ≡ false → row k after ≡ row k before
  pub refused : (other : String) (later_ms : ℕ) → (consume_hash h other later_ms after).0 ≡ false

-- With unique hashes, a consumption that succeeds records its device in the row of the hash, makes
-- the status of the code `consumed` at every time, leaves the row of every other hash alone, and is
-- the last one: every later consumption of the hash fails.
pub consume_once :
    (h device_id : String) (now_ms : ℕ) (rows : List PairingCode)
    → IsKeyed rows
    → (consume_hash h device_id now_ms rows).0 ≡ true
    → IsConsumed h device_id rows (consume_hash h device_id now_ms rows).1
consume_once h device_id now_ms rows keyed done =
    let (r, e, live) =
      live_found h now_ms rows (sym (consumed-eq-live h device_id now_ms rows keyed) ∙ done) in
    let after = row-consume_live h device_id now_ms rows r e live in
    record {
      found = spend now_ms device_id r;
      stored = after;
      named = refl;
      status = λ _. refl;
      others = λ k. row-consume_other k h device_id now_ms rows;
      refused = λ other later_ms.
          consumed-eq-live h other later_ms _ (consume_hash-IsKeyed h device_id now_ms rows keyed)
          ∙ rw after refl;
    }
