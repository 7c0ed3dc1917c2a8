-- ===== src/Pairing.antt =====
-- hdp-bridge/hdp_bridge/pairing.py: minting, liveness, the guessing budget, and consumption of
-- six-digit pairing codes. Each function takes the rows of `pairing_codes` and returns them anew.
-- `attempts_remaining` is a natural number, so at 0 the decrement stays at 0 where SQLite goes
-- below; Pairing.Budget shows that no row which a decrement meets is at 0.
pub mod Table
pub mod Codes
pub mod Consume
pub mod Budget
pub mod Mint
mod Tests
use hermes_device_protocol.Prelude.{
  ℕ, zero, suc, ◌+◌, ◌-◌, ◌*◌, ◌/◌, ◌%◌, ◌^◌, String, Option, none, some, Bool, true, false, not,
  ◌&&◌, ◌||◌, List, [], ◌∷◌, ◌++◌, ltb, leb, ◌==◌, str_eq, if◌then◌else◌, is_none,
}
use hermes_device_protocol.Prelude.Sql.{update, rowcount, fetchone, delete, on_row}
use hermes_device_protocol.Prelude.Result.{Result, ok, err, ◌>>=◌}
use hermes_device_protocol.Store.{Text, Python, encode_ascii, PairingCode}

abbrev pub ttl_ms : ℕ
ttl_ms = 5 * 60 * 1000

abbrev pub attempt_budget : ℕ
attempt_budget = 5

abbrev pub mint_attempts : ℕ
mint_attempts = 20

pub data PairingError : Type 0 where
  unicode_encode_error no_pairing_code_available : PairingError

-- one decimal digit of `n`, as a character
abbrev pub digit : ℕ → ℕ → ℕ
digit k n = 48 + n / 10 ^ k % 10

-- `f"{n:06d}"` for `n = secrets.randbelow(10**6)`
unfoldable pub random_code : ℕ → Text
random_code n = digit 5 n ∷ digit 4 n ∷ digit 3 n ∷ digit 2 n ∷ digit 1 n ∷ digit 0 n ∷ []

-- `code.replace("-", "").replace(" ", "")`
unfoldable pub strip_separators : Text → Text
strip_separators [] = []
strip_separators (c ∷ cs) =
    let rest = strip_separators cs in if c == b'-' || c == b' ' then rest else c ∷ rest

module _ (py : Python) where
  abbrev pub upper_char : ℕ → Text
  upper_char c =
      if ltb c 128 then (if leb b'a' c && leb c b'z' then c - 32 else c) ∷ [] else py.upper_other c

  -- `str.upper`
  unfoldable pub upper : Text → Text
  upper [] = []
  upper (c ∷ cs) = upper_char c ++ upper cs

  -- `hashlib.sha256(normalized.encode("ascii")).hexdigest()`
  abbrev pub digest : Option Text → Result PairingError String
  digest none = err unicode_encode_error
  digest (some bytes) = ok (py.sha256 bytes)

  unfoldable pub hash_code : Text → Result PairingError String
  unfolding encode_ascii strip_separators upper
  hash_code code = digest (encode_ascii (upper (strip_separators code)))

abbrev pub has_hash : String → PairingCode → Bool
has_hash h r = str_eq r.code_hash h

-- `consumed_at IS NULL AND invalidated_at IS NULL`
abbrev pub is_unspent : PairingCode → Bool
is_unspent r = is_none r.consumed_at && is_none r.invalidated_at

-- `... AND expires_at > now_ms`
abbrev pub is_live : ℕ → PairingCode → Bool
is_live now_ms r = is_unspent r && ltb now_ms r.expires_at

abbrev pub fresh_row : String → ℕ → PairingCode
fresh_row h now_ms = record {
  code_hash = h;
  created_at = now_ms;
  expires_at = now_ms + ttl_ms;
  consumed_at = none;
  issued_device_id = none;
  attempts_remaining = attempt_budget;
  invalidated_at = none;
}

-- One round of the minting loop; `none` is `continue`.
unfoldable pub try_mint : String → ℕ → List PairingCode → Option (List PairingCode)
try_mint h now_ms rows =
    on_row (fetchone (has_hash h) rows) (some (rows ++ fresh_row h now_ms ∷ [])) λ existing.
      if is_live now_ms existing
      then none
      else some (delete (has_hash h) rows ++ fresh_row h now_ms ∷ [])

abbrev pub Minted : Type 0
Minted = Text × List PairingCode

module _ (py : Python) where
  -- The loop, with the rounds that are left; `randbelow` is what `secrets.randbelow` draws in the
  -- round with so many rounds left.
  unfoldable pub mint_loop : ℕ → (ℕ → ℕ) → ℕ → List PairingCode → Result PairingError Minted
  unfolding try_mint random_code
  mint_loop zero randbelow now_ms rows = err no_pairing_code_available
  mint_loop (suc left) randbelow now_ms rows =
      let rest = mint_loop left randbelow now_ms rows in
      let code = random_code (randbelow left) in
      hash_code py code >>= λ h. elim (try_mint h now_ms rows) [
        | none ↦ rest
        | some rows' ↦ ok (code, rows')
      ]

  unfoldable pub mint_pairing_code : (ℕ → ℕ) → ℕ → List PairingCode → Result PairingError Minted
  unfolding mint_loop
  mint_pairing_code = mint_loop mint_attempts

  unfoldable pub code_is_live : Text → ℕ → List PairingCode → Result PairingError Bool
  code_is_live code now_ms rows = hash_code py code >>= λ h.
      ok (on_row (fetchone (λ r. has_hash h r && is_live now_ms r) rows) false (λ _. true))

pub data Lifecycle : Type 0 where
  pending consumed expired invalidated unknown : Lifecycle

pub record PairingStatus : Type 0 where
  pub state : Lifecycle
  pub issued_device_id : Option String
  pub expires_at : Option ℕ

abbrev pub row_status : ℕ → PairingCode → PairingStatus
row_status now_ms r =
    if not (is_none r.consumed_at)
    then record {
      state = consumed;
      issued_device_id = r.issued_device_id;
      expires_at = some r.expires_at;
    }
    else if not (is_none r.invalidated_at)
    then record { state = invalidated; issued_device_id = none; expires_at = some r.expires_at }
    else if leb r.expires_at now_ms
    then record { state = expired; issued_device_id = none; expires_at = some r.expires_at }
    else record { state = pending; issued_device_id = none; expires_at = some r.expires_at }

-- The first UPDATE of `burn_attempt`.
abbrev pub charge : PairingCode → PairingCode
charge r = record r { attempts_remaining = r.attempts_remaining - 1 }

abbrev pub is_exhausted : PairingCode → Bool
is_exhausted r = is_unspent r && leb r.attempts_remaining 0

-- The rows, and the number of codes that this call invalidated.
unfoldable pub burn_attempt : ℕ → List PairingCode → ℕ × List PairingCode
burn_attempt now_ms rows =
    let charged = update (is_live now_ms) charge rows in
    (
      rowcount is_exhausted charged,
      update is_exhausted (λ r. record r { invalidated_at = some now_ms }) charged,
    )

module _ (py : Python) where
  unfoldable pub pairing_status : Text → ℕ → List PairingCode → Result PairingError PairingStatus
  pairing_status code now_ms rows = hash_code py code >>= λ h. ok (
      on_row (fetchone (has_hash h) rows)
        (record { state = unknown; issued_device_id = none; expires_at = none })
        (row_status now_ms))

abbrev pub spend : ℕ → String → PairingCode → PairingCode
spend now_ms device_id r = record r { consumed_at = some now_ms; issued_device_id = some device_id }

-- The UPDATE of `consume_pairing_code`, on the hash of the code.
unfoldable pub consume_hash : String → String → ℕ → List PairingCode → Bool × List PairingCode
consume_hash h device_id now_ms rows = (
  rowcount (λ r. has_hash h r && is_live now_ms r) rows == 1,
  update (λ r. has_hash h r && is_live now_ms r) (spend now_ms device_id) rows,
)

module _ (py : Python) where
  unfoldable pub consume_pairing_code :
      Text → String → ℕ → List PairingCode → Result PairingError (Bool × List PairingCode)
  unfolding consume_hash
  consume_pairing_code code device_id now_ms rows =
      hash_code py code >>= λ h. ok (consume_hash h device_id now_ms rows)
