-- ===== src/Pairing/Budget.antt =====
-- The guessing budget of hdp-bridge/hdp_bridge/pairing.py: what a run of failed attempts does to a
-- live code.
use hermes_device_protocol.Prelude.{
  All, Bool-cases, List, String, [], ap, arith, false, inl, inr, length, ltb, refl, some, true, ℕ,
  ◌&&◌, ◌-◌, ◌<◌, ◌∙◌, ◌∷◌, ◌≡◌, ◌≤◌,
}
use hermes_device_protocol.Prelude.Sql.{All-update}
use hermes_device_protocol.Prelude.Result.{ok}
use hermes_device_protocol.Store.{PairingCode, Python, Text}
use hermes_device_protocol.Pairing.{
  attempt_budget, burn_attempt, charge, code_is_live, consume_hash, has_hash, hash_code, is_live,
  is_unspent, spend,
}
use hermes_device_protocol.Pairing.Table.{
  IsKeyed, burn_attempt-IsKeyed, burn_row, map_row, row, row-burn_attempt,
}
use hermes_device_protocol.Pairing.Consume.{live_hash, live_hash_lem}

-- One failed handshake after another, at the given times.
pub burn_all : List ℕ → List PairingCode → List PairingCode
burn_all [] rows = rows
burn_all (now_ms ∷ times) rows = burn_all times (burn_attempt now_ms rows).1

pub burn_row_all : List ℕ → PairingCode → PairingCode
burn_row_all [] r = r
burn_row_all (now_ms ∷ times) r = burn_row_all times (burn_row now_ms r)

-- An unspent code has between one attempt and the whole budget left.
abbrev pub IsBudgeted : PairingCode → Type 0
IsBudgeted r =
    is_unspent r ≡ true → (0 < r.attempts_remaining) × (r.attempts_remaining ≤ attempt_budget)

row-burn_all :
    (h : String) (times : List ℕ) (rows : List PairingCode)
    → row h (burn_all times rows) ≡ map_row (row h rows) (burn_row_all times)
unfolding burn_all burn_row_all
row-burn_all h [] rows = ground arith
row-burn_all h (now_ms ∷ times) rows =
    ground
      (arith, row-burn_all h times (burn_attempt now_ms rows).1, row-burn_attempt h now_ms rows)

burn_all-IsKeyed :
    (times : List ℕ) (rows : List PairingCode) → IsKeyed rows → IsKeyed (burn_all times rows)
unfolding burn_all
burn_all-IsKeyed [] rows keyed = keyed
burn_all-IsKeyed (now_ms ∷ times) rows keyed =
    burn_all-IsKeyed times (burn_attempt now_ms rows).1 (burn_attempt-IsKeyed now_ms rows keyed)

burn_row_spent :
    (times : List ℕ) (r : PairingCode) → is_unspent r ≡ false → burn_row_all times r ≡ r
unfolding burn_row_all
burn_row_spent [] r spent = refl
burn_row_spent (now_ms ∷ times) r spent =
    let same : burn_row now_ms r ≡ r = ground arith in rw same (burn_row_spent times r spent)

burn_row_charges :
    (now_ms : ℕ) (r : PairingCode)
    → is_live now_ms r ≡ true
    → 1 < r.attempts_remaining
    → burn_row now_ms r ≡ charge r
burn_row_charges now_ms r live more = ground arith

burn_row_survives :
    (times : List ℕ) (r : PairingCode)
    → is_unspent r ≡ true
    → All (λ t. t < r.expires_at) times
    → length times < r.attempts_remaining
    → burn_row_all times r ≡ record r { attempts_remaining = r.attempts_remaining - length times }
unfolding burn_row_all
burn_row_survives [] r live early left = ground arith
burn_row_survives (now_ms ∷ times) r live early left =
    rw (burn_row_charges now_ms r (ground arith) (omega arith))
      (burn_row_survives times (charge r) live early.1 (omega arith) ∙ ground arith)

burn_row_last :
    (now_ms : ℕ) (r : PairingCode)
    → is_live now_ms r ≡ true
    → r.attempts_remaining ≤ 1
    → is_unspent (burn_row now_ms r) ≡ false
burn_row_last now_ms r live last = ground arith

burn_row_destroys :
    (times : List ℕ) (r : PairingCode)
    → IsBudgeted r
    → All (λ t. t < r.expires_at) times
    → r.attempts_remaining ≤ length times
    → is_unspent (burn_row_all times r) ≡ false
unfolding burn_row_all
burn_row_destroys [] r budget early left = ground arith
burn_row_destroys (now_ms ∷ times) r budget early left = elim (Bool-cases (is_unspent r)) [
  | inr spent ↦ rw (burn_row_spent (now_ms ∷ times) r spent) spent
  | inl unspent ↦ elim (Bool-cases (ltb 1 r.attempts_remaining)) [
    | inl more ↦
        let step : burn_row now_ms r ≡ charge r =
          burn_row_charges now_ms r (ground arith) (ground arith) in
        ap (λ x. is_unspent (burn_row_all times x)) step
        ∙ burn_row_destroys times (charge r) (λ _. ground (arith, budget unspent)) early.1
            (omega arith)
    | inr last ↦
        let gone = burn_row_last now_ms r (ground arith) (ground arith) in
        ap is_unspent (burn_row_spent times (burn_row now_ms r) gone) ∙ gone
  ]
]

live_hash-burn_all :
    (h : String) (times : List ℕ) (now_ms : ℕ) (rows : List PairingCode) (r : PairingCode)
    → row h rows ≡ some r
    → live_hash h now_ms (burn_all times rows) ≡ is_live now_ms (burn_row_all times r)
live_hash-burn_all h times now_ms rows r found = ground (arith, row-burn_all h times rows)

-- In a table with unique hashes, take a code whose row `r`, if it is unspent, has between 1 and 5
-- attempts left, and failed attempts at any times before it expires. Once there are at least as many
-- of them as attempts, `code_is_live` is false of the code, whatever time it is asked at.
pub budget_destroys :
    (py : Python) (code : Text) (h : String) (times : List ℕ) (rows : List PairingCode)
    (r : PairingCode)
    → hash_code py code ≡ ok h
    → IsKeyed rows
    → row h rows ≡ some r
    → IsBudgeted r
    → All (λ t. t < r.expires_at) times
    → r.attempts_remaining ≤ length times
    → (now_ms : ℕ) → code_is_live py code now_ms (burn_all times rows) ≡ ok false
unfolding code_is_live
budget_destroys py code h times rows r hashed keyed found budget early left now_ms =
    let spent = burn_row_destroys times r budget early left in
    let gone : live_hash h now_ms (burn_all times rows) ≡ false =
      live_hash-burn_all h times now_ms rows r found ∙ rw spent refl in
    rw hashed (ap ok (live_hash_lem h now_ms _ (burn_all-IsKeyed times rows keyed) ∙ gone))

-- In a table with unique hashes, fewer failed attempts than a live code has left do not destroy it:
-- it stays live until it expires.
pub budget_spares :
    (py : Python) (code : Text) (h : String) (times : List ℕ) (rows : List PairingCode)
    (r : PairingCode)
    → hash_code py code ≡ ok h
    → IsKeyed rows
    → row h rows ≡ some r
    → is_unspent r ≡ true
    → All (λ t. t < r.expires_at) times
    → length times < r.attempts_remaining
    → (now_ms : ℕ)
    → code_is_live py code now_ms (burn_all times rows) ≡ ok (ltb now_ms r.expires_at)
unfolding code_is_live
budget_spares py code h times rows r hashed keyed found unspent early left now_ms =
    let same = burn_row_survives times r unspent early left in
    let live : live_hash h now_ms (burn_all times rows) ≡ ltb now_ms r.expires_at =
      live_hash-burn_all h times now_ms rows r found ∙ rw same (rw unspent refl) in
    rw hashed (ap ok (live_hash_lem h now_ms _ (burn_all-IsKeyed times rows keyed) ∙ live))

burn_row-IsBudgeted : (now_ms : ℕ) (r : PairingCode) → IsBudgeted r → IsBudgeted (burn_row now_ms r)
burn_row-IsBudgeted now_ms r budget unspent = elim (Bool-cases (is_unspent r)) [
  | inl e ↦ ground (arith, budget e)
  | inr e ↦ absurd (ground arith)
]

burn_attempt-IsBudgeted :
    (now_ms : ℕ) (rows : List PairingCode)
    → All IsBudgeted rows
    → All IsBudgeted (burn_attempt now_ms rows).1
unfolding burn_attempt
burn_attempt-IsBudgeted now_ms [] budget = tt
burn_attempt-IsBudgeted now_ms (r ∷ rows) budget =
    (burn_row-IsBudgeted now_ms r budget.0, burn_attempt-IsBudgeted now_ms rows budget.1)

consume_hash-IsBudgeted :
    (h device_id : String) (now_ms : ℕ) (rows : List PairingCode)
    → All IsBudgeted rows
    → All IsBudgeted (consume_hash h device_id now_ms rows).1
unfolding consume_hash
consume_hash-IsBudgeted h device_id now_ms rows budget =
    All-update IsBudgeted (λ r. has_hash h r && is_live now_ms r) (spend now_ms device_id) rows
      (λ r _ _ unspent. cc) budget

-- Where each unspent code has between 1 and 5 attempts left, a burn and a consumption keep it so.
pub budget_kept :
    (h device_id : String) (now_ms : ℕ) (rows : List PairingCode)
    → All IsBudgeted rows
    → All IsBudgeted (burn_attempt now_ms rows).1
      × All IsBudgeted (consume_hash h device_id now_ms rows).1
budget_kept h device_id now_ms rows budget = (
  burn_attempt-IsBudgeted now_ms rows budget,
  consume_hash-IsBudgeted h device_id now_ms rows budget,
)
