-- ===== src/Pairing/Mint.antt =====
-- Minting a code: what the table holds afterwards, on every branch.
use mathlib.Core.Path.{subst, subst₂}
use native.Mathlib.Decide.{dec_lt}
use hermes_device_protocol.Pairing.Consume.{live_hash}
use hermes_device_protocol.Prelude.{
  All, All-append, Bool-cases, List, Option-cases, String, [], arith, eq_iff, eq_refl, false, inl,
  inr, none, some, str_eq, suc, sym, true, zero, ℕ, ◌++◌, ◌<◌, ◌∙◌, ◌∷◌, ◌≡◌, ◌≤◌,
}
use hermes_device_protocol.Prelude.Sql.{
  All-delete, delete, fetchone-append, fetchone-delete, fetchone-delete_self, rowcount,
  rowcount-append, rowcount-delete-le, rowcount-none,
}
use hermes_device_protocol.Prelude.Result.{is_ok, ok}
use hermes_device_protocol.Store.{PairingCode, Python, Text}
use hermes_device_protocol.Pairing.{
  fresh_row, has_hash, is_live, mint_attempts, mint_loop, mint_pairing_code, random_code, try_mint,
}
use hermes_device_protocol.Pairing.Table.{IsKeyed, has_hash_unique, row}
use hermes_device_protocol.Pairing.Codes.{hash-random_code}
use hermes_device_protocol.Pairing.Budget.{IsBudgeted}

-- What minting the hash `h` leaves: the row of `h` is fresh, every other hash has the row that it
-- had, no code that was live is lost, and the table keeps its key and its budgets.
pub record IsMinted (h : String) (now_ms : ℕ) (before after : List PairingCode) : Type 0 where
  pub fresh : row h after ≡ some (fresh_row h now_ms)
  pub others : (k : String) → str_eq k h ≡ false → row k after ≡ row k before
  pub live_kept :
      (k : String) (r : PairingCode)
      → row k before ≡ some r
      → is_live now_ms r ≡ true
      → row k after ≡ some r
  pub keyed : IsKeyed before → IsKeyed after
  pub budgeted : All IsBudgeted before → All IsBudgeted after

fresh-has_hash : (h : String) (now_ms : ℕ) → has_hash h (fresh_row h now_ms) ≡ true
fresh-has_hash h now_ms = eq_refl h

row-insert :
    (h : String) (now_ms : ℕ) (rows : List PairingCode)
    → row h rows ≡ none
    → row h (rows ++ (fresh_row h now_ms ∷ [])) ≡ some (fresh_row h now_ms)
row-insert h now_ms rows absent =
    ground
      (arith, fetchone-append (has_hash h) rows (fresh_row h now_ms ∷ []), fresh-has_hash h now_ms)

row-insert_other :
    (k h : String) (now_ms : ℕ) (rows : List PairingCode)
    → str_eq k h ≡ false
    → row k (rows ++ (fresh_row h now_ms ∷ [])) ≡ row k rows
row-insert_other k h now_ms rows other =
    ground
      (arith, fetchone-append (has_hash k) rows (fresh_row h now_ms ∷ []), eq_iff k h, eq_iff h k)

rowcount-fresh :
    (k h : String) (now_ms : ℕ) (rows : List PairingCode)
    → row h rows ≡ none
    → rowcount (has_hash k) rows ≤ 1
    → rowcount (has_hash k) (rows ++ (fresh_row h now_ms ∷ [])) ≤ 1
rowcount-fresh k h now_ms rows absent keyed = elim (Bool-cases (str_eq k h)) [
  | inl e ↦
      let same : h ≡ k = sym ((eq_iff k h).0 e) in
      let absent_k : row k rows ≡ none = rw same at absent in
      ground (
        arith,
        rowcount-append (has_hash k) rows (fresh_row h now_ms ∷ []),
        rowcount-none (has_hash k) rows absent_k,
      )
  | inr e ↦
      ground
        (arith, rowcount-append (has_hash k) rows (fresh_row h now_ms ∷ []), eq_iff k h, eq_iff h k)
]

-- SQLite accepts the INSERT: the hash is not in the table.
insert-IsMinted :
    (h : String) (now_ms : ℕ) (rows : List PairingCode)
    → row h rows ≡ none
    → IsMinted h now_ms rows (rows ++ (fresh_row h now_ms ∷ []))
insert-IsMinted h now_ms rows absent = record {
  fresh = row-insert h now_ms rows absent;
  others = λ k. row-insert_other k h now_ms rows;
  live_kept =
      λ k r found live. ground (arith, fetchone-append (has_hash k) rows (fresh_row h now_ms ∷ []));
  keyed = λ keyed k. rowcount-fresh k h now_ms rows absent (keyed k);
  budgeted = λ budget. All-append IsBudgeted rows _ budget (λ _. omega arith, tt);
}

row-delete_other :
    (k h : String) (rows : List PairingCode)
    → str_eq k h ≡ false
    → row k (delete (has_hash h) rows) ≡ row k rows
row-delete_other k h rows other =
    fetchone-delete (has_hash k) (has_hash h) rows λ r e. ground (arith, has_hash_unique k h r)

dead_not_live :
    (k h : String) (now_ms : ℕ) (rows : List PairingCode) (dead r : PairingCode)
    → row h rows ≡ some dead
    → is_live now_ms dead ≡ false
    → row k rows ≡ some r
    → is_live now_ms r ≡ true
    → str_eq k h ≡ true
    → ⊥
dead_not_live k h now_ms rows dead r found not_live found_k live e =
    let found_h : row h rows ≡ some r = rw ((eq_iff k h).0 e) at found_k in ground arith

-- A dead row of the hash makes way.
replace-IsMinted :
    (h : String) (now_ms : ℕ) (rows : List PairingCode) (dead : PairingCode)
    → row h rows ≡ some dead
    → is_live now_ms dead ≡ false
    → IsMinted h now_ms rows (delete (has_hash h) rows ++ (fresh_row h now_ms ∷ []))
replace-IsMinted h now_ms rows dead found not_live =
    let gone = fetchone-delete_self (has_hash h) rows in
    let other : (k : String)
        → str_eq k h ≡ false
        → row k (delete (has_hash h) rows ++ (fresh_row h now_ms ∷ [])) ≡ row k rows =
      λ k ne. row-insert_other k h now_ms _ ne ∙ row-delete_other k h rows ne in
    record {
      fresh = row-insert h now_ms _ gone;
      others = other;
      live_kept = λ k r found_k live. elim (Bool-cases (str_eq k h)) [
        | inr ne ↦ other k ne ∙ found_k
        | inl e ↦ absurd (dead_not_live k h now_ms rows dead r found not_live found_k live e)
      ];
      keyed = λ keyed k.
          rowcount-fresh k h now_ms (delete (has_hash h) rows) gone
            (omega (arith, keyed k, rowcount-delete-le (has_hash k) (has_hash h) rows));
      budgeted = λ budget.
          All-append IsBudgeted (delete (has_hash h) rows) _
            (All-delete IsBudgeted (has_hash h) rows budget) (λ _. omega arith, tt);
    }

pub try_mint-IsMinted :
    (h : String) (now_ms : ℕ) (rows after : List PairingCode)
    → try_mint h now_ms rows ≡ some after
    → IsMinted h now_ms rows after
unfolding try_mint
try_mint-IsMinted h now_ms rows after done = elim (Option-cases (row h rows)) [
  | inl absent ↦
      let e : rows ++ (fresh_row h now_ms ∷ []) ≡ after = ground arith in
      subst (IsMinted h now_ms rows) e (insert-IsMinted h now_ms rows absent)
  | inr (dead, found) ↦
      let not_live : is_live now_ms dead ≡ false = ground arith in
      let e : delete (has_hash h) rows ++ (fresh_row h now_ms ∷ []) ≡ after = ground arith in
      subst (IsMinted h now_ms rows) e (replace-IsMinted h now_ms rows dead found not_live)
]

mint_loop-IsMinted :
    (py : Python) (left : ℕ) (randbelow : ℕ → ℕ) (now_ms : ℕ) (rows : List PairingCode)
    (code : Text) (after : List PairingCode)
    → mint_loop py left randbelow now_ms rows ≡ ok (code, after)
    → IsMinted (py.sha256 code) now_ms rows after
unfolding mint_loop
mint_loop-IsMinted py zero randbelow now_ms rows code after done = absurd (ground arith)
mint_loop-IsMinted py (suc left) randbelow now_ms rows code after done =
    let drawn = random_code (randbelow left) in
    let hashed = hash-random_code py (randbelow left) in
    elim (Option-cases (try_mint (py.sha256 drawn) now_ms rows)) [
      | inl taken ↦
          mint_loop-IsMinted py left randbelow now_ms rows code after (ground (arith, hashed))
      | inr (rows', free) ↦
          let same : drawn ≡ code = ground (arith, hashed) in
          let kept : rows' ≡ after = ground (arith, hashed) in
          subst₂ (λ c t. IsMinted (py.sha256 c) now_ms rows t) same kept
            (try_mint-IsMinted (py.sha256 drawn) now_ms rows rows' free)
    ]

-- When minting returns a code, the row of its hash is fresh, every other hash keeps its row, no code
-- that was live is replaced, and the key and the budgets of the table are kept.
pub mint-IsMinted :
    (py : Python) (randbelow : ℕ → ℕ) (now_ms : ℕ) (rows : List PairingCode) (code : Text)
    (after : List PairingCode)
    → mint_pairing_code py randbelow now_ms rows ≡ ok (code, after)
    → IsMinted (py.sha256 code) now_ms rows after
unfolding mint_pairing_code
mint-IsMinted py = mint_loop-IsMinted py 20

mint_loop_free :
    (py : Python) (left i : ℕ) (randbelow : ℕ → ℕ) (now_ms : ℕ) (rows : List PairingCode)
    → i < left
    → live_hash (py.sha256 (random_code (randbelow i))) now_ms rows ≡ false
    → is_ok (mint_loop py left randbelow now_ms rows) ≡ true
unfolding mint_loop try_mint
mint_loop_free py zero i randbelow now_ms rows h free = elim h [ ]
mint_loop_free py (suc left) i randbelow now_ms rows h free = elim (dec_lt i left) [
  | yes lt ↦ ground (
    arith,
    hash-random_code py (randbelow left),
    mint_loop_free py left i randbelow now_ms rows lt free,
  )
  | no ge ↦
      let e : i ≡ left = omega arith in
      let free' : live_hash (py.sha256 (random_code (randbelow left))) now_ms rows ≡ false =
        rw e at free in
      ground (arith, hash-random_code py (randbelow left))
]

-- Minting returns a code as soon as one of its twenty draws is of a code that is not live.
pub mint_succeeds :
    (py : Python) (i : ℕ) (randbelow : ℕ → ℕ) (now_ms : ℕ) (rows : List PairingCode)
    → i < mint_attempts
    → live_hash (py.sha256 (random_code (randbelow i))) now_ms rows ≡ false
    → is_ok (mint_pairing_code py randbelow now_ms rows) ≡ true
unfolding mint_pairing_code
mint_succeeds py i randbelow now_ms rows h free =
    mint_loop_free py mint_attempts i randbelow now_ms rows h free
