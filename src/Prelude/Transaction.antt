-- ===== src/Prelude/Transaction.antt =====
-- `with conn: body`: what the body wrote is committed, or rolled back where it raises.
use mathlib.Core.Path.{◌≡◌, refl}
use native.Mathlib.Omega.{arith}
use hermes_device_protocol.Prelude.Result.{Result, err, ok}

-- A computation on the database, with what it wrote even where it raises.
abbrev pub Tx {ℓ} : Type ℓ → Type ℓ → Type ℓ → Type ℓ
Tx D E A = D → Result E A × D

abbrev pub commit_or_rollback {ℓ} : {D E A : Type ℓ} → D → Result E A × D → Result E A × D
commit_or_rollback before (ok a, after) = (ok a, after)
commit_or_rollback before (err e, after) = (err e, before)

abbrev pub transaction {ℓ} : {D E A : Type ℓ} → Tx D E A → Tx D E A
transaction body db = commit_or_rollback db (body db)

-- A value that is computed before the database is touched.
abbrev pub with_value {ℓ} : {D E A B : Type ℓ} → Result E A → (A → Tx D E B) → Tx D E B
with_value (ok a) f db = f a db
with_value (err e) f db = (err e, db)

-- One computation, then the next, which is skipped where the first raises.
abbrev pub on_return {ℓ} : {D E B : Type ℓ} → Result E (Unit {ℓ}) × D → Tx D E B → Result E B × D
on_return (ok _, db) next = next db
on_return (err e, db) next = (err e, db)

infixl 5 ◌>>>◌
abbrev pub ◌>>>◌ {ℓ} : {D E B : Type ℓ} → Tx D E (Unit {ℓ}) → Tx D E B → Tx D E B
(m >>> next) db = on_return (m db) next

-- `P` holds of what a body that returns has written, where it held before.
abbrev pub KeepsOk {ℓ} : {D E A : Type ℓ} → (D → Type ℓ) → Tx D E A → Type ℓ
KeepsOk {D} {E} {A} P body = (db : D) (a : A) → P db → (body db).0 ≡ ok a → P (body db).1

abbrev pub Keeps {ℓ} : {D E A : Type ℓ} → (D → Type ℓ) → Tx D E A → Type ℓ
Keeps {D} P m = (db : D) → P db → P (m db).1

module _ {ℓ} {D E A : Type ℓ} (P : D → Type ℓ) where
  -- What a body that raises has written is rolled back, so only a body that returns matters.
  pub transaction-Keeps : (body : Tx D E A) → KeepsOk P body → Keeps P (transaction body)
  transaction-Keeps body keep db h = committed (body db).0 (body db).1 (λ a. keep db a h)
    where
      committed :
          (r : Result E A) (after : D)
          → ((a : A) → r ≡ ok a → P after)
          → P (commit_or_rollback db (r, after)).1
      committed (ok a) after kept = kept a refl
      committed (err e) after kept = h

module _ {ℓ} {D E A B : Type ℓ} (P : D → Type ℓ) where
  pub with_value-Keeps :
      (r : Result E A) (f : A → Tx D E B)
      → ((a : A) → r ≡ ok a → Keeps P (f a))
      → Keeps P (with_value r f)
  with_value-Keeps (ok a) f keep db h = keep a refl db h
  with_value-Keeps (err e) f keep db h = h

module _ {ℓ} {D E A : Type ℓ} where
  -- A transaction that raises leaves the database as it was.
  pub transaction_atomic :
      (body : Tx D E A) (db : D) (e : E)
      → (transaction body db).0 ≡ err e
      → (transaction body db).1 ≡ db
  transaction_atomic body db e = rolled_back (body db).0 (body db).1
    where
      rolled_back :
          (r : Result E A) (after : D)
          → (commit_or_rollback db (r, after)).0 ≡ err e
          → (commit_or_rollback db (r, after)).1 ≡ db
      rolled_back (ok a) after raised = absurd (ground arith)
      rolled_back (err _) after raised = refl

module _ {ℓ} {D E A B : Type ℓ} where
  pub with_value_atomic :
      (r : Result E A) (f : A → Tx D E B) (db : D) (e : E)
      → ((a : A) → (f a db).0 ≡ err e → (f a db).1 ≡ db)
      → (with_value r f db).0 ≡ err e
      → (with_value r f db).1 ≡ db
  with_value_atomic (ok a) f db e atomic raised = atomic a raised
  with_value_atomic (err _) f db e atomic raised = refl

module _ {ℓ} {D E A : Type ℓ} where
  pub transaction-result : (body : Tx D E A) (db : D) → (transaction body db).0 ≡ (body db).0
  transaction-result body db = same (body db).0 (body db).1
    where
      same : (r : Result E A) (after : D) → (commit_or_rollback db (r, after)).0 ≡ r
      same (ok a) after = refl
      same (err e) after = refl

  pub transaction_ok :
      (body : Tx D E A) (db : D) (a : A)
      → (transaction body db).0 ≡ ok a
      → (transaction body db).1 ≡ (body db).1
  transaction_ok body db a = committed (body db).0 (body db).1
    where
      committed :
          (r : Result E A) (after : D)
          → (commit_or_rollback db (r, after)).0 ≡ ok a
          → (commit_or_rollback db (r, after)).1 ≡ after
      committed (ok _) after done = refl
      committed (err _) after done = absurd (ground arith)
