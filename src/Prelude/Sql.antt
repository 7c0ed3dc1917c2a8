-- ===== src/Prelude/Sql.antt =====
-- The SQL statements that the bridge issues, on a table held as the list of its rows: `UPDATE` and
-- `DELETE` with a `WHERE` clause, `rowcount`, and `SELECT ... LIMIT 1` (`fetchone`).
use Prim.Native.Nat.{ℕ, ◌+◌, ◌≤◌}
use mathlib.Core.Path.{◌≡◌, refl, subst}
use mathlib.Core.Bool.{Bool, true, false, ◌&&◌}
use mathlib.Core.Logic.{◌⊎◌, inl, inr}
use mathlib.Core.Option.{Option, none, some}
use mathlib.Core.List.{List, [], ◌∷◌, ◌++◌}
use native.Mathlib.Omega.{arith}
use hermes_device_protocol.Prelude.Tests.{Bool-cases, if◌then◌else◌}
use hermes_device_protocol.Prelude.Lists.{All}

module _ {ℓ} {R : Type ℓ} where
  -- UPDATE ... SET f WHERE p
  abbrev pub update : (R → Bool) → (R → R) → List R → List R
  update p f [] = []
  update p f (r ∷ rs) = (if p r then f r else r) ∷ update p f rs

  -- the rows that a WHERE clause meets, as `cursor.rowcount` reports them
  abbrev pub rowcount : (R → Bool) → List R → ℕ
  rowcount p [] = 0
  rowcount p (r ∷ rs) = (if p r then 1 else 0) + rowcount p rs

  abbrev pub fetchone : (R → Bool) → List R → Option R
  fetchone p [] = none
  fetchone p (r ∷ rs) = if p r then some r else fetchone p rs

  -- DELETE ... WHERE p
  abbrev pub delete : (R → Bool) → List R → List R
  delete p [] = []
  delete p (r ∷ rs) = let rest = delete p rs in if p r then rest else r ∷ rest

  abbrev pub on_row {κ} : {B : Type κ} → Option R → B → (R → B) → B
  on_row none b f = b
  on_row (some r) b f = f r

module _ {ℓ} {R : Type ℓ} where
  -- An update that keeps what the search reads is seen through the row that the search finds.
  pub fetchone-update :
      (p q : R → Bool) (f : R → R) (rs : List R)
      → ((r : R) → p (f r) ≡ p r)
      → fetchone p (update q f rs)
        ≡ on_row (fetchone p rs) none (λ r. some (if q r then f r else r))
  fetchone-update p q f [] keep = refl
  fetchone-update p q f (r ∷ rs) keep = ground (arith, keep r, fetchone-update p q f rs keep)

  pub fetchone_holds : (p : R → Bool) (rs : List R) (r : R) → fetchone p rs ≡ some r → p r ≡ true
  fetchone_holds p [] r h = ground arith
  fetchone_holds p (x ∷ rs) r h = ground (arith, fetchone_holds p rs r)

  pub fetchone-append :
      (p : R → Bool) (rs ss : List R)
      → fetchone p (rs ++ ss) ≡ on_row (fetchone p rs) (fetchone p ss) some
  fetchone-append p [] ss = refl
  fetchone-append p (r ∷ rs) ss = ground (arith, fetchone-append p rs ss)

  pub fetchone-delete :
      (p q : R → Bool) (rs : List R)
      → ((r : R) → p r ≡ true → q r ≡ false)
      → fetchone p (delete q rs) ≡ fetchone p rs
  fetchone-delete p q [] h = refl
  fetchone-delete p q (r ∷ rs) h = ground (arith, h r, fetchone-delete p q rs h)

  pub fetchone-delete_self : (p : R → Bool) (rs : List R) → fetchone p (delete p rs) ≡ none
  fetchone-delete_self p [] = refl
  fetchone-delete_self p (r ∷ rs) = ground (arith, fetchone-delete_self p rs)

  pub All-update {κ} :
      (P : R → Type κ) (q : R → Bool) (f : R → R) (rs : List R)
      → ((r : R) → P r → q r ≡ true → P (f r))
      → All P rs
      → All P (update q f rs)
  All-update P q f [] step h = h
  All-update P q f (r ∷ rs) step h = elim (Bool-cases (q r)) [
    | inl e ↦ rw e (step r h.0 e, All-update P q f rs step h.1)
    | inr e ↦ rw e (h.0, All-update P q f rs step h.1)
  ]

  pub All-delete {κ} :
      (P : R → Type κ) (q : R → Bool) (rs : List R) → All P rs → All P (delete q rs)
  All-delete P q [] h = h
  All-delete P q (r ∷ rs) h = elim (Bool-cases (q r)) [
    | inl e ↦ rw e (All-delete P q rs h.1)
    | inr e ↦ rw e (h.0, All-delete P q rs h.1)
  ]

  pub rowcount-and-le :
      (p q : R → Bool) (rs : List R) → rowcount (λ r. p r && q r) rs ≤ rowcount p rs
  rowcount-and-le p q [] = omega arith
  rowcount-and-le p q (r ∷ rs) = ground (arith, rowcount-and-le p q rs)

  -- Where the key `p` is unique, a conditional update counts the row that a search finds.
  pub rowcount_unique :
      (p q : R → Bool) (rs : List R)
      → rowcount p rs ≤ 1
      → rowcount (λ r. p r && q r) rs ≡ on_row (fetchone p rs) 0 (λ r. if q r then 1 else 0)
  rowcount_unique p q [] h = refl
  rowcount_unique p q (r ∷ rs) h = ground (arith, rowcount-and-le p q rs, rowcount_unique p q rs)

  pub rowcount-update :
      (p q : R → Bool) (f : R → R) (rs : List R)
      → ((r : R) → p (f r) ≡ p r)
      → rowcount p (update q f rs) ≡ rowcount p rs
  rowcount-update p q f [] keep = refl
  rowcount-update p q f (r ∷ rs) keep = ground (arith, keep r, rowcount-update p q f rs keep)

  pub rowcount-append :
      (p : R → Bool) (rs ss : List R) → rowcount p (rs ++ ss) ≡ rowcount p rs + rowcount p ss
  rowcount-append p [] ss = omega arith
  rowcount-append p (r ∷ rs) ss = omega (arith, rowcount-append p rs ss)

  pub rowcount-delete-le : (p q : R → Bool) (rs : List R) → rowcount p (delete q rs) ≤ rowcount p rs
  rowcount-delete-le p q [] = omega arith
  rowcount-delete-le p q (r ∷ rs) = ground (arith, rowcount-delete-le p q rs)

  pub rowcount-none : (p : R → Bool) (rs : List R) → fetchone p rs ≡ none → rowcount p rs ≡ 0
  rowcount-none p [] h = refl
  rowcount-none p (r ∷ rs) h = ground (arith, rowcount-none p rs)

  pub rowcount-delete_self : (p : R → Bool) (rs : List R) → rowcount p (delete p rs) ≡ 0
  rowcount-delete_self p [] = refl
  rowcount-delete_self p (r ∷ rs) = ground (arith, rowcount-delete_self p rs)

  fetchone-and_none :
      (p q : R → Bool) (rs : List R) → fetchone p rs ≡ none → fetchone (λ r. p r && q r) rs ≡ none
  fetchone-and_none p q [] h = refl
  fetchone-and_none p q (r ∷ rs) h = ground (arith, fetchone-and_none p q rs)

  rowcount-pos : (p : R → Bool) (rs : List R) → (fetchone p rs ≡ none) ⊎ (1 ≤ rowcount p rs)
  rowcount-pos p [] = inl refl
  rowcount-pos p (r ∷ rs) = ground (arith, rowcount-pos p rs)

  -- Where the key `p` is unique, a search by the key and a test is the test on the key's row.
  pub fetchone_unique :
      (p q : R → Bool) (rs : List R)
      → rowcount p rs ≤ 1
      → fetchone (λ r. p r && q r) rs
        ≡ on_row (fetchone p rs) none (λ r. if q r then some r else none)
  fetchone_unique p q [] h = refl
  fetchone_unique p q (r ∷ rs) h =
      ground (arith, fetchone-and_none p q rs, rowcount-pos p rs, fetchone_unique p q rs)

  -- An update after which a row meets `p` only if it did before.
  pub rowcount-update-le :
      (p q : R → Bool) (f : R → R) (rs : List R)
      → ((r : R) → q r ≡ true → p (f r) ≡ true → p r ≡ true)
      → rowcount p (update q f rs) ≤ rowcount p rs
  rowcount-update-le p q f [] back = omega arith
  rowcount-update-le p q f (r ∷ rs) back = ground (arith, back r, rowcount-update-le p q f rs back)

  pub fetchone-All {κ} :
      (P : R → Type κ) (p : R → Bool) (rs : List R) (r : R)
      → All P rs
      → fetchone p rs ≡ some r
      → P r
  fetchone-All P p [] r holds found = absurd (ground arith)
  fetchone-All P p (x ∷ rs) r holds found = elim (Bool-cases (p x)) [
    | inl e ↦ let same : x ≡ r = ground arith in subst P same holds.0
    | inr e ↦ fetchone-All P p rs r holds.1 (rw e at found)
  ]
