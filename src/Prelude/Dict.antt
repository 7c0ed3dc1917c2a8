-- ===== src/Prelude/Dict.antt =====
-- A Python `dict` from texts, as the list of its entries in the order of insertion.
use hermes_device_protocol.Prelude.Sql.{
  delete, fetchone, fetchone-append, fetchone-delete_self, on_row, update,
}
use hermes_device_protocol.Prelude.{
  Bool, Bool-cases, List, Option, Option-cases, String, [], ap, arith, eq_iff, eq_refl, false, inl,
  inr, none, refl, some, str_eq, true, ◌++◌, ◌∙◌, ◌∷◌, ◌≡◌,
}

abbrev pub Dict {ℓ} : Type ℓ → Type ℓ
Dict A = List (String × A)

abbrev pub has_key {ℓ} : {A : Type ℓ} → String → String × A → Bool
has_key k entry = str_eq entry.0 k

-- `d[key] = value`
unfoldable pub set_item {ℓ} : {A : Type ℓ} → String → A → Dict A → Dict A
set_item k v d =
    on_row (fetchone (has_key k) d) (d ++ ((k, v) ∷ [])) λ _. update (has_key k) (λ _. (k, v)) d

-- `d.get(key)`
unfoldable pub get_item {ℓ} : {A : Type ℓ} → String → Dict A → Option A
get_item k d = on_row (fetchone (has_key k) d) none λ entry. some entry.1

-- `d.pop(key)`
unfoldable pub pop_item {ℓ} : {A : Type ℓ} → String → Dict A → Dict A
pop_item k d = delete (has_key k) d

module _ {ℓ} {A : Type ℓ} where
  update_found :
      (p : String × A → Bool) (x r : String × A) (d : Dict A)
      → p x ≡ true
      → fetchone p d ≡ some r
      → fetchone p (update p (λ _. x) d) ≡ some x
  update_found p x r [] hit found = absurd (ground arith)
  update_found p x r (y ∷ d) hit found = ground (arith, hit, update_found p x r d)

  pub get_item-set_item : (k : String) (v : A) (d : Dict A) → get_item k (set_item k v d) ≡ some v
  unfolding get_item set_item
  get_item-set_item k v d = elim (Option-cases (fetchone (has_key k) d)) [
    | inl e ↦ rw (e, fetchone-append (has_key k) d ((k, v) ∷ []), e, eq_refl k) refl
    | inr (r, e) ↦ rw (e, update_found (has_key k) (k, v) r d (eq_refl k) e) refl
  ]

  update_other :
      (j k : String) (v : A) (d : Dict A)
      → str_eq k j ≡ false
      → fetchone (has_key j) (update (has_key k) (λ _. (k, v)) d) ≡ fetchone (has_key j) d
  update_other j k v [] other = refl
  update_other j k v (e ∷ d) other = elim (Bool-cases (has_key k e)) [
    | inl h ↦
        let miss : str_eq e.0 j ≡ false = ap (λ x. str_eq x j) ((eq_iff e.0 k).0 h) ∙ other in
        rw (h, other, miss) (update_other j k v d other)
    | inr h ↦ ground (arith, h, update_other j k v d other)
  ]

  pub get_item-set_other :
      (j k : String) (v : A) (d : Dict A)
      → str_eq k j ≡ false
      → get_item j (set_item k v d) ≡ get_item j d
  unfolding get_item set_item
  get_item-set_other j k v d other = elim (Option-cases (fetchone (has_key k) d)) [
    | inl e ↦
        rw (e, fetchone-append (has_key j) d ((k, v) ∷ []), other)
          (elim (Option-cases (fetchone (has_key j) d)) [
            | inl f ↦ rw f refl
            | inr (r, f) ↦ rw f refl
          ])
    | inr (r, e) ↦ rw (e, update_other j k v d other) refl
  ]

  pub get_item-pop_item : (k : String) (d : Dict A) → get_item k (pop_item k d) ≡ none
  unfolding get_item pop_item
  get_item-pop_item k d = rw (fetchone-delete_self (has_key k) d) refl
