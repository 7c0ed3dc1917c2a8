-- ===== src/Control/Members.antt =====
-- Membership in the lists that the choice of a target goes through.
use hermes_device_protocol.Control.{
  greatest, insert_sorted, keep_if, larger, leb_int, sort_by_id, str_leb,
}
use hermes_device_protocol.Registry.Register.{CapabilityRecord, DeviceRecord}
use hermes_device_protocol.Prelude.Sql.{fetchone}
use hermes_device_protocol.Prelude.Int.{negsuc, pos, ℤ}
use hermes_device_protocol.Prelude.{
  Bool, Bool-cases, List, Option, [], ap, arith, false, if◌then◌else◌, inl, inr, none, refl, some,
  sym, true, ◌∙◌, ◌∷◌, ◌≡◌, ◌⊎◌,
}

pub some_eq : {A : Type 0} {a b : A} → ◌≡◌ {A = Option A} (some a) (some b) → a ≡ b
some_eq h = cc

abbrev pub Member : {A : Type 0} → A → List A → Type 0
Member x [] = ⊥
Member x (y ∷ ys) = (x ≡ y) ⊎ Member x ys

module _ {A : Type 0} where
  pub Member-keep_if :
      (p : A → Bool) (x : A) (xs : List A) → Member x (keep_if p xs) → (p x ≡ true) × Member x xs
  unfolding keep_if
  Member-keep_if p x [] h = absurd h
  Member-keep_if p x (y ∷ xs) h = kept (p y) refl (Member-keep_if p x xs) h
    where
      kept :
          (b : Bool)
          → p y ≡ b
          → (Member x (keep_if p xs) → (p x ≡ true) × Member x xs)
          → Member x (if b then y ∷ keep_if p xs else keep_if p xs)
          → (p x ≡ true) × Member x (y ∷ xs)
      kept true e later (inl same) = (ap p same ∙ e, inl same)
      kept true e later (inr m) = ((later m).0, inr (later m).1)
      kept false e later m = ((later m).0, inr (later m).1)

  pub keep_if-Member :
      (p : A → Bool) (x : A) (xs : List A) → Member x xs → p x ≡ true → Member x (keep_if p xs)
  unfolding keep_if
  keep_if-Member p x [] h holds = h
  keep_if-Member p x (y ∷ xs) h holds = kept (p y) refl (λ m. keep_if-Member p x xs m holds) h
    where
      kept :
          (b : Bool)
          → p y ≡ b
          → (Member x xs → Member x (keep_if p xs))
          → Member x (y ∷ xs)
          → Member x (if b then y ∷ keep_if p xs else keep_if p xs)
      kept true e later (inl same) = inl same
      kept true e later (inr m) = inr (later m)
      kept false e later (inl same) =
          let clash : true ≡ false = sym holds ∙ (ap p same ∙ e) in absurd (ground arith)
      kept false e later (inr m) = later m

  pub Member-fetchone : (p : A → Bool) (x : A) (xs : List A) → fetchone p xs ≡ some x → Member x xs
  Member-fetchone p x [] h = absurd (ground arith)
  Member-fetchone p x (y ∷ xs) h = found (p y) (Member-fetchone p x xs) h
    where
      found :
          (b : Bool)
          → (fetchone p xs ≡ some x → Member x xs)
          → (if b then some y else fetchone p xs) ≡ some x
          → Member x (y ∷ xs)
      found true later e = inl (sym (some_eq e))
      found false later e = inr (later e)

Member-insert :
    (x r : DeviceRecord) (rs : List DeviceRecord)
    → Member x (insert_sorted r rs)
    → Member x (r ∷ rs)
Member-insert x r [] h = h
Member-insert x r (s ∷ rs) h = placed (str_leb r.device_id s.device_id) (Member-insert x r rs) h
  where
    placed :
        (b : Bool)
        → (Member x (insert_sorted r rs) → Member x (r ∷ rs))
        → Member x (if b then r ∷ (s ∷ rs) else s ∷ insert_sorted r rs)
        → Member x (r ∷ (s ∷ rs))
    placed true later m = m
    placed false later (inl same) = inr (inl same)
    placed false later (inr m) = elim (later m) [ inl same ↦ inl same | inr k ↦ inr (inr k) ]

pub Member-sort :
    (x : DeviceRecord) (rs : List DeviceRecord) → Member x (sort_by_id rs) → Member x rs
unfolding sort_by_id
Member-sort x [] h = h
Member-sort x (r ∷ rs) h = elim (Member-insert x r (sort_by_id rs) h) [
  | inl same ↦ inl same
  | inr m ↦ inr (Member-sort x rs m)
]

larger_one : (u : ℤ) (o : Option ℤ) (v : ℤ) → larger u o ≡ v → (v ≡ u) ⊎ (o ≡ some v)
larger_one u none v h = inl (sym h)
larger_one u (some w) v h = picked (leb_int u w) h
  where
    picked : (b : Bool) → (if b then w else u) ≡ v → (v ≡ u) ⊎ (some w ≡ some v)
    picked true e = inr (ap some e)
    picked false e = inl (sym e)

-- The greatest version is one of the versions.
pub Member-greatest :
    (cs : List CapabilityRecord) (v : ℤ)
    → greatest cs ≡ some v
    → (c : CapabilityRecord) × Member c cs × (c.version ≡ v)
unfolding greatest
Member-greatest [] v h = absurd (ground arith)
Member-greatest (c ∷ cs) v h = elim (larger_one c.version (greatest cs) v (some_eq h)) [
  | inl same ↦ (c, inl refl, sym same)
  | inr e ↦ let (d, m, same) = Member-greatest cs v e in (d, inr m, same)
]

leb_int_refl : (v : ℤ) → leb_int v v ≡ true
leb_int_refl (pos n) = ground arith
leb_int_refl (negsuc n) = ground arith

leb_int_trans : (u v w : ℤ) → leb_int u v ≡ true → leb_int v w ≡ true → leb_int u w ≡ true
leb_int_trans (pos a) (pos b) (pos c) h k = ground arith
leb_int_trans (pos a) (pos b) (negsuc c) h k = ground arith
leb_int_trans (pos a) (negsuc b) w h k = ground arith
leb_int_trans (negsuc a) v (pos c) h k = refl
leb_int_trans (negsuc a) (negsuc b) (negsuc c) h k = ground arith
leb_int_trans (negsuc a) (pos b) (negsuc c) h k = ground arith

leb_int_total : (u v : ℤ) → leb_int u v ≡ false → leb_int v u ≡ true
leb_int_total (pos a) (pos b) h = ground arith
leb_int_total (pos a) (negsuc b) h = refl
leb_int_total (negsuc a) (pos b) h = ground arith
leb_int_total (negsuc a) (negsuc b) h = ground arith

larger_left : (u : ℤ) (o : Option ℤ) → leb_int u (larger u o) ≡ true
larger_left u none = leb_int_refl u
larger_left u (some w) = elim (Bool-cases (leb_int u w)) [
  | inl e ↦ rw e e
  | inr e ↦ rw e (leb_int_refl u)
]

larger_right : (u w : ℤ) → leb_int w (larger u (some w)) ≡ true
larger_right u w = elim (Bool-cases (leb_int u w)) [
  | inl e ↦ rw e (leb_int_refl w)
  | inr e ↦ rw e (leb_int_total u w e)
]

greatest_le :
    (c : CapabilityRecord) (cs : List CapabilityRecord)
    → Member c cs
    → (w : ℤ) × (greatest cs ≡ some w) × (leb_int c.version w ≡ true)
unfolding greatest
greatest_le c [] m = absurd m
greatest_le c (d ∷ cs) (inl same) = (
  larger d.version (greatest cs),
  refl,
  ap (λ (x : CapabilityRecord). leb_int x.version (larger d.version (greatest cs))) same
      ∙ larger_left d.version (greatest cs),
)
greatest_le c (d ∷ cs) (inr m) =
    let (w, e, below) = greatest_le c cs m in
    (
      larger d.version (some w),
      ap (λ o. some (larger d.version o)) e,
      leb_int_trans c.version w (larger d.version (some w)) below (larger_right d.version w),
    )

-- No version is above the greatest.
pub greatest_bound :
    (cs : List CapabilityRecord) (v : ℤ) (c : CapabilityRecord)
    → greatest cs ≡ some v
    → Member c cs
    → leb_int c.version v ≡ true
greatest_bound cs v c h m =
    let (w, e, below) = greatest_le c cs m in ap (leb_int c.version) (some_eq (sym h ∙ e)) ∙ below
