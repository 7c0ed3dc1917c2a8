-- ===== src/Ids/Roundtrip.antt =====
-- A number that fits is read back from its text.
use mathlib.Core.List.{append-nil, append_assoc}
use mathlib.Core.Logic.{◌⊎◌}
use hermes_device_protocol.Pairing.{upper, upper_char}
use hermes_device_protocol.Pairing.{upper, upper_char}
use hermes_device_protocol.Ids.{
  decode_crockford, decode_from, encode_crockford, in_range, index, next, parse, random_mask,
  split_at, symbol, ulid,
}
use hermes_device_protocol.Store.{Python, Text}
use hermes_device_protocol.Prelude.{
  Bool-cases, Option-cases, [], ap, arith, false, if◌then◌else◌, inl, inr, leb, length,
  length-append, none, refl, some, suc, sym, zero, ℕ, ◌%◌, ◌*◌, ◌++◌, ◌+◌, ◌/◌, ◌<◌, ◌==◌, ◌^◌, ◌∙◌,
  ◌∷◌, ◌≡◌, ◌⊎◌,
}

index-symbol : (d : ℕ) → d < 32 → index (symbol d) ≡ some d
unfolding index symbol
index-symbol d h = ground arith

decode_from-append :
    (value c d : ℕ) (text : Text) (v : ℕ)
    → index c ≡ some d
    → decode_from value text ≡ some v
    → decode_from value (text ++ (c ∷ [])) ≡ some (v * 32 + d)
unfolding decode_from
decode_from-append value c d [] v known h =
    ap (λ o. elim o [ none ↦ none | some k ↦ some (value * 32 + k) ]) known ∙ ground arith
decode_from-append value c d (x ∷ text) v known h = elim (Option-cases (index x)) [
  | inl e ↦ absurd (
      none_not_some
        (sym (ap (λ o. elim o [ none ↦ none | some k ↦ decode_from (value * 32 + k) text ]) e) ∙ h))
  | inr (k, e) ↦
      ap (λ o. elim o [ none ↦ none | some j ↦ decode_from (value * 32 + j) (text ++ (c ∷ [])) ]) e
      ∙ decode_from-append (value * 32 + k) c d text v known (
          sym (ap (λ o. elim o [ none ↦ none | some j ↦ decode_from (value * 32 + j) text ]) e) ∙ h)
]
  where
    none_not_some : {A : Type 0} {a : A} → none ≡ some a → ⊥
    none_not_some h = ground arith

fits_before : (value length : ℕ) → value < 32 ^ suc length → value / 32 < 32 ^ length
fits_before value length h = ground arith

-- A number below 32 ^ length is read back from its text of that length.
pub decode-encode :
    (length value : ℕ)
    → value < 32 ^ length
    → decode_from 0 (encode_crockford value length) ≡ some value
unfolding encode_crockford
decode-encode zero value h = unfold decode_from in ap some (omega arith)
decode-encode (suc length) value h =
    decode_from-append 0 (symbol (value % 32)) (value % 32) (encode_crockford (value / 32) length)
      (value / 32) (index-symbol (value % 32) (omega arith))
      (decode-encode length (value / 32) (fits_before value length h))
    ∙ ap some (omega arith)

split_at-append : (xs ys : Text) → split_at (length xs) (xs ++ ys) ≡ (xs, ys)
unfolding split_at
split_at-append [] ys = refl
split_at-append (x ∷ xs) ys = ap (λ r. (x ∷ r.0, r.1)) (split_at-append xs ys)

length-encode : (n value : ℕ) → length (encode_crockford value n) ≡ n
unfolding encode_crockford
length-encode zero value = refl
length-encode (suc n) value = omega (
  arith,
  length-append (encode_crockford (value / 32) n) (symbol (value % 32) ∷ []),
  length-encode n (value / 32),
)

upper-symbol : (py : Python) (d : ℕ) → d < 32 → upper_char py (symbol d) ≡ symbol d ∷ []
unfolding symbol
upper-symbol py d h = ground arith

upper-append : (py : Python) (xs ys : Text) → upper py (xs ++ ys) ≡ upper py xs ++ upper py ys
unfolding upper
upper-append py [] ys = refl
upper-append py (x ∷ xs) ys =
    ap (λ t. upper_char py x ++ t) (upper-append py xs ys)
    ∙ sym (append_assoc (upper_char py x) (upper py xs) (upper py ys))

upper_one : (py : Python) (c : ℕ) → upper py (c ∷ []) ≡ upper_char py c
unfolding upper
upper_one py c = append-nil (upper_char py c)

upper-encode :
    (py : Python) (n value : ℕ) → upper py (encode_crockford value n) ≡ encode_crockford value n
unfolding encode_crockford
upper-encode py zero value = unfold upper in refl
upper-encode py (suc n) value =
    upper-append py (encode_crockford (value / 32) n) (symbol (value % 32) ∷ [])
    ∙ ap (λ t. t ++ upper py (symbol (value % 32) ∷ [])) (upper-encode py n (value / 32))
    ∙ ap (λ t. encode_crockford (value / 32) n ++ t)
        (upper_one py (symbol (value % 32)) ∙ upper-symbol py (value % 32) (omega arith))

decode_crockford-encode :
    (py : Python) (n value : ℕ)
    → value < 32 ^ n
    → decode_crockford py (encode_crockford value n) ≡ some value
unfolding decode_crockford
decode_crockford-encode py n value h =
    ap (decode_from 0) (upper-encode py n value) ∙ decode-encode n value h

leb-false : (bound n : ℕ) → n < bound → leb bound n ≡ false
leb-false bound n h = ground arith

-- An identifier is read back: the text of a 48-bit time and an 80-bit random component is 26
-- characters long, and `parse` returns the two.
pub parse-ulid :
    (py : Python) (ts_ms random_component : ℕ)
    → ts_ms < 2 ^ 48
    → random_component < 2 ^ 80
    → (length (ulid (ts_ms, random_component)) ≡ 26)
      × (parse py (ulid (ts_ms, random_component)) ≡ some (ts_ms, random_component))
unfolding ulid parse
parse-ulid py ts_ms random_component in_time in_mask =
    let head = encode_crockford ts_ms 10 in
    let tail = encode_crockford random_component 16 in
    let long : length (head ++ tail) ≡ 26 =
      omega (
        arith,
        length-append head tail,
        length-encode 10 ts_ms,
        length-encode 16 random_component,
      ) in
    let split : split_at 10 (head ++ tail) ≡ (head, tail) =
      ap (λ n. split_at n (head ++ tail)) (sym (length-encode 10 ts_ms))
      ∙ split_at-append head tail in
    let first = decode_crockford-encode py 10 ts_ms (omega arith) in
    let second = decode_crockford-encode py 16 random_component (omega arith) in
    let early = leb-false (2 ^ 48) ts_ms in_time in
    (
      long,
      ap
            (λ n.
              if n == 26
              then in_range (decode_crockford py (split_at 10 (head ++ tail)).0)
                  (decode_crockford py (split_at 10 (head ++ tail)).1)
              else none)
            long
          ∙ ap (λ s. in_range (decode_crockford py s.0) (decode_crockford py s.1)) split
          ∙ ap (λ o. in_range o (decode_crockford py tail)) first
          ∙ ap (in_range (some ts_ms)) second
          ∙ ap (λ b. if b then none else some (ts_ms, random_component)) early,
    )

-- Minting is monotonic: unless the random component of the last identifier was its greatest value,
-- the next identifier has a later time, or the same time and a greater random component.
pub next_increases :
    (last_ts_ms last_random ts_ms drawn : ℕ)
    → last_random + 1 < random_mask
    → let following = next (some (last_ts_ms, last_random)) ts_ms drawn in
      (last_ts_ms < following.0) ⊎ ((following.0 ≡ last_ts_ms) × (last_random < following.1))
unfolding next
next_increases last_ts_ms last_random ts_ms drawn room = elim (Bool-cases (leb ts_ms last_ts_ms)) [
  | inl e ↦ rw e (inr (refl, omega arith))
  | inr e ↦ rw e (inl (ground arith))
]
