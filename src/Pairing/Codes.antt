-- ===== src/Pairing/Codes.antt =====
-- Codes and their hashes: the six digits that are drawn, and what `_hash_code` ignores.
use hermes_device_protocol.Prelude.{
  All, [], ap, arith, length, refl, some, sym, ℕ, ◌*◌, ◌++◌, ◌+◌, ◌-◌, ◌<◌, ◌^◌, ◌∙◌, ◌∷◌, ◌≡◌, ◌≤◌,
  ◌⊎◌,
}
use hermes_device_protocol.Prelude.Result.{ok}
use hermes_device_protocol.Store.{Python, Text, encode_ascii}
use hermes_device_protocol.Pairing.{digest, digit, hash_code, random_code, strip_separators, upper}

abbrev pub IsDigit : ℕ → Type 0
IsDigit c = (48 ≤ c) × (c ≤ 57)

value : Text → ℕ
value [] = 0
value (c ∷ cs) = (c - 48) * 10 ^ length cs + value cs

value-random_code : (n : ℕ) → n < 10 ^ 6 → value (random_code n) ≡ n
unfolding value random_code
value-random_code n h = omega arith

digit-IsDigit : (k n : ℕ) → IsDigit (digit k n)
digit-IsDigit k n = omega arith

random_code-IsDigit : (n : ℕ) → All IsDigit (random_code n)
unfolding random_code
random_code-IsDigit n = (
  digit-IsDigit 5 n,
  (
    digit-IsDigit 4 n,
    (digit-IsDigit 3 n, (digit-IsDigit 2 n, (digit-IsDigit 1 n, (digit-IsDigit 0 n, tt)))),
  ),
)

strip_digits : (t : Text) → All IsDigit t → strip_separators t ≡ t
unfolding strip_separators
strip_digits [] h = refl
strip_digits (c ∷ t) h = ground (arith, strip_digits t h.1)

upper_digits : (py : Python) (t : Text) → All IsDigit t → upper py t ≡ t
unfolding upper
upper_digits py [] h = refl
upper_digits py (c ∷ t) h = ground (arith, upper_digits py t h.1)

encode_digits : (t : Text) → All IsDigit t → encode_ascii t ≡ some t
unfolding encode_ascii
encode_digits [] h = refl
encode_digits (c ∷ t) h = ground (arith, encode_digits t h.1)

pub hash-random_code :
    (py : Python) (n : ℕ) → hash_code py (random_code n) ≡ ok (py.sha256 (random_code n))
unfolding hash_code
hash-random_code py n =
    let digits = random_code-IsDigit n in
    ap (λ t. digest py (encode_ascii (upper py t))) (strip_digits _ digits)
    ∙ ap (λ t. digest py (encode_ascii t)) (upper_digits py _ digits)
    ∙ ap (digest py) (encode_digits _ digits)

-- For draws below 1,000,000, a code is six decimal digits, equal codes come from equal draws, and a
-- code can be hashed: its hash is the digest of the six digits themselves.
pub random_code_uniform :
    (py : Python) (m n : ℕ)
    → m < 10 ^ 6
    → n < 10 ^ 6
    → (length (random_code n) ≡ 6)
      × All IsDigit (random_code n)
      × (random_code m ≡ random_code n → m ≡ n)
      × (hash_code py (random_code n) ≡ ok (py.sha256 (random_code n)))
random_code_uniform py m n hm hn = (
  unfold random_code in refl,
  random_code-IsDigit n,
  λ e. sym (value-random_code m hm) ∙ ap value e ∙ value-random_code n hn,
  hash-random_code py n,
)

strip-insert :
    (c : ℕ) (left right : Text)
    → (c ≡ b'-') ⊎ (c ≡ b' ')
    → strip_separators (left ++ (c ∷ right)) ≡ strip_separators (left ++ right)
unfolding strip_separators
strip-insert c [] right h = ground arith
strip-insert c (x ∷ left) right h = ground (arith, strip-insert c left right h)

-- A dash or a space typed anywhere in a code does not change what it hashes to.
pub hash_ignores_separators :
    (py : Python) (c : ℕ) (left right : Text)
    → (c ≡ b'-') ⊎ (c ≡ b' ')
    → hash_code py (left ++ (c ∷ right)) ≡ hash_code py (left ++ right)
unfolding hash_code
hash_ignores_separators py c left right h =
    ap (λ t. digest py (encode_ascii (upper py t))) (strip-insert c left right h)
