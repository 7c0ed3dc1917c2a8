-- ===== src/Pairing/Tests.antt =====
-- The theorems on pairing codes at concrete tables.
use hermes_device_protocol.Prelude.{
  List, [], arith, false, if◌then◌else◌, leb, length, ltb, refl, true, ℕ, ◌∙◌, ◌∷◌, ◌≡◌,
}
use hermes_device_protocol.Prelude.Result.{ok, ◌>>=◌}
use hermes_device_protocol.Store.{PairingCode, Python, Text}
use hermes_device_protocol.Pairing.{
  code_is_live, consume_hash, consume_pairing_code, fresh_row, hash_code, mint_pairing_code,
  random_code, spend,
}
use hermes_device_protocol.Pairing.Table.{IsKeyed}
use hermes_device_protocol.Pairing.Consume.{IsConsumed, consume-iff-live, consume_once}
use hermes_device_protocol.Pairing.Budget.{budget_destroys, budget_spares, burn_all}
use hermes_device_protocol.Pairing.Codes.{hash-random_code}
use hermes_device_protocol.Pairing.Mint.{IsMinted, mint-IsMinted}

-- A stand-in for the digest that tells two codes apart.
abbrev py : Python
py = record {
  sha256 = λ bytes. if leb 6 (length bytes) then "long" else "short";
  upper_other = λ c. c ∷ [];
}

abbrev one_code : List PairingCode
one_code = fresh_row "long" 1000 ∷ []

abbrev drawn : Text
drawn = random_code 482915

one_code-IsKeyed : IsKeyed one_code
one_code-IsKeyed h = ground arith

abbrev five_times : List ℕ
five_times = 2000 ∷ 2001 ∷ 2002 ∷ 2003 ∷ 2004 ∷ []

consume-iff-live_example :
    (consume_pairing_code py drawn "device" 2000 one_code >>= λ done. ok done.0)
    ≡ code_is_live py drawn 2000 one_code
consume-iff-live_example = consume-iff-live py drawn "device" 2000 one_code one_code-IsKeyed

consumes : (consume_hash "long" "device" 2000 one_code).0 ≡ true
unfolding consume_hash
consumes = refl

consume_once_example :
    IsConsumed "long" "device" one_code (consume_hash "long" "device" 2000 one_code).1
consume_once_example = consume_once "long" "device" 2000 one_code one_code-IsKeyed consumes

abbrev spent_code : PairingCode
spent_code = spend 2000 "device" (fresh_row "long" 1000)

drawn_hash : hash_code py drawn ≡ ok "long"
drawn_hash = hash-random_code py 482915 ∙ unfold random_code in refl

budget_destroys_example : code_is_live py drawn 2005 (burn_all five_times one_code) ≡ ok false
budget_destroys_example =
    budget_destroys py drawn "long" five_times one_code (fresh_row "long" 1000) drawn_hash
      one_code-IsKeyed refl (λ _. omega arith) (omega arith) (omega arith) 2005

budget_spares_example :
    code_is_live py drawn 2005 (burn_all (2000 ∷ 2001 ∷ []) one_code) ≡ ok (ltb 2005 301_000)
budget_spares_example =
    budget_spares py drawn "long" (2000 ∷ 2001 ∷ []) one_code (fresh_row "long" 1000) drawn_hash
      one_code-IsKeyed refl refl (omega arith) (omega arith) 2005

mints : mint_pairing_code py (λ _. 482915) 1000 [] ≡ ok (drawn, one_code)
unfolding mint_pairing_code random_code hash_code
mints = refl

mint-IsMinted_example : IsMinted (py.sha256 drawn) 1000 [] one_code
mint-IsMinted_example = mint-IsMinted py (λ _. 482915) 1000 [] drawn one_code mints
