-- ===== src/Ids.antt =====
-- hdp-spec/hdp_proto/ids.py: identifiers (ULIDs), their minting and their text in Crockford's base 32.
-- `str.upper` before decoding is that of the characters of the text; the lock around minting makes
-- each mint one step.
pub mod Roundtrip
mod Tests
use hermes_device_protocol.Prelude.{
  Option, [], if◌then◌else◌, leb, length, ltb, none, some, suc, zero, ℕ, ◌%◌, ◌&&◌, ◌*◌, ◌++◌, ◌+◌,
  ◌-◌, ◌/◌, ◌==◌, ◌^◌, ◌∷◌,
}
use hermes_device_protocol.Pairing.{upper}
use hermes_device_protocol.Store.{Python, Text}

-- _CROCKFORD_ALPHABET[d]
unfoldable pub symbol : ℕ → ℕ
symbol d =
    if ltb d 10
    then 48 + d
    else if ltb d 18
    then 55 + d
    else if ltb d 20
    then 56 + d
    else if ltb d 22
    then 57 + d
    else if ltb d 27
    then 58 + d
    else 59 + d

-- _CROCKFORD_ALPHABET.index(ch); `none` is the ValueError
unfoldable pub index : ℕ → Option ℕ
index c =
    if leb 48 c && leb c 57
    then some (c - 48)
    else if leb 65 c && leb c 72
    then some (c - 55)
    else if leb 74 c && leb c 75
    then some (c - 56)
    else if leb 77 c && leb c 78
    then some (c - 57)
    else if leb 80 c && leb c 84
    then some (c - 58)
    else if leb 86 c && leb c 90
    then some (c - 59)
    else none

-- `_encode_crockford(value, length)`: the last character is `value & 0x1F`
unfoldable pub encode_crockford : ℕ → ℕ → Text
unfolding symbol
encode_crockford value zero = []
encode_crockford value (suc length) =
    encode_crockford (value / 32) length ++ (symbol (value % 32) ∷ [])

-- The loop of `_decode_crockford`; `none` is InvalidULIDError.
unfoldable pub decode_from : ℕ → Text → Option ℕ
unfolding index
decode_from value [] = some value
decode_from value (c ∷ cs) = elim (index c) [
  | none ↦ none
  | some d ↦ decode_from (value * 32 + d) cs
]

abbrev pub random_mask : ℕ
random_mask = 2 ^ 80

-- `_last`, and what `new` draws: the time in milliseconds and ten random bytes as a number
unfoldable pub next : Option (ℕ × ℕ) → ℕ → ℕ → ℕ × ℕ
next none ts_ms drawn = (ts_ms, drawn % random_mask)
next (some (last_ts_ms, last_random)) ts_ms drawn =
    if leb ts_ms last_ts_ms
    then (last_ts_ms, (last_random + 1) % random_mask)
    else (ts_ms, drawn % random_mask)

unfoldable pub ulid : ℕ × ℕ → Text
unfolding encode_crockford
ulid (ts_ms, random_component) = encode_crockford ts_ms 10 ++ encode_crockford random_component 16

-- ulid[:n] and ulid[n:]
unfoldable pub split_at : ℕ → Text → Text × Text
split_at zero text = ([], text)
split_at (suc n) [] = ([], [])
split_at (suc n) (c ∷ cs) = let rest = split_at n cs in (c ∷ rest.0, rest.1)

abbrev pub in_range : Option ℕ → Option ℕ → Option (ℕ × ℕ)
in_range none random_part = none
in_range (some ts_ms) none = none
in_range (some ts_ms) (some random_component) =
    if leb (2 ^ 48) ts_ms then none else some (ts_ms, random_component)

module _ (py : Python) where
  -- `_decode_crockford`
  unfoldable pub decode_crockford : Text → Option ℕ
  unfolding decode_from
  decode_crockford text = decode_from 0 (upper py text)

  -- `parse`; `none` is InvalidULIDError
  unfoldable pub parse : Text → Option (ℕ × ℕ)
  unfolding decode_crockford split_at
  parse text =
      if length text == 26
      then (in_range (decode_crockford (split_at 10 text).0)
          (decode_crockford (split_at 10 text).1))
      else none
