-- ===== src/Ids/Tests.antt =====
-- The theorems on identifiers at concrete values.
use hermes_device_protocol.Ids.Roundtrip.{parse-ulid}
use hermes_device_protocol.Ids.{parse, ulid}
use hermes_device_protocol.Store.{Python}
use hermes_device_protocol.Prelude.{[], arith, length, some, ◌∷◌, ◌≡◌}

abbrev py : Python
py = record { sha256 = λ bytes. ""; upper_other = λ c. c ∷ [] }

parse-ulid_example :
    (length (ulid (1_700_000_000_000, 12_345)) ≡ 26)
    × (parse py (ulid (1_700_000_000_000, 12_345)) ≡ some (1_700_000_000_000, 12_345))
parse-ulid_example = parse-ulid py 1_700_000_000_000 12_345 (omega arith) (omega arith)
