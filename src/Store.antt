-- ===== src/Store.antt =====
-- The rows of the registry database (hdp-bridge/hdp_bridge/store/migrations), and the texts that
-- the bridge encodes and hashes. A Python `str` whose characters the code reads is the list of its
-- code points; one that is only compared is a `String`. Times are milliseconds.
use hermes_device_protocol.Prelude.Int.{ℤ}
use hermes_device_protocol.Prelude.{
  Bool, List, Option, String, [], false, if◌then◌else◌, ltb, none, some, true, ℕ, ◌∷◌,
}

abbrev pub Text : Type 0
Text = List ℕ

-- What the bridge takes from Python's libraries: the hexadecimal SHA-256 digest of some bytes, and
-- the upper case of a character beyond ASCII.
pub record Python : Type 0 where
  pub sha256 : Text → String
  pub upper_other : ℕ → Text

-- `text.encode("ascii")`; `none` is UnicodeEncodeError.
unfoldable pub encode_ascii : Text → Option Text
encode_ascii [] = some []
encode_ascii (c ∷ cs) =
    let rest = encode_ascii cs in
    if ltb c 128 then elim rest [ none ↦ none | some bs ↦ some (c ∷ bs) ] else none

-- The role of a device: `CHECK (role IN ('primary', 'secondary'))`.
pub data Role : Type 0 where
  primary secondary : Role

abbrev pub is_primary : Role → Bool
is_primary primary = true
is_primary secondary = false

-- `state TEXT -- 'active' | 'revoked'`
pub data DeviceState : Type 0 where
  active revoked : DeviceState

abbrev pub is_active : DeviceState → Bool
is_active active = true
is_active revoked = false

pub record Device : Type 0 where
  pub device_id : String
  pub friendly_name : String
  pub platform : String
  pub client_version : String
  pub first_paired_at : ℕ
  pub last_seen_at : ℕ
  pub state : DeviceState
  pub device_pubkey : String
  pub role : Role

pub record Credential : Type 0 where
  pub device_id : String
  pub credential_hash : String
  pub issued_at : ℕ
  pub revoked_at : Option ℕ

pub record Capability : Type 0 where
  pub device_id : String
  pub name : String
  pub version : ℤ
  pub input_schema : String
  pub output_schema : String
  pub advertised_at : ℕ

pub record PairingCode : Type 0 where
  pub code_hash : String
  pub created_at : ℕ
  pub expires_at : ℕ
  pub consumed_at : Option ℕ
  pub issued_device_id : Option String
  pub attempts_remaining : ℕ
  pub invalidated_at : Option ℕ

-- `state IN ('pending', 'candidate_approved', ..., 'expired')` of `pending_enrollments`
pub data EnrollmentState : Type 0 where
  pending candidate_approved primary_approved consumed denied blocked expired : EnrollmentState

pub record PendingEnrollment : Type 0 where
  pub identifier_hash : String
  pub host_key_fingerprint : String
  pub candidate_key_fingerprint : String
  pub state : EnrollmentState
  pub created_at : ℕ
  pub expires_at : ℕ
  pub candidate_approved_at : Option ℕ
  pub primary_approved_at : Option ℕ
  pub primary_device_id : Option String
  pub consumed_at : Option ℕ
  pub target_role : Role

-- The one row that `CHECK (profile_lock = 1)` allows in `pairing_locks`.
pub record PairingLock : Type 0 where
  pub locked_at : ℕ
  pub blocked_by_device_id : String

-- The tables that enrollment reads and writes.
pub record EnrollmentDb : Type 0 where
  pub devices : List Device
  pub pending_enrollments : List PendingEnrollment
  pub pairing_lock : Option PairingLock

-- The tables that hold or reference devices.
pub record RegistryDb : Type 0 where
  pub devices : List Device
  pub credentials : List Credential
  pub capabilities : List Capability
  pub pending_enrollments : List PendingEnrollment
  pub pairing_lock : Option PairingLock
