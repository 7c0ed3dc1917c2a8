-- ===== src/DeviceKeys.antt =====
-- hdp-bridge/hdp_bridge/device_keys.py: which device keys are usable, and the check of the signature
-- that a challenge asks for. Decoding, DER and ECDSA are the libraries' (`Cryptography`).
pub mod Contexts
use hermes_device_protocol.Prelude.Strings.{codes}
use hermes_device_protocol.Prelude.Result.{Result, err, is_ok, ok, ◌>>=◌}
use hermes_device_protocol.Prelude.{Bool, Option, String, [], false, none, some, ◌++◌, ◌∷◌}
use hermes_device_protocol.Store.{Python, Text}

-- What `load_der_public_key` returns, as far as the bridge tells keys apart: the named handle of an
-- EC key on P-256, an EC key on another curve, or a key of another algorithm.
pub data LoadedKey : Type 0 where
  p256 : String → LoadedKey
  other_curve not_elliptic : LoadedKey

-- base64 (strict, `none` is binascii.Error or ValueError), DER (`none` is any exception), the
-- canonical DER form of a key, its check of a signature on some bytes, and UTF-8.
pub record Cryptography : Type 0 where
  pub b64decode : String → Option Text
  pub b64encode : Text → String
  pub load_der_public_key : Text → Option LoadedKey
  pub public_bytes : String → Text
  pub verify : String → Text → Text → Bool
  pub utf8 : String → Text

abbrev pub pair_context : Text
pair_context = codes "HDP/0 pair-challenge" ++ (0 ∷ [])

abbrev pub auth_context : Text
auth_context = codes "HDP/0 auth-challenge" ++ (0 ∷ [])

-- InvalidDeviceKeyError, by the check that failed
pub data InvalidDeviceKey : Type 0 where
  not_base64 not_der not_ec unsupported_curve : InvalidDeviceKey

abbrev pub checked_curve : Option LoadedKey → Result InvalidDeviceKey String
checked_curve none = err not_der
checked_curve (some (p256 handle)) = ok handle
checked_curve (some other_curve) = err unsupported_curve
checked_curve (some not_elliptic) = err not_ec

module _ (lib : Cryptography) where
  abbrev pub decoded_key : Option Text → Result InvalidDeviceKey String
  decoded_key none = err not_base64
  decoded_key (some der) = checked_curve (lib.load_der_public_key der)

  unfoldable pub load_public_key : String → Result InvalidDeviceKey String
  load_public_key encoded = decoded_key (lib.b64decode encoded)

  unfoldable pub key_is_usable : String → Bool
  unfolding load_public_key
  key_is_usable encoded = is_ok (load_public_key encoded)

  -- `new_nonce`, of the bytes that `secrets.token_bytes` draws
  abbrev pub new_nonce : Text → String
  new_nonce bytes = lib.b64encode bytes

  unfoldable pub fingerprint : Python → String → Result InvalidDeviceKey String
  unfolding load_public_key
  fingerprint py encoded =
      load_public_key encoded >>= λ handle. ok (py.sha256 (lib.public_bytes handle))

  abbrev pub verify_decoded : Result InvalidDeviceKey String → Text → Option Text → Bool
  verify_decoded (err _) payload raw_signature = false
  verify_decoded (ok handle) payload none = false
  verify_decoded (ok handle) payload (some raw_signature) = lib.verify handle raw_signature payload

  unfoldable pub verify_signature : String → Text → String → Bool
  unfolding load_public_key
  verify_signature encoded_key payload signature =
      verify_decoded (load_public_key encoded_key) payload (lib.b64decode signature)

  abbrev pub verify_nonce : String → Text → Option Text → String → Bool
  verify_nonce encoded_key context none signature = false
  verify_nonce encoded_key context (some raw_nonce) signature =
      verify_signature encoded_key (context ++ raw_nonce) signature

  unfoldable pub verify_proof : String → Text → String → String → Bool
  unfolding verify_signature
  verify_proof encoded_key context nonce signature =
      verify_nonce encoded_key context (lib.b64decode nonce) signature
