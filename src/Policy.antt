-- ===== src/Policy.antt =====
-- hdp-bridge/hdp_bridge/policy.py: validation of a decoded policy document, resolution of a device
-- and a capability, and (in Policy.Engine) the reload of the file.
pub mod Document
pub mod Engine
pub mod Resolve
pub mod Valid
pub mod Reload
mod Tests
use mathlib.Core.Option.{Option}
use hermes_device_protocol.Prelude.{
  Bool, List, Option, String, [], false, if◌then◌else◌, leb, none, not, some, str_eq, true, ℕ, ◌&&◌,
  ◌==◌, ◌||◌, ◌∷◌,
}
use hermes_device_protocol.Prelude.Result.{Result, err, ok, ◌>>=◌}
use hermes_device_protocol.Prelude.Strings.{codes}

-- What the YAML loader returns. A mapping's keys are values, unique as the loader rejects
-- duplicates; `integer` is not negative, and
-- `other` is any further scalar, with Python's answer to `== 1`.
mutual
  pub data Value : Type 0 where
    null : Value
    boolean : Bool → Value
    integer : ℕ → Value
    string : String → Value
    sequence : Value
    mapping : Entries → Value
    other : Bool → Value

  pub data Entries : Type 0 where
    nil : Entries
    entry : Value → Value → Entries → Entries

pub data Mode : Type 0 where
  deny ask session device always : Mode

pub data Source : Type 0 where
  device_capability device_default global_default fallback : Source

pub record Decision : Type 0 where
  pub mode : Mode
  pub source : Source
  pub policy_seq : ℕ

-- The reasons of PolicyValidationError, the errors of reading the file, and the TypeError that
-- joining device identifiers which are not strings raises, or hashing a key of the document.
pub data PolicyError : Type 0 where
  not_a_mapping bad_version unsupported_keys : PolicyError
  modes_not_mapping non_string_capability invalid_capability default_not_permitted : PolicyError
  mode_not_string unsupported_mode : PolicyError
  devices_not_mapping device_not_string : PolicyError
  default_device_not_mapping bad_default_capability unconfigured_capability bad_default_device :
      PolicyError
  unknown_device io_error yaml_error type_error : PolicyError

abbrev pub Modes : Type 0
Modes = List (String × Mode)

pub record PolicyTable : Type 0 where
  pub defaults : Modes
  pub devices : List (String × Modes)
  pub default_devices : List (String × String)
  pub policy_seq : ℕ

-- _CAPABILITY_RE: ^[a-z][a-z0-9_]*\.[a-z][a-z0-9_]*$
abbrev is_lower : ℕ → Bool
is_lower c = leb b'a' c && leb c b'z'

abbrev is_word : ℕ → Bool
is_word c = is_lower c || (leb b'0' c && leb c b'9' || c == b'_')

unfoldable pub all_words : List ℕ → Bool
all_words [] = true
all_words (c ∷ cs) = is_word c && all_words cs

unfoldable pub second_name : List ℕ → Bool
unfolding all_words
second_name [] = false
second_name (c ∷ cs) = is_lower c && all_words cs

unfoldable pub first_rest : List ℕ → Bool
unfolding second_name
first_rest [] = false
first_rest (c ∷ cs) =
    let rest = first_rest cs in if c == b'.' then second_name cs else is_word c && rest

unfoldable pub capability_codes : List ℕ → Bool
unfolding first_rest
capability_codes [] = false
capability_codes (c ∷ cs) = is_lower c && first_rest cs

unfoldable pub matches_capability : String → Bool
unfolding capability_codes
matches_capability s = capability_codes (codes s)

-- data.get(key, {}) and data.get(key)
abbrev pub is_key : String → Value → Bool
is_key key (string s) = str_eq s key
is_key key _ = false

unfoldable pub get_value : String → Entries → Option Value
get_value key nil = none
get_value key (entry k v rest) = if is_key key k then some v else get_value key rest

abbrev pub or_empty : Option Value → Value
or_empty none = mapping nil
or_empty (some v) = v

-- data.get("version") == 1, which Python answers by value: `True` and `1.0` are equal to 1
abbrev pub equals_one : Option Value → Bool
equals_one (some (integer n)) = n == 1
equals_one (some (boolean b)) = b
equals_one (some (other b)) = b
equals_one _ = false

abbrev pub is_top_level : Value → Bool
is_top_level (string s) =
    str_eq s "version" || (str_eq s "defaults" || (str_eq s "devices" || str_eq s "default_device"))
is_top_level _ = false

unfoldable pub all_top_level : Entries → Bool
all_top_level nil = true
all_top_level (entry k v rest) = is_top_level k && all_top_level rest

-- Mode(raw_mode)
unfoldable pub parse_mode : String → Result PolicyError Mode
parse_mode s =
    if str_eq s "deny"
    then ok deny
    else if str_eq s "ask"
    then ok ask
    else if str_eq s "session"
    then ok session
    else if str_eq s "device"
    then ok device
    else if str_eq s "always"
    then ok always
    else err unsupported_mode

abbrev pub raw_mode : Value → Result PolicyError Mode
raw_mode (string s) = parse_mode s
raw_mode _ = err mode_not_string

-- One round of the loop of `_parse_modes`: the tests on the capability.
unfoldable pub check_capability : Bool → Value → Result PolicyError String
check_capability permit_default (string s) =
    if not (str_eq s "default") && not (matches_capability s)
    then err invalid_capability
    else if str_eq s "default" && not permit_default
    then err default_not_permitted
    else ok s
check_capability permit_default _ = err non_string_capability

unfoldable pub parse_entries : Bool → Entries → Result PolicyError Modes
unfolding check_capability
parse_entries permit_default nil = ok []
parse_entries permit_default (entry k v rest) =
    let later = parse_entries permit_default rest in
    check_capability permit_default k >>= λ capability.
    raw_mode v >>= λ mode. later >>= λ modes. ok ((capability, mode) ∷ modes)

unfoldable pub parse_modes : Bool → Value → Result PolicyError Modes
unfolding parse_entries
parse_modes permit_default (mapping es) = parse_entries permit_default es
parse_modes permit_default _ = err modes_not_mapping

abbrev pub device_key : Value → Result PolicyError String
device_key (string s) = ok s
device_key _ = err device_not_string

unfoldable pub parse_devices : Entries → Result PolicyError (List (String × Modes))
unfolding parse_modes
parse_devices nil = ok []
parse_devices (entry k v rest) =
    let later = parse_devices rest in
    device_key k >>= λ device_id.
    parse_modes true v >>= λ modes. later >>= λ devices. ok ((device_id, modes) ∷ devices)
