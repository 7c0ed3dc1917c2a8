-- ===== src/Wire.antt =====
-- hdp-spec/hdp_proto: the JSON values that frames carry, and the readers of one field of
-- hdp-spec/hdp_proto/messages.py. An object is its entries in order, as a Python `dict` keeps them;
-- a float is only known by its text, since the code reads nothing of it but its type.
pub mod Capability
pub mod Messages
pub mod Envelope
pub mod Errors
pub mod Validate
pub mod Roundtrip
pub mod Tolerance
pub mod Termination
mod Tests
use hermes_device_protocol.Prelude.{Bool, Option, String, if◌then◌else◌, none, some, str_eq}
use hermes_device_protocol.Prelude.Int.{ℤ}
use hermes_device_protocol.Prelude.Result.{Result, err, ok}

mutual
  pub data Json : Type 0 where
    null : Json
    boolean : Bool → Json
    integer : ℤ → Json
    real : String → Json
    string : String → Json
    array : Items → Json
    object : Fields → Json

  pub data Items : Type 0 where
    end : Items
    item : Json → Items → Items

  pub data Fields : Type 0 where
    empty : Fields
    field : String → Json → Fields → Fields

-- `ValueError`, by the field that is at fault
pub data WireError : Type 0 where
  invalid : String → WireError

-- d.get(key)
unfoldable pub get : String → Fields → Option Json
get key empty = none
get key (field k v rest) = if str_eq k key then some v else get key rest

-- The value that `d.get(key)` returns, None where the key is missing.
abbrev pub or_null : Option Json → Json
or_null none = null
or_null (some v) = v

abbrev pub as_str : String → Json → Result WireError String
as_str key (string s) = ok s
as_str key _ = err (invalid key)

abbrev pub as_str_or_none : String → Json → Result WireError (Option String)
as_str_or_none key null = ok none
as_str_or_none key (string s) = ok (some s)
as_str_or_none key _ = err (invalid key)

abbrev pub as_dict : String → Json → Result WireError Fields
as_dict key (object d) = ok d
as_dict key _ = err (invalid key)

-- isinstance(value, int) and not isinstance(value, bool)
abbrev pub as_int : String → Json → Result WireError ℤ
as_int key (integer n) = ok n
as_int key _ = err (invalid key)

-- `_require_str` and the others
unfoldable pub require_str : Fields → String → Result WireError String
unfolding get
require_str d key = as_str key (or_null (get key d))

unfoldable pub require_str_or_none : Fields → String → Result WireError (Option String)
unfolding get
require_str_or_none d key = as_str_or_none key (or_null (get key d))

unfoldable pub require_dict : Fields → String → Result WireError Fields
unfolding get
require_dict d key = as_dict key (or_null (get key d))

unfoldable pub require_int : Fields → String → Result WireError ℤ
unfolding get
require_int d key = as_int key (or_null (get key d))

-- A text or None, as JSON.
abbrev pub opt_str : Option String → Json
opt_str none = null
opt_str (some s) = string s

abbrev pub opt_dict : Option Fields → Json
opt_dict none = null
opt_dict (some d) = object d
