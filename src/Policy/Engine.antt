-- ===== src/Policy/Engine.antt =====
-- hdp-bridge/hdp_bridge/policy.py: `PolicyEngine`, whose `reload` replaces the table only by one
-- that was validated. The lock around the replacement is not modelled: a reload is one step.
use hermes_device_protocol.Prelude.Strings.{contains}
use hermes_device_protocol.Policy.Document.{from_data}
use hermes_device_protocol.Policy.{
  Entries, PolicyError, PolicyTable, Value, entry, get_value, io_error, mapping, nil, null,
  or_empty, string, type_error, unknown_device, yaml_error,
}
use hermes_device_protocol.Store.{Text}
use hermes_device_protocol.Prelude.Result.{Result, err, ok, ◌>>=◌}
use hermes_device_protocol.Prelude.{
  Bool, List, Option, String, [], false, if◌then◌else◌, none, not, some, true, ℕ, ◌&&◌, ◌++◌, ◌+◌,
  ◌==◌, ◌∷◌,
}

-- (st_mtime_ns, st_size, st_ino)
pub record FileToken : Type 0 where
  pub mtime_ns : ℕ
  pub size : ℕ
  pub inode : ℕ

abbrev pub same_token : FileToken → Option FileToken → Bool
same_token a none = false
same_token a (some b) = a.mtime_ns == b.mtime_ns && (a.size == b.size && a.inode == b.inode)

-- The `policy_changed` record; the digest and the time of the file are left out.
pub record PolicyChanged : Type 0 where
  pub accepted : Bool
  pub policy_seq : ℕ
  pub reason : Option PolicyError

pub record PolicyEngine : Type 0 where
  pub table : PolicyTable
  pub file_token : Option FileToken
  pub audit : List PolicyChanged

abbrev pub empty_table : PolicyTable
empty_table = record { defaults = []; devices = []; default_devices = []; policy_seq = 0 }

abbrev pub new_engine : PolicyEngine
new_engine = record { table = empty_table; file_token = none; audit = [] }

-- The names in `devices` that are not known. One that is no string makes `sorted` or `join` fail.
unfoldable pub check_device_keys : List String → Entries → Result PolicyError (Unit {0})
unfolding contains
check_device_keys known nil = ok tt
check_device_keys known (entry (string s) v rest) =
    let later = check_device_keys known rest in
    if contains s known
    then later
    else elim later [ err type_error ↦ err type_error | _ ↦ err unknown_device ]
check_device_keys known (entry k v rest) = err type_error

abbrev pub target_known : List String → Value → Bool
target_known known (string s) = contains s known
target_known known _ = true

unfoldable pub check_targets : List String → Entries → Result PolicyError (Unit {0})
unfolding contains
check_targets known nil = ok tt
check_targets known (entry k v rest) =
    let later = check_targets known rest in
    if target_known known v then later else err unknown_device

abbrev pub known_targets : List String → Value → Result PolicyError (Unit {0})
known_targets known (mapping es) = check_targets known es
known_targets known _ = ok tt

abbrev pub known_keys : List String → Value → Value → Result PolicyError (Unit {0})
known_keys known (mapping es) targets = elim (check_device_keys known es) [
  | err type_error ↦ err type_error
  | err _ ↦ err unknown_device
  | ok _ ↦ known_targets known targets
]
known_keys known _ targets = ok tt

unfoldable pub validate_known_devices : List String → Value → Result PolicyError (Unit {0})
unfolding check_device_keys check_targets
validate_known_devices known (mapping es) =
    known_keys known (or_empty (get_value "devices" es)) (or_empty (get_value "default_device" es))
validate_known_devices known _ = ok tt

abbrev pub loaded : Value → Value
loaded null = mapping nil
loaded v = v

-- What the YAML loader raises: an error that `reload` records (a YAMLError, a duplicate key, a
-- ValueError of a scalar), or the TypeError of a mapping key that cannot be hashed.
pub data LoadError : Type 0 where
  invalid_yaml unhashable_key : LoadError

abbrev pub raised : LoadError → PolicyError
raised invalid_yaml = yaml_error
raised unhashable_key = type_error

abbrev pub loaded_or_raised : Result LoadError Value → Result PolicyError Value
loaded_or_raised (err e) = err (raised e)
loaded_or_raised (ok v) = ok (loaded v)

module _ (yaml_load : Text → Result LoadError Value) where
  -- `_load_yaml`; the loader is PyYAML's, with the constructor of mappings that refuses duplicates.
  abbrev pub load_yaml : Text → Result PolicyError Value
  load_yaml contents = loaded_or_raised (yaml_load contents)

  unfoldable pub read_table : Option (List String) → Text → ℕ → Result PolicyError PolicyTable
  unfolding validate_known_devices from_data
  read_table known contents policy_seq = load_yaml contents >>= λ v.
      elim known [ none ↦ ok tt | some ids ↦ validate_known_devices ids v ] >>= λ _.
      from_data v policy_seq

abbrev pub escapes : PolicyError → Bool
escapes type_error = true
escapes _ = false

abbrev pub rejected : PolicyError → PolicyEngine → Result PolicyError Bool × PolicyEngine
rejected e engine = if escapes e then (err e, engine) else (
  ok false,
  record engine {
    audit =
        engine.audit
        ++ (record { accepted = false; policy_seq = engine.table.policy_seq; reason = some e }
            ∷ []);
  },
)

abbrev pub accepted_table :
    Bool → FileToken → PolicyTable → PolicyEngine → Result PolicyError Bool × PolicyEngine
accepted_table initial token table engine = (
  ok true,
  record {
    table = table;
    file_token = some token;
    audit =
        if initial
        then engine.audit
        else engine.audit
          ++ (record { accepted = true; policy_seq = table.policy_seq; reason = none } ∷ []);
  },
)

-- The file at the policy's path: its token and its contents, or `none` where it cannot be read.
abbrev pub PolicyFile : Type 0
PolicyFile = Option (FileToken × Text)

abbrev pub installed :
    Bool
    → FileToken
    → Result PolicyError PolicyTable
    → PolicyEngine
    → Result PolicyError Bool × PolicyEngine
installed initial token (err e) engine = rejected e engine
installed initial token (ok table) engine = accepted_table initial token table engine

module _ (yaml_load : Text → Result LoadError Value) where
  -- The result, with the exception that escapes, and the engine.
  unfoldable pub reload :
      Bool
      → Bool
      → Option (List String)
      → PolicyFile
      → PolicyEngine
      → Result PolicyError Bool × PolicyEngine
  unfolding read_table
  reload force initial known none engine = rejected io_error engine
  reload force initial known (some (token, contents)) engine =
      if not force && same_token token engine.file_token
      then (ok false, engine)
      else installed initial token
          (read_table yaml_load known contents (engine.table.policy_seq + 1)) engine
