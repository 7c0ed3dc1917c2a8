-- ===== src/Registry/Register.antt =====
-- hdp-bridge/hdp_bridge/registry.py, `Registry.register`, with the two records of types.py that it
-- takes. The device row is inserted or updated, and the device's capabilities are replaced.
use hermes_device_protocol.Wire.{Fields}
use hermes_device_protocol.Prelude.Int.{negsuc, pos, ℤ}
use hermes_device_protocol.Prelude.Transaction.{Tx, transaction, with_value}
use hermes_device_protocol.Prelude.Result.{Result, err, ok, ◌>>=◌}
use hermes_device_protocol.Prelude.Sql.{fetchone, update}
use hermes_device_protocol.Prelude.{
  Bool, List, Option, String, [], false, if◌then◌else◌, is_some, ltb, none, not, some, str_eq, suc,
  zero, ℕ, ◌&&◌, ◌++◌, ◌==◌, ◌^◌, ◌∷◌,
}
use hermes_device_protocol.Store.{Capability, Device, DeviceState, RegistryDb, secondary}
use hermes_device_protocol.Registry.{
  RegistryError, delete_capabilities, has_device_id, integrity_error, overflow_error, put_devices,
  value_error,
}

pub record CapabilityRecord : Type 0 where
  pub name : String
  pub version : ℤ
  pub input_schema : Fields
  pub output_schema : Fields

pub record DeviceRecord : Type 0 where
  pub device_id : String
  pub friendly_name : String
  pub platform : String
  pub online : Bool
  pub client_version : String
  pub state : DeviceState
  pub first_paired_at : ℕ
  pub last_seen_at : ℕ
  pub capabilities : List CapabilityRecord

-- `a or b` on numbers
abbrev pub or_now : ℕ → ℕ → ℕ
or_now zero now_ms = now_ms
or_now (suc n) now_ms = suc n

-- An integer that SQLite stores: 64 bits, signed.
abbrev pub is_sqlite_int : ℤ → Bool
is_sqlite_int (pos n) = ltb n (2 ^ 63)
is_sqlite_int (negsuc n) = ltb n (2 ^ 63)

-- `json.dumps(schema, allow_nan=False)`, whose `none` is ValueError
module _ (dumps : Fields → Option String) where
  abbrev pub dumped : Option String → Result RegistryError String
  dumped none = err value_error
  dumped (some text) = ok text

  abbrev pub capability_row : String → ℕ → CapabilityRecord → Result RegistryError Capability
  capability_row d now_ms c = dumped (dumps c.input_schema) >>= λ input_schema.
      dumped (dumps c.output_schema) >>= λ output_schema. ok (record {
        device_id = d;
        name = c.name;
        version = c.version;
        input_schema = input_schema;
        output_schema = output_schema;
        advertised_at = now_ms;
      })

  unfoldable pub capability_rows :
      String → ℕ → List CapabilityRecord → Result RegistryError (List Capability)
  capability_rows d now_ms [] = ok []
  capability_rows d now_ms (c ∷ cs) =
      let later = capability_rows d now_ms cs in
      capability_row d now_ms c >>= λ row. later >>= λ rows. ok (row ∷ rows)

-- The row that INSERT adds, and what ON CONFLICT(device_id) sets of the row that is there.
abbrev pub new_device : DeviceRecord → ℕ → Device
new_device r now_ms = record {
  device_id = r.device_id;
  friendly_name = r.friendly_name;
  platform = r.platform;
  client_version = r.client_version;
  first_paired_at = or_now r.first_paired_at now_ms;
  last_seen_at = or_now r.last_seen_at now_ms;
  state = r.state;
  device_pubkey = "";
  role = secondary;
}

abbrev pub excluded : DeviceRecord → ℕ → Device → Device
excluded r now_ms d = record d {
  friendly_name = r.friendly_name;
  platform = r.platform;
  client_version = r.client_version;
  last_seen_at = or_now r.last_seen_at now_ms;
  state = r.state;
}

unfoldable pub upsert_device : DeviceRecord → ℕ → List Device → List Device
upsert_device r now_ms rows =
    if is_some (fetchone (has_device_id r.device_id) rows)
    then update (has_device_id r.device_id) (excluded r now_ms) rows
    else rows ++ (new_device r now_ms ∷ [])

abbrev pub same_int : ℤ → ℤ → Bool
same_int (pos m) (pos n) = m == n
same_int (negsuc m) (negsuc n) = m == n
same_int _ _ = false

-- PRIMARY KEY (device_id, name, version)
abbrev pub same_capability : Capability → Capability → Bool
same_capability c r =
    str_eq r.device_id c.device_id && (str_eq r.name c.name && same_int r.version c.version)

unfoldable pub insert_capabilities :
    List Capability → List Capability → Result RegistryError (List Capability)
insert_capabilities [] rows = ok rows
insert_capabilities (c ∷ cs) rows =
    let later = insert_capabilities cs (rows ++ (c ∷ [])) in
    if not (is_sqlite_int c.version)
    then err overflow_error
    else if is_some (fetchone (same_capability c) rows)
    then err integrity_error
    else later

abbrev pub put_capabilities : RegistryDb → List Capability → RegistryDb
put_capabilities db rows = record db { capabilities = rows }

abbrev pub with_capabilities :
    RegistryDb
    → Result RegistryError (List Capability)
    → Result RegistryError (Unit {0}) × RegistryDb
with_capabilities db (ok rows) = (ok tt, put_capabilities db rows)
with_capabilities db (err e) = (err e, db)

unfoldable pub register_body :
    DeviceRecord → ℕ → List Capability → Tx RegistryDb RegistryError (Unit {0})
unfolding upsert_device insert_capabilities
register_body r now_ms caps db =
    let cleared =
      delete_capabilities r.device_id (put_devices db (upsert_device r now_ms db.devices)) in
    with_capabilities cleared (insert_capabilities caps cleared.capabilities)

-- BEGIN IMMEDIATE ... commit, or rollback where a statement raises
unfoldable pub register :
    (Fields → Option String) → DeviceRecord → ℕ → Tx RegistryDb RegistryError (Unit {0})
unfolding capability_rows register_body
register dumps r now_ms =
    with_value (capability_rows dumps r.device_id now_ms r.capabilities)
      λ caps. transaction (register_body r now_ms caps)
