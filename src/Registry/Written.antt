-- ===== src/Registry/Written.antt =====
-- `Registry.register`: the fields of the device's row and of its capabilities after it.
use hermes_device_protocol.Wire.{Fields}
use hermes_device_protocol.Prelude.Sql.{delete, fetchone, fetchone_holds, on_row}
use hermes_device_protocol.Prelude.Result.{bind_ok, ok, ok_injective}
use hermes_device_protocol.Prelude.{
  List, Option, String, [], ap, arith, eq_iff, if◌then◌else◌, none, refl, some, str_eq, suc, true,
  zero, ℕ, ◌++◌, ◌==◌, ◌∙◌, ◌∷◌, ◌≡◌, ◌≢◌,
}
use hermes_device_protocol.Store.{Capability, Device, RegistryDb, secondary}
use hermes_device_protocol.Registry.{has_device_id}
use hermes_device_protocol.Registry.Register.{
  CapabilityRecord, DeviceRecord, capability_row, capability_rows, excluded, new_device, or_now,
  register,
}
use hermes_device_protocol.Registry.Registered.{register_rows, upserted_other}

-- `a or b` on numbers, by the test that it makes.
or_now_lem : (n now_ms : ℕ) → or_now n now_ms ≡ (if n == 0 then now_ms else n)
or_now_lem zero now_ms = refl
or_now_lem (suc n) now_ms = ground arith

-- The fields that a registration takes from the record.
abbrev pub IsWritten : DeviceRecord → ℕ → Device → Type 0
IsWritten r now_ms d =
    (d.device_id ≡ r.device_id)
    × (d.friendly_name ≡ r.friendly_name)
    × (d.platform ≡ r.platform)
    × (d.client_version ≡ r.client_version)
    × (d.state ≡ r.state)
    × (d.last_seen_at ≡ (if r.last_seen_at == 0 then now_ms else r.last_seen_at))

-- What a later registration leaves of the row.
abbrev pub IsKept : Device → Device → Type 0
IsKept old d =
    (d.device_pubkey ≡ old.device_pubkey)
    × (d.role ≡ old.role)
    × (d.first_paired_at ≡ old.first_paired_at)

-- What a first registration sets besides.
abbrev pub IsInitial : DeviceRecord → ℕ → Device → Type 0
IsInitial r now_ms d =
    (d.device_pubkey ≡ "")
    × (d.role ≡ secondary)
    × (d.first_paired_at ≡ (if r.first_paired_at == 0 then now_ms else r.first_paired_at))

-- The rows are those of the capabilities, one for each, in their order.
abbrev pub AreRowsOf :
    (Fields → Option String) → String → ℕ → List CapabilityRecord → List Capability → Type 0
AreRowsOf dumps d now_ms [] [] = Unit {0}
AreRowsOf dumps d now_ms [] (row ∷ rows) = ⊥
AreRowsOf dumps d now_ms (c ∷ cs) [] = ⊥
AreRowsOf dumps d now_ms (c ∷ cs) (row ∷ rows) =
    (row.device_id ≡ d)
    × (row.name ≡ c.name)
    × (row.version ≡ c.version)
    × (dumps c.input_schema ≡ some row.input_schema)
    × (dumps c.output_schema ≡ some row.output_schema)
    × (row.advertised_at ≡ now_ms)
    × AreRowsOf dumps d now_ms cs rows

-- One row of AreRowsOf, for the texts that its schemas are dumped to.
abbrev IsRowOf : String → ℕ → CapabilityRecord → Option String → Option String → Capability → Type 0
IsRowOf d now_ms c input output row =
    (row.device_id ≡ d)
    × (row.name ≡ c.name)
    × (row.version ≡ c.version)
    × (input ≡ some row.input_schema)
    × (output ≡ some row.output_schema)
    × (row.advertised_at ≡ now_ms)

capability_row-IsRowOf :
    (dumps : Fields → Option String) (d : String) (now_ms : ℕ) (c : CapabilityRecord)
    (row : Capability) (input output : Option String)
    → dumps c.input_schema ≡ input
    → dumps c.output_schema ≡ output
    → capability_row dumps d now_ms c ≡ ok row
    → IsRowOf d now_ms c input output row
capability_row-IsRowOf dumps d now_ms c row none output i o h = absurd (ground arith)
capability_row-IsRowOf dumps d now_ms c row (some input) none i o h = absurd (ground arith)
capability_row-IsRowOf dumps d now_ms c row (some input) (some output) i o h = ground arith

capability_rows-AreRowsOf :
    (dumps : Fields → Option String) (d : String) (now_ms : ℕ) (cs : List CapabilityRecord)
    (rows : List Capability)
    → capability_rows dumps d now_ms cs ≡ ok rows
    → AreRowsOf dumps d now_ms cs rows
unfolding capability_rows
capability_rows-AreRowsOf dumps d now_ms [] rows h = rw (← ok_injective h) tt
capability_rows-AreRowsOf dumps d now_ms (c ∷ cs) rows h =
    let (row, one, h1) = bind_ok (capability_row dumps d now_ms c) _ h in
    let (later, rest, h2) = bind_ok (capability_rows dumps d now_ms cs) _ h1 in
    let (device, name, version, input, output, time) =
      capability_row-IsRowOf dumps d now_ms c row (dumps c.input_schema) (dumps c.output_schema)
        refl refl one in
    rw (← ok_injective h2) (
      device,
      name,
      version,
      input,
      output,
      time,
      capability_rows-AreRowsOf dumps d now_ms cs later rest,
    )

-- A registration that returns has written the device's row from the record: a row that was there
-- keeps its enrolled key, its role and its first pairing, and a new one has no key, is secondary, and
-- was first paired at the record's time or else now. Other devices' rows are as they were. It has
-- replaced the capabilities of the device by those of the record, in their order, with their schemas
-- dumped; those of other devices stand.
pub register_writes :
    (dumps : Fields → Option String) (r : DeviceRecord) (now_ms : ℕ) (db : RegistryDb)
    → (register dumps r now_ms db).0 ≡ ok tt
    → let after = (register dumps r now_ms db).1 in
      ((d : Device) × (fetchone (has_device_id r.device_id) after.devices ≡ some d)
        × IsWritten r now_ms d
        × ((old : Device)
            → fetchone (has_device_id r.device_id) db.devices ≡ some old
            → IsKept old d)
        × (fetchone (has_device_id r.device_id) db.devices ≡ none → IsInitial r now_ms d))
      × ((k : String)
          → k ≢ r.device_id
          → fetchone (has_device_id k) after.devices ≡ fetchone (has_device_id k) db.devices)
      × ((caps : List Capability) × AreRowsOf dumps r.device_id now_ms r.capabilities caps
          × (after.capabilities
              ≡ delete (λ (c : Capability). str_eq c.device_id r.device_id) db.capabilities
                ++ caps))
register_writes dumps r now_ms db h =
    let (caps, rows, replaced, found, devices) = register_rows dumps r now_ms db h in
    (
      (
        on_row (fetchone (has_device_id r.device_id) db.devices) (new_device r now_ms)
            (excluded r now_ms),
        found,
        written_row (fetchone (has_device_id r.device_id) db.devices)
            (fetchone_holds (has_device_id r.device_id) db.devices),
        λ old e. rw e (refl, refl, refl),
        λ e. rw e (refl, refl, or_now_lem r.first_paired_at now_ms),
      ),
      λ k other. ap (fetchone (has_device_id k)) devices ∙ upserted_other dumps r now_ms db k other,
      (caps, capability_rows-AreRowsOf dumps r.device_id now_ms r.capabilities caps rows, replaced),
    )
  where
    written_row :
        (found : Option Device)
        → ((d : Device) → found ≡ some d → has_device_id r.device_id d ≡ true)
        → IsWritten r now_ms (on_row found (new_device r now_ms) (excluded r now_ms))
    written_row none holds = (refl, refl, refl, refl, refl, or_now_lem r.last_seen_at now_ms)
    written_row (some d) holds = (
      (eq_iff d.device_id r.device_id).0 (holds d refl),
      refl,
      refl,
      refl,
      refl,
      or_now_lem r.last_seen_at now_ms,
    )
