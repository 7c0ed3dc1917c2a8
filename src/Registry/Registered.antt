-- ===== src/Registry/Registered.antt =====
-- `Registry.register`: what is in the tables after it.
use mathlib.Core.List.{append-nil, append_assoc}
use hermes_device_protocol.Wire.{Fields}
use hermes_device_protocol.Registry.Register.{
  DeviceRecord, capability_rows, excluded, insert_capabilities, is_sqlite_int, new_device,
  put_capabilities, register, register_body, same_capability, upsert_device, with_capabilities,
}
use hermes_device_protocol.Registry.{
  RegistryError, delete_capabilities, has_device_id, integrity_error, overflow_error, put_devices,
}
use hermes_device_protocol.Store.{Capability, Device, RegistryDb}
use hermes_device_protocol.Prelude.Sql.{
  delete, fetchone, fetchone-append, fetchone-update, fetchone_holds, on_row,
}
use hermes_device_protocol.Prelude.Transaction.{
  commit_or_rollback, transaction, transaction_atomic, with_value, with_value_atomic,
}
use hermes_device_protocol.Prelude.Result.{Result, err, ok, ok_injective}
use hermes_device_protocol.Prelude.{
  Bool, Bool-cases, List, Option, Option-cases, String, [], ap, arith, eq_iff, eq_refl, false,
  if◌then◌else◌, inl, inr, is_some, none, not, refl, some, str_eq, sym, true, ℕ, ◌++◌, ◌∙◌, ◌∷◌,
  ◌≡◌, ◌≢◌,
}

module _ (dumps : Fields → Option String) (r : DeviceRecord) (now_ms : ℕ) (db : RegistryDb) where
  -- The row of the device after a registration.
  abbrev pub registered_row : Device
  registered_row =
      on_row (fetchone (has_device_id r.device_id) db.devices) (new_device r now_ms)
        (excluded r now_ms)

  abbrev kept_capabilities : List Capability
  kept_capabilities = delete (λ (c : Capability). str_eq c.device_id r.device_id) db.capabilities

  abbrev cleared : RegistryDb
  cleared = delete_capabilities r.device_id (put_devices db (upsert_device r now_ms db.devices))

  -- What a registration with these rows of capabilities has written.
  abbrev pub written : List Capability → RegistryDb
  written caps = put_capabilities cleared (kept_capabilities ++ caps)

  insert-append :
      (cs rows out : List Capability) → insert_capabilities cs rows ≡ ok out → out ≡ rows ++ cs
  unfolding insert_capabilities
  insert-append [] rows out h = sym (ok_injective h) ∙ sym (append-nil rows)
  insert-append (c ∷ cs) rows out h =
      insert-append cs (rows ++ (c ∷ [])) out
        (reached (not (is_sqlite_int c.version)) (is_some (fetchone (same_capability c) rows)) h)
      ∙ append_assoc rows (c ∷ []) cs
    where
      reached :
          (a b : Bool) {later : Result RegistryError (List Capability)}
          → (if a then err overflow_error else if b then err integrity_error else later) ≡ ok out
          → later ≡ ok out
      reached true b h = absurd (ground arith)
      reached false true h = absurd (ground arith)
      reached false false h = h

  inserted :
      (caps : List Capability) (i : Result RegistryError (List Capability))
      → insert_capabilities caps kept_capabilities ≡ i
      → (commit_or_rollback db (with_capabilities cleared i)).0 ≡ ok tt
      → (commit_or_rollback db (with_capabilities cleared i)).1 ≡ written caps
  inserted caps (ok rows) e h =
      ap (put_capabilities cleared) (insert-append caps kept_capabilities rows e)
  inserted caps (err why) e h = absurd (ground arith)

  register_ok :
      (c : Result RegistryError (List Capability))
      → (with_value c (λ caps. transaction (register_body r now_ms caps)) db).0 ≡ ok tt
      → (caps : List Capability) × (c ≡ ok caps)
        × ((with_value c (λ caps. transaction (register_body r now_ms caps)) db).1 ≡ written caps)
  unfolding register_body
  register_ok (ok caps) h =
      (caps, refl, inserted caps (insert_capabilities caps kept_capabilities) refl h)
  register_ok (err why) h = absurd (ground arith)

  upserted :
      fetchone (has_device_id r.device_id) (upsert_device r now_ms db.devices) ≡ some registered_row
  unfolding upsert_device
  upserted = elim (Option-cases (fetchone (has_device_id r.device_id) db.devices)) [
    | inl e ↦
        rw
          (
            e,
            fetchone-append (has_device_id r.device_id) db.devices (new_device r now_ms ∷ []),
            e,
            eq_refl r.device_id,
          )
          refl
    | inr (d, e) ↦
        let p = has_device_id r.device_id in
        rw
          (
            e,
            fetchone-update p p (excluded r now_ms) db.devices (λ d. refl),
            e,
            fetchone_holds p db.devices d e,
          )
          refl
  ]

  -- What a registration that returns has written, in terms of the rows that it makes.
  pub register_rows :
      (register dumps r now_ms db).0 ≡ ok tt
      → (caps : List Capability) × (capability_rows dumps r.device_id now_ms r.capabilities
          ≡ ok caps)
        × ((register dumps r now_ms db).1.capabilities ≡ kept_capabilities ++ caps)
        × (fetchone (has_device_id r.device_id) (register dumps r now_ms db).1.devices
            ≡ some registered_row)
        × ((register dumps r now_ms db).1.devices ≡ upsert_device r now_ms db.devices)
  unfolding register
  register_rows h =
      let (caps, e, same) =
        register_ok (capability_rows dumps r.device_id now_ms r.capabilities) h in
      (
        caps,
        e,
        ap (λ (w : RegistryDb). w.capabilities) same,
        ap (λ (w : RegistryDb). fetchone (has_device_id r.device_id) w.devices) same ∙ upserted,
        ap (λ (w : RegistryDb). w.devices) same,
      )

  pub upserted_other :
      (k : String)
      → k ≢ r.device_id
      → fetchone (has_device_id k) (upsert_device r now_ms db.devices)
        ≡ fetchone (has_device_id k) db.devices
  unfolding upsert_device
  upserted_other k other =
      let unlike : str_eq r.device_id k ≡ false = ground (arith, eq_iff r.device_id k) in
      elim (Bool-cases (is_some (fetchone (has_device_id r.device_id) db.devices))) [
        | inl e ↦
            let p = has_device_id k in
            rw
              (
                e,
                fetchone-update p (has_device_id r.device_id) (excluded r now_ms) db.devices
                    (λ d. refl),
              )
              (on_old (fetchone p db.devices) (fetchone_holds p db.devices))
        | inr e ↦ rw e (
            fetchone-append (has_device_id k) db.devices (new_device r now_ms ∷ [])
            ∙ ground (arith, unlike))
      ]
    where
      on_old :
          (found : Option Device)
          → ((d : Device) → found ≡ some d → has_device_id k d ≡ true)
          → on_row found none
              (λ d. some (if has_device_id r.device_id d then excluded r now_ms d else d))
            ≡ found
      on_old none holds = refl
      on_old (some d) holds =
          ground (arith, holds d refl, eq_iff d.device_id k, eq_iff d.device_id r.device_id)

  -- A registration that raises has written nothing.
  pub register_atomic :
      (e : RegistryError)
      → (register dumps r now_ms db).0 ≡ err e
      → (register dumps r now_ms db).1 ≡ db
  unfolding register
  register_atomic e h =
      with_value_atomic (capability_rows dumps r.device_id now_ms r.capabilities)
        (λ caps. transaction (register_body r now_ms caps)) db e
        (λ caps. transaction_atomic (register_body r now_ms caps) db e) h
