-- ===== src/Policy/Reload.antt =====
-- Reloading the policy: a table that was in force stays in force unless a validated one replaces it.
use mathlib.Core.Path.{subst}
use hermes_device_protocol.Policy.Valid.{IsValid, from_data-IsValid}
use hermes_device_protocol.Policy.Engine.{
  FileToken, LoadError, PolicyEngine, PolicyFile, check_device_keys, installed, load_yaml,
  read_table, rejected, reload, same_token, unhashable_key, validate_known_devices,
}
use hermes_device_protocol.Policy.{
  Entries, PolicyError, PolicyTable, Value, entry, get_value, io_error, mapping, nil, string,
  type_error,
}
use hermes_device_protocol.Store.{Text}
use hermes_device_protocol.Prelude.Result.{Result, bind_ok, err, ok}
use hermes_device_protocol.Prelude.{
  Bool, Bool-cases, List, Option, String, [], arith, false, inl, inr, none, not, refl, some, sym,
  true, ℕ, ◌&&◌, ◌+◌, ◌∷◌, ◌≡◌, ◌≢◌, ◌≤◌,
}

-- One call of `reload`, with what the disk and the registry hold at that moment.
pub record Attempt : Type 0 where
  pub force : Bool
  pub initial : Bool
  pub known : Option (List String)
  pub file : PolicyFile

-- What one reload may do to the engine.
pub data IsReloaded (before : PolicyEngine) (r : Result PolicyError Bool) (after : PolicyEngine)
    : Type 0 where
  replaced :
      IsValid after.table
      → after.table.policy_seq ≡ before.table.policy_seq + 1
      → r ≡ ok true
      → IsReloaded before r after
  retained :
      after.table ≡ before.table
      → after.file_token ≡ before.file_token
      → r ≢ ok true
      → IsReloaded before r after

module _ (yaml_load : Text → Result LoadError Value) where
  unfoldable pub reloads : List Attempt → PolicyEngine → PolicyEngine
  unfolding reload
  reloads [] engine = engine
  reloads (a ∷ rest) engine =
      reloads rest (reload yaml_load a.force a.initial a.known a.file engine).1

  rejected-IsReloaded :
      (e : PolicyError) (engine : PolicyEngine)
      → IsReloaded engine (rejected e engine).0 (rejected e engine).1
  rejected-IsReloaded e engine = retained (ground arith) (ground arith) (ground arith)

  read_table-IsValid :
      (known : Option (List String)) (contents : Text) (policy_seq : ℕ) (t : PolicyTable)
      → read_table yaml_load known contents policy_seq ≡ ok t
      → IsValid t × (t.policy_seq ≡ policy_seq)
  unfolding read_table
  read_table-IsValid known contents policy_seq t h =
      let (v, _, h1) = bind_ok (load_yaml yaml_load contents) _ h in
      let (_, _, h2) =
        bind_ok (elim known [ none ↦ ok tt | some ids ↦ validate_known_devices ids v ]) _ h1 in
      from_data-IsValid v policy_seq t h2

  -- One reload, whatever is on disk, either replaces the table by a validated one with the next
  -- sequence number and returns True, or leaves table and file token as they were and does not.
  pub reload-IsReloaded :
      (force initial : Bool) (known : Option (List String)) (file : PolicyFile)
      (engine : PolicyEngine)
      → IsReloaded engine
          (reload yaml_load force initial known file engine).0
          (reload yaml_load force initial known file engine).1
  unfolding reload
  reload-IsReloaded force initial known none engine = rejected-IsReloaded io_error engine
  reload-IsReloaded force initial known (some (token, contents)) engine =
      elim (Bool-cases (not force && same_token token engine.file_token)) [
        | inl same ↦ rw same (retained refl refl (λ e. cc))
        | inr changed ↦ rw changed (
            on_read (read_table yaml_load known contents (engine.table.policy_seq + 1))
              (λ t. read_table-IsValid known contents (engine.table.policy_seq + 1) t))
      ]
    where
      on_read :
          (r : Result PolicyError PolicyTable)
          → ((t : PolicyTable)
              → r ≡ ok t
              → IsValid t × (t.policy_seq ≡ engine.table.policy_seq + 1))
          → IsReloaded engine
              (installed initial token r engine).0
              (installed initial token r engine).1
      on_read (err e) good = rejected-IsReloaded e engine
      on_read (ok table) good = replaced (good table refl).0 (good table refl).1 refl

  -- Through any sequence of reloads the table in force is valid, and its sequence number never falls.
  pub reloads-IsValid :
      (attempts : List Attempt) (engine : PolicyEngine)
      → IsValid engine.table
      → IsValid (reloads attempts engine).table
        × (engine.table.policy_seq ≤ (reloads attempts engine).table.policy_seq)
  unfolding reloads
  reloads-IsValid [] engine valid = (valid, omega arith)
  reloads-IsValid (a ∷ rest) engine valid =
      let next = (reload yaml_load a.force a.initial a.known a.file engine).1 in
      let (kept, grown) =
        one_reload (reload-IsReloaded a.force a.initial a.known a.file engine) valid in
      let (later, more) = reloads-IsValid rest next kept in (later, omega arith)
    where
      one_reload :
          {r : Result PolicyError Bool} {before after : PolicyEngine}
          → IsReloaded before r after
          → IsValid before.table
          → IsValid after.table × (before.table.policy_seq ≤ after.table.policy_seq)
      one_reload (replaced fresh next _) valid = (fresh, omega arith)
      one_reload (retained same _ _) valid = (subst IsValid (sym same) valid, rw same (omega arith))

abbrev pub has_other_key : Entries → Bool
has_other_key nil = false
has_other_key (entry (string s) v rest) = has_other_key rest
has_other_key (entry k v rest) = true

check_device_keys_other :
    (known : List String) (es : Entries)
    → has_other_key es ≡ true
    → check_device_keys known es ≡ err type_error
unfolding check_device_keys
check_device_keys_other known nil h = absurd (ground arith)
check_device_keys_other known (entry (string s) v rest) h =
    ground (arith, check_device_keys_other known rest h)
check_device_keys_other known (entry _ v rest) h = refl

-- A document with a mapping key that cannot be hashed makes a reload raise TypeError and touch
-- nothing.
unhashable_key_escapes :
    (yaml_load : Text → Result LoadError Value) (initial : Bool) (known : Option (List String))
    (token : FileToken) (contents : Text) (engine : PolicyEngine)
    → yaml_load contents ≡ err unhashable_key
    → reload yaml_load true initial known (some (token, contents)) engine ≡ (err type_error, engine)
unfolding reload read_table
unhashable_key_escapes yaml_load initial known token contents engine raises = rw raises refl

-- Where the registry names the known devices and a document maps `devices` with some key that is not
-- a string, a reload raises TypeError and touches nothing: no rejection is recorded.
pub reload_key_escapes :
    (yaml_load : Text → Result LoadError Value) (initial : Bool) (known : List String)
    (token : FileToken) (contents : Text) (es devices : Entries) (engine : PolicyEngine)
    → yaml_load contents ≡ ok (mapping es)
    → get_value "devices" es ≡ some (mapping devices)
    → has_other_key devices ≡ true
    → reload yaml_load true initial (some known) (some (token, contents)) engine
      ≡ (err type_error, engine)
unfolding reload read_table validate_known_devices
reload_key_escapes yaml_load initial known token contents es devices engine loads names bad =
    ground (arith, check_device_keys_other known devices bad)
