-- ===== src/Control/Resolved.antt =====
-- What a resolved target is, whichever way it was chosen.
use hermes_device_protocol.Connection.Admission.{advertised, nonempty}
use hermes_device_protocol.Control.Members.{
  Member, Member-fetchone, Member-greatest, Member-keep_if, Member-sort, greatest_bound,
  keep_if-Member, some_eq,
}
use hermes_device_protocol.Control.{
  ResolvedTarget, by_request, candidate_target, connected_target, default_target, descriptor_of,
  get_record, greatest, has_version, is_acceptable, is_candidate, is_default, is_named, keep_if,
  leb_int, nonempty_caps, offline, record_has_id, requested_target, resolve_target, select_version,
  sort_by_id, with_capability, with_version,
}
use hermes_device_protocol.Registry.Register.{CapabilityRecord, DeviceRecord}
use hermes_device_protocol.Store.{is_active}
use hermes_device_protocol.Prelude.Sql.{fetchone, fetchone_holds}
use hermes_device_protocol.Prelude.Dict.{Dict, get_item}
use hermes_device_protocol.Prelude.Int.{ℤ}
use hermes_device_protocol.Prelude.Result.{ok, ok_injective}
use hermes_device_protocol.Prelude.{
  Bool, List, Option, String, [], ap, arith, eq_iff, false, if◌then◌else◌, inl, none, refl, some,
  sym, true, ℕ, ◌∙◌, ◌∷◌, ◌≡◌,
}
use mathlib.Core.Path.{subst}

module _ (capability : String) (acceptable : List ℤ) (connections : Dict ℕ)
    (records : List DeviceRecord) where
  -- The target's version is one that the device advertises for the capability and the caller
  -- accepts, with the descriptor that it was advertised with, and no such version is above it.
  abbrev pub IsBest : DeviceRecord → ResolvedTarget → Type 0
  IsBest r t =
      ((c : CapabilityRecord) × Member c r.capabilities
        × (is_named capability c ≡ true)
        × (is_acceptable acceptable c ≡ true)
        × (c.version ≡ t.version))
      × ((c : CapabilityRecord) × Member c r.capabilities
          × (is_named capability c ≡ true)
          × (has_version t.version c ≡ true)
          × (t.descriptor ≡ descriptor_of c))
      × ((c : CapabilityRecord)
          → Member c r.capabilities
          → is_named capability c ≡ true
          → is_acceptable acceptable c ≡ true
          → leb_int c.version t.version ≡ true)

  -- The target's device is registered and active, and its connection is the one it is reached by.
  abbrev pub IsTarget : ResolvedTarget → Type 0
  IsTarget t =
      (r : DeviceRecord) × Member r records
      × (is_active r.state ≡ true)
      × (t.device_id ≡ r.device_id)
      × (get_item t.device_id connections ≡ some t.connection)
      × IsBest r t

  abbrev Chosen : String → ℕ → List CapabilityRecord → ResolvedTarget → Type 0
  Chosen d connection cs t =
      (t.device_id ≡ d)
      × (t.connection ≡ connection)
      × ((c : CapabilityRecord) × (fetchone (has_version t.version) cs ≡ some c)
          × (t.descriptor ≡ descriptor_of c))
      × (greatest (keep_if (is_acceptable acceptable) cs) ≡ some t.version)

  select-Chosen :
      (d : String) (connection : ℕ) (cs : List CapabilityRecord) (t : ResolvedTarget)
      → select_version acceptable d connection cs ≡ ok t
      → Chosen d connection cs t
  select-Chosen d connection cs t =
      by_version (greatest (keep_if (is_acceptable acceptable) cs)) refl
    where
      by_capability :
          (v : ℤ) (o : Option CapabilityRecord)
          → greatest (keep_if (is_acceptable acceptable) cs) ≡ some v
          → fetchone (has_version v) cs ≡ o
          → with_capability d connection v o ≡ ok t
          → Chosen d connection cs t
      by_capability v none e f h = absurd (ground arith)
      by_capability v (some c) e f h =
          subst (Chosen d connection cs) (ok_injective h) (refl, refl, (c, f, refl), e)

      by_version :
          (o : Option ℤ)
          → greatest (keep_if (is_acceptable acceptable) cs) ≡ o
          → with_version d connection cs o ≡ ok t
          → Chosen d connection cs t
      by_version none e h = absurd (ground arith)
      by_version (some v) e h = by_capability v (fetchone (has_version v) cs) e refl h

  Chosen-IsBest :
      (r : DeviceRecord) (d : String) (connection : ℕ) (t : ResolvedTarget)
      → Chosen d connection (keep_if (is_named capability) r.capabilities) t
      → IsBest r t
  Chosen-IsBest r d connection t (same, reached, (c, found, described), most) =
      let cs = keep_if (is_named capability) r.capabilities in
      let fitting = keep_if (is_acceptable acceptable) cs in
      let (b, among, version) = Member-greatest fitting t.version most in
      let (accepted, in_cs) = Member-keep_if (is_acceptable acceptable) b cs among in
      let (named, advertised) = Member-keep_if (is_named capability) b r.capabilities in_cs in
      let (named_c, advertised_c) =
        Member-keep_if (is_named capability) c r.capabilities
          (Member-fetchone (has_version t.version) c cs found) in
      (
        (b, advertised, named, accepted, version),
        (c, advertised_c, named_c, fetchone_holds (has_version t.version) cs c found, described),
        λ x m n a. greatest_bound fitting t.version x most (
            keep_if-Member (is_acceptable acceptable) x cs
              (keep_if-Member (is_named capability) x r.capabilities m n) a),
      )

  Chosen-IsTarget :
      (r : DeviceRecord) (connection : ℕ) (t : ResolvedTarget)
      → Member r records
      → is_active r.state ≡ true
      → get_item r.device_id connections ≡ some connection
      → Chosen r.device_id connection (keep_if (is_named capability) r.capabilities) t
      → IsTarget t
  Chosen-IsTarget r connection t known live reached chosen = (
    r,
    known,
    live,
    chosen.0,
    ap (λ d. get_item d connections) chosen.0 ∙ reached ∙ ap some (sym chosen.1),
    Chosen-IsBest r r.device_id connection t chosen,
  )

  connected-IsTarget :
      (r : DeviceRecord) (t : ResolvedTarget)
      → Member r
          (sort_by_id (keep_if (is_candidate capability acceptable connections records) records))
      → connected_target capability acceptable connections records r
          (get_item r.device_id connections)
        ≡ ok t
      → IsTarget t
  connected-IsTarget r t m = reached (get_item r.device_id connections) refl
    where
      reached :
          (o : Option ℕ)
          → get_item r.device_id connections ≡ o
          → connected_target capability acceptable connections records r o ≡ ok t
          → IsTarget t
      reached none e h = absurd (ground arith)
      reached (some connection) e h =
          let candidate = is_candidate capability acceptable connections records in
          let (fits, known) =
            Member-keep_if candidate r records (Member-sort r (keep_if candidate records) m) in
          let live : is_active r.state ≡ true = ground (arith, fits) in
          Chosen-IsTarget r connection t known live e (
            select-Chosen r.device_id connection (keep_if (is_named capability) r.capabilities) t h)

  candidates-IsTarget :
      (configured : Option String) (among : List DeviceRecord) (t : ResolvedTarget)
      → ((r : DeviceRecord)
          → Member r among
          → Member r (
              sort_by_id
                (keep_if (is_candidate capability acceptable connections records) records)))
      → candidate_target capability acceptable connections records configured among ≡ ok t
      → IsTarget t
  candidates-IsTarget configured [] t part h = absurd (ground arith)
  candidates-IsTarget configured (r ∷ []) t part h = connected-IsTarget r t (part r (inl refl)) h
  candidates-IsTarget configured (r ∷ (s ∷ rs)) t part h =
      chosen (fetchone default (r ∷ (s ∷ rs))) refl h
    where
      default : DeviceRecord → Bool
      default = is_default capability acceptable connections records configured

      chosen :
          (o : Option DeviceRecord)
          → fetchone default (r ∷ (s ∷ rs)) ≡ o
          → default_target capability acceptable connections records o ≡ ok t
          → IsTarget t
      chosen none e k = absurd (ground arith)
      chosen (some x) e k =
          connected-IsTarget x t (part x (Member-fetchone default x (r ∷ (s ∷ rs)) e)) k

  requested-IsTarget :
      (d : String) (t : ResolvedTarget) (o : Option ℕ) (p : Option DeviceRecord)
      → get_item d connections ≡ o
      → get_record d records ≡ p
      → requested_target capability acceptable connections records d o p ≡ ok t
      → IsTarget t × (t.device_id ≡ d)
  requested-IsTarget d t none p e f h = absurd (ground arith)
  requested-IsTarget d t (some connection) none e f h = absurd (ground arith)
  requested-IsTarget d t (some connection) (some r) e f h = live (is_active r.state) refl h
    where
      same : r.device_id ≡ d
      same = (eq_iff r.device_id d).0 (fetchone_holds (record_has_id d) records r f)

      advertised_caps :
          (cs : List CapabilityRecord)
          → nonempty_caps capability acceptable connections records d r.device_id connection cs
            ≡ ok t
          → select_version acceptable r.device_id connection cs ≡ ok t
      advertised_caps [] k = absurd (ground arith)
      advertised_caps (c ∷ cs) k = k

      live :
          (b : Bool)
          → is_active r.state ≡ b
          → (if b
              then nonempty_caps capability acceptable connections records d r.device_id connection
                  (keep_if (is_named capability) r.capabilities)
              else offline capability acceptable connections records d)
            ≡ ok t
          → IsTarget t × (t.device_id ≡ d)
      live false active_row k = absurd (ground arith)
      live true active_row k =
          let chosen =
            select-Chosen r.device_id connection (keep_if (is_named capability) r.capabilities) t
              (advertised_caps (keep_if (is_named capability) r.capabilities) k) in
          (
            Chosen-IsTarget r connection t (Member-fetchone (record_has_id d) r records f)
                active_row (ap (λ x. get_item x connections) same ∙ e) chosen,
            chosen.0 ∙ same,
          )

  -- A target that is resolved is a registered and active device, reached by the connection that it
  -- has now; its version is the greatest that the device advertises for the capability and the
  -- caller accepts, with a descriptor that the device advertised; and where a device was asked for,
  -- it is that one.
  pub resolve_target-IsTarget :
      (configured requested : Option String) (t : ResolvedTarget)
      → resolve_target capability acceptable connections records configured requested ≡ ok t
      → IsTarget t × ((d : String) → nonempty requested ≡ some d → t.device_id ≡ d)
  unfolding resolve_target
  resolve_target-IsTarget configured requested t h = asked (nonempty requested) h
    where
      asked :
          (o : Option String)
          → by_request capability acceptable connections records configured o ≡ ok t
          → IsTarget t × ((d : String) → o ≡ some d → t.device_id ≡ d)
      asked none k = (
        candidates-IsTarget configured
            (sort_by_id (keep_if (is_candidate capability acceptable connections records) records))
            t (λ r m. m) k,
        λ d e. absurd (ground arith),
      )
      asked (some d) k =
          let (target, same) =
            requested-IsTarget d t (get_item d connections) (get_record d records) refl refl k in
          (target, λ x e. same ∙ some_eq e)
