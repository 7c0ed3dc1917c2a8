-- ===== src/Policy/Resolve.antt =====
-- What `PolicyTable.resolve` decides: the order of the layers, and that nothing is allowed without a
-- rule.
use mathlib.Core.Path.{subst}
use hermes_device_protocol.Policy.Document.{layer, lookup, resolve, resolve_with}
use hermes_device_protocol.Policy.{
  Decision, Mode, Modes, PolicyTable, Source, deny, device_capability, device_default, fallback,
  global_default,
}
use hermes_device_protocol.Prelude.{
  Bool, Option-cases, String, ap, arith, false, inl, inr, none, refl, some, sym, true, ◌∙◌, ◌≡◌,
}

abbrev pub is_deny : Mode → Bool
is_deny deny = true
is_deny _ = false

-- The rule that a decision cites, found in the table itself.
abbrev pub Cites : PolicyTable → String → String → Mode → Source → Type 0
Cites t d c mode device_capability =
    (modes : Modes) × (lookup d t.devices ≡ some modes) × (lookup c modes ≡ some mode)
Cites t d c mode device_default =
    (modes : Modes) × (lookup d t.devices ≡ some modes)
    × (lookup c modes ≡ none)
    × (lookup "default" modes ≡ some mode)
Cites t d c mode global_default =
    (lookup c t.defaults ≡ some mode)
    × ((modes : Modes)
        → lookup d t.devices ≡ some modes
        → (lookup c modes ≡ none) × (lookup "default" modes ≡ none))
Cites t d c mode fallback =
    (mode ≡ deny)
    × (lookup c t.defaults ≡ none)
    × ((modes : Modes)
        → lookup d t.devices ≡ some modes
        → (lookup c modes ≡ none) × (lookup "default" modes ≡ none))

abbrev pub IsCited : PolicyTable → String → String → Decision → Type 0
IsCited t d c r = Cites t d c r.mode r.source × (r.policy_seq ≡ t.policy_seq)

-- No rule of the device applies: it has no modes, or neither the capability nor "default" is there.
abbrev NoDeviceRule : PolicyTable → String → String → Type 0
NoDeviceRule t d c =
    (modes : Modes)
    → lookup d t.devices ≡ some modes
    → (lookup c modes ≡ none) × (lookup "default" modes ≡ none)

abbrev denied : PolicyTable → Decision
denied t = record { mode = deny; source = fallback; policy_seq = t.policy_seq }

defaults-IsCited :
    (t : PolicyTable) (d c : String)
    → NoDeviceRule t d c
    → IsCited t d c (layer (lookup c t.defaults) global_default t.policy_seq (denied t))
defaults-IsCited t d c no_rule = elim (Option-cases (lookup c t.defaults)) [
  | inl e ↦ rw e ((refl, e, no_rule), refl)
  | inr (mode, e) ↦ rw e ((e, no_rule), refl)
]

device-IsCited :
    (t : PolicyTable) (d c : String) (modes : Modes)
    → lookup d t.devices ≡ some modes
    → IsCited t d c (
        layer (lookup c modes) device_capability t.policy_seq (
          layer
            (lookup "default" modes)
            device_default
            t.policy_seq
            (layer (lookup c t.defaults) global_default t.policy_seq (denied t))))
device-IsCited t d c modes found = elim (Option-cases (lookup c modes)) [
  | inr (mode, e) ↦ rw e ((modes, found, e), refl)
  | inl e ↦ rw e (elim (Option-cases (lookup "default" modes)) [
    | inr (mode, e') ↦ rw e' ((modes, found, e, e'), refl)
    | inl e' ↦ rw e' (
        defaults-IsCited t d c λ other found'.
          let same : modes ≡ other = cc (found, found') in (rw (← same) e, rw (← same) e'))
  ])
]

-- A decision cites the rule it rests on, by the documented order: the device's rule for the
-- capability, else the device's "default", else the global default for the capability, else denial;
-- each later layer only where the earlier ones have no rule. It carries the table's sequence number.
pub resolve-IsCited : (t : PolicyTable) (d c : String) → IsCited t d c (resolve t d c)
unfolding resolve
resolve-IsCited t d c = elim (Option-cases (lookup d t.devices)) [
  | inl e ↦
      subst (λ o. IsCited t d c (resolve_with t c o)) (sym e)
        (defaults-IsCited t d c λ modes found. absurd (ground arith))
  | inr (modes, e) ↦
      subst (λ o. IsCited t d c (resolve_with t c o)) (sym e) (device-IsCited t d c modes e)
]

-- The default fails closed: where neither the device's modes nor the global defaults name the
-- capability, and the device has no "default", the decision is a denial by fallback.
pub resolve_unruled :
    (t : PolicyTable) (d c : String)
    → lookup c t.defaults ≡ none
    → ((modes : Modes)
        → lookup d t.devices ≡ some modes
        → (lookup c modes ≡ none) × (lookup "default" modes ≡ none))
    → resolve t d c ≡ record { mode = deny; source = fallback; policy_seq = t.policy_seq }
unfolding resolve
resolve_unruled t d c no_default no_rule = elim (Option-cases (lookup d t.devices)) [
  | inl e ↦ ap (resolve_with t c) e ∙ rw no_default
  | inr (modes, e) ↦
      ap (resolve_with t c) e ∙ rw (no_rule modes e).0 (rw (no_rule modes e).1 (rw no_default))
]
