-- ===== src/Commands/Registry/Whitelist.antt =====
-- What the registry of stormpulse/commands/registry.py lets through.
use storm_pulse.Base.{
  if◌then◌else◌, Bool-cases, Option-cases, string_eq, pair_eq, nat_eq, elem, String, ◌≡◌, refl, ap,
  ◌∙◌, ◌≢◌, ◌↔◌, inl, inr, Bool, true, false, ◌&&◌, ◌||◌, Option, none, some, List, [], ◌∷◌, arith,
  eq_iff,
}
use storm_pulse.Base.Dict
use storm_pulse.Base.Dict.{Dict, get-put, get-keep_if, no_entry}
use storm_pulse.Protocol.Reasons.{unknown_command}
use storm_pulse.Commands.Spec.{CommandSpec, Mode, subprocess, job, refresh}
use storm_pulse.Commands.Registry.{
  command_registry, update, allowed, sealed_commands, build_registry, Lookup, found, command_error,
  by_entry, by_mode, refusal_by, get_command,
}

abbrev pub or_else {ℓ} : {A : Type ℓ} → Option A → Option A → Option A
or_else (some a) d = some a
or_else none d = d

-- The last entry of a key wins in `{**a, **b}`; config keys are distinct, so it is the entry.
get-update :
    (k : String) (b a : Dict String CommandSpec)
    → Dict.IsDict b
    → Dict.get k (update a b) ≡ or_else (Dict.get k b) (Dict.get k a)
unfolding update Dict.get
get-update k [] a d = refl
get-update k ((j, v) ∷ b) a d =
    get-update k b (Dict.put j v a) d.1 ∙ ground (arith, get-put j k v a, eq_iff j k, absent_get)
  where
    absent_get : j ≡ k → Dict.get k b ≡ none
    absent_get e = no_entry k b (rw (← e) d.0)

-- The registry holds a name exactly if it is not disabled, and no shell hatch while sealed, with the
-- config's entry before the built-in one. No config brings a hatch back on a sealed agent.
pub get-build_registry :
    (config : Dict String CommandSpec) (disabled : List String) (sealed : Bool) (name : String)
    → Dict.IsDict config
    → Dict.get name (build_registry config disabled sealed) ≡ (
        if elem name disabled || (sealed && elem name sealed_commands)
        then none
        else or_else (Dict.get name config) (Dict.get name command_registry))
unfolding build_registry
get-build_registry config disabled sealed name d =
    get-keep_if (allowed disabled sealed) name (update command_registry config)
    ∙ rw (get-update name config command_registry d) (test sealed)
  where
    test :
        (sealed : Bool)
        → (if allowed disabled sealed name
            then or_else (Dict.get name config) (Dict.get name command_registry)
            else none)
          ≡ (if elem name disabled || (sealed && elem name sealed_commands)
              then none
              else or_else (Dict.get name config) (Dict.get name command_registry))
    test true = elim (Bool-cases (elem name disabled)) [
      | inl e ↦ rw e
      | inr e ↦ elim (Bool-cases (elem name sealed_commands)) [
        | inl k ↦ rw (e, k)
        | inr k ↦ rw (e, k)
      ]
    ]
    test false = elim (Bool-cases (elem name disabled)) [ inl e ↦ rw e | inr e ↦ rw e ]

lookup_spec : CommandSpec → Lookup → CommandSpec
lookup_spec d (found s) = s
lookup_spec d (command_error r) = d

found-injective : {s t : CommandSpec} → found s ≡ found t → s ≡ t
unfolding lookup_spec
found-injective {s} h = ap (lookup_spec s) h

by_mode-known :
    (grants : String → Option String) (spec : CommandSpec) (m : Mode)
    → by_mode grants spec m ≢ command_error unknown_command
by_mode-known grants spec subprocess h = elim (Option-cases (refusal_by grants spec.authorize)) [
  | inl e ↦ let k = rw e at h in cc
  | inr (why, e) ↦ let k = rw e at h in cc
]
by_mode-known grants spec job h = cc
by_mode-known grants spec refresh h = cc

by_mode-found :
    (grants : String → Option String) (spec spec' : CommandSpec) (m : Mode)
    → by_mode grants spec m ≡ found spec'
    → (spec ≡ spec') × (m ≡ subprocess) × (refusal_by grants spec.authorize ≡ none)
by_mode-found grants spec spec' subprocess h =
    elim (Option-cases (refusal_by grants spec.authorize)) [
      | inl e ↦ (found-injective (rw e at h), refl, e)
      | inr (why, e) ↦ absurd (let k = rw e at h in cc)
    ]
by_mode-found grants spec spec' job h = absurd (cc)
by_mode-found grants spec spec' refresh h = absurd (cc)

by_entry_lem :
    (grants : String → Option String) (o : Option CommandSpec)
    → ((spec : CommandSpec)
        → by_entry grants o ≡ found spec
        → (o ≡ some spec) × (spec.mode ≡ subprocess) × (refusal_by grants spec.authorize ≡ none))
      × ((o ≡ none) ↔ (by_entry grants o ≡ command_error unknown_command))
by_entry_lem grants none = (λ spec h. absurd (cc), (λ e. refl, λ e. refl))
by_entry_lem grants (some s) = (
  λ spec h.
      let (same, mode, free) = by_mode-found grants s spec s.mode h in
      (ap some same, rw (← same) mode, rw (← same) free),
  (λ e. absurd (cc), λ e. absurd (by_mode-known grants s s.mode e)),
)

-- What `get_command` gives out is the registry's own entry of the name, a subprocess command whose
-- grant, if it has one, does not refuse.
pub get_command-found :
    (grants : String → Option String) (name : String) (registry : Dict String CommandSpec)
    (spec : CommandSpec)
    → get_command grants name registry ≡ found spec
    → (Dict.get name registry ≡ some spec)
      × (spec.mode ≡ subprocess)
      × (refusal_by grants spec.authorize ≡ none)
unfolding get_command
get_command-found grants name registry = (by_entry_lem grants (Dict.get name registry)).0

-- `get_command` answers `unknown_command` exactly for a name that the registry does not hold: any
-- other refusal is `forbidden`.
pub get_command-unknown :
    (grants : String → Option String) (name : String) (registry : Dict String CommandSpec)
    → (Dict.get name registry ≡ none)
      ↔ (get_command grants name registry ≡ command_error unknown_command)
unfolding get_command
get_command-unknown grants name registry = (by_entry_lem grants (Dict.get name registry)).1
