-- ===== src/Signoff/Admission/Gate.antt =====
-- What `refusal_for` of stormpulse/agent/admission.py lets through, and what it sounds the alarm for.
use storm_pulse.Base.{
  if◌then◌else◌, Bool-cases, string_eq, pair_eq, nat_eq, any, elem, String, ◌≡◌, refl, ◌↔◌, ◌⊎◌,
  inl, inr, Bool, true, false, not, ◌&&◌, ◌||◌, Option, none, some, List, [], ◌∷◌, arith,
}
use storm_pulse.Base.Dict
use storm_pulse.Base.Dict.{Dict, no_entry-get}
use storm_pulse.Commands.Spec.{CommandSpec}
use storm_pulse.Commands.Registry.{sealed_commands, refusal_by}
use storm_pulse.Signoff.{SignoffState, is_sealed}
use storm_pulse.Commands.Registry.{build_registry}
use storm_pulse.Commands.Registry.Whitelist.{get-build_registry}
use storm_pulse.Signoff.Admission.{
  Wording, Refusal, Emitted, whitelist_rejection, sealed_refusal, is_blocked_by_seal,
  first_unloaded, needs_restart_to_load, sealed, fence, fence_entry, fenced, ask_restart,
  restart_pending, or_refusal, refusal_for,
}

abbrev pub NotFenced : (String → Option String) → Option CommandSpec → Type 0
NotFenced grants none = Unit {0}
NotFenced grants (some spec) = refusal_by grants spec.authorize ≡ none

-- A shell hatch is admitted only on an open agent that has it loaded; any command only with a grant
-- that does not refuse it now.
pub record IsAdmitted (grants : String → Option String) (state : SignoffState)
    (registry : Dict String CommandSpec) (command : String) : Type 0 where
  pub hatch :
      (elem command sealed_commands ≡ false)
      ⊎ ((is_sealed state ≡ false) × (Dict.has command registry ≡ true))
  pub granted : NotFenced grants (Dict.get command registry)

or_refusal-none : (a b : Refusal) → ((or_refusal a b).0 ≡ none) ↔ ((a.0 ≡ none) × (b.0 ≡ none))
or_refusal-none (some r, emitted) b = (λ h. absurd (cc), λ h. absurd (cc h.0))
or_refusal-none (none, emitted) b = (λ h. (refl, h), λ h. h.1)

module _ (words : Wording) (grants : String → Option String) (request_id ref : String) where
  sealed-none :
      (state : SignoffState) (registry : Dict String CommandSpec) (command : String)
      → ((sealed words grants request_id ref state registry command).0 ≡ none)
        ↔ (is_blocked_by_seal state (command ∷ []) ≡ false)
  unfolding sealed
  sealed-none state registry command = elim (Bool-cases (is_blocked_by_seal state (command ∷ []))) [
    | inl e ↦ rw e (λ h. absurd (cc), λ h. absurd (cc))
    | inr e ↦ rw e (λ h. refl, λ h. refl)
  ]

  fence-none :
      (command group : String) (o : Option String)
      → ((fence words grants request_id ref command group o).0 ≡ none) ↔ (o ≡ none)
  fence-none command group none = (λ h. refl, λ h. refl)
  fence-none command group (some why) = (λ h. absurd (cc), λ h. absurd (cc))

  fence_entry-none :
      (command : String) (o : Option CommandSpec)
      → ((fence_entry words grants request_id ref command o).0 ≡ none) ↔ NotFenced grants o
  fence_entry-none command none = (λ h. tt, λ h. refl)
  fence_entry-none command (some spec) =
      fence-none command spec.group (refusal_by grants spec.authorize)

  ask_restart-none :
      (o : Option String) → ((ask_restart words grants request_id ref o).0 ≡ none) ↔ (o ≡ none)
  ask_restart-none none = (λ h. refl, λ h. refl)
  ask_restart-none (some name) = (λ h. absurd (cc), λ h. absurd (cc))

bools :
    (command : String) (is_shut hatch loaded : Bool)
    → (((is_shut && (hatch || false)) ≡ false)
        × ((if is_shut then none else if hatch && not loaded then some command else none) ≡ none))
      ↔ ((hatch ≡ false) ⊎ ((is_shut ≡ false) × (loaded ≡ true)))
bools command true true loaded = (λ h. absurd (cc h.0), λ h. ground arith)
bools command true false loaded = (λ h. inl refl, λ h. (refl, refl))
bools command false true true = (λ h. inr (refl, refl), λ h. (refl, refl))
bools command false true false = (λ h. absurd (cc h.1), λ h. ground arith)
bools command false false loaded = (λ h. inl refl, λ h. (refl, refl))

hatch_test :
    (state : SignoffState) (registry : Dict String CommandSpec) (command : String)
    → ((is_blocked_by_seal state (command ∷ []) ≡ false)
        × (needs_restart_to_load state registry (command ∷ []) ≡ none))
      ↔ ((elem command sealed_commands ≡ false)
          ⊎ ((is_sealed state ≡ false) × (Dict.has command registry ≡ true)))
unfolding is_blocked_by_seal needs_restart_to_load first_unloaded
hatch_test state registry command =
    bools command (is_sealed state) (elem command sealed_commands) (Dict.has command registry)

-- `refusal_for` gives no refusal exactly for what is admitted.
pub refusal_for-IsAdmitted :
    (words : Wording) (grants : String → Option String) (request_id ref : String)
    (state : SignoffState) (registry : Dict String CommandSpec) (command : String)
    → ((refusal_for words grants request_id ref state registry command).0 ≡ none)
      ↔ IsAdmitted grants state registry command
unfolding refusal_for fenced restart_pending
refusal_for-IsAdmitted words grants request_id ref state registry command =
    let seal = sealed-none words grants request_id ref state registry command in
    let entry = fence_entry-none words grants request_id ref command (Dict.get command registry) in
    let restart =
      ask_restart-none words grants request_id ref
        (needs_restart_to_load state registry (command ∷ [])) in
    let outer = or_refusal-none _ _ in
    let inner = or_refusal-none _ _ in
    let test = hatch_test state registry command in
    (
      λ h.
          let (a, rest) = outer.0 h in
          let (b, c) = inner.0 rest in
          record { hatch = test.0 (seal.0 a, restart.0 c); granted = entry.0 b },
      λ k.
          let (a, c) = test.1 k.hatch in
          outer.1 (seal.1 a, inner.1 (entry.1 k.granted, restart.1 c)),
    )

-- The registry is built once at boot. A shell hatch that is admitted now has an agent that was open
-- when it booted and is open still.
pub hatch-is_sealed :
    (words : Wording) (grants : String → Option String) (request_id ref : String)
    (state : SignoffState) (config : Dict String CommandSpec) (disabled : List String)
    (sealed_at_boot : Bool) (command : String)
    → Dict.IsDict config
    → elem command sealed_commands ≡ true
    → (refusal_for words grants request_id ref state
        (build_registry config disabled sealed_at_boot)
        command).0
      ≡ none
    → (is_sealed state ≡ false) × (sealed_at_boot ≡ false) × (elem command disabled ≡ false)
hatch-is_sealed words grants request_id ref state config disabled sealed_at_boot command keys hatch
      h =
    let registry = build_registry config disabled sealed_at_boot in
    let entry = get-build_registry config disabled sealed_at_boot command keys in
    elim ((refusal_for-IsAdmitted words grants request_id ref state registry command).0 h).hatch [
      | inl other ↦ absurd (ground (arith, hatch, other))
      | inr (unsealed, loaded) ↦
          elim (Bool-cases
            (elem command disabled || (sealed_at_boot && elem command sealed_commands))) [
              | inl e ↦ absurd (absent (rw e at entry) loaded)
              | inr e ↦ (unsealed, ground (arith, e, hatch), ground (arith, e))
            ]
    ]
  where
    absent :
        Dict.get command (build_registry config disabled sealed_at_boot) ≡ none
        → Dict.has command (build_registry config disabled sealed_at_boot) ≡ true
        → ⊥
    absent e k =
        let f = no_entry-get command (build_registry config disabled sealed_at_boot) e in cc

abbrev pub is_alarm : Emitted → Bool
is_alarm (whitelist_rejection command ref error) = true
is_alarm (sealed_refusal command ref error) = false

abbrev pub FencedBy : (String → Option String) → Option CommandSpec → Type 0
FencedBy grants none = ⊥
FencedBy grants (some spec) = (why : String) × (refusal_by grants spec.authorize ≡ some why)

module _ (words : Wording) (grants : String → Option String) (request_id ref : String) where
  fence_alarm :
      (command group : String) (o q : Option String)
      → (any is_alarm
            (or_refusal
              (fence words grants request_id ref command group o)
              (ask_restart words grants request_id ref q)).1
          ≡ true)
        ↔ ((why : String) × (o ≡ some why))
  fence_alarm command group none none = (λ h. absurd (cc), λ h. absurd (let k = h.1 in cc))
  fence_alarm command group none (some name) = (λ h. absurd (cc), λ h. absurd (let k = h.1 in cc))
  fence_alarm command group (some why) q = (λ h. (why, refl), λ h. refl)

  fence_entry_alarm :
      (command : String) (o : Option CommandSpec) (q : Option String)
      → (any is_alarm
            (or_refusal
              (fence_entry words grants request_id ref command o)
              (ask_restart words grants request_id ref q)).1
          ≡ true)
        ↔ FencedBy grants o
  fence_entry_alarm command none none = (λ h. absurd (cc), λ h. absurd h)
  fence_entry_alarm command none (some name) = (λ h. absurd (cc), λ h. absurd h)
  fence_entry_alarm command (some spec) q =
      fence_alarm command spec.group (refusal_by grants spec.authorize) q

-- A refusal sounds the whitelist alarm exactly for a command that the seal does not stop and its grant
-- refuses: neither a seal nor a pending restart sounds it.
pub refusal_for_alarm :
    (words : Wording) (grants : String → Option String) (request_id ref : String)
    (state : SignoffState) (registry : Dict String CommandSpec) (command : String)
    → (any is_alarm (refusal_for words grants request_id ref state registry command).1 ≡ true) ↔ (
        (is_blocked_by_seal state (command ∷ []) ≡ false)
        × FencedBy grants (Dict.get command registry))
unfolding refusal_for sealed fenced restart_pending
refusal_for_alarm words grants request_id ref state registry command =
    elim (Bool-cases (is_blocked_by_seal state (command ∷ []))) [
      | inl e ↦ rw e (λ h. absurd (cc), λ h. absurd (cc h.0))
      | inr e ↦
          let rest =
            fence_entry_alarm words grants request_id ref command (Dict.get command registry)
              (needs_restart_to_load state registry (command ∷ [])) in
          rw e (λ h. (refl, rest.0 h), λ h. rest.1 h.1)
    ]
