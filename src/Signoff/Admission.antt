-- ===== src/Signoff/Admission.antt =====
-- The guards of stormpulse/agent/signoff_guard.py and `refusal_for` of stormpulse/agent/admission.py.
-- What `events.emit` is called with is returned beside the refusal.
use storm_pulse.Base.{
  if◌then◌else◌, string_eq, pair_eq, nat_eq, any, elem, String, Bool, not, ◌&&◌, Option, none, some,
  List, [], ◌∷◌, ◌++◌,
}
use storm_pulse.Base.Dict
use storm_pulse.Base.Dict.{Dict}
use storm_pulse.Base.Text.{take_chars}
use storm_pulse.Protocol.Reasons.{signoff_sealed, restart_required, forbidden}
use storm_pulse.Protocol.Results.{CommandResult, failed}
use storm_pulse.Commands.Spec.{CommandSpec}
use storm_pulse.Commands.Registry.{sealed_commands, refusal_by}
use storm_pulse.Signoff.{SignoffState, is_sealed}
pub mod Gate

-- SEALED_COMMANDS & set(commands) is not empty, while sealed
unfoldable pub is_blocked_by_seal : SignoffState → List String → Bool
unfolding is_sealed
is_blocked_by_seal state commands =
    is_sealed state && any (λ name. elem name sealed_commands) commands

unfoldable pub first_unloaded : Dict String CommandSpec → List String → Option String
first_unloaded registry [] = none
first_unloaded registry (name ∷ names) =
    if elem name sealed_commands && not (Dict.has name registry)
    then some name
    else first_unloaded registry names

unfoldable pub needs_restart_to_load :
    SignoffState → Dict String CommandSpec → List String → Option String
unfolding is_sealed first_unloaded
needs_restart_to_load state registry commands =
    if is_sealed state then none else first_unloaded registry commands

-- events.emit: the command and the ref are capped at 100 characters
pub data Emitted : Type 0 where
  whitelist_rejection : String → String → String → Emitted
  sealed_refusal : String → String → String → Emitted

-- The two fixed messages, and that of a fenced command by its name and reason.
pub record Wording : Type 0 where
  pub sealed_text : String
  pub restart_text : String
  pub fenced_text : String → String → String

abbrev pub group_of : Option CommandSpec → String
group_of none = "signoff"
group_of (some spec) = spec.group

abbrev pub Refusal : Type 0
Refusal = Option CommandResult × List Emitted

-- a or b: b is called only where a gives None
abbrev pub or_refusal : Refusal → Refusal → Refusal
or_refusal (some r, emitted) b = (some r, emitted)
or_refusal (none, emitted) b = (b.0, emitted ++ b.1)

module _ (words : Wording) (grants : String → Option String) (request_id ref : String) where
  unfoldable pub sealed_refusal_result : String → Option CommandSpec → CommandResult
  unfolding failed
  sealed_refusal_result command spec =
      failed request_id command (group_of spec) signoff_sealed words.sealed_text none none 0

  unfoldable pub restart_pending_result : String → CommandResult
  unfolding failed
  restart_pending_result command =
      failed request_id command "signoff" restart_required words.restart_text none none 0

  -- `_sealed`
  unfoldable pub sealed : SignoffState → Dict String CommandSpec → String → Refusal
  unfolding is_blocked_by_seal sealed_refusal_result
  sealed state registry command =
      if is_blocked_by_seal state (command ∷ [])
      then (
        some (sealed_refusal_result command (Dict.get command registry)),
        sealed_refusal (take_chars 100 command) (take_chars 100 ref) words.sealed_text ∷ [],
      )
      else (none, [])

  abbrev pub fence : String → String → Option String → Refusal
  fence command group none = (none, [])
  fence command group (some why) = (
    some (failed request_id command group forbidden (words.fenced_text command why) none none 0),
    whitelist_rejection (take_chars 100 command) (take_chars 100 ref)
          (words.fenced_text command why)
        ∷ [],
  )

  abbrev pub fence_entry : String → Option CommandSpec → Refusal
  fence_entry command none = (none, [])
  fence_entry command (some spec) = fence command spec.group (refusal_by grants spec.authorize)

  -- `_fenced`
  unfoldable pub fenced : Dict String CommandSpec → String → Refusal
  unfolding failed
  fenced registry command = fence_entry command (Dict.get command registry)

  abbrev pub ask_restart : Option String → Refusal
  ask_restart none = (none, [])
  ask_restart (some name) = (some (restart_pending_result name), [])

  -- `_restart_pending`
  unfoldable pub restart_pending : SignoffState → Dict String CommandSpec → String → Refusal
  unfolding needs_restart_to_load restart_pending_result
  restart_pending state registry command =
      ask_restart (needs_restart_to_load state registry (command ∷ []))

  unfoldable pub refusal_for : SignoffState → Dict String CommandSpec → String → Refusal
  unfolding sealed fenced restart_pending
  refusal_for state registry command =
      or_refusal (sealed state registry command)
        (or_refusal (fenced registry command) (restart_pending state registry command))
