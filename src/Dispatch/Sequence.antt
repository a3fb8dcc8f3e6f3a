-- ===== src/Dispatch/Sequence.antt =====
-- `handle_command_sequence` of stormpulse/agent/dispatch.py: the checks of the whole batch, then the
-- steps, each in the world it meets.
use storm_pulse.Base.{
  if◌then◌else◌, ◌==◌, string_eq, pair_eq, nat_eq, keep_if, elem, ℕ, suc, String, Bool, true, false,
  not, ◌&&◌, Option, none, some, List, [], ◌∷◌, ◌++◌, map,
}
use storm_pulse.Base.Dict
use storm_pulse.Base.Dict.{Dict}
use storm_pulse.Base.Text.{take_chars}
use storm_pulse.Json.{Json, to_dict}
use storm_pulse.Protocol.Reasons.{FailureReason, validation_failed}
use storm_pulse.Protocol.Results.{CommandResult, failed}
use storm_pulse.Protocol.Envelope.{Envelope}
use storm_pulse.Auth.{
  NonceStore, CommandPayload, request, sequence, Step, Verdict, accepted, refused, malformed,
}
use storm_pulse.Commands.Spec.{CommandSpec}
use storm_pulse.Commands.Registry.{
  Lookup, found, command_error, get_command, apply_block_command, verify_block_command,
}
use storm_pulse.Commands.Registry.Execution.{
  run_raised, Execution, completed, not_admitted, invalid_params, unknown_placeholder,
  execute_command,
}
use storm_pulse.Signoff.Admission.{
  Refusal, refusal_for, is_blocked_by_seal, needs_restart_to_load, restart_pending_result,
  sealed_refusal, sealed_refusal_result,
}
use storm_pulse.Dispatch.{
  Effect, send, emitted, executes, Handled, done, protocol_error, raised, Agent, Texts, World,
  Clock, unknown_group, refuse_incompatible_command, verify_payload, auth_failure,
}
use storm_pulse.Dispatch.Single.{Handling, before}
pub mod Stream
pub mod Steps
pub mod Cleared
pub mod Replied
pub mod Received

abbrev pub names_of : List Step → List String
names_of [] = []
names_of (step ∷ steps) = step.command ∷ names_of steps

-- names.index(name), of a name that is there
abbrev pub index : String → List String → ℕ
index name [] = 0
index name (n ∷ names) = if n == name then 0 else suc (index name names)

-- `step_result`
unfoldable pub stamp : String → ℕ → CommandResult → CommandResult
stamp sequence_id k r = record r { sequence_id = some sequence_id; step_index = some k }

-- sorted(SEALED_COMMANDS & set(names))
abbrev pub sealed_in_sequence : List String → List String
sealed_in_sequence names =
    keep_if (λ name. elem name names) (apply_block_command ∷ verify_block_command ∷ [])

abbrev pub stopping : Bool → CommandResult → Handled → Handled
stopping stop_on_failure r rest =
    if stop_on_failure && not r.success then done (send r ∷ []) else before (send r ∷ []) rest

module _ (texts : Texts) (agent : Agent) (sequence_id ref : String) where
  abbrev pub step_failure :
      Bool → ℕ → World → String → FailureReason → String → Option CommandSpec → Handled → Handled
  step_failure stop k world command reason message none rest = raised []
  step_failure stop k world command reason message (some spec) rest =
      stopping stop
        (stamp sequence_id k
          (failed world.request_id command spec.group reason message none none 0))
        rest

  -- the result of one step, and on to the rest
  abbrev pub after_step : Bool → ℕ → World → String → Execution → Handled → Handled
  after_step stop k world command (completed r) rest = stopping stop (stamp sequence_id k r) rest
  after_step stop k world command (not_admitted reason) rest =
      step_failure stop k world command reason (texts.command_error_text reason command)
        (Dict.get command agent.registry) rest
  after_step stop k world command (invalid_params e) rest =
      step_failure stop k world command validation_failed (texts.params_error_text e)
        (Dict.get command agent.registry) rest
  after_step stop k world command unknown_placeholder rest = raised []
  after_step stop k world command run_raised rest = raised []

  abbrev pub admitted_step : Bool → ℕ → World → Step → Refusal → Handled → Handled
  admitted_step stop k world step (some r, events) rest =
      done (map emitted events ++ send (stamp sequence_id k r) ∷ [])
  admitted_step stop k world step (none, events) rest = before (map emitted events) (
      before (executes step.command ∷ []) (
        after_step stop k world step.command
          (execute_command world.host step.command world.request_id (some sequence_id)
            world.duration_ms agent.registry (to_dict step.params))
          rest))

  unfoldable pub run_steps : Bool → (ℕ → World) → ℕ → List Step → Handled
  unfolding stamp failed execute_command refusal_for
  run_steps stop worlds k [] = done []
  run_steps stop worlds k (step ∷ steps) =
      admitted_step stop k (worlds k) step
        (refusal_for texts.words (worlds k).grants (worlds k).request_id ref (worlds k).signoff
          agent.registry step.command)
        (run_steps stop worlds (suc k) steps)

  -- The checks of the batch, from the last; the first two give the result they send.
  abbrev pub first_sealed : World → List String → List String → List Effect
  first_sealed world names [] = []
  first_sealed world names (command ∷ commands) =
      emitted (sealed_refusal (take_chars 100 command) (take_chars 100 ref) texts.words.sealed_text)
      ∷ send (
          stamp sequence_id (index command names) (
            sealed_refusal_result texts.words world.grants world.request_id ref command
              (Dict.get command agent.registry)))
      ∷ []

  abbrev pub refused_entry :
      World → String → ℕ → Lookup → Option CommandResult → Option CommandResult
  refused_entry world name k (found spec) later = later
  refused_entry world name k (command_error reason) later = some (
      stamp sequence_id k (
        failed world.request_id name unknown_group reason (texts.command_error_text reason name)
          none none 0))

  unfoldable pub first_invalid : World → ℕ → List String → Option CommandResult
  unfolding get_command stamp failed
  first_invalid world k [] = none
  first_invalid world k (name ∷ names) =
      refused_entry world name k (get_command world.grants name agent.registry)
        (first_invalid world (suc k) names)

  abbrev pub after_seal : Bool → World → (ℕ → World) → List Step → Bool → Handled
  after_seal stop world worlds steps true =
      done (first_sealed world (names_of steps) (sealed_in_sequence (names_of steps)))
  after_seal stop world worlds steps false = run_steps stop worlds 0 steps

  abbrev pub after_invalid : Bool → World → (ℕ → World) → List Step → Option CommandResult → Handled
  after_invalid stop world worlds steps (some r) = done (send r ∷ [])
  after_invalid stop world worlds steps none =
      after_seal stop world worlds steps (is_blocked_by_seal world.signoff (names_of steps))

  abbrev pub after_restart : Bool → World → (ℕ → World) → List Step → Option String → Handled
  after_restart stop world worlds steps (some name) = done (
      send (
        stamp sequence_id (index name (names_of steps))
          (restart_pending_result texts.words world.grants world.request_id ref name))
      ∷ [])
  after_restart stop world worlds steps none =
      after_invalid stop world worlds steps (first_invalid world 0 (names_of steps))

  abbrev pub sequence_session :
      Bool → World → (ℕ → World) → List Step → Option CommandResult → Handled
  sequence_session stop world worlds steps (some r) = done (send r ∷ [])
  sequence_session stop world worlds steps none =
      after_restart stop world worlds steps
        (needs_restart_to_load world.signoff agent.registry (names_of steps))

  -- the steps of a verified sequence
  unfoldable pub handle_sequence : Bool → World → (ℕ → World) → List Step → Handled
  unfolding refuse_incompatible_command needs_restart_to_load restart_pending_result first_invalid
      is_blocked_by_seal sealed_refusal_result run_steps stamp
  handle_sequence stop world worlds steps =
      sequence_session stop world worlds steps
        (refuse_incompatible_command texts agent ref (sequence sequence_id steps stop))

abbrev pub sequence_verified :
    Texts → Agent → World → (ℕ → World) → Envelope → NonceStore × Verdict → Handling
sequence_verified texts agent world worlds e (store, refused reason) =
    (record agent { nonce_store = store }, done (auth_failure reason e))
sequence_verified texts agent world worlds e (store, malformed problem) =
    (record agent { nonce_store = store }, protocol_error [] problem)
sequence_verified texts agent world worlds e (store, accepted (request command params)) =
    (record agent { nonce_store = store }, done [])
sequence_verified texts agent world worlds e (store, accepted (sequence sequence_id steps stop)) =
    let now = record agent { nonce_store = store } in
    (now, handle_sequence texts now sequence_id e.id stop world worlds steps)

unfoldable pub handle_command_sequence :
    (String → String → String)
    → (Json → String)
    → Texts
    → Agent
    → World
    → (ℕ → World)
    → Clock
    → Envelope
    → Handling
unfolding verify_payload handle_sequence
handle_command_sequence hmac_hex dumps texts agent world worlds clock e =
    sequence_verified texts agent world worlds e (verify_payload hmac_hex dumps agent clock e)
