-- ===== src/Dispatch/Single.antt =====
-- `handle_command_request` of stormpulse/agent/dispatch.py with its three paths, and the collection of
-- stormpulse/agent/refresh.py.
use storm_pulse.Base.{
  if◌then◌else◌, string_eq, pair_eq, nat_eq, String, Bool, true, false, ◌&&◌, Option, none, some,
  List, [], ◌∷◌, ◌++◌, map,
}
use storm_pulse.Base.Dict
use storm_pulse.Base.Dict.{Dict}
use storm_pulse.Base.Int.{pos}
use storm_pulse.Base.Text.{take_chars}
use storm_pulse.Json.{Json, Fields, to_dict}
use storm_pulse.Protocol.Reasons.{
  FailureReason, session_closing, validation_failed, os_error, agent_overloaded, not_configured,
  collection_failed,
}
use storm_pulse.Protocol.Results.{CommandResult, failed}
use storm_pulse.Protocol.Codec.{duplicate_request}
use storm_pulse.Protocol.Envelope.{Envelope}
use storm_pulse.Protocol.Messages.{type_text, command_request}
use storm_pulse.Auth.{
  NonceStore, CommandPayload, request, sequence, Verdict, accepted, refused, malformed,
}
use storm_pulse.Commands.Spec.{CommandSpec, Mode, subprocess, job, refresh}
use storm_pulse.Commands.Params.{Checked, ok, err, validate_params}
use storm_pulse.Commands.Registry.Execution.{
  run_raised, Execution, completed, not_admitted, invalid_params, unknown_placeholder,
  execute_command,
}
use storm_pulse.Signoff.Admission.{Refusal, whitelist_rejection, refusal_for}
use storm_pulse.Jobs.Manager
use storm_pulse.Jobs.Manager.{
  Manager, Started, manager_closing, already_running, should_shed_quota, reject_quota_overloaded,
}
use storm_pulse.Dispatch.{
  Effect, send, emitted, executes, refreshes, starts_job, metrics_push, Handled, done,
  protocol_error, raised, Agent, Texts, World, Clock, Collected, not_enabled, no_state, collected,
  group_or_unknown, unknown_group, refuse_incompatible_command, verify_payload, auth_failure,
}
pub mod Effects
pub mod Served
pub mod Covered

-- A handler changes the agent's nonce store and its job manager.
abbrev pub Handling : Type 0
Handling = Agent × Handled

abbrev pub before : List Effect → Handled → Handled
before es (done fs) = done (es ++ fs)
before es (protocol_error fs e) = protocol_error (es ++ fs) e
before es (raised fs) = raised (es ++ fs)

module _ (texts : Texts) (agent : Agent) (world : World) (request_id : String) where
  abbrev failure : String → String → FailureReason → String → CommandResult
  failure command group reason message = failed request_id command group reason message none none 0

  -- `_run_subprocess_command` by how `execute_command` ends, and what `handle_command_request` sends
  abbrev pub run_result : String → Execution → Handled
  run_result command (completed r) = done (send r ∷ [])
  run_result command (not_admitted reason) =
      let message = texts.command_error_text reason command in
      done (
        emitted (whitelist_rejection (take_chars 100 command) (take_chars 100 request_id) message)
        ∷ send (failure command (group_or_unknown (Dict.get command agent.registry)) reason message)
        ∷ [])
  run_result command (invalid_params e) = done (
      send (
        failure command (group_or_unknown (Dict.get command agent.registry)) validation_failed
          (texts.params_error_text e))
      ∷ [])
  run_result command unknown_placeholder = raised []
  run_result command run_raised = raised []

  unfoldable pub run_subprocess_command : String → Fields → Handled
  unfolding execute_command failed
  run_subprocess_command command params = before (executes command ∷ []) (
      run_result command (
        execute_command world.host command request_id none world.duration_ms agent.registry
          (to_dict params)))

  -- `collect_refresh_result`
  unfoldable pub collect_refresh_result : String → String → Collected → CommandResult
  unfolding failed
  collect_refresh_result command group not_enabled =
      failure command group not_configured (texts.not_enabled_text group)
  collect_refresh_result command group (no_state ms) =
      failed request_id command group collection_failed (texts.not_collected_text group) none none
        ms
  collect_refresh_result command group (collected summary ms) = record {
    request_id = request_id;
    command = command;
    group = group;
    success = true;
    exit_code = pos 0;
    stdout = texts.refreshed_text group summary;
    stderr = "";
    duration_ms = ms;
    sequence_id = none;
    failure_reason = none;
    result = none;
    error = none;
    step_index = none;
    attempts = 1;
    retries_exhausted = false;
  }

  -- with the end of the collection, `none` where the collector raises
  abbrev pub after_collect : String → String → Option Collected → Handled
  after_collect command group none = raised (refreshes command ∷ [])
  after_collect command group (some c) =
      let r = collect_refresh_result command group c in
      done (
        refreshes command
        ∷ send r
        ∷ (if r.success && world.has_push then metrics_push ∷ [] else []))

  unfoldable pub handle_refresh : String → String → Handled
  unfolding collect_refresh_result
  handle_refresh command group = after_collect command group (world.collect group)

  -- `dispatch_long_running`, from the end
  abbrev pub with_manager : Manager → Agent
  with_manager m = record agent { job_manager = some m }

  abbrev pub after_start : String → String → Started → Handling
  after_start command group manager_closing =
      (agent, done (send (failure command group session_closing texts.session_closing_text) ∷ []))
  after_start command group already_running = (
    agent,
    protocol_error []
        (record { reason = duplicate_request; msg_type = some (type_text command_request) }),
  )
  after_start command group (Manager.accepted m) = (with_manager m, done (starts_job command ∷ []))

  abbrev pub start_job : String → String → Manager → Handling
  start_job command group m =
      if should_shed_quota command m
      then (
        with_manager (reject_quota_overloaded request_id m),
        done (send (failure command group agent_overloaded texts.overloaded_text) ∷ []),
      )
      else after_start command group (Manager.start request_id command m)

  abbrev pub has_handler : Option String → Dict String Json → Bool
  has_handler none params = false
  has_handler (some factory) params = world.factory factory params

  abbrev pub with_params : String → CommandSpec → Manager → Checked (Dict String Json) → Handling
  with_params command spec m (err e) = (
    agent,
    done (send (failure command spec.group validation_failed (texts.params_error_text e)) ∷ []),
  )
  with_params command spec m (ok params) =
      if has_handler spec.handler params then start_job command spec.group m else (
        agent,
        done (send (failure command spec.group os_error (texts.no_handler_text command)) ∷ []),
      )

  abbrev pub by_manager : String → Fields → CommandSpec → Option Manager → Handling
  by_manager command params spec none = (
    agent,
    done (send (failure command spec.group session_closing texts.session_closing_text) ∷ []),
  )
  by_manager command params spec (some m) =
      with_params command spec m
        (validate_params world.host.fullmatch world.host.dumps spec (to_dict params))

  unfoldable pub dispatch_long_running : String → Fields → CommandSpec → Handling
  unfolding validate_params failed type_text should_shed_quota reject_quota_overloaded Manager.start
  dispatch_long_running command params spec = by_manager command params spec agent.job_manager

  abbrev pub by_mode : String → Fields → CommandSpec → Mode → Handling
  by_mode command params spec refresh = (agent, handle_refresh command spec.group)
  by_mode command params spec job = dispatch_long_running command params spec
  by_mode command params spec subprocess = (agent, run_subprocess_command command params)

  abbrev pub by_entry : String → Fields → Option CommandSpec → Handling
  by_entry command params none = (agent, run_subprocess_command command params)
  by_entry command params (some spec) = by_mode command params spec spec.mode

  abbrev pub after_refusal : String → Fields → Refusal → Handling
  after_refusal command params (some r, events) = (agent, done (map emitted events ++ send r ∷ []))
  after_refusal command params (none, events) =
      let h = by_entry command params (Dict.get command agent.registry) in
      (h.0, before (map emitted events) h.1)

  abbrev pub after_session : String → Fields → Option CommandResult → Handling
  after_session command params (some r) = (agent, done (send r ∷ []))
  after_session command params none = after_refusal command params (
      refusal_for texts.words world.grants request_id request_id world.signoff agent.registry
        command)

  -- the command of a verified request
  unfoldable pub handle_request : String → Fields → Handling
  unfolding refuse_incompatible_command refusal_for handle_refresh dispatch_long_running
      run_subprocess_command
  handle_request command params =
      after_session command params
        (refuse_incompatible_command texts agent request_id (request command params))

abbrev pub after_verify : Texts → Agent → World → Envelope → NonceStore × Verdict → Handling
after_verify texts agent world e (store, refused reason) =
    (record agent { nonce_store = store }, done (auth_failure reason e))
after_verify texts agent world e (store, malformed problem) =
    (record agent { nonce_store = store }, protocol_error [] problem)
after_verify texts agent world e (store, accepted (request command params)) =
    handle_request texts (record agent { nonce_store = store }) world e.id command params
after_verify texts agent world e (store, accepted (sequence sequence_id steps stop)) =
    (record agent { nonce_store = store }, done [])

unfoldable pub handle_command_request :
    (String → String → String)
    → (Json → String)
    → Texts
    → Agent
    → World
    → Clock
    → Envelope
    → Handling
unfolding verify_payload handle_request
handle_command_request hmac_hex dumps texts agent world clock e =
    after_verify texts agent world e (verify_payload hmac_hex dumps agent clock e)
