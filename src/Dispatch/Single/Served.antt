-- ===== src/Dispatch/Single/Served.antt =====
-- How one command is served (stormpulse/agent/dispatch.py), from its admission to its answer.
use storm_pulse.Base.{
  if◌then◌else◌, string_eq, pair_eq, nat_eq, String, ◌≡◌, refl, Bool, true, false, Option, none,
  some, [], ◌∷◌, arith,
}
use storm_pulse.Base.Dict
use storm_pulse.Base.Dict.{Dict}
use storm_pulse.Json.{Json, Fields}
use storm_pulse.Protocol.Results.{CommandResult}
use storm_pulse.Auth.{CommandPayload, request}
use storm_pulse.Commands.Spec.{CommandSpec, Mode, subprocess, job, refresh}
use storm_pulse.Commands.Params.{Checked, ok, err}
use storm_pulse.Commands.Registry.Execution.{
  run_raised, Execution, completed, not_admitted, invalid_params, unknown_placeholder,
}
use storm_pulse.Signoff.Admission.{Refusal}
use storm_pulse.Signoff.Admission.Gate.{IsAdmitted, refusal_for-IsAdmitted}
use storm_pulse.Jobs.Manager
use storm_pulse.Jobs.Manager.{Manager, Started, manager_closing, already_running}
use storm_pulse.Dispatch.Single.{after_collect}
use storm_pulse.Dispatch.{
  Collected, refuse_by, send, executes, refreshes, metrics_push, done, Agent, Session, Texts, World,
  refuse_incompatible_command,
}
use storm_pulse.Dispatch.Single.{
  should_shed_quota, has_handler, with_params, by_manager, collect_refresh_result, after_start,
  Handling, before, run_result, run_subprocess_command, handle_refresh, dispatch_long_running,
  by_mode, by_entry, after_refusal, after_session, handle_request,
}
use storm_pulse.Dispatch.Single.Effects.{IsCompatible, IsServed, emitted-IsServed}

module _ {ℓ} (P : String → Type ℓ) (texts : Texts) (agent : Agent) (world : World)
    (request_id command : String) (holds : P command) where
  pushed_or_not :
      (r : CommandResult) (pushes : Bool)
      → IsServed P (done (refreshes command ∷ send r ∷ (if pushes then metrics_push ∷ [] else [])))
  pushed_or_not r true = ((holds, (tt, (tt, tt))), refl)
  pushed_or_not r false = ((holds, (tt, tt)), refl)

  run_result-IsServed :
      (x : Execution)
      → IsServed P
          (before (executes command ∷ []) (run_result texts agent world request_id command x))
  run_result-IsServed (completed r) = ((holds, (tt, tt)), refl)
  run_result-IsServed (not_admitted why) = ((holds, (tt, (tt, tt))), refl)
  run_result-IsServed (invalid_params e) = ((holds, (tt, tt)), refl)
  run_result-IsServed unknown_placeholder = ((holds, tt), refl)
  run_result-IsServed run_raised = ((holds, tt), refl)

  run-IsServed :
      (params : Fields)
      → IsServed P (run_subprocess_command texts agent world request_id command params)
  unfolding run_subprocess_command
  run-IsServed params = run_result-IsServed _

  collect-IsServed :
      (group : String) (o : Option Collected)
      → IsServed P (after_collect texts agent world request_id command group o)
  unfolding collect_refresh_result
  collect-IsServed group none = ((holds, tt), refl)
  collect-IsServed group (some c) =
      pushed_or_not (collect_refresh_result texts agent world request_id command group c) _

  refresh-IsServed :
      (group : String) → IsServed P (handle_refresh texts agent world request_id command group)
  unfolding handle_refresh
  refresh-IsServed group = collect-IsServed group (world.collect group)

  start_job-IsServed :
      (group : String) (s : Started)
      → IsServed P (after_start texts agent world request_id command group s).1
  start_job-IsServed group manager_closing = ((tt, tt), refl)
  start_job-IsServed group already_running = (tt, refl)
  start_job-IsServed group (Manager.accepted m) = ((holds, tt), refl)

  -- a test between what is served and a refusal
  test-IsServed :
      (b : Bool) (h k : Handling)
      → IsServed P h.1
      → IsServed P k.1
      → IsServed P (if b then h else k).1
  test-IsServed true h k p q = p
  test-IsServed false h k p q = q

  with_params-IsServed :
      (spec : CommandSpec) (m : Manager) (c : Checked (Dict String Json))
      → IsServed P (with_params texts agent world request_id command spec m c).1
  with_params-IsServed spec m (err e) = ((tt, tt), refl)
  with_params-IsServed spec m (ok params) =
      test-IsServed (has_handler texts agent world request_id spec.handler params) _ _
        (test-IsServed (should_shed_quota command m) (_, _) _ ((tt, tt), refl)
          (start_job-IsServed spec.group (Manager.start request_id command m)))
        ((tt, tt), refl)

  by_manager-IsServed :
      (params : Fields) (spec : CommandSpec) (o : Option Manager)
      → IsServed P (by_manager texts agent world request_id command params spec o).1
  by_manager-IsServed params spec none = ((tt, tt), refl)
  by_manager-IsServed params spec (some m) = with_params-IsServed spec m _

  by_mode-IsServed :
      (params : Fields) (spec : CommandSpec) (mode : Mode)
      → IsServed P (by_mode texts agent world request_id command params spec mode).1
  unfolding dispatch_long_running
  by_mode-IsServed params spec subprocess = run-IsServed params
  by_mode-IsServed params spec refresh = refresh-IsServed spec.group
  by_mode-IsServed params spec job = by_manager-IsServed params spec agent.job_manager

  by_entry-IsServed :
      (params : Fields) (o : Option CommandSpec)
      → IsServed P (by_entry texts agent world request_id command params o).1
  by_entry-IsServed params none = run-IsServed params
  by_entry-IsServed params (some spec) = by_mode-IsServed params spec spec.mode

module _ {ℓ} (P : String → Type ℓ) (texts : Texts) (agent : Agent) (world : World)
    (request_id command : String) (params : Fields) where
  after_refusal-IsServed :
      (r : Refusal)
      → (r.0 ≡ none → P command)
      → IsServed P (after_refusal texts agent world request_id command params r).1
  after_refusal-IsServed (some r, events) holds =
      emitted-IsServed P events (done (send r ∷ [])) ((tt, tt), refl)
  after_refusal-IsServed (none, events) holds = emitted-IsServed P events _ (
      by_entry-IsServed P texts agent world request_id command (holds refl) params
        (Dict.get command agent.registry))

  after_session-IsServed :
      (o : Option CommandResult)
      → (o ≡ none → IsAdmitted world.grants world.signoff agent.registry command → P command)
      → IsServed P (after_session texts agent world request_id command params o).1
  after_session-IsServed (some r) holds = ((tt, tt), refl)
  after_session-IsServed none holds = after_refusal-IsServed _ (λ h. holds refl (
      (refusal_for-IsAdmitted texts.words world.grants request_id request_id world.signoff
          agent.registry command).0
        h))

pub refuse_by-IsCompatible :
    (texts : Texts) (agent : Agent) (request_id : String) (p : CommandPayload) (o : Option Session)
    → refuse_by texts agent request_id p o ≡ none
    → IsCompatible o
refuse_by-IsCompatible texts agent request_id p none h = absurd (ground (arith, h))
refuse_by-IsCompatible texts agent request_id p (some s) h = ground (arith, h)

-- What a command has passed before it is executed, refreshed or accepted.
pub record IsCleared (agent : Agent) (world : World) (command : String) : Type 0 where
  pub compatible : IsCompatible agent.session
  pub admitted : IsAdmitted world.grants world.signoff agent.registry command

pub handle_request-IsServed :
    (texts : Texts) (agent : Agent) (world : World) (request_id command : String) (params : Fields)
    → IsServed
        (λ c. (c ≡ command) × IsCleared agent world c)
        (handle_request texts agent world request_id command params).1
unfolding handle_request refuse_incompatible_command
handle_request-IsServed texts agent world request_id command params =
    after_session-IsServed (λ c. (c ≡ command) × IsCleared agent world c) texts agent world
      request_id command params
      (refuse_incompatible_command texts agent request_id (request command params))
      (λ h admitted. (
        refl,
        record {
          compatible =
              refuse_by-IsCompatible texts agent request_id (request command params) agent.session
                h;
          admitted = admitted;
        },
      ))
