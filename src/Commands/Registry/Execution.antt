-- ===== src/Commands/Registry/Execution.antt =====
-- The run of a command: `execute_command` of stormpulse/commands/registry.py.
use storm_pulse.Base.{
  if◌then◌else◌, ℕ, zero, suc, String, Bool, true, false, Option, none, some, List,
}
use storm_pulse.Base.Dict.{Dict}
use storm_pulse.Base.Int.{ℤ, pos, negsuc}
use storm_pulse.Json.{Json}
use storm_pulse.Protocol.Reasons.{FailureReason, exit_code, timeout, not_found, os_error}
use storm_pulse.Protocol.Results.{CommandResult, failed, code_of}
use storm_pulse.Commands.Spec.{CommandSpec}
use storm_pulse.Commands.Params.{Checked, ok, err, ParamsError, validate_params}
use storm_pulse.Commands.Registry.{Lookup, command_error, found, get_command, resolve_command}

-- How `subprocess.run` ends: an exit code with the two outputs, a timeout with what it had, or an
-- error of the operating system.
pub data Finish : Type 0 where
  exited : ℤ → String → String → Finish
  timed_out : String → String → Finish
  file_not_found : Finish
  os_failed : String → Finish

-- How `execute_command` ends: a result, a CommandError, a ParamValidationError, the ValueError of an
-- unknown placeholder, or the exception of `subprocess.run` that it does not catch.
pub data Execution : Type 0 where
  completed : CommandResult → Execution
  not_admitted : FailureReason → Execution
  invalid_params : ParamsError → Execution
  unknown_placeholder run_raised : Execution

abbrev pub is_zero : ℤ → Bool
is_zero (pos zero) = true
is_zero (pos (suc n)) = false
is_zero (negsuc n) = false

-- `CommandResultPayload(...)` with its derived error
abbrev pub outcome :
    String
    → String
    → String
    → Option String
    → ℕ
    → ℤ
    → String
    → String
    → Option FailureReason
    → Bool
    → CommandResult
outcome request_id command group sequence_id duration_ms code stdout stderr reason success =
    record {
      request_id = request_id;
      command = command;
      group = group;
      success = success;
      exit_code = code;
      stdout = stdout;
      stderr = stderr;
      duration_ms = duration_ms;
      sequence_id = sequence_id;
      failure_reason = reason;
      result = none;
      error =
          if success
          then none
          else some (record {
            code = code_of reason;
            http_status = none;
            upstream_code = none;
            message = stderr;
          });
      step_index = none;
      attempts = 1;
      retries_exhausted = false;
    }

-- the message of a timeout, and with the partial stderr
pub record Messages : Type 0 where
  pub timeout_text : ℕ → String → String
  pub not_found_text : List String → String

module _ (texts : Messages) (request_id command : String) (sequence_id : Option String)
    (duration_ms : ℕ) (group : String) where
  unfoldable pub report_finish : ℕ → List String → Finish → CommandResult
  report_finish seconds argv (exited code stdout stderr) =
      outcome request_id command group sequence_id duration_ms code stdout stderr
        (if is_zero code then none else some exit_code) (is_zero code)
  report_finish seconds argv (timed_out stdout stderr) =
      outcome request_id command group sequence_id duration_ms (negsuc 0) stdout
        (texts.timeout_text seconds stderr) (some timeout) false
  report_finish seconds argv file_not_found =
      failed request_id command group not_found (texts.not_found_text argv) sequence_id none
        duration_ms
  report_finish seconds argv (os_failed message) =
      failed request_id command group os_error message sequence_id none duration_ms

abbrev pub after_run : (Finish → CommandResult) → Option Finish → Execution
after_run report none = run_raised
after_run report (some finish) = completed (report finish)

abbrev pub after_resolve :
    (List String → ℕ → Option Finish)
    → (List String → Finish → CommandResult)
    → ℕ
    → Option (List String)
    → Execution
after_resolve run report seconds none = unknown_placeholder
after_resolve run report seconds (some argv) = after_run (report argv) (run argv seconds)

abbrev pub after_params :
    (List String → ℕ → Option Finish)
    → (List String → Finish → CommandResult)
    → ℕ
    → (Dict String Json → Option (List String))
    → Checked (Dict String Json)
    → Execution
after_params run report seconds resolve (err e) = invalid_params e
after_params run report seconds resolve (ok params) =
    after_resolve run report seconds (resolve params)

abbrev pub after_lookup : (CommandSpec → Execution) → Lookup → Execution
after_lookup f (command_error reason) = not_admitted reason
after_lookup f (found spec) = f spec

-- What `execute_command` takes from outside: `re.fullmatch`, the canonical text, the answers of
-- grants, `str.format_map` over the project's config and the params, `subprocess.run`, and texts.
-- A run is `none` where it raises ValueError (a NUL in an argument) or UnicodeDecodeError.
pub record Host : Type 0 where
  pub fullmatch : String → String → Bool
  pub dumps : Json → String
  pub grants : String → Option String
  pub format : Dict String Json → String → Option String
  pub run : List String → ℕ → Option Finish
  pub texts : Messages

-- from the entry found to the end
unfoldable pub execute_spec :
    Host → String → String → Option String → ℕ → Dict String Json → CommandSpec → Execution
unfolding validate_params resolve_command report_finish
execute_spec host name request_id sequence_id duration_ms runtime_params spec =
    after_params host.run
      (report_finish host.texts request_id name sequence_id duration_ms spec.group spec.timeout)
      spec.timeout (λ params. resolve_command (host.format params) spec.command)
      (validate_params host.fullmatch host.dumps spec runtime_params)

unfoldable pub execute_command :
    Host
    → String
    → String
    → Option String
    → ℕ
    → Dict String CommandSpec
    → Dict String Json
    → Execution
unfolding get_command execute_spec
execute_command host name request_id sequence_id duration_ms registry runtime_params =
    after_lookup (execute_spec host name request_id sequence_id duration_ms runtime_params)
      (get_command host.grants name registry)
