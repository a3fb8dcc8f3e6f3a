-- ===== src/Commands/Registry.antt =====
-- The registry of stormpulse/commands/registry.py: what is whitelisted, and how a template becomes
-- argv.
use storm_pulse.Base.{
  if◌then◌else◌, ◌==◌, string_eq, pair_eq, nat_eq, keep_if, elem, ℕ, String, Bool, false, not, ◌&&◌,
  Option, none, some, List, [], ◌∷◌,
}
use storm_pulse.Base.Dict
use storm_pulse.Base.Dict.{Dict}
use storm_pulse.Base.Int.{ℤ, pos, negsuc}
use storm_pulse.Base.Text.{is_flag}
use storm_pulse.Json.{Json, str}
use storm_pulse.Protocol.Reasons.{
  FailureReason, unknown_command, forbidden, exit_code, timeout, not_found, os_error,
}
use storm_pulse.Protocol.Results.{CommandResult, ResultError, failed, post_init, code_of}
use storm_pulse.Commands.Spec.{ParamDef, CommandSpec, Mode, subprocess}
use storm_pulse.Commands.Params.{Checked, ok, err, ParamsError, validate_params}
pub mod Whitelist
pub mod Execution
pub mod Runs

abbrev pub verify_block_command : String
verify_block_command = "run_verify_block"

abbrev pub apply_block_command : String
apply_block_command = "run_apply_block"

abbrev pub sealed_commands : List String
sealed_commands = verify_block_command ∷ apply_block_command ∷ []

abbrev param : String → Option Json → Option String → Option ℕ → ParamDef
param placeholder default pattern max_bytes = record {
  placeholder = placeholder;
  default = default;
  pattern = pattern;
  max_bytes = max_bytes;
  secret = false;
  schema = none;
}

abbrev builtin : String → List String → ℕ → Dict String ParamDef → CommandSpec
builtin group command seconds params = record {
  group = group;
  command = command;
  timeout = seconds;
  mode = subprocess;
  sensitive_output = false;
  read_only = false;
  self_reconciling = false;
  handler = none;
  params = params;
  result = false;
  retry_window_s = none;
  authorize = none;
}

-- COMMAND_REGISTRY
abbrev pub command_registry : Dict String CommandSpec
command_registry =
    ("git_pull", builtin "deploy" ("/usr/bin/git" ∷ "-C" ∷ "{project_dir}" ∷ "pull" ∷ []) 60 [])
    ∷ (
      "docker_logs",
      builtin "diagnostics"
          ("/usr/bin/docker" ∷ "compose" ∷ "--env-file" ∷ "{env_file}" ∷ "-f" ∷ "{compose_file}"
            ∷ "logs" ∷ "--tail" ∷ "{tail_lines}" ∷ "{docker_service_name}" ∷ [])
          30
          (("docker_service_name", param "docker_service_name" none (some "[a-zA-Z0-9_-]+") none)
            ∷ ("tail_lines", param "tail_lines" (some (str "100")) (some "[0-9]{1,5}") none)
            ∷ []),
    )
    ∷ (
      verify_block_command,
      builtin "signoff" ("/bin/bash" ∷ "-c" ∷ "{verify_command}" ∷ []) 30
          (("verify_command", param "verify_command" none none (some 4096)) ∷ []),
    )
    ∷ (
      apply_block_command,
      builtin "signoff" ("/bin/bash" ∷ "-c" ∷ "{apply_command}" ∷ []) 600
          (("apply_command", param "apply_command" none none (some 16384)) ∷ []),
    )
    ∷ []

-- {**a, **b}
unfoldable pub update : Dict String CommandSpec → Dict String CommandSpec → Dict String CommandSpec
update a [] = a
update a ((k, v) ∷ b) = update (Dict.put k v a) b

abbrev pub auto_disabled : Bool → List String
auto_disabled sealed = if sealed then sealed_commands else []

abbrev pub allowed : List String → Bool → String → Bool
allowed disabled sealed k = not (elem k disabled) && not (elem k (auto_disabled sealed))

unfoldable pub build_registry :
    Dict String CommandSpec → List String → Bool → Dict String CommandSpec
unfolding update
build_registry config_commands disabled signoff_sealed =
    keep_if (λ item. allowed disabled signoff_sealed item.0)
      (update command_registry config_commands)

-- A CommandError, by its reason.
pub data Lookup : Type 0 where
  found : CommandSpec → Lookup
  command_error : FailureReason → Lookup

-- What the grant of a command answers, for one that has one: none admits it.
abbrev pub refusal_by : (String → Option String) → Option String → Option String
refusal_by grants none = none
refusal_by grants (some grant) = grants grant

abbrev pub by_grant : CommandSpec → Option String → Lookup
by_grant spec none = found spec
by_grant spec (some why) = command_error forbidden

abbrev pub by_mode : (String → Option String) → CommandSpec → Mode → Lookup
by_mode grants spec subprocess = by_grant spec (refusal_by grants spec.authorize)
by_mode grants spec m = command_error forbidden

abbrev pub by_entry : (String → Option String) → Option CommandSpec → Lookup
by_entry grants none = command_error unknown_command
by_entry grants (some spec) = by_mode grants spec spec.mode

unfoldable pub get_command : (String → Option String) → String → Dict String CommandSpec → Lookup
get_command grants name registry = by_entry grants (Dict.get name registry)

-- The second loop of `_resolve_command`: a flag goes together with its empty value.
unfoldable pub strip_empty : List String → List String
strip_empty [] = []
strip_empty (a ∷ []) = a ∷ []
strip_empty (a ∷ b ∷ argv) =
    let dropped = strip_empty argv in
    let kept = a ∷ strip_empty (b ∷ argv) in if is_flag a && b == "" then dropped else kept

-- The first loop: `format part replacements` is `str.format_map`, `none` its KeyError.
unfoldable pub format_all : (String → Option String) → List String → Option (List String)
format_all format [] = some []
format_all format (part ∷ template) = elim (format part) [
  | none ↦ none
  | some a ↦ elim (format_all format template) [ none ↦ none | some argv ↦ some (a ∷ argv) ]
]

unfoldable pub resolve_command : (String → Option String) → List String → Option (List String)
unfolding format_all strip_empty
resolve_command format template = elim (format_all format template) [
  | none ↦ none
  | some argv ↦ some (strip_empty argv)
]
