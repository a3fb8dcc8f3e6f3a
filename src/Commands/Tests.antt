-- ===== src/Commands/Tests.antt =====
-- Commands of stormpulse/commands and stormpulse/config on a concrete registry and a concrete host.
use storm_pulse.Base.{
  leb, if◌then◌else◌, ◌==◌, string_eq, pair_eq, nat_eq, length, elem, ℕ, String, ◌≡◌, refl, ◌↔◌,
  Bool, true, false, not, ◌&&◌, ◌||◌, Option, none, some, [], ◌∷◌,
}
use storm_pulse.Base.Dict
use storm_pulse.Base.Dict.{Dict}
use storm_pulse.Base.Int.{pos}
use storm_pulse.Base.Text.{all_chars}
use storm_pulse.Json.{Json, int, obj, str, arr, nil, cons, end, field}
use storm_pulse.Commands.Schema.{
  Shape, object, array, integer, no_keys, key, no_entries, schema_violation,
}
use storm_pulse.Commands.Schema.Fits.{Fits}
use storm_pulse.Commands.Schema.Complete.{schema_violation_iff}
use storm_pulse.Commands.Spec.{subprocess, ParamDef, CommandSpec}
use storm_pulse.Commands.Params.{
  no_match, ok, validate_params, unknown_names, merge_params, param_problem, shape_problem,
  size_problem,
}
use storm_pulse.Commands.Params.Valid.{IsValidated, validate_params-IsValidated}
use storm_pulse.Commands.Params.Withheld.{Withheld, param_problem-Withheld}
use storm_pulse.Protocol.Results.{CommandResult}
use storm_pulse.Commands.Registry.{
  command_registry, build_registry, sealed_commands, apply_block_command, get_command, strip_empty,
  resolve_command, format_all,
}
use storm_pulse.Commands.Registry.Execution.{
  exited, Host, Messages, execute_command, execute_spec, completed, report_finish,
}
use storm_pulse.Commands.Registry.Whitelist.{or_else, get-build_registry}
use storm_pulse.Commands.Registry.Runs.{IsRun, execute_command-IsRun}

abbrev is_digit : ℕ → Bool
is_digit c = leb b'0' c && leb c b'9'

-- every pattern stands for one or more digits
abbrev fullmatch : String → String → Bool
fullmatch pattern s = not (s == "") && all_chars is_digit s

abbrev dumps : Json → String
dumps v = "[]"

abbrev port_shape : Shape
port_shape =
    object false
      (key "ports" (array false (integer false (some (pos 1)) (some (pos 65535))) (some (pos 3)))
        no_keys)
      ("ports" ∷ []) no_entries

abbrev ports : Json
ports = obj (field "ports" (arr (cons (int (pos 80)) (cons (int (pos 443)) nil))) end)

abbrev tail_param : ParamDef
tail_param = record {
  placeholder = "tail";
  default = some (str "100");
  pattern = some "[0-9]{1,5}";
  max_bytes = none;
  secret = false;
  schema = none;
}

abbrev pin_param : ParamDef
pin_param = record {
  placeholder = "pin";
  default = none;
  pattern = some "[0-9]{4}";
  max_bytes = some 4;
  secret = true;
  schema = none;
}

abbrev logs : CommandSpec
logs = record {
  group = "diagnostics";
  command = "/bin/logs" ∷ "--env-file" ∷ "{env_file}" ∷ "{tail}" ∷ [];
  timeout = 30;
  mode = subprocess;
  sensitive_output = false;
  read_only = true;
  self_reconciling = false;
  handler = none;
  params = ("tail", tail_param) ∷ ("pin", pin_param) ∷ [];
  result = false;
  retry_window_s = none;
  authorize = none;
}

abbrev given : Dict String Json
given = ("pin", str "1234") ∷ []

validates :
    validate_params fullmatch dumps logs given ≡ ok (("tail", str "100") ∷ ("pin", str "1234") ∷ [])
unfolding validate_params unknown_names merge_params param_problem shape_problem size_problem
    Dict.has Dict.get
validates = refl

validate_params-IsValidated_example :
    IsValidated fullmatch dumps logs given (("tail", str "100") ∷ ("pin", str "1234") ∷ [])
validate_params-IsValidated_example =
    validate_params-IsValidated fullmatch dumps logs given
      (("tail", str "100") ∷ ("pin", str "1234") ∷ []) (unfold Dict.has in (refl, (refl, tt)))
      validates

param_problem-Withheld_example : Withheld (no_match none)
param_problem-Withheld_example =
    param_problem-Withheld fullmatch dumps pin_param refl (str "12x4") (no_match none)
      (unfold param_problem shape_problem size_problem in refl)

-- a config that names a shell hatch of its own
abbrev config : Dict String CommandSpec
config = (apply_block_command, logs) ∷ ("logs", logs) ∷ []

get-build_registry_example : Dict.get apply_block_command (build_registry config [] true) ≡ (
    if elem apply_block_command [] || (true && elem apply_block_command sealed_commands)
    then none
    else or_else
        (Dict.get apply_block_command config)
        (Dict.get apply_block_command command_registry))
get-build_registry_example =
    get-build_registry config [] true apply_block_command (unfold Dict.has in (refl, (refl, tt)))

abbrev grants : String → Option String
grants name = none

abbrev texts : Messages
texts = record { timeout_text = λ seconds errs. errs; not_found_text = λ argv. "Binary not found" }

-- str.format_map for the placeholders of `logs`
abbrev format : Dict String Json → String → Option String
format params part =
    if part == "{env_file}" then some "" else if part == "{tail}" then some "100" else some part

abbrev host : Host
host = record {
  fullmatch = fullmatch;
  dumps = dumps;
  grants = grants;
  format = format;
  run = λ argv seconds.
      some (if length argv == 2 then exited (pos 0) "lines" "" else exited (pos 1) "" "usage");
  texts = texts;
}

abbrev report : CommandResult
report = record {
  request_id = "r1";
  command = "logs";
  group = "diagnostics";
  success = true;
  exit_code = pos 0;
  stdout = "lines";
  stderr = "";
  duration_ms = 12;
  sequence_id = none;
  failure_reason = none;
  result = none;
  error = none;
  step_index = none;
  attempts = 1;
  retries_exhausted = false;
}

runs : execute_command host "logs" "r1" none 12 config given ≡ completed report
unfolding execute_command execute_spec get_command validate_params unknown_names merge_params
    param_problem shape_problem size_problem resolve_command format_all strip_empty report_finish
    Dict.has Dict.get
runs = refl

execute_command-IsRun_example : IsRun host "logs" config given report
execute_command-IsRun_example =
    execute_command-IsRun host "logs" "r1" none 12 config given report runs

schema_violation_iff_example :
    (schema_violation fullmatch port_shape ports [] ≡ none) ↔ Fits fullmatch port_shape ports
schema_violation_iff_example = schema_violation_iff fullmatch port_shape ports []
