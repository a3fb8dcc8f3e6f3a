-- ===== src/Commands/Params.antt =====
-- The validation of runtime params (stormpulse/commands/registry.py). `dumps` is the text of
-- `canonical_json` (stormpulse/sdk/declaration.py).
use storm_pulse.Base.{
  ltb, if◌then◌else◌, nat_eq, string_eq, pair_eq, keep_if, ℕ, String, Bool, false, not, Option,
  none, some, List, [], ◌∷◌,
}
use storm_pulse.Base.Dict
use storm_pulse.Base.Dict.{Dict}
use storm_pulse.Base.Text.{utf8_length}
use storm_pulse.Json.{Json, str}
use storm_pulse.Commands.Schema.{Shape, Violation, schema_violation}
use storm_pulse.Commands.Spec.{ParamDef, CommandSpec}
pub mod Valid
pub mod Withheld

-- Why a value fails. A pattern miss shows the value; `none` is the form that withholds a secret. A
-- schema miss tells of the violation; `none` withholds it.
pub data Problem : Type 0 where
  not_a_string : Problem
  no_match : Option Json → Problem
  too_large : ℕ → ℕ → Problem
  no_fit : Option Violation → Problem

pub data ParamsError : Type 0 where
  unknown_params : List String → ParamsError
  bad_param : String → Problem → ParamsError

pub data Checked {ℓ} (A : Type ℓ) : Type ℓ where
  ok : A → Checked A
  err : ParamsError → Checked A

abbrev pub or_else : Option Problem → Option Problem → Option Problem
or_else (some p) q = some p
or_else none q = q

abbrev pub shown : Bool → Json → Option Json
shown secret value = if secret then none else some value

abbrev pub string_problem : Option Shape → Json → Option Problem
string_problem none (str s) = none
string_problem none value = some not_a_string
string_problem (some shape) value = none

abbrev pub cap_problem : Option ℕ → ℕ → Option Problem
cap_problem none size = none
cap_problem (some limit) size = if ltb limit size then some (too_large size limit) else none

abbrev pub fit_problem : Bool → Option Violation → Option Problem
fit_problem secret none = none
fit_problem secret (some v) = some (no_fit (if secret then none else some v))

-- set(runtime_params) - set(cmd_def.params), in the order given
unfoldable pub unknown_names : Dict String ParamDef → Dict String Json → List String
unknown_names params [] = []
unknown_names params ((name, v) ∷ runtime) =
    if Dict.has name params
    then unknown_names params runtime
    else name ∷ unknown_names params runtime

-- the value of one param: given, else the default, else none
abbrev pub chosen : Option Json → Option Json → Option Json
chosen (some v) default = some v
chosen none default = default

abbrev pub prepend : String → Json → Checked (Dict String Json) → Checked (Dict String Json)
prepend name value (ok merged) = ok ((name, value) ∷ merged)
prepend name value (err e) = err e

abbrev pub merge_one :
    String
    → Option Json
    → (Json → Option Problem)
    → Checked (Dict String Json)
    → Checked (Dict String Json)
merge_one name none problem rest = rest
merge_one name (some value) problem rest = elim (problem value) [
  | none ↦ prepend name value rest
  | some p ↦ err (bad_param name p)
]

module _ (fullmatch : String → String → Bool) (dumps : Json → String) where
  abbrev pub pattern_problem : ParamDef → Option String → Json → Option Problem
  pattern_problem pdef none value = none
  pattern_problem pdef (some pattern) (str s) =
      if fullmatch pattern s then none else some (no_match (shown pdef.secret (str s)))
  pattern_problem pdef (some pattern) value = none

  -- A pattern stands only beside no schema (`ParamDef` refuses the pair), so it meets a string.
  unfoldable pub shape_problem : ParamDef → Json → Option Problem
  shape_problem pdef value =
      or_else (string_problem pdef.schema value) (pattern_problem pdef pdef.pattern value)

  abbrev pub byte_size : Json → ℕ
  byte_size (str s) = utf8_length s
  byte_size value = utf8_length (dumps value)

  abbrev pub schema_problem : Bool → Option Shape → Json → Option Problem
  schema_problem secret none value = none
  schema_problem secret (some shape) value =
      fit_problem secret (schema_violation fullmatch shape value [])

  unfoldable pub size_problem : ParamDef → Json → Option Problem
  size_problem pdef value =
      or_else (cap_problem pdef.max_bytes (byte_size value))
        (schema_problem pdef.secret pdef.schema value)

  unfoldable pub param_problem : ParamDef → Json → Option Problem
  unfolding shape_problem size_problem
  param_problem pdef value = or_else (shape_problem pdef value) (size_problem pdef value)

  -- the loop over cmd_def.params; the names are those of a dict, so each is merged once
  unfoldable pub merge_params : Dict String ParamDef → Dict String Json → Checked (Dict String Json)
  merge_params [] runtime = ok []
  merge_params ((name, pdef) ∷ params) runtime =
      let rest = merge_params params runtime in
      merge_one name (chosen (Dict.get name runtime) pdef.default) (param_problem pdef) rest

  -- Keys are strings by the type of a JSON object.
  unfoldable pub validate_params : CommandSpec → Dict String Json → Checked (Dict String Json)
  unfolding unknown_names merge_params param_problem
  validate_params spec runtime = elim (unknown_names spec.params runtime) [
    | [] ↦ merge_params spec.params runtime
    | n ∷ ns ↦ err (unknown_params (n ∷ ns))
  ]

abbrev pub is_secret : Option ParamDef → Bool
is_secret none = false
is_secret (some p) = p.secret

unfoldable pub non_secret_params : CommandSpec → Dict String Json → Dict String Json
non_secret_params spec params =
    keep_if (λ item. not (is_secret (Dict.get item.0 spec.params))) params
