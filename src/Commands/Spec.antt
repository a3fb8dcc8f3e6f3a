-- ===== src/Commands/Spec.antt =====
-- `ParamDef` and `CommandSpec` of stormpulse/config/commands.py. A handler and a grant's `authorize`
-- are names of callbacks: what they answer is an argument of the functions that call them.
use storm_pulse.Base.{
  leb, if◌then◌else◌, ℕ, String, Bool, true, false, not, ◌&&◌, ◌||◌, Option, none, some, List, [],
  ◌∷◌,
}
use storm_pulse.Base.Dict.{Dict}
use storm_pulse.Base.Text.{is_absolute}
use storm_pulse.Json.{Json, str}
use storm_pulse.Commands.Schema.{Shape, Violation, schema_violation}

pub record ParamDef : Type 0 where
  pub placeholder : String
  pub default : Option Json
  pub pattern : Option String
  pub max_bytes : Option ℕ
  pub secret : Bool
  pub schema : Option Shape

abbrev pub is_some {ℓ} : {A : Type ℓ} → Option A → Bool
is_some none = false
is_some (some a) = true

abbrev is_string_value : Option Json → Bool
is_string_value none = true
is_string_value (some (str s)) = true
is_string_value (some v) = false

abbrev fits_default : (Json → Option Violation) → Option Json → Bool
fits_default f none = true
fits_default f (some v) = not (is_some (f v))

abbrev default_ok : (String → String → Bool) → Option Shape → Option Json → Bool
default_ok fullmatch none d = is_string_value d
default_ok fullmatch (some shape) d = fits_default (λ v. schema_violation fullmatch shape v []) d

-- `ParamDef.__post_init__`: false is the ValueError. `credential_shaped` is the search for
-- secret|password|token|passphrase in the placeholder.
unfoldable pub param_ok : (String → String → Bool) → (String → Bool) → ParamDef → Bool
param_ok fullmatch credential_shaped p =
    (is_some p.pattern || is_some p.max_bytes)
    && (not (is_some p.schema) || (not (is_some p.pattern) && is_some p.max_bytes))
    && (p.secret || not (credential_shaped p.placeholder))
    && default_ok fullmatch p.schema p.default

pub data Mode : Type 0 where
  subprocess job refresh : Mode

pub record CommandSpec : Type 0 where
  pub group : String
  pub command : List String
  pub timeout : ℕ
  pub mode : Mode
  pub sensitive_output : Bool
  pub read_only : Bool
  pub self_reconciling : Bool
  pub handler : Option String
  pub params : Dict String ParamDef
  pub result : Bool
  pub retry_window_s : Option ℕ
  pub authorize : Option String

abbrev pub is_job : Mode → Bool
is_job job = true
is_job m = false

abbrev pub is_subprocess : Mode → Bool
is_subprocess subprocess = true
is_subprocess m = false

abbrev pub retry_window_max_s : ℕ
retry_window_max_s = 600

abbrev window_ok : Mode → Option ℕ → Bool
window_ok m none = true
window_ok m (some w) = is_job m && leb 1 w && leb w retry_window_max_s

abbrev pub first_absolute : List String → Bool
first_absolute [] = false
first_absolute (a ∷ argv) = is_absolute a

-- `CommandSpec.__post_init__`: false is the ValueError. The field `result` says whether a result
-- dataclass is declared.
unfoldable pub spec_ok : CommandSpec → Bool
spec_ok s =
    (if is_job s.mode then is_some s.handler else not (is_some s.handler))
    && window_ok s.mode s.retry_window_s
    && (not s.result || is_job s.mode)
    && (not (is_subprocess s.mode) || first_absolute s.command)
