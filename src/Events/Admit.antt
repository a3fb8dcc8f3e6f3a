-- ===== src/Events/Admit.antt =====
-- The registries of declared events and the way into the buffer (stormpulse/events.py). A set of field
-- names is a list of them. `text_of` is Python's `str` of a value that is no text.
use storm_pulse.Base.{
  if◌then◌else◌, ◌==◌, string_eq, pair_eq, nat_eq, any, elem, ℕ, zero, String, Bool, true, false,
  not, ◌||◌, Option, none, some, List, [], ◌∷◌, ◌++◌,
}
use storm_pulse.Base.Dict
use storm_pulse.Base.Dict.{Dict}
use storm_pulse.Base.Int.{ℤ, pos, negsuc}
use storm_pulse.Base.Text.{take_chars}
use storm_pulse.Json.{Json, null, bool, int, float, str, arr, obj, nil, end}
use storm_pulse.Events.Buffer.{Event, EventBuffer, append, refuse}
pub mod Declared
pub mod Sources
mod Tests

abbrev pub max_error_chars : ℕ
max_error_chars = 500

abbrev pub capped_fields : List String
capped_fields = "error" ∷ "reason" ∷ []

abbrev pub Registry : Type 0
Registry = Dict (String × String) (List String)

-- _REGISTRY, _INTEGRATION_REGISTRY and _SPOOL_DIRS
pub record Registries : Type 0 where
  pub builtin : Registry
  pub integration : Registry
  pub spool_dirs : Dict String String

pub record EventSource : Type 0 where
  pub name : String
  pub kinds : Dict String (List String)
  pub spool_dir : String

abbrev pub or_empty : Option (List String) → List String
or_empty none = []
or_empty (some fields) = fields

unfoldable pub declare_event : Registries → String → String → List String → Registries
declare_event r source kind fields = record r {
  builtin =
      Dict.put (source, kind) (or_empty (Dict.get (source, kind) r.builtin) ++ fields) r.builtin;
}

abbrev pub taken : String → Registry → Bool
taken name d = any (λ item. item.0.0 == name) d

unfoldable pub put_kinds : String → Dict String (List String) → Registry → Registry
put_kinds name [] d = d
put_kinds name ((kind, fields) ∷ kinds) d = put_kinds name kinds (Dict.put (name, kind) fields d)

-- `none` is the ValueError.
unfoldable pub declare_integration_source : Registries → EventSource → Option Registries
unfolding put_kinds
declare_integration_source r source =
    if taken source.name r.builtin || taken source.name r.integration
    then none
    else if Dict.has source.spool_dir r.spool_dirs
    then none
    else some (record {
      builtin = r.builtin;
      integration = put_kinds source.name source.kinds r.integration;
      spool_dirs = Dict.put source.spool_dir source.name r.spool_dirs;
    })

abbrev pub or_else : Option (List String) → Option (List String) → Option (List String)
or_else (some fields) rest = some fields
or_else none rest = rest

unfoldable pub declared : Registries → String × String → Option (List String)
declared r key = or_else (Dict.get key r.builtin) (Dict.get key r.integration)

-- value is None or value == ""
abbrev pub is_elided : Json → Bool
is_elided null = true
is_elided (str s) = s == ""
is_elided v = false

abbrev pub update : Event → Event → Event
update event [] = event
update event ((k, v) ∷ d) = update (Dict.put k v event) d

-- the truth of a value; a float by its repr
abbrev pub is_truthy : Json → Bool
is_truthy null = false
is_truthy (bool b) = b
is_truthy (int (pos zero)) = false
is_truthy (int n) = true
is_truthy (float x) = not (x == "0.0" || x == "-0.0")
is_truthy (str s) = not (s == "")
is_truthy (arr nil) = false
is_truthy (arr xs) = true
is_truthy (obj end) = false
is_truthy (obj fs) = true

abbrev pub str_of : Option Json → String
str_of (some (str s)) = s
str_of v = ""

abbrev pub with_first : String → Json → Option Event → Option Event
with_first name value none = none
with_first name value (some kept) = some ((name, value) ∷ kept)

-- fields.pop("command_ref", "") or command_ref_var.get()
abbrev pub ref_or : Option Json → String → Json
ref_or none ref = str ref
ref_or (some v) ref = if is_truthy v then v else str ref

abbrev pub put_truthy : String → Json → Event → Event
put_truthy key v event = if is_truthy v then Dict.put key v event else event

module _ (text_of : Json → String) where
  abbrev pub text : Json → String
  text (str s) = s
  text v = text_of v

  abbrev pub capped : String → Json → Json
  capped name v = if elem name capped_fields then str (take_chars max_error_chars (text v)) else v

  -- the loop of `admit`; the names are those of a dict
  unfoldable pub keep_declared : List String → Event → Option Event
  keep_declared names [] = some []
  keep_declared names ((name, v) ∷ fields) =
      let rest = keep_declared names fields in
      if is_elided v
      then rest
      else if elem name names
      then with_first name (capped name v) rest
      else none

  abbrev pub admit_as : Option (List String) → Event → Event → Option Event
  admit_as none event fields = none
  admit_as (some names) event fields = elim (keep_declared names fields) [
    | none ↦ none
    | some kept ↦ some (update event kept)
  ]

  -- `none` is False. Both callers set the source and the kind, which are texts.
  unfoldable pub admit : Registries → Event → Event → Option Event
  unfolding declared keep_declared
  admit r event fields =
      admit_as (declared r (str_of (Dict.get "source" event), str_of (Dict.get "kind" event))) event
        fields

  -- the event as `emit` starts it, before its fields
  unfoldable pub envelope : String → String → String → String → String → Event → Event
  envelope now trigger ref source kind fields =
      put_truthy "command_ref" (ref_or (Dict.get "command_ref" fields) ref) (
        put_truthy "trigger" (str trigger)
          (("ts", str now) ∷ ("source", str source) ∷ ("kind", str kind) ∷ []))

  abbrev pub append_or_refuse : EventBuffer → Option Event → EventBuffer
  append_or_refuse b none = refuse b
  append_or_refuse b (some event) = append b event

  -- `now`, `trigger` and `ref` are the clock and the two context variables.
  unfoldable pub emit :
      Registries → EventBuffer → String → String → String → String → String → Event → EventBuffer
  unfolding admit envelope
  emit r b now trigger ref source kind fields =
      append_or_refuse b
        (admit r (envelope now trigger ref source kind fields) (Dict.remove "command_ref" fields))
