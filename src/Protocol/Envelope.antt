-- ===== src/Protocol/Envelope.antt =====
-- `Envelope` and its parser (stormpulse/protocol/envelope.py). A timestamp is its microseconds since
-- the epoch. `json.loads` and `datetime.fromisoformat` are parameters; `none` is the ValueError of the latter.
use Prim.Native.Char.{code}
use storm_pulse.Base.{
  nat_beq, if◌then◌else◌, ◌==◌, string_eq, pair_eq, nat_eq, all, ℕ, ◌+◌, String, Bool, Option, none,
  some, List, [], ◌∷◌,
}
use storm_pulse.Base.Dict
use storm_pulse.Base.Dict.{Dict}
use storm_pulse.Base.Text.{take_chars}
use storm_pulse.Json.{Json, str, obj, Fields, to_dict}
use storm_pulse.Protocol.Messages.{MessageType, message_types, find_type}
use storm_pulse.Protocol.Codec.{
  Result, ok, err, ◌>>=◌, ProtocolError, unknown_type, bad, check_version,
}
pub mod Checks

-- What `fromisoformat` reads: the instant, and whether the text gave an offset.
pub record Moment : Type 0 where
  pub micros : ℕ
  pub aware : Bool

pub record Envelope : Type 0 where
  pub v : ℕ
  pub type : MessageType
  pub id : String
  pub ts : ℕ
  pub agent_id : String
  pub payload : Fields
  pub received : Option Fields

-- raw.replace("Z", "+00:00")
abbrev pub replace_z : String → String
replace_z String.[] = ""
replace_z (String.◌∷◌ c s) =
    if nat_beq (code c) b'Z'
    then String.◌∷◌ "+" (
        String.◌∷◌ "0"
          (String.◌∷◌ "0" (String.◌∷◌ ":" (String.◌∷◌ "0" (String.◌∷◌ "0" (replace_z s))))))
    else String.◌∷◌ c (replace_z s)

abbrev pub envelope_fields : List String
envelope_fields = "v" ∷ "type" ∷ "id" ∷ "ts" ∷ "agent_id" ∷ "payload" ∷ []

abbrev moment_to_ts : Option Moment → Result ℕ
moment_to_ts none = err bad
moment_to_ts (some t) = if t.aware then ok t.micros else err bad

unfoldable pub parse_timestamp : (String → Option Moment) → Json → Result ℕ
parse_timestamp fromisoformat (str raw) = moment_to_ts (fromisoformat (replace_z raw))
parse_timestamp fromisoformat raw = err bad

abbrev unknown : Option String → ProtocolError
unknown quoted = record { reason = unknown_type; msg_type = quoted }

abbrev known_or : String → Option MessageType → Result MessageType
known_or raw none = err (unknown (some (take_chars 64 raw)))
known_or raw (some t) = ok t

unfoldable pub message_type : Json → Result MessageType
unfolding find_type
message_type (str raw) = known_or raw (find_type raw message_types)
message_type raw = err (unknown none)

unfoldable pub required_str : Json → Result String
required_str (str s) = if s == "" then err bad else ok s
required_str v = err bad

unfoldable pub required_dict : Json → Result Fields
required_dict (obj fs) = ok fs
required_dict v = err bad

abbrev pub with_item {ℓ} : {A : Type ℓ} → Option Json → (Json → Result A) → Result A
with_item none f = err bad
with_item (some v) f = f v

-- from the parsed object to the envelope
unfoldable pub from_object : (String → Option Moment) → Fields → Result Envelope
unfolding check_version message_type parse_timestamp required_str required_dict
from_object fromisoformat frame = do
  v ← with_item (Dict.get "v" (to_dict frame)) check_version
  msg_type ← with_item (Dict.get "type" (to_dict frame)) message_type
  ts ← with_item (Dict.get "ts" (to_dict frame)) (parse_timestamp fromisoformat)
  id ← with_item (Dict.get "id" (to_dict frame)) required_str
  agent_id ← with_item (Dict.get "agent_id" (to_dict frame)) required_str
  payload ← with_item (Dict.get "payload" (to_dict frame)) required_dict
  ok (record {
    v = v;
    type = msg_type;
    id = id;
    ts = ts;
    agent_id = agent_id;
    payload = payload;
    received = some frame;
  })

-- How `json.loads` ends: a value, a JSONDecodeError or TypeError, or another exception, which is
-- RecursionError on deep nesting and ValueError on an int of too many digits.
pub data Loaded : Type 0 where
  loaded : Json → Loaded
  not_json loads_raised : Loaded

-- How `from_json` ends: an envelope, a ProtocolError, or the exception that it does not catch.
pub data Parsed : Type 0 where
  parsed : Envelope → Parsed
  unparsed : ProtocolError → Parsed
  parse_raised : Parsed

abbrev pub parsed_or : Result Envelope → Parsed
parsed_or (ok e) = parsed e
parsed_or (err problem) = unparsed problem

unfoldable pub from_value : (String → Option Moment) → Json → Result Envelope
from_value fromisoformat (obj frame) =
    if all (λ k. Dict.has k (to_dict frame)) envelope_fields
    then from_object fromisoformat frame
    else err bad
from_value fromisoformat v = err bad

unfoldable pub from_loaded : (String → Option Moment) → Loaded → Parsed
unfolding from_value from_object
from_loaded fromisoformat (loaded v) = parsed_or (from_value fromisoformat v)
from_loaded fromisoformat not_json = unparsed bad
from_loaded fromisoformat loads_raised = parse_raised

unfoldable pub from_json : (String → Loaded) → (String → Option Moment) → String → Parsed
unfolding from_loaded
from_json loads fromisoformat raw = from_loaded fromisoformat (loads raw)
