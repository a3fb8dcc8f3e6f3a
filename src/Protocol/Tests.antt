-- ===== src/Protocol/Tests.antt =====
-- The protocol of stormpulse/protocol on a concrete frame and a concrete result.
use storm_pulse.Base.{
  if◌then◌else◌, ◌==◌, string_eq, pair_eq, nat_eq, String, ◌≡◌, refl, true, false, Option, none,
  some,
}
use storm_pulse.Base.Dict
use storm_pulse.Base.Int.{pos}
use storm_pulse.Json.{Json, null, int, obj, str, arr, nil, cons, Fields, end, field}
use storm_pulse.Protocol.Messages.{heartbeat, find_type, type_text}
use storm_pulse.Protocol.Reasons.{exit_code, reason_text}
use storm_pulse.Protocol.Results.{
  CommandResult, ResultError, IsSettled, post_init, settle, post_init-IsSettled,
}
use storm_pulse.Protocol.Codec.{
  Ann, union, arm, last, str_type, int_type, list_of, dataclass, decl, done, decode, decode_arms,
  decode_fields, decode_list, decode_items, missing, check_scalar, check_version, ok,
}
use storm_pulse.Protocol.Codec.Types.{HasType, decode-HasType}
use storm_pulse.Protocol.Envelope.{
  Loaded, loaded, not_json, parsed, Moment, Envelope, from_json, from_value, from_object,
  message_type, parse_timestamp, required_str, required_dict,
}
use storm_pulse.Protocol.Envelope.Checks.{IsParsed, from_json-IsParsed}

abbrev beat : Fields
beat = field "v" (int (pos 2)) (
    field "type" (str "heartbeat") (
      field "id" (str "m1") (
        field "ts" (str "2026-01-01T00:00:00Z")
          (field "agent_id" (str "a1") (field "payload" (obj end) end)))))

abbrev loads : String → Loaded
loads raw = if raw == "beat" then loaded (obj beat) else not_json

abbrev fromisoformat : String → Option Moment
fromisoformat raw =
    if raw == "2026-01-01T00:00:00+00:00"
    then some (record { micros = 7; aware = true })
    else some (record { micros = 0; aware = false })

abbrev beat_envelope : Envelope
beat_envelope = record {
  v = 2;
  type = heartbeat;
  id = "m1";
  ts = 7;
  agent_id = "a1";
  payload = end;
  received = some beat;
}

parses : from_json loads fromisoformat "beat" ≡ parsed beat_envelope
unfolding from_json from_value from_object check_version message_type find_type type_text
    parse_timestamp required_str required_dict Dict.get Dict.has
parses = refl

from_json-IsParsed_example :
    (frame : Fields) × (loads "beat" ≡ loaded (obj frame))
    × IsParsed fromisoformat frame beat_envelope
from_json-IsParsed_example = from_json-IsParsed loads fromisoformat "beat" beat_envelope parses

-- list[str | int | None] and a field with a default, of a dataclass
abbrev line_type : Ann
line_type = dataclass (
    decl "items" (list_of (union true (arm str_type (last int_type)))) true
      (decl "note" str_type false done))

abbrev line : Json
line =
    obj (field "extra" (int (pos 1)) (field "items" (arr (cons (int (pos 4)) (cons null nil))) end))

decodes :
    decode line_type line ≡ ok (obj (field "items" (arr (cons (int (pos 4)) (cons null nil))) end))
unfolding decode decode_arms decode_fields decode_list decode_items missing check_scalar Dict.get
    Dict.has
decodes = refl

decode-HasType_example :
    HasType line_type (obj (field "items" (arr (cons (int (pos 4)) (cons null nil))) end))
decode-HasType_example = decode-HasType line_type line _ decodes

abbrev broken : CommandResult
broken = record {
  request_id = "r1";
  command = "git_pull";
  group = "deploy";
  success = false;
  exit_code = pos 1;
  stdout = "";
  stderr = "no";
  duration_ms = 5;
  sequence_id = none;
  failure_reason = some exit_code;
  result = none;
  error = none;
  step_index = none;
  attempts = 1;
  retries_exhausted = false;
}

abbrev broken_error : ResultError
broken_error = record {
  code = "exit_code";
  http_status = none;
  upstream_code = none;
  message = "no";
}

settles : post_init broken ≡ some (record broken { error = some broken_error })
unfolding post_init settle reason_text
settles = refl

post_init-IsSettled_example :
    IsSettled (record broken { error = some broken_error })
    × (false ≡ false)
    × (some exit_code ≡ some exit_code)
    × ((e : ResultError) → none ≡ some e → some broken_error ≡ some e)
post_init-IsSettled_example =
    post_init-IsSettled broken (record broken { error = some broken_error }) settles
