-- ===== src/Dispatch.antt =====
-- The frames that the agent receives (stormpulse/agent/dispatch.py): what they may do, and the checks
-- that each command meets first. A handler returns its effects in order.
use storm_pulse.Base.{
  if◌then◌else◌, ◌==◌, string_eq, pair_eq, nat_eq, ℕ, String, Bool, false, ◌&&◌, Option, none, some,
  List, [], ◌∷◌,
}
use storm_pulse.Base.Dict
use storm_pulse.Base.Dict.{Dict}
use storm_pulse.Base.Text.{take_chars, drop_chars, text_length, all_chars}
use storm_pulse.Base.Int.{negsuc}
use storm_pulse.Json.{Json, Fields}
use storm_pulse.Protocol.Reasons.{FailureReason, forbidden}
use storm_pulse.Protocol.Results.{CommandResult}
use storm_pulse.Protocol.Codec.{Reason, ProtocolError}
use storm_pulse.Protocol.Envelope.{Envelope}
use storm_pulse.Auth.{
  is_hex_digit, AuthReason, NonceStore, CommandPayload, request, sequence, Step, Verdict,
  verify_envelope,
}
use storm_pulse.Commands.Spec.{CommandSpec}
use storm_pulse.Commands.Params.{ParamsError}
use storm_pulse.Commands.Registry.Execution.{Host}
use storm_pulse.Signoff.{SignoffState}
use storm_pulse.Signoff.Admission.{Emitted, Wording}
use storm_pulse.Jobs.Manager.{Manager}
pub mod Single
pub mod Sequence
pub mod Acks
pub mod Route
mod Tests

pub data Effect : Type 0 where
  send : CommandResult → Effect
  error_frame : Reason → Option String → Effect
  emitted : Emitted → Effect
  signature_failure : AuthReason → String → Effect
  -- `execute_command` is called, a refresh collects, a job is accepted
  executes : String → Effect
  refreshes : String → Effect
  starts_job : String → Effect
  metrics_push : Effect
  -- an acknowledged metrics push is released, and the event of a refused batch of events
  acknowledges_push : String → Effect
  events_nacked : String → ℕ → Effect

-- A handler is through, or raises: a ProtocolError, or an error that the receive loop logs.
pub data Handled : Type 0 where
  done : List Effect → Handled
  protocol_error : List Effect → ProtocolError → Handled
  raised : List Effect → Handled

-- `SessionCompatibility` of stormpulse/agent/session.py; its guidance is one of the texts.
pub record Session : Type 0 where
  pub agent_digest : String
  pub control_plane_digest : String

-- re.fullmatch(r"sha256:[0-9a-f]{64}", s)
unfoldable pub is_digest : String → Bool
is_digest s =
    take_chars 7 s == "sha256:"
    && (text_length (drop_chars 7 s) == 64 && all_chars is_hex_digit (drop_chars 7 s))

unfoldable pub compatible : Session → Bool
unfolding is_digest
compatible s = is_digest s.agent_digest && s.agent_digest == s.control_plane_digest

pub record Agent : Type 0 where
  pub secret : String
  pub max_age : ℕ
  pub registry : Dict String CommandSpec
  pub session : Option Session
  pub nonce_store : NonceStore
  pub job_manager : Option Manager

-- How the collection of an integration's state ends, where the collector does not raise; the times are in milliseconds.
pub data Collected : Type 0 where
  not_enabled : Collected
  no_state : ℕ → Collected
  collected : Option String → ℕ → Collected

pub record Texts : Type 0 where
  pub registration_pending : String
  pub guidance : Session → String
  pub session_closing_text : String
  pub overloaded_text : String
  pub no_handler_text : String → String
  pub command_error_text : FailureReason → String → String
  pub params_error_text : ParamsError → String
  pub not_enabled_text : String → String
  pub not_collected_text : String → String
  pub refreshed_text : String → Option String → String
  pub words : Wording

-- What a command meets of the world: the seal and the grants when it is admitted, then what its
-- execution meets, and the request id drawn for a step.
pub record World : Type 0 where
  pub signoff : SignoffState
  pub grants : String → Option String
  pub host : Host
  pub factory : String → Dict String Json → Bool
  pub collect : String → Option Collected
  pub has_push : Bool
  pub duration_ms : ℕ
  pub request_id : String

-- The readings of the clock in `verify_envelope`.
pub record Clock : Type 0 where
  pub now : ℕ
  pub purged_at : ℕ
  pub stored_at : ℕ

abbrev pub unknown_group : String
unknown_group = "unknown"

abbrev pub group_or_unknown : Option CommandSpec → String
group_or_unknown none = unknown_group
group_or_unknown (some spec) = spec.group

abbrev pub sequence_position : CommandPayload → String × (Option String × Option ℕ)
sequence_position (request command params) = (command, (none, none))
sequence_position (sequence sequence_id [] stop) = ("command.sequence", (some sequence_id, none))
sequence_position (sequence sequence_id (step ∷ steps) stop) =
    (step.command, (some sequence_id, some 0))

abbrev incompatible_result :
    Agent → String → String → String → String × (Option String × Option ℕ) → CommandResult
incompatible_result agent request_id code message position = record {
  request_id = request_id;
  command = position.0;
  group = group_or_unknown (Dict.get position.0 agent.registry);
  success = false;
  exit_code = negsuc 0;
  stdout = "";
  stderr = message;
  duration_ms = 0;
  sequence_id = position.1.0;
  failure_reason = some forbidden;
  result = none;
  error =
      some (record { code = code; http_status = none; upstream_code = none; message = message });
  step_index = position.1.1;
  attempts = 1;
  retries_exhausted = false;
}

abbrev refuse_by : Texts → Agent → String → CommandPayload → Option Session → Option CommandResult
refuse_by texts agent request_id payload none = some (
    incompatible_result agent request_id "registration_pending" texts.registration_pending
      (sequence_position payload))
refuse_by texts agent request_id payload (some session) =
    if compatible session
    then none
    else some (
        incompatible_result agent request_id "contract_mismatch" (texts.guidance session)
          (sequence_position payload))

-- The result it sends; `none` is False, the command may go on.
unfoldable pub refuse_incompatible_command :
    Texts → Agent → String → CommandPayload → Option CommandResult
unfolding compatible
refuse_incompatible_command texts agent request_id payload =
    refuse_by texts agent request_id payload agent.session

-- `_verify_typed_payload` up to the type of the payload, which the routing table settles.
unfoldable pub verify_payload :
    (String → String → String) → (Json → String) → Agent → Clock → Envelope → NonceStore × Verdict
unfolding verify_envelope
verify_payload hmac_hex dumps agent clock e =
    verify_envelope hmac_hex dumps e agent.secret agent.nonce_store agent.max_age clock.now
      clock.purged_at clock.stored_at

-- the record of a refused envelope
abbrev pub auth_failure : AuthReason → Envelope → List Effect
auth_failure reason e = signature_failure reason (take_chars 100 e.id) ∷ []
