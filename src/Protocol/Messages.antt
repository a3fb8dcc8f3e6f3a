-- ===== src/Protocol/Messages.antt =====
-- The message types and the catalogue of stormpulse/protocol/payloads.py.
use storm_pulse.Base.{String, Option, none, some, List, [], ◌∷◌, string_eq, ◌==◌, if◌then◌else◌}

pub data MessageType : Type 0 where
  heartbeat metrics_push command_result command_progress command_cancelled : MessageType
  register log_batch events_batch signoff_state command_request command_sequence : MessageType
  log_batch_ack events_batch_ack events_batch_nack register_ok heartbeat_ack : MessageType
  metrics_ack command_result_ack signoff_state_ack error : MessageType

unfoldable pub type_text : MessageType → String
type_text heartbeat = "heartbeat"
type_text metrics_push = "metrics.push"
type_text command_result = "command.result"
type_text command_progress = "command.progress"
type_text command_cancelled = "command.cancelled"
type_text register = "register"
type_text log_batch = "log.batch"
type_text events_batch = "events.batch"
type_text signoff_state = "signoff.state"
type_text command_request = "command.request"
type_text command_sequence = "command.sequence"
type_text log_batch_ack = "log.batch.ack"
type_text events_batch_ack = "events.batch.ack"
type_text events_batch_nack = "events.batch.nack"
type_text register_ok = "register.ok"
type_text heartbeat_ack = "heartbeat.ack"
type_text metrics_ack = "metrics.ack"
type_text command_result_ack = "command.result.ack"
type_text signoff_state_ack = "signoff.state.ack"
type_text error = "error"

abbrev pub message_types : List MessageType
message_types =
    heartbeat ∷ metrics_push ∷ command_result ∷ command_progress ∷ command_cancelled ∷ register
    ∷ log_batch ∷ events_batch ∷ signoff_state ∷ command_request ∷ command_sequence ∷ log_batch_ack
    ∷ events_batch_ack ∷ events_batch_nack ∷ register_ok ∷ heartbeat_ack ∷ metrics_ack
    ∷ command_result_ack ∷ signoff_state_ack ∷ error ∷ []

-- the first type of the enum with that text
unfoldable pub find_type : String → List MessageType → Option MessageType
unfolding type_text
find_type raw [] = none
find_type raw (t ∷ ts) = if type_text t == raw then some t else find_type raw ts

pub data Direction : Type 0 where
  agent_to_dashboard dashboard_to_agent both : Direction

unfoldable pub direction : MessageType → Direction
direction heartbeat = agent_to_dashboard
direction metrics_push = agent_to_dashboard
direction command_result = agent_to_dashboard
direction command_progress = agent_to_dashboard
direction command_cancelled = agent_to_dashboard
direction register = agent_to_dashboard
direction log_batch = agent_to_dashboard
direction events_batch = agent_to_dashboard
direction signoff_state = agent_to_dashboard
direction command_request = dashboard_to_agent
direction command_sequence = dashboard_to_agent
direction log_batch_ack = dashboard_to_agent
direction events_batch_ack = dashboard_to_agent
direction events_batch_nack = dashboard_to_agent
direction register_ok = dashboard_to_agent
direction heartbeat_ack = dashboard_to_agent
direction metrics_ack = dashboard_to_agent
direction command_result_ack = dashboard_to_agent
direction signoff_state_ack = dashboard_to_agent
direction error = both

-- The payload classes that the dispatch table tells apart: an empty ack, and all else.
pub data PayloadClass : Type 0 where
  ack_payload other_payload : PayloadClass

unfoldable pub payload_class : MessageType → PayloadClass
payload_class heartbeat = other_payload
payload_class metrics_push = other_payload
payload_class command_result = other_payload
payload_class command_progress = other_payload
payload_class command_cancelled = other_payload
payload_class register = other_payload
payload_class log_batch = other_payload
payload_class events_batch = other_payload
payload_class signoff_state = other_payload
payload_class command_request = other_payload
payload_class command_sequence = other_payload
payload_class log_batch_ack = other_payload
payload_class events_batch_ack = other_payload
payload_class events_batch_nack = other_payload
payload_class register_ok = other_payload
payload_class heartbeat_ack = ack_payload
payload_class metrics_ack = other_payload
payload_class command_result_ack = ack_payload
payload_class signoff_state_ack = ack_payload
payload_class error = other_payload
