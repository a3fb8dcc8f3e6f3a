-- ===== src/Dispatch/Tests.antt =====
-- Frames dispatched (stormpulse/agent/dispatch.py) on concrete input: a request and a sequence whose
-- second step fails.
use storm_pulse.Base.{
  if◌then◌else◌, ◌==◌, string_eq, pair_eq, nat_eq, All, String, ◌≡◌, refl, true, false, not, none,
  some, List, [], ◌∷◌,
}
use storm_pulse.Base.Dict
use storm_pulse.Base.Dict.{Dict}
use storm_pulse.Base.Int.{pos}
use storm_pulse.Json.{Json, str, int, bool, arr, obj, nil, cons, Fields, end, field}
use storm_pulse.Protocol.Messages.{
  direction, MessageType, command_request, command_sequence, type_text,
}
use storm_pulse.Protocol.Envelope.{loaded, not_json, Envelope, from_json}
use storm_pulse.Commands.Spec.{is_some, CommandSpec, subprocess}
use storm_pulse.Protocol.Codec.{decode_items, decode_values}
use storm_pulse.Auth.{purge}
use storm_pulse.Commands.Registry.Execution.{Host, exited}
use storm_pulse.Events.Buffer.{new_buffer}
use storm_pulse.Logs.Receipt.{Receipt, offset}
use storm_pulse.Logs.Pending.{no_batches, peek, add}
use storm_pulse.Dispatch.{Effect, executes, Agent, Texts, World, Clock, not_enabled, verify_payload}
use storm_pulse.Dispatch.Acks.{Queues, confirms, handle_log_batch_ack}
use storm_pulse.Dispatch.Acks.Release.{
  confirmed_by, met_by, IsReleased, handle_log_batch_ack-IsReleased,
}
use storm_pulse.Dispatch.Single.{handle_command_request}
use storm_pulse.Dispatch.Single.Effects.{effects_of, Acts}
use storm_pulse.Dispatch.Single.Covered.{IsAnsweredFor, handle_command_request-answers}
use storm_pulse.Dispatch.Sequence.{handle_command_sequence}
use storm_pulse.Dispatch.Sequence.Received.{IsRepliedFor, handle_command_sequence-IsRepliedFor}
use storm_pulse.Dispatch.Route.{Connection, Outside, dispatch_message, handler_of}
use storm_pulse.Dispatch.Route.Frames.{
  handler_of-direction, is_outbound, IsVouched, dispatch_message-Acts, IsRefusedBy, refusal_of,
  dispatch_message-IsRefusedBy,
}

abbrev mac : String
mac = "0123456789abcdef0123456789abcdef0123456789abcdef0123456789abcdef"

abbrev hmac_hex : String → String → String
hmac_hex secret text = if secret == "secret" then mac else ""

abbrev dumps : Json → String
dumps v = "text"

abbrev request_payload : Fields
request_payload =
    field "command" (str "uptime")
      (field "params" (obj end) (field "hmac" (str mac) (field "nonce" (str "n7") end)))

abbrev step_of_name : String → Json
step_of_name name = obj (field "command" (str name) (field "params" (obj end) end))

abbrev sequence_payload : Fields
sequence_payload = field "sequence_id" (str "s1") (
    field "steps"
      (arr (
        cons (step_of_name "uptime")
          (cons (step_of_name "fails") (cons (step_of_name "uptime") nil))))
      (field "stop_on_failure" (bool true) (field "hmac" (str mac) (field "nonce" (str "n8") end))))

abbrev frame_of : MessageType → Fields → Fields
frame_of t payload = field "v" (int (pos 2)) (
    field "type" (str (unfold type_text in type_text t)) (
      field "id" (str "e1")
        (field "ts" (str "now") (field "agent_id" (str "a1") (field "payload" (obj payload) end)))))

abbrev spec_of : String → CommandSpec
spec_of word = record {
  group = "host";
  command = word ∷ [];
  timeout = 5;
  mode = subprocess;
  sensitive_output = false;
  read_only = true;
  self_reconciling = false;
  handler = none;
  params = [];
  result = false;
  retry_window_s = none;
  authorize = none;
}

abbrev registry : Dict String CommandSpec
registry = ("uptime", spec_of "/bin/uptime") ∷ ("fails", spec_of "/bin/false") ∷ []

abbrev host : Host
host = record {
  fullmatch = λ pattern s. true;
  dumps = dumps;
  grants = λ name. none;
  format = λ params part. some part;
  run = λ argv seconds. elim argv [
    | [] ↦ some (exited (pos 1) "" "")
    | a ∷ rest ↦ some (if a == "/bin/false" then exited (pos 1) "" "" else exited (pos 0) "up" "")
  ];
  texts = record { timeout_text = λ n s. s; not_found_text = λ argv. "" };
}

abbrev texts : Texts
texts = record {
  registration_pending = "wait";
  guidance = λ s. "paused";
  session_closing_text = "closing";
  overloaded_text = "busy";
  no_handler_text = λ c. c;
  command_error_text = λ why c. c;
  params_error_text = λ e. "params";
  not_enabled_text = λ g. g;
  not_collected_text = λ g. g;
  refreshed_text = λ g s. g;
  words = record { sealed_text = "sealed"; restart_text = "restart"; fenced_text = λ c why. why };
}

abbrev world : World
world = record {
  signoff = record { unsealed_at = none; sealed_file = true };
  grants = λ name. none;
  host = host;
  factory = λ f params. true;
  collect = λ g. some not_enabled;
  has_push = false;
  duration_ms = 3;
  request_id = "r1";
}

abbrev clock : Clock
clock = record { now = 50; purged_at = 50; stored_at = 50 }

abbrev digest : String
digest = "sha256:0123456789abcdef0123456789abcdef0123456789abcdef0123456789abcdef"

abbrev agent : Agent
agent = record {
  secret = "secret";
  max_age = 30;
  registry = registry;
  session = some (record { agent_digest = digest; control_plane_digest = digest });
  nonce_store = [];
  job_manager = none;
}

abbrev outside : Outside
outside = record {
  hmac_hex = hmac_hex;
  dumps = dumps;
  loads = λ raw.
      if raw == "request"
      then loaded (obj (frame_of command_request request_payload))
      else if raw == "sequence"
      then loaded (obj (frame_of command_sequence sequence_payload))
      else not_json;
  fromisoformat = λ raw. some (record { micros = 40; aware = true });
  confirm = λ receipt. confirms true;
  meanwhile = λ q. q;
  world = world;
  worlds = λ k. world;
  clock = clock;
}

abbrev connection : Connection
connection = record {
  agent = agent;
  queues = record { events = new_buffer 10; pending = no_batches 30 };
}

dispatch_message-Acts_example :
    All
      (Acts (IsVouched texts outside connection "sequence"))
      (effects_of (dispatch_message texts outside connection "sequence").1)
dispatch_message-Acts_example = dispatch_message-Acts texts outside connection "sequence"

dispatch_message-IsRefusedBy_example :
    IsRefusedBy texts outside connection
      (refusal_of texts outside connection (from_json outside.loads outside.fromisoformat "noise"))
      (dispatch_message texts outside connection "noise")
dispatch_message-IsRefusedBy_example = dispatch_message-IsRefusedBy texts outside connection "noise"

abbrev executed : List Effect → List String
executed [] = []
executed (executes c ∷ es) = c ∷ executed es
executed (e ∷ es) = executed es

-- The second step fails, and the third is not run.
sequence_run :
    executed (effects_of (dispatch_message texts outside connection "sequence").1)
    ≡ "uptime" ∷ "fails" ∷ []
unfolding dispatch_message Dict.has Dict.get Dict.put Dict.remove decode_items decode_values purge
sequence_run = refl

abbrev envelope_of : MessageType → Fields → Envelope
envelope_of t payload = record {
  v = 2;
  type = t;
  id = "e1";
  ts = 40;
  agent_id = "a1";
  payload = payload;
  received = some (frame_of t payload);
}

handle_command_request-answers_example :
    IsAnsweredFor hmac_hex dumps texts agent world clock
      (envelope_of command_request request_payload)
      (verify_payload hmac_hex dumps agent clock (envelope_of command_request request_payload)).1
      (handle_command_request hmac_hex dumps texts agent world clock
        (envelope_of command_request request_payload)).1
handle_command_request-answers_example =
    handle_command_request-answers hmac_hex dumps texts agent world clock
      (envelope_of command_request request_payload)

handle_command_sequence-IsRepliedFor_example :
    IsRepliedFor hmac_hex dumps texts agent world
      (λ k. world)
      clock
      (envelope_of command_sequence sequence_payload)
      (verify_payload hmac_hex dumps agent clock (envelope_of command_sequence sequence_payload)).1
      (handle_command_sequence hmac_hex dumps texts agent world
        (λ k. world)
        clock
        (envelope_of command_sequence sequence_payload)).1
handle_command_sequence-IsRepliedFor_example =
    handle_command_sequence-IsRepliedFor hmac_hex dumps texts agent world (λ k. world) clock
      (envelope_of command_sequence sequence_payload)

abbrev receipt : Receipt
receipt = record {
  group = "app";
  source = "/var/log/app";
  generation = none;
  from_position = offset (pos 0);
  to_position = offset (pos 9);
}

abbrev queues : Queues
queues = record {
  events = new_buffer 10;
  pending = record {
    ack_timeout = 30;
    entries = ("b1", record { receipt = receipt; sent_at = 1 }) ∷ [];
    released = [];
  };
}

-- a batch of the group is added while the shipper confirms the first one
abbrev later : Queues → Queues
later q = record q { pending = add q.pending "b2" receipt 7 }

handle_log_batch_ack-IsReleased_example :
    IsReleased
      (confirmed_by (λ r. confirms true) (peek queues.pending "b1"))
      "b1"
      (met_by later queues (peek queues.pending "b1")).pending
      (handle_log_batch_ack (λ r. confirms true) later queues (some "b1")).0.pending
handle_log_batch_ack-IsReleased_example =
    handle_log_batch_ack-IsReleased (λ r. confirms true) later queues "b1"
      (unfold peek add Dict.put Dict.get Dict.has in (refl, (refl, tt)))

handler_of-direction_example :
    is_some (handler_of command_request) ≡ not (is_outbound (direction command_request))
handler_of-direction_example = handler_of-direction command_request
