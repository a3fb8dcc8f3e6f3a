-- ===== src/Dispatch/Route.antt =====
-- The routing table and `dispatch_message` of stormpulse/agent/dispatch.py.
use storm_pulse.Base.{
  if◌then◌else◌, ◌==◌, string_eq, pair_eq, nat_eq, ℕ, String, Option, none, some, [], ◌∷◌, ◌++◌,
}
use storm_pulse.Json.{Json}
use storm_pulse.Protocol.Messages.{
  MessageType, PayloadClass, payload_class, Direction, direction, type_text,
}
use storm_pulse.Protocol.Messages
use storm_pulse.Protocol.Codec.{Reason, unknown_type, ProtocolError, Result, ok, err}
use storm_pulse.Protocol.Envelope.{
  Loaded, Parsed, parsed, unparsed, parse_raised, Moment, Envelope, from_json,
}
use storm_pulse.Logs.Receipt.{Receipt}
use storm_pulse.Dispatch.{
  Effect, error_frame, Handled, done, protocol_error, raised, Agent, Texts, World, Clock,
}
use storm_pulse.Dispatch.Acks.{
  Queues, Confirmation, batch_id, handle_events_batch_ack, handle_events_batch_nack,
  handle_log_batch_ack, handle_metrics_ack,
}
use storm_pulse.Dispatch.Single.{handle_command_request}
use storm_pulse.Dispatch.Sequence.{handle_command_sequence}
pub mod Frames

-- The handlers of the table, by their functions' names.
pub data Handler : Type 0 where
  ack metrics_ack error request sequence log_batch_ack events_batch_ack events_batch_nack : Handler

abbrev pub by_class : PayloadClass → Option Handler
by_class Messages.ack_payload = some ack
by_class Messages.other_payload = none

-- HANDLERS.get(t): the comprehension over the catalogue, then the entries of their own
unfoldable pub handler_of : MessageType → Option Handler
unfolding payload_class
handler_of Messages.register_ok = some ack
handler_of Messages.metrics_ack = some metrics_ack
handler_of Messages.error = some error
handler_of Messages.command_request = some request
handler_of Messages.command_sequence = some sequence
handler_of Messages.log_batch_ack = some log_batch_ack
handler_of Messages.events_batch_ack = some events_batch_ack
handler_of Messages.events_batch_nack = some events_batch_nack
handler_of t = by_class (payload_class t)

-- The agent, with what is in flight.
pub record Connection : Type 0 where
  pub agent : Agent
  pub queues : Queues

-- What comes from outside while one frame is handled.
pub record Outside : Type 0 where
  pub hmac_hex : String → String → String
  pub dumps : Json → String
  pub loads : String → Loaded
  pub fromisoformat : String → Option Moment
  pub confirm : Receipt → Confirmation
  pub meanwhile : Queues → Queues
  pub world : World
  pub worlds : ℕ → World
  pub clock : Clock

-- exc.msg_type or (envelope.type.value if envelope is not None else None)
abbrev pub named_type : Option String → Option String → Option String
named_type none own = own
named_type (some t) own = if t == "" then own else some t

abbrev pub caught : Option String → Handled → Handled
caught own (done es) = done es
caught own (raised es) = raised es
caught own (protocol_error es e) =
    done (es ++ error_frame e.reason (named_type e.msg_type own) ∷ [])

module _ (texts : Texts) (outside : Outside) where
  abbrev pub run_handler : Connection → Envelope → Option Handler → Connection × Handled
  run_handler c e none =
      (c, protocol_error [] (record { reason = unknown_type; msg_type = some (type_text e.type) }))
  run_handler c e (some ack) = (c, done [])
  run_handler c e (some error) = (c, done [])
  run_handler c e (some metrics_ack) = (c, handle_metrics_ack e.payload)
  run_handler c e (some events_batch_ack) =
      let r = handle_events_batch_ack c.queues (batch_id e.payload) in
      (record c { queues = r.0 }, r.1)
  run_handler c e (some events_batch_nack) =
      let r = handle_events_batch_nack c.queues (batch_id e.payload) in
      (record c { queues = r.0 }, r.1)
  run_handler c e (some log_batch_ack) =
      let r =
        handle_log_batch_ack outside.confirm outside.meanwhile c.queues (batch_id e.payload) in
      (record c { queues = r.0 }, r.1)
  run_handler c e (some request) =
      let r =
        handle_command_request outside.hmac_hex outside.dumps texts c.agent outside.world
          outside.clock e in
      (record c { agent = r.0 }, r.1)
  run_handler c e (some sequence) =
      let r =
        handle_command_sequence outside.hmac_hex outside.dumps texts c.agent outside.world
          outside.worlds outside.clock e in
      (record c { agent = r.0 }, r.1)

  abbrev pub answered : Option String → Connection × Handled → Connection × Handled
  answered own (c, h) = (c, caught own h)

  abbrev pub dispatch_parsed : Connection → Parsed → Connection × Handled
  dispatch_parsed c parse_raised = (c, raised [])
  dispatch_parsed c (unparsed e) = answered none (c, protocol_error [] e)
  dispatch_parsed c (parsed e) =
      answered (some (type_text e.type)) (run_handler c e (handler_of e.type))

  unfoldable pub dispatch_message : Connection → String → Connection × Handled
  unfolding from_json type_text handler_of handle_metrics_ack handle_events_batch_ack
      handle_events_batch_nack handle_log_batch_ack handle_command_request handle_command_sequence
  dispatch_message c raw = dispatch_parsed c (from_json outside.loads outside.fromisoformat raw)
