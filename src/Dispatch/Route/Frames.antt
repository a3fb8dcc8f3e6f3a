-- ===== src/Dispatch/Route/Frames.antt =====
-- What one frame (`dispatch_message` of stormpulse/agent/dispatch.py) may set in motion.
use storm_pulse.Base.{
  if◌then◌else◌, Bool-cases, ◌==◌, string_eq, pair_eq, nat_eq, All, ℕ, String, ◌≡◌, refl, ◌⊎◌, inl,
  inr, Bool, true, false, not, Option, none, some, [], ◌∷◌, arith,
}
use storm_pulse.Base.Dict
use storm_pulse.Json.{Json, Fields, to_dict}
use storm_pulse.Commands.Spec.{is_some}
use storm_pulse.Auth.{str_of, fields_of}
use storm_pulse.Events.Buffer
use storm_pulse.Logs.Receipt.{Receipt}
use storm_pulse.Logs.Pending.{peek}
use storm_pulse.Dispatch.Acks.{
  Queues, Confirmation, no_shipper, confirm_raised, confirms, noted, push_of, after_metrics_ack,
  after_confirm, release_receipt, handle_metrics_ack, handle_events_batch_ack,
  handle_events_batch_nack, handle_log_batch_ack,
}
use storm_pulse.Dispatch.Route
use storm_pulse.Protocol.Messages.{MessageType, Direction, direction, type_text}
use storm_pulse.Protocol.Messages
use storm_pulse.Protocol.Codec.{Result, ok, err}
use storm_pulse.Protocol.Envelope.{Parsed, parsed, unparsed, parse_raised, Envelope}
use storm_pulse.Dispatch.{error_frame, Effect, Handled, done, protocol_error, raised, Texts}
use storm_pulse.Dispatch.Single.Effects.{effects_of, Acts, Acts-map}
use storm_pulse.Dispatch.Single.Covered.{IsCommanded, handle_command_request-Acts}
use storm_pulse.Dispatch.Sequence.Received.{IsOrdered, handle_command_sequence-Acts}
use storm_pulse.Dispatch.Route.{
  unknown_type, from_json, named_type, Handler, handler_of, Connection, Outside, caught,
  run_handler, dispatch_parsed, dispatch_message,
}

abbrev pub is_outbound : Direction → Bool
is_outbound Messages.agent_to_dashboard = true
is_outbound d = false

-- The routing table has a handler for exactly the types that the catalogue lets in.
pub handler_of-direction :
    (t : MessageType) → is_some (handler_of t) ≡ not (is_outbound (direction t))
unfolding handler_of direction
handler_of-direction t = ground arith

type_text-full : (t : MessageType) → (type_text t == "") ≡ false
unfolding type_text
type_text-full Messages.heartbeat = refl
type_text-full Messages.metrics_push = refl
type_text-full Messages.command_result = refl
type_text-full Messages.command_progress = refl
type_text-full Messages.command_cancelled = refl
type_text-full Messages.register = refl
type_text-full Messages.log_batch = refl
type_text-full Messages.events_batch = refl
type_text-full Messages.signoff_state = refl
type_text-full Messages.command_request = refl
type_text-full Messages.command_sequence = refl
type_text-full Messages.log_batch_ack = refl
type_text-full Messages.events_batch_ack = refl
type_text-full Messages.events_batch_nack = refl
type_text-full Messages.register_ok = refl
type_text-full Messages.heartbeat_ack = refl
type_text-full Messages.metrics_ack = refl
type_text-full Messages.command_result_ack = refl
type_text-full Messages.signoff_state_ack = refl
type_text-full Messages.error = refl

module _ (P : String → Type 0) where
  caught-Acts :
      (own : Option String) (h : Handled)
      → All (Acts P) (effects_of h)
      → All (Acts P) (effects_of (caught own h))
  caught-Acts own (done es) a = a
  caught-Acts own (raised es) a = a
  caught-Acts own (protocol_error [] e) a = (tt, tt)
  caught-Acts own (protocol_error (x ∷ es) e) a = (a.0, caught-Acts own (protocol_error es e) a.1)

  metrics_ack-Acts : (r : Result Json) → All (Acts P) (effects_of (after_metrics_ack r))
  metrics_ack-Acts (err e) = tt
  metrics_ack-Acts (ok built) =
      push_acts (str_of (Dict.get "push_id" (to_dict (fields_of (some built)))))
    where
      push_acts : (i : String) → All (Acts P) (push_of i)
      push_acts i = elim (Bool-cases (i == "")) [ inl h ↦ rw h tt | inr h ↦ rw h (tt, tt) ]

  metrics-Acts : (payload : Fields) → All (Acts P) (effects_of (handle_metrics_ack payload))
  unfolding handle_metrics_ack
  metrics-Acts payload = metrics_ack-Acts _

  nack-Acts :
      (q : Queues) (o : Option String) → All (Acts P) (effects_of (handle_events_batch_nack q o).1)
  unfolding handle_events_batch_nack
  nack-Acts q none = tt
  nack-Acts q (some i) = noted-Acts i (Buffer.nack q.events i).1
    where
      noted-Acts : (i : String) (n : Option ℕ) → All (Acts P) (noted i n)
      noted-Acts i none = tt
      noted-Acts i (some n) = (tt, tt)

  ack-Acts :
      (q : Queues) (o : Option String) → All (Acts P) (effects_of (handle_events_batch_ack q o).1)
  unfolding handle_events_batch_ack
  ack-Acts q none = tt
  ack-Acts q (some i) = tt

  log_ack-Acts :
      (confirm : Receipt → Confirmation) (meanwhile : Queues → Queues) (q : Queues)
      (o : Option String)
      → All (Acts P) (effects_of (handle_log_batch_ack confirm meanwhile q o).1)
  unfolding handle_log_batch_ack
  log_ack-Acts confirm meanwhile q none = tt
  log_ack-Acts confirm meanwhile q (some i) = release-Acts (peek q.pending i)
    where
      confirm-Acts : (k : Confirmation) → All (Acts P) (effects_of (after_confirm k))
      confirm-Acts no_shipper = tt
      confirm-Acts confirm_raised = tt
      confirm-Acts (confirms b) = tt

      release-Acts :
          (r : Option Receipt)
          → All (Acts P) (effects_of (release_receipt confirm meanwhile q i r).1)
      release-Acts none = tt
      release-Acts (some receipt) = confirm-Acts (confirm receipt)

module _ (texts : Texts) (outside : Outside) (c : Connection) where
  -- An envelope vouches for a command, as a request or as a step of a sequence.
  abbrev pub IsVouchedBy : Envelope → String → Type 0
  IsVouchedBy e command =
      IsCommanded outside.hmac_hex outside.dumps texts c.agent outside.world outside.clock e command
      ⊎ IsOrdered outside.hmac_hex outside.dumps texts c.agent outside.world outside.worlds
          outside.clock e command

  run_handler-Acts :
      (e : Envelope) (o : Option Handler)
      → All (Acts (IsVouchedBy e)) (effects_of (run_handler texts outside c e o).1)
  run_handler-Acts e none = tt
  run_handler-Acts e (some Route.ack) = tt
  run_handler-Acts e (some Route.error) = tt
  run_handler-Acts e (some Route.metrics_ack) = metrics-Acts (IsVouchedBy e) e.payload
  run_handler-Acts e (some Route.events_batch_ack) = ack-Acts (IsVouchedBy e) c.queues _
  run_handler-Acts e (some Route.events_batch_nack) = nack-Acts (IsVouchedBy e) c.queues _
  run_handler-Acts e (some Route.log_batch_ack) =
      log_ack-Acts (IsVouchedBy e) outside.confirm outside.meanwhile c.queues _
  run_handler-Acts e (some Route.request) =
      Acts-map _ (IsVouchedBy e) (λ x h. inl h) _
        (handle_command_request-Acts outside.hmac_hex outside.dumps texts c.agent outside.world
          outside.clock e)
  run_handler-Acts e (some Route.sequence) =
      Acts-map _ (IsVouchedBy e) (λ x h. inr h) _
        (handle_command_sequence-Acts outside.hmac_hex outside.dumps texts c.agent outside.world
          outside.worlds outside.clock e)

  -- The frame parses to an envelope that vouches for the command.
  abbrev pub IsVouched : String → String → Type 0
  IsVouched raw command =
      (e : Envelope) × (from_json outside.loads outside.fromisoformat raw ≡ parsed e)
      × IsVouchedBy e command

  parsed-Acts :
      (raw : String) (r : Parsed)
      → from_json outside.loads outside.fromisoformat raw ≡ r
      → All (Acts (IsVouched raw)) (effects_of (dispatch_parsed texts outside c r).1)
  parsed-Acts raw parse_raised h = tt
  parsed-Acts raw (unparsed e) h = (tt, tt)
  parsed-Acts raw (parsed e) h =
      Acts-map (IsVouchedBy e) (IsVouched raw) (λ x k. (e, h, k)) _
        (caught-Acts (IsVouchedBy e) (some (type_text e.type))
          (run_handler texts outside c e (handler_of e.type)).1
          (run_handler-Acts e (handler_of e.type)))

  -- Whatever text arrives, a command is executed, collected for or accepted as a job only if the text
  -- parses to an envelope that is authentic and names the command, as a request or as a step of a
  -- sequence whose every name is known and unsealed; the session is compatible, and the command is
  -- admitted by the seal and by its grant.
  pub dispatch_message-Acts :
      (raw : String)
      → All (Acts (IsVouched raw)) (effects_of (dispatch_message texts outside c raw).1)
  unfolding dispatch_message
  dispatch_message-Acts raw = parsed-Acts raw _ refl

  -- The refusal of a frame, if it has one: its parse ends in a ProtocolError, or it is not for the agent.
  abbrev pub refusal_of : Parsed → Option Effect
  refusal_of parse_raised = none
  refusal_of (unparsed e) = some (error_frame e.reason (named_type e.msg_type none))
  refusal_of (parsed e) =
      if is_outbound (direction e.type)
      then some (error_frame unknown_type (some (type_text e.type)))
      else none

  abbrev pub IsRefusedBy : Option Effect → Connection × Handled → Type 0
  IsRefusedBy none r = Unit
  IsRefusedBy (some frame) r = r ≡ (c, done (frame ∷ []))

  outbound_refused : (t : MessageType) → is_outbound (direction t) ≡ true → handler_of t ≡ none
  unfolding handler_of direction
  outbound_refused t h = ground (arith, h)

  parsed-IsRefusedBy : (r : Parsed) → IsRefusedBy (refusal_of r) (dispatch_parsed texts outside c r)
  parsed-IsRefusedBy parse_raised = tt
  parsed-IsRefusedBy (unparsed e) = refl
  parsed-IsRefusedBy (parsed e) = elim (Bool-cases (is_outbound (direction e.type))) [
    | inl out ↦ rw (out, outbound_refused e.type out, type_text-full e.type) refl
    | inr inbound ↦ rw inbound tt
  ]

  -- A text that is refused with a ProtocolError when it is parsed, and a message of a type that only the agent sends, are answered by
  -- one error frame with the reason and, where it is known, the type; nothing else happens.
  pub dispatch_message-IsRefusedBy :
      (raw : String)
      → IsRefusedBy
          (refusal_of (from_json outside.loads outside.fromisoformat raw))
          (dispatch_message texts outside c raw)
  unfolding dispatch_message
  dispatch_message-IsRefusedBy raw = parsed-IsRefusedBy _
