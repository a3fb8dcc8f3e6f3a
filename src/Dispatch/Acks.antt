-- ===== src/Dispatch/Acks.antt =====
-- The acknowledgements of stormpulse/agent/acks.py: what each releases of the batches in flight.
use storm_pulse.Base.{
  if◌then◌else◌, ◌==◌, string_eq, pair_eq, nat_eq, ℕ, String, Bool, true, false, Option, none, some,
  List, [], ◌∷◌,
}
use storm_pulse.Base.Dict
use storm_pulse.Json.{Json, str, obj, Fields, to_dict}
use storm_pulse.Protocol.Codec
use storm_pulse.Protocol.Codec.{Result, ok, err, ProtocolError, str_type, dataclass, decl, decode}
use storm_pulse.Auth.{str_of, fields_of}
use storm_pulse.Events.Buffer
use storm_pulse.Events.Buffer.{EventBuffer}
use storm_pulse.Logs.Receipt.{Receipt}
use storm_pulse.Logs.Pending.{PendingBatches, peek, pop}
use storm_pulse.Dispatch.{
  Effect, acknowledges_push, events_nacked, Handled, done, protocol_error, raised,
}
pub mod Release

pub record Queues : Type 0 where
  pub events : EventBuffer
  pub pending : PendingBatches

-- How the confirmation of a receipt by the shipper of its group ends.
pub data Confirmation : Type 0 where
  no_shipper confirm_raised : Confirmation
  confirms : Bool → Confirmation

-- a batch_id that is a string
abbrev pub batch_id_of : Option Json → Option String
batch_id_of (some (str s)) = some s
batch_id_of v = none

abbrev pub batch_id : Fields → Option String
batch_id payload = batch_id_of (Dict.get "batch_id" (to_dict payload))

unfoldable pub handle_events_batch_ack : Queues → Option String → Queues × Handled
unfolding Buffer.ack
handle_events_batch_ack q none = (q, done [])
handle_events_batch_ack q (some i) = (record q { events = (Buffer.ack q.events i).0 }, done [])

abbrev pub noted : String → Option ℕ → List Effect
noted i none = []
noted i (some dropped) = events_nacked i dropped ∷ []

unfoldable pub handle_events_batch_nack : Queues → Option String → Queues × Handled
unfolding Buffer.nack
handle_events_batch_nack q none = (q, done [])
handle_events_batch_nack q (some i) =
    let r = Buffer.nack q.events i in (record q { events = r.0 }, done (noted i r.1))

abbrev pub is_confirmed : Confirmation → Bool
is_confirmed (confirms b) = b
is_confirmed c = false

abbrev pub after_confirm : Confirmation → Handled
after_confirm confirm_raised = raised []
after_confirm c = done []

-- While the shipper confirms the receipt in a thread, the other tasks run: `meanwhile` is what they
-- make of the queues.
abbrev pub release_receipt :
    (Receipt → Confirmation)
    → (Queues → Queues)
    → Queues
    → String
    → Option Receipt
    → Queues × Handled
release_receipt confirm meanwhile q i none = (q, done [])
release_receipt confirm meanwhile q i (some receipt) =
    let c = confirm receipt in
    let met = meanwhile q in
    (record met { pending = (pop met.pending i (is_confirmed c)).0 }, after_confirm c)

unfoldable pub handle_log_batch_ack :
    (Receipt → Confirmation) → (Queues → Queues) → Queues → Option String → Queues × Handled
unfolding peek pop
handle_log_batch_ack confirm meanwhile q none = (q, done [])
handle_log_batch_ack confirm meanwhile q (some i) =
    release_receipt confirm meanwhile q i (peek q.pending i)

abbrev pub push_of : String → List Effect
push_of push_id = if push_id == "" then [] else acknowledges_push push_id ∷ []

abbrev pub after_metrics_ack : Result Json → Handled
after_metrics_ack (err e) = protocol_error [] e
after_metrics_ack (ok built) =
    done (push_of (str_of (Dict.get "push_id" (to_dict (fields_of (some built))))))

unfoldable pub handle_metrics_ack : Fields → Handled
unfolding decode
handle_metrics_ack payload =
    after_metrics_ack (decode (dataclass (decl "push_id" str_type true Codec.done)) (obj payload))
