-- ===== src/Events/Buffer/Ledger.antt =====
-- The method calls of the buffer of stormpulse/events.py, beside a ledger of where each stamped event
-- went.
use storm_pulse.Base.{
  if◌then◌else◌, ◌==◌, string_eq, pair_eq, nat_eq, length, ℕ, ◌+◌, ◌≤◌, ◌<◌, String, ◌≡◌, Bool,
  false, ◌&&◌, Option, some, List, [], ◌∷◌, ◌++◌,
}
use storm_pulse.Base.Int.{pos}
use storm_pulse.Json.{Json, int, str}
use storm_pulse.Base.Dict
use storm_pulse.Base.Dict.{Dict}
use storm_pulse.Events.Buffer.{
  Event, EventBuffer, new_buffer, extend, drain, ack, nack, requeue_unacked, max_in_flight_batches,
}
use storm_pulse.Events.Buffer.Counts.{held, or_zero, batch_of}

pub data Call : Type 0 where
  extend_call : List Event → ℕ → Call
  drain_call : String → ℕ → String → Call
  ack_call nack_call : String → Call
  requeue_call : Call

-- The buffer, and how many events were acked, refused by the control plane (nacked), told of in a
-- `dropped_events` that a drain added, refused before they were stamped, and told of as undeclared.
pub record Ledger : Type 0 where
  pub buffer : EventBuffer
  pub acked : ℕ
  pub nacked : ℕ
  pub reported : ℕ
  pub refused : ℕ
  pub reported_undeclared : ℕ

abbrev pub open_ledger : ℕ → Ledger
open_ledger max = record {
  buffer = new_buffer max;
  acked = 0;
  nacked = 0;
  reported = 0;
  refused = 0;
  reported_undeclared = 0;
}

abbrev pub is_dropped_events : Option Json → Option Json → Bool
is_dropped_events (some (str source)) (some (str kind)) =
    source == "events" && kind == "dropped_events"
is_dropped_events source kind = false

abbrev pub count_of : Option Json → ℕ
count_of (some (int (pos n))) = n
count_of v = 0

-- the number under `field` of a `dropped_events`
abbrev pub number : String → Event → ℕ
number field event =
    if is_dropped_events (Dict.get "source" event) (Dict.get "kind" event)
    then count_of (Dict.get field event)
    else 0

-- Of the queue after, where it has one event more than the queue before: what its first one tells.
abbrev pub told : String → ℕ → List Event → ℕ
told field before [] = 0
told field before (event ∷ queue) = if length queue == before then number field event else 0

-- what the events that are sent out or left tell of
abbrev pub told_by : String → EventBuffer → EventBuffer × List Event → ℕ
told_by field before (after, out) = told field (length before.buf) (out ++ after.buf)

unfoldable pub call : Ledger → Call → Ledger
call l (extend_call batch n) = record l {
  buffer = (extend l.buffer batch n).0;
  refused = l.refused + n;
}
call l (drain_call batch_id n now) = record l {
  buffer = (drain l.buffer batch_id n now).0;
  reported = l.reported + told_by "dropped" l.buffer (drain l.buffer batch_id n now);
  reported_undeclared =
      l.reported_undeclared + told_by "undeclared" l.buffer (drain l.buffer batch_id n now);
}
call l (ack_call batch_id) = record l {
  buffer = (ack l.buffer batch_id).0;
  acked = l.acked + length (batch_of (Dict.get batch_id l.buffer.in_flight));
}
call l (nack_call batch_id) = record l {
  buffer = (nack l.buffer batch_id).0;
  nacked = l.nacked + or_zero (nack l.buffer batch_id).1;
}
call l requeue_call = record l { buffer = (requeue_unacked l.buffer).0 }

unfoldable pub calls : Ledger → List Call → Ledger
calls l [] = l
calls l (c ∷ cs) = calls (call l c) cs

-- `drain` is called with an id that names no batch in flight (a fresh uuid) and a cap above 0.
abbrev pub IsFresh : Ledger → Call → Type 0
IsFresh l (drain_call batch_id n now) = (Dict.has batch_id l.buffer.in_flight ≡ false) × (0 < n)
IsFresh l _ = Unit {0}

abbrev pub AllFresh : Ledger → List Call → Type 0
AllFresh l [] = Unit {0}
AllFresh l (c ∷ cs) = IsFresh l c × AllFresh (call l c) cs

pub record IsBalanced (l : Ledger) : Type 0 where
  pub room : 0 < l.buffer.max
  pub bounded : length l.buffer.buf ≤ l.buffer.max
  pub in_flight : length l.buffer.in_flight ≤ max_in_flight_batches
  pub stamped : l.buffer.seq ≡ held l.buffer + l.buffer.dropped + l.acked + l.nacked + l.reported
  pub refusals : l.refused ≡ l.buffer.undeclared + l.reported_undeclared
