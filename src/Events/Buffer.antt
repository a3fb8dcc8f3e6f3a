-- ===== src/Events/Buffer.antt =====
-- `EventBuffer` of stormpulse/events.py. Each method takes the lock for its whole body, so a method
-- is one function from state to state. A deque is a list with its left end first. An event is the
-- dict that it is in the source. The agent builds its one buffer with room for 4096 events; at
-- room 0 `popleft` would raise on an empty deque, which is not modelled.
use storm_pulse.Base.{
  ℕ, suc, ◌+◌, ◌-◌, String, Bool, true, false, not, ◌&&◌, ◌||◌, Option, none, some, List, [], ◌∷◌,
  ◌++◌, ltb, leb, string_eq, if◌then◌else◌, length, take, drop, any,
}
use storm_pulse.Base.Dict
use storm_pulse.Base.Dict.{Dict}
use storm_pulse.Base.Int.{ℤ, pos}
use storm_pulse.Json.{Json, int, str}
pub mod Counts
pub mod Order
pub mod Ledger
pub mod Runs
pub mod Seqs
pub mod Ranges
mod Tests

abbrev pub max_in_flight_batches : ℕ
max_in_flight_batches = 32

abbrev pub Event : Type 0
Event = Dict String Json

pub record EventBuffer : Type 0 where
  pub buf : List Event
  pub max : ℕ
  pub seq : ℕ
  pub dropped : ℕ
  pub undeclared : ℕ
  pub in_flight : Dict String (List Event)

abbrev pub new_buffer : ℕ → EventBuffer
new_buffer max_events = record {
  buf = [];
  max = max_events;
  seq = 0;
  dropped = 0;
  undeclared = 0;
  in_flight = [];
}

-- event["seq"] = n
unfoldable pub stamp : ℕ → Event → Event
stamp n event = Dict.put "seq" (int (pos n)) event

-- one round of the loop of `extend`
unfoldable pub push : EventBuffer → Event → EventBuffer
push b event =
    let n = b.seq + 1 in
    if leb b.max (length b.buf)
    then record b { buf = drop 1 b.buf ++ stamp n event ∷ []; seq = n; dropped = b.dropped + 1 }
    else record b { buf = b.buf ++ stamp n event ∷ []; seq = n }

unfoldable pub push_all : EventBuffer → List Event → EventBuffer
push_all b [] = b
push_all b (event ∷ batch) = push_all (push b event) batch

-- The result is the buffer and the range of stamped seqs, by its first and the one past its last.
unfoldable pub extend : EventBuffer → List Event → ℕ → EventBuffer × (ℕ × ℕ)
extend b batch refused =
    let b' = push_all (record b { undeclared = b.undeclared + refused }) batch in
    (b', (b.seq + 1, b'.seq + 1))

abbrev pub append : EventBuffer → Event → EventBuffer
append b event = (extend b (event ∷ []) 0).0

abbrev pub refuse : EventBuffer → EventBuffer
refuse b = record b { undeclared = b.undeclared + 1 }

abbrev pub room : EventBuffer → ℕ
room b = b.max - length b.buf

-- [e for batch in in_flight.values() for e in batch]
unfoldable pub batches : Dict String (List Event) → List Event
batches [] = []
batches ((k, batch) ∷ d) = batch ++ batches d

abbrev pub in_range : ℕ × ℕ → Option Json → Bool
in_range r (some (int (pos n))) = leb r.0 n && ltb n r.1
in_range r _ = false

unfoldable pub holds_any : EventBuffer → ℕ × ℕ → Bool
holds_any b seqs = any (λ e. in_range seqs (Dict.get "seq" e)) (b.buf ++ batches b.in_flight)

-- the event that tells of losses
abbrev pub dropped_event : String → ℕ → ℕ → Event
dropped_event now dropped undeclared =
    ("ts", str now)
    ∷ ("source", str "events")
    ∷ ("kind", str "dropped_events")
    ∷ ("dropped", int (pos dropped))
    ∷ ("undeclared", int (pos undeclared))
    ∷ []

-- the first `if` of `drain`
unfoldable pub report : EventBuffer → String → EventBuffer
report b now =
    if ltb 0 b.dropped || ltb 0 b.undeclared
    then record b {
      buf = stamp (b.seq + 1) (dropped_event now b.dropped b.undeclared) ∷ b.buf;
      seq = b.seq + 1;
      dropped = 0;
      undeclared = 0;
    }
    else b

-- while len(in_flight) > MAX_IN_FLIGHT_BATCHES: the oldest batch goes, and is counted
unfoldable pub evict : Dict String (List Event) → ℕ → Dict String (List Event) × ℕ
evict [] dropped = ([], dropped)
evict ((k, batch) ∷ d) dropped =
    if ltb max_in_flight_batches (suc (length d))
    then evict d (dropped + length batch)
    else ((k, batch) ∷ d, dropped)

-- the part of `drain` after the batch is cut off
unfoldable pub send_out : EventBuffer → String → List Event → EventBuffer
send_out b batch_id [] = b
send_out b batch_id (e ∷ out) =
    let (d, n) = evict (Dict.put batch_id (e ∷ out) b.in_flight) b.dropped in
    record b { in_flight = d; dropped = n }

unfoldable pub drain : EventBuffer → String → ℕ → String → EventBuffer × List Event
drain b batch_id max_events now =
    let r = report b now in
    let out = take max_events r.buf in
    (send_out (record r { buf = drop max_events r.buf }) batch_id out, out)

unfoldable pub ack : EventBuffer → String → EventBuffer × Bool
ack b batch_id =
    (record b { in_flight = Dict.remove batch_id b.in_flight }, Dict.has batch_id b.in_flight)

abbrev count_of : Option (List Event) → Option ℕ
count_of none = none
count_of (some batch) = some (length batch)

unfoldable pub nack : EventBuffer → String → EventBuffer × Option ℕ
nack b batch_id = (
  record b { in_flight = Dict.remove batch_id b.in_flight },
  count_of (Dict.get batch_id b.in_flight),
)

-- while len(buf) > max: popleft
unfoldable pub trim : ℕ → List Event → ℕ → List Event × ℕ
trim max [] dropped = ([], dropped)
trim max (e ∷ buf) dropped =
    if ltb max (suc (length buf)) then trim max buf (dropped + 1) else (e ∷ buf, dropped)

unfoldable pub requeue_unacked : EventBuffer → EventBuffer × ℕ
requeue_unacked b =
    let unacked = batches b.in_flight in
    let (buf', n) = trim b.max (unacked ++ b.buf) b.dropped in
    (record b { buf = buf'; in_flight = []; dropped = n }, length unacked)
