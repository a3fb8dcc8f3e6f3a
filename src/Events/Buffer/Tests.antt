-- ===== src/Events/Buffer/Tests.antt =====
-- The buffer of stormpulse/events.py on concrete traces.
use storm_pulse.Base.{
  string_eq, pair_eq, nat_eq, ℕ, ◌≤◌, ◌<◌, String, ◌≡◌, refl, ◌↔◌, false, List, [], ◌∷◌, ◌++◌,
  arith,
}
use storm_pulse.Base.Dict
use storm_pulse.Json.{str, int}
use storm_pulse.Base.Int.{pos}
use storm_pulse.Events.Buffer.{
  Event, EventBuffer, new_buffer, stamp, push, push_all, extend, batches, holds_any, report,
  send_out, evict, drain, ack, nack, trim, requeue_unacked,
}
use storm_pulse.Events.Buffer.Order.{last_of, stamp_all, extend_keeps_newest, requeue-drain}
use storm_pulse.Events.Buffer.Runs.{events_are_accounted_for}
use storm_pulse.Events.Buffer.Ledger.{
  ack_call, nack_call, Call, extend_call, drain_call, requeue_call, open_ledger, call, calls,
  AllFresh, IsBalanced,
}
use storm_pulse.Events.Buffer.Ranges.{holds_any_iff}
use storm_pulse.Events.Buffer.Seqs.{HasUniqueSeqs, holds, seqs_are_unique}

abbrev event : String → Event
event kind = ("kind", str kind) ∷ []

abbrev stamped : String → ℕ → Event
stamped kind n = ("kind", str kind) ∷ ("seq", int (pos n)) ∷ []

abbrev two_events : EventBuffer
two_events = record (new_buffer 2) { buf = stamped "up" 1 ∷ stamped "down" 2 ∷ []; seq = 2 }

-- three events into room for two, with one refused, then drains that are nacked, acked and requeued
abbrev trace : List Call
trace =
    extend_call (event "up" ∷ event "down" ∷ event "up" ∷ []) 1
    ∷ drain_call "b1" 2 "t1"
    ∷ nack_call "b1"
    ∷ drain_call "b2" 5 "t2"
    ∷ ack_call "b2"
    ∷ extend_call (event "down" ∷ []) 0
    ∷ drain_call "b3" 1 "t3"
    ∷ requeue_call
    ∷ []

trace-AllFresh : AllFresh (open_ledger 2) trace
unfolding calls call extend push_all push stamp drain report send_out evict ack nack requeue_unacked
    trim batches Dict.put Dict.has Dict.get Dict.remove
trace-AllFresh = (
  tt,
  ((refl, omega arith), (tt, ((refl, omega arith), (tt, (tt, ((refl, omega arith), (tt, tt))))))),
)

events_are_accounted_for_example : IsBalanced (calls (open_ledger 2) trace)
events_are_accounted_for_example = events_are_accounted_for 2 trace (omega arith) trace-AllFresh

seqs_are_unique_example : HasUniqueSeqs (calls (open_ledger 2) trace).buffer
seqs_are_unique_example = seqs_are_unique 2 trace

extend_keeps_newest_example :
    ((extend two_events (event "up" ∷ []) 3).0.buf
      ≡ last_of 2 (two_events.buf ++ stamp_all 2 (event "up" ∷ [])))
    × ((extend two_events (event "up" ∷ []) 3).1 ≡ (3, 4))
extend_keeps_newest_example =
    extend_keeps_newest two_events (event "up" ∷ []) 3 (omega arith) (omega arith)

requeue-drain_example :
    (requeue_unacked (drain two_events "b1" 1 "t1").0).0 ≡ (requeue_unacked two_events).0
requeue-drain_example =
    requeue-drain two_events "b1" 1 "t1" refl refl (unfold Dict.has in refl) (omega arith)

holds_any_example :
    (holds_any two_events (3, 5) ≡ false) ↔ ((n : ℕ) → 3 ≤ n → n < 5 → holds n two_events ≡ 0)
holds_any_example = holds_any_iff two_events 3 5
