-- ===== src/Events/Buffer/Runs.antt =====
-- Any sequence of method calls of the buffer of stormpulse/events.py keeps its ledger balanced.
use storm_pulse.Base.{
  ltb, Bool-cases, beq_refl, string_eq, pair_eq, nat_eq, length, take, drop, length-append,
  take-append-drop, length-take-add-drop, length-drop, ℕ, ◌+◌, ◌≤◌, ◌<◌, String, ◌≡◌, refl, ap, ◌∙◌,
  inl, inr, false, ◌||◌, List, [], ◌∷◌, ◌++◌, arith,
}
use storm_pulse.Base.Dict
use storm_pulse.Base.Dict.{Dict}
use storm_pulse.Events.Buffer.{
  Event, EventBuffer, stamp, dropped_event, extend, batches, report, send_out, drain, ack, nack,
  requeue_unacked, max_in_flight_batches,
}
use storm_pulse.Events.Buffer.Counts.{
  held, length-batches-remove, length-batches-put, push_all_keeps, push_all_counts,
  length-push_all-le, evict_counts, length-evict-le, trim_counts, length-trim-le,
}
use storm_pulse.Events.Buffer.Ledger.{
  drain_call, requeue_call, extend_call, ack_call, nack_call, IsBalanced, calls, Ledger, Call,
  IsFresh, open_ledger, AllFresh, call, told, told_by, number,
}

length-remove-le : (k : String) (d : Dict String (List Event)) → length (Dict.remove k d) ≤ length d
unfolding Dict.remove
length-remove-le k [] = omega arith
length-remove-le k ((i, b) ∷ d) = ground (arith, length-remove-le k d)

report_counts :
    (b : EventBuffer) (now : String)
    → ((report b now).seq + b.dropped + held b ≡ b.seq + held (report b now) + b.dropped)
      × ((report b now).dropped ≡ 0)
      × ((report b now).undeclared ≡ 0)
      × ((report b now).max ≡ b.max)
      × ((report b now).in_flight ≡ b.in_flight)
      × (length (report b now).buf ≤ length b.buf + 1)
unfolding report
report_counts b now = ground arith

told-same : (field : String) (buf : List Event) → told field (length buf) buf ≡ 0
told-same field [] = refl
told-same field (event ∷ buf) = ground arith

told-cons :
    (field : String) (event : Event) (buf : List Event)
    → told field (length buf) (event ∷ buf) ≡ number field event
told-cons field event buf = rw (beq_refl (length buf)) refl

-- A report is one event in front, which tells what the counters held; without it they held nothing.
told-report :
    (b : EventBuffer) (now : String)
    → (told "dropped" (length b.buf) (report b now).buf ≡ b.dropped)
      × (told "undeclared" (length b.buf) (report b now).buf ≡ b.undeclared)
unfolding report
told-report b now = elim (Bool-cases (ltb 0 b.dropped || ltb 0 b.undeclared)) [
  | inl e ↦
      let event = stamp (b.seq + 1) (dropped_event now b.dropped b.undeclared) in
      rw e (
        told-cons "dropped" event b.buf ∙ unfold stamp Dict.put Dict.get in refl,
        told-cons "undeclared" event b.buf ∙ unfold stamp Dict.put Dict.get in refl,
      )
  | inr e ↦ rw e (
    told-same "dropped" b.buf ∙ ground (arith, e),
    told-same "undeclared" b.buf ∙ ground (arith, e),
  )
]

send_out_keeps :
    (b : EventBuffer) (batch_id : String) (out : List Event)
    → ((send_out b batch_id out).buf ≡ b.buf)
      × ((send_out b batch_id out).seq ≡ b.seq)
      × ((send_out b batch_id out).max ≡ b.max)
      × ((send_out b batch_id out).undeclared ≡ b.undeclared)
unfolding send_out
send_out_keeps b batch_id [] = (refl, refl, refl, refl)
send_out_keeps b batch_id (e ∷ out) = (refl, refl, refl, refl)

drain_queue :
    (b : EventBuffer) (batch_id : String) (n : ℕ) (now : String)
    → (drain b batch_id n now).1 ++ (drain b batch_id n now).0.buf ≡ (report b now).buf
unfolding drain
drain_queue b batch_id n now =
    let r = report b now in
    let cut : EventBuffer = record r { buf = drop n r.buf } in
    rw (send_out_keeps cut batch_id (take n r.buf)).0 (take-append-drop n r.buf)

send_out_counts :
    (b : EventBuffer) (batch_id : String) (out : List Event)
    → Dict.has batch_id b.in_flight ≡ false
    → length b.in_flight ≤ max_in_flight_batches
    → (held (send_out b batch_id out) + (send_out b batch_id out).dropped
        ≡ held b + length out + b.dropped)
      × (length (send_out b batch_id out).in_flight ≤ max_in_flight_batches)
unfolding send_out
send_out_counts b batch_id [] f h = (omega arith, h)
send_out_counts b batch_id (e ∷ out) f h = (
  omega (
    arith,
    evict_counts (Dict.put batch_id (e ∷ out) b.in_flight) b.dropped,
    length-batches-put batch_id (e ∷ out) b.in_flight f,
  ),
  length-evict-le (Dict.put batch_id (e ∷ out) b.in_flight) b.dropped,
)

extend-IsBalanced :
    (l : Ledger) (batch : List Event) (n : ℕ)
    → IsBalanced l
    → IsBalanced (call l (extend_call batch n))
unfolding call extend
extend-IsBalanced l batch n v =
    let b = record (l.buffer) { undeclared = l.buffer.undeclared + n } in
    let keeps = push_all_keeps batch b in
    let counts = push_all_counts batch b v.room in
    record {
      room = omega (arith, keeps.0, v.room);
      bounded = omega (arith, keeps.0, length-push_all-le batch b v.room v.bounded);
      in_flight = rw keeps.1 v.in_flight;
      stamped = omega (arith, counts.0, counts.1, v.stamped);
      refusals = omega (arith, keeps.2, v.refusals);
    }

drain-IsBalanced :
    (l : Ledger) (batch_id : String) (n : ℕ) (now : String)
    → IsFresh l (drain_call batch_id n now)
    → IsBalanced l
    → IsBalanced (call l (drain_call batch_id n now))
unfolding call drain
drain-IsBalanced l batch_id n now (fresh, some_cap) v =
    let r = report l.buffer now in
    let reported = report_counts l.buffer now in
    let out = take n r.buf in
    let cut : EventBuffer = record r { buf = drop n r.buf } in
    let sent =
      send_out_counts cut batch_id out (rw (reported.4) fresh) (rw (reported.4) v.in_flight) in
    let keeps = send_out_keeps cut batch_id out in
    let split = length-take-add-drop n r.buf in
    let queue = drain_queue l.buffer batch_id n now in
    let told_is = told-report l.buffer now in
    let dropped_told : told_by "dropped" l.buffer (drain l.buffer batch_id n now)
        ≡ l.buffer.dropped =
      ap (told "dropped" (length l.buffer.buf)) queue ∙ told_is.0 in
    let undeclared_told : told_by "undeclared" l.buffer (drain l.buffer batch_id n now)
        ≡ l.buffer.undeclared =
      ap (told "undeclared" (length l.buffer.buf)) queue ∙ told_is.1 in
    let shorter = length-drop n r.buf in
    record {
      room = omega (arith, keeps.2, reported.3, v.room);
      bounded = rw (keeps.0, keeps.2) (omega (arith, shorter, reported.3, reported.5, v.bounded));
      in_flight = sent.1;
      stamped =
          omega (arith, sent.0, keeps.1, reported.0, reported.1, split, dropped_told, v.stamped);
      refusals = omega (arith, keeps.3, reported.2, undeclared_told, v.refusals);
    }

settle-IsBalanced :
    (l : Ledger) (batch_id : String)
    → IsBalanced l
    → IsBalanced (call l (ack_call batch_id)) × IsBalanced (call l (nack_call batch_id))
unfolding call ack nack
settle-IsBalanced l batch_id v =
    let d = l.buffer.in_flight in
    let smaller = length-remove-le batch_id d in
    let total = length-batches-remove batch_id d in
    (
      record {
        room = v.room;
        bounded = v.bounded;
        in_flight = omega (arith, smaller, v.in_flight);
        stamped = omega (arith, total, v.stamped);
        refusals = v.refusals;
      },
      record {
        room = v.room;
        bounded = v.bounded;
        in_flight = omega (arith, smaller, v.in_flight);
        stamped = ground (arith, total, v.stamped);
        refusals = v.refusals;
      },
    )

requeue-IsBalanced : (l : Ledger) → IsBalanced l → IsBalanced (call l requeue_call)
unfolding call requeue_unacked batches
requeue-IsBalanced l v =
    let b = l.buffer in
    let all = batches b.in_flight ++ b.buf in
    record {
      room = v.room;
      bounded = length-trim-le b.max all b.dropped;
      in_flight = omega arith;
      stamped = omega (
        arith,
        trim_counts b.max all b.dropped,
        length-append (batches b.in_flight) b.buf,
        v.stamped,
      );
      refusals = v.refusals;
    }

call-IsBalanced : (l : Ledger) (c : Call) → IsFresh l c → IsBalanced l → IsBalanced (call l c)
call-IsBalanced l (extend_call batch n) f v = extend-IsBalanced l batch n v
call-IsBalanced l (drain_call batch_id n now) f v = drain-IsBalanced l batch_id n now f v
call-IsBalanced l (ack_call batch_id) f v = (settle-IsBalanced l batch_id v).0
call-IsBalanced l (nack_call batch_id) f v = (settle-IsBalanced l batch_id v).1
call-IsBalanced l requeue_call f v = requeue-IsBalanced l v

calls-IsBalanced :
    (l : Ledger) (cs : List Call) → AllFresh l cs → IsBalanced l → IsBalanced (calls l cs)
unfolding calls
calls-IsBalanced l [] f v = v
calls-IsBalanced l (c ∷ cs) (f, fs) v = calls-IsBalanced (call l c) cs fs (call-IsBalanced l c f v)

-- From an empty buffer with room, after any sequence of calls whose drains use fresh ids and a cap
-- above 0: every event ever stamped is buffered, in flight, acked, nacked, counted in `dropped` or
-- told of by the number in a `dropped_events` that a drain put in front of the queue; every refused one is counted in `undeclared` or told of likewise; the
-- buffer holds at most `max` events and at most 32 batches are in flight.
pub events_are_accounted_for :
    (max : ℕ) (cs : List Call)
    → 0 < max
    → AllFresh (open_ledger max) cs
    → IsBalanced (calls (open_ledger max) cs)
events_are_accounted_for max cs h f = calls-IsBalanced (open_ledger max) cs f (record {
  room = h;
  bounded = omega arith;
  in_flight = omega arith;
  stamped = unfold batches in refl;
  refusals = refl;
})
