-- ===== src/Events/Buffer/Order.antt =====
-- What the buffer of stormpulse/events.py keeps when it is full, and what a reconnect puts back.
use storm_pulse.Base.{
  ℕ, suc, ◌+◌, ◌≤◌, ◌<◌, ◌≡◌, refl, ap, ◌∙◌, sym, String, false, List, [], ◌∷◌, ◌++◌, arith, ltb,
  leb, string_eq, length, take, drop, length-append, take-append-drop, if◌then◌else◌,
}
use mathlib.Core.List.{append_assoc, append-nil}
use storm_pulse.Base.Dict
use storm_pulse.Base.Dict.{Dict}
use storm_pulse.Events.Buffer.{
  Event, EventBuffer, stamp, push, push_all, extend, batches, report, evict, send_out, drain, trim,
  requeue_unacked, max_in_flight_batches,
}
use storm_pulse.Events.Buffer.Counts.{push_keeps, length-push-le}

-- The specification of a bounded queue that drops its oldest: the last `n` elements.
pub last_of {ℓ} : {A : Type ℓ} → ℕ → List A → List A
last_of n [] = []
last_of n (x ∷ xs) = if ltb n (suc (length xs)) then last_of n xs else x ∷ xs

last_of_short {ℓ} : {A : Type ℓ} (n : ℕ) (xs : List A) → length xs ≤ n → last_of n xs ≡ xs
unfolding last_of
last_of_short n [] h = refl
last_of_short n (x ∷ xs) h = ground arith

last_of-last_of {ℓ} :
    {A : Type ℓ} (n : ℕ) (xs ys : List A) → last_of n (last_of n xs ++ ys) ≡ last_of n (xs ++ ys)
unfolding last_of
last_of-last_of n [] ys = refl
last_of-last_of n (x ∷ xs) ys = ground (arith, last_of-last_of n xs ys, length-append xs ys)

last_of-snoc {ℓ} :
    {A : Type ℓ} (n : ℕ) (xs : List A) (y : A)
    → 0 < n
    → length xs ≤ n
    → last_of n (xs ++ y ∷ []) ≡ (if leb n (length xs) then drop 1 xs ++ y ∷ [] else xs ++ y ∷ [])
unfolding last_of
last_of-snoc n [] y p h = ground arith
last_of-snoc n (x ∷ xs) y p h =
    ground (arith, length-append xs (y ∷ []), last_of_short n (xs ++ y ∷ []))

pub stamp_all : ℕ → List Event → List Event
stamp_all n [] = []
stamp_all n (e ∷ batch) = stamp (n + 1) e ∷ stamp_all (n + 1) batch

push-last_of :
    (b : EventBuffer) (e : Event)
    → 0 < b.max
    → length b.buf ≤ b.max
    → (push b e).buf ≡ last_of b.max (b.buf ++ stamp (b.seq + 1) e ∷ [])
unfolding push
push-last_of b e p h = ground (arith, last_of-snoc b.max b.buf (stamp (b.seq + 1) e))

seq-push : (b : EventBuffer) (e : Event) → (push b e).seq ≡ b.seq + 1
unfolding push
seq-push b e = ground arith

push_all-last_of :
    (batch : List Event) (b : EventBuffer)
    → 0 < b.max
    → length b.buf ≤ b.max
    → (push_all b batch).buf ≡ last_of b.max (b.buf ++ stamp_all b.seq batch)
unfolding push_all stamp_all
push_all-last_of [] b p h = rw append-nil (sym (last_of_short b.max b.buf h))
push_all-last_of (e ∷ batch) b p h =
    let keeps = push_keeps b e in
    let rest =
      push_all-last_of batch (push b e) (omega (arith, keeps.0))
        (omega (arith, keeps.0, length-push-le b e p h)) in
    rest
    ∙ rw (keeps.0, seq-push b e, push-last_of b e p h, last_of-last_of)
        (ap (last_of b.max)
          (append_assoc b.buf (stamp (b.seq + 1) e ∷ []) (stamp_all (b.seq + 1) batch)))

seq-push_all :
    (batch : List Event) (b : EventBuffer) → (push_all b batch).seq ≡ b.seq + length batch
unfolding push_all
seq-push_all [] b = omega arith
seq-push_all (e ∷ batch) b = omega (arith, seq-push b e, seq-push_all batch (push b e))

-- `extend` on a buffer within its bound keeps exactly the newest `max` events, in the order in which
-- they came, and returns the range of the stamped numbers: one for each event of the batch, from the
-- one after the last number given out.
pub extend_keeps_newest :
    (b : EventBuffer) (batch : List Event) (refused : ℕ)
    → 0 < b.max
    → length b.buf ≤ b.max
    → ((extend b batch refused).0.buf ≡ last_of b.max (b.buf ++ stamp_all b.seq batch))
      × ((extend b batch refused).1 ≡ (b.seq + 1, b.seq + length batch + 1))
unfolding extend
extend_keeps_newest b batch refused p h =
    let b' = record b { undeclared = b.undeclared + refused } in
    (push_all-last_of batch b' p h, ground (arith, seq-push_all batch b'))

trim-last_of : (max : ℕ) (xs : List Event) (n : ℕ) → (trim max xs n).0 ≡ last_of max xs
unfolding trim last_of
trim-last_of max [] n = refl
trim-last_of max (e ∷ xs) n = ground (arith, trim-last_of max xs (n + 1))

batches-put :
    (k : String) (out : List Event) (d : Dict String (List Event))
    → Dict.has k d ≡ false
    → batches (Dict.put k out d) ≡ batches d ++ out
unfolding batches Dict.put Dict.has
batches-put k out [] f = append-nil out
batches-put k out ((i, c) ∷ d) f =
    ground (arith, batches-put k out d, append_assoc c (batches d) out)

length-put :
    (k : String) (out : List Event) (d : Dict String (List Event))
    → Dict.has k d ≡ false
    → length (Dict.put k out d) ≡ length d + 1
unfolding Dict.put Dict.has
length-put k out [] f = omega arith
length-put k out ((i, c) ∷ d) f = ground (arith, length-put k out d)

evict_none :
    (d : Dict String (List Event)) (n : ℕ) → length d ≤ max_in_flight_batches → evict d n ≡ (d, n)
unfolding evict
evict_none [] n h = refl
evict_none ((k, c) ∷ d) n h = ground arith

requeue-send_out :
    (b : EventBuffer) (batch_id : String) (out rest : List Event)
    → b.buf ≡ out ++ rest
    → Dict.has batch_id b.in_flight ≡ false
    → length b.in_flight < max_in_flight_batches
    → (requeue_unacked (send_out (record b { buf = rest }) batch_id out)).0 ≡ (requeue_unacked b).0
unfolding requeue_unacked send_out
requeue-send_out b batch_id [] rest e f h = ground arith
requeue-send_out b batch_id (x ∷ out) rest e f h = rw (
  evict_none (Dict.put batch_id (x ∷ out) b.in_flight) b.dropped
      (omega (arith, length-put batch_id (x ∷ out) b.in_flight f)),
  batches-put batch_id (x ∷ out) b.in_flight f,
  append_assoc,
  e,
)

-- With no loss waiting to be told of, a fresh batch id and room for one more batch in flight, a batch
-- that is drained and never acked changes nothing that a reconnect leaves: requeueing after the
-- drain gives the same buffer as requeueing without it, every event in its old place.
pub requeue-drain :
    (b : EventBuffer) (batch_id : String) (n : ℕ) (now : String)
    → b.dropped ≡ 0
    → b.undeclared ≡ 0
    → Dict.has batch_id b.in_flight ≡ false
    → length b.in_flight < max_in_flight_batches
    → (requeue_unacked (drain b batch_id n now).0).0 ≡ (requeue_unacked b).0
unfolding drain report
requeue-drain b batch_id n now d u f h = ground (
  arith,
  requeue-send_out b batch_id (take n b.buf) (drop n b.buf) (sym (take-append-drop n b.buf)) f h,
)

-- A reconnect puts the unacked batches, oldest first, before what is buffered, keeps the newest
-- `max` events of that, and leaves nothing in flight.
pub requeue_unacked_lem :
    (b : EventBuffer)
    → ((requeue_unacked b).0.buf ≡ last_of b.max (batches b.in_flight ++ b.buf))
      × ((requeue_unacked b).0.in_flight ≡ [])
      × ((requeue_unacked b).1 ≡ length (batches b.in_flight))
unfolding requeue_unacked
requeue_unacked_lem b = (trim-last_of b.max (batches b.in_flight ++ b.buf) b.dropped, refl, refl)
