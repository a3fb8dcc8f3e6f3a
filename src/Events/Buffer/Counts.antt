-- ===== src/Events/Buffer/Counts.antt =====
-- How each method of `EventBuffer` (stormpulse/events.py) changes the number of events that it
-- holds and the number that it counts as lost.
use storm_pulse.Base.{
  ℕ, ◌+◌, ◌≤◌, ◌<◌, ◌≡◌, refl, String, false, Option, none, some, List, [], ◌∷◌, arith, string_eq,
  length, drop, length-append, length-drop,
}
use storm_pulse.Base.Dict
use storm_pulse.Base.Dict.{Dict}
use storm_pulse.Events.Buffer.{
  Event, EventBuffer, stamp, push, push_all, batches, evict, trim, max_in_flight_batches,
}

-- Events buffered or in flight.
abbrev pub held : EventBuffer → ℕ
held b = length b.buf + length (batches b.in_flight)

abbrev pub or_zero : Option ℕ → ℕ
or_zero none = 0
or_zero (some n) = n

-- The batch under an id, empty for an unknown one.
abbrev pub batch_of : Option (List Event) → List Event
batch_of none = []
batch_of (some batch) = batch

pub length-batches-remove :
    (k : String) (d : Dict String (List Event))
    → length (batches d) ≡ length (batches (Dict.remove k d)) + length (batch_of (Dict.get k d))
unfolding batches Dict.remove Dict.get
length-batches-remove k [] = omega arith
length-batches-remove k ((i, b) ∷ d) = ground (
  arith,
  length-append b (batches d),
  length-append b (batches (Dict.remove k d)),
  length-batches-remove k d,
)

pub length-batches-put :
    (k : String) (b : List Event) (d : Dict String (List Event))
    → Dict.has k d ≡ false
    → length (batches (Dict.put k b d)) ≡ length (batches d) + length b
unfolding batches Dict.put Dict.has
length-batches-put k b [] h = omega (arith, length-append b [])
length-batches-put k b ((i, c) ∷ d) h = ground (
  arith,
  length-append c (batches d),
  length-append c (batches (Dict.put k b d)),
  length-batches-put k b d,
)

module _ (b : EventBuffer) where
  pub push_counts :
      (e : Event)
      → 0 < b.max
      → (held (push b e) + (push b e).dropped ≡ held b + b.dropped + 1)
        × ((push b e).seq ≡ b.seq + 1)
  unfolding push
  push_counts e h = ground (
    arith,
    length-append b.buf (stamp (b.seq + 1) e ∷ []),
    length-append (drop 1 b.buf) (stamp (b.seq + 1) e ∷ []),
    length-drop 1 b.buf,
  )

  pub push_keeps :
      (e : Event)
      → ((push b e).max ≡ b.max)
        × ((push b e).in_flight ≡ b.in_flight)
        × ((push b e).undeclared ≡ b.undeclared)
  unfolding push
  push_keeps e = ground arith

  pub length-push-le :
      (e : Event) → 0 < b.max → length b.buf ≤ b.max → length (push b e).buf ≤ b.max
  unfolding push
  length-push-le e p h = ground (
    arith,
    length-append b.buf (stamp (b.seq + 1) e ∷ []),
    length-append (drop 1 b.buf) (stamp (b.seq + 1) e ∷ []),
    length-drop 1 b.buf,
  )

pub push_all_keeps :
    (batch : List Event) (b : EventBuffer)
    → ((push_all b batch).max ≡ b.max)
      × ((push_all b batch).in_flight ≡ b.in_flight)
      × ((push_all b batch).undeclared ≡ b.undeclared)
unfolding push_all
push_all_keeps [] b = (refl, refl, refl)
push_all_keeps (e ∷ batch) b = ground (arith, push_keeps b e, push_all_keeps batch (push b e))

pub push_all_counts :
    (batch : List Event) (b : EventBuffer)
    → 0 < b.max
    → (held (push_all b batch) + (push_all b batch).dropped ≡ held b + b.dropped + length batch)
      × ((push_all b batch).seq ≡ b.seq + length batch)
unfolding push_all
push_all_counts [] b h = (omega arith, omega arith)
push_all_counts (e ∷ batch) b h =
    let keeps = push_keeps b e in
    let counts = push_counts b e h in
    let rest = push_all_counts batch (push b e) (omega (arith, keeps.0)) in
    (omega (arith, counts.0, rest.0), omega (arith, counts.1, rest.1))

pub length-push_all-le :
    (batch : List Event) (b : EventBuffer)
    → 0 < b.max
    → length b.buf ≤ b.max
    → length (push_all b batch).buf ≤ b.max
unfolding push_all
length-push_all-le [] b p h = h
length-push_all-le (e ∷ batch) b p h =
    let keeps = push_keeps b e in
    omega (
      arith,
      keeps.0,
      length-push_all-le batch (push b e) (omega (arith, keeps.0))
          (omega (arith, keeps.0, length-push-le b e p h)),
    )

pub evict_counts :
    (d : Dict String (List Event)) (n : ℕ)
    → length (batches (evict d n).0) + (evict d n).1 ≡ length (batches d) + n
unfolding evict batches
evict_counts [] n = refl
evict_counts ((k, c) ∷ d) n =
    ground (arith, length-append c (batches d), evict_counts d (n + length c))

-- At most 32 batches stay in flight.
pub length-evict-le :
    (d : Dict String (List Event)) (n : ℕ) → length (evict d n).0 ≤ max_in_flight_batches
unfolding evict
length-evict-le [] n = omega arith
length-evict-le ((k, c) ∷ d) n = ground (arith, length-evict-le d (n + length c))

pub trim_counts :
    (max : ℕ) (xs : List Event) (n : ℕ)
    → length (trim max xs n).0 + (trim max xs n).1 ≡ length xs + n
unfolding trim
trim_counts max [] n = refl
trim_counts max (e ∷ xs) n = ground (arith, trim_counts max xs (n + 1))

pub length-trim-le : (max : ℕ) (xs : List Event) (n : ℕ) → length (trim max xs n).0 ≤ max
unfolding trim
length-trim-le max [] n = omega arith
length-trim-le max (e ∷ xs) n = ground (arith, length-trim-le max xs (n + 1))
