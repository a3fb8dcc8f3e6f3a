-- ===== src/Jobs/Attempts/Ends.antt =====
-- How the attempts of one job end (stormpulse/commands/jobs.py): within a number of rounds that the
-- declared window bounds, and never by a result that no attempt bound.
use storm_pulse.Base.{
  if◌then◌else◌, ◌==◌, string_eq, pair_eq, nat_eq, ℕ, zero, suc, ◌+◌, ◌*◌, ◌≤◌, ◌<◌, String, ◌≡◌,
  refl, ◌≢◌, Bool, true, false, ◌||◌, Option, none, some, arith,
}
use storm_pulse.Auth.{second}
use storm_pulse.Commands.Spec.{is_some}
use storm_pulse.Jobs.Outcome.{JobOutcome, outcome_ok}
use storm_pulse.Jobs.Attempts.{
  Rounds, RetryWindow, open_window, grants, admits, attempt, Ending, finished, stopped, unbound,
  out_of_fuel, Progress, run, first_round, opened, attempted, next_round, granted, terminal,
  deadline_or,
}

abbrev pub whole_seconds : Option ℕ → ℕ
whole_seconds none = 0
whole_seconds (some s) = s

-- What one terminal result may say of a job whose retries are limited to a window.
abbrev pub Settles : Rounds → Option ℕ → Ending → Type 0
Settles rounds window_s (finished o tally) =
    (1 ≤ tally.attempts)
    × (tally.attempts ≤ whole_seconds window_s + 1)
    × (tally.retries_exhausted ≡ is_some o.retry_after_s)
Settles rounds window_s stopped = (k : ℕ) × (rounds.closing k ≡ true)
Settles rounds window_s unbound = ⊥
Settles rounds window_s out_of_fuel = ⊥

-- `time.monotonic()` does not go back, and `asyncio.sleep(d)` takes at least `d` seconds; an outcome
-- that was constructed is valid.
pub record IsTimed (message : String → String) (rounds : Rounds) : Type 0 where
  pub admitted : (k : ℕ) → rounds.opened_at k ≤ rounds.admitted_at k
  pub granted : (k : ℕ) → rounds.admitted_at k ≤ rounds.granted_at k
  pub slept :
      (k d : ℕ)
      → (attempt message (rounds.handled k)).retry_after_s ≡ some d
      → rounds.granted_at k + d * second ≤ rounds.opened_at (suc k)
  pub valid : (k : ℕ) → outcome_ok (attempt message (rounds.handled k)) ≡ true

round-Settles :
    (rounds : Rounds) (w : Option ℕ) (admitted closing granted : Bool)
    (again last_try earlier : Ending)
    → (closing ≡ true → Settles rounds w stopped)
    → (granted ≡ true → Settles rounds w again)
    → Settles rounds w last_try
    → (admitted ≡ false → Settles rounds w earlier)
    → Settles rounds w (
        if admitted
        then if closing then stopped else if granted then again else last_try
        else earlier)
round-Settles rounds w false closing granted again last_try earlier e a b c = c refl
round-Settles rounds w true true granted again last_try earlier e a b c = e refl
round-Settles rounds w true false true again last_try earlier e a b c = a refl
round-Settles rounds w true false false again last_try earlier e a b c = b

terminal-Settles :
    (rounds : Rounds) (w : Option ℕ) (p : Progress) (last : Option JobOutcome)
    → last ≢ none
    → 1 ≤ p.attempts
    → p.attempts ≤ whole_seconds w + 1
    → Settles rounds w (terminal p last)
terminal-Settles rounds w p none h tried within = absurd (h refl)
terminal-Settles rounds w p (some last) h tried within = (tried, within, refl)

module _ (message : String → String) (rounds : Rounds) (timed : IsTimed message rounds)
    (s : ℕ) where
  -- at the head of the loop, for a job with a window of `s` seconds
  record IsParked (p : Progress) : Type 0 where
    pub counted : p.attempts ≡ p.round
    pub within : p.round ≤ s
    pub due :
        deadline_or p.window.deadline p.window.window_s (rounds.opened_at p.round)
        ≡ some (rounds.opened_at 0 + s * second)
    pub elapsed : rounds.opened_at 0 + p.round * second ≤ rounds.opened_at p.round
    pub bound : 1 ≤ p.attempts → p.last ≢ none

  first_round-IsParked : IsParked (first_round (some s))
  first_round-IsParked = record {
    counted = refl;
    within = omega arith;
    due = refl;
    elapsed = omega arith;
    bound = λ h. absurd (omega (arith, h));
  }

  asked_positive : (k d : ℕ) → (attempt message (rounds.handled k)).retry_after_s ≡ some d → 1 ≤ d
  unfolding outcome_ok
  asked_positive k d h = ground (arith, timed.valid k)

  -- what `grants` answers once the deadline is set
  granted_in_time :
      (w : RetryWindow) (delay : Option ℕ) (now due : ℕ)
      → w.deadline ≡ some due
      → granted w delay now ≡ true
      → (d : ℕ) × (delay ≡ some d) × (now + d * second ≤ due)
  unfolding grants
  granted_in_time w none now due h g = absurd (ground arith)
  granted_in_time w (some d) now due h g = (d, refl, ground arith)

  parks_again :
      (p : Progress)
      → IsParked p
      → granted
          (opened message rounds p).window
          (attempt message (rounds.handled p.round)).retry_after_s
          (rounds.granted_at p.round)
        ≡ true
      → IsParked (next_round (attempted message rounds (opened message rounds p)))
  unfolding open_window
  parks_again p parked h =
      let k = p.round in
      let (d, asked, in_time) =
        granted_in_time (opened message rounds p).window _ (rounds.granted_at k) _ parked.due h in
      let positive = asked_positive k d asked in
      let slept = timed.slept k d asked in
      record {
        counted = omega (arith, parked.counted);
        within = omega (arith, in_time, parked.elapsed, timed.admitted k, timed.granted k);
        due = rw parked.due refl;
        elapsed = omega (arith, slept, positive, parked.elapsed, timed.admitted k, timed.granted k);
        bound = λ h. ground arith;
      }

  run-IsParked :
      (fuel : ℕ) (p : Progress)
      → IsParked p
      → s < fuel + p.round
      → Settles rounds (some s) (run message rounds fuel p)
  unfolding run
  run-IsParked zero p parked enough = omega (arith, parked.within)
  run-IsParked (suc fuel) p parked enough =
      let now = opened message rounds p in
      let tried = attempted message rounds now in
      round-Settles rounds (some s)
        (p.attempts == 0 || admits now.window (rounds.admitted_at p.round)) (rounds.closing p.round)
        _ _ (terminal tried tried.last) (terminal now p.last) (λ h. (p.round, h))
        (λ h. run-IsParked fuel _ (parks_again p parked h) (omega (arith, enough)))
        (omega arith, omega (arith, parked.counted, parked.within), refl)
        (λ refused.
          let tried : 1 ≤ p.attempts = ground (arith, refused) in
          terminal-Settles rounds (some s) now p.last (parked.bound tried) tried
            (omega (arith, parked.counted, parked.within)))

never_granted :
    (w : RetryWindow) (delay : Option ℕ) (now : ℕ) → w.deadline ≡ none → granted w delay now ≢ true
unfolding grants
never_granted w none now h g = ground arith
never_granted w (some d) now h g = ground arith

-- A job whose clock does not go back ends within one round more than its window has seconds: unless
-- the connection closes, it has exactly one terminal result, of at least one and at most that many
-- attempts, which says `retries_exhausted` exactly if the last outcome still asked to run again.
-- Without a window there is one attempt.
pub run-Settles :
    (message : String → String) (rounds : Rounds) (timed : IsTimed message rounds)
    (window_s : Option ℕ) (fuel : ℕ)
    → whole_seconds window_s < fuel
    → Settles rounds window_s (run message rounds fuel (first_round window_s))
unfolding run open_window
run-Settles message rounds timed (some s) fuel enough =
    run-IsParked message rounds timed s fuel _ (first_round-IsParked message rounds timed s)
      (omega (arith, enough))
run-Settles message rounds timed none zero enough = absurd (omega (arith, enough))
run-Settles message rounds timed none (suc fuel) enough =
    let now = opened message rounds (first_round none) in
    let tried = attempted message rounds now in
    let delay = (attempt message (rounds.handled 0)).retry_after_s in
    round-Settles rounds none true (rounds.closing 0)
      (granted now.window delay (rounds.granted_at 0)) (run message rounds fuel (next_round tried))
      (terminal tried tried.last) (terminal now now.last) (λ h. (0, h))
      (λ h. absurd (never_granted now.window delay (rounds.granted_at 0) refl h))
      (omega arith, omega arith, refl) (λ h. absurd (cc))
