-- ===== src/Jobs/Attempts.antt =====
-- The attempts of one job (`_run`, `_RetryWindow` and `_attempt` of stormpulse/commands/jobs.py). A
-- round is one time through the loop, from the permit on; what the handler does in it, the readings of
-- the clock (in microseconds) and whether the connection is closing come from outside.
use storm_pulse.Base.{
  leb, if◌then◌else◌, ◌==◌, string_eq, pair_eq, nat_eq, ℕ, zero, suc, ◌+◌, ◌-◌, ◌*◌, ◌/◌, String,
  Bool, false, ◌||◌, Option, none, some,
}
use storm_pulse.Base.Int.{negsuc}
use storm_pulse.Json.{end}
use storm_pulse.Protocol.Reasons.{os_error}
use storm_pulse.Auth.{second}
use storm_pulse.Commands.Spec.{is_some}
use storm_pulse.Jobs.Outcome.{JobOutcome, Tally}
pub mod Ends

-- The handler of a round returns or raises.
pub data Handled : Type 0 where
  returned : JobOutcome → Handled
  raised : String → Handled

-- What the rounds of a job meet. `opened_at` is read when the permit is held, `admitted_at` by
-- `window.admits`, `started_at` and `ended_at` around the attempt, `granted_at` by `window.grants`.
pub record Rounds : Type 0 where
  pub handled : ℕ → Handled
  pub opened_at : ℕ → ℕ
  pub admitted_at : ℕ → ℕ
  pub started_at : ℕ → ℕ
  pub ended_at : ℕ → ℕ
  pub granted_at : ℕ → ℕ
  pub concurrent : ℕ → ℕ
  pub closing : ℕ → Bool

pub record RetryWindow : Type 0 where
  pub window_s : Option ℕ
  pub deadline : Option ℕ

abbrev pub new_window : Option ℕ → RetryWindow
new_window window_s = record { window_s = window_s; deadline = none }

abbrev pub deadline_or : Option ℕ → Option ℕ → ℕ → Option ℕ
deadline_or (some d) window_s now = some d
deadline_or none none now = none
deadline_or none (some s) now = some (now + s * second)

unfoldable pub open_window : RetryWindow → ℕ → RetryWindow
open_window w now = record w { deadline = deadline_or w.deadline w.window_s now }

abbrev pub grants_within : Option ℕ → ℕ → ℕ → Bool
grants_within none delay now = false
grants_within (some d) delay now = leb (now + delay * second) d

-- delay_s <= deadline - now
unfoldable pub grants : RetryWindow → ℕ → ℕ → Bool
grants w delay now = grants_within w.deadline delay now

unfoldable pub admits : RetryWindow → ℕ → Bool
unfolding grants
admits w now = grants w 0 now

-- `_attempt`: an exception becomes an os_error outcome. `message` is its text.
unfoldable pub attempt : (String → String) → Handled → JobOutcome
attempt message (returned o) = o
attempt message (raised name) = record {
  success = false;
  exit_code = negsuc 0;
  stdout = "";
  stderr = message name;
  failure_reason = some os_error;
  extras = end;
  error_code = none;
  upstream_code = none;
  retry_after_s = none;
}

-- How a job ends: with its one terminal result, without one because the connection closes, by a
-- result that was never bound, or not within the fuel.
pub data Ending : Type 0 where
  finished : JobOutcome → Tally → Ending
  stopped unbound out_of_fuel : Ending

-- int((ended - started) * 1000), of a difference in microseconds
abbrev pub millis : ℕ → ℕ → ℕ
millis started ended = (ended - started) / 1000

abbrev pub granted : RetryWindow → Option ℕ → ℕ → Bool
granted w none now = false
granted w (some delay) now = grants w delay now

-- what the loop carries from round to round
pub record Progress : Type 0 where
  pub round : ℕ
  pub attempts : ℕ
  pub work_ms : ℕ
  pub concurrent : ℕ
  pub last : Option JobOutcome
  pub window : RetryWindow

abbrev pub terminal : Progress → Option JobOutcome → Ending
terminal p none = unbound
terminal p (some o) = finished o (record {
  attempts = p.attempts;
  work_ms = p.work_ms;
  concurrent = p.concurrent;
  retries_exhausted = is_some o.retry_after_s;
})

abbrev pub first_round : Option ℕ → Progress
first_round window_s = record {
  round = 0;
  attempts = 0;
  work_ms = 0;
  concurrent = 0;
  last = none;
  window = new_window window_s;
}

abbrev pub next_round : Progress → Progress
next_round p = record p { round = suc p.round }

module _ (message : String → String) (rounds : Rounds) where
  -- the window opened, and the attempt made
  abbrev pub opened : Progress → Progress
  opened p = record p { window = open_window p.window (rounds.opened_at p.round) }

  abbrev pub attempted : Progress → Progress
  attempted p =
      let k = p.round in
      record p {
        attempts = p.attempts + 1;
        work_ms = p.work_ms + millis (rounds.started_at k) (rounds.ended_at k);
        concurrent = rounds.concurrent k;
        last = some (attempt message (rounds.handled k));
      }

  unfoldable pub run : ℕ → Progress → Ending
  unfolding open_window grants admits attempt
  run zero p = out_of_fuel
  run (suc fuel) p =
      let k = p.round in
      let o = opened p in
      let a = attempted o in
      let again = run fuel (next_round a) in
      if p.attempts == 0 || admits o.window (rounds.admitted_at k)
      then if rounds.closing k
        then stopped
        else if granted o.window (attempt message (rounds.handled k)).retry_after_s
            (rounds.granted_at k)
        then again
        else terminal a a.last
      else terminal o o.last
